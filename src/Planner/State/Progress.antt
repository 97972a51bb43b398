-- ===== src/Planner/State/Progress.antt =====
-- What `update` may not change: the goal and the completed steps, and in plan_only mode any progress.
use mona_agent_core.Prelude.{
  ℕ, ◌≡◌, refl, sym, ap, subst, ◌∙◌, Bool, true, false, not, ◌&&◌, Option, List, [], ◌∷◌, arith,
  holds, holds→, is_empty, ite, ◌⊎◌, inl, inr,
}
use mathlib.Core.Bool.{Bool-set}
use mathlib.Core.List.{Mem, mem-cons, mem-cons_self, mem-cons_of_mem, not-mem-nil}
use mathlib.Core.Logic.Or
use mona_agent_core.Prelude.Strings.{str_discrete}
use mona_agent_core.Prelude.Sets.{mem-retain→, →mem-retain}
use mona_agent_core.Api.Error.{ok, refuse, refuse-eq-ok, >>=-eq-ok}
use mona_agent_core.Planner.State.{
  PlanSnapshot, PlanStep, PlanUpdate, StepStatus-discrete, steps_discrete, invalid, is_completed,
  is_complete, is_plan_only, plan_only, pending,
}
use mona_agent_core.Planner.State.Update.{
  update, next_plan, revise, check_claims, is_new_task, has_id, old_completed, kept_completed,
  expected, status_of,
}
use mona_agent_core.Planner.State.Operations.{update-eq-ok}

not-false : (b : Bool) → not b ≡ false → b ≡ true
not-false b h = ground arith

-- An existing plan keeps its goal, and its completed steps are those of the update with their ids.
revise-kept :
    (p : PlanSnapshot) (u : PlanUpdate) {b : Bool}
    → is_new_task p u ≡ false
    → revise p u ≡ ok b
    → (u.goal ≡ p.goal) × (old_completed p ≡ kept_completed p u)
unfolding revise
revise-kept p u same h =
    let k = rw same at h in
    let (_, e1, h1) =
      >>=-eq-ok
        (refuse (not (holds (str_discrete u.goal p.goal)))
          (invalid "the goal of an existing plan cannot be silently replaced"))
        _ k in
    let (_, e2, h2) =
      >>=-eq-ok
        (refuse (not (holds (steps_discrete (old_completed p) (kept_completed p u))))
          (invalid "completed steps must retain their identity, text, order and completed status"))
        _ h1 in
    (
      holds→ (str_discrete u.goal p.goal) (not-false _ (refuse-eq-ok _ _ e1)),
      holds→ (steps_discrete (old_completed p) (kept_completed p u))
          (not-false _ (refuse-eq-ok _ _ e2)),
    )

-- A new plan replaces only an empty or a complete one.
unfinished-same_task :
    (p : PlanSnapshot) (u : PlanUpdate)
    → (u.new_plan && not (is_empty p.steps) && not (is_complete p)) ≡ false
    → is_complete p ≡ false
    → is_empty p.steps ≡ false
    → is_new_task p u ≡ false
unfinished-same_task p u h incomplete some_step = ground arith

module _ (snapshot_bytes : PlanSnapshot → Option ℕ) where
  steps_of :
      (p : PlanSnapshot) (u : PlanUpdate) (q : PlanSnapshot)
      → next_plan p u ≡ record q { revision = p.revision }
      → (u.steps ≡ q.steps) × (u.goal ≡ q.goal)
  unfolding next_plan
  steps_of p u q e = (ap (λ z. z.steps) e, ap (λ z. z.goal) e)

  mem-nonempty : (s : PlanStep) (xs : List PlanStep) → Mem s xs → is_empty xs ≡ false
  mem-nonempty s [] m = absurd (not-mem-nil m)
  mem-nonempty s (x ∷ xs) m = refl

  -- While a plan is not complete, an accepted update keeps each completed step with its text and
  -- status, and, if there is such a step, the goal.
  pub update-keeps_completed :
      (p : PlanSnapshot) (u : PlanUpdate) (s : PlanStep) {q : PlanSnapshot}
      → update snapshot_bytes p u ≡ ok q
      → is_complete p ≡ false
      → Mem s p.steps
      → is_completed s ≡ true
      → Mem s q.steps × (q.goal ≡ p.goal)
  update-keeps_completed p u s {q} h incomplete m c =
      let (a, _, _, content) = update-eq-ok snapshot_bytes p u h in
      let (steps, goal) = steps_of p u q content in
      let same = unfinished-same_task p u a.finished incomplete (mem-nonempty s p.steps m) in
      let (kept_goal, kept) = revise-kept p u same a.revised in
      (
        subst (Mem s) steps (
            mem-retain→ (λ z. has_id z.id (old_completed p)) s u.steps
              (subst (Mem s) kept (→mem-retain is_completed s p.steps m c))),
        sym goal ∙ kept_goal,
      )

  claims-expected :
      (p : PlanSnapshot) (new_task : Bool) (ss : List PlanStep) (s : PlanStep)
      → check_claims p new_task ss ≡ ok tt
      → Mem s ss
      → holds (StepStatus-discrete s.status (expected p new_task s)) ≡ true
  unfolding check_claims
  claims-expected p new_task [] s h m = absurd (not-mem-nil m)
  claims-expected p new_task (x ∷ ss) s h m =
      let (_, e, h1) =
        >>=-eq-ok
          (refuse (not (holds (StepStatus-discrete x.status (expected p new_task x))))
            (invalid "plan_only cannot claim execution progress; new steps must be pending"))
          _ h in
      Or.elim (Bool-set _ _) (mem-cons.0 m)
        (λ same.
          subst (λ z. holds (StepStatus-discrete z.status (expected p new_task z)) ≡ true)
            (sym same) (not-false _ (refuse-eq-ok _ _ e)))
        (claims-expected p new_task ss s h1)

  -- A status that is expected is pending, or that of a step with the id.
  abbrev Known : List PlanStep → PlanStep → Type 0
  Known steps s =
      (s.status ≡ pending)
      ⊎ ((old : PlanStep) × Mem old steps × (old.id ≡ s.id) × (old.status ≡ s.status))

  status_of-Known :
      (steps : List PlanStep) (s : PlanStep) → s.status ≡ status_of s.id steps → Known steps s
  unfolding status_of
  status_of-Known [] s h = inl h
  status_of-Known (x ∷ xs) s h = by_id (str_discrete x.id s.id) h (status_of-Known xs s)
    where
      later : Known xs s → Known (x ∷ xs) s
      later (inl q) = inl q
      later (inr (old, m, same, status)) = inr (old, mem-cons_of_mem _ m, same, status)

      by_id :
          (d : Dec (x.id ≡ s.id))
          → s.status ≡ ite d x.status (status_of s.id xs)
          → (s.status ≡ status_of s.id xs → Known xs s)
          → Known (x ∷ xs) s
      by_id (yes q) k ih = inr (x, mem-cons_self, q, sym k)
      by_id (no q) k ih = later (ih k)

  expected-Known :
      (p : PlanSnapshot) (new_task : Bool) (s : PlanStep)
      → s.status ≡ expected p new_task s
      → Known p.steps s
  expected-Known p true s h = inl h
  expected-Known p false s h = status_of-Known p.steps s h

  -- In plan_only mode an accepted update claims no progress: each of its steps is pending, or the plan
  -- has a step with the same id and the same status.
  pub update-claims_nothing :
      (p : PlanSnapshot) (u : PlanUpdate) (s : PlanStep) {q : PlanSnapshot}
      → update snapshot_bytes p u ≡ ok q
      → p.mode ≡ plan_only
      → Mem s q.steps
      → (s.status ≡ pending)
        ⊎ ((old : PlanStep) × Mem old p.steps × (old.id ≡ s.id) × (old.status ≡ s.status))
  update-claims_nothing p u s {q} h only m =
      let (a, _, _, content) = update-eq-ok snapshot_bytes p u h in
      let (steps, _) = steps_of p u q content in
      expected-Known p (is_new_task p u) s (
        holds→ (StepStatus-discrete s.status (expected p (is_new_task p u) s)) (
          claims-expected p (is_new_task p u) u.steps s (a.claims (ap is_plan_only only))
            (subst (Mem s) (sym steps) m)))
