-- ===== src/Planner/State/Operations.antt =====
-- What every operation on a plan keeps, and the sequences of operations.
use mathlib.Core.Bool.{true≢false}
use mona_agent_core.Prelude.{
  ℕ, ◌+◌, ◌≤◌, ◌≡◌, refl, sym, ap, subst, ◌∙◌, ◌≢◌, ◌⊎◌, inl, inr, Bool, true, false, not, ◌&&◌,
  ◌||◌, Option, none, some, List, [], ◌∷◌, arith, ◌==◌, if◌then◌else◌, holds, is_some, is_empty,
  length, usize_max, checked_add, checked_add-eq-some,
}
use mona_agent_core.Prelude.Strings.{Str}
use mona_agent_core.Api.Error.{Result, ok, err, refuse, refuse-eq-ok, ok_or, ok_or-eq-ok, >>=-eq-ok}
use mona_agent_core.Planner.State.{
  normal, plan_only, PlanSnapshot, PlanUpdate, awaits_host, is_complete, is_plan_only,
  PlanSnapshot-discrete, invalid, new, validate, checked, advance,
}
use mona_agent_core.Planner.State.Update.{
  unexplained, allow, check_claims, is_new_task, update, submit, enter_plan_mode, resume_execution,
  reset, next_plan, revise,
}

-- The model updates and submits; the host enters plan mode, resumes and resets.
pub data Operation : Type 0 where
  updates : PlanUpdate → Operation
  submits : ℕ → Str → Operation
  enters resumes resets : ℕ → Operation

-- The revision that the caller has read.
abbrev pub read_revision : Operation → ℕ
read_revision (updates u) = u.revision
read_revision (submits r proposal) = r
read_revision (enters r) = r
read_revision (resumes r) = r
read_revision (resets r) = r

module _ (snapshot_bytes : PlanSnapshot → Option ℕ) where
  unfoldable pub apply : PlanSnapshot → Operation → Result PlanSnapshot
  apply p (updates u) = update snapshot_bytes p u
  apply p (submits r proposal) = submit snapshot_bytes p r proposal
  apply p (enters r) = enter_plan_mode snapshot_bytes p r
  apply p (resumes r) = resume_execution snapshot_bytes p r
  apply p (resets r) = reset snapshot_bytes p r

  abbrev pub IsValid : PlanSnapshot → Type 0
  IsValid p = validate snapshot_bytes p ≡ ok tt

  checked-eq-ok :
      (p : PlanSnapshot) (r : ℕ) {u : Unit {0}}
      → checked snapshot_bytes p r ≡ ok u
      → IsValid p × (p.revision ≡ r)
  unfolding checked
  checked-eq-ok p r h =
      let (u, e, h1) = >>=-eq-ok (validate snapshot_bytes p) _ h in
      (e, ground (arith, refuse-eq-ok (not (p.revision == r)) _ h1))

  advance-eq-ok :
      (p : PlanSnapshot) {q : PlanSnapshot}
      → advance snapshot_bytes p ≡ ok q
      → IsValid q × (q ≡ record p { revision = p.revision + 1 }) × (p.revision + 1 ≤ usize_max)
  unfolding advance
  advance-eq-ok p {q} h =
      let (n, e1, h1) = >>=-eq-ok (ok_or (checked_add p.revision 1) _) _ h in
      let (u, e2, h2) = >>=-eq-ok (validate snapshot_bytes (record p { revision = n })) _ h1 in
      let (sum, fits) = checked_add-eq-some p.revision 1 (ok_or-eq-ok _ _ e1) in
      let same : record p { revision = n } ≡ q = cc in
      (subst IsValid same e2, sym same ∙ ap (λ z. record p { revision = z }) sum, omega arith)

  claims_checked :
      (p : PlanSnapshot) (u : PlanUpdate) {t : Unit {0}}
      → is_plan_only p.mode ≡ true
      → (if is_plan_only p.mode then check_claims p (is_new_task p u) u.steps else ok tt) ≡ ok t
      → check_claims p (is_new_task p u) u.steps ≡ ok tt
  claims_checked p u only h = rw only at h

  -- What `update` has found when it goes on.
  pub record Allowed (p : PlanSnapshot) (u : PlanUpdate) : Type 0 where
    pub valid : IsValid p
    pub current : p.revision ≡ u.revision
    pub open_plan : awaits_host p ≡ false
    pub some_step : is_empty u.steps ≡ false
    pub finished : (u.new_plan && not (is_empty p.steps) && not (is_complete p)) ≡ false
    pub needs_reason : Bool
    pub revised : revise p u ≡ ok needs_reason
    pub claims : is_plan_only p.mode ≡ true → check_claims p (is_new_task p u) u.steps ≡ ok tt

  pub allow-eq-ok :
      (p : PlanSnapshot) (u : PlanUpdate) {t : Unit {0}}
      → allow snapshot_bytes p u ≡ ok t
      → Allowed p u
  unfolding allow
  allow-eq-ok p u h =
      let (_, e1, h1) = >>=-eq-ok (checked snapshot_bytes p u.revision) _ h in
      let (_, e2, h2) =
        >>=-eq-ok
          (refuse (awaits_host p)
            (invalid "plan is submitted; only the host can request refinement or execution"))
          _ h1 in
      let (_, e3, h3) =
        >>=-eq-ok (refuse (is_empty u.steps) (invalid "plan_update requires at least one step")) _
          h2 in
      let (_, e4, h4) =
        >>=-eq-ok
          (refuse (u.new_plan && not (is_empty p.steps) && not (is_complete p)) (
            invalid
              "finish the current plan or ask the host to reset it before starting a new plan"))
          _ h3 in
      let (needs_reason, e5, h5) = >>=-eq-ok (revise p u) _ h4 in
      let (_, e6, h6) =
        >>=-eq-ok
          (refuse (needs_reason && unexplained u.explanation)
            (invalid "explain why unfinished steps were added, removed, reordered or revised"))
          _ h5 in
      let (valid, current) = checked-eq-ok p u.revision e1 in
      record {
        valid = valid;
        current = current;
        open_plan = refuse-eq-ok _ _ e2;
        some_step = refuse-eq-ok _ _ e3;
        finished = refuse-eq-ok _ _ e4;
        needs_reason = needs_reason;
        revised = e5;
        claims = λ only. claims_checked p u only h6;
      }

  -- The last test of `update`: an unchanged plan is returned as it is.
  published :
      (n p : PlanSnapshot) (d : Dec (n ≡ p)) {q : PlanSnapshot}
      → (if holds d then ok n else advance snapshot_bytes n) ≡ ok q
      → IsValid n
      → n.revision ≡ p.revision
      → IsValid q
        × ((q ≡ p) ⊎ (q ≡ record n { revision = p.revision + 1 }))
        × (n ≡ record q { revision = p.revision })
  published n p (yes same) {q} k v r =
      let e : n ≡ q = cc in
      (
        subst IsValid e v,
        inl (sym e ∙ same),
        e ∙ ap (λ z. record q { revision = z }) (ap (λ z. z.revision) (sym e) ∙ r),
      )
  published n p (no differs) {q} k v r =
      let (w, same, fits) = advance-eq-ok n k in
      (
        w,
        inr (same ∙ ap (λ z. record n { revision = z + 1 }) r),
        ap (λ z. record n { revision = z }) r
            ∙ sym (ap (λ (z : PlanSnapshot). record z { revision = p.revision }) same),
      )

  -- A successful update is allowed; it returns the plan itself or the next revision of the next plan.
  pub update-eq-ok :
      (p : PlanSnapshot) (u : PlanUpdate) {q : PlanSnapshot}
      → update snapshot_bytes p u ≡ ok q
      → Allowed p u
        × IsValid q
        × ((q ≡ p) ⊎ (q ≡ record (next_plan p u) { revision = p.revision + 1 }))
        × (next_plan p u ≡ record q { revision = p.revision })
  unfolding update next_plan
  update-eq-ok p u {q} h =
      let (_, e1, h1) = >>=-eq-ok (allow snapshot_bytes p u) _ h in
      let (_, e2, h2) = >>=-eq-ok (validate snapshot_bytes (next_plan p u)) _ h1 in
      let (valid, revised, content) =
        published (next_plan p u) p (PlanSnapshot-discrete (next_plan p u) p) h2 e2 refl in
      (allow-eq-ok p u e1, valid, revised, content)

  -- An operation that advances a plan after its checks.
  advanced :
      (p n : PlanSnapshot) (r : ℕ) {t : Unit {0}} {q : PlanSnapshot}
      → checked snapshot_bytes p r ≡ ok t
      → n.revision ≡ p.revision
      → advance snapshot_bytes n ≡ ok q
      → IsValid p × (p.revision ≡ r) × IsValid q × ((q ≡ p) ⊎ (q.revision ≡ p.revision + 1))
  advanced p n r e same h =
      let (v, current) = checked-eq-ok p r e in
      let (w, next, _) = advance-eq-ok n h in
      (v, current, w, inr (ap (λ z. z.revision) next ∙ ap (λ z. z + 1) same))

  -- A successful operation was asked for the current revision of a valid plan. Its result is valid, and
  -- is the plan itself or has the next revision.
  pub apply-IsValid :
      (p : PlanSnapshot) (o : Operation) {q : PlanSnapshot}
      → apply p o ≡ ok q
      → IsValid p
        × (p.revision ≡ read_revision o)
        × IsValid q
        × ((q ≡ p) ⊎ (q.revision ≡ p.revision + 1))
  unfolding apply submit enter_plan_mode resume_execution reset
  apply-IsValid p (updates u) h =
      let (a, v, revised, _) = update-eq-ok p u h in
      (a.valid, a.current, v, elim revised [ inl e ↦ inl e | inr e ↦ inr (ap (λ z. z.revision) e) ])
  apply-IsValid p (submits r proposal) h =
      let (_, e, h1) = >>=-eq-ok (checked snapshot_bytes p r) _ h in
      let (_, _, h2) =
        >>=-eq-ok
          (refuse (not (is_plan_only p.mode) || is_some p.proposal)
            (invalid "plan_submit requires an unsubmitted plan_only state"))
          _ h1 in
      advanced p (record p { proposal = some proposal }) r e refl h2
  apply-IsValid p (enters r) h =
      let (_, e, h1) = >>=-eq-ok (checked snapshot_bytes p r) _ h in
      advanced p (record p { mode = plan_only; proposal = none }) r e refl h1
  apply-IsValid p (resumes r) h =
      let (_, e, h1) = >>=-eq-ok (checked snapshot_bytes p r) _ h in
      let (_, _, h2) =
        >>=-eq-ok
          (refuse (not (is_plan_only p.mode) || not (is_some p.proposal))
            (invalid "only a submitted plan can be resumed by the host"))
          _ h1 in
      advanced p (record p { mode = normal }) r e refl h2
  apply-IsValid p (resets r) h =
      let (_, e, h1) = >>=-eq-ok (checked snapshot_bytes p r) _ h in
      advanced p (record (new p.mode) { revision = p.revision }) r e refl h1

  submitted :
      (p : PlanSnapshot)
      → awaits_host p ≡ true
      → (not (is_plan_only p.mode) || is_some p.proposal) ≡ false
      → ⊥
  unfolding awaits_host
  submitted p w h = ground arith

  -- A plan that is submitted is changed by the host alone.
  pub awaits_host-refuses :
      (p : PlanSnapshot) (o : Operation) {q : PlanSnapshot}
      → awaits_host p ≡ true
      → apply p o ≡ ok q
      → (o ≡ enters p.revision) ⊎ (o ≡ resumes p.revision) ⊎ (o ≡ resets p.revision)
  unfolding apply submit awaits_host
  awaits_host-refuses p (updates u) w h =
      absurd (true≢false (sym w ∙ (update-eq-ok p u h).0.open_plan))
  awaits_host-refuses p (submits r proposal) w h =
      let (_, e, h1) = >>=-eq-ok (checked snapshot_bytes p r) _ h in
      let (_, e2, h2) =
        >>=-eq-ok
          (refuse (not (is_plan_only p.mode) || is_some p.proposal)
            (invalid "plan_submit requires an unsubmitted plan_only state"))
          _ h1 in
      absurd (submitted p w (refuse-eq-ok _ _ e2))
  awaits_host-refuses p (enters r) w h = inl (ap enters (sym (apply-IsValid p (enters r) h).1))
  awaits_host-refuses p (resumes r) w h =
      inr (inl (ap resumes (sym (apply-IsValid p (resumes r) h).1)))
  awaits_host-refuses p (resets r) w h =
      inr (inr (ap resets (sym (apply-IsValid p (resets r) h).1)))

abbrev after : PlanSnapshot → Result PlanSnapshot → PlanSnapshot
after p (ok q) = q
after p (err e) = p

module _ (snapshot_bytes : PlanSnapshot → Option ℕ) where
  -- A history of operations, each on the plan that the last one left; a refusal leaves it.
  pub run : PlanSnapshot → List Operation → PlanSnapshot
  run p [] = p
  run p (o ∷ os) = run (after p (apply snapshot_bytes p o)) os

  after_step :
      (p : PlanSnapshot) (o : Operation) (r : Result PlanSnapshot)
      → apply snapshot_bytes p o ≡ r
      → IsValid snapshot_bytes p
      → IsValid snapshot_bytes (after p r)
        × (p.revision ≤ (after p r).revision)
        × ((after p r).revision ≤ p.revision + 1)
  after_step p o (err e) h v = (v, omega arith, omega arith)
  after_step p o (ok q) h v =
      let (_, _, w, moved) = apply-IsValid snapshot_bytes p o h in
      let bounds : (p.revision ≤ q.revision) × (q.revision ≤ p.revision + 1) = ground arith in
      (w, bounds.0, bounds.1)

  -- From a valid plan every history leads to a valid plan. Its revision never falls, and grows by at
  -- most one for each operation.
  pub run-IsValid :
      (p : PlanSnapshot) (os : List Operation)
      → IsValid snapshot_bytes p
      → IsValid snapshot_bytes (run p os)
        × (p.revision ≤ (run p os).revision)
        × ((run p os).revision ≤ p.revision + length os)
  unfolding run
  run-IsValid p [] v = (v, omega arith, omega arith)
  run-IsValid p (o ∷ os) v =
      let (w, low, high) = after_step p o (apply snapshot_bytes p o) refl v in
      let (x, lows, highs) = run-IsValid (after p (apply snapshot_bytes p o)) os w in
      (x, omega arith, omega arith)

  -- No lost update: once an operation has changed the plan, another that was made from the same reading
  -- is refused.
  pub stale_refused :
      (p q : PlanSnapshot) (o later : Operation) (r : PlanSnapshot)
      → apply snapshot_bytes p o ≡ ok q
      → q ≢ p
      → read_revision later ≡ read_revision o
      → apply snapshot_bytes q later ≢ ok r
  stale_refused p q o later r h moved same k =
      let (_, current, _, change) = apply-IsValid snapshot_bytes p o h in
      let (_, next, _, _) = apply-IsValid snapshot_bytes q later k in
      elim change [ inl e ↦ moved e | inr e ↦ absurd (omega arith) ]
