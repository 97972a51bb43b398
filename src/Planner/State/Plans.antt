-- ===== src/Planner/State/Plans.antt =====
-- What a snapshot that `validate` accepts looks like.
use mona_agent_core.Prelude.{
  ℕ, ◌+◌, ◌≤◌, ◌≡◌, Bool, true, false, not, ◌&&◌, ◌||◌, Option, none, some, List, [], ◌∷◌, map,
  arith, ltb, ◌==◌, if◌then◌else◌, is_some, is_empty, ||-false, length,
}
use mathlib.Core.List.{
  Mem, Nodup, Nodup-nil, Nodup-cons, mem-cons, not-mem-nil, mem-cons_self, mem-cons_of_mem,
}
use mathlib.Core.Logic.Or
use mathlib.Core.HLevel.{¬_prop, ⊥_prop}
use mona_agent_core.Prelude.Strings.{Str, str_discrete}
use mona_agent_core.Prelude.Sets.{contains, not-mem_of_contains}
use mona_agent_core.Api.Error.{ok, refuse, refuse-eq-ok, >>=-eq-ok}
use mona_agent_core.Planner.State.{
  PlanSnapshot, PlanStep, invalid, is_in_progress, is_complete, is_plan_only, plan_version,
  max_plan_bytes, over_limit, max_steps, bool_eq, bad_step, check_steps, bounded_text,
  bad_explanation, bad_proposal, validate,
}

abbrev pub step_ids : List PlanStep → List Str
step_ids = map (λ s. s.id)

abbrev pub step_texts : List PlanStep → List Str
step_texts = map (λ s. s.text)

abbrev pub count_in_progress : List PlanStep → ℕ
count_in_progress [] = 0
count_in_progress (s ∷ ss) = (if is_in_progress s then 1 else 0) + count_in_progress ss

-- Ids and texts are distinct and nonempty, at most one step is in progress, a goal stands exactly with
-- steps, and a proposal only with steps, of which some are open in plan_only mode.
pub record IsPlan (p : PlanSnapshot) : Type 0 where
  pub version : p.version ≡ plan_version
  pub few : length p.steps ≤ max_steps
  pub ids : Nodup (step_ids p.steps)
  pub texts : Nodup (step_texts p.steps)
  pub named : ¬ Mem [] (step_ids p.steps)
  pub one_active : count_in_progress p.steps ≤ 1
  pub goal : is_empty p.goal ≡ is_empty p.steps
  pub proposal : is_some p.proposal ≡ true → is_empty p.steps ≡ false
  pub open_work : is_some p.proposal ≡ true → is_plan_only p.mode ≡ true → is_complete p ≡ false

-- Distinct from one another and from what the loop has met.
abbrev Fresh : List Str → List Str → Type 0
Fresh xs met = Nodup xs × ((a : Str) → Mem a xs → ¬ Mem a met)

Fresh-cons : (x : Str) (xs met : List Str) → ¬ Mem x met → Fresh xs (x ∷ met) → Fresh (x ∷ xs) met
Fresh-cons x xs met new (distinct, apart) = (
  Nodup-cons.1 ((λ m. apart x m mem-cons_self), distinct),
  λ a m. Or.elim ¬_prop (mem-cons.0 m) (λ e. rw e new) (λ t k. apart a t (mem-cons_of_mem x k)),
)

record Checked (ss : List PlanStep) (ids texts : List Str) (count total : ℕ) : Type 0 where
  fresh_ids : Fresh (step_ids ss) ids
  fresh_texts : Fresh (step_texts ss) texts
  named : ¬ Mem [] (step_ids ss)
  counted : total ≡ count + count_in_progress ss

good_step :
    (s : PlanStep) (ids texts : List Str)
    → bad_step s ids texts ≡ false
    → (is_empty s.id ≡ false)
      × (contains str_discrete s.id ids ≡ false)
      × (contains str_discrete s.text texts ≡ false)
unfolding bad_step
good_step s ids texts h = ground arith

check_steps-Checked :
    (ss : List PlanStep) (ids texts : List Str) (count : ℕ) {total : ℕ}
    → check_steps ss ids texts count ≡ ok total
    → Checked ss ids texts count total
unfolding check_steps
check_steps-Checked [] ids texts count h = record {
  fresh_ids = (Nodup-nil, λ a m. absurd (not-mem-nil m));
  fresh_texts = (Nodup-nil, λ a m. absurd (not-mem-nil m));
  named = not-mem-nil;
  counted = ground arith;
}
check_steps-Checked (s ∷ ss) ids texts count h =
    let (_, e, h1) =
      >>=-eq-ok
        (refuse (bad_step s ids texts)
          (invalid "plan step ids and texts must be nonempty, bounded and unique"))
        _ h in
    let (named, new_id, new_text) = good_step s ids texts (refuse-eq-ok _ _ e) in
    let ih = check_steps-Checked ss (s.id ∷ ids) (s.text ∷ texts) _ h1 in
    record {
      fresh_ids =
          Fresh-cons s.id _ ids (not-mem_of_contains str_discrete s.id ids new_id) ih.fresh_ids;
      fresh_texts =
          Fresh-cons s.text _ texts (not-mem_of_contains str_discrete s.text texts new_text)
            ih.fresh_texts;
      named = λ m.
          Or.elim ⊥_prop (mem-cons.0 m) (λ x. let k : is_empty s.id ≡ true = rw (← x) in cc)
            ih.named;
      counted = omega (arith, ih.counted);
    }

bool_eq→ : (a b : Bool) → bool_eq a b ≡ true → a ≡ b
bool_eq→ a b h = ground arith

not-false : (b : Bool) → not b ≡ false → b ≡ true
not-false b h = ground arith

sizes :
    (p : PlanSnapshot)
    → (ltb max_steps (length p.steps)
        || not (bool_eq (is_empty p.goal) (is_empty p.steps))
        || (not (is_empty p.goal) && not (bounded_text p.goal 2048)))
      ≡ false
    → (length p.steps ≤ max_steps) × (is_empty p.goal ≡ is_empty p.steps)
sizes p h =
    let (ab, _) =
      ||-false
        (ltb max_steps (length p.steps) || not (bool_eq (is_empty p.goal) (is_empty p.steps)))
        (not (is_empty p.goal) && not (bounded_text p.goal 2048)) h in
    let (a, b) =
      ||-false (ltb max_steps (length p.steps)) (not (bool_eq (is_empty p.goal) (is_empty p.steps)))
        ab in
    (ground (arith, a), bool_eq→ _ _ (not-false _ b))

good_proposal :
    (p : PlanSnapshot) (o : Option Str)
    → bad_proposal p o ≡ false
    → is_some o ≡ true
    → (is_empty p.steps ≡ false) × (is_plan_only p.mode ≡ true → is_complete p ≡ false)
unfolding bad_proposal
good_proposal p none h s = ground arith
good_proposal p (some x) h s = (ground arith, λ m. ground arith)

-- `validate` accepts well-formed plans only.
pub validate-IsPlan :
    (snapshot_bytes : PlanSnapshot → Option ℕ) (p : PlanSnapshot)
    → validate snapshot_bytes p ≡ ok tt
    → IsPlan p
unfolding validate
validate-IsPlan snapshot_bytes p h =
    let (_, e1, h1) =
      >>=-eq-ok
        (refuse (not (p.version == plan_version)) (invalid "unsupported plan snapshot version")) _
        h in
    let (_, e2, h2) =
      >>=-eq-ok
        (refuse
          (ltb max_steps (length p.steps)
            || not (bool_eq (is_empty p.goal) (is_empty p.steps))
            || (not (is_empty p.goal) && not (bounded_text p.goal 2048)))
          (invalid "plan needs a nonempty goal and 1..32 steps, or an empty state"))
        _ h1 in
    let (count, e3, h3) = >>=-eq-ok (check_steps p.steps [] [] 0) _ h2 in
    let (_, e4, h4) =
      >>=-eq-ok (refuse (ltb 1 count) (invalid "at most one plan step may be in_progress")) _ h3 in
    let (_, _, h5) =
      >>=-eq-ok
        (refuse (bad_explanation p.explanation)
          (invalid "plan explanation must be nonempty and at most 2048 UTF-8 bytes"))
        _ h4 in
    let (_, e6, _) =
      >>=-eq-ok
        (refuse (bad_proposal p p.proposal) (
          invalid
            "a proposal needs plan steps and headed Markdown; plan_only must have remaining work"))
        _ h5 in
    let sound = good_proposal p p.proposal (refuse-eq-ok _ _ e6) in
    let c = check_steps-Checked p.steps [] [] 0 e3 in
    let (few, goal) = sizes p (refuse-eq-ok _ _ e2) in
    record {
      version = ground (arith, refuse-eq-ok (not (p.version == plan_version)) _ e1);
      few = few;
      ids = c.fresh_ids.0;
      texts = c.fresh_texts.0;
      named = c.named;
      one_active = ground (arith, c.counted, refuse-eq-ok (ltb 1 count) _ e4);
      goal = goal;
      proposal = λ k. (sound k).0;
      open_work = λ k. (sound k).1;
    }

pub validate-size :
    (snapshot_bytes : PlanSnapshot → Option ℕ) (p : PlanSnapshot)
    → validate snapshot_bytes p ≡ ok tt
    → over_limit max_plan_bytes (snapshot_bytes p) ≡ false
unfolding validate
validate-size snapshot_bytes p h = ground arith
