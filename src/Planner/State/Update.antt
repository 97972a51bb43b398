-- ===== src/Planner/State/Update.antt =====
-- `PlanSnapshot::update` and the host's operations of packages/planner/src/state.rs.
use mona_agent_core.Prelude.{
  ℕ, ite, Bool, true, not, ◌&&◌, ◌||◌, Option, none, some, List, [], ◌∷◌, map, if◌then◌else◌, holds,
  is_some, is_empty, any, retain,
}
use mona_agent_core.Prelude.Strings.{Str, str_discrete}
use mona_agent_core.Api.Error.{Result, ok, refuse, ◌>>=◌, ◌>>◌}
use mona_agent_core.Planner.State.{
  normal, plan_only, StepStatus, pending, PlanStep, PlanSnapshot, PlanUpdate, StepStatus-discrete,
  steps_discrete, titles_discrete, PlanSnapshot-discrete, plan_version, invalid, bounded_text,
  is_completed, is_in_progress, is_plan_only, new, is_complete, awaits_host, validate, checked,
  advance,
}

-- steps.iter().any(|s| s.id == id)
abbrev pub has_id : Str → List PlanStep → Bool
has_id id = any (λ s. holds (str_discrete s.id id))

abbrev pub titles : List PlanStep → List (Str × Str)
titles = map (λ s. (s.id, s.text))

-- steps.iter().find(|old| old.id == id).map_or(Pending, |old| old.status)
unfoldable pub status_of : Str → List PlanStep → StepStatus
status_of id [] = pending
status_of id (s ∷ ss) = ite (str_discrete s.id id) s.status (status_of id ss)

-- `old_completed`: the completed steps of the plan.
abbrev pub old_completed : PlanSnapshot → List PlanStep
old_completed p = retain is_completed p.steps

-- `kept_completed`: the steps of the update that carry the id of a completed step.
abbrev pub kept_completed : PlanSnapshot → PlanUpdate → List PlanStep
kept_completed p u = retain (λ s. has_id s.id (old_completed p)) u.steps

-- A step in progress that the update sends back to pending.
unfoldable pub sent_back : PlanUpdate → PlanStep → Bool
sent_back u old =
    is_in_progress old
    && any (λ s. holds (str_discrete s.id old.id) && holds (StepStatus-discrete s.status pending))
        u.steps

unfoldable pub unexplained : Option Str → Bool
unexplained none = true
unexplained (some s) = not (bounded_text s 2048)

abbrev pub is_new_task : PlanSnapshot → PlanUpdate → Bool
is_new_task p u = is_empty p.steps || u.new_plan

-- The block `if !new_task { … }`: whether the update needs a reason.
unfoldable pub revise : PlanSnapshot → PlanUpdate → Result Bool
unfolding sent_back
revise p u = if is_new_task p u then ok (u.new_plan && not (is_empty p.steps)) else do
  refuse (not (holds (str_discrete u.goal p.goal)))
      (invalid "the goal of an existing plan cannot be silently replaced")
  refuse (not (holds (steps_discrete (old_completed p) (kept_completed p u))))
      (invalid "completed steps must retain their identity, text, order and completed status")
  ok (
      (u.new_plan && not (is_empty p.steps))
      || not (holds (titles_discrete (titles p.steps) (titles u.steps)))
      || any (sent_back u) p.steps)

-- What a step may claim in plan_only mode.
abbrev pub expected : PlanSnapshot → Bool → PlanStep → StepStatus
expected p new_task s = if new_task then pending else status_of s.id p.steps

-- The loop under `if self.mode == PlanMode::PlanOnly`.
unfoldable pub check_claims : PlanSnapshot → Bool → List PlanStep → Result (Unit {0})
check_claims p new_task [] = ok tt
check_claims p new_task (s ∷ ss) = do
  refuse (not (holds (StepStatus-discrete s.status (expected p new_task s))))
      (invalid "plan_only cannot claim execution progress; new steps must be pending")
  check_claims p new_task ss

abbrev or_else : Option Str → Option Str → Option Str
or_else none o = o
or_else (some s) o = some s

-- `let next = Self { … }`
unfoldable pub next_plan : PlanSnapshot → PlanUpdate → PlanSnapshot
next_plan p u = record {
  version = plan_version;
  revision = p.revision;
  mode = p.mode;
  goal = u.goal;
  steps = u.steps;
  explanation = or_else u.explanation (if is_new_task p u then none else p.explanation);
  proposal = if is_new_task p u then none else p.proposal;
}

module _ (snapshot_bytes : PlanSnapshot → Option ℕ) where
  -- The tests that `update` makes before it builds the next plan.
  unfoldable pub allow : PlanSnapshot → PlanUpdate → Result (Unit {0})
  unfolding unexplained
  allow p u = do
    checked snapshot_bytes p u.revision
    refuse (awaits_host p)
        (invalid "plan is submitted; only the host can request refinement or execution")
    refuse (is_empty u.steps) (invalid "plan_update requires at least one step")
    refuse (u.new_plan && not (is_empty p.steps) && not (is_complete p))
        (invalid "finish the current plan or ask the host to reset it before starting a new plan")
    needs_reason ← revise p u
    refuse (needs_reason && unexplained u.explanation)
        (invalid "explain why unfinished steps were added, removed, reordered or revised")
    if is_plan_only p.mode then check_claims p (is_new_task p u) u.steps else ok tt

  unfoldable pub update : PlanSnapshot → PlanUpdate → Result PlanSnapshot
  update p u = do
    allow p u
    validate snapshot_bytes (next_plan p u)
    if holds (PlanSnapshot-discrete (next_plan p u) p)
        then ok (next_plan p u)
        else advance snapshot_bytes (next_plan p u)

  unfoldable pub submit : PlanSnapshot → ℕ → Str → Result PlanSnapshot
  submit p revision proposal = do
    checked snapshot_bytes p revision
    refuse (not (is_plan_only p.mode) || is_some p.proposal)
        (invalid "plan_submit requires an unsubmitted plan_only state")
    advance snapshot_bytes (record p { proposal = some proposal })

  unfoldable pub enter_plan_mode : PlanSnapshot → ℕ → Result PlanSnapshot
  enter_plan_mode p revision = do
    checked snapshot_bytes p revision
    advance snapshot_bytes (record p { mode = plan_only; proposal = none })

  unfoldable pub resume_execution : PlanSnapshot → ℕ → Result PlanSnapshot
  resume_execution p revision = do
    checked snapshot_bytes p revision
    refuse (not (is_plan_only p.mode) || not (is_some p.proposal))
        (invalid "only a submitted plan can be resumed by the host")
    advance snapshot_bytes (record p { mode = normal })

  unfoldable pub reset : PlanSnapshot → ℕ → Result PlanSnapshot
  reset p revision = do
    checked snapshot_bytes p revision
    advance snapshot_bytes (record (new p.mode) { revision = p.revision })
