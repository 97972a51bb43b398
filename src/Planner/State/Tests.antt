-- ===== src/Planner/State/Tests.antt =====
-- A concrete plan: made, worked on, submitted and resumed, with the size of a snapshot taken as 100.
use mona_agent_core.Prelude.{
  ℕ, ◌+◌, ◌≤◌, ◌≡◌, refl, ap, ◌≢◌, ◌⊎◌, true, false, Option, none, some, List, [], ◌∷◌, length,
  checked_add, ℕ_discrete,
}
use mathlib.Core.List.{Mem, mem-cons_self}
use mona_agent_core.Prelude.Strings.{Str, str, str_discrete}
use mona_agent_core.Api.Error.{ok}
use mona_agent_core.Planner.State.{
  PlanMode, PlanSnapshot, PlanStep, PlanUpdate, StepStatus, pending, in_progress, completed, normal,
  plan_only, new, validate, awaits_host, is_complete, is_completed,
}
use mona_agent_core.Planner.State.Update.{update}
use mona_agent_core.Planner.State.Operations.{
  Operation, updates, submits, enters, resumes, resets, apply, IsValid, apply-IsValid,
  awaits_host-refuses, run, run-IsValid, stale_refused, read_revision,
}
use mona_agent_core.Planner.State.Plans.{IsPlan, validate-IsPlan}
use mona_agent_core.Planner.State.Progress.{update-keeps_completed, update-claims_nothing}

abbrev hundred : PlanSnapshot → Option ℕ
hundred p = some 100

abbrev step : Str → StepStatus → PlanStep
step id status = record { id = id; text = id; status = status }

abbrev first_update : PlanUpdate
first_update = record {
  revision = 0;
  goal = str "Ship";
  steps = step (str "a") completed ∷ step (str "b") in_progress ∷ [];
  explanation = none;
  new_plan = false;
}

abbrev plan : PlanMode → ℕ → StepStatus → Option Str → PlanSnapshot
plan mode revision status proposal = record {
  version = 1;
  revision = revision;
  mode = mode;
  goal = str "Ship";
  steps = step (str "a") completed ∷ step (str "b") status ∷ [];
  explanation = none;
  proposal = proposal;
}

abbrev second_update : PlanUpdate
second_update = record {
  revision = 1;
  goal = str "Ship";
  steps = step (str "a") completed ∷ step (str "b") completed ∷ [];
  explanation = none;
  new_plan = false;
}

abbrev proposal : Str
proposal = str "# Ship it"

made : update hundred (new normal) first_update ≡ ok (plan normal 1 in_progress none)
unfolding update mona_agent_core.Planner.State.Update.allow mona_agent_core.Planner.State.checked
    validate new awaits_host mona_agent_core.Planner.State.Update.revise
    mona_agent_core.Planner.State.Update.next_plan str str_discrete
    mona_agent_core.Prelude.Strings.trim mona_agent_core.Prelude.Strings.len
    mona_agent_core.Prelude.Strings.is_control mona_agent_core.Prelude.Strings.bytes
    mona_agent_core.Prelude.Strings.is_ascii_alphanumeric mona_agent_core.Prelude.Sets.contains
    mona_agent_core.Planner.State.PlanSnapshot-discrete
    mona_agent_core.Planner.State.PlanStep-discrete
    mona_agent_core.Planner.State.StepStatus-discrete
    mona_agent_core.Planner.State.Update.check_claims mona_agent_core.Planner.State.Update.status_of
    mona_agent_core.Planner.State.Update.sent_back mona_agent_core.Planner.State.Update.unexplained
    mona_agent_core.Planner.State.advance mona_agent_core.Planner.State.bad_explanation
    mona_agent_core.Planner.State.bad_proposal mona_agent_core.Planner.State.bad_step
    mona_agent_core.Planner.State.bounded_text mona_agent_core.Planner.State.check_steps
    mona_agent_core.Planner.State.forbidden is_complete mona_agent_core.Planner.State.is_id_byte
    mona_agent_core.Planner.State.over_limit mona_agent_core.Planner.State.steps_discrete
    mona_agent_core.Planner.State.titles_discrete mona_agent_core.Prelude.Strings.encode_utf8
    mona_agent_core.Prelude.Strings.is_whitespace mona_agent_core.Prelude.Strings.len_utf8
    mona_agent_core.Prelude.Strings.starts_with checked_add ℕ_discrete
made = refl

finished :
    update hundred (plan normal 1 in_progress none) second_update
    ≡ ok (plan normal 2 completed none)
unfolding update mona_agent_core.Planner.State.Update.allow mona_agent_core.Planner.State.checked
    validate new awaits_host mona_agent_core.Planner.State.Update.revise
    mona_agent_core.Planner.State.Update.next_plan str str_discrete
    mona_agent_core.Prelude.Strings.trim mona_agent_core.Prelude.Strings.len
    mona_agent_core.Prelude.Strings.is_control mona_agent_core.Prelude.Strings.bytes
    mona_agent_core.Prelude.Strings.is_ascii_alphanumeric mona_agent_core.Prelude.Sets.contains
    mona_agent_core.Planner.State.PlanSnapshot-discrete
    mona_agent_core.Planner.State.PlanStep-discrete
    mona_agent_core.Planner.State.StepStatus-discrete
    mona_agent_core.Planner.State.Update.check_claims mona_agent_core.Planner.State.Update.status_of
    mona_agent_core.Planner.State.Update.sent_back mona_agent_core.Planner.State.Update.unexplained
    mona_agent_core.Planner.State.advance mona_agent_core.Planner.State.bad_explanation
    mona_agent_core.Planner.State.bad_proposal mona_agent_core.Planner.State.bad_step
    mona_agent_core.Planner.State.bounded_text mona_agent_core.Planner.State.check_steps
    mona_agent_core.Planner.State.forbidden is_complete mona_agent_core.Planner.State.is_id_byte
    mona_agent_core.Planner.State.over_limit mona_agent_core.Planner.State.steps_discrete
    mona_agent_core.Planner.State.titles_discrete mona_agent_core.Prelude.Strings.encode_utf8
    mona_agent_core.Prelude.Strings.is_whitespace mona_agent_core.Prelude.Strings.len_utf8
    mona_agent_core.Prelude.Strings.starts_with checked_add ℕ_discrete
finished = refl

entered :
    apply hundred (plan normal 1 in_progress none) (enters 1)
    ≡ ok (plan plan_only 2 in_progress none)
unfolding update mona_agent_core.Planner.State.Update.allow mona_agent_core.Planner.State.checked
    validate new awaits_host mona_agent_core.Planner.State.Update.revise
    mona_agent_core.Planner.State.Update.next_plan str str_discrete
    mona_agent_core.Prelude.Strings.trim mona_agent_core.Prelude.Strings.len
    mona_agent_core.Prelude.Strings.is_control mona_agent_core.Prelude.Strings.bytes
    mona_agent_core.Prelude.Strings.is_ascii_alphanumeric mona_agent_core.Prelude.Sets.contains
    mona_agent_core.Planner.State.PlanSnapshot-discrete
    mona_agent_core.Planner.State.PlanStep-discrete
    mona_agent_core.Planner.State.StepStatus-discrete
    mona_agent_core.Planner.State.Update.check_claims mona_agent_core.Planner.State.Update.status_of
    mona_agent_core.Planner.State.Update.sent_back mona_agent_core.Planner.State.Update.unexplained
    mona_agent_core.Planner.State.advance mona_agent_core.Planner.State.bad_explanation
    mona_agent_core.Planner.State.bad_proposal mona_agent_core.Planner.State.bad_step
    mona_agent_core.Planner.State.bounded_text mona_agent_core.Planner.State.check_steps
    mona_agent_core.Planner.State.forbidden is_complete mona_agent_core.Planner.State.is_id_byte
    mona_agent_core.Planner.State.over_limit mona_agent_core.Planner.State.steps_discrete
    mona_agent_core.Planner.State.titles_discrete mona_agent_core.Prelude.Strings.encode_utf8
    mona_agent_core.Prelude.Strings.is_whitespace mona_agent_core.Prelude.Strings.len_utf8
    mona_agent_core.Prelude.Strings.starts_with checked_add ℕ_discrete apply
    mona_agent_core.Planner.State.Update.submit mona_agent_core.Planner.State.Update.enter_plan_mode
    mona_agent_core.Planner.State.Update.resume_execution
entered = refl

submitted :
    apply hundred (plan plan_only 2 in_progress none) (submits 2 proposal)
    ≡ ok (plan plan_only 3 in_progress (some proposal))
unfolding update mona_agent_core.Planner.State.Update.allow mona_agent_core.Planner.State.checked
    validate new awaits_host mona_agent_core.Planner.State.Update.revise
    mona_agent_core.Planner.State.Update.next_plan str str_discrete
    mona_agent_core.Prelude.Strings.trim mona_agent_core.Prelude.Strings.len
    mona_agent_core.Prelude.Strings.is_control mona_agent_core.Prelude.Strings.bytes
    mona_agent_core.Prelude.Strings.is_ascii_alphanumeric mona_agent_core.Prelude.Sets.contains
    mona_agent_core.Planner.State.PlanSnapshot-discrete
    mona_agent_core.Planner.State.PlanStep-discrete
    mona_agent_core.Planner.State.StepStatus-discrete
    mona_agent_core.Planner.State.Update.check_claims mona_agent_core.Planner.State.Update.status_of
    mona_agent_core.Planner.State.Update.sent_back mona_agent_core.Planner.State.Update.unexplained
    mona_agent_core.Planner.State.advance mona_agent_core.Planner.State.bad_explanation
    mona_agent_core.Planner.State.bad_proposal mona_agent_core.Planner.State.bad_step
    mona_agent_core.Planner.State.bounded_text mona_agent_core.Planner.State.check_steps
    mona_agent_core.Planner.State.forbidden is_complete mona_agent_core.Planner.State.is_id_byte
    mona_agent_core.Planner.State.over_limit mona_agent_core.Planner.State.steps_discrete
    mona_agent_core.Planner.State.titles_discrete mona_agent_core.Prelude.Strings.encode_utf8
    mona_agent_core.Prelude.Strings.is_whitespace mona_agent_core.Prelude.Strings.len_utf8
    mona_agent_core.Prelude.Strings.starts_with checked_add ℕ_discrete apply
    mona_agent_core.Planner.State.Update.submit mona_agent_core.Planner.State.Update.enter_plan_mode
    mona_agent_core.Planner.State.Update.resume_execution
submitted = refl

resumed :
    apply hundred (plan plan_only 3 in_progress (some proposal)) (resumes 3)
    ≡ ok (plan normal 4 in_progress (some proposal))
unfolding update mona_agent_core.Planner.State.Update.allow mona_agent_core.Planner.State.checked
    validate new awaits_host mona_agent_core.Planner.State.Update.revise
    mona_agent_core.Planner.State.Update.next_plan str str_discrete
    mona_agent_core.Prelude.Strings.trim mona_agent_core.Prelude.Strings.len
    mona_agent_core.Prelude.Strings.is_control mona_agent_core.Prelude.Strings.bytes
    mona_agent_core.Prelude.Strings.is_ascii_alphanumeric mona_agent_core.Prelude.Sets.contains
    mona_agent_core.Planner.State.PlanSnapshot-discrete
    mona_agent_core.Planner.State.PlanStep-discrete
    mona_agent_core.Planner.State.StepStatus-discrete
    mona_agent_core.Planner.State.Update.check_claims mona_agent_core.Planner.State.Update.status_of
    mona_agent_core.Planner.State.Update.sent_back mona_agent_core.Planner.State.Update.unexplained
    mona_agent_core.Planner.State.advance mona_agent_core.Planner.State.bad_explanation
    mona_agent_core.Planner.State.bad_proposal mona_agent_core.Planner.State.bad_step
    mona_agent_core.Planner.State.bounded_text mona_agent_core.Planner.State.check_steps
    mona_agent_core.Planner.State.forbidden is_complete mona_agent_core.Planner.State.is_id_byte
    mona_agent_core.Planner.State.over_limit mona_agent_core.Planner.State.steps_discrete
    mona_agent_core.Planner.State.titles_discrete mona_agent_core.Prelude.Strings.encode_utf8
    mona_agent_core.Prelude.Strings.is_whitespace mona_agent_core.Prelude.Strings.len_utf8
    mona_agent_core.Prelude.Strings.starts_with checked_add ℕ_discrete apply
    mona_agent_core.Planner.State.Update.submit mona_agent_core.Planner.State.Update.enter_plan_mode
    mona_agent_core.Planner.State.Update.resume_execution
resumed = refl

abbrev planned_update : PlanUpdate
planned_update = record second_update {
  revision = 2;
  steps = step (str "a") completed ∷ step (str "b") in_progress ∷ [];
}

unchanged :
    update hundred (plan plan_only 2 in_progress none) planned_update
    ≡ ok (plan plan_only 2 in_progress none)
unfolding update mona_agent_core.Planner.State.Update.allow mona_agent_core.Planner.State.checked
    validate new awaits_host mona_agent_core.Planner.State.Update.revise
    mona_agent_core.Planner.State.Update.next_plan str str_discrete
    mona_agent_core.Prelude.Strings.trim mona_agent_core.Prelude.Strings.len
    mona_agent_core.Prelude.Strings.is_control mona_agent_core.Prelude.Strings.bytes
    mona_agent_core.Prelude.Strings.is_ascii_alphanumeric mona_agent_core.Prelude.Sets.contains
    mona_agent_core.Planner.State.PlanSnapshot-discrete
    mona_agent_core.Planner.State.PlanStep-discrete
    mona_agent_core.Planner.State.StepStatus-discrete
    mona_agent_core.Planner.State.Update.check_claims mona_agent_core.Planner.State.Update.status_of
    mona_agent_core.Planner.State.Update.sent_back mona_agent_core.Planner.State.Update.unexplained
    mona_agent_core.Planner.State.advance mona_agent_core.Planner.State.bad_explanation
    mona_agent_core.Planner.State.bad_proposal mona_agent_core.Planner.State.bad_step
    mona_agent_core.Planner.State.bounded_text mona_agent_core.Planner.State.check_steps
    mona_agent_core.Planner.State.forbidden is_complete mona_agent_core.Planner.State.is_id_byte
    mona_agent_core.Planner.State.over_limit mona_agent_core.Planner.State.steps_discrete
    mona_agent_core.Planner.State.titles_discrete mona_agent_core.Prelude.Strings.encode_utf8
    mona_agent_core.Prelude.Strings.is_whitespace mona_agent_core.Prelude.Strings.len_utf8
    mona_agent_core.Prelude.Strings.starts_with checked_add ℕ_discrete
unchanged = refl

valid : IsValid hundred (plan normal 1 in_progress none)
unfolding update mona_agent_core.Planner.State.Update.allow mona_agent_core.Planner.State.checked
    validate new awaits_host mona_agent_core.Planner.State.Update.revise
    mona_agent_core.Planner.State.Update.next_plan str str_discrete
    mona_agent_core.Prelude.Strings.trim mona_agent_core.Prelude.Strings.len
    mona_agent_core.Prelude.Strings.is_control mona_agent_core.Prelude.Strings.bytes
    mona_agent_core.Prelude.Strings.is_ascii_alphanumeric mona_agent_core.Prelude.Sets.contains
    mona_agent_core.Planner.State.PlanSnapshot-discrete
    mona_agent_core.Planner.State.PlanStep-discrete
    mona_agent_core.Planner.State.StepStatus-discrete
    mona_agent_core.Planner.State.Update.check_claims mona_agent_core.Planner.State.Update.status_of
    mona_agent_core.Planner.State.Update.sent_back mona_agent_core.Planner.State.Update.unexplained
    mona_agent_core.Planner.State.advance mona_agent_core.Planner.State.bad_explanation
    mona_agent_core.Planner.State.bad_proposal mona_agent_core.Planner.State.bad_step
    mona_agent_core.Planner.State.bounded_text mona_agent_core.Planner.State.check_steps
    mona_agent_core.Planner.State.forbidden is_complete mona_agent_core.Planner.State.is_id_byte
    mona_agent_core.Planner.State.over_limit mona_agent_core.Planner.State.steps_discrete
    mona_agent_core.Planner.State.titles_discrete mona_agent_core.Prelude.Strings.encode_utf8
    mona_agent_core.Prelude.Strings.is_whitespace mona_agent_core.Prelude.Strings.len_utf8
    mona_agent_core.Prelude.Strings.starts_with checked_add ℕ_discrete
valid = refl

validate-IsPlan_example : IsPlan (plan normal 1 in_progress none)
validate-IsPlan_example = validate-IsPlan hundred (plan normal 1 in_progress none) valid

apply-IsValid_example :
    IsValid hundred (plan normal 1 in_progress none)
    × (1 ≡ read_revision (enters 1))
    × IsValid hundred (plan plan_only 2 in_progress none)
    × ((plan plan_only 2 in_progress none ≡ plan normal 1 in_progress none) ⊎ (2 ≡ 1 + 1))
apply-IsValid_example = apply-IsValid hundred (plan normal 1 in_progress none) (enters 1) entered

awaits : awaits_host (plan plan_only 3 in_progress (some proposal)) ≡ true
unfolding awaits_host
awaits = refl

incomplete : is_complete (plan normal 1 in_progress none) ≡ false
unfolding is_complete
incomplete = refl

awaits_host-refuses_example :
    (resumes 3 ≡ enters 3) ⊎ (resumes 3 ≡ resumes 3) ⊎ (resumes 3 ≡ resets 3)
awaits_host-refuses_example =
    awaits_host-refuses hundred (plan plan_only 3 in_progress (some proposal)) (resumes 3) awaits
      resumed

abbrev history : List Operation
history = enters 1 ∷ submits 2 proposal ∷ resumes 3 ∷ []

run-IsValid_example :
    IsValid hundred (run hundred (plan normal 1 in_progress none) history)
    × (1 ≤ (run hundred (plan normal 1 in_progress none) history).revision)
    × ((run hundred (plan normal 1 in_progress none) history).revision ≤ 1 + length history)
run-IsValid_example = run-IsValid hundred (plan normal 1 in_progress none) history valid

stale_refused_example :
    apply hundred (plan plan_only 2 in_progress none) (updates second_update)
    ≢ ok (plan normal 2 completed none)
stale_refused_example =
    stale_refused hundred (plan normal 1 in_progress none) (plan plan_only 2 in_progress none)
      (enters 1) (updates second_update) (plan normal 2 completed none) entered
      (λ e. cc (ap (λ z. z.revision) e)) refl

update-keeps_completed_example :
    Mem (step (str "a") completed) (plan normal 2 completed none).steps × (str "Ship" ≡ str "Ship")
update-keeps_completed_example =
    update-keeps_completed hundred (plan normal 1 in_progress none) second_update
      (step (str "a") completed) finished incomplete mem-cons_self refl

update-claims_nothing_example :
    (completed ≡ pending)
    ⊎ ((old : PlanStep) × Mem old (plan plan_only 2 in_progress none).steps
        × (old.id ≡ str "a")
        × (old.status ≡ completed))
update-claims_nothing_example =
    update-claims_nothing hundred (plan plan_only 2 in_progress none) planned_update
      (step (str "a") completed) unchanged refl mem-cons_self
