-- ===== src/Planner/History/Tests.antt =====
-- A run that starts from a plan, updates it in a settled batch, and stops.
use mona_agent_core.Prelude.{
  ℕ, ◌≡◌, refl, sym, ap, ◌∙◌, ite, true, false, Option, none, some, ℕ_discrete, List, [], ◌∷◌,
  arith, String, ◌≢◌, All,
}
use mona_agent_core.Prelude.Strings.{Str, str, str_discrete}
use mona_agent_core.Prelude.Maps.{Map, insert}
use mona_agent_core.Api.Error.{ok}
use mona_agent_core.Api.Content.{Content}
use mona_agent_core.Api.Message.{Message, user, assistant, ToolCall, ToolResult, ToolStatus}
use mona_agent_core.Api.Task.{no_statistics}
use mona_agent_core.Api.Options.{no_options}
use mona_agent_core.Api.Checkpoint.{
  RunCheckpoint, CheckpointPhase, CheckpointToolState, settled, pending,
}
use mona_agent_core.Planner.State.{
  PlanSnapshot, PlanStep, StepStatus, completed, in_progress, normal, PlanSnapshot-discrete,
}
use mona_agent_core.Planner.History.{
  PlanJson, PlanRecord, Reads, bind_state, recover_checkpoint, read_result, calls, confirmed,
  plan_seed_key,
}
use mona_agent_core.Planner.History.Seeds.{bind_state-recover}
use mona_agent_core.Planner.History.Recovery.{Recovered, recover_checkpoint-Recovered}

abbrev plan : ℕ → StepStatus → PlanSnapshot
plan revision status = record {
  version = 1;
  revision = revision;
  mode = normal;
  goal = str "Ship";
  steps = (record { id = str "a"; text = str "test"; status = status }) ∷ [];
  explanation = none;
  proposal = none;
}

abbrev first : PlanSnapshot
first = plan 1 in_progress

abbrev second : PlanSnapshot
second = plan 2 completed

-- Two snapshots with texts; the structured value of a result is its record.
write_plan : PlanSnapshot → Option Str
write_plan p =
    ite (PlanSnapshot-discrete p first) (some (str "first"))
      (ite (PlanSnapshot-discrete p second) (some (str "second")) none)

read_plan : Str → Option PlanSnapshot
read_plan text =
    ite (str_discrete text (str "first")) (some first)
      (ite (str_discrete text (str "second")) (some second) none)

abbrev json : PlanJson PlanRecord
json = record {
  snapshot_text = write_plan;
  read_snapshot = read_plan;
  planner_member = λ r. some r;
  value_bytes = λ r. some 100;
  read_record = λ r. some r;
}

read_first : read_plan (str "first") ≡ some first
unfolding read_plan str str_discrete
read_first = refl

read_second : read_plan (str "second") ≡ some second
unfolding read_plan str str_discrete
read_second = refl

same_text : {s t : Str} → some s ≡ some t → s ≡ t
same_text h = cc

written :
    (p : PlanSnapshot) (text : Str) (a : Dec (p ≡ first)) (b : Dec (p ≡ second))
    → ite a (some (str "first")) (ite b (some (str "second")) none) ≡ some text
    → read_plan text ≡ some p
written p text (yes q) b h = ap read_plan (sym (same_text h)) ∙ read_first ∙ ap some (sym q)
written p text (no q) (yes r) h = ap read_plan (sym (same_text h)) ∙ read_second ∙ ap some (sym r)
written p text (no q) (no r) h = cc

reads : Reads json
unfolding write_plan
reads = record {
  written =
      λ p text. written p text (PlanSnapshot-discrete p first) (PlanSnapshot-discrete p second);
}

abbrev call : Str → Str → ToolCall PlanRecord
call id name = record {
  id = id;
  name = name;
  arguments = record { run_id = []; call_id = []; state = first };
  provider_data = none;
}

abbrev result : Str → Str → PlanSnapshot → ToolResult PlanRecord
result run_id call_id state = record {
  call_id = call_id;
  status = ToolStatus.success;
  content = Content.text [];
  structured = some (record { run_id = run_id; call_id = call_id; state = state });
  truncated = false;
  original_bytes = 0;
  artifact = none;
}

abbrev checkpoint :
    List (Message PlanRecord) → Map (CheckpointToolState PlanRecord) → RunCheckpoint PlanRecord Unit
checkpoint transcript tools = record {
  schema_version = 2;
  run_id = str "run";
  revision = 3;
  phase = CheckpointPhase.after_model;
  step = 1;
  transcript = transcript;
  pending_tools = tools;
  selected_tools = [];
  model_options = no_options;
  metadata = (plan_seed_key, str "first") ∷ [];
  task_usage = record { model_calls = 0; reported_tokens = 0; usage_complete = true };
  statistics = no_statistics;
  status = none;
  error = none;
}

abbrev asked : List (Message PlanRecord)
asked =
    user (Content.text (str "go"))
    ∷ assistant [] (call (str "c") (str "plan_update") ∷ call (str "d") (str "plan_read") ∷ []) none
        none
    ∷ []

abbrev before_results : RunCheckpoint PlanRecord Unit
before_results = checkpoint asked ((str "c", pending) ∷ [])

abbrev after_result : RunCheckpoint PlanRecord Unit
after_result = checkpoint asked (
    (str "c", settled (result (str "run") (str "c") second))
    ∷ (str "d", settled (result (str "run") (str "d") first))
    ∷ [])

recovers_second : recover_checkpoint json after_result ≡ ok (some second)
unfolding recover_checkpoint mona_agent_core.Prelude.Maps.before str str_discrete write_plan
    read_plan mona_agent_core.Prelude.Maps.get insert mona_agent_core.Planner.State.validate
    PlanSnapshot-discrete mona_agent_core.Planner.State.PlanStep-discrete
    mona_agent_core.Planner.State.steps_discrete mona_agent_core.Planner.State.StepStatus-discrete
    mona_agent_core.Prelude.Strings.trim mona_agent_core.Prelude.Strings.len
    mona_agent_core.Prelude.Strings.is_control mona_agent_core.Prelude.Strings.bytes
    mona_agent_core.Prelude.Strings.is_ascii_alphanumeric mona_agent_core.Prelude.Sets.contains
    mona_agent_core.Prelude.saturating_add ℕ_discrete
recovers_second = refl

binds : bind_state json [] first ≡ ok before_results.metadata
unfolding bind_state str str_discrete write_plan mona_agent_core.Prelude.Maps.get insert
    mona_agent_core.Planner.State.validate PlanSnapshot-discrete
    mona_agent_core.Planner.State.PlanStep-discrete mona_agent_core.Planner.State.steps_discrete
    mona_agent_core.Planner.State.StepStatus-discrete mona_agent_core.Prelude.Strings.trim
    mona_agent_core.Prelude.Strings.len mona_agent_core.Prelude.Strings.is_control
    mona_agent_core.Prelude.Strings.bytes mona_agent_core.Prelude.Strings.is_ascii_alphanumeric
    mona_agent_core.Prelude.Sets.contains mona_agent_core.Prelude.saturating_add ℕ_discrete
binds = refl

nothing_confirmed : confirmed before_results ≡ []
unfolding confirmed
nothing_confirmed = refl

unconfirmed :
    All
      (λ r. read_result json (calls before_results.transcript) r ≡ ok none)
      (confirmed before_results)
unfolding confirmed
unconfirmed = tt

bind_state-recover_example : recover_checkpoint json before_results ≡ ok (some first)
bind_state-recover_example =
    bind_state-recover json reads [] first before_results binds refl unconfirmed

recover_checkpoint-Recovered_example : Recovered json after_result (some second)
recover_checkpoint-Recovered_example =
    recover_checkpoint-Recovered json after_result (some second) recovers_second
