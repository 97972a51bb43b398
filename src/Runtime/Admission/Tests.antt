-- ===== src/Runtime/Admission/Tests.antt =====
-- A host for two runs. One is admitted and has two rounds, a call of a tool and then the answer; it
-- ends, and the host is closed and drained.
use mona_agent_core.Prelude.{
  ℕ, zero, suc, ◌<◌, ◌≡◌, refl, true, false, Option, none, some, List, [], ◌∷◌, arith, length,
  usize_max, inl,
}
use mona_agent_core.Prelude.Strings.{Str, str}
use mona_agent_core.Api.Content.{Content}
use mona_agent_core.Api.Error.{ok}
use mona_agent_core.Api.Message.{Message, user, ToolCall, ToolStatus}
use mona_agent_core.Api.Serializer.Sample.{sample_json, sample_json-IsJson}
use mona_agent_core.Api.ToolResults.{new_result}
use mona_agent_core.Api.Validation.{validate_messages}
use mona_agent_core.Api.Task.{no_statistics}
use mona_agent_core.Api.Options.{no_options}
use mona_agent_core.Api.Checkpoint.{RunCheckpoint}
use mona_agent_core.Runtime.History.{History}
use mona_agent_core.Runtime.Checkpoints.{Surroundings as Written, new}
use mona_agent_core.Runtime.Projection.{RequestLimits}
use mona_agent_core.Runtime.Execution.{Execution, Round, Reply, Settings}
use mona_agent_core.Runtime.Engine.{drive}
use mona_agent_core.Api.Limits.{default_limits}
use mona_agent_core.Runtime.Engine.Drive.{IsDriven}
use mona_agent_core.Runtime.Admission.{
  Host, RunRequest, Surroundings, Started, start, started, drop_lease, cancel_all, drain, revoke,
}
use mona_agent_core.Runtime.Admission.Driving.{configured, start-IsDriven}
use mona_agent_core.Runtime.Admission.Capacity.{
  here, next, starts, ends, closes, drains, revokes, IsHosted, Reach-IsHosted,
}

abbrev hundred : RunCheckpoint Unit Unit → Option ℕ
hundred c = some 100

abbrev accepted : Written
accepted = record {
  accounting =
      (record { model_calls = 0; reported_tokens = 0; usage_complete = true }, no_statistics);
  saved = ok tt;
}

abbrev reply : Str → List (ToolCall Unit) → Reply Unit
reply content calls = record {
  content = content;
  calls = calls;
  reasoning = none;
  provider_data = none;
}

abbrev round : Reply Unit → Round Unit
round answer = record {
  stopped = none;
  cancelled = false;
  arrived = [];
  input_saved = accepted;
  selectors = ok (str "read" ∷ []) ∷ [];
  supplied = [];
  transforms = (λ ms. ok ms) ∷ [];
  before_saved = accepted;
  reply = ok answer;
  recoveries = [];
  again_saved = accepted;
  second_reply = ok answer;
  after_saved = accepted;
  stopped_later = none;
  cancelled_later = false;
  writes = [];
  results = new_result sample_json (str "a") ToolStatus.success (Content.text (str "ok")) ∷ [];
  batch_error = none;
  settled_saved = accepted;
  late_arrived = [];
  late_saved = accepted;
}

abbrev rounds : ℕ → Round Unit
rounds (suc zero) = round (
    reply []
      (record { id = str "a"; name = str "read"; arguments = tt; provider_data = none } ∷ []))
rounds step = round (reply (str "done") [])

abbrev host : Host
host = record {
  registry = some (str "read" ∷ str "write" ∷ []);
  closed = false;
  runs = [];
  max_concurrent_runs = 2;
  drained = false;
}

abbrev request : RunRequest Unit Unit
request = record {
  messages = user (Content.text (str "go")) ∷ [];
  limits = default_limits;
  model_options = no_options;
  metadata = (str "session", str "s") ∷ [];
  enable_tools = true;
  allowed_tools = some (str "read" ∷ []);
}

abbrev env : Surroundings
env = record {
  in_tokio = true;
  options_valid = ok tt;
  stopped = none;
  id = str "run";
  provider = ok tt;
  has_sink = true;
  accounting = accepted.accounting;
  request_overhead = λ tools. ok 50;
}

abbrev begun : Started Unit Unit
begun =
    started sample_json (record host { runs = str "run" ∷ [] }) request env
      (record { messages = request.messages; bytes = 24; limit = default_limits.max_history_bytes })

starts_run : (start sample_json host request env).1 ≡ ok begun
unfolding start mona_agent_core.Api.Limits.validate default_limits
    mona_agent_core.Runtime.History.new mona_agent_core.Api.Serializer.elements_bytes
    mona_agent_core.Prelude.Strings.len mona_agent_core.Api.Message.text
    mona_agent_core.Api.Content.text_of str validate_messages mona_agent_core.Api.Content.validate
    mona_agent_core.Prelude.saturating_add mona_agent_core.Prelude.Sets.contains
    mona_agent_core.Prelude.Strings.str_discrete
starts_run = refl

answers : (drive sample_json hundred begun.settings rounds begun.execution).1 ≡ ok (str "done")
unfolding drive mona_agent_core.Runtime.Execution.continue
    mona_agent_core.Runtime.History.check_model_room mona_agent_core.Runtime.History.check_append
    mona_agent_core.Prelude.checked_add mona_agent_core.Prelude.Strings.len
    mona_agent_core.Api.Message.text mona_agent_core.Runtime.Projection.selected_tools
    mona_agent_core.Prelude.Sets.contains mona_agent_core.Prelude.Strings.str_discrete str
    mona_agent_core.Runtime.Projection.collect_sources mona_agent_core.Runtime.Projection.project
    validate_messages mona_agent_core.Api.Content.validate
    mona_agent_core.Api.Serializer.elements_bytes mona_agent_core.Api.Content.text_of
    mona_agent_core.Prelude.saturating_add mona_agent_core.Runtime.Checkpoints.save
    mona_agent_core.Runtime.Checkpoints.write new mona_agent_core.Runtime.Repair.collect
    mona_agent_core.Runtime.History.admit_reply mona_agent_core.Runtime.History.new_budget
    mona_agent_core.Runtime.History.result_bytes mona_agent_core.Runtime.History.fallback new_result
    mona_agent_core.Runtime.History.extend mona_agent_core.Prelude.Sets.insert
    mona_agent_core.Prelude.Sets.remove mona_agent_core.Api.ToolResults.validate started
    default_limits
answers = refl

small_context : request.limits.max_context_bytes < usize_max
unfolding default_limits
small_context = omega arith

start-IsDriven_example :
    IsDriven sample_json
      (configured request env)
      (drive sample_json hundred begun.settings rounds begun.execution)
start-IsDriven_example =
    start-IsDriven sample_json hundred host request env begun rounds sample_json-IsJson starts_run
      small_context

host-IsHosted : IsHosted 2 host
host-IsHosted = record { same_limit = refl; within = omega arith; serving = inl (refl, refl) }

abbrev last : Host
last = revoke (drain (cancel_all (drop_lease (str "run") (start sample_json host request env).0)))

is_closed :
    (cancel_all (drop_lease (str "run") (start sample_json host request env).0)).closed ≡ true
unfolding cancel_all
is_closed = refl

Reach-IsHosted_example : IsHosted 2 last
Reach-IsHosted_example = Reach-IsHosted {F = Unit} sample_json 2 host host-IsHosted (
    next
      (next (next (next (next here (starts host request env)) (ends _ (str "run"))) (closes _))
        (drains _ is_closed))
      (revokes _))
