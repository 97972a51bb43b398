-- ===== src/Runtime/Admission.antt =====
-- packages/runtime/src/engine.rs: the admission of runs by Engine::start, the lease of a run, and
-- cancel_all and close. The host's state is behind one lock, so each of these is one step; close
-- takes the lock to read the runs, and then another one to write the registry, which are two steps.
pub mod Driving
pub mod Capacity
mod Tests
use mona_agent_core.Prelude.{
  ℕ, ◌+◌, ◌*◌, ◌≡◌, Bool, true, false, not, ◌&&◌, ◌||◌, Option, none, some, List, [], ◌∷◌, ltb, leb,
  all, is_empty, if◌then◌else◌, length, saturating_add, retain,
}
use mona_agent_core.Prelude.Strings.{Str, str_discrete, len}
use mona_agent_core.Prelude.Maps.{Map}
use mona_agent_core.Prelude.Sets.{contains, insert, remove}
use mona_agent_core.Api.Error.{
  AgentError, ErrorCode, Result, ok, err, error, refuse, ok_or, ◌>>=◌, ◌>>◌,
}
use mona_agent_core.Api.Message.{Message}
use mona_agent_core.Api.Serializer.{Serializer}
use mona_agent_core.Api.Validation.{validate_messages}
use mona_agent_core.Api.Options.{ModelOptions}
use mona_agent_core.Api.Limits.{RunLimits}
use mona_agent_core.Api.Limits as Limits
use mona_agent_core.Api.Task.{RunStatistics}
use mona_agent_core.Api.Checkpoint.{TaskUsage}
use mona_agent_core.Runtime.History.{History}
use mona_agent_core.Runtime.History as Histories
use mona_agent_core.Runtime.Checkpoints as Checkpoints
use mona_agent_core.Runtime.Execution.{Execution, Settings, stop_error}

pub record RunRequest (V F : Type 0) : Type 0 where
  pub messages : List (Message V)
  pub limits : RunLimits
  pub model_options : ModelOptions V F
  pub metadata : Map Str
  pub enable_tools : Bool
  pub allowed_tools : Option (List Str)

-- Inner: the names of the registered tools, none once the registry is revoked, and the running runs.
pub record Host : Type 0 where
  pub registry : Option (List Str)
  pub closed : Bool
  pub runs : List Str
  pub max_concurrent_runs : ℕ
  -- a close has seen that no run was left
  pub drained : Bool

-- What `start` is told: by tokio, the validation of the model options (floating point), the task,
-- run_id, the provider (its service, and its validation of the history), the sink and serde_json.
pub record Surroundings : Type 0 where
  pub in_tokio : Bool
  pub options_valid : Result (Unit {0})
  pub stopped : Option AgentError
  pub id : Str
  pub provider : Result (Unit {0})
  pub has_sink : Bool
  pub accounting : TaskUsage × RunStatistics
  pub request_overhead : List Str → Result ℕ

-- What the driver is given.
pub record Started (V F : Type 0) : Type 0 where
  pub execution : Execution V F
  pub settings : Settings

unfoldable pub metadata_bytes : Map Str → ℕ
metadata_bytes [] = 0
metadata_bytes (e ∷ es) = saturating_add (len e.0) (len e.1) + metadata_bytes es

-- The tool ceiling contains an unregistered tool.
unfoldable pub exceeds_registry : Option (List Str) → List Str → Bool
exceeds_registry none tools = false
exceeds_registry (some names) tools = not (all (λ n. contains str_discrete n tools) names)

-- The tools within the ceiling, as selected_tools starts from.
unfoldable pub within_ceiling : Option (List Str) → List Str → List Str
within_ceiling none tools = tools
within_ceiling (some names) tools = retain (λ n. contains str_discrete n names) tools

-- The block under the lock.
unfoldable pub claim : Host → Option (List Str) → Str → Result Host
unfolding exceeds_registry
claim host allowed_tools id = do
  refuse host.closed (error ErrorCode.closed "host is closing")
  refuse (leb host.max_concurrent_runs (length host.runs))
      (error ErrorCode.limit "host concurrent-run limit reached")
  tools ← ok_or host.registry (error ErrorCode.closed "host registry has been revoked")
  refuse (exceeds_registry allowed_tools tools)
      (error ErrorCode.configuration "run tool ceiling contains an unregistered tool")
  ok (record host { runs = insert str_discrete id host.runs })

-- The lease is dropped when its run ends, or when `start` fails after the claim.
unfoldable pub drop_lease : Str → Host → Host
drop_lease id host = record host { runs = remove str_discrete id host.runs }

unfoldable pub cancel_all : Host → Host
cancel_all host = record host { closed = true }

-- The loop of close, which waits for the runs.
unfoldable pub drain : Host → Host
drain host = if is_empty host.runs then record host { drained = true } else host

-- The end of close, after that loop.
unfoldable pub revoke : Host → Host
revoke host = if host.drained then record host { registry = none } else host

abbrev registered : Option (List Str) → List Str
registered none = []
registered (some tools) = tools

module _ {V F : Type 0} (json : Serializer V) where
  -- What is checked before the lock is taken.
  unfoldable pub check_request : RunRequest V F → Surroundings → Result (History V)
  unfolding metadata_bytes
  check_request request env = do
    refuse (not env.in_tokio)
        (error ErrorCode.configuration "Engine::start requires a Tokio runtime")
    Limits.validate request.limits
    env.options_valid
    stop_error env.stopped
    transcript ←
        Histories.new json request.messages request.limits.max_initial_history_bytes
          request.limits.max_history_bytes
    validate_messages json transcript.messages
    refuse (ltb (16 * 1024) (metadata_bytes request.metadata))
        (error ErrorCode.limit "run metadata too large")
    ok transcript

  unfoldable pub started : Host → RunRequest V F → Surroundings → History V → Started V F
  unfolding within_ceiling
  started host request env transcript = record {
    execution = record {
      transcript = transcript;
      checkpoints =
          Checkpoints.new env.has_sink env.id request.model_options request.metadata env.accounting;
      steps = 0;
      queue = [];
      requests = [];
    };
    settings = record {
      max_steps = request.limits.max_steps;
      max_checkpoint_bytes = request.limits.max_checkpoint_bytes;
      limits = record {
        max_history_bytes = request.limits.max_history_bytes;
        max_context_bytes = request.limits.max_context_bytes;
        request_overhead = env.request_overhead;
      };
      enable_tools = request.enable_tools;
      available = within_ceiling request.allowed_tools (registered host.registry);
    };
  }

  -- After the claim: the provider, and the size of a request without tools.
  unfoldable pub launch :
      Host
      → RunRequest V F
      → Surroundings
      → History V
      → Result (Unit {0})
      → Result ℕ
      → Host × Result (Started V F)
  unfolding started drop_lease
  launch host request env transcript (err e) overhead = (drop_lease env.id host, err e)
  launch host request env transcript (ok u) (err e) = (drop_lease env.id host, err e)
  launch host request env transcript (ok u) (ok n) =
      (host, ok (started host request env transcript))

  unfoldable pub enter :
      Host → RunRequest V F → Surroundings → History V → Result Host → Host × Result (Started V F)
  unfolding launch
  enter host request env transcript (err e) = (host, err e)
  enter host request env transcript (ok claimed) =
      launch claimed request env transcript env.provider (env.request_overhead [])

  unfoldable pub admit :
      Host → RunRequest V F → Surroundings → Result (History V) → Host × Result (Started V F)
  unfolding enter claim
  admit host request env (err e) = (host, err e)
  admit host request env (ok transcript) =
      enter host request env transcript (claim host request.allowed_tools env.id)

  -- Engine::start, up to the driver that it spawns.
  unfoldable pub start : Host → RunRequest V F → Surroundings → Host × Result (Started V F)
  unfolding check_request admit
  start host request env = admit host request env (check_request request env)
