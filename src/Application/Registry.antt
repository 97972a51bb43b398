-- ===== src/Application/Registry.antt =====
-- packages/application/src/service.rs: the registry of runs, each method under the lock of the state.
-- `finished` is the completed_at of a run and whether it is terminal, which its collector changes;
-- cancelling a session changes nothing here. `runs` and `requests` are hash maps whose order no method
-- reads.
pub mod Consistency
pub mod Calls
pub mod Completion
pub mod Idempotency
mod Prunings
mod Guards
pub mod Resends
pub mod Starts
mod Tests
use mona_agent_core.Prelude.{
  ℕ, ◌-◌, ◌⊎◌, inl, inr, Bool, true, false, not, ◌&&◌, ◌||◌, Option, none, some, List, [], ◌∷◌,
  ◌++◌, map, ltb, leb, if◌then◌else◌, holds, is_some, is_empty, length, retain,
}
use mona_agent_core.Prelude.Strings.{Str, str_discrete, len}
use mona_agent_core.Prelude.Maps.{Map, get, insert, remove}
use mona_agent_core.Api.Content.{Content}
use mona_agent_core.Api.Error.{AgentError}
use mona_agent_core.Api.Message.{Message, system, user, assistant, tool}
use mona_agent_core.Application.Protocol.{
  ApplicationError, ApplicationErrorCode, failure, validate_key,
}
use mona_agent_core.Application.Protocol as Protocol

pub record StartRequest : Type 0 where
  pub request_id : Str
  pub prompt : Str

pub record Registered : Type 0 where
  pub request : StartRequest
  pub context_identity : Map Str
  pub completed_at : Option ℕ
  pub terminal : Bool

pub record State : Type 0 where
  pub closed : Bool
  pub runs : Map Registered
  pub requests : Map Str

pub record RegistryConfig : Type 0 where
  pub max_retained_runs : ℕ
  pub completed_ttl : ℕ
  pub max_prompt_bytes : ℕ
  pub system_prompt : Option Str

-- What a method answers: a value, an error, or the panic of an index into a map.
pub data Answer (A : Type 0) : Type 0 where
  answers : A → Answer A
  refuses : ApplicationError → Answer A
  panics : Answer A

pub record StartResponse : Type 0 where
  pub run_id : Str
  pub reused : Bool

-- The parts of a RunRequest that depend on the call.
pub record RunRequest (V : Type 0) : Type 0 where
  pub messages : List (Message V)
  pub metadata : Map Str

-- AgentApplication::new, of the state
abbrev pub empty : State
empty = record { closed = false; runs = []; requests = [] }

-- state.runs.remove(id), and the request of the run that was there
unfoldable pub drop_run : Str → State → State
drop_run id state = elim (get id state.runs) [
  | none ↦ state
  | some run ↦ record state {
    runs = remove id state.runs;
    requests = remove run.request.request_id state.requests;
  }
]

unfoldable pub drop_runs : List Str → State → State
unfolding drop_run
drop_runs [] state = state
drop_runs (id ∷ ids) state = drop_runs ids (drop_run id state)

unfoldable pub is_expired : RegistryConfig → ℕ → Registered → Bool
is_expired config now run = elim run.completed_at [
  | none ↦ false
  | some at ↦ leb config.completed_ttl (now - at)
]

-- AgentApplication::prune
unfoldable pub prune : RegistryConfig → ℕ → State → State
unfolding drop_runs is_expired
prune config now state =
    drop_runs (map (λ e. e.0) (retain (λ e. is_expired config now e.1) state.runs)) state

module _ {V : Type 0} where
  is_system : Message V → Bool
  is_system (system content) = true
  is_system (user content) = false
  is_system (assistant content calls reasoning data') = false
  is_system (tool result) = false

  -- The messages of a run: the host's system instructions, the history without its own, the prompt.
  unfoldable pub admitted_messages : Option Str → List (Message V) → Str → List (Message V)
  unfolding is_system
  admitted_messages instructions history prompt =
      (elim instructions [ none ↦ [] | some s ↦ system s ∷ [] ])
      ++ (retain (λ m. not (is_system m)) history ++ (user (Content.text prompt) ∷ []))

-- request.prompt.is_empty() || request.prompt.len() > max
abbrev bad_prompt : RegistryConfig → Str → Bool
bad_prompt config prompt = is_empty prompt || ltb config.max_prompt_bytes (len prompt)

same_strings : Map Str → Map Str → Bool
same_strings [] [] = true
same_strings [] (f ∷ fs) = false
same_strings (e ∷ es) [] = false
same_strings (e ∷ es) (f ∷ fs) =
    holds (str_discrete e.0 f.0) && holds (str_discrete e.1 f.1) && same_strings es fs

-- A request whose id was used before.
unfoldable pub reuse : StartRequest → Map Str → Str → Option Registered → Answer StartResponse
unfolding same_strings
reuse request metadata id none = panics
reuse request metadata id (some run) =
    if not (holds (str_discrete run.request.prompt request.prompt))
      || not (same_strings run.context_identity metadata)
    then refuses (
        failure ApplicationErrorCode.conflict
          "request_id was used with a different prompt or context")
    else answers (record { run_id = id; reused = true })

-- What follows the answer of the runtime.
unfoldable pub register :
    StartRequest → Map Str → AgentError ⊎ Str → State → State × Answer StartResponse
register request metadata (inl e) state = (state, refuses (Protocol.from e))
register request metadata (inr id) state =
    if is_some (get id state.runs)
    then (state, refuses (failure ApplicationErrorCode.internal "runtime reused a run id"))
    else (
      record state {
        requests = insert request.request_id id state.requests;
        runs =
            insert id
              (record {
                request = request;
                context_identity = metadata;
                completed_at = none;
                terminal = false;
              })
              state.runs;
      },
      answers (record { run_id = id; reused = false }),
    )

module _ {V : Type 0} (config : RegistryConfig) (runtime : RunRequest V → AgentError ⊎ Str) where
  -- start_task_with_history after the lookup of the request, and from it on, in a pruned state
  unfoldable pub start_found :
      StartRequest → List (Message V) → Map Str → State → Option Str → State × Answer StartResponse
  unfolding reuse register admitted_messages
  start_found request history metadata state (some id) =
      (state, reuse request metadata id (get id state.runs))
  start_found request history metadata state none =
      if leb config.max_retained_runs (length state.runs)
      then (
        state,
        refuses (
            failure ApplicationErrorCode.capacity
              "run registry is full; forget a completed run or wait for TTL"),
      )
      else register request metadata
          (runtime (record {
            messages = admitted_messages config.system_prompt history request.prompt;
            metadata = metadata;
          }))
          state

  unfoldable pub start_in :
      StartRequest → List (Message V) → Map Str → State → State × Answer StartResponse
  unfolding start_found
  start_in request history metadata state =
      if state.closed
      then (state, refuses (failure ApplicationErrorCode.closed "application is shutting down"))
      else start_found request history metadata state (get request.request_id state.requests)

  -- AgentApplication::start_task_with_history; `in_tokio` is whether a Tokio runtime is there.
  unfoldable pub start_task_with_history :
      Bool → ℕ → StartRequest → List (Message V) → Map Str → State → State × Answer StartResponse
  unfolding start_in
  start_task_with_history in_tokio now request history metadata state =
      elim (validate_key request.request_id) [
        | some e ↦ (state, refuses e)
        | none ↦
            if bad_prompt config request.prompt
            then (
              state,
              refuses (failure ApplicationErrorCode.invalid_request "prompt is empty or too large"),
            )
            else if not in_tokio
            then (
              state,
              refuses (failure ApplicationErrorCode.internal "a Tokio runtime is required"),
            )
            else start_in request history metadata (prune config now state)
      ]

-- AgentApplication::forget
unfoldable pub forget_found : Str → State → Option Registered → State × Answer (Unit {0})
forget_found id state none =
    (state, refuses (failure ApplicationErrorCode.not_found "run not found"))
forget_found id state (some run) =
    if run.terminal
    then (
      record state {
        runs = remove id state.runs;
        requests = remove run.request.request_id state.requests;
      },
      answers tt,
    )
    else (state, refuses (failure ApplicationErrorCode.conflict "cannot forget an active run"))

unfoldable pub forget : Str → State → State × Answer (Unit {0})
unfolding forget_found
forget id state = forget_found id state (get id state.runs)

-- What the collector of a run records of its end.
unfoldable pub settle : Str → ℕ → State → State
settle id now state = elim (get id state.runs) [
  | none ↦ state
  | some run ↦ record state {
    runs =
        insert id
          (record run {
            completed_at = elim run.completed_at [ none ↦ some now | some at ↦ some at ];
            terminal = true;
          })
          state.runs;
  }
]

-- AgentApplication::entry: the state that it leaves, and the run.
unfoldable pub entry : RegistryConfig → ℕ → Str → State → State × Answer Registered
unfolding prune
entry config now id state = (
  prune config now state,
  elim (get id (prune config now state).runs) [
    | none ↦ refuses (failure ApplicationErrorCode.not_found "run is absent or expired")
    | some run ↦ answers run
  ],
)

-- AgentApplication::shutdown, of the state
unfoldable pub close : State → State
close state = record state { closed = true }
