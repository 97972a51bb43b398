-- ===== src/Application/Registry/Calls.antt =====
-- packages/application/src/service.rs: the methods of the registry, in any order.
use mona_agent_core.Prelude.{ℕ, ◌≢◌, ◌⊎◌, Bool, List, [], ◌∷◌}
use mona_agent_core.Prelude.Strings.{Str}
use mona_agent_core.Prelude.Maps.{Map}
use mona_agent_core.Api.Error.{AgentError}
use mona_agent_core.Api.Message.{Message}
use mona_agent_core.Application.Registry.{
  StartRequest, State, RegistryConfig, panics, RunRequest, empty, start_task_with_history, forget,
  settle, close, entry,
}
use mona_agent_core.Application.Registry.Consistency.{
  Consistent, empty-Consistent, prune-Consistent,
}
use mona_agent_core.Application.Registry.Completion.{settle-Consistent, forget-Consistent}
use mona_agent_core.Application.Registry.Starts.{start_sound}

-- The calls of clients and of the collectors. Each start has an answer of the runtime of its own.
pub data Call (V : Type 0) : Type 0 where
  starts :
      (RunRequest V → AgentError ⊎ Str)
      → Bool
      → ℕ
      → StartRequest
      → List (Message V)
      → Map Str
      → Call V
  looks_up : ℕ → Str → Call V
  forgets : Str → Call V
  settles : Str → ℕ → Call V
  closes : Call V

module _ {V : Type 0} (config : RegistryConfig) where
  unfoldable pub call : Call V → State → State
  call (starts runtime in_tokio now request history metadata) state =
      (start_task_with_history config runtime in_tokio now request history metadata state).0
  call (looks_up now id) state = (entry config now id state).0
  call (forgets id) state = (forget id state).0
  call (settles id now) state = settle id now state
  call closes state = close state

  unfoldable pub calls : List (Call V) → State → State
  unfolding call
  calls [] state = state
  calls (c ∷ cs) state = calls cs (call c state)

  call-Consistent : (c : Call V) (state : State) → Consistent state → Consistent (call c state)
  unfolding call entry close
  call-Consistent (starts runtime in_tokio now request history metadata) state ok =
      (start_sound config runtime in_tokio now request history metadata state ok).0
  call-Consistent (looks_up now id) state ok = prune-Consistent config now state ok
  call-Consistent (forgets id) state ok = forget-Consistent id state ok
  call-Consistent (settles id now) state ok = settle-Consistent id now state ok
  call-Consistent closes state ok = record { named = ok.named; requested = ok.requested }

  calls-keep : (cs : List (Call V)) (state : State) → Consistent state → Consistent (calls cs state)
  unfolding calls
  calls-keep [] state ok = ok
  calls-keep (c ∷ cs) state ok = calls-keep cs (call c state) (call-Consistent c state ok)

  -- After any calls of a new registry, whatever the runtime answers to each start, every request names a run that was started for it, and every
  -- run is named by its request.
  pub calls-Consistent : (cs : List (Call V)) → Consistent (calls cs empty)
  calls-Consistent cs = calls-keep cs empty empty-Consistent

  -- After any calls of a new registry, starting a task answers or refuses: the index `state.runs[id]`
  -- of the request's run does not panic, whatever the request, the
  -- clock and the answer of the runtime to each start are.
  pub start-answers :
      (cs : List (Call V)) (runtime : RunRequest V → AgentError ⊎ Str) (in_tokio : Bool) (now : ℕ)
      (request : StartRequest) (history : List (Message V)) (metadata : Map Str)
      → (start_task_with_history config runtime in_tokio now request history metadata
          (calls cs empty)).1
        ≢ panics
  start-answers cs runtime in_tokio now request history metadata =
      (start_sound config runtime in_tokio now request history metadata (calls cs empty)
        (calls-Consistent cs)).1
