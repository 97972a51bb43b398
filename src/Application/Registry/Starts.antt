-- ===== src/Application/Registry/Starts.antt =====
-- packages/application/src/service.rs: the start of a task.
use mona_agent_core.Prelude.{
  ℕ, ◌≡◌, refl, ◌≢◌, ◌⊎◌, inl, inr, Bool, true, false, not, ◌||◌, Option, none, some, List, leb,
  if◌then◌else◌, holds, is_some, Bool-cases, length,
}
use mona_agent_core.Prelude.Strings.{Str, str_discrete}
use mona_agent_core.Prelude.Maps.{Map, get}
use mona_agent_core.Api.Error.{AgentError}
use mona_agent_core.Api.Message.{Message}
use mona_agent_core.Application.Protocol.{
  ApplicationError, ApplicationErrorCode, failure, validate_key,
}
use mona_agent_core.Application.Registry.{
  StartRequest, Registered, State, RegistryConfig, Answer, answers, refuses, panics, StartResponse,
  RunRequest, prune, reuse, register, start_in, start_task_with_history, bad_prompt,
  admitted_messages, same_strings, start_found,
}
use mona_agent_core.Application.Registry.Consistency.{
  Consistent, prune-Consistent, register-Consistent,
}

refuses-panics : {A : Type 0} {e : ApplicationError} → ◌≢◌ {A = Answer A} (refuses e) panics
refuses-panics h = cc

answers-panics : {A : Type 0} {a : A} → answers a ≢ panics
answers-panics h = cc

reuse-panics :
    (request : StartRequest) (metadata : Map Str) (id : Str) (run : Registered)
    → reuse request metadata id (some run) ≢ panics
unfolding reuse
reuse-panics request metadata id run = from (
    not (holds (str_discrete run.request.prompt request.prompt))
    || not (same_strings run.context_identity metadata))
  where
    from :
        (b : Bool)
        → if◌then◌else◌ {A = Answer StartResponse} b
            (refuses (
              failure ApplicationErrorCode.conflict
                "request_id was used with a different prompt or context"))
            (answers (record { run_id = id; reused = true }))
          ≢ panics
    from true = refuses-panics
    from false = answers-panics

register-panics :
    (request : StartRequest) (metadata : Map Str) (started : AgentError ⊎ Str) (state : State)
    → (register request metadata started state).1 ≢ panics
unfolding register
register-panics request metadata (inl e) state = refuses-panics
register-panics request metadata (inr id) state = elim (Bool-cases (is_some (get id state.runs))) [
  | inl b ↦ rw b refuses-panics
  | inr b ↦ rw b answers-panics
]

module _ {V : Type 0} (config : RegistryConfig) (runtime : RunRequest V → AgentError ⊎ Str) where
  -- A consistent registry stays so when a run is started, and the lookup of the run of a known request
  -- does not fail.
  start_in_sound :
      (request : StartRequest) (history : List (Message V)) (metadata : Map Str) (state : State)
      → Consistent state
      → Consistent (start_in config runtime request history metadata state).0
        × ((start_in config runtime request history metadata state).1 ≢ panics)
  unfolding start_in
  start_in_sound request history metadata state ok = by_closed state.closed
    where
      Sound : State × Answer StartResponse → Type 0
      Sound r = Consistent r.0 × (r.1 ≢ panics)

      by_run :
          (id : Str) (run : Registered)
          → get id state.runs ≡ some run
          → reuse request metadata id (get id state.runs) ≢ panics
      by_run id run h = rw h (reuse-panics request metadata id run)

      request_of : RunRequest V
      request_of = record {
        messages = admitted_messages config.system_prompt history request.prompt;
        metadata = metadata;
      }

      with_room :
          get request.request_id state.requests ≡ none
          → (b : Bool)
          → Sound (
              if b
              then (
                state,
                refuses (
                    failure ApplicationErrorCode.capacity
                      "run registry is full; forget a completed run or wait for TTL"),
              )
              else register request metadata (runtime request_of) state)
      with_room h true = (ok, refuses-panics)
      with_room h false = (
        register-Consistent request metadata (runtime request_of) state ok h,
        register-panics request metadata (runtime request_of) state,
      )

      by_key :
          (o : Option Str)
          → get request.request_id state.requests ≡ o
          → Sound (start_found config runtime request history metadata state o)
      by_key (some id) h =
          let found = ok.named request.request_id id h in (ok, by_run id found.0 found.1)
      by_key none h = with_room h (leb config.max_retained_runs (length state.runs))

      by_closed :
          (b : Bool)
          → Sound (
              if b
              then (
                state,
                refuses (failure ApplicationErrorCode.closed "application is shutting down"),
              )
              else start_found config runtime request history metadata state
                  (get request.request_id state.requests))
      by_closed true = (ok, refuses-panics)
      by_closed false = by_key (get request.request_id state.requests) refl

  pub start_sound :
      (in_tokio : Bool) (now : ℕ) (request : StartRequest) (history : List (Message V))
      (metadata : Map Str) (state : State)
      → Consistent state
      → Consistent
          (start_task_with_history config runtime in_tokio now request history metadata state).0
        × ((start_task_with_history config runtime in_tokio now request history metadata state).1
            ≢ panics)
  unfolding start_task_with_history
  start_sound in_tokio now request history metadata state ok =
      by_key (validate_key request.request_id)
    where
      Sound : State × Answer StartResponse → Type 0
      Sound r = Consistent r.0 × (r.1 ≢ panics)

      pruned : State × Answer StartResponse
      pruned = start_in config runtime request history metadata (prune config now state)

      by_tokio :
          (b : Bool)
          → Sound (
              if b
              then (
                state,
                refuses (failure ApplicationErrorCode.internal "a Tokio runtime is required"),
              )
              else pruned)
      by_tokio true = (ok, refuses-panics)
      by_tokio false =
          start_in_sound request history metadata (prune config now state)
            (prune-Consistent config now state ok)

      by_prompt :
          (b : Bool)
          → Sound (
              if b
              then (
                state,
                refuses
                    (failure ApplicationErrorCode.invalid_request "prompt is empty or too large"),
              )
              else if not in_tokio
              then (
                state,
                refuses (failure ApplicationErrorCode.internal "a Tokio runtime is required"),
              )
              else pruned)
      by_prompt true = (ok, refuses-panics)
      by_prompt false = by_tokio (not in_tokio)

      by_key :
          (o : Option ApplicationError)
          → Sound (elim o [
            | some e ↦ (state, refuses e)
            | none ↦
                if bad_prompt config request.prompt
                then (
                  state,
                  refuses
                      (failure ApplicationErrorCode.invalid_request "prompt is empty or too large"),
                )
                else if not in_tokio
                then (
                  state,
                  refuses (failure ApplicationErrorCode.internal "a Tokio runtime is required"),
                )
                else pruned
          ])
      by_key (some e) = (ok, refuses-panics)
      by_key none = by_prompt (bad_prompt config request.prompt)
