-- ===== src/Application/Registry/Guards.antt =====
-- packages/application/src/service.rs: the guards of start_task_with_history.
use mona_agent_core.Prelude.{
  ℕ, ◌≡◌, refl, ◌⊎◌, Bool, true, false, not, Option, none, some, List, if◌then◌else◌,
}
use mona_agent_core.Prelude.Strings.{Str}
use mona_agent_core.Prelude.Maps.{Map}
use mona_agent_core.Api.Error.{AgentError}
use mona_agent_core.Api.Message.{Message}
use mona_agent_core.Application.Protocol.{
  ApplicationError, ApplicationErrorCode, failure, validate_key,
}
use mona_agent_core.Application.Registry.{
  StartRequest, State, RegistryConfig, Answer, answers, refuses, StartResponse, RunRequest,
  start_in, start_task_with_history, prune, bad_prompt,
}
use mona_agent_core.Application.Registry.Idempotency.{refuses-answers}

-- The guards of start_task_with_history: the key, the prompt and the Tokio runtime.
pub guards :
    Option ApplicationError
    → Bool
    → Bool
    → State
    → State × Answer StartResponse
    → State × Answer StartResponse
guards (some e) bad outside state started = (state, refuses e)
guards none bad outside state started =
    if bad
    then (
      state,
      refuses (failure ApplicationErrorCode.invalid_request "prompt is empty or too large"),
    )
    else if outside
    then (state, refuses (failure ApplicationErrorCode.internal "a Tokio runtime is required"))
    else started

pub guards-answers :
    (o : Option ApplicationError) (bad outside : Bool) (state : State)
    (started : State × Answer StartResponse) {r : StartResponse}
    → (guards o bad outside state started).1 ≡ answers r
    → (o ≡ none) × (bad ≡ false) × (outside ≡ false)
unfolding guards
guards-answers (some e) bad outside state started h = absurd (refuses-answers h)
guards-answers none true outside state started h = absurd (refuses-answers h)
guards-answers none false true state started h = absurd (refuses-answers h)
guards-answers none false false state started h = (refl, refl, refl)

pub guards-passed :
    (o : Option ApplicationError) (bad outside : Bool) (state : State)
    (started : State × Answer StartResponse)
    → (o ≡ none) × (bad ≡ false) × (outside ≡ false)
    → guards o bad outside state started ≡ started
unfolding guards
guards-passed o bad outside state started (p, q, r) = rw (p, q, r) refl

module _ {V : Type 0} (config : RegistryConfig) where
  pub start_task_with_history-guards :
      (runtime : RunRequest V → AgentError ⊎ Str) (in_tokio : Bool) (now : ℕ)
      (request : StartRequest) (history : List (Message V)) (metadata : Map Str) (state : State)
      → start_task_with_history config runtime in_tokio now request history metadata state
        ≡ guards
            (validate_key request.request_id)
            (bad_prompt config request.prompt)
            (not in_tokio)
            state
            (start_in config runtime request history metadata (prune config now state))
  unfolding start_task_with_history guards
  start_task_with_history-guards runtime in_tokio now request history metadata state =
      by_key (validate_key request.request_id)
    where
      pruned : State × Answer StartResponse
      pruned = start_in config runtime request history metadata (prune config now state)

      by_key :
          (o : Option ApplicationError)
          → (elim o as (λ x. State × Answer StartResponse) [
            | some e ↦ (state, refuses e)
            | none ↦
                if bad_prompt config request.prompt
                then (
                  state,
                  refuses
                      (failure ApplicationErrorCode.invalid_request "prompt is empty or too large"),
                )
                else if not in_tokio
                then (
                  state,
                  refuses (failure ApplicationErrorCode.internal "a Tokio runtime is required"),
                )
                else pruned
          ])
            ≡ guards o (bad_prompt config request.prompt) (not in_tokio) state pruned
      by_key (some e) = refl
      by_key none = refl
