-- ===== src/Application/Registry/Idempotency.antt =====
-- packages/application/src/service.rs: a request that is sent again.
use mona_agent_core.Prelude.{
  ◌≡◌, refl, sym, ap, subst, ◌∙◌, ◌≢◌, ◌⊎◌, inl, inr, Bool, true, false, not, ◌||◌, Option, none,
  some, List, [], ◌∷◌, leb, if◌then◌else◌, holds, →holds, is_some, Bool-cases, length,
}
use mona_agent_core.Prelude.Strings.{Str, str_discrete}
use mona_agent_core.Prelude.Maps.{Map, get, insert, get-insert_same}
use mona_agent_core.Api.Error.{AgentError}
use mona_agent_core.Api.Message.{Message}
use mona_agent_core.Application.Protocol.{ApplicationError, ApplicationErrorCode, failure}
use mona_agent_core.Application.Registry.{
  StartRequest, Registered, State, RegistryConfig, Answer, answers, refuses, panics, StartResponse,
  RunRequest, reuse, register, start_found, start_in, admitted_messages, same_strings,
}

same_strings_refl : (m : Map Str) → same_strings m m ≡ true
unfolding same_strings
same_strings_refl [] = refl
same_strings_refl (e ∷ es) =
    rw (→holds (str_discrete e.0 e.0) refl, →holds (str_discrete e.1 e.1) refl)
      (same_strings_refl es)

abbrev pub again : StartResponse → Answer StartResponse
again r = answers (record { run_id = r.run_id; reused = true })

pub refuses-answers : {r : StartResponse} {e : ApplicationError} → refuses e ≢ answers r
refuses-answers h = cc

pub panics-answers : {r : StartResponse} → panics ≢ answers r
panics-answers h = cc

same_answer : {r s : StartResponse} → answers r ≡ answers s → r ≡ s
same_answer h = cc

-- A reuse that answers, answers the same again.
reuse-again :
    (request : StartRequest) (metadata : Map Str) (id : Str) (o : Option Registered)
    (r : StartResponse)
    → reuse request metadata id o ≡ answers r
    → reuse request metadata id o ≡ again r
unfolding reuse
reuse-again request metadata id none r h = absurd (panics-answers h)
reuse-again request metadata id (some run) r h =
    from
      (not (holds (str_discrete run.request.prompt request.prompt))
        || not (same_strings run.context_identity metadata))
      h
  where
    refused : Answer StartResponse
    refused = refuses (
        failure ApplicationErrorCode.conflict
          "request_id was used with a different prompt or context")

    known : StartResponse
    known = record { run_id = id; reused = true }

    from :
        (b : Bool)
        → (if b then refused else answers known) ≡ answers r
        → (if b then refused else answers known) ≡ again r
    from true k = absurd (refuses-answers k)
    from false k =
        ap (λ (s : StartResponse). answers (record { run_id = s.run_id; reused = true }))
          (same_answer k)

-- The request of a run is known by its own prompt and context.
reuse-own :
    (request : StartRequest) (metadata : Map Str) (id : Str) (run : Registered)
    → run.request ≡ request
    → run.context_identity ≡ metadata
    → reuse request metadata id (some run) ≡ answers (record { run_id = id; reused = true })
unfolding reuse
reuse-own request metadata id run h k =
    rw (h, k, →holds (str_discrete request.prompt request.prompt) refl, same_strings_refl metadata)
      refl

module _ {V : Type 0} (config : RegistryConfig) (runtime : RunRequest V → AgentError ⊎ Str) where
  abbrev start : StartRequest → List (Message V) → Map Str → State → State × Answer StartResponse
  start = start_in config runtime

  pub start_in-found :
      (request : StartRequest) (history : List (Message V)) (metadata : Map Str) (state : State)
      → state.closed ≡ false
      → start request history metadata state
        ≡ start_found config runtime request history metadata state
            (get request.request_id state.requests)
  unfolding start_in
  start_in-found request history metadata state h = rw h refl

  pub start_in-closed :
      (request : StartRequest) (history : List (Message V)) (metadata : Map Str) (state : State)
      → state.closed ≡ true
      → start request history metadata state
        ≡ (state, refuses (failure ApplicationErrorCode.closed "application is shutting down"))
  unfolding start_in
  start_in-closed request history metadata state h = rw h refl

  -- What a registration that answers leaves, and its request in it.
  register-again :
      (request : StartRequest) (history : List (Message V)) (metadata : Map Str)
      (started : AgentError ⊎ Str) (state : State) (r : StartResponse)
      → state.closed ≡ false
      → (register request metadata started state).1 ≡ answers r
      → start request history metadata (register request metadata started state).0
        ≡ ((register request metadata started state).0, again r)
  unfolding register start_found
  register-again request history metadata (inl e) state r open' h = absurd (refuses-answers h)
  register-again request history metadata (inr id) state r open' h =
      from (is_some (get id state.runs)) h
    where
      own : Registered
      own = record {
        request = request;
        context_identity = metadata;
        completed_at = none;
        terminal = false;
      }

      after : State
      after = record state {
        requests = insert request.request_id id state.requests;
        runs = insert id own state.runs;
      }

      registered : State × Answer StartResponse
      registered = (after, answers (record { run_id = id; reused = false }))

      taken : State × Answer StartResponse
      taken = (state, refuses (failure ApplicationErrorCode.internal "runtime reused a run id"))

      known :
          start request history metadata after
          ≡ (after, reuse request metadata id (get id (insert id own state.runs)))
      known =
          start_in-found request history metadata after open'
          ∙ ap (start_found config runtime request history metadata after)
              (get-insert_same request.request_id id state.requests)

      from :
          (b : Bool)
          → (if b then taken else registered).1 ≡ answers r
          → start request history metadata (if b then taken else registered).0
            ≡ ((if b then taken else registered).0, again r)
      from true k = absurd (refuses-answers k)
      from false k =
          known
          ∙ ap (λ (a : Answer StartResponse). (after, a))
              (ap (reuse request metadata id) (get-insert_same id own state.runs)
                ∙ reuse-own request metadata id own refl refl
                ∙ ap (λ (s : StartResponse). answers (record { run_id = s.run_id; reused = true }))
                    (same_answer k))

  -- A request whose start was answered, sent again to the registry that it left, is answered with the
  -- same run, marked as reused, and leaves the registry as it is.
  pub start_in-again :
      (request : StartRequest) (history : List (Message V)) (metadata : Map Str) (state : State)
      (r : StartResponse)
      → (start_in config runtime request history metadata state).1 ≡ answers r
      → start_in config runtime request history metadata
          (start_in config runtime request history metadata state).0
        ≡ (
          (start_in config runtime request history metadata state).0,
          answers (record { run_id = r.run_id; reused = true }),
        )
  unfolding start_found
  start_in-again request history metadata state r h = by_closed (Bool-cases state.closed)
    where
      Again : State × Answer StartResponse → Type 0
      Again x = x.1 ≡ answers r → start request history metadata x.0 ≡ (x.0, again r)

      with_room :
          state.closed ≡ false
          → (b : Bool)
          → Again (
              if b
              then (
                state,
                refuses (
                    failure ApplicationErrorCode.capacity
                      "run registry is full; forget a completed run or wait for TTL"),
              )
              else register request metadata
                  (runtime (record {
                    messages = admitted_messages config.system_prompt history request.prompt;
                    metadata = metadata;
                  }))
                  state)
      with_room open' true k = absurd (refuses-answers k)
      with_room open' false k = register-again request history metadata _ state r open' k

      by_key :
          state.closed ≡ false
          → (o : Option Str) → get request.request_id state.requests ≡ o
          → Again (start_found config runtime request history metadata state o)
      by_key open' (some id) q k =
          start_in-found request history metadata state open'
          ∙ ap (start_found config runtime request history metadata state) q
          ∙ ap (λ (a : Answer StartResponse). (state, a))
              (reuse-again request metadata id (get id state.runs) r k)
      by_key open' none q k = with_room open' (leb config.max_retained_runs (length state.runs)) k

      by_closed :
          (state.closed ≡ true) ⊎ (state.closed ≡ false)
          → start request history metadata (start request history metadata state).0
            ≡ ((start request history metadata state).0, again r)
      by_closed (inl c) = absurd (
          refuses-answers (
            sym (
              ap (λ (x : State × Answer StartResponse). x.1)
                (start_in-closed request history metadata state c))
            ∙ h))
      by_closed (inr open') =
          subst Again (sym (start_in-found request history metadata state open'))
            (by_key open' (get request.request_id state.requests) refl) h
