-- ===== src/Runtime/Admission/Driving.antt =====
-- packages/runtime/src/engine.rs: a run that is admitted is driven from a valid history.
use mona_agent_core.Prelude.{ℕ, ◌*◌, ◌<◌, ◌≡◌, refl, sym, subst, not, Option, [], ltb, usize_max}
use mona_agent_core.Api.Error.{ErrorCode, Result, ok, err, error, refuse, >>=-eq-ok}
use mona_agent_core.Api.Serializer.{Serializer, IsJson}
use mona_agent_core.Api.Validation.{validate_messages}
use mona_agent_core.Api.Limits as Limits
use mona_agent_core.Api.Checkpoint.{RunCheckpoint}
use mona_agent_core.Runtime.History.{History}
use mona_agent_core.Runtime.History as Histories
use mona_agent_core.Runtime.Projection.{RequestLimits}
use mona_agent_core.Runtime.Execution.{Round, stop_error}
use mona_agent_core.Runtime.Engine.{drive}
use mona_agent_core.Runtime.Engine.Drive.{IsDriven, drive-IsDriven}
use mona_agent_core.Runtime.Admission.{
  RunRequest, Host, Surroundings, Started, metadata_bytes, claim, check_request, launch, enter,
  admit, start,
}

-- What bounds the requests of a run.
abbrev pub configured : {V F : Type 0} → RunRequest V F → Surroundings → RequestLimits
configured request env = record {
  max_history_bytes = request.limits.max_history_bytes;
  max_context_bytes = request.limits.max_context_bytes;
  request_overhead = env.request_overhead;
}

same_history : {V : Type 0} {g h : History V} → ok g ≡ ok h → g ≡ h
same_history h = cc

module _ {V F : Type 0} (json : Serializer V) (request : RunRequest V F) (env : Surroundings) where
  -- What the driver is given is fresh.
  abbrev Fresh : Result (Started V F) → Type 0
  Fresh (err e) = Unit
  Fresh (ok s) =
      (validate_messages json s.execution.transcript.messages ≡ ok tt)
      × (s.execution.requests ≡ [])
      × (s.settings.limits ≡ configured request env)

  check_request-valid :
      (h : History V)
      → check_request json request env ≡ ok h
      → validate_messages json h.messages ≡ ok tt
  unfolding check_request
  check_request-valid h q =
      let (_, _, q1) =
        >>=-eq-ok
          (refuse (not env.in_tokio)
            (error ErrorCode.configuration "Engine::start requires a Tokio runtime"))
          _ q in
      let (_, _, q2) = >>=-eq-ok (Limits.validate request.limits) _ q1 in
      let (_, _, q3) = >>=-eq-ok env.options_valid _ q2 in
      let (_, _, q4) = >>=-eq-ok (stop_error env.stopped) _ q3 in
      let (transcript, _, q5) =
        >>=-eq-ok
          (Histories.new json request.messages request.limits.max_initial_history_bytes
            request.limits.max_history_bytes)
          _ q4 in
      let (_, valid, q6) = >>=-eq-ok (validate_messages json transcript.messages) _ q5 in
      let (_, _, q7) =
        >>=-eq-ok
          (refuse (ltb (16 * 1024) (metadata_bytes request.metadata))
            (error ErrorCode.limit "run metadata too large"))
          _ q6 in
      subst (λ (g : History V). validate_messages json g.messages ≡ ok tt) (same_history q7) valid

  launch-Fresh :
      (host : Host) (h : History V) (p : Result (Unit {0})) (n : Result ℕ)
      → validate_messages json h.messages ≡ ok tt
      → Fresh (launch json host request env h p n).1
  unfolding launch
  launch-Fresh host h (err e) n v = tt
  launch-Fresh host h (ok u) (err e) v = tt
  launch-Fresh host h (ok u) (ok n) v = (v, refl, refl)

  enter-Fresh :
      (host : Host) (h : History V) (claimed : Result Host)
      → validate_messages json h.messages ≡ ok tt
      → Fresh (enter json host request env h claimed).1
  unfolding enter
  enter-Fresh host h (err e) v = tt
  enter-Fresh host h (ok claimed) v =
      launch-Fresh claimed h env.provider (env.request_overhead []) v

  start-Fresh : (host : Host) → Fresh (start json host request env).1
  unfolding start admit
  start-Fresh host = from (check_request json request env) refl
    where
      from :
          (c : Result (History V))
          → check_request json request env ≡ c
          → Fresh (admit json host request env c).1
      from (err e) q = tt
      from (ok h) q =
          enter-Fresh host h (claim host request.allowed_tools env.id) (check_request-valid h q)

module _ {V F : Type 0} (json : Serializer V)
    (checkpoint_bytes : RunCheckpoint V F → Option ℕ) where
  -- With the sizes of JSON, and whatever the model, the plugins, the sink, the inputs and the tools of
  -- each round are: an admitted run makes each request from a transcript that validate_messages
  -- accepts, which only grows afterwards. The messages sent are accepted too without the protected
  -- sources, which stand together among them, and all of them with the overhead of the offered tools
  -- fit the configured context, which has less than 64 bits. A run that completes ends with its answer,
  -- a reply without tool calls to a valid history.
  pub start-IsDriven :
      (host : Host) (request : RunRequest V F) (env : Surroundings) (s : Started V F)
      (rounds : ℕ → Round V)
      → IsJson json
      → (start json host request env).1 ≡ ok s
      → request.limits.max_context_bytes < usize_max
      → IsDriven json
          (configured request env)
          (drive json checkpoint_bytes s.settings rounds s.execution)
  start-IsDriven host request env s rounds doc q small =
      let fresh = subst (Fresh json request env) q (start-Fresh json request env host) in
      subst
        (λ (l : RequestLimits).
          IsDriven json l (drive json checkpoint_bytes s.settings rounds s.execution))
        fresh.2
        (drive-IsDriven json checkpoint_bytes s.settings
          (subst (λ (l : RequestLimits). l.max_context_bytes < usize_max) (sym fresh.2) small) doc
          rounds s.execution fresh.0 fresh.1)
