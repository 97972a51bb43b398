-- ===== src/Runtime/Tools/Guards.antt =====
-- What `run_one` answers, and when it enters the body of a tool.
use mona_agent_core.Prelude.{
  ℕ, max, String, ◌≡◌, refl, ◌∙◌, inl, inr, Bool, true, false, ◌&&◌, ◌||◌, Option, none, some, List,
  [], ◌∷◌, leb, holds, holds→, Bool-cases, &&-true, All,
}
use mona_agent_core.Prelude.Strings.{Str, str_discrete}
use mona_agent_core.Api.Error.{refuse-eq-ok, >>=-eq-ok, AgentError, Result, ok, err, ◌>>◌}
use mona_agent_core.Api.Message.{ToolCall, ToolResult, ToolOutput}
use mona_agent_core.Api.Serializer.{Serializer}
use mona_agent_core.Api.ToolResults.{new_result, from_output, payload_bytes}
use mona_agent_core.Runtime.Tools.{
  PolicyDecision, allow, deny, Dispatch, Outcome, cap_result, stop, settle_denied, denied, executed,
  transformed, maybe_transformed, checked_content, dispatch, guarded, or_denied, cancelled_error,
  run_one, is_interruption, ToolStatus-discrete,
}

module _ {V : Type 0} (json : Serializer V) (decimal : ℕ → Str) (display : AgentError → Str) where
  cap_result-call_id :
      (r : ToolResult V) (limit : ℕ) → (cap_result json decimal r limit).0.call_id ≡ r.call_id
  unfolding cap_result
  cap_result-call_id r limit = elim (Bool-cases (leb (payload_bytes json r) limit)) [
    | inl e ↦ rw e refl
    | inr e ↦ rw e refl
  ]

  transformed-call_id :
      (r : ToolResult V) (ts : List (Result (ToolResult V)))
      → (transformed json decimal display r ts).0.call_id ≡ r.call_id
  unfolding transformed
  transformed-call_id r [] = refl
  transformed-call_id r (err e ∷ ts) = refl
  transformed-call_id r (ok next ∷ ts) =
      let keep =
        holds (str_discrete next.call_id r.call_id)
        && holds (ToolStatus-discrete next.status r.status) in
      let rest =
        transformed-call_id
          (record next {
            original_bytes = max next.original_bytes r.original_bytes;
            truncated = next.truncated || r.truncated;
          })
          ts in
      elim (Bool-cases keep) [
        | inl e ↦ rw e (rest ∙ holds→ (str_discrete next.call_id r.call_id) (&&-true _ _ e).0)
        | inr e ↦ rw e refl
      ]

  checked-call_id :
      (r : ToolResult V) (v : Result (Unit {0}))
      → (checked_content json decimal display r v).0.call_id ≡ r.call_id
  unfolding checked_content
  checked-call_id r (ok u) = refl
  checked-call_id r (err e) = refl

  maybe-call_id :
      (x : ToolResult V × Option AgentError) (ts : List (Result (ToolResult V)))
      → (maybe_transformed json decimal display x ts).0.call_id ≡ x.0.call_id
  unfolding maybe_transformed
  maybe-call_id (r, none) ts = transformed-call_id r ts
  maybe-call_id (r, some e) ts = refl

  executed-call_id :
      (call : ToolCall V) (execution : Result (ToolOutput V))
      → (executed json decimal display call execution).0.call_id ≡ call.id
  unfolding executed from_output new_result
  executed-call_id call (ok output) = refl
  executed-call_id call (err e) = elim (Bool-cases (is_interruption e)) [
    | inl h ↦ rw h refl
    | inr h ↦ rw h refl
  ]

  dispatch-call_id :
      (call : ToolCall V) (limit : ℕ) (env : Dispatch V)
      → (dispatch json decimal display call limit env).result.call_id ≡ call.id
  unfolding dispatch
  dispatch-call_id call limit env =
      cap_result-call_id _ limit
      ∙ (checked-call_id _ _
          ∙ (maybe-call_id (executed json decimal display call env.execution) env.transforms
              ∙ executed-call_id call env.execution))

  -- The outcome is about the call; its body was entered only under `P`.
  record Guarded (call : ToolCall V) (P : Type 0) (o : Outcome V) : Type 0 where
    answers : o.result.call_id ≡ call.id
    passed : o.entered ≡ true → P

  abbrev IsAllow : Result PolicyDecision → Type 0
  IsAllow d = d ≡ ok allow

  dispatch-Guarded :
      (call : ToolCall V) (limit : ℕ) (env : Dispatch V)
      → Guarded call Unit (dispatch json decimal display call limit env)
  unfolding dispatch
  dispatch-Guarded call limit env = record {
    answers =
        cap_result-call_id _ limit
        ∙ (checked-call_id _ _
            ∙ (maybe-call_id (executed json decimal display call env.execution) env.transforms
                ∙ executed-call_id call env.execution));
    passed = λ e. tt;
  }

  denied-Guarded :
      (call : ToolCall V) (ds : List (Result PolicyDecision)) (limit : ℕ)
      (saved : Result (Unit {0})) (P : Type 0) (rest : Outcome V)
      → Guarded call P rest
      → Guarded call
          (All IsAllow ds × P)
          (or_denied json decimal display (denied json decimal call ds limit saved) rest)
  unfolding denied or_denied settle_denied new_result
  denied-Guarded call [] limit saved P rest h = record {
    answers = h.answers;
    passed = λ e. (tt, h.passed e);
  }
  denied-Guarded call (ok allow ∷ ds) limit saved P rest h =
      let ih = denied-Guarded call ds limit saved P rest h in
      record {
        answers = ih.answers;
        passed = λ e. let (all_allow, p) = ih.passed e in ((refl, all_allow), p);
      }
  denied-Guarded call (ok (deny reason) ∷ ds) limit saved P rest h = record {
    answers = cap_result-call_id _ limit;
    passed = λ e. cc e;
  }
  denied-Guarded call (err x ∷ ds) limit saved P rest h = record {
    answers = cap_result-call_id _ limit;
    passed = λ e. cc e;
  }

  guarded-Guarded :
      (call : ToolCall V) (reason : String) (x : Result (Unit {0})) (P : Type 0) (rest : Outcome V)
      → Guarded call P rest
      → Guarded call ((x ≡ ok tt) × P) (guarded json decimal display call reason x rest)
  unfolding guarded stop new_result
  guarded-Guarded call reason (ok u) P rest h = record {
    answers = h.answers;
    passed = λ e. (refl, h.passed e);
  }
  guarded-Guarded call reason (err e) P rest h = record { answers = refl; passed = λ k. cc k }

  -- What holds when the body of a tool is entered.
  pub record Cleared (env : Dispatch V) : Type 0 where
    pub started : (env.start_check ≡ ok tt) × (env.start_cancelled ≡ false)
    pub intended : env.intent ≡ ok tt
    pub rechecked : (env.intent_check ≡ ok tt) × (env.intent_cancelled ≡ false)
    pub policies : All IsAllow env.decisions
    pub last : (env.final_check ≡ ok tt) × (env.final_cancelled ≡ false)
    pub durable : env.checkpoint ≡ ok tt

  uncancelled :
      (c : Bool) (message : String)
      → cancelled_error json decimal display c message ≡ ok tt
      → c ≡ false
  unfolding cancelled_error
  uncancelled c message h = refuse-eq-ok c _ h

  both : (x y : Result (Unit {0})) → (x >> y) ≡ ok tt → (x ≡ ok tt) × (y ≡ ok tt)
  both x y h = let (u, e, k) = >>=-eq-ok x (λ done. y) h in (e, k)

  abbrev IsLive : Bool → String → Type 0
  IsLive c message = cancelled_error json decimal display c message ≡ ok tt

  -- The conditions in the order of the code.
  run_one-Guarded :
      (call : ToolCall V) (limit : ℕ) (env : Dispatch V)
      → Guarded call
          ((env.start_check ≡ ok tt)
            × ((IsLive env.start_cancelled "run cancelled")
                × ((env.intent ≡ ok tt)
                    × ((env.intent_check ≡ ok tt)
                        × ((IsLive env.intent_cancelled "run cancelled")
                            × ((All IsAllow env.decisions)
                                × (((env.final_check
                                        >> cancelled_error json decimal display env.final_cancelled
                                            "cancelled before dispatch")
                                      ≡ ok tt)
                                    × ((env.checkpoint ≡ ok tt) × Unit {0}))))))))
          (run_one json decimal display call limit env)
  unfolding run_one
  run_one-Guarded call limit env = guarded-Guarded call _ _ _ _ (
      guarded-Guarded call _ _ _ _ (
        guarded-Guarded call _ _ _ _ (
          guarded-Guarded call _ _ _ _ (
            guarded-Guarded call _ _ _ _ (
              denied-Guarded call env.decisions limit env.saved _ _ (
                guarded-Guarded call _ _ _ _
                  (guarded-Guarded call _ _ _ _ (dispatch-Guarded call limit env))))))))

  -- Whatever the environment answers, the result of a call carries the id of the call.
  pub run_one-call_id :
      (call : ToolCall V) (limit : ℕ) (env : Dispatch V)
      → (run_one json decimal display call limit env).result.call_id ≡ call.id
  run_one-call_id call limit env = (run_one-Guarded call limit env).answers

  -- The body of a tool is entered only if the intent was saved, every policy allows the call, the
  -- checkpoints are sound, and the task was neither stopped nor cancelled at any of the three checks.
  pub run_one-Cleared :
      (call : ToolCall V) (limit : ℕ) (env : Dispatch V)
      → (run_one json decimal display call limit env).entered ≡ true
      → Cleared env
  run_one-Cleared call limit env entered =
      let (a, (b, (c, (d, (f, (policies, (last, (durable, _)))))))) =
        (run_one-Guarded call limit env).passed entered in
      let (check, alive) = both env.final_check _ last in
      record {
        started = (a, uncancelled _ _ b);
        intended = c;
        rechecked = (d, uncancelled _ _ f);
        policies = policies;
        last = (check, uncancelled _ _ alive);
        durable = durable;
      }
