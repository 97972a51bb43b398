-- ===== src/Runtime/Engine/Drive.antt =====
-- packages/runtime/src/engine.rs: every request of a run is made from a valid history.
use mona_agent_core.Prelude.{
  ℕ, zero, suc, ◌<◌, ◌≡◌, refl, sym, ap, subst, ◌∙◌, Bool, true, false, not, ◌&&◌, Option, none,
  some, List, [], ◌∷◌, ◌++◌, All, is_empty, usize_max, if◌then◌else◌,
}
use mona_agent_core.Prelude.Strings.{Str}
use mona_agent_core.Api.Error.{ErrorCode, Result, ok, err, error, refuse}
use mona_agent_core.Api.Message.{Message, assistant, ToolCall, ProviderData}
use mona_agent_core.Api.Serializer.{Serializer, IsJson}
use mona_agent_core.Api.Validation.{validate_messages}
use mona_agent_core.Api.Checkpoint.{RunCheckpoint}
use mona_agent_core.Runtime.History.{History, check_model_room}
use mona_agent_core.Runtime.Checkpoints.{saves_after_model}
use mona_agent_core.Runtime.Projection.{RequestLimits}
use mona_agent_core.Runtime.Projection.Sound.{Valid}
use mona_agent_core.Runtime.Execution.{
  Execution, Round, Reply, into_message, Settings, Run, lift, attempt, set_steps, reuses_id,
  answered, still_running,
}
use mona_agent_core.Runtime.Engine.{
  save_now, admit_now, apply_inputs, request_reply, close_batch, finish_batch, finish_round,
  settle_reply, after_admission, drive_round, drive_from, drive,
}
use mona_agent_core.Runtime.Engine.Triples.{
  Appended, IsSound, Sound, Held, Ensures, Held-continue, Held-lift, Held-now, Held-ok, Held-err,
  Ensures-attempt_save, Ensures-admit,
}
use mona_agent_core.Runtime.Engine.Requests.{
  Applied, apply_inputs-Applied, Applied-valid, close_batch-Keeps, finish_batch-valid,
}
use mona_agent_core.Runtime.Engine.Rounds.{OfRun, Good, request_reply-valid}

-- The history ends with the answer, and was valid before it.
pub record Answers {V : Type 0} (json : Serializer V) (answer : Str) (h : History V) : Type 0 where
  pub before : List (Message V)
  pub reasoning : Option Str
  pub provider_data : Option (ProviderData V)
  pub ends : h.messages ≡ before ++ assistant answer [] reasoning provider_data ∷ []
  pub valid : Valid json before

-- The outcome of a run.
abbrev pub Output : {V : Type 0} → Serializer V → Result Str → History V → Type 0
Output json (err e) h = Unit
Output json (ok answer) h = Answers json answer h

-- What a run of the driver leaves.
pub record IsDriven {V F : Type 0} (json : Serializer V) (limits : RequestLimits)
    (x : Execution V F × Result Str) : Type 0 where
  pub requests : All (IsSound json limits x.0.transcript.messages) x.0.requests
  pub output : Output json x.1 x.0.transcript

-- A round goes on from a valid history, or ends the run with its answer.
abbrev Next : {V : Type 0} → Serializer V → Option Str → History V → Type 0
Next json none h = Valid json h.messages
Next json (some answer) h = Answers json answer h

module _ {V F : Type 0} (json : Serializer V) (checkpoint_bytes : RunCheckpoint V F → Option ℕ)
    (settings : Settings) (small : settings.limits.max_context_bytes < usize_max)
    (doc : IsJson json) where
  finish_round-Next :
      (r : Round V) (answer : Str) (calls : List (ToolCall V)) (e : Execution V F)
      → Sound json settings.limits e
      → (calls ≡ [] → Answers json answer e.transcript)
      → OfRun json checkpoint_bytes settings small doc
          (Next json)
          (finish_round json checkpoint_bytes settings r answer calls e)
  unfolding finish_round
  finish_round-Next r answer [] e s k =
      Held-continue json settings.limits
        (Applied json checkpoint_bytes settings (Answers json answer)) (Next json)
        (apply_inputs json checkpoint_bytes settings r.late_arrived r.late_saved e) _
        (apply_inputs-Applied json checkpoint_bytes settings (Answers json answer) r.late_arrived
          r.late_saved e s (k refl))
        ended
    where
      ended :
          (applied : Bool) (e1 : Execution V F)
          → Sound json settings.limits e1
          → Applied json checkpoint_bytes settings (Answers json answer) applied e1.transcript
          → OfRun json checkpoint_bytes settings small doc
              (Next json)
              (lift (ok (if applied then none else some answer)) e1)
      ended true e1 s1 q = Held-ok json settings.limits (Next json) e1 none s1 q
      ended false e1 s1 q = Held-ok json settings.limits (Next json) e1 (some answer) s1 q
  finish_round-Next r answer (c ∷ cs) e s k =
      Held-continue json settings.limits (λ u. Good json checkpoint_bytes settings small doc)
        (Next json) (finish_batch json checkpoint_bytes settings r e) _
        (finish_batch-valid json checkpoint_bytes settings r e s)
        (λ u e1 s1 v. Held-ok json settings.limits (Next json) e1 none s1 v)

  -- An admitted reply without calls is an answer.
  Appended-Answers :
      (reply : Reply V) (old h : History V)
      → Valid json old.messages
      → Appended (λ g. g ≡ old) (into_message reply ∷ []) h
      → reply.calls ≡ []
      → Answers json reply.content h
  Appended-Answers reply old h v a none_called = record {
    before = old.messages;
    reasoning = reply.reasoning;
    provider_data = reply.provider_data;
    ends =
        a.2
        ∙ ap (λ (g : History V). g.messages ++ into_message reply ∷ []) a.1
        ∙ ap
            (λ (cs : List (ToolCall V)).
              old.messages ++ assistant reply.content cs reply.reasoning reply.provider_data ∷ [])
            none_called;
    valid = v;
  }

  after_admission-Next :
      (P : History V → Type 0) (r : Round V) (reply : Reply V) (e : Execution V F)
      → Sound json settings.limits e
      → P e.transcript
      → ((h : History V) → P h → reply.calls ≡ [] → Answers json reply.content h)
      → OfRun json checkpoint_bytes settings small doc
          (Next json)
          (after_admission json checkpoint_bytes settings r reply e)
  unfolding after_admission
  after_admission-Next P r reply e s p k = Held-now json settings.limits (Next json) e _ (
      Held-continue json settings.limits (λ saved. P) (Next json)
        (attempt
          (save_now json checkpoint_bytes settings
            (saves_after_model e.transcript.messages reply.calls) r.after_saved)
          e)
        _
        (Ensures-attempt_save json checkpoint_bytes settings P
          (saves_after_model e.transcript.messages reply.calls) r.after_saved e s p)
        (λ saved e1 s1 p1.
          Held-continue json settings.limits (λ u. P) (Next json)
            (close_batch json checkpoint_bytes settings saved "checkpoint failed before dispatch"
              reply.calls e1)
            _
            (close_batch-Keeps json checkpoint_bytes settings P saved
              "checkpoint failed before dispatch" reply.calls e1 s1 p1)
            (λ u e2 s2 p2.
              Held-continue json settings.limits (λ w. P) (Next json)
                (close_batch json checkpoint_bytes settings
                  (still_running r.stopped_later r.cancelled_later "run cancelled before dispatch")
                  "stopped before dispatch" reply.calls e2)
                _
                (close_batch-Keeps json checkpoint_bytes settings P
                  (still_running r.stopped_later r.cancelled_later "run cancelled before dispatch")
                  "stopped before dispatch" reply.calls e2 s2 p2)
                (λ w e3 s3 p3.
                  finish_round-Next r reply.content reply.calls e3 s3 (k e3.transcript p3)))))

  settle_reply-Next :
      (r : Round V) (reply : Reply V) (e : Execution V F)
      → Sound json settings.limits e
      → Good json checkpoint_bytes settings small doc e.transcript
      → OfRun json checkpoint_bytes settings small doc
          (Next json)
          (settle_reply json checkpoint_bytes settings r reply e)
  unfolding settle_reply
  settle_reply-Next r reply e s v = Held-now json settings.limits (Next json) e _ (
      Held-lift json settings.limits (Next json) e
        (refuse (not settings.enable_tools && not (is_empty reply.calls))
          (error ErrorCode.model_protocol "model called a tool in a tools-disabled run"))
        _ s
        (λ u q.
          Held-lift json settings.limits (Next json) e
            (refuse (reuses_id e.transcript.messages reply.calls)
              (error ErrorCode.model_protocol "model reused a tool-call id; not replayed"))
            _ s
            (λ w q1.
              Held-continue json settings.limits
                (λ b. Appended (λ g. g ≡ e.transcript) (into_message reply ∷ [])) (Next json)
                (admit_now json checkpoint_bytes settings (into_message reply) e) _
                (Ensures-admit json checkpoint_bytes settings (λ g. g ≡ e.transcript)
                  (into_message reply) e s refl)
                (λ b e1 s1 a.
                  after_admission-Next (Appended (λ g. g ≡ e.transcript) (into_message reply ∷ []))
                    r reply e1 s1 a
                    (λ h c none_called. Appended-Answers reply e.transcript h v c none_called)))))

  drive_round-Next :
      (step : ℕ) (r : Round V) (e : Execution V F)
      → Sound json settings.limits e
      → Good json checkpoint_bytes settings small doc e.transcript
      → OfRun json checkpoint_bytes settings small doc
          (Next json)
          (drive_round json checkpoint_bytes settings step r e)
  unfolding drive_round set_steps
  drive_round-Next step r e s v =
      Held-lift json settings.limits (Next json) e
        (still_running r.stopped r.cancelled "run cancelled") _ s
        (λ u q.
          Held-continue json settings.limits
            (Applied json checkpoint_bytes settings (Good json checkpoint_bytes settings small doc))
            (Next json) (apply_inputs json checkpoint_bytes settings r.arrived r.input_saved e) _
            (apply_inputs-Applied json checkpoint_bytes settings
              (Good json checkpoint_bytes settings small doc) r.arrived r.input_saved e s v)
            (λ applied e1 s1 a. Held-now json settings.limits (Next json) e1 _ (
              Held-lift json settings.limits (Next json) e1 (check_model_room json e1.transcript) _
                s1
                (λ w q1.
                  Held-lift json settings.limits (Next json) (record e1 { steps = step }) (ok tt) _
                    s1
                    (λ x q2.
                      Held-continue json settings.limits
                        (λ reply. Good json checkpoint_bytes settings small doc) (Next json)
                        (request_reply json checkpoint_bytes settings step r
                          (record e1 { steps = step }))
                        _
                        (request_reply-valid json checkpoint_bytes settings small doc step r
                          (record e1 { steps = step }) s1
                          (Applied-valid json checkpoint_bytes settings applied e1.transcript a))
                        (λ reply e2 s2 v2. settle_reply-Next r reply e2 s2 v2))))))

  answered-Answers :
      (answer : Option Str) (rest : Run V F Str) (e : Execution V F)
      → Sound json settings.limits e
      → Next json answer e.transcript
      → Ensures json settings.limits
          (Good json checkpoint_bytes settings small doc)
          rest
          (Answers json)
      → OfRun json checkpoint_bytes settings small doc (Answers json) (answered answer rest e)
  unfolding answered
  answered-Answers none rest e s v k = k e s v
  answered-Answers (some answer) rest e s v k =
      Held-ok json settings.limits (Answers json) e answer s v

  drive_from-Answers :
      (n step : ℕ) (rounds : ℕ → Round V)
      → Ensures json settings.limits
          (Good json checkpoint_bytes settings small doc)
          (drive_from json checkpoint_bytes settings n step rounds)
          (Answers json)
  unfolding drive_from
  drive_from-Answers zero step rounds e s v = Held-err json settings.limits (Answers json) e _ s
  drive_from-Answers (suc n) step rounds e s v =
      Held-continue json settings.limits (Next json) (Answers json)
        (drive_round json checkpoint_bytes settings step (rounds step) e) _
        (drive_round-Next step (rounds step) e s v)
        (λ answer e1 s1 q.
          answered-Answers answer (drive_from json checkpoint_bytes settings n (suc step) rounds) e1
            s1 q (drive_from-Answers n (suc step) rounds))

  Held-IsDriven :
      (x : Execution V F × Result Str)
      → OfRun json checkpoint_bytes settings small doc (Answers json) x
      → IsDriven json settings.limits x
  unfolding Held
  Held-IsDriven (e, err x) h = record { requests = h; output = tt }
  Held-IsDriven (e, ok answer) h = record { requests = h.0; output = h.1 }

  -- A run that starts from a valid history is driven as its limits say.
  pub drive-IsDriven :
      (rounds : ℕ → Round V) (e : Execution V F)
      → validate_messages json e.transcript.messages ≡ ok tt
      → e.requests ≡ []
      → IsDriven json settings.limits (drive json checkpoint_bytes settings rounds e)
  unfolding drive
  drive-IsDriven rounds e v fresh = Held-IsDriven (drive json checkpoint_bytes settings rounds e) (
      drive_from-Answers settings.max_steps 1 rounds e
        (subst (All (IsSound json settings.limits e.transcript.messages)) (sym fresh) tt) v)
