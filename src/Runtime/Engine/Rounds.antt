-- ===== src/Runtime/Engine/Rounds.antt =====
-- packages/runtime/src/engine.rs: the requests of one round.
use mona_agent_core.Prelude.{
  ℕ, ◌<◌, ◌≡◌, refl, ap, ◌∙◌, Bool, true, false, not, ◌&&◌, Option, none, some, List, [], map,
  saturating_add, usize_max, if◌then◌else◌,
}
use mona_agent_core.Prelude.Strings.{Str}
use mona_agent_core.Api.Error.{AgentError, Result, ok, err}
use mona_agent_core.Api.Message.{Message}
use mona_agent_core.Api.Serializer.{Serializer, elements_bytes, IsJson}
use mona_agent_core.Api.Checkpoint.{RunCheckpoint}
use mona_agent_core.Runtime.History.{History}
use mona_agent_core.Runtime.Checkpoints.{Surroundings, Save, saves_before_model}
use mona_agent_core.Runtime.Projection.{
  Block, Sources, selected_tools, collect_sources, project, recover_projection,
}
use mona_agent_core.Runtime.Projection.Sizes.{collect_sources-IsCounted}
use mona_agent_core.Runtime.Projection.Sound.{
  IsRequest, project-IsRequest, recover_projection-IsRequest,
}
use mona_agent_core.Runtime.Execution.{
  Execution, Round, Reply, Settings, Run, ◌>>◌, lift, ask, is_window,
}
use mona_agent_core.Runtime.Engine.{
  save_now, resend, recover_window, reply_or_recover, request_reply,
}
use mona_agent_core.Runtime.Engine.Triples.{
  Sound, Held, Ensures, Held-continue, Held-lift, Held-now, Held-ok, Held-err, Held-end,
  Ensures-ask, Ensures-save,
}
use mona_agent_core.Runtime.Engine.Requests.{IsValid}

module _ {V F : Type 0} (json : Serializer V) (checkpoint_bytes : RunCheckpoint V F → Option ℕ)
    (settings : Settings) (small : settings.limits.max_context_bytes < usize_max)
    (doc : IsJson json) where
  abbrev pub OfRun : {A : Type 0} → (A → History V → Type 0) → Execution V F × Result A → Type 0
  OfRun = Held json settings.limits

  abbrev pub Good : History V → Type 0
  Good = IsValid json checkpoint_bytes settings

  -- A saved checkpoint and a request, and what follows.
  saved_and_asked :
      (R : Reply V → History V → Type 0) (o : Save V) (env : Surroundings)
      (sources : List (Message V)) (tools : List Str) (ms : List (Message V))
      (rest : Run V F (Reply V)) (e : Execution V F)
      → Sound json settings.limits e
      → Good e.transcript
      → IsRequest json settings.limits tools sources ms
      → Ensures json settings.limits Good rest R
      → OfRun R
          ((save_now json checkpoint_bytes settings o env >> (ask sources tools ms >> rest)) e)
  saved_and_asked R o env sources tools ms rest e s v q k =
      Held-continue json settings.limits (λ u. Good) R
        (save_now json checkpoint_bytes settings o env e) _
        (Ensures-save json checkpoint_bytes settings Good o env e s v)
        (λ u e1 s1 v1.
          Held-continue json settings.limits (λ w. Good) R (ask sources tools ms e1) _
            (Ensures-ask json settings.limits Good sources tools ms q (λ h g. g) e1 s1 v1)
            (λ w e2 s2 v2. k e2 s2 v2))

  resend-valid :
      (step : ℕ) (tools : List Str) (r : Round V) (blocks : List (Message V)) (failed : AgentError)
      (found : Option (List (Message V))) (e : Execution V F)
      → Sound json settings.limits e
      → Good e.transcript
      → ((ms : List (Message V)) → found ≡ some ms → IsRequest json settings.limits tools blocks ms)
      → OfRun (λ a. Good) (resend json checkpoint_bytes settings step tools r blocks failed found e)
  unfolding resend
  resend-valid step tools r blocks failed none e s v q =
      Held-err json settings.limits (λ a. Good) e failed s
  resend-valid step tools r blocks failed (some ms) e s v q =
      Held-now json settings.limits (λ a. Good) e _
        (saved_and_asked (λ a. Good) (saves_before_model step e.transcript.messages tools)
          r.again_saved blocks tools ms (lift r.second_reply) e s v (q ms refl)
          (λ e1 s1 v1. Held-end json settings.limits Good e1 r.second_reply s1 v1))

  -- The round of these tools and sources, from its reply on.
  module _ (tools : List Str) (overhead : ℕ) (sources : Sources V)
      (offered : settings.limits.request_overhead tools ≡ ok overhead)
      (counted : elements_bytes json.message_bytes
          (map (λ (b : Block V). b.1) sources.blocks)
          false
          0
        ≡ some sources.bytes) where
    abbrev blocks : List (Message V)
    blocks = map (λ (b : Block V). b.1) sources.blocks

    abbrev reserved : ℕ
    reserved = saturating_add overhead sources.bytes

    reply_or_recover-valid :
        (step : ℕ) (r : Round V) (ms : List (Message V)) (reply : Result (Reply V))
        (e : Execution V F)
        → Sound json settings.limits e
        → Good e.transcript
        → OfRun
            (λ a. Good)
            (reply_or_recover json checkpoint_bytes settings step tools r reserved blocks ms reply
              e)
    unfolding reply_or_recover recover_window
    reply_or_recover-valid step r ms (ok reply) e s v =
        Held-ok json settings.limits (λ a. Good) e reply s v
    reply_or_recover-valid step r ms (err failed) e s v =
        by_code (is_window failed.code && not failed.model_output_started)
      where
        by_code :
            (b : Bool)
            → OfRun
                (λ a. Good)
                ((if b
                    then recover_window json checkpoint_bytes settings step tools r reserved blocks
                        ms failed
                    else lift (err failed))
                  e)
        by_code false = Held-err json settings.limits (λ a. Good) e failed s
        by_code true =
            Held-now json settings.limits (λ a. Good) e _
              (Held-lift json settings.limits (λ a. Good) e
                (recover_projection json settings.limits r.recoveries reserved blocks ms
                  e.transcript.messages)
                _ s
                (λ found q. resend-valid step tools r blocks failed found e s v (λ next same.
                  recover_projection-IsRequest json settings.limits tools overhead sources doc small
                    offered counted r.recoveries ms e.transcript.messages v (q ∙ ap ok same))))

    asked-valid :
        (step : ℕ) (r : Round V) (ms : List (Message V)) (e : Execution V F)
        → Sound json settings.limits e
        → Good e.transcript
        → project json settings.limits r.transforms reserved blocks e.transcript.messages ≡ ok ms
        → OfRun
            (λ a. Good)
            ((save_now json checkpoint_bytes settings
                  (saves_before_model step e.transcript.messages tools)
                  r.before_saved
                >> (ask blocks tools ms
                    >> reply_or_recover json checkpoint_bytes settings step tools r reserved blocks
                        ms r.reply))
              e)
    asked-valid step r ms e s v q =
        saved_and_asked (λ a. Good) (saves_before_model step e.transcript.messages tools)
          r.before_saved blocks tools ms _ e s v
          (project-IsRequest json settings.limits tools overhead sources doc small offered counted
            r.transforms e.transcript.messages v q)
          (λ e1 s1 v1. reply_or_recover-valid step r ms r.reply e1 s1 v1)

  pub request_reply-valid :
      (step : ℕ) (r : Round V) (e : Execution V F)
      → Sound json settings.limits e
      → Good e.transcript
      → OfRun (λ a. Good) (request_reply json checkpoint_bytes settings step r e)
  unfolding request_reply elements_bytes
  request_reply-valid step r e s v =
      Held-now json settings.limits (λ a. Good) e _
        (Held-lift json settings.limits (λ a. Good) e
          (selected_tools settings.enable_tools r.selectors settings.available) _ s
          (λ tools q.
            Held-lift json settings.limits (λ a. Good) e (settings.limits.request_overhead tools) _
              s
              (λ overhead offered.
                Held-lift json settings.limits (λ a. Good) e
                  (collect_sources json settings.limits overhead r.supplied
                    (record { blocks = []; bytes = 0 }))
                  _ s
                  (λ sources q2.
                    Held-lift json settings.limits (λ a. Good) e
                      (project json settings.limits r.transforms
                        (saturating_add overhead sources.bytes)
                        (map (λ (b : Block V). b.1) sources.blocks) e.transcript.messages)
                      _ s
                      (λ ms q3.
                        asked-valid tools overhead sources offered
                          (collect_sources-IsCounted json settings.limits overhead doc small
                            r.supplied (record { blocks = []; bytes = 0 }) sources refl q2)
                          step r ms e s v q3)))))
