-- ===== src/Runtime/Report/Sound.antt =====
-- packages/runtime/src/engine.rs: what a report says is what the run did.
use mathlib.Core.Bool.{true≢false}
use mona_agent_core.Prelude.{
  ℕ, ◌≡◌, refl, sym, ap, ◌∙◌, ◌⊎◌, inl, inr, Bool, true, false, Option, none, some, is_some, List,
  ◌++◌, if◌then◌else◌,
}
use mona_agent_core.Prelude.Strings.{Str, str}
use mona_agent_core.Api.Error.{AgentError, ErrorCode, Result, ok, err, ◌>>=◌, ◌>>◌}
use mona_agent_core.Api.Message.{Message, clip_utf8}
use mona_agent_core.Api.Serializer.{Serializer}
use mona_agent_core.Api.Checkpoint.{
  RunCheckpoint, RunStatus, completed, failed, timed_out, limited, from_error,
}
use mona_agent_core.Runtime.History.{History}
use mona_agent_core.Runtime.Checkpoints.{Written, saves_finish, next, change}
use mona_agent_core.Runtime.Checkpoints.Commits.{save-Acked}
use mona_agent_core.Runtime.Execution.{Execution}
use mona_agent_core.Runtime.Repair.{collect, settle_calls-Repaired, Repaired}
use mona_agent_core.Runtime.Report.Repairs.{
  Continued, repair_calls-Continued, repair_calls-settle_calls,
}
use mona_agent_core.Runtime.Report.{
  Ending, RunReport, Verdict, repair_calls, repair, verdict, finish_transforms, cleaned,
  is_completed, committed, decided, last_write, report, finish_run,
}

-- The checkpoint of a completed run that the sink has acknowledged.
pub record Committed {V F : Type 0} (r : RunReport V) (w : Written V F) : Type 0 where
  pub checkpoint : RunCheckpoint V F
  pub sent : w.committed ≡ some checkpoint
  pub acknowledged : r.checkpoint.last_acknowledged_revision ≡ some checkpoint.revision
  pub same_transcript : checkpoint.transcript ≡ r.transcript
  pub finished : checkpoint.status ≡ some completed

-- Each call of the transcript has a result, before or among those that the repair appended.
pub record Whole {V : Type 0} (json : Serializer V) (h : History V) (after : List (Message V))
    : Type 0 where
  pub last : History V
  pub is_last : after ≡ last.messages
  pub repaired : Repaired json h last

pub record Completed {V F : Type 0} (json : Serializer V) (x : Execution V F × Result Str)
    (r : RunReport V) (w : Written V F) : Type 0 where
  pub answer : Str
  pub answered : x.1 ≡ ok answer
  pub output : r.output ≡ some answer
  pub status : r.status ≡ completed
  pub without_error : r.error ≡ none
  pub whole : Whole json x.0.transcript r.transcript
  pub durable : (x.0.checkpoints.status.configured ≡ false) ⊎ Committed r w

pub record Failed {V : Type 0} (r : RunReport V) : Type 0 where
  pub unfinished : is_completed r.status ≡ false
  pub without_output : r.output ≡ none
  pub with_error : is_some r.error ≡ true

pub record IsReported {V F : Type 0} (json : Serializer V) (x : Execution V F × Result Str)
    (y : RunReport V × Written V F) : Type 0 where
  pub transcript : Continued x.0.transcript.messages y.0.transcript
  pub ending : Completed json x y.0 y.1 ⊎ Failed y.0

-- A verdict is settled: it completes with an output, or has an error.
abbrev Settled : Result Str → Result (Unit {0}) → Verdict → Type 0
Settled outcome repaired v =
    ((a : Str) × (outcome ≡ ok a)
      × (v.output ≡ some a)
      × (v.status ≡ completed)
      × (v.error ≡ none)
      × (repaired ≡ ok tt))
    ⊎ ((is_completed v.status ≡ false) × (v.output ≡ none) × (is_some v.error ≡ true))

from_error-unfinished : (e : AgentError) → is_completed (from_error e) ≡ false
unfolding from_error is_completed
from_error-unfinished e = by_code e.code
  where
    by_code :
        (c : ErrorCode)
        → is_completed (elim c [
          | ErrorCode.cancelled ↦ RunStatus.cancelled
          | ErrorCode.deadline ↦ timed_out
          | ErrorCode.limit ↦ limited
          | _ ↦ failed
        ])
          ≡ false
    by_code ErrorCode.cancelled = refl
    by_code ErrorCode.deadline = refl
    by_code ErrorCode.limit = refl
    by_code _ = refl

verdict-Settled :
    (outcome : Result Str) (repaired : Result (Unit {0}))
    → Settled outcome repaired (verdict (outcome >>= λ output. repaired >> ok output))
unfolding verdict
verdict-Settled (err e) repaired = inr (from_error-unfinished _, refl, refl)
verdict-Settled (ok a) (err e) = inr (from_error-unfinished _, refl, refl)
verdict-Settled (ok a) (ok u) = inl (a, refl, refl, refl, refl, refl)

cleaned-Settled :
    (display : AgentError → Str) (outcome : Result Str) (repaired r : Result (Unit {0}))
    (v : Verdict)
    → Settled outcome repaired v
    → Settled outcome repaired (cleaned display r v)
unfolding cleaned is_completed
cleaned-Settled display outcome repaired (ok u) v s = s
cleaned-Settled display outcome repaired (err e) v s = by_error v.error refl s
  where
    by_error :
        (o : Option AgentError)
        → v.error ≡ o
        → Settled outcome repaired v
        → Settled outcome repaired (elim o [
          | none ↦ record { status = failed; output = none; error = some e }
          | some previous ↦ record v {
            error = some (record previous {
              message =
                  clip_utf8
                    (previous.message ++ str "; resource cleanup failed: " ++ display e)
                    4096;
            });
          }
        ])
    by_error none q s = inr (refl, refl, refl)
    by_error (some p) q (inl c) = absurd cc
    by_error (some p) q (inr f) = inr (f.0, f.1, refl)

module _ {V F : Type 0} (json : Serializer V) (checkpoint_bytes : RunCheckpoint V F → Option ℕ)
    (limit : ℕ) (display : AgentError → Str) where
  decided-Settled :
      (outcome : Result Str) (repaired : Result (Unit {0})) (env : Ending)
      → Settled outcome repaired (decided json checkpoint_bytes limit display outcome repaired env)
  unfolding decided
  decided-Settled outcome repaired env =
      cleaned-Settled display outcome repaired (finish_transforms env.finished) _
        (verdict-Settled outcome repaired)

  module _ (e : Execution V F) (outcome : Result Str) (h : History V) (repaired : Result (Unit {0}))
      (made : repair json e.transcript ≡ (h, repaired)) (v : Verdict) (env : Ending) where
    abbrev last : Written V F
    last = last_write json checkpoint_bytes limit display e h v env

    abbrev told : Verdict → RunReport V
    told x = report json checkpoint_bytes limit display e h x last env

    durable_report :
        (v.status ≡ completed)
        → last.result ≡ ok tt
        → (e.checkpoints.status.configured ≡ false) ⊎ Committed (told v) last
    unfolding last_write report next change
    durable_report c q =
        elim (save-Acked checkpoint_bytes limit e.checkpoints
          (saves_finish h.messages v.status v.error) env.saved q) [
            | inl off ↦ inl off
            | inr a ↦ inr (record {
              checkpoint = _;
              sent = a.sent;
              acknowledged = a.acknowledged;
              same_transcript = refl;
              finished = ap some c;
            })
          ]

    repair-Whole : repaired ≡ ok tt → Whole json e.transcript h.messages
    unfolding repair
    repair-Whole k =
        let found = collect e.transcript.messages in
        let left = repair_calls json found.0 found.1 e.transcript in
        record {
          last = h;
          is_last = refl;
          repaired = settle_calls-Repaired json e.transcript (
              repair_calls-settle_calls json found.0 found.1 e.transcript (ap (λ z. z.1) made ∙ k)
              ∙ ap (λ z. ok z.0) made);
        }

    ending :
        (r : Result (Unit {0}))
        → last.result ≡ r
        → Settled outcome repaired v
        → Completed json (e, outcome) (told (committed r v)) last ⊎ Failed (told (committed r v))
    unfolding committed report is_completed
    ending (ok u) q (inl (a, o, p, c, n, k)) = inl (record {
      answer = a;
      answered = o;
      output = p;
      status = c;
      without_error = n;
      whole = repair-Whole k;
      durable = durable_report c q;
    })
    ending (ok u) q (inr f) =
        inr (record { unfinished = f.0; without_output = f.1; with_error = f.2 })
    ending (err x) q s = by_status (is_completed v.status) refl s
      where
        by_status :
            (b : Bool)
            → is_completed v.status ≡ b
            → Settled outcome repaired v
            → Completed json
                (e, outcome)
                (told (if b then record { status = failed; output = none; error = some x } else v))
                last
              ⊎ Failed (
                  told (if b then record { status = failed; output = none; error = some x } else v))
        by_status true k s =
            inr (record { unfinished = refl; without_output = refl; with_error = refl })
        by_status false k (inl c) = absurd (true≢false (sym (ap is_completed c.3) ∙ k))
        by_status false k (inr f) =
            inr (record { unfinished = f.0; without_output = f.1; with_error = f.2 })

  -- A run reports that it is completed, with the answer of the loop and without an error, or that it is
  -- not, with an error and without an output. If it is completed, a configured sink has acknowledged a
  -- last checkpoint with that status and the reported transcript, and each call of the transcript has a
  -- result. The reported transcript is the one of the loop, followed by results of unknown outcome.
  pub finish_run-IsReported :
      (e : Execution V F) (outcome : Result Str) (env : Ending)
      → IsReported json
          (e, outcome)
          (finish_run json checkpoint_bytes limit display (e, outcome) env)
  unfolding finish_run repair report
  finish_run-IsReported e outcome env =
      let found = collect e.transcript.messages in
      let (h, repaired) = repair_calls json found.0 found.1 e.transcript in
      record {
        transcript = repair_calls-Continued json found.0 found.1 e.transcript;
        ending =
            ending e outcome h repaired refl _ env _ refl (decided-Settled outcome repaired env);
      }
