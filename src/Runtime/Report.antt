-- ===== src/Runtime/Report.antt =====
-- packages/runtime/src/engine.rs: how a run ends, in the task that Engine::start spawns: the repair of
-- the transcript, the cleanup of the plugins, the last checkpoint and the report. `display` is the
-- Display of an error. The body of the driver does not panic here.
mod Repairs
pub mod Sound
mod Tests
use mona_agent_core.Prelude.{
  ℕ, ◌≡◌, Bool, true, false, Option, none, some, List, [], ◌∷◌, ◌++◌, if◌then◌else◌,
}
use mona_agent_core.Prelude.Strings.{Str, str, str_discrete}
use mona_agent_core.Prelude.Sets.{contains}
use mona_agent_core.Api.Error.{AgentError, Result, ok, err, ◌>>=◌, ◌>>◌}
use mona_agent_core.Api.Message.{Message, tool, ToolCall, clip_utf8}
use mona_agent_core.Api.Serializer.{Serializer}
use mona_agent_core.Api.Task.{RunStatistics}
use mona_agent_core.Api.Checkpoint.{
  RunCheckpoint, RunStatus, completed, failed, from_error, TaskUsage, CheckpointStatus,
}
use mona_agent_core.Runtime.History.{History, extend}
use mona_agent_core.Runtime.Checkpoints.{Surroundings, Written, saves_finish, save}
use mona_agent_core.Runtime.Execution.{Execution, Request}
use mona_agent_core.Runtime.Repair.{collect, lost}

-- What the environment answers after the loop: finish of the results and of the contexts, each in
-- reverse order, the answer to the last checkpoint, and task.accounting() at the end.
pub record Ending : Type 0 where
  pub finished : List (Result (Unit {0}))
  pub saved : Surroundings
  pub accounting : TaskUsage × RunStatistics

-- RunReport; its model_requests are the requests of the execution.
pub record RunReport (V : Type 0) : Type 0 where
  pub run_id : Str
  pub status : RunStatus
  pub output : Option Str
  pub error : Option AgentError
  pub transcript : List (Message V)
  pub model_requests : List (Request V)
  pub task_usage : TaskUsage
  pub statistics : RunStatistics
  pub steps : ℕ
  pub checkpoint : CheckpointStatus

-- `(status, output, error)`
pub record Verdict : Type 0 where
  pub status : RunStatus
  pub output : Option Str
  pub error : Option AgentError

module _ {V : Type 0} where
  repaired_later :
      History V
      → Result (History V)
      → (History V → History V × Result (Unit {0}))
      → History V × Result (Unit {0})
  repaired_later h (err e) rest = (h, err e)
  repaired_later h (ok g) rest = rest g

module _ {V : Type 0} (json : Serializer V) where
  -- repair_unsettled with what it leaves in `messages` when it fails
  unfoldable pub repair_calls :
      List (ToolCall V) → List Str → History V → History V × Result (Unit {0})
  unfolding repaired_later
  repair_calls [] settled h = (h, ok tt)
  repair_calls (c ∷ cs) settled h =
      let rest = repair_calls cs settled in
      if contains str_discrete c.id settled
      then rest h
      else repaired_later h (extend json h (tool (lost json c) ∷ [])) rest

  unfoldable pub repair : History V → History V × Result (Unit {0})
  unfolding repair_calls
  repair h = let found = collect h.messages in repair_calls found.0 found.1 h

-- `outcome.and_then(|output| repaired.map(|_| output))` and the match on it
unfoldable pub verdict : Result Str → Verdict
verdict (ok output) = record { status = completed; output = some output; error = none }
verdict (err e) =
    let clipped = record e { message = clip_utf8 e.message 4096 } in
    record { status = from_error clipped; output = none; error = some clipped }

-- Execution::finish_transforms: the first error.
unfoldable pub finish_transforms : List (Result (Unit {0})) → Result (Unit {0})
finish_transforms [] = ok tt
finish_transforms (ok u ∷ rs) = finish_transforms rs
finish_transforms (err e ∷ rs) = err e

-- The end without the cleanup, and with its error.
unfoldable pub cleaned : (AgentError → Str) → Result (Unit {0}) → Verdict → Verdict
cleaned display (ok u) v = v
cleaned display (err e) v = elim v.error [
  | none ↦ record { status = failed; output = none; error = some e }
  | some previous ↦ record v {
    error = some (record previous {
      message = clip_utf8 (previous.message ++ str "; resource cleanup failed: " ++ display e) 4096;
    });
  }
]

unfoldable pub is_completed : RunStatus → Bool
is_completed completed = true
is_completed _ = false

-- The last checkpoint could not be written.
unfoldable pub committed : Result (Unit {0}) → Verdict → Verdict
unfolding is_completed
committed (ok u) v = v
committed (err e) v =
    if is_completed v.status then record { status = failed; output = none; error = some e } else v

module _ {V F : Type 0} (json : Serializer V) (checkpoint_bytes : RunCheckpoint V F → Option ℕ)
    (limit : ℕ) (display : AgentError → Str) where
  -- What is decided before the last checkpoint.
  unfoldable pub decided : Result Str → Result (Unit {0}) → Ending → Verdict
  unfolding verdict cleaned finish_transforms
  decided outcome repaired env =
      cleaned display (finish_transforms env.finished)
        (verdict (outcome >>= λ output. repaired >> ok output))

  unfoldable pub last_write : Execution V F → History V → Verdict → Ending → Written V F
  last_write e transcript v env =
      save checkpoint_bytes limit e.checkpoints (saves_finish transcript.messages v.status v.error)
        env.saved

  unfoldable pub report : Execution V F → History V → Verdict → Written V F → Ending → RunReport V
  report e transcript v written env = record {
    run_id = e.checkpoints.current.run_id;
    status = v.status;
    output = v.output;
    error = v.error;
    transcript = transcript.messages;
    model_requests = e.requests;
    task_usage = env.accounting.0;
    statistics = env.accounting.1;
    steps = e.steps;
    checkpoint = written.state.status;
  }

  -- From what drive leaves to the report, and the last write.
  unfoldable pub finish_run : Execution V F × Result Str → Ending → RunReport V × Written V F
  unfolding repair decided last_write committed report
  finish_run (e, outcome) env =
      let (transcript, repaired) = repair json e.transcript in
      let v = decided outcome repaired env in
      let written = last_write e transcript v env in
      (report e transcript (committed written.result v) written env, written)
