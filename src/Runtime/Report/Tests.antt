-- ===== src/Runtime/Report/Tests.antt =====
-- A run that ends with an answer, one whose last checkpoint is refused, and one that was stopped while
-- a call was open.
use mona_agent_core.Prelude.{ℕ, ◌≡◌, refl, true, Option, none, some, List, [], ◌∷◌, length}
use mona_agent_core.Prelude.Strings.{Str, str}
use mona_agent_core.Api.Content.{Content}
use mona_agent_core.Api.Error.{AgentError, ErrorCode, Result, ok, err, error}
use mona_agent_core.Api.Message.{Message, user, assistant, ToolCall}
use mona_agent_core.Api.Serializer.Sample.{sample_json}
use mona_agent_core.Api.Task.{no_statistics}
use mona_agent_core.Api.Options.{no_options}
use mona_agent_core.Api.Checkpoint.{RunCheckpoint, completed, failed, TaskUsage}
use mona_agent_core.Runtime.Checkpoints.{new}
use mona_agent_core.Runtime.Execution.{Execution}
use mona_agent_core.Runtime.Report.{Ending, finish_run}
use mona_agent_core.Runtime.Report.Sound.{IsReported, finish_run-IsReported}

abbrev hundred : RunCheckpoint Unit Unit → Option ℕ
hundred c = some 100

abbrev display : AgentError → Str
display e = e.message

abbrev usage : TaskUsage
usage = record { model_calls = 1; reported_tokens = 7; usage_complete = true }

abbrev ended : Message Unit → Execution Unit Unit
ended last = record {
  transcript = record {
    messages = user (Content.text (str "go")) ∷ last ∷ [];
    bytes = 60;
    limit = 1000;
  };
  checkpoints = new true (str "run") no_options [] (usage, no_statistics);
  steps = 1;
  queue = [];
  requests = [];
}

abbrev answered : Execution Unit Unit
answered = ended (assistant (str "done") [] none none)

abbrev open_call : ToolCall Unit
open_call = record { id = str "a"; name = str "read"; arguments = tt; provider_data = none }

abbrev stopped : Execution Unit Unit
stopped = ended (assistant [] (open_call ∷ []) none none)

abbrev ending : Result (Unit {0}) → Ending
ending saved = record {
  finished = ok tt ∷ [];
  saved = record { accounting = (usage, no_statistics); saved = saved };
  accounting = (usage, no_statistics);
}

completes :
    (finish_run sample_json hundred 1000 display
      (answered, ok (str "done"))
      (ending (ok tt))).0.status
    ≡ completed
unfolding finish_run mona_agent_core.Runtime.Checkpoints.save
    mona_agent_core.Runtime.Checkpoints.write new mona_agent_core.Runtime.Repair.collect
completes = refl

refused_checkpoint :
    (finish_run sample_json hundred 1000 display
      (answered, ok (str "done"))
      (ending (err (error ErrorCode.checkpoint "disk full")))).0.status
    ≡ failed
unfolding finish_run mona_agent_core.Runtime.Checkpoints.save
    mona_agent_core.Runtime.Checkpoints.write new mona_agent_core.Runtime.Repair.collect
refused_checkpoint = refl

repairs_call :
    length
      (finish_run sample_json hundred 1000 display
        (stopped, err (error ErrorCode.cancelled "stopped"))
        (ending (ok tt))).0.transcript
    ≡ 3
unfolding finish_run mona_agent_core.Runtime.Repair.collect mona_agent_core.Prelude.Sets.contains
    mona_agent_core.Runtime.History.extend mona_agent_core.Runtime.History.check_append
    mona_agent_core.Prelude.checked_add mona_agent_core.Prelude.Strings.len
    mona_agent_core.Api.Message.text mona_agent_core.Api.Content.text_of
    mona_agent_core.Runtime.Repair.lost mona_agent_core.Api.ToolResults.new_result str
repairs_call = refl

finish_run-IsReported_example :
    IsReported sample_json
      (answered, ok (str "done"))
      (finish_run sample_json hundred 1000 display (answered, ok (str "done")) (ending (ok tt)))
finish_run-IsReported_example =
    finish_run-IsReported sample_json hundred 1000 display answered (ok (str "done"))
      (ending (ok tt))
