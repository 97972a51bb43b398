-- ===== src/Runtime/Engine.antt =====
-- packages/runtime/src/engine.rs: the loop that drives a run. The events that it emits are not in this
-- model.
pub mod Triples
pub mod Requests
pub mod Rounds
pub mod Drive
use mona_agent_core.Prelude.{
  ℕ, zero, suc, ◌≡◌, Bool, true, false, not, ◌&&◌, Option, none, some, List, [], ◌∷◌, ◌++◌, map,
  String, if◌then◌else◌, any, take, drop, is_empty, saturating_add,
}
use mona_agent_core.Prelude.Strings.{Str, str, str_discrete}
use mona_agent_core.Prelude.Sets.{contains}
use mona_agent_core.Api.Error.{AgentError, ErrorCode, Result, ok, err, error, refuse}
use mona_agent_core.Api.Content.{Content}
use mona_agent_core.Api.Message.{
  Message, user, assistant, tool, ToolCall, ToolResult, ToolStatus, ProviderData, ids,
}
use mona_agent_core.Api.ToolResults.{new_result}
use mona_agent_core.Api.Serializer.{Serializer}
use mona_agent_core.Api.Validation.{validate_messages}
use mona_agent_core.Api.Checkpoint.{RunCheckpoint}
use mona_agent_core.Runtime.History.{
  History, ToolBudget, check_append, extend, check_model_room, admit_reply,
}
use mona_agent_core.Runtime.Checkpoints.{
  State, Surroundings, Save, saves_before_model, saves_input, saves_after_model, saves_after_tools,
  save,
}
use mona_agent_core.Runtime.Repair.{collect}
use mona_agent_core.Runtime.Projection.{
  Block, Sources, RequestLimits, Recovery, selected_tools, collect_sources, project, with_sources,
  recover_projection,
}
use mona_agent_core.Runtime.Execution.{
  Reply, into_message, Request, Execution, Round, Settings, Run, continue, ◌>>=◌, ◌>>◌, lift,
  transcript_now, attempt, set_steps, ask, take_commands, replaced, admitted, answered, reuses_id,
  stop_error, still_running, is_window,
}

module _ {V F : Type 0} (json : Serializer V) (checkpoint_bytes : RunCheckpoint V F → Option ℕ)
    (settings : Settings) where
  unfoldable pub save_now : Save V → Surroundings → Run V F (Unit {0})
  save_now o env e =
      let w = save checkpoint_bytes settings.max_checkpoint_bytes e.checkpoints o env in
      (record e { checkpoints = w.state }, w.result)

  unfoldable pub extend_now : List (Message V) → Run V F (Unit {0})
  unfolding replaced
  extend_now messages e = replaced e (extend json e.transcript messages)

  unfoldable pub admit_now : Message V → Run V F ToolBudget
  unfolding admitted
  admit_now message e = admitted e (admit_reply json e.transcript message)

  -- The block `accepted` of apply_inputs.
  unfoldable pub accept_inputs : List (Message V) → Surroundings → Run V F (Unit {0})
  unfolding save_now extend_now
  accept_inputs additions env = do
    h ← transcript_now
    n ← lift (check_append json h additions)
    lift (validate_messages json (h.messages ++ additions))
    save_now (saves_input (h.messages ++ additions)) env
    extend_now additions

  unfoldable pub apply_commands : List Str → Surroundings → Run V F Bool
  unfolding accept_inputs
  apply_commands [] env = lift (ok false)
  apply_commands (c ∷ cs) env = do
    accept_inputs (map (λ text. user (Content.text text)) (c ∷ cs)) env
    lift (ok true)

  unfoldable pub apply_inputs : List Str → Surroundings → Run V F Bool
  unfolding apply_commands take_commands
  apply_inputs arrived env = do commands ← take_commands arrived; apply_commands commands env

  -- The request after a recovered projection.
  unfoldable pub resend :
      ℕ
      → List Str
      → Round V
      → List (Message V)
      → AgentError
      → Option (List (Message V))
      → Run V F (Reply V)
  unfolding save_now ask
  resend step tools r blocks failed none = lift (err failed)
  resend step tools r blocks failed (some messages) = do
    h ← transcript_now
    save_now (saves_before_model step h.messages tools) r.again_saved
    ask blocks tools messages
    lift r.second_reply

  unfoldable pub recover_window :
      ℕ
      → List Str
      → Round V
      → ℕ
      → List (Message V)
      → List (Message V)
      → AgentError
      → Run V F (Reply V)
  unfolding resend
  recover_window step tools r reserved blocks messages failed = do
    h ← transcript_now
    found ←
        lift
          (recover_projection json settings.limits r.recoveries reserved blocks messages h.messages)
    resend step tools r blocks failed found

  -- The recovery is for a request that exceeded the context window.
  unfoldable pub reply_or_recover :
      ℕ
      → List Str
      → Round V
      → ℕ
      → List (Message V)
      → List (Message V)
      → Result (Reply V)
      → Run V F (Reply V)
  unfolding recover_window
  reply_or_recover step tools r reserved blocks messages (ok reply) = lift (ok reply)
  reply_or_recover step tools r reserved blocks messages (err failed) =
      if is_window failed.code && not failed.model_output_started
      then recover_window step tools r reserved blocks messages failed
      else lift (err failed)

  -- From the selection of tools to the reply.
  unfoldable pub request_reply : ℕ → Round V → Run V F (Reply V)
  unfolding save_now ask reply_or_recover
  request_reply step r = do
    h ← transcript_now
    tools ← lift (selected_tools settings.enable_tools r.selectors settings.available)
    overhead ← lift (settings.limits.request_overhead tools)
    sources ← lift (
        collect_sources json settings.limits overhead r.supplied
          (record { blocks = []; bytes = 0 }))
    let blocks = map (λ (b : Block V). b.1) sources.blocks
    messages ← lift (
        project json settings.limits r.transforms (saturating_add overhead sources.bytes) blocks
          h.messages)
    save_now (saves_before_model step h.messages tools) r.before_saved
    ask blocks tools messages
    reply_or_recover step tools r (saturating_add overhead sources.bytes) blocks messages r.reply

  -- The results of a batch that is not dispatched.
  unfoldable pub close_batch : Result (Unit {0}) → String → List (ToolCall V) → Run V F (Unit {0})
  unfolding extend_now
  close_batch (ok u) notice calls = lift (ok tt)
  close_batch (err e) notice calls = do
    extend_now (
        map
          (λ (c : ToolCall V).
            tool (new_result json c.id ToolStatus.skipped (Content.text (str notice))))
          calls)
    lift (err e)

  -- The writes of a batch to the checkpoints; their failures show in its results.
  unfoldable pub write_all : List (Save V × Surroundings) → Run V F (Unit {0})
  unfolding save_now
  write_all [] = lift (ok tt)
  write_all (w ∷ ws) = do written ← attempt (save_now w.0 w.1); write_all ws

  unfoldable pub finish_batch : Round V → Run V F (Unit {0})
  unfolding write_all extend_now save_now
  finish_batch r = do
    write_all r.writes
    extend_now (map tool r.results)
    h ← transcript_now
    lift (validate_messages json h.messages)
    committed ← attempt (save_now (saves_after_tools h.messages) r.settled_saved)
    lift (stop_error r.batch_error)
    lift committed

  -- The end of a round: the answer, or none to go on.
  unfoldable pub finish_round : Round V → Str → List (ToolCall V) → Run V F (Option Str)
  unfolding apply_inputs finish_batch
  finish_round r answer [] = do
    applied ← apply_inputs r.late_arrived r.late_saved
    lift (ok (if applied then none else some answer))
  finish_round r answer (c ∷ cs) = do finish_batch r; lift (ok none)

  -- From the admitted reply to the end of the round.
  unfoldable pub after_admission : Round V → Reply V → Run V F (Option Str)
  unfolding save_now close_batch finish_round
  after_admission r reply = do
    h ← transcript_now
    saved ← attempt (save_now (saves_after_model h.messages reply.calls) r.after_saved)
    close_batch saved "checkpoint failed before dispatch" reply.calls
    close_batch (still_running r.stopped_later r.cancelled_later "run cancelled before dispatch")
        "stopped before dispatch" reply.calls
    finish_round r reply.content reply.calls

  -- From the reply to the end of the round.
  unfoldable pub settle_reply : Round V → Reply V → Run V F (Option Str)
  unfolding reuses_id admit_now after_admission
  settle_reply r reply = do
    h ← transcript_now
    lift (
        refuse (not settings.enable_tools && not (is_empty reply.calls))
          (error ErrorCode.model_protocol "model called a tool in a tools-disabled run"))
    lift (
        refuse (reuses_id h.messages reply.calls)
          (error ErrorCode.model_protocol "model reused a tool-call id; not replayed"))
    budget ← admit_now (into_message reply)
    after_admission r reply

  -- The body of the loop.
  unfoldable pub drive_round : ℕ → Round V → Run V F (Option Str)
  unfolding apply_inputs set_steps request_reply settle_reply
  drive_round step r = do
    lift (still_running r.stopped r.cancelled "run cancelled")
    applied ← apply_inputs r.arrived r.input_saved
    h ← transcript_now
    lift (check_model_room json h)
    set_steps step
    reply ← request_reply step r
    settle_reply r reply

  -- The loop over the remaining steps.
  unfoldable pub drive_from : ℕ → ℕ → (ℕ → Round V) → Run V F Str
  unfolding drive_round answered
  drive_from zero step rounds = lift (err (error ErrorCode.limit "run step limit reached"))
  drive_from (suc n) step rounds = do
    answer ← drive_round step (rounds step)
    answered answer (drive_from n (suc step) rounds)

  unfoldable pub drive : (ℕ → Round V) → Run V F Str
  unfolding drive_from
  drive = drive_from settings.max_steps 1
