-- ===== src/Runtime/Checkpoints.antt =====
-- packages/runtime/src/checkpoint.rs: the order of the commits of one run. The size of a checkpoint
-- (serde_json), the account of the task and the answer of the sink are arguments of a write.

pub mod Commits
mod Tests
use mona_agent_core.Prelude.{
  ℕ, ite, Bool, true, false, Option, none, some, List, [], ◌∷◌, ltb, if◌then◌else◌,
}
use mona_agent_core.Prelude.Maps.{insert}
use mona_agent_core.Prelude.Strings.{Str, str_discrete}
use mona_agent_core.Api.Error.{AgentError, ErrorCode, Result, ok, err, error}
use mona_agent_core.Api.Message.{Message, ToolCall, ToolResult}
use mona_agent_core.Api.Task.{RunStatistics, wrapping_add}
use mona_agent_core.Api.Options.{ModelOptions}
use mona_agent_core.Api.Checkpoint.{
  RunCheckpoint, CheckpointPhase, CheckpointStatus, CheckpointToolState, RunStatus, TaskUsage,
  checkpoint_version, before_model, input_applied, after_model, after_tools, run_finished,
  tool_intent, tool_settled, pending, intent_recorded, settled,
}

pub record State (V F : Type 0) : Type 0 where
  pub current : RunCheckpoint V F
  pub status : CheckpointStatus

-- What the environment contributes to one write: task.accounting() and the acknowledgement.
pub record Surroundings : Type 0 where
  pub accounting : TaskUsage × RunStatistics
  pub saved : Result (Unit {0})

-- What a write leaves: its result, and the snapshot that it handed to the sink.
pub record Written (V F : Type 0) : Type 0 where
  pub state : State V F
  pub result : Result (Unit {0})
  pub committed : Option (RunCheckpoint V F)

too_large : ℕ → Option ℕ → Bool
too_large limit none = true
too_large limit (some n) = ltb limit n

-- calls.iter().map(…).collect()
unfoldable pub all_pending : {V : Type 0} → List (ToolCall V) → List (Str × CheckpointToolState V)
all_pending [] = []
all_pending (c ∷ cs) = insert c.id pending (all_pending cs)

-- The writes of the engine and the tool scheduler.
pub data Save (V : Type 0) : Type 0 where
  saves_before_model : ℕ → List (Message V) → List Str → Save V
  saves_input : List (Message V) → Save V
  saves_after_model : List (Message V) → List (ToolCall V) → Save V
  saves_intent : Str → Save V
  saves_settled : ToolResult V → Save V
  saves_after_tools : List (Message V) → Save V
  saves_finish : List (Message V) → RunStatus → Option AgentError → Save V

abbrev phase_of : {V : Type 0} → Save V → CheckpointPhase
phase_of (saves_before_model step transcript tools) = before_model
phase_of (saves_input transcript) = input_applied
phase_of (saves_after_model transcript calls) = after_model
phase_of (saves_intent call_id) = tool_intent call_id
phase_of (saves_settled result) = tool_settled result.call_id
phase_of (saves_after_tools transcript) = after_tools
phase_of (saves_finish transcript status e) = run_finished

module _ {V F : Type 0} where
  -- The fields that Checkpoints::new sets by itself.
  unfoldable pub new :
      Bool → Str → ModelOptions V F → List (Str × Str) → TaskUsage × RunStatistics → State V F
  new configured run_id options metadata accounting = record {
    current = record {
      schema_version = checkpoint_version;
      run_id = run_id;
      revision = 0;
      phase = before_model;
      step = 0;
      transcript = [];
      pending_tools = [];
      selected_tools = [];
      model_options = options;
      metadata = metadata;
      task_usage = accounting.0;
      statistics = accounting.1;
      status = none;
      error = none;
    };
    status = record { configured = configured; last_acknowledged_revision = none; error = none };
  }

  -- Checkpoints::before_model, input, after_model, intent, settled, after_tools and finish.
  unfoldable pub change : Save V → RunCheckpoint V F → RunCheckpoint V F
  unfolding all_pending
  change (saves_before_model step transcript tools) c = record c {
    step = step;
    transcript = transcript;
    selected_tools = tools;
    pending_tools = [];
  }
  change (saves_input transcript) c = record c { transcript = transcript }
  change (saves_after_model transcript calls) c = record c {
    transcript = transcript;
    pending_tools = all_pending calls;
  }
  change (saves_intent call_id) c = record c {
    pending_tools = insert call_id intent_recorded c.pending_tools;
  }
  change (saves_settled result) c = record c {
    pending_tools = insert result.call_id (settled result) c.pending_tools;
  }
  change (saves_after_tools transcript) c = record c { transcript = transcript; pending_tools = [] }
  change (saves_finish transcript status e) c = record c {
    transcript = transcript;
    pending_tools = [];
    status = some status;
    error = e;
  }

  -- Checkpoints::check
  unfoldable pub check : State V F → Result (Unit {0})
  check s = elim s.status.error [ none ↦ ok tt | some e ↦ err e ]

  -- The checkpoint that a write builds.
  unfoldable pub next :
      State V F
      → CheckpointPhase
      → (RunCheckpoint V F → RunCheckpoint V F)
      → TaskUsage × RunStatistics
      → RunCheckpoint V F
  next s phase update accounting =
      let updated = update s.current in
      record updated {
        revision = wrapping_add updated.revision 1;
        phase = phase;
        task_usage = accounting.0;
        statistics = accounting.1;
      }

  -- A state that keeps the error of a failed write.
  unfoldable pub latch : State V F → RunCheckpoint V F → AgentError → State V F
  latch s c e = record { current = c; status = record s.status { error = some e } }

  acknowledge : State V F → RunCheckpoint V F → Result (Unit {0}) → Written V F
  unfolding latch
  acknowledge s c (ok u) = record {
    state = record {
      current = c;
      status = record s.status { last_acknowledged_revision = some c.revision };
    };
    result = ok tt;
    committed = some c;
  }
  acknowledge s c (err hidden) =
      let e =
        error ErrorCode.checkpoint
          "checkpoint acknowledgement failed; no automatic retry or replay" in
      record { state = latch s c e; result = err e; committed = some c }

  -- The commit of a checkpoint, unless it is too large.
  offer : State V F → RunCheckpoint V F → Bool → Result (Unit {0}) → Written V F
  unfolding acknowledge
  offer s c true saved =
      let e = error ErrorCode.checkpoint "checkpoint exceeds configured byte limit" in
      record { state = latch s c e; result = err e; committed = none }
  offer s c false saved = acknowledge s c saved

module _ {V F : Type 0} (checkpoint_bytes : RunCheckpoint V F → Option ℕ) (limit : ℕ) where
  open_write :
      State V F
      → CheckpointPhase
      → (RunCheckpoint V F → RunCheckpoint V F)
      → Surroundings
      → Option AgentError
      → Written V F
  unfolding offer next too_large
  open_write s phase update env (some e) = record { state = s; result = err e; committed = none }
  open_write s phase update env none =
      let c = next s phase update env.accounting in
      offer s c (too_large limit (checkpoint_bytes c)) env.saved

  -- Checkpoints::write
  unfoldable pub write :
      State V F
      → CheckpointPhase
      → (RunCheckpoint V F → RunCheckpoint V F)
      → Surroundings
      → Written V F
  unfolding open_write
  write s phase update env =
      if s.status.configured
      then open_write s phase update env s.status.error
      else record { state = s; result = ok tt; committed = none }

  unfoldable pub save : State V F → Save V → Surroundings → Written V F
  unfolding change
  save s o env = write s (phase_of o) (change o) env
