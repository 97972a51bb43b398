-- ===== src/Application/Protocol.antt =====
-- packages/application/src/protocol.rs: what a client may see of a run.
use mona_agent_core.Prelude.{
  ℕ, String, not, ◌||◌, Option, none, some, ltb, ◌==◌, if◌then◌else◌, is_empty, all,
}
use mona_agent_core.Prelude.Strings.{Str, str, len, bytes, is_ascii_alphanumeric}
use mona_agent_core.Api.Error.{AgentError, ErrorCode}
use mona_agent_core.Api.Event.{RunOutcome, RunSnapshot, EventEnvelope, RunEvent, run_finished}

pub data ApplicationErrorCode : Type 0 where
  invalid_request not_found conflict capacity closed internal : ApplicationErrorCode

pub record ApplicationError : Type 0 where
  pub code : ApplicationErrorCode
  pub message : Str

-- ApplicationError::new of a literal message
abbrev pub failure : ApplicationErrorCode → String → ApplicationError
failure code message = record { code = code; message = str message }

abbrev unsupported_capability_message : String
unsupported_capability_message = "当前模型协议或配置不支持本次请求中的能力或参数，请检查模型设置。"

-- From<AgentError> for ApplicationError
unfoldable pub from : AgentError → ApplicationError
from e = elim e.code [
  | ErrorCode.model_history_incompatible ↦
      failure invalid_request "当前会话包含原模型专属历史，不能直接使用所选模型。请新建会话；原会话未被转换，也不会自动重新执行。"
  | ErrorCode.unsupported ↦ failure invalid_request unsupported_capability_message
  | ErrorCode.limit ↦ failure capacity "runtime limit reached"
  | ErrorCode.closed ↦ failure closed "run is no longer accepting this operation"
  | ErrorCode.cancelled ↦ failure closed "run is no longer accepting this operation"
  | ErrorCode.deadline ↦ failure closed "operation deadline reached"
  | ErrorCode.schema ↦ failure invalid_request "invalid request or model protocol"
  | ErrorCode.model_protocol ↦ failure invalid_request "invalid request or model protocol"
  | _ ↦ failure internal "runtime operation failed; inspect trusted host diagnostics"
]

-- validate_key
unfoldable pub validate_key : Str → Option ApplicationError
validate_key key =
    if is_empty key
      || ltb 128 (len key)
      || not (all (λ b. is_ascii_alphanumeric b || b == b'-' || b == b'_' || b == b'.') (bytes key))
    then some (failure invalid_request "request_id must be 1..128 ASCII identifier characters")
    else none

-- The message that replaces that of a run's error.
unfoldable public_message : ErrorCode → Str
public_message code = elim code [
  | ErrorCode.unsupported ↦ str unsupported_capability_message
  | _ ↦ str "run stopped; inspect trusted host diagnostics for details"
]

-- public_outcome
unfoldable pub public_outcome : RunOutcome → RunOutcome
unfolding public_message
public_outcome outcome = record outcome {
  error = elim outcome.error [
    | none ↦ none
    | some e ↦ some (record e { message = public_message e.code })
  ];
}

module _ {V : Type 0} where
  -- public_snapshot
  unfoldable pub public_snapshot : RunSnapshot V → RunSnapshot V
  unfolding public_outcome
  public_snapshot snapshot = record snapshot {
    outcome = elim snapshot.outcome [ none ↦ none | some o ↦ some (public_outcome o) ];
  }

  -- The match of public_event on the event.
  unfoldable pub public_run_event : RunEvent V → RunEvent V
  unfolding public_outcome
  public_run_event event = elim event [
    | run_finished outcome ↦ run_finished (public_outcome outcome)
    | other ↦ other
  ]

  -- public_event
  unfoldable pub public_event : EventEnvelope V → EventEnvelope V
  unfolding public_run_event
  public_event e = record e { event = public_run_event e.event }

pub data SnapshotReason : Type 0 where
  initial cursor_expired source_resync : SnapshotReason

pub data StreamFrame (V : Type 0) : Type 0 where
  event : EventEnvelope V → StreamFrame V
  snapshot : SnapshotReason → RunSnapshot V → StreamFrame V
  fault : ApplicationError → StreamFrame V

-- StreamFrame::sequence
abbrev pub sequence : {V : Type 0} → StreamFrame V → Option ℕ
sequence (event e) = some e.seq
sequence (snapshot reason s) = some s.seq
sequence (fault error) = none
