-- ===== src/Runtime/History.antt =====
-- packages/runtime/src/history.rs: the canonical transcript with its serialized size, and the room
-- that a batch of tool calls reserves in it. A panic (an index out of bounds, a subtraction below 0)
-- is the error that the driver of the run makes of it.
mod Tests
pub mod Exact
pub mod Budget
pub mod Closing
use mona_agent_core.Prelude.{
  ℕ, ◌-◌, Bool, true, not, Option, none, some, List, [], ◌∷◌, ◌++◌, ltb, if◌then◌else◌, is_empty,
  get_elem?, set, replicate, usize_max, checked_add, checked_mul,
}
use mona_agent_core.Prelude.Strings.{Str, str}
use mona_agent_core.Api.Error.{
  AgentError, ErrorCode, Result, ok, err, error, refuse, ok_or, ◌>>=◌, ◌>>◌,
}
use mona_agent_core.Api.Content.{Content}
use mona_agent_core.Api.Message.{
  Message, system, user, assistant, tool, ToolCall, ToolResult, ToolStatus,
}
use mona_agent_core.Api.Serializer.{Serializer}
use mona_agent_core.Api.ToolResults.{new_result}

-- serialized_bytes: the measure, or its error.
abbrev pub measured : Option ℕ → Result ℕ
measured n = ok_or n (error ErrorCode.limit "cannot measure canonical history")

unfoldable pub history_limit : AgentError
history_limit =
    error ErrorCode.limit
      "run history capacity reached; confirmed history retained, no further tool dispatched"

unfoldable pub driver_panic : AgentError
driver_panic = error ErrorCode.panic "run driver panicked"

abbrev pub slot_notice_bytes : ℕ
slot_notice_bytes = 128

pub record History (V : Type 0) : Type 0 where
  pub messages : List (Message V)
  pub bytes : ℕ
  pub limit : ℕ

pub record ToolBudget : Type 0 where
  pub limit : ℕ
  pub used : ℕ
  pub slots : List ℕ

-- ToolBudget::replace
unfoldable pub replace : ToolBudget → ℕ → ℕ → Result ToolBudget
replace b index bytes = do
  old ← ok_or (get_elem? b.slots index) driver_panic
  refuse (ltb b.used old) driver_panic
  next ← ok_or (checked_add (b.used - old) bytes) history_limit
  refuse (ltb b.limit next) history_limit
  ok (record b { used = next; slots = set b.slots index bytes })

module _ {V : Type 0} where
  abbrev pub calls_of : Message V → List (ToolCall V)
  calls_of (assistant content calls reasoning d) = calls
  calls_of (system content) = []
  calls_of (user content) = []
  calls_of (tool result) = []

module _ {V : Type 0} (json : Serializer V) where
  -- History::new
  unfoldable pub new : List (Message V) → ℕ → ℕ → Result (History V)
  new messages admission limit = do
    bytes ← measured (json.messages_bytes messages)
    refuse (ltb admission bytes)
        (error ErrorCode.limit "initial history exceeds admission byte limit")
    refuse (ltb limit bytes) history_limit
    ok (record { messages = messages; bytes = bytes; limit = limit })

  -- The loop of check_append: a separator stands before each message but the first of all.
  unfoldable pub append_bytes : List (Message V) → Bool → ℕ → Result ℕ
  append_bytes [] separated next = ok next
  append_bytes (m ∷ ms) separated next = do
    size ← measured (json.message_bytes m)
    sum ← ok_or (checked_add next size) history_limit
    total ← ok_or (checked_add sum (if separated then 1 else 0)) history_limit
    append_bytes ms true total

  -- History::check_append
  unfoldable pub check_append : History V → List (Message V) → Result ℕ
  unfolding append_bytes
  check_append h messages = do
    next ← append_bytes messages (not (is_empty h.messages)) h.bytes
    refuse (ltb h.limit next) history_limit
    ok next

  -- History::extend
  unfoldable pub extend : History V → List (Message V) → Result (History V)
  extend h messages = do
    next ← check_append h messages
    ok (record h { messages = h.messages ++ messages; bytes = next })

  -- History::check_model_room
  unfoldable pub check_model_room : History V → Result (Unit {0})
  check_model_room h = do next ← check_append h (assistant [] [] none none ∷ []); ok tt

  -- result_bytes
  unfoldable pub result_bytes : ToolResult V → Result ℕ
  result_bytes result = do
    n ← measured (json.tool_message_bytes result)
    ok_or (checked_add n 1) history_limit

  -- The record that closes a call which never ran.
  unfoldable pub fallback : ToolCall V → ToolResult V
  fallback call =
      record (new_result json call.id ToolStatus.skipped
        (Content.text (replicate slot_notice_bytes b'x'))) { original_bytes = usize_max }

  -- The loop of ToolBudget::new.
  unfoldable pub reserve_slots : List (ToolCall V) → ℕ → Result (List ℕ × ℕ)
  reserve_slots [] used = ok ([], used)
  reserve_slots (c ∷ cs) used = do
    bytes ← result_bytes (fallback c)
    next ← ok_or (checked_add used bytes) history_limit
    rest ← reserve_slots cs next
    ok (bytes ∷ rest.0, rest.1)

  -- ToolBudget::new
  unfoldable pub new_budget : ℕ → List (ToolCall V) → Result ToolBudget
  unfolding reserve_slots
  new_budget limit calls = do
    reserved ← reserve_slots calls 0
    refuse (ltb limit reserved.1) history_limit
    ok (record { limit = limit; used = reserved.1; slots = reserved.0 })

  -- History::admit_reply. `limit - next` is not below 0 after check_append.
  unfoldable pub admit_reply : History V → Message V → Result (History V × ToolBudget)
  admit_reply h message = do
    next ← check_append h (message ∷ [])
    budget ← new_budget (h.limit - next) (calls_of message)
    ok (record h { messages = h.messages ++ message ∷ []; bytes = next }, budget)

  -- ToolBudget::settle
  unfoldable pub settle : ToolBudget → ℕ → ToolResult V → Result ToolBudget
  unfolding replace
  settle b index result = do bytes ← result_bytes result; replace b index bytes

  is_ok_bytes : Result ℕ → Option ℕ
  is_ok_bytes (ok n) = some n
  is_ok_bytes (err e) = none

  -- What ToolBudget::reserve sets aside for a payload.
  unfoldable pub reservation : Str → ℕ → Result ℕ
  unfolding is_ok_bytes
  reservation call_id max_payload = do
    escaped ← ok_or (checked_mul max_payload 6) history_limit
    envelope ← ok_or (checked_add escaped 64) history_limit
    base ←
        ok_or
          (is_ok_bytes
            (result_bytes (new_result json call_id ToolStatus.skipped (Content.text []))))
          history_limit
    ok_or (checked_add base envelope) history_limit

  -- ToolBudget::reserve
  unfoldable pub reserve : ToolBudget → ℕ → Str → ℕ → Result ToolBudget
  unfolding replace reservation
  reserve b index call_id max_payload = do
    bytes ← reservation call_id max_payload
    replace b index bytes

module _ {V : Type 0} where
  -- History::take
  unfoldable pub take_messages : History V → List (Message V) × History V
  take_messages h = (h.messages, record h { messages = []; bytes = 2 })
