-- ===== src/Api/Validation.antt =====
-- packages/api/src/validation.rs: the pairing of tool calls with their results.
mod Tests
pub mod Batches
mod Admission
mod Steps
pub mod Soundness
pub mod Completeness
use mona_agent_core.Prelude.{not, ◌||◌, Option, none, some, List, [], ◌∷◌, is_empty}
use mona_agent_core.Prelude.Strings.{Str, str_discrete}
use mona_agent_core.Prelude.Sets.{contains, insert, remove}
use mona_agent_core.Api.Error.{ErrorCode, Result, ok, error, refuse, ◌>>=◌, ◌>>◌}
use mona_agent_core.Api.Content as Contents
use mona_agent_core.Api.Message.{Message, system, user, assistant, tool, ToolCall, ProviderData}
use mona_agent_core.Api.Serializer.{Serializer}
use mona_agent_core.Api.ToolResults

-- The sets that the loop of validate_messages carries.
pub record Pairing : Type 0 where
  pub pending : List Str
  pub seen : List Str

abbrev pub start : Pairing
start = record { pending = []; seen = [] }

module _ {V : Type 0} (json : Serializer V) where
  validate_data : Option (ProviderData V) → Result (Unit {0})
  validate_data none = ok tt
  validate_data (some d) = ToolResults.validate_provider_data json d

  validate_calls : List (ToolCall V) → Result (Unit {0})
  unfolding validate_data
  validate_calls [] = ok tt
  validate_calls (c ∷ cs) = do validate_data c.provider_data; validate_calls cs

  -- The first match of the loop: the payload of one message.
  unfoldable pub validate_payload : Message V → Result (Unit {0})
  unfolding validate_data validate_calls
  validate_payload (system content) = ok tt
  validate_payload (user content) = Contents.validate content
  validate_payload (assistant content calls reasoning d) = do validate_data d; validate_calls calls
  validate_payload (tool result) = ToolResults.validate result

module _ {V : Type 0} where
  -- `for call in tool_calls`: each id is new, and waits for its result.
  unfoldable pub admit_calls : List (ToolCall V) → Pairing → Result Pairing
  admit_calls [] p = ok p
  admit_calls (c ∷ cs) p = do
    refuse (is_empty c.id || contains str_discrete c.id p.seen)
        (error ErrorCode.model_protocol "empty or repeated tool-call id")
    admit_calls cs (record {
      pending = insert str_discrete c.id p.pending;
      seen = insert str_discrete c.id p.seen;
    })

  -- The second match of the loop: the pairing of one message.
  unfoldable pub pair : Message V → Pairing → Result Pairing
  unfolding admit_calls
  pair (tool result) p = do
    refuse (not (contains str_discrete result.call_id p.pending))
        (error ErrorCode.model_protocol "orphaned or duplicated tool result")
    ok (record p { pending = remove str_discrete result.call_id p.pending })
  pair (assistant content calls reasoning d) p = do
    refuse (not (is_empty p.pending))
        (error ErrorCode.model_protocol "assistant message before tool batch settled")
    admit_calls calls p
  pair (system content) p = do
    refuse (not (is_empty p.pending))
        (error ErrorCode.model_protocol "input interleaves an unsettled tool batch")
    ok p
  pair (user content) p = do
    refuse (not (is_empty p.pending))
        (error ErrorCode.model_protocol "input interleaves an unsettled tool batch")
    ok p

module _ {V : Type 0} (json : Serializer V) where
  -- The loop over the messages.
  unfoldable pub validate_from : List (Message V) → Pairing → Result Pairing
  unfolding validate_payload pair
  validate_from [] p = ok p
  validate_from (m ∷ ms) p = do validate_payload json m; q ← pair m p; validate_from ms q

  unfoldable pub validate_messages : List (Message V) → Result (Unit {0})
  unfolding validate_from
  validate_messages ms = do
    refuse (is_empty ms) (error ErrorCode.model_protocol "empty model history")
    p ← validate_from ms start
    refuse (not (is_empty p.pending)) (error ErrorCode.model_protocol "missing tool result(s)")
