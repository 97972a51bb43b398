-- ===== src/Api/Serializer.antt =====
-- What the program takes from serde_json: the number of bytes of the compact JSON of a value, or
-- `none` where serialization fails. The crate is a parameter of the model.
pub mod Sample
use mona_agent_core.Prelude.{
  ℕ, ◌+◌, ◌≡◌, Bool, true, false, Option, none, some, List, [], ◌∷◌, if◌then◌else◌,
}
use mona_agent_core.Api.Artifact.{ArtifactRef}
use mona_agent_core.Api.Content.{ContentBlock}
use mona_agent_core.Api.Message.{Message, ToolResult, tool}

pub record Serializer (V : Type 0) : Type 0 where
  pub value_bytes : V → Option ℕ
  pub blocks_bytes : List ContentBlock → Option ℕ
  pub artifact_bytes : ArtifactRef → Option ℕ
  pub message_bytes : Message V → Option ℕ
  pub messages_bytes : List (Message V) → Option ℕ
  -- The struct `ToolMessage` of runtime/src/history.rs, `role` being "tool".
  pub tool_message_bytes : ToolResult V → Option ℕ

-- The elements of a JSON array, after `n` bytes: a separator stands before each but the first.
unfoldable pub elements_bytes : {A : Type 0} → (A → Option ℕ) → List A → Bool → ℕ → Option ℕ
elements_bytes size [] first n = some n
elements_bytes size (a ∷ as') first n = elim (size a) [
  | none ↦ none
  | some k ↦ elements_bytes size as' false (n + k + (if first then 0 else 1))
]

-- Documented of serde_json: an array is its elements in brackets, separated by commas; an internally
-- tagged enum variant is an object with the tag before the fields, as the struct `ToolMessage` is.
pub record IsJson {V : Type 0} (json : Serializer V) : Type 0 where
  pub array :
      (ms : List (Message V)) → json.messages_bytes ms ≡ elements_bytes json.message_bytes ms true 2
  pub tagged : (r : ToolResult V) → json.tool_message_bytes r ≡ json.message_bytes (tool r)
