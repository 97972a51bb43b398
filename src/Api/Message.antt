-- ===== src/Api/Message.antt =====
-- packages/api/src/message.rs, and the structs of protocol.rs and tool.rs that messages hold.
-- `V` stands for `serde_json::Value`.
use mona_agent_core.Prelude.{
  ℕ, zero, suc, ◌-◌, min, Bool, true, false, Option, List, [], ◌∷◌, map, ltb, if◌then◌else◌,
}
use mona_agent_core.Prelude.Strings.{Str, len, len_utf8}
use mona_agent_core.Api.Artifact.{ArtifactRef}
use mona_agent_core.Api.Content.{Content, text_of}

pub record ProviderData (V : Type 0) : Type 0 where
  pub namespace : Str
  pub value : V

pub record ToolCall (V : Type 0) : Type 0 where
  pub id : Str
  pub name : Str
  pub arguments : V
  pub provider_data : Option (ProviderData V)

pub data ToolStatus : Type 0 where
  success error denied skipped unknown : ToolStatus

pub record ToolResult (V : Type 0) : Type 0 where
  pub call_id : Str
  pub status : ToolStatus
  pub content : Content
  pub structured : Option V
  pub truncated : Bool
  pub original_bytes : ℕ
  pub artifact : Option ArtifactRef

pub record ToolOutput (V : Type 0) : Type 0 where
  pub content : Content
  pub structured : Option V
  pub artifact : Option ArtifactRef
  pub is_error : Bool

pub data Message (V : Type 0) : Type 0 where
  system : Str → Message V
  user : Content → Message V
  -- content, tool_calls, reasoning_content, provider_data
  assistant : Str → List (ToolCall V) → Option Str → Option (ProviderData V) → Message V
  tool : ToolResult V → Message V

module _ {V : Type 0} where
  -- Message::text
  unfoldable pub text : Message V → Str
  text (system content) = content
  text (user content) = text_of content
  text (assistant content calls reasoning data') = content
  text (tool result) = text_of result.content

  -- The ids of the calls, in order.
  abbrev pub ids : List (ToolCall V) → List Str
  ids = map (λ c. c.id)

-- text.is_char_boundary(end)
unfoldable pub is_char_boundary : Str → ℕ → Bool
unfolding len_utf8
is_char_boundary s zero = true
is_char_boundary [] (suc n) = false
is_char_boundary (c ∷ s) (suc n) =
    if ltb (suc n) (len_utf8 c) then false else is_char_boundary s (suc n - len_utf8 c)

-- `while !text.is_char_boundary(end) { end -= 1; }`; 0 is a boundary.
unfoldable pub floor_boundary : Str → ℕ → ℕ
unfolding is_char_boundary
floor_boundary s zero = zero
floor_boundary s (suc end) =
    let lower = floor_boundary s end in if is_char_boundary s (suc end) then suc end else lower

-- &text[..end], for a boundary `end`.
unfoldable pub prefix : Str → ℕ → Str
unfolding len_utf8
prefix [] end = []
prefix (c ∷ s) end =
    let rest = prefix s (end - len_utf8 c) in if ltb end (len_utf8 c) then [] else c ∷ rest

unfoldable pub clip_utf8 : Str → ℕ → Str
unfolding floor_boundary prefix len
clip_utf8 s limit = prefix s (floor_boundary s (min (len s) limit))
