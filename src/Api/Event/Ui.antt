-- ===== src/Api/Event/Ui.antt =====
-- packages/api/src/event.rs: the bounded projection of a tool result that clients see.
use mona_agent_core.Prelude.{
  ℕ, Bool, true, false, not, ◌&&◌, ◌||◌, Option, none, some, List, [], ◌∷◌, map, ltb, leb, ◌==◌,
  if◌then◌else◌, is_some, is_empty, all, any,
}
use mona_agent_core.Prelude.Strings.{Str, len, bytes, is_ascii_alphanumeric}
use mona_agent_core.Api.Artifact.{ArtifactRef}
use mona_agent_core.Api.Content.{Content, ContentBlock, ImageSource, preview, has_media}
use mona_agent_core.Api.Message.{ToolStatus, ToolResult, clip_utf8}
use mona_agent_core.Api.Serializer.{Serializer}
use mona_agent_core.Api.ToolResults.{byte_len}

abbrev pub ui_text_bytes : ℕ
ui_text_bytes = 65536

-- s.split_once(c)
split_once : ℕ → Str → Option (Str × Str)
split_once c [] = none
split_once c (x ∷ s) =
    let rest = split_once c s in
    if x == c
    then some ([], s)
    else elim rest [ none ↦ none | some parts ↦ some (x ∷ parts.0, parts.1) ]

scheme_byte : ℕ → Bool
scheme_byte b = is_ascii_alphanumeric b || b == b'+' || b == b'.' || b == b'-'

opaque_byte : ℕ → Bool
opaque_byte b = is_ascii_alphanumeric b || b == b'_' || b == b'.' || b == b'-'

-- ui_artifact
unfoldable pub ui_artifact : ArtifactRef → Option ArtifactRef
unfolding split_once scheme_byte opaque_byte
ui_artifact value = elim (split_once b':' value.uri) [
  | none ↦ none
  | some parts ↦
      if is_empty parts.0
        || ltb 32 (len parts.0)
        || not (all scheme_byte (bytes parts.0))
        || is_empty parts.1
        || ltb 128 (len parts.1)
        || not (all opaque_byte (bytes parts.1))
      then none
      else some value
]

pub data UiImageSource : Type 0 where
  base64 : Str → UiImageSource
  redacted : UiImageSource

pub data UiContentBlock : Type 0 where
  text : Str → UiContentBlock
  image : Str → UiImageSource → UiContentBlock
  -- media_type, name, bytes, reference
  resource : Str → Option Str → ℕ → Option ArtifactRef → UiContentBlock

pub record UiToolResult : Type 0 where
  pub call_id : Str
  pub status : ToolStatus
  pub content : Str
  pub blocks : Option (List UiContentBlock)
  pub redacted : Bool
  pub truncated : Bool
  pub original_bytes : ℕ
  pub artifact : Option ArtifactRef

-- The closure of from_result on one block: the block, and whether something of it was left out.
unfoldable ui_block : ContentBlock → UiContentBlock × Bool
unfolding ui_artifact
ui_block (ContentBlock.text t) = (UiContentBlock.text t, false)
ui_block (ContentBlock.image media (ImageSource.base64 d)) =
    (UiContentBlock.image media (UiImageSource.base64 d), false)
ui_block (ContentBlock.image media (ImageSource.url u)) =
    (UiContentBlock.image media UiImageSource.redacted, true)
ui_block (ContentBlock.resource r media name) =
    (UiContentBlock.resource media name r.bytes (ui_artifact r), not (is_some (ui_artifact r)))

unfoldable ui_blocks : {V : Type 0} → Serializer V → Content → Option (List UiContentBlock) × Bool
unfolding ui_block
ui_blocks json (Content.text t) = (none, false)
ui_blocks json (Content.blocks bs) =
    if leb (byte_len json (Content.blocks bs)) ui_text_bytes
    then (some (map (λ b. (ui_block b).0) bs), any (λ b. (ui_block b).1) bs)
    else (none, true)

-- value.and_then(f)
unfoldable and_then : {A B : Type 0} → Option A → (A → Option B) → Option B
and_then none f = none
and_then (some a) f = f a

-- UiToolResult::from_result
unfoldable pub from_result : {V : Type 0} → Serializer V → ToolResult V → UiToolResult
unfolding ui_blocks and_then ui_artifact
from_result json result =
    let shown = preview result.content in
    let blocks = ui_blocks json result.content in
    let artifact = and_then result.artifact ui_artifact in
    let redacted = blocks.1 || (is_some result.artifact && not (is_some artifact)) in
    record {
      call_id = result.call_id;
      status = result.status;
      content = clip_utf8 shown ui_text_bytes;
      blocks = blocks.0;
      redacted = redacted;
      truncated =
          result.truncated
          || ltb ui_text_bytes (len shown)
          || (has_media result.content && (not (is_some blocks.0) || redacted));
      original_bytes = result.original_bytes;
      artifact = artifact;
    }
