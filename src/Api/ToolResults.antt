-- ===== src/Api/ToolResults.antt =====
-- The methods of `ToolResult` and `ProviderData` (packages/api/src/message.rs, protocol.rs).
use mona_agent_core.Prelude.{
  ℕ, false, not, ◌||◌, Option, none, some, ltb, ◌==◌, if◌then◌else◌, is_empty, all, usize_max,
  saturating_add,
}
use mona_agent_core.Prelude.Strings.{Str, len, bytes, is_ascii_alphanumeric}
use mona_agent_core.Api.Error.{ErrorCode, Result, ok, error, refuse, ◌>>◌}
use mona_agent_core.Api.Artifact
use mona_agent_core.Api.Artifact.{ArtifactRef}
use mona_agent_core.Api.Content as Contents
use mona_agent_core.Api.Content.{Content, ContentBlock, blocks}
use mona_agent_core.Api.Message.{ToolStatus, ToolResult, ToolOutput, ProviderData}
use mona_agent_core.Api.Serializer.{Serializer}

abbrev pub max_provider_data_bytes : ℕ
max_provider_data_bytes = 65536

-- to_vec(v).map_or(usize::MAX, |s| s.len())
abbrev pub or_max : Option ℕ → ℕ
or_max none = usize_max
or_max (some n) = n

module _ {V : Type 0} (json : Serializer V) where
  -- Content::byte_len
  unfoldable pub byte_len : Content → ℕ
  byte_len (Content.text t) = len t
  byte_len (blocks bs) = or_max (json.blocks_bytes bs)

  -- ToolResult::new
  unfoldable pub new_result : Str → ToolStatus → Content → ToolResult V
  unfolding byte_len
  new_result call_id status content = record {
    call_id = call_id;
    status = status;
    content = content;
    structured = none;
    truncated = false;
    original_bytes = byte_len content;
    artifact = none;
  }

  structured_bytes : Option V → ℕ
  structured_bytes none = 0
  structured_bytes (some v) = or_max (json.value_bytes v)

  artifact_ref_bytes : Option ArtifactRef → ℕ
  artifact_ref_bytes none = 0
  artifact_ref_bytes (some a) = or_max (json.artifact_bytes a)

  -- ToolResult::payload_bytes
  unfoldable pub payload_bytes : ToolResult V → ℕ
  unfolding byte_len structured_bytes artifact_ref_bytes
  payload_bytes r =
      saturating_add (saturating_add (byte_len r.content) (structured_bytes r.structured))
        (artifact_ref_bytes r.artifact)

  -- ToolResult::from_output
  unfoldable pub from_output : Str → ToolOutput V → ToolResult V
  unfolding new_result payload_bytes
  from_output call_id output =
      let status = if output.is_error then ToolStatus.error else ToolStatus.success in
      let result = record (new_result call_id status output.content) {
        structured = output.structured;
        artifact = output.artifact;
      } in
      record result { original_bytes = payload_bytes result }

  -- ProviderData::validate
  unfoldable pub validate_provider_data : ProviderData V → Result (Unit {0})
  validate_provider_data d = do
    refuse
        (is_empty d.namespace
          || ltb 128 (len d.namespace)
          || not (
              all (λ b. is_ascii_alphanumeric b || b == b'.' || b == b'_' || b == b'-')
                (bytes d.namespace)))
        (error ErrorCode.schema "invalid provider-data namespace")
    refuse (ltb max_provider_data_bytes (or_max (json.value_bytes d.value)))
        (error ErrorCode.limit "provider data exceeds its byte limit")

validate_artifact : Option ArtifactRef → Result (Unit {0})
validate_artifact none = ok tt
validate_artifact (some a) = Artifact.validate a

-- ToolResult::validate
unfoldable pub validate : {V : Type 0} → ToolResult V → Result (Unit {0})
unfolding validate_artifact
validate r = do Contents.validate r.content; validate_artifact r.artifact
