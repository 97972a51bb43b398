-- ===== src/Api/Artifact.antt =====
-- `ArtifactRef` of packages/api/src/message.rs: a locator that the core does not dereference.
use mona_agent_core.Prelude.{ℕ, ◌||◌, ltb, is_empty, any}
use mona_agent_core.Prelude.Strings.{Str, len, is_control}
use mona_agent_core.Api.Error.{ErrorCode, Result, error, refuse}

pub record ArtifactRef : Type 0 where
  pub uri : Str
  pub bytes : ℕ

-- ArtifactRef::validate
unfoldable pub validate : ArtifactRef → Result (Unit {0})
validate a =
    refuse (is_empty a.uri || ltb 4096 (len a.uri) || any is_control a.uri)
      (error ErrorCode.schema "invalid artifact locator")
