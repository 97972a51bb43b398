-- ===== src/Api/Serializer/Sample.antt =====
-- A serializer for the tests: it has the documented shape, and sizes that are easy to follow.
use mona_agent_core.Prelude.{ℕ, ◌+◌, ◌*◌, refl, true, Option, some, length}
use mona_agent_core.Prelude.Strings.{len}
use mona_agent_core.Api.Message.{Message, text, tool}
use mona_agent_core.Api.Serializer.{Serializer, elements_bytes, IsJson}

abbrev sample_bytes : Message Unit → Option ℕ
sample_bytes m = some (20 + len (text m))

abbrev pub sample_json : Serializer Unit
sample_json = record {
  value_bytes = λ v. some 2;
  blocks_bytes = λ bs. some (2 + 10 * length bs);
  artifact_bytes = λ a. some 30;
  message_bytes = sample_bytes;
  messages_bytes = λ ms. elements_bytes sample_bytes ms true 2;
  tool_message_bytes = λ r. sample_bytes (tool r);
}

pub sample_json-IsJson : IsJson sample_json
sample_json-IsJson = record { array = λ ms. refl; tagged = λ r. refl }
