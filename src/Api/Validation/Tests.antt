-- ===== src/Api/Validation/Tests.antt =====
-- Concrete histories for the pairing of tool calls.
use mona_agent_core.Prelude.{◌≡◌, refl, ◌↔◌, none, List, [], ◌∷◌}
use mona_agent_core.Prelude.Strings.{Str, str, str_discrete}
use mona_agent_core.Api.Content.{Content}
use mona_agent_core.Api.Error.{ok, err, error, ErrorCode}
use mona_agent_core.Api.Message.{Message, user, assistant, tool, ToolCall, ToolStatus}
use mona_agent_core.Api.ToolResults.{new_result}
use mona_agent_core.Api.Serializer.Sample.{sample_json}
use mona_agent_core.Api.Validation.{validate_messages}
use mona_agent_core.Api.Validation.Batches.{IsWellPaired}
use mona_agent_core.Api.Validation.Completeness.{validate_messages_iff}

abbrev call : Str → ToolCall Unit
call i = record { id = i; name = str "read"; arguments = tt; provider_data = none }

abbrev answer : Str → Message Unit
answer i = tool (new_result sample_json i ToolStatus.success (Content.text (str "ok")))

abbrev two_calls : Message Unit
two_calls = assistant [] (call (str "a") ∷ call (str "b") ∷ []) none none

-- The results come in the other order.
abbrev settled : List (Message Unit)
settled = user (Content.text (str "go")) ∷ two_calls ∷ answer (str "b") ∷ answer (str "a") ∷ []

accepts_settled : validate_messages sample_json settled ≡ ok tt
unfolding validate_messages str str_discrete new_result mona_agent_core.Api.Content.validate
    mona_agent_core.Prelude.Sets.contains mona_agent_core.Prelude.Sets.insert
    mona_agent_core.Api.ToolResults.validate mona_agent_core.Prelude.Sets.remove
accepts_settled = refl

refuses_orphan :
    validate_messages sample_json (answer (str "a") ∷ [])
    ≡ err (error ErrorCode.model_protocol "orphaned or duplicated tool result")
unfolding validate_messages str str_discrete new_result mona_agent_core.Api.ToolResults.validate
    mona_agent_core.Api.Content.validate mona_agent_core.Prelude.Sets.contains
refuses_orphan = refl

refuses_missing :
    validate_messages sample_json (two_calls ∷ answer (str "b") ∷ [])
    ≡ err (error ErrorCode.model_protocol "missing tool result(s)")
unfolding validate_messages str str_discrete new_result mona_agent_core.Prelude.Sets.contains
    mona_agent_core.Prelude.Sets.insert mona_agent_core.Api.ToolResults.validate
    mona_agent_core.Api.Content.validate mona_agent_core.Prelude.Sets.remove
refuses_missing = refl

validate_messages_iff_example :
    (validate_messages sample_json settled ≡ ok tt) ↔ IsWellPaired sample_json settled
validate_messages_iff_example = validate_messages_iff sample_json settled
