-- ===== src/Runtime/Repair/Tests.antt =====
-- A run that stops after the model has asked for two calls, of which one was answered.
use mona_agent_core.Prelude.{ℕ, ◌≡◌, refl, none, [], ◌∷◌, map, length, checked_add}
use mona_agent_core.Prelude.Strings.{str}
use mona_agent_core.Api.Content.{Content}
use mona_agent_core.Api.Error.{Result, ok, err}
use mona_agent_core.Api.Message.{Message, user, assistant, tool, ToolCall, ToolStatus}
use mona_agent_core.Api.Serializer.Sample.{sample_json}
use mona_agent_core.Api.ToolResults.{new_result}
use mona_agent_core.Runtime.History.{History}
use mona_agent_core.Runtime.Repair.{repair_unsettled, Repaired, repair_unsettled-Repaired}

abbrev call : ℕ → ToolCall Unit
call n = record { id = n ∷ []; name = str "read"; arguments = tt; provider_data = none }

abbrev stopped : History Unit
stopped = record {
  messages =
      user (Content.text (str "go"))
      ∷ assistant [] (call 97 ∷ call 98 ∷ []) none none
      ∷ tool (new_result sample_json (97 ∷ []) ToolStatus.success (Content.text (str "ok")))
      ∷ [];
  bytes = 60;
  limit = 1000;
}

abbrev after : History Unit → Result (History Unit) → History Unit
after h (ok g) = g
after h (err e) = h

abbrev repaired : History Unit
repaired = after stopped (repair_unsettled sample_json stopped)

repairs : repair_unsettled sample_json stopped ≡ ok repaired
unfolding repair_unsettled mona_agent_core.Prelude.Sets.contains mona_agent_core.Prelude.Sets.insert
    mona_agent_core.Prelude.Strings.str_discrete new_result mona_agent_core.Runtime.History.extend
    mona_agent_core.Runtime.History.check_append checked_add mona_agent_core.Prelude.Strings.len
    mona_agent_core.Api.Message.text mona_agent_core.Api.Content.text_of str
repairs = refl

one_added : length repaired.messages ≡ 4
unfolding repair_unsettled mona_agent_core.Prelude.Sets.contains mona_agent_core.Prelude.Sets.insert
    mona_agent_core.Prelude.Strings.str_discrete new_result mona_agent_core.Runtime.History.extend
    mona_agent_core.Runtime.History.check_append checked_add mona_agent_core.Prelude.Strings.len
    mona_agent_core.Api.Message.text mona_agent_core.Api.Content.text_of str
one_added = refl

repair_unsettled-Repaired_example : Repaired sample_json stopped repaired
repair_unsettled-Repaired_example = repair_unsettled-Repaired sample_json stopped repairs
