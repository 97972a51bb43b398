-- ===== src/Runtime/Batch/Tests.antt =====
-- A reading tool and a writing tool, of which the host authorizes neither effect.
use mona_agent_core.Prelude.{ℕ, ◌≡◌, refl, Bool, true, false, none, List, [], ◌∷◌, length, All}
use mona_agent_core.Prelude.Strings.{Str, str_discrete}
use mona_agent_core.Api.Error.{ok}
use mona_agent_core.Api.Message.{ToolCall}
use mona_agent_core.Api.Serializer.Sample.{sample_json}
use mona_agent_core.Runtime.Batch.{
  CompiledTool, ToolConcurrency, parallel, exclusive, Moment, Ready, passes, preflight, group_from,
}
use mona_agent_core.Runtime.Batch.Groups.{join, IsGroup, group_from-IsGroup}
use mona_agent_core.Runtime.Batch.Authority.{IsAuthorized, preflight-IsAuthorized}

abbrev named : Str → ToolConcurrency → Bool → CompiledTool Unit
named name concurrency side_effects = record {
  name = name;
  concurrency = concurrency;
  side_effects = side_effects;
  schema_errors = λ v. none;
}

abbrev read : CompiledTool Unit
read = named (114 ∷ []) parallel false

abbrev edit : CompiledTool Unit
edit = named (119 ∷ []) exclusive true

abbrev registry : List (Str × CompiledTool Unit)
registry = ((114 ∷ []), read) ∷ ((119 ∷ []), edit) ∷ []

abbrev calm : Moment
calm = record { task_check = ok tt; checkpoint_check = ok tt; is_cancelled = false }

abbrev call_of : ℕ → ToolCall Unit
call_of n = record { id = n ∷ []; name = n ∷ []; arguments = tt; provider_data = none }

abbrev reads : Ready Unit
reads = record { call = call_of 114; tool = read }

abbrev edits : Ready Unit
edits = record { call = call_of 119; tool = edit }

read_passes :
    preflight sample_json registry [] ((114 ∷ []) ∷ []) calm (call_of 114) ≡ ok (passes reads)
unfolding preflight mona_agent_core.Prelude.Sets.contains str_discrete
read_passes = refl

preflight-IsAuthorized_example :
    IsAuthorized sample_json registry [] ((114 ∷ []) ∷ []) calm (call_of 114) reads
preflight-IsAuthorized_example =
    preflight-IsAuthorized sample_json registry [] ((114 ∷ []) ∷ []) calm (call_of 114) reads
      read_passes

three_groups : length (group_from [] (reads ∷ reads ∷ edits ∷ reads ∷ [])) ≡ 3
unfolding group_from
three_groups = refl

group_from-IsGroup_example :
    (join (group_from [] (reads ∷ edits ∷ reads ∷ [])) ≡ reads ∷ edits ∷ reads ∷ [])
    × All IsGroup (group_from [] (reads ∷ edits ∷ reads ∷ []))
group_from-IsGroup_example = group_from-IsGroup [] (reads ∷ edits ∷ reads ∷ []) tt
