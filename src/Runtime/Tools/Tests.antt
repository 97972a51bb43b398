-- ===== src/Runtime/Tools/Tests.antt =====
-- A call that runs, one that a policy denies, and a result that is capped.
use mona_agent_core.Prelude.{
  ℕ, ◌+◌, ◌/◌, ◌%◌, ◌≤◌, ◌≡◌, refl, true, false, none, [], ◌∷◌, arith, replicate, usize_max,
  saturating_add,
}
use mona_agent_core.Prelude.Strings.{Str, str, len, len_utf8}
use mona_agent_core.Api.Content.{Content}
use mona_agent_core.Api.Error.{AgentError, ok}
use mona_agent_core.Api.Message.{ToolCall, ToolResult, ToolStatus}
use mona_agent_core.Api.Serializer.Sample.{sample_json}
use mona_agent_core.Api.ToolResults.{new_result, payload_bytes}
use mona_agent_core.Runtime.Tools.{allow, deny, Dispatch, cap_result, run_one}
use mona_agent_core.Runtime.Tools.Guards.{Cleared, run_one-Cleared}
use mona_agent_core.Runtime.Tools.Capping.{cap_result-payload}

-- A number of three digits at most is written out as its hundreds; enough for a test.
abbrev decimal : ℕ → Str
decimal n = (48 + n / 100 % 10) ∷ (48 + n / 10 % 10) ∷ (48 + n % 10) ∷ []

abbrev display : AgentError → Str
display e = e.message

abbrev call : ToolCall Unit
call = record { id = str "a"; name = str "read"; arguments = tt; provider_data = none }

abbrev allowed : Dispatch Unit
allowed = record {
  start_check = ok tt;
  start_cancelled = false;
  intent_check = ok tt;
  intent_cancelled = false;
  final_check = ok tt;
  final_cancelled = false;
  intent = ok tt;
  decisions = ok allow ∷ [];
  checkpoint = ok tt;
  execution = ok (record {
    content = Content.text (str "done");
    structured = none;
    artifact = none;
    is_error = false;
  });
  transforms = [];
  saved = ok tt;
}

runs : (run_one sample_json decimal display call 200 allowed).entered ≡ true
unfolding run_one
runs = refl

denies :
    (run_one sample_json decimal display call 200
      (record allowed { decisions = ok allow ∷ ok (deny (str "no")) ∷ [] })).entered
    ≡ false
unfolding run_one
denies = refl

run_one-Cleared_example : Cleared sample_json decimal display allowed
run_one-Cleared_example = run_one-Cleared sample_json decimal display call 200 allowed runs

abbrev large : ToolResult Unit
large = new_result sample_json (str "a") ToolStatus.success (Content.text (replicate 300 97))

short_digits : (n : ℕ) → n ≤ usize_max → len (decimal n) ≤ 20
unfolding len len_utf8
short_digits n h = ground arith

large_bytes : large.original_bytes ≤ usize_max
unfolding new_result len
large_bytes = ground arith

is_capped : (cap_result sample_json decimal large 200).0.truncated ≡ true
unfolding cap_result payload_bytes saturating_add new_result len
is_capped = refl

cap_result-payload_example :
    payload_bytes sample_json (cap_result sample_json decimal large 200).0 ≤ 200
cap_result-payload_example =
    cap_result-payload sample_json decimal large 200 short_digits large_bytes (ground arith)
