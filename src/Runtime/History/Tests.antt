-- ===== src/Runtime/History/Tests.antt =====
-- A concrete transcript: a reply with one call is admitted, reserved, settled and closed.
use mona_agent_core.Prelude.{
  ℕ, ◌≡◌, refl, none, List, [], ◌∷◌, map, arith, length, checked_add, checked_mul,
}
use mona_agent_core.Prelude.Strings.{str, len}
use mona_agent_core.Api.Content.{Content}
use mona_agent_core.Api.Error.{ok, err}
use mona_agent_core.Api.Message.{
  Message, system, user, assistant, tool, ToolCall, ToolResult, ToolStatus,
}
use mona_agent_core.Api.ToolResults.{new_result}
use mona_agent_core.Api.Serializer.{elements_bytes}
use mona_agent_core.Api.Serializer.Sample.{sample_json, sample_json-IsJson}
use mona_agent_core.Runtime.History.{
  History, ToolBudget, new, extend, admit_reply, result_bytes, settle, reserve, history_limit,
  driver_panic,
}
use mona_agent_core.Runtime.History.Exact.{IsExact, new-IsExact, extend-IsExact}
use mona_agent_core.Runtime.History.Budget.{
  Covers, IsBudget, Accounts, here, settles, reserves, Accounts-IsBudget,
}
use mona_agent_core.Runtime.History.Closing.{admit_reply-closes}

abbrev prompt : Message Unit
prompt = user (Content.text (str "hello"))

abbrev call : ToolCall Unit
call = record { id = str "a"; name = str "read"; arguments = tt; provider_data = none }

abbrev reply : Message Unit
reply = assistant (str "ok") (call ∷ []) none none

abbrev answer : ToolResult Unit
answer = new_result sample_json (str "a") ToolStatus.success (Content.text (str "done"))

abbrev opened : History Unit
opened = record { messages = prompt ∷ []; bytes = 27; limit = 300 }

abbrev replied : History Unit
replied = record { messages = prompt ∷ reply ∷ []; bytes = 50; limit = 300 }

abbrev budget : List ℕ → ℕ → ToolBudget
budget slots used = record { limit = 250; used = used; slots = slots }

history_opened : new sample_json (prompt ∷ []) 100 300 ≡ ok opened
unfolding new str len elements_bytes mona_agent_core.Api.Message.text
    mona_agent_core.Api.Content.text_of
history_opened = refl

opened-IsExact : IsExact sample_json opened
opened-IsExact = (new-IsExact sample_json sample_json-IsJson (prompt ∷ []) 100 300 history_opened).0

reply_admitted : admit_reply sample_json opened reply ≡ ok (replied, budget (149 ∷ []) 149)
unfolding admit_reply str len mona_agent_core.Runtime.History.check_append checked_add
    mona_agent_core.Api.Message.text mona_agent_core.Runtime.History.new_budget result_bytes
    mona_agent_core.Api.Content.text_of mona_agent_core.Runtime.History.fallback new_result
reply_admitted = refl

-- The scheduler reserves for a payload of 8 bytes, then settles the answer.
reserved : reserve sample_json (budget (149 ∷ []) 149) 0 (str "a") 8 ≡ ok (budget (133 ∷ []) 133)
unfolding reserve str len checked_mul checked_add result_bytes mona_agent_core.Api.Message.text
    mona_agent_core.Api.Content.text_of new_result
reserved = refl

settled : settle sample_json (budget (133 ∷ []) 133) 0 answer ≡ ok (budget (25 ∷ []) 25)
unfolding settle str len result_bytes checked_add mona_agent_core.Api.Message.text
    mona_agent_core.Api.Content.text_of new_result
settled = refl

steps : Accounts sample_json (budget (149 ∷ []) 149) (budget (25 ∷ []) 25)
steps = settles 0 answer (reserves 0 (str "a") 8 here reserved) settled

answer_bytes : result_bytes sample_json answer ≡ ok 25
unfolding result_bytes str len checked_add mona_agent_core.Api.Message.text
    mona_agent_core.Api.Content.text_of new_result
answer_bytes = refl

-- A write past the last slot is the panic of an index out of bounds.
settle_out_of_bounds : settle sample_json (budget (25 ∷ []) 25) 1 answer ≡ err driver_panic
unfolding settle str len result_bytes checked_add mona_agent_core.Api.Message.text
    mona_agent_core.Api.Content.text_of new_result
settle_out_of_bounds = refl

prompt_extended :
    extend sample_json opened (prompt ∷ [])
    ≡ ok (record { messages = prompt ∷ prompt ∷ []; bytes = 53; limit = 300 })
unfolding extend str len mona_agent_core.Runtime.History.check_append checked_add
    mona_agent_core.Api.Message.text mona_agent_core.Api.Content.text_of
prompt_extended = refl

extend-IsExact_example :
    let twice : History Unit = record {
      messages = prompt ∷ prompt ∷ [];
      bytes = 53;
      limit = 300;
    } in
    IsExact sample_json twice × (twice.messages ≡ prompt ∷ prompt ∷ []) × (twice.limit ≡ 300)
extend-IsExact_example =
    extend-IsExact sample_json sample_json-IsJson opened (prompt ∷ []) opened-IsExact
      prompt_extended

budget-IsBudget : IsBudget (budget (149 ∷ []) 149)
budget-IsBudget = record { counted = refl; fits = omega arith }

Accounts-IsBudget_example :
    IsBudget (budget (25 ∷ []) 25)
    × ((budget (25 ∷ []) 25).limit ≡ 250)
    × (length (budget (25 ∷ []) 25).slots ≡ 1)
Accounts-IsBudget_example = Accounts-IsBudget sample_json budget-IsBudget steps

admit_reply-closes_example :
    Covers sample_json (call ∷ []) (149 ∷ [])
    × (length (answer ∷ []) ≡ length (call ∷ []))
    × (length (answer ∷ []) ≡ length (call ∷ []))
    × (closed : History Unit) × (extend sample_json replied (map tool (answer ∷ [])) ≡ ok closed)
    × (closed.messages ≡ prompt ∷ reply ∷ tool answer ∷ [])
admit_reply-closes_example =
    admit_reply-closes sample_json opened replied _ (call ∷ []) _ _ _ _ (answer ∷ [])
      sample_json-IsJson (omega arith) opened-IsExact reply_admitted steps
      ((25, answer_bytes, omega arith), tt)
