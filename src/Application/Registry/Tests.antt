-- ===== src/Application/Registry/Tests.antt =====
-- A registry with room for one run: a repeated request, one for another prompt, and one too many.
use mona_agent_core.Prelude.{
  ℕ, ◌≡◌, refl, ◌≢◌, ◌⊎◌, inr, Bool, true, false, none, some, List, [], ◌∷◌,
}
use mona_agent_core.Prelude.Strings.{Str, str}
use mona_agent_core.Prelude.Maps.{get}
use mona_agent_core.Api.Error.{AgentError}
use mona_agent_core.Application.Registry.{
  StartRequest, State, RegistryConfig, Answer, answers, refuses, panics, RunRequest, empty,
  start_task_with_history, prune, Registered,
}
use mona_agent_core.Application.Registry.Consistency.{Consistent}
use mona_agent_core.Application.Registry.Calls.{
  Call, starts, settles, calls, calls-Consistent, start-answers,
}

abbrev config : RegistryConfig
config = record {
  max_retained_runs = 1;
  completed_ttl = 600;
  max_prompt_bytes = 100;
  system_prompt = some (str "be brief");
}

-- Each start gets its own id.
abbrev runtime : Str → RunRequest Unit → AgentError ⊎ Str
runtime id run = inr id

abbrev first : StartRequest
first = record { request_id = str "a"; prompt = str "go" }

abbrev second : StartRequest
second = record { request_id = str "b"; prompt = str "go" }

abbrev one_run : List (Call Unit)
one_run = starts (runtime (str "run")) true 0 first [] [] ∷ settles (str "run") 10 ∷ []

abbrev answer : ℕ → StartRequest → Answer Bool
answer now request =
    elim (start_task_with_history config (runtime (str "next")) true now request [] []
      (calls config one_run empty)).1 [
        | answers r ↦ answers r.reused
        | refuses e ↦ refuses e
        | panics ↦ panics
      ]

is_repeated : answer 20 first ≡ answers true
unfolding start_task_with_history mona_agent_core.Application.Protocol.validate_key str
    mona_agent_core.Prelude.Strings.len mona_agent_core.Prelude.Strings.bytes
    mona_agent_core.Prelude.Strings.is_ascii_alphanumeric mona_agent_core.Application.Registry.prune
    calls mona_agent_core.Application.Registry.settle mona_agent_core.Prelude.Maps.get
    mona_agent_core.Prelude.Maps.insert mona_agent_core.Prelude.Strings.str_discrete
is_repeated = refl

after_its_time : answer 610 second ≡ answers false
unfolding start_task_with_history mona_agent_core.Application.Protocol.validate_key str
    mona_agent_core.Prelude.Strings.len mona_agent_core.Prelude.Strings.bytes
    mona_agent_core.Prelude.Strings.is_ascii_alphanumeric mona_agent_core.Application.Registry.prune
    calls mona_agent_core.Application.Registry.settle mona_agent_core.Prelude.Maps.get
    mona_agent_core.Prelude.Maps.insert mona_agent_core.Prelude.Strings.str_discrete
    mona_agent_core.Prelude.Maps.remove
after_its_time = refl

calls-Consistent_example : Consistent (calls config one_run empty)
calls-Consistent_example = calls-Consistent config one_run

start-answers_example :
    (start_task_with_history config
      (runtime (str "next"))
      true
      20
      first
      []
      []
      (calls config one_run empty)).1
    ≢ panics
start-answers_example = start-answers config one_run (runtime (str "next")) true 20 first [] []

abbrev after_first : State
after_first = record {
  closed = false;
  runs =
      (
        str "run",
        record { request = first; context_identity = []; completed_at = none; terminal = false },
      )
      ∷ [];
  requests = (str "a", str "run") ∷ [];
}
