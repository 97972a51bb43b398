-- ===== src/Application/Registry/Resends.antt =====
-- packages/application/src/service.rs: a request that is sent again later, through all of
-- start_task_with_history.
use mona_agent_core.Prelude.{◌≡◌, Bool, true, false, some}
use mona_agent_core.Prelude.Strings.{Str}
use mona_agent_core.Prelude.Maps.{Map, get}
use mona_agent_core.Api.Message.{Message}
use mona_agent_core.Application.Registry.{
  StartRequest, State, Answer, answers, StartResponse, reuse,
}

abbrev answer_of : Str → Bool → Answer StartResponse
answer_of id reused = answers (record { run_id = id; reused = reused })

-- The entry that a start which answered has left.
record Entered (request : StartRequest) (metadata : Map Str) (id : Str) (state : State)
    : Type 0 where
  pub is_open : state.closed ≡ false
  pub key : get request.request_id state.requests ≡ some id
  pub same_request : reuse request metadata id (get id state.runs) ≡ answer_of id true
