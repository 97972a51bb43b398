-- ===== src/Runtime/Checkpoints/Tests.antt =====
-- A run whose second write is rejected by the sink.
use mona_agent_core.Prelude.{
  ℕ, ◌+◌, ◌≤◌, ◌≡◌, refl, true, false, Option, none, some, List, [], ◌∷◌, map, arith, length,
  usize_max,
}
use mona_agent_core.Prelude.Strings.{str}
use mona_agent_core.Api.Error.{ok, err, error, ErrorCode, is_ok}
use mona_agent_core.Api.Task.{RunStatistics, no_statistics}
use mona_agent_core.Api.Options.{no_options}
use mona_agent_core.Api.Checkpoint.{TaskUsage, RunCheckpoint}
use mona_agent_core.Runtime.Checkpoints.{
  State, Surroundings, Save, saves_before_model, saves_input, saves_intent, new, save,
}
use mona_agent_core.Runtime.Checkpoints.Commits.{
  run, run-revisions, failed-final, run-Acknowledged, Acknowledged, count_from,
}

abbrev account : TaskUsage × RunStatistics
account = (record { model_calls = 0; reported_tokens = 0; usage_complete = true }, no_statistics)

abbrev opened : State Unit Unit
opened = new true (str "run") no_options [] account

abbrev hundred : RunCheckpoint Unit Unit → Option ℕ
hundred c = some 100

abbrev accepted : Surroundings
accepted = record { accounting = account; saved = ok tt }

abbrev rejected : Surroundings
rejected = record { accounting = account; saved = err (error ErrorCode.closed "disk full") }

abbrev writes : List (Save Unit × Surroundings)
writes =
    (saves_before_model 1 [] [], accepted)
    ∷ (saves_intent (str "a"), accepted)
    ∷ (saves_input [], rejected)
    ∷ (saves_input [], accepted)
    ∷ []

three_offered : length (run hundred 200 opened writes).0 ≡ 3
unfolding run save mona_agent_core.Runtime.Checkpoints.write new
three_offered = refl

start_revision : opened.current.revision + length writes ≤ usize_max
unfolding new
start_revision = ground arith

run-revisions_example :
    map (λ (c : RunCheckpoint Unit Unit). c.revision) (run hundred 200 opened writes).0
    ≡ count_from (opened.current.revision + 1) (length (run hundred 200 opened writes).0)
run-revisions_example = run-revisions hundred 200 opened writes start_revision

second_fails : is_ok (save hundred 200 opened (saves_input []) rejected).result ≡ false
unfolding save mona_agent_core.Runtime.Checkpoints.write new
second_fails = refl

is_configured : opened.status.configured ≡ true
unfolding new
is_configured = refl

is_clean : opened.status.error ≡ none
unfolding new
is_clean = refl

failed-final_example :
    ((run hundred 200 (save hundred 200 opened (saves_input []) rejected).state writes).0 ≡ [])
    × ((run hundred 200 (save hundred 200 opened (saves_input []) rejected).state writes).1
        ≡ (save hundred 200 opened (saves_input []) rejected).state)
failed-final_example =
    failed-final hundred 200 opened (saves_input []) rejected writes is_configured is_clean
      second_fails

starts-Acknowledged : Acknowledged hundred 200 opened
unfolding new
starts-Acknowledged = record { latest = λ clean moved configured. absurd (moved refl) }

run-Acknowledged_example : Acknowledged hundred 200 (run hundred 200 opened writes).1
run-Acknowledged_example = run-Acknowledged hundred 200 opened writes starts-Acknowledged
