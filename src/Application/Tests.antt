-- ===== src/Application/Tests.antt =====
-- A run of three events whose second one is lost to the collector.
use mona_agent_core.Prelude.{
  ℕ, ◌≡◌, refl, inl, true, false, Option, none, some, List, [], ◌∷◌, arith,
}
use mona_agent_core.Prelude.Strings.{Str, str}
use mona_agent_core.Api.Checkpoint.{RunStatus}
use mona_agent_core.Api.Event.{
  RunOutcome, RunEvent, EventEnvelope, run_started, step_started, run_finished, stream_version,
}
use mona_agent_core.Api.Event.Snapshot as Snapshot
use mona_agent_core.Application.Entries.{ApplicationConfig, RunData}
use mona_agent_core.Application.Subscriptions as Subscriptions
use mona_agent_core.Application.Subscriptions.{Subscription}
use mona_agent_core.Application.Clients.{World, Action, delivers, polls, act_all}
use mona_agent_core.Application.Histories.{state_after}
use mona_agent_core.Application.Frames.{Synced}
use mona_agent_core.Application.Positions.{EntryOk}
use mona_agent_core.Application.CatchUp.{turns, turns-current}
use mona_agent_core.Application.Following.{started, act_all-Synced}
use mona_agent_core.Application.Journals.{Bounded, act_all-Bounded}

abbrev id : Str
id = str "run"

abbrev sent : ℕ → RunEvent Unit → EventEnvelope Unit
sent n e = record { protocol_version = stream_version; run_id = id; seq = n; event = e }

abbrev outcome : RunOutcome
outcome = record {
  status = RunStatus.completed;
  output = none;
  error = none;
  task_usage = record { model_calls = 1; reported_tokens = 5; usage_complete = true };
  steps = 1;
}

abbrev log : List (EventEnvelope Unit)
log = sent 1 run_started ∷ sent 2 (step_started 1) ∷ sent 3 (run_finished outcome) ∷ []

abbrev config : ApplicationConfig
config = record { journal_events = 2; journal_bytes = 100 }

abbrev size : EventEnvelope Unit → Option ℕ
size e = some 10

-- The first event, then the third: the collector takes a snapshot.
abbrev before : List Action
before = delivers 0 100 1 ∷ delivers 2 101 3 ∷ []

abbrev sub : Subscription
sub = record { cursor = 0; initial = true; ended = false }

abbrev world : World Unit
world =
    act_all config size id log (polls ∷ polls ∷ [])
      (record (act_all config size id log before (started id)) { sub = sub; view = none })

at_the_end : world.sub.cursor ≡ 3
unfolding act_all Subscriptions.next mona_agent_core.Application.Entries.accept
    mona_agent_core.Application.Entries.new Snapshot.new Snapshot.apply
    mona_agent_core.Application.Protocol.public_event mona_agent_core.Prelude.Strings.str_discrete
    str mona_agent_core.Application.Protocol.public_snapshot
    mona_agent_core.Application.Collector.session_at state_after
at_the_end = refl

has_ended : world.sub.ended ≡ true
unfolding act_all Subscriptions.next mona_agent_core.Application.Entries.accept
    mona_agent_core.Application.Entries.new Snapshot.new Snapshot.apply
    mona_agent_core.Application.Protocol.public_event mona_agent_core.Prelude.Strings.str_discrete
    str mona_agent_core.Application.Protocol.public_snapshot
    mona_agent_core.Application.Collector.session_at state_after
has_ended = refl

act_all-Synced_example : Synced id log world.sub world.view
unfolding mona_agent_core.Runtime.Events.Applied.replay mona_agent_core.Prelude.Strings.str_discrete
    str Snapshot.new state_after Subscriptions.new mona_agent_core.Application.Following.Resumes
act_all-Synced_example =
    act_all-Synced config size id log (state_after (Snapshot.new id) log 3) refl before
      (polls ∷ polls ∷ []) none sub none refl tt

act_all-Bounded_example : Bounded config (act_all config size id log before (started id)).entry
act_all-Bounded_example = act_all-Bounded config size id log before (omega arith)

abbrev kept : RunData Unit
kept = (act_all config size id log before (started id)).entry

kept-EntryOk : EntryOk id log kept
unfolding mona_agent_core.Application.Protocol.public_snapshot act_all
    mona_agent_core.Application.Entries.accept mona_agent_core.Application.Entries.new Snapshot.new
    Snapshot.apply mona_agent_core.Application.Protocol.public_event
    mona_agent_core.Prelude.Strings.str_discrete str
    mona_agent_core.Application.Collector.session_at state_after
    mona_agent_core.Application.Positions.Follows
kept-EntryOk = record {
  position = 3;
  within = omega arith;
  current = refl;
  start = 3;
  journal = refl;
  floor = omega arith;
}

kept-seq : kept.snapshot.seq ≡ 3
unfolding mona_agent_core.Application.Protocol.public_snapshot act_all
    mona_agent_core.Application.Entries.accept mona_agent_core.Application.Entries.new Snapshot.new
    Snapshot.apply mona_agent_core.Application.Protocol.public_event
    mona_agent_core.Prelude.Strings.str_discrete str
    mona_agent_core.Application.Collector.session_at state_after
    mona_agent_core.Application.Positions.Follows
kept-seq = refl

turns-current_example : turns 4 kept sub none ≡ some kept.snapshot
unfolding mona_agent_core.Runtime.Events.Applied.replay mona_agent_core.Prelude.Strings.str_discrete
    str Snapshot.new state_after
turns-current_example =
    turns-current id log (state_after (Snapshot.new id) log 3) refl kept kept-EntryOk 4 sub none
      refl (record { same_view = inl refl }) (omega (arith, kept-seq)) (omega (arith, kept-seq))
