-- ===== src/Application/Clients.antt =====
-- packages/application/src: a client that follows a run through a subscription.
use mona_agent_core.Prelude.{ℕ, Option, none, some, List, [], ◌∷◌, get_elem?}
use mona_agent_core.Prelude.Strings.{Str}
use mona_agent_core.Api.Event.{RunSnapshot, EventEnvelope}
use mona_agent_core.Api.Event.Snapshot.{apply}
use mona_agent_core.Application.Protocol.{event, snapshot, fault}
use mona_agent_core.Application.Entries.{
  ApplicationConfig, RunData, accept, resync, mark, trim, record_event,
}
use mona_agent_core.Application.Entries as Entries
use mona_agent_core.Application.Subscriptions.{Subscription, Turn, returns, ends, waits, next}
use mona_agent_core.Application.Collector.{session_at}

-- What a client makes of a turn: a snapshot replaces what it has, an event is applied to it.
unfoldable pub follow : {V : Type 0} → Turn V → Option (RunSnapshot V) → Option (RunSnapshot V)
follow (returns (snapshot why s)) view = some s
follow (returns (event e)) view = elim view [ none ↦ none | some v ↦ apply v e ]
follow (returns (fault error)) view = view
follow ends view = view
follow waits view = view

-- The application's data of a run, a subscription to it, and what its client has.
pub record World (V : Type 0) : Type 0 where
  pub entry : RunData V
  pub sub : Subscription
  pub view : Option (RunSnapshot V)

-- What happens, in any order: the collector receives the event of a position of the log, at a time and
-- while the session has got to some position, or it is told that it lagged, or that the executor
-- ended; the client takes a turn.
pub data Action : Type 0 where
  delivers : ℕ → ℕ → ℕ → Action
  lags ends_run : ℕ → ℕ → Action
  polls : Action

module _ {V : Type 0} (config : ApplicationConfig) (size : EventEnvelope V → Option ℕ)
    (run_id : Str) (log : List (EventEnvelope V)) where
  unfoldable pub receive : ℕ → ℕ → Option (EventEnvelope V) → RunData V → RunData V
  receive now k none data' = data'
  receive now k (some e) data' = accept config size now (session_at run_id log k) e data'

  unfoldable pub act : Action → World V → World V
  unfolding receive
  act (delivers n now k) w = record w { entry = receive now k (get_elem? log n) w.entry }
  act (lags now k) w = record w { entry = resync now (session_at run_id log k) w.entry }
  act (ends_run now k) w = record w {
    entry = Entries.fault now (resync now (session_at run_id log k) w.entry);
  }
  act polls w = record w {
    sub = (next w.sub w.entry).0;
    view = follow (next w.sub w.entry).1 w.view;
  }

  unfoldable pub act_all : List Action → World V → World V
  unfolding act
  act_all [] w = w
  act_all (a ∷ as') w = act_all as' (act a w)
