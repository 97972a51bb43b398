-- ===== src/Application/Entries.antt =====
-- packages/application/src/service.rs: the data that an application keeps of a run, as its collector
-- changes them. The collector is the only task that writes these fields, so each operation is one
-- step; `inputs` is left out, since no operation here uses it.
use mona_agent_core.Prelude.{
  ℕ, ◌-◌, Bool, not, ◌&&◌, ◌||◌, Option, none, some, List, [], ◌∷◌, ◌++◌, ltb, leb, if◌then◌else◌,
  is_some, length, saturating_add,
}
use mona_agent_core.Prelude.Strings.{Str}
use mona_agent_core.Api.Event.{RunSnapshot, EventEnvelope}
use mona_agent_core.Api.Event.Snapshot as Snapshot
use mona_agent_core.Api.Event.Snapshot.{apply}
use mona_agent_core.Api.ToolResults.{or_max}
use mona_agent_core.Application.Protocol.{
  ApplicationError, ApplicationErrorCode, failure, public_event, public_snapshot,
}

-- The fields of ApplicationConfig that bound a journal.
pub record ApplicationConfig : Type 0 where
  pub journal_events : ℕ
  pub journal_bytes : ℕ

pub record RunData (V : Type 0) : Type 0 where
  pub snapshot : RunSnapshot V
  pub journal : List (EventEnvelope V × ℕ)
  pub journal_bytes : ℕ
  pub reset_floor : ℕ
  pub fault : Option ApplicationError
  pub completed_at : Option ℕ

module _ {V : Type 0} where
  -- The data of a run that was just started.
  unfoldable pub new : Str → RunData V
  new run_id = record {
    snapshot = Snapshot.new run_id;
    journal = [];
    journal_bytes = 0;
    reset_floor = 0;
    fault = none;
    completed_at = none;
  }

  -- Entry::terminal
  abbrev pub terminal : RunData V → Bool
  terminal data' = is_some data'.snapshot.outcome || is_some data'.fault

  -- if Self::terminal(&data) && data.completed_at.is_none() { data.completed_at = Some(now); }
  unfoldable pub mark : ℕ → RunData V → RunData V
  mark now data' =
      if terminal data' && not (is_some data'.completed_at)
      then record data' { completed_at = some now }
      else data'

  -- Entry::resync, with the snapshot of the session
  unfoldable pub resync : ℕ → RunSnapshot V → RunData V → RunData V
  unfolding mark
  resync now session data' =
      let s = public_snapshot session in
      if ltb s.seq data'.snapshot.seq
      then data'
      else mark now
          (record data' { reset_floor = s.seq; snapshot = s; journal = []; journal_bytes = 0 })

  -- The loop that pops from the front of the journal.
  unfoldable pub trim :
      ApplicationConfig → List (EventEnvelope V × ℕ) → ℕ → List (EventEnvelope V × ℕ) × ℕ
  trim config [] bytes = ([], bytes)
  trim config (e ∷ journal) bytes =
      let rest = trim config journal (bytes - e.1) in
      if ltb config.journal_events (length (e ∷ journal)) || ltb config.journal_bytes bytes
      then rest
      else (e ∷ journal, bytes)

  -- The event at the end of the journal, or an empty journal where it is too large.
  unfoldable pub record_event : ApplicationConfig → EventEnvelope V → ℕ → RunData V → RunData V
  unfolding trim
  record_event config event bytes data' =
      let kept =
        if leb bytes config.journal_bytes
        then record data' {
          journal_bytes = saturating_add data'.journal_bytes bytes;
          journal = data'.journal ++ ((event, bytes) ∷ []);
        }
        else record data' { journal = []; journal_bytes = 0; reset_floor = data'.snapshot.seq } in
      let trimmed = trim config kept.journal kept.journal_bytes in
      record kept { journal = trimmed.0; journal_bytes = trimmed.1 }

  -- Entry::accept; `session` is the snapshot that a resync would read.
  unfoldable pub accept :
      ApplicationConfig
      → (EventEnvelope V → Option ℕ)
      → ℕ
      → RunSnapshot V
      → EventEnvelope V
      → RunData V
      → RunData V
  unfolding record_event resync mark
  accept config size now session event data' =
      if leb event.seq data'.snapshot.seq
      then data'
      else elim (apply data'.snapshot (public_event event)) [
        | none ↦ resync now session data'
        | some s ↦ mark now (
            record_event config (public_event event) (or_max (size (public_event event)))
              (record data' { snapshot = s }))
      ]

  -- Entry::fault
  unfoldable pub fault : ℕ → RunData V → RunData V
  fault now data' = if is_some data'.snapshot.outcome then data' else record data' {
    fault =
        some (failure ApplicationErrorCode.internal "executor ended without a terminal snapshot");
    completed_at = some now;
  }
