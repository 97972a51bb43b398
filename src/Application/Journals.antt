-- ===== src/Application/Journals.antt =====
-- packages/application/src/service.rs: the bounds of a journal.
use mona_agent_core.Prelude.{
  ℕ, ◌+◌, ◌-◌, ◌*◌, ◌≤◌, ◌≡◌, refl, sym, ◌∙◌, inl, inr, Bool, true, false, not, ◌&&◌, ◌||◌, Option,
  none, some, List, [], ◌∷◌, ◌++◌, arith, ltb, leb, if◌then◌else◌, is_some, Bool-cases, leb→le,
  length, get_elem?, usize_max, saturating_add,
}
use mona_agent_core.Prelude.Strings.{Str}
use mona_agent_core.Api.Event.{RunSnapshot, EventEnvelope}
use mona_agent_core.Api.Event.Snapshot.{apply}
use mona_agent_core.Api.ToolResults.{or_max}
use mona_agent_core.Application.Protocol.{public_event, public_snapshot}
use mona_agent_core.Application.Entries.{
  ApplicationConfig, RunData, accept, resync, mark, trim, record_event, fault, terminal,
}
use mona_agent_core.Application.Entries as Entries
use mona_agent_core.Application.Clients.{
  World, Action, delivers, lags, ends_run, polls, receive, act, act_all,
}
use mona_agent_core.Application.Collector.{session_at}
use mona_agent_core.Application.Following.{started}

-- The bytes of the events of a journal.
unfoldable pub total : {V : Type 0} → List (EventEnvelope V × ℕ) → ℕ
total [] = 0
total (e ∷ journal) = e.1 + total journal

total-snoc :
    {V : Type 0} (js : List (EventEnvelope V × ℕ)) (e : EventEnvelope V) (bytes : ℕ)
    → total (js ++ ((e, bytes) ∷ [])) ≡ total js + bytes
unfolding total
total-snoc [] e bytes = omega arith
total-snoc (j ∷ js) e bytes = omega (arith, total-snoc js e bytes)

module _ {V : Type 0} (config : ApplicationConfig) where
  -- A journal within its configuration, and the count of its bytes.
  pub record Bounded (data' : RunData V) : Type 0 where
    pub events : length data'.journal ≤ config.journal_events
    pub counted : data'.journal_bytes ≡ total data'.journal
    pub bytes : data'.journal_bytes ≤ config.journal_bytes

  trim-Bounded :
      (js : List (EventEnvelope V × ℕ)) (bytes : ℕ)
      → bytes ≡ total js
      → (length (trim config js bytes).0 ≤ config.journal_events)
        × ((trim config js bytes).1 ≡ total (trim config js bytes).0)
        × ((trim config js bytes).1 ≤ config.journal_bytes)
  unfolding trim total
  trim-Bounded [] bytes h = (omega arith, h, omega (arith, h))
  trim-Bounded (j ∷ js) bytes h =
      elim (Bool-cases
        (ltb config.journal_events (length (j ∷ js)) || ltb config.journal_bytes bytes)) [
          | inl e ↦ rw e (trim-Bounded js (bytes - j.1) (omega (arith, h)))
          | inr e ↦ rw e (ground (arith, e), h, ground (arith, e))
        ]

  mark-Bounded : (now : ℕ) (data' : RunData V) → Bounded data' → Bounded (mark now data')
  unfolding mark
  mark-Bounded now data' ok = from (terminal data' && not (is_some data'.completed_at))
    where
      from : (b : Bool) → Bounded (if b then record data' { completed_at = some now } else data')
      from true = record { events = ok.events; counted = ok.counted; bytes = ok.bytes }
      from false = ok

  record_event-Bounded :
      config.journal_bytes * 2 ≤ usize_max
      → (e : EventEnvelope V) (bytes : ℕ) (data' : RunData V) → Bounded data'
      → Bounded (record_event config e bytes data')
  unfolding record_event total saturating_add
  record_event-Bounded small e bytes data' ok = elim (Bool-cases (leb bytes config.journal_bytes)) [
    | inl b ↦
        (let t =
            trim-Bounded (data'.journal ++ ((e, bytes) ∷ []))
              (saturating_add data'.journal_bytes bytes)
              (exact (leb→le bytes config.journal_bytes b)
                ∙ sym (total-snoc data'.journal e bytes)) in
          rw b (record { events = t.0; counted = t.1; bytes = t.2 }))
    | inr b ↦
        (let t = trim-Bounded [] 0 refl in
          rw b (record { events = t.0; counted = t.1; bytes = t.2 }))
  ]
    where
      exact :
          bytes ≤ config.journal_bytes
          → saturating_add data'.journal_bytes bytes ≡ total data'.journal + bytes
      exact b = omega (arith, b, small, ok.bytes, ok.counted)

  resync-Bounded :
      (now : ℕ) (s : RunSnapshot V) (data' : RunData V)
      → Bounded data'
      → Bounded (resync now s data')
  unfolding resync total
  resync-Bounded now s data' ok =
      elim (Bool-cases (ltb (public_snapshot s).seq data'.snapshot.seq)) [
        | inl b ↦ rw b ok
        | inr b ↦ rw b (
            mark-Bounded now (synced data')
              (record { events = omega arith; counted = refl; bytes = omega arith }))
      ]
    where
      synced : RunData V → RunData V
      synced d = record d {
        reset_floor = (public_snapshot s).seq;
        snapshot = public_snapshot s;
        journal = [];
        journal_bytes = 0;
      }

  fault-Bounded : (now : ℕ) (data' : RunData V) → Bounded data' → Bounded (fault now data')
  unfolding fault
  fault-Bounded now data' ok = elim (Bool-cases (is_some data'.snapshot.outcome)) [
    | inl b ↦ rw b ok
    | inr b ↦ rw b (record { events = ok.events; counted = ok.counted; bytes = ok.bytes })
  ]

  accept-Bounded :
      config.journal_bytes * 2 ≤ usize_max
      → (size : EventEnvelope V → Option ℕ) (now : ℕ) (s : RunSnapshot V) (e : EventEnvelope V)
        (data' : RunData V)
      → Bounded data'
      → Bounded (accept config size now s e data')
  unfolding accept
  accept-Bounded small size now s e data' ok =
      from (leb e.seq data'.snapshot.seq) (apply data'.snapshot (public_event e))
    where
      recorded : RunSnapshot V → RunData V
      recorded t = mark now (
          record_event config (public_event e) (or_max (size (public_event e)))
            (record data' { snapshot = t }))

      from :
          (b : Bool) (o : Option (RunSnapshot V))
          → Bounded
              (if b then data' else elim o [ none ↦ resync now s data' | some t ↦ recorded t ])
      from true o = ok
      from false none = resync-Bounded now s data' ok
      from false (some t) = mark-Bounded now _ (
          record_event-Bounded small (public_event e) (or_max (size (public_event e)))
            (record data' { snapshot = t })
            (record { events = ok.events; counted = ok.counted; bytes = ok.bytes }))

module _ {V : Type 0} (config : ApplicationConfig) (size : EventEnvelope V → Option ℕ)
    (run_id : Str) (log : List (EventEnvelope V)) where
  keeps-Bounded :
      config.journal_bytes * 2 ≤ usize_max
      → (as' : List Action) (w : World V) → Bounded config w.entry
      → Bounded config (act_all config size run_id log as' w).entry
  unfolding act_all act receive
  keeps-Bounded small [] w ok = ok
  keeps-Bounded small (delivers n now k ∷ as') w ok =
      keeps-Bounded small as' _ (from (get_elem? log n))
    where
      from :
          (o : Option (EventEnvelope V))
          → Bounded config (receive config size run_id log now k o w.entry)
      from none = ok
      from (some e) = accept-Bounded config small size now (session_at run_id log k) e w.entry ok
  keeps-Bounded small (lags now k ∷ as') w ok =
      keeps-Bounded small as' _ (resync-Bounded config now (session_at run_id log k) w.entry ok)
  keeps-Bounded small (ends_run now k ∷ as') w ok =
      keeps-Bounded small as' _ (
        fault-Bounded config now _ (resync-Bounded config now (session_at run_id log k) w.entry ok))
  keeps-Bounded small (polls ∷ as') w ok = keeps-Bounded small as' _ ok

  -- Whatever events arrive, the journal of a run never holds more events or bytes than configured,
  -- and its byte count is the sum of the sizes of the events it holds; twice the configured bytes fit a
  -- `usize`.
  pub act_all-Bounded :
      (actions : List Action)
      → config.journal_bytes * 2 ≤ usize_max
      → Bounded config (act_all config size run_id log actions (started run_id)).entry
  unfolding Entries.new total
  act_all-Bounded actions small =
      keeps-Bounded small actions (started run_id)
        (record { events = omega arith; counted = refl; bytes = omega arith })
