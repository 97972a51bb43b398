-- ===== src/Application/Positions.antt =====
-- packages/application/src/service.rs: the data of a run always stand at some position of its log.
use mona_agent_core.Prelude.{
  ℕ, suc, ◌-◌, ◌≤◌, ◌≡◌, refl, sym, ap, subst, Bool, true, false, not, ◌&&◌, ◌||◌, some, List, [],
  ◌∷◌, ◌++◌, arith, ltb, leb, if◌then◌else◌, is_some, length, saturating_add,
}
use mona_agent_core.Prelude.Strings.{Str}
use mona_agent_core.Api.Event.{RunSnapshot, EventEnvelope}
use mona_agent_core.Api.Event.Snapshot.{apply}
use mona_agent_core.Api.Event.Snapshot as Snapshot
use mona_agent_core.Application.Protocol.{public_snapshot}
use mona_agent_core.Application.Entries.{
  ApplicationConfig, RunData, accept, resync, mark, trim, record_event, fault,
}
use mona_agent_core.Application.Entries as Entries
use mona_agent_core.Application.Histories.{state_after}

-- The public snapshot after `n` events of a log.
abbrev pub public_at : {V : Type 0} → Str → List (EventEnvelope V) → ℕ → RunSnapshot V
public_at run_id log n = public_snapshot (state_after (Snapshot.new run_id) log n)

module _ {V : Type 0} (run_id : Str) (log : List (EventEnvelope V)) where
  -- A journal that goes from one position of the log to another.
  unfoldable pub Follows : ℕ → List (EventEnvelope V × ℕ) → ℕ → Type 0
  Follows k [] m = k ≡ m
  Follows k (e ∷ journal) m =
      (apply (public_at run_id log k) e.0 ≡ some (public_at run_id log (suc k)))
      × Follows (suc k) journal m

  pub record EntryOk (data' : RunData V) : Type 0 where
    pub position : ℕ
    pub within : position ≤ length log
    pub current : data'.snapshot ≡ public_at run_id log position
    pub start : ℕ
    pub journal : Follows start data'.journal position
    pub floor : data'.reset_floor ≤ position

  pub Follows-snoc :
      (k m : ℕ) (js : List (EventEnvelope V × ℕ)) (e : EventEnvelope V × ℕ)
      → Follows k js m
      → apply (public_at run_id log m) e.0 ≡ some (public_at run_id log (suc m))
      → Follows k (js ++ (e ∷ [])) (suc m)
  unfolding Follows
  Follows-snoc k m [] e h a = (
    subst (λ (i : ℕ). apply (public_at run_id log i) e.0 ≡ some (public_at run_id log (suc i)))
        (sym h) a,
    ap suc h,
  )
  Follows-snoc k m (j ∷ js) e h a = (h.0, Follows-snoc (suc k) m js e h.1 a)

  Follows-trim :
      (config : ApplicationConfig) (k m : ℕ) (js : List (EventEnvelope V × ℕ)) (bytes : ℕ)
      → Follows k js m
      → (l : ℕ) × Follows l (trim config js bytes).0 m
  unfolding Follows trim
  Follows-trim config k m [] bytes h = (k, h)
  Follows-trim config k m (j ∷ js) bytes h =
      from (ltb config.journal_events (length (j ∷ js)) || ltb config.journal_bytes bytes)
        (Follows-trim config (suc k) m js (bytes - j.1) h.1)
    where
      from :
          (b : Bool)
          → (l : ℕ) × Follows l (trim config js (bytes - j.1)).0 m
          → (l : ℕ) × Follows l (if b then trim config js (bytes - j.1) else (j ∷ js, bytes)).0 m
      from true p = p
      from false p = (k, h)

  pub mark-EntryOk : (now : ℕ) (data' : RunData V) → EntryOk data' → EntryOk (mark now data')
  unfolding mark
  mark-EntryOk now data' ok = from (Entries.terminal data' && not (is_some data'.completed_at))
    where
      from : (b : Bool) → EntryOk (if b then record data' { completed_at = some now } else data')
      from true = record {
        position = ok.position;
        within = ok.within;
        current = ok.current;
        start = ok.start;
        journal = ok.journal;
        floor = ok.floor;
      }
      from false = ok

  -- The data after one more event, with the journal that a record leaves.
  pub record_event-EntryOk :
      (config : ApplicationConfig) (e : EventEnvelope V) (bytes : ℕ) (data' : RunData V)
      (ok : EntryOk data')
      → suc ok.position ≤ length log
      → apply (public_at run_id log ok.position) e ≡ some (public_at run_id log (suc ok.position))
      → (public_at run_id log (suc ok.position)).seq ≤ suc ok.position
      → EntryOk (
          record_event config e bytes
            (record data' { snapshot = public_at run_id log (suc ok.position) }))
  unfolding record_event Follows
  record_event-EntryOk config e bytes data' ok within a seq = from (leb bytes config.journal_bytes)
    where
      kept : Bool → RunData V
      kept b =
          if b
          then record data' {
            snapshot = public_at run_id log (suc ok.position);
            journal_bytes = saturating_add data'.journal_bytes bytes;
            journal = data'.journal ++ ((e, bytes) ∷ []);
          }
          else record data' {
            snapshot = public_at run_id log (suc ok.position);
            journal = [];
            journal_bytes = 0;
            reset_floor = (public_at run_id log (suc ok.position)).seq;
          }

      trimmed : (b : Bool) → List (EventEnvelope V × ℕ) × ℕ
      trimmed b = trim config (kept b).journal (kept b).journal_bytes

      from :
          (b : Bool)
          → EntryOk (record (kept b) { journal = (trimmed b).0; journal_bytes = (trimmed b).1 })
      from true =
          let cut =
            Follows-trim config ok.start (suc ok.position) (kept true).journal
              (kept true).journal_bytes
              (Follows-snoc ok.start ok.position data'.journal (e, bytes) ok.journal a) in
          record {
            position = suc ok.position;
            within = within;
            current = refl;
            start = cut.0;
            journal = cut.1;
            floor = omega (arith, ok.floor);
          }
      from false =
          let cut = Follows-trim config (suc ok.position) (suc ok.position) [] 0 refl in
          record {
            position = suc ok.position;
            within = within;
            current = refl;
            start = cut.0;
            journal = cut.1;
            floor = seq;
          }
