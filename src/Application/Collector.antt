-- ===== src/Application/Collector.antt =====
-- packages/application/src/service.rs: what the collector does keeps the data at a position of the log.
use mona_agent_core.Prelude.{
  ℕ, zero, suc, ◌≤◌, ◌<◌, min, ◌≡◌, refl, sym, ap, subst, ◌∙◌, Bool, true, false, Option, none,
  some, List, [], ◌∷◌, arith, ltb, leb, if◌then◌else◌, is_some, length, get_elem?,
}
use mona_agent_core.Prelude.Strings.{Str}
use mona_agent_core.Api.Event.{RunSnapshot, EventEnvelope}
use mona_agent_core.Api.Event.Snapshot.{apply}
use mona_agent_core.Api.Event.Snapshot as Snapshot
use mona_agent_core.Api.ToolResults.{or_max}
use mona_agent_core.Application.Protocol.{
  ApplicationErrorCode, failure, public_event, public_snapshot,
}
use mona_agent_core.Application.Entries.{
  ApplicationConfig, RunData, accept, resync, mark, record_event, fault,
}
use mona_agent_core.Application.Histories.{
  state_after, state_after-seq, log-step, applied-seq, apply-public,
}
use mona_agent_core.Application.Positions.{
  public_at, Follows, EntryOk, mark-EntryOk, record_event-EntryOk,
}
use mona_agent_core.Runtime.Events.Applied.{replay}

-- session.snapshot() when the session has sent `n` events of the log
unfoldable pub session_at : {V : Type 0} → Str → List (EventEnvelope V) → ℕ → RunSnapshot V
session_at run_id log n = state_after (Snapshot.new run_id) log (min n (length log))

in_range : {A : Type 0} (xs : List A) (n : ℕ) {a : A} → get_elem? xs n ≡ some a → n < length xs
in_range [] n h = cc
in_range (x ∷ xs) zero h = omega arith
in_range (x ∷ xs) (suc n) h = omega (arith, in_range xs n h)

module _ {V : Type 0} (run_id : Str) (log : List (EventEnvelope V)) (final : RunSnapshot V)
    (replays : replay (Snapshot.new run_id) log ≡ some final) where
  pub public_at-seq : (n : ℕ) → n ≤ length log → (public_at run_id log n).seq ≡ n
  unfolding public_snapshot Snapshot.new
  public_at-seq n h = omega (arith, state_after-seq (Snapshot.new run_id) log final n replays h)

  -- The event of a position, as clients see it, takes one public snapshot to the next.
  pub public-step :
      (n : ℕ) (e : EventEnvelope V)
      → get_elem? log n ≡ some e
      → apply (public_at run_id log n) (public_event e) ≡ some (public_at run_id log (suc n))
  public-step n e h =
      apply-public (state_after (Snapshot.new run_id) log n) e
        (state_after (Snapshot.new run_id) log (suc n))
        (log-step (Snapshot.new run_id) log final n e replays h)

  pub resync-EntryOk :
      (now n : ℕ) (data' : RunData V)
      → EntryOk run_id log data'
      → EntryOk run_id log (resync now (session_at run_id log n) data')
  unfolding resync session_at Follows
  resync-EntryOk now n data' ok = from (ltb (public_at run_id log m).seq data'.snapshot.seq)
    where
      m : ℕ
      m = min n (length log)

      synced : RunData V
      synced = record data' {
        reset_floor = (public_at run_id log m).seq;
        snapshot = public_at run_id log m;
        journal = [];
        journal_bytes = 0;
      }

      synced-EntryOk : EntryOk run_id log synced
      synced-EntryOk = record {
        position = m;
        within = omega arith;
        current = refl;
        start = m;
        journal = refl;
        floor = omega (arith, public_at-seq m (omega arith));
      }

      from : (b : Bool) → EntryOk run_id log (if b then data' else mark now synced)
      from true = ok
      from false = mark-EntryOk run_id log now synced synced-EntryOk

  pub fault-EntryOk :
      (now : ℕ) (data' : RunData V)
      → EntryOk run_id log data'
      → EntryOk run_id log (fault now data')
  unfolding fault
  fault-EntryOk now data' ok = from (is_some data'.snapshot.outcome)
    where
      from :
          (b : Bool)
          → EntryOk run_id log (
              if b then data' else record data' {
                fault = some (
                    failure ApplicationErrorCode.internal
                      "executor ended without a terminal snapshot");
                completed_at = some now;
              })
      from true = ok
      from false = record {
        position = ok.position;
        within = ok.within;
        current = ok.current;
        start = ok.start;
        journal = ok.journal;
        floor = ok.floor;
      }

  same_snapshot : {s t : RunSnapshot V} → some s ≡ some t → s ≡ t
  same_snapshot h = cc

  -- An event that applies is the next one, and the snapshot after it is that of the next position.
  applies_next :
      (data' : RunData V) (ok : EntryOk run_id log data') (n : ℕ) (e : EventEnvelope V)
      (s : RunSnapshot V)
      → get_elem? log n ≡ some e
      → apply data'.snapshot (public_event e) ≡ some s
      → (n ≡ ok.position)
        × (apply (public_at run_id log ok.position) (public_event e)
            ≡ some (public_at run_id log (suc ok.position)))
        × (s ≡ public_at run_id log (suc ok.position))
  applies_next data' ok n e s k a =
      let step = public-step n e k in
      let at_n =
        (applied-seq (public_at run_id log n) (public_event e) (public_at run_id log (suc n))
          step).0 in
      let here = (applied-seq data'.snapshot (public_event e) s a).0 in
      let number = public_at-seq n (omega (arith, in_range log n k)) in
      let standing =
        ap (λ (u : RunSnapshot V). u.seq) ok.current ∙ public_at-seq ok.position ok.within in
      let same_position : n ≡ ok.position = omega (arith, at_n, here, number, standing) in
      let next =
        subst
          (λ (i : ℕ).
            apply (public_at run_id log i) (public_event e) ≡ some (public_at run_id log (suc i)))
          same_position step in
      (
        same_position,
        next,
        same_snapshot (sym a ∙ ap (λ u. apply u (public_event e)) ok.current ∙ next),
      )

  pub accept-EntryOk :
      (config : ApplicationConfig) (size : EventEnvelope V → Option ℕ) (now k n : ℕ)
      (e : EventEnvelope V) (data' : RunData V)
      → get_elem? log n ≡ some e
      → EntryOk run_id log data'
      → EntryOk run_id log (accept config size now (session_at run_id log k) e data')
  unfolding accept
  accept-EntryOk config size now k n e data' h ok =
      from (leb e.seq data'.snapshot.seq) (apply data'.snapshot (public_event e)) refl
    where
      recorded : RunSnapshot V → RunData V
      recorded s = mark now (
          record_event config (public_event e) (or_max (size (public_event e)))
            (record data' { snapshot = s }))

      from :
          (b : Bool) (o : Option (RunSnapshot V))
          → apply data'.snapshot (public_event e) ≡ o
          → EntryOk run_id log (
              if b then data' else elim o [
                | none ↦ resync now (session_at run_id log k) data'
                | some s ↦ recorded s
              ])
      from true o q = ok
      from false none q = resync-EntryOk now k data' ok
      from false (some s) q =
          let next = applies_next data' ok n e s h q in
          let room : suc ok.position ≤ length log = omega (arith, next.0, in_range log n h) in
          rw next.2 (
            mark-EntryOk run_id log now _ (
              record_event-EntryOk run_id log config (public_event e)
                (or_max (size (public_event e))) data' ok room next.1
                (omega (arith, public_at-seq (suc ok.position) room))))
