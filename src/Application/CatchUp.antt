-- ===== src/Application/CatchUp.antt =====
-- packages/application/src/subscription.rs: a client that takes turns reaches the current snapshot.
use mona_agent_core.Prelude.{
  ℕ, zero, suc, ◌+◌, ◌-◌, ◌≤◌, ◌<◌, ◌≡◌, refl, sym, ap, ◌∙◌, ◌≢◌, ◌⊎◌, inl, inr, Bool, true, false,
  Option, none, some, List, arith, ltb, if◌then◌else◌, is_some, Bool-cases, ltb→lt,
}
use mona_agent_core.Prelude.Strings.{Str}
use mona_agent_core.Api.Event.{RunSnapshot, EventEnvelope}
use mona_agent_core.Api.Event.Snapshot.{apply}
use mona_agent_core.Api.Event.Snapshot as Snapshot
use mona_agent_core.Application.Protocol.{ApplicationError, SnapshotReason, event}
use mona_agent_core.Application.Entries.{RunData}
use mona_agent_core.Application.Subscriptions.{
  Subscription, Turn, ends, next, choose, choice, reason, find_after, deliver, turn,
}
use mona_agent_core.Application.Positions.{public_at, EntryOk}
use mona_agent_core.Application.Collector.{public_at-seq}
use mona_agent_core.Application.Clients.{follow}
use mona_agent_core.Application.Frames.{Synced, choose-Synced, no_reason, found_next}
use mona_agent_core.Runtime.Events.Applied.{replay}
use mona_agent_core.Application.JournalEnds.{find_after-end, find_after-some, oldest-le, covers}

-- A number of turns while the data of the run stay as they are.
unfoldable pub turns :
    {V : Type 0} → ℕ → RunData V → Subscription → Option (RunSnapshot V) → Option (RunSnapshot V)
turns zero data' sub view = view
turns (suc n) data' sub view = turns n data' (next sub data').0 (follow (next sub data').1 view)

module _ {V : Type 0} (run_id : Str) (log : List (EventEnvelope V)) (final : RunSnapshot V)
    (replays : replay (Snapshot.new run_id) log ≡ some final) where
  module _ (data' : RunData V) (ok : EntryOk run_id log data') where
    current-seq : data'.snapshot.seq ≡ ok.position
    current-seq =
        ap (λ (u : RunSnapshot V). u.seq) ok.current
        ∙ public_at-seq run_id log final replays ok.position ok.within

    -- A client at the current position.
    record Arrived (sub : Subscription) (view : Option (RunSnapshot V)) : Type 0 where
      pub begun : sub.initial ≡ false
      pub cursor : sub.cursor ≡ ok.position
      pub same_view : view ≡ some data'.snapshot

    -- A client before it.
    record Behind (sub : Subscription) (view : Option (RunSnapshot V)) : Type 0 where
      pub going : sub.ended ≡ false
      pub synced : Synced run_id log sub view
      pub within : sub.cursor ≤ ok.position

    calm :
        (sub : Subscription)
        → sub.initial ≡ false
        → sub.cursor ≡ ok.position
        → reason sub data' ≡ none
    unfolding reason
    calm sub i c =
        rw
          (
            i,
            no_reset,
            no_gap (
                oldest-le run_id log final replays data'.journal ok.start ok.position
                  data'.snapshot.seq ok.journal ok.within current-seq),
          )
          refl
      where
        no_reset : ltb sub.cursor data'.reset_floor ≡ false
        no_reset = ground (arith, ok.floor, c)

        no_gap : {o : ℕ} → o ≤ ok.position + 1 → ltb (sub.cursor + 1) o ≡ false
        no_gap h = ground (arith, c, h)

    -- A turn that has no snapshot and no event to send.
    quiet :
        (sub : Subscription) (view : Option (RunSnapshot V)) (f : Option ApplicationError)
        → Arrived sub view
        → Arrived
            (turn sub (choice data'.snapshot none none f)).0
            (follow (turn sub (choice data'.snapshot none none f)).1 view)
    unfolding follow turn deliver choice
    quiet sub view (some error) a = record {
      begun = refl;
      cursor = a.cursor;
      same_view = a.same_view;
    }
    quiet sub view none a = silent (is_some data'.snapshot.outcome)
      where
        silent :
            (b : Bool)
            → Arrived (turn {V = V} sub (none, b)).0 (follow (turn {V = V} sub (none, b)).1 view)
        silent true = record { begun = a.begun; cursor = a.cursor; same_view = a.same_view }
        silent false = a

    nothing_left :
        (sub : Subscription) → sub.cursor ≡ ok.position → find_after sub.cursor data'.journal ≡ none
    nothing_left sub c =
        find_after-end run_id log final replays ok.start ok.position sub.cursor data'.journal
          ok.journal ok.within (omega (arith, c))

    -- A turn at the current position changes neither.
    stays :
        (sub : Subscription) (view : Option (RunSnapshot V))
        → Arrived sub view
        → Arrived (next sub data').0 (follow (next sub data').1 view)
    unfolding next choose follow
    stays sub view a = rw (calm sub a.begun a.cursor, nothing_left sub a.cursor) (by_end sub.ended)
      where
        Here : Subscription × Turn V → Type 0
        Here r = Arrived r.0 (follow r.1 view)

        by_end :
            (e : Bool)
            → Here
                (if e then (sub, ends) else turn sub (choice data'.snapshot none none data'.fault))
        by_end true = a
        by_end false = quiet sub view data'.fault a

    true-false : true ≢ false
    true-false q = cc

    arrived :
        (sub : Subscription) (v : Option (RunSnapshot V))
        → sub.initial ≡ false
        → sub.cursor ≡ ok.position
        → (sub.initial ≡ true) ⊎ (v ≡ some (public_at run_id log sub.cursor))
        → v ≡ some data'.snapshot
    arrived sub v i c (inl t) = absurd (true-false (sym t ∙ i))
    arrived sub v i c (inr w) = w ∙ ap some (ap (public_at run_id log) c ∙ sym ok.current)

    last_one :
        (sub : Subscription) (view : Option (RunSnapshot V))
        → Behind sub view
        → reason sub data' ≡ none
        → sub.cursor ≡ ok.position
        → Arrived
            (turn sub
              (choice data'.snapshot none (find_after sub.cursor data'.journal) data'.fault)).0
            (follow
              (turn sub
                (choice data'.snapshot none (find_after sub.cursor data'.journal) data'.fault)).1
              view)
    last_one sub view b p c =
        let i = (no_reason run_id log final replays sub data' p).0 in
        rw (nothing_left sub c) (
          quiet sub view data'.fault
            (record { begun = i; cursor = c; same_view = arrived sub view i c b.synced.same_view }))

    next_one :
        (sub : Subscription) (view : Option (RunSnapshot V))
        → Behind sub view
        → reason sub data' ≡ none
        → sub.cursor < ok.position
        → Behind
            (turn sub
              (choice data'.snapshot none (find_after sub.cursor data'.journal) data'.fault)).0
            (follow
              (turn sub
                (choice data'.snapshot none (find_after sub.cursor data'.journal) data'.fault)).1
              view)
          × ((turn sub (
                choice data'.snapshot none
                  (find_after sub.cursor data'.journal)
                  data'.fault)).0.cursor
              ≡ suc sub.cursor)
    unfolding follow turn deliver choice choose
    next_one sub view b p l =
        let start =
          covers run_id log final replays data'.journal ok.start ok.position data'.snapshot.seq
            sub.cursor ok.journal ok.within current-seq l
            (no_reason run_id log final replays sub data' p).1 in
        let found =
          find_after-some run_id log final replays ok.start ok.position sub.cursor data'.journal
            ok.journal ok.within start l in
        let number =
          (found_next run_id log final replays ok.start ok.position sub.cursor data'.journal found.0
            ok.journal ok.within start found.1).1 in
        rw found.1 (
          record {
            going = refl;
            synced =
                choose-Synced run_id log final replays data' ok sub view (event found.0) false
                  b.synced (rw (p, found.1) refl);
            within = omega (arith, number, l);
          },
          number,
        )

    -- A turn before the current position reaches it, or the next one.
    advances :
        (sub : Subscription) (view : Option (RunSnapshot V))
        → Behind sub view
        → Arrived (next sub data').0 (follow (next sub data').1 view)
          ⊎ (Behind (next sub data').0 (follow (next sub data').1 view)
              × ((next sub data').0.cursor ≡ suc sub.cursor))
    unfolding next choose follow turn deliver choice
    advances sub view b = by_end sub.ended b.going
      where
        Goal : Subscription × Turn V → Type 0
        Goal r =
            Arrived r.0 (follow r.1 view)
            ⊎ (Behind r.0 (follow r.1 view) × (r.0.cursor ≡ suc sub.cursor))

        at_end : ltb sub.cursor ok.position ≡ false → sub.cursor ≡ ok.position
        at_end l = ground (arith, b.within, l)

        from :
            (r : Option SnapshotReason)
            → reason sub data' ≡ r
            → Goal (
                turn sub
                  (choice data'.snapshot r (find_after sub.cursor data'.journal) data'.fault))
        from (some why) p = inl (record { begun = refl; cursor = current-seq; same_view = refl })
        from none p = elim (Bool-cases (ltb sub.cursor ok.position)) [
          | inl l ↦ inr (next_one sub view b p (ltb→lt sub.cursor ok.position l))
          | inr l ↦ inl (last_one sub view b p (at_end l))
        ]

        by_end :
            (e : Bool) → e ≡ false → Goal (if e then (sub, ends) else turn sub (choose sub data'))
        by_end true q = absurd (true-false q)
        by_end false q = from (reason sub data') refl

    Arrived-stays :
        (n : ℕ) (sub : Subscription) (view : Option (RunSnapshot V))
        → Arrived sub view
        → turns n data' sub view ≡ some data'.snapshot
    unfolding turns
    Arrived-stays zero sub view a = a.same_view
    Arrived-stays (suc n) sub view a =
        Arrived-stays n (next sub data').0 (follow (next sub data').1 view) (stays sub view a)

    -- A client that has not got its first frame, or has the snapshot of its cursor, has the current
    -- public snapshot of the run after one turn more than the events that it lacks, and after any
    -- further turns, while the data of the run stay as they are; its subscription has not ended before,
    -- and its cursor is not ahead of the run.
    pub turns-current :
        (n : ℕ) (sub : Subscription) (view : Option (RunSnapshot V))
        → sub.ended ≡ false
        → Synced run_id log sub view
        → sub.cursor ≤ data'.snapshot.seq
        → 1 + (data'.snapshot.seq - sub.cursor) ≤ n
        → turns n data' sub view ≡ some data'.snapshot
    unfolding turns
    turns-current zero sub view e s c h = absurd (omega (arith, h))
    turns-current (suc n) sub view e s c h =
        elim (advances sub view
          (record { going = e; synced = s; within = omega (arith, c, current-seq) })) [
            | inl a ↦ Arrived-stays n (next sub data').0 (follow (next sub data').1 view) a
            | inr b ↦
                turns-current n (next sub data').0 (follow (next sub data').1 view) b.0.going
                  b.0.synced (omega (arith, b.0.within, current-seq))
                  (omega (arith, b.1, b.0.within, current-seq, h))
          ]
