-- ===== src/Application/Frames.antt =====
-- packages/application/src/subscription.rs: every frame brings its client to a position of the log.
use mona_agent_core.Prelude.{
  ℕ, suc, ◌+◌, ◌≤◌, ◌≡◌, refl, sym, ap, subst, ◌∙◌, ◌≢◌, ◌⊎◌, inl, inr, Bool, true, false, Option,
  none, some, List, [], ◌∷◌, arith, ltb, if◌then◌else◌, Bool-cases, ltb→lt, length,
}
use mona_agent_core.Prelude.Strings.{Str}
use mona_agent_core.Api.Event.{RunSnapshot, EventEnvelope}
use mona_agent_core.Api.Event.Snapshot.{apply}
use mona_agent_core.Api.Event.Snapshot as Snapshot
use mona_agent_core.Application.Protocol.{
  ApplicationError, ApplicationError, StreamFrame, SnapshotReason, event, snapshot, fault,
}
use mona_agent_core.Application.Entries.{RunData}
use mona_agent_core.Application.Subscriptions.{
  Subscription, returns, choose, choice, reason, find_after, deliver, oldest,
}
use mona_agent_core.Application.Histories.{applied-seq}
use mona_agent_core.Application.Positions.{public_at, Follows, EntryOk}
use mona_agent_core.Application.Collector.{public_at-seq}
use mona_agent_core.Runtime.Events.Applied.{replay}
use mona_agent_core.Application.Clients.{follow}

module _ {V : Type 0} (run_id : Str) (log : List (EventEnvelope V)) where
  -- A client that got its first frame, or named a position it had, has the public snapshot of the
  -- position of its cursor.
  pub record Synced (sub : Subscription) (view : Option (RunSnapshot V)) : Type 0 where
    pub same_view : (sub.initial ≡ true) ⊎ (view ≡ some (public_at run_id log sub.cursor))

module _ {V : Type 0} (run_id : Str) (log : List (EventEnvelope V)) (final : RunSnapshot V)
    (replays : replay (Snapshot.new run_id) log ≡ some final) where
  pub Follows-le : (k m : ℕ) (js : List (EventEnvelope V × ℕ)) → Follows run_id log k js m → k ≤ m
  unfolding Follows
  Follows-le k m [] h = omega (arith, h)
  Follows-le k m (j ∷ js) h = omega (arith, Follows-le (suc k) m js h.1)

  -- The journal starts at the cursor or before it, where the oldest event says so.
  pub start-le :
      (k m c : ℕ) (js : List (EventEnvelope V × ℕ)) (snapshot_seq : ℕ) (e : EventEnvelope V)
      → Follows run_id log k js m
      → m ≤ length log
      → ltb (c + 1) (elim js [ [] ↦ snapshot_seq + 1 | j ∷ rest ↦ j.0.seq ]) ≡ false
      → find_after c js ≡ some e
      → k ≤ c
  unfolding Follows find_after
  start-le k m c [] q e h l b f = cc
  start-le k m c (j ∷ js) q e h l b f =
      let later = Follows-le (suc k) m js h.1 in
      let first = (applied-seq (public_at run_id log k) j.0 (public_at run_id log (suc k)) h.0).0 in
      let number = public_at-seq run_id log final replays k (omega (arith, later, l)) in
      ground (arith, first, number, b)

  -- The event that a journal has for a cursor within it is the next one.
  pub found_next :
      (k m c : ℕ) (js : List (EventEnvelope V × ℕ)) (e : EventEnvelope V)
      → Follows run_id log k js m
      → m ≤ length log
      → k ≤ c
      → find_after c js ≡ some e
      → (apply (public_at run_id log c) e ≡ some (public_at run_id log (suc c))) × (e.seq ≡ suc c)
  unfolding Follows find_after
  found_next k m c [] e h l k_c f = cc
  found_next k m c (j ∷ js) e h l k_c f =
      let later = Follows-le (suc k) m js h.1 in
      let first = (applied-seq (public_at run_id log k) j.0 (public_at run_id log (suc k)) h.0).0 in
      let number : j.0.seq ≡ suc k =
        omega (arith, first, public_at-seq run_id log final replays k (omega (arith, later, l))) in
      elim (Bool-cases (ltb c j.0.seq)) [
        | inl b ↦
            (let at_c : k ≡ c = omega (arith, ltb→lt c j.0.seq b, number) in
              let same = same_event (rw b at f) in
              (
                subst
                    (λ (x : EventEnvelope V).
                      apply (public_at run_id log c) x ≡ some (public_at run_id log (suc c)))
                    same
                    (subst
                      (λ (i : ℕ).
                        apply (public_at run_id log i) j.0 ≡ some (public_at run_id log (suc i)))
                      at_c h.0),
                sym (ap (λ (x : EventEnvelope V). x.seq) same) ∙ number ∙ ap suc at_c,
              ))
        | inr b ↦ found_next (suc k) m c js e h.1 l (above c number k_c b) (rw b at f)
      ]
    where
      same_event : {x y : EventEnvelope V} → some x ≡ some y → x ≡ y
      same_event q = cc

      above : {n i : ℕ} (c : ℕ) → n ≡ suc i → i ≤ c → ltb c n ≡ false → suc i ≤ c
      above c q r b = ground (arith, b)

  -- What a turn finds where it has no reason to send a snapshot.
  pub no_reason :
      (sub : Subscription) (data' : RunData V)
      → reason sub data' ≡ none
      → (sub.initial ≡ false) × (ltb (sub.cursor + 1) (oldest data') ≡ false)
  unfolding reason
  no_reason sub data' h =
      from sub.initial (ltb sub.cursor data'.reset_floor) (ltb (sub.cursor + 1) (oldest data')) h
    where
      from :
          (a b c : Bool)
          → (if a
              then some SnapshotReason.initial
              else if b
              then some SnapshotReason.source_resync
              else if c
              then some SnapshotReason.cursor_expired
              else none)
            ≡ none
          → (a ≡ false) × (c ≡ false)
      from true b c k = cc
      from false true c k = cc
      from false false true k = cc
      from false false false k = (refl, refl)

  -- A frame brings the client to the position of its new cursor.
  pub choose-Synced :
      (data' : RunData V) (ok : EntryOk run_id log data') (sub : Subscription)
      (view : Option (RunSnapshot V)) (frame : StreamFrame V) (ended : Bool)
      → Synced run_id log sub view
      → (choose sub data').0 ≡ some frame
      → Synced run_id log (deliver frame ended sub) (follow (returns frame) view)
  unfolding choose deliver follow
  choose-Synced data' ok sub view frame ended synced h =
      from (reason sub data') refl (find_after sub.cursor data'.journal) refl data'.fault h
    where
      same : {x y : StreamFrame V} → some x ≡ some y → x ≡ y
      same q = cc

      true_false : true ≢ false
      true_false q = cc

      brought : StreamFrame V → Type 0
      brought f = Synced run_id log (deliver f ended sub) (follow (returns f) view)

      at : data'.snapshot.seq ≡ ok.position
      at =
          ap (λ (u : RunSnapshot V). u.seq) ok.current
          ∙ public_at-seq run_id log final replays ok.position ok.within

      by_snapshot : (why : SnapshotReason) → brought (snapshot why data'.snapshot)
      by_snapshot why = record {
        same_view = inr (ap some (ok.current ∙ ap (public_at run_id log) (sym at)));
      }

      event_view :
          (e : EventEnvelope V) (v : Option (RunSnapshot V))
          → (sub.initial ≡ true) ⊎ (v ≡ some (public_at run_id log sub.cursor))
          → sub.initial ≡ false
          → apply (public_at run_id log sub.cursor) e ≡ some (public_at run_id log (suc sub.cursor))
          → follow (returns (event e)) v ≡ some (public_at run_id log (suc sub.cursor))
      event_view e v (inl t) i a = absurd (true_false (sym t ∙ i))
      event_view e v (inr w) i a = rw w a

      by_event :
          (e : EventEnvelope V)
          → sub.initial ≡ false
          → (apply (public_at run_id log sub.cursor) e
              ≡ some (public_at run_id log (suc sub.cursor)))
            × (e.seq ≡ suc sub.cursor)
          → brought (event e)
      by_event e i n = record {
        same_view = inr (
            event_view e view synced.same_view i n.0
            ∙ ap some (ap (public_at run_id log) (sym n.1)));
      }

      by_fault :
          (error : ApplicationError)
          → sub.initial ≡ false
          → (sub.initial ≡ true) ⊎ (view ≡ some (public_at run_id log sub.cursor))
          → brought (fault error)
      by_fault error i (inl t) = absurd (true_false (sym t ∙ i))
      by_fault error i (inr w) = record { same_view = inr w }

      from :
          (r : Option SnapshotReason)
          → reason sub data' ≡ r
          → (f : Option (EventEnvelope V)) → find_after sub.cursor data'.journal ≡ f
          → (g : Option ApplicationError) → (choice data'.snapshot r f g).0 ≡ some frame
          → brought frame
      from (some why) p f q g k = subst brought (same k) (by_snapshot why)
      from none p (some e) q g k =
          let calm = no_reason sub data' p in
          let start =
            start-le ok.start ok.position sub.cursor data'.journal data'.snapshot.seq e ok.journal
              ok.within calm.1 q in
          subst brought (same k) (
            by_event e calm.0 (
              found_next ok.start ok.position sub.cursor data'.journal e ok.journal ok.within start
                q))
      from none p none q (some error) k =
          subst brought (same k) (by_fault error (no_reason sub data' p).0 synced.same_view)
      from none p none q none k = cc
