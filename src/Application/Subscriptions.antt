-- ===== src/Application/Subscriptions.antt =====
-- packages/application/src/subscription.rs: replay and live updates of one run for one client. Each
-- turn of the loop of `next` reads the data under their lock; between turns it waits for a change.
use mona_agent_core.Prelude.{
  ℕ, ◌+◌, ◌⊎◌, inl, inr, Bool, true, false, Option, none, some, List, [], ◌∷◌, ltb, if◌then◌else◌,
  is_some,
}
use mona_agent_core.Api.Event.{RunSnapshot, EventEnvelope}
use mona_agent_core.Application.Protocol.{
  ApplicationError, ApplicationErrorCode, failure, StreamFrame, SnapshotReason, event, snapshot,
  fault, sequence, source_resync, cursor_expired,
}
use mona_agent_core.Application.Entries.{RunData}

pub record Subscription : Type 0 where
  pub cursor : ℕ
  pub initial : Bool
  pub ended : Bool

-- What one turn of `next` does: it returns a frame, it returns None, or it waits.
pub data Turn (V : Type 0) : Type 0 where
  returns : StreamFrame V → Turn V
  ends waits : Turn V

module _ {V : Type 0} where
  -- Subscription::new
  unfoldable pub new : Option ℕ → RunData V → ApplicationError ⊎ Subscription
  new none data' = inr (record { cursor = 0; initial = true; ended = false })
  new (some after) data' =
      if ltb data'.snapshot.seq after
      then inl (failure ApplicationErrorCode.invalid_request "cursor is ahead of this run")
      else inr (record { cursor = after; initial = false; ended = false })

  abbrev pub oldest : RunData V → ℕ
  oldest data' = elim data'.journal [ [] ↦ data'.snapshot.seq + 1 | e ∷ journal ↦ e.0.seq ]

  unfoldable pub reason : Subscription → RunData V → Option SnapshotReason
  reason sub data' =
      if sub.initial
      then some SnapshotReason.initial
      else if ltb sub.cursor data'.reset_floor
      then some source_resync
      else if ltb (sub.cursor + 1) (oldest data')
      then some cursor_expired
      else none

  -- data.journal.iter().find(|(e, _)| e.seq > cursor)
  unfoldable pub find_after : ℕ → List (EventEnvelope V × ℕ) → Option (EventEnvelope V)
  find_after cursor [] = none
  find_after cursor (e ∷ journal) =
      let rest = find_after cursor journal in if ltb cursor e.0.seq then some e.0 else rest

  -- The frame of a turn, and whether the subscription ends with it: a snapshot where there is a
  -- reason for one, else the next event, else the fault of the run, else nothing.
  unfoldable pub choice :
      RunSnapshot V
      → Option SnapshotReason
      → Option (EventEnvelope V)
      → Option ApplicationError
      → Option (StreamFrame V) × Bool
  choice s (some why) e error = (some (snapshot why s), false)
  choice s none (some e) error = (some (event e), false)
  choice s none none (some error) = (some (fault error), true)
  choice s none none none = (none, is_some s.outcome)

  unfoldable pub choose : Subscription → RunData V → Option (StreamFrame V) × Bool
  unfolding reason find_after choice
  choose sub data' =
      choice data'.snapshot (reason sub data') (find_after sub.cursor data'.journal) data'.fault

  -- The subscription after a frame.
  unfoldable pub deliver : StreamFrame V → Bool → Subscription → Subscription
  deliver frame ended sub = record {
    cursor = elim (sequence frame) [ none ↦ sub.cursor | some seq ↦ seq ];
    initial = false;
    ended = ended;
  }

  unfoldable pub turn : Subscription → Option (StreamFrame V) × Bool → Subscription × Turn V
  unfolding deliver
  turn sub (some frame, ended) = (deliver frame ended sub, returns frame)
  turn sub (none, true) = (record sub { ended = true }, ends)
  turn sub (none, false) = (sub, waits)

  -- One turn of Subscription::next.
  unfoldable pub next : Subscription → RunData V → Subscription × Turn V
  unfolding choose turn
  next sub data' = if sub.ended then (sub, ends) else turn sub (choose sub data')
