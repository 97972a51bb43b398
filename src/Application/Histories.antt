-- ===== src/Application/Histories.antt =====
-- packages/application/src: the snapshots that a run goes through, as its clients may see them.
use mona_agent_core.Prelude.{
  ℕ, zero, suc, ◌+◌, ◌≤◌, ◌≡◌, refl, sym, ap, ◌∙◌, inl, inr, Bool, true, false, not, ◌||◌, Option,
  none, some, List, [], ◌∷◌, arith, leb, ◌==◌, if◌then◌else◌, holds, Bool-cases, ==_iff, length,
  get_elem?,
}
use mona_agent_core.Prelude.Strings.{str_discrete}
use mona_agent_core.Api.Event.{
  RunSnapshot, EventEnvelope, RunEvent, WorkItem, run_finished, run_started, step_started,
  item_started, item_updated, item_completed, text_delta, tool_arguments_delta, tool_output_delta,
  input_applied, step_finished, stream_version, ui_retained_items,
}
use mona_agent_core.Api.Event.Snapshot.{apply, apply_event, has_item, put_item, with_content}
use mona_agent_core.Application.Protocol.{public_event, public_run_event, public_snapshot}
use mona_agent_core.Runtime.Events.Applied.{replay}
use mona_agent_core.Runtime.Events.Replay.{apply_event-seq}

module _ {V : Type 0} where
  -- The snapshot after the first `n` events, from `s` on.
  unfoldable pub state_after : RunSnapshot V → List (EventEnvelope V) → ℕ → RunSnapshot V
  state_after s log zero = s
  state_after s [] (suc n) = s
  state_after s (e ∷ log) (suc n) = elim (apply s e) [ none ↦ s | some t ↦ state_after t log n ]

  refused :
      (a b c : Bool) (x t : RunSnapshot V)
      → (if not a || not b || not c then none else some x) ≡ some t
      → (a ≡ true) × (b ≡ true) × (c ≡ true) × (x ≡ t)
  refused false b c x t h = cc
  refused true false c x t h = cc
  refused true true false x t h = cc
  refused true true true x t h = (refl, refl, refl, cc)

  -- What an event that applies is, and what it leaves.
  applied :
      (s : RunSnapshot V) (e : EventEnvelope V) (t : RunSnapshot V)
      → apply s e ≡ some t
      → ((e.protocol_version == stream_version) ≡ true)
        × (holds (str_discrete e.run_id s.run_id) ≡ true)
        × ((e.seq == s.seq + 1) ≡ true)
        × (apply_event e.event (record s { seq = e.seq }) ≡ t)
  unfolding apply
  applied s e t h = refused _ _ _ _ t h

  pub applied-seq :
      (s : RunSnapshot V) (e : EventEnvelope V) (t : RunSnapshot V)
      → apply s e ≡ some t
      → (e.seq ≡ s.seq + 1) × (t.seq ≡ s.seq + 1)
  applied-seq s e t h =
      let parts = applied s e t h in
      let number = (==_iff e.seq (s.seq + 1)).0 parts.2 in
      (
        number,
        sym (ap (λ (u : RunSnapshot V). u.seq) parts.3)
            ∙ apply_event-seq e.event (record s { seq = e.seq })
            ∙ number,
      )

  -- The first event of a log that replays.
  pub first_applies :
      (s : RunSnapshot V) (e : EventEnvelope V) (log : List (EventEnvelope V)) (f : RunSnapshot V)
      → replay s (e ∷ log) ≡ some f
      → (t : RunSnapshot V) × (apply s e ≡ some t) × (replay t log ≡ some f)
  unfolding replay
  first_applies s e log f h = from (apply s e) h
    where
      from :
          (o : Option (RunSnapshot V))
          → elim o [ none ↦ none | some u ↦ replay u log ] ≡ some f
          → (t : RunSnapshot V) × (o ≡ some t) × (replay t log ≡ some f)
      from none k = cc
      from (some u) k = (u, refl, k)

  pub state_after-cons :
      (s : RunSnapshot V) (e : EventEnvelope V) (log : List (EventEnvelope V)) (n : ℕ)
      {t : RunSnapshot V}
      → apply s e ≡ some t
      → state_after s (e ∷ log) (suc n) ≡ state_after t log n
  unfolding state_after
  state_after-cons s e log n h = rw (state_after, h) refl

  -- An event of the log takes the state before it to the one after it.
  pub log-step :
      (s : RunSnapshot V) (log : List (EventEnvelope V)) (f : RunSnapshot V) (n : ℕ)
      (e : EventEnvelope V)
      → replay s log ≡ some f
      → get_elem? log n ≡ some e
      → apply (state_after s log n) e ≡ some (state_after s log (suc n))
  unfolding state_after
  log-step s [] f n e h k = cc
  log-step s (x ∷ log) f zero e h k =
      let first = first_applies s x log f h in
      rw (state_after-cons s x log zero first.1) (ap (apply s) (sym (the_same k)) ∙ first.1)
    where
      the_same : some x ≡ some e → x ≡ e
      the_same q = cc
  log-step s (x ∷ log) f (suc n) e h k =
      let first = first_applies s x log f h in
      rw (state_after-cons s x log n first.1, state_after-cons s x log (suc n) first.1)
        (log-step first.0 log f n e first.2 k)

  pub state_after-seq :
      (s : RunSnapshot V) (log : List (EventEnvelope V)) (f : RunSnapshot V) (n : ℕ)
      → replay s log ≡ some f
      → n ≤ length log
      → (state_after s log n).seq ≡ s.seq + n
  unfolding state_after
  state_after-seq s log f zero h k = omega arith
  state_after-seq s [] f (suc n) h k = absurd (omega (arith, k))
  state_after-seq s (x ∷ log) f (suc n) h k =
      let first = first_applies s x log f h in
      rw (state_after-cons s x log n first.1) (
        omega (
          arith,
          state_after-seq first.0 log f n first.2 (omega (arith, k)),
          (applied-seq s x first.0 first.1).1,
        ))

  put_item-public :
      (item : WorkItem V) (s : RunSnapshot V)
      → put_item item (public_snapshot s) ≡ public_snapshot (put_item item s)
  unfolding public_snapshot put_item
  put_item-public item s = elim (Bool-cases (has_item item.id s.items)) [
    | inl e ↦ rw e refl
    | inr e ↦ elim (Bool-cases (leb ui_retained_items (length s.items))) [
      | inl f ↦ rw (e, f) refl
      | inr f ↦ rw (e, f) refl
    ]
  ]

  apply_event-public :
      (event : RunEvent V) (s : RunSnapshot V)
      → apply_event (public_run_event event) (public_snapshot s)
        ≡ public_snapshot (apply_event event s)
  unfolding public_snapshot public_run_event apply_event with_content
  apply_event-public run_started s = refl
  apply_event-public (step_started step) s = refl
  apply_event-public (item_started item) s = put_item-public item s
  apply_event-public (item_updated item) s = put_item-public item s
  apply_event-public (item_completed item) s = put_item-public item s
  apply_event-public (text_delta id text) s = refl
  apply_event-public (tool_arguments_delta id call_id name delta) s = refl
  apply_event-public (tool_output_delta id text) s = refl
  apply_event-public (run_finished outcome) s = refl
  apply_event-public input_applied s = refl
  apply_event-public (step_finished step) s = refl

  -- What the public view hides does not matter to applying an event.
  pub apply-public :
      (s : RunSnapshot V) (e : EventEnvelope V) (t : RunSnapshot V)
      → apply s e ≡ some t
      → apply (public_snapshot s) (public_event e) ≡ some (public_snapshot t)
  unfolding apply public_event public_snapshot
  apply-public s e t h =
      let parts = applied s e t h in
      rw (parts.0, parts.1, parts.2)
        (ap some
          (apply_event-public e.event (record s { seq = e.seq }) ∙ ap public_snapshot parts.3))
