-- ===== src/Runtime/Events/Replay.antt =====
-- packages/runtime/src/events.rs and RunSnapshot::apply of packages/api/src/event.rs: the stream of a
-- run and its snapshot.
use mona_agent_core.Prelude.{
  ◌+◌, ◌≤◌, ◌≡◌, refl, sym, subst, ◌∙◌, inl, inr, true, false, some, List, [], ◌∷◌, ◌++◌, arith,
  is_some, Bool-cases, length, length-append,
}
use mona_agent_core.Prelude.Strings.{Str}
use mona_agent_core.Api.Event.{
  WorkItem, RunEvent, RunSnapshot, ui_retained_items, run_started, step_started, item_started,
  item_updated, item_completed, text_delta, tool_arguments_delta, tool_output_delta, input_applied,
  step_finished, run_finished,
}
use mona_agent_core.Api.Event.Snapshot.{
  apply, apply_event, has_item, put_item, change_item, evict, remove_terminal, with_content,
}
use mona_agent_core.Api.Event.Snapshot as Snapshot
use mona_agent_core.Runtime.Events.{EventBus, publish, publish_all, envelope, track}
use mona_agent_core.Runtime.Events as Events
use mona_agent_core.Runtime.Events.Runs.{Env, Operation, perform, perform_all, perform-Published}
use mona_agent_core.Runtime.Events.Applied.{apply-envelope, apply_event-length, replay, replay-snoc}

module _ {V : Type 0} where
  -- What holds of a bus at every moment of its run: the events sent so far, applied one after another
  -- to an empty snapshot, give the snapshot of the bus, whose number is how many there are; and the
  -- items are bounded.
  pub record Mirrors (run_id : Str) (bus : EventBus V) : Type 0 where
    pub replayed : replay (Snapshot.new run_id) bus.sent ≡ some bus.state
    pub counted : bus.state.seq ≡ length bus.sent
    pub bounded : length bus.state.items ≤ ui_retained_items

  put_item-seq : (item : WorkItem V) (s : RunSnapshot V) → (put_item item s).seq ≡ s.seq
  unfolding put_item
  put_item-seq item s = ground arith

  pub apply_event-seq : (event : RunEvent V) (s : RunSnapshot V) → (apply_event event s).seq ≡ s.seq
  unfolding apply_event with_content
  apply_event-seq run_started s = refl
  apply_event-seq (step_started step) s = refl
  apply_event-seq (item_started item) s = put_item-seq item s
  apply_event-seq (item_updated item) s = put_item-seq item s
  apply_event-seq (item_completed item) s = put_item-seq item s
  apply_event-seq (text_delta id text) s = refl
  apply_event-seq (tool_arguments_delta id call_id name delta) s = refl
  apply_event-seq (tool_output_delta id text) s = refl
  apply_event-seq (run_finished outcome) s = refl
  apply_event-seq input_applied s = refl
  apply_event-seq (step_finished step) s = refl

  -- What publish does before the end of the run, and after it.
  abbrev pub published : RunEvent V → EventBus V → EventBus V
  published event bus = record {
    state = apply_event event (record bus.state { seq = bus.state.seq + 1 });
    active = track event bus.active;
    sent = bus.sent ++ (envelope bus.state event ∷ []);
  }

  pub publish-open :
      (event : RunEvent V) (bus : EventBus V)
      → is_some bus.state.outcome ≡ false
      → publish event bus ≡ published event bus
  unfolding publish
  publish-open event bus h = rw (h, apply-envelope bus.state event) refl

  pub publish-closed :
      (event : RunEvent V) (bus : EventBus V)
      → is_some bus.state.outcome ≡ true
      → publish event bus ≡ bus
  unfolding publish
  publish-closed event bus h = rw h refl

  publish-Mirrors :
      (run_id : Str) (event : RunEvent V) (bus : EventBus V)
      → Mirrors run_id bus
      → Mirrors run_id (publish event bus)
  publish-Mirrors run_id event bus m = elim (Bool-cases (is_some bus.state.outcome)) [
    | inl e ↦ subst (Mirrors run_id) (sym (publish-closed event bus e)) m
    | inr e ↦ subst (Mirrors run_id) (sym (publish-open event bus e)) (record {
      replayed =
          replay-snoc (Snapshot.new run_id) bus.sent (envelope bus.state event) bus.state m.replayed
          ∙ apply-envelope bus.state event;
      counted = omega (
        arith,
        apply_event-seq event (record bus.state { seq = bus.state.seq + 1 }),
        m.counted,
        length-append bus.sent (envelope bus.state event ∷ []),
      );
      bounded = apply_event-length event (record bus.state { seq = bus.state.seq + 1 }) m.bounded;
    })
  ]

  publish_all-Mirrors :
      (run_id : Str) (events : List (RunEvent V)) (bus : EventBus V)
      → Mirrors run_id bus
      → Mirrors run_id (publish_all events bus)
  unfolding publish_all
  publish_all-Mirrors run_id [] bus m = m
  publish_all-Mirrors run_id (e ∷ es) bus m =
      publish_all-Mirrors run_id es (publish e bus) (publish-Mirrors run_id e bus m)

  new-Mirrors : (run_id : Str) → Mirrors run_id (Events.new run_id)
  unfolding Events.new replay Snapshot.new
  new-Mirrors run_id = record { replayed = refl; counted = refl; bounded = omega arith }

module _ {V : Type 0} (env : Env V) where
  keeps-Mirrors :
      (run_id : Str) (ops : List (Operation V)) (bus : EventBus V)
      → Mirrors run_id bus
      → Mirrors run_id (perform_all env ops bus)
  unfolding perform_all
  keeps-Mirrors run_id [] bus m = m
  keeps-Mirrors run_id (op ∷ ops) bus m =
      let step = perform-Published env bus op in
      keeps-Mirrors run_id ops (perform env op bus)
        (subst (Mirrors run_id) (sym step.published) (publish_all-Mirrors run_id step.events bus m))

  -- After any calls of a new bus, a client that starts from an empty snapshot and applies the events
  -- in the order they were sent accepts each of them and ends with the snapshot of the bus; the number
  -- of that snapshot is how many events were sent, and it keeps 256 items at most.
  pub perform_all-Mirrors :
      (run_id : Str) (ops : List (Operation V))
      → Mirrors run_id (perform_all env ops (Events.new run_id))
  perform_all-Mirrors run_id ops = keeps-Mirrors run_id ops (Events.new run_id) (new-Mirrors run_id)
