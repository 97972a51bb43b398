-- ===== src/Runtime/Events/Finish.antt =====
-- packages/runtime/src/events.rs: the end of a run.
use mona_agent_core.Prelude.{
  ℕ, suc, ◌+◌, ◌≡◌, refl, sym, ap, subst, ◌∙◌, true, none, some, List, [], ◌∷◌, ◌++◌, map,
  append_assoc, append-nil, arith, is_some, length, length-map, All,
}
use mona_agent_core.Prelude.Strings.{Str}
use mona_agent_core.Prelude.Maps.{values}
use mona_agent_core.Api.Checkpoint.{RunStatus}
use mona_agent_core.Api.Event.{
  WorkItem, ItemContent, ItemState, RunEvent, EventEnvelope, RunSnapshot, RunOutcome,
  stream_version, terminal, run_finished, agent_message, running, item_completed,
}
use mona_agent_core.Api.Event.Snapshot.{apply_event, put_item}
use mona_agent_core.Runtime.Events.{
  EventBus, publish, publish_all, envelope, finish, close, closing_state, track,
}
use mona_agent_core.Runtime.Events.Replay.{publish-open, publish-closed}
use mona_agent_core.Runtime.Events.Runs.{Env, Operation, perform_all, perform-Published}

module _ {V : Type 0} where
  -- Events numbered from `n` on, as the run of this id sends them.
  unfoldable pub numbered : Str → ℕ → List (RunEvent V) → List (EventEnvelope V)
  numbered run_id n [] = []
  numbered run_id n (e ∷ es) =
      record { protocol_version = stream_version; run_id = run_id; seq = n; event = e }
      ∷ numbered run_id (n + 1) es

  numbered-append :
      (run_id : Str) (n : ℕ) (es : List (RunEvent V)) (e : RunEvent V)
      → numbered run_id n (es ++ (e ∷ []))
        ≡ numbered run_id n es ++ numbered run_id (n + length es) (e ∷ [])
  unfolding numbered
  numbered-append run_id n [] e = ap (λ (m : ℕ). numbered run_id m (e ∷ [])) (the_same n)
    where
      the_same : (n : ℕ) → n ≡ n + 0
      the_same n = omega arith
  numbered-append run_id n (x ∷ es) e =
      ap (λ (rest : List (EventEnvelope V)). first ∷ rest)
        (numbered-append run_id (n + 1) es e
          ∙ ap (λ (m : ℕ). numbered run_id (n + 1) es ++ numbered run_id m (e ∷ []))
              (later n (length es)))
    where
      first : EventEnvelope V
      first = record { protocol_version = stream_version; run_id = run_id; seq = n; event = x }

      later : (n k : ℕ) → n + 1 + k ≡ n + suc k
      later n k = omega arith

  put_item-fields :
      (item : WorkItem V) (s : RunSnapshot V)
      → ((put_item item s).outcome ≡ s.outcome)
        × ((put_item item s).run_id ≡ s.run_id)
        × ((put_item item s).seq ≡ s.seq)
  unfolding put_item
  put_item-fields item s = ground arith

  -- A bus before the end of its run.
  pub record IsOpen (run_id : Str) (n : ℕ) (bus : EventBus V) : Type 0 where
    pub no_outcome : bus.state.outcome ≡ none
    pub same_run : bus.state.run_id ≡ run_id
    pub next : bus.state.seq + 1 ≡ n

  closes : RunStatus → WorkItem V → WorkItem V
  closes status item = record item { state = closing_state status item }

  -- One completion.
  publish-close :
      (status : RunStatus) (item : WorkItem V) (run_id : Str) (n : ℕ) (bus : EventBus V)
      → IsOpen run_id n bus
      → IsOpen run_id (n + 1) (publish (close status item) bus)
        × ((publish (close status item) bus).sent
            ≡ bus.sent ++ numbered run_id n (close status item ∷ []))
  unfolding close numbered apply_event closes
  publish-close status item run_id n bus h =
      rw (publish-open (close status item) bus (ap is_some h.no_outcome)) (
        record {
          no_outcome = fields.0 ∙ h.no_outcome;
          same_run = fields.1 ∙ h.same_run;
          next = omega (arith, fields.2, h.next);
        },
        rw (h.same_run, h.next) refl,
      )
    where
      fields :
          ((put_item (closes status item) (record bus.state { seq = bus.state.seq + 1 })).outcome
            ≡ bus.state.outcome)
          × ((put_item (closes status item) (record bus.state { seq = bus.state.seq + 1 })).run_id
              ≡ bus.state.run_id)
          × ((put_item (closes status item) (record bus.state { seq = bus.state.seq + 1 })).seq
              ≡ bus.state.seq + 1)
      fields = put_item-fields (closes status item) (record bus.state { seq = bus.state.seq + 1 })

  publish_all-close :
      (status : RunStatus) (items : List (WorkItem V)) (run_id : Str) (n : ℕ) (bus : EventBus V)
      → IsOpen run_id n bus
      → IsOpen run_id (n + length items) (publish_all (map (close status) items) bus)
        × ((publish_all (map (close status) items) bus).sent
            ≡ bus.sent ++ numbered run_id n (map (close status) items))
  unfolding publish_all numbered
  publish_all-close status [] run_id n bus h =
      (subst (λ (m : ℕ). IsOpen run_id m bus) (the_same n) h, sym (append-nil bus.sent))
    where
      the_same : (n : ℕ) → n ≡ n + 0
      the_same n = omega arith
  publish_all-close status (i ∷ is) run_id n bus h =
      let first = publish-close status i run_id n bus h in
      let rest =
        publish_all-close status is run_id (n + 1) (publish (close status i) bus) first.0 in
      (
        subst (λ (m : ℕ). IsOpen run_id m (publish_all (map (close status) (i ∷ is)) bus))
            (later n (length is)) rest.0,
        rest.1
            ∙ ap
                (λ (sent : List (EventEnvelope V)).
                  sent ++ numbered run_id (n + 1) (map (close status) is))
                first.1
            ∙ append_assoc bus.sent (numbered run_id n (close status i ∷ []))
                (numbered run_id (n + 1) (map (close status) is)),
      )
    where
      later : (n k : ℕ) → n + 1 + k ≡ n + suc k
      later n k = omega arith

  closing_state-terminal :
      (status : RunStatus) (item : WorkItem V) → terminal (closing_state status item) ≡ true
  unfolding closing_state
  closing_state-terminal status item = from item.content item.state status
    where
      of_text :
          (r : RunStatus)
          → terminal (elim r [ RunStatus.cancelled ↦ ItemState.cancelled | _ ↦ ItemState.failed ])
            ≡ true
      of_text r = ground arith

      of_tool :
          (s : ItemState)
          → terminal (elim s [ running ↦ ItemState.unknown | _ ↦ ItemState.skipped ]) ≡ true
      of_tool s = ground arith

      from :
          (c : ItemContent V) (s : ItemState) (r : RunStatus)
          → terminal (elim c [
            | agent_message t ↦ (elim r [
              | RunStatus.cancelled ↦ ItemState.cancelled
              | _ ↦ ItemState.failed
            ])
            | ItemContent.tool_call t ↦ (elim s [
              | running ↦ ItemState.unknown
              | _ ↦ ItemState.skipped
            ])
          ])
            ≡ true
      from (agent_message t) s r = of_text r
      from (ItemContent.tool_call t) s r = of_tool s

  abbrev pub without_state : WorkItem V → Str × ℕ × ItemContent V
  without_state item = (item.id, item.step, item.content)

  -- How finish leaves a bus: the outcome, no active item, and after the events sent so far one
  -- completion of each item that was active, in a terminal state, then the end of the run.
  pub record Finished (outcome : RunOutcome) (bus after : EventBus V) : Type 0 where
    pub ended : after.state.outcome ≡ some outcome
    pub nothing_active : after.active ≡ []
    pub closed : List (WorkItem V)
    pub completions :
        after.sent
        ≡ bus.sent
          ++ numbered bus.state.run_id
              (bus.state.seq + 1)
              (map item_completed closed ++ (run_finished outcome ∷ []))
    pub settled : All (λ item. terminal item.state ≡ true) closed
    pub same_items : map without_state closed ≡ map without_state (values bus.active)

  all_settled :
      (status : RunStatus) (items : List (WorkItem V))
      → All (λ (item : WorkItem V). terminal item.state ≡ true) (map (closes status) items)
  unfolding closes
  all_settled status [] = tt
  all_settled status (i ∷ is) = (closing_state-terminal status i, all_settled status is)

  close-closes :
      (status : RunStatus) (items : List (WorkItem V))
      → map (close status) items ≡ map item_completed (map (closes status) items)
  unfolding close closes
  close-closes status [] = refl
  close-closes status (i ∷ is) = ap (λ es. close status i ∷ es) (close-closes status is)

  closes-same :
      (status : RunStatus) (items : List (WorkItem V))
      → map without_state (map (closes status) items) ≡ map without_state items
  unfolding closes
  closes-same status [] = refl
  closes-same status (i ∷ is) = ap (λ es. without_state i ∷ es) (closes-same status is)

  -- The end of the run after the completions.
  last_one :
      (events : List (RunEvent V)) (outcome : RunOutcome) (bus closed : EventBus V)
      → IsOpen bus.state.run_id (bus.state.seq + 1 + length events) closed
      → closed.sent ≡ bus.sent ++ numbered bus.state.run_id (bus.state.seq + 1) events
      → closed.sent ++ (envelope closed.state (run_finished outcome) ∷ [])
        ≡ bus.sent
          ++ numbered bus.state.run_id (bus.state.seq + 1) (events ++ (run_finished outcome ∷ []))
  unfolding numbered
  last_one events outcome bus closed o h =
      rw
        (
          h,
          o.same_run,
          o.next,
          numbered-append bus.state.run_id (bus.state.seq + 1) events (run_finished outcome),
        )
        (append_assoc bus.sent (numbered bus.state.run_id (bus.state.seq + 1) events) (
          numbered bus.state.run_id (bus.state.seq + 1 + length events)
            (run_finished outcome ∷ [])))

  -- Finishing a run that has no outcome yet gives it the outcome, leaves no active item, and sends one
  -- completion for each active item, in the order of their keys, with the same item in a terminal state
  -- and the next numbers of the run, and after them the end of the run.
  pub finish-Finished :
      (outcome : RunOutcome) (bus : EventBus V)
      → bus.state.outcome ≡ none
      → Finished outcome bus (finish outcome bus)
  unfolding finish numbered apply_event track
  finish-Finished outcome bus h =
      let closed =
        publish_all-close outcome.status (values bus.active) bus.state.run_id (bus.state.seq + 1)
          bus (record { no_outcome = h; same_run = refl; next = refl }) in
      rw
        (publish-open (run_finished outcome)
          (publish_all (map (close outcome.status) (values bus.active)) bus)
          (ap is_some closed.0.no_outcome))
        (record {
          ended = refl;
          nothing_active = refl;
          closed = map (closes outcome.status) (values bus.active);
          completions =
              last_one (map (close outcome.status) (values bus.active)) outcome bus
                (publish_all (map (close outcome.status) (values bus.active)) bus)
                (subst
                  (λ (k : ℕ).
                    IsOpen bus.state.run_id (bus.state.seq + 1 + k)
                      (publish_all (map (close outcome.status) (values bus.active)) bus))
                  (sym (length-map (close outcome.status) (values bus.active))) closed.0)
                closed.1
              ∙ ap
                  (λ (es : List (RunEvent V)).
                    bus.sent
                    ++ numbered bus.state.run_id (bus.state.seq + 1)
                        (es ++ (run_finished outcome ∷ [])))
                  (close-closes outcome.status (values bus.active));
          settled = all_settled outcome.status (values bus.active);
          same_items = closes-same outcome.status (values bus.active);
        })

  publish_all-closed :
      (events : List (RunEvent V)) (bus : EventBus V)
      → is_some bus.state.outcome ≡ true
      → publish_all events bus ≡ bus
  unfolding publish_all
  publish_all-closed [] bus h = refl
  publish_all-closed (e ∷ es) bus h = rw (publish-closed e bus h) (publish_all-closed es bus h)

module _ {V : Type 0} (env : Env V) where
  -- A bus whose run has an outcome is changed by no operation: the first outcome stays, and nothing is
  -- sent after it.
  pub perform_all-closed :
      (ops : List (Operation V)) (bus : EventBus V)
      → is_some bus.state.outcome ≡ true
      → perform_all env ops bus ≡ bus
  unfolding perform_all
  perform_all-closed [] bus h = refl
  perform_all-closed (op ∷ ops) bus h =
      let step = perform-Published env bus op in
      rw (step.published, publish_all-closed step.events bus h) (perform_all-closed ops bus h)
