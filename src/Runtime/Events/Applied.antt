-- ===== src/Runtime/Events/Applied.antt =====
-- RunSnapshot::apply of packages/api/src/event.rs: the laws of applying events one after another.
use mona_agent_core.Prelude.{
  suc, ◌+◌, ◌-◌, ◌≤◌, ◌<◌, ◌≡◌, refl, sym, ap, ◌∙◌, inl, inr, ite, Bool, true, false, Option, none,
  some, List, [], ◌∷◌, ◌++◌, arith, leb, if◌then◌else◌, →holds, Bool-cases, leb→le, ==_iff, length,
  drop, length-append,
}
use mona_agent_core.Prelude.Strings.{Str, str_discrete}
use mona_agent_core.Api.Event.{
  WorkItem, RunEvent, EventEnvelope, RunSnapshot, ui_retained_items, terminal, run_started,
  step_started, item_started, item_updated, item_completed, text_delta, tool_arguments_delta,
  tool_output_delta, input_applied, step_finished, run_finished,
}
use mona_agent_core.Api.Event.Snapshot.{
  apply, apply_event, has_item, put_item, change_item, evict, remove_terminal, with_content,
}
use mona_agent_core.Runtime.Events.{envelope}

module _ {V : Type 0} where
  -- A client that applies every event; `none` once an event does not follow.
  unfoldable pub replay : RunSnapshot V → List (EventEnvelope V) → Option (RunSnapshot V)
  unfolding apply
  replay s [] = some s
  replay s (e ∷ es) = elim (apply s e) [ none ↦ none | some t ↦ replay t es ]

  last_step : (o : Option (RunSnapshot V)) → elim o [ none ↦ none | some t ↦ some t ] ≡ o
  last_step none = refl
  last_step (some t) = refl

  same : {s t : RunSnapshot V} → some s ≡ some t → s ≡ t
  same h = cc

  same_list : {l m : List (WorkItem V)} → some l ≡ some m → l ≡ m
  same_list h = cc

  pub replay-snoc :
      (s : RunSnapshot V) (es : List (EventEnvelope V)) (e : EventEnvelope V) (t : RunSnapshot V)
      → replay s es ≡ some t
      → replay s (es ++ (e ∷ [])) ≡ apply t e
  unfolding replay
  replay-snoc s [] e t h = last_step (apply s e) ∙ ap (λ u. apply u e) (same h)
  replay-snoc s (x ∷ es) e t h = from (λ u. replay-snoc u es e t) (apply s x) h
    where
      from :
          ((u : RunSnapshot V) → replay u es ≡ some t → replay u (es ++ (e ∷ [])) ≡ apply t e)
          → (o : Option (RunSnapshot V)) → elim o [ none ↦ none | some u ↦ replay u es ] ≡ some t
          → elim o [ none ↦ none | some u ↦ replay u (es ++ (e ∷ [])) ] ≡ apply t e
      from ih none k = cc
      from ih (some u) k = ih u k

  -- The next event of a snapshot applies to it.
  pub apply-envelope :
      (s : RunSnapshot V) (event : RunEvent V)
      → apply s (envelope s event) ≡ some (apply_event event (record s { seq = s.seq + 1 }))
  unfolding apply
  apply-envelope s event =
      rw (→holds (str_discrete s.run_id s.run_id) refl, (==_iff (s.seq + 1) (s.seq + 1)).1 refl)
        refl

  length-change_item :
      (id : Str) (f : WorkItem V → WorkItem V) (is : List (WorkItem V))
      → length (change_item id f is) ≡ length is
  unfolding change_item
  length-change_item id f [] = refl
  length-change_item id f (i ∷ is) = from (length-change_item id f is) (str_discrete i.id id)
    where
      from :
          length (change_item id f is) ≡ length is
          → (d : Dec (i.id ≡ id))
          → length (ite d (f i ∷ is) (i ∷ change_item id f is)) ≡ suc (length is)
      from ih (yes e) = refl
      from ih (no e) = ap suc ih

  length-remove_terminal :
      (is left : List (WorkItem V)) → remove_terminal is ≡ some left → suc (length left) ≡ length is
  unfolding remove_terminal
  length-remove_terminal [] left h = cc
  length-remove_terminal (i ∷ is) left h =
      from (terminal i.state) (remove_terminal is) (length-remove_terminal is) h
    where
      from :
          (b : Bool) (o : Option (List (WorkItem V)))
          → ((l : List (WorkItem V)) → o ≡ some l → suc (length l) ≡ length is)
          → (if b then some is else elim o [ none ↦ none | some l ↦ some (i ∷ l) ]) ≡ some left
          → suc (length left) ≡ suc (length is)
      from true o ih k = ap (λ l. suc (length l)) (sym (same_list k))
      from false none ih k = cc
      from false (some l) ih k = ap (λ m. suc (length m)) (sym (same_list k)) ∙ ap suc (ih l refl)

  -- Eviction makes room for one item.
  length-evict : (is : List (WorkItem V)) → length (evict is) ≡ length is - 1
  unfolding evict
  length-evict is = from is (remove_terminal is) refl
    where
      from :
          (is : List (WorkItem V)) (o : Option (List (WorkItem V)))
          → remove_terminal is ≡ o
          → length (elim o [ none ↦ drop 1 is | some left ↦ left ]) ≡ length is - 1
      from [] none h = omega arith
      from (i ∷ is) none h = omega arith
      from is (some left) h = omega (arith, length-remove_terminal is left h)

  put_item-length :
      (item : WorkItem V) (s : RunSnapshot V)
      → length s.items ≤ ui_retained_items
      → length (put_item item s).items ≤ ui_retained_items
  unfolding put_item
  put_item-length item s h = elim (Bool-cases (has_item item.id s.items)) [
    | inl e ↦ rw e (omega (arith, length-change_item item.id (λ old. item) s.items))
    | inr e ↦ elim (Bool-cases (leb ui_retained_items (length s.items))) [
      | inl f ↦
          rw (e, f)
            (omega (
              arith,
              h,
              length-append (evict s.items) (item ∷ []),
              length-evict s.items,
              leb→le ui_retained_items (length s.items) f,
            ))
      | inr f ↦ rw (e, f) (omega (arith, length-append s.items (item ∷ []), small f))
    ]
  ]
    where
      small : leb ui_retained_items (length s.items) ≡ false → length s.items < ui_retained_items
      small f = ground (arith, f)

  pub apply_event-length :
      (event : RunEvent V) (s : RunSnapshot V)
      → length s.items ≤ ui_retained_items
      → length (apply_event event s).items ≤ ui_retained_items
  unfolding apply_event with_content
  apply_event-length run_started s h = h
  apply_event-length (step_started step) s h = h
  apply_event-length (item_started item) s h = put_item-length item s h
  apply_event-length (item_updated item) s h = put_item-length item s h
  apply_event-length (item_completed item) s h = put_item-length item s h
  apply_event-length (text_delta id text) s h = omega (arith, length-change_item id _ s.items, h)
  apply_event-length (tool_arguments_delta id call_id name delta) s h =
      omega (arith, length-change_item id _ s.items, h)
  apply_event-length (tool_output_delta id text) s h =
      omega (arith, length-change_item id _ s.items, h)
  apply_event-length (run_finished outcome) s h = h
  apply_event-length input_applied s h = h
  apply_event-length (step_finished step) s h = h
