-- ===== src/Application/Following.antt =====
-- packages/application/src: a client follows its run, in every order of events, losses and turns.
use mona_agent_core.Prelude.{
  ℕ, ◌≡◌, refl, sym, ap, ◌∙◌, ◌⊎◌, inl, inr, Bool, true, false, Option, none, some, List, [], ◌∷◌,
  arith, ltb, if◌then◌else◌, get_elem?,
}
use mona_agent_core.Prelude.Strings.{Str}
use mona_agent_core.Api.Event.{RunSnapshot, EventEnvelope}
use mona_agent_core.Api.Event.Snapshot.{apply}
use mona_agent_core.Api.Event.Snapshot as Snapshot
use mona_agent_core.Application.Protocol.{
  public_snapshot, ApplicationErrorCode, failure, ApplicationError, StreamFrame,
}
use mona_agent_core.Application.Entries.{ApplicationConfig, RunData}
use mona_agent_core.Application.Entries as Entries
use mona_agent_core.Application.Subscriptions.{
  Subscription, Turn, returns, ends, waits, next, choose, deliver, turn,
}
use mona_agent_core.Application.Subscriptions as Subscriptions
use mona_agent_core.Application.Histories.{state_after}
use mona_agent_core.Application.Positions.{public_at, Follows, EntryOk}
use mona_agent_core.Application.Collector.{resync-EntryOk, fault-EntryOk, accept-EntryOk}
use mona_agent_core.Application.Clients.{
  World, Action, delivers, lags, ends_run, polls, receive, act, act_all, follow,
}
use mona_agent_core.Application.Frames.{Synced, choose-Synced}
use mona_agent_core.Runtime.Events.Applied.{replay}

-- The data of a run that was just started, before any client subscribes.
abbrev pub started : {V : Type 0} → Str → World V
started run_id = record {
  entry = Entries.new run_id;
  sub = record { cursor = 0; initial = true; ended = false };
  view = none;
}

-- What a client that names a cursor has kept from before.
unfoldable pub Resumes :
    {V : Type 0} → Str → List (EventEnvelope V) → Option ℕ → Option (RunSnapshot V) → Type 0
Resumes run_id log none view = Unit
Resumes run_id log (some after) view = view ≡ some (public_at run_id log after)

same_sub : {x y : Subscription} → ◌≡◌ {A = ApplicationError ⊎ Subscription} (inr x) (inr y) → x ≡ y
same_sub h = cc

module _ {V : Type 0} (config : ApplicationConfig) (size : EventEnvelope V → Option ℕ)
    (run_id : Str) (log : List (EventEnvelope V)) (final : RunSnapshot V)
    (replays : replay (Snapshot.new run_id) log ≡ some final) where
  next-Synced :
      (data' : RunData V) (sub : Subscription) (view : Option (RunSnapshot V))
      → EntryOk run_id log data'
      → Synced run_id log sub view
      → Synced run_id log (next sub data').0 (follow (next sub data').1 view)
  unfolding next follow
  next-Synced data' sub view ok synced = by_end sub.ended
    where
      by_turn :
          (c : Option (StreamFrame V) × Bool)
          → (choose sub data').0 ≡ c.0
          → Synced run_id log (turn sub c).0 (follow (turn sub c).1 view)
      by_turn (some frame, e) p =
          choose-Synced run_id log final replays data' ok sub view frame e synced p
      by_turn (none, true) p = record { same_view = synced.same_view }
      by_turn (none, false) p = synced

      by_end :
          (e : Bool)
          → Synced run_id log
              (if◌then◌else◌ {A = Subscription × Turn V} e
                (sub, ends)
                (turn sub (choose sub data'))).0
              (follow
                (if◌then◌else◌ {A = Subscription × Turn V} e
                  (sub, ends)
                  (turn sub (choose sub data'))).1
                view)
      by_end true = synced
      by_end false = by_turn (choose sub data') refl

  act-EntryOk :
      (a : Action) (w : World V)
      → EntryOk run_id log w.entry
      → EntryOk run_id log (act config size run_id log a w).entry
  unfolding act
  act-EntryOk (delivers n now k) w ok = from (get_elem? log n) refl
    where
      from :
          (o : Option (EventEnvelope V))
          → get_elem? log n ≡ o
          → EntryOk run_id log (receive config size run_id log now k o w.entry)
      from none p = ok
      from (some e) p = accept-EntryOk run_id log final replays config size now k n e w.entry p ok
  act-EntryOk (lags now k) w ok = resync-EntryOk run_id log final replays now k w.entry ok
  act-EntryOk (ends_run now k) w ok =
      fault-EntryOk run_id log final replays now _
        (resync-EntryOk run_id log final replays now k w.entry ok)
  act-EntryOk polls w ok = ok

  act-Synced :
      (a : Action) (w : World V)
      → EntryOk run_id log w.entry
      → Synced run_id log w.sub w.view
      → Synced run_id log (act config size run_id log a w).sub (act config size run_id log a w).view
  unfolding act
  act-Synced (delivers n now k) w ok s = s
  act-Synced (lags now k) w ok s = s
  act-Synced (ends_run now k) w ok s = s
  act-Synced polls w ok s = next-Synced w.entry w.sub w.view ok s

  keeps :
      (as' : List Action) (w : World V)
      → EntryOk run_id log w.entry
      → Synced run_id log w.sub w.view
      → EntryOk run_id log (act_all config size run_id log as' w).entry
        × Synced run_id log
            (act_all config size run_id log as' w).sub
            (act_all config size run_id log as' w).view
  unfolding act_all
  keeps [] w ok s = (ok, s)
  keeps (a ∷ as') w ok s =
      keeps as' (act config size run_id log a w) (act-EntryOk a w ok) (act-Synced a w ok s)

  started-EntryOk : EntryOk run_id log (started run_id).entry
  unfolding Entries.new Follows state_after public_snapshot Snapshot.new
  started-EntryOk = record {
    position = 0;
    within = omega arith;
    current = refl;
    start = 0;
    journal = refl;
    floor = omega arith;
  }

  new-Synced :
      (after : Option ℕ) (data' : RunData V) (sub : Subscription) (view : Option (RunSnapshot V))
      → Subscriptions.new after data' ≡ inr sub
      → Resumes run_id log after view
      → Synced run_id log sub view
  unfolding Subscriptions.new Resumes
  new-Synced none data' sub view h r = record {
    same_view = inl (sym (ap (λ (s : Subscription). s.initial) (same_sub h)));
  }
  new-Synced (some after) data' sub view h r = from (ltb data'.snapshot.seq after) h
    where
      resumed : Subscription
      resumed = record { cursor = after; initial = false; ended = false }

      from :
          (b : Bool)
          → ◌≡◌ {A = ApplicationError ⊎ Subscription}
              (if b
                then inl
                    (failure ApplicationErrorCode.invalid_request "cursor is ahead of this run")
                else inr resumed)
              (inr sub)
          → Synced run_id log sub view
      from true k = cc
      from false k = record {
        same_view =
            inr (r ∙ ap (λ (s : Subscription). some (public_at run_id log s.cursor)) (same_sub k));
      }

  -- Take a run whose log of events replays, the data that the application keeps of it, and a
  -- subscription accepted after any actions, by a client that names no cursor or that has the public
  -- snapshot of the cursor it names. After any further actions, in any order (events delivered, late,
  -- twice or never, lags, snapshots taken at any time, turns of the client), the client either has not
  -- had its first frame or has exactly the public snapshot that the run had at its cursor.
  pub act_all-Synced :
      (before later : List Action) (after : Option ℕ) (sub : Subscription)
      (view : Option (RunSnapshot V))
      → Subscriptions.new after (act_all config size run_id log before (started run_id)).entry
        ≡ inr sub
      → Resumes run_id log after view
      → Synced run_id log
          (act_all config size run_id log later
            (record (act_all config size run_id log before (started run_id)) {
              sub = sub;
              view = view;
            })).sub
          (act_all config size run_id log later
            (record (act_all config size run_id log before (started run_id)) {
              sub = sub;
              view = view;
            })).view
  act_all-Synced before later after sub view h r =
      let first = keeps before (started run_id) started-EntryOk (record { same_view = inl refl }) in
      let entry = (act_all config size run_id log before (started run_id)).entry in
      (keeps later
        (record (act_all config size run_id log before (started run_id)) { sub = sub; view = view })
        first.0 (new-Synced after entry sub view h r)).1
