-- ===== src/Application/Registry/Prunings.antt =====
-- packages/application/src/service.rs: what a pruning of the registry leaves as it is.
use mona_agent_core.Prelude.{
  ℕ, ◌≡◌, refl, sym, ap, ◌∙◌, Option, none, some, List, [], ◌∷◌, map, retain,
}
use mona_agent_core.Prelude.Strings.{Str, str_discrete}
use mona_agent_core.Prelude.Maps.{get, remove, get-remove_same, get-remove_other}
use mona_agent_core.Application.Registry.{
  Registered, State, RegistryConfig, drop_run, drop_runs, prune, is_expired,
}
use mona_agent_core.Application.Registry.Consistency.{none-some}

-- What is in the registry after runs were dropped was there before.
drop_run-kept :
    (k id : Str) (run : Registered) (state : State)
    → get id (drop_run k state).runs ≡ some run
    → get id state.runs ≡ some run
unfolding drop_run
drop_run-kept k id run state h = from (get k state.runs) h
  where
    from :
        (o : Option Registered)
        → get id
            (elim o as (λ x. State) [
              | none ↦ state
              | some r ↦ record state {
                runs = remove k state.runs;
                requests = remove r.request.request_id state.requests;
              }
            ]).runs
          ≡ some run
        → get id state.runs ≡ some run
    from none q = q
    from (some r) q = elim (str_discrete k id) [
      | yes same ↦ absurd (
          none-some
            (ap (λ (x : Str). get x (remove k state.runs)) (sym same)
              ∙ get-remove_same k state.runs)
            q)
      | no other ↦ sym (get-remove_other k id state.runs other) ∙ q
    ]

drop_runs-kept :
    (ids : List Str) (id : Str) (run : Registered) (state : State)
    → get id (drop_runs ids state).runs ≡ some run
    → get id state.runs ≡ some run
unfolding drop_runs
drop_runs-kept [] id run state h = h
drop_runs-kept (k ∷ ids) id run state h =
    drop_run-kept k id run state (drop_runs-kept ids id run (drop_run k state) h)

pub prune-kept :
    (config : RegistryConfig) (now : ℕ) (id : Str) (run : Registered) (state : State)
    → get id (prune config now state).runs ≡ some run
    → get id state.runs ≡ some run
unfolding prune
prune-kept config now id run state h =
    drop_runs-kept (map (λ e. e.0) (retain (λ e. is_expired config now e.1) state.runs)) id run
      state h

drop_run-closed : (k : Str) (state : State) → (drop_run k state).closed ≡ state.closed
unfolding drop_run
drop_run-closed k state = from (get k state.runs)
  where
    from :
        (o : Option Registered)
        → (elim o as (λ x. State) [
          | none ↦ state
          | some r ↦ record state {
            runs = remove k state.runs;
            requests = remove r.request.request_id state.requests;
          }
        ]).closed
          ≡ state.closed
    from none = refl
    from (some r) = refl

drop_runs-closed : (ids : List Str) (state : State) → (drop_runs ids state).closed ≡ state.closed
unfolding drop_runs
drop_runs-closed [] state = refl
drop_runs-closed (k ∷ ids) state = drop_runs-closed ids (drop_run k state) ∙ drop_run-closed k state

pub prune-closed :
    (config : RegistryConfig) (now : ℕ) (state : State)
    → (prune config now state).closed ≡ state.closed
unfolding prune
prune-closed config now state =
    drop_runs-closed (map (λ e. e.0) (retain (λ e. is_expired config now e.1) state.runs)) state
