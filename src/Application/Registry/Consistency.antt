-- ===== src/Application/Registry/Consistency.antt =====
-- packages/application/src/service.rs: the two maps of the registry always agree.
use mona_agent_core.Prelude.{
  ℕ, ◌≡◌, refl, sym, ap, subst, ◌∙◌, ◌≢◌, ◌⊎◌, inl, inr, false, Option, none, some, List, [], ◌∷◌,
  map, Option-cases, retain,
}
use mona_agent_core.Prelude.Strings.{Str, str_discrete}
use mona_agent_core.Prelude.Maps.{
  Map, get, insert, remove, get-insert_same, get-insert_other, get-remove_other, get-remove_same,
}
use mona_agent_core.Api.Error.{AgentError}
use mona_agent_core.Application.Registry.{
  StartRequest, Registered, State, RegistryConfig, empty, drop_run, drop_runs, prune, is_expired,
  register,
}

-- Each request names a run that was started for it, and each run is named by its request.
pub record Consistent (state : State) : Type 0 where
  pub named :
      (key id : Str)
      → get key state.requests ≡ some id
      → (run : Registered) × (get id state.runs ≡ some run) × (run.request.request_id ≡ key)
  pub requested :
      (id : Str) (run : Registered)
      → get id state.runs ≡ some run
      → get run.request.request_id state.requests ≡ some id

pub none-some : {A : Type 0} {o : Option A} {a : A} → o ≡ none → o ≢ some a
none-some h k = cc

pub injective : {A : Type 0} {a b : A} → some a ≡ some b → a ≡ b
injective h = cc

pub empty-Consistent : Consistent empty
unfolding get
empty-Consistent = record {
  named = λ key id h. absurd (none-some refl h);
  requested = λ id run h. absurd (none-some refl h);
}

-- A run and its request removed together.
pub removed-Consistent :
    (id : Str) (run : Registered) (state : State)
    → Consistent state
    → get id state.runs ≡ some run
    → Consistent (record state {
      runs = remove id state.runs;
      requests = remove run.request.request_id state.requests;
    })
removed-Consistent id run state ok here = record {
  named = named_after;
  requested = requested_after;
}
  where
    key : Str
    key = run.request.request_id

    named_after :
        (k i : Str)
        → get k (remove key state.requests) ≡ some i
        → (r : Registered) × (get i (remove id state.runs) ≡ some r) × (r.request.request_id ≡ k)
    named_after k i h = elim (str_discrete key k) [
      | yes q ↦ absurd (
          none-some
            (ap (λ (x : Str). get x (remove key state.requests)) (sym q)
              ∙ get-remove_same key state.requests)
            h)
      | no q ↦
          (let old = ok.named k i (sym (get-remove_other key k state.requests q) ∙ h) in
            (
              old.0,
              get-remove_other id i state.runs (λ z. q (
                    ap (λ (r : Registered). r.request.request_id)
                      (injective (sym here ∙ ap (λ (x : Str). get x state.runs) z ∙ old.1))
                    ∙ old.2))
                  ∙ old.1,
              old.2,
            ))
    ]

    requested_after :
        (i : Str) (r : Registered)
        → get i (remove id state.runs) ≡ some r
        → get r.request.request_id (remove key state.requests) ≡ some i
    requested_after i r h = elim (str_discrete id i) [
      | yes q ↦ absurd (
          none-some
            (ap (λ (x : Str). get x (remove id state.runs)) (sym q) ∙ get-remove_same id state.runs)
            h)
      | no q ↦
          (let old = ok.requested i r (sym (get-remove_other id i state.runs q) ∙ h) in
            get-remove_other key r.request.request_id state.requests (λ z. q (
              injective
                (sym (ok.requested id run here) ∙ ap (λ (x : Str). get x state.requests) z ∙ old)))
            ∙ old)
    ]

-- A new run under a new request.
added-Consistent :
    (id : Str) (run : Registered) (state : State)
    → Consistent state
    → get id state.runs ≡ none
    → get run.request.request_id state.requests ≡ none
    → Consistent (record state {
      requests = insert run.request.request_id id state.requests;
      runs = insert id run state.runs;
    })
added-Consistent id run state ok new_id new_key = record {
  named = named_after;
  requested = requested_after;
}
  where
    key : Str
    key = run.request.request_id

    named_after :
        (k i : Str)
        → get k (insert key id state.requests) ≡ some i
        → (r : Registered) × (get i (insert id run state.runs) ≡ some r)
          × (r.request.request_id ≡ k)
    named_after k i h = elim (str_discrete key k) [
      | yes q ↦
          (let same_id = injective (
              sym (get-insert_same key id state.requests)
              ∙ ap (λ (x : Str). get x (insert key id state.requests)) q
              ∙ h) in
            (
              run,
              ap (λ (x : Str). get x (insert id run state.runs)) (sym same_id)
                  ∙ get-insert_same id run state.runs,
              q,
            ))
      | no q ↦
          (let old = ok.named k i (sym (get-insert_other key k id state.requests q) ∙ h) in
            (
              old.0,
              get-insert_other id i run state.runs
                    (λ z. none-some new_id (ap (λ (x : Str). get x state.runs) z ∙ old.1))
                  ∙ old.1,
              old.2,
            ))
    ]

    requested_after :
        (i : Str) (r : Registered)
        → get i (insert id run state.runs) ≡ some r
        → get r.request.request_id (insert key id state.requests) ≡ some i
    requested_after i r h = elim (str_discrete id i) [
      | yes q ↦
          subst
            (λ (x : Registered). get x.request.request_id (insert key id state.requests) ≡ some i)
            (injective (
              sym (get-insert_same id run state.runs)
              ∙ ap (λ (x : Str). get x (insert id run state.runs)) q
              ∙ h))
            (get-insert_same key id state.requests ∙ ap some q)
      | no q ↦
          (let old = ok.requested i r (sym (get-insert_other id i run state.runs q) ∙ h) in
            get-insert_other key r.request.request_id id state.requests
              (λ z. none-some new_key (ap (λ (x : Str). get x state.requests) z ∙ old))
            ∙ old)
    ]

drop_run-Consistent : (id : Str) (state : State) → Consistent state → Consistent (drop_run id state)
unfolding drop_run
drop_run-Consistent id state ok = from (get id state.runs) refl
  where
    from :
        (o : Option Registered)
        → get id state.runs ≡ o
        → Consistent (elim o [
          | none ↦ state
          | some run ↦ record state {
            runs = remove id state.runs;
            requests = remove run.request.request_id state.requests;
          }
        ])
    from none h = ok
    from (some run) h = removed-Consistent id run state ok h

drop_runs-Consistent :
    (ids : List Str) (state : State) → Consistent state → Consistent (drop_runs ids state)
unfolding drop_runs
drop_runs-Consistent [] state ok = ok
drop_runs-Consistent (id ∷ ids) state ok =
    drop_runs-Consistent ids (drop_run id state) (drop_run-Consistent id state ok)

pub prune-Consistent :
    (config : RegistryConfig) (now : ℕ) (state : State)
    → Consistent state
    → Consistent (prune config now state)
unfolding prune
prune-Consistent config now state ok =
    drop_runs-Consistent (map (λ e. e.0) (retain (λ e. is_expired config now e.1) state.runs)) state
      ok

pub register-Consistent :
    (request : StartRequest) (metadata : Map Str) (started : AgentError ⊎ Str) (state : State)
    → Consistent state
    → get request.request_id state.requests ≡ none
    → Consistent (register request metadata started state).0
unfolding register
register-Consistent request metadata (inl e) state ok h = ok
register-Consistent request metadata (inr id) state ok h = elim (Option-cases (get id state.runs)) [
  | inl free ↦ rw free (
      added-Consistent id
        (record {
          request = request;
          context_identity = metadata;
          completed_at = none;
          terminal = false;
        })
        state ok free h)
  | inr taken ↦ rw taken.1 ok
]
