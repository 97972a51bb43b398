-- ===== src/Application/Registry/Completion.antt =====
-- packages/application/src/service.rs: a run that ends and a run that is forgotten.
use mona_agent_core.Prelude.{
  ℕ, ◌≡◌, refl, sym, ap, subst, ◌∙◌, Bool, true, false, Option, none, some, if◌then◌else◌,
}
use mona_agent_core.Prelude.Strings.{Str, str_discrete}
use mona_agent_core.Prelude.Maps.{get, insert, remove, get-insert_same, get-insert_other}
use mona_agent_core.Application.Protocol.{ApplicationErrorCode, failure}
use mona_agent_core.Application.Registry.{
  Registered, State, Answer, answers, refuses, forget, forget_found, settle,
}
use mona_agent_core.Application.Registry.Consistency.{Consistent, injective, removed-Consistent}

pub settle-Consistent :
    (id : Str) (now : ℕ) (state : State) → Consistent state → Consistent (settle id now state)
unfolding settle
settle-Consistent id now state ok = from (get id state.runs) refl
  where
    settled : Registered → Registered
    settled run = record run {
      completed_at = elim run.completed_at [ none ↦ some now | some at ↦ some at ];
      terminal = true;
    }

    named_after :
        (run : Registered)
        → get id state.runs ≡ some run
        → (k i : Str) → get k state.requests ≡ some i
        → (r : Registered) × (get i (insert id (settled run) state.runs) ≡ some r)
          × (r.request.request_id ≡ k)
    named_after run here k i h =
        let old = ok.named k i h in
        elim (str_discrete id i) [
          | yes q ↦ (
            settled run,
            ap (λ (x : Str). get x (insert id (settled run) state.runs)) (sym q)
                ∙ get-insert_same id (settled run) state.runs,
            ap (λ (r : Registered). r.request.request_id)
                  (injective (sym here ∙ ap (λ (x : Str). get x state.runs) q ∙ old.1))
                ∙ old.2,
          )
          | no q ↦ (old.0, get-insert_other id i (settled run) state.runs q ∙ old.1, old.2)
        ]

    requested_after :
        (run : Registered)
        → get id state.runs ≡ some run
        → (i : Str) (r : Registered) → get i (insert id (settled run) state.runs) ≡ some r
        → get r.request.request_id state.requests ≡ some i
    requested_after run here i r h = elim (str_discrete id i) [
      | yes q ↦
          subst (λ (x : Registered). get x.request.request_id state.requests ≡ some i)
            (injective (
              sym (get-insert_same id (settled run) state.runs)
              ∙ ap (λ (x : Str). get x (insert id (settled run) state.runs)) q
              ∙ h))
            (ok.requested id run here ∙ ap some q)
      | no q ↦ ok.requested i r (sym (get-insert_other id i (settled run) state.runs q) ∙ h)
    ]

    from :
        (o : Option Registered)
        → get id state.runs ≡ o
        → Consistent (elim o [
          | none ↦ state
          | some run ↦ record state { runs = insert id (settled run) state.runs }
        ])
    from none h = ok
    from (some run) h = record { named = named_after run h; requested = requested_after run h }

pub forget-Consistent :
    (id : Str) (state : State) → Consistent state → Consistent (forget id state).0
unfolding forget
forget-Consistent id state ok = from (get id state.runs) refl
  where
    by_end :
        (run : Registered)
        → get id state.runs ≡ some run
        → (b : Bool)
        → Consistent
            (if◌then◌else◌ {A = State × Answer Unit} b
              (
                record state {
                  runs = remove id state.runs;
                  requests = remove run.request.request_id state.requests;
                },
                answers tt,
              )
              (
                state,
                refuses (failure ApplicationErrorCode.conflict "cannot forget an active run"),
              )).0
    by_end run h true = removed-Consistent id run state ok h
    by_end run h false = ok

    from : (o : Option Registered) → get id state.runs ≡ o → Consistent (forget_found id state o).0
    from none h = ok
    from (some run) h = by_end run h run.terminal
