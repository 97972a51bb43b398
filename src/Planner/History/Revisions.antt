-- ===== src/Planner/History/Revisions.antt =====
-- packages/planner/src/history.rs: the states of a run by their revisions, and the chain over them.
use mona_agent_core.Prelude.{
  ℕ, ◌<◌, ◌≡◌, refl, ap, ◌⊎◌, inl, inr, false, Option, none, some, List, [], ◌∷◌, arith, ◌==◌,
  if◌then◌else◌, holds→, →holds, Bool-cases,
}
use mona_agent_core.Api.Error.{ok, refuse, >>=-eq-ok, refuse-eq-ok}
use mona_agent_core.Planner.State.{PlanSnapshot, PlanSnapshot-discrete, invalid}
use mona_agent_core.Planner.History.{
  at_revision, put_revision, conflicts, Found, keep_own, succeed, settle_on,
}

-- A state is the one that was recovered, or has a lower revision.
abbrev pub Behind : Option PlanSnapshot → PlanSnapshot → Type 0
Behind p s = (q : PlanSnapshot) × (p ≡ some q) × ((s.revision < q.revision) ⊎ (s ≡ q))

at_revision-put :
    (m n : ℕ) (p : PlanSnapshot) (es : List (ℕ × PlanSnapshot))
    → at_revision m (put_revision n p es) ≡ (if n == m then some p else at_revision m es)
unfolding at_revision put_revision
at_revision-put m n p [] = refl
at_revision-put m n p (e ∷ es) = ground (arith, at_revision-put m n p es)

conflicts-false : (old state : PlanSnapshot) → conflicts (some old) state ≡ false → old ≡ state
conflicts-false old state h = elim (PlanSnapshot-discrete old state) [
  | yes q ↦ q
  | no q ↦ ground (arith, h, q, →holds (PlanSnapshot-discrete old state))
]

pub same_found : {f g : Found} → ok f ≡ ok g → f ≡ g
same_found h = cc

pub keep_own_lem :
    (state : PlanSnapshot) (found next : Found)
    → keep_own state found ≡ ok next
    → (at_revision state.revision next.current ≡ some state)
      × ((n : ℕ) (s : PlanSnapshot)
          → at_revision n found.current ≡ some s
          → at_revision n next.current ≡ some s)
      × (next.latest ≡ found.latest)
unfolding keep_own
keep_own_lem state found next h =
    let (_, c, same) =
      >>=-eq-ok
        (refuse (conflicts (at_revision state.revision found.current) state)
          (invalid "conflicting plan snapshots share a revision"))
        _ h in
    let agreed = refuse-eq-ok (conflicts (at_revision state.revision found.current) state) _ c in
    let current = ap (λ (f : Found). f.current) (same_found same) in
    (
      ground (arith, current, at_revision-put state.revision state.revision state found.current),
      λ n s q. ground (
        arith,
        current,
        q,
        agreed,
        at_revision-put n state.revision state found.current,
        conflicts-false s state,
      ),
      ground (arith, same),
    )

-- A state that follows another has a higher revision or is the same.
succeed-rises :
    (old state : PlanSnapshot)
    → succeed (some old) state ≡ ok tt
    → (old.revision < state.revision) ⊎ (old ≡ state)
unfolding succeed
succeed-rises old state h = ground (arith, holds→ (PlanSnapshot-discrete old state))

Behind-rises :
    (latest : Option PlanSnapshot) (s state : PlanSnapshot)
    → Behind latest s
    → succeed latest state ≡ ok tt
    → Behind (some state) s
Behind-rises none s state (q, e, b) h = cc
Behind-rises (some old) s state (q, e, b) h = ground (arith, succeed-rises old state)

module _ (p : Option PlanSnapshot) where
  pub settle_on-Behind :
      (es : List (ℕ × PlanSnapshot)) (latest : Option PlanSnapshot)
      → settle_on es latest ≡ ok p
      → (s : PlanSnapshot) → Behind latest s
      → Behind p s
  unfolding settle_on
  settle_on-Behind [] latest h s b = ground arith
  settle_on-Behind (e ∷ es) latest h s b =
      let (_, k, rest) = >>=-eq-ok (succeed latest e.1) _ h in
      settle_on-Behind es (some e.1) rest s (Behind-rises latest s e.1 b k)

  -- Every state of the chain.
  pub settle_on-at :
      (es : List (ℕ × PlanSnapshot)) (latest : Option PlanSnapshot)
      → settle_on es latest ≡ ok p
      → (n : ℕ) (s : PlanSnapshot) → at_revision n es ≡ some s
      → Behind p s
  unfolding settle_on at_revision
  settle_on-at [] latest h n s q = cc
  settle_on-at (e ∷ es) latest h n s q =
      let (_, _, rest) = >>=-eq-ok (succeed latest e.1) _ h in
      elim (Bool-cases (e.0 == n)) [
        | inl here ↦
            settle_on-Behind es (some e.1) rest s (e.1, refl, inr (ground (arith, here, q)))
        | inr there ↦ settle_on-at es (some e.1) rest n s (ground (arith, there, q))
      ]
