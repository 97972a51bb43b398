-- ===== src/Runtime/Batch/Groups.antt =====
-- The groups of a batch keep the order of the calls, and an exclusive call runs alone.
use mona_agent_core.Prelude.{
  ◌≡◌, refl, ap, ◌∙◌, inl, inr, false, List, [], ◌∷◌, ◌++◌, append_assoc, Bool-cases, All,
  All-append,
}
use mona_agent_core.Runtime.Batch.{Ready, is_exclusive, flush, group_from}

abbrev pub join {ℓ} : {A : Type ℓ} → List (List A) → List A
join [] = []
join (xs ∷ xss) = xs ++ join xss

module _ {V : Type 0} where
  abbrev pub IsParallel : Ready V → Type 0
  IsParallel r = is_exclusive r.tool.concurrency ≡ false

  -- One call, or calls of which none is exclusive.
  pub data IsGroup : List (Ready V) → Type 0 where
    alone : (r : Ready V) → IsGroup (r ∷ [])
    together : (r : Ready V) (rs : List (Ready V)) → All IsParallel (r ∷ rs) → IsGroup (r ∷ rs)

  join-flush :
      (rs : List (Ready V)) (gs : List (List (Ready V))) → join (flush rs gs) ≡ rs ++ join gs
  join-flush [] gs = refl
  join-flush (r ∷ rs) gs = refl

  flush-IsGroup :
      (rs : List (Ready V)) (gs : List (List (Ready V)))
      → All IsParallel rs
      → All IsGroup gs
      → All IsGroup (flush rs gs)
  flush-IsGroup [] gs p h = h
  flush-IsGroup (r ∷ rs) gs p h = (together r rs p, h)

  -- If no waiting call is exclusive, the groups joined are the waiting and the remaining calls in their
  -- order; each group is nonempty, and holds an exclusive call only if it holds nothing else.
  pub group_from-IsGroup :
      (waiting rs : List (Ready V))
      → All IsParallel waiting
      → (join (group_from waiting rs) ≡ waiting ++ rs) × All IsGroup (group_from waiting rs)
  unfolding group_from
  group_from-IsGroup waiting [] p = (join-flush waiting [], flush-IsGroup waiting [] p tt)
  group_from-IsGroup waiting (r ∷ rs) p = elim (Bool-cases (is_exclusive r.tool.concurrency)) [
    | inl e ↦
        let (joined, groups) = group_from-IsGroup [] rs tt in
        rw (group_from, e)
          (
            join-flush waiting ((r ∷ []) ∷ group_from [] rs) ∙ ap (λ z. waiting ++ r ∷ z) joined,
            flush-IsGroup waiting ((r ∷ []) ∷ group_from [] rs) p (alone r, groups),
          )
    | inr e ↦
        let (joined, groups) =
          group_from-IsGroup (waiting ++ r ∷ []) rs
            (All-append IsParallel waiting (r ∷ []) p (e, tt)) in
        rw (group_from, e) (joined ∙ append_assoc waiting (r ∷ []) rs, groups)
  ]
