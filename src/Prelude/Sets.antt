-- ===== src/Prelude/Sets.antt =====
-- `BTreeSet` and `BTreeMap` as lists over a type with a decidable equality. A set repeats no
-- element: `insert` keeps that, so removing the first occurrence removes the element.
use mathlib.Core.List.{
  Mem-prop, mem-cons_of_mem, List, [], ◌∷◌, Mem, mem-cons, mem-cons_self, mem-cons_of_mem,
  not-mem-nil, Perm,
}
use mathlib.Core.List.Perm
use mathlib.Core.Logic.Or
use mathlib.Core.Logic.{inl, inr, ite, inl, inr}
use mathlib.Core.Bool.{Bool, true, false, Bool-set}
use mathlib.Core.Path.{sym, subst, ◌≡◌}
use native.Mathlib.Omega.{arith}
use mona_agent_core.Prelude.Tests.{retain, Bool-cases, if◌then◌else◌, Bool-cases}

module _ {ℓ} {A : Type ℓ} (dec : Discrete A) where
  -- set.contains(a)
  unfoldable pub contains : A → List A → Bool
  contains a [] = false
  contains a (x ∷ xs) = ite (dec a x) true (contains a xs)

  -- The set after set.insert(a).
  unfoldable pub insert : A → List A → List A
  unfolding contains
  insert a xs = if contains a xs then xs else a ∷ xs

  -- The set after set.remove(&a).
  unfoldable pub remove : A → List A → List A
  remove a [] = []
  remove a (x ∷ xs) = ite (dec a x) xs (x ∷ remove a xs)

  pub contains→mem : (a : A) (xs : List A) → contains a xs ≡ true → Mem a xs
  unfolding contains
  contains→mem a [] h = cc
  contains→mem a (x ∷ xs) h = elim (dec a x) [
    | yes p ↦ rw p mem-cons_self
    | no p ↦ mem-cons_of_mem x (contains→mem a xs (ground arith))
  ]

  pub mem→contains : (a : A) (xs : List A) → Mem a xs → contains a xs ≡ true
  unfolding contains
  mem→contains a [] m = absurd (not-mem-nil m)
  mem→contains a (x ∷ xs) m =
      Or.elim (Bool-set _ _) (mem-cons.0 m) (λ e. ground arith)
        (λ t. ground (arith, mem→contains a xs t))

  pub not-mem_of_contains : (a : A) (xs : List A) → contains a xs ≡ false → ¬ Mem a xs
  not-mem_of_contains a xs h m = cc (mem→contains a xs m)

  pub contains_of_not-mem : (a : A) (xs : List A) → ¬ Mem a xs → contains a xs ≡ false
  contains_of_not-mem a xs h = elim (Bool-cases (contains a xs)) [
    | inl e ↦ absurd (h (contains→mem a xs e))
    | inr e ↦ e
  ]

  -- A set is its element and what `remove` leaves of it.
  pub remove-perm : (a : A) (xs : List A) → contains a xs ≡ true → Perm xs (a ∷ remove a xs)
  unfolding contains remove
  remove-perm a [] h = cc
  remove-perm a (x ∷ xs) h = elim (dec a x) [
    | yes p ↦ rw p (ground (arith, Perm.refl (x ∷ xs)))
    | no p ↦
        let rest = remove-perm a xs (ground arith) in
        ground (arith, Perm.trans (Perm.cons x rest) (Perm.swap a x (remove a xs)))
  ]

  pub insert_new : (a : A) (xs : List A) → contains a xs ≡ false → insert a xs ≡ a ∷ xs
  unfolding insert
  insert_new a xs h = rw h

module _ {ℓ} {A : Type ℓ} (p : A → Bool) where
  pub mem-retain→ : (a : A) (xs : List A) → Mem a (retain p xs) → Mem a xs
  mem-retain→ a [] m = m
  mem-retain→ a (x ∷ xs) m = elim (Bool-cases (p x)) [
    | inl e ↦
        Or.elim Mem-prop (mem-cons.0 (retained x xs e m)) (λ h. rw h mem-cons_self)
          (λ t. mem-cons_of_mem x (mem-retain→ a xs t))
    | inr e ↦ mem-cons_of_mem x (mem-retain→ a xs (dropped x xs e m))
  ]
    where
      retained :
          (x : A) (xs : List A) → p x ≡ true → Mem a (retain p (x ∷ xs)) → Mem a (x ∷ retain p xs)
      retained x xs e m = rw e at m

      dropped :
          (x : A) (xs : List A) → p x ≡ false → Mem a (retain p (x ∷ xs)) → Mem a (retain p xs)
      dropped x xs e m = rw e at m

  pub →mem-retain : (a : A) (xs : List A) → Mem a xs → p a ≡ true → Mem a (retain p xs)
  →mem-retain a [] m h = absurd (not-mem-nil m)
  →mem-retain a (x ∷ xs) m h =
      Or.elim Mem-prop (mem-cons.0 m)
        (λ e. subst (λ z. Mem z (retain p (x ∷ xs))) (sym e) (rw (← e, h) (rw e mem-cons_self)))
        (λ t. kept x xs (→mem-retain a xs t h))
    where
      kept : (x : A) (xs : List A) → Mem a (retain p xs) → Mem a (retain p (x ∷ xs))
      kept x xs t = elim (Bool-cases (p x)) [ inl e ↦ rw e (mem-cons_of_mem x t) | inr e ↦ rw e t ]
