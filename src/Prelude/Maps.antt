-- ===== src/Prelude/Maps.antt =====
-- BTreeMap of strings: association lists in the order of the keys, which is that of their UTF-8
-- encodings, hence of their scalar values.
use mona_agent_core.Prelude.{
  ◌≡◌, refl, sym, ap, ◌∙◌, ◌≢◌, ite, Bool, true, false, ◌&&◌, ◌||◌, Option, none, some, List, [],
  ◌∷◌, map, ltb, ◌==◌, if◌then◌else◌,
}
use mona_agent_core.Prelude.Strings.{Str, str_discrete}

abbrev pub Map {ℓ} : Type ℓ → Type ℓ
Map A = List (Str × A)

-- a < b on strings
unfoldable pub before : Str → Str → Bool
before s [] = false
before [] (y ∷ t) = true
before (x ∷ s) (y ∷ t) = ltb x y || (x == y && before s t)

module _ {ℓ} {A : Type ℓ} where
  -- map.get(key)
  unfoldable pub get : Str → Map A → Option A
  get k [] = none
  get k (e ∷ es) = let rest = get k es in ite (str_discrete e.0 k) (some e.1) rest

  -- map.insert(key, value)
  unfoldable pub insert : Str → A → Map A → Map A
  insert k v [] = (k, v) ∷ []
  insert k v (e ∷ es) =
      let rest = insert k v es in
      ite (str_discrete e.0 k) ((k, v) ∷ es) (if before k e.0 then (k, v) ∷ e ∷ es else e ∷ rest)

  -- map.remove(key)
  unfoldable pub remove : Str → Map A → Map A
  remove k [] = []
  remove k (e ∷ es) = let rest = remove k es in ite (str_discrete e.0 k) rest (e ∷ rest)

  abbrev pub values : Map A → List A
  values = map (λ e. e.1)

ite_yes {ℓ κ} : {P : Type ℓ} {A : Type κ} (d : Dec P) (a b : A) → P → ite d a b ≡ a
ite_yes (yes p) a b q = refl
ite_yes (no p) a b q = absurd (p q)

ite_no {ℓ κ} : {P : Type ℓ} {A : Type κ} (d : Dec P) (a b : A) → ¬ P → ite d a b ≡ b
ite_no (yes p) a b q = absurd (q p)
ite_no (no p) a b q = refl

module _ {ℓ} {A : Type ℓ} where
  get-first : (l : Str) (e : Str × A) (es : Map A) → e.0 ≡ l → get l (e ∷ es) ≡ some e.1
  unfolding get
  get-first l e es h = ite_yes (str_discrete e.0 l) (some e.1) (get l es) h

  get-rest : (l : Str) (e : Str × A) (es : Map A) → e.0 ≢ l → get l (e ∷ es) ≡ get l es
  unfolding get
  get-rest l e es h = ite_no (str_discrete e.0 l) (some e.1) (get l es) h

  -- A lookup beside the first entry, in two maps that agree elsewhere.
  get-both :
      (l : Str) (e : Str × A) (es fs : Map A)
      → get l es ≡ get l fs
      → get l (e ∷ es) ≡ get l (e ∷ fs)
  get-both l e es fs h = elim (str_discrete e.0 l) [
    | yes q ↦ get-first l e es q ∙ sym (get-first l e fs q)
    | no q ↦ get-rest l e es q ∙ h ∙ sym (get-rest l e fs q)
  ]

  placed : (k : Str) (v : A) (e : Str × A) (es : Map A) → Map A
  placed k v e es = if before k e.0 then (k, v) ∷ e ∷ es else e ∷ insert k v es

  pub get-insert_same : (k : Str) (v : A) (m : Map A) → get k (insert k v m) ≡ some v
  unfolding insert placed
  get-insert_same k v [] = get-first k (k, v) [] refl
  get-insert_same k v (e ∷ es) = elim (str_discrete e.0 k) [
    | yes q ↦
        ap (get k) (ite_yes (str_discrete e.0 k) ((k, v) ∷ es) (placed k v e es) q)
        ∙ get-first k (k, v) es refl
    | no q ↦
        ap (get k) (ite_no (str_discrete e.0 k) ((k, v) ∷ es) (placed k v e es) q)
        ∙ at_place q (get-insert_same k v es) (before k e.0)
  ]
    where
      at_place :
          e.0 ≢ k
          → get k (insert k v es) ≡ some v
          → (b : Bool) → get k (if b then (k, v) ∷ e ∷ es else e ∷ insert k v es) ≡ some v
      at_place q ih true = get-first k (k, v) (e ∷ es) refl
      at_place q ih false = get-rest k e (insert k v es) q ∙ ih

  pub get-insert_other : (k l : Str) (v : A) (m : Map A) → k ≢ l → get l (insert k v m) ≡ get l m
  unfolding insert placed
  get-insert_other k l v [] h = get-rest l (k, v) [] h
  get-insert_other k l v (e ∷ es) h = elim (str_discrete e.0 k) [
    | yes q ↦
        ap (get l) (ite_yes (str_discrete e.0 k) ((k, v) ∷ es) (placed k v e es) q)
        ∙ get-rest l (k, v) es h
        ∙ sym (get-rest l e es (λ r. h (sym q ∙ r)))
    | no q ↦
        ap (get l) (ite_no (str_discrete e.0 k) ((k, v) ∷ es) (placed k v e es) q)
        ∙ at_place (get-insert_other k l v es h) (before k e.0)
  ]
    where
      at_place :
          get l (insert k v es) ≡ get l es
          → (b : Bool) → get l (if b then (k, v) ∷ e ∷ es else e ∷ insert k v es) ≡ get l (e ∷ es)
      at_place ih true = get-rest l (k, v) (e ∷ es) h
      at_place ih false = get-both l e (insert k v es) es ih

  pub get-remove_other : (k l : Str) (m : Map A) → k ≢ l → get l (remove k m) ≡ get l m
  unfolding remove
  get-remove_other k l [] h = refl
  get-remove_other k l (e ∷ es) h = elim (str_discrete e.0 k) [
    | yes q ↦
        ap (get l) (ite_yes (str_discrete e.0 k) (remove k es) (e ∷ remove k es) q)
        ∙ get-remove_other k l es h
        ∙ sym (get-rest l e es (λ r. h (sym q ∙ r)))
    | no q ↦
        ap (get l) (ite_no (str_discrete e.0 k) (remove k es) (e ∷ remove k es) q)
        ∙ get-both l e (remove k es) es (get-remove_other k l es h)
  ]

  pub get-remove_same : (k : Str) (m : Map A) → get k (remove k m) ≡ none
  unfolding get remove
  get-remove_same k [] = refl
  get-remove_same k (e ∷ es) = elim (str_discrete e.0 k) [
    | yes q ↦
        ap (get k) (ite_yes (str_discrete e.0 k) (remove k es) (e ∷ remove k es) q)
        ∙ get-remove_same k es
    | no q ↦
        ap (get k) (ite_no (str_discrete e.0 k) (remove k es) (e ∷ remove k es) q)
        ∙ get-rest k e (remove k es) q
        ∙ get-remove_same k es
  ]
