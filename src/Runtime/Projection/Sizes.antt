-- ===== src/Runtime/Projection/Sizes.antt =====
-- The sizes of JSON arrays into which the protected sources are inserted.
use mona_agent_core.Prelude.{
  ℕ, ◌+◌, ◌-◌, ◌≤◌, ◌<◌, ◌≡◌, refl, sym, ap, ◌∙◌, ◌≢◌, Bool, true, false, ◌||◌, Option, none, some,
  List, [], ◌∷◌, ◌++◌, map, arith, leb, Option-cases, inl, inr, length, saturating_add, usize_max,
  append-nil, if◌then◌else◌, subst,
}
use mona_agent_core.Prelude.Strings.{str_discrete}
use mona_agent_core.Prelude.Sets.{contains}
use mona_agent_core.Api.Error.{
  ErrorCode, Result, ok, error, refuse, >>=-eq-ok, ok_or-eq-ok, refuse-eq-ok,
}
use mona_agent_core.Api.Message.{Message}
use mona_agent_core.Api.Serializer.{Serializer, elements_bytes, IsJson}
use mona_agent_core.Runtime.History.{measured}
use mona_agent_core.Runtime.History.Exact.{elements_bytes-append}
use mona_agent_core.Runtime.Projection.{
  Block, Sources, RequestLimits, is_system, with_sources, add_blocks, collect_sources,
}

none-some : {A : Type 0} {a : A} → none ≢ some a
none-some h = cc

same_sources : {V : Type 0} {r s : Sources V} → ok r ≡ ok s → r ≡ s
same_sources h = cc

map_append : {A B : Type 0} (f : A → B) (xs ys : List A) → map f (xs ++ ys) ≡ map f xs ++ map f ys
map_append f [] ys = refl
map_append f (x ∷ xs) ys = ap (λ z. f x ∷ z) (map_append f xs ys)

same_size : {m n : ℕ} → some m ≡ some n → m ≡ n
same_size h = cc

module _ {A : Type 0} (size : A → Option ℕ) where
  -- The first element of an array that has a size.
  first_size :
      (x : A) (xs : List A) (first : Bool) (n : ℕ) {t : ℕ}
      → elements_bytes size (x ∷ xs) first n ≡ some t
      → (k : ℕ) × (size x ≡ some k)
        × (elements_bytes size xs false (n + k + (if first then 0 else 1)) ≡ some t)
  unfolding elements_bytes
  first_size x xs first n h = elim (Option-cases (size x)) [
    | inl e ↦ let bad : elements_bytes size (x ∷ xs) first n ≡ none = rw (e, elements_bytes) in cc
    | inr (k, e) ↦ (k, e, rw (e, elements_bytes) at h)
  ]

  join_size :
      (x : A) (xs : List A) (first : Bool) (n k : ℕ) {o : Option ℕ}
      → size x ≡ some k
      → elements_bytes size xs false (n + k + (if first then 0 else 1)) ≡ o
      → elements_bytes size (x ∷ xs) first n ≡ o
  unfolding elements_bytes
  join_size x xs first n k e h = rw (e, elements_bytes) h

  -- An array that starts later is as much longer.
  later_size :
      (xs : List A) (n k : ℕ) {t : ℕ}
      → elements_bytes size xs false n ≡ some t
      → elements_bytes size xs false (n + k) ≡ some (t + k)
  unfolding elements_bytes
  later_size [] n k h = ap (λ (m : ℕ). some (m + k)) (same_size h)
  later_size (x ∷ xs) n k {t} h =
      let (s, e, rest) = first_size x xs false n h in
      join_size x xs false (n + k) s e
        (ap (elements_bytes size xs false) (moved n k s) ∙ later_size xs (n + s + 1) k rest)
    where
      moved : (n k s : ℕ) → n + k + s + 1 ≡ n + s + 1 + k
      moved n k s = omega arith

  grown_size : (xs : List A) (n : ℕ) {t : ℕ} → elements_bytes size xs false n ≡ some t → n ≤ t
  unfolding elements_bytes
  grown_size [] n h = let q = same_size h in omega (arith, q)
  grown_size (x ∷ xs) n h =
      let (s, _, rest) = first_size x xs false n h in
      let more = grown_size xs (n + s + 1) rest in omega (arith, more)

  -- An array whose elements are not the first ones any more has one separator more at most.
  continued_size :
      (xs : List A) (n : ℕ) {t : ℕ}
      → elements_bytes size xs true n ≡ some t
      → (u : ℕ) × (elements_bytes size xs false n ≡ some u) × (u ≤ t + 1)
  unfolding elements_bytes
  continued_size [] n {t} h = (t, h, omega arith)
  continued_size (x ∷ xs) n {t} h =
      let (s, e, rest) = first_size x xs true n h in
      (
        t + 1,
        join_size x xs false n s e
            (ap (elements_bytes size xs false) (moved n s) ∙ later_size xs (n + s + 0) 1 rest),
        omega arith,
      )
    where
      moved : (n s : ℕ) → n + s + 1 ≡ n + s + 0 + 1
      moved n s = omega arith

  first_part :
      (xs ys : List A) (first : Bool) (n : ℕ) {t : ℕ}
      → elements_bytes size (xs ++ ys) first n ≡ some t
      → (u : ℕ) × (elements_bytes size xs first n ≡ some u)
  unfolding elements_bytes
  first_part [] ys first n h = (n, refl)
  first_part (x ∷ xs) ys first n h =
      let (s, e, rest) = first_size x (xs ++ ys) first n h in
      let (u, found) = first_part xs ys false (n + s + (if first then 0 else 1)) rest in
      (u, join_size x xs first n s e found)

  -- Elements inserted into an array add at most their own bytes.
  pub inserted_size :
      (front sources rest : List A) (b added : ℕ)
      → elements_bytes size (front ++ rest) true 2 ≡ some b
      → elements_bytes size sources false 0 ≡ some added
      → (t : ℕ) × (elements_bytes size (front ++ (sources ++ rest)) true 2 ≡ some t)
        × (t ≤ b + added)
  inserted_size [] [] rest b added h k = (b, h, omega arith)
  inserted_size [] (x ∷ xs) rest b added h k =
      let (s, e, tail) = first_size x xs false 0 k in
      let long = grown_size xs (0 + s + 1) tail in
      let (u, continued, bound) = continued_size rest 2 h in
      let opened : elements_bytes size (x ∷ xs) true 2 ≡ some (added + 1) =
        join_size x xs true 2 s e
          (ap (elements_bytes size xs false) (moved s) ∙ later_size xs (0 + s + 1) 1 tail) in
      (
        u + (added - 1),
        elements_bytes-append size (x ∷ xs) rest true 2 opened
            ∙ ap (elements_bytes size rest false) (enough added (omega (arith, long)))
            ∙ later_size rest 2 (added - 1) continued,
        omega (arith, bound, long),
      )
    where
      moved : (s : ℕ) → 2 + s + 0 ≡ 0 + s + 1 + 1
      moved s = omega arith

      enough : (n : ℕ) → 1 ≤ n → n + 1 ≡ 2 + (n - 1)
      enough n h = omega arith
  inserted_size (y ∷ ys) sources rest b added h k =
      let (u, front) = first_part (y ∷ ys) rest true 2 h in
      let last : elements_bytes size rest false u ≡ some b =
        sym (elements_bytes-append size (y ∷ ys) rest true 2 front) ∙ h in
      (
        b + added,
        elements_bytes-append size (y ∷ ys) (sources ++ rest) true 2 front
            ∙ elements_bytes-append size sources rest false u
                (ap (elements_bytes size sources false) (from_zero u) ∙ later_size sources 0 u k)
            ∙ ap (elements_bytes size rest false) (swapped added u)
            ∙ later_size rest u added last,
        omega arith,
      )
    where
      from_zero : (u : ℕ) → u ≡ 0 + u
      from_zero u = omega arith

      swapped : (a u : ℕ) → a + u ≡ u + a
      swapped a u = omega arith

module _ {V : Type 0} where
  -- The sources stand somewhere among the other messages.
  pub with_sources-inserted :
      (blocks ms : List (Message V))
      → (front rest : List (Message V)) × (ms ≡ front ++ rest)
        × (with_sources blocks ms ≡ front ++ (blocks ++ rest))
  unfolding with_sources
  with_sources-inserted blocks [] = ([], [], refl, sym (append-nil blocks))
  with_sources-inserted blocks (m ∷ ms) = by_system (is_system m) (with_sources-inserted blocks ms)
    where
      Inserted : List (Message V) → List (Message V) → Type 0
      Inserted before after =
          (front rest : List (Message V)) × (before ≡ front ++ rest)
          × (after ≡ front ++ (blocks ++ rest))

      by_system :
          (b : Bool)
          → Inserted ms (with_sources blocks ms)
          → Inserted (m ∷ ms) (if b then m ∷ with_sources blocks ms else blocks ++ m ∷ ms)
      by_system true (front, rest, p, q) = (m ∷ front, rest, ap (λ z. m ∷ z) p, ap (λ z. m ∷ z) q)
      by_system false k = ([], m ∷ ms, refl, refl)

module _ {V : Type 0} (json : Serializer V) (limits : RequestLimits) (overhead : ℕ)
    (doc : IsJson json) (small : limits.max_context_bytes < usize_max) where
  abbrev pub messages_of : Sources V → List (Message V)
  messages_of s = map (λ (b : Block V). b.1) s.blocks

  -- The bytes that are counted are those of the blocks, each with a separator.
  abbrev pub IsCounted : Sources V → Type 0
  IsCounted s = elements_bytes json.message_bytes (messages_of s) false 0 ≡ some s.bytes

  bytes_unsaturated :
      (n k limit : ℕ)
      → limit < usize_max
      → leb limit (saturating_add (saturating_add (saturating_add n k) 1) overhead) ≡ false
      → saturating_add (saturating_add n k) 1 ≡ n + k + 1
  unfolding saturating_add
  bytes_unsaturated n k limit small h = ground arith

  add_blocks-IsCounted :
      (bs : List (Block V)) (s last : Sources V)
      → IsCounted s
      → add_blocks json limits overhead bs s ≡ ok last
      → IsCounted last
  unfolding add_blocks elements_bytes
  add_blocks-IsCounted [] s last c h = subst IsCounted (same_sources h) c
  add_blocks-IsCounted (b ∷ bs) s last c h =
      let (_, _, h1) = >>=-eq-ok b.2 _ h in
      let (_, _, h2) =
        >>=-eq-ok
          (refuse
            (leb 128 (length s.blocks)
              || contains str_discrete b.0 (map (λ (c : Block V). c.0) s.blocks))
            (error ErrorCode.plugin "too many or duplicate context sources"))
          _ h1 in
      let (size, e, h3) = >>=-eq-ok (measured (json.message_bytes b.1)) _ h2 in
      let (_, fits, h4) =
        >>=-eq-ok
          (refuse
            (leb limits.max_context_bytes
              (saturating_add (saturating_add (saturating_add s.bytes size) 1) overhead))
            (error ErrorCode.limit "protected context sources leave no model request budget"))
          _ h3 in
      let exact =
        bytes_unsaturated s.bytes size limits.max_context_bytes small (refuse-eq-ok _ _ fits) in
      add_blocks-IsCounted bs _ last
        (ap (λ (ms : List (Message V)). elements_bytes json.message_bytes ms false 0)
            (map_append (λ (c : Block V). c.1) s.blocks (b ∷ []))
          ∙ elements_bytes-append json.message_bytes (messages_of s) (b.1 ∷ []) false 0 c
          ∙ join_size json.message_bytes b.1 [] false s.bytes size (ok_or-eq-ok _ _ e) refl
          ∙ ap some (sym exact))
        h4

  pub collect_sources-IsCounted :
      (answers : List (Result (List (Block V)))) (s last : Sources V)
      → IsCounted s
      → collect_sources json limits overhead answers s ≡ ok last
      → IsCounted last
  unfolding collect_sources
  collect_sources-IsCounted [] s last c h = subst IsCounted (same_sources h) c
  collect_sources-IsCounted (a ∷ as') s last c h =
      let (supplied, _, h1) = >>=-eq-ok a _ h in
      let (next, added, h2) = >>=-eq-ok (add_blocks json limits overhead supplied s) _ h1 in
      collect_sources-IsCounted as' next last (add_blocks-IsCounted supplied s next c added) h2
