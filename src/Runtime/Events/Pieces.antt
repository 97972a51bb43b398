-- ===== src/Runtime/Events/Pieces.antt =====
-- packages/runtime/src/events.rs: the loops that cut a long delta into events of at most 4096 bytes.
use mona_agent_core.Prelude.{
  ℕ, zero, suc, ◌-◌, ◌≤◌, min, ◌≡◌, refl, sym, ap, ◌∙◌, ◌≢◌, inl, inr, true, false, List, [], ◌∷◌,
  ◌++◌, arith, ltb, Bool-cases, length, drop, All, ℕ_discrete,
}
use mona_agent_core.Prelude.Strings.{Str, len, len_utf8}
use mona_agent_core.Runtime.Tools.Capping.{clip_utf8-len}
use mona_agent_core.Api.Message.{clip_utf8, is_char_boundary, floor_boundary, prefix}

abbrev pub piece_bytes : ℕ
piece_bytes = 4096

-- while !rest.is_empty() { part = clip_utf8(rest, 4096); …; rest = &rest[part.len()..]; }: the parts,
-- on fuel.
unfoldable pub pieces : ℕ → Str → List Str
pieces zero rest = []
pieces (suc fuel) [] = []
pieces (suc fuel) (c ∷ rest) =
    let part = clip_utf8 (c ∷ rest) piece_bytes in
    part ∷ pieces fuel (drop (length part) (c ∷ rest))

-- The parts with the fuel that the loop needs: every round takes a character at least.
unfoldable pub cut : Str → List Str
unfolding pieces
cut text = pieces (length text) text

-- The loop of tool_delta, which sends one part even of an empty text.
unfoldable pub cut_at_least_once : Str → List Str
unfolding cut
cut_at_least_once [] = [] ∷ []
cut_at_least_once (c ∷ s) = cut (c ∷ s)

unfoldable pub flatten : List Str → Str
flatten [] = []
flatten (p ∷ ps) = p ++ flatten ps

-- A boundary below the limit is not passed over.
floor_boundary_above :
    (s : Str) (b end : ℕ) → is_char_boundary s b ≡ true → b ≤ end → b ≤ floor_boundary s end
unfolding floor_boundary
floor_boundary_above s b zero h k = k
floor_boundary_above s b (suc end) h k = elim (Bool-cases (is_char_boundary s (suc end))) [
  | inl e ↦ rw e k
  | inr e ↦ rw e (floor_boundary_above s b end h (below e))
]
  where
    ne : true ≢ false
    ne q = cc

    below : is_char_boundary s (suc end) ≡ false → b ≤ end
    below e = elim (ℕ_discrete b (suc end)) [
      | yes p ↦ absurd (ne (sym h ∙ ap (is_char_boundary s) p ∙ e))
      | no p ↦ omega arith
    ]

boundary_of_first : (c : ℕ) (s : Str) (n : ℕ) → n ≡ len_utf8 c → is_char_boundary (c ∷ s) n ≡ true
unfolding is_char_boundary
boundary_of_first c s zero h = refl
boundary_of_first c s (suc n) h = rw (sym h, none_below (suc n), none_left (suc n)) refl
  where
    none_below : (m : ℕ) → ltb m m ≡ false
    none_below m = ground arith

    none_left : (m : ℕ) → m - m ≡ 0
    none_left m = omega arith

prefix_then_rest : (s : Str) (end : ℕ) → prefix s end ++ drop (length (prefix s end)) s ≡ s
unfolding prefix
prefix_then_rest [] end = refl
prefix_then_rest (c ∷ s) end = elim (Bool-cases (ltb end (len_utf8 c))) [
  | inl e ↦ rw e refl
  | inr e ↦ rw e (ap (λ (t : Str). c ∷ t) (prefix_then_rest s (end - len_utf8 c)))
]

len_utf8_le : (c : ℕ) → len_utf8 c ≤ 4
unfolding len_utf8
len_utf8_le c = ground arith

not_below : (a b : ℕ) → b ≤ a → ltb a b ≡ false
not_below a b h = ground arith

prefix-cons :
    (c : ℕ) (s : Str) (end : ℕ) → len_utf8 c ≤ end → (t : Str) × (prefix (c ∷ s) end ≡ c ∷ t)
unfolding prefix
prefix-cons c s end h = (prefix s (end - len_utf8 c), rw (not_below end (len_utf8 c) h) refl)

-- The first character of a text is in its first part.
clip_utf8-cons :
    (c : ℕ) (s : Str) (limit : ℕ) → 4 ≤ limit → (t : Str) × (clip_utf8 (c ∷ s) limit ≡ c ∷ t)
unfolding clip_utf8 len
clip_utf8-cons c s limit h = prefix-cons c s (floor_boundary (c ∷ s) (min (len (c ∷ s)) limit)) (
    floor_boundary_above (c ∷ s) (len_utf8 c) (min (len (c ∷ s)) limit)
      (boundary_of_first c s (len_utf8 c) refl) room)
  where
    room : len_utf8 c ≤ min (len (c ∷ s)) limit
    room = omega (arith, len_utf8_le c)

length-drop : {A : Type 0} (n : ℕ) (xs : List A) → length (drop n xs) ≡ length xs - n
length-drop zero xs = omega arith
length-drop (suc n) [] = omega arith
length-drop (suc n) (x ∷ xs) = omega (arith, length-drop n xs)

-- Parts whose concatenation is a text, none of them too long.
pub record PiecesOf (whole : Str) (parts : List Str) : Type 0 where
  pub same_text : flatten parts ≡ whole
  pub short : All (λ p. len p ≤ piece_bytes) parts

clip_then_rest :
    (s : Str) (limit : ℕ) → clip_utf8 s limit ++ drop (length (clip_utf8 s limit)) s ≡ s
unfolding clip_utf8
clip_then_rest s limit = prefix_then_rest s (floor_boundary s (min (len s) limit))

fewer :
    (c : ℕ) (s : Str) (fuel : ℕ)
    → length (c ∷ s) ≤ suc fuel
    → length (drop (length (clip_utf8 (c ∷ s) piece_bytes)) (c ∷ s)) ≤ fuel
fewer c s fuel h =
    let first = clip_utf8-cons c s piece_bytes (omega arith) in
    rw first.1 (omega (arith, length-drop (length first.0) s))

enough : (fuel : ℕ) (s : Str) → length s ≤ fuel → PiecesOf s (pieces fuel s)
unfolding pieces flatten
enough zero [] h = record { same_text = refl; short = tt }
enough zero (c ∷ s) h = absurd (omega arith)
enough (suc fuel) [] h = record { same_text = refl; short = tt }
enough (suc fuel) (c ∷ s) h =
    let part = clip_utf8 (c ∷ s) piece_bytes in
    let ih = enough fuel (drop (length part) (c ∷ s)) (fewer c s fuel h) in
    record {
      same_text = rw ih.same_text (clip_then_rest (c ∷ s) piece_bytes);
      short = (clip_utf8-len (c ∷ s) piece_bytes, ih.short);
    }

-- Cutting a text into the parts of its events loses nothing of it, keeps its order, and each part is
-- within 4096 bytes; the fuel of the loop is enough for every text.
pub cut-PiecesOf : (text : Str) → PiecesOf text (cut text)
unfolding cut
cut-PiecesOf text = enough (length text) text (omega arith)
