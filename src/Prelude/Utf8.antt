-- ===== src/Prelude/Utf8.antt =====
-- core::str::from_utf8: the strict decoder of UTF-8, one byte at a time.
use mona_agent_core.Prelude.{
  ℕ, ◌+◌, ◌-◌, ◌*◌, ◌/◌, ◌%◌, ◌≤◌, ◌<◌, ◌≡◌, refl, ◌⊎◌, inl, inr, Bool, true, false, ◌&&◌, Option,
  none, some, List, [], ◌∷◌, ◌++◌, arith, ltb, leb, ◌==◌, if◌then◌else◌, Bool-cases, ltb→lt, All,
}
use mona_agent_core.Prelude.Strings.{bytes, encode_utf8, Str}

-- Between two characters, or inside one: how many bytes are missing, the bits read, and the range
-- of the next byte (a narrower one excludes overlong forms and surrogates).
pub data Position : Type 0 where
  boundary : Position
  inside : ℕ → ℕ → ℕ → ℕ → Position

pub data Reading : Type 0 where
  reject : Reading
  more : Position → Reading
  emit : ℕ → Reading

abbrev between : ℕ → ℕ → ℕ → Bool
between low high b = leb low b && leb b high

unfoldable first_byte : ℕ → Reading
first_byte b =
    if ltb b 128
    then emit b
    else if between 194 223 b
    then more (inside 1 (b - 192) 128 191)
    else if b == 224
    then more (inside 2 0 160 191)
    else if b == 237
    then more (inside 2 13 128 159)
    else if between 225 239 b
    then more (inside 2 (b - 224) 128 191)
    else if b == 240
    then more (inside 3 0 144 191)
    else if between 241 243 b
    then more (inside 3 (b - 240) 128 191)
    else if b == 244
    then more (inside 3 4 128 143)
    else reject

unfoldable read_byte : Position → ℕ → Reading
unfolding first_byte
read_byte boundary b = first_byte b
read_byte (inside missing bits low high) b =
    if between low high b
    then (if missing == 1
        then emit (bits * 64 + (b - 128))
        else more (inside (missing - 1) (bits * 64 + (b - 128)) 128 191))
    else reject

abbrev consopt : ℕ → Option Str → Option Str
consopt c none = none
consopt c (some s) = some (c ∷ s)

unfoldable decode_from : Position → List ℕ → Option Str
decode_from boundary [] = some []
decode_from (inside missing bits low high) [] = none
decode_from p (b ∷ s) = elim (read_byte p b) [
  | reject ↦ none
  | more q ↦ decode_from q s
  | emit c ↦ consopt c (decode_from boundary s)
]

-- std::str::from_utf8(bytes)
unfoldable pub from_utf8 : List ℕ → Option Str
unfolding decode_from read_byte first_byte
from_utf8 s = decode_from boundary s

-- What a Rust `char` holds.
pub record IsScalar (c : ℕ) : Type 0 where
  pub below : c < 1114112
  pub not_surrogate : (c < 55296) ⊎ (57344 ≤ c)

module _ (s : List ℕ) where
  -- The first byte of a character, one that goes on, and the last one.
  starts :
      (b : ℕ) {p : Position}
      → first_byte b ≡ more p
      → decode_from boundary (b ∷ s) ≡ decode_from p s
  unfolding decode_from read_byte
  starts b h = rw (decode_from, h) refl

  continues :
      (missing bits low high b : ℕ)
      → between low high b ≡ true
      → (missing == 1) ≡ false
      → decode_from (inside missing bits low high) (b ∷ s)
        ≡ decode_from (inside (missing - 1) (bits * 64 + (b - 128)) 128 191) s
  unfolding decode_from read_byte
  continues missing bits low high b h k = rw (decode_from, h, k) refl

  ends :
      (bits low high b : ℕ)
      → between low high b ≡ true
      → decode_from (inside 1 bits low high) (b ∷ s)
        ≡ consopt (bits * 64 + (b - 128)) (decode_from boundary s)
  unfolding decode_from read_byte
  ends bits low high b h = rw (decode_from, h) refl

between_intro : (low high b : ℕ) → low ≤ b → b ≤ high → between low high b ≡ true
between_intro low high b h k = ground arith

one_byte : (c : ℕ) → c < 128 → (encode_utf8 c ≡ c ∷ []) × (first_byte c ≡ emit c)
unfolding first_byte encode_utf8
one_byte c h = ground arith

two_bytes :
    (c : ℕ)
    → 128 ≤ c
    → c < 2048
    → (encode_utf8 c ≡ (192 + c / 64) ∷ (128 + c % 64) ∷ [])
      × (first_byte (192 + c / 64) ≡ more (inside 1 (c / 64) 128 191))
unfolding first_byte encode_utf8
two_bytes c h k = ground arith

-- The range of the second byte, by the first.
second_of_three : ℕ → ℕ × ℕ
second_of_three n = if n == 0 then (160, 191) else if n == 13 then (128, 159) else (128, 191)

three_bytes :
    (c : ℕ)
    → 2048 ≤ c
    → c < 65536
    → (encode_utf8 c ≡ (224 + c / 4096) ∷ (128 + c / 64 % 64) ∷ (128 + c % 64) ∷ [])
      × (first_byte (224 + c / 4096)
          ≡ more
              (inside 2 (c / 4096) (second_of_three (c / 4096)).0 (second_of_three (c / 4096)).1))
unfolding first_byte encode_utf8 second_of_three
three_bytes c h k = ground arith

second_of_four : ℕ → ℕ × ℕ
second_of_four n = if n == 0 then (144, 191) else if n == 4 then (128, 143) else (128, 191)

four_bytes :
    (c : ℕ)
    → 65536 ≤ c
    → c < 1114112
    → (encode_utf8 c
        ≡ (240 + c / 262144) ∷ (128 + c / 4096 % 64) ∷ (128 + c / 64 % 64) ∷ (128 + c % 64) ∷ [])
      × (first_byte (240 + c / 262144)
          ≡ more (
              inside 3
                (c / 262144)
                (second_of_four (c / 262144)).0
                (second_of_four (c / 262144)).1))
unfolding first_byte encode_utf8 second_of_four
four_bytes c h k = ground arith

second_three-between :
    (c : ℕ)
    → IsScalar c
    → 2048 ≤ c
    → c < 65536
    → between (second_of_three (c / 4096)).0 (second_of_three (c / 4096)).1 (128 + c / 64 % 64)
      ≡ true
unfolding second_of_three
second_three-between c h k l = ground (arith, h.not_surrogate)

second_four-between :
    (c : ℕ)
    → 65536 ≤ c
    → c < 1114112
    → between (second_of_four (c / 262144)).0 (second_of_four (c / 262144)).1 (128 + c / 4096 % 64)
      ≡ true
unfolding second_of_four
second_four-between c h k = ground arith

join_two : (c : ℕ) → c / 64 * 64 + (128 + c % 64 - 128) ≡ c
join_two c = omega arith

join_three : (c : ℕ) → (c / 4096 * 64 + (128 + c / 64 % 64 - 128)) * 64 + (128 + c % 64 - 128) ≡ c
join_three c = omega arith

join_four :
    (c : ℕ)
    → ((c / 262144 * 64 + (128 + c / 4096 % 64 - 128)) * 64 + (128 + c / 64 % 64 - 128)) * 64
        + (128 + c % 64 - 128)
      ≡ c
join_four c = omega arith

low_bits : (n : ℕ) → between 128 191 (128 + n % 64) ≡ true
low_bits n = between_intro 128 191 (128 + n % 64) (omega arith) (omega arith)

module _ (c : ℕ) (s : List ℕ) where
  abbrev AsOne : Type 0
  AsOne = decode_from boundary (encode_utf8 c ++ s) ≡ consopt c (decode_from boundary s)

  decodes_one : c < 128 → AsOne
  unfolding decode_from read_byte
  decodes_one h = rw ((one_byte c h).0, decode_from, (one_byte c h).1) refl

  decodes_two : 128 ≤ c → c < 2048 → AsOne
  decodes_two h k =
      rw
        (
          (two_bytes c h k).0,
          starts ((128 + c % 64) ∷ s) (192 + c / 64) (two_bytes c h k).1,
          ends s (c / 64) 128 191 (128 + c % 64) (low_bits c),
          join_two c,
        )
        refl

  decodes_three : IsScalar c → 2048 ≤ c → c < 65536 → AsOne
  decodes_three i h k =
      rw
        (
          (three_bytes c h k).0,
          starts ((128 + c / 64 % 64) ∷ (128 + c % 64) ∷ s) (224 + c / 4096) (three_bytes c h k).1,
          continues ((128 + c % 64) ∷ s) 2 (c / 4096) (second_of_three (c / 4096)).0
              (second_of_three (c / 4096)).1 (128 + c / 64 % 64) (second_three-between c i h k)
              refl,
          ends s (c / 4096 * 64 + (128 + c / 64 % 64 - 128)) 128 191 (128 + c % 64) (low_bits c),
          join_three c,
        )
        refl

  decodes_four : 65536 ≤ c → c < 1114112 → AsOne
  decodes_four h k =
      rw
        (
          (four_bytes c h k).0,
          starts ((128 + c / 4096 % 64) ∷ (128 + c / 64 % 64) ∷ (128 + c % 64) ∷ s)
              (240 + c / 262144) (four_bytes c h k).1,
          continues ((128 + c / 64 % 64) ∷ (128 + c % 64) ∷ s) 3 (c / 262144)
              (second_of_four (c / 262144)).0 (second_of_four (c / 262144)).1 (128 + c / 4096 % 64)
              (second_four-between c h k) refl,
          continues ((128 + c % 64) ∷ s) 2 (c / 262144 * 64 + (128 + c / 4096 % 64 - 128)) 128 191
              (128 + c / 64 % 64) (low_bits (c / 64)) refl,
          ends s ((c / 262144 * 64 + (128 + c / 4096 % 64 - 128)) * 64 + (128 + c / 64 % 64 - 128))
              128 191 (128 + c % 64) (low_bits c),
          join_four c,
        )
        refl

  -- The bytes of one character are read as that character.
  decode_from-encode_utf8 : IsScalar c → AsOne
  decode_from-encode_utf8 h = elim (Bool-cases (ltb c 128)) [
    | inl e ↦ decodes_one (ltb→lt c 128 e)
    | inr e ↦ elim (Bool-cases (ltb c 2048)) [
      | inl f ↦ decodes_two (ground arith) (ltb→lt c 2048 f)
      | inr f ↦ elim (Bool-cases (ltb c 65536)) [
        | inl g ↦ decodes_three h (ground arith) (ltb→lt c 65536 g)
        | inr g ↦ decodes_four (ground arith) h.below
      ]
    ]
  ]

pub from_utf8-bytes : (s : Str) → All IsScalar s → from_utf8 (bytes s) ≡ some s
unfolding from_utf8 bytes
from_utf8-bytes [] h = refl
from_utf8-bytes (c ∷ s) h = rw (decode_from-encode_utf8 c (bytes s) h.0, from_utf8-bytes s h.1) refl
