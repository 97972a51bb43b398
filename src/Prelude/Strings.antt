-- ===== src/Prelude/Strings.antt =====
-- Rust strings as lists of Unicode scalar values, with the `str` methods that the program calls.
use Prim.Native.Char.{code}
use Prim.Native.String.{String}
use mathlib.Core.List.{List, [], ◌∷◌, ◌++◌, reverse}
use mathlib.Core.Bool.{Bool, true, false, ◌&&◌, ◌||◌}
use mathlib.Core.Path.{◌≡◌, refl, sym}
use mathlib.Core.Logic.{◌≢◌}
use Prim.Native.Nat.{ℕ, ◌+◌, ◌/◌, ◌%◌, ◌≤◌}
use native.Mathlib.Omega.{arith}
use native.Mathlib.Decide.{ℕ_discrete}
use mona_agent_core.Prelude.Tests.{ltb, leb, ◌==◌, if◌then◌else◌}
use mona_agent_core.Prelude.Lists.{length, length-append}

abbrev pub Str : Type 0
Str = List ℕ

heads : {x y : ℕ} {s t : Str} → x ∷ s ≡ y ∷ t → x ≡ y
heads h = cc

tails : {x y : ℕ} {s t : Str} → x ∷ s ≡ y ∷ t → s ≡ t
tails h = cc

nil-ne-cons : {x : ℕ} {s : Str} → [] ≢ x ∷ s
nil-ne-cons h = cc

cons-cong : {x y : ℕ} {s t : Str} → x ≡ y → s ≡ t → x ∷ s ≡ y ∷ t
cons-cong h k = cc

-- Equality of strings.
unfoldable pub str_discrete : Discrete Str
unfolding ℕ_discrete heads tails nil-ne-cons cons-cong
str_discrete [] [] = yes refl
str_discrete [] (y ∷ t) = no nil-ne-cons
str_discrete (x ∷ s) [] = no (λ e. nil-ne-cons (sym e))
str_discrete (x ∷ s) (y ∷ t) = elim (ℕ_discrete x y) [
  | no p ↦ no (λ e. p (heads e))
  | yes p ↦ elim (str_discrete s t) [ no q ↦ no (λ e. q (tails e)) | yes q ↦ yes (cons-cong p q) ]
]

-- A literal of the source.
unfoldable pub str : String → Str
str String.[] = []
str (String.◌∷◌ c s) = code c ∷ str s

-- c.len_utf8()
unfoldable pub len_utf8 : ℕ → ℕ
len_utf8 c = if ltb c 128 then 1 else if ltb c 2048 then 2 else if ltb c 65536 then 3 else 4

-- s.len(): the length in bytes.
unfoldable pub len : Str → ℕ
unfolding len_utf8
len [] = 0
len (c ∷ s) = len_utf8 c + len s

-- The UTF-8 encoding of a character.
unfoldable pub encode_utf8 : ℕ → List ℕ
encode_utf8 c =
    if ltb c 128
    then c ∷ []
    else if ltb c 2048
    then (192 + c / 64) ∷ (128 + c % 64) ∷ []
    else if ltb c 65536
    then (224 + c / 4096) ∷ (128 + c / 64 % 64) ∷ (128 + c % 64) ∷ []
    else (240 + c / 262144) ∷ (128 + c / 4096 % 64) ∷ (128 + c / 64 % 64) ∷ (128 + c % 64) ∷ []

-- s.bytes(), s.as_bytes()
unfoldable pub bytes : Str → List ℕ
unfolding encode_utf8
bytes [] = []
bytes (c ∷ s) = encode_utf8 c ++ bytes s

-- char::is_control: the general category Cc.
unfoldable pub is_control : ℕ → Bool
is_control c = ltb c 32 || (leb 127 c && ltb c 160)

-- char::is_whitespace: the property White_Space.
unfoldable pub is_whitespace : ℕ → Bool
is_whitespace c =
    (leb 9 c && leb c 13)
    || c == 32
    || c == 133
    || c == 160
    || c == 5760
    || (leb 8192 c && leb c 8202)
    || c == 8232
    || c == 8233
    || c == 8239
    || c == 8287
    || c == 12288

skip_whitespace : Str → Str
skip_whitespace [] = []
skip_whitespace (c ∷ s) = let rest = skip_whitespace s in if is_whitespace c then rest else c ∷ s

-- s.trim()
unfoldable pub trim : Str → Str
unfolding skip_whitespace is_whitespace
trim s = reverse (skip_whitespace (reverse (skip_whitespace s)))

-- b.is_ascii_alphanumeric()
unfoldable pub is_ascii_alphanumeric : ℕ → Bool
is_ascii_alphanumeric b =
    (leb b'0' b && leb b b'9') || (leb b'A' b && leb b b'Z') || (leb b'a' b && leb b b'z')

-- s.starts_with(prefix)
unfoldable pub starts_with : Str → Str → Bool
starts_with [] s = true
starts_with (p ∷ ps) [] = false
starts_with (p ∷ ps) (c ∷ s) = p == c && starts_with ps s

pub len-append : (s t : Str) → len (s ++ t) ≡ len s + len t
unfolding len
len-append [] t = omega arith
len-append (c ∷ s) t = omega (arith, len-append s t)

length-encode_utf8 : (c : ℕ) → length (encode_utf8 c) ≡ len_utf8 c
unfolding encode_utf8 len_utf8
length-encode_utf8 c = ground arith

-- `len` counts the bytes of the encoding.
pub len-bytes : (s : Str) → length (bytes s) ≡ len s
unfolding len bytes
len-bytes [] = refl
len-bytes (c ∷ s) =
    omega (arith, length-append (encode_utf8 c) (bytes s), length-encode_utf8 c, len-bytes s)

pub len_utf8_pos : (c : ℕ) → 1 ≤ len_utf8 c
unfolding len_utf8
len_utf8_pos c = ground arith
