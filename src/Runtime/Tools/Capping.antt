-- ===== src/Runtime/Tools/Capping.antt =====
-- The size of a capped tool result.
use native.Mathlib.Nat.{le_trans}
use mona_agent_core.Runtime.Tools.{cap_result, notice}
use mona_agent_core.Api.ToolResults.{payload_bytes, byte_len}
use mona_agent_core.Api.Serializer.{Serializer}
use mona_agent_core.Api.Content.{Content, preview}
use mona_agent_core.Prelude.{
  ℕ, zero, suc, ◌+◌, ◌-◌, ◌≤◌, min, max, ◌≡◌, refl, inl, inr, none, [], ◌∷◌, ◌++◌, arith, ltb, leb,
  Bool-cases, leb→le, usize_max, saturating_add,
}
use mona_agent_core.Prelude.Strings.{len-append, str, Str, len, len_utf8}
use mona_agent_core.Api.Message.{ToolResult, clip_utf8, floor_boundary, prefix}

prefix-len : (s : Str) (end : ℕ) → len (prefix s end) ≤ end
unfolding prefix len
prefix-len [] end = omega arith
prefix-len (c ∷ s) end =
    let ih = prefix-len s (end - len_utf8 c) in
    elim (Bool-cases (ltb end (len_utf8 c))) [
      | inl h ↦ rw h (omega arith)
      | inr h ↦ let fits : len_utf8 c ≤ end = ground (arith, h) in rw h (omega (arith, ih, fits))
    ]

floor_boundary-le : (s : Str) (end : ℕ) → floor_boundary s end ≤ end
unfolding floor_boundary
floor_boundary-le s zero = omega arith
floor_boundary-le s (suc end) = ground (arith, floor_boundary-le s end)

-- A clipped text is within its limit of bytes.
pub clip_utf8-len : (s : Str) (limit : ℕ) → len (clip_utf8 s limit) ≤ limit
unfolding clip_utf8
clip_utf8-len s limit =
    let cut = floor_boundary-le s (min (len s) limit) in
    let short = prefix-len s (floor_boundary s (min (len s) limit)) in omega (arith, cut, short)

opening : len (str "[truncated: ") ≤ 20
unfolding len str
opening = ground arith

ending : len (str " original bytes; omitted content is not retained by core]") ≤ 80
unfolding len str
ending = ground arith

newline-len : (s : Str) → len (10 ∷ s) ≡ 1 + len s
unfolding len len_utf8
newline-len s = refl

clipped-len :
    (s suffix : Str) (limit : ℕ)
    → len suffix ≤ limit
    → len (clip_utf8 s (limit - len suffix) ++ suffix) ≤ limit
clipped-len s suffix limit h = omega (
  arith,
  len-append (clip_utf8 s (limit - len suffix)) suffix,
  clip_utf8-len s (limit - len suffix),
)

module _ {V : Type 0} (json : Serializer V) (decimal : ℕ → Str) where
  notice-len : (n : ℕ) → len (decimal n) ≤ 20 → len (notice json decimal n) ≤ 128
  unfolding notice len str
  notice-len n h = omega (
    arith,
    opening,
    ending,
    h,
    newline-len (
        str "[truncated: "
        ++ decimal n
        ++ str " original bytes; omitted content is not retained by core]"),
    len-append (str "[truncated: ")
        (decimal n ++ str " original bytes; omitted content is not retained by core]"),
    len-append (decimal n) (str " original bytes; omitted content is not retained by core]"),
  )

  text-payload :
      (r : ToolResult V) (t : Str)
      → r.structured ≡ none
      → r.artifact ≡ none
      → r.content ≡ Content.text t
      → payload_bytes json r ≤ len t
  unfolding payload_bytes byte_len saturating_add
  text-payload r t h k e = rw (h, k, e) (omega arith)

  payload-word : (r : ToolResult V) → payload_bytes json r ≤ usize_max
  unfolding payload_bytes saturating_add
  payload-word r = omega arith

  -- A capped result is within the limit for payloads, if the limit is at least 128 bytes as the limits of
  -- a run demand, and a number of bytes has at most 20 digits.
  pub cap_result-payload :
      (r : ToolResult V) (limit : ℕ)
      → ((n : ℕ) → n ≤ usize_max → len (decimal n) ≤ 20)
      → r.original_bytes ≤ usize_max
      → 128 ≤ limit
      → payload_bytes json (cap_result json decimal r limit).0 ≤ limit
  unfolding cap_result
  cap_result-payload r limit digits fits low =
      elim (Bool-cases (leb (payload_bytes json r) limit)) [
        | inl h ↦ rw h (leb→le _ _ h)
        | inr h ↦
            let original = max r.original_bytes (payload_bytes json r) in
            let word : original ≤ usize_max = omega (arith, payload-word r) in
            let small = notice-len original (digits original word) in
            let text =
              clipped-len (preview r.content) (notice json decimal original) limit
                (omega (arith, small, low)) in
            rw h (le_trans (text-payload _ _ refl refl refl) text)
      ]
