-- ===== src/Providers/Sse/Wire.antt =====
-- packages/providers/src/sse.rs: the lines of one event, written and read.
use mona_agent_core.Prelude.{
  ℕ, ◌+◌, ◌/◌, ◌%◌, ◌≤◌, ◌<◌, ◌≡◌, refl, inl, inr, Bool, true, false, List, [], ◌∷◌, ◌++◌,
  append_assoc, append-nil, arith, ltb, ◌==◌, if◌then◌else◌, is_empty, Bool-cases, length,
  length-append, All, All-append, usize_max, saturating_add,
}
use mona_agent_core.Prelude.Strings.{Str, str, str_discrete, bytes, encode_utf8}
use mona_agent_core.Prelude.Utf8.{from_utf8, from_utf8-bytes, IsScalar}
use mona_agent_core.Api.Content.{join_lines}
use mona_agent_core.Api.Error.{ok}
use mona_agent_core.Providers.Sse.{
  SseDecoder, prepend, split_lines, read_field, read_line, read_lines, strip_suffix, strip_char,
  text_of_line,
}

-- A text that one field can carry.
pub record IsField (t : Str) : Type 0 where
  pub scalars : All IsScalar t
  pub one_line : All (λ b. (b == 10) ≡ false) t
  pub no_return : strip_suffix b'\r' t ≡ t

abbrev field_line : Str → Str
field_line t = b'd' ∷ b'a' ∷ b't' ∷ b'a' ∷ b':' ∷ 32 ∷ t

-- The lines of one event, the last one empty, and those of a stream of events.
unfoldable pub lines_of : List Str → List (List ℕ)
lines_of [] = [] ∷ []
lines_of (t ∷ ts) = bytes (field_line t) ∷ lines_of ts

unfoldable pub stream_lines : List (Str × List Str) → List (List ℕ)
unfolding lines_of
stream_lines [] = []
stream_lines (e ∷ es) = lines_of (e.0 ∷ e.1) ++ stream_lines es

-- Lines on the wire, and how long they are.
unfoldable pub wire : List (List ℕ) → List ℕ
wire [] = []
wire (l ∷ ls) = l ++ 10 ∷ wire ls

text_of_line-field :
    (first : Bool) (t : Str) → IsField t → text_of_line first (field_line t) ≡ field_line t
unfolding text_of_line strip_suffix strip_char
text_of_line-field true [] h = refl
text_of_line-field false [] h = refl
text_of_line-field true (x ∷ t) h = rw h.no_return refl
text_of_line-field false (x ∷ t) h = rw h.no_return refl

read_field-field :
    (d : SseDecoder) (t : Str)
    → read_field d (field_line t) ≡ (record d { fields = d.fields ++ (t ∷ []) }, [])
unfolding read_field str_discrete str
read_field-field d t = refl

pub split_lines-wire :
    (l s : List ℕ)
    → All (λ b. (b == 10) ≡ false) l
    → split_lines (l ++ 10 ∷ s) ≡ (l ∷ (split_lines s).0, (split_lines s).1)
unfolding split_lines prepend
split_lines-wire [] s h = refl
split_lines-wire (b ∷ l) s h = rw (h.0, split_lines-wire l s h.1) refl

apart : (n m : ℕ) → 11 ≤ n → (n + m == 10) ≡ false
apart n m h = ground arith

encode_utf8-Unended : (c : ℕ) → (c == 10) ≡ false → All (λ b. (b == 10) ≡ false) (encode_utf8 c)
unfolding encode_utf8
encode_utf8-Unended c h = elim (Bool-cases (ltb c 128)) [
  | inl e ↦ rw e (h, tt)
  | inr e ↦ elim (Bool-cases (ltb c 2048)) [
    | inl f ↦ rw (e, f) (apart 192 (c / 64) (omega arith), (apart 128 (c % 64) (omega arith), tt))
    | inr f ↦ elim (Bool-cases (ltb c 65536)) [
      | inl g ↦
          rw (e, f, g)
            (
              apart 224 (c / 4096) (omega arith),
              (apart 128 (c / 64 % 64) (omega arith), (apart 128 (c % 64) (omega arith), tt)),
            )
      | inr g ↦
          rw (e, f, g)
            (
              apart 240 (c / 262144) (omega arith),
              (
                apart 128 (c / 4096 % 64) (omega arith),
                (apart 128 (c / 64 % 64) (omega arith), (apart 128 (c % 64) (omega arith), tt)),
              ),
            )
    ]
  ]
]

bytes-Unended : (t : Str) → All (λ b. (b == 10) ≡ false) t → All (λ b. (b == 10) ≡ false) (bytes t)
unfolding bytes
bytes-Unended [] h = tt
bytes-Unended (c ∷ t) h =
    All-append (λ b. (b == 10) ≡ false) (encode_utf8 c) (bytes t) (encode_utf8-Unended c h.0)
      (bytes-Unended t h.1)

pub scalar : (c : ℕ) → c < 55296 → IsScalar c
scalar c h = record { below = omega arith; not_surrogate = inl h }

field_line-scalars : (t : Str) → All IsScalar t → All IsScalar (field_line t)
field_line-scalars t h = (
  scalar b'd' (omega arith),
  (
    scalar b'a' (omega arith),
    (
      scalar b't' (omega arith),
      (scalar b'a' (omega arith), (scalar b':' (omega arith), (scalar 32 (omega arith), h))),
    ),
  ),
)

pub field_line-Unended : (t : Str) → IsField t → All (λ b. (b == 10) ≡ false) (bytes (field_line t))
field_line-Unended t h =
    bytes-Unended (field_line t) (refl, (refl, (refl, (refl, (refl, (refl, h.one_line))))))

-- The decoder after the lines of one event, and after one field of it.
abbrev after_field : SseDecoder → Str → SseDecoder
after_field d t = record d {
  fields = d.fields ++ (t ∷ []);
  frame_bytes = d.frame_bytes + (length (bytes (field_line t)) + 1);
  first_line = false;
}

abbrev pub after_event : SseDecoder → SseDecoder
after_event d = record d { fields = []; frame_bytes = 0; first_line = false }

within : {limit n : ℕ} → n ≤ limit → ltb limit n ≡ false
within h = ground arith

exact : {limit : ℕ} (a b : ℕ) → a + b ≤ limit → limit ≤ usize_max → saturating_add a b ≡ a + b
unfolding saturating_add
exact a b h k = ground arith

read_line-field :
    (d : SseDecoder) (t : Str)
    → IsField t
    → d.frame_bytes + (length (bytes (field_line t)) + 1) ≤ d.max_frame
    → d.max_frame ≤ usize_max
    → read_line d (bytes (field_line t)) ≡ ok (after_field d t, [])
unfolding read_line str_discrete str
read_line-field d t h fits small =
    rw
      (
        exact d.frame_bytes (length (bytes (field_line t)) + 1) fits small,
        within fits,
        from_utf8-bytes (field_line t) (field_line-scalars t h.scalars),
        text_of_line-field d.first_line t h,
      )
      refl

-- The events that the lines of `fields` make.
abbrev pub events_of : List Str → List Str
events_of fields = if is_empty fields then [] else join_lines fields ∷ []

read_line-end :
    (d : SseDecoder)
    → d.frame_bytes + 1 ≤ d.max_frame
    → d.max_frame ≤ usize_max
    → read_line d [] ≡ ok (after_event d, events_of d.fields)
unfolding read_line from_utf8 join_lines
read_line-end d fits small =
    rw (exact d.frame_bytes 1 fits small, within fits, text_of_line-nil d.first_line) refl
  where
    text_of_line-nil : (first : Bool) → text_of_line first [] ≡ []
    text_of_line-nil true = refl
    text_of_line-nil false = refl

pub read_lines-event :
    (d : SseDecoder) (ts : List Str)
    → All IsField ts
    → d.frame_bytes + length (wire (lines_of ts)) ≤ d.max_frame
    → d.max_frame ≤ usize_max
    → read_lines d (lines_of ts) ≡ ok (after_event d, events_of (d.fields ++ ts))
unfolding read_lines lines_of wire
read_lines-event d [] h fits small =
    rw (read_line-end d fits small, append-nil d.fields, append-nil (events_of d.fields)) refl
read_lines-event d (t ∷ ts) h fits small =
    rw
      (
        read_line-field d t h.0 (omega (arith, shorter)) small,
        read_lines-event (after_field d t) ts h.1 (omega (arith, shorter)) small,
        append_assoc d.fields (t ∷ []) ts,
      )
      refl
  where
    shorter :
        length (wire (lines_of (t ∷ ts)))
        ≡ length (bytes (field_line t)) + 1 + length (wire (lines_of ts))
    shorter = omega (arith, length-append (bytes (field_line t)) (10 ∷ wire (lines_of ts)))
