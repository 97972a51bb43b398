-- ===== src/Providers/Sse/Steps.antt =====
-- packages/providers/src/sse.rs: one push after another, line by line.
use mona_agent_core.Prelude.{
  ℕ, ◌+◌, ◌≤◌, ◌≡◌, refl, sym, ap, ◌⊎◌, inl, inr, Bool, false, Option, none, some, List, [], ◌∷◌,
  ◌++◌, append_assoc, arith, ltb, ◌==◌, Bool-cases, length, All, saturating_add,
}
use mona_agent_core.Prelude.Strings.{Str, str, str_discrete}
use mona_agent_core.Prelude.Utf8.{from_utf8}
use mona_agent_core.Api.Error.{ErrorCode, Result, ok, err, error, refuse, ok_or, ◌>>=◌, ◌>>◌}
use mona_agent_core.Providers.Sse.{
  SseDecoder, prepend, split_lines, read_as, read_field, read_line, read_lines, push, strip_prefix,
  text_of_line,
}

-- What a caller sees of a result: the value, or the code of the error.
abbrev pub seen {ℓ} : {T : Type ℓ} → Result T → ErrorCode ⊎ T
seen (err e) = inl e.code
seen (ok a) = inr a

-- The chunks of a stream, each pushed when it arrives.
unfoldable pub push_all : SseDecoder → List (List ℕ) → Result (SseDecoder × List Str)
unfolding push
push_all d [] = ok (d, [])
push_all d (c ∷ cs) = push d c >>= (λ r. push_all r.0 cs >>= (λ s. ok (s.0, r.1 ++ s.1)))

unfoldable pub concat : List (List ℕ) → List ℕ
concat [] = []
concat (c ∷ cs) = c ++ concat cs

abbrev joined : List (List ℕ) × List ℕ → List (List ℕ) × List ℕ → List (List ℕ) × List ℕ
joined a b = (a.0 ++ b.0, b.1)

prepend-joined :
    (x : ℕ) (a : List (List ℕ) × List ℕ) (b : List ℕ)
    → (x == 10) ≡ false
    → prepend x (joined a (split_lines (a.1 ++ b)))
      ≡ joined (prepend x a) (split_lines ((prepend x a).1 ++ b))
unfolding prepend split_lines
prepend-joined x ([], rest) b h = rw (split_lines, h) refl
prepend-joined x (l ∷ ls, rest) b h = refl

-- Cutting two buffers is cutting the first, and then what it left with the second.
pub split_lines-append :
    (a b : List ℕ)
    → split_lines (a ++ b) ≡ joined (split_lines a) (split_lines ((split_lines a).1 ++ b))
unfolding split_lines
split_lines-append [] b = refl
split_lines-append (x ∷ a) b = elim (Bool-cases (x == 10)) [
  | inl e ↦ rw (e, split_lines-append a b) refl
  | inr e ↦ rw (e, split_lines-append a b) (prepend-joined x (split_lines a) b e)
]

-- A result whose decoder has other pending bytes.
abbrev pub with_pending : List ℕ → Result (SseDecoder × List Str) → Result (SseDecoder × List Str)
with_pending p (err e) = err e
with_pending p (ok r) = ok (record r.0 { pending = p }, r.1)

-- The two ways on from a line that is not empty.
field-pending :
    (p : List ℕ) (d : SseDecoder) (line : Str) (whole : Dec (line ≡ str "data"))
    (content : Option Str)
    → read_as (record d { pending = p }) whole content
      ≡ (record (read_as d whole content).0 { pending = p }, (read_as d whole content).1)
unfolding read_as
field-pending p d line (yes e) content = refl
field-pending p d line (no e) none = refl
field-pending p d line (no e) (some content) = refl

read_field-pending :
    (p : List ℕ) (d : SseDecoder) (line : Str)
    → read_field (record d { pending = p }) line
      ≡ (record (read_field d line).0 { pending = p }, (read_field d line).1)
unfolding read_field
read_field-pending p d [] = refl
read_field-pending p d (x ∷ s) =
    field-pending p d (x ∷ s) (str_discrete (x ∷ s) (str "data"))
      (strip_prefix (str "data:") (x ∷ s))

module _ (p : List ℕ) (d : SseDecoder) where
  decoded-pending :
      (frame : ℕ) (first : Bool) (o : Option Str)
      → (ok_or o (error ErrorCode.model_protocol "SSE is not UTF-8") >>= (λ decoded. ok (
          read_field
            (record d { pending = p; frame_bytes = frame; first_line = false })
            (text_of_line first decoded))))
        ≡ with_pending p (
            ok_or o (error ErrorCode.model_protocol "SSE is not UTF-8") >>= (λ decoded. ok (
              read_field
                (record d { frame_bytes = frame; first_line = false })
                (text_of_line first decoded))))
  decoded-pending frame first none = refl
  decoded-pending frame first (some t) = ap ok (
      read_field-pending p (record d { frame_bytes = frame; first_line = false })
        (text_of_line first t))

  read_line-pending :
      (raw : List ℕ) → read_line (record d { pending = p }) raw ≡ with_pending p (read_line d raw)
  unfolding read_line
  read_line-pending raw =
      elim (Bool-cases (ltb d.max_frame (saturating_add d.frame_bytes (length raw + 1)))) [
        | inl e ↦ rw e refl
        | inr e ↦ rw e (
            decoded-pending (saturating_add d.frame_bytes (length raw + 1)) d.first_line
              (from_utf8 raw))
      ]

-- A step, and another one from the decoder that it leaves; the events of both.
abbrev pub then_read :
    Result (SseDecoder × List Str)
    → (SseDecoder → Result (SseDecoder × List Str))
    → Result (SseDecoder × List Str)
then_read m k = m >>= (λ r. k r.0 >>= (λ s. ok (s.0, r.1 ++ s.1)))

abbrev pub after : List Str → Result (SseDecoder × List Str) → Result (SseDecoder × List Str)
after es m = m >>= (λ s. ok (s.0, es ++ s.1))

after-nil : (m : Result (SseDecoder × List Str)) → after [] m ≡ m
after-nil (err e) = refl
after-nil (ok r) = refl

after-after :
    (es fs : List Str) (m : Result (SseDecoder × List Str))
    → after es (after fs m) ≡ after (es ++ fs) m
after-after es fs (err e) = refl
after-after es fs (ok r) = ap (λ (gs : List Str). ok (r.0, gs)) (sym (append_assoc es fs r.1))

after-then_read :
    (es : List Str) (m : Result (SseDecoder × List Str))
    (k : SseDecoder → Result (SseDecoder × List Str))
    → then_read (after es m) k ≡ after es (then_read m k)
after-then_read es (err e) k = refl
after-then_read es (ok r) k = sym (after-after es r.1 (k r.0))

then_read_assoc :
    (m : Result (SseDecoder × List Str)) (k l : SseDecoder → Result (SseDecoder × List Str))
    → then_read (then_read m k) l ≡ then_read m (λ d. then_read (k d) l)
then_read_assoc (err e) k l = refl
then_read_assoc (ok r) k l = after-then_read r.1 (k r.0) l

-- The same after one more line.
line-append :
    (ls ms : List (List ℕ)) (m : Result (SseDecoder × List Str))
    → ((d : SseDecoder)
        → read_lines d (ls ++ ms) ≡ then_read (read_lines d ls) (λ f. read_lines f ms))
    → then_read m (λ f. read_lines f (ls ++ ms))
      ≡ then_read (then_read m (λ f. read_lines f ls)) (λ f. read_lines f ms)
line-append ls ms (err e) h = refl
line-append ls ms (ok r) h =
    rw (h r.0) (sym (after-then_read r.1 (read_lines r.0 ls) (λ f. read_lines f ms)))

pub read_lines-append :
    (d : SseDecoder) (ls ms : List (List ℕ))
    → read_lines d (ls ++ ms) ≡ then_read (read_lines d ls) (λ f. read_lines f ms)
unfolding read_lines
read_lines-append d [] ms = sym (after-nil (read_lines d ms))
read_lines-append d (raw ∷ ls) ms =
    line-append ls ms (read_line d raw) (λ f. read_lines-append f ls ms)

-- No byte of it ends a line.
abbrev pub Unended : List ℕ → Type 0
Unended = All (λ b. (b == 10) ≡ false)

prepend-Unended :
    (x : ℕ) (cut : List (List ℕ) × List ℕ)
    → (x == 10) ≡ false
    → Unended cut.1
    → Unended (prepend x cut).1
unfolding prepend
prepend-Unended x ([], rest) h k = (h, k)
prepend-Unended x (l ∷ ls, rest) h k = k

pub split_lines-Unended : (s : List ℕ) → Unended (split_lines s).1
unfolding split_lines
split_lines-Unended [] = tt
split_lines-Unended (x ∷ s) = elim (Bool-cases (x == 10)) [
  | inl e ↦ rw e (split_lines-Unended s)
  | inr e ↦ rw e (prepend-Unended x (split_lines s) e (split_lines-Unended s))
]

-- The first piece of a buffer that was cut.
abbrev pub first_piece : List (List ℕ) × List ℕ → List ℕ
first_piece ([], rest) = rest
first_piece (l ∷ ls, rest) = l

first_piece-prepend :
    (x : ℕ) (cut : List (List ℕ) × List ℕ) → first_piece (prepend x cut) ≡ x ∷ first_piece cut
unfolding prepend
first_piece-prepend x ([], rest) = refl
first_piece-prepend x (l ∷ ls, rest) = refl

pub first_piece-append :
    (p b : List ℕ) → Unended p → length p ≤ length (first_piece (split_lines (p ++ b)))
unfolding split_lines
first_piece-append [] b h = omega arith
first_piece-append (x ∷ p) b h =
    rw (h.0, first_piece-prepend x (split_lines (p ++ b)))
      (omega (arith, first_piece-append p b h.1))

module _ (p : List ℕ) (d : SseDecoder) where
  with_pending-read_lines :
      (ls : List (List ℕ)) (m : Result (SseDecoder × List Str))
      → ((f : SseDecoder)
          → read_lines (record f { pending = p }) ls ≡ with_pending p (read_lines f ls))
      → then_read (with_pending p m) (λ f. read_lines f ls)
        ≡ with_pending p (then_read m (λ f. read_lines f ls))
  with_pending-read_lines ls (err e) h = refl
  with_pending-read_lines ls (ok r) h = rw (h r.0) (with_pending-after r.1 (read_lines r.0 ls))
    where
      with_pending-after :
          (es : List Str) (m : Result (SseDecoder × List Str))
          → after es (with_pending p m) ≡ with_pending p (after es m)
      with_pending-after es (err e) = refl
      with_pending-after es (ok r) = refl

pub read_lines-pending :
    (p : List ℕ) (d : SseDecoder) (ls : List (List ℕ))
    → read_lines (record d { pending = p }) ls ≡ with_pending p (read_lines d ls)
unfolding read_lines
read_lines-pending p d [] = refl
read_lines-pending p d (raw ∷ ls) =
    rw (read_line-pending p d raw)
      (with_pending-read_lines p d ls (read_line d raw) (λ f. read_lines-pending p f ls))

-- The end of a push, with the bytes that no '\n' ended.
abbrev pub finish : List ℕ → SseDecoder × List Str → Result (SseDecoder × List Str)
finish rest r =
    refuse (ltb r.0.max_frame (saturating_add (length rest) r.0.frame_bytes))
      (error ErrorCode.limit "unterminated SSE event exceeds byte limit")
    >> ok (record r.0 { pending = rest }, r.1)
