-- ===== src/Providers/Sse.antt =====
-- packages/providers/src/sse.rs: incremental decoding of server-sent events at byte boundaries. The
-- state after a failed push is not modelled, since the streams that own a decoder end with its error.
pub mod Steps
pub mod Splits
pub mod Wire
pub mod RoundTrip
mod Tests
use mona_agent_core.Prelude.{
  ℕ, ◌+◌, ◌≡◌, Bool, true, false, not, Option, none, some, List, [], ◌∷◌, ◌++◌, ltb, ◌==◌,
  if◌then◌else◌, is_empty, length, saturating_add,
}
use mona_agent_core.Prelude.Strings.{Str, str, str_discrete}
use mona_agent_core.Prelude.Utf8.{from_utf8}
use mona_agent_core.Api.Content.{join_lines}
use mona_agent_core.Api.Error.{
  AgentError, ErrorCode, Result, ok, err, error, refuse, ok_or, ◌>>=◌, ◌>>◌,
}

pub record SseDecoder : Type 0 where
  pub pending : List ℕ
  pub fields : List Str
  pub frame_bytes : ℕ
  pub max_frame : ℕ
  pub first_line : Bool

-- SseDecoder::new
unfoldable pub new : ℕ → SseDecoder
new max_frame = record {
  pending = [];
  fields = [];
  frame_bytes = 0;
  max_frame = max_frame;
  first_line = true;
}

-- The lines that a buffer completes, without their '\n', and the bytes after the last of them.
prepend : ℕ → List (List ℕ) × List ℕ → List (List ℕ) × List ℕ
prepend b ([], rest) = ([], b ∷ rest)
prepend b (l ∷ ls, rest) = ((b ∷ l) ∷ ls, rest)

unfoldable pub split_lines : List ℕ → List (List ℕ) × List ℕ
unfolding prepend
split_lines [] = ([], [])
split_lines (b ∷ s) =
    let cut = split_lines s in if b == 10 then ([] ∷ cut.0, cut.1) else prepend b cut

-- s.strip_suffix(c).unwrap_or(s) and s.strip_prefix(c).unwrap_or(s) of a character
unfoldable pub strip_suffix : ℕ → Str → Str
strip_suffix c [] = []
strip_suffix c (x ∷ []) = if x == c then [] else x ∷ []
strip_suffix c (x ∷ y ∷ s) = x ∷ strip_suffix c (y ∷ s)

unfoldable pub strip_char : ℕ → Str → Str
strip_char c [] = []
strip_char c (x ∷ s) = if x == c then s else x ∷ s

-- s.strip_prefix(prefix) of a string
unfoldable pub strip_prefix : Str → Str → Option Str
strip_prefix [] s = some s
strip_prefix (p ∷ ps) [] = none
strip_prefix (p ∷ ps) (c ∷ s) = if p == c then strip_prefix ps s else none

-- The line without its '\r', and the first one without a byte order mark.
unfoldable text_of_line : Bool → Str → Str
unfolding strip_suffix strip_char
text_of_line first_line decoded =
    let line = strip_suffix b'\r' decoded in if first_line then strip_char 65279 line else line

-- A line that is not empty: the field `data` without a value, with one, or another field.
unfoldable read_as :
    {line : Str} → SseDecoder → Dec (line ≡ str "data") → Option Str → SseDecoder × List Str
unfolding strip_char
read_as d (yes e) content = (record d { fields = d.fields ++ ([] ∷ []) }, [])
read_as d (no e) none = (d, [])
read_as d (no e) (some content) =
    (record d { fields = d.fields ++ (strip_char 32 content ∷ []) }, [])

-- What a line does to the decoder, and the events that it completes.
unfoldable pub read_field : SseDecoder → Str → SseDecoder × List Str
unfolding read_as strip_prefix
read_field d line =
    if is_empty line
    then (
      record d { fields = []; frame_bytes = 0 },
      if is_empty d.fields then [] else join_lines d.fields ∷ [],
    )
    else read_as d (str_discrete line (str "data")) (strip_prefix (str "data:") line)

-- The body of the loop, on the bytes of one line.
unfoldable pub read_line : SseDecoder → List ℕ → Result (SseDecoder × List Str)
unfolding text_of_line read_field
read_line d raw =
    let frame_bytes = saturating_add d.frame_bytes (length raw + 1) in
    refuse (ltb d.max_frame frame_bytes)
      (error ErrorCode.limit "SSE event exceeds configured byte limit")
    >> (ok_or (from_utf8 raw) (error ErrorCode.model_protocol "SSE is not UTF-8") >>= (λ decoded.
        ok (
          read_field (record d { frame_bytes = frame_bytes; first_line = false })
            (text_of_line d.first_line decoded))))

unfoldable pub read_lines : SseDecoder → List (List ℕ) → Result (SseDecoder × List Str)
unfolding read_line
read_lines d [] = ok (d, [])
read_lines d (raw ∷ lines) =
    read_line d raw >>= (λ r. read_lines r.0 lines >>= (λ s. ok (s.0, r.1 ++ s.1)))

-- SseDecoder::push
unfoldable pub push : SseDecoder → List ℕ → Result (SseDecoder × List Str)
unfolding split_lines read_lines
push d chunk =
    let cut = split_lines (d.pending ++ chunk) in
    read_lines d cut.0 >>= (λ r.
      refuse (ltb r.0.max_frame (saturating_add (length cut.1) r.0.frame_bytes))
        (error ErrorCode.limit "unterminated SSE event exceeds byte limit")
      >> ok (record r.0 { pending = cut.1 }, r.1))
