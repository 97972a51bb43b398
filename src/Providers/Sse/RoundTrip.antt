-- ===== src/Providers/Sse/RoundTrip.antt =====
-- packages/providers/src/sse.rs: what the decoder reads from a stream that is written by the rules of
-- server-sent events.
use mona_agent_core.Prelude.{
  ℕ, ◌≤◌, ◌≡◌, refl, ap, ◌∙◌, inr, false, List, [], ◌∷◌, ◌++◌, map, arith, ltb, ◌==◌, length, All,
  All-append, usize_max, saturating_add,
}
use mona_agent_core.Prelude.Strings.{Str}
use mona_agent_core.Api.Content.{join_lines}
use mona_agent_core.Api.Error.{Result, ok, err}
use mona_agent_core.Providers.Sse.Steps.{seen, push_all, concat, read_lines-append}
use mona_agent_core.Providers.Sse.{SseDecoder, new, split_lines, read_lines, push}
use mona_agent_core.Providers.Sse.Splits.{push_all-concat}
use mona_agent_core.Providers.Sse.Wire.{
  IsField, after_event, events_of, field_line-Unended, lines_of, read_lines-event, split_lines-wire,
  stream_lines, wire,
}

-- An event that a decoder with this limit accepts.
pub record Fits (limit : ℕ) (event : Str × List Str) : Type 0 where
  pub fields : All IsField (event.0 ∷ event.1)
  pub size : length (wire (lines_of (event.0 ∷ event.1))) ≤ limit

-- Between two events.
pub record Idle (d : SseDecoder) : Type 0 where
  pub no_pending : d.pending ≡ []
  pub no_fields : d.fields ≡ []
  pub no_frame : d.frame_bytes ≡ 0

abbrev pub event_text : Str × List Str → Str
event_text e = join_lines (e.0 ∷ e.1)

one_more :
    (d : SseDecoder) (e : Str × List Str) (es : List (Str × List Str)) (f : SseDecoder)
    → read_lines d (lines_of (e.0 ∷ e.1)) ≡ ok (after_event d, event_text e ∷ [])
    → read_lines (after_event d) (stream_lines es) ≡ ok (f, map event_text es)
    → read_lines d (stream_lines (e ∷ es)) ≡ ok (f, map event_text (e ∷ es))
unfolding stream_lines
one_more d e es f h k = rw (read_lines-append d (lines_of (e.0 ∷ e.1)) (stream_lines es), h, k) refl

first_event :
    (d : SseDecoder) (e : Str × List Str)
    → Idle d
    → Fits d.max_frame e
    → d.max_frame ≤ usize_max
    → read_lines d (lines_of (e.0 ∷ e.1)) ≡ ok (after_event d, event_text e ∷ [])
first_event d e idle fits small =
    read_lines-event d (e.0 ∷ e.1) fits.fields (omega (arith, idle.no_frame, fits.size)) small
    ∙ ap (λ (fs : List Str). ok (after_event d, events_of (fs ++ (e.0 ∷ e.1)))) idle.no_fields

read_lines-stream :
    (d : SseDecoder) (es : List (Str × List Str))
    → Idle d
    → All (Fits d.max_frame) es
    → d.max_frame ≤ usize_max
    → (f : SseDecoder) × (read_lines d (stream_lines es) ≡ ok (f, map event_text es))
      × Idle f
      × (f.max_frame ≡ d.max_frame)
unfolding stream_lines read_lines
read_lines-stream d [] idle fits small = (d, refl, idle, refl)
read_lines-stream d (e ∷ es) idle fits small =
    let rest =
      read_lines-stream (after_event d) es
        (record { no_pending = idle.no_pending; no_fields = refl; no_frame = refl }) fits.1 small in
    (rest.0, one_more d e es rest.0 (first_event d e idle fits.0 small) rest.1, rest.2, rest.3)

All-lines : (ts : List Str) → All IsField ts → All (All (λ b. (b == 10) ≡ false)) (lines_of ts)
unfolding lines_of
All-lines [] h = (tt, tt)
All-lines (t ∷ ts) h = (field_line-Unended t h.0, All-lines ts h.1)

All-stream :
    (limit : ℕ) (es : List (Str × List Str))
    → All (Fits limit) es
    → All (All (λ b. (b == 10) ≡ false)) (stream_lines es)
unfolding stream_lines
All-stream limit [] h = tt
All-stream limit (e ∷ es) h =
    All-append (All (λ b. (b == 10) ≡ false)) (lines_of (e.0 ∷ e.1)) (stream_lines es)
      (All-lines (e.0 ∷ e.1) h.0.fields) (All-stream limit es h.1)

split_lines-lines :
    (ls : List (List ℕ)) → All (All (λ b. (b == 10) ≡ false)) ls → split_lines (wire ls) ≡ (ls, [])
unfolding wire split_lines
split_lines-lines [] h = refl
split_lines-lines (l ∷ ls) h = rw (split_lines-wire l (wire ls) h.0, split_lines-lines ls h.1) refl

nothing_over : (limit : ℕ) {n : ℕ} → n ≡ 0 → ltb limit (saturating_add 0 n) ≡ false
unfolding saturating_add
nothing_over limit h = ground arith

-- The whole stream at once.
push-stream :
    (limit : ℕ) (es : List (Str × List Str))
    → All (Fits limit) es
    → limit ≤ usize_max
    → (f : SseDecoder) × (push (new limit) (wire (stream_lines es)) ≡ ok (f, map event_text es))
      × Idle f
unfolding push new
push-stream limit es fits small =
    let read =
      read_lines-stream (new limit) es
        (record { no_pending = refl; no_fields = refl; no_frame = refl }) fits small in
    (
      record read.0 { pending = [] },
      rw
          (
            split_lines-lines (stream_lines es) (All-stream limit es fits),
            read.1,
            nothing_over read.0.max_frame read.2.no_frame,
          )
          refl,
      record { no_pending = refl; no_fields = read.2.no_fields; no_frame = read.2.no_frame },
    )

seen-ok : {T : Type 0} (m : Result T) {a : T} → seen m ≡ inr a → m ≡ ok a
seen-ok (err e) h = cc
seen-ok (ok b) h = cc

-- A stream of events, each written as one or more `data: ` lines and an empty line, is decoded to the
-- texts of the events in their order, the lines of each joined with '\n', and the decoder is left
-- between two events, however the stream is cut into one or more chunks; each line of the events is
-- made of Unicode scalar values, has no '\n' and does not end in '\r', the lines of each event fit
-- the limit, and the limit is a `usize`.
pub push_all-stream :
    (limit : ℕ) (es : List (Str × List Str)) (c : List ℕ) (cs : List (List ℕ))
    → All (Fits limit) es
    → limit ≤ usize_max
    → c ++ concat cs ≡ wire (stream_lines es)
    → (f : SseDecoder) × (push_all (new limit) (c ∷ cs) ≡ ok (f, map event_text es)) × Idle f
push_all-stream limit es c cs fits small cut =
    let whole = push-stream limit es fits small in
    (
      whole.0,
      seen-ok (push_all (new limit) (c ∷ cs)) (
          push_all-concat (new limit) c cs
          ∙ ap (λ s. seen (push (new limit) s)) cut
          ∙ ap seen whole.1),
      whole.2,
    )
