-- ===== src/Providers/Sse/Tests.antt =====
-- The streams of the source's tests, and a stream of two events cut inside a character.
use mona_agent_core.Prelude.{
  ℕ, ◌<◌, ◌≡◌, refl, inl, Option, none, some, List, [], ◌∷◌, ◌++◌, map, arith, take, drop, All,
  saturating_add,
}
use mona_agent_core.Prelude.Strings.{Str, str, bytes}
use mona_agent_core.Prelude.Utf8.{IsScalar}
use mona_agent_core.Api.Error.{ErrorCode, Result, ok, err}
use mona_agent_core.Providers.Sse.{SseDecoder, new, push}
use mona_agent_core.Providers.Sse.Steps.{seen, push_all, concat}
use mona_agent_core.Providers.Sse.Splits.{push_all-concat}
use mona_agent_core.Providers.Sse.Wire.{IsField, wire, stream_lines}
use mona_agent_core.Providers.Sse.RoundTrip.{Fits, Idle, event_text, push_all-stream}

-- The events of a push, if it succeeded.
abbrev heard : Result (SseDecoder × List Str) → Option (List Str)
heard (err e) = none
heard (ok r) = some r.1

abbrev source : Str
source = 65279 ∷ str ": comment\r\ndata: 你好\r\ndata: 世界\r\n\r\ndata: [DONE]\r\n\r\n"

unicode_and_crlf :
    heard (push_all (new 4096) (take 20 (bytes source) ∷ drop 20 (bytes source) ∷ []))
    ≡ some (str "你好\n世界" ∷ str "[DONE]" ∷ [])
unfolding push_all new bytes str saturating_add mona_agent_core.Prelude.Utf8.from_utf8
    mona_agent_core.Prelude.Strings.str_discrete mona_agent_core.Api.Content.join_lines
unicode_and_crlf = refl

large_unterminated_frame_is_rejected :
    seen (push (new 16) (bytes (str "data: aaaaaaaaaaaaaaaaaaaaaaaaa"))) ≡ inl ErrorCode.limit
unfolding push new bytes str saturating_add mona_agent_core.Api.Error.new
large_unterminated_frame_is_rejected = refl

invalid_utf8_is_rejected :
    seen (push (new 128) (bytes (str "data: ") ++ 255 ∷ 10 ∷ 10 ∷ []))
    ≡ inl ErrorCode.model_protocol
unfolding push new bytes str saturating_add mona_agent_core.Prelude.Utf8.from_utf8
    mona_agent_core.Api.Error.new
invalid_utf8_is_rejected = refl

abbrev two_events : List (Str × List Str)
two_events = (str "é", str "b" ∷ []) ∷ (str "", []) ∷ []

abbrev stream : List ℕ
stream = wire (stream_lines two_events)

push_all-concat_example :
    seen (push_all (new 64) (take 7 stream ∷ drop 7 stream ∷ []))
    ≡ seen (push (new 64) (take 7 stream ++ concat (drop 7 stream ∷ [])))
push_all-concat_example = push_all-concat (new 64) (take 7 stream) (drop 7 stream ∷ [])

letter : (c : ℕ) → c < 55296 → IsScalar c
letter c h = record { below = omega arith; not_surrogate = inl h }

two_events-Fits : All (Fits 64) two_events
unfolding str mona_agent_core.Providers.Sse.strip_suffix wire
    mona_agent_core.Providers.Sse.Wire.lines_of bytes
two_events-Fits = (
  record {
    fields = (
      record { scalars = (letter 233 (omega arith), tt); one_line = (refl, tt); no_return = refl },
      (
        record { scalars = (letter 98 (omega arith), tt); one_line = (refl, tt); no_return = refl },
        tt,
      ),
    );
    size = omega arith;
  },
  (
    record {
      fields = (record { scalars = tt; one_line = tt; no_return = refl }, tt);
      size = omega arith;
    },
    tt,
  ),
)

push_all-stream_example :
    (f : SseDecoder) × (push_all (new 64) (take 7 stream ∷ drop 7 stream ∷ [])
      ≡ ok (f, map event_text two_events))
    × Idle f
unfolding wire stream_lines bytes concat str
push_all-stream_example =
    push_all-stream 64 two_events (take 7 stream) (drop 7 stream ∷ []) two_events-Fits (omega arith)
      refl
