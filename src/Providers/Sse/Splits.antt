-- ===== src/Providers/Sse/Splits.antt =====
-- packages/providers/src/sse.rs: how the network cuts a stream into chunks makes no difference.
use mona_agent_core.Prelude.{
  ℕ, ◌+◌, ◌≤◌, ◌≡◌, refl, sym, ap, ◌∙◌, inl, inr, true, List, [], ◌∷◌, ◌++◌, append_assoc,
  append-nil, arith, ltb, Bool-cases, length, saturating_add,
}
use mona_agent_core.Prelude.Strings.{Str}
use mona_agent_core.Api.Error.{
  AgentError, ErrorCode, Result, ok, err, error, refuse, ok_or, ◌>>=◌, ◌>>◌,
}
use mona_agent_core.Providers.Sse.{SseDecoder, split_lines, read_line, read_lines, push}
use mona_agent_core.Providers.Sse.Steps.{
  Unended, after, concat, finish, first_piece, first_piece-append, push_all, read_lines-append,
  read_lines-pending, seen, split_lines-Unended, split_lines-append, then_read, with_pending,
}

-- A longer line, or a longer rest, is over the limit as well.
over :
    (limit frame : ℕ) {m n : ℕ}
    → m ≤ n
    → ltb limit (saturating_add m frame) ≡ true
    → (ltb limit (saturating_add n frame) ≡ true)
      × (ltb limit (saturating_add frame (n + 1)) ≡ true)
unfolding saturating_add
over limit frame h k = ground arith

module _ (r : SseDecoder × List Str) (p : List ℕ) where
  overflow :
      (cut : List (List ℕ) × List ℕ)
      → length p ≤ length (first_piece cut)
      → ltb r.0.max_frame (saturating_add (length p) r.0.frame_bytes) ≡ true
      → seen (after r.1 (read_lines r.0 cut.0) >>= finish cut.1) ≡ inl ErrorCode.limit
  unfolding read_lines read_line mona_agent_core.Api.Error.new
  overflow ([], rest) h k = rw (over r.0.max_frame r.0.frame_bytes h k).0 refl
  overflow (l ∷ ls, rest) h k = rw (over r.0.max_frame r.0.frame_bytes h k).1 refl

  -- The next push takes over the bytes that the last one left.
  finish-pending :
      (b : List ℕ) (m : Result (SseDecoder × List Str))
      → (after r.1 m >>= finish b) ≡ after r.1 (with_pending p m >>= finish b)
  finish-pending b (err e) = refl
  finish-pending b (ok s) =
      elim (Bool-cases (ltb s.0.max_frame (saturating_add (length b) s.0.frame_bytes))) [
        | inl e ↦ rw e refl
        | inr e ↦ rw e refl
      ]

abbrev chunk_after : List ℕ → SseDecoder → Result (SseDecoder × List Str)
chunk_after b d = push d b

-- Two pushes against one, from what the first chunk gave.
two_pushes :
    (m : Result (SseDecoder × List Str)) (p b : List ℕ)
    → Unended p
    → seen (
        then_read m (λ f. read_lines f (split_lines (p ++ b)).0)
        >>= finish (split_lines (p ++ b)).1)
      ≡ seen (then_read (m >>= finish p) (chunk_after b))
unfolding push mona_agent_core.Api.Error.new
two_pushes (err e) p b h = refl
two_pushes (ok r) p b h =
    elim (Bool-cases (ltb r.0.max_frame (saturating_add (length p) r.0.frame_bytes))) [
      | inl e ↦ rw e (overflow r p (split_lines (p ++ b)) (first_piece-append p b h) e)
      | inr e ↦
          rw (e, read_lines-pending p r.0 (split_lines (p ++ b)).0)
            (ap seen (
              finish-pending r p (split_lines (p ++ b)).1
                (read_lines r.0 (split_lines (p ++ b)).0)))
    ]

push-append :
    (d : SseDecoder) (a b : List ℕ)
    → seen (push d (a ++ b)) ≡ seen (then_read (push d a) (chunk_after b))
unfolding push
push-append d a b =
    rw
      (
        sym (append_assoc d.pending a b),
        split_lines-append (d.pending ++ a) b,
        read_lines-append d (split_lines (d.pending ++ a)).0
            (split_lines ((split_lines (d.pending ++ a)).1 ++ b)).0,
      )
      (two_pushes (read_lines d (split_lines (d.pending ++ a)).0) (split_lines (d.pending ++ a)).1 b
        (split_lines-Unended (d.pending ++ a)))

seen-then_read :
    (m : Result (SseDecoder × List Str)) (k l : SseDecoder → Result (SseDecoder × List Str))
    → ((d : SseDecoder) → seen (k d) ≡ seen (l d))
    → seen (then_read m k) ≡ seen (then_read m l)
seen-then_read (err e) k l h = refl
seen-then_read (ok r) k l h = same (k r.0) (l r.0) (h r.0)
  where
    same :
        (a b : Result (SseDecoder × List Str))
        → seen a ≡ seen b
        → seen (after r.1 a) ≡ seen (after r.1 b)
    same (err e) (err f) e_f = cc
    same (err e) (ok s) e_s = cc
    same (ok s) (err e) s_e = cc
    same (ok s) (ok t) s_t = cc

-- Pushing the chunks of a stream one after another, from any state of the decoder and however the
-- stream is cut into one or more chunks, gives the same decoder and the same events as one push of
-- the whole stream, or it fails with the same error code.
pub push_all-concat :
    (d : SseDecoder) (c : List ℕ) (cs : List (List ℕ))
    → seen (push_all d (c ∷ cs)) ≡ seen (push d (c ++ concat cs))
unfolding push_all concat
push_all-concat d c [] = rw (append-nil c) (ap seen (last (push d c)))
  where
    last : (m : Result (SseDecoder × List Str)) → then_read m (λ f. ok (f, [])) ≡ m
    last (err e) = refl
    last (ok r) = ap (λ (es : List Str). ok (r.0, es)) (append-nil r.1)
push_all-concat d c (c2 ∷ cs) =
    seen-then_read (push d c) (λ f. push_all f (c2 ∷ cs)) (chunk_after (c2 ++ concat cs))
      (λ f. push_all-concat f c2 cs)
    ∙ sym (push-append d c (c2 ++ concat cs))
