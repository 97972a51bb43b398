-- ===== src/Api/Validation/Completeness.antt =====
-- `validate_messages` accepts every well-paired history.
use mona_agent_core.Prelude.{
  ◌≡◌, refl, sym, ap, subst, ◌∙◌, ◌≢◌, ◌↔◌, true, not, Option, List, [], ◌∷◌, ◌++◌, map, append-nil,
  arith, is_empty, All,
}
use mathlib.Core.List.{
  Perm, Mem, Nodup, mem-append_left, mem-append_right, not-mem-nil, mem-cons_self,
}
use mathlib.Core.List.Perm
use mathlib.Core.List.Nodup
use mona_agent_core.Prelude.Strings.{Str, str_discrete}
use mona_agent_core.Prelude.Sets.{contains, remove, remove-perm, mem→contains}
use mona_agent_core.Api.Error.{ErrorCode, error, refuse, ok, ◌>>=◌}
use mona_agent_core.Api.Message.{
  Message, system, user, assistant, tool, ToolCall, ToolResult, ProviderData, ids,
}
use mona_agent_core.Api.Serializer.{Serializer}
use mona_agent_core.Api.Validation.{
  Pairing, start, admit_calls, pair, validate_payload, validate_from, validate_messages,
}
use mona_agent_core.Api.Validation.Batches.{
  IsInput, result_ids, call_ids, Batches, done, input, batch, IsWellPaired,
}
use mona_agent_core.Api.Validation.Admission.{
  IsSound, Admits, admit_calls-Admits, admit_calls-total,
}
use mona_agent_core.Api.Validation.Soundness.{
  start-IsSound, regroup, validate_messages-IsWellPaired,
}

abbrev cleared : Pairing → Pairing
cleared p = record p { pending = [] }

module _ {V : Type 0} where
  call_ids-results :
      (results : List (ToolResult V)) (rest : List (Message V))
      → call_ids (map tool results ++ rest) ≡ call_ids rest
  call_ids-results [] rest = refl
  call_ids-results (r ∷ results) rest = call_ids-results results rest

  All-tail {ℓ} :
      (P : Message V → Type ℓ) (results : List (ToolResult V)) (rest : List (Message V))
      → All P (map tool results ++ rest)
      → All P rest
  All-tail P [] rest h = h
  All-tail P (r ∷ results) rest h = All-tail P results rest h.1

  pair-result :
      (r : ToolResult V) (p : Pairing)
      → contains str_discrete r.call_id p.pending ≡ true
      → pair (tool r) p ≡ ok (record p { pending = remove str_discrete r.call_id p.pending })
  unfolding pair
  pair-result r p h = rw h

  pair-calls :
      (content : Str) (calls : List (ToolCall V)) (reasoning : Option Str)
      (d : Option (ProviderData V)) (p : Pairing)
      → p.pending ≡ []
      → pair (assistant content calls reasoning d) p ≡ admit_calls calls p
  unfolding pair
  pair-calls content calls reasoning d p e = ground arith

  pair-input : (m : Message V) (p : Pairing) → IsInput m → p.pending ≡ [] → pair m p ≡ ok p
  unfolding pair
  pair-input (system content) p i e = ground arith
  pair-input (user content) p i e = ground arith
  pair-input (assistant content calls reasoning d) p i e = absurd i
  pair-input (tool r) p i e = absurd i

  call_ids-input :
      (m : Message V) (ms : List (Message V)) → IsInput m → call_ids (m ∷ ms) ≡ call_ids ms
  call_ids-input (system content) ms i = refl
  call_ids-input (user content) ms i = refl
  call_ids-input (assistant content calls reasoning d) ms i = absurd i
  call_ids-input (tool r) ms i = absurd i

module _ {V : Type 0} where
  waiting_ids :
      (calls : List (ToolCall V)) (p q : Pairing) {some_ids : List Str}
      → p.pending ≡ []
      → Admits calls p q
      → Perm some_ids (ids calls)
      → Perm some_ids q.pending
  waiting_ids calls p q e a perm = Perm.trans perm (
      Perm.symm (
        subst (Perm q.pending) (append-nil (ids calls))
          (subst (λ z. Perm q.pending (ids calls ++ z)) e a.pending)))

module _ {V : Type 0} (json : Serializer V) where
  accepted :
      (ms : List (Message V))
      → ms ≢ []
      → (do
        p ← validate_from json ms start
        refuse (not (is_empty p.pending)) (error ErrorCode.model_protocol "missing tool result(s)"))
        ≡ ok tt
      → validate_messages json ms ≡ ok tt
  unfolding validate_messages
  accepted [] n h = absurd (n refl)
  accepted (m ∷ ms) n h = h

  abbrev Payloads : List (Message V) → Type 0
  Payloads = All (λ m. validate_payload json m ≡ ok tt)

  validate_from-step :
      (m : Message V) (ms : List (Message V)) (p q : Pairing)
      → validate_payload json m ≡ ok tt
      → pair m p ≡ ok q
      → validate_from json (m ∷ ms) p ≡ validate_from json ms q
  unfolding validate_from
  validate_from-step m ms p q h k = rw (h, k)

  -- Results for exactly the waiting ids, in any order, settle the batch.
  pub validate_from-results :
      (results : List (ToolResult V)) (rest : List (Message V)) (p : Pairing)
      → Perm (result_ids results) p.pending
      → Payloads (map tool results ++ rest)
      → validate_from json (map tool results ++ rest) p ≡ validate_from json rest (cleared p)
  validate_from-results [] rest p perm h =
      let e : p.pending ≡ [] = sym (Perm.nil-eq perm) in
      ap (validate_from json rest) (ap (λ z. record p { pending = z }) e)
  validate_from-results (r ∷ results) rest p perm h =
      let waits : contains str_discrete r.call_id p.pending ≡ true =
        mem→contains str_discrete r.call_id p.pending ((Perm.mem_iff perm).0 mem-cons_self) in
      validate_from-step (tool r) (map tool results ++ rest) p _ h.0 (pair-result r p waits)
      ∙ validate_from-results results rest _
          (Perm.cons_inv (Perm.trans perm (remove-perm str_discrete r.call_id p.pending waits))) h.1

  validate_from-total :
      (ms : List (Message V)) (p : Pairing)
      → Batches ms
      → p.pending ≡ []
      → IsSound p
      → Nodup (call_ids ms ++ p.seen)
      → ¬ Mem [] (call_ids ms)
      → Payloads ms
      → (q : Pairing) × (validate_from json ms p ≡ ok q) × (q.pending ≡ [])
  unfolding validate_from
  validate_from-total ms p done e s d n h = (p, refl, e)
  validate_from-total ms p (input {m} {ms = rest} i b) e s d n h =
      let same = call_ids-input m rest i in
      let (q, run, settled) =
        validate_from-total rest p b e s (rw (← same) d) (rw (← same) n) h.1 in
      (q, validate_from-step m rest p p h.0 (pair-input m p i e) ∙ run, settled)
  validate_from-total ms p
        (batch {content} {calls} {reasoning} {d = data'} {ms = tail} results rest split perm b) e s
        d n h =
      let distinct : Nodup (ids calls ++ p.seen) =
        Nodup.of_append_right (call_ids tail)
          (Perm.nodup (Perm.symm (regroup (ids calls) (call_ids tail) p.seen _ (Perm.refl _))) d) in
      let (p', admitted) = admit_calls-total calls p s distinct (λ m. n (mem-append_left _ m)) in
      let a = admit_calls-Admits calls p p' s admitted in
      let all_ids : call_ids tail ≡ call_ids rest =
        ap call_ids split ∙ call_ids-results results rest in
      let payloads : Payloads (map tool results ++ rest) = subst Payloads split h.1 in
      let (q, run, settled) =
        validate_from-total rest (cleared p') b refl
          (record { waits = λ x m. absurd (not-mem-nil m); distinct = a.sound.distinct })
          (subst (λ z. Nodup (z ++ p'.seen)) all_ids
            (Perm.nodup (Perm.symm (regroup (ids calls) (call_ids tail) p.seen p'.seen a.seen)) d))
          (λ m. n (mem-append_right (ids calls) (subst (Mem []) (sym all_ids) m)))
          (All-tail _ results rest payloads) in
      (
        q,
        validate_from-step (assistant content calls reasoning data') tail p p' h.0
              (pair-calls content calls reasoning data' p e ∙ admitted)
            ∙ ap (λ z. validate_from json z p') split
            ∙ validate_from-results results rest p' (waiting_ids calls p p' e a perm) payloads
            ∙ run,
        settled,
      )

  -- `validate_messages` accepts exactly the well-paired histories: nonempty, made of inputs and complete
  -- batches, with valid payloads and with call ids that are nonempty and distinct.
  pub validate_messages_iff :
      (ms : List (Message V)) → (validate_messages json ms ≡ ok tt) ↔ IsWellPaired json ms
  unfolding validate_messages
  validate_messages_iff ms = (
    validate_messages-IsWellPaired json ms,
    λ w.
        let (q, run, settled) =
          validate_from-total ms start w.batches refl start-IsSound
            (subst Nodup (sym (append-nil (call_ids ms))) w.distinct) w.named w.payloads in
        accepted ms w.nonempty (rw (run, settled) refl),
  )
