-- ===== src/Runtime/History/Exact.antt =====
-- The size that a `History` carries is that of its JSON.
use mona_agent_core.Prelude.{
  ℕ, ◌-◌, ◌≤◌, ◌≡◌, sym, ap, ◌∙◌, inl, inr, Bool, true, false, not, ◌&&◌, Option, none, some, List,
  [], ◌∷◌, ◌++◌, arith, ltb, is_empty, Option-cases, checked_add, checked_add-eq-some,
}
use mona_agent_core.Api.Error.{ok_or-eq-ok, refuse-eq-ok, ok, refuse, ok_or, >>=-eq-ok}
use mathlib.Core.Bool.{not-not}
use mona_agent_core.Api.Message.{Message}
use mona_agent_core.Api.Serializer.{Serializer, elements_bytes, IsJson}
use mona_agent_core.Runtime.History.{
  new_budget, calls_of, History, measured, history_limit, new, append_bytes, check_append, extend,
  admit_reply, ToolBudget,
}

-- The recorded size is exact and within the limit.
pub record IsExact {V : Type 0} (json : Serializer V) (h : History V) : Type 0 where
  pub exact : json.messages_bytes h.messages ≡ some h.bytes
  pub within : h.bytes ≤ h.limit

and-false : (b : Bool) → (b && false) ≡ false
and-false b = ground arith

pub elements_bytes-append :
    {A : Type 0} (size : A → Option ℕ) (xs ys : List A) (first : Bool) (n : ℕ) {k : ℕ}
    → elements_bytes size xs first n ≡ some k
    → elements_bytes size (xs ++ ys) first n ≡ elements_bytes size ys (first && is_empty xs) k
unfolding elements_bytes
elements_bytes-append size [] ys true n h = ground arith
elements_bytes-append size [] ys false n h = ground arith
elements_bytes-append size (x ∷ xs) ys first n {k = k'} h = elim (Option-cases (size x)) [
  | inl e ↦ let bad : elements_bytes size (x ∷ xs) first n ≡ none = rw (e, elements_bytes) in cc
  | inr (k, e) ↦
      rw (e, elements_bytes)
        (elements_bytes-append size xs ys false _ (rw (e, elements_bytes) at h)
          ∙ ap (λ z. elements_bytes size ys z k') (sym (and-false first)))
]

module _ {V : Type 0} (json : Serializer V) where
  append_bytes-eq-elements :
      (ms : List (Message V)) (separated : Bool) (n : ℕ) {k : ℕ}
      → append_bytes json ms separated n ≡ ok k
      → elements_bytes json.message_bytes ms (not separated) n ≡ some k
  unfolding append_bytes elements_bytes
  append_bytes-eq-elements [] separated n h = ground arith
  append_bytes-eq-elements (m ∷ ms) separated n h =
      let (size, e1, h1) = >>=-eq-ok (measured (json.message_bytes m)) _ h in
      let (sum, e2, h2) = >>=-eq-ok (ok_or (checked_add n size) history_limit) _ h1 in
      let (total, e3, h3) = >>=-eq-ok (ok_or (checked_add sum _) history_limit) _ h2 in
      let a = checked_add-eq-some n size (ok_or-eq-ok _ _ e2) in
      let b = checked_add-eq-some sum _ (ok_or-eq-ok _ _ e3) in
      let ih = append_bytes-eq-elements ms true total h3 in
      ground (arith, ok_or-eq-ok (json.message_bytes m) _ e1)

module _ {V : Type 0} (json : Serializer V) (doc : IsJson json) where
  check_append-exact :
      (h : History V) (ms : List (Message V)) {n : ℕ}
      → IsExact json h
      → check_append json h ms ≡ ok n
      → (json.messages_bytes (h.messages ++ ms) ≡ some n) × (n ≤ h.limit)
  unfolding check_append
  check_append-exact h ms {n} x e =
      let (next, e1, rest) =
        >>=-eq-ok (append_bytes json ms (not (is_empty h.messages)) h.bytes) _ e in
      let (u, e2, last) = >>=-eq-ok (refuse (ltb h.limit next) history_limit) _ rest in
      let same : next ≡ n = cc in
      let grown = append_bytes-eq-elements json ms _ h.bytes e1 in
      (
        doc.array (h.messages ++ ms)
            ∙ elements_bytes-append json.message_bytes h.messages ms true 2
                (sym (doc.array h.messages) ∙ x.exact)
            ∙ ap (λ z. elements_bytes json.message_bytes ms z h.bytes)
                (sym (not-not (is_empty h.messages)))
            ∙ grown
            ∙ ap some same,
        ground (arith, refuse-eq-ok (ltb h.limit next) history_limit e2),
      )

  -- A history that is admitted carries its exact size, within both bounds.
  pub new-IsExact :
      (ms : List (Message V)) (admission limit : ℕ) {h : History V}
      → new json ms admission limit ≡ ok h
      → IsExact json h × (h.messages ≡ ms) × (h.limit ≡ limit) × (h.bytes ≤ admission)
  unfolding new
  new-IsExact ms admission limit e =
      let (bytes, e1, rest) = >>=-eq-ok (measured (json.messages_bytes ms)) _ e in
      let found = ok_or-eq-ok (json.messages_bytes ms) _ e1 in
      (
        record { exact = ground arith; within = ground arith },
        ground arith,
        ground arith,
        ground arith,
      )

  -- `extend` appends the messages, keeps the limit, and keeps the size exact and within it.
  pub extend-IsExact :
      (h : History V) (ms : List (Message V)) {h' : History V}
      → IsExact json h
      → extend json h ms ≡ ok h'
      → IsExact json h' × (h'.messages ≡ h.messages ++ ms) × (h'.limit ≡ h.limit)
  unfolding extend
  extend-IsExact h ms x e =
      let (next, e1, rest) = >>=-eq-ok (check_append json h ms) _ e in
      let (size, fits) = check_append-exact h ms x e1 in
      (record { exact = ground arith; within = ground arith }, ground arith, ground arith)

  -- `admit_reply` appends the reply, and its budget is the room that is left.
  pub admit_reply-IsExact :
      (h : History V) (m : Message V) {h' : History V} {b : ToolBudget}
      → IsExact json h
      → admit_reply json h m ≡ ok (h', b)
      → IsExact json h'
        × (h'.messages ≡ h.messages ++ m ∷ [])
        × (h'.limit ≡ h.limit)
        × (new_budget json (h.limit - h'.bytes) (calls_of m) ≡ ok b)
  unfolding admit_reply
  admit_reply-IsExact h m x e =
      let (next, e1, rest) = >>=-eq-ok (check_append json h (m ∷ [])) _ e in
      let (budget, e2, last) = >>=-eq-ok (new_budget json (h.limit - next) (calls_of m)) _ rest in
      let (size, fits) = check_append-exact h (m ∷ []) x e1 in
      (
        record { exact = ground arith; within = ground arith },
        ground arith,
        ground arith,
        ground arith,
      )
