-- ===== src/Runtime/History/Closing.antt =====
-- After `admit_reply` every call of the reply can be closed in the transcript.
use mona_agent_core.Prelude.{
  ℕ, ◌+◌, ◌≤◌, ◌≡◌, refl, sym, ap, ◌∙◌, true, false, some, List, [], ◌∷◌, ◌++◌, map, append_assoc,
  length, suc, Option, arith, is_empty, usize_max, checked_add, checked_add-eq-some,
}
use mona_agent_core.Prelude.Strings.{Str}
use mona_agent_core.Api.Error.{ok, ok_or-eq-ok, >>=-eq-ok}
use mona_agent_core.Api.Message.{Message, assistant, tool, ToolResult, ToolCall, ProviderData}
use mona_agent_core.Api.Serializer.{Serializer, IsJson}
use mona_agent_core.Runtime.History.{
  History, ToolBudget, measured, append_bytes, check_append, extend, result_bytes, calls_of,
  admit_reply,
}
use mona_agent_core.Runtime.History.Exact.{IsExact, admit_reply-IsExact}
use mona_agent_core.Runtime.History.Budget.{
  Covers, Covers-length, sum, Accounts, new_budget-IsBudget, Accounts-IsBudget,
}

snoc_nonempty : {A : Type 0} (xs : List A) (a : A) → is_empty (xs ++ a ∷ []) ≡ false
snoc_nonempty [] a = refl
snoc_nonempty (x ∷ xs) a = refl

module _ {V : Type 0} (json : Serializer V) where
  -- One result for each slot, no larger than the slot.
  abbrev pub Fits : List (ToolResult V) → List ℕ → Type 0
  Fits [] [] = Unit
  Fits (r ∷ rs) (s ∷ ss) = ((n : ℕ) × (result_bytes json r ≡ ok n) × (n ≤ s)) × Fits rs ss
  Fits _ _ = ⊥

  result_bytes-message :
      (r : ToolResult V) {n : ℕ}
      → IsJson json
      → result_bytes json r ≡ ok n
      → (k : ℕ) × (json.message_bytes (tool r) ≡ some k) × (n ≡ k + 1)
  unfolding result_bytes
  result_bytes-message r doc h =
      let (k, e1, h1) = >>=-eq-ok (measured (json.tool_message_bytes r)) _ h in
      let a = checked_add-eq-some k 1 (ok_or-eq-ok _ _ h1) in
      (k, sym (doc.tagged r) ∙ ok_or-eq-ok _ _ e1, a.0)

  -- Results that fit their slots are appended within the sum of the slots.
  append_bytes-Fits :
      (rs : List (ToolResult V)) (slots : List ℕ) (next : ℕ)
      → IsJson json
      → Fits rs slots
      → next + sum slots ≤ usize_max
      → (k : ℕ) × (append_bytes json (map tool rs) true next ≡ ok k) × (k ≤ next + sum slots)
  unfolding append_bytes checked_add
  append_bytes-Fits [] [] next doc f h = (next, refl, omega arith)
  append_bytes-Fits [] (s ∷ ss) next doc f h = absurd f
  append_bytes-Fits (r ∷ rs) [] next doc f h = absurd f
  append_bytes-Fits (r ∷ rs) (s ∷ ss) next doc ((n, e, small), f) h =
      let (k, found, size) = result_bytes-message r doc e in
      let (total, run, bound) = append_bytes-Fits rs ss (next + k + 1) doc f (omega arith) in
      (total, ground (arith, found, run), omega arith)

  extend-results :
      (h : History V) (rs : List (ToolResult V)) (slots : List ℕ)
      → IsJson json
      → is_empty h.messages ≡ false
      → h.limit ≤ usize_max
      → Fits rs slots
      → h.bytes + sum slots ≤ h.limit
      → (h' : History V) × (extend json h (map tool rs) ≡ ok h')
        × (h'.messages ≡ h.messages ++ map tool rs)
  unfolding extend check_append
  extend-results h rs slots doc some_message word f room =
      let (k, run, bound) = append_bytes-Fits rs slots h.bytes doc f (omega arith) in
      (
        record h { messages = h.messages ++ map tool rs; bytes = k },
        ground (arith, run, some_message),
        refl,
      )

  Fits-length :
      (rs : List (ToolResult V)) (slots : List ℕ) → Fits rs slots → length rs ≡ length slots
  Fits-length [] [] f = refl
  Fits-length [] (s ∷ ss) f = absurd f
  Fits-length (r ∷ rs) [] f = absurd f
  Fits-length (r ∷ rs) (s ∷ ss) f = ap suc (Fits-length rs ss f.1)

  -- Sizes are those of JSON, and the history is exact with a limit of 64 bits. Once a reply is
  -- admitted, the slots of its budget are the sizes of the fallback results of its calls, one for each
  -- in their order. Whatever is settled and reserved afterwards, there are as many slots as calls, and
  -- results that fit the slots, as many as the calls, can all be appended: the batch can be closed.
  pub admit_reply-closes :
      (h h' : History V) (content : Str) (calls : List (ToolCall V)) (reasoning : Option Str)
      (d : Option (ProviderData V)) (b c : ToolBudget) (rs : List (ToolResult V))
      → IsJson json
      → h.limit ≤ usize_max
      → IsExact json h
      → admit_reply json h (assistant content calls reasoning d) ≡ ok (h', b)
      → Accounts json b c
      → Fits rs c.slots
      → Covers json calls b.slots
        × (length c.slots ≡ length calls)
        × (length rs ≡ length calls)
        × (closed : History V) × (extend json h' (map tool rs) ≡ ok closed)
        × (closed.messages ≡ h.messages ++ assistant content calls reasoning d ∷ map tool rs)
  admit_reply-closes h h' content calls reasoning d b c rs doc word x admitted steps f =
      let m : Message V = assistant content calls reasoning d in
      let (exact, messages, limit, reserved) = admit_reply-IsExact json doc h m x admitted in
      let (v, room, covers) = new_budget-IsBudget json _ (calls_of m) reserved in
      let (w, same, long) = Accounts-IsBudget json v steps in
      let (closed, run, appended) =
        extend-results h' rs c.slots doc (rw messages (snoc_nonempty h.messages m)) (omega arith) f
          (omega (arith, w.counted, w.fits, exact.within)) in
      let one_each : length c.slots ≡ length calls =
        long ∙ Covers-length json calls b.slots covers in
      (
        covers,
        one_each,
        Fits-length rs c.slots f ∙ one_each,
        closed,
        run,
        appended
            ∙ ap (λ z. z ++ map tool rs) messages
            ∙ append_assoc h.messages (m ∷ []) (map tool rs),
      )
