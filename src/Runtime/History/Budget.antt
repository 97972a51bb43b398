-- ===== src/Runtime/History/Budget.antt =====
-- The room that a batch reserves: what the budget counts, and that every call can be closed in it.
use mona_agent_core.Prelude.{
  ℕ, zero, suc, ◌+◌, ◌-◌, ◌≤◌, ◌≡◌, refl, ap, ◌∙◌, some, List, [], ◌∷◌, arith, ltb, length,
  get_elem?, set, checked_add, checked_add-eq-some,
}
use mona_agent_core.Prelude.Strings.{Str}
use mona_agent_core.Api.Error.{ok, refuse, refuse-eq-ok, ok_or, ok_or-eq-ok, >>=-eq-ok}
use mona_agent_core.Api.Message.{ToolCall, ToolResult}
use mona_agent_core.Api.Serializer.{Serializer}
use mona_agent_core.Runtime.History.{
  reservation, ToolBudget, history_limit, driver_panic, result_bytes, fallback, reserve_slots,
  new_budget, replace, settle, reserve,
}

abbrev pub sum : List ℕ → ℕ
sum [] = 0
sum (x ∷ xs) = x + sum xs

-- The slots add up to what is used, which fits.
pub record IsBudget (b : ToolBudget) : Type 0 where
  pub counted : b.used ≡ sum b.slots
  pub fits : b.used ≤ b.limit

sum-set :
    (xs : List ℕ) (i v : ℕ) {old : ℕ}
    → get_elem? xs i ≡ some old
    → (sum (set xs i v) + old ≡ sum xs + v) × (old ≤ sum xs)
sum-set [] i v h = cc
sum-set (x ∷ xs) zero v {old} h = let e : x ≡ old = cc in (omega arith, omega arith)
sum-set (x ∷ xs) (suc i) v h =
    let ih = sum-set xs i v h in (omega (arith, ih.0), omega (arith, ih.1))

length-set : (xs : List ℕ) (i v : ℕ) → length (set xs i v) ≡ length xs
length-set [] i v = refl
length-set (x ∷ xs) zero v = refl
length-set (x ∷ xs) (suc i) v = ap suc (length-set xs i v)

module _ {V : Type 0} (json : Serializer V) where
  -- The slots are the sizes of the fallback records.
  abbrev pub Covers : List (ToolCall V) → List ℕ → Type 0
  Covers [] [] = Unit
  Covers (c ∷ cs) (n ∷ ns) = (result_bytes json (fallback json c) ≡ ok n) × Covers cs ns
  Covers _ _ = ⊥

  pub Covers-length : (cs : List (ToolCall V)) (ns : List ℕ) → Covers cs ns → length ns ≡ length cs
  Covers-length [] [] h = refl
  Covers-length [] (n ∷ ns) h = absurd h
  Covers-length (c ∷ cs) [] h = absurd h
  Covers-length (c ∷ cs) (n ∷ ns) h = ap suc (Covers-length cs ns h.1)

  reserve_slots-sum :
      (cs : List (ToolCall V)) (used : ℕ) {r : List ℕ × ℕ}
      → reserve_slots json cs used ≡ ok r
      → Covers cs r.0 × (r.1 ≡ used + sum r.0)
  unfolding reserve_slots
  reserve_slots-sum [] used {r} h = let e : r ≡ ([], used) = cc in rw e (tt, omega arith)
  reserve_slots-sum (c ∷ cs) used {r} h =
      let (bytes, e1, h1) = >>=-eq-ok (result_bytes json (fallback json c)) _ h in
      let (next, e2, h2) = >>=-eq-ok (ok_or (checked_add used bytes) history_limit) _ h1 in
      let (rest, e3, h3) = >>=-eq-ok (reserve_slots json cs next) _ h2 in
      let (covers, total) = reserve_slots-sum cs next e3 in
      let a = checked_add-eq-some used bytes (ok_or-eq-ok _ _ e2) in
      let e : r ≡ (bytes ∷ rest.0, rest.1) = cc in rw e ((e1, covers), omega arith)

  -- A new budget has a slot for every call, large enough for its fallback record.
  pub new_budget-IsBudget :
      (limit : ℕ) (cs : List (ToolCall V)) {b : ToolBudget}
      → new_budget json limit cs ≡ ok b
      → IsBudget b × (b.limit ≡ limit) × Covers cs b.slots
  unfolding new_budget
  new_budget-IsBudget limit cs {b} h =
      let (r, e1, h1) = >>=-eq-ok (reserve_slots json cs 0) _ h in
      let (covers, total) = reserve_slots-sum cs 0 e1 in
      let (u, e2, h2) = >>=-eq-ok (refuse (ltb limit r.1) history_limit) _ h1 in
      let e : b ≡ record { limit = limit; used = r.1; slots = r.0 } = cc in
      rw e (
        record {
          counted = omega arith;
          fits = ground (arith, refuse-eq-ok (ltb limit r.1) history_limit e2);
        },
        refl,
        covers,
      )

-- A slot that is written keeps the budget, and nothing else changes.
pub replace-IsBudget :
    (b : ToolBudget) (i bytes : ℕ) {b' : ToolBudget}
    → IsBudget b
    → replace b i bytes ≡ ok b'
    → IsBudget b' × (b'.limit ≡ b.limit) × (b'.slots ≡ set b.slots i bytes)
unfolding replace
replace-IsBudget b i bytes {b'} v h =
    let (old, e1, h1) = >>=-eq-ok (ok_or (get_elem? b.slots i) driver_panic) _ h in
    let (u, e2, h2) = >>=-eq-ok (refuse (ltb b.used old) driver_panic) _ h1 in
    let (next, e3, h3) = >>=-eq-ok (ok_or (checked_add (b.used - old) bytes) history_limit) _ h2 in
    let (u', e4, h4) = >>=-eq-ok (refuse (ltb b.limit next) history_limit) _ h3 in
    let (total, small) = sum-set b.slots i bytes (ok_or-eq-ok _ _ e1) in
    let a = checked_add-eq-some (b.used - old) bytes (ok_or-eq-ok _ _ e3) in
    let e : b' ≡ record b { used = next; slots = set b.slots i bytes } = cc in
    rw e (
      record {
        counted = omega (arith, v.counted);
        fits = ground (arith, refuse-eq-ok (ltb b.limit next) history_limit e4);
      },
      refl,
      refl,
    )

module _ {V : Type 0} (json : Serializer V) where
  -- What the scheduler does with a budget while a batch runs.
  pub data Accounts (b : ToolBudget) : ToolBudget → Type 0 where
    here : Accounts b b
    settles :
        {c d : ToolBudget} (i : ℕ) (r : ToolResult V)
        → Accounts b c
        → settle json c i r ≡ ok d
        → Accounts b d
    reserves :
        {c d : ToolBudget} (i : ℕ) (id : Str) (payload : ℕ)
        → Accounts b c
        → reserve json c i id payload ≡ ok d
        → Accounts b d

  settle-replace :
      (c : ToolBudget) (i : ℕ) (r : ToolResult V) {d : ToolBudget}
      → settle json c i r ≡ ok d
      → (n : ℕ) × (result_bytes json r ≡ ok n) × (replace c i n ≡ ok d)
  unfolding settle
  settle-replace c i r h = >>=-eq-ok (result_bytes json r) _ h

  reserve-replace :
      (c : ToolBudget) (i : ℕ) (id : Str) (payload : ℕ) {d : ToolBudget}
      → reserve json c i id payload ≡ ok d
      → (n : ℕ) × (replace c i n ≡ ok d)
  unfolding reserve
  reserve-replace c i id payload h =
      let (n, _, put) = >>=-eq-ok (reservation json id payload) _ h in (n, put)

  -- Whatever is settled and reserved, the slots add up within the same limit, one for each call.
  pub Accounts-IsBudget :
      {b c : ToolBudget}
      → IsBudget b
      → Accounts b c
      → IsBudget c × (c.limit ≡ b.limit) × (length c.slots ≡ length b.slots)
  Accounts-IsBudget v here = (v, refl, refl)
  Accounts-IsBudget {b} v (settles {c} {d} i r steps h) =
      let (w, same, long) = Accounts-IsBudget v steps in
      let (n, _, put) = settle-replace c i r h in
      let (x, kept, slots) = replace-IsBudget c i n w put in
      (x, kept ∙ same, ap length slots ∙ length-set c.slots i n ∙ long)
  Accounts-IsBudget {b} v (reserves {c} {d} i id payload steps h) =
      let (w, same, long) = Accounts-IsBudget v steps in
      let (n, put) = reserve-replace c i id payload h in
      let (x, kept, slots) = replace-IsBudget c i n w put in
      (x, kept ∙ same, ap length slots ∙ length-set c.slots i n ∙ long)
