-- ===== src/Runtime/Repair.antt =====
-- `repair_unsettled` of packages/runtime/src/engine.rs: at the end of a run every call gets a result.
mod Tests
use mathlib.Core.Logic.Or
use mathlib.Core.List.{
  mem-append_left, Mem-prop, mem-cons_of_mem, Mem, not-mem-nil, mem-append, mem-cons, mem-cons_self,
  mem-append_left, mem-append_right,
}
use mona_agent_core.Prelude.{
  String, ◌≡◌, refl, sym, ap, ◌∙◌, inl, inr, true, false, not, List, [], ◌∷◌, ◌++◌, map,
  append_assoc, append-nil, Bool-cases, All, subst, Bool, if◌then◌else◌,
}
use mona_agent_core.Prelude.Strings.{Str, str, str_discrete}
use mona_agent_core.Prelude.Sets.{contains→mem, contains→mem, contains, insert}
use mona_agent_core.Api.Content.{Content}
use mona_agent_core.Api.Error.{>>=-eq-ok, Result, ok, ◌>>=◌}
use mona_agent_core.Api.Message.{
  Message, system, user, assistant, tool, ToolCall, ToolResult, ToolStatus,
}
use mona_agent_core.Api.Serializer.{Serializer}
use mona_agent_core.Api.ToolResults.{new_result}
use mona_agent_core.Runtime.History.{check_append, History, extend}

-- UNKNOWN_RESULT
abbrev pub unknown_result : String
unknown_result = "driver stopped before settlement; execution state unknown, do not blindly replay"

module _ {V : Type 0} where
  -- The loop over the messages: the calls and the set of settled ids.
  unfoldable pub collect : List (Message V) → List (ToolCall V) × List Str
  collect [] = ([], [])
  collect (assistant content calls reasoning d ∷ ms) =
      let rest = collect ms in (calls ++ rest.0, rest.1)
  collect (tool result ∷ ms) =
      let rest = collect ms in (rest.0, insert str_discrete result.call_id rest.1)
  collect (system content ∷ ms) = collect ms
  collect (user content ∷ ms) = collect ms

module _ {V : Type 0} (json : Serializer V) where
  -- The result of a call whose outcome is unknown.
  unfoldable pub lost : ToolCall V → ToolResult V
  lost call = new_result json call.id ToolStatus.unknown (Content.text (str unknown_result))

  -- The loop over the calls.
  unfoldable pub settle_calls : List (ToolCall V) → List Str → History V → Result (History V)
  unfolding lost
  settle_calls [] settled h = ok h
  settle_calls (c ∷ cs) settled h = elim (contains str_discrete c.id settled) [
    | true ↦ settle_calls cs settled h
    | false ↦ extend json h (tool (lost c) ∷ []) >>= settle_calls cs settled
  ]

  -- repair_unsettled
  unfoldable pub repair_unsettled : History V → Result (History V)
  unfolding collect settle_calls
  repair_unsettled h = let found = collect h.messages in settle_calls found.0 found.1 h

  pub extend-messages :
      (h : History V) (ms : List (Message V)) {h' : History V}
      → extend json h ms ≡ ok h'
      → h'.messages ≡ h.messages ++ ms
  unfolding extend
  extend-messages h ms {h'} e =
      let (next, _, same) = >>=-eq-ok (check_append json h ms) _ e in
      let built : record h { messages = h.messages ++ ms; bytes = next } ≡ h' = cc in
      sym (ap (λ (z : History V). z.messages) built)

  -- What the loop appended: results of unknown outcome, one for each id of `wanted` that `settled`
  -- lacks.
  record Settles (h h' : History V) (wanted settled : List Str) : Type 0 where
    pub added : List (ToolResult V)
    pub appended : h'.messages ≡ h.messages ++ map tool added
    pub unknown : All (λ (r : ToolResult V). r.status ≡ ToolStatus.unknown) added
    pub covered :
        (a : Str) → Mem a wanted → Mem a (settled ++ map (λ (r : ToolResult V). r.call_id) added)

  abbrev answered : List (ToolResult V) → List Str
  answered = map (λ (r : ToolResult V). r.call_id)

  pub lost-unknown : (c : ToolCall V) → (lost c).status ≡ ToolStatus.unknown
  unfolding lost new_result
  lost-unknown c = refl

  lost-first : (c : ToolCall V) (rs : List (ToolResult V)) → Mem c.id (answered (lost c ∷ rs))
  unfolding lost new_result
  lost-first c rs = mem-cons_self

  covered_later :
      (a : Str) (c : ToolCall V) (settled : List Str) (rs : List (ToolResult V))
      → Mem a (settled ++ answered rs)
      → Mem a (settled ++ answered (lost c ∷ rs))
  covered_later a c settled rs m =
      Or.elim Mem-prop (mem-append.0 m) (λ l. mem-append_left _ l)
        (λ r. mem-append_right settled (mem-cons_of_mem _ r))

  settle_calls-Settles :
      (cs : List (ToolCall V)) (settled : List Str) (h : History V) {h' : History V}
      → settle_calls cs settled h ≡ ok h'
      → Settles h h' (map (λ (c : ToolCall V). c.id) cs) settled
  unfolding settle_calls
  settle_calls-Settles [] settled h {h'} e = record {
    added = [];
    appended =
        let same : h ≡ h' = cc in
        sym (ap (λ (z : History V). z.messages) same) ∙ sym (append-nil h.messages);
    unknown = tt;
    covered = λ a m. absurd (not-mem-nil m);
  }
  settle_calls-Settles (c ∷ cs) settled h {h'} e =
      elim (Bool-cases (contains str_discrete c.id settled)) [
        | inl k ↦
            let ih = settle_calls-Settles cs settled h (rw (settle_calls, k) at e) in
            record {
              added = ih.added;
              appended = ih.appended;
              unknown = ih.unknown;
              covered = λ a m.
                  Or.elim Mem-prop (mem-cons.0 m)
                    (λ q. rw q (mem-append_left _ (contains→mem str_discrete c.id settled k)))
                    (ih.covered a);
            }
        | inr k ↦
            let opened : (extend json h (tool (lost c) ∷ []) >>= settle_calls cs settled) ≡ ok h' =
              rw (settle_calls, k) at e in
            let (g, x, y) =
              >>=-eq-ok (extend json h (tool (lost c) ∷ [])) (settle_calls cs settled) opened in
            let ih = settle_calls-Settles cs settled g y in
            record {
              added = lost c ∷ ih.added;
              appended =
                  ih.appended
                  ∙ ap (λ z. z ++ map tool ih.added) (extend-messages h (tool (lost c) ∷ []) x)
                  ∙ append_assoc h.messages (tool (lost c) ∷ []) (map tool ih.added);
              unknown = (lost-unknown c, ih.unknown);
              covered = λ a m.
                  Or.elim Mem-prop (mem-cons.0 m)
                    (λ q. rw q (mem-append_right settled (lost-first c ih.added)))
                    (λ t. covered_later a c settled ih.added (ih.covered a t));
            }
      ]

  -- The ids of the results in a transcript.
  abbrev pub result_ids : List (Message V) → List Str
  result_ids [] = []
  result_ids (tool result ∷ ms) = result.call_id ∷ result_ids ms
  result_ids (assistant content calls reasoning d ∷ ms) = result_ids ms
  result_ids (system content ∷ ms) = result_ids ms
  result_ids (user content ∷ ms) = result_ids ms

  -- A property of each call of a message.
  abbrev pub OfCalls : (ToolCall V → Type 0) → Message V → Type 0
  OfCalls P (assistant content calls reasoning d) = All P calls
  OfCalls P (tool result) = Unit
  OfCalls P (system content) = Unit
  OfCalls P (user content) = Unit

  -- Each call of a transcript has a result in it.
  abbrev pub IsAnswered : List (Message V) → Type 0
  IsAnswered ms = All (OfCalls (λ c. Mem c.id (result_ids ms))) ms

  -- What a repair leaves: only results of unknown outcome were appended, and each call has a result.
  pub record Repaired (h h' : History V) : Type 0 where
    pub added : List (ToolResult V)
    pub appended : h'.messages ≡ h.messages ++ map tool added
    pub unknown : All (λ (r : ToolResult V). r.status ≡ ToolStatus.unknown) added
    pub every_call : IsAnswered h'.messages

  mem-insert : (a b : Str) (xs : List Str) → Mem a (insert str_discrete b xs) → Mem a (b ∷ xs)
  unfolding insert
  mem-insert a b xs m = by_known (contains str_discrete b xs) m
    where
      by_known : (k : Bool) → Mem a (if k then xs else b ∷ xs) → Mem a (b ∷ xs)
      by_known true m = mem-cons_of_mem _ m
      by_known false m = m

  collect-results : (a : Str) (ms : List (Message V)) → Mem a (collect ms).1 → Mem a (result_ids ms)
  unfolding collect
  collect-results a [] m = m
  collect-results a (assistant content calls reasoning d ∷ ms) m = collect-results a ms m
  collect-results a (system content ∷ ms) m = collect-results a ms m
  collect-results a (user content ∷ ms) m = collect-results a ms m
  collect-results a (tool result ∷ ms) m =
      Or.elim Mem-prop (mem-cons.0 (mem-insert a result.call_id (collect ms).1 m))
        (λ q. rw q mem-cons_self) (λ k. mem-cons_of_mem _ (collect-results a ms k))

  result_ids-append :
      (ms : List (Message V)) (rs : List (ToolResult V))
      → result_ids (ms ++ map tool rs) ≡ result_ids ms ++ answered rs
  result_ids-append [] [] = refl
  result_ids-append [] (r ∷ rs) = ap (λ ids. r.call_id ∷ ids) (result_ids-append [] rs)
  result_ids-append (tool result ∷ ms) rs =
      ap (λ ids. result.call_id ∷ ids) (result_ids-append ms rs)
  result_ids-append (assistant content calls reasoning d ∷ ms) rs = result_ids-append ms rs
  result_ids-append (system content ∷ ms) rs = result_ids-append ms rs
  result_ids-append (user content ∷ ms) rs = result_ids-append ms rs

  -- Whatever holds of the ids of the collected calls holds of each call.
  module _ (P : Str → Type 0) where
    calls_of-first :
        (cs more : List (ToolCall V))
        → ((a : Str) → Mem a (map (λ (c : ToolCall V). c.id) (cs ++ more)) → P a)
        → All (λ (c : ToolCall V). P c.id) cs
          × ((a : Str) → Mem a (map (λ (c : ToolCall V). c.id) more) → P a)
    calls_of-first [] more k = (tt, k)
    calls_of-first (c ∷ cs) more k =
        let rest = calls_of-first cs more (λ a m. k a (mem-cons_of_mem _ m)) in
        ((k c.id mem-cons_self, rest.0), rest.1)

    collect-calls :
        (ms : List (Message V)) (rs : List (ToolResult V))
        → ((a : Str) → Mem a (map (λ (c : ToolCall V). c.id) (collect ms).0) → P a)
        → All (OfCalls (λ c. P c.id)) (ms ++ map tool rs)
    unfolding collect
    collect-calls [] [] k = tt
    collect-calls [] (r ∷ rs) k = (tt, collect-calls [] rs k)
    collect-calls (assistant content calls reasoning d ∷ ms) rs k =
        let first = calls_of-first calls (collect ms).0 k in (first.0, collect-calls ms rs first.1)
    collect-calls (tool result ∷ ms) rs k = (tt, collect-calls ms rs k)
    collect-calls (system content ∷ ms) rs k = (tt, collect-calls ms rs k)
    collect-calls (user content ∷ ms) rs k = (tt, collect-calls ms rs k)

  pub settle_calls-Repaired :
      (h : History V) {h' : History V}
      → settle_calls (collect h.messages).0 (collect h.messages).1 h ≡ ok h'
      → Repaired h h'
  settle_calls-Repaired h {h'} e =
      let s = settle_calls-Settles (collect h.messages).0 (collect h.messages).1 h e in
      record {
        added = s.added;
        appended = s.appended;
        unknown = s.unknown;
        every_call = subst IsAnswered (sym s.appended) (
            collect-calls (λ a. Mem a (result_ids (h.messages ++ map tool s.added))) h.messages
              s.added
              (λ a m. subst (Mem a) (sym (result_ids-append h.messages s.added)) (
                Or.elim Mem-prop (mem-append.0 (s.covered a m))
                  (λ l. mem-append_left _ (collect-results a h.messages l))
                  (λ r. mem-append_right (result_ids h.messages) r))));
      }

  -- After a repair that fits, each call of the transcript has a result in it, and only results of
  -- unknown outcome were appended.
  pub repair_unsettled-Repaired :
      (h : History V) {h' : History V} → repair_unsettled h ≡ ok h' → Repaired h h'
  unfolding repair_unsettled
  repair_unsettled-Repaired h e = settle_calls-Repaired h e
