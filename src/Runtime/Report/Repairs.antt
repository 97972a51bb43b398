-- ===== src/Runtime/Report/Repairs.antt =====
-- packages/runtime/src/engine.rs: what repair_unsettled leaves, also when it fails.
use mona_agent_core.Prelude.{
  ◌≡◌, refl, sym, ap, ◌∙◌, Bool, true, false, List, [], ◌∷◌, ◌++◌, append_assoc, append-nil, map,
  All, if◌then◌else◌,
}
use mona_agent_core.Prelude.Strings.{Str, str_discrete}
use mona_agent_core.Prelude.Sets.{contains}
use mona_agent_core.Api.Error.{Result, ok, err, ◌>>=◌}
use mona_agent_core.Api.Message.{Message, tool, ToolCall, ToolResult, ToolStatus}
use mona_agent_core.Api.Serializer.{Serializer}
use mona_agent_core.Runtime.History.{History, extend}
use mona_agent_core.Runtime.Repair.{lost, lost-unknown, settle_calls, extend-messages}
use mona_agent_core.Runtime.Report.{repaired_later, repair_calls}

-- The transcript that is reported continues the one of the loop with results of unknown outcome.
pub record Continued {V : Type 0} (before after : List (Message V)) : Type 0 where
  pub added : List (ToolResult V)
  pub appended : after ≡ before ++ map tool added
  pub unknown : All (λ (r : ToolResult V). r.status ≡ ToolStatus.unknown) added

module _ {V : Type 0} (json : Serializer V) where
  pub repair_calls-Continued :
      (cs : List (ToolCall V)) (settled : List Str) (h : History V)
      → Continued h.messages (repair_calls json cs settled h).0.messages
  unfolding repair_calls repaired_later
  repair_calls-Continued [] settled h = record {
    added = [];
    appended = sym (append-nil h.messages);
    unknown = tt;
  }
  repair_calls-Continued (c ∷ cs) settled h =
      by_settled (contains str_discrete c.id settled) (λ g. repair_calls-Continued cs settled g)
    where
      later :
          (r : Result (History V))
          → extend json h (tool (lost json c) ∷ []) ≡ r
          → ((g : History V) → Continued g.messages (repair_calls json cs settled g).0.messages)
          → Continued h.messages (repaired_later h r (repair_calls json cs settled)).0.messages
      later (err e) q rest = record {
        added = [];
        appended = sym (append-nil h.messages);
        unknown = tt;
      }
      later (ok g) q rest =
          let ih = rest g in
          record {
            added = lost json c ∷ ih.added;
            appended =
                ih.appended
                ∙ ap (λ z. z ++ map tool ih.added)
                    (extend-messages json h (tool (lost json c) ∷ []) q)
                ∙ append_assoc h.messages (tool (lost json c) ∷ []) (map tool ih.added);
            unknown = (lost-unknown json c, ih.unknown);
          }

      by_settled :
          (b : Bool)
          → ((g : History V) → Continued g.messages (repair_calls json cs settled g).0.messages)
          → Continued h.messages
              (if b
                then repair_calls json cs settled h
                else repaired_later h
                    (extend json h (tool (lost json c) ∷ []))
                    (repair_calls json cs settled)).0.messages
      by_settled true rest = rest h
      by_settled false rest = later (extend json h (tool (lost json c) ∷ [])) refl rest

  pub repair_calls-settle_calls :
      (cs : List (ToolCall V)) (settled : List Str) (h : History V)
      → (repair_calls json cs settled h).1 ≡ ok tt
      → settle_calls json cs settled h ≡ ok (repair_calls json cs settled h).0
  unfolding repair_calls settle_calls repaired_later
  repair_calls-settle_calls [] settled h q = refl
  repair_calls-settle_calls (c ∷ cs) settled h q =
      by_settled (contains str_discrete c.id settled) (λ g. repair_calls-settle_calls cs settled g)
        q
    where
      later :
          (r : Result (History V))
          → ((g : History V)
              → (repair_calls json cs settled g).1 ≡ ok tt
              → settle_calls json cs settled g ≡ ok (repair_calls json cs settled g).0)
          → (repaired_later h r (repair_calls json cs settled)).1 ≡ ok tt
          → (r >>= settle_calls json cs settled)
            ≡ ok (repaired_later h r (repair_calls json cs settled)).0
      later (err e) rest q = absurd cc
      later (ok g) rest q = rest g q

      by_settled :
          (b : Bool)
          → ((g : History V)
              → (repair_calls json cs settled g).1 ≡ ok tt
              → settle_calls json cs settled g ≡ ok (repair_calls json cs settled g).0)
          → (if b
              then repair_calls json cs settled h
              else repaired_later h
                  (extend json h (tool (lost json c) ∷ []))
                  (repair_calls json cs settled)).1
            ≡ ok tt
          → (elim b as (λ x. Result (History V)) [
            | true ↦ settle_calls json cs settled h
            | false ↦ extend json h (tool (lost json c) ∷ []) >>= settle_calls json cs settled
          ])
            ≡ ok
                (if b
                  then repair_calls json cs settled h
                  else repaired_later h
                      (extend json h (tool (lost json c) ∷ []))
                      (repair_calls json cs settled)).0
      by_settled true rest q = rest h q
      by_settled false rest q = later (extend json h (tool (lost json c) ∷ [])) rest q
