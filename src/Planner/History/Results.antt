-- ===== src/Planner/History/Results.antt =====
-- packages/planner/src/history.rs: the results that recover_checkpoint reads are those of the
-- transcript and of the unfinished batch.
use mona_agent_core.Prelude.{◌≡◌, refl, subst, ◌⊎◌, inl, inr, List, [], ◌∷◌, ◌++◌, All, Any}
use mona_agent_core.Prelude.Maps.{Map}
use mona_agent_core.Api.Message.{Message, system, user, assistant, tool, ToolResult}
use mona_agent_core.Api.Checkpoint.{
  RunCheckpoint, CheckpointToolState, pending, intent_recorded, settled,
}
use mona_agent_core.Planner.History.{results_of, settled_of, confirmed}
use mona_agent_core.Planner.History.Confirmed.{Reported}

same_result : {V : Type 0} {x y : ToolResult V} → tool x ≡ tool y → x ≡ y
same_result h = cc

same_settled : {V : Type 0} {x y : ToolResult V} → settled x ≡ settled y → x ≡ y
same_settled h = cc

module _ {V : Type 0} (P : ToolResult V → Type 0) where
  Any-append : (xs ys : List (ToolResult V)) → Any P (xs ++ ys) → Any P xs ⊎ Any P ys
  Any-append [] ys a = inr a
  Any-append (x ∷ xs) ys (inl p) = inl (inl p)
  Any-append (x ∷ xs) ys (inr a) = elim (Any-append xs ys a) [ inl b ↦ inl (inr b) | inr b ↦ inr b ]

  All-split : (xs ys : List (ToolResult V)) → All P (xs ++ ys) → All P xs × All P ys
  All-split [] ys a = (tt, a)
  All-split (x ∷ xs) ys a = let rest = All-split xs ys a.1 in ((a.0, rest.0), rest.1)

  Any-results_of :
      (ms : List (Message V))
      → Any P (results_of ms)
      → (x : ToolResult V) × Any (λ m. m ≡ tool x) ms × P x
  unfolding results_of
  Any-results_of [] a = absurd a
  Any-results_of (tool result ∷ ms) (inl p) = (result, inl refl, p)
  Any-results_of (tool result ∷ ms) (inr a) = let (x, m, p) = Any-results_of ms a in (x, inr m, p)
  Any-results_of (system content ∷ ms) a = let (x, m, p) = Any-results_of ms a in (x, inr m, p)
  Any-results_of (user content ∷ ms) a = let (x, m, p) = Any-results_of ms a in (x, inr m, p)
  Any-results_of (assistant content cs reasoning d ∷ ms) a =
      let (x, m, p) = Any-results_of ms a in (x, inr m, p)

  Any-settled_of :
      (es : Map (CheckpointToolState V))
      → Any P (settled_of es)
      → (x : ToolResult V) × Any (λ e. e.1 ≡ settled x) es × P x
  unfolding settled_of
  Any-settled_of [] a = absurd a
  Any-settled_of ((id, settled result) ∷ es) (inl p) = (result, inl refl, p)
  Any-settled_of ((id, settled result) ∷ es) (inr a) =
      let (x, m, p) = Any-settled_of es a in (x, inr m, p)
  Any-settled_of ((id, pending) ∷ es) a = let (x, m, p) = Any-settled_of es a in (x, inr m, p)
  Any-settled_of ((id, intent_recorded) ∷ es) a =
      let (x, m, p) = Any-settled_of es a in (x, inr m, p)

  -- The results that are read are those that are reported.
  pub Any-confirmed :
      {F : Type 0} (cp : RunCheckpoint V F)
      → Any P (confirmed cp)
      → (x : ToolResult V) × Reported cp x × P x
  unfolding confirmed
  Any-confirmed cp a =
      elim (Any-append (results_of cp.transcript) (settled_of cp.pending_tools) a) [
        | inl b ↦ let (x, m, p) = Any-results_of cp.transcript b in (x, inl m, p)
        | inr b ↦ let (x, m, p) = Any-settled_of cp.pending_tools b in (x, inr m, p)
      ]

  All-results_of :
      (ms : List (Message V)) (x : ToolResult V)
      → All P (results_of ms)
      → Any (λ m. m ≡ tool x) ms
      → P x
  unfolding results_of
  All-results_of [] x a m = absurd m
  All-results_of (tool result ∷ ms) x a (inl q) = subst P (same_result q) a.0
  All-results_of (tool result ∷ ms) x a (inr m) = All-results_of ms x a.1 m
  All-results_of (system content ∷ ms) x a (inl q) = cc
  All-results_of (system content ∷ ms) x a (inr m) = All-results_of ms x a m
  All-results_of (user content ∷ ms) x a (inl q) = cc
  All-results_of (user content ∷ ms) x a (inr m) = All-results_of ms x a m
  All-results_of (assistant content cs reasoning d ∷ ms) x a (inl q) = cc
  All-results_of (assistant content cs reasoning d ∷ ms) x a (inr m) = All-results_of ms x a m

  All-settled_of :
      (es : Map (CheckpointToolState V)) (x : ToolResult V)
      → All P (settled_of es)
      → Any (λ e. e.1 ≡ settled x) es
      → P x
  unfolding settled_of
  All-settled_of [] x a m = absurd m
  All-settled_of ((id, settled result) ∷ es) x a (inl q) = subst P (same_settled q) a.0
  All-settled_of ((id, settled result) ∷ es) x a (inr m) = All-settled_of es x a.1 m
  All-settled_of ((id, pending) ∷ es) x a (inl q) = cc
  All-settled_of ((id, pending) ∷ es) x a (inr m) = All-settled_of es x a m
  All-settled_of ((id, intent_recorded) ∷ es) x a (inl q) = cc
  All-settled_of ((id, intent_recorded) ∷ es) x a (inr m) = All-settled_of es x a m

  pub All-confirmed :
      {F : Type 0} (cp : RunCheckpoint V F) (x : ToolResult V)
      → All P (confirmed cp)
      → Reported cp x
      → P x
  unfolding confirmed
  All-confirmed cp x a m =
      let (of_transcript, of_batch) =
        All-split (results_of cp.transcript) (settled_of cp.pending_tools) a in
      elim m [
        | inl q ↦ All-results_of cp.transcript x of_transcript q
        | inr q ↦ All-settled_of cp.pending_tools x of_batch q
      ]
