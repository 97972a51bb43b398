-- ===== src/Planner/History/Confirmed.antt =====
-- packages/planner/src/history.rs: which results of a checkpoint confirm a plan, described by the
-- transcript and the unfinished batch themselves.
use mathlib.Core.Bool.{true≢false}
use mona_agent_core.Prelude.{
  ◌≡◌, refl, sym, ap, ◌∙◌, ◌⊎◌, inl, inr, Bool, true, false, ◌||◌, some, List, [], ◌∷◌,
  if◌then◌else◌, holds, →holds, is_some, Any, arith,
}
use mona_agent_core.Prelude.Strings.{Str, str, str_discrete}
use mona_agent_core.Prelude.Maps.{Map, get, insert, get-insert_same, get-insert_other}
use mona_agent_core.Api.Message.{
  Message, system, user, assistant, tool, ToolCall, ToolResult, ToolStatus,
}
use mona_agent_core.Api.Checkpoint.{RunCheckpoint, settled}
use mona_agent_core.Planner.History.{PlanJson, PlanRecord, is_plan_tool, insert_calls, calls_from}

-- The name of a plan tool.
abbrev pub PlanName : Str → Type 0
PlanName n = (n ≡ str "plan_read") ⊎ (n ≡ str "plan_update") ⊎ (n ≡ str "plan_submit")

module _ {V : Type 0} where
  abbrev pub PlanCall : Str → ToolCall V → Type 0
  PlanCall id c = (c.id ≡ id) × PlanName c.name

  -- A message that calls a plan tool under this id.
  abbrev pub CallsPlan : Str → Message V → Type 0
  CallsPlan id (assistant content tool_calls reasoning d) = Any (PlanCall id) tool_calls
  CallsPlan id (system content) = ⊥
  CallsPlan id (user content) = ⊥
  CallsPlan id (tool result) = ⊥

  -- A result of the transcript, or one that is settled in the unfinished batch.
  abbrev pub Reported : {F : Type 0} → RunCheckpoint V F → ToolResult V → Type 0
  Reported cp x = Any (λ m. m ≡ tool x) cp.transcript ⊎ Any (λ e. e.1 ≡ settled x) cp.pending_tools

-- A whole and successful result of a call of a plan tool, with its record.
pub record IsConfirmed {V : Type 0} (json : PlanJson V) (transcript : List (Message V))
    (x : ToolResult V) (r : PlanRecord) : Type 0 where
  pub called : Any (CallsPlan x.call_id) transcript
  pub succeeded : x.status ≡ ToolStatus.success
  pub whole : x.truncated ≡ false
  pub structured : V
  pub value : V
  pub has_structured : x.structured ≡ some structured
  pub has_member : json.planner_member structured ≡ some value
  pub reads : json.read_record value ≡ some r
  pub same_call : r.call_id ≡ x.call_id

is_plan_tool-PlanName : (n : Str) → is_plan_tool n ≡ true → PlanName n
unfolding is_plan_tool
is_plan_tool-PlanName n h =
    by_name (str_discrete n (str "plan_read")) (str_discrete n (str "plan_update"))
      (str_discrete n (str "plan_submit")) h
  where
    by_name :
        (a : Dec (n ≡ str "plan_read")) (b : Dec (n ≡ str "plan_update"))
        (c : Dec (n ≡ str "plan_submit"))
        → (holds a || holds b || holds c) ≡ true
        → PlanName n
    by_name (yes q) b c k = inl q
    by_name (no p) (yes q) c k = inr (inl q)
    by_name (no p) (no q) (yes r) k = inr (inr r)
    by_name (no p) (no q) (no r) k = cc

PlanName-is_plan_tool : (n : Str) → PlanName n → is_plan_tool n ≡ true
unfolding is_plan_tool
PlanName-is_plan_tool n (inl q) = ground (arith, →holds (str_discrete n (str "plan_read")) q)
PlanName-is_plan_tool n (inr (inl q)) =
    ground (arith, →holds (str_discrete n (str "plan_update")) q)
PlanName-is_plan_tool n (inr (inr q)) =
    ground (arith, →holds (str_discrete n (str "plan_submit")) q)

module _ (id : Str) where
  abbrev pub Known : Map Str → Type 0
  Known names = is_some (get id names) ≡ true

  insert-Known : (k v : Str) (names : Map Str) → Known (insert k v names) → (k ≡ id) ⊎ Known names
  insert-Known k v names h = elim (str_discrete k id) [
    | yes q ↦ inl q
    | no q ↦ inr (ap is_some (sym (get-insert_other k id v names q)) ∙ h)
  ]

  Known-insert : (k v : Str) (names : Map Str) → (k ≡ id) ⊎ Known names → Known (insert k v names)
  Known-insert k v names (inl q) =
      ap (λ (x : Str). is_some (get x (insert k v names))) (sym q)
      ∙ ap is_some (get-insert_same k v names)
  Known-insert k v names (inr h) = elim (str_discrete k id) [
    | yes q ↦
        ap (λ (x : Str). is_some (get x (insert k v names))) (sym q)
        ∙ ap is_some (get-insert_same k v names)
    | no q ↦ ap is_some (get-insert_other k id v names q) ∙ h
  ]

module _ {V : Type 0} (id : Str) where
  insert_calls-Known :
      (cs : List (ToolCall V)) (names : Map Str)
      → Known id (insert_calls cs names)
      → Any (PlanCall id) cs ⊎ Known id names
  unfolding insert_calls
  insert_calls-Known [] names h = inr h
  insert_calls-Known (c ∷ cs) names h =
      by_tool (is_plan_tool c.name) refl (insert_calls-Known cs _ h)
    where
      by_tool :
          (b : Bool)
          → is_plan_tool c.name ≡ b
          → Any (PlanCall id) cs ⊎ Known id (if b then insert c.id c.name names else names)
          → Any (PlanCall id) (c ∷ cs) ⊎ Known id names
      by_tool b p (inl a) = inl (inr a)
      by_tool false p (inr k) = inr k
      by_tool true p (inr k) = elim (insert-Known id c.id c.name names k) [
        | inl q ↦ inl (inl (q, is_plan_tool-PlanName c.name p))
        | inr m ↦ inr m
      ]

  Known-insert_calls :
      (cs : List (ToolCall V)) (names : Map Str)
      → Any (PlanCall id) cs ⊎ Known id names
      → Known id (insert_calls cs names)
  unfolding insert_calls
  Known-insert_calls [] names (inl a) = absurd a
  Known-insert_calls [] names (inr k) = k
  Known-insert_calls (c ∷ cs) names h =
      Known-insert_calls cs _ (by_tool (is_plan_tool c.name) refl h)
    where
      by_tool :
          (b : Bool)
          → is_plan_tool c.name ≡ b
          → Any (PlanCall id) (c ∷ cs) ⊎ Known id names
          → Any (PlanCall id) cs ⊎ Known id (if b then insert c.id c.name names else names)
      by_tool b p (inl (inr a)) = inl a
      by_tool true p (inl (inl q)) = inr (Known-insert id c.id c.name names (inl q.0))
      by_tool false p (inl (inl q)) =
          absurd (true≢false (sym (PlanName-is_plan_tool c.name q.1) ∙ p))
      by_tool true p (inr k) = inr (Known-insert id c.id c.name names (inr k))
      by_tool false p (inr k) = inr k

  pub calls_from-Known :
      (ms : List (Message V)) (names : Map Str)
      → Known id (calls_from ms names)
      → Any (CallsPlan id) ms ⊎ Known id names
  unfolding calls_from
  calls_from-Known [] names h = inr h
  calls_from-Known (assistant content tool_calls reasoning d ∷ ms) names h =
      elim (calls_from-Known ms (insert_calls tool_calls names) h) [
        | inl a ↦ inl (inr a)
        | inr k ↦ elim (insert_calls-Known tool_calls names k) [
          | inl a ↦ inl (inl a)
          | inr m ↦ inr m
        ]
      ]
  calls_from-Known (system content ∷ ms) names h = elim (calls_from-Known ms names h) [
    | inl a ↦ inl (inr a)
    | inr m ↦ inr m
  ]
  calls_from-Known (user content ∷ ms) names h = elim (calls_from-Known ms names h) [
    | inl a ↦ inl (inr a)
    | inr m ↦ inr m
  ]
  calls_from-Known (tool result ∷ ms) names h = elim (calls_from-Known ms names h) [
    | inl a ↦ inl (inr a)
    | inr m ↦ inr m
  ]

  pub Known-calls_from :
      (ms : List (Message V)) (names : Map Str)
      → Any (CallsPlan id) ms ⊎ Known id names
      → Known id (calls_from ms names)
  unfolding calls_from
  Known-calls_from [] names (inl a) = absurd a
  Known-calls_from [] names (inr k) = k
  Known-calls_from (assistant content tool_calls reasoning d ∷ ms) names (inl (inl a)) =
      Known-calls_from ms _ (inr (Known-insert_calls tool_calls names (inl a)))
  Known-calls_from (assistant content tool_calls reasoning d ∷ ms) names (inl (inr a)) =
      Known-calls_from ms _ (inl a)
  Known-calls_from (assistant content tool_calls reasoning d ∷ ms) names (inr k) =
      Known-calls_from ms _ (inr (Known-insert_calls tool_calls names (inr k)))
  Known-calls_from (system content ∷ ms) names (inl (inl a)) = absurd a
  Known-calls_from (system content ∷ ms) names (inl (inr a)) = Known-calls_from ms names (inl a)
  Known-calls_from (system content ∷ ms) names (inr k) = Known-calls_from ms names (inr k)
  Known-calls_from (user content ∷ ms) names (inl (inl a)) = absurd a
  Known-calls_from (user content ∷ ms) names (inl (inr a)) = Known-calls_from ms names (inl a)
  Known-calls_from (user content ∷ ms) names (inr k) = Known-calls_from ms names (inr k)
  Known-calls_from (tool result ∷ ms) names (inl (inl a)) = absurd a
  Known-calls_from (tool result ∷ ms) names (inl (inr a)) = Known-calls_from ms names (inl a)
  Known-calls_from (tool result ∷ ms) names (inr k) = Known-calls_from ms names (inr k)
