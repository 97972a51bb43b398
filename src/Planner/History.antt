-- ===== src/Planner/History.antt =====
-- packages/planner/src/history.rs: a plan is bound to the metadata of a run, and recovered from the
-- results of its plan tools. A BTreeMap keyed by revisions is an association list in their order.
pub mod Seeds
pub mod Revisions
pub mod Newest
pub mod Origins
pub mod Confirmed
pub mod Results
pub mod Reported
pub mod Recovery
mod Tests
use mona_agent_core.Prelude.{
  ℕ, zero, suc, ◌+◌, ◌-◌, ◌*◌, ◌/◌, ◌%◌, ◌≤◌, ◌<◌, min, max, String, ◌≡◌, refl, sym, ap, subst, ◌∙◌,
  ◌≢◌, ◌↔◌, ◌⊎◌, inl, inr, ite, Bool, true, false, not, ◌&&◌, ◌||◌, Option, none, some, List, [],
  ◌∷◌, ◌++◌, map, reverse, append_assoc, append-nil, arith, ltb, leb, ◌==◌, if◌then◌else◌, holds,
  holds→, →holds, is_some, is_empty, all, any, Option-cases, Bool-cases, &&-true, ||-false, ltb→lt,
  leb→le, ==_iff, length, get_elem?, set, take, drop, replicate, length-append, length-map, All,
  All-append, usize_max, checked_add, checked_mul, saturating_add, saturating_mul,
  checked_add-eq-some, checked_mul-eq-some, ℕ_discrete, retain,
}
use mona_agent_core.Prelude.Strings.{Str, str, str_discrete, len}
use mona_agent_core.Prelude.Maps.{Map, get, insert}
use mona_agent_core.Api.Error.{Result, ok, refuse, ok_or, ◌>>=◌, ◌>>◌}
use mona_agent_core.Api.Message.{
  Message, system, user, assistant, tool, ToolCall, ToolResult, ToolStatus,
}
use mona_agent_core.Api.Serializer.{Serializer}
use mona_agent_core.Api.Validation.{validate_messages}
use mona_agent_core.Api.Checkpoint.{
  RunCheckpoint, CheckpointToolState, pending, intent_recorded, settled, checkpoint_version,
}
use mona_agent_core.Planner.State.{
  PlanSnapshot, PlanSnapshot-discrete, validate, max_plan_bytes, over_limit, invalid,
}

abbrev pub plan_seed_key : Str
plan_seed_key = str "planner.seed"

-- is_plan_tool(name)
unfoldable pub is_plan_tool : Str → Bool
is_plan_tool name =
    holds (str_discrete name (str "plan_read"))
    || holds (str_discrete name (str "plan_update"))
    || holds (str_discrete name (str "plan_submit"))

pub record PlanRecord : Type 0 where
  pub run_id : Str
  pub call_id : Str
  pub state : PlanSnapshot

-- What the code takes from serde_json: the text of a snapshot, and what it reads from texts and values.
pub record PlanJson (V : Type 0) : Type 0 where
  pub snapshot_text : PlanSnapshot → Option Str
  pub read_snapshot : Str → Option PlanSnapshot
  pub planner_member : V → Option V
  pub value_bytes : V → Option ℕ
  pub read_record : V → Option PlanRecord

-- Documented of the derived Serialize and Deserialize: a text is read as the snapshot it was written
-- for.
pub record Reads {V : Type 0} (json : PlanJson V) : Type 0 where
  pub written :
      (p : PlanSnapshot) (text : Str)
      → json.snapshot_text p ≡ some text
      → json.read_snapshot text ≡ some p

module _ {V : Type 0} (json : PlanJson V) where
  -- serde_json::to_vec(state).len()
  abbrev pub snapshot_bytes : PlanSnapshot → Option ℕ
  snapshot_bytes p = elim (json.snapshot_text p) [ none ↦ none | some text ↦ some (len text) ]

  abbrev pub check : PlanSnapshot → Result (Unit {0})
  check = validate snapshot_bytes

-- The sum over the entries under other keys; the strings are in memory, so that it fits.
unfoldable pub other_bytes : Map Str → ℕ
other_bytes [] = 0
other_bytes (e ∷ es) =
    (if holds (str_discrete e.0 plan_seed_key) then 0 else saturating_add (len e.0) (len e.1))
    + other_bytes es

unfoldable pub seed_too_large : Map Str → Str → Bool
unfolding other_bytes
seed_too_large metadata encoded =
    ltb (16 * 1024)
      (saturating_add (saturating_add (other_bytes metadata) (len plan_seed_key)) (len encoded))

module _ {V : Type 0} (json : PlanJson V) where
  -- bind_state, on the metadata of the request
  unfoldable pub bind_state : Map Str → PlanSnapshot → Result (Map Str)
  unfolding seed_too_large
  bind_state metadata state = do
    check json state
    encoded ← ok_or (json.snapshot_text state) (invalid "plan encoding failed")
    refuse (seed_too_large metadata encoded)
        (invalid "plan seed does not fit the Run metadata budget")
    ok (insert plan_seed_key encoded metadata)

  unfoldable pub read_seed : Option Str → Result (Option PlanSnapshot)
  read_seed none = ok none
  read_seed (some encoded) = do
    refuse (ltb max_plan_bytes (len encoded)) (invalid "plan seed exceeds limit")
    state ← ok_or (json.read_snapshot encoded) (invalid "invalid plan seed")
    check json state
    ok (some state)

  -- seed(metadata)
  unfoldable pub seed : Map Str → Result (Option PlanSnapshot)
  unfolding read_seed
  seed metadata = read_seed (get plan_seed_key metadata)

module _ {V : Type 0} where
  unfoldable pub insert_calls : List (ToolCall V) → Map Str → Map Str
  unfolding is_plan_tool
  insert_calls [] names = names
  insert_calls (c ∷ cs) names =
      insert_calls cs (if is_plan_tool c.name then insert c.id c.name names else names)

  unfoldable pub calls_from : List (Message V) → Map Str → Map Str
  unfolding insert_calls
  calls_from [] names = names
  calls_from (assistant content tool_calls reasoning d ∷ ms) names =
      calls_from ms (insert_calls tool_calls names)
  calls_from (system content ∷ ms) names = calls_from ms names
  calls_from (user content ∷ ms) names = calls_from ms names
  calls_from (tool result ∷ ms) names = calls_from ms names

  -- calls(messages): the plan tools by the ids of their calls
  unfoldable pub calls : List (Message V) → Map Str
  unfolding calls_from
  calls messages = calls_from messages []

  -- The tool results of a transcript.
  unfoldable pub results_of : List (Message V) → List (ToolResult V)
  results_of [] = []
  results_of (tool result ∷ ms) = result ∷ results_of ms
  results_of (system content ∷ ms) = results_of ms
  results_of (user content ∷ ms) = results_of ms
  results_of (assistant content tool_calls reasoning d ∷ ms) = results_of ms

  -- The settled results of an unfinished batch.
  unfoldable pub settled_of : Map (CheckpointToolState V) → List (ToolResult V)
  settled_of [] = []
  settled_of ((id, settled result) ∷ states) = result ∷ settled_of states
  settled_of ((id, pending) ∷ states) = settled_of states
  settled_of ((id, intent_recorded) ∷ states) = settled_of states

abbrev pub is_success : ToolStatus → Bool
is_success ToolStatus.success = true
is_success _ = false

module _ {V : Type 0} (json : PlanJson V) where
  unfoldable pub read_value : Str → V → Result (Option PlanRecord)
  read_value call_id value = do
    refuse (over_limit (max_plan_bytes + 1024) (json.value_bytes value))
        (invalid "plan record exceeds limit")
    r ← ok_or (json.read_record value) (invalid "invalid plan result snapshot")
    refuse
        (not (holds (str_discrete r.call_id call_id))
          || is_empty r.run_id
          || ltb 256 (len r.run_id))
        (invalid "plan result identity does not match its tool call")
    check json r.state
    ok (some r)

  unfoldable pub planner_value : Option V → Option V
  planner_value none = none
  planner_value (some structured) = json.planner_member structured

  unfoldable pub confirm : ToolResult V → Result (Option PlanRecord)
  unfolding read_value planner_value
  confirm result = do
    refuse result.truncated (invalid "cannot recover a truncated plan result")
    value ←
        ok_or (planner_value result.structured)
          (invalid "confirmed plan result is missing its structured snapshot")
    read_value result.call_id value

  -- record(result, names)
  unfoldable pub read_result : Map Str → ToolResult V → Result (Option PlanRecord)
  unfolding confirm
  read_result names result =
      if not (is_some (get result.call_id names)) || not (is_success result.status)
      then ok none
      else confirm result

  abbrev pub later : Option PlanRecord → Option PlanSnapshot → Option PlanSnapshot
  later none latest = latest
  later (some r) latest = some r.state

  -- The loop of recover_history over the tool results.
  unfoldable pub recover_results :
      Map Str → List (ToolResult V) → Option PlanSnapshot → Result (Option PlanSnapshot)
  unfolding read_result
  recover_results names [] latest = ok latest
  recover_results names (result ∷ results) latest = do
    r ← read_result names result
    recover_results names results (later r latest)

  unfoldable pub recover_history : Serializer V → List (Message V) → Result (Option PlanSnapshot)
  unfolding recover_results calls results_of
  recover_history serializer messages = do
    validate_messages serializer messages
    recover_results (calls messages) (results_of messages) none

-- current.get(&revision), on a BTreeMap<u64, PlanSnapshot>
unfoldable pub at_revision : ℕ → List (ℕ × PlanSnapshot) → Option PlanSnapshot
at_revision n [] = none
at_revision n (e ∷ es) = if e.0 == n then some e.1 else at_revision n es

-- current.insert(revision, state)
unfoldable pub put_revision : ℕ → PlanSnapshot → List (ℕ × PlanSnapshot) → List (ℕ × PlanSnapshot)
put_revision n p [] = (n, p) ∷ []
put_revision n p (e ∷ es) =
    let rest = put_revision n p es in
    if e.0 == n then (n, p) ∷ es else if ltb n e.0 then (n, p) ∷ e ∷ es else e ∷ rest

-- `is_some_and(|old| old != state)`
abbrev pub conflicts : Option PlanSnapshot → PlanSnapshot → Bool
conflicts none state = false
conflicts (some old) state = not (holds (PlanSnapshot-discrete old state))

-- What the loop over the results carries: `latest` and `current`.
pub record Found : Type 0 where
  pub latest : Option PlanSnapshot
  pub current : List (ℕ × PlanSnapshot)

unfoldable pub keep_own : PlanSnapshot → Found → Result Found
unfolding at_revision put_revision
keep_own state found = do
  refuse (conflicts (at_revision state.revision found.current) state)
      (invalid "conflicting plan snapshots share a revision")
  ok (record found { current = put_revision state.revision state found.current })

-- The body of that loop, for a record.
unfoldable pub keep : Str → Option PlanSnapshot → PlanRecord → Found → Result Found
unfolding keep_own
keep run_id base r found =
    if holds (str_discrete r.run_id run_id)
    then keep_own r.state found
    else ok (if not (is_some base) then record found { latest = some r.state } else found)

unfoldable pub keep_read : Str → Option PlanSnapshot → Option PlanRecord → Found → Result Found
unfolding keep
keep_read run_id base none found = ok found
keep_read run_id base (some r) found = keep run_id base r found

module _ {V : Type 0} (json : PlanJson V) where
  unfoldable pub collect :
      Map Str → Str → Option PlanSnapshot → List (ToolResult V) → Found → Result Found
  unfolding read_result keep_read
  collect names run_id base [] found = ok found
  collect names run_id base (result ∷ results) found = do
    r ← read_result json names result
    next ← keep_read run_id base r found
    collect names run_id base results next

-- The tests on one confirmed state of this run.
unfoldable pub succeed : Option PlanSnapshot → PlanSnapshot → Result (Unit {0})
succeed none state = ok tt
succeed (some old) state = do
  refuse (ltb state.revision old.revision)
      (invalid "confirmed plan revision predates this Run's seed")
  refuse (old.revision == state.revision && not (holds (PlanSnapshot-discrete old state)))
      (invalid "plan seed conflicts with the confirmed snapshot")

-- The loop over `current`.
unfoldable pub settle_on :
    List (ℕ × PlanSnapshot) → Option PlanSnapshot → Result (Option PlanSnapshot)
unfolding succeed
settle_on [] latest = ok latest
settle_on (e ∷ es) latest = do succeed latest e.1; settle_on es (some e.1)

module _ {V F : Type 0} where
  -- The results that recover_checkpoint reads, in its order.
  unfoldable pub confirmed : RunCheckpoint V F → List (ToolResult V)
  unfolding results_of settled_of
  confirmed cp = results_of cp.transcript ++ settled_of cp.pending_tools

module _ {V F : Type 0} (json : PlanJson V) where
  unfoldable pub recover_checkpoint : RunCheckpoint V F → Result (Option PlanSnapshot)
  unfolding calls seed collect settle_on confirmed
  recover_checkpoint cp = do
    refuse (not (cp.schema_version == checkpoint_version))
        (invalid "unsupported checkpoint version")
    base ← seed json cp.metadata
    found ←
        collect json (calls cp.transcript) cp.run_id base (confirmed cp)
          (record { latest = base; current = [] })
    settle_on found.current found.latest
