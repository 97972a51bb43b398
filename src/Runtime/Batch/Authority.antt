-- ===== src/Runtime/Batch/Authority.antt =====
-- Which calls pass the preflight of a batch.
use mona_agent_core.Prelude.{
  String, ◌≡◌, refl, sym, ap, subst, Bool, true, false, not, ◌&&◌, Option, none, some, List,
  if◌then◌else◌,
}
use mona_agent_core.Prelude.Strings.{Str, str, str_discrete}
use mona_agent_core.Prelude.Sets.{contains}
use mona_agent_core.Api.Error.{Result, ok, refuse, ◌>>◌, refuse-eq-ok, >>=-eq-ok, error, ErrorCode}
use mona_agent_core.Api.Message.{ToolCall, ToolStatus}
use mona_agent_core.Api.Serializer.{Serializer}
use mona_agent_core.Runtime.Batch.{
  CompiledTool, Moment, Ready, Checked, passes, find_tool, settle_with, authorize, look_up,
  preflight,
}

module _ {V : Type 0} (json : Serializer V) where
  -- What a call that may be dispatched has shown.
  pub record IsAuthorized (tools : List (Str × CompiledTool V)) (effects offered : List Str)
      (now : Moment) (call : ToolCall V) (r : Ready V) : Type 0 where
    pub same : r.call ≡ call
    pub known : find_tool call.name tools ≡ some r.tool
    pub was_offered : contains str_discrete call.name offered ≡ true
    pub valid : r.tool.schema_errors call.arguments ≡ none
    pub allowed : (r.tool.side_effects && not (contains str_discrete r.tool.name effects)) ≡ false
    pub running : (now.task_check ≡ ok tt) × (now.is_cancelled ≡ false)

  choose-passes :
      (b : Bool) (message : String) (call : ToolCall V) (q : Ready V) {r : Ready V}
      → (if b then settle_with json call ToolStatus.denied (str message) else ok (passes q))
        ≡ ok (passes r)
      → (q ≡ r) × (b ≡ false)
  unfolding settle_with
  choose-passes true message call q h = cc h
  choose-passes false message call q h = (cc h, refl)

  authorize-passes :
      (effects : List Str) (call : ToolCall V) (tool : CompiledTool V) (o : Option Str)
      {r : Ready V}
      → authorize json effects call tool o ≡ ok (passes r)
      → (record { call = call; tool = tool } ≡ r)
        × ((o ≡ none)
            × ((tool.side_effects && not (contains str_discrete tool.name effects)) ≡ false))
  unfolding authorize settle_with
  authorize-passes effects call tool (some m) h = cc h
  authorize-passes effects call tool none h =
      let (same, allowed) =
        choose-passes (tool.side_effects && not (contains str_discrete tool.name effects))
          "side-effect tool not authorized by host" call (record { call = call; tool = tool }) h in
      (same, (refl, allowed))

  look_up-passes :
      (effects : List Str) (call : ToolCall V) (o : Option (CompiledTool V)) {r : Ready V}
      → look_up json effects call o ≡ ok (passes r)
      → (call ≡ r.call)
        × ((o ≡ some r.tool)
            × ((r.tool.schema_errors call.arguments ≡ none)
                × ((r.tool.side_effects && not (contains str_discrete r.tool.name effects))
                    ≡ false)))
  unfolding look_up settle_with
  look_up-passes effects call none h = cc h
  look_up-passes effects call (some tool) h =
      let (same, (valid, allowed)) =
        authorize-passes effects call tool (tool.schema_errors call.arguments) h in
      let tools = ap (λ (z : Ready V). z.tool) same in
      (
        ap (λ (z : Ready V). z.call) same,
        (
          ap some tools,
          (
            subst (λ (z : CompiledTool V). z.schema_errors call.arguments ≡ none) tools valid,
            subst
                (λ (z : CompiledTool V).
                  (z.side_effects && not (contains str_discrete z.name effects)) ≡ false)
                tools allowed,
          ),
        ),
      )

  offered-passes :
      (b : Bool) (call : ToolCall V) (rest : Result (Checked V)) {r : Ready V}
      → (if not b
          then settle_with json call ToolStatus.denied
              (str "tool was not offered in this model round")
          else rest)
        ≡ ok (passes r)
      → (b ≡ true) × (rest ≡ ok (passes r))
  unfolding settle_with
  offered-passes true call rest h = (refl, h)
  offered-passes false call rest h = cc h

  -- A call passes the preflight only for a tool that was offered in the round and is known to the host,
  -- with arguments that its schema accepts, and, if the tool has side effects, with the authorization of
  -- the host, while the run is neither stopped nor cancelled.
  pub preflight-IsAuthorized :
      (tools : List (Str × CompiledTool V)) (effects offered : List Str) (now : Moment)
      (call : ToolCall V) (r : Ready V)
      → preflight json tools effects offered now call ≡ ok (passes r)
      → IsAuthorized tools effects offered now call r
  unfolding preflight
  preflight-IsAuthorized tools effects offered now call r h =
      let (_, checked, h1) = >>=-eq-ok now.task_check _ h in
      let (_, _, h2) = >>=-eq-ok now.checkpoint_check _ h1 in
      let (was_offered, h3) =
        offered-passes (contains str_discrete call.name offered) call
          (refuse now.is_cancelled (error ErrorCode.cancelled "run cancelled")
            >> look_up json effects call (find_tool call.name tools))
          h2 in
      let (_, alive, h4) =
        >>=-eq-ok (refuse now.is_cancelled (error ErrorCode.cancelled "run cancelled"))
          (λ done. look_up json effects call (find_tool call.name tools)) h3 in
      let (same, (known, (valid, allowed))) =
        look_up-passes effects call (find_tool call.name tools) h4 in
      record {
        same = sym same;
        known = known;
        was_offered = was_offered;
        valid = valid;
        allowed = allowed;
        running = (checked, refuse-eq-ok now.is_cancelled _ alive);
      }
