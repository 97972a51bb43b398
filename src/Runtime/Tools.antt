-- ===== src/Runtime/Tools.antt =====
-- packages/runtime/src/tools.rs: the execution of one tool call. The answers of the environment (the
-- clock and cancellation, checkpoint writes, policies, the body of the tool and the transforms) are
-- fields of `Dispatch`, in the order in which the code asks for them. `decimal` and `display` are the
-- formatting of numbers and of errors.
pub mod Guards
pub mod Capping
mod Tests
use mona_agent_core.Prelude.{
  ℕ, ◌-◌, max, String, Bool, true, false, not, ◌&&◌, ◌||◌, Option, none, some, List, [], ◌∷◌, ◌++◌,
  leb, if◌then◌else◌, holds, is_some,
}
use mona_agent_core.Prelude.Strings.{Str, str, str_discrete, len}
use mona_agent_core.Api.Error.{refuse, ◌>>=◌, ◌>>◌, AgentError, ErrorCode, Result, ok, err, error}
use mona_agent_core.Api.Content.{Content, has_media, preview}
use mona_agent_core.Api.Message.{ToolCall, ToolResult, ToolOutput, ToolStatus, clip_utf8}
use mona_agent_core.Api.Options.{or_option}
use mona_agent_core.Api.Serializer.{Serializer}
use mona_agent_core.Api.ToolResults.{new_result, from_output, payload_bytes, validate}

pub ToolStatus-discrete : Discrete ToolStatus
ToolStatus-discrete = hlevel

pub data PolicyDecision : Type 0 where
  allow : PolicyDecision
  deny : Str → PolicyDecision

-- What the environment answers during one call.
pub record Dispatch (V : Type 0) : Type 0 where
  -- ctx.task.check() and ctx.cancel.is_cancelled(), before the intent, after it, and before dispatch
  pub start_check : Result (Unit {0})
  pub start_cancelled : Bool
  pub intent_check : Result (Unit {0})
  pub intent_cancelled : Bool
  pub final_check : Result (Unit {0})
  pub final_cancelled : Bool
  pub intent : Result (Unit {0})
  -- One decision for each policy of the registry.
  pub decisions : List (Result PolicyDecision)
  pub checkpoint : Result (Unit {0})
  pub execution : Result (ToolOutput V)
  -- What each transform of the registry returns.
  pub transforms : List (Result (ToolResult V))
  pub saved : Result (Unit {0})

-- The result of a call, the error that stops the batch, and whether the body was entered.
pub record Outcome (V : Type 0) : Type 0 where
  pub result : ToolResult V
  pub fatal : Option AgentError
  pub entered : Bool

abbrev pub error_of : Result (Unit {0}) → Option AgentError
error_of (ok u) = none
error_of (err e) = some e

-- matches!(error.code, Cancelled | Deadline | Panic)
abbrev pub is_interruption : AgentError → Bool
is_interruption e = elim e.code [
  | ErrorCode.cancelled ↦ true
  | ErrorCode.deadline ↦ true
  | ErrorCode.panic ↦ true
  | _ ↦ false
]

module _ {V : Type 0} (json : Serializer V) (decimal : ℕ → Str) where
  -- `suffix` of cap_result.
  unfoldable pub notice : ℕ → Str
  notice n =
      10 ∷ str "[truncated: "
      ++ decimal n
      ++ str " original bytes; omitted content is not retained by core]"

  is_rich : ToolResult V → Bool
  is_rich r = has_media r.content || is_some r.structured || is_some r.artifact

  -- cap_result
  unfoldable pub cap_result : ToolResult V → ℕ → ToolResult V × Option AgentError
  unfolding notice is_rich
  cap_result r limit =
      let bytes = payload_bytes json r in
      let original = max r.original_bytes bytes in
      let suffix = notice original in
      let capped = record r {
        original_bytes = original;
        content = Content.text (clip_utf8 (preview r.content) (limit - len suffix) ++ suffix);
        structured = none;
        artifact = none;
        truncated = true;
      } in
      if leb bytes limit then (r, none) else (
        capped,
        if is_rich r
            then some (
                error ErrorCode.limit
                  "rich tool output exceeds limit; transform/archive it or increase the run limit")
            else none,
      )

  stop : ToolCall V → String → AgentError → Outcome V
  stop call reason e = record {
    result = new_result json call.id ToolStatus.skipped (Content.text (str reason));
    fatal = some e;
    entered = false;
  }

  -- A call that a policy does not let pass is settled without its body.
  settle_denied : ToolResult V → Option AgentError → ℕ → Result (Unit {0}) → Outcome V
  unfolding cap_result
  settle_denied r fatal limit saved =
      let capped = cap_result r limit in
      record {
        result = capped.0;
        fatal = or_option (or_option fatal capped.1) (error_of saved);
        entered = false;
      }

  -- The loop over the registry's policies: the first that does not allow the call ends it.
  denied : ToolCall V → List (Result PolicyDecision) → ℕ → Result (Unit {0}) → Option (Outcome V)
  unfolding settle_denied
  denied call [] limit saved = none
  denied call (ok allow ∷ ds) limit saved = denied call ds limit saved
  denied call (ok (deny reason) ∷ ds) limit saved = some (
      settle_denied
        (new_result json call.id ToolStatus.denied (Content.text (clip_utf8 reason 4096))) none
        limit saved)
  denied call (err e ∷ ds) limit saved = some (
      settle_denied
        (new_result json call.id ToolStatus.skipped
          (Content.text (str "policy check failed before dispatch; not executed")))
        (some e) limit saved)

  module _ (display : AgentError → Str) where
    -- The match on the execution.
    executed : ToolCall V → Result (ToolOutput V) → ToolResult V × Option AgentError
    executed call (ok output) = (from_output json call.id output, none)
    executed call (err e) =
        if is_interruption e
        then (
          new_result json call.id ToolStatus.unknown
              (Content.text (str "tool was started; final side-effect state is unknown")),
          some e,
        )
        else (new_result json call.id ToolStatus.error (Content.text (display e)), none)

    -- The loop over the registry's transforms.
    transformed : ToolResult V → List (Result (ToolResult V)) → ToolResult V × Option AgentError
    transformed r [] = (r, none)
    transformed r (err e ∷ ts) = (r, some e)
    transformed r (ok next ∷ ts) =
        let kept = record next {
          original_bytes = max next.original_bytes r.original_bytes;
          truncated = next.truncated || r.truncated;
        } in
        let rest = transformed kept ts in
        if holds (str_discrete next.call_id r.call_id)
          && holds (ToolStatus-discrete next.status r.status)
        then rest
        else (
          r,
          some (
              error ErrorCode.plugin
                "result transform changed immutable execution identity/status"),
        )

    maybe_transformed :
        ToolResult V × Option AgentError
        → List (Result (ToolResult V))
        → ToolResult V × Option AgentError
    unfolding transformed
    maybe_transformed (r, none) ts = transformed r ts
    maybe_transformed (r, some e) ts = (r, some e)

    checked_content : ToolResult V → Result (Unit {0}) → ToolResult V × Option AgentError
    checked_content r (ok u) = (r, none)
    checked_content r (err e) = (
      record r {
        content = Content.text (str "[invalid tool content omitted]");
        structured = none;
        artifact = none;
        truncated = true;
      },
      some e,
    )

    -- run_one from bus.start_tool on.
    dispatch : ToolCall V → ℕ → Dispatch V → Outcome V
    unfolding executed maybe_transformed checked_content cap_result
    dispatch call limit env =
        let ran = maybe_transformed (executed call env.execution) env.transforms in
        let valid = checked_content ran.0 (validate ran.0) in
        let capped = cap_result valid.0 limit in
        record {
          result = capped.0;
          fatal = or_option (or_option (or_option ran.1 valid.1) capped.1) (error_of env.saved);
          entered = true;
        }

    cancelled_error : Bool → String → Result (Unit {0})
    cancelled_error c message = refuse c (error ErrorCode.cancelled message)

    -- `if let Err(error) = check { return … }`
    guarded : ToolCall V → String → Result (Unit {0}) → Outcome V → Outcome V
    unfolding stop
    guarded call reason (ok u) rest = rest
    guarded call reason (err e) rest = stop call reason e

    or_denied : Option (Outcome V) → Outcome V → Outcome V
    or_denied none rest = rest
    or_denied (some o) rest = o

    -- run_one
    unfoldable pub run_one : ToolCall V → ℕ → Dispatch V → Outcome V
    unfolding dispatch denied guarded or_denied cancelled_error
    run_one call limit env = guarded call "task stopped before tool started" env.start_check (
        guarded call "cancelled before tool started"
          (cancelled_error env.start_cancelled "run cancelled")
          (guarded call "checkpoint failed before tool dispatch" env.intent (
            guarded call "task stopped after intent, before dispatch" env.intent_check (
              guarded call "cancelled after intent, before dispatch"
                (cancelled_error env.intent_cancelled "run cancelled")
                (or_denied (denied call env.decisions limit env.saved) (
                  guarded call "stopped after policy; not executed"
                    (env.final_check
                      >> cancelled_error env.final_cancelled "cancelled before dispatch")
                    (guarded call "checkpoint failed before dispatch" env.checkpoint
                      (dispatch call limit env))))))))
