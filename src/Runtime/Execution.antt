-- ===== src/Runtime/Execution.antt =====
-- packages/runtime/src/engine.rs: the state of a run, and the operations on it. Each operation takes
-- the execution and leaves it with a result, as the methods on `&mut self` do. What the environment
-- answers in one round is a `Round`: the stops, the inputs, the plugins, the model, the sink, and what
-- execute_batch leaves. `requests` are the requests given to the gateway.
use mona_agent_core.Prelude.{
  ℕ, Bool, true, false, Option, none, some, List, ◌∷◌, ◌++◌, String, any, take, drop,
}
use mona_agent_core.Prelude.Strings.{Str, str_discrete}
use mona_agent_core.Prelude.Sets.{contains}
use mona_agent_core.Api.Error.{AgentError, ErrorCode, Result, ok, err, error, refuse}
use mona_agent_core.Api.Message.{Message, assistant, ToolCall, ToolResult, ProviderData, ids}
use mona_agent_core.Runtime.History.{History, ToolBudget}
use mona_agent_core.Runtime.Checkpoints.{State, Surroundings, Save}
use mona_agent_core.Runtime.Repair.{collect}
use mona_agent_core.Runtime.Projection.{Block, RequestLimits, Recovery}

-- ModelReply
pub record Reply (V : Type 0) : Type 0 where
  pub content : Str
  pub calls : List (ToolCall V)
  pub reasoning : Option Str
  pub provider_data : Option (ProviderData V)

abbrev pub into_message : {V : Type 0} → Reply V → Message V
into_message r = assistant r.content r.calls r.reasoning r.provider_data

-- A request as the gateway gets it; beside it, the transcript that it was made from, and the protected
-- sources among its messages.
pub record Request (V : Type 0) : Type 0 where
  pub canonical : List (Message V)
  pub sources : List (Message V)
  pub tools : List Str
  pub messages : List (Message V)

pub record Execution (V F : Type 0) : Type 0 where
  pub transcript : History V
  pub checkpoints : State V F
  pub steps : ℕ
  pub queue : List Str
  pub requests : List (Request V)

-- What the environment answers in one round, in the order in which it is asked.
pub record Round (V : Type 0) : Type 0 where
  pub stopped : Option AgentError
  pub cancelled : Bool
  pub arrived : List Str
  pub input_saved : Surroundings
  pub selectors : List (Result (List Str))
  pub supplied : List (Result (List (Block V)))
  pub transforms : List (List (Message V) → Result (List (Message V)))
  pub before_saved : Surroundings
  pub reply : Result (Reply V)
  pub recoveries : List (Recovery V)
  pub again_saved : Surroundings
  pub second_reply : Result (Reply V)
  pub after_saved : Surroundings
  pub stopped_later : Option AgentError
  pub cancelled_later : Bool
  pub writes : List (Save V × Surroundings)
  pub results : List (ToolResult V)
  pub batch_error : Option AgentError
  pub settled_saved : Surroundings
  pub late_arrived : List Str
  pub late_saved : Surroundings

-- What stays the same during a run.
pub record Settings : Type 0 where
  pub max_steps : ℕ
  pub max_checkpoint_bytes : ℕ
  pub limits : RequestLimits
  pub enable_tools : Bool
  pub available : List Str

-- An operation on the execution.
abbrev pub Run : Type 0 → Type 0 → Type 0 → Type 0
Run V F A = Execution V F → Execution V F × Result A

module _ {V F : Type 0} where
  unfoldable pub continue :
      {A B : Type 0} → Execution V F × Result A → (A → Run V F B) → Execution V F × Result B
  continue (e, err x) rest = (e, err x)
  continue (e, ok a) rest = rest a e

  infixl 5 ◌>>=◌ ◌>>◌
  abbrev pub ◌>>=◌ : {A B : Type 0} → Run V F A → (A → Run V F B) → Run V F B
  ◌>>=◌ m rest e = continue (m e) rest

  abbrev pub ◌>>◌ : {B : Type 0} → Run V F (Unit {0}) → Run V F B → Run V F B
  first >> rest = first >>= (λ done. rest)

  -- A result that leaves the execution as it is.
  abbrev pub lift : {A : Type 0} → Result A → Run V F A
  lift r e = (e, r)

  abbrev pub transcript_now : Run V F (History V)
  transcript_now e = (e, ok e.transcript)

  -- A result that is looked at instead of returned by `?`.
  abbrev pub attempt : {A : Type 0} → Run V F A → Run V F (Result A)
  attempt m e = ((m e).0, ok (m e).1)

  unfoldable pub set_steps : ℕ → Run V F (Unit {0})
  set_steps step e = (record e { steps = step }, ok tt)

  -- The request that the gateway is given; the newest stands first.
  unfoldable pub ask : List (Message V) → List Str → List (Message V) → Run V F (Unit {0})
  ask sources tools messages e = (
    record e {
      requests =
          record {
            canonical = e.transcript.messages;
            sources = sources;
            tools = tools;
            messages = messages;
          }
          ∷ e.requests;
    },
    ok tt,
  )

  -- `for _ in 0..32 { commands.try_recv() }`
  unfoldable pub take_commands : List Str → Run V F (List Str)
  take_commands arrived e =
      (record e { queue = drop 32 (e.queue ++ arrived) }, ok (take 32 (e.queue ++ arrived)))

  unfoldable pub replaced : Execution V F → Result (History V) → Execution V F × Result (Unit {0})
  replaced e (ok h) = (record e { transcript = h }, ok tt)
  replaced e (err x) = (e, err x)

  unfoldable pub admitted :
      Execution V F → Result (History V × ToolBudget) → Execution V F × Result ToolBudget
  admitted e (ok r) = (record e { transcript = r.0 }, ok r.1)
  admitted e (err x) = (e, err x)

  -- `return Ok(answer)`, or the next round.
  unfoldable pub answered : Option Str → Run V F Str → Run V F Str
  answered none rest = rest
  answered (some answer) rest = lift (ok answer)

module _ {V : Type 0} where
  -- `seen` and the test on the ids of a reply
  unfoldable pub reuses_id : List (Message V) → List (ToolCall V) → Bool
  reuses_id messages calls =
      any (λ (c : ToolCall V). contains str_discrete c.id (ids (collect messages).0)) calls

abbrev pub stop_error : Option AgentError → Result (Unit {0})
stop_error none = ok tt
stop_error (some e) = err e

-- task.check() and the test of the token
abbrev pub still_running : Option AgentError → Bool → String → Result (Unit {0})
still_running (some e) cancelled message = err e
still_running none cancelled message = refuse cancelled (error ErrorCode.cancelled message)

abbrev pub is_window : ErrorCode → Bool
is_window ErrorCode.model_context_window = true
is_window _ = false
