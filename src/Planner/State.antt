-- ===== src/Planner/State.antt =====
-- packages/planner/src/state.rs: a plan snapshot and the operations on it. The JSON size of a snapshot
-- is a parameter (serde_json); `none` stands for a failed serialization.
pub mod Update
pub mod Operations
pub mod Progress
pub mod Plans
mod Tests
use mona_agent_core.Prelude.{
  ℕ, ◌+◌, String, Bool, true, false, not, ◌&&◌, ◌||◌, Option, none, some, List, [], ◌∷◌, ltb, leb,
  ◌==◌, if◌then◌else◌, holds, is_some, is_empty, all, any, length, checked_add, ℕ_discrete,
}
use mona_agent_core.Prelude.Strings.{
  Str, str, str_discrete, len, bytes, trim, is_control, is_ascii_alphanumeric, starts_with,
}
use mona_agent_core.Prelude.Sets.{contains}
use mona_agent_core.Api.Error.{
  AgentError, ErrorCode, Result, ok, err, error, refuse, ok_or, ◌>>=◌, ◌>>◌,
}

abbrev pub plan_version : ℕ
plan_version = 1

abbrev pub max_plan_bytes : ℕ
max_plan_bytes = 12288

abbrev pub max_steps : ℕ
max_steps = 32

abbrev pub max_step_bytes : ℕ
max_step_bytes = 1024

abbrev pub max_proposal_bytes : ℕ
max_proposal_bytes = 6144

pub data PlanMode : Type 0 where
  normal plan_only : PlanMode

pub data StepStatus : Type 0 where
  pending in_progress completed : StepStatus

pub record PlanStep : Type 0 where
  pub id : Str
  pub text : Str
  pub status : StepStatus

pub record PlanSnapshot : Type 0 where
  pub version : ℕ
  pub revision : ℕ
  pub mode : PlanMode
  pub goal : Str
  pub steps : List PlanStep
  pub explanation : Option Str
  pub proposal : Option Str

pub record PlanUpdate : Type 0 where
  pub revision : ℕ
  pub goal : Str
  pub steps : List PlanStep
  pub explanation : Option Str
  pub new_plan : Bool

unfoldable pub StepStatus-discrete : Discrete StepStatus
StepStatus-discrete = hlevel

unfoldable pub PlanStep-discrete : Discrete PlanStep
PlanStep-discrete = hlevel (StepStatus-discrete, str_discrete)

unfoldable pub steps_discrete : Discrete (List PlanStep)
steps_discrete = hlevel PlanStep-discrete

pub titles_discrete : Discrete (List (Str × Str))
titles_discrete = hlevel str_discrete

unfoldable pub PlanSnapshot-discrete : Discrete PlanSnapshot
PlanSnapshot-discrete = hlevel (steps_discrete, str_discrete, ℕ_discrete)

pub invalid : String → AgentError
invalid message = error ErrorCode.tool message

-- c.is_control() && c != '\n' && c != '\t'
forbidden : ℕ → Bool
forbidden c = is_control c && not (c == 10) && not (c == 9)

-- text(value, max)
pub bounded_text : Str → ℕ → Bool
unfolding forbidden
bounded_text value limit =
    not (is_empty value)
    && holds (str_discrete (trim value) value)
    && leb (len value) limit
    && not (any forbidden value)

abbrev pub done : StepStatus → Bool
done pending = false
done in_progress = false
done completed = true

abbrev pub active : StepStatus → Bool
active pending = false
active in_progress = true
active completed = false

abbrev pub is_completed : PlanStep → Bool
is_completed s = done s.status

abbrev pub is_in_progress : PlanStep → Bool
is_in_progress s = active s.status

abbrev pub is_plan_only : PlanMode → Bool
is_plan_only normal = false
is_plan_only plan_only = true

-- PlanSnapshot::new
pub new : PlanMode → PlanSnapshot
new mode = record {
  version = plan_version;
  revision = 0;
  mode = mode;
  goal = [];
  steps = [];
  explanation = none;
  proposal = none;
}

-- PlanSnapshot::is_complete
pub is_complete : PlanSnapshot → Bool
is_complete p = not (is_empty p.steps) && all is_completed p.steps

-- PlanSnapshot::awaits_host
pub awaits_host : PlanSnapshot → Bool
awaits_host p = is_plan_only p.mode && is_some p.proposal

is_id_byte : ℕ → Bool
is_id_byte b = is_ascii_alphanumeric b || b == b'_' || b == b'-'

-- The test of one step in the loop of validate.
pub bad_step : PlanStep → List Str → List Str → Bool
unfolding is_id_byte bounded_text
bad_step s ids titles =
    is_empty s.id
    || ltb 32 (len s.id)
    || not (all is_id_byte (bytes s.id))
    || contains str_discrete s.id ids
    || not (bounded_text s.text max_step_bytes)
    || contains str_discrete s.text titles

-- The loop of validate: how many steps are in progress.
pub check_steps : List PlanStep → List Str → List Str → ℕ → Result ℕ
unfolding bad_step invalid
check_steps [] ids titles count = ok count
check_steps (s ∷ ss) ids titles count = do
  refuse (bad_step s ids titles)
      (invalid "plan step ids and texts must be nonempty, bounded and unique")
  check_steps ss (s.id ∷ ids) (s.text ∷ titles) (count + (if is_in_progress s then 1 else 0))

bad_explanation : Option Str → Bool
bad_explanation none = false
bad_explanation (some s) = not (bounded_text s 2048)

bad_proposal : PlanSnapshot → Option Str → Bool
bad_proposal p none = false
bad_proposal p (some proposal) =
    is_empty p.steps
    || (is_plan_only p.mode && is_complete p)
    || not (bounded_text proposal max_proposal_bytes)
    || not (starts_with (str "# ") proposal)

unfoldable pub over_limit : ℕ → Option ℕ → Bool
over_limit limit none = true
over_limit limit (some n) = ltb limit n

abbrev pub bool_eq : Bool → Bool → Bool
bool_eq true b = b
bool_eq false b = not b

module _ (snapshot_bytes : PlanSnapshot → Option ℕ) where
  -- PlanSnapshot::validate
  unfoldable pub validate : PlanSnapshot → Result (Unit {0})
  unfolding check_steps bad_explanation bad_proposal over_limit invalid
  validate p = do
    refuse (not (p.version == plan_version)) (invalid "unsupported plan snapshot version")
    refuse
        (ltb max_steps (length p.steps)
          || not (bool_eq (is_empty p.goal) (is_empty p.steps))
          || (not (is_empty p.goal) && not (bounded_text p.goal 2048)))
        (invalid "plan needs a nonempty goal and 1..32 steps, or an empty state")
    count ← check_steps p.steps [] [] 0
    refuse (ltb 1 count) (invalid "at most one plan step may be in_progress")
    refuse (bad_explanation p.explanation)
        (invalid "plan explanation must be nonempty and at most 2048 UTF-8 bytes")
    refuse (bad_proposal p p.proposal) (
        invalid
          "a proposal needs plan steps and headed Markdown; plan_only must have remaining work")
    refuse (over_limit max_plan_bytes (snapshot_bytes p))
        (invalid "plan snapshot exceeds the 12 KiB serialized limit")

  -- PlanSnapshot::checked
  pub checked : PlanSnapshot → ℕ → Result (Unit {0})
  unfolding invalid
  checked p revision = do
    validate p
    refuse (not (p.revision == revision))
        (invalid "plan revision conflict; read the current plan before updating")

  -- PlanSnapshot::advance
  pub advance : PlanSnapshot → Result PlanSnapshot
  unfolding invalid
  advance p = do
    revision ← ok_or (checked_add p.revision 1) (invalid "plan revision exhausted")
    validate (record p { revision = revision })
    ok (record p { revision = revision })
