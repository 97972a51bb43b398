-- ===== src/Runtime/Projection.antt =====
-- packages/runtime/src/engine.rs: the tools and the messages of one model request, as selected_tools,
-- projection_context, projection and recover_projection make them. What a selector or a context
-- transform answers, within its deadline, is an argument; so is the size of the request without its
-- messages, and the validation of each context block.
pub mod Sizes
pub mod Sound
use mona_agent_core.Prelude.{
  ℕ, ◌+◌, ◌-◌, ◌≡◌, Bool, true, false, not, ◌&&◌, ◌||◌, Option, none, some, List, [], ◌∷◌, ◌++◌,
  map, ltb, leb, if◌then◌else◌, all, length, saturating_add, retain, is_some,
}
use mona_agent_core.Prelude.Strings.{Str, str_discrete}
use mona_agent_core.Prelude.Sets.{contains}
use mona_agent_core.Api.Error.{AgentError, ErrorCode, Result, ok, err, error, refuse, ◌>>=◌, ◌>>◌}
use mona_agent_core.Api.Message.{Message, system, user, assistant, tool}
use mona_agent_core.Api.Serializer.{Serializer}
use mona_agent_core.Api.Validation.{validate_messages}
use mona_agent_core.Runtime.History.{measured}

-- names.len() != selected_len
unfoldable pub has_duplicates : List Str → Bool
has_duplicates [] = false
has_duplicates (x ∷ xs) = contains str_discrete x xs || has_duplicates xs

-- The loop over the selectors, on the names of the tools.
unfoldable pub select_from : List (Result (List Str)) → List Str → Result (List Str)
unfolding has_duplicates
select_from [] available = ok available
select_from (answer ∷ answers) available = do
  selected ← answer
  refuse (ltb (length available) (length selected))
      (error ErrorCode.plugin "tool selector returned too many names")
  refuse (has_duplicates selected) (error ErrorCode.plugin "tool selector returned duplicate names")
  refuse (not (all (λ n. contains str_discrete n available) selected))
      (error ErrorCode.plugin "tool selector tried to expand its permitted view")
  select_from answers (retain (λ n. contains str_discrete n selected) available)

-- selected_tools
unfoldable pub selected_tools : Bool → List (Result (List Str)) → List Str → Result (List Str)
unfolding select_from
selected_tools enable_tools answers available =
    if enable_tools then select_from answers available else ok []

-- A context block: its source, its message, and what its validation answers.
abbrev pub Block : Type 0 → Type 0
Block V = Str × Message V × Result (Unit {0})

-- What projection_context collects.
pub record Sources (V : Type 0) : Type 0 where
  pub blocks : List (Block V)
  pub bytes : ℕ

-- What recover_context and, if it has nothing to offer, transform answer.
pub record Recovery (V : Type 0) : Type 0 where
  pub recover : List (Message V) → Result (Option (List (Message V)))
  pub transform : List (Message V) → Result (List (Message V))

-- Execution::limits, as far as the requests use them, and the size of a request without its messages.
pub record RequestLimits : Type 0 where
  pub max_history_bytes : ℕ
  pub max_context_bytes : ℕ
  -- request_overhead for the offered tools
  pub request_overhead : List Str → Result ℕ

module _ {V : Type 0} where
  abbrev is_system : Message V → Bool
  is_system (system content) = true
  is_system (user content) = false
  is_system (assistant content calls reasoning d) = false
  is_system (tool result) = false

  abbrev pub otherwise :
      Option (List (Message V)) → Result (List (Message V)) → Result (List (Message V))
  otherwise (some next) answer = ok next
  otherwise none answer = answer

  -- RunContext::with_sources
  unfoldable pub with_sources : List (Message V) → List (Message V) → List (Message V)
  with_sources blocks [] = blocks
  with_sources blocks (m ∷ ms) =
      let rest = with_sources blocks ms in if is_system m then m ∷ rest else blocks ++ m ∷ ms

module _ {V : Type 0} (json : Serializer V) (limits : RequestLimits) (overhead : ℕ) where
  -- The loop over the blocks of one transform.
  unfoldable pub add_blocks : List (Block V) → Sources V → Result (Sources V)
  add_blocks [] s = ok s
  add_blocks (b ∷ bs) s = do
    b.2
    refuse
        (leb 128 (length s.blocks)
          || contains str_discrete b.0 (map (λ (c : Block V). c.0) s.blocks))
        (error ErrorCode.plugin "too many or duplicate context sources")
    size ← measured (json.message_bytes b.1)
    let bytes = saturating_add (saturating_add s.bytes size) 1
    refuse (leb limits.max_context_bytes (saturating_add bytes overhead))
        (error ErrorCode.limit "protected context sources leave no model request budget")
    add_blocks bs (record { blocks = s.blocks ++ b ∷ []; bytes = bytes })

  -- projection_context: the blocks of all transforms.
  unfoldable pub collect_sources : List (Result (List (Block V))) → Sources V → Result (Sources V)
  unfolding add_blocks
  collect_sources [] s = ok s
  collect_sources (answer ∷ answers) s = do
    supplied ← answer
    next ← add_blocks supplied s
    collect_sources answers next

module _ {V : Type 0} (json : Serializer V) (limits : RequestLimits) where
  -- The tests on what a transform or a recovery returned.
  unfoldable pub check_working : AgentError → List (Message V) → Result (Unit {0})
  check_working too_large messages = do
    validate_messages json messages
    bytes ← measured (json.messages_bytes messages)
    refuse (ltb limits.max_history_bytes bytes) too_large

  -- The loop over the transforms.
  unfoldable pub transform_all :
      List (List (Message V) → Result (List (Message V)))
      → List (Message V)
      → Result (List (Message V))
  unfolding check_working
  transform_all [] messages = ok messages
  transform_all (transform ∷ transforms) messages = do
    next ← transform messages
    check_working (error ErrorCode.limit "context transform exceeded working history byte limit")
        next
    transform_all transforms next

  -- projection, with the sources that were collected
  unfoldable pub project :
      List (List (Message V) → Result (List (Message V)))
      → ℕ
      → List (Message V)
      → List (Message V)
      → Result (List (Message V))
  unfolding transform_all with_sources
  project transforms reserved blocks transcript = do
    messages ← transform_all transforms transcript
    bytes ← measured (json.messages_bytes messages)
    refuse (ltb limits.max_context_bytes (saturating_add bytes reserved))
        (error ErrorCode.limit "final context projection exceeded request byte limit")
    ok (with_sources blocks messages)

  -- The loop of recover_projection: whether a transform recovered anything, and the messages.
  unfoldable pub recover_all :
      List (Recovery V) → Bool → List (Message V) → Result (Bool × List (Message V))
  unfolding check_working
  recover_all [] changed messages = ok (changed, messages)
  recover_all (t ∷ ts) changed messages = do
    recovered ← t.recover messages
    next ← otherwise recovered (t.transform messages)
    check_working (error ErrorCode.limit "context recovery exceeded working history byte limit")
        next
    recover_all ts (changed || is_some recovered) next

  -- The tests after that loop; `before` is the size of the failed request.
  unfoldable pub smaller :
      ℕ → ℕ → List (Message V) → Bool × List (Message V) → Result (Option (List (Message V)))
  smaller reserved before blocks (false, messages) = ok none
  smaller reserved before blocks (true, messages) = do
    bytes ← measured (json.messages_bytes messages)
    after ← measured (json.messages_bytes (with_sources blocks messages))
    refuse (leb before after)
        (error ErrorCode.model_protocol "context recovery did not shrink the failed projection")
    refuse (ltb limits.max_context_bytes (saturating_add bytes reserved))
        (error ErrorCode.limit "context recovery still exceeds the request byte limit")
    ok (some (with_sources blocks messages))

  -- recover_projection
  unfoldable pub recover_projection :
      List (Recovery V)
      → ℕ
      → List (Message V)
      → List (Message V)
      → List (Message V)
      → Result (Option (List (Message V)))
  unfolding recover_all smaller with_sources
  recover_projection transforms reserved blocks failed transcript = do
    before ← measured (json.messages_bytes failed)
    found ← recover_all transforms false transcript
    smaller reserved before blocks found
