-- ===== src/Api/Validation/Batches.antt =====
-- What a valid history is, said without the sets of `validate_messages`: inputs, and assistant
-- messages each followed by one result for each of its calls, in any order.
use mona_agent_core.Prelude.{◌≡◌, ◌≢◌, Option, List, [], ◌∷◌, ◌++◌, map, All}
use mathlib.Core.List.{Perm, Mem, Nodup}
use mona_agent_core.Prelude.Strings.{Str}
use mona_agent_core.Api.Error.{ok}
use mona_agent_core.Api.Message.{
  Message, system, user, assistant, tool, ToolCall, ToolResult, ProviderData, ids,
}
use mona_agent_core.Api.Serializer.{Serializer}
use mona_agent_core.Api.Validation.{validate_payload}

module _ {V : Type 0} where
  abbrev pub IsInput : Message V → Type 0
  IsInput (system content) = Unit
  IsInput (user content) = Unit
  IsInput (assistant content calls reasoning d) = ⊥
  IsInput (tool result) = ⊥

  abbrev pub result_ids : List (ToolResult V) → List Str
  result_ids = map (λ r. r.call_id)

  -- The ids of all calls of a history, in order.
  abbrev pub call_ids : List (Message V) → List Str
  call_ids [] = []
  call_ids (assistant content calls reasoning d ∷ ms) = ids calls ++ call_ids ms
  call_ids (system content ∷ ms) = call_ids ms
  call_ids (user content ∷ ms) = call_ids ms
  call_ids (tool result ∷ ms) = call_ids ms

pub data Batches {V : Type 0} : List (Message V) → Type 0 where
  done : Batches []
  input : {m : Message V} {ms : List (Message V)} → IsInput m → Batches ms → Batches (m ∷ ms)
  batch :
      {content : Str} {calls : List (ToolCall V)} {reasoning : Option Str}
      {d : Option (ProviderData V)} {ms : List (Message V)} (results : List (ToolResult V))
      (rest : List (Message V))
      → ms ≡ map tool results ++ rest
      → Perm (result_ids results) (ids calls)
      → Batches rest
      → Batches (assistant content calls reasoning d ∷ ms)

-- The history is a sequence of settled batches, its ids are distinct and nonempty, and every payload
-- is admissible.
pub record IsWellPaired {V : Type 0} (json : Serializer V) (ms : List (Message V)) : Type 0 where
  pub nonempty : ms ≢ []
  pub batches : Batches ms
  pub distinct : Nodup (call_ids ms)
  pub named : ¬ Mem [] (call_ids ms)
  pub payloads : All (λ m. validate_payload json m ≡ ok tt) ms
