-- ===== src/Api/Validation/Steps.antt =====
-- One round of the loop of `validate_messages`, taken apart by the kind of the message.
use mona_agent_core.Prelude.{◌≡◌, refl, true, Option, List, [], ◌∷◌, arith, is_empty}
use mona_agent_core.Prelude.Strings.{Str, str_discrete}
use mona_agent_core.Prelude.Sets.{contains, remove}
use mona_agent_core.Api.Content.{Content}
use mona_agent_core.Api.Error.{ok, >>=-eq-ok}
use mona_agent_core.Api.Message.{
  Message, system, user, assistant, tool, ToolCall, ToolResult, ProviderData,
}
use mona_agent_core.Api.Serializer.{Serializer}
use mona_agent_core.Api.Validation.{Pairing, admit_calls, pair, validate_payload, validate_from}

is_empty→ : {s : List Str} → is_empty s ≡ true → s ≡ []
is_empty→ {s} h = go s h
  where
    go : (s : List Str) → is_empty s ≡ true → s ≡ []
    go [] h = refl
    go (x ∷ s) h = cc

module _ (V : Type 0) (p q : Pairing) where
  pub pair-tool :
      (r : ToolResult V)
      → pair (tool r) p ≡ ok q
      → (contains str_discrete r.call_id p.pending ≡ true)
        × (q ≡ record p { pending = remove str_discrete r.call_id p.pending })
  unfolding pair
  pair-tool r h = ground arith

  pub pair-system : (s : Str) → pair {V = V} (system s) p ≡ ok q → (p.pending ≡ []) × (q ≡ p)
  unfolding pair
  pair-system s h = ground (arith, is_empty→ {s = p.pending})

  pub pair-user : (c : Content) → pair {V = V} (user c) p ≡ ok q → (p.pending ≡ []) × (q ≡ p)
  unfolding pair
  pair-user c h = ground (arith, is_empty→ {s = p.pending})

  pub pair-assistant :
      (content : Str) (calls : List (ToolCall V)) (reasoning : Option Str)
      (d : Option (ProviderData V))
      → pair (assistant content calls reasoning d) p ≡ ok q
      → (p.pending ≡ []) × (admit_calls calls p ≡ ok q)
  unfolding pair
  pair-assistant content calls reasoning d h = ground (arith, is_empty→ {s = p.pending})

module _ {V : Type 0} (json : Serializer V) where
  pub validate_from-cons :
      (m : Message V) (ms : List (Message V)) (p q : Pairing)
      → validate_from json (m ∷ ms) p ≡ ok q
      → (p' : Pairing) × (validate_payload json m ≡ ok tt)
        × (pair m p ≡ ok p')
        × (validate_from json ms p' ≡ ok q)
  unfolding validate_from
  validate_from-cons m ms p q h =
      let (u, payload, rest) = >>=-eq-ok (validate_payload json m) _ h in
      let (p', paired, tail) = >>=-eq-ok (pair m p) _ rest in (p', payload, paired, tail)
