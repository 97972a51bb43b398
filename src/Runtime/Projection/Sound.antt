-- ===== src/Runtime/Projection/Sound.antt =====
-- packages/runtime/src/engine.rs: what a projection and its recovery give back is a valid history that
-- fits the context together with the protected sources.
use mona_agent_core.Prelude.{
  ℕ, ◌+◌, ◌≤◌, ◌<◌, ◌≡◌, sym, ap, ◌∙◌, subst, ◌++◌, map, Bool, true, false, ◌||◌, some, List, [],
  ◌∷◌, arith, ltb, leb, saturating_add, usize_max, is_some,
}
use mona_agent_core.Prelude.Strings.{Str}
use mona_agent_core.Api.Error.{
  AgentError, ErrorCode, Result, ok, error, refuse, >>=-eq-ok, ok_or-eq-ok, refuse-eq-ok,
}
use mona_agent_core.Api.Message.{Message}
use mona_agent_core.Api.Serializer.{Serializer, elements_bytes, IsJson}
use mona_agent_core.Api.Validation.{validate_messages}
use mona_agent_core.Runtime.History.{measured}
use mona_agent_core.Runtime.Projection.Sizes.{with_sources-inserted, inserted_size}
use mona_agent_core.Runtime.Projection.{
  Block, Sources, RequestLimits, Recovery, check_working, transform_all, project, with_sources,
  otherwise, recover_all, smaller, recover_projection,
}

module _ {V : Type 0} (json : Serializer V) where
  abbrev pub Valid : List (Message V) → Type 0
  Valid ms = validate_messages json ms ≡ ok tt

  -- Messages that can be sent with these tools and protected sources: the others among them are
  -- valid, and all of them together with the rest of the request fit the context.
  pub record IsRequest (limits : RequestLimits) (tools : List Str) (sources ms : List (Message V))
      : Type 0 where
    pub front : List (Message V)
    pub rest : List (Message V)
    pub merged : ms ≡ front ++ (sources ++ rest)
    pub valid : Valid (front ++ rest)
    pub size : ℕ
    pub measure : json.messages_bytes ms ≡ some size
    pub overhead : ℕ
    pub offered : limits.request_overhead tools ≡ ok overhead
    pub fits : size + overhead ≤ limits.max_context_bytes

room :
    (n reserved limit : ℕ)
    → limit < usize_max
    → ltb limit (saturating_add n reserved) ≡ false
    → n + reserved ≤ limit
unfolding saturating_add
room n reserved limit small h = ground arith

split_room :
    (n overhead added limit : ℕ)
    → limit < usize_max
    → n + saturating_add overhead added ≤ limit
    → n + overhead + added ≤ limit
unfolding saturating_add
split_room n overhead added limit small h = ground arith

same_list : {A : Type 0} {a b : A} → ok a ≡ ok b → a ≡ b
same_list h = cc

module _ {V : Type 0} (json : Serializer V) (limits : RequestLimits) (tools : List Str)
    (overhead : ℕ) (sources : Sources V) (doc : IsJson json)
    (small : limits.max_context_bytes < usize_max)
    (offered : limits.request_overhead tools ≡ ok overhead)
    (counted : elements_bytes json.message_bytes (map (λ (b : Block V). b.1) sources.blocks) false 0
      ≡ some sources.bytes) where
  abbrev blocks : List (Message V)
  blocks = map (λ (b : Block V). b.1) sources.blocks

  abbrev reserved : ℕ
  reserved = saturating_add overhead sources.bytes

  -- Messages that leave room for the sources make a request with them.
  with_sources-IsRequest :
      (ms : List (Message V)) (bytes : ℕ)
      → Valid json ms
      → json.messages_bytes ms ≡ some bytes
      → bytes + reserved ≤ limits.max_context_bytes
      → IsRequest json limits tools blocks (with_sources blocks ms)
  with_sources-IsRequest ms bytes v e fits =
      let (front, rest, split, merged) = with_sources-inserted blocks ms in
      let (size, measure, bound) =
        inserted_size json.message_bytes front blocks rest bytes sources.bytes
          (ap (λ (x : List (Message V)). elements_bytes json.message_bytes x true 2) (sym split)
            ∙ sym (doc.array ms)
            ∙ e)
          counted in
      let all = split_room bytes overhead sources.bytes limits.max_context_bytes small fits in
      record {
        front = front;
        rest = rest;
        merged = merged;
        valid = subst (Valid json) split v;
        size = size;
        measure = ap json.messages_bytes merged ∙ doc.array (front ++ (blocks ++ rest)) ∙ measure;
        overhead = overhead;
        offered = offered;
        fits = omega (arith, bound, all);
      }

  check_working-Valid :
      (e : AgentError) (ms : List (Message V)) {u : Unit {0}}
      → check_working json limits e ms ≡ ok u
      → Valid json ms
  unfolding check_working
  check_working-Valid e ms h = let (_, v, _) = >>=-eq-ok (validate_messages json ms) _ h in v

  transform_all-Valid :
      (ts : List (List (Message V) → Result (List (Message V)))) (ms : List (Message V))
      {last : List (Message V)}
      → Valid json ms
      → transform_all json limits ts ms ≡ ok last
      → Valid json last
  unfolding transform_all
  transform_all-Valid [] ms v h = subst (Valid json) (same_list h) v
  transform_all-Valid (t ∷ ts) ms v h =
      let (next, _, h1) = >>=-eq-ok (t ms) _ h in
      let (_, checked, h2) =
        >>=-eq-ok
          (check_working json limits
            (error ErrorCode.limit "context transform exceeded working history byte limit") next)
          _ h1 in
      transform_all-Valid ts next (check_working-Valid _ next checked) h2

  pub project-IsRequest :
      (ts : List (List (Message V) → Result (List (Message V)))) (ms : List (Message V))
      {last : List (Message V)}
      → Valid json ms
      → project json limits ts reserved blocks ms ≡ ok last
      → IsRequest json limits tools blocks last
  unfolding project
  project-IsRequest ts ms v h =
      let (found, run, h1) = >>=-eq-ok (transform_all json limits ts ms) _ h in
      let (bytes, e, h2) = >>=-eq-ok (measured (json.messages_bytes found)) _ h1 in
      let (_, fits, h3) =
        >>=-eq-ok
          (refuse (ltb limits.max_context_bytes (saturating_add bytes reserved))
            (error ErrorCode.limit "final context projection exceeded request byte limit"))
          _ h2 in
      subst (IsRequest json limits tools blocks) (same_list h3) (
        with_sources-IsRequest found bytes (transform_all-Valid ts ms v run) (ok_or-eq-ok _ _ e)
          (room bytes reserved limits.max_context_bytes small (refuse-eq-ok _ _ fits)))

  recover_all-Valid :
      (ts : List (Recovery V)) (changed : Bool) (ms : List (Message V))
      {last : Bool × List (Message V)}
      → Valid json ms
      → recover_all json limits ts changed ms ≡ ok last
      → Valid json last.1
  unfolding recover_all
  recover_all-Valid [] changed ms v h =
      subst (λ (x : Bool × List (Message V)). Valid json x.1) (same_list h) v
  recover_all-Valid (t ∷ ts) changed ms v h =
      let (recovered, _, h1) = >>=-eq-ok (t.recover ms) _ h in
      let (next, _, h2) = >>=-eq-ok (otherwise recovered (t.transform ms)) _ h1 in
      let (_, checked, h3) =
        >>=-eq-ok
          (check_working json limits
            (error ErrorCode.limit "context recovery exceeded working history byte limit") next)
          _ h2 in
      recover_all-Valid ts (changed || is_some recovered) next (check_working-Valid _ next checked)
        h3

  some_list : {a b : List (Message V)} → ok (some a) ≡ ok (some b) → a ≡ b
  some_list h = cc

  smaller-IsRequest :
      (before : ℕ) (found : Bool × List (Message V)) {last : List (Message V)}
      → Valid json found.1
      → smaller json limits reserved before blocks found ≡ ok (some last)
      → IsRequest json limits tools blocks last
  unfolding smaller
  smaller-IsRequest before (false, ms) v h = cc
  smaller-IsRequest before (true, ms) v h =
      let (bytes, e, h1) = >>=-eq-ok (measured (json.messages_bytes ms)) _ h in
      let (after, _, h2) =
        >>=-eq-ok (measured (json.messages_bytes (with_sources blocks ms))) _ h1 in
      let (_, _, h3) =
        >>=-eq-ok
          (refuse (leb before after) (
            error ErrorCode.model_protocol "context recovery did not shrink the failed projection"))
          _ h2 in
      let (_, fits, h4) =
        >>=-eq-ok
          (refuse (ltb limits.max_context_bytes (saturating_add bytes reserved))
            (error ErrorCode.limit "context recovery still exceeds the request byte limit"))
          _ h3 in
      subst (IsRequest json limits tools blocks) (some_list h4) (
        with_sources-IsRequest ms bytes v (ok_or-eq-ok _ _ e)
          (room bytes reserved limits.max_context_bytes small (refuse-eq-ok _ _ fits)))

  pub recover_projection-IsRequest :
      (ts : List (Recovery V)) (failed ms : List (Message V)) {last : List (Message V)}
      → Valid json ms
      → recover_projection json limits ts reserved blocks failed ms ≡ ok (some last)
      → IsRequest json limits tools blocks last
  unfolding recover_projection
  recover_projection-IsRequest ts failed ms v h =
      let (before, _, h1) = >>=-eq-ok (measured (json.messages_bytes failed)) _ h in
      let (found, run, h2) = >>=-eq-ok (recover_all json limits ts false ms) _ h1 in
      smaller-IsRequest before found (recover_all-Valid ts false ms v run) h2
