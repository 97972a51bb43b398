-- ===== src/Api/Validation/Soundness.antt =====
-- `validate_messages` accepts only well-paired histories.
use mona_agent_core.Prelude.{
  ◌≡◌, refl, sym, ap, subst, true, not, Option, List, [], ◌∷◌, ◌++◌, map, append_assoc, append-nil,
  arith, is_empty, All,
}
use mathlib.Core.List.{perm_append_comm, Perm, Mem, Nodup-nil, mem-append, not-mem-nil}
use mathlib.Core.List.Perm
use mathlib.Core.Logic.Or
use mathlib.Core.HLevel.{⊥_prop}
use mona_agent_core.Prelude.Strings.{Str, str_discrete}
use mona_agent_core.Prelude.Sets.{remove-perm}
use mona_agent_core.Api.Error.{AgentError, refuse, ok, >>=-eq-ok}
use mona_agent_core.Api.Message.{
  Message, system, user, assistant, tool, ToolCall, ToolResult, ProviderData, ids,
}
use mona_agent_core.Api.Serializer.{Serializer}
use mona_agent_core.Api.Validation.{
  Pairing, start, validate_payload, validate_from, validate_messages,
}
use mona_agent_core.Api.Validation.Batches.{
  IsInput, result_ids, call_ids, Batches, done, input, batch, IsWellPaired,
}
use mona_agent_core.Api.Validation.Admission.{
  IsSound, Admits, admit_calls-Admits, settled-IsSound, admit_calls-named,
}
use mona_agent_core.Api.Validation.Steps.{
  pair-tool, pair-system, pair-user, pair-assistant, validate_from-cons,
}

-- Results for the waiting ids, and settled batches after them.
record Settles {V : Type 0} (pending : List Str) (ms : List (Message V)) : Type 0 where
  results : List (ToolResult V)
  rest : List (Message V)
  split : ms ≡ map tool results ++ rest
  settled : Perm (result_ids results) pending
  batches : Batches rest

module _ {V : Type 0} where
  result_ids-nil : (results : List (ToolResult V)) → Perm (result_ids results) [] → results ≡ []
  result_ids-nil [] h = refl
  result_ids-nil (r ∷ results) h = cc (Perm.eq-nil h)

  -- With nothing waiting the whole history is in batches.
  Settles-nil : (ms : List (Message V)) → Settles [] ms → Batches ms
  Settles-nil ms s = rw (s.split, result_ids-nil s.results s.settled) s.batches

  input-Settles :
      (m : Message V) (ms : List (Message V)) (pending : List Str)
      → IsInput m
      → pending ≡ []
      → Settles pending ms
      → Settles pending (m ∷ ms)
  input-Settles m ms pending i e s = record {
    results = [];
    rest = m ∷ ms;
    split = refl;
    settled = rw e (Perm.refl []);
    batches = input i (Settles-nil ms (subst (λ z. Settles z ms) e s));
  }

  batch-Settles :
      (content : Str) (calls : List (ToolCall V)) (reasoning : Option Str)
      (d : Option (ProviderData V)) (ms : List (Message V)) (p q : Pairing)
      → p.pending ≡ []
      → Admits calls p q
      → Settles q.pending ms
      → Settles p.pending (assistant content calls reasoning d ∷ ms)
  batch-Settles content calls reasoning d ms p q e a s = record {
    results = [];
    rest = assistant content calls reasoning d ∷ ms;
    split = refl;
    settled = rw e (Perm.refl []);
    batches =
        batch s.results s.rest s.split
          (Perm.trans s.settled (
            subst (Perm q.pending) (append-nil (ids calls))
              (subst (λ z. Perm q.pending (ids calls ++ z)) e a.pending)))
          s.batches;
  }

pub regroup :
    (new later old seen : List Str)
    → Perm seen (new ++ old)
    → Perm (later ++ seen) ((new ++ later) ++ old)
regroup new later old seen h =
    subst (λ z. Perm (later ++ seen) z) (sym (append_assoc new later old))
      (Perm.trans (Perm.append_left later h) (
        subst (λ z. Perm z (new ++ (later ++ old))) (append_assoc later new old)
          (subst (Perm ((later ++ new) ++ old)) (append_assoc new later old)
            (Perm.append_right old (perm_append_comm later new)))))

pub start-IsSound : IsSound start
start-IsSound = record { waits = λ a m. m; distinct = Nodup-nil }

all_settled :
    (pending : List Str) (e : AgentError) → refuse (not (is_empty pending)) e ≡ ok tt → pending ≡ []
all_settled [] e h = refl
all_settled (a ∷ pending) e h = cc

module _ {V : Type 0} (json : Serializer V) where
  validate_from-Settles :
      (ms : List (Message V)) (p q : Pairing)
      → IsSound p
      → validate_from json ms p ≡ ok q
      → q.pending ≡ []
      → Settles p.pending ms
  unfolding validate_from
  validate_from-Settles [] p q s h e = record {
    results = [];
    rest = [];
    split = refl;
    settled = let k : p ≡ q = cc in rw (k, e) (Perm.refl []);
    batches = done;
  }
  validate_from-Settles (system content ∷ ms) p q s h e =
      let (p', _, paired, tail) = validate_from-cons json (system content) ms p q h in
      let (none_waits, same) = pair-system V p p' content paired in
      input-Settles (system content) ms p.pending tt none_waits
        (subst (λ z. Settles z.pending ms) same (validate_from-Settles ms p' q (rw same s) tail e))
  validate_from-Settles (user content ∷ ms) p q s h e =
      let (p', _, paired, tail) = validate_from-cons json (user content) ms p q h in
      let (none_waits, same) = pair-user V p p' content paired in
      input-Settles (user content) ms p.pending tt none_waits
        (subst (λ z. Settles z.pending ms) same (validate_from-Settles ms p' q (rw same s) tail e))
  validate_from-Settles (assistant content calls reasoning d ∷ ms) p q s h e =
      let (p', _, paired, tail) =
        validate_from-cons json (assistant content calls reasoning d) ms p q h in
      let (none_waits, admitted) = pair-assistant V p p' content calls reasoning d paired in
      let a = admit_calls-Admits calls p p' s admitted in
      batch-Settles content calls reasoning d ms p p' none_waits a
        (validate_from-Settles ms p' q a.sound tail e)
  validate_from-Settles (tool r ∷ ms) p q s h e =
      let (p', _, paired, tail) = validate_from-cons json (tool r) ms p q h in
      let (waits, removed) = pair-tool V p p' r paired in
      let ih =
        validate_from-Settles ms p' q (settled-IsSound r.call_id p p' waits removed s) tail e in
      record {
        results = r ∷ ih.results;
        rest = ih.rest;
        split = ap (◌∷◌ (tool r)) ih.split;
        settled =
            Perm.trans
              (Perm.cons r.call_id
                (subst (λ z. Perm (result_ids ih.results) z.pending) removed ih.settled))
              (Perm.symm (remove-perm str_discrete r.call_id p.pending waits));
        batches = ih.batches;
      }

  -- The ids that a run of the loop adds, and the messages that it lets through.
  record Accepts (ms : List (Message V)) (p q : Pairing) : Type 0 where
    seen : Perm q.seen (call_ids ms ++ p.seen)
    sound : IsSound q
    named : ¬ Mem [] (call_ids ms)
    payloads : All (λ m. validate_payload json m ≡ ok tt) ms

  validate_from-Accepts :
      (ms : List (Message V)) (p q : Pairing)
      → IsSound p
      → validate_from json ms p ≡ ok q
      → Accepts ms p q
  unfolding validate_from
  validate_from-Accepts [] p q s h =
      let e : p ≡ q = cc in
      rw (← e) (record { seen = Perm.refl p.seen; sound = s; named = not-mem-nil; payloads = tt })
  validate_from-Accepts (system content ∷ ms) p q s h =
      let (p', payload, paired, tail) = validate_from-cons json (system content) ms p q h in
      let (_, same) = pair-system V p p' content paired in
      let ih =
        validate_from-Accepts ms p q s (subst (λ z. validate_from json ms z ≡ ok q) same tail) in
      record {
        seen = ih.seen;
        sound = ih.sound;
        named = ih.named;
        payloads = (payload, ih.payloads);
      }
  validate_from-Accepts (user content ∷ ms) p q s h =
      let (p', payload, paired, tail) = validate_from-cons json (user content) ms p q h in
      let (_, same) = pair-user V p p' content paired in
      let ih =
        validate_from-Accepts ms p q s (subst (λ z. validate_from json ms z ≡ ok q) same tail) in
      record {
        seen = ih.seen;
        sound = ih.sound;
        named = ih.named;
        payloads = (payload, ih.payloads);
      }
  validate_from-Accepts (assistant content calls reasoning d ∷ ms) p q s h =
      let (p', payload, paired, tail) =
        validate_from-cons json (assistant content calls reasoning d) ms p q h in
      let (_, admitted) = pair-assistant V p p' content calls reasoning d paired in
      let a = admit_calls-Admits calls p p' s admitted in
      let ih = validate_from-Accepts ms p' q a.sound tail in
      record {
        seen = Perm.trans ih.seen (regroup (ids calls) (call_ids ms) p.seen p'.seen a.seen);
        sound = ih.sound;
        named =
            λ m. Or.elim ⊥_prop (mem-append.0 m) (admit_calls-named calls p p' admitted) ih.named;
        payloads = (payload, ih.payloads);
      }
  validate_from-Accepts (tool r ∷ ms) p q s h =
      let (p', payload, paired, tail) = validate_from-cons json (tool r) ms p q h in
      let (waits, removed) = pair-tool V p p' r paired in
      let ih =
        validate_from-Accepts ms p' q (settled-IsSound r.call_id p p' waits removed s) tail in
      record {
        seen = subst (λ z. Perm q.seen (call_ids ms ++ z.seen)) removed ih.seen;
        sound = ih.sound;
        named = ih.named;
        payloads = (payload, ih.payloads);
      }

  -- A history that `validate_messages` accepts is well paired.
  pub validate_messages-IsWellPaired :
      (ms : List (Message V)) → validate_messages json ms ≡ ok tt → IsWellPaired json ms
  unfolding validate_messages
  validate_messages-IsWellPaired ms h =
      let (u, some_message, rest) = >>=-eq-ok (refuse (is_empty ms) _) _ h in
      let (q, accepted, last) = >>=-eq-ok (validate_from json ms start) _ rest in
      let settled : q.pending ≡ [] = all_settled q.pending _ last in
      let a = validate_from-Accepts ms start q start-IsSound accepted in
      record {
        nonempty = λ e. let k : is_empty ms ≡ true = rw e in ground arith;
        batches = Settles-nil ms (validate_from-Settles ms start q start-IsSound accepted settled);
        distinct =
            Perm.nodup (subst (Perm q.seen) (append-nil (call_ids ms)) a.seen) a.sound.distinct;
        named = a.named;
        payloads = a.payloads;
      }
