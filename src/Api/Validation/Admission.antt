-- ===== src/Api/Validation/Admission.antt =====
-- What the loop of `validate_messages` keeps in its sets.
use mona_agent_core.Prelude.{
  ◌≡◌, refl, sym, ◌∙◌, ◌≢◌, true, false, List, [], ◌∷◌, ◌++◌, arith, is_empty,
}
use mathlib.Core.List.{
  mem-append_right, not-mem-nil, Perm, Mem, Nodup, Nodup-cons, mem-cons, mem-cons_self,
  mem-cons_of_mem, perm_middle, Mem-prop,
}
use mathlib.Core.List.Perm
use mathlib.Core.Logic.Or
use mathlib.Core.HLevel.{⊥_prop}
use mona_agent_core.Prelude.Strings.{Str, str_discrete}
use mona_agent_core.Prelude.Sets.{
  insert, remove, remove-perm, contains, insert_new, not-mem_of_contains, contains_of_not-mem,
}
use mona_agent_core.Api.Error.{ok}
use mona_agent_core.Api.Message.{ToolCall, ids}
use mona_agent_core.Api.Validation.{Pairing, admit_calls}

-- Ids that wait for a result have been seen, and none is seen twice.
pub record IsSound (p : Pairing) : Type 0 where
  pub waits : (a : Str) → Mem a p.pending → Mem a p.seen
  pub distinct : Nodup p.seen

pub record Admits {V : Type 0} (calls : List (ToolCall V)) (p q : Pairing) : Type 0 where
  pub pending : Perm q.pending (ids calls ++ p.pending)
  pub seen : Perm q.seen (ids calls ++ p.seen)
  pub sound : IsSound q

-- One call whose id is new.
abbrev added : Str → Pairing → Pairing
added a p = record { pending = a ∷ p.pending; seen = a ∷ p.seen }

added-IsSound : (a : Str) (p : Pairing) → ¬ Mem a p.seen → IsSound p → IsSound (added a p)
added-IsSound a p fresh s = record {
  waits = λ b m.
      Or.elim Mem-prop (mem-cons.0 m) (λ e. rw e mem-cons_self)
        (λ t. mem-cons_of_mem a (s.waits b t));
  distinct = Nodup-cons.1 (fresh, s.distinct);
}

-- One result whose call waits.
pub settled-IsSound :
    (a : Str) (p q : Pairing)
    → contains str_discrete a p.pending ≡ true
    → q ≡ record p { pending = remove str_discrete a p.pending }
    → IsSound p
    → IsSound q
settled-IsSound a p q waits e s = rw e (record {
  waits = λ b m.
      s.waits b
        ((Perm.mem_iff (remove-perm str_discrete a p.pending waits)).1 (mem-cons_of_mem a m));
  distinct = s.distinct;
})

not_empty : (s : Str) → s ≢ [] → is_empty s ≡ false
not_empty [] h = absurd (h refl)
not_empty (x ∷ s) h = refl

module _ {V : Type 0} where
  admit-new :
      (c : ToolCall V) (cs : List (ToolCall V)) (p : Pairing)
      → IsSound p
      → contains str_discrete c.id p.seen ≡ false
      → is_empty c.id ≡ false
      → admit_calls (c ∷ cs) p ≡ admit_calls cs (added c.id p)
  unfolding admit_calls
  admit-new c cs p s fresh named =
      let waiting : contains str_discrete c.id p.pending ≡ false =
        contains_of_not-mem str_discrete c.id p.pending
          (λ m. not-mem_of_contains str_discrete c.id p.seen fresh (s.waits c.id m)) in
      rw (
        named,
        fresh,
        insert_new str_discrete c.id p.pending waiting,
        insert_new str_discrete c.id p.seen fresh,
      )

  admit-refused :
      (c : ToolCall V) (cs : List (ToolCall V)) (p : Pairing) {q : Pairing}
      → admit_calls (c ∷ cs) p ≡ ok q
      → (is_empty c.id ≡ false) × (contains str_discrete c.id p.seen ≡ false)
  unfolding admit_calls
  admit-refused c cs p h = ground arith

  admitted_rest :
      (c : ToolCall V) (cs : List (ToolCall V)) (p : Pairing) {q : Pairing}
      → admit_calls (c ∷ cs) p ≡ ok q
      → admit_calls cs (record {
        pending = insert str_discrete c.id p.pending;
        seen = insert str_discrete c.id p.seen;
      })
        ≡ ok q
  unfolding admit_calls
  admitted_rest c cs p h = ground arith

  -- The calls of one message are added to both sets.
  pub admit_calls-Admits :
      (cs : List (ToolCall V)) (p q : Pairing) → IsSound p → admit_calls cs p ≡ ok q → Admits cs p q
  unfolding admit_calls
  admit_calls-Admits [] p q s h =
      let e : p ≡ q = cc in
      rw (← e) (record { pending = Perm.refl _; seen = Perm.refl _; sound = s })
  admit_calls-Admits (c ∷ cs) p q s h =
      let (named, fresh) = admit-refused c cs p h in
      let next = added-IsSound c.id p (not-mem_of_contains str_discrete c.id p.seen fresh) s in
      let ih =
        admit_calls-Admits cs (added c.id p) q next (sym (admit-new c cs p s fresh named) ∙ h) in
      record {
        pending = Perm.trans ih.pending (perm_middle (ids cs) p.pending);
        seen = Perm.trans ih.seen (perm_middle (ids cs) p.seen);
        sound = ih.sound;
      }

  pub admit_calls-named :
      (cs : List (ToolCall V)) (p q : Pairing) → admit_calls cs p ≡ ok q → ¬ Mem [] (ids cs)
  unfolding admit_calls
  admit_calls-named [] p q h m = not-mem-nil m
  admit_calls-named (c ∷ cs) p q h m =
      let (named, _) = admit-refused c cs p h in
      Or.elim ⊥_prop (mem-cons.0 m) (λ e. let k : is_empty c.id ≡ true = rw (← e) in cc)
        (admit_calls-named cs _ q (admitted_rest c cs p h))

  -- Calls with new, distinct and nonempty ids are admitted.
  pub admit_calls-total :
      (cs : List (ToolCall V)) (p : Pairing)
      → IsSound p
      → Nodup (ids cs ++ p.seen)
      → ¬ Mem [] (ids cs)
      → (q : Pairing) × (admit_calls cs p ≡ ok q)
  unfolding admit_calls
  admit_calls-total [] p s d n = (p, refl)
  admit_calls-total (c ∷ cs) p s d n =
      let absent = (Nodup-cons.0 d).0 in
      let fresh : contains str_discrete c.id p.seen ≡ false =
        contains_of_not-mem str_discrete c.id p.seen (λ m. absent (mem-append_right (ids cs) m)) in
      let named : is_empty c.id ≡ false = not_empty c.id (λ e. n (rw e mem-cons_self)) in
      let (q, h) =
        admit_calls-total cs (added c.id p)
          (added-IsSound c.id p (not-mem_of_contains str_discrete c.id p.seen fresh) s)
          (Perm.nodup (Perm.symm (perm_middle (ids cs) p.seen)) d)
          (λ m. n (mem-cons_of_mem c.id m)) in
      (q, admit-new c cs p s fresh named ∙ h)
