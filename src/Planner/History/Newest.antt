-- ===== src/Planner/History/Newest.antt =====
-- packages/planner/src/history.rs: what the loop over the confirmed results keeps of them.
use mona_agent_core.Prelude.{
  ℕ, ◌≡◌, refl, sym, ap, subst, ◌∙◌, ◌≢◌, ◌⊎◌, inl, inr, Bool, true, false, not, Option, none, some,
  List, [], ◌∷◌, arith, All, if◌then◌else◌, holds→, →holds, is_some,
}
use mona_agent_core.Prelude.Strings.{Str, str_discrete}
use mona_agent_core.Prelude.Maps.{Map}
use mona_agent_core.Api.Error.{Result, ok, err, >>=-eq-ok}
use mona_agent_core.Api.Message.{ToolResult}
use mona_agent_core.Planner.State.{PlanSnapshot}
use mona_agent_core.Planner.History.{
  PlanJson, PlanRecord, read_result, Found, at_revision, keep, keep_read, collect,
}
use mona_agent_core.Planner.History.Revisions.{keep_own_lem, same_found}

true-false : true ≢ false
true-false h = cc

module _ (run_id : Str) (base : Option PlanSnapshot) where
  -- What one record leaves behind.
  abbrev pub Met : Option PlanRecord → Found → Type 0
  Met none found = Unit
  Met (some r) found =
      (at_revision r.state.revision found.current ≡ some r.state)
      ⊎ ((r.run_id ≢ run_id) × ((is_some base ≡ true) ⊎ (is_some found.latest ≡ true)))

  -- What the loop never takes back.
  pub record Grows (found next : Found) : Type 0 where
    pub kept :
        (n : ℕ) (s : PlanSnapshot)
        → at_revision n found.current ≡ some s
        → at_revision n next.current ≡ some s
    pub stays : is_some found.latest ≡ true → is_some next.latest ≡ true
    pub based : is_some base ≡ true → next.latest ≡ found.latest

  Grows-refl : (found : Found) → Grows found found
  Grows-refl found = record { kept = λ n s q. q; stays = λ q. q; based = λ q. refl }

  keep-Grows :
      (r : PlanRecord) (found next : Found)
      → keep run_id base r found ≡ ok next
      → Grows found next × Met (some r) next
  unfolding keep
  keep-Grows r found next h = elim (str_discrete r.run_id run_id) [
    | yes q ↦
        let own =
          keep_own_lem r.state found next
            (ground (arith, h, →holds (str_discrete r.run_id run_id) q)) in
        (record { kept = own.1; stays = λ k. ap is_some own.2 ∙ k; based = λ k. own.2 }, inl own.0)
    | no q ↦ other q (ground (arith, h, holds→ (str_discrete r.run_id run_id)))
  ]
    where
      other :
          r.run_id ≢ run_id
          → (if not (is_some base) then record found { latest = some r.state } else found) ≡ next
          → Grows found next × Met (some r) next
      other q k = by_base (is_some base) refl k
        where
          by_base :
              (b : Bool)
              → is_some base ≡ b
              → (if not b then record found { latest = some r.state } else found) ≡ next
              → Grows found next × Met (some r) next
          by_base true e k = (subst (Grows found) k (Grows-refl found), inr (q, inl e))
          by_base false e k = (
            subst (Grows found) k (record {
              kept = λ n s a. a;
              stays = λ a. refl;
              based = λ t. absurd (true-false (sym t ∙ e));
            }),
            inr (q, inr (ap (λ (f : Found). is_some f.latest) (sym k))),
          )

  keep_read-Grows :
      (o : Option PlanRecord) (found next : Found)
      → keep_read run_id base o found ≡ ok next
      → Grows found next × Met o next
  unfolding keep_read
  keep_read-Grows none found next h = (subst (Grows found) (same_found h) (Grows-refl found), tt)
  keep_read-Grows (some r) found next h = keep-Grows r found next h

  Met-Grows :
      (o : Option PlanRecord) (found next : Found) → Grows found next → Met o found → Met o next
  Met-Grows none found next g m = tt
  Met-Grows (some r) found next g (inl a) = inl (g.kept _ _ a)
  Met-Grows (some r) found next g (inr (q, inl b)) = inr (q, inl b)
  Met-Grows (some r) found next g (inr (q, inr l)) = inr (q, inr (g.stays l))

  Grows-trans : (a b c : Found) → Grows a b → Grows b c → Grows a c
  Grows-trans a b c g k = record {
    kept = λ n s q. k.kept n s (g.kept n s q);
    stays = λ q. k.stays (g.stays q);
    based = λ q. k.based q ∙ g.based q;
  }

  abbrev pub MetRead : Found → Result (Option PlanRecord) → Type 0
  MetRead found (err e) = ⊥
  MetRead found (ok o) = Met o found

  module _ {V : Type 0} (json : PlanJson V) (names : Map Str) where
    pub collect-Grows :
        (results : List (ToolResult V)) (found last : Found)
        → collect json names run_id base results found ≡ ok last
        → Grows found last × All (λ x. MetRead last (read_result json names x)) results
    unfolding collect
    collect-Grows [] found last h = (subst (Grows found) (same_found h) (Grows-refl found), tt)
    collect-Grows (x ∷ xs) found last h =
        let (o, reads, h1) = >>=-eq-ok (read_result json names x) _ h in
        let (next, step, h2) = >>=-eq-ok (keep_read run_id base o found) _ h1 in
        let (first, met) = keep_read-Grows o found next step in
        let (rest, others) = collect-Grows xs next last h2 in
        (
          Grows-trans found next last first rest,
          (rw reads (Met-Grows o next last rest met), others),
        )
