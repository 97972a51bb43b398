-- ===== src/Planner/History/Origins.antt =====
-- packages/planner/src/history.rs: where the state that is recovered comes from.
use mona_agent_core.Prelude.{
  ℕ, ◌+◌, ◌≡◌, refl, subst, Bool, true, false, not, ◌||◌, Option, none, some, List, [], ◌∷◌, ltb,
  ◌==◌, All, if◌then◌else◌, holds, is_some, is_empty,
}
use mona_agent_core.Prelude.Strings.{Str, str_discrete, len}
use mona_agent_core.Prelude.Maps.{Map, get}
use mona_agent_core.Api.Error.{Result, ok, err, refuse, ok_or, ◌>>=◌, >>=-eq-ok}
use mona_agent_core.Api.Message.{ToolResult}
use mona_agent_core.Planner.State.{PlanSnapshot, max_plan_bytes, over_limit, invalid}
use mona_agent_core.Planner.History.{
  PlanJson, PlanRecord, plan_seed_key, planner_value, is_success, check, read_seed, seed,
  read_value, confirm, read_result, Found, at_revision, put_revision, conflicts, keep_own, keep,
  keep_read, collect, succeed, settle_on,
}
use mona_agent_core.Planner.History.Revisions.{same_found}

-- The state that a read result confirms.
abbrev pub Confirms : Result (Option PlanRecord) → PlanSnapshot → Type 0
Confirms (err e) s = ⊥
Confirms (ok none) s = ⊥
Confirms (ok (some r)) s = r.state ≡ s

same_option : {p q : Option PlanSnapshot} → ok p ≡ ok q → p ≡ q
same_option h = cc

same_some : {p q : PlanSnapshot} → ok (some p) ≡ ok (some q) → p ≡ q
same_some h = cc

Confirms->>= :
    {T : Type 0} (m : Result T) (rest : T → Result (Option PlanRecord)) (s : PlanSnapshot)
    → Confirms (m >>= rest) s
    → (a : T) × (m ≡ ok a) × Confirms (rest a) s
Confirms->>= (err e) rest s c = absurd c
Confirms->>= (ok a) rest s c = (a, refl, c)

module _ (P : PlanSnapshot → Type 0) where
  abbrev pub OfOption : Option PlanSnapshot → Type 0
  OfOption none = Unit
  OfOption (some s) = P s

  abbrev pub OfRead : Result (Option PlanRecord) → Type 0
  OfRead (err e) = Unit
  OfRead (ok none) = Unit
  OfRead (ok (some r)) = P r.state

  abbrev AllKept : Found → Type 0
  AllKept found = OfOption found.latest × All (λ e. P e.1) found.current

  put_revision-All :
      (n : ℕ) (s : PlanSnapshot) (es : List (ℕ × PlanSnapshot))
      → P s
      → All (λ e. P e.1) es
      → All (λ e. P e.1) (put_revision n s es)
  unfolding put_revision
  put_revision-All n s [] k h = (k, tt)
  put_revision-All n s (e ∷ es) k h = placed (e.0 == n) (ltb n e.0) (put_revision-All n s es k h.1)
    where
      placed :
          (here before : Bool)
          → All (λ x. P x.1) (put_revision n s es)
          → All
              (λ x. P x.1)
              (if here
                then (n, s) ∷ es
                else if before
                then (n, s) ∷ e ∷ es
                else e ∷ put_revision n s es)
      placed true b ih = (k, h.1)
      placed false true ih = (k, h)
      placed false false ih = (h.0, ih)

  keep_read-AllKept :
      (run_id : Str) (base : Option PlanSnapshot) (o : Option PlanRecord) (found next : Found)
      → OfRead (ok o)
      → AllKept found
      → keep_read run_id base o found ≡ ok next
      → AllKept next
  unfolding keep_read keep keep_own
  keep_read-AllKept run_id base none found next k h q = subst AllKept (same_found q) h
  keep_read-AllKept run_id base (some r) found next k h q =
      by_run (holds (str_discrete r.run_id run_id)) q
    where
      by_run :
          (b : Bool)
          → (if b
              then keep_own r.state found
              else ok
                  (if not (is_some base) then record found { latest = some r.state } else found))
            ≡ ok next
          → AllKept next
      by_run true q' =
          let (_, _, same) =
            >>=-eq-ok
              (refuse (conflicts (at_revision r.state.revision found.current) r.state)
                (invalid "conflicting plan snapshots share a revision"))
              _ q' in
          subst AllKept (same_found same)
            (h.0, put_revision-All r.state.revision r.state found.current k h.1)
      by_run false q' = subst AllKept (same_found q') (by_base (not (is_some base)))
        where
          by_base :
              (b : Bool) → AllKept (if b then record found { latest = some r.state } else found)
          by_base true = (k, h.1)
          by_base false = h

  pub settle_on-OfOption :
      (es : List (ℕ × PlanSnapshot)) (latest p : Option PlanSnapshot)
      → All (λ e. P e.1) es
      → OfOption latest
      → settle_on es latest ≡ ok p
      → OfOption p
  unfolding settle_on
  settle_on-OfOption [] latest p h k q = subst OfOption (same_option q) k
  settle_on-OfOption (e ∷ es) latest p h k q =
      let (_, _, rest) = >>=-eq-ok (succeed latest e.1) _ q in
      settle_on-OfOption es (some e.1) p h.1 h.0 rest

  module _ {V : Type 0} (json : PlanJson V) (names : Map Str) (run_id : Str)
      (base : Option PlanSnapshot) where
    pub collect-AllKept :
        (results : List (ToolResult V)) (found last : Found)
        → All (λ x. OfRead (read_result json names x)) results
        → AllKept found
        → collect json names run_id base results found ≡ ok last
        → AllKept last
    unfolding collect
    collect-AllKept [] found last k h q = subst AllKept (same_found q) h
    collect-AllKept (x ∷ xs) found last k h q =
        let (o, reads, q1) = >>=-eq-ok (read_result json names x) _ q in
        let (next, step, q2) = >>=-eq-ok (keep_read run_id base o found) _ q1 in
        collect-AllKept xs next last k.1
          (keep_read-AllKept run_id base o found next (subst OfRead reads k.0) h step) q2

module _ {V : Type 0} (json : PlanJson V) where
  read_value-valid :
      (id : Str) (v : V) (s : PlanSnapshot)
      → Confirms (read_value json id v) s
      → check json s ≡ ok tt
  unfolding read_value
  read_value-valid id v s c =
      let (_, _, c1) =
        Confirms->>=
          (refuse (over_limit (max_plan_bytes + 1024) (json.value_bytes v))
            (invalid "plan record exceeds limit"))
          _ s c in
      let (r, _, c2) =
        Confirms->>= (ok_or (json.read_record v) (invalid "invalid plan result snapshot")) _ s c1 in
      let (_, _, c3) =
        Confirms->>=
          (refuse
            (not (holds (str_discrete r.call_id id)) || is_empty r.run_id || ltb 256 (len r.run_id))
            (invalid "plan result identity does not match its tool call"))
          _ s c2 in
      let (_, valid, c4) = Confirms->>= (check json r.state) _ s c3 in
      subst (λ (x : PlanSnapshot). check json x ≡ ok tt) c4 valid

  confirm-valid :
      (x : ToolResult V) (s : PlanSnapshot) → Confirms (confirm json x) s → check json s ≡ ok tt
  unfolding confirm
  confirm-valid x s c =
      let (_, _, c1) =
        Confirms->>= (refuse x.truncated (invalid "cannot recover a truncated plan result")) _ s
          c in
      let (v, _, c2) =
        Confirms->>=
          (ok_or (planner_value json x.structured)
            (invalid "confirmed plan result is missing its structured snapshot"))
          _ s c1 in
      read_value-valid x.call_id v s c2

  -- A state that is read is valid.
  pub read_result-valid :
      (names : Map Str) (x : ToolResult V) (s : PlanSnapshot)
      → Confirms (read_result json names x) s
      → check json s ≡ ok tt
  unfolding read_result
  read_result-valid names x s c =
      by_test (not (is_some (get x.call_id names)) || not (is_success x.status)) c
    where
      by_test :
          (b : Bool) → Confirms (if b then ok none else confirm json x) s → check json s ≡ ok tt
      by_test true k = absurd k
      by_test false k = confirm-valid x s k

  pub seed-valid :
      (metadata : Map Str) (s : PlanSnapshot)
      → seed json metadata ≡ ok (some s)
      → check json s ≡ ok tt
  unfolding seed read_seed
  seed-valid metadata s h = by_text (get plan_seed_key metadata) h
    where
      by_text : (o : Option Str) → read_seed json o ≡ ok (some s) → check json s ≡ ok tt
      by_text none k = cc
      by_text (some text) k =
          let (_, _, k1) =
            >>=-eq-ok (refuse (ltb max_plan_bytes (len text)) (invalid "plan seed exceeds limit")) _
              k in
          let (state, _, k2) =
            >>=-eq-ok (ok_or (json.read_snapshot text) (invalid "invalid plan seed")) _ k1 in
          let (_, valid, k3) = >>=-eq-ok (check json state) _ k2 in
          subst (λ (x : PlanSnapshot). check json x ≡ ok tt) (same_some k3) valid
