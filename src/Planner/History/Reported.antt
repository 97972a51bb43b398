-- ===== src/Planner/History/Reported.antt =====
-- packages/planner/src/history.rs: what is read from the results of a checkpoint is what they confirm.
use mona_agent_core.Prelude.{
  ◌+◌, ◌≡◌, refl, sym, ap, ◌∙◌, inl, inr, Bool, true, false, not, ◌||◌, Option, none, some, List,
  [], ltb, if◌then◌else◌, holds, holds→, is_some, is_empty, Any, arith,
}
use mona_agent_core.Prelude.Strings.{Str, str_discrete, len}
use mona_agent_core.Prelude.Maps.{get}
use mona_agent_core.Api.Error.{
  Result, ok, err, refuse, ok_or, ◌>>=◌, >>=-eq-ok, ok_or-eq-ok, refuse-eq-ok,
}
use mona_agent_core.Api.Message.{Message, ToolResult, ToolStatus}
use mona_agent_core.Planner.State.{max_plan_bytes, over_limit, invalid}
use mona_agent_core.Planner.History.{
  PlanJson, PlanRecord, check, calls, calls_from, is_success, read_value, planner_value, confirm,
  read_result,
}
use mona_agent_core.Planner.History.Confirmed.{
  CallsPlan, IsConfirmed, Known, calls_from-Known, Known-calls_from,
}

same_record : {r s : PlanRecord} → ok (some r) ≡ ok (some s) → r ≡ s
same_record h = cc

same_read : {r s : PlanRecord} → some r ≡ some s → r ≡ s
same_read h = cc

same_value : {V : Type 0} {v w : V} → some v ≡ some w → v ≡ w
same_value h = cc

unknown : (id : Str) → Known id [] → ⊥
unfolding get
unknown id h = cc

-- A read that fails, or gives this record.
abbrev pub Gives : PlanRecord → Result (Option PlanRecord) → Type 0
Gives r (err e) = Unit
Gives r (ok none) = ⊥
Gives r (ok (some s)) = s ≡ r

Gives->>= :
    {T : Type 0} (r : PlanRecord) (m : Result T) (rest : T → Result (Option PlanRecord))
    → ((a : T) → m ≡ ok a → Gives r (rest a))
    → Gives r (m >>= rest)
Gives->>= r (err e) rest k = tt
Gives->>= r (ok a) rest k = k a refl

module _ {V : Type 0} (json : PlanJson V) (ms : List (Message V)) (x : ToolResult V)
    (r : PlanRecord) where
  success_status : (s : ToolStatus) → is_success s ≡ true → s ≡ ToolStatus.success
  success_status ToolStatus.success h = refl
  success_status _ h = cc

  value_of :
      (o : Option V) (v : V)
      → planner_value json o ≡ some v
      → (structured : V) × (o ≡ some structured) × (json.planner_member structured ≡ some v)
  unfolding planner_value
  value_of none v h = cc
  value_of (some structured) v h = (structured, refl, h)

  confirm-IsConfirmed :
      Any (CallsPlan x.call_id) ms
      → x.status ≡ ToolStatus.success
      → confirm json x ≡ ok (some r)
      → IsConfirmed json ms x r
  unfolding confirm read_value
  confirm-IsConfirmed called success h =
      let (_, whole, h1) =
        >>=-eq-ok (refuse x.truncated (invalid "cannot recover a truncated plan result")) _ h in
      let (v, found, h2) =
        >>=-eq-ok
          (ok_or (planner_value json x.structured)
            (invalid "confirmed plan result is missing its structured snapshot"))
          _ h1 in
      let (_, _, h3) =
        >>=-eq-ok
          (refuse (over_limit (max_plan_bytes + 1024) (json.value_bytes v))
            (invalid "plan record exceeds limit"))
          _ h2 in
      let (s, reads, h4) =
        >>=-eq-ok (ok_or (json.read_record v) (invalid "invalid plan result snapshot")) _ h3 in
      let (_, identity, h5) =
        >>=-eq-ok
          (refuse
            (not (holds (str_discrete s.call_id x.call_id))
              || is_empty s.run_id
              || ltb 256 (len s.run_id))
            (invalid "plan result identity does not match its tool call"))
          _ h4 in
      let (_, _, h6) = >>=-eq-ok (check json s.state) _ h5 in
      let same : s ≡ r = same_record h6 in
      let (structured, has, member) = value_of x.structured v (ok_or-eq-ok _ _ found) in
      record {
        called = called;
        succeeded = success;
        whole = refuse-eq-ok _ _ whole;
        structured = structured;
        value = v;
        has_structured = has;
        has_member = member;
        reads = ok_or-eq-ok _ _ reads ∙ ap some same;
        same_call =
            ap (λ (q : PlanRecord). q.call_id) (sym same)
            ∙ holds→ (str_discrete s.call_id x.call_id) (ground (arith, refuse-eq-ok _ _ identity));
      }

  pub read_result-IsConfirmed :
      read_result json (calls ms) x ≡ ok (some r) → IsConfirmed json ms x r
  unfolding read_result calls
  read_result-IsConfirmed h =
      by_tests (is_some (get x.call_id (calls_from ms []))) (is_success x.status) refl refl h
    where
      planned : is_some (get x.call_id (calls_from ms [])) ≡ true → Any (CallsPlan x.call_id) ms
      planned k = elim (calls_from-Known x.call_id ms [] k) [
        | inl a ↦ a
        | inr bad ↦ absurd (unknown x.call_id bad)
      ]

      by_tests :
          (known success : Bool)
          → is_some (get x.call_id (calls_from ms [])) ≡ known
          → is_success x.status ≡ success
          → (if not known || not success then ok none else confirm json x) ≡ ok (some r)
          → IsConfirmed json ms x r
      by_tests true true k s q = confirm-IsConfirmed (planned k) (success_status x.status s) q
      by_tests true false k s q = cc
      by_tests false b k s q = cc

  -- A confirmed record is what is read, unless the read fails.
  pub IsConfirmed-read_result : IsConfirmed json ms x r → Gives r (read_result json (calls ms) x)
  unfolding read_result calls confirm read_value planner_value
  IsConfirmed-read_result c =
      by_tests (is_some (get x.call_id (calls_from ms []))) (is_success x.status)
        (Known-calls_from x.call_id ms [] (inl c.called)) (ap is_success c.succeeded)
    where
      found : planner_value json x.structured ≡ some c.value
      found = ap (planner_value json) c.has_structured ∙ c.has_member

      confirms : Gives r (confirm json x)
      confirms =
          Gives->>= r (refuse x.truncated (invalid "cannot recover a truncated plan result")) _
            (λ u _.
              Gives->>= r
                (ok_or (planner_value json x.structured)
                  (invalid "confirmed plan result is missing its structured snapshot"))
                _
                (λ v e.
                  Gives->>= r
                    (refuse (over_limit (max_plan_bytes + 1024) (json.value_bytes v))
                      (invalid "plan record exceeds limit"))
                    _
                    (λ u1 _.
                      Gives->>= r
                        (ok_or (json.read_record v) (invalid "invalid plan result snapshot")) _
                        (λ s e1.
                          Gives->>= r
                            (refuse
                              (not (holds (str_discrete s.call_id x.call_id))
                                || is_empty s.run_id
                                || ltb 256 (len s.run_id))
                              (invalid "plan result identity does not match its tool call"))
                            _
                            (λ u2 _. Gives->>= r (check json s.state) _ (λ u3 _. same_read (
                              sym (ok_or-eq-ok _ _ e1)
                              ∙ ap json.read_record (same_value (sym (ok_or-eq-ok _ _ e) ∙ found))
                              ∙ c.reads)))))))

      by_tests :
          (known success : Bool)
          → is_some (get x.call_id (calls_from ms [])) ≡ true
          → is_success x.status ≡ true
          → Gives r (
              if not (is_some (get x.call_id (calls_from ms []))) || not (is_success x.status)
              then ok none
              else confirm json x)
      by_tests known success k s = rw (k, s) confirms
