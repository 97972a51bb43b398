-- ===== src/Api/Task/Quota.antt =====
-- The quota of model calls that all branches of a task share.
use mona_agent_core.Prelude.{
  ℕ, suc, ◌+◌, ◌≤◌, ◌<◌, ◌≡◌, refl, ap, subst, ◌∙◌, ◌≢◌, inl, inr, Bool, not, Option, none, some,
  arith, ltb, all, Bool-cases, usize_max, ℕ_discrete,
}
use mathlib.Core.List.{Mem, Nodup, Nodup-cons}
use mona_agent_core.Prelude.Sets.{contains, contains→mem, not-mem_of_contains}
use mona_agent_core.Api.Error.{ok, refuse, refuse-eq-ok, >>=-eq-ok, error, ErrorCode}
use mona_agent_core.Api.Task.{
  TaskControl, root, child, TaskInner, Heap, Counters, zeroed, Usage, wrapping_add, check, counted,
  count_call, reserve_model_call, branch,
}
use mona_agent_core.Api.Task.Chain.{
  cells, root_of, mem-root_of, Applied, Applied-root, Applied-child, write-other,
}
use mona_agent_core.Api.Task.Rollup.{
  record_attempt-Applied, mark_usage_incomplete-Applied, record_tool_timing-Applied,
}
use mona_agent_core.Api.Task.Account.{
  Timing, attempt, incomplete, tool_time, record_attempt, mark_usage_incomplete, record_tool_timing,
}

-- A reservation is counted once by the task and once by each of its parents, and by no other task, if
-- their cells are distinct. It was made while the root had calls left.
pub reserve_model_call-Applied :
    (is_cancelled : TaskControl → Bool) (now : ℕ) (h : Heap) (t : TaskControl) {h' : Heap}
    → Nodup (cells t)
    → reserve_model_call is_cancelled now h t ≡ ok h'
    → Applied counted t h h' × ((h (root_of t).cell).calls < (root_of t).limits.max_model_calls)
unfolding reserve_model_call count_call
reserve_model_call-Applied is_cancelled now h (root i) {h'} d k =
    let (_, _, k1) = >>=-eq-ok (check is_cancelled now h (root i)) _ k in
    let (_, e, k2) =
      >>=-eq-ok
        (refuse (not (ltb (h i.cell).calls i.limits.max_model_calls))
          (error ErrorCode.limit "task model-call limit reached"))
        _ k1 in
    let room = refuse-eq-ok (not (ltb (h i.cell).calls i.limits.max_model_calls)) _ e in
    let same : count_call h i.cell ≡ h' = cc in
    (subst (Applied counted (root i) h) same (Applied-root counted i h), ground (arith, room))
reserve_model_call-Applied is_cancelled now h (child i parent) {h'} d k =
    let (_, _, k1) = >>=-eq-ok (check is_cancelled now h (child i parent)) _ k in
    let (g, e, k2) = >>=-eq-ok (reserve_model_call is_cancelled now h parent) _ k1 in
    let (a, room) = reserve_model_call-Applied is_cancelled now h parent (Nodup-cons.0 d).1 e in
    let same : count_call g i.cell ≡ h' = cc in
    (subst (Applied counted (child i parent) h) same (Applied-child counted i parent h g d a), room)

attempt-calls :
    (usage : Option Usage) (timing : Option Timing) (c : Counters)
    → (attempt usage timing c).calls ≡ c.calls
unfolding attempt
attempt-calls none timing c = refl
attempt-calls (some u) timing c = refl

incomplete-calls : (c : Counters) → (incomplete c).calls ≡ c.calls
unfolding incomplete
incomplete-calls c = refl

tool_time-calls : (elapsed : ℕ) (c : Counters) → (tool_time elapsed c).calls ≡ c.calls
unfolding tool_time
tool_time-calls elapsed c = refl

counted-calls : (c : Counters) → c.calls < usize_max → (counted c).calls ≡ c.calls + 1
unfolding counted wrapping_add
counted-calls c small = omega arith

-- What happens in the tree below the root `r`: `n` reservations, by whichever handles.
module _ (r : TaskInner) where
  counted_root :
      (h h' : Heap) (t : TaskControl)
      → root_of t ≡ r
      → Applied counted t h h'
      → (h (root_of t).cell).calls < (root_of t).limits.max_model_calls
      → r.limits.max_model_calls ≤ usize_max
      → ((h' r.cell).calls ≡ (h r.cell).calls + 1) × ((h r.cell).calls < r.limits.max_model_calls)
  counted_root h h' t same a room fits =
      let left : (h r.cell).calls < r.limits.max_model_calls =
        subst (λ (i : TaskInner). (h i.cell).calls < i.limits.max_model_calls) same room in
      let member : Mem r.cell (cells t) =
        subst (λ (i : TaskInner). Mem i.cell (cells t)) same (mem-root_of t) in
      (
        ap (λ (c : Counters). c.calls) (a.here r.cell member)
            ∙ counted-calls (h r.cell) (omega arith),
        left,
      )

  unchanged :
      (f : Counters → Counters) (h : Heap) (t : TaskControl) (h' : Heap)
      → ((c : Counters) → (f c).calls ≡ c.calls)
      → Applied f t h h'
      → (h' r.cell).calls ≡ (h r.cell).calls
  unchanged f h t h' keeps a = elim (Bool-cases (contains ℕ_discrete r.cell (cells t))) [
    | inl m ↦
        ap (λ (c : Counters). c.calls) (a.here r.cell (contains→mem ℕ_discrete r.cell (cells t) m))
        ∙ keeps (h r.cell)
    | inr n ↦
        ap (λ (c : Counters). c.calls)
          (a.elsewhere r.cell (not-mem_of_contains ℕ_discrete r.cell (cells t) n))
  ]

  pub data Runs : Heap → ℕ → Heap → Type 0 where
    here : {h : Heap} → Runs h 0 h
    reserves :
        (is_cancelled : TaskControl → Bool) (now : ℕ) (t : TaskControl) {h h' h'' : Heap} {n : ℕ}
        → root_of t ≡ r
        → Nodup (cells t)
        → reserve_model_call is_cancelled now h t ≡ ok h'
        → Runs h' n h''
        → Runs h (suc n) h''
    records :
        (t : TaskControl) (usage : Option Usage) (timing : Option Timing) {h h' : Heap} {n : ℕ}
        → Nodup (cells t)
        → Runs (record_attempt h t usage timing) n h'
        → Runs h n h'
    marks :
        (t : TaskControl) {h h' : Heap} {n : ℕ}
        → Nodup (cells t)
        → Runs (mark_usage_incomplete h t) n h'
        → Runs h n h'
    times :
        (t : TaskControl) (elapsed : ℕ) {h h' : Heap} {n : ℕ}
        → Nodup (cells t)
        → Runs (record_tool_timing h t elapsed) n h'
        → Runs h n h'
    branches :
        (t : TaskControl) (fresh : ℕ) {h h' : Heap} {n : ℕ}
        → r.cell ≢ fresh
        → Runs (branch h fresh t).1 n h'
        → Runs h n h'

  -- If the root starts within its limit of 64 bits, it ends with as many calls more as were reserved in
  -- the whole tree, and within its limit.
  pub Runs-quota :
      {h h' : Heap} {n : ℕ}
      → Runs h n h'
      → r.limits.max_model_calls ≤ usize_max
      → (h r.cell).calls ≤ r.limits.max_model_calls
      → ((h' r.cell).calls ≡ (h r.cell).calls + n) × ((h' r.cell).calls ≤ r.limits.max_model_calls)
  unfolding branch
  Runs-quota here fits low = (omega arith, low)
  Runs-quota {h} (reserves is_cancelled now t {h' = h1} same d e rest) fits low =
      let (a, room) = reserve_model_call-Applied is_cancelled now h t d e in
      let (one, left) = counted_root h h1 t same a room fits in
      let (all, within) = Runs-quota rest fits (omega (arith, one, left)) in
      (omega (arith, all, one), within)
  Runs-quota {h} (records t usage timing d rest) fits low =
      let e =
        unchanged (attempt usage timing) h t _ (attempt-calls usage timing)
          (record_attempt-Applied h t usage timing d) in
      let (all, within) = Runs-quota rest fits (omega (arith, e)) in (omega (arith, all, e), within)
  Runs-quota {h} (marks t d rest) fits low =
      let e = unchanged incomplete h t _ incomplete-calls (mark_usage_incomplete-Applied h t d) in
      let (all, within) = Runs-quota rest fits (omega (arith, e)) in (omega (arith, all, e), within)
  Runs-quota {h} (times t elapsed d rest) fits low =
      let e =
        unchanged (tool_time elapsed) h t _ (tool_time-calls elapsed)
          (record_tool_timing-Applied h t elapsed d) in
      let (all, within) = Runs-quota rest fits (omega (arith, e)) in (omega (arith, all, e), within)
  Runs-quota {h} (branches t fresh other rest) fits low =
      let e = ap (λ (c : Counters). c.calls) (write-other h fresh r.cell zeroed other) in
      let (all, within) = Runs-quota rest fits (omega (arith, e)) in (omega (arith, all, e), within)
