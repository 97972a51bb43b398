-- ===== src/Api/Task/Tests.antt =====
-- A task with two branches that share a quota of two calls.
use mona_agent_core.Prelude.{ℕ, ◌+◌, ◌≤◌, ◌<◌, ◌≡◌, refl, ◌≢◌, Bool, false, none, some, arith}
use mathlib.Core.List.{Nodup, Nodup-cons, Nodup-nil, mem-cons, not-mem-nil}
use mathlib.Core.Logic.Or
use mathlib.Core.HLevel.{⊥_prop}
use mona_agent_core.Api.Error.{Result, ok, err, error, ErrorCode}
use mona_agent_core.Api.Task.{
  TaskLimits, TaskControl, root, child, TaskInner, Heap, Counters, zeroed, Usage, write,
  reserve_model_call, new, branch, counted,
}
use mona_agent_core.Api.Task.Chain.{cells, Applied}
use mona_agent_core.Api.Task.Account.{record_attempt}
use mona_agent_core.Api.Task.Quota.{
  Runs, here, reserves, records, Runs-quota, reserve_model_call-Applied,
}

abbrev quota_two : TaskLimits
quota_two = record { wall_time = 1000; max_model_calls = 2; max_reported_tokens = some 50 }

abbrev at_cell : ℕ → TaskInner
at_cell c = record { limits = quota_two; deadline = 1000; cell = c }

abbrev left : TaskControl
left = child (at_cell 1) (root (at_cell 0))

abbrev right : TaskControl
right = child (at_cell 2) (root (at_cell 0))

abbrev running : TaskControl → Bool
running t = false

abbrev empty : Heap
empty c = zeroed

abbrev after : Result Heap → Heap
after (ok h) = h
after (err e) = empty

abbrev heap1 : Heap
heap1 = after (reserve_model_call running 5 empty left)

abbrev heap2 : Heap
heap2 = after (reserve_model_call running 6 heap1 right)

first : reserve_model_call running 5 empty left ≡ ok heap1
unfolding reserve_model_call zeroed
first = refl

second : reserve_model_call running 6 heap1 right ≡ ok heap2
unfolding reserve_model_call zeroed mona_agent_core.Api.Task.count_call
second = refl

-- The third call is refused, whoever asks.
third :
    reserve_model_call running 7 heap2 left
    ≡ err (error ErrorCode.limit "task model-call limit reached")
unfolding reserve_model_call zeroed mona_agent_core.Api.Task.count_call
third = refl

late :
    reserve_model_call running 1000 empty left
    ≡ err (error ErrorCode.deadline "task deadline reached")
unfolding reserve_model_call
late = refl

linked : (c : ℕ) → c ≢ 0 → Nodup (cells (child (at_cell c) (root (at_cell 0))))
linked c n =
    Nodup-cons.1
      ((λ m. Or.elim ⊥_prop (mem-cons.0 m) n not-mem-nil), Nodup-cons.1 (not-mem-nil, Nodup-nil))

abbrev usage : Usage
usage = record {
  input_tokens = 20;
  output_tokens = 5;
  cache_read_tokens = none;
  cache_write_tokens = none;
}

reserve_model_call-Applied_example : Applied counted left empty heap1 × ((empty 0).calls < 2)
reserve_model_call-Applied_example =
    reserve_model_call-Applied running 5 empty left (linked 1 (ground arith)) first

run_of_two : Runs (at_cell 0) empty 2 (record_attempt heap2 left (some usage) none)
run_of_two = reserves running 5 left refl (linked 1 (ground arith)) first (
    reserves running 6 right refl (linked 2 (ground arith)) second
      (records left (some usage) none (linked 1 (ground arith)) here))

no_calls : (empty 0).calls ≤ 2
unfolding zeroed
no_calls = ground arith

Runs-quota_example :
    ((record_attempt heap2 left (some usage) none 0).calls ≡ (empty 0).calls + 2)
    × ((record_attempt heap2 left (some usage) none 0).calls ≤ 2)
Runs-quota_example = Runs-quota (at_cell 0) run_of_two (ground arith) no_calls
