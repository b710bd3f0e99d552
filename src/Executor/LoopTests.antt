-- ===== src/Executor/LoopTests.antt =====
-- An executor with two GPUs of ten units, of which a work has one and a half, and the theorems there.
use smallpond.Prelude.{
  ℕ, ◌≡◌, refl, Bool, true, false, inl, List, [], ◌∷◌, Option, none, some, arith, ◌==◌,
  if◌then◌else◌, map, Result, ok, raise, attribute_error,
}
use smallpond.Work.{WorkItem, stop_work_item}
use smallpond.Work.Samples.{item}
use smallpond.Queue.{Entry, in_memory}
use smallpond.Executor.{GpuQuota, acquire_gpu, release_gpu}
use smallpond.Executor.Pool.{Exits, Pool}
use smallpond.Executor.Collect.{Running, Executor, work_key, collect_finished_works}
use smallpond.Executor.Loop.{exec_round}
use smallpond.Executor.Balance.{IsBalanced}
use smallpond.Executor.Finished.{unfinished, collect_finished_works_total}
use smallpond.Executor.Starts.{Safe}
use smallpond.Executor.Rounds.{exec_round-IsBalanced}

abbrev gpu_with : ℕ → ℕ → GpuQuota
gpu_with gpu quota = record { gpu = gpu; quota = quota }

abbrev pool : Pool
pool = record {
  queued_tasks = 3 ∷ 4 ∷ [];
  running_tasks = 1 ∷ 2 ∷ [];
  started = 1 ∷ 2 ∷ [];
  stopping = [];
  next_task = 5;
}

abbrev work : Running
work = record { pool_task = 1; item = item 7; local_gpu = gpu_with 0 10 ∷ gpu_with 1 5 ∷ [] }

abbrev executor : Executor (List Entry)
executor = record {
  cq = record { outbound_works = []; backend = [] };
  pool = pool;
  running_works = work ∷ [];
  is_running = true;
  epochs_to_skip = 0;
  local_gpus = gpu_with 0 0 ∷ gpu_with 1 5 ∷ [];
}

abbrev first_exits : Exits
first_exits t = if t == 1 then some 0 else none

abbrev none_exits : Exits
none_exits t = none

abbrev whole : ℕ → ℕ
whole id = if id == 0 then 10 else if id == 1 then 10 else 0

abbrev gpu_item : ℕ → ℕ → WorkItem
gpu_item key quota = record (item key) { base_gpu_limit = quota }

abbrev terminate : Bool → Result (Unit {0})
terminate started = if started then ok tt else raise attribute_error

abbrev summary : Result (Executor (List Entry) × Option WorkItem) → Result (List ℕ × List GpuQuota)
summary (ok (e, stop)) = ok (map work_key e.running_works, e.local_gpus)
summary (raise error) = raise error

terminate-Safe : (started : Bool) → Safe (terminate started) (λ _. Unit {0})
terminate-Safe true = tt
terminate-Safe false = inl refl

-- A work that asks for more than is available gets its GPUs when the first work has finished.
waits_for_first :
    summary (
      exec_round in_memory 10 terminate 3
        (λ key. none_exits ∷ first_exits ∷ [])
        first_exits
        first_exits
        (gpu_item 8 12 ∷ [])
        executor)
    ≡ ok (8 ∷ [], gpu_with 0 0 ∷ gpu_with 1 8 ∷ [])
unfolding exec_round acquire_gpu release_gpu
waits_for_first = refl

-- A work that asks for more GPUs than there are ends the executor.
too_many_gpus :
    summary (
      exec_round in_memory 10 terminate 3
        (λ key. [])
        none_exits
        none_exits
        (gpu_item 8 30 ∷ [])
        executor)
    ≡ raise attribute_error
unfolding exec_round
too_many_gpus = refl

-- So does a request to stop a work that comes before the work has started.
stopped_before_start :
    summary (
      exec_round in_memory 10 terminate 3
        (λ key. [])
        none_exits
        none_exits
        (item 8 ∷ record (item 9) { kind = stop_work_item 8 } ∷ [])
        executor)
    ≡ raise attribute_error
unfolding exec_round
stopped_before_start = refl

executor-IsBalanced : IsBalanced 10 whole executor
executor-IsBalanced = record {
  bounded = λ id. ground arith;
  sums = λ id. ground arith;
  present = λ id h. ground arith;
  distinct = (refl, tt);
}

collect_finished_works_total_example :
    (e' : Executor (List Entry)) × (collect_finished_works in_memory 10 first_exits executor
      ≡ ok e')
    × IsBalanced 10 whole e'
    × (e'.running_works ≡ unfinished first_exits pool (work ∷ []))
    × (e'.pool ≡ pool)
collect_finished_works_total_example =
    collect_finished_works_total in_memory 10 whole first_exits executor executor-IsBalanced

exec_round-IsBalanced_example :
    Safe
      (exec_round in_memory 10 terminate 3
        (λ key. none_exits ∷ first_exits ∷ [])
        first_exits
        first_exits
        (gpu_item 8 12 ∷ [])
        executor)
      (λ (e', stop). IsBalanced 10 whole e')
exec_round-IsBalanced_example =
    exec_round-IsBalanced in_memory 10 whole terminate terminate-Safe 3
      (λ key. none_exits ∷ first_exits ∷ []) first_exits first_exits (gpu_item 8 12 ∷ []) executor
      (refl, tt, tt) executor-IsBalanced
