-- ===== src/Scheduler.antt =====
-- smallpond/execution/scheduler.py, `Scheduler`: which tasks are enqueued, retried and done.
-- A dictionary is a list in order of insertion, looked up by a task's key or runtime id. What the
-- scheduler tells executors is recorded in `commands`, in order; `Remote` models what they do
-- then. `try_enqueue` calls itself for the tasks behind one that is done, on fuel.
mod Lookup
pub mod Plan
pub mod Fetch
pub mod Enqueued
pub mod Enqueue
pub mod Finish
pub mod Sound
pub mod Order
pub mod Turns
pub mod Dispatch
pub mod Capacity
pub mod Loop
pub mod Budget
pub mod Given
pub mod Served
pub mod Dispatched
pub mod Complete
pub mod Failure
pub mod Safety
pub mod Success
pub mod Progress
pub mod Rounds
pub mod Outcome
pub mod Recover
pub mod Recovery
pub mod Rescue
pub mod Speculate
mod Tests
mod DispatchTests
mod LoopTests
mod RecoverTests
use smallpond.Prelude.{
  ℕ, zero, suc, ◌+◌, ◌*◌, min, ◌≡◌, Bool, true, false, not, ◌&&◌, ◌||◌, List, [], ◌∷◌, ◌++◌, map,
  Option, none, some, length, ltb, leb, ◌==◌, if◌then◌else◌, Result, ok, raise, ◌>>=◌, ◌>>◌, guard,
  of_option, map_result, key_error, type_error, zero_division_error, assertion_error, out_of_fuel,
}
use smallpond.Work.{
  WorkItem, WorkStatus, incomplete, succeed, failed, crashed, exec_failed, same_status, Kind, task,
  TaskInfo, TaskRuntimeId, same_runtime_id, DataSet, parquet_files, memory_limit, oom,
}

-- A work item of the class `Task`.
pub record Task : Type 0 where
  pub work : WorkItem
  pub info : TaskInfo

abbrev pub key_of : Task → ℕ
key_of t = t.work.key

abbrev pub runtime_id : Task → TaskRuntimeId
runtime_id t = record { id = t.info.id; epoch = t.info.sched_epoch; retry = t.work.retry_count }

-- `Task.output`
abbrev pub output : Task → DataSet
output t = elim t.info.dataset [ some d ↦ d | none ↦ parquet_files (runtime_id t) ]

pub data Command : Type 0 where
  stop_executors : Command
  stop_one : (exec_id : ℕ) → Command
  stop_running : (task_key : ℕ) → Command

pub record Config : Type 0 where
  pub max_fail_count : ℕ
  pub standalone_mode : Bool
  pub nonzero_exitcode_as_oom : Bool
  pub stop_executor_on_failure : Bool
  pub skip_task_with_empty_input : Bool
  pub is_empty : DataSet → Bool
  pub root_task_id : ℕ
  pub fuel : ℕ

pub record State : Type 0 where
  pub local_queue : List Task
  pub sched_queue : List Task
  pub tasks : List Task
  pub scheduled_tasks : List Task
  pub finished_tasks : List Task
  pub succeeded_tasks : List Task
  pub succeeded_nontrivial_tasks : List Task
  pub sched_epoch : ℕ
  pub sched_running : Bool
  pub commands : List Command

-- The executor that a finished task comes from.
pub record Origin : Type 0 where
  pub exec_id : ℕ
  pub is_local : Bool
  pub memory_size : ℕ

abbrev pub find_task : ℕ → List Task → Option Task
find_task key [] = none
find_task key (t ∷ ts) = if key_of t == key then some t else find_task key ts

abbrev pub has_task : ℕ → List Task → Bool
has_task key [] = false
has_task key (t ∷ ts) = (key_of t == key) || has_task key ts

abbrev pub has_run : TaskRuntimeId → List Task → Bool
has_run id [] = false
has_run id (t ∷ ts) = same_runtime_id (runtime_id t) id || has_run id ts

-- An assignment to fields of the task with a key.
abbrev pub modify_task : ℕ → (Task → Task) → List Task → List Task
modify_task key f [] = []
modify_task key f (t ∷ ts) = if key_of t == key then f t ∷ ts else t ∷ modify_task key f ts

abbrev pub all_done : List ℕ → List Task → Bool
all_done [] done = true
all_done (k ∷ ks) done = has_task k done && all_done ks done

unfoldable pub copy_task_for_execution : Task → State → Result Task
copy_task_for_execution t s = do
  inputs ← map_result (λ k. of_option key_error (find_task k s.succeeded_tasks)) t.info.input_deps
  ok (record t {
    info = record t.info { input_datasets = map output inputs; sched_epoch = s.sched_epoch };
  })

abbrev pub keep_done : List Task → List Task → List Task
keep_done done [] = []
keep_done done (t ∷ ts) =
    if all_done t.info.input_deps done then t ∷ keep_done done ts else keep_done done ts

-- The generator is read as a list: `try_enqueue` changes nothing that it reads.
unfoldable pub get_runnable_tasks : Task → State → Result (List Task)
get_runnable_tasks finished s = do
  guard (same_status finished.work.status succeed) assertion_error
  outputs ← map_result (λ k. of_option key_error (find_task k s.tasks)) finished.info.output_deps
  ok (keep_done s.succeeded_tasks outputs)

abbrev pub any_input_empty : (DataSet → Bool) → List DataSet → Bool
any_input_empty is_empty [] = false
any_input_empty is_empty (d ∷ ds) = is_empty d || any_input_empty is_empty ds

abbrev pub for_each {ℓ} : {A : Type ℓ} → (A → State → Result State) → List A → State → Result State
for_each f [] s = ok s
for_each f (x ∷ xs) s = do s' ← f x s; for_each f xs s'

module _ (cfg : Config) where
  -- Save the task, and put it in the queue that suits it.
  unfoldable pub put_in_queue : Task → State → State
  put_in_queue t s =
      let saved = record s { scheduled_tasks = s.scheduled_tasks ++ t ∷ [] } in
      if cfg.standalone_mode
        || (t.info.exec_on_scheduler
            || (cfg.skip_task_with_empty_input
                && any_input_empty cfg.is_empty t.info.input_datasets))
      then record saved { local_queue = s.local_queue ++ t ∷ [] }
      else record saved { sched_queue = s.sched_queue ++ t ∷ [] }

  -- The body of the loop of `try_enqueue`, given the call for the tasks behind a done one.
  unfoldable pub enqueue_copied : (List Task → State → Result State) → Task → State → Result State
  unfolding put_in_queue get_runnable_tasks
  enqueue_copied again t s = elim (find_task (key_of t) s.succeeded_tasks) [
    | some done ↦ do runnable ← get_runnable_tasks done s; again runnable s
    | none ↦ if has_run (runtime_id t) s.scheduled_tasks then ok s else ok (put_in_queue t s)
  ]

  unfoldable pub enqueue_one : (List Task → State → Result State) → Task → State → Result State
  unfolding enqueue_copied copy_task_for_execution
  enqueue_one again t s = do copied ← copy_task_for_execution t s; enqueue_copied again copied s

  unfoldable pub try_enqueue_on : ℕ → List Task → State → Result State
  unfolding enqueue_one
  try_enqueue_on zero [] s = ok s
  try_enqueue_on zero (t ∷ ts) s = raise out_of_fuel
  try_enqueue_on (suc fuel) ts s = for_each (enqueue_one (try_enqueue_on fuel)) ts s

  unfoldable pub try_enqueue : List Task → State → Result State
  unfolding try_enqueue_on
  try_enqueue = try_enqueue_on cfg.fuel

-- The task to retry, with its count of retries raised, and the state with that task.
unfoldable pub get_retry_task : ℕ → State → Result (Task × State)
get_retry_task key s = do
  t ← of_option key_error (find_task key s.tasks)
  let retried = record t { work = record t.work { retry_count = t.work.retry_count + 1 } }
  guard (not (same_status t.work.status succeed) || not (t.info.sched_epoch == s.sched_epoch))
      assertion_error
  ok (retried, record s { tasks = modify_task key (λ _. retried) s.tasks })

-- The boost is the relaxed limit itself; the source keeps its quotient by the base limit. That is an
-- `int64` of numpy: its quotient by 0 raises nothing, and a limit of 0 stays 0 with any boost.
abbrev pub boost_memory : Option ℕ → ℕ → Task → Result Task
boost_memory none relaxed t = raise type_error
boost_memory (some limit) relaxed t =
    ok (record t { work = record t.work { memory_boost = some relaxed } })

unfoldable pub try_relax_memory_limit : Task → ℕ → Result Task
try_relax_memory_limit t memory_size =
    if leb memory_size (memory_limit t.work)
    then ok t
    else boost_memory t.work.base_memory_limit (min memory_size (memory_limit t.work * 2)) t

unfoldable pub save_task_final_state : Task → Task → Task
save_task_final_state finished t = record {
  work = record t.work { status = finished.work.status; retry_count = finished.work.retry_count };
  info = record t.info { sched_epoch = finished.info.sched_epoch; dataset = finished.info.dataset };
}
