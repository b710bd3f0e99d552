-- ===== src/Scheduler/Tests.antt =====
-- A plan of three tasks in a row, of which the first runs, and the theorems about schedulers there.
use smallpond.Prelude.{
  ℕ, ◌≤◌, ◌<◌, ◌≡◌, refl, inl, inr, true, false, ◌&&◌, none, some, List, [], ◌∷◌, Result, ok, raise,
  arith, All, length, leb, ◌==◌, Bool-cases, if◌then◌else◌,
}
use smallpond.Work.{succeed, crashed, out_of_memory, oom}
use smallpond.Work.Samples.{item}
use smallpond.Scheduler.{
  Task, key_of, Config, State, Origin, find_task, copy_task_for_execution, get_runnable_tasks,
  put_in_queue, enqueue_copied, enqueue_one, try_enqueue_on, try_enqueue, get_retry_task,
  try_relax_memory_limit, save_task_final_state,
}
use smallpond.Scheduler.Finish.{
  failed_once, stop_after_failure, handle_failure, record_success, handle_success, handle_final,
  handle_finished, process_finished,
}
use smallpond.Scheduler.Plan.{Plan, IsAcyclic, IsPlanned, IsSound}
use smallpond.Scheduler.Enqueued.{IsHandled}
use smallpond.Scheduler.Enqueue.{Enqueues, try_enqueue_total}
use smallpond.Scheduler.Failure.{IsCounted}
use smallpond.Scheduler.Safety.{retry, handle_failure_total}
use smallpond.Scheduler.Success.{IsRecorded, handle_success_total}
use smallpond.Scheduler.Progress.{IsReturned}
use smallpond.Scheduler.Outcome.{handle_finished_twice, process_finished_total}

abbrev pub inputs_of : ℕ → List ℕ
inputs_of k = if k == 2 then 1 ∷ [] else if k == 3 then 2 ∷ [] else []

abbrev pub outputs_of : ℕ → List ℕ
outputs_of k = if k == 1 then 2 ∷ [] else if k == 2 then 3 ∷ [] else []

abbrev pub row : Plan
row = record {
  member = λ k. leb 1 k && leb k 3;
  key_of_id = λ id. id;
  inputs = inputs_of;
  outputs = outputs_of;
  rank = λ k. k;
  depth = 3;
}

row-onward : (k : ℕ) → All (λ j. (row.member j ≡ true) × (k < j)) (outputs_of k)
row-onward k = elim (Bool-cases (k == 1)) [
  | inl e ↦ rw e ((refl, ground arith), tt)
  | inr e ↦ elim (Bool-cases (k == 2)) [
    | inl e' ↦ rw (e, e') ((refl, ground arith), tt)
    | inr e' ↦ rw (e, e') tt
  ]
]

pub row-IsAcyclic : IsAcyclic row
row-IsAcyclic = record { onward = λ k m. row-onward k; bounded = λ k m. ground arith }

abbrev pub task_of : ℕ → Task
task_of k = record {
  work = item k;
  info = record {
    id = k;
    node_id = k;
    sched_epoch = 0;
    input_deps = inputs_of k;
    output_deps = outputs_of k;
    input_datasets = [];
    dataset = none;
    runtime_state = none;
    exec_on_scheduler = false;
  };
}

abbrev pub config : Config
config = record {
  max_fail_count = 4;
  standalone_mode = false;
  nonzero_exitcode_as_oom = false;
  stop_executor_on_failure = false;
  skip_task_with_empty_input = false;
  is_empty = λ d. false;
  root_task_id = 3;
  fuel = 4;
}

abbrev pub started : State
started = record {
  local_queue = [];
  sched_queue = [];
  tasks = task_of 1 ∷ task_of 2 ∷ task_of 3 ∷ [];
  scheduled_tasks = task_of 1 ∷ [];
  finished_tasks = [];
  succeeded_tasks = [];
  succeeded_nontrivial_tasks = [];
  sched_epoch = 0;
  sched_running = true;
  commands = [];
}

pub planned : (k : ℕ) → row.member k ≡ true → IsPlanned row (task_of k)
planned k h = record { known = h; keyed = refl; before = refl; after = refl }

pub started-IsSound : IsSound row started
started-IsSound = record {
  planned = (planned 1 refl, (planned 2 refl, (planned 3 refl, tt)));
  present = λ k m. ground arith;
  succeeded = tt;
  settled = (λ h. absurd (cc), (λ h. absurd (cc), (λ h. absurd (cc), tt)));
  scheduled = ((planned 1 refl, refl), tt);
  distinct = (refl, tt);
}

abbrev succeeded_first : Task
succeeded_first = record (task_of 1) {
  work = record (item 1) { status = succeed; retry_count = 1 };
}

abbrev crashed_first : Task
crashed_first = record (task_of 1) {
  work = record (item 1) { status = crashed; exception = some out_of_memory };
}

abbrev executor : Origin
executor = record { exec_id = 7; is_local = false; memory_size = 150 }

abbrev results : List (Origin × Task)
results = (executor, crashed_first) ∷ (executor, succeeded_first) ∷ (executor, crashed_first) ∷ []

-- The keys of the tasks in the queue, and how many results count.
abbrev pub keys_in : List Task → List ℕ
keys_in [] = []
keys_in (t ∷ ts) = key_of t ∷ keys_in ts

abbrev summary : Result (State × ℕ) → List ℕ × ℕ
summary (ok (s, n)) = (keys_in s.sched_queue, n)
summary (raise error) = ([], 0)

processed : summary (process_finished config results started) ≡ (1 ∷ 2 ∷ [], 2)
unfolding process_finished handle_finished handle_final handle_failure handle_success failed_once
    stop_after_failure record_success copy_task_for_execution get_runnable_tasks put_in_queue
    enqueue_copied enqueue_one try_enqueue_on try_enqueue get_retry_task try_relax_memory_limit
    save_task_final_state oom
processed = refl

succeeded-IsReturned : IsReturned row succeeded_first
succeeded-IsReturned = record {
  planned = record { known = refl; keyed = refl; before = refl; after = refl };
  begun = λ h. absurd (cc);
}

crashed-IsReturned : IsReturned row crashed_first
crashed-IsReturned = record {
  planned = record { known = refl; keyed = refl; before = refl; after = refl };
  begun = λ h. absurd (cc);
}

process_finished_total_example :
    (s' : State) × (n : ℕ) × (process_finished config results started ≡ ok (s', n))
    × IsSound row s'
    × ((k : ℕ) (t : Task)
        → find_task k started.succeeded_tasks ≡ some t
        → find_task k s'.succeeded_tasks ≡ some t)
    × (n ≤ length results)
process_finished_total_example =
    process_finished_total row row-IsAcyclic config (omega arith) results started started-IsSound
      (crashed-IsReturned, (succeeded-IsReturned, (crashed-IsReturned, tt)))

handle_finished_twice_example :
    (s' : State) × (n : ℕ) × (handle_finished config executor crashed_first started ≡ ok (s', n))
    × (handle_finished config executor crashed_first s' ≡ ok (s', 0))
handle_finished_twice_example =
    handle_finished_twice row row-IsAcyclic config (omega arith) executor executor crashed_first
      started started-IsSound crashed-IsReturned (λ h. absurd (cc))

handle_success_total_example :
    (s' : State) × (handle_success config succeeded_first started ≡ ok s')
    × IsRecorded row succeeded_first (task_of 1) started s'
handle_success_total_example =
    handle_success_total row row-IsAcyclic config (omega arith) succeeded_first (task_of 1) started
      started-IsSound succeeded-IsReturned.planned refl refl

handle_failure_total_example :
    (s' : State) × (f : Task) × (handle_failure config executor crashed_first started ≡ ok s')
    × IsCounted (task_of 1) f
    × (find_task 1 s'.tasks ≡ some (retry f))
    × IsHandled s' (retry f)
    × IsSound row s'
    × (s'.succeeded_tasks ≡ started.succeeded_tasks)
    × (s'.finished_tasks ≡ started.finished_tasks)
    × (4 < f.work.fail_count → s'.sched_running ≡ false)
handle_failure_total_example =
    handle_failure_total row row-IsAcyclic config (omega arith) executor crashed_first (task_of 1)
      started started-IsSound (crashed-IsReturned.planned, refl) refl refl

try_enqueue_total_example :
    Enqueues row (try_enqueue config (task_of 1 ∷ []) started) started (task_of 1 ∷ [])
try_enqueue_total_example =
    try_enqueue_total row config row-IsAcyclic (omega arith) (task_of 1 ∷ []) started
      started-IsSound ((planned 1 refl, refl), tt)
