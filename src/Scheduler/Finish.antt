-- ===== src/Scheduler/Finish.antt =====
-- smallpond/execution/scheduler.py, the body of the loop of `process_finished_tasks`. The inputs of
-- a finished task, which nothing reads, are kept; writing a failed task to disk is left out.
use smallpond.Prelude.{
  ℕ, ◌+◌, Bool, false, not, ◌&&◌, ◌||◌, List, [], ◌∷◌, ◌++◌, Option, none, some, ltb, ◌==◌,
  if◌then◌else◌, Result, ok, ◌>>=◌, ◌>>◌, guard, of_option, key_error, assertion_error,
}
use smallpond.Work.{incomplete, succeed, failed, crashed, same_status, oom}
use smallpond.Scheduler.{
  Task, key_of, runtime_id, Command, stop_executors, stop_one, stop_running, Config, State, Origin,
  find_task, has_task, has_run, modify_task, all_done, get_runnable_tasks, try_enqueue,
  get_retry_task, try_relax_memory_limit, save_task_final_state,
}

-- The state with a task of the plan replaced.
abbrev pub set_task : ℕ → Task → State → State
set_task key t s = record s { tasks = modify_task key (λ _. t) s.tasks }

abbrev pub tell : Command → State → State
tell c s = record s { commands = s.commands ++ c ∷ [] }

abbrev pub note : Task → State → State
note finished s = record s { finished_tasks = s.finished_tasks ++ finished ∷ [] }

-- A task that the scheduler has no record of, and that has not succeeded and cannot run.
abbrev pub unexpected : Task → State → Bool
unexpected finished s =
    not (has_run (runtime_id finished) s.scheduled_tasks)
    && (not (same_status finished.work.status succeed)
        && not (all_done finished.info.input_deps s.succeeded_tasks))

abbrev pub count_failure : Task → Task
count_failure t = record t { work = record t.work { fail_count = t.work.fail_count + 1 } }

-- `if task._memory_limit is None: task._memory_limit = finished_task._memory_limit`
abbrev pub bind_memory_limit : Task → Task → Task
bind_memory_limit finished t = elim t.work.base_memory_limit [
  | some limit ↦ t
  | none ↦ record t { work = record t.work { base_memory_limit = finished.work.base_memory_limit } }
]

-- Record the success of a task that had none before.
unfoldable pub record_success : Task → State → State
record_success finished s = record s {
  succeeded_tasks = s.succeeded_tasks ++ finished ∷ [];
  succeeded_nontrivial_tasks =
      if finished.info.exec_on_scheduler
      then s.succeeded_nontrivial_tasks
      else s.succeeded_nontrivial_tasks ++ finished ∷ [];
  commands = s.commands ++ stop_running (key_of finished) ∷ [];
}

abbrev pub set_runtime_state : Option ℕ → Task → Task
set_runtime_state r t = record t { info = record t.info { runtime_state = r } }

module _ (cfg : Config) where
  -- The task of the plan after a failure: one failure more, and more memory if it ran out of it.
  unfoldable pub failed_once : Origin → Task → Task → Result Task
  unfolding try_relax_memory_limit oom
  failed_once origin finished t =
      let counted = count_failure t in
      if not origin.is_local && oom cfg.nonzero_exitcode_as_oom finished.work
      then try_relax_memory_limit (bind_memory_limit finished counted) origin.memory_size
      else ok counted

  -- Stop the job after too many failures, and the executor if a failure stops it.
  unfoldable pub stop_after_failure : Origin → Task → State → State
  stop_after_failure origin counted s =
      let stopped =
        if ltb cfg.max_fail_count counted.work.fail_count
        then tell stop_executors (record s { sched_running = false })
        else s in
      if not origin.is_local && cfg.stop_executor_on_failure
      then tell (stop_one origin.exec_id) stopped
      else stopped

  unfoldable pub handle_failure : Origin → Task → State → Result State
  unfolding failed_once stop_after_failure get_retry_task
  handle_failure origin finished s = do
    t ← of_option key_error (find_task (key_of finished) s.tasks)
    failed_task ← failed_once origin finished t
    let after =
        set_task (key_of finished) failed_task (stop_after_failure origin (count_failure t) s)
    (retried, counted) ← get_retry_task (key_of finished) after
    try_enqueue cfg (retried ∷ []) counted

  unfoldable pub handle_success : Task → State → Result State
  unfolding record_success save_task_final_state get_runnable_tasks
  handle_success finished s = do
    t ← of_option key_error (find_task (key_of finished) s.tasks)
    let saved =
        set_task (key_of finished) (save_task_final_state finished t) (record_success finished s)
    runnable ← get_runnable_tasks finished saved
    enqueued ← try_enqueue cfg runnable saved
    ok (
        if finished.info.id == cfg.root_task_id
        then tell stop_executors (record enqueued { sched_queue = [] })
        else enqueued)

  -- What is left to do with a finished task that is neither ignored nor a checkpoint.
  unfoldable pub handle_final : Origin → Task → State → Result (State × ℕ)
  unfolding handle_failure handle_success
  handle_final origin finished s =
      let noted = note finished s in
      if has_run (runtime_id finished) s.finished_tasks
      then ok (s, 0)
      else if has_task (key_of finished) s.succeeded_tasks
      then ok (noted, 1)
      else if same_status finished.work.status failed || same_status finished.work.status crashed
      then (do after ← handle_failure origin finished noted; ok (after, 1))
      else (do
        guard (same_status finished.work.status succeed) assertion_error
        after ← handle_success finished noted
        ok (after, 1))

  -- The state, and whether the task counts as finished.
  unfoldable pub handle_finished : Origin → Task → State → Result (State × ℕ)
  unfolding handle_final
  handle_finished origin finished s =
      if unexpected finished s
      then ok (s, 0)
      else if same_status finished.work.status incomplete
      then (do
        t ← of_option key_error (find_task (key_of finished) s.tasks)
        ok (set_task (key_of finished) (set_runtime_state finished.info.runtime_state t) s, 0))
      else handle_final origin finished s

  -- `process_finished_tasks`, for the tasks that the executors' `pop` returned, in order.
  unfoldable pub process_finished : List (Origin × Task) → State → Result (State × ℕ)
  unfolding handle_finished
  process_finished [] s = ok (s, 0)
  process_finished ((origin, finished) ∷ rest) s = do
    (after, n) ← handle_finished origin finished s
    (last, m) ← process_finished rest after
    ok (last, n + m)
