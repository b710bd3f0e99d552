-- ===== src/Scheduler/Recover.antt =====
-- smallpond/execution/scheduler.py: what becomes of the tasks on an executor that fails or is slow,
-- `update_executor_states` and `start_speculative_execution`. The running works of an executor may
-- include the `StopExecutor` that `RemoteExecutor.stop` pushes, which is no task.
use smallpond.Prelude.{
  ℕ, ◌+◌, ◌-◌, ◌*◌, max, Bool, false, not, ◌&&◌, List, [], ◌∷◌, map, Option, none, some, length,
  ltb, leb, ◌==◌, if◌then◌else◌, Result, ok, ◌>>=◌, of_option, key_error,
}
use smallpond.Work.{WorkItem, exec_failed, task, plain, probe, stop_executor, stop_work_item}
use smallpond.Remote.{RemoteExecutor, fail, same_state, alive, update_state}
use smallpond.Scheduler.{
  Task, key_of, Config, State, find_task, has_task, for_each, try_enqueue, get_retry_task,
}

-- `self.try_enqueue(self.get_retry_task(key))`
unfoldable pub retry_task : Config → ℕ → State → Result State
unfolding get_retry_task try_enqueue
retry_task cfg key s = do
  (retried, counted) ← get_retry_task key s
  try_enqueue cfg (retried ∷ []) counted

unfoldable pub reschedule : Config → Task → State → Result State
unfolding retry_task
reschedule cfg t s =
    if has_task (key_of t) s.succeeded_tasks then ok s else retry_task cfg (key_of t) s

abbrev pub set_exec_failed : WorkItem → WorkItem
set_exec_failed w = record w { status = exec_failed }

-- `isinstance(item, Task)`: the item, as a task.
unfoldable pub as_task : WorkItem → Option Task
as_task w = elim w.kind [
  | task info ↦ some (record { work = w; info = info })
  | plain ↦ none
  | probe info ↦ none
  | stop_executor ack ↦ none
  | stop_work_item key ↦ none
]

unfoldable pub reschedule_work : Config → WorkItem → State → Result State
unfolding reschedule as_task
reschedule_work cfg w s = elim (as_task w) [ none ↦ ok s | some t ↦ reschedule cfg t s ]

module _ {Q : Type 0} where
  abbrev pub newly_failed : RemoteExecutor Q → RemoteExecutor Q → Bool
  newly_failed before after =
      same_state after.state fail && not (same_state after.state before.state)

  abbrev pub fail_works : RemoteExecutor Q → RemoteExecutor Q
  fail_works e = record e { running_works = map set_exec_failed e.running_works }

  unfoldable pub update_one :
      Config → ℕ → ℕ → RemoteExecutor Q → State → Result (RemoteExecutor Q × State)
  unfolding update_state reschedule_work
  update_one cfg max_missed epoch e s =
      let after = (update_state max_missed epoch e).0 in
      if newly_failed e after
      then (for_each (reschedule_work cfg) after.running_works s >>= λ s'.
          ok (fail_works after, s'))
      else ok (after, s)

  -- `update_executor_states`, over the remote executors.
  unfoldable pub update_executor_states :
      Config → ℕ → ℕ → List (RemoteExecutor Q) → State → Result (List (RemoteExecutor Q) × State)
  unfolding update_one
  update_executor_states cfg max_missed epoch [] s = ok ([], s)
  update_executor_states cfg max_missed epoch (e ∷ es) s = do
    (e', s') ← if alive e then update_one cfg max_missed epoch e s else ok (e, s)
    (es', s'') ← update_executor_states cfg max_missed epoch es s'
    ok (e' ∷ es', s'')

-- Times are counted in a fixed fraction of a second.
pub record PerfStats : Type 0 where
  pub cnt : ℕ
  pub p50 : ℕ
  pub p95 : ℕ
  pub p99 : ℕ

-- The settings, the statistics of a logical node, and the clock.
pub record Speculation : Type 0 where
  pub aggressive : Bool
  pub num_executors : ℕ
  pub probe_timeout : ℕ
  pub max_retry_count : ℕ
  pub perf_stats : ℕ → Option PerfStats
  pub allowed : Task → Bool
  pub elapsed_time : Task → ℕ

module _ (cfg : Config) (spec : Speculation) (num_good : ℕ) where
  -- No difference is negative where it counts: a percentile is no less than a lower one.
  abbrev pub retry_threshold : Task → PerfStats → State → ℕ
  retry_threshold item stats s =
      if ltb (length s.sched_queue) num_good
      then max spec.probe_timeout (stats.p95 - stats.p50)
      else if spec.aggressive && leb spec.num_executors num_good
      then max spec.probe_timeout (stats.p99 - stats.p50)
      else max spec.probe_timeout (stats.p99 - stats.p50) * (2 + item.work.retry_count)

  abbrev pub is_overdue : Task → State → Bool
  is_overdue item s = elim (spec.perf_stats item.info.node_id) [
    | none ↦ false
    | some stats ↦
        leb 20 stats.cnt && leb (retry_threshold item stats s + stats.p50) (spec.elapsed_time item)
  ]

  unfoldable pub speculate : Task → State → Result State
  unfolding retry_task
  speculate item s =
      if not (has_task (key_of item) s.succeeded_tasks)
        && (spec.allowed item && ltb item.work.retry_count spec.max_retry_count)
      then (do
        t ← of_option key_error (find_task (key_of item) s.tasks)
        if (item.work.retry_count == t.work.retry_count) && is_overdue item s
            then retry_task cfg (key_of item) s
            else ok s)
      else ok s

  -- The items are the tasks among the running works of the working executors, in order.
  unfoldable pub start_speculative_execution : List Task → State → Result State
  unfolding speculate
  start_speculative_execution items s = for_each speculate items s
