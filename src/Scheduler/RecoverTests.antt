-- ===== src/Scheduler/RecoverTests.antt =====
-- A queue of three nodes put in order, and an executor that misses its probes while it runs a task.
use mathlib.Core.List.{Perm}
use smallpond.Prelude.{ℕ, ◌≡◌, refl, true, List, [], ◌∷◌, map, Result, ok, raise, All, arith}
use smallpond.Queue.{Entry}
use smallpond.Work.{task, stop_executor}
use smallpond.Remote.{RemoteExecutor, control_item, update_state, init}
use smallpond.Scheduler.{
  Task, State, copy_task_for_execution, get_runnable_tasks, put_in_queue, enqueue_copied,
  enqueue_one, try_enqueue_on, try_enqueue, get_retry_task,
}
use smallpond.Scheduler.Order.{order_queue}
use smallpond.Scheduler.Turns.{order_queue-Perm}
use smallpond.Scheduler.Recover.{
  retry_task, as_task, reschedule, reschedule_work, update_one, update_executor_states,
}
use smallpond.Scheduler.Plan.{IsPlanned}
use smallpond.Scheduler.Recovery.{IsKept}
use smallpond.Scheduler.Rescue.{updated, IsRescued, update_executor_states_total}
use smallpond.Scheduler.Tests.{
  row, row-IsAcyclic, task_of, config, started, started-IsSound, keys_in,
}
use smallpond.Scheduler.DispatchTests.{executor}

abbrev on_node : ℕ → ℕ → Task
on_node k n = record (task_of k) { info = record (task_of k).info { node_id = n } }

abbrev retried : Task
retried = record (on_node 4 1) { work = record (task_of 4).work { retry_count = 1 } }

abbrev queue : List Task
queue = on_node 1 1 ∷ on_node 2 2 ∷ on_node 3 1 ∷ retried ∷ on_node 5 3 ∷ []

ordered_test : keys_in (order_queue true queue) ≡ 4 ∷ 2 ∷ 5 ∷ 1 ∷ 3 ∷ []
unfolding order_queue
ordered_test = refl

order_queue-Perm_example : Perm (order_queue true queue) queue
order_queue-Perm_example = order_queue-Perm true queue

abbrev run : Task
run = record (task_of 1) { work = record (task_of 1).work { kind = task (task_of 1).info } }

planned_run : IsPlanned row run
planned_run = record { known = refl; keyed = refl; before = refl; after = refl }

-- An executor that was asked to stop and still runs a task.
abbrev hosts : List (RemoteExecutor (List Entry))
unfolding init
hosts =
    record executor { running_works = run.work ∷ control_item 99 (stop_executor true) ∷ [] } ∷ []

-- The keys in the queue after the update.
abbrev queue_after : Result (List (RemoteExecutor (List Entry)) × State) → List ℕ
queue_after (ok (hs, s)) = keys_in s.sched_queue
queue_after (raise error) = []

rescued_test : queue_after (update_executor_states config 3 9 hosts started) ≡ 1 ∷ []
unfolding hosts as_task update_executor_states update_one reschedule_work reschedule retry_task
    update_state get_retry_task try_enqueue try_enqueue_on enqueue_one enqueue_copied put_in_queue
    get_runnable_tasks copy_task_for_execution init
rescued_test = refl

update_executor_states_total_example :
    (s' : State) × (update_executor_states config 3 9 hosts started
      ≡ ok (map (updated 3 9) hosts, s'))
    × IsKept row started s'
    × All (IsRescued 3 9 s') hosts
unfolding hosts as_task
update_executor_states_total_example =
    update_executor_states_total row row-IsAcyclic config (omega arith) 3 9 hosts started
      started-IsSound (((planned_run, refl), tt), tt)
