-- ===== src/Scheduler/LoopTests.antt =====
-- Dispatching the tasks of a plan of three tasks in a row to an executor with sixteen cores.
use smallpond.Prelude.{◌≡◌, ℕ, refl, true, List, [], ◌∷◌, map, Result, ok, raise, arith}
use smallpond.Work.{WorkItem, succeed}
use smallpond.Queue
use smallpond.Queue.{Entry, in_memory, make_batch, in_memory_push}
use smallpond.Remote.{RemoteExecutor, init, busy}
use smallpond.Scheduler.{key_of, State}
use smallpond.Scheduler.Plan.{IsSound}
use smallpond.Scheduler.Given.{Ends}
use smallpond.Scheduler.Loop.{dispatch_tasks}
use smallpond.Scheduler.Complete.{Accepts, IsDispatched, dispatch_tasks_total}
use smallpond.Scheduler.Tests.{row, row-IsAcyclic, task_of, config, started, started-IsSound}
use smallpond.Scheduler.DispatchTests.{executor, executor-IsWithin}

abbrev waiting : State
waiting = record started { sched_queue = task_of 1 ∷ [] }

-- The first task has succeeded elsewhere while a retry of it was queued.
abbrev retried : State
retried = record waiting {
  succeeded_tasks = record (task_of 1) { work = record (task_of 1).work { status = succeed } } ∷ [];
}

abbrev work_key : WorkItem → ℕ
work_key w = w.key

-- The works that run on the executor, and the tasks that are left in the queue.
abbrev outcome :
    Result (List (RemoteExecutor (List Entry)) × State × ℕ) → List (List ℕ) × List ℕ × ℕ
outcome (ok (es, s, n)) = (map (λ e. map work_key e.running_works) es, map key_of s.sched_queue, n)
outcome (raise error) = ([], [], 0)

waiting-IsSound : IsSound row waiting
waiting-IsSound = record {
  planned = started-IsSound.planned;
  present = started-IsSound.present;
  succeeded = started-IsSound.succeeded;
  settled = started-IsSound.settled;
  scheduled = started-IsSound.scheduled;
  distinct = started-IsSound.distinct;
}

in_memory-Accepts : Accepts in_memory
unfolding in_memory_push
in_memory-Accepts entry q = refl

dispatched :
    outcome (dispatch_tasks in_memory config true (λ t. true) 3 0 4 (executor ∷ []) waiting)
    ≡ ((1 ∷ []) ∷ [], [], 1)
unfolding dispatch_tasks busy init Queue.push in_memory_push
dispatched = refl

-- The task behind the one that has succeeded is queued, and given out in the next round.
succeeded_skipped :
    outcome (dispatch_tasks in_memory config true (λ t. true) 3 0 4 (executor ∷ []) retried)
    ≡ ((2 ∷ []) ∷ [], [], 1)
unfolding dispatch_tasks busy init Queue.push in_memory_push
succeeded_skipped = refl

dispatch_tasks_total_example :
    Ends
      (dispatch_tasks in_memory config true (λ t. true) 3 0 3 (executor ∷ []) waiting)
      (λ (es', s', n). IsDispatched row (executor ∷ []) es' waiting s')
dispatch_tasks_total_example =
    dispatch_tasks_total row config in_memory row-IsAcyclic (omega arith) in_memory-Accepts true
      (λ t. true) 3 0 3 (executor ∷ []) waiting waiting-IsSound (executor-IsWithin, tt)
      (omega arith) (omega arith)
