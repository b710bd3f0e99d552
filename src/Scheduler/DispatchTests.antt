-- ===== src/Scheduler/DispatchTests.antt =====
-- An executor with sixteen cores that is offered a work, and the theorem about dispatch there.
use smallpond.Prelude.{ℕ, ◌≡◌, refl, Bool, true, none, List, [], Result, ok, raise, arith}
use smallpond.Work.{WorkItem, succeed}
use smallpond.Work.Samples.{item}
use smallpond.Queue
use smallpond.Queue.{Entry, in_memory}
use smallpond.Remote.{RemoteExecutor, good, fresh_probe, init, add_running_work, push}
use smallpond.Scheduler.Dispatch.{
  try_boost_resource, default_memory_limit, fits, assign_limited, assign_item,
}
use smallpond.Scheduler.Capacity.{IsWithin}

abbrev pub executor : RemoteExecutor (List Entry)
executor = record (init 1 (record { outbound_works = []; backend = [] }) 0) {
  state = good;
  last_acked_probe = record {
    info = record (fresh_probe 5) { cpu_count = 16; total_memory = 1000 };
    status = succeed;
  };
}

abbrev work : WorkItem
work = record (item 3) { base_cpu_limit = 2; base_memory_limit = none }

pub executor-IsWithin : IsWithin executor
unfolding init
executor-IsWithin = record {
  cpus = omega arith;
  gpus = omega arith;
  memory = omega arith;
  works = omega arith;
}

-- The cores and the memory that an executor counts as allocated after it took an item.
abbrev allocated : Result (WorkItem × RemoteExecutor (List Entry) × Bool) → ℕ × ℕ
allocated (ok (limited, e, taken)) = (e.allocated_cpus, e.allocated_memory)
allocated (raise error) = (0, 0)

boosted : allocated (assign_item in_memory true true work executor) ≡ (4, 250)
unfolding assign_item assign_limited default_memory_limit fits try_boost_resource push
    add_running_work init Queue.push
boosted = refl
