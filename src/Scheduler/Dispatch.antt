-- ===== src/Scheduler/Dispatch.antt =====
-- smallpond/execution/scheduler.py, `try_boost_resource` and the choice that `dispatch_tasks` makes
-- for the first item of the queue and an executor that is not busy.
use smallpond.Prelude.{
  ℕ, ◌+◌, ◌-◌, ◌*◌, ◌/◌, min, max, Bool, true, false, not, ◌&&◌, ◌||◌, none, some, length, ltb, leb,
  ◌==◌, if◌then◌else◌, Result, ok, raise, ◌>>=◌, zero_division_error,
}
use smallpond.Work.{WorkItem, cpu_limit, gpu_limit, memory_limit}
use smallpond.Queue.{Backend}
use smallpond.Remote.{
  RemoteExecutor, cpu_count, gpu_count, memory_size, max_running_works, is_running, push,
}

-- `max(limit, min(limit * 2, available, count // 2))`
abbrev pub boosted_limit : ℕ → ℕ → ℕ → ℕ
boosted_limit limit available count = max limit (min (limit * 2) (min available (count / 2)))

abbrev pub base_memory : WorkItem → ℕ
base_memory item = elim item.base_memory_limit [ none ↦ 0 | some limit ↦ limit ]

abbrev pub is_unboosted : WorkItem → Bool
is_unboosted item =
    elim item.cpu_boost [ none ↦ true | some b ↦ b == item.base_cpu_limit ]
    && elim item.memory_boost [ none ↦ true | some b ↦ b == base_memory item ]

module _ {Q : Type 0} where
  abbrev pub available_cpus : RemoteExecutor Q → ℕ
  available_cpus e = cpu_count e - e.allocated_cpus

  abbrev pub available_memory : RemoteExecutor Q → ℕ
  available_memory e = memory_size e - e.allocated_memory

  abbrev pub boost_cpu : WorkItem → RemoteExecutor Q → ℕ
  boost_cpu item e = boosted_limit item.base_cpu_limit (available_cpus e) (cpu_count e)

  abbrev pub boost_mem : WorkItem → RemoteExecutor Q → ℕ
  boost_mem item e = boosted_limit (base_memory item) (available_memory e) (memory_size e)

  -- `enabled`: the item is a task of a logical node whose resource boost is enabled.
  abbrev pub can_boost : Bool → WorkItem → RemoteExecutor Q → Bool
  can_boost enabled item e =
      is_unboosted item
      && (enabled
          && (ltb item.base_cpu_limit (boost_cpu item e)
              || ltb (base_memory item) (boost_mem item e)))

  -- The source divides by both limits. The memory limit is an `int64` of numpy, whose quotient by 0
  -- raises nothing; a limit of 0 stays 0 with any boost.
  unfoldable pub try_boost_resource : Bool → WorkItem → RemoteExecutor Q → Result WorkItem
  try_boost_resource enabled item e =
      if can_boost enabled item e
      then if item.base_cpu_limit == 0
        then raise zero_division_error
        else ok (record item {
          cpu_boost = some (boost_cpu item e);
          memory_boost = some (boost_mem item e);
        })
      else ok item

  -- A share of the executor's memory for an item without a limit.
  unfoldable pub default_memory_limit : WorkItem → RemoteExecutor Q → Result WorkItem
  default_memory_limit item e = elim item.base_memory_limit [
    | some limit ↦ ok item
    | none ↦
        if cpu_count e == 0
        then raise zero_division_error
        else ok (record item {
          base_memory_limit = some (memory_size e * item.base_cpu_limit / cpu_count e);
        })
  ]

  unfoldable pub fits : WorkItem → RemoteExecutor Q → Bool
  fits item e =
      ltb (length e.running_works) (max_running_works e)
      && (leb (e.allocated_cpus + cpu_limit item) (cpu_count e)
          && (leb (e.allocated_gpus + gpu_limit item) (gpu_count e)
              && (leb (e.allocated_memory + memory_limit item) (memory_size e)
                  && not (is_running item.key e.running_works))))

  abbrev pub in_final_phase : Bool → Bool → WorkItem → RemoteExecutor Q → Result WorkItem
  in_final_phase final_phase enabled item e =
      if final_phase then try_boost_resource enabled item e else ok item

  -- The branch for an item with a limit.
  unfoldable pub assign_limited :
      Backend Q → Bool → Bool → WorkItem → RemoteExecutor Q → Result (RemoteExecutor Q × Bool)
  unfolding try_boost_resource fits push
  assign_limited b final_phase enabled item e =
      if fits item e
      then (do
        boosted ← in_final_phase final_phase enabled item e
        (after, pushed) ← push b boosted true e
        ok (after, true))
      else ok (e, false)

  -- An item that has not succeeded: the item with its limit, the executor, and whether that takes
  -- the item.
  unfoldable pub assign_item :
      Backend Q
      → Bool
      → Bool
      → WorkItem
      → RemoteExecutor Q
      → Result (WorkItem × RemoteExecutor Q × Bool)
  unfolding assign_limited default_memory_limit
  assign_item b final_phase enabled item e = do
    limited ← default_memory_limit item e
    (after, taken) ← assign_limited b final_phase enabled limited e
    ok (limited, after, taken)
