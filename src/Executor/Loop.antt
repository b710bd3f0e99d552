-- ===== src/Executor/Loop.antt =====
-- smallpond/execution/executor.py, `exec_loop` of `Executor`. What each round meets is an argument, and
-- so is what `multiprocessing` does when a process is terminated, which may not have started yet.
use smallpond.Prelude.{
  ℕ, ◌+◌, ◌-◌, ◌*◌, Bool, true, false, List, [], ◌∷◌, ◌++◌, Option, none, some, length, ltb,
  if◌then◌else◌, Result, ok, raise, ◌>>=◌, ◌>>◌, attribute_error, out_of_fuel,
}
use smallpond.Work.{
  WorkItem, Kind, plain, task, probe, stop_executor, stop_work_item, ProbeInfo, gpu_limit, Hooks,
  returns, exec, item_of,
}
use smallpond.Queue.{Backend}
use smallpond.Executor.{GpuQuota}
use smallpond.Executor.Pool.{Exits, has_started, apply_async, update_queue}
use smallpond.Executor.Collect.{
  Running, Executor, find_running, set_running, push_completed, collect_finished_works,
  wait_for_gpus,
}

-- What a round of the loop meets.
pub record Tick : Type 0 where
  pub items : Option (List WorkItem)
  pub gives_up : Bool
  pub polls : ℕ → List Exits
  pub now : Exits
  pub later : Exits

-- The hooks of an item without methods of its own.
abbrev pub plain_hooks : Hooks
plain_hooks = record { initialize = none; run = returns true; finalize = none; cleanup = none }

abbrev pub is_stop : Option WorkItem → Bool
is_stop none = false
is_stop (some item) = true

-- How many probes are still to be skipped, and whether this one is.
abbrev pub skip_probe : ProbeInfo → ℕ → ℕ × Bool
skip_probe info epochs_to_skip =
    let to_skip = epochs_to_skip + info.epochs_to_skip in
    if ltb 0 to_skip then (to_skip - 1, true) else (to_skip, false)

module _ {Q : Type 0} where
  abbrev pub terminate_work : Result (Unit {0}) → ℕ → Executor Q → Result (Executor Q)
  terminate_work terminated t e = do
    terminated
    ok (record e { pool = record e.pool { stopping = e.pool.stopping ++ t ∷ [] } })

module _ {Q : Type 0} (b : Backend Q) where
  abbrev pub stop_work :
      (Bool → Result (Unit {0})) → WorkItem → Option Running → Executor Q → Result (Executor Q)
  unfolding push_completed
  stop_work terminate item none e = push_completed b item e
  stop_work terminate item (some r) e =
      terminate_work (terminate (has_started r.pool_task e.pool.started)) r.pool_task e

module _ {Q : Type 0} (b : Backend Q) (unit : ℕ) where
  -- `gpu_limit` is a property that cannot be set, so lowering the limit to the GPUs there are raises.
  unfoldable pub grant_gpus :
      (ℕ → List Exits) → WorkItem → Executor Q → Result (List GpuQuota × Executor Q)
  unfolding wait_for_gpus
  grant_gpus polls item e =
      if ltb 0 (gpu_limit item)
      then if ltb (length e.local_gpus * unit) (gpu_limit item)
        then raise attribute_error
        else wait_for_gpus b unit (polls item.key) (gpu_limit item) e
      else ok ([], e)

  unfoldable pub start_work : (ℕ → List Exits) → WorkItem → Executor Q → Result (Executor Q)
  unfolding grant_gpus apply_async
  start_work polls item e = do
    (granted, e') ← grant_gpus polls item e
    let (t, pool) = apply_async e'.pool
    ok (record e' {
      pool = pool;
      running_works =
          set_running (record { pool_task = t; item = item; local_gpu = granted }) e'.running_works;
    })

  -- An item, by its class: the executor, and the request to stop if the item is one.
  unfoldable pub handle_kind :
      (Bool → Result (Unit {0}))
      → (ℕ → List Exits)
      → Kind
      → WorkItem
      → Executor Q
      → Result (Executor Q × Option WorkItem)
  unfolding start_work
  handle_kind terminate polls (stop_executor ack) item e =
      ok (record e { is_running = false }, some item)
  handle_kind terminate polls (stop_work_item key) item e = do
    e' ← stop_work b terminate item (find_running key e.running_works) e
    ok (e', none)
  handle_kind terminate polls (probe info) item e = do
    let (left, skipped) = skip_probe info e.epochs_to_skip
    let counted = record e { epochs_to_skip = left }
    let started = start_work polls item counted
    e' ← if skipped then ok counted else started
    ok (e', none)
  handle_kind terminate polls (task info) item e = do e' ← start_work polls item e; ok (e', none)
  handle_kind terminate polls plain item e = do e' ← start_work polls item e; ok (e', none)

  -- The loop over the items, which a request to stop ends.
  unfoldable pub handle_items :
      (Bool → Result (Unit {0}))
      → (ℕ → List Exits)
      → List WorkItem
      → Executor Q
      → Result (Executor Q × Option WorkItem)
  unfolding handle_kind
  handle_items terminate polls [] e = ok (e, none)
  handle_items terminate polls (item ∷ items) e = do
    (e', stop) ← handle_kind terminate polls item.kind item e
    let rest = handle_items terminate polls items e'
    if is_stop stop then ok (e', stop) else rest

  -- One round of `exec_loop` that has items, or finds no reason to stop without any.
  unfoldable pub exec_round :
      (Bool → Result (Unit {0}))
      → (pool_size : ℕ) → (ℕ → List Exits)
      → (now later : Exits) → List WorkItem
      → Executor Q
      → Result (Executor Q × Option WorkItem)
  unfolding handle_items update_queue collect_finished_works
  exec_round terminate pool_size polls now later items e = do
    (e', stop) ← handle_items terminate polls items e
    e'' ←
        collect_finished_works b unit later
          (record e' { pool = update_queue pool_size now e'.pool })
    ok (e'', stop)

  -- The items of a round; `none` is a work queue that cannot be read. Without items the time since the
  -- last probe, or the status of the job, may be a reason to give up, which skips the rest.
  unfoldable pub exec_tick :
      (Bool → Result (Unit {0}))
      → (pool_size : ℕ) → Tick
      → Option (List WorkItem)
      → Executor Q
      → Result (Executor Q × Option WorkItem)
  unfolding exec_round
  exec_tick terminate pool_size tick (some (item ∷ items)) e =
      exec_round terminate pool_size tick.polls tick.now tick.later (item ∷ items) e
  exec_tick terminate pool_size tick (some []) e =
      if tick.gives_up
      then ok (record e { is_running = false }, none)
      else exec_round terminate pool_size tick.polls tick.now tick.later [] e
  exec_tick terminate pool_size tick none e =
      let failed = record e { is_running = false } in
      if tick.gives_up
      then ok (failed, none)
      else exec_round terminate pool_size tick.polls tick.now tick.later [] failed

  -- `while self.running`, over what its rounds meet.
  unfoldable pub exec_rounds :
      (Bool → Result (Unit {0}))
      → (pool_size : ℕ) → List Tick
      → Executor Q
      → Result (Executor Q × Option WorkItem)
  unfolding exec_tick
  exec_rounds terminate pool_size [] e = if e.is_running then raise out_of_fuel else ok (e, none)
  exec_rounds terminate pool_size (tick ∷ ticks) e =
      let next = exec_tick terminate pool_size tick tick.items e >>= λ (e', stop).
      let rest = exec_rounds terminate pool_size ticks e' in
      if is_stop stop then ok (e', stop) else rest in
      if e.is_running then next else ok (e, none)

  abbrev pub asks_for_ack : Kind → Bool
  asks_for_ack (stop_executor ack) = ack
  asks_for_ack kind = false

  -- What is left to do after the loop and the join of the pool.
  unfoldable pub finish : Exits → Option WorkItem → Executor Q → Result (Executor Q)
  unfolding collect_finished_works push_completed exec
  finish exits none e = ok e
  finish exits (some stop) e =
      if asks_for_ack stop.kind
      then (do
        e' ← collect_finished_works b unit exits e
        push_completed b (item_of (exec plain_hooks stop)) e')
      else ok e

  unfoldable pub exec_loop :
      (Bool → Result (Unit {0}))
      → (pool_size : ℕ) → List Tick
      → (joined : Exits) → Executor Q
      → Result (Executor Q)
  unfolding exec_rounds finish
  exec_loop terminate pool_size ticks joined e = do
    (e', stop) ← exec_rounds terminate pool_size ticks e
    finish joined stop e'
