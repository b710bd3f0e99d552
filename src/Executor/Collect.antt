-- ===== src/Executor/Collect.antt =====
-- smallpond/execution/executor.py, the running works of `Executor`, how finished ones are collected and
-- how an item waits for GPUs. The keys of `running_works` are those of the items, and the GPUs
-- granted to an item stand beside it.
use smallpond.Prelude.{
  ℕ, zero, suc, Bool, false, List, [], ◌∷◌, Option, none, some, ◌==◌, if◌then◌else◌, Result, ok,
  raise, ◌>>=◌, out_of_fuel,
}
use smallpond.Work.{WorkItem, crashed, nonzero_exit_code}
use smallpond.Queue
use smallpond.Queue.{WorkQueue, Backend}
use smallpond.Executor.{GpuQuota, acquire_gpu, release_gpu}
use smallpond.Executor.Pool.{Exits, Pool, ready}

pub record Running : Type 0 where
  pub pool_task : ℕ
  pub item : WorkItem
  pub local_gpu : List GpuQuota

pub record Executor (Q : Type 0) : Type 0 where
  pub cq : WorkQueue Q
  pub pool : Pool
  pub running_works : List Running
  pub is_running : Bool
  pub epochs_to_skip : ℕ
  pub local_gpus : List GpuQuota

abbrev pub work_key : Running → ℕ
work_key r = r.item.key

abbrev pub find_running : ℕ → List Running → Option Running
find_running key [] = none
find_running key (r ∷ rs) = if work_key r == key then some r else find_running key rs

-- `self.running_works[key] = …`
abbrev pub set_running : Running → List Running → List Running
set_running r [] = r ∷ []
set_running r (s ∷ rs) = if work_key s == work_key r then r ∷ rs else s ∷ set_running r rs

-- `self.running_works.pop(key)`
abbrev pub remove_running : ℕ → List Running → List Running
remove_running key [] = []
remove_running key (r ∷ rs) = if work_key r == key then rs else r ∷ remove_running key rs

abbrev pub crash_item : WorkItem → WorkItem
crash_item w = record w { status = crashed; exception = some nonzero_exit_code }

module _ {Q : Type 0} (b : Backend Q) where
  unfoldable pub push_completed : WorkItem → Executor Q → Result (Executor Q)
  push_completed item e = do (pushed, cq) ← Queue.push b item false e.cq; ok (record e { cq = cq })

  -- The handler of an exception of the push.
  abbrev pub or_stop : Result (Executor Q) → Executor Q → Executor Q
  or_stop (ok e') e = e'
  or_stop (raise error) e = record e { is_running = false }

  -- A work whose process crashed is sent back by the executor.
  unfoldable pub report_exit : Option ℕ → Running → Executor Q → Executor Q
  unfolding push_completed
  report_exit none r e = e
  report_exit (some zero) r e = e
  report_exit (some (suc code)) r e = or_stop (push_completed (crash_item r.item) e) e

  -- The first loop of `collect_finished_works`.
  unfoldable pub find_finished : Exits → List Running → Executor Q → List Running × Executor Q
  unfolding report_exit
  find_finished exits [] e = ([], e)
  find_finished exits (r ∷ rs) e =
      let (later, after) = find_finished exits rs (report_exit (exits r.pool_task) r e) in
      let (passed, same) = find_finished exits rs e in
      if ready exits e.pool r.pool_task then (r ∷ later, after) else (passed, same)

module _ {Q : Type 0} where
  abbrev pub granted_or :
      List GpuQuota × List GpuQuota
      → Executor Q
      → Result (List GpuQuota × Executor Q)
      → Result (List GpuQuota × Executor Q)
  granted_or ([], left) e later = later
  granted_or (g ∷ gs, left) e later = ok (g ∷ gs, record e { local_gpus = left })

  -- The second loop.
  unfoldable pub remove_finished : ℕ → List Running → Executor Q → Result (Executor Q)
  remove_finished unit [] e = ok e
  remove_finished unit (r ∷ rs) e = do
    gpus ← release_gpu unit r.local_gpu e.local_gpus
    remove_finished unit rs (record e {
      running_works = remove_running (work_key r) e.running_works;
      local_gpus = gpus;
    })

module _ {Q : Type 0} (b : Backend Q) (unit : ℕ) where
  unfoldable pub collect_finished_works : Exits → Executor Q → Result (Executor Q)
  unfolding find_finished remove_finished
  collect_finished_works exits e =
      let (finished, reported) = find_finished b exits e.running_works e in
      remove_finished unit finished reported

  -- The loop that waits for GPUs, over what it finds each time; it ends when that is at its end.
  unfoldable pub wait_for_gpus : List Exits → ℕ → Executor Q → Result (List GpuQuota × Executor Q)
  unfolding collect_finished_works
  wait_for_gpus [] quota e = granted_or (acquire_gpu quota e.local_gpus) e (raise out_of_fuel)
  wait_for_gpus (exits ∷ polls) quota e =
      let later = collect_finished_works exits e >>= λ e'. wait_for_gpus polls quota e' in
      granted_or (acquire_gpu quota e.local_gpus) e later
