-- ===== src/Remote.antt =====
-- smallpond/execution/scheduler.py, `RemoteExecutor`: what the scheduler knows of an executor. The
-- dictionary `running_works` is the list of its works in order of insertion. What the completion
-- queue delivers is an argument of `pop`; the work queue is one of `Queue`.
pub mod Calls
pub mod Alloc
pub mod States
mod Tests
use smallpond.Prelude.{
  ℕ, ◌+◌, ◌-◌, ◌/◌, ◌≡◌, Bool, true, false, not, ◌&&◌, ◌||◌, List, [], ◌∷◌, ◌++◌, Option, none,
  some, length, ltb, leb, ◌==◌, if◌then◌else◌, Result, ok, raise, assertion_error, ◌>>=◌, ◌>>◌,
  guard,
}
use smallpond.Work.{
  WorkItem, WorkStatus, incomplete, succeed, same_status, Kind, plain, task, probe, stop_executor,
  stop_work_item, ProbeInfo, cpu_limit, gpu_limit, memory_limit,
}
use smallpond.Queue
use smallpond.Queue.{WorkQueue, Backend}

pub data ExecutorState : Type 0 where
  good fail resource_low stopping stopped : ExecutorState

abbrev pub same_state : ExecutorState → ExecutorState → Bool
same_state good good = true
same_state fail fail = true
same_state resource_low resource_low = true
same_state stopping stopping = true
same_state stopped stopped = true
same_state _ _ = false

-- The last probe that came back: what it found and how it was executed.
pub record AckedProbe : Type 0 where
  pub info : ProbeInfo
  pub status : WorkStatus

pub record RemoteExecutor (Q : Type 0) : Type 0 where
  pub id : ℕ
  pub wq : WorkQueue Q
  pub running_works : List WorkItem
  pub state : ExecutorState
  pub last_acked_probe : AckedProbe
  pub stop_request_sent : Bool
  pub stop_request_acked : Bool
  pub allocated_cpus : ℕ
  pub allocated_gpus : ℕ
  pub allocated_memory : ℕ

abbrev pub find_work : ℕ → List WorkItem → Option WorkItem
find_work key [] = none
find_work key (w ∷ ws) = if w.key == key then some w else find_work key ws

abbrev pub remove_work : ℕ → List WorkItem → List WorkItem
remove_work key [] = []
remove_work key (w ∷ ws) = if w.key == key then ws else w ∷ remove_work key ws

-- `key in running_works`
abbrev pub is_running : ℕ → List WorkItem → Bool
is_running key [] = false
is_running key (w ∷ ws) = (w.key == key) || is_running key ws

-- The items that the scheduler itself makes have no limits.
abbrev pub control_item : ℕ → Kind → WorkItem
control_item key kind = record {
  key = key;
  kind = kind;
  base_cpu_limit = 0;
  base_gpu_limit = 0;
  base_memory_limit = some 0;
  cpu_boost = none;
  memory_boost = none;
  status = incomplete;
  retry_count = 0;
  fail_count = 0;
  exception = none;
  exec_id = none;
}

abbrev pub fresh_probe : ℕ → ProbeInfo
fresh_probe epoch = record {
  epoch = epoch;
  epochs_to_skip = 0;
  resource_low = true;
  cpu_count = 0;
  gpu_count = 0;
  total_memory = 0;
}

module _ {Q : Type 0} where
  -- `__init__`
  unfoldable pub init : ℕ → WorkQueue Q → ℕ → RemoteExecutor Q
  init id wq init_epoch = record {
    id = id;
    wq = wq;
    running_works = [];
    state = resource_low;
    last_acked_probe = record { info = fresh_probe init_epoch; status = incomplete };
    stop_request_sent = false;
    stop_request_acked = false;
    allocated_cpus = 0;
    allocated_gpus = 0;
    allocated_memory = 0;
  }

  abbrev pub cpu_count : RemoteExecutor Q → ℕ
  cpu_count e = e.last_acked_probe.info.cpu_count

  abbrev pub gpu_count : RemoteExecutor Q → ℕ
  gpu_count e = e.last_acked_probe.info.gpu_count

  abbrev pub memory_size : RemoteExecutor Q → ℕ
  memory_size e = e.last_acked_probe.info.total_memory

  abbrev pub idle : RemoteExecutor Q → Bool
  idle e = length e.running_works == 0

  -- One sixteenth of the cores is left to the file system and others.
  abbrev pub max_running_works : RemoteExecutor Q → ℕ
  max_running_works e = cpu_count e - cpu_count e / 16

  unfoldable pub busy : RemoteExecutor Q → Bool
  busy e =
      leb (max_running_works e) (length e.running_works)
      || (ltb 0 (cpu_count e) && leb (cpu_count e) e.allocated_cpus
          || (ltb 0 (gpu_count e) && leb (gpu_count e) e.allocated_gpus
              || ltb 0 (memory_size e) && leb (memory_size e) e.allocated_memory))

  abbrev pub working : RemoteExecutor Q → Bool
  working e = same_state e.state good || same_state e.state resource_low

  abbrev pub alive : RemoteExecutor Q → Bool
  alive e =
      same_state e.state good || (same_state e.state resource_low || same_state e.state stopping)

  abbrev pub added : WorkItem → RemoteExecutor Q → RemoteExecutor Q
  added item e = record e {
    running_works = e.running_works ++ item ∷ [];
    allocated_cpus = e.allocated_cpus + cpu_limit item;
    allocated_gpus = e.allocated_gpus + gpu_limit item;
    allocated_memory = e.allocated_memory + memory_limit item;
  }

  unfoldable pub add_running_work : WorkItem → RemoteExecutor Q → Result (RemoteExecutor Q)
  add_running_work item e = do
    guard (not (is_running item.key e.running_works)) assertion_error
    ok (added item e)

  unfoldable pub pop_running_work : ℕ → RemoteExecutor Q → RemoteExecutor Q
  pop_running_work key e = elim (find_work key e.running_works) [
    | none ↦ e
    | some item ↦ record e {
      running_works = remove_work key e.running_works;
      allocated_cpus = e.allocated_cpus - cpu_limit item;
      allocated_gpus = e.allocated_gpus - gpu_limit item;
      allocated_memory = e.allocated_memory - memory_limit item;
    }
  ]

  -- `max(self.last_acked_probe, item)`: a probe of the same epoch does not replace the last one.
  abbrev pub ack_probe : AckedProbe → RemoteExecutor Q → RemoteExecutor Q
  ack_probe p e = record e {
    last_acked_probe =
        if ltb e.last_acked_probe.info.epoch p.info.epoch then p else e.last_acked_probe;
  }

  -- `self.stop_request_acked |= self.state != ExecutorState.STOPPED`
  abbrev pub ack_stop : RemoteExecutor Q → RemoteExecutor Q
  ack_stop e = record e {
    stop_request_acked = e.stop_request_acked || not (same_state e.state stopped);
  }

  -- `if item.status != WorkStatus.INCOMPLETE: self.pop_running_work(item.key)`
  unfoldable pub settle : WorkItem → RemoteExecutor Q → RemoteExecutor Q
  unfolding pop_running_work
  settle item e = if same_status item.status incomplete then e else pop_running_work item.key e

  -- One round of the loop of `pop`: the executor, and the tasks that the round finishes.
  unfoldable pub pop_kind :
      Kind → WorkItem → RemoteExecutor Q → Result (RemoteExecutor Q × List WorkItem)
  unfolding settle
  pop_kind (probe info) item e = ok (ack_probe (record { info = info; status = item.status }) e, [])
  pop_kind (stop_work_item work_to_stop) item e = ok (pop_running_work work_to_stop e, [])
  pop_kind (stop_executor ack) item e = ok (settle item (ack_stop e), [])
  pop_kind (task t) item e = ok (settle item e, item ∷ [])
  pop_kind plain item e = raise assertion_error

  unfoldable pub pop_one : WorkItem → RemoteExecutor Q → Result (RemoteExecutor Q × List WorkItem)
  unfolding pop_kind
  pop_one item e = pop_kind item.kind item e

  unfoldable pub pop : List WorkItem → RemoteExecutor Q → Result (RemoteExecutor Q × List WorkItem)
  unfolding pop_one
  pop [] e = ok (e, [])
  pop (item ∷ items) e = do
    (after, finished) ← pop_one item e
    (last, later) ← pop items after
    ok (last, finished ++ later)

  module _ (b : Backend Q) where
    unfoldable pub push : WorkItem → Bool → RemoteExecutor Q → Result (RemoteExecutor Q × Bool)
    unfolding add_running_work
    push item buffering e =
        let sent = record item { exec_id = some e.id } in
        if is_running item.key e.running_works then ok (e, false) else (do
          e' ← add_running_work sent e
          (pushed, wq) ← Queue.push b sent buffering e'.wq
          ok (record e' { wq = wq }, pushed))

    unfoldable pub flush : RemoteExecutor Q → Result (RemoteExecutor Q × Bool)
    flush e = do (flushed, wq) ← Queue.flush b e.wq; ok (record e { wq = wq }, flushed)

    -- `probe`, for a probe of that key.
    unfoldable pub send_probe : ℕ → ℕ → RemoteExecutor Q → Result (RemoteExecutor Q)
    send_probe key epoch e = do
      (pushed, wq) ← Queue.push b (control_item key (probe (fresh_probe epoch))) false e.wq
      ok (record e { wq = wq })

    -- `stop`, for a `StopExecutor` of that key.
    unfoldable pub stop : ℕ → RemoteExecutor Q → Result (RemoteExecutor Q)
    unfolding push
    stop key e =
        if working e && not e.stop_request_sent
        then (do
          (e', pushed) ← push (control_item key (stop_executor true)) false e
          ok (record e' { stop_request_sent = true }))
        else ok e

  -- `reset_state` calls `__init__` again, with the same queues.
  unfoldable pub reset_state : ℕ → RemoteExecutor Q → RemoteExecutor Q
  unfolding init
  reset_state current_epoch e = init e.id e.wq current_epoch

  -- Enter a state, and say whether that is a change.
  abbrev pub enter : ExecutorState → RemoteExecutor Q → RemoteExecutor Q × Bool
  enter s e = if same_state e.state s then (e, false) else (record e { state = s }, true)

  unfoldable pub update_state : ℕ → ℕ → RemoteExecutor Q → RemoteExecutor Q × Bool
  update_state max_num_missed_probes current_epoch e =
      if same_state e.state stopped
      then (e, false)
      else if ltb max_num_missed_probes (current_epoch - e.last_acked_probe.info.epoch)
      then enter fail e
      else if same_state e.state stopping
      then if e.stop_request_acked then (record e { state = stopped }, true) else (e, false)
      else if e.stop_request_sent
      then enter stopping e
      else if e.last_acked_probe.info.resource_low
      then enter resource_low e
      else if same_status e.last_acked_probe.status succeed
      then enter good e
      else (e, false)

-- What the scheduler does to an executor, as a sequence of calls.
pub data Call : Type 0 where
  pop_call : List WorkItem → Call
  push_call : WorkItem → (buffering : Bool) → Call
  flush_call : Call
  probe_call : (key epoch : ℕ) → Call
  stop_call : (key : ℕ) → Call
  reset_call : (epoch : ℕ) → Call
  update_call : (max_missed epoch : ℕ) → Call

module _ {Q : Type 0} (b : Backend Q) where
  unfoldable pub call : Call → RemoteExecutor Q → Result (RemoteExecutor Q)
  unfolding pop push flush send_probe stop reset_state update_state
  call (pop_call items) e = do (after, finished) ← pop items e; ok after
  call (push_call item buffering) e = do (after, pushed) ← push b item buffering e; ok after
  call flush_call e = do (after, flushed) ← flush b e; ok after
  call (probe_call key epoch) e = send_probe b key epoch e
  call (stop_call key) e = stop b key e
  call (reset_call epoch) e = ok (reset_state epoch e)
  call (update_call max_missed epoch) e = ok (update_state max_missed epoch e).0

  unfoldable pub calls : List Call → RemoteExecutor Q → Result (RemoteExecutor Q)
  calls [] e = ok e
  calls (c ∷ cs) e = do after ← call c e; calls cs after
