-- ===== src/Work.antt =====
-- smallpond/execution/workqueue.py, the work items, with the fields that smallpond/execution/task.py
-- adds in `Task` and `Probe`. One record stands for the class `WorkItem`, and its field `kind` for
-- the subclass and what that adds. Keys are compared for equality only, and are numbers here; GPU
-- quotas are multiples of one binary fraction of a GPU, which floats add exactly, and are counted in
-- it; memory is counted in bytes. Clock readings are left out.
pub mod Exec
pub mod Batch
pub mod Samples
mod Tests
use smallpond.Prelude.{
  ℕ, ◌+◌, ◌≡◌, Bool, true, false, ◌&&◌, ◌||◌, List, [], ◌∷◌, Option, none, some, ◌==◌,
  if◌then◌else◌, Result, ok, raise, type_error,
}

pub data WorkStatus : Type 0 where
  incomplete succeed failed crashed exec_failed : WorkStatus

abbrev pub same_status : WorkStatus → WorkStatus → Bool
same_status incomplete incomplete = true
same_status succeed succeed = true
same_status failed failed = true
same_status crashed crashed = true
same_status exec_failed exec_failed = true
same_status _ _ = false

-- The classes of exceptions that the code tells apart.
pub data Fault : Type 0 where
  out_of_memory memory_error nonzero_exit_code other_fault : Fault

-- `TaskRuntimeId`
pub record TaskRuntimeId : Type 0 where
  pub id : ℕ
  pub epoch : ℕ
  pub retry : ℕ

abbrev pub same_runtime_id : TaskRuntimeId → TaskRuntimeId → Bool
same_runtime_id a b = (a.id == b.id) && ((a.epoch == b.epoch) && (a.retry == b.retry))

-- A dataset that a task has set, or the parquet files in the output directory of a run of it.
pub data DataSet : Type 0 where
  given : ℕ → DataSet
  parquet_files : TaskRuntimeId → DataSet

pub record TaskInfo : Type 0 where
  pub id : ℕ
  pub node_id : ℕ
  pub sched_epoch : ℕ
  pub input_deps : List ℕ
  pub output_deps : List ℕ
  pub input_datasets : List DataSet
  pub dataset : Option DataSet
  pub runtime_state : Option ℕ
  pub exec_on_scheduler : Bool

pub record ProbeInfo : Type 0 where
  pub epoch : ℕ
  pub epochs_to_skip : ℕ
  pub resource_low : Bool
  pub cpu_count : ℕ
  pub gpu_count : ℕ
  pub total_memory : ℕ

pub data Kind : Type 0 where
  plain : Kind
  task : TaskInfo → Kind
  probe : ProbeInfo → Kind
  stop_executor : (ack : Bool) → Kind
  stop_work_item : (work_to_stop : ℕ) → Kind

-- A boost is `none` for the factor 1, or the limit that the factor raises the base limit to.
pub record WorkItem : Type 0 where
  pub key : ℕ
  pub kind : Kind
  pub base_cpu_limit : ℕ
  pub base_gpu_limit : ℕ
  pub base_memory_limit : Option ℕ
  pub cpu_boost : Option ℕ
  pub memory_boost : Option ℕ
  pub status : WorkStatus
  pub retry_count : ℕ
  pub fail_count : ℕ
  pub exception : Option Fault
  pub exec_id : Option ℕ

abbrev pub cpu_limit : WorkItem → ℕ
cpu_limit w = elim w.cpu_boost [ none ↦ w.base_cpu_limit | some boosted ↦ boosted ]

abbrev pub gpu_limit : WorkItem → ℕ
gpu_limit w = w.base_gpu_limit

-- A limit of 0, like none, is 0 whatever the boost.
abbrev pub memory_limit : WorkItem → ℕ
memory_limit w = elim w.base_memory_limit [
  | none ↦ 0
  | some limit ↦
      if limit == 0 then 0 else elim w.memory_boost [ none ↦ limit | some boosted ↦ boosted ]
]

unfoldable pub oom : Bool → WorkItem → Bool
oom nonzero_exitcode_as_oom w = elim w.base_memory_limit [
  | none ↦ false
  | some limit ↦ same_status w.status crashed && elim w.exception [
    | some out_of_memory ↦ true
    | some memory_error ↦ true
    | some nonzero_exit_code ↦ nonzero_exitcode_as_oom
    | _ ↦ false
  ]
]

-- What the hooks of a subclass do when they are called: `none`, or the exception that they raise.
pub data RunOutcome : Type 0 where
  returns : Bool → RunOutcome
  raises : Fault → RunOutcome

pub record Hooks : Type 0 where
  pub initialize : Option Fault
  pub run : RunOutcome
  pub finalize : Option Fault
  pub cleanup : Option Fault

-- How `exec` ends: with the status that it returns, or by an exception of `cleanup`.
pub data ExecOutcome : Type 0 where
  returned : WorkItem → ExecOutcome
  escaped : Fault → WorkItem → ExecOutcome

abbrev pub item_of : ExecOutcome → WorkItem
item_of (returned w) = w
item_of (escaped fault w) = w

-- `except Exception as ex`
abbrev pub crash : Fault → WorkItem → WorkItem
crash fault w = record w { status = crashed; exception = some fault }

-- The `try` block with its handler.
unfoldable pub exec_body : Hooks → WorkItem → WorkItem
exec_body hooks w = elim hooks.initialize [
  | some fault ↦ crash fault w
  | none ↦ elim hooks.run [
    | raises fault ↦ crash fault w
    | returns false ↦ record w { status = failed }
    | returns true ↦ elim hooks.finalize [
      | some fault ↦ crash fault (record w { status = succeed })
      | none ↦ record w { status = succeed }
    ]
  ]
]

unfoldable pub exec : Hooks → WorkItem → ExecOutcome
unfolding exec_body
exec hooks w =
    if same_status w.status incomplete
    then elim hooks.cleanup [
      | none ↦ returned (exec_body hooks w)
      | some fault ↦ escaped fault (exec_body hooks w)
    ]
    else returned w

-- How the loop of `WorkBatch.run` ends, with the works as they are then.
pub data BatchOutcome : Type 0 where
  batch_returned : Bool → List WorkItem → BatchOutcome
  batch_escaped : Fault → List WorkItem → BatchOutcome

abbrev pub works_of : BatchOutcome → List WorkItem
works_of (batch_returned b ws) = ws
works_of (batch_escaped fault ws) = ws

abbrev pub push_front : WorkItem → BatchOutcome → BatchOutcome
push_front w (batch_returned b ws) = batch_returned b (w ∷ ws)
push_front w (batch_escaped fault ws) = batch_escaped fault (w ∷ ws)

-- The end of a round of the loop, given how the work's `exec` ended and how the later rounds would.
abbrev pub after_exec : List WorkItem → BatchOutcome → ExecOutcome → BatchOutcome
after_exec ws later (escaped fault w) = batch_escaped fault (w ∷ ws)
after_exec ws later (returned w) =
    if same_status w.status succeed then push_front w later else batch_returned false (w ∷ ws)

-- `work.exec_id = self.exec_id`
abbrev pub assign : Option ℕ → WorkItem → WorkItem
assign exec_id w = record w { exec_id = exec_id }

unfoldable pub batch_run : (WorkItem → Hooks) → Option ℕ → List WorkItem → BatchOutcome
batch_run hooks exec_id [] = batch_returned true []
batch_run hooks exec_id (w ∷ ws) =
    after_exec ws (batch_run hooks exec_id ws) (exec (hooks w) (assign exec_id w))
