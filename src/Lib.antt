-- ===== src/Lib.antt =====
-- A verification library for smallpond, a data processing framework on top of DuckDB and Arrow.
--
-- A logical plan of nodes becomes an execution plan of tasks. The scheduler
-- (smallpond/execution/scheduler.py) enqueues the tasks whose inputs are done, sends them through
-- work queues (smallpond/execution/workqueue.py) to executors, takes the results back and retries
-- what failed. Tasks cut their inputs into ranges of rows (smallpond/io/arrow.py) and into
-- partitions (smallpond/common.py). The modules, from the bottom up:
--
-- Prelude. Lists and tests over the native numbers, and `Result`: the value of a call, or the class
--   of the exception that it raises. `out_of_fuel` is no exception of the program.
--
-- Common: smallpond/common.py. Row counts, row groups and the partitions of a list:
--   `split_into_cols`, `split_into_rows`, `get_nth_partition`, `next_power_of_two`, `round_up`.
--   `np.array_split` is a parameter. The loop of `next_power_of_two` runs on fuel.
--
-- RowRange: smallpond/io/arrow.py, the class `RowRange`. A file is its path and its numbers of rows
--   and bytes. `take_rows` is the step of `partition_by_rows` that moves ranges into a partition.
--
-- Work: smallpond/execution/workqueue.py, `WorkItem` and `WorkBatch`, with the fields that `Task`
--   and `Probe` of smallpond/execution/task.py add. The subclass is a field, `kind`. What a subclass
--   does in `initialize`, `run`, `finalize` and `cleanup` is a parameter, `Hooks`; `exec` is written
--   over it, with the finally clause. `Hooks` is a function of the work item for a batch.
--
-- Queue: smallpond/execution/workqueue.py, `WorkQueue` over the two methods that a subclass gives
--   (`Backend`), and `WorkQueueInMemory`. The order of a queue is stated for a first-in first-out
--   backend, of which the queue in memory is one. `WorkQueueOnFilesystem`, with its option `sort`, is
--   in Queue/Files: its directories are lists of files, and a rename fails if the file is not there
--   any more. Queue/Once lets several processes push and pop in any order of their steps, of which a
--   round of the loop of `_pop_unbuffered` is one, as it has one rename; Exact has the invariant, and
--   Pops what a call does while nobody interferes, for which as many rounds as listed names are
--   enough; Names is about ascending names. RoundTrip is about the queue in memory.
--
-- Remote: smallpond/execution/scheduler.py, `RemoteExecutor`, a client of Queue. The methods that
--   change its state are the constructors of `Call`, and `calls` runs a sequence of them. Calls has
--   the proof rule for a property that every call keeps; Alloc and States use it.
--
-- Executor: smallpond/execution/executor.py, `Executor` and `SimplePool`. The root module has
--   `acquire_gpu` and `release_gpu`, and Gpus is about them; Floats has both over floats; Pool, Collect and Loop have the pool, the
--   running works and `exec_loop`. What a round meets - items, exit codes, reasons to give up - is an
--   argument, so the loop and the wait for GPUs run over a list of it, and raise `out_of_fuel` at its
--   end. Accounts, Balance, Finished, Starts and Rounds keep the accounts of the GPUs; Slots is about
--   the pool.
--
-- Scheduler: smallpond/execution/scheduler.py, the class `Scheduler`, from `try_enqueue` to the body
--   of the loop of `process_finished_tasks` (Finish). A dictionary is a list in order of insertion.
--   The executors' part is recorded as a list of commands. `try_enqueue` calls itself for the tasks
--   behind a done one and runs on fuel: one more than the length of the longest chain of tasks is
--   enough, since each call is for tasks further on. Plan states what a plan and a sound state are;
--   Lookup, Fetch, Enqueued and Enqueue are about `try_enqueue`, Failure and Safety about a failed task, Sound
--   and Success about one that succeeded, Progress, Rounds and Outcome about the loop.
--   Order has the order in which `dispatch_tasks` puts the queue, and Turns is about it; Recover has
--   `update_executor_states` and `start_speculative_execution`, and Recovery, Rescue and Speculate are
--   about them. The works that run on an executor may include the request to stop, which is no task.
--   Dispatch has what `dispatch_tasks` does with one item and one executor of Remote, Capacity shows
--   that the executor is not given more than it has. Loop has the whole of `dispatch_tasks`. Its loop
--   over the queue runs on fuel: as much as there are tasks in the queue, and tasks of the plan whose
--   next run is not scheduled, is enough (Budget), since every round takes a task off the queue. Given,
--   Served, Dispatched and Complete follow it from one executor to the whole method.
--
-- Fleet: smallpond/execution/scheduler.py, the lists of executors by state (`working_executors` and so
--   on), which the scheduler caches, and the methods that find executors and change their states. A
--   client of Remote. Turns has the orders in which these run, Coherent and Clear what reading and
--   clearing the cache do, Steps the invariant.
--
-- Sorts: `sorted`, which is stable, and permutations.
--
-- Planner: smallpond/logical/planner.py, `Planner.visit` and a method for each kind of node, with what
--   the constructors of smallpond/execution/task.py, `Task` and `PartitionInfo`, and the factories of
--   smallpond/logical/node.py check and keep. Infos and Tasks have the partitions and the tasks, Build
--   and Visit the methods. Wiring is a proof rule for what all of them keep; Members, Builders,
--   Partitions and Made apply it; Acyclic says that each task comes after its inputs. Counts is about the
--   tasks for a partition node and Memo about the tasks of a node that is visited twice.
--
-- DataSets: smallpond/logical/dataset.py, `DataSet` and `ParquetDataSet`. `os.path.abspath`, `glob.glob`,
--   the metadata of Parquet files and `random.sample` are parameters. Paths has what is done with
--   texts, Sets and Parquet the two classes, Load the data sets by partition key, Query the ranges that
--   the query of a data set reads. Reads, Cuts, Empties and Placed have the theorems; Perms is about
--   lists in another order.
--
-- Optimizer: smallpond/logical/optimizer.py. A query is a list of texts and slots, and a node has the
--   queries of `SqlEngineNode` or counts as another one. Meaning says what a plan comes to: nested
--   subqueries and calls of other nodes, the statements before them, the functions and the limits of
--   cores and GPUs. The limit of memory, for which None stands for a default, is left out there.
--
-- ExecPlan: smallpond/execution/task.py, `ExecutionPlan.iter_tasks` and `tasks`; Visits has what the
--   generator yields.
--
-- Keys and ids are natural numbers and are only compared. Memory is counted in bytes. GPU quotas and
-- limits are floats in the source and multiples of one binary fraction of a GPU in the model (1/2 or
-- 1/16, say): floats hold these and add and subtract them without rounding, so they are counted as
-- natural numbers. Executor/Floats has `acquire_gpu` and `release_gpu` as they are, over floats whose
-- operations are a parameter. What becomes of quotas such as 0.1, which are rounded, is not modelled; a
-- release of these can fail. No width of machine integers matters to the code, as Python's are unbounded.
-- A boost factor, which the source computes by a division of floating-point numbers, is the limit
-- that it leads to, so no rounding is modelled. Clock readings, logs and metrics are left out.
--
-- Not modelled: the main loop of the scheduler and the local executor; the sinks that the planner
-- adds; the data sets of other formats; the tasks themselves, which run SQL and Arrow code; the
-- front ends, command lines and reports, which only read and write.
pub mod Prelude
pub mod Common
pub mod RowRange
pub mod Work
pub mod Queue
pub mod Remote
pub mod Executor
pub mod Scheduler
pub mod Planner
pub mod DataSets
pub mod Sorts
pub mod Optimizer
pub mod ExecPlan
pub mod Fleet
