-- ===== src/Planner/Tasks.antt =====
-- The tasks that the planner makes: what smallpond/execution/task.py, `Task.__init__`, checks and
-- keeps of the graph. A task's key is its id. The `output_deps` of a task, to which the constructor
-- adds the key of each new task behind it, are read off the tasks made: `outputs_of`.
use smallpond.Prelude.{
  ℕ, ltb, ◌+◌, Bool, false, ◌||◌, List, [], ◌∷◌, ◌++◌, ◌==◌, if◌then◌else◌, Result, ok, ◌>>=◌, ◌>>◌,
  guard, assertion_error,
}
use smallpond.Planner.Infos.{PartitionInfo, sort_infos, dims_of, has_dim, all_distinct}

pub data TaskKind : Type 0 where
  data_source_task data_sink_task phase1_task root_task merge_task split_task : TaskKind
  producer_task consumer_task compute_task projection_task : TaskKind

pub record PlanTask : Type 0 where
  pub id : ℕ
  pub node_id : ℕ
  pub kind : TaskKind
  pub input_deps : List ℕ
  pub partition_infos : List PartitionInfo

-- What the planner reads of the runtime context, and the `cpu_limit` that the node with an id gives to
-- its tasks of a kind.
pub record Settings : Type 0 where
  pub toplevel_dimension : ℕ
  pub num_executors : ℕ
  pub usable_cpu_count : ℕ
  pub task_cpu_limit : ℕ → TaskKind → ℕ

-- The counter of the context, the tasks made so far, the last one first, and `node_to_tasks`.
pub record PlanState : Type 0 where
  pub next_task_id : ℕ
  pub tasks : List PlanTask
  pub node_to_tasks : List (ℕ × List PlanTask)

-- `dict((dep.key, dep) for dep in input_deps)`: each key once.
abbrev pub has_key : ℕ → List ℕ → Bool
has_key k [] = false
has_key k (j ∷ ks) = (j == k) || has_key k ks

abbrev pub add_key : ℕ → List ℕ → List ℕ
add_key k ks = if has_key k ks then ks else ks ++ k ∷ []

abbrev pub keys_from : List ℕ → List PlanTask → List ℕ
keys_from ks [] = ks
keys_from ks (t ∷ ts) = keys_from (add_key t.id ks) ts

abbrev pub keys_of : List PlanTask → List ℕ
keys_of = keys_from []

abbrev pub outputs_of : ℕ → List PlanTask → List ℕ
outputs_of k [] = []
outputs_of k (t ∷ ts) = if has_key k t.input_deps then t.id ∷ outputs_of k ts else outputs_of k ts

-- A statement of the planner: a value and the state after it, or an exception.
abbrev pub Step : Type 0 → Type 0
Step A = PlanState → Result (A × PlanState)

-- `[f(x) for x in xs]`
abbrev pub for_all : {A B : Type 0} → (A → Step B) → List A → Step (List B)
for_all f [] s = ok ([], s)
for_all f (x ∷ xs) s = do (y, s') ← f x s; (ys, s'') ← for_all f xs s'; ok (y ∷ ys, s'')

abbrev pub new_task : ℕ → ℕ → TaskKind → List PlanTask → List PartitionInfo → PlanTask
new_task id node_id kind inputs infos = record {
  id = id;
  node_id = node_id;
  kind = kind;
  input_deps = keys_of inputs;
  partition_infos = sort_infos infos;
}

-- `enumerate(xs, n)`
abbrev pub enumerate_from {ℓ} : {A : Type ℓ} → ℕ → List A → List (ℕ × A)
enumerate_from n [] = []
enumerate_from n (x ∷ xs) = (n, x) ∷ enumerate_from (n + 1) xs

module _ (ctx : Settings) where
  -- `PartitionInfo()`
  abbrev pub toplevel : PartitionInfo
  toplevel = record { index = 0; npartitions = 1; dimension = ctx.toplevel_dimension }

  abbrev pub toplevel_part : ℕ → ℕ → PartitionInfo
  toplevel_part index npartitions = record {
    index = index;
    npartitions = npartitions;
    dimension = ctx.toplevel_dimension;
  }

  -- A constructor of a task, called by the node with the id.
  unfoldable pub create : ℕ → TaskKind → List PlanTask → List PartitionInfo → Step PlanTask
  create node_id kind inputs infos s =
      let t = new_task (s.next_task_id + 1) node_id kind inputs infos in
      guard (has_dim ctx.toplevel_dimension (dims_of infos)) assertion_error
      >> guard (ltb 0 (ctx.task_cpu_limit node_id kind)) assertion_error
      >> guard (all_distinct (dims_of t.partition_infos)) assertion_error
      >> ok (t, record s { next_task_id = s.next_task_id + 1; tasks = t ∷ s.tasks })
