-- ===== src/Planner/Visit.antt =====
-- The tasks for partition nodes, computing nodes, projections and limits, and `Planner.visit`.
use smallpond.Prelude.{
  ℕ, ◌+◌, ◌-◌, ◌*◌, ◌/◌, min, max, List, [], ◌∷◌, ◌++◌, map, flatten, Option, none, some, length,
  range, ltb, leb, ◌==◌, if◌then◌else◌, Result, ok, raise, ◌>>=◌, ◌>>◌, guard, assertion_error,
  value_error, zero_division_error,
}
use smallpond.Common.{ArraySplit, split_into_rows}
use smallpond.Planner.Infos.{PartitionInfo}
use smallpond.Planner.Tasks.{
  merge_task, split_task, producer_task, consumer_task, compute_task, projection_task, PlanTask,
  Settings, PlanState, Step, for_all, enumerate_from, toplevel, toplevel_part, create,
}
use smallpond.Planner.Build.{
  PartitionNode, NodeKind, data_source, root, union, compute, projection, limit, data_sink,
  consolidate, partition, one_dims, sort_key, most_ndims, match_input, build_source, build_sink,
  build_root, build_union, build_consolidate,
}

abbrev pub part_of : PartitionNode → ℕ → PartitionInfo
part_of n index = record { index = index; npartitions = n.npartitions; dimension = n.dimension }

-- `for producer in producers for partition_idx in range(npartitions)`
abbrev pub pairs : {A : Type 0} → List A → List ℕ → List (A × ℕ)
pairs [] is = []
pairs (a ∷ as') is = map (λ i. (a, i)) is ++ pairs as' is

-- `math.ceil(a / b)`
abbrev pub ceil_div : ℕ → ℕ → Result ℕ
ceil_div a b = if b == 0 then raise zero_division_error else ok ((a + b - 1) / b)

module _ (ctx : Settings) (array_split : ArraySplit) (node_id : ℕ) where
  abbrev pub create_producer : PlanTask → Step PlanTask
  create_producer t = create ctx node_id producer_task (t ∷ []) t.partition_infos

  abbrev pub create_nested_consumer : PartitionNode → PlanTask × ℕ → Step PlanTask
  create_nested_consumer n (producer, index) =
      create ctx node_id consumer_task (producer ∷ [])
        (producer.partition_infos ++ part_of n index ∷ [])

  unfoldable pub build_nested : PartitionNode → List PlanTask → Step (List PlanTask)
  unfolding create
  build_nested n inputs s = do
    guard (leb (length inputs * n.npartitions) n.max_card_of_producers_x_consumers) assertion_error
    (producers, s') ← for_all create_producer inputs s
    for_all (create_nested_consumer n) (pairs producers (range n.npartitions)) s'

  unfoldable pub num_producer_tasks : PartitionNode → Result ℕ
  num_producer_tasks n = do
    per_partition ← ceil_div n.max_card_of_producers_x_consumers n.npartitions
    rounds ← ceil_div ctx.usable_cpu_count n.cpu_limit
    ok (max 1 (min (min n.max_num_producer_tasks per_partition) (2 * ctx.num_executors * rounds)))

  abbrev pub create_split : ℕ → PlanTask → ℕ → Step PlanTask
  create_split count merged index =
      create ctx node_id split_task (merged ∷ []) (toplevel_part ctx index count ∷ [])

  abbrev pub create_merge : ℕ → ℕ × List PlanTask → Step PlanTask
  create_merge count (index, inputs) =
      create ctx node_id merge_task inputs (toplevel_part ctx index count ∷ [])

  -- The tasks that bring the inputs into `count` parts.
  unfoldable pub split_inputs : ℕ → List PlanTask → Step (List PlanTask)
  unfolding create split_into_rows
  split_inputs count inputs s =
      if ltb (length inputs) count
      then (do
        (merged, s') ← create ctx node_id merge_task inputs (toplevel ctx ∷ []) s
        for_all (create_split count merged) (range count) s')
      else (do
        rows ← split_into_rows array_split inputs count
        for_all (create_merge count) (enumerate_from 0 rows) s)

  abbrev pub create_consumer : PartitionNode → List PlanTask → ℕ → Step PlanTask
  create_consumer n producers index =
      create ctx node_id consumer_task producers (toplevel ctx ∷ part_of n index ∷ [])

  unfoldable pub build_flat : PartitionNode → List PlanTask → Step (List PlanTask)
  unfolding num_producer_tasks split_inputs create
  build_flat n inputs s = do
    count ← num_producer_tasks n
    (parts, s1) ← split_inputs count inputs s
    (producers, s2) ← for_all create_producer parts s1
    for_all (create_consumer n producers) (range n.npartitions) s2

  unfoldable pub build_partition : PartitionNode → List PlanTask → Step (List PlanTask)
  unfolding build_nested build_flat
  build_partition n inputs s =
      guard (one_dims inputs) assertion_error
      >> (if n.nested then build_nested n inputs s else build_flat n inputs s)

  abbrev pub create_matched : List (List PlanTask) → PlanTask → Step PlanTask
  create_matched groups main s = do
    inputs ← match_input main groups
    create ctx node_id compute_task inputs main.partition_infos s

  -- `broadcast_input_deps`, and a task for each item that it yields.
  unfoldable pub build_compute : List (List PlanTask) → Step (List PlanTask)
  unfolding match_input create
  build_compute [] s = do
    (t, s') ← create ctx node_id compute_task [] (toplevel ctx ∷ []) s
    ok (t ∷ [], s')
  build_compute (g ∷ gs) s = do
    key ← sort_key g
    mains ← most_ndims key g gs
    for_all (create_matched (g ∷ gs)) mains s

  abbrev pub create_projection : PlanTask → Step PlanTask
  create_projection t = create ctx node_id projection_task (t ∷ []) t.partition_infos

  unfoldable pub build_projection : List (List PlanTask) → Step (List PlanTask)
  unfolding create
  build_projection (inputs ∷ []) s = for_all create_projection inputs s
  build_projection _ s = raise assertion_error

  abbrev pub create_limit : PlanTask → Step PlanTask
  create_limit t = create ctx node_id compute_task (t ∷ []) t.partition_infos

  unfoldable pub build_limit : List (List PlanTask) → Step (List PlanTask)
  unfolding create
  build_limit (inputs ∷ []) s = do
    (partial, s1) ← for_all create_limit inputs s
    (merged, s2) ← create ctx node_id merge_task partial (toplevel ctx ∷ []) s1
    (global, s3) ← create_limit merged s2
    ok (global ∷ [], s3)
  build_limit _ s = raise assertion_error

  -- The method for a node, given the tasks of the nodes before it.
  unfoldable pub build : NodeKind → List (List PlanTask) → Step (List PlanTask)
  unfolding build_source build_sink build_root build_union build_consolidate build_partition
      build_compute build_projection build_limit flatten
  build data_source groups = build_source ctx array_split node_id groups
  build (data_sink type) groups = build_sink ctx array_split node_id type (flatten groups)
  build root groups = build_root ctx array_split node_id (flatten groups)
  build union groups = build_union ctx array_split node_id (flatten groups)
  build (consolidate dims) groups = build_consolidate ctx array_split node_id dims groups
  build (partition n) groups = build_partition n (flatten groups)
  build compute groups = build_compute groups
  build projection groups = build_projection groups
  build limit groups = build_limit groups

-- A node with its id, and the nodes before it.
mutual
  pub data Node : Type 0 where
    node : (id : ℕ) → NodeKind → Nodes → Node

  pub data Nodes : Type 0 where
    nil : Nodes
    cons : Node → Nodes → Nodes

abbrev pub find_memo : ℕ → List (ℕ × List PlanTask) → Option (List PlanTask)
find_memo id [] = none
find_memo id ((k, ts) ∷ memo) = if k == id then some ts else find_memo id memo

abbrev pub memoize : ℕ → List PlanTask × PlanState → List PlanTask × PlanState
memoize id (ts, s) = (ts, record s { node_to_tasks = (id, ts) ∷ s.node_to_tasks })

-- The tasks that a node has already, or the ones to make.
abbrev pub recall :
    Option (List PlanTask)
    → PlanState
    → Result (List PlanTask × PlanState)
    → Result (List PlanTask × PlanState)
recall (some ts) s made = ok (ts, s)
recall none s made = made

-- `[root_task] = ...`, with the tasks of the plan.
abbrev pub only_task : List PlanTask × PlanState → Result (PlanTask × List PlanTask)
only_task (t ∷ [], s) = ok (t, s.tasks)
only_task (_, s) = raise value_error

module _ (ctx : Settings) (array_split : ArraySplit) where
  -- `visit`, with the visits of the nodes before a node in order.
  unfoldable mutual
    unfolding build

    pub visit : Node → Step (List PlanTask)
    visit (node id kind deps) s =
        let visited = visit_all deps s in
        recall (find_memo id s.node_to_tasks) s (do
          (groups, s') ← visited
          done ← build ctx array_split id kind groups s'
          ok (memoize id done))

    pub visit_all : Nodes → Step (List (List PlanTask))
    visit_all nil s = ok ([], s)
    visit_all (cons n ns) s = do
      (group, s') ← visit n s
      (groups, s'') ← visit_all ns s'
      ok (group ∷ groups, s'')

  -- `[root_task] = self.visit(root_node)`, and all tasks that were made. Those of `ExecutionPlan.tasks`
  -- are the ones that a path leads to from the root task.
  unfoldable pub plan_tasks : Node → Result (PlanTask × List PlanTask)
  unfolding visit
  plan_tasks n = do
    done ← visit n (record { next_task_id = 0; tasks = []; node_to_tasks = [] })
    only_task done
