-- ===== src/Planner/Tests.antt =====
-- The theorems about the planner, at small plans.
use smallpond.Prelude.{
  ℕ, ◌≡◌, ◌≤◌, ◌<◌, ◌⊎◌, refl, true, false, List, [], ◌∷◌, ◌*◌, ◌+◌, max, map, Result, ok,
}
use smallpond.Common.Tests.{array_split}
use smallpond.Planner.Tasks.{root_task, PlanTask, Settings, PlanState, toplevel}
use smallpond.Planner.Build.{
  PartitionNode, data_source, root, compute, projection, data_sink, partition, link,
}
use smallpond.Planner.Visit.{
  Node, node, nil, cons, build_flat, build_nested, num_producer_tasks, visit, plan_tasks,
}
use smallpond.Planner.Acyclic.{IsClosed, no_tasks, plan_tasks-IsClosed}
use smallpond.Planner.Counts.{num_producer_tasks-bounds}

abbrev ctx : Settings
ctx = record {
  toplevel_dimension = 0;
  num_executors = 1;
  usable_cpu_count = 4;
  task_cpu_limit = λ node_id kind. 1;
}

abbrev two_parts : PartitionNode
two_parts = record {
  npartitions = 2;
  dimension = 1;
  nested = false;
  cpu_limit = 1;
  max_num_producer_tasks = 2;
  max_card_of_producers_x_consumers = 100;
}

abbrev nested_parts : PartitionNode
nested_parts = record two_parts { dimension = 2; nested = true }

abbrev source : Node
source = node 1 data_source nil

abbrev parts : Node
parts = node 2 (partition two_parts) (cons source nil)

-- Two projections of one partition are joined, and the result is linked.
abbrev graph : Node
graph = node 6 root (
    cons
      (node 5 (data_sink link)
        (cons (node 4 compute (cons (node 3 projection (cons parts nil)) (cons parts nil))) nil))
      nil)

abbrev tasks_of : Result (PlanTask × List PlanTask) → List PlanTask
tasks_of (ok (t, ts)) = ts
tasks_of _ = []

abbrev planned : List PlanTask
unfolding plan_tasks
planned = tasks_of (plan_tasks ctx array_split graph)

-- The node of each task and the ids of the tasks before it.
abbrev node_and_deps : PlanTask → ℕ × List ℕ
node_and_deps t = (t.node_id, t.input_deps)

planned_deps :
    map node_and_deps planned
    ≡ (0, 13 ∷ [])
      ∷ (5, 11 ∷ 12 ∷ [])
      ∷ (4, 10 ∷ 8 ∷ [])
      ∷ (4, 9 ∷ 7 ∷ [])
      ∷ (3, 8 ∷ [])
      ∷ (3, 7 ∷ [])
      ∷ (2, 5 ∷ 6 ∷ [])
      ∷ (2, 5 ∷ 6 ∷ [])
      ∷ (2, 4 ∷ [])
      ∷ (2, 3 ∷ [])
      ∷ (2, 2 ∷ [])
      ∷ (2, 2 ∷ [])
      ∷ (2, 1 ∷ [])
      ∷ (1, [])
      ∷ []
unfolding plan_tasks
planned_deps = refl

abbrev final : PlanTask
final = record {
  id = 14;
  node_id = 0;
  kind = root_task;
  input_deps = 13 ∷ [];
  partition_infos = toplevel ctx ∷ [];
}

graph_planned : plan_tasks ctx array_split graph ≡ ok (final, planned)
unfolding plan_tasks
graph_planned = refl

plan_tasks-IsClosed_example : IsClosed planned
plan_tasks-IsClosed_example = plan_tasks-IsClosed ctx array_split graph final planned graph_planned

-- The state and the tasks of a step.
abbrev state_of : {A : Type 0} → Result (A × PlanState) → PlanState
state_of (ok (a, s)) = s
state_of _ = no_tasks

abbrev made_of : Result (List PlanTask × PlanState) → List PlanTask
made_of (ok (ts, s)) = ts
made_of _ = []

abbrev after_source : PlanState
unfolding visit
after_source = state_of (visit ctx array_split source no_tasks)

abbrev sources : List PlanTask
unfolding visit
sources = made_of (visit ctx array_split source no_tasks)

abbrev after_parts : PlanState
unfolding visit
after_parts = state_of (visit ctx array_split parts no_tasks)

abbrev consumers : List PlanTask
unfolding visit
consumers = made_of (visit ctx array_split parts no_tasks)

parts_visited : visit ctx array_split parts no_tasks ≡ ok (consumers, after_parts)
unfolding visit
parts_visited = refl

-- The two partitions are cut in two again.
abbrev nested_made : List PlanTask
unfolding build_nested
nested_made = made_of (build_nested ctx array_split 7 nested_parts consumers after_parts)

abbrev after_nested : PlanState
unfolding build_nested
after_nested = state_of (build_nested ctx array_split 7 nested_parts consumers after_parts)

abbrev flat_made : List PlanTask
unfolding build_flat
flat_made = made_of (build_flat ctx array_split 2 two_parts sources after_source)

abbrev after_flat : PlanState
unfolding build_flat
after_flat = state_of (build_flat ctx array_split 2 two_parts sources after_source)

abbrev two : ℕ
two = 2

two_producers : num_producer_tasks ctx array_split 2 two_parts ≡ ok 2
unfolding num_producer_tasks
two_producers = refl

num_producer_tasks-bounds_example :
    (1 ≤ two) × (two ≤ max 1 two) × ((two ≡ 1) ⊎ (two * 2 < 100 + 2))
num_producer_tasks-bounds_example =
    num_producer_tasks-bounds ctx array_split 2 two_parts 2 two_producers
