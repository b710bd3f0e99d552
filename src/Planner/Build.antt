-- ===== src/Planner/Build.antt =====
-- The tasks that `Planner` makes for a node, given the tasks of the nodes before it. A test of a
-- nested partition node is left out that compares a dimension with tuples and never fails.
use smallpond.Prelude.{
  ℕ, Bool, true, false, ◌&&◌, ◌||◌, List, [], ◌∷◌, ◌++◌, Option, none, some, length, ltb, ◌==◌,
  if◌then◌else◌, Result, ok, raise, ◌>>=◌, ◌>>◌, guard, of_option, assertion_error, index_error,
  value_error,
}
use smallpond.Common.{ArraySplit}
use smallpond.Planner.Infos.{
  PartitionInfo, same_infos, infos_lt, dims_of, has_dim, same_dims, infos_within,
}
use smallpond.Planner.Tasks.{
  data_source_task, data_sink_task, phase1_task, root_task, merge_task, PlanTask, Settings, Step,
  for_all, enumerate_from, toplevel, toplevel_part, create,
}

pub data SinkType : Type 0 where
  link copy link_or_copy manifest other_type : SinkType

pub record PartitionNode : Type 0 where
  pub npartitions : ℕ
  pub dimension : ℕ
  pub nested : Bool
  pub cpu_limit : ℕ
  pub max_num_producer_tasks : ℕ
  pub max_card_of_producers_x_consumers : ℕ

-- `visit_query_engine_node` and three others make tasks in one way, that of `compute`.
pub data NodeKind : Type 0 where
  data_source root union compute projection limit : NodeKind
  data_sink : SinkType → NodeKind
  consolidate : (dimensions : List ℕ) → NodeKind
  partition : PartitionNode → NodeKind

-- `task.partition_dims`
abbrev pub partition_dims : PlanTask → List ℕ
partition_dims t = dims_of t.partition_infos

abbrev pub all_with : List ℕ → List PlanTask → Bool
all_with dims [] = true
all_with dims (t ∷ ts) = same_dims (partition_dims t) dims && all_with dims ts

-- `len(set(task.partition_dims for task in tasks)) == 1`
abbrev pub one_dims : List PlanTask → Bool
one_dims [] = false
one_dims (t ∷ ts) = all_with (partition_dims t) ts

-- The values of a dictionary of tasks grouped by some of their partition infos.
abbrev pub Groups : Type 0
Groups = List (List PartitionInfo × List PlanTask)

abbrev pub add_to_group : List PartitionInfo → PlanTask → Groups → Groups
add_to_group infos t [] = (infos, t ∷ []) ∷ []
add_to_group infos t ((key, ts) ∷ gs) =
    if same_infos key infos then (key, ts ++ t ∷ []) ∷ gs else (key, ts) ∷ add_to_group infos t gs

abbrev pub group_into : List ℕ → Groups → List PlanTask → Groups
group_into dims gs [] = gs
group_into dims gs (t ∷ ts) =
    group_into dims (add_to_group (infos_within dims t.partition_infos) t gs) ts

abbrev pub dims_within : List ℕ → List ℕ → Bool
dims_within [] dims = true
dims_within (d ∷ ds) dims = has_dim d dims && dims_within ds dims

-- `max(t.partition_infos for t in tasks)`, behind a first task.
abbrev pub max_infos : List PartitionInfo → List PlanTask → List PartitionInfo
max_infos best [] = best
max_infos best (t ∷ ts) =
    max_infos (if infos_lt best t.partition_infos then t.partition_infos else best) ts

abbrev pub SortKey : Type 0
SortKey = ℕ × List PartitionInfo

abbrev pub sort_key : List PlanTask → Result SortKey
sort_key [] = raise index_error
sort_key (t ∷ ts) = ok (length (partition_dims t), max_infos t.partition_infos ts)

abbrev pub sort_key_lt : SortKey → SortKey → Bool
sort_key_lt (n, a) (m, b) = ltb n m || (n == m) && infos_lt a b

abbrev pub most_ndims : SortKey → List PlanTask → List (List PlanTask) → Result (List PlanTask)
most_ndims key best [] = ok best
most_ndims key best (g ∷ gs) = do
  k ← sort_key g
  let better = sort_key_lt key k
  most_ndims (if better then k else key) (if better then g else best) gs

-- `dict((t.partition_infos, t) for t in taskgroup).get(infos)`: the last task with the infos.
abbrev pub find_last : List PartitionInfo → List PlanTask → Option PlanTask
find_last infos [] = none
find_last infos (t ∷ ts) = elim (find_last infos ts) [
  | some u ↦ some u
  | none ↦ if same_infos t.partition_infos infos then some t else none
]

-- The tasks that match a main input, one of each group.
unfoldable pub match_input : PlanTask → List (List PlanTask) → Result (List PlanTask)
match_input main [] = ok []
match_input main ([] ∷ groups) = raise index_error
match_input main ((t ∷ ts) ∷ groups) = do
  let infos = infos_within (partition_dims t) main.partition_infos
  found ← of_option assertion_error (find_last infos (t ∷ ts))
  rest ← match_input main groups
  ok (found ∷ rest)

module _ (ctx : Settings) (array_split : ArraySplit) (node_id : ℕ) where
  unfoldable pub build_source : List (List PlanTask) → Step (List PlanTask)
  unfolding create
  build_source [] s = do
    (t, s') ← create ctx node_id data_source_task [] (toplevel ctx ∷ []) s
    ok (t ∷ [], s')
  build_source (g ∷ gs) s = raise assertion_error

  abbrev pub create_phase1 : ℕ → ℕ × PlanTask → Step PlanTask
  create_phase1 count (i, t) =
      create ctx node_id phase1_task (t ∷ []) (toplevel_part ctx i count ∷ [])

  unfoldable pub build_sink : SinkType → List PlanTask → Step (List PlanTask)
  unfolding create
  build_sink link inputs s = do
    (t, s') ← create ctx node_id data_sink_task inputs (toplevel ctx ∷ []) s
    ok (t ∷ [], s')
  build_sink manifest inputs s = do
    (t, s') ← create ctx node_id data_sink_task inputs (toplevel ctx ∷ []) s
    ok (t ∷ [], s')
  build_sink other_type inputs s = raise value_error
  build_sink _ inputs s = do
    (copies, s1) ← for_all (create_phase1 (length inputs)) (enumerate_from 0 inputs) s
    (t, s2) ← create ctx node_id data_sink_task copies (toplevel ctx ∷ []) s1
    ok (t ∷ [], s2)

  unfoldable pub build_root : List PlanTask → Step (List PlanTask)
  unfolding create
  build_root inputs s = do
    (t, s') ← create ctx 0 root_task inputs (toplevel ctx ∷ []) s
    ok (t ∷ [], s')

  unfoldable pub build_union : List PlanTask → Step (List PlanTask)
  build_union inputs s = guard (one_dims inputs) assertion_error >> ok (inputs, s)

  abbrev pub create_group : List PartitionInfo × List PlanTask → Step PlanTask
  create_group (infos, inputs) = create ctx node_id merge_task inputs infos

  abbrev pub consolidate_group : List ℕ → List PlanTask → Step (List PlanTask)
  consolidate_group dims [] s = raise assertion_error
  consolidate_group dims (t ∷ ts) s =
      guard (one_dims (t ∷ ts)) assertion_error
      >> guard (dims_within dims (partition_dims t)) assertion_error
      >> for_all create_group (group_into dims [] (t ∷ ts)) s

  unfoldable pub build_consolidate : List ℕ → List (List PlanTask) → Step (List PlanTask)
  unfolding create
  build_consolidate dims (inputs ∷ []) s = consolidate_group dims inputs s
  build_consolidate dims _ s = raise assertion_error
