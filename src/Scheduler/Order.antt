-- ===== src/Scheduler/Order.antt =====
-- smallpond/execution/scheduler.py, `dispatch_tasks`: the order in which the queue is dispatched. The
-- tasks of each node are sorted, and the nodes take turns.
use smallpond.Prelude.{
  ℕ, Bool, true, false, ◌&&◌, ◌||◌, List, [], ◌∷◌, map, flatten, none, some, ltb, ◌==◌,
  if◌then◌else◌,
}
use smallpond.Common.{zip_longest, keep_some}
use smallpond.Sorts.{sort_with}
use smallpond.Scheduler.{Task}

abbrev pub node_of : Task → ℕ
node_of t = t.info.node_id

abbrev pub node_lt : Task → Task → Bool
node_lt a b = ltb (node_of a) (node_of b)

-- `item_sort_key`, which puts retries first or last.
abbrev pub item_lt : Bool → Task → Task → Bool
item_lt true a b =
    ltb b.work.retry_count a.work.retry_count
    || (a.work.retry_count == b.work.retry_count) && ltb a.info.id b.info.id
item_lt false a b =
    ltb a.work.retry_count b.work.retry_count
    || (a.work.retry_count == b.work.retry_count) && ltb a.info.id b.info.id

-- `itertools.groupby(ts, key=node_of)`
abbrev pub add_to_run : Task → List (List Task) → List (List Task)
add_to_run t ((u ∷ us) ∷ gs) =
    if node_of t == node_of u then (t ∷ u ∷ us) ∷ gs else (t ∷ []) ∷ (u ∷ us) ∷ gs
add_to_run t gs = (t ∷ []) ∷ gs

unfoldable pub group_runs : List Task → List (List Task)
group_runs [] = []
group_runs (t ∷ ts) = add_to_run t (group_runs ts)

-- The items of the columns, without the fill.
unfoldable pub take_turns : List (List Task) → List Task
unfolding zip_longest keep_some flatten
take_turns gs = keep_some (flatten (zip_longest none (map (map some) gs)))

unfoldable pub order_queue : Bool → List Task → List Task
unfolding sort_with group_runs take_turns
order_queue prioritize_retry queue =
    take_turns (map (sort_with (item_lt prioritize_retry)) (group_runs (sort_with node_lt queue)))
