-- ===== src/ExecPlan.antt =====
-- smallpond/execution/task.py, `ExecutionPlan.iter_tasks` and `tasks`. A task is its key and the tasks
-- before it; the generator is the list of what it yields, run to its end, with the set of keys that
-- it and its caller share.
pub mod Visits
mod Tests
use smallpond.Prelude.{
  ℕ, List, [], ◌∷◌, ◌++◌, if◌then◌else◌, Result, ok, raise, ◌>>=◌, assertion_error,
}
use smallpond.Planner.Tasks.{has_key}

mutual
  pub data Task : Type 0 where
    task : (key : ℕ) → Tasks → Task

  pub data Tasks : Type 0 where
    nil : Tasks
    cons : Task → Tasks → Tasks

abbrev pub task_key : Task → ℕ
task_key (task key deps) = key

unfoldable mutual
  pub iter_tasks : Task → List ℕ → Result (List Task × List ℕ)
  iter_tasks (task key deps) visited =
      let below = iter_deps deps (key ∷ visited) in
      if has_key key visited
      then raise assertion_error
      else (do (ts, seen) ← below; ok (task key deps ∷ ts, seen))

  pub iter_deps : Tasks → List ℕ → Result (List Task × List ℕ)
  iter_deps nil visited = ok ([], visited)
  iter_deps (cons t ts) visited =
      let first = iter_tasks t visited in
      do
        (us, seen) ← if has_key (task_key t) visited then ok ([], visited) else first
        (rest, all_seen) ← iter_deps ts seen
        ok (us ++ rest, all_seen)

-- The tasks that the root yields, by key.
unfoldable pub tasks : Task → Result (List Task)
unfolding iter_tasks
tasks root = do (ts, seen) ← iter_tasks root []; ok ts
