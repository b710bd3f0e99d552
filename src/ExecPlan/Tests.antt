-- ===== src/ExecPlan/Tests.antt =====
-- Runs of `iter_tasks` (smallpond/execution/task.py) on a small plan.
use smallpond.Prelude.{◌≡◌, refl, List, [], ◌∷◌, All, ok, raise, assertion_error}
use smallpond.ExecPlan.{Task, task, nil, cons, task_key, iter_tasks, tasks}
use smallpond.ExecPlan.Visits.{Distinct, Has, keys, input_keys, tasks_total}

abbrev shared : Task
shared = task 3 nil

abbrev left : Task
left = task 1 (cons shared nil)

abbrev right : Task
right = task 2 (cons shared nil)

-- A task that two tasks share.
abbrev root : Task
root = task 0 (cons left (cons right nil))

shared_once : tasks root ≡ ok (root ∷ left ∷ shared ∷ right ∷ [])
unfolding tasks
shared_once = refl

visited_root : iter_tasks shared (5 ∷ 3 ∷ []) ≡ raise assertion_error
unfolding iter_tasks
visited_root = refl

tasks_total_example :
    (ts : List Task) × (tasks root ≡ ok ts)
    × Distinct ts
    × Has (keys ts) (task_key root)
    × All (λ t. All (Has (keys ts)) (input_keys t)) ts
tasks_total_example = tasks_total root
