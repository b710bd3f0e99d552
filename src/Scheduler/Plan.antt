-- ===== src/Scheduler/Plan.antt =====
-- The plan that a scheduler runs: the tasks with the tasks before and after each, and what is true
-- of a scheduler's state between two rounds of `process_finished_tasks`.
use smallpond.Prelude.{ℕ, ◌≤◌, ◌<◌, ◌≡◌, Bool, true, false, List, [], ◌∷◌, All}
use smallpond.Work.{succeed}
use smallpond.Scheduler.{Task, key_of, runtime_id, State, has_task, has_run, all_done}

-- `key_of_id` is the key of the task with an id.
pub record Plan : Type 0 where
  pub member : ℕ → Bool
  pub key_of_id : ℕ → ℕ
  pub inputs : ℕ → List ℕ
  pub outputs : ℕ → List ℕ
  pub rank : ℕ → ℕ
  pub depth : ℕ

-- The tasks after a task are of the plan, and there is no cycle.
pub record IsAcyclic (p : Plan) : Type 0 where
  pub onward :
      (k : ℕ)
      → p.member k ≡ true
      → All (λ j. (p.member j ≡ true) × (p.rank k < p.rank j)) (p.outputs k)
  pub bounded : (k : ℕ) → p.member k ≡ true → p.rank k ≤ p.depth

-- A task, or a copy of it, with the dependencies that the plan has.
pub record IsPlanned (p : Plan) (t : Task) : Type 0 where
  pub known : p.member (key_of t) ≡ true
  pub keyed : p.key_of_id t.info.id ≡ key_of t
  pub before : t.info.input_deps ≡ p.inputs (key_of t)
  pub after : t.info.output_deps ≡ p.outputs (key_of t)

-- A task of the plan with all inputs done.
abbrev pub IsReady : Plan → List Task → Task → Type 0
IsReady p done t = IsPlanned p t × (all_done t.info.input_deps done ≡ true)

-- No run of a task occurs twice.
abbrev pub Distinct : List Task → Type 0
Distinct [] = Unit
Distinct (t ∷ ts) = (has_run (runtime_id t) ts ≡ false) × Distinct ts

pub record IsSound (p : Plan) (s : State) : Type 0 where
  pub planned : All (IsPlanned p) s.tasks
  pub present : (k : ℕ) → p.member k ≡ true → has_task k s.tasks ≡ true
  pub succeeded : All (λ t. IsPlanned p t × (t.work.status ≡ succeed)) s.succeeded_tasks
  pub settled :
      All (λ t. t.work.status ≡ succeed → has_task (key_of t) s.succeeded_tasks ≡ true) s.tasks
  pub scheduled : All (IsReady p s.succeeded_tasks) s.scheduled_tasks
  pub distinct : Distinct s.scheduled_tasks
