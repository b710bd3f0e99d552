-- ===== src/Executor/Pool.antt =====
-- smallpond/execution/executor.py, `SimplePool`. A process is a number, and what the processes have come
-- to when the executor looks at them is an argument.
use smallpond.Prelude.{
  ℕ, ◌+◌, ◌-◌, Bool, true, false, ◌&&◌, List, [], ◌∷◌, ◌++◌, Option, none, some, length, take, drop,
  ◌==◌, if◌then◌else◌,
}

-- What the processes have come to: the exit code of one that has exited.
abbrev pub Exits : Type 0
Exits = ℕ → Option ℕ

pub record Pool : Type 0 where
  pub queued_tasks : List ℕ
  pub running_tasks : List ℕ
  pub started : List ℕ
  pub stopping : List ℕ
  pub next_task : ℕ

abbrev pub has_started : ℕ → List ℕ → Bool
has_started t [] = false
has_started t (u ∷ us) = if u == t then true else has_started t us

abbrev pub has_exited : Option ℕ → Bool
has_exited none = false
has_exited (some code) = true

-- `SimplePoolTask.ready`
abbrev pub ready : Exits → Pool → ℕ → Bool
ready exits p t = has_started t p.started && has_exited (exits t)

abbrev pub still_running : Exits → Pool → List ℕ → List ℕ
still_running exits p [] = []
still_running exits p (t ∷ ts) =
    if ready exits p t then still_running exits p ts else t ∷ still_running exits p ts

unfoldable pub apply_async : Pool → ℕ × Pool
apply_async p = (
  p.next_task,
  record p { queued_tasks = p.queued_tasks ++ p.next_task ∷ []; next_task = p.next_task + 1 },
)

-- The pool never runs more tasks than its size, so that no slice counts from the end.
unfoldable pub update_queue : ℕ → Exits → Pool → Pool
update_queue pool_size exits p =
    let running = still_running exits p p.running_tasks in
    let room = pool_size - length running in
    record p {
      queued_tasks = drop room p.queued_tasks;
      running_tasks = running ++ take room p.queued_tasks;
      started = p.started ++ take room p.queued_tasks;
    }
