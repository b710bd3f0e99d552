-- ===== src/Scheduler/Fetch.antt =====
-- The tasks that `copy_task_for_execution` and `get_runnable_tasks` look up are there.
use smallpond.Prelude.{
  ℕ, ◌<◌, ◌≡◌, refl, true, inl, inr, List, [], ◌∷◌, map, some, All, Bool-cases, ok,
}
use smallpond.Work.{succeed, DataSet}
use smallpond.Scheduler.Lookup.{
  find_task-has, has_task-find, All-find, All-map, fetch_total, All-keep_done,
}
use smallpond.Scheduler.Plan.{Plan, IsAcyclic, IsPlanned, IsReady, IsSound}
use smallpond.Scheduler.{
  Task, key_of, output, State, find_task, has_task, all_done, keep_done, copy_task_for_execution,
  get_runnable_tasks,
}

all_done-All :
    (ks : List ℕ) (ts : List Task)
    → all_done ks ts ≡ true
    → All (λ k. (t : Task) × (find_task k ts ≡ some t) × Unit {0}) ks
all_done-All [] ts h = tt
all_done-All (k ∷ ks) ts h = elim (Bool-cases (has_task k ts)) [
  | inl there ↦
      let (t, found) = find_task-has k ts there in
      ((t, found, tt), all_done-All ks ts (rw there at h))
  | inr missing ↦ absurd (cc)
]

-- A copy of a task with other inputs and epoch.
abbrev pub copied : List DataSet → State → Task → Task
copied inputs s t = record t {
  info = record t.info { input_datasets = inputs; sched_epoch = s.sched_epoch };
}

pub copy_total :
    (t : Task) (s : State)
    → all_done t.info.input_deps s.succeeded_tasks ≡ true
    → (inputs : List DataSet) × (copy_task_for_execution t s ≡ ok (copied inputs s t))
unfolding copy_task_for_execution
copy_total t s h =
    let (us, run, all) =
      fetch_total (λ u. Unit {0}) t.info.input_deps s.succeeded_tasks (all_done-All _ _ h) in
    (map output us, rw run refl)

module _ (p : Plan) where
  pub copied-IsPlanned :
      (inputs : List DataSet) (s : State) (t : Task)
      → IsPlanned p t
      → IsPlanned p (copied inputs s t)
  copied-IsPlanned inputs s t i = record {
    known = i.known;
    keyed = i.keyed;
    before = i.before;
    after = i.after;
  }

  abbrev pub IsBehind : Task → State → Task → Type 0
  IsBehind done s t = IsReady p s.succeeded_tasks t × (p.rank (key_of done) < p.rank (key_of t))

  output-IsPlanned :
      (s : State)
      → IsSound p s
      → (r j : ℕ) → (p.member j ≡ true) × (r < p.rank j)
      → (t : Task) × (find_task j s.tasks ≡ some t) × (IsPlanned p t × (r < p.rank (key_of t)))
  output-IsPlanned s i r j (known, less) =
      let (t, found) = find_task-has j s.tasks (i.present j known) in
      let (has, same) = has_task-find j s.tasks found in
      (t, found, (All-find (IsPlanned p) j s.tasks i.planned found, rw same less))

  pub runnable_total :
      IsAcyclic p
      → (done : Task) (s : State) → IsSound p s
      → IsPlanned p done
      → done.work.status ≡ succeed
      → (ts : List Task) × (get_runnable_tasks done s ≡ ok ts) × All (IsBehind done s) ts
  unfolding get_runnable_tasks
  runnable_total acyclic done s i d ok_status =
      let (us, run, all) =
        fetch_total (λ u. IsPlanned p u × (p.rank (key_of done) < p.rank (key_of u)))
          done.info.output_deps s.tasks
          (rw d.after (
            All-map _ _ _ (output-IsPlanned s i (p.rank (key_of done)))
              (acyclic.onward (key_of done) d.known))) in
      (
        keep_done s.succeeded_tasks us,
        rw (ok_status, run) refl,
        All-map _ _ _ (λ t ((planned, less), ready). ((planned, ready), less))
            (All-keep_done _ s.succeeded_tasks us all),
      )
