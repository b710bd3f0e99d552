-- ===== src/Scheduler/Rescue.antt =====
-- `Scheduler.update_executor_states`: the tasks on an executor that fails are tried again.
use smallpond.Prelude.{
  ℕ, ◌<◌, ◌≡◌, refl, sym, ◌∙◌, subst, true, inl, inr, List, [], ◌∷◌, map, All, All-weaken,
  Bool-cases, Option-cases, none, some, ap, arith, ◌>>=◌, if◌then◌else◌, ok, bind_step,
}
use smallpond.Remote.{RemoteExecutor, alive, update_state}
use smallpond.Scheduler.Plan.{Plan, IsAcyclic, IsReady, IsSound}
use smallpond.Work.{WorkItem}
use smallpond.Scheduler.{Task, key_of, Config, State, for_each}
use smallpond.Scheduler.Recover.{
  as_task, reschedule, reschedule_work, newly_failed, fail_works, update_one,
  update_executor_states,
}
use smallpond.Scheduler.Recovery.{IsTried, IsKept, IsKept-refl, IsKept-trans, reschedules_total}

abbrev pub tasks_in : List WorkItem → List Task
tasks_in [] = []
tasks_in (w ∷ ws) = elim (as_task w) [ none ↦ tasks_in ws | some t ↦ t ∷ tasks_in ws ]

reschedule_works :
    (cfg : Config) (ws : List WorkItem) (s : State)
    → for_each (reschedule_work cfg) ws s ≡ for_each (reschedule cfg) (tasks_in ws) s
unfolding reschedule_work
reschedule_works cfg [] s = refl
reschedule_works cfg (w ∷ ws) s = elim (Option-cases (as_task w)) [
  | inl no_task ↦ rw (no_task, reschedule_work, tasks_in) (reschedule_works cfg ws s)
  | inr (t, is_task) ↦
      rw (is_task, reschedule_work, tasks_in)
        (ap (◌>>=◌ (reschedule cfg t s)) (λ i s1. reschedule_works cfg ws s1 i))
]

module _ {Q : Type 0} where
  update_state-works :
      (max_missed epoch : ℕ) (e : RemoteExecutor Q)
      → (update_state max_missed epoch e).0.running_works ≡ e.running_works
  unfolding update_state
  update_state-works max_missed epoch e = ground arith

  -- The executor after the update: if it has just failed, so have its works.
  abbrev pub updated : ℕ → ℕ → RemoteExecutor Q → RemoteExecutor Q
  updated max_missed epoch e =
      let after = (update_state max_missed epoch e).0 in
      if alive e then if newly_failed e after then fail_works after else after else e

  -- If the executor has just failed, its tasks are tried.
  abbrev pub IsRescued : ℕ → ℕ → State → RemoteExecutor Q → Type 0
  IsRescued max_missed epoch s e =
      alive e ≡ true
      → newly_failed e (update_state max_missed epoch e).0 ≡ true
      → All (λ t. IsTried s (key_of t)) (tasks_in e.running_works)

module _ (p : Plan) (acyclic : IsAcyclic p) (cfg : Config) (enough : p.depth < cfg.fuel) where
  module _ {Q : Type 0} (max_missed epoch : ℕ) where
    update_one_total :
        (e : RemoteExecutor Q) (s : State)
        → IsSound p s
        → All (IsReady p s.succeeded_tasks) (tasks_in e.running_works)
        → (s' : State) × ((if alive e then update_one cfg max_missed epoch e s else ok (e, s))
            ≡ ok (updated max_missed epoch e, s'))
          × IsKept p s s'
          × IsRescued max_missed epoch s' e
    unfolding update_one
    update_one_total e s i ready = elim (Bool-cases (alive e)) [
      | inr dead ↦ (s, rw dead refl, IsKept-refl p acyclic cfg enough s i, λ a. absurd (cc))
      | inl live ↦ elim (Bool-cases (newly_failed e (update_state max_missed epoch e).0)) [
        | inr fine ↦
            (s, rw (live, fine) refl, IsKept-refl p acyclic cfg enough s i, λ a b. absurd (cc))
        | inl failed ↦
            let (s', ran, k, tried) =
              reschedules_total p acyclic cfg enough (tasks_in e.running_works) s i ready in
            let ran' =
              ap (λ ws. for_each (reschedule_work cfg) ws s) (update_state-works max_missed epoch e)
              ∙ reschedule_works cfg e.running_works s
              ∙ ran in
            (s', rw (live, failed) (bind_step _ ran'), k, λ a b. tried)
      ]
    ]

    IsRescued-still :
        (s s' : State) (e : RemoteExecutor Q)
        → IsKept p s s'
        → IsRescued max_missed epoch s e
        → IsRescued max_missed epoch s' e
    IsRescued-still s s' e k r = λ a b.
        All-weaken (λ t. IsTried s (key_of t)) (λ t. IsTried s' (key_of t))
          (tasks_in e.running_works) (λ t. k.still (key_of t)) (r a b)

    -- In a sound state in which the inputs of all running tasks are done, with fuel beyond the
    -- longest chain of the plan, updating the executors raises nothing, also where an executor runs
    -- what is no task, and leaves a sound state with the same tasks done and seen: each executor that
    -- is alive is updated, and if it has just failed, its works have the status `EXEC_FAILED` and each
    -- of its tasks is done or has its next run scheduled.
    pub update_executor_states_total :
        (es : List (RemoteExecutor Q)) (s : State)
        → IsSound p s
        → All (λ e. All (IsReady p s.succeeded_tasks) (tasks_in e.running_works)) es
        → (s' : State) × (update_executor_states cfg max_missed epoch es s
            ≡ ok (map (updated max_missed epoch) es, s'))
          × IsKept p s s'
          × All (IsRescued max_missed epoch s') es
    unfolding update_executor_states
    update_executor_states_total [] s i h = (s, refl, IsKept-refl p acyclic cfg enough s i, tt)
    update_executor_states_total (e ∷ es) s i (ready, all) =
        let (s1, ran, k, rescued) = update_one_total e s i ready in
        let (s2, ran', k', rescued') = update_executor_states_total es s1 k.sound (
          subst (λ done. All (λ e. All (IsReady p done) (tasks_in e.running_works)) es)
            (sym k.same_done) all) in
        (
          s2,
          bind_step _ ran ∙ bind_step _ ran',
          IsKept-trans p acyclic cfg enough s s1 s2 k k',
          (IsRescued-still s1 s2 e k' rescued, rescued'),
        )
