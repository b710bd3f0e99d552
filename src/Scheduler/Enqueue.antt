-- ===== src/Scheduler/Enqueue.antt =====
-- `try_enqueue`: it raises nothing, its fuel suffices, and it schedules every task that is ready.
use smallpond.Prelude.{
  ℕ, zero, suc, ◌+◌, ◌<◌, ◌≡◌, refl, sym, ap, ◌∙◌, subst, true, false, inl, inr, List, [], ◌∷◌,
  none, some, arith, All, Bool-cases, either_if, if_then, if_else, Option-cases, if◌then◌else◌,
  Result, ok, ◌>>=◌,
}
use smallpond.Scheduler.Lookup.{has_task-find, All-find, All-map}
use smallpond.Scheduler.Plan.{Plan, IsAcyclic, IsReady, IsSound}
use smallpond.Scheduler.{
  Task, key_of, runtime_id, Config, State, find_task, has_run, copy_task_for_execution,
  get_runnable_tasks, put_in_queue, for_each, enqueue_copied, enqueue_one, try_enqueue_on,
  try_enqueue,
}
use smallpond.Scheduler.Fetch.{copied, copy_total, copied-IsPlanned, IsBehind, runnable_total}
use smallpond.Scheduler.Enqueued.{
  has_run-last, Enqueued, IsHandled, Enqueued-refl, Enqueued-trans, Enqueued-IsSound,
  Enqueued-IsHandled, scheduled-Enqueued,
}

module _ (cfg : Config) where
  -- The three ways that a round of the loop goes.
  pub enqueue_done :
      (again : List Task → State → Result State) (t c : Task) (s : State) {done : Task}
      → copy_task_for_execution t s ≡ ok c
      → find_task (key_of c) s.succeeded_tasks ≡ some done
      → enqueue_one cfg again t s ≡ (get_runnable_tasks done s >>= λ us. again us s)
  unfolding enqueue_one enqueue_copied
  enqueue_done again t c s copy found =
      ap (λ r. r >>= λ u. enqueue_copied cfg again u s) copy ∙ rw (found, enqueue_copied) refl

  pub enqueue_new :
      (again : List Task → State → Result State) (t c : Task) (s : State)
      → copy_task_for_execution t s ≡ ok c
      → find_task (key_of c) s.succeeded_tasks ≡ none
      → enqueue_one cfg again t s
        ≡ (if has_run (runtime_id c) s.scheduled_tasks then ok s else ok (put_in_queue cfg c s))
  unfolding enqueue_one enqueue_copied
  enqueue_new again t c s copy missing =
      ap (λ r. r >>= λ u. enqueue_copied cfg again u s) copy ∙ rw (missing, enqueue_copied) refl

module _ (p : Plan) where
  -- A step that raises nothing and handles the tasks.
  abbrev pub Enqueues : Result State → State → List Task → Type 0
  Enqueues r s ts = (s' : State) × (r ≡ ok s') × Enqueued p s s' × All (IsHandled s') ts

  module _ (cfg : Config) where
    put_in_queue-Enqueued :
        (c : Task) (s : State)
        → IsSound p s
        → IsReady p s.succeeded_tasks c
        → has_run (runtime_id c) s.scheduled_tasks ≡ false
        → Enqueued p s (put_in_queue cfg c s)
          × (has_run (runtime_id c) (put_in_queue cfg c s).scheduled_tasks ≡ true)
    unfolding put_in_queue
    put_in_queue-Enqueued c s i ready new =
        either_if (λ s'. Enqueued p s s' × (has_run (runtime_id c) s'.scheduled_tasks ≡ true)) _ _ _
          (scheduled-Enqueued p c s s i ready new _ _, has_run-last c s.scheduled_tasks)
          (scheduled-Enqueued p c s s i ready new _ _, has_run-last c s.scheduled_tasks)

    enqueue_one-Enqueues :
        (acyclic : IsAcyclic p) (again : List Task → State → Result State) (t : Task) (s : State)
        → IsSound p s
        → IsReady p s.succeeded_tasks t
        → ((ts : List Task) → All (IsBehind p t s) ts → Enqueues (again ts s) s ts)
        → Enqueues (enqueue_one cfg again t s) s (t ∷ [])
    enqueue_one-Enqueues acyclic again t s i (planned, ready) call =
        let (inputs, copy) = copy_total t s ready in
        elim (Option-cases (find_task (key_of t) s.succeeded_tasks)) [
          | inr (done, found) ↦
              let (known, succeeded) = All-find _ (key_of t) s.succeeded_tasks i.succeeded found in
              let (has, same) = has_task-find (key_of t) s.succeeded_tasks found in
              let (us, run, behind) = runnable_total p acyclic done s i known succeeded in
              let (s', ran, enq, handled) = call us (
                subst
                  (λ k.
                    All (λ u. IsReady p s.succeeded_tasks u × (p.rank k < p.rank (key_of u))) us)
                  same behind) in
              (
                s',
                enqueue_done cfg again t (copied inputs s t) s copy found
                    ∙ ap (λ r. r >>= λ vs. again vs s) run
                    ∙ ran,
                enq,
                (inl (rw enq.same_done has), tt),
              )
          | inl none_yet ↦
              elim (Bool-cases (has_run (runtime_id (copied inputs s t)) s.scheduled_tasks)) [
                | inl there ↦ (
                  s,
                  if_then _ _ _ _ (enqueue_new cfg again t (copied inputs s t) s copy none_yet)
                      there,
                  Enqueued-refl p s i,
                  (inr there, tt),
                )
                | inr new ↦
                    let (enq, has) =
                      put_in_queue-Enqueued (copied inputs s t) s i
                        (copied-IsPlanned p inputs s t planned, ready) new in
                    (
                      put_in_queue cfg (copied inputs s t) s,
                      if_else _ _ _ _ (enqueue_new cfg again t (copied inputs s t) s copy none_yet)
                          new,
                      enq,
                      (inr (rw enq.same_epoch has), tt),
                    )
              ]
        ]

    -- What `again` has to do when `n` calls of it are left.
    abbrev pub Calls : ℕ → (List Task → State → Result State) → Type 0
    Calls n again =
        (ts : List Task) (s : State)
        → IsSound p s
        → All (λ t. IsReady p s.succeeded_tasks t × (p.depth < p.rank (key_of t) + n)) ts
        → Enqueues (again ts s) s ts

    for_each-Enqueues :
        (acyclic : IsAcyclic p) (n : ℕ) (again : List Task → State → Result State)
        → Calls n again
        → Calls (suc n) (for_each (enqueue_one cfg again))
    for_each-Enqueues acyclic n again call [] s i h = (s, refl, Enqueued-refl p s i, tt)
    for_each-Enqueues acyclic n again call (t ∷ ts) s i ((ready, enough), h) =
        let (s', ran, enq, (handled, _)) =
          enqueue_one-Enqueues acyclic again t s i ready
            (λ us behind. call us s i (All-map _ _ us (λ u (r, less). (r, omega arith)) behind)) in
        let (s'', ran', enq', all) =
          for_each-Enqueues acyclic n again call ts s' (Enqueued-IsSound p s s' i enq) (
            subst (λ done. All (λ u. IsReady p done u × (p.depth < p.rank (key_of u) + suc n)) ts)
              (sym enq.same_done) h) in
        (
          s'',
          rw ran ran',
          Enqueued-trans p s s' s'' enq enq',
          (Enqueued-IsHandled p s' s'' t enq' handled, all),
        )

    try_enqueue_on-Enqueues : IsAcyclic p → (n : ℕ) → Calls n (try_enqueue_on cfg n)
    unfolding try_enqueue_on
    try_enqueue_on-Enqueues acyclic zero [] s i h = (s, refl, Enqueued-refl p s i, tt)
    try_enqueue_on-Enqueues acyclic zero (t ∷ ts) s i (((planned, ready), enough), h) =
        let most = acyclic.bounded (key_of t) planned.known in absurd (omega arith)
    try_enqueue_on-Enqueues acyclic (suc n) ts s i h =
        for_each-Enqueues acyclic n (try_enqueue_on cfg n) (try_enqueue_on-Enqueues acyclic n) ts s
          i h

    -- With fuel beyond the longest chain of the plan, `try_enqueue` of ready tasks in a sound state
    -- raises nothing. It changes neither the plan's tasks nor those done, schedules only ready tasks
    -- and no run twice, and leaves each of the tasks either done or with its next run scheduled.
    pub try_enqueue_total :
        IsAcyclic p
        → p.depth < cfg.fuel
        → (ts : List Task) (s : State) → IsSound p s
        → All (IsReady p s.succeeded_tasks) ts
        → Enqueues (try_enqueue cfg ts s) s ts
    unfolding try_enqueue
    try_enqueue_total acyclic enough ts s i h =
        try_enqueue_on-Enqueues acyclic cfg.fuel ts s i (All-map _ _ ts (λ t r. (r, omega arith)) h)
