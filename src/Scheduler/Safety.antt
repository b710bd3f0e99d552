-- ===== src/Scheduler/Safety.antt =====
-- The branch of `process_finished_tasks` for a failed task, on the state of a plan.
use smallpond.Prelude.{
  ℕ, ◌+◌, ◌<◌, ◌≡◌, refl, ap, ◌∙◌, subst, Bool, true, false, not, ◌&&◌, inl, inr, List, [], ◌∷◌,
  ◌++◌, some, arith, ltb, Bool-cases, ok, ◌>>=◌, of_option, bind_step, key_error,
}
use smallpond.Work.{succeed, same_status}
use smallpond.Scheduler.Lookup.{has_task-find, All-find, find_task-modify}
use smallpond.Scheduler.Plan.{Plan, IsAcyclic, IsPlanned, IsReady, IsSound}
use smallpond.Scheduler.Enqueued.{Enqueued, Enqueued-IsSound, IsHandled}
use smallpond.Scheduler.Enqueue.{try_enqueue_total}
use smallpond.Scheduler.Sound.{others-IsSound, set_task-IsSound, same_key-IsReady}
use smallpond.Scheduler.Failure.{IsCounted, failed_once_total}
use smallpond.Scheduler.Finish.{set_task, count_failure, stop_after_failure, handle_failure}
use smallpond.Scheduler.{
  Task, key_of, Command, stop_executors, stop_one, Config, State, Origin, find_task, has_task,
  modify_task, try_enqueue, get_retry_task,
}

-- The task for the next try.
abbrev pub retry : Task → Task
retry t = record t { work = record t.work { retry_count = t.work.retry_count + 1 } }

pub get_retry_task_total :
    (k : ℕ) (t : Task) (s : State)
    → find_task k s.tasks ≡ some t
    → same_status t.work.status succeed ≡ false
    → get_retry_task k s ≡ ok (retry t, set_task k (retry t) s)
unfolding get_retry_task
get_retry_task_total k t s found unsettled =
    bind_step {r = of_option key_error (find_task k s.tasks)} {x = t} _ (rw found refl)
    ∙ rw unsettled refl

-- A failure stops the job when a task has failed too often, and changes no other field but the
-- commands to executors.
stop_after_failure-same :
    (cfg : Config) (origin : Origin) (t : Task) (s : State)
    → (running : Bool) × (commands : List Command) × (stop_after_failure cfg origin t s
        ≡ record s { sched_running = running; commands = commands })
      × (cfg.max_fail_count < t.work.fail_count → running ≡ false)
unfolding stop_after_failure
stop_after_failure-same cfg origin t s =
    elim (Bool-cases (ltb cfg.max_fail_count t.work.fail_count)) [
      | inl many ↦ elim (Bool-cases (not origin.is_local && cfg.stop_executor_on_failure)) [
        | inl stop ↦ (
          false,
          (s.commands ++ stop_executors ∷ []) ++ stop_one origin.exec_id ∷ [],
          rw (many, stop) refl,
          λ h. refl,
        )
        | inr stay ↦ (false, s.commands ++ stop_executors ∷ [], rw (many, stay) refl, λ h. refl)
      ]
      | inr few ↦ elim (Bool-cases (not origin.is_local && cfg.stop_executor_on_failure)) [
        | inl stop ↦ (
          s.sched_running,
          s.commands ++ stop_one origin.exec_id ∷ [],
          rw (few, stop) refl,
          λ h. absurd (ground arith),
        )
        | inr stay ↦ (s.sched_running, s.commands, rw (few, stay) refl, λ h. absurd (ground arith))
      ]
    ]

pub find_task-modify_same :
    (k : ℕ) (new : Task) (ts : List Task)
    → key_of new ≡ k
    → has_task k ts ≡ true
    → find_task k (modify_task k (λ _. new) ts) ≡ some new
find_task-modify_same k new ts same has = find_task-modify k k new ts same ∙ ground arith

module _ (p : Plan) (acyclic : IsAcyclic p) (cfg : Config) (enough : p.depth < cfg.fuel) where
  pub retry-IsPlanned : (t : Task) → IsPlanned p t → IsPlanned p (retry t)
  retry-IsPlanned t h = record {
    known = h.known;
    keyed = h.keyed;
    before = h.before;
    after = h.after;
  }

  retry_failed_total :
      (k : ℕ) (f : Task) (s : State)
      → IsSound p s
      → IsReady p s.succeeded_tasks f
      → key_of f ≡ k
      → same_status f.work.status succeed ≡ false
      → (s' : State) × ((get_retry_task k (set_task k f s) >>= λ (retried, counted).
            try_enqueue cfg (retried ∷ []) counted)
          ≡ ok s')
        × Enqueued p (set_task k (retry f) (set_task k f s)) s'
        × IsSound p s'
        × IsHandled s' (retry f)
        × (find_task k s'.tasks ≡ some (retry f))
  retry_failed_total k f s i (planned, ready) same unsettled =
      let has = rw same at (i.present (key_of f) planned.known) in
      let failed_state = set_task-IsSound p k f s i planned same (λ h. absurd (ground arith)) in
      let retried = retry-IsPlanned f planned in
      let retry_state =
        set_task-IsSound p k (retry f) (set_task k f s) failed_state retried same
          (λ h. absurd (ground arith)) in
      let (s', ran, enq, (handled, _)) =
        try_enqueue_total p cfg acyclic enough (retry f ∷ [])
          (set_task k (retry f) (set_task k f s)) retry_state ((retried, ready), tt) in
      (
        s',
        bind_step _ (
              get_retry_task_total k f (set_task k f s) (find_task-modify_same k f s.tasks same has)
                unsettled)
            ∙ ran,
        enq,
        Enqueued-IsSound p _ s' retry_state enq,
        handled,
        ap (find_task k) enq.same_tasks
            ∙ find_task-modify_same k (retry f) (modify_task k (λ _. f) s.tasks) same (
                subst (λ j. has_task j (modify_task k (λ _. f) s.tasks) ≡ true) same
                  (failed_state.present (key_of f) planned.known)),
      )

  counted-IsPlanned : (t f : Task) → IsPlanned p t → IsCounted t f → IsPlanned p f
  counted-IsPlanned t f planned h = record {
    known = rw h.same_key planned.known;
    keyed = rw (h.same_info, h.same_key) planned.keyed;
    before = rw (h.same_info, h.same_key) planned.before;
    after = rw (h.same_info, h.same_key) planned.after;
  }

  pub unsettled_task :
      (k : ℕ) (t : Task) (s : State)
      → IsSound p s
      → has_task k s.succeeded_tasks ≡ false
      → find_task k s.tasks ≡ some t
      → same_status t.work.status succeed ≡ false
  unsettled_task k t s i new found =
      let settled =
        All-find (λ u. u.work.status ≡ succeed → has_task (key_of u) s.succeeded_tasks ≡ true) k
          s.tasks i.settled found in
      let (has, same) = has_task-find k s.tasks found in ground arith

  -- In a sound state, with fuel beyond the longest chain of the plan, a failure of a ready task that
  -- has not succeeded raises nothing: the plan has the task with one failure and one retry more and
  -- no less memory, the retry is scheduled or the task done, nothing else is done or seen, and after
  -- more failures than allowed the job stops.
  pub handle_failure_total :
      (origin : Origin) (finished t : Task) (s : State)
      → IsSound p s
      → IsReady p s.succeeded_tasks finished
      → has_task (key_of finished) s.succeeded_tasks ≡ false
      → find_task (key_of finished) s.tasks ≡ some t
      → (s' : State) × (f : Task) × (handle_failure cfg origin finished s ≡ ok s')
        × IsCounted t f
        × (find_task (key_of finished) s'.tasks ≡ some (retry f))
        × IsHandled s' (retry f)
        × IsSound p s'
        × (s'.succeeded_tasks ≡ s.succeeded_tasks)
        × (s'.finished_tasks ≡ s.finished_tasks)
        × (cfg.max_fail_count < f.work.fail_count → s'.sched_running ≡ false)
  unfolding handle_failure
  handle_failure_total origin finished t s i (ready, done) new found =
      let (running, commands, stop, many) =
        stop_after_failure-same cfg origin (count_failure t) s in
      let (has, same) = has_task-find (key_of finished) s.tasks found in
      let planned = All-find (IsPlanned p) (key_of finished) s.tasks i.planned found in
      let (f, failed_run, counted) = failed_once_total cfg origin finished t in
      let base =
        others-IsSound p s s.finished_tasks s.succeeded_nontrivial_tasks s.sched_queue running
          commands i in
      let (s', ran, enq, sound, handled, kept) =
        retry_failed_total (key_of finished) f _ base
          (same_key-IsReady p f finished s.succeeded_tasks (counted.same_key ∙ same)
            (counted-IsPlanned t f planned counted) (ready, done))
          (counted.same_key ∙ same)
          (rw counted.same_status (unsettled_task (key_of finished) t s i new found)) in
      (
        s',
        f,
        bind_step {r = of_option key_error (find_task (key_of finished) s.tasks)} {x = t} _
              (rw found refl)
            ∙ bind_step _ failed_run
            ∙ ap
                (λ a.
                  get_retry_task (key_of finished) (set_task (key_of finished) f a)
                  >>= λ (retried, after). try_enqueue cfg (retried ∷ []) after)
                stop
            ∙ ran,
        counted,
        kept,
        handled,
        sound,
        enq.same_done,
        enq.same_finished,
        λ h. enq.same_running ∙ many (rw counted.fails at h),
      )
