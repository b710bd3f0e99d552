-- ===== src/Scheduler/Sound.antt =====
-- Steps of `process_finished_tasks` that keep a scheduler's state sound.
use smallpond.Prelude.{
  ℕ, ◌≡◌, sym, ap, ◌∙◌, subst, Bool, true, inl, inr, List, [], ◌∷◌, ◌++◌, arith, All, ◌==◌,
  Bool-cases,
}
use smallpond.Work.{succeed}
use smallpond.Scheduler.Lookup.{has_task-append, all_done-append, All-append, All-map}
use smallpond.Scheduler.Plan.{Plan, IsPlanned, IsReady, IsSound}
use smallpond.Scheduler.Finish.{set_task, record_success}
use smallpond.Scheduler.{Task, key_of, Command, State, all_done, has_task, modify_task}

All-modify {κ} :
    (P : Task → Type κ) (k : ℕ) (new : Task) (ts : List Task)
    → All P ts
    → P new
    → All P (modify_task k (λ _. new) ts)
All-modify P k new [] h n = tt
All-modify P k new (t ∷ ts) (q, h) n = elim (Bool-cases (key_of t == k)) [
  | inl e ↦ rw e (n, h)
  | inr e ↦ rw e (q, All-modify P k new ts h n)
]

has_task-modify :
    (j k : ℕ) (new : Task) (ts : List Task)
    → key_of new ≡ k
    → has_task j ts ≡ true
    → has_task j (modify_task k (λ _. new) ts) ≡ true
has_task-modify j k new [] e h = h
has_task-modify j k new (t ∷ ts) e h = ground (arith, has_task-modify j k new ts e)

pub has_task-last : (t : Task) (ts : List Task) → has_task (key_of t) (ts ++ t ∷ []) ≡ true
has_task-last t [] = ground arith
has_task-last t (u ∷ ts) = ground (arith, has_task-last t ts)

module _ (p : Plan) where
  -- Fields that no task depends on.
  pub others-IsSound :
      (s : State) (finished nontrivial queue : List Task) (running : Bool) (commands : List Command)
      → IsSound p s
      → IsSound p (record s {
        finished_tasks = finished;
        succeeded_nontrivial_tasks = nontrivial;
        sched_queue = queue;
        sched_running = running;
        commands = commands;
      })
  others-IsSound s f n q r c i = record {
    planned = i.planned;
    present = i.present;
    succeeded = i.succeeded;
    settled = i.settled;
    scheduled = i.scheduled;
    distinct = i.distinct;
  }

  pub set_task-IsSound :
      (k : ℕ) (new : Task) (s : State)
      → IsSound p s
      → IsPlanned p new
      → key_of new ≡ k
      → (new.work.status ≡ succeed → has_task k s.succeeded_tasks ≡ true)
      → IsSound p (set_task k new s)
  set_task-IsSound k new s i planned same done = record {
    planned = All-modify (IsPlanned p) k new s.tasks i.planned planned;
    present = λ j m. has_task-modify j k new s.tasks same (i.present j m);
    succeeded = i.succeeded;
    settled =
        All-modify (λ t. t.work.status ≡ succeed → has_task (key_of t) s.succeeded_tasks ≡ true) k
          new s.tasks i.settled (λ h. rw same (done h));
    scheduled = i.scheduled;
    distinct = i.distinct;
  }

  pub record_success-IsSound :
      (finished : Task) (s : State)
      → IsSound p s
      → IsPlanned p finished
      → finished.work.status ≡ succeed
      → IsSound p (record_success finished s)
  unfolding record_success
  record_success-IsSound finished s i planned done = record {
    planned = i.planned;
    present = i.present;
    succeeded = All-append _ s.succeeded_tasks finished i.succeeded (planned, done);
    settled =
        All-map _ _ s.tasks (λ t h e. has_task-append (key_of t) s.succeeded_tasks _ (h e))
          i.settled;
    scheduled =
        All-map _ _ s.scheduled_tasks
          (λ t (q, h). (q, all_done-append t.info.input_deps s.succeeded_tasks _ h)) i.scheduled;
    distinct = i.distinct;
  }

  -- Tasks of the plan with the same key have the same inputs.
  pub same_key-IsReady :
      (t u : Task) (done : List Task)
      → key_of t ≡ key_of u
      → IsPlanned p t
      → IsReady p done u
      → IsReady p done t
  same_key-IsReady t u done same planned (q, h) = (
    planned,
    subst (λ ks. all_done ks done ≡ true) (q.before ∙ ap p.inputs (sym same) ∙ sym planned.before)
        h,
  )
