-- ===== src/Scheduler/Enqueued.antt =====
-- What enqueuing changes, and what enqueuing one more run keeps.
use smallpond.Prelude.{
  ◌≡◌, refl, sym, ◌∙◌, subst, true, false, ◌⊎◌, inl, inr, List, [], ◌∷◌, ◌++◌, arith, All,
}
use smallpond.Work.{succeed, same_runtime_id, TaskRuntimeId}
use smallpond.Scheduler.Lookup.{All-append}
use smallpond.Scheduler.Plan.{Plan, IsPlanned, IsReady, Distinct, IsSound}
use smallpond.Scheduler.{Task, key_of, runtime_id, State, has_task, has_run}

pub has_run-append :
    (id : TaskRuntimeId) (ts us : List Task) → has_run id ts ≡ true → has_run id (ts ++ us) ≡ true
has_run-append id [] us h = cc
has_run-append id (t ∷ ts) us h = ground (arith, has_run-append id ts us)

pub has_run-last : (t : Task) (ts : List Task) → has_run (runtime_id t) (ts ++ t ∷ []) ≡ true
has_run-last t [] = ground arith
has_run-last t (u ∷ ts) = ground (arith, has_run-last t ts)

has_run-other :
    (id : TaskRuntimeId) (t : Task) (ts : List Task)
    → has_run id ts ≡ false
    → same_runtime_id (runtime_id t) id ≡ false
    → has_run id (ts ++ t ∷ []) ≡ false
has_run-other id t [] h n = ground arith
has_run-other id t (u ∷ ts) h n = ground (arith, has_run-other id t ts)

Distinct-append :
    (ts : List Task) (t : Task)
    → Distinct ts
    → has_run (runtime_id t) ts ≡ false
    → Distinct (ts ++ t ∷ [])
Distinct-append [] t d h = (refl, tt)
Distinct-append (u ∷ ts) t (new, d) h =
    (has_run-other (runtime_id u) t ts new (ground arith), Distinct-append ts t d (ground arith))

-- The run of a task that `try_enqueue` puts in a queue.
abbrev pub next_run : State → Task → TaskRuntimeId
next_run s t = record { id = t.info.id; epoch = s.sched_epoch; retry = t.work.retry_count }

-- What enqueuing changes: it adds runs of ready tasks to those scheduled.
pub record Enqueued (p : Plan) (s s' : State) : Type 0 where
  pub same_tasks : s'.tasks ≡ s.tasks
  pub same_done : s'.succeeded_tasks ≡ s.succeeded_tasks
  pub same_finished : s'.finished_tasks ≡ s.finished_tasks
  pub same_epoch : s'.sched_epoch ≡ s.sched_epoch
  pub same_running : s'.sched_running ≡ s.sched_running
  pub keeps :
      (id : TaskRuntimeId)
      → has_run id s.scheduled_tasks ≡ true
      → has_run id s'.scheduled_tasks ≡ true
  pub ready : All (IsReady p s'.succeeded_tasks) s'.scheduled_tasks
  pub distinct : Distinct s'.scheduled_tasks

-- A task that has succeeded, or whose next run is scheduled.
abbrev pub IsHandled : State → Task → Type 0
IsHandled s t =
    (has_task (key_of t) s.succeeded_tasks ≡ true)
    ⊎ (has_run (next_run s t) s.scheduled_tasks ≡ true)

module _ (p : Plan) where
  pub Enqueued-refl : (s : State) → IsSound p s → Enqueued p s s
  Enqueued-refl s i = record {
    same_tasks = refl;
    same_done = refl;
    same_finished = refl;
    same_epoch = refl;
    same_running = refl;
    keeps = λ id h. h;
    ready = i.scheduled;
    distinct = i.distinct;
  }

  pub Enqueued-trans : (a b c : State) → Enqueued p a b → Enqueued p b c → Enqueued p a c
  Enqueued-trans a b c h j = record {
    same_tasks = j.same_tasks ∙ h.same_tasks;
    same_done = j.same_done ∙ h.same_done;
    same_finished = j.same_finished ∙ h.same_finished;
    same_epoch = j.same_epoch ∙ h.same_epoch;
    same_running = j.same_running ∙ h.same_running;
    keeps = λ id k. j.keeps id (h.keeps id k);
    ready = j.ready;
    distinct = j.distinct;
  }

  pub Enqueued-IsSound : (s s' : State) → IsSound p s → Enqueued p s s' → IsSound p s'
  Enqueued-IsSound s s' i e = record {
    planned = subst (All (IsPlanned p)) (sym e.same_tasks) i.planned;
    present = λ k m. rw e.same_tasks (i.present k m);
    succeeded =
        subst (All (λ t. IsPlanned p t × (t.work.status ≡ succeed))) (sym e.same_done) i.succeeded;
    settled = rw (e.same_tasks, e.same_done) i.settled;
    scheduled = e.ready;
    distinct = e.distinct;
  }

  pub Enqueued-IsHandled :
      (s s' : State) (t : Task) → Enqueued p s s' → IsHandled s t → IsHandled s' t
  Enqueued-IsHandled s s' t e (inl h) = inl (rw e.same_done h)
  Enqueued-IsHandled s s' t e (inr h) = inr (rw e.same_epoch (e.keeps _ h))

  -- A state with one more run scheduled, whatever queue it is in.
  pub scheduled-Enqueued :
      (c : Task) (s s' : State)
      → IsSound p s
      → IsReady p s.succeeded_tasks c
      → has_run (runtime_id c) s.scheduled_tasks ≡ false
      → (local sched : List Task)
      → Enqueued p s (record s {
        scheduled_tasks = s.scheduled_tasks ++ c ∷ [];
        local_queue = local;
        sched_queue = sched;
      })
  scheduled-Enqueued c s s' i ready new local sched = record {
    same_tasks = refl;
    same_done = refl;
    same_finished = refl;
    same_epoch = refl;
    same_running = refl;
    keeps = λ id. has_run-append id s.scheduled_tasks (c ∷ []);
    ready = All-append (IsReady p s.succeeded_tasks) s.scheduled_tasks c i.scheduled ready;
    distinct = Distinct-append s.scheduled_tasks c i.distinct new;
  }
