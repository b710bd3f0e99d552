-- ===== src/Scheduler/Budget.antt =====
-- How much `try_enqueue` can add to the queues: each task of the plan has one next run, which is
-- scheduled once.
use mathlib.Core.Option.{some-injective}
use smallpond.Prelude.{
  ℕ, zero, suc, ◌+◌, ◌≤◌, ◌<◌, ◌≡◌, refl, sym, ap, ◌∙◌, subst, true, false, inl, inr, List, [], ◌∷◌,
  ◌++◌, ◌==◌, some, length, length-append, arith, All, All-weaken, of_option-some, assertion_error,
  either_if, Bool-cases, Option-cases, if◌then◌else◌, Result, ok, guard, of_option, map_result,
  key_error, bind-ok, ok-injective, if_then, if_else,
}
use smallpond.Work.{same_status, succeed, TaskRuntimeId}
use smallpond.Scheduler.Lookup.{has_task-find, has_task-append, All-keep_done}
use smallpond.Scheduler.Enqueued.{has_run-append, has_run-last, next_run}
use smallpond.Scheduler.Enqueue.{enqueue_done, enqueue_new}
use smallpond.Scheduler.{
  Task, key_of, runtime_id, Config, State, find_task, has_task, keep_done, has_run,
  copy_task_for_execution, get_runnable_tasks, put_in_queue, for_each, enqueue_one, try_enqueue_on,
  try_enqueue,
}

abbrev run_in : ℕ → Task → TaskRuntimeId
run_in epoch t = record { id = t.info.id; epoch = epoch; retry = t.work.retry_count }

-- The number of tasks whose next run is not scheduled yet.
abbrev pub unscheduled : ℕ → List Task → List Task → ℕ
unscheduled epoch scheduled [] = 0
unscheduled epoch scheduled (t ∷ ts) =
    (if has_run (run_in epoch t) scheduled then 0 else 1) + unscheduled epoch scheduled ts

abbrev pub budget : State → ℕ
budget s = length s.sched_queue + unscheduled s.sched_epoch s.scheduled_tasks s.tasks

unscheduled-append :
    (epoch : ℕ) (ss : List Task) (c : Task) (ts : List Task)
    → unscheduled epoch (ss ++ c ∷ []) ts ≤ unscheduled epoch ss ts
unscheduled-append epoch ss c [] = omega arith
unscheduled-append epoch ss c (t ∷ ts) =
    ground (arith, unscheduled-append epoch ss c ts, has_run-append (run_in epoch t) ss (c ∷ []))

unscheduled-new :
    (epoch : ℕ) (ss : List Task) (c : Task) (k : ℕ) (ts : List Task) (t : Task)
    → find_task k ts ≡ some t
    → runtime_id c ≡ run_in epoch t
    → has_run (run_in epoch t) ss ≡ false
    → unscheduled epoch (ss ++ c ∷ []) ts < unscheduled epoch ss ts
unscheduled-new epoch ss c k [] t found same new = absurd (cc)
unscheduled-new epoch ss c k (u ∷ ts) t found same new = elim (Bool-cases (key_of u == k)) [
  | inl e ↦
      let here : u ≡ t = some-injective u t (rw e at found) in
      let now : has_run (run_in epoch u) (ss ++ c ∷ []) ≡ true =
        rw (here, ← same) (has_run-last c ss) in
      let before : has_run (run_in epoch u) ss ≡ false = rw here new in
      rw (now, before) (omega (arith, unscheduled-append epoch ss c ts))
  | inr e ↦ ground (
    arith,
    unscheduled-new epoch ss c k ts t (rw e at found) same new,
    has_run-append (run_in epoch u) ss (c ∷ []),
  )
]

-- A task of the plan, which a lookup finds.
abbrev pub IsKnown : State → Task → Type 0
IsKnown s t = find_task (key_of t) s.tasks ≡ some t

-- What a step may do to the queue: it keeps the tasks there, and adds no more than is accounted for.
pub record IsFrugal (s s' : State) : Type 0 where
  pub same_tasks : s'.tasks ≡ s.tasks
  pub same_epoch : s'.sched_epoch ≡ s.sched_epoch
  pub same_done : s'.succeeded_tasks ≡ s.succeeded_tasks
  pub keeps : (k : ℕ) → has_task k s.sched_queue ≡ true → has_task k s'.sched_queue ≡ true
  pub spends : budget s' ≤ budget s

pub IsFrugal-refl : (s : State) → IsFrugal s s
IsFrugal-refl s = record {
  same_tasks = refl;
  same_epoch = refl;
  same_done = refl;
  keeps = λ k h. h;
  spends = omega arith;
}

pub IsFrugal-trans : (a b c : State) → IsFrugal a b → IsFrugal b c → IsFrugal a c
IsFrugal-trans a b c h j = record {
  same_tasks = j.same_tasks ∙ h.same_tasks;
  same_epoch = j.same_epoch ∙ h.same_epoch;
  same_done = j.same_done ∙ h.same_done;
  keeps = λ k p. j.keeps k (h.keeps k p);
  spends = let p = h.spends in let q = j.spends in omega arith;
}

fetched-IsKnown :
    (ks : List ℕ) (ts us : List Task)
    → map_result (λ k. of_option key_error (find_task k ts)) ks ≡ ok us
    → All (λ u. find_task (key_of u) ts ≡ some u) us
fetched-IsKnown [] ts us e = subst (All _) (ok-injective e) tt
fetched-IsKnown (k ∷ ks) ts us e =
    let (u, got, e1) = bind-ok (of_option key_error (find_task k ts)) _ us e in
    let (rest, more, e2) =
      bind-ok (map_result (λ j. of_option key_error (find_task j ts)) ks) _ us e1 in
    let found = of_option-some key_error (find_task k ts) u got in
    let (_, same) = has_task-find k ts found in
    subst (All _) (ok-injective e2) (rw same found, fetched-IsKnown ks ts rest more)

runnable-IsKnown :
    (done : Task) (s : State) (us : List Task)
    → get_runnable_tasks done s ≡ ok us
    → All (IsKnown s) us
unfolding get_runnable_tasks
runnable-IsKnown done s us e =
    let (_, _, e1) =
      bind-ok (guard (same_status done.work.status succeed) assertion_error) _ us e in
    let (outputs, run, e2) =
      bind-ok (map_result (λ k. of_option key_error (find_task k s.tasks)) done.info.output_deps) _
        us e1 in
    subst (All (IsKnown s)) (ok-injective e2) (
      All-weaken _ _ (keep_done s.succeeded_tasks outputs) (λ t (known, _). known)
        (All-keep_done _ s.succeeded_tasks outputs
          (fetched-IsKnown done.info.output_deps s.tasks outputs run)))

module _ (cfg : Config) where
  put_in_queue-IsFrugal :
      (t c : Task) (s : State)
      → IsKnown s t
      → runtime_id c ≡ next_run s t
      → has_run (runtime_id c) s.scheduled_tasks ≡ false
      → IsFrugal s (put_in_queue cfg c s)
  unfolding put_in_queue
  put_in_queue-IsFrugal t c s known same new =
      let fewer =
        unscheduled-new s.sched_epoch s.scheduled_tasks c (key_of t) s.tasks t known same
          (rw same at new) in
      let saved = record s { scheduled_tasks = s.scheduled_tasks ++ c ∷ [] } in
      let here = record saved { local_queue = s.local_queue ++ c ∷ [] } in
      let there = record saved { sched_queue = s.sched_queue ++ c ∷ [] } in
      either_if (IsFrugal s) _ here there
        (record {
          same_tasks = refl;
          same_epoch = refl;
          same_done = refl;
          keeps = λ k h. h;
          spends = omega arith;
        })
        (record {
          same_tasks = refl;
          same_epoch = refl;
          same_done = refl;
          keeps = λ k h. has_task-append k s.sched_queue (c ∷ []) h;
          spends = omega (arith, length-append s.sched_queue (c ∷ []));
        })

  -- What `again` has to do.
  abbrev Saves : (List Task → State → Result State) → Type 0
  Saves again =
      (ts : List Task) (s s' : State) → All (IsKnown s) ts → again ts s ≡ ok s' → IsFrugal s s'

  enqueue_one-IsFrugal :
      (again : List Task → State → Result State) (t : Task) (s s' : State)
      → Saves again
      → IsKnown s t
      → enqueue_one cfg again t s ≡ ok s'
      → IsFrugal s s'
  unfolding enqueue_one copy_task_for_execution
  enqueue_one-IsFrugal again t s s' saves known e =
      let (c, copy, _) = bind-ok (copy_task_for_execution t s) _ s' e in
      let (inputs, _, made) =
        bind-ok
          (map_result (λ k. of_option key_error (find_task k s.succeeded_tasks)) t.info.input_deps)
          _ c copy in
      let same : runtime_id c ≡ next_run s t = sym (ap runtime_id (ok-injective made)) in
      elim (Option-cases (find_task (key_of c) s.succeeded_tasks)) [
        | inr (done, found) ↦
            let (us, run, ran) =
              bind-ok (get_runnable_tasks done s) _ s'
                (sym (enqueue_done cfg again t c s copy found) ∙ e) in
            saves us s s' (runnable-IsKnown done s us run) ran
        | inl missing ↦ elim (Bool-cases (has_run (runtime_id c) s.scheduled_tasks)) [
          | inl there ↦
              subst (IsFrugal s)
                (ok-injective
                  (sym (if_then _ _ _ _ (enqueue_new cfg again t c s copy missing) there) ∙ e))
                (IsFrugal-refl s)
          | inr new ↦
              subst (IsFrugal s)
                (ok-injective
                  (sym (if_else _ _ _ _ (enqueue_new cfg again t c s copy missing) new) ∙ e))
                (put_in_queue-IsFrugal t c s known same new)
        ]
      ]

  for_each-IsFrugal :
      (again : List Task → State → Result State)
      → Saves again
      → Saves (for_each (enqueue_one cfg again))
  for_each-IsFrugal again saves [] s s' known e =
      subst (IsFrugal s) (ok-injective e) (IsFrugal-refl s)
  for_each-IsFrugal again saves (t ∷ ts) s s' (known, rest) e =
      let (mid, run, more) = bind-ok (enqueue_one cfg again t s) _ s' e in
      let first = enqueue_one-IsFrugal again t s mid saves known run in
      IsFrugal-trans s mid s' first (
        for_each-IsFrugal again saves ts mid s'
          (subst (λ tasks. All (λ u. find_task (key_of u) tasks ≡ some u) ts) (sym first.same_tasks)
            rest)
          more)

  try_enqueue_on-IsFrugal : (fuel : ℕ) → Saves (try_enqueue_on cfg fuel)
  unfolding try_enqueue_on
  try_enqueue_on-IsFrugal zero [] s s' known e =
      subst (IsFrugal s) (ok-injective e) (IsFrugal-refl s)
  try_enqueue_on-IsFrugal zero (t ∷ ts) s s' known e = absurd (cc)
  try_enqueue_on-IsFrugal (suc fuel) ts s s' known e =
      for_each-IsFrugal (try_enqueue_on cfg fuel) (try_enqueue_on-IsFrugal fuel) ts s s' known e

  -- Enqueuing the tasks behind a done one.
  pub enqueue_behind-IsFrugal :
      (done : Task) (us : List Task) (s s' : State)
      → get_runnable_tasks done s ≡ ok us
      → try_enqueue cfg us s ≡ ok s'
      → IsFrugal s s'
  unfolding try_enqueue
  enqueue_behind-IsFrugal done us s s' run e =
      try_enqueue_on-IsFrugal cfg.fuel us s s' (runnable-IsKnown done s us run) e
