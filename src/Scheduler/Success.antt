-- ===== src/Scheduler/Success.antt =====
-- The branch of `process_finished_tasks` for a task that succeeds, on the state of a plan.
use smallpond.Prelude.{
  ℕ, ◌<◌, ◌≡◌, inl, inr, refl, sym, ap, ◌∙◌, subst, true, List, [], ◌∷◌, ◌++◌, Option, some, All,
  ◌==◌, Bool-cases, either_if, if◌then◌else◌, ok, guard, of_option, map_result, bind_step, bind-ok,
  ok-injective, key_error, assertion_error,
}
use smallpond.Work.{succeed, same_status}
use smallpond.Scheduler.Lookup.{has_task-find, All-find, All-map}
use smallpond.Scheduler.Plan.{Plan, IsAcyclic, IsPlanned, IsSound}
use smallpond.Scheduler.Fetch.{runnable_total}
use smallpond.Scheduler.Enqueued.{Enqueued, Enqueued-IsSound, IsHandled}
use smallpond.Scheduler.Enqueue.{try_enqueue_total}
use smallpond.Scheduler.Sound.{
  others-IsSound, set_task-IsSound, record_success-IsSound, has_task-last,
}
use smallpond.Scheduler.Safety.{find_task-modify_same}
use smallpond.Scheduler.Finish.{set_task, tell, record_success, handle_success}
use smallpond.Scheduler.{
  Task, key_of, stop_executors, Config, State, find_task, all_done, keep_done, get_runnable_tasks,
  save_task_final_state,
}

-- What holds of the tasks after a task, as far as all of their inputs are done.
abbrev pub OfReady {κ} : (Task → Type κ) → List Task → List Task → ℕ → Type κ
OfReady H tasks done j =
    (u : Task) → find_task j tasks ≡ some u → all_done u.info.input_deps done ≡ true → H u

of_option-same {ℓ} :
    {A : Type ℓ} {o : Option A} {x y : A} → o ≡ some x → of_option key_error o ≡ ok y → y ≡ x
of_option-same {x = x} {y = y} h k = ok-injective (sym k ∙ ap (of_option key_error) h)

All-kept {κ} :
    (H : Task → Type κ) (done : List Task) (v : Task) (vs : List Task)
    → All H (keep_done done (v ∷ vs))
    → (all_done v.info.input_deps done ≡ true → H v) × All H (keep_done done vs)
All-kept H done v vs h = elim (Bool-cases (all_done v.info.input_deps done)) [
  | inl e ↦ let (first, others) = rw e at h in ((λ r. first), others)
  | inr e ↦ ((λ r. absurd (cc)), rw e at h)
]

keep_done-OfReady {κ} :
    (H : Task → Type κ) (tasks done : List Task) (ks : List ℕ) (us : List Task)
    → map_result (λ k. of_option key_error (find_task k tasks)) ks ≡ ok us
    → All H (keep_done done us)
    → All (OfReady H tasks done) ks
keep_done-OfReady H tasks done [] us run h = tt
keep_done-OfReady H tasks done (k ∷ ks) us run h =
    let (v, fetched, more) = bind-ok (of_option key_error (find_task k tasks)) _ us run in
    let (vs, rest, whole) =
      bind-ok (map_result (λ j. of_option key_error (find_task j tasks)) ks) _ us more in
    let (first, others) =
      All-kept H done v vs (subst (λ ws. All H (keep_done done ws)) (sym (ok-injective whole)) h) in
    (
      (λ u found ready. subst H (of_option-same found fetched) (
          first (
            subst (λ w. all_done w.info.input_deps done ≡ true) (sym (of_option-same found fetched))
              ready))),
      keep_done-OfReady H tasks done ks vs rest others,
    )

runnable-OfReady {κ} :
    (H : Task → Type κ) (finished : Task) (s : State) (us : List Task)
    → get_runnable_tasks finished s ≡ ok us
    → All H us
    → All (OfReady H s.tasks s.succeeded_tasks) finished.info.output_deps
unfolding get_runnable_tasks
runnable-OfReady H finished s us run h =
    let (_, checked, rest) =
      bind-ok (guard (same_status finished.work.status succeed) assertion_error) _ us run in
    let (vs, fetched, kept) =
      bind-ok
        (map_result (λ k. of_option key_error (find_task k s.tasks)) finished.info.output_deps) _ us
        rest in
    keep_done-OfReady H s.tasks s.succeeded_tasks finished.info.output_deps vs fetched
      (subst (All H) (sym (ok-injective kept)) h)

save-IsPlanned :
    (p : Plan) (finished t : Task) → IsPlanned p t → IsPlanned p (save_task_final_state finished t)
unfolding save_task_final_state
save-IsPlanned p finished t h = record {
  known = h.known;
  keyed = h.keyed;
  before = h.before;
  after = h.after;
}

-- What the first success of a task does to the state: the task is done, the plan has its final
-- state, and every task behind it with all inputs done has succeeded too or is scheduled.
pub record IsRecorded (p : Plan) (finished t : Task) (s s' : State) : Type 0 where
  pub sound : IsSound p s'
  pub done : s'.succeeded_tasks ≡ s.succeeded_tasks ++ finished ∷ []
  pub seen : s'.finished_tasks ≡ s.finished_tasks
  pub saved : find_task (key_of finished) s'.tasks ≡ some (save_task_final_state finished t)
  pub outputs : All (OfReady (IsHandled s') s'.tasks s'.succeeded_tasks) finished.info.output_deps

stopping-IsRecorded :
    (p : Plan) (finished t : Task) (s s' : State)
    → IsRecorded p finished t s s'
    → IsRecorded p finished t s (tell stop_executors (record s' { sched_queue = [] }))
stopping-IsRecorded p finished t s s' h = record {
  sound =
      others-IsSound p s' s'.finished_tasks s'.succeeded_nontrivial_tasks [] s'.sched_running
        (s'.commands ++ stop_executors ∷ []) h.sound;
  done = h.done;
  seen = h.seen;
  saved = h.saved;
  outputs = h.outputs;
}

module _ (p : Plan) (acyclic : IsAcyclic p) (cfg : Config) (enough : p.depth < cfg.fuel) where
  save_success : Task → Task → State → State
  save_success finished t s =
      set_task (key_of finished) (save_task_final_state finished t) (record_success finished s)

  saved-IsSound :
      (finished t : Task) (s : State)
      → IsSound p s
      → IsPlanned p finished
      → finished.work.status ≡ succeed
      → find_task (key_of finished) s.tasks ≡ some t
      → IsSound p (
          set_task (key_of finished) (save_task_final_state finished t) (record_success finished s))
  unfolding record_success save_task_final_state
  saved-IsSound finished t s i planned done found =
      let (has, same) = has_task-find (key_of finished) s.tasks found in
      set_task-IsSound p (key_of finished) (save_task_final_state finished t)
        (record_success finished s) (record_success-IsSound p finished s i planned done)
        (save-IsPlanned p finished t
          (All-find (IsPlanned p) (key_of finished) s.tasks i.planned found))
        same (λ h. has_task-last finished s.succeeded_tasks)

  Enqueued-IsRecorded :
      (finished t : Task) (s e : State) (us : List Task)
      → IsSound p s
      → IsPlanned p finished
      → finished.work.status ≡ succeed
      → find_task (key_of finished) s.tasks ≡ some t
      → get_runnable_tasks finished (
          set_task (key_of finished) (save_task_final_state finished t) (record_success finished s))
        ≡ ok us
      → Enqueued p
          (set_task
            (key_of finished)
            (save_task_final_state finished t)
            (record_success finished s))
          e
      → All (IsHandled e) us
      → IsRecorded p finished t s e
  unfolding record_success save_task_final_state
  Enqueued-IsRecorded finished t s e us i planned done found run enq handled =
      let (has, same) = has_task-find (key_of finished) s.tasks found in
      record {
        sound = Enqueued-IsSound p _ e (saved-IsSound finished t s i planned done found) enq;
        done = enq.same_done;
        seen = enq.same_finished;
        saved =
            ap (find_task (key_of finished)) enq.same_tasks
            ∙ find_task-modify_same (key_of finished) (save_task_final_state finished t) s.tasks
                same has;
        outputs =
            subst (λ d. All (OfReady (IsHandled e) e.tasks d) finished.info.output_deps)
              (sym enq.same_done)
              (subst
                (λ ts.
                  All (OfReady (IsHandled e) ts (s.succeeded_tasks ++ finished ∷ []))
                    finished.info.output_deps)
                (sym enq.same_tasks) (runnable-OfReady (IsHandled e) finished _ us run handled));
      }

  -- In a sound state, with fuel beyond the longest chain of the plan, a success of a planned task
  -- raises nothing and is recorded: the task is done, the plan has its final state, and every task
  -- behind it with all inputs done has succeeded as well or is scheduled.
  pub handle_success_total :
      (finished t : Task) (s : State)
      → IsSound p s
      → IsPlanned p finished
      → finished.work.status ≡ succeed
      → find_task (key_of finished) s.tasks ≡ some t
      → (s' : State) × (handle_success cfg finished s ≡ ok s') × IsRecorded p finished t s s'
  unfolding handle_success
  handle_success_total finished t s i planned done found =
      let saved = saved-IsSound finished t s i planned done found in
      let (us, run, behind) = runnable_total p acyclic finished _ saved planned done in
      let (e, ran, enq, handled) =
        try_enqueue_total p cfg acyclic enough us _ saved
          (All-map _ _ us (λ u (r, less). r) behind) in
      let recorded = Enqueued-IsRecorded finished t s e us i planned done found run enq handled in
      (
        (if finished.info.id == cfg.root_task_id
            then tell stop_executors (record e { sched_queue = [] })
            else e),
        bind_step {r = of_option key_error (find_task (key_of finished) s.tasks)} {x = t} _
              (rw found refl)
            ∙ bind_step _ run
            ∙ bind_step _ ran,
        either_if (IsRecorded p finished t s) _ _ _ (stopping-IsRecorded p finished t s e recorded)
            recorded,
      )
