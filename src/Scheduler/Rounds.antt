-- ===== src/Scheduler/Rounds.antt =====
-- Rounds of the loop of `process_finished_tasks` on the state of a plan.
use smallpond.Prelude.{
  ◌<◌, ◌≡◌, ◌≢◌, inl, inr, refl, sym, ap, ◌∙◌, true, false, [], ◌∷◌, ◌++◌, append-nil, arith,
  Bool-cases, ok,
}
use smallpond.Work.{incomplete, succeed, same_status}
use smallpond.Scheduler.Lookup.{find_task-has, has_task-find, All-find}
use smallpond.Scheduler.Plan.{Plan, IsAcyclic, IsPlanned, IsReady, IsSound}
use smallpond.Scheduler.Sound.{others-IsSound, set_task-IsSound}
use smallpond.Scheduler.Enqueued.{has_run-last}
use smallpond.Scheduler.Safety.{handle_failure_total}
use smallpond.Scheduler.Success.{handle_success_total}
use smallpond.Scheduler.Finish.{
  set_task, note, unexpected, set_runtime_state, handle_failure, handle_success, handle_final,
  handle_finished,
}
use smallpond.Scheduler.{Task, key_of, runtime_id, Config, State, Origin, has_task, has_run}
use smallpond.Scheduler.Progress.{
  Progress, IsReturned, Progress-refl, scheduled-IsReady, succeeds, fails, fails_not, finals,
  runtime-IsPlanned, settled_task, checked_step, Handles, HasSeen,
}

module _ (p : Plan) (acyclic : IsAcyclic p) (cfg : Config) (enough : p.depth < cfg.fuel) where
  note-IsSound : (finished : Task) (s : State) → IsSound p s → IsSound p (note finished s)
  note-IsSound finished s i =
      others-IsSound p s (s.finished_tasks ++ finished ∷ []) s.succeeded_nontrivial_tasks
        s.sched_queue s.sched_running s.commands i

  failure_total :
      (origin : Origin) (finished : Task) (s : State)
      → IsSound p s
      → IsReady p s.succeeded_tasks finished
      → has_task (key_of finished) s.succeeded_tasks ≡ false
      → (s' : State) × (handle_failure cfg origin finished (note finished s) ≡ ok s')
        × Progress p s s'
        × (has_run (runtime_id finished) s'.finished_tasks ≡ true)
  failure_total origin finished s i (planned, ready) new =
      let (t, found) =
        find_task-has (key_of finished) s.tasks (i.present (key_of finished) planned.known) in
      let (s', f, ran, counted, kept, handled, sound, done, seen, many) =
        handle_failure_total p acyclic cfg enough origin finished t (note finished s)
          (note-IsSound finished s i) (planned, ready) new found in
      (
        s',
        ran,
        record {
          sound = sound;
          done = ([], done ∙ sym (append-nil s.succeeded_tasks));
          seen = (finished ∷ [], seen);
        },
        ap (has_run (runtime_id finished)) seen ∙ has_run-last finished s.finished_tasks,
      )

  success_total :
      (finished : Task) (s : State)
      → IsSound p s
      → IsPlanned p finished
      → finished.work.status ≡ succeed
      → (s' : State) × (handle_success cfg finished (note finished s) ≡ ok s')
        × Progress p s s'
        × (has_run (runtime_id finished) s'.finished_tasks ≡ true)
  success_total finished s i planned done =
      let (t, found) =
        find_task-has (key_of finished) s.tasks (i.present (key_of finished) planned.known) in
      let (s', ran, r) =
        handle_success_total p acyclic cfg enough finished t (note finished s)
          (note-IsSound finished s i) planned done found in
      (
        s',
        ran,
        record { sound = r.sound; done = (finished ∷ [], r.done); seen = (finished ∷ [], r.seen) },
        ap (has_run (runtime_id finished)) r.seen ∙ has_run-last finished s.finished_tasks,
      )

  pub handle_final_total :
      (origin : Origin) (finished : Task) (s : State)
      → IsSound p s
      → IsReturned p finished
      → finished.work.status ≢ incomplete
      → (same_status finished.work.status succeed ≡ false → IsReady p s.succeeded_tasks finished)
      → Handles p (handle_final cfg origin finished s) s
        × HasSeen finished (handle_final cfg origin finished s)
  unfolding handle_final
  handle_final_total origin finished s i returned final ready =
      elim (Bool-cases (has_run (runtime_id finished) s.finished_tasks)) [
        | inl again ↦ rw again ((s, 0, refl, Progress-refl p s i, omega arith), again)
        | inr first ↦ elim (Bool-cases (has_task (key_of finished) s.succeeded_tasks)) [
          | inl done ↦
              rw (first, done)
                (
                  (
                    note finished s,
                    1,
                    refl,
                    record {
                      sound = note-IsSound finished s i;
                      done = ([], sym (append-nil s.succeeded_tasks));
                      seen = (finished ∷ [], refl);
                    },
                    omega arith,
                  ),
                  has_run-last finished s.finished_tasks,
                )
          | inr new ↦ elim (Bool-cases (same_status finished.work.status succeed)) [
            | inl well ↦
                let (s', ran, progress, seen) =
                  success_total finished s i returned.planned
                    (succeeds finished.work.status well) in
                rw (first, new, fails_not finished.work.status well, checked_step well ran)
                  ((s', 1, refl, progress, omega arith), seen)
            | inr badly ↦
                let (s', ran, progress, seen) =
                  failure_total origin finished s i (ready badly) new in
                rw (first, new, fails finished.work.status final returned.begun badly, ran)
                  ((s', 1, refl, progress, omega arith), seen)
          ]
        ]
      ]

  pub expected-IsReady :
      (finished : Task) (s : State)
      → IsSound p s
      → IsPlanned p finished
      → unexpected finished s ≡ false
      → same_status finished.work.status succeed ≡ false
      → IsReady p s.succeeded_tasks finished
  expected-IsReady finished s i planned h badly =
      elim (Bool-cases (has_run (runtime_id finished) s.scheduled_tasks)) [
        | inl there ↦
            scheduled-IsReady p finished s.succeeded_tasks s.scheduled_tasks planned i.scheduled
              there
        | inr missing ↦ (planned, ground arith)
      ]

  -- A round with a task of the plan raises nothing, and keeps the state sound and what is done.
  pub handle_finished_total :
      (origin : Origin) (finished : Task) (s : State)
      → IsSound p s
      → IsReturned p finished
      → Handles p (handle_finished cfg origin finished s) s
  unfolding handle_finished
  handle_finished_total origin finished s i returned =
      let (t, found) =
        find_task-has (key_of finished) s.tasks
          (i.present (key_of finished) returned.planned.known) in
      elim (Bool-cases (unexpected finished s)) [
        | inl odd ↦ rw odd (s, 0, refl, Progress-refl p s i, omega arith)
        | inr expected ↦ elim (Bool-cases (same_status finished.work.status incomplete)) [
          | inl early ↦
              rw (expected, early, found)
                (
                  set_task (key_of finished) (set_runtime_state finished.info.runtime_state t) s,
                  0,
                  refl,
                  record {
                    sound =
                        set_task-IsSound p (key_of finished)
                          (set_runtime_state finished.info.runtime_state t) s i
                          (runtime-IsPlanned p _ t
                            (All-find (IsPlanned p) (key_of finished) s.tasks i.planned found))
                          (has_task-find (key_of finished) s.tasks found).1
                          (settled_task (key_of finished) t s
                            (All-find _ (key_of finished) s.tasks i.settled found)
                            (has_task-find (key_of finished) s.tasks found).1);
                    done = ([], sym (append-nil s.succeeded_tasks));
                    seen = ([], sym (append-nil s.finished_tasks));
                  },
                  omega arith,
                )
          | inr final ↦
              rw (expected, final)
                (handle_final_total origin finished s i returned (finals finished.work.status final)
                  (expected-IsReady finished s i returned.planned expected)).0
        ]
      ]
