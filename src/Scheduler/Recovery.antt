-- ===== src/Scheduler/Recovery.antt =====
-- Tasks on failed and on slow executors are tried again.
use smallpond.Prelude.{
  ℕ, ◌<◌, ◌≡◌, refl, sym, ap, ◌∙◌, subst, ◌⊎◌, true, false, inl, inr, List, [], ◌∷◌, some, All,
  arith, ◌==◌, ==_iff, Bool-cases, ok, bind_step,
}
use smallpond.Scheduler.Lookup.{find_task-has, has_task-find, All-find, find_task-modify}
use smallpond.Scheduler.Plan.{Plan, IsAcyclic, IsPlanned, IsReady, IsSound}
use smallpond.Scheduler.Enqueued.{Enqueued-IsSound, next_run}
use smallpond.Scheduler.Enqueue.{try_enqueue_total}
use smallpond.Scheduler.Sound.{set_task-IsSound, same_key-IsReady}
use smallpond.Scheduler.Finish.{set_task}
use smallpond.Scheduler.Safety.{
  retry, retry-IsPlanned, get_retry_task_total, find_task-modify_same, unsettled_task,
}
use smallpond.Scheduler.{Task, key_of, Config, State, find_task, has_task, has_run, for_each}
use smallpond.Scheduler.Recover.{retry_task, reschedule}

-- The task with a key has succeeded, or its next run, the one that the plan counts, is scheduled.
abbrev pub IsTried : State → ℕ → Type 0
IsTried s k =
    (has_task k s.succeeded_tasks ≡ true)
    ⊎ ((r : Task) × (find_task k s.tasks ≡ some r)
        × (has_run (next_run s r) s.scheduled_tasks ≡ true))

-- What a retry keeps.
pub record IsKept (p : Plan) (s s' : State) : Type 0 where
  pub sound : IsSound p s'
  pub same_done : s'.succeeded_tasks ≡ s.succeeded_tasks
  pub same_finished : s'.finished_tasks ≡ s.finished_tasks
  pub still : (j : ℕ) → IsTried s j → IsTried s' j

module _ (p : Plan) (acyclic : IsAcyclic p) (cfg : Config) (enough : p.depth < cfg.fuel) where
  pub retry_task_total :
      (t : Task) (s : State)
      → IsSound p s
      → IsReady p s.succeeded_tasks t
      → has_task (key_of t) s.succeeded_tasks ≡ false
      → (s' : State) × (retry_task cfg (key_of t) s ≡ ok s') × IsKept p s s' × IsTried s' (key_of t)
  unfolding retry_task
  retry_task_total t s i (planned, ready) new =
      let k = key_of t in
      let has = i.present k planned.known in
      let (r, found) = find_task-has k s.tasks has in
      let (_, same) = has_task-find k s.tasks found in
      let planned_r = All-find (IsPlanned p) k s.tasks i.planned found in
      let unsettled = unsettled_task p acyclic cfg enough k r s i new found in
      let state =
        set_task-IsSound p k (retry r) s i (retry-IsPlanned p acyclic cfg enough r planned_r) same
          (λ h. absurd (ground arith)) in
      let (s', ran, enq, (handled, _)) =
        try_enqueue_total p cfg acyclic enough (retry r ∷ []) (set_task k (retry r) s) state (
          same_key-IsReady p (retry r) t s.succeeded_tasks same
              (retry-IsPlanned p acyclic cfg enough r planned_r) (planned, ready),
          tt,
        ) in
      let tried : IsTried s' k = elim handled [
        | inl done ↦ inl (subst (λ j. has_task j s'.succeeded_tasks ≡ true) same done)
        | inr run ↦ inr (
          retry r,
          ap (find_task k) enq.same_tasks ∙ find_task-modify_same k (retry r) s.tasks same has,
          run,
        )
      ] in
      (
        s',
        bind_step _ (get_retry_task_total k r s found unsettled) ∙ ran,
        record {
          sound = Enqueued-IsSound p _ s' state enq;
          same_done = enq.same_done;
          same_finished = enq.same_finished;
          still = λ j h. elim h [
            | inl done ↦ inl (rw enq.same_done done)
            | inr (u, found_u, run) ↦ elim (Bool-cases (k == j)) [
              | inl it ↦ subst (IsTried s') ((==_iff k j).0 it) tried
              | inr other ↦ inr (
                u,
                ap (find_task j) enq.same_tasks
                    ∙ find_task-modify k j (retry r) s.tasks same
                    ∙ rw other found_u,
                rw enq.same_epoch (enq.keeps (next_run s u) run),
              )
            ]
          ];
        },
        tried,
      )

  pub IsKept-refl : (s : State) → IsSound p s → IsKept p s s
  IsKept-refl s i = record { sound = i; same_done = refl; same_finished = refl; still = λ j h. h }

  pub IsKept-trans : (a b c : State) → IsKept p a b → IsKept p b c → IsKept p a c
  IsKept-trans a b c h j = record {
    sound = j.sound;
    same_done = j.same_done ∙ h.same_done;
    same_finished = j.same_finished ∙ h.same_finished;
    still = λ k m. j.still k (h.still k m);
  }

  reschedule_total :
      (t : Task) (s : State)
      → IsSound p s
      → IsReady p s.succeeded_tasks t
      → (s' : State) × (reschedule cfg t s ≡ ok s') × IsKept p s s' × IsTried s' (key_of t)
  unfolding reschedule
  reschedule_total t s i ready = elim (Bool-cases (has_task (key_of t) s.succeeded_tasks)) [
    | inl done ↦ (s, rw done refl, IsKept-refl s i, inl done)
    | inr new ↦
        let (s', ran, k, tried) = retry_task_total t s i ready new in (s', rw new ran, k, tried)
  ]

  pub reschedules_total :
      (ts : List Task) (s : State)
      → IsSound p s
      → All (IsReady p s.succeeded_tasks) ts
      → (s' : State) × (for_each (reschedule cfg) ts s ≡ ok s')
        × IsKept p s s'
        × All (λ t. IsTried s' (key_of t)) ts
  reschedules_total [] s i h = (s, refl, IsKept-refl s i, tt)
  reschedules_total (t ∷ ts) s i (ready, h) =
      let (s1, ran, k, tried) = reschedule_total t s i ready in
      let (s2, ran', k', all) =
        reschedules_total ts s1 k.sound
          (subst (λ done. All (IsReady p done) ts) (sym k.same_done) h) in
      (s2, rw ran ran', IsKept-trans s s1 s2 k k', (k'.still (key_of t) tried, all))
