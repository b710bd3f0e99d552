-- ===== src/Scheduler/Speculate.antt =====
-- `Scheduler.start_speculative_execution`: slow tasks are tried again.
use smallpond.Prelude.{
  ℕ, ◌<◌, ◌≡◌, refl, sym, ◌∙◌, subst, ◌&&◌, inl, inr, List, [], ◌∷◌, All, ltb, ◌==◌, Bool-cases, ok,
  of_option, bind_step, key_error,
}
use smallpond.Scheduler.Lookup.{find_task-has}
use smallpond.Scheduler.Plan.{Plan, IsAcyclic, IsReady, IsSound}
use smallpond.Scheduler.{Task, key_of, Config, State, find_task, has_task}
use smallpond.Scheduler.Recover.{Speculation, is_overdue, speculate, start_speculative_execution}
use smallpond.Scheduler.Recovery.{IsKept, IsKept-refl, IsKept-trans, retry_task_total}

module _ (p : Plan) (acyclic : IsAcyclic p) (cfg : Config) (enough : p.depth < cfg.fuel) where
  module _ (spec : Speculation) (num_good : ℕ) where
    speculate_total :
        (t : Task) (s : State)
        → IsSound p s
        → IsReady p s.succeeded_tasks t
        → (s' : State) × (speculate cfg spec num_good t s ≡ ok s') × IsKept p s s'
    unfolding speculate
    speculate_total t s i (planned, ready) =
        elim (Bool-cases (has_task (key_of t) s.succeeded_tasks)) [
          | inl done ↦ (s, rw done refl, IsKept-refl p acyclic cfg enough s i)
          | inr new ↦
              elim (Bool-cases (spec.allowed t && ltb t.work.retry_count spec.max_retry_count)) [
                | inr barred ↦ (s, rw (new, barred) refl, IsKept-refl p acyclic cfg enough s i)
                | inl allowed ↦
                    let (r, found) =
                      find_task-has (key_of t) s.tasks (i.present (key_of t) planned.known) in
                    let (s', ran, k, _) =
                      retry_task_total p acyclic cfg enough t s i (planned, ready) new in
                    elim (Bool-cases (
                      (t.work.retry_count == r.work.retry_count)
                      && is_overdue cfg spec num_good t s)) [
                        | inl slow ↦ (
                          s',
                          rw (new, allowed)
                              (bind_step {r = of_option key_error (find_task (key_of t) s.tasks)}
                                  {x = r} _ (rw found refl)
                                ∙ (rw slow ran)),
                          k,
                        )
                        | inr fast ↦ (
                          s,
                          rw (new, allowed)
                              (bind_step {r = of_option key_error (find_task (key_of t) s.tasks)}
                                  {x = r} _ (rw found refl)
                                ∙ (rw fast refl)),
                          IsKept-refl p acyclic cfg enough s i,
                        )
                      ]
              ]
        ]

    -- In a sound state in which the inputs of all running tasks are done, with fuel beyond the
    -- longest chain of the plan, the speculative execution raises nothing and leaves a sound state
    -- with the same tasks done and seen.
    pub start_speculative_execution_total :
        (items : List Task) (s : State)
        → IsSound p s
        → All (IsReady p s.succeeded_tasks) items
        → (s' : State) × (start_speculative_execution cfg spec num_good items s ≡ ok s')
          × IsKept p s s'
    unfolding start_speculative_execution
    start_speculative_execution_total [] s i h = (s, refl, IsKept-refl p acyclic cfg enough s i)
    start_speculative_execution_total (t ∷ ts) s i (ready, h) =
        let (s1, ran, k) = speculate_total t s i ready in
        let (s2, ran', k') =
          start_speculative_execution_total ts s1 k.sound
            (subst (λ done. All (IsReady p done) ts) (sym k.same_done) h) in
        (s2, rw ran ran', IsKept-trans p acyclic cfg enough s s1 s2 k k')
