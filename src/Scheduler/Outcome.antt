-- ===== src/Scheduler/Outcome.antt =====
-- What `process_finished_tasks` comes to on the state of a plan.
use smallpond.Prelude.{
  ℕ, ◌+◌, ◌≤◌, ◌<◌, ◌≡◌, ◌≢◌, inl, inr, refl, ap, ◌∙◌, subst, true, false, List, [], ◌∷◌, ◌++◌,
  some, length, arith, All, Bool-cases, ok, bind_step,
}
use smallpond.Work.{WorkStatus, incomplete, same_status}
use smallpond.Scheduler.Plan.{Plan, IsAcyclic, IsSound}
use smallpond.Scheduler.Progress.{Progress, Progress-refl, Progress-trans, IsReturned, HasSeen}
use smallpond.Scheduler.Rounds.{handle_final_total, handle_finished_total, expected-IsReady}
use smallpond.Scheduler.Finish.{unexpected, handle_final, handle_finished, process_finished}
use smallpond.Scheduler.{Task, runtime_id, Config, State, Origin, find_task, has_run}

find_task-append :
    (k : ℕ) (ts us : List Task) (t : Task)
    → find_task k ts ≡ some t
    → find_task k (ts ++ us) ≡ some t
find_task-append k [] us t h = absurd (cc)
find_task-append k (u ∷ ts) us t h = ground (arith, find_task-append k ts us t)

not_incomplete : (x : WorkStatus) → x ≢ incomplete → same_status x incomplete ≡ false
not_incomplete x h = ground arith

-- A round with a task that was seen, or that cannot run, changes nothing.
ignored_round :
    (cfg : Config) (origin : Origin) (finished : Task) (s : State)
    → finished.work.status ≢ incomplete
    → has_run (runtime_id finished) s.finished_tasks ≡ true
    → handle_finished cfg origin finished s ≡ ok (s, 0)
unfolding handle_finished handle_final
ignored_round cfg origin finished s final seen = elim (Bool-cases (unexpected finished s)) [
  | inl odd ↦ rw odd refl
  | inr expected ↦ rw (expected, not_incomplete finished.work.status final, seen) refl
]

module _ (p : Plan) (acyclic : IsAcyclic p) (cfg : Config) (enough : p.depth < cfg.fuel) where
  -- A final result of a planned task, which has not the status `EXEC_FAILED`, that is delivered twice,
  -- by whichever executors, counts once: in a sound state, with fuel beyond the longest chain of the plan, the first round raises nothing
  -- and the second one leaves the state as the first one left it.
  pub handle_finished_twice :
      (origin again : Origin) (finished : Task) (s : State)
      → IsSound p s
      → IsReturned p finished
      → finished.work.status ≢ incomplete
      → (s' : State) × (n : ℕ) × (handle_finished cfg origin finished s ≡ ok (s', n))
        × (handle_finished cfg again finished s' ≡ ok (s', 0))
  unfolding handle_finished
  handle_finished_twice origin again finished s i returned final =
      elim (Bool-cases (unexpected finished s)) [
        | inl odd ↦ (s, 0, rw odd refl, rw odd refl)
        | inr expected ↦
            let ((s', n, ran, progress, few), seen) =
              handle_final_total p acyclic cfg enough origin finished s i returned final
                (expected-IsReady p acyclic cfg enough finished s i returned.planned expected) in
            (
              s',
              n,
              rw (expected, not_incomplete finished.work.status final) ran,
              ignored_round cfg again finished s' final (subst (HasSeen finished) ran seen),
            )
      ]

  process_rounds :
      (results : List (Origin × Task)) (s : State)
      → IsSound p s
      → All (λ r. IsReturned p r.1) results
      → (s' : State) × (n : ℕ) × (process_finished cfg results s ≡ ok (s', n))
        × Progress p s s'
        × (n ≤ length results)
  unfolding process_finished
  process_rounds [] s i h = (s, 0, refl, Progress-refl p s i, omega arith)
  process_rounds ((origin, finished) ∷ rest) s i (returned, h) =
      let (after, n, ran, first, few) =
        handle_finished_total p acyclic cfg enough origin finished s i returned in
      let (last, m, more, later, fewer) = process_rounds rest after first.sound h in
      (
        last,
        n + m,
        bind_step _ ran ∙ bind_step _ more,
        Progress-trans p s after last first later,
        omega arith,
      )

  -- Whatever results of the tasks of an acyclic plan the executors return, in any order and however
  -- often, `process_finished_tasks` raises nothing in a sound state, if its fuel exceeds the longest
  -- chain of the plan and no result has the status `EXEC_FAILED`. It leaves a sound state, so every run that is scheduled has all inputs done and is scheduled once; the first
  -- success of a task stays its success; and it counts at most one task for a result.
  pub process_finished_total :
      (results : List (Origin × Task)) (s : State)
      → IsSound p s
      → All (λ r. IsReturned p r.1) results
      → (s' : State) × (n : ℕ) × (process_finished cfg results s ≡ ok (s', n))
        × IsSound p s'
        × ((k : ℕ) (t : Task)
            → find_task k s.succeeded_tasks ≡ some t
            → find_task k s'.succeeded_tasks ≡ some t)
        × (n ≤ length results)
  process_finished_total results s i h =
      let (s', n, ran, progress, few) = process_rounds results s i h in
      let (us, more) = progress.done in
      (
        s',
        n,
        ran,
        progress.sound,
        (λ k t found. ap (find_task k) more ∙ find_task-append k s.succeeded_tasks us t found),
        few,
      )
