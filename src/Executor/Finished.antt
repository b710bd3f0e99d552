-- ===== src/Executor/Finished.antt =====
-- `collect_finished_works` raises nothing, gives the GPUs of the finished works back, and keeps the
-- other works.
use smallpond.Prelude.{
  ℕ, zero, suc, ◌≡◌, refl, ap, ◌∙◌, Bool, true, false, inl, inr, List, [], ◌∷◌, Option, none, some,
  arith, All, All-weaken, Bool-cases, ◌==◌, if◌then◌else◌, Result, ok, raise, ◌>>=◌, bind_step,
}
use smallpond.Queue
use smallpond.Queue.{Backend, WorkQueue}
use smallpond.Executor.{GpuQuota, release_gpu}
use smallpond.Executor.Pool.{Exits, Pool, ready}
use smallpond.Executor.Collect.{
  Running, Executor, work_key, find_running, remove_running, crash_item, report_exit, or_stop,
  push_completed, find_finished, remove_finished, collect_finished_works,
}
use smallpond.Executor.Accounts.{has_gpu, release_gpu-total, either_true}
use smallpond.Executor.Balance.{
  has_work, Distinct, IsBalanced, granted-remove, has-remove, Distinct-remove, find-remove,
}

abbrev pub finished : Exits → Pool → List Running → List Running
finished exits p [] = []
finished exits p (r ∷ rs) =
    if ready exits p r.pool_task then r ∷ finished exits p rs else finished exits p rs

abbrev pub unfinished : Exits → Pool → List Running → List Running
unfinished exits p [] = []
unfinished exits p (r ∷ rs) =
    if ready exits p r.pool_task then unfinished exits p rs else r ∷ unfinished exits p rs

abbrev remove_each : List Running → List Running → List Running
remove_each [] rs = rs
remove_each (f ∷ fs) rs = remove_each fs (remove_running (work_key f) rs)

has_work-finished :
    (exits : Exits) (p : Pool) (k : ℕ) (rs : List Running)
    → has_work k rs ≡ false
    → has_work k (finished exits p rs) ≡ false
has_work-finished exits p k [] h = refl
has_work-finished exits p k (r ∷ rs) h = ground (arith, has_work-finished exits p k rs)

Distinct-finished :
    (exits : Exits) (p : Pool) (rs : List Running) → Distinct rs → Distinct (finished exits p rs)
Distinct-finished exits p [] d = tt
Distinct-finished exits p (r ∷ rs) (new, d) = elim (Bool-cases (ready exits p r.pool_task)) [
  | inl done ↦
      rw done (has_work-finished exits p (work_key r) rs new, Distinct-finished exits p rs d)
  | inr going ↦ rw going (Distinct-finished exits p rs d)
]

remove_each-other :
    (r : Running) (fs rs : List Running)
    → has_work (work_key r) fs ≡ false
    → remove_each fs (r ∷ rs) ≡ r ∷ remove_each fs rs
remove_each-other r [] rs h = refl
remove_each-other r (f ∷ fs) rs h = elim (Bool-cases (work_key f == work_key r)) [
  | inl same ↦ absurd (ground arith)
  | inr other ↦
      let apart : (work_key r == work_key f) ≡ false = ground arith in
      rw apart (remove_each-other r fs (remove_running (work_key f) rs) (rw other at h))
]

remove_each-first :
    (r : Running) (fs rs : List Running) → remove_each (r ∷ fs) (r ∷ rs) ≡ remove_each fs rs
remove_each-first r fs rs =
    let same : (work_key r == work_key r) ≡ true = ground arith in
    ap (λ b. remove_each fs (if b then rs else r ∷ remove_running (work_key r) rs)) same

remove_each-finished :
    (exits : Exits) (p : Pool) (rs : List Running)
    → Distinct rs
    → remove_each (finished exits p rs) rs ≡ unfinished exits p rs
remove_each-finished exits p [] d = refl
remove_each-finished exits p (r ∷ rs) (new, d) = elim (Bool-cases (ready exits p r.pool_task)) [
  | inl done ↦
      rw done (remove_each-first r (finished exits p rs) rs ∙ remove_each-finished exits p rs d)
  | inr going ↦ rw going (
      remove_each-other r (finished exits p rs) rs (has_work-finished exits p (work_key r) rs new)
      ∙ ap (◌∷◌ r) (remove_each-finished exits p rs d))
]

found-has :
    (k : ℕ) (rs : List Running) (r : Running) → find_running k rs ≡ some r → has_work k rs ≡ true
found-has k [] r found = absurd (cc)
found-has k (s ∷ rs) r found = elim (Bool-cases (work_key s == k)) [
  | inl same ↦ rw same refl
  | inr other ↦ rw other (found-has k rs r (rw other at found))
]

find-other :
    (rs : List Running) (s r : Running)
    → has_work (work_key s) rs ≡ false
    → find_running (work_key r) rs ≡ some r
    → find_running (work_key r) (s ∷ rs) ≡ some r
find-other rs s r new found = elim (Bool-cases (work_key s == work_key r)) [
  | inl same ↦ let has = found-has (work_key r) rs r found in absurd (ground arith)
  | inr other ↦ rw other found
]

finished-found :
    (exits : Exits) (p : Pool) (rs : List Running)
    → Distinct rs
    → All (λ r. find_running (work_key r) rs ≡ some r) (finished exits p rs)
finished-found exits p [] d = tt
finished-found exits p (r ∷ rs) (new, d) =
    let rest =
      All-weaken _ _ (finished exits p rs) (λ f found. find-other rs r f new found)
        (finished-found exits p rs d) in
    elim (Bool-cases (ready exits p r.pool_task)) [
      | inl done ↦ rw done (ground arith, rest)
      | inr going ↦ rw going rest
    ]

still_found :
    (k : ℕ) (fs rs : List Running)
    → has_work k fs ≡ false
    → All (λ r. find_running (work_key r) rs ≡ some r) fs
    → All (λ r. find_running (work_key r) (remove_running k rs) ≡ some r) fs
still_found k [] rs h all = tt
still_found k (f ∷ fs) rs h (found, all) = elim (Bool-cases (work_key f == k)) [
  | inl same ↦ absurd (ground arith)
  | inr other ↦ (
    find-remove k (work_key f) rs (ground arith) ∙ found,
    still_found k fs rs (rw other at h) all,
  )
]

module _ {Q : Type 0} (unit : ℕ) (whole : ℕ → ℕ) where
  remove_one-IsBalanced :
      (r : Running) (e : Executor Q)
      → find_running (work_key r) e.running_works ≡ some r
      → IsBalanced unit whole e
      → (gpus : List GpuQuota) × (release_gpu unit r.local_gpu e.local_gpus ≡ ok gpus)
        × IsBalanced unit whole (record e {
          running_works = remove_running (work_key r) e.running_works;
          local_gpus = gpus;
        })
  remove_one-IsBalanced r e found i =
      let gone = granted-remove e.running_works r found in
      let has = has-remove e.running_works r found in
      let (gpus, run, sums, same) =
        release_gpu-total unit r.local_gpu e.local_gpus (λ id h. i.present id (has id ∙ rw h refl))
          (λ id. omega (arith, gone id, i.sums id, i.bounded id)) in
      (
        gpus,
        run,
        record {
          bounded = i.bounded;
          sums = λ id. omega (arith, gone id, i.sums id, sums id);
          present =
              λ id h. same id ∙ i.present id (has id ∙ rw h (either_true (has_gpu id r.local_gpu)));
          distinct = Distinct-remove (work_key r) e.running_works i.distinct;
        },
      )

  remove_finished_total :
      (rs : List Running) (e : Executor Q)
      → Distinct rs
      → All (λ r. find_running (work_key r) e.running_works ≡ some r) rs
      → IsBalanced unit whole e
      → (e' : Executor Q) × (remove_finished unit rs e ≡ ok e')
        × IsBalanced unit whole e'
        × (e'.running_works ≡ remove_each rs e.running_works)
        × (e'.pool ≡ e.pool)
  unfolding remove_finished
  remove_finished_total [] e d found i = (e, refl, i, refl, refl)
  remove_finished_total (r ∷ rs) e (new, d) (here, found) i =
      let (gpus, run, balanced) = remove_one-IsBalanced r e here i in
      let next = record e {
        running_works = remove_running (work_key r) e.running_works;
        local_gpus = gpus;
      } in
      let (e', ran, last, works, pool) =
        remove_finished_total rs next d (still_found (work_key r) rs e.running_works new found)
          balanced in
      (e', bind_step _ run ∙ ran, last, works, pool)

module _ {Q : Type 0} where
  -- The completion queue and the end of the loop aside, the same executor.
  abbrev IsSame : Executor Q → Executor Q → Type 0
  IsSame e' e =
      (e'.running_works ≡ e.running_works) × (e'.local_gpus ≡ e.local_gpus) × (e'.pool ≡ e.pool)

module _ {Q : Type 0} (b : Backend Q) where
  stop-IsSame :
      (pushed : Result (Bool × WorkQueue Q)) (e : Executor Q)
      → IsSame (or_stop b (pushed >>= λ (sent, cq). ok (record e { cq = cq })) e) e
  stop-IsSame (ok sent) e = (refl, refl, refl)
  stop-IsSame (raise error) e = (refl, refl, refl)

  report-IsSame :
      (code : Option ℕ) (r : Running) (e : Executor Q) → IsSame (report_exit b code r e) e
  unfolding report_exit push_completed
  report-IsSame none r e = (refl, refl, refl)
  report-IsSame (some zero) r e = (refl, refl, refl)
  report-IsSame (some (suc code)) r e = stop-IsSame (Queue.push b (crash_item r.item) false e.cq) e

  find_finished_lem :
      (exits : Exits) (rs : List Running) (e : Executor Q)
      → ((find_finished b exits rs e).0 ≡ finished exits e.pool rs)
        × IsSame (find_finished b exits rs e).1 e
  unfolding find_finished
  find_finished_lem exits [] e = (refl, (refl, refl, refl))
  find_finished_lem exits (r ∷ rs) e = elim (Bool-cases (ready exits e.pool r.pool_task)) [
    | inr going ↦ rw going (find_finished_lem exits rs e)
    | inl done ↦
        let reported = report_exit b (exits r.pool_task) r e in
        let (works, gpus, pool) = report-IsSame (exits r.pool_task) r e in
        let (found, (works', gpus', pool')) = find_finished_lem exits rs reported in
        rw done (
          ap (◌∷◌ r) (found ∙ ap (λ p. finished exits p rs) pool),
          (works' ∙ works, gpus' ∙ gpus, pool' ∙ pool),
        )
  ]

  -- For quotas that are multiples of one binary fraction of a GPU, so that floats add them exactly:
  -- while the accounts of the GPUs are balanced, collecting finished works raises nothing: the quotas
  -- granted to works whose process has exited become available again, so that the accounts stay
  -- balanced, and exactly the other works are left, in order.
  pub collect_finished_works_total :
      (unit : ℕ) (whole : ℕ → ℕ) (exits : Exits) (e : Executor Q)
      → IsBalanced unit whole e
      → (e' : Executor Q) × (collect_finished_works b unit exits e ≡ ok e')
        × IsBalanced unit whole e'
        × (e'.running_works ≡ unfinished exits e.pool e.running_works)
        × (e'.pool ≡ e.pool)
  unfolding collect_finished_works
  collect_finished_works_total unit whole exits e i =
      let (found, (works, gpus, pool)) = find_finished_lem exits e.running_works e in
      let fs = finished exits e.pool e.running_works in
      let reported = (find_finished b exits e.running_works e).1 in
      let balanced : IsBalanced unit whole reported = record {
        bounded = i.bounded;
        sums = λ id. rw (works, gpus) (i.sums id);
        present = λ id. rw (works, gpus) (i.present id);
        distinct = rw works i.distinct;
      } in
      let (e', run, last, left, same) =
        remove_finished_total unit whole fs reported
          (Distinct-finished exits e.pool e.running_works i.distinct)
          (rw works (finished-found exits e.pool e.running_works i.distinct)) balanced in
      (
        e',
        ap (λ l. remove_finished unit l reported) found ∙ run,
        last,
        left
            ∙ ap (remove_each fs) works
            ∙ remove_each-finished exits e.pool e.running_works i.distinct,
        same ∙ pool,
      )
