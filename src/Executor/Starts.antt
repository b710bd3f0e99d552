-- ===== src/Executor/Starts.antt =====
-- Starting a work, which may wait for GPUs, keeps the accounts of the GPUs.
use smallpond.Prelude.{
  ℕ, ◌+◌, ◌*◌, ◌≤◌, ◌≡◌, ◌⊎◌, refl, sym, ap, ◌∙◌, subst, true, false, inl, inr, List, [], ◌∷◌, ◌++◌,
  length, ltb, arith, Bool-cases, ◌==◌, if◌then◌else◌, Error, Result, raise, attribute_error,
  out_of_fuel, Ensures, Ensures-bind, Ensures-map,
}
use smallpond.Work.{WorkItem, gpu_limit}
use smallpond.Queue.{Backend}
use smallpond.Executor.{GpuQuota, acquire_gpu}
use smallpond.Executor.Pool.{Exits, Pool, apply_async}
use smallpond.Executor.Collect.{
  Running, Executor, work_key, set_running, collect_finished_works, granted_or, wait_for_gpus,
}
use smallpond.Executor.Accounts.{quota_at, has_gpu, acquire-quota_at, acquire-has_gpu}
use smallpond.Executor.Balance.{
  granted, has_work, Distinct, IsBalanced, has_gpu-append, granted-quota_at, granted-has_gpu,
  has_work-append, Distinct-append,
}
use smallpond.Executor.Finished.{unfinished, collect_finished_works_total}
use smallpond.Executor.Loop.{grant_gpus, start_work}

-- What may be raised: by the assignment to a limit, or by a termination; or GPUs are still awaited.
abbrev pub IsAllowed : Error → Type 0
IsAllowed e = (e ≡ attribute_error) ⊎ (e ≡ out_of_fuel)

abbrev pub Safe {ℓ} : {A : Type ℓ} → Result A → (A → Type 0) → Type 0
Safe r P = Ensures IsAllowed r P

has_work-unfinished :
    (exits : Exits) (p : Pool) (k : ℕ) (rs : List Running)
    → has_work k rs ≡ false
    → has_work k (unfinished exits p rs) ≡ false
has_work-unfinished exits p k [] h = refl
has_work-unfinished exits p k (r ∷ rs) h = ground (arith, has_work-unfinished exits p k rs)

set_running-new :
    (r : Running) (rs : List Running)
    → has_work (work_key r) rs ≡ false
    → set_running r rs ≡ rs ++ r ∷ []
set_running-new r [] h = refl
set_running-new r (s ∷ rs) h = elim (Bool-cases (work_key s == work_key r)) [
  | inl same ↦ absurd (ground arith)
  | inr other ↦ rw other (ap (◌∷◌ s) (set_running-new r rs (rw other at h)))
]

module _ {Q : Type 0} (unit : ℕ) (whole : ℕ → ℕ) where
  -- A balanced executor that has none of the works which another one has not.
  pub record Follows (e e' : Executor Q) : Type 0 where
    pub balanced : IsBalanced unit whole e'
    pub fewer : (k : ℕ) → has_work k e.running_works ≡ false → has_work k e'.running_works ≡ false

  -- A step that starts at most the work of a key.
  pub record Steps (key : ℕ) (e e' : Executor Q) : Type 0 where
    pub balanced : IsBalanced unit whole e'
    pub fewer :
        (k : ℕ)
        → (key == k) ≡ false
        → has_work k e.running_works ≡ false
        → has_work k e'.running_works ≡ false

  -- A change of other parts of an executor.
  pub Steps-same :
      (key : ℕ) (e e' : Executor Q)
      → IsBalanced unit whole e
      → e'.running_works ≡ e.running_works
      → e'.local_gpus ≡ e.local_gpus
      → Steps key e e'
  Steps-same key e e' i works gpus = record {
    balanced = record {
      bounded = i.bounded;
      sums = λ id. rw (works, gpus) (i.sums id);
      present = λ id. rw (works, gpus) (i.present id);
      distinct = rw works i.distinct;
    };
    fewer = λ k other h. rw works h;
  }

module _ {Q : Type 0} (b : Backend Q) (unit : ℕ) (whole : ℕ → ℕ) where
  pub collect-Safe :
      (exits : Exits) (e : Executor Q)
      → IsBalanced unit whole e
      → Safe (collect_finished_works b unit exits e) (Follows unit whole e)
  collect-Safe exits e i =
      let (e', run, balanced, left, same) = collect_finished_works_total b unit whole exits e i in
      subst (λ r. Safe r (Follows unit whole e)) (sym run)
        (record {
          balanced = balanced;
          fewer = λ k h. rw left (has_work-unfinished exits e.pool k e.running_works h);
        })

  -- An executor that has set GPUs aside for an item.
  record HasSet (e : Executor Q) (got : List GpuQuota × Executor Q) : Type 0 where
    bounded : (id : ℕ) → whole id ≤ unit
    sums :
        (id : ℕ)
        → quota_at id got.1.local_gpus
            + (quota_at id got.0 + quota_at id (granted got.1.running_works))
          ≡ whole id
    present :
        (id : ℕ)
        → has_gpu id (got.0 ++ granted got.1.running_works) ≡ true
        → has_gpu id got.1.local_gpus ≡ true
    distinct : Distinct got.1.running_works
    fewer : (k : ℕ) → has_work k e.running_works ≡ false → has_work k got.1.running_works ≡ false

  granted_or-Safe :
      (acquired : List GpuQuota × List GpuQuota) (e : Executor Q)
      (later : Result (List GpuQuota × Executor Q))
      → IsBalanced unit whole e
      → ((id : ℕ) → quota_at id acquired.0 + quota_at id acquired.1 ≡ quota_at id e.local_gpus)
      → ((id : ℕ) → has_gpu id acquired.1 ≡ has_gpu id e.local_gpus)
      → ((id : ℕ) → has_gpu id acquired.0 ≡ true → has_gpu id e.local_gpus ≡ true)
      → Safe later (HasSet e)
      → Safe (granted_or acquired e later) (HasSet e)
  granted_or-Safe ([], left) e later i sums same has next = next
  granted_or-Safe (g ∷ gs, left) e later i sums same has next = record {
    bounded = i.bounded;
    sums = λ id. omega (arith, i.sums id, sums id);
    present = λ id h. same id ∙ (elim (Bool-cases (has_gpu id (g ∷ gs))) [
      | inl got ↦ has id got
      | inr other ↦ i.present id (
          ap (λ b. if b then true else has_gpu id (granted e.running_works)) (sym other)
          ∙ sym (has_gpu-append id (g ∷ gs) (granted e.running_works))
          ∙ h)
    ]);
    distinct = i.distinct;
    fewer = λ k h. h;
  }

  wait-Safe :
      (polls : List Exits) (quota : ℕ) (e : Executor Q)
      → IsBalanced unit whole e
      → Safe (wait_for_gpus b unit polls quota e) (HasSet e)
  unfolding wait_for_gpus
  wait-Safe [] quota e i =
      granted_or-Safe (acquire_gpu quota e.local_gpus) e (raise out_of_fuel) i
        (λ id. acquire-quota_at id quota e.local_gpus)
        (λ id. (acquire-has_gpu id quota e.local_gpus).0)
        (λ id. (acquire-has_gpu id quota e.local_gpus).1) (inr refl)
  wait-Safe (exits ∷ polls) quota e i =
      granted_or-Safe (acquire_gpu quota e.local_gpus) e _ i
        (λ id. acquire-quota_at id quota e.local_gpus)
        (λ id. (acquire-has_gpu id quota e.local_gpus).0)
        (λ id. (acquire-has_gpu id quota e.local_gpus).1)
        (Ensures-bind IsAllowed (collect_finished_works b unit exits e) _ _ (HasSet e)
          (collect-Safe exits e i)
          (λ e' f.
            Ensures-map IsAllowed (wait_for_gpus b unit polls quota e') (HasSet e') (HasSet e)
              (wait-Safe polls quota e' f.balanced)
              (λ got h. record {
                bounded = h.bounded;
                sums = h.sums;
                present = h.present;
                distinct = h.distinct;
                fewer = λ k new. h.fewer k (f.fewer k new);
              })))

  nothing_set : (e : Executor Q) → IsBalanced unit whole e → HasSet e ([], e)
  nothing_set e i = record {
    bounded = i.bounded;
    sums = λ id. omega (arith, i.sums id);
    present = i.present;
    distinct = i.distinct;
    fewer = λ k h. h;
  }

  grant-Safe :
      (polls : ℕ → List Exits) (item : WorkItem) (e : Executor Q)
      → IsBalanced unit whole e
      → Safe (grant_gpus b unit polls item e) (HasSet e)
  unfolding grant_gpus
  grant-Safe polls item e i = elim (Bool-cases (ltb 0 (gpu_limit item))) [
    | inr none_needed ↦ rw none_needed (nothing_set e i)
    | inl needed ↦ elim (Bool-cases (ltb (length e.local_gpus * unit) (gpu_limit item))) [
      | inl large ↦ rw (needed, large) (inl refl)
      | inr fits ↦ rw (needed, fits) (wait-Safe (polls item.key) (gpu_limit item) e i)
    ]
  ]

  pub start-Safe :
      (polls : ℕ → List Exits) (item : WorkItem) (e : Executor Q)
      → has_work item.key e.running_works ≡ false
      → IsBalanced unit whole e
      → Safe (start_work b unit polls item e) (Steps unit whole item.key e)
  unfolding start_work
  start-Safe polls item e new i =
      Ensures-bind IsAllowed (grant_gpus b unit polls item e) _ _ (Steps unit whole item.key e)
        (grant-Safe polls item e i)
        (λ (got, e') h.
          let r : Running = record {
            pool_task = (apply_async e'.pool).0;
            item = item;
            local_gpu = got;
          } in
          let rs = e'.running_works in
          let fresh = h.fewer item.key new in
          let appended = set_running-new r rs fresh in
          record {
            balanced = record {
              bounded = h.bounded;
              sums = λ id. rw appended (omega (arith, h.sums id, granted-quota_at id rs r));
              present = λ id p. h.present id (
                  has_gpu-append id got (granted rs)
                  ∙ sym (granted-has_gpu id rs r)
                  ∙ rw appended at p);
              distinct = rw appended (Distinct-append rs r h.distinct fresh);
            };
            fewer = λ k other old. rw appended (has_work-append k rs r (h.fewer k old) other);
          })
