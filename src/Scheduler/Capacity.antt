-- ===== src/Scheduler/Capacity.antt =====
-- What `dispatch_tasks` gives to an executor fits into it, also with a boost.
use smallpond.Prelude.{
  ℕ, ◌+◌, ◌-◌, ◌≤◌, ◌<◌, ◌≡◌, refl, inl, inr, Bool, true, false, List, [], ◌∷◌, ◌++◌, some, length,
  length-append, ◌==◌, arith, Bool-cases, Option-cases, ok,
}
use smallpond.Work.{WorkItem, cpu_limit, gpu_limit, memory_limit}
use smallpond.Queue
use smallpond.Queue.{Backend}
use smallpond.Remote.{
  RemoteExecutor, cpu_count, gpu_count, memory_size, max_running_works, is_running,
  add_running_work, added, push,
}
use smallpond.Scheduler.Dispatch.{
  boosted_limit, base_memory, boost_cpu, boost_mem, can_boost, is_unboosted, try_boost_resource,
  fits,
}

boosted_limit_fits : (a l c : ℕ) → a + l ≤ c → a + boosted_limit l (c - a) c ≤ c
boosted_limit_fits a l c h = omega arith

unboosted_cpus : (item : WorkItem) → is_unboosted item ≡ true → cpu_limit item ≡ item.base_cpu_limit
unboosted_cpus item h = elim (Option-cases item.cpu_boost) [
  | inl unset ↦ ground arith
  | inr (b, set) ↦ ground arith
]

unboosted_memory :
    (item : WorkItem) → is_unboosted item ≡ true → memory_limit item ≡ base_memory item
unboosted_memory item h = elim (Option-cases item.base_memory_limit) [
  | inl unset ↦ rw unset refl
  | inr (limit, set) ↦ rw set (ground arith)
]

-- No more than the boost.
boosted_memory :
    (item : WorkItem) (c m : ℕ)
    → memory_limit (record item { cpu_boost = some c; memory_boost = some m }) ≤ m
boosted_memory item c m = elim (Option-cases item.base_memory_limit) [
  | inl unset ↦ rw unset (omega arith)
  | inr (limit, set) ↦ rw set (ground arith)
]

is_running-append :
    (k : ℕ) (ws : List WorkItem) (w : WorkItem)
    → is_running k ws ≡ true
    → is_running k (ws ++ w ∷ []) ≡ true
is_running-append k [] w h = absurd (cc)
is_running-append k (v ∷ ws) w h = ground (arith, is_running-append k ws w)

is_running-last : (w : WorkItem) (ws : List WorkItem) → is_running w.key (ws ++ w ∷ []) ≡ true
is_running-last w [] = ground arith
is_running-last w (v ∷ ws) = ground (arith, is_running-last w ws)

module _ {Q : Type 0} where
  -- Nothing of an executor is allocated beyond what its last probe found.
  pub record IsWithin (e : RemoteExecutor Q) : Type 0 where
    pub cpus : e.allocated_cpus ≤ cpu_count e
    pub gpus : e.allocated_gpus ≤ gpu_count e
    pub memory : e.allocated_memory ≤ memory_size e
    pub works : length e.running_works ≤ max_running_works e

  -- A boost that keeps the limits of an item within what is available.
  pub record Fits (item : WorkItem) (e : RemoteExecutor Q) : Type 0 where
    pub cpus : e.allocated_cpus + cpu_limit item ≤ cpu_count e
    pub gpus : e.allocated_gpus + gpu_limit item ≤ gpu_count e
    pub memory : e.allocated_memory + memory_limit item ≤ memory_size e
    pub room : length e.running_works < max_running_works e
    pub new : is_running item.key e.running_works ≡ false

  pub fits-Fits : (item : WorkItem) (e : RemoteExecutor Q) → fits item e ≡ true → Fits item e
  unfolding fits
  fits-Fits item e h = record {
    cpus = ground arith;
    gpus = ground arith;
    memory = ground arith;
    room = ground arith;
    new = ground arith;
  }

  -- An executor that took a work with a key.
  pub record Takes (key : ℕ) (e e' : RemoteExecutor Q) : Type 0 where
    pub same_id : e'.id ≡ e.id
    pub keeps : (k : ℕ) → is_running k e.running_works ≡ true → is_running k e'.running_works ≡ true
    pub runs : is_running key e'.running_works ≡ true

  pub boost-Fits :
      (enabled : Bool) (item : WorkItem) (e : RemoteExecutor Q)
      → 0 < item.base_cpu_limit
      → Fits item e
      → (boosted : WorkItem) × (try_boost_resource enabled item e ≡ ok boosted)
        × Fits boosted e
        × (boosted.key ≡ item.key)
  unfolding try_boost_resource
  boost-Fits enabled item e cpu f = elim (Bool-cases (can_boost enabled item e)) [
    | inr stay ↦ (item, rw stay refl, f, refl)
    | inl go ↦
        let unboosted : is_unboosted item ≡ true = ground arith in
        let cpu_now = unboosted_cpus item unboosted in
        let memory_now = unboosted_memory item unboosted in
        let divisible : (item.base_cpu_limit == 0) ≡ false = ground arith in
        let more = f.cpus in
        let more_memory = f.memory in
        let memory_fits =
          boosted_limit_fits e.allocated_memory (base_memory item) (memory_size e) (omega arith) in
        (
          record item {
            cpu_boost = some (boost_cpu item e);
            memory_boost = some (boost_mem item e);
          },
          rw (go, divisible) refl,
          record {
            cpus =
                boosted_limit_fits e.allocated_cpus item.base_cpu_limit (cpu_count e) (omega arith);
            gpus = f.gpus;
            memory =
                omega
                  (arith, boosted_memory item (boost_cpu item e) (boost_mem item e), memory_fits);
            room = f.room;
            new = f.new;
          },
          refl,
        )
  ]

  module _ (b : Backend Q) where
    pub push_total :
        (item : WorkItem) (e : RemoteExecutor Q)
        → Fits item e
        → (e' : RemoteExecutor Q) × (push b item true e ≡ ok (e', true))
          × IsWithin e'
          × Takes item.key e e'
    unfolding push add_running_work Queue.push
    push_total item e f =
        let sent = record item { exec_id = some e.id } in
        let after = added sent e in
        let room = f.room in
        (
          record after { wq = record e.wq { outbound_works = e.wq.outbound_works ++ sent ∷ [] } },
          rw f.new refl,
          record {
            cpus = f.cpus;
            gpus = f.gpus;
            memory = f.memory;
            works = omega (arith, length-append e.running_works (sent ∷ []));
          },
          record {
            same_id = refl;
            keeps = λ k h. is_running-append k e.running_works sent h;
            runs = is_running-last sent e.running_works;
          },
        )
