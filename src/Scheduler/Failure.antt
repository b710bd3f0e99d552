-- ===== src/Scheduler/Failure.antt =====
-- What a failure makes of a task of the plan: `try_relax_memory_limit` and what surrounds it.
use smallpond.Prelude.{
  ℕ, ◌+◌, ◌*◌, ◌≤◌, min, ◌≡◌, refl, Bool, true, not, ◌&&◌, inl, inr, some, arith, leb, leb→lt, ◌==◌,
  Bool-cases, Option-cases, ok,
}
use smallpond.Work.{WorkItem, memory_limit, oom}
use smallpond.Scheduler.{Task, Config, Origin, try_relax_memory_limit}
use smallpond.Scheduler.Finish.{count_failure, bind_memory_limit, failed_once}

-- One failure more and no less memory, and no other change.
pub record IsCounted (t f : Task) : Type 0 where
  pub same_info : f.info ≡ t.info
  pub same_key : f.work.key ≡ t.work.key
  pub same_status : f.work.status ≡ t.work.status
  pub same_retries : f.work.retry_count ≡ t.work.retry_count
  pub fails : f.work.fail_count ≡ t.work.fail_count + 1
  pub memory : memory_limit t.work ≤ memory_limit f.work

count_failure-IsCounted : (t : Task) → IsCounted t (count_failure t)
count_failure-IsCounted t = record {
  same_info = refl;
  same_key = refl;
  same_status = refl;
  same_retries = refl;
  fails = refl;
  memory = omega arith;
}

bound-IsCounted : (finished t : Task) → IsCounted t (bind_memory_limit finished (count_failure t))
bound-IsCounted finished t = elim (Option-cases t.work.base_memory_limit) [
  | inl unset ↦ rw unset (record {
    same_info = refl;
    same_key = refl;
    same_status = refl;
    same_retries = refl;
    fails = refl;
    memory = omega arith;
  })
  | inr (limit, set) ↦ rw set (record {
    same_info = refl;
    same_key = refl;
    same_status = refl;
    same_retries = refl;
    fails = refl;
    memory = omega arith;
  })
]

oom-limit :
    (b : Bool) (finished t : Task)
    → oom b finished.work ≡ true
    → (limit : ℕ) × ((bind_memory_limit finished (count_failure t)).work.base_memory_limit
        ≡ some limit)
unfolding oom
oom-limit b finished t h = elim (Option-cases t.work.base_memory_limit) [
  | inr (limit, set) ↦ (limit, rw set refl)
  | inl unset ↦ elim (Option-cases finished.work.base_memory_limit) [
    | inl none_too ↦ absurd (ground arith)
    | inr (limit, set) ↦ (limit, rw unset set)
  ]
]

-- A boost of a limit of 0 leaves 0, and one of another limit is the boosted limit.
boosted_limit :
    (w : WorkItem) (limit boosted m : ℕ)
    → w.base_memory_limit ≡ some limit
    → m ≤ memory_limit w
    → memory_limit w ≤ boosted
    → m ≤ memory_limit (record w { memory_boost = some boosted })
boosted_limit w limit boosted m set low grows = elim (Bool-cases (limit == 0)) [
  | inl zero ↦ rw (set, zero) (rw (set, zero) at low)
  | inr nonzero ↦ rw (set, nonzero) (omega (arith, low, grows))
]

relaxed-IsCounted :
    (t f : Task) (limit size : ℕ)
    → IsCounted t f
    → f.work.base_memory_limit ≡ some limit
    → (f' : Task) × (try_relax_memory_limit f size ≡ ok f') × IsCounted t f'
unfolding try_relax_memory_limit
relaxed-IsCounted t f limit size h set = elim (Bool-cases (leb size (memory_limit f.work))) [
  | inl enough ↦ (f, rw enough refl, h)
  | inr short ↦
      let larger = leb→lt size (memory_limit f.work) short in
      let relaxed = min size (memory_limit f.work * 2) in
      (
        record f {
          work = record f.work { memory_boost = some (min size (memory_limit f.work * 2)) };
        },
        rw (short, set) refl,
        record {
          same_info = h.same_info;
          same_key = h.same_key;
          same_status = h.same_status;
          same_retries = h.same_retries;
          fails = h.fails;
          memory =
              boosted_limit f.work limit relaxed (memory_limit t.work) set h.memory (omega arith);
        },
      )
]

pub failed_once_total :
    (cfg : Config) (origin : Origin) (finished t : Task)
    → (f : Task) × (failed_once cfg origin finished t ≡ ok f) × IsCounted t f
unfolding failed_once
failed_once_total cfg origin finished t =
    elim (Bool-cases (not origin.is_local && oom cfg.nonzero_exitcode_as_oom finished.work)) [
      | inr other ↦ (count_failure t, rw other refl, count_failure-IsCounted t)
      | inl memory ↦
          let (limit, set) = oom-limit cfg.nonzero_exitcode_as_oom finished t (ground arith) in
          let (f, run, counted) =
            relaxed-IsCounted t (bind_memory_limit finished (count_failure t)) limit
              origin.memory_size (bound-IsCounted finished t) set in
          (f, rw memory run, counted)
    ]
