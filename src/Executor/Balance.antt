-- ===== src/Executor/Balance.antt =====
-- Collecting finished works gives back what was granted to them, and raises nothing.
use mathlib.Core.Option.{some-injective}
use smallpond.Prelude.{
  ℕ, ◌+◌, ◌≤◌, ◌≡◌, refl, ap, ◌∙◌, Bool, true, false, inl, inr, List, [], ◌∷◌, ◌++◌, some, arith,
  Bool-cases, ◌==◌, if◌then◌else◌,
}
use smallpond.Executor.{GpuQuota}
use smallpond.Executor.Collect.{Running, Executor, work_key, find_running, remove_running}
use smallpond.Executor.Accounts.{quota_at, has_gpu}

-- What is granted to the running works.
abbrev pub granted : List Running → List GpuQuota
granted [] = []
granted (r ∷ rs) = r.local_gpu ++ granted rs

abbrev pub has_work : ℕ → List Running → Bool
has_work key [] = false
has_work key (r ∷ rs) = if work_key r == key then true else has_work key rs

-- No key occurs twice.
abbrev pub Distinct : List Running → Type 0
Distinct [] = Unit
Distinct (r ∷ rs) = (has_work (work_key r) rs ≡ false) × Distinct rs

-- What there is of each GPU is available or granted, and only GPUs of the executor are granted.
pub record IsBalanced {Q : Type 0} (unit : ℕ) (whole : ℕ → ℕ) (e : Executor Q) : Type 0 where
  pub bounded : (id : ℕ) → whole id ≤ unit
  pub sums : (id : ℕ) → quota_at id e.local_gpus + quota_at id (granted e.running_works) ≡ whole id
  pub present :
      (id : ℕ) → has_gpu id (granted e.running_works) ≡ true → has_gpu id e.local_gpus ≡ true
  pub distinct : Distinct e.running_works

pub quota_at-append :
    (id : ℕ) (gs hs : List GpuQuota) → quota_at id (gs ++ hs) ≡ quota_at id gs + quota_at id hs
quota_at-append id [] hs = omega arith
quota_at-append id (g ∷ gs) hs = omega (arith, quota_at-append id gs hs)

pub has_gpu-append :
    (id : ℕ) (gs hs : List GpuQuota)
    → has_gpu id (gs ++ hs) ≡ (if has_gpu id gs then true else has_gpu id hs)
has_gpu-append id [] hs = refl
has_gpu-append id (g ∷ gs) hs = ground (arith, has_gpu-append id gs hs)

pub granted-remove :
    (rs : List Running) (r : Running)
    → find_running (work_key r) rs ≡ some r
    → (id : ℕ)
    → quota_at id (granted rs)
      ≡ quota_at id r.local_gpu + quota_at id (granted (remove_running (work_key r) rs))
granted-remove [] r found id = absurd (cc)
granted-remove (s ∷ rs) r found id = elim (Bool-cases (work_key s == work_key r)) [
  | inl same ↦
      let here : s ≡ r = some-injective s r (rw same at found) in
      rw same (
        quota_at-append id s.local_gpu (granted rs)
        ∙ ap (λ t. quota_at id t.local_gpu + quota_at id (granted rs)) here)
  | inr other ↦
      let rest = granted-remove rs r (rw other at found) id in
      rw other (
        omega (
          arith,
          rest,
          quota_at-append id s.local_gpu (granted rs),
          quota_at-append id s.local_gpu (granted (remove_running (work_key r) rs)),
        ))
]

pub has-remove :
    (rs : List Running) (r : Running)
    → find_running (work_key r) rs ≡ some r
    → (id : ℕ)
    → has_gpu id (granted rs) ≡ (
        if has_gpu id r.local_gpu
        then true
        else has_gpu id (granted (remove_running (work_key r) rs)))
has-remove [] r found id = absurd (cc)
has-remove (s ∷ rs) r found id = elim (Bool-cases (work_key s == work_key r)) [
  | inl same ↦
      let here : s ≡ r = some-injective s r (rw same at found) in
      rw same (
        has_gpu-append id s.local_gpu (granted rs)
        ∙ ap (λ t. if has_gpu id t.local_gpu then true else has_gpu id (granted rs)) here)
  | inr other ↦
      let rest = has-remove rs r (rw other at found) id in
      rw other (
        ground (
          arith,
          rest,
          has_gpu-append id s.local_gpu (granted rs),
          has_gpu-append id s.local_gpu (granted (remove_running (work_key r) rs)),
        ))
]

has_work-remove :
    (k j : ℕ) (rs : List Running) → has_work k rs ≡ false → has_work k (remove_running j rs) ≡ false
has_work-remove k j [] h = refl
has_work-remove k j (r ∷ rs) h = ground (arith, has_work-remove k j rs)

pub Distinct-remove : (k : ℕ) (rs : List Running) → Distinct rs → Distinct (remove_running k rs)
Distinct-remove k [] d = tt
Distinct-remove k (r ∷ rs) (new, d) = elim (Bool-cases (work_key r == k)) [
  | inl same ↦ rw same d
  | inr other ↦ rw other (has_work-remove (work_key r) k rs new, Distinct-remove k rs d)
]

pub find-remove :
    (k j : ℕ) (rs : List Running)
    → (k == j) ≡ false
    → find_running j (remove_running k rs) ≡ find_running j rs
find-remove k j [] h = refl
find-remove k j (r ∷ rs) h = ground (arith, find-remove k j rs h)

pub granted-quota_at :
    (id : ℕ) (rs : List Running) (r : Running)
    → quota_at id (granted (rs ++ r ∷ [])) ≡ quota_at id r.local_gpu + quota_at id (granted rs)
granted-quota_at id [] r = quota_at-append id r.local_gpu []
granted-quota_at id (s ∷ rs) r = omega (
  arith,
  quota_at-append id s.local_gpu (granted (rs ++ r ∷ [])),
  quota_at-append id s.local_gpu (granted rs),
  granted-quota_at id rs r,
)

pub granted-has_gpu :
    (id : ℕ) (rs : List Running) (r : Running)
    → has_gpu id (granted (rs ++ r ∷ []))
      ≡ (if has_gpu id r.local_gpu then true else has_gpu id (granted rs))
granted-has_gpu id [] r = has_gpu-append id r.local_gpu []
granted-has_gpu id (s ∷ rs) r = ground (
  arith,
  has_gpu-append id s.local_gpu (granted (rs ++ r ∷ [])),
  has_gpu-append id s.local_gpu (granted rs),
  granted-has_gpu id rs r,
)

pub has_work-append :
    (k : ℕ) (rs : List Running) (r : Running)
    → has_work k rs ≡ false
    → (work_key r == k) ≡ false
    → has_work k (rs ++ r ∷ []) ≡ false
has_work-append k [] r h new = rw new refl
has_work-append k (s ∷ rs) r h new = ground (arith, has_work-append k rs r)

pub Distinct-append :
    (rs : List Running) (r : Running)
    → Distinct rs
    → has_work (work_key r) rs ≡ false
    → Distinct (rs ++ r ∷ [])
Distinct-append [] r d h = (refl, tt)
Distinct-append (s ∷ rs) r (new, d) h =
    (has_work-append (work_key s) rs r new (ground arith), Distinct-append rs r d (ground arith))
