-- ===== src/Executor/Accounts.antt =====
-- The accounts of the GPUs: what is available and what is granted to running works make up each GPU.
use smallpond.Prelude.{
  ℕ, ◌+◌, ◌-◌, ◌≤◌, ◌≡◌, refl, ◌∙◌, min, Bool, true, false, inl, inr, List, [], ◌∷◌, arith, ltb,
  le→leb, Bool-cases, ◌==◌, if◌then◌else◌, ok, bind_step,
}
use smallpond.Executor.{available_gpu_quota, GpuQuota, grant, acquire_gpu, give_back, release_gpu}

-- How much of a GPU stands in a list of quotas.
abbrev pub quota_at : ℕ → List GpuQuota → ℕ
quota_at id [] = 0
quota_at id (g ∷ gpus) = (if g.gpu == id then g.quota else 0) + quota_at id gpus

abbrev pub has_gpu : ℕ → List GpuQuota → Bool
has_gpu id [] = false
has_gpu id (g ∷ gpus) = if g.gpu == id then true else has_gpu id gpus

pub either_true : (b : Bool) → (if b then true else true) ≡ true
either_true true = refl
either_true false = refl

either_has : (b : Bool) {x y : Bool} → x ≡ y → (if b then true else x) ≡ (if b then true else y)
either_has true e = refl
either_has false e = e

either_under : (b : Bool) {x : Bool} → x ≡ true → (if b then true else x) ≡ true
either_under true e = refl
either_under false e = e

either_first : (b x : Bool) → (if b then true else false) ≡ true → (if b then true else x) ≡ true
either_first true x h = refl
either_first false x h = absurd (cc)

either_mono :
    (b : Bool) {x y : Bool}
    → (x ≡ true → y ≡ true)
    → (if b then true else x) ≡ true
    → (if b then true else y) ≡ true
either_mono true f h = refl
either_mono false f h = f h

grant-quota_at :
    (id quota : ℕ) (gpus : List GpuQuota)
    → quota_at id (grant quota gpus).0 + quota_at id (grant quota gpus).1 ≡ quota_at id gpus
unfolding grant
grant-quota_at id quota [] = refl
grant-quota_at id quota (g ∷ gpus) = elim (Bool-cases (g.quota == 0)) [
  | inl empty ↦ rw empty (omega (arith, grant-quota_at id quota gpus))
  | inr some_left ↦ elim (Bool-cases (quota - min g.quota quota == 0)) [
    | inl met ↦ rw (some_left, met) (ground arith)
    | inr more ↦
        rw (some_left, more) (ground (arith, grant-quota_at id (quota - min g.quota quota) gpus))
  ]
]

pub acquire-quota_at :
    (id quota : ℕ) (gpus : List GpuQuota)
    → quota_at id (acquire_gpu quota gpus).0 + quota_at id (acquire_gpu quota gpus).1
      ≡ quota_at id gpus
unfolding acquire_gpu
acquire-quota_at id quota gpus = ground (arith, grant-quota_at id quota gpus)

grant-has_gpu :
    (id quota : ℕ) (gpus : List GpuQuota)
    → (has_gpu id (grant quota gpus).1 ≡ has_gpu id gpus)
      × (has_gpu id (grant quota gpus).0 ≡ true → has_gpu id gpus ≡ true)
unfolding grant
grant-has_gpu id quota [] = (refl, λ h. h)
grant-has_gpu id quota (g ∷ gpus) = elim (Bool-cases (g.quota == 0)) [
  | inl empty ↦
      let (left, got) = grant-has_gpu id quota gpus in
      rw empty (either_has (g.gpu == id) left, λ h. either_under (g.gpu == id) (got h))
  | inr some_left ↦ elim (Bool-cases (quota - min g.quota quota == 0)) [
    | inl met ↦ rw (some_left, met) (refl, λ h. either_first (g.gpu == id) (has_gpu id gpus) h)
    | inr more ↦
        let (left, got) = grant-has_gpu id (quota - min g.quota quota) gpus in
        rw (some_left, more) (either_has (g.gpu == id) left, λ h. either_mono (g.gpu == id) got h)
  ]
]

pub acquire-has_gpu :
    (id quota : ℕ) (gpus : List GpuQuota)
    → (has_gpu id (acquire_gpu quota gpus).1 ≡ has_gpu id gpus)
      × (has_gpu id (acquire_gpu quota gpus).0 ≡ true → has_gpu id gpus ≡ true)
unfolding acquire_gpu
acquire-has_gpu id quota gpus = elim (Bool-cases (ltb (available_gpu_quota gpus) quota)) [
  | inl short ↦ rw short (refl, λ h. absurd (cc))
  | inr enough ↦ rw enough (grant-has_gpu id quota gpus)
]

-- A quota that fits is given back, and nothing else changes.
give_back-total :
    (unit : ℕ) (g : GpuQuota) (gpus : List GpuQuota)
    → has_gpu g.gpu gpus ≡ true
    → quota_at g.gpu gpus + g.quota ≤ unit
    → (after : List GpuQuota) × (give_back unit g gpus ≡ ok after)
      × ((id : ℕ) → quota_at id after ≡ quota_at id (g ∷ gpus))
      × ((id : ℕ) → has_gpu id after ≡ has_gpu id gpus)
give_back-total unit g [] has fits = absurd (cc)
give_back-total unit g (h ∷ gpus) has fits = elim (Bool-cases (h.gpu == g.gpu)) [
  | inl same ↦
      let low : h.quota + g.quota ≤ unit = ground arith in
      (
        record h { quota = h.quota + g.quota } ∷ gpus,
        rw (same, le→leb _ _ low) refl,
        λ id. ground arith,
        λ id. refl,
      )
  | inr other ↦
      let (after, run, sums, same) = give_back-total unit g gpus (rw other at has) (ground arith) in
      (
        h ∷ after,
        rw (other, run) refl,
        λ id. omega (arith, sums id),
        λ id. either_has (h.gpu == id) (same id),
      )
]

pub release_gpu-total :
    (unit : ℕ) (granted gpus : List GpuQuota)
    → ((id : ℕ) → has_gpu id granted ≡ true → has_gpu id gpus ≡ true)
    → ((id : ℕ) → quota_at id gpus + quota_at id granted ≤ unit)
    → (after : List GpuQuota) × (release_gpu unit granted gpus ≡ ok after)
      × ((id : ℕ) → quota_at id after ≡ quota_at id gpus + quota_at id granted)
      × ((id : ℕ) → has_gpu id after ≡ has_gpu id gpus)
unfolding release_gpu
release_gpu-total unit [] gpus has fits = (gpus, refl, λ id. omega arith, λ id. refl)
release_gpu-total unit (g ∷ granted) gpus has fits =
    let here : has_gpu g.gpu gpus ≡ true = has g.gpu (ground arith) in
    let low : quota_at g.gpu gpus + g.quota ≤ unit = let f = fits g.gpu in ground arith in
    let (back, run, sums, same) = give_back-total unit g gpus here low in
    let (after, ran, sums', same') =
      release_gpu-total unit granted back
        (λ id there. same id ∙ has id (rw there (either_true (g.gpu == id))))
        (λ id. omega (arith, sums id, fits id)) in
    (after, bind_step _ run ∙ ran, λ id. omega (arith, sums id, sums' id), λ id. same' id ∙ same id)
