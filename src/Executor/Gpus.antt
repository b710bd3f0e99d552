-- ===== src/Executor/Gpus.antt =====
-- GPUs are granted in full or not at all, and what is released is what was granted.
use smallpond.Prelude.{
  ℕ, ◌+◌, ◌-◌, ◌≤◌, ◌<◌, min, ◌≡◌, ◌≢◌, ◌↔◌, refl, ap, ◌∙◌, true, false, inl, inr, List, [], ◌∷◌,
  arith, All, ltb, ◌==◌, le→leb, ltb→lt, ltb→le, Bool-cases, ok, ◌>>=◌, bind-ok, bind_step, bind-ok,
}
use smallpond.Executor.{GpuQuota, available_gpu_quota, grant, acquire_gpu, give_back, release_gpu}

grant-total :
    (quota : ℕ) (gpus : List GpuQuota)
    → quota ≤ available_gpu_quota gpus
    → 0 < quota
    → (available_gpu_quota (grant quota gpus).0 ≡ quota)
      × (available_gpu_quota (grant quota gpus).1 + quota ≡ available_gpu_quota gpus)
unfolding grant
grant-total quota [] h pos = absurd (omega arith)
grant-total quota (g ∷ gpus) h pos = elim (Bool-cases (g.quota == 0)) [
  | inl empty ↦ let (a, b) = grant-total quota gpus (ground arith) pos in rw empty (a, ground arith)
  | inr some_left ↦ elim (Bool-cases (quota - min g.quota quota == 0)) [
    | inl met ↦ rw (some_left, met) (ground arith, ground arith)
    | inr more ↦
        let (a, b) = grant-total (quota - min g.quota quota) gpus (ground arith) (ground arith) in
        rw (some_left, more) (ground arith, ground arith)
  ]
]

grant-nonempty :
    (quota : ℕ) (gpus : List GpuQuota)
    → quota ≤ available_gpu_quota gpus
    → 0 < quota
    → (grant quota gpus).0 ≢ []
grant-nonempty quota gpus h pos none_granted =
    let (met, rest) = grant-total quota gpus h pos in
    let nothing = ap available_gpu_quota none_granted in omega arith

-- For a quota above zero, `acquire_gpu` grants nothing exactly when less is available, so that the
-- loop around it waits no longer than that; it grants the quota in full otherwise; and what it
-- grants and what it leaves make up what was available.
acquire_gpu-granted :
    (quota : ℕ) (gpus : List GpuQuota)
    → 0 < quota
    → (((acquire_gpu quota gpus).0 ≡ []) ↔ (available_gpu_quota gpus < quota))
      × (quota ≤ available_gpu_quota gpus → available_gpu_quota (acquire_gpu quota gpus).0 ≡ quota)
      × (available_gpu_quota (acquire_gpu quota gpus).0
            + available_gpu_quota (acquire_gpu quota gpus).1
          ≡ available_gpu_quota gpus)
unfolding acquire_gpu
acquire_gpu-granted quota gpus pos = elim (Bool-cases (ltb (available_gpu_quota gpus) quota)) [
  | inl short ↦
      let less = ltb→lt _ _ short in
      rw short ((λ e. less, λ h. refl), λ h. absurd (omega arith), omega arith)
  | inr enough ↦
      let more = ltb→le _ _ enough in
      let (met, rest) = grant-total quota gpus more pos in
      rw enough (
        (λ e. absurd (grant-nonempty quota gpus more pos e), λ h. absurd (omega arith)),
        λ h. met,
        omega arith,
      )
]

-- No GPU occurs twice.
abbrev pub Distinct : List GpuQuota → Type 0
Distinct [] = Unit
Distinct (g ∷ gpus) = All (λ h. (g.gpu == h.gpu) ≡ false) gpus × Distinct gpus

grant-All :
    (id quota : ℕ) (gpus : List GpuQuota)
    → All (λ h. (id == h.gpu) ≡ false) gpus
    → All (λ h. (id == h.gpu) ≡ false) (grant quota gpus).0
unfolding grant
grant-All id quota [] h = tt
grant-All id quota (g ∷ gpus) (other, h) = elim (Bool-cases (g.quota == 0)) [
  | inl empty ↦ rw empty (grant-All id quota gpus h)
  | inr some_left ↦ elim (Bool-cases (quota - min g.quota quota == 0)) [
    | inl met ↦ rw (some_left, met) (other, tt)
    | inr more ↦ rw (some_left, more) (other, grant-All id (quota - min g.quota quota) gpus h)
  ]
]

-- A release of other GPUs passes a GPU over.
release_elsewhere :
    (unit : ℕ) (h : GpuQuota) (granted gpus after : List GpuQuota)
    → All (λ g. (h.gpu == g.gpu) ≡ false) granted
    → release_gpu unit granted gpus ≡ ok after
    → release_gpu unit granted (h ∷ gpus) ≡ ok (h ∷ after)
unfolding release_gpu
release_elsewhere unit h [] gpus after others run = ap (λ r. r >>= λ l. ok (h ∷ l)) run
release_elsewhere unit h (g ∷ granted) gpus after (other, others) run =
    let (back, given, rest) = bind-ok (give_back unit g gpus) _ after run in
    bind_step {r = give_back unit g (h ∷ gpus)} {x = h ∷ back} _ (rw (other, given) refl)
    ∙ release_elsewhere unit h granted back after others rest

give_back_first :
    (unit m : ℕ) (g : GpuQuota) (gpus : List GpuQuota)
    → m ≤ g.quota
    → g.quota ≤ unit
    → give_back unit (record g { quota = m }) (record g { quota = g.quota - m } ∷ gpus)
      ≡ ok (g ∷ gpus)
give_back_first unit m g gpus h bound =
    let whole : g.quota - m + m ≡ g.quota = omega arith in
    let same : (g.gpu == g.gpu) ≡ true = ground arith in
    rw (same, whole, le→leb g.quota unit bound) refl

release_gpu-grant :
    (unit quota : ℕ) (gpus : List GpuQuota)
    → Distinct gpus
    → All (λ g. g.quota ≤ unit) gpus
    → release_gpu unit (grant quota gpus).0 (grant quota gpus).1 ≡ ok gpus
unfolding grant release_gpu
release_gpu-grant unit quota [] distinct bound = refl
release_gpu-grant unit quota (g ∷ gpus) (other, distinct) (whole, bound) =
    elim (Bool-cases (g.quota == 0)) [
      | inl empty ↦ rw empty (
          release_elsewhere unit g (grant quota gpus).0 (grant quota gpus).1 gpus
            (grant-All g.gpu quota gpus other) (release_gpu-grant unit quota gpus distinct bound))
      | inr some_left ↦ elim (Bool-cases (quota - min g.quota quota == 0)) [
        | inl met ↦
            rw (some_left, met)
              (bind_step {x = g ∷ gpus} _
                (give_back_first unit (min g.quota quota) g gpus (omega arith) whole))
        | inr more ↦
            let rest = grant (quota - min g.quota quota) gpus in
            rw (some_left, more)
              (bind_step {x = g ∷ rest.1} _
                  (give_back_first unit (min g.quota quota) g rest.1 (omega arith) whole)
                ∙ release_elsewhere unit g rest.0 rest.1 gpus
                    (grant-All g.gpu (quota - min g.quota quota) gpus other)
                    (release_gpu-grant unit (quota - min g.quota quota) gpus distinct bound))
      ]
    ]

-- What `acquire_gpu` grants can be released. For quotas that are multiples of one binary fraction of
-- a GPU, so that floats add and subtract them exactly: if no GPU occurs twice and none has more than
-- a whole GPU available, releasing the granted quotas raises nothing and leaves what was available before.
pub release_gpu-acquire_gpu :
    (unit quota : ℕ) (gpus : List GpuQuota)
    → Distinct gpus
    → All (λ g. g.quota ≤ unit) gpus
    → release_gpu unit (acquire_gpu quota gpus).0 (acquire_gpu quota gpus).1 ≡ ok gpus
unfolding acquire_gpu release_gpu
release_gpu-acquire_gpu unit quota gpus distinct bound =
    elim (Bool-cases (ltb (available_gpu_quota gpus) quota)) [
      | inl short ↦ rw short refl
      | inr enough ↦ rw enough (release_gpu-grant unit quota gpus distinct bound)
    ]
