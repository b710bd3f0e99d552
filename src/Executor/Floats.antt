-- ===== src/Executor/Floats.antt =====
-- smallpond/execution/executor.py, `acquire_gpu` and `release_gpu` as they are written, over floats. The
-- operations on floats are a parameter; `IsExact` is what floats do with the multiples of a binary
-- fraction, as long as no sum passes a bound (2 ^ 53 of the fraction): they round none of them.
use smallpond.Prelude.{
  ℕ, ◌+◌, ◌-◌, ◌≤◌, min, ◌≡◌, refl, sym, ap, ◌∙◌, subst, Bool, inl, inr, List, [], ◌∷◌, All, ltb,
  leb, arith, Bool-cases, ◌==◌, if◌then◌else◌, Result, ok, raise, ◌>>=◌, ◌>>◌, guard, key_error,
  assertion_error, bind-ok, ok-injective, leb→le, ◌⊎◌, Error,
}
use smallpond.Executor.Gpus.{Distinct, release_gpu-acquire_gpu}
use smallpond.Executor.{GpuQuota, available_gpu_quota, grant, acquire_gpu, give_back, release_gpu}

pub record Floats (F : Type 0) : Type 0 where
  pub zero_float : F
  pub one_float : F
  pub add : F → F → F
  pub sub : F → F → F
  pub less : F → F → Bool
  pub at_most : F → F → Bool

module _ {F : Type 0} (o : Floats F) where
  -- `min(a, b)`
  abbrev pub min_float : F → F → F
  min_float a b = if o.less b a then b else a

  -- `sum(self.local_gpus.values())`
  abbrev pub sum_from : F → List (ℕ × F) → F
  sum_from acc [] = acc
  sum_from acc ((gpu, quota) ∷ gpus) = sum_from (o.add acc quota) gpus

  unfoldable pub grant_float : F → List (ℕ × F) → List (ℕ × F) × List (ℕ × F)
  grant_float quota [] = ([], [])
  grant_float quota ((gpu, available) ∷ gpus) =
      let granted_quota = min_float available quota in
      let rest = grant_float quota gpus in
      let next = grant_float (o.sub quota granted_quota) gpus in
      let left = o.sub available granted_quota in
      if o.at_most available o.zero_float
      then (rest.0, (gpu, available) ∷ rest.1)
      else if o.at_most (o.sub quota granted_quota) o.zero_float
      then ((gpu, granted_quota) ∷ [], (gpu, left) ∷ gpus)
      else ((gpu, granted_quota) ∷ next.0, (gpu, left) ∷ next.1)

  unfoldable pub acquire_gpu_float : F → List (ℕ × F) → List (ℕ × F) × List (ℕ × F)
  unfolding grant_float
  acquire_gpu_float quota gpus =
      if o.less (sum_from o.zero_float gpus) quota then ([], gpus) else grant_float quota gpus

  abbrev pub give_back_float : ℕ → F → List (ℕ × F) → Result (List (ℕ × F))
  give_back_float gpu quota [] = raise key_error
  give_back_float gpu quota ((other, available) ∷ gpus) =
      let rest = give_back_float gpu quota gpus in
      if other == gpu
      then (do
        guard (o.at_most (o.add available quota) o.one_float) assertion_error
        ok ((other, o.add available quota) ∷ gpus))
      else (do gpus' ← rest; ok ((other, available) ∷ gpus'))

  unfoldable pub release_gpu_float : List (ℕ × F) → List (ℕ × F) → Result (List (ℕ × F))
  release_gpu_float [] gpus = ok gpus
  release_gpu_float ((gpu, quota) ∷ granted) gpus = do
    gpus' ← give_back_float gpu quota gpus
    release_gpu_float granted gpus'

-- `scale n` is `n` times the fraction, of which a whole GPU has `unit`.
pub record IsExact {F : Type 0} (o : Floats F) (unit bound : ℕ) (scale : ℕ → F) : Type 0 where
  pub at_zero : scale 0 ≡ o.zero_float
  pub at_one : scale unit ≡ o.one_float
  pub adds : (m n : ℕ) → m + n ≤ bound → o.add (scale m) (scale n) ≡ scale (m + n)
  pub subtracts : (m n : ℕ) → n ≤ m → m ≤ bound → o.sub (scale m) (scale n) ≡ scale (m - n)
  pub compares : (m n : ℕ) → m ≤ bound → n ≤ bound → o.less (scale m) (scale n) ≡ ltb m n
  pub orders : (m n : ℕ) → m ≤ bound → n ≤ bound → o.at_most (scale m) (scale n) ≡ leb m n

result_cases :
    {A : Type 0} (r : Result A) → ((a : A) × (r ≡ ok a)) ⊎ ((error : Error) × (r ≡ raise error))
result_cases (ok a) = inl (a, refl)
result_cases (raise error) = inr (error, refl)

module _ {F : Type 0} (o : Floats F) (unit bound : ℕ) (scale : ℕ → F)
    (exact : IsExact o unit bound scale) where
  abbrev pub scaled : List GpuQuota → List (ℕ × F)
  scaled [] = []
  scaled (g ∷ gpus) = (g.gpu, scale g.quota) ∷ scaled gpus

  min-scale : (m n : ℕ) → m ≤ bound → n ≤ bound → min_float o (scale m) (scale n) ≡ scale (min m n)
  min-scale m n hm hn = elim (Bool-cases (ltb n m)) [
    | inl e ↦
        let least : n ≡ min m n = ground arith in rw (exact.compares n m hn hm, e) (ap scale least)
    | inr e ↦
        let least : m ≡ min m n = ground arith in rw (exact.compares n m hn hm, e) (ap scale least)
  ]

  sum-scale :
      (acc : ℕ) (gpus : List GpuQuota)
      → acc + available_gpu_quota gpus ≤ bound
      → sum_from o (scale acc) (scaled gpus) ≡ scale (acc + available_gpu_quota gpus)
  sum-scale acc [] h = ap scale (omega arith)
  sum-scale acc (g ∷ gpus) h =
      ap (λ x. sum_from o x (scaled gpus)) (exact.adds acc g.quota (omega (arith, h)))
      ∙ sum-scale (acc + g.quota) gpus (omega (arith, h))
      ∙ ap scale (omega arith)

  empty-scale : (n : ℕ) → n ≤ bound → o.at_most (scale n) o.zero_float ≡ (n == 0)
  empty-scale n h =
      ap (o.at_most (scale n)) (sym exact.at_zero) ∙ exact.orders n 0 h (omega arith) ∙ ground arith

  abbrev pub both_scaled : List GpuQuota × List GpuQuota → List (ℕ × F) × List (ℕ × F)
  both_scaled (granted, gpus) = (scaled granted, scaled gpus)

  grant-scale :
      (quota : ℕ) (gpus : List GpuQuota)
      → quota ≤ bound
      → available_gpu_quota gpus ≤ bound
      → grant_float o (scale quota) (scaled gpus) ≡ both_scaled (grant quota gpus)
  unfolding grant_float grant
  grant-scale quota [] hq hg = refl
  grant-scale quota (g ∷ gpus) hq hg =
      let m = min g.quota quota in
      let least = min-scale g.quota quota (omega (arith, hg)) hq in
      let left : o.sub (scale g.quota) (scale m) ≡ scale (g.quota - m) =
        exact.subtracts g.quota m (omega arith) (omega (arith, hg)) in
      let more : o.sub (scale quota) (scale m) ≡ scale (quota - m) =
        exact.subtracts quota m (omega arith) hq in
      let rest = grant-scale quota gpus hq (omega (arith, hg)) in
      let next = grant-scale (quota - m) gpus (omega (arith, hq)) (omega (arith, hg)) in
      rw
        (
          least,
          left,
          more,
          empty-scale g.quota (omega (arith, hg)),
          empty-scale (quota - m) (omega (arith, hq)),
          rest,
          next,
        )
        (elim (Bool-cases (g.quota == 0)) [
          | inl none_here ↦ rw none_here refl
          | inr some_here ↦ elim (Bool-cases (quota - m == 0)) [
            | inl met ↦ rw (some_here, met) refl
            | inr unmet ↦ rw (some_here, unmet) refl
          ]
        ])

  pub acquire_gpu_float-scale :
      (quota : ℕ) (gpus : List GpuQuota)
      → quota ≤ bound
      → available_gpu_quota gpus ≤ bound
      → acquire_gpu_float o (scale quota) (scaled gpus) ≡ both_scaled (acquire_gpu quota gpus)
  unfolding acquire_gpu_float acquire_gpu
  acquire_gpu_float-scale quota gpus hq hg =
      let total : sum_from o o.zero_float (scaled gpus) ≡ scale (available_gpu_quota gpus) =
        ap (λ z. sum_from o z (scaled gpus)) (sym exact.at_zero)
        ∙ sum-scale 0 gpus (omega (arith, hg))
        ∙ ap scale (omega arith) in
      rw
        (total, exact.compares (available_gpu_quota gpus) quota hg hq, grant-scale quota gpus hq hg)
        (elim (Bool-cases (ltb (available_gpu_quota gpus) quota)) [
          | inl short ↦ rw short refl
          | inr enough ↦ rw enough refl
        ])

  abbrev pub scaled_result : Result (List GpuQuota) → Result (List (ℕ × F))
  scaled_result r = r >>= λ gpus. ok (scaled gpus)

  scaled_behind :
      (h : GpuQuota) (r : Result (List GpuQuota))
      → (scaled_result r >>= λ gpus. ok ((h.gpu, scale h.quota) ∷ gpus))
        ≡ scaled_result (r >>= λ gpus. ok (h ∷ gpus))
  scaled_behind h (ok gpus) = refl
  scaled_behind h (raise error) = refl

  give_back-scale :
      (g : GpuQuota) (gpus : List GpuQuota)
      → unit + unit ≤ bound
      → g.quota ≤ unit
      → All (λ h. h.quota ≤ unit) gpus
      → give_back_float o g.gpu (scale g.quota) (scaled gpus)
        ≡ scaled_result (give_back unit g gpus)
  give_back-scale g [] hu hg all = refl
  give_back-scale g (h ∷ gpus) hu hg (hh, all) =
      let added = exact.adds h.quota g.quota (omega (arith, hu, hg, hh)) in
      let tested : o.at_most (scale (h.quota + g.quota)) o.one_float
          ≡ leb (h.quota + g.quota) unit =
        ap (o.at_most (scale (h.quota + g.quota))) (sym exact.at_one)
        ∙ exact.orders (h.quota + g.quota) unit (omega (arith, hu, hg, hh)) (omega (arith, hu)) in
      let rest = give_back-scale g gpus hu hg all in
      elim (Bool-cases (h.gpu == g.gpu)) [
        | inl here ↦
            rw (here, added, tested)
              (elim (Bool-cases (leb (h.quota + g.quota) unit)) [
                | inl fits ↦ rw fits refl
                | inr over ↦ rw over refl
              ])
        | inr elsewhere ↦ rw (elsewhere, rest) (scaled_behind h (give_back unit g gpus))
      ]

  give_back-All :
      (g : GpuQuota) (gpus after : List GpuQuota)
      → All (λ h. h.quota ≤ unit) gpus
      → give_back unit g gpus ≡ ok after
      → All (λ h. h.quota ≤ unit) after
  give_back-All g [] after all e = absurd (cc)
  give_back-All g (h ∷ gpus) after (hh, all) e = elim (Bool-cases (h.gpu == g.gpu)) [
    | inr elsewhere ↦
        let (gpus', ran, same) = bind-ok (give_back unit g gpus) _ after (rw elsewhere at e) in
        subst (All (λ h. h.quota ≤ unit)) (ok-injective same)
          (hh, give_back-All g gpus gpus' all ran)
    | inl here ↦ elim (Bool-cases (leb (h.quota + g.quota) unit)) [
      | inl fits ↦
          subst (All (λ h. h.quota ≤ unit)) (ok-injective (rw (here, fits) at e))
            (leb→le _ _ fits, all)
      | inr over ↦ absurd (let wrong = rw (here, over) at e in cc)
    ]
  ]

  pub release_gpu_float-scale :
      (granted gpus : List GpuQuota)
      → unit + unit ≤ bound
      → All (λ g. g.quota ≤ unit) granted
      → All (λ g. g.quota ≤ unit) gpus
      → release_gpu_float o (scaled granted) (scaled gpus)
        ≡ scaled_result (release_gpu unit granted gpus)
  unfolding release_gpu_float release_gpu
  release_gpu_float-scale [] gpus hu hg all = refl
  release_gpu_float-scale (g ∷ granted) gpus hu (hg, hgs) all =
      ap (λ r. r >>= release_gpu_float o (scaled granted)) (give_back-scale g gpus hu hg all)
      ∙ elim (result_cases (give_back unit g gpus)) [
        | inl (after, ran) ↦
            rw ran
              (release_gpu_float-scale granted after hu hgs (give_back-All g gpus after all ran))
        | inr (error, ran) ↦ rw ran refl
      ]

  grant-bound :
      (quota : ℕ) (gpus : List GpuQuota)
      → All (λ g. g.quota ≤ unit) gpus
      → All (λ g. g.quota ≤ unit) (grant quota gpus).0
        × All (λ g. g.quota ≤ unit) (grant quota gpus).1
  unfolding grant
  grant-bound quota [] all = (tt, tt)
  grant-bound quota (g ∷ gpus) (small, all) =
      let m = min g.quota quota in
      let taken : m ≤ unit = omega (arith, small) in
      let left : g.quota - m ≤ unit = omega (arith, small) in
      let (rest, rests) = grant-bound quota gpus all in
      let (next, nexts) = grant-bound (quota - m) gpus all in
      elim (Bool-cases (g.quota == 0)) [
        | inl none_here ↦ rw none_here (rest, (small, rests))
        | inr some_here ↦ elim (Bool-cases (quota - m == 0)) [
          | inl met ↦ rw (some_here, met) ((taken, tt), (left, all))
          | inr unmet ↦ rw (some_here, unmet) ((taken, next), (left, nexts))
        ]
      ]

  acquire_gpu-bound :
      (quota : ℕ) (gpus : List GpuQuota)
      → All (λ g. g.quota ≤ unit) gpus
      → All (λ g. g.quota ≤ unit) (acquire_gpu quota gpus).0
        × All (λ g. g.quota ≤ unit) (acquire_gpu quota gpus).1
  unfolding acquire_gpu
  acquire_gpu-bound quota gpus all = elim (Bool-cases (ltb (available_gpu_quota gpus) quota)) [
    | inl short ↦ rw short (tt, all)
    | inr enough ↦ rw enough (grant-bound quota gpus all)
  ]

  -- What is acquired can be released, where floats are exact for the quotas, for their sum and up to two
  -- GPUs: if no GPU occurs twice and none has more than a whole GPU available, releasing what is granted
  -- raises nothing and leaves what was available before.
  pub release_gpu_float-acquire_gpu_float :
      (quota : ℕ) (gpus : List GpuQuota)
      → quota ≤ bound
      → available_gpu_quota gpus ≤ bound
      → unit + unit ≤ bound
      → Distinct gpus
      → All (λ g. g.quota ≤ unit) gpus
      → release_gpu_float o
          (acquire_gpu_float o (scale quota) (scaled gpus)).0
          (acquire_gpu_float o (scale quota) (scaled gpus)).1
        ≡ ok (scaled gpus)
  release_gpu_float-acquire_gpu_float quota gpus hq hg hu distinct all =
      let (granted_small, left_small) = acquire_gpu-bound quota gpus all in
      ap (λ r. release_gpu_float o r.0 r.1) (acquire_gpu_float-scale quota gpus hq hg)
      ∙ release_gpu_float-scale (acquire_gpu quota gpus).0 (acquire_gpu quota gpus).1 hu
          granted_small left_small
      ∙ ap scaled_result (release_gpu-acquire_gpu unit quota gpus distinct all)
