-- ===== src/Executor/FloatTests.antt =====
-- Floats with so few digits that only the multiples of 1/16 up to 4 are exact, and two GPUs.
use smallpond.Prelude.{
  ok, ℕ, ◌+◌, ◌-◌, ◌≡◌, refl, List, [], ◌∷◌, ltb, leb, le→leb, if◌then◌else◌, arith,
}
use smallpond.Executor.{GpuQuota}
use smallpond.Executor.Floats.{
  Floats, IsExact, acquire_gpu_float, release_gpu_float, scaled,
  release_gpu_float-acquire_gpu_float,
}

-- A sum beyond 4 is rounded to 4.
abbrev short_floats : Floats ℕ
short_floats = record {
  zero_float = 0;
  one_float = 16;
  add = λ m n. if leb (m + n) 64 then m + n else 64;
  sub = λ m n. m - n;
  less = ltb;
  at_most = leb;
}

short_floats-IsExact : IsExact short_floats 16 64 (λ n. n)
short_floats-IsExact = record {
  at_zero = refl;
  at_one = refl;
  adds = λ m n h. rw (le→leb (m + n) 64 h) refl;
  subtracts = λ m n h k. refl;
  compares = λ m n h k. refl;
  orders = λ m n h k. refl;
}

abbrev gpus : List GpuQuota
gpus = record { gpu = 0; quota = 4 } ∷ record { gpu = 1; quota = 16 } ∷ []

acquired : (acquire_gpu_float short_floats 6 ((0, 4) ∷ (1, 16) ∷ [])).0 ≡ (0, 4) ∷ (1, 2) ∷ []
unfolding acquire_gpu_float
acquired = refl

abbrev granted : List GpuQuota
granted = record { gpu = 0; quota = 6 } ∷ record { gpu = 1; quota = 0 } ∷ []

release_gpu_float-acquire_gpu_float_example :
    release_gpu_float short_floats
      (acquire_gpu_float short_floats 6
        (scaled short_floats 16 64 (λ n. n) short_floats-IsExact gpus)).0
      (acquire_gpu_float short_floats 6
        (scaled short_floats 16 64 (λ n. n) short_floats-IsExact gpus)).1
    ≡ ok (scaled short_floats 16 64 (λ n. n) short_floats-IsExact gpus)
release_gpu_float-acquire_gpu_float_example =
    release_gpu_float-acquire_gpu_float short_floats 16 64 (λ n. n) short_floats-IsExact 6 gpus
      (omega arith) (omega arith) (omega arith) ((refl, tt), (tt, tt))
      (omega arith, (omega arith, tt))
