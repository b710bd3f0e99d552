-- ===== src/Common/Sizes.antt =====
-- The numeric helpers: clamping, rounding up, and powers of two.
use smallpond.Prelude.{
  ℕ, zero, suc, ◌+◌, ◌-◌, ◌*◌, ◌/◌, ◌^◌, ◌≤◌, ◌<◌, ◌≡◌, ◌≢◌, inl, inr, arith, ◌==◌, ==_ne, ==_iff,
  refl, Bool-cases, ok,
}
use native.Mathlib.Nat.{div-add-mod, pow-suc}
use native.Mathlib.Numerals.{towards_suc}
use smallpond.Common.{bit_length_from, bit_length, next_power_of_two, round_up}

-- `round_up` raises nothing for a positive alignment, and gives the least multiple of it that is
-- not below the number.
round_up_least :
    (x align_size : ℕ)
    → 0 ≢ align_size
    → (m : ℕ) × (round_up x align_size ≡ ok (m * align_size))
      × (x ≤ m * align_size)
      × (m * align_size < x + align_size)
unfolding round_up
round_up_least x a h = (
  (x + a - 1) / a,
  rw (==_ne a 0 (omega arith)),
  omega (arith, div-add-mod (x + a - 1) a),
  omega (arith, div-add-mod (x + a - 1) a),
)

pow_step : (n m : ℕ) → n / 2 < 2 ^ m → n < 2 ^ (m + 1)
pow_step n m h = simp (towards_suc, pow-suc) (omega arith)

pow_back : (n m : ℕ) → 0 < n → n < 2 ^ m → (k : ℕ) × (m ≡ suc k) × (n / 2 < 2 ^ k)
pow_back n zero h h' = absurd (omega arith)
pow_back n (suc m) h h' = (m, refl, omega (arith, pow-suc 2 m))

bit_length_from-lt : (fuel n : ℕ) → n ≤ fuel → n < 2 ^ bit_length_from fuel n
unfolding bit_length_from
bit_length_from-lt zero n h = omega arith
bit_length_from-lt (suc fuel) n h = elim (Bool-cases (n == 0)) [
  | inl e ↦ rw e (omega (arith, (==_iff n 0).0 e))
  | inr e ↦
      rw e
        (pow_step n (bit_length_from fuel (n / 2)) (bit_length_from-lt fuel (n / 2) (ground arith)))
]

bit_length_from-le : (fuel n m : ℕ) → n < 2 ^ m → bit_length_from fuel n ≤ m
unfolding bit_length_from
bit_length_from-le zero n m h = omega arith
bit_length_from-le (suc fuel) n m h = elim (Bool-cases (n == 0)) [
  | inl e ↦ rw e (omega arith)
  | inr e ↦
      let (k, e', lt) = pow_back n m (ground arith) h in
      rw e (omega (arith, bit_length_from-le fuel (n / 2) k lt))
]

-- `next_power_of_two` of a positive number is the least power of two that is not below it.
next_power_of_two_least :
    (x : ℕ)
    → 0 < x
    → (k : ℕ) × (next_power_of_two x ≡ 2 ^ k) × (x ≤ 2 ^ k) × ((m : ℕ) → x ≤ 2 ^ m → k ≤ m)
unfolding next_power_of_two
next_power_of_two_least x h = (
  bit_length (x - 1),
  rw (==_ne x 0 (omega arith)) refl,
  omega (arith, bit_length_from-lt (x - 1) (x - 1) (omega arith)),
  λ m h'. bit_length_from-le (x - 1) (x - 1) m (omega arith),
)
