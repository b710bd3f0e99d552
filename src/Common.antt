-- ===== src/Common.antt =====
-- smallpond/common.py: sizes and the ways to cut a list into partitions.
-- `np.array_split` is a parameter. An exception is a value of `Result`.
mod Slices
pub mod Rows
pub mod Cols
pub mod Sizes
pub mod Tests
use smallpond.Prelude.{
  ℕ, zero, suc, ◌+◌, ◌-◌, ◌*◌, ◌/◌, ◌%◌, ◌^◌, min, max, ◌≡◌, ◌≢◌, List, [], ◌∷◌, ◌++◌, map, flatten,
  Option, none, some, length, get_elem?, get_or, take, drop, replicate, range, ltb, ◌==◌,
  if◌then◌else◌, Result, ok, raise, ◌>>=◌, index_error, value_error, zero_division_error, of_option,
  map_result,
}

abbrev pub kb : ℕ
kb = 1024

abbrev pub mb : ℕ
mb = 1024 * kb

abbrev pub gb : ℕ
gb = 1024 * mb

unfoldable pub clamp_value : ℕ → ℕ → ℕ → ℕ
clamp_value val minval maxval = max minval (min val maxval)

unfoldable pub clamp_row_group_size : ℕ → ℕ → ℕ → ℕ
unfolding clamp_value
clamp_row_group_size val minval maxval = clamp_value val minval maxval

-- `np.array_split(np.arange(n), k)`, as the lists of indices; it raises ValueError at `k = 0`.
abbrev pub ArraySplit : Type 0
ArraySplit = ℕ → ℕ → Result (List (List ℕ))

-- What numpy documents: the blocks hold the indices in order, and `n % k` blocks of size
-- `n // k + 1` stand before the rest, of size `n // k`.
pub record IsArraySplit (array_split : ArraySplit) : Type 0 where
  pub blocks : ℕ → ℕ → List (List ℕ)
  pub rejects : (n : ℕ) → array_split n 0 ≡ raise value_error
  pub splits : (n k : ℕ) → 0 ≢ k → array_split n k ≡ ok (blocks n k)
  pub in_order : (n k : ℕ) → 0 ≢ k → flatten (blocks n k) ≡ range n
  pub sizes :
      (n k : ℕ)
      → 0 ≢ k
      → map length (blocks n k) ≡ replicate (n % k) (n / k + 1) ++ replicate (k - n % k) (n / k)

module _ {ℓ} {A : Type ℓ} where
  unfoldable pub split_into_rows : ArraySplit → List A → ℕ → Result (List (List A))
  split_into_rows array_split items npartitions = do
    split_idxs ← array_split (length items) npartitions
    map_result (map_result (λ i. of_option index_error (get_elem? items i))) split_idxs

  unfoldable pub get_nth_partition : List A → ℕ → ℕ → Result (List A)
  get_nth_partition items n npartitions =
      let num_items = length items in
      let large_partition_size = (num_items + npartitions - 1) / npartitions in
      let small_partition_size = num_items / npartitions in
      let num_large_partitions = num_items - small_partition_size * npartitions in
      if npartitions == 0
      then raise zero_division_error
      else if ltb n num_large_partitions
      then ok (take large_partition_size (drop (n * large_partition_size) items))
      else ok (
          take small_partition_size (
            drop
              (large_partition_size * num_large_partitions
                + (n - num_large_partitions) * small_partition_size)
              items))

  -- `[items[i : i + step] for i in range(0, len(items), step)]`, for a positive step.
  unfoldable pub chunks_of : ℕ → List A → List (List A)
  chunks_of step items =
      map (λ c. take step (drop (c * step) items)) (range ((length items + step - 1) / step))

  unfoldable pub max_length : List (List A) → ℕ
  max_length [] = 0
  max_length (xs ∷ xss) = max (length xs) (max_length xss)

  -- `itertools.zip_longest(*xss, fillvalue=fill)`
  unfoldable pub zip_longest : A → List (List A) → List (List A)
  unfolding max_length
  zip_longest fill xss = map (λ j. map (λ xs. get_or xs j fill) xss) (range (max_length xss))

  -- `[x for x in col if x is not none]`
  unfoldable pub keep_some : List (Option A) → List A
  keep_some [] = []
  keep_some (none ∷ xs) = keep_some xs
  keep_some (some x ∷ xs) = x ∷ keep_some xs

-- The sentinel object `none` of the source is `Option.none`.
unfoldable pub split_into_cols {ℓ} : {A : Type ℓ} → List A → ℕ → Result (List (List A))
unfolding chunks_of zip_longest keep_some
split_into_cols items npartitions =
    if npartitions == 0
    then raise value_error
    else ok (
        map keep_some (
          zip_longest none
            (replicate npartitions none ∷ map (map some) (chunks_of npartitions items))))

-- `int.bit_length`: the halvings until nothing is left. The number itself is fuel enough.
bit_length_from : ℕ → ℕ → ℕ
bit_length_from zero n = 0
bit_length_from (suc fuel) n =
    let rest = bit_length_from fuel (n / 2) in if n == 0 then 0 else rest + 1

unfoldable pub bit_length : ℕ → ℕ
unfolding bit_length_from
bit_length n = bit_length_from n n

-- At 0 the source takes `(-1).bit_length()`, which is that of 1.
unfoldable pub next_power_of_two : ℕ → ℕ
unfolding bit_length
next_power_of_two x = 2 ^ (if x == 0 then bit_length 1 else bit_length (x - 1))

-- `math.ceil(x / align_size) * align_size`. The quotient is a float in the source, exact for an
-- `x` below 2 ** 53 and the powers of two that the callers align to.
unfoldable pub round_up : ℕ → ℕ → Result ℕ
round_up x align_size =
    if align_size == 0
    then raise zero_division_error
    else ok ((x + align_size - 1) / align_size * align_size)
