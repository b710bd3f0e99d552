-- ===== src/Common/Rows.antt =====
-- `split_into_rows` and `get_nth_partition`: the same even cut, by blocks of indices and by slices.
use smallpond.Prelude.{
  ℕ, zero, suc, ◌+◌, ◌-◌, ◌*◌, ◌/◌, ◌%◌, ◌≤◌, ◌<◌, ◌≡◌, ◌≢◌, refl, sym, ap, subst, ◌∙◌, List, [],
  ◌∷◌, ◌++◌, map, flatten, some, inl, inr, arith, length, get_elem?, take, drop, replicate, sum,
  range, range_from, drop-drop, drop-eq-cons, get_elem?-some, length-map, take-all, append-nil,
  length-append, length-replicate, ltb→lt, ltb→le, ==_ne, ap₂, ltb, Bool-cases, ok, index_error,
  of_option, map_result,
}
use native.Mathlib.Nat.{div-add-mod, div-eq_of_lt-le}
use smallpond.Common.{ArraySplit, IsArraySplit, split_into_rows, get_nth_partition}
use smallpond.Common.Slices.{
  split_sizes, sum-append, sum-replicate, split_sizes-flatten, flatten-split_sizes,
  lengths-split_sizes, get-split_sizes-lt, get-split_sizes-add, take-range_from, drop-range_from,
}

-- The sizes of an even cut, the larger blocks first.
abbrev pub even_sizes : ℕ → ℕ → List ℕ
even_sizes n k = replicate (n % k) (n / k + 1) ++ replicate (k - n % k) (n / k)

sub_mul_add : (a b q : ℕ) → a ≤ b → a * (q + 1) + (b - a) * q ≡ b * q + a
sub_mul_add a b q h =
    let e : b ≡ a + (b - a) = omega arith in omega (arith, ap (λ (t : ℕ). t * q) e)

pub sum-even_sizes : (n k : ℕ) → 0 ≢ k → sum (even_sizes n k) ≡ n
sum-even_sizes n k h =
    sum-append (replicate (n % k) (n / k + 1)) (replicate (k - n % k) (n / k))
    ∙ omega (
      arith,
      sum-replicate (n % k) (n / k + 1),
      sum-replicate (k - n % k) (n / k),
      sub_mul_add (n % k) k (n / k) (omega arith),
      div-add-mod n k,
    )

length-even_sizes : (n k : ℕ) → 0 ≢ k → length (even_sizes n k) ≡ k
length-even_sizes n k h = omega (
  arith,
  length-append (replicate (n % k) (n / k + 1)) (replicate (k - n % k) (n / k)),
  length-replicate (n % k) (n / k + 1),
  length-replicate (k - n % k) (n / k),
)

-- What the two divisions of `get_nth_partition` come to.
pub remainder : (n k : ℕ) → n - n / k * k ≡ n % k
remainder n k = omega (arith, div-add-mod n k)

pub ceil_div : (n k : ℕ) → 0 < n % k → 0 ≢ k → (n + k - 1) / k ≡ n / k + 1
ceil_div n k h h' =
    div-eq_of_lt-le k (omega (arith, div-add-mod n k)) (omega (arith, div-add-mod n k))

large_blocks : (n k : ℕ) → 0 ≢ k → (n + k - 1) / k * (n % k) ≡ n % k * (n / k + 1)
large_blocks n k h = elim (Bool-cases (ltb 0 (n % k))) [
  | inl some_large ↦
      omega (arith, ap (λ (t : ℕ). t * (n % k)) (ceil_div n k (ltb→lt 0 (n % k) some_large) h))
  | inr none_large ↦
      let e : n % k ≡ 0 = omega (arith, ltb→le 0 (n % k) none_large) in rw e (omega arith)
]

blocks-split_sizes :
    {array_split : ArraySplit} (laws : IsArraySplit array_split) (n k : ℕ)
    → 0 ≢ k
    → laws.blocks n k ≡ split_sizes (even_sizes n k) (range n)
blocks-split_sizes laws n k h =
    split_sizes-flatten (laws.blocks n k) ∙ ap₂ split_sizes (laws.sizes n k h) (laws.in_order n k h)

module _ {ℓ} {A : Type ℓ} where
  -- Reading the items at a range of indices reads a slice.
  gather-range :
      (items : List A) (a n : ℕ)
      → a + n ≤ length items
      → map_result (λ i. of_option index_error (get_elem? items i)) (range_from a n)
        ≡ ok (take n (drop a items))
  gather-range items a zero h = refl
  gather-range items a (suc n) h =
      let (x, e) = get_elem?-some a items (omega arith) in
      rw (e, gather-range items (suc a) n (omega arith))
        (ap (λ xs. ok (take (suc n) xs)) (sym (drop-eq-cons a items e)))

  -- So reading blocks of indices cuts the list into blocks.
  gather-split_sizes :
      (items : List A) (ns : List ℕ) (a n : ℕ)
      → sum ns ≤ n
      → a + n ≤ length items
      → map_result
          (map_result (λ i. of_option index_error (get_elem? items i)))
          (split_sizes ns (range_from a n))
        ≡ ok (split_sizes ns (drop a items))
  gather-split_sizes items [] a n h h' = refl
  gather-split_sizes items (m ∷ ns) a n h h' =
      rw
        (
          take-range_from a m n (omega arith),
          gather-range items a m (omega arith),
          drop-range_from a m n (omega arith),
          gather-split_sizes items ns (a + m) (n - m) (omega arith) (omega arith),
          drop-drop a m items,
        )
        refl

  module _ (array_split : ArraySplit) (laws : IsArraySplit array_split) where
    open laws use {splits}

    split_into_rows_lem :
        (items : List A) (k : ℕ)
        → 0 ≢ k
        → split_into_rows array_split items k ≡ ok (split_sizes (even_sizes (length items) k) items)
    unfolding split_into_rows
    split_into_rows_lem items k h =
        let n = length items in
        rw (splits n k h, blocks-split_sizes laws n k h)
          (gather-split_sizes items (even_sizes n k) 0 n (omega (arith, sum-even_sizes n k h))
            (omega arith))

    -- For a positive number of partitions no exception is raised: there is one row for each
    -- partition, the rows put end to end are the items, and the first `len(items) % npartitions`
    -- rows have one item more than the others.
    pub split_into_rows-IsEven :
        (items : List A) (npartitions : ℕ)
        → 0 ≢ npartitions
        → (rows : List (List A)) × (split_into_rows array_split items npartitions ≡ ok rows)
          × (flatten rows ≡ items)
          × (length rows ≡ npartitions)
          × (map length rows ≡ even_sizes (length items) npartitions)
    split_into_rows-IsEven items k h =
        let n = length items in
        let total = sum-even_sizes n k h in
        let rows = split_sizes (even_sizes n k) items in
        let lens = lengths-split_sizes (even_sizes n k) items (omega (arith, total)) in
        (
          rows,
          split_into_rows_lem items k h,
          flatten-split_sizes (even_sizes n k) items ∙ take-all _ items (omega (arith, total)),
          sym (length-map rows length) ∙ ap length lens ∙ length-even_sizes n k h,
          lens,
        )

  get_nth_partition_lem :
      (items : List A) (i k : ℕ)
      → i < k
      → (part : List A) × (get_nth_partition items i k ≡ ok part)
        × (get_elem? (split_sizes (even_sizes (length items) k) items) i ≡ some part)
  unfolding get_nth_partition
  get_nth_partition_lem items i k h = elim (Bool-cases (ltb i (n % k))) [
    | inl low ↦
        let e = ceil_div n k (omega (arith, ltb→lt i (n % k) low)) (omega arith) in
        (
          take (n / k + 1) (drop (i * (n / k + 1)) items),
          rw (remainder n k, ==_ne k 0 (omega arith), low, e) refl,
          get-split_sizes-lt (n % k) (n / k + 1) i _ items (omega (arith, ltb→lt i (n % k) low)),
        )
    | inr high ↦
        let r = n % k in
        let q = n / k in
        let above : r ≤ i = ltb→le i r high in
        let j = i - r in
        let ei : i ≡ r + j = omega arith in
        let start : (n + k - 1) / k * r + j * q ≡ r * (q + 1) + j * q =
          ap (λ t. t + j * q) (large_blocks n k (omega arith)) in
        (
          take q (drop (r * (q + 1) + j * q) items),
          rw (remainder n k, ==_ne k 0 (omega arith), high, start) refl,
          subst
              (λ x.
                get_elem? (split_sizes (even_sizes n k) items) x
                ≡ some (take q (drop (r * (q + 1) + j * q) items)))
              (sym ei)
              (get-split_sizes-add r (q + 1) j (replicate (k - r) q) items
                ∙ (rw append-nil at
                    (get-split_sizes-lt (k - r) q j [] (drop (r * (q + 1)) items) (omega arith)))
                ∙ ap (λ xs. some (take q xs)) (drop-drop (r * (q + 1)) (j * q) items)),
        )
  ]
    where
      n : ℕ
      n = length items

  -- `get_nth_partition` computes row `n` of `split_into_rows` without the others: for a partition
  -- below a positive number of partitions neither raises, and they give the same items.
  pub get_nth_partition-eq-row :
      (array_split : ArraySplit) (laws : IsArraySplit array_split) (items : List A)
      (n npartitions : ℕ)
      → n < npartitions
      → (rows : List (List A)) × (part : List A) × (split_into_rows array_split items npartitions
          ≡ ok rows)
        × (get_nth_partition items n npartitions ≡ ok part)
        × (get_elem? rows n ≡ some part)
  get_nth_partition-eq-row array_split laws items n k h =
      let (part, computed, found) = get_nth_partition_lem items n k h in
      (
        split_sizes (even_sizes (length items) k) items,
        part,
        split_into_rows_lem array_split laws items k (omega arith),
        computed,
        found,
      )
