-- ===== src/RowRange/Even.antt =====
-- `partition_by_rows`: an even cut of the rows of all ranges.
use smallpond.Prelude.{
  ℕ, zero, suc, ◌+◌, ◌-◌, ◌*◌, ◌/◌, ◌%◌, ◌≤◌, ◌<◌, ◌≡◌, ◌≢◌, refl, sym, ap, ap₂, ◌∙◌, List, [], ◌∷◌,
  ◌++◌, map, flatten, inl, inr, arith, length, replicate, append_assoc, ltb, ltb→lt, ltb→le,
  Bool-cases, ok,
}
use native.Mathlib.Nat.{div-add-mod, div-eq_of_lt, div-eq_of_lt-le, div-le_of_le-mul, le_of_eq}
use smallpond.Common.Rows.{even_sizes}
use smallpond.RowRange.{RowRange, partition_loop, partition_by_rows}
use smallpond.RowRange.Take.{rows_of-empty, total_rows, all_rows, take_rows_lem}

-- Quotient and remainder from their equation.
div_mod_unique : (n k q r : ℕ) → n ≡ k * q + r → r < k → (n / k ≡ q) × (n % k ≡ r)
div_mod_unique n k q r e h =
    let d : n / k ≡ q = div-eq_of_lt-le k (omega arith) (omega arith) in
    (d, omega (arith, div-add-mod n k, ap (λ (t : ℕ). k * t) d))

even_sizes_at :
    (n k q r : ℕ)
    → n ≡ k * q + r
    → r < k
    → even_sizes n k ≡ replicate r (q + 1) ++ replicate (k - r) q
even_sizes_at n k q r e h =
    let (d, m) = div_mod_unique n k q r e h in
    ap₂ (λ x y. replicate y (x + 1) ++ replicate (k - y) x) d m

even_sizes-suc_larger :
    (n k q r : ℕ)
    → n ≡ suc k * q + suc r
    → r < k
    → even_sizes n (suc k) ≡ ((n + suc k - 1) / suc k) ∷ even_sizes (n - (n + suc k - 1) / suc k) k
even_sizes-suc_larger n k q r e h =
    let c : (n + suc k - 1) / suc k ≡ q + 1 = div-eq_of_lt-le (suc k) (omega arith) (omega arith) in
    let rest = even_sizes_at (n - (q + 1)) k q r (omega arith) h in
    let same : suc k - suc r ≡ k - r = omega arith in
    rw (c, rest)
      (even_sizes_at n (suc k) q (suc r) e (omega arith)
        ∙ ap (λ m. replicate (suc r) (q + 1) ++ replicate m q) same)

even_sizes-suc_equal :
    (n k q : ℕ)
    → n ≡ suc k * q
    → even_sizes n (suc k) ≡ ((n + suc k - 1) / suc k) ∷ even_sizes (n - (n + suc k - 1) / suc k) k
even_sizes-suc_equal n zero q e =
    let c : (n + 1 - 1) / 1 ≡ q = div-eq_of_lt-le 1 (omega arith) (omega arith) in
    let none_left : n - q ≡ 0 = omega arith in
    rw (c, none_left) (even_sizes_at n 1 q 0 (omega arith) (omega arith))
even_sizes-suc_equal n (suc k) q e =
    let c : (n + suc (suc k) - 1) / suc (suc k) ≡ q =
      div-eq_of_lt-le (suc (suc k)) (omega arith) (omega arith) in
    rw (c, even_sizes_at (n - q) (suc k) q 0 (omega arith) (omega arith))
      (even_sizes_at n (suc (suc k)) q 0 (omega arith) (omega arith)
        ∙ ap (λ m. replicate m q) (let e' : suc (suc k) - 0 ≡ suc (suc k - 0) = omega arith in e'))

-- Taking a first part of the rounded-up share leaves an even cut among one part fewer.
even_sizes-suc :
    (n k : ℕ)
    → even_sizes n (suc k) ≡ ((n + suc k - 1) / suc k) ∷ even_sizes (n - (n + suc k - 1) / suc k) k
even_sizes-suc n k = elim (Bool-cases (ltb 0 (n % suc k))) [
  | inl some_large ↦
      even_sizes-suc_larger n k (n / suc k) (n % suc k - 1)
        (omega (arith, div-add-mod n (suc k), ltb→lt 0 (n % suc k) some_large))
        (omega (arith, ltb→lt 0 (n % suc k) some_large))
  | inr none_large ↦
      even_sizes-suc_equal n k (n / suc k)
        (omega (arith, div-add-mod n (suc k), ltb→le 0 (n % suc k) none_large))
]

all_rows-append : (xs ys : List RowRange) → all_rows (xs ++ ys) ≡ all_rows xs ++ all_rows ys
unfolding flatten
all_rows-append [] ys = refl
all_rows-append (x ∷ xs) ys =
    ap (◌++◌ _) (all_rows-append xs ys) ∙ sym (append_assoc _ (all_rows xs) (all_rows ys))

all_rows-empty : (xs : List RowRange) → total_rows xs ≡ 0 → all_rows xs ≡ []
unfolding flatten
all_rows-empty [] h = refl
all_rows-empty (x ∷ xs) h = rw (rows_of-empty x (omega arith), all_rows-empty xs (omega arith)) refl

last_share : (n k : ℕ) → 0 ≡ k → n - (n + suc k - 1) / suc k ≡ 0
last_share n zero h = omega arith
last_share n (suc k) h = absurd (omega arith)

share-le : (n k : ℕ) → (n + suc k - 1) / suc k ≤ n
share-le zero k = le_of_eq (div-eq_of_lt (omega arith))
share-le (suc n) k = div-le_of_le-mul (suc k) (omega arith)

-- The loop succeeds unless rows are left for no partition.
partition_loop_lem :
    (k rows : ℕ) (ranges : List RowRange)
    → (0 ≡ k → rows ≡ 0)
    → rows ≡ total_rows ranges
    → (parts : List (List RowRange)) × (partition_loop k rows ranges ≡ ok parts)
      × (length parts ≡ k)
      × (all_rows (flatten parts) ≡ all_rows ranges)
      × (map total_rows parts ≡ even_sizes rows k)
unfolding partition_loop flatten
partition_loop_lem zero rows ranges h e =
    let none_left = h refl in
    rw none_left ([], refl, refl, sym (all_rows-empty ranges (omega arith)), refl)
partition_loop_lem (suc k) rows ranges h e =
    let share = (rows + suc k - 1) / suc k in
    let (part, rest, run, same, part_total, rest_total) =
      take_rows_lem (share + length ranges + 1) share ranges (omega arith)
        (omega (arith, share-le rows k)) in
    let (parts, runs, count, sames, totals) =
      partition_loop_lem k (rows - share) rest (last_share rows k) (omega arith) in
    (
      part ∷ parts,
      rw (run, runs) refl,
      ap suc count,
      all_rows-append part (flatten parts) ∙ ap (◌++◌ (all_rows part)) sames ∙ same,
      ap₂ ◌∷◌ part_total totals ∙ sym (even_sizes-suc rows k),
    )

-- For a positive number of partitions no exception is raised and no fuel runs out. There are that
-- many partitions, put end to end they hold every row of the given ranges once, in order, and the
-- numbers of rows in them are those of an even cut.
pub partition_by_rows-IsEven :
    (row_ranges : List RowRange) (npartition : ℕ)
    → 0 ≢ npartition
    → (parts : List (List RowRange)) × (partition_by_rows row_ranges npartition ≡ ok parts)
      × (length parts ≡ npartition)
      × (all_rows (flatten parts) ≡ all_rows row_ranges)
      × (map total_rows parts ≡ even_sizes (total_rows row_ranges) npartition)
unfolding partition_by_rows
partition_by_rows-IsEven ranges k h =
    partition_loop_lem k (total_rows ranges) ranges (λ e. absurd (h e)) refl
