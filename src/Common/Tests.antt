-- ===== src/Common/Tests.antt =====
-- Small inputs of smallpond/common.py, and its theorems at them.
use smallpond.Prelude.{
  ℕ, ◌+◌, ◌*◌, ◌<◌, ◌≡◌, ◌≢◌, refl, List, [], ◌∷◌, map, flatten, some, arith, length, get_elem?,
  range, ◌==◌, ==_ne, if◌then◌else◌, ok, raise, value_error, take-all, length-range_from, ◌∙◌,
}
use smallpond.Common.{
  ArraySplit, IsArraySplit, clamp_row_group_size, split_into_rows, get_nth_partition,
  split_into_cols, next_power_of_two, round_up,
}
use smallpond.Common.Slices.{split_sizes, flatten-split_sizes, lengths-split_sizes}
use smallpond.Common.Rows.{
  even_sizes, sum-even_sizes, split_into_rows-IsEven, get_nth_partition-eq-row,
}
use smallpond.Common.Cols.{split_into_cols-strided}

-- An `np.array_split` that does what numpy documents.
abbrev pub array_split : ArraySplit
array_split n k = if k == 0 then raise value_error else ok (split_sizes (even_sizes n k) (range n))

array_split-range : (n k : ℕ) → 0 ≢ k → flatten (split_sizes (even_sizes n k) (range n)) ≡ range n
array_split-range n k h =
    flatten-split_sizes (even_sizes n k) (range n)
    ∙ take-all _ (range n) (omega (arith, length-range_from 0 n, sum-even_sizes n k h))

pub array_split-IsArraySplit : IsArraySplit array_split
array_split-IsArraySplit = record {
  blocks = λ n k. split_sizes (even_sizes n k) (range n);
  rejects = λ n. refl;
  splits = λ n k h. rw (==_ne k 0 (omega arith)) refl;
  in_order = array_split-range;
  sizes = λ n k h.
      lengths-split_sizes (even_sizes n k) (range n)
        (omega (arith, length-range_from 0 n, sum-even_sizes n k h));
}

ten : List ℕ
ten = range 10

-- The example of the docstring.
split_into_rows-ten :
    split_into_rows array_split ten 3
    ≡ ok ((0 ∷ 1 ∷ 2 ∷ 3 ∷ []) ∷ (4 ∷ 5 ∷ 6 ∷ []) ∷ (7 ∷ 8 ∷ 9 ∷ []) ∷ [])
unfolding split_into_rows ten
split_into_rows-ten = refl

get_nth_partition-ten : get_nth_partition ten 1 3 ≡ ok (4 ∷ 5 ∷ 6 ∷ [])
unfolding get_nth_partition ten
get_nth_partition-ten = refl

split_into_cols-ten :
    split_into_cols ten 3 ≡ ok ((0 ∷ 3 ∷ 6 ∷ 9 ∷ []) ∷ (1 ∷ 4 ∷ 7 ∷ []) ∷ (2 ∷ 5 ∷ 8 ∷ []) ∷ [])
unfolding split_into_cols ten
split_into_cols-ten = refl

sizes_test :
    (next_power_of_two 0 ≡ 2)
    × (next_power_of_two 1 ≡ 1)
    × (next_power_of_two 9 ≡ 16)
    × (round_up 1025 1024 ≡ ok 2048)
    × (clamp_row_group_size 5 10 20 ≡ 10)
unfolding next_power_of_two round_up clamp_row_group_size
sizes_test = (refl, refl, refl, refl, refl)

split_into_rows-IsEven_example :
    (rows : List (List ℕ)) × (split_into_rows array_split ten 3 ≡ ok rows)
    × (flatten rows ≡ ten)
    × (length rows ≡ 3)
    × (map length rows ≡ even_sizes (length ten) 3)
split_into_rows-IsEven_example =
    split_into_rows-IsEven array_split array_split-IsArraySplit ten 3 (omega arith)

get_nth_partition-eq-row_example :
    (rows : List (List ℕ)) × (part : List ℕ) × (split_into_rows array_split ten 3 ≡ ok rows)
    × (get_nth_partition ten 1 3 ≡ ok part)
    × (get_elem? rows 1 ≡ some part)
get_nth_partition-eq-row_example =
    get_nth_partition-eq-row array_split array_split-IsArraySplit ten 1 3 (omega arith)

split_into_cols-strided_example :
    (cols : List (List ℕ)) × (split_into_cols ten 3 ≡ ok cols)
    × (length cols ≡ 3)
    × ((j : ℕ)
        → j < 3
        → (col : List ℕ) × (get_elem? cols j ≡ some col)
          × ((i : ℕ) → get_elem? col i ≡ get_elem? ten (i * 3 + j)))
split_into_cols-strided_example = split_into_cols-strided ten 3 (omega arith)
