-- ===== src/RowRange.antt =====
-- smallpond/io/arrow.py, `RowRange`: a range of rows of a file, and the even cut of many of them.
-- A method that moves the fields of `self` returns the range that is left beside its result. Rows
-- are counted by natural numbers: the program builds no range whose end is before its begin.
pub mod Take
pub mod Even
mod Tests
use Prim.Native.String.{String}
use smallpond.Prelude.{
  ℕ, zero, suc, ◌+◌, ◌-◌, ◌*◌, ◌/◌, min, List, [], ◌∷◌, map, length, sum, range_from, ltb, ◌==◌,
  if◌then◌else◌, Result, ok, raise, index_error, assertion_error, out_of_fuel, ◌>>=◌, ◌>>◌, guard,
}

pub record RowRange : Type 0 where
  pub path : String
  pub data_size : ℕ
  pub file_num_rows : ℕ
  pub begin : ℕ
  pub end : ℕ

abbrev pub num_rows : RowRange → ℕ
num_rows r = r.end - r.begin

unfoldable pub estimated_data_size : RowRange → ℕ
estimated_data_size r =
    if ltb 0 r.file_num_rows then r.data_size * num_rows r / r.file_num_rows else 0

-- `take`: the head, and what is left of the range.
unfoldable pub take : RowRange → ℕ → RowRange × RowRange
take r n =
    let taken = min n (num_rows r) in
    (record r { end = r.begin + taken }, record r { begin = r.begin + taken })

-- The inner loop of `partition_by_rows`: the ranges taken, and those left.
unfoldable pub take_rows : ℕ → ℕ → List RowRange → Result (List RowRange × List RowRange)
unfolding take
take_rows zero rows ranges = raise out_of_fuel
take_rows (suc fuel) rows [] = if rows == 0 then ok ([], []) else raise index_error
take_rows (suc fuel) rows (r ∷ rs) =
    let (head, left) = take r rows in
    let skip = take_rows fuel rows rs in
    let more = take_rows fuel (rows - num_rows head) (left ∷ rs) >>= λ (part, rest).
    ok (head ∷ part, rest) in
    if rows == 0 then ok ([], r ∷ rs) else if num_rows r == 0 then skip else more

-- The outer loop. Each round of the inner one takes rows or drops a range, which bounds its fuel.
unfoldable pub partition_loop : ℕ → ℕ → List RowRange → Result (List (List RowRange))
unfolding take_rows
partition_loop zero rows ranges = do guard (rows == 0) assertion_error; ok []
partition_loop (suc k) rows ranges = do
  let rows_in_partition = (rows + suc k - 1) / suc k
  (part, rest) ← take_rows (rows_in_partition + length ranges + 1) rows_in_partition ranges
  parts ← partition_loop k (rows - rows_in_partition) rest
  ok (part ∷ parts)

unfoldable pub partition_by_rows : List RowRange → ℕ → Result (List (List RowRange))
unfolding partition_loop
partition_by_rows row_ranges npartition =
    partition_loop npartition (sum (map num_rows row_ranges)) row_ranges

-- The rows of a range: the file and the index of each.
unfoldable pub rows_of : RowRange → List (String × ℕ)
rows_of r = map (λ i. (r.path, i)) (range_from r.begin (num_rows r))
