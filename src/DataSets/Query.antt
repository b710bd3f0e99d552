-- ===== src/DataSets/Query.antt =====
-- `ParquetDataSet.sql_query_fragment`, up to the text of the query: the files that are read whole, in
-- one call of `read_parquet`, and then the ranges that are read on their own, put together by
-- `union all`. The columns and the paths of a remote file system are left out.
use Prim.Native.String.{String}
use smallpond.Prelude.{
  ℕ, zero, suc, ◌+◌, Bool, false, not, ◌&&◌, List, [], ◌∷◌, ◌++◌, map, flatten, range, ltb, leb,
  ◌==◌, if◌then◌else◌,
}
use smallpond.RowRange.{RowRange, num_rows}
use smallpond.DataSets.Paths.{filter}
use smallpond.DataSets.Sets.{Files}
use smallpond.DataSets.Parquet.{ParquetDataSet, path_of, resolved_row_ranges}
use smallpond.DataSets.Load.{ℤ, pos, negsuc}

-- `where file_row_number between first and last`
pub data SubQuery : Type 0 where
  whole : (paths : List String) → SubQuery
  part : (path : String) → (first : ℕ) → (last : ℤ) → SubQuery

abbrev pub is_full : RowRange → Bool
is_full r = num_rows r == r.file_num_rows

-- `n - 1`
abbrev pub pred : ℕ → ℤ
pred zero = negsuc 0
pred (suc n) = pos n

abbrev pub part_query : RowRange → SubQuery
part_query r = part r.path r.begin (pred r.end)

-- `max(range(len(rs)), key=lambda i: rs[i].file_num_rows)`, behind the best so far.
abbrev pub largest_from : ℕ → ℕ → ℕ → List RowRange → ℕ
largest_from best size i [] = best
largest_from best size i (r ∷ rs) =
    if ltb size r.file_num_rows
    then largest_from i r.file_num_rows (i + 1) rs
    else largest_from best size (i + 1) rs

abbrev pub largest_index : List RowRange → ℕ
largest_index [] = 0
largest_index (r ∷ rs) = largest_from 0 r.file_num_rows 1 rs

-- `xs[i], x = x, xs[i]`
abbrev pub exchange {ℓ} : {A : Type ℓ} → A → ℕ → List A → A × List A
exchange x i [] = (x, [])
exchange x zero (y ∷ ys) = (y, x ∷ ys)
exchange x (suc i) (y ∷ ys) = let (z, zs) = exchange x i ys in (z, y ∷ zs)

-- `xs[0], xs[i] = xs[i], xs[0]`
abbrev pub swap_first {ℓ} : {A : Type ℓ} → ℕ → List A → List A
swap_first zero xs = xs
swap_first (suc i) [] = []
swap_first (suc i) (x ∷ xs) = let (y, ys) = exchange x i xs in y ∷ ys

abbrev pub whole_query : List RowRange → List SubQuery
whole_query [] = []
whole_query (r ∷ rs) = whole (map path_of (swap_first (largest_index (r ∷ rs)) (r ∷ rs))) ∷ []

-- The subqueries for some ranges.
unfoldable pub query_of_ranges : List RowRange → List SubQuery
query_of_ranges ranges =
    whole_query (filter is_full ranges) ++ map part_query (filter (λ r. not (is_full r)) ranges)

unfoldable pub sql_query_fragment : Files → ParquetDataSet → List SubQuery × ParquetDataSet
unfolding resolved_row_ranges query_of_ranges
sql_query_fragment files d =
    let (ranges, d1) = resolved_row_ranges files d in (query_of_ranges ranges, d1)

-- What the subqueries read, when a file has the given number of rows.
abbrev pub between : ℕ → ℤ → ℕ → Bool
between first (pos last) i = leb first i && leb i last
between first (negsuc n) i = false

unfoldable pub rows_in : (String → ℕ) → SubQuery → List (String × ℕ)
unfolding flatten
rows_in size (whole ps) = flatten (map (λ p. map (λ i. (p, i)) (range (size p))) ps)
rows_in size (part p first last) = map (λ i. (p, i)) (filter (between first last) (range (size p)))

unfoldable pub rows_read : (String → ℕ) → List SubQuery → List (String × ℕ)
unfolding rows_in flatten
rows_read size qs = flatten (map (rows_in size) qs)
