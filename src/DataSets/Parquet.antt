-- ===== src/DataSets/Parquet.antt =====
-- The class `ParquetDataSet`, in which files stand with ranges of rows.
use Prim.Native.String.{String}
use smallpond.Prelude.{
  ℕ, ◌+◌, ◌/◌, Bool, false, ◌||◌, List, [], ◌∷◌, ◌++◌, map, length, take, sum, Option, none, some,
  ltb, ◌==◌, if◌then◌else◌, Result, ok, raise, ◌>>=◌, ◌>>◌, guard, assertion_error, index_error,
  zero_division_error,
}
use smallpond.RowRange.{RowRange, num_rows, estimated_data_size}
use smallpond.RowRange as Ranges
use smallpond.DataSets.Paths.{sort_by, filter}
use smallpond.DataSets.Sets.{
  Files, DataSet, is_some, or_empty, is_empty, union_by_name, default_root, init, reset,
  absolute_paths, resolved_paths,
}
use smallpond.DataSets.Sets as Sets

pub record ParquetDataSet : Type 0 where
  pub base : DataSet
  pub generated_columns : List String
  pub cached_row_ranges : Option (List RowRange)

abbrev pub path_of : RowRange → String
path_of r = r.path

abbrev pub any_recursive : List ParquetDataSet → Bool
any_recursive [] = false
any_recursive (d ∷ ds) = d.base.recursive || any_recursive ds

abbrev pub any_union : List ParquetDataSet → Bool
any_union [] = false
any_union (d ∷ ds) = union_by_name d.base || any_union ds

abbrev pub any_ranges : List ParquetDataSet → Bool
any_ranges [] = false
any_ranges (d ∷ ds) = is_some d.cached_row_ranges || any_ranges ds

-- `estimated_data_size`, of the ranges of a data set.
unfoldable pub total_size : List RowRange → ℕ
unfolding estimated_data_size
total_size ranges = sum (map estimated_data_size ranges)

-- `remove_empty_files`: the ranges to keep, and the data set of them.
unfoldable pub kept_ranges : List RowRange → List RowRange
kept_ranges ranges =
    let filled = filter (λ r. ltb 0 (num_rows r)) ranges in
    if length filled == 0 then take 1 ranges else filled

unfoldable pub keep_ranges : List RowRange → ParquetDataSet → ParquetDataSet
keep_ranges kept d =
    let ps = map path_of kept in
    record d {
      base = record d.base { paths = ps; cached_absolute = some ps; cached_paths = some ps };
      cached_row_ranges = some kept;
    }

module _ (files : Files) where
  unfoldable pub init_parquet :
      List String
      → Option String
      → Bool
      → Option (List String)
      → Option (List String)
      → Bool
      → ParquetDataSet
  unfolding init
  init_parquet paths root_dir recursive columns generated_columns union_flag = record {
    base = init files paths root_dir recursive columns union_flag;
    generated_columns = or_empty generated_columns;
    cached_row_ranges = none;
  }

  unfoldable pub reset_parquet :
      Option (List String) → Option String → Option Bool → ParquetDataSet → ParquetDataSet
  unfolding reset
  reset_parquet paths root_dir recursive d = record d {
    base = reset files paths root_dir recursive d.base;
    cached_row_ranges = none;
  }

  abbrev pub resolve_row_range : String → RowRange
  resolve_row_range path = record {
    path = path;
    data_size = sum (files.row_group_sizes path);
    file_num_rows = files.metadata_num_rows path;
    begin = 0;
    end = files.metadata_num_rows path;
  }

  unfoldable pub resolved_row_ranges : ParquetDataSet → List RowRange × ParquetDataSet
  unfolding resolved_paths
  resolved_row_ranges d = elim d.cached_row_ranges [
    | some ranges ↦ (ranges, d)
    | none ↦
        let (ps, base1) = resolved_paths files d.base in
        let ranges = map resolve_row_range ps in
        (ranges, record d { base = base1; cached_row_ranges = some ranges })
  ]

  unfoldable pub num_rows_of : ParquetDataSet → ℕ × ParquetDataSet
  unfolding resolved_row_ranges
  num_rows_of d = elim d.base.cached_num_rows [
    | some n ↦ (n, d)
    | none ↦
        let (ranges, d1) = resolved_row_ranges d in
        let n = sum (map num_rows ranges) in
        (n, record d1 { base = record d1.base { cached_num_rows = some n } })
  ]

  unfoldable pub empty_parquet : ParquetDataSet → Bool × ParquetDataSet
  unfolding num_rows_of Sets.empty
  empty_parquet d =
      let (n, d1) = num_rows_of d in
      if is_some d.base.cached_num_rows || is_some d.cached_row_ranges
      then (n == 0, d1)
      else (Sets.empty files d.base, d)

  -- A data set of some ranges of the rows of another.
  unfoldable pub create_dataset : ParquetDataSet → List RowRange → ParquetDataSet
  unfolding sort_by init_parquet
  create_dataset d row_ranges =
      let ranges = sort_by path_of row_ranges in
      let ps = map path_of ranges in
      let made =
        init_parquet ps default_root false d.base.columns (some d.generated_columns)
          (union_by_name d.base) in
      record made {
        base = record made.base { cached_paths = some ps };
        cached_row_ranges = some ranges;
      }

  -- `all` of each data set, with the data sets after it.
  abbrev pub each_of :
      {A : Type 0}
      → (ParquetDataSet → List A × ParquetDataSet)
      → List ParquetDataSet
      → List A × List ParquetDataSet
  each_of all [] = ([], [])
  each_of all (d ∷ ds) =
      let (xs, d1) = all d in let (ys, rest) = each_of all ds in (xs ++ ys, d1 ∷ rest)

  unfoldable pub paths_of : ParquetDataSet → List String × ParquetDataSet
  unfolding absolute_paths
  paths_of d = let (ps, base1) = absolute_paths files d.base in (ps, record d { base = base1 })

  unfoldable pub merge : List ParquetDataSet → Result (ParquetDataSet × List ParquetDataSet)
  unfolding paths_of init_parquet resolved_row_ranges
  merge [] = raise index_error
  merge (d ∷ ds) =
      let (ps, ds1) = each_of paths_of (d ∷ ds) in
      let merged =
        init_parquet ps none (any_recursive (d ∷ ds)) d.base.columns (some d.generated_columns)
          (any_union (d ∷ ds)) in
      let (ranges, ds2) = each_of resolved_row_ranges ds1 in
      if any_ranges (d ∷ ds)
      then ok (record merged { cached_row_ranges = some ranges }, ds2)
      else ok (merged, ds1)

  -- `sample` stands for `random.sample(xs, len(xs))`.
  module _ (sample : List RowRange → List RowRange) where
    unfoldable pub partition_by_rows :
        ℕ → Bool → ParquetDataSet → Result (List ParquetDataSet × ParquetDataSet)
    unfolding resolved_row_ranges Ranges.partition_by_rows create_dataset
    partition_by_rows npartition random_shuffle d = do
      guard (ltb 0 npartition) assertion_error
      let (ranges, d1) = resolved_row_ranges d
      parts ← Ranges.partition_by_rows (if random_shuffle then sample ranges else ranges) npartition
      ok (map (create_dataset d1) parts, d1)

    unfoldable pub partition_by_size :
        ℕ → ParquetDataSet → Result (List ParquetDataSet × ParquetDataSet)
    unfolding empty_parquet resolved_row_ranges total_size partition_by_rows
    partition_by_size max_partition_size d =
        let (none_there, d1) = empty_parquet d in
        let (ranges, d2) = resolved_row_ranges d1 in
        if none_there
        then ok ([], d1)
        else if max_partition_size == 0
        then raise zero_division_error
        else partition_by_rows (total_size ranges / max_partition_size + 1) false d2

  unfoldable pub remove_empty_files : ParquetDataSet → ParquetDataSet
  unfolding resolved_row_ranges kept_ranges keep_ranges
  remove_empty_files d =
      let (ranges, d1) = resolved_row_ranges d in
      if length (kept_ranges ranges) == length ranges
      then d1
      else keep_ranges (kept_ranges ranges) d1
