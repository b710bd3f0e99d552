-- ===== src/DataSets/Tests.antt =====
-- Small data sets, and the theorems about them.
use Prim.Native.String.{String}
use mathlib.Core.List.{Perm}
use smallpond.Prelude.{
  ℕ, ◌≡◌, ◌<◌, refl, false, List, [], ◌∷◌, map, flatten, length, arith, Option, none, some, All,
  Result, ok, raise, if◌then◌else◌, value_error, index_error,
}
use smallpond.Common.Tests.{array_split, array_split-IsArraySplit}
use smallpond.Common.Rows.{even_sizes}
use smallpond.RowRange.{RowRange}
use smallpond.RowRange.Take.{total_rows, all_rows}
use smallpond.DataSets.Sets.{Files, DataSet, init, resolved_paths, partition_by_files}
use smallpond.DataSets.Parquet.{
  path_of, ParquetDataSet, init_parquet, resolved_row_ranges, partition_by_rows, total_size,
  partition_by_size, remove_empty_files,
}
use smallpond.DataSets.Load.{
  pos, same_text, KeyReader, read_partition_key, load_partitioned_datasets,
}
use smallpond.DataSets.Query.{query_of_ranges, rows_read, whole, part}
use smallpond.DataSets.Reads.{Within, query_of_ranges-Perm}
use smallpond.DataSets.Cuts.{
  paths_in, ranges_in, partition_by_files-IsEven, partition_by_rows-created,
}
use smallpond.DataSets.Empties.{IsTidy, remove_empty_files-rows}
use smallpond.DataSets.Placed.{
  Below, as_key, with_key, ranges_at, load_partitioned_datasets-with_key,
}

-- Two files in a folder, and a third one that is empty.
abbrev rows_of_file : String → ℕ
rows_of_file p = if same_text p "/d/a" then 5 else if same_text p "/d/b" then 3 else 0

abbrev files : Files
files = record {
  abspath = λ p. "/d";
  glob = λ p recursive. "/d/b" ∷ "/d/a" ∷ [];
  metadata_num_rows = rows_of_file;
  row_group_sizes = λ p. 100 ∷ [];
}

abbrev set : DataSet
unfolding init
set = init files ("e" ∷ "*" ∷ []) (some "") false none false

resolved_test : (resolved_paths files set).0 ≡ "/d/a" ∷ "/d/b" ∷ "/d/e" ∷ []
unfolding resolved_paths set
resolved_test = refl

abbrev parquet : ParquetDataSet
unfolding init_parquet
parquet = init_parquet files ("e" ∷ "*" ∷ []) (some "") false none none false

abbrev range_of : String → ℕ → ℕ → RowRange
range_of path begin end = record {
  path = path;
  data_size = 100;
  file_num_rows = rows_of_file path;
  begin = begin;
  end = end;
}

abbrev ranges : List RowRange
ranges = range_of "/d/b" 0 3 ∷ range_of "/d/a" 1 4 ∷ range_of "/d/a" 0 5 ∷ []

query_test : query_of_ranges ranges ≡ whole ("/d/a" ∷ "/d/b" ∷ []) ∷ part "/d/a" 1 (pos 3) ∷ []
unfolding query_of_ranges
query_test = refl

ranges-Within : All (Within rows_of_file) ranges
ranges-Within = (
  (omega arith, omega arith, refl),
  ((omega arith, omega arith, refl), ((omega arith, omega arith, refl), tt)),
)

query_of_ranges-Perm_example :
    Perm (rows_read rows_of_file (query_of_ranges ranges)) (all_rows ranges)
query_of_ranges-Perm_example = query_of_ranges-Perm rows_of_file ranges ranges-Within

same_order : {A : Type 0} → List A → List A
same_order xs = xs

partition_by_files-IsEven_example :
    (parts : List DataSet) × (partition_by_files files array_split same_order same_order 2 false set
      ≡ ok (parts, (resolved_paths files set).1))
    × (length parts ≡ 2)
    × (flatten (map paths_in parts) ≡ (resolved_paths files set).0)
    × (map (λ p. length p.paths) parts ≡ even_sizes (length (resolved_paths files set).0) 2)
partition_by_files-IsEven_example =
    partition_by_files-IsEven files array_split array_split-IsArraySplit same_order same_order set 2
      (omega arith)

partition_by_rows-created_example :
    (parts : List ParquetDataSet) × (partition_by_rows files same_order 3 false parquet
      ≡ ok (parts, (resolved_row_ranges files parquet).1))
    × (length parts ≡ 3)
    × (map (λ p. total_rows (ranges_in p)) parts
        ≡ even_sizes (total_rows (resolved_row_ranges files parquet).0) 3)
    × Perm
        (all_rows (flatten (map ranges_in parts)))
        (all_rows (resolved_row_ranges files parquet).0)
partition_by_rows-created_example =
    partition_by_rows-created files same_order parquet 3 (omega arith)

remove_empty_files-rows_example :
    (all_rows (resolved_row_ranges files (remove_empty_files files parquet)).0
      ≡ all_rows (resolved_row_ranges files parquet).0)
    × IsTidy (resolved_row_ranges files (remove_empty_files files parquet)).0
remove_empty_files-rows_example = remove_empty_files-rows files parquet

removed_test :
    map (λ (r : RowRange). r.path) (resolved_row_ranges files (remove_empty_files files parquet)).0
    ≡ "/d/a" ∷ "/d/b" ∷ []
unfolding resolved_row_ranges remove_empty_files parquet
removed_test = refl

-- Two files with the keys 1 and 0 in their metadata, and an empty one without a key.
abbrev key_text : String → Option (List (String × String))
key_text p =
    if same_text p "/d/a"
    then some (("other", "7") ∷ ("SMALLPOND:k", "1") ∷ [])
    else if same_text p "/d/b"
    then some (("SMALLPOND:k", "0") ∷ [])
    else none

abbrev reader : KeyReader
reader = record {
  schema_metadata = λ p. none;
  file_metadata = key_text;
  file_rows = rows_of_file;
  batches = λ p. [];
  parse = λ s.
      if same_text s "1"
      then ok (pos 1)
      else if same_text s "0"
      then ok (pos 0)
      else raise value_error;
}

abbrev key : String → Option ℕ
key p = if same_text p "/d/a" then some 1 else if same_text p "/d/b" then some 0 else none

keys_read :
    All
      (λ p. (read_partition_key reader "k" false p ≡ ok (as_key (key p))) × Below 2 (key p))
      (resolved_paths files parquet.base).0
unfolding resolved_paths read_partition_key parquet
keys_read = ((refl, omega arith), ((refl, omega arith), ((refl, tt), tt)))

paths_beside :
    map path_of
      (resolved_row_ranges files
        (record parquet { base = (resolved_paths files parquet.base).1 })).0
    ≡ (resolved_paths files parquet.base).0
unfolding resolved_paths resolved_row_ranges parquet
paths_beside = refl

load_partitioned_datasets-with_key_example :
    (made : List ParquetDataSet) × (d' : ParquetDataSet) × (load_partitioned_datasets files reader 2
        "k" false parquet
      ≡ ok (made, d'))
    × (length made ≡ 2)
    × ((i : ℕ)
        → i < 2
        → ranges_at made i
          ≡ some (
              with_key i key
                (resolved_row_ranges files
                  (record parquet { base = (resolved_paths files parquet.base).1 })).0))
load_partitioned_datasets-with_key_example =
    load_partitioned_datasets-with_key files reader "k" false key parquet 2 (omega arith)
      paths_beside keys_read

-- A key that is the number of partitions passes the assertion on keys.
key_past_the_end : load_partitioned_datasets files reader 1 "k" false parquet ≡ raise index_error
unfolding load_partitioned_datasets read_partition_key parquet
key_past_the_end = refl

-- A file with one row of 100 bytes and one with 99 rows of a byte: of the two data sets that do not
-- pass 100 bytes, the first one has 149.
abbrev uneven : ParquetDataSet
unfolding parquet
uneven = record parquet {
  cached_row_ranges = some (
      record { path = "p"; data_size = 100; file_num_rows = 1; begin = 0; end = 1 }
      ∷ record { path = "q"; data_size = 99; file_num_rows = 99; begin = 0; end = 99 }
      ∷ []);
}

abbrev sizes_of : Result (List ParquetDataSet × ParquetDataSet) → List ℕ
unfolding total_size
sizes_of (ok (parts, d)) = map (λ p. total_size (ranges_in p)) parts
sizes_of _ = []

size_passed : sizes_of (partition_by_size files same_order 100 uneven) ≡ 149 ∷ 50 ∷ []
unfolding partition_by_size same_order sizes_of uneven
size_passed = refl
