-- ===== src/DataSets/Load.antt =====
-- `ParquetDataSet.load_partitioned_datasets` and the partition key of a file.
use Prim.Native.Char.{Char, code}
use Prim.Native.String.{String, compare}
use Prim.Native.String as Text
use Prim.Native.Nat.{Ordering}
use smallpond.Prelude.{
  ℕ, zero, suc, Bool, true, false, ◌&&◌, ◌||◌, List, [], ◌∷◌, ◌++◌, length, replicate, Option, none,
  some, ltb, leb, ◌==◌, if◌then◌else◌, Result, ok, raise, ◌>>=◌, ◌>>◌, guard, assertion_error,
  index_error, runtime_error,
}
use smallpond.RowRange.{RowRange}
use smallpond.DataSets.Sets.{Files, is_empty, default_root, resolved_paths}
use smallpond.DataSets.Parquet.{ParquetDataSet, reset_parquet, resolved_row_ranges}

pub data ℤ : Type 0 where
  pos : ℕ → ℤ
  negsuc : ℕ → ℤ

-- A batch of rows of the key column.
pub record KeyBatch : Type 0 where
  pub column_names : List String
  pub keys : List ℤ

-- What Arrow reads of a file, and `int(text)`.
pub record KeyReader : Type 0 where
  pub schema_metadata : String → Option (List (String × String))
  pub file_metadata : String → Option (List (String × String))
  pub file_rows : String → ℕ
  pub batches : String → List KeyBatch
  pub parse : String → Result ℤ

abbrev pub same_text : String → String → Bool
same_text s t = elim (compare s t) [ Ordering.eq ↦ true | _ ↦ false ]

abbrev same_int : ℤ → ℤ → Bool
same_int (pos m) (pos n) = m == n
same_int (negsuc m) (negsuc n) = m == n
same_int _ _ = false

-- `path.split("/")`
abbrev add_char : Char → List String → List String
add_char c [] = Text.◌∷◌ c Text.[] ∷ []
add_char c (s ∷ ss) = Text.◌∷◌ c s ∷ ss

abbrev pub split_path : String → List String
split_path Text.[] = Text.[] ∷ []
split_path (Text.◌∷◌ c s) =
    if code c == 47 then Text.[] ∷ split_path s else add_char c (split_path s)

-- What follows a prefix.
abbrev pub strip_prefix : String → String → Option String
strip_prefix Text.[] s = some s
strip_prefix (Text.◌∷◌ c p) Text.[] = none
strip_prefix (Text.◌∷◌ c p) (Text.◌∷◌ d s) = if code c == code d then strip_prefix p s else none

abbrev pub find_part : String → List String → Option String
find_part prefix [] = none
find_part prefix (p ∷ ps) = elim (strip_prefix prefix p) [
  | some s ↦ some s
  | none ↦ find_part prefix ps
]

abbrev pub find_value : String → List (String × String) → Option String
find_value key [] = none
find_value key ((k, v) ∷ kvs) = if same_text k key then some v else find_value key kvs

-- `a or b`, for two dictionaries that may be None.
abbrev pub first_filled : {A : Type 0} → Option (List A) → Option (List A) → List A
first_filled (some (x ∷ xs)) b = x ∷ xs
first_filled _ (some ys) = ys
first_filled _ none = []

abbrev has_text : String → List String → Bool
has_text s [] = false
has_text s (t ∷ ts) = same_text t s || has_text s ts

abbrev all_same : ℤ → List ℤ → Bool
all_same k [] = true
all_same k (j ∷ ks) = same_int j k && all_same k ks

-- The only element of a set.
abbrev pub only_key : List ℤ → Result (Option ℤ)
only_key [] = raise assertion_error
only_key (k ∷ ks) = guard (all_same k ks) assertion_error >> ok (some k)

abbrev pub key_of_batches : String → List KeyBatch → Result (Option ℤ)
key_of_batches column [] = ok none
key_of_batches column (b ∷ bs) =
    guard (has_text column b.column_names) assertion_error
    >> guard (length b.column_names == 1) assertion_error
    >> only_key b.keys

module _ (reader : KeyReader) where
  abbrev pub parsed : String → Result (Option ℤ)
  parsed text = reader.parse text >>= λ k. ok (some k)

  unfoldable pub read_partition_key : String → Bool → String → Result (Option ℤ)
  read_partition_key column hive_partitioning path =
      if hive_partitioning
      then elim (find_part (Text.◌++◌ column "=") (split_path path)) [
        | some text ↦ parsed text
        | none ↦ raise runtime_error
      ]
      else elim (find_value (Text.◌++◌ "SMALLPOND:" column)
          (first_filled (reader.schema_metadata path) (reader.file_metadata path))) [
            | some text ↦ parsed text
            | none ↦
                if reader.file_rows path == 0
                then ok none
                else key_of_batches column (reader.batches path)
          ]

-- A partition with no files yet.
abbrev pub emptied : ParquetDataSet → ParquetDataSet
emptied d = record d {
  base = record d.base { cached_absolute = some []; cached_paths = some [] };
  cached_row_ranges = some [];
}

abbrev pub append_to {ℓ} : {A : Type ℓ} → Option (List A) → A → Option (List A)
append_to none x = none
append_to (some xs) x = some (xs ++ x ∷ [])

abbrev pub append_range : RowRange → ParquetDataSet → ParquetDataSet
append_range r d = record d {
  base = record d.base {
    paths = d.base.paths ++ r.path ∷ [];
    cached_absolute = append_to d.base.cached_absolute r.path;
    cached_paths = append_to d.base.cached_paths r.path;
  };
  cached_row_ranges = append_to d.cached_row_ranges r;
}

-- `file_partitions[k]`, changed.
abbrev pub place_at : ℕ → RowRange → List ParquetDataSet → Result (List ParquetDataSet)
place_at k r [] = raise index_error
place_at zero r (d ∷ ds) = ok (append_range r d ∷ ds)
place_at (suc k) r (d ∷ ds) = place_at k r ds >>= λ rest. ok (d ∷ rest)

abbrev pub place : ℕ → Option ℤ → RowRange → List ParquetDataSet → Result (List ParquetDataSet)
place npartition none r parts = ok parts
place npartition (some (negsuc n)) r parts = raise assertion_error
place npartition (some (pos k)) r parts =
    guard (leb k npartition) assertion_error >> place_at k r parts

-- The loop over `zip(self.resolved_row_ranges, partition_keys)`, which reads a key when it needs it.
abbrev pub place_all :
    (String → Result (Option ℤ))
    → ℕ
    → List RowRange
    → List String
    → List ParquetDataSet
    → Result (List ParquetDataSet)
place_all key_of npartition (r ∷ rs) (p ∷ ps) parts = do
  key ← key_of p
  placed ← place npartition key r parts
  place_all key_of npartition rs ps placed
place_all key_of npartition _ _ parts = ok parts

unfoldable pub load_partitioned_datasets :
    Files
    → KeyReader
    → ℕ
    → String
    → Bool
    → ParquetDataSet
    → Result (List ParquetDataSet × ParquetDataSet)
unfolding resolved_paths reset_parquet resolved_row_ranges read_partition_key
load_partitioned_datasets files reader npartition column hive_partitioning d = do
  guard (ltb 0 npartition) assertion_error
  let (ps, base1) = resolved_paths files d.base
  let d1 = record d { base = base1 }
  let parts = replicate npartition (emptied (reset_parquet files none default_root none d1))
  let (ranges, d2) = resolved_row_ranges files d1
  let placed =
      place_all (read_partition_key reader column hive_partitioning) npartition ranges ps parts
  if is_empty ps then ok (parts, d1) else (placed >>= λ made. ok (made, d2))
