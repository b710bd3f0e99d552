-- ===== src/DataSets/Placed.antt =====
-- `ParquetDataSet.load_partitioned_datasets` brings each file to the partition with its key.
use Prim.Native.String.{String}
use smallpond.Prelude.{
  ℕ, zero, suc, ◌<◌, ◌≡◌, ◌≢◌, ◌∙◌, refl, sym, ap, inl, inr, Bool, true, false, List, [], ◌∷◌, ◌++◌,
  map, append-nil, append_assoc, length, length-replicate, replicate, get_elem?, Option, none, some,
  All, arith, lt→ltb, le→leb, ◌==◌, ==_ne, Bool-cases, if◌then◌else◌, Result, ok,
}
use smallpond.RowRange.{RowRange}
use smallpond.DataSets.Sets.{Files, is_empty, default_root, resolved_paths}
use smallpond.DataSets.Parquet.{path_of, ParquetDataSet, reset_parquet, resolved_row_ranges}
use smallpond.DataSets.Load.{
  ℤ, pos, KeyReader, read_partition_key, emptied, append_to, append_range, place_at, place,
  place_all, load_partitioned_datasets,
}

abbrev pub is_key : ℕ → Option ℕ → Bool
is_key k none = false
is_key k (some j) = k == j

-- The ranges of the files with a key.
abbrev pub with_key : ℕ → (String → Option ℕ) → List RowRange → List RowRange
with_key k key [] = []
with_key k key (r ∷ rs) = if is_key k (key r.path) then r ∷ with_key k key rs else with_key k key rs

-- The ranges that stand beside the files with a key.
abbrev zip_key : ℕ → (String → Option ℕ) → List RowRange → List String → List RowRange
zip_key k key (r ∷ rs) (p ∷ ps) =
    if is_key k (key p) then r ∷ zip_key k key rs ps else zip_key k key rs ps
zip_key k key _ _ = []

abbrev pub as_key : Option ℕ → Option ℤ
as_key none = none
as_key (some k) = some (pos k)

abbrev pub Below : ℕ → Option ℕ → Type 0
Below n none = Unit
Below n (some k) = k < n

abbrev pub cached_in : Option ParquetDataSet → Option (List RowRange)
cached_in none = none
cached_in (some d) = d.cached_row_ranges

abbrev pub ranges_at : List ParquetDataSet → ℕ → Option (List RowRange)
ranges_at parts i = cached_in (get_elem? parts i)

suc_same : (i k : ℕ) → (suc i == suc k) ≡ (i == k)
suc_same i k = ground arith

append_range-at :
    (r : RowRange) (d : ParquetDataSet) (ds : List ParquetDataSet) (i : ℕ)
    → ranges_at (append_range r d ∷ ds) i
      ≡ (if i == 0 then append_to (ranges_at (d ∷ ds) i) r else ranges_at (d ∷ ds) i)
append_range-at r d ds zero = refl
append_range-at r d ds (suc i) = rw (==_ne (suc i) 0 (omega arith)) refl

cons-at :
    (r : RowRange) (d : ParquetDataSet) (made ds : List ParquetDataSet) (k : ℕ)
    → ((i : ℕ)
        → ranges_at made i ≡ (if i == k then append_to (ranges_at ds i) r else ranges_at ds i))
    → (i : ℕ)
    → ranges_at (d ∷ made) i
      ≡ (if i == suc k then append_to (ranges_at (d ∷ ds) i) r else ranges_at (d ∷ ds) i)
cons-at r d made ds k at zero = rw (==_ne 0 (suc k) (omega arith)) refl
cons-at r d made ds k at (suc i) = rw (suc_same i k) (at i)

place_at_lem :
    (k : ℕ) (r : RowRange) (parts : List ParquetDataSet)
    → k < length parts
    → (made : List ParquetDataSet) × (place_at k r parts ≡ ok made)
      × (length made ≡ length parts)
      × ((i : ℕ)
          → ranges_at made i
            ≡ (if i == k then append_to (ranges_at parts i) r else ranges_at parts i))
place_at_lem k r [] h = absurd (omega arith)
place_at_lem zero r (d ∷ ds) h = (append_range r d ∷ ds, refl, refl, append_range-at r d ds)
place_at_lem (suc k) r (d ∷ ds) h =
    let (made, e, same, at) = place_at_lem k r ds (omega arith) in
    (d ∷ made, rw e refl, ap suc same, cons-at r d made ds k at)

abbrev here : RowRange → Bool → List RowRange
here r b = if b then r ∷ [] else []

appended :
    (r : RowRange) (b : Bool) (o : Option (List RowRange)) (acc : List RowRange)
    → o ≡ some acc
    → (if b then append_to o r else o) ≡ some (acc ++ here r b)
appended r true o acc e = ap (λ o. append_to o r) e
appended r false o acc e = e ∙ ap some (sym (append-nil acc))

place_lem :
    (n : ℕ) (k : Option ℕ) (r : RowRange) (parts : List ParquetDataSet) (acc : ℕ → List RowRange)
    → Below n k
    → length parts ≡ n
    → ((i : ℕ) → i < n → ranges_at parts i ≡ some (acc i))
    → (made : List ParquetDataSet) × (place n (as_key k) r parts ≡ ok made)
      × (length made ≡ n)
      × ((i : ℕ) → i < n → ranges_at made i ≡ some (acc i ++ here r (is_key i k)))
place_lem n none r parts acc below count at =
    (parts, refl, count, λ i lt. at i lt ∙ ap some (sym (append-nil (acc i))))
place_lem n (some k) r parts acc below count at =
    let (made, e, same, at') = place_at_lem k r parts (omega arith) in
    (
      made,
      rw (le→leb k n (omega arith)) e,
      same ∙ count,
      λ i lt. at' i ∙ appended r (i == k) (ranges_at parts i) (acc i) (at i lt),
    )

zip_key-cons :
    (b : Bool) (r : RowRange) (acc rest : List RowRange)
    → (acc ++ here r b) ++ rest ≡ acc ++ (if b then r ∷ rest else rest)
zip_key-cons true r acc rest = append_assoc acc (r ∷ []) rest
zip_key-cons false r acc rest = append_assoc acc [] rest

place_all_lem :
    (key_of : String → Result (Option ℤ)) (key : String → Option ℕ) (n : ℕ) (rs : List RowRange)
    (ps : List String) (parts : List ParquetDataSet) (acc : ℕ → List RowRange)
    → All (λ p. (key_of p ≡ ok (as_key (key p))) × Below n (key p)) ps
    → length parts ≡ n
    → ((i : ℕ) → i < n → ranges_at parts i ≡ some (acc i))
    → (made : List ParquetDataSet) × (place_all key_of n rs ps parts ≡ ok made)
      × (length made ≡ n)
      × ((i : ℕ) → i < n → ranges_at made i ≡ some (acc i ++ zip_key i key rs ps))
place_all_lem key_of key n [] ps parts acc keys count at =
    (parts, refl, count, λ i lt. at i lt ∙ ap some (sym (append-nil (acc i))))
place_all_lem key_of key n (r ∷ rs) [] parts acc keys count at =
    (parts, refl, count, λ i lt. at i lt ∙ ap some (sym (append-nil (acc i))))
place_all_lem key_of key n (r ∷ rs) (p ∷ ps) parts acc ((known, below), keys) count at =
    let (placed, e, count', at') = place_lem n (key p) r parts acc below count at in
    let (made, e', count'', at'') =
      place_all_lem key_of key n rs ps placed (λ i. acc i ++ here r (is_key i (key p))) keys count'
        at' in
    (
      made,
      rw (known, e) e',
      count'',
      λ i lt. at'' i lt ∙ ap some (zip_key-cons (is_key i (key p)) r (acc i) (zip_key i key rs ps)),
    )

replicate-at :
    (n : ℕ) (d : ParquetDataSet) (i : ℕ) → i < n → ranges_at (replicate n d) i ≡ d.cached_row_ranges
replicate-at zero d i h = absurd (omega arith)
replicate-at (suc n) d zero h = refl
replicate-at (suc n) d (suc i) h = replicate-at n d i (omega arith)

zip_key-empty :
    (k : ℕ) (key : String → Option ℕ) (rs : List RowRange) (ps : List String)
    → is_empty ps ≡ true
    → [] ≡ zip_key k key rs ps
zip_key-empty k key [] ps e = refl
zip_key-empty k key (r ∷ rs) [] e = refl
zip_key-empty k key (r ∷ rs) (p ∷ ps) e = absurd (cc)

load_zipped :
    (files : Files) (reader : KeyReader) (column : String) (hive : Bool) (key : String → Option ℕ)
    (d : ParquetDataSet) (npartition : ℕ)
    → 0 ≢ npartition
    → All
        (λ p.
          (read_partition_key reader column hive p ≡ ok (as_key (key p)))
          × Below npartition (key p))
        (resolved_paths files d.base).0
    → (made : List ParquetDataSet) × (d' : ParquetDataSet) × (load_partitioned_datasets files reader
          npartition column hive d
        ≡ ok (made, d'))
      × (length made ≡ npartition)
      × ((i : ℕ)
          → i < npartition
          → ranges_at made i
            ≡ some (
                zip_key i key
                  (resolved_row_ranges files
                    (record d { base = (resolved_paths files d.base).1 })).0
                  (resolved_paths files d.base).0))
unfolding load_partitioned_datasets
load_zipped files reader column hive key d n positive keys =
    let (ps, base1) = resolved_paths files d.base in
    let d1 : ParquetDataSet = record d { base = base1 } in
    let (ranges, d2) = resolved_row_ranges files d1 in
    let blank = emptied (reset_parquet files none default_root none d1) in
    let (made, e, count, at) =
      place_all_lem (read_partition_key reader column hive) key n ranges ps (replicate n blank)
        (λ i. []) keys (length-replicate n blank) (λ i lt. replicate-at n blank i lt) in
    elim (Bool-cases (is_empty ps)) [
      | inr some_there ↦ (made, d2, rw (lt→ltb 0 n (omega arith), some_there, e) refl, count, at)
      | inl none_there ↦ (
        replicate n blank,
        d1,
        rw (lt→ltb 0 n (omega arith), none_there) refl,
        length-replicate n blank,
        λ i lt. replicate-at n blank i lt ∙ ap some (zip_key-empty i key ranges ps none_there),
      )
    ]

zip_key-with_key :
    (k : ℕ) (key : String → Option ℕ) (rs : List RowRange)
    → zip_key k key rs (map path_of rs) ≡ with_key k key rs
zip_key-with_key k key [] = refl
zip_key-with_key k key (r ∷ rs) = rw (zip_key-with_key k key rs) refl

-- When the row ranges of the data set are those of its resolved paths, in order, and the key of each
-- file is read and is none or below a positive number of partitions, no exception is raised, there
-- are that many data sets, and the one with an index has the ranges of the files whose key is the
-- index, in order; files without a key are left out.
pub load_partitioned_datasets-with_key :
    (files : Files) (reader : KeyReader) (column : String) (hive : Bool) (key : String → Option ℕ)
    (d : ParquetDataSet) (npartition : ℕ)
    → 0 ≢ npartition
    → map path_of
        (resolved_row_ranges files (record d { base = (resolved_paths files d.base).1 })).0
      ≡ (resolved_paths files d.base).0
    → All
        (λ p.
          (read_partition_key reader column hive p ≡ ok (as_key (key p)))
          × Below npartition (key p))
        (resolved_paths files d.base).0
    → (made : List ParquetDataSet) × (d' : ParquetDataSet) × (load_partitioned_datasets files reader
          npartition column hive d
        ≡ ok (made, d'))
      × (length made ≡ npartition)
      × ((i : ℕ)
          → i < npartition
          → ranges_at made i
            ≡ some (
                with_key i key
                  (resolved_row_ranges files
                    (record d { base = (resolved_paths files d.base).1 })).0))
load_partitioned_datasets-with_key files reader column hive key d n positive beside keys =
    let (made, d', ran, count, at) = load_zipped files reader column hive key d n positive keys in
    let d1 : ParquetDataSet = record d { base = (resolved_paths files d.base).1 } in
    let ranges = (resolved_row_ranges files d1).0 in
    (
      made,
      d',
      ran,
      count,
      λ i lt.
          at i lt
          ∙ ap (λ ps. some (zip_key i key ranges ps)) (sym beside)
          ∙ ap some (zip_key-with_key i key ranges),
    )
