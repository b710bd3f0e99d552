-- ===== src/DataSets/Cuts.antt =====
-- How a data set is cut into data sets of files or of rows.
use Prim.Native.String.{String}
use mathlib.Core.List.{Perm}
use mathlib.Core.List.Perm
use smallpond.Prelude.{
  Bool, ℕ, zero, suc, ◌+◌, ◌≡◌, ◌≢◌, ◌∙◌, refl, sym, ap, ap₂, subst, false, List, [], ◌∷◌, map,
  flatten, length, length-map, replicate, none, some, arith, lt→ltb, either_if, ok,
}
use smallpond.Common.{ArraySplit, IsArraySplit}
use smallpond.Common.Rows.{even_sizes, split_into_rows-IsEven}
use smallpond.RowRange.{RowRange, num_rows, rows_of}
use smallpond.RowRange.Take.{total_rows, all_rows}
use smallpond.RowRange.Even.{partition_by_rows-IsEven}
use smallpond.DataSets.Paths.{text_lt, sort_by}
use smallpond.DataSets.Sets.{
  Files, DataSet, or_empty, default_root, reset, reset_each, resolved_paths, init_file_partitions,
  partition_by_files,
}
use smallpond.DataSets.Parquet.{
  ParquetDataSet, resolved_row_ranges, create_dataset, partition_by_rows,
}
use smallpond.Sorts.{insert_with, sort_with, sort_with-Perm, flatten-Perm}

abbrev pub paths_in : DataSet → List String
paths_in d = d.paths

abbrev pub ranges_in : ParquetDataSet → List RowRange
ranges_in d = or_empty d.cached_row_ranges

reset_each-paths :
    (files : Files) (groups : List (List String)) (d : DataSet) (n : ℕ)
    → length groups ≡ n
    → (parts : List DataSet) × (reset_each
          (λ ps. reset files (some ps) none none)
          groups
          (replicate n d)
        ≡ ok parts)
      × (map paths_in parts ≡ groups)
unfolding reset
reset_each-paths files [] d zero e = ([], refl, refl)
reset_each-paths files [] d (suc n) e = absurd (omega arith)
reset_each-paths files (ps ∷ groups) d zero e = absurd (omega arith)
reset_each-paths files (ps ∷ groups) d (suc n) e =
    let (parts, made, same) = reset_each-paths files groups d n (omega arith) in
    (reset files (some ps) none none d ∷ parts, rw made refl, ap (◌∷◌ ps) same)

path_counts :
    (parts : List DataSet) → map (λ p. length p.paths) parts ≡ map length (map paths_in parts)
path_counts [] = refl
path_counts (p ∷ ps) = ap (◌∷◌ (length p.paths)) (path_counts ps)

module _ (files : Files) (array_split : ArraySplit) (laws : IsArraySplit array_split) where
  -- With no shuffle and for a positive number of partitions no exception is raised: there are that
  -- many data sets, the files in them put end to end are the files of the data set, and the numbers
  -- of files are those of an even cut.
  pub partition_by_files-IsEven :
      (sample_paths : List String → List String) (sample_sets : List DataSet → List DataSet)
      (d : DataSet) (npartition : ℕ)
      → 0 ≢ npartition
      → (parts : List DataSet) × (partition_by_files files array_split sample_paths sample_sets
            npartition false d
          ≡ ok (parts, (resolved_paths files d).1))
        × (length parts ≡ npartition)
        × (flatten (map paths_in parts) ≡ (resolved_paths files d).0)
        × (map (λ p. length p.paths) parts
            ≡ even_sizes (length (resolved_paths files d).0) npartition)
  unfolding partition_by_files init_file_partitions
  partition_by_files-IsEven sample_paths sample_sets d n positive =
      let (ps, d1) = resolved_paths files d in
      let (rows, cut, whole, count, sizes) =
        split_into_rows-IsEven array_split laws ps n positive in
      let (parts, made, same) =
        reset_each-paths files rows (reset files none default_root none d1) n count in
      (
        parts,
        rw (lt→ltb 0 n (omega arith), cut, made) refl,
        sym (length-map parts paths_in) ∙ ap length same ∙ count,
        ap flatten same ∙ whole,
        path_counts parts ∙ ap (map length) same ∙ sizes,
      )

total_rows-insert_with :
    (lt : RowRange → RowRange → Bool) (x : RowRange) (xs : List RowRange)
    → total_rows (insert_with lt x xs) ≡ num_rows x + total_rows xs
total_rows-insert_with lt x [] = refl
total_rows-insert_with lt x (y ∷ ys) =
    either_if (λ l. total_rows l ≡ num_rows x + total_rows (y ∷ ys)) (lt y x)
      (y ∷ insert_with lt x ys) (x ∷ y ∷ ys) (let e = total_rows-insert_with lt x ys in omega arith)
      refl

total_rows-sort_with :
    (lt : RowRange → RowRange → Bool) (xs : List RowRange)
    → total_rows (sort_with lt xs) ≡ total_rows xs
unfolding sort_with
total_rows-sort_with lt [] = refl
total_rows-sort_with lt (x ∷ xs) =
    total_rows-insert_with lt x (sort_with lt xs)
    ∙ ap (λ n. num_rows x + n) (total_rows-sort_with lt xs)

created-totals :
    (files : Files) (d : ParquetDataSet) (parts : List (List RowRange))
    → map (λ p. total_rows (ranges_in p)) (map (create_dataset files d) parts)
      ≡ map total_rows parts
unfolding create_dataset sort_by
created-totals files d [] = refl
created-totals files d (p ∷ ps) =
    ap₂ ◌∷◌ (total_rows-sort_with (λ x y. text_lt x.path y.path) p) (created-totals files d ps)

created-Perm :
    (files : Files) (d : ParquetDataSet) (parts : List (List RowRange))
    → Perm (flatten (map ranges_in (map (create_dataset files d) parts))) (flatten parts)
unfolding create_dataset sort_by flatten
created-Perm files d [] = Perm.refl []
created-Perm files d (p ∷ ps) =
    Perm.append (sort_with-Perm (λ x y. text_lt x.path y.path) p) (created-Perm files d ps)

-- With no shuffle and for a positive number of partitions no exception is raised: there are that
-- many data sets, they hold each row as often as the data set, and the numbers of rows in them are
-- those of an even cut.
pub partition_by_rows-created :
    (files : Files) (sample : List RowRange → List RowRange) (d : ParquetDataSet) (npartition : ℕ)
    → 0 ≢ npartition
    → (parts : List ParquetDataSet) × (partition_by_rows files sample npartition false d
        ≡ ok (parts, (resolved_row_ranges files d).1))
      × (length parts ≡ npartition)
      × (map (λ p. total_rows (ranges_in p)) parts
          ≡ even_sizes (total_rows (resolved_row_ranges files d).0) npartition)
      × Perm (all_rows (flatten (map ranges_in parts))) (all_rows (resolved_row_ranges files d).0)
unfolding partition_by_rows
partition_by_rows-created files sample d n positive =
    let (ranges, d1) = resolved_row_ranges files d in
    let (parts, cut, count, same, totals) = partition_by_rows-IsEven ranges n positive in
    (
      map (create_dataset files d1) parts,
      rw (lt→ltb 0 n (omega arith), cut) refl,
      length-map parts (create_dataset files d1) ∙ count,
      created-totals files d1 parts ∙ totals,
      subst (Perm (all_rows (flatten (map ranges_in (map (create_dataset files d1) parts))))) same
          (flatten-Perm rows_of (created-Perm files d1 parts)),
    )
