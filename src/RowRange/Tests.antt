-- ===== src/RowRange/Tests.antt =====
-- Two small files cut in three, and the theorems about `RowRange` there.
use smallpond.Prelude.{◌-◌, ◌≡◌, refl, List, [], ◌∷◌, ◌++◌, map, flatten, arith, length, min, ok}
use smallpond.Common.Rows.{even_sizes}
use smallpond.RowRange.{RowRange, num_rows, estimated_data_size, take, partition_by_rows, rows_of}
use smallpond.RowRange.Take.{total_rows, all_rows, take-rows_of}
use smallpond.RowRange.Even.{partition_by_rows-IsEven}

abbrev first : RowRange
first = record { path = "a"; data_size = 500; file_num_rows = 5; begin = 1; end = 5 }

abbrev second : RowRange
second = record { path = "b"; data_size = 90; file_num_rows = 3; begin = 0; end = 3 }

abbrev ranges : List RowRange
ranges = first ∷ second ∷ []

partition_test :
    partition_by_rows ranges 3
    ≡ ok (
        (record first { end = 4 } ∷ [])
        ∷ (record first { begin = 4 } ∷ record second { end = 1 } ∷ [])
        ∷ (record second { begin = 1 } ∷ [])
        ∷ [])
unfolding partition_by_rows
partition_test = refl

estimated_test : estimated_data_size first ≡ 400
unfolding estimated_data_size
estimated_test = refl

take-rows_of_example :
    (rows_of (take first 2).0 ++ rows_of (take first 2).1 ≡ rows_of first)
    × (num_rows (take first 2).0 ≡ min 2 (num_rows first))
    × (num_rows (take first 2).1 ≡ num_rows first - 2)
take-rows_of_example = take-rows_of first 2

partition_by_rows-IsEven_example :
    (parts : List (List RowRange)) × (partition_by_rows ranges 3 ≡ ok parts)
    × (length parts ≡ 3)
    × (all_rows (flatten parts) ≡ all_rows ranges)
    × (map total_rows parts ≡ even_sizes (total_rows ranges) 3)
partition_by_rows-IsEven_example = partition_by_rows-IsEven ranges 3 (omega arith)
