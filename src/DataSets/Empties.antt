-- ===== src/DataSets/Empties.antt =====
-- `ParquetDataSet.remove_empty_files`.
use smallpond.Prelude.{
  suc, ◌≤◌, ◌<◌, ◌≡◌, ◌∙◌, refl, sym, ap, ap₂, subst, ◌⊎◌, inl, inr, Bool, List, [], ◌∷◌, ◌++◌,
  flatten, length, length-take, take-all, All, take, arith, ltb, ltb→lt, ltb→le, ◌==◌, ==_iff,
  Bool-cases, Option-cases, either_if,
}
use smallpond.RowRange.{RowRange, num_rows, rows_of}
use smallpond.RowRange.Take.{all_rows, rows_of-empty}
use smallpond.DataSets.Paths.{filter}
use smallpond.DataSets.Sets.{Files}
use smallpond.DataSets.Parquet.{
  ParquetDataSet, resolved_row_ranges, kept_ranges, remove_empty_files,
}

-- What removing the empty files leaves of the ranges.
abbrev pub is_filled : RowRange → Bool
is_filled r = ltb 0 (num_rows r)

filled-rows : (rs : List RowRange) → all_rows (filter is_filled rs) ≡ all_rows rs
unfolding flatten
filled-rows [] = refl
filled-rows (r ∷ rs) = elim (Bool-cases (is_filled r)) [
  | inl filled ↦ rw filled (ap (◌++◌ (rows_of r)) (filled-rows rs))
  | inr unfilled ↦
      let none_in = ltb→le 0 (num_rows r) unfilled in
      rw unfilled
        (filled-rows rs ∙ ap (λ l. l ++ all_rows rs) (sym (rows_of-empty r (omega arith))))
]

filled-All : (rs : List RowRange) → All (λ r. 0 < num_rows r) (filter is_filled rs)
filled-All [] = tt
filled-All (r ∷ rs) = elim (Bool-cases (is_filled r)) [
  | inl filled ↦ rw filled (ltb→lt 0 (num_rows r) filled, filled-All rs)
  | inr unfilled ↦ rw unfilled (filled-All rs)
]

filter-le : (rs : List RowRange) → length (filter is_filled rs) ≤ length rs
filter-le [] = omega arith
filter-le (r ∷ rs) = elim (Bool-cases (is_filled r)) [
  | inl filled ↦ let le = filter-le rs in rw filled (omega arith)
  | inr unfilled ↦ let le = filter-le rs in rw unfilled (omega arith)
]

all_filled :
    (rs : List RowRange) → length (filter is_filled rs) ≡ length rs → filter is_filled rs ≡ rs
all_filled [] e = refl
all_filled (r ∷ rs) e = elim (Bool-cases (is_filled r)) [
  | inl filled ↦
      let e' : suc (length (filter is_filled rs)) ≡ suc (length rs) = rw filled at e in
      rw filled (ap (◌∷◌ r) (all_filled rs (omega arith)))
  | inr unfilled ↦
      let e' : length (filter is_filled rs) ≡ suc (length rs) = rw unfilled at e in
      let le = filter-le rs in absurd (omega arith)
]

resolved_again :
    (files : Files) (d : ParquetDataSet)
    → (resolved_row_ranges files (resolved_row_ranges files d).1).0
      ≡ (resolved_row_ranges files d).0
unfolding resolved_row_ranges
resolved_again files d = elim (Option-cases d.cached_row_ranges) [
  | inl none_yet ↦ rw none_yet refl
  | inr (ranges, found) ↦ rw found refl
]

-- What is kept of the ranges: no empty range or one range at most.
abbrev pub IsTidy : List RowRange → Type 0
IsTidy rs = All (λ r. 0 < num_rows r) rs ⊎ (length rs ≤ 1)

kept-IsTidy : (rs : List RowRange) → IsTidy (kept_ranges rs)
unfolding kept_ranges
kept-IsTidy rs =
    either_if IsTidy (length (filter is_filled rs) == 0) (take 1 rs) (filter is_filled rs)
      (inr (omega (arith, length-take 1 rs))) (inl (filled-All rs))

unfilled-All :
    (rs : List RowRange) → length (filter is_filled rs) ≡ 0 → All (λ r. num_rows r ≡ 0) rs
unfilled-All [] e = tt
unfilled-All (r ∷ rs) e = elim (Bool-cases (is_filled r)) [
  | inl filled ↦
      let e' : suc (length (filter is_filled rs)) ≡ 0 = rw filled at e in absurd (omega arith)
  | inr unfilled ↦
      let none_in = ltb→le 0 (num_rows r) unfilled in
      (omega arith, unfilled-All rs (rw unfilled at e))
]

unfilled-rows : (rs : List RowRange) → All (λ r. num_rows r ≡ 0) rs → all_rows rs ≡ []
unfolding flatten
unfilled-rows [] h = refl
unfilled-rows (r ∷ rs) (e, h) = ap₂ ◌++◌ (rows_of-empty r e) (unfilled-rows rs h)

first-rows : (rs : List RowRange) → All (λ r. num_rows r ≡ 0) rs → all_rows (take 1 rs) ≡ []
first-rows [] h = unfilled-rows [] tt
first-rows (r ∷ rs) (e, h) = unfilled-rows (r ∷ []) (e, tt)

kept-all : (rs : List RowRange) → length (kept_ranges rs) ≡ length rs → kept_ranges rs ≡ rs
unfolding kept_ranges
kept-all rs e = elim (Bool-cases (length (filter is_filled rs) == 0)) [
  | inl none_filled ↦
      let e' : length (take 1 rs) ≡ length rs = rw none_filled at e in
      rw none_filled (take-all 1 rs (omega (arith, length-take 1 rs)))
  | inr some_filled ↦ rw some_filled (all_filled rs (rw some_filled at e))
]

kept-rows : (rs : List RowRange) → all_rows (kept_ranges rs) ≡ all_rows rs
unfolding kept_ranges
kept-rows rs = elim (Bool-cases (length (filter is_filled rs) == 0)) [
  | inl none_filled ↦ rw none_filled (
      let none_in = unfilled-All rs ((==_iff (length (filter is_filled rs)) 0).0 none_filled) in
      first-rows rs none_in ∙ sym (unfilled-rows rs none_in))
  | inr some_filled ↦ rw some_filled (filled-rows rs)
]

-- Removing the empty files keeps all rows, in order; then no range is empty, or one range at most
-- is left.
pub remove_empty_files-rows :
    (files : Files) (d : ParquetDataSet)
    → (all_rows (resolved_row_ranges files (remove_empty_files files d)).0
        ≡ all_rows (resolved_row_ranges files d).0)
      × IsTidy (resolved_row_ranges files (remove_empty_files files d)).0
unfolding remove_empty_files
remove_empty_files-rows files d =
    let (ranges, d1) = resolved_row_ranges files d in
    elim (Bool-cases (length (kept_ranges ranges) == length ranges)) [
      | inl same ↦ rw same (
          let again = resolved_again files d in
          let all =
            kept-all ranges ((==_iff (length (kept_ranges ranges)) (length ranges)).0 same) in
          (ap all_rows again, subst IsTidy (sym again) (subst IsTidy all (kept-IsTidy ranges))))
      | inr fewer ↦ rw fewer (kept-rows ranges, kept-IsTidy ranges)
    ]
