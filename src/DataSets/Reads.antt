-- ===== src/DataSets/Reads.antt =====
-- The query for some ranges of rows reads the rows of the ranges.
use Prim.Native.String.{String}
use mathlib.Core.List.{Perm, map-append}
use mathlib.Core.List.Perm
use smallpond.Prelude.{
  All-weaken, ℕ, zero, suc, ◌+◌, ◌-◌, ◌≤◌, ◌<◌, min, max, ◌≡◌, ◌∙◌, refl, sym, ap, ap₂, subst, Bool,
  true, false, not, inl, inr, List, [], ◌∷◌, ◌++◌, map, flatten, flatten-append, append-nil, arith,
  range, range_from, All, leb, leb→le, le→leb, leb→lt, ==_iff, Bool-cases,
}
use smallpond.RowRange.{RowRange, num_rows, rows_of}
use smallpond.RowRange.Take.{all_rows}
use smallpond.DataSets.Paths.{filter}
use smallpond.DataSets.Parquet.{path_of}
use smallpond.DataSets.Query.{
  SubQuery, whole, is_full, pred, part_query, largest_index, swap_first, whole_query,
  query_of_ranges, between, rows_in, rows_read,
}
use smallpond.DataSets.Perms.{swap_first-Perm, split-Perm}
use smallpond.Sorts.{flatten-Perm}

-- A range that stands within its file.
abbrev pub Within : (String → ℕ) → RowRange → Type 0
Within size r = (r.begin ≤ r.end) × (r.end ≤ r.file_num_rows) × (r.file_num_rows ≡ size r.path)

between_in : (first end i : ℕ) → first ≤ i → i < end → between first (pred end) i ≡ true
between_in first zero i h k = absurd (omega arith)
between_in first (suc last) i h k = rw (le→leb first i h, le→leb i last (omega arith)) refl

between_below : (first end i : ℕ) → i < first → between first (pred end) i ≡ false
between_below first zero i h = refl
between_below first (suc last) i h = ground arith

between_above : (first end i : ℕ) → end ≤ i → between first (pred end) i ≡ false
between_above first zero i h = refl
between_above first (suc last) i h = ground arith

empty_range : (a n : ℕ) → n ≡ 0 → range_from a n ≡ []
empty_range a n e = rw e refl

filter-between :
    (first end a n : ℕ)
    → filter (between first (pred end)) (range_from a n)
      ≡ range_from (max a first) (min (a + n) end - max a first)
filter-between first end a zero =
    sym (empty_range (max a first) (min (a + 0) end - max a first) (omega arith))
filter-between first end a (suc n) =
    let later = filter-between first end (suc a) n in
    elim (Bool-cases (leb first a)) [
      | inr below ↦
          let lt = leb→lt first a below in
          rw (between_below first end a lt)
            (later ∙ ap₂ range_from (same_start first a lt) (same_count first end a n lt))
      | inl from ↦
          let le = leb→le first a from in
          elim (Bool-cases (leb end a)) [
            | inl past ↦
                let le' = leb→le end a past in
                rw (between_above first end a le') (
                  later
                  ∙ empty_range (max (suc a) first) (min (suc a + n) end - max (suc a) first)
                      (omega arith)
                  ∙ sym
                      (empty_range (max a first) (min (a + suc n) end - max a first) (omega arith)))
            | inr within ↦
                let lt = leb→lt end a within in
                rw (between_in first end a le lt) (ap (◌∷◌ a) later ∙ first_of first end a n le lt)
          ]
    ]
  where
    same_start : (first a : ℕ) → a < first → max (suc a) first ≡ max a first
    same_start first a h = omega arith

    same_count :
        (first end a n : ℕ)
        → a < first
        → min (suc a + n) end - max (suc a) first ≡ min (a + suc n) end - max a first
    same_count first end a n h = omega arith

    first_of :
        (first end a n : ℕ)
        → first ≤ a
        → a < end
        → a ∷ range_from (max (suc a) first) (min (suc a + n) end - max (suc a) first)
          ≡ range_from (max a first) (min (a + suc n) end - max a first)
    first_of first end a n h k =
        let start : max (suc a) first ≡ suc a = omega arith in
        let here : max a first ≡ a = omega arith in
        let more : min (a + suc n) end - a ≡ suc (min (suc a + n) end - suc a) = omega arith in
        rw (start, here, more) refl

-- A range that is read on its own.
part_query-rows :
    (size : String → ℕ) (r : RowRange) → Within size r → rows_in size (part_query r) ≡ rows_of r
unfolding rows_in rows_of
part_query-rows size r (le, fits, same) =
    let start : max 0 r.begin ≡ r.begin = omega arith in
    let count : min (0 + size r.path) r.end ≡ r.end = omega arith in
    ap (map (λ i. (r.path, i)))
      (filter-between r.begin r.end 0 (size r.path) ∙ rw (start, count) refl)

parts-rows :
    (size : String → ℕ) (rs : List RowRange)
    → All (Within size) rs
    → rows_read size (map part_query rs) ≡ all_rows rs
unfolding rows_read flatten
parts-rows size [] h = refl
parts-rows size (r ∷ rs) (w, h) = ap₂ ◌++◌ (part_query-rows size r w) (parts-rows size rs h)

whole_rows : (String → ℕ) → RowRange → List (String × ℕ)
whole_rows size r = map (λ i. (r.path, i)) (range (size r.path))

full-rows :
    (size : String → ℕ) (r : RowRange)
    → Within size r
    → is_full r ≡ true
    → whole_rows size r ≡ rows_of r
unfolding rows_of whole_rows
full-rows size r (le, fits, same) full =
    let count : num_rows r ≡ size r.path = (==_iff (num_rows r) r.file_num_rows).0 full ∙ same in
    let start : r.begin ≡ 0 = omega arith in
    let all : r.end - r.begin ≡ size r.path = count in rw (all, start) refl

-- Of the full ranges, in any order, `read_parquet` reads all rows.
full_list-rows :
    (size : String → ℕ) (rs : List RowRange)
    → All (λ r. Within size r × (is_full r ≡ true)) rs
    → flatten (map (whole_rows size) rs) ≡ all_rows rs
unfolding flatten
full_list-rows size [] h = refl
full_list-rows size (r ∷ rs) ((w, full), h) =
    ap₂ ◌++◌ (full-rows size r w full) (full_list-rows size rs h)

paths-rows :
    (size : String → ℕ) (rs : List RowRange)
    → rows_in size (whole (map path_of rs)) ≡ flatten (map (whole_rows size) rs)
unfolding rows_in flatten whole_rows
paths-rows size [] = refl
paths-rows size (r ∷ rs) = ap (◌++◌ (whole_rows size r)) (paths-rows size rs)

whole_query-rows :
    (size : String → ℕ) (rs : List RowRange)
    → All (λ r. Within size r × (is_full r ≡ true)) rs
    → Perm (rows_read size (whole_query rs)) (all_rows rs)
unfolding rows_read flatten
whole_query-rows size [] h = Perm.refl []
whole_query-rows size (r ∷ rs) h =
    let swapped = swap_first (largest_index (r ∷ rs)) (r ∷ rs) in
    subst (λ l. Perm l (all_rows (r ∷ rs)))
      (sym (append-nil (rows_in size (whole (map path_of swapped))) ∙ paths-rows size swapped))
      (subst (Perm (flatten (map (whole_rows size) swapped))) (full_list-rows size (r ∷ rs) h)
        (flatten-Perm (whole_rows size) (swap_first-Perm (largest_index (r ∷ rs)) (r ∷ rs))))

filter-All :
    (P : RowRange → Type 0) (p : RowRange → Bool) (rs : List RowRange)
    → All P rs
    → All (λ r. P r × (p r ≡ true)) (filter p rs)
filter-All P p [] h = tt
filter-All P p (r ∷ rs) (q, h) = elim (Bool-cases (p r)) [
  | inl holds ↦ rw holds ((q, holds), filter-All P p rs h)
  | inr fails ↦ rw fails (filter-All P p rs h)
]

rows_read-append :
    (size : String → ℕ) (xs ys : List SubQuery)
    → rows_read size (xs ++ ys) ≡ rows_read size xs ++ rows_read size ys
unfolding rows_read
rows_read-append size xs ys =
    ap flatten (map-append (rows_in size) xs ys)
    ∙ flatten-append (map (rows_in size) xs) (map (rows_in size) ys)

all_rows-append : (xs ys : List RowRange) → all_rows (xs ++ ys) ≡ all_rows xs ++ all_rows ys
all_rows-append xs ys =
    ap flatten (map-append rows_of xs ys) ∙ flatten-append (map rows_of xs) (map rows_of ys)

-- When the ranges stand within their files, which have the given numbers of rows, the subqueries
-- read the rows of the ranges, each as often as the ranges hold it, in whatever order.
pub query_of_ranges-Perm :
    (size : String → ℕ) (ranges : List RowRange)
    → All (Within size) ranges
    → Perm (rows_read size (query_of_ranges ranges)) (all_rows ranges)
unfolding query_of_ranges
query_of_ranges-Perm size ranges h =
    let full = filter is_full ranges in
    let rest = filter (λ r. not (is_full r)) ranges in
    let read_rest : rows_read size (map part_query rest) ≡ all_rows rest = parts-rows size rest (
      All-weaken _ (Within size) rest (λ r (w, _). w)
        (filter-All (Within size) (λ r. not (is_full r)) ranges h)) in
    subst (λ l. Perm l (all_rows ranges))
      (sym (rows_read-append size (whole_query full) (map part_query rest)))
      (Perm.trans
        (Perm.append (whole_query-rows size full (filter-All (Within size) is_full ranges h))
          (subst (Perm (rows_read size (map part_query rest))) read_rest (Perm.refl _)))
        (subst (λ l. Perm l (all_rows ranges)) (all_rows-append full rest)
          (flatten-Perm rows_of (split-Perm is_full ranges))))
