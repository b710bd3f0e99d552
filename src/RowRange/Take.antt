-- ===== src/RowRange/Take.antt =====
-- `take` and the inner loop: rows are neither lost nor repeated nor reordered.
use Prim.Native.String.{String}
use smallpond.Prelude.{
  ℕ, zero, suc, ◌+◌, ◌-◌, ◌≤◌, ◌<◌, min, ◌≡◌, refl, sym, ap, ◌∙◌, List, [], ◌∷◌, ◌++◌, map, flatten,
  inl, inr, arith, length, sum, range_from, append_assoc, ◌==◌, ==_iff, Bool-cases, ok,
}
use smallpond.RowRange.{RowRange, num_rows, take, take_rows, rows_of}

abbrev pub total_rows : List RowRange → ℕ
total_rows ranges = sum (map num_rows ranges)

abbrev pub all_rows : List RowRange → List (String × ℕ)
all_rows ranges = flatten (map rows_of ranges)

map-range_from-append {ℓ} :
    {A : Type ℓ} (f : ℕ → A) (a m n : ℕ)
    → map f (range_from a m) ++ map f (range_from (a + m) n) ≡ map f (range_from a (m + n))
map-range_from-append f a zero n =
    let e : a + 0 ≡ a = omega arith in let e' : 0 + n ≡ n = omega arith in rw (e, e') refl
map-range_from-append f a (suc m) n =
    let e : a + suc m ≡ suc a + m = omega arith in
    let e' : suc m + n ≡ suc (m + n) = omega arith in
    rw (e, e') (ap (◌∷◌ (f a)) (map-range_from-append f (suc a) m n))

-- The head holds the first rows, as many as asked for or as there are, and the range keeps the
-- others.
pub take-rows_of :
    (r : RowRange) (n : ℕ)
    → (rows_of (take r n).0 ++ rows_of (take r n).1 ≡ rows_of r)
      × (num_rows (take r n).0 ≡ min n (num_rows r))
      × (num_rows (take r n).1 ≡ num_rows r - n)
unfolding take rows_of
take-rows_of r n =
    let m = min n (num_rows r) in
    let head : r.begin + m - r.begin ≡ m = omega arith in
    let left : r.end - (r.begin + m) ≡ num_rows r - m = omega arith in
    let whole : m + (num_rows r - m) ≡ num_rows r = omega arith in
    (
      rw (head, left)
          (map-range_from-append (λ i. (r.path, i)) r.begin m (num_rows r - m)
            ∙ ap (λ k. map (λ i. (r.path, i)) (range_from r.begin k)) whole),
      omega arith,
      omega arith,
    )

pub rows_of-empty : (r : RowRange) → num_rows r ≡ 0 → rows_of r ≡ []
unfolding rows_of
rows_of-empty r e = ap (λ k. map (λ i. (r.path, i)) (range_from r.begin k)) e

-- With enough fuel and enough rows the loop takes as many rows as asked for, from the front.
pub take_rows_lem :
    (fuel rows : ℕ) (ranges : List RowRange)
    → rows + length ranges < fuel
    → rows ≤ total_rows ranges
    → (part : List RowRange) × (rest : List RowRange) × (take_rows fuel rows ranges
        ≡ ok (part, rest))
      × (all_rows part ++ all_rows rest ≡ all_rows ranges)
      × (total_rows part ≡ rows)
      × (total_rows rest ≡ total_rows ranges - rows)
unfolding take_rows flatten
take_rows_lem zero rows ranges h h' = absurd (omega arith)
take_rows_lem (suc fuel) rows [] h h' =
    let e : rows ≡ 0 = omega arith in rw e ([], [], refl, refl, refl, omega arith)
take_rows_lem (suc fuel) rows (r ∷ rs) h h' = elim (Bool-cases (rows == 0)) [
  | inl none_left ↦
      let e : rows ≡ 0 = (==_iff rows 0).0 none_left in
      rw e ([], r ∷ rs, refl, refl, refl, omega arith)
  | inr more ↦ elim (Bool-cases (num_rows r == 0)) [
    | inl empty ↦
        let e : num_rows r ≡ 0 = (==_iff (num_rows r) 0).0 empty in
        let (part, rest, run, same, part_total, rest_total) =
          take_rows_lem fuel rows rs (omega arith) (omega arith) in
        (
          part,
          rest,
          rw (more, empty) run,
          same ∙ ap (λ xs. xs ++ all_rows rs) (sym (rows_of-empty r e)),
          part_total,
          omega arith,
        )
    | inr some_rows ↦
        let head = (take r rows).0 in
        let left = (take r rows).1 in
        let (kept, head_rows, left_rows) = take-rows_of r rows in
        let (part, rest, run, same, part_total, rest_total) =
          take_rows_lem fuel (rows - num_rows head) (left ∷ rs) (ground arith) (ground arith) in
        (
          head ∷ part,
          rest,
          rw (more, some_rows) (rw run refl),
          append_assoc (rows_of head) (all_rows part) (all_rows rest)
              ∙ ap (◌++◌ (rows_of head)) same
              ∙ sym (append_assoc (rows_of head) (rows_of left) (all_rows rs))
              ∙ ap (λ xs. xs ++ all_rows rs) kept,
          omega arith,
          omega arith,
        )
  ]
]
