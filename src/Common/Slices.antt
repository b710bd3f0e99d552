-- ===== src/Common/Slices.antt =====
-- A list cut into consecutive blocks of given sizes, which describes both ways to split by rows.
use smallpond.Prelude.{
  ℕ, zero, suc, ◌+◌, ◌-◌, ◌*◌, ◌≤◌, ◌<◌, ◌≡◌, refl, ap, ap₂, ◌∙◌, List, [], ◌∷◌, ◌++◌, map, flatten,
  some, arith, length, get_elem?, take, drop, replicate, sum, range_from, length-append,
  length-take, length-drop, drop-drop, take-append-slice, take-append-length, drop-append-length,
}

abbrev pub split_sizes {ℓ} : {A : Type ℓ} → List ℕ → List A → List (List A)
split_sizes [] xs = []
split_sizes (n ∷ ns) xs = take n xs ∷ split_sizes ns (drop n xs)

pub sum-append : (ms ns : List ℕ) → sum (ms ++ ns) ≡ sum ms + sum ns
sum-append [] ns = omega arith
sum-append (m ∷ ms) ns = omega (arith, sum-append ms ns)

pub sum-replicate : (k n : ℕ) → sum (replicate k n) ≡ k * n
sum-replicate zero n = omega arith
sum-replicate (suc k) n = omega (arith, sum-replicate k n)

module _ {ℓ} {A : Type ℓ} where
  pub split_sizes-flatten : (xss : List (List A)) → xss ≡ split_sizes (map length xss) (flatten xss)
  unfolding flatten
  split_sizes-flatten [] = refl
  split_sizes-flatten (xs ∷ xss) =
      rw (take-append-length xs (flatten xss), drop-append-length xs (flatten xss))
        (ap (◌∷◌ xs) (split_sizes-flatten xss))

  pub length-flatten : (xss : List (List A)) → length (flatten xss) ≡ sum (map length xss)
  unfolding flatten
  length-flatten [] = refl
  length-flatten (xs ∷ xss) = omega (arith, length-append xs (flatten xss), length-flatten xss)

  pub flatten-split_sizes :
      (ns : List ℕ) (xs : List A) → flatten (split_sizes ns xs) ≡ take (sum ns) xs
  unfolding flatten
  flatten-split_sizes [] xs = refl
  flatten-split_sizes (n ∷ ns) xs =
      rw (flatten-split_sizes ns (drop n xs)) (take-append-slice n (sum ns) xs)

  pub lengths-split_sizes :
      (ns : List ℕ) (xs : List A) → sum ns ≤ length xs → map length (split_sizes ns xs) ≡ ns
  lengths-split_sizes [] xs h = refl
  lengths-split_sizes (n ∷ ns) xs h =
      ap₂ ◌∷◌ (omega (arith, length-take n xs))
        (lengths-split_sizes ns (drop n xs) (omega (arith, length-drop n xs)))

  -- A block among the leading ones, all of size `c`.
  pub get-split_sizes-lt :
      (r c i : ℕ) (ns : List ℕ) (xs : List A)
      → i < r
      → get_elem? (split_sizes (replicate r c ++ ns) xs) i ≡ some (take c (drop (i * c) xs))
  get-split_sizes-lt zero c i ns xs h = absurd (omega arith)
  get-split_sizes-lt (suc r) c zero ns xs h = let e : 0 * c ≡ 0 = omega arith in rw e refl
  get-split_sizes-lt (suc r) c (suc i) ns xs h =
      get-split_sizes-lt r c i ns (drop c xs) (omega arith)
      ∙ ap (λ ys. some (take c ys)) (drop-drop c (i * c) xs ∙ ap (λ k. drop k xs) (omega arith))

  -- A block behind them.
  pub get-split_sizes-add :
      (r c j : ℕ) (ns : List ℕ) (xs : List A)
      → get_elem? (split_sizes (replicate r c ++ ns) xs) (r + j)
        ≡ get_elem? (split_sizes ns (drop (r * c) xs)) j
  get-split_sizes-add zero c j ns xs =
      let e : 0 * c ≡ 0 = omega arith in let e' : 0 + j ≡ j = omega arith in rw (e, e') refl
  get-split_sizes-add (suc r) c j ns xs =
      let e : suc r + j ≡ suc (r + j) = omega arith in
      let e' : suc r * c ≡ c + r * c = omega arith in
      rw (e, e', ← drop-drop c (r * c) xs) (get-split_sizes-add r c j ns (drop c xs))

-- Blocks of a range of indices are ranges.
pub take-range_from : (a m n : ℕ) → m ≤ n → take m (range_from a n) ≡ range_from a m
take-range_from a zero n h = refl
take-range_from a (suc m) zero h = absurd (omega arith)
take-range_from a (suc m) (suc n) h = ap (◌∷◌ a) (take-range_from (suc a) m n (omega arith))

pub drop-range_from : (a m n : ℕ) → m ≤ n → drop m (range_from a n) ≡ range_from (a + m) (n - m)
drop-range_from a zero n h = ap₂ range_from (omega arith) (omega arith)
drop-range_from a (suc m) zero h = absurd (omega arith)
drop-range_from a (suc m) (suc n) h =
    drop-range_from (suc a) m n (omega arith) ∙ ap₂ range_from (omega arith) (omega arith)
