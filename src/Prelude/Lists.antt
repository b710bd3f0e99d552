-- ===== src/Prelude/Lists.antt =====
-- Lists measured and indexed by native numbers, under the library's names.
use Prim.Native.Nat.{ℕ, zero, suc, ◌+◌, ◌-◌, ◌≤◌, min}
use mathlib.Core.Path.{◌≡◌, refl, ap, ◌∙◌, sym}
use mathlib.Core.Logic.{◌⊎◌, inl, inr}
use mathlib.Core.List.{List, [], ◌∷◌, ◌++◌, map, flatten, append_assoc}
use mathlib.Core.Option.{Option, none, some, some-injective}
use native.Mathlib.Omega.{arith}

module _ {ℓ} {A : Type ℓ} where
  abbrev pub length : List A → ℕ
  length [] = 0
  length (x ∷ xs) = suc (length xs)

  abbrev pub get_elem? : List A → ℕ → Option A
  get_elem? [] i = none
  get_elem? (x ∷ xs) zero = some x
  get_elem? (x ∷ xs) (suc i) = get_elem? xs i

  abbrev pub get_or : List A → ℕ → A → A
  get_or [] i d = d
  get_or (x ∷ xs) zero d = x
  get_or (x ∷ xs) (suc i) d = get_or xs i d

  abbrev pub take : ℕ → List A → List A
  take zero xs = []
  take (suc n) [] = []
  take (suc n) (x ∷ xs) = x ∷ take n xs

  abbrev pub drop : ℕ → List A → List A
  drop zero xs = xs
  drop (suc n) [] = []
  drop (suc n) (x ∷ xs) = drop n xs

  abbrev pub replicate : ℕ → A → List A
  replicate zero a = []
  replicate (suc n) a = a ∷ replicate n a

  pub length-append : (xs ys : List A) → length (xs ++ ys) ≡ length xs + length ys
  length-append [] ys = omega arith
  length-append (x ∷ xs) ys = omega (arith, length-append xs ys)

  pub length-take : (n : ℕ) (xs : List A) → length (take n xs) ≡ min n (length xs)
  length-take zero xs = omega arith
  length-take (suc n) [] = omega arith
  length-take (suc n) (x ∷ xs) = omega (arith, length-take n xs)

  pub length-drop : (n : ℕ) (xs : List A) → length (drop n xs) ≡ length xs - n
  length-drop zero xs = omega arith
  length-drop (suc n) [] = omega arith
  length-drop (suc n) (x ∷ xs) = omega (arith, length-drop n xs)

  pub length-replicate : (n : ℕ) (a : A) → length (replicate n a) ≡ n
  length-replicate zero a = refl
  length-replicate (suc n) a = ap suc (length-replicate n a)

  pub take-append-drop : (n : ℕ) (xs : List A) → take n xs ++ drop n xs ≡ xs
  take-append-drop zero xs = refl
  take-append-drop (suc n) [] = refl
  take-append-drop (suc n) (x ∷ xs) = rw (take-append-drop n xs)

  pub take-nil : (n : ℕ) → take n [] ≡ []
  take-nil zero = refl
  take-nil (suc n) = refl

  pub drop-nil : (n : ℕ) → drop n [] ≡ []
  drop-nil zero = refl
  drop-nil (suc n) = refl

  pub drop-drop : (m n : ℕ) (xs : List A) → drop n (drop m xs) ≡ drop (m + n) xs
  drop-drop zero n xs = ap (λ k. drop k xs) (omega arith)
  drop-drop (suc m) n [] = drop-nil n ∙ sym (drop-nil (suc m + n))
  drop-drop (suc m) n (x ∷ xs) =
      let e : suc m + n ≡ suc (m + n) = omega arith in rw e (drop-drop m n xs)

  -- A slice that starts where a prefix ends makes the prefix longer.
  pub take-append-slice :
      (m n : ℕ) (xs : List A) → take m xs ++ take n (drop m xs) ≡ take (m + n) xs
  take-append-slice zero n xs = ap (λ k. take k xs) (omega arith)
  take-append-slice (suc m) n [] = take-nil n ∙ sym (take-nil (suc m + n))
  take-append-slice (suc m) n (x ∷ xs) =
      let e : suc m + n ≡ suc (m + n) = omega arith in rw e (ap (◌∷◌ x) (take-append-slice m n xs))

  -- A slice that is as long as the list is the list.
  pub take-all : (k : ℕ) (l : List A) → length l ≤ k → take k l ≡ l
  take-all zero [] fits = refl
  take-all (suc k) [] fits = refl
  take-all zero (a ∷ l) fits = absurd (omega arith)
  take-all (suc k) (a ∷ l) fits = rw (take-all k l (omega arith)) refl

  pub take-append-length : (xs ys : List A) → take (length xs) (xs ++ ys) ≡ xs
  take-append-length [] ys = refl
  take-append-length (x ∷ xs) ys = ap (◌∷◌ x) (take-append-length xs ys)

  pub drop-append-length : (xs ys : List A) → drop (length xs) (xs ++ ys) ≡ ys
  drop-append-length [] ys = refl
  drop-append-length (x ∷ xs) ys = drop-append-length xs ys

  pub get_elem?-drop : (m i : ℕ) (xs : List A) → get_elem? (drop m xs) i ≡ get_elem? xs (m + i)
  get_elem?-drop zero i xs = ap (get_elem? xs) (omega arith)
  get_elem?-drop (suc m) i [] = refl
  get_elem?-drop (suc m) i (x ∷ xs) =
      let e : suc m + i ≡ suc (m + i) = omega arith in rw e (get_elem?-drop m i xs)

  pub get_elem?-take :
      (n i : ℕ) (xs : List A) → suc i ≤ n → get_elem? (take n xs) i ≡ get_elem? xs i
  get_elem?-take zero i xs h = absurd (omega arith)
  get_elem?-take (suc n) i [] h = refl
  get_elem?-take (suc n) zero (x ∷ xs) h = refl
  get_elem?-take (suc n) (suc i) (x ∷ xs) h = get_elem?-take n i xs (omega arith)

  pub get_elem?-none : (i : ℕ) (xs : List A) → length xs ≤ i → get_elem? xs i ≡ none
  get_elem?-none i [] h = refl
  get_elem?-none zero (x ∷ xs) h = absurd (omega arith)
  get_elem?-none (suc i) (x ∷ xs) h = get_elem?-none i xs (omega arith)

  pub get_elem?-some :
      (i : ℕ) (xs : List A) → suc i ≤ length xs → (a : A) × (get_elem? xs i ≡ some a)
  get_elem?-some i [] h = absurd (omega arith)
  get_elem?-some zero (x ∷ xs) h = (x, refl)
  get_elem?-some (suc i) (x ∷ xs) h = get_elem?-some i xs (omega arith)

  pub get_elem?-none_mono :
      (i j : ℕ) (xs : List A) → get_elem? xs i ≡ none → i ≤ j → get_elem? xs j ≡ none
  get_elem?-none_mono i j [] h le = refl
  get_elem?-none_mono zero j (x ∷ xs) h le = absurd (cc)
  get_elem?-none_mono (suc i) zero (x ∷ xs) h le = absurd (omega arith)
  get_elem?-none_mono (suc i) (suc j) (x ∷ xs) h le = get_elem?-none_mono i j xs h (omega arith)

  pub drop-eq-cons :
      (i : ℕ) (xs : List A) {x : A} → get_elem? xs i ≡ some x → drop i xs ≡ x ∷ drop (suc i) xs
  drop-eq-cons i [] h = absurd (cc)
  drop-eq-cons zero (x ∷ xs) h = ap (λ y. y ∷ xs) (some-injective _ _ h)
  drop-eq-cons (suc i) (x ∷ xs) h = drop-eq-cons i xs h

  pub flatten-append : (xs ys : List (List A)) → flatten (xs ++ ys) ≡ flatten xs ++ flatten ys
  unfolding flatten
  flatten-append [] ys = refl
  flatten-append (x ∷ xs) ys =
      ap (◌++◌ x) (flatten-append xs ys) ∙ sym (append_assoc x (flatten xs) (flatten ys))

module _ {ℓ κ} {A : Type ℓ} {B : Type κ} where
  pub length-map : (xs : List A) (f : A → B) → length (map f xs) ≡ length xs
  length-map [] f = refl
  length-map (x ∷ xs) f = ap suc (length-map xs f)

  pub get_elem?-map :
      (f : A → B) (xs : List A) (i : ℕ) {x : A}
      → get_elem? xs i ≡ some x
      → get_elem? (map f xs) i ≡ some (f x)
  get_elem?-map f [] i h = absurd (cc)
  get_elem?-map f (y ∷ xs) zero h = ap (λ o. elim o [ none ↦ none | some z ↦ some (f z) ]) h
  get_elem?-map f (y ∷ xs) (suc i) h = get_elem?-map f xs i h

abbrev pub All {ℓ κ} : {A : Type ℓ} → (A → Type κ) → List A → Type κ
All P [] = Unit
All P (a ∷ l) = P a × All P l

pub All-weaken {ℓ κ μ} :
    {A : Type ℓ} (P : A → Type κ) (R : A → Type μ) (xs : List A)
    → ((x : A) → P x → R x)
    → All P xs
    → All R xs
All-weaken P R [] f h = tt
All-weaken P R (x ∷ xs) f (p, h) = (f x p, All-weaken P R xs f h)

pub All-concat {ℓ κ} :
    {A : Type ℓ} (P : A → Type κ) (xs ys : List A) → All P xs → All P ys → All P (xs ++ ys)
All-concat P [] ys h k = k
All-concat P (x ∷ xs) ys (p, h) k = (p, All-concat P xs ys h k)

-- `range(a, a + n)`.
abbrev pub range_from : ℕ → ℕ → List ℕ
range_from a zero = []
range_from a (suc n) = a ∷ range_from (suc a) n

abbrev pub range : ℕ → List ℕ
range n = range_from 0 n

pub length-range_from : (a n : ℕ) → length (range_from a n) ≡ n
length-range_from a zero = refl
length-range_from a (suc n) = ap suc (length-range_from (suc a) n)

pub get_elem?-range_from : (a n i : ℕ) → suc i ≤ n → get_elem? (range_from a n) i ≡ some (a + i)
get_elem?-range_from a zero i h = absurd (omega arith)
get_elem?-range_from a (suc n) zero h = ap some (omega arith)
get_elem?-range_from a (suc n) (suc i) h =
    get_elem?-range_from (suc a) n i (omega arith) ∙ ap some (omega arith)

pub get_elem?-range : (n i : ℕ) → suc i ≤ n → get_elem? (range n) i ≡ some i
get_elem?-range n i h = get_elem?-range_from 0 n i h ∙ ap some (omega arith)

abbrev pub sum : List ℕ → ℕ
sum [] = 0
sum (x ∷ xs) = x + sum xs

pub List-cases {ℓ} :
    {A : Type ℓ} (xs : List A) → (xs ≡ []) ⊎ ((x : A) × (ys : List A) × (xs ≡ x ∷ ys))
List-cases [] = inl refl
List-cases (x ∷ xs) = inr (x, xs, refl)
