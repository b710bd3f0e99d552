-- ===== src/Common/Cols.antt =====
-- `split_into_cols`: column `j` holds every `npartitions`-th item, from item `j` on.
use smallpond.Prelude.{
  ℕ, zero, suc, ◌+◌, ◌-◌, ◌*◌, ◌/◌, ◌≤◌, ◌<◌, ◌≡◌, ◌≢◌, refl, sym, ap, ◌∙◌, List, [], ◌∷◌, map,
  Option, none, some, arith, length, get_elem?, get_or, take, drop, replicate, range_from, range,
  get_elem?-drop, get_elem?-take, get_elem?-none, length-take, length-map, ap₂, Option-cases, inl,
  inr, get_elem?-map, get_elem?-range, get_elem?-none_mono, length-replicate, length-range_from,
  ==_ne, ok,
}
use native.Mathlib.Nat.{div-add-mod}
use smallpond.Common.{max_length, zip_longest, keep_some, split_into_cols}

module _ {ℓ} {A : Type ℓ} where
  get_or-map-some : (xs : List A) (j : ℕ) → get_or (map some xs) j none ≡ get_elem? xs j
  get_or-map-some [] j = refl
  get_or-map-some (x ∷ xs) zero = refl
  get_or-map-some (x ∷ xs) (suc j) = get_or-map-some xs j

  get_or-replicate : (n j : ℕ) (a : A) → get_or (replicate n a) j a ≡ a
  get_or-replicate zero j a = refl
  get_or-replicate (suc n) zero a = refl
  get_or-replicate (suc n) (suc j) a = get_or-replicate n j a

module _ {ℓ} {A : Type ℓ} where
  -- What is kept of a sequence that has no item behind a missing one.
  keep_some-none :
      (f : ℕ → Option A) (a n : ℕ)
      → ((c : ℕ) → f c ≡ none → f (suc c) ≡ none)
      → f a ≡ none
      → keep_some (map f (range_from a n)) ≡ []
  unfolding keep_some
  keep_some-none f a zero closed h = refl
  keep_some-none f a (suc n) closed h = rw h (keep_some-none f (suc a) n closed (closed a h))

  none_above :
      (f : ℕ → Option A) (a i : ℕ)
      → ((c : ℕ) → f c ≡ none → f (suc c) ≡ none)
      → f a ≡ none
      → f (a + i) ≡ none
  none_above f a zero closed h = let e : a + 0 ≡ a = omega arith in rw e h
  none_above f a (suc i) closed h =
      let e : a + suc i ≡ suc a + i = omega arith in
      rw e (none_above f (suc a) i closed (closed a h))

  get_elem?-keep_some :
      (f : ℕ → Option A) (a n i : ℕ)
      → ((c : ℕ) → f c ≡ none → f (suc c) ≡ none)
      → f (a + n) ≡ none
      → get_elem? (keep_some (map f (range_from a n))) i ≡ f (a + i)
  unfolding keep_some
  get_elem?-keep_some f a zero i closed h =
      let e : a + 0 ≡ a = omega arith in sym (none_above f a i closed (rw e at h))
  get_elem?-keep_some f a (suc n) i closed h = elim (Option-cases (f a)) [
    | inl e ↦
        rw (e, keep_some-none f (suc a) n closed (closed a e)) (sym (none_above f a i closed e))
    | inr (x, e) ↦ rw e (
        get_elem?-cons x (keep_some (map f (range_from (suc a) n))) i (λ k. f (a + k))
          (let e' : a + 0 ≡ a = omega arith in rw e' e)
          (λ k.
            let e' : a + suc n ≡ suc a + n = omega arith in
            let e'' : a + suc k ≡ suc a + k = omega arith in
            rw e'' (get_elem?-keep_some f (suc a) n k closed (rw e' at h))))
  ]
    where
      get_elem?-cons :
          (x : A) (xs : List A) (j : ℕ) (g : ℕ → Option A)
          → g 0 ≡ some x
          → ((k : ℕ) → get_elem? xs k ≡ g (suc k))
          → get_elem? (x ∷ xs) j ≡ g j
      get_elem?-cons x xs zero g e0 es = sym e0
      get_elem?-cons x xs (suc j) g e0 es = es j

  max_length-chunks :
      (n : ℕ) (f : ℕ → List A) (cs : List ℕ)
      → max_length (map (map some) (map (λ c. take n (f c)) cs)) ≤ n
  unfolding max_length
  max_length-chunks n f [] = omega arith
  max_length-chunks n f (c ∷ cs) =
      omega (arith, length-map (take n (f c)) some, length-take n (f c), max_length-chunks n f cs)

  -- Column `j` before the padding is dropped.
  column :
      (n j : ℕ) (items : List A) (cs : List ℕ)
      → j < n
      → map (λ xs. get_or xs j none) (map (map some) (map (λ c. take n (drop (c * n) items)) cs))
        ≡ map (λ c. get_elem? items (c * n + j)) cs
  column n j items [] h = refl
  column n j items (c ∷ cs) h =
      ap₂ ◌∷◌
        (get_or-map-some (take n (drop (c * n) items)) j
          ∙ get_elem?-take n j (drop (c * n) items) h
          ∙ get_elem?-drop (c * n) j items)
        (column n j items cs h)

  -- For a positive number of partitions there are that many columns, and item `i` of column `j`
  -- is item `i * npartitions + j` of the list, or both are missing.
  pub split_into_cols-strided :
      (items : List A) (npartitions : ℕ)
      → 0 ≢ npartitions
      → (cols : List (List A)) × (split_into_cols items npartitions ≡ ok cols)
        × (length cols ≡ npartitions)
        × ((j : ℕ)
            → j < npartitions
            → (col : List A) × (get_elem? cols j ≡ some col)
              × ((i : ℕ) → get_elem? col i ≡ get_elem? items (i * npartitions + j)))
  unfolding split_into_cols max_length
  split_into_cols-strided items n h =
      let k = (length items + n - 1) / n in
      let rows = map (λ c. take n (drop (c * n) items)) (range k) in
      let padded = replicate n none ∷ map (map some) rows in
      let pad : length (replicate {A = Option A} n none) ≡ n = length-replicate n none in
      let width : max_length padded ≡ n =
        omega (arith, pad, max_length-chunks n (λ c. drop (c * n) items) (range k)) in
      let past : length items ≤ k * n = omega (arith, div-add-mod (length items + n - 1) n) in
      (
        map keep_some (zip_longest none padded),
        rw (==_ne n 0 (omega arith)) refl,
        length-map (zip_longest none padded) keep_some
            ∙ length-map (range (max_length padded)) (λ j. map (λ xs. get_or xs j none) padded)
            ∙ length-range_from 0 (max_length padded)
            ∙ width,
        λ j j_lt. (
          keep_some (map (λ c. get_elem? items (c * n + j)) (range k)),
          get_elem?-map keep_some (zip_longest none padded) j (
                get_elem?-map (λ i. map (λ xs. get_or xs i none) padded) (range (max_length padded))
                  j (get_elem?-range (max_length padded) j (omega arith)))
              ∙ ap some (
                  rw (get_or-replicate {A = Option A} n j none)
                    (ap keep_some (column n j items (range k) j_lt))),
          λ i.
              get_elem?-keep_some (λ c. get_elem? items (c * n + j)) 0 k i
                (λ c miss. get_elem?-none_mono (c * n + j) (suc c * n + j) items miss (omega arith))
                (get_elem?-none ((0 + k) * n + j) items (omega arith))
              ∙ ap (λ t. get_elem? items (t * n + j)) (omega arith),
        ),
      )
