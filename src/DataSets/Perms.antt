-- ===== src/DataSets/Perms.antt =====
-- Lists in another order: what the exchange of two items, a sort and a split by a test keep.
use mathlib.Core.List.{Perm, perm_middle}
use mathlib.Core.List.Perm
use smallpond.Prelude.{ℕ, zero, suc, Bool, not, inl, inr, List, [], ◌∷◌, ◌++◌, Bool-cases}
use smallpond.DataSets.Paths.{filter}
use smallpond.DataSets.Query.{exchange, swap_first}

module _ {ℓ} {A : Type ℓ} where
  exchange-Perm :
      (x : A) (i : ℕ) (xs : List A) → Perm ((exchange x i xs).0 ∷ (exchange x i xs).1) (x ∷ xs)
  exchange-Perm x i [] = Perm.refl (x ∷ [])
  exchange-Perm x zero (y ∷ ys) = Perm.swap x y ys
  exchange-Perm x (suc i) (y ∷ ys) =
      Perm.trans (Perm.swap y (exchange x i ys).0 (exchange x i ys).1)
        (Perm.trans (Perm.cons y (exchange-Perm x i ys)) (Perm.swap x y ys))

  pub swap_first-Perm : (i : ℕ) (xs : List A) → Perm (swap_first i xs) xs
  swap_first-Perm zero xs = Perm.refl xs
  swap_first-Perm (suc i) [] = Perm.refl []
  swap_first-Perm (suc i) (x ∷ xs) = exchange-Perm x i xs

  pub split-Perm :
      (p : A → Bool) (xs : List A) → Perm (filter p xs ++ filter (λ x. not (p x)) xs) xs
  split-Perm p [] = Perm.refl []
  split-Perm p (x ∷ xs) = elim (Bool-cases (p x)) [
    | inl holds ↦ rw holds (Perm.cons x (split-Perm p xs))
    | inr fails ↦ rw fails (
        Perm.trans (perm_middle (filter p xs) (filter (λ y. not (p y)) xs))
          (Perm.cons x (split-Perm p xs)))
  ]
