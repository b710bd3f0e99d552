-- ===== src/Sorts.antt =====
-- `sorted`, which is stable, and lists in another order.
use mathlib.Core.List.{Perm, Permᴰ, Perm-prop, perm_append_comm}
use mathlib.Core.List.Perm
use mathlib.Core.Logic.{∥∥₁_elim}
use smallpond.Prelude.{
  subst, Bool, List, [], ◌∷◌, ◌++◌, map, flatten, append_assoc, either_if, if◌then◌else◌,
}

module _ {ℓ} {A : Type ℓ} where
  abbrev pub insert_with : (A → A → Bool) → A → List A → List A
  insert_with lt x [] = x ∷ []
  insert_with lt x (y ∷ ys) = if lt y x then y ∷ insert_with lt x ys else x ∷ y ∷ ys

  -- `lt` is `<` of the keys.
  unfoldable pub sort_with : (A → A → Bool) → List A → List A
  sort_with lt [] = []
  sort_with lt (x ∷ xs) = insert_with lt x (sort_with lt xs)

  pub append_swap : (xs ys zs : List A) → Perm (xs ++ (ys ++ zs)) (ys ++ (xs ++ zs))
  append_swap xs ys zs =
      subst (λ l. Perm l (ys ++ (xs ++ zs))) (append_assoc xs ys zs)
        (subst (Perm ((xs ++ ys) ++ zs)) (append_assoc ys xs zs)
          (Perm.append_right zs (perm_append_comm xs ys)))

  insert_with-Perm : (lt : A → A → Bool) (x : A) (xs : List A) → Perm (insert_with lt x xs) (x ∷ xs)
  insert_with-Perm lt x [] = Perm.refl (x ∷ [])
  insert_with-Perm lt x (y ∷ ys) =
      either_if (λ l. Perm l (x ∷ y ∷ ys)) (lt y x) (y ∷ insert_with lt x ys) (x ∷ y ∷ ys)
        (Perm.trans (Perm.cons y (insert_with-Perm lt x ys)) (Perm.swap x y ys))
        (Perm.refl (x ∷ y ∷ ys))

  pub sort_with-Perm : (lt : A → A → Bool) (xs : List A) → Perm (sort_with lt xs) xs
  unfolding sort_with
  sort_with-Perm lt [] = Perm.refl []
  sort_with-Perm lt (x ∷ xs) =
      Perm.trans (insert_with-Perm lt x (sort_with lt xs)) (Perm.cons x (sort_with-Perm lt xs))

module _ {ℓ κ} {A : Type ℓ} {B : Type κ} (f : A → List B) where
  flatten-Permᴰ : {xs ys : List A} → Permᴰ xs ys → Perm (flatten (map f xs)) (flatten (map f ys))
  unfolding flatten
  flatten-Permᴰ Permᴰ.nil = Perm.refl []
  flatten-Permᴰ (Permᴰ.cons {a = a} {b = b} {l₁ = l₁} {l₂ = l₂} e d) =
      subst (λ c. Perm (f a ++ flatten (map f l₁)) (f c ++ flatten (map f l₂))) e
        (Perm.append_left (f a) (flatten-Permᴰ d))
  flatten-Permᴰ (Permᴰ.swap {a = a} {b = b} {a' = a'} {b' = b'} {l = l} e e') =
      subst (λ c. Perm (f a ++ (f b ++ flatten (map f l))) (f c ++ (f b' ++ flatten (map f l)))) e'
        (subst (λ c. Perm (f a ++ (f b ++ flatten (map f l))) (f b ++ (f c ++ flatten (map f l)))) e
          (append_swap (f a) (f b) (flatten (map f l))))
  flatten-Permᴰ (Permᴰ.trans d d') = Perm.trans (flatten-Permᴰ d) (flatten-Permᴰ d')

  pub flatten-Perm : {xs ys : List A} → Perm xs ys → Perm (flatten (map f xs)) (flatten (map f ys))
  flatten-Perm p = ∥∥₁_elim p Perm-prop flatten-Permᴰ
