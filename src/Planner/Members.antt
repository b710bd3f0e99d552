-- ===== src/Planner/Members.antt =====
-- What holds of all tasks given to the planner's helpers on lists holds of the tasks they return.
use smallpond.Prelude.{
  of_option-some, All-concat, ℕ, ◌+◌, ◌≡◌, ap, subst, zero, suc, ok-injective, List, [], ◌∷◌, ◌++◌,
  map, flatten, Option, none, some, length, get_elem?, All, if◌then◌else◌, either_if, Result, ok,
  of_option, map_result, bind-ok, index_error, assertion_error,
}
use smallpond.Common.{ArraySplit, split_into_rows}
use smallpond.Planner.Infos.{PartitionInfo, same_infos, infos_within}
use smallpond.Planner.Tasks.{PlanTask, enumerate_from}
use smallpond.Planner.Build.{
  Groups, add_to_group, group_into, SortKey, sort_key, sort_key_lt, most_ndims, find_last,
  match_input, partition_dims,
}

module _ {ℓ κ} {A : Type ℓ} (P : A → Type κ) where
  pub All-flatten : (xss : List (List A)) → All (All P) xss → All P (flatten xss)
  unfolding flatten
  All-flatten [] h = h
  All-flatten (xs ∷ xss) (p, h) = All-concat P xs (flatten xss) p (All-flatten xss h)

  All-get_elem? : (xs : List A) (i : ℕ) (x : A) → All P xs → get_elem? xs i ≡ some x → P x
  All-get_elem? [] i x h e = absurd (cc)
  All-get_elem? (y ∷ xs) zero x (p, h) e = subst P (ap (λ o. elim o [ none ↦ y | some z ↦ z ]) e) p
  All-get_elem? (y ∷ xs) (suc i) x (p, h) e = All-get_elem? xs i x h e

  pub All-always : (xs : List A) → ((x : A) → P x) → All P xs
  All-always [] h = tt
  All-always (x ∷ xs) h = (h x, All-always xs h)

All-map_result {ℓ κ μ} :
    {A : Type ℓ} {B : Type κ} (P : B → Type μ) (f : A → Result B) (xs : List A) (ys : List B)
    → ((x : A) (y : B) → f x ≡ ok y → P y)
    → map_result f xs ≡ ok ys
    → All P ys
All-map_result P f [] ys h e = subst (All P) (ok-injective e) tt
All-map_result P f (x ∷ xs) ys h e =
    let (y, ey, e1) = bind-ok (f x) _ ys e in
    let (zs, ez, e2) = bind-ok (map_result f xs) _ ys e1 in
    subst (All P) (ok-injective e2) (h x y ey, All-map_result P f xs zs h ez)

pub split_into_rows-All {ℓ κ} :
    {A : Type ℓ} (P : A → Type κ) (array_split : ArraySplit) (xs : List A) (n : ℕ)
    (rows : List (List A))
    → All P xs
    → split_into_rows array_split xs n ≡ ok rows
    → All (All P) rows
unfolding split_into_rows
split_into_rows-All P array_split xs n rows h e =
    let (idxs, _, e1) = bind-ok (array_split (length xs) n) _ rows e in
    All-map_result (All P) (map_result (λ i. of_option index_error (get_elem? xs i))) idxs rows
      (λ is row e2.
        All-map_result P (λ i. of_option index_error (get_elem? xs i)) is row
          (λ i x e3. All-get_elem? P xs i x h (of_option-some index_error (get_elem? xs i) x e3))
          e2)
      e1

pub All-enumerate_from {ℓ κ} :
    {A : Type ℓ} (P : A → Type κ) (n : ℕ) (xs : List A)
    → All P xs
    → All (λ (e : ℕ × A). P e.1) (enumerate_from n xs)
All-enumerate_from P n [] h = tt
All-enumerate_from P n (x ∷ xs) (p, h) = (p, All-enumerate_from P (n + 1) xs h)

pub All-map {ℓ κ μ} :
    {A : Type ℓ} {B : Type κ} (P : B → Type μ) (f : A → B) (xs : List A)
    → All (λ x. P (f x)) xs
    → All P (map f xs)
All-map P f [] h = tt
All-map P f (x ∷ xs) (p, h) = (p, All-map P f xs h)

module _ (P : PlanTask → Type 0) where
  abbrev pub AllGrouped : Groups → Type 0
  AllGrouped gs = All (λ (g : List PartitionInfo × List PlanTask). All P g.1) gs

  add_to_group-All :
      (infos : List PartitionInfo) (t : PlanTask) (gs : Groups)
      → P t
      → AllGrouped gs
      → AllGrouped (add_to_group infos t gs)
  add_to_group-All infos t [] p h = ((p, tt), tt)
  add_to_group-All infos t ((key, ts) ∷ gs) p (q, h) =
      either_if AllGrouped (same_infos key infos) ((key, ts ++ t ∷ []) ∷ gs)
        ((key, ts) ∷ add_to_group infos t gs) (All-concat P ts (t ∷ []) q (p, tt), h)
        (q, add_to_group-All infos t gs p h)

  pub group_into-All :
      (dims : List ℕ) (gs : Groups) (ts : List PlanTask)
      → AllGrouped gs
      → All P ts
      → AllGrouped (group_into dims gs ts)
  group_into-All dims gs [] h k = h
  group_into-All dims gs (t ∷ ts) h (p, k) =
      group_into-All dims (add_to_group (infos_within dims t.partition_infos) t gs) ts
        (add_to_group-All (infos_within dims t.partition_infos) t gs p h) k

  pub most_ndims-All :
      (key : SortKey) (best : List PlanTask) (gs : List (List PlanTask)) (ts : List PlanTask)
      → All P best
      → All (All P) gs
      → most_ndims key best gs ≡ ok ts
      → All P ts
  most_ndims-All key best [] ts h k e = subst (All P) (ok-injective e) h
  most_ndims-All key best (g ∷ gs) ts h (p, k) e =
      let (k', _, e1) = bind-ok (sort_key g) _ ts e in
      most_ndims-All (if sort_key_lt key k' then k' else key)
        (if sort_key_lt key k' then g else best) gs ts
        (either_if (All P) (sort_key_lt key k') g best p h) k e1

  unfoldable Found : Option PlanTask → Type 0
  Found none = Unit
  Found (some u) = P u

  first-Found :
      (o d : Option PlanTask) → Found o → Found d → Found (elim o [ some u ↦ some u | none ↦ d ])
  unfolding Found
  first-Found none d h k = k
  first-Found (some u) d h k = h

  find_last-Found :
      (infos : List PartitionInfo) (ts : List PlanTask) → All P ts → Found (find_last infos ts)
  unfolding Found
  find_last-Found infos [] h = tt
  find_last-Found infos (t ∷ ts) (p, h) =
      first-Found (find_last infos ts) (if same_infos t.partition_infos infos then some t else none)
        (find_last-Found infos ts h)
        (either_if Found (same_infos t.partition_infos infos) (some t) none p tt)

  find_last-All :
      (infos : List PartitionInfo) (ts : List PlanTask) (u : PlanTask)
      → All P ts
      → find_last infos ts ≡ some u
      → P u
  unfolding Found
  find_last-All infos ts u h e = subst Found e (find_last-Found infos ts h)

  pub match_input-All :
      (main : PlanTask) (groups : List (List PlanTask)) (ts : List PlanTask)
      → All (All P) groups
      → match_input main groups ≡ ok ts
      → All P ts
  unfolding match_input
  match_input-All main [] ts h e = subst (All P) (ok-injective e) tt
  match_input-All main ([] ∷ groups) ts h e = absurd (cc)
  match_input-All main ((t ∷ rest) ∷ groups) ts (p, h) e =
      let (u, eu, e1) =
        bind-ok
          (of_option assertion_error
            (find_last (infos_within (partition_dims t) main.partition_infos) (t ∷ rest)))
          _ ts e in
      let (us, eus, e2) = bind-ok (match_input main groups) _ ts e1 in
      subst (All P) (ok-injective e2) (
        find_last-All (infos_within (partition_dims t) main.partition_infos) (t ∷ rest) u p
            (of_option-some assertion_error _ u eu),
        match_input-All main groups us h eus,
      )
