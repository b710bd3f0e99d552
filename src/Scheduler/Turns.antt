-- ===== src/Scheduler/Turns.antt =====
-- Ordering the queue neither loses nor repeats a task.
use mathlib.Core.List.{Perm}
use mathlib.Core.List.Perm
use smallpond.Prelude.{
  ℕ, zero, suc, ◌+◌, ◌≤◌, ◌≡◌, ◌∙◌, refl, sym, ap, ap₂, subst, inl, inr, Bool, List, [], ◌∷◌, ◌++◌,
  append_assoc, map, flatten, Option, none, some, length, length-map, get_or, get_elem?,
  get_elem?-none_mono, drop, drop-eq-cons, range, range_from, arith, ◌==◌, either_if, Option-cases,
}
use smallpond.Common.{zip_longest, keep_some, max_length}
use smallpond.Sorts.{sort_with, sort_with-Perm, append_swap}
use smallpond.Scheduler.{Task}
use smallpond.Scheduler.Order.{
  node_of, node_lt, item_lt, add_to_run, group_runs, take_turns, order_queue,
}

add_to_run-flatten : (t : Task) (gs : List (List Task)) → flatten (add_to_run t gs) ≡ t ∷ flatten gs
unfolding flatten
add_to_run-flatten t [] = refl
add_to_run-flatten t ([] ∷ gs) = refl
add_to_run-flatten t ((u ∷ us) ∷ gs) =
    either_if (λ l. flatten l ≡ t ∷ flatten ((u ∷ us) ∷ gs)) (node_of t == node_of u)
      ((t ∷ u ∷ us) ∷ gs) ((t ∷ []) ∷ (u ∷ us) ∷ gs) refl refl

group_runs-flatten : (ts : List Task) → flatten (group_runs ts) ≡ ts
unfolding group_runs flatten
group_runs-flatten [] = refl
group_runs-flatten (t ∷ ts) =
    add_to_run-flatten t (group_runs ts) ∙ ap (◌∷◌ t) (group_runs-flatten ts)

sorts-Perm :
    (lt : Task → Task → Bool) (gs : List (List Task))
    → Perm (flatten (map (sort_with lt) gs)) (flatten gs)
unfolding flatten
sorts-Perm lt [] = Perm.refl []
sorts-Perm lt (g ∷ gs) = Perm.append (sort_with-Perm lt g) (sorts-Perm lt gs)

module _ {ℓ} {A : Type ℓ} where
  keep_some-append : (xs ys : List (Option A)) → keep_some (xs ++ ys) ≡ keep_some xs ++ keep_some ys
  unfolding keep_some
  keep_some-append [] ys = refl
  keep_some-append (none ∷ xs) ys = keep_some-append xs ys
  keep_some-append (some x ∷ xs) ys = ap (◌∷◌ x) (keep_some-append xs ys)

  keep_some-flatten :
      (f : ℕ → List (Option A)) (js : List ℕ)
      → keep_some (flatten (map f js)) ≡ flatten (map (λ j. keep_some (f j)) js)
  unfolding flatten keep_some
  keep_some-flatten f [] = refl
  keep_some-flatten f (j ∷ js) =
      keep_some-append (f j) (flatten (map f js))
      ∙ ap (◌++◌ (keep_some (f j))) (keep_some-flatten f js)

  interleave-Perm :
      (f g : ℕ → List A) (js : List ℕ)
      → Perm (flatten (map (λ j. f j ++ g j) js)) (flatten (map f js) ++ flatten (map g js))
  unfolding flatten
  interleave-Perm f g [] = Perm.refl []
  interleave-Perm f g (j ∷ js) =
      let fs = flatten (map f js) in
      let gs = flatten (map g js) in
      subst (λ l. Perm l ((f j ++ fs) ++ (g j ++ gs)))
        (sym (append_assoc (f j) (g j) (flatten (map (λ j. f j ++ g j) js))))
        (subst (Perm (f j ++ (g j ++ flatten (map (λ j. f j ++ g j) js))))
          (sym (append_assoc (f j) fs (g j ++ gs)))
          (Perm.append_left (f j) (
            Perm.trans (Perm.append_left (g j) (interleave-Perm f g js))
              (append_swap (g j) fs gs))))

  -- The item of a row in a column, and the items of all rows there.
  abbrev item_in : List A → ℕ → List A
  unfolding keep_some
  item_in xs j = keep_some (get_or (map some xs) j none ∷ [])

  abbrev column : List (List A) → ℕ → List A
  unfolding keep_some
  column gs j = keep_some (map (λ xs. get_or xs j none) (map (map some) gs))

  get_or-some : (xs : List A) (j : ℕ) → get_or (map some xs) j none ≡ get_elem? xs j
  get_or-some [] j = refl
  get_or-some (x ∷ xs) zero = refl
  get_or-some (x ∷ xs) (suc j) = get_or-some xs j

  drop-none : (j : ℕ) (xs : List A) → get_elem? xs j ≡ none → drop j xs ≡ []
  drop-none zero [] e = refl
  drop-none zero (x ∷ xs) e = absurd (cc)
  drop-none (suc j) [] e = refl
  drop-none (suc j) (x ∷ xs) e = drop-none j xs e

  drop-all : (j : ℕ) (xs : List A) → length xs ≤ j → drop j xs ≡ []
  drop-all zero [] h = refl
  drop-all zero (x ∷ xs) h = absurd (omega arith)
  drop-all (suc j) [] h = refl
  drop-all (suc j) (x ∷ xs) h = drop-all j xs (omega arith)

  row_items :
      (xs : List A) (a n : ℕ)
      → length xs ≤ a + n
      → flatten (map (item_in xs) (range_from a n)) ≡ drop a xs
  unfolding flatten keep_some item_in
  row_items xs a zero h = sym (drop-all a xs (omega arith))
  row_items xs a (suc n) h =
      let rest = row_items xs (suc a) n (omega arith) in
      elim (Option-cases (get_elem? xs a)) [
        | inl past ↦
            rw (get_or-some xs a, past)
              (rest
                ∙ drop-none (suc a) xs (get_elem?-none_mono a (suc a) xs past (omega arith))
                ∙ sym (drop-none a xs past))
        | inr (x, found) ↦
            rw (get_or-some xs a, found) (ap (◌∷◌ x) rest ∙ sym (drop-eq-cons a xs found))
      ]

  column-cons :
      (xs : List A) (gs : List (List A)) (j : ℕ) → column (xs ∷ gs) j ≡ item_in xs j ++ column gs j
  unfolding column item_in
  column-cons xs gs j =
      keep_some-append (get_or (map some xs) j none ∷ [])
        (map (λ ys. get_or ys j none) (map (map some) gs))

  no_columns : (js : List ℕ) → flatten (map (column []) js) ≡ []
  unfolding flatten column keep_some
  no_columns [] = refl
  no_columns (j ∷ js) = no_columns js

  columns-cons :
      (xs : List A) (gs : List (List A)) (js : List ℕ)
      → flatten (map (column (xs ∷ gs)) js) ≡ flatten (map (λ j. item_in xs j ++ column gs j) js)
  unfolding flatten
  columns-cons xs gs [] = refl
  columns-cons xs gs (j ∷ js) = ap₂ ◌++◌ (column-cons xs gs j) (columns-cons xs gs js)

  columns-Perm :
      (gs : List (List A)) (m : ℕ)
      → max_length (map (map some) gs) ≤ m
      → Perm (flatten (map (column gs) (range m))) (flatten gs)
  unfolding max_length flatten
  columns-Perm [] m h = subst (λ l. Perm l []) (sym (no_columns (range m))) (Perm.refl [])
  columns-Perm (xs ∷ gs) m h =
      let long : length (map some xs) ≡ length xs = length-map xs some in
      subst (λ l. Perm l (xs ++ flatten gs)) (sym (columns-cons xs gs (range m)))
        (Perm.trans (interleave-Perm (item_in xs) (column gs) (range m)) (
          Perm.append
            (subst (Perm (flatten (map (item_in xs) (range m)))) (row_items xs 0 m (omega arith))
              (Perm.refl (flatten (map (item_in xs) (range m)))))
            (columns-Perm gs m (omega arith))))

take_turns-Perm : (gs : List (List Task)) → Perm (take_turns gs) (flatten gs)
unfolding take_turns zip_longest
take_turns-Perm gs =
    let m = max_length (map (map some) gs) in
    subst (λ l. Perm l (flatten gs))
      (sym (keep_some-flatten (λ j. map (λ xs. get_or xs j none) (map (map some) gs)) (range m)))
      (columns-Perm gs m (omega arith))

-- Ordering the queue for the dispatch keeps its tasks: each of them stands in it as often as before.
pub order_queue-Perm :
    (prioritize_retry : Bool) (queue : List Task) → Perm (order_queue prioritize_retry queue) queue
unfolding order_queue
order_queue-Perm prioritize_retry queue =
    let by_node = sort_with node_lt queue in
    Perm.trans (take_turns-Perm (map (sort_with (item_lt prioritize_retry)) (group_runs by_node))) (
      Perm.trans (sorts-Perm (item_lt prioritize_retry) (group_runs by_node)) (
        subst (λ l. Perm l queue) (sym (group_runs-flatten by_node))
          (sort_with-Perm node_lt queue)))
