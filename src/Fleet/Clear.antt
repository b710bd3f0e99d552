-- ===== src/Fleet/Clear.antt =====
-- What `clear_cached_executor_lists` leaves in the cache, whatever was there.
use smallpond.Prelude.{◌≡◌, refl, Bool, true, false, ◌||◌, inl, inr, List, [], ◌∷◌, Bool-cases}
use smallpond.Fleet.{
  ListName, remote_executors, local_executors, working_executors, alive_executors, good_executors,
  failed_executors, stopped_executors, stopping_executors, low_resource_executors, same_list, Fleet,
  read, drop_list, drop_lists, later_lists, clear_cached_executor_lists,
}
use smallpond.Fleet.Coherent.{IsFresh, IsCoherent, read-Reads, dropped-IsFresh, drop_list-IsFresh}

abbrev is_in : ListName → List ListName → Bool
is_in n [] = false
is_in n (m ∷ ms) = same_list n m || is_in n ms

module _ {Q : Type 0} where
  drop_lists-kept :
      (names : List ListName) (f : Fleet Q) (n : ListName)
      → IsFresh f remote_executors
      → IsFresh f n
      → IsFresh (drop_lists names f) n
  unfolding drop_lists
  drop_lists-kept [] f n remote h = h
  drop_lists-kept (name ∷ names) f n remote h =
      drop_lists-kept names (drop_list name f) n
        (drop_list-IsFresh name remote_executors f remote remote)
        (drop_list-IsFresh name n f remote h)

  drop_lists-made :
      (names : List ListName) (f : Fleet Q) (n : ListName)
      → IsFresh f remote_executors
      → is_in n names ≡ true
      → IsFresh (drop_lists names f) n
  unfolding drop_lists
  drop_lists-made [] f n remote h = absurd (cc)
  drop_lists-made (name ∷ names) f n remote h =
      let remote' = drop_list-IsFresh name remote_executors f remote remote in
      elim (Bool-cases (same_list n name)) [
        | inl same ↦
            drop_lists-kept names (drop_list name f) n remote' (dropped-IsFresh name n f same)
        | inr other ↦ drop_lists-made names (drop_list name f) n remote' (rw other at h)
      ]

  clear-later :
      (f : Fleet Q) (n : ListName)
      → is_in n later_lists ≡ true
      → IsFresh (clear_cached_executor_lists f) n
  unfolding clear_cached_executor_lists
  clear-later f n h =
      drop_lists-made later_lists (drop_list remote_executors f) n
        (dropped-IsFresh remote_executors remote_executors f refl) h

  clear-remote : (f : Fleet Q) → IsFresh (clear_cached_executor_lists f) remote_executors
  unfolding clear_cached_executor_lists
  clear-remote f =
      let fresh = dropped-IsFresh remote_executors remote_executors f refl in
      drop_lists-kept later_lists (drop_list remote_executors f) remote_executors fresh fresh

  pub clear-IsCoherent : (f : Fleet Q) → IsCoherent (clear_cached_executor_lists f)
  clear-IsCoherent f remote_executors = clear-remote f
  clear-IsCoherent f local_executors = clear-later f local_executors refl
  clear-IsCoherent f working_executors = clear-later f working_executors refl
  clear-IsCoherent f alive_executors = clear-later f alive_executors refl
  clear-IsCoherent f good_executors = clear-later f good_executors refl
  clear-IsCoherent f failed_executors = clear-later f failed_executors refl
  clear-IsCoherent f stopped_executors = clear-later f stopped_executors refl
  clear-IsCoherent f stopping_executors = clear-later f stopping_executors refl
  clear-IsCoherent f low_resource_executors = clear-later f low_resource_executors refl

  pub read-IsCoherent : (name : ListName) (f : Fleet Q) → IsCoherent f → IsCoherent (read name f).1
  read-IsCoherent name f h n = (read-Reads name f (h remote_executors)).keeps n (h n)
