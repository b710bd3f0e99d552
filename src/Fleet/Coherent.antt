-- ===== src/Fleet/Coherent.antt =====
-- The cached lists of executors are the lists of the present executors and their states.
use mathlib.Core.Option.{some-injective, none-ne-some}
use smallpond.Prelude.{
  ℕ, ◌≡◌, refl, sym, ap, ◌∙◌, true, inl, inr, List, some, arith, Bool-cases, Option-cases, ◌==◌,
  if◌then◌else◌,
}
use smallpond.Fleet.{
  ListName, remote_executors, local_executors, working_executors, alive_executors, good_executors,
  failed_executors, stopped_executors, stopping_executors, low_resource_executors, index_of,
  same_list, Member, Fleet, remote_ids, local_ids, is_selected, keep_ids, store, read_own,
  read_state, read, drop_list,
}

-- The list number `k`.
abbrev list_of : ℕ → ListName
list_of k =
    if k == 0
    then remote_executors
    else if k == 1
    then local_executors
    else if k == 2
    then working_executors
    else if k == 3
    then alive_executors
    else if k == 4
    then good_executors
    else if k == 5
    then failed_executors
    else if k == 6
    then stopped_executors
    else if k == 7
    then stopping_executors
    else low_resource_executors

list_of-index_of : (n : ListName) → list_of (index_of n) ≡ n
list_of-index_of remote_executors = refl
list_of-index_of local_executors = refl
list_of-index_of working_executors = refl
list_of-index_of alive_executors = refl
list_of-index_of good_executors = refl
list_of-index_of failed_executors = refl
list_of-index_of stopped_executors = refl
list_of-index_of stopping_executors = refl
list_of-index_of low_resource_executors = refl

same_list-≡ : (m n : ListName) → same_list m n ≡ true → m ≡ n
same_list-≡ m n e =
    let same : index_of m ≡ index_of n = ground arith in
    sym (list_of-index_of m) ∙ ap list_of same ∙ list_of-index_of n

module _ {Q : Type 0} where
  -- The list of that name, computed from the executors.
  abbrev pub listed : ListName → List (Member Q) → List ℕ
  listed remote_executors ms = remote_ids ms
  listed local_executors ms = local_ids ms
  listed name ms = keep_ids (is_selected name ms) (remote_ids ms)

  abbrev pub IsFresh : Fleet Q → ListName → Type 0
  IsFresh f n = (ids : List ℕ) → f.cached n ≡ some ids → ids ≡ listed n f.available

  abbrev pub IsCoherent : Fleet Q → Type 0
  IsCoherent f = (n : ListName) → IsFresh f n

  -- What reading a property does.
  pub record Reads (name : ListName) (f : Fleet Q) (r : List ℕ × Fleet Q) : Type 0 where
    pub value : IsFresh f name → r.0 ≡ listed name f.available
    pub keeps : (n : ListName) → IsFresh f n → IsFresh r.1 n
    pub same : r.1.available ≡ f.available

  stored-IsFresh :
      (name n : ListName) (ids : List ℕ) (f : Fleet Q)
      → ids ≡ listed name f.available
      → IsFresh f n
      → IsFresh (store name ids f).1 n
  stored-IsFresh name n ids f right before l e = elim (Bool-cases (same_list n name)) [
    | inl same ↦
        some-injective l ids (sym e ∙ (rw same refl))
        ∙ right
        ∙ ap (λ k. listed k f.available) (sym (same_list-≡ n name same))
    | inr other ↦ before l (rw other at e)
  ]

  read_own-Reads :
      (name : ListName) (ids : List (Member Q) → List ℕ) (f : Fleet Q)
      → ids f.available ≡ listed name f.available
      → Reads name f (read_own name ids f)
  read_own-Reads name ids f right = elim (Option-cases (f.cached name)) [
    | inl missing ↦
        rw (missing, read_own)
          (record {
            value = λ h. right;
            keeps = λ n h. stored-IsFresh name n (ids f.available) f right h;
            same = refl;
          })
    | inr (l, there) ↦
        rw (there, read_own) (record { value = λ h. h l there; keeps = λ n h. h; same = refl })
  ]

  read_state-Reads :
      (name : ListName) (f : Fleet Q)
      → keep_ids (is_selected name f.available) (remote_ids f.available) ≡ listed name f.available
      → IsFresh f remote_executors
      → Reads name f (read_state name f)
  read_state-Reads name f right remote = elim (Option-cases (f.cached name)) [
    | inr (l, there) ↦
        rw (there, read_state) (record { value = λ h. h l there; keeps = λ n h. h; same = refl })
    | inl missing ↦ elim (Option-cases (f.cached remote_executors)) [
      | inl none_there ↦
          rw (missing, none_there, read_state, read_own)
            (record {
              value = λ h. right;
              keeps = λ n h.
                  stored-IsFresh name n _ (store remote_executors (remote_ids f.available) f).1
                    right (stored-IsFresh remote_executors n (remote_ids f.available) f refl h);
              same = refl;
            })
      | inr (l, there) ↦
          let from : keep_ids (is_selected name f.available) l ≡ listed name f.available =
            ap (keep_ids (is_selected name f.available)) (remote l there) ∙ right in
          rw (missing, there, read_state, read_own)
            (record {
              value = λ h. from;
              keeps = λ n h. stored-IsFresh name n _ f from h;
              same = refl;
            })
    ]
  ]

  pub read-Reads :
      (name : ListName) (f : Fleet Q) → IsFresh f remote_executors → Reads name f (read name f)
  unfolding read
  read-Reads remote_executors f h = read_own-Reads remote_executors remote_ids f refl
  read-Reads local_executors f h = read_own-Reads local_executors local_ids f refl
  read-Reads working_executors f h = read_state-Reads working_executors f refl h
  read-Reads alive_executors f h = read_state-Reads alive_executors f refl h
  read-Reads good_executors f h = read_state-Reads good_executors f refl h
  read-Reads failed_executors f h = read_state-Reads failed_executors f refl h
  read-Reads stopped_executors f h = read_state-Reads stopped_executors f refl h
  read-Reads stopping_executors f h = read_state-Reads stopping_executors f refl h
  read-Reads low_resource_executors f h = read_state-Reads low_resource_executors f refl h

  pub dropped-IsFresh :
      (name n : ListName) (f : Fleet Q) → same_list n name ≡ true → IsFresh (drop_list name f) n
  unfolding drop_list
  dropped-IsFresh name n f same l e = absurd (none-ne-some l (rw same at e))

  pub drop_list-IsFresh :
      (name n : ListName) (f : Fleet Q)
      → IsFresh f remote_executors
      → IsFresh f n
      → IsFresh (drop_list name f) n
  unfolding drop_list
  drop_list-IsFresh name n f remote h l e = elim (Bool-cases (same_list n name)) [
    | inl same ↦ dropped-IsFresh name n f same l e
    | inr other ↦ (read-Reads name f remote).keeps n h l (rw other at e)
  ]
