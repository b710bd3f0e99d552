-- ===== src/Planner/Infos.antt =====
-- smallpond/execution/task.py, `PartitionInfo` and the properties of `Task` about partitions.
use smallpond.Prelude.{
  ℕ, Bool, true, false, not, ◌&&◌, ◌||◌, List, [], ◌∷◌, map, ltb, ◌==◌, if◌then◌else◌,
}

pub record PartitionInfo : Type 0 where
  pub index : ℕ
  pub npartitions : ℕ
  pub dimension : ℕ

-- `__eq__` and `__lt__` leave the number of partitions aside.
abbrev pub same_info : PartitionInfo → PartitionInfo → Bool
same_info a b = (a.dimension == b.dimension) && (a.index == b.index)

abbrev pub info_lt : PartitionInfo → PartitionInfo → Bool
info_lt a b = ltb a.dimension b.dimension || (a.dimension == b.dimension) && ltb a.index b.index

-- `==` and `<` of tuples of partition infos.
abbrev pub same_infos : List PartitionInfo → List PartitionInfo → Bool
same_infos [] [] = true
same_infos (a ∷ as') (b ∷ bs) = same_info a b && same_infos as' bs
same_infos _ _ = false

abbrev pub infos_lt : List PartitionInfo → List PartitionInfo → Bool
infos_lt [] [] = false
infos_lt [] (b ∷ bs) = true
infos_lt (a ∷ as') [] = false
infos_lt (a ∷ as') (b ∷ bs) = if same_info a b then infos_lt as' bs else info_lt a b

-- `sorted(partition_infos)`, which is stable.
abbrev pub insert_info : PartitionInfo → List PartitionInfo → List PartitionInfo
insert_info x [] = x ∷ []
insert_info x (y ∷ ys) = if info_lt y x then y ∷ insert_info x ys else x ∷ y ∷ ys

abbrev pub sort_infos : List PartitionInfo → List PartitionInfo
sort_infos [] = []
sort_infos (x ∷ xs) = insert_info x (sort_infos xs)

abbrev pub dimension_of : PartitionInfo → ℕ
dimension_of i = i.dimension

abbrev pub dims_of : List PartitionInfo → List ℕ
dims_of = map dimension_of

-- `d in dims`
abbrev pub has_dim : ℕ → List ℕ → Bool
has_dim d [] = false
has_dim d (e ∷ ds) = (e == d) || has_dim d ds

-- `len(dims) == len(set(dims))`
abbrev pub all_distinct : List ℕ → Bool
all_distinct [] = true
all_distinct (d ∷ ds) = not (has_dim d ds) && all_distinct ds

-- `==` of tuples of dimensions.
abbrev pub same_dims : List ℕ → List ℕ → Bool
same_dims [] [] = true
same_dims (a ∷ as') (b ∷ bs) = (a == b) && same_dims as' bs
same_dims _ _ = false

-- The partition infos of some of the dimensions.
abbrev pub infos_within : List ℕ → List PartitionInfo → List PartitionInfo
infos_within dims [] = []
infos_within dims (i ∷ is) =
    if has_dim i.dimension dims then i ∷ infos_within dims is else infos_within dims is
