-- ===== src/DataSets/Sets.antt =====
-- The class `DataSet`: how its paths are resolved, and how it is cut into sets of files.
-- `functools.lru_cache` is left out.
use Prim.Native.String.{String}
use smallpond.Prelude.{
  ℕ, Bool, true, false, not, ◌||◌, List, [], ◌∷◌, ◌++◌, map, flatten, length, replicate, Option,
  none, some, ltb, ◌==◌, if◌then◌else◌, Result, ok, raise, ◌>>=◌, ◌>>◌, guard, assertion_error,
  index_error,
}
use smallpond.Common.{ArraySplit, split_into_rows}
use smallpond.DataSets.Paths.{has_magic, join, sorted, filter}

-- What the code asks the file system and Arrow: `os.path.abspath`, `glob.glob` and the metadata of
-- a Parquet file, the number of rows and the sizes of the row groups.
pub record Files : Type 0 where
  pub abspath : String → String
  pub glob : String → Bool → List String
  pub metadata_num_rows : String → ℕ
  pub row_group_sizes : String → List ℕ

pub record DataSet : Type 0 where
  pub paths : List String
  pub root_dir : Option String
  pub recursive : Bool
  pub columns : Option (List String)
  pub union_flag : Bool
  pub cached_paths : Option (List String)
  pub cached_absolute : Option (List String)
  pub cached_num_rows : Option ℕ

abbrev pub is_some {ℓ} : {A : Type ℓ} → Option A → Bool
is_some none = false
is_some (some a) = true

abbrev pub or_empty {ℓ} : {A : Type ℓ} → Option (List A) → List A
or_empty none = []
or_empty (some xs) = xs

abbrev pub is_empty {ℓ} : {A : Type ℓ} → List A → Bool
is_empty [] = true
is_empty (x ∷ xs) = false

abbrev pub union_by_name : DataSet → Bool
union_by_name d = d.union_flag || is_some d.columns

-- The default `root_dir` is the empty text.
abbrev pub default_root : Option String
default_root = some ""

unfoldable pub any_match : Files → String → Bool → List String → Bool
unfolding has_magic join
any_match files root recursive [] = false
any_match files root recursive (p ∷ ps) =
    if has_magic p
    then (if is_empty (files.glob (join root p) recursive)
        then any_match files root recursive ps
        else true)
    else true

abbrev pub text_or_empty : Option String → String
text_or_empty none = ""
text_or_empty (some s) = s

unfoldable pub under_root : Option String → List String → List String
unfolding join
under_root none ps = ps
under_root (some root) ps = map (join root) ps

abbrev pub expand : Files → Bool → List String → List (List String)
expand files recursive = map (λ p. files.glob p recursive)

-- `file_partitions[i].reset(paths, None)` for each group of paths.
abbrev pub reset_each :
    (List String → DataSet → DataSet) → List (List String) → List DataSet → Result (List DataSet)
reset_each reset_one [] ds = ok ds
reset_each reset_one (ps ∷ pss) [] = raise index_error
reset_each reset_one (ps ∷ pss) (d ∷ ds) =
    reset_each reset_one pss ds >>= λ rest. ok (reset_one ps d ∷ rest)

module _ (files : Files) where
  abbrev pub absolute_root : Option String → Option String
  absolute_root none = none
  absolute_root (some root) = some (files.abspath root)

  unfoldable pub init : List String → Option String → Bool → Option (List String) → Bool → DataSet
  init paths root_dir recursive columns union_flag = record {
    paths = paths;
    root_dir = absolute_root root_dir;
    recursive = recursive;
    columns = columns;
    union_flag = union_flag;
    cached_paths = none;
    cached_absolute = none;
    cached_num_rows = none;
  }

  unfoldable pub reset : Option (List String) → Option String → Option Bool → DataSet → DataSet
  reset paths root_dir recursive d = record d {
    paths = or_empty paths;
    root_dir = absolute_root root_dir;
    recursive = elim recursive [ none ↦ d.recursive | some r ↦ r ];
    cached_paths = none;
    cached_absolute = none;
    cached_num_rows = none;
  }

  unfoldable pub absolute_paths : DataSet → List String × DataSet
  unfolding sorted under_root
  absolute_paths d = elim d.cached_absolute [
    | some ps ↦ (ps, d)
    | none ↦
        let ps = under_root d.root_dir (sorted d.paths) in
        (ps, record d { cached_absolute = some ps })
  ]

  unfoldable pub resolved_paths : DataSet → List String × DataSet
  unfolding absolute_paths has_magic sorted flatten
  resolved_paths d = elim d.cached_paths [
    | some ps ↦ (ps, d)
    | none ↦
        let (all, d1) = absolute_paths d in
        let wildcard_paths = filter has_magic all in
        let plain = filter (λ p. not (has_magic p)) all in
        let ps = sorted (plain ++ flatten (expand files d.recursive wildcard_paths)) in
        (ps, record d1 { cached_paths = some ps })
  ]

  unfoldable pub num_files : DataSet → ℕ × DataSet
  unfolding resolved_paths
  num_files d = let (ps, d1) = resolved_paths d in (length ps, d1)

  unfoldable pub empty : DataSet → Bool
  unfolding any_match
  empty d = elim d.cached_paths [
    | some ps ↦ length ps == 0
    | none ↦ not (any_match files (text_or_empty d.root_dir) d.recursive d.paths)
  ]

  unfoldable pub init_file_partitions : ℕ → DataSet → List DataSet
  unfolding reset
  init_file_partitions npartition d = replicate npartition (reset none default_root none d)

  module _ (array_split : ArraySplit) (sample_paths : List String → List String)
      (sample_sets : List DataSet → List DataSet) where
    -- The functions `sample` stand for `random.sample(xs, len(xs))`.
    unfoldable pub partition_by_files : ℕ → Bool → DataSet → Result (List DataSet × DataSet)
    unfolding resolved_paths split_into_rows init_file_partitions reset
    partition_by_files npartition random_shuffle d = do
      guard (ltb 0 npartition) assertion_error
      let (ps, d1) = resolved_paths d
      groups ←
          split_into_rows array_split (if random_shuffle then sample_paths ps else ps) npartition
      parts ←
          reset_each (λ ps. reset (some ps) none none) groups (init_file_partitions npartition d1)
      ok (if random_shuffle then sample_sets parts else parts, d1)
