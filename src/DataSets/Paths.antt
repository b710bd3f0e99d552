-- ===== src/DataSets/Paths.antt =====
-- Paths as texts: the patterns, `os.path.join` and `sorted`.
use Prim.Native.Nat.{Ordering}
use Prim.Native.Char.{Char, code}
use Prim.Native.String.{String, compare}
use Prim.Native.String as Text
use smallpond.Sorts.{sort_with}
use smallpond.Prelude.{ℕ, Bool, true, false, not, ◌&&◌, ◌||◌, List, [], ◌∷◌, ◌==◌, if◌then◌else◌}

abbrev is_char : ℕ → Char → Bool
is_char n c = code c == n

-- A search for `[*?]|\[.*\]`, behind an opening bracket on the same line or not.
abbrev has_magic_behind : Bool → String → Bool
has_magic_behind opened Text.[] = false
has_magic_behind opened (Text.◌∷◌ c s) =
    is_char 42 c
    || is_char 63 c
    || opened && is_char 93 c
    || has_magic_behind ((opened || is_char 91 c) && not (is_char 10 c)) s

unfoldable pub has_magic : String → Bool
has_magic s = has_magic_behind false s

abbrev ends_in_slash : String → Bool → Bool
ends_in_slash Text.[] last = last
ends_in_slash (Text.◌∷◌ c s) last = ends_in_slash s (is_char 47 c)

abbrev is_absolute : String → Bool
is_absolute Text.[] = false
is_absolute (Text.◌∷◌ c s) = is_char 47 c

-- `os.path.join(root, path)`; an empty root counts as one that ends in a slash.
unfoldable pub join : String → String → String
join root path =
    if is_absolute path
    then path
    else if ends_in_slash root true
    then Text.◌++◌ root path
    else Text.◌++◌ root (Text.◌++◌ "/" path)

abbrev pub text_lt : String → String → Bool
text_lt s t = elim (compare s t) [ Ordering.lt ↦ true | _ ↦ false ]

-- `sorted(xs, key=key)`
unfoldable pub sort_by {ℓ} : {A : Type ℓ} → (A → String) → List A → List A
unfolding sort_with
sort_by key = sort_with (λ x y. text_lt (key x) (key y))

-- `sorted(paths)`
unfoldable pub sorted : List String → List String
unfolding sort_by
sorted = sort_by (λ s. s)

abbrev pub filter {ℓ} : {A : Type ℓ} → (A → Bool) → List A → List A
filter p [] = []
filter p (x ∷ xs) = if p x then x ∷ filter p xs else filter p xs
