-- ===== src/Queue/Once.antt =====
-- Processes that push to a queue on the file system and pop from it at the same time.
use mathlib.Core.Option.{some-injective}
use smallpond.Prelude.{
  ℕ, ◌+◌, ◌≤◌, ◌≡◌, refl, sym, ap, ◌∙◌, subst, inl, inr, List, [], ◌∷◌, ◌++◌, append-nil,
  append_assoc, Option, none, some, length, leb, arith, Bool-cases, ◌==◌, if◌then◌else◌,
}
use smallpond.Queue.{Entry}
use smallpond.Queue.Files.{
  File, Dirs, find_file, remove_file, dump, publish, Consumer, take_file, is_empty, start_pop,
  after_rename, pull, next_pop,
}

-- How often a name stands in a list.
abbrev pub times : ℕ → List ℕ → ℕ
times k [] = 0
times k (n ∷ ns) = (if n == k then 1 else 0) + times k ns

abbrev pub count : ℕ → List File → ℕ
count k [] = 0
count k (f ∷ fs) = (if f.name == k then 1 else 0) + count k fs

abbrev pub taken_files : List (ℕ × File) → List File
taken_files [] = []
taken_files ((owner, f) ∷ fs) = f ∷ taken_files fs

-- The files that a process renamed.
abbrev pub files_of : ℕ → List (ℕ × File) → List File
files_of i [] = []
files_of i ((owner, f) ∷ fs) = if owner == i then f ∷ files_of i fs else files_of i fs

pub record System : Type 0 where
  pub dirs : Dirs
  pub consumers : ℕ → Consumer

abbrev pub set_consumer : ℕ → Consumer → (ℕ → Consumer) → ℕ → Consumer
set_consumer i c cs j = if j == i then c else cs j

-- A step of one of the processes: writing a new file, renaming it, listing the files, or one round of
-- the loop that renames listed files.
pub data Step : System → System → Type 0 where
  dumps :
      (s : System) (name : ℕ) (item : Entry)
      → times name s.dirs.used ≡ 0
      → Step s (record s { dirs = dump name item s.dirs })
  publishes : (s : System) (name : ℕ) → Step s (record s { dirs = (publish name s.dirs).0 })
  starts :
      (s : System) (i n : ℕ)
      → (s.consumers i).pulling ≡ none
      → Step s
          (record s { consumers = set_consumer i (start_pop n s.dirs (s.consumers i)) s.consumers })
  goes_on :
      (s : System) (i : ℕ)
      → Step s (record {
        dirs = (next_pop i s.dirs (s.consumers i)).1;
        consumers = set_consumer i (next_pop i s.dirs (s.consumers i)).0 s.consumers;
      })

pub data Reach (s : System) : System → Type 0 where
  here : Reach s s
  later : {t u : System} → Reach s t → Step t u → Reach s u

-- Each name given to a file is in one place, and each file taken belongs to the process that took it.
pub record IsExact (s : System) : Type 0 where
  pub placed :
      (k : ℕ)
      → count k s.dirs.temp + count k s.dirs.enqueued + count k (taken_files s.dirs.dequeued)
        ≡ times k s.dirs.used
  pub once : (k : ℕ) → times k s.dirs.used ≤ 1
  pub owned :
      (i : ℕ) → (s.consumers i).returned ++ (s.consumers i).items ≡ files_of i s.dirs.dequeued
  pub idle : (i : ℕ) → (s.consumers i).pulling ≡ none → (s.consumers i).items ≡ []

pub count-append : (k : ℕ) (fs gs : List File) → count k (fs ++ gs) ≡ count k fs + count k gs
count-append k [] gs = omega arith
count-append k (f ∷ fs) gs = omega (arith, count-append k fs gs)

pub times-append : (k : ℕ) (ns ms : List ℕ) → times k (ns ++ ms) ≡ times k ns + times k ms
times-append k [] ms = omega arith
times-append k (n ∷ ns) ms = omega (arith, times-append k ns ms)

pub count-remove :
    (name : ℕ) (fs : List File) (f : File)
    → find_file name fs ≡ some f
    → (f.name ≡ name)
      × ((k : ℕ) → count k fs ≡ (if f.name == k then 1 else 0) + count k (remove_file name fs))
count-remove name [] f found = absurd (cc)
count-remove name (g ∷ fs) f found = elim (Bool-cases (g.name == name)) [
  | inl same ↦
      let here : g ≡ f = some-injective g f (rw same at found) in
      rw same (
        subst (λ h. h.name ≡ name) here (ground arith),
        λ k. ap (λ h. (if h.name == k then 1 else 0) + count k fs) here,
      )
  | inr other ↦
      let (named, sums) = count-remove name fs f (rw other at found) in
      rw other (named, λ k. omega (arith, sums k))
]

pub taken-append :
    (ds : List (ℕ × File)) (i : ℕ) (f : File)
    → taken_files (ds ++ (i, f) ∷ []) ≡ taken_files ds ++ f ∷ []
taken-append [] i f = refl
taken-append ((owner, g) ∷ ds) i f = ap (◌∷◌ g) (taken-append ds i f)

pub files_of-append :
    (i j : ℕ) (f : File) (ds : List (ℕ × File))
    → files_of j (ds ++ (i, f) ∷ []) ≡ files_of j ds ++ (if i == j then f ∷ [] else [])
files_of-append i j f [] = refl
files_of-append i j f ((owner, g) ∷ ds) = elim (Bool-cases (owner == j)) [
  | inl e ↦ rw e (ap (◌∷◌ g) (files_of-append i j f ds))
  | inr e ↦ rw e (files_of-append i j f ds)
]

-- What a round does: nothing to the files, or it takes one.
pub data Pulled (i : ℕ) (c : Consumer) (d : Dirs) (c' : Consumer) (d' : Dirs) : Type 0 where
  stays :
      d' ≡ d
      → c'.returned ++ c'.items ≡ c.returned ++ c.items
      → (c'.pulling ≡ none → c'.items ≡ [])
      → Pulled i c d c' d'
  takes :
      (name : ℕ) (f : File)
      → find_file name d.enqueued ≡ some f
      → d' ≡ take_file i name f d
      → c'.returned ++ c'.items ≡ (c.returned ++ c.items) ++ f ∷ []
      → (c'.pulling ≡ none → c'.items ≡ [])
      → Pulled i c d c' d'

renamed-Pulled :
    (i name : ℕ) (names : List ℕ) (n : ℕ) (found : Option File) (d : Dirs) (c : Consumer)
    → find_file name d.enqueued ≡ found
    → Pulled i c d
        (after_rename i name names n found d c).0
        (after_rename i name names n found d c).1
renamed-Pulled i name names n none d c e = elim (Bool-cases (is_empty c.items)) [
  | inl empty ↦ rw empty (stays refl refl (λ h. absurd (cc)))
  | inr some_left ↦ rw some_left (stays refl (append-nil (c.returned ++ c.items)) (λ h. refl))
]
renamed-Pulled i name names n (some f) d c e =
    let taken : Consumer = record c { pulling = some (names, n); items = c.items ++ f ∷ [] } in
    let more : c.returned ++ (c.items ++ f ∷ []) ≡ (c.returned ++ c.items) ++ f ∷ [] =
      sym (append_assoc c.returned c.items (f ∷ [])) in
    elim (Bool-cases (leb n (length taken.items))) [
      | inl enough ↦
          rw enough
            (takes name f e refl (append-nil (taken.returned ++ taken.items) ∙ more) (λ h. refl))
      | inr fewer ↦ rw fewer (takes name f e refl more (λ h. absurd (cc)))
    ]

pub pull-Pulled :
    (i : ℕ) (pulling : Option (List ℕ × ℕ)) (d : Dirs) (c : Consumer)
    → (pulling ≡ none → c.items ≡ [])
    → c.pulling ≡ pulling
    → Pulled i c d (pull i pulling d c).0 (pull i pulling d c).1
pull-Pulled i none d c idle same = stays refl refl (λ h. idle refl)
pull-Pulled i (some ([], n)) d c idle same =
    stays refl (append-nil (c.returned ++ c.items)) (λ h. refl)
pull-Pulled i (some (name ∷ names, n)) d c idle same =
    renamed-Pulled i name names n (find_file name d.enqueued) d c refl
