-- ===== src/Queue/Files.antt =====
-- smallpond/execution/workqueue.py, `WorkQueueOnFilesystem`, which processes share through a directory.
-- The name of a file stands for its place in the order of names; that of a new file, made of the time
-- and a uuid, is one that no file had before. A rename is one step, in which a file is either moved or
-- was not there; the file is read behind a rename to a name that no other process knows.
use smallpond.Prelude.{
  ℕ, Bool, true, false, ltb, leb, List, [], ◌∷◌, ◌++◌, Option, none, some, length, map, ◌==◌,
  if◌then◌else◌,
}
use smallpond.Sorts.{sort_with}
use smallpond.Queue.{Entry}

pub record File : Type 0 where
  pub name : ℕ
  pub item : Entry

-- The directories of the queue, the names given so far, and who renamed a file to `dequeued`.
pub record Dirs : Type 0 where
  pub temp : List File
  pub enqueued : List File
  pub dequeued : List (ℕ × File)
  pub used : List ℕ

abbrev pub name_of : File → ℕ
name_of f = f.name

abbrev pub find_file : ℕ → List File → Option File
find_file name [] = none
find_file name (f ∷ fs) = if f.name == name then some f else find_file name fs

abbrev pub remove_file : ℕ → List File → List File
remove_file name [] = []
remove_file name (f ∷ fs) = if f.name == name then fs else f ∷ remove_file name fs

-- `dump(item, tempfile_path)`
abbrev pub dump : ℕ → Entry → Dirs → Dirs
dump name item d = record d {
  temp = d.temp ++ record { name = name; item = item } ∷ [];
  used = d.used ++ name ∷ [];
}

-- `os.rename(tempfile_path, enqueued_path)`, and whether it succeeds.
unfoldable pub publish : ℕ → Dirs → Dirs × Bool
publish name d = elim (find_file name d.temp) [
  | none ↦ (d, false)
  | some f ↦ (record d { temp = remove_file name d.temp; enqueued = d.enqueued ++ f ∷ [] }, true)
]

-- `_push_unbuffered`, without other processes in between.
unfoldable pub push_unbuffered : ℕ → Entry → Dirs → Dirs × Bool
unfolding publish
push_unbuffered name item d = publish name (dump name item d)

-- `sorted(dentries, key=lambda entry: entry.name)`
unfoldable pub list_sorted : Dirs → List ℕ
unfolding sort_with
list_sorted d = sort_with ltb (map name_of d.enqueued)

-- A process that takes files: the listed names that are left with the count that it asked for, what
-- it has taken, and what its calls have returned.
pub record Consumer : Type 0 where
  pub pulling : Option (List ℕ × ℕ)
  pub items : List File
  pub returned : List File

abbrev pub take_file : ℕ → ℕ → File → Dirs → Dirs
take_file owner name f d = record d {
  enqueued = remove_file name d.enqueued;
  dequeued = d.dequeued ++ (owner, f) ∷ [];
}

abbrev pub return_items : Consumer → Consumer
return_items c = record { pulling = none; items = []; returned = c.returned ++ c.items }

abbrev pub is_empty : List File → Bool
is_empty [] = true
is_empty (f ∷ fs) = false

-- The start of `_pop_unbuffered`.
unfoldable pub start_pop : ℕ → Dirs → Consumer → Consumer
unfolding list_sorted
start_pop count d c = record c { pulling = some (list_sorted d, count); items = [] }

-- A rename that has failed, and one that has not.
abbrev pub after_rename : ℕ → ℕ → List ℕ → ℕ → Option File → Dirs → Consumer → Consumer × Dirs
after_rename owner name names count none d c =
    (if is_empty c.items then record c { pulling = some (names, count) } else return_items c, d)
after_rename owner name names count (some f) d c =
    let taken = record c { pulling = some (names, count); items = c.items ++ f ∷ [] } in
    (if leb count (length taken.items) then return_items taken else taken, take_file owner name f d)

-- One round of the loop of `_pop_unbuffered`.
abbrev pub pull : ℕ → Option (List ℕ × ℕ) → Dirs → Consumer → Consumer × Dirs
pull owner none d c = (c, d)
pull owner (some ([], count)) d c = (return_items c, d)
pull owner (some (name ∷ names, count)) d c =
    after_rename owner name names count (find_file name d.enqueued) d c

unfoldable pub next_pop : ℕ → Dirs → Consumer → Consumer × Dirs
next_pop owner d c = pull owner c.pulling d c

-- The whole of `_pop_unbuffered` without other processes in between: as many rounds as there are names.
abbrev pub rounds : ℕ → List ℕ → Dirs → Consumer → Consumer × Dirs
unfolding next_pop
rounds owner [] d c = next_pop owner d c
rounds owner (n ∷ ns) d c = let (c', d') = next_pop owner d c in rounds owner ns d' c'

unfoldable pub pop_unbuffered : ℕ → ℕ → Dirs → List File × Dirs
unfolding start_pop rounds
pop_unbuffered owner count d =
    let (c, d') =
      rounds owner (list_sorted d) d
        (start_pop count d (record { pulling = none; items = []; returned = [] })) in
    (c.returned, d')
