-- ===== src/Queue/Pops.antt =====
-- `_pop_unbuffered` of the queue on the file system, while no other process is at work.
use mathlib.Core.Option.{some-injective}
use mathlib.Core.List.{Perm, perm_append_comm}
use mathlib.Core.List.Perm
use smallpond.Prelude.{
  min, subst, if◌then◌else◌, All, drop, take-append-drop, length-take, ℕ, zero, suc, ◌+◌, ◌-◌, ◌≤◌,
  ◌≡◌, max, refl, sym, ap, ◌∙◌, true, false, inl, inr, List, [], ◌∷◌, ◌++◌, append-nil,
  append_assoc, map, take, none, some, length, length-append, leb, ltb, arith, Bool-cases, ◌==◌,
}
use smallpond.Sorts.{insert_with, sort_with, append_swap}
use smallpond.Queue.Names.{
  Ascending, sort_with-Ascending, length-sort_with, Ascending-left, Ascending-apart,
}
use smallpond.Queue.Files.{
  remove_file, File, Dirs, name_of, find_file, list_sorted, Consumer, take_file, start_pop,
  next_pop, rounds, pop_unbuffered,
}
use smallpond.Queue.Once.{times, times-append, count, count-append, count-remove}

times-insert_with : (k x : ℕ) (ns : List ℕ) → times k (insert_with ltb x ns) ≡ times k (x ∷ ns)
times-insert_with k x [] = refl
times-insert_with k x (n ∷ ns) = elim (Bool-cases (ltb n x)) [
  | inl e ↦ rw e (omega (arith, times-insert_with k x ns))
  | inr e ↦ rw e refl
]

times-sort_with : (k : ℕ) (fs : List File) → times k (sort_with ltb (map name_of fs)) ≡ count k fs
unfolding sort_with
times-sort_with k [] = refl
times-sort_with k (f ∷ fs) =
    omega (arith, times-insert_with k f.name (sort_with ltb (map name_of fs)), times-sort_with k fs)

find_file-counted :
    (name : ℕ) (fs : List File) → 1 ≤ count name fs → (f : File) × (find_file name fs ≡ some f)
find_file-counted name [] h = absurd (omega (arith, h))
find_file-counted name (f ∷ fs) h = elim (Bool-cases (f.name == name)) [
  | inl e ↦ rw e (f, refl)
  | inr e ↦ rw e (find_file-counted name fs (omega (arith, rw e at h)))
]

map-append : (fs gs : List File) → map name_of (fs ++ gs) ≡ map name_of fs ++ map name_of gs
map-append [] gs = refl
map-append (f ∷ fs) gs = ap (◌∷◌ f.name) (map-append fs gs)

-- A call in progress.
abbrev busy : List ℕ → ℕ → List File → Consumer
busy ns n xs = record { pulling = some (ns, n); items = xs; returned = [] }

abbrev done_with : List File → Consumer
done_with xs = record { pulling = none; items = []; returned = xs }

rounds-done :
    (owner : ℕ) (ns : List ℕ) (d : Dirs) (xs : List File)
    → rounds owner ns d (done_with xs) ≡ (done_with xs, d)
unfolding next_pop
rounds-done owner [] d xs = refl
rounds-done owner (n ∷ ns) d xs = rounds-done owner ns d xs

-- What the rest of a call has taken in the end.
record Takes (room : ℕ) (ns : List ℕ) (xs : List File) (d : Dirs) (end : Consumer × Dirs)
    : Type 0 where
  named : map name_of end.0.returned ≡ map name_of xs ++ take room ns
  moved :
      (k : ℕ) → count k end.1.enqueued + count k end.0.returned ≡ count k d.enqueued + count k xs
  files : Perm (end.1.enqueued ++ end.0.returned) (d.enqueued ++ xs)

remove_file-Perm :
    (name : ℕ) (fs : List File) (f : File)
    → find_file name fs ≡ some f
    → Perm (f ∷ remove_file name fs) fs
remove_file-Perm name [] f found = absurd (cc)
remove_file-Perm name (g ∷ fs) f found = elim (Bool-cases (g.name == name)) [
  | inl e ↦
      let same : g ≡ f = some-injective g f (rw e at found) in
      rw e (subst (λ h. Perm (h ∷ fs) (g ∷ fs)) same (Perm.refl (g ∷ fs)))
  | inr e ↦ rw e (
      Perm.trans (Perm.swap g f (remove_file name fs))
        (Perm.cons g (remove_file-Perm name fs f (rw e at found))))
]

-- A file goes from the one list to the end of the other.
moved-Perm :
    (name : ℕ) (fs xs : List File) (f : File)
    → find_file name fs ≡ some f
    → Perm (remove_file name fs ++ (xs ++ f ∷ [])) (fs ++ xs)
moved-Perm name fs xs f found =
    Perm.trans (Perm.append_left (remove_file name fs) (perm_append_comm xs (f ∷ []))) (
      Perm.trans (append_swap (remove_file name fs) (f ∷ []) xs)
        (Perm.append_right xs (remove_file-Perm name fs f found)))

self_times : (name : ℕ) (ns : List ℕ) → times name (name ∷ ns) ≡ 1 + times name ns
self_times name ns = elim (Bool-cases (name == name)) [
  | inl e ↦ rw e refl
  | inr e ↦ absurd (ground arith)
]

-- A file that was found and taken, and the names that are left.
took_file :
    (owner name n : ℕ) (ns : List ℕ) (xs : List File) (f : File) (d : Dirs)
    → find_file name d.enqueued ≡ some f
    → (f.name ≡ name)
      × ((k : ℕ)
          → count k (take_file owner name f d).enqueued + count k (xs ++ f ∷ [])
            ≡ count k d.enqueued + count k xs)
      × (((k : ℕ) → times k (name ∷ ns) ≤ count k d.enqueued)
          → (k : ℕ) → times k ns ≤ count k (take_file owner name f d).enqueued)
took_file owner name n ns xs f d found =
    let (same, sums) = count-remove name d.enqueued f found in
    (
      same,
      λ k. omega (arith, sums k, count-append k xs (f ∷ [])),
      λ listed k. omega (arith, listed k, sums k, ap (λ m. times k (m ∷ ns)) same),
    )

taken_names :
    (room name : ℕ) (ns : List ℕ) (xs : List File) (f : File)
    → f.name ≡ name
    → map name_of (xs ++ f ∷ []) ++ take room ns ≡ map name_of xs ++ take (suc room) (name ∷ ns)
taken_names room name ns xs f same =
    ap (λ ms. ms ++ take room ns) (map-append xs (f ∷ []))
    ∙ append_assoc (map name_of xs) (f.name ∷ []) (take room ns)
    ∙ ap (λ m. map name_of xs ++ m ∷ take room ns) same

rounds-Takes :
    (owner n room : ℕ) (ns : List ℕ) (xs : List File) (d : Dirs)
    → length xs + suc room ≡ max 1 n
    → ((k : ℕ) → times k ns ≤ count k d.enqueued)
    → Takes (suc room) ns xs d (rounds owner ns d (busy ns n xs))
unfolding next_pop
rounds-Takes owner n room [] xs d left listed = record {
  named = sym (append-nil (map name_of xs));
  moved = λ k. refl;
  files = Perm.refl _;
}
rounds-Takes owner n zero (name ∷ ns) xs d left listed =
    let (f, found) =
      find_file-counted name d.enqueued (omega (arith, listed name, self_times name ns)) in
    let (same, counts, rest) = took_file owner name n ns xs f d found in
    let enough : leb n (length (xs ++ f ∷ [])) ≡ true =
      ground (arith, length-append xs (f ∷ []), left) in
    rw (found, enough, rounds-done owner ns (take_file owner name f d) (xs ++ f ∷ []))
      (record {
        named = sym (append-nil (map name_of (xs ++ f ∷ []))) ∙ taken_names zero name ns xs f same;
        moved = counts;
        files = moved-Perm name d.enqueued xs f found;
      })
rounds-Takes owner n (suc room) (name ∷ ns) xs d left listed =
    let (f, found) =
      find_file-counted name d.enqueued (omega (arith, listed name, self_times name ns)) in
    let (same, counts, rest) = took_file owner name n ns xs f d found in
    let fewer : leb n (length (xs ++ f ∷ [])) ≡ false =
      ground (arith, length-append xs (f ∷ []), left) in
    let end =
      rounds-Takes owner n room ns (xs ++ f ∷ []) (take_file owner name f d)
        (omega (arith, length-append xs (f ∷ []), left)) (rest listed) in
    rw (found, fewer)
      (record {
        named = end.named ∙ taken_names (suc room) name ns xs f same;
        moved = λ k. end.moved k ∙ counts k;
        files = Perm.trans end.files (moved-Perm name d.enqueued xs f found);
      })

pops_sorted :
    (owner n : ℕ) (d : Dirs)
    → (map name_of (pop_unbuffered owner n d).0 ≡ take (max 1 n) (list_sorted d))
      × ((k : ℕ)
          → count k (pop_unbuffered owner n d).1.enqueued + count k (pop_unbuffered owner n d).0
            ≡ count k d.enqueued)
      × Perm ((pop_unbuffered owner n d).1.enqueued ++ (pop_unbuffered owner n d).0) d.enqueued
unfolding pop_unbuffered start_pop list_sorted
pops_sorted owner n d =
    let ns = list_sorted d in
    let end =
      rounds-Takes owner n (max 1 n - 1) ns [] d (omega arith)
        (λ k. omega (arith, times-sort_with k d.enqueued)) in
    let all : suc (max 1 n - 1) ≡ max 1 n = omega arith in
    (
      end.named ∙ ap (λ m. take m ns) all,
      λ k. omega (arith, end.moved k),
      subst (Perm ((pop_unbuffered owner n d).1.enqueued ++ (pop_unbuffered owner n d).0))
          (append-nil d.enqueued) end.files,
    )

times-names : (k : ℕ) (fs : List File) → times k (map name_of fs) ≡ count k fs
times-names k [] = refl
times-names k (f ∷ fs) = ap (◌+◌ (if f.name == k then 1 else 0)) (times-names k fs)

length-names : (fs : List File) → length (map name_of fs) ≡ length fs
length-names [] = refl
length-names (f ∷ fs) = ap suc (length-names fs)

-- If no other process is at work, a pop of `n` files, or of 0 as of 1, returns as many files, or all
-- if there are fewer. They come in the ascending order of their names, no file that is left in
-- `enqueued` has a lower name, and the files left and returned are those that were there.
pub pop_unbuffered-first :
    (owner n : ℕ) (d : Dirs)
    → (length (pop_unbuffered owner n d).0 ≡ min (max 1 n) (length d.enqueued))
      × Ascending (map name_of (pop_unbuffered owner n d).0)
      × ((k : ℕ)
          → 1 ≤ count k (pop_unbuffered owner n d).1.enqueued
          → All (λ name. name ≤ k) (map name_of (pop_unbuffered owner n d).0))
      × Perm ((pop_unbuffered owner n d).1.enqueued ++ (pop_unbuffered owner n d).0) d.enqueued
unfolding list_sorted
pop_unbuffered-first owner n d =
    let (named, counts, files) = pops_sorted owner n d in
    let ns = list_sorted d in
    let m = max 1 n in
    let sorted = sort_with-Ascending (map name_of d.enqueued) in
    let cut : Ascending (take m ns ++ drop m ns) =
      subst Ascending (sym (take-append-drop m ns)) sorted in
    (
      sym (length-names (pop_unbuffered owner n d).0)
          ∙ ap length named
          ∙ length-take m ns
          ∙ ap (min m) (length-sort_with (map name_of d.enqueued) ∙ length-names d.enqueued),
      subst Ascending (sym named) (Ascending-left (take m ns) (drop m ns) cut),
      λ k left. subst (All (λ name. name ≤ k)) (sym named) (
          Ascending-apart k (take m ns) (drop m ns) cut (
            omega (
              arith,
              left,
              counts k,
              times-names k (pop_unbuffered owner n d).0,
              ap (times k) named,
              times-append k (take m ns) (drop m ns),
              ap (times k) (take-append-drop m ns),
              times-sort_with k d.enqueued,
            ))),
      files,
    )
