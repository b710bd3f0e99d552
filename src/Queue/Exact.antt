-- ===== src/Queue/Exact.antt =====
-- The invariant of a queue on the file system that several processes use.
use smallpond.Prelude.{
  ℕ, ◌+◌, ◌≤◌, ◌≡◌, refl, sym, ap, ◌∙◌, subst, true, false, inl, inr, List, [], ◌∷◌, ◌++◌,
  append-nil, none, some, arith, Bool-cases, Option-cases, ◌==◌, if◌then◌else◌,
}
use smallpond.Queue.{Entry}
use smallpond.Queue.Files.{
  File, Dirs, find_file, dump, publish, Consumer, take_file, start_pop, next_pop,
}
use smallpond.Queue.Once.{
  times, count, taken_files, files_of, System, set_consumer, Step, dumps, publishes, starts,
  goes_on, Reach, here, later, IsExact, count-append, times-append, count-remove, taken-append,
  files_of-append, Pulled, stays, takes, pull-Pulled,
}

same_number : (j i : ℕ) → (j == i) ≡ true → j ≡ i
same_number j i e = ground arith

-- The consumer that a step changes has the files of its steps, and the others have what they had.
set_consumer-owned :
    (i : ℕ) (c : Consumer) (cs : ℕ → Consumer) (ds : List (ℕ × File))
    → c.returned ++ c.items ≡ files_of i ds
    → ((j : ℕ) → (j == i) ≡ false → (cs j).returned ++ (cs j).items ≡ files_of j ds)
    → (j : ℕ) → (set_consumer i c cs j).returned ++ (set_consumer i c cs j).items ≡ files_of j ds
set_consumer-owned i c cs ds own others j = elim (Bool-cases (j == i)) [
  | inl e ↦ rw e (subst (λ k. c.returned ++ c.items ≡ files_of k ds) (sym (same_number j i e)) own)
  | inr e ↦ rw e (others j e)
]

set_consumer-idle :
    (i : ℕ) (c : Consumer) (cs : ℕ → Consumer)
    → (c.pulling ≡ none → c.items ≡ [])
    → ((j : ℕ) → (cs j).pulling ≡ none → (cs j).items ≡ [])
    → (j : ℕ) → (set_consumer i c cs j).pulling ≡ none
    → (set_consumer i c cs j).items ≡ []
set_consumer-idle i c cs own others j = elim (Bool-cases (j == i)) [
  | inl e ↦ rw e own
  | inr e ↦ rw e (others j)
]

fresh-once :
    (k name : ℕ) (ns : List ℕ) → times name ns ≡ 0 → times k ns ≤ 1 → times k (ns ++ name ∷ []) ≤ 1
fresh-once k name ns fresh h = elim (Bool-cases (name == k)) [
  | inl e ↦
      let none_before : times k ns ≡ 0 = subst (λ m. times m ns ≡ 0) (same_number name k e) fresh in
      let one_now : times k (name ∷ []) ≡ 1 = rw e refl in
      omega (arith, times-append k ns (name ∷ []), none_before, one_now)
  | inr e ↦
      let none_now : times k (name ∷ []) ≡ 0 = rw e refl in
      omega (arith, times-append k ns (name ∷ []), none_now, h)
]

dump-IsExact :
    (s : System) (name : ℕ) (item : Entry)
    → times name s.dirs.used ≡ 0
    → IsExact s
    → IsExact (record s { dirs = dump name item s.dirs })
dump-IsExact s name item fresh h = record {
  placed = λ k. omega (
    arith,
    h.placed k,
    count-append k s.dirs.temp (record { name = name; item = item } ∷ []),
    times-append k s.dirs.used (name ∷ []),
  );
  once = λ k. fresh-once k name s.dirs.used fresh (h.once k);
  owned = h.owned;
  idle = h.idle;
}

publish-IsExact :
    (s : System) (name : ℕ) → IsExact s → IsExact (record s { dirs = (publish name s.dirs).0 })
unfolding publish
publish-IsExact s name h = elim (Option-cases (find_file name s.dirs.temp)) [
  | inl missing ↦ rw (missing, publish) h
  | inr (f, found) ↦
      let (named, sums) = count-remove name s.dirs.temp f found in
      rw (found, publish)
        (record {
          placed = λ k. omega (arith, h.placed k, sums k, count-append k s.dirs.enqueued (f ∷ []));
          once = h.once;
          owned = h.owned;
          idle = h.idle;
        })
]

start_pop-IsExact :
    (s : System) (i n : ℕ)
    → (s.consumers i).pulling ≡ none
    → IsExact s
    → IsExact
        (record s { consumers = set_consumer i (start_pop n s.dirs (s.consumers i)) s.consumers })
unfolding start_pop
start_pop-IsExact s i n resting h = record {
  placed = h.placed;
  once = h.once;
  owned =
      set_consumer-owned i (start_pop n s.dirs (s.consumers i)) s.consumers s.dirs.dequeued
        (ap (λ fs. (s.consumers i).returned ++ fs) (sym (h.idle i resting)) ∙ h.owned i)
        (λ j e. h.owned j);
  idle = set_consumer-idle i (start_pop n s.dirs (s.consumers i)) s.consumers (λ e. refl) h.idle;
}

takes-placed :
    (i name : ℕ) (f : File) (d : Dirs) (k : ℕ)
    → find_file name d.enqueued ≡ some f
    → count k (take_file i name f d).enqueued
        + count k (taken_files (take_file i name f d).dequeued)
      ≡ count k d.enqueued + count k (taken_files d.dequeued)
takes-placed i name f d k found =
    let (named, sums) = count-remove name d.enqueued f found in
    omega (
      arith,
      sums k,
      ap (count k) (taken-append d.dequeued i f),
      count-append k (taken_files d.dequeued) (f ∷ []),
    )

own_file :
    (fs : List File) (f : File) (i : ℕ) → fs ++ (if i == i then f ∷ [] else []) ≡ fs ++ f ∷ []
own_file fs f i = elim (Bool-cases (i == i)) [ inl e ↦ rw e refl | inr e ↦ absurd (ground arith) ]

no_file :
    (fs : List File) (f : File) (i j : ℕ)
    → (j == i) ≡ false
    → fs ++ (if i == j then f ∷ [] else []) ≡ fs
no_file fs f i j other = elim (Bool-cases (i == j)) [
  | inl e ↦ absurd (ground arith)
  | inr e ↦ rw e (append-nil fs)
]

Pulled-IsExact :
    (s : System) (i : ℕ) (c : Consumer) (d : Dirs)
    → Pulled i (s.consumers i) s.dirs c d
    → IsExact s
    → IsExact (record { dirs = d; consumers = set_consumer i c s.consumers })
Pulled-IsExact s i c d (stays same kept done) h = rw same (record {
  placed = h.placed;
  once = h.once;
  owned = set_consumer-owned i c s.consumers s.dirs.dequeued (kept ∙ h.owned i) (λ j e. h.owned j);
  idle = set_consumer-idle i c s.consumers done h.idle;
})
Pulled-IsExact s i c d (takes name f found same more done) h =
    let ds = s.dirs.dequeued in
    rw same (record {
      placed = λ k. omega (arith, h.placed k, takes-placed i name f s.dirs k found);
      once = h.once;
      owned =
          set_consumer-owned i c s.consumers (ds ++ (i, f) ∷ [])
            (more
              ∙ ap (λ fs. fs ++ f ∷ []) (h.owned i)
              ∙ sym (files_of-append i i f ds ∙ own_file (files_of i ds) f i))
            (λ j e. h.owned j ∙ sym (files_of-append i j f ds ∙ no_file (files_of j ds) f i j e));
      idle = set_consumer-idle i c s.consumers done h.idle;
    })

Step-IsExact : (s t : System) → Step s t → IsExact s → IsExact t
unfolding next_pop
Step-IsExact s _ (dumps _ name item fresh) h = dump-IsExact s name item fresh h
Step-IsExact s _ (publishes _ name) h = publish-IsExact s name h
Step-IsExact s _ (starts _ i n resting) h = start_pop-IsExact s i n resting h
Step-IsExact s _ (goes_on _ i) h =
    let c = s.consumers i in
    Pulled-IsExact s i (next_pop i s.dirs c).0 (next_pop i s.dirs c).1
      (pull-Pulled i c.pulling s.dirs c (h.idle i) refl) h

other_number : (owner i j : ℕ) → (owner == i) ≡ true → ¬ (i ≡ j) → (owner == j) ≡ false
other_number owner i j e apart = elim (Bool-cases (owner == j)) [
  | inl g ↦ absurd (apart (ground arith))
  | inr g ↦ g
]

count-files_of-bound :
    (k i j : ℕ) (ds : List (ℕ × File))
    → ¬ (i ≡ j)
    → count k (files_of i ds) + count k (files_of j ds) ≤ count k (taken_files ds)
count-files_of-bound k i j [] apart = omega arith
count-files_of-bound k i j ((owner, f) ∷ ds) apart =
    let rest = count-files_of-bound k i j ds apart in
    elim (Bool-cases (owner == i)) [
      | inl e ↦ rw (e, other_number owner i j e apart) (omega (arith, rest))
      | inr e ↦ elim (Bool-cases (owner == j)) [
        | inl g ↦ rw (e, g) (omega (arith, rest))
        | inr g ↦ rw (e, g) (omega (arith, rest))
      ]
    ]

abbrev pub resting : Consumer
resting = record { pulling = none; items = []; returned = [] }

-- Before any file was written.
abbrev pub empty_system : System
empty_system = record {
  dirs = record { temp = []; enqueued = []; dequeued = []; used = [] };
  consumers = λ i. resting;
}

empty_system-IsExact : IsExact empty_system
empty_system-IsExact = record {
  placed = λ k. refl;
  once = λ k. omega arith;
  owned = λ i. refl;
  idle = λ i e. refl;
}

-- Whatever steps the processes take in whatever order: a name that was ever given to a file is the
-- name of exactly one file in `temp`, `enqueued` and `dequeued` together, and what a process has
-- taken, returned by its calls or not yet, are exactly the files that it renamed to `dequeued`.
pub Reach-IsExact : (t : System) → Reach empty_system t → IsExact t
Reach-IsExact t here = empty_system-IsExact
Reach-IsExact t (later r step) = Step-IsExact _ t step (Reach-IsExact _ r)

-- Of two processes that pop at the same time, at most one gets the file of a name, and at most once.
pub popped_once :
    (t : System)
    → Reach empty_system t
    → (i j k : ℕ) → ¬ (i ≡ j)
    → count k (t.consumers i).returned + count k (t.consumers j).returned ≤ 1
popped_once t reached i j k apart =
    let h = Reach-IsExact t reached in
    omega (
      arith,
      count-files_of-bound k i j t.dirs.dequeued apart,
      ap (count k) (h.owned i),
      ap (count k) (h.owned j),
      count-append k (t.consumers i).returned (t.consumers i).items,
      count-append k (t.consumers j).returned (t.consumers j).items,
      h.placed k,
      h.once k,
    )
