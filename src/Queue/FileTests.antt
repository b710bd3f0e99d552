-- ===== src/Queue/FileTests.antt =====
-- A queue on the file system, used by one process and by two at once.
use mathlib.Core.List.{Perm}
use smallpond.Queue.Names.{Ascending}
use smallpond.Prelude.{min, length, All, ◌++◌, ℕ, ◌+◌, ◌≤◌, ◌≡◌, max, refl, [], ◌∷◌, map, arith}
use smallpond.Work.Samples.{item}
use smallpond.Queue.{single}
use smallpond.Queue.Files.{
  File, Dirs, name_of, dump, publish, push_unbuffered, start_pop, next_pop, pop_unbuffered,
}
use smallpond.Queue.Once.{
  count, System, set_consumer, dumps, publishes, starts, goes_on, Reach, here, later, IsExact,
}
use smallpond.Queue.Exact.{empty_system, Reach-IsExact, popped_once}
use smallpond.Queue.Pops.{pop_unbuffered-first}

abbrev file : ℕ → File
file n = record { name = n; item = single (item n) }

-- Three files, listed by the directory in no order.
abbrev dirs : Dirs
dirs = record {
  temp = [];
  enqueued = file 7 ∷ file 2 ∷ file 5 ∷ [];
  dequeued = [];
  used = 7 ∷ 2 ∷ 5 ∷ [];
}

pushed :
    (push_unbuffered 9 (single (item 9)) dirs).0.enqueued ≡ file 7 ∷ file 2 ∷ file 5 ∷ file 9 ∷ []
unfolding push_unbuffered
pushed = refl

popped : (pop_unbuffered 1 2 dirs).0 ≡ file 2 ∷ file 5 ∷ []
unfolding pop_unbuffered
popped = refl

popped_none : (pop_unbuffered 1 0 dirs).0 ≡ file 2 ∷ []
unfolding pop_unbuffered
popped_none = refl

pop_unbuffered-first_example :
    (length (pop_unbuffered 1 2 dirs).0 ≡ min (max 1 2) (length dirs.enqueued))
    × Ascending (map name_of (pop_unbuffered 1 2 dirs).0)
    × ((k : ℕ)
        → 1 ≤ count k (pop_unbuffered 1 2 dirs).1.enqueued
        → All (λ name. name ≤ k) (map name_of (pop_unbuffered 1 2 dirs).0))
    × Perm ((pop_unbuffered 1 2 dirs).1.enqueued ++ (pop_unbuffered 1 2 dirs).0) dirs.enqueued
pop_unbuffered-first_example = pop_unbuffered-first 1 2 dirs

-- One file is pushed, two processes list it, both try to rename it, and the calls of both end.
abbrev after_dump : System
after_dump = record empty_system { dirs = dump 4 (single (item 4)) empty_system.dirs }

abbrev after_publish : System
after_publish = record after_dump { dirs = (publish 4 after_dump.dirs).0 }

abbrev start : ℕ → System → System
start i s = record s { consumers = set_consumer i (start_pop 1 s.dirs (s.consumers i)) s.consumers }

abbrev go_on : ℕ → System → System
go_on i s = record {
  dirs = (next_pop i s.dirs (s.consumers i)).1;
  consumers = set_consumer i (next_pop i s.dirs (s.consumers i)).0 s.consumers;
}

abbrev race : System
race = go_on 1 (go_on 1 (go_on 2 (start 2 (start 1 after_publish))))

race-Reach : Reach empty_system race
unfolding start_pop
race-Reach =
    later
      (later
        (later
          (later
            (later
              (later (later here (dumps empty_system 4 (single (item 4)) refl))
                (publishes after_dump 4))
              (starts after_publish 1 1 refl))
            (starts (start 1 after_publish) 2 1 refl))
          (goes_on (start 2 (start 1 after_publish)) 2))
        (goes_on (go_on 2 (start 2 (start 1 after_publish))) 1))
      (goes_on (go_on 1 (go_on 2 (start 2 (start 1 after_publish)))) 1)

race_won : (race.consumers 2).returned ≡ file 4 ∷ []
unfolding start_pop next_pop publish
race_won = refl

race_lost : ((race.consumers 1).returned ≡ []) × (race.dirs.enqueued ≡ [])
unfolding start_pop next_pop publish
race_lost = (refl, refl)

Reach-IsExact_example : IsExact race
Reach-IsExact_example = Reach-IsExact race race-Reach

popped_once_example : count 4 (race.consumers 1).returned + count 4 (race.consumers 2).returned ≤ 1
popped_once_example = popped_once race race-Reach 1 2 4 (λ e. absurd (omega (arith, e)))
