-- ===== src/Fleet/Turns.antt =====
-- The orders in which the scheduler reads and changes its executors.
use smallpond.Prelude.{ℕ, ◌+◌, ◌≡◌, true, List, [], ◌∷◌, none}
use smallpond.Queue.{WorkQueue}
use smallpond.Remote.{RemoteExecutor}
use smallpond.Fleet.{
  ListName, Fleet, read, discover, update_lists, suspend_good_executors, change_member,
}

-- What happens to the lists: one is read, executors are found, their states are updated, the good ones
-- are suspended, an epoch of probes begins, or another method of an executor runs, none of which sets
-- its state.
pub data Turn {Q : Type 0} : Fleet Q → Fleet Q → Type 0 where
  reads : (name : ListName) (f : Fleet Q) → Turn f (read name f).1
  discovers : (dirs : List (ℕ × WorkQueue Q)) (f : Fleet Q) → Turn f (discover dirs f)
  updates : (max_missed : ℕ) (f : Fleet Q) → Turn f (update_lists max_missed f)
  suspends : (f : Fleet Q) → Turn f (suspend_good_executors f)
  probes : (f : Fleet Q) → Turn f (record f { probe_epoch = f.probe_epoch + 1 })
  runs :
      (id : ℕ) (g : RemoteExecutor Q → RemoteExecutor Q) (f : Fleet Q)
      → ((e : RemoteExecutor Q) → ((g e).id ≡ e.id) × ((g e).state ≡ e.state))
      → Turn f (record f { available = change_member id g f.available })

-- The scheduler begins with its local executor alone.
abbrev pub first_fleet : {Q : Type 0} → RemoteExecutor Q → Fleet Q
first_fleet e = record {
  available = record { executor = e; local = true } ∷ [];
  cached = λ n. none;
  probe_epoch = 0;
}

pub data Reach {Q : Type 0} (f : Fleet Q) : Fleet Q → Type 0 where
  here : Reach f f
  later : {g h : Fleet Q} → Reach f g → Turn g h → Reach f h
