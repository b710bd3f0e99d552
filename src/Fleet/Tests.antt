-- ===== src/Fleet/Tests.antt =====
-- A scheduler that finds two executors, of which one fails, and the theorem about its lists.
use smallpond.Prelude.{◌+◌, ◌≡◌, refl, List, [], ◌∷◌, some}
use smallpond.Queue.{Entry, WorkQueue}
use smallpond.Remote.{RemoteExecutor, init, good, update_state}
use smallpond.Fleet.{
  remote_executors, working_executors, failed_executors, Fleet, read, discover,
  clear_cached_executor_lists, update_lists,
}
use smallpond.Fleet.Turns.{reads, discovers, updates, probes, first_fleet, Reach, here, later}
use smallpond.Fleet.Coherent.{listed, IsCoherent}
use smallpond.Fleet.Steps.{read-listed}

abbrev no_works : WorkQueue (List Entry)
no_works = record { outbound_works = []; backend = [] }

abbrev local_executor : RemoteExecutor (List Entry)
unfolding init
local_executor = record (init 0 no_works 0) { state = good }

abbrev found : Fleet (List Entry)
found = discover ((7, no_works) ∷ (8, no_works) ∷ (7, no_works) ∷ []) (first_fleet local_executor)

abbrev probed : Fleet (List Entry)
probed = let f = (read working_executors found).1 in record f { probe_epoch = f.probe_epoch + 1 }

-- The executors have missed the one probe that is sent.
abbrev after : Fleet (List Entry)
after = update_lists 0 probed

after-Reach : Reach (first_fleet local_executor) after
after-Reach =
    later
      (later
        (later
          (later here (
            discovers ((7, no_works) ∷ (8, no_works) ∷ (7, no_works) ∷ [])
              (first_fleet local_executor)))
          (reads working_executors found))
        (probes (read working_executors found).1))
      (updates 0 probed)

working_before : (read working_executors found).0 ≡ 7 ∷ 8 ∷ []
unfolding read discover init
working_before = refl

working_after : (read working_executors after).0 ≡ []
unfolding read discover init update_lists update_state
working_after = refl

failed_after : (read failed_executors after).0 ≡ 7 ∷ 8 ∷ []
unfolding read discover init update_lists update_state
failed_after = refl

-- Clearing an empty cache fills it in a part: `hasattr` computes what is to be deleted.
cleared :
    (clear_cached_executor_lists (first_fleet local_executor)).cached remote_executors ≡ some []
unfolding clear_cached_executor_lists
cleared = refl

read-listed_example :
    ((read failed_executors after).0 ≡ listed failed_executors after.available)
    × ((read failed_executors after).1.available ≡ after.available)
    × IsCoherent (read failed_executors after).1
read-listed_example = read-listed local_executor after after-Reach failed_executors
