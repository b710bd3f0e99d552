-- ===== src/Work/Tests.antt =====
-- A batch of three works, of which the second fails, and the theorems about work items there.
use smallpond.Prelude.{◌≡◌, refl, true, false, none, some, List, [], ◌∷◌, ◌==◌, if◌then◌else◌}
use smallpond.Work.{
  WorkItem, succeed, crashed, Hooks, returns, raises, out_of_memory, nonzero_exit_code, oom, exec,
  batch_returned, batch_run,
}
use smallpond.Work.Samples.{item}

abbrev quiet : Hooks
quiet = record { initialize = none; run = returns true; finalize = none; cleanup = none }

abbrev hooks : WorkItem → Hooks
hooks w = if w.key == 2 then record quiet { run = raises out_of_memory } else quiet

abbrev works : List WorkItem
works = item 1 ∷ item 2 ∷ item 3 ∷ []

abbrev done : WorkItem
done = record (item 1) { status = succeed; exec_id = some 9 }

abbrev crashed_item : WorkItem
crashed_item = record (item 2) {
  status = crashed;
  exec_id = some 9;
  exception = some out_of_memory;
}

batch_run-works :
    batch_run hooks (some 9) works ≡ batch_returned false (done ∷ crashed_item ∷ item 3 ∷ [])
unfolding batch_run exec
batch_run-works = refl

oom-crashed :
    (oom false crashed_item ≡ true)
    × (oom false (record crashed_item { exception = some nonzero_exit_code }) ≡ false)
    × (oom true (record crashed_item { exception = some nonzero_exit_code }) ≡ true)
unfolding oom
oom-crashed = (refl, refl, refl)
