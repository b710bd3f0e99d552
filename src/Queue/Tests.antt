-- ===== src/Queue/Tests.antt =====
-- A queue in memory with buffered works, and the theorems about queues there.
use smallpond.Prelude.{◌≡◌, refl, true, List, [], ◌∷◌, ok}
use smallpond.Work.Samples.{item}
use smallpond.Queue.{
  Entry, single, batch, batch_of, WorkQueue, flush, pop, in_memory, in_memory_push, in_memory_pop,
}
use smallpond.Queue.RoundTrip.{push_all, holding, push_all-flush-pop}

abbrev queue : WorkQueue (List Entry)
queue = record { outbound_works = item 2 ∷ item 3 ∷ []; backend = single (item 1) ∷ [] }

flushed :
    flush in_memory queue
    ≡ ok (
      true,
      record {
        outbound_works = [];
        backend = single (item 1) ∷ batch (batch_of (item 2) (item 3 ∷ [])) ∷ [];
      },
    )
unfolding flush in_memory_push
flushed = refl

popped :
    (pop in_memory 1
      (record { outbound_works = []; backend = batch (batch_of (item 2) (item 3 ∷ [])) ∷ [] })).0
    ≡ item 2 ∷ item 3 ∷ []
unfolding pop in_memory_pop
popped = refl

push_all-flush-pop_example :
    (q q' : WorkQueue (List Entry)) × (push_all (item 2 ∷ item 3 ∷ []) (holding [] []) ≡ ok q)
    × (flush in_memory q ≡ ok (true, q'))
    × ((pop in_memory 1 q').0 ≡ item 2 ∷ item 3 ∷ [])
    × ((pop in_memory 1 q').1 ≡ holding [] [])
push_all-flush-pop_example = push_all-flush-pop (item 2) (item 3 ∷ []) 1
