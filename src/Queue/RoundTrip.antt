-- ===== src/Queue/RoundTrip.antt =====
-- A queue in memory gives back what was pushed: the buffer, the batch and the entries together.
use smallpond.Prelude.{
  ℕ, ◌≡◌, refl, sym, ap, ◌∙◌, true, List, [], ◌∷◌, ◌++◌, append-nil, append_assoc, Result, ok,
  ◌>>=◌,
}
use smallpond.Work.{WorkItem}
use smallpond.Queue.{
  Entry, batch, batch_of, WorkQueue, push, flush, pop, in_memory, in_memory_push, in_memory_pop,
}

-- One `push` with buffering after the other, as the scheduler does before a `flush`.
abbrev pub push_all : List WorkItem → WorkQueue (List Entry) → Result (WorkQueue (List Entry))
unfolding push
push_all [] q = ok q
push_all (item ∷ items) q = push in_memory item true q >>= λ (pushed, q'). push_all items q'

abbrev pub holding : List WorkItem → List Entry → WorkQueue (List Entry)
holding buffered entries = record { outbound_works = buffered; backend = entries }

push_all-holding :
    (items buffered : List WorkItem) (entries : List Entry)
    → push_all items (holding buffered entries) ≡ ok (holding (buffered ++ items) entries)
unfolding push push_all
push_all-holding [] buffered entries = ap (λ b. ok (holding b entries)) (sym (append-nil buffered))
push_all-holding (item ∷ items) buffered entries =
    push_all-holding items (buffered ++ item ∷ []) entries
    ∙ ap (λ b. ok (holding b entries)) (append_assoc buffered (item ∷ []) items)

-- One or more works are pushed one by one with buffering to an empty queue in memory, which is then
-- flushed: nothing raises or fails, and a pop returns exactly these works, in order, and leaves the
-- queue empty.
pub push_all-flush-pop :
    (w : WorkItem) (ws : List WorkItem) (count : ℕ)
    → (q q' : WorkQueue (List Entry)) × (push_all (w ∷ ws) (holding [] []) ≡ ok q)
      × (flush in_memory q ≡ ok (true, q'))
      × ((pop in_memory count q').0 ≡ w ∷ ws)
      × ((pop in_memory count q').1 ≡ holding [] [])
unfolding flush pop in_memory_push in_memory_pop
push_all-flush-pop w ws count = (
  holding (w ∷ ws) [],
  holding [] (batch (batch_of w ws) ∷ []),
  push_all-holding (w ∷ ws) [] [],
  refl,
  append-nil (w ∷ ws),
  refl,
)
