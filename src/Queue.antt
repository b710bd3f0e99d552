-- ===== src/Queue.antt =====
-- smallpond/execution/workqueue.py, `WorkQueue` and `WorkQueueInMemory`. The base class is written
-- over the two methods that a subclass gives. A batch holds works only: no code pushes a batch.
pub mod Order
pub mod RoundTrip
pub mod Files
pub mod Once
pub mod Exact
pub mod Names
pub mod Pops
mod Tests
mod FileTests
use smallpond.Prelude.{
  ℕ, zero, suc, ◌+◌, max, ◌≡◌, Bool, true, false, List, [], ◌∷◌, ◌++◌, map, flatten, Result, ok,
  raise, value_error, ◌>>=◌, if◌then◌else◌,
}
use smallpond.Work.{WorkItem, cpu_limit, gpu_limit, memory_limit}

-- `WorkBatch`: the key is that of the first work, behind the class's name.
pub record WorkBatch : Type 0 where
  pub key : ℕ
  pub batch_cpu_limit : ℕ
  pub batch_gpu_limit : ℕ
  pub batch_memory_limit : ℕ
  pub works : List WorkItem

pub data Entry : Type 0 where
  single : WorkItem → Entry
  batch : WorkBatch → Entry

-- `max(f(w) for w in works)`, for the works behind a first one.
abbrev pub max_of : (WorkItem → ℕ) → WorkItem → List WorkItem → ℕ
max_of f w [] = f w
max_of f w (v ∷ ws) = max (f w) (max_of f v ws)

-- `WorkBatch.__init__`: `max` raises if there is no work.
abbrev pub batch_of : WorkItem → List WorkItem → WorkBatch
batch_of w ws = record {
  key = w.key;
  batch_cpu_limit = max_of cpu_limit w ws;
  batch_gpu_limit = max_of gpu_limit w ws;
  batch_memory_limit = max_of memory_limit w ws;
  works = w ∷ ws;
}

unfoldable pub make_batch : ℕ → List WorkItem → Result WorkBatch
make_batch key [] = raise value_error
make_batch key (w ∷ ws) = ok (record (batch_of w ws) { key = key })

-- The works of an entry, as `pop` hands them out.
abbrev pub works_in : Entry → List WorkItem
works_in (single w) = w ∷ []
works_in (batch b) = b.works

-- `_push_unbuffered` and `_pop_unbuffered` of a subclass, over its state. `entries` is what the
-- queue holds, for the laws alone.
pub record Backend (Q : Type 0) : Type 0 where
  pub push_unbuffered : Entry → Q → Bool × Q
  pub pop_unbuffered : ℕ → Q → List Entry × Q
  pub entries : Q → List Entry

pub record WorkQueue (Q : Type 0) : Type 0 where
  pub outbound_works : List WorkItem
  pub backend : Q

module _ {Q : Type 0} (b : Backend Q) where
  -- `outbound_works` is cleared before the push is known to have succeeded.
  unfoldable pub flush : WorkQueue Q → Result (Bool × WorkQueue Q)
  unfolding make_batch
  flush q = elim q.outbound_works [
    | [] ↦ ok (true, q)
    | w ∷ ws ↦ do
      works ← make_batch w.key (w ∷ ws)
      let (sent, rest) = b.push_unbuffered (batch works) q.backend
      ok (sent, record q { outbound_works = []; backend = rest })
  ]

  unfoldable pub push : WorkItem → Bool → WorkQueue Q → Result (Bool × WorkQueue Q)
  unfolding flush
  push item buffering q =
      if buffering
      then ok (true, record q { outbound_works = q.outbound_works ++ item ∷ [] })
      else elim q.outbound_works [
        | w ∷ ws ↦ flush (record q { outbound_works = q.outbound_works ++ item ∷ [] })
        | [] ↦
            let (sent, rest) = b.push_unbuffered (single item) q.backend in
            ok (sent, record q { backend = rest })
      ]

  unfoldable pub pop : ℕ → WorkQueue Q → List WorkItem × WorkQueue Q
  unfolding flatten
  pop count q =
      let (items, rest) = b.pop_unbuffered count q.backend in
      (flatten (map works_in items), record q { backend = rest })

-- `WorkQueueInMemory`: `queue.Queue`, which gives one entry or raises `queue.Empty`.
unfoldable pub in_memory_push : Entry → List Entry → Bool × List Entry
in_memory_push item queue = (true, queue ++ item ∷ [])

unfoldable pub in_memory_pop : ℕ → List Entry → List Entry × List Entry
in_memory_pop count [] = ([], [])
in_memory_pop count (item ∷ queue) = (item ∷ [], queue)

abbrev pub in_memory : Backend (List Entry)
in_memory = record {
  push_unbuffered = in_memory_push;
  pop_unbuffered = in_memory_pop;
  entries = λ queue. queue;
}
