-- ===== src/Queue/Order.antt =====
-- The order of the works in a queue: first in, first out, buffered works and batches included.
use smallpond.Prelude.{
  ℕ, ◌≡◌, refl, sym, ap, ◌∙◌, Bool, true, false, List, [], ◌∷◌, ◌++◌, map, flatten, append-nil,
  append_assoc, ok,
}
use smallpond.Work.{WorkItem}
use smallpond.Queue.{
  Entry, single, batch, works_in, Backend, WorkQueue, batch_of, flush, push, pop, in_memory,
  in_memory_push, in_memory_pop,
}

-- A first-in first-out subclass: a push appends the entry or fails and changes nothing, and a pop
-- takes entries off the front. `WorkQueueInMemory` is one; `WorkQueueOnFilesystem` is none, as it
-- pops in the order of names.
pub record IsFifo {Q : Type 0} (b : Backend Q) : Type 0 where
  pub appends :
      (e : Entry) (q : Q)
      → (b.push_unbuffered e q).0 ≡ true
      → b.entries (b.push_unbuffered e q).1 ≡ b.entries q ++ e ∷ []
  pub rejects :
      (e : Entry) (q : Q)
      → (b.push_unbuffered e q).0 ≡ false
      → b.entries (b.push_unbuffered e q).1 ≡ b.entries q
  pub takes :
      (n : ℕ) (q : Q) → (b.pop_unbuffered n q).0 ++ b.entries (b.pop_unbuffered n q).1 ≡ b.entries q

pub in_memory-IsFifo : IsFifo in_memory
unfolding in_memory_push in_memory_pop
in_memory-IsFifo = record {
  appends = λ e q h. refl;
  rejects = λ e q h. cc;
  takes = λ n q. elim q as (λ q. (in_memory_pop n q).0 ++ (in_memory_pop n q).1 ≡ q) [
    | [] ↦ refl
    | e ∷ es ↦ refl
  ];
}

abbrev pub stored : List Entry → List WorkItem
stored es = flatten (map works_in es)

stored-append : (xs ys : List Entry) → stored (xs ++ ys) ≡ stored xs ++ stored ys
unfolding flatten
stored-append [] ys = refl
stored-append (x ∷ xs) ys =
    ap (◌++◌ (works_in x)) (stored-append xs ys)
    ∙ sym (append_assoc (works_in x) (stored xs) (stored ys))

stored-snoc : (xs : List Entry) (e : Entry) → stored (xs ++ e ∷ []) ≡ stored xs ++ works_in e
unfolding flatten
stored-snoc xs e = stored-append xs (e ∷ []) ∙ ap (◌++◌ (stored xs)) (append-nil (works_in e))

module _ {Q : Type 0} (b : Backend Q) (laws : IsFifo b) where
  -- All works of a queue, the next to be popped first.
  abbrev pub contents : WorkQueue Q → List WorkItem
  contents q = stored (b.entries q.backend) ++ q.outbound_works

  -- `pop` takes works off the front.
  pop-contents :
      (count : ℕ) (q : WorkQueue Q) → (pop b count q).0 ++ contents (pop b count q).1 ≡ contents q
  unfolding pop
  pop-contents count q =
      let (items, rest) = b.pop_unbuffered count q.backend in
      sym (append_assoc (stored items) (stored (b.entries rest)) q.outbound_works)
      ∙ ap (λ xs. xs ++ q.outbound_works)
          (sym (stored-append items (b.entries rest)) ∙ ap stored (laws.takes count q.backend))

  -- `flush` raises nothing and empties the buffer. If it returns true, no work is lost, added or
  -- moved; if it returns false, the works that were buffered are lost.
  flush-contents :
      (q : WorkQueue Q)
      → (sent : Bool) × (q' : WorkQueue Q) × (flush b q ≡ ok (sent, q'))
        × (q'.outbound_works ≡ [])
        × (sent ≡ true → contents q' ≡ contents q)
        × (sent ≡ false → contents q' ≡ stored (b.entries q.backend))
  unfolding flush
  flush-contents q = go q.outbound_works
    where
      go :
          (os : List WorkItem)
          → (sent : Bool) × (q' : WorkQueue Q) × (flush b
                (record { outbound_works = os; backend = q.backend })
              ≡ ok (sent, q'))
            × (q'.outbound_works ≡ [])
            × (sent ≡ true → contents q' ≡ stored (b.entries q.backend) ++ os)
            × (sent ≡ false → contents q' ≡ stored (b.entries q.backend))
      go [] = (true, record q { outbound_works = [] }, refl, refl, λ h. refl, λ h. cc)
      go (w ∷ ws) =
          let works = batch (batch_of w ws) in
          (
            (b.push_unbuffered works q.backend).0,
            record { outbound_works = []; backend = (b.push_unbuffered works q.backend).1 },
            refl,
            refl,
            λ h.
                append-nil _
                ∙ ap stored (laws.appends works q.backend h)
                ∙ stored-snoc (b.entries q.backend) works,
            λ h. append-nil _ ∙ ap stored (laws.rejects works q.backend h),
          )

  -- `push` raises nothing, and if it returns true the work stands behind all others, whether it is
  -- buffered, flushed in a batch with those that were, or pushed by itself.
  push-contents :
      (item : WorkItem) (buffering : Bool) (q : WorkQueue Q)
      → (sent : Bool) × (q' : WorkQueue Q) × (push b item buffering q ≡ ok (sent, q'))
        × (sent ≡ true → contents q' ≡ contents q ++ item ∷ [])
  unfolding push
  push-contents item true q = (
    true,
    _,
    refl,
    λ h. sym (append_assoc (stored (b.entries q.backend)) q.outbound_works (item ∷ [])),
  )
  push-contents item false q = go q.outbound_works
    where
      go :
          (os : List WorkItem)
          → (sent : Bool) × (q' : WorkQueue Q) × (push b item false
                (record { outbound_works = os; backend = q.backend })
              ≡ ok (sent, q'))
            × (sent ≡ true → contents q' ≡ (stored (b.entries q.backend) ++ os) ++ item ∷ [])
      go [] = (
        (b.push_unbuffered (single item) q.backend).0,
        record { outbound_works = []; backend = (b.push_unbuffered (single item) q.backend).1 },
        refl,
        λ h.
            append-nil _
            ∙ ap stored (laws.appends (single item) q.backend h)
            ∙ stored-snoc (b.entries q.backend) (single item)
            ∙ ap (λ xs. xs ++ item ∷ []) (sym (append-nil (stored (b.entries q.backend)))),
      )
      go (w ∷ ws) =
          let filled : WorkQueue Q = record {
            outbound_works = (w ∷ ws) ++ item ∷ [];
            backend = q.backend;
          } in
          let (sent, q', run, emptied, kept, lost) = flush-contents filled in
          (
            sent,
            q',
            run,
            λ h. kept h ∙ sym (append_assoc (stored (b.entries q.backend)) (w ∷ ws) (item ∷ [])),
          )
