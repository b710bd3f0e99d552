-- ===== src/Executor/Rounds.antt =====
-- A round of `exec_loop` keeps the accounts of the GPUs.
use smallpond.Prelude.{
  ℕ, ◌≡◌, refl, Bool, false, inl, inr, List, [], ◌∷◌, Option, none, some, All, Bool-cases,
  List-cases, ◌==◌, Result, Ensures-bind,
}
use smallpond.Work.{WorkItem, Kind, plain, task, probe, stop_executor, stop_work_item}
use smallpond.Queue
use smallpond.Queue.{Backend, WorkQueue, make_batch}
use smallpond.Executor.Pool.{Exits, update_queue, has_started}
use smallpond.Executor.Collect.{
  Running, Executor, find_running, push_completed, collect_finished_works,
}
use smallpond.Executor.Balance.{has_work, IsBalanced}
use smallpond.Executor.Loop.{
  start_work, skip_probe, stop_work, handle_kind, handle_items, is_stop, exec_round,
}
use smallpond.Executor.Starts.{IsAllowed, Safe, Steps, Steps-same, collect-Safe, start-Safe}

-- The keys of the items differ, and none of them is the key of a running work.
abbrev pub AreNew : List WorkItem → List Running → Type 0
AreNew [] rs = Unit
AreNew (w ∷ ws) rs =
    (has_work w.key rs ≡ false) × All (λ v. (w.key == v.key) ≡ false) ws × AreNew ws rs

AreNew-step :
    (key : ℕ) (ws : List WorkItem) (rs rs' : List Running)
    → ((k : ℕ) → (key == k) ≡ false → has_work k rs ≡ false → has_work k rs' ≡ false)
    → All (λ v. (key == v.key) ≡ false) ws
    → AreNew ws rs
    → AreNew ws rs'
AreNew-step key [] rs rs' keeps others new = tt
AreNew-step key (w ∷ ws) rs rs' keeps (other, others) (new, apart, rest) =
    (keeps w.key other new, apart, AreNew-step key ws rs rs' keeps others rest)

module _ {Q : Type 0} (b : Backend Q) (unit : ℕ) (whole : ℕ → ℕ) where
  flush-Safe : (q : WorkQueue Q) → Safe (Queue.flush b q) (λ _. Unit {0})
  unfolding Queue.flush make_batch
  flush-Safe q = elim (List-cases q.outbound_works) [
    | inl empty ↦ rw (empty, Queue.flush) tt
    | inr (w, ws, full) ↦ rw (full, Queue.flush) tt
  ]

  push-Safe : (item : WorkItem) (q : WorkQueue Q) → Safe (Queue.push b item false q) (λ _. Unit {0})
  unfolding Queue.push
  push-Safe item q = elim (List-cases q.outbound_works) [
    | inl empty ↦ rw (empty, Queue.push) tt
    | inr (w, ws, full) ↦ rw (full, Queue.push) (flush-Safe _)
  ]

  push_completed-Safe :
      (key : ℕ) (item : WorkItem) (e : Executor Q)
      → IsBalanced unit whole e
      → Safe (push_completed b item e) (Steps unit whole key e)
  unfolding push_completed
  push_completed-Safe key item e i =
      Ensures-bind IsAllowed (Queue.push b item false e.cq) _ _ (Steps unit whole key e)
        (push-Safe item e.cq)
        (λ (sent, cq) done. Steps-same unit whole key e (record e { cq = cq }) i refl refl)

  module _ (terminate : Bool → Result (Unit {0}))
      (terminates : (started : Bool) → Safe (terminate started) (λ _. Unit {0})) where
    stop-Safe :
        (key : ℕ) (item : WorkItem) (found : Option Running) (e : Executor Q)
        → IsBalanced unit whole e
        → Safe (stop_work b terminate item found e) (Steps unit whole key e)
    unfolding push_completed
    stop-Safe key item none e i = push_completed-Safe key item e i
    stop-Safe key item (some r) e i =
        Ensures-bind IsAllowed (terminate (has_started r.pool_task e.pool.started)) _ _
          (Steps unit whole key e) (terminates (has_started r.pool_task e.pool.started))
          (λ done ended. Steps-same unit whole key e _ i refl refl)

    abbrev Stepped : ℕ → Executor Q → Executor Q × Option WorkItem → Type 0
    Stepped key e (e', stop) = Steps unit whole key e e'

    kind-Safe :
        (polls : ℕ → List Exits) (kind : Kind) (item : WorkItem) (e : Executor Q)
        → has_work item.key e.running_works ≡ false
        → IsBalanced unit whole e
        → Safe (handle_kind b unit terminate polls kind item e) (Stepped item.key e)
    unfolding handle_kind
    kind-Safe polls (stop_executor ack) item e new i =
        Steps-same unit whole item.key e (record e { is_running = false }) i refl refl
    kind-Safe polls (stop_work_item key) item e new i =
        Ensures-bind IsAllowed (stop_work b terminate item (find_running key e.running_works) e) _ _
          (Stepped item.key e) (stop-Safe item.key item (find_running key e.running_works) e i)
          (λ e' steps. steps)
    kind-Safe polls (task info) item e new i =
        Ensures-bind IsAllowed (start_work b unit polls item e) _ _ (Stepped item.key e)
          (start-Safe b unit whole polls item e new i) (λ e' steps. steps)
    kind-Safe polls plain item e new i =
        Ensures-bind IsAllowed (start_work b unit polls item e) _ _ (Stepped item.key e)
          (start-Safe b unit whole polls item e new i) (λ e' steps. steps)
    kind-Safe polls (probe info) item e new i =
        let counted = record e { epochs_to_skip = (skip_probe info e.epochs_to_skip).0 } in
        let same = Steps-same unit whole item.key e counted i refl refl in
        elim (Bool-cases (skip_probe info e.epochs_to_skip).1) [
          | inl skipped ↦ rw skipped same
          | inr kept ↦ rw kept (
              Ensures-bind IsAllowed (start_work b unit polls item counted) _ _ (Stepped item.key e)
                (start-Safe b unit whole polls item counted new same.balanced)
                (λ e' steps. record { balanced = steps.balanced; fewer = steps.fewer }))
        ]

    items-Safe :
        (polls : ℕ → List Exits) (items : List WorkItem) (e : Executor Q)
        → AreNew items e.running_works
        → IsBalanced unit whole e
        → Safe
            (handle_items b unit terminate polls items e)
            (λ (e', stop). IsBalanced unit whole e')
    unfolding handle_items
    items-Safe polls [] e new i = i
    items-Safe polls (item ∷ items) e (new, others, later) i =
        Ensures-bind IsAllowed (handle_kind b unit terminate polls item.kind item e) _ _ _
          (kind-Safe polls item.kind item e new i)
          (λ (e', stop) steps. elim (Bool-cases (is_stop stop)) [
            | inl stops ↦ rw stops steps.balanced
            | inr goes ↦ rw goes (
                items-Safe polls items e'
                  (AreNew-step item.key items e.running_works e'.running_works steps.fewer others
                    later)
                  steps.balanced)
          ])

    -- For quotas that are multiples of one binary fraction of a GPU, so that floats add and subtract
    -- them exactly: a round of the executor's loop that meets works with keys which are new and differ
    -- keeps the accounts of the GPUs balanced. It raises nothing but the AttributeError of an item that asks for
    -- more GPUs than there are, or of a termination, or it still waits for GPUs when the account
    -- of what it finds while it waits is at its end.
    pub exec_round-IsBalanced :
        (pool_size : ℕ) (polls : ℕ → List Exits) (now later : Exits) (items : List WorkItem)
        (e : Executor Q)
        → AreNew items e.running_works
        → IsBalanced unit whole e
        → Safe
            (exec_round b unit terminate pool_size polls now later items e)
            (λ (e', stop). IsBalanced unit whole e')
    unfolding exec_round
    exec_round-IsBalanced pool_size polls now later items e new i =
        Ensures-bind IsAllowed (handle_items b unit terminate polls items e) _ _ _
          (items-Safe polls items e new i)
          (λ (e', stop) balanced.
            let updated = record e' { pool = update_queue pool_size now e'.pool } in
            Ensures-bind IsAllowed (collect_finished_works b unit later updated) _ _ _
              (collect-Safe b unit whole later updated
                (Steps-same unit whole 0 e' updated balanced refl refl).balanced)
              (λ e'' follows. follows.balanced))
