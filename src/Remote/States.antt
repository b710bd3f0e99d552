-- ===== src/Remote/States.antt =====
-- The states of an executor: the protocol that stops it, and what `update_state` reports.
use smallpond.Prelude.{
  ℕ, ◌-◌, ◌≤◌, ◌≡◌, ◌≢◌, ◌↔◌, refl, true, List, arith, ok, Option-cases, Bool-cases, inl, inr,
}
use smallpond.Work.{
  WorkItem, Kind, plain, task, probe, stop_executor, stop_work_item, incomplete, same_status,
}
use smallpond.Queue.{WorkQueue, Backend}
use smallpond.Remote.Calls.{Leaves, Rule, calls_rule}
use smallpond.Remote.{
  ack_stop, find_work, init, settle, pop_running_work, pop_kind, Call, calls, RemoteExecutor,
  stopping, stopped, update_state,
}

module _ {Q : Type 0} where
  -- `update_state` returns true exactly when the state is another one than before, and never
  -- changes the state of a stopped executor.
  update_state-changed_iff :
      (max_missed epoch : ℕ) (e : RemoteExecutor Q)
      → (((update_state max_missed epoch e).1 ≡ true)
          ↔ ((update_state max_missed epoch e).0.state ≢ e.state))
        × (e.state ≡ stopped → (update_state max_missed epoch e).0 ≡ e)
  unfolding update_state
  update_state-changed_iff m epoch e = ((λ h. ground arith, λ h. ground arith), λ h. ground arith)

  -- Once a stop request was sent and acknowledged, an executor that has missed no more probes than
  -- allowed is stopped by two updates, whatever state it was in, also after a failure.
  pub update_state_stops :
      (max_missed epoch : ℕ) (e : RemoteExecutor Q)
      → e.stop_request_sent ≡ true
      → e.stop_request_acked ≡ true
      → epoch - e.last_acked_probe.info.epoch ≤ max_missed
      → (update_state max_missed epoch (update_state max_missed epoch e).0).0.state ≡ stopped
  unfolding update_state
  update_state_stops m epoch e sent acked recent = ground arith

  -- A stopping executor was sent a stop request, and a stopped one has acknowledged it.
  pub record IsOrderly (e : RemoteExecutor Q) : Type 0 where
    pub requested : e.state ≡ stopping → e.stop_request_sent ≡ true
    pub acknowledged :
        e.state ≡ stopped → (e.stop_request_sent ≡ true) × (e.stop_request_acked ≡ true)

  update_state-IsOrderly :
      (m epoch : ℕ) (e : RemoteExecutor Q) → IsOrderly e → IsOrderly (update_state m epoch e).0
  unfolding update_state
  update_state-IsOrderly m epoch e o = record {
    requested = λ h. ground (arith, o.requested, o.acknowledged);
    acknowledged = λ h. ground (arith, o.requested, o.acknowledged);
  }

  pop_running_work-IsOrderly :
      (key : ℕ) (e : RemoteExecutor Q) → IsOrderly e → IsOrderly (pop_running_work key e)
  unfolding pop_running_work
  pop_running_work-IsOrderly key e o = elim (Option-cases (find_work key e.running_works)) [
    | inl missing ↦ rw (missing, pop_running_work) o
    | inr (w, found) ↦
        rw (found, pop_running_work)
          (record { requested = o.requested; acknowledged = o.acknowledged })
  ]

  settle-IsOrderly :
      (item : WorkItem) (e : RemoteExecutor Q) → IsOrderly e → IsOrderly (settle item e)
  unfolding settle
  settle-IsOrderly item e o = elim (Bool-cases (same_status item.status incomplete)) [
    | inl h ↦ rw h o
    | inr h ↦ rw h (pop_running_work-IsOrderly item.key e o)
  ]

  pop_kind-IsOrderly :
      (k : Kind) (item : WorkItem) (e : RemoteExecutor Q)
      → IsOrderly e
      → Leaves IsOrderly (pop_kind k item e)
  unfolding pop_kind settle pop_running_work
  pop_kind-IsOrderly (probe info) item e o = record {
    requested = o.requested;
    acknowledged = o.acknowledged;
  }
  pop_kind-IsOrderly (stop_work_item key) item e o = pop_running_work-IsOrderly key e o
  pop_kind-IsOrderly (stop_executor ack) item e o =
      settle-IsOrderly item (ack_stop e)
        (record { requested = o.requested; acknowledged = λ h. ground (arith, o.acknowledged) })
  pop_kind-IsOrderly (task t) item e o = settle-IsOrderly item e o
  pop_kind-IsOrderly plain item e o = tt

  IsOrderly-Rule : Rule {Q = Q} IsOrderly
  unfolding init
  IsOrderly-Rule = record {
    fresh = λ id wq epoch. record { requested = λ h. cc; acknowledged = λ h. absurd (cc) };
    sends = λ e wq o. record { requested = o.requested; acknowledged = o.acknowledged };
    adds = λ item e new o. record { requested = o.requested; acknowledged = o.acknowledged };
    pops = pop_kind-IsOrderly;
    requests =
        λ e o. record { requested = λ h. refl; acknowledged = λ h. (refl, (o.acknowledged h).1) };
    updates = update_state-IsOrderly;
  }

-- Whatever sequence of calls a new executor goes through, if none raises, a stopping executor was
-- sent a stop request, and a stopped one was sent one and has acknowledged one.
pub calls-IsOrderly :
    {Q : Type 0} (b : Backend Q) (id epoch : ℕ) (wq : WorkQueue Q) (cs : List Call)
    (e : RemoteExecutor Q)
    → calls b cs (init id wq epoch) ≡ ok e
    → IsOrderly e
calls-IsOrderly b = calls_rule IsOrderly-Rule b
