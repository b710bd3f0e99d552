-- ===== src/Work/Exec.antt =====
-- `WorkItem.exec`: which outcome each course of the hooks leads to.
use smallpond.Prelude.{◌≡◌, ◌≢◌, ◌↔◌, true, none, arith}
use smallpond.Work.{
  WorkStatus, incomplete, succeed, same_status, WorkItem, Hooks, returns, returned, item_of, exec,
}

pub same_status-eq : (s t : WorkStatus) → same_status s t ≡ true → s ≡ t
same_status-eq s t h = ground arith

-- An item is executed once: to execute it again, with hooks that may behave otherwise by then,
-- returns its status and changes nothing.
exec_again :
    (hooks hooks' : Hooks) (w : WorkItem)
    → exec hooks' (item_of (exec hooks w)) ≡ returned (item_of (exec hooks w))
unfolding exec
exec_again hooks hooks' w = ground arith

-- Executing an item that is incomplete leaves it complete, also when `cleanup` raises, and with
-- the status SUCCEED exactly when `initialize` and `finalize` raise nothing and `run` returns true.
exec-succeed_iff :
    (hooks : Hooks) (w : WorkItem)
    → w.status ≡ incomplete
    → ((item_of (exec hooks w)).status ≢ incomplete)
      × (((item_of (exec hooks w)).status ≡ succeed)
          ↔ ((hooks.initialize ≡ none) × (hooks.run ≡ returns true) × (hooks.finalize ≡ none)))
unfolding exec
exec-succeed_iff hooks w h = (ground arith, (ground arith, ground arith))

-- Only the status and the recorded exception change.
pub exec_keeps :
    (hooks : Hooks) (w : WorkItem)
    → ((item_of (exec hooks w)).key ≡ w.key)
      × ((item_of (exec hooks w)).kind ≡ w.kind)
      × ((item_of (exec hooks w)).exec_id ≡ w.exec_id)
unfolding exec
exec_keeps hooks w = ground arith
