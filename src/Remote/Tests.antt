-- ===== src/Remote/Tests.antt =====
-- An executor that is probed, given works and stopped, and the theorems about executors there.
use smallpond.Prelude.{◌-◌, ◌≤◌, ◌≡◌, refl, true, false, List, [], ◌∷◌, ok, arith}
use smallpond.Work.{WorkItem, succeed, probe, stop_executor}
use smallpond.Work.Samples.{item}
use smallpond.Queue.{Entry, WorkQueue, in_memory, in_memory_push}
use smallpond.Queue
use smallpond.Remote.{
  RemoteExecutor, fail, stopped, control_item, fresh_probe, init, Call, pop_call, push_call,
  flush_call, probe_call, stop_call, update_call, add_running_work, pop_running_work, settle,
  pop_kind, pop_one, pop, push, flush, send_probe, stop, update_state, call, calls,
}
use smallpond.Remote.Alloc.{IsConsistent, calls-IsConsistent}
use smallpond.Remote.States.{IsOrderly, calls-IsOrderly, update_state_stops}

abbrev empty_queue : WorkQueue (List Entry)
empty_queue = record { outbound_works = []; backend = [] }

-- A probe of epoch 5 that found 16 cores.
abbrev probed : WorkItem
probed =
    record (control_item 70
      (probe (record (fresh_probe 5) { resource_low = false; cpu_count = 16 }))) {
        status = succeed;
      }

abbrev stop_acknowledged : WorkItem
stop_acknowledged = record (control_item 80 (stop_executor true)) { status = succeed }

abbrev history : List Call
history =
    probe_call 70 5
    ∷ pop_call (probed ∷ [])
    ∷ update_call 2 5
    ∷ push_call (item 1) true
    ∷ push_call (item 2) true
    ∷ flush_call
    ∷ stop_call 80
    ∷ pop_call (stop_acknowledged ∷ [])
    ∷ update_call 2 5
    ∷ update_call 2 5
    ∷ []

-- What `calls` leaves: two works are running still.
abbrev left : RemoteExecutor (List Entry)
left = elim (calls in_memory history (init 1 empty_queue 0)) [ ok e ↦ e | _ ↦ init 1 empty_queue 0 ]

left_state : (left.state ≡ stopped) × (left.allocated_cpus ≡ 2) × (left.allocated_memory ≡ 200)
unfolding calls call push flush stop send_probe pop pop_one pop_kind settle pop_running_work
    add_running_work update_state init Queue.push Queue.flush in_memory_push
left_state = (refl, refl, refl)

history-runs : calls in_memory history (init 1 empty_queue 0) ≡ ok left
unfolding calls call push flush stop send_probe pop pop_one pop_kind settle pop_running_work
    add_running_work update_state init Queue.push Queue.flush in_memory_push
history-runs = refl

calls-IsConsistent_example : IsConsistent left
calls-IsConsistent_example = calls-IsConsistent in_memory 1 0 empty_queue history left history-runs

calls-IsOrderly_example : IsOrderly left
calls-IsOrderly_example = calls-IsOrderly in_memory 1 0 empty_queue history left history-runs

abbrev stopping_soon : RemoteExecutor (List Entry)
stopping_soon = record (init 1 empty_queue 7) {
  state = fail;
  stop_request_sent = true;
  stop_request_acked = true;
}

recent_probe : 8 - stopping_soon.last_acked_probe.info.epoch ≤ 2
unfolding init
recent_probe = omega arith

update_state_stops_example : (update_state 2 8 (update_state 2 8 stopping_soon).0).0.state ≡ stopped
update_state_stops_example = update_state_stops 2 8 stopping_soon refl refl recent_probe
