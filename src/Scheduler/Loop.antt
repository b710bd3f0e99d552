-- ===== src/Scheduler/Loop.antt =====
-- smallpond/execution/scheduler.py, the loop of `dispatch_tasks` over the queue and the good executors.
-- A memory limit that an item is given is written to the item in the queue; the copy of the item in
-- `scheduled_tasks`, of which only the runtime id is read, is left as it is. `popped` says that a task
-- was taken from the head of the queue, which is then another object.
use smallpond.Prelude.{
  ℕ, zero, suc, ◌+◌, ◌-◌, ◌*◌, Bool, true, false, ◌&&◌, List, [], ◌∷◌, ◌++◌, map, Option, none,
  some, length, ltb, leb, ◌==◌, if◌then◌else◌, Result, ok, raise, ◌>>=◌, ◌>>◌, guard, of_option,
  key_error, assertion_error, out_of_fuel,
}
use smallpond.Sorts.{sort_with}
use smallpond.Work.{WorkItem}
use smallpond.Queue.{Backend}
use smallpond.Remote.{RemoteExecutor, busy, flush}
use smallpond.Scheduler.{Task, key_of, Config, State, find_task, get_runnable_tasks, try_enqueue}
use smallpond.Scheduler.Order.{order_queue}
use smallpond.Scheduler.Dispatch.{default_memory_limit, assign_limited}

pub record Round (Q : Type 0) : Type 0 where
  pub state : State
  pub executors : List (RemoteExecutor Q)
  pub num_dispatched : ℕ
  pub popped : Bool

abbrev pub set_queue : List Task → State → State
set_queue ts s = record s { sched_queue = ts }

abbrev pub with_work : WorkItem → Task → Task
with_work w t = record t { work = w }

-- A task that has succeeded already: the tasks behind it are enqueued.
unfoldable pub skip_succeeded : Config → Task → State → Result State
unfolding get_runnable_tasks try_enqueue
skip_succeeded cfg t s = do
  done ← of_option key_error (find_task (key_of t) s.succeeded_tasks)
  runnable ← get_runnable_tasks done s
  try_enqueue cfg runnable s

-- The queue and the unassigned tasks after the executors were visited.
abbrev pub set_aside : Bool → List Task → List Task → List Task × List Task
set_aside false (t ∷ ts) unassigned = (ts, unassigned ++ t ∷ [])
set_aside _ ts unassigned = (ts, unassigned)

module _ {Q : Type 0} where
  -- `while self.sched_queue and self.good_executors`
  abbrev pub is_going : Round Q → Bool
  is_going r = ltb 0 (length r.state.sched_queue) && ltb 0 (length r.executors)

  abbrev pub usable_executors : List (RemoteExecutor Q) → List (RemoteExecutor Q)
  usable_executors [] = []
  usable_executors (e ∷ es) = if busy e then usable_executors es else e ∷ usable_executors es

  abbrev pub fewer_works : RemoteExecutor Q → RemoteExecutor Q → Bool
  fewer_works e f = ltb (length e.running_works) (length f.running_works)

  abbrev pub exec_id_of : RemoteExecutor Q → ℕ
  exec_id_of e = e.id

  unfoldable pub visiting_order : List (RemoteExecutor Q) → List ℕ
  unfolding sort_with
  visiting_order es = map exec_id_of (sort_with fewer_works (usable_executors es))

  abbrev pub find_executor : ℕ → List (RemoteExecutor Q) → Option (RemoteExecutor Q)
  find_executor id [] = none
  find_executor id (e ∷ es) = if e.id == id then some e else find_executor id es

  abbrev pub set_executor : ℕ → RemoteExecutor Q → List (RemoteExecutor Q) → List (RemoteExecutor Q)
  set_executor id e' [] = []
  set_executor id e' (e ∷ es) = if e.id == id then e' ∷ es else e ∷ set_executor id e' es

  -- The head of the queue is pushed to the executor, or stays where it is.
  abbrev pub after_offer : Task → List Task → RemoteExecutor Q → Bool → Round Q → Round Q
  after_offer t ts e' true r = record r {
    state = set_queue ts r.state;
    executors = set_executor e'.id e' r.executors;
    num_dispatched = r.num_dispatched + 1;
    popped = true;
  }
  after_offer t ts e' false r = record r { state = set_queue (t ∷ ts) r.state }

  module _ (b : Backend Q) (cfg : Config) (final_phase : Bool) (enabled : Task → Bool) where
    -- The branch for a task that has succeeded, and the one for a task that has not.
    unfoldable pub offer_found :
        Option Task → Task → List Task → WorkItem → RemoteExecutor Q → Round Q → Result (Round Q)
    unfolding skip_succeeded assign_limited
    offer_found (some done) t ts limited e r = do
      s' ← skip_succeeded cfg t (set_queue ts r.state)
      ok (record r { state = s'; popped = true })
    offer_found none t ts limited e r = do
      (e', taken) ← assign_limited b final_phase (enabled t) limited e
      ok (after_offer (with_work limited t) ts e' taken r)

    -- The body of the loop over the executors.
    unfoldable pub offer : Task → List Task → RemoteExecutor Q → Round Q → Result (Round Q)
    unfolding offer_found default_memory_limit
    offer t ts e r = do
      limited ← default_memory_limit t.work e
      offer_found (find_task (key_of t) r.state.succeeded_tasks) t ts limited e r

    unfoldable pub offer_head : List Task → Option (RemoteExecutor Q) → Round Q → Result (Round Q)
    unfolding offer
    offer_head (t ∷ ts) (some e) r = offer t ts e r
    offer_head _ _ r = ok r

    unfoldable pub visit_executors : List ℕ → Round Q → Result (Round Q)
    unfolding offer_head
    visit_executors [] r = ok r
    visit_executors (id ∷ ids) r = do
      r' ← offer_head r.state.sched_queue (find_executor id r.executors) r
      visit_executors ids r'

    -- One round of the loop over the queue.
    unfoldable pub dispatch_round : List Task → Round Q → Result (List Task × Round Q)
    unfolding visit_executors visiting_order
    dispatch_round unassigned r = do
      r' ← visit_executors (visiting_order r.executors) (record r { popped = false })
      let (queue, aside) = set_aside r'.popped r'.state.sched_queue unassigned
      ok (aside, record r' { state = set_queue queue r'.state })

    -- The loop: what is left unassigned, and the last round.
    unfoldable pub dispatch_loop : ℕ → List Task → Round Q → Result (List Task × Round Q)
    unfolding dispatch_round
    dispatch_loop zero unassigned r = if is_going r then raise out_of_fuel else ok (unassigned, r)
    dispatch_loop (suc fuel) unassigned r =
        let next = dispatch_round unassigned r >>= λ (aside, r'). dispatch_loop fuel aside r' in
        if is_going r then next else ok (unassigned, r)

  -- `all(pool.map(RemoteExecutor.flush, self.good_executors))`
  unfoldable pub flush_all :
      Backend Q → List (RemoteExecutor Q) → Result (List (RemoteExecutor Q) × Bool)
  unfolding flush
  flush_all b [] = ok ([], true)
  flush_all b (e ∷ es) = do
    (e', flushed) ← flush b e
    (es', all_flushed) ← flush_all b es
    ok (e' ∷ es', flushed && all_flushed)

  -- Few tasks are left for the executors.
  unfoldable pub is_final_phase :
      (num_nontrivial num_running : ℕ) → List (RemoteExecutor Q) → State → Result Bool
  is_final_phase num_nontrivial num_running es s = do
    guard (leb (length s.succeeded_nontrivial_tasks) num_nontrivial) assertion_error
    ok (leb (num_nontrivial - length s.succeeded_nontrivial_tasks) (length es * 2 + num_running))

  -- `dispatch_tasks`: the good executors and the state afterwards, and the tasks given out.
  unfoldable pub dispatch_tasks :
      Backend Q
      → Config
      → (prioritize_retry : Bool) → (enabled : Task → Bool) → (num_nontrivial num_running fuel : ℕ)
      → List (RemoteExecutor Q)
      → State
      → Result (List (RemoteExecutor Q) × State × ℕ)
  unfolding order_queue dispatch_loop flush_all is_final_phase
  dispatch_tasks b cfg prioritize_retry enabled num_nontrivial num_running fuel es s = do
    final_phase ← is_final_phase num_nontrivial num_running es s
    let ordered = set_queue (order_queue prioritize_retry s.sched_queue) s
    (unassigned, r) ←
        dispatch_loop b cfg final_phase enabled fuel []
          (record { state = ordered; executors = es; num_dispatched = 0; popped = false })
    (es', flushed) ← flush_all b r.executors
    guard flushed assertion_error
    ok (es', set_queue (r.state.sched_queue ++ unassigned) r.state, r.num_dispatched)
