-- ===== src/Scheduler/Complete.antt =====
-- The whole of `dispatch_tasks`: every task that was in the queue, ran or had succeeded still does.
use mathlib.Core.List.{Perm, Permᴰ}
use mathlib.Core.Logic.{∥∥₁_elim}
use smallpond.Prelude.{
  List-cases, ℕ, ◌+◌, ◌-◌, ◌*◌, ◌≤◌, ◌<◌, ◌≡◌, refl, ap, ap₂, ◌∙◌, Bool, true, false, ◌||◌,
  or-right, inl, inr, List, [], ◌∷◌, ◌++◌, ◌==◌, suc, length, leb, le→leb, arith, All, Bool-cases,
}
use smallpond.Queue
use smallpond.Queue.{Backend, WorkQueue, Entry, make_batch}
use smallpond.Remote.{RemoteExecutor, is_running, flush}
use smallpond.Scheduler.{Task, key_of, Config, State, has_task}
use smallpond.Scheduler.Lookup.{has_task-append}
use smallpond.Scheduler.Plan.{Plan, IsAcyclic, IsSound}
use smallpond.Scheduler.Order.{order_queue}
use smallpond.Scheduler.Turns.{order_queue-Perm}
use smallpond.Scheduler.Budget.{budget}
use smallpond.Scheduler.Capacity.{IsWithin}
use smallpond.Scheduler.Given.{Ends, Ends-bind, runs_on}
use smallpond.Scheduler.Loop.{
  Round, set_queue, dispatch_loop, flush_all, is_final_phase, dispatch_tasks,
}
use smallpond.Scheduler.Served.{is_placed, set_queue-IsSound, queued, runs, done, where_kept}
use smallpond.Scheduler.Dispatched.{is_held, loop-Ends}

or_swap : (a b c : Bool) → (a || (b || c)) ≡ (b || (a || c))
or_swap true true c = refl
or_swap true false c = refl
or_swap false b c = refl

has_task-Permᴰ : (k : ℕ) {xs ys : List Task} → Permᴰ xs ys → has_task k xs ≡ has_task k ys
has_task-Permᴰ k Permᴰ.nil = refl
has_task-Permᴰ k (Permᴰ.cons {a = a} {b = b} {l₁ = l₁} {l₂ = l₂} e d) =
    ap₂ (λ c h. (key_of c == k) || h) e (has_task-Permᴰ k d)
has_task-Permᴰ k (Permᴰ.swap {a = a} {b = b} {a' = a'} {b' = b'} {l = l} e e') =
    or_swap (key_of a == k) (key_of b == k) (has_task k l)
    ∙ ap₂ (λ x y. (key_of x == k) || ((key_of y == k) || has_task k l)) e' e
has_task-Permᴰ k (Permᴰ.trans d d') = has_task-Permᴰ k d ∙ has_task-Permᴰ k d'

has_task-Perm : (k : ℕ) {xs ys : List Task} → Perm xs ys → has_task k xs ≡ has_task k ys
has_task-Perm k d = ∥∥₁_elim d (hlevel) (has_task-Permᴰ k)

length-Permᴰ : {xs ys : List Task} → Permᴰ xs ys → length xs ≡ length ys
length-Permᴰ Permᴰ.nil = refl
length-Permᴰ (Permᴰ.cons e d) = ap suc (length-Permᴰ d)
length-Permᴰ (Permᴰ.swap e e') = refl
length-Permᴰ (Permᴰ.trans d d') = length-Permᴰ d ∙ length-Permᴰ d'

length-Perm : {xs ys : List Task} → Perm xs ys → length xs ≡ length ys
length-Perm d = ∥∥₁_elim d (hlevel) length-Permᴰ

has_task-right : (k : ℕ) (ts us : List Task) → has_task k us ≡ true → has_task k (ts ++ us) ≡ true
has_task-right k [] us h = h
has_task-right k (t ∷ ts) us h =
    or-right (key_of t == k) (has_task k (ts ++ us)) (has_task-right k ts us h)

-- A push to the work queue that succeeds, as `os.rename` and `queue.Queue.put` do.
abbrev pub Accepts : {Q : Type 0} → Backend Q → Type 0
Accepts {Q} b = (entry : Entry) (q : Q) → (b.push_unbuffered entry q).0 ≡ true

module _ {Q : Type 0} (b : Backend Q) (accepts : Accepts b) where
  queue_flush-Ends : (q : WorkQueue Q) → Ends (Queue.flush b q) (λ (sent, q'). sent ≡ true)
  unfolding Queue.flush make_batch
  queue_flush-Ends q = elim (List-cases q.outbound_works) [
    | inl empty ↦ rw (empty, Queue.flush) refl
    | inr (w, ws, full) ↦ rw (full, Queue.flush) (accepts _ q.backend)
  ]

  flush-Ends :
      (e : RemoteExecutor Q)
      → IsWithin e
      → Ends (flush b e) (λ (e', sent).
        (sent ≡ true)
        × IsWithin e'
        × ((k : ℕ) → is_running k e'.running_works ≡ is_running k e.running_works))
  unfolding flush
  flush-Ends e v = Ends-bind (Queue.flush b e.wq) _ _ _ (queue_flush-Ends e.wq) (λ (sent, q') sure.
      (
        sure,
        record { cpus = v.cpus; gpus = v.gpus; memory = v.memory; works = v.works },
        λ k. refl,
      ))

  -- The same executors, but for their queues.
  record IsFlushed (es es' : List (RemoteExecutor Q)) : Type 0 where
    within : All IsWithin es'
    same_count : length es' ≡ length es
    same_runs : (k : ℕ) → runs_on k es' ≡ runs_on k es

  flush_all-Ends :
      (es : List (RemoteExecutor Q))
      → All IsWithin es
      → Ends (flush_all b es) (λ (es', flushed). (flushed ≡ true) × IsFlushed es es')
  unfolding flush_all
  flush_all-Ends [] w = (refl, record { within = tt; same_count = refl; same_runs = λ k. refl })
  flush_all-Ends (e ∷ es) (v, w) =
      Ends-bind (flush b e) _ _ _ (flush-Ends e v) (λ (e', sent) (sure, within, runs_same).
        Ends-bind (flush_all b es) _ _ _ (flush_all-Ends es w) (λ (es', all_sent) (all_sure, rest).
          (
            rw (sure, all_sure) refl,
            record {
              within = (within, rest.within);
              same_count = ap suc rest.same_count;
              same_runs = λ k. ap₂ ◌||◌ (runs_same k) (rest.same_runs k);
            },
          )))

-- What `dispatch_tasks` leaves: a sound state, executors that hold no more than they have, and every
-- task where it was or in a later place.
pub record IsDispatched (p : Plan) {Q : Type 0} (es es' : List (RemoteExecutor Q)) (s s' : State)
    : Type 0 where
  sound : IsSound p s'
  within : All IsWithin es'
  same_count : length es' ≡ length es
  placed : (k : ℕ) → is_placed k es s ≡ true → is_placed k es' s' ≡ true

module _ (p : Plan) (cfg : Config) {Q : Type 0} (b : Backend Q) where
  -- What the loop, the flush and the end of the method keep together.
  dispatched_places :
      (k : ℕ) (aside : List Task) (r : Round Q) (es' : List (RemoteExecutor Q))
      → ((j : ℕ) → runs_on j es' ≡ runs_on j r.executors)
      → is_held k aside r ≡ true
      → is_placed k es' (set_queue (r.state.sched_queue ++ aside) r.state) ≡ true
  dispatched_places k aside r es' same h = elim (Bool-cases (has_task k aside)) [
    | inl there ↦ rw (has_task-right k r.state.sched_queue aside there) refl
    | inr gone ↦ elim (where_kept k r (rw gone at h)) [
      | queued here ↦ rw (has_task-append k r.state.sched_queue aside here) refl
      | runs on ↦ or-right (has_task k (r.state.sched_queue ++ aside)) _ (rw (same k, on) refl)
      | done has ↦
          or-right (has_task k (r.state.sched_queue ++ aside)) _ (or-right (runs_on k es') _ has)
    ]
  ]

  -- In a sound state of an acyclic plan, with the fuel that the plan and the queue ask for, where no
  -- good executor is given more than it has, no more nontrivial tasks have succeeded than there are,
  -- and the work queues accept what is pushed, `dispatch_tasks` comes to an end: unless a division by
  -- an executor's 0 cores or an item's 0 cores raises, the state stays sound, no good executor is
  -- given more works, cores, GPUs or memory than it has, and each task that was queued, ran on a
  -- good executor or had succeeded is still so.
  pub dispatch_tasks_total :
      IsAcyclic p
      → p.depth < cfg.fuel
      → Accepts b
      → (prioritize_retry : Bool) (enabled : Task → Bool) (num_nontrivial num_running fuel : ℕ)
      → (es : List (RemoteExecutor Q)) (s : State) → IsSound p s
      → All IsWithin es
      → length s.succeeded_nontrivial_tasks ≤ num_nontrivial
      → budget s ≤ fuel
      → Ends
          (dispatch_tasks b cfg prioritize_retry enabled num_nontrivial num_running fuel es s)
          (λ (es', s', n). IsDispatched p es es' s s')
  unfolding dispatch_tasks is_final_phase
  dispatch_tasks_total acyclic enough accepts prioritize_retry enabled num_nontrivial num_running
        fuel es s i w few small =
      let ordered = order_queue prioritize_retry s.sched_queue in
      let start : Round Q = record {
        state = set_queue ordered s;
        executors = es;
        num_dispatched = 0;
        popped = false;
      } in
      let phase =
        leb (num_nontrivial - length s.succeeded_nontrivial_tasks) (length es * 2 + num_running) in
      let perm = order_queue-Perm prioritize_retry s.sched_queue in
      let long = length-Perm perm in
      rw (le→leb _ _ few) (
        Ends-bind (dispatch_loop b cfg phase enabled fuel [] start) _ _ _
          (loop-Ends p cfg acyclic enough b phase enabled fuel [] start (omega arith)
            (set_queue-IsSound p ordered s i) w)
          (λ (aside, r) finishes.
            Ends-bind (flush_all b r.executors) _ _ _
              (flush_all-Ends b accepts r.executors finishes.within)
              (λ (es', flushed) (sure, all_flushed). rw sure (record {
                sound = set_queue-IsSound p _ r.state finishes.sound;
                within = all_flushed.within;
                same_count = all_flushed.same_count ∙ finishes.same_count;
                placed = λ k h.
                    dispatched_places k aside r es' all_flushed.same_runs
                      (finishes.keeps k (rw (has_task-Perm k perm) h));
              }))))
