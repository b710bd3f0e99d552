-- ===== src/Scheduler/Served.antt =====
-- What a round of `dispatch_tasks` keeps: no task is lost, and no executor is given too much.
use smallpond.Prelude.{
  ℕ, ◌+◌, ◌≤◌, ◌<◌, ◌≡◌, refl, sym, ap, ◌∙◌, subst, Bool, true, false, ◌||◌, ◌⊎◌, or-right, inl,
  inr, List, ◌∷◌, Option, none, some, length, arith, All, Bool-cases, ◌==◌, ok, bind_step,
}
use smallpond.Work.{WorkItem}
use smallpond.Queue.{Backend}
use smallpond.Remote.{RemoteExecutor}
use smallpond.Scheduler.{Task, key_of, Config, State, find_task, has_task}
use smallpond.Scheduler.Lookup.{has_task-find, All-find, All-map}
use smallpond.Scheduler.Plan.{Plan, IsAcyclic, IsSound}
use smallpond.Scheduler.Fetch.{runnable_total}
use smallpond.Scheduler.Enqueued.{Enqueued-IsSound}
use smallpond.Scheduler.Enqueue.{try_enqueue_total}
use smallpond.Scheduler.Budget.{budget, IsFrugal, enqueue_behind-IsFrugal}
use smallpond.Scheduler.Dispatch.{default_memory_limit, assign_limited}
use smallpond.Scheduler.Capacity.{IsWithin}
use smallpond.Scheduler.Given.{
  Ends, Ends-bind, default_limit-Ends, assign_limited-Ends, Answers, runs_on, Replaces,
  set_executor-Replaces,
}
use smallpond.Scheduler.Loop.{
  Round, set_queue, with_work, find_executor, set_executor, after_offer, skip_succeeded,
  offer_found, offer,
}

abbrev pub cost : Bool → ℕ
cost true = 1
cost false = 0

-- A task of that key is queued, runs on an executor, or has succeeded.
abbrev pub is_placed : {Q : Type 0} → ℕ → List (RemoteExecutor Q) → State → Bool
is_placed k es s = has_task k s.sched_queue || (runs_on k es || has_task k s.succeeded_tasks)

abbrev pub is_kept : {Q : Type 0} → ℕ → Round Q → Bool
is_kept k r = is_placed k r.executors r.state

-- Where a task of a key is.
pub data Where (Q : Type 0) (k : ℕ) (r : Round Q) : Type 0 where
  queued : has_task k r.state.sched_queue ≡ true → Where Q k r
  runs : runs_on k r.executors ≡ true → Where Q k r
  done : has_task k r.state.succeeded_tasks ≡ true → Where Q k r

pub where_kept : {Q : Type 0} (k : ℕ) (r : Round Q) → is_kept k r ≡ true → Where Q k r
where_kept k r h = elim (Bool-cases (has_task k r.state.sched_queue)) [
  | inl there ↦ queued there
  | inr gone ↦ elim (Bool-cases (runs_on k r.executors)) [
    | inl there ↦ runs there
    | inr idle ↦ done (rw (gone, idle) at h)
  ]
]

pub kept_where : {Q : Type 0} (k : ℕ) (r : Round Q) → Where Q k r → is_kept k r ≡ true
kept_where k r (queued h) = rw h refl
kept_where k r (runs h) = or-right (has_task k r.state.sched_queue) _ (rw h refl)
kept_where k r (done h) =
    or-right (has_task k r.state.sched_queue) _ (or-right (runs_on k r.executors) _ h)

pub head_or_tail :
    (k : ℕ) (t : Task) (ts : List Task)
    → has_task k (t ∷ ts) ≡ true
    → (key_of t ≡ k) ⊎ (has_task k ts ≡ true)
head_or_tail k t ts h = elim (Bool-cases (key_of t == k)) [
  | inl e ↦ inl (ground arith)
  | inr e ↦ inr (rw e at h)
]

pub set_queue-IsSound :
    (p : Plan) (ts : List Task) (s : State) → IsSound p s → IsSound p (set_queue ts s)
set_queue-IsSound p ts s i = record {
  planned = i.planned;
  present = i.present;
  succeeded = i.succeeded;
  settled = i.settled;
  scheduled = i.scheduled;
  distinct = i.distinct;
}

module _ (p : Plan) where
  pub record Serves {Q : Type 0} (r r' : Round Q) : Type 0 where
    pub sound : IsSound p r'.state
    pub within : All IsWithin r'.executors
    pub same_count : length r'.executors ≡ length r.executors
    pub keeps : (k : ℕ) → is_kept k r ≡ true → is_kept k r' ≡ true
    pub spends : budget r'.state + cost r'.popped ≤ budget r.state + cost r.popped
    pub marks : r.popped ≡ true → r'.popped ≡ true
    pub stays : r'.popped ≡ false → length r.state.sched_queue ≤ length r'.state.sched_queue

  module _ (cfg : Config) (acyclic : IsAcyclic p) (enough : p.depth < cfg.fuel) where
    skip_total :
        (t : Task) (s : State) {done : Task}
        → IsSound p s
        → find_task (key_of t) s.succeeded_tasks ≡ some done
        → (s' : State) × (skip_succeeded cfg t s ≡ ok s') × IsSound p s' × IsFrugal s s'
    unfolding skip_succeeded
    skip_total t s {done} i found =
        let (planned, succeeded) = All-find _ (key_of t) s.succeeded_tasks i.succeeded found in
        let (us, run, behind) = runnable_total p acyclic done s i planned succeeded in
        let (s', ran, enq, _) =
          try_enqueue_total p cfg acyclic enough us s i
            (All-map _ _ us (λ u (ready, less). ready) behind) in
        (
          s',
          rw found (bind_step _ run ∙ ran),
          Enqueued-IsSound p s s' i enq,
          enqueue_behind-IsFrugal cfg done us s s' run ran,
        )

    module _ {Q : Type 0} (b : Backend Q) (final_phase : Bool) (enabled : Task → Bool) where
      offer_done :
          (t : Task) (ts : List Task) (limited : WorkItem) (e : RemoteExecutor Q) (r : Round Q)
          {task : Task}
          → r.state.sched_queue ≡ t ∷ ts
          → IsSound p r.state
          → All IsWithin r.executors
          → find_task (key_of t) r.state.succeeded_tasks ≡ some task
          → Ends (offer_found b cfg final_phase enabled (some task) t ts limited e r) (Serves r)
      unfolding offer_found
      offer_done t ts limited e r head i w found =
          let waiting = set_queue ts r.state in
          let (s', run, sound, frugal) =
            skip_total t waiting (set_queue-IsSound p ts r.state i) found in
          let r' = record r { state = s'; popped = true } in
          let (has, _) = has_task-find (key_of t) r.state.succeeded_tasks found in
          let less = frugal.spends in
          let long : length r.state.sched_queue ≡ length (t ∷ ts) = ap length head in
          let serves : Serves r r' = record {
            sound = sound;
            within = w;
            same_count = refl;
            keeps = λ k h. kept_where k r' (elim (where_kept k r h) [
              | runs on ↦ runs on
              | done has ↦ done (rw frugal.same_done has)
              | queued there ↦ elim (head_or_tail k t ts (rw head at there)) [
                | inl same ↦ done (rw (frugal.same_done, ← same) has)
                | inr tail ↦ queued (frugal.keeps k tail)
              ]
            ]);
            spends = omega arith;
            marks = λ h. refl;
            stays = λ h. absurd (cc);
          } in
          subst (λ res. Ends res (Serves r)) (sym (bind_step _ run)) serves

      offer_assigned :
          (t : Task) (ts : List Task) (limited : WorkItem) (e : RemoteExecutor Q) (r : Round Q)
          → r.state.sched_queue ≡ t ∷ ts
          → IsSound p r.state
          → All IsWithin r.executors
          → find_executor e.id r.executors ≡ some e
          → limited.key ≡ key_of t
          → (answer : RemoteExecutor Q × Bool) → Answers limited.key e answer
          → Serves r (after_offer (with_work limited t) ts answer.0 answer.1 r)
      offer_assigned t ts limited e r head i w found same (e', false) stays =
          let r' = record r { state = set_queue (with_work limited t ∷ ts) r.state } in
          let long : length r.state.sched_queue ≡ length (t ∷ ts) = ap length head in
          record {
            sound = set_queue-IsSound p _ r.state i;
            within = w;
            same_count = refl;
            keeps = λ k h. kept_where k r' (elim (where_kept k r h) [
              | runs on ↦ runs on
              | done has ↦ done has
              | queued there ↦ queued (rw same (rw head at there))
            ]);
            spends = omega arith;
            marks = λ h. h;
            stays = λ h. omega arith;
          }
      offer_assigned t ts limited e r head i w found same (e', true) (within, takes) =
          let replaced = set_executor-Replaces e.id r.executors e e' found w within takes.keeps in
          let r' = record r {
            state = set_queue ts r.state;
            executors = set_executor e'.id e' r.executors;
            num_dispatched = r.num_dispatched + 1;
            popped = true;
          } in
          let at_id : Replaces r.executors e' r'.executors =
            subst (λ id. Replaces r.executors e' (set_executor id e' r.executors))
              (sym takes.same_id) replaced in
          let long : length r.state.sched_queue ≡ length (t ∷ ts) = ap length head in
          record {
            sound = set_queue-IsSound p _ r.state i;
            within = at_id.within;
            same_count = at_id.same_count;
            keeps = λ k h. kept_where k r' (elim (where_kept k r h) [
              | runs on ↦ runs (at_id.keeps k on)
              | done has ↦ done has
              | queued there ↦ elim (head_or_tail k t ts (rw head at there)) [
                | inl here ↦ runs (at_id.has k (rw (← here, ← same) takes.runs))
                | inr tail ↦ queued tail
              ]
            ]);
            spends = omega arith;
            marks = λ h. refl;
            stays = λ h. absurd (cc);
          }

      offer_found-Ends :
          (t : Task) (ts : List Task) (limited : WorkItem) (e : RemoteExecutor Q) (r : Round Q)
          → r.state.sched_queue ≡ t ∷ ts
          → IsSound p r.state
          → All IsWithin r.executors
          → find_executor e.id r.executors ≡ some e
          → limited.key ≡ key_of t
          → (found : Option Task) → find_task (key_of t) r.state.succeeded_tasks ≡ found
          → Ends (offer_found b cfg final_phase enabled found t ts limited e r) (Serves r)
      unfolding offer_found
      offer_found-Ends t ts limited e r head i w there same (some task) found =
          offer_done t ts limited e r head i w found
      offer_found-Ends t ts limited e r head i w there same none found =
          Ends-bind (assign_limited b final_phase (enabled t) limited e) _ _ (Serves r)
            (assign_limited-Ends b final_phase (enabled t) limited e)
            (λ answer good. offer_assigned t ts limited e r head i w there same answer good)

      pub offer-Ends :
          (t : Task) (ts : List Task) (e : RemoteExecutor Q) (r : Round Q)
          → r.state.sched_queue ≡ t ∷ ts
          → IsSound p r.state
          → All IsWithin r.executors
          → find_executor e.id r.executors ≡ some e
          → Ends (offer b cfg final_phase enabled t ts e r) (Serves r)
      unfolding offer
      offer-Ends t ts e r head i w there =
          Ends-bind (default_memory_limit t.work e) _ _ (Serves r) (default_limit-Ends t.work e)
            (λ limited same.
              offer_found-Ends t ts limited e r head i w there same
                (find_task (key_of t) r.state.succeeded_tasks) refl)
