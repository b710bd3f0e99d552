-- ===== src/Remote/Alloc.antt =====
-- The resources that the scheduler counts as allocated are those of the running works.
use smallpond.Prelude.{
  ℕ, ◌+◌, ◌≡◌, refl, sym, ap, subst, ◌∙◌, false, ◌||◌, inl, inr, List, [], ◌∷◌, ◌++◌, some, arith,
  ◌==◌, Bool-cases, Option-cases, ok,
}
use mathlib.Core.Option.{some-injective}
use smallpond.Work.{
  WorkItem, incomplete, same_status, Kind, plain, task, probe, stop_executor, stop_work_item,
  cpu_limit, gpu_limit, memory_limit,
}
use smallpond.Queue.{WorkQueue, Backend}
use smallpond.Remote.Calls.{Leaves, Rule, calls_rule}
use smallpond.Remote.{
  RemoteExecutor, find_work, remove_work, is_running, init, added, pop_running_work, settle,
  ack_stop, pop_kind, update_state, Call, calls,
}

abbrev pub total : (WorkItem → ℕ) → List WorkItem → ℕ
total f [] = 0
total f (w ∷ ws) = f w + total f ws

abbrev pub Distinct : List WorkItem → Type 0
Distinct [] = Unit
Distinct (w ∷ ws) = (is_running w.key ws ≡ false) × Distinct ws

-- The counters are the sums over the running works, and no key is there twice.
pub record IsConsistent {Q : Type 0} (e : RemoteExecutor Q) : Type 0 where
  pub cpus : e.allocated_cpus ≡ total cpu_limit e.running_works
  pub gpus : e.allocated_gpus ≡ total gpu_limit e.running_works
  pub memory : e.allocated_memory ≡ total memory_limit e.running_works
  pub distinct : Distinct e.running_works

total-snoc :
    (f : WorkItem → ℕ) (ws : List WorkItem) (w : WorkItem)
    → total f (ws ++ w ∷ []) ≡ total f ws + f w
total-snoc f [] w = omega arith
total-snoc f (v ∷ ws) w = omega (arith, total-snoc f ws w)

is_running-snoc :
    (key : ℕ) (ws : List WorkItem) (w : WorkItem)
    → is_running key (ws ++ w ∷ []) ≡ is_running key ws || (w.key == key)
is_running-snoc key [] w = ground arith
is_running-snoc key (v ∷ ws) w = ground (arith, is_running-snoc key ws w)

Distinct-snoc :
    (ws : List WorkItem) (w : WorkItem)
    → is_running w.key ws ≡ false
    → Distinct ws
    → Distinct (ws ++ w ∷ [])
Distinct-snoc [] w h d = (refl, tt)
Distinct-snoc (v ∷ ws) w h (dv, d) =
    (ground (arith, is_running-snoc v.key ws w), Distinct-snoc ws w (ground arith) d)

total-remove_work :
    (f : WorkItem → ℕ) (key : ℕ) (ws : List WorkItem) {w : WorkItem}
    → find_work key ws ≡ some w
    → total f (remove_work key ws) + f w ≡ total f ws
total-remove_work f key [] h = cc
total-remove_work f key (v ∷ ws) {w} h = elim (Bool-cases (v.key == key)) [
  | inl e ↦ let same : v ≡ w = some-injective v w (rw e at h) in rw (e, same) (omega arith)
  | inr e ↦ rw e (omega (arith, total-remove_work f key ws (rw e at h)))
]

is_running-remove_work :
    (j key : ℕ) (ws : List WorkItem)
    → is_running j ws ≡ false
    → is_running j (remove_work key ws) ≡ false
is_running-remove_work j key [] h = refl
is_running-remove_work j key (v ∷ ws) h = ground (arith, is_running-remove_work j key ws)

Distinct-remove_work : (key : ℕ) (ws : List WorkItem) → Distinct ws → Distinct (remove_work key ws)
Distinct-remove_work key [] d = tt
Distinct-remove_work key (v ∷ ws) (dv, d) = elim (Bool-cases (v.key == key)) [
  | inl e ↦ rw e d
  | inr e ↦ rw e (is_running-remove_work v.key key ws dv, Distinct-remove_work key ws d)
]

module _ {Q : Type 0} where
  init-IsConsistent : (id : ℕ) (wq : WorkQueue Q) (epoch : ℕ) → IsConsistent (init id wq epoch)
  unfolding init
  init-IsConsistent id wq epoch = record { cpus = refl; gpus = refl; memory = refl; distinct = tt }

  pop_running_work-IsConsistent :
      (key : ℕ) (e : RemoteExecutor Q) → IsConsistent e → IsConsistent (pop_running_work key e)
  unfolding pop_running_work
  pop_running_work-IsConsistent key e c = elim (Option-cases (find_work key e.running_works)) [
    | inl missing ↦ rw (missing, pop_running_work) c
    | inr (w, found) ↦
        rw (found, pop_running_work)
          (record {
            cpus = omega (arith, c.cpus, total-remove_work cpu_limit key e.running_works found);
            gpus = omega (arith, c.gpus, total-remove_work gpu_limit key e.running_works found);
            memory =
                omega (arith, c.memory, total-remove_work memory_limit key e.running_works found);
            distinct = Distinct-remove_work key e.running_works c.distinct;
          })
  ]

  added-IsConsistent :
      (item : WorkItem) (e : RemoteExecutor Q)
      → is_running item.key e.running_works ≡ false
      → IsConsistent e
      → IsConsistent (added item e)
  added-IsConsistent item e new c = record {
    cpus = omega (arith, c.cpus, total-snoc cpu_limit e.running_works item);
    gpus = omega (arith, c.gpus, total-snoc gpu_limit e.running_works item);
    memory = omega (arith, c.memory, total-snoc memory_limit e.running_works item);
    distinct = Distinct-snoc e.running_works item new c.distinct;
  }

  -- What is not the business of the counters leaves them consistent.
  same-IsConsistent :
      (e e' : RemoteExecutor Q)
      → e'.running_works ≡ e.running_works
      → e'.allocated_cpus ≡ e.allocated_cpus
      → e'.allocated_gpus ≡ e.allocated_gpus
      → e'.allocated_memory ≡ e.allocated_memory
      → IsConsistent e
      → IsConsistent e'
  same-IsConsistent e e' w a b m c = record {
    cpus = a ∙ c.cpus ∙ ap (total cpu_limit) (sym w);
    gpus = b ∙ c.gpus ∙ ap (total gpu_limit) (sym w);
    memory = m ∙ c.memory ∙ ap (total memory_limit) (sym w);
    distinct = subst Distinct (sym w) c.distinct;
  }

  settle-IsConsistent :
      (item : WorkItem) (e : RemoteExecutor Q) → IsConsistent e → IsConsistent (settle item e)
  unfolding settle
  settle-IsConsistent item e c = elim (Bool-cases (same_status item.status incomplete)) [
    | inl h ↦ rw h c
    | inr h ↦ rw h (pop_running_work-IsConsistent item.key e c)
  ]

  pop_kind-Leaves :
      (k : Kind) (item : WorkItem) (e : RemoteExecutor Q)
      → IsConsistent e
      → Leaves IsConsistent (pop_kind k item e)
  unfolding pop_kind
  pop_kind-Leaves (probe info) item e c = same-IsConsistent e _ refl refl refl refl c
  pop_kind-Leaves (stop_work_item key) item e c = pop_running_work-IsConsistent key e c
  pop_kind-Leaves (stop_executor ack) item e c =
      settle-IsConsistent item (ack_stop e) (same-IsConsistent e _ refl refl refl refl c)
  pop_kind-Leaves (task t) item e c = settle-IsConsistent item e c
  pop_kind-Leaves plain item e c = tt

  update_state-IsConsistent :
      (m epoch : ℕ) (e : RemoteExecutor Q)
      → IsConsistent e
      → IsConsistent (update_state m epoch e).0
  unfolding update_state
  update_state-IsConsistent m epoch e c =
      same-IsConsistent e _ (ground arith) (ground arith) (ground arith) (ground arith) c

  IsConsistent-Rule : Rule {Q = Q} IsConsistent
  IsConsistent-Rule = record {
    fresh = init-IsConsistent;
    sends = λ e wq c. same-IsConsistent e _ refl refl refl refl c;
    adds = added-IsConsistent;
    pops = pop_kind-Leaves;
    requests = λ e c. same-IsConsistent e _ refl refl refl refl c;
    updates = update_state-IsConsistent;
  }

-- Whatever sequence of calls a new executor goes through, if none raises, its counters of
-- allocated cores, GPUs and memory are the sums of the limits of its running works, of which no
-- two have one key; those of GPUs for limits that are multiples of one binary fraction of a GPU, so
-- that floats add and subtract them exactly.
pub calls-IsConsistent :
    {Q : Type 0} (b : Backend Q) (id epoch : ℕ) (wq : WorkQueue Q) (cs : List Call)
    (e : RemoteExecutor Q)
    → calls b cs (init id wq epoch) ≡ ok e
    → IsConsistent e
calls-IsConsistent b = calls_rule IsConsistent-Rule b
