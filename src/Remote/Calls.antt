-- ===== src/Remote/Calls.antt =====
-- A proof rule for what every sequence of calls to an executor keeps true of it.
use smallpond.Prelude.{
  ℕ, ◌≡◌, subst, Bool, true, false, not, ◌&&◌, inl, inr, List, [], ◌∷◌, some, Bool-cases, Result,
  ok, raise, ◌>>=◌,
}
use smallpond.Work.{WorkItem, Kind, stop_executor}
use smallpond.Queue
use smallpond.Queue.{WorkQueue, Backend}
use smallpond.Remote.{
  RemoteExecutor, is_running, init, added, pop_kind, pop_one, pop, push, flush, stop, update_state,
  working, control_item, Call, pop_call, push_call, flush_call, probe_call, stop_call, reset_call,
  update_call, call, calls,
}

module _ {Q : Type 0} (P : RemoteExecutor Q → Type 0) where
  -- The executor that a call leaves has the property, if the call raises nothing.
  abbrev pub Leaves {κ} : {X : Type κ} → Result (RemoteExecutor Q × X) → Type 0
  Leaves (ok (e, x)) = P e
  Leaves (raise error) = Unit

  abbrev pub Keeps : Result (RemoteExecutor Q) → Type 0
  Keeps (ok e) = P e
  Keeps (raise error) = Unit

-- What to show of a property of executors.
pub record Rule {Q : Type 0} (P : RemoteExecutor Q → Type 0) : Type 0 where
  pub fresh : (id : ℕ) (wq : WorkQueue Q) (epoch : ℕ) → P (init id wq epoch)
  pub sends : (e : RemoteExecutor Q) (wq : WorkQueue Q) → P e → P (record e { wq = wq })
  pub adds :
      (item : WorkItem) (e : RemoteExecutor Q)
      → is_running item.key e.running_works ≡ false
      → P e
      → P (added item e)
  pub pops :
      (k : Kind) (item : WorkItem) (e : RemoteExecutor Q) → P e → Leaves P (pop_kind k item e)
  pub requests : (e : RemoteExecutor Q) → P e → P (record e { stop_request_sent = true })
  pub updates : (m epoch : ℕ) (e : RemoteExecutor Q) → P e → P (update_state m epoch e).0

module _ {Q : Type 0} {P : RemoteExecutor Q → Type 0} (rule : Rule P) where
  Leaves->>= {κ μ} :
      {X : Type κ} {Y : Type μ} (r : Result (RemoteExecutor Q × X))
      (next : RemoteExecutor Q × X → Result (RemoteExecutor Q × Y))
      → Leaves P r
      → ((e : RemoteExecutor Q) (x : X) → P e → Leaves P (next (e, x)))
      → Leaves P (r >>= next)
  Leaves->>= (ok (e, x)) next c h = h e x c
  Leaves->>= (raise error) next c h = tt

  pop-Leaves : (items : List WorkItem) (e : RemoteExecutor Q) → P e → Leaves P (pop items e)
  unfolding pop
  pop-Leaves [] e c = c
  pop-Leaves (item ∷ items) e c =
      Leaves->>= (pop_one item e) _ (rule.pops item.kind item e c) (λ after fs c'.
        Leaves->>= (pop items after) _ (pop-Leaves items after c') (λ last xs c''. c''))

  Keeps->>= {κ} :
      {X : Type κ} (r : Result (RemoteExecutor Q × X))
      (next : RemoteExecutor Q × X → Result (RemoteExecutor Q))
      → Leaves P r
      → ((e : RemoteExecutor Q) (x : X) → P e → Keeps P (next (e, x)))
      → Keeps P (r >>= next)
  Keeps->>= (ok (e, x)) next c h = h e x c
  Keeps->>= (raise error) next c h = tt

  Keeps-next :
      (r : Result (RemoteExecutor Q)) (next : RemoteExecutor Q → Result (RemoteExecutor Q))
      → Keeps P r
      → ((e : RemoteExecutor Q) → P e → Keeps P (next e))
      → Keeps P (r >>= next)
  Keeps-next (ok e) next c h = h e c
  Keeps-next (raise error) next c h = tt

  wq-Leaves :
      (e : RemoteExecutor Q) (r : Result (Bool × WorkQueue Q))
      → P e
      → Leaves P {X = Bool} (r >>= λ (pushed, wq). ok (record e { wq = wq }, pushed))
  wq-Leaves e (ok (pushed, wq)) c = rule.sends e wq c
  wq-Leaves e (raise error) c = tt

  wq-Keeps :
      (e : RemoteExecutor Q) (r : Result (Bool × WorkQueue Q))
      → P e
      → Keeps P (r >>= λ (pushed, wq). ok (record e { wq = wq }))
  wq-Keeps e (ok (pushed, wq)) c = rule.sends e wq c
  wq-Keeps e (raise error) c = tt

  module _ (b : Backend Q) where
    push-Leaves :
        (item : WorkItem) (buffering : Bool) (e : RemoteExecutor Q)
        → P e
        → Leaves P (push b item buffering e)
    unfolding push
    push-Leaves item buffering e c = elim (Bool-cases (is_running item.key e.running_works)) [
      | inl there ↦ rw there c
      | inr new ↦ rw new (wq-Leaves _ _ (rule.adds (record item { exec_id = some e.id }) e new c))
    ]

    stop-Keeps : (key : ℕ) (e : RemoteExecutor Q) → P e → Keeps P (stop b key e)
    unfolding stop
    stop-Keeps key e c = elim (Bool-cases (working e && not e.stop_request_sent)) [
      | inl now ↦ rw now (
          Keeps->>= (push b (control_item key (stop_executor true)) false e) _
            (push-Leaves (control_item key (stop_executor true)) false e c)
            (λ after pushed c'. rule.requests after c'))
      | inr later ↦ rw later c
    ]

    call-Keeps : (c : Call) (e : RemoteExecutor Q) → P e → Keeps P (call b c e)
    unfolding call
    call-Keeps (pop_call items) e c =
        Keeps->>= (pop items e) _ (pop-Leaves items e c) (λ a x c'. c')
    call-Keeps (push_call item buffering) e c =
        Keeps->>= (push b item buffering e) _ (push-Leaves item buffering e c) (λ a x c'. c')
    call-Keeps flush_call e c =
        Keeps->>= (flush b e) _ (wq-Leaves e (Queue.flush b e.wq) c) (λ a x c'. c')
    call-Keeps (probe_call key epoch) e c = wq-Keeps e _ c
    call-Keeps (stop_call key) e c = stop-Keeps key e c
    call-Keeps (reset_call epoch) e c = rule.fresh e.id e.wq epoch
    call-Keeps (update_call m epoch) e c = rule.updates m epoch e c

    calls-Keeps : (cs : List Call) (e : RemoteExecutor Q) → P e → Keeps P (calls b cs e)
    unfolding calls
    calls-Keeps [] e c = c
    calls-Keeps (x ∷ cs) e c =
        Keeps-next (call b x e) (calls b cs) (call-Keeps x e c) (calls-Keeps cs)

    pub calls_rule :
        (id epoch : ℕ) (wq : WorkQueue Q) (cs : List Call) (e : RemoteExecutor Q)
        → calls b cs (init id wq epoch) ≡ ok e
        → P e
    calls_rule id epoch wq cs e h =
        subst (Keeps P) h (calls-Keeps cs (init id wq epoch) (rule.fresh id wq epoch))
