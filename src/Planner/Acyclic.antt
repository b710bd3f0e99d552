-- ===== src/Planner/Acyclic.antt =====
-- The tasks that the planner makes form a graph without a cycle.
use smallpond.Prelude.{
  All-weaken, ℕ, ◌+◌, ◌-◌, ◌≤◌, ◌<◌, ◌≡◌, ◌≢◌, ◌∙◌, refl, sym, ap, subst, Bool, true, inl, inr,
  List, [], ◌∷◌, map, All, length, arith, Result, ok, ◌==◌, ==_iff, Bool-cases, bind-ok,
  ok-injective, if◌then◌else◌,
}
use smallpond.Common.{ArraySplit}
use smallpond.Planner.Tasks.{PlanTask, Settings, PlanState, has_key, outputs_of}
use smallpond.Planner.Visit.{Node, visit, only_task, plan_tasks}
use smallpond.Planner.Wiring.{IsWired, IsWiredTask, Earlier, Numbered, Leaves, Keeps}
use smallpond.Planner.Builders.{AllKnown}
use smallpond.Planner.Made.{visit-Makes}
use smallpond.Scheduler.Plan.{Plan, IsAcyclic}

abbrev pub id_of : PlanTask → ℕ
id_of t = t.id

abbrev pub is_task : List PlanTask → ℕ → Bool
is_task ts k = has_key k (map id_of ts)

abbrev pub inputs_of : List PlanTask → ℕ → List ℕ
inputs_of [] k = []
inputs_of (t ∷ ts) k = if t.id == k then t.input_deps else inputs_of ts k

-- The tasks as a plan: a task's rank is its id.
abbrev pub to_plan : List PlanTask → Plan
to_plan ts = record {
  member = is_task ts;
  key_of_id = λ k. k;
  inputs = inputs_of ts;
  outputs = λ k. outputs_of k ts;
  rank = λ k. k;
  depth = length ts;
}

-- The dependencies of a task are earlier tasks in the list.
abbrev pub IsClosed : List PlanTask → Type 0
IsClosed ts = All (λ t. All (λ k. (is_task ts k ≡ true) × (k < t.id)) t.input_deps) ts

Numbered-length : (n : ℕ) (ts : List PlanTask) → Numbered n ts → n ≡ length ts
Numbered-length n [] e = e
Numbered-length n (t ∷ ts) (pos, e, h) = let e' = Numbered-length (n - 1) ts h in omega arith

Numbered-is_task :
    (n : ℕ) (ts : List PlanTask) (k : ℕ) → Numbered n ts → 0 < k → k ≤ n → is_task ts k ≡ true
Numbered-is_task n [] k e pos le = absurd (omega arith)
Numbered-is_task n (t ∷ ts) k (_, e, h) pos le = elim (Bool-cases (t.id == k)) [
  | inl same ↦ rw same refl
  | inr other ↦
      let differ : k ≢ n = λ eq. let same = (==_iff t.id k).1 (e ∙ sym eq) in absurd (cc) in
      rw other (Numbered-is_task (n - 1) ts k h pos (omega arith))
]

is_task-Numbered :
    (n : ℕ) (ts : List PlanTask) (k : ℕ) → Numbered n ts → is_task ts k ≡ true → k ≤ n
is_task-Numbered n [] k e m = absurd (cc)
is_task-Numbered n (t ∷ ts) k (pos, e, h) m = elim (Bool-cases (t.id == k)) [
  | inl same ↦ let eq = (==_iff t.id k).0 same in omega arith
  | inr other ↦ let le = is_task-Numbered (n - 1) ts k h (rw other at m) in omega arith
]

has_key-All : (P : ℕ → Type 0) (ks : List ℕ) (k : ℕ) → All P ks → has_key k ks ≡ true → P k
has_key-All P [] k h m = absurd (cc)
has_key-All P (j ∷ ks) k (p, h) m = elim (Bool-cases (j == k)) [
  | inl same ↦ subst P ((==_iff j k).0 same) p
  | inr other ↦ has_key-All P ks k h (rw other at m)
]

outputs_of-All :
    (P : ℕ → Type 0) (k : ℕ) (ts : List PlanTask)
    → All (λ t. has_key k t.input_deps ≡ true → P t.id) ts
    → All P (outputs_of k ts)
outputs_of-All P k [] h = tt
outputs_of-All P k (t ∷ ts) (p, h) = elim (Bool-cases (has_key k t.input_deps)) [
  | inl used ↦ rw used (p used, outputs_of-All P k ts h)
  | inr unused ↦ rw unused (outputs_of-All P k ts h)
]

Numbered-ids : (n : ℕ) (ts : List PlanTask) → Numbered n ts → All (λ t. Earlier (n + 1) t.id) ts
Numbered-ids n [] e = tt
Numbered-ids n (t ∷ ts) (pos, e, h) = (
  (omega arith, omega arith),
  All-weaken (λ u. Earlier (n - 1 + 1) u.id) (λ u. Earlier (n + 1) u.id) ts
      (λ u (a, b). (a, omega arith)) (Numbered-ids (n - 1) ts h),
)

All-both {ℓ κ μ} :
    {A : Type ℓ} (P : A → Type κ) (R : A → Type μ) (xs : List A)
    → All P xs
    → All R xs
    → All (λ x. P x × R x) xs
All-both P R [] h k = tt
All-both P R (x ∷ xs) (p, h) (r, k) = ((p, r), All-both P R xs h k)

module _ (n : ℕ) (ts : List PlanTask) (numbered : Numbered n ts) (wired : All IsWiredTask ts) where
  wired-IsAcyclic : IsAcyclic (to_plan ts)
  wired-IsAcyclic = record {
    onward = λ k m.
        outputs_of-All (λ j. (is_task ts j ≡ true) × (k < j)) k ts
          (All-weaken (λ t. IsWiredTask t × Earlier (n + 1) t.id)
            (λ t. has_key k t.input_deps ≡ true → (is_task ts t.id ≡ true) × (k < t.id)) ts
            (λ t (w, (pos, lt)) used. (
              Numbered-is_task n ts t.id numbered pos (omega arith),
              (has_key-All (Earlier t.id) t.input_deps k w used).1,
            ))
            (All-both IsWiredTask (λ t. Earlier (n + 1) t.id) ts wired
              (Numbered-ids n ts numbered)));
    bounded = λ k m.
        let e = Numbered-length n ts numbered in
        let le = is_task-Numbered n ts k numbered m in omega arith;
  }

  wired-IsClosed : IsClosed ts
  wired-IsClosed =
      All-weaken (λ t. IsWiredTask t × Earlier (n + 1) t.id)
        (λ t. All (λ k. (is_task ts k ≡ true) × (k < t.id)) t.input_deps) ts
        (λ t (w, (pos, lt)).
          All-weaken (Earlier t.id) (λ k. (is_task ts k ≡ true) × (k < t.id)) t.input_deps
            (λ k (some_id, before).
              (Numbered-is_task n ts k numbered some_id (omega arith), before))
            w)
        (All-both IsWiredTask (λ t. Earlier (n + 1) t.id) ts wired (Numbered-ids n ts numbered))

-- Nothing is made yet.
abbrev pub no_tasks : PlanState
no_tasks = record { next_task_id = 0; tasks = []; node_to_tasks = [] }

no_tasks-IsWired : IsWired no_tasks
no_tasks-IsWired = record { numbered = refl; wired = tt; memo = tt }

Leaves-ok :
    {A : Type 0} (P : A → PlanState → Type 0) (r : Result (A × PlanState)) (a : A) (s : PlanState)
    → Leaves P r
    → r ≡ ok (a, s)
    → P a s
Leaves-ok P r a s h e = subst (Leaves P) e h

only_task-tasks :
    (ts : List PlanTask) (s : PlanState) (t : PlanTask) (tasks : List PlanTask)
    → only_task (ts, s) ≡ ok (t, tasks)
    → s.tasks ≡ tasks
only_task-tasks [] s t tasks e = absurd (cc)
only_task-tasks (u ∷ []) s t tasks e = ap (λ p. p.1) (ok-injective e)
only_task-tasks (u ∷ v ∷ ts) s t tasks e = absurd (cc)

module _ (ctx : Settings) (array_split : ArraySplit) where
  planned :
      (n : Node) (t : PlanTask) (tasks : List PlanTask)
      → plan_tasks ctx array_split n ≡ ok (t, tasks)
      → (s : PlanState) × IsWired s × (s.tasks ≡ tasks)
  unfolding plan_tasks
  planned n t tasks e =
      let ((ts, s), ev, e1) = bind-ok (visit ctx array_split n no_tasks) _ (t, tasks) e in
      (
        s,
        (Leaves-ok (Keeps AllKnown no_tasks) (visit ctx array_split n no_tasks) ts s
            (visit-Makes ctx array_split n no_tasks no_tasks-IsWired) ev).0,
        only_task-tasks ts s t tasks e1,
      )

  -- Of the tasks that the planner makes for a node, those whose inputs include a task have higher ids
  -- than the task, and the number of the tasks bounds the ids.
  plan_tasks-IsAcyclic :
      (n : Node) (t : PlanTask) (tasks : List PlanTask)
      → plan_tasks ctx array_split n ≡ ok (t, tasks)
      → IsAcyclic (to_plan tasks)
  plan_tasks-IsAcyclic n t tasks e =
      let (s, w, same) = planned n t tasks e in
      subst (λ ts. IsAcyclic (to_plan ts)) same
        (wired-IsAcyclic s.next_task_id s.tasks w.numbered w.wired)

  -- Each task that the planner makes for a node depends only on tasks that it makes for the node, with
  -- lower ids.
  pub plan_tasks-IsClosed :
      (n : Node) (t : PlanTask) (tasks : List PlanTask)
      → plan_tasks ctx array_split n ≡ ok (t, tasks)
      → IsClosed tasks
  plan_tasks-IsClosed n t tasks e =
      let (s, w, same) = planned n t tasks e in
      subst IsClosed same (wired-IsClosed s.next_task_id s.tasks w.numbered w.wired)
