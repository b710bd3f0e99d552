-- ===== src/Planner/Wiring.antt =====
-- A proof rule for what the planner's steps keep: tasks are numbered in the order in which they are
-- made, and depend on earlier ones only.
use smallpond.Prelude.{
  ltb, All-weaken, All-concat, ℕ, ◌+◌, ◌-◌, ◌≤◌, ◌<◌, ◌≡◌, refl, sym, subst, inl, inr, List, [],
  ◌∷◌, arith, All, Bool-cases, Result, ok, raise, ◌>>=◌, ◌>>◌, guard, assertion_error,
}
use smallpond.Planner.Infos.{PartitionInfo, dims_of, has_dim, all_distinct}
use smallpond.Planner.Tasks.{
  TaskKind, PlanTask, Settings, PlanState, Step, for_all, has_key, add_key, keys_from, new_task,
  create,
}

abbrev pub Known : ℕ → PlanTask → Type 0
Known n t = (0 < t.id) × (t.id ≤ n)

abbrev pub Earlier : ℕ → ℕ → Type 0
Earlier n k = (0 < k) × (k < n)

abbrev pub IsWiredTask : PlanTask → Type 0
IsWiredTask t = All (Earlier t.id) t.input_deps

-- The ids of the tasks made count down from the counter to 1.
abbrev pub Numbered : ℕ → List PlanTask → Type 0
Numbered n [] = n ≡ 0
Numbered n (t ∷ ts) = (0 < n) × (t.id ≡ n) × Numbered (n - 1) ts

pub record IsWired (s : PlanState) : Type 0 where
  pub numbered : Numbered s.next_task_id s.tasks
  pub wired : All IsWiredTask s.tasks
  pub memo : All (λ (e : ℕ × List PlanTask). All (Known s.next_task_id) e.1) s.node_to_tasks

keys_from-All :
    (P : ℕ → Type 0) (ks : List ℕ) (ts : List PlanTask)
    → All P ks
    → All (λ t. P t.id) ts
    → All P (keys_from ks ts)
keys_from-All P ks [] h k = h
keys_from-All P ks (t ∷ ts) h (p, k) =
    keys_from-All P (add_key t.id ks) ts
      (elim (Bool-cases (has_key t.id ks)) [
        | inl old ↦ rw old h
        | inr new ↦ rw new (All-concat P ks (t.id ∷ []) h (p, tt))
      ])
      k

-- What a step that raises nothing leaves.
abbrev pub Leaves : {A : Type 0} → (A → PlanState → Type 0) → Result (A × PlanState) → Type 0
Leaves P (ok (a, s)) = P a s
Leaves P (raise error) = Unit

-- A wired state with no fewer tasks, and a value of which something holds that more tasks keep.
abbrev pub Keeps : {A : Type 0} → (ℕ → A → Type 0) → PlanState → A → PlanState → Type 0
Keeps K s a s' = IsWired s' × (s.next_task_id ≤ s'.next_task_id) × K s'.next_task_id a

abbrev pub Makes : {A : Type 0} → (ℕ → A → Type 0) → PlanState → Result (A × PlanState) → Type 0
Makes K s r = Leaves (Keeps K s) r

pub Leaves->>= {κ} :
    {A B : Type 0} (P : A → PlanState → Type 0) (R : B → PlanState → Type 0)
    (r : Result (A × PlanState)) (next : A × PlanState → Result (B × PlanState))
    → Leaves P r
    → ((a : A) (s : PlanState) → P a s → Leaves R (next (a, s)))
    → Leaves R (r >>= next)
Leaves->>= P R (ok (a, s)) next h k = k a s h
Leaves->>= P R (raise error) next h k = tt

pub Leaves-result {κ} :
    {A : Type κ} {B : Type 0} (R : B → PlanState → Type 0) (r : Result A)
    (next : A → Result (B × PlanState))
    → ((a : A) → r ≡ ok a → Leaves R (next a))
    → Leaves R (r >>= next)
Leaves-result R (ok a) next h = h a refl
Leaves-result R (raise error) next h = tt

Leaves-weaken :
    {A : Type 0} (P R : A → PlanState → Type 0) (r : Result (A × PlanState))
    → ((a : A) (s : PlanState) → P a s → R a s)
    → Leaves P r
    → Leaves R r
Leaves-weaken P R (ok (a, s)) f h = f a s h
Leaves-weaken P R (raise error) f h = tt

-- Steps in a row.
pub Makes->>= :
    {A B : Type 0} (K : ℕ → A → Type 0) (L : ℕ → B → Type 0) (s : PlanState)
    (r : Result (A × PlanState)) (next : A × PlanState → Result (B × PlanState))
    → Makes K s r
    → ((a : A) (s' : PlanState)
        → IsWired s'
        → s.next_task_id ≤ s'.next_task_id
        → K s'.next_task_id a
        → Makes L s' (next (a, s')))
    → Makes L s (r >>= next)
Makes->>= K L s (ok (a, s')) next (w, le, k) h =
    Leaves-weaken (Keeps L s') (Keeps L s) (next (a, s'))
      (λ b s'' (w', le', l). (w', omega arith, l)) (h a s' w le k)
Makes->>= K L s (raise error) next h k = tt

-- A loop makes what each round makes.
pub for_all-Makes :
    {A B : Type 0} (X : ℕ → A → Type 0) (K : ℕ → B → Type 0) (f : A → Step B) (xs : List A)
    (s : PlanState)
    → ((n m : ℕ) (x : A) → n ≤ m → X n x → X m x)
    → ((n m : ℕ) (y : B) → n ≤ m → K n y → K m y)
    → ((x : A) (s : PlanState) → IsWired s → X s.next_task_id x → Makes K s (f x s))
    → IsWired s
    → All (X s.next_task_id) xs
    → Makes (λ n. All (K n)) s (for_all f xs s)
for_all-Makes X K f [] s monoX monoK step w h = (w, omega arith, tt)
for_all-Makes X K f (x ∷ xs) s monoX monoK step w (p, h) =
    Makes->>= K (λ n. All (K n)) s (f x s) _ (step x s w p)
      (λ y s' w' le k.
        Makes->>= (λ n. All (K n)) (λ n. All (K n)) s' (for_all f xs s') _
          (for_all-Makes X K f xs s' monoX monoK step w'
            (All-weaken _ _ xs (λ x'. monoX _ _ x' le) h))
          (λ ys s'' w'' le' ks. (w'', omega arith, (monoK _ _ y le' k, ks))))

add_sub_one : (n : ℕ) → n + 1 - 1 ≡ n
add_sub_one n = omega arith

pub Known-mono : (n m : ℕ) (t : PlanTask) → n ≤ m → Known n t → Known m t
Known-mono n m t le (a, b) = (a, omega arith)

new-IsWired :
    (t : PlanTask) (s : PlanState)
    → IsWired s
    → t.id ≡ s.next_task_id + 1
    → All (Earlier (s.next_task_id + 1)) t.input_deps
    → IsWired (record s { next_task_id = s.next_task_id + 1; tasks = t ∷ s.tasks })
new-IsWired t s w e h = record {
  numbered = (
    omega arith,
    e,
    subst (λ n. Numbered n s.tasks) (sym (add_sub_one s.next_task_id)) w.numbered,
  );
  wired = (subst (λ n. All (Earlier n) t.input_deps) (sym e) h, w.wired);
  memo =
      All-weaken _ _ s.node_to_tasks
        (λ (k, ts) known. All-weaken _ _ ts (λ u (a, b). (a, omega arith)) known) w.memo;
}

pub create-Makes :
    (ctx : Settings) (node_id : ℕ) (kind : TaskKind) (inputs : List PlanTask)
    (infos : List PartitionInfo) (s : PlanState)
    → IsWired s
    → All (Known s.next_task_id) inputs
    → Makes Known s (create ctx node_id kind inputs infos s)
unfolding create
create-Makes ctx node_id kind inputs infos s w h =
    Leaves-result (Keeps Known s)
      (guard (has_dim ctx.toplevel_dimension (dims_of infos)) assertion_error
        >> guard (ltb 0 (ctx.task_cpu_limit node_id kind)) assertion_error
        >> guard
            (all_distinct
              (dims_of (new_task (s.next_task_id + 1) node_id kind inputs infos).partition_infos))
            assertion_error)
      (λ done. ok (
        new_task (s.next_task_id + 1) node_id kind inputs infos,
        record s {
          next_task_id = s.next_task_id + 1;
          tasks = new_task (s.next_task_id + 1) node_id kind inputs infos ∷ s.tasks;
        },
      ))
      (λ checked e. (
        new-IsWired (new_task (s.next_task_id + 1) node_id kind inputs infos) s w refl (
            keys_from-All (Earlier (s.next_task_id + 1)) [] inputs tt (
              All-weaken (Known s.next_task_id) (λ t. Earlier (s.next_task_id + 1) t.id) inputs
                (λ t (pos, le). (pos, omega arith)) h)),
        omega arith,
        (omega arith, omega arith),
      ))
