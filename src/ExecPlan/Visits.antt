-- ===== src/ExecPlan/Visits.antt =====
-- What `ExecutionPlan.iter_tasks` (smallpond/execution/task.py) yields.
use smallpond.Prelude.{
  or-right, ℕ, ◌≡◌, ◌∙◌, refl, sym, ap, Bool, true, false, ◌||◌, ◌==◌, inl, inr, List, [], ◌∷◌,
  ◌++◌, map, All, All-weaken, All-concat, arith, Bool-cases, ok,
}
use smallpond.Planner.Tasks.{has_key}
use smallpond.ExecPlan.{Task, Tasks, task, nil, cons, task_key, iter_tasks, iter_deps, tasks}

abbrev pub keys : List Task → List ℕ
keys ts = map task_key ts

abbrev pub dep_keys : Tasks → List ℕ
dep_keys nil = []
dep_keys (cons t ts) = task_key t ∷ dep_keys ts

abbrev pub input_keys : Task → List ℕ
input_keys (task key deps) = dep_keys deps

abbrev pub Has : List ℕ → ℕ → Type 0
Has seen k = has_key k seen ≡ true

abbrev pub Distinct : List Task → Type 0
Distinct [] = Unit
Distinct (t ∷ ts) = (has_key (task_key t) (keys ts) ≡ false) × Distinct ts

-- A run that has yielded `ts` and turned the keys `visited` into `seen`.
record IsVisit (visited : List ℕ) (ts : List Task) (seen : List ℕ) : Type 0 where
  all_keys : (k : ℕ) → has_key k seen ≡ (has_key k visited || has_key k (keys ts))
  fresh : (k : ℕ) → Has visited k → has_key k (keys ts) ≡ false
  distinct : Distinct ts
  closed : All (λ t. All (Has seen) (input_keys t)) ts

has_key-append :
    (k : ℕ) (ts us : List Task)
    → has_key k (keys (ts ++ us)) ≡ (has_key k (keys ts) || has_key k (keys us))
has_key-append k [] us = refl
has_key-append k (t ∷ ts) us = elim (Bool-cases (task_key t == k)) [
  | inl e ↦ rw e refl
  | inr e ↦ rw (e, has_key-append k ts us) refl
]

Distinct-append :
    (ts us : List Task)
    → Distinct ts
    → Distinct us
    → ((k : ℕ) → Has (keys ts) k → has_key k (keys us) ≡ false)
    → Distinct (ts ++ us)
Distinct-append [] us p q apart = q
Distinct-append (t ∷ ts) us (new, p) q apart = (
  has_key-append (task_key t) ts us ∙ rw new (apart (task_key t) (ground arith)),
  Distinct-append ts us p q (λ k h. apart k (ground arith)),
)

or_assoc : (a b c : Bool) → ((a || b) || c) ≡ (a || (b || c))
or_assoc true b c = refl
or_assoc false b c = refl

or-swap : (p a b : Bool) → ((p || a) || b) ≡ (a || (p || b))
or-swap true true b = refl
or-swap true false b = refl
or-swap false a b = refl

Has-grows :
    (v seen : List ℕ) (ts : List Task) (k : ℕ)
    → has_key k seen ≡ (has_key k v || has_key k (keys ts))
    → Has v k
    → Has seen k
Has-grows v seen ts k e h = rw (e, h) refl

no-IsVisit : (v : List ℕ) → IsVisit v [] v
no-IsVisit v = record {
  all_keys = λ k. elim (Bool-cases (has_key k v)) [ inl e ↦ rw e refl | inr e ↦ rw e refl ];
  fresh = λ k h. refl;
  distinct = tt;
  closed = tt;
}

then-IsVisit :
    (v seen all_seen : List ℕ) (ts us : List Task)
    → IsVisit v ts seen
    → IsVisit seen us all_seen
    → IsVisit v (ts ++ us) all_seen
then-IsVisit v seen all_seen ts us a b = record {
  all_keys = λ k.
      b.all_keys k
      ∙ ap (λ x. x || has_key k (keys us)) (a.all_keys k)
      ∙ or_assoc (has_key k v) (has_key k (keys ts)) (has_key k (keys us))
      ∙ ap (◌||◌ (has_key k v)) (sym (has_key-append k ts us));
  fresh = λ k h.
      has_key-append k ts us
      ∙ rw (a.fresh k h) (b.fresh k (Has-grows v seen ts k (a.all_keys k) h));
  distinct =
      Distinct-append ts us a.distinct b.distinct
        (λ k h. b.fresh k (a.all_keys k ∙ or-right (has_key k v) _ h));
  closed =
      All-concat _ ts us
        (All-weaken _ _ ts
          (λ t. All-weaken _ _ (input_keys t) (λ k. Has-grows seen all_seen us k (b.all_keys k)))
          a.closed)
        b.closed;
}

eq_of : (a b : ℕ) → (a == b) ≡ true → a ≡ b
eq_of a b e = ground arith

clash : (key k : ℕ) (v : List ℕ) → key ≡ k → has_key key v ≡ false → Has v k → ⊥
clash key k v e new old = absurd (cc)

other_key :
    (key k : ℕ) (v ks : List ℕ)
    → has_key key v ≡ false
    → Has v k
    → has_key k ks ≡ false
    → ((key == k) || has_key k ks) ≡ false
other_key key k v ks new old h = elim (Bool-cases (key == k)) [
  | inl e ↦ absurd (clash key k v (eq_of key k e) new old)
  | inr e ↦ rw (e, h) refl
]

Has-self : (k : ℕ) (ks : List ℕ) → Has (k ∷ ks) k
Has-self k ks = ground arith

root-IsVisit :
    (key : ℕ) (deps : Tasks) (v seen : List ℕ) (ts : List Task)
    → has_key key v ≡ false
    → All (Has seen) (dep_keys deps)
    → IsVisit (key ∷ v) ts seen
    → IsVisit v (task key deps ∷ ts) seen
root-IsVisit key deps v seen ts new below a = record {
  all_keys = λ k. a.all_keys k ∙ or-swap (key == k) (has_key k v) (has_key k (keys ts));
  fresh = λ k h. other_key key k v (keys ts) new h (a.fresh k (or-right (key == k) _ h));
  distinct = (a.fresh key (Has-self key v), a.distinct);
  closed = (below, a.closed);
}

mutual
  unfolding iter_tasks

  IsVisit-task :
      (t : Task) (v : List ℕ)
      → has_key (task_key t) v ≡ false
      → (ts : List Task) × (seen : List ℕ) × (iter_tasks t v ≡ ok (ts, seen))
        × IsVisit v ts seen
        × Has (keys ts) (task_key t)
  IsVisit-task (task key deps) v new =
      let (ts, seen, e, visit, below) = IsVisit-deps deps (key ∷ v) in
      (
        task key deps ∷ ts,
        seen,
        rw (new, e) refl,
        root-IsVisit key deps v seen ts new below visit,
        Has-self key (keys ts),
      )

  IsVisit-deps :
      (deps : Tasks) (v : List ℕ)
      → (ts : List Task) × (seen : List ℕ) × (iter_deps deps v ≡ ok (ts, seen))
        × IsVisit v ts seen
        × All (Has seen) (dep_keys deps)
  IsVisit-deps nil v = ([], v, refl, no-IsVisit v, tt)
  IsVisit-deps (cons t deps) v = elim (Bool-cases (has_key (task_key t) v)) [
    | inl known ↦
        let (ts, seen, e, visit, below) = IsVisit-deps deps v in
        (
          ts,
          seen,
          rw (known, e) refl,
          visit,
          (Has-grows v seen ts (task_key t) (visit.all_keys (task_key t)) known, below),
        )
    | inr new ↦
        let (ts, mid, e, visit, own) = IsVisit-task t v new in
        let (us, seen, es, rest, below) = IsVisit-deps deps mid in
        (
          ts ++ us,
          seen,
          rw (new, e, es) refl,
          then-IsVisit v mid seen ts us visit rest,
          (
            Has-grows mid seen us (task_key t) (rest.all_keys (task_key t))
                (visit.all_keys (task_key t) ∙ or-right (has_key (task_key t) v) _ own),
            below,
          ),
        )
  ]

-- The tasks of a plan: the assertion of `iter_tasks` never fails, each key is yielded once, the root is
-- one of the tasks that are yielded, and so is, by its key, every input of a task that is yielded.
pub tasks_total :
    (root : Task)
    → (ts : List Task) × (tasks root ≡ ok ts)
      × Distinct ts
      × Has (keys ts) (task_key root)
      × All (λ t. All (Has (keys ts)) (input_keys t)) ts
unfolding tasks
tasks_total root =
    let (ts, seen, e, visit, own) = IsVisit-task root [] refl in
    (
      ts,
      rw e refl,
      visit.distinct,
      own,
      All-weaken _ _ ts (λ t. All-weaken _ _ (input_keys t) (λ k h. sym (visit.all_keys k) ∙ h))
          visit.closed,
    )
