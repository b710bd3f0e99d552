-- ===== src/Scheduler/Given.antt =====
-- What `dispatch_tasks` does with the head of the queue and one executor: whatever becomes of it, no
-- executor is given more than it has.
use mathlib.Core.Option.{some-injective}
use smallpond.Prelude.{
  Ensures, Ensures-bind, Ensures-map, or-right, positive_of, suc, ℕ, ◌≡◌, refl, sym, ap, subst,
  Bool, true, false, ◌||◌, inl, inr, List, [], ◌∷◌, some, length, arith, All, Bool-cases,
  Option-cases, ◌==◌, Result, ◌>>=◌, zero_division_error, bind_step,
}
use smallpond.Work.{WorkItem}
use smallpond.Queue.{Backend}
use smallpond.Remote.{RemoteExecutor, cpu_count, is_running}
use smallpond.Scheduler.Dispatch.{
  can_boost, try_boost_resource, default_memory_limit, fits, in_final_phase, assign_limited,
}
use smallpond.Scheduler.Capacity.{IsWithin, Fits, Takes, boost-Fits, fits-Fits, push_total}
use smallpond.Scheduler.Loop.{find_executor, set_executor}

-- A result with a property, unless a division by zero raises.
abbrev pub Ends {ℓ} : {A : Type ℓ} → Result A → (A → Type 0) → Type 0
Ends r P = Ensures (λ e. e ≡ zero_division_error) r P

pub Ends-bind {ℓ κ} :
    {A : Type ℓ} {B : Type κ} (r : Result A) (next : A → Result B) (P : A → Type 0) (R : B → Type 0)
    → Ends r P
    → ((x : A) → P x → Ends (next x) R)
    → Ends (r >>= next) R
Ends-bind r next P R h k = Ensures-bind _ r next P R h k

pub Ends-map {ℓ} :
    {A : Type ℓ} (r : Result A) (P R : A → Type 0) → Ends r P → ((x : A) → P x → R x) → Ends r R
Ends-map r P R h f = Ensures-map _ r P R h f

or_keep : (a b c : Bool) → (a ≡ true → b ≡ true) → (a || c) ≡ true → (b || c) ≡ true
or_keep true b c f h = rw (f refl) refl
or_keep false b c f h = or-right b c h

or_keep_right : (a b c : Bool) → (b ≡ true → c ≡ true) → (a || b) ≡ true → (a || c) ≡ true
or_keep_right true b c f h = refl
or_keep_right false b c f h = f h

module _ {Q : Type 0} where
  pub default_limit-Ends :
      (item : WorkItem) (e : RemoteExecutor Q)
      → Ends (default_memory_limit item e) (λ limited. limited.key ≡ item.key)
  unfolding default_memory_limit
  default_limit-Ends item e = elim (Option-cases item.base_memory_limit) [
    | inr (limit, set) ↦ rw set refl
    | inl unset ↦
        rw unset (elim (Bool-cases (cpu_count e == 0)) [ inl z ↦ rw z refl | inr n ↦ rw n refl ])
  ]

  boost-Ends :
      (enabled : Bool) (item : WorkItem) (e : RemoteExecutor Q)
      → Fits item e
      → Ends
          (try_boost_resource enabled item e)
          (λ boosted. Fits boosted e × (boosted.key ≡ item.key))
  unfolding try_boost_resource
  boost-Ends enabled item e f = elim (Bool-cases (can_boost enabled item e)) [
    | inr stay ↦ rw stay (f, refl)
    | inl go ↦ elim (Bool-cases (item.base_cpu_limit == 0)) [
      | inl divides ↦ rw (go, divides) refl
      | inr divisible ↦
          let (boosted, run, f', same) =
            boost-Fits enabled item e (positive_of item.base_cpu_limit divisible) f in
          subst (λ r. Ends r (λ w. Fits w e × (w.key ≡ item.key))) (sym run) (f', same)
    ]
  ]

  phase-Ends :
      (final_phase enabled : Bool) (item : WorkItem) (e : RemoteExecutor Q)
      → Fits item e
      → Ends
          (in_final_phase final_phase enabled item e)
          (λ boosted. Fits boosted e × (boosted.key ≡ item.key))
  phase-Ends true enabled item e f = boost-Ends enabled item e f
  phase-Ends false enabled item e f = (f, refl)

  -- The executor that was offered an item: one that took it, or the same.
  abbrev pub Answers : ℕ → RemoteExecutor Q → RemoteExecutor Q × Bool → Type 0
  Answers key e (e', true) = IsWithin e' × Takes key e e'
  Answers key e (e', false) = e' ≡ e

  pub assign_limited-Ends :
      (b : Backend Q) (final_phase enabled : Bool) (item : WorkItem) (e : RemoteExecutor Q)
      → Ends (assign_limited b final_phase enabled item e) (Answers item.key e)
  unfolding assign_limited
  assign_limited-Ends b final_phase enabled item e = elim (Bool-cases (fits item e)) [
    | inr short ↦ rw short refl
    | inl room ↦ rw room (
        Ends-bind (in_final_phase final_phase enabled item e) _ _ (Answers item.key e)
          (phase-Ends final_phase enabled item e (fits-Fits item e room))
          (λ boosted (f, same).
            let (e', pushed, within, takes) = push_total b boosted e f in
            subst (λ r. Ends r (Answers item.key e)) (sym (bind_step _ pushed))
              (within, subst (λ k. Takes k e e') same takes)))
  ]

  abbrev pub runs_on : ℕ → List (RemoteExecutor Q) → Bool
  runs_on k [] = false
  runs_on k (e ∷ es) = is_running k e.running_works || runs_on k es

  pub find_executor-IsWithin :
      (id : ℕ) (es : List (RemoteExecutor Q)) (e : RemoteExecutor Q)
      → All IsWithin es
      → find_executor id es ≡ some e
      → IsWithin e × (e.id ≡ id)
  find_executor-IsWithin id [] e all found = absurd (cc)
  find_executor-IsWithin id (h ∷ es) e (w, all) found = elim (Bool-cases (h.id == id)) [
    | inl here ↦
        let same : h ≡ e = some-injective h e (rw here at found) in
        subst (λ x. IsWithin x × (x.id ≡ id)) same (w, ground arith)
    | inr there ↦ find_executor-IsWithin id es e all (rw there at found)
  ]

  -- A list of executors that has all of another one's, one of them in its place.
  pub record Replaces (es : List (RemoteExecutor Q)) (e' : RemoteExecutor Q)
      (es' : List (RemoteExecutor Q)) : Type 0 where
    pub within : All IsWithin es'
    pub same_count : length es' ≡ length es
    pub keeps : (k : ℕ) → runs_on k es ≡ true → runs_on k es' ≡ true
    pub has : (k : ℕ) → is_running k e'.running_works ≡ true → runs_on k es' ≡ true

  set_here :
      (id : ℕ) (h e' : RemoteExecutor Q) (es : List (RemoteExecutor Q))
      → (h.id == id) ≡ true
      → e' ∷ es ≡ set_executor id e' (h ∷ es)
  set_here id h e' es here = rw here refl

  set_there :
      (id : ℕ) (h e' : RemoteExecutor Q) (es : List (RemoteExecutor Q))
      → (h.id == id) ≡ false
      → h ∷ set_executor id e' es ≡ set_executor id e' (h ∷ es)
  set_there id h e' es there = rw there refl

  pub set_executor-Replaces :
      (id : ℕ) (es : List (RemoteExecutor Q)) (e e' : RemoteExecutor Q)
      → find_executor id es ≡ some e
      → All IsWithin es
      → IsWithin e'
      → ((k : ℕ) → is_running k e.running_works ≡ true → is_running k e'.running_works ≡ true)
      → Replaces es e' (set_executor id e' es)
  set_executor-Replaces id [] e e' found all w keeps = absurd (cc)
  set_executor-Replaces id (h ∷ es) e e' found (v, all) w keeps = elim (Bool-cases (h.id == id)) [
    | inl here ↦
        let same : h ≡ e = some-injective h e (rw here at found) in
        subst (Replaces (h ∷ es) e') (set_here id h e' es here) (record {
          within = (w, all);
          same_count = refl;
          keeps = λ k p.
              or_keep (is_running k h.running_works) (is_running k e'.running_works) (runs_on k es)
                (λ q. keeps k (subst (λ x. is_running k x.running_works ≡ true) same q)) p;
          has = λ k p. rw p refl;
        })
    | inr there ↦
        let rest = set_executor-Replaces id es e e' (rw there at found) all w keeps in
        subst (Replaces (h ∷ es) e') (set_there id h e' es there) (record {
          within = (v, rest.within);
          same_count = ap suc rest.same_count;
          keeps = λ k p.
              or_keep_right (is_running k h.running_works) (runs_on k es)
                (runs_on k (set_executor id e' es)) (rest.keeps k) p;
          has = λ k p.
              or-right (is_running k h.running_works) (runs_on k (set_executor id e' es))
                (rest.has k p);
        })
  ]
