-- ===== src/Scheduler/Lookup.antt =====
-- Tasks found by key, and done tasks that stay done.
use mathlib.Core.Option.{some-injective}
use smallpond.Prelude.{
  ℕ, ◌≡◌, refl, subst, true, inl, inr, List, [], ◌∷◌, ◌++◌, none, some, arith, All, ◌==◌,
  Bool-cases, if◌then◌else◌, ok, of_option, map_result, key_error,
}
use smallpond.Scheduler.{Task, key_of, find_task, has_task, modify_task, all_done, keep_done}

pub find_task-has :
    (k : ℕ) (ts : List Task) → has_task k ts ≡ true → (t : Task) × (find_task k ts ≡ some t)
find_task-has k [] h = cc
find_task-has k (t ∷ ts) h = elim (Bool-cases (key_of t == k)) [
  | inl e ↦ (t, rw e refl)
  | inr e ↦ rw e (find_task-has k ts (rw e at h))
]

pub has_task-find :
    (k : ℕ) (ts : List Task) {t : Task}
    → find_task k ts ≡ some t
    → (has_task k ts ≡ true) × (key_of t ≡ k)
has_task-find k [] h = absurd (cc)
has_task-find k (u ∷ ts) h = elim (Bool-cases (key_of u == k)) [
  | inl e ↦ (rw e refl, ground arith)
  | inr e ↦ let (has, same) = has_task-find k ts (rw e at h) in (ground arith, same)
]

pub All-find {κ} :
    (P : Task → Type κ) (k : ℕ) (ts : List Task) {t : Task}
    → All P ts
    → find_task k ts ≡ some t
    → P t
All-find P k [] all h = absurd (cc)
All-find P k (u ∷ ts) {t} (p, all) h = elim (Bool-cases (key_of u == k)) [
  | inl e ↦ subst P (some-injective u t (rw e at h)) p
  | inr e ↦ All-find P k ts all (rw e at h)
]

pub has_task-append :
    (k : ℕ) (ts us : List Task) → has_task k ts ≡ true → has_task k (ts ++ us) ≡ true
has_task-append k [] us h = cc
has_task-append k (t ∷ ts) us h = ground (arith, has_task-append k ts us)

pub all_done-append :
    (ks : List ℕ) (ts us : List Task) → all_done ks ts ≡ true → all_done ks (ts ++ us) ≡ true
all_done-append [] ts us h = refl
all_done-append (k ∷ ks) ts us h = ground (arith, has_task-append k ts us, all_done-append ks ts us)

pub All-append {ℓ κ} :
    {A : Type ℓ} (P : A → Type κ) (xs : List A) (x : A) → All P xs → P x → All P (xs ++ x ∷ [])
All-append P [] x h p = (p, tt)
All-append P (y ∷ xs) x (q, h) p = (q, All-append P xs x h p)

pub All-map {ℓ κ μ} :
    {A : Type ℓ} (P : A → Type κ) (R : A → Type μ) (xs : List A)
    → ((x : A) → P x → R x)
    → All P xs
    → All R xs
All-map P R [] f h = tt
All-map P R (x ∷ xs) f (p, h) = (f x p, All-map P R xs f h)

-- Fetching tasks that are there raises nothing.
pub fetch_total {κ} :
    (R : Task → Type κ) (ks : List ℕ) (ts : List Task)
    → All (λ k. (t : Task) × (find_task k ts ≡ some t) × R t) ks
    → (us : List Task) × (map_result (λ k. of_option key_error (find_task k ts)) ks ≡ ok us)
      × All R us
fetch_total R [] ts h = ([], refl, tt)
fetch_total R (k ∷ ks) ts ((t, found, p), h) =
    let (us, run, all) = fetch_total R ks ts h in (t ∷ us, rw (found, run) refl, (p, all))

pub All-keep_done {κ} :
    (R : Task → Type κ) (done ts : List Task)
    → All R ts
    → All (λ t. R t × (all_done t.info.input_deps done ≡ true)) (keep_done done ts)
All-keep_done R done [] h = tt
All-keep_done R done (t ∷ ts) (p, h) = elim (Bool-cases (all_done t.info.input_deps done)) [
  | inl e ↦ rw e ((p, e), All-keep_done R done ts h)
  | inr e ↦ rw e (All-keep_done R done ts h)
]

-- What a lookup finds after an assignment to the task with a key.
pub find_task-modify :
    (k j : ℕ) (new : Task) (ts : List Task)
    → key_of new ≡ k
    → find_task j (modify_task k (λ _. new) ts)
      ≡ (if k == j then (if has_task k ts then some new else none) else find_task j ts)
find_task-modify k j new [] e = ground arith
find_task-modify k j new (t ∷ ts) e = ground (arith, find_task-modify k j new ts e)
