-- ===== src/Scheduler/Progress.antt =====
-- What a round of `process_finished_tasks` gains, and what the statuses of a task tell.
use smallpond.Prelude.{
  ℕ, ◌≤◌, ◌≡◌, ◌≢◌, inl, inr, refl, sym, ap, ◌∙◌, subst, Bool, true, false, ◌||◌, List, [], ◌∷◌,
  ◌++◌, append-nil, append_assoc, Option, arith, All, ◌==◌, ==_iff, Bool-cases, Result, ok, raise,
  ◌>>=◌, ◌>>◌, guard, assertion_error,
}
use smallpond.Work.{WorkStatus, incomplete, succeed, failed, crashed, exec_failed, same_status}
use smallpond.Scheduler.Plan.{Plan, IsPlanned, IsReady, IsSound}
use smallpond.Scheduler.Sound.{same_key-IsReady}
use smallpond.Scheduler.Finish.{set_runtime_state}
use smallpond.Scheduler.{Task, key_of, runtime_id, State, has_task, has_run}

-- A sound state in which no task is less done than in another, and no run less seen.
pub record Progress (p : Plan) (s s' : State) : Type 0 where
  pub sound : IsSound p s'
  pub done : (us : List Task) × (s'.succeeded_tasks ≡ s.succeeded_tasks ++ us)
  pub seen : (us : List Task) × (s'.finished_tasks ≡ s.finished_tasks ++ us)

-- What executors send back of a plan's tasks: `EXEC_FAILED` is the status of a work that an
-- executor has not begun.
pub record IsReturned (p : Plan) (finished : Task) : Type 0 where
  pub planned : IsPlanned p finished
  pub begun : finished.work.status ≢ exec_failed

pub Progress-refl : (p : Plan) (s : State) → IsSound p s → Progress p s s
Progress-refl p s i = record {
  sound = i;
  done = ([], sym (append-nil s.succeeded_tasks));
  seen = ([], sym (append-nil s.finished_tasks));
}

pub Progress-trans : (p : Plan) (a b c : State) → Progress p a b → Progress p b c → Progress p a c
Progress-trans p a b c h j =
    let (us, done) = h.done in
    let (vs, done') = j.done in
    let (xs, seen) = h.seen in
    let (ys, seen') = j.seen in
    record {
      sound = j.sound;
      done = (us ++ vs, done' ∙ ap (λ l. l ++ vs) done ∙ append_assoc a.succeeded_tasks us vs);
      seen = (xs ++ ys, seen' ∙ ap (λ l. l ++ ys) seen ∙ append_assoc a.finished_tasks xs ys);
    }

-- A run that is scheduled is of a task with all inputs done.
pub scheduled-IsReady :
    (p : Plan) (t : Task) (done ts : List Task)
    → IsPlanned p t
    → All (IsReady p done) ts
    → has_run (runtime_id t) ts ≡ true
    → IsReady p done t
scheduled-IsReady p t done [] planned h has = absurd (cc)
scheduled-IsReady p t done (u ∷ ts) planned (r, h) has =
    elim (Bool-cases (u.info.id == t.info.id)) [
      | inl same ↦
          same_key-IsReady p t u done
            (sym planned.keyed
              ∙ ap p.key_of_id (sym ((==_iff u.info.id t.info.id).0 same))
              ∙ r.0.keyed)
            planned r
      | inr other ↦ scheduled-IsReady p t done ts planned h (ground arith)
    ]

pub succeeds : (x : WorkStatus) → same_status x succeed ≡ true → x ≡ succeed
succeeds x h = ground arith

pub fails :
    (x : WorkStatus)
    → x ≢ incomplete
    → x ≢ exec_failed
    → same_status x succeed ≡ false
    → (same_status x failed || same_status x crashed) ≡ true
fails x h h' other = ground arith

pub finals : (x : WorkStatus) → same_status x incomplete ≡ false → x ≢ incomplete
finals x h = ground arith

pub fails_not :
    (x : WorkStatus)
    → same_status x succeed ≡ true
    → (same_status x failed || same_status x crashed) ≡ false
fails_not x h = ground arith

pub runtime-IsPlanned :
    (p : Plan) (r : Option ℕ) (t : Task) → IsPlanned p t → IsPlanned p (set_runtime_state r t)
runtime-IsPlanned p r t h = record {
  known = h.known;
  keyed = h.keyed;
  before = h.before;
  after = h.after;
}

pub settled_task :
    (k : ℕ) (t : Task) (s : State)
    → (t.work.status ≡ succeed → has_task (key_of t) s.succeeded_tasks ≡ true)
    → key_of t ≡ k
    → t.work.status ≡ succeed
    → has_task k s.succeeded_tasks ≡ true
settled_task k t s h same done = subst (λ j. has_task j s.succeeded_tasks ≡ true) same (h done)

-- The end of the branch for a success.
pub checked_step :
    {b : Bool} {r : Result State} {s' : State}
    → b ≡ true
    → r ≡ ok s'
    → (◌>>◌ {Y = State × ℕ}
        (guard b assertion_error)
        (◌>>=◌ {Y = State × ℕ} r (λ after. ok (after, 1))))
      ≡ ok (s', 1)
checked_step h ran = rw (h, ran) refl

-- The outcome of a round: a state with progress, and whether the task counts as finished.
abbrev pub Handles : Plan → Result (State × ℕ) → State → Type 0
Handles p r s = (s' : State) × (n : ℕ) × (r ≡ ok (s', n)) × Progress p s s' × (n ≤ 1)

-- The run of a task has been seen.
abbrev pub HasSeen : Task → Result (State × ℕ) → Type 0
HasSeen t (ok (s, n)) = has_run (runtime_id t) s.finished_tasks ≡ true
HasSeen t (raise error) = Unit
