-- ===== src/Work/Batch.antt =====
-- `WorkBatch.run`: the works are executed in order up to the first that does not succeed.
use smallpond.Prelude.{
  ℕ, suc, ◌≡◌, ◌≢◌, refl, ap, true, false, inl, inr, List, [], ◌∷◌, ◌++◌, map, Option, arith,
  length, All, Bool-cases,
}
use smallpond.Work.{
  WorkItem, Hooks, succeed, same_status, ExecOutcome, returned, escaped, exec, BatchOutcome,
  batch_returned, batch_escaped, push_front, after_exec, assign, batch_run,
}
use smallpond.Work.Exec.{same_status-eq}

abbrev pub HasSucceeded : WorkItem → Type 0
HasSucceeded w = w.status ≡ succeed

-- What a run leaves behind, by how it ended: every work succeeded; or the works before one that
-- did not succeed, that one, and the works behind it as they were.
abbrev pub Left : List WorkItem → BatchOutcome → Type 0
Left ws (batch_returned true ws') = All HasSucceeded ws' × (length ws' ≡ length ws)
Left ws (batch_returned false ws') =
    (before tried rest : List WorkItem) × (w : WorkItem) × (ws ≡ tried ++ rest)
    × (ws' ≡ before ++ (w ∷ rest))
    × (length tried ≡ suc (length before))
    × All HasSucceeded before
    × (w.status ≢ succeed)
Left ws (batch_escaped fault ws') =
    (before tried rest : List WorkItem) × (w : WorkItem) × (ws ≡ tried ++ rest)
    × (ws' ≡ before ++ (w ∷ rest))
    × (length tried ≡ suc (length before))
    × All HasSucceeded before

Left-push_front :
    (w w' : WorkItem) (ws : List WorkItem) (o : BatchOutcome)
    → w'.status ≡ succeed
    → Left ws o
    → Left (w ∷ ws) (push_front w' o)
Left-push_front w w' ws (batch_returned true ws') done (all, len) = ((done, all), ap suc len)
Left-push_front w w' ws (batch_returned false ws') done
      (before, tried, rest, x, e, e', len, all, bad) =
    (w' ∷ before, w ∷ tried, rest, x, ap (◌∷◌ w) e, ap (◌∷◌ w') e', ap suc len, (done, all), bad)
Left-push_front w w' ws (batch_escaped fault ws') done (before, tried, rest, x, e, e', len, all) =
    (w' ∷ before, w ∷ tried, rest, x, ap (◌∷◌ w) e, ap (◌∷◌ w') e', ap suc len, (done, all))

Left-after_exec :
    (w : WorkItem) (ws : List WorkItem) (later : BatchOutcome) (o : ExecOutcome)
    → Left ws later
    → Left (w ∷ ws) (after_exec ws later o)
Left-after_exec w ws later (escaped fault w') h = ([], w ∷ [], ws, w', refl, refl, refl, tt)
Left-after_exec w ws later (returned w') h = elim (Bool-cases (same_status w'.status succeed)) [
  | inl good ↦ rw good (Left-push_front w w' ws later (same_status-eq w'.status succeed good) h)
  | inr bad ↦ rw bad ([], w ∷ [], ws, w', refl, refl, refl, tt, λ e. ground arith)
]

-- A batch that returns true has executed every work with success. One that returns false, or is
-- left by an exception of a `cleanup`, has executed the works up to one, all but that one with
-- success, and has not touched the works behind it; if it returns false, that one did not succeed.
batch_run-Left :
    (hooks : WorkItem → Hooks) (exec_id : Option ℕ) (ws : List WorkItem)
    → Left ws (batch_run hooks exec_id ws)
unfolding batch_run
batch_run-Left hooks exec_id [] = (tt, refl)
batch_run-Left hooks exec_id (w ∷ ws) =
    Left-after_exec w ws (batch_run hooks exec_id ws) (exec (hooks w) (assign exec_id w))
      (batch_run-Left hooks exec_id ws)

-- A batch whose works have succeeded, as one is after a run that returned true, succeeds again
-- without calling a hook of theirs.
batch_run_again :
    (hooks : WorkItem → Hooks) (exec_id : Option ℕ) (ws : List WorkItem)
    → All HasSucceeded ws
    → batch_run hooks exec_id ws ≡ batch_returned true (map (assign exec_id) ws)
unfolding batch_run exec
batch_run_again hooks exec_id [] h = refl
batch_run_again hooks exec_id (w ∷ ws) (done, h) =
    rw (done, batch_run_again hooks exec_id ws h) refl
