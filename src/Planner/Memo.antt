-- ===== src/Planner/Memo.antt =====
-- `Planner.node_to_tasks`: a node is planned once.
use smallpond.Prelude.{
  ℕ, ◌≡◌, ◌∙◌, refl, sym, ap, List, Option, none, some, Result, ok, ◌>>=◌, ==_iff, bind-ok,
  ok-injective,
}
use smallpond.Common.{ArraySplit}
use smallpond.Planner.Tasks.{PlanTask, Settings, PlanState}
use smallpond.Planner.Visit.{build, Node, node, find_memo, memoize, recall, visit, visit_all}

memoize-find :
    (id : ℕ) (done : List PlanTask × PlanState) (ts : List PlanTask) (s : PlanState)
    → ok (memoize id done) ≡ ok (ts, s)
    → find_memo id s.node_to_tasks ≡ some ts
memoize-find id (us, s1) ts s e =
    let same = ok-injective e in
    ap (λ p. find_memo id p.1.node_to_tasks) (sym same)
    ∙ (rw ((==_iff id id).1 refl) (ap (λ p. some p.0) same))

recall-find :
    (memo : Option (List PlanTask)) (s : PlanState) (made : Result (List PlanTask × PlanState))
    (id : ℕ) (ts : List PlanTask) (s' : PlanState)
    → memo ≡ find_memo id s.node_to_tasks
    → (made ≡ ok (ts, s') → find_memo id s'.node_to_tasks ≡ some ts)
    → recall memo s made ≡ ok (ts, s')
    → find_memo id s'.node_to_tasks ≡ some ts
recall-find none s made id ts s' same fresh e = fresh e
recall-find (some us) s made id ts s' same fresh e =
    ap (λ p. find_memo id p.1.node_to_tasks) (sym (ok-injective e))
    ∙ sym same
    ∙ ap (λ p. some p.0) (ok-injective e)

module _ (ctx : Settings) (array_split : ArraySplit) where
  -- A visit that raises nothing leaves a state in which another visit of the node gives the same
  -- tasks and changes nothing.
  visit-again :
      (n : Node) (s : PlanState) (ts : List PlanTask) (s' : PlanState)
      → visit ctx array_split n s ≡ ok (ts, s')
      → visit ctx array_split n s' ≡ ok (ts, s')
  unfolding visit
  visit-again (node id kind deps) s ts s' e =
      ap
        (λ memo. recall memo s' (
          visit_all ctx array_split deps s' >>= λ (groups, s'').
          build ctx array_split id kind groups s'' >>= λ done. ok (memoize id done)))
        (recall-find (find_memo id s.node_to_tasks) s _ id ts s' refl
          (λ e1.
            let ((groups, s1), _, e2) = bind-ok (visit_all ctx array_split deps s) _ (ts, s') e1 in
            let (done, _, e3) = bind-ok (build ctx array_split id kind groups s1) _ (ts, s') e2 in
            memoize-find id done ts s' e3)
          e)
