-- ===== src/Planner/Made.antt =====
-- `Planner.visit` makes tasks that depend on earlier ones: the methods for a node, and the visits.
use smallpond.Prelude.{
  All-weaken, ℕ, ◌≤◌, refl, List, [], ◌∷◌, All, Option, none, some, flatten, arith, Result, ok,
  raise, ◌>>=◌, ◌==◌, Bool-cases, inl, inr, ◌≡◌, subst,
}
use mathlib.Core.Option.{some-injective}
use smallpond.Common.{ArraySplit}
use smallpond.Planner.Tasks.{
  merge_task, compute_task, projection_task, PlanTask, Settings, PlanState, for_all, toplevel,
  create,
}
use smallpond.Planner.Build.{
  NodeKind, data_source, root, union, compute, projection, limit, data_sink, consolidate, partition,
  sort_key, most_ndims, match_input,
}
use smallpond.Planner.Visit.{
  create_matched, build_compute, create_projection, build_projection, create_limit, build_limit,
  build, Node, Nodes, node, nil, cons, find_memo, memoize, recall, visit, visit_all,
}
use smallpond.Planner.Wiring.{
  IsWired, Known, Keeps, Makes, Makes->>=, Leaves-result, Known-mono, create-Makes,
}
use smallpond.Planner.Members.{All-flatten, most_ndims-All, match_input-All}
use smallpond.Planner.Builders.{
  AllKnown, AllKnown-mono, single-Makes, tasks-Makes, build_source-Makes, build_sink-Makes,
  build_root-Makes, build_union-Makes, build_consolidate-Makes,
}
use smallpond.Planner.Partitions.{build_partition-Makes}

abbrev pub GroupsKnown : ℕ → List (List PlanTask) → Type 0
GroupsKnown n gs = All (AllKnown n) gs

GroupsKnown-mono :
    (n m : ℕ) (gs : List (List PlanTask)) → n ≤ m → GroupsKnown n gs → GroupsKnown m gs
GroupsKnown-mono n m gs le h =
    All-weaken (AllKnown n) (AllKnown m) gs (λ ts. AllKnown-mono n m ts le) h

module _ (ctx : Settings) (array_split : ArraySplit) (node_id : ℕ) where
  create_matched-Makes :
      (groups : List (List PlanTask)) (main : PlanTask) (s : PlanState)
      → IsWired s
      → GroupsKnown s.next_task_id groups
      → Makes Known s (create_matched ctx array_split node_id groups main s)
  create_matched-Makes groups main s w h =
      Leaves-result (Keeps Known s) (match_input main groups) _ (λ inputs e.
        create-Makes ctx node_id compute_task inputs main.partition_infos s w
          (match_input-All (Known s.next_task_id) main groups inputs h e))

  build_compute-Makes :
      (groups : List (List PlanTask)) (s : PlanState)
      → IsWired s
      → GroupsKnown s.next_task_id groups
      → Makes AllKnown s (build_compute ctx array_split node_id groups s)
  unfolding build_compute
  build_compute-Makes [] s w h =
      single-Makes s (create ctx node_id compute_task [] (toplevel ctx ∷ []) s)
        (create-Makes ctx node_id compute_task [] (toplevel ctx ∷ []) s w tt)
  build_compute-Makes (g ∷ gs) s w (p, h) =
      Leaves-result (Keeps AllKnown s) (sort_key g) _ (λ key e.
        Leaves-result (Keeps AllKnown s) (most_ndims key g gs) _ (λ mains e'.
          tasks-Makes (λ n main. Known n main × GroupsKnown n (g ∷ gs))
            (create_matched ctx array_split node_id (g ∷ gs)) mains s
            (λ n m main le (k, ks). (Known-mono n m main le k, GroupsKnown-mono n m (g ∷ gs) le ks))
            (λ main s w (k, ks). create_matched-Makes (g ∷ gs) main s w ks) w
            (All-weaken (Known s.next_task_id)
              (λ main. Known s.next_task_id main × GroupsKnown s.next_task_id (g ∷ gs)) mains
              (λ main k. (k, (p, h)))
              (most_ndims-All (Known s.next_task_id) key g gs mains p h e'))))

  build_projection-Makes :
      (groups : List (List PlanTask)) (s : PlanState)
      → IsWired s
      → GroupsKnown s.next_task_id groups
      → Makes AllKnown s (build_projection ctx array_split node_id groups s)
  unfolding build_projection
  build_projection-Makes [] s w h = tt
  build_projection-Makes (inputs ∷ g ∷ gs) s w h = tt
  build_projection-Makes (inputs ∷ []) s w (h, _) =
      tasks-Makes Known (create_projection ctx array_split node_id) inputs s Known-mono
        (λ t s w k. create-Makes ctx node_id projection_task (t ∷ []) t.partition_infos s w (k, tt))
        w h

  create_limit-Makes :
      (t : PlanTask) (s : PlanState)
      → IsWired s
      → Known s.next_task_id t
      → Makes Known s (create_limit ctx array_split node_id t s)
  create_limit-Makes t s w k =
      create-Makes ctx node_id compute_task (t ∷ []) t.partition_infos s w (k, tt)

  build_limit-Makes :
      (groups : List (List PlanTask)) (s : PlanState)
      → IsWired s
      → GroupsKnown s.next_task_id groups
      → Makes AllKnown s (build_limit ctx array_split node_id groups s)
  unfolding build_limit
  build_limit-Makes [] s w h = tt
  build_limit-Makes (inputs ∷ g ∷ gs) s w h = tt
  build_limit-Makes (inputs ∷ []) s w (h, _) =
      Makes->>= AllKnown AllKnown s (for_all (create_limit ctx array_split node_id) inputs s) _
        (tasks-Makes Known (create_limit ctx array_split node_id) inputs s Known-mono
          create_limit-Makes w h)
        (λ partial s1 w1 le1 k1.
          Makes->>= Known AllKnown s1 (create ctx node_id merge_task partial (toplevel ctx ∷ []) s1)
            _ (create-Makes ctx node_id merge_task partial (toplevel ctx ∷ []) s1 w1 k1)
            (λ merged s2 w2 le2 k2.
              single-Makes s2 (create_limit ctx array_split node_id merged s2)
                (create_limit-Makes merged s2 w2 k2)))

  build-Makes :
      (kind : NodeKind) (groups : List (List PlanTask)) (s : PlanState)
      → IsWired s
      → GroupsKnown s.next_task_id groups
      → Makes AllKnown s (build ctx array_split node_id kind groups s)
  unfolding build
  build-Makes data_source groups s w h = build_source-Makes ctx array_split node_id groups s w
  build-Makes (data_sink type) groups s w h =
      build_sink-Makes ctx array_split node_id type (flatten groups) s w
        (All-flatten (Known s.next_task_id) groups h)
  build-Makes root groups s w h =
      build_root-Makes ctx array_split node_id (flatten groups) s w
        (All-flatten (Known s.next_task_id) groups h)
  build-Makes union groups s w h =
      build_union-Makes ctx array_split node_id (flatten groups) s w
        (All-flatten (Known s.next_task_id) groups h)
  build-Makes (consolidate dims) groups s w h =
      build_consolidate-Makes ctx array_split node_id dims groups s w h
  build-Makes (partition n) groups s w h =
      build_partition-Makes ctx array_split node_id n (flatten groups) s w
        (All-flatten (Known s.next_task_id) groups h)
  build-Makes compute groups s w h = build_compute-Makes groups s w h
  build-Makes projection groups s w h = build_projection-Makes groups s w h
  build-Makes limit groups s w h = build_limit-Makes groups s w h

find_memo-All :
    (P : List PlanTask → Type 0) (id : ℕ) (memo : List (ℕ × List PlanTask)) (ts : List PlanTask)
    → All (λ (e : ℕ × List PlanTask). P e.1) memo
    → find_memo id memo ≡ some ts
    → P ts
find_memo-All P id [] ts h e = absurd (cc)
find_memo-All P id ((k, us) ∷ memo) ts (p, h) e = elim (Bool-cases (k == id)) [
  | inl same ↦ subst P (some-injective us ts (rw same at e)) p
  | inr other ↦ find_memo-All P id memo ts h (rw other at e)
]

recall-Makes :
    (memo : Option (List PlanTask)) (s : PlanState) (made : Result (List PlanTask × PlanState))
    → IsWired s
    → ((ts : List PlanTask) → memo ≡ some ts → AllKnown s.next_task_id ts)
    → Makes AllKnown s made
    → Makes AllKnown s (recall memo s made)
recall-Makes none s made w known h = h
recall-Makes (some ts) s made w known h = (w, omega arith, known ts refl)

memoize-Makes :
    (id : ℕ) (s : PlanState) (r : Result (List PlanTask × PlanState))
    → Makes AllKnown s r
    → Makes AllKnown s (r >>= λ done. ok (memoize id done))
memoize-Makes id s (raise error) h = tt
memoize-Makes id s (ok (ts, s')) (w, le, k) =
    (record { numbered = w.numbered; wired = w.wired; memo = (k, w.memo) }, le, k)

module _ (ctx : Settings) (array_split : ArraySplit) where
  mutual
    unfolding visit

    pub visit-Makes :
        (n : Node) (s : PlanState) → IsWired s → Makes AllKnown s (visit ctx array_split n s)
    visit-Makes (node id kind deps) s w =
        let visited = visit_all-Makes deps s w in
        recall-Makes (find_memo id s.node_to_tasks) s _ w
          (λ ts found. find_memo-All (AllKnown s.next_task_id) id s.node_to_tasks ts w.memo found)
          (Makes->>= GroupsKnown AllKnown s (visit_all ctx array_split deps s) _ visited
            (λ groups s' w' le k.
              memoize-Makes id s' (build ctx array_split id kind groups s')
                (build-Makes ctx array_split id kind groups s' w' k)))

    pub visit_all-Makes :
        (ns : Nodes) (s : PlanState)
        → IsWired s
        → Makes GroupsKnown s (visit_all ctx array_split ns s)
    visit_all-Makes nil s w = (w, omega arith, tt)
    visit_all-Makes (cons n ns) s w =
        Makes->>= AllKnown GroupsKnown s (visit ctx array_split n s) _ (visit-Makes n s w)
          (λ group s' w' le k.
            Makes->>= GroupsKnown GroupsKnown s' (visit_all ctx array_split ns s') _
              (visit_all-Makes ns s' w')
              (λ groups s'' w'' le' ks. (w'', omega arith, (AllKnown-mono _ _ group le' k, ks))))
