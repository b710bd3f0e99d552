-- ===== src/Planner/Partitions.antt =====
-- The methods of `Planner` make tasks that depend on earlier ones: partitions, computing nodes,
-- projections and limits.
use smallpond.Prelude.{
  All-concat, ℕ, ◌*◌, List, [], ◌∷◌, ◌++◌, All, map, length, range, ltb, leb, ◌>>=◌, guard,
  assertion_error, either_if,
}
use smallpond.Common.{ArraySplit, split_into_rows}
use smallpond.Planner.Tasks.{
  merge_task, split_task, producer_task, consumer_task, PlanTask, Settings, PlanState, for_all,
  enumerate_from, toplevel, toplevel_part, create,
}
use smallpond.Planner.Build.{PartitionNode, one_dims}
use smallpond.Planner.Visit.{
  create_producer, part_of, create_nested_consumer, pairs, build_nested, num_producer_tasks,
  create_split, create_merge, split_inputs, create_consumer, build_flat, build_partition,
}
use smallpond.Planner.Wiring.{
  IsWired, Known, Keeps, Makes, Makes->>=, Leaves-result, Known-mono, create-Makes,
}
use smallpond.Planner.Members.{All-enumerate_from, All-map, All-always, split_into_rows-All}
use smallpond.Planner.Builders.{AllKnown, AllKnown-mono, tasks-Makes}

All-pairs :
    {A : Type 0} (P : A → Type 0) (xs : List A) (is : List ℕ)
    → All P xs
    → All (λ (p : A × ℕ). P p.0) (pairs xs is)
All-pairs P [] is h = tt
All-pairs P (x ∷ xs) is (p, h) =
    All-concat (λ q. P q.0) (map (λ i. (x, i)) is) (pairs xs is)
      (All-map (λ q. P q.0) (λ i. (x, i)) is (All-always (λ i. P x) is (λ i. p)))
      (All-pairs P xs is h)

module _ (ctx : Settings) (array_split : ArraySplit) (node_id : ℕ) where
  -- A task for each input, with that input only.
  producers-Makes :
      (inputs : List PlanTask) (s : PlanState)
      → IsWired s
      → AllKnown s.next_task_id inputs
      → Makes AllKnown s (for_all (create_producer ctx array_split node_id) inputs s)
  producers-Makes inputs s w h =
      tasks-Makes Known (create_producer ctx array_split node_id) inputs s Known-mono
        (λ t s w k. create-Makes ctx node_id producer_task (t ∷ []) t.partition_infos s w (k, tt)) w
        h

  build_nested-Makes :
      (n : PartitionNode) (inputs : List PlanTask) (s : PlanState)
      → IsWired s
      → AllKnown s.next_task_id inputs
      → Makes AllKnown s (build_nested ctx array_split node_id n inputs s)
  unfolding build_nested
  build_nested-Makes n inputs s w h =
      Leaves-result (Keeps AllKnown s)
        (guard (leb (length inputs * n.npartitions) n.max_card_of_producers_x_consumers)
          assertion_error)
        _
        (λ done e.
          Makes->>= AllKnown AllKnown s (for_all (create_producer ctx array_split node_id) inputs s)
            _ (producers-Makes inputs s w h)
            (λ producers s' w' le k.
              tasks-Makes (λ m (p : PlanTask × ℕ). Known m p.0)
                (create_nested_consumer ctx array_split node_id n)
                (pairs producers (range n.npartitions)) s' (λ i j p. Known-mono i j p.0)
                (λ (producer, index) s w known.
                  create-Makes ctx node_id consumer_task (producer ∷ [])
                    (producer.partition_infos ++ part_of n index ∷ []) s w (known, tt))
                w' (All-pairs (Known s'.next_task_id) producers (range n.npartitions) k)))

  merged-Makes :
      (count : ℕ) (inputs : List PlanTask) (s : PlanState)
      → IsWired s
      → AllKnown s.next_task_id inputs
      → Makes AllKnown s (
          create ctx node_id merge_task inputs (toplevel ctx ∷ []) s >>= λ (merged, s').
          for_all (create_split ctx array_split node_id count merged) (range count) s')
  merged-Makes count inputs s w h =
      Makes->>= Known AllKnown s (create ctx node_id merge_task inputs (toplevel ctx ∷ []) s) _
        (create-Makes ctx node_id merge_task inputs (toplevel ctx ∷ []) s w h)
        (λ merged s' w' le k.
          tasks-Makes (λ m index. Known m merged)
            (create_split ctx array_split node_id count merged) (range count) s'
            (λ i j index. Known-mono i j merged)
            (λ index s w known.
              create-Makes ctx node_id split_task (merged ∷ []) (toplevel_part ctx index count ∷ [])
                s w (known, tt))
            w' (All-always (λ index. Known s'.next_task_id merged) (range count) (λ index. k)))

  rows-Makes :
      (count : ℕ) (inputs : List PlanTask) (s : PlanState)
      → IsWired s
      → AllKnown s.next_task_id inputs
      → Makes AllKnown s (
          split_into_rows array_split inputs count >>= λ rows.
          for_all (create_merge ctx array_split node_id count) (enumerate_from 0 rows) s)
  rows-Makes count inputs s w h =
      Leaves-result (Keeps AllKnown s) (split_into_rows array_split inputs count)
        (λ rows. for_all (create_merge ctx array_split node_id count) (enumerate_from 0 rows) s)
        (λ rows e.
          tasks-Makes (λ m (p : ℕ × List PlanTask). AllKnown m p.1)
            (create_merge ctx array_split node_id count) (enumerate_from 0 rows) s
            (λ i j p. AllKnown-mono i j p.1)
            (λ (index, row) s w known.
              create-Makes ctx node_id merge_task row (toplevel_part ctx index count ∷ []) s w
                known)
            w
            (All-enumerate_from (AllKnown s.next_task_id) 0 rows
              (split_into_rows-All (Known s.next_task_id) array_split inputs count rows h e)))

  split_inputs-Makes :
      (count : ℕ) (inputs : List PlanTask) (s : PlanState)
      → IsWired s
      → AllKnown s.next_task_id inputs
      → Makes AllKnown s (split_inputs ctx array_split node_id count inputs s)
  unfolding split_inputs
  split_inputs-Makes count inputs s w h =
      either_if (Makes AllKnown s) (ltb (length inputs) count) _ _ (merged-Makes count inputs s w h)
        (rows-Makes count inputs s w h)

  consumers-Makes :
      (n : PartitionNode) (producers : List PlanTask) (s : PlanState)
      → IsWired s
      → AllKnown s.next_task_id producers
      → Makes AllKnown s
          (for_all (create_consumer ctx array_split node_id n producers) (range n.npartitions) s)
  consumers-Makes n producers s w h =
      tasks-Makes (λ m index. AllKnown m producers)
        (create_consumer ctx array_split node_id n producers) (range n.npartitions) s
        (λ i j index. AllKnown-mono i j producers)
        (λ index s w known.
          create-Makes ctx node_id consumer_task producers (toplevel ctx ∷ part_of n index ∷ []) s w
            known)
        w
        (All-always (λ index. AllKnown s.next_task_id producers) (range n.npartitions) (λ index. h))

  build_flat-Makes :
      (n : PartitionNode) (inputs : List PlanTask) (s : PlanState)
      → IsWired s
      → AllKnown s.next_task_id inputs
      → Makes AllKnown s (build_flat ctx array_split node_id n inputs s)
  unfolding build_flat
  build_flat-Makes n inputs s w h =
      Leaves-result (Keeps AllKnown s) (num_producer_tasks ctx array_split node_id n) _ (λ count e.
        Makes->>= AllKnown AllKnown s (split_inputs ctx array_split node_id count inputs s) _
          (split_inputs-Makes count inputs s w h)
          (λ parts s1 w1 le1 k1.
            Makes->>= AllKnown AllKnown s1
              (for_all (create_producer ctx array_split node_id) parts s1) _
              (producers-Makes parts s1 w1 k1)
              (λ producers s2 w2 le2 k2. consumers-Makes n producers s2 w2 k2)))

  pub build_partition-Makes :
      (n : PartitionNode) (inputs : List PlanTask) (s : PlanState)
      → IsWired s
      → AllKnown s.next_task_id inputs
      → Makes AllKnown s (build_partition ctx array_split node_id n inputs s)
  unfolding build_partition
  build_partition-Makes n inputs s w h =
      Leaves-result (Keeps AllKnown s) (guard (one_dims inputs) assertion_error) _ (λ done e.
        either_if (Makes AllKnown s) n.nested (build_nested ctx array_split node_id n inputs s)
          (build_flat ctx array_split node_id n inputs s) (build_nested-Makes n inputs s w h)
          (build_flat-Makes n inputs s w h))
