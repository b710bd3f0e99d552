-- ===== src/Planner/Builders.antt =====
-- The methods of `Planner` make tasks that depend on earlier ones: sources, sinks, unions and
-- consolidations.
use smallpond.Prelude.{
  All-weaken, ℕ, ◌≤◌, List, [], ◌∷◌, All, length, arith, Result, ok, ◌>>=◌, ◌>>◌, guard,
  assertion_error,
}
use smallpond.Common.{ArraySplit}
use smallpond.Planner.Infos.{PartitionInfo}
use smallpond.Planner.Tasks.{
  data_source_task, data_sink_task, phase1_task, root_task, merge_task, PlanTask, Settings,
  PlanState, Step, for_all, enumerate_from, toplevel, toplevel_part, create,
}
use smallpond.Planner.Build.{
  SinkType, link, copy, link_or_copy, manifest, other_type, Groups, group_into, one_dims,
  dims_within, partition_dims, create_group, consolidate_group, build_source, create_phase1,
  build_sink, build_root, build_union, build_consolidate,
}
use smallpond.Planner.Wiring.{
  IsWired, Known, Keeps, Makes, Makes->>=, Leaves-result, Known-mono, for_all-Makes, create-Makes,
}
use smallpond.Planner.Members.{All-enumerate_from, group_into-All}

abbrev pub AllKnown : ℕ → List PlanTask → Type 0
AllKnown n ts = All (Known n) ts

pub AllKnown-mono : (n m : ℕ) (ts : List PlanTask) → n ≤ m → AllKnown n ts → AllKnown m ts
AllKnown-mono n m ts le h = All-weaken (Known n) (Known m) ts (λ t. Known-mono n m t le) h

-- Something returned with no change to the state.
pub ok-Makes :
    (ts : List PlanTask) (s : PlanState)
    → IsWired s
    → AllKnown s.next_task_id ts
    → Makes AllKnown s (ok (ts, s))
ok-Makes ts s w h = (w, omega arith, h)

pub single-Makes :
    (s : PlanState) (r : Result (PlanTask × PlanState))
    → Makes Known s r
    → Makes AllKnown s (r >>= λ (t, s'). ok (t ∷ [], s'))
single-Makes s r h = Makes->>= Known AllKnown s r _ h (λ t s' w le k. (w, omega arith, (k, tt)))

-- A task for each item.
pub tasks-Makes :
    {A : Type 0} (X : ℕ → A → Type 0) (f : A → Step PlanTask) (xs : List A) (s : PlanState)
    → ((n m : ℕ) (x : A) → n ≤ m → X n x → X m x)
    → ((x : A) (s : PlanState) → IsWired s → X s.next_task_id x → Makes Known s (f x s))
    → IsWired s
    → All (X s.next_task_id) xs
    → Makes AllKnown s (for_all f xs s)
tasks-Makes X f xs s mono step w h = for_all-Makes X Known f xs s mono Known-mono step w h

module _ (ctx : Settings) (array_split : ArraySplit) (node_id : ℕ) where
  pub build_source-Makes :
      (groups : List (List PlanTask)) (s : PlanState)
      → IsWired s
      → Makes AllKnown s (build_source ctx array_split node_id groups s)
  unfolding build_source
  build_source-Makes [] s w =
      single-Makes s (create ctx node_id data_source_task [] (toplevel ctx ∷ []) s)
        (create-Makes ctx node_id data_source_task [] (toplevel ctx ∷ []) s w tt)
  build_source-Makes (g ∷ gs) s w = tt

  sink-Makes :
      (inputs : List PlanTask) (s : PlanState)
      → IsWired s
      → AllKnown s.next_task_id inputs
      → Makes AllKnown s (
          create ctx node_id data_sink_task inputs (toplevel ctx ∷ []) s >>= λ (t, s').
          ok (t ∷ [], s'))
  sink-Makes inputs s w h =
      single-Makes s (create ctx node_id data_sink_task inputs (toplevel ctx ∷ []) s)
        (create-Makes ctx node_id data_sink_task inputs (toplevel ctx ∷ []) s w h)

  phase1-Makes :
      (count : ℕ) (inputs : List PlanTask) (s : PlanState)
      → IsWired s
      → AllKnown s.next_task_id inputs
      → Makes AllKnown s
          (for_all (create_phase1 ctx array_split node_id count) (enumerate_from 0 inputs) s)
  phase1-Makes count inputs s w h =
      tasks-Makes (λ n (e : ℕ × PlanTask). Known n e.1)
        (create_phase1 ctx array_split node_id count) (enumerate_from 0 inputs) s
        (λ n m e le. Known-mono n m e.1 le)
        (λ (i, t) s w k.
          create-Makes ctx node_id phase1_task (t ∷ []) (toplevel_part ctx i count ∷ []) s w
            (k, tt))
        w (All-enumerate_from (Known s.next_task_id) 0 inputs h)

  copies-Makes :
      (inputs : List PlanTask) (s : PlanState)
      → IsWired s
      → AllKnown s.next_task_id inputs
      → Makes AllKnown s (build_sink ctx array_split node_id link_or_copy inputs s)
  unfolding build_sink
  copies-Makes inputs s w h =
      Makes->>= AllKnown AllKnown s
        (for_all (create_phase1 ctx array_split node_id (length inputs)) (enumerate_from 0 inputs)
          s)
        _ (phase1-Makes (length inputs) inputs s w h)
        (λ copies s' w' le k. sink-Makes copies s' w' k)

  pub build_sink-Makes :
      (type : SinkType) (inputs : List PlanTask) (s : PlanState)
      → IsWired s
      → AllKnown s.next_task_id inputs
      → Makes AllKnown s (build_sink ctx array_split node_id type inputs s)
  unfolding build_sink
  build_sink-Makes link inputs s w h = sink-Makes inputs s w h
  build_sink-Makes manifest inputs s w h = sink-Makes inputs s w h
  build_sink-Makes other_type inputs s w h = tt
  build_sink-Makes copy inputs s w h = copies-Makes inputs s w h
  build_sink-Makes link_or_copy inputs s w h = copies-Makes inputs s w h

  pub build_root-Makes :
      (inputs : List PlanTask) (s : PlanState)
      → IsWired s
      → AllKnown s.next_task_id inputs
      → Makes AllKnown s (build_root ctx array_split node_id inputs s)
  unfolding build_root
  build_root-Makes inputs s w h =
      single-Makes s (create ctx 0 root_task inputs (toplevel ctx ∷ []) s)
        (create-Makes ctx 0 root_task inputs (toplevel ctx ∷ []) s w h)

  pub build_union-Makes :
      (inputs : List PlanTask) (s : PlanState)
      → IsWired s
      → AllKnown s.next_task_id inputs
      → Makes AllKnown s (build_union ctx array_split node_id inputs s)
  unfolding build_union
  build_union-Makes inputs s w h =
      Leaves-result (Keeps AllKnown s) (guard (one_dims inputs) assertion_error)
        (λ done. ok (inputs, s)) (λ done e. ok-Makes inputs s w h)

  groups-Makes :
      (gs : Groups) (s : PlanState)
      → IsWired s
      → All (λ (g : List PartitionInfo × List PlanTask). AllKnown s.next_task_id g.1) gs
      → Makes AllKnown s (for_all (create_group ctx array_split node_id) gs s)
  groups-Makes gs s w h =
      tasks-Makes (λ n (g : List PartitionInfo × List PlanTask). AllKnown n g.1)
        (create_group ctx array_split node_id) gs s (λ n m g le. AllKnown-mono n m g.1 le)
        (λ (infos, inputs) s w k. create-Makes ctx node_id merge_task inputs infos s w k) w h

  consolidate_group-Makes :
      (dims : List ℕ) (inputs : List PlanTask) (s : PlanState)
      → IsWired s
      → AllKnown s.next_task_id inputs
      → Makes AllKnown s (consolidate_group ctx array_split node_id dims inputs s)
  consolidate_group-Makes dims [] s w h = tt
  consolidate_group-Makes dims (t ∷ ts) s w h =
      Leaves-result (Keeps AllKnown s)
        (guard (one_dims (t ∷ ts)) assertion_error
          >> guard (dims_within dims (partition_dims t)) assertion_error)
        (λ done. for_all (create_group ctx array_split node_id) (group_into dims [] (t ∷ ts)) s)
        (λ done e.
          groups-Makes (group_into dims [] (t ∷ ts)) s w
            (group_into-All (Known s.next_task_id) dims [] (t ∷ ts) tt h))

  pub build_consolidate-Makes :
      (dims : List ℕ) (groups : List (List PlanTask)) (s : PlanState)
      → IsWired s
      → All (AllKnown s.next_task_id) groups
      → Makes AllKnown s (build_consolidate ctx array_split node_id dims groups s)
  unfolding build_consolidate
  build_consolidate-Makes dims [] s w h = tt
  build_consolidate-Makes dims (inputs ∷ []) s w (h, _) = consolidate_group-Makes dims inputs s w h
  build_consolidate-Makes dims (inputs ∷ g ∷ gs) s w h = tt
