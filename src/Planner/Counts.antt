-- ===== src/Planner/Counts.antt =====
-- How many tasks a partition node makes, and what each of them depends on.
use smallpond.Prelude.{
  ℕ, ◌+◌, ◌-◌, ◌*◌, ◌/◌, min, max, ◌≤◌, ◌<◌, ◌≢◌, ◌≡◌, sym, suc, zero, ◌⊎◌, inl, inr, List, leb,
  leb→le, leb→lt, ==_iff, ◌==◌, arith, ok, raise, bind-ok, ok-injective, Bool-cases,
  zero_division_error,
}
use native.Mathlib.Nat.{div-add-mod}
use smallpond.Common.{ArraySplit}
use smallpond.Planner.Infos.{PartitionInfo}
use smallpond.Planner.Tasks.{TaskKind, PlanTask, Settings}
use smallpond.Planner.Build.{PartitionNode}
use smallpond.Planner.Visit.{num_producer_tasks, ceil_div}

-- The kind of a task, its dependencies and its place.
abbrev pub Outline : Type 0
Outline = TaskKind × List ℕ × List PartitionInfo

abbrev pub outline : PlanTask → Outline
outline t = (t.kind, t.input_deps, t.partition_infos)

ceil_div-mul : (a b q : ℕ) → ceil_div a b ≡ ok q → q * b < a + b
ceil_div-mul a b q e = elim (Bool-cases (b == 0)) [
  | inl none_at_all ↦ let e' : raise zero_division_error ≡ ok q = rw none_at_all at e in absurd (cc)
  | inr some_left ↦
      let e' : ok ((a + b - 1) / b) ≡ ok q = rw some_left at e in
      let same = ok-injective e' in
      let positive : b ≢ 0 = λ z. let zeroed = (==_iff b 0).1 z in absurd (cc) in
      let whole = div-add-mod (a + b - 1) b in rw (sym same) (omega arith)
]

mul-le-mul : (a b k : ℕ) → a ≤ b → a * k ≤ b * k
mul-le-mul a b zero le = omega arith
mul-le-mul a b (suc k) le = let rest = mul-le-mul a b k le in omega arith

clamped :
    (count m per x k card : ℕ)
    → max 1 (min (min m per) x) ≡ count
    → per * k < card + k
    → (count ≡ 1) ⊎ (count * k < card + k)
clamped count m per x k card e h = elim (Bool-cases (leb count per)) [
  | inl below ↦ let le = mul-le-mul count per k (leb→le count per below) in inr (omega arith)
  | inr above ↦ let lt = leb→lt count per above in inl (omega arith)
]

module _ (ctx : Settings) (array_split : ArraySplit) (node_id : ℕ) where
  -- The number of producers is 1 at least and at most the limit of the node, or 1, and the pairs of
  -- a producer and a consumer do not pass their limit by a whole round, or there is one producer.
  pub num_producer_tasks-bounds :
      (n : PartitionNode) (count : ℕ)
      → num_producer_tasks ctx array_split node_id n ≡ ok count
      → (1 ≤ count)
        × (count ≤ max 1 n.max_num_producer_tasks)
        × ((count ≡ 1)
            ⊎ (count * n.npartitions < n.max_card_of_producers_x_consumers + n.npartitions))
  unfolding num_producer_tasks
  num_producer_tasks-bounds n count e =
      let (per, e1, e2) =
        bind-ok (ceil_div n.max_card_of_producers_x_consumers n.npartitions) _ count e in
      let (rounds, e3, e4) = bind-ok (ceil_div ctx.usable_cpu_count n.cpu_limit) _ count e2 in
      let same = ok-injective e4 in
      (
        omega arith,
        omega arith,
        clamped count n.max_num_producer_tasks per (2 * ctx.num_executors * rounds) n.npartitions
            n.max_card_of_producers_x_consumers same
            (ceil_div-mul n.max_card_of_producers_x_consumers n.npartitions per e1),
      )
