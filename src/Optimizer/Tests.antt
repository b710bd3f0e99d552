-- ===== src/Optimizer/Tests.antt =====
-- Runs of the optimizer (smallpond/logical/optimizer.py) on small plans.
use smallpond.Prelude.{ℕ, ◌≡◌, refl, Bool, false, [], ◌∷◌, none, ok, raise, key_error, ◌==◌}
use smallpond.Optimizer.{
  text, slot, named, Query, Sql, sql, limit, other, Node, Nodes, node, nil, cons, visit,
}
use smallpond.Optimizer.Meaning.{Becomes, meaning, IsPlain, visit_total}

abbrev query_node : Query → Sql
query_node q = record {
  udfs = [];
  cpu_limit = 1;
  gpu_limit = 0;
  memory_limit = none;
  earlier_queries = [];
  last_query = q;
}

abbrev select_from : Query
select_from = text "select * from " ∷ slot 0 ∷ []

abbrev count_from : Query
count_from = text "select count(*) from " ∷ slot 0 ∷ text " where a > 0" ∷ []

abbrev source : Node
source = node 0 other nil

abbrev over : Node → Nodes
over n = cons n nil

abbrev plan : Node
plan =
    node 2 (sql (query_node count_from))
      (over (node 1 (sql (query_node select_from)) (over source)))

abbrev none_excluded : ℕ → Bool
none_excluded id = false

-- Two queries in a row become one.
two_queries :
    visit none_excluded plan
    ≡ ok (
        node 2
          (sql (
            query_node (
              text "select count(*) from "
              ∷ text "("
              ∷ text "select * from "
              ∷ slot 0
              ∷ text ")"
              ∷ text " where a > 0"
              ∷ [])))
          (over source))
unfolding visit
two_queries = refl

-- A node that is excluded stays as it is, but the node above it is fused with it.
excluded_input : visit (λ id. id == 1) plan ≡ visit none_excluded plan
unfolding visit
excluded_input = refl

excluded_root : visit (λ id. id == 2) plan ≡ ok plan
unfolding visit
excluded_root = refl

-- A limit below a query becomes a part of the query.
limit_below :
    visit none_excluded (
      node 2
        (sql (query_node select_from))
        (over (node 1 (limit (query_node select_from)) (over source))))
    ≡ ok (
        node 2
          (sql (
            query_node
              (text "select * from " ∷ text "(" ∷ text "select * from " ∷ slot 0 ∷ text ")" ∷ [])))
          (over source))
unfolding visit
limit_below = refl

-- A query that names the batch cannot be fused with the query below it.
named_slot :
    visit none_excluded (
      node 2
        (sql (query_node (text "select " ∷ named "batch_index" ∷ text " from " ∷ slot 0 ∷ [])))
        (over (node 1 (sql (query_node select_from)) (over source))))
    ≡ raise key_error
unfolding visit
named_slot = refl

plan-IsPlain : IsPlain plan
unfolding IsPlain
plan-IsPlain = (λ single. (tt, refl), ((λ single. (tt, refl), ((tt, tt), tt)), tt))

visit_total_example : Becomes (visit none_excluded plan) (meaning plan)
visit_total_example = visit_total none_excluded plan plan-IsPlain
