-- ===== src/Optimizer.antt =====
-- smallpond/logical/optimizer.py, `Optimizer`: SQL nodes in a row become one node. The memo of `visit`
-- only shares the nodes that it makes, and is left out. A query is cut at its slots `{i}` and
-- its named slots `{batch_index}`; the escapes `{{` and `}}` are not in the model. The queries of a node are the last one, whose result is
-- the output, and those before it.
pub mod Meaning
mod Tests
use Prim.Native.String.{String}
use smallpond.Prelude.{
  ℕ, zero, suc, max, Bool, true, false, List, [], ◌∷◌, ◌++◌, Option, none, some, if◌then◌else◌,
  Result, ok, raise, ◌>>=◌, map_result, index_error, key_error,
}

pub data Piece : Type 0 where
  text : String → Piece
  slot : ℕ → Piece
  named : String → Piece

abbrev pub Query : Type 0
Query = List Piece

pub record Sql : Type 0 where
  pub udfs : List ℕ
  pub cpu_limit : ℕ
  pub gpu_limit : ℕ
  pub memory_limit : Option ℕ
  pub earlier_queries : List Query
  pub last_query : Query

-- `LimitNode` is a subclass of `SqlEngineNode` with a method of its own in a visitor.
pub data Kind : Type 0 where
  sql : Sql → Kind
  limit : Sql → Kind
  other : Kind

mutual
  pub data Node : Type 0 where
    node : (id : ℕ) → Kind → Nodes → Node

  pub data Nodes : Type 0 where
    nil : Nodes
    cons : Node → Nodes → Nodes

-- `a or b`
abbrev pub or_limit : Option ℕ → Option ℕ → Option ℕ
or_limit (some (suc n)) b = some (suc n)
or_limit _ b = b

abbrev pub fused_limit : Option ℕ → Option ℕ → Option ℕ
fused_limit (some a) (some b) = some (max a b)
fused_limit a b = or_limit a b

-- `query.format(argument)`
unfoldable pub format : Query → Query → Result Query
format argument [] = ok []
format argument (text s ∷ q) = do r ← format argument q; ok (text s ∷ r)
format argument (slot zero ∷ q) = do r ← format argument q; ok (argument ++ r)
format argument (slot (suc i) ∷ q) = raise index_error
format argument (named s ∷ q) = raise key_error

-- `f"({query})"`
abbrev pub in_parentheses : Query → Query
in_parentheses q = text "(" ∷ q ++ text ")" ∷ []

abbrev pub fused : Sql → Sql → List Query → Query → Sql
fused a child earlier last = record a {
  udfs = a.udfs ++ child.udfs;
  cpu_limit = max a.cpu_limit child.cpu_limit;
  gpu_limit = max a.gpu_limit child.gpu_limit;
  memory_limit = fused_limit a.memory_limit child.memory_limit;
  earlier_queries = child.earlier_queries ++ earlier;
  last_query = last;
}

unfoldable pub fuse : Sql → Sql → Result Sql
unfolding format
fuse a child = do
  earlier ← map_result (format (in_parentheses child.last_query)) a.earlier_queries
  last ← format (in_parentheses child.last_query) a.last_query
  ok (fused a child earlier last)

-- `visit_query_engine_node`, given the optimized inputs.
unfoldable pub fuse_node : ℕ → Sql → Nodes → Result Node
unfolding fuse
fuse_node id a (cons (node child_id (sql child) deps) nil) = do
  f ← fuse a child
  ok (node id (sql f) deps)
fuse_node id a (cons (node child_id (limit child) deps) nil) = do
  f ← fuse a child
  ok (node id (sql f) deps)
fuse_node id a deps = ok (node id (sql a) deps)

abbrev pub rebuild : ℕ → Kind → Nodes → Result Node
unfolding fuse_node
rebuild id (sql a) deps = fuse_node id a deps
rebuild id kind deps = ok (node id kind deps)

module _ (excluded : ℕ → Bool) where
  unfoldable mutual
    unfolding rebuild

    pub visit : Node → Result Node
    visit (node id kind deps) =
        let visited = visit_all deps in
        if excluded id then ok (node id kind deps) else (visited >>= rebuild id kind)

    pub visit_all : Nodes → Result Nodes
    visit_all nil = ok nil
    visit_all (cons n ns) = do n' ← visit n; ns' ← visit_all ns; ok (cons n' ns')
