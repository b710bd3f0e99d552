-- ===== src/Optimizer/Meaning.antt =====
-- Fusing SQL nodes keeps what a plan computes.
use mathlib.Core.List.{map-append}
use Prim.Native.String.{String}
use smallpond.Prelude.{
  ℕ, zero, suc, max, map, append-nil, arith, ◌≡◌, ◌∙◌, refl, sym, ap, ap₂, Bool, true, false, inl,
  inr, List, [], ◌∷◌, ◌++◌, append_assoc, All, ◌==◌, Bool-cases, Result, ok, map_result, bind_step,
}
use smallpond.Optimizer.{
  text, slot, named, Query, Sql, Kind, sql, limit, other, Node, Nodes, node, nil, cons, format,
  in_parentheses, fused, fuse, fuse_node, rebuild, visit, visit_all,
}

-- The expression that a plan stands for: the text of nested queries, and the calls of other nodes.
pub data Token : Type 0 where
  word : String → Token
  name : String → Token
  call : ℕ → Token
  return : Token

abbrev pub nth : List (List Token) → ℕ → List Token
nth [] i = []
nth (t ∷ ts) zero = t
nth (t ∷ ts) (suc i) = nth ts i

-- A query over tables, each of which is a subquery.
abbrev pub render : List (List Token) → Query → List Token
render tables [] = []
render tables (text s ∷ q) = word s ∷ render tables q
render tables (named s ∷ q) = name s ∷ render tables q
render tables (slot i ∷ q) = (word "(" ∷ nth tables i ++ word ")" ∷ []) ++ render tables q

-- What a plan comes to: the expression for its result, the statements that run before, over what the
-- nodes behind them stand for, the user functions, and the most cores and GPUs that a node asks for.
pub record Sense : Type 0 where
  pub expression : List Token
  pub statements : List (List Token)
  pub functions : List ℕ
  pub cpus : ℕ
  pub gpus : ℕ

-- All inputs of a node in a row.
abbrev pub tables_of : List Sense → List (List Token)
tables_of [] = []
tables_of (s ∷ ss) = s.expression ∷ tables_of ss

abbrev pub calls : List Sense → List Token
calls [] = []
calls (s ∷ ss) = s.expression ++ calls ss

abbrev pub statements_of : List Sense → List (List Token)
statements_of [] = []
statements_of (s ∷ ss) = s.statements ++ statements_of ss

abbrev pub functions_of : List Sense → List ℕ
functions_of [] = []
functions_of (s ∷ ss) = s.functions ++ functions_of ss

abbrev pub most_cpus : List Sense → ℕ
most_cpus [] = 0
most_cpus (s ∷ ss) = max s.cpus (most_cpus ss)

abbrev pub most_gpus : List Sense → ℕ
most_gpus [] = 0
most_gpus (s ∷ ss) = max s.gpus (most_gpus ss)

abbrev pub sense_of_sql : Sql → List Sense → Sense
sense_of_sql a ss = record {
  expression = render (tables_of ss) a.last_query;
  statements = statements_of ss ++ map (render (tables_of ss)) a.earlier_queries;
  functions = a.udfs ++ functions_of ss;
  cpus = max a.cpu_limit (most_cpus ss);
  gpus = max a.gpu_limit (most_gpus ss);
}

abbrev pub apply_kind : ℕ → Kind → List Sense → Sense
apply_kind id (sql a) ss = sense_of_sql a ss
apply_kind id kind ss = record {
  expression = call id ∷ calls ss ++ return ∷ [];
  statements = statements_of ss;
  functions = functions_of ss;
  cpus = most_cpus ss;
  gpus = most_gpus ss;
}

unfoldable mutual
  pub meaning : Node → Sense
  meaning (node id kind deps) = apply_kind id kind (meanings deps)

  pub meanings : Nodes → List Sense
  meanings nil = []
  meanings (cons n ns) = meaning n ∷ meanings ns

abbrev pub only_first : Query → Bool
only_first [] = true
only_first (text s ∷ q) = only_first q
only_first (slot zero ∷ q) = only_first q
only_first (slot (suc i) ∷ q) = false
only_first (named s ∷ q) = false

abbrev pub is_limit : Node → Bool
is_limit (node id (limit a) deps) = true
is_limit (node id _ deps) = false

abbrev pub count : Nodes → ℕ
count nil = 0
count (cons n ns) = suc (count ns)

abbrev pub is_single : Nodes → Bool
is_single ns = count ns == 1

-- No node is a limit, and the queries of a node with one input use its first slot only.
abbrev pub Fits : Kind → Nodes → Type 0
Fits (sql a) deps =
    is_single deps ≡ true
    → All (λ q. only_first q ≡ true) a.earlier_queries × (only_first a.last_query ≡ true)
Fits (limit a) deps = false ≡ true
Fits other deps = Unit

unfoldable mutual
  pub IsPlain : Node → Type 0
  IsPlain (node id kind deps) = Fits kind deps × ArePlain deps

  pub ArePlain : Nodes → Type 0
  ArePlain nil = Unit
  ArePlain (cons n ns) = IsPlain n × ArePlain ns

render-append :
    (tables : List (List Token)) (q r : Query)
    → render tables (q ++ r) ≡ render tables q ++ render tables r
render-append tables [] r = refl
render-append tables (text s ∷ q) r = ap (◌∷◌ (word s)) (render-append tables q r)
render-append tables (named s ∷ q) r = ap (◌∷◌ (name s)) (render-append tables q r)
render-append tables (slot i ∷ q) r =
    ap (◌++◌ (word "(" ∷ nth tables i ++ word ")" ∷ [])) (render-append tables q r)
    ∙ sym (
        append_assoc (word "(" ∷ nth tables i ++ word ")" ∷ []) (render tables q) (render tables r))

-- A query that is put in for the slot is a subquery.
format-render :
    (tables : List (List Token)) (child q : Query)
    → only_first q ≡ true
    → (r : Query) × (format (in_parentheses child) q ≡ ok r)
      × (render tables r ≡ render (render tables child ∷ []) q)
unfolding format
format-render tables child [] h = ([], refl, refl)
format-render tables child (text s ∷ q) h =
    let (r, e, same) = format-render tables child q h in
    (text s ∷ r, rw e refl, ap (◌∷◌ (word s)) same)
format-render tables child (slot zero ∷ q) h =
    let (r, e, same) = format-render tables child q h in
    (
      in_parentheses child ++ r,
      rw e refl,
      render-append tables (in_parentheses child) r
          ∙ ap (λ l. l ++ render tables r)
              (ap (◌∷◌ (word "(")) (render-append tables child (text ")" ∷ [])))
          ∙ ap (◌++◌ (word "(" ∷ render tables child ++ word ")" ∷ [])) same,
    )
format-render tables child (slot (suc i) ∷ q) h = absurd (cc)
format-render tables child (named s ∷ q) h = absurd (cc)

formats_total :
    (tables : List (List Token)) (child : Query) (qs : List Query)
    → All (λ q. only_first q ≡ true) qs
    → (rs : List Query) × (map_result (format (in_parentheses child)) qs ≡ ok rs)
      × (map (render tables) rs ≡ map (render (render tables child ∷ [])) qs)
formats_total tables child [] h = ([], refl, refl)
formats_total tables child (q ∷ qs) (p, h) =
    let (r, e, same) = format-render tables child q p in
    let (rs, es, sames) = formats_total tables child qs h in
    (r ∷ rs, rw (e, es) refl, ap₂ ◌∷◌ same sames)

-- A fused node comes to what the two nodes come to.
fused-sense :
    (a c : Sql) (ss : List Sense) (rs : List Query) (r : Query)
    → map (render (tables_of ss)) rs
      ≡ map (render (render (tables_of ss) c.last_query ∷ [])) a.earlier_queries
    → render (tables_of ss) r ≡ render (render (tables_of ss) c.last_query ∷ []) a.last_query
    → sense_of_sql (fused a c rs r) ss ≡ sense_of_sql a (sense_of_sql c ss ∷ [])
fused-sense a c ss rs r earlier last =
    let T = tables_of ss in
    let statements : (statements_of ss ++ map (render T) (c.earlier_queries ++ rs))
        ≡ ((statements_of ss ++ map (render T) c.earlier_queries) ++ [])
          ++ map (render (render T c.last_query ∷ [])) a.earlier_queries =
      ap (◌++◌ (statements_of ss)) (map-append (render T) c.earlier_queries rs)
      ∙ sym (append_assoc (statements_of ss) (map (render T) c.earlier_queries) (map (render T) rs))
      ∙ ap₂ ◌++◌ (sym (append-nil (statements_of ss ++ map (render T) c.earlier_queries)))
          earlier in
    let functions : (a.udfs ++ c.udfs) ++ functions_of ss
        ≡ a.udfs ++ ((c.udfs ++ functions_of ss) ++ []) =
      append_assoc a.udfs c.udfs (functions_of ss)
      ∙ ap (◌++◌ a.udfs) (sym (append-nil (c.udfs ++ functions_of ss))) in
    let cpus : max (max a.cpu_limit c.cpu_limit) (most_cpus ss)
        ≡ max a.cpu_limit (max (max c.cpu_limit (most_cpus ss)) 0) =
      omega arith in
    let gpus : max (max a.gpu_limit c.gpu_limit) (most_gpus ss)
        ≡ max a.gpu_limit (max (max c.gpu_limit (most_gpus ss)) 0) =
      omega arith in
    λ i. record {
      expression = last i;
      statements = statements i;
      functions = functions i;
      cpus = cpus i;
      gpus = gpus i;
    }

-- What becomes of a node: one with the same meaning, which is no limit.
abbrev pub Becomes : Result Node → Sense → Type 0
Becomes r meant = (n : Node) × (r ≡ ok n) × (meaning n ≡ meant) × (is_limit n ≡ false)

unfoldable AllNodes : (Node → Type 0) → Nodes → Type 0
AllNodes P nil = Unit
AllNodes P (cons n ns) = P n × AllNodes P ns

fuse_node_total :
    (id : ℕ) (a : Sql) (ds : Nodes)
    → (is_single ds ≡ true
        → All (λ q. only_first q ≡ true) a.earlier_queries × (only_first a.last_query ≡ true))
    → AllNodes (λ n. is_limit n ≡ false) ds
    → Becomes (fuse_node id a ds) (sense_of_sql a (meanings ds))
unfolding fuse_node fuse meaning AllNodes
fuse_node_total id a nil h plain = (node id (sql a) nil, refl, refl, refl)
fuse_node_total id a (cons (node cid (sql c) deps) (cons n ns)) h plain =
    (node id (sql a) (cons (node cid (sql c) deps) (cons n ns)), refl, refl, refl)
fuse_node_total id a (cons (node cid (limit c) deps) (cons n ns)) h plain =
    (node id (sql a) (cons (node cid (limit c) deps) (cons n ns)), refl, refl, refl)
fuse_node_total id a (cons (node cid other deps) (cons n ns)) h plain =
    (node id (sql a) (cons (node cid other deps) (cons n ns)), refl, refl, refl)
fuse_node_total id a (cons (node cid other deps) nil) h plain =
    (node id (sql a) (cons (node cid other deps) nil), refl, refl, refl)
fuse_node_total id a (cons (node cid (limit c) deps) nil) h (plain, _) = absurd (cc)
fuse_node_total id a (cons (node cid (sql c) deps) nil) h plain =
    let (firsts, first) = h refl in
    let tables = tables_of (meanings deps) in
    let (rs, earlier, sames) = formats_total tables c.last_query a.earlier_queries firsts in
    let (r, last, same) = format-render tables c.last_query a.last_query first in
    (
      node id (sql (fused a c rs r)) deps,
      rw (earlier, last) refl,
      fused-sense a c (meanings deps) rs r sames same,
      refl,
    )

rebuild_total :
    (id : ℕ) (kind : Kind) (ds deps : Nodes)
    → Fits kind deps
    → meanings ds ≡ meanings deps
    → count ds ≡ count deps
    → AllNodes (λ n. is_limit n ≡ false) ds
    → Becomes (rebuild id kind ds) (apply_kind id kind (meanings deps))
unfolding meaning rebuild fuse_node
rebuild_total id (limit a) ds deps fits same counted limits = absurd (cc)
rebuild_total id other ds deps fits same counted limits =
    (node id other ds, refl, ap (apply_kind id other) same, refl)
rebuild_total id (sql a) ds deps fits same counted limits =
    let (n, e, meant, plain) =
      fuse_node_total id a ds (λ single. fits (ap (λ k. k == 1) (sym counted) ∙ single)) limits in
    (n, e, meant ∙ ap (sense_of_sql a) same, plain)

not_limit :
    (id : ℕ) (kind : Kind) (deps : Nodes) → Fits kind deps → is_limit (node id kind deps) ≡ false
not_limit id (sql a) deps fits = refl
not_limit id (limit a) deps fits = absurd (cc)
not_limit id other deps fits = refl

module _ (excluded : ℕ → Bool) where
  mutual
    unfolding visit meaning IsPlain AllNodes

    visit_node : (n : Node) → IsPlain n → Becomes (visit excluded n) (meaning n)
    visit_node (node id kind deps) (fits, plain) =
        let (ds, e, same, single, limits) = visit_nodes deps plain in
        let (m, run, meant, limit_free) = rebuild_total id kind ds deps fits same single limits in
        elim (Bool-cases (excluded id)) [
          | inl out ↦ (node id kind deps, rw out refl, refl, not_limit id kind deps fits)
          | inr inside ↦ (m, rw inside (bind_step _ e ∙ run), meant, limit_free)
        ]

    visit_nodes :
        (ns : Nodes)
        → ArePlain ns
        → (ds : Nodes) × (visit_all excluded ns ≡ ok ds)
          × (meanings ds ≡ meanings ns)
          × (count ds ≡ count ns)
          × AllNodes (λ n. is_limit n ≡ false) ds
    visit_nodes nil h = (nil, refl, refl, refl, tt)
    visit_nodes (cons n ns) (p, h) =
        let (m, e, same, limits) = visit_node n p in
        let (ms, es, sames, single, rest) = visit_nodes ns h in
        (cons m ms, rw (e, es) refl, ap₂ ◌∷◌ same sames, ap suc single, (limits, rest))

  -- For a plan without limits, in which a query over one input uses its first slot only, the
  -- optimizer raises nothing, whatever nodes are excluded, and gives a plan with no limit at its root
  -- that comes to the same: the expression for its result, with the query of an input as a subquery,
  -- the statements that run before, in order, the user functions, in order, and the most cores and
  -- GPUs that a node asks for.
  pub visit_total : (n : Node) → IsPlain n → Becomes (visit excluded n) (meaning n)
  visit_total = visit_node
