-- ===== src/Validator/Topo.antt =====
-- `topo_sort`: Kahn's algorithm. The set `edges` is a list without duplicates; the order in which
-- Python iterates over it changes nothing, since the neighbours are sorted and the degrees counted.
pub mod Counts
pub mod Steps
pub mod Drain
pub mod Edges
pub mod Order
pub mod Success
pub mod Acyclic
pub mod Ends
use glassrail.Common.{
  Bool, Dict, Eq, List, String, [], add, arith, elem, err, filter, if◌then◌else◌, insert,
  int_beq_iff, int_leb, length, lookup, map, nat_beq, none, ok, some, sort, suc, true, zero, ℕ, ℤ,
  ◌&&◌, ◌++◌, ◌+◌, ◌-◌, ◌==◌, ◌>>=◌, ◌↔◌, ◌∷◌, ◌≡◌, int_eq,
}
use glassrail.Core.{Node, NodeType, is_type}
use glassrail.Validator.Errors.{
  ValidationError, missing_dependency, missing_branch_node, cycle, Checked,
}

abbrev pub Edge : Type 0
Edge = ℤ × ℤ

unfoldable pub edge_beq : Edge → Edge → Bool
edge_beq (a, b) (c, d) = a == c && b == d

pub edge_beq_iff : (x y : Edge) → (edge_beq x y ≡ true) ↔ (x ≡ y)
unfolding edge_beq
edge_beq_iff (a, b) (c, d) = ground (arith, int_beq_iff a c, int_beq_iff b d)

instance abbrev pub edge_eq : Eq Edge
edge_eq = record { beq = edge_beq; beq_iff = edge_beq_iff }

abbrev pub ids : List Node → List ℤ
ids ns = map (λ n. n.id) ns

-- `node.branches.items()`, where the node is a decision with branches
abbrev pub branch_items : Node → Dict String (List ℤ)
branch_items n =
    if is_type n.type NodeType.decision then elim n.branches [ none ↦ [] | some b ↦ b ] else []

module _ (all_ids : List ℤ) (node : ℤ) where
  -- the loop over `node.context_needed`
  pub dependency_edges : List ℤ → List Edge → Checked (List Edge)
  dependency_edges [] edges = ok edges
  dependency_edges (dep ∷ deps) edges =
      if elem dep all_ids
      then dependency_edges deps (add (dep, node) edges)
      else err (missing_dependency node dep)

  -- the loop over one branch
  pub target_edges : String → List ℤ → List Edge → Checked (List Edge)
  target_edges branch [] edges = ok edges
  target_edges branch (t ∷ ts) edges =
      if elem t all_ids
      then target_edges branch ts (add (node, t) edges)
      else err (missing_branch_node node branch t)

  -- the loop over `node.branches.items()`
  pub branch_edges : Dict String (List ℤ) → List Edge → Checked (List Edge)
  branch_edges [] edges = ok edges
  branch_edges ((branch, ts) ∷ bs) edges = do
    edges' ← target_edges branch ts edges
    branch_edges bs edges'

-- One round of the first loop of `topo_sort`.
abbrev pub node_edges : List ℤ → Node → List Edge → Checked (List Edge)
node_edges all_ids n edges =
    dependency_edges all_ids n.id n.context_needed edges
    >>= branch_edges all_ids n.id (branch_items n)

unfoldable pub collect_edges : List ℤ → List Node → List Edge → Checked (List Edge)
unfolding dependency_edges branch_edges target_edges
collect_edges all_ids [] edges = ok edges
collect_edges all_ids (n ∷ ns) edges = node_edges all_ids n edges >>= collect_edges all_ids ns

abbrev pub Degrees : Type 0
Degrees = Dict ℤ ℕ

unfoldable pub degree : Degrees → ℤ → ℕ
degree d i = elim (lookup i d) [ none ↦ 0 | some n ↦ n ]

-- `in_degree[target] += 1` for each edge
pub in_degrees : List Edge → Degrees → Degrees
in_degrees [] d = d
in_degrees ((s, t) ∷ es) d = in_degrees es (insert t (degree d t + 1) d)

-- `{n.id: 0 for n in plan.nodes}`
pub zero_degrees : List ℤ → Degrees
zero_degrees [] = []
zero_degrees (i ∷ is) = insert i 0 (zero_degrees is)

-- `sorted(graph[source])`
pub neighbours : List Edge → ℤ → List ℤ
neighbours es s = sort int_leb (map (λ e. e.1) (filter (λ e. e.0 == s) es))

-- `{n.id for n in plan.nodes}`
unfoldable pub id_set : List ℤ → List ℤ
id_set [] = []
id_set (i ∷ is) = let rest = id_set is in if elem i rest then rest else i ∷ rest

pub record Kahn : Type 0 where
  pub queue : List ℤ
  pub in_degree : Degrees
  pub sorted_ids : List ℤ

-- One neighbour: `in_degree[neighbour] -= 1`, and into the queue at zero.
pub visit : ℤ → Kahn → Kahn
visit t k =
    let left = degree k.in_degree t - 1 in
    record {
      queue = if nat_beq left 0 then k.queue ++ t ∷ [] else k.queue;
      in_degree = insert t left k.in_degree;
      sorted_ids = k.sorted_ids;
    }

-- `for neighbour in sorted(graph[node_id])`
pub release : List ℤ → Kahn → Kahn
unfolding visit
release [] k = k
release (t ∷ ts) k = release ts (visit t k)

-- `queue.pop(0)` and `sorted_ids.append(node_id)`
pub pop : ℤ → List ℤ → Kahn → Kahn
pop i rest k = record { queue = rest; in_degree = k.in_degree; sorted_ids = k.sorted_ids ++ i ∷ [] }

-- `while queue`: each round moves one id to `sorted_ids`.
pub drain : List Edge → ℕ → Kahn → Kahn
unfolding release pop
drain es zero k = k
drain es (suc fuel) k = elim k.queue [
  | [] ↦ k
  | i ∷ rest ↦ drain es fuel (release (neighbours es i) (pop i rest k))
]

-- The state before the `while` loop.
pub start : List ℤ → List Edge → Kahn
unfolding in_degrees zero_degrees
start all_ids es =
    let d = in_degrees es (zero_degrees all_ids) in
    record {
      queue = sort int_leb (filter (λ i. nat_beq (degree d i) 0) all_ids);
      in_degree = d;
      sorted_ids = [];
    }

-- One round for each id is enough fuel, since no id enters the queue twice (`Drain.kahn-IsSound`).
unfoldable pub kahn : List ℤ → List Edge → Kahn
unfolding drain start neighbours
kahn all_ids es = drain es (length all_ids) (start all_ids es)

-- `if len(sorted_ids) != len(plan.nodes): raise`
abbrev pub finish : ℕ → List ℤ → Checked (List ℤ)
finish wanted sorted_ids = if nat_beq (length sorted_ids) wanted then ok sorted_ids else err cycle

unfoldable pub topo_sort : List Node → Checked (List ℤ)
unfolding collect_edges kahn id_set
topo_sort ns = collect_edges (id_set (ids ns)) ns [] >>= λ es.
    finish (length ns) (kahn (id_set (ids ns)) es).sorted_ids
