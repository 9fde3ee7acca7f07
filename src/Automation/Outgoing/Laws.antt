-- ===== src/Automation/Outgoing/Laws.antt =====
-- The map `outgoing` holds, at each id, the edges that leave it, in the graph's order, less those with
-- an end that is no node.
use mathlib.Core.List.{foldl, append-nil, append_assoc}
use manychat.Prelude.{
  String, ◌≡◌, refl, sym, ◌∙◌, inl, inr, Bool, true, ◌||◌, ◌&&◌, List, [], ◌∷◌, ◌++◌, map, has,
  filter, lookup, insert, lookup-insert, is_some, Bool-cases, arith, ◌==◌, eq_iff, if◌then◌else◌,
}
use manychat.Automation.Graph.{Node, Edge, Graph}
use manychat.Automation.Outgoing.{
  is_known, edges_in, push_edge, has_known_ends, edges_of, targets, ids_of,
}

edges_in-push_edge :
    (id key : String) (edge : Edge) (m : List (String × List Edge))
    → edges_in id (push_edge key edge m) ≡ edges_in id m ++ (if key == id then edge ∷ [] else [])
unfolding push_edge
edges_in-push_edge id key edge m = elim (Bool-cases (key == id)) [
  | inl same ↦
      let e : key ≡ id = (eq_iff key id).0 same in
      rw (lookup-insert key id (edges_in key m ++ edge ∷ []) m, same, e)
  | inr other ↦ rw (lookup-insert key id (edges_in key m ++ edge ∷ []) m, other, append-nil)
]

module _ (keep : Edge → Bool) (key : Edge → String) where
  abbrev pub step : List (String × List Edge) → Edge → List (String × List Edge)
  step m edge = if keep edge then push_edge (key edge) edge m else m

  edges_in-step :
      (id : String) (m : List (String × List Edge)) (edge : Edge) (rest : List Edge)
      → edges_in id (step m edge) ++ rest
        ≡ edges_in id m ++ (if keep edge && key edge == id then edge ∷ rest else rest)
  edges_in-step id m edge rest = elim (Bool-cases (keep edge)) [
    | inl kept ↦ elim (Bool-cases (key edge == id)) [
      | inl same ↦
          rw (kept, same, edges_in-push_edge, same) (append_assoc (edges_in id m) (edge ∷ []) rest)
      | inr other ↦ rw (kept, other, edges_in-push_edge, other, append-nil)
    ]
    | inr dropped ↦ rw dropped
  ]

  pub edges_in-collect :
      (id : String) (m : List (String × List Edge)) (edges : List Edge)
      → edges_in id (foldl step m edges)
        ≡ edges_in id m ++ filter (λ edge. keep edge && key edge == id) edges
  edges_in-collect id m [] = sym (append-nil _)
  edges_in-collect id m (edge ∷ edges) =
      edges_in-collect id (step m edge) edges
      ∙ edges_in-step id m edge (filter (λ edge. keep edge && key edge == id) edges)

-- `edges_of` gives the edges that leave the node, in the graph's order, without those that have an end
-- that is no node of the graph.
pub edges_of_lem :
    (graph : Graph) (id : String)
    → edges_of graph id ≡ filter (λ edge. has_known_ends graph edge && edge.from == id) graph.edges
unfolding edges_of lookup
edges_of_lem graph id =
    edges_in-collect (has_known_ends graph) (λ (e : Edge). e.from) id [] graph.edges

lookup-nodes :
    (id : String) (m : List (String × Node)) (nodes : List Node)
    → is_some (lookup id (foldl (λ m (n : Node). insert n.id n m) m nodes))
      ≡ (has id (ids_of nodes) || is_some (lookup id m))
lookup-nodes id m [] = refl
lookup-nodes id m (n ∷ nodes) =
    lookup-nodes id (insert n.id n m) nodes ∙ ground (arith, lookup-insert n.id id n m)

-- An id is known exactly when it is the id of a node.
pub is_known_lem : (graph : Graph) (id : String) → is_known graph id ≡ has id (ids_of graph.nodes)
unfolding is_known lookup
is_known_lem graph id = lookup-nodes id [] graph.nodes ∙ ground arith

has-map-filter :
    (keep : Edge → Bool) (known : String → Bool) (y : String) (edges : List Edge)
    → ((e : Edge) → keep e ≡ true → known e.to ≡ true)
    → has y (map (λ (e : Edge). e.to) (filter keep edges)) ≡ true
    → known y ≡ true
has-map-filter keep known y [] within h = cc
has-map-filter keep known y (e ∷ edges) within h =
    ground (arith, has-map-filter keep known y edges within, within e, eq_iff e.to y)

-- The target of an edge that `outgoing` holds is the id of a node.
pub targets-known :
    (graph : Graph) (x y : String)
    → has y (targets graph x) ≡ true
    → has y (ids_of graph.nodes) ≡ true
unfolding targets
targets-known graph x y h = rw (← is_known_lem graph y) (
    has-map-filter _ (is_known graph) y graph.edges (λ e k. ground arith)
      (rw (edges_of_lem graph x) at h))
