-- ===== src/Automation/Validate/Cycles.antt =====
-- Which cycles `validateScenarioGraph` lets pass.
use mathlib.Core.List.{foldl}
use manychat.Prelude.{
  ℕ, suc, String, ◌≡◌, refl, Bool, true, false, List, [], ◌∷◌, Option, none, some, has, All, lookup,
  insert, lookup-insert, arith, ◌==◌, eq_iff, eq_refl,
}
use manychat.Automation.Graph.{Node, Graph}
use manychat.Automation.Issue.{Schemas}
use manychat.Automation.Outgoing.{nodes_by_id, targets, ids_of, is_guarded, is_continuation}
use manychat.Automation.Outgoing.Laws.{targets-known}
use manychat.Automation.Cycle
use manychat.Automation.Cycle.{
  State, Outcome, Route, one, more, UnguardedCycle, visit, visit_each, segment,
}
use manychat.Automation.Cycle.Acyclic.{visit_each-Ordered, Route_lt}
use manychat.Automation.Validate.{has_unguarded_cycle, cycle_issues, validate_scenario_graph}
use manychat.Automation.Validate.Accepted.{Clean-of_accepted}

abbrev free : Option Node → Bool
free none = false
free (some node) = is_continuation node.type

lookup-free :
    (id : String) (m : List (String × Node)) (nodes : List Node)
    → All (λ node. is_continuation node.type ≡ false) nodes
    → free (lookup id m) ≡ false
    → free (lookup id (foldl (λ m (n : Node). insert n.id n m) m nodes)) ≡ false
lookup-free id m [] h base = base
lookup-free id m (n ∷ nodes) (p, h) base =
    lookup-free id (insert n.id n m) nodes h (ground (arith, lookup-insert n.id id n m))

pub is_guarded-free :
    (graph : Graph) (id : String)
    → All (λ node. is_continuation node.type ≡ false) graph.nodes
    → is_guarded graph id ≡ false
unfolding is_guarded nodes_by_id lookup
is_guarded-free graph id h = ground (arith, lookup-free id [] graph.nodes h refl)

pub done_of_cycle_issues :
    (o : Outcome) → cycle_issues o ≡ some [] → (s : State) × (o ≡ Cycle.done s)
done_of_cycle_issues Cycle.exhausted h = cc
done_of_cycle_issues Cycle.found h = cc
done_of_cycle_issues (Cycle.done s) h = (s, refl)

Route_known :
    (graph : Graph) {a b : String}
    → Route (targets graph) (is_guarded graph) a b
    → has b (ids_of graph.nodes) ≡ true
Route_known graph {a} {b} (one g e) = targets-known graph a b e
Route_known graph {b = c} (more {b} r g e) = targets-known graph b c e

-- A graph without a DELAY or WAIT_FOR_REPLY node that the validation accepts has no cycle.
pub accepted_acyclic :
    (schemas : Schemas) (graph : Graph)
    → validate_scenario_graph schemas graph ≡ some []
    → All (λ node. is_continuation node.type ≡ false) graph.nodes
    → ¬ UnguardedCycle (targets graph) (is_guarded graph)
unfolding has_unguarded_cycle
accepted_acyclic schemas graph accepted plain (a, route) =
    let (s, e) = done_of_cycle_issues _ (Clean-of_accepted schemas graph accepted).acyclic in
    let (listed, ordered) =
      visit_each-Ordered (targets graph) (is_guarded graph) (λ x. is_guarded-free graph x plain) _
        (ids_of graph.nodes) s e in
    let (known, lt) =
      Route_lt (targets graph) (ids_of graph.nodes) s.visited (targets-known graph) ordered route
        (listed a (Route_known graph route)) in
    absurd (omega arith)

eq_false_comm : (s t : String) → (s == t) ≡ false → (t == s) ≡ false
eq_false_comm s t h = ground (arith, eq_iff s t, eq_iff t s)

module _ (targets : String → List String) (guarded : String → Bool) (u v w : String) where
  -- Let `v` differ from `u` and `w`, and `w` from `u`. Let `v` have an edge to the guarded node `w` before
  -- its edge to `u`, and `w` and `u` one edge each, to `u` and to `v`, with `u` and `v` not guarded. Then
  -- `v` and `u` are on an unguarded cycle, and the search from `v`, `u` and `w`, with fuel of four or more,
  -- ends without finding it: it meets `u` below `w`, where the cycle through `w` is guarded.
  pub missed_cycle :
      (fuel : ℕ)
      → (v == u) ≡ false
      → (v == w) ≡ false
      → (w == u) ≡ false
      → targets v ≡ w ∷ u ∷ []
      → targets w ≡ u ∷ []
      → targets u ≡ v ∷ []
      → guarded w ≡ true
      → guarded u ≡ false
      → guarded v ≡ false
      → UnguardedCycle targets guarded
        × (visit_each
              (visit targets guarded (suc (suc (suc (suc fuel)))))
              (v ∷ u ∷ w ∷ [])
              Cycle.start
            ≡ Cycle.done (record { visiting = []; visited = v ∷ w ∷ u ∷ [] }))
  unfolding visit_each visit segment
  missed_cycle fuel vu vw wu tv tw tu gw gu gv =
      let uv : (u == v) ≡ false = eq_false_comm v u vu in
      let wv : (w == v) ≡ false = eq_false_comm v w vw in
      (
        (v, more (one gv (rw (tv, eq_refl, wu) refl)) gu (rw (tu, eq_refl) refl)),
        ground (arith, eq_refl u, eq_refl v, eq_refl w),
      )
