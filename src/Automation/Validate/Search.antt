-- ===== src/Automation/Validate/Search.antt =====
-- The two searches of `validateScenarioGraph` end, and what they find.
use manychat.Prelude.{String, ◌≡◌, ◌≢◌, ◌↔◌, Bool, true, List, [], ◌∷◌, some, has, filter, arith}
use manychat.Automation.Graph.{Node, Graph}
use manychat.Automation.Outgoing.{targets, ids_of, is_guarded}
use manychat.Automation.Outgoing.Laws.{targets-known}
use manychat.Automation.Reach.Sound.{From, visit_all_iff}
use manychat.Automation.Reach.Total.{visit_all-ends}
use manychat.Automation.Cycle
use manychat.Automation.Cycle.{UnguardedCycle}
use manychat.Automation.Cycle.Sound.{visit_each_sound}
use manychat.Automation.Cycle.Total.{visit_each-ne-exhausted}
use manychat.Automation.Validate.{is_trigger, triggers, reachable, has_unguarded_cycle}

has-ids-filter :
    (keep : Node → Bool) (x : String) (nodes : List Node)
    → has x (ids_of (filter keep nodes)) ≡ true
    → has x (ids_of nodes) ≡ true
has-ids-filter keep x [] h = h
has-ids-filter keep x (n ∷ nodes) h = ground (arith, has-ids-filter keep x nodes)

module _ (graph : Graph) where
  -- A walk along edges leads from a trigger to the node.
  abbrev pub Reached : String → Type 0
  Reached = From (targets graph) (ids_of (triggers graph))

  pub reachable-ends : (seen : List String) × (reachable graph ≡ some seen)
  unfolding reachable
  reachable-ends =
      visit_all-ends (targets graph) (ids_of graph.nodes) (targets-known graph)
        (ids_of (triggers graph)) (λ x h. has-ids-filter is_trigger x graph.nodes h)

  pub reachable_iff :
      (seen : List String)
      → reachable graph ≡ some seen
      → (id : String) → (has id seen ≡ true) ↔ Reached id
  unfolding reachable
  reachable_iff seen e id = visit_all_iff (targets graph) _ (ids_of (triggers graph)) seen e id

  -- The search from the triggers ends, and the set that it ends with holds exactly the ids to which a
  -- walk along edges leads from a trigger.
  pub reachable-Reached :
      (seen : List String) × (reachable graph ≡ some seen)
      × ((id : String) → (has id seen ≡ true) ↔ Reached id)
  reachable-Reached = let (seen, e) = reachable-ends in (seen, e, reachable_iff seen e)

  pub has_unguarded_cycle-ne-exhausted : has_unguarded_cycle graph ≢ Cycle.exhausted
  unfolding has_unguarded_cycle
  has_unguarded_cycle-ne-exhausted =
      visit_each-ne-exhausted (targets graph) (is_guarded graph) (ids_of graph.nodes)
        (targets-known graph) (ids_of graph.nodes) (λ x h. h)

  -- A cycle that the validation reports is there: a closed route none of whose nodes is a continuation
  -- node.
  pub has_unguarded_cycle_sound :
      has_unguarded_cycle graph ≡ Cycle.found → UnguardedCycle (targets graph) (is_guarded graph)
  unfolding has_unguarded_cycle
  has_unguarded_cycle_sound e =
      visit_each_sound (targets graph) (is_guarded graph) _ (ids_of graph.nodes) e
