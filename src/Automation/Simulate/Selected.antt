-- ===== src/Automation/Simulate/Selected.antt =====
-- The edge that the simulation selects at a node is one of the node's edges.
use manychat.Prelude.{
  inl, inr, Bool, true, false, List, [], ◌∷◌, Option, none, some, find, filter, head?, or_else, All,
  Bool-cases, if◌then◌else◌,
}
use manychat.Automation.Graph.{
  NodeType, condition, delay, wait_for_reply, external_http_request, stop, Node, Edge,
  is_configured,
}
use manychat.Automation.Branch.{
  SimulationInput, HttpOutcome, WaitOutcome, select_condition, edge_matches, configured,
}
use manychat.Automation.Simulate.{default_edge, choose, wait_choice, http_choice}

module _ (P : Edge → Type 0) where
  -- What holds of the edge, if there is one.
  abbrev pub AtMost : Option Edge → Type 0
  AtMost none = Unit
  AtMost (some e) = P e

  AtMost-find : (test : Edge → Bool) (es : List Edge) → All P es → AtMost (find test es)
  AtMost-find test [] h = tt
  AtMost-find test (e ∷ es) (p, h) = elim (Bool-cases (test e)) [
    | inl hit ↦ rw hit p
    | inr miss ↦ rw miss (AtMost-find test es h)
  ]

  AtMost-head? : (es : List Edge) → All P es → AtMost (head? es)
  AtMost-head? [] h = tt
  AtMost-head? (e ∷ es) (p, h) = p

  AtMost-or_else : (a b : Option Edge) → AtMost a → AtMost b → AtMost (or_else a b)
  AtMost-or_else none b h k = k
  AtMost-or_else (some e) b h k = h

  AtMost-if : (b : Bool) (x y : Option Edge) → AtMost x → AtMost y → AtMost (if b then x else y)
  AtMost-if true x y h k = h
  AtMost-if false x y h k = k

  All-filter : (keep : Edge → Bool) (es : List Edge) → All P es → All P (filter keep es)
  All-filter keep [] h = h
  All-filter keep (e ∷ es) (p, h) = elim (Bool-cases (keep e)) [
    | inl kept ↦ rw kept (p, All-filter keep es h)
    | inr dropped ↦ rw dropped (All-filter keep es h)
  ]

  module _ (input : SimulationInput) (node : Node) (es : List Edge) (h : All P es) where
    AtMost-select_condition : AtMost (select_condition input node es)
    unfolding select_condition
    AtMost-select_condition = AtMost-if _ _ _ (AtMost-find (edge_matches input node) es h) (
        AtMost-or_else _ _ (AtMost-find _ (configured es) (All-filter is_configured es h))
          (AtMost-find _ es h))

    AtMost-default_edge : AtMost (default_edge es)
    unfolding default_edge
    AtMost-default_edge = AtMost-or_else _ _ (AtMost-find _ es h) (AtMost-head? es h)

    AtMost-wait : (o : Option WaitOutcome) → AtMost (wait_choice input o es).selected
    AtMost-wait none = tt
    AtMost-wait (some o) = AtMost-find _ es h

    AtMost-http : (o : Option HttpOutcome) → AtMost (http_choice input o es).selected
    AtMost-http none = tt
    AtMost-http (some o) = AtMost-find _ es h

    -- Whatever the node's type, the selected edge is one of its edges.
    pub AtMost-choose : (type : NodeType) → AtMost (choose input type node es).selected
    unfolding choose
    AtMost-choose condition = AtMost-select_condition
    AtMost-choose wait_for_reply = AtMost-wait input.wait_outcome
    AtMost-choose external_http_request = AtMost-http input.http_outcome
    AtMost-choose delay = AtMost-default_edge
    AtMost-choose stop = tt
    AtMost-choose _ = AtMost-default_edge
