-- ===== src/Automation/Validate/Nodes.antt =====
-- What the ports and priorities of a node are where `validateScenarioGraph` reports nothing.
use manychat.Prelude.{
  ℕ, ◌≤◌, String, ◌≡◌, ◌≢◌, ◌↔◌, refl, inl, inr, Bool, true, false, ◌&&◌, not, List, [], ◌∷◌, map,
  Option, none, some, any, arith, All, All-map, All-of_flat_map-nil, length, lookup, ltb, nat_eq,
  is_some, Bool-cases, ◌==◌,
}
use manychat.Automation.Graph.{Node, Edge}
use manychat.Automation.Issue.{Issue, report}
use manychat.Automation.Outgoing.{edges_in, or_empty}
use manychat.Automation.Outgoing.Laws.{edges_in-collect}
use manychat.Automation.NodeChecks.{
  is_branching, port_issues, ports, with_output, distinct, same_priority,
}

pub false_of_report-nil : (test : Bool) (issue : Issue) → report test issue ≡ [] → test ≡ false
false_of_report-nil true issue h = cc
false_of_report-nil false issue h = refl

lookup-All :
    (P : List Edge → Type 0) (key : String) (m : List (String × List Edge))
    → All (λ entry. P entry.1) m
    → P []
    → P (or_empty (lookup key m))
unfolding lookup
lookup-All P key [] h base = base
lookup-All P key ((j, edges) ∷ m) (p, h) base = elim (Bool-cases (j == key)) [
  | inl same ↦ rw same p
  | inr other ↦ rw other (lookup-All P key m h base)
]

-- `ports` groups the edges by their output.
ports_lem :
    (output : String) (edges : List Edge) → edges_in output (ports edges) ≡ with_output output edges
unfolding ports edges_in lookup
ports_lem output edges = edges_in-collect (λ e. true) (λ (e : Edge). e.output) output [] edges

bound_of_report :
    (branching : Bool) (n : ℕ) (issue : Issue)
    → branching ≡ false
    → report (not branching && ltb 1 n) issue ≡ []
    → n ≤ 1
bound_of_report branching n issue plain h = ground arith

pub port_bound :
    (node : Node) (edges : List Edge)
    → port_issues node edges ≡ []
    → is_branching node.type ≡ false
    → (output : String) → length (with_output output edges) ≤ 1
unfolding port_issues edges_in
port_bound node edges h plain output = rw (← ports_lem output edges) (
    lookup-All (λ es. length es ≤ 1) output (ports edges)
      (All-map _ _ (ports edges)
        (λ port e. bound_of_report (is_branching node.type) (length port.1) _ plain e)
        (All-of_flat_map-nil _ (ports edges) h))
      (omega arith))

pub same_priority_iff : (p q : Option ℕ) → (same_priority p q ≡ true) ↔ (p ≡ q)
same_priority_iff p q = ground arith

-- No two members are equal.
abbrev pub Apart : List (Option ℕ) → Type 0
Apart [] = Unit
Apart (p ∷ ps) = All (λ q. p ≢ q) ps × Apart ps

distinct-le : (ps : List (Option ℕ)) → length (distinct ps) ≤ length ps
unfolding distinct
distinct-le [] = omega arith
distinct-le (p ∷ ps) = ground (arith, distinct-le ps)

All-ne_of_any :
    (p : Option ℕ) (ps : List (Option ℕ)) → any (same_priority p) ps ≡ false → All (λ q. p ≢ q) ps
All-ne_of_any p [] h = tt
All-ne_of_any p (q ∷ ps) h =
    (λ e. cc ((same_priority_iff p q).1 e, h), All-ne_of_any p ps (ground arith))

pub Apart-of_distinct : (ps : List (Option ℕ)) → length (distinct ps) ≡ length ps → Apart ps
unfolding distinct
Apart-of_distinct [] h = tt
Apart-of_distinct (p ∷ ps) h = elim (Bool-cases (any (same_priority p) ps)) [
  | inl again ↦ absurd (omega (arith, distinct-le ps, rw (again, distinct) at h))
  | inr new ↦
      (All-ne_of_any p ps new, Apart-of_distinct ps (omega (arith, rw (new, distinct) at h)))
]

abbrev pub priorities : List Edge → List (Option ℕ)
priorities edges = map (λ (edge : Edge). edge.priority) edges

pub All-some :
    (ps : List (Option ℕ)) → any (λ p. not (is_some p)) ps ≡ false → All (λ p. p ≢ none) ps
All-some [] h = tt
All-some (none ∷ ps) h = cc
All-some (some p ∷ ps) h = (λ e. cc, All-some ps h)

pub eq_of_not-nat_eq : (a b : ℕ) → not (nat_eq a b) ≡ false → a ≡ b
eq_of_not-nat_eq a b h = ground arith
