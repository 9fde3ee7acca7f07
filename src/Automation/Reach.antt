-- ===== src/Automation/Reach.antt =====
-- The search `visit` of `validateScenarioGraph` (packages/automation-core/src/index.ts), over the map
-- from a node's id to the targets of its edges. `fuel` bounds the depth of the recursion: `none` means
-- that it ran out, and `Reach.Total` shows that one more than the number of nodes is enough.
pub mod Sound
pub mod Total
use manychat.Prelude.{
  ℕ, ◌≡◌, true, zero, suc, String, List, [], ◌∷◌, Option, none, some, has, if◌then◌else◌,
}

-- `for (const id of ids) visit(id)`, with the set of the ids seen.
unfoldable pub visit_all :
    (String → List String → Option (List String)) → List String → List String → Option (List String)
visit_all visit [] seen = some seen
visit_all visit (id ∷ ids) seen = elim (visit id seen) [
  | none ↦ none
  | some seen' ↦ visit_all visit ids seen'
]

module _ (targets : String → List String) where
  unfoldable pub visit : ℕ → String → List String → Option (List String)
  visit zero id seen = none
  visit (suc fuel) id seen =
      let below = visit_all (visit fuel) (targets id) (id ∷ seen) in
      if has id seen then some seen else below

-- A walk along edges.
pub data Walk (targets : String → List String) (a : String) : String → Type 0 where
  here : Walk targets a a
  next : {b c : String} → Walk targets a b → has c (targets b) ≡ true → Walk targets a c
