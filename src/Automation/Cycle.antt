-- ===== src/Automation/Cycle.antt =====
-- The search `visit` of `hasUnguardedCycle` (packages/automation-core/src/index.ts). `targets` gives
-- the targets of a node's edges, `guarded` says that a node is one of `continuationNodes` (an id of no
-- node never gets into `visiting`). The stack `visiting` has its top at the head. `fuel` bounds the
-- depth of the recursion, `exhausted` means that it ran out; `Cycle.Total` shows that one more than
-- the number of nodes is enough.
pub mod Sound
pub mod Total
pub mod Acyclic
use manychat.Prelude.{
  ℕ, zero, suc, String, ◌≡◌, Bool, true, false, List, [], ◌∷◌, has, any, ◌==◌, if◌then◌else◌,
}
use mathlib.Core.List.{tail}

pub record State : Type 0 where
  pub visiting : List String
  pub visited : List String

-- `found` and `done` are the results `true` and `false`; after `true` the state is not read.
pub data Outcome : Type 0 where
  exhausted found : Outcome
  done : State → Outcome

-- `visiting.slice(visiting.indexOf(id))`: from the top of the stack down to the id.
unfoldable pub segment : String → List String → List String
segment id [] = []
segment id (x ∷ xs) = let rest = segment id xs in if x == id then x ∷ [] else x ∷ rest

-- The loop over the targets, and the one over the nodes.
unfoldable pub visit_each : (String → State → Outcome) → List String → State → Outcome
visit_each visit [] s = done s
visit_each visit (id ∷ ids) s = elim (visit id s) [
  | exhausted ↦ exhausted
  | found ↦ found
  | done s' ↦ visit_each visit ids s'
]

abbrev pub enter : String → State → State
enter id s = record s { visiting = id ∷ s.visiting }

-- `visiting.pop(); visited.add(nodeId); return false`
abbrev pub leave : String → Outcome → Outcome
leave id (done s) = done (record { visiting = tail s.visiting; visited = id ∷ s.visited })
leave id found = found
leave id exhausted = exhausted

module _ (targets : String → List String) (guarded : String → Bool) where
  unfoldable pub visit : ℕ → String → State → Outcome
  unfolding segment
  visit zero id s = exhausted
  visit (suc fuel) id s =
      let below = leave id (visit_each (visit fuel) (targets id) (enter id s)) in
      if has id s.visiting
      then (if any guarded (segment id s.visiting) then done s else found)
      else if has id s.visited
      then done s
      else below

-- A route of at least one edge along which every edge leaves a node that is not guarded.
pub data Route (targets : String → List String) (guarded : String → Bool) (a : String)
    : String → Type 0 where
  one : {b : String} → guarded a ≡ false → has b (targets a) ≡ true → Route targets guarded a b
  more :
      {b c : String}
      → Route targets guarded a b
      → guarded b ≡ false
      → has c (targets b) ≡ true
      → Route targets guarded a c

-- A cycle without a continuation node.
abbrev pub UnguardedCycle : (String → List String) → (String → Bool) → Type 0
UnguardedCycle targets guarded = (a : String) × Route targets guarded a a

abbrev pub start : State
start = record { visiting = []; visited = [] }
