-- ===== src/Automation/Reach/Total.antt =====
-- The search does not run out of fuel: each call that goes on adds a node to the set, so the depth is
-- at most the number of the nodes not seen.
use manychat.Prelude.{
  ℕ, zero, suc, ◌≤◌, ◌<◌, String, ◌≡◌, refl, inl, inr, true, false, List, [], ◌∷◌, Option, some,
  has, has-cons_later, length, Bool-cases, arith, eq_iff, eq_refl, if◌then◌else◌,
}
use manychat.Automation.Reach.{visit_all, visit}
use manychat.Automation.Reach.Sound.{Explored, visit-Explored}

-- The members of `ids`, counted as often as they stand there, that are not in `seen`.
pub unseen : List String → List String → ℕ
unseen [] seen = 0
unseen (u ∷ us) seen = let rest = unseen us seen in if has u seen then rest else suc rest

pub unseen-le-length : (us : List String) → unseen us [] ≤ length us
unfolding unseen
unseen-le-length [] = omega arith
unseen-le-length (u ∷ us) = omega (arith, unseen-le-length us)

pub unseen_mono :
    (us seen after : List String)
    → ((x : String) → has x seen ≡ true → has x after ≡ true)
    → unseen us after ≤ unseen us seen
unfolding unseen
unseen_mono [] seen after kept = omega arith
unseen_mono (u ∷ us) seen after kept = ground (arith, unseen_mono us seen after kept, kept u)

pub unseen-cons_lt :
    (us seen : List String) (x : String)
    → has x us ≡ true
    → has x seen ≡ false
    → unseen us (x ∷ seen) < unseen us seen
unfolding unseen
unseen-cons_lt [] seen x h n = cc
unseen-cons_lt (u ∷ us) seen x h n = elim (Bool-cases (has x us)) [
  | inl later ↦ ground (arith, unseen-cons_lt us seen x later n, eq_iff x u)
  | inr not_later ↦ ground (
    arith,
    unseen_mono us seen (x ∷ seen) (λ y k. has-cons_later y x seen k),
    eq_iff u x,
    eq_refl x,
  )
]

module _ (targets : String → List String) (nodes : List String)
    (within : (x y : String) → has y (targets x) ≡ true → has y nodes ≡ true) where
  -- What is needed of one call for a list of calls to end.
  abbrev Ends : ℕ → (String → List String → Option (List String)) → Type 0
  Ends bound step =
      (id : String) (seen : List String)
      → has id nodes ≡ true
      → unseen nodes seen < bound
      → (after : List String) × (step id seen ≡ some after) × Explored targets (id ∷ []) seen after

  visit_all-total :
      (bound : ℕ) (step : String → List String → Option (List String))
      → Ends bound step
      → (ids seen : List String) → ((x : String) → has x ids ≡ true → has x nodes ≡ true)
      → unseen nodes seen < bound
      → (after : List String) × (visit_all step ids seen ≡ some after)
  unfolding visit_all
  visit_all-total bound step ends [] seen known few = (seen, refl)
  visit_all-total bound step ends (id ∷ ids) seen known few =
      let (mid, e, x) = ends id seen (known id (rw (eq_refl id))) few in
      let (after, f) =
        visit_all-total bound step ends ids mid (λ y k. known y (has-cons_later y id ids k))
          (omega (arith, unseen_mono nodes seen mid x.kept)) in
      (after, rw (e, visit_all) f)

  visit-total : (fuel : ℕ) → Ends fuel (visit targets fuel)
  unfolding visit
  visit-total zero id seen known few = absurd (omega arith)
  visit-total (suc fuel) id seen known few = elim (Bool-cases (has id seen)) [
    | inl old ↦
        let e : visit targets (suc fuel) id seen ≡ some seen = rw old in
        (seen, e, visit-Explored targets (suc fuel) id seen seen e)
    | inr new ↦
        let (after, e) =
          visit_all-total fuel (visit targets fuel) (visit-total fuel) (targets id) (id ∷ seen)
            (λ y k. within id y k) (omega (arith, unseen-cons_lt nodes seen id known new)) in
        let f : visit targets (suc fuel) id seen ≡ some after = rw new e in
        (after, f, visit-Explored targets (suc fuel) id seen after f)
  ]

  -- With one more fuel than nodes, a search from any of the nodes ends.
  pub visit_all-ends :
      (roots : List String)
      → ((x : String) → has x roots ≡ true → has x nodes ≡ true)
      → (after : List String) × (visit_all (visit targets (suc (length nodes))) roots []
          ≡ some after)
  visit_all-ends roots known =
      visit_all-total (suc (length nodes)) (visit targets (suc (length nodes)))
        (visit-total (suc (length nodes))) roots [] known (omega (arith, unseen-le-length nodes))
