-- ===== src/Automation/Reach/Sound.antt =====
-- The ids that the search has seen at its end are those that a walk reaches.
use manychat.Prelude.{
  ℕ, zero, suc, String, ◌≡◌, ◌↔◌, refl, ◌⊎◌, inl, inr, true, false, List, [], ◌∷◌, Option, some,
  has, has-cons_iff, has-cons_self, has-cons_later, eq_of_some-eq-some, Bool-cases, Option-cases,
  arith,
}
use manychat.Automation.Reach.{visit_all, visit, Walk, here, next}

pub Walk-cons :
    (targets : String → List String) {a b c : String}
    → has b (targets a) ≡ true
    → Walk targets b c
    → Walk targets a c
Walk-cons targets e here = next here e
Walk-cons targets e (next w f) = next (Walk-cons targets e w) f

module _ (targets : String → List String) where
  -- A walk from one of `roots`.
  abbrev pub From : List String → String → Type 0
  From roots x = (r : String) × (has r roots ≡ true) × Walk targets r x

  -- What a call that started from `seen` and ended with `after` has done.
  pub record Explored (roots seen after : List String) : Type 0 where
    pub kept : (x : String) → has x seen ≡ true → has x after ≡ true
    pub rooted : (x : String) → has x roots ≡ true → has x after ≡ true
    pub closed :
        (x y : String)
        → has x after ≡ true
        → has x seen ≡ false
        → has y (targets x) ≡ true
        → has y after ≡ true
    pub sound : (x : String) → has x after ≡ true → (has x seen ≡ true) ⊎ From roots x

  Explored-nil : (seen : List String) → Explored [] seen seen
  Explored-nil seen = record {
    kept = λ x h. h;
    rooted = λ x h. cc;
    closed = λ x y h n e. cc;
    sound = λ x h. inl h;
  }

  only_root : (s r : String) (rs : List String) → has s (r ∷ []) ≡ true → has s (r ∷ rs) ≡ true
  only_root s r rs h = ground arith

  Explored-cons :
      (r : String) (rs seen mid after : List String)
      → Explored (r ∷ []) seen mid
      → Explored rs mid after
      → Explored (r ∷ rs) seen after
  Explored-cons r rs seen mid after a b = record {
    kept = λ x h. b.kept x (a.kept x h);
    rooted = λ x h. elim ((has-cons_iff x r rs).0 h) [
      | inl same ↦ b.kept x (a.rooted x (rw same (has-cons_self x [])))
      | inr later ↦ b.rooted x later
    ];
    closed = λ x y h n e. elim (Bool-cases (has x mid)) [
      | inl old ↦ b.kept y (a.closed x y old n e)
      | inr new ↦ b.closed x y h new e
    ];
    sound = λ x h. elim (b.sound x h) [
      | inl old ↦ elim (a.sound x old) [
        | inl older ↦ inl older
        | inr (s, one, w) ↦ inr (s, only_root s r rs one, w)
      ]
      | inr (s, listed, w) ↦ inr (s, has-cons_later s r rs listed, w)
    ];
  }

  Explored-seen :
      (id : String) (seen : List String) → has id seen ≡ true → Explored (id ∷ []) seen seen
  Explored-seen id seen old = record {
    kept = λ x h. h;
    rooted =
        λ x h. elim ((has-cons_iff x id []).0 h) [ inl same ↦ rw (← same) old | inr never ↦ cc ];
    closed = λ x y h n e. cc;
    sound = λ x h. inl h;
  }

  Explored-below :
      (id : String) (seen after : List String)
      → Explored (targets id) (id ∷ seen) after
      → Explored (id ∷ []) seen after
  Explored-below id seen after e = record {
    kept = λ x h. e.kept x (has-cons_later x id seen h);
    rooted = λ x h. elim ((has-cons_iff x id []).0 h) [
      | inl same ↦ rw (← same) (e.kept id (has-cons_self id seen))
      | inr never ↦ cc
    ];
    closed = λ x y h n edge. elim (Bool-cases (has x (id ∷ seen))) [
      | inl known ↦ elim ((has-cons_iff x id seen).0 known) [
        | inl same ↦ e.rooted y (rw same edge)
        | inr old ↦ cc
      ]
      | inr new ↦ e.closed x y h new edge
    ];
    sound = λ x h. elim (e.sound x h) [
      | inl known ↦ elim ((has-cons_iff x id seen).0 known) [
        | inl same ↦ inr (id, has-cons_self id [], rw (← same) here)
        | inr old ↦ inl old
      ]
      | inr (s, edge, w) ↦ inr (id, has-cons_self id [], Walk-cons targets edge w)
    ];
  }

  pub visit_all-Explored :
      (step : String → List String → Option (List String))
      → ((id : String) (seen after : List String)
          → step id seen ≡ some after
          → Explored (id ∷ []) seen after)
      → (ids seen after : List String) → visit_all step ids seen ≡ some after
      → Explored ids seen after
  unfolding visit_all
  visit_all-Explored step each [] seen after h =
      let same : seen ≡ after = eq_of_some-eq-some h in rw (← same) (Explored-nil seen)
  visit_all-Explored step each (id ∷ ids) seen after h = elim (Option-cases (step id seen)) [
    | inl out ↦ cc (out, h)
    | inr (mid, e) ↦
        Explored-cons id ids seen mid after (each id seen mid e)
          (visit_all-Explored step each ids mid after (rw (e, visit_all) at h))
  ]

  pub visit-Explored :
      (fuel : ℕ) (id : String) (seen after : List String)
      → visit targets fuel id seen ≡ some after
      → Explored (id ∷ []) seen after
  unfolding visit
  visit-Explored zero id seen after h = cc
  visit-Explored (suc fuel) id seen after h = elim (Bool-cases (has id seen)) [
    | inl old ↦
        let same : seen ≡ after = eq_of_some-eq-some (rw (old, visit) at h) in
        rw (← same) (Explored-seen id seen old)
    | inr new ↦ Explored-below id seen after (
        visit_all-Explored (visit targets fuel) (visit-Explored fuel) (targets id) (id ∷ seen) after
          (rw new at h))
  ]

  Walk-closed :
      (after : List String)
      → ((x y : String) → has x after ≡ true → has y (targets x) ≡ true → has y after ≡ true)
      → {a b : String} → Walk targets a b
      → has a after ≡ true
      → has b after ≡ true
  Walk-closed after closed here h = h
  Walk-closed after closed (next {b} {c} w e) h = closed b c (Walk-closed after closed w h) e

  -- From nothing seen, the search ends with just the ids that a walk from a root reaches.
  pub visit_all_iff :
      (fuel : ℕ) (roots after : List String)
      → visit_all (visit targets fuel) roots [] ≡ some after
      → (x : String) → (has x after ≡ true) ↔ From roots x
  visit_all_iff fuel roots after h x =
      let e = visit_all-Explored (visit targets fuel) (visit-Explored fuel) roots [] after h in
      (
        λ k. elim (e.sound x k) [ inl never ↦ cc | inr from ↦ from ],
        λ (r, listed, w).
            Walk-closed after (λ a b m n. e.closed a b m refl n) w (e.rooted r listed),
      )
