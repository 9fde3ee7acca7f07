-- ===== src/Runtime/Starved.antt =====
-- A delayed action that cannot be resumed, as apps/worker/src/automation/automation-continuation.service.ts
-- meets it in scan after scan.
use manychat.Prelude.{
  ℕ, suc, ◌≤◌, String, Bool, true, false, not, ◌&&◌, ◌||◌, List, [], ◌∷◌, some, any, all, find,
  filter, map, leb, leb_iff, ltb, nat_eq, nat_eq_iff, ◌==◌, eq_iff, ◌≡◌, refl, inl, inr, arith,
  Bool-cases, All, eq_of_some-eq-some,
}
use manychat.Runtime.Rows.{DelayedAction, Rows, throws, Action, is_pending_action}
use manychat.Runtime.Project.{Project}
use manychat.Runtime.Service.{
  is_action, is_due_action, place_row, order_by, first, due_actions, resume_delayed_action, each,
  scan_continuations,
}

abbrev at : DelayedAction → ℕ
at a = a.next_attempt_at

-- A row is not pending, is the action, or is due later than it.
abbrev pub is_behind : DelayedAction → DelayedAction → Bool
is_behind a b =
    not (is_pending_action b.status)
    || (b.id == a.id && nat_eq b.next_attempt_at a.next_attempt_at)
    || ltb a.next_attempt_at b.next_attempt_at

abbrev not_before : DelayedAction → DelayedAction → Bool
not_before a b = leb a.next_attempt_at b.next_attempt_at

abbrev first_is : DelayedAction → List DelayedAction → Bool
first_is a [] = false
first_is a (b ∷ rows) = b.id == a.id && nat_eq b.next_attempt_at a.next_attempt_at

place-not_before :
    (a b : DelayedAction) (rows : List DelayedAction)
    → not_before a b ≡ true
    → all (not_before a) rows ≡ true
    → all (not_before a) (place_row at b rows) ≡ true
unfolding place_row
place-not_before a b [] h k = ground arith
place-not_before a b (c ∷ rows) h k = ground (arith, place-not_before a b rows)

due-not_before :
    (now : ℕ) (a : DelayedAction) (rows : List DelayedAction)
    → all (is_behind a) rows ≡ true
    → all (not_before a) (order_by at (filter (is_due_action now) rows)) ≡ true
unfolding order_by
due-not_before now a [] h = refl
due-not_before now a (b ∷ rows) h = elim (Bool-cases (is_due_action now b)) [
  | inr idle ↦ rw idle (due-not_before now a rows (ground (arith, h)))
  | inl due ↦ rw due (
      place-not_before a b (order_by at (filter (is_due_action now) rows))
        (ground (arith, h, due, nat_eq_iff b.next_attempt_at a.next_attempt_at))
        (due-not_before now a rows (ground (arith, h))))
]

place-first :
    (a b : DelayedAction) (rows : List DelayedAction)
    → (b.id == a.id && nat_eq b.next_attempt_at a.next_attempt_at) ≡ true
    → all (not_before a) rows ≡ true
    → first_is a (place_row at b rows) ≡ true
unfolding place_row
place-first a b [] own h = own
place-first a b (c ∷ rows) own h =
    ground (arith, own, h, nat_eq_iff b.next_attempt_at a.next_attempt_at)

place-behind :
    (a b : DelayedAction) (rows : List DelayedAction)
    → ltb a.next_attempt_at b.next_attempt_at ≡ true
    → first_is a rows ≡ true
    → first_is a (place_row at b rows) ≡ true
unfolding place_row
place-behind a b [] later h = cc
place-behind a b (c ∷ rows) later h =
    ground (arith, later, h, nat_eq_iff c.next_attempt_at a.next_attempt_at)

abbrev is_it : ℕ → DelayedAction → DelayedAction → Bool
is_it now a b = is_due_action now b && b.id == a.id && nat_eq b.next_attempt_at a.next_attempt_at

due-first :
    (now : ℕ) (a : DelayedAction) (rows : List DelayedAction)
    → all (is_behind a) rows ≡ true
    → any (is_it now a) rows ≡ true
    → first_is a (order_by at (filter (is_due_action now) rows)) ≡ true
unfolding order_by
due-first now a [] h there = cc
due-first now a (b ∷ rows) h there = elim (Bool-cases (is_due_action now b)) [
  | inr idle ↦ rw idle (due-first now a rows (ground (arith, h)) (ground (arith, there, idle)))
  | inl due ↦
      rw due (elim (Bool-cases (b.id == a.id && nat_eq b.next_attempt_at a.next_attempt_at)) [
        | inl own ↦
            place-first a b (order_by at (filter (is_due_action now) rows)) own
              (due-not_before now a rows (ground (arith, h)))
        | inr other ↦
            place-behind a b (order_by at (filter (is_due_action now) rows))
              (ground (arith, h, due, other))
              (due-first now a rows (ground (arith, h)) (ground (arith, there, other)))
      ])
]

found-it :
    (now : ℕ) (a : DelayedAction) (rows : List DelayedAction)
    → find (is_action a.id) rows ≡ some a
    → is_due_action now a ≡ true
    → any (is_it now a) rows ≡ true
found-it now a [] h due = cc
found-it now a (b ∷ rows) h due = elim (Bool-cases (is_action a.id b)) [
  | inl hit ↦
      let same : b ≡ a = eq_of_some-eq-some (rw hit at h) in
      rw same
        (ground (arith, due, eq_iff a.id a.id, nat_eq_iff a.next_attempt_at a.next_attempt_at))
  | inr miss ↦ ground (arith, found-it now a rows (rw miss at h) due)
]

each-throws :
    (run : String → Action (Unit {0})) (a : DelayedAction) (take : ℕ) (rows : Rows) (e : String)
    (sorted : List DelayedAction)
    → run a.id rows ≡ throws e
    → first_is a sorted ≡ true
    → each run (map (λ (b : DelayedAction). b.id) (first (suc take) sorted)) rows ≡ (false, rows)
unfolding each
each-throws run a take rows e [] fails h = cc
each-throws run a take rows e (b ∷ sorted) fails h =
    let same : b.id ≡ a.id = ground (arith, h, eq_iff b.id a.id) in rw (same, fails) refl

module _ (p : Project) (lower : String → String) (fuel take : ℕ) where
  -- The action is the pending one that is due first, and resuming it fails at any time: a node that comes
  -- next needs a tag, a field or a connection that has been taken away, say.
  pub record IsPoisoned (a : DelayedAction) (rows : Rows) : Type 0 where
    pub found : find (is_action a.id) rows.delayed_actions ≡ some a
    pub pending : is_pending_action a.status ≡ true
    pub behind : all (is_behind a) rows.delayed_actions ≡ true
    pub fails :
        (now : ℕ)
        → resume_delayed_action p lower fuel now a.id rows ≡ throws "automation_delay_resume_failed"

  poisoned-unmoved :
      (now : ℕ) (a : DelayedAction) (rows : Rows)
      → a.next_attempt_at ≤ now
      → IsPoisoned a rows
      → scan_continuations p lower fuel now (suc take) rows ≡ (false, rows)
  unfolding scan_continuations due_actions
  poisoned-unmoved now a rows due h =
      let now_due : is_due_action now a ≡ true =
        ground (arith, h.pending, due, leb_iff a.next_attempt_at now) in
      let sorted = order_by at (filter (is_due_action now) rows.delayed_actions) in
      rw
        (each-throws (resume_delayed_action p lower fuel now) a take rows
          "automation_delay_resume_failed" sorted (h.fails now)
          (due-first now a rows.delayed_actions h.behind
            (found-it now a rows.delayed_actions h.found now_due)))
        refl

  -- The scans at some times, one after the other.
  unfoldable pub scans : List ℕ → Rows → Rows
  scans [] rows = rows
  scans (now ∷ times) rows = scans times (scan_continuations p lower fuel now (suc take) rows).1

  -- While the resumption of the pending action that is due first fails, no scan changes a row, however
  -- many there are: no other delay goes on and no wait times out.
  pub poisoned-starves :
      (times : List ℕ) (a : DelayedAction) (rows : Rows)
      → IsPoisoned a rows
      → All (λ now. a.next_attempt_at ≤ now) times
      → scans times rows ≡ rows
  unfolding scans
  poisoned-starves [] a rows h due = refl
  poisoned-starves (now ∷ times) a rows h (here, later) =
      rw (poisoned-unmoved now a rows here h) (poisoned-starves times a rows h later)
