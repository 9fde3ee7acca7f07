-- ===== src/Http/Heap/Laws.antt =====
-- What `setAt` of packages/automation-http/src/index.ts writes, `valueAt` reads, where the path meets no
-- object twice.
use native.Mathlib.Decide.{ℕ_discrete}
use manychat.Prelude.{
  ℕ, ◌<◌, String, false, List, [], ◌∷◌, Option, none, some, insert, lookup, lookup-insert, split,
  nat_eq_iff, eq_refl, ◌≡◌, ◌≢◌, ◌∙◌, refl, ap, sym, ◌⊎◌, inl, inr, arith, Option-cases, All,
}
use manychat.Automation.Field.{is_dangerous}
use manychat.Http.Heap.{
  Ref, plain, at, Heap, allocate, assign, step_into, follow, value_at_ref, set_in, address_of,
  set_parts, set_at,
}

-- The object at `x` is none of those that the path meets from `address` on.
abbrev pub Avoids : ℕ → ℕ → List String → Heap → Type 0
Avoids x address [] h = Unit
Avoids x address (part ∷ []) h = x ≢ address
Avoids x address (part ∷ more ∷ parts) h =
    (x ≢ address) × (elim (address_of (lookup part (h.cell address))) [
      | some inner ↦ Avoids x inner (more ∷ parts) h
      | none ↦ Unit
    ])

-- The path meets no object twice.
abbrev pub IsSimple : ℕ → List String → Heap → Type 0
IsSimple address [] h = Unit
IsSimple address (part ∷ []) h = Unit
IsSimple address (part ∷ more ∷ parts) h = elim (address_of (lookup part (h.cell address))) [
  | some inner ↦ Avoids address inner (more ∷ parts) h × IsSimple inner (more ∷ parts) h
  | none ↦ Unit
]

-- References lead to objects that are there.
abbrev pub IsClosed : Heap → Type 0
IsClosed h = (a : ℕ) (key : String) (r : ℕ) → lookup key (h.cell a) ≡ some (at r) → r < h.next

abbrev pub AreSafe : List String → Type 0
AreSafe parts = All (λ part. is_dangerous part ≡ false) parts

-- A new empty object is met once, and no other object is met from it.
Avoids-new :
    (x address : ℕ) (parts : List String) (h : Heap)
    → h.cell address ≡ []
    → x ≢ address
    → Avoids x address parts h
unfolding lookup
Avoids-new x address [] h e n = tt
Avoids-new x address (part ∷ []) h e n = n
Avoids-new x address (part ∷ more ∷ parts) h e n = (n, rw e tt)

IsSimple-new :
    (address : ℕ) (parts : List String) (h : Heap) → h.cell address ≡ [] → IsSimple address parts h
unfolding lookup
IsSimple-new address [] h e = tt
IsSimple-new address (part ∷ []) h e = tt
IsSimple-new address (part ∷ more ∷ parts) h e = rw (e, IsSimple) tt

-- The objects after `setAt` has put a new one under a member.
abbrev grown : ℕ → String → Heap → Heap
grown address part h = assign address part (at h.next) (allocate [] h)

grown-new :
    (address : ℕ) (part : String) (h : Heap)
    → address < h.next
    → (grown address part h).cell h.next ≡ []
grown-new address part h l = ground arith

grown-other :
    (x address : ℕ) (part : String) (h : Heap)
    → x < h.next
    → x ≢ address
    → (grown address part h).cell x ≡ h.cell x
grown-other x address part h l n = ground arith

grown-own :
    (address : ℕ) (part : String) (h : Heap)
    → address < h.next
    → (grown address part h).cell address ≡ insert part (at h.next) (h.cell address)
grown-own address part h l = ground arith

-- What is looked up after a write is the new reference, or was there.
lookup-grown :
    (address : ℕ) (part : String) (h : Heap) (a : ℕ) (key : String) (r : ℕ)
    → address < h.next
    → lookup key ((grown address part h).cell a) ≡ some (at r)
    → (r ≡ h.next) ⊎ (lookup key (h.cell a) ≡ some (at r))
unfolding lookup
lookup-grown address part h a key r l e = elim (ℕ_discrete a address) [
  | yes own ↦ ground (
    arith,
    grown-own address part h l,
    lookup-insert part key (at h.next) (h.cell address),
    ap (λ x. lookup key ((grown address part h).cell x)) own,
  )
  | no other ↦ elim (ℕ_discrete a h.next) [
    | yes new ↦ cc (
      e,
      ap (λ x. lookup key ((grown address part h).cell x)) new,
      ap (λ x. lookup key x) (grown-new address part h l),
    )
    | no old ↦ inr (
        let same : (grown address part h).cell a ≡ h.cell a = ground arith in
        ap (λ x. lookup key x) (sym same) ∙ e)
  ]
]

grown-IsClosed :
    (address : ℕ) (part : String) (h : Heap)
    → address < h.next
    → IsClosed h
    → IsClosed (grown address part h)
grown-IsClosed address part h l c a key r e = elim (lookup-grown address part h a key r l e) [
  | inl new ↦ omega (arith, new)
  | inr old ↦ omega (arith, c a key r old)
]

-- What `setAt` has done when it returns: the path reads the value, and the objects that the path
-- does not meet are as they were.
pub record Written (address : ℕ) (parts : List String) (value : Ref) (h after : Heap) : Type 0 where
  pub ended : set_parts address parts value h ≡ set_in after
  pub reads : follow after (at address) parts ≡ value
  pub frame : (x : ℕ) → x < h.next → Avoids x address parts h → after.cell x ≡ h.cell x

assign-Written :
    (address : ℕ) (part : String) (value : Ref) (h : Heap)
    → is_dangerous part ≡ false
    → Written address (part ∷ []) value h (assign address part value h)
unfolding set_parts follow step_into
assign-Written address part value h safe = record {
  ended = rw safe refl;
  reads = rw safe (
      ground (
        arith,
        lookup-insert part part value (h.cell address),
        eq_refl part,
        nat_eq_iff address address,
      ));
  frame = λ x l n. ground (arith, n);
}

address_of-some : (o : Option Ref) {inner : ℕ} → address_of o ≡ some inner → o ≡ some (at inner)
address_of-some (some (at address)) h = ground arith
address_of-some (some (plain v)) h = cc
address_of-some none h = cc

-- A round that goes on into an object that is there.
inner-Written :
    (address inner : ℕ) (part more : String) (parts : List String) (value : Ref) (h after : Heap)
    → is_dangerous part ≡ false
    → address < h.next
    → address_of (lookup part (h.cell address)) ≡ some inner
    → Avoids address inner (more ∷ parts) h
    → Written inner (more ∷ parts) value h after
    → Written address (part ∷ more ∷ parts) value h after
unfolding set_parts follow step_into
inner-Written address inner part more parts value h after safe l e avoids w = record {
  ended = rw (safe, e, set_parts) w.ended;
  reads =
      rw (safe, w.frame address l avoids, address_of-some (lookup part (h.cell address)) e) w.reads;
  frame = λ x lx n. w.frame x lx (rw e at n.1);
}

-- A round that goes on into a new object.
new-Written :
    (address : ℕ) (part more : String) (parts : List String) (value : Ref) (h after : Heap)
    → is_dangerous part ≡ false
    → address < h.next
    → address_of (lookup part (h.cell address)) ≡ none
    → Written h.next (more ∷ parts) value (grown address part h) after
    → Written address (part ∷ more ∷ parts) value h after
unfolding set_parts follow step_into
new-Written address part more parts value h after safe l e w =
    let kept : (x : ℕ) → x < h.next → after.cell x ≡ (grown address part h).cell x = λ x lx.
      w.frame x (omega arith) (
        Avoids-new x h.next (more ∷ parts) (grown address part h) (grown-new address part h l)
          (omega arith)) in
    record {
      ended = rw (safe, e, set_parts) w.ended;
      reads =
          rw
            (
              safe,
              kept address l ∙ grown-own address part h l,
              lookup-insert part part (at h.next) (h.cell address),
              eq_refl part,
            )
            w.reads;
      frame = λ x lx n. kept x lx ∙ grown-other x address part h lx n.0;
    }

met_inner :
    (address inner : ℕ) (part more : String) (parts : List String) (h : Heap)
    → address_of (lookup part (h.cell address)) ≡ some inner
    → IsSimple address (part ∷ more ∷ parts) h
    → Avoids address inner (more ∷ parts) h × IsSimple inner (more ∷ parts) h
met_inner address inner part more parts h e simple = rw (e, IsSimple) at simple

set_parts-Written :
    (address : ℕ) (part : String) (parts : List String) (value : Ref) (h : Heap)
    → address < h.next
    → IsClosed h
    → AreSafe (part ∷ parts)
    → IsSimple address (part ∷ parts) h
    → (after : Heap) × Written address (part ∷ parts) value h after
set_parts-Written address part [] value h l c (safe, _) simple =
    (assign address part value h, assign-Written address part value h safe)
set_parts-Written address part (more ∷ parts) value h l c (safe, later) simple =
    elim (Option-cases (address_of (lookup part (h.cell address)))) [
      | inl e ↦
          let (after, w) =
            set_parts-Written h.next more parts value (grown address part h) (omega arith)
              (grown-IsClosed address part h l c) later
              (IsSimple-new h.next (more ∷ parts) (grown address part h)
                (grown-new address part h l)) in
          (after, new-Written address part more parts value h after safe l e w)
      | inr (inner, e) ↦
          let (avoids, onwards) = met_inner address inner part more parts h e simple in
          let (after, w) =
            set_parts-Written inner more parts value h
              (c address part inner (address_of-some (lookup part (h.cell address)) e)) c later
              onwards in
          (after, inner-Written address inner part more parts value h after safe l e avoids w)
    ]

-- `setAt` of a safe path that meets no object twice returns, and then `valueAt` reads the value at the
-- path, while each object that the path does not meet is as it was: for every start, every value and
-- all objects whose references lead to objects.
pub set_at-value_at :
    (target : ℕ) (path part : String) (parts : List String) (value : Ref) (h : Heap)
    → split b'.' path ≡ part ∷ parts
    → target < h.next
    → IsClosed h
    → AreSafe (part ∷ parts)
    → IsSimple target (part ∷ parts) h
    → (after : Heap) × (set_at target path value h ≡ set_in after)
      × (value_at_ref after (at target) path ≡ value)
      × ((x : ℕ) → x < h.next → Avoids x target (part ∷ parts) h → after.cell x ≡ h.cell x)
unfolding set_at value_at_ref
set_at-value_at target path part parts value h e l c safe simple =
    let (after, w) = set_parts-Written target part parts value h l c safe simple in
    (after, rw e w.ended, rw e w.reads, w.frame)
