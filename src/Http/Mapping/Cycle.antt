-- ===== src/Http/Mapping/Cycle.antt =====
-- A configuration of packages/automation-http/src/index.ts whose mapped variables contain themselves:
-- an object of the response is mapped, and then the object around it is put inside.
use manychat.Prelude.{
  ℕ, zero, suc, ◌<◌, String, true, false, List, [], ◌∷◌, Option, some, Entries, insert, lookup,
  lookup-insert, split, eq_iff, ◌≡◌, ◌≢◌, ◌∙◌, ap, sym, refl, arith,
}
use manychat.Prelude.Int.{ℤ}
use manychat.Value.{Value, undefined, whole}
use manychat.Automation.Field.{is_dangerous}
use manychat.Automation.HttpConfig.{Mapping, ValueType}
use manychat.Http.Heap.{
  Ref, plain, at, Heap, assign, follow, step_into, value_at_ref, set_at, set_parts, set_in,
}
use manychat.Http.Mapping.{response_object, map_one, map_all}

-- `response.data.a` to `x` and `response.data` to `x.b`, both as JSON.
abbrev pub inner_mapping : Mapping
inner_mapping = record {
  default_value = undefined;
  required = true;
  source_path = "response.data.a";
  target_path = "x";
  type = ValueType.json;
}

abbrev pub outer_mapping : Mapping
outer_mapping = record {
  default_value = undefined;
  required = true;
  source_path = "response.data";
  target_path = "x.b";
  type = ValueType.json;
}

-- Down and up again, n times.
abbrev pub around : ℕ → List String
around zero = []
around (suc n) = "b" ∷ "a" ∷ around n

assign-own :
    (x : ℕ) (part : String) (v : Ref) (h : Heap)
    → (assign x part v h).cell x ≡ insert part v (h.cell x)
assign-own x part v h = ground arith

assign-other :
    (y x : ℕ) (part : String) (v : Ref) (h : Heap) → y ≢ x → (assign x part v h).cell y ≡ h.cell y
assign-other y x part v h n = ground arith

lookup-insert_self :
    (key : String) (v : Ref) (entries : Entries Ref) → lookup key (insert key v entries) ≡ some v
lookup-insert_self key v entries = ground (arith, lookup-insert key key v entries, eq_iff key key)

module _ (parse_json : String → Option Value) (lower : String → String)
    (text_of : Heap → Ref → Option String) (number_of : Heap → Ref → Option ℤ)
    (byte_length : String → ℕ) where
  abbrev with_response : ℕ → ℕ → Heap → Heap
  with_response d status h =
      response_object parse_json lower text_of number_of byte_length (at d) status h

  own_member :
      (d a status : ℕ) (h : Heap)
      → d < h.next
      → lookup "a" (h.cell d) ≡ some (at a)
      → step_into (with_response d status h) (at d) "a" ≡ at a
  unfolding step_into is_dangerous
  own_member d a status h l e =
      let kept : (with_response d status h).cell d ≡ h.cell d = ground arith in rw kept (rw e refl)

  -- Where a path through the two new objects leads.
  response_payload :
      (d status : ℕ) (h : Heap)
      → step_into
          (with_response d status h)
          (step_into (with_response d status h) (at (suc h.next)) "response")
          "data"
        ≡ at d
  unfolding step_into is_dangerous lookup
  response_payload d status h =
      let outer : (with_response d status h).cell (suc h.next) ≡ ("response", at h.next) ∷ [] =
        ground arith in
      let inner : (with_response d status h).cell h.next
          ≡ ("data", at d) ∷ ("status", plain (whole status)) ∷ [] =
        ground arith in
      rw outer (rw inner refl)

  old_cell : (d status x : ℕ) (h : Heap) → x < h.next → (with_response d status h).cell x ≡ h.cell x
  old_cell d status x h l = ground arith

  source_of_outer :
      (d status : ℕ) (h : Heap)
      → value_at_ref (with_response d status h) (at (suc h.next)) "response.data" ≡ at d
  unfolding value_at_ref split
  source_of_outer d status h = response_payload d status h

  source_of_inner :
      (d a status : ℕ) (h : Heap)
      → d < h.next
      → lookup "a" (h.cell d) ≡ some (at a)
      → value_at_ref (with_response d status h) (at (suc h.next)) "response.data.a" ≡ at a
  unfolding value_at_ref split
  source_of_inner d a status h l e =
      ap (λ r. step_into (with_response d status h) r "a") (response_payload d status h)
      ∙ own_member d a status h l e

  -- The two mappings, one after the other.
  inner_mapped :
      (d a status target : ℕ) (h : Heap)
      → d < h.next
      → lookup "a" (h.cell d) ≡ some (at a)
      → map_one parse_json lower text_of number_of byte_length
          (at d)
          status
          target
          (inner_mapping, plain undefined)
          (record { heap = h; mapping_failed = false })
        ≡ record {
          heap = assign target "x" (at a) (with_response d status h);
          mapping_failed = false;
        }
  unfolding map_one set_at set_parts is_dangerous split
  inner_mapped d a status target h l e = rw (source_of_inner d a status h l e) refl

  set_below :
      (target a : ℕ) (value : Ref) (h : Heap)
      → lookup "x" (h.cell target) ≡ some (at a)
      → set_at target "x.b" value h ≡ set_in (assign a "b" value h)
  unfolding set_at set_parts is_dangerous split
  set_below target a value h e = rw (e, set_parts) refl

  outer_mapped :
      (d a status target : ℕ) (h : Heap)
      → lookup "x" ((with_response d status h).cell target) ≡ some (at a)
      → map_one parse_json lower text_of number_of byte_length
          (at d)
          status
          target
          (outer_mapping, plain undefined)
          (record { heap = h; mapping_failed = false })
        ≡ record { heap = assign a "b" (at d) (with_response d status h); mapping_failed = false }
  unfolding map_one
  outer_mapped d a status target h e =
      rw (source_of_outer d status h)
        (rw (set_below target a (at d) (with_response d status h) e) refl)

  step_into-member :
      (h : Heap) (address : ℕ) (part : String) (r : Ref)
      → is_dangerous part ≡ false
      → lookup part (h.cell address) ≡ some r
      → step_into h (at address) part ≡ r
  unfolding step_into
  step_into-member h address part r safe e = rw (safe, e)

  follow-around :
      (d a n : ℕ) (h : Heap)
      → lookup "b" (h.cell a) ≡ some (at d)
      → lookup "a" (h.cell d) ≡ some (at a)
      → follow h (at a) (around n) ≡ at a
  unfolding follow is_dangerous
  follow-around d a zero h down up = refl
  follow-around d a (suc n) h down up =
      ap (λ r. follow h (step_into h r "a") (around n)) (step_into-member h a "b" (at d) refl down)
      ∙ ap (λ r. follow h r (around n)) (step_into-member h d "a" (at a) refl up)
      ∙ follow-around d a n h down up

  -- The objects after the two mappings.
  abbrev tied : ℕ → ℕ → ℕ → ℕ → Heap → Heap
  tied d a status target h =
      assign a "b" (at d)
        (with_response d status (assign target "x" (at a) (with_response d status h)))

  tied-members :
      (d a status target : ℕ) (h : Heap)
      → d < h.next
      → a < h.next
      → target < h.next
      → a ≢ d
      → target ≢ d
      → target ≢ a
      → (lookup "b" ((tied d a status target h).cell a) ≡ some (at d))
        × (lookup "a" ((tied d a status target h).cell d) ≡ lookup "a" (h.cell d))
        × (lookup "x" ((tied d a status target h).cell target) ≡ some (at a))
  tied-members d a status target h dl al tl ad td ta =
      let first = with_response d status h in
      let second = assign target "x" (at a) first in
      let third = with_response d status second in
      let kept : (x : ℕ) → x < h.next → third.cell x ≡ second.cell x =
        λ x l. old_cell d status x second (omega arith) in
      (
        ap (lookup "b") (assign-own a "b" (at d) third)
            ∙ lookup-insert_self "b" (at d) (third.cell a),
        ap (lookup "a") (
            assign-other d a "b" (at d) third (λ s. ad (sym s))
            ∙ kept d dl
            ∙ assign-other d target "x" (at a) first (λ s. td (sym s))
            ∙ old_cell d status d h dl),
        ap (lookup "x") (
              assign-other target a "b" (at d) third ta
              ∙ kept target tl
              ∙ assign-own target "x" (at a) first)
            ∙ lookup-insert_self "x" (at a) (first.cell target),
      )

  around_from_x :
      (d a status target n : ℕ) (h : Heap)
      → lookup "b" ((tied d a status target h).cell a) ≡ some (at d)
      → lookup "a" ((tied d a status target h).cell d) ≡ some (at a)
      → lookup "x" ((tied d a status target h).cell target) ≡ some (at a)
      → follow (tied d a status target h) (at target) ("x" ∷ around n) ≡ at a
  unfolding follow is_dangerous
  around_from_x d a status target n h down up named =
      ap (λ r. follow (tied d a status target h) r (around n))
        (step_into-member (tied d a status target h) target "x" (at a) refl named)
      ∙ follow-around d a n (tied d a status target h) down up

  -- For every object `d` of the response with an object as its member `a`: after the two mappings the
  -- variable `x` is an object that contains itself, since the path `x.b.a.b.a…` never ends.
  pub map_all-cycle :
      (d a status target : ℕ) (h : Heap)
      → d < h.next
      → a < h.next
      → target < h.next
      → a ≢ d
      → target ≢ d
      → target ≢ a
      → lookup "a" (h.cell d) ≡ some (at a)
      → let s =
          map_all parse_json lower text_of number_of byte_length
            (at d)
            status
            target
            ((inner_mapping, plain undefined) ∷ (outer_mapping, plain undefined) ∷ [])
            (record { heap = h; mapping_failed = false }) in
        (s.mapping_failed ≡ false) × ((n : ℕ) → follow s.heap (at target) ("x" ∷ around n) ≡ at a)
  unfolding map_all
  map_all-cycle d a status target h dl al tl ad td ta e =
      let second = assign target "x" (at a) (with_response d status h) in
      let under_x : lookup "x" ((with_response d status second).cell target) ≡ some (at a) =
        ap (lookup "x") (
          old_cell d status target second (omega arith)
          ∙ assign-own target "x" (at a) (with_response d status h))
        ∙ lookup-insert_self "x" (at a) ((with_response d status h).cell target) in
      let (down, up, named) = tied-members d a status target h dl al tl ad td ta in
      rw (inner_mapped d a status target h dl e) (
        rw (outer_mapped d a status target second under_x)
          (refl, λ n. around_from_x d a status target n h down (up ∙ e) named))
