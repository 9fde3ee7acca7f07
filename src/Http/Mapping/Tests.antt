-- ===== src/Http/Mapping/Tests.antt =====
-- Runs of the mappings of packages/automation-http/src/index.ts, and the theorems at them.
use manychat.Prelude.{
  ℕ, ◌<◌, String, false, [], ◌∷◌, Option, none, some, split, insert, lookup, ◌≡◌, refl, arith,
  includes,
}
use manychat.Prelude.Int.{ℤ, pos}
use manychat.Value.{Value, undefined, num, str, obj, end, field}
use manychat.Automation.Field.{is_dangerous}
use manychat.Automation.HttpConfig.{HttpConfig, Method, ContentType}
use manychat.Http.Transport.{Response}
use manychat.Http.Heap.{
  Ref, plain, at, Heap, no_objects, allocate, step_into, follow, value_at_ref, set_in, set_at,
}
use manychat.Http.Heap.Laws.{Avoids, IsSimple, IsClosed, set_at-value_at}
use manychat.Http.Mapping.{Executed, success, executed, map_one, map_all}
use manychat.Http.Mapping.Cycle.{inner_mapping, outer_mapping, around, map_all-cycle}

-- `{ n: { k: 1 } }` at the address 1.
abbrev two_objects : Heap
two_objects = allocate (("n", at 0) ∷ []) (allocate (("k", plain (num (pos 1))) ∷ []) no_objects)

path_parts : split b'.' "n.m.k" ≡ "n" ∷ "m" ∷ "k" ∷ []
unfolding split
path_parts = refl

two_objects-IsClosed : IsClosed two_objects
unfolding lookup
two_objects-IsClosed a key r e = ground arith

path-IsSimple : IsSimple 1 ("n" ∷ "m" ∷ "k" ∷ []) two_objects
unfolding lookup
path-IsSimple = ((λ h. omega (arith, h), tt), tt)

safe_n : is_dangerous "n" ≡ false
unfolding is_dangerous
safe_n = refl

safe_m : is_dangerous "m" ≡ false
unfolding is_dangerous
safe_m = refl

safe_k : is_dangerous "k" ≡ false
unfolding is_dangerous
safe_k = refl

set_at-value_at_example :
    (after : Heap) × (set_at 1 "n.m.k" (plain (str "v")) two_objects ≡ set_in after)
    × (value_at_ref after (at 1) "n.m.k" ≡ plain (str "v"))
    × ((x : ℕ)
        → x < 2
        → Avoids x 1 ("n" ∷ "m" ∷ "k" ∷ []) two_objects
        → after.cell x ≡ two_objects.cell x)
set_at-value_at_example =
    set_at-value_at 1 "n.m.k" "n" ("m" ∷ "k" ∷ []) (plain (str "v")) two_objects path_parts
      (omega arith) two_objects-IsClosed (safe_n, (safe_m, (safe_k, tt))) path-IsSimple

abbrev no_json : String → Option Value
no_json _ = some (obj (field "a" (obj (field "k" (num (pos 1)) end)) end))

abbrev same_text : String → String
same_text s = s

abbrev no_text : Heap → Ref → Option String
no_text h r = none

abbrev no_number : Heap → Ref → Option ℤ
no_number h r = none

abbrev no_length : String → ℕ
no_length s = 0

-- The response `{ a: { k: 1 } }` with its objects at 1 and 0, and the mapped variables at 2.
abbrev response_objects : Heap
response_objects =
    allocate []
      (allocate (("a", at 0) ∷ []) (allocate (("k", plain (num (pos 1))) ∷ []) no_objects))

member_a : lookup "a" (response_objects.cell 1) ≡ some (at 0)
unfolding lookup
member_a = refl

map_all-cycle_example :
    let s =
      map_all no_json same_text no_text no_number no_length
        (at 1)
        200
        2
        ((inner_mapping, plain undefined) ∷ (outer_mapping, plain undefined) ∷ [])
        (record { heap = response_objects; mapping_failed = false }) in
    (s.mapping_failed ≡ false) × ((n : ℕ) → follow s.heap (at 2) ("x" ∷ around n) ≡ at 0)
map_all-cycle_example =
    map_all-cycle no_json same_text no_text no_number no_length 1 0 200 2 response_objects
      (omega arith) (omega arith) (omega arith) (λ h. omega (arith, h)) (λ h. omega (arith, h))
      (λ h. omega (arith, h)) member_a

abbrev config : HttpConfig
config = record {
  body = undefined;
  content_type = ContentType.json;
  headers = [];
  mappings = record inner_mapping { source_path = "response.data.a.k" } ∷ [];
  max_attempts = 1;
  method = Method.get;
  query = [];
  success_status_maximum = 299;
  success_status_minimum = 200;
  timeout_ms = 1000;
  url = "https://example.org";
}

abbrev answer : Response
answer = record {
  body = "{\"a\":{\"k\":1}}";
  content_type = some "application/json";
  location = none;
  status_code = 200;
}

abbrev run : Executed
run = executed no_json same_text no_text no_number no_length config answer

run_outcome : run.outcome ≡ success
unfolding executed split includes set_at value_at_ref follow step_into is_dangerous lookup insert
    map_one
run_outcome = refl

run_variable : value_at_ref run.heap (at run.mapped_variables) "x" ≡ plain (num (pos 1))
unfolding executed split includes set_at value_at_ref follow step_into is_dangerous lookup insert
    map_one
run_variable = refl
