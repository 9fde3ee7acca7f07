-- ===== src/Http/Tests.antt =====
-- Runs of the HTTP model, and its theorems at inputs that meet their hypotheses.
use Prim.Native.String.{len}
use manychat.Prelude.{
  utf16_length, ℕ, ◌≤◌, String, ◌≡◌, ◌↔◌, refl, true, false, List, [], ◌∷◌, Option, none, some, All,
  arith, ◌==◌, if◌then◌else◌,
}
use manychat.Value.{end}
use manychat.Http.Address.{
  Address, ipv4, not_an_address, dotted, is_blocked, LookupAddress, select_safe_lookup_address,
}
use manychat.Http.Address.Laws.{Outside, special_ipv4, is_blocked-ipv4}
use manychat.Http.Transport.{
  Result, returns, permanent, Url, ResolvedTarget, Request, Response, transport, resolve_target,
  round,
}
use manychat.Http.Transport.Rounds.{Kept, transport-Kept}
use manychat.Http.Body.{
  data_, timeout, end, resolved, rejected, response_of, receive_all, receive,
  maximum_response_bytes, response_too_large,
}
use manychat.Http.Body.Laws.{total, response_of-bounded}

-- Unfolds what the runs need.
http : Unit {0}
unfolding utf16_length is_blocked select_safe_lookup_address transport round resolve_target
    response_of receive_all receive
http = tt

metadata_service_blocked : is_blocked (ipv4 (dotted 169 254 169 254)) ≡ true
unfolding http
metadata_service_blocked = refl

public_passes : is_blocked (ipv4 (dotted 8 8 8 8)) ≡ false
unfolding http
public_passes = refl

abbrev url_of : String → Option Url
url_of text =
    some
      (record { protocol = "https:"; username = ""; password = ""; hostname = text; href = text })

abbrev read_ip : String → Address
read_ip text =
    if text == "8.8.8.8"
    then ipv4 (dotted 8 8 8 8)
    else if text == "10.0.0.1"
    then ipv4 (dotted 10 0 0 1)
    else not_an_address

-- The host `inner` has a private address.
abbrev names : ℕ → String → Option (List LookupAddress)
names redirect_count host =
    some (record { address = (if host == "inner" then "10.0.0.1" else "8.8.8.8"); family = 4 } ∷ [])

abbrev location_of : String → Url → Option String
location_of location base = some location

-- The host `hook` answers with a redirect to `inner`, any other host with a body.
abbrev answers : ℕ → ResolvedTarget → Request → Result Response
answers redirect_count target request =
    if request.url == "hook"
    then returns
        (record { body = ""; content_type = none; location = some "inner"; status_code = 302 })
    else returns (record { body = "ok"; content_type = none; location = none; status_code = 200 })

abbrev get : String → Request
get url = record { body = none; headers = ("Idempotency-Key", "1") ∷ []; method = "GET"; url = url }

redirect_to_private_stops :
    (transport url_of read_ip names location_of answers 3 (get "hook")).result
    ≡ permanent "external_http_target_forbidden"
unfolding http
redirect_to_private_stops = refl

abbrev ok : Response
ok = record { body = "ok"; content_type = none; location = none; status_code = 200 }

ok_returned : (transport url_of read_ip names location_of answers 3 (get "api")).result ≡ returns ok
unfolding http
ok_returned = refl

abbrev by_length : String → ℕ
by_length = len

hello_received :
    response_of by_length none (data_ "he" ∷ data_ "llo" ∷ end ∷ timeout ∷ [])
    ≡ some (resolved ("he" ∷ "llo" ∷ []))
unfolding http
hello_received = refl

declared_too_large :
    response_of by_length (some 6000000) (end ∷ []) ≡ some (rejected response_too_large)
unfolding http
declared_too_large = refl

is_blocked-ipv4_example :
    (is_blocked (ipv4 (dotted 8 8 8 8)) ≡ false) ↔ All (Outside (dotted 8 8 8 8)) special_ipv4
is_blocked-ipv4_example = is_blocked-ipv4 (dotted 8 8 8 8) (omega arith)

transport-Kept_example :
    Kept read_ip (get "hook") 4 (transport url_of read_ip names location_of answers 3 (get "hook"))
transport-Kept_example = transport-Kept url_of read_ip names location_of answers 3 (get "hook")

response_of-bounded_example : total by_length ("he" ∷ "llo" ∷ []) ≤ maximum_response_bytes
response_of-bounded_example =
    response_of-bounded by_length none (data_ "he" ∷ data_ "llo" ∷ end ∷ timeout ∷ [])
      ("he" ∷ "llo" ∷ []) hello_received
