-- ===== src/Http/Transport.antt =====
-- `resolveTarget` and `transport` of packages/automation-http/src/index.ts. The URL class, the name
-- service and the connection are parameters; the last two may answer differently in each round, so they
-- take the number of redirects followed so far.
pub mod Laws
pub mod Rounds
pub mod Final
use manychat.Prelude.{
  utf16_length, ℕ, zero, suc, ◌-◌, String, Bool, true, false, not, ◌&&◌, ◌||◌, List, [], ◌∷◌,
  Option, none, some, leb, ltb, nat_eq, ◌==◌, if◌then◌else◌,
}
use manychat.Http.Address.{Address, LookupAddress, select_safe_lookup_address}

pub data ExternalHttpOutcome : Type 0 where
  permanent_failure retryable_failure unknown : ExternalHttpOutcome

-- `ExternalHttpError`, and a result or the error that is thrown in its place.
pub record ExternalHttpError : Type 0 where
  pub outcome : ExternalHttpOutcome
  pub safe_code : String

pub data Result (A : Type 0) : Type 0 where
  throws : ExternalHttpError → Result A
  returns : A → Result A

abbrev pub permanent : {A : Type 0} → String → Result A
permanent code = throws (record { outcome = permanent_failure; safe_code = code })

-- `await`, and what follows where nothing is thrown.
abbrev pub next : {A B : Type 0} → Result A → (A → Result B) → Result B
next (throws e) f = throws e
next (returns a) f = f a

-- What the code reads of a URL.
pub record Url : Type 0 where
  pub protocol : String
  pub username : String
  pub password : String
  pub hostname : String
  pub href : String

pub record ResolvedTarget : Type 0 where
  pub address : String
  pub family : ℕ
  pub url : Url

pub record Request : Type 0 where
  pub body : Option String
  pub headers : List (String × String)
  pub method : String
  pub url : String

pub record Response : Type 0 where
  pub body : String
  pub content_type : Option String
  pub location : Option String
  pub status_code : ℕ

-- A request, and the target that it was sent to.
pub record Sent : Type 0 where
  pub target : ResolvedTarget
  pub request : Request

-- The requests that were sent, first to last, and how it ended.
pub record Run : Type 0 where
  pub sent : List Sent
  pub result : Result Response

abbrev pub maximum_redirects : ℕ
maximum_redirects = 3

abbrev pub is_redirect : ℕ → Bool
is_redirect status_code = leb 300 status_code && ltb status_code 400

abbrev pub keeps_method : ℕ → Bool
keeps_method status_code = nat_eq status_code 307 || nat_eq status_code 308

-- `selected.family === 6 ? 6 : 4`
abbrev pub family_of : ℕ → ℕ
family_of family = if nat_eq family 6 then 6 else 4

abbrev pub is_forbidden : Url → Bool
is_forbidden url =
    not (url.protocol == "https:") || not (url.username == "") || not (url.password == "")

-- `response.location` where it counts as true.
abbrev pub moved_to : Response → Option String
moved_to response = elim response.location [
  | none ↦ none
  | some location ↦
      if is_redirect response.status_code && not (location == "") then some location else none
]

module _ (parse_url : String → Option Url) (is_ip : String → Address)
    (dns_lookup : ℕ → String → Option (List LookupAddress)) where
  abbrev pub target_of : Url → Option LookupAddress → Result ResolvedTarget
  target_of url none = permanent "external_http_target_forbidden"
  target_of url (some selected) =
      returns (record { address = selected.address; family = family_of selected.family; url = url })

  abbrev pub looked_up : Url → Option (List LookupAddress) → Result ResolvedTarget
  looked_up url none =
      throws (record { outcome = retryable_failure; safe_code = "external_http_dns_unavailable" })
  looked_up url (some addresses) = target_of url (select_safe_lookup_address is_ip addresses)

  abbrev pub parsed : ℕ → Option Url → Result ResolvedTarget
  parsed redirect_count none = permanent "external_http_url_invalid"
  parsed redirect_count (some url) =
      if is_forbidden url
      then permanent "external_http_url_forbidden"
      else if ltb 8192 (utf16_length url.href)
      then permanent "external_http_url_too_large"
      else looked_up url (dns_lookup redirect_count url.hostname)

  unfoldable pub resolve_target : ℕ → String → Result ResolvedTarget
  resolve_target redirect_count url_text = parsed redirect_count (parse_url url_text)

abbrev pub failed : ExternalHttpError → Run
failed error = record { sent = []; result = throws error }

abbrev pub after : Sent → Run → Run
after sent run = record run { sent = sent ∷ run.sent }

module _ (parse_url : String → Option Url) (is_ip : String → Address)
    (dns_lookup : ℕ → String → Option (List LookupAddress))
    (resolve_location : String → Url → Option String)
    (request_pinned : ℕ → ResolvedTarget → Request → Result Response) where
  abbrev pub redirected : Option (String → Run) → Request → Response → Option String → Run
  redirected none request response url =
      failed (record { outcome = permanent_failure; safe_code = "external_http_redirect_limit" })
  redirected (some again) request response url =
      if not (request.method == "GET") && not (keeps_method response.status_code)
      then record { sent = []; result = permanent "external_http_redirect_method_forbidden" }
      else elim url [
        | none ↦ record { sent = []; result = permanent "external_http_redirect_invalid" }
        | some url ↦ again url
      ]

  -- What follows a response, given where it moves to; `again` is the transport of the next URL, where
  -- one more redirect may be followed.
  abbrev pub settle :
      Option (String → Run) → ResolvedTarget → Request → Response → Option String → Run
  settle again target request response none = record { sent = []; result = returns response }
  settle again target request response (some location) =
      redirected again request response (resolve_location location target.url)

  abbrev pub answered : Option (String → Run) → ResolvedTarget → Request → Result Response → Run
  answered again target request (throws error) = failed error
  answered again target request (returns response) =
      settle again target request response (moved_to response)

  abbrev pub reached : ℕ → Option (String → Run) → Request → Result ResolvedTarget → Run
  reached redirect_count again request (throws error) = failed error
  reached redirect_count again request (returns target) =
      after (record { target = target; request = request })
        (answered again target request (request_pinned redirect_count target request))

  unfoldable pub round : ℕ → Option (String → Run) → Request → Run
  unfolding resolve_target
  round redirect_count again request =
      reached redirect_count again request
        (resolve_target parse_url is_ip dns_lookup redirect_count request.url)

  -- `transport` with `remaining` redirects left of the three.
  unfoldable pub transport : ℕ → Request → Run
  unfolding round
  transport zero request = round maximum_redirects none request
  transport (suc remaining) request =
      round (maximum_redirects - suc remaining)
        (some (λ url. transport remaining (record request { url = url }))) request
