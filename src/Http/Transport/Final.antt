-- ===== src/Http/Transport/Final.antt =====
-- What `transport` returns.
use mathlib.Core.Path.{subst}
use manychat.Prelude.{
  ℕ, zero, suc, ◌-◌, String, ◌≡◌, inl, inr, not, ◌&&◌, List, Option, none, some, ◌==◌, Bool-cases,
  Option-cases,
}
use manychat.Http.Address.{Address, LookupAddress}
use manychat.Http.Transport.{
  ExternalHttpError, Result, throws, returns, Url, ResolvedTarget, Request, Response, Run,
  maximum_redirects, keeps_method, resolve_target, round, moved_to, transport, answered, redirected,
}
use manychat.Http.Transport.Laws.{Result-cases, returns-eq}

module _ (parse_url : String → Option Url) (is_ip : String → Address)
    (dns_lookup : ℕ → String → Option (List LookupAddress))
    (resolve_location : String → Url → Option String)
    (request_pinned : ℕ → ResolvedTarget → Request → Result Response) where
  -- What a run returns, where it returns a response, does not move to another place.
  data Settled : Result Response → Type 0 where
    error : {e : ExternalHttpError} → Settled (throws e)
    final : {response : Response} → moved_to response ≡ none → Settled (returns response)

  abbrev SettledAgain : Option (String → Run) → Type 0
  SettledAgain none = Unit {0}
  SettledAgain (some f) = (url : String) → Settled (f url).result

  redirected-Settled :
      (again : Option (String → Run)) (request : Request) (response : Response)
      (url : Option String)
      → SettledAgain again
      → Settled
          (redirected parse_url is_ip dns_lookup resolve_location request_pinned again request
            response url).result
  redirected-Settled none request response url h = error
  redirected-Settled (some f) request response none h =
      elim (Bool-cases (not (request.method == "GET") && not (keeps_method response.status_code))) [
        | inl bad ↦ rw bad error
        | inr fine ↦ rw fine error
      ]
  redirected-Settled (some f) request response (some url) h =
      elim (Bool-cases (not (request.method == "GET") && not (keeps_method response.status_code))) [
        | inl bad ↦ rw bad error
        | inr fine ↦ rw fine (h url)
      ]

  answered-Settled :
      (again : Option (String → Run)) (target : ResolvedTarget) (request : Request)
      (result : Result Response)
      → SettledAgain again
      → Settled
          (answered parse_url is_ip dns_lookup resolve_location request_pinned again target request
            result).result
  answered-Settled again target request (throws e) h = error
  answered-Settled again target request (returns response) h =
      elim (Option-cases (moved_to response)) [
        | inl stays ↦ rw stays (final stays)
        | inr (location, moves) ↦
            rw moves
              (redirected-Settled again request response (resolve_location location target.url) h)
      ]

  round-Settled :
      (redirect_count : ℕ) (again : Option (String → Run)) (request : Request)
      → SettledAgain again
      → Settled
          (round parse_url is_ip dns_lookup resolve_location request_pinned redirect_count again
            request).result
  unfolding round
  round-Settled redirect_count again request h =
      elim (Result-cases (resolve_target parse_url is_ip dns_lookup redirect_count request.url)) [
        | inl (e, failure) ↦ rw failure error
        | inr (target, e) ↦
            rw e (
              answered-Settled again target request (request_pinned redirect_count target request)
                h)
      ]

  transport-Settled :
      (remaining : ℕ) (request : Request)
      → Settled
          (transport parse_url is_ip dns_lookup resolve_location request_pinned remaining
            request).result
  unfolding transport
  transport-Settled zero request = round-Settled maximum_redirects none request tt
  transport-Settled (suc remaining) request =
      round-Settled (maximum_redirects - suc remaining) (some _) request
        (λ url. transport-Settled remaining (record request { url = url }))

  moved_to_of_Settled :
      {result : Result Response} (response : Response)
      → Settled result
      → result ≡ returns response
      → moved_to response ≡ none
  moved_to_of_Settled response error h = cc
  moved_to_of_Settled response (final stays) h = subst (λ r. moved_to r ≡ none) (returns-eq h) stays

  -- A response that `transport` returns is no redirect: its status is none of 300 to 399, or it has no
  -- location.
  pub transport-moved_to :
      (remaining : ℕ) (request : Request) (response : Response)
      → (transport parse_url is_ip dns_lookup resolve_location request_pinned remaining
          request).result
        ≡ returns response
      → moved_to response ≡ none
  transport-moved_to remaining request response h =
      moved_to_of_Settled response (transport-Settled remaining request) h
