-- ===== src/Http/Transport/Rounds.antt =====
-- The requests that `transport` sends, over all its rounds.
use manychat.Prelude.{
  ℕ, zero, suc, ◌-◌, ◌≤◌, String, ◌≡◌, refl, inl, inr, not, ◌&&◌, List, [], Option, none, some,
  ◌==◌, arith, All, length, Bool-cases,
}
use manychat.Http.Address.{Address, LookupAddress}
use manychat.Http.Transport.{
  Result, throws, returns, Url, ResolvedTarget, Request, Response, Sent, Run, maximum_redirects,
  keeps_method, resolve_target, round, moved_to, transport, answered, settle, redirected,
}
use manychat.Http.Transport.Laws.{Safe, Result-cases, resolve_target-Safe}

-- Of the requests that a run sends: each goes to a safe target, there are at most `bound`, and each has
-- the method, the headers and the body of `request`.
pub record Kept (is_ip : String → Address) (request : Request) (bound : ℕ) (run : Run)
    : Type 0 where
  pub targets : All (λ (sent : Sent). Safe is_ip sent.target) run.sent
  pub few : length run.sent ≤ bound
  pub unchanged :
      All
        (λ (sent : Sent).
          (sent.request.method ≡ request.method)
          × (sent.request.headers ≡ request.headers)
          × (sent.request.body ≡ request.body))
        run.sent

module _ (parse_url : String → Option Url) (is_ip : String → Address)
    (dns_lookup : ℕ → String → Option (List LookupAddress))
    (resolve_location : String → Url → Option String)
    (request_pinned : ℕ → ResolvedTarget → Request → Result Response) where
  -- What is known of the transport of the next URL.
  abbrev Again : Request → ℕ → Option (String → Run) → Type 0
  Again request bound none = Unit {0}
  Again request bound (some f) = (url : String) → Kept is_ip request bound (f url)

  nothing_sent :
      (request : Request) (bound : ℕ) (result : Result Response)
      → Kept is_ip request bound (record { sent = []; result = result })
  nothing_sent request bound result = record { targets = tt; few = omega arith; unchanged = tt }

  redirected-Kept :
      (again : Option (String → Run)) (request : Request) (response : Response) (bound : ℕ)
      (url : Option String)
      → Again request bound again
      → Kept is_ip request bound (
          redirected parse_url is_ip dns_lookup resolve_location request_pinned again request
            response url)
  redirected-Kept none request response bound url h = nothing_sent request bound _
  redirected-Kept (some f) request response bound none h =
      elim (Bool-cases (not (request.method == "GET") && not (keeps_method response.status_code))) [
        | inl bad ↦ rw bad (nothing_sent request bound _)
        | inr fine ↦ rw fine (nothing_sent request bound _)
      ]
  redirected-Kept (some f) request response bound (some url) h =
      elim (Bool-cases (not (request.method == "GET") && not (keeps_method response.status_code))) [
        | inl bad ↦ rw bad (nothing_sent request bound _)
        | inr fine ↦ rw fine (h url)
      ]

  settle-Kept :
      (again : Option (String → Run)) (target : ResolvedTarget) (request : Request)
      (response : Response) (bound : ℕ) (moves : Option String)
      → Again request bound again
      → Kept is_ip request bound (
          settle parse_url is_ip dns_lookup resolve_location request_pinned again target request
            response moves)
  settle-Kept again target request response bound none h = nothing_sent request bound _
  settle-Kept again target request response bound (some location) h =
      redirected-Kept again request response bound (resolve_location location target.url) h

  answered-Kept :
      (again : Option (String → Run)) (target : ResolvedTarget) (request : Request) (bound : ℕ)
      (result : Result Response)
      → Again request bound again
      → Kept is_ip request bound (
          answered parse_url is_ip dns_lookup resolve_location request_pinned again target request
            result)
  answered-Kept again target request bound (throws error) h = nothing_sent request bound _
  answered-Kept again target request bound (returns response) h =
      settle-Kept again target request response bound (moved_to response) h

  round-Kept :
      (redirect_count : ℕ) (again : Option (String → Run)) (request : Request) (bound : ℕ)
      → Again request bound again
      → Kept is_ip request (suc bound) (
          round parse_url is_ip dns_lookup resolve_location request_pinned redirect_count again
            request)
  unfolding round
  round-Kept redirect_count again request bound h =
      elim (Result-cases (resolve_target parse_url is_ip dns_lookup redirect_count request.url)) [
        | inl (error, e) ↦ rw e (nothing_sent request (suc bound) _)
        | inr (target, e) ↦
            let later =
              answered-Kept again target request bound
                (request_pinned redirect_count target request) h in
            rw e (record {
              targets = (
                resolve_target-Safe parse_url is_ip dns_lookup redirect_count request.url target e,
                later.targets,
              );
              few = omega (arith, later.few);
              unchanged = ((refl, refl, refl), later.unchanged);
            })
      ]

  Kept-url :
      (url : String) (request : Request) (bound : ℕ) {run : Run}
      → Kept is_ip (record request { url = url }) bound run
      → Kept is_ip request bound run
  Kept-url url request bound k = record {
    targets = k.targets;
    few = k.few;
    unchanged = k.unchanged;
  }

  -- Every request that `transport` sends goes to an address that is not blocked, by https, without
  -- credentials in the URL; with n redirects left there are at most n + 1 of them, and each has the
  -- method, the headers and the body of the first, whatever the name service and the servers answer.
  pub transport-Kept :
      (remaining : ℕ) (request : Request)
      → Kept is_ip request
          (suc remaining)
          (transport parse_url is_ip dns_lookup resolve_location request_pinned remaining request)
  unfolding transport
  transport-Kept zero request = round-Kept maximum_redirects none request 0 tt
  transport-Kept (suc remaining) request =
      round-Kept (maximum_redirects - suc remaining) (some _) request (suc remaining) (λ url.
        Kept-url url request (suc remaining)
          (transport-Kept remaining (record request { url = url })))
