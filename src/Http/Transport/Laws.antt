-- ===== src/Http/Transport/Laws.antt =====
-- Where the requests of `transport` go, how many there are, and what a response is returned for.
use manychat.Prelude.{
  utf16_length, ◌⊎◌, ℕ, ◌≤◌, String, ◌≡◌, refl, inl, inr, false, List, Option, none, some, ltb,
  arith, Bool-cases, Option-cases,
}
use manychat.Http.Address.{Address, LookupAddress, is_blocked, select_safe_lookup_address}
use manychat.Http.Address.Laws.{not_blocked_of_select}
use manychat.Http.Transport.{
  ExternalHttpError, Result, throws, returns, Url, ResolvedTarget, is_forbidden, target_of, parsed,
  resolve_target,
}

pub Result-cases :
    {A : Type 0} (r : Result A)
    → ((e : ExternalHttpError) × (r ≡ throws e)) ⊎ ((a : A) × (r ≡ returns a))
Result-cases (throws e) = inl (e, refl)
Result-cases (returns a) = inr (a, refl)

module _ (is_ip : String → Address) where
  -- The address is not blocked, and the URL is one of https, without credentials, and not too long.
  pub record Safe (target : ResolvedTarget) : Type 0 where
    pub public : is_blocked (is_ip target.address) ≡ false
    pub allowed : is_forbidden target.url ≡ false
    pub short : utf16_length target.url.href ≤ 8192

pub returns-eq : {A : Type 0} {a b : A} → returns a ≡ returns b → a ≡ b
returns-eq h = cc

module _ (parse_url : String → Option Url) (is_ip : String → Address)
    (dns_lookup : ℕ → String → Option (List LookupAddress)) where
  target_of-Safe :
      (url : Url) (addresses : List LookupAddress) (target : ResolvedTarget)
      → is_forbidden url ≡ false
      → ltb 8192 (utf16_length url.href) ≡ false
      → target_of parse_url is_ip dns_lookup url (select_safe_lookup_address is_ip addresses)
        ≡ returns target
      → Safe is_ip target
  target_of-Safe url addresses target fine short h =
      elim (Option-cases (select_safe_lookup_address is_ip addresses)) [
        | inl none_left ↦ cc (none_left, h)
        | inr (entry, e) ↦
            let same = returns-eq (rw e at h) in
            rw (← same) (record {
              public = not_blocked_of_select is_ip addresses entry e;
              allowed = fine;
              short = ground arith;
            })
      ]

  parsed-Safe :
      (redirect_count : ℕ) (url : Option Url) (target : ResolvedTarget)
      → parsed parse_url is_ip dns_lookup redirect_count url ≡ returns target
      → Safe is_ip target
  parsed-Safe redirect_count none target h = cc
  parsed-Safe redirect_count (some url) target h = elim (Bool-cases (is_forbidden url)) [
    | inl bad ↦ cc (rw bad at h)
    | inr fine ↦ elim (Bool-cases (ltb 8192 (utf16_length url.href))) [
      | inl long ↦ cc (rw (fine, long) at h)
      | inr short ↦ elim (Option-cases (dns_lookup redirect_count url.hostname)) [
        | inl down ↦ cc (rw (fine, short, down) at h)
        | inr (addresses, answer) ↦
            target_of-Safe url addresses target fine short (rw (fine, short, answer) at h)
      ]
    ]
  ]

  -- A URL that resolves does so to an address that is not blocked.
  pub resolve_target-Safe :
      (redirect_count : ℕ) (url : String) (target : ResolvedTarget)
      → resolve_target parse_url is_ip dns_lookup redirect_count url ≡ returns target
      → Safe is_ip target
  unfolding resolve_target
  resolve_target-Safe redirect_count url target h =
      parsed-Safe redirect_count (parse_url url) target h
