-- ===== src/Http/Address/Laws.antt =====
-- What the address policy lets pass, by ranges of addresses.
use manychat.Prelude.{
  inl, inr, Bool-cases, eq_of_some-eq-some, ℕ, ◌+◌, ◌-◌, ◌*◌, ◌^◌, ◌<◌, String, ◌≡◌, ◌↔◌, ◌⊎◌, true,
  false, List, [], ◌∷◌, Option, some, none, All, arith,
}
use manychat.Http.Address.{
  LookupAddress, select_safe_lookup_address, Address, ipv4, ipv6, dotted, grouped, is_blocked,
}

-- The bits are below the first address of a range or above its last.
abbrev pub Outside : ℕ → ℕ × ℕ → Type 0
Outside bits (first, last) = (bits < first) ⊎ (last < bits)

-- The ranges of IPv4 that no request may reach, by first and last address.
abbrev pub special_ipv4 : List (ℕ × ℕ)
special_ipv4 =
    (dotted 0 0 0 0, dotted 0 255 255 255)
    ∷ (dotted 10 0 0 0, dotted 10 255 255 255)
    ∷ (dotted 100 64 0 0, dotted 100 127 255 255)
    ∷ (dotted 127 0 0 0, dotted 127 255 255 255)
    ∷ (dotted 169 254 0 0, dotted 169 254 255 255)
    ∷ (dotted 172 16 0 0, dotted 172 31 255 255)
    ∷ (dotted 192 0 0 0, dotted 192 0 0 255)
    ∷ (dotted 192 0 2 0, dotted 192 0 2 255)
    ∷ (dotted 192 168 0 0, dotted 192 168 255 255)
    ∷ (dotted 198 18 0 0, dotted 198 19 255 255)
    ∷ (dotted 198 51 100 0, dotted 198 51 100 255)
    ∷ (dotted 203 0 113 0, dotted 203 0 113 255)
    ∷ (dotted 224 0 0 0, dotted 255 255 255 255)
    ∷ []

-- An IPv4 address passes exactly when it lies outside each of the ranges of `special_ipv4`.
pub is_blocked-ipv4 :
    (bits : ℕ) → bits < 2 ^ 32 → (is_blocked (ipv4 bits) ≡ false) ↔ All (Outside bits) special_ipv4
unfolding is_blocked
is_blocked-ipv4 bits bound = ground arith

-- The ranges of IPv6 that no request may reach.
abbrev pub special_ipv6 : List (ℕ × ℕ)
special_ipv6 =
    (0, 1)
    ∷ (0xffff * 2 ^ 32, 0xffff * 2 ^ 32 + (2 ^ 32 - 1))
    ∷ (grouped 0x64 0xff9b, grouped 0x64 0xff9b + (2 ^ 32 - 1))
    ∷ (grouped 0x100 0, grouped 0x100 0 + (2 ^ 64 - 1))
    ∷ (grouped 0x2001 0xdb8, grouped 0x2001 0xdb8 + (2 ^ 96 - 1))
    ∷ (grouped 0xfc00 0, grouped 0xfdff 0xffff + (2 ^ 96 - 1))
    ∷ (grouped 0xfe80 0, grouped 0xfebf 0xffff + (2 ^ 96 - 1))
    ∷ (grouped 0xff00 0, grouped 0xffff 0xffff + (2 ^ 96 - 1))
    ∷ []

-- An IPv6 address passes exactly when it lies outside each of the ranges of `special_ipv6`; among them
-- are the loopback address, the addresses that map IPv4, and the local ones.
pub is_blocked-ipv6 :
    (bits : ℕ) → bits < 2 ^ 128 → (is_blocked (ipv6 bits) ≡ false) ↔ All (Outside bits) special_ipv6
unfolding is_blocked
is_blocked-ipv6 bits bound = ground arith

module _ (is_ip : String → Address) where
  abbrev pub Blocked : LookupAddress → Type 0
  Blocked entry = is_blocked (is_ip entry.address) ≡ true

  -- The answer of `selectSafeLookupAddress`: nothing where every entry is blocked, and otherwise the
  -- first entry that is not.
  pub data Selects : List LookupAddress → Option LookupAddress → Type 0 where
    nothing : Selects [] none
    chosen :
        {entry : LookupAddress} {entries : List LookupAddress}
        → is_blocked (is_ip entry.address) ≡ false
        → Selects (entry ∷ entries) (some entry)
    passed_over :
        {entry : LookupAddress} {entries : List LookupAddress} {answer : Option LookupAddress}
        → Blocked entry
        → Selects entries answer
        → Selects (entry ∷ entries) answer

  pub select_safe_lookup_address-Selects :
      (entries : List LookupAddress) → Selects entries (select_safe_lookup_address is_ip entries)
  unfolding select_safe_lookup_address
  select_safe_lookup_address-Selects [] = nothing
  select_safe_lookup_address-Selects (entry ∷ entries) =
      elim (Bool-cases (is_blocked (is_ip entry.address))) [
        | inl bad ↦ rw bad (passed_over bad (select_safe_lookup_address-Selects entries))
        | inr good ↦ rw good (chosen good)
      ]

  -- An address that is selected is not blocked.
  pub not_blocked_of_select :
      (entries : List LookupAddress) (entry : LookupAddress)
      → select_safe_lookup_address is_ip entries ≡ some entry
      → is_blocked (is_ip entry.address) ≡ false
  unfolding select_safe_lookup_address
  not_blocked_of_select [] entry h = cc
  not_blocked_of_select (first ∷ entries) entry h =
      elim (Bool-cases (is_blocked (is_ip first.address))) [
        | inl bad ↦ not_blocked_of_select entries entry (rw bad at h)
        | inr good ↦ let same : first ≡ entry = eq_of_some-eq-some (rw good at h) in rw same at good
      ]
