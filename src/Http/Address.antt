-- ===== src/Http/Address.antt =====
-- The address policy of packages/automation-http/src/index.ts: `isBlocked` and
-- `selectSafeLookupAddress`. An address is the number that its bits spell; `BlockList` compares the
-- first `prefix` of them with those of the network. `is_ip` stands for the reading of an address text by
-- node:net.
pub mod Laws
use manychat.Prelude.{
  ℕ, ◌+◌, ◌-◌, ◌*◌, ◌/◌, ◌^◌, String, Bool, true, not, List, [], ◌∷◌, Option, find, any, nat_eq,
}

pub data Address : Type 0 where
  ipv4 ipv6 : (bits : ℕ) → Address
  not_an_address : Address

-- `a.b.c.d`
abbrev pub dotted : ℕ → ℕ → ℕ → ℕ → ℕ
dotted a b c d = ((a * 256 + b) * 256 + c) * 256 + d

-- The address with the groups `a` and `b` in front of zeros.
abbrev pub grouped : ℕ → ℕ → ℕ
grouped a b = (a * 65536 + b) * 2 ^ 96

abbrev pub in_subnet : ℕ → ℕ → ℕ × ℕ → Bool
in_subnet width bits (network, prefix) =
    nat_eq (bits / 2 ^ (width - prefix)) (network / 2 ^ (width - prefix))

abbrev pub blocked_ipv4_addresses : List (ℕ × ℕ)
blocked_ipv4_addresses =
    (dotted 0 0 0 0, 8)
    ∷ (dotted 10 0 0 0, 8)
    ∷ (dotted 100 64 0 0, 10)
    ∷ (dotted 127 0 0 0, 8)
    ∷ (dotted 169 254 0 0, 16)
    ∷ (dotted 172 16 0 0, 12)
    ∷ (dotted 192 0 0 0, 24)
    ∷ (dotted 192 0 2 0, 24)
    ∷ (dotted 192 168 0 0, 16)
    ∷ (dotted 198 18 0 0, 15)
    ∷ (dotted 198 51 100 0, 24)
    ∷ (dotted 203 0 113 0, 24)
    ∷ (dotted 224 0 0 0, 4)
    ∷ (dotted 240 0 0 0, 4)
    ∷ []

abbrev pub blocked_ipv6_addresses : List (ℕ × ℕ)
blocked_ipv6_addresses =
    (0, 128)
    ∷ (1, 128)
    ∷ (0xffff * 2 ^ 32, 96)
    ∷ (grouped 0x64 0xff9b, 96)
    ∷ (grouped 0x100 0, 64)
    ∷ (grouped 0x2001 0xdb8, 32)
    ∷ (grouped 0xfc00 0, 7)
    ∷ (grouped 0xfe80 0, 10)
    ∷ (grouped 0xff00 0, 8)
    ∷ []

unfoldable pub is_blocked : Address → Bool
is_blocked (ipv4 bits) = any (in_subnet 32 bits) blocked_ipv4_addresses
is_blocked (ipv6 bits) = any (in_subnet 128 bits) blocked_ipv6_addresses
is_blocked not_an_address = true

-- An entry of `LookupAddress[]`.
pub record LookupAddress : Type 0 where
  pub address : String
  pub family : ℕ

module _ (is_ip : String → Address) where
  unfoldable pub select_safe_lookup_address : List LookupAddress → Option LookupAddress
  select_safe_lookup_address addresses =
      find (λ entry. not (is_blocked (is_ip entry.address))) addresses
