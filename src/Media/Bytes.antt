-- ===== src/Media/Bytes.antt =====
-- Reading bytes, and searching for sequences of bytes (packages/media-core/src/index.ts).
use manychat.Prelude.{
  ℕ, zero, suc, ◌+◌, ◌*◌, Bool, true, false, ◌&&◌, ◌||◌, List, [], ◌∷◌, length, nat_eq, leb,
}

-- `bytes.slice(n)`
abbrev pub drop : ℕ → List ℕ → List ℕ
drop zero bytes = bytes
drop (suc n) [] = []
drop (suc n) (b ∷ bytes) = drop n bytes

-- `bytes[0]` and `bytes[offset]`, which the code reads where there is a byte.
abbrev pub first_byte : List ℕ → ℕ
first_byte [] = 0
first_byte (b ∷ bytes) = b

unfoldable pub byte_at : List ℕ → ℕ → ℕ
byte_at bytes offset = first_byte (drop offset bytes)

-- `sequence.every((value, index) => bytes[index] === value)`
abbrev pub begins_with : List ℕ → List ℕ → Bool
begins_with [] bytes = true
begins_with (v ∷ sequence) [] = false
begins_with (v ∷ sequence) (b ∷ bytes) = nat_eq b v && begins_with sequence bytes

-- The same from an offset on.
abbrev pub has_at : List ℕ → ℕ → List ℕ → Bool
has_at bytes offset sequence = begins_with sequence (drop offset bytes)

-- Some suffix passes the test. A loop down the offsets that stops at the first hit answers the same.
abbrev pub some_suffix : (List ℕ → Bool) → List ℕ → Bool
some_suffix test [] = test []
some_suffix test (b ∷ bytes) = test (b ∷ bytes) || some_suffix test bytes

-- `Buffer.from(bytes).includes(sequence)`
abbrev pub contains : List ℕ → List ℕ → Bool
contains bytes sequence = some_suffix (begins_with sequence) bytes

-- `containsSequence(bytes, sequence, byteLength - last)` stopped at 0: among the last bytes.
abbrev pub contains_in_last : ℕ → List ℕ → List ℕ → Bool
contains_in_last last bytes sequence =
    some_suffix (λ s. leb (length s) last && begins_with sequence s) bytes

unfoldable pub read_big_endian_16 : List ℕ → ℕ → ℕ
unfolding byte_at
read_big_endian_16 bytes offset = byte_at bytes offset * 256 + byte_at bytes (offset + 1)

unfoldable pub read_little_endian_16 : List ℕ → ℕ → ℕ
unfolding byte_at
read_little_endian_16 bytes offset = byte_at bytes offset + byte_at bytes (offset + 1) * 256

unfoldable pub read_little_endian_24 : List ℕ → ℕ → ℕ
unfolding byte_at
read_little_endian_24 bytes offset =
    byte_at bytes offset + byte_at bytes (offset + 1) * 256 + byte_at bytes (offset + 2) * 65536
