-- ===== src/Media/Dimensions.antt =====
-- The readers of image dimensions (packages/media-core/src/index.ts).
pub mod Ends
use manychat.Prelude.{
  ℕ, zero, suc, ◌+◌, ◌-◌, ◌*◌, ◌/◌, ◌%◌, String, Bool, true, false, ◌&&◌, ◌||◌, not, List, [], ◌∷◌,
  Option, none, some, length, nat_eq, leb, ltb, any, ◌==◌, if◌then◌else◌,
}
use manychat.Media.Bytes.{
  drop, byte_at, has_at, read_big_endian_16, read_little_endian_16, read_little_endian_24,
}

pub record ImageDimensions : Type 0 where
  pub height : ℕ
  pub width : ℕ

-- `view.getUint32(offset)`
abbrev pub read_uint_32 : List ℕ → ℕ → ℕ
read_uint_32 bytes offset =
    read_big_endian_16 bytes offset * 65536 + read_big_endian_16 bytes (offset + 2)

unfoldable pub png_dimensions : List ℕ → Option ImageDimensions
unfolding read_big_endian_16
png_dimensions bytes =
    if ltb (length bytes) 24 || not (has_at bytes 12 (0x49 ∷ 0x48 ∷ 0x44 ∷ 0x52 ∷ []))
    then none
    else some (record { height = read_uint_32 bytes 20; width = read_uint_32 bytes 16 })

abbrev pub jpeg_start_of_frame_markers : List ℕ
jpeg_start_of_frame_markers =
    0xc0 ∷ 0xc1 ∷ 0xc2 ∷ 0xc3 ∷ 0xc5 ∷ 0xc6 ∷ 0xc7 ∷ 0xc9 ∷ 0xca ∷ 0xcb ∷ 0xcd ∷ 0xce ∷ 0xcf ∷ []

-- A marker without a segment.
abbrev pub is_standalone : ℕ → Bool
is_standalone marker =
    nat_eq marker 0xd8
    || nat_eq marker 0xd9
    || nat_eq marker 0x01
    || leb 0xd0 marker && leb marker 0xd7

-- `while (offset < byteLength && bytes[offset] !== 0xff) offset += 1`, on the bytes from the offset on
abbrev pub to_marker : List ℕ → List ℕ
to_marker [] = []
to_marker (b ∷ bytes) = if nat_eq b 0xff then b ∷ bytes else to_marker bytes

-- `while (offset < byteLength && bytes[offset] === 0xff) offset += 1`
abbrev pub past_fill : List ℕ → List ℕ
past_fill [] = []
past_fill (b ∷ bytes) = if nat_eq b 0xff then past_fill bytes else b ∷ bytes

-- What a round of the loop decides: to return, or to go on from the bytes that are left.
pub data Round : Type 0 where
  gives : Option ImageDimensions → Round
  goes_on : List ℕ → Round

abbrev pub frame : List ℕ → ℕ → Option ImageDimensions
frame rest segment_length =
    if ltb segment_length 7
    then none
    else some (record { height = read_big_endian_16 rest 3; width = read_big_endian_16 rest 5 })

abbrev pub segment_round : ℕ → List ℕ → ℕ → Round
segment_round marker rest segment_length =
    if ltb segment_length 2 || ltb (length rest) segment_length
    then gives none
    else if any (λ m. nat_eq m marker) jpeg_start_of_frame_markers
    then gives (frame rest segment_length)
    else goes_on (drop segment_length rest)

-- `rest` are the bytes after the marker.
abbrev pub after_marker : List ℕ → Round
after_marker [] = gives none
after_marker (marker ∷ rest) =
    if is_standalone marker
    then goes_on rest
    else if ltb (length rest) 2
    then gives none
    else segment_round marker rest (read_big_endian_16 rest 0)

unfoldable pub jpeg_round : List ℕ → Round
unfolding read_big_endian_16
jpeg_round [] = gives none
jpeg_round (b ∷ bytes) = after_marker (past_fill (to_marker (b ∷ bytes)))

-- The loop, with fuel for its rounds; `none` means that it ran out.
unfoldable pub jpeg_scan : ℕ → List ℕ → Option (Option ImageDimensions)
jpeg_scan zero bytes = none
jpeg_scan (suc fuel) bytes = elim (jpeg_round bytes) [
  | gives answer ↦ some answer
  | goes_on rest ↦ jpeg_scan fuel rest
]

abbrev flat : Option (Option ImageDimensions) → Option ImageDimensions
flat none = none
flat (some answer) = answer

-- One round more than there are bytes is enough.
unfoldable pub jpeg_dimensions : List ℕ → Option ImageDimensions
unfolding jpeg_scan jpeg_round
jpeg_dimensions bytes =
    if ltb (length bytes) 4 || not (has_at bytes 0 (0xff ∷ 0xd8 ∷ []))
    then none
    else flat (jpeg_scan (suc (length bytes)) (drop 2 bytes))

-- The chunks `VP8X`, `VP8 ` and `VP8L`. The shifted parts of the last have no bit in common, so their
-- sum is their union.
unfoldable pub webp_dimensions : List ℕ → Option ImageDimensions
unfolding read_little_endian_16 read_little_endian_24 byte_at
webp_dimensions bytes =
    if ltb (length bytes) 30
    then none
    else if has_at bytes 12 (0x56 ∷ 0x50 ∷ 0x38 ∷ 0x58 ∷ [])
    then some (record {
      height = read_little_endian_24 bytes 27 + 1;
      width = read_little_endian_24 bytes 24 + 1;
    })
    else if has_at bytes 12 (0x56 ∷ 0x50 ∷ 0x38 ∷ 0x20 ∷ [])
    then (if has_at bytes 23 (0x9d ∷ 0x01 ∷ 0x2a ∷ [])
        then some (record {
          height = read_little_endian_16 bytes 28 % 16384;
          width = read_little_endian_16 bytes 26 % 16384;
        })
        else none)
    else if has_at bytes 12 (0x56 ∷ 0x50 ∷ 0x38 ∷ 0x4c ∷ [])
    then (if nat_eq (byte_at bytes 20) 0x2f
        then some (record {
          height =
              1 + (byte_at bytes 22 / 64 + byte_at bytes 23 * 4 + byte_at bytes 24 % 16 * 1024);
          width = 1 + byte_at bytes 21 + byte_at bytes 22 % 64 * 256;
        })
        else none)
    else none

unfoldable pub image_dimensions : List ℕ → String → Option ImageDimensions
unfolding png_dimensions jpeg_dimensions webp_dimensions
image_dimensions bytes mime_type =
    if mime_type == "image/png"
    then png_dimensions bytes
    else if mime_type == "image/jpeg"
    then jpeg_dimensions bytes
    else if mime_type == "image/webp"
    then webp_dimensions bytes
    else none
