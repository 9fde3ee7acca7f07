-- ===== src/Media/Validate.antt =====
-- `validateTelegramPhoto` and `validateMedia` of packages/media-core/src/index.ts.
pub mod Laws
mod Tests
use manychat.Prelude.{
  ℕ, ◌+◌, ◌*◌, String, Bool, true, false, ◌&&◌, ◌||◌, not, List, [], ◌∷◌, Option, none, some,
  length, nat_eq, leb, ltb, ◌==◌, if◌then◌else◌,
}
use manychat.Media.Dimensions.{ImageDimensions, image_dimensions, webp_dimensions}
use manychat.Media.Identity.{
  MediaKind, animation, audio, document, photo, sticker, video, video_note, voice,
  MediaValidationInput, Checked, rejected, accepted, DetectedMedia,
}
use manychat.Media.Structure.{validate_media_identity, validate_document_structure}

abbrev pub telegram_photo_max_bytes : ℕ
telegram_photo_max_bytes = 10 * 1024 * 1024

abbrev pub telegram_photo_max_dimension_sum : ℕ
telegram_photo_max_dimension_sum = 10000

abbrev pub telegram_photo_max_aspect_ratio : ℕ
telegram_photo_max_aspect_ratio = 20

abbrev pub telegram_static_sticker_max_bytes : ℕ
telegram_static_sticker_max_bytes = 512 * 1024

abbrev pub telegram_animated_sticker_max_bytes : ℕ
telegram_animated_sticker_max_bytes = 64 * 1024

abbrev pub telegram_video_sticker_max_bytes : ℕ
telegram_video_sticker_max_bytes = 256 * 1024

-- `Math.max(w, h)` and `Math.min(w, h)`
abbrev pub longer : ImageDimensions → ℕ
longer d = if leb d.width d.height then d.height else d.width

abbrev pub shorter : ImageDimensions → ℕ
shorter d = if leb d.width d.height then d.width else d.height

-- The quotient of the sides is above 20 exactly when the longer side is above 20 times the shorter one,
-- also as doubles, since the sides are below 2^32.
abbrev pub is_rejected : ImageDimensions → Bool
is_rejected d =
    ltb telegram_photo_max_dimension_sum (d.width + d.height)
    || ltb (telegram_photo_max_aspect_ratio * shorter d) (longer d)

abbrev pub photo_of : Option ImageDimensions → Checked ImageDimensions
photo_of none = rejected "media_photo_dimensions_unreadable"
photo_of (some d) =
    if nat_eq d.width 0 || nat_eq d.height 0
    then rejected "media_photo_dimensions_unreadable"
    else if is_rejected d
    then rejected "media_photo_dimensions_rejected"
    else accepted d

unfoldable pub validate_telegram_photo : List ℕ → String → Checked ImageDimensions
validate_telegram_photo bytes mime_type =
    if ltb telegram_photo_max_bytes (length bytes)
    then rejected "media_photo_size_exceeded"
    else photo_of (image_dimensions bytes mime_type)

abbrev pub is_large_sticker : String → ℕ → Bool
is_large_sticker mime_type size =
    mime_type == "image/webp" && ltb telegram_static_sticker_max_bytes size
    || mime_type == "application/x-tgsticker" && ltb telegram_animated_sticker_max_bytes size
    || mime_type == "video/webm" && ltb telegram_video_sticker_max_bytes size

abbrev pub sticker_side : Option ImageDimensions → Checked (Option ImageDimensions)
sticker_side none = rejected "media_sticker_dimensions_rejected"
sticker_side (some d) =
    if not (nat_eq (longer d) 512) || ltb (shorter d) 1
    then rejected "media_sticker_dimensions_rejected"
    else accepted (some d)

unfoldable pub validate_sticker : List ℕ → String → Checked (Option ImageDimensions)
validate_sticker bytes mime_type =
    if is_large_sticker mime_type (length bytes)
    then rejected "media_sticker_size_exceeded"
    else if mime_type == "image/webp"
    then sticker_side (webp_dimensions bytes)
    else accepted none

abbrev pub document_check : Option String → Checked (Option ImageDimensions)
document_check none = accepted none
document_check (some code) = rejected code

abbrev pub with_dimensions : Checked ImageDimensions → Checked (Option ImageDimensions)
with_dimensions (rejected code) = rejected code
with_dimensions (accepted d) = accepted (some d)

-- The checks of a kind, and the dimensions that it leaves.
abbrev pub kind_check : MediaKind → List ℕ → String → Checked (Option ImageDimensions)
kind_check document bytes mime_type = document_check (validate_document_structure bytes mime_type)
kind_check photo bytes mime_type = with_dimensions (validate_telegram_photo bytes mime_type)
kind_check sticker bytes mime_type = validate_sticker bytes mime_type
kind_check _ bytes mime_type = accepted none

pub record ValidatedMedia : Type 0 where
  pub extension : String
  pub mime_type : String
  pub size_bytes : ℕ
  pub dimensions : Option ImageDimensions

abbrev pub media_of :
    MediaValidationInput → DetectedMedia → Checked (Option ImageDimensions) → Checked ValidatedMedia
media_of input detected (rejected code) = rejected code
media_of input detected (accepted dimensions) = accepted (record {
  extension = detected.extension;
  mime_type = detected.mime_type;
  size_bytes = length input.bytes;
  dimensions = dimensions;
})

abbrev pub checked_as : MediaValidationInput → Checked DetectedMedia → Checked ValidatedMedia
checked_as input (rejected code) = rejected code
checked_as input (accepted detected) =
    media_of input detected (kind_check input.kind input.bytes detected.mime_type)

module _ (lower : String → String) where
  unfoldable pub validate_media : MediaValidationInput → Checked ValidatedMedia
  unfolding validate_media_identity validate_telegram_photo validate_sticker
  validate_media input = checked_as input (validate_media_identity lower input)
