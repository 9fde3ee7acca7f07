-- ===== src/Media/Validate/Tests.antt =====
-- Runs of the media checks, and their theorems at inputs that meet their hypotheses.
use manychat.Prelude.{ℕ, String, ◌≡◌, ◌≢◌, refl, List, [], ◌∷◌, none, some, arith, split}
use manychat.Media.Bytes.{byte_at, read_big_endian_16, read_little_endian_16, read_little_endian_24}
use manychat.Media.Dimensions.{
  jpeg_round, jpeg_scan, jpeg_dimensions, png_dimensions, webp_dimensions, image_dimensions,
}
use manychat.Media.Dimensions.Ends.{jpeg_scan-ends}
use manychat.Media.Identity.{photo, MediaValidationInput, rejected, accepted}
use manychat.Media.Structure.{validate_media_identity, validate_document_structure, is_end_record}
use manychat.Media.Validate.{
  validate_telegram_photo, validate_sticker, ValidatedMedia, validate_media,
}
use manychat.Media.Validate.Laws.{PhotoOk, validate_media-PhotoOk}

-- Unfolds what the runs need.
media : Unit {0}
unfolding byte_at read_big_endian_16 read_little_endian_16 read_little_endian_24 jpeg_round
    jpeg_scan jpeg_dimensions png_dimensions webp_dimensions image_dimensions
    validate_media_identity validate_document_structure is_end_record validate_telegram_photo
    validate_sticker validate_media split
media = tt

-- A JPEG header of 200 by 100 pixels.
abbrev header_bytes : List ℕ
header_bytes = 0xff ∷ 0xd8 ∷ 0xff ∷ 0xc0 ∷ 0 ∷ 8 ∷ 8 ∷ 0 ∷ 100 ∷ 0 ∷ 200 ∷ 3 ∷ []

abbrev picture : MediaValidationInput
picture = record {
  bytes = header_bytes;
  declared_mime_type = some "image/jpeg";
  filename = some "cat.jpeg";
  kind = photo;
  maximum_bytes = 1000;
}

abbrev checked_picture : ValidatedMedia
checked_picture = record {
  extension = "jpg";
  mime_type = "image/jpeg";
  size_bytes = 12;
  dimensions = some (record { height = 100; width = 200 });
}

abbrev same : String → String
same s = s

picture_accepted : validate_media same picture ≡ accepted checked_picture
unfolding media
picture_accepted = refl

renamed_rejected :
    validate_media same (record picture { filename = some "cat.png" })
    ≡ rejected "media_extension_mismatch"
unfolding media
renamed_rejected = refl

validate_media-PhotoOk_example : PhotoOk header_bytes checked_picture
validate_media-PhotoOk_example =
    validate_media-PhotoOk same picture checked_picture refl picture_accepted

jpeg_scan-ends_example : jpeg_scan 13 header_bytes ≢ none
jpeg_scan-ends_example = jpeg_scan-ends 13 header_bytes (omega arith)
