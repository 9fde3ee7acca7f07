-- ===== src/Media/Validate/Laws.antt =====
-- What holds of a photo and of a sticker that `validateMedia` accepts.
use manychat.Prelude.{
  ℕ, ◌+◌, ◌*◌, ◌≤◌, String, ◌≡◌, ◌⊎◌, refl, ap, inl, inr, ◌||◌, List, Option, none, some, length,
  nat_eq, ltb, arith, Bool-cases,
}
use mathlib.Core.Path.{subst}
use manychat.Media.Dimensions.{ImageDimensions, image_dimensions}
use manychat.Media.Identity.{
  photo, MediaValidationInput, Checked, rejected, accepted, DetectedMedia,
}
use manychat.Media.Structure.{validate_media_identity}
use manychat.Media.Validate.{
  is_rejected, photo_of, validate_telegram_photo, with_dimensions, ValidatedMedia, media_of,
  validate_media,
}

Checked-cases :
    {A : Type 0} (c : Checked A)
    → ((code : String) × (c ≡ rejected code)) ⊎ ((a : A) × (c ≡ accepted a))
Checked-cases (rejected code) = inl (code, refl)
Checked-cases (accepted a) = inr (a, refl)

accepted-eq : {A : Type 0} {a b : A} → accepted a ≡ accepted b → a ≡ b
accepted-eq h = cc

-- The sides of a photo: neither is zero, together they have at most 10000 pixels, and the longer is at
-- most 20 times the shorter.
pub record PhotoSides (d : ImageDimensions) : Type 0 where
  pub width_positive : 1 ≤ d.width
  pub height_positive : 1 ≤ d.height
  pub sum : d.width + d.height ≤ 10000
  pub wide : d.width ≤ 20 * d.height
  pub tall : d.height ≤ 20 * d.width

PhotoSides-of_photo :
    (o : Option ImageDimensions) (d : ImageDimensions)
    → photo_of o ≡ accepted d
    → (o ≡ some d) × PhotoSides d
PhotoSides-of_photo none d h = cc
PhotoSides-of_photo (some e) d h = elim (Bool-cases (nat_eq e.width 0 || nat_eq e.height 0)) [
  | inl empty ↦ cc (rw empty at h)
  | inr sides ↦ elim (Bool-cases (is_rejected e)) [
    | inl bad ↦ cc (rw (sides, bad) at h)
    | inr good ↦
        let same : e ≡ d = accepted-eq (rw (sides, good) at h) in
        (
          ap some same,
          subst PhotoSides same (record {
            width_positive = ground arith;
            height_positive = ground arith;
            sum = ground arith;
            wide = ground arith;
            tall = ground arith;
          }),
        )
  ]
]

-- What a photo that is accepted has: at most 10 * 1024 * 1024 bytes, and the sides that its header says.
pub record PhotoOk (bytes : List ℕ) (media : ValidatedMedia) : Type 0 where
  pub sides : ImageDimensions
  pub reported : media.dimensions ≡ some sides
  pub read : image_dimensions bytes media.mime_type ≡ some sides
  pub size : length bytes ≤ 10 * 1024 * 1024
  pub bounded : PhotoSides sides

photo_parts :
    (bytes : List ℕ) (mime_type : String) (d : ImageDimensions)
    → validate_telegram_photo bytes mime_type ≡ accepted d
    → (length bytes ≤ 10 * 1024 * 1024) × (image_dimensions bytes mime_type ≡ some d) × PhotoSides d
unfolding validate_telegram_photo
photo_parts bytes mime_type d h = elim (Bool-cases (ltb 10485760 (length bytes))) [
  | inl long ↦ cc (rw long at h)
  | inr short ↦
      let (read, sides) =
        PhotoSides-of_photo (image_dimensions bytes mime_type) d (rw short at h) in
      (ground arith, read, sides)
]

PhotoOk-of_media :
    (input : MediaValidationInput) (detected : DetectedMedia) (media : ValidatedMedia)
    → media_of input detected
        (with_dimensions (validate_telegram_photo input.bytes detected.mime_type))
      ≡ accepted media
    → PhotoOk input.bytes media
PhotoOk-of_media input detected media h =
    elim (Checked-cases (validate_telegram_photo input.bytes detected.mime_type)) [
      | inl (code, e) ↦ cc (rw e at h)
      | inr (d, e) ↦
          let (size, read, sides) = photo_parts input.bytes detected.mime_type d e in
          let same = accepted-eq (rw e at h) in
          subst (PhotoOk input.bytes) same
            (record { sides = d; reported = refl; read = read; size = size; bounded = sides })
    ]

module _ (lower : String → String) where
  -- A photo that is accepted has at most 10 * 1024 * 1024 bytes, its reported dimensions are those that
  -- its header is read to have, neither side is zero, the sides add up to at most 10000, and neither is
  -- more than 20 times the other.
  pub validate_media-PhotoOk :
      (input : MediaValidationInput) (media : ValidatedMedia)
      → input.kind ≡ photo
      → validate_media lower input ≡ accepted media
      → PhotoOk input.bytes media
  unfolding validate_media
  validate_media-PhotoOk input media kind h =
      elim (Checked-cases (validate_media_identity lower input)) [
        | inl (code, e) ↦ cc (rw e at h)
        | inr (detected, e) ↦ PhotoOk-of_media input detected media (rw (e, kind) at h)
      ]
