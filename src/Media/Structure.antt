-- ===== src/Media/Structure.antt =====
-- `validateMediaIdentity` and `validateDocumentStructure` of packages/media-core/src/index.ts.
use manychat.Prelude.{
  ℕ, ◌+◌, String, Bool, true, ◌&&◌, ◌||◌, not, List, [], ◌∷◌, Option, none, some, find, has, length,
  nat_eq, leb, ltb, split, ◌==◌, if◌then◌else◌,
}
use manychat.Media.Bytes.{
  begins_with, some_suffix, contains, contains_in_last, read_little_endian_16,
}
use manychat.Media.Identity.{
  MediaKind, kind_name, MediaValidationInput, Checked, rejected, accepted, Signature, signatures,
  DetectedMedia, OpenXml, open_xml_documents,
}

abbrev last_of : List String → String
last_of [] = ""
last_of (x ∷ []) = x
last_of (x ∷ y ∷ xs) = last_of (y ∷ xs)

abbrev is_kind : MediaKind → String → Bool
is_kind kind name = kind_name kind == name

-- `[Content_Types].xml`
abbrev content_types_name : List ℕ
content_types_name =
    0x5b ∷ 0x43 ∷ 0x6f ∷ 0x6e ∷ 0x74 ∷ 0x65 ∷ 0x6e ∷ 0x74 ∷ 0x5f ∷ 0x54 ∷ 0x79 ∷ 0x70 ∷ 0x65 ∷ 0x73
    ∷ 0x5d ∷ 0x2e ∷ 0x78 ∷ 0x6d ∷ 0x6c ∷ []

-- A name that is there and not empty counts as true.
abbrev given : Option String → Option String
given none = none
given (some s) = if s == "" then none else some s

module _ (lower : String → String) where
  -- `input.filename?.split('.').pop()?.toLowerCase()` where it counts as true
  abbrev pub filename_extension : MediaValidationInput → Option String
  filename_extension input = elim input.filename [
    | none ↦ none
    | some name ↦ given (some (lower (last_of (split b'.' name))))
  ]

abbrev pub open_xml_of : MediaValidationInput → Signature → Option String → Option OpenXml
open_xml_of input signature none = none
open_xml_of input signature (some extension) =
    if is_kind input.kind "DOCUMENT" && signature.extension == "zip"
    then open_xml_documents extension
    else none

abbrev pub extension_or : Option String → String → String
extension_or none fallback = fallback
extension_or (some extension) fallback = extension

abbrev pub open_xml_type_ok : OpenXml → Option String → Bool
open_xml_type_ok format none = true
open_xml_type_ok format (some declared) = has declared (
    format.mime_type ∷ "application/octet-stream" ∷ "application/zip"
    ∷ "application/x-zip-compressed" ∷ [])

abbrev pub declared_type_ok : MediaValidationInput → Signature → Option String → Bool
declared_type_ok input signature none = true
declared_type_ok input signature (some declared) =
    declared == signature.mime_type
    || is_kind input.kind "STICKER" && declared == "application/octet-stream"
    || signature.mime_type == "application/x-tgsticker"
      && has declared ("application/gzip" ∷ "application/x-gzip" ∷ [])

abbrev pub extension_ok : Signature → Option String → Bool
extension_ok signature none = true
extension_ok signature (some extension) =
    signature.extension == "jpg" && extension == "jpeg"
    || signature.extension == "m4a" && extension == "mp4"
    || extension == signature.extension

abbrev pub open_xml_identity :
    MediaValidationInput → Signature → Option String → OpenXml → Checked DetectedMedia
open_xml_identity input signature extension format =
    if not (contains input.bytes content_types_name) || not (contains input.bytes format.folder)
    then rejected "media_openxml_structure_invalid"
    else if not (open_xml_type_ok format (given input.declared_mime_type))
    then rejected "media_mime_mismatch"
    else accepted (record {
      extension = extension_or extension signature.extension;
      mime_type = format.mime_type;
    })

abbrev pub plain_identity : MediaValidationInput → Signature → Option String → Checked DetectedMedia
plain_identity input signature extension =
    if not (declared_type_ok input signature (given input.declared_mime_type))
    then rejected "media_mime_mismatch"
    else if not (extension_ok signature extension)
    then rejected "media_extension_mismatch"
    else accepted (record { extension = signature.extension; mime_type = signature.mime_type })

abbrev pub identity_as :
    MediaValidationInput → Option String → Signature → Option OpenXml → Checked DetectedMedia
identity_as input extension signature none = plain_identity input signature extension
identity_as input extension signature (some format) =
    open_xml_identity input signature extension format

abbrev pub identity_of :
    MediaValidationInput → Option String → Option Signature → Checked DetectedMedia
identity_of input extension none = rejected "media_type_rejected"
identity_of input extension (some signature) =
    identity_as input extension signature (open_xml_of input signature extension)

module _ (lower : String → String) where
  unfoldable pub validate_media_identity : MediaValidationInput → Checked DetectedMedia
  validate_media_identity input =
      if nat_eq (length input.bytes) 0
      then rejected "media_empty"
      else if ltb input.maximum_bytes (length input.bytes)
      then rejected "media_size_exceeded"
      else identity_of input (filename_extension lower input) (
          find
            (λ candidate.
              has (kind_name input.kind) candidate.kinds && candidate.matches input.bytes)
            signatures)

-- The end of the central directory: its signature, with a comment that reaches to the end of the file.
unfoldable pub is_end_record : List ℕ → Bool
unfolding read_little_endian_16
is_end_record s =
    leb 22 (length s)
    && leb (length s) 65557
    && begins_with (0x50 ∷ 0x4b ∷ 0x05 ∷ 0x06 ∷ []) s
    && nat_eq (22 + read_little_endian_16 s 20) (length s)

abbrev pub open_xml_mime_types : List String
open_xml_mime_types =
    "application/vnd.openxmlformats-officedocument.wordprocessingml.document"
    ∷ "application/vnd.openxmlformats-officedocument.presentationml.presentation"
    ∷ "application/vnd.openxmlformats-officedocument.spreadsheetml.sheet" ∷ []

-- The code of the error that is thrown, if there is one.
unfoldable pub validate_document_structure : List ℕ → String → Option String
unfolding is_end_record
validate_document_structure bytes mime_type =
    if mime_type == "application/pdf"
    then (if contains_in_last 1024 bytes (0x25 ∷ 0x25 ∷ 0x45 ∷ 0x4f ∷ 0x46 ∷ [])
        then none
        else some "media_pdf_structure_invalid")
    else if not (mime_type == "application/zip") && not (has mime_type open_xml_mime_types)
    then none
    else if some_suffix is_end_record bytes
    then none
    else some "media_zip_structure_invalid"
