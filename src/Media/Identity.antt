-- ===== src/Media/Identity.antt =====
-- What kind of file the bytes are: `signatures` and `validateMediaIdentity` of
-- packages/media-core/src/index.ts. `lower` is `toLowerCase`.
use manychat.Prelude.{
  ℕ, ◌/◌, String, Bool, ◌&&◌, ◌||◌, List, [], ◌∷◌, Option, none, some, length, nat_eq, leb, ◌==◌,
  if◌then◌else◌,
}
use manychat.Media.Bytes.{byte_at, has_at}

pub data MediaKind : Type 0 where
  animation audio document photo sticker video video_note voice : MediaKind

abbrev pub kind_name : MediaKind → String
kind_name animation = "ANIMATION"
kind_name audio = "AUDIO"
kind_name document = "DOCUMENT"
kind_name photo = "PHOTO"
kind_name sticker = "STICKER"
kind_name video = "VIDEO"
kind_name video_note = "VIDEO_NOTE"
kind_name voice = "VOICE"

pub record MediaValidationInput : Type 0 where
  pub bytes : List ℕ
  pub declared_mime_type : Option String
  pub filename : Option String
  pub kind : MediaKind
  pub maximum_bytes : ℕ

-- A value, or a `MediaValidationError` with its code.
pub data Checked (A : Type 0) : Type 0 where
  rejected : (code : String) → Checked A
  accepted : A → Checked A

pub record Signature : Type 0 where
  pub extension : String
  pub kinds : List String
  pub mime_type : String
  pub matches : List ℕ → Bool

-- `ftyp` after the size of the first box
abbrev pub is_iso_media : List ℕ → Bool
is_iso_media bytes = leb 12 (length bytes) && has_at bytes 4 (0x66 ∷ 0x74 ∷ 0x79 ∷ 0x70 ∷ [])

abbrev pub is_mpeg_audio : List ℕ → Bool
is_mpeg_audio bytes =
    leb 3 (length bytes)
    && (has_at bytes 0 (0x49 ∷ 0x44 ∷ 0x33 ∷ [])
        || nat_eq (byte_at bytes 0) 0xff && nat_eq (byte_at bytes 1 / 32) 7)

abbrev pub signatures : List Signature
signatures =
    record {
      extension = "jpg";
      kinds = "DOCUMENT" ∷ "PHOTO" ∷ [];
      mime_type = "image/jpeg";
      matches = λ bytes. has_at bytes 0 (0xff ∷ 0xd8 ∷ 0xff ∷ []);
    }
    ∷ record {
      extension = "png";
      kinds = "DOCUMENT" ∷ "PHOTO" ∷ [];
      mime_type = "image/png";
      matches = λ bytes. has_at bytes 0 (0x89 ∷ 0x50 ∷ 0x4e ∷ 0x47 ∷ []);
    }
    ∷ record {
      extension = "webp";
      kinds = "DOCUMENT" ∷ "PHOTO" ∷ "STICKER" ∷ [];
      mime_type = "image/webp";
      matches = λ bytes.
          has_at bytes 0 (0x52 ∷ 0x49 ∷ 0x46 ∷ 0x46 ∷ [])
          && has_at bytes 8 (0x57 ∷ 0x45 ∷ 0x42 ∷ 0x50 ∷ []);
    }
    ∷ record {
      extension = "tgs";
      kinds = "STICKER" ∷ [];
      mime_type = "application/x-tgsticker";
      matches = λ bytes. leb 10 (length bytes) && has_at bytes 0 (0x1f ∷ 0x8b ∷ 0x08 ∷ []);
    }
    ∷ record {
      extension = "webm";
      kinds = "STICKER" ∷ [];
      mime_type = "video/webm";
      matches = λ bytes. leb 4 (length bytes) && has_at bytes 0 (0x1a ∷ 0x45 ∷ 0xdf ∷ 0xa3 ∷ []);
    }
    ∷ record {
      extension = "pdf";
      kinds = "DOCUMENT" ∷ [];
      mime_type = "application/pdf";
      matches = λ bytes. has_at bytes 0 (0x25 ∷ 0x50 ∷ 0x44 ∷ 0x46 ∷ []);
    }
    ∷ record {
      extension = "zip";
      kinds = "DOCUMENT" ∷ [];
      mime_type = "application/zip";
      matches = λ bytes.
          has_at bytes 0 (0x50 ∷ 0x4b ∷ 0x03 ∷ 0x04 ∷ [])
          || has_at bytes 0 (0x50 ∷ 0x4b ∷ 0x05 ∷ 0x06 ∷ []);
    }
    ∷ record {
      extension = "gif";
      kinds = "ANIMATION" ∷ "DOCUMENT" ∷ [];
      mime_type = "image/gif";
      matches = λ bytes.
          leb 6 (length bytes)
          && (has_at bytes 0 (0x47 ∷ 0x49 ∷ 0x46 ∷ 0x38 ∷ 0x37 ∷ 0x61 ∷ [])
              || has_at bytes 0 (0x47 ∷ 0x49 ∷ 0x46 ∷ 0x38 ∷ 0x39 ∷ 0x61 ∷ []));
    }
    ∷ record {
      extension = "mp4";
      kinds = "ANIMATION" ∷ "DOCUMENT" ∷ "VIDEO" ∷ "VIDEO_NOTE" ∷ [];
      mime_type = "video/mp4";
      matches = is_iso_media;
    }
    ∷ record {
      extension = "m4a";
      kinds = "AUDIO" ∷ "DOCUMENT" ∷ "VOICE" ∷ [];
      mime_type = "audio/mp4";
      matches = is_iso_media;
    }
    ∷ record {
      extension = "mp3";
      kinds = "AUDIO" ∷ "DOCUMENT" ∷ "VOICE" ∷ [];
      mime_type = "audio/mpeg";
      matches = is_mpeg_audio;
    }
    ∷ record {
      extension = "ogg";
      kinds = "DOCUMENT" ∷ "VOICE" ∷ [];
      mime_type = "audio/ogg";
      matches = λ bytes. leb 4 (length bytes) && has_at bytes 0 (0x4f ∷ 0x67 ∷ 0x67 ∷ 0x53 ∷ []);
    }
    ∷ []

-- `DetectedMedia`
pub record DetectedMedia : Type 0 where
  pub extension : String
  pub mime_type : String

-- An entry of `OPEN_XML_DOCUMENTS`; the folder is `word/`, `ppt/` or `xl/`.
pub record OpenXml : Type 0 where
  pub folder : List ℕ
  pub mime_type : String

abbrev pub open_xml_documents : String → Option OpenXml
open_xml_documents extension =
    if extension == "docx"
    then some (record {
      folder = 0x77 ∷ 0x6f ∷ 0x72 ∷ 0x64 ∷ 0x2f ∷ [];
      mime_type = "application/vnd.openxmlformats-officedocument.wordprocessingml.document";
    })
    else if extension == "pptx"
    then some (record {
      folder = 0x70 ∷ 0x70 ∷ 0x74 ∷ 0x2f ∷ [];
      mime_type = "application/vnd.openxmlformats-officedocument.presentationml.presentation";
    })
    else if extension == "xlsx"
    then some (record {
      folder = 0x78 ∷ 0x6c ∷ 0x2f ∷ [];
      mime_type = "application/vnd.openxmlformats-officedocument.spreadsheetml.sheet";
    })
    else none
