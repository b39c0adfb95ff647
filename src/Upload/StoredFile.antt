-- ===== src/Upload/StoredFile.antt =====
-- libs/modules/upload/src/domain/entities/stored-file.entity.ts, and what it reads of
-- libs/shared/src/lib/file-signature.ts and stored-file-status.ts.
use text.Mathlib.Text.{starts_with}
use Prim.Native.String
use nestjs_fastify_nx.Common.{
  ℕ, String, ◌==◌, Bool, true, false, Option, none, some, List, [], ◌∷◌, ◌&&◌, not, eqb, ltb, leb,
  find, if◌then◌else◌, map, includes,
}
use nestjs_fastify_nx.Errors.{
  validation, not_found, field_problem, DomainExceptionOptions, Result, ok, throw_domain,
}

pub data StoredFileStatus : Type 0 where
  finalizing verifying ready rejected : StoredFileStatus

-- `StoredFileProps`, which the entity wraps
pub record StoredFile : Type 0 where
  pub id : String
  pub organization_id : String
  pub user_id : String
  pub source_key : String
  pub key : String
  pub bucket : String
  pub content_type : String
  pub size : ℕ
  pub etag : String
  pub status : StoredFileStatus

abbrev pub with_status : StoredFile → StoredFileStatus → StoredFile
with_status file status = record file { status = status }

-- A byte of a signature; `none` is the wildcard `null`.
pub record Signature : Type 0 where
  pub mime_type : String
  pub extension : String
  pub bytes : List (Option ℕ)

abbrev exactly : List ℕ → List (Option ℕ)
exactly bytes = map some bytes

-- `SIGNATURES`, with the first extension of each
abbrev pub signatures : List Signature
signatures =
    record {
      mime_type = "image/jpeg";
      extension = "jpg";
      bytes = exactly (0xff ∷ 0xd8 ∷ 0xff ∷ []);
    }
    ∷ record {
      mime_type = "image/png";
      extension = "png";
      bytes = exactly (0x89 ∷ 0x50 ∷ 0x4e ∷ 0x47 ∷ 0x0d ∷ 0x0a ∷ 0x1a ∷ 0x0a ∷ []);
    }
    ∷ record {
      mime_type = "image/gif";
      extension = "gif";
      bytes = exactly (0x47 ∷ 0x49 ∷ 0x46 ∷ 0x38 ∷ []);
    }
    ∷ record {
      mime_type = "image/webp";
      extension = "webp";
      bytes =
          some 0x52
          ∷ some 0x49
          ∷ some 0x46
          ∷ some 0x46
          ∷ none
          ∷ none
          ∷ none
          ∷ none
          ∷ some 0x57
          ∷ some 0x45
          ∷ some 0x42
          ∷ some 0x50
          ∷ [];
    }
    ∷ record {
      mime_type = "application/pdf";
      extension = "pdf";
      bytes = exactly (0x25 ∷ 0x50 ∷ 0x44 ∷ 0x46 ∷ []);
    }
    ∷ []

-- `buffer.length >= sig.bytes.length && sig.bytes.every(…)`
unfoldable pub matches_bytes : List (Option ℕ) → List ℕ → Bool
matches_bytes [] buffer = true
matches_bytes (expected ∷ rest) [] = false
matches_bytes (none ∷ rest) (b ∷ buffer) = matches_bytes rest buffer
matches_bytes (some expected ∷ rest) (b ∷ buffer) = eqb b expected && matches_bytes rest buffer

pub record DetectedFileType : Type 0 where
  pub mime_type : String
  pub extension : String

abbrev detected_by : Option Signature → Option DetectedFileType
detected_by none = none
detected_by (some s) = some (record { mime_type = s.mime_type; extension = s.extension })

unfoldable pub detect_file_type : List ℕ → Option DetectedFileType
unfolding matches_bytes
detect_file_type buffer = detected_by (find (λ s. matches_bytes s.bytes buffer) signatures)

abbrev pub allowed_mime_types : List String
allowed_mime_types = map (λ s. s.mime_type) signatures

abbrev pub mime_not_allowed : String → DomainExceptionOptions
mime_not_allowed path =
    field_problem validation "upload_mime_not_allowed" (some "mime_not_allowed") path

abbrev extension_of : Option Signature → Result String
extension_of (some s) = ok s.extension
extension_of none = throw_domain (mime_not_allowed "contentType")

-- `MIME_EXTENSIONS.get`, or a throw; no extension is empty
unfoldable pub extension_for_mime_type : String → Result String
extension_for_mime_type content_type =
    extension_of (find (λ s. s.mime_type == content_type) signatures)

unfoldable pub assert_mime_allowed : String → Result (Unit {0})
assert_mime_allowed content_type =
    if includes allowed_mime_types content_type
    then ok tt
    else throw_domain (mime_not_allowed "key")

unfoldable pub assert_size_within_limit : ℕ → ℕ → Result (Unit {0})
assert_size_within_limit size max_bytes =
    if ltb 0 size && leb size max_bytes
    then ok tt
    else throw_domain
        (field_problem validation "upload_size_out_of_range" (some "size_out_of_range") "key")

abbrev match_declared : String → Option DetectedFileType → Result (Unit {0})
match_declared declared none =
    throw_domain
      (field_problem validation "upload_magic_bytes_unknown" (some "magic_bytes_unknown") "key")
match_declared declared (some detected) =
    if not (detected.mime_type == declared)
    then throw_domain
        (field_problem validation "upload_magic_bytes_mismatch" (some "magic_bytes_mismatch") "key")
    else ok tt

unfoldable pub assert_magic_bytes_match : List ℕ → String → Result (Unit {0})
unfolding detect_file_type
assert_magic_bytes_match head declared = match_declared declared (detect_file_type head)

abbrev pub object_not_found : DomainExceptionOptions
object_not_found = field_problem not_found "not_found" (some "object_not_found") "key"

-- `uploads/${userId}/`
abbrev pub own_prefix : String → String
own_prefix user_id = String.◌++◌ "uploads/" (String.◌++◌ user_id "/")

unfoldable pub assert_owns_source_key : String → String → Result (Unit {0})
assert_owns_source_key source_key user_id =
    if starts_with source_key (own_prefix user_id) then ok tt else throw_domain object_not_found
