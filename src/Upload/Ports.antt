-- ===== src/Upload/Ports.antt =====
-- The ports of the upload module as its handlers see them: libs/infra/storage/src/lib/storage.port.ts,
-- the malware scanner, the verification queue, and the id generator. An action on the whole
-- world stands for what other executions do while this one awaits it.
use nestjs_fastify_nx.Common.{ℕ, String, Bool, Option, List}
use nestjs_fastify_nx.Exec.{Exec, lift, ◌>>=◌}
use nestjs_fastify_nx.Upload.StoredFile.{assert_magic_bytes_match}
use nestjs_fastify_nx.Upload.Repository.{World}

pub record ObjectMetadata : Type 0 where
  pub content_type : String
  pub size : ℕ
  pub bucket : String
  pub etag : String

pub data MalwareScanResult : Type 0 where
  clean infected unscannable : MalwareScanResult

pub record VerificationJob : Type 0 where
  pub key : String
  pub bucket : String
  pub declared_content_type : String
  pub correlation_id : Option String

pub record PresignedUpload : Type 0 where
  pub url : String
  pub key : String
  pub content_type : String
  pub max_bytes : ℕ
  pub expires_in_seconds : ℕ

pub record UploadLimits : Type 0 where
  pub max_file_bytes : ℕ
  pub presign_expires_seconds : ℕ
  pub magic_byte_count : ℕ
  pub malware_scan_enabled : Bool
  pub bucket : String

-- A stream is known by its key and bucket; `scan` is given those and the size from `head`.
pub record Ports (S : Type 0) : Type 0 where
  pub head : String → Option String → Exec (World S) (Option ObjectMetadata)
  pub finalize : (source_key final_key expected_etag bucket : String) → Exec (World S) (Unit {0})
  pub delete : String → Option String → Exec (World S) (Unit {0})
  pub read_range : String → ℕ → String → Exec (World S) (List ℕ)
  pub read_stream : String → String → Exec (World S) (Unit {0})
  pub close_stream : String → String → Exec (World S) (Unit {0})
  pub get_signed_url : String → String → Exec (World S) String
  pub presign_upload : String → String → ℕ → ℕ → Exec (World S) PresignedUpload
  pub scan : String → String → Option ℕ → Exec (World S) MalwareScanResult
  pub dispatch : VerificationJob → Exec (World S) (Unit {0})
  pub generate_id : Exec (World S) String

-- `readHeadAndAssertMagicBytes`
unfoldable pub read_head_and_assert_magic_bytes :
    {S : Type 0} → Ports S → UploadLimits → String → String → String → Exec (World S) (Unit {0})
unfolding assert_magic_bytes_match
read_head_and_assert_magic_bytes ports limits key content_type bucket = do
  head ← ports.read_range key limits.magic_byte_count bucket
  lift (assert_magic_bytes_match head content_type)
