-- ===== src/Upload/Publication.antt =====
-- libs/modules/upload/src/application/upload-publication.service.ts
use nestjs_fastify_nx.Common.{ℕ, String, Option, none, some}
use nestjs_fastify_nx.Exec.{Exec, pure, try_catch, ◌>>=◌, ◌>>◌}
use nestjs_fastify_nx.Upload.StoredFile.{StoredFile, StoredFileStatus, verifying, ready}
use nestjs_fastify_nx.Upload.Repository.{World}
use nestjs_fastify_nx.Upload.Ports.{Ports}

-- the storage module's `StoredFile`, which a client receives
pub record StoredFileResult : Type 0 where
  pub id : String
  pub key : String
  pub bucket : String
  pub size : ℕ
  pub status : StoredFileStatus
  pub url : Option String

abbrev pub described : StoredFile → Option String → StoredFileResult
described file url = record {
  id = file.id;
  key = file.key;
  bucket = file.bucket;
  size = file.size;
  status = file.status;
  url = url;
}

module _ {S : Type 0} (ports : Ports S) where
  -- the verification job of a file in VERIFYING; a failed enqueue is logged and swallowed
  unfoldable pub enqueue : StoredFile → Option String → StoredFileStatus → Exec (World S) (Unit {0})
  enqueue file correlation_id verifying =
      try_catch
        (ports.dispatch (record {
          key = file.key;
          bucket = file.bucket;
          declared_content_type = file.content_type;
          correlation_id = correlation_id;
        }))
        (λ e. pure tt)
  enqueue file correlation_id _ = pure tt

  unfoldable pub url_for : StoredFile → StoredFileStatus → Exec (World S) (Option String)
  url_for file ready = do url ← ports.get_signed_url file.key file.bucket; pure (some url)
  url_for file _ = pure none

  unfoldable pub result : StoredFile → Option String → Exec (World S) StoredFileResult
  unfolding enqueue url_for
  result file correlation_id = do
    enqueue file correlation_id file.status
    url ← url_for file file.status
    pure (described file url)
