-- ===== src/Storage/Adapter.antt =====
-- libs/infra/storage/src/lib/local-storage.adapter.ts: the methods of the port, forms and signed URLs.
-- A stream that is read is its bytes; the encoding of a query is left out.
use Prim.Native.Nat.{◌/◌, ◌+◌, ◌*◌, ◌^◌}
use Prim.Native.String
use nestjs_fastify_nx.Common.{
  ℕ, String, ◌==◌, Bool, true, false, ◌||◌, Option, none, some, List, [], ◌∷◌, ltb, leb, eqb,
  length, take, or_else, is_some, if◌then◌else◌,
}
use nestjs_fastify_nx.Errors.{
  ok, Failure, domain, fault, validation, field_problem, new_domain_exception,
}
use nestjs_fastify_nx.Exec.{Exec, pure, throw, lift, try_catch, ◌>>=◌, ◌>>◌}
use nestjs_fastify_nx.Storage.Paths.{FilePath, join, ObjectLocation, segments, locate}
use nestjs_fastify_nx.Storage.Signing.{
  Settings, Fields, Grant, Download, check_form, sign, verify, assert_not_expired, payload_of,
  download_payload, decimal, public_url,
}
use nestjs_fastify_nx.Storage.Disk.{
  StoredMeta, File, Disk, call, System, is_missing, is_fault, read_file,
}
use nestjs_fastify_nx.Storage.Local.{
  Body, ObjectMetadata, write_object, read_meta, remove_object, discard, reported, bucket_or,
  bytes_of, storage_failure,
}

pub record StoredFile : Type 0 where
  pub key : String
  pub bucket : String
  pub size : ℕ

pub record PresignedUpload : Type 0 where
  pub url : String
  pub fields : Fields
  pub key : String
  pub bucket : String
  pub expires_at : ℕ
  pub max_bytes : ℕ

pub record SignedUrl : Type 0 where
  pub url : String
  pub bucket : String
  pub key : String
  pub expires : ℕ
  pub signature : String

pub record LocalDownload : Type 0 where
  pub stream : List ℕ
  pub content_type : String
  pub size : ℕ

-- `sizeOutOfRange`
abbrev pub size_out_of_range : Failure
size_out_of_range = domain (
    new_domain_exception
      (field_problem validation "upload_size_out_of_range" (some "size_out_of_range") "file"))

abbrev pub is_domain : Failure → Bool
is_domain (domain e) = true
is_domain (fault m) = false

-- the folder of a path below another
unfoldable pub strip : FilePath → FilePath → Option FilePath
strip [] path = some path
strip (s ∷ ss) [] = none
strip (s ∷ ss) (t ∷ ts) = if s == t then strip ss ts else none

-- `.join('/')`
unfoldable pub join_slashes : List String → String
join_slashes [] = ""
join_slashes (s ∷ []) = s
join_slashes (s ∷ (t ∷ rest)) = String.◌++◌ s (String.◌++◌ "/" (join_slashes (t ∷ rest)))

abbrev is_below : FilePath → FilePath → Bool
is_below folder path = is_some (strip folder path)

-- the paths of the files in a folder and the folders in it
unfoldable pub paths_below : FilePath → List File → List FilePath
unfolding strip
paths_below folder [] = []
paths_below folder (file ∷ files) =
    let rest = paths_below folder files in
    if is_below folder file.path then file.path ∷ rest else rest

-- `nowSeconds`
unfoldable pub now_seconds : Exec Disk ℕ
now_seconds d = (ok (d.now / 1000), d)

abbrev pub form_fields : Grant → String → Fields
form_fields g signature =
    ("key", g.key)
    ∷ (("bucket", g.bucket)
        ∷ (("Content-Type", g.content_type)
            ∷ (("max-bytes", decimal g.max_bytes)
                ∷ (("expires", decimal g.expires) ∷ (("signature", signature) ∷ [])))))

abbrev pub presigned : String → Grant → String → PresignedUpload
presigned url g signature = record {
  url = url;
  fields = form_fields g signature;
  key = g.key;
  bucket = g.bucket;
  expires_at = g.expires * 1000;
  max_bytes = g.max_bytes;
}

-- an error of a stream, or a write of fewer or more bytes than allowed
abbrev pub refuse_size : {A : Type 0} → Failure → Exec Disk A
refuse_size e = if is_fault e "ObjectSizeOutOfRange" then throw size_out_of_range else throw e

abbrev pub refuse_upload : {A : Type 0} → Failure → Exec Disk A
refuse_upload e = if is_domain e then throw e else throw (storage_failure "storage_upload_failed")

module _ (system : System) (settings : Settings) where
  unfoldable pub upload_stream :
      (key : String)
      → Body
      → (size : ℕ) → (content_type bucket : Option String) → Exec Disk StoredFile
  unfolding locate write_object
  upload_stream key body size content_type bucket =
      let target = bucket_or settings bucket in
      reported "storage_upload_failed" do
        if eqb size 0 || leb (2 ^ 53) size then throw (fault "RangeError") else pure tt
        location ← lift (locate settings.root target key)
        write_object system settings location body content_type
            (record { min_bytes = size; max_bytes = size })
        pure (record { key = key; bucket = target; size = size })

  unfoldable pub presign_upload :
      (key content_type : String) (max_bytes : ℕ)
      → Option ℕ
      → Option String
      → Exec Disk PresignedUpload
  unfolding locate sign payload_of public_url now_seconds
  presign_upload key content_type max_bytes expires_in_seconds bucket =
      reported "storage_presign_failed" do
        lift (locate settings.root (bucket_or settings bucket) key)
        now ← now_seconds
        let grant : Grant = record {
          bucket = bucket_or settings bucket;
          key = key;
          content_type = content_type;
          max_bytes = max_bytes;
          expires = now + or_else expires_in_seconds 300;
        }
        signature ← lift (sign settings (payload_of grant))
        url ← lift (public_url settings "uploads")
        pure (presigned url grant signature)

  abbrev pub with_bucket : String → Option StoredMeta → Option ObjectMetadata
  with_bucket bucket none = none
  with_bucket bucket (some m) =
      some (record { content_type = m.content_type; size = m.size; etag = m.etag; bucket = bucket })

  unfoldable pub head : String → Option String → Exec Disk (Option ObjectMetadata)
  unfolding locate read_meta
  head key bucket =
      let target = bucket_or settings bucket in
      reported "storage_head_failed" do
        location ← lift (locate settings.root target key)
        found ← read_meta system settings location
        pure (with_bucket target found)

  unfoldable pub get_signed_url : String → Option ℕ → Option String → Exec Disk SignedUrl
  unfolding locate sign download_payload public_url now_seconds
  get_signed_url key expires_in bucket =
      let target = bucket_or settings bucket in
      reported "storage_signed_url_failed" do
        lift (locate settings.root target key)
        now ← now_seconds
        let expires = now + or_else expires_in settings.download_url_expires_seconds
        signature ← lift (sign settings (download_payload target key expires))
        url ← lift (public_url settings "objects")
        pure (record {
          url = url;
          bucket = target;
          key = key;
          expires = expires;
          signature = signature;
        })

  unfoldable pub delete : String → Option String → Exec Disk (Unit {0})
  unfolding locate remove_object
  delete key bucket = reported "storage_delete_failed" do
    location ← lift (locate settings.root (bucket_or settings bucket) key)
    remove_object system settings location

  unfoldable pub read_range : String → ℕ → Option String → Exec Disk (List ℕ)
  unfolding locate read_file
  read_range key byte_count bucket = reported "storage_read_failed" do
    location ← lift (locate settings.root (bucket_or settings bucket) key)
    file ← read_file system location.object_path
    pure (take byte_count (bytes_of file.content))

  unfoldable pub read_stream : String → Option String → Exec Disk (List ℕ)
  unfolding locate read_file
  read_stream key bucket = reported "storage_read_failed" do
    location ← lift (locate settings.root (bucket_or settings bucket) key)
    file ← read_file system location.object_path
    pure (bytes_of file.content)

  -- what a checked form does
  unfoldable pub write_granted : Grant → Body → Exec Disk (Unit {0})
  unfolding locate write_object
  write_granted grant body =
      try_catch
        (do
          location ← lift (locate settings.root grant.bucket grant.key)
          write_object system settings location body (some grant.content_type)
              (record { min_bytes = 1; max_bytes = grant.max_bytes }))
        refuse_size

  -- at a time in seconds
  unfoldable pub accept_at : ℕ → Fields → Body → Exec Disk (Unit {0})
  unfolding check_form write_granted
  accept_at now fields body = do
    grant ← lift (check_form settings now fields)
    write_granted grant body

  unfoldable pub accept_presigned_upload : Fields → Body → Exec Disk (Unit {0})
  unfolding accept_at now_seconds
  accept_presigned_upload fields body =
      try_catch (now_seconds >>= λ now. accept_at now fields body) refuse_upload

  abbrev opened : ObjectLocation → Option StoredMeta → Exec Disk (Option LocalDownload)
  opened location none = pure none
  opened location (some m) = read_file system location.object_path >>= λ file. pure (
      some
        (record { stream = bytes_of file.content; content_type = m.content_type; size = m.size }))

  unfoldable pub open_signed_download : Download → String → Exec Disk (Option LocalDownload)
  unfolding verify download_payload assert_not_expired locate read_meta read_file now_seconds
  open_signed_download request signature = do
    lift (verify settings (download_payload request.bucket request.key request.expires) signature)
    now ← now_seconds
    lift (assert_not_expired now request.expires)
    try_catch
        (do
          location ← lift (locate settings.root request.bucket request.key)
          found ← read_meta system settings location
          opened location found)
        (λ e. if is_missing e then pure none else throw (storage_failure "storage_read_failed"))

  -- `stat(path).catch(…)`, and the comparison
  abbrev is_older : ℕ → FilePath → Exec Disk Bool
  is_older cutoff path =
      try_catch (read_file system path >>= λ file. pure (ltb file.mtime cutoff))
        (λ e. if is_missing e then pure false else throw e)

  unfoldable pub keep_older : ℕ → List FilePath → Exec Disk (List FilePath)
  unfolding read_file
  keep_older cutoff [] = pure []
  keep_older cutoff (path ∷ paths) = do
    old ← is_older cutoff path
    rest ← keep_older cutoff paths
    pure (if old then path ∷ rest else rest)

  unfoldable pub read_folder : FilePath → Exec Disk (List FilePath)
  unfolding paths_below call
  read_folder folder = call system (λ d. (ok (paths_below folder d.files), d))

  unfoldable pub collect_older_than : FilePath → ℕ → Exec Disk (List FilePath)
  unfolding read_folder keep_older
  collect_older_than folder cutoff = do paths ← read_folder folder; keep_older cutoff paths

  -- `objectPath.slice(bucketRoot.length + 1).split(sep).join('/')`
  abbrev key_below : FilePath → FilePath → String
  key_below folder path = join_slashes (or_else (strip folder path) [])

  unfoldable pub remove_all : FilePath → List FilePath → Exec Disk (Unit {0})
  unfolding locate remove_object join_slashes strip
  remove_all bucket_root [] = pure tt
  remove_all bucket_root (path ∷ paths) = do
    location ← lift (locate settings.root settings.bucket (key_below bucket_root path))
    remove_object system settings location
    remove_all bucket_root paths

  unfoldable pub discard_all : List FilePath → Exec Disk (Unit {0})
  unfolding discard
  discard_all [] = pure tt
  discard_all (path ∷ paths) = do discard system settings path; discard_all paths

  unfoldable pub delete_objects_older_than : String → ℕ → Exec Disk ℕ
  unfolding join segments collect_older_than remove_all discard_all
  delete_objects_older_than prefix cutoff =
      let bucket_root = join settings.root ("objects" ∷ (settings.bucket ∷ [])) in
      do
        names ← lift (segments settings.bucket prefix)
        expired_objects ← collect_older_than (join bucket_root names) cutoff
        remove_all bucket_root expired_objects
        expired_temps ← collect_older_than (join settings.root ("tmp" ∷ [])) cutoff
        discard_all expired_temps
        pure (length expired_objects)
