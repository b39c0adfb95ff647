-- ===== src/Storage/Local.antt =====
-- libs/infra/storage/src/lib/local-storage.adapter.ts: the operations on objects. One operation runs at
-- a time; what a file of metadata holds that the adapter did not write counts as corrupt.
use Prim.Native.Nat.{◌+◌}
use Prim.Native.String
use nestjs_fastify_nx.Common.{
  ℕ, String, ◌==◌, Bool, true, false, ◌||◌, Option, none, some, List, [], ◌∷◌, ◌++◌, ltb, length,
  or_else, if◌then◌else◌,
}
use nestjs_fastify_nx.Errors.{
  Result, ok, err, Failure, domain, fault, unavailable, field_problem, new_domain_exception,
}
use nestjs_fastify_nx.Exec.{Exec, pure, throw, lift, try_catch, ◌>>=◌, ◌>>◌}
use nestjs_fastify_nx.Storage.Paths.{FilePath, join, ObjectLocation, locate}
use nestjs_fastify_nx.Storage.Signing.{Settings}
use nestjs_fastify_nx.Storage.Disk.{
  StoredMeta, Content, bytes, meta, Disk, System, is_missing, is_fault, read_file, unlink, rename,
  link, write_new, make_folder, generate_id,
}

-- a stream: its chunks, and the error that ends it, if one does
pub record Body : Type 0 where
  pub chunks : List (List ℕ)
  pub failure : Option Failure

pub record WriteLimits : Type 0 where
  pub min_bytes : ℕ
  pub max_bytes : ℕ

pub record ObjectMetadata : Type 0 where
  pub content_type : String
  pub size : ℕ
  pub etag : String
  pub bucket : String

-- the variables of the transform
pub record Meter : Type 0 where
  pub size : ℕ
  pub overflowed : Bool
  pub written : List ℕ

-- `transform(chunk)`
abbrev pub measure : ℕ → Meter → List ℕ → Meter
measure max_bytes meter chunk =
    let size = meter.size + length chunk in
    if ltb max_bytes size
    then record { size = size; overflowed = true; written = meter.written }
    else record { size = size; overflowed = meter.overflowed; written = meter.written ++ chunk }

unfoldable pub measure_all : ℕ → Meter → List (List ℕ) → Meter
measure_all max_bytes meter [] = meter
measure_all max_bytes meter (chunk ∷ chunks) =
    measure_all max_bytes (measure max_bytes meter chunk) chunks

abbrev pub empty_meter : Meter
empty_meter = record { size = 0; overflowed = false; written = [] }

-- `ObjectSizeOutOfRange`
abbrev pub size_error : Failure
size_error = fault "ObjectSizeOutOfRange"

-- `storageFailure`
abbrev pub storage_failure : String → Failure
storage_failure code =
    domain (new_domain_exception (field_problem unavailable code (some code) "storage"))

abbrev pub raise : Option Failure → Exec Disk (Unit {0})
raise none = pure tt
raise (some e) = throw e

abbrev pub finish : {S A : Type 0} → Exec S (Unit {0}) → Result A × S → Result A × S
finish cleanup (ok a, s) = (cleanup >> pure a) s
finish cleanup (err e, s) = (cleanup >> throw e) s

-- `try { … } finally { … }`
unfoldable pub try_finally : {S A : Type 0} → Exec S A → Exec S (Unit {0}) → Exec S A
try_finally m cleanup s = finish cleanup (m s)

abbrev pub parse : Content → Result (Option StoredMeta)
parse (meta m) = ok (some m)
parse (bytes b) = err (fault "Corrupt local storage metadata")

abbrev pub bytes_of : Content → List ℕ
bytes_of (bytes b) = b
bytes_of (meta m) = []

-- `catch (err) { throw this.failure(…) }`
abbrev pub reported : {A : Type 0} → String → Exec Disk A → Exec Disk A
reported code m = try_catch m (λ e. throw (storage_failure code))

-- `bucket ?? this.bucket`
abbrev pub bucket_or : Settings → Option String → String
bucket_or settings bucket = or_else bucket settings.bucket

module _ (system : System) (settings : Settings) where
  -- the etag of a content
  abbrev pub etag_of : List ℕ → String
  etag_of b = String.◌++◌ "\"" (String.◌++◌ (system.hash b) "\"")

  unfoldable pub temp_path : Exec Disk FilePath
  unfolding make_folder generate_id join
  temp_path = do
    make_folder system
    id ← generate_id system
    pure (join settings.root ("tmp" ∷ (id ∷ [])))

  unfoldable pub discard : FilePath → Exec Disk (Unit {0})
  unfolding unlink
  discard path = try_catch (unlink system path) (λ e. pure tt)

  unfoldable pub commit : FilePath → ObjectLocation → StoredMeta → Exec Disk (Unit {0})
  unfolding make_folder temp_path write_new rename
  commit temp location m = do
    make_folder system
    make_folder system
    meta_temp ← temp_path
    write_new system meta_temp (meta m)
    rename system meta_temp location.meta_path
    rename system temp location.object_path

  -- the pipeline, and what follows it
  unfoldable pub write_temp :
      FilePath → ObjectLocation → Body → Option String → WriteLimits → Exec Disk (Unit {0})
  unfolding write_new commit measure_all
  write_temp temp location body content_type limits =
      let meter = measure_all limits.max_bytes empty_meter body.chunks in
      do
        write_new system temp (bytes meter.written)
        raise body.failure
        if meter.overflowed || ltb meter.size limits.min_bytes
            then throw size_error
            else commit temp location (record {
              content_type = or_else content_type "application/octet-stream";
              size = meter.size;
              etag = etag_of meter.written;
            })

  unfoldable pub write_object :
      ObjectLocation → Body → Option String → WriteLimits → Exec Disk (Unit {0})
  unfolding temp_path write_temp try_finally discard
  write_object location body content_type limits = do
    temp ← temp_path
    try_finally (write_temp temp location body content_type limits) (discard temp)

  unfoldable pub read_meta : ObjectLocation → Exec Disk (Option StoredMeta)
  unfolding read_file
  read_meta location =
      try_catch
        (do
          read_file system location.object_path
          file ← read_file system location.meta_path
          lift (parse file.content))
        (λ e. if is_missing e then pure none else throw e)

  -- `unlink(path).catch(…)`
  abbrev unlink_any : FilePath → Exec Disk (Unit {0})
  unlink_any path = try_catch (unlink system path) (λ e. if is_missing e then pure tt else throw e)

  unfoldable pub remove_object : ObjectLocation → Exec Disk (Unit {0})
  unfolding unlink
  remove_object location = do unlink_any location.object_path; unlink_any location.meta_path

  unfoldable pub digest_file : FilePath → Exec Disk String
  unfolding read_file
  digest_file path = do file ← read_file system path; pure (etag_of (bytes_of file.content))

  unfoldable pub restore_claimed : FilePath → FilePath → Exec Disk (Unit {0})
  unfolding link discard
  restore_claimed claimed object_path =
      try_catch (link system claimed object_path >> pure true) (λ e. pure (is_fault e "EEXIST"))
      >>= λ restored. if restored then discard claimed else pure tt

  -- within the claim
  unfoldable pub move_claimed :
      FilePath → ObjectLocation → StoredMeta → String → Exec Disk (Unit {0})
  unfolding digest_file commit
  move_claimed claimed target m expected_etag = do
    etag ← digest_file claimed
    if etag == expected_etag
        then commit claimed target m
        else throw (fault "Source object changed before it could be finalized")

  unfoldable pub claim_and_move :
      ObjectLocation → ObjectLocation → StoredMeta → String → Exec Disk (Unit {0})
  unfolding temp_path rename move_claimed restore_claimed discard
  claim_and_move source target m expected_etag = do
    claimed ← temp_path
    rename system source.object_path claimed
    try_catch (move_claimed claimed target m expected_etag)
        (λ e. restore_claimed claimed source.object_path >> throw e)
    discard source.meta_path

  abbrev pub matching :
      ObjectLocation → ObjectLocation → String → Option StoredMeta → Exec Disk (Unit {0})
  matching source target expected_etag none =
      throw (fault "Source object is missing or no longer matches the confirmed ETag")
  matching source target expected_etag (some m) =
      if m.etag == expected_etag
      then claim_and_move source target m expected_etag
      else throw (fault "Source object is missing or no longer matches the confirmed ETag")

  unfoldable pub finalize :
      (source_key final_key expected_etag : String) → Option String → Exec Disk (Unit {0})
  unfolding locate read_meta claim_and_move
  finalize source_key final_key expected_etag bucket = reported "storage_finalize_failed" do
    source ← lift (locate settings.root (bucket_or settings bucket) source_key)
    target ← lift (locate settings.root (bucket_or settings bucket) final_key)
    found ← read_meta source
    matching source target expected_etag found
