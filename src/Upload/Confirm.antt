-- ===== src/Upload/Confirm.antt =====
-- libs/modules/upload/src/application/commands/confirm-upload/confirm-upload.handler.ts
use Prim.Native.String
use nestjs_fastify_nx.Common.{
  String, ◌==◌, Bool, true, false, Option, none, some, [], ◌∷◌, ◌||◌, not, if◌then◌else◌,
}
use nestjs_fastify_nx.Common.Text.{from_last}
use nestjs_fastify_nx.Errors.{
  Failure, fault, domain, new_domain_exception, is_policy_violation, conflict,
  DomainExceptionOptions,
}
use nestjs_fastify_nx.Exec.{Exec, pure, throw, lift, try_catch, when, ◌>>=◌, ◌>>◌}
use nestjs_fastify_nx.Upload.StoredFile.{
  StoredFile, StoredFileStatus, finalizing, verifying, ready, rejected, with_status,
  assert_mime_allowed, assert_size_within_limit, assert_owns_source_key, object_not_found,
}
use nestjs_fastify_nx.Upload.Repository.{
  World, find_one, by_id, by_source_key, create, transition, delete_if_status, no_fields,
}
use nestjs_fastify_nx.Upload.Ports.{
  Ports, ObjectMetadata, UploadLimits, read_head_and_assert_magic_bytes,
}
use nestjs_fastify_nx.Upload.Publication.{StoredFileResult, result}

pub record ConfirmUploadCommand : Type 0 where
  pub organization_id : String
  pub user_id : String
  pub source_key : String
  pub correlation_id : Option String

abbrev pub missing : Failure
missing = domain (new_domain_exception object_not_found)

abbrev pub commit_failed : Failure
commit_failed = fault "Failed to finalize upload"

abbrev upload_in_progress : DomainExceptionOptions
upload_in_progress = record {
  kind = some conflict;
  code = some "upload_in_progress";
  violations = record { path = "key"; code = "upload_in_progress" } ∷ [];
  permanent = some false;
}

-- the status that a finalized file takes
abbrev pub published_status : UploadLimits → StoredFileStatus
published_status limits = if limits.malware_scan_enabled then verifying else ready

-- `files/${command.userId}/${fileId}${extension}`
abbrev pub final_key : ConfirmUploadCommand → String → String
final_key command file_id = String.◌++◌ "files/" (
    String.◌++◌ command.user_id
      (String.◌++◌ "/" (String.◌++◌ file_id (from_last b'.' command.source_key))))

abbrev pub new_props : ConfirmUploadCommand → ObjectMetadata → String → StoredFile
new_props command meta file_id = record {
  id = file_id;
  organization_id = command.organization_id;
  user_id = command.user_id;
  source_key = command.source_key;
  key = final_key command file_id;
  bucket = meta.bucket;
  content_type = meta.content_type;
  size = meta.size;
  etag = meta.etag;
  status = finalizing;
}

module _ {S : Type 0} (ports : Ports S) (limits : UploadLimits) where
  unfoldable pub safe_delete : String → Exec (World S) (Unit {0})
  safe_delete key = try_catch (ports.delete key none) (λ e. pure tt)

  unfoldable pub validate_staged_object : String → ObjectMetadata → Exec (World S) (Unit {0})
  unfolding safe_delete
  validate_staged_object source_key meta =
      try_catch
        (do
          lift (assert_mime_allowed meta.content_type)
          lift (assert_size_within_limit meta.size limits.max_file_bytes))
        (λ e. do when (is_policy_violation e) (safe_delete source_key); throw e)

  -- a concurrent confirm or verification moved the row first
  unfoldable pub report_moved :
      StoredFile → Option String → StoredFileStatus → Exec (World S) StoredFileResult
  report_moved current correlation_id finalizing = throw commit_failed
  report_moved current correlation_id rejected = throw commit_failed
  report_moved current correlation_id verifying = result ports current correlation_id
  report_moved current correlation_id ready = result ports current correlation_id

  unfoldable pub moved_elsewhere :
      Option String → Option StoredFile → Exec (World S) StoredFileResult
  unfolding report_moved
  moved_elsewhere correlation_id none = throw commit_failed
  moved_elsewhere correlation_id (some current) = report_moved current correlation_id current.status

  -- the check of the final object where no scanner will verify it later
  unfoldable pub check_final_object : StoredFile → Exec (World S) (Unit {0})
  unfolding read_head_and_assert_magic_bytes
  check_final_object file =
      try_catch
        (read_head_and_assert_magic_bytes ports limits file.key file.content_type file.bucket)
        (λ e. do
          when (is_policy_violation e) (do
            claimed ← transition file.id finalizing rejected no_fields
            when claimed (ports.delete file.key (some file.bucket)))
          throw e)

  unfoldable pub after_transition :
      StoredFile → Option String → Bool → Exec (World S) StoredFileResult
  unfolding moved_elsewhere
  after_transition file correlation_id true =
      result ports (with_status file (published_status limits)) correlation_id
  after_transition file correlation_id false = do
    current ← find_one (by_id file.id)
    moved_elsewhere correlation_id current

  unfoldable pub complete_finalizing : StoredFile → Option String → Exec (World S) StoredFileResult
  unfolding check_final_object after_transition
  complete_finalizing file correlation_id = do
    when (not limits.malware_scan_enabled) (check_final_object file)
    transitioned ← transition file.id finalizing (published_status limits) no_fields
    after_transition file correlation_id transitioned

  unfoldable pub resume :
      StoredFile → Option String → Option ObjectMetadata → Exec (World S) StoredFileResult
  resume file correlation_id none = throw (domain (new_domain_exception upload_in_progress))
  resume file correlation_id (some meta) = complete_finalizing file correlation_id

  unfoldable pub recover_at :
      StoredFile → Option String → StoredFileStatus → Exec (World S) StoredFileResult
  unfolding resume
  recover_at file correlation_id rejected = throw missing
  recover_at file correlation_id verifying = result ports file correlation_id
  recover_at file correlation_id ready = result ports file correlation_id
  recover_at file correlation_id finalizing = do
    final_meta ← ports.head file.key (some file.bucket)
    resume file correlation_id final_meta

  unfoldable pub recover_existing : StoredFile → Option String → Exec (World S) StoredFileResult
  unfolding complete_finalizing recover_at
  recover_existing file correlation_id = recover_at file correlation_id file.status

  unfoldable pub recover_concurrent :
      Option String → Option StoredFile → Exec (World S) StoredFileResult
  recover_concurrent correlation_id none = throw commit_failed
  recover_concurrent correlation_id (some concurrent) = recover_existing concurrent correlation_id

  unfoldable pub publish_created : StoredFile → Option String → Exec (World S) StoredFileResult
  unfolding complete_finalizing
  publish_created props correlation_id = do
    try_catch (ports.finalize props.source_key props.key props.etag props.bucket) (λ e. do
      try_catch (delete_if_status props.id finalizing) (λ cleanup. pure tt)
      throw commit_failed)
    complete_finalizing props correlation_id

  unfoldable pub publish : ConfirmUploadCommand → ObjectMetadata → Exec (World S) StoredFileResult
  unfolding recover_existing recover_concurrent publish_created
  publish command meta = do
    file_id ← ports.generate_id
    created ← create (new_props command meta file_id)
    if created then publish_created (new_props command meta file_id) command.correlation_id else do
      concurrent ← find_one (by_source_key command.source_key)
      recover_concurrent command.correlation_id concurrent

  unfoldable pub confirm_staged :
      ConfirmUploadCommand → Option ObjectMetadata → Exec (World S) StoredFileResult
  unfolding validate_staged_object publish
  confirm_staged command none = throw missing
  confirm_staged command (some meta) = do
    validate_staged_object command.source_key meta
    publish command meta

  unfoldable pub confirm_known :
      ConfirmUploadCommand → Option StoredFile → Exec (World S) StoredFileResult
  unfolding confirm_staged
  confirm_known command (some existing) =
      if not (existing.organization_id == command.organization_id)
        || not (existing.user_id == command.user_id)
      then throw missing
      else recover_existing existing command.correlation_id
  confirm_known command none = do
    meta ← ports.head command.source_key none
    confirm_staged command meta

  unfoldable pub execute : ConfirmUploadCommand → Exec (World S) StoredFileResult
  unfolding confirm_known
  execute command = do
    lift (assert_owns_source_key command.source_key command.user_id)
    existing ← find_one (by_source_key command.source_key)
    confirm_known command existing
