-- ===== src/Upload/Verify.antt =====
-- libs/modules/upload/src/application/commands/verify-upload/verify-upload.handler.ts
use nestjs_fastify_nx.Common.{ℕ, String, Option, none, some, if◌then◌else◌}
use nestjs_fastify_nx.Errors.{Failure, fault, domain, is_policy_violation}
use nestjs_fastify_nx.Exec.{Exec, pure, throw, try_catch, ◌>>=◌, ◌>>◌}
use nestjs_fastify_nx.Upload.StoredFile.{
  StoredFileStatus, StoredFile, finalizing, verifying, ready, rejected,
}
use nestjs_fastify_nx.Upload.Repository.{
  World, MalwareScanOutcome, TransitionFields, find_one, by_key, transition_by_key,
}
use nestjs_fastify_nx.Upload.Repository
use nestjs_fastify_nx.Upload.Ports.{
  Ports, ObjectMetadata, UploadLimits, MalwareScanResult, clean, infected, unscannable,
  read_head_and_assert_magic_bytes,
}

pub record VerifyUploadCommand : Type 0 where
  pub key : String
  pub declared_content_type : String
  pub bucket : String
  pub correlation_id : Option String

pub data VerifyUploadOutcome : Type 0 where
  verified was_rejected skipped : VerifyUploadOutcome

abbrev failed_with : String → TransitionFields
failed_with reason = record {
  verified_at = none;
  failure_reason = some (some reason);
  scan_outcome = none;
}

-- `err.code`, of the domain exceptions that `reject` is called for
abbrev code_of : Failure → String
code_of (domain e) = e.code
code_of (fault m) = m

abbrev size_of : Option ObjectMetadata → Option ℕ
size_of none = none
size_of (some meta) = some meta.size

abbrev outcome_of : MalwareScanResult → MalwareScanOutcome
outcome_of unscannable = Repository.skipped_too_large
outcome_of _ = Repository.clean

-- `new Date()`
abbrev pub now : {S : Type 0} → Exec (World S) ℕ
now w = pure w.now w

module _ {S : Type 0} (ports : Ports S) (limits : UploadLimits) where
  -- a row that another execution already rejected: its object is deleted again
  unfoldable pub reject_at : String → String → StoredFileStatus → Exec (World S) VerifyUploadOutcome
  reject_at key bucket rejected = do ports.delete key (some bucket); pure was_rejected
  reject_at key bucket finalizing = pure skipped
  reject_at key bucket verifying = pure skipped
  reject_at key bucket ready = pure skipped

  unfoldable pub reject_known :
      String → String → Option StoredFile → Exec (World S) VerifyUploadOutcome
  unfolding reject_at
  reject_known key bucket none = pure skipped
  reject_known key bucket (some file) = reject_at key bucket file.status

  unfoldable pub reject : String → String → String → Exec (World S) VerifyUploadOutcome
  unfolding reject_known
  reject key bucket failure_reason = do
    claimed ← transition_by_key key verifying rejected (failed_with failure_reason)
    if claimed
        then (do ports.delete key (some bucket); pure was_rejected)
        else (do file ← find_one (by_key key); reject_known key bucket file)

  unfoldable pub flip_ready :
      VerifyUploadCommand → MalwareScanResult → Exec (World S) VerifyUploadOutcome
  flip_ready command verdict = do
    verified_at ← now
    flipped ← transition_by_key command.key verifying ready (record {
      verified_at = some verified_at;
      failure_reason = some none;
      scan_outcome = some (outcome_of verdict);
    })
    pure (if flipped then verified else skipped)

  unfoldable pub conclude :
      VerifyUploadCommand → MalwareScanResult → Exec (World S) VerifyUploadOutcome
  unfolding reject flip_ready
  conclude command infected = reject command.key command.bucket "Malware scan rejected the object"
  conclude command clean = flip_ready command clean
  conclude command unscannable = flip_ready command unscannable

  -- `try { scan } finally { content.close() }`
  unfoldable pub scan_and_close : VerifyUploadCommand → Option ℕ → Exec (World S) MalwareScanResult
  scan_and_close command size = do
    verdict ←
        try_catch (ports.scan command.key command.bucket size)
          (λ e. do ports.close_stream command.key command.bucket; throw e)
    ports.close_stream command.key command.bucket
    pure verdict

  unfoldable pub scan_object : VerifyUploadCommand → Exec (World S) VerifyUploadOutcome
  unfolding scan_and_close conclude
  scan_object command = do
    meta ← ports.head command.key (some command.bucket)
    ports.read_stream command.key command.bucket
    verdict ← scan_and_close command (size_of meta)
    conclude command verdict

  -- the signature check: `some reason` where it fails on a rule, and any other failure escapes
  unfoldable pub check_signature : VerifyUploadCommand → Exec (World S) (Option String)
  unfolding read_head_and_assert_magic_bytes
  check_signature command =
      try_catch
        (do
          read_head_and_assert_magic_bytes ports limits command.key command.declared_content_type
              command.bucket
          pure none)
        (λ e. if is_policy_violation e then pure (some (code_of e)) else throw e)

  unfoldable pub after_signature :
      VerifyUploadCommand → Option String → Exec (World S) VerifyUploadOutcome
  unfolding scan_object reject
  after_signature command (some reason) = reject command.key command.bucket reason
  after_signature command none = scan_object command

  unfoldable pub execute : VerifyUploadCommand → Exec (World S) VerifyUploadOutcome
  unfolding check_signature after_signature
  execute command = do failed ← check_signature command; after_signature command failed
