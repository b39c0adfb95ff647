-- ===== src/Upload/Verification.antt =====
-- What a verification job has seen when it reports a file as verified, and what a rejection does.
use nestjs_fastify_nx.Common.{
  ℕ, String, ◌≡◌, ◌≢◌, refl, Option, none, some, List, arith, eq_iff, Option-cases, inl, inr,
}
use nestjs_fastify_nx.Errors.{ok, is_policy_violation}
use nestjs_fastify_nx.Exec.{throw}
use nestjs_fastify_nx.Exec.Rules.{
  Ensures, Ensures-pure, Ensures-throw, Ensures-if, Ensures-bind, Ensures-bind_with, Ensures-run,
  Ensures-lift, Ensures-try_catch, HasRun, Ensures-weaken,
}
use nestjs_fastify_nx.Upload.StoredFile.{
  StoredFile, StoredFileStatus, rejected, DetectedFileType, detect_file_type,
  assert_magic_bytes_match,
}
use nestjs_fastify_nx.Upload.Repository.{World}
use nestjs_fastify_nx.Upload.Ports.{
  Ports, UploadLimits, MalwareScanResult, clean, infected, unscannable,
  read_head_and_assert_magic_bytes,
}
use nestjs_fastify_nx.Upload.Verify.{
  VerifyUploadCommand, verified, was_rejected, skipped, reject_at, reject_known, reject, flip_ready,
  conclude, scan_and_close, scan_object, check_signature, after_signature, execute,
}

module _ {S : Type 0} (ports : Ports S) (limits : UploadLimits) where
  -- The first bytes of the object, as the port returned them in some world, are those of the declared type.
  pub record SignatureSeen (command : VerifyUploadCommand) : Type 0 where
    pub before : World S
    pub after : World S
    pub bytes : List ℕ
    pub detected : DetectedFileType
    pub read :
        ports.read_range command.key limits.magic_byte_count command.bucket before
        ≡ (ok bytes, after)
    pub recognized : detect_file_type bytes ≡ some detected
    pub declared : detected.mime_type ≡ command.declared_content_type

  -- The scanner was asked about the object, and did not call it infected.
  pub record ScanSeen (command : VerifyUploadCommand) : Type 0 where
    pub before : World S
    pub after : World S
    pub size : Option ℕ
    pub verdict : MalwareScanResult
    pub scanned : ports.scan command.key command.bucket size before ≡ (ok verdict, after)
    pub harmless : verdict ≢ infected

  assert_magic_bytes_match-ok :
      (bytes : List ℕ) (declared : String)
      → assert_magic_bytes_match bytes declared ≡ ok tt
      → (d : DetectedFileType) × (detect_file_type bytes ≡ some d) × (d.mime_type ≡ declared)
  unfolding assert_magic_bytes_match
  assert_magic_bytes_match-ok bytes declared h = elim (Option-cases (detect_file_type bytes)) [
    | inl unknown ↦ absurd (ground arith)
    | inr (d, e) ↦ (d, e, ground (arith, eq_iff d.mime_type declared))
  ]

  read_head-SignatureSeen :
      (command : VerifyUploadCommand)
      → Ensures
          (λ done. SignatureSeen command)
          (read_head_and_assert_magic_bytes ports limits command.key command.declared_content_type
            command.bucket)
  unfolding read_head_and_assert_magic_bytes
  read_head-SignatureSeen command =
      Ensures-bind_with _ _
        (Ensures-run (ports.read_range command.key limits.magic_byte_count command.bucket))
        λ bytes (s, t, e). Ensures-lift _ λ done matched.
          let (d, recognized, declared) =
            assert_magic_bytes_match-ok bytes command.declared_content_type matched in
          record {
            before = s;
            after = t;
            bytes = bytes;
            detected = d;
            read = e;
            recognized = recognized;
            declared = declared;
          }

  check_signature-SignatureSeen :
      (command : VerifyUploadCommand)
      → Ensures
          (λ failed. failed ≡ none → SignatureSeen command)
          (check_signature ports limits command)
  unfolding check_signature
  check_signature-SignatureSeen command =
      Ensures-try_catch _ _
        (Ensures-bind_with _ _ (read_head-SignatureSeen command)
          λ done seen. Ensures-pure none (λ e. seen))
        λ e.
          Ensures-if (is_policy_violation e) _ (throw e) (λ p. Ensures-pure _ (λ q. cc))
            (λ p. Ensures-throw e)

  reject_at-ne-verified :
      (k b : String) (s : StoredFileStatus)
      → Ensures (λ o. o ≢ verified) (reject_at ports limits k b s)
  unfolding reject_at
  reject_at-ne-verified k b rejected =
      Ensures-bind _ _ (λ done. Ensures-pure was_rejected (λ e. cc))
  reject_at-ne-verified k b _ = Ensures-pure skipped (λ e. cc)

  reject_known-ne-verified :
      (k b : String) (found : Option StoredFile)
      → Ensures (λ o. o ≢ verified) (reject_known ports limits k b found)
  unfolding reject_known
  reject_known-ne-verified k b none = Ensures-pure skipped (λ e. cc)
  reject_known-ne-verified k b (some file) = reject_at-ne-verified k b file.status

  reject-ne-verified :
      (k b reason : String) → Ensures (λ o. o ≢ verified) (reject ports limits k b reason)
  unfolding reject
  reject-ne-verified k b reason = Ensures-bind _ _ λ claimed.
      Ensures-if claimed _ _ (λ e. Ensures-bind _ _ (λ done. Ensures-pure was_rejected (λ e. cc)))
        (λ e. Ensures-bind _ _ (reject_known-ne-verified k b))

  conclude-harmless :
      (command : VerifyUploadCommand) (verdict : MalwareScanResult)
      → Ensures (λ o. o ≡ verified → verdict ≢ infected) (conclude ports limits command verdict)
  unfolding conclude flip_ready
  conclude-harmless command infected =
      Ensures-weaken _ (λ o n e. absurd (n e)) (reject-ne-verified command.key command.bucket _)
  conclude-harmless command clean =
      Ensures-bind _ _ λ time. Ensures-bind _ _ λ flipped. Ensures-pure _ (λ e h. cc)
  conclude-harmless command unscannable =
      Ensures-bind _ _ λ time. Ensures-bind _ _ λ flipped. Ensures-pure _ (λ e h. cc)

  scan_and_close-HasRun :
      (command : VerifyUploadCommand) (size : Option ℕ)
      → Ensures
          (HasRun (ports.scan command.key command.bucket size))
          (scan_and_close ports limits command size)
  unfolding scan_and_close
  scan_and_close-HasRun command size =
      Ensures-bind_with _ _
        (Ensures-try_catch _ _ (Ensures-run (ports.scan command.key command.bucket size))
          (λ e. Ensures-bind _ _ (λ done. Ensures-throw e)))
        λ verdict run. Ensures-bind _ _ (λ done. Ensures-pure verdict run)

  scan_object-ScanSeen :
      (command : VerifyUploadCommand)
      → Ensures (λ o. o ≡ verified → ScanSeen command) (scan_object ports limits command)
  unfolding scan_object
  scan_object-ScanSeen command = Ensures-bind _ _ λ meta. Ensures-bind _ _ λ opened.
      Ensures-bind_with _ _ (scan_and_close-HasRun command _) λ verdict (s, t, run).
        Ensures-weaken _
          (λ o harmless e. record {
            before = s;
            after = t;
            size = _;
            verdict = verdict;
            scanned = run;
            harmless = harmless e;
          })
          (conclude-harmless command verdict)

  after_signature-ScanSeen :
      (command : VerifyUploadCommand) (failed : Option String)
      → Ensures
          (λ o. o ≡ verified → (failed ≡ none) × ScanSeen command)
          (after_signature ports limits command failed)
  unfolding after_signature
  after_signature-ScanSeen command none =
      Ensures-weaken _ (λ o seen e. (refl, seen e)) (scan_object-ScanSeen command)
  after_signature-ScanSeen command (some reason) =
      Ensures-weaken _ (λ o n e. absurd (n e))
        (reject-ne-verified command.key command.bucket reason)

  -- Whatever the ports answer: a job that reports its file as verified has read first bytes that are
  -- those of the declared type, and a verdict of the scanner on that object other than infected.
  pub verify_sound :
      (command : VerifyUploadCommand)
      → Ensures
          (λ o. o ≡ verified → SignatureSeen command × ScanSeen command)
          (execute ports limits command)
  unfolding execute
  verify_sound command =
      Ensures-bind_with _ _ (check_signature-SignatureSeen command) λ failed signed.
        Ensures-weaken _
          (λ o seen e. let (none_failed, scanned) = seen e in (signed none_failed, scanned))
          (after_signature-ScanSeen command failed)
