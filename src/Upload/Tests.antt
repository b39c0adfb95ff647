-- ===== src/Upload/Tests.antt =====
-- The life of one file, with ports that answer at once.
use nestjs_fastify_nx.Common.{
  String, ◌≡◌, ◌≢◌, refl, arith, true, none, some, [], ◌∷◌, inl, add_all, includes,
}
use nestjs_fastify_nx.Common.Text.{from_last}
use nestjs_fastify_nx.Errors.{ok}
use nestjs_fastify_nx.Exec.{Exec, lift, ◌>>=◌, pure, throw, try_catch}
use nestjs_fastify_nx.Exec.Rules.{Ensures, Moves-lift}
use nestjs_fastify_nx.Authorization.Permissions.{JsonText, null, system_role_permissions}
use nestjs_fastify_nx.Authorization.Adapter.{Database, check, resolve_permissions}
use nestjs_fastify_nx.Upload.StoredFile.{
  StoredFile, finalizing, verifying, ready, assert_owns_source_key, assert_mime_allowed,
  assert_size_within_limit,
}
use nestjs_fastify_nx.Upload.Repository.{
  Row, World, by_id, find_one, set_status, transition, transition_by_key, create,
}
use nestjs_fastify_nx.Upload.Ports
use nestjs_fastify_nx.Upload.Ports.{Ports, ObjectMetadata, UploadLimits, VerificationJob}
use nestjs_fastify_nx.Upload.Publication.{result}
use nestjs_fastify_nx.Upload.Confirm
use nestjs_fastify_nx.Upload.Confirm.{ConfirmUploadCommand, missing}
use nestjs_fastify_nx.Upload.Verify
use nestjs_fastify_nx.Upload.Verify.{VerifyUploadCommand, verified}
use nestjs_fastify_nx.Upload.Access.{FileRequest, delete_upload}
use nestjs_fastify_nx.Upload.Lifecycle.{Evolves-order, status_at}
use nestjs_fastify_nx.Upload.Transitions.{PortsKeep, PortsMove, confirm-Runs}
use nestjs_fastify_nx.Upload.Writes.{Runs, ConfirmStep, VerifyStep}
use nestjs_fastify_nx.Upload.Jobs.{verify-Runs, final_status_kept}
use nestjs_fastify_nx.Upload.Outcomes.{IsPublished, confirm-publishes}
use nestjs_fastify_nx.Upload.Verification.{SignatureSeen, ScanSeen, verify_sound}
use nestjs_fastify_nx.Upload.Deletion.{delete_upload-deletes}

code : Unit {0}
unfolding Confirm.execute Verify.execute lift ◌>>=◌ pure throw try_catch transition
    transition_by_key create delete_upload find_one set_status status_at
code = tt

abbrev Outside : Type 0
Outside = Unit

abbrev answer : {A : Type 0} → A → Exec (World Outside) A
answer a = lift (ok a)

abbrev ports : Ports Outside
ports = record {
  head = λ key bucket.
      answer
        (some (record { content_type = "application/pdf"; size = 5; bucket = "b"; etag = "e" }));
  finalize = λ source_key final_key etag bucket. answer tt;
  delete = λ key bucket. answer tt;
  read_range = λ key n bucket. answer (0x25 ∷ 0x50 ∷ 0x44 ∷ 0x46 ∷ 0x2d ∷ []);
  read_stream = λ key bucket. answer tt;
  close_stream = λ key bucket. answer tt;
  get_signed_url = λ key bucket. answer "https://b/k";
  presign_upload = λ key content_type max_bytes seconds. answer (record {
    url = "https://b";
    key = key;
    content_type = content_type;
    max_bytes = max_bytes;
    expires_in_seconds = seconds;
  });
  scan = λ key bucket size. answer Ports.clean;
  dispatch = λ job. answer tt;
  generate_id = answer "1";
}

abbrev limits : UploadLimits
limits = record {
  max_file_bytes = 10;
  presign_expires_seconds = 60;
  magic_byte_count = 16;
  malware_scan_enabled = true;
  bucket = "b";
}

rely : PortsMove true ports
rely = record {
  head = λ k b. Moves-lift (Evolves-order true) _;
  finalize = λ s f e b. Moves-lift (Evolves-order true) _;
  delete = λ k b. Moves-lift (Evolves-order true) _;
  read_range = λ k n b. Moves-lift (Evolves-order true) _;
  read_stream = λ k b. Moves-lift (Evolves-order true) _;
  close_stream = λ k b. Moves-lift (Evolves-order true) _;
  get_signed_url = λ k b. Moves-lift (Evolves-order true) _;
  scan = λ k b n. Moves-lift (Evolves-order true) _;
  dispatch = λ job. Moves-lift (Evolves-order true) _;
  generate_id = Moves-lift (Evolves-order true) _;
}

abbrev file : StoredFile
file = record {
  id = "f1";
  organization_id = "o1";
  user_id = "ann";
  source_key = "uploads/ann/1.pdf";
  key = "files/f1.pdf";
  bucket = "b";
  content_type = "application/pdf";
  size = 5;
  etag = "e";
  status = ready;
}

abbrev empty_world : World Outside
empty_world = record { rows = []; now = 7; outside = tt }

abbrev row : Row
row = record {
  file = file;
  failure_reason = none;
  scan_outcome = none;
  verified_at = none;
  deleted_at = none;
}

abbrev stored : World Outside
stored = record empty_world { rows = row ∷ [] }

abbrev confirmation : ConfirmUploadCommand
confirmation = record {
  organization_id = "o1";
  user_id = "ann";
  source_key = "uploads/ann/1.pdf";
  correlation_id = none;
}

abbrev job : VerifyUploadCommand
job = record {
  key = "files/f1.pdf";
  declared_content_type = "application/pdf";
  bucket = "b";
  correlation_id = none;
}

-- Nothing happens while a port is awaited.
abbrev Quiet : World Outside → World Outside → Type 0
Quiet w v = w ≡ v

quiet : PortsKeep Quiet ports
unfolding lift
quiet = record {
  head = λ k b. record { moves = λ w. refl };
  finalize = λ s f e b. record { moves = λ w. refl };
  delete = λ k b. record { moves = λ w. refl };
  read_range = λ k n b. record { moves = λ w. refl };
  read_stream = λ k b. record { moves = λ w. refl };
  close_stream = λ k b. record { moves = λ w. refl };
  get_signed_url = λ k b. record { moves = λ w. refl };
  scan = λ k b n. record { moves = λ w. refl };
  dispatch = λ job. record { moves = λ w. refl };
  generate_id = record { moves = λ w. refl };
}

abbrev in_verifying : World Outside
in_verifying = record empty_world {
  rows = record row { file = record file { status = verifying } } ∷ [];
}

confirm-Runs_example :
    Runs
      (ConfirmStep true)
      Quiet
      empty_world
      (Confirm.execute ports limits confirmation empty_world).1
confirm-Runs_example = confirm-Runs Quiet ports limits quiet confirmation empty_world

verify-Runs_example :
    Runs VerifyStep Quiet in_verifying (Verify.execute ports limits job in_verifying).1
verify-Runs_example = verify-Runs Quiet ports limits quiet job in_verifying

final_status_kept_example :
    (status_at "f1" (Confirm.execute ports limits confirmation stored).1.rows ≡ some ready)
    × (status_at "f1" (Verify.execute ports limits job stored).1.rows ≡ some ready)
final_status_kept_example =
    final_status_kept ports limits rely confirmation job stored "f1" ready (inl refl)
      (unfold status_at in refl)

confirm-publishes_example : Ensures IsPublished (Confirm.execute ports limits confirmation)
confirm-publishes_example = confirm-publishes ports limits confirmation

verify_sound_example :
    Ensures
      (λ o. o ≡ verified → SignatureSeen ports limits job × ScanSeen ports limits job)
      (Verify.execute ports limits job)
verify_sound_example = verify_sound ports limits job

verifying-ne-finalizing : verifying ≢ finalizing
verifying-ne-finalizing e = ground arith

abbrev json : JsonText
json = record { parse = λ t. ok null; stringify = λ value. "null" }

abbrev database : Database
database = record {
  members =
      record { organization_id = "o1"; user_id = "ann"; role = "member" }
      ∷ record { organization_id = "o1"; user_id = "bob"; role = "viewer" }
      ∷ [];
  organization_roles = [];
}

abbrev asked_by : String → FileRequest
asked_by user_id = record { organization_id = "o1"; user_id = user_id; file_id = "f1" }

delete_upload-deletes_example :
    ((delete_upload json database (asked_by "ann") stored).0 ≡ ok tt)
    × ((find_one (by_id "f1") (delete_upload json database (asked_by "ann") stored).1).0 ≡ ok none)
unfolding find_one check resolve_permissions system_role_permissions add_all
delete_upload-deletes_example =
    delete_upload-deletes json database (asked_by "ann") stored file refl refl

-- With scanning on, a confirmed file waits for its verification; the job then makes it ready.
lifecycle_test :
    (status_at "1" (Confirm.execute ports limits confirmation empty_world).1.rows ≡ some verifying)
    × (status_at "1"
          (Verify.execute ports limits
            (record job { key = "files/ann/1.pdf" })
            (Confirm.execute ports limits confirmation empty_world).1).1.rows
        ≡ some ready)
unfolding code assert_owns_source_key assert_mime_allowed assert_size_within_limit includes result
    from_last
lifecycle_test = (refl, refl)
