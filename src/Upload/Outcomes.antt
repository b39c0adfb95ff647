-- ===== src/Upload/Outcomes.antt =====
-- What the upload handlers answer, and what they leave alone.
use text.Mathlib.Text.{starts_with}
use nestjs_fastify_nx.Common.{
  String, ◌≡◌, refl, ◌==◌, ◌||◌, Bool, true, false, Option, none, some, arith, inl, inr, ◌⊎◌, not,
  if◌then◌else◌, is_some,
}
use nestjs_fastify_nx.Errors.{err}
use nestjs_fastify_nx.Exec.{Exec, throw, lift, ◌>>=◌}
use nestjs_fastify_nx.Exec.Rules.{
  Ensures, Ensures-pure, Ensures-throw, Ensures-if, Ensures-bind, Ensures-bind_with,
}
use nestjs_fastify_nx.Upload.StoredFile.{
  StoredFile, StoredFileStatus, finalizing, verifying, ready, rejected, with_status,
  assert_owns_source_key, own_prefix,
}
use nestjs_fastify_nx.Upload.Repository.{World}
use nestjs_fastify_nx.Upload.Ports.{Ports, ObjectMetadata, UploadLimits}
use nestjs_fastify_nx.Upload.Publication.{StoredFileResult, described, url_for, result}
use nestjs_fastify_nx.Upload.Confirm.{
  ConfirmUploadCommand, missing, report_moved, moved_elsewhere, after_transition,
  complete_finalizing, resume, recover_at, recover_existing, recover_concurrent, publish_created,
  publish, confirm_staged, confirm_known, execute, new_props, published_status,
}

-- The answer describes a file that is queued for verification, without a link, or ready, with one.
abbrev pub IsPublished : StoredFileResult → Type 0
IsPublished r =
    ((r.status ≡ verifying) × (r.url ≡ none)) ⊎ ((r.status ≡ ready) × (is_some r.url ≡ true))

-- The link that goes with a status.
abbrev HasUrl : StoredFileStatus → Option String → Type 0
HasUrl ready url = is_some url ≡ true
HasUrl _ url = url ≡ none

module _ {S : Type 0} (ports : Ports S) where
  url_for-HasUrl :
      (file : StoredFile) (s : StoredFileStatus) → Ensures (HasUrl s) (url_for ports file s)
  unfolding url_for
  url_for-HasUrl file ready = Ensures-bind _ _ (λ url. Ensures-pure _ refl)
  url_for-HasUrl file finalizing = Ensures-pure _ refl
  url_for-HasUrl file verifying = Ensures-pure _ refl
  url_for-HasUrl file rejected = Ensures-pure _ refl

  described-IsPublished :
      (file : StoredFile) (url : Option String) (s : StoredFileStatus)
      → file.status ≡ s
      → (s ≡ verifying) ⊎ (s ≡ ready)
      → HasUrl s url
      → IsPublished (described file url)
  described-IsPublished file url finalizing e h u = ground arith
  described-IsPublished file url verifying e h u = inl (e, u)
  described-IsPublished file url ready e h u = inr (e, u)
  described-IsPublished file url rejected e h u = ground arith

  result-IsPublished :
      (file : StoredFile) (c : Option String)
      → (file.status ≡ verifying) ⊎ (file.status ≡ ready)
      → Ensures IsPublished (result ports file c)
  unfolding result
  result-IsPublished file c h = Ensures-bind _ _ (λ done.
      Ensures-bind_with {Q = HasUrl file.status} _ _ (url_for-HasUrl file file.status)
        (λ url u. Ensures-pure _ (described-IsPublished file url file.status refl h u)))

module _ {S : Type 0} (ports : Ports S) (limits : UploadLimits) where
  Publishes : Exec (World S) StoredFileResult → Type 0
  Publishes m = Ensures IsPublished m

  report_moved-publishes :
      (file : StoredFile) (c : Option String) (s : StoredFileStatus)
      → file.status ≡ s
      → Ensures IsPublished (report_moved ports limits file c s)
  unfolding report_moved
  report_moved-publishes file c finalizing e = Ensures-throw _
  report_moved-publishes file c rejected e = Ensures-throw _
  report_moved-publishes file c verifying e = result-IsPublished ports file c (inl e)
  report_moved-publishes file c ready e = result-IsPublished ports file c (inr e)

  moved_elsewhere-publishes :
      (c : Option String) (found : Option StoredFile)
      → Ensures IsPublished (moved_elsewhere ports limits c found)
  unfolding moved_elsewhere
  moved_elsewhere-publishes c none = Ensures-throw _
  moved_elsewhere-publishes c (some file) = report_moved-publishes file c file.status refl

  published_status_lem :
      (b : Bool)
      → ((if b then verifying else ready) ≡ verifying) ⊎ ((if b then verifying else ready) ≡ ready)
  published_status_lem true = inl refl
  published_status_lem false = inr refl

  after_transition-publishes :
      (file : StoredFile) (c : Option String) (b : Bool)
      → Ensures IsPublished (after_transition ports limits file c b)
  unfolding after_transition
  after_transition-publishes file c true =
      result-IsPublished ports (with_status file (published_status limits)) c
        (published_status_lem limits.malware_scan_enabled)
  after_transition-publishes file c false = Ensures-bind _ _ (moved_elsewhere-publishes c)

  complete_finalizing-publishes :
      (file : StoredFile) (c : Option String)
      → Ensures IsPublished (complete_finalizing ports limits file c)
  unfolding complete_finalizing
  complete_finalizing-publishes file c =
      Ensures-bind _ _ (λ done. Ensures-bind _ _ (after_transition-publishes file c))

  resume-publishes :
      (file : StoredFile) (c : Option String) (meta : Option ObjectMetadata)
      → Ensures IsPublished (resume ports limits file c meta)
  unfolding resume
  resume-publishes file c none = Ensures-throw _
  resume-publishes file c (some meta) = complete_finalizing-publishes file c

  recover_at-publishes :
      (file : StoredFile) (c : Option String) (s : StoredFileStatus)
      → file.status ≡ s
      → Ensures IsPublished (recover_at ports limits file c s)
  unfolding recover_at
  recover_at-publishes file c finalizing e = Ensures-bind _ _ (resume-publishes file c)
  recover_at-publishes file c rejected e = Ensures-throw _
  recover_at-publishes file c verifying e = result-IsPublished ports file c (inl e)
  recover_at-publishes file c ready e = result-IsPublished ports file c (inr e)

  recover_existing-publishes :
      (file : StoredFile) (c : Option String)
      → Ensures IsPublished (recover_existing ports limits file c)
  unfolding recover_existing
  recover_existing-publishes file c = recover_at-publishes file c file.status refl

  recover_concurrent-publishes :
      (c : Option String) (found : Option StoredFile)
      → Ensures IsPublished (recover_concurrent ports limits c found)
  unfolding recover_concurrent
  recover_concurrent-publishes c none = Ensures-throw _
  recover_concurrent-publishes c (some file) = recover_existing-publishes file c

  publish_created-publishes :
      (file : StoredFile) (c : Option String)
      → Ensures IsPublished (publish_created ports limits file c)
  unfolding publish_created
  publish_created-publishes file c = Ensures-bind _ _ (λ done. complete_finalizing-publishes file c)

  publish-publishes :
      (command : ConfirmUploadCommand) (meta : ObjectMetadata)
      → Ensures IsPublished (publish ports limits command meta)
  unfolding publish
  publish-publishes command meta = Ensures-bind _ _ λ id. Ensures-bind _ _ λ made.
      Ensures-if made _ _
        (λ e. publish_created-publishes (new_props command meta id) command.correlation_id)
        (λ e. Ensures-bind _ _ (recover_concurrent-publishes command.correlation_id))

  confirm_staged-publishes :
      (command : ConfirmUploadCommand) (meta : Option ObjectMetadata)
      → Ensures IsPublished (confirm_staged ports limits command meta)
  unfolding confirm_staged
  confirm_staged-publishes command none = Ensures-throw _
  confirm_staged-publishes command (some meta) =
      Ensures-bind _ _ (λ done. publish-publishes command meta)

  confirm_known-publishes :
      (command : ConfirmUploadCommand) (found : Option StoredFile)
      → Ensures IsPublished (confirm_known ports limits command found)
  unfolding confirm_known
  confirm_known-publishes command none = Ensures-bind _ _ (confirm_staged-publishes command)
  confirm_known-publishes command (some file) =
      Ensures-if
        (not (file.organization_id == command.organization_id)
          || not (file.user_id == command.user_id))
        (throw missing) _ (λ e. Ensures-throw missing)
        (λ e. recover_existing-publishes file command.correlation_id)

  -- Whatever the ports answer, a confirmation that returns describes a file that is queued for
  -- verification and has no link, or one that is ready and has a link: never one that is still being
  -- finalized or was rejected.
  pub confirm-publishes :
      (command : ConfirmUploadCommand) → Ensures IsPublished (execute ports limits command)
  unfolding execute
  confirm-publishes command =
      Ensures-bind _ _ (λ owned. Ensures-bind _ _ (confirm_known-publishes command))

  -- A source key outside the caller's own prefix is answered as missing, and neither the database nor
  -- any port is asked: the world is as it was.
  pub confirm-foreign_key :
      (command : ConfirmUploadCommand) (w : World S)
      → starts_with command.source_key (own_prefix command.user_id) ≡ false
      → execute ports limits command w ≡ (err missing, w)
  unfolding execute assert_owns_source_key lift ◌>>=◌
  confirm-foreign_key command w h = rw h
