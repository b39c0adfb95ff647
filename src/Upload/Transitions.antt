-- ===== src/Upload/Transitions.antt =====
-- The moves of a confirmation, whatever runs while it awaits a port.
use nestjs_fastify_nx.Common.{ℕ, String, refl, Bool, true, false, Option, none, some, if◌then◌else◌}
use nestjs_fastify_nx.Exec.{Exec}
use nestjs_fastify_nx.Exec.Rules.{
  IsPreorder, Moves, Moves-pure, Moves-throw, Moves-lift, Moves-if, Moves-try_catch, Moves-bind,
}
use nestjs_fastify_nx.Upload.StoredFile.{
  StoredFile, StoredFileStatus, finalizing, verifying, ready, rejected,
}
use nestjs_fastify_nx.Upload.Repository.{
  World, Selector, find_one, no_fields, transition, delete_if_status,
}
use nestjs_fastify_nx.Upload.Ports.{
  Ports, ObjectMetadata, UploadLimits, VerificationJob, read_head_and_assert_magic_bytes,
}
use nestjs_fastify_nx.Upload.Publication.{enqueue, url_for, result}
use nestjs_fastify_nx.Upload.Confirm
use nestjs_fastify_nx.Upload.Confirm.{
  ConfirmUploadCommand, safe_delete, validate_staged_object, report_moved, moved_elsewhere,
  published_status, check_final_object, after_transition, complete_finalizing, resume, recover_at,
  recover_existing, recover_concurrent, publish_created, publish, confirm_staged, confirm_known,
}
use nestjs_fastify_nx.Upload.Lifecycle.{
  Evolves, Step, created, abandoned, queued, published, refused, Runs-Evolves,
}
use nestjs_fastify_nx.Upload.Writes
use nestjs_fastify_nx.Upload.Writes.{
  Runs, ConfirmStep, Runs-order, Moves-other, Moves-find_one, Moves-create, Moves-transition,
  Moves-delete_if_status,
}

-- What is asked of the ports: while one is awaited, the world changes only as the relation allows.
pub record PortsKeep {S : Type 0} (R : World S → World S → Type 0) (ports : Ports S) : Type 0 where
  pub head : (k : String) (b : Option String) → Moves R (ports.head k b)
  pub finalize :
      (source_key final_key etag bucket : String)
      → Moves R (ports.finalize source_key final_key etag bucket)
  pub delete : (k : String) (b : Option String) → Moves R (ports.delete k b)
  pub read_range : (k : String) (n : ℕ) (b : String) → Moves R (ports.read_range k n b)
  pub read_stream : (k b : String) → Moves R (ports.read_stream k b)
  pub close_stream : (k b : String) → Moves R (ports.close_stream k b)
  pub get_signed_url : (k b : String) → Moves R (ports.get_signed_url k b)
  pub scan : (k b : String) (n : Option ℕ) → Moves R (ports.scan k b n)
  pub dispatch : (job : VerificationJob) → Moves R (ports.dispatch job)
  pub generate_id : Moves R ports.generate_id

-- Other executions move rows only along the status machine too.
abbrev pub PortsMove : {S : Type 0} → Bool → Ports S → Type 0
PortsMove scanning ports = PortsKeep (Evolves scanning) ports

-- A call of a port stands in a run as what others do.
pub PortsKeep-Runs :
    {S : Type 0} (Own : Option StoredFileStatus → Option StoredFileStatus → Type 0)
    (R : World S → World S → Type 0) (ports : Ports S)
    → PortsKeep R ports
    → PortsKeep (Runs Own R) ports
PortsKeep-Runs Own R ports rely = record {
  head = λ k b. Moves-other Own R _ (rely.head k b);
  finalize = λ s f e b. Moves-other Own R _ (rely.finalize s f e b);
  delete = λ k b. Moves-other Own R _ (rely.delete k b);
  read_range = λ k n b. Moves-other Own R _ (rely.read_range k n b);
  read_stream = λ k b. Moves-other Own R _ (rely.read_stream k b);
  close_stream = λ k b. Moves-other Own R _ (rely.close_stream k b);
  get_signed_url = λ k b. Moves-other Own R _ (rely.get_signed_url k b);
  scan = λ k b n. Moves-other Own R _ (rely.scan k b n);
  dispatch = λ job. Moves-other Own R _ (rely.dispatch job);
  generate_id = Moves-other Own R _ rely.generate_id;
}

module _ {S : Type 0} (ports : Ports S) (limits : UploadLimits) {G : World S → World S → Type 0}
    (order : IsPreorder G) (rely : PortsKeep G ports) where
  pub read_head-Moves :
      (k t b : String) → Moves G (read_head_and_assert_magic_bytes ports limits k t b)
  unfolding read_head_and_assert_magic_bytes
  read_head-Moves k t b = search (order, Moves-lift, Moves-bind, rely.read_range)

module _ {S : Type 0} (R : World S → World S → Type 0) (ports : Ports S) (limits : UploadLimits)
    (rely : PortsKeep (Runs (ConfirmStep limits.malware_scan_enabled) R) ports) where
  abbrev Guarantee : {A : Type 0} → Exec (World S) A → Type 0
  Guarantee m = Moves (Runs (ConfirmStep limits.malware_scan_enabled) R) m

  order : IsPreorder (Runs (ConfirmStep limits.malware_scan_enabled) R)
  order = Runs-order (ConfirmStep limits.malware_scan_enabled) R

  find_one-Moves : (selector : Selector) → Guarantee (find_one selector)
  find_one-Moves selector = Moves-find_one (ConfirmStep limits.malware_scan_enabled) R selector

  ruleset steps = (
    order, Moves-pure, Moves-throw, Moves-lift, Moves-if, Moves-try_catch, Moves-bind,
    find_one-Moves,
  )

  enqueue-Moves :
      (file : StoredFile) (c : Option String) (s : StoredFileStatus)
      → Guarantee (enqueue ports file c s)
  unfolding enqueue
  enqueue-Moves file c verifying = search (steps, rely.dispatch)
  enqueue-Moves file c _ = search steps

  url_for-Moves : (file : StoredFile) (s : StoredFileStatus) → Guarantee (url_for ports file s)
  unfolding url_for
  url_for-Moves file ready = search (steps, rely.get_signed_url)
  url_for-Moves file _ = search steps

  result-Moves : (file : StoredFile) (c : Option String) → Guarantee (result ports file c)
  unfolding result
  result-Moves file c = search (steps, enqueue-Moves, url_for-Moves)

  safe_delete-Moves : (k : String) → Guarantee (safe_delete ports limits k)
  unfolding safe_delete
  safe_delete-Moves k = search (steps, rely.delete)

  validate-Moves :
      (k : String) (meta : ObjectMetadata) → Guarantee (validate_staged_object ports limits k meta)
  unfolding validate_staged_object
  validate-Moves k meta = search (steps, safe_delete-Moves)

  report_moved-Moves :
      (file : StoredFile) (c : Option String) (s : StoredFileStatus)
      → Guarantee (report_moved ports limits file c s)
  unfolding report_moved
  report_moved-Moves file c finalizing = search steps
  report_moved-Moves file c rejected = search steps
  report_moved-Moves file c _ = search (steps, result-Moves)

  moved_elsewhere-Moves :
      (c : Option String) (found : Option StoredFile)
      → Guarantee (moved_elsewhere ports limits c found)
  unfolding moved_elsewhere
  moved_elsewhere-Moves c none = search steps
  moved_elsewhere-Moves c (some current) = report_moved-Moves current c current.status

  refuse-Moves : (id : String) → Guarantee (transition id finalizing rejected no_fields)
  refuse-Moves id =
      Moves-transition (ConfirmStep limits.malware_scan_enabled) R no_fields Writes.refused id

  check_final_object-Moves : (file : StoredFile) → Guarantee (check_final_object ports limits file)
  unfolding check_final_object
  check_final_object-Moves file =
      search (steps, read_head-Moves ports limits order rely, refuse-Moves, rely.delete) depth 9

  after_transition-Moves :
      (file : StoredFile) (c : Option String) (b : Bool)
      → Guarantee (after_transition ports limits file c b)
  unfolding after_transition
  after_transition-Moves file c true = result-Moves _ c
  after_transition-Moves file c false = search (steps, moved_elsewhere-Moves)

  -- FINALIZING leads to VERIFYING where the scanner is on, and to READY only where it is off.
  published-Step :
      (b : Bool) → ConfirmStep b (some finalizing) (some (if b then verifying else ready))
  published-Step true = Writes.queued refl
  published-Step false = Writes.published refl

  publish_transition-Moves :
      (id : String) → Guarantee (transition id finalizing (published_status limits) no_fields)
  publish_transition-Moves id =
      Moves-transition (ConfirmStep limits.malware_scan_enabled) R no_fields
        (published-Step limits.malware_scan_enabled) id

  complete_finalizing-Moves :
      (file : StoredFile) (c : Option String) → Guarantee (complete_finalizing ports limits file c)
  unfolding complete_finalizing
  complete_finalizing-Moves file c =
      search (steps, check_final_object-Moves, publish_transition-Moves, after_transition-Moves)

  resume-Moves :
      (file : StoredFile) (c : Option String) (meta : Option ObjectMetadata)
      → Guarantee (resume ports limits file c meta)
  unfolding resume
  resume-Moves file c none = search steps
  resume-Moves file c (some meta) = complete_finalizing-Moves file c

  recover_at-Moves :
      (file : StoredFile) (c : Option String) (s : StoredFileStatus)
      → Guarantee (recover_at ports limits file c s)
  unfolding recover_at
  recover_at-Moves file c rejected = search steps
  recover_at-Moves file c finalizing = search (steps, rely.head, resume-Moves)
  recover_at-Moves file c _ = search (steps, result-Moves)

  recover_existing-Moves :
      (file : StoredFile) (c : Option String) → Guarantee (recover_existing ports limits file c)
  unfolding recover_existing
  recover_existing-Moves file c = recover_at-Moves file c file.status

  recover_concurrent-Moves :
      (c : Option String) (found : Option StoredFile)
      → Guarantee (recover_concurrent ports limits c found)
  unfolding recover_concurrent
  recover_concurrent-Moves c none = search steps
  recover_concurrent-Moves c (some file) = recover_existing-Moves file c

  abandon-Moves : (id : String) → Guarantee (delete_if_status id finalizing)
  abandon-Moves id =
      Moves-delete_if_status (ConfirmStep limits.malware_scan_enabled) R id finalizing
        Writes.abandoned

  publish_created-Moves :
      (file : StoredFile) (c : Option String) → Guarantee (publish_created ports limits file c)
  unfolding publish_created
  publish_created-Moves file c =
      search (steps, rely.finalize, abandon-Moves, complete_finalizing-Moves) depth 8

  publish-Moves :
      (command : ConfirmUploadCommand) (meta : ObjectMetadata)
      → Guarantee (publish ports limits command meta)
  unfolding publish
  publish-Moves command meta = Moves-bind order _ _ rely.generate_id λ id.
      Moves-bind order _ _
        (Moves-create (ConfirmStep limits.malware_scan_enabled) R _ Writes.created)
        λ made. search (steps, publish_created-Moves, recover_concurrent-Moves)

  confirm_staged-Moves :
      (command : ConfirmUploadCommand) (meta : Option ObjectMetadata)
      → Guarantee (confirm_staged ports limits command meta)
  unfolding confirm_staged
  confirm_staged-Moves command none = search steps
  confirm_staged-Moves command (some meta) = search (steps, validate-Moves, publish-Moves)

  confirm_known-Moves :
      (command : ConfirmUploadCommand) (found : Option StoredFile)
      → Guarantee (confirm_known ports limits command found)
  unfolding confirm_known
  confirm_known-Moves command none = search (steps, rely.head, confirm_staged-Moves)
  confirm_known-Moves command (some file) = search (steps, recover_existing-Moves)

  confirm-Moves :
      (command : ConfirmUploadCommand) → Guarantee (Confirm.execute ports limits command)
  unfolding Confirm.execute
  confirm-Moves command = search (steps, confirm_known-Moves)

-- Whatever relation covers what happens while a port is awaited, and whatever the outcome, thrown
-- errors included, all else that happens to the table in a confirmation are queries in which rows
-- come in FINALIZING, and each other row stays, or goes from FINALIZING to VERIFYING (with scanning
-- on only), to READY (with scanning off only) or to REJECTED with nothing else of its file and its
-- deletion changed, or is removed in FINALIZING.
pub confirm-Runs :
    {S : Type 0} (R : World S → World S → Type 0) (ports : Ports S) (limits : UploadLimits)
    → PortsKeep R ports
    → (command : ConfirmUploadCommand) (w : World S)
    → Runs (ConfirmStep limits.malware_scan_enabled) R w (Confirm.execute ports limits command w).1
confirm-Runs R ports limits rely command w =
    (confirm-Moves R ports limits
        (PortsKeep-Runs (ConfirmStep limits.malware_scan_enabled) R ports rely) command).moves
      w

ConfirmStep-Step :
    (scan : Bool) (a b : Option StoredFileStatus) → ConfirmStep scan a b → Step scan a b
ConfirmStep-Step scan a b Writes.created = created
ConfirmStep-Step scan a b Writes.abandoned = abandoned
ConfirmStep-Step scan a b (Writes.queued h) = queued
ConfirmStep-Step scan a b (Writes.published h) = published h
ConfirmStep-Step scan a b Writes.refused = refused

-- Where others keep to the status machine, a confirmation does.
pub confirm-Evolves :
    {S : Type 0} (ports : Ports S) (limits : UploadLimits)
    → PortsMove limits.malware_scan_enabled ports
    → (command : ConfirmUploadCommand) (w : World S)
    → Evolves limits.malware_scan_enabled w (Confirm.execute ports limits command w).1
confirm-Evolves ports limits rely command w =
    Runs-Evolves (ConfirmStep limits.malware_scan_enabled)
      (ConfirmStep-Step limits.malware_scan_enabled)
      (confirm-Runs (Evolves limits.malware_scan_enabled) ports limits rely command w)
