-- ===== src/Upload/Jobs.antt =====
-- The moves of a verification job, and the final statuses.
use nestjs_fastify_nx.Common.{Bool, ◌≡◌, ℕ, String, Option, none, some}
use nestjs_fastify_nx.Exec.{Exec, pure}
use nestjs_fastify_nx.Exec.Rules.{
  IsPreorder, Moves, Moves-pure, Moves-throw, Moves-lift, Moves-if, Moves-try_catch, Moves-bind,
}
use nestjs_fastify_nx.Upload.StoredFile.{StoredFile, StoredFileStatus, rejected}
use nestjs_fastify_nx.Upload.Repository.{World, Selector, find_one}
use nestjs_fastify_nx.Upload.Ports.{
  Ports, UploadLimits, MalwareScanResult, clean, infected, unscannable,
}
use nestjs_fastify_nx.Upload.Confirm
use nestjs_fastify_nx.Upload.Confirm.{ConfirmUploadCommand}
use nestjs_fastify_nx.Upload.Verify
use nestjs_fastify_nx.Upload.Verify.{
  VerifyUploadCommand, reject_at, reject_known, reject, flip_ready, conclude, scan_and_close,
  scan_object, check_signature, after_signature,
}
use nestjs_fastify_nx.Upload.Lifecycle.{
  Evolves, Step, IsFinal, final-Reach, status_at, passed, failed, Runs-Evolves,
}
use nestjs_fastify_nx.Upload.Writes
use nestjs_fastify_nx.Upload.Writes.{
  Runs, VerifyStep, Runs-order, Moves-find_one, Moves-transition_by_key,
}
use nestjs_fastify_nx.Upload.Transitions.{
  PortsKeep, PortsMove, PortsKeep-Runs, read_head-Moves, confirm-Evolves,
}

module _ {S : Type 0} (R : World S → World S → Type 0) (ports : Ports S) (limits : UploadLimits)
    (rely : PortsKeep (Runs VerifyStep R) ports) where
  abbrev Guarantee : {A : Type 0} → Exec (World S) A → Type 0
  Guarantee m = Moves (Runs VerifyStep R) m

  order : IsPreorder (Runs VerifyStep R)
  order = Runs-order VerifyStep R

  find_one-Moves : (selector : Selector) → Guarantee (find_one selector)
  find_one-Moves selector = Moves-find_one VerifyStep R selector

  ruleset steps = (
    order, Moves-pure, Moves-throw, Moves-lift, Moves-if, Moves-try_catch, Moves-bind,
    find_one-Moves,
  )

  reject_at-Moves : (k b : String) (s : StoredFileStatus) → Guarantee (reject_at ports limits k b s)
  unfolding reject_at
  reject_at-Moves k b rejected = search (steps, rely.delete)
  reject_at-Moves k b _ = search steps

  reject_known-Moves :
      (k b : String) (found : Option StoredFile) → Guarantee (reject_known ports limits k b found)
  unfolding reject_known
  reject_known-Moves k b none = search steps
  reject_known-Moves k b (some file) = reject_at-Moves k b file.status

  reject-Moves : (k b reason : String) → Guarantee (reject ports limits k b reason)
  unfolding reject
  reject-Moves k b reason =
      Moves-bind order _ _ (Moves-transition_by_key VerifyStep R _ Writes.failed k)
        λ claimed. search (steps, rely.delete, reject_known-Moves)

  now-Moves : Guarantee (Verify.now {S = S})
  unfolding pure
  now-Moves = record { moves = order.reflexive }

  flip_ready-Moves :
      (command : VerifyUploadCommand) (verdict : MalwareScanResult)
      → Guarantee (flip_ready ports limits command verdict)
  unfolding flip_ready
  flip_ready-Moves command verdict = Moves-bind order _ _ now-Moves λ time.
      Moves-bind order _ _ (Moves-transition_by_key VerifyStep R _ Writes.passed command.key)
        λ flipped. Moves-pure order _

  conclude-Moves :
      (command : VerifyUploadCommand) (verdict : MalwareScanResult)
      → Guarantee (conclude ports limits command verdict)
  unfolding conclude
  conclude-Moves command infected = reject-Moves command.key command.bucket _
  conclude-Moves command clean = flip_ready-Moves command clean
  conclude-Moves command unscannable = flip_ready-Moves command unscannable

  scan_and_close-Moves :
      (command : VerifyUploadCommand) (size : Option ℕ)
      → Guarantee (scan_and_close ports limits command size)
  unfolding scan_and_close
  scan_and_close-Moves command size = search (steps, rely.scan, rely.close_stream)

  scan_object-Moves : (command : VerifyUploadCommand) → Guarantee (scan_object ports limits command)
  unfolding scan_object
  scan_object-Moves command =
      search (steps, rely.head, rely.read_stream, scan_and_close-Moves, conclude-Moves) depth 8

  check_signature-Moves :
      (command : VerifyUploadCommand) → Guarantee (check_signature ports limits command)
  unfolding check_signature
  check_signature-Moves command = search (steps, read_head-Moves ports limits order rely)

  after_signature-Moves :
      (command : VerifyUploadCommand) (failure : Option String)
      → Guarantee (after_signature ports limits command failure)
  unfolding after_signature
  after_signature-Moves command none = scan_object-Moves command
  after_signature-Moves command (some reason) = reject-Moves command.key command.bucket reason

  verify-Moves : (command : VerifyUploadCommand) → Guarantee (Verify.execute ports limits command)
  unfolding Verify.execute
  verify-Moves command = search (steps, check_signature-Moves, after_signature-Moves)

-- Whatever relation covers what happens while a port is awaited, and whatever the outcome, thrown
-- errors included, all else that happens to the table in a verification job are queries in which each
-- row stays, or goes from VERIFYING to READY or to REJECTED with nothing else of its file and its
-- deletion changed: no row comes or goes, and none that is still FINALIZING is touched.
pub verify-Runs :
    {S : Type 0} (R : World S → World S → Type 0) (ports : Ports S) (limits : UploadLimits)
    → PortsKeep R ports
    → (command : VerifyUploadCommand) (w : World S)
    → Runs VerifyStep R w (Verify.execute ports limits command w).1
verify-Runs R ports limits rely command w =
    (verify-Moves R ports limits (PortsKeep-Runs VerifyStep R ports rely) command).moves w

VerifyStep-Step : (scan : Bool) (a b : Option StoredFileStatus) → VerifyStep a b → Step scan a b
VerifyStep-Step scan a b Writes.passed = passed
VerifyStep-Step scan a b Writes.failed = failed

-- Where others keep to the status machine, a verification job does.
verify-Evolves :
    {S : Type 0} (ports : Ports S) (limits : UploadLimits)
    → PortsMove limits.malware_scan_enabled ports
    → (command : VerifyUploadCommand) (w : World S)
    → Evolves limits.malware_scan_enabled w (Verify.execute ports limits command w).1
verify-Evolves ports limits rely command w =
    Runs-Evolves VerifyStep (VerifyStep-Step limits.malware_scan_enabled)
      (verify-Runs (Evolves limits.malware_scan_enabled) ports limits rely command w)

-- Where other executions keep to the status machine, a row that is READY or REJECTED keeps that status
-- under any confirmation and under any verification job.
pub final_status_kept :
    {S : Type 0} (ports : Ports S) (limits : UploadLimits)
    → PortsMove limits.malware_scan_enabled ports
    → (confirmation : ConfirmUploadCommand) (job : VerifyUploadCommand) (w : World S) (id : String)
      (s : StoredFileStatus)
    → IsFinal s
    → status_at id w.rows ≡ some s
    → (status_at id (Confirm.execute ports limits confirmation w).1.rows ≡ some s)
      × (status_at id (Verify.execute ports limits job w).1.rows ≡ some s)
unfolding Evolves
final_status_kept ports limits rely confirmation job w id s f e = (
  final-Reach s f e (confirm-Evolves ports limits rely confirmation w id),
  final-Reach s f e (verify-Evolves ports limits rely job w id),
)
