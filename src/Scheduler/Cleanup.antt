-- ===== src/Scheduler/Cleanup.antt =====
-- apps/scheduler/src/app/tasks/stored-file-cleanup.task.ts: `StoredFileCleanupTask`. The storage is a
-- parameter; times are milliseconds.
use nestjs_fastify_nx.Common.{
  ℕ, zero, suc, ◌+◌, ◌-◌, ◌*◌, String, Bool, true, false, Option, none, some, List, [], ◌∷◌, ◌&&◌,
  ◌||◌, not, includes, length, or_else, ltb, eqb, if◌then◌else◌,
}
use nestjs_fastify_nx.Exec.{Exec, pure, try_catch, ◌>>=◌, ◌>>◌}
use nestjs_fastify_nx.Upload.StoredFile.{StoredFileStatus, finalizing, verifying, rejected}
use nestjs_fastify_nx.Upload.Repository.{same_status}
use nestjs_fastify_nx.Scheduler.Files.{
  FileRow, World, Flags, select_rows, claim, delete_row, delete_many,
}

-- `STORAGE_PORT`: whether `head` finds an object is only logged.
pub record Storage : Type 0 where
  pub head : String → String → Exec World Bool
  pub delete : String → String → Exec World (Unit {0})

pub record Settings : Type 0 where
  pub batch_size : ℕ
  pub finalizing_stale_minutes : ℕ
  pub verifying_stale_hours : ℕ
  pub rejected_retain_hours : ℕ
  pub orphan_grace_minutes : ℕ
  pub purge_after_days : ℕ
  pub purge_max_batches : ℕ

abbrev pub is_unverified : StoredFileStatus → Bool
is_unverified status = same_status status finalizing || same_status status verifying

-- `"deletedAt" IS NOT NULL AND "deletedAt" < cutoff`
abbrev pub is_past : ℕ → Option ℕ → Bool
is_past cutoff none = false
is_past cutoff (some deleted_at) = ltb deleted_at cutoff

abbrev pub is_due : ℕ → World → FileRow → Bool
is_due cutoff w row = is_past cutoff row.deleted_at

-- `ORDER BY "deletedAt"`, of rows that have one
abbrev pub deletion_time : FileRow → ℕ
deletion_time row = or_else row.deleted_at 0

unfoldable pub set_flags : (Flags → Flags) → Exec World (Unit {0})
set_flags change = λ w. pure tt (record w { flags = change w.flags })

-- `if (!isLeader() || running) return; running = true; try { … } finally { running = false; }`, of a
-- body that catches what it calls
unfoldable pub exclusively :
    (Flags → Bool) → (Bool → Flags → Flags) → Exec World (Unit {0}) → Exec World (Unit {0})
unfolding set_flags
exclusively running set body w =
    if not w.is_leader || running w.flags
    then pure tt w
    else (do set_flags (set true); body; set_flags (set false)) w

abbrev pub set_cleanup_running : Bool → Flags → Flags
set_cleanup_running running flags = record flags { cleanup_running = running }

abbrev pub set_orphan_running : Bool → Flags → Flags
set_orphan_running running flags = record flags { orphan_running = running }

abbrev pub set_purge_running : Bool → Flags → Flags
set_purge_running running flags = record flags { purge_running = running }

module _ (settings : Settings) (storage : Storage) where
  -- `confirmUnverifiedObject`
  unfoldable pub confirm_unverified_object : FileRow → Exec World Bool
  confirm_unverified_object candidate =
      try_catch (do storage.head candidate.key candidate.bucket; pure true) (λ e. pure false)

  -- `reclaimCandidate`, once nothing keeps the object
  unfoldable pub reclaim : FileRow → Exec World Bool
  unfolding claim delete_row
  reclaim candidate = do
    claimed ← claim candidate
    if claimed
        then (do storage.delete candidate.key candidate.bucket; delete_row candidate.id; pure true)
        else pure false

  unfoldable pub reclaim_candidate : FileRow → Exec World Bool
  unfolding confirm_unverified_object reclaim
  reclaim_candidate candidate =
      if is_unverified candidate.status
      then (do
        confirmed ← confirm_unverified_object candidate
        if confirmed then reclaim candidate else pure false)
      else reclaim candidate

  -- the loop of `processCandidates`, and what it counts
  unfoldable pub reclaim_all : List FileRow → ℕ → Exec World ℕ
  unfolding reclaim_candidate
  reclaim_all [] deleted = pure deleted
  reclaim_all (candidate ∷ candidates) deleted = do
    reclaimed ← try_catch (reclaim_candidate candidate) (λ e. pure false)
    reclaim_all candidates (if reclaimed then deleted + 1 else deleted)

  -- a query that rejects leaves no candidates
  unfoldable pub process_candidates : (World → FileRow → Bool) → Exec World (Unit {0})
  unfolding reclaim_all select_rows
  process_candidates where_ = do
    candidates ←
        try_catch (select_rows where_ (λ row. row.updated_at) settings.batch_size) (λ e. pure [])
    deleted ← reclaim_all candidates 0
    pure tt

  -- `status = … AND "updatedAt" < …`
  abbrev pub is_stale : StoredFileStatus → ℕ → World → FileRow → Bool
  is_stale status cutoff w row = same_status row.status status && ltb row.updated_at cutoff

  -- the scans of `cleanup`, whose cutoffs are taken together
  abbrev pub scans : ℕ → Exec World (Unit {0})
  scans now = do
    process_candidates (is_stale rejected (now - settings.rejected_retain_hours * 3_600_000))
    process_candidates (is_stale finalizing (now - settings.finalizing_stale_minutes * 60_000))
    process_candidates (is_stale verifying (now - settings.verifying_stale_hours * 3_600_000))

  -- `cleanup`
  unfoldable pub cleanup : Exec World (Unit {0})
  unfolding exclusively process_candidates
  cleanup w = exclusively (λ f. f.cleanup_running) set_cleanup_running (scans w.now) w

  abbrev pub without_user : ℕ → World → FileRow → Bool
  without_user cutoff w row = not (includes w.users row.user_id) && ltb row.updated_at cutoff

  abbrev pub without_organization : ℕ → World → FileRow → Bool
  without_organization cutoff w row =
      not (includes w.organizations row.organization_id) && ltb row.updated_at cutoff

  abbrev pub orphan_scans : ℕ → Exec World (Unit {0})
  orphan_scans cutoff = do
    process_candidates (without_user cutoff)
    process_candidates (without_organization cutoff)

  -- `cleanupOrphaned`
  unfoldable pub cleanup_orphaned : Exec World (Unit {0})
  unfolding exclusively process_candidates
  cleanup_orphaned w =
      exclusively (λ f. f.orphan_running) set_orphan_running
        (orphan_scans (w.now - settings.orphan_grace_minutes * 60_000)) w

  -- storage first, row second
  unfoldable pub purge_candidate : FileRow → Exec World Bool
  unfolding delete_many
  purge_candidate candidate =
      try_catch
        (do storage.delete candidate.key candidate.bucket; delete_many candidate.id; pure true)
        (λ e. pure false)

  -- `purgeBatch`
  unfoldable pub purge_batch : List FileRow → ℕ → Exec World ℕ
  unfolding purge_candidate
  purge_batch [] purged = pure purged
  purge_batch (candidate ∷ candidates) purged = do
    done ← purge_candidate candidate
    purge_batch candidates (if done then purged + 1 else purged)

  -- the loop of `purgeSoftDeleted`, by the batches left; `cutoff` is taken once, before it
  unfoldable pub purge_loop : ℕ → ℕ → Exec World (Unit {0})
  unfolding purge_batch select_rows
  purge_loop zero cutoff = pure tt
  purge_loop (suc batches) cutoff = do
    candidates ← select_rows (is_due cutoff) deletion_time settings.batch_size
    if eqb (length candidates) 0 then pure tt else (do
      purged ← purge_batch candidates 0
      if eqb purged 0 || ltb (length candidates) settings.batch_size
          then pure tt
          else purge_loop batches cutoff)

  -- `purgeSoftDeleted`
  unfoldable pub purge_soft_deleted : Exec World (Unit {0})
  unfolding exclusively purge_loop
  purge_soft_deleted w =
      let cutoff = w.now - settings.purge_after_days * 86_400_000 in
      exclusively (λ f. f.purge_running) set_purge_running
        (try_catch (purge_loop settings.purge_max_batches cutoff) (λ e. pure tt)) w
