-- ===== src/Scheduler/Tests.antt =====
-- One file of each kind, a storage that deletes, and the three tasks.
use nestjs_fastify_nx.Common.{
  String, ◌≡◌, refl, sym, ◌∙◌, ◌==◌, arith, eq_iff, Bool, true, false, not, ◌&&◌, none, some, List,
  [], ◌∷◌, exists, keep, length,
}
use nestjs_fastify_nx.Errors.{ok}
use nestjs_fastify_nx.Exec.{pure, try_catch, ◌>>=◌}
use nestjs_fastify_nx.Upload.StoredFile.{finalizing, ready}
use nestjs_fastify_nx.Scheduler.Files.{FileRow, World}
use nestjs_fastify_nx.Scheduler.Cleanup.{
  Storage, Settings, cleanup, cleanup_orphaned, purge_soft_deleted,
}
use nestjs_fastify_nx.Scheduler.Pointers.{
  is_stored, has_row, KeepsPointers, KeepsPointers-IsPreorder, HasOwnIds, IsSafeStorage,
}
use nestjs_fastify_nx.Scheduler.Tasks.{
  cleanup-KeepsPointers, cleanup_orphaned-KeepsPointers, purge_soft_deleted-KeepsPointers,
}

abbrev is_other : String → String → (String × String) → Bool
is_other key bucket o = not (o.0 == key && o.1 == bucket)

abbrev storage : Storage
storage = record {
  head = λ key bucket w. (ok (is_stored w key bucket), w);
  delete = λ key bucket w. (ok tt, record w { objects = keep (is_other key bucket) w.objects });
}

gone :
    (key bucket : String) (objects : List (String × String))
    → exists (λ o. o.0 == key && o.1 == bucket) (keep (is_other key bucket) objects) ≡ false
gone key bucket [] = refl
gone key bucket (o ∷ os) = ground (arith, gone key bucket os)

fewer :
    (key bucket key' bucket' : String) (objects : List (String × String))
    → exists (λ o. o.0 == key' && o.1 == bucket') (keep (is_other key bucket) objects) ≡ true
    → exists (λ o. o.0 == key' && o.1 == bucket') objects ≡ true
fewer key bucket key' bucket' [] h = h
fewer key bucket key' bucket' (o ∷ os) h = ground (arith, fewer key bucket key' bucket' os)

storage-IsSafe : IsSafeStorage storage
storage-IsSafe = record {
  head_moves = λ key bucket. record { moves = KeepsPointers-IsPreorder.reflexive };
  delete_moves = λ key bucket. record {
    moves = λ s. record {
      rows_from = λ i k b h. h;
      objects_from = λ k b h. fewer key bucket k b s.objects h;
      pointed = λ k b h p. p;
    };
  };
  deletes = λ key bucket w e. gone key bucket w.objects;
}

abbrev settings : Settings
settings = record {
  batch_size = 500;
  finalizing_stale_minutes = 60;
  verifying_stale_hours = 24;
  rejected_retain_hours = 72;
  orphan_grace_minutes = 60;
  purge_after_days = 30;
  purge_max_batches = 2;
}

abbrev stale : FileRow
stale = record {
  id = "f1";
  key = "a";
  bucket = "uploads";
  status = finalizing;
  user_id = "ann";
  organization_id = "o1";
  failure_reason = none;
  updated_at = 0;
  deleted_at = none;
}

abbrev thrown_away : FileRow
thrown_away = record stale { id = "f2"; key = "b"; status = ready; deleted_at = some 5 }

abbrev ownerless : FileRow
ownerless = record stale { id = "f3"; key = "c"; status = ready; user_id = "bob" }

-- The table has one row, and the storage the objects of all three.
abbrev with_row : FileRow → World
with_row row = record {
  rows = row ∷ [];
  users = "ann" ∷ [];
  organizations = "o1" ∷ [];
  objects = ("a", "uploads") ∷ ("b", "uploads") ∷ ("c", "uploads") ∷ [];
  flags = record { cleanup_running = false; orphan_running = false; purge_running = false };
  is_leader = true;
  faults = [];
  now = 3_000_000_000;
}

with_row-HasOwnIds : (row : FileRow) → HasOwnIds (with_row row)
with_row-HasOwnIds row id key bucket key' bucket' h k =
    let place = same id row key bucket h in
    let place' = same id row key' bucket' k in (sym place.0 ∙ place'.0, sym place.1 ∙ place'.1)
  where
    same :
        (id : String) (row : FileRow) (key bucket : String)
        → has_row (with_row row) id key bucket ≡ true
        → (row.key ≡ key) × (row.bucket ≡ bucket)
    same id row key bucket h =
        ((eq_iff row.key key).0 (ground arith), (eq_iff row.bucket bucket).0 (ground arith))

cleanup-KeepsPointers_example :
    KeepsPointers (with_row stale) (cleanup settings storage (with_row stale)).1
cleanup-KeepsPointers_example =
    cleanup-KeepsPointers settings storage storage-IsSafe (with_row stale)
      (with_row-HasOwnIds stale)

cleanup_orphaned-KeepsPointers_example :
    KeepsPointers (with_row ownerless) (cleanup_orphaned settings storage (with_row ownerless)).1
cleanup_orphaned-KeepsPointers_example =
    cleanup_orphaned-KeepsPointers settings storage storage-IsSafe (with_row ownerless)
      (with_row-HasOwnIds ownerless)

purge_soft_deleted-KeepsPointers_example :
    KeepsPointers
      (with_row thrown_away)
      (purge_soft_deleted settings storage (with_row thrown_away)).1
purge_soft_deleted-KeepsPointers_example =
    purge_soft_deleted-KeepsPointers settings storage storage-IsSafe (with_row thrown_away)
      (with_row-HasOwnIds thrown_away)

-- Each task removes its file, row and object.
stale-gone : (cleanup settings storage (with_row stale)).1.rows ≡ []
unfolding cleanup pure try_catch ◌>>=◌
stale-gone = refl

thrown_away-gone : length (purge_soft_deleted settings storage (with_row thrown_away)).1.objects ≡ 2
unfolding purge_soft_deleted pure try_catch ◌>>=◌
thrown_away-gone = refl
