-- ===== src/Scheduler/Files.antt =====
-- What apps/scheduler/src/app/tasks/stored-file-cleanup.task.ts reads and writes: the table
-- `stored_files`, the owners it joins with, and the objects of the storage. A query is atomic and may
-- reject before it has an effect, as the world tells in advance.
use nestjs_fastify_nx.Common.{
  ℕ, String, ◌==◌, Bool, false, Option, some, List, [], ◌∷◌, ◌&&◌, ◌||◌, not, exists, keep, map,
  take, ltb, eqb, if◌then◌else◌,
}
use nestjs_fastify_nx.Errors.{ok, err, fault}
use nestjs_fastify_nx.Exec.{Exec}
use nestjs_fastify_nx.Upload.StoredFile.{StoredFileStatus, rejected}
use nestjs_fastify_nx.Upload.Repository.{same_status}

pub record FileRow : Type 0 where
  pub id : String
  pub key : String
  pub bucket : String
  pub status : StoredFileStatus
  pub user_id : String
  pub organization_id : String
  pub failure_reason : Option String
  pub updated_at : ℕ
  pub deleted_at : Option ℕ

-- The flags by which a task skips a tick whose predecessor still runs.
pub record Flags : Type 0 where
  pub cleanup_running : Bool
  pub orphan_running : Bool
  pub purge_running : Bool

pub record World : Type 0 where
  pub rows : List FileRow
  pub users : List String
  pub organizations : List String
  pub objects : List (String × String)
  pub flags : Flags
  pub is_leader : Bool
  pub faults : List Bool
  pub now : ℕ

-- `ORDER BY column`
unfoldable pub insert_by : (FileRow → ℕ) → FileRow → List FileRow → List FileRow
insert_by column x [] = x ∷ []
insert_by column x (y ∷ ys) =
    let rest = insert_by column x ys in if ltb (column y) (column x) then y ∷ rest else x ∷ (y ∷ ys)

unfoldable pub order_by : (FileRow → ℕ) → List FileRow → List FileRow
unfolding insert_by
order_by column [] = []
order_by column (x ∷ xs) = insert_by column x (order_by column xs)

-- whether the next query rejects, and what is left of the forecast
abbrev pub rejects : List Bool → Bool
rejects [] = false
rejects (b ∷ bs) = b

abbrev pub later : List Bool → List Bool
later [] = []
later (b ∷ bs) = bs

abbrev pub spend : World → World
spend w = record w { faults = later w.faults }

-- `SELECT … WHERE … ORDER BY … LIMIT …`
unfoldable pub select_rows :
    (World → FileRow → Bool) → (FileRow → ℕ) → ℕ → Exec World (List FileRow)
unfolding order_by
select_rows where_ column limit w =
    if rejects w.faults
    then (err (fault "query"), spend w)
    else (ok (take limit (order_by column (keep (where_ w) w.rows))), spend w)

-- `updateMany({ where: { id, status, updatedAt }, data: { status: REJECTED, … } })`
abbrev pub is_same_version : FileRow → FileRow → Bool
is_same_version candidate row =
    row.id == candidate.id
    && same_status row.status candidate.status
    && eqb row.updated_at candidate.updated_at

abbrev pub claimed_row : FileRow → ℕ → FileRow → FileRow
claimed_row candidate now row = record row {
  status = rejected;
  failure_reason =
      if same_status candidate.status rejected
      then row.failure_reason
      else some "Lifecycle cleanup";
  updated_at = now;
}

unfoldable pub claim : FileRow → Exec World Bool
claim candidate w = if rejects w.faults then (err (fault "query"), spend w) else (
  ok (exists (is_same_version candidate) w.rows),
  record (spend w) {
    rows =
        map (λ row. if is_same_version candidate row then claimed_row candidate w.now row else row)
          w.rows;
  },
)

-- `storedFile.delete({ where: { id } })`, which throws where there is no such row
unfoldable pub delete_row : String → Exec World (Unit {0})
delete_row id w =
    if rejects w.faults || not (exists (λ row. row.id == id) w.rows)
    then (err (fault "P2025"), spend w)
    else (ok tt, record (spend w) { rows = keep (λ row. not (row.id == id)) w.rows })

-- `deleteMany({ where: { id } })`
unfoldable pub delete_many : String → Exec World (Unit {0})
delete_many id w =
    if rejects w.faults
    then (err (fault "query"), spend w)
    else (ok tt, record (spend w) { rows = keep (λ row. not (row.id == id)) w.rows })
