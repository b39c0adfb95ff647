-- ===== src/Upload/Repository.antt =====
-- libs/modules/upload/src/infrastructure/repositories/prisma-stored-file.repository.ts over the
-- table `stored_files`. A query is atomic; tenant scoping (row security) and lost connections are not
-- modelled. `id`, `sourceKey` and `key` are unique.
use nestjs_fastify_nx.Common.{
  ℕ, String, ◌==◌, Bool, true, false, Option, none, some, List, [], ◌∷◌, ◌++◌, ◌&&◌, ◌||◌, not,
  exists, keep, map, find, if◌then◌else◌, is_some, or_else, length, eqb, includes, distinct,
}
use nestjs_fastify_nx.Errors.{ok, err, fault}
use nestjs_fastify_nx.Exec.{Exec}
use nestjs_fastify_nx.Upload.StoredFile.{
  StoredFile, StoredFileStatus, finalizing, verifying, ready, rejected, with_status,
}

pub data MalwareScanOutcome : Type 0 where
  clean skipped_too_large : MalwareScanOutcome

pub record Row : Type 0 where
  pub file : StoredFile
  pub failure_reason : Option String
  pub scan_outcome : Option MalwareScanOutcome
  pub verified_at : Option ℕ
  pub deleted_at : Option ℕ

-- The database, a clock, and everything else that executions share.
pub record World (S : Type 0) : Type 0 where
  pub rows : List Row
  pub now : ℕ
  pub outside : S

-- `StoredFileTransitionFields`: each field is left alone where it is absent.
pub record TransitionFields : Type 0 where
  pub verified_at : Option ℕ
  pub failure_reason : Option (Option String)
  pub scan_outcome : Option MalwareScanOutcome

abbrev pub no_fields : TransitionFields
no_fields = record { verified_at = none; failure_reason = none; scan_outcome = none }

pub data Selector : Type 0 where
  by_id by_key by_source_key : String → Selector

abbrev pub selects : Selector → Row → Bool
selects (by_id id) row = row.file.id == id
selects (by_key key) row = row.file.key == key
selects (by_source_key source_key) row = row.file.source_key == source_key

abbrev pub same_status : StoredFileStatus → StoredFileStatus → Bool
same_status finalizing finalizing = true
same_status verifying verifying = true
same_status ready ready = true
same_status rejected rejected = true
same_status _ _ = false

abbrev pub is_live : Row → Bool
is_live row = not (is_some row.deleted_at)

-- `to === REJECTED && REJECTABLE_FROM_STATUSES.includes(from)`
abbrev pub matches_soft_deleted : StoredFileStatus → StoredFileStatus → Bool
matches_soft_deleted finalizing rejected = true
matches_soft_deleted verifying rejected = true
matches_soft_deleted _ _ = false

-- the `where` of `setStatus`
unfoldable pub is_target : Selector → StoredFileStatus → StoredFileStatus → Row → Bool
is_target selector from to row =
    selects selector row
    && same_status row.file.status from
    && (matches_soft_deleted from to || is_live row)

-- a field of `fields` that is absent leaves the column alone
abbrev or_old {ℓ} : {A : Type ℓ} → Option A → Option A → Option A
or_old none old = old
or_old (some new) old = some new

-- the `data` of `setStatus`
abbrev pub update_row : StoredFileStatus → TransitionFields → Row → Row
update_row to fields row = record {
  file = with_status row.file to;
  failure_reason = or_else fields.failure_reason row.failure_reason;
  scan_outcome = or_old fields.scan_outcome row.scan_outcome;
  verified_at = or_old fields.verified_at row.verified_at;
  deleted_at = row.deleted_at;
}

-- `updateMany`
abbrev pub update_where : (Row → Bool) → (Row → Row) → List Row → List Row
update_where test change rows = map (λ row. if test row then change row else row) rows

abbrev pub file_of : Option Row → Option StoredFile
file_of none = none
file_of (some row) = some row.file

abbrev pub clashes : StoredFile → Row → Bool
clashes props row =
    row.file.id == props.id || row.file.source_key == props.source_key || row.file.key == props.key

abbrev pub is_live_at : String → Row → Bool
is_live_at id row = row.file.id == id && is_live row

abbrev pub is_publishable : List String → Row → Bool
is_publishable ids row =
    includes ids row.file.id && same_status row.file.status finalizing && is_live row

module _ {S : Type 0} where
  unfoldable pub find_one : Selector → Exec (World S) (Option StoredFile)
  find_one selector w = (ok (file_of (find (λ row. selects selector row && is_live row) w.rows)), w)

  -- `create`: true for 'created', false for 'duplicate'
  unfoldable pub create : StoredFile → Exec (World S) Bool
  create props w = if exists (clashes props) w.rows then (ok false, w) else (
    ok true,
    record w {
      rows =
          w.rows
          ++ record {
            file = props;
            failure_reason = none;
            scan_outcome = none;
            verified_at = none;
            deleted_at = none;
          }
            ∷ [];
    },
  )

  unfoldable pub set_status :
      Selector → StoredFileStatus → StoredFileStatus → TransitionFields → Exec (World S) Bool
  unfolding is_target
  set_status selector from to fields w = (
    ok (exists (is_target selector from to) w.rows),
    record w { rows = update_where (is_target selector from to) (update_row to fields) w.rows },
  )

  unfoldable pub transition :
      String → StoredFileStatus → StoredFileStatus → TransitionFields → Exec (World S) Bool
  unfolding set_status
  transition id from to fields = set_status (by_id id) from to fields

  unfoldable pub transition_by_key :
      String → StoredFileStatus → StoredFileStatus → TransitionFields → Exec (World S) Bool
  unfolding set_status
  transition_by_key key from to fields = set_status (by_key key) from to fields

  unfoldable pub delete_if_status : String → StoredFileStatus → Exec (World S) (Unit {0})
  delete_if_status id status w = (
    ok tt,
    record w {
      rows = keep (λ row. not (row.file.id == id && same_status row.file.status status)) w.rows;
    },
  )

  unfoldable pub soft_delete : String → Exec (World S) Bool
  soft_delete id w = (
    ok (exists (is_live_at id) w.rows),
    record w {
      rows = update_where (is_live_at id) (λ row. record row { deleted_at = some w.now }) w.rows;
    },
  )

  -- `publishBatch`: the transaction is rolled back unless every row was updated
  unfoldable pub publish_batch : List String → StoredFileStatus → Exec (World S) (Unit {0})
  publish_batch ids status w =
      if eqb (length ids) 0 || not (eqb (length (distinct ids)) (length ids))
      then (err (fault "Upload publication requires a nonempty set of distinct IDs"), w)
      else if not (eqb (length (keep (is_publishable ids) w.rows)) (length ids))
      then (err (fault "Upload batch changed before publication"), w)
      else (
        ok tt,
        record w {
          rows =
              update_where (is_publishable ids)
                (λ row. record row { file = with_status row.file status }) w.rows;
        },
      )
