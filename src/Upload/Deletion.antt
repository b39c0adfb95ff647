-- ===== src/Upload/Deletion.antt =====
-- Compare-and-set on the table, and the handlers that answer a denial as a missing file.
use nestjs_fastify_nx.Common.{
  ℕ, String, ◌≡◌, ◌≢◌, refl, ap, ◌∙◌, ◌&&◌, Bool, true, false, Option, none, some, List, [], ◌∷◌,
  arith, Bool-cases, inl, inr, not, exists, find,
}
use nestjs_fastify_nx.Errors.{ok, err}
use nestjs_fastify_nx.Exec.{pure, throw, ◌>>=◌}
use nestjs_fastify_nx.Authorization.Permissions.{JsonText, file_delete}
use nestjs_fastify_nx.Authorization.Adapter.{Database}
use nestjs_fastify_nx.Upload.StoredFile.{
  StoredFile, StoredFileStatus, finalizing, verifying, ready, rejected,
}
use nestjs_fastify_nx.Upload.Repository.{
  Row, World, Selector, by_id, TransitionFields, is_target, is_live, is_live_at, same_status,
  update_row, update_where, find_one, file_of, set_status, soft_delete, selects,
}
use nestjs_fastify_nx.Upload.Confirm.{missing}
use nestjs_fastify_nx.Upload.Access.{FileRequest, check_file, delete_found, delete_upload}

same_status-ne : (s t : StoredFileStatus) → s ≢ t → same_status s t ≡ false
same_status-ne finalizing t h = ground arith
same_status-ne verifying t h = ground arith
same_status-ne ready t h = ground arith
same_status-ne rejected t h = ground arith

changed_no_target :
    (selector : Selector) (from to : StoredFileStatus) (fields : TransitionFields) (row : Row)
    → to ≢ from
    → is_target selector from to (update_row to fields row) ≡ false
unfolding is_target
changed_no_target selector from to fields row h = ground (arith, same_status-ne to from h)

update_where-none :
    (test : Row → Bool) (change : Row → Row) (rows : List Row)
    → exists test rows ≡ false
    → update_where test change rows ≡ rows
update_where-none test change [] h = refl
update_where-none test change (row ∷ rows) h = ground (arith, update_where-none test change rows)

no_target_left :
    (selector : Selector) (from to : StoredFileStatus) (fields : TransitionFields) (rows : List Row)
    → to ≢ from
    → exists
        (is_target selector from to)
        (update_where (is_target selector from to) (update_row to fields) rows)
      ≡ false
no_target_left selector from to fields [] h = refl
no_target_left selector from to fields (row ∷ rows) h =
    elim (Bool-cases (is_target selector from to row)) [
      | inl hit ↦
          rw (hit, changed_no_target selector from to fields row h)
            (no_target_left selector from to fields rows h)
      | inr miss ↦ rw (miss, miss) (no_target_left selector from to fields rows h)
    ]

-- A change of status is won once: the same compare-and-set right after it matches no row and leaves
-- the table as it is, whatever the selector, the fields and the table.
pub set_status_once :
    {S : Type 0} (selector : Selector) (from to : StoredFileStatus) (fields : TransitionFields)
    (w : World S)
    → to ≢ from
    → set_status selector from to fields (set_status selector from to fields w).1
      ≡ (ok false, (set_status selector from to fields w).1)
unfolding set_status
set_status_once selector from to fields w h =
    let rows = update_where (is_target selector from to) (update_row to fields) w.rows in
    let none_left = no_target_left selector from to fields w.rows h in
    λ i. (
      ok (none_left i),
      record w {
        rows =
            update_where-none (is_target selector from to) (update_row to fields) rows none_left i;
      },
    )

abbrev is_hidden : JsonText → Database → FileRequest → String → Option StoredFile → Bool
is_hidden json db request permission none = true
is_hidden json db request permission (some file) =
    not (check_file json db request permission file).allowed

-- A caller who may not delete a file gets the answer for a file that does not exist, and nothing is
-- changed.
pub delete_upload-hidden :
    {S : Type 0} (json : JsonText) (db : Database) (request : FileRequest) (w : World S)
    (found : Option StoredFile)
    → find_one (by_id request.file_id) w ≡ (ok found, w)
    → is_hidden json db request file_delete found ≡ true
    → delete_upload json db request w ≡ (err missing, w)
unfolding delete_upload throw ◌>>=◌
delete_upload-hidden json db request w none e h = rw e
delete_upload-hidden json db request w (some file) e h = rw (e, delete_found, h)

none_live :
    (id : String) (now : ℕ) (rows : List Row)
    → find
        (λ row. selects (by_id id) row && is_live row)
        (update_where (is_live_at id) (λ row. record row { deleted_at = some now }) rows)
      ≡ none
none_live id now [] = refl
none_live id now (row ∷ rows) = ground (arith, none_live id now rows)

soft_delete-find_one :
    {S : Type 0} (id : String) (w : World S)
    → (find_one (by_id id) (soft_delete id w).1).0 ≡ ok none
unfolding find_one soft_delete
soft_delete-find_one id w = ap (λ o. ok (file_of o)) (none_live id w.now w.rows)

delete_found-allowed :
    {S : Type 0} (json : JsonText) (db : Database) (request : FileRequest) (w : World S)
    (file : StoredFile)
    → (check_file json db request file_delete file).allowed ≡ true
    → delete_found json db request (some file) w ≡ (ok tt, (soft_delete request.file_id w).1)
unfolding delete_found ◌>>=◌ pure soft_delete
delete_found-allowed json db request w file h = rw h

-- A caller who may delete a live file gets a success, and afterwards the file is found no more.
pub delete_upload-deletes :
    {S : Type 0} (json : JsonText) (db : Database) (request : FileRequest) (w : World S)
    (file : StoredFile)
    → find_one (by_id request.file_id) w ≡ (ok (some file), w)
    → (check_file json db request file_delete file).allowed ≡ true
    → ((delete_upload json db request w).0 ≡ ok tt)
      × ((find_one (by_id request.file_id) (delete_upload json db request w).1).0 ≡ ok none)
unfolding delete_upload ◌>>=◌
delete_upload-deletes json db request w file e h =
    let q : delete_upload json db request w ≡ (ok tt, (soft_delete request.file_id w).1) =
      rw e (delete_found-allowed json db request w file h) in
    (
      ap (λ r. r.0) q,
      ap (λ r. (find_one (by_id request.file_id) r.1).0) q ∙ soft_delete-find_one request.file_id w,
    )
