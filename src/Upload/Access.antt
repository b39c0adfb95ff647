-- ===== src/Upload/Access.antt =====
-- The upload module's delete, get and presign handlers:
-- application/commands/{delete-upload,presign-upload} and application/queries/get-upload.
use Prim.Native.String
use nestjs_fastify_nx.Common.{String, ◌==◌, Option, none, some, not, if◌then◌else◌}
use nestjs_fastify_nx.Exec.{Exec, pure, throw, lift, ◌>>=◌}
use nestjs_fastify_nx.Authorization.Permissions.{JsonText, file_read, file_delete}
use nestjs_fastify_nx.Authorization.Policy.{AccessDecision, ResourceRef, user}
use nestjs_fastify_nx.Authorization.Adapter.{Database, check}
use nestjs_fastify_nx.Upload.StoredFile.{StoredFile, extension_for_mime_type}
use nestjs_fastify_nx.Upload.Repository.{World, find_one, by_id, soft_delete}
use nestjs_fastify_nx.Upload.Ports.{Ports, UploadLimits, PresignedUpload}
use nestjs_fastify_nx.Upload.Publication.{StoredFileResult, result}
use nestjs_fastify_nx.Upload.Confirm.{missing}

-- `DeleteUploadCommand` and `GetUploadQuery`
pub record FileRequest : Type 0 where
  pub organization_id : String
  pub user_id : String
  pub file_id : String

abbrev resource_of : StoredFile → ResourceRef
resource_of file = record {
  resource_type = "file";
  id = file.id;
  owner_id = some file.user_id;
  organization_id = some file.organization_id;
}

module _ (json : JsonText) (db : Database) where
  -- the authorization port, asked for one file
  abbrev pub check_file : FileRequest → String → StoredFile → AccessDecision
  check_file request permission file =
      check json db (user request.user_id request.organization_id none) permission
        (some (resource_of file))

  module _ {S : Type 0} where
    unfoldable pub delete_found : FileRequest → Option StoredFile → Exec (World S) (Unit {0})
    delete_found request none = throw missing
    delete_found request (some file) =
        if not (check_file request file_delete file).allowed
        then throw missing
        else do deleted ← soft_delete request.file_id; pure tt

    unfoldable pub delete_upload : FileRequest → Exec (World S) (Unit {0})
    unfolding delete_found
    delete_upload request = do file ← find_one (by_id request.file_id); delete_found request file

  module _ {S : Type 0} (ports : Ports S) where
    unfoldable pub get_found : FileRequest → Option StoredFile → Exec (World S) StoredFileResult
    get_found request none = throw missing
    get_found request (some file) =
        if not (file.organization_id == request.organization_id)
        then throw missing
        else if not (check_file request file_read file).allowed
        then throw missing
        else result ports file none

    unfoldable pub get_upload : FileRequest → Exec (World S) StoredFileResult
    unfolding get_found
    get_upload request = do file ← find_one (by_id request.file_id); get_found request file

module _ {S : Type 0} (ports : Ports S) (limits : UploadLimits) where
  unfoldable pub presign_upload : String → String → Exec (World S) PresignedUpload
  presign_upload user_id content_type = do
    extension ← lift (extension_for_mime_type content_type)
    id ← ports.generate_id
    ports.presign_upload
        (String.◌++◌ "uploads/"
          (String.◌++◌ user_id (String.◌++◌ "/" (String.◌++◌ id (String.◌++◌ "." extension)))))
        content_type limits.max_file_bytes limits.presign_expires_seconds
