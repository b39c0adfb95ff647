-- ===== src/Storage/Disk.antt =====
-- The calls of Node's file system that libs/infra/storage/src/lib/local-storage.adapter.ts makes. A file
-- has a path, a content and a time of change; folders, of which the adapter makes all that it needs,
-- are left out. A call can fail without effect, where the system says so.
use nestjs_fastify_nx.Common.{
  ℕ, suc, String, ◌==◌, Bool, true, false, ◌&&◌, Option, none, some, List, [], ◌∷◌, if◌then◌else◌,
}
use nestjs_fastify_nx.Errors.{ok, err, Failure, domain, fault}
use nestjs_fastify_nx.Exec.{Exec}
use nestjs_fastify_nx.Storage.Paths.{FilePath}

pub record StoredMeta : Type 0 where
  pub content_type : String
  pub size : ℕ
  pub etag : String

-- bytes, or the JSON of metadata, which `isStoredMeta` accepts
pub data Content : Type 0 where
  bytes : List ℕ → Content
  meta : StoredMeta → Content

pub record File : Type 0 where
  pub path : FilePath
  pub content : Content
  pub mtime : ℕ

-- `now` in milliseconds, the number of ids generated, and that of calls made
pub record Disk : Type 0 where
  pub files : List File
  pub now : ℕ
  pub ids : ℕ
  pub calls : ℕ

-- the generated ids, the calls that fail, and SHA-256 in hexadecimal
pub record System : Type 0 where
  pub id : ℕ → String
  pub fails : ℕ → Bool
  pub hash : List ℕ → String

abbrev pub same : FilePath → FilePath → Bool
same [] [] = true
same [] (t ∷ ts) = false
same (s ∷ ss) [] = false
same (s ∷ ss) (t ∷ ts) = s == t && same ss ts

unfoldable pub lookup : List File → FilePath → Option File
lookup [] path = none
lookup (file ∷ files) path = if same file.path path then some file else lookup files path

unfoldable pub remove : List File → FilePath → List File
remove [] path = []
remove (file ∷ files) path =
    let rest = remove files path in if same file.path path then rest else file ∷ rest

unfoldable pub store : List File → File → List File
unfolding remove
store files file = file ∷ remove files file.path

-- codes of errors
abbrev pub enoent : Failure
enoent = fault "ENOENT"

abbrev pub eexist : Failure
eexist = fault "EEXIST"

abbrev pub is_fault : Failure → String → Bool
is_fault (domain e) code = false
is_fault (fault m) code = m == code

-- `isMissing`
abbrev pub is_missing : Failure → Bool
is_missing e = is_fault e "ENOENT"

abbrev pub with_files : Disk → List File → Disk
with_files d files = record d { files = files }

module _ (system : System) where
  -- a call that may fail
  unfoldable pub call : {A : Type 0} → Exec Disk A → Exec Disk A
  call m d =
      let next = record d { calls = suc d.calls } in
      if system.fails d.calls then (err (fault "EIO"), next) else m next

  abbrev pub found : {A : Type 0} → Option File → (File → Exec Disk A) → Exec Disk A
  found none use_file d = (err enoent, d)
  found (some file) use_file d = use_file file d

  abbrev pub file_at : {A : Type 0} → FilePath → (File → Exec Disk A) → Exec Disk A
  file_at path use_file d = found (lookup d.files path) use_file d

  abbrev pub unless_found : Option File → File → Exec Disk (Unit {0})
  unless_found (some old) file d = (err eexist, d)
  unless_found none file d = (ok tt, with_files d (store d.files file))

  abbrev pub give_file : File → Exec Disk File
  give_file file d = (ok file, d)

  abbrev pub drop_file : FilePath → File → Exec Disk (Unit {0})
  drop_file path file d = (ok tt, with_files d (remove d.files path))

  abbrev pub move_file : FilePath → FilePath → File → Exec Disk (Unit {0})
  move_file source target file d =
      (ok tt, with_files d (store (remove d.files source) (record file { path = target })))

  abbrev pub link_file : FilePath → File → Exec Disk (Unit {0})
  link_file target file d = unless_found (lookup d.files target) (record file { path = target }) d

  abbrev pub new_file : FilePath → Content → Exec Disk (Unit {0})
  new_file path content d =
      unless_found (lookup d.files path) (record { path = path; content = content; mtime = d.now })
        d

  -- `stat`, `readFile`, `createReadStream`, `open`
  unfoldable pub read_file : FilePath → Exec Disk File
  unfolding call lookup
  read_file path = call (file_at path give_file)

  unfoldable pub unlink : FilePath → Exec Disk (Unit {0})
  unfolding call lookup remove
  unlink path = call (file_at path (drop_file path))

  unfoldable pub rename : FilePath → FilePath → Exec Disk (Unit {0})
  unfolding call lookup remove store
  rename source target = call (file_at source (move_file source target))

  unfoldable pub link : FilePath → FilePath → Exec Disk (Unit {0})
  unfolding call lookup store
  link source target = call (file_at source (link_file target))

  -- a file opened with the flag `wx`
  unfoldable pub write_new : FilePath → Content → Exec Disk (Unit {0})
  unfolding call lookup store
  write_new path content = call (new_file path content)

  unfoldable pub make_folder : Exec Disk (Unit {0})
  unfolding call
  make_folder = call (λ d. (ok tt, d))

  -- `generateId`
  unfoldable pub generate_id : Exec Disk String
  generate_id d = (ok (system.id d.ids), record d { ids = suc d.ids })
