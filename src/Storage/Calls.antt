-- ===== src/Storage/Calls.antt =====
-- What the calls of the file system do to what is found on the disk, whichever calls fail.
use nestjs_fastify_nx.Common.{
  ℕ, suc, String, ◌≡◌, refl, Bool, true, false, Option, none, some, List, if◌then◌else◌,
}
use nestjs_fastify_nx.Errors.{ok, err, Failure, fault}
use nestjs_fastify_nx.Exec.{Exec}
use nestjs_fastify_nx.Exec.Triples.{Judged, Triple}
use nestjs_fastify_nx.Storage.Paths.{FilePath}
use nestjs_fastify_nx.Storage.Disk.{
  Content, File, Disk, System, lookup, remove, store, enoent, eexist, call, read_file, unlink,
  rename, link, write_new, make_folder, generate_id, file_at, found, unless_found, give_file,
  drop_file, move_file, link_file, new_file,
}

abbrev pub files_of : Disk → List File
files_of d = d.files

-- a judgement on the files alone
abbrev pub FileTriple :
    {A : Type 0}
    → (A → List File → Type 0)
    → (Failure → List File → Type 0)
    → (List File → Type 0)
    → Exec Disk A
    → Type 0
FileTriple Q E P m = Triple files_of Q E P m

abbrev pub eio : Failure
eio = fault "EIO"

module _ (system : System) where
  -- some call of the file system fails
  abbrev pub Broken : Type 0
  Broken = (n : ℕ) × (system.fails n ≡ true)

  module _ {A : Type 0} (Q : A → List File → Type 0) (E : Failure → List File → Type 0) where
    Judged-call :
        (m : Exec Disk A) (d : Disk) (n : ℕ) (b : Bool)
        → system.fails n ≡ b
        → (Broken → E eio d.files)
        → Judged files_of Q E (m d)
        → Judged files_of Q E (if b then (err (fault "EIO"), d) else m d)
    Judged-call m d n true h k j = k (n, h)
    Judged-call m d n false h k j = j

    Judged-at :
        (o : Option File) (use_file : File → Exec Disk A) (d : Disk)
        → (o ≡ none → E enoent d.files)
        → ((f : File) → o ≡ some f → Judged files_of Q E (use_file f d))
        → Judged files_of Q E (found system o use_file d)
    Judged-at none use_file d h k = h refl
    Judged-at (some f) use_file d h k = k f refl

  module _ (Q : Unit {0} → List File → Type 0) (E : Failure → List File → Type 0) where
    Judged-new :
        (o : Option File) (f : File) (d : Disk)
        → ((old : File) → o ≡ some old → E eexist d.files)
        → (o ≡ none → Q tt (store d.files f))
        → Judged files_of Q E (unless_found system o f d)
    Judged-new none f d h k = k refl
    Judged-new (some old) f d h k = h old refl

  module _ {A : Type 0} {Q : A → List File → Type 0} {E : Failure → List File → Type 0}
      {P : List File → Type 0} where
    call_rule :
        (m : Exec Disk A)
        → ((fs : List File) → P fs → Broken → E eio fs)
        → ((d : Disk) → P d.files → Judged files_of Q E (m d))
        → FileTriple Q E P (call system m)
    unfolding call
    call_rule m h k = record {
      runs = λ d p.
          Judged-call Q E m (record d { calls = suc d.calls }) d.calls (system.fails d.calls) refl
            (h d.files p) (k (record d { calls = suc d.calls }) p);
    }

  module _ {E : Failure → List File → Type 0} {P : List File → Type 0} where
    pub read_rule :
        {Q : File → List File → Type 0} (path : FilePath)
        → ((fs : List File) → P fs → Broken → E eio fs)
        → ((fs : List File) → P fs → lookup fs path ≡ none → E enoent fs)
        → ((f : File) (fs : List File) → P fs → lookup fs path ≡ some f → Q f fs)
        → FileTriple Q E P (read_file system path)
    unfolding read_file
    read_rule {Q = Q} path h k l = call_rule (file_at system path (give_file system)) h (λ d p.
        Judged-at Q E (lookup d.files path) (give_file system) d (k d.files p)
          (λ f e. l f d.files p e))

  module _ {Q : Unit {0} → List File → Type 0} {E : Failure → List File → Type 0}
      {P : List File → Type 0} where
    pub unlink_rule :
        (path : FilePath)
        → ((fs : List File) → P fs → Broken → E eio fs)
        → ((fs : List File) → P fs → lookup fs path ≡ none → E enoent fs)
        → ((f : File) (fs : List File) → P fs → lookup fs path ≡ some f → Q tt (remove fs path))
        → FileTriple Q E P (unlink system path)
    unfolding unlink
    unlink_rule path h k l = call_rule (file_at system path (drop_file system path)) h (λ d p.
        Judged-at Q E (lookup d.files path) (drop_file system path) d (k d.files p)
          (λ f e. l f d.files p e))

    pub rename_rule :
        (source target : FilePath)
        → ((fs : List File) → P fs → Broken → E eio fs)
        → ((fs : List File) → P fs → lookup fs source ≡ none → E enoent fs)
        → ((f : File) (fs : List File)
            → P fs
            → lookup fs source ≡ some f
            → Q tt (store (remove fs source) (record f { path = target })))
        → FileTriple Q E P (rename system source target)
    unfolding rename
    rename_rule source target h k l =
        call_rule (file_at system source (move_file system source target)) h (λ d p.
          Judged-at Q E (lookup d.files source) (move_file system source target) d (k d.files p)
            (λ f e. l f d.files p e))

    pub write_rule :
        (path : FilePath) (content : Content)
        → ((fs : List File) → P fs → Broken → E eio fs)
        → ((fs : List File) (old : File) → P fs → lookup fs path ≡ some old → E eexist fs)
        → ((fs : List File) (f : File)
            → P fs
            → lookup fs path ≡ none
            → f.path ≡ path
            → f.content ≡ content
            → Q tt (store fs f))
        → FileTriple Q E P (write_new system path content)
    unfolding write_new
    write_rule path content h k l = call_rule (new_file system path content) h (λ d p.
        Judged-new Q E (lookup d.files path) _ d (λ old e. k d.files old p e)
          (λ e. l d.files (record { path = path; content = content; mtime = d.now }) p e refl refl))

    pub link_rule :
        (source target : FilePath)
        → ((fs : List File) → P fs → Broken → E eio fs)
        → ((fs : List File) → P fs → lookup fs source ≡ none → E enoent fs)
        → ((fs : List File) (old : File) → P fs → lookup fs target ≡ some old → E eexist fs)
        → ((f : File) (fs : List File)
            → P fs
            → lookup fs source ≡ some f
            → lookup fs target ≡ none
            → Q tt (store fs (record f { path = target })))
        → FileTriple Q E P (link system source target)
    unfolding link
    link_rule source target h k l m =
        call_rule (file_at system source (link_file system target)) h (λ d p.
          Judged-at Q E (lookup d.files source) (link_file system target) d (k d.files p) (λ f e.
            Judged-new Q E (lookup d.files target) (record f { path = target }) d
              (λ old e'. l d.files old p e') (λ e'. m f d.files p e e')))

    pub make_rule :
        ((fs : List File) → P fs → Broken → E eio fs)
        → ((fs : List File) → P fs → Q tt fs)
        → FileTriple Q E P (make_folder system)
    unfolding make_folder
    make_rule h k = call_rule (λ d. (ok tt, d)) h (λ d p. k d.files p)

  module _ {E : Failure → List File → Type 0} {P : List File → Type 0} where
    pub id_rule :
        {Q : String → List File → Type 0}
        → ((n : ℕ) (fs : List File) → P fs → Q (system.id n) fs)
        → FileTriple Q E P (generate_id system)
    unfolding generate_id
    id_rule h = record { runs = λ d p. h d.ids d.files p }
