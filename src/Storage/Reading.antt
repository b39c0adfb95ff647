-- ===== src/Storage/Reading.antt =====
-- `head` after a write.
use nestjs_fastify_nx.Common.{
  ℕ, String, ◌≡◌, refl, sym, ◌∙◌, true, Option, none, some, List, length, or_else,
}
use nestjs_fastify_nx.Common.Text.{split}
use nestjs_fastify_nx.Errors.{Failure}
use nestjs_fastify_nx.Exec.Triples.{
  Judged, Triple-bind, Triple-pure, Triple-throw, Triple-try_catch, Triple-lift_ok, Triple-given,
  Triple-weaken,
}
use nestjs_fastify_nx.Storage.Paths.{is_segment, ObjectLocation}
use nestjs_fastify_nx.Storage.Places.{place, locate-of_segments}
use nestjs_fastify_nx.Storage.Signing.{Settings}
use nestjs_fastify_nx.Storage.Payloads.{IsPlace}
use nestjs_fastify_nx.Storage.Disk.{Content, bytes, meta, StoredMeta, File, Disk, System, lookup}
use nestjs_fastify_nx.Storage.Calls.{FileTriple, files_of, Broken, eio, read_rule}
use nestjs_fastify_nx.Storage.Temps.{At, At-found, some-ne-none}
use nestjs_fastify_nx.Storage.Local.{Body, WriteLimits, ObjectMetadata, read_meta, etag_of}
use nestjs_fastify_nx.Storage.Writes.{bytes_in}
use nestjs_fastify_nx.Storage.Stores.{Stored, described}
use nestjs_fastify_nx.Storage.Adapter.{head}

module _ (system : System) (settings : Settings) where
  present : (c : Content) (p : List String) (fs : List File) → At c p fs → lookup fs p ≡ none → ⊥
  present c p fs (f, e, k) h = some-ne-none f (sym e ∙ h)

  module _ (l : ObjectLocation) (c : Content) (m : StoredMeta) where
    abbrev There : List File → Type 0
    There fs = At c l.object_path fs × At (meta m) l.meta_path fs

    -- the error of a call that fails
    abbrev Failed : Failure → List File → Type 0
    Failed e fs = (e ≡ eio) × Broken system

    read_meta_rule :
        FileTriple (λ o fs. o ≡ some m) (λ e fs. Broken system) There (read_meta system settings l)
    unfolding read_meta
    read_meta_rule =
        Triple-try_catch {F = Failed} _ _
          (Triple-bind {R = λ f. There} _ _
            (read_rule system l.object_path (λ fs p b. (refl, b))
              (λ fs p e. absurd (present c l.object_path fs p.0 e)) (λ f fs p e. p))
            (λ f.
              Triple-bind {R = λ f fs. f.content ≡ meta m} _ _
                (read_rule system l.meta_path (λ fs p b. (refl, b))
                  (λ fs p e. absurd (present (meta m) l.meta_path fs p.1 e))
                  (λ f fs p e. At-found (meta m) l.meta_path fs f p.1 e))
                (λ f.
                  Triple-given _ (λ fs p. p) (λ e. rw e (Triple-lift_ok (some m) (λ fs p. refl))))))
          (λ e.
            Triple-given _ (λ fs p. p)
              (λ (same, broken). rw same (Triple-throw eio (λ fs p. broken))))

  module _ (ids : (n : ℕ) → is_segment (system.id n) ≡ true) (bucket key : String) (stream : Body)
      (content_type : Option String) (limits : WriteLimits) where
    -- what `head` answers of the stream
    abbrev pub metadata : ObjectMetadata
    metadata = record {
      content_type = or_else content_type "application/octet-stream";
      size = length (bytes_in stream.chunks);
      etag = etag_of system settings (bytes_in stream.chunks);
      bucket = bucket;
    }

    abbrev pub IsStoredAt : List File → Type 0
    IsStoredAt fs =
        Stored system settings ids bucket (split b'/' key) none stream content_type limits fs

    head_rule :
        IsPlace bucket key
        → FileTriple
            (λ o fs. o ≡ some metadata)
            (λ e fs. Broken system)
            IsStoredAt
            (head system settings key (some bucket))
    unfolding head
    head_rule (b, k) =
        let here = place settings.root bucket (split b'/' key) in
        let c = bytes (bytes_in stream.chunks) in
        let m =
          described system settings ids bucket (split b'/' key) none content_type
            (bytes_in stream.chunks) in
        Triple-try_catch {F = λ e fs. Broken system} _ _
          (rw (locate-of_segments settings.root bucket key b k) (
            Triple-bind {R = λ l fs. (l ≡ here) × There here c m fs} _ _
              (Triple-lift_ok here (λ fs p. (refl, (p.0, p.1))))
              (λ l.
                Triple-given _ (λ fs p. p.0)
                  (λ e. rw e (
                    Triple-bind _ _
                      (Triple-weaken _ (λ fs p. p.1) (λ o fs p. p) (λ e fs p. p)
                        (read_meta_rule here c m))
                      (λ o.
                        Triple-given _ (λ fs p. p)
                          (λ found. rw found (Triple-pure _ (λ fs p. refl)))))))))
          (λ e. Triple-throw _ (λ fs p. p))

    -- Where a stream is stored under a valid bucket and key as `writeObject` leaves it, `head` answers its
    -- number of bytes, its etag and its content type, unless a call of the file system fails.
    pub head-Stored :
        (d : Disk)
        → IsPlace bucket key
        → IsStoredAt d.files
        → Judged files_of
            (λ o fs. o ≡ some metadata)
            (λ e fs. Broken system)
            (head system settings key (some bucket) d)
    head-Stored d h p = (head_rule h).runs d p
