-- ===== src/Storage/Finalize.antt =====
-- Where the content of an object is after `finalize`, whichever calls of the file system fail.
use nestjs_fastify_nx.Common.{ℕ, String, ◌==◌, ◌≡◌, ◌∙◌, true, Option, none, some, List, inl}
use nestjs_fastify_nx.Common.Text.{split}
use nestjs_fastify_nx.Exec.{lift}
use nestjs_fastify_nx.Exec.Triples.{
  Judged, Triple-bind, Triple-pure, Triple-throw, Triple-if, Triple-try_catch, Triple-lift,
  Triple-weaken, Triple-given,
}
use nestjs_fastify_nx.Storage.Paths.{FilePath, is_segment, ObjectLocation, locate}
use nestjs_fastify_nx.Storage.Places.{place, locate-place}
use nestjs_fastify_nx.Storage.Signing.{Settings}
use nestjs_fastify_nx.Storage.Disk.{
  Content, rename, StoredMeta, File, Disk, System, remove, is_missing,
}
use nestjs_fastify_nx.Storage.Files.{lookup-store_other, lookup-remove_same}
use nestjs_fastify_nx.Storage.Calls.{FileTriple, files_of, read_rule, rename_rule}
use nestjs_fastify_nx.Storage.Temps.{
  At, At-remove, At-new, At-found, temp-object, meta-object, IsTemp, IsTemp-rule, discard_rule,
}
use nestjs_fastify_nx.Storage.Rescue
use nestjs_fastify_nx.Storage.Local.{
  discard, claim_and_move, read_meta, finalize, etag_of, bytes_of, matching, bucket_or,
}

module _ (system : System) (settings : Settings) (ids : (n : ℕ) → is_segment (system.id n) ≡ true)
    (c : Content) where
  module _ (b : String) (source target : List String) where
    abbrev from : ObjectLocation
    from = Rescue.from system settings ids c b source target

    abbrev to : ObjectLocation
    to = Rescue.to system settings ids c b source target

    abbrev Claimed : FilePath → List File → Type 0
    Claimed = Rescue.Claimed system settings ids c b source target

    -- at its place, or in a temporary file
    abbrev pub Kept : List File → Type 0
    Kept = Rescue.Kept system settings ids c b source target

    abbrev pub Finalized : String → List File → Type 0
    Finalized expected_etag fs =
        At c to.object_path fs × (etag_of system settings (bytes_of c) ≡ expected_etag)

    Claimed-rule :
        (claimed : FilePath) (temp : IsTemp system settings claimed)
        → FileTriple
            (λ u. Claimed claimed)
            (λ e. Kept)
            (At c from.object_path)
            (rename system from.object_path claimed)
    Claimed-rule claimed temp =
        rename_rule system from.object_path claimed (λ fs p b. inl p) (λ fs p e. inl p)
          (λ f fs p e. (
            At-new c (remove fs from.object_path) (record f { path = claimed })
                (At-found c from.object_path fs f p e),
            lookup-store_other (remove fs from.object_path) (record f { path = claimed })
                  from.object_path (temp-object system settings claimed b source temp)
                ∙ lookup-remove_same fs from.object_path,
          ))

    discard_meta :
        (expected_etag : String)
        → FileTriple
            (λ u. Finalized expected_etag)
            (λ e. Kept)
            (Finalized expected_etag)
            (discard system settings from.meta_path)
    discard_meta expected_etag =
        discard_rule system settings from.meta_path (λ fs p. p)
          (λ fs p. (
            At-remove c to.object_path from.meta_path fs
                (meta-object system settings b b source target) p.0,
            p.1,
          ))

    -- the content is at its place before
    claim_rule :
        (m : StoredMeta) (expected_etag : String)
        → FileTriple
            (λ u. Finalized expected_etag)
            (λ e. Kept)
            (At c from.object_path)
            (claim_and_move system settings from to m expected_etag)
    unfolding claim_and_move
    claim_rule m expected_etag =
        Triple-bind _ _ (IsTemp-rule system settings ids (λ fs p b. inl p)) (λ claimed.
          Triple-given {X = IsTemp system settings claimed} _ (λ fs p. p.0)
            (λ temp.
              Triple-bind _ _
                (Triple-weaken _ (λ fs p. p.1) (λ u fs p. p) (λ e fs p. p)
                  (Claimed-rule claimed temp))
                (λ u.
                  Triple-bind _ _
                    (Rescue.rescued_rule system settings ids c b source target claimed temp m
                      expected_etag)
                    (λ u. discard_meta expected_etag))))

    matched_rule :
        (o : Option StoredMeta) (expected_etag : String)
        → FileTriple
            (λ u. Finalized expected_etag)
            (λ e. Kept)
            (At c from.object_path)
            (matching system settings from to expected_etag o)
    matched_rule none expected_etag = Triple-throw _ (λ fs p. inl p)
    matched_rule (some m) expected_etag =
        Triple-if (m.etag == expected_etag) _ _ (λ h. claim_rule m expected_etag)
          (λ h. Triple-throw _ (λ fs p. inl p))

    -- reading metadata changes nothing
    read_meta_rule :
        FileTriple
          (λ o. At c from.object_path)
          (λ e. Kept)
          (At c from.object_path)
          (read_meta system settings from)
    unfolding read_meta
    read_meta_rule =
        Triple-try_catch {F = λ e. At c from.object_path} _ _
          (Triple-bind {R = λ f. At c from.object_path} _ _
            (read_rule system from.object_path (λ fs p b. p) (λ fs p e. p) (λ f fs p e. p))
            (λ f.
              Triple-bind {R = λ f. At c from.object_path} _ _
                (read_rule system from.meta_path (λ fs p b. p) (λ fs p e. p) (λ f fs p e. p))
                (λ f. Triple-lift _ (λ o fs e p. p) (λ e fs p. p))))
          (λ e.
            Triple-if (is_missing e) _ _ (λ h. Triple-pure none (λ fs p. p))
              (λ h. Triple-throw e (λ fs p. inl p)))

  module _ (source_key final_key expected_etag : String) (bucket : Option String) where
    abbrev in_bucket : String
    in_bucket = bucket_or settings bucket

    found_place :
        (key : String) (P : List File → Type 0)
        → ((fs : List File)
            → P fs
            → Kept in_bucket (split b'/' source_key) (split b'/' final_key) fs)
        → FileTriple
            (λ l fs. (l ≡ place settings.root in_bucket (split b'/' key)) × P fs)
            (λ e. Kept in_bucket (split b'/' source_key) (split b'/' final_key))
            P
            (lift (locate settings.root in_bucket key))
    found_place key P h =
        Triple-lift _ (λ l fs e p. ((locate-place settings.root in_bucket key l e).0, p))
          (λ e fs p. h fs p)

    finalize_rule :
        FileTriple
          (λ u. Finalized in_bucket (split b'/' source_key) (split b'/' final_key) expected_etag)
          (λ e. Kept in_bucket (split b'/' source_key) (split b'/' final_key))
          (At c (place settings.root in_bucket (split b'/' source_key)).object_path)
          (finalize system settings source_key final_key expected_etag bucket)
    unfolding finalize
    finalize_rule =
        Triple-try_catch _ _
          (Triple-bind _ _ (found_place source_key _ (λ fs p. inl p)) (λ source.
            Triple-given _ (λ fs p. p.0)
              (λ at_source. rw at_source (
                Triple-bind _ _ (found_place final_key _ (λ fs p. inl p.1)) (λ target.
                  Triple-given _ (λ fs p. p.0)
                    (λ at_target. rw at_target (
                      Triple-bind _ _
                        (Triple-weaken _ (λ fs p. p.1.1) (λ o fs p. p) (λ e fs p. p)
                          (read_meta_rule in_bucket (split b'/' source_key) (split b'/' final_key)))
                        (λ o.
                          matched_rule in_bucket (split b'/' source_key) (split b'/' final_key) o
                            expected_etag))))))))
          (λ e. Triple-throw _ (λ fs p. p))

    -- Whichever calls of the file system fail, where an object with this content stands under the
    -- source key before `finalize`, a success means that the content stands under the final key and
    -- has the expected etag, and a failure that it still stands under the source key or in a
    -- temporary file; ids are valid names.
    pub finalize-keeps :
        (d : Disk)
        → At c (place settings.root in_bucket (split b'/' source_key)).object_path d.files
        → Judged files_of
            (λ u. Finalized in_bucket (split b'/' source_key) (split b'/' final_key) expected_etag)
            (λ e. Kept in_bucket (split b'/' source_key) (split b'/' final_key))
            (finalize system settings source_key final_key expected_etag bucket d)
    finalize-keeps d h = finalize_rule.runs d h
