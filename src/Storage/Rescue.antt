-- ===== src/Storage/Rescue.antt =====
-- What becomes of a content that `finalize` has claimed, whichever calls of the file system fail.
use nestjs_fastify_nx.Common.{
  ℕ, String, ◌==◌, ◌≡◌, sym, ap, ◌∙◌, Bool, true, false, none, List, ◌⊎◌, inl, inr, eq_iff,
  if◌then◌else◌,
}
use nestjs_fastify_nx.Exec.{throw, try_catch, pure, ◌>>◌}
use nestjs_fastify_nx.Exec.Triples.{
  Triple-bind, Triple-pure, Triple-throw, Triple-if, Triple-try_catch, Triple-weaken, Triple-given,
}
use nestjs_fastify_nx.Storage.Paths.{FilePath, is_segment, ObjectLocation}
use nestjs_fastify_nx.Storage.Places.{place}
use nestjs_fastify_nx.Storage.Signing.{Settings}
use nestjs_fastify_nx.Storage.Disk.{
  Content, rename, link, meta, StoredMeta, File, System, same, lookup, remove, store, is_fault,
}
use nestjs_fastify_nx.Storage.Files.{lookup-store_other}
use nestjs_fastify_nx.Storage.Calls.{
  FileTriple, make_rule, read_rule, rename_rule, write_rule, link_rule,
}
use nestjs_fastify_nx.Storage.Temps.{
  At, At-remove, At-store, At-new, At-found, free-other, absent-remove, some-ne-none, temp-meta,
  temp-object, meta-object, IsTemp, IsTemp-rule, discard_rule,
}
use nestjs_fastify_nx.Storage.Local.{
  commit, discard, digest_file, restore_claimed, move_claimed, etag_of, bytes_of,
}

module _ (system : System) (settings : Settings) (ids : (n : ℕ) → is_segment (system.id n) ≡ true)
    (c : Content) where
  module _ (b : String) (source target : List String) where
    abbrev pub from : ObjectLocation
    from = place settings.root b source

    abbrev pub to : ObjectLocation
    to = place settings.root b target

    -- claimed, and gone from its place
    abbrev pub Claimed : FilePath → List File → Type 0
    Claimed claimed fs = At c claimed fs × (lookup fs from.object_path ≡ none)

    -- at its place, or in a temporary file
    abbrev pub Kept : List File → Type 0
    Kept fs = At c from.object_path fs ⊎ ((t : FilePath) × IsTemp system settings t × At c t fs)

    module _ (claimed : FilePath) (temp : IsTemp system settings claimed) where
      Kept-Claimed : (fs : List File) → Claimed claimed fs → Kept fs
      Kept-Claimed fs (p, q) = inr (claimed, temp, p)

      absent-store :
          (fs : List File) (g : File)
          → same g.path from.object_path ≡ false
          → lookup fs from.object_path ≡ none
          → lookup (store fs g) from.object_path ≡ none
      absent-store fs g h k = lookup-store_other fs g from.object_path h ∙ k

      -- with the metadata in a temporary file
      abbrev Prepared : FilePath → List File → Type 0
      Prepared t fs = Claimed claimed fs × (same t claimed ≡ false)

      prepared :
          (t : FilePath) (fs : List File) (f : File)
          → IsTemp system settings t
          → Claimed claimed fs
          → lookup fs t ≡ none
          → f.path ≡ t
          → Prepared t (store fs f)
      prepared t fs f k (p, q) h e =
          let free = free-other c claimed t fs p h in
          (
            (
              At-store c claimed fs f (ap (λ r. same r claimed) e ∙ free) p,
              absent-store fs f
                  (ap (λ r. same r from.object_path) e ∙ temp-object system settings t b source k)
                  q,
            ),
            free,
          )

      with_metadata :
          (t : FilePath) (fs : List File) (f : File)
          → Prepared t fs
          → Claimed claimed (store (remove fs t) (record f { path = to.meta_path }))
      with_metadata t fs f ((p, q), free) = (
        At-store c claimed (remove fs t) (record f { path = to.meta_path })
            (temp-meta system settings claimed b target temp) (At-remove c claimed t fs free p),
        absent-store (remove fs t) (record f { path = to.meta_path })
            (meta-object system settings b b target source) (absent-remove from.object_path t fs q),
      )

      rename_metadata :
          (t : FilePath)
          → FileTriple
              (λ u. Claimed claimed)
              (λ e. Claimed claimed)
              (Prepared t)
              (rename system t to.meta_path)
      rename_metadata t =
          rename_rule system t to.meta_path (λ fs p b. p.0) (λ fs p e. p.0)
            (λ f fs p e. with_metadata t fs f p)

      rename-Claimed :
          FileTriple
            (λ u. At c to.object_path)
            (λ e. Claimed claimed)
            (Claimed claimed)
            (rename system claimed to.object_path)
      rename-Claimed =
          rename_rule system claimed to.object_path (λ fs p b. p) (λ fs p e. p)
            (λ f fs p e.
              At-new c (remove fs claimed) (record f { path = to.object_path })
                (At-found c claimed fs f p.0 e))

      commit_rule :
          (m : StoredMeta)
          → FileTriple
              (λ u. At c to.object_path)
              (λ e. Claimed claimed)
              (Claimed claimed)
              (commit system settings claimed to m)
      unfolding commit
      commit_rule m =
          Triple-bind {R = λ u. Claimed claimed} _ _ (make_rule system (λ fs p b. p) (λ fs p. p))
            (λ u.
              Triple-bind {R = λ u. Claimed claimed} _ _
                (make_rule system (λ fs p b. p) (λ fs p. p))
                (λ u.
                  Triple-bind {R = λ t fs. IsTemp system settings t × Claimed claimed fs} _ _
                    (IsTemp-rule system settings ids (λ fs p b. p))
                    (λ t.
                      Triple-bind {R = λ u. Prepared t} _ _
                        (write_rule system t (meta m) (λ fs p b. p.1) (λ fs old p e. p.1)
                          (λ fs f p e h k. prepared t fs f p.0 p.1 e h))
                        (λ u. Triple-bind _ _ (rename_metadata t) (λ u. rename-Claimed)))))

      abbrev digest_of : String
      digest_of = etag_of system settings (bytes_of c)

      digest_rule :
          FileTriple
            (λ etag fs. (etag ≡ digest_of) × Claimed claimed fs)
            (λ e. Claimed claimed)
            (Claimed claimed)
            (digest_file system settings claimed)
      unfolding digest_file
      digest_rule =
          Triple-bind {R = λ f fs. (f.content ≡ c) × Claimed claimed fs} _ _
            (read_rule system claimed (λ fs p b. p) (λ fs p e. p)
              (λ f fs p e. (At-found c claimed fs f p.0 e, p)))
            (λ f.
              Triple-pure _ (λ fs (e, p). (ap (λ x. etag_of system settings (bytes_of x)) e, p)))

      -- at the new place, with the expected digest
      abbrev Moved : String → List File → Type 0
      Moved expected_etag fs = At c to.object_path fs × (digest_of ≡ expected_etag)

      move_rule :
          (m : StoredMeta) (expected_etag : String)
          → FileTriple
              (λ u. Moved expected_etag)
              (λ e. Claimed claimed)
              (Claimed claimed)
              (move_claimed system settings claimed to m expected_etag)
      unfolding move_claimed
      move_rule m expected_etag = Triple-bind _ _ digest_rule (λ etag.
          Triple-if (etag == expected_etag) _ _
            (λ h.
              Triple-given {X = etag ≡ digest_of} _ (λ fs p. p.0)
                (λ e.
                  Triple-weaken _ (λ fs p. p.1)
                    (λ u fs p. (p, sym e ∙ (eq_iff etag expected_etag).0 h)) (λ e' fs p. p)
                    (commit_rule m)))
            (λ h. Triple-throw _ (λ fs p. p.1)))

      -- back at its place, or still claimed
      abbrev Linked : Bool → List File → Type 0
      Linked true fs = At c from.object_path fs
      Linked false fs = At c claimed fs

      link_back_rule :
          FileTriple Linked
            (λ e. Kept)
            (Claimed claimed)
            (try_catch
              (link system claimed from.object_path >> pure true)
              (λ e. pure (is_fault e "EEXIST")))
      link_back_rule =
          Triple-try_catch {F = λ e. Linked (is_fault e "EEXIST")} _ _
            (Triple-bind {R = λ u. At c from.object_path} _ _
              (link_rule system claimed from.object_path (λ fs p b. p.0) (λ fs p e. p.0)
                (λ fs old p e. absurd (some-ne-none old (sym e ∙ p.1)))
                (λ f fs p e k.
                  At-new c fs (record f { path = from.object_path })
                    (At-found c claimed fs f p.0 e)))
              (λ u. Triple-pure true (λ fs p. p)))
            (λ e. Triple-pure _ (λ fs p. p))

      discard-Linked :
          (b : Bool)
          → FileTriple
              (λ u. Kept)
              (λ e. Kept)
              (Linked b)
              (if b then discard system settings claimed else pure tt)
      discard-Linked true =
          discard_rule system settings claimed (λ fs p. inl p)
            (λ fs p. inl (
              At-remove c from.object_path claimed fs
                (temp-object system settings claimed b source temp) p))
      discard-Linked false = Triple-pure tt (λ fs p. inr (claimed, temp, p))

      restore_rule :
          FileTriple
            (λ u. Kept)
            (λ e. Kept)
            (Claimed claimed)
            (restore_claimed system settings claimed from.object_path)
      unfolding restore_claimed
      restore_rule = Triple-bind _ _ link_back_rule discard-Linked

      pub rescued_rule :
          (m : StoredMeta) (expected_etag : String)
          → FileTriple
              (λ u. Moved expected_etag)
              (λ e. Kept)
              (Claimed claimed)
              (try_catch
                (move_claimed system settings claimed to m expected_etag)
                (λ e. restore_claimed system settings claimed from.object_path >> throw e))
      rescued_rule m expected_etag =
          Triple-try_catch _ _ (move_rule m expected_etag)
            (λ e. Triple-bind _ _ restore_rule (λ u. Triple-throw e (λ fs p. p)))
