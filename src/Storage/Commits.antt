-- ===== src/Storage/Commits.antt =====
-- `commit` of libs/infra/storage/src/lib/local-storage.adapter.ts, and what it leaves where a call of the
-- file system fails in it.
use mathlib.Core.Path.{subst}
use nestjs_fastify_nx.Common.{
  ℕ, String, ◌≡◌, ◌⊎◌, inl, inr, ap, ◌∙◌, true, false, Option, none, List,
}
use nestjs_fastify_nx.Exec.Triples.{Triple-bind}
use nestjs_fastify_nx.Storage.Paths.{FilePath, is_segment, ObjectLocation}
use nestjs_fastify_nx.Storage.Places.{place}
use nestjs_fastify_nx.Storage.Signing.{Settings}
use nestjs_fastify_nx.Storage.Disk.{
  Content, meta, StoredMeta, File, System, same, lookup, remove, store, rename,
}
use nestjs_fastify_nx.Storage.Files.{same_sym, lookup-store_other, lookup-remove_other}
use nestjs_fastify_nx.Storage.Calls.{FileTriple, make_rule, rename_rule, write_rule}
use nestjs_fastify_nx.Storage.Temps.{
  At, At-remove, At-store, At-new, At-found, At-moved, lookup-moved, free-other, temp-meta,
  temp-object, meta-object, IsTemp, IsTemp-rule, discard_rule,
}
use nestjs_fastify_nx.Storage.Local.{commit, discard}

module _ (system : System) (settings : Settings) (ids : (n : ℕ) → is_segment (system.id n) ≡ true)
    (b : String) (names : List String) (before : Option File) where
  abbrev pub here : ObjectLocation
  here = place settings.root b names

  -- the bytes as they were
  abbrev pub Kept : List File → Type 0
  Kept fs = lookup fs here.object_path ≡ before

  -- the bytes and their metadata as they were
  abbrev pub Untouched : Option File → List File → Type 0
  Untouched before_meta fs = Kept fs × (lookup fs here.meta_path ≡ before_meta)

  -- the bytes as they were, and their metadata as it was or replaced already
  abbrev pub Left : StoredMeta → Option File → List File → Type 0
  Left m before_meta fs =
      Kept fs × ((lookup fs here.meta_path ≡ before_meta) ⊎ At (meta m) here.meta_path fs)

  pub Untouched-Left :
      (m : StoredMeta) (before_meta : Option File) (fs : List File)
      → Untouched before_meta fs
      → Left m before_meta fs
  Untouched-Left m before_meta fs (h, k) = (h, inl k)

  module _ (c : Content) (m : StoredMeta) where
    abbrev pub Filled : List File → Type 0
    Filled fs = At c here.object_path fs × At (meta m) here.meta_path fs

    module _ (before_meta : Option File) (temp : FilePath) (t : IsTemp system settings temp) where
      abbrev pub Failed : List File → Type 0
      Failed fs = Left m before_meta fs

      -- written to the temporary file
      abbrev pub Written : List File → Type 0
      Written fs = Untouched before_meta fs × At c temp fs

      Written-Failed : (fs : List File) → Written fs → Failed fs
      Written-Failed fs p = Untouched-Left m before_meta fs p.0

      abbrev Prepared : FilePath → List File → Type 0
      Prepared mt fs =
          Written fs × At (meta m) mt fs × (same mt temp ≡ false) × IsTemp system settings mt

      abbrev Described : List File → Type 0
      Described fs = Kept fs × At c temp fs × At (meta m) here.meta_path fs

      Described-Failed : (fs : List File) → Described fs → Failed fs
      Described-Failed fs (h, p, q) = (h, inr q)

      pub Untouched-store :
          (path : FilePath) (fs : List File) (f : File)
          → IsTemp system settings path
          → f.path ≡ path
          → Untouched before_meta fs
          → Untouched before_meta (store fs f)
      Untouched-store path fs f k e (h, i) = (
        lookup-store_other fs f here.object_path
              (ap (λ p. same p here.object_path) e ∙ temp-object system settings path b names k)
            ∙ h,
        lookup-store_other fs f here.meta_path (
              ap (λ p. same p here.meta_path) e
              ∙ (same_sym path here.meta_path ∙ temp-meta system settings path b names k))
            ∙ i,
      )

      meta-temp : same here.meta_path temp ≡ false
      meta-temp = temp-meta system settings temp b names t

      meta-here : same here.meta_path here.object_path ≡ false
      meta-here = meta-object system settings b b names names

      prepared :
          (mt : FilePath) (fs : List File) (f : File)
          → IsTemp system settings mt
          → Written fs
          → lookup fs mt ≡ none
          → f.path ≡ mt
          → f.content ≡ meta m
          → Prepared mt (store fs f)
      prepared mt fs f k (h, p) free e e' =
          let other = free-other c temp mt fs p free in
          (
            (
              Untouched-store mt fs f k e h,
              At-store c temp fs f (ap (λ r. same r temp) e ∙ other) p,
            ),
            subst (λ r. At (meta m) r (store fs f)) e (At-new (meta m) fs f e'),
            other,
            k,
          )

      rename_metadata :
          (mt : FilePath)
          → FileTriple
              (λ u. Described)
              (λ e. Failed)
              (Prepared mt)
              (rename system mt here.meta_path)
      rename_metadata mt =
          rename_rule system mt here.meta_path (λ fs p b. Written-Failed fs p.0)
            (λ fs p e. Written-Failed fs p.0)
            (λ f fs (((h, i), p), q, other, k) e. (
              lookup-moved fs f mt here.meta_path here.object_path
                    (temp-object system settings mt b names k) meta-here
                  ∙ h,
              At-moved c fs f mt here.meta_path temp other meta-temp p,
              At-new (meta m) (remove fs mt) (record f { path = here.meta_path })
                  (At-found (meta m) mt fs f q e),
            ))

      rename_object :
          FileTriple (λ u. Filled) (λ e. Failed) Described (rename system temp here.object_path)
      rename_object =
          rename_rule system temp here.object_path (λ fs p b. Described-Failed fs p)
            (λ fs p e. Described-Failed fs p)
            (λ f fs (h, p, q) e. (
              At-new c (remove fs temp) (record f { path = here.object_path })
                  (At-found c temp fs f p e),
              At-moved (meta m) fs f temp here.object_path here.meta_path
                  (same_sym temp here.meta_path ∙ meta-temp)
                  (same_sym here.object_path here.meta_path ∙ meta-here) q,
            ))

      pub commit_rule :
          FileTriple (λ u. Filled) (λ e. Failed) Written (commit system settings temp here m)
      unfolding commit
      commit_rule =
          Triple-bind {R = λ u. Written} _ _
            (make_rule system (λ fs p b. Written-Failed fs p) (λ fs p. p))
            (λ u.
              Triple-bind {R = λ u. Written} _ _
                (make_rule system (λ fs p b. Written-Failed fs p) (λ fs p. p))
                (λ u.
                  Triple-bind {R = λ mt fs. IsTemp system settings mt × Written fs} _ _
                    (IsTemp-rule system settings ids (λ fs p b. Written-Failed fs p))
                    (λ mt.
                      Triple-bind {R = λ u. Prepared mt} _ _
                        (write_rule system mt (meta m) (λ fs p b. Written-Failed fs p.1)
                          (λ fs old p e. Written-Failed fs p.1)
                          (λ fs f p e h k. prepared mt fs f p.0 p.1 e h k))
                        (λ u. Triple-bind _ _ (rename_metadata mt) (λ u. rename_object)))))

  pub discard-Left :
      (m : StoredMeta) (before_meta : Option File) (temp : FilePath)
      → IsTemp system settings temp
      → FileTriple
          (λ u. Left m before_meta)
          (λ e. Left m before_meta)
          (Left m before_meta)
          (discard system settings temp)
  discard-Left m before_meta temp t =
      discard_rule system settings temp (λ fs p. p)
        (λ fs (h, k). (
          lookup-remove_other fs temp here.object_path (temp-object system settings temp b names t)
              ∙ h,
          elim k [
            | inl old ↦ inl (lookup-remove_other fs temp here.meta_path apart_meta ∙ old)
            | inr new ↦ inr (At-remove (meta m) here.meta_path temp fs apart_meta new)
          ],
        ))
    where
      apart_meta : same temp here.meta_path ≡ false
      apart_meta = same_sym temp here.meta_path ∙ temp-meta system settings temp b names t
