-- ===== src/Storage/Temps.antt =====
-- Temporary paths, places of objects, and contents at paths.
use nestjs_fastify_nx.Common.{
  ℕ, String, ◌==◌, ◌≡◌, refl, sym, ap, ◌∙◌, true, false, none, some, List, [], ◌∷◌, ◌++◌,
  Bool-cases, inl, inr,
}
use nestjs_fastify_nx.Errors.{Failure, Result, ok, err}
use nestjs_fastify_nx.Exec.{Exec}
use nestjs_fastify_nx.Exec.Triples.{
  Judged, Triple-bind, Triple-pure, Triple-throw, Triple-try_catch,
}
use nestjs_fastify_nx.Storage.Paths.{FilePath, is_segment, join, with_json}
use nestjs_fastify_nx.Storage.Places.{below, place, join-segments, folder_segments}
use nestjs_fastify_nx.Storage.Signing.{Settings}
use nestjs_fastify_nx.Storage.Disk.{Content, File, Disk, System, same, lookup, remove, store}
use nestjs_fastify_nx.Storage.Files.{
  same-eq, same-append, lookup-remove_same, lookup-remove_other, lookup-store_same,
  lookup-store_other,
}
use nestjs_fastify_nx.Storage.Calls.{
  FileTriple, files_of, Broken, eio, make_rule, id_rule, unlink_rule,
}
use nestjs_fastify_nx.Storage.Local.{temp_path, discard, try_finally, finish}

-- A file with this content stands at the path.
abbrev pub At : Content → FilePath → List File → Type 0
At c path fs = (f : File) × (lookup fs path ≡ some f) × (f.content ≡ c)

pub At-remove :
    (c : Content) (p q : FilePath) (fs : List File)
    → same q p ≡ false
    → At c p fs
    → At c p (remove fs q)
At-remove c p q fs h (f, e, k) = (f, lookup-remove_other fs q p h ∙ e, k)

pub At-store :
    (c : Content) (p : FilePath) (fs : List File) (g : File)
    → same g.path p ≡ false
    → At c p fs
    → At c p (store fs g)
At-store c p fs g h (f, e, k) = (f, lookup-store_other fs g p h ∙ e, k)

pub At-new : (c : Content) (fs : List File) (g : File) → g.content ≡ c → At c g.path (store fs g)
At-new c fs g h = (g, lookup-store_same fs g, h)

-- What is at a path is the file that is found there.
pub At-found :
    (c : Content) (p : FilePath) (fs : List File) (f : File)
    → At c p fs
    → lookup fs p ≡ some f
    → f.content ≡ c
At-found c p fs f (g, e, k) h =
    let same_file : g ≡ f = cc in ap (λ (x : File). x.content) (sym same_file) ∙ k

pub some-ne-none : (f : File) → some f ≡ none → ⊥
some-ne-none f h = cc

-- A free path is none at which something stands.
pub free-other :
    (c : Content) (p q : FilePath) (fs : List File)
    → At c p fs
    → lookup fs q ≡ none
    → same q p ≡ false
free-other c p q fs (f, e, k) h = elim (Bool-cases (same q p)) [
  | inl s ↦ absurd (some-ne-none f (sym e ∙ ap (lookup fs) (sym (same-eq q p s)) ∙ h))
  | inr other ↦ other
]

pub absent-remove :
    (p q : FilePath) (fs : List File) → lookup fs p ≡ none → lookup (remove fs q) p ≡ none
absent-remove p q fs h = elim (Bool-cases (same q p)) [
  | inl s ↦ ap (λ r. lookup (remove fs r) p) (same-eq q p s) ∙ lookup-remove_same fs p
  | inr other ↦ lookup-remove_other fs q p other ∙ h
]

-- Paths in different folders of the root differ.
pub apart :
    (root : FilePath) (a b : String) (xs ys : List String)
    → (a == b) ≡ false
    → same (below root a xs) (below root b ys) ≡ false
apart root a b xs ys h = same-append root (a ∷ xs) (b ∷ ys) ∙ rw h refl

with_json-append :
    (r : FilePath) (y : String) (ys : List String)
    → with_json (r ++ y ∷ ys) ≡ r ++ with_json (y ∷ ys)
unfolding with_json
with_json-append [] y ys = refl
with_json-append (x ∷ []) y ys = refl
with_json-append (x ∷ (z ∷ r)) y ys = ap (λ t. x ∷ t) (with_json-append (z ∷ r) y ys)

pub with_json-below :
    (root : FilePath) (a : String) (s : String) (xs : List String)
    → with_json (below root a (s ∷ xs)) ≡ below root a (with_json (s ∷ xs))
with_json-below root a s xs = with_json-append root a (s ∷ xs) ∙ unfold with_json in refl

-- What is found elsewhere stays found when a file is moved.
pub lookup-moved :
    (fs : List File) (f : File) (source target p : FilePath)
    → same source p ≡ false
    → same target p ≡ false
    → lookup (store (remove fs source) (record f { path = target })) p ≡ lookup fs p
lookup-moved fs f source target p h k =
    lookup-store_other (remove fs source) (record f { path = target }) p k
    ∙ lookup-remove_other fs source p h

pub At-moved :
    (c : Content) (fs : List File) (f : File) (source target p : FilePath)
    → same source p ≡ false
    → same target p ≡ false
    → At c p fs
    → At c p (store (remove fs source) (record f { path = target }))
At-moved c fs f source target p h k (g, e, i) = (g, lookup-moved fs f source target p h k ∙ e, i)

Judged-finish :
    {A : Type 0} {Q Q' : A → List File → Type 0} {E F : Failure → List File → Type 0}
    (cleanup : Exec Disk (Unit {0})) (x : Result A × Disk)
    → Judged files_of Q F x
    → ((a : A) → FileTriple (λ u. Q' a) E (Q a) cleanup)
    → ((e : Failure) → FileTriple (λ u. E e) E (F e) cleanup)
    → Judged files_of Q' E (finish cleanup x)
Judged-finish {Q' = Q'} cleanup (ok a, d) p h k =
    (Triple-bind {Q = Q'} _ _ (h a) (λ u. Triple-pure a (λ fs q. q))).runs d p
Judged-finish {Q' = Q'} cleanup (err e, d) p h k =
    (Triple-bind {Q = Q'} _ _ (k e) (λ u. Triple-throw e (λ fs q. q))).runs d p

module _ (system : System) (settings : Settings) where
  -- the path of a generated id in the folder for temporary files
  abbrev pub IsTemp : FilePath → Type 0
  IsTemp path = (id : String) × (path ≡ below settings.root "tmp" (id ∷ []))

  pub temp-meta :
      (t : FilePath) (bucket : String) (names : List String)
      → IsTemp t
      → same (place settings.root bucket names).meta_path t ≡ false
  temp-meta t bucket names (id, e) =
      ap (λ p. same p t) (with_json-below settings.root "meta" bucket names)
      ∙ ap (same _) e
      ∙ apart settings.root "meta" "tmp" _ _ refl

  pub temp-object :
      (t : FilePath) (bucket : String) (names : List String)
      → IsTemp t
      → same t (place settings.root bucket names).object_path ≡ false
  temp-object t bucket names (id, e) =
      ap (λ p. same p (place settings.root bucket names).object_path) e
      ∙ apart settings.root "tmp" "objects" (id ∷ []) (bucket ∷ names) refl

  pub meta-object :
      (b b' : String) (names names' : List String)
      → same (place settings.root b names).meta_path (place settings.root b' names').object_path
        ≡ false
  meta-object b b' names names' =
      ap (λ p. same p (place settings.root b' names').object_path)
        (with_json-below settings.root "meta" b names)
      ∙ apart settings.root "meta" "objects" _ (b' ∷ names') refl

  temp_path-below :
      (id : String)
      → is_segment id ≡ true
      → join settings.root ("tmp" ∷ (id ∷ [])) ≡ below settings.root "tmp" (id ∷ [])
  temp_path-below id h =
      join-segments settings.root ("tmp" ∷ (id ∷ [])) (rw (h, folder_segments.2) refl)

  module _ {P : List File → Type 0} {E : Failure → List File → Type 0} where
    pub IsTemp-rule :
        ((n : ℕ) → is_segment (system.id n) ≡ true)
        → ((fs : List File) → P fs → Broken system → E eio fs)
        → FileTriple (λ path fs. IsTemp path × P fs) E P (temp_path system settings)
    unfolding temp_path
    IsTemp-rule ids h = Triple-bind {R = λ u. P} _ _ (make_rule system h (λ fs p. p)) (λ u.
        Triple-bind {R = λ id fs. (is_segment id ≡ true) × P fs} _ _
          (id_rule system (λ n fs p. (ids n, p)))
          (λ id. Triple-pure _ (λ fs (k, p). ((id, temp_path-below id k), p))))

    -- a removal that may fail
    pub discard_rule :
        {Q : List File → Type 0} (path : FilePath)
        → ((fs : List File) → P fs → Q fs)
        → ((fs : List File) → P fs → Q (remove fs path))
        → FileTriple (λ u. Q) E P (discard system settings path)
    unfolding discard
    discard_rule {Q = Q} path h k =
        Triple-try_catch {F = λ e. Q} _ _
          (unlink_rule system path (λ fs p b. h fs p) (λ fs p e. h fs p) (λ f fs p e. k fs p))
          (λ e. Triple-pure tt (λ fs q. q))

    pub try_finally_rule :
        {A : Type 0} {Q Q' : A → List File → Type 0} {F : Failure → List File → Type 0}
        (m : Exec Disk A) (cleanup : Exec Disk (Unit {0}))
        → FileTriple Q F P m
        → ((a : A) → FileTriple (λ u. Q' a) E (Q a) cleanup)
        → ((e : Failure) → FileTriple (λ u. E e) E (F e) cleanup)
        → FileTriple Q' E P (try_finally m cleanup)
    unfolding try_finally
    try_finally_rule m cleanup h k l = record {
      runs = λ d p. Judged-finish cleanup (m d) (h.runs d p) k l;
    }
