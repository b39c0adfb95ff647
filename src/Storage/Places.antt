-- ===== src/Storage/Places.antt =====
-- Where a located object lies.
use Prim.Native.Char.{code}
use nestjs_fastify_nx.Common.{
  ℕ, String, ◌==◌, ◌≡◌, refl, ap, ◌∙◌, Bool, true, false, ◌&&◌, List, [], ◌∷◌, ◌++◌, eqb, every,
  arith, Bool-cases, inl, inr, eq_iff, append_assoc, append_nil, sym,
}
use nestjs_fastify_nx.Common.Text.{split}
use nestjs_fastify_nx.Errors.{ok, err, fault, err-ne-ok}
use nestjs_fastify_nx.Storage.Paths.{
  FilePath, is_alphanumeric, is_name_char, are_name_chars, is_segment, walk, all_names, join,
  with_json, ObjectLocation, segments, location, locate,
}

-- The path of a list of plain names below a folder of the root, and of their metadata.
abbrev pub below : FilePath → String → List String → FilePath
below root folder names = root ++ folder ∷ names

name_char-slash : (c : ℕ) → is_name_char c ≡ true → eqb c b'/' ≡ false
name_char-slash c h = ground arith

alphanumeric-name_char : (c : ℕ) → is_alphanumeric c ≡ true → is_name_char c ≡ true
alphanumeric-name_char c h = ground arith

pub and-both : (a b : Bool) → (a && b) ≡ true → (a ≡ true) × (b ≡ true)
and-both a b h = ground arith

split-names : (s : String) → are_name_chars s ≡ true → split b'/' s ≡ s ∷ []
unfolding are_name_chars split
split-names String.[] h = refl
split-names (String.◌∷◌ c s) h =
    let (first, rest) = and-both (is_name_char (code c)) (are_name_chars s) h in
    rw (name_char-slash (code c) first, split-names s rest) refl

pub segment-are_name_chars : (s : String) → is_segment s ≡ true → are_name_chars s ≡ true
unfolding is_segment are_name_chars
segment-are_name_chars String.[] h = refl
segment-are_name_chars (String.◌∷◌ c s) h =
    let (first, rest) = and-both (is_alphanumeric (code c)) (are_name_chars s) h in
    rw (alphanumeric-name_char (code c) first, rest) refl

pub split-segment : (s : String) → is_segment s ≡ true → split b'/' s ≡ s ∷ []
split-segment s h = split-names s (segment-are_name_chars s h)

segment-ne : (s t : String) → is_segment t ≡ false → is_segment s ≡ true → (s == t) ≡ false
segment-ne s t h k = elim (Bool-cases (s == t)) [
  | inl e ↦ let same : s ≡ t = (eq_iff s t).0 e in let bad : false ≡ true = cc in absurd (ne bad)
  | inr e ↦ e
]
  where
    ne : ◌≡◌ {A = Bool} false true → ⊥
    ne h = cc

not_segments : (is_segment "" ≡ false) × (is_segment "." ≡ false) × (is_segment ".." ≡ false)
unfolding is_segment
not_segments = (refl, refl, refl)

walk-segment :
    (path : FilePath) (s : String) (rest : List String)
    → is_segment s ≡ true
    → walk path (s ∷ rest) ≡ walk (path ++ s ∷ []) rest
unfolding walk
walk-segment path s rest h =
    rw
      (
        segment-ne s "" not_segments.0 h,
        segment-ne s "." not_segments.1 h,
        segment-ne s ".." not_segments.2 h,
      )
      refl

walk-segments :
    (path : FilePath) (names : List String)
    → every is_segment names ≡ true
    → walk path names ≡ path ++ names
walk-segments path [] h = unfold walk in sym (append_nil path)
walk-segments path (s ∷ rest) h =
    let (first, others) = and-both (is_segment s) (every is_segment rest) h in
    walk-segment path s rest first
    ∙ walk-segments (path ++ s ∷ []) rest others
    ∙ append_assoc path (s ∷ []) rest

all_names-segments : (names : List String) → every is_segment names ≡ true → all_names names ≡ names
all_names-segments [] h = refl
all_names-segments (s ∷ rest) h =
    let (first, others) = and-both (is_segment s) (every is_segment rest) h in
    rw (split-segment s first, all_names-segments rest others) refl

pub join-segments :
    (root : FilePath) (names : List String)
    → every is_segment names ≡ true
    → join root names ≡ root ++ names
unfolding join
join-segments root names h = rw (all_names-segments names h) (walk-segments root names h)

-- The place of plain names.
abbrev pub place : FilePath → String → List String → ObjectLocation
place root bucket names = record {
  object_path = below root "objects" (bucket ∷ names);
  meta_path = with_json (below root "meta" (bucket ∷ names));
}

pub folder_segments :
    (is_segment "objects" ≡ true) × (is_segment "meta" ≡ true) × (is_segment "tmp" ≡ true)
unfolding is_segment are_name_chars
folder_segments = (refl, refl, refl)

join-place :
    (root : FilePath) (bucket : String) (names : List String)
    → is_segment bucket ≡ true
    → every is_segment names ≡ true
    → location root bucket names ≡ place root bucket names
join-place root bucket names h k =
    let objects = folder_segments.0 in
    let meta = folder_segments.1 in
    rw
      (
        join-segments root ("objects" ∷ (bucket ∷ names)) (ground arith),
        join-segments root ("meta" ∷ (bucket ∷ names)) (ground arith),
      )
      refl

-- A valid bucket and a valid key are found below the folder of the bucket.
pub locate-of_segments :
    (root : FilePath) (bucket key : String)
    → is_segment bucket ≡ true
    → every is_segment (split b'/' key) ≡ true
    → locate root bucket key ≡ ok (place root bucket (split b'/' key))
unfolding locate segments
locate-of_segments root bucket key h k = rw (h, k) (ap ok (join-place root bucket _ h k))

locate-invalid :
    (root : FilePath) (bucket key : String)
    → (is_segment bucket && every is_segment (split b'/' key)) ≡ false
    → locate root bucket key ≡ err (fault "Invalid local storage location")
unfolding locate segments
locate-invalid root bucket key h = rw h refl

-- A bucket and a key are found only if the bucket and every piece of the key between slashes is a
-- plain name; then the object lies below the root at `objects`, the bucket and these names, and its
-- metadata likewise at `meta`, whatever `join` does with dots and slashes.
pub locate-place :
    (root : FilePath) (bucket key : String) (l : ObjectLocation)
    → locate root bucket key ≡ ok l
    → (l ≡ place root bucket (split b'/' key))
      × (is_segment bucket ≡ true)
      × (every is_segment (split b'/' key) ≡ true)
locate-place root bucket key l h =
    elim (Bool-cases (is_segment bucket && every is_segment (split b'/' key))) [
      | inl valid ↦
          let (b, k) = and-both (is_segment bucket) (every is_segment (split b'/' key)) valid in
          (ok-injective _ _ (sym h ∙ locate-of_segments root bucket key b k), b, k)
      | inr bad ↦ absurd (err-ne-ok _ l (sym (locate-invalid root bucket key bad) ∙ h))
    ]
  where
    ok-injective : (a b : ObjectLocation) → ok a ≡ ok b → a ≡ b
    ok-injective a b h = cc
