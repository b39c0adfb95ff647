-- ===== src/Storage/Paths.antt =====
-- libs/infra/storage/src/lib/local-storage.adapter.ts: `segments` and `locate`, and Node's `join` on
-- absolute paths, which are lists of names.
use Prim.Native.Char.{code}
use Prim.Native.String
use nestjs_fastify_nx.Common.{
  ℕ, String, ◌==◌, Bool, true, false, ◌&&◌, ◌||◌, List, [], ◌∷◌, ◌++◌, leb, eqb, every,
  if◌then◌else◌,
}
use nestjs_fastify_nx.Common.Text.{split}
use nestjs_fastify_nx.Errors.{Result, ok, err, fault, ◌>>=◌}

abbrev pub FilePath : Type 0
FilePath = List String

-- `[A-Za-z0-9]`
abbrev pub is_alphanumeric : ℕ → Bool
is_alphanumeric c =
    (leb b'A' c && leb c b'Z') || (leb b'a' c && leb c b'z') || (leb b'0' c && leb c b'9')

-- `[A-Za-z0-9._-]`
abbrev pub is_name_char : ℕ → Bool
is_name_char c = is_alphanumeric c || eqb c b'.' || eqb c b'_' || eqb c b'-'

unfoldable pub are_name_chars : String → Bool
are_name_chars String.[] = true
are_name_chars (String.◌∷◌ c s) = is_name_char (code c) && are_name_chars s

-- `SEGMENT_PATTERN.test(s)`
unfoldable pub is_segment : String → Bool
is_segment String.[] = false
is_segment (String.◌∷◌ c s) = is_alphanumeric (code c) && are_name_chars s

-- the path above
unfoldable pub parent : FilePath → FilePath
parent [] = []
parent (x ∷ []) = []
parent (x ∷ (y ∷ rest)) = x ∷ parent (y ∷ rest)

-- the names that a relative path goes through, from an absolute path
unfoldable pub walk : FilePath → List String → FilePath
walk path [] = path
walk path (s ∷ rest) =
    if s == "" || s == "."
    then walk path rest
    else if s == ".."
    then walk (parent path) rest
    else walk (path ++ s ∷ []) rest

abbrev pub all_names : List String → List String
all_names [] = []
all_names (part ∷ parts) = split b'/' part ++ all_names parts

-- `join(root, …parts)`
unfoldable pub join : FilePath → List String → FilePath
join root parts = walk root (all_names parts)

-- `${path}.json`
unfoldable pub with_json : FilePath → FilePath
with_json [] = []
with_json (s ∷ []) = String.◌++◌ s ".json" ∷ []
with_json (s ∷ (t ∷ rest)) = s ∷ with_json (t ∷ rest)

pub record ObjectLocation : Type 0 where
  pub object_path : FilePath
  pub meta_path : FilePath

unfoldable pub segments : String → String → Result (List String)
segments bucket key =
    let names = split b'/' key in
    if is_segment bucket && every is_segment names
    then ok names
    else err (fault "Invalid local storage location")

abbrev pub location : FilePath → String → List String → ObjectLocation
location root bucket names = record {
  object_path = join root ("objects" ∷ (bucket ∷ names));
  meta_path = with_json (join root ("meta" ∷ (bucket ∷ names)));
}

unfoldable pub locate : FilePath → String → String → Result ObjectLocation
unfolding segments
locate root bucket key = segments bucket key >>= λ names. ok (location root bucket names)
