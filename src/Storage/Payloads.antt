-- ===== src/Storage/Payloads.antt =====
-- What is signed determines what it was signed for.
use Prim.Native.Char.{Char, code}
use Prim.Native.String
use Prim.Native.String.append
use mathlib.Core.Path.{subst}
use text.Mathlib.TextLemmas.{append_assoc}
use nestjs_fastify_nx.Common.{
  ℕ, String, ◌≡◌, refl, sym, ap, ◌∙◌, Bool, true, false, not, ◌||◌, ◌&&◌, ◌∷◌, eqb, every,
  every-implies, arith, Bool-cases, inl, inr,
}
use nestjs_fastify_nx.Common.Text.{contains_char, split, cons_head}
use nestjs_fastify_nx.Common.Text.Spaces.{split-cons, split-here, split-other}
use nestjs_fastify_nx.Storage.Paths.{is_segment, are_name_chars, is_name_char}
use nestjs_fastify_nx.Storage.Places.{and-both, segment-are_name_chars}
use nestjs_fastify_nx.Storage.Signing.{
  decimal, join_lines, upload_payload, download_payload, Grant, Download, payload_of,
}
use nestjs_fastify_nx.Storage.Decimals.{OneLine, OneLine-decimal, decimal-injective}

abbrev newline : Char
newline = "\n"

head-eq : (c d : Char) (s t : String) → String.◌∷◌ c s ≡ String.◌∷◌ d t → c ≡ d
head-eq c d s t h = cc

tail-eq : (c d : Char) (s t : String) → String.◌∷◌ c s ≡ String.◌∷◌ d t → s ≡ t
tail-eq c d s t h = cc

-- a text, a line break and a text
abbrev line : String → String → String
line s rest = String.◌++◌ s (String.◌∷◌ newline rest)

OneLine-cons : (c : Char) (s : String) → OneLine (String.◌∷◌ c s) → (c ≡ newline → ⊥) × OneLine s
unfolding contains_char
OneLine-cons c s h = (λ e. let n : code c ≡ 10 = ap code e in absurd (ground arith), ground arith)

first_line : (s t a b : String) → OneLine s → OneLine t → line s a ≡ line t b → (s ≡ t) × (a ≡ b)
first_line String.[] String.[] a b h k e =
    (refl, tail-eq newline newline a b (sym (append.nil _) ∙ e ∙ append.nil _))
first_line String.[] (String.◌∷◌ d t) a b h k e = absurd (
    (OneLine-cons d t k).0
      (sym (head-eq newline d a _ (sym (append.nil _) ∙ e ∙ append.cons d t _))))
first_line (String.◌∷◌ c s) String.[] a b h k e =
    absurd
      ((OneLine-cons c s h).0 (head-eq c newline _ b (sym (append.cons c s _) ∙ e ∙ append.nil _)))
first_line (String.◌∷◌ c s) (String.◌∷◌ d t) a b h k e =
    let step =
      sym (append.cons c s (String.◌∷◌ newline a)) ∙ e ∙ append.cons d t (String.◌∷◌ newline b) in
    let first = head-eq c d _ _ step in
    let (same, rest) =
      first_line s t a b (OneLine-cons c s h).1 (OneLine-cons d t k).1 (tail-eq c d _ _ step) in
    (cc, rest)

-- A text with a line break is not on one line.
not_OneLine : (s a : String) → OneLine (line s a) → ⊥
not_OneLine String.[] a h =
    (OneLine-cons newline a (subst (λ r. OneLine r) (append.nil (String.◌∷◌ newline a)) h)).0 refl
not_OneLine (String.◌∷◌ c s) a h =
    not_OneLine s a
      (OneLine-cons c (line s a)
        (subst (λ r. OneLine r) (append.cons c s (String.◌∷◌ newline a)) h)).1

last_line : (s t a b : String) → OneLine a → OneLine b → line s a ≡ line t b → (s ≡ t) × (a ≡ b)
last_line String.[] String.[] a b h k e =
    (refl, tail-eq newline newline a b (sym (append.nil _) ∙ e ∙ append.nil _))
last_line String.[] (String.◌∷◌ d t) a b h k e =
    let rest : a ≡ line t b = tail-eq newline d a _ (sym (append.nil _) ∙ e ∙ append.cons d t _) in
    absurd (not_OneLine t b (subst (λ r. OneLine r) rest h))
last_line (String.◌∷◌ c s) String.[] a b h k e =
    let rest : line s a ≡ b = tail-eq c newline _ b (sym (append.cons c s _) ∙ e ∙ append.nil _) in
    absurd (not_OneLine s a (subst (λ r. OneLine r) (sym rest) k))
last_line (String.◌∷◌ c s) (String.◌∷◌ d t) a b h k e =
    let step =
      sym (append.cons c s (String.◌∷◌ newline a)) ∙ e ∙ append.cons d t (String.◌∷◌ newline b) in
    let first = head-eq c d _ _ step in
    let (same, rest) = last_line s t a b h k (tail-eq c d _ _ step) in (cc, rest)

-- what follows the name of the operation
abbrev place_lines : String → String → String → String
place_lines bucket key rest = line bucket (line key rest)

places-eq :
    (b b' k k' r r' : String)
    → OneLine b
    → OneLine b'
    → OneLine k
    → OneLine k'
    → place_lines b k r ≡ place_lines b' k' r'
    → (b ≡ b') × (k ≡ k') × (r ≡ r')
places-eq b b' k k' r r' hb hb' hk hk' e =
    let (buckets, rest) = first_line b b' _ _ hb hb' e in
    let (keys, others) = first_line k k' r r' hk hk' rest in (buckets, keys, others)

-- the content type, which may have line breaks, and the two numbers
abbrev limits_lines : String → ℕ → ℕ → String
limits_lines content_type max_bytes expires =
    line (line content_type (decimal max_bytes)) (decimal expires)

limits-eq :
    (c c' : String) (m m' e e' : ℕ)
    → limits_lines c m e ≡ limits_lines c' m' e'
    → (c ≡ c') × (m ≡ m') × (e ≡ e')
limits-eq c c' m m' e e' h =
    let (before, last) =
      last_line (line c (decimal m)) (line c' (decimal m')) (decimal e) (decimal e')
        (OneLine-decimal e) (OneLine-decimal e') h in
    let (types, numbers) =
      last_line c c' (decimal m) (decimal m') (OneLine-decimal m) (OneLine-decimal m') before in
    (types, decimal-injective m m' numbers, decimal-injective e e' last)

break-cons : (r : String) → String.◌++◌ "\n" r ≡ String.◌∷◌ newline r
break-cons r = append.cons newline "" r ∙ ap (λ t. String.◌∷◌ newline t) (append.nil r)

break-line : (s r : String) → String.◌++◌ s (String.◌++◌ "\n" r) ≡ line s r
break-line s r = ap (λ t. String.◌++◌ s t) (break-cons r)

line-line : (s a b : String) → line s (line a b) ≡ line (line s a) b
line-line s a b = sym (
    append_assoc s (String.◌∷◌ newline a) (String.◌∷◌ newline b)
    ∙ ap (λ t. String.◌++◌ s t) (append.cons newline a (String.◌∷◌ newline b)))

payload-lines :
    (g : Grant)
    → payload_of g
      ≡ line "upload"
          (place_lines g.bucket g.key (limits_lines g.content_type g.max_bytes g.expires))
unfolding payload_of upload_payload join_lines
payload-lines g =
    rw
      (
        break-line (decimal g.max_bytes) (decimal g.expires),
        break-line g.content_type (line (decimal g.max_bytes) (decimal g.expires)),
        line-line g.content_type (decimal g.max_bytes) (decimal g.expires),
        break-line g.key _,
        break-line g.bucket _,
        break-line "upload" _,
      )
      refl

download-lines :
    (d : Download)
    → download_payload d.bucket d.key d.expires
      ≡ line "download" (place_lines d.bucket d.key (decimal d.expires))
unfolding download_payload join_lines
download-lines d = rw (break-line d.key _, break-line d.bucket _, break-line "download" _) refl

-- a bucket and a key that are found
abbrev pub IsPlace : String → String → Type 0
IsPlace bucket key = (is_segment bucket ≡ true) × (every is_segment (split b'/' key) ≡ true)

name_char-newline : (n : ℕ) → is_name_char n ≡ true → eqb n 10 ≡ false
name_char-newline n h = ground arith

OneLine-names : (s : String) → are_name_chars s ≡ true → OneLine s
unfolding are_name_chars contains_char
OneLine-names String.[] h = refl
OneLine-names (String.◌∷◌ c s) h =
    let (first, others) = and-both (is_name_char (code c)) (are_name_chars s) h in
    rw (name_char-newline (code c) first) (OneLine-names s others)

OneLine-segment : (s : String) → is_segment s ≡ true → OneLine s
OneLine-segment s h = OneLine-names s (segment-are_name_chars s h)

-- no line break in any text of a list
abbrev one_line : String → Bool
one_line s = not (contains_char 10 s)

contains-cons :
    (c : Char) (s : String)
    → contains_char 10 (String.◌∷◌ c s) ≡ (eqb (code c) 10 || contains_char 10 s)
unfolding contains_char
contains-cons c s = refl

slash-newline : (n : ℕ) → eqb n b'/' ≡ true → eqb n 10 ≡ false
slash-newline n h = ground arith

-- the first piece has the character, or the piece after it
piece-step : (a b e : Bool) → (not (a || b) && e) ≡ true → (a ≡ false) × ((not b && e) ≡ true)
piece-step a b e h = ground arith

OneLine-of_split : (s : String) → every one_line (split b'/' s) ≡ true → OneLine s
OneLine-of_split String.[] h = unfold contains_char in refl
OneLine-of_split (String.◌∷◌ c s) h = elim (Bool-cases (eqb (code c) b'/')) [
  | inl here ↦
      let pieces : every one_line ("" ∷ split b'/' s) ≡ true =
        ap (every one_line) (sym (split-here b'/' c s here)) ∙ h in
      let rest =
        OneLine-of_split s (and-both (one_line "") (every one_line (split b'/' s)) pieces).1 in
      contains-cons c s ∙ rw (slash-newline (code c) here) rest
  | inr other ↦
      let (p, t, e) = split-cons b'/' s in
      let pieces : every one_line (String.◌∷◌ c p ∷ t) ≡ true =
        ap (λ l. every one_line (cons_head c l)) (sym e)
        ∙ ap (every one_line) (sym (split-other b'/' c s other))
        ∙ h in
      let opened : (not (eqb (code c) 10 || contains_char 10 p) && every one_line t) ≡ true =
        ap (λ x. not x && every one_line t) (sym (contains-cons c p)) ∙ pieces in
      let (first, others) =
        piece-step (eqb (code c) 10) (contains_char 10 p) (every one_line t) opened in
      let rest = OneLine-of_split s (ap (every one_line) e ∙ others) in
      contains-cons c s ∙ rw first rest
]

OneLine-key : (key : String) → every is_segment (split b'/' key) ≡ true → OneLine key
OneLine-key key h =
    OneLine-of_split key
      (every-implies is_segment one_line (split b'/' key) (λ s k. ap not (OneLine-segment s k)) h)

same_payload :
    (g h : Grant)
    → g.bucket ≡ h.bucket
    → g.key ≡ h.key
    → g.content_type ≡ h.content_type
    → g.max_bytes ≡ h.max_bytes
    → g.expires ≡ h.expires
    → g ≡ h
same_payload g h a b c d e =
    λ i. record { bucket = a i; key = b i; content_type = c i; max_bytes = d i; expires = e i }

-- The texts signed for two forms of valid places agree only if the forms agree in every field.
pub payload_of-injective :
    (g h : Grant)
    → IsPlace g.bucket g.key
    → IsPlace h.bucket h.key
    → payload_of g ≡ payload_of h
    → g ≡ h
payload_of-injective g h (gb, gk) (hb, hk) e =
    let lines = sym (payload-lines g) ∙ e ∙ payload-lines h in
    let (operation, after) = first_line "upload" "upload" _ _ upload_line upload_line lines in
    let (buckets, keys, limits) =
      places-eq g.bucket h.bucket g.key h.key _ _ (OneLine-segment g.bucket gb)
        (OneLine-segment h.bucket hb) (OneLine-key g.key gk) (OneLine-key h.key hk) after in
    let (types, sizes, times) =
      limits-eq g.content_type h.content_type g.max_bytes h.max_bytes g.expires h.expires limits in
    same_payload g h buckets keys types sizes times
  where
    upload_line : OneLine "upload"
    upload_line = unfold contains_char in refl

-- What is signed for a download is never what is signed for an upload.
pub payload-ne-download :
    (g : Grant) (d : Download) → payload_of g ≡ download_payload d.bucket d.key d.expires → ⊥
payload-ne-download g d e =
    let lines = sym (payload-lines g) ∙ e ∙ download-lines d in
    let (operation, after) = first_line "upload" "download" _ _ upload_line download_line lines in
    upload-ne-download operation
  where
    upload_line : OneLine "upload"
    upload_line = unfold contains_char in refl

    download_line : OneLine "download"
    download_line = unfold contains_char in refl

    upload-ne-download : ◌≡◌ {A = String} "upload" "download" → ⊥
    upload-ne-download h = cc
