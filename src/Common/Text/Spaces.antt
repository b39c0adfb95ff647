-- ===== src/Common/Text/Spaces.antt =====
-- Removing the characters of a class, against splitting and trimming.
use Prim.Native.Char.{Char, code}
use Prim.Native.Nat.{ℕ}
use Prim.Native.String.{String}
use mathlib.Core.Path.{◌≡◌, refl, sym, ap, ◌∙◌}
use mathlib.Core.Logic.{inl, inr}
use mathlib.Core.Bool.{Bool, true, false, ◌&&◌, ◌||◌, not}
use mathlib.Core.List.{List, [], ◌∷◌, map}
use native.Mathlib.Omega.{arith}
use text.Mathlib.Text.{◌==◌}
use text.Mathlib.TextEquality.{eq_iff}
use nestjs_fastify_nx.Common.Tests.{eqb, Bool-cases, if◌then◌else◌}
use nestjs_fastify_nx.Common.Text.{
  split, cons_head, trim, trim_start, trim_end, is_space, without, has_spaces_of, with_spaces,
}

pub split-cons : (sep : ℕ) (s : String) → (h : String) × (t : List String) × (split sep s ≡ h ∷ t)
unfolding split
split-cons sep String.[] = ("", [], refl)
split-cons sep (String.◌∷◌ c s) =
    let (h, t, e) = split-cons sep s in
    elim (Bool-cases (eqb (code c) sep)) [
      | inl here ↦ ("", split sep s, rw here)
      | inr other ↦ (String.◌∷◌ c h, t, rw (other, e))
    ]

without-cons_head :
    (class : ℕ → Bool) (c : Char) (h : String) (t : List String)
    → map (without class) (cons_head c (h ∷ t)) ≡ (
        if class (code c)
        then map (without class) (h ∷ t)
        else cons_head c (map (without class) (h ∷ t)))
unfolding without
without-cons_head class c h t = elim (Bool-cases (class (code c))) [
  | inl gone ↦ rw gone
  | inr kept ↦ rw kept
]

separator-kept :
    (class : ℕ → Bool) (sep c : ℕ) → class sep ≡ false → eqb c sep ≡ true → class c ≡ false
separator-kept class sep c h e = let same : c ≡ sep = ground arith in rw same h

without-gone :
    (class : ℕ → Bool) (c : Char) (s : String)
    → class (code c) ≡ true
    → without class (String.◌∷◌ c s) ≡ without class s
unfolding without
without-gone class c s e = rw e

without-kept :
    (class : ℕ → Bool) (c : Char) (s : String)
    → class (code c) ≡ false
    → without class (String.◌∷◌ c s) ≡ String.◌∷◌ c (without class s)
unfolding without
without-kept class c s e = rw e

pub split-here :
    (sep : ℕ) (c : Char) (s : String)
    → eqb (code c) sep ≡ true
    → split sep (String.◌∷◌ c s) ≡ "" ∷ split sep s
unfolding split
split-here sep c s e = rw e

pub split-other :
    (sep : ℕ) (c : Char) (s : String)
    → eqb (code c) sep ≡ false
    → split sep (String.◌∷◌ c s) ≡ cons_head c (split sep s)
unfolding split
split-other sep c s e = rw e

without-head :
    (class : ℕ → Bool) (sep : ℕ) (c : Char) (s : String)
    → map (without class) (cons_head c (split sep s)) ≡ (
        if class (code c)
        then map (without class) (split sep s)
        else cons_head c (map (without class) (split sep s)))
without-head class sep c s =
    let (h, t, e) = split-cons sep s in rw e (without-cons_head class c h t)

map-empty :
    (class : ℕ → Bool) (l : List String) → map (without class) ("" ∷ l) ≡ "" ∷ map (without class) l
unfolding without
map-empty class l = refl

-- Where the separator is not removed, the pieces are those of the text with the class removed.
pub split-without :
    (class : ℕ → Bool) (sep : ℕ) (s : String)
    → class sep ≡ false
    → split sep (without class s) ≡ map (without class) (split sep s)
split-without class sep String.[] h = unfold without split in refl
split-without class sep (String.◌∷◌ c s) h = elim (Bool-cases (eqb (code c) sep)) [
  | inl here ↦
      rw
        (
          without-kept class c s (separator-kept class sep (code c) h here),
          split-here sep c (without class s) here,
          split-here sep c s here,
          map-empty class (split sep s),
          split-without class sep s h,
        )
        refl
  | inr other ↦ elim (Bool-cases (class (code c))) [
    | inl gone ↦
        rw
          (without-gone class c s gone, split-other sep c s other, without-head class sep c s, gone)
          (split-without class sep s h)
    | inr kept ↦
        rw
          (
            without-kept class c s kept,
            split-other sep c (without class s) other,
            split-other sep c s other,
            without-head class sep c s,
            kept,
            split-without class sep s h,
          )
          refl
  ]
]

without-trim_start :
    (class : ℕ → Bool) (s : String)
    → ((c : ℕ) → is_space c ≡ true → class c ≡ true)
    → without class (trim_start s) ≡ without class s
unfolding without trim_start
without-trim_start class String.[] h = refl
without-trim_start class (String.◌∷◌ c s) h = elim (Bool-cases (is_space (code c))) [
  | inl space ↦ rw (space, h (code c) space) (without-trim_start class s h)
  | inr other ↦ rw other refl
]

both : (a b : Bool) → (a && b) ≡ true → (a ≡ true) × (b ≡ true)
both a b h = ground arith

without-trim_end :
    (class : ℕ → Bool) (s : String)
    → ((c : ℕ) → is_space c ≡ true → class c ≡ true)
    → without class (trim_end s) ≡ without class s
unfolding without trim_end
without-trim_end class String.[] h = refl
without-trim_end class (String.◌∷◌ c s) h =
    elim (Bool-cases (trim_end s == "" && is_space (code c))) [
      | inl blank ↦
          let (ended, space) = both (trim_end s == "") (is_space (code c)) blank in
          let rest : without class s ≡ "" =
            sym (without-trim_end class s h)
            ∙ ap (without class) ((eq_iff (trim_end s) "").0 ended) in
          rw (blank, h (code c) space, rest) refl
      | inr other ↦ rw (other, without-trim_end class s h) refl
    ]

-- Trimming is undone by removing a class that has all that is trimmed.
pub without-trim :
    (class : ℕ → Bool) (s : String)
    → ((c : ℕ) → is_space c ≡ true → class c ≡ true)
    → without class (trim s) ≡ without class s
unfolding trim
without-trim class s h = without-trim_end class (trim_start s) h ∙ without-trim_start class s h

class-or_space : (class space : Bool) → (not space || class) ≡ true → (class || space) ≡ class
class-or_space class space h = ground arith

-- Where the class has all white space of a text, white space more in it removes nothing more.
pub without-with_spaces :
    (class : ℕ → Bool) (s : String)
    → has_spaces_of class s ≡ true
    → without (with_spaces class) s ≡ without class s
unfolding without has_spaces_of
without-with_spaces class String.[] h = refl
without-with_spaces class (String.◌∷◌ c s) h =
    let (here, rest) = both (not (is_space (code c)) || class (code c)) (has_spaces_of class s) h in
    rw (class-or_space (class (code c)) (is_space (code c)) here, without-with_spaces class s rest)
      refl
