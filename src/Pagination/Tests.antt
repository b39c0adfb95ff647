-- ===== src/Pagination/Tests.antt =====
-- Three rows, two of one instant, in pages of two.
use Prim.Native.Char.{code}
use text.Mathlib.TextEquality.{codes_equal}
use nestjs_fastify_nx.Common.{
  ◌≡◌, refl, ap, arith, String, Bool, true, false, none, some, List, [], ◌∷◌, length, ltb, eqb,
  ◌&&◌, ◌||◌, if◌then◌else◌,
}
use nestjs_fastify_nx.Pagination.Keyset.{
  DecodedCursor, Sign, is_positive, positive, zero, negative, newest_first, find_page,
  paginate_newest_first,
}
use nestjs_fastify_nx.Pagination.Order.{IsIdOrder}
use nestjs_fastify_nx.Pagination.Pages.{follow, page_at, scope, follow-scope}
use nestjs_fastify_nx.Pagination.Memory.{paginate_newest_first-find_page}

-- ids in the order of their characters
precedes : String → String → Bool
precedes String.[] String.[] = false
precedes String.[] (String.◌∷◌ d t) = true
precedes (String.◌∷◌ c s) String.[] = false
precedes (String.◌∷◌ c s) (String.◌∷◌ d t) =
    ltb (code c) (code d) || (eqb (code c) (code d) && precedes s t)

irreflexive : (a : String) → precedes a a ≡ false
unfolding precedes
irreflexive String.[] = refl
irreflexive (String.◌∷◌ c s) = ground (arith, irreflexive s)

transitive : (a b c : String) → precedes a b ≡ true → precedes b c ≡ true → precedes a c ≡ true
unfolding precedes
transitive String.[] b String.[] h k = absurd (below-empty b k)
  where
    below-empty : (b : String) → precedes b String.[] ≡ true → ⊥
    below-empty String.[] e = cc
    below-empty (String.◌∷◌ d t) e = cc
transitive String.[] b (String.◌∷◌ d t) h k = refl
transitive (String.◌∷◌ x s) String.[] c h k = cc
transitive (String.◌∷◌ x s) (String.◌∷◌ y t) String.[] h k = cc
transitive (String.◌∷◌ x s) (String.◌∷◌ y t) (String.◌∷◌ z u) h k = ground (arith, transitive s t u)

connected : (a b : String) → precedes a b ≡ false → precedes b a ≡ false → a ≡ b
unfolding precedes
connected String.[] String.[] h k = refl
connected String.[] (String.◌∷◌ d t) h k = cc
connected (String.◌∷◌ c s) String.[] h k = cc
connected (String.◌∷◌ c s) (String.◌∷◌ d t) h k =
    let tails = connected s t (ground arith) (ground arith) in
    let heads = codes_equal c d (ground arith) in cc

precedes-IsIdOrder : IsIdOrder precedes
precedes-IsIdOrder = record {
  irreflexive = irreflexive;
  transitive = transitive;
  connected = connected;
}

abbrev locale : String → String → Sign
locale a b = if precedes b a then positive else if precedes a b then negative else zero

locale-agrees : (a b : String) → is_positive (locale a b) ≡ precedes b a
locale-agrees a b = ground arith

abbrev key : DecodedCursor → DecodedCursor
key row = row

abbrev rows : List DecodedCursor
rows =
    record { created_at = 5; id = "b" }
    ∷ record { created_at = 7; id = "a" }
    ∷ record { created_at = 5; id = "c" }
    ∷ []

abbrev in_order : List DecodedCursor
in_order =
    record { created_at = 7; id = "a" }
    ∷ record { created_at = 5; id = "c" }
    ∷ record { created_at = 5; id = "b" }
    ∷ []

sorted : newest_first precedes key rows ≡ in_order
unfolding newest_first precedes
sorted = refl

follow-scope_example :
    follow key (page_at precedes precedes-IsIdOrder key (λ row. true) 2 rows refl) 3 none
    ≡ scope precedes precedes-IsIdOrder key (λ row. true) 2 rows refl
follow-scope_example =
    follow-scope precedes precedes-IsIdOrder key (λ row. true) 2 rows refl 3 (omega arith)
      (omega (arith, ap length sorted))

paginate_newest_first-find_page_example :
    paginate_newest_first locale key rows (some (record { created_at = 7; id = "a" })) 1
    ≡ find_page precedes key (λ row. true) (some (record { created_at = 7; id = "a" })) 1 rows
paginate_newest_first-find_page_example =
    paginate_newest_first-find_page precedes locale key rows
      (some (record { created_at = 7; id = "a" })) 1 precedes-IsIdOrder locale-agrees refl
