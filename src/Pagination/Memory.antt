-- ===== src/Pagination/Memory.antt =====
-- The pages that are cut in memory are the pages of the database.
use nestjs_fastify_nx.Common.{
  ℕ, String, ◌≡◌, refl, sym, ap, ◌∙◌, Bool, true, Option, none, some, List, [], ◌∷◌, arith, keep,
}
use nestjs_fastify_nx.Pagination.Keyset.{
  DecodedCursor, Sign, is_positive, keyset_after, compare_newest_first, insert, newest_first,
  sort_insert, sort, remaining, is_after, take_page, find_page, paginate_newest_first,
}
use nestjs_fastify_nx.Pagination.Order.{IsIdOrder, has_own_ids}
use nestjs_fastify_nx.Pagination.Pages.{page_at-rest}

module _ (precedes : String → String → Bool) (locale_compare : String → String → Sign)
    (agree : (a b : String) → is_positive (locale_compare a b) ≡ precedes b a) where
  positive-keyset_after :
      (left right : DecodedCursor)
      → is_positive (compare_newest_first locale_compare left right)
        ≡ keyset_after precedes right left
  unfolding compare_newest_first keyset_after
  positive-keyset_after left right = ground (arith, agree right.id left.id)

  module _ {T : Type 0} (key : T → DecodedCursor) where
    sort_insert-insert :
        (x : T) (l : List T) → sort_insert locale_compare key x l ≡ insert precedes key x l
    unfolding sort_insert insert
    sort_insert-insert x [] = refl
    sort_insert-insert x (y ∷ ys) =
        rw (positive-keyset_after (key x) (key y), sort_insert-insert x ys) refl

    sort-newest_first : (l : List T) → sort locale_compare key l ≡ newest_first precedes key l
    unfolding sort newest_first
    sort-newest_first [] = refl
    sort-newest_first (x ∷ xs) =
        sort_insert-insert x (sort locale_compare key xs)
        ∙ ap (insert precedes key x) (sort-newest_first xs)

    keep-same : (p q : T → Bool) (l : List T) → ((x : T) → p x ≡ q x) → keep p l ≡ keep q l
    keep-same p q [] h = refl
    keep-same p q (x ∷ xs) h = rw (h x, keep-same p q xs h) refl

    keep-true : (l : List T) → l ≡ keep (λ x. true) l
    keep-true [] = refl
    keep-true (x ∷ xs) = ap (λ r. x ∷ r) (keep-true xs)

    remaining-keep :
        (cursor : Option DecodedCursor) (l : List T)
        → remaining locale_compare key cursor l ≡ keep (is_after precedes key cursor) l
    unfolding remaining
    remaining-keep none l = keep-true l
    remaining-keep (some cursor) l = keep-same _ _ l (λ row. positive-keyset_after (key row) cursor)

-- For rows whose ids differ, and where the locale compares ids as the database does: the page that is
-- cut from the rows in memory is the page that the database query returns.
pub paginate_newest_first-find_page :
    {T : Type 0} (precedes : String → String → Bool) (locale_compare : String → String → Sign)
    (key : T → DecodedCursor) (rows : List T) (cursor : Option DecodedCursor) (limit : ℕ)
    → IsIdOrder precedes
    → ((a b : String) → is_positive (locale_compare a b) ≡ precedes b a)
    → has_own_ids precedes key rows ≡ true
    → paginate_newest_first locale_compare key rows cursor limit
      ≡ find_page precedes key (λ row. true) cursor limit rows
unfolding paginate_newest_first
paginate_newest_first-find_page precedes locale_compare key rows cursor limit order agree own =
    ap (λ l. take_page l limit)
      (remaining-keep precedes locale_compare agree key cursor (sort locale_compare key rows)
        ∙ ap (keep (is_after precedes key cursor)) (
            sort-newest_first precedes locale_compare agree key rows
            ∙ ap (newest_first precedes key) (keep-true precedes locale_compare agree key rows)))
    ∙ sym (page_at-rest precedes order key (λ row. true) limit rows own cursor)
