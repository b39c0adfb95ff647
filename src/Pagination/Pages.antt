-- ===== src/Pagination/Pages.antt =====
-- Following the cursors, page by page, against one sorted list; and the pages that are made in memory.
use nestjs_fastify_nx.Common.{
  ℕ, zero, suc, ◌+◌, ◌≤◌, ◌<◌, String, ◌≡◌, refl, sym, ap, ◌∙◌, Bool, true, ◌&&◌, Option, none,
  some, List, [], ◌∷◌, ◌++◌, arith, Bool-cases, inl, inr, every, keep, take, length, length-take,
  keep-of_every, length-append, append_assoc, append_nil, ltb, if◌then◌else◌,
}
use nestjs_fastify_nx.Pagination.Keyset.{
  DecodedCursor, CursorPageSlice, last, take_page, keyset_after, newest_first, is_after, find_page,
}
use nestjs_fastify_nx.Pagination.Order.{
  IsIdOrder, keyset_after-irreflexive, keyset_after-asymmetric, is_newest_first, has_own_ids,
  is_fresh, every-kept, keep-newest_first, newest_first-IsNewestFirst,
}

abbrev pub cursor_of : {T : Type 0} → (T → DecodedCursor) → Option T → Option DecodedCursor
cursor_of key none = none
cursor_of key (some row) = some (key row)

-- A client that asks for page after page, each behind the last row of the one before.
module _ {T : Type 0} (key : T → DecodedCursor)
    (page : Option DecodedCursor → CursorPageSlice T) where
  unfoldable pub follow : ℕ → Option DecodedCursor → List T
  follow zero cursor = []
  follow (suc fuel) cursor =
      let rest = follow fuel (cursor_of key (last (page cursor).items)) in
      (page cursor).items ++ (if (page cursor).has_more then rest else [])

module _ {T : Type 0} where
  take-all : (n : ℕ) (l : List T) → length l ≤ n → take n l ≡ l
  take-all zero [] h = refl
  take-all zero (x ∷ xs) h = absurd (omega arith)
  take-all (suc n) [] h = refl
  take-all (suc n) (x ∷ xs) h = ap (λ r. x ∷ r) (take-all n xs (omega arith))

  take-take : (m n : ℕ) (l : List T) → m ≤ n → take m (take n l) ≡ take m l
  take-take zero n l h = refl
  take-take (suc m) zero l h = absurd (omega arith)
  take-take (suc m) (suc n) [] h = refl
  take-take (suc m) (suc n) (x ∷ xs) h = ap (λ r. x ∷ r) (take-take m n xs (omega arith))

  -- One row is read beyond the page, to know whether there is more.
  ltb-length-take :
      (limit : ℕ) (l : List T) → ltb limit (length (take (limit + 1) l)) ≡ ltb limit (length l)
  ltb-length-take limit l = ground (arith, length-take (limit + 1) l)

  pub page-of_rows :
      (limit : ℕ) (l : List T)
      → take_page (take (limit + 1) l) limit
        ≡ record { items = take limit l; has_more = ltb limit (length l) }
  unfolding take_page
  page-of_rows limit l =
      rw (take-take limit (limit + 1) l (omega arith), ltb-length-take limit l) refl

  -- A page that is not the last one ends with a row, and the rest stands behind it.
  page-split :
      (limit : ℕ) (l : List T)
      → 0 < limit
      → limit < length l
      → (xs ys : List T) × (z : T) × (l ≡ xs ++ z ∷ ys) × (take limit l ≡ xs ++ z ∷ [])
  page-split zero l h k = absurd (omega arith)
  page-split (suc n) [] h k = absurd (omega arith)
  page-split (suc zero) (x ∷ l) h k = ([], l, x, refl, refl)
  page-split (suc (suc n)) (x ∷ l) h k =
      let (xs, ys, z, e, f) = page-split (suc n) l (omega arith) (omega arith) in
      (x ∷ xs, ys, z, ap (λ r. x ∷ r) e, ap (λ r. x ∷ r) f)

  every-middle :
      (p : T → Bool) (xs ys : List T) (z : T) → every p (xs ++ z ∷ ys) ≡ true → p z ≡ true
  every-middle p [] ys z h = ground arith
  every-middle p (x ∷ xs) ys z h = every-middle p xs ys z (ground arith)

  keep-true : (xs : List T) → keep (λ x. true) xs ≡ xs
  keep-true [] = refl
  keep-true (x ∷ xs) = ap (λ r. x ∷ r) (keep-true xs)

  keep-keep : (p q : T → Bool) (xs : List T) → keep (λ x. p x && q x) xs ≡ keep q (keep p xs)
  keep-keep p q [] = refl
  keep-keep p q (x ∷ xs) = ground (arith, keep-keep p q xs)

  shorter :
      (fuel : ℕ) (rest xs ys : List T) (z : T)
      → rest ≡ xs ++ z ∷ ys
      → length rest ≤ suc fuel
      → length ys ≤ fuel
  shorter fuel rest xs ys z e h = omega (arith, ap length e, length-append xs (z ∷ ys))

  last-append : (xs : List T) (z : T) → last (xs ++ z ∷ []) ≡ some z
  last-append [] z = refl
  last-append (x ∷ []) z = refl
  last-append (x ∷ (y ∷ xs)) z = last-append (y ∷ xs) z

module _ (precedes : String → String → Bool) (order : IsIdOrder precedes) {T : Type 0}
    (key : T → DecodedCursor) where
  abbrev after : T → T → Bool
  after x y = keyset_after precedes (key x) (key y)

  -- Behind a row of a sorted list stand the rows that the condition of its cursor selects.
  keep-after :
      (xs ys : List T) (z : T)
      → is_newest_first precedes key (xs ++ z ∷ ys) ≡ true
      → keep (after z) (xs ++ z ∷ ys) ≡ ys
  keep-after [] ys z h =
      rw (keyset_after-irreflexive precedes order (key z))
        (keep-of_every (after z) ys (ground arith))
  keep-after (x ∷ xs) ys z h =
      let above = every-middle (after x) xs ys z (ground arith) in
      rw (keyset_after-asymmetric precedes order (key x) (key z) above)
        (keep-after xs ys z (ground arith))

  fresh-kept :
      (p : T → Bool) (x : T) (l : List T)
      → is_fresh precedes key x l ≡ true
      → is_fresh precedes key x (keep p l) ≡ true
  fresh-kept p x l h = every-kept _ p l h

  own-kept :
      (p : T → Bool) (l : List T)
      → has_own_ids precedes key l ≡ true
      → has_own_ids precedes key (keep p l) ≡ true
  own-kept p [] h = refl
  own-kept p (x ∷ xs) h = ground (arith, fresh-kept p x xs, own-kept p xs)

  module _ (where_ : T → Bool) (limit : ℕ) (rows : List T)
      (own : has_own_ids precedes key rows ≡ true) where
    abbrev pub scope : List T
    scope = newest_first precedes key (keep where_ rows)

    abbrev pub page_at : Option DecodedCursor → CursorPageSlice T
    page_at cursor = find_page precedes key where_ cursor limit rows

    -- What is left behind a cursor.
    abbrev pub rest_at : Option DecodedCursor → List T
    rest_at cursor = keep (is_after precedes key cursor) scope

    pub page_at-rest :
        (cursor : Option DecodedCursor)
        → page_at cursor ≡ record {
          items = take limit (rest_at cursor);
          has_more = ltb limit (length (rest_at cursor));
        }
    unfolding find_page
    page_at-rest cursor =
        ap (λ l. take_page (take (limit + 1) l) limit)
          (ap (newest_first precedes key) (keep-keep where_ (is_after precedes key cursor) rows)
            ∙ sym (
                keep-newest_first precedes order key (is_after precedes key cursor)
                  (keep where_ rows) (own-kept where_ rows own)))
        ∙ page-of_rows limit (rest_at cursor)

    follow-rest :
        (fuel : ℕ) (cursor : Option DecodedCursor) (before rest : List T)
        → 0 < limit
        → rest_at cursor ≡ rest
        → scope ≡ before ++ rest
        → length rest ≤ fuel
        → follow key page_at fuel cursor ≡ rest
    unfolding follow
    follow-rest zero cursor before [] positive e f h = refl
    follow-rest zero cursor before (x ∷ rest) positive e f h = absurd (omega arith)
    follow-rest (suc fuel) cursor before rest positive e f h =
        rw (page_at-rest cursor, e)
          (elim (Bool-cases (ltb limit (length rest))) [
            | inl more ↦
                let (xs, ys, z, split, page) = page-split limit rest positive (ground arith) in
                let whole : scope ≡ (before ++ xs) ++ z ∷ ys =
                  f ∙ (ap (λ r. before ++ r) split ∙ sym (append_assoc before xs (z ∷ ys))) in
                let sorted : is_newest_first precedes key ((before ++ xs) ++ z ∷ ys) ≡ true =
                  ap (is_newest_first precedes key) (sym whole)
                  ∙ newest_first-IsNewestFirst precedes order key (keep where_ rows)
                      (own-kept where_ rows own) in
                let later =
                  follow-rest fuel (some (key z)) (before ++ xs ++ z ∷ []) ys positive
                    (ap (keep (after z)) whole ∙ keep-after (before ++ xs) ys z sorted)
                    (whole ∙ sym (append_assoc (before ++ xs) (z ∷ []) ys))
                    (shorter fuel rest xs ys z split h) in
                rw (more, page, last-append xs z, later) (append_assoc xs (z ∷ []) ys ∙ sym split)
            | inr done ↦ rw done (append_nil (take limit rest) ∙ take-all limit rest (ground arith))
          ])

    -- For rows whose ids differ and pages of at least one row: a client that asks for pages behind the
    -- last row it has, until no more are announced, gets every row of the scope exactly once, newest first;
    -- it is done after as many requests as there are rows.
    pub follow-scope :
        (fuel : ℕ) → 0 < limit → length scope ≤ fuel → follow key page_at fuel none ≡ scope
    follow-scope fuel positive h = follow-rest fuel none [] scope positive (keep-true scope) refl h
