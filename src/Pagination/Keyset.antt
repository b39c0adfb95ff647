-- ===== src/Pagination/Keyset.antt =====
-- libs/shared/src/lib/cursor-pagination.ts: keys, pages and the order, newest first. The order of ids
-- belongs to the database, and `localeCompare` to the language's locale data: both are given.
use Prim.Native.Nat.{compare, Ordering}
use nestjs_fastify_nx.Common.{
  ℕ, ◌+◌, String, Bool, true, false, ◌&&◌, ◌||◌, Option, none, some, List, [], ◌∷◌, keep, take,
  length, ltb, eqb, if◌then◌else◌,
}

-- a decoded cursor, and the key of a row
pub record DecodedCursor : Type 0 where
  pub created_at : ℕ
  pub id : String

pub record CursorPageSlice (T : Type 0) : Type 0 where
  pub items : List T
  pub has_more : Bool

-- of a number that a comparison returns, its sign
pub data Sign : Type 0 where
  negative zero positive : Sign

abbrev pub is_positive : Sign → Bool
is_positive positive = true
is_positive _ = false

abbrev pub last : {T : Type 0} → List T → Option T
last [] = none
last (x ∷ []) = some x
last (x ∷ (y ∷ ys)) = last (y ∷ ys)

unfoldable pub take_page : {T : Type 0} → List T → ℕ → CursorPageSlice T
take_page rows limit = record { items = take limit rows; has_more = ltb limit (length rows) }

module _ (precedes : String → String → Bool) where
  -- the condition of `keysetAfter(cursor)`: the row is older, or as old with a smaller id
  unfoldable pub keyset_after : DecodedCursor → DecodedCursor → Bool
  keyset_after cursor row =
      ltb row.created_at cursor.created_at
      || (eqb row.created_at cursor.created_at && precedes row.id cursor.id)

  module _ {T : Type 0} (key : T → DecodedCursor) where
    -- `ORDER BY "createdAt" DESC, id DESC`
    unfoldable pub insert : T → List T → List T
    unfolding keyset_after
    insert x [] = x ∷ []
    insert x (y ∷ ys) =
        let rest = insert x ys in if keyset_after (key y) (key x) then y ∷ rest else x ∷ (y ∷ ys)

    unfoldable pub newest_first : List T → List T
    unfolding insert
    newest_first [] = []
    newest_first (x ∷ xs) = insert x (newest_first xs)

    abbrev pub is_after : Option DecodedCursor → T → Bool
    is_after none row = true
    is_after (some cursor) row = keyset_after cursor (key row)

    -- `findMany({ where: { …, AND: [keysetAfter(…)] }, orderBy, take: limit + 1 })`, and `takePage`
    unfoldable pub find_page : (T → Bool) → Option DecodedCursor → ℕ → List T → CursorPageSlice T
    unfolding newest_first take_page keyset_after
    find_page where_ starting_after limit rows =
        take_page
          (take (limit + 1)
            (newest_first (keep (λ row. where_ row && is_after starting_after row) rows)))
          limit

module _ (locale_compare : String → String → Sign) where
  abbrev by_date : Sign → Sign → Sign
  by_date zero by_id = by_id
  by_date sign by_id = sign

  abbrev difference : ℕ → ℕ → Sign
  difference a b = elim (compare a b) [
    | Ordering.lt ↦ negative
    | Ordering.eq ↦ zero
    | Ordering.gt ↦ positive
  ]

  unfoldable pub compare_newest_first : DecodedCursor → DecodedCursor → Sign
  compare_newest_first left right =
      by_date (difference right.created_at left.created_at) (locale_compare right.id left.id)

  module _ {T : Type 0} (key : T → DecodedCursor) where
    -- `[...rows].sort(compareNewestFirst)`, which is stable
    unfoldable pub sort_insert : T → List T → List T
    unfolding compare_newest_first
    sort_insert x [] = x ∷ []
    sort_insert x (y ∷ ys) =
        let rest = sort_insert x ys in
        if is_positive (compare_newest_first (key x) (key y)) then y ∷ rest else x ∷ (y ∷ ys)

    unfoldable pub sort : List T → List T
    unfolding sort_insert
    sort [] = []
    sort (x ∷ xs) = sort_insert x (sort xs)

    unfoldable pub remaining : Option DecodedCursor → List T → List T
    unfolding compare_newest_first
    remaining none sorted = sorted
    remaining (some starting_after) sorted =
        keep (λ row. is_positive (compare_newest_first (key row) starting_after)) sorted

    unfoldable pub paginate_newest_first : List T → Option DecodedCursor → ℕ → CursorPageSlice T
    unfolding remaining sort take_page
    paginate_newest_first rows starting_after limit =
        take_page (remaining starting_after (sort rows)) limit
