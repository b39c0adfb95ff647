-- ===== src/Pagination/Order.antt =====
-- The order of keys, and what sorting and filtering have to do with each other.
use nestjs_fastify_nx.Common.{
  String, ◌≡◌, refl, sym, ap, ◌∙◌, ◌==◌, Bool, true, false, ◌&&◌, not, List, [], ◌∷◌, arith, eq_iff,
  Bool-cases, inl, inr, every, every-implies, keep, if◌then◌else◌,
}
use nestjs_fastify_nx.Pagination.Keyset.{DecodedCursor, keyset_after, insert, newest_first}

-- A strict order of ids in which any two are comparable.
pub record IsIdOrder (precedes : String → String → Bool) : Type 0 where
  pub irreflexive : (a : String) → precedes a a ≡ false
  pub transitive :
      (a b c : String) → precedes a b ≡ true → precedes b c ≡ true → precedes a c ≡ true
  pub connected : (a b : String) → precedes a b ≡ false → precedes b a ≡ false → a ≡ b

module _ (precedes : String → String → Bool) (order : IsIdOrder precedes) where
  pub keyset_after-irreflexive : (a : DecodedCursor) → keyset_after precedes a a ≡ false
  unfolding keyset_after
  keyset_after-irreflexive a = ground (arith, order.irreflexive a.id)

  pub keyset_after-transitive :
      (a b c : DecodedCursor)
      → keyset_after precedes a b ≡ true
      → keyset_after precedes b c ≡ true
      → keyset_after precedes a c ≡ true
  unfolding keyset_after
  keyset_after-transitive a b c h k = ground (arith, order.transitive c.id b.id a.id)

  pub keyset_after-connected :
      (a b : DecodedCursor)
      → keyset_after precedes a b ≡ false
      → (b.id == a.id) ≡ false
      → keyset_after precedes b a ≡ true
  unfolding keyset_after
  keyset_after-connected a b h k = ground (arith, order.connected a.id b.id, eq_iff b.id a.id)

  pub keyset_after-asymmetric :
      (a b : DecodedCursor) → keyset_after precedes a b ≡ true → keyset_after precedes b a ≡ false
  keyset_after-asymmetric a b h = elim (Bool-cases (keyset_after precedes b a)) [
    | inl back ↦
        absurd (clash (sym (keyset_after-transitive a b a h back) ∙ keyset_after-irreflexive a))
    | inr other ↦ other
  ]
    where
      clash : true ≡ false → ⊥
      clash e = cc

module _ (precedes : String → String → Bool) {T : Type 0} (key : T → DecodedCursor) where
  -- `x` stands before every row of `l`.
  abbrev pub heads : T → List T → Bool
  heads x l = every (λ y. keyset_after precedes (key x) (key y)) l

  -- Every row is newer than those behind it, so that no two have one key.
  abbrev pub is_newest_first : List T → Bool
  is_newest_first [] = true
  is_newest_first (x ∷ xs) = heads x xs && is_newest_first xs

  abbrev pub is_fresh : T → List T → Bool
  is_fresh x l = every (λ y. not ((key x).id == (key y).id)) l

  -- No two rows have one id.
  abbrev pub has_own_ids : List T → Bool
  has_own_ids [] = true
  has_own_ids (x ∷ xs) = is_fresh x xs && has_own_ids xs

every-both {ℓ} :
    {A : Type ℓ} (p q : A → Bool) (xs : List A)
    → every p xs ≡ true
    → every q xs ≡ true
    → every (λ x. p x && q x) xs ≡ true
every-both p q [] h k = refl
every-both p q (x ∷ xs) h k = ground (arith, every-both p q xs)

pub every-kept {ℓ} :
    {A : Type ℓ} (p q : A → Bool) (xs : List A) → every p xs ≡ true → every p (keep q xs) ≡ true
every-kept p q [] h = refl
every-kept p q (x ∷ xs) h = ground (arith, every-kept p q xs)

module _ (precedes : String → String → Bool) (order : IsIdOrder precedes) {T : Type 0}
    (key : T → DecodedCursor) where
  abbrev after : T → T → Bool
  after x y = keyset_after precedes (key x) (key y)

  every-insert :
      (p : T → Bool) (x : T) (l : List T) → every p (insert precedes key x l) ≡ (p x && every p l)
  unfolding insert
  every-insert p x [] = refl
  every-insert p x (y ∷ ys) = elim (Bool-cases (after y x)) [
    | inl behind ↦ rw behind (ground (arith, every-insert p x ys))
    | inr before ↦ rw before refl
  ]

  pub every-newest_first :
      (p : T → Bool) (l : List T) → every p (newest_first precedes key l) ≡ every p l
  unfolding newest_first
  every-newest_first p [] = refl
  every-newest_first p (x ∷ xs) =
      every-insert p x (newest_first precedes key xs) ∙ ap (λ b. p x && b) (every-newest_first p xs)

  heads-through :
      (x y : T) (l : List T)
      → after x y ≡ true
      → heads precedes key y l ≡ true
      → heads precedes key x l ≡ true
  heads-through x y l h k =
      every-implies (after y) (after x) l
        (λ z m. keyset_after-transitive precedes order (key x) (key y) (key z) h m) k

  insert-IsNewestFirst :
      (x : T) (l : List T)
      → is_newest_first precedes key l ≡ true
      → is_fresh precedes key x l ≡ true
      → is_newest_first precedes key (insert precedes key x l) ≡ true
  unfolding insert
  insert-IsNewestFirst x [] h k = refl
  insert-IsNewestFirst x (y ∷ ys) h k = elim (Bool-cases (after y x)) [
    | inl behind ↦
        let rest = insert-IsNewestFirst x ys (ground arith) (ground arith) in
        rw (behind, every-insert (after y) x ys) (ground arith)
    | inr before ↦
        let above = keyset_after-connected precedes order (key y) (key x) before (ground arith) in
        let through = heads-through x y ys above (ground arith) in rw before (ground arith)
  ]

  pub newest_first-IsNewestFirst :
      (l : List T)
      → has_own_ids precedes key l ≡ true
      → is_newest_first precedes key (newest_first precedes key l) ≡ true
  unfolding newest_first
  newest_first-IsNewestFirst [] h = refl
  newest_first-IsNewestFirst (x ∷ xs) h =
      insert-IsNewestFirst x (newest_first precedes key xs)
        (newest_first-IsNewestFirst xs (ground arith))
        (every-newest_first (λ y. not ((key x).id == (key y).id)) xs ∙ ground arith)

  -- A row that nothing stands before goes to the front.
  insert-front :
      (x : T) (l : List T) → every (λ y. not (after y x)) l ≡ true → insert precedes key x l ≡ x ∷ l
  unfolding insert
  insert-front x [] h = refl
  insert-front x (y ∷ ys) h = ground arith

  behind-none :
      (x y : T) (l : List T)
      → after y x ≡ false
      → heads precedes key y l ≡ true
      → every (λ z. not (after z x)) l ≡ true
  behind-none x y l h k =
      every-implies (after y) (λ z. not (after z x)) l
        (λ z m. elim (Bool-cases (after z x)) [
          | inl before ↦ absurd (
              clash
                (sym h ∙ keyset_after-transitive precedes order (key y) (key z) (key x) m before))
          | inr other ↦ rw other refl
        ])
        k
    where
      clash : false ≡ true → ⊥
      clash e = cc

  both-behind :
      (x y : T) (l : List T)
      → after y x ≡ false
      → heads precedes key y l ≡ true
      → every (λ z. not (after z x)) (y ∷ l) ≡ true
  both-behind x y l h k = ground (arith, behind-none x y l)

  insert-behind :
      (x y : T) (l : List T)
      → after y x ≡ true
      → insert precedes key x (y ∷ l) ≡ y ∷ insert precedes key x l
  unfolding insert
  insert-behind x y l h = rw h refl

  keep-cons :
      (p : T → Bool) (y : T) (l : List T)
      → keep p (y ∷ l) ≡ (if p y then y ∷ keep p l else keep p l)
  keep-cons p y l = refl

  kept-behind :
      (px py : Bool) (x y : T) (l : List T)
      → after y x ≡ true
      → (if py
          then y ∷ (if px then insert precedes key x l else l)
          else if px
          then insert precedes key x l
          else l)
        ≡ (if px then insert precedes key x (if py then y ∷ l else l) else if py then y ∷ l else l)
  kept-behind true true x y l h = sym (insert-behind x y l h)
  kept-behind true false x y l h = refl
  kept-behind false true x y l h = refl
  kept-behind false false x y l h = refl

  keep-insert :
      (p : T → Bool) (x : T) (l : List T)
      → is_newest_first precedes key l ≡ true
      → keep p (insert precedes key x l)
        ≡ (if p x then insert precedes key x (keep p l) else keep p l)
  keep-insert p x [] h =
      unfold insert in elim (Bool-cases (p x)) [ inl kept ↦ rw kept | inr gone ↦ rw gone ]
  keep-insert p x (y ∷ ys) h = elim (Bool-cases (after y x)) [
    | inl behind ↦
        rw
          (
            insert-behind x y ys behind,
            keep-cons p y (insert precedes key x ys),
            keep-cons p y ys,
            keep-insert p x ys (ground arith),
          )
          (kept-behind (p x) (p y) x y (keep p ys) behind)
    | inr before ↦
        let none_before = both-behind x y ys before (ground arith) in
        rw
          (
            insert-front x (y ∷ ys) none_before,
            insert-front x (keep p (y ∷ ys)) (every-kept _ p (y ∷ ys) none_before),
          )
          (keep-cons p x (y ∷ ys))
  ]

  -- Filtering what is sorted is sorting what is filtered.
  pub keep-newest_first :
      (p : T → Bool) (l : List T)
      → has_own_ids precedes key l ≡ true
      → keep p (newest_first precedes key l) ≡ newest_first precedes key (keep p l)
  unfolding newest_first
  keep-newest_first p [] h = refl
  keep-newest_first p (x ∷ xs) h =
      keep-insert p x (newest_first precedes key xs) (newest_first-IsNewestFirst xs (ground arith))
      ∙ elim (Bool-cases (p x)) [
        | inl kept ↦ rw kept (ap (insert precedes key x) (keep-newest_first p xs (ground arith)))
        | inr gone ↦ rw gone (keep-newest_first p xs (ground arith))
      ]
