-- ===== src/Outbox/Selection.antt =====
-- Which rows the claim takes: what each of them is, and what is left behind.
use mathlib.Core.Path.{subst}
use nestjs_fastify_nx.Common.{
  ℕ, zero, suc, ◌≤◌, ◌<◌, String, ◌≡◌, refl, ap, sym, ◌&&◌, Bool, true, false, Option, none, some,
  List, [], ◌∷◌, arith, Bool-cases, ◌⊎◌, inl, inr, not, take, keep, length, length-take,
}
use nestjs_fastify_nx.Outbox.Table.{
  OutboxRow, World, Settings, Ports, is_claimable, goes_before, is_due, insert_ordered, ordered,
}
use nestjs_fastify_nx.Outbox.Relay.{selected}

abbrev pub All {ℓ κ} : {A : Type ℓ} → (A → Type κ) → List A → Type κ
All Q [] = Unit
All Q (x ∷ xs) = Q x × All Q xs

abbrev pub Listed : {A : Type 0} → A → List A → Type 0
Listed x [] = ⊥
Listed x (y ∷ ys) = (x ≡ y) ⊎ Listed x ys

-- A row that may be claimed: not processed, with attempts left, due, and not locked by another relay.
pub record IsOpen {P : Type 0} (settings : Settings) (locked : OutboxRow P → Bool) (now : ℕ)
    (row : OutboxRow P) : Type 0 where
  pub unprocessed : row.processed_at ≡ none
  pub attempts_left : row.attempts < settings.max_attempts
  pub due : (time : ℕ) → row.next_attempt_at ≡ some time → time ≤ now
  pub unlocked : locked row ≡ false

module _ {κ} {A : Type 0} (Q : A → Type κ) where
  All-Listed : (x : A) (xs : List A) → All Q xs → Listed x xs → Q x
  All-Listed x [] h l = absurd l
  All-Listed x (y ∷ ys) (q, h) (inl e) = subst Q (sym e) q
  All-Listed x (y ∷ ys) (q, h) (inr l) = All-Listed x ys h l

  All-of_Listed : (xs : List A) → ((x : A) → Listed x xs → Q x) → All Q xs
  All-of_Listed [] h = tt
  All-of_Listed (x ∷ xs) h = (h x (inl refl), All-of_Listed xs (λ y l. h y (inr l)))

  All-take : (n : ℕ) (xs : List A) → All Q xs → All Q (take n xs)
  All-take zero xs h = tt
  All-take (suc n) [] h = tt
  All-take (suc n) (x ∷ xs) (q, h) = (q, All-take n xs h)

module _ {A : Type 0} (test : A → Bool) where
  Listed-keep : (x : A) (xs : List A) → Listed x xs → test x ≡ true → Listed x (keep test xs)
  Listed-keep x [] l h = l
  Listed-keep x (y ∷ ys) (inl e) h = rw (ap test (sym e), h) (inl e)
  Listed-keep x (y ∷ ys) (inr l) h = elim (Bool-cases (test y)) [
    | inl kept ↦ rw kept (inr (Listed-keep x ys l h))
    | inr gone ↦ rw gone (Listed-keep x ys l h)
  ]

  All-keep {κ} :
      (Q : A → Type κ) (xs : List A)
      → ((x : A) → Listed x xs → test x ≡ true → Q x)
      → All Q (keep test xs)
  All-keep Q [] h = tt
  All-keep Q (x ∷ xs) h = elim (Bool-cases (test x)) [
    | inl kept ↦ rw kept (h x (inl refl) kept, All-keep Q xs (λ y l. h y (inr l)))
    | inr gone ↦ rw gone (All-keep Q xs (λ y l. h y (inr l)))
  ]

module _ {P : Type 0} where
  -- created no later than the row, and no earlier
  abbrev pub UpTo : OutboxRow P → OutboxRow P → Type 0
  UpTo row other = other.created_at ≤ row.created_at

  abbrev From : OutboxRow P → OutboxRow P → Type 0
  From row other = row.created_at ≤ other.created_at

  abbrev IsOrdered : List (OutboxRow P) → Type 0
  IsOrdered [] = Unit
  IsOrdered (row ∷ rows) = All (From row) rows × IsOrdered rows

  From-trans :
      (a b : OutboxRow P) (rows : List (OutboxRow P))
      → From a b
      → All (From b) rows
      → All (From a) rows
  From-trans a b [] h k = tt
  From-trans a b (row ∷ rows) h (p, k) = (omega arith, From-trans a b rows h k)

  Listed-take :
      (n : ℕ) (row : OutboxRow P) (rows : List (OutboxRow P))
      → IsOrdered rows
      → Listed row rows
      → Listed row (take n rows) ⊎ ((length (take n rows) ≡ n) × All (UpTo row) (take n rows))
  Listed-take zero row rows s l = inr (refl, tt)
  Listed-take (suc n) row [] s l = absurd l
  Listed-take (suc n) row (first ∷ rows) (h, s) (inl e) = inl (inl e)
  Listed-take (suc n) row (first ∷ rows) (h, s) (inr l) = elim (Listed-take n row rows s l) [
    | inl chosen ↦ inl (inr chosen)
    | inr (full, before) ↦ inr (ap suc full, (All-Listed (From first) row rows h l, before))
  ]

module _ {P : Type 0} (precedes : String → String → Bool) where
  All-insert_ordered :
      (Q : OutboxRow P → Type 0) (row : OutboxRow P) (rows : List (OutboxRow P))
      → Q row
      → All Q rows
      → All Q (insert_ordered precedes row rows)
  unfolding insert_ordered
  All-insert_ordered Q row [] q h = (q, tt)
  All-insert_ordered Q row (other ∷ rest) q (r, h) =
      elim (Bool-cases (goes_before precedes other row)) [
        | inl further ↦ rw further (r, All-insert_ordered Q row rest q h)
        | inr here ↦ rw here (q, (r, h))
      ]

  All-ordered :
      (Q : OutboxRow P → Type 0) (rows : List (OutboxRow P))
      → All Q rows
      → All Q (ordered precedes rows)
  unfolding ordered
  All-ordered Q [] h = tt
  All-ordered Q (row ∷ rows) (q, h) = All-insert_ordered Q row _ q (All-ordered Q rows h)

  Listed-insert_ordered :
      (x row : OutboxRow P) (rows : List (OutboxRow P))
      → Listed x (row ∷ rows)
      → Listed x (insert_ordered precedes row rows)
  unfolding insert_ordered
  Listed-insert_ordered x row [] l = l
  Listed-insert_ordered x row (other ∷ rest) l =
      elim (Bool-cases (goes_before precedes other row)) [
        | inl further ↦ rw further (moved (Listed-insert_ordered x row rest) l)
        | inr here ↦ rw here l
      ]
    where
      moved :
          (Listed x (row ∷ rest) → Listed x (insert_ordered precedes row rest))
          → Listed x (row ∷ other ∷ rest)
          → Listed x (other ∷ insert_ordered precedes row rest)
      moved step (inl e) = inr (step (inl e))
      moved step (inr (inl e)) = inl e
      moved step (inr (inr l)) = inr (step (inr l))

  Listed-ordered :
      (x : OutboxRow P) (rows : List (OutboxRow P))
      → Listed x rows
      → Listed x (ordered precedes rows)
  unfolding ordered
  Listed-ordered x [] l = l
  Listed-ordered x (row ∷ rows) (inl e) = Listed-insert_ordered x row _ (inl e)
  Listed-ordered x (row ∷ rows) (inr l) =
      Listed-insert_ordered x row _ (inr (Listed-ordered x rows l))

  before-From : (a b : OutboxRow P) → goes_before precedes a b ≡ true → From a b
  before-From a b h = ground arith

  not_before-From : (a b : OutboxRow P) → goes_before precedes a b ≡ false → From b a
  not_before-From a b h = ground arith

  IsOrdered-insert_ordered :
      (row : OutboxRow P) (rows : List (OutboxRow P))
      → IsOrdered rows
      → IsOrdered (insert_ordered precedes row rows)
  unfolding insert_ordered
  IsOrdered-insert_ordered row [] s = (tt, tt)
  IsOrdered-insert_ordered row (other ∷ rest) (h, s) =
      elim (Bool-cases (goes_before precedes other row)) [
        | inl further ↦ rw further (
          All-insert_ordered (From other) row rest (before-From other row further) h,
          IsOrdered-insert_ordered row rest s,
        )
        | inr here ↦ rw here (
          (
            not_before-From other row here,
            From-trans row other rest (not_before-From other row here) h,
          ),
          (h, s),
        )
      ]

  ordered-IsOrdered : (rows : List (OutboxRow P)) → IsOrdered (ordered precedes rows)
  unfolding ordered
  ordered-IsOrdered [] = tt
  ordered-IsOrdered (row ∷ rows) = IsOrdered-insert_ordered row _ (ordered-IsOrdered rows)

module _ {P : Type 0} (settings : Settings) (locked : OutboxRow P → Bool) (now : ℕ) where
  is_due-at : (o : Option ℕ) (time : ℕ) → is_due now o ≡ true → o ≡ some time → time ≤ now
  is_due-at none time h e = ground arith
  is_due-at (some t) time h e = ground arith

  is_due-of : (o : Option ℕ) → ((time : ℕ) → o ≡ some time → time ≤ now) → is_due now o ≡ true
  is_due-of none h = refl
  is_due-of (some t) h = ground (arith, h t refl)

  test-IsOpen :
      (row : OutboxRow P)
      → (is_claimable settings now row && not (locked row)) ≡ true
      → IsOpen settings locked now row
  unfolding is_claimable
  test-IsOpen row h = record {
    unprocessed = ground arith;
    attempts_left = ground arith;
    due = λ time e. is_due-at row.next_attempt_at time (ground arith) e;
    unlocked = ground arith;
  }

  IsOpen-test :
      (row : OutboxRow P)
      → IsOpen settings locked now row
      → (is_claimable settings now row && not (locked row)) ≡ true
  unfolding is_claimable
  IsOpen-test row open_row =
      let a = open_row.unprocessed in
      let b = open_row.attempts_left in
      let c = open_row.unlocked in
      let d = is_due-of row.next_attempt_at open_row.due in ground arith

-- The claim takes at most a batch. Each row that it takes is a row of the table, is not processed, has
-- attempts left, is due and is not locked by another relay. And each row of the table is taken, or is
-- not such a row, or a whole batch of rows that were created no later was taken.
pub claim_selects :
    {P S : Type 0} (precedes : String → String → Bool) (settings : Settings) (ports : Ports P S)
    (w : World P S)
    → (length (selected precedes settings ports w) ≤ settings.batch_size)
      × All
          (λ row. IsOpen settings ports.locked_elsewhere w.now row × Listed row w.rows)
          (selected precedes settings ports w)
      × All
          (λ row.
            Listed row (selected precedes settings ports w)
            ⊎ (¬ IsOpen settings ports.locked_elsewhere w.now row)
            ⊎ ((length (selected precedes settings ports w) ≡ settings.batch_size)
                × All (UpTo row) (selected precedes settings ports w)))
          w.rows
claim_selects precedes settings ports w =
    let test =
      λ (row : OutboxRow _). is_claimable settings w.now row && not (ports.locked_elsewhere row) in
    (
      omega (arith, length-take settings.batch_size (ordered precedes (keep test w.rows))),
      All-take _ settings.batch_size _ (
          All-ordered precedes _ (keep test w.rows) (
            All-keep test _ w.rows
              (λ row l h. (test-IsOpen settings ports.locked_elsewhere w.now row h, l)))),
      All-of_Listed _ w.rows (λ row l. elim (Bool-cases (test row)) [
        | inl ok_row ↦
            elim (Listed-take settings.batch_size row (ordered precedes (keep test w.rows))
              (ordered-IsOrdered precedes (keep test w.rows))
              (Listed-ordered precedes row _ (Listed-keep test row w.rows l ok_row))) [
                | inl chosen ↦ inl chosen
                | inr full ↦ inr (inr full)
              ]
        | inr closed ↦
            inr (inl (λ o. let e = IsOpen-test settings ports.locked_elsewhere w.now row o in cc))
      ]),
    )
