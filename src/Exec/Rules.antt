-- ===== src/Exec/Rules.antt =====
-- Two judgements on an action, with a rule for each way to build one: every run relates the state
-- before to the state after, and every result satisfies a predicate.
use nestjs_fastify_nx.Common.{◌≡◌, refl, ap, Bool, true, false, if◌then◌else◌}
use nestjs_fastify_nx.Errors.{Result, ok, err, Failure}
use nestjs_fastify_nx.Exec.{Exec, pure, throw, lift, try_catch, handle, ◌>>=◌, continue}

-- A relation that holds of no step, and of one step after another.
pub record IsPreorder {S : Type 0} (R : S → S → Type 0) : Type 0 where
  pub reflexive : (s : S) → R s s
  pub transitive : (s t u : S) → R s t → R t u → R s u

pub record Moves {S A : Type 0} (R : S → S → Type 0) (m : Exec S A) : Type 0 where
  pub moves : (s : S) → R s (m s).1

module _ {S A : Type 0} {R : S → S → Type 0} (order : IsPreorder R) where
  pub Moves-pure : (a : A) → Moves R (pure a)
  unfolding pure
  Moves-pure a = record { moves = order.reflexive }

  pub Moves-throw : (e : Failure) → Moves R (throw {A = A} e)
  unfolding throw
  Moves-throw e = record { moves = order.reflexive }

  pub Moves-lift : (r : Result A) → Moves R (lift r)
  unfolding lift
  Moves-lift r = record { moves = order.reflexive }

  pub Moves-if : (b : Bool) (m n : Exec S A) → Moves R m → Moves R n → Moves R (if b then m else n)
  Moves-if true m n h k = h
  Moves-if false m n h k = k

  handled :
      (h : Failure → Exec S A) (s : S) (r : Result A) (t : S)
      → ((e : Failure) → Moves R (h e))
      → R s t
      → R s (handle h (r, t)).1
  handled h s (ok a) t k p = p
  handled h s (err e) t k p = order.transitive s t (h e t).1 p ((k e).moves t)

  pub Moves-try_catch :
      (m : Exec S A) (h : Failure → Exec S A)
      → Moves R m
      → ((e : Failure) → Moves R (h e))
      → Moves R (try_catch m h)
  unfolding try_catch
  Moves-try_catch m h k l = record {
    moves = λ s. let (r, t) = m s in handled h s r t l (k.moves s);
  }

module _ {S A B : Type 0} {R : S → S → Type 0} (order : IsPreorder R) where
  continued :
      (f : A → Exec S B) (s : S) (r : Result A) (t : S)
      → ((a : A) → Moves R (f a))
      → R s t
      → R s (continue f (r, t)).1
  continued f s (ok a) t k p = order.transitive s t (f a t).1 p ((k a).moves t)
  continued f s (err e) t k p = p

  pub Moves-bind :
      (m : Exec S A) (f : A → Exec S B) → Moves R m → ((a : A) → Moves R (f a)) → Moves R (m >>= f)
  unfolding ◌>>=◌
  Moves-bind m f k l = record { moves = λ s. let (r, t) = m s in continued f s r t l (k.moves s) }

-- The predicate, of a value that was returned.
abbrev pub Returned : {A : Type 0} → (A → Type 0) → Result A → Type 0
Returned P (ok a) = P a
Returned P (err e) = Unit

pub record Ensures {S A : Type 0} (P : A → Type 0) (m : Exec S A) : Type 0 where
  pub ensures : (s : S) → Returned P (m s).0

module _ {S A : Type 0} {P : A → Type 0} where
  pub Ensures-pure : (a : A) → P a → Ensures {S = S} P (pure a)
  unfolding pure
  Ensures-pure a h = record { ensures = λ s. h }

  pub Ensures-throw : (e : Failure) → Ensures {S = S} P (throw e)
  unfolding throw
  Ensures-throw e = record { ensures = λ s. tt }

  pub Ensures-if :
      (b : Bool) (m n : Exec S A)
      → (b ≡ true → Ensures P m)
      → (b ≡ false → Ensures P n)
      → Ensures P (if b then m else n)
  Ensures-if true m n h k = h refl
  Ensures-if false m n h k = k refl

module _ {S A B : Type 0} {P : B → Type 0} where
  Returned-continue :
      (f : A → Exec S B) (r : Result A) (t : S)
      → ((a : A) → Ensures P (f a))
      → Returned P (continue f (r, t)).0
  Returned-continue f (ok a) t h = (h a).ensures t
  Returned-continue f (err e) t h = tt

  pub Ensures-bind :
      (m : Exec S A) (f : A → Exec S B) → ((a : A) → Ensures P (f a)) → Ensures P (m >>= f)
  unfolding ◌>>=◌
  Ensures-bind m f h = record { ensures = λ s. let (r, t) = m s in Returned-continue f r t h }

module _ {S A B : Type 0} {Q : A → Type 0} {P : B → Type 0} where
  Returned-continue_with :
      (f : A → Exec S B) (r : Result A) (t : S)
      → Returned Q r
      → ((a : A) → Q a → Ensures P (f a))
      → Returned P (continue f (r, t)).0
  Returned-continue_with f (ok a) t q h = (h a q).ensures t
  Returned-continue_with f (err e) t q h = tt

  -- The rest of the block may use what the first action ensures.
  pub Ensures-bind_with :
      (m : Exec S A) (f : A → Exec S B)
      → Ensures Q m
      → ((a : A) → Q a → Ensures P (f a))
      → Ensures P (m >>= f)
  unfolding ◌>>=◌
  Ensures-bind_with m f q h = record {
    ensures = λ s. let (r, t) = m s in Returned-continue_with f r t (q.ensures s) h;
  }

lifted : {A : Type 0} {P : A → Type 0} (r : Result A) → ((a : A) → r ≡ ok a → P a) → Returned P r
lifted (ok a) h = h a refl
lifted (err e) h = tt

weakened :
    {A : Type 0} {P Q : A → Type 0} (r : Result A)
    → ((a : A) → P a → Q a)
    → Returned P r
    → Returned Q r
weakened (ok a) f p = f a p
weakened (err e) f p = tt

module _ {S A : Type 0} where
  pub Ensures-weaken :
      {P Q : A → Type 0} (m : Exec S A) → ((a : A) → P a → Q a) → Ensures P m → Ensures Q m
  Ensures-weaken m f h = record { ensures = λ s. weakened (m s).0 f (h.ensures s) }

  -- An action has run: from some state, with this value.
  abbrev pub HasRun : Exec S A → A → Type 0
  HasRun m a = (s : S) × (t : S) × (m s ≡ (ok a, t))

  run_as : (m : Exec S A) (s : S) (r : Result A) (t : S) → m s ≡ (r, t) → Returned (HasRun m) r
  run_as m s (ok a) t e = (s, t, e)
  run_as m s (err e') t e = tt

  pub Ensures-run : (m : Exec S A) → Ensures (HasRun m) m
  Ensures-run m = record { ensures = λ s. run_as m s (m s).0 (m s).1 refl }

  module _ {P : A → Type 0} where
    pub Ensures-lift : (r : Result A) → ((a : A) → r ≡ ok a → P a) → Ensures {S = S} P (lift r)
    unfolding lift
    Ensures-lift r h = record { ensures = λ s. lifted r h }

    Returned-handle :
        (h : Failure → Exec S A) (r : Result A) (t : S)
        → Returned P r
        → ((e : Failure) → Ensures P (h e))
        → Returned P (handle h (r, t)).0
    Returned-handle h (ok a) t p k = p
    Returned-handle h (err e) t p k = (k e).ensures t

    pub Ensures-try_catch :
        (m : Exec S A) (h : Failure → Exec S A)
        → Ensures P m
        → ((e : Failure) → Ensures P (h e))
        → Ensures P (try_catch m h)
    unfolding try_catch
    Ensures-try_catch m h p k = record {
      ensures = λ s. let (r, t) = m s in Returned-handle h r t (p.ensures s) k;
    }

-- Where an action leads from one state, by the values and states that it goes through.
module _ {S A B : Type 0} (P : S → Type 0) where
  ends-continue :
      (f : A → Exec S B) (r : Result A) (t : S)
      → P t
      → ((a : A) → r ≡ ok a → P (f a t).1)
      → P (continue f (r, t)).1
  ends-continue f (ok a) t p k = k a refl
  ends-continue f (err e) t p k = p

  pub ends-bind :
      (m : Exec S A) (f : A → Exec S B) (s : S)
      → P (m s).1
      → ((a : A) → (m s).0 ≡ ok a → P (f a (m s).1).1)
      → P ((m >>= f) s).1
  unfolding ◌>>=◌
  ends-bind m f s p k = let (r, t) = m s in ends-continue f r t p k

-- Inversion: what a successful sequence went through.
module _ {S A B : Type 0} where
  continue-eq-ok :
      (f : A → Exec S B) (r : Result A) (t u : S) (b : B)
      → continue f (r, t) ≡ (ok b, u)
      → (a : A) × (r ≡ ok a) × (f a t ≡ (ok b, u))
  continue-eq-ok f (ok a) t u b h = (a, refl, h)
  continue-eq-ok f (err e) t u b h = absurd (err-ne-ok e t u b h)
    where
      err-ne-ok : (e : Failure) (t u : S) (b : B) → ◌≡◌ {A = Result B × S} (err e, t) (ok b, u) → ⊥
      err-ne-ok e t u b h = cc

  pub bind-eq-ok :
      (m : Exec S A) (f : A → Exec S B) (s u : S) (b : B)
      → (m >>= f) s ≡ (ok b, u)
      → (a : A) × (t : S) × (m s ≡ (ok a, t)) × (f a t ≡ (ok b, u))
  unfolding ◌>>=◌
  bind-eq-ok m f s u b h =
      let (a, e, g) = continue-eq-ok f (m s).0 (m s).1 u b h in
      (a, (m s).1, ap (λ (r : Result A). (r, (m s).1)) e, g)
