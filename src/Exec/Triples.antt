-- ===== src/Exec/Triples.antt =====
-- A judgement on an action, by what is seen of the states: from every state with a property, a value
-- comes with one property and a failure with another; with a rule for each way to build an action.
use nestjs_fastify_nx.Common.{◌≡◌, refl, Bool, true, false, if◌then◌else◌}
use nestjs_fastify_nx.Errors.{Result, ok, err, Failure}
use nestjs_fastify_nx.Exec.{Exec, pure, throw, lift, try_catch, handle, ◌>>=◌, continue}

module _ {S V : Type 0} (view : S → V) where
  module _ {A : Type 0} (Q : A → V → Type 0) (E : Failure → V → Type 0) where
    abbrev pub Judged : Result A × S → Type 0
    Judged (ok a, s) = Q a (view s)
    Judged (err e, s) = E e (view s)

    pub record Triple (P : V → Type 0) (m : Exec S A) : Type 0 where
      pub runs : (s : S) → P (view s) → Judged (m s)

    Judged-lift :
        (r : Result A) (s : S)
        → ((a : A) → r ≡ ok a → Q a (view s))
        → ((e : Failure) → E e (view s))
        → Judged (r, s)
    Judged-lift (ok a) s h k = h a refl
    Judged-lift (err e) s h k = k e

  module _ {A : Type 0} (Q : A → V → Type 0) (E F : Failure → V → Type 0) where
    Judged-handle :
        (h : Failure → Exec S A) (x : Result A × S)
        → Judged Q F x
        → ((e : Failure) → Triple Q E (F e) (h e))
        → Judged Q E (handle h x)
    Judged-handle h (ok a, s) p k = p
    Judged-handle h (err e, s) p k = (k e).runs s p

  module _ {A : Type 0} (Q Q' : A → V → Type 0) (E E' : Failure → V → Type 0) where
    Judged-weaken :
        (x : Result A × S)
        → ((a : A) (v : V) → Q a v → Q' a v)
        → ((e : Failure) (v : V) → E e v → E' e v)
        → Judged Q E x
        → Judged Q' E' x
    Judged-weaken (ok a, s) f g p = f a (view s) p
    Judged-weaken (err e, s) f g p = g e (view s) p

  module _ {A B : Type 0} (R : A → V → Type 0) (Q : B → V → Type 0) (E : Failure → V → Type 0) where
    Judged-continue :
        (f : A → Exec S B) (x : Result A × S)
        → Judged R E x
        → ((a : A) → Triple Q E (R a) (f a))
        → Judged Q E (continue f x)
    Judged-continue f (ok a, s) p k = (k a).runs s p
    Judged-continue f (err e, s) p k = p

module _ {S V A : Type 0} {view : S → V} {P : V → Type 0} {Q : A → V → Type 0}
    {E : Failure → V → Type 0} where
  pub Triple-pure : (a : A) → ((v : V) → P v → Q a v) → Triple view Q E P (pure a)
  unfolding pure
  Triple-pure a h = record { runs = λ s. h (view s) }

  pub Triple-throw : (e : Failure) → ((v : V) → P v → E e v) → Triple view Q E P (throw e)
  unfolding throw
  Triple-throw e h = record { runs = λ s. h (view s) }

  -- what the property of the states implies may be used
  pub Triple-given :
      {X : Type 0} (m : Exec S A)
      → ((v : V) → P v → X)
      → (X → Triple view Q E P m)
      → Triple view Q E P m
  Triple-given m h k = record { runs = λ s p. (k (h (view s) p)).runs s p }

  pub Triple-lift :
      (r : Result A)
      → ((a : A) (v : V) → r ≡ ok a → P v → Q a v)
      → ((e : Failure) (v : V) → P v → E e v)
      → Triple view Q E P (lift r)
  unfolding lift
  Triple-lift r h k = record {
    runs = λ s p. Judged-lift view Q E r s (λ a e. h a (view s) e p) (λ e. k e (view s) p);
  }

  pub Triple-lift_ok : (a : A) → ((v : V) → P v → Q a v) → Triple view Q E P (lift (ok a))
  unfolding lift
  Triple-lift_ok a h = record { runs = λ s. h (view s) }

  pub Triple-if :
      (b : Bool) (m n : Exec S A)
      → (b ≡ true → Triple view Q E P m)
      → (b ≡ false → Triple view Q E P n)
      → Triple view Q E P (if b then m else n)
  Triple-if true m n h k = h refl
  Triple-if false m n h k = k refl

  pub Triple-try_catch :
      {F : Failure → V → Type 0} (m : Exec S A) (h : Failure → Exec S A)
      → Triple view Q F P m
      → ((e : Failure) → Triple view Q E (F e) (h e))
      → Triple view Q E P (try_catch m h)
  unfolding try_catch
  Triple-try_catch {F = F} m h k l = record {
    runs = λ s p. Judged-handle view Q E F h (m s) (k.runs s p) l;
  }

  pub Triple-weaken :
      {P' : V → Type 0} {Q' : A → V → Type 0} {E' : Failure → V → Type 0} (m : Exec S A)
      → ((v : V) → P' v → P v)
      → ((a : A) (v : V) → Q a v → Q' a v)
      → ((e : Failure) (v : V) → E e v → E' e v)
      → Triple view Q E P m
      → Triple view Q' E' P' m
  Triple-weaken {Q' = Q'} {E' = E'} m f g h t = record {
    runs = λ s p. Judged-weaken view Q Q' E E' (m s) g h (t.runs s (f (view s) p));
  }

module _ {S V A B : Type 0} {view : S → V} {P : V → Type 0} {R : A → V → Type 0}
    {Q : B → V → Type 0} {E : Failure → V → Type 0} where
  pub Triple-bind :
      (m : Exec S A) (f : A → Exec S B)
      → Triple view R E P m
      → ((a : A) → Triple view Q E (R a) (f a))
      → Triple view Q E P (m >>= f)
  unfolding ◌>>=◌
  Triple-bind m f h k = record { runs = λ s p. Judged-continue view R Q E f (m s) (h.runs s p) k }
