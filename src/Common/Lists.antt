-- ===== src/Common/Lists.antt =====
-- Lists as the program uses them: `length`, `includes`, `every`, `some`, `filter`, `slice`.
use Prim.Native.Nat.{ℕ, zero, suc, ◌+◌, min}
use Prim.Native.String.{String}
use mathlib.Core.Path.{◌≡◌, refl}
use mathlib.Core.Bool.{Bool, true, false, ◌&&◌, ◌||◌, not}
use mathlib.Core.List.{List, [], ◌∷◌, ◌++◌, map}
use mathlib.Core.Path.{ap}
use native.Mathlib.Omega.{arith}
use text.Mathlib.Text.{◌==◌}
use text.Mathlib.TextEquality.{eq_iff}
use text.Mathlib.TextPositions.{eq_refl}
use mathlib.Core.Logic.{inl, inr}
use mathlib.Core.Option.{Option, none, some}
use nestjs_fastify_nx.Common.Tests.{if◌then◌else◌, Bool-cases}

module _ {ℓ} {A : Type ℓ} where
  abbrev pub length : List A → ℕ
  length [] = 0
  length (x ∷ xs) = suc (length xs)

  -- `slice(0, n)`
  abbrev pub take : ℕ → List A → List A
  take zero xs = []
  take (suc n) [] = []
  take (suc n) (x ∷ xs) = x ∷ take n xs

  abbrev pub every : (A → Bool) → List A → Bool
  every p [] = true
  every p (x ∷ xs) = p x && every p xs

  abbrev pub exists : (A → Bool) → List A → Bool
  exists p [] = false
  exists p (x ∷ xs) = p x || exists p xs

  -- `filter(p)`
  abbrev pub keep : (A → Bool) → List A → List A
  keep p [] = []
  keep p (x ∷ xs) = let rest = keep p xs in if p x then x ∷ rest else rest

  -- `find(p)`
  abbrev pub find : (A → Bool) → List A → Option A
  find p [] = none
  find p (x ∷ xs) = if p x then some x else find p xs

  pub append_assoc : (xs ys zs : List A) → (xs ++ ys) ++ zs ≡ xs ++ (ys ++ zs)
  append_assoc [] ys zs = refl
  append_assoc (x ∷ xs) ys zs = ap (λ r. x ∷ r) (append_assoc xs ys zs)

  pub append_nil : (xs : List A) → xs ++ [] ≡ xs
  append_nil [] = refl
  append_nil (x ∷ xs) = ap (λ r. x ∷ r) (append_nil xs)

  pub length-append : (xs ys : List A) → length (xs ++ ys) ≡ length xs + length ys
  length-append [] ys = omega arith
  length-append (x ∷ xs) ys = omega (arith, length-append xs ys)

  pub length-take : (n : ℕ) (xs : List A) → length (take n xs) ≡ min n (length xs)
  length-take zero xs = omega arith
  length-take (suc n) [] = omega arith
  length-take (suc n) (x ∷ xs) = omega (arith, length-take n xs)

  pub every-keep : (p : A → Bool) (xs : List A) → every p (keep p xs) ≡ true
  every-keep p [] = refl
  every-keep p (x ∷ xs) = ground (arith, every-keep p xs)

  pub keep-of_every : (p : A → Bool) (xs : List A) → every p xs ≡ true → keep p xs ≡ xs
  keep-of_every p [] h = refl
  keep-of_every p (x ∷ xs) h = ground (arith, keep-of_every p xs)

module _ {ℓ} {A : Type ℓ} where
  -- Rejecting the elements that fail a test leaves nothing exactly when every element passes.
  pub every-of_keep-not :
      (p : A → Bool) (xs : List A) → keep (λ x. not (p x)) xs ≡ [] → every p xs ≡ true
  every-of_keep-not p [] h = refl
  every-of_keep-not p (x ∷ xs) h = ground (arith, every-of_keep-not p xs)

  pub keep-not-of_every :
      (p : A → Bool) (xs : List A) → every p xs ≡ true → keep (λ x. not (p x)) xs ≡ []
  keep-not-of_every p [] h = refl
  keep-not-of_every p (x ∷ xs) h = ground (arith, keep-not-of_every p xs)

-- `xs.includes(s)`, `set.has(s)`
unfoldable pub includes : List String → String → Bool
includes [] s = false
includes (x ∷ xs) s = x == s || includes xs s

pub includes-append :
    (xs ys : List String) (s : String) → includes (xs ++ ys) s ≡ (includes xs s || includes ys s)
unfolding includes
includes-append [] ys s = refl
includes-append (x ∷ xs) ys s = ground (arith, includes-append xs ys s)

-- What every member passes, a listed text passes.
pub every-includes :
    (p : String → Bool) (xs : List String) (s : String)
    → every p xs ≡ true
    → includes xs s ≡ true
    → p s ≡ true
unfolding includes
every-includes p [] s h k = ground arith
every-includes p (x ∷ xs) s h k = ground (arith, eq_iff x s, every-includes p xs s)

-- `granted.add(s)` on a set that keeps insertion order
unfoldable pub add : List String → String → List String
unfolding includes
add xs s = if includes xs s then xs else xs ++ s ∷ []

unfoldable pub add_all : List String → List String → List String
unfolding add
add_all xs [] = xs
add_all xs (s ∷ ss) = add_all (add xs s) ss

pub includes-add :
    (xs : List String) (s t : String) → includes (add xs s) t ≡ (includes xs t || s == t)
unfolding add
includes-add xs s t = elim (Bool-cases (includes xs s)) [
  | inl old ↦ rw old (ground (arith, eq_iff s t))
  | inr new ↦ rw new (rw includes-append (ground arith))
]

pub includes-add_all :
    (xs ss : List String) (t : String)
    → includes (add_all xs ss) t ≡ (includes xs t || includes ss t)
unfolding add_all includes
includes-add_all xs [] t = ground arith
includes-add_all xs (s ∷ ss) t =
    ground (arith, includes-add_all (add xs s) ss t, includes-add xs s t)

-- `new Set(xs).has(s)` is `xs.includes(s)`; the set keeps the first occurrences.
unfoldable pub distinct : List String → List String
unfolding add_all
distinct xs = add_all [] xs

pub includes-distinct : (xs : List String) (s : String) → includes (distinct xs) s ≡ includes xs s
unfolding distinct
includes-distinct xs s = rw includes-add_all (unfold includes in refl)

-- A member of a filtered list is a member that passes.
pub includes-keep :
    (p : String → Bool) (xs : List String) (s : String)
    → includes (keep p xs) s ≡ (includes xs s && p s)
unfolding includes
includes-keep p [] s = refl
includes-keep p (x ∷ xs) s = elim (Bool-cases (p x)) [
  | inl good ↦ rw good (ground (arith, eq_iff x s, includes-keep p xs s))
  | inr bad ↦ rw bad (ground (arith, eq_iff x s, includes-keep p xs s))
]

pub exists-keep {ℓ} :
    {A : Type ℓ} (p q : A → Bool) (xs : List A) → exists p (keep q xs) ≡ exists (λ x. q x && p x) xs
exists-keep p q [] = refl
exists-keep p q (x ∷ xs) = ground (arith, exists-keep p q xs)

pub every-map {ℓ κ} :
    {A : Type ℓ} {B : Type κ} (p : B → Bool) (f : A → B) (xs : List A)
    → every p (map f xs) ≡ every (λ x. p (f x)) xs
every-map p f [] = refl
every-map p f (x ∷ xs) = ground (arith, every-map p f xs)

pub every-implies {ℓ} :
    {A : Type ℓ} (p q : A → Bool) (xs : List A)
    → ((x : A) → p x ≡ true → q x ≡ true)
    → every p xs ≡ true
    → every q xs ≡ true
every-implies p q [] h k = refl
every-implies p q (x ∷ xs) h k = ground (arith, h x, every-implies p q xs h)

pub includes-cons :
    (x : String) (xs : List String) (s : String) → includes (x ∷ xs) s ≡ (x == s || includes xs s)
unfolding includes
includes-cons x xs s = refl

pub includes-nil : (s : String) → includes [] s ≡ false
unfolding includes
includes-nil s = refl

pub every-of_includes :
    (p : String → Bool) (xs : List String)
    → ((s : String) → includes xs s ≡ true → p s ≡ true)
    → every p xs ≡ true
unfolding includes
every-of_includes p [] h = refl
every-of_includes p (x ∷ xs) h =
    let tail = every-of_includes p xs (λ s k. h s (ground arith)) in ground (arith, h x, eq_refl x)
