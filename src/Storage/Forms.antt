-- ===== src/Storage/Forms.antt =====
-- What a form that passes the checks carries.
use Prim.Native.Nat.{◌≤◌}
use mathlib.Core.Path.{subst}
use nestjs_fastify_nx.Common.{
  ℕ, String, ◌==◌, ◌≡◌, refl, sym, ap, ◌∙◌, Bool, true, false, Option, none, some, arith,
  Bool-cases, inl, inr, eq_iff, ltb, or_else, truthy, if◌then◌else◌,
}
use nestjs_fastify_nx.Errors.{Result, ok, err, Failure, first-ok, err-ne-ok, ◌>>=◌}
use nestjs_fastify_nx.Storage.Signing.{
  Settings, Fields, Grant, field, require_field, require_integer, sign, verify, compare_signatures,
  assert_not_expired, payload_of, check_form,
}

-- a field that is read
field-ok :
    (o : Option String) (e : Failure) (value : String)
    → ◌≡◌ {A = Result String} (if truthy o then ok (or_else o "") else err e) (ok value)
    → o ≡ some value
field-ok none e value h = absurd (err-ne-ok e value h)
field-ok (some s) e value h = elim (Bool-cases (truthy (some s))) [
  | inl full ↦ ap some (ok-injective s value (sym (rw full refl) ∙ h))
  | inr empty ↦ absurd (err-ne-ok e value (sym (rw empty refl) ∙ h))
]
  where
    ok-injective : (a b : String) → ok a ≡ ok b → a ≡ b
    ok-injective a b h = cc

require_field-ok :
    (fields : Fields) (name value : String)
    → require_field fields name ≡ ok value
    → field fields name ≡ some value
unfolding require_field
require_field-ok fields name value h = field-ok (field fields name) _ value h

passed :
    (b : Bool) (e : Failure)
    → ◌≡◌ {A = Result (Unit {0})} (if b then ok tt else err e) (ok tt)
    → b ≡ true
passed true e h = refl
passed false e h = absurd (err-ne-ok e tt h)

not_refused :
    (b : Bool) (e : Failure)
    → ◌≡◌ {A = Result (Unit {0})} (if b then err e else ok tt) (ok tt)
    → b ≡ false
not_refused true e h = absurd (err-ne-ok e tt h)
not_refused false e h = refl

compare-ok :
    (expected actual : String) → compare_signatures expected actual ≡ ok tt → expected ≡ actual
compare-ok expected actual h = (eq_iff expected actual).0 (passed (expected == actual) _ h)

verify-ok :
    (settings : Settings) (payload signature : String)
    → verify settings payload signature ≡ ok tt
    → sign settings payload ≡ ok signature
unfolding verify
verify-ok settings payload signature h =
    let (expected, signed, compared) =
      first-ok (sign settings payload) (λ e. compare_signatures e signature) tt h in
    signed ∙ ap ok (compare-ok expected signature compared)

expired-ok : (now expires : ℕ) → assert_not_expired now expires ≡ ok tt → now ≤ expires
unfolding assert_not_expired
expired-ok now expires h =
    let ahead : ltb expires now ≡ false = not_refused (ltb expires now) _ h in ground arith

-- what holds of a value that is returned
abbrev Yields : {A : Type 0} → (A → Type 0) → Result A → Type 0
Yields P (ok a) = P a
Yields P (err e) = Unit

Yields-bind :
    {A B : Type 0} (P : B → Type 0) (m : Result A) (f : A → Result B)
    → ((a : A) → m ≡ ok a → Yields P (f a))
    → Yields P (m >>= f)
Yields-bind P (ok a) f h = h a refl
Yields-bind P (err e) f h = tt

yielded : {A : Type 0} (P : A → Type 0) (m : Result A) (a : A) → Yields P m → m ≡ ok a → P a
yielded P (ok b) a p h = subst P (ok-injective b a h) p
  where
    ok-injective : {A : Type 0} (b a : A) → ok b ≡ ok a → b ≡ a
    ok-injective b a h = cc
yielded P (err e) a p h = absurd (err-ne-ok e a h)

-- signed by the field of the form, and not expired
abbrev pub IsSigned : Settings → ℕ → Fields → Grant → Type 0
IsSigned settings now fields g =
    (signature : String) × (field fields "signature" ≡ some signature)
    × (sign settings (payload_of g) ≡ ok signature)
    × (now ≤ g.expires)

check_form-Yields :
    (settings : Settings) (now : ℕ) (fields : Fields)
    → Yields (IsSigned settings now fields) (check_form settings now fields)
unfolding check_form
check_form-Yields settings now fields = Yields-bind _ (require_field fields "key") _ λ key e1.
    Yields-bind _ (require_field fields "bucket") _ λ bucket e2.
      Yields-bind _ (require_field fields "Content-Type") _ λ content_type e3.
        Yields-bind _ (require_integer settings fields "max-bytes") _ λ max_bytes e4.
          Yields-bind _ (require_integer settings fields "expires") _ λ expires e5.
            Yields-bind _ (require_field fields "signature") _ λ signature e6.
              Yields-bind _ (verify settings _ signature) _ λ u e7.
                Yields-bind _ (assert_not_expired now expires) _ λ u e8. (
                  signature,
                  require_field-ok fields "signature" signature e6,
                  verify-ok settings _ signature e7,
                  expired-ok now expires e8,
                )

-- A form that passes carries the signature of what it asks for, and has not expired.
pub check_form-IsSigned :
    (settings : Settings) (now : ℕ) (fields : Fields) (g : Grant)
    → check_form settings now fields ≡ ok g
    → IsSigned settings now fields g
check_form-IsSigned settings now fields g h =
    yielded (IsSigned settings now fields) (check_form settings now fields) g
      (check_form-Yields settings now fields) h
