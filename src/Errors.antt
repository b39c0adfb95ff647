-- ===== src/Errors.antt =====
-- libs/core/src/lib/errors/domain.exception.ts and libs/contracts/src/lib/errors/field-problem.ts:
-- business failures as values. Human-readable copy (titles, messages, message keys, arguments) is
-- left out; kinds, codes, paths and permanence are what the callers branch on.
use nestjs_fastify_nx.Common.{
  String, Bool, true, false, Option, none, some, List, [], ◌∷◌, or_else, ◌≡◌, refl,
}

pub data Kind : Type 0 where
  malformed validation conflict not_found forbidden unavailable : Kind

pub record Violation : Type 0 where
  pub path : String
  pub code : String

pub record DomainExceptionOptions : Type 0 where
  pub kind : Option Kind
  pub code : Option String
  pub violations : List Violation
  pub permanent : Option Bool

pub record DomainException : Type 0 where
  pub kind : Kind
  pub code : String
  pub violations : List Violation
  pub permanent : Bool

abbrev permanence : Option Kind → Option Bool → Bool
permanence (some unavailable) given = false
permanence (some other) given = or_else given true
permanence none given = or_else given true

-- the constructor of `DomainException`
abbrev pub new_domain_exception : DomainExceptionOptions → DomainException
new_domain_exception options = record {
  kind = or_else options.kind validation;
  code = or_else options.code "business_rule_violation";
  violations = options.violations;
  permanent = permanence options.kind options.permanent;
}

-- `fieldProblem`, with the violation's own code where one is given
abbrev pub field_problem : Kind → String → Option String → String → DomainExceptionOptions
field_problem kind code violation_code path = record {
  kind = some kind;
  code = some code;
  violations = record { path = path; code = or_else violation_code code } ∷ [];
  permanent = none;
}

-- What can be thrown: a business failure, or any other error (infrastructure, programming).
pub data Failure : Type 0 where
  domain : DomainException → Failure
  fault : String → Failure

pub data Result {ℓ} (A : Type ℓ) : Type ℓ where
  ok : A → Result A
  err : Failure → Result A

-- A statement after one that may throw.
infixl 5 ◌>>=◌
abbrev pub ◌>>=◌ : {A B : Type 0} → Result A → (A → Result B) → Result B
err failure >>= next = err failure
ok value >>= next = next value

pub err-ne-ok : {A : Type 0} (e : Failure) (a : A) → err e ≡ ok a → ⊥
err-ne-ok e a h = cc

-- What a successful sequence went through.
pub first-ok :
    {A B : Type 0} (m : Result A) (f : A → Result B) (b : B)
    → (m >>= f) ≡ ok b
    → (a : A) × (m ≡ ok a) × (f a ≡ ok b)
first-ok (ok a) f b h = (a, refl, h)
first-ok (err e) f b h = absurd (err-ne-ok e b h)

abbrev pub throw_domain {ℓ} : {A : Type ℓ} → DomainExceptionOptions → Result A
throw_domain options = err (domain (new_domain_exception options))

-- `isDomainException(err) && err.kind === 'validation'`
abbrev is_validation : Kind → Bool
is_validation validation = true
is_validation _ = false

abbrev pub is_policy_violation : Failure → Bool
is_policy_violation (domain e) = is_validation e.kind
is_policy_violation (fault m) = false
