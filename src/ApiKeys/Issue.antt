-- ===== src/ApiKeys/Issue.antt =====
-- The scopes of a key that is issued.
use nestjs_fastify_nx.Common.{
  ℕ, String, ◌≡◌, refl, ap, ◌∙◌, Bool, true, false, List, [], ◌∷◌, ◌||◌, not, Bool-cases, inl, inr,
  every, includes, distinct, includes-distinct, every-includes, if◌then◌else◌,
}
use nestjs_fastify_nx.Errors.{Result, ok, err, Failure, err-ne-ok, first-ok}
use nestjs_fastify_nx.Authorization.Permissions.{all_permissions}
use nestjs_fastify_nx.ApiKeys.Entity.{
  IssueApiKeyInput, GeneratedApiKey, IssuedApiKey, assert_scopes, assert_future_expiry,
  assert_non_empty_name, issue,
}

passed :
    {A : Type 0} (known held : Bool) (e e' : Failure) (a out : A)
    → (if known then (if held then ok a else err e) else err e') ≡ ok out
    → (held ≡ true) × (out ≡ a)
passed true true e e' a out h = (refl, cc)
passed true false e e' a out h = absurd (err-ne-ok e out h)
passed false held e e' a out h = absurd (err-ne-ok e' out h)

subset :
    (xs ys : List String) (p : String)
    → every (includes ys) xs ≡ true
    → (not (includes xs p) || includes ys p) ≡ true
subset xs ys p h = elim (Bool-cases (includes xs p)) [
  | inl listed ↦ rw (listed, every-includes (includes ys) xs p h listed) refl
  | inr other ↦ rw other refl
]

abbrev scopes_of : Result IssuedApiKey → List String
scopes_of (ok issued) = issued.entity.scopes
scopes_of (err e) = []

scopes-granted :
    (scopes granted out : List String) (p : String)
    → assert_scopes scopes granted ≡ ok out
    → (not (includes out p) || includes granted p) ≡ true
unfolding assert_scopes
scopes-granted [] granted out p h = absurd (err-ne-ok _ out h)
scopes-granted (s ∷ ss) granted out p h =
    let (held, same) =
      passed (every (includes all_permissions) (s ∷ ss)) (every (includes granted) (s ∷ ss)) _ _
        (distinct (s ∷ ss)) out h in
    rw (same, includes-distinct (s ∷ ss) p) (subset (s ∷ ss) granted p held)

-- A key that is issued carries only permissions that its issuer was granted.
pub issue-scopes :
    (input : IssueApiKeyInput) (secret : GeneratedApiKey) (id : String) (now : ℕ)
    (issued : IssuedApiKey) (p : String)
    → issue input secret id now ≡ ok issued
    → (not (includes issued.entity.scopes p) || includes input.granted_to_issuer p) ≡ true
unfolding issue
issue-scopes input secret id now issued p h =
    let (scopes, e, rest) =
      first-ok (assert_scopes input.scopes input.granted_to_issuer) _ issued h in
    let (expiry, e', rest') = first-ok (assert_future_expiry input.expires_at now) _ issued rest in
    let (name, e'', last) = first-ok (assert_non_empty_name input.name) _ issued rest' in
    scopes-granted input.scopes input.granted_to_issuer issued.entity.scopes p
      (e ∙ ap ok (ap scopes_of last))
