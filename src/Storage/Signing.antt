-- ===== src/Storage/Signing.antt =====
-- libs/infra/storage/src/lib/local-storage.adapter.ts: settings, signatures and the fields of a form.
-- HMAC, and JavaScript's `Number` on texts (a natural number, or none for any other value), are parameters.
use Prim.Native.Nat.{◌/◌, ◌%◌, ◌^◌}
use Prim.Native.Char.{code}
use Prim.Native.String
use nestjs_fastify_nx.Common.{
  ℕ, zero, suc, String, ◌==◌, Bool, true, false, ◌&&◌, Option, none, some, List, [], ◌∷◌, ltb, leb,
  eqb, or_else, truthy, if◌then◌else◌,
}
use nestjs_fastify_nx.Common.Text.{count}
use nestjs_fastify_nx.Errors.{
  Result, ok, err, fault, ◌>>=◌, malformed, forbidden, throw_domain, DomainExceptionOptions,
  field_problem,
}

unfoldable pub digit : ℕ → String
digit zero = "0"
digit (suc zero) = "1"
digit (suc (suc zero)) = "2"
digit (suc (suc (suc zero))) = "3"
digit (suc (suc (suc (suc zero)))) = "4"
digit (suc (suc (suc (suc (suc zero))))) = "5"
digit (suc (suc (suc (suc (suc (suc zero)))))) = "6"
digit (suc (suc (suc (suc (suc (suc (suc zero))))))) = "7"
digit (suc (suc (suc (suc (suc (suc (suc (suc zero)))))))) = "8"
digit _ = "9"

unfoldable pub digits : ℕ → ℕ → String
unfolding digit
digits zero n = digit (n % 10)
digits (suc fuel) n = elim (ltb n 10) [
  | true ↦ digit n
  | false ↦ String.◌++◌ (digits fuel (n / 10)) (digit (n % 10))
]

-- `String(n)`
unfoldable pub decimal : ℕ → String
unfolding digits
decimal n = digits n n

-- `[…].join('\n')`
unfoldable pub join_lines : List String → String
join_lines [] = ""
join_lines (s ∷ []) = s
join_lines (s ∷ (t ∷ rest)) = String.◌++◌ s (String.◌++◌ "\n" (join_lines (t ∷ rest)))

unfoldable pub upload_payload : (bucket key content_type : String) (max_bytes expires : ℕ) → String
unfolding join_lines decimal
upload_payload bucket key content_type max_bytes expires =
    join_lines
      ("upload" ∷ (bucket ∷ (key ∷ (content_type ∷ (decimal max_bytes ∷ (decimal expires ∷ []))))))

unfoldable pub download_payload : (bucket key : String) (expires : ℕ) → String
unfolding join_lines decimal
download_payload bucket key expires =
    join_lines ("download" ∷ (bucket ∷ (key ∷ (decimal expires ∷ []))))

-- what the adapter is configured with, and the cryptography that it calls
pub record Settings : Type 0 where
  pub root : List String
  pub bucket : String
  pub download_url_expires_seconds : ℕ
  pub signing_secret : Option String
  pub public_endpoint : Option String
  pub production : Bool
  pub hmac : (secret payload : String) → String
  pub number : String → Option ℕ

unfoldable pub require_setting : Settings → Option String → String → Result String
require_setting settings value dev_default =
    if truthy value
    then ok (or_else value "")
    else if settings.production
    then err (fault "StorageModule: required env var is not set")
    else ok dev_default

-- `.replace(/\/+$/, '')`
unfoldable pub without_last_slashes : String → String
without_last_slashes String.[] = ""
without_last_slashes (String.◌∷◌ c s) =
    let rest = without_last_slashes s in
    if rest == "" && eqb (code c) b'/' then "" else String.◌∷◌ c rest

unfoldable pub public_url : Settings → String → Result String
unfolding require_setting without_last_slashes
public_url settings route =
    require_setting settings settings.public_endpoint "http://localhost:3000" >>= λ endpoint.
    ok (String.◌++◌ (without_last_slashes endpoint) (String.◌++◌ "/api/v1/storage/local/" route))

unfoldable pub signing_secret : Settings → Result String
unfolding require_setting
signing_secret settings =
    require_setting settings settings.signing_secret "local-storage-development-signing-secret"
    >>= λ secret.
        if ltb (count secret) 32
        then err (fault "STORAGE_LOCAL_SIGNING_SECRET must be at least 32 characters")
        else ok secret

unfoldable pub sign : Settings → String → Result String
unfolding signing_secret
sign settings payload = signing_secret settings >>= λ secret. ok (settings.hmac secret payload)

-- `signingDenied`
abbrev pub signing_denied : DomainExceptionOptions
signing_denied = field_problem forbidden "forbidden" (some "signature_invalid") "signature"

-- `malformedUpload`
abbrev pub malformed_upload : String → DomainExceptionOptions
malformed_upload path = field_problem malformed "bad_request" (some "field_invalid") path

abbrev pub compare_signatures : String → String → Result (Unit {0})
compare_signatures expected actual =
    if expected == actual then ok tt else throw_domain signing_denied

unfoldable pub verify : Settings → String → String → Result (Unit {0})
unfolding sign
verify settings payload signature =
    sign settings payload >>= λ expected. compare_signatures expected signature

-- `assertNotExpired`; times are in seconds
unfoldable pub assert_not_expired : ℕ → ℕ → Result (Unit {0})
assert_not_expired now expires = if ltb expires now then throw_domain signing_denied else ok tt

-- the fields of a form, by name
abbrev pub Fields : Type 0
Fields = List (String × String)

unfoldable pub field : Fields → String → Option String
field [] name = none
field ((n, value) ∷ rest) name = if n == name then some value else field rest name

unfoldable pub require_field : Fields → String → Result String
unfolding field
require_field fields name =
    if truthy (field fields name)
    then ok (or_else (field fields name) "")
    else throw_domain (malformed_upload name)

abbrev pub positive_safe : String → Option ℕ → Result ℕ
positive_safe name none = throw_domain (malformed_upload name)
positive_safe name (some zero) = throw_domain (malformed_upload name)
positive_safe name (some (suc n)) =
    if leb (2 ^ 53) (suc n) then throw_domain (malformed_upload name) else ok (suc n)

unfoldable pub require_integer : Settings → Fields → String → Result ℕ
unfolding require_field
require_integer settings fields name =
    require_field fields name >>= λ text. positive_safe name (settings.number text)

-- what a form asks for
pub record Grant : Type 0 where
  pub bucket : String
  pub key : String
  pub content_type : String
  pub max_bytes : ℕ
  pub expires : ℕ

-- what a URL asks for
pub record Download : Type 0 where
  pub bucket : String
  pub key : String
  pub expires : ℕ

unfoldable pub payload_of : Grant → String
unfolding upload_payload
payload_of g = upload_payload g.bucket g.key g.content_type g.max_bytes g.expires

-- the checks of `acceptPresignedUpload` before it writes
unfoldable pub check_form : Settings → ℕ → Fields → Result Grant
unfolding require_field require_integer verify assert_not_expired payload_of
check_form settings now fields = require_field fields "key" >>= λ key.
    require_field fields "bucket" >>= λ bucket.
    require_field fields "Content-Type" >>= λ content_type.
    require_integer settings fields "max-bytes" >>= λ max_bytes.
    require_integer settings fields "expires" >>= λ expires.
    require_field fields "signature" >>= λ signature.
    let grant : Grant = record {
      bucket = bucket;
      key = key;
      content_type = content_type;
      max_bytes = max_bytes;
      expires = expires;
    } in
    verify settings (payload_of grant) signature >>= λ _.
    assert_not_expired now expires >>= λ _. ok grant
