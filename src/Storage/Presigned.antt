-- ===== src/Storage/Presigned.antt =====
-- The form that `presignUpload` hands out passes the checks of `acceptPresignedUpload`.
use Prim.Native.Nat.{◌≤◌, ◌<◌, ◌^◌}
use nestjs_fastify_nx.Common.{
  ℕ, zero, suc, String, ◌==◌, ◌≡◌, refl, false, some, arith, eq_refl, ltb, leb,
}
use nestjs_fastify_nx.Errors.{ok}
use nestjs_fastify_nx.Storage.Signing.{
  Settings, Fields, Grant, field, require_field, require_integer, positive_safe, sign, verify,
  assert_not_expired, payload_of, check_form, decimal,
}
use nestjs_fastify_nx.Storage.Decimals.{decimal-full}
use nestjs_fastify_nx.Storage.Adapter.{form_fields}

require_field-of :
    (fields : Fields) (name value : String)
    → field fields name ≡ some value
    → (value == "") ≡ false
    → require_field fields name ≡ ok value
unfolding require_field
require_field-of fields name value h k = rw (h, k) refl

positive_safe-of : (name : String) (n : ℕ) → 0 < n → n < 2 ^ 53 → positive_safe name (some n) ≡ ok n
positive_safe-of name zero h k = absurd (omega arith)
positive_safe-of name (suc n) h k =
    let small : leb (2 ^ 53) (suc n) ≡ false = ground arith in rw small refl

require_integer-of :
    (settings : Settings) (fields : Fields) (name text : String) (n : ℕ)
    → field fields name ≡ some text
    → (text == "") ≡ false
    → settings.number text ≡ some n
    → 0 < n
    → n < 2 ^ 53
    → require_integer settings fields name ≡ ok n
unfolding require_integer
require_integer-of settings fields name text n h k e low high =
    rw (require_field-of fields name text h k, e) (positive_safe-of name n low high)

verify-of :
    (settings : Settings) (payload signature : String)
    → sign settings payload ≡ ok signature
    → verify settings payload signature ≡ ok tt
unfolding verify
verify-of settings payload signature h = rw (h, eq_refl signature) refl

ahead-of : (now expires : ℕ) → now ≤ expires → assert_not_expired now expires ≡ ok tt
unfolding assert_not_expired
ahead-of now expires h = let ahead : ltb expires now ≡ false = ground arith in rw ahead refl

-- no text is empty, and the numbers are positive safe integers
pub record IsComplete (g : Grant) (signature : String) : Type 0 where
  pub keyed : (g.key == "") ≡ false
  pub in_bucket : (g.bucket == "") ≡ false
  pub typed : (g.content_type == "") ≡ false
  pub signed : (signature == "") ≡ false
  pub sized : 0 < g.max_bytes
  pub size_safe : g.max_bytes < 2 ^ 53
  pub timed : 0 < g.expires
  pub time_safe : g.expires < 2 ^ 53

-- The fields in which `presignUpload` carries a form pass the checks of `acceptPresignedUpload` as the
-- same form, until it expires, where they have its signature, no text is empty, the numbers are
-- positive safe integers, and `Number` reads back their decimal texts.
pub check_form-form_fields :
    (settings : Settings) (now : ℕ) (g : Grant) (signature : String)
    → IsComplete g signature
    → settings.number (decimal g.max_bytes) ≡ some g.max_bytes
    → settings.number (decimal g.expires) ≡ some g.expires
    → sign settings (payload_of g) ≡ ok signature
    → now ≤ g.expires
    → check_form settings now (form_fields g signature) ≡ ok g
unfolding check_form
check_form-form_fields settings now g signature c m e s h =
    let fields = form_fields g signature in
    rw
      (
        require_field-of fields "key" g.key (unfold field in refl) c.keyed,
        require_field-of fields "bucket" g.bucket (unfold field in refl) c.in_bucket,
        require_field-of fields "Content-Type" g.content_type (unfold field in refl) c.typed,
        require_integer-of settings fields "max-bytes" (decimal g.max_bytes) g.max_bytes
            (unfold field in refl) (decimal-full g.max_bytes) m c.sized c.size_safe,
        require_integer-of settings fields "expires" (decimal g.expires) g.expires
            (unfold field in refl) (decimal-full g.expires) e c.timed c.time_safe,
        require_field-of fields "signature" signature (unfold field in refl) c.signed,
        verify-of settings (payload_of g) signature s,
        ahead-of now g.expires h,
      )
      refl
