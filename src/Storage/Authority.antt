-- ===== src/Storage/Authority.antt =====
-- What `acceptPresignedUpload` stores was granted by `presignUpload`.
use Prim.Native.Nat.{◌/◌, ◌≤◌}
use mathlib.Core.Path.{subst}
use nestjs_fastify_nx.Common.{ℕ, String, ◌≡◌, refl, sym, true, none, some, List, ◌⊎◌, inl, inr}
use nestjs_fastify_nx.Common.Text.{split}
use nestjs_fastify_nx.Errors.{ok}
use nestjs_fastify_nx.Exec.{try_catch, ◌>>=◌}
use nestjs_fastify_nx.Exec.Triples.{
  Judged, Triple-bind, Triple-throw, Triple-if, Triple-try_catch, Triple-lift, Triple-weaken,
  Triple-given,
}
use nestjs_fastify_nx.Storage.Paths.{is_segment}
use nestjs_fastify_nx.Storage.Places.{place, locate-place}
use nestjs_fastify_nx.Storage.Signing.{
  Settings, Fields, Grant, Download, field, sign, payload_of, download_payload,
}
use nestjs_fastify_nx.Storage.Payloads.{IsPlace, payload_of-injective, payload-ne-download}
use nestjs_fastify_nx.Storage.Forms.{IsSigned, check_form-IsSigned}
use nestjs_fastify_nx.Storage.Disk.{File, Disk, System, lookup, is_fault}
use nestjs_fastify_nx.Storage.Calls.{FileTriple, files_of}
use nestjs_fastify_nx.Storage.Local.{Body, WriteLimits, write_object}
use nestjs_fastify_nx.Storage.Stores.{Stored, write_object_rule}
use nestjs_fastify_nx.Storage.Adapter.{
  accept_presigned_upload, accept_at, write_granted, now_seconds, is_domain, refuse_upload,
}

abbrev pub Anything : {A : Type 0} → A → List File → Type 0
Anything a fs = Unit

module _ (system : System) (settings : Settings) (ids : (n : ℕ) → is_segment (system.id n) ≡ true)
    (stream : Body) where
  abbrev limits_of : Grant → WriteLimits
  limits_of g = record { min_bytes = 1; max_bytes = g.max_bytes }

  -- the stream stands at the place of the grant, with its metadata and within its limits
  abbrev pub IsStored : Grant → List File → Type 0
  IsStored g fs =
      Stored system settings ids g.bucket (split b'/' g.key) none stream (some g.content_type)
        (limits_of g) fs

  IsStored-rule :
      (g : Grant)
      → FileTriple
          (λ u. IsStored g)
          Anything
          (λ fs. Unit)
          (write_object system settings
            (place settings.root g.bucket (split b'/' g.key))
            stream
            (some g.content_type)
            (limits_of g))
  IsStored-rule g = record {
    runs = λ d p.
        (Triple-weaken _ (λ fs q. q) (λ u fs q. q) (λ e fs q. tt)
            (write_object_rule system settings ids g.bucket (split b'/' g.key)
              (lookup d.files (place settings.root g.bucket (split b'/' g.key)).object_path) stream
              (some g.content_type) (limits_of g)
              (lookup d.files (place settings.root g.bucket (split b'/' g.key)).meta_path))).runs
          d (refl, refl);
  }

  write_granted_rule :
      (g : Grant)
      → FileTriple
          (λ u fs. IsPlace g.bucket g.key × IsStored g fs)
          Anything
          (λ fs. Unit)
          (write_granted system settings g stream)
  unfolding write_granted
  write_granted_rule g =
      Triple-try_catch {F = Anything} _ _
        (Triple-bind _ _
          (Triple-lift {P = λ fs. Unit} _
            (λ l fs e p. locate-place settings.root g.bucket g.key l e) (λ e fs p. tt))
          (λ l.
            Triple-given _ (λ fs p. p)
              (λ (at_place, bucket_valid, key_valid). rw at_place (
                Triple-weaken _ (λ fs p. tt) (λ u fs p. ((bucket_valid, key_valid), p))
                  (λ e fs p. p) (IsStored-rule g)))))
        (λ e.
          Triple-if (is_fault e "ObjectSizeOutOfRange") _ _ (λ h. Triple-throw _ (λ fs p. tt))
            (λ h. Triple-throw _ (λ fs p. tt)))

  module _ (IsIssued : Grant → Type 0) (IsOffered : Download → Type 0) (fields : Fields) where
    -- signed for a form or for a URL
    abbrev pub WasSigned : String → Type 0
    WasSigned payload =
        ((g : Grant) × IsIssued g × (payload ≡ payload_of g))
        ⊎ ((d : Download) × IsOffered d × (payload ≡ download_payload d.bucket d.key d.expires))

    issued :
        (g : Grant)
        → ((h : Grant) → IsIssued h → IsPlace h.bucket h.key)
        → IsPlace g.bucket g.key
        → WasSigned (payload_of g)
        → IsIssued g
    issued g places valid (inl (h, k, e)) =
        subst IsIssued (sym (payload_of-injective g h valid (places h k) e)) k
    issued g places valid (inr (d, k, e)) = absurd (payload-ne-download g d e)

    -- what a success stores
    abbrev pub IsGranted : ℕ → List File → Type 0
    IsGranted now fs = (g : Grant) × IsIssued g × (now ≤ g.expires) × IsStored g fs

    module _ (places : (h : Grant) → IsIssued h → IsPlace h.bucket h.key)
        (unforged : (payload signature : String)
          → field fields "signature" ≡ some signature
          → sign settings payload ≡ ok signature
          → WasSigned payload) where
      granted :
          (now : ℕ) (g : Grant) (fs : List File)
          → IsSigned settings now fields g
          → IsPlace g.bucket g.key
          → IsStored g fs
          → IsGranted now fs
      granted now g fs (signature, given, signed, ahead) valid stored =
          (g, issued g places valid (unforged (payload_of g) signature given signed), ahead, stored)

      accept_rule :
          (now : ℕ)
          → FileTriple
              (λ u. IsGranted now)
              Anything
              (λ fs. Unit)
              (try_catch (accept_at system settings now fields stream) refuse_upload)
      unfolding accept_at
      accept_rule now =
          Triple-try_catch {F = Anything} _ _
            (Triple-bind _ _
              (Triple-lift {P = λ fs. Unit} _
                (λ g fs e p. check_form-IsSigned settings now fields g e) (λ e fs p. tt))
              (λ g.
                Triple-given _ (λ fs p. p)
                  (λ signed.
                    Triple-weaken _ (λ fs p. tt)
                      (λ u fs (valid, stored). granted now g fs signed valid stored) (λ e fs p. p)
                      (write_granted_rule g))))
            (λ e.
              Triple-if (is_domain e) _ _ (λ h. Triple-throw _ (λ fs p. tt))
                (λ h. Triple-throw _ (λ fs p. tt)))

      accept-now :
          (d : Disk)
          → accept_presigned_upload system settings fields stream d
            ≡ try_catch (accept_at system settings (d.now / 1000) fields stream) refuse_upload d
      unfolding accept_presigned_upload now_seconds ◌>>=◌ try_catch
      accept-now d = refl

      -- Where granted forms name valid places, and every text with the signature of the form was signed
      -- for a granted form or for a URL, an upload that is accepted, whichever calls of the file system
      -- fail, was granted: some granted form has not expired, and the bytes of the stream stand at its
      -- place, with its content type, at least one byte and at most its maximum; ids are valid names.
      pub accept-IsGranted :
          (d : Disk)
          → Judged files_of
              (λ u. IsGranted (d.now / 1000))
              Anything
              (accept_presigned_upload system settings fields stream d)
      accept-IsGranted d =
          subst (Judged files_of (λ u. IsGranted (d.now / 1000)) Anything) (sym (accept-now d))
            ((accept_rule (d.now / 1000)).runs d tt)
