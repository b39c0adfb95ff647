-- ===== src/Storage/Tests.antt =====
-- Instances of the theorems on the local storage driver, and runs of its operations.
use mathlib.Core.Path.{subst}
use nestjs_fastify_nx.Common.{
  ℕ, String, ◌==◌, ◌≡◌, ◌⊎◌, refl, sym, ap, ◌∙◌, true, false, none, some, [], ◌∷◌, inl, inr,
  Bool-cases, eqb, every, arith, if◌then◌else◌,
}
use nestjs_fastify_nx.Common.Text.{split, count}
use nestjs_fastify_nx.Errors.{ok}
use nestjs_fastify_nx.Exec.{try_catch, ◌>>=◌, lift, pure}
use nestjs_fastify_nx.Exec.Triples.{Judged}
use nestjs_fastify_nx.Storage.Paths.{is_segment, are_name_chars, with_json, walk}
use nestjs_fastify_nx.Storage.Places.{place, locate-of_segments, locate-place}
use nestjs_fastify_nx.Storage.Signing.{
  Settings, Fields, Grant, Download, field, sign, signing_secret, require_setting, payload_of,
  upload_payload, join_lines, decimal, digits, digit, check_form,
}
use nestjs_fastify_nx.Storage.Payloads.{IsPlace}
use nestjs_fastify_nx.Storage.Disk.{bytes, meta, File, Disk, System, lookup}
use nestjs_fastify_nx.Storage.Temps.{At}
use nestjs_fastify_nx.Storage.Calls.{files_of, Broken}
use nestjs_fastify_nx.Storage.Local.{Body, WriteLimits, write_object, finalize}
use nestjs_fastify_nx.Storage.Stores.{Stored, described, write_object-Stored}
use nestjs_fastify_nx.Storage.Finalize.{Finalized, Kept, finalize-keeps}
use nestjs_fastify_nx.Storage.Adapter.{accept_presigned_upload, form_fields, head}
use nestjs_fastify_nx.Storage.Authority.{IsGranted, WasSigned, Anything, accept-IsGranted}
use nestjs_fastify_nx.Storage.Presigned.{IsComplete, check_form-form_fields}
use nestjs_fastify_nx.Storage.Reading.{metadata, head-Stored}

abbrev temp_name : ℕ → String
temp_name n = if eqb n 0 then "t0" else "t1"

abbrev plain_system : System
plain_system = record { id = temp_name; fails = λ n. false; hash = λ b. "h" }

temp_name-is_segment : (n : ℕ) → is_segment (temp_name n) ≡ true
unfolding is_segment are_name_chars
temp_name-is_segment n = elim (Bool-cases (eqb n 0)) [
  | inl first ↦ rw first refl
  | inr other ↦ rw other refl
]

abbrev plain_settings : Settings
plain_settings = record {
  root = "srv" ∷ [];
  bucket = "uploads";
  download_url_expires_seconds = 60;
  signing_secret = some "0123456789abcdef0123456789abcdef";
  public_endpoint = none;
  production = false;
  hmac = λ secret payload. payload;
  number = λ s. if s == "10" then some 10 else if s == "20" then some 20 else none;
}

abbrev text_form : Grant
text_form = record {
  bucket = "uploads";
  key = "a/b.txt";
  content_type = "text/plain";
  max_bytes = 10;
  expires = 20;
}

abbrev two_chunks : Body
two_chunks = record { chunks = (1 ∷ (2 ∷ [])) ∷ ((3 ∷ []) ∷ []); failure = none }

abbrev up_to_ten : WriteLimits
up_to_ten = record { min_bytes = 1; max_bytes = 10 }

abbrev empty_disk : Disk
empty_disk = record { files = []; now = 5000; ids = 0; calls = 0 }

text_form-IsPlace : IsPlace "uploads" "a/b.txt"
unfolding is_segment are_name_chars split
text_form-IsPlace = (refl, refl)

locate-place_example :
    (place ("srv" ∷ []) "uploads" (split b'/' "a/b.txt")
      ≡ place ("srv" ∷ []) "uploads" (split b'/' "a/b.txt"))
    × (is_segment "uploads" ≡ true)
    × (every is_segment (split b'/' "a/b.txt") ≡ true)
locate-place_example =
    locate-place ("srv" ∷ []) "uploads" "a/b.txt"
      (place ("srv" ∷ []) "uploads" (split b'/' "a/b.txt"))
      (locate-of_segments ("srv" ∷ []) "uploads" "a/b.txt" text_form-IsPlace.0 text_form-IsPlace.1)

write_object-Stored_example :
    Judged files_of
      (λ u.
        Stored plain_system plain_settings temp_name-is_segment "uploads"
          ("a" ∷ [])
          none
          two_chunks
          none
          up_to_ten)
      (λ e fs.
        (lookup fs (place ("srv" ∷ []) "uploads" ("a" ∷ [])).object_path ≡ none)
        × ((lookup fs (place ("srv" ∷ []) "uploads" ("a" ∷ [])).meta_path ≡ none)
            ⊎ At
                (meta (
                  described plain_system plain_settings temp_name-is_segment "uploads"
                    ("a" ∷ [])
                    none
                    none
                    (1 ∷ (2 ∷ (3 ∷ [])))))
                (place ("srv" ∷ []) "uploads" ("a" ∷ [])).meta_path
                fs))
      (write_object plain_system plain_settings
        (place ("srv" ∷ []) "uploads" ("a" ∷ []))
        two_chunks
        none
        up_to_ten
        empty_disk)
write_object-Stored_example =
    write_object-Stored plain_system plain_settings temp_name-is_segment "uploads" ("a" ∷ []) none
      two_chunks none up_to_ten none empty_disk (unfold lookup in (refl, refl))

abbrev object_file : File
object_file = record {
  path = (place ("srv" ∷ []) "uploads" (split b'/' "a")).object_path;
  content = bytes (1 ∷ (2 ∷ (3 ∷ [])));
  mtime = 4000;
}

abbrev meta_file : File
meta_file = record {
  path = (place ("srv" ∷ []) "uploads" (split b'/' "a")).meta_path;
  content = meta (record { content_type = "application/octet-stream"; size = 3; etag = "\"h\"" });
  mtime = 4000;
}

abbrev full_disk : Disk
full_disk = record { files = object_file ∷ (meta_file ∷ []); now = 5000; ids = 0; calls = 0 }

finalize-keeps_example :
    Judged files_of
      (λ u.
        Finalized plain_system plain_settings temp_name-is_segment
          (bytes (1 ∷ (2 ∷ (3 ∷ []))))
          "uploads"
          (split b'/' "a")
          (split b'/' "b")
          "\"h\"")
      (λ e.
        Kept plain_system plain_settings temp_name-is_segment
          (bytes (1 ∷ (2 ∷ (3 ∷ []))))
          "uploads"
          (split b'/' "a")
          (split b'/' "b"))
      (finalize plain_system plain_settings "a" "b" "\"h\"" none full_disk)
finalize-keeps_example =
    finalize-keeps plain_system plain_settings temp_name-is_segment (bytes (1 ∷ (2 ∷ (3 ∷ [])))) "a"
      "b" "\"h\"" none full_disk (object_file, unfold lookup split in refl, refl)

abbrev text_fields : Fields
text_fields = form_fields text_form (payload_of text_form)

abbrev IsTextForm : Grant → Type 0
IsTextForm g = g ≡ text_form

abbrev IsNothing : Download → Type 0
IsNothing d = ⊥

text_form-places : (h : Grant) → IsTextForm h → IsPlace h.bucket h.key
text_form-places h e = subst (λ g. IsPlace g.bucket g.key) (sym e) text_form-IsPlace

-- the field of the signature holds what was signed
signature-eq :
    (signature : String)
    → field text_fields "signature" ≡ some signature
    → payload_of text_form ≡ signature
unfolding field
signature-eq signature h = cc

-- here a text is its own signature
signed-eq :
    (payload signature : String) → sign plain_settings payload ≡ ok signature → payload ≡ signature
unfolding sign signing_secret require_setting count
signed-eq payload signature h = ok-injective payload signature h
  where
    ok-injective : (a b : String) → ok a ≡ ok b → a ≡ b
    ok-injective a b h = cc

IsTextForm-unforged :
    (payload signature : String)
    → field text_fields "signature" ≡ some signature
    → sign plain_settings payload ≡ ok signature
    → WasSigned plain_system plain_settings temp_name-is_segment two_chunks IsTextForm IsNothing
        text_fields payload
IsTextForm-unforged payload signature f s =
    inl (text_form, refl, signed-eq payload signature s ∙ sym (signature-eq signature f))

accept-IsGranted_example :
    Judged files_of
      (λ u.
        IsGranted plain_system plain_settings temp_name-is_segment two_chunks IsTextForm IsNothing
          text_fields 5)
      Anything
      (accept_presigned_upload plain_system plain_settings text_fields two_chunks empty_disk)
accept-IsGranted_example =
    accept-IsGranted plain_system plain_settings temp_name-is_segment two_chunks IsTextForm
      IsNothing text_fields text_form-places IsTextForm-unforged empty_disk

text_form-IsComplete : IsComplete text_form (payload_of text_form)
unfolding payload_of upload_payload join_lines decimal digits digit
text_form-IsComplete = record {
  keyed = refl;
  in_bucket = refl;
  typed = refl;
  signed = refl;
  sized = omega arith;
  size_safe = omega arith;
  timed = omega arith;
  time_safe = omega arith;
}

decimal-ten : decimal 10 ≡ "10"
unfolding decimal digits digit
decimal-ten = refl

decimal-twenty : decimal 20 ≡ "20"
unfolding decimal digits digit
decimal-twenty = refl

check_form-form_fields_example :
    check_form plain_settings 5 (form_fields text_form (payload_of text_form)) ≡ ok text_form
check_form-form_fields_example =
    check_form-form_fields plain_settings 5 text_form (payload_of text_form) text_form-IsComplete
      (ap plain_settings.number decimal-ten) (ap plain_settings.number decimal-twenty)
      (unfold sign signing_secret require_setting count in refl) (omega arith)

head-Stored_example :
    Judged files_of
      (λ o fs.
        o
        ≡ some (
            metadata plain_system plain_settings temp_name-is_segment "uploads" "a" two_chunks none
              up_to_ten))
      (λ e fs. Broken plain_system)
      (head plain_system plain_settings "a" (some "uploads") full_disk)
head-Stored_example =
    head-Stored plain_system plain_settings temp_name-is_segment "uploads" "a" two_chunks none
      up_to_ten full_disk (unfold is_segment are_name_chars split in (refl, refl))
      (
        (object_file, unfold lookup split in refl, refl),
        (meta_file, unfold lookup split with_json in refl, refl),
        omega arith,
        omega arith,
      )

-- The form is accepted, and its stream is stored.
uploaded :
    (accept_presigned_upload plain_system plain_settings text_fields two_chunks empty_disk).0
    ≡ ok tt
unfolding accept_presigned_upload try_catch ◌>>=◌ lift count is_segment are_name_chars split pure
    walk with_json
uploaded = refl
