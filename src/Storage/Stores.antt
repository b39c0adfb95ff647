-- ===== src/Storage/Stores.antt =====
-- What `writeObject` stores, and what a failed write leaves, whichever calls of the file system fail.
use Prim.Native.Nat.{◌≤◌}
use mathlib.Core.Path.{subst}
use nestjs_fastify_nx.Common.{
  ℕ, String, ◌≡◌, ◌∙◌, Bool, true, false, ◌||◌, Option, none, some, List, length, arith, or_else,
  ltb,
}
use nestjs_fastify_nx.Errors.{Failure}
use nestjs_fastify_nx.Exec.Triples.{
  Judged, Triple-bind, Triple-pure, Triple-throw, Triple-if, Triple-weaken, Triple-given,
}
use nestjs_fastify_nx.Storage.Paths.{FilePath, is_segment, ObjectLocation}
use nestjs_fastify_nx.Storage.Places.{place}
use nestjs_fastify_nx.Storage.Signing.{Settings}
use nestjs_fastify_nx.Storage.Disk.{bytes, meta, StoredMeta, File, Disk, System, store}
use nestjs_fastify_nx.Storage.Files.{same_sym}
use nestjs_fastify_nx.Storage.Calls.{FileTriple, files_of, write_rule}
use nestjs_fastify_nx.Storage.Temps.{
  At, At-remove, At-new, temp-meta, temp-object, IsTemp, IsTemp-rule, discard_rule,
  try_finally_rule,
}
use nestjs_fastify_nx.Storage.Local.{
  Body, WriteLimits, Meter, measure_all, empty_meter, raise, commit, discard, write_temp,
  write_object, etag_of,
}
use nestjs_fastify_nx.Storage.Commits.{
  Left, Untouched, Filled, Written, Untouched-Left, Untouched-store, commit_rule, discard-Left,
}
use nestjs_fastify_nx.Storage.Writes.{bytes_in, HasPassed, measure_all-HasPassed}

module _ (system : System) (settings : Settings) (ids : (n : ℕ) → is_segment (system.id n) ≡ true)
    (b : String) (names : List String) (before : Option File) where
  abbrev here : ObjectLocation
  here = place settings.root b names

  -- the metadata of a content
  abbrev pub described : Option String → List ℕ → StoredMeta
  described content_type content = record {
    content_type = or_else content_type "application/octet-stream";
    size = length content;
    etag = etag_of system settings content;
  }

  module _ (stream : Body) (content_type : Option String) (limits : WriteLimits) where
    abbrev content : List ℕ
    content = bytes_in stream.chunks

    -- stored in full, with its metadata, and within the limits
    abbrev pub Stored : List File → Type 0
    Stored fs =
        At (bytes content) here.object_path fs
        × At (meta (described content_type content)) here.meta_path fs
        × (limits.min_bytes ≤ length content)
        × (length content ≤ limits.max_bytes)

    raise_rule :
        {P E : List File → Type 0} (o : Option Failure)
        → ((fs : List File) → P fs → E fs)
        → FileTriple (λ u. P) (λ e. E) P (raise o)
    raise_rule none h = Triple-pure tt (λ fs p. p)
    raise_rule (some e) h = Triple-throw e h

    abbrev meter : Meter
    meter = measure_all limits.max_bytes empty_meter stream.chunks

    abbrev measured : StoredMeta
    measured = record {
      content_type = or_else content_type "application/octet-stream";
      size = meter.size;
      etag = etag_of system settings meter.written;
    }

    within : (x n : ℕ) → (n ≡ x) → ltb n limits.min_bytes ≡ false → limits.min_bytes ≤ x
    within x n e h = ground arith

    below_max : (x n : ℕ) → (n ≡ x) → n ≤ limits.max_bytes → x ≤ limits.max_bytes
    below_max x n e h = ground arith

    same-described :
        HasPassed limits.max_bytes meter content → measured ≡ described content_type content
    same-described p = λ i. record {
      content_type = or_else content_type "application/octet-stream";
      size = p.sized i;
      etag = etag_of system settings (p.all i);
    }

    Filled-Stored :
        (fs : List File)
        → HasPassed limits.max_bytes meter content
        → ltb meter.size limits.min_bytes ≡ false
        → Filled system settings ids b names before (bytes meter.written) measured fs
        → Stored fs
    Filled-Stored fs p h (q, r) = (
      subst (λ w. At (bytes w) here.object_path fs) p.all q,
      subst (λ x. At (meta x) here.meta_path fs) (same-described p) r,
      within (length content) meter.size p.sized h,
      below_max (length content) meter.size p.sized p.bounded,
    )

    both-false : (x y : Bool) → (x || y) ≡ false → (x ≡ false) × (y ≡ false)
    both-false x y h = ground arith

    module _ (before_meta : Option File) where
      -- the bytes as they were, and their metadata as it was or already that of the stream
      abbrev Torn : List File → Type 0
      Torn fs =
          Left system settings ids b names before (described content_type content) before_meta fs

      abbrev Ready : (temp : FilePath) → IsTemp system settings temp → List File → Type 0
      Ready temp t fs =
          Written system settings ids b names before (bytes meter.written) measured before_meta temp
            t fs

      torn :
          (fs : List File) → Untouched system settings ids b names before before_meta fs → Torn fs
      torn fs p =
          Untouched-Left system settings ids b names before (described content_type content)
            before_meta fs p

      committed_rule :
          (temp : FilePath) (t : IsTemp system settings temp)
          → (meter.overflowed || ltb meter.size limits.min_bytes) ≡ false
          → FileTriple
              (λ u. Stored)
              (λ e. Torn)
              (Ready temp t)
              (commit system settings temp here measured)
      committed_rule temp t h =
          let (whole, enough) = both-false meter.overflowed (ltb meter.size limits.min_bytes) h in
          let passed = measure_all-HasPassed limits.max_bytes stream.chunks whole in
          Triple-weaken _ (λ fs p. p) (λ u fs p. Filled-Stored fs passed enough p)
            (λ e fs p.
              subst (λ x. Left system settings ids b names before x before_meta fs)
                (same-described passed) p)
            (commit_rule system settings ids b names before (bytes meter.written) measured
              before_meta temp t)

      write_temp_rule :
          (temp : FilePath) (t : IsTemp system settings temp)
          → FileTriple
              (λ u. Stored)
              (λ e. Torn)
              (Untouched system settings ids b names before before_meta)
              (write_temp system settings temp here stream content_type limits)
      unfolding write_temp
      write_temp_rule temp t =
          Triple-bind {R = λ u. Ready temp t} _ _
            (write_rule system temp (bytes meter.written) (λ fs p b. torn fs p)
              (λ fs old p e. torn fs p)
              (λ fs f p e h k. (
                Untouched-store system settings ids b names before (bytes meter.written) measured
                    before_meta temp t temp fs f t h p,
                subst (λ r. At (bytes meter.written) r (store fs f)) h
                    (At-new (bytes meter.written) fs f k),
              )))
            (λ u. Triple-bind _ _ (raise_rule stream.failure (λ fs p. torn fs p.0)) (λ u.
              Triple-if (meter.overflowed || ltb meter.size limits.min_bytes) _ _
                (λ h. Triple-throw _ (λ fs p. torn fs p.0)) (committed_rule temp t)))

      discard-Stored :
          (temp : FilePath) (t : IsTemp system settings temp)
          → FileTriple (λ u. Stored) (λ e. Torn) Stored (discard system settings temp)
      discard-Stored temp t =
          discard_rule system settings temp (λ fs p. p)
            (λ fs (p, q, low, high). (
              At-remove (bytes content) here.object_path temp fs
                  (temp-object system settings temp b names t) p,
              At-remove (meta (described content_type content)) here.meta_path temp fs
                  (same_sym temp here.meta_path ∙ temp-meta system settings temp b names t) q,
              low,
              high,
            ))

      pub write_object_rule :
          FileTriple
            (λ u. Stored)
            (λ e. Torn)
            (Untouched system settings ids b names before before_meta)
            (write_object system settings here stream content_type limits)
      unfolding write_object
      write_object_rule =
          Triple-bind _ _ (IsTemp-rule system settings ids (λ fs p b. torn fs p)) (λ temp.
            Triple-given {X = IsTemp system settings temp} _ (λ fs p. p.0)
              (λ t.
                try_finally_rule system settings {Q = λ u. Stored} {F = λ e. Torn} _ _
                  (Triple-weaken _ (λ fs p. p.1) (λ u fs p. p) (λ e fs p. p)
                    (write_temp_rule temp t))
                  (λ u. discard-Stored temp t)
                  (λ e.
                    discard-Left system settings ids b names before (described content_type content)
                      before_meta temp t)))

      -- Whichever calls of the file system fail, a success of `writeObject` means that all bytes of the
      -- stream stand at the object's path, with their number, their etag and the content type at the
      -- path of its metadata, and that their number is within the limits. A failure leaves what stood
      -- at the object's path, and at the path of its metadata either what stood there or the
      -- metadata of the stream. Ids are valid names.
      pub write_object-Stored :
          (d : Disk)
          → Untouched system settings ids b names before before_meta d.files
          → Judged files_of
              (λ u. Stored)
              (λ e. Torn)
              (write_object system settings here stream content_type limits d)
      write_object-Stored d h = write_object_rule.runs d h
