-- ===== src/Upload/Lifecycle.antt =====
-- The life of a row: which statuses it can take, whatever executions run against the table.
use nestjs_fastify_nx.Common.{
  String, ◌≡◌, ◌≢◌, refl, ◌==◌, Bool, true, false, Option, none, some, List, [], ◌∷◌, arith,
  Bool-cases, inl, inr, ◌⊎◌, find, if◌then◌else◌, ap,
}
use nestjs_fastify_nx.Exec.Rules.{IsPreorder}
use nestjs_fastify_nx.Upload.StoredFile.{StoredFileStatus, finalizing, verifying, ready, rejected}
use nestjs_fastify_nx.Upload.Repository.{Row, World}
use nestjs_fastify_nx.Upload.Writes.{Write, end, kept, moved, removed, added, Runs, own, awaited}

-- One change of a row's status; `none` where there is no row. With scanning on, no row goes from
-- FINALIZING to READY at once.
pub data Step (scan : Bool) : Option StoredFileStatus → Option StoredFileStatus → Type 0 where
  created : Step scan none (some finalizing)
  abandoned : Step scan (some finalizing) none
  queued : Step scan (some finalizing) (some verifying)
  published : scan ≡ false → Step scan (some finalizing) (some ready)
  refused : Step scan (some finalizing) (some rejected)
  passed : Step scan (some verifying) (some ready)
  failed : Step scan (some verifying) (some rejected)

pub data Reach (scan : Bool) (a : Option StoredFileStatus) : Option StoredFileStatus → Type 0 where
  here : Reach scan a a
  next : {b c : Option StoredFileStatus} → Reach scan a b → Step scan b c → Reach scan a c

module _ {scan : Bool} where
  pub Reach-trans :
      {a b c : Option StoredFileStatus} → Reach scan a b → Reach scan b c → Reach scan a c
  Reach-trans r here = r
  Reach-trans r (next s step) = next (Reach-trans r s) step

  pub Step-Reach : {a b : Option StoredFileStatus} → Step scan a b → Reach scan a b
  Step-Reach step = next here step

  -- A file that is being finalized can still become anything.
  finalizing-Reach : (b : Option StoredFileStatus) → Reach scan (some finalizing) b
  finalizing-Reach none = Step-Reach abandoned
  finalizing-Reach (some finalizing) = here
  finalizing-Reach (some verifying) = Step-Reach queued
  finalizing-Reach (some ready) = next (Step-Reach queued) passed
  finalizing-Reach (some rejected) = Step-Reach refused

abbrev pub status_of : Option Row → Option StoredFileStatus
status_of none = none
status_of (some row) = some row.file.status

-- The status of the first row under an id.
unfoldable pub status_at : String → List Row → Option StoredFileStatus
status_at id rows = status_of (find (λ row. row.file.id == id) rows)

unfoldable pub Evolves : {S : Type 0} → Bool → World S → World S → Type 0
Evolves scan before after =
    (id : String) → Reach scan (status_at id before.rows) (status_at id after.rows)

pub Evolves-order : {S : Type 0} (scan : Bool) → IsPreorder (Evolves {S = S} scan)
unfolding Evolves
Evolves-order scan = record {
  reflexive = λ s id. here;
  transitive = λ s t u p q id. Reach-trans (p id) (q id);
}

status_at-cons :
    (id : String) (row : Row) (rows : List Row)
    → status_at id (row ∷ rows)
      ≡ (if row.file.id == id then some row.file.status else status_at id rows)
unfolding status_at
status_at-cons id row rows = ground arith

module _ {scan : Bool} where
  if-Reach :
      (b : Bool) {x y a c : Option StoredFileStatus}
      → Reach scan x y
      → Reach scan a c
      → Reach scan (if b then x else a) (if b then y else c)
  if-Reach true r s = r
  if-Reach false r s = s

  cons-Reach :
      (id : String) (row row' : Row) (rows rows' : List Row)
      → row'.file.id ≡ row.file.id
      → Reach scan (some row.file.status) (some row'.file.status)
      → Reach scan (status_at id rows) (status_at id rows')
      → Reach scan (status_at id (row ∷ rows)) (status_at id (row' ∷ rows'))
  cons-Reach id row row' rows rows' same r s =
      rw (status_at-cons id row rows, status_at-cons id row' rows', same)
        (if-Reach (row.file.id == id) r s)

  removed-Reach :
      (id : String) (row : Row) (rows : List Row) {b : Option StoredFileStatus}
      → row.file.status ≡ finalizing
      → Reach scan (status_at id rows) b
      → Reach scan (status_at id (row ∷ rows)) b
  removed-Reach id row rows {b} s r = elim (Bool-cases (row.file.id == id)) [
    | inl same ↦ rw (status_at-cons id row rows, same, s) (finalizing-Reach b)
    | inr other ↦ rw (status_at-cons id row rows, other) r
  ]

  added-Reach :
      (id : String) (row : Row)
      → row.file.status ≡ finalizing
      → Reach scan (status_at id []) (status_at id (row ∷ []))
  unfolding status_at
  added-Reach id row s = rw (status_at-cons id row [], s) (appended (row.file.id == id))
    where
      appended : (b : Bool) → Reach scan none (if b then some finalizing else none)
      appended true = Step-Reach created
      appended false = here

leaves-finalizing :
    {scan : Bool} {a b : Option StoredFileStatus} (s : StoredFileStatus)
    → Step scan a b
    → a ≡ some s
    → b ≡ none
    → s ≡ finalizing
leaves-finalizing s created e f = cc
leaves-finalizing s abandoned e f = cc
leaves-finalizing s queued e f = cc
leaves-finalizing s (published p) e f = cc
leaves-finalizing s refused e f = cc
leaves-finalizing s passed e f = cc
leaves-finalizing s failed e f = cc

enters-finalizing :
    {scan : Bool} {a b : Option StoredFileStatus} (s : StoredFileStatus)
    → Step scan a b
    → a ≡ none
    → b ≡ some s
    → s ≡ finalizing
enters-finalizing s created e f = cc
enters-finalizing s abandoned e f = cc
enters-finalizing s queued e f = cc
enters-finalizing s (published p) e f = cc
enters-finalizing s refused e f = cc
enters-finalizing s passed e f = cc
enters-finalizing s failed e f = cc

-- What a handler writes is a way along the status machine, where its own steps are steps of it.
module _ {scan : Bool} (Own : Option StoredFileStatus → Option StoredFileStatus → Type 0)
    (steps : (a b : Option StoredFileStatus) → Own a b → Step scan a b) where
  Write-Reach :
      {rows rows' : List Row} (id : String)
      → Write Own rows rows'
      → Reach scan (status_at id rows) (status_at id rows')
  Write-Reach id end = here
  Write-Reach id (kept row {rows} {rows'} write) =
      cons-Reach id row row rows rows' refl here (Write-Reach id write)
  Write-Reach id (moved row row' to {rows} {rows'} same gone step write) =
      cons-Reach id row row' rows rows' (ap (λ f. f.id) same)
        (rw (ap (λ f. f.status) same) (Step-Reach (steps _ _ step))) (Write-Reach id write)
  Write-Reach id (removed row {rows} step write) =
      removed-Reach id row rows (leaves-finalizing row.file.status (steps _ _ step) refl refl)
        (Write-Reach id write)
  Write-Reach id (added row step) =
      added-Reach id row (enters-finalizing row.file.status (steps _ _ step) refl refl)

  pub Runs-Evolves : {S : Type 0} {w v : World S} → Runs Own (Evolves scan) w v → Evolves scan w v
  unfolding Evolves
  Runs-Evolves Runs.here id = here
  Runs-Evolves (own rows r write) id = Reach-trans (Runs-Evolves r id) (Write-Reach id write)
  Runs-Evolves (awaited r others) id = Reach-trans (Runs-Evolves r id) (others id)

abbrev pub IsFinal : StoredFileStatus → Type 0
IsFinal s = (s ≡ ready) ⊎ (s ≡ rejected)

Step-ne-final :
    {scan : Bool} {a b : Option StoredFileStatus} (s : StoredFileStatus)
    → Step scan a b
    → IsFinal s
    → a ≢ some s
Step-ne-final s created f e = ground arith
Step-ne-final s abandoned f e = ground arith
Step-ne-final s queued f e = ground arith
Step-ne-final s (published p) f e = ground arith
Step-ne-final s refused f e = ground arith
Step-ne-final s passed f e = ground arith
Step-ne-final s failed f e = ground arith

-- READY and REJECTED are final.
pub final-Reach :
    {scan : Bool} {a b : Option StoredFileStatus} (s : StoredFileStatus)
    → IsFinal s
    → a ≡ some s
    → Reach scan a b
    → b ≡ some s
final-Reach s f e here = e
final-Reach s f e (next r step) = absurd (Step-ne-final s step f (final-Reach s f e r))
