-- ===== src/Upload/Writes.antt =====
-- What the handlers of an upload write to the table, row by row: the moves that a handler makes by
-- itself, kept apart from whatever happens while it awaits a port.
use nestjs_fastify_nx.Common.{
  String, ◌≡◌, refl, ◌==◌, ◌&&◌, Bool, true, false, Option, none, some, List, [], ◌∷◌, ◌++◌, arith,
  Bool-cases, inl, inr, exists, keep, not,
}
use nestjs_fastify_nx.Exec.{Exec}
use nestjs_fastify_nx.Exec.Rules.{IsPreorder, Moves}
use nestjs_fastify_nx.Upload.StoredFile.{
  StoredFile, StoredFileStatus, finalizing, verifying, ready, rejected, with_status,
}
use nestjs_fastify_nx.Upload.Repository.{
  Row, World, Selector, by_id, by_key, TransitionFields, is_target, same_status, update_row,
  update_where, find_one, create, clashes, set_status, transition, transition_by_key,
  delete_if_status,
}

-- The moves of a confirmation: `none` stands for no row. It passes a file to the scanner only where
-- scanning is on, and publishes it only where scanning is off.
pub data ConfirmStep (scan : Bool)
    : Option StoredFileStatus → Option StoredFileStatus → Type 0 where
  created : ConfirmStep scan none (some finalizing)
  abandoned : ConfirmStep scan (some finalizing) none
  queued : scan ≡ true → ConfirmStep scan (some finalizing) (some verifying)
  published : scan ≡ false → ConfirmStep scan (some finalizing) (some ready)
  refused : ConfirmStep scan (some finalizing) (some rejected)

-- The moves of a verification job.
pub data VerifyStep : Option StoredFileStatus → Option StoredFileStatus → Type 0 where
  passed : VerifyStep (some verifying) (some ready)
  failed : VerifyStep (some verifying) (some rejected)

-- One query: each row stays, or makes one move of `Own` that changes nothing else of the file and
-- does not delete it or bring it back, or goes; and a row may come.
pub data Write (Own : Option StoredFileStatus → Option StoredFileStatus → Type 0)
    : List Row → List Row → Type 0 where
  end : Write Own [] []
  kept :
      (row : Row) {rows rows' : List Row}
      → Write Own rows rows'
      → Write Own (row ∷ rows) (row ∷ rows')
  moved :
      (row row' : Row) (to : StoredFileStatus) {rows rows' : List Row}
      → row'.file ≡ with_status row.file to
      → row'.deleted_at ≡ row.deleted_at
      → Own (some row.file.status) (some to)
      → Write Own rows rows'
      → Write Own (row ∷ rows) (row' ∷ rows')
  removed :
      (row : Row) {rows rows' : List Row}
      → Own (some row.file.status) none
      → Write Own rows rows'
      → Write Own (row ∷ rows) rows'
  added : (row : Row) → Own none (some row.file.status) → Write Own [] (row ∷ [])

-- A run: queries of its own, and between them whatever others do.
pub data Runs {S : Type 0} (Own : Option StoredFileStatus → Option StoredFileStatus → Type 0)
    (R : World S → World S → Type 0) (w : World S) : World S → Type 0 where
  here : Runs Own R w w
  own :
      {u : World S} (rows : List Row)
      → Runs Own R w u
      → Write Own u.rows rows
      → Runs Own R w (record u { rows = rows })
  awaited : {u v : World S} → Runs Own R w u → R u v → Runs Own R w v

same_status_lem : (s t : StoredFileStatus) → same_status s t ≡ true → s ≡ t
same_status_lem finalizing t h = ground arith
same_status_lem verifying t h = ground arith
same_status_lem ready t h = ground arith
same_status_lem rejected t h = ground arith

module _ (Own : Option StoredFileStatus → Option StoredFileStatus → Type 0) where
  Write-same : (rows : List Row) → Write Own rows rows
  Write-same [] = end
  Write-same (row ∷ rows) = kept row (Write-same rows)

  Write-append :
      (row : Row)
      → Own none (some row.file.status)
      → (rows : List Row) → Write Own rows (rows ++ row ∷ [])
  Write-append row step [] = added row step
  Write-append row step (old ∷ rows) = kept old (Write-append row step rows)

  Write-update :
      (selector : Selector) (from to : StoredFileStatus) (fields : TransitionFields)
      → Own (some from) (some to)
      → (rows : List Row)
      → Write Own rows (update_where (is_target selector from to) (update_row to fields) rows)
  unfolding is_target
  Write-update selector from to fields step [] = end
  Write-update selector from to fields step (row ∷ rows) =
      elim (Bool-cases (is_target selector from to row)) [
        | inl hit ↦ rw hit (
            moved row (update_row to fields row) to refl refl
              (rw (same_status_lem row.file.status from (ground arith)) step)
              (Write-update selector from to fields step rows))
        | inr miss ↦ rw miss (kept row (Write-update selector from to fields step rows))
      ]

  Write-delete :
      (id : String) (s : StoredFileStatus)
      → Own (some s) none
      → (rows : List Row)
      → Write Own rows (keep (λ row. not (row.file.id == id && same_status row.file.status s)) rows)
  Write-delete id s step [] = end
  Write-delete id s step (row ∷ rows) =
      elim (Bool-cases (row.file.id == id && same_status row.file.status s)) [
        | inl hit ↦ rw hit (
            removed row (rw (same_status_lem row.file.status s (ground arith)) step)
              (Write-delete id s step rows))
        | inr miss ↦ rw miss (kept row (Write-delete id s step rows))
      ]

module _ {S : Type 0} (Own : Option StoredFileStatus → Option StoredFileStatus → Type 0)
    (R : World S → World S → Type 0) where
  Runs-trans : {u v w : World S} → Runs Own R u v → Runs Own R v w → Runs Own R u w
  Runs-trans r here = r
  Runs-trans r (own rows s write) = own rows (Runs-trans r s) write
  Runs-trans r (awaited s others) = awaited (Runs-trans r s) others

  pub Runs-order : IsPreorder (Runs Own R)
  Runs-order = record { reflexive = λ s. here; transitive = λ s t u p q. Runs-trans p q }

  pub Moves-other : {A : Type 0} (m : Exec (World S) A) → Moves R m → Moves (Runs Own R) m
  Moves-other m h = record { moves = λ w. awaited here (h.moves w) }

  pub Moves-find_one : (selector : Selector) → Moves (Runs Own R) (find_one selector)
  unfolding find_one
  Moves-find_one selector = record { moves = λ w. here }

  pub Moves-create :
      (props : StoredFile) → Own none (some props.status) → Moves (Runs Own R) (create props)
  unfolding create
  Moves-create props step = record {
    moves = λ w. elim (Bool-cases (exists (clashes props) w.rows)) [
      | inl taken ↦ rw taken here
      | inr free ↦ rw free (own _ here (Write-append Own _ step w.rows))
    ];
  }

  module _ {from to : StoredFileStatus} (fields : TransitionFields)
      (step : Own (some from) (some to)) where
    Moves-set_status :
        (selector : Selector) → Moves (Runs Own R) (set_status selector from to fields)
    unfolding set_status
    Moves-set_status selector = record {
      moves = λ w. own _ here (Write-update Own selector from to fields step w.rows);
    }

    pub Moves-transition : (id : String) → Moves (Runs Own R) (transition id from to fields)
    unfolding transition
    Moves-transition id = Moves-set_status (by_id id)

    pub Moves-transition_by_key :
        (key : String) → Moves (Runs Own R) (transition_by_key key from to fields)
    unfolding transition_by_key
    Moves-transition_by_key key = Moves-set_status (by_key key)

  pub Moves-delete_if_status :
      (id : String) (s : StoredFileStatus)
      → Own (some s) none
      → Moves (Runs Own R) (delete_if_status id s)
  unfolding delete_if_status
  Moves-delete_if_status id s step = record {
    moves = λ w. own _ here (Write-delete Own id s step w.rows);
  }
