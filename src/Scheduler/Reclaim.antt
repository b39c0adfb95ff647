-- ===== src/Scheduler/Reclaim.antt =====
-- Reclaiming the candidates of a scan, object first and row second.
use nestjs_fastify_nx.Common.{ℕ, ◌≡◌, Bool, true, false, List, [], ◌∷◌, if◌then◌else◌}
use nestjs_fastify_nx.Exec.{Exec, pure, try_catch, ◌>>=◌, ◌>>◌}
use nestjs_fastify_nx.Exec.Rules.{ends-bind}
use nestjs_fastify_nx.Scheduler.Files.{FileRow, World, claim, delete_row, delete_many}
use nestjs_fastify_nx.Scheduler.Cleanup.{
  Storage, Settings, confirm_unverified_object, reclaim, reclaim_candidate, reclaim_all,
  purge_candidate, purge_batch, is_unverified,
}
use nestjs_fastify_nx.Scheduler.Pointers.{
  is_stored, KeepsPointers, KeepsPointers-IsPreorder, IsSafeStorage, IsLocated, IsLocated-later,
  delete_row-keeps, delete_many-keeps, claim-keeps, caught,
}

module _ (settings : Settings) (storage : Storage) (safe : IsSafeStorage storage) where
  pub through : (s t u : World) → KeepsPointers s t → KeepsPointers t u → KeepsPointers s u
  through = KeepsPointers-IsPreorder.transitive

  -- Deleting the object and then the row that points to it, whichever way the row goes.
  object-then_row :
      (c : FileRow) (remove : Exec World (Unit {0})) (t : World)
      → ((s : World)
          → IsLocated c s
          → is_stored s c.key c.bucket ≡ false
          → KeepsPointers s (remove s).1)
      → IsLocated c t
      → KeepsPointers t ((do storage.delete c.key c.bucket; remove; pure true) t).1
  unfolding pure
  object-then_row c remove t removes l =
      let s = (storage.delete c.key c.bucket t).1 in
      let step = (safe.delete_moves c.key c.bucket).moves t in
      ends-bind (KeepsPointers t) (storage.delete c.key c.bucket) _ t step λ done e.
        let step' =
          through t s (remove s).1 step
            (removes s (IsLocated-later c t s step l) (safe.deletes c.key c.bucket t e)) in
        ends-bind (KeepsPointers t) remove _ s step' λ done' e'. step'

  reclaim-keeps :
      (c : FileRow) (t : World) → IsLocated c t → KeepsPointers t (reclaim settings storage c t).1
  unfolding reclaim
  reclaim-keeps c t l =
      ends-bind (KeepsPointers t) (claim c) _ t (claim-keeps c t)
        λ claimed e. branch claimed (claim c t).1 (claim-keeps c t)
    where
      branch :
          (claimed : Bool) (s : World)
          → KeepsPointers t s
          → KeepsPointers t
              ((if claimed
                  then (do storage.delete c.key c.bucket; delete_row c.id; pure true)
                  else pure false)
                s).1
      branch true s k =
          through t s _ k
            (object-then_row c (delete_row c.id) s (delete_row-keeps c) (IsLocated-later c t s k l))
      branch false s k = unfold pure in k

  confirm-keeps :
      (c : FileRow) (t : World) → KeepsPointers t (confirm_unverified_object settings storage c t).1
  unfolding confirm_unverified_object
  confirm-keeps c t =
      let step = (safe.head_moves c.key c.bucket).moves t in
      caught t (do storage.head c.key c.bucket; pure true) false
        (ends-bind (KeepsPointers t) (storage.head c.key c.bucket) _ t step
          (λ found e. unfold pure in step))

  reclaim_candidate-keeps :
      (c : FileRow) (t : World)
      → IsLocated c t
      → KeepsPointers t (reclaim_candidate settings storage c t).1
  unfolding reclaim_candidate
  reclaim_candidate-keeps c t l = by_status (is_unverified c.status)
    where
      confirmed-keeps :
          (confirmed : Bool) (s : World)
          → KeepsPointers t s
          → KeepsPointers t ((if confirmed then reclaim settings storage c else pure false) s).1
      confirmed-keeps true s k = through t s _ k (reclaim-keeps c s (IsLocated-later c t s k l))
      confirmed-keeps false s k = unfold pure in k

      by_status :
          (unverified : Bool)
          → KeepsPointers t
              ((if unverified
                  then (do
                    confirmed ← confirm_unverified_object settings storage c
                    if confirmed then reclaim settings storage c else pure false)
                  else reclaim settings storage c)
                t).1
      by_status true =
          ends-bind (KeepsPointers t) (confirm_unverified_object settings storage c) _ t
            (confirm-keeps c t) λ confirmed e. confirmed-keeps confirmed _ (confirm-keeps c t)
      by_status false = reclaim-keeps c t l

  -- The candidates of a query, each of which points where its row does.
  abbrev pub AreLocated : List FileRow → World → Type 0
  AreLocated [] w = Unit
  AreLocated (c ∷ cs) w = IsLocated c w × AreLocated cs w

  pub AreLocated-later :
      (cs : List FileRow) (s t : World) → KeepsPointers s t → AreLocated cs s → AreLocated cs t
  AreLocated-later [] s t r l = tt
  AreLocated-later (c ∷ cs) s t r l = (IsLocated-later c s t r l.0, AreLocated-later cs s t r l.1)

  pub reclaim_all-keeps :
      (cs : List FileRow) (n : ℕ) (t : World)
      → AreLocated cs t
      → KeepsPointers t (reclaim_all settings storage cs n t).1
  unfolding reclaim_all
  reclaim_all-keeps [] n t l = unfold pure in KeepsPointers-IsPreorder.reflexive t
  reclaim_all-keeps (c ∷ cs) n t l =
      let first = try_catch (reclaim_candidate settings storage c) (λ e. pure false) in
      let step =
        caught t (reclaim_candidate settings storage c) false (reclaim_candidate-keeps c t l.0) in
      ends-bind (KeepsPointers t) first _ t step λ reclaimed e.
        through t (first t).1 _ step
          (reclaim_all-keeps cs _ (first t).1 (AreLocated-later cs t (first t).1 step l.1))

  purge_candidate-keeps :
      (c : FileRow) (t : World)
      → IsLocated c t
      → KeepsPointers t (purge_candidate settings storage c t).1
  unfolding purge_candidate
  purge_candidate-keeps c t l =
      caught t _ false (object-then_row c (delete_many c.id) t (delete_many-keeps c) l)

  pub purge_batch-keeps :
      (cs : List FileRow) (n : ℕ) (t : World)
      → AreLocated cs t
      → KeepsPointers t (purge_batch settings storage cs n t).1
  unfolding purge_batch
  purge_batch-keeps [] n t l = unfold pure in KeepsPointers-IsPreorder.reflexive t
  purge_batch-keeps (c ∷ cs) n t l =
      let step = purge_candidate-keeps c t l.0 in
      let s = (purge_candidate settings storage c t).1 in
      ends-bind (KeepsPointers t) (purge_candidate settings storage c) _ t step
        λ purged e. through t s _ step (purge_batch-keeps cs _ s (AreLocated-later cs t s step l.1))
