-- ===== src/Scheduler/Tasks.antt =====
-- The cleanup tasks never lose the only pointer to an object that the storage still has.
use nestjs_fastify_nx.Common.{
  ℕ, zero, suc, ◌-◌, ◌*◌, ◌≡◌, refl, Bool, true, false, ◌||◌, not, inl, inr, List, [], ◌∷◌, arith,
  eq_refl, Bool-cases, every, every-implies, exists, keep, take, length, ltb, eqb, if◌then◌else◌,
}
use nestjs_fastify_nx.Errors.{Result, ok, err, fault, err-ne-ok}
use nestjs_fastify_nx.Exec.{Exec, pure, try_catch, handle, ◌>>=◌}
use nestjs_fastify_nx.Exec.Rules.{ends-bind}
use nestjs_fastify_nx.Scheduler.Files.{
  FileRow, World, Flags, spend, rejects, select_rows, order_by, insert_by,
}
use nestjs_fastify_nx.Scheduler.Cleanup.{
  Storage, Settings, reclaim_all, process_candidates, set_flags, exclusively, cleanup,
  cleanup_orphaned, purge_batch, purge_loop, purge_soft_deleted, scans, orphan_scans, is_due,
  deletion_time, set_cleanup_running, set_orphan_running, set_purge_running, without_user,
  without_organization,
}
use nestjs_fastify_nx.Scheduler.Pointers.{
  is_row, has_row, KeepsPointers, KeepsPointers-IsPreorder, HasOwnIds, IsSafeStorage, same-keeps,
  caught, stays,
}
use nestjs_fastify_nx.Scheduler.Reclaim.{
  through, AreLocated, AreLocated-later, reclaim_all-keeps, purge_batch-keeps,
}

ok-inj : (a b : List FileRow) → ok a ≡ ok b → a ≡ b
ok-inj a b e = cc

every-insert_by :
    (p : FileRow → Bool) (column : FileRow → ℕ) (x : FileRow) (l : List FileRow)
    → p x ≡ true
    → every p l ≡ true
    → every p (insert_by column x l) ≡ true
unfolding insert_by
every-insert_by p column x [] h k = ground arith
every-insert_by p column x (y ∷ ys) h k = elim (Bool-cases (ltb (column y) (column x))) [
  | inl behind ↦ rw behind (ground (arith, every-insert_by p column x ys))
  | inr before ↦ rw before (ground arith)
]

every-order_by :
    (p : FileRow → Bool) (column : FileRow → ℕ) (l : List FileRow)
    → every p l ≡ true
    → every p (order_by column l) ≡ true
unfolding order_by
every-order_by p column [] h = refl
every-order_by p column (x ∷ xs) h =
    every-insert_by p column x (order_by column xs) (ground arith)
      (every-order_by p column xs (ground arith))

every-take :
    (p : FileRow → Bool) (n : ℕ) (l : List FileRow) → every p l ≡ true → every p (take n l) ≡ true
every-take p zero l h = refl
every-take p (suc n) [] h = refl
every-take p (suc n) (x ∷ xs) h = ground (arith, every-take p n xs)

every-kept :
    (p q : FileRow → Bool) (l : List FileRow) → every p l ≡ true → every p (keep q l) ≡ true
every-kept p q [] h = refl
every-kept p q (x ∷ xs) h = ground (arith, every-kept p q xs)

selected :
    (p : FileRow → Bool) (column : FileRow → ℕ) (n : ℕ) (q : FileRow → Bool) (rows : List FileRow)
    → every p rows ≡ true
    → every p (take n (order_by column (keep q rows))) ≡ true
selected p column n q rows h =
    every-take p n (order_by column (keep q rows))
      (every-order_by p column (keep q rows) (every-kept p q rows h))

-- Every row of a table is found in it.
every-row :
    (rows : List FileRow) → every (λ c. exists (is_row c.id c.key c.bucket) rows) rows ≡ true
every-row [] = refl
every-row (row ∷ rows) =
    let tail =
      every-implies (λ c. exists (is_row c.id c.key c.bucket) rows)
        (λ c. exists (is_row c.id c.key c.bucket) (row ∷ rows)) rows (λ c h. ground arith)
        (every-row rows) in
    ground (arith, eq_refl row.id, eq_refl row.key, eq_refl row.bucket)

module _ (settings : Settings) (storage : Storage) (safe : IsSafeStorage storage) where
  -- A query lists rows of the table.
  AreLocated-of_rows :
      (cs : List FileRow) (w : World)
      → HasOwnIds w
      → every (λ c. has_row w c.id c.key c.bucket) cs ≡ true
      → AreLocated settings storage safe cs w
  AreLocated-of_rows [] w own h = tt
  AreLocated-of_rows (c ∷ cs) w own h = (
    λ key bucket found. own c.id key bucket c.key c.bucket found (ground arith),
    AreLocated-of_rows cs w own (ground arith),
  )

  -- What a query returns is located, also where a rejection counts as nothing found.
  rows-located :
      (where_ : World → FileRow → Bool) (column : FileRow → ℕ) (limit : ℕ) (w : World)
      (cs : List FileRow)
      → HasOwnIds w
      → (select_rows where_ column limit w).0 ≡ ok cs
      → AreLocated settings storage safe cs w
  unfolding select_rows
  rows-located where_ column limit w cs own e = elim (Bool-cases (rejects w.faults)) [
    | inl failed ↦ absurd (err-ne-ok (fault "query") cs (rw failed at e))
    | inr done ↦ rw (← ok-inj _ cs (rw done at e)) (
        AreLocated-of_rows (take limit (order_by column (keep (where_ w) w.rows))) w own (
          selected (λ c. has_row w c.id c.key c.bucket) column limit (where_ w) w.rows
            (every-row w.rows)))
  ]

  candidates-located :
      (query : Exec World (List FileRow)) (w : World) (cs : List FileRow)
      → ((cs : List FileRow) → (query w).0 ≡ ok cs → AreLocated settings storage safe cs w)
      → (try_catch query (λ e. pure []) w).0 ≡ ok cs
      → AreLocated settings storage safe cs w
  unfolding try_catch pure
  candidates-located query w cs located e = let (r, t) = query w in result r t located e
    where
      result :
          (r : Result (List FileRow)) (t : World)
          → ((cs : List FileRow) → r ≡ ok cs → AreLocated settings storage safe cs w)
          → (handle (λ e. pure []) (r, t)).0 ≡ ok cs
          → AreLocated settings storage safe cs w
      result (ok found) t h k = h cs k
      result (err e) t h k = rw (← ok-inj [] cs k) tt

  select_rows-keeps :
      (where_ : World → FileRow → Bool) (column : FileRow → ℕ) (limit : ℕ) (w : World)
      → KeepsPointers w (select_rows where_ column limit w).1
  unfolding select_rows
  select_rows-keeps where_ column limit w = elim (Bool-cases (rejects w.faults)) [
    | inl failed ↦ rw failed (same-keeps w (spend w) refl refl)
    | inr done ↦ rw done (same-keeps w (spend w) refl refl)
  ]

  HasOwnIds-later : (s t : World) → KeepsPointers s t → HasOwnIds s → HasOwnIds t
  HasOwnIds-later s t r own id key bucket key' bucket' h k =
      own id key bucket key' bucket' (r.rows_from id key bucket h) (r.rows_from id key' bucket' k)

  process_candidates-keeps :
      (where_ : World → FileRow → Bool) (w : World)
      → HasOwnIds w
      → KeepsPointers w (process_candidates settings storage where_ w).1
  unfolding process_candidates
  process_candidates-keeps where_ w own =
      let query = select_rows where_ (λ row. row.updated_at) settings.batch_size in
      let first = try_catch query (λ e. pure {S = World} {A = List FileRow} []) in
      let step = caught w query [] (select_rows-keeps where_ _ settings.batch_size w) in
      ends-bind (KeepsPointers w) first _ w step λ cs e.
        let located = AreLocated-later settings storage safe cs w (first w).1 step (
          candidates-located query w cs (λ cs. rows-located where_ _ settings.batch_size w cs own)
            e) in
        let step' =
          through settings storage safe w (first w).1 _ step
            (reclaim_all-keeps settings storage safe cs 0 (first w).1 located) in
        ends-bind (KeepsPointers w) (reclaim_all settings storage cs 0) _ (first w).1 step'
          (λ deleted e'. stays tt w _ step')

  set_flags-keeps : (change : Flags → Flags) (w : World) → KeepsPointers w (set_flags change w).1
  unfolding set_flags pure
  set_flags-keeps change w = same-keeps w (record w { flags = change w.flags }) refl refl

  exclusively-keeps :
      (running : Flags → Bool) (set : Bool → Flags → Flags) (body : Exec World (Unit {0}))
      (w : World)
      → HasOwnIds w
      → ((t : World) → HasOwnIds t → KeepsPointers t (body t).1)
      → KeepsPointers w (exclusively running set body w).1
  unfolding exclusively
  exclusively-keeps running set body w own keeps =
      elim (Bool-cases (not w.is_leader || running w.flags)) [
        | inl skipped ↦ rw skipped (stays tt w w (KeepsPointers-IsPreorder.reflexive w))
        | inr alone ↦ rw alone (
            let t = (set_flags (set true) w).1 in
            let step = set_flags-keeps (set true) w in
            ends-bind (KeepsPointers w) (set_flags (set true)) _ w step λ u e.
              let u = (body t).1 in
              let step' =
                through settings storage safe w t u step (keeps t (HasOwnIds-later w t step own)) in
              ends-bind (KeepsPointers w) body _ t step'
                λ u' e'. through settings storage safe w u _ step' (set_flags-keeps (set false) u))
      ]

  then-keeps :
      (m n : Exec World (Unit {0}))
      → ((t : World) → HasOwnIds t → KeepsPointers t (m t).1)
      → ((t : World) → HasOwnIds t → KeepsPointers t (n t).1)
      → (t : World) → HasOwnIds t
      → KeepsPointers t ((m >>= λ _. n) t).1
  then-keeps m n h k t own = ends-bind (KeepsPointers t) m _ t (h t own) λ u e.
      through settings storage safe t (m t).1 _ (h t own)
        (k (m t).1 (HasOwnIds-later t (m t).1 (h t own) own))

  -- On a table where an id stands for one row, with a storage that removes what it says it has removed:
  -- whatever queries reject and objects cannot be deleted, the hourly cleanup leaves no object in the
  -- storage without a row, if it had one.
  pub cleanup-KeepsPointers :
      (w : World) → HasOwnIds w → KeepsPointers w (cleanup settings storage w).1
  unfolding cleanup
  cleanup-KeepsPointers w own =
      exclusively-keeps (λ f. f.cleanup_running) set_cleanup_running (scans settings storage w.now)
        w own
        (then-keeps _ _ (process_candidates-keeps _)
          (then-keeps _ _ (process_candidates-keeps _) (process_candidates-keeps _)))

  -- The same of the daily scan for files without an owner.
  pub cleanup_orphaned-KeepsPointers :
      (w : World) → HasOwnIds w → KeepsPointers w (cleanup_orphaned settings storage w).1
  unfolding cleanup_orphaned
  cleanup_orphaned-KeepsPointers w own =
      let cutoff = w.now - settings.orphan_grace_minutes * 60_000 in
      exclusively-keeps (λ f. f.orphan_running) set_orphan_running
        (orphan_scans settings storage cutoff) w own
        (then-keeps _ _ (process_candidates-keeps (without_user settings storage cutoff))
          (process_candidates-keeps (without_organization settings storage cutoff)))

  purge_loop-keeps :
      (batches cutoff : ℕ) (t : World)
      → HasOwnIds t
      → KeepsPointers t (purge_loop settings storage batches cutoff t).1
  unfolding purge_loop
  purge_loop-keeps zero cutoff t own = stays tt t t (KeepsPointers-IsPreorder.reflexive t)
  purge_loop-keeps (suc batches) cutoff t own =
      let query = select_rows (is_due cutoff) deletion_time settings.batch_size in
      let step = select_rows-keeps (is_due cutoff) deletion_time settings.batch_size t in
      ends-bind (KeepsPointers t) query _ t step λ cs e.
        by_count
          (λ s k.
            through settings storage safe t s _ k
              (purge_loop-keeps batches cutoff s (HasOwnIds-later t s k own)))
          (eqb (length cs) 0) cs (query t).1 step
          (AreLocated-later settings storage safe cs t (query t).1 step
            (rows-located (is_due cutoff) deletion_time settings.batch_size t cs own e))
    where
      continue-keeps :
          (again : (s : World)
            → KeepsPointers t s
            → KeepsPointers t (purge_loop settings storage batches cutoff s).1)
          (stop : Bool) (s : World)
          → KeepsPointers t s
          → KeepsPointers t
              ((if stop then pure tt else purge_loop settings storage batches cutoff) s).1
      continue-keeps again true s k = stays tt t s k
      continue-keeps again false s k = again s k

      by_count :
          (again : (s : World)
            → KeepsPointers t s
            → KeepsPointers t (purge_loop settings storage batches cutoff s).1)
          (none_found : Bool) (cs : List FileRow) (s : World)
          → KeepsPointers t s
          → AreLocated settings storage safe cs s
          → KeepsPointers t
              ((if none_found then pure tt else (do
                purged ← purge_batch settings storage cs 0
                if eqb purged 0 || ltb (length cs) settings.batch_size
                    then pure tt
                    else purge_loop settings storage batches cutoff))
                s).1
      by_count again true cs s k l = stays tt t s k
      by_count again false cs s k l =
          let step =
            through settings storage safe t s _ k
              (purge_batch-keeps settings storage safe cs 0 s l) in
          ends-bind (KeepsPointers t) (purge_batch settings storage cs 0) _ s step λ purged e.
            continue-keeps again (eqb purged 0 || ltb (length cs) settings.batch_size) _ step

  -- The same of the daily purge of soft-deleted files.
  pub purge_soft_deleted-KeepsPointers :
      (w : World) → HasOwnIds w → KeepsPointers w (purge_soft_deleted settings storage w).1
  unfolding purge_soft_deleted
  purge_soft_deleted-KeepsPointers w own =
      let cutoff = w.now - settings.purge_after_days * 86_400_000 in
      exclusively-keeps (λ f. f.purge_running) set_purge_running
        (try_catch (purge_loop settings storage settings.purge_max_batches cutoff) (λ e. pure tt)) w
        own
        (λ t own'.
          caught t (purge_loop settings storage settings.purge_max_batches cutoff) tt
            (purge_loop-keeps settings.purge_max_batches cutoff t own'))
