-- ===== src/Scheduler/Pointers.antt =====
-- Pointers to objects, and how a query of the cleanup tasks and a deletion leave them.
use nestjs_fastify_nx.Common.{
  ℕ, String, ◌≡◌, refl, sym, ◌∙◌, ◌==◌, Bool, true, false, ◌&&◌, ◌||◌, not, inl, inr, List, [], ◌∷◌,
  arith, Bool-cases, exists, keep, map, if◌then◌else◌,
}
use nestjs_fastify_nx.Errors.{Result, ok, err}
use nestjs_fastify_nx.Exec.{Exec, pure, try_catch, handle}
use nestjs_fastify_nx.Exec.Rules.{IsPreorder, Moves}
use nestjs_fastify_nx.Scheduler.Files.{
  FileRow, World, spend, rejects, is_same_version, claimed_row, claim, delete_row, delete_many,
}
use nestjs_fastify_nx.Scheduler.Cleanup.{Storage}

-- The storage has an object there.
abbrev pub is_stored : World → String → String → Bool
is_stored w key bucket = exists (λ o. o.0 == key && o.1 == bucket) w.objects

abbrev is_at : String → String → FileRow → Bool
is_at key bucket row = row.key == key && row.bucket == bucket

-- A row points there.
abbrev pub is_pointed_to : World → String → String → Bool
is_pointed_to w key bucket = exists (is_at key bucket) w.rows

abbrev pub is_row : String → String → String → FileRow → Bool
is_row id key bucket row = row.id == id && is_at key bucket row

-- A row of that id points there.
abbrev pub has_row : World → String → String → String → Bool
has_row w id key bucket = exists (is_row id key bucket) w.rows

-- From one state to another: no row and no object is new, and an object that is still there and had a
-- row that points to it has one.
pub record KeepsPointers (s t : World) : Type 0 where
  pub rows_from :
      (id key bucket : String) → has_row t id key bucket ≡ true → has_row s id key bucket ≡ true
  pub objects_from :
      (key bucket : String) → is_stored t key bucket ≡ true → is_stored s key bucket ≡ true
  pub pointed :
      (key bucket : String)
      → is_stored t key bucket ≡ true
      → is_pointed_to s key bucket ≡ true
      → is_pointed_to t key bucket ≡ true

pub KeepsPointers-IsPreorder : IsPreorder KeepsPointers
KeepsPointers-IsPreorder = record {
  reflexive =
      λ s. record { rows_from = λ i k b h. h; objects_from = λ k b h. h; pointed = λ k b h p. p };
  transitive = λ s t u f g. record {
    rows_from = λ i k b h. f.rows_from i k b (g.rows_from i k b h);
    objects_from = λ k b h. f.objects_from k b (g.objects_from k b h);
    pointed = λ k b h p. g.pointed k b h (f.pointed k b (g.objects_from k b h) p);
  };
}

-- The rows of one id, of which a table has one, point to one place.
abbrev pub HasOwnIds : World → Type 0
HasOwnIds w =
    (id key bucket key' bucket' : String)
    → has_row w id key bucket ≡ true
    → has_row w id key' bucket' ≡ true
    → (key ≡ key') × (bucket ≡ bucket')

-- What the storage promises: while one of its actions runs, pointers are kept, and a deletion that
-- returns has removed the object.
pub record IsSafeStorage (storage : Storage) : Type 0 where
  pub head_moves : (key bucket : String) → Moves KeepsPointers (storage.head key bucket)
  pub delete_moves : (key bucket : String) → Moves KeepsPointers (storage.delete key bucket)
  pub deletes :
      (key bucket : String) (w : World)
      → (storage.delete key bucket w).0 ≡ ok tt
      → is_stored (storage.delete key bucket w).1 key bucket ≡ false

-- Any row with the id of the candidate points where the candidate says.
abbrev pub IsLocated : FileRow → World → Type 0
IsLocated c w =
    (key bucket : String) → has_row w c.id key bucket ≡ true → (key ≡ c.key) × (bucket ≡ c.bucket)

pub IsLocated-later :
    (c : FileRow) (s t : World) → KeepsPointers s t → IsLocated c s → IsLocated c t
IsLocated-later c s t r l key bucket h = l key bucket (r.rows_from c.id key bucket h)

kept-from :
    (id id' key bucket : String) (rows : List FileRow)
    → exists (is_row id' key bucket) (keep (λ row. not (row.id == id)) rows) ≡ true
    → exists (is_row id' key bucket) rows ≡ true
kept-from id id' key bucket [] h = h
kept-from id id' key bucket (row ∷ rows) h = ground (arith, kept-from id id' key bucket rows)

pointed-or_row :
    (id key bucket : String) (rows : List FileRow)
    → exists (is_at key bucket) rows ≡ true
    → exists (is_row id key bucket) rows ≡ false
    → exists (is_at key bucket) (keep (λ row. not (row.id == id)) rows) ≡ true
pointed-or_row id key bucket [] h k = h
pointed-or_row id key bucket (row ∷ rows) h k = ground (arith, pointed-or_row id key bucket rows)

elsewhere :
    (c : FileRow) (t : World) (key bucket : String)
    → is_stored t key bucket ≡ true
    → IsLocated c t
    → is_stored t c.key c.bucket ≡ false
    → has_row t c.id key bucket ≡ false
elsewhere c t key bucket h l gone = elim (Bool-cases (has_row t c.id key bucket)) [
  | inl found ↦
      let (same_key, same_bucket) = l key bucket found in
      absurd (clash (sym h ∙ rw (same_key, same_bucket) gone))
  | inr other ↦ other
]
  where
    clash : true ≡ false → ⊥
    clash e = cc

-- Removing the rows of an id whose object is gone.
remove-keeps :
    (c : FileRow) (t u : World)
    → u.rows ≡ keep (λ row. not (row.id == c.id)) t.rows
    → u.objects ≡ t.objects
    → IsLocated c t
    → is_stored t c.key c.bucket ≡ false
    → KeepsPointers t u
remove-keeps c t u rows objects l gone = record {
  rows_from = λ i k b h. kept-from c.id i k b t.rows (rw rows at h);
  objects_from = λ k b h. rw objects at h;
  pointed = λ k b h p.
      rw rows (pointed-or_row c.id k b t.rows p (elsewhere c t k b (rw objects at h) l gone));
}

pub same-keeps : (t u : World) → u.rows ≡ t.rows → u.objects ≡ t.objects → KeepsPointers t u
same-keeps t u rows objects = record {
  rows_from = λ i k b h. rw rows at h;
  objects_from = λ k b h. rw objects at h;
  pointed = λ k b h p. rw rows p;
}

pub delete_row-keeps :
    (c : FileRow) (t : World)
    → IsLocated c t
    → is_stored t c.key c.bucket ≡ false
    → KeepsPointers t (delete_row c.id t).1
unfolding delete_row
delete_row-keeps c t l gone =
    elim (Bool-cases (rejects t.faults || not (exists (λ row. row.id == c.id) t.rows))) [
      | inl failed ↦ rw failed (same-keeps t (spend t) refl refl)
      | inr done ↦ rw done (remove-keeps c t _ refl refl l gone)
    ]

pub delete_many-keeps :
    (c : FileRow) (t : World)
    → IsLocated c t
    → is_stored t c.key c.bucket ≡ false
    → KeepsPointers t (delete_many c.id t).1
unfolding delete_many
delete_many-keeps c t l gone = elim (Bool-cases (rejects t.faults)) [
  | inl failed ↦ rw failed (same-keeps t (spend t) refl refl)
  | inr done ↦ rw done (remove-keeps c t _ refl refl l gone)
]

-- A claim moves no row.
claimed-place :
    (c : FileRow) (now : ℕ) (p : FileRow → Bool) (rows : List FileRow)
    → ((row : FileRow) → p (claimed_row c now row) ≡ p row)
    → exists p (map (λ row. if is_same_version c row then claimed_row c now row else row) rows)
      ≡ exists p rows
claimed-place c now p [] h = refl
claimed-place c now p (row ∷ rows) h = elim (Bool-cases (is_same_version c row)) [
  | inl hit ↦ rw (hit, h row, claimed-place c now p rows h) refl
  | inr miss ↦ rw (miss, claimed-place c now p rows h) refl
]

pub stays : {A : Type 0} (a : A) (s t : World) → KeepsPointers s t → KeepsPointers s (pure a t).1
unfolding pure
stays a s t k = k

pub claim-keeps : (c : FileRow) (t : World) → KeepsPointers t (claim c t).1
unfolding claim
claim-keeps c t = elim (Bool-cases (rejects t.faults)) [
  | inl failed ↦ rw failed (same-keeps t (spend t) refl refl)
  | inr done ↦ rw done (record {
    rows_from = λ i k b h. rw (claimed-place c t.now (is_row i k b) t.rows (λ row. refl)) at h;
    objects_from = λ k b h. h;
    pointed = λ k b h p. rw (claimed-place c t.now (is_at k b) t.rows (λ row. refl)) p;
  })
]

pub caught :
    {A : Type 0} (t : World) (m : Exec World A) (a : A)
    → KeepsPointers t (m t).1
    → KeepsPointers t (try_catch m (λ e. pure a) t).1
unfolding try_catch pure
caught t m a h = let (r, u) = m t in handled a r u h
  where
    handled :
        {A : Type 0} (a : A) (r : Result A) (u : World)
        → KeepsPointers t u
        → KeepsPointers t (handle (λ e. pure a) (r, u)).1
    handled a (ok b) u h = h
    handled a (err e) u h = h
