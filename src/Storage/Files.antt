-- ===== src/Storage/Files.antt =====
-- What is found on a disk after its calls.
use nestjs_fastify_nx.Common.{
  ◌≡◌, refl, true, false, none, some, List, [], ◌∷◌, ◌++◌, arith, Bool-cases, Bool-ext, inl, inr,
  eq_iff, eq_refl,
}
use nestjs_fastify_nx.Storage.Paths.{FilePath}
use nestjs_fastify_nx.Storage.Disk.{File, same, lookup, remove, store}

pub same_refl : (p : FilePath) → same p p ≡ true
same_refl [] = refl
same_refl (s ∷ p) = rw (eq_refl s, same_refl p) refl

pub same-eq : (p q : FilePath) → same p q ≡ true → p ≡ q
same-eq [] [] h = refl
same-eq [] (t ∷ q) h = absurd (ground arith)
same-eq (s ∷ p) [] h = absurd (ground arith)
same-eq (s ∷ p) (t ∷ q) h =
    let names : s ≡ t = (eq_iff s t).0 (ground arith) in
    let rest : p ≡ q = same-eq p q (ground arith) in cc

pub same_sym : (p q : FilePath) → same p q ≡ same q p
same_sym p q =
    Bool-ext (same p q) (same q p) (λ h. turned p q (same-eq p q h))
      (λ h. turned q p (same-eq q p h))
  where
    turned : (p q : FilePath) → p ≡ q → same q p ≡ true
    turned p q e = rw e (same_refl q)

pub same-append : (r p q : FilePath) → same (r ++ p) (r ++ q) ≡ same p q
same-append [] p q = refl
same-append (s ∷ r) p q = rw (eq_refl s) (same-append r p q)

pub lookup-remove_same : (files : List File) (p : FilePath) → lookup (remove files p) p ≡ none
unfolding lookup remove
lookup-remove_same [] p = refl
lookup-remove_same (f ∷ files) p = elim (Bool-cases (same f.path p)) [
  | inl here ↦ rw here (lookup-remove_same files p)
  | inr other ↦ rw (other, other) (lookup-remove_same files p)
]

pub lookup-remove_other :
    (files : List File) (p q : FilePath)
    → same p q ≡ false
    → lookup (remove files p) q ≡ lookup files q
unfolding lookup remove
lookup-remove_other [] p q h = refl
lookup-remove_other (f ∷ files) p q h = elim (Bool-cases (same f.path p)) [
  | inl here ↦
      let path : f.path ≡ p = same-eq f.path p here in
      rw (here, path, h) (lookup-remove_other files p q h)
  | inr other ↦ rw (other, lookup-remove_other files p q h) refl
]

pub lookup-store_same : (files : List File) (f : File) → lookup (store files f) f.path ≡ some f
unfolding lookup store
lookup-store_same files f = rw (same_refl f.path) refl

pub lookup-store_other :
    (files : List File) (f : File) (q : FilePath)
    → same f.path q ≡ false
    → lookup (store files f) q ≡ lookup files q
unfolding lookup store
lookup-store_other files f q h = rw h (lookup-remove_other files f.path q h)
