-- ===== src/Outbox/Grouping.antt =====
-- The grouping by aggregate that `dispatchClaimed` begins with.
use nestjs_fastify_nx.Common.{
  String, ◌≡◌, refl, sym, ap, ◌∙◌, ◌==◌, Bool, true, false, List, [], ◌∷◌, ◌++◌, arith, eq_iff,
  Bool-cases, inl, inr, keep, if◌then◌else◌, append_assoc, append_nil,
}
use nestjs_fastify_nx.Outbox.Table.{OutboxRow, add_to_group, group_from}

same_test : (a b c : String) (v : Bool) → a == b ≡ true → a == c ≡ v → b == c ≡ v
same_test a b c v h k = ground (arith, eq_iff a b)

other_test : (a b c : String) → a == b ≡ false → a == c ≡ true → b == c ≡ false
other_test a b c h k = ground (arith, eq_iff a b, eq_iff a c, eq_iff b c)

module _ {P : Type 0} where
  -- The first group whose rows are of the aggregate, as its first row tells; none is empty.
  unfoldable pub group_of : String → List (List (OutboxRow P)) → List (OutboxRow P)
  group_of aggregate [] = []
  group_of aggregate ([] ∷ groups) = group_of aggregate groups
  group_of aggregate ((first ∷ rest) ∷ groups) =
      if first.aggregate_id == aggregate then first ∷ rest else group_of aggregate groups

  abbrev pub of_aggregate : String → List (OutboxRow P) → List (OutboxRow P)
  of_aggregate aggregate rows = keep (λ row. row.aggregate_id == aggregate) rows

  keep-cons :
      (aggregate : String) (row : OutboxRow P) (rows : List (OutboxRow P))
      → of_aggregate aggregate (row ∷ []) ++ of_aggregate aggregate rows
        ≡ of_aggregate aggregate (row ∷ rows)
  keep-cons aggregate row rows = elim (Bool-cases (row.aggregate_id == aggregate)) [
    | inl mine ↦ rw mine refl
    | inr other ↦ rw other refl
  ]

  add_to_group-group_of :
      (aggregate : String) (row : OutboxRow P) (groups : List (List (OutboxRow P)))
      → group_of aggregate (add_to_group row groups)
        ≡ group_of aggregate groups ++ of_aggregate aggregate (row ∷ [])
  unfolding group_of add_to_group
  add_to_group-group_of aggregate row [] = elim (Bool-cases (row.aggregate_id == aggregate)) [
    | inl mine ↦ rw mine refl
    | inr other ↦ rw other refl
  ]
  add_to_group-group_of aggregate row ([] ∷ groups) = add_to_group-group_of aggregate row groups
  add_to_group-group_of aggregate row ((first ∷ rest) ∷ groups) =
      elim (Bool-cases (first.aggregate_id == row.aggregate_id)) [
        | inl same ↦ elim (Bool-cases (first.aggregate_id == aggregate)) [
          | inl mine ↦
              rw
                (same, mine, same_test first.aggregate_id row.aggregate_id aggregate true same mine)
                refl
          | inr other ↦
              rw
                (
                  same,
                  other,
                  same_test first.aggregate_id row.aggregate_id aggregate false same other,
                )
                (sym (append_nil (group_of aggregate groups)))
        ]
        | inr differs ↦ elim (Bool-cases (first.aggregate_id == aggregate)) [
          | inl mine ↦
              rw
                (
                  differs,
                  mine,
                  other_test first.aggregate_id row.aggregate_id aggregate differs mine,
                )
                (sym (append_nil (first ∷ rest)))
          | inr other ↦ rw (differs, other) (add_to_group-group_of aggregate row groups)
        ]
      ]

  group_from-group_of :
      (aggregate : String) (rows : List (OutboxRow P)) (groups : List (List (OutboxRow P)))
      → group_of aggregate (group_from groups rows)
        ≡ group_of aggregate groups ++ of_aggregate aggregate rows
  unfolding group_from
  group_from-group_of aggregate [] groups = sym (append_nil (group_of aggregate groups))
  group_from-group_of aggregate (row ∷ rows) groups =
      group_from-group_of aggregate rows (add_to_group row groups)
      ∙ (ap (λ xs. xs ++ of_aggregate aggregate rows) (add_to_group-group_of aggregate row groups)
          ∙ (append_assoc (group_of aggregate groups) (of_aggregate aggregate (row ∷ []))
                (of_aggregate aggregate rows)
              ∙ ap (λ xs. group_of aggregate groups ++ xs) (keep-cons aggregate row rows)))

  -- The group of an aggregate consists of exactly the claimed rows of that aggregate, in the order of
  -- the claim's result.
  pub group_from-in_order :
      (aggregate : String) (rows : List (OutboxRow P))
      → group_of aggregate (group_from [] rows) ≡ of_aggregate aggregate rows
  unfolding group_of
  group_from-in_order aggregate rows = group_from-group_of aggregate rows []
