-- ===== src/Authorization/Statements.antt =====
-- The wire format of a custom role: what is written is what is read back.
use mathlib.Core.List.{append_assoc, append-nil}
use nestjs_fastify_nx.Common.{
  String, ◌≡◌, refl, sym, ap, ◌∙◌, ◌==◌, not, ◌||◌, ◌&&◌, Bool, true, false, List, [], ◌∷◌, ◌++◌,
  includes, includes-append, includes-cons, includes-nil, every-of_includes, keep, every,
  every-includes, keep-of_every, keep-not-of_every, arith, eq_iff, Bool-cases, inl, inr,
}
use nestjs_fastify_nx.Common.Text.{split}
use nestjs_fastify_nx.Errors.{ok}
use nestjs_fastify_nx.Authorization.Permissions.{
  all_permissions, Statements, push_action, group_parts, group_from, group_permissions_by_resource,
  obj, ParsedPermissionStatements, no_statements, candidate_of, file_candidate, parse_actions,
  parse_fields, after_parse, items_of, fields_of, JsonText, parse_permission_statements,
  serialize_permission_statements,
}

abbrev candidates_under : String → List String → List String
candidates_under resource [] = []
candidates_under resource (action ∷ actions) =
    candidate_of resource action ∷ candidates_under resource actions

-- The permissions that a group of statements names, in order.
abbrev candidates : Statements → List String
candidates [] = []
candidates ((resource, actions) ∷ rest) = candidates_under resource actions ++ candidates rest

candidates_under-append :
    (resource : String) (xs ys : List String)
    → candidates_under resource (xs ++ ys)
      ≡ candidates_under resource xs ++ candidates_under resource ys
candidates_under-append resource [] ys = refl
candidates_under-append resource (x ∷ xs) ys =
    ap (λ l. candidate_of resource x ∷ l) (candidates_under-append resource xs ys)

includes-single : (s t : String) → includes (s ∷ []) t ≡ (s == t)
unfolding includes
includes-single s t = ground arith

||-swap : (a b c : Bool) → ((a || b) || c) ≡ ((a || c) || b)
||-swap a b c = ground arith

includes-push_action :
    (resource action : String) (g : Statements) (t : String)
    → includes (candidates (push_action resource action g)) t
      ≡ (includes (candidates g) t || candidate_of resource action == t)
unfolding push_action
includes-push_action resource action [] t = rw includes-single (unfold includes in refl)
includes-push_action resource action ((r, actions) ∷ rest) t = elim (Bool-cases (r == resource)) [
  | inl same ↦
      rw
        (
          same,
          (eq_iff r resource).0 same,
          candidates_under-append resource actions (action ∷ []),
          includes-append (candidates_under resource actions ++ candidate_of resource action ∷ []),
          includes-append (candidates_under resource actions) (candidate_of resource action ∷ []),
          includes-single,
          includes-append (candidates_under resource actions) (candidates rest),
        )
        (||-swap (includes (candidates_under resource actions) t)
          (candidate_of resource action == t) (includes (candidates rest) t))
  | inr other ↦
      rw
        (
          other,
          includes-append (candidates_under r actions)
              (candidates (push_action resource action rest)),
          includes-append (candidates_under r actions) (candidates rest),
          includes-push_action resource action rest t,
        )
        (ground arith)
]

-- Two parts, both filled.
abbrev is_pair : List String → Bool
is_pair (resource ∷ (action ∷ [])) = not (resource == "" || action == "")
is_pair _ = false

abbrev joined : List String → String
joined (resource ∷ (action ∷ rest)) = candidate_of resource action
joined _ = ""

-- Every permission of the catalogue is its resource, a colon and its action.
catalogue_splits :
    every (λ p. is_pair (split b':' p) && joined (split b':' p) == p) all_permissions ≡ true
unfolding split
catalogue_splits = refl

includes-group_parts :
    (parts : List String) (g : Statements) (t : String)
    → is_pair parts ≡ true
    → includes (candidates (group_parts parts g)) t
      ≡ (includes (candidates g) t || joined parts == t)
includes-group_parts [] g t h = cc
includes-group_parts (r ∷ []) g t h = cc
includes-group_parts (r ∷ (a ∷ [])) g t h = elim (Bool-cases (r == "" || a == "")) [
  | inl bad ↦ ground arith
  | inr good ↦ rw good (includes-push_action r a g t)
]
includes-group_parts (r ∷ (a ∷ (b ∷ more))) g t h = cc

catalogue_split :
    (p : String)
    → includes all_permissions p ≡ true
    → (is_pair (split b':' p) ≡ true) × (joined (split b':' p) ≡ p)
catalogue_split p known =
    let e =
      every-includes (λ q. is_pair (split b':' q) && joined (split b':' q) == q) all_permissions p
        catalogue_splits known in
    (ground arith, ground (arith, eq_iff (joined (split b':' p)) p))

&&-parts : (a b : Bool) → (a && b) ≡ true → (a ≡ true) × (b ≡ true)
&&-parts a b h = ground arith

||-assoc : (a b c : Bool) → ((a || b) || c) ≡ (a || (b || c))
||-assoc true b c = refl
||-assoc false b c = refl

includes-group_from :
    (ps : List String) (g : Statements) (t : String)
    → every (includes all_permissions) ps ≡ true
    → includes (candidates (group_from g ps)) t ≡ (includes (candidates g) t || includes ps t)
unfolding group_from
includes-group_from [] g t h = rw includes-nil (ground arith)
includes-group_from (p ∷ ps) g t h =
    let (known, rest) =
      &&-parts (includes all_permissions p) (every (includes all_permissions) ps) h in
    let (pair, same) = catalogue_split p known in
    includes-group_from ps (group_parts (split b':' p) g) t rest
    ∙ (ap (λ b. b || includes ps t) (includes-group_parts (split b':' p) g t pair)
        ∙ rw (same, includes-cons) (||-assoc (includes (candidates g) t) (p == t) (includes ps t)))

-- The two lists that reading collects, from what is listed: the catalogue's, and the rest.
abbrev after : ParsedPermissionStatements → List String → ParsedPermissionStatements
after out named = record {
  granted = out.granted ++ keep (includes all_permissions) named;
  unknown = out.unknown ++ keep (λ p. not (includes all_permissions p)) named;
}

after-cons :
    (p : String) (ps : List String) (out : ParsedPermissionStatements)
    → after (file_candidate p out) ps ≡ after out (p ∷ ps)
after-cons p ps out = elim (Bool-cases (includes all_permissions p)) [
  | inl known ↦ rw known (simp append_assoc)
  | inr other ↦ rw other (simp append_assoc)
]

parse_actions-after :
    (resource : String) (actions : List String) (out : ParsedPermissionStatements)
    → parse_actions resource (items_of actions) out ≡ after out (candidates_under resource actions)
unfolding parse_actions
parse_actions-after resource [] out = simp append-nil
parse_actions-after resource (action ∷ actions) out =
    parse_actions-after resource actions (file_candidate (candidate_of resource action) out)
    ∙ after-cons (candidate_of resource action) (candidates_under resource actions) out

keep-append : (p : String → Bool) (xs ys : List String) → keep p (xs ++ ys) ≡ keep p xs ++ keep p ys
keep-append p [] ys = refl
keep-append p (x ∷ xs) ys = elim (Bool-cases (p x)) [
  | inl e ↦ rw e (ap (λ l. x ∷ l) (keep-append p xs ys))
  | inr e ↦ rw e (keep-append p xs ys)
]

after-append :
    (xs ys : List String) (out : ParsedPermissionStatements)
    → after (after out xs) ys ≡ after out (xs ++ ys)
after-append xs ys out = simp (keep-append, append_assoc)

parse_fields-after :
    (g : Statements) (out : ParsedPermissionStatements)
    → parse_fields (fields_of g) out ≡ after out (candidates g)
unfolding parse_fields
parse_fields-after [] out = simp append-nil
parse_fields-after ((resource, actions) ∷ rest) out =
    parse_fields-after rest (parse_actions resource (items_of actions) out)
    ∙ (ap (λ o. after o (candidates rest)) (parse_actions-after resource actions out)
        ∙ after-append (candidates_under resource actions) (candidates rest) out)

-- Writing a list of catalogue permissions and reading the text back succeeds, grants exactly the
-- listed permissions and reports none as unknown, where `JSON.parse` inverts `JSON.stringify` on the
-- object that is written.
pub parse-serialize :
    (json : JsonText) (ps : List String)
    → every (includes all_permissions) ps ≡ true
    → json.parse (json.stringify (obj (fields_of (group_permissions_by_resource ps))))
      ≡ ok (obj (fields_of (group_permissions_by_resource ps)))
    → (r : ParsedPermissionStatements) × (parse_permission_statements json
          (serialize_permission_statements json ps)
        ≡ ok r)
      × ((t : String) → includes r.granted t ≡ includes ps t)
      × (r.unknown ≡ [])
unfolding parse_permission_statements serialize_permission_statements group_permissions_by_resource
parse-serialize json ps known inverse =
    let named = candidates (group_from [] ps) in
    let same = λ (t : String). includes-group_from ps [] t known ∙ rw includes-nil in
    let listed =
      every-of_includes (includes all_permissions) named
        (λ t h. every-includes (includes all_permissions) ps t known (sym (same t) ∙ h)) in
    (
      after no_statements named,
      ap after_parse inverse ∙ ap ok (parse_fields-after (group_from [] ps) no_statements),
      λ t. rw (keep-of_every (includes all_permissions) named listed) (same t),
      keep-not-of_every (includes all_permissions) named listed,
    )
