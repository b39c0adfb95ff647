-- ===== src/Organizations/Team.antt =====
-- libs/modules/organizations/src/domain/entities/team.entity.ts. The id and the time are given.
use nestjs_fastify_nx.Common.{ℕ, String, ◌||◌, Option, none, some, ltb, if◌then◌else◌}
use nestjs_fastify_nx.Common.Text.{trim, count}
use nestjs_fastify_nx.Errors.{Result, ok, field_problem, validation, throw_domain, ◌>>=◌}

pub record Team : Type 0 where
  pub id : String
  pub organization_id : String
  pub name : String
  pub created_at : ℕ
  pub updated_at : Option ℕ

unfoldable pub normalize_name : String → Result String
unfolding trim count
normalize_name name =
    let trimmed = trim name in
    if ltb (count trimmed) 1 || ltb 100 (count trimmed)
    then throw_domain (field_problem validation "validation_failed" (some "invalid_length") "name")
    else ok trimmed

-- `Team.create`
unfoldable pub new_team : String → String → String → ℕ → Result Team
unfolding normalize_name
new_team id organization_id name now = do
  normalized ← normalize_name name
  ok (record {
    id = id;
    organization_id = organization_id;
    name = normalized;
    created_at = now;
    updated_at = none;
  })

unfoldable pub renamed_to : Team → String → ℕ → Result Team
unfolding normalize_name
renamed_to team name now = do
  normalized ← normalize_name name
  ok (record team { name = normalized; updated_at = some now })
