-- ===== src/Organizations/Teams.antt =====
-- libs/modules/organizations/src: the Prisma repository over the table `teams`, where every query is one
-- atomic step, and the handlers of commands. `id` and the pair of organization and name are unique;
-- the members of a team and the DTO are left out.
use nestjs_fastify_nx.Common.{
  ℕ, String, ◌==◌, Bool, Option, none, some, List, [], ◌∷◌, ◌++◌, ◌&&◌, ◌||◌, not, exists, keep,
  find, map, if◌then◌else◌, false,
}
use nestjs_fastify_nx.Errors.{
  ok, err, Failure, domain, new_domain_exception, field_problem, not_found, conflict,
}
use nestjs_fastify_nx.Exec.{Exec, pure, throw, lift, ◌>>=◌, ◌>>◌}
use nestjs_fastify_nx.Organizations.Team.{Team, new_team, renamed_to}

pub record World : Type 0 where
  pub teams : List Team
  pub now : ℕ

abbrev pub team_not_found : Failure
team_not_found = domain (new_domain_exception (field_problem not_found "team_not_found" none "id"))

abbrev pub team_name_taken : Failure
team_name_taken = domain (
    new_domain_exception
      (record (field_problem conflict "team_name_taken" none "name") { permanent = some false }))

-- `where: { id, organizationId }`
abbrev pub is_team : String → String → Team → Bool
is_team organization_id id team = team.id == id && team.organization_id == organization_id

-- the unique pair of organization and name
abbrev pub has_name : String → String → Team → Bool
has_name organization_id name team = team.organization_id == organization_id && team.name == name

unfoldable pub create : Team → Exec World (Unit {0})
create team w =
    if exists (λ t. t.id == team.id || has_name team.organization_id team.name t) w.teams
    then (err team_name_taken, w)
    else (ok tt, record w { teams = w.teams ++ record team { updated_at = some w.now } ∷ [] })

abbrev pub with_name : String → ℕ → Team → Team
with_name name now team = record team { name = name; updated_at = some now }

-- `updateMany`, refused where another team of the organization has the name
unfoldable pub update : Team → Exec World Bool
update team w =
    let named = exists (is_team team.organization_id team.id) w.teams in
    if named
      && exists (λ t. not (t.id == team.id) && has_name team.organization_id team.name t) w.teams
    then (err team_name_taken, w)
    else (
      ok named,
      record w {
        teams =
            map
              (λ t.
                if is_team team.organization_id team.id t then with_name team.name w.now t else t)
              w.teams;
      },
    )

unfoldable pub delete : String → String → Exec World Bool
delete organization_id id w = (
  ok (exists (is_team organization_id id) w.teams),
  record w { teams = keep (λ t. not (is_team organization_id id t)) w.teams },
)

unfoldable pub find_by_id : String → String → Exec World (Option Team)
find_by_id organization_id id w = (ok (find (is_team organization_id id) w.teams), w)

-- `new Date()`
unfoldable pub now_of : Exec World ℕ
now_of w = (ok w.now, w)

-- `CreateTeamHandler.execute`
unfoldable pub create_team : String → String → String → Exec World Team
unfolding now_of new_team create
create_team id organization_id name = do
  now ← now_of
  team ← lift (new_team id organization_id name now)
  create team
  pure team

abbrev pub rename_existing : String → Option Team → Exec World Team
rename_existing name none = throw team_not_found
rename_existing name (some existing) = do
  now ← now_of
  renamed ← lift (renamed_to existing name now)
  found ← update renamed
  if found then pure renamed else throw team_not_found

-- `UpdateTeamHandler.execute`
unfoldable pub update_team : String → String → String → Exec World Team
unfolding find_by_id now_of renamed_to update
update_team organization_id id name = do
  existing ← find_by_id organization_id id
  rename_existing name existing

-- `DeleteTeamHandler.execute`
unfoldable pub delete_team : String → String → Exec World (Unit {0})
unfolding delete
delete_team organization_id id = do
  found ← delete organization_id id
  if found then pure tt else throw team_not_found
