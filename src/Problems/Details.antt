-- ===== src/Problems/Details.antt =====
-- apps/api/src/common/filters/problem-details.helper.ts, and `errorTypeUrl` of
-- libs/contracts/src/lib/errors/error-codes.ts. The base of the type URLs and Node's reason phrases
-- are parameters; the timestamp and the constraints of violations are left out.
use Prim.Native.Char.{code}
use Prim.Native.String
use nestjs_fastify_nx.Common.{
  ℕ, String, Option, none, some, List, [], ◌∷◌, or_else, leb, eqb, if◌then◌else◌,
}

-- an item of `errors`, whose texts are texts
pub record ValidationErrorItem : Type 0 where
  pub path : String
  pub code : String
  pub message : String
  pub message_key : Option String
  pub rule : Option String

-- `HealthChecks`, in the order of the names
pub record HealthCheck : Type 0 where
  pub name : String
  pub status : Option String
  pub message : Option String

pub record ProblemDetailsArgs : Type 0 where
  pub status : ℕ
  pub title : String
  pub detail : Option String
  pub code : String
  pub instance_url : String
  pub request_id : Option String
  pub errors : Option (List ValidationErrorItem)
  pub checks : Option (List HealthCheck)

-- the name of a dependency and its state
abbrev pub State : Type 0
State = String × String

pub record ProblemDetailsBody : Type 0 where
  pub type_url : String
  pub title : String
  pub status : ℕ
  pub detail : Option String
  pub instance_url : String
  pub code : String
  pub request_id : Option String
  pub errors : Option (List ValidationErrorItem)
  pub checks : Option (List State)

abbrev pub entry : {A : Type 0} → ℕ → List (ℕ × A) → Option A
entry status [] = none
entry status ((s, a) ∷ rest) = if eqb s status then some a else entry status rest

abbrev pub titles : List (ℕ × String)
titles =
    (400, "Bad Request")
    ∷ (401, "Unauthorized")
    ∷ (403, "Forbidden")
    ∷ (404, "Not Found")
    ∷ (405, "Method Not Allowed")
    ∷ (409, "Conflict")
    ∷ (413, "Payload Too Large")
    ∷ (415, "Unsupported Media Type")
    ∷ (422, "Unprocessable Entity")
    ∷ (429, "Too Many Requests")
    ∷ (408, "Request Timeout")
    ∷ (500, "Internal Server Error")
    ∷ (501, "Not Implemented")
    ∷ (502, "Bad Gateway")
    ∷ (503, "Service Unavailable")
    ∷ (504, "Gateway Timeout")
    ∷ []

abbrev pub codes : List (ℕ × String)
codes =
    (400, "bad_request")
    ∷ (401, "unauthorized")
    ∷ (403, "forbidden")
    ∷ (404, "not_found")
    ∷ (405, "method_not_allowed")
    ∷ (409, "conflict")
    ∷ (413, "payload_too_large")
    ∷ (415, "unsupported_media_type")
    ∷ (422, "unprocessable_entity")
    ∷ (429, "rate_limited")
    ∷ (500, "internal_server_error")
    ∷ (503, "service_unavailable")
    ∷ (504, "request_timeout")
    ∷ (408, "request_timeout")
    ∷ (501, "not_implemented")
    ∷ (502, "service_unavailable")
    ∷ []

-- what the process is started with: STATUS_CODES of Node, the trimmed base without its last slashes, and
-- `sanitizeUrlForLogging`
pub record Environment : Type 0 where
  pub reason_phrase : ℕ → Option String
  pub error_docs_base : String
  pub sanitize_url : String → String

-- `code.replace(/_/g, '-')`
unfoldable pub error_type_slug : String → String
error_type_slug String.[] = ""
error_type_slug (String.◌∷◌ c s) =
    let rest = error_type_slug s in
    if eqb (code c) b'_' then String.◌++◌ "-" rest else String.◌∷◌ c rest

-- items without violations are left out, as are empty lists
abbrev pub filled : {A : Type 0} → Option (List A) → Option (List A)
filled none = none
filled (some []) = none
filled (some (a ∷ as')) = some (a ∷ as')

-- only names and states
unfoldable pub states_of : List HealthCheck → List State
states_of [] = []
states_of (check ∷ checks) = elim check.status [
  | none ↦ states_of checks
  | some status ↦ (check.name, status) ∷ states_of checks
]

abbrev pub checks_of : Option (List HealthCheck) → Option (List State)
checks_of none = none
checks_of (some []) = none
checks_of (some (check ∷ checks)) = some (states_of (check ∷ checks))

module _ (env : Environment) where
  unfoldable pub status_title : ℕ → String
  status_title status = or_else (entry status titles) (or_else (env.reason_phrase status) "Error")

  unfoldable pub error_type_url : String → String
  unfolding error_type_slug
  error_type_url code = String.◌++◌ env.error_docs_base (String.◌++◌ "/" (error_type_slug code))

  unfoldable pub build_problem_details : ProblemDetailsArgs → ProblemDetailsBody
  unfolding error_type_url states_of
  build_problem_details args = record {
    type_url = error_type_url args.code;
    title = args.title;
    status = args.status;
    detail = args.detail;
    instance_url = args.instance_url;
    code = args.code;
    request_id = args.request_id;
    errors = filled args.errors;
    checks = checks_of args.checks;
  }

unfoldable pub status_code : ℕ → String
status_code status =
    or_else (entry status codes) (if leb 500 status then "internal_server_error" else "bad_request")
