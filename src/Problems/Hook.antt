-- ===== src/Problems/Hook.antt =====
-- apps/api/src/common/filters/fastify-error-handler.ts: `applyFastifyProblemDetailsHook`, on a payload
-- that was parsed. A property whose value has not the type that the hook asks for counts as absent; ids
-- are resolved before.

use nestjs_fastify_nx.Common.{
  ℕ, String, Bool, true, false, ◌&&◌, not, Option, none, some, List, map, ltb, leb, eqb, is_some,
  or_else, truthy, if◌then◌else◌,
}
use nestjs_fastify_nx.Problems.Details.{
  ValidationErrorItem, HealthCheck, State, ProblemDetailsBody, Environment, status_title,
  status_code, build_problem_details,
}
use nestjs_fastify_nx.Problems.Exceptions.{is_error_status, problem_code, resolve_fastify_code}
use nestjs_fastify_nx.Problems.Normalize.{Request}

-- the parsed payload
pub record Source : Type 0 where
  pub status : Option ℕ
  pub title : Option String
  pub type_url : Option String
  pub detail : Option String
  pub code : Option String
  pub instance_url : Option String
  pub error : Option String
  pub message : Option String
  pub errors : Option (List ValidationErrorItem)
  pub checks : Option (List HealthCheck)
  pub retry_after : Option ℕ

-- the payload as it was, or a body and its `retryAfter`
pub data Payload : Type 0 where
  unchanged : Payload
  replaced : ProblemDetailsBody → Option ℕ → Payload

abbrev in_range : Option ℕ → Bool
in_range none = false
in_range (some status) = is_error_status status

abbrev is_status : Option ℕ → ℕ → Bool
is_status none status = false
is_status (some s) status = eqb s status

-- `isProblemDetailsShape(source) && source.status === status`
unfoldable pub has_shape : ℕ → Source → Bool
has_shape status source =
    in_range source.status
    && is_some source.title
    && is_some source.type_url
    && is_status source.status status

-- `a || b` of texts that may be missing or empty
abbrev or_text : Option String → String → String
or_text s otherwise = if truthy s then or_else s "" else otherwise

abbrev kept {ℓ} : {A : Type ℓ} → Bool → Option A → Option A
kept true a = a
kept false a = none

module _ (env : Environment) (request : Request) (status : ℕ) where
  abbrev pub shaped : Source → Payload
  shaped source =
      let is_server = leb 500 status in
      let title = if is_server then status_title env status else or_else source.title "" in
      replaced
        (build_problem_details env (record {
          status = status;
          title = title;
          detail = if is_server then some title else source.detail;
          code =
              if not is_server && is_some source.code
              then or_else source.code ""
              else status_code status;
          instance_url = env.sanitize_url (or_else source.instance_url request.url);
          request_id = request.request_id;
          errors = kept (not is_server) source.errors;
          checks = kept is_server source.checks;
        }))
        (kept (not is_server) source.retry_after)

  abbrev raw_code : Option String → String
  raw_code code =
      if leb 500 status then resolve_fastify_code code status else problem_code code status

  abbrev pub unshaped : Source → Payload
  unshaped source =
      let title = or_text source.title (or_text source.error (status_title env status)) in
      let raw_detail = or_text source.detail (or_text source.message title) in
      replaced
        (build_problem_details env (record {
          status = status;
          title = title;
          detail = some (
              if leb 500 status
              then title
              else if truthy source.type_url
              then raw_detail
              else title);
          code = raw_code source.code;
          instance_url = env.sanitize_url request.url;
          request_id = request.request_id;
          errors = none;
          checks = none;
        }))
        none

  -- a payload that is no text, no JSON or no object
  abbrev nothing : Source
  nothing = record {
    status = none;
    title = none;
    type_url = none;
    detail = none;
    code = none;
    instance_url = none;
    error = none;
    message = none;
    errors = none;
    checks = none;
    retry_after = none;
  }

  -- the hook, on a route that is the GraphQL one or not
  unfoldable pub on_send : Bool → Option Source → Payload
  unfolding has_shape
  on_send is_graphql parsed =
      let source = or_else parsed nothing in
      if ltb status 400
      then unchanged
      else if is_graphql && is_some source.errors
      then unchanged
      else if has_shape status source
      then shaped source
      else unshaped source

abbrev as_check : State → HealthCheck
as_check (name, status) = record { name = name; status = some status; message = none }

abbrev pub as_checks : Option (List State) → Option (List HealthCheck)
as_checks none = none
as_checks (some states) = some (map as_check states)

-- what parsing the serialized body of the filter returns
abbrev pub source_of : ProblemDetailsBody → Source
source_of b = record {
  status = some b.status;
  title = some b.title;
  type_url = some b.type_url;
  detail = b.detail;
  code = some b.code;
  instance_url = some b.instance_url;
  error = none;
  message = none;
  errors = b.errors;
  checks = as_checks b.checks;
  retry_after = none;
}
