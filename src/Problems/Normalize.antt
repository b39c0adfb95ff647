-- ===== src/Problems/Normalize.antt =====
-- apps/api/src/common/filters/global-exception.filter.ts: the answer that a REST request gets.
-- Translation is a parameter, and its arguments are left out.

use Prim.Native.Char.{code}
use Prim.Native.String
use nestjs_fastify_nx.Common.{
  ℕ, String, ◌==◌, Option, none, some, List, [], ◌∷◌, leb, is_text, or_else, if◌then◌else◌,
}
use nestjs_fastify_nx.Common.Text.{contains_char}
use nestjs_fastify_nx.Problems.Details.{
  ValidationErrorItem, HealthCheck, ProblemDetailsBody, Environment, status_title, status_code,
  entry, build_problem_details,
}
use nestjs_fastify_nx.Problems.Exceptions.{
  ErrorFields, Exception, Message, NormalizedError, Response, ResponseBody, absent, body, domain,
  http, is_fastify_level_error, is_prisma_error, is_prisma_known_error, many, object, one,
  primitive, prisma_status, problem_code, resolve_fastify_code, resolve_fastify_status,
  status_of_kind, written,
}

-- `I18N_KEYS.common.internal_server_error`
abbrev pub internal_key : String
internal_key = "common.internal_server_error"

abbrev pub internal : String → NormalizedError
internal title = record {
  status = 500;
  title = title;
  detail = some internal_key;
  code = "internal_server_error";
  errors = none;
  checks = none;
}

-- `extractFailingHealthChecks`
unfoldable pub extract_failing_health_checks : ResponseBody → Option (List HealthCheck)
extract_failing_health_checks res = elim res.error [
  | none ↦ none
  | some [] ↦ none
  | some (check ∷ checks) ↦ if is_text res.status "error" then some (check ∷ checks) else none
]

-- `detailSource` as a text, or the alternatives of its two uses
abbrev joined : List String → String
joined [] = ""
joined (s ∷ []) = s
joined (s ∷ (t ∷ rest)) = String.◌++◌ s (String.◌++◌ "; " (joined (t ∷ rest)))

abbrev detail_source : ResponseBody → Message
detail_source res = elim res.message_key [ none ↦ res.message | some key ↦ one key ]

abbrev text_or : Message → String → String
text_or (one s) otherwise = s
text_or _ otherwise = otherwise

abbrev detail_of : Message → String → String
detail_of absent message = message
detail_of (one s) message = s
detail_of (many ss) message = joined ss

abbrev names_of : List HealthCheck → String
names_of [] = ""
names_of (c ∷ []) = c.name
names_of (c ∷ (d ∷ rest)) = String.◌++◌ c.name (String.◌++◌ ", " (names_of (d ∷ rest)))

module _ (env : Environment) where
  abbrev pub plain : ℕ → Option String → NormalizedError
  plain status detail = record {
    status = status;
    title = status_title env status;
    detail = detail;
    code = status_code status;
    errors = none;
    checks = none;
  }

  unfoldable pub normalize_fastify : ErrorFields → NormalizedError
  unfolding resolve_fastify_status resolve_fastify_code
  normalize_fastify e =
      let status = resolve_fastify_status e in
      let title = or_else e.title (status_title env status) in
      record {
        status = status;
        title = title;
        detail =
            some (if leb 500 status then title else or_else e.detail (or_else e.message title));
        code = problem_code e.code status;
        errors = none;
        checks = none;
      }

  abbrev pub unmapped : ErrorFields → NormalizedError
  unmapped e = if is_prisma_error e then internal (status_title env 500) else internal internal_key

  abbrev pub mapped : ErrorFields → Option (ℕ × String) → NormalizedError
  mapped e none = unmapped e
  mapped e (some (status, code)) = record {
    status = status;
    title = status_title env status;
    detail = none;
    code = code;
    errors = none;
    checks = none;
  }

  -- an object that is no DomainException and no HttpException
  unfoldable pub normalize_object : ErrorFields → NormalizedError
  unfolding is_fastify_level_error normalize_fastify is_prisma_known_error prisma_status
      is_prisma_error
  normalize_object e =
      if is_fastify_level_error e
      then normalize_fastify e
      else if is_prisma_known_error e
      then mapped e (prisma_status (or_else e.code ""))
      else unmapped e

  abbrev pub with_errors :
      ℕ → ResponseBody → String → String → String → List ValidationErrorItem → NormalizedError
  with_errors status res message title code [] = record {
    status = status;
    title = title;
    detail = some (detail_of (detail_source res) message);
    code = code;
    errors = none;
    checks = none;
  }
  with_errors status res message title code (item ∷ items) = record {
    status = status;
    title = title;
    detail = some (text_or (detail_source res) "validation.failed_detail");
    code = if code == status_code status then "validation_failed" else code;
    errors = some (item ∷ items);
    checks = none;
  }

  -- a structured body below 500
  unfoldable pub normalize_body : ℕ → ResponseBody → String → NormalizedError
  normalize_body status res message =
      with_errors status res message (or_else res.title (status_title env status))
        (or_else res.code (status_code status)) res.errors

  abbrev pub structured : ℕ → ResponseBody → String → Option (List HealthCheck) → NormalizedError
  structured status res message (some checks) = record {
    status = status;
    title = status_title env status;
    detail = some (String.◌++◌ "Unhealthy dependencies: " (names_of checks));
    code = status_code status;
    errors = none;
    checks = some checks;
  }
  structured status res message none =
      if leb 500 status
      then plain status (some (status_title env status))
      else normalize_body status res message

  abbrev pub normalize_response : ℕ → Response → String → NormalizedError
  normalize_response status (written s) message =
      plain status (some (if leb 500 status then status_title env status else s))
  normalize_response status (body res) message =
      structured status res message (extract_failing_health_checks res)

  -- `normalizeException`
  unfoldable pub normalize_exception : Exception → NormalizedError
  unfolding normalize_object normalize_body extract_failing_health_checks
  normalize_exception (domain e) = record {
    status = status_of_kind e.kind;
    title = e.title;
    detail = e.message_key;
    code = e.code;
    errors = some e.violations;
    checks = none;
  }
  normalize_exception (object e) = normalize_object e
  normalize_exception primitive = internal internal_key
  normalize_exception (http e) = normalize_response e.status e.response e.message

-- `HTTP_STATUS_TO_I18N_KEY`
abbrev pub fallback_keys : List (ℕ × String)
fallback_keys =
    (400, "common.bad_request")
    ∷ (401, "common.unauthorized")
    ∷ (403, "common.forbidden")
    ∷ (404, "common.not_found")
    ∷ (409, "common.conflict")
    ∷ (413, "common.payload_too_large")
    ∷ (415, "common.unsupported_media_type")
    ∷ (422, "common.unprocessable_entity")
    ∷ (429, "common.too_many_requests")
    ∷ (500, internal_key)
    ∷ (503, "common.service_unavailable")
    ∷ (504, "common.request_timeout")
    ∷ []

pub record Request : Type 0 where
  pub url : String
  pub request_id : Option String

module _ (env : Environment) (translate : String → String) where
  unfoldable pub maybe_translate : String → String
  unfolding contains_char
  maybe_translate value = if contains_char b'.' value then translate value else value

  abbrev translate_item : ValidationErrorItem → ValidationErrorItem
  translate_item item =
      if or_else item.message_key "" == ""
      then item
      else record item { message = translate (or_else item.message_key "") }

  abbrev translate_items : List ValidationErrorItem → List ValidationErrorItem
  translate_items [] = []
  translate_items (item ∷ items) = translate_item item ∷ translate_items items

  abbrev translated_fallback : Option String → Option String → Option String
  translated_fallback detail none = detail
  translated_fallback detail (some key) = some (translate key)

  unfoldable pub translate_normalized : NormalizedError → NormalizedError
  unfolding maybe_translate
  translate_normalized e = record {
    status = e.status;
    title = maybe_translate e.title;
    detail =
        if or_else e.detail "" == ""
        then translated_fallback e.detail (entry e.status fallback_keys)
        else some (maybe_translate (or_else e.detail ""));
    code = e.code;
    errors = elim e.errors [ none ↦ none | some items ↦ some (translate_items items) ];
    checks = e.checks;
  }

  -- `GlobalExceptionFilter.catch` on a REST route: the body that it sends, under the status in it
  unfoldable pub catch_exception : Request → Exception → ProblemDetailsBody
  unfolding normalize_exception translate_normalized build_problem_details
  catch_exception request exception =
      let normalized = translate_normalized (normalize_exception env exception) in
      build_problem_details env (record {
        status = normalized.status;
        title = normalized.title;
        detail = normalized.detail;
        code = normalized.code;
        instance_url = env.sanitize_url request.url;
        request_id = request.request_id;
        errors = normalized.errors;
        checks = normalized.checks;
      })
