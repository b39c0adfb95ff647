-- ===== src/Problems/Exceptions.antt =====
-- apps/api/src/common/filters/global-exception.filter.ts, and what it uses of fastify-error-handler.ts:
-- what an exception is for the filter, and how it is told apart. A property whose value has not the
-- type that the filter asks for counts as absent.
use text.Mathlib.Text.{starts_with}
use Prim.Native.Char.{code}
use nestjs_fastify_nx.Common.{
  ℕ, String, ◌==◌, Bool, true, false, ◌&&◌, ◌||◌, Option, none, some, List, ltb, leb, eqb, is_some,
  is_text, or_else, if◌then◌else◌,
}
use nestjs_fastify_nx.Common.Text.{count}
use nestjs_fastify_nx.Errors.{
  Kind, malformed, validation, conflict, not_found, forbidden, unavailable,
}
use nestjs_fastify_nx.Problems.Details.{ValidationErrorItem, HealthCheck, status_code}

pub record DomainFields : Type 0 where
  pub kind : Kind
  pub code : String
  pub title : String
  pub message_key : Option String
  pub violations : List ValidationErrorItem

pub data Message : Type 0 where
  absent : Message
  one : String → Message
  many : List String → Message

-- the object that an HttpException carries; `error` counts where it is an object of checks
pub record ResponseBody : Type 0 where
  pub status : Option String
  pub error : Option (List HealthCheck)
  pub message : Message
  pub message_key : Option String
  pub title : Option String
  pub code : Option String
  pub errors : List ValidationErrorItem

pub data Response : Type 0 where
  written : String → Response
  body : ResponseBody → Response

pub record HttpFields : Type 0 where
  pub status : ℕ
  pub response : Response
  pub message : String

pub record ErrorFields : Type 0 where
  pub name : Option String
  pub code : Option String
  pub status : Option ℕ
  pub status_code : Option ℕ
  pub title : Option String
  pub type_url : Option String
  pub detail : Option String
  pub message : Option String

pub data Exception : Type 0 where
  domain : DomainFields → Exception
  http : HttpFields → Exception
  object : ErrorFields → Exception
  primitive : Exception

pub record NormalizedError : Type 0 where
  pub status : ℕ
  pub title : String
  pub detail : Option String
  pub code : String
  pub errors : Option (List ValidationErrorItem)
  pub checks : Option (List HealthCheck)

-- `DOMAIN_KIND_STATUS`
abbrev pub status_of_kind : Kind → ℕ
status_of_kind malformed = 400
status_of_kind validation = 422
status_of_kind conflict = 409
status_of_kind not_found = 404
status_of_kind forbidden = 403
status_of_kind unavailable = 503

abbrev pub is_error_status : ℕ → Bool
is_error_status status = leb 400 status && ltb status 600

abbrev in_range : Option ℕ → Bool
in_range none = false
in_range (some status) = is_error_status status

abbrev starts : Option String → String → Bool
starts none prefix = false
starts (some s) prefix = starts_with s prefix

unfoldable pub is_fastify_level_error : ErrorFields → Bool
is_fastify_level_error e =
    starts e.code "FST_" || (in_range e.status && is_some e.title && is_some e.type_url)

-- `FASTIFY_CODE_TO_ERROR_CODE[code]`
unfoldable pub fastify_code : Option String → Option String
fastify_code none = none
fastify_code (some c) =
    if c == "FST_ERR_CTP_INVALID_JSON_BODY"
      || (c == "FST_ERR_CTP_EMPTY_JSON_BODY" || c == "FST_ERR_CTP_INVALID_CONTENT_LENGTH")
    then some "bad_request"
    else if c == "FST_ERR_CTP_INVALID_MEDIA_TYPE"
    then some "unsupported_media_type"
    else if c == "FST_ERR_CTP_BODY_TOO_LARGE"
    then some "payload_too_large"
    else if c == "FST_ERR_VALIDATION"
    then some "validation_failed"
    else none

abbrev status_of_code : Option String → ℕ
status_of_code c =
    if is_some (fastify_code c)
    then (if is_text c "FST_ERR_CTP_BODY_TOO_LARGE"
        then 413
        else if is_text c "FST_ERR_CTP_INVALID_MEDIA_TYPE"
        then 415
        else 400)
    else 500

unfoldable pub resolve_fastify_status : ErrorFields → ℕ
unfolding fastify_code
resolve_fastify_status e =
    if in_range e.status_code
    then or_else e.status_code 500
    else if in_range e.status
    then or_else e.status 500
    else status_of_code e.code

unfoldable pub resolve_fastify_code : Option String → ℕ → String
unfolding fastify_code status_code
resolve_fastify_code c status = or_else (fastify_code c) (status_code status)

-- `problem.code && !problem.code.startsWith('FST_') ? problem.code : resolveFastifyCode(…)`
abbrev pub problem_code : Option String → ℕ → String
problem_code c status =
    if or_else c "" == "" || starts c "FST_" then resolve_fastify_code c status else or_else c ""

all_digits : String → Bool
all_digits String.[] = true
all_digits (String.◌∷◌ c s) = leb b'0' (code c) && leb (code c) b'9' && all_digits s

-- `/^P\d{4}$/`
matches_prisma_code : String → Bool
matches_prisma_code String.[] = false
matches_prisma_code (String.◌∷◌ c s) = eqb (code c) b'P' && all_digits s && eqb (count s) 4

unfoldable pub is_prisma_known_error : ErrorFields → Bool
unfolding matches_prisma_code all_digits count
is_prisma_known_error e =
    is_text e.name "PrismaClientKnownRequestError" && matches_prisma_code (or_else e.code "")

unfoldable pub is_prisma_error : ErrorFields → Bool
is_prisma_error e = starts e.name "PrismaClient"

-- `PRISMA_ERROR_MAP[code]`
unfoldable pub prisma_status : String → Option (ℕ × String)
prisma_status c =
    if c == "P2002" || c == "P2003"
    then some (409, "conflict")
    else if c == "P2025"
    then some (404, "not_found")
    else if c == "P2023"
    then some (400, "bad_request")
    else if c == "P2028" || c == "P2024"
    then some (503, "service_unavailable")
    else none
