-- ===== src/Problems/Masking.antt =====
-- What a client learns of a server error.
use nestjs_fastify_nx.Common.{
  ℕ, ◌≤◌, ◌<◌, String, ◌≡◌, refl, ◌∙◌, Bool, true, false, ◌&&◌, Option, none, some, List, [], ◌∷◌,
  arith, Bool-cases, inl, inr, leb, ltb, eqb, is_some, or_else,
}
use nestjs_fastify_nx.Problems.Details.{
  HealthCheck, ValidationErrorItem, ProblemDetailsArgs, ProblemDetailsBody, Environment,
  status_title, status_code, build_problem_details, checks_of,
}
use nestjs_fastify_nx.Problems.Exceptions.{
  Exception, domain, http, object, primitive, ErrorFields, Response, written, body, ResponseBody,
  is_fastify_level_error, is_prisma_known_error, is_prisma_error, prisma_status,
}
use nestjs_fastify_nx.Problems.Normalize.{
  Request, normalize_exception, normalize_object, normalize_fastify, normalize_response, structured,
  normalize_body, with_errors, mapped, unmapped, translate_normalized, catch_exception,
  extract_failing_health_checks,
}
use nestjs_fastify_nx.Problems.Hook.{
  Source, Payload, unchanged, replaced, has_shape, on_send, as_checks, source_of,
}

-- The body of a server error, made of its status and the states of dependencies.
abbrev pub masked :
    Environment → Request → ℕ → String → Option (List HealthCheck) → ProblemDetailsArgs
masked env request status url checks = record {
  status = status;
  title = status_title env status;
  detail = some (status_title env status);
  code = status_code status;
  instance_url = url;
  request_id = request.request_id;
  errors = none;
  checks = checks;
}

-- A body that tells nothing of a server error but its title, and no time to wait.
pub IsMasked : ℕ → Payload → Type 0
IsMasked status unchanged = ⊥
IsMasked status (replaced b retry_after) =
    (b.status ≡ status) × (b.detail ≡ some b.title) × (b.errors ≡ none) × (retry_after ≡ none)

abbrev checks_in : Response → Option (List HealthCheck)
checks_in (written s) = none
checks_in (body res) = extract_failing_health_checks res

-- The failing dependencies that a health probe reports.
abbrev pub health_of : Exception → Option (List HealthCheck)
health_of (domain e) = none
health_of (object e) = none
health_of primitive = none
health_of (http e) = checks_in e.response

module _ (env : Environment) (request : Request) where
  -- Whatever body the filter sent under the status of a server error, the hook masks it.
  shape-masked :
      (b : ProblemDetailsBody)
      → 500 ≤ b.status
      → b.status < 600
      → on_send env request b.status false (some (source_of b))
        ≡ replaced
            (build_problem_details env
              (masked env request b.status (env.sanitize_url b.instance_url) (as_checks b.checks)))
            none
  unfolding on_send has_shape
  shape-masked b h k =
      rw (below-400 b.status h, within b.status h k, same b.status, server b.status h) refl
    where
      below-400 : (s : ℕ) → 500 ≤ s → ltb s 400 ≡ false
      below-400 s h = ground arith

      within : (s : ℕ) → 500 ≤ s → s < 600 → (leb 400 s && ltb s 600) ≡ true
      within s h k = ground arith

      same : (s : ℕ) → eqb s s ≡ true
      same s = ground arith

      server : (s : ℕ) → 500 ≤ s → leb 500 s ≡ true
      server s h = ground arith

  unmapped-checks : (e : ErrorFields) → (unmapped env e).checks ≡ none
  unmapped-checks e = elim (Bool-cases (is_prisma_error e)) [
    | inl h ↦ rw (h) refl
    | inr h ↦ rw (h) refl
  ]

  mapped-checks : (e : ErrorFields) (m : Option (ℕ × String)) → (mapped env e m).checks ≡ none
  mapped-checks e none = unmapped-checks e
  mapped-checks e (some (status, code)) = refl

  object-checks : (e : ErrorFields) → (normalize_object env e).checks ≡ none
  unfolding normalize_object normalize_fastify
  object-checks e = elim (Bool-cases (is_fastify_level_error e)) [
    | inl h ↦ rw (h) refl
    | inr h ↦ elim (Bool-cases (is_prisma_known_error e)) [
      | inl k ↦ rw (h, k) (mapped-checks e (prisma_status (or_else e.code "")))
      | inr k ↦ rw (h, k) (unmapped-checks e)
    ]
  ]

  errors-checks :
      (status : ℕ) (res : ResponseBody) (message title code : String)
      (items : List ValidationErrorItem)
      → (with_errors env status res message title code items).checks ≡ none
  errors-checks status res message title code [] = refl
  errors-checks status res message title code (item ∷ items) = refl

  body-checks :
      (status : ℕ) (res : ResponseBody) (message : String)
      → (normalize_body env status res message).checks ≡ none
  unfolding normalize_body
  body-checks status res message =
      errors-checks status res message (or_else res.title (status_title env status))
        (or_else res.code (status_code status)) res.errors

  structured-checks :
      (status : ℕ) (res : ResponseBody) (message : String) (checks : Option (List HealthCheck))
      → (structured env status res message checks).checks ≡ checks
  structured-checks status res message (some checks) = refl
  structured-checks status res message none = elim (Bool-cases (leb 500 status)) [
    | inl h ↦ rw (h) refl
    | inr h ↦ rw (h) (body-checks status res message)
  ]

  response-checks :
      (status : ℕ) (r : Response) (message : String)
      → (normalize_response env status r message).checks ≡ checks_in r
  response-checks status (written s) message = refl
  response-checks status (body res) message =
      structured-checks status res message (extract_failing_health_checks res)

  exception-checks : (e : Exception) → (normalize_exception env e).checks ≡ health_of e
  unfolding normalize_exception
  exception-checks (domain e) = refl
  exception-checks (object e) = object-checks e
  exception-checks primitive = refl
  exception-checks (http e) = response-checks e.status e.response e.message

  caught-checks :
      (translate : String → String) (e : Exception)
      → (catch_exception env translate request e).checks
        ≡ checks_of (normalize_exception env e).checks
  unfolding catch_exception build_problem_details translate_normalized
  caught-checks translate e = refl

  caught-url :
      (translate : String → String) (e : Exception)
      → (catch_exception env translate request e).instance_url ≡ env.sanitize_url request.url
  unfolding catch_exception build_problem_details
  caught-url translate e = refl

  -- Where the filter answers an exception with a status from 500 to 599, what is sent after the hook is
  -- built from the status, the request and, for an HttpException, the names and states of the failing
  -- checks of its response alone: the code is that of the status, not the exception's own.
  pub sent-masked :
      (translate : String → String) (e : Exception)
      → 500 ≤ (catch_exception env translate request e).status
      → (catch_exception env translate request e).status < 600
      → on_send env request
          (catch_exception env translate request e).status
          false
          (some (source_of (catch_exception env translate request e)))
        ≡ replaced
            (build_problem_details env (
              masked env request
                (catch_exception env translate request e).status
                (env.sanitize_url (env.sanitize_url request.url))
                (as_checks (checks_of (health_of e)))))
            none
  sent-masked translate e h k =
      shape-masked (catch_exception env translate request e) h k
      ∙ rw (caught-url translate e, caught-checks translate e, exception-checks e) refl

  below-400 : (s : ℕ) → 500 ≤ s → ltb s 400 ≡ false
  below-400 s h = ground arith

  server : (s : ℕ) → 500 ≤ s → leb 500 s ≡ true
  server s h = ground arith

  -- Under a status of 500 or more, and unless the payload of the GraphQL route has `errors`, the hook
  -- replaces every parsed payload by a body with that status, its title as its detail, no validation
  -- errors and no `retryAfter`.
  pub on_send-IsMasked :
      (status : ℕ) (is_graphql : Bool) (source : Source)
      → 500 ≤ status
      → (is_graphql && is_some source.errors) ≡ false
      → IsMasked status (on_send env request status is_graphql (some source))
  unfolding on_send build_problem_details IsMasked
  on_send-IsMasked status is_graphql source h k = elim (Bool-cases (has_shape status source)) [
    | inl shape ↦ rw (below-400 status h, k, shape, server status h) (refl, refl, refl, refl)
    | inr other ↦ rw (below-400 status h, k, other, server status h) (refl, refl, refl, refl)
  ]
