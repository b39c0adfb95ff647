-- ===== src/Problems/Tests.antt =====
-- Instances of the theorems on the bodies of errors, and runs of the filter and the hook.
use nestjs_fastify_nx.Common.{
  ℕ, String, ◌≡◌, refl, false, Option, none, some, [], ◌∷◌, ◌≤◌, ◌<◌, arith,
}
use nestjs_fastify_nx.Errors.{unavailable}
use nestjs_fastify_nx.Problems.Details.{
  Environment, ProblemDetailsBody, build_problem_details, checks_of, status_code,
}
use nestjs_fastify_nx.Problems.Exceptions.{Exception, domain, http, absent, body}
use nestjs_fastify_nx.Problems.Normalize.{
  Request, catch_exception, normalize_exception, translate_normalized, maybe_translate,
  extract_failing_health_checks,
}
use nestjs_fastify_nx.Problems.Hook.{
  Source, Payload, replaced, on_send, has_shape, as_checks, source_of,
}
use nestjs_fastify_nx.Problems.Masking.{masked, health_of, sent-masked}

abbrev plain_environment : Environment
plain_environment = record {
  reason_phrase = λ status. none;
  error_docs_base = "/errors";
  sanitize_url = λ url. url;
}

abbrev ready : Request
ready = record { url = "/health/ready"; request_id = some "r1" }

-- a probe with one dependency down
abbrev unhealthy : Exception
unhealthy = http (record {
  status = 503;
  response = body (record {
    status = some "error";
    error =
        some (record { name = "redis"; status = some "down"; message = some "ECONNREFUSED" } ∷ []);
    message = absent;
    message_key = none;
    title = none;
    code = none;
    errors = [];
  });
  message = "Service Unavailable Exception";
})

-- a storage failure
abbrev upload_failed : Exception
upload_failed = domain (record {
  kind = unavailable;
  code = "storage_upload_failed";
  title = "Upload failed";
  message_key = some "errors.storage.upload_failed";
  violations = [];
})

abbrev same_text : String → String
same_text s = s

abbrev sent : Exception → ProblemDetailsBody
sent e = catch_exception plain_environment same_text ready e

is_503 : (s : ℕ) → s ≡ 503 → (500 ≤ s) × (s < 600)
is_503 s e = (ground arith, ground arith)

unhealthy_503 : (sent unhealthy).status ≡ 503
unfolding catch_exception build_problem_details translate_normalized normalize_exception
    extract_failing_health_checks
unhealthy_503 = refl

sent-masked_example :
    on_send plain_environment ready
      (sent unhealthy).status
      false
      (some (source_of (sent unhealthy)))
    ≡ replaced
        (build_problem_details plain_environment (
          masked plain_environment ready
            (sent unhealthy).status
            "/health/ready"
            (as_checks (checks_of (health_of unhealthy)))))
        none
sent-masked_example =
    sent-masked plain_environment ready same_text unhealthy (is_503 _ unhealthy_503).0
      (is_503 _ unhealthy_503).1

abbrev stack_trace : Source
stack_trace = record {
  status = some 500;
  title = some "Error in /srv/app/main.js";
  type_url = some "about:blank";
  detail = some "at Object.<anonymous> (/srv/app/main.js:1:1)";
  code = some "E_SECRET";
  instance_url = none;
  error = none;
  message = none;
  errors = none;
  checks = none;
  retry_after = some 3;
}

-- The code of a storage failure does not reach the client.
upload_failed-code : (sent upload_failed).code ≡ "storage_upload_failed"
upload_failed-code =
    unfold catch_exception build_problem_details translate_normalized normalize_exception in refl

abbrev code_of : Payload → Option String
code_of (replaced b retry_after) = some b.code
code_of _ = none

upload_failed-sent :
    code_of (on_send plain_environment ready 503 false (some (source_of (sent upload_failed))))
    ≡ some "service_unavailable"
unfolding on_send has_shape catch_exception build_problem_details translate_normalized
    normalize_exception maybe_translate status_code
upload_failed-sent = refl
