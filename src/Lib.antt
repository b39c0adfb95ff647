-- ===== src/Lib.antt =====
-- A verification library for the NestJS and Fastify monorepo of this repository. It models the parts
-- that decide and that keep state: who may do what, by session or by API key; what becomes of an
-- uploaded file and of the object that holds it; how events leave the database; what a client learns of
-- an error; and how requests, replicas and tasks that compete for one key, one lease or one slot
-- exclude each other.
--
-- Errors: business failures as values (libs/core/src/lib/errors/domain.exception.ts and
--   libs/contracts/src/lib/errors/field-problem.ts). A Failure is a DomainException or any other error.
-- Exec: an asynchronous method as a function from a state to a result and a state; what was written
--   before a throw stays written. Exec.Rules has the rules by which every action of this kind is
--   shown to relate states (Moves) or to ensure a result (Ensures), and Exec.Triples those by which it
--   takes a property of states to properties of values and of failures (Triple).
-- Authorization.Permissions: libs/shared/src/lib/permissions.ts.
-- Authorization.Policy: libs/infra/authorization/src/lib/access-policy.ts; decide is one round of
--   decideAccess.
-- Authorization.Adapter: base-authorization.adapter.ts and postgres-pbac.adapter.ts there, over the
--   tables member and organization_roles.
-- Authorization.Guard: permission.guard.ts there and libs/infra/auth/src/lib/require-organization.ts.
-- Upload.StoredFile, Upload.Repository: libs/modules/upload/src/domain/entities/stored-file.entity.ts,
--   libs/shared/src/lib/file-signature.ts, and the Prisma repository over the table stored_files,
--   where every query is one atomic step.
-- Upload.Ports, Upload.Publication, Upload.Confirm, Upload.Verify, Upload.Access: the handlers of
--   libs/modules/upload/src/application. Storage, scanner, queue and id generator are a record of
--   actions on the whole world, so that what other executions do while one is awaited belongs to the
--   action; a theorem that needs something of them has it as a hypothesis (PortsKeep, PortsMove).
--   Upload.Writes tells what a handler writes by itself from what happens meanwhile.
-- Outbox.Table, Outbox.Relay: libs/infra/messaging/src/lib/outbox-relay.service.ts over the table
--   outbox_events. The connection, the event bus, the envelope schema, row locks, the order of RETURNING and the
--   interleaving of the dispatch workers are parameters.
-- Idempotency.Store, Idempotency.Plugin: apps/api/src/common/idempotency, for the requests that share one
--   key; Idempotency.History has their steps, in any order. A key may expire at any time, which the
--   system records.
-- Redis.Lease: libs/infra/redis/src/lib/redis-leader-lease.ts, for many replicas over one key; a command,
--   its execution and its reply are separate steps.
-- Websocket.Limiter: the limiter of apps/api/src/websocket/bounded-concurrency.ts.
-- ApiKeys.Entity, ApiKeys.Handlers, ApiKeys.KeyGuard: libs/modules/api-keys/src,
--   libs/infra/auth/src/lib/api-key.guard.ts and libs/shared/src/lib/api-key.ts; the hash is a parameter.
-- FeatureFlags.Flag: libs/modules/feature-flags/src/domain/entities/feature-flag.entity.ts; the digest is
--   a parameter.
-- Organizations.Role, Organizations.Roles, Organizations.Team, Organizations.Teams:
--   libs/modules/organizations/src, custom roles and teams; the roles are those that the authorization
--   adapter reads, through Roles.database_of.
-- Pagination.Keyset: libs/shared/src/lib/cursor-pagination.ts, and the query of the repositories that page;
--   the database's order of ids and the locale's are parameters.
-- Scheduler.Files, Scheduler.Cleanup: apps/scheduler/src/app/tasks/stored-file-cleanup.task.ts; which
--   queries reject is told by the world in advance, and the storage is a parameter.
-- Problems.Details, Problems.Exceptions, Problems.Normalize, Problems.Hook: the files of
--   apps/api/src/common/filters but the GraphQL branch; exceptions come as what the filter can tell of them. Translation, Node's reason
--   phrases, the base of type URLs and sanitizeUrlForLogging are parameters.
-- Storage.Paths, Storage.Signing, Storage.Disk, Storage.Local, Storage.Adapter:
--   libs/infra/storage/src/lib/local-storage.adapter.ts, over the calls of Node's file system, each of
--   which can fail without effect. One operation runs at a time; HMAC, SHA-256, generated ids and
--   the conversion of texts to numbers are parameters.
--
-- The upload handlers use the policy through Upload.Access, which asks Authorization.Adapter; the guard
-- asks the same adapter through its port.
--
-- No function runs on fuel, but for the digits of an array index in Authorization.Permissions and of the
-- decimal texts in Storage.Signing, whose fuel is at least their number of digits. Numbers are natural numbers:
-- counts, sizes and milliseconds stay far below the range in which a double is exact. Texts are
-- sequences of characters.
-- Log lines and metrics are left out, and but for Problems the titles and messages of errors; so are timers, connections and
-- tenant context. A query that rejects is modelled where a handler catches it.
--
-- Not modelled: the glue over Better Auth, S3, BullMQ, socket.io and GraphQL; module wiring, generated code
-- and migrations; terms, notifications, sessions, users and the audit log but for its pages; and the
-- scheduler's tasks that do not reclaim files.
pub mod ApiKeys
pub mod Authorization
pub mod Common
pub mod Errors
pub mod Exec
pub mod FeatureFlags
pub mod Idempotency
pub mod Organizations
pub mod Outbox
pub mod Pagination
pub mod Problems
pub mod Redis
pub mod Scheduler
pub mod Storage
pub mod Upload
pub mod Websocket
