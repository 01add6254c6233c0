-- ===== src/Lib.antt =====
-- The rules engine for transaction monitoring: a NestJS service that stores transactions, evaluates
-- each against an organization's rules and turns the events that fire into deduplicated alerts.
--
-- A request passes the guard (Http), a transaction is stored and evaluated (Transactions), the
-- engine takes the rules of the organization from the Redis cache or the database (Engine), each
-- rule with its effective configuration (Rules, Overrides, Templates), runs one engine per rule
-- with the operators and facts of the project, and each event becomes a message on the alerts
-- queue, whose consumer (Consumers) counts it on an alert or stores a new one (Alerts). Writes to
-- rules and overrides emit an event on which the cache forgets the organization's rules.
--
-- Files, by the source they model (paths from the repository's root):
--   Base            names of the libraries, Boolean tests, texts as code points, integers
--   Common/Value    JavaScript values as JSON configurations hold them
--   Common/Exec     methods that change a state and may throw; what a throw leaves stays
--   Common/Interleaving     two calls that run at the same time, as a relation of steps
--   Common/Repository, World    the database behind its repositories, Redis, and the trace of
--                   events, counters, queue messages and acknowledgements
--   Common/DeepMerge    src/common/utils/deep-merge.util.ts
--   Common/Pagination   src/common/interfaces/index.ts, src/common/dto/pagination-query.dto.ts
--   Entities        src/*/entities/*.entity.ts, src/alerts/dto/alert-event.message.ts
--   Organizations   src/organizations/organizations.service.ts
--   Templates       src/rule-templates/rule-templates.service.ts
--   Overrides       src/template-overrides/template-overrides.service.ts
--   Rules           src/rules/rules.service.ts
--   Lists           src/lists/lists.service.ts
--   Engine/Operators    src/engine/operators/*.ts
--   Engine/Facts    src/engine/facts/*.ts, with the count of an account (History)
--   Engine/RuleCache    src/engine/rule-cache.service.ts, with its start and stop (Lifecycle) and its
--                   reconnections (Retry)
--   Engine/Context, Engine/Service    src/engine/engine.service.ts, src/engine/interfaces,
--                   with a load beside a change of a rule in Engine/Service/Stale
--   Transactions    src/transactions/transactions.service.ts
--   Alerts/Number, Alerts/Calendar, Alerts/Window, Alerts/Query, Alerts/Service
--                   src/alerts/alerts.service.ts, with two calls that interleave in
--                   Alerts/Service/Race
--   Alerts/Actions  src/alerts/actions
--   Consumers       src/transactions/transactions.consumer.ts, src/alerts/alerts.consumer.ts, with a
--                   run of the alerts queue (Deliveries)
--   Http            src/common/guards, src/common/decorators, src/common/filters
--   Controllers     src/*/*.controller.ts, src/engine/dto/evaluate-transaction.dto.ts, with their
--                   routes (Routes)
--   Config          src/config, src/database/database.module.ts, src/database/data-source.ts
--   Migrations      src/database/migrations, against the columns of the entities (Conformance)
--   Startup         src/main.ts, src/app.module.ts, src/*/*.module.ts, the constructors of all classes
--                   (Classes, Injection), their metrics, and the messages of the queues (Messages)
--   Validation      the decorators of src/*/dto (Schemas) and of src/*/entities (Columns), and the pipe
--   Tenancy         the searches by id of these services, for an organization
--   Tests           the definitions and theorems at concrete inputs
-- A method keeps its name in snake case and its statements in their order. A method of a service is
-- a function into `Exec (World Db Redis) A`: from the state to a result or an error, and the state
-- that is left.
--
-- Parameters, since their code is not in the repository: TypeORM's repositories (the laws that the
-- theorems use are the record IsRepository), what TypeORM makes of `null` in a `where` object
-- (`null_matches`), ioredis (IsRedis, Connections), `Engine.run` of json-rules-engine (`run`, which
-- reads only), its almanac, the query builder's aggregate (Counts), `parseInt` of a setting and
-- `new Date` of a text, `validate` of uuid, ParseUUIDPipe of Nest, how Nest calls a guarded handler (IsNest), finds what a constructor asks
-- for (IsContainer) and hands a message to a listening method (IsServer), the router of Express
-- (IsRouter), the tests of class-validator and the pipe that applies them (IsClassValidator,
-- IsPipe), the health service, and what Postgres does with a statement of a migration
-- (IsPostgres, Undoes). That TypeORM runs pending migrations in the
-- order of their timestamps, and that ioredis waits as `retryStrategy` says, is written out.
--
-- Bounds: a number among JSON values is counted in units of 1/10000, which compares exactly what the
-- amount columns store; NaN and infinities occur in the arithmetic of a window only (Alerts/Number),
-- where a whole number is rounded as a double: its unit is a power of two up to 2^971, and what is
-- larger is Infinity. Times are milliseconds since 1970, and a
-- text that denotes no time is left out. The year of a day is searched with as many steps as there
-- are days since 1970, and a year has a day at least; a decimal text has as many steps as its number
-- and one. The pages of a query are numbered from 1 and its limit is positive, as its validation
-- demands. A value that the source casts to a text stands as "" where it is none. Upper case is that
-- of the letters a to z.
--
-- Not modelled: logging, measured durations and time stamps of responses; what the pipe converts, and
-- its tests of the nested body that the engine is posted; the texts of the API documentation and of
-- the metrics' help; keys of objects that look like array indices or are `__proto__`; the identity of
-- two arrays or objects under `===`; the joined entities that `relations` loads; the summer time
-- that `setDate` sees in the local zone. Each call runs to its end before the next, but in
-- Alerts/Service/Race, where the calls of two alert events interleave between the search and the
-- `save` behind it, and in Engine/Service/Stale, where a load of rules and a change of one do.
pub mod Base
pub mod Common
pub mod Entities
pub mod World
pub mod Engine
pub mod Templates
pub mod Overrides
pub mod Rules
pub mod Migrations
pub mod Organizations
pub mod Lists
pub mod Alerts
pub mod Transactions
pub mod Config
pub mod Consumers
pub mod Controllers
pub mod Http
pub mod Startup
pub mod Validation
pub mod Tenancy
mod Tests
