-- ===== src/Lib.antt =====
-- microJBase: a data API over PostgreSQL tables with row security, and a schema administration that
-- compiles typed commands to DDL. This library models the parts that decide: what a request may
-- write, what SQL is rendered, which tables are exposed, how often a client may call, how an
-- operation is recorded, and what an error says.
--
-- The parts and how they interact:
-- Base: shared names. Texts are lists of UTF-16 code units; `Result` stands for code that throws;
--   `Number` is a JavaScript number as far as the program tells numbers apart.
-- Errors: src/core/errors.ts, src/data/errors.ts, src/auth/errors.ts. Every other part throws
--   these errors.
-- Platform: what the code calls of JavaScript and Node and does not implement (case mapping,
--   printing of numbers, hashes), as parameters.
-- RateLimiter: src/http/rate-limiter.ts. `check`, `insert`, `evict_expired` and `evict_oldest` are
--   the methods of the same names; the `Map` is the list of its entries in insertion order, and the
--   clock is an argument. Entries, Eviction, Bounds and Window hold the proofs.
-- Data.Values and Data.Validate: src/data/validate.ts. Objects live on a heap, because
--   `isJsonValue` compares them by identity. Its loop runs on fuel, one round for each value that the
--   objects of the heap hold and two more, which is enough (Data/Values/Fuel.antt).
-- Data.Service: src/data/service.ts over a registry and a repository (src/contracts/data.ts) that
--   are parameters; a call changes the repository's state and returns or throws.
-- Ddl: src/database/schema-ddl.ts. Identifiers and Defaults render names and default values; Plans,
--   Compile, Constraints and Privileges are the builders, which take the fields of a spec as
--   arguments; Lexing says what closed SQL text is; Rendering, Safety, Names,
--   Refusals and Guarded hold the proofs. A closed command has its quotes closed and no semicolon between them; comments and dollar
--   quotes are not read, so that the guards written in DO blocks are outside of these theorems.
-- Faults: the translation of thrown values in src/database/pool.ts, src/database/data-repository.ts
--   and src/database/schema-ddl.ts.
-- Tables: src/database/table-registry.ts and src/database/table-types.ts. The answers of the
--   catalogue are a parameter, the record `Catalogue`, each of which may also throw.
-- OperationLog: src/database/schema-operation-log.ts. The table of the database is explicit state;
--   before each query the schedule lets other sessions change the table or the query throw. A row
--   has the types of the table's columns, and no timestamps. The loop of `classifyExisting` makes its
--   four attempts by recursion on their number.
-- Executor: the executor of plans in src/database/schema-ddl.ts, over the operation log and a session of the
--   database. The statements of a plan act on data of any type, and a list of fates says which queries fail, or
--   have their effect while their answer is lost. Steps, Posts, Applied, Phases, Atomic, Executions and Outcomes
--   hold the proofs.
-- Transactions: src/database/transaction.ts and the pool of src/database/pool.ts, with the identity of each
--   client; again over data of any type and a list of fates. Runs, Isolation and Kept hold the proofs.
-- Auth: src/auth and src/database/auth-repository.ts. Email, Tokens (with src/http/bearer.ts), Service and
--   Repository model the files; Accounts joins the service, the repository and the transactions. The hashes, the
--   password check, base64url and random bytes are parameters, the record `Crypto`.
-- Exposure: src/database/exposure-registry.ts; Import holds importInitialExposure and the SQL function of
--   migrations/0006_exposure_registry.sql; Payload, Sets, Imported, Names, Agreed and Adopted hold the proofs. As in OperationLog, a schedule lets other sessions change the tables
--   before each query, or the query fail.
-- Config: src/core/config.ts; Mappings holds parseTableMappings, Start holds parseConfig, and Registry the second
--   parser of src/database/table-registry.ts. URLs are parsed by a parameter.
-- Records: Values is src/database/table-types.ts with rowToJson, Methods is src/database/data-repository.ts with
--   src/database/identifier.ts. Every method runs in a transaction of Transactions; what the database answers to
--   a statement is a parameter.
-- Fixtures and the modules Tests: test data, and the theorems at concrete inputs.
--
-- Recursion is structural but for the fuel of `isJsonValue`, which is said above.
--
-- Not modelled: the services of the schema administration (mutations, constraints, exposure, row security,
-- policies), the catalogue reader and its snapshots, the checks of roles, the lifecycle, the HTTP routes and the
-- redaction of logged configurations; the driver, Fastify and the browser code are not the program's own logic.
-- Numbers other than integers are not told apart beyond what the program tests.
pub mod Base
pub mod Errors
pub mod Data
pub mod Platform
pub mod Ddl
pub mod RateLimiter
pub mod Faults
pub mod Tables
pub mod OperationLog
mod Fixtures
pub mod Executor
pub mod Transactions
pub mod Auth
pub mod Exposure
pub mod Config
pub mod Records
