-- ===== src/Lib.antt =====
-- Verification of omnibase: a server that gives agents guarded access to databases.
--
-- A request of an agent reaches a tool handler. The handler looks its connection up in the
-- configuration, checks the statement (several statements, security rules, the level of the
-- connection, protected tables), and sends it through the connection manager to the sidecar, a
-- process that holds the drivers. Custom tools are templates of statements with parameters, run by
-- themselves, as the steps of a transaction, or composed into pipelines. Each file models one part:
--
-- - Types: src/types.ts. Values: the values of JavaScript that pass through untyped. Text and
--   Collections: texts as UTF-16 units, Map and Set as lists in insertion order.
-- - Exec: asynchronous methods as functions from a state to a result and a state; what was written
--   before an exception stays. Exec.Pure: code that only throws.
-- - Analyzer: src/query-analyzer.ts (`classifyQuery`, `isMultiStatement`). Permission:
--   src/permission-enforcer.ts. Security: `checkSqlSecurity` of src/tools/execute-sql.ts.
-- - Config: `getConnection` of src/config.ts; Config.Raw and Config.Parse: `parseConfig`;
--   Config.Path: `resolveConfigPath`. Session: the state that handlers share, and the database behind
--   the sidecar. Manager: src/connection-manager.ts, with the waiting for transaction locks in
--   Manager.Locks, and first uses of a connection that overlap in Manager.Overlap.
-- - ExecuteSql: `handleExecuteSql` of src/tools/execute-sql.ts; its checks are in Checks.
-- - Formatter: src/output-formatter.ts. Browse: the handlers of src/tools that show a schema.
-- - Template, Parameters and Expander: the placeholders and references of templates, from
--   src/custom-tools.ts and src/compose-expander.ts.
-- - Tools: the rest of src/custom-tools.ts. Validation and Cycles model `validateCustomTools`,
--   SingleSql a tool with one template, Prepare, TempTables and Steps one with several steps, behind the
--   lock of its connection in Steps.Locked. PipelineStep and Compose a tool composed of others.
-- - Relationships, Sampling and Explain: the handlers of src/tools for foreign keys, for samples,
--   distinct values and statistics (with src/sql-dialect.ts), and for plans. Validator:
--   src/tools/validate-query.ts, its regular expressions as backtracking patterns.
-- - Audit: src/audit-logger.ts; its file is refined by a list of lines in Audit.History.
-- - Hints: src/schema-hint-manager.ts.
-- - Sidecar: src/sidecar-client.ts; its events are a step relation in Sidecar.Requests, and the
--   fields of its requests and answers are in Sidecar.Answers.
-- - Watcher: src/config-watcher.ts. Updates: src/update-checker.ts. Server: the callbacks of
--   src/index.ts, those that audit the calls for samples, distinct values and statistics, and in
--   Server.Plain those that only answer; Server.History has query_history.
-- - Prelude: shared helpers. Tests: concrete inputs.
--
-- Parameters of the model: the SQL parser (`astify`, whose `none` is an exception), the conversions
-- `String(v)` and `Number(v)` (`host`), the database (`backend`, a record of actions on a world of its
-- own), the callback of `setOnSchemaFetched`, the JSON parser of the sidecar client (`parse`), the
-- files and `JSON` of the audit log (`disk` and `host`), the environment (`env`), the sorting orders of
-- names (`sorting`), the arithmetic of statistics (`arithmetic`), the cache, the clock and the
-- network of the update check (`deps`), and the paths of the host (Config.Path).
--
-- Numbers are natural numbers, but for the limits of samples, which are integers; case is mapped for
-- the ASCII letters only. The search for circular compositions runs on fuel, one more than the number
-- of tools that refer to others, and so does the run of a composed tool; both are proved to be enough.
-- The printing of a number runs on fuel that its value gives. All else is structural.
-- A session belongs to one run, which is not interleaved with others but in Manager.Locks,
-- Manager.Overlap and Sidecar.Requests: a run that finds the lock of its connection held waits for
-- ever, and has no outcome. A name that Object.prototype defines counts as missing in a map.
--
-- Not modelled: the reading of configuration files and of YAML, the network and the cache file of the
-- update check, the command line, the registration of tools by the server, the installation scripts
-- and the sidecar itself, which are input and output or another language.
pub mod Prelude
pub mod Text
pub mod Collections
pub mod Validator
pub mod Watcher
pub mod Updates
pub mod Server
pub mod Values
pub mod Audit
pub mod Relationships
pub mod Sampling
pub mod Types
pub mod Exec
pub mod Permission
pub mod Analyzer
pub mod Security
pub mod Config
pub mod Explain
pub mod Formatter
pub mod Session
pub mod Hints
pub mod Manager
pub mod ExecuteSql
pub mod Template
pub mod Parameters
pub mod Expander
pub mod Tools
pub mod Sidecar
pub mod Browse
pub mod Tests
