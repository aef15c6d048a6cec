-- ===== src/Lib.antt =====
-- A model of the decision-making core of ChainPort: what plans a migration, judges the
-- compatibility of a project with a target chain, moves the runs through their states and guards a
-- deployment. Each part is a translation of the TypeScript functions of the same names.
--
-- Shared.Enums and Shared.Json stand for the closed sets and the JSON values of
-- packages/shared/src/enums.ts and json.ts.
--
-- Compatibility is packages/compatibility/src. A report (Compatibility.Engine.evaluate_compatibility)
-- collects the findings of a table of rules, drops repeated ones, scores the rest
-- (Compatibility.Scoring) and sums them up in a readiness (Compatibility.Readiness). The single rules,
-- the requirements to skip and the snapshot's hash are parameters here. Weights are hundredths and
-- category scores thousandths, since the source rounds to these; a quotient is the exact one, rounded
-- half up, so an error of binary floating point next to a half is left out.
--
-- Migration is packages/migration/src. Its findings become drafts by the eleven rules
-- (Migration.Rules), drafts of one key are merged (Migration.Dedupe), the actions are put in display
-- order and dependency order (Migration.Ordering, Migration.Dependencies) and counted to an outcome
-- (Migration.Status); Migration.Engine.create_migration_plan composes these. The comparison of keys
-- by locale is a parameter, and so is RegExp on the key of the target chain: a field of the context,
-- which gives the test of a pattern, or none for a pattern that it throws a SyntaxError on. The loop of topologicalOrder runs on fuel, one round for each key: a round
-- takes a key off the queue, and no key enters it twice.
--
-- Lifecycle is packages/shared/src/*-transitions.ts: the transition tables of jobs, analyses,
-- compatibility runs, plans, change sets, validations and deployments, with the chains of allowed
-- transitions (Lifecycle.Paths).
--
-- Deployment is packages/deployment/src: the eligibility of a run (Deployment.Eligibility), which
-- reads the plan's counts and the states of the validation and the change set, the target chain
-- (Deployment.Target), the limits of a preflight (Deployment.Policy), the checks after a deployment
-- (Deployment.Checks), the errors (Deployment.Errors, Deployment.Messages), and the RPC proxy between
-- the deployment script and the chain (Deployment.Proxy). The proxy's handler is cut at its awaits, up
-- to the wait for the body, for the journal and for the upstream; Deployment.Proxy.Server lets the
-- steps of its requests follow one another in any order. The body, JSON.parse, the disk and the answer
-- of the upstream are parameters of a step, and a line is appended to the journal whole or not at all.
-- Amounts in wei and gas are whole numbers without a bound, as bigint is.
--
-- Database is packages/db/src/deployment-repository.ts: the rows of one run (Database.Models), its
-- status with the events, its candidates and checks (Database.Deployments), and its transactions and
-- contracts (Database.Transactions). A database transaction is one step; that a row with a foreign key
-- exists, and the failures of the database itself, are left out.
--
-- Worker is apps/worker/src/deployment-processor.ts: the jobs that prepare (Worker.Prepare), broadcast
-- (Worker.Broadcast) and reconcile (Worker.Confirm) a deployment, and confirm, cancel and reconcile of
-- apps/api/src/deployment-service.ts (Worker.Service). A job is code over a World, which holds the
-- rows, the live credential and the commands that the sandbox was given; it returns or throws, and
-- what it wrote before a throw stays written (Prelude.Actions). What the chain, the files, the sandbox
-- and the other tables answer is a record of parameters (Worker.Externals), one answer for each
-- question of a job; what a job cleans up at its end (sandbox, proxy, workspace) and its log lines are
-- left out. Jobs and requests of one deployment come one after the other. Worker.Audit follows the
-- status events through every step of a job by triples of what holds before, after a return and after
-- a throw.
--
-- Ecosystem is the funnel of packages/ecosystem/src/funnel.ts: the highest stage of a project by its
-- flags, and the projects that reached each stage.
--
-- Auth is packages/auth/src/policy.ts, who may access a project or a partner, and Validation is
-- packages/validation/src/compare.ts, the comparison of the validations of two revisions.
--
-- Not modelled: the other tables, the queues, HTTP routes and the user interface, which are I/O; the
-- scanner's detectors, which are regular expressions over source files; the single compatibility
-- rules, the patchers, the chain catalog and the queries of the analytics; the polling of receipts and
-- the parsing of forge output, which are parameters of the jobs.
pub mod Prelude
pub mod Shared
pub mod Lifecycle
pub mod Migration
pub mod Compatibility
pub mod Deployment
pub mod Ecosystem
pub mod Database
pub mod Worker
pub mod Auth
pub mod Validation
