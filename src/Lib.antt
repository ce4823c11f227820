-- ===== src/Lib.antt =====
-- Verification library of Agent Pipeline V3 (`apv`), a command line tool that drives a spec through an
-- execution: tasks in waves, integrations, reviews, gates and delivery.
--
-- The parts. `src/run/state.ts` keeps the state of one execution, a JSON file that `apv run start`
-- creates and that `apv run set`, `pause`, `resume` and `gates run --reason` move; `apv run next` reads
-- it, with what Git says of the repository, to say what to do. `src/engine/scheduler.ts` runs the gates
-- (the checks of a project) that `src/gates/run.ts` selects, several at once, after their dependencies.
-- `src/lock/store.ts` keeps the locks of shared resources, files that several processes create, extend
-- and remove. `src/policy` decides which files a task may change, how much assurance a change needs and
-- which gates run. `src/db` rebuilds the schema of a database from its SQL migrations, for `apv db
-- check`: the tokens, the statements, and a model of tables, keys, indexes, policies, functions and grants that the
-- statements change one after the other. The commands of `src/commands` parse the command line around them.
--
-- The files.
--   Base: tests, lists, texts (a string is the list of its UTF-16 code units), results of fallible code
--     and objects as association lists in the order of their insertion.
--   Run/State: the records of the schemas of src/run/state.ts, and TRANSITIONS.
--   Run/Target: parseTarget, targetName. Run/Schema: the errors and `parseState` (src/domain/schema.ts).
--   Run/Check, Run/Set: applySet, its checks (`check_set`) and its writes (`set_state`).
--   Run/Pause: currentStep, applyPause, applyResume, applyFullSuiteOverride.
--   Run/Waves: computeWaves, computeFoundations, splitWave. Run/Create: createRunState, and `Reach`,
--     the states that an execution can reach by calls that succeed.
--   Run/Readiness, Run/Next: integrationCheck, computeNext. The probe of Git is a parameter, any functions at all.
--   Scheduler: the variables of `schedule` as a `Queue`, its sweep over the pending gates, the callbacks
--     of a promise (`receive`, `fail`, then `release`), its result. Scheduler/Steps: the steps in any
--     order. A sweep may come at any time, which includes the times at which the source wakes up.
--   Lock: the file of one lock on a `Disk`, and LockStore's read, staleness, tryAcquire, renew and
--     release. `Others` is what the other processes make of the disk between the calls of a tryAcquire.
--     JSON.stringify, and JSON.parse with the checks of parseRecord, are the parameters `print` and
--     `parse`. Which processes run is a parameter. A critical section of `withMutex` is one step: a mutex
--     is broken only when a section lasts more than ten seconds. The time of a lease is a whole number of
--     seconds, where parseDuration allows fractions.
--   Db/Tokenizer, Db/Statements: tokenize and splitStatements of src/db/tokenizer.ts. `pass` is one pass of
--     the loop of tokenize on the text that is left. Db/Tokenizer/Shapes describes, apart from the code,
--     comments, white space and texts that are not closed, and `Reads` what the tokens of a text are.
--   Db/Model: src/db/model.ts. Db/Cursor, Db/Elements: the cursor of src/db/parser.ts as the tokens that
--     are left, and the lists between commas. Db/Tables, Db/Constraints, Db/Alter, Db/AlterTable,
--     Db/Indexes, Db/Policies, Db/Functions, Db/Routines, Db/Grants: the methods of MigrationParser, on a
--     `SchemaModel` that each takes and gives back. An empty schema in quotes is no schema for resolveTable, as in the source. Db/Parser: statement, parseFile, parseMigrations.
--     Db/Loops: the `while (!c.atEnd())` loops.
--   Policy/Glob: validRelativePath and matches of src/policy/policy.ts. Policy/Scope: scopeReport,
--     assertScope, classify and requiredApprovals. Policy/Dag: validateDag, which src/policy applies to the
--     gates before src/engine/scheduler.ts runs them.
--   Run/Journal, Run/Invariant: the journal read back, and the invariant of a state.
--
-- Conventions. An instant is a number of milliseconds since 1970, `null` and absent fields are `none`,
-- an exception is an `err`. The bounds of the schema are written out where a state is parsed, so that
-- no number of a state passes them. The recursion of computeWaves runs on fuel, one more than the
-- number of tasks, which bounds the nesting of its visits. A pass of tokenize
-- goes over a character at least, so that its loop is given as many passes as the text has characters; a
-- pass of a loop of the parser consumes a token. A method that throws gives the error with the model
-- that it leaves. The regular expression of dropColumn, the Unicode tables and toLowerCase are parameters.
--
-- Not modelled: the sentences worded for a human, the reading and writing of files, Git, processes,
-- longestChain, and the migration of a state of version 1. Integer-like keys, which JavaScript enumerates first, keep
-- here the order of their insertion.
pub mod Base
pub mod Run
pub mod Scheduler
pub mod Lock
pub mod Db
pub mod Policy
