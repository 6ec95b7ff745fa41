-- ===== src/Lib.antt =====
-- Next Level Agent: a plugin of OpenCode that hands the tasks of a session to pooled models. This
-- library models the plugin's own logic, the .mjs files under .opencode/plugins/, and the frames of the
-- companion server. Paths are from the root of the repository; `nla-x` stands for
-- .opencode/plugins/nla-x.mjs.
--
-- How the parts interact. A file of pools (Pools) says which models a role may use. For a task, the
-- assessor makes preferences, and the selection ranks the models of the pool that may be tried
-- (Selection), from their measured scores (Evaluations) and their health (Health). A model is claimed,
-- run, and released with what happened, in the loop over utility models (Utility) or as a child, whose
-- incomplete reply is completed once (Child). The tools that a role gets are a shortlist of a model,
-- bounded by rules and cached (Tools). Work in the browser is kept in a durable store of tasks with one
-- claim each (Recovery). The ledger of a session is normalized when it is saved, and compacted by a
-- model whose answer is checked (Memory); it is compared with the git workspace (Workspace). The
-- brainstorm companion talks to the page by WebSocket frames (Companion). What lasts is in one database
-- (System): the settings and orchestras that the selection starts from, the registry with the facts of
-- the models, their scores and health, the accounting of the calls, the ledgers, and the sessions that
-- are blocked.
--
-- Which file models what:
--   Base        shared names, tests on numbers, texts, `Map`, `Set`, `sort`, and results that may be errors
--   Health      nla-model-health: Classify is `classifyProviderError`, Manager the `ModelHealthManager`
--               whose map of entries is the state; the other files are theorems on its calls
--   Utility     nla-utility-runtime: Config, Response, and in Runtime the loop of `runUtilityModel`
--   Selection   nla-model-selection (Policy, Pool, Rank, Candidates) and nla-task-assessor (Assess,
--               Refine); the other files are theorems on the rankings and the pools
--   Evaluations nla-model-evaluations: Scores has the means, Records the store that is on disk
--   Tools       nla-prompt-optimizer (Roles, Shortlist) and nla-capability-cache (Profile)
--   Pools       nla-model-pools: Binding is `parseModelBinding`, File the validation, Loaded the pools
--               that are read and their preflight
--   Child       nla-child-recovery: Resume is `recoverChildResult`
--   Memory      nla-memory (Ledger: `normalizeLedger`) and nla-compaction (Compaction:
--               `intelligentCheckpoint`)
--   Recovery    nla-browser-recovery: Contract, Store and Validate are the data and `validateStore`;
--               Tasks is `transaction` with begin, claim and release; Finalize is
--               `createBrowserRecovery`; Reads are the readers; Calls are sequences of calls
--   Workspace   nla-reconciliation: Status is `changedFiles`, State `reconcileWorkState`
--   Companion   skills/brainstorming/scripts/server.cjs: the coding of frames
--   System      nla-system-database: Tables and Database are the tables, transactions and migration;
--               Settings, Preferences, Orchestras, Usage, Registry, Listing, Sync, Runtime, Sessions and
--               Models the functions on them, Json `assertNoSecrets`; the other files are theorems
--
-- How the code is modelled. Objects with a known shape are records, a missing or null field is `none`,
-- and a function that throws returns a `Result`. Values are those that pass the tests of types (`typeof`,
-- `Array.isArray`) in the source. State is passed explicitly: the entries of the health manager, the
-- disk with the store of the browser tasks, the tables of the database. A table is a dictionary by its
-- primary key, an SQL statement what it does to the table, and a transaction gives the database from
-- before when its callback throws, as ROLLBACK of SQLite does. The compactor's ledger comes with the
-- objective fields that it has as its own. Asynchronous loops take what the outside does in each step as
-- arguments (a `Turn` of Utility, a `Course` of Child). All recursion is structural, so no definition
-- needs fuel. Time, random ids and tokens are arguments. Scores and costs are in hundredths and means
-- of scores are exact fractions, so rounding of floating-point numbers is not modelled; texts are
-- measured in characters, and nested JSON values that are compared by their texts are these texts.
--
-- Parameters, for what is not code of the repository: regular expressions on free text, digests,
-- canonical JSON, `JSON.parse` and `JSON.stringify`, `trim`, URLs, paths, and the files that are read.
-- They are fields of small records (Regexes, Patterns, World, Platform, Reader, Host, Serial).
--
-- Not modelled: the glue of the plugin (next-level-agent.js), the opening of the SQLite file and the
-- tables inside the databases of the operator, the browser drivers (nla-browser, nla-browser-playwright,
-- nla-browser-mcp), the clients of mem0, the inventory, timeout, telemetry and shell-policy files, the
-- lock, the signature and the atomic writes of the stores, the running of git, the HTTP part of the
-- companion, and everything that is no JavaScript.
mod Base
pub mod Child
pub mod Evaluations
pub mod Health
pub mod Memory
pub mod Pools
pub mod Recovery
pub mod Selection
pub mod Utility
pub mod Workspace
pub mod Tools
pub mod Companion
pub mod System
