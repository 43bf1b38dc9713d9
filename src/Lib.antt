-- ===== src/Lib.antt =====
-- Verification of the session maintenance library: the planner that turns two versions of a session
-- into a plan of safe operations, and the transaction engine that carries plans out.
--
-- The program. A session lives on two platforms, Codex and DSH. The domain package
-- (packages/session-domain) compares the events and the metadata of the two sides with their common
-- base and makes a sync plan: an immutable description of what to append, rename or archive, with
-- the fingerprints of the state that it was made for. A gate admits only plans of a narrow shape to
-- the writer. The transaction engine (packages/transaction-engine) applies an admitted plan under a
-- lock on the platform's root: it journals each step in a hash-chained file, and mirrors the steps
-- in a database. The retention policy (packages/session-store) decides what of the stored objects,
-- runs, caches and backups may be removed. A projection (packages/projection-lifecycle) keeps a
-- write-ahead log of the operations that a session appends, and streams its sessions in lines of
-- bounded size.
--
-- The files.
--   Prelude           shared types, tests and lemmas; Prelude/Throws is a result that may be a
--                     thrown error, with the codes of packages/contracts/src/errors.ts
--   Contracts         packages/contracts: JSON values, plans, transactions, and their zod schemas;
--                     Contracts/Canonical is canonical.ts with the topology of an event
--   Domain/Text       strings as JavaScript orders them, and sorting
--   Domain/CanonicalJson  canonical-json.ts: `serialize`, `canonicalJson`
--   Domain/Diff       diff.ts: `classifyConversationDelta`, `classifyMetadataDelta`
--   Domain/Graph      graph.ts: `VersionGraph` and `classifyHeads`, measured by lines of descent
--                     (Paths); Rounds and Shortest are on the search, Base on the merge base, Acyclic
--                     and Build on the constructor, Heads on the classification
--   Domain/Topology   conversation-topology.ts: Place, Turns and Tools are the parts of the body of
--                     the loop, Pass is the loop, Planned is `planConversationTopology` and
--                     `withPlannedConversationTopology`; Filing and Kept are on what the plan keeps,
--                     Paired and Answered on the calls of tools, Forget, Again and Replan on planning
--                     a second time, Extension on the schema; Frame and Round are lemmas
--   Domain/Plan       planner.ts: Payload is what a plan's identity hashes, Create is
--                     `createSyncPlan`, Validate is `validatePlanPreconditions` and the two gates,
--                     Replay carries a plan out on a model of the target
--   Transaction/Journal  journal.ts: `appendNow`, `readNow`
--   Transaction/Store    repository.ts of packages/session-store: the tables as lists of rows, with
--                     the methods on transactions, their steps, backups (Store/Backups) and
--                     confirmations (Store/Confirmations)
--   Transaction/Confirmation  confirmation.ts: `issue`, `consumeToken`
--   Transaction/World    what the engine works on, and the interface of a journal, which
--                     Transaction/Journal/File fills
--   Transaction/Transition  `recordTransition` of executor.ts
--   Transaction/Lock     lock-manager.ts: the lock files of the roots, and one call; Lock/Queue is the
--                     queues of several managers, as steps, with what each state has in Lock/Invariant
--   Transaction/Apply    executor.ts: `apply`, the guards in front of the write
--   Transaction/Executor  executor.ts: `applyLocked`, `restoreOnce`
--   Transaction/Restore  executor.ts: `restoreScope` and `restore`
--   Transaction/Recovery  recovery.ts: `recoverLocked`, `reconcileJournal`
--   Retention         retention-policy.ts of packages/session-store: References and Databases are
--                     the tables of `planRetention`, Selection its newest backups and evicted caches,
--                     Items its items, Plan the plan; Unreferenced, Expendable and Admitted are on
--                     what it offers for removal, Newest, Eviction (its loop is in Evicted) and
--                     Accounts on its numbers,
--                     Descending, Dates and Members on sorting; with a text that is no date the
--                     comparators of the code are not an order, and JavaScript leaves open what
--                     sorting by them gives, so that theorems on the order ask for dates
--   Projection/Wal    wal.ts of packages/projection-lifecycle: the methods of the write-ahead log,
--                     the phases of an operation (Phases), and sequences of calls (Final)
--   Projection/Stream  runtime-stream.ts of packages/projection-lifecycle: the lines into which events
--                     and catalog entries are packed; Bytes and Chunks are on their sizes and contents
--   Tests             the theorems at concrete inputs
--
-- Correspondence. Functions keep their names in snake case. Identifiers and timestamps are texts.
-- What is not in the repository is a parameter: the SHA-256 digest, the test whether a process is
-- alive, `Date.parse` and `localeCompare`, the base64url encoding of an ID, the equality that
-- `JSON.stringify` gives, the normal form of a root's path, zod's test of a timestamp,
-- `isDeepStrictEqual` on events (the instance argument) and the parser of a journal line, of which
-- the theorems on journals ask that it reads the lines of the steps at hand. Numbers in JSON values
-- are the natural numbers, which is all that the modelled code writes. Reads and writes of files
-- succeed, and an absent journal is an empty text. The methods of the store and the engine are
-- actions: a state goes in, a result or a thrown error comes out with the state that was reached.
-- The store's own transactions are atomic, and its constraints beyond the methods' tests do not
-- fire; JSON columns are read back as they were written. A write adapter is an arbitrary record of
-- actions on the state of its platform; the clock and the source of IDs are functions of how often
-- they were asked. Fuel is used for the digits of a number (`decimal`
-- and `number_text`, n + 1 steps for n) and for the two searches of a version graph, where the number of the nodes, or
-- one more, is shown to be enough.
--
-- Not modelled: user interfaces, HTTP, the platform adapters, SQL, the digest that is
-- a retention plan's ID, the machinery that carries retention plans out, the processes of
-- projections, and file I/O errors. The engine's own actions run with the lock of one call; how calls
-- take turns is in Lock/Queue.
mod Prelude
pub mod Contracts
pub mod Domain
pub mod Transaction
pub mod Retention
pub mod Projection
mod Tests
