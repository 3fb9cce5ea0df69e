-- ===== src/Lib.antt =====
-- AiringCal: the core of the writer that mirrors a Bangumi account: its rows, runs, publication
-- pointer and daily budget.
--
-- The program fetches a user's collections, compares them with the stored rows, writes the
-- differences under optimistic versions, and publishes an immutable snapshot behind a pointer.
-- Paths below are from the repository's root.
--
-- Rows models the rows of packages/storage/src/d1-types.ts.
-- Diff models packages/domain/src/collection-diff.ts: `plan_collection_diff` is
-- planCollectionDiff, with its three loops `index_rows`, `scan_incoming` and `scan_missing`, and
-- the stable sort by `row_lt`. Diff.Lookup has the search by keys, Diff.Reasons what a row of a
-- plan is there for, Diff.Incoming the first scan, Diff.Counts and Diff.Provenance the theorems.
-- An Examples module has the tests and witnesses of its component.
-- Budget models packages/storage/src/d1-budget.ts: each SQL statement is a function on the tables
-- sync_budget and sync_budget_reservations, a batch is their composition in one transaction, and
-- `claim_daily_budget_reservation` and `transition_budget_submission` are the exported operations.
-- The digest of a request is a parameter. Budget has the rows and the validation,
-- Budget.Statements and Budget.Operations the rest, Budget.Tables and Budget.Balance the lemmas on
-- the tables, Budget.Transitions, Budget.Claims and Budget.Cap the theorems.
-- Publication models the publication state of packages/storage/src/d1-state-store.ts: the rows
-- public:verified, public:pending, public:write-claim and public:source-watermark of app_state.
-- Publication.Statements has one function per SQL statement, Publication.Operations what a method
-- answers and the batch that it sends, Publication.Methods the whole methods with their three
-- attempts: commitPendingPublication, cleanupStalePendingPublication, claimPublicationWrite,
-- releasePublicationWrite, markPublicationPublished and the two confirmations. A read and the batch
-- after it are separate steps; the parameter `race` is what other clients write between them.
-- Publication.Consistency is the invariant of the rows, Publication.Progress their order in time,
-- and Safety, Exclusive, Cycle and Confirm have the theorems.
-- Runs models the sync runs of the same file: Runs has the row and the checkpoint, Runs.Operations
-- startSyncRun, updateSyncRun, completeSyncRun and failSyncRun with their statements, Runs.Finish,
-- Runs.Checkpoint and Runs.Start the theorems.
-- Collections models applyCollectionDiff: Collections has the sorted writes of a plan,
-- Collections.Statements its five statements and the check of one that changed nothing,
-- Collections.Apply the batches of at most fifty statements, each with the checkpoint of its run.
-- Collections.Versions, Batches, Landed, Applied and Success have the theorems.
-- SnapshotGc models planPublicSnapshotGc of packages/v3-core/src/public-snapshot-gc.ts, with the
-- theorem in SnapshotGc.Kept, on the counts of generations in Ranks and Newest; Number on the
-- digits of a key is a parameter.
-- ImageGc models packages/v3-core/src/public-image-gc.ts, with the theorem in ImageGc.Planned.
-- Retry models withRetry of apps/node-jobs/src/upstream/retry.ts; the operation and the sleep
-- between attempts are parameters. Retry.Attempts has the theorem.
-- Accounts models compareAccounts and executeSync of packages/domain/src/index.ts: Accounts.Compare
-- the comparison, Accounts.Sync the synchronisation and its validation; what the platform clients
-- answer is a parameter. Partition, Entries, Failures, Outcome and Writes have the theorems.
-- Merge models mergeCollections, withSubjectDetail and transformCalendar of the same file in
-- Merge.Collect, with the theorems in Merge.Latest, Merge.Listed and Merge.Detail; Date on a text is
-- a parameter.
-- Json has JSON values and canonicalize of packages/storage/src/canonical-json.ts; the text of a value
-- and its digest are parameters. Snapshot has the checks of packages/domain/src/public-snapshot.ts,
-- Snapshot.Build its building and parsing, Snapshot.Manifest and Snapshot.Keys public-manifest.ts,
-- Snapshot.Parsing the theorem. Release models the public store of packages/v3-core/src: the
-- interface `PublicStore`, the store in memory, and the contract `IsPublicStore` in Release.Memory;
-- Release.Publish is publishBuilderCheckpoint of packages/v3-builder/src/publish-checkpoint.ts on
-- any store, where `meanwhile` is what other publishers do before the commit. Read models
-- load-public-snapshot.ts and verified-snapshot-cache.ts of packages/v3-read/src on any store, and
-- Read.Query and Read.Handler portable-read-handler.ts, whose image routes are a parameter.
-- Read.Published joins store and reader: what is published is loaded again. Json.Codec is a concrete JSON
-- text for its example.
-- Builder models packages/v3-builder/src: its leases and runs (sqlite-state.ts, sync-runs.ts); Builder.Job
-- runBuilderSyncJob with nextSnapshotGeneration of packages/v3-core/src/publish-generation.ts,
-- Builder.Once runBuilderOnce, Builder.Schedule sync-schedule.ts; Leases and JobOutcome have the
-- theorems, and Builder.Work says what a job finds to do. What a job fetches and projects is a
-- parameter, and so is what others do to the tables while it waits for that (`meanwhile`).
-- Common has the Boolean tests, JavaScript strings as UTF-16 code units, the Map of JavaScript with its
-- insertion order, and the stable sort.
--
-- Bounds: ids, counts and times are naturals, and where the source tests Number.isSafeInteger the
-- model tests the bound 2^53 - 1. A day is counted from 1970 and stands for its ISO date, which
-- is one to one up to the year 9999. The digits of a number take one more than the number as fuel,
-- and each has one digit less to write; every other loop recurs on its list, or on the number of
-- attempts, which is three in the source.
--
-- Not modelled: network and file access, the HTTP surface of the Workers and the image routes, the widget and the scripts, and
-- the checks of D1's result metadata, which belong to the database; of the core, the app state
-- beyond the publication rows, subject media and the file system store. JSON texts
-- of rows stand as the values that they encode, so the decoders are taken to return what was
-- written.
pub mod Common
pub mod Rows
pub mod Diff
pub mod Budget
pub mod Publication
pub mod Runs
pub mod Collections
pub mod SnapshotGc
pub mod ImageGc
pub mod Retry
pub mod Accounts
pub mod Merge
pub mod Json
pub mod Snapshot
pub mod Release
pub mod Read
pub mod Builder
