-- ===== src/Builder/Job.antt =====
-- runBuilderSyncJob of packages/v3-builder/src/sync-job.ts, and nextSnapshotGeneration of
-- packages/v3-core/src/publish-generation.ts.
use airing_cal.Common.{
  ℕ, ◌+◌, Bool, not, Option, none, some, List, [], ◌∷◌, ◌++◌, Text, Bytes, units, if◌then◌else◌,
  Result, ok, err,
}
use airing_cal.Json.{Json, string, natural, object, object_of, canonicalize}
use airing_cal.Snapshot.{equals}
use airing_cal.Snapshot.Build.{
  SnapshotError, invalid_generation, invalid_published_at, unsupported_collection_type,
  unsupported_schema_version, invalid_snapshot, invalid_content_hash, PublicSnapshot, snapshot_json,
  parse_public_snapshot, build_public_snapshot,
}
use airing_cal.Snapshot.Keys.{decimal}
use airing_cal.Builder.{
  SyncRunMode, succeeded, failed, BuilderTables, acquire_lease, release_lease, start_run,
  finish_run,
}

-- What buildPublicSnapshot is given.
pub record PublicSnapshotInput : Type 0 where
  pub collections : List Json
  pub calendar : List Json
  pub published_at : ℕ

unfoldable pub next_snapshot_generation : Option PublicSnapshot → Text → Option ℕ
next_snapshot_generation none content_hash = some (0 + 1)
next_snapshot_generation (some verified) content_hash =
    if equals verified.content_hash content_hash then none else some (verified.generation + 1)

pub data JobResult : Type 0 where
  skipped failed_job : JobResult
  no_change : Option ℕ → JobResult
  made : ℕ → JobResult
  -- The call throws.
  thrown : JobResult

-- `meanwhile` is what others do to the tables while the input is fetched.
pub record JobOptions : Type 0 where
  pub run_id : Text
  pub mode : SyncRunMode
  pub owner_token : Text
  pub lease_seconds : ℕ
  pub now_unix : ℕ
  pub failed_at_unix : ℕ
  pub meanwhile : BuilderTables → BuilderTables

abbrev pub job_id : Text
job_id = units "builder-sync"

abbrev stage : Text → Json
stage name = object (object_of ((units "stage", string name) ∷ []))

-- What the job's body found to do, or what it threw.
pub data Work : Type 0 where
  nothing_new : Option PublicSnapshot → Work
  new_snapshot : PublicSnapshot → Work
  failure : Text → Work

-- The message of the thrown error.
abbrev pub thrown_message : SnapshotError → Text
thrown_message invalid_generation = units "Invalid snapshot generation"
thrown_message invalid_published_at = units "Invalid snapshot published_at"
thrown_message (unsupported_collection_type (some (natural id))) =
    units "Unsupported collection_type: " ++ decimal id
thrown_message (unsupported_collection_type _) = units "Unsupported collection_type: undefined"
thrown_message unsupported_schema_version = units "Unsupported public snapshot schema_version"
thrown_message invalid_snapshot = units "Invalid public snapshot"
thrown_message invalid_content_hash = units "Invalid public snapshot content_hash"

module _ (encode : Json → Bytes) (digest : Bytes → Text) where
  abbrev pub load_checkpoint : Option Json → Result Text (Option PublicSnapshot)
  load_checkpoint none = ok none
  load_checkpoint (some value) = elim (parse_public_snapshot encode digest value) [
    | err error ↦ err (thrown_message error)
    | ok snapshot ↦ ok (some snapshot)
  ]

  abbrev pub build : PublicSnapshotInput → ℕ → Result Text PublicSnapshot
  build input generation =
      elim (build_public_snapshot encode digest input.collections input.calendar input.published_at
        generation) [ err error ↦ err (thrown_message error) | ok snapshot ↦ ok snapshot ]

  -- The snapshot of a new generation, which is parsed before it is stored.
  abbrev pub make : PublicSnapshotInput → ℕ → Work
  make input generation = elim (build input generation) [
    | err message ↦ failure message
    | ok snapshot ↦ elim (parse_public_snapshot encode digest (snapshot_json snapshot)) [
      | err error ↦ failure (thrown_message error)
      | ok _ ↦ new_snapshot snapshot
    ]
  ]

  -- `fetched` is the projected input of the fetched account.
  unfoldable pub work_of : Result Text PublicSnapshotInput → Option Json → Work
  work_of (err message) checkpoint = failure message
  work_of (ok input) checkpoint = elim (load_checkpoint checkpoint) [
    | err message ↦ failure message
    | ok previous ↦ elim (build input 0) [
      | err message ↦ failure message
      | ok probe ↦ elim (next_snapshot_generation previous probe.content_hash) [
        | none ↦ nothing_new previous
        | some generation ↦ make input generation
      ]
    ]
  ]

  abbrev pub generation_of : Option PublicSnapshot → Option ℕ
  generation_of none = none
  generation_of (some snapshot) = some snapshot.generation

  abbrev pub finished : JobResult → BuilderTables → Option BuilderTables → JobResult × BuilderTables
  finished result tables none = (thrown, tables)
  finished result tables (some done) = (result, done)

  abbrev pub checkpoint_detail : PublicSnapshot → Json
  checkpoint_detail snapshot = object (
      object_of (
        (units "stage", string (units "checkpoint"))
        ∷ (units "generation", natural snapshot.generation)
        ∷ (units "content_hash", string snapshot.content_hash)
        ∷ []))

  -- The body after the run was started, with the handler of what it throws.
  unfoldable pub settle : JobOptions → Work → BuilderTables → JobResult × BuilderTables
  settle options (nothing_new previous) tables =
      finished (no_change (generation_of previous)) tables
        (finish_run options.run_id succeeded (stage (units "no_change")) options.now_unix tables)
  settle options (new_snapshot snapshot) tables =
      let stored : BuilderTables = record tables {
        snapshot_checkpoint = some (canonicalize (snapshot_json snapshot));
      } in
      finished (made snapshot.generation) stored
        (finish_run options.run_id succeeded (checkpoint_detail snapshot) options.now_unix stored)
  settle options (failure message) tables = finished failed_job tables (
      finish_run options.run_id failed (object (object_of ((units "error", string message) ∷ [])))
        options.failed_at_unix tables)

  unfoldable pub run_builder_sync_job :
      JobOptions → Result Text PublicSnapshotInput → BuilderTables → JobResult × BuilderTables
  run_builder_sync_job options fetched tables =
      let lease : Bool × BuilderTables =
        acquire_lease job_id options.owner_token options.lease_seconds options.now_unix tables in
      if not lease.0
      then (skipped, tables)
      else elim (start_run options.run_id options.mode options.now_unix lease.1) [
        | none ↦ (thrown, lease.1)
        | some started ↦
            let between : BuilderTables = options.meanwhile started in
            let done : JobResult × BuilderTables =
              settle options (work_of fetched between.snapshot_checkpoint) between in
            (done.0, release_lease job_id options.owner_token done.1)
      ]
