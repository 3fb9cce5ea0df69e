-- ===== src/Builder/Once.antt =====
-- runBuilderOnce of packages/v3-builder/src/run-once.ts: a job, and then the publication.
use airing_cal.Common.{
  Bool, true, false, not, ◌||◌, Option, none, some, List, Text, if◌then◌else◌, Result,
}
use airing_cal.Snapshot.Manifest.{ManifestMetadata}
use airing_cal.Release.{PublicStore}
use airing_cal.Release.Publish.{
  Platform, PublishOptions, BuilderState, Answer, publish_builder_checkpoint,
}
use airing_cal.Builder.{BuilderTables}
use airing_cal.Builder.Job.{
  JobOptions, JobResult, skipped, failed_job, no_change, made, thrown, PublicSnapshotInput,
  run_builder_sync_job,
}

-- Whether a job's result is followed by a publication.
abbrev pub is_publishable : JobResult → Bool
is_publishable skipped = false
is_publishable failed_job = false
is_publishable thrown = false
is_publishable (no_change _) = true
is_publishable (made _) = true

-- Everything that a run of the builder changes.
pub record BuilderWorld (State : Type 0) : Type 0 where
  pub tables : BuilderTables
  pub metadata : List (Text × ManifestMetadata)
  pub public : State

module _ {State : Type 0} (platform : Platform) (store : PublicStore State)
    (options : PublishOptions State) where
  unfoldable pub run_builder_once :
      JobOptions
      → Bool
      → Result Text PublicSnapshotInput
      → BuilderWorld State
      → (JobResult × Option Answer) × BuilderWorld State
  run_builder_once job publish_after_sync fetched world =
      let synced : JobResult × BuilderTables =
        run_builder_sync_job platform.encode platform.digest job fetched world.tables in
      if not publish_after_sync || not (is_publishable synced.0)
      then ((synced.0, none), record world { tables = synced.1 })
      else let published : Answer × (BuilderState × State) =
          publish_builder_checkpoint platform store options
            (record { checkpoint = synced.1.snapshot_checkpoint; metadata = world.metadata })
            world.public in
        (
          (synced.0, some published.0),
          record {
            tables = record synced.1 { snapshot_checkpoint = published.1.0.checkpoint };
            metadata = published.1.0.metadata;
            public = published.1.1;
          },
        )
