-- ===== src/Builder/JobOutcome.antt =====
-- How a synchronisation job of the builder ends.
use airing_cal.Common.{◌+◌, ◌≡◌, true, Option, none, some, Text, Bytes, Result, ◌≢◌, ◌⊎◌}
use airing_cal.Json.{Json, canonicalize}
use airing_cal.Snapshot.Build.{snapshot_json}
use airing_cal.Builder.{
  Lease, SyncRunStatus, SyncRunRecord, succeeded, failed, BuilderTables, set_row, started_run,
  is_held_against,
}
use airing_cal.Builder.Job.{
  PublicSnapshotInput, JobOptions, JobResult, skipped, failed_job, no_change, made, thrown, Work,
  nothing_new, new_snapshot, failure, job_id, generation_of,
}
use airing_cal.Builder.Work.{IsWork}

module _ (encode : Json → Bytes) (digest : Bytes → Text) where
  abbrev pub status_of : Work → SyncRunStatus
  status_of (failure _) = failed
  status_of (nothing_new _) = succeeded
  status_of (new_snapshot _) = succeeded

  abbrev pub checkpoint_after : Work → Option Json → Option Json
  checkpoint_after (failure _) checkpoint = checkpoint
  checkpoint_after (nothing_new _) checkpoint = checkpoint
  checkpoint_after (new_snapshot snapshot) checkpoint = some (canonicalize (snapshot_json snapshot))

  abbrev pub job_result_of : Work → JobResult
  job_result_of (failure _) = failed_job
  job_result_of (nothing_new previous) = no_change (generation_of encode digest previous)
  job_result_of (new_snapshot snapshot) = made snapshot.generation

  abbrev pub own_lease : JobOptions → Lease
  own_lease options = record {
    owner_token = options.owner_token;
    expires_at_unix = options.now_unix + options.lease_seconds;
  }

  -- What releasing a lease makes of a row: the owner's own lease goes, and another one stays.
  abbrev pub IsReleased : Text → Option Lease → Option Lease → Type 0
  IsReleased owner none after = after ≡ none
  IsReleased owner (some lease) after =
      ((lease.owner_token ≡ owner) × (after ≡ none))
      ⊎ ((lease.owner_token ≢ owner) × (after ≡ some lease))

  -- The tables when the input is being fetched: the job has its lease and its running run.
  abbrev pub started_tables : JobOptions → BuilderTables → BuilderTables
  started_tables options before = record {
    leases = set_row job_id (some (own_lease options)) before.leases;
    sync_runs =
        set_row options.run_id (some (started_run options.mode options.now_unix)) before.sync_runs;
    snapshot_checkpoint = before.snapshot_checkpoint;
  }

  abbrev pub fetched_tables : JobOptions → BuilderTables → BuilderTables
  fetched_tables options before = options.meanwhile (started_tables options before)

  -- How a job ends that starts on `before`. Another owner's lease skips it; a run id that is there
  -- makes it throw, and the lease stays; else others act while the input is fetched, and then its
  -- run is finished, its lease released, if it still has one, and the checkpoint holds the new
  -- snapshot, or is as others left it.
  pub data JobOutcome (options : JobOptions) (fetched : Result Text PublicSnapshotInput)
      (before : BuilderTables) : JobResult → BuilderTables → Type 0 where
    held_off :
        is_held_against options.owner_token options.now_unix (before.leases job_id) ≡ true
        → JobOutcome options fetched before skipped before
    refused :
        (run : SyncRunRecord) (after : BuilderTables)
        → before.sync_runs options.run_id ≡ some run
        → after.leases job_id ≡ some (own_lease options)
        → after.sync_runs ≡ before.sync_runs
        → after.snapshot_checkpoint ≡ before.snapshot_checkpoint
        → JobOutcome options fetched before thrown after
    worked :
        (work : Work) (after : BuilderTables) (run : SyncRunRecord)
        → IsWork encode digest fetched (fetched_tables options before).snapshot_checkpoint work
        → IsReleased options.owner_token
            ((fetched_tables options before).leases job_id)
            (after.leases job_id)
        → after.sync_runs options.run_id ≡ some run
        → run.status ≡ status_of work
        → after.snapshot_checkpoint
          ≡ checkpoint_after work (fetched_tables options before).snapshot_checkpoint
        → JobOutcome options fetched before (job_result_of work) after

  abbrev settled_tables : JobOptions → SyncRunRecord → Work → BuilderTables → BuilderTables
  settled_tables options run work tables = record {
    leases = tables.leases;
    sync_runs = set_row options.run_id (some run) tables.sync_runs;
    snapshot_checkpoint = checkpoint_after work tables.snapshot_checkpoint;
  }
