-- ===== src/Builder.antt =====
-- The builder's state: packages/v3-builder/src/sqlite-state.ts and sync-runs.ts. A table is a function
-- from its key to the row, if there is one.
mod Job
mod Leases
mod Work
mod JobOutcome
mod Once
mod Schedule
mod Examples
use airing_cal.Common.{
  ℕ, ◌+◌, Bool, true, false, not, ◌&&◌, ◌||◌, Option, none, some, Text, Text-discrete, ltb,
  if◌then◌else◌,
}
use airing_cal.Json.{Json}
use airing_cal.Snapshot.{equals}

pub record Lease : Type 0 where
  pub owner_token : Text
  pub expires_at_unix : ℕ

pub data SyncRunMode : Type 0 where
  incremental full : SyncRunMode

pub data SyncRunStatus : Type 0 where
  running succeeded failed cancelled : SyncRunStatus

pub record SyncRunRecord : Type 0 where
  pub mode : SyncRunMode
  pub status : SyncRunStatus
  pub started_at_unix : ℕ
  pub finished_at_unix : Option ℕ
  pub detail : Option Json

-- The tables, and the value of the key checkpoint:public-snapshot.
pub record BuilderTables : Type 0 where
  pub leases : Text → Option Lease
  pub sync_runs : Text → Option SyncRunRecord
  pub snapshot_checkpoint : Option Json

abbrev pub set_row : {V : Type 0} → Text → Option V → (Text → Option V) → Text → Option V
set_row key row table other = if equals other key then row else table other

-- Whether a lease keeps an owner out.
abbrev pub is_held_against : Text → ℕ → Option Lease → Bool
is_held_against owner now none = false
is_held_against owner now (some lease) =
    ltb now lease.expires_at_unix && not (equals lease.owner_token owner)

unfoldable pub acquire_lease : Text → Text → ℕ → ℕ → BuilderTables → Bool × BuilderTables
acquire_lease job owner ttl_seconds now tables =
    if is_held_against owner now (tables.leases job) then (false, tables) else (
      true,
      record tables {
        leases =
            set_row job (some (record { owner_token = owner; expires_at_unix = now + ttl_seconds }))
              tables.leases;
      },
    )

abbrev is_owned_by : Text → Option Lease → Bool
is_owned_by owner none = false
is_owned_by owner (some lease) = equals lease.owner_token owner

unfoldable pub release_lease : Text → Text → BuilderTables → BuilderTables
release_lease job owner tables =
    if is_owned_by owner (tables.leases job)
    then record tables { leases = set_row job none tables.leases }
    else tables

abbrev is_free : Option SyncRunRecord → Bool
is_free none = true
is_free (some _) = false

abbrev pub started_run : SyncRunMode → ℕ → SyncRunRecord
started_run mode started_at = record {
  mode = mode;
  status = running;
  started_at_unix = started_at;
  finished_at_unix = none;
  detail = none;
}

-- startRun: the insertion throws on a run id that is there.
unfoldable pub start_run : Text → SyncRunMode → ℕ → BuilderTables → Option BuilderTables
start_run run_id mode started_at tables =
    if is_free (tables.sync_runs run_id)
    then some (record tables {
      sync_runs = set_row run_id (some (started_run mode started_at)) tables.sync_runs;
    })
    else none

abbrev is_running : SyncRunStatus → Bool
is_running running = true
is_running _ = false

abbrev pub finished_run : SyncRunStatus → Json → ℕ → SyncRunRecord → SyncRunRecord
finished_run status detail finished_at run = record run {
  status = status;
  finished_at_unix = some finished_at;
  detail = some detail;
}

-- finishRun: the update throws on a run that is not running.
unfoldable pub finish_run : Text → SyncRunStatus → Json → ℕ → BuilderTables → Option BuilderTables
finish_run run_id status detail finished_at tables = elim (tables.sync_runs run_id) [
  | none ↦ none
  | some run ↦
      if is_running run.status
      then some (record tables {
        sync_runs =
            set_row run_id (some (finished_run status detail finished_at run)) tables.sync_runs;
      })
      else none
]
