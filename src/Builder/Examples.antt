-- ===== src/Builder/Examples.antt =====
-- A builder with empty tables: tests and the witnesses of the theorems about it.
use airing_cal.Common.{
  ◌≤◌, ◌<◌, ◌≡◌, refl, false, none, some, List, [], ◌∷◌, Text, Text-discrete, Bytes, units, Result,
  ok, arith,
}
use airing_cal.Json.{
  Json, lookup, object_of, array_of, fields_in, items_in, canonical_bytes, sha256_canonical,
}
use airing_cal.Snapshot.{is_sha256, has_exact_keys, are_collections, is_summary}
use airing_cal.Snapshot.Build.{
  group_collections, validate_snapshot_structure, payload_hash, parse_public_snapshot,
  build_public_snapshot,
}
use airing_cal.Builder.{
  set_row, incremental, full, BuilderTables, acquire_lease, release_lease, start_run, finish_run,
}
use airing_cal.Builder.Job.{
  PublicSnapshotInput, JobOptions, made, next_snapshot_generation, work_of, settle,
  run_builder_sync_job,
}
use airing_cal.Builder.JobOutcome.{JobOutcome}
use airing_cal.Builder.Leases.{LeaseCall, acquire, release, perform_all, acquire_lease-excludes}
use airing_cal.Builder.Schedule.{
  parse_daily_at_utc, ms_until_next_daily_at, ms_until_next_daily_at-bounds,
  resolve_scheduled_sync_mode,
}

abbrev empty_tables : BuilderTables
empty_tables = record { leases = λ _. none; sync_runs = λ _. none; snapshot_checkpoint = none }

abbrev eight : Text → Text
eight rest = 48 ∷ 48 ∷ 48 ∷ 48 ∷ 48 ∷ 48 ∷ 48 ∷ 48 ∷ rest

abbrev zeros : Text
zeros = eight (eight (eight (eight (eight (eight (eight (eight [])))))))

abbrev encode : Json → Bytes
encode _ = []

abbrev digest : Bytes → Text
digest _ = zeros

-- Another job takes its lease.
abbrev others : BuilderTables → BuilderTables
others tables = record tables {
  leases =
      set_row (units "j") (some (record { owner_token = units "b"; expires_at_unix = 9 }))
        tables.leases;
}

abbrev options : JobOptions
options = record {
  run_id = units "r1";
  mode = incremental;
  owner_token = units "a";
  lease_seconds = 1800;
  now_unix = 100;
  failed_at_unix = 110;
  meanwhile = others;
}

abbrev fetched : Result Text PublicSnapshotInput
fetched = ok (record { collections = []; calendar = []; published_at = 100 })

first_generation : (run_builder_sync_job encode digest options fetched empty_tables).0 ≡ made 1
unfolding run_builder_sync_job acquire_lease release_lease start_run finish_run settle work_of
    next_snapshot_generation build_public_snapshot group_collections parse_public_snapshot
    validate_snapshot_structure has_exact_keys are_collections is_summary lookup object_of array_of
    fields_in items_in is_sha256 payload_hash sha256_canonical canonical_bytes Text-discrete
first_generation = refl

abbrev calls : List LeaseCall
calls = acquire (units "j") (units "b") 60 5 ∷ release (units "j") (units "b") ∷ []

acquire_lease-excludes_example :
    (acquire_lease
      (units "j")
      (units "b")
      60
      9
      (perform_all calls (acquire_lease (units "j") (units "a") 10 1 empty_tables).1)).0
    ≡ false
unfolding acquire_lease Text-discrete
acquire_lease-excludes_example =
    acquire_lease-excludes (units "j") (units "a") (units "b") 10 1 60 9 empty_tables calls refl
      ((refl, omega arith), (refl, tt)) refl (omega arith)

half_past_three : parse_daily_at_utc (units "03:30") ≡ some (record { hour = 3; minute = 30 })
unfolding parse_daily_at_utc
half_past_three = refl

full_is_due : resolve_scheduled_sync_mode 700000 7 (some 90000) ≡ ok full
unfolding resolve_scheduled_sync_mode
full_is_due = refl

ms_until_next_daily_at-bounds_example :
    (0 < ms_until_next_daily_at 0 12600000 (record { hour = 3; minute = 30 }))
    × (ms_until_next_daily_at 0 12600000 (record { hour = 3; minute = 30 }) ≤ 86400000)
ms_until_next_daily_at-bounds_example =
    ms_until_next_daily_at-bounds (units "03:30") (record { hour = 3; minute = 30 }) 0 12600000
      half_past_three (omega arith)
