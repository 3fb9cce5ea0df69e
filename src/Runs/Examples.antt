-- ===== src/Runs/Examples.antt =====
-- A run at a checkpoint and a run that has ended: the witnesses of the theorems about sync runs.
use airing_cal.Common.{◌≡◌, ◌⊎◌, refl, true, false, none, some, ok, err, Text, Text-discrete, units}
use airing_cal.Runs.{
  SyncRunRow, SyncRunUpdate, SyncRunCheckpointGuard, SyncRunCompletion, SyncRunFailure,
  already_same_terminal, preserved_opposite_terminal, ok_terminal, already_terminal,
  checkpoint_conflict, payload_mismatch, Json-discrete, SyncRuns, put_run, is_classified, all_code,
  assert_classified, at_checkpoint,
}
use airing_cal.Runs.Operations.{
  insert_run, start_answer, start_sync_run, update_sync_run, complete_sync_run, fail_sync_run,
}
use airing_cal.Runs.Finish.{RunCall, perform, perform-ended, ended-answers}
use airing_cal.Runs.Checkpoint.{alone, IsUpdated, guarded_update, guarded_once}
use airing_cal.Runs.Start.{start_replay}

abbrev run : Text → Text → SyncRunRow
run status stage = record {
  instance_id = units "r1";
  status = status;
  stage = stage;
  generation = some 4;
  collection_count = 0;
  changed_count = 0;
  missing_count = 0;
  deleted_count = 0;
  media_selected_count = 0;
  media_granted_count = 0;
  input_hash = none;
  public_hash = none;
  result_json = none;
  error_code = none;
  started_at = 10;
  heartbeat_at = 10;
  completed_at = none;
}

abbrev to_stage : Text → SyncRunUpdate
to_stage stage = record {
  stage = stage;
  heartbeat_at = 20;
  generation = none;
  collection_count = some 7;
  changed_count = none;
  missing_count = none;
  deleted_count = none;
  media_selected_count = none;
  media_granted_count = none;
  input_hash = none;
  public_hash = none;
  result_json = none;
}

abbrev guard : SyncRunCheckpointGuard
guard = record { stage = units "fetch"; result_json = none }

abbrev no_runs : SyncRuns
no_runs id = none

-- The table with one run.
abbrev with_run : SyncRunRow → SyncRuns
with_run row = put_run (units "r1") row no_runs

abbrev completion : SyncRunCompletion
completion = record {
  heartbeat_at = 30;
  completed_at = 30;
  generation = some 5;
  input_hash = none;
  public_hash = none;
  result_json = none;
}

abbrev failure : SyncRunFailure
failure = record { heartbeat_at = 30; completed_at = 30; error_code = units "UPSTREAM_5XX" }

code_is_classified : assert_classified (some (units "UPSTREAM_5XX")) ≡ ok tt
unfolding assert_classified is_classified all_code
code_is_classified = refl

perform-ended_example :
    perform alone
      (RunCall.fail (units "r1") failure none)
      (with_run (run (units "ok") (units "complete")))
      (units "r1")
    ≡ some (run (units "ok") (units "complete"))
unfolding Text-discrete
perform-ended_example =
    perform-ended (units "r1") (run (units "ok") (units "complete")) refl alone (λ _ h. h)
      (RunCall.fail (units "r1") failure none) (with_run (run (units "ok") (units "complete"))) refl

ended-answers_example :
    ((update_sync_run alone
        (units "r1")
        (to_stage (units "diff"))
        none
        (with_run (run (units "ok") (units "complete")))).0
      ≡ err (already_terminal (units "ok")))
    × ((complete_sync_run alone
          (units "r1")
          completion
          none
          (with_run (run (units "ok") (units "complete")))).0
        ≡ ok (already_same_terminal ok_terminal))
    × ((fail_sync_run alone
          (units "r1")
          failure
          none
          (with_run (run (units "ok") (units "complete")))).0
        ≡ ok (preserved_opposite_terminal ok_terminal))
unfolding Text-discrete
ended-answers_example =
    ended-answers (units "r1") (run (units "ok") (units "complete")) refl alone (λ _ h. h)
      (to_stage (units "diff")) completion failure none
      (with_run (run (units "ok") (units "complete"))) code_is_classified refl

guarded_update_example :
    ((at_checkpoint guard (run (units "running") (units "fetch")) ≡ true)
      × ((update_sync_run alone
            (units "r1")
            (to_stage (units "diff"))
            (some guard)
            (with_run (run (units "running") (units "fetch")))).0
          ≡ ok tt)
      × (after : SyncRunRow) × ((update_sync_run alone
              (units "r1")
              (to_stage (units "diff"))
              (some guard)
              (with_run (run (units "running") (units "fetch")))).1
            (units "r1")
          ≡ some after)
      × IsUpdated (to_stage (units "diff")) (run (units "running") (units "fetch")) after)
    ⊎ ((at_checkpoint guard (run (units "running") (units "fetch")) ≡ false)
        × (update_sync_run alone
              (units "r1")
              (to_stage (units "diff"))
              (some guard)
              (with_run (run (units "running") (units "fetch")))
            ≡ (err checkpoint_conflict, with_run (run (units "running") (units "fetch")))))
unfolding Text-discrete
guarded_update_example =
    guarded_update (units "r1") (run (units "running") (units "fetch")) guard
      (to_stage (units "diff")) (with_run (run (units "running") (units "fetch"))) refl refl

guarded_once_example :
    let after =
      (update_sync_run alone
        (units "r1")
        (to_stage (units "diff"))
        (some guard)
        (with_run (run (units "running") (units "fetch")))).1 in
    update_sync_run alone (units "r1") (to_stage (units "media")) (some guard) after
    ≡ (err checkpoint_conflict, after)
unfolding Text-discrete Json-discrete
guarded_once_example =
    guarded_once (units "r1") (run (units "running") (units "fetch")) guard
      (to_stage (units "diff")) (with_run (run (units "running") (units "fetch"))) refl refl
      (to_stage (units "media")) refl refl

start_replay_example :
    let started = (start_sync_run alone (run (units "running") (units "fetch")) no_runs).1 in
    (started (units "r1") ≡ some (run (units "running") (units "fetch")))
    × (start_sync_run alone (run (units "running") (units "fetch")) started ≡ (ok tt, started))
    × (start_sync_run alone (run (units "running") (units "diff")) started
        ≡ (err payload_mismatch, started))
unfolding start_sync_run insert_run start_answer assert_classified
start_replay_example =
    start_replay (run (units "running") (units "fetch")) (run (units "running") (units "diff"))
      no_runs refl refl (λ h. cc) refl
