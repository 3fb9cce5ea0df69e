-- ===== src/Runs/Operations.antt =====
-- The statements and the operations on sync runs.
use airing_cal.Common.{
  ℕ, zero, suc, not, ◌&&◌, Option, none, some, Result, ok, err, Text, units, if◌then◌else◌, holds,
}
use airing_cal.Runs.{
  SyncRunRow, SyncRunUpdate, SyncRunCheckpointGuard, SyncRunCompletion, SyncRunFailure,
  SyncTerminalTransitionResult, applied, already_same_terminal, preserved_opposite_terminal,
  ok_terminal, error_terminal, RunError, not_found, not_found_after_start, payload_mismatch,
  not_applied, already_terminal, checkpoint_conflict, malformed_json, Run-discrete, SyncRuns,
  put_run, is_status, is_terminal, assert_classified, updated_run, at_checkpoint, passes,
  completed_run, failed_run,
}

-- syncRunUpdateStatement, with the number of rows changed. A failed guard makes the statement fail.
unfoldable pub update_statement :
    Text → SyncRunUpdate → Option SyncRunCheckpointGuard → SyncRuns → Result RunError (SyncRuns × ℕ)
update_statement id update guard runs = elim (runs id) [
  | none ↦ ok (runs, 0)
  | some row ↦
      if is_terminal row
      then ok (runs, 0)
      else if passes guard row
      then ok (put_run id (updated_run update row) runs, 1)
      else err malformed_json
]

-- assertSyncRunUpdateApplied, on the table that it reads if nothing was changed.
unfoldable pub assert_applied : Text → ℕ → SyncRuns → Result RunError (Unit {0})
assert_applied id (suc _) runs = ok tt
assert_applied id zero runs = elim (runs id) [
  | none ↦ err not_found
  | some row ↦ if is_terminal row then err (already_terminal row.status) else err not_applied
]

-- The error of an update whose statement failed.
unfoldable pub update_error : Text → Option SyncRunCheckpointGuard → RunError → SyncRuns → RunError
update_error id none error runs = error
update_error id (some guard) error runs = elim (runs id) [
  | none ↦ error
  | some row ↦ if at_checkpoint guard row then error else checkpoint_conflict
]

-- The UPDATE of completeSyncRun or failSyncRun, with the row that it writes.
unfoldable pub finish_statement :
    Text → (SyncRunRow → SyncRunRow) → Option SyncRunCheckpointGuard → SyncRuns → SyncRuns × ℕ
finish_statement id finished guard runs = elim (runs id) [
  | none ↦ (runs, 0)
  | some row ↦
      if not (is_terminal row) && passes guard row
      then (put_run id (finished row) runs, 1)
      else (runs, 0)
]

-- The error of a terminal transition that changed nothing on a run that is not terminal.
abbrev pub finish_error : Option SyncRunCheckpointGuard → RunError
finish_error none = not_applied
finish_error (some _) = checkpoint_conflict

-- What completeSyncRun answers, from the changes and from the table that it reads after none.
unfoldable pub complete_answer :
    Text
    → Option SyncRunCheckpointGuard
    → ℕ
    → SyncRuns
    → Result RunError SyncTerminalTransitionResult
complete_answer id guard (suc _) runs = ok (applied ok_terminal)
complete_answer id guard zero runs = elim (runs id) [
  | none ↦ err not_found
  | some row ↦
      if is_status (units "ok") row
      then ok (already_same_terminal ok_terminal)
      else if is_status (units "error") row
      then ok (preserved_opposite_terminal error_terminal)
      else err (finish_error guard)
]

unfoldable pub fail_answer :
    Text
    → Option SyncRunCheckpointGuard
    → ℕ
    → SyncRuns
    → Result RunError SyncTerminalTransitionResult
fail_answer id guard (suc _) runs = ok (applied error_terminal)
fail_answer id guard zero runs = elim (runs id) [
  | none ↦ err not_found
  | some row ↦
      if is_status (units "error") row
      then ok (already_same_terminal error_terminal)
      else if is_status (units "ok") row
      then ok (preserved_opposite_terminal ok_terminal)
      else err (finish_error guard)
]

-- The INSERT of startSyncRun.
unfoldable pub insert_run : SyncRunRow → SyncRuns → SyncRuns × ℕ
insert_run row runs = elim (runs row.instance_id) [
  | none ↦ (put_run row.instance_id row runs, 1)
  | some _ ↦ (runs, 0)
]

unfoldable pub start_answer : SyncRunRow → ℕ → SyncRuns → Result RunError (Unit {0})
start_answer row (suc _) runs = ok tt
start_answer row zero runs = elim (runs row.instance_id) [
  | none ↦ err not_found_after_start
  | some current ↦ if holds (Run-discrete current row) then ok tt else err payload_mismatch
]

-- The operations. `race` is what other clients write between the statement and the read after it.
module _ (race : SyncRuns → SyncRuns) where
  -- startSyncRun
  unfoldable pub start_sync_run : SyncRunRow → SyncRuns → Result RunError (Unit {0}) × SyncRuns
  start_sync_run row runs = elim (assert_classified row.error_code) [
    | err e ↦ (err e, runs)
    | ok _ ↦
        let (inserted, changes) = insert_run row runs in
        (start_answer row changes (race inserted), race inserted)
  ]

  -- updateSyncRun
  unfoldable pub update_sync_run :
      Text
      → SyncRunUpdate
      → Option SyncRunCheckpointGuard
      → SyncRuns
      → Result RunError (Unit {0}) × SyncRuns
  update_sync_run id update guard runs = elim (update_statement id update guard runs) [
    | err e ↦ (err (update_error id guard e (race runs)), race runs)
    | ok (updated, changes) ↦ (assert_applied id changes (race updated), race updated)
  ]

  -- completeSyncRun
  unfoldable pub complete_sync_run :
      Text
      → SyncRunCompletion
      → Option SyncRunCheckpointGuard
      → SyncRuns
      → Result RunError SyncTerminalTransitionResult × SyncRuns
  complete_sync_run id completion guard runs =
      let (finished, changes) = finish_statement id (completed_run completion) guard runs in
      (complete_answer id guard changes (race finished), race finished)

  -- failSyncRun
  unfoldable pub fail_sync_run :
      Text
      → SyncRunFailure
      → Option SyncRunCheckpointGuard
      → SyncRuns
      → Result RunError SyncTerminalTransitionResult × SyncRuns
  fail_sync_run id failure guard runs = elim (assert_classified (some failure.error_code)) [
    | err e ↦ (err e, runs)
    | ok _ ↦
        let (finished, changes) = finish_statement id (failed_run failure) guard runs in
        (fail_answer id guard changes (race finished), race finished)
  ]
