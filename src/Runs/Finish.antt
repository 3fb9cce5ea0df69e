-- ===== src/Runs/Finish.antt =====
-- A run that has ended stays as it is.
use airing_cal.Common.{
  ℕ, ◌≡◌, ◌≢◌, sym, inl, inr, true, not, ◌&&◌, Option, none, some, Result, ok, err, Text,
  Text-discrete, units, if◌then◌else◌, holds, Bool-cases, Option-cases, Result-cases, subst, arith,
}
use airing_cal.Runs.{
  SyncRunRow, SyncRunUpdate, SyncRunCheckpointGuard, SyncRunCompletion, SyncRunFailure,
  SyncTerminalTransitionResult, already_same_terminal, preserved_opposite_terminal, ok_terminal,
  error_terminal, RunError, already_terminal, SyncRuns, put_run, is_status, is_terminal,
  assert_classified, updated_run, passes, completed_run, failed_run,
}
use airing_cal.Runs.Operations.{
  update_statement, assert_applied, finish_statement, complete_answer, fail_answer, insert_run,
  start_sync_run, update_sync_run, complete_sync_run, fail_sync_run,
}

pub data RunCall : Type 0 where
  start : SyncRunRow → RunCall
  update : Text → SyncRunUpdate → Option SyncRunCheckpointGuard → RunCall
  complete : Text → SyncRunCompletion → Option SyncRunCheckpointGuard → RunCall
  fail : Text → SyncRunFailure → Option SyncRunCheckpointGuard → RunCall

-- What a call does to the table.
module _ (race : SyncRuns → SyncRuns) where
  pub perform : RunCall → SyncRuns → SyncRuns
  perform (start other) runs = (start_sync_run race other runs).1
  perform (update key change guard) runs = (update_sync_run race key change guard runs).1
  perform (complete key completion guard) runs =
      (complete_sync_run race key completion guard runs).1
  perform (fail key failure guard) runs = (fail_sync_run race key failure guard runs).1

clash : {A : Type 0} {a : A} {o : Option A} → none ≡ o → o ≡ some a → ⊥
clash e h = cc

module _ (id : Text) (row : SyncRunRow) (ended : is_terminal row ≡ true) where
  put-ended :
      (key : Text) (other : SyncRunRow) (runs : SyncRuns)
      → runs id ≡ some row
      → (runs key ≢ some row)
      → put_run key other runs id ≡ some row
  put-ended key other runs h fresh =
      elim (Text-discrete id key) as (λ d. (if holds d then some other else runs id) ≡ some row) [
        | yes e ↦ elim (fresh (rw (sym e) h)) [ ]
        | no _ ↦ h
      ]

  insert-ended :
      (other : SyncRunRow) (runs : SyncRuns)
      → runs id ≡ some row
      → (insert_run other runs).0 id ≡ some row
  unfolding insert_run
  insert-ended other runs h = elim (Option-cases (runs other.instance_id)) [
    | inl e ↦ rw (e, insert_run) (put-ended other.instance_id other runs h (λ k. clash (sym e) k))
    | inr (_, e) ↦ rw (e, insert_run) h
  ]

  finish-ended :
      (key : Text) (finished : SyncRunRow → SyncRunRow) (guard : Option SyncRunCheckpointGuard)
      (runs : SyncRuns)
      → runs id ≡ some row
      → (finish_statement key finished guard runs).0 id ≡ some row
  unfolding finish_statement
  finish-ended key finished guard runs h = elim (Option-cases (runs key)) [
    | inl e ↦ rw (e, finish_statement) h
    | inr (other, e) ↦ elim (Bool-cases (not (is_terminal other) && passes guard other)) [
      | inl running ↦
          rw (e, finish_statement)
            (rw running (put-ended key (finished other) runs h (λ k. ground arith)))
      | inr closed ↦ rw (e, finish_statement) (rw closed h)
    ]
  ]

  -- What a batch keeps, a statement that fails included.
  abbrev Keeps : Result RunError (SyncRuns × ℕ) → Type 0
  Keeps (err e) = Unit
  Keeps (ok (updated, changes)) = updated id ≡ some row

  update-ended :
      (key : Text) (change : SyncRunUpdate) (guard : Option SyncRunCheckpointGuard)
      (runs : SyncRuns)
      → runs id ≡ some row
      → Keeps (update_statement key change guard runs)
  unfolding update_statement
  update-ended key change guard runs h = elim (Option-cases (runs key)) [
    | inl e ↦ rw (e, update_statement) h
    | inr (other, e) ↦ elim (Bool-cases (is_terminal other)) [
      | inl closed ↦ rw (e, update_statement) (rw closed h)
      | inr running ↦ elim (Bool-cases (passes guard other)) [
        | inl passed ↦
            rw (e, update_statement)
              (rw (running, passed)
                (put-ended key (updated_run change other) runs h (λ k. ground arith)))
        | inr stopped ↦ rw (e, update_statement) (rw (running, stopped) tt)
      ]
    ]
  ]

  module _ (race : SyncRuns → SyncRuns)
      (fair : (runs : SyncRuns) → runs id ≡ some row → race runs id ≡ some row) where
    -- A run that has ended, as ok or as error, keeps its row under every operation on any run, if
    -- what other clients do meanwhile keeps it too.
    pub perform-ended :
        (call : RunCall) (runs : SyncRuns)
        → runs id ≡ some row
        → perform race call runs id ≡ some row
    unfolding perform start_sync_run update_sync_run complete_sync_run fail_sync_run
    perform-ended (start other) runs h = elim (Result-cases (assert_classified other.error_code)) [
      | inl (e, is_err) ↦ rw (is_err, perform, start_sync_run) h
      | inr (_, is_ok) ↦ rw (is_ok, perform, start_sync_run) (fair _ (insert-ended other runs h))
    ]
    perform-ended (update key change guard) runs h =
        elim (Result-cases (update_statement key change guard runs)) [
          | inl (e, is_err) ↦ rw (is_err, perform, update_sync_run) (fair runs h)
          | inr ((updated, changes), is_ok) ↦
              rw (is_ok, perform, update_sync_run)
                (fair updated (subst Keeps is_ok (update-ended key change guard runs h)))
        ]
    perform-ended (complete key completion guard) runs h =
        fair _ (finish-ended key (completed_run completion) guard runs h)
    perform-ended (fail key failure guard) runs h =
        elim (Result-cases (assert_classified (some failure.error_code))) [
          | inl (e, is_err) ↦ rw (is_err, perform, fail_sync_run) h
          | inr (_, is_ok) ↦
              rw (is_ok, perform, fail_sync_run)
                (fair _ (finish-ended key (failed_run failure) guard runs h))
        ]

  -- What a caller is told about a run that has ended.
  abbrev TerminalAnswers :
      Result RunError (Unit {0})
      → Result RunError SyncTerminalTransitionResult
      → Result RunError SyncTerminalTransitionResult
      → Type 0
  TerminalAnswers updated completed failed =
      (updated ≡ err (already_terminal row.status))
      × (completed
          ≡ ok (
              if is_status (units "ok") row
              then already_same_terminal ok_terminal
              else preserved_opposite_terminal error_terminal))
      × (failed
          ≡ ok (
              if is_status (units "error") row
              then already_same_terminal error_terminal
              else preserved_opposite_terminal ok_terminal))

  -- On a run that has ended, an update is refused with its status, and completing or failing it
  -- answers that it had ended so before, or that the opposite end is preserved, if what other
  -- clients do meanwhile keeps the row.
  pub ended-answers :
      (race : SyncRuns → SyncRuns)
      → ((runs : SyncRuns) → runs id ≡ some row → race runs id ≡ some row)
      → (change : SyncRunUpdate) (completion : SyncRunCompletion) (failure : SyncRunFailure)
        (guard : Option SyncRunCheckpointGuard) (runs : SyncRuns)
      → assert_classified (some failure.error_code) ≡ ok tt
      → runs id ≡ some row
      → TerminalAnswers
          (update_sync_run race id change guard runs).0
          (complete_sync_run race id completion guard runs).0
          (fail_sync_run race id failure guard runs).0
  unfolding update_sync_run complete_sync_run fail_sync_run update_statement finish_statement
      assert_applied complete_answer fail_answer
  ended-answers race fair change completion failure guard runs classified h =
      let kept = fair runs h in
      (ground arith, ground arith, rw (classified, fail_sync_run) (ground arith))
