-- ===== src/Runs/Start.antt =====
-- Starting a run is idempotent.
use airing_cal.Common.{
  ◌≡◌, ◌≢◌, refl, sym, inl, inr, some, ok, err, holds, Bool-cases, Option-cases, Result-cases,
  holds-sound, arith,
}
use airing_cal.Runs.{SyncRunRow, payload_mismatch, Run-discrete, SyncRuns, assert_classified}
use airing_cal.Runs.Operations.{insert_run, start_answer, start_sync_run}
use airing_cal.Runs.Checkpoint.{alone, put-same}

module _ (row : SyncRunRow) where
  start_answer-ok :
      (current : SyncRunRow) (runs : SyncRuns)
      → runs row.instance_id ≡ some current
      → start_answer row 0 runs ≡ ok tt
      → current ≡ row
  unfolding start_answer
  start_answer-ok current runs e h = ground arith

  start_answer-same :
      (runs : SyncRuns) → runs row.instance_id ≡ some row → start_answer row 0 runs ≡ ok tt
  unfolding start_answer
  start_answer-same runs e = ground arith

  start_answer-differs :
      (current : SyncRunRow) (runs : SyncRuns)
      → runs row.instance_id ≡ some current
      → row ≢ current
      → start_answer row 0 runs ≡ err payload_mismatch
  unfolding start_answer
  start_answer-differs current runs e differs =
      elim (Bool-cases (holds (Run-discrete current row))) [
        | inl same ↦ elim (differs (sym (holds-sound (Run-discrete current row) same))) [ ]
        | inr other ↦ rw (e, start_answer) (rw other refl)
      ]

  start-classified :
      (runs : SyncRuns)
      → (start_sync_run alone row runs).0 ≡ ok tt
      → (assert_classified row.error_code ≡ ok tt)
        × ((start_sync_run alone row runs).1 row.instance_id ≡ some row)
  unfolding start_sync_run insert_run
  start-classified runs = elim (Result-cases (assert_classified row.error_code)) [
    | inl (e, is_err) ↦ rw (is_err, start_sync_run) (λ h. cc)
    | inr (_, is_ok) ↦ elim (Option-cases (runs row.instance_id)) [
      | inl e ↦
          rw (is_ok, start_sync_run)
            (rw (e, insert_run) (λ h. (refl, put-same row.instance_id row runs)))
      | inr (current, e) ↦
          rw (is_ok, start_sync_run)
            (rw (e, insert_run) (λ h. (refl, rw e (rw (start_answer-ok current runs e h) refl))))
    ]
  ]

  start-again :
      (runs : SyncRuns)
      → assert_classified row.error_code ≡ ok tt
      → runs row.instance_id ≡ some row
      → start_sync_run alone row runs ≡ (ok tt, runs)
  unfolding start_sync_run insert_run start_answer
  start-again runs is_ok e =
      rw (is_ok, start_sync_run, e, insert_run, start_answer-same runs e) refl

  start-other :
      (current : SyncRunRow) (runs : SyncRuns)
      → assert_classified row.error_code ≡ ok tt
      → runs row.instance_id ≡ some current
      → row ≢ current
      → start_sync_run alone row runs ≡ (err payload_mismatch, runs)
  unfolding start_sync_run insert_run start_answer
  start-other current runs is_ok e differs =
      rw (is_ok, start_sync_run, e, insert_run, start_answer-differs current runs e differs) refl

-- An undisturbed start that succeeds leaves the given row under its id; the same start again then
-- succeeds and changes nothing, and a start of another row under that id is a payload mismatch
-- that changes nothing.
pub start_replay :
    (row other : SyncRunRow) (runs : SyncRuns)
    → (start_sync_run alone row runs).0 ≡ ok tt
    → other.instance_id ≡ row.instance_id
    → other ≢ row
    → assert_classified other.error_code ≡ ok tt
    → let started = (start_sync_run alone row runs).1 in
      (started row.instance_id ≡ some row)
      × (start_sync_run alone row started ≡ (ok tt, started))
      × (start_sync_run alone other started ≡ (err payload_mismatch, started))
start_replay row other runs h same differs other_ok =
    let (is_ok, stored) = start-classified row runs h in
    let started : SyncRuns = (start_sync_run alone row runs).1 in
    (
      stored,
      start-again row started is_ok stored,
      start-other other row started other_ok (rw same stored) differs,
    )
