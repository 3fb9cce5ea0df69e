-- ===== src/Budget/Statements.antt =====
-- The SQL statements of the daily budget on its two tables.
use airing_cal.Common.{
  ℕ, ◌+◌, ◌-◌, min, Bool, true, false, Option, none, some, ◌∷◌, Text, ◌==◌, if◌then◌else◌, length,
}
use airing_cal.Budget.{
  SubmissionStatus, Submission, status_of, BudgetReservationRequest, SyncBudgetRow,
  SyncBudgetReservationRow, Database, find_budget, find_reservation, update_budget, set_status,
}

-- INSERT_BUDGET
unfoldable pub insert_budget : ℕ → ℕ → Database → Database
insert_budget day now db = elim (find_budget day db.sync_budget) [
  | none ↦ record db {
    sync_budget = (day, record { reserved = 0; consumed = 0; updated_at = now }) ∷ db.sync_budget;
  }
  | some _ ↦ db
]

-- The jobs that INSERT_RESERVATION grants. Privileged jobs go first and may use the hard limit;
-- the others stop at the soft limit.
unfoldable pub granted_jobs : ℕ → ℕ → ℕ → ℕ → ℕ → ℕ
granted_jobs occupied requested privileged soft_limit hard_limit =
    let first = min privileged (hard_limit - occupied) in
    first + min (requested - privileged) (soft_limit - occupied - first)

-- The row that INSERT_RESERVATION selects.
unfoldable pub new_reservation :
    ℕ → ℕ → Text → BudgetReservationRequest → SyncBudgetRow → SyncBudgetReservationRow
unfolding granted_jobs
new_reservation day now fingerprint request usage =
    let occupied = usage.reserved + usage.consumed in
    let granted =
      granted_jobs occupied (length request.jobs) request.privileged_count request.soft_limit
        request.hard_limit in
    record {
      reservation_id = request.reservation_id;
      date = day;
      request_fingerprint = fingerprint;
      result_json = record {
        granted = granted;
        consumed = occupied + granted;
        soft_limit = request.soft_limit;
        hard_limit = request.hard_limit;
      };
      submission_status = SubmissionStatus.reserved;
      created_at = now;
      updated_at = now;
    }

-- INSERT_RESERVATION, with the number of rows that it changed.
unfoldable pub insert_reservation :
    ℕ → ℕ → Text → BudgetReservationRequest → Database → Database × ℕ
insert_reservation day now fingerprint request db =
    elim (find_reservation request.reservation_id db.reservations) [
      | some _ ↦ (db, 0)
      | none ↦ elim (find_budget day db.sync_budget) [
        | none ↦ (db, 0)
        | some usage ↦ (
          record db {
            reservations = new_reservation day now fingerprint request usage ∷ db.reservations;
          },
          1,
        )
      ]
    ]

-- `COALESCE((SELECT json_extract(result_json, '$.granted') … WHERE reservation_id = ?), 0)`
abbrev pub granted_of : Option SyncBudgetReservationRow → ℕ
granted_of none = 0
granted_of (some row) = row.result_json.granted

abbrev pub add_reserved : ℕ → ℕ → SyncBudgetRow → SyncBudgetRow
add_reserved granted now row = record row { reserved = row.reserved + granted; updated_at = now }

-- APPLY_RESERVATION; `changes` is what the statement before it changed.
unfoldable pub apply_reservation : ℕ → ℕ → Text → ℕ → Database → Database
apply_reservation day now id changes db =
    let granted = granted_of (find_reservation id db.reservations) in
    if changes == 1
    then record db { sync_budget = update_budget day (add_reserved granted now) db.sync_budget }
    else db

abbrev pub move_granted : ℕ → ℕ → SyncBudgetRow → SyncBudgetRow
move_granted granted now row = record row {
  reserved = row.reserved - granted;
  consumed = row.consumed + granted;
  updated_at = now;
}

-- MOVE_RESERVED_TO_CONSUMED
unfoldable pub move_reserved_to_consumed : ℕ → Text → Database → Database
move_reserved_to_consumed now id db = elim (find_reservation id db.reservations) [
  | none ↦ db
  | some row ↦ elim row.submission_status [
    | SubmissionStatus.reserved ↦ record db {
      sync_budget =
          update_budget row.date (move_granted row.result_json.granted now) db.sync_budget;
    }
    | _ ↦ db
  ]
]

-- Which rows UPDATE_SUBMISSION changes: reserved ones, and uncertain ones that become submitted.
abbrev pub accepts_transition : SubmissionStatus → Submission → Bool
accepts_transition SubmissionStatus.reserved submission = true
accepts_transition SubmissionStatus.uncertain Submission.submitted = true
accepts_transition _ _ = false

-- UPDATE_SUBMISSION, with the number of rows that it changed.
unfoldable pub update_submission : ℕ → Text → Submission → Database → Database × ℕ
update_submission now id submission db = elim (find_reservation id db.reservations) [
  | none ↦ (db, 0)
  | some row ↦
      if accepts_transition row.submission_status submission
      then (
        record db { reservations = set_status id (status_of submission) now db.reservations },
        1,
      )
      else (db, 0)
]
