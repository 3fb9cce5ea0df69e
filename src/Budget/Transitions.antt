-- ===== src/Budget/Transitions.antt =====
-- A transition of a reservation: the three cases of its batch, and the amounts after it.
use airing_cal.Common.{
  Result, err, ok, ℕ, ◌+◌, ◌≡◌, ◌≢◌, ◌⊎◌, refl, inl, inr, false, none, some, Text, if◌then◌else◌,
  Bool-cases, Option-cases, arith,
}
use airing_cal.Budget.{
  BudgetError, SubmissionStatus, Submission, status_of, BudgetSubmissionTransition,
  SyncBudgetReservationRow, Database, find_reservation, update_budget, set_status,
}
use airing_cal.Budget.Statements.{
  move_granted, move_reserved_to_consumed, update_submission, accepts_transition,
}
use airing_cal.Budget.Operations.{transition_budget_submission, transition_batch}
use airing_cal.Budget.Tables.{
  reserved_on, is_reserved, consumed_on, held_by, find_budget-update_budget, held-set_status,
  find_reservation-set_status, spent-set_status, held_by-le,
}
use airing_cal.Budget.Balance.{IsBalanced}

-- A transition leaves alone a database without the reservation, or with one that is past it.
pub transition_batch_of_missing :
    (now : ℕ) (id : Text) (submission : Submission) (db : Database)
    → find_reservation id db.reservations ≡ none
    → transition_batch now id submission db ≡ (db, 0)
unfolding transition_batch move_reserved_to_consumed update_submission
transition_batch_of_missing now id submission db h = ground arith

-- The first transition moves what was granted from the reserved to the consumed amount.
abbrev pub after_move : ℕ → Text → Submission → SyncBudgetReservationRow → Database → Database
after_move now id submission row db = record {
  sync_budget = update_budget row.date (move_granted row.result_json.granted now) db.sync_budget;
  reservations = set_status id (status_of submission) now db.reservations;
}

pub transition_batch_of_reserved :
    (now : ℕ) (id : Text) (submission : Submission) (db : Database) {row : SyncBudgetReservationRow}
    → find_reservation id db.reservations ≡ some row
    → row.submission_status ≡ SubmissionStatus.reserved
    → transition_batch now id submission db ≡ (after_move now id submission row db, 1)
unfolding transition_batch move_reserved_to_consumed update_submission
transition_batch_of_reserved now id submission db h e = ground arith

-- A later one changes the status at most.
pub transition_batch_of_moved :
    (now : ℕ) (id : Text) (submission : Submission) (db : Database) {row : SyncBudgetReservationRow}
    → find_reservation id db.reservations ≡ some row
    → row.submission_status ≢ SubmissionStatus.reserved
    → transition_batch now id submission db ≡ (
        if accepts_transition row.submission_status submission
        then (
          record db { reservations = set_status id (status_of submission) now db.reservations },
          1,
        )
        else (db, 0))
unfolding transition_batch move_reserved_to_consumed update_submission
transition_batch_of_moved now id submission db h e = ground arith

-- In a balanced database the move takes from the reserved amount what it adds to the consumed one.
pub after_move_amounts :
    (day now : ℕ) (id : Text) (submission : Submission) (db : Database)
    {row : SyncBudgetReservationRow}
    → IsBalanced db
    → find_reservation id db.reservations ≡ some row
    → row.submission_status ≡ SubmissionStatus.reserved
    → let db' = after_move now id submission row db in
      let moved = held_by day row in
      (reserved_on day db' + moved ≡ reserved_on day db)
      × (consumed_on day db' ≡ consumed_on day db + moved)
after_move_amounts day now id submission db {row} v h e = ground (
  arith,
  find_budget-update_budget day row.date (move_granted row.result_json.granted now) db.sync_budget,
  held_by-le day id db.reservations {row = row} h,
  v.reserved_matches day,
)

status_of-ne_reserved : (s : Submission) → is_reserved (status_of s) ≡ false
status_of-ne_reserved Submission.submitted = refl
status_of-ne_reserved Submission.uncertain = refl

pub status-cases :
    (s : SubmissionStatus) → (s ≡ SubmissionStatus.reserved) ⊎ (s ≢ SubmissionStatus.reserved)
status-cases SubmissionStatus.reserved = inl refl
status-cases SubmissionStatus.submitted = inr (λ e. cc)
status-cases SubmissionStatus.uncertain = inr (λ e. cc)

after_move-IsBalanced :
    (now : ℕ) (id : Text) (submission : Submission) (db : Database) {row : SyncBudgetReservationRow}
    → IsBalanced db
    → find_reservation id db.reservations ≡ some row
    → row.submission_status ≡ SubmissionStatus.reserved
    → IsBalanced (after_move now id submission row db)
after_move-IsBalanced now id submission db {row} v h e = record {
  reserved_matches = λ day. ground (
    arith,
    after_move_amounts day now id submission db {row = row} v h e,
    held-set_status day now id (status_of submission) db.reservations {row = row} h,
    status_of-ne_reserved submission,
    v.reserved_matches day,
  );
  consumed_matches = λ day. ground (
    arith,
    after_move_amounts day now id submission db {row = row} v h e,
    spent-set_status day now id (status_of submission) db.reservations {row = row} h,
    status_of-ne_reserved submission,
    v.consumed_matches day,
  );
}

after_status-IsBalanced :
    (now : ℕ) (id : Text) (submission : Submission) (db : Database) {row : SyncBudgetReservationRow}
    → IsBalanced db
    → find_reservation id db.reservations ≡ some row
    → row.submission_status ≢ SubmissionStatus.reserved
    → IsBalanced
        (record db { reservations = set_status id (status_of submission) now db.reservations })
after_status-IsBalanced now id submission db {row} v h e = record {
  reserved_matches = λ day. ground (
    arith,
    held-set_status day now id (status_of submission) db.reservations {row = row} h,
    status_of-ne_reserved submission,
    v.reserved_matches day,
  );
  consumed_matches = λ day. ground (
    arith,
    spent-set_status day now id (status_of submission) db.reservations {row = row} h,
    status_of-ne_reserved submission,
    v.consumed_matches day,
  );
}

-- A transition keeps the balance.
pub transition_batch-IsBalanced :
    (now : ℕ) (id : Text) (submission : Submission) (db : Database)
    → IsBalanced db
    → IsBalanced (transition_batch now id submission db).0
transition_batch-IsBalanced now id submission db v =
    elim (Option-cases (find_reservation id db.reservations)) [
      | inl missing ↦ rw (transition_batch_of_missing now id submission db missing) v
      | inr (row, h) ↦ elim (status-cases row.submission_status) [
        | inl e ↦
            rw (transition_batch_of_reserved now id submission db h e)
              (after_move-IsBalanced now id submission db {row = row} v h e)
        | inr e ↦
            rw (transition_batch_of_moved now id submission db h e)
              (elim (Bool-cases (accepts_transition row.submission_status submission)) [
                | inl accepted ↦
                    rw accepted (after_status-IsBalanced now id submission db {row = row} v h e)
                | inr refused ↦ rw refused v
              ])
      ]
    ]

accepts_transition-status_of : (s : Submission) → accepts_transition (status_of s) s ≡ false
accepts_transition-status_of Submission.submitted = refl
accepts_transition-status_of Submission.uncertain = refl

-- After the status is set, the same transition finds nothing to do.
transition_batch_again :
    (later : ℕ) (id : Text) (submission : Submission) (db : Database)
    {row : SyncBudgetReservationRow}
    → find_reservation id db.reservations ≡ some row
    → row.submission_status ≡ status_of submission
    → transition_batch later id submission db ≡ (db, 0)
transition_batch_again later id submission db {row} h e =
    rw
      (transition_batch_of_moved later id submission db h
        (λ r. ground (arith, status_of-ne_reserved submission)))
      (ground (arith, accepts_transition-status_of submission))

transition_batch_idempotent :
    (now later : ℕ) (id : Text) (submission : Submission) (db : Database)
    → let db' = (transition_batch now id submission db).0 in
      transition_batch later id submission db' ≡ (db', 0)
transition_batch_idempotent now later id submission db =
    elim (Option-cases (find_reservation id db.reservations)) [
      | inl missing ↦
          rw (transition_batch_of_missing now id submission db missing)
            (transition_batch_of_missing later id submission db missing)
      | inr (row, h) ↦
          let set =
            find_reservation-set_status now id (status_of submission) db.reservations {row = row}
              h in
          elim (status-cases row.submission_status) [
            | inl e ↦ rw (transition_batch_of_reserved now id submission db h e) (
                transition_batch_again later id submission (after_move now id submission row db) set
                  refl)
            | inr e ↦ elim (Bool-cases (accepts_transition row.submission_status submission)) [
              | inl accepted ↦
                  rw (transition_batch_of_moved now id submission db h e, accepted)
                    (transition_batch_again later id submission
                      (record db {
                        reservations = set_status id (status_of submission) now db.reservations;
                      })
                      set refl)
              | inr refused ↦
                  rw (transition_batch_of_moved now id submission db h e, refused)
                    (rw (transition_batch_of_moved later id submission db h e, refused))
            ]
          ]
    ]

-- The answer to a repeated transition.
abbrev pub answered_again :
    Result BudgetError BudgetSubmissionTransition → Result BudgetError BudgetSubmissionTransition
answered_again (ok t) = ok (record t { transitioned = false })
answered_again (err e) = err e

-- Repeating a transition, at any time, changes nothing and answers with the same reservation, not
-- transitioned; an error stays that error.
pub transition_idempotent :
    (now later : ℕ) (id : Text) (submission : Submission) (db : Database)
    → let (answer, db') = transition_budget_submission now id submission db in
      transition_budget_submission later id submission db' ≡ (answered_again answer, db')
unfolding transition_budget_submission
transition_idempotent now later id submission db =
    ground (arith, transition_batch_idempotent now later id submission db)
