-- ===== src/Budget/Operations.antt =====
-- The batches and the exported operations of the daily budget.
use airing_cal.Common.{
  Result, ok, err, ◌>>=◌, ℕ, ◌/◌, Bool, false, not, ◌&&◌, Option, none, some, [], Text,
  Text-discrete, ltb, leb, ◌==◌, if◌then◌else◌, holds,
}
use airing_cal.Budget.{
  Submission, BudgetError, payload_mismatch, BudgetReservationRequest, BudgetReservationResult,
  BudgetReservationClaim, BudgetSubmissionTransition, StoredResult, SyncBudgetReservationRow,
  Database, max_date_seconds, non_negative_integer, validate_request, find_reservation,
  invalid_result_json, invalid_reservation_id, invalid_clock, invalid_time_value,
  cardinality_mismatch,
}
use airing_cal.Budget.Statements.{
  insert_budget, insert_reservation, apply_reservation, move_reserved_to_consumed,
  update_submission,
}

-- The expected fingerprint, if there is one, differs from that of the row.
abbrev pub is_mismatch : Option Text → Text → Bool
is_mismatch none fingerprint = false
is_mismatch (some expected) fingerprint = not (holds (Text-discrete fingerprint expected))

-- The checks of result_json.
abbrev pub is_stored_result : StoredResult → Bool
is_stored_result r =
    non_negative_integer r.granted
    && non_negative_integer r.consumed
    && non_negative_integer r.soft_limit
    && non_negative_integer r.hard_limit
    && leb r.soft_limit r.hard_limit
    && leb r.granted r.consumed
    && leb r.consumed r.hard_limit

-- parseReservation, on what SELECT_RESERVATION found; a missing row fails the cardinality check.
unfoldable pub parse_reservation :
    Option Text → Option SyncBudgetReservationRow → Result BudgetError BudgetReservationResult
parse_reservation expected none = err cardinality_mismatch
parse_reservation expected (some row) =
    if is_mismatch expected row.request_fingerprint
    then err (payload_mismatch row.reservation_id)
    else if is_stored_result row.result_json
    then ok (record {
      granted = row.result_json.granted;
      consumed = row.result_json.consumed;
      soft_limit = row.result_json.soft_limit;
      hard_limit = row.result_json.hard_limit;
      submission = row.submission_status;
    })
    else err invalid_result_json

abbrev pub day_of : ℕ → ℕ
day_of now = now / 86400

-- The three writing statements of a claim, in one transaction.
unfoldable pub claim_batch : ℕ → Text → BudgetReservationRequest → Database → Database × ℕ
claim_batch now fingerprint request db =
    let day = day_of now in
    let (inserted, changes) =
      insert_reservation day now fingerprint request (insert_budget day now db) in
    (apply_reservation day now request.reservation_id changes inserted, changes)

-- The claim that is read back after the batch.
unfoldable pub read_claim :
    Text → BudgetReservationRequest → ℕ → Database → Result BudgetError BudgetReservationClaim
read_claim fingerprint request changes db = do
  result ←
      parse_reservation (some fingerprint) (find_reservation request.reservation_id db.reservations)
  ok (record { result = result; created = changes == 1 })

unfoldable pub transition_batch : ℕ → Text → Submission → Database → Database × ℕ
transition_batch now id submission db =
    update_submission now id submission (move_reserved_to_consumed now id db)

-- transitionBudgetSubmission. `submission` is submitted or uncertain.
unfoldable pub transition_budget_submission :
    ℕ → Text → Submission → Database → Result BudgetError BudgetSubmissionTransition × Database
transition_budget_submission now id submission db =
    if holds (Text-discrete id [])
    then (err invalid_reservation_id, db)
    else let (db', changes) = transition_batch now id submission db in
      (
        do
          result ← parse_reservation none (find_reservation id db'.reservations)
          ok (record { result = result; transitioned = changes == 1 }),
        db',
      )

unfoldable pub mark_budget_submission :
    ℕ → Text → Submission → Database → Result BudgetError BudgetReservationResult × Database
mark_budget_submission now id submission db =
    let (transition, db') = transition_budget_submission now id submission db in
    (do t ← transition; ok t.result, db')

-- `fingerprint` is the SHA-256 of the request's canonical JSON without its reservation id.
module _ (fingerprint : BudgetReservationRequest → Text) where
  -- claimDailyBudgetReservation. What the batch wrote stays when the result is refused.
  unfoldable pub claim_daily_budget_reservation :
      ℕ → BudgetReservationRequest → Database → Result BudgetError BudgetReservationClaim × Database
  claim_daily_budget_reservation now request db = elim (validate_request request) [
    | err e ↦ (err e, db)
    | ok _ ↦
        if not (non_negative_integer now)
        then (err invalid_clock, db)
        else if ltb max_date_seconds now
        then (err invalid_time_value, db)
        else let (db', changes) = claim_batch now (fingerprint request) request db in
          (read_claim (fingerprint request) request changes db', db')
  ]

  unfoldable pub reserve_daily_budget :
      ℕ
      → BudgetReservationRequest
      → Database
      → Result BudgetError BudgetReservationResult × Database
  reserve_daily_budget now request db =
      let (claim, db') = claim_daily_budget_reservation now request db in
      (do c ← claim; ok c.result, db')
