-- ===== src/Budget/Examples.antt =====
-- A day with two claims: the witnesses of the theorems about the budget, and tests of it.
use airing_cal.Common.{
  ◌-◌, err, ok, ℕ, ◌+◌, ◌≤◌, ◌≡◌, refl, true, false, none, some, List, [], ◌∷◌, Text, Text-discrete,
  units, arith,
}
use airing_cal.Budget.{
  SubmissionStatus, Submission, invalid_result_json, BudgetReservationRequest,
  BudgetReservationResult, BudgetReservationClaim, SyncBudgetReservationRow, Database, find_budget,
  find_reservation, update_budget, validate_request, set_status,
}
use airing_cal.Budget.Statements.{
  insert_budget, granted_jobs, new_reservation, insert_reservation, apply_reservation,
  move_reserved_to_consumed, update_submission,
}
use airing_cal.Budget.Operations.{
  parse_reservation, claim_batch, read_claim, claim_daily_budget_reservation,
  transition_budget_submission, transition_batch,
}
use airing_cal.Budget.Tables.{reserved_on, consumed_on, occupied_on, held, spent}
use airing_cal.Budget.Balance.{reservation_for}
use airing_cal.Budget.Transitions.{answered_again, transition_idempotent}
use airing_cal.Budget.Claims.{IsMost, claim_replay, claim_granted, claim_past_hard_limit}
use airing_cal.Budget.Cap.{Operation, claim, transition, empty_database, run, run-within_cap}

abbrev request : BudgetReservationRequest
request = record {
  date = units "2026-07-01";
  resource = units "media";
  reservation_id = units "r1";
  jobs = units "a" ∷ units "b" ∷ units "c" ∷ [];
  privileged_count = 1;
  soft_limit = 2;
  hard_limit = 4;
}

-- The digest of a request, in these examples its reservation's jobs.
abbrev digest : BudgetReservationRequest → Text
digest r = units "d"

-- One privileged and one ordinary job: the soft limit keeps the third one out.
abbrev granted : BudgetReservationResult
granted = record {
  granted = 2;
  consumed = 2;
  soft_limit = 2;
  hard_limit = 4;
  submission = SubmissionStatus.reserved;
}

abbrev first_claim : BudgetReservationClaim
first_claim = record { result = granted; created = true }

abbrev reservation : SyncBudgetReservationRow
reservation = record {
  reservation_id = units "r1";
  date = 1;
  request_fingerprint = units "d";
  result_json = record { granted = 2; consumed = 2; soft_limit = 2; hard_limit = 4 };
  submission_status = SubmissionStatus.reserved;
  created_at = 90000;
  updated_at = 90000;
}

abbrev claimed : Database
claimed = record {
  sync_budget = (1, record { reserved = 2; consumed = 0; updated_at = 90000 }) ∷ [];
  reservations = reservation ∷ [];
}

request-valid : validate_request request ≡ ok tt
unfolding validate_request
request-valid = refl

claim-first :
    claim_daily_budget_reservation digest 90000 request empty_database ≡ (ok first_claim, claimed)
unfolding claim_daily_budget_reservation validate_request claim_batch insert_budget
    insert_reservation new_reservation apply_reservation read_claim parse_reservation find_budget
    find_reservation update_budget Text-discrete
claim-first = refl

abbrev consumed_row : ℕ → SyncBudgetReservationRow
consumed_row now = record reservation {
  submission_status = SubmissionStatus.submitted;
  updated_at = now;
}

transition-first :
    (transition_budget_submission 90001 (units "r1") Submission.submitted claimed).1 ≡ record {
      sync_budget = (1, record { reserved = 0; consumed = 2; updated_at = 90001 }) ∷ [];
      reservations = consumed_row 90001 ∷ [];
    }
unfolding transition_budget_submission transition_batch move_reserved_to_consumed update_submission
    find_reservation update_budget set_status Text-discrete
transition-first = refl

transition_idempotent_example :
    let (answer, db') =
      transition_budget_submission 90001 (units "r1") Submission.submitted claimed in
    transition_budget_submission 90002 (units "r1") Submission.submitted db'
    ≡ (answered_again answer, db')
transition_idempotent_example =
    transition_idempotent 90001 90002 (units "r1") Submission.submitted claimed

claim_replay_example :
    let (again, db'') = claim_daily_budget_reservation digest 180000 request claimed in
    (again ≡ ok (record first_claim { created = false }))
    × (db''.reservations ≡ claimed.reservations)
    × ((day : ℕ) → reserved_on day db'' ≡ reserved_on day claimed)
    × ((day : ℕ) → consumed_on day db'' ≡ consumed_on day claimed)
claim_replay_example =
    claim_replay digest 90000 180000 request empty_database claim-first (omega arith)

found-reservation : find_reservation request.reservation_id claimed.reservations ≡ some reservation
unfolding find_reservation Text-discrete
found-reservation = refl

abbrev second : BudgetReservationRequest
second = record request { reservation_id = units "r2"; hard_limit = 3 }

second-valid : validate_request second ≡ ok tt
unfolding validate_request
second-valid = refl

second-new : find_reservation second.reservation_id claimed.reservations ≡ none
unfolding find_reservation Text-discrete
second-new = refl

below-limit : occupied_on 1 claimed ≤ second.hard_limit
unfolding find_budget
below-limit = omega arith

-- The day has two jobs: only the privileged job fits.
claim_granted_example :
    (privileged : ℕ) × (ordinary : ℕ) × IsMost (occupied_on 1 claimed) 1 3 privileged
    × IsMost (occupied_on 1 claimed + privileged) (3 - 1) 2 ordinary
    × ((claim_daily_budget_reservation digest 90010 second claimed).0
        ≡ ok (record {
          result = record {
            granted = privileged + ordinary;
            consumed = occupied_on 1 claimed + (privileged + ordinary);
            soft_limit = 2;
            hard_limit = 3;
            submission = SubmissionStatus.reserved;
          };
          created = true;
        }))
claim_granted_example =
    claim_granted digest 90010 second claimed second-valid (omega arith) second-new below-limit

granted-second : granted_jobs 2 3 1 2 3 ≡ 1
unfolding granted_jobs
granted-second = refl

abbrev lowered : BudgetReservationRequest
lowered = record request { reservation_id = units "r3"; soft_limit = 1; hard_limit = 1 }

lowered-valid : validate_request lowered ≡ ok tt
unfolding validate_request
lowered-valid = refl

lowered-new : find_reservation lowered.reservation_id claimed.reservations ≡ none
unfolding find_reservation Text-discrete
lowered-new = refl

above-limit : 1 + 1 ≤ occupied_on 1 claimed
unfolding find_budget
above-limit = omega arith

claim_past_hard_limit_example :
    let (answer, db') = claim_daily_budget_reservation digest 90020 lowered claimed in
    (answer ≡ err invalid_result_json)
    × (db'.reservations ≡ reservation_for 90020 (units "d") lowered claimed ∷ claimed.reservations)
claim_past_hard_limit_example =
    claim_past_hard_limit digest 90020 lowered claimed lowered-valid (omega arith) lowered-new
      above-limit

abbrev history : List Operation
history =
    claim 90000 request
    ∷ transition 90001 (units "r1") Submission.uncertain
    ∷ claim 90010 second
    ∷ transition 90011 (units "r1") Submission.submitted
    ∷ []

run-within_cap_example :
    let db = run digest history empty_database in
    (reserved_on 1 db ≡ held 1 db.reservations)
    × (consumed_on 1 db ≡ spent 1 db.reservations)
    × (held 1 db.reservations + spent 1 db.reservations ≤ 4)
run-within_cap_example = run-within_cap digest 4 history 1 (omega arith)
