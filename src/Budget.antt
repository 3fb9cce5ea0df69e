-- ===== src/Budget.antt =====
-- The daily budget of packages/storage/src/d1-budget.ts. A batch of SQL statements is one
-- transaction, written as the composition of its statements on the two tables. A day is the number
-- of its days since 1970, which stands for its ISO date; the one resource is `media`.
pub mod Statements
pub mod Operations
pub mod Tables
pub mod Balance
pub mod Transitions
pub mod Claims
pub mod Cap
mod Examples
use airing_cal.Common.{
  Result, ok, err, ◌>>=◌, ℕ, ◌+◌, ◌-◌, ◌*◌, ◌/◌, ◌≡◌, min, Bool, true, false, not, ◌&&◌, ◌||◌,
  Option, none, some, List, [], ◌∷◌, Text, Text-discrete, units, ltb, leb, ◌==◌, if◌then◌else◌,
  holds, length,
}

pub data SubmissionStatus : Type 0 where
  reserved submitted uncertain : SubmissionStatus

-- `Exclude<BudgetSubmissionStatus, 'reserved'>`: what a transition may lead to.
pub data Submission : Type 0 where
  submitted uncertain : Submission

abbrev pub status_of : Submission → SubmissionStatus
status_of Submission.submitted = SubmissionStatus.submitted
status_of Submission.uncertain = SubmissionStatus.uncertain

pub data BudgetError : Type 0 where
  invalid_budget_date invalid_resource invalid_reservation_id : BudgetError
  invalid_privileged_count invalid_limits invalid_clock invalid_time_value : BudgetError
  cardinality_mismatch invalid_result_json : BudgetError
  payload_mismatch : Text → BudgetError

-- A job is its canonical JSON.
pub record BudgetReservationRequest : Type 0 where
  pub date : Text
  pub resource : Text
  pub reservation_id : Text
  pub jobs : List Text
  pub privileged_count : ℕ
  pub soft_limit : ℕ
  pub hard_limit : ℕ

pub record BudgetReservationResult : Type 0 where
  pub granted : ℕ
  pub consumed : ℕ
  pub soft_limit : ℕ
  pub hard_limit : ℕ
  pub submission : SubmissionStatus

pub record BudgetReservationClaim : Type 0 where
  pub result : BudgetReservationResult
  pub created : Bool

pub record BudgetSubmissionTransition : Type 0 where
  pub result : BudgetReservationResult
  pub transitioned : Bool

-- A row of sync_budget, under its day.
pub record SyncBudgetRow : Type 0 where
  pub reserved : ℕ
  pub consumed : ℕ
  pub updated_at : ℕ

-- The object that result_json holds.
pub record StoredResult : Type 0 where
  pub granted : ℕ
  pub consumed : ℕ
  pub soft_limit : ℕ
  pub hard_limit : ℕ

-- A row of sync_budget_reservations.
pub record SyncBudgetReservationRow : Type 0 where
  pub reservation_id : Text
  pub date : ℕ
  pub request_fingerprint : Text
  pub result_json : StoredResult
  pub submission_status : SubmissionStatus
  pub created_at : ℕ
  pub updated_at : ℕ

pub record Database : Type 0 where
  pub sync_budget : List (ℕ × SyncBudgetRow)
  pub reservations : List SyncBudgetReservationRow

-- Number.MAX_SAFE_INTEGER, and the last second that a Date holds.
abbrev pub max_safe_integer : ℕ
max_safe_integer = 9007199254740991

abbrev pub max_date_seconds : ℕ
max_date_seconds = 8640000000000

abbrev pub non_negative_integer : ℕ → Bool
non_negative_integer n = leb n max_safe_integer

abbrev pub is_digit : ℕ → Bool
is_digit c = leb b'0' c && leb c b'9'

-- The pattern of a budget date: four digits, two and two.
is_budget_date : Text → Bool
is_budget_date (a ∷ b ∷ c ∷ d ∷ e ∷ f ∷ g ∷ h ∷ i ∷ j ∷ []) =
    (is_digit a && is_digit b && is_digit c && is_digit d && e == b'-')
    && (is_digit f && is_digit g && h == b'-')
    && (is_digit i && is_digit j)
is_budget_date _ = false

pub validate_request : BudgetReservationRequest → Result BudgetError (Unit {0})
unfolding is_budget_date Text-discrete
validate_request request =
    if not (is_budget_date request.date)
    then err invalid_budget_date
    else if not (holds (Text-discrete request.resource (units "media")))
    then err invalid_resource
    else if holds (Text-discrete request.reservation_id [])
    then err invalid_reservation_id
    else if not (non_negative_integer request.privileged_count)
        || ltb (length request.jobs) request.privileged_count
    then err invalid_privileged_count
    else if not (non_negative_integer request.soft_limit)
        || not (non_negative_integer request.hard_limit)
        || ltb request.hard_limit request.soft_limit
    then err invalid_limits
    else ok tt

-- Rows by their primary keys.
pub find_budget : ℕ → List (ℕ × SyncBudgetRow) → Option SyncBudgetRow
find_budget day [] = none
find_budget day ((d, row) ∷ rows) = if day == d then some row else find_budget day rows

pub find_reservation : Text → List SyncBudgetReservationRow → Option SyncBudgetReservationRow
find_reservation id [] = none
find_reservation id (row ∷ rows) =
    if holds (Text-discrete id row.reservation_id) then some row else find_reservation id rows

-- `UPDATE … WHERE (date, resource) = …`
pub update_budget :
    ℕ → (SyncBudgetRow → SyncBudgetRow) → List (ℕ × SyncBudgetRow) → List (ℕ × SyncBudgetRow)
update_budget day f [] = []
update_budget day f ((d, row) ∷ rows) =
    if day == d then (d, f row) ∷ rows else (d, row) ∷ update_budget day f rows

-- `UPDATE … WHERE reservation_id = …`
pub set_status :
    Text → SubmissionStatus → ℕ → List SyncBudgetReservationRow → List SyncBudgetReservationRow
set_status id status now [] = []
set_status id status now (row ∷ rows) =
    if holds (Text-discrete id row.reservation_id)
    then record row { submission_status = status; updated_at = now } ∷ rows
    else row ∷ set_status id status now rows
