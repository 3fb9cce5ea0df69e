-- ===== src/Budget/Tables.antt =====
-- The two tables under their updates, and the amounts that they record for a day.
use mathlib.Core.Option
use airing_cal.Common.{
  ℕ, ◌+◌, ◌≤◌, ◌≡◌, Bool, true, false, ◌&&◌, Option, none, some, List, [], ◌∷◌, Text, ◌==◌,
  if◌then◌else◌, arith,
}
use airing_cal.Budget.{
  SubmissionStatus, SyncBudgetRow, SyncBudgetReservationRow, Database, find_budget,
  find_reservation, update_budget, set_status,
}
use airing_cal.Budget.Statements.{insert_budget}

abbrev pub reserved_of : Option SyncBudgetRow → ℕ
reserved_of none = 0
reserved_of (some row) = row.reserved

abbrev pub consumed_of : Option SyncBudgetRow → ℕ
consumed_of none = 0
consumed_of (some row) = row.consumed

-- What the row of a day has  consumed, and both together.
abbrev pub reserved_on : ℕ → Database → ℕ
reserved_on day db = reserved_of (find_budget day db.sync_budget)

abbrev pub consumed_on : ℕ → Database → ℕ
consumed_on day db = consumed_of (find_budget day db.sync_budget)

abbrev pub occupied_on : ℕ → Database → ℕ
occupied_on day db = reserved_on day db + consumed_on day db

abbrev pub is_reserved : SubmissionStatus → Bool
is_reserved SubmissionStatus.reserved = true
is_reserved _ = false

-- The share of one reservation in the  and in the consumed amount of a day.
abbrev pub held_by : ℕ → SyncBudgetReservationRow → ℕ
held_by day row =
    if day == row.date && is_reserved row.submission_status then row.result_json.granted else 0

abbrev pub spent_by : ℕ → SyncBudgetReservationRow → ℕ
spent_by day row =
    if day == row.date
    then (if is_reserved row.submission_status then 0 else row.result_json.granted)
    else 0

-- What the reservations of a day hold, and what they have spent.
unfoldable pub held : ℕ → List SyncBudgetReservationRow → ℕ
held day [] = 0
held day (row ∷ rows) = held_by day row + held day rows

unfoldable pub spent : ℕ → List SyncBudgetReservationRow → ℕ
spent day [] = 0
spent day (row ∷ rows) = spent_by day row + spent day rows

pub find_budget-update_budget :
    (d day : ℕ) (f : SyncBudgetRow → SyncBudgetRow) (rows : List (ℕ × SyncBudgetRow))
    → find_budget d (update_budget day f rows)
      ≡ (if d == day then Option.map f (find_budget day rows) else find_budget d rows)
unfolding find_budget update_budget
find_budget-update_budget d day f [] = ground arith
find_budget-update_budget d day f ((e, row) ∷ rows) =
    ground (arith, find_budget-update_budget d day f rows)

abbrev pub fresh_row : ℕ → SyncBudgetRow
fresh_row now = record { reserved = 0; consumed = 0; updated_at = now }

abbrev pub or_fresh : ℕ → Option SyncBudgetRow → SyncBudgetRow
or_fresh now none = fresh_row now
or_fresh now (some row) = row

pub find_budget-insert_budget :
    (d day now : ℕ) (db : Database)
    → find_budget d (insert_budget day now db).sync_budget ≡ (
        if d == day
        then some (or_fresh now (find_budget day db.sync_budget))
        else find_budget d db.sync_budget)
unfolding insert_budget find_budget
find_budget-insert_budget d day now db = ground arith

pub reservations-insert_budget :
    (day now : ℕ) (db : Database) → (insert_budget day now db).reservations ≡ db.reservations
unfolding insert_budget
reservations-insert_budget day now db = ground arith

-- A row for the day changes no amount.
pub insert_budget_amounts :
    (d day now : ℕ) (db : Database)
    → (reserved_on d (insert_budget day now db) ≡ reserved_on d db)
      × (consumed_on d (insert_budget day now db) ≡ consumed_on d db)
insert_budget_amounts d day now db = ground (arith, find_budget-insert_budget d day now db)

pub held-set_status :
    (d now : ℕ) (id : Text) (status : SubmissionStatus) (rows : List SyncBudgetReservationRow)
    {row : SyncBudgetReservationRow}
    → find_reservation id rows ≡ some row
    → held d (set_status id status now rows) + held_by d row
      ≡ held d rows + held_by d (record row { submission_status = status })
unfolding find_reservation set_status held
held-set_status d now id status [] h = cc
held-set_status d now id status (r ∷ rows) {row} h =
    ground (arith, held-set_status d now id status rows {row = row})

pub spent-set_status :
    (d now : ℕ) (id : Text) (status : SubmissionStatus) (rows : List SyncBudgetReservationRow)
    {row : SyncBudgetReservationRow}
    → find_reservation id rows ≡ some row
    → spent d (set_status id status now rows) + spent_by d row
      ≡ spent d rows + spent_by d (record row { submission_status = status })
unfolding find_reservation set_status spent
spent-set_status d now id status [] h = cc
spent-set_status d now id status (r ∷ rows) {row} h =
    ground (arith, spent-set_status d now id status rows {row = row})

pub find_reservation-set_status :
    (now : ℕ) (id : Text) (status : SubmissionStatus) (rows : List SyncBudgetReservationRow)
    {row : SyncBudgetReservationRow}
    → find_reservation id rows ≡ some row
    → find_reservation id (set_status id status now rows)
      ≡ some (record row { submission_status = status; updated_at = now })
unfolding find_reservation set_status
find_reservation-set_status now id status [] h = cc
find_reservation-set_status now id status (r ∷ rows) {row} h =
    ground (arith, find_reservation-set_status now id status rows {row = row})

pub held_by-le :
    (d : ℕ) (id : Text) (rows : List SyncBudgetReservationRow) {row : SyncBudgetReservationRow}
    → find_reservation id rows ≡ some row
    → held_by d row ≤ held d rows
unfolding find_reservation held
held_by-le d id [] h = cc
held_by-le d id (r ∷ rows) {row} h = ground (arith, held_by-le d id rows {row = row})
