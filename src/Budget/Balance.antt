-- ===== src/Budget/Balance.antt =====
-- The budget rows agree with the reservations, through every claim and every transition.
use airing_cal.Common.{
  ℕ, ◌+◌, ◌≡◌, inl, inr, none, some, ◌∷◌, Text, ◌==◌, if◌then◌else◌, Option-cases, arith,
}
use airing_cal.Budget.{
  SyncBudgetRow, SyncBudgetReservationRow, Database, BudgetReservationRequest, find_budget,
  find_reservation, update_budget,
}
use airing_cal.Budget.Statements.{
  insert_budget, insert_reservation, apply_reservation, add_reserved, new_reservation,
}
use airing_cal.Budget.Operations.{claim_batch, day_of}
use airing_cal.Budget.Tables.{
  reserved_on, consumed_on, held, spent, or_fresh, find_budget-update_budget,
  find_budget-insert_budget, reservations-insert_budget, insert_budget_amounts,
}

-- A day's reserved amount is what its open reservations hold, and its consumed amount what the
-- others were granted.
pub record IsBalanced (db : Database) : Type 0 where
  pub reserved_matches : (day : ℕ) → reserved_on day db ≡ held day db.reservations
  pub consumed_matches : (day : ℕ) → consumed_on day db ≡ spent day db.reservations

-- A claim under an id that is taken adds at most an empty row for its day.
pub claim_batch_of_taken :
    (now : ℕ) (fingerprint : Text) (request : BudgetReservationRequest) (db : Database)
    {row : SyncBudgetReservationRow}
    → find_reservation request.reservation_id db.reservations ≡ some row
    → claim_batch now fingerprint request db ≡ (insert_budget (day_of now) now db, 0)
unfolding claim_batch insert_reservation apply_reservation
claim_batch_of_taken now fingerprint request db h =
    ground (arith, reservations-insert_budget (day_of now) now db)

-- The row that a claim under a new id adds, and the usage that it read.
abbrev pub usage_for : ℕ → Database → SyncBudgetRow
usage_for now db = or_fresh now (find_budget (day_of now) db.sync_budget)

abbrev pub reservation_for :
    ℕ → Text → BudgetReservationRequest → Database → SyncBudgetReservationRow
reservation_for now fingerprint request db =
    new_reservation (day_of now) now fingerprint request (usage_for now db)

pub find_reservation-reservation_for :
    (now : ℕ) (fingerprint : Text) (request : BudgetReservationRequest) (db : Database)
    → find_reservation request.reservation_id
        (reservation_for now fingerprint request db ∷ db.reservations)
      ≡ some (reservation_for now fingerprint request db)
unfolding find_reservation new_reservation
find_reservation-reservation_for now fingerprint request db = ground arith

abbrev pub after_claim : ℕ → Text → BudgetReservationRequest → Database → Database
after_claim now fingerprint request db =
    let row = reservation_for now fingerprint request db in
    record {
      sync_budget =
          update_budget (day_of now) (add_reserved row.result_json.granted now)
            (insert_budget (day_of now) now db).sync_budget;
      reservations = row ∷ db.reservations;
    }

insert_reservation_of_new :
    (now : ℕ) (fingerprint : Text) (request : BudgetReservationRequest) (db : Database)
    → find_reservation request.reservation_id db.reservations ≡ none
    → insert_reservation (day_of now) now fingerprint request (insert_budget (day_of now) now db)
      ≡ (
        record {
          sync_budget = (insert_budget (day_of now) now db).sync_budget;
          reservations = reservation_for now fingerprint request db ∷ db.reservations;
        },
        1,
      )
unfolding insert_reservation
insert_reservation_of_new now fingerprint request db h = ground (
  arith,
  reservations-insert_budget (day_of now) now db,
  find_budget-insert_budget (day_of now) (day_of now) now db,
)

-- A claim under a new id adds its reservation and reserves what it grants.
pub claim_batch_of_new :
    (now : ℕ) (fingerprint : Text) (request : BudgetReservationRequest) (db : Database)
    → find_reservation request.reservation_id db.reservations ≡ none
    → claim_batch now fingerprint request db ≡ (after_claim now fingerprint request db, 1)
unfolding claim_batch apply_reservation
claim_batch_of_new now fingerprint request db h =
    rw (insert_reservation_of_new now fingerprint request db h)
      (rw (find_reservation-reservation_for now fingerprint request db))

pub after_claim_amounts :
    (day now : ℕ) (fingerprint : Text) (request : BudgetReservationRequest) (db : Database)
    → let granted = (reservation_for now fingerprint request db).result_json.granted in
      (reserved_on day (after_claim now fingerprint request db)
        ≡ reserved_on day db + (if day == day_of now then granted else 0))
      × (consumed_on day (after_claim now fingerprint request db) ≡ consumed_on day db)
after_claim_amounts day now fingerprint request db = ground (
  arith,
  find_budget-update_budget day (day_of now)
      (add_reserved (reservation_for now fingerprint request db).result_json.granted now)
      (insert_budget (day_of now) now db).sync_budget,
  find_budget-insert_budget day (day_of now) now db,
  find_budget-insert_budget (day_of now) (day_of now) now db,
)

-- A claim keeps the balance.
pub claim_batch-IsBalanced :
    (now : ℕ) (fingerprint : Text) (request : BudgetReservationRequest) (db : Database)
    → IsBalanced db
    → IsBalanced (claim_batch now fingerprint request db).0
claim_batch-IsBalanced now fingerprint request db v =
    elim (Option-cases (find_reservation request.reservation_id db.reservations)) [
      | inr (row, taken) ↦ rw (claim_batch_of_taken now fingerprint request db taken) (record {
        reserved_matches = λ day. ground (
          arith,
          insert_budget_amounts day (day_of now) now db,
          reservations-insert_budget (day_of now) now db,
          v.reserved_matches day,
        );
        consumed_matches = λ day. ground (
          arith,
          insert_budget_amounts day (day_of now) now db,
          reservations-insert_budget (day_of now) now db,
          v.consumed_matches day,
        );
      })
      | inl new ↦ rw (claim_batch_of_new now fingerprint request db new) (record {
        reserved_matches = λ day.
            unfold held new_reservation in
            ground
              (arith, after_claim_amounts day now fingerprint request db, v.reserved_matches day);
        consumed_matches = λ day.
            unfold spent new_reservation in
            ground
              (arith, after_claim_amounts day now fingerprint request db, v.consumed_matches day);
      })
    ]
