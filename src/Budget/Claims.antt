-- ===== src/Budget/Claims.antt =====
-- What a claim answers: a new reservation, the one made before under the same id, or an error.
use airing_cal.Common.{
  err, ok, ℕ, ◌+◌, ◌-◌, ◌⊎◌, min, ◌≤◌, ◌<◌, ◌≡◌, ◌≢◌, refl, inl, inr, max, true, false, none, some,
  ◌∷◌, Text, Option-cases, arith, length,
}
use airing_cal.Budget.{
  SubmissionStatus, payload_mismatch, invalid_result_json, SyncBudgetReservationRow, Database,
  BudgetReservationRequest, BudgetReservationClaim, find_reservation, validate_request,
  max_date_seconds, max_safe_integer,
}
use airing_cal.Budget.Statements.{insert_budget, new_reservation, granted_jobs}
use airing_cal.Budget.Operations.{
  claim_batch, read_claim, parse_reservation, claim_daily_budget_reservation, day_of,
}
use airing_cal.Budget.Tables.{
  reserved_on, consumed_on, occupied_on, reservations-insert_budget, insert_budget_amounts,
}
use airing_cal.Budget.Balance.{
  claim_batch_of_taken, claim_batch_of_new, reservation_for, after_claim,
  find_reservation-reservation_for,
}

-- A request that passes asks for at most its jobs as privileged, and has ordered limits.
pub validate_request_sound :
    (request : BudgetReservationRequest) {u : Unit {0}}
    → validate_request request ≡ ok u
    → (request.privileged_count ≤ length request.jobs)
      × (request.soft_limit ≤ request.hard_limit)
      × (request.soft_limit ≤ max_safe_integer)
      × (request.hard_limit ≤ max_safe_integer)
unfolding validate_request
validate_request_sound request h = ground arith

-- A grant stays within the request, and takes the day to its hard limit at most.
pub granted_jobs_bounds :
    (occupied requested privileged soft_limit hard_limit : ℕ)
    → privileged ≤ requested
    → soft_limit ≤ hard_limit
    → let granted = granted_jobs occupied requested privileged soft_limit hard_limit in
      (granted ≤ requested)
      × (occupied + granted ≤ max occupied hard_limit)
      × (occupied + granted ≤ max soft_limit (occupied + privileged))
unfolding granted_jobs
granted_jobs_bounds occupied requested privileged soft_limit hard_limit h k = ground arith

-- The number of jobs that fit: none where the limit is reached, at most those asked for, and all
-- of them unless the limit is reached.
abbrev pub IsMost : ℕ → ℕ → ℕ → ℕ → Type 0
IsMost occupied asked limit granted =
    (granted ≤ asked)
    × ((granted ≡ 0) ⊎ (occupied + granted ≤ limit))
    × ((granted ≡ asked) ⊎ (limit ≤ occupied + granted))

min-IsMost : (occupied asked limit : ℕ) → IsMost occupied asked limit (min asked (limit - occupied))
min-IsMost occupied asked limit = ground arith

granted_jobs-IsMost :
    (occupied requested privileged soft_limit hard_limit : ℕ)
    → (first : ℕ) × (rest : ℕ) × IsMost occupied privileged hard_limit first
      × IsMost (occupied + first) (requested - privileged) soft_limit rest
      × (granted_jobs occupied requested privileged soft_limit hard_limit ≡ first + rest)
unfolding granted_jobs
granted_jobs-IsMost occupied requested privileged soft_limit hard_limit =
    let first = min privileged (hard_limit - occupied) in
    (
      first,
      min (requested - privileged) (soft_limit - (occupied + first)),
      min-IsMost occupied privileged hard_limit,
      min-IsMost (occupied + first) (requested - privileged) soft_limit,
      ground arith,
    )

abbrev pub IsClock : ℕ → Type 0
IsClock now = now ≤ max_date_seconds

-- A claim that is read back stands in the table, and does not depend on who made it.
read_claim_found :
    (fingerprint : Text) (request : BudgetReservationRequest) (changes : ℕ) (db : Database)
    {claim : BudgetReservationClaim}
    → read_claim fingerprint request changes db ≡ ok claim
    → ((row : SyncBudgetReservationRow) × (find_reservation request.reservation_id db.reservations
          ≡ some row))
      × (read_claim fingerprint request 0 db ≡ ok (record claim { created = false }))
unfolding read_claim
read_claim_found fingerprint request changes db h =
    elim (Option-cases (find_reservation request.reservation_id db.reservations)) [
      | inl missing ↦ absurd (unfold parse_reservation in (ground arith))
      | inr (row, e) ↦ ((row, e), ground arith)
    ]

module _ (fingerprint : BudgetReservationRequest → Text) where
  -- A valid request at a valid time runs the batch and reads its reservation back.
  pub claim_of_valid :
      (now : ℕ) (request : BudgetReservationRequest) (db : Database) {u : Unit {0}}
      → validate_request request ≡ ok u
      → IsClock now
      → claim_daily_budget_reservation fingerprint now request db ≡ (
        read_claim
            (fingerprint request)
            request
            (claim_batch now (fingerprint request) request db).1
            (claim_batch now (fingerprint request) request db).0,
        (claim_batch now (fingerprint request) request db).0,
      )
  unfolding claim_daily_budget_reservation
  claim_of_valid now request db h c = ground arith

  claim_ok :
      (now : ℕ) (request : BudgetReservationRequest) (db : Database)
      {claim : BudgetReservationClaim} {db' : Database}
      → claim_daily_budget_reservation fingerprint now request db ≡ (ok claim, db')
      → (validate_request request ≡ ok tt) × IsClock now
  unfolding claim_daily_budget_reservation
  claim_ok now request db h = ground arith

  -- A claim under a taken id reads the earlier reservation back.
  pub claim_of_taken :
      (now : ℕ) (request : BudgetReservationRequest) (db : Database)
      {row : SyncBudgetReservationRow}
      → validate_request request ≡ ok tt
      → IsClock now
      → find_reservation request.reservation_id db.reservations ≡ some row
      → claim_daily_budget_reservation fingerprint now request db
        ≡ (read_claim (fingerprint request) request 0 db, insert_budget (day_of now) now db)
  unfolding read_claim
  claim_of_taken now request db h c taken = ground (
    arith,
    claim_of_valid now request db h c,
    claim_batch_of_taken now (fingerprint request) request db taken,
    reservations-insert_budget (day_of now) now db,
  )

  pub claim_of_new :
      (now : ℕ) (request : BudgetReservationRequest) (db : Database)
      → validate_request request ≡ ok tt
      → IsClock now
      → find_reservation request.reservation_id db.reservations ≡ none
      → let after = after_claim now (fingerprint request) request db in
        claim_daily_budget_reservation fingerprint now request db
        ≡ (read_claim (fingerprint request) request 1 after, after)
  claim_of_new now request db h c new = ground (
    arith,
    claim_of_valid now request db h c,
    claim_batch_of_new now (fingerprint request) request db new,
  )

  -- Claiming again under the same id, at any later time, answers with the first result, now not
  -- created, keeps the reservations, and changes no day's reserved or consumed amount.
  pub claim_replay :
      (now later : ℕ) (request : BudgetReservationRequest) (db : Database)
      {claim : BudgetReservationClaim} {db' : Database}
      → claim_daily_budget_reservation fingerprint now request db ≡ (ok claim, db')
      → IsClock later
      → let (again, db'') = claim_daily_budget_reservation fingerprint later request db' in
        (again ≡ ok (record claim { created = false }))
        × (db''.reservations ≡ db'.reservations)
        × ((day : ℕ) → reserved_on day db'' ≡ reserved_on day db')
        × ((day : ℕ) → consumed_on day db'' ≡ consumed_on day db')
  claim_replay now later request db {claim} {db'} h c =
      let (valid, clock) = claim_ok now request db {claim = claim} {db' = db'} h in
      let batch = claim_batch now (fingerprint request) request db in
      let run = claim_of_valid now request db valid clock in
      let stored : batch.0 ≡ db' = ground arith in
      let read : read_claim (fingerprint request) request batch.1 batch.0 ≡ ok claim =
        ground arith in
      let ((row, found), again) =
        read_claim_found (fingerprint request) request batch.1 batch.0 {claim = claim} read in
      let replay = claim_of_taken later request db' valid c (rw stored at found) in
      rw replay (
        (rw stored at again),
        reservations-insert_budget (day_of later) later db',
        λ day. (insert_budget_amounts day (day_of later) later db').0,
        λ day. (insert_budget_amounts day (day_of later) later db').1,
      )

  -- A taken id with another payload is refused, and changes neither reservations nor amounts.
  pub claim_mismatch :
      (now : ℕ) (request : BudgetReservationRequest) (db : Database)
      {row : SyncBudgetReservationRow}
      → validate_request request ≡ ok tt
      → IsClock now
      → find_reservation request.reservation_id db.reservations ≡ some row
      → row.request_fingerprint ≢ fingerprint request
      → let (answer, db') = claim_daily_budget_reservation fingerprint now request db in
        (answer ≡ err (payload_mismatch row.reservation_id))
        × (db'.reservations ≡ db.reservations)
        × ((day : ℕ) → occupied_on day db' ≡ occupied_on day db)
  unfolding read_claim parse_reservation
  claim_mismatch now request db h c taken differs = rw (claim_of_taken now request db h c taken) (
    ground arith,
    reservations-insert_budget (day_of now) now db,
    λ day. ground (arith, insert_budget_amounts day (day_of now) now db),
  )

  -- A new claim below the hard limit is answered with the jobs that the statement grants.
  claim_granted_jobs :
      (now : ℕ) (request : BudgetReservationRequest) (db : Database)
      → validate_request request ≡ ok tt
      → IsClock now
      → find_reservation request.reservation_id db.reservations ≡ none
      → occupied_on (day_of now) db ≤ request.hard_limit
      → let occupied = occupied_on (day_of now) db in
        let granted =
          granted_jobs occupied
            (length request.jobs)
            request.privileged_count
            request.soft_limit
            request.hard_limit in
        (claim_daily_budget_reservation fingerprint now request db).0
        ≡ ok (record {
          result = record {
            granted = granted;
            consumed = occupied + granted;
            soft_limit = request.soft_limit;
            hard_limit = request.hard_limit;
            submission = SubmissionStatus.reserved;
          };
          created = true;
        })
  unfolding read_claim parse_reservation new_reservation
  claim_granted_jobs now request db h c new below = ground (
    arith,
    claim_of_new now request db h c new,
    validate_request_sound request h,
    find_reservation-reservation_for now (fingerprint request) request db,
    granted_jobs_bounds (occupied_on (day_of now) db) (length request.jobs) request.privileged_count
        request.soft_limit request.hard_limit,
  )

  -- A valid claim under a new id, on a day not past its hard limit, is granted as many of its
  -- privileged jobs as fit under the hard limit, and then as many of the others as fit under the
  -- soft limit, on top of what the day has reserved and consumed.
  pub claim_granted :
      (now : ℕ) (request : BudgetReservationRequest) (db : Database)
      → validate_request request ≡ ok tt
      → IsClock now
      → find_reservation request.reservation_id db.reservations ≡ none
      → occupied_on (day_of now) db ≤ request.hard_limit
      → (privileged : ℕ) × (ordinary : ℕ) × IsMost
          (occupied_on (day_of now) db)
          request.privileged_count
          request.hard_limit
          privileged
        × IsMost
            (occupied_on (day_of now) db + privileged)
            (length request.jobs - request.privileged_count)
            request.soft_limit
            ordinary
        × ((claim_daily_budget_reservation fingerprint now request db).0
            ≡ ok (record {
              result = record {
                granted = privileged + ordinary;
                consumed = occupied_on (day_of now) db + (privileged + ordinary);
                soft_limit = request.soft_limit;
                hard_limit = request.hard_limit;
                submission = SubmissionStatus.reserved;
              };
              created = true;
            }))
  claim_granted now request db h c new below =
      let occupied = occupied_on (day_of now) db in
      let (privileged, ordinary, most, others, sum) =
        granted_jobs-IsMost occupied (length request.jobs) request.privileged_count
          request.soft_limit request.hard_limit in
      (
        privileged,
        ordinary,
        most,
        others,
        rw (← sum) (claim_granted_jobs now request db h c new below),
      )

  -- A new claim over a day that is past the request's hard limit is not answered with a grant of
  -- zero: the reservation is stored, and the claim fails on reading it back.
  pub claim_past_hard_limit :
      (now : ℕ) (request : BudgetReservationRequest) (db : Database)
      → validate_request request ≡ ok tt
      → IsClock now
      → find_reservation request.reservation_id db.reservations ≡ none
      → request.hard_limit < occupied_on (day_of now) db
      → let (answer, db') = claim_daily_budget_reservation fingerprint now request db in
        (answer ≡ err invalid_result_json)
        × (db'.reservations
            ≡ reservation_for now (fingerprint request) request db ∷ db.reservations)
  unfolding read_claim parse_reservation new_reservation
  claim_past_hard_limit now request db h c new above =
      rw (claim_of_new now request db h c new) (
        ground (arith, find_reservation-reservation_for now (fingerprint request) request db),
        refl,
      )
