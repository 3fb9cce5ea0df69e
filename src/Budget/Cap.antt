-- ===== src/Budget/Cap.antt =====
-- The daily cap over any history of claims and transitions, in any order, at any times.
use airing_cal.Common.{
  ok, ℕ, ◌+◌, ◌≤◌, ◌≡◌, ◌⊎◌, refl, inl, inr, List, [], ◌∷◌, Text, Option-cases, arith, All, length,
}
use airing_cal.Budget.{
  Submission, Database, BudgetReservationRequest, find_budget, find_reservation, validate_request,
}
use airing_cal.Budget.Statements.{new_reservation}
use airing_cal.Budget.Operations.{
  claim_daily_budget_reservation, transition_budget_submission, transition_batch, day_of,
  claim_batch,
}
use airing_cal.Budget.Tables.{
  reserved_on, consumed_on, occupied_on, held, spent, insert_budget_amounts,
}
use airing_cal.Budget.Balance.{
  IsBalanced, claim_batch-IsBalanced, claim_batch_of_taken, claim_batch_of_new, after_claim_amounts,
}
use airing_cal.Budget.Transitions.{
  transition_batch-IsBalanced, transition_batch_of_missing, transition_batch_of_reserved,
  transition_batch_of_moved, after_move_amounts, status-cases,
}
use airing_cal.Budget.Claims.{validate_request_sound, granted_jobs_bounds}

-- One call of the store.
pub data Operation : Type 0 where
  claim : ℕ → BudgetReservationRequest → Operation
  transition : ℕ → Text → Submission → Operation

abbrev pub empty_database : Database
empty_database = record { sync_budget = []; reservations = [] }

-- A claim asks for no hard limit beyond the cap.
abbrev pub RespectsCap : ℕ → Operation → Type 0
RespectsCap cap (claim now request) = request.hard_limit ≤ cap
RespectsCap cap (transition now id submission) = Unit

-- A transition moves an amount of the day, and changes no total.
pub transition_batch-occupied :
    (day now : ℕ) (id : Text) (submission : Submission) (db : Database)
    → IsBalanced db
    → occupied_on day (transition_batch now id submission db).0 ≡ occupied_on day db
transition_batch-occupied day now id submission db v =
    elim (Option-cases (find_reservation id db.reservations)) [
      | inl missing ↦ rw (transition_batch_of_missing now id submission db missing)
      | inr (row, h) ↦ elim (status-cases row.submission_status) [
        | inl e ↦
            rw (transition_batch_of_reserved now id submission db h e)
              (ground (arith, after_move_amounts day now id submission db {row = row} v h e))
        | inr e ↦ rw (transition_batch_of_moved now id submission db h e) (ground arith)
      ]
    ]

-- A claim takes a day to its hard limit at most, unless the day was past it.
pub claim_batch-occupied :
    (day now : ℕ) (fingerprint : Text) (request : BudgetReservationRequest) (db : Database)
    (cap : ℕ)
    → validate_request request ≡ ok tt
    → request.hard_limit ≤ cap
    → occupied_on day db ≤ cap
    → occupied_on day (claim_batch now fingerprint request db).0 ≤ cap
claim_batch-occupied day now fingerprint request db cap valid below h =
    elim (Option-cases (find_reservation request.reservation_id db.reservations)) [
      | inr (row, taken) ↦
          rw (claim_batch_of_taken now fingerprint request db taken)
            (ground (arith, insert_budget_amounts day (day_of now) now db))
      | inl new ↦ rw (claim_batch_of_new now fingerprint request db new) (
          unfold new_reservation in
          ground (
            arith,
            after_claim_amounts day now fingerprint request db,
            validate_request_sound request valid,
            granted_jobs_bounds (occupied_on (day_of now) db) (length request.jobs)
                request.privileged_count request.soft_limit request.hard_limit,
          ))
    ]

transition_database :
    (now : ℕ) (id : Text) (submission : Submission) (db : Database)
    → let db' = (transition_budget_submission now id submission db).1 in
      (db' ≡ db) ⊎ (db' ≡ (transition_batch now id submission db).0)
unfolding transition_budget_submission
transition_database now id submission db = ground arith

module _ (fingerprint : BudgetReservationRequest → Text) where
  pub apply : Operation → Database → Database
  apply (claim now request) db = (claim_daily_budget_reservation fingerprint now request db).1
  apply (transition now id submission) db = (transition_budget_submission now id submission db).1

  pub run : List Operation → Database → Database
  run [] db = db
  run (op ∷ ops) db = run ops (apply op db)

  -- What is kept by every call.
  record IsCapped (cap : ℕ) (db : Database) : Type 0 where
    balanced : IsBalanced db
    below : (day : ℕ) → occupied_on day db ≤ cap

  -- A call leaves the database alone or runs its batch.
  claim_database :
      (now : ℕ) (request : BudgetReservationRequest) (db : Database)
      → let db' = (claim_daily_budget_reservation fingerprint now request db).1 in
        (db' ≡ db)
        ⊎ ((validate_request request ≡ ok tt)
            × (db' ≡ (claim_batch now (fingerprint request) request db).0))
  unfolding claim_daily_budget_reservation
  claim_database now request db = ground arith

  apply-IsCapped :
      (cap : ℕ) (op : Operation) (db : Database)
      → RespectsCap cap op
      → IsCapped cap db
      → IsCapped cap (apply op db)
  unfolding apply
  apply-IsCapped cap (claim now request) db r v = elim (claim_database now request db) [
    | inl same ↦ rw same v
    | inr (valid, e) ↦ rw e (record {
      balanced = claim_batch-IsBalanced now (fingerprint request) request db v.balanced;
      below = λ day.
          claim_batch-occupied day now (fingerprint request) request db cap valid r (v.below day);
    })
  ]
  apply-IsCapped cap (transition now id submission) db r v =
      elim (transition_database now id submission db) [
        | inl same ↦ rw same v
        | inr e ↦ rw e (record {
          balanced = transition_batch-IsBalanced now id submission db v.balanced;
          below = λ day.
              rw (transition_batch-occupied day now id submission db v.balanced) (v.below day);
        })
      ]

  run-IsCapped :
      (cap : ℕ) (ops : List Operation) (db : Database)
      → All (RespectsCap cap) ops
      → IsCapped cap db
      → IsCapped cap (run ops db)
  unfolding run
  run-IsCapped cap [] db r v = v
  run-IsCapped cap (op ∷ ops) db r v =
      run-IsCapped cap ops (apply op db) r.1 (apply-IsCapped cap op db r.0 v)

  empty-IsCapped : (cap : ℕ) → IsCapped cap empty_database
  unfolding held spent find_budget
  empty-IsCapped cap = record {
    balanced = record { reserved_matches = λ day. refl; consumed_matches = λ day. refl };
    below = λ day. omega arith;
  }

  -- From an empty database, after any calls whose hard limits stay within a cap, a day's row
  -- records what its reservations hold and have spent, and these are together within the cap.
  pub run-within_cap :
      (cap : ℕ) (ops : List Operation) (day : ℕ)
      → All (RespectsCap cap) ops
      → let db = run ops empty_database in
        (reserved_on day db ≡ held day db.reservations)
        × (consumed_on day db ≡ spent day db.reservations)
        × (held day db.reservations + spent day db.reservations ≤ cap)
  run-within_cap cap ops day r =
      let v = run-IsCapped cap ops empty_database r (empty-IsCapped cap) in
      let reserved = v.balanced.reserved_matches day in
      let consumed = v.balanced.consumed_matches day in
      (reserved, consumed, omega (arith, v.below day))
