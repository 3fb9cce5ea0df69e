-- ===== src/Retry/Attempts.antt =====
-- Which attempts an operation gets, and what comes of them.
use airing_cal.Common.{
  ℕ, zero, suc, ◌+◌, ◌≤◌, ◌<◌, ◌≡◌, ◌⊎◌, subst, inl, inr, Bool, true, false, units, Result, ok, err,
  Result-cases, Bool-cases, ltb, arith,
}
use airing_cal.Retry.{
  UpstreamStage, UpstreamFetchError, Thrown, classify, fetch_error, contract_error, attempts,
  with_retry,
}

module _ {A : Type 0} (operation : ℕ → Result Thrown A) (sleeps : ℕ → Thrown → Bool)
    (stage : UpstreamStage) where
  -- The attempts before `last`, from `first`, threw what is retried, and the sleep after each was
  -- not disturbed.
  pub data Retried : ℕ → ℕ → Type 0 where
    arrived : (attempt : ℕ) → Retried attempt attempt
    retried :
        (first last : ℕ) (thrown : Thrown)
        → operation first ≡ err thrown
        → (classify thrown).retry ≡ true
        → sleeps first thrown ≡ true
        → Retried (first + 1) last
        → Retried first last

  -- How a call ends at its last attempt, where `final` is the last that the policy allows: with the
  -- value, with the error of what was thrown, or with a disturbed sleep.
  pub data Ended (final last : ℕ) : Result UpstreamFetchError A → Type 0 where
    with_value : (value : A) → operation last ≡ ok value → Ended final last (ok value)
    with_error :
        (thrown : Thrown)
        → operation last ≡ err thrown
        → ((classify thrown).retry ≡ false) ⊎ (last ≡ final)
        → Ended final last (err (fetch_error thrown stage last))
    with_delay :
        (thrown : Thrown)
        → operation last ≡ err thrown
        → (classify thrown).retry ≡ true
        → sleeps last thrown ≡ false
        → last < final
        → Ended final last (err (contract_error (units "RETRY_DELAY_FAILED") stage last))

  abbrev pub Outcome : ℕ → ℕ → Result UpstreamFetchError A → Type 0
  Outcome first final result =
      (last : ℕ) × (first ≤ last) × (last ≤ final) × Retried first last × Ended final last result

  attempts-Outcome :
      (left first : ℕ) → Outcome first (first + left) (attempts operation sleeps stage left first)
  unfolding attempts
  attempts-Outcome zero first = elim (Result-cases (operation first)) [
    | inl (thrown, e) ↦
        rw (e, attempts)
          (first, omega arith, omega arith, arrived first, with_error thrown e (inr (omega arith)))
    | inr (value, e) ↦
        rw (e, attempts) (first, omega arith, omega arith, arrived first, with_value value e)
  ]
  attempts-Outcome (suc left) first = elim (Result-cases (operation first)) [
    | inr (value, e) ↦
        rw (e, attempts) (first, omega arith, omega arith, arrived first, with_value value e)
    | inl (thrown, e) ↦ elim (Bool-cases (classify thrown).retry) [
      | inr no_retry ↦
          rw (e, attempts)
            (rw no_retry
              (first, omega arith, omega arith, arrived first, with_error thrown e (inl no_retry)))
      | inl retry ↦ elim (Bool-cases (sleeps first thrown)) [
        | inr disturbed ↦
            rw (e, attempts)
              (rw (retry, disturbed)
                (
                  first,
                  omega arith,
                  omega arith,
                  arrived first,
                  with_delay thrown e retry disturbed (omega arith),
                ))
        | inl slept ↦
            rw (e, attempts)
              (rw (retry, slept)
                (later (first + suc left) thrown e retry slept
                  (shift (attempts-Outcome left (first + 1)))))
      ]
    ]
  ]
    where
      shift :
          {result : Result UpstreamFetchError A}
          → Outcome (first + 1) (first + 1 + left) result
          → Outcome (first + 1) (first + suc left) result
      shift {result} h = subst (λ final. Outcome (first + 1) final result) (omega arith) h

      later :
          {result : Result UpstreamFetchError A} (final : ℕ) (thrown : Thrown)
          → operation first ≡ err thrown
          → (classify thrown).retry ≡ true
          → sleeps first thrown ≡ true
          → Outcome (first + 1) final result
          → Outcome first final result
      later final thrown e retry slept (last, from, to, before, ended) =
          (last, omega arith, to, retried first last thrown e retry slept before, ended)

  -- Under a policy of one to three attempts, the call ends at an attempt that the policy allows. All
  -- attempts before it threw what is retried, with an undisturbed sleep after each. It ends with the
  -- value of that attempt, or with the classified error of what it threw, which is not retried or
  -- came at the last attempt allowed, or with the error of a disturbed sleep.
  pub with_retry-Outcome :
      (max_attempts : ℕ)
      → 1 ≤ max_attempts
      → max_attempts ≤ 3
      → Outcome 1 max_attempts (with_retry operation sleeps stage max_attempts)
  unfolding with_retry
  with_retry-Outcome zero lower upper = absurd (omega arith)
  with_retry-Outcome (suc left) lower upper = rw (within left upper) (
      subst (λ final. Outcome 1 final (attempts operation sleeps stage left 1)) (omega arith)
        (attempts-Outcome left 1))
    where
      within : (left : ℕ) → suc left ≤ 3 → ltb 3 (left + 1) ≡ false
      within left h = ground arith
