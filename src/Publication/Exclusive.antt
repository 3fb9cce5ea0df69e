-- ===== src/Publication/Exclusive.antt =====
-- The write claim excludes: while the lease of a claim runs, no other builder takes the candidate,
-- and none replaces or deletes the pending pointer.
use airing_cal.Common.{
  ok-inj, ℕ, zero, suc, ◌+◌, ◌*◌, ◌≡◌, ◌≢◌, refl, sym, inl, inr, true, false, none, some, Result,
  ok, err, Bool-cases, Option-cases, arith, ltb,
}
use airing_cal.Publication.{
  PublicationError, PublicSnapshotPointer, PublicationWriteOwner, PublicationWriteClaim,
  PublicationSourceWatermark, AppStateRow, PublicationState, lease_seconds, validate_lease_time,
}
use airing_cal.Publication.Statements.{insert_claim, replace_claim}
use airing_cal.Publication.Operations.{
  CleanupResult, ClaimResult, is_own_claim, commit_answer, cleanup_answer, claim_answer,
  claim_batch, next_claim,
}
use airing_cal.Publication.Methods.{
  with_rows, check_source, check_writer, is_source_of, commit_attempts, commit_pending_publication,
  cleanup_attempts, cleanup_stale_pending_publication, claim_attempts, claim_publication_write,
}

-- The lease of the claim in the rows is the owner's, on the candidate, and runs at `now`.
pub record HoldsClaim (now : ℕ) (candidate : PublicSnapshotPointer) (owner : PublicationWriteOwner)
    (db : PublicationState) : Type 0 where
  pub row : AppStateRow PublicationWriteClaim
  pub is_row : db.claim ≡ some row
  pub own : is_own_claim candidate owner row.value ≡ true
  pub runs : ltb now row.value.expires_at ≡ true

claim_answer-HoldsClaim :
    (now : ℕ) (candidate : PublicSnapshotPointer) (owner : PublicationWriteOwner)
    (source : PublicationSourceWatermark) (db : PublicationState)
    → claim_answer now candidate owner source db ≡ some ClaimResult.claimed
    → HoldsClaim now candidate owner db
unfolding claim_answer
claim_answer-HoldsClaim now candidate owner source db h = elim (Option-cases db.claim) [
  | inl e ↦ ground arith
  | inr (row, e) ↦ record { row = row; is_row = e; own = ground arith; runs = ground arith }
]

claim_batch-HoldsClaim :
    (now : ℕ) (candidate : PublicSnapshotPointer) (owner : PublicationWriteOwner)
    (source : PublicationSourceWatermark) (observed db : PublicationState)
    → (claim_batch now candidate owner source observed db).1 ≡ true
    → HoldsClaim now candidate owner (claim_batch now candidate owner source observed db).0
unfolding claim_batch insert_claim replace_claim
claim_batch-HoldsClaim now candidate owner source observed db h = record {
  row = record { value = next_claim now candidate owner; updated_at = candidate.generation };
  is_row = ground arith;
  own = ground arith;
  runs = ground arith;
}

validate_lease_time-same :
    (now lease_now : ℕ) → validate_lease_time now ≡ ok lease_now → now ≡ lease_now
unfolding validate_lease_time
validate_lease_time-same now lease_now h = ground arith

check_source-same :
    (now lease_now : ℕ) (candidate : PublicSnapshotPointer) (source : PublicationSourceWatermark)
    → check_source now candidate source ≡ ok lease_now
    → now ≡ lease_now
unfolding check_source validate_lease_time
check_source-same now lease_now candidate source h = ground arith

cong_some : {a b : ClaimResult} → a ≡ b → some a ≡ some b
cong_some h = rw h refl

-- To prove something of a call: of every error, and of what follows a value.
with_rows_cases {ℓ} :
    {A : Type 0} {E : Type 0} {V : Type ℓ} (P : Result E A × PublicationState → Type 0)
    (r : Result E V) (db : PublicationState) (next : V → Result E A × PublicationState)
    → ((e : E) → P (err e, db))
    → ((v : V) → r ≡ ok v → P (next v))
    → P (with_rows r db next)
with_rows_cases P (err e) db next h f = h e
with_rows_cases P (ok v) db next h f = f v refl

module _ (race : ℕ → PublicationState → PublicationState) where
  claim_attempts-HoldsClaim :
      (n now : ℕ) (candidate : PublicSnapshotPointer) (owner : PublicationWriteOwner)
      (source : PublicationSourceWatermark) (db : PublicationState)
      → (claim_attempts race n now candidate owner source db).0 ≡ ClaimResult.claimed
      → HoldsClaim now candidate owner (claim_attempts race n now candidate owner source db).1
  unfolding claim_attempts
  claim_attempts-HoldsClaim zero now candidate owner source db = λ h. cc
  claim_attempts-HoldsClaim (suc n) now candidate owner source db =
      elim (Option-cases (claim_answer now candidate owner source db)) [
        | inr (answer, e) ↦
            rw (e, claim_attempts)
              (λ h. claim_answer-HoldsClaim now candidate owner source db (rw e (cong_some h)))
        | inl e ↦
            elim (Bool-cases (claim_batch now candidate owner source db (race (2 * n + 1) db)).1) [
              | inl done ↦
                  rw (e, claim_attempts)
                    (rw done (λ _.
                      claim_batch-HoldsClaim now candidate owner source db (race (2 * n + 1) db)
                        done))
              | inr not_done ↦
                  rw (e, claim_attempts)
                    (rw not_done (claim_attempts-HoldsClaim n now candidate owner source _))
            ]
      ]

  -- When claimPublicationWrite answers that the candidate is claimed, the rows hold the owner's claim
  -- on it with a lease that still runs, whatever other clients did during the call.
  pub claim_publication_write-HoldsClaim :
      (now : ℕ) (candidate : PublicSnapshotPointer) (owner : PublicationWriteOwner)
      (source : PublicationSourceWatermark) (db : PublicationState)
      → (claim_publication_write race now candidate owner source db).0 ≡ ok ClaimResult.claimed
      → HoldsClaim now candidate owner
          (claim_publication_write race now candidate owner source db).1
  unfolding claim_publication_write
  claim_publication_write-HoldsClaim now candidate owner source db =
      with_rows_cases claims (check_writer candidate owner source) db _ (λ e h. cc)
        (λ _ _. elim (Bool-cases (is_source_of candidate owner source)) [
          | inr other ↦ rw other (λ h. cc)
          | inl of ↦ rw of (
              with_rows_cases claims (validate_lease_time now) db _ (λ e h. cc)
                (λ lease_now valid.
                  with_rows_cases claims (validate_lease_time (lease_now + lease_seconds)) db _
                    (λ e h. cc)
                    (λ _ _ h. at_now lease_now (validate_lease_time-same now lease_now valid) (
                      claim_attempts-HoldsClaim 3 lease_now candidate owner source db (ok-inj h)))))
        ])
    where
      claims : Result PublicationError ClaimResult × PublicationState → Type 0
      claims (answer, db') = answer ≡ ok ClaimResult.claimed → HoldsClaim now candidate owner db'

      at_now :
          {db' : PublicationState} (lease_now : ℕ)
          → now ≡ lease_now
          → HoldsClaim lease_now candidate owner db'
          → HoldsClaim now candidate owner db'
      at_now lease_now e h = rw e h

module _ (now : ℕ) (db : PublicationState) (row : AppStateRow PublicationWriteClaim)
    (is_row : db.claim ≡ some row) (runs : ltb now row.value.expires_at ≡ true) where
  commit_answer-active :
      (candidate : PublicSnapshotPointer) (source : PublicationSourceWatermark)
      → commit_answer now candidate source db ≡ some false
  unfolding commit_answer
  commit_answer-active candidate source = ground arith

  cleanup_answer-active :
      (verified : PublicSnapshotPointer) (source : PublicationSourceWatermark)
      → (r : CleanupResult) × (cleanup_answer now verified source db ≡ some r)
  unfolding cleanup_answer
  cleanup_answer-active verified source =
      elim (Option-cases (cleanup_answer now verified source db)) [
        | inl e ↦ elim (answers e) [ ]
        | inr some_e ↦ some_e
      ]
    where
      answers : cleanup_answer now verified source db ≡ none → ⊥
      answers e = ground arith

  claim_answer-active :
      (candidate : PublicSnapshotPointer) (owner : PublicationWriteOwner)
      (source : PublicationSourceWatermark)
      → is_own_claim candidate owner row.value ≡ false
      → (r : ClaimResult) × (claim_answer now candidate owner source db ≡ some r)
        × (r ≢ ClaimResult.claimed)
  unfolding claim_answer
  claim_answer-active candidate owner source other =
      elim (Option-cases (claim_answer now candidate owner source db)) [
        | inl e ↦ elim (answers e) [ ]
        | inr (r, e) ↦ (r, e, λ h. not_claimed (rw e (cong_some h)))
      ]
    where
      answers : claim_answer now candidate owner source db ≡ none → ⊥
      answers e = ground arith

      not_claimed : claim_answer now candidate owner source db ≡ some ClaimResult.claimed → ⊥
      not_claimed e = ground arith

  module _ (race : ℕ → PublicationState → PublicationState) where
    commit_attempts-active :
        (n lease_now : ℕ) (candidate : PublicSnapshotPointer) (source : PublicationSourceWatermark)
        → now ≡ lease_now
        → commit_attempts race (suc n) lease_now candidate source db ≡ (false, db)
    unfolding commit_attempts
    commit_attempts-active n lease_now candidate source e =
        rw (sym e, commit_answer-active candidate source, commit_attempts) refl

    cleanup_attempts-active :
        (n lease_now : ℕ) (verified : PublicSnapshotPointer) (source : PublicationSourceWatermark)
        → now ≡ lease_now
        → (cleanup_attempts race (suc n) lease_now verified source db).1 ≡ db
    unfolding cleanup_attempts
    cleanup_attempts-active n lease_now verified source e =
        let (_, answer) = cleanup_answer-active verified source in
        rw (sym e, answer, cleanup_attempts) refl

    claim_attempts-active :
        (n lease_now : ℕ) (candidate : PublicSnapshotPointer) (owner : PublicationWriteOwner)
        (source : PublicationSourceWatermark)
        → now ≡ lease_now
        → is_own_claim candidate owner row.value ≡ false
        → ((claim_attempts race (suc n) lease_now candidate owner source db).1 ≡ db)
          × ((claim_attempts race (suc n) lease_now candidate owner source db).0
              ≢ ClaimResult.claimed)
    unfolding claim_attempts
    claim_attempts-active n lease_now candidate owner source e other =
        let (_, answer, not_claimed) = claim_answer-active candidate owner source other in
        rw (sym e, answer, claim_attempts) (refl, not_claimed)

    commit_excluded :
        (candidate : PublicSnapshotPointer) (source : PublicationSourceWatermark)
        → ((commit_pending_publication race now candidate source db).1 ≡ db)
          × ((commit_pending_publication race now candidate source db).0 ≢ ok true)
    unfolding commit_pending_publication
    commit_excluded candidate source =
        with_rows_cases (λ r. (r.1 ≡ db) × (r.0 ≢ ok true)) (check_source now candidate source) db _
          (λ e. (refl, λ h. cc))
          (λ lease_now valid.
            rw
              (commit_attempts-active 2 lease_now candidate source
                (check_source-same now lease_now candidate source valid))
              (refl, λ h. cc))

    cleanup_excluded :
        (verified : PublicSnapshotPointer) (source : PublicationSourceWatermark)
        → (cleanup_stale_pending_publication race now verified source db).1 ≡ db
    unfolding cleanup_stale_pending_publication
    cleanup_excluded verified source =
        with_rows_cases (λ r. r.1 ≡ db) (check_source now verified source) db _ (λ e. refl)
          (λ lease_now valid.
            cleanup_attempts-active 2 lease_now verified source
              (check_source-same now lease_now verified source valid))

    claim_excluded :
        (candidate : PublicSnapshotPointer) (owner : PublicationWriteOwner)
        (source : PublicationSourceWatermark)
        → is_own_claim candidate owner row.value ≡ false
        → ((claim_publication_write race now candidate owner source db).1 ≡ db)
          × ((claim_publication_write race now candidate owner source db).0
              ≢ ok ClaimResult.claimed)
    unfolding claim_publication_write
    claim_excluded candidate owner source other =
        with_rows_cases kept (check_writer candidate owner source) db _ (λ e. (refl, λ h. cc))
          (λ _ _. elim (Bool-cases (is_source_of candidate owner source)) [
            | inr no_source ↦ rw no_source (refl, λ h. cc)
            | inl of ↦ rw of (
                with_rows_cases kept (validate_lease_time now) db _ (λ e. (refl, λ h. cc))
                  (λ lease_now valid.
                    with_rows_cases kept (validate_lease_time (lease_now + lease_seconds)) db _
                      (λ e. (refl, λ h. cc))
                      (λ _ _.
                        let (same, not_claimed) =
                          claim_attempts-active 2 lease_now candidate owner source
                            (validate_lease_time-same now lease_now valid) other in
                        (same, λ h. not_claimed (ok-inj h)))))
          ])
      where
        kept : Result PublicationError ClaimResult × PublicationState → Type 0
        kept (answer, db') = (db' ≡ db) × (answer ≢ ok ClaimResult.claimed)

    -- While the lease of a claim runs, by the caller's clock, commitPendingPublication does not
    -- succeed and changes no row, cleanupStalePendingPublication changes no row, and, for a caller
    -- whose claim it is not, claimPublicationWrite does not answer claimed and changes no row.
    pub active_claim_excludes :
        (candidate : PublicSnapshotPointer) (owner : PublicationWriteOwner)
        (source : PublicationSourceWatermark)
        → is_own_claim candidate owner row.value ≡ false
        → ((commit_pending_publication race now candidate source db).1 ≡ db)
          × ((commit_pending_publication race now candidate source db).0 ≢ ok true)
          × ((cleanup_stale_pending_publication race now candidate source db).1 ≡ db)
          × ((claim_publication_write race now candidate owner source db).1 ≡ db)
          × ((claim_publication_write race now candidate owner source db).0
              ≢ ok ClaimResult.claimed)
    active_claim_excludes candidate owner source other =
        let (unpending, uncommitted) = commit_excluded candidate source in
        let (kept, not_claimed) = claim_excluded candidate owner source other in
        (unpending, uncommitted, cleanup_excluded candidate source, kept, not_claimed)
