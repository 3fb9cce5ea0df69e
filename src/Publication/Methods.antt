-- ===== src/Publication/Methods.antt =====
-- The whole publication methods: validation, the attempts, and the answer. `race` is what the
-- other clients do to the rows meanwhile, between a read and its batch (the odd calls) and
-- between a batch and the next read (the even ones).
use airing_cal.Common.{
  ℕ, zero, suc, ◌+◌, ◌*◌, Bool, true, false, not, ◌&&◌, none, some, Result, ok, err, ◌>>=◌, ◌>>◌,
  Text-discrete, ltb, if◌then◌else◌, holds,
}
use airing_cal.Publication.{
  PublicationError, hash_mismatch, source_conflict, write_claim_conflict, PublicSnapshotPointer,
  PublicationWriteOwner, PublicationSourceWatermark, PublicationState, lease_seconds,
  decode_pointer, decode_watermark, validate_owner, validate_lease_time,
}
use airing_cal.Publication.Statements.{release_claim}
use airing_cal.Publication.Operations.{
  CleanupResult, ClaimResult, AuthorizedResult, ConfirmResult, relation_to, is_exact, is_pointer,
  is_own_claim, commit_answer, commit_batch, cleanup_answer, cleanup_batch, claim_answer,
  claim_batch, authorized_answer, confirm_answer, publish_batch,
}

-- The rows of a call that throws stay as they are.
abbrev pub with_rows {ℓ} :
    {A : Type 0} {E : Type 0} {V : Type ℓ}
    → Result E V
    → PublicationState
    → (V → Result E A × PublicationState)
    → Result E A × PublicationState
with_rows (err e) db next = (err e, db)
with_rows (ok v) db next = next v

-- What commit and cleanup check first, with the lease time that they go by.
unfoldable pub check_source :
    ℕ → PublicSnapshotPointer → PublicationSourceWatermark → Result PublicationError ℕ
check_source now candidate source = do
  decode_pointer candidate
  decode_watermark source
  if holds (Text-discrete source.content_hash candidate.content_hash)
      then validate_lease_time now
      else err hash_mismatch

-- What every method of a writer decodes first.
unfoldable pub check_writer :
    PublicSnapshotPointer
    → PublicationWriteOwner
    → PublicationSourceWatermark
    → Result PublicationError (Unit {0})
check_writer candidate owner source = do
  decode_pointer candidate
  validate_owner owner
  decode_watermark source
  ok tt

-- The source is that of the candidate and of the owner's publication.
abbrev pub is_source_of :
    PublicSnapshotPointer → PublicationWriteOwner → PublicationSourceWatermark → Bool
is_source_of candidate owner source =
    holds (Text-discrete source.content_hash candidate.content_hash)
    && holds (Text-discrete source.publication_id owner.publication_id)

module _ (race : ℕ → PublicationState → PublicationState) where
  unfoldable pub commit_attempts :
      ℕ
      → ℕ
      → PublicSnapshotPointer
      → PublicationSourceWatermark
      → PublicationState
      → Bool × PublicationState
  commit_attempts zero now candidate source db = (false, db)
  commit_attempts (suc n) now candidate source db = elim (commit_answer now candidate source db) [
    | some answer ↦ (answer, db)
    | none ↦
        let (db', done) = commit_batch candidate source db (race (2 * n + 1) db) in
        let again = commit_attempts n now candidate source (race (2 * n) db') in
        if done then (true, db') else again
  ]

  -- commitPendingPublication
  unfoldable pub commit_pending_publication :
      ℕ
      → PublicSnapshotPointer
      → PublicationSourceWatermark
      → PublicationState
      → Result PublicationError Bool × PublicationState
  commit_pending_publication now candidate source db =
      with_rows (check_source now candidate source) db (λ lease_now.
        let (answer, db') = commit_attempts 3 lease_now candidate source db in (ok answer, db'))

  unfoldable pub cleanup_attempts :
      ℕ
      → ℕ
      → PublicSnapshotPointer
      → PublicationSourceWatermark
      → PublicationState
      → CleanupResult × PublicationState
  cleanup_attempts zero now verified source db = (CleanupResult.conflict, db)
  cleanup_attempts (suc n) now verified source db = elim (cleanup_answer now verified source db) [
    | some answer ↦ (answer, db)
    | none ↦
        let (db', done) = cleanup_batch verified source db (race (2 * n + 1) db) in
        elim done [
          | some answer ↦ (answer, db')
          | none ↦ cleanup_attempts n now verified source (race (2 * n) db')
        ]
  ]

  -- cleanupStalePendingPublication
  unfoldable pub cleanup_stale_pending_publication :
      ℕ
      → PublicSnapshotPointer
      → PublicationSourceWatermark
      → PublicationState
      → Result PublicationError CleanupResult × PublicationState
  cleanup_stale_pending_publication now verified source db =
      with_rows (check_source now verified source) db (λ lease_now.
        let (answer, db') = cleanup_attempts 3 lease_now verified source db in (ok answer, db'))

  unfoldable pub claim_attempts :
      ℕ
      → ℕ
      → PublicSnapshotPointer
      → PublicationWriteOwner
      → PublicationSourceWatermark
      → PublicationState
      → ClaimResult × PublicationState
  claim_attempts zero now candidate owner source db = (ClaimResult.busy, db)
  claim_attempts (suc n) now candidate owner source db =
      elim (claim_answer now candidate owner source db) [
        | some answer ↦ (answer, db)
        | none ↦
            let (db', done) = claim_batch now candidate owner source db (race (2 * n + 1) db) in
            let again = claim_attempts n now candidate owner source (race (2 * n) db') in
            if done then (ClaimResult.claimed, db') else again
      ]

  -- claimPublicationWrite
  unfoldable pub claim_publication_write :
      ℕ
      → PublicSnapshotPointer
      → PublicationWriteOwner
      → PublicationSourceWatermark
      → PublicationState
      → Result PublicationError ClaimResult × PublicationState
  claim_publication_write now candidate owner source db =
      with_rows (check_writer candidate owner source) db (λ _.
        if not (is_source_of candidate owner source)
        then (ok ClaimResult.conflict, db)
        else with_rows (validate_lease_time now) db (λ lease_now.
          with_rows (validate_lease_time (lease_now + lease_seconds)) db (λ _.
            let (answer, db') = claim_attempts 3 lease_now candidate owner source db in
            (ok answer, db'))))

  -- releasePublicationWrite
  unfoldable pub release_publication_write :
      PublicSnapshotPointer
      → PublicationWriteOwner
      → PublicationState
      → Result PublicationError (Unit {0}) × PublicationState
  release_publication_write candidate owner db =
      with_rows (do decode_pointer candidate; validate_owner owner) db
        (λ _. elim db.claim [
          | none ↦ (ok tt, db)
          | some row ↦
              if is_own_claim candidate owner row.value
              then (ok tt, (release_claim row.value candidate (race 1 db)).0)
              else (ok tt, db)
        ])

  -- The end of markPublicationPublished: it reads the verified row back.
  abbrev pub read_published :
      PublicSnapshotPointer
      → PublicationState
      → Result PublicationError (Unit {0}) × PublicationState
  read_published candidate db =
      (if is_pointer candidate db.verified then ok tt else err write_claim_conflict, db)

  -- markPublicationPublished
  unfoldable pub mark_publication_published :
      ℕ
      → PublicSnapshotPointer
      → PublicationWriteOwner
      → PublicationSourceWatermark
      → PublicationState
      → Result PublicationError (Unit {0}) × PublicationState
  mark_publication_published now candidate owner source db =
      with_rows (check_writer candidate owner source) db (λ _.
        if not (is_source_of candidate owner source)
        then (err source_conflict, db)
        else with_rows (validate_lease_time now) db (λ lease_now.
          if not (is_exact (relation_to source db))
          then (err source_conflict, db)
          else if is_pointer candidate db.verified
          then (ok tt, db)
          else elim db.claim [
            | none ↦ (err write_claim_conflict, db)
            | some row ↦
                if is_own_claim candidate owner row.value && ltb lease_now row.value.expires_at
                then read_published candidate
                    (race 0 (publish_batch candidate row.value source (race 1 db)))
                else (err write_claim_conflict, db)
          ]))

-- confirmPublicationAuthorized, which writes nothing.
unfoldable pub confirm_publication_authorized :
    PublicSnapshotPointer
    → PublicationSourceWatermark
    → PublicationState
    → Result PublicationError AuthorizedResult
confirm_publication_authorized candidate source db = do
  decode_pointer candidate
  decode_watermark source
  ok (
      if holds (Text-discrete source.content_hash candidate.content_hash)
      then authorized_answer candidate source db
      else AuthorizedResult.conflict)

-- confirmPublicationWrite, which writes nothing.
unfoldable pub confirm_publication_write :
    ℕ
    → PublicSnapshotPointer
    → PublicationWriteOwner
    → PublicationSourceWatermark
    → PublicationState
    → Result PublicationError ConfirmResult
confirm_publication_write now candidate owner source db = do
  check_writer candidate owner source
  if is_source_of candidate owner source
      then (do
        lease_now ← validate_lease_time now
        ok (confirm_answer lease_now candidate owner source db))
      else ok ConfirmResult.conflict
