-- ===== src/Publication/Statements.antt =====
-- The SQL statements of the publication methods on the four rows, each with the number of rows
-- that it changed. `observed` is what the method read before its batch.
use airing_cal.Common.{
  ℕ, ◌+◌, Bool, false, ◌&&◌, Option, none, some, ◌==◌, if◌then◌else◌, holds, is_none,
}
use airing_cal.Publication.{
  PublicSnapshotPointer, PublicationWriteClaim, PublicationSourceWatermark, AppStateRow,
  PublicationState, Pointer-discrete, Claim-discrete, Watermark-discrete,
}

abbrev pub pointer_row : PublicSnapshotPointer → AppStateRow PublicSnapshotPointer
pointer_row pointer = record { value = pointer; updated_at = pointer.generation }

abbrev pub source_row : PublicationSourceWatermark → AppStateRow PublicationSourceWatermark
source_row source = record { value = source; updated_at = source.source_observed_at }

-- `key = ? AND value_json = ? AND updated_at = ?`
abbrev pub is_pointer_row :
    PublicSnapshotPointer → Option (AppStateRow PublicSnapshotPointer) → Bool
is_pointer_row pointer none = false
is_pointer_row pointer (some row) =
    holds (Pointer-discrete row.value pointer) && row.updated_at == pointer.generation

abbrev pub is_source_row :
    PublicationSourceWatermark → Option (AppStateRow PublicationSourceWatermark) → Bool
is_source_row source none = false
is_source_row source (some row) =
    holds (Watermark-discrete row.value source) && row.updated_at == source.source_observed_at

abbrev pub is_claim_row :
    PublicationWriteClaim → ℕ → Option (AppStateRow PublicationWriteClaim) → Bool
is_claim_row claim generation none = false
is_claim_row claim generation (some row) =
    holds (Claim-discrete row.value claim) && row.updated_at == generation

-- The verified row is that of the generation before, or there is none before the first.
abbrev pub is_next_generation : ℕ → Option (AppStateRow PublicSnapshotPointer) → Bool
is_next_generation generation none = generation == 1
is_next_generation generation (some row) = row.updated_at + 1 == generation

-- publicationSourceCasStatement
unfoldable pub source_cas :
    PublicationSourceWatermark
    → Option PublicationSourceWatermark
    → PublicationState
    → PublicationState × ℕ
source_cas source none db =
    if is_none db.source then (record db { source = some (source_row source) }, 1) else (db, 0)
source_cas source (some observed) db =
    if is_source_row observed db.source
    then (record db { source = some (source_row source) }, 1)
    else (db, 0)

-- The deletion of an observed claim, while the source is the given one.
unfoldable pub delete_claim :
    PublicationWriteClaim → PublicationSourceWatermark → PublicationState → PublicationState × ℕ
delete_claim claim source db =
    if is_claim_row claim claim.candidate.generation db.claim && is_source_row source db.source
    then (record db { claim = none }, 1)
    else (db, 0)

-- The insertion of a pending pointer, with no pending row and no claim.
unfoldable pub insert_pending :
    PublicSnapshotPointer → PublicationSourceWatermark → PublicationState → PublicationState × ℕ
insert_pending candidate source db =
    if is_none db.pending
      && is_none db.claim
      && is_source_row source db.source
      && is_next_generation candidate.generation db.verified
    then (record db { pending = some (pointer_row candidate) }, 1)
    else (db, 0)

-- The replacement of an observed pending pointer.
unfoldable pub replace_pending :
    PublicSnapshotPointer
    → PublicSnapshotPointer
    → PublicationSourceWatermark
    → PublicationState
    → PublicationState × ℕ
replace_pending candidate observed source db =
    if is_pointer_row observed db.pending
      && is_none db.claim
      && is_source_row source db.source
      && is_next_generation candidate.generation db.verified
    then (record db { pending = some (pointer_row candidate) }, 1)
    else (db, 0)

-- The deletion of an observed pending pointer, while a pointer is verified.
unfoldable pub delete_stale_pending :
    PublicSnapshotPointer
    → PublicSnapshotPointer
    → PublicationSourceWatermark
    → PublicationState
    → PublicationState × ℕ
delete_stale_pending observed verified source db =
    if is_pointer_row observed db.pending
      && is_none db.claim
      && is_source_row source db.source
      && is_pointer_row verified db.verified
    then (record db { pending = none }, 1)
    else (db, 0)

-- The insertion of a write claim.
unfoldable pub insert_claim :
    PublicationWriteClaim → PublicationSourceWatermark → PublicationState → PublicationState × ℕ
insert_claim claim source db =
    if is_pointer_row claim.candidate db.pending
      && is_source_row source db.source
      && is_next_generation claim.candidate.generation db.verified
      && is_none db.claim
    then (
      record db {
        claim = some (record { value = claim; updated_at = claim.candidate.generation });
      },
      1,
    )
    else (db, 0)

-- The replacement of an observed write claim, of the same candidate.
unfoldable pub replace_claim :
    PublicationWriteClaim
    → PublicationWriteClaim
    → PublicationSourceWatermark
    → PublicationState
    → PublicationState × ℕ
replace_claim claim observed source db =
    if is_claim_row observed claim.candidate.generation db.claim
      && is_pointer_row claim.candidate db.pending
      && is_source_row source db.source
      && is_next_generation claim.candidate.generation db.verified
    then (
      record db {
        claim = some (record { value = claim; updated_at = claim.candidate.generation });
      },
      1,
    )
    else (db, 0)

-- The deletion of the owner's claim.
unfoldable pub release_claim :
    PublicationWriteClaim → PublicSnapshotPointer → PublicationState → PublicationState × ℕ
release_claim claim candidate db =
    if is_claim_row claim candidate.generation db.claim
    then (record db { claim = none }, 1)
    else (db, 0)

-- The verified row of a candidate that is pending, claimed and of the current source.
unfoldable pub upsert_verified :
    PublicSnapshotPointer
    → PublicationWriteClaim
    → PublicationSourceWatermark
    → PublicationState
    → PublicationState × ℕ
upsert_verified candidate claim source db =
    if is_pointer_row candidate db.pending
      && is_claim_row claim candidate.generation db.claim
      && is_source_row source db.source
      && is_next_generation candidate.generation db.verified
    then (record db { verified = some (pointer_row candidate) }, 1)
    else (db, 0)

-- The deletion of the pending pointer that is verified now.
unfoldable pub delete_published_pending :
    PublicSnapshotPointer → PublicationState → PublicationState × ℕ
delete_published_pending candidate db =
    if is_pointer_row candidate db.pending && is_pointer_row candidate db.verified
    then (record db { pending = none }, 1)
    else (db, 0)

-- The deletion of the claim on the pointer that is verified now.
unfoldable pub delete_published_claim :
    PublicSnapshotPointer → PublicationWriteClaim → PublicationState → PublicationState × ℕ
delete_published_claim candidate claim db =
    if is_claim_row claim candidate.generation db.claim && is_pointer_row candidate db.verified
    then (record db { claim = none }, 1)
    else (db, 0)
