-- ===== src/Publication/Operations.antt =====
-- What the publication methods of D1StateStore answer on the rows that they read, and the batches
-- that they send. `observed` is what was read, and `db` what the batch meets.
use airing_cal.Common.{
  ℕ, ◌+◌, Bool, true, false, not, ◌&&◌, ◌||◌, Option, none, some, ltb, ◌==◌, if◌then◌else◌, holds,
  is_none, is_some,
}
use airing_cal.Publication.{
  PublicSnapshotPointer, PublicationWriteOwner, PublicationWriteClaim, PublicationSourceWatermark,
  AppStateRow, PublicationState, Pointer-discrete, Owner-discrete, SourceRelation, lease_seconds,
  source_relation,
}
use airing_cal.Publication.Statements.{
  source_cas, delete_claim, insert_pending, replace_pending, delete_stale_pending, insert_claim,
  replace_claim, upsert_verified, delete_published_pending, delete_published_claim,
}

abbrev pub value_of : {V : Type 0} → Option (AppStateRow V) → Option V
value_of none = none
value_of (some row) = some row.value

abbrev pub relation_to : PublicationSourceWatermark → PublicationState → SourceRelation
relation_to source observed = source_relation source (value_of observed.source)

-- The row holds the pointer.
abbrev pub is_pointer : PublicSnapshotPointer → Option (AppStateRow PublicSnapshotPointer) → Bool
is_pointer pointer none = false
is_pointer pointer (some row) = holds (Pointer-discrete row.value pointer)

-- A claim whose lease has not run out.
abbrev pub is_active : ℕ → Option (AppStateRow PublicationWriteClaim) → Bool
is_active now none = false
is_active now (some row) = ltb now row.value.expires_at

-- The candidate comes next after the verified pointer.
abbrev pub follows : PublicSnapshotPointer → Option (AppStateRow PublicSnapshotPointer) → Bool
follows candidate none = candidate.generation == 1
follows candidate (some row) = row.value.generation + 1 == candidate.generation

abbrev pub is_newer : SourceRelation → Bool
is_newer SourceRelation.newer = true
is_newer _ = false

abbrev pub is_exact : SourceRelation → Bool
is_exact SourceRelation.exact = true
is_exact _ = false

-- The first two statements of a batch: the source, if it is newer, and an expired claim.
unfoldable pub advance_source :
    PublicationSourceWatermark → PublicationState → PublicationState → PublicationState × ℕ
advance_source source observed db =
    if is_newer (relation_to source observed)
    then source_cas source (value_of observed.source) db
    else (db, 0)

unfoldable pub drop_claim :
    PublicationSourceWatermark → PublicationState → PublicationState → PublicationState
drop_claim source observed db = elim observed.claim [
  | none ↦ db
  | some row ↦ (delete_claim row.value source db).0
]

-- The answers of commitPendingPublication that send no batch.
unfoldable pub commit_answer :
    ℕ → PublicSnapshotPointer → PublicationSourceWatermark → PublicationState → Option Bool
commit_answer now candidate source observed = elim (relation_to source observed) [
  | SourceRelation.stale ↦ some false
  | SourceRelation.conflict ↦ some false
  | SourceRelation.newer ↦
      if is_active now observed.claim || not (follows candidate observed.verified)
      then some false
      else none
  | SourceRelation.exact ↦
      if is_active now observed.claim || not (follows candidate observed.verified)
      then some false
      else if is_pointer candidate observed.pending
      then some true
      else if is_some observed.pending
      then some false
      else none
]

-- Its batch, and whether the method ends with it.
unfoldable pub commit_batch :
    PublicSnapshotPointer
    → PublicationSourceWatermark
    → PublicationState
    → PublicationState
    → PublicationState × Bool
commit_batch candidate source observed db =
    let (advanced, changes) = advance_source source observed db in
    let cleared = drop_claim source observed advanced in
    elim observed.pending [
      | none ↦
          let (db', inserted) = insert_pending candidate source cleared in
          (db', not (inserted == 0))
      | some row ↦
          let (db', replaced) = replace_pending candidate row.value source cleared in
          if holds (Pointer-discrete row.value candidate)
          then (cleared, is_exact (relation_to source observed) || not (changes == 0))
          else (db', not (replaced == 0))
    ]

-- The answers of cleanupStalePendingPublication.
pub data CleanupResult : Type 0 where
  clean cleaned active stale conflict : CleanupResult

-- The answer while a claim is active.
abbrev pub cleanup_busy : ℕ → PublicationState → Option CleanupResult
cleanup_busy now observed = elim observed.claim [
  | none ↦ none
  | some row ↦
      if ltb now row.value.expires_at
      then some (
          if is_pointer row.value.candidate observed.pending
          then CleanupResult.active
          else CleanupResult.conflict)
      else none
]

unfoldable pub cleanup_answer :
    ℕ → PublicSnapshotPointer → PublicationSourceWatermark → PublicationState → Option CleanupResult
cleanup_answer now verified source observed =
    if not (is_pointer verified observed.verified)
    then some CleanupResult.conflict
    else elim (relation_to source observed) [
      | SourceRelation.stale ↦ some CleanupResult.stale
      | SourceRelation.conflict ↦ some CleanupResult.conflict
      | SourceRelation.newer ↦ cleanup_busy now observed
      | SourceRelation.exact ↦
          if is_none (cleanup_busy now observed) && is_none observed.pending
          then some (if is_none observed.claim then CleanupResult.clean else CleanupResult.conflict)
          else cleanup_busy now observed
    ]

-- Its batch, with the result if the method ends with it.
unfoldable pub cleanup_batch :
    PublicSnapshotPointer
    → PublicationSourceWatermark
    → PublicationState
    → PublicationState
    → PublicationState × Option CleanupResult
cleanup_batch verified source observed db =
    let (advanced, changes) = advance_source source observed db in
    let cleared = drop_claim source observed advanced in
    elim observed.pending [
      | none ↦ (
        cleared,
        if is_exact (relation_to source observed) || not (changes == 0)
            then some CleanupResult.clean
            else none,
      )
      | some row ↦
          let (db', deleted) = delete_stale_pending row.value verified source cleared in
          (db', if deleted == 0 then none else some CleanupResult.cleaned)
    ]

pub data ClaimResult : Type 0 where
  claimed busy already_verified conflict : ClaimResult

-- The claim is the owner's, on the candidate.
abbrev pub is_own_claim :
    PublicSnapshotPointer → PublicationWriteOwner → PublicationWriteClaim → Bool
is_own_claim candidate owner claim =
    holds (Pointer-discrete claim.candidate candidate) && holds (Owner-discrete claim.owner owner)

-- The candidate is pending, and comes next after the verified pointer.
abbrev pub is_authorized : PublicSnapshotPointer → PublicationState → Bool
is_authorized candidate observed =
    is_pointer candidate observed.pending && follows candidate observed.verified

-- The answers of claimPublicationWrite that send no batch.
unfoldable pub claim_answer :
    ℕ
    → PublicSnapshotPointer
    → PublicationWriteOwner
    → PublicationSourceWatermark
    → PublicationState
    → Option ClaimResult
claim_answer now candidate owner source observed =
    if not (is_exact (relation_to source observed))
    then some ClaimResult.conflict
    else if is_pointer candidate observed.verified
    then some ClaimResult.already_verified
    else if not (is_authorized candidate observed)
    then some ClaimResult.conflict
    else elim observed.claim [
      | none ↦ none
      | some row ↦
          if not (holds (Pointer-discrete row.value.candidate candidate))
          then some ClaimResult.busy
          else if holds (Owner-discrete row.value.owner owner) && ltb now row.value.expires_at
          then some ClaimResult.claimed
          else if ltb now row.value.expires_at
          then some ClaimResult.busy
          else none
    ]

abbrev pub next_claim : ℕ → PublicSnapshotPointer → PublicationWriteOwner → PublicationWriteClaim
next_claim now candidate owner = record {
  candidate = candidate;
  owner = owner;
  expires_at = now + lease_seconds;
}

-- Its batch, and whether the claim was written.
unfoldable pub claim_batch :
    ℕ
    → PublicSnapshotPointer
    → PublicationWriteOwner
    → PublicationSourceWatermark
    → PublicationState
    → PublicationState
    → PublicationState × Bool
claim_batch now candidate owner source observed db = elim observed.claim [
  | none ↦
      let (db', inserted) = insert_claim (next_claim now candidate owner) source db in
      (db', not (inserted == 0))
  | some row ↦
      let (db', replaced) = replace_claim (next_claim now candidate owner) row.value source db in
      (db', not (replaced == 0))
]

pub data AuthorizedResult : Type 0 where
  authorized already_verified stale conflict : AuthorizedResult

-- confirmPublicationAuthorized, on what it reads.
unfoldable pub authorized_answer :
    PublicSnapshotPointer → PublicationSourceWatermark → PublicationState → AuthorizedResult
authorized_answer candidate source observed = elim (relation_to source observed) [
  | SourceRelation.stale ↦ AuthorizedResult.stale
  | SourceRelation.exact ↦
      if is_pointer candidate observed.verified
      then AuthorizedResult.already_verified
      else if is_authorized candidate observed
      then AuthorizedResult.authorized
      else AuthorizedResult.conflict
  | _ ↦ AuthorizedResult.conflict
]

pub data ConfirmResult : Type 0 where
  active expired already_verified conflict : ConfirmResult

-- confirmPublicationWrite, on what it reads.
unfoldable pub confirm_answer :
    ℕ
    → PublicSnapshotPointer
    → PublicationWriteOwner
    → PublicationSourceWatermark
    → PublicationState
    → ConfirmResult
confirm_answer now candidate owner source observed =
    if not (is_exact (relation_to source observed))
    then ConfirmResult.conflict
    else if is_pointer candidate observed.verified
    then ConfirmResult.already_verified
    else elim observed.claim [
      | none ↦ ConfirmResult.conflict
      | some row ↦
          if is_own_claim candidate owner row.value
          then (if ltb now row.value.expires_at
              then ConfirmResult.active
              else ConfirmResult.expired)
          else ConfirmResult.conflict
    ]

-- The batch of markPublicationPublished.
unfoldable pub publish_batch :
    PublicSnapshotPointer
    → PublicationWriteClaim
    → PublicationSourceWatermark
    → PublicationState
    → PublicationState
publish_batch candidate claim source db =
    let published = (upsert_verified candidate claim source db).0 in
    let settled = (delete_published_pending candidate published).0 in
    (delete_published_claim candidate claim settled).0
