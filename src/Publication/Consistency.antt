-- ===== src/Publication/Consistency.antt =====
-- The rows stay consistent under every statement and batch, whatever the sender had observed.
use airing_cal.Common.{
  ℕ, ◌≡◌, ◌⊎◌, inl, inr, Bool, true, ◌&&◌, Option, none, some, ◌==◌, holds, Bool-cases,
  Option-cases, arith,
}
use airing_cal.Publication.{
  PublicSnapshotPointer, PublicationWriteOwner, PublicationWriteClaim, PublicationSourceWatermark,
  PublicationState, Pointer-discrete,
}
use airing_cal.Publication.Statements.{
  pointer_row, is_pointer_row, is_source_row, is_claim_row, is_next_generation, source_cas,
  delete_claim, insert_pending, replace_pending, delete_stale_pending, insert_claim, replace_claim,
  release_claim, upsert_verified, delete_published_pending, delete_published_claim,
}
use airing_cal.Publication.Operations.{
  is_newer, relation_to, value_of, next_claim, advance_source, drop_claim, commit_batch,
  cleanup_batch, claim_batch, publish_batch,
}

-- A pending pointer is of the generation after the verified one.
abbrev pub pending_follows : PublicationState → Bool
pending_follows db = elim db.pending [
  | none ↦ true
  | some row ↦
      row.updated_at == row.value.generation && is_next_generation row.updated_at db.verified
]

-- A claimed pointer is pending.
abbrev pub claim_is_pending : PublicationState → Bool
claim_is_pending db = elim db.claim [
  | none ↦ true
  | some row ↦
      row.updated_at == row.value.candidate.generation
      && is_pointer_row row.value.candidate db.pending
]

abbrev pub verified_is_dated : PublicationState → Bool
verified_is_dated db = elim db.verified [
  | none ↦ true
  | some row ↦ row.updated_at == row.value.generation
]

abbrev pub source_is_dated : PublicationState → Bool
source_is_dated db = elim db.source [
  | none ↦ true
  | some row ↦ row.updated_at == row.value.source_observed_at
]

pub record IsConsistent (db : PublicationState) : Type 0 where
  pub verified_dated : verified_is_dated db ≡ true
  pub source_dated : source_is_dated db ≡ true
  pub pending_next : pending_follows db ≡ true
  pub claim_pending : claim_is_pending db ≡ true

module _ (db : PublicationState) (v : IsConsistent db) where
  source_cas-IsConsistent :
      (source : PublicationSourceWatermark) (observed : Option PublicationSourceWatermark)
      → IsConsistent (source_cas source observed db).0
  unfolding source_cas
  source_cas-IsConsistent source none = ground arith
  source_cas-IsConsistent source (some o) = ground arith

  delete_claim-IsConsistent :
      (claim : PublicationWriteClaim) (source : PublicationSourceWatermark)
      → IsConsistent (delete_claim claim source db).0
  unfolding delete_claim
  delete_claim-IsConsistent claim source = ground arith

  insert_pending-IsConsistent :
      (candidate : PublicSnapshotPointer) (source : PublicationSourceWatermark)
      → IsConsistent (insert_pending candidate source db).0
  unfolding insert_pending
  insert_pending-IsConsistent candidate source = ground arith

  replace_pending-IsConsistent :
      (candidate observed : PublicSnapshotPointer) (source : PublicationSourceWatermark)
      → IsConsistent (replace_pending candidate observed source db).0
  unfolding replace_pending
  replace_pending-IsConsistent candidate observed source = ground arith

  delete_stale_pending-IsConsistent :
      (observed verified : PublicSnapshotPointer) (source : PublicationSourceWatermark)
      → IsConsistent (delete_stale_pending observed verified source db).0
  unfolding delete_stale_pending
  delete_stale_pending-IsConsistent observed verified source = ground arith

  insert_claim-IsConsistent :
      (claim : PublicationWriteClaim) (source : PublicationSourceWatermark)
      → IsConsistent (insert_claim claim source db).0
  unfolding insert_claim
  insert_claim-IsConsistent claim source = ground arith

  replace_claim-IsConsistent :
      (claim observed : PublicationWriteClaim) (source : PublicationSourceWatermark)
      → IsConsistent (replace_claim claim observed source db).0
  unfolding replace_claim
  replace_claim-IsConsistent claim observed source = ground arith

  pub release_claim-IsConsistent :
      (claim : PublicationWriteClaim) (candidate : PublicSnapshotPointer)
      → IsConsistent (release_claim claim candidate db).0
  unfolding release_claim
  release_claim-IsConsistent claim candidate = ground arith

-- Publishing is one transition: either nothing changes, or a candidate that was pending, claimed,
-- of the current source and next in its generation is verified, and no longer pending or claimed.
pub publish_batch_cases :
    (candidate : PublicSnapshotPointer) (claim : PublicationWriteClaim)
    (source : PublicationSourceWatermark) (db : PublicationState)
    → IsConsistent db
    → (publish_batch candidate claim source db ≡ db)
      ⊎ ((publish_batch candidate claim source db
            ≡ record db { verified = some (pointer_row candidate); pending = none; claim = none })
          × (is_pointer_row candidate db.pending ≡ true)
          × (is_claim_row claim candidate.generation db.claim ≡ true)
          × (is_source_row source db.source ≡ true)
          × (is_next_generation candidate.generation db.verified ≡ true))
unfolding publish_batch upsert_verified delete_published_pending delete_published_claim
publish_batch_cases candidate claim source db v = ground arith

pub publish_batch-IsConsistent :
    (candidate : PublicSnapshotPointer) (claim : PublicationWriteClaim)
    (source : PublicationSourceWatermark) (db : PublicationState)
    → IsConsistent db
    → IsConsistent (publish_batch candidate claim source db)
publish_batch-IsConsistent candidate claim source db v =
    elim (publish_batch_cases candidate claim source db v) [
      | inl same ↦ rw same v
      | inr (e, _, _, _, _) ↦ rw e (ground arith)
    ]

module _ (source : PublicationSourceWatermark) (observed : PublicationState) where
  advance_source-IsConsistent :
      (db : PublicationState) → IsConsistent db → IsConsistent (advance_source source observed db).0
  unfolding advance_source
  advance_source-IsConsistent db v = elim (Bool-cases (is_newer (relation_to source observed))) [
    | inl e ↦ rw e (source_cas-IsConsistent db v source (value_of observed.source))
    | inr e ↦ rw e v
  ]

  drop_claim-IsConsistent :
      (db : PublicationState) → IsConsistent db → IsConsistent (drop_claim source observed db)
  unfolding drop_claim
  drop_claim-IsConsistent db v = elim (Option-cases observed.claim) [
    | inl e ↦ rw (e, drop_claim) v
    | inr (row, e) ↦ rw (e, drop_claim) (delete_claim-IsConsistent db v row.value source)
  ]

  abbrev cleared : PublicationState → PublicationState
  cleared db = drop_claim source observed (advance_source source observed db).0

  cleared-IsConsistent : (db : PublicationState) → IsConsistent db → IsConsistent (cleared db)
  cleared-IsConsistent db v =
      drop_claim-IsConsistent (advance_source source observed db).0
        (advance_source-IsConsistent db v)

  pub commit_batch-IsConsistent :
      (candidate : PublicSnapshotPointer) (db : PublicationState)
      → IsConsistent db
      → IsConsistent (commit_batch candidate source observed db).0
  unfolding commit_batch
  commit_batch-IsConsistent candidate db v = elim (Option-cases observed.pending) [
    | inl e ↦
        rw (e, commit_batch)
          (insert_pending-IsConsistent (cleared db) (cleared-IsConsistent db v) candidate source)
    | inr (row, e) ↦ elim (Bool-cases (holds (Pointer-discrete row.value candidate))) [
      | inl same ↦ rw (e, commit_batch) (rw same (cleared-IsConsistent db v))
      | inr other ↦
          rw (e, commit_batch)
            (rw other (
              replace_pending-IsConsistent (cleared db) (cleared-IsConsistent db v) candidate
                row.value source))
    ]
  ]

  pub cleanup_batch-IsConsistent :
      (verified : PublicSnapshotPointer) (db : PublicationState)
      → IsConsistent db
      → IsConsistent (cleanup_batch verified source observed db).0
  unfolding cleanup_batch
  cleanup_batch-IsConsistent verified db v = elim (Option-cases observed.pending) [
    | inl e ↦ rw (e, cleanup_batch) (cleared-IsConsistent db v)
    | inr (row, e) ↦
        rw (e, cleanup_batch)
          (delete_stale_pending-IsConsistent (cleared db) (cleared-IsConsistent db v) row.value
            verified source)
  ]

  pub claim_batch-IsConsistent :
      (now : ℕ) (candidate : PublicSnapshotPointer) (owner : PublicationWriteOwner)
      (db : PublicationState)
      → IsConsistent db
      → IsConsistent (claim_batch now candidate owner source observed db).0
  unfolding claim_batch
  claim_batch-IsConsistent now candidate owner db v = elim (Option-cases observed.claim) [
    | inl e ↦
        rw (e, claim_batch) (insert_claim-IsConsistent db v (next_claim now candidate owner) source)
    | inr (row, e) ↦
        rw (e, claim_batch)
          (replace_claim-IsConsistent db v (next_claim now candidate owner) row.value source)
  ]
