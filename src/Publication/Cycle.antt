-- ===== src/Publication/Cycle.antt =====
-- A builder that nobody disturbs publishes its candidate: commit, claim and mark.
use airing_cal.Common.{
  ℕ, ◌+◌, ◌≤◌, ◌≡◌, refl, inl, inr, true, false, ◌&&◌, none, some, ok, Option-cases, arith, ltb,
}
use airing_cal.Publication.{
  PublicSnapshotPointer, PublicationWriteOwner, PublicationSourceWatermark, PublicationState,
  SourceRelation, source_relation, lease_seconds, max_date_seconds, validate_lease_time,
}
use airing_cal.Publication.Statements.{
  pointer_row, source_row, source_cas, delete_claim, insert_pending, replace_pending, insert_claim,
  upsert_verified, delete_published_pending, delete_published_claim,
}
use airing_cal.Publication.Operations.{
  ClaimResult, is_exact, relation_to, is_pointer, is_active, is_own_claim, follows, advance_source,
  drop_claim, commit_answer, commit_batch, claim_answer, claim_batch, next_claim, publish_batch,
}
use airing_cal.Publication.Methods.{
  check_source, check_writer, is_source_of, commit_attempts, commit_pending_publication,
  claim_attempts, claim_publication_write, mark_publication_published,
}
use airing_cal.Publication.Consistency.{IsConsistent}

-- Nobody else writes.
abbrev pub alone : ℕ → PublicationState → PublicationState
alone n s = s

-- The rows after a commit, after a claim and after the publication.
abbrev pub committed :
    PublicSnapshotPointer → PublicationSourceWatermark → PublicationState → PublicationState
committed candidate source db = record {
  verified = db.verified;
  pending = some (pointer_row candidate);
  claim = none;
  source = some (source_row source);
}

abbrev pub claimed :
    ℕ
    → PublicSnapshotPointer
    → PublicationWriteOwner
    → PublicationSourceWatermark
    → PublicationState
    → PublicationState
claimed now candidate owner source db = record (committed candidate source db) {
  claim =
      some (record { value = next_claim now candidate owner; updated_at = candidate.generation });
}

abbrev pub published :
    PublicSnapshotPointer → PublicationSourceWatermark → PublicationState → PublicationState
published candidate source db = record (committed candidate source db) {
  verified = some (pointer_row candidate);
  pending = none;
}

module _ (now : ℕ) (candidate : PublicSnapshotPointer) (owner : PublicationWriteOwner)
    (source : PublicationSourceWatermark) (db : PublicationState) (v : IsConsistent db)
    (in_time : now + lease_seconds ≤ max_date_seconds)
    (writer : check_writer candidate owner source ≡ ok tt)
    (of : is_source_of candidate owner source ≡ true)
    (new : relation_to source db ≡ SourceRelation.newer)
    (next : follows candidate db.verified ≡ true) (free : is_active now db.claim ≡ false) where
  abbrev advanced : PublicationState
  advanced = record db { source = some (source_row source) }

  advance_eq : advance_source source db db ≡ (advanced, 1)
  unfolding advance_source source_cas
  advance_eq = ground arith

  drop_eq : drop_claim source db advanced ≡ record advanced { claim = none }
  unfolding drop_claim delete_claim
  drop_eq = ground arith

  commit_answer_eq : commit_answer now candidate source db ≡ none
  unfolding commit_answer
  commit_answer_eq = ground arith

  commit_batch_eq : commit_batch candidate source db db ≡ (committed candidate source db, true)
  unfolding commit_batch insert_pending replace_pending
  commit_batch_eq = elim (Option-cases db.pending) [
    | inl e ↦ rw (e, commit_batch, advance_eq, drop_eq) (ground arith)
    | inr (row, e) ↦ rw (e, commit_batch, advance_eq, drop_eq) (ground arith)
  ]

  claim_answer_eq : claim_answer now candidate owner source (committed candidate source db) ≡ none
  unfolding claim_answer source_relation
  claim_answer_eq = ground arith

  claim_batch_eq :
      claim_batch now candidate owner source
        (committed candidate source db)
        (committed candidate source db)
      ≡ (claimed now candidate owner source db, true)
  unfolding claim_batch insert_claim
  claim_batch_eq = ground arith

  publish_batch_eq :
      publish_batch candidate
        (next_claim now candidate owner)
        source
        (claimed now candidate owner source db)
      ≡ published candidate source db
  unfolding publish_batch upsert_verified delete_published_pending delete_published_claim
  publish_batch_eq = ground arith

  source_checked : check_source now candidate source ≡ ok now
  unfolding check_source check_writer validate_lease_time
  source_checked = ground arith

  in_time_now : validate_lease_time now ≡ ok now
  unfolding validate_lease_time
  in_time_now = ground arith

  in_time_lease : validate_lease_time (now + lease_seconds) ≡ ok (now + lease_seconds)
  unfolding validate_lease_time
  in_time_lease = ground arith

  commit_eq :
      commit_pending_publication alone now candidate source db
      ≡ (ok true, committed candidate source db)
  unfolding commit_pending_publication commit_attempts
  commit_eq = rw (source_checked, commit_answer_eq, commit_attempts, commit_batch_eq) refl

  claim_eq :
      claim_publication_write alone now candidate owner source (committed candidate source db)
      ≡ (ok ClaimResult.claimed, claimed now candidate owner source db)
  unfolding claim_publication_write claim_attempts
  claim_eq =
      rw (writer, of, in_time_now, in_time_lease, claim_answer_eq, claim_attempts, claim_batch_eq)
        refl

  exact_eq : is_exact (relation_to source (claimed now candidate owner source db)) ≡ true
  unfolding source_relation
  exact_eq = ground arith

  unpublished_eq : is_pointer candidate (claimed now candidate owner source db).verified ≡ false
  unpublished_eq = ground arith

  own_eq :
      is_own_claim candidate owner (next_claim now candidate owner) && ltb now (now + lease_seconds)
      ≡ true
  own_eq = ground arith

  published_eq : is_pointer candidate (published candidate source db).verified ≡ true
  published_eq = ground arith

  mark_eq :
      mark_publication_published alone now candidate owner source
        (claimed now candidate owner source db)
      ≡ (ok tt, published candidate source db)
  unfolding mark_publication_published
  mark_eq =
      rw (writer, of, in_time_now, exact_eq, unpublished_eq, own_eq, publish_batch_eq, published_eq)
        refl

  -- From consistent rows, a builder that nobody disturbs, with a valid candidate that comes next
  -- after the verified pointer and a newer source, gets its candidate committed, claimed and
  -- published, provided no claim is active: in the end the candidate is the verified pointer, the
  -- source is the watermark, and nothing is pending or claimed.
  pub publishes :
      (commit_pending_publication alone now candidate source db
        ≡ (ok true, committed candidate source db))
      × (claim_publication_write alone now candidate owner source (committed candidate source db)
          ≡ (ok ClaimResult.claimed, claimed now candidate owner source db))
      × (mark_publication_published alone now candidate owner source
            (claimed now candidate owner source db)
          ≡ (ok tt, published candidate source db))
  publishes = (commit_eq, claim_eq, mark_eq)
