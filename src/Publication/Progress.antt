-- ===== src/Publication/Progress.antt =====
-- The verified generation and the source watermark never go back, whatever other clients do
-- between a read and its batch.
use airing_cal.Common.{
  ℕ, ◌≤◌, ◌<◌, ◌≡◌, ◌⊎◌, refl, inl, inr, true, Option, none, some, Bool-cases, arith, text_lt,
  text_lt_trans,
}
use airing_cal.Publication.{
  PublicSnapshotPointer, PublicationWriteOwner, PublicationWriteClaim, PublicationSourceWatermark,
  PublicationState, source_relation, SourceRelation,
}
use airing_cal.Publication.Statements.{
  source_cas, delete_claim, insert_pending, replace_pending, delete_stale_pending, insert_claim,
  replace_claim, release_claim,
}
use airing_cal.Publication.Operations.{
  is_newer, relation_to, value_of, advance_source, drop_claim, commit_batch, cleanup_batch,
  claim_batch, publish_batch,
}
use airing_cal.Publication.Consistency.{IsConsistent, publish_batch_cases}

abbrev pub generation_of : PublicationState → ℕ
generation_of db = elim db.verified [ none ↦ 0 | some row ↦ row.updated_at ]

-- The order of watermarks: by time, then by publication id.
abbrev pub IsLater : PublicationSourceWatermark → PublicationSourceWatermark → Type 0
IsLater a b =
    (a.source_observed_at < b.source_observed_at)
    ⊎ ((a.source_observed_at ≡ b.source_observed_at)
        × (text_lt a.publication_id b.publication_id ≡ true))

abbrev pub AtMost : Option PublicationSourceWatermark → Option PublicationSourceWatermark → Type 0
AtMost none b = Unit
AtMost (some a) none = ⊥
AtMost (some a) (some b) = (a ≡ b) ⊎ IsLater a b

-- What is kept from one state of the rows to a later one.
pub record Progress (before after : PublicationState) : Type 0 where
  pub generation : generation_of before ≤ generation_of after
  pub source : AtMost (value_of before.source) (value_of after.source)

AtMost-refl : (a : Option PublicationSourceWatermark) → AtMost a a
AtMost-refl none = tt
AtMost-refl (some a) = inl refl

AtMost-trans : (a b c : Option PublicationSourceWatermark) → AtMost a b → AtMost b c → AtMost a c
AtMost-trans none b c h k = tt
AtMost-trans (some a) none c h k = elim h [ ]
AtMost-trans (some a) (some b) none h k = k
AtMost-trans (some a) (some b) (some c) h k =
    ground (arith, text_lt_trans a.publication_id b.publication_id c.publication_id)

pub Progress-refl : (db : PublicationState) → Progress db db
Progress-refl db = record { generation = omega arith; source = AtMost-refl (value_of db.source) }

pub Progress-trans : {a b c : PublicationState} → Progress a b → Progress b c → Progress a c
Progress-trans {a} {b} {c} p q = record {
  generation = omega arith;
  source =
      AtMost-trans (value_of a.source) (value_of b.source) (value_of c.source) p.source q.source;
}

-- A statement that touches neither row makes progress.
untouched-Progress :
    (a b : PublicationState) → b.verified ≡ a.verified → b.source ≡ a.source → Progress a b
untouched-Progress a b v s = record {
  generation = ground arith;
  source = rw s (AtMost-refl (value_of a.source));
}

source_relation-IsLater :
    (incoming current : PublicationSourceWatermark)
    → source_relation incoming (some current) ≡ SourceRelation.newer
    → IsLater current incoming
unfolding source_relation
source_relation-IsLater incoming current h = ground arith

source_cas-Progress :
    (source : PublicationSourceWatermark) (observed : Option PublicationSourceWatermark)
    (db : PublicationState)
    → source_relation source observed ≡ SourceRelation.newer
    → Progress db (source_cas source observed db).0
unfolding source_cas
source_cas-Progress source none db h = ground (arith, AtMost-refl (value_of db.source))
source_cas-Progress source (some o) db h =
    ground (arith, source_relation-IsLater source o, AtMost-refl (value_of db.source))

advance_source-Progress :
    (source : PublicationSourceWatermark) (observed db : PublicationState)
    → Progress db (advance_source source observed db).0
unfolding advance_source
advance_source-Progress source observed db =
    elim (Bool-cases (is_newer (relation_to source observed))) [
      | inl e ↦ rw e (
          source_cas-Progress source (value_of observed.source) db
            (newer-sound (relation_to source observed) e))
      | inr e ↦ rw e (Progress-refl db)
    ]
  where
    newer-sound : (r : SourceRelation) → is_newer r ≡ true → r ≡ SourceRelation.newer
    newer-sound SourceRelation.newer h = refl
    newer-sound _ h = cc

drop_claim-Progress :
    (source : PublicationSourceWatermark) (observed db : PublicationState)
    → Progress db (drop_claim source observed db)
unfolding drop_claim delete_claim
drop_claim-Progress source observed db =
    untouched-Progress db (drop_claim source observed db) (ground arith) (ground arith)

module _ (source : PublicationSourceWatermark) (observed db : PublicationState) where
  abbrev cleared : PublicationState
  cleared = drop_claim source observed (advance_source source observed db).0

  cleared-Progress : Progress db cleared
  cleared-Progress =
      Progress-trans (advance_source-Progress source observed db)
        (drop_claim-Progress source observed (advance_source source observed db).0)

  pub commit_batch-Progress :
      (candidate : PublicSnapshotPointer)
      → Progress db (commit_batch candidate source observed db).0
  unfolding commit_batch insert_pending replace_pending
  commit_batch-Progress candidate = Progress-trans cleared-Progress (
      untouched-Progress cleared (commit_batch candidate source observed db).0 (ground arith)
        (ground arith))

  pub cleanup_batch-Progress :
      (verified : PublicSnapshotPointer) → Progress db (cleanup_batch verified source observed db).0
  unfolding cleanup_batch delete_stale_pending
  cleanup_batch-Progress verified = Progress-trans cleared-Progress (
      untouched-Progress cleared (cleanup_batch verified source observed db).0 (ground arith)
        (ground arith))

  pub claim_batch-Progress :
      (now : ℕ) (candidate : PublicSnapshotPointer) (owner : PublicationWriteOwner)
      → Progress db (claim_batch now candidate owner source observed db).0
  unfolding claim_batch insert_claim replace_claim
  claim_batch-Progress now candidate owner =
      untouched-Progress db (claim_batch now candidate owner source observed db).0 (ground arith)
        (ground arith)

pub release_claim-Progress :
    (claim : PublicationWriteClaim) (candidate : PublicSnapshotPointer) (db : PublicationState)
    → Progress db (release_claim claim candidate db).0
unfolding release_claim
release_claim-Progress claim candidate db =
    untouched-Progress db (release_claim claim candidate db).0 (ground arith) (ground arith)

pub publish_batch-Progress :
    (candidate : PublicSnapshotPointer) (claim : PublicationWriteClaim)
    (source : PublicationSourceWatermark) (db : PublicationState)
    → IsConsistent db
    → Progress db (publish_batch candidate claim source db)
publish_batch-Progress candidate claim source db v =
    elim (publish_batch_cases candidate claim source db v) [
      | inl same ↦ rw same (Progress-refl db)
      | inr (e, _, _, _, next) ↦
          rw e (record { generation = ground arith; source = AtMost-refl (value_of db.source) })
    ]
