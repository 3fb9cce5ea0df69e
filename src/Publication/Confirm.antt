-- ===== src/Publication/Confirm.antt =====
-- What the two confirmations promise of the call that follows them.
use airing_cal.Common.{
  ℕ, ◌≡◌, inl, inr, true, false, ◌&&◌, none, some, ok, Option-cases, arith, ltb,
}
use airing_cal.Publication.{
  PublicSnapshotPointer, PublicationWriteOwner, PublicationWriteClaim, PublicationSourceWatermark,
  AppStateRow, PublicationState, validate_lease_time,
}
use airing_cal.Publication.Statements.{
  pointer_row, source_row, upsert_verified, delete_published_pending, delete_published_claim,
}
use airing_cal.Publication.Operations.{
  ConfirmResult, is_exact, relation_to, is_pointer, is_own_claim, confirm_answer, publish_batch,
}
use airing_cal.Publication.Methods.{
  check_writer, is_source_of, confirm_publication_write, mark_publication_published,
}
use airing_cal.Publication.Consistency.{IsConsistent}
use airing_cal.Publication.Cycle.{alone}

module _ (now : ℕ) (candidate : PublicSnapshotPointer) (owner : PublicationWriteOwner)
    (source : PublicationSourceWatermark) (db : PublicationState) where
  -- What an answer `active` says.
  confirm_answer-active :
      confirm_answer now candidate owner source db ≡ ConfirmResult.active
      → (is_exact (relation_to source db) ≡ true)
        × (is_pointer candidate db.verified ≡ false)
        × ((row : AppStateRow PublicationWriteClaim) × (db.claim ≡ some row)
            × (is_own_claim candidate owner row.value && ltb now row.value.expires_at ≡ true))
  unfolding confirm_answer
  confirm_answer-active h = elim (Option-cases db.claim) [
    | inl e ↦ ground arith
    | inr (row, e) ↦ (ground arith, ground arith, (row, e, ground arith))
  ]

  confirm-checks :
      confirm_publication_write now candidate owner source db ≡ ok ConfirmResult.active
      → (check_writer candidate owner source ≡ ok tt)
        × (is_source_of candidate owner source ≡ true)
        × (validate_lease_time now ≡ ok now)
        × (confirm_answer now candidate owner source db ≡ ConfirmResult.active)
  unfolding confirm_publication_write validate_lease_time check_writer
  confirm-checks h = ground arith

  publish_batch-own :
      (row : AppStateRow PublicationWriteClaim)
      → IsConsistent db
      → db.source ≡ some (source_row source)
      → db.claim ≡ some row
      → is_own_claim candidate owner row.value && ltb now row.value.expires_at ≡ true
      → publish_batch candidate row.value source db
        ≡ record db { verified = some (pointer_row candidate); pending = none; claim = none }
  unfolding publish_batch upsert_verified delete_published_pending delete_published_claim
  publish_batch-own row v s e own = ground arith

-- When confirmPublicationWrite answers active, markPublicationPublished, called next and at the same
-- time on the same consistent rows, succeeds: the candidate is the verified pointer, and nothing is
-- pending or claimed.
pub confirmed_publishes :
    (now : ℕ) (candidate : PublicSnapshotPointer) (owner : PublicationWriteOwner)
    (source : PublicationSourceWatermark) (db : PublicationState)
    → IsConsistent db
    → db.source ≡ some (source_row source)
    → confirm_publication_write now candidate owner source db ≡ ok ConfirmResult.active
    → mark_publication_published alone now candidate owner source db
      ≡ (ok tt, record db { verified = some (pointer_row candidate); pending = none; claim = none })
unfolding mark_publication_published
confirmed_publishes now candidate owner source db v s h =
    let (writer, of, in_time, answer) = confirm-checks now candidate owner source db h in
    let (exact, fresh, (row, e, own)) =
      confirm_answer-active now candidate owner source db answer in
    rw (writer, of, in_time, exact, fresh)
      (simp (e, own, publish_batch-own now candidate owner source db row v s e own) (ground arith))
