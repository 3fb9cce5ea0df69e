-- ===== src/Publication/Examples.antt =====
-- One candidate on its way from commit to publication: the witnesses of the theorems about the
-- publication rows.
use airing_cal.Common.{
  ℕ, ◌≡◌, ◌≢◌, refl, true, none, some, Text, Text-discrete, ok, arith, units, ◌++◌,
}
use airing_cal.Publication.{
  PublicSnapshotPointer, PublicationWriteOwner, PublicationSourceWatermark, PublicationState,
  Pointer-discrete, Owner-discrete, is_lowercase_sha256, snapshot_key, decimal, decode_pointer,
  decode_watermark, validate_owner, validate_lease_time, source_relation, SourceRelation,
  decimal_onto, all_hex,
}
use airing_cal.Publication.Statements.{pointer_row, source_row}
use airing_cal.Publication.Operations.{ClaimResult, next_claim, claim_answer, confirm_answer}
use airing_cal.Publication.Methods.{
  check_writer, claim_attempts, claim_publication_write, commit_pending_publication,
  cleanup_stale_pending_publication, confirm_publication_write, mark_publication_published,
}
use airing_cal.Publication.Consistency.{IsConsistent}
use airing_cal.Publication.Progress.{Progress-refl}
use airing_cal.Publication.Safety.{PublicationCall, IsAdvance, perform, perform-IsAdvance}
use airing_cal.Publication.Exclusive.{
  HoldsClaim, claim_publication_write-HoldsClaim, active_claim_excludes,
}
use airing_cal.Publication.Cycle.{alone, committed, claimed, published, publishes}
use airing_cal.Publication.Confirm.{confirmed_publishes}

abbrev hash : Text
hash = units "0123456789abcdef0123456789abcdef0123456789abcdef0123456789abcdef"

abbrev pointer : ℕ → Text → PublicSnapshotPointer
pointer generation digits = record {
  schema_version = 1;
  generation = generation;
  content_hash = hash;
  r2_key = units "snapshots/v1/" ++ (digits ++ (units "-" ++ (hash ++ units ".json")));
  published_at = 1000;
}

abbrev builder : Text → PublicationWriteOwner
builder token = record { publication_id = units "p2"; attempt_token = token }

abbrev watermark : ℕ → Text → PublicationSourceWatermark
watermark observed_at id = record {
  schema_version = 1;
  source_observed_at = observed_at;
  publication_id = id;
  content_hash = hash;
}

-- Generation 4 is verified; nothing is pending.
abbrev idle : PublicationState
idle = record {
  verified = some (pointer_row (pointer 4 (units "4")));
  pending = none;
  claim = none;
  source = some (source_row (watermark 90 (units "p1")));
}

-- Generation 5 is pending, and claimed till 160.
abbrev writing : PublicationState
writing =
    claimed 100 (pointer 5 (units "5")) (builder (units "a")) (watermark 100 (units "p2")) idle

idle-IsConsistent : IsConsistent idle
idle-IsConsistent = record {
  verified_dated = refl;
  source_dated = refl;
  pending_next = refl;
  claim_pending = refl;
}

writing-IsConsistent : IsConsistent writing
unfolding Pointer-discrete
writing-IsConsistent = record {
  verified_dated = refl;
  source_dated = refl;
  pending_next = refl;
  claim_pending = refl;
}

alone-IsAdvance : (n : ℕ) (s : PublicationState) → IsConsistent s → IsAdvance s (alone n s)
alone-IsAdvance n s v = (v, Progress-refl s)

perform-IsAdvance_example : IsAdvance writing (
    perform alone alone-IsAdvance
      (PublicationCall.publish 120
        (pointer 5 (units "5"))
        (builder (units "a"))
        (watermark 100 (units "p2")))
      writing)
perform-IsAdvance_example =
    perform-IsAdvance alone alone-IsAdvance
      (PublicationCall.publish 120 (pointer 5 (units "5")) (builder (units "a"))
        (watermark 100 (units "p2")))
      writing writing-IsConsistent

alice_checks :
    check_writer (pointer 5 (units "5")) (builder (units "a")) (watermark 100 (units "p2")) ≡ ok tt
unfolding check_writer decode_pointer decode_watermark validate_owner is_lowercase_sha256 all_hex
    snapshot_key decimal decimal_onto Text-discrete
alice_checks = refl

alice_is_newer :
    source_relation (watermark 100 (units "p2")) (some (watermark 90 (units "p1")))
    ≡ SourceRelation.newer
unfolding source_relation
alice_is_newer = refl

publishes_example :
    (commit_pending_publication alone 100 (pointer 5 (units "5")) (watermark 100 (units "p2")) idle
      ≡ (ok true, committed (pointer 5 (units "5")) (watermark 100 (units "p2")) idle))
    × (claim_publication_write alone 100
          (pointer 5 (units "5"))
          (builder (units "a"))
          (watermark 100 (units "p2"))
          (committed (pointer 5 (units "5")) (watermark 100 (units "p2")) idle)
        ≡ (ok ClaimResult.claimed, writing))
    × (mark_publication_published alone 100
          (pointer 5 (units "5"))
          (builder (units "a"))
          (watermark 100 (units "p2"))
          writing
        ≡ (ok tt, published (pointer 5 (units "5")) (watermark 100 (units "p2")) idle))
unfolding Text-discrete
publishes_example =
    publishes 100 (pointer 5 (units "5")) (builder (units "a")) (watermark 100 (units "p2")) idle
      idle-IsConsistent (omega arith) alice_checks refl alice_is_newer refl refl

claim_publication_write-HoldsClaim_example :
    HoldsClaim 120
      (pointer 5 (units "5"))
      (builder (units "a"))
      (claim_publication_write alone 120
        (pointer 5 (units "5"))
        (builder (units "a"))
        (watermark 100 (units "p2"))
        writing).1
unfolding claim_publication_write claim_attempts claim_answer check_writer decode_pointer
    decode_watermark validate_owner validate_lease_time is_lowercase_sha256 all_hex snapshot_key
    decimal decimal_onto Text-discrete Pointer-discrete Owner-discrete source_relation
claim_publication_write-HoldsClaim_example =
    claim_publication_write-HoldsClaim alone 120 (pointer 5 (units "5")) (builder (units "a"))
      (watermark 100 (units "p2")) writing refl

active_claim_excludes_example :
    ((commit_pending_publication alone 120
        (pointer 5 (units "5"))
        (watermark 100 (units "p2"))
        writing).1
      ≡ writing)
    × ((commit_pending_publication alone 120
          (pointer 5 (units "5"))
          (watermark 100 (units "p2"))
          writing).0
        ≢ ok true)
    × ((cleanup_stale_pending_publication alone 120
          (pointer 5 (units "5"))
          (watermark 100 (units "p2"))
          writing).1
        ≡ writing)
    × ((claim_publication_write alone 120
          (pointer 5 (units "5"))
          (builder (units "b"))
          (watermark 100 (units "p2"))
          writing).1
        ≡ writing)
    × ((claim_publication_write alone 120
          (pointer 5 (units "5"))
          (builder (units "b"))
          (watermark 100 (units "p2"))
          writing).0
        ≢ ok ClaimResult.claimed)
unfolding Pointer-discrete Owner-discrete Text-discrete
active_claim_excludes_example =
    active_claim_excludes 120 writing
      (record {
        value = next_claim 100 (pointer 5 (units "5")) (builder (units "a"));
        updated_at = 5;
      })
      refl refl alone (pointer 5 (units "5")) (builder (units "b")) (watermark 100 (units "p2"))
      refl

confirmed_publishes_example :
    mark_publication_published alone 120
      (pointer 5 (units "5"))
      (builder (units "a"))
      (watermark 100 (units "p2"))
      writing
    ≡ (
      ok tt,
      record writing {
        verified = some (pointer_row (pointer 5 (units "5")));
        pending = none;
        claim = none;
      },
    )
unfolding confirm_publication_write confirm_answer check_writer decode_pointer decode_watermark
    validate_owner validate_lease_time is_lowercase_sha256 all_hex snapshot_key decimal decimal_onto
    Text-discrete Pointer-discrete Owner-discrete source_relation
confirmed_publishes_example =
    confirmed_publishes 120 (pointer 5 (units "5")) (builder (units "a"))
      (watermark 100 (units "p2")) writing writing-IsConsistent refl refl
