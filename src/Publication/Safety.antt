-- ===== src/Publication/Safety.antt =====
-- Every publication method keeps the rows consistent and makes progress, for any interference
-- that does so too.
use airing_cal.Common.{
  ℕ, zero, suc, ◌+◌, ◌*◌, inl, inr, Bool, ◌&&◌, Result, ok, err, ◌>>◌, Bool-cases, Option-cases,
  ltb,
}
use airing_cal.Publication.{
  PublicSnapshotPointer, PublicationWriteOwner, PublicationSourceWatermark, PublicationState,
  lease_seconds, validate_lease_time, decode_pointer, validate_owner,
}
use airing_cal.Publication.Statements.{release_claim}
use airing_cal.Publication.Operations.{
  CleanupResult, ClaimResult, is_exact, relation_to, is_pointer, is_own_claim, commit_answer,
  commit_batch, cleanup_answer, cleanup_batch, claim_answer, claim_batch, publish_batch,
}
use airing_cal.Publication.Methods.{
  with_rows, check_source, check_writer, is_source_of, commit_attempts, commit_pending_publication,
  cleanup_attempts, cleanup_stale_pending_publication, claim_attempts, claim_publication_write,
  release_publication_write, mark_publication_published,
}
use airing_cal.Publication.Consistency.{
  IsConsistent, commit_batch-IsConsistent, cleanup_batch-IsConsistent, claim_batch-IsConsistent,
  release_claim-IsConsistent, publish_batch-IsConsistent,
}
use airing_cal.Publication.Progress.{
  Progress, Progress-refl, Progress-trans, commit_batch-Progress, cleanup_batch-Progress,
  claim_batch-Progress, release_claim-Progress, publish_batch-Progress,
}

-- A call of a writing method, at a time.
pub data PublicationCall : Type 0 where
  commit : ℕ → PublicSnapshotPointer → PublicationSourceWatermark → PublicationCall
  cleanup : ℕ → PublicSnapshotPointer → PublicationSourceWatermark → PublicationCall
  claim :
      ℕ
      → PublicSnapshotPointer
      → PublicationWriteOwner
      → PublicationSourceWatermark
      → PublicationCall
  release : PublicSnapshotPointer → PublicationWriteOwner → PublicationCall
  publish :
      ℕ
      → PublicSnapshotPointer
      → PublicationWriteOwner
      → PublicationSourceWatermark
      → PublicationCall

-- From a consistent state to a consistent one that is not behind it.
abbrev pub IsAdvance : PublicationState → PublicationState → Type 0
IsAdvance before after = IsConsistent after × Progress before after

with_rows_keeps {ℓ} :
    {A : Type 0} {E : Type 0} {V : Type ℓ} (P : PublicationState → Type 0) (r : Result E V)
    (db : PublicationState) (next : V → Result E A × PublicationState)
    → P db
    → ((v : V) → P (next v).1)
    → P (with_rows r db next).1
with_rows_keeps P (err e) db next h f = h
with_rows_keeps P (ok v) db next h f = f v

module _ (race : ℕ → PublicationState → PublicationState)
    (fair : (n : ℕ) (s : PublicationState) → IsConsistent s → IsAdvance s (race n s)) where
  pub perform : PublicationCall → PublicationState → PublicationState
  perform (commit now candidate source) db =
      (commit_pending_publication race now candidate source db).1
  perform (cleanup now verified source) db =
      (cleanup_stale_pending_publication race now verified source db).1
  perform (claim now candidate owner source) db =
      (claim_publication_write race now candidate owner source db).1
  perform (release candidate owner) db = (release_publication_write race candidate owner db).1
  perform (publish now candidate owner source) db =
      (mark_publication_published race now candidate owner source db).1

  after_race : (n : ℕ) {s t : PublicationState} → IsAdvance s t → IsAdvance s (race n t)
  after_race n {s} {t} (v, p) = let (v', p') = fair n t v in (v', Progress-trans p p')

  -- A batch sent after a read, with the interference between them.
  raced :
      (n : ℕ) (db : PublicationState) (batch : PublicationState → PublicationState)
      → ((s : PublicationState) → IsConsistent s → IsAdvance s (batch s))
      → IsConsistent db
      → IsAdvance db (batch (race n db))
  raced n db batch h v =
      let (v', p') = fair n db v in let (w, q) = h (race n db) v' in (w, Progress-trans p' q)

  and_then : {a b c : PublicationState} → IsAdvance a b → IsAdvance b c → IsAdvance a c
  and_then (v, p) (w, q) = (w, Progress-trans p q)

  commit_attempts-IsAdvance :
      (n now : ℕ) (candidate : PublicSnapshotPointer) (source : PublicationSourceWatermark)
      (db : PublicationState)
      → IsConsistent db
      → IsAdvance db (commit_attempts race n now candidate source db).1
  unfolding commit_attempts
  commit_attempts-IsAdvance zero now candidate source db v = (v, Progress-refl db)
  commit_attempts-IsAdvance (suc n) now candidate source db v =
      let sent =
        raced (2 * n + 1) db (λ s. (commit_batch candidate source db s).0)
          (λ s w. (
            commit_batch-IsConsistent source db candidate s w,
            commit_batch-Progress source db s candidate,
          ))
          v in
      let next = after_race (2 * n) sent in
      let rest = and_then next (commit_attempts-IsAdvance n now candidate source _ next.0) in
      elim (Option-cases (commit_answer now candidate source db)) [
        | inr (answer, e) ↦ rw (e, commit_attempts) (v, Progress-refl db)
        | inl e ↦ elim (Bool-cases (commit_batch candidate source db (race (2 * n + 1) db)).1) [
          | inl done ↦ rw (e, commit_attempts) (rw done sent)
          | inr not_done ↦ rw (e, commit_attempts) (rw not_done rest)
        ]
      ]

  cleanup_attempts-IsAdvance :
      (n now : ℕ) (verified : PublicSnapshotPointer) (source : PublicationSourceWatermark)
      (db : PublicationState)
      → IsConsistent db
      → IsAdvance db (cleanup_attempts race n now verified source db).1
  unfolding cleanup_attempts
  cleanup_attempts-IsAdvance zero now verified source db v = (v, Progress-refl db)
  cleanup_attempts-IsAdvance (suc n) now verified source db v =
      let sent =
        raced (2 * n + 1) db (λ s. (cleanup_batch verified source db s).0)
          (λ s w. (
            cleanup_batch-IsConsistent source db verified s w,
            cleanup_batch-Progress source db s verified,
          ))
          v in
      let next = after_race (2 * n) sent in
      let rest = and_then next (cleanup_attempts-IsAdvance n now verified source _ next.0) in
      elim (Option-cases (cleanup_answer now verified source db)) [
        | inr (answer, e) ↦ rw (e, cleanup_attempts) (v, Progress-refl db)
        | inl e ↦ elim (Option-cases (cleanup_batch verified source db (race (2 * n + 1) db)).1) [
          | inr (answer, done) ↦ rw (e, cleanup_attempts) (rw (done, cleanup_attempts) sent)
          | inl not_done ↦ rw (e, cleanup_attempts) (rw (not_done, cleanup_attempts) rest)
        ]
      ]

  claim_attempts-IsAdvance :
      (n now : ℕ) (candidate : PublicSnapshotPointer) (owner : PublicationWriteOwner)
      (source : PublicationSourceWatermark) (db : PublicationState)
      → IsConsistent db
      → IsAdvance db (claim_attempts race n now candidate owner source db).1
  unfolding claim_attempts
  claim_attempts-IsAdvance zero now candidate owner source db v = (v, Progress-refl db)
  claim_attempts-IsAdvance (suc n) now candidate owner source db v =
      let sent =
        raced (2 * n + 1) db (λ s. (claim_batch now candidate owner source db s).0)
          (λ s w. (
            claim_batch-IsConsistent source db now candidate owner s w,
            claim_batch-Progress source db s now candidate owner,
          ))
          v in
      let next = after_race (2 * n) sent in
      let rest = and_then next (claim_attempts-IsAdvance n now candidate owner source _ next.0) in
      elim (Option-cases (claim_answer now candidate owner source db)) [
        | inr (answer, e) ↦ rw (e, claim_attempts) (v, Progress-refl db)
        | inl e ↦
            elim (Bool-cases (claim_batch now candidate owner source db (race (2 * n + 1) db)).1) [
              | inl done ↦ rw (e, claim_attempts) (rw done sent)
              | inr not_done ↦ rw (e, claim_attempts) (rw not_done rest)
            ]
      ]

  release-IsAdvance :
      (candidate : PublicSnapshotPointer) (owner : PublicationWriteOwner) (db : PublicationState)
      → IsConsistent db
      → IsAdvance db (release_publication_write race candidate owner db).1
  unfolding release_publication_write
  release-IsAdvance candidate owner db v =
      with_rows_keeps (IsAdvance db) (do decode_pointer candidate; validate_owner owner) db _
        (v, Progress-refl db)
        (λ _. elim (Option-cases db.claim) [
          | inl e ↦ simp e (v, Progress-refl db)
          | inr (row, e) ↦ elim (Bool-cases (is_own_claim candidate owner row.value)) [
            | inl own ↦
                simp (e, own)
                  (raced 1 db (λ s. (release_claim row.value candidate s).0)
                    (λ s w. (
                      release_claim-IsConsistent s w row.value candidate,
                      release_claim-Progress row.value candidate s,
                    ))
                    v)
            | inr other ↦ simp (e, other) (v, Progress-refl db)
          ]
        ])

  published-IsAdvance :
      (now : ℕ) (candidate : PublicSnapshotPointer) (owner : PublicationWriteOwner)
      (source : PublicationSourceWatermark) (db : PublicationState)
      → IsConsistent db
      → IsAdvance db (mark_publication_published race now candidate owner source db).1
  unfolding mark_publication_published
  published-IsAdvance now candidate owner source db v =
      let same : IsAdvance db db = (v, Progress-refl db) in
      with_rows_keeps {A = Unit} (IsAdvance db) (check_writer candidate owner source) db _ same
        (λ _. elim (Bool-cases (is_source_of candidate owner source)) [
          | inr other ↦ rw other same
          | inl of ↦ rw of (
              with_rows_keeps {A = Unit} (IsAdvance db) (validate_lease_time now) db _ same
                (λ lease_now. elim (Bool-cases (is_exact (relation_to source db))) [
                  | inr e ↦ rw e same
                  | inl e ↦ elim (Bool-cases (is_pointer candidate db.verified)) [
                    | inl already ↦ rw e (rw already same)
                    | inr not_yet ↦ rw e (
                        rw not_yet (elim (Option-cases db.claim) [
                          | inl none_e ↦ simp none_e same
                          | inr (row, row_e) ↦
                              elim (Bool-cases (
                                is_own_claim candidate owner row.value
                                && ltb lease_now row.value.expires_at)) [
                                  | inr other ↦ simp (row_e, other) same
                                  | inl own ↦
                                      simp (row_e, own)
                                        (after_race 0 (
                                          raced 1 db (publish_batch candidate row.value source)
                                            (λ s w. (
                                              publish_batch-IsConsistent candidate row.value source
                                                  s w,
                                              publish_batch-Progress candidate row.value source s w,
                                            ))
                                            v))
                                ]
                        ]))
                  ]
                ]))
        ])

  -- Every method, called on consistent rows, with any interference that itself keeps the rows
  -- consistent and makes progress, leaves the rows consistent, and neither the verified generation
  -- nor the source watermark goes back.
  pub perform-IsAdvance :
      (call : PublicationCall) (db : PublicationState)
      → IsConsistent db
      → IsAdvance db (perform call db)
  unfolding perform commit_pending_publication cleanup_stale_pending_publication
      claim_publication_write
  perform-IsAdvance (commit now candidate source) db v =
      with_rows_keeps {A = Bool} (IsAdvance db) (check_source now candidate source) db _
        (v, Progress-refl db)
        (λ lease_now. commit_attempts-IsAdvance 3 lease_now candidate source db v)
  perform-IsAdvance (cleanup now verified source) db v =
      with_rows_keeps {A = CleanupResult} (IsAdvance db) (check_source now verified source) db _
        (v, Progress-refl db)
        (λ lease_now. cleanup_attempts-IsAdvance 3 lease_now verified source db v)
  perform-IsAdvance (claim now candidate owner source) db v =
      let same : IsAdvance db db = (v, Progress-refl db) in
      with_rows_keeps {A = ClaimResult} (IsAdvance db) (check_writer candidate owner source) db _
        same
        (λ _. elim (Bool-cases (is_source_of candidate owner source)) [
          | inr other ↦ rw other same
          | inl of ↦ rw of (
              with_rows_keeps {A = ClaimResult} (IsAdvance db) (validate_lease_time now) db _ same
                (λ lease_now.
                  with_rows_keeps {A = ClaimResult} (IsAdvance db)
                    (validate_lease_time (lease_now + lease_seconds)) db _ same
                    (λ _. claim_attempts-IsAdvance 3 lease_now candidate owner source db v)))
        ])
  perform-IsAdvance (release candidate owner) db v = release-IsAdvance candidate owner db v
  perform-IsAdvance (publish now candidate owner source) db v =
      published-IsAdvance now candidate owner source db v
