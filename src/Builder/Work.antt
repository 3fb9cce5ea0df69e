-- ===== src/Builder/Work.antt =====
-- What a synchronisation job of the builder finds to do.
use airing_cal.Common.{
  ℕ, ◌+◌, ◌≡◌, refl, sym, ap, ◌∙◌, inl, inr, true, false, Option, none, some, Text, Text-discrete,
  Bytes, Result, ok, err, Result-cases, Option-cases, Bool-cases, ok-inj, err_not_ok,
  holds_complete, holds-sound, subst, some-inj, some-none, ◌≢◌, arith,
}
use airing_cal.Json.{Json}
use airing_cal.Snapshot.{equals}
use airing_cal.Snapshot.Build.{
  SnapshotError, PublicSnapshot, parse_public_snapshot, build_public_snapshot,
}
use airing_cal.Snapshot.Parsing.{
  build_public_snapshot-parse_public_snapshot, build_public_snapshot-hash,
}
use airing_cal.Builder.Job.{
  PublicSnapshotInput, Work, nothing_new, new_snapshot, failure, next_snapshot_generation,
  load_checkpoint, build, make, work_of,
}

module _ (encode : Json → Bytes) (digest : Bytes → Text) where
  -- The snapshot that a checkpoint holds, if there is a checkpoint.
  abbrev pub IsHeld : Option Json → Option PublicSnapshot → Type 0
  IsHeld checkpoint none = checkpoint ≡ none
  IsHeld checkpoint (some snapshot) =
      (value : Json) × (checkpoint ≡ some value)
      × (parse_public_snapshot encode digest value ≡ ok snapshot)

  abbrev pub Builds : PublicSnapshotInput → ℕ → PublicSnapshot → Type 0
  Builds input generation snapshot =
      build_public_snapshot encode digest input.collections input.calendar input.published_at
        generation
      ≡ ok snapshot

  -- A snapshot that follows another one has a hash of its own and the next generation; the first
  -- one has generation 1.
  abbrev pub IsNext : Option PublicSnapshot → PublicSnapshot → Type 0
  IsNext none snapshot = snapshot.generation ≡ 1
  IsNext (some previous) snapshot =
      (previous.content_hash ≢ snapshot.content_hash)
      × (snapshot.generation ≡ previous.generation + 1)

  -- What makes a job fail: the fetch, a checkpoint that does not parse, or an input of which no
  -- snapshot can be built.
  pub data IsFailure : Result Text PublicSnapshotInput → Option Json → Type 0 where
    fetch_failed : (message : Text) (checkpoint : Option Json) → IsFailure (err message) checkpoint
    bad_checkpoint :
        (input : PublicSnapshotInput) (value : Json) (error : SnapshotError)
        → parse_public_snapshot encode digest value ≡ err error
        → IsFailure (ok input) (some value)
    bad_input :
        (input : PublicSnapshotInput) (checkpoint : Option Json) (generation : ℕ)
        (error : SnapshotError)
        → build_public_snapshot encode digest input.collections input.calendar input.published_at
            generation
          ≡ err error
        → IsFailure (ok input) checkpoint

  -- What a job found to do: nothing, when the checkpoint has the hash of what was fetched; or to
  -- store the snapshot of what was fetched that is next after the checkpoint; or it failed.
  abbrev pub IsWork : Result Text PublicSnapshotInput → Option Json → Work → Type 0
  IsWork fetched checkpoint (nothing_new previous) =
      (input : PublicSnapshotInput) × (fetched ≡ ok input)
      × (probe : PublicSnapshot) × Builds input 0 probe
      × (held : PublicSnapshot) × (previous ≡ some held)
      × IsHeld checkpoint (some held)
      × (held.content_hash ≡ probe.content_hash)
  IsWork fetched checkpoint (failure message) = IsFailure fetched checkpoint
  IsWork fetched checkpoint (new_snapshot snapshot) =
      (input : PublicSnapshotInput) × (fetched ≡ ok input)
      × Builds input snapshot.generation snapshot
      × (previous : Option PublicSnapshot) × IsHeld checkpoint previous
      × IsNext previous snapshot

  built :
      (input : PublicSnapshotInput) (generation : ℕ) (snapshot : PublicSnapshot)
      → build encode digest input generation ≡ ok snapshot
      → build_public_snapshot encode digest input.collections input.calendar input.published_at
          generation
        ≡ ok snapshot
  built input generation snapshot h =
      elim (Result-cases (
        build_public_snapshot encode digest input.collections input.calendar input.published_at
          generation)) [
            | inl (error, e) ↦ absurd (err_not_ok (rw (e, build) at h))
            | inr (s, e) ↦ e ∙ ap ok (ok-inj (rw (e, build) at h))
          ]

  build_failed :
      (checkpoint : Option Json) (input : PublicSnapshotInput) (generation : ℕ) (message : Text)
      → build encode digest input generation ≡ err message
      → IsFailure (ok input) checkpoint
  build_failed checkpoint input generation message h =
      elim (Result-cases (
        build_public_snapshot encode digest input.collections input.calendar input.published_at
          generation)) [
            | inl (error, e) ↦ bad_input input checkpoint generation error e
            | inr (s, e) ↦ absurd (err_not_ok (sym (rw (e, build) at h)))
          ]

  load_checkpoint-IsHeld :
      (checkpoint : Option Json) (previous : Option PublicSnapshot)
      → load_checkpoint encode digest checkpoint ≡ ok previous
      → IsHeld checkpoint previous
  load_checkpoint-IsHeld none previous h = subst (IsHeld none) (ok-inj h) refl
  load_checkpoint-IsHeld (some value) previous h =
      elim (Result-cases (parse_public_snapshot encode digest value)) [
        | inl (error, e) ↦ absurd (err_not_ok (rw (e, load_checkpoint) at h))
        | inr (snapshot, e) ↦
            subst (IsHeld (some value)) (ok-inj (rw (e, load_checkpoint) at h)) (value, refl, e)
      ]

  load_checkpoint_failed :
      (checkpoint : Option Json) (input : PublicSnapshotInput) (message : Text)
      → load_checkpoint encode digest checkpoint ≡ err message
      → IsFailure (ok input) checkpoint
  load_checkpoint_failed none input message h = absurd (err_not_ok (sym h))
  load_checkpoint_failed (some value) input message h =
      elim (Result-cases (parse_public_snapshot encode digest value)) [
        | inl (error, e) ↦ bad_checkpoint input value error e
        | inr (snapshot, e) ↦ absurd (err_not_ok (sym (rw (e, load_checkpoint) at h)))
      ]

  next_snapshot_generation-IsNext :
      (previous : Option PublicSnapshot) (snapshot : PublicSnapshot) (generation : ℕ)
      → next_snapshot_generation previous snapshot.content_hash ≡ some generation
      → snapshot.generation ≡ generation
      → IsNext previous snapshot
  unfolding next_snapshot_generation
  next_snapshot_generation-IsNext none snapshot generation h same = same ∙ sym (some-inj h)
  next_snapshot_generation-IsNext (some previous) snapshot generation h same =
      elim (Bool-cases (equals previous.content_hash snapshot.content_hash)) [
        | inl e ↦ absurd (some-none (sym (rw (e, next_snapshot_generation) at h)))
        | inr e ↦ (
          (λ k. absurd (
              false_true (
                sym e
                ∙ holds_complete (Text-discrete previous.content_hash snapshot.content_hash) k))),
          same ∙ sym (some-inj (rw (e, next_snapshot_generation) at h)),
        )
      ]
    where
      false_true : false ≡ true → ⊥
      false_true k = ground arith

  next_snapshot_generation-none :
      (previous : Option PublicSnapshot) (hash : Text)
      → next_snapshot_generation previous hash ≡ none
      → (held : PublicSnapshot) × (previous ≡ some held) × (held.content_hash ≡ hash)
  unfolding next_snapshot_generation
  next_snapshot_generation-none none hash h = absurd (some-none h)
  next_snapshot_generation-none (some held) hash h =
      elim (Bool-cases (equals held.content_hash hash)) [
        | inl e ↦ (held, refl, holds-sound (Text-discrete held.content_hash hash) e)
        | inr e ↦ absurd (some-none (rw (e, next_snapshot_generation) at h))
      ]

  make-IsWork :
      (checkpoint : Option Json) (input : PublicSnapshotInput) (previous : Option PublicSnapshot)
      (probe : PublicSnapshot) (generation : ℕ)
      → IsHeld checkpoint previous
      → build encode digest input 0 ≡ ok probe
      → next_snapshot_generation previous probe.content_hash ≡ some generation
      → IsWork (ok input) checkpoint (make encode digest input generation)
  make-IsWork checkpoint input previous probe generation loaded probed next =
      elim (Result-cases (build encode digest input generation)) [
        | inl (message, e) ↦
            rw (e, IsWork, make) (build_failed checkpoint input generation message e)
        | inr (snapshot, e) ↦
            let made = built input generation snapshot e in
            let parsed =
              build_public_snapshot-parse_public_snapshot encode digest input.collections
                input.calendar input.published_at generation snapshot made in
            rw (e, IsWork, make)
              (rw parsed.0 (
                input,
                refl,
                subst (λ g. Builds input g snapshot) (sym parsed.1) made,
                previous,
                loaded,
                next_snapshot_generation-IsNext previous snapshot generation
                    (ap (next_snapshot_generation previous) (
                        build_public_snapshot-hash encode digest input.collections input.calendar
                          input.published_at generation 0 snapshot probe made
                          (built input 0 probe probed))
                      ∙ next)
                    parsed.1,
              ))
      ]

  pub work_of-IsWork :
      (fetched : Result Text PublicSnapshotInput) (checkpoint : Option Json)
      → IsWork fetched checkpoint (work_of encode digest fetched checkpoint)
  unfolding work_of
  work_of-IsWork (err message) checkpoint = fetch_failed message checkpoint
  work_of-IsWork (ok input) checkpoint =
      elim (Result-cases (load_checkpoint encode digest checkpoint)) [
        | inl (message, e) ↦ rw (e, work_of) (load_checkpoint_failed checkpoint input message e)
        | inr (previous, e) ↦ elim (Result-cases (build encode digest input 0)) [
          | inl (message, f) ↦ rw (e, work_of) (rw f (build_failed checkpoint input 0 message f))
          | inr (probe, f) ↦
              elim (Option-cases (next_snapshot_generation previous probe.content_hash)) [
                | inl g ↦
                    let same = next_snapshot_generation-none previous probe.content_hash g in
                    rw (e, work_of)
                      (rw f (
                        rw g (
                          input,
                          refl,
                          probe,
                          built input 0 probe f,
                          same.0,
                          same.1,
                          subst (IsHeld checkpoint) same.1
                              (load_checkpoint-IsHeld checkpoint previous e),
                          same.2,
                        )))
                | inr (generation, g) ↦
                    rw (e, work_of)
                      (rw f (
                        rw g (
                          make-IsWork checkpoint input previous probe generation
                            (load_checkpoint-IsHeld checkpoint previous e) f g)))
              ]
        ]
      ]
