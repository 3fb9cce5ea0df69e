-- ===== src/Release/Published.antt =====
-- What publishing a checkpoint does to the release, whatever other publishers do meanwhile.
use airing_cal.Common.{
  ◌≡◌, refl, sym, ◌∙◌, inl, inr, true, Option, none, some, Text, Bytes, ok, Result-cases,
  Option-cases, Bool-cases,
}
use airing_cal.Json.{Json, canonical_bytes, sha256_canonical}
use airing_cal.Snapshot.Build.{PublicSnapshot, parse_public_snapshot, canonical_snapshot_bytes}
use airing_cal.Snapshot.Keys.{manifest_object_key}
use airing_cal.Snapshot.Manifest.{
  ManifestMetadata, PublicSnapshotManifest, build_manifest, manifest_json,
}
use airing_cal.Release.{
  PublicReleasePointer, CommitResult, committed, conflict, unsupported, PublicStore,
  release_pointers_match,
}
use airing_cal.Release.Memory.{IsPublicStore}
use airing_cal.Release.Stored.{
  keys_apart, put_verified-reads, put_verified-keeps, put_verified-current,
}
use airing_cal.Release.Publish.{
  published, already_current, no_checkpoint, resolve_manifest_metadata, Platform, PublishOptions,
  BuilderState, Answer, Put, stored, mismatch, thrown, artifact_of, pointer_of, is_current,
  parse_bytes, put_verified, result_of_commit, commit_pointer, after_put, put_manifest,
  publish_snapshot, publish_builder_checkpoint,
}

-- An answer other than that a release was published.
abbrev pub IsUnpublished : Answer → Type 0
IsUnpublished (ok (published _)) = ⊥
IsUnpublished _ = Unit

conflict_committed : ◌≡◌ {A = CommitResult} conflict committed → ⊥
conflict_committed h = cc

unsupported_committed : ◌≡◌ {A = CommitResult} unsupported committed → ⊥
unsupported_committed h = cc

module _ {State : Type 0} (platform : Platform) (store : PublicStore State)
    (options : PublishOptions State) where
  abbrev current : State → Option PublicReleasePointer
  current = store.get_current_release

  abbrev pub manifest_bytes : PublicSnapshotManifest → Bytes
  manifest_bytes manifest = canonical_bytes platform.encode (manifest_json manifest)

  abbrev snapshot_bytes : PublicSnapshot → Bytes
  snapshot_bytes snapshot = canonical_snapshot_bytes platform.encode snapshot

  -- The manifest that a pointer names, if any, was built for the snapshot and can be read.
  abbrev pub IsBacked : PublicSnapshot → Option Text → State → Type 0
  IsBacked snapshot none state = Unit
  IsBacked snapshot (some key) state =
      (hash : Text) × (metadata : ManifestMetadata) × (manifest : PublicSnapshotManifest)
      × (manifest_object_key snapshot.generation hash ≡ ok key)
      × (build_manifest platform.iso platform.time_of snapshot metadata ≡ ok manifest)
      × (store.get_snapshot_bytes key state ≡ some (manifest_bytes manifest))

  IsBacked-kept :
      (snapshot : PublicSnapshot) (manifest_ref : Option Text) (a b : State)
      → ((key : Text) (body : Bytes)
          → store.get_snapshot_bytes key a ≡ some body
          → store.get_snapshot_bytes key b ≡ some body)
      → IsBacked snapshot manifest_ref a
      → IsBacked snapshot manifest_ref b
  IsBacked-kept snapshot none a b kept h = tt
  IsBacked-kept snapshot (some key) a b kept (hash, metadata, manifest, named, built, read) =
      (hash, metadata, manifest, named, built, kept key _ read)

  -- How a call that starts on `before` ends: it changes no release, or others changed it meanwhile,
  -- or it replaced a release like the one that it had read, and the new one's snapshot and manifest
  -- can be read.
  pub data Outcome (before : State) (snapshot : PublicSnapshot) : Answer → State → Type 0 where
    untouched :
        (answer : Answer) (after : State)
        → IsUnpublished answer
        → current after ≡ current before
        → Outcome before snapshot answer after
    overtaken :
        (answer : Answer) (between after : State)
        → IsUnpublished answer
        → current between ≡ current before
        → current after ≡ current (options.meanwhile between)
        → Outcome before snapshot answer after
    released :
        (manifest_ref : Option Text) (between after : State) (parsed : PublicSnapshot)
        → current between ≡ current before
        → release_pointers_match (current before) (current (options.meanwhile between)) ≡ true
        → current after ≡ some (pointer_of options.schema_version snapshot manifest_ref)
        → store.get_snapshot_bytes (artifact_of snapshot) after
          ≡ some (canonical_snapshot_bytes platform.encode snapshot)
        → parse_bytes platform (canonical_snapshot_bytes platform.encode snapshot) ≡ ok parsed
        → IsBacked snapshot manifest_ref after
        → Outcome before snapshot
            (ok (published (pointer_of options.schema_version snapshot manifest_ref)))
            after

  module _ (lawful : IsPublicStore store)
      (keeps : (key : Text) (body : Bytes) (state : State)
        → store.get_snapshot_bytes key state ≡ some body
        → store.get_snapshot_bytes key (options.meanwhile state) ≡ some body) where
    commit_pointer-Outcome :
        (before : State) (snapshot parsed : PublicSnapshot) (manifest_ref : Option Text)
        (state : State)
        → current state ≡ current before
        → store.get_snapshot_bytes (artifact_of snapshot) state ≡ some (snapshot_bytes snapshot)
        → parse_bytes platform (snapshot_bytes snapshot) ≡ ok parsed
        → IsBacked snapshot manifest_ref state
        → Outcome before snapshot
            (commit_pointer platform store options snapshot (current before) manifest_ref state).0
            (commit_pointer platform store options snapshot (current before) manifest_ref state).1
    unfolding commit_pointer
    commit_pointer-Outcome before snapshot parsed manifest_ref state same readable reparsed backed =
        elim (Option-cases (
          options.pre_commit snapshot (current before)
            (pointer_of options.schema_version snapshot manifest_ref))) [
              | inr (message, e) ↦ rw (e, commit_pointer) (untouched _ state tt same)
              | inl e ↦
                  rw (e, commit_pointer)
                    (ended
                      (store.commit_release (current before)
                        (pointer_of options.schema_version snapshot manifest_ref)
                        (options.meanwhile state)).0
                      refl)
            ]
      where
        kept :
            (key : Text) (body : Bytes)
            → store.get_snapshot_bytes key state ≡ some body
            → store.get_snapshot_bytes key
                (store.commit_release
                  (current before)
                  (pointer_of options.schema_version snapshot manifest_ref)
                  (options.meanwhile state)).1
              ≡ some body
        kept key body read =
            lawful.commit_keeps (current before)
              (pointer_of options.schema_version snapshot manifest_ref) (options.meanwhile state)
              key
            ∙ keeps key body state read

        ended :
            (result : CommitResult)
            → (store.commit_release
                (current before)
                (pointer_of options.schema_version snapshot manifest_ref)
                (options.meanwhile state)).0
              ≡ result
            → Outcome before snapshot
                (ok (
                  result_of_commit platform store options
                    (pointer_of options.schema_version snapshot manifest_ref)
                    result))
                (store.commit_release
                  (current before)
                  (pointer_of options.schema_version snapshot manifest_ref)
                  (options.meanwhile state)).1
        ended committed e =
            let done =
              lawful.commits (current before)
                (pointer_of options.schema_version snapshot manifest_ref) (options.meanwhile state)
                e in
            released manifest_ref state _ parsed same done.0 done.1
              (kept (artifact_of snapshot) _ readable) reparsed
              (IsBacked-kept snapshot manifest_ref state _ kept backed)
        ended conflict e = overtaken _ state _ tt same (
            lawful.refuses (current before)
              (pointer_of options.schema_version snapshot manifest_ref) (options.meanwhile state)
              (λ h. conflict_committed (sym e ∙ h)))
        ended unsupported e = overtaken _ state _ tt same (
            lawful.refuses (current before)
              (pointer_of options.schema_version snapshot manifest_ref) (options.meanwhile state)
              (λ h. unsupported_committed (sym e ∙ h)))

    after_put-Outcome :
        (before : State) (snapshot : PublicSnapshot) (put : Put × State)
        (next : State → Answer × State)
        → current put.1 ≡ current before
        → (put.0 ≡ stored → Outcome before snapshot (next put.1).0 (next put.1).1)
        → Outcome before snapshot
            (after_put platform store options put next).0
            (after_put platform store options put next).1
    unfolding after_put
    after_put-Outcome before snapshot (stored, state) next same then_next = then_next refl
    after_put-Outcome before snapshot (mismatch, state) next same then_next =
        untouched _ state tt same
    after_put-Outcome before snapshot (thrown message, state) next same then_next =
        untouched _ state tt same

    put_manifest-Outcome :
        (before : State) (snapshot parsed : PublicSnapshot) (metadata : Option ManifestMetadata)
        (state : State)
        → current state ≡ current before
        → store.get_snapshot_bytes (artifact_of snapshot) state ≡ some (snapshot_bytes snapshot)
        → parse_bytes platform (snapshot_bytes snapshot) ≡ ok parsed
        → Outcome before snapshot
            (put_manifest platform store options snapshot (current before) metadata state).0
            (put_manifest platform store options snapshot (current before) metadata state).1
    unfolding put_manifest
    put_manifest-Outcome before snapshot parsed none state same readable reparsed =
        commit_pointer-Outcome before snapshot parsed none state same readable reparsed tt
    put_manifest-Outcome before snapshot parsed (some metadata) state same readable reparsed =
        elim (Result-cases (build_manifest platform.iso platform.time_of snapshot metadata)) [
          | inl (error, e) ↦ rw (e, put_manifest) (untouched _ state tt same)
          | inr (manifest, e) ↦
              elim (Result-cases (
                manifest_object_key snapshot.generation
                  (sha256_canonical platform.encode platform.digest (manifest_json manifest)))) [
                    | inl (error, f) ↦ rw (e, put_manifest) (rw f (untouched _ state tt same))
                    | inr (key, f) ↦
                        rw (e, put_manifest)
                          (rw f (
                            after_put-Outcome before snapshot
                              (put_verified platform store options key (manifest_bytes manifest)
                                state)
                              (commit_pointer platform store options snapshot (current before)
                                (some key))
                              (put_verified-current platform store options lawful key
                                  (manifest_bytes manifest) state
                                ∙ same)
                              (λ put.
                                commit_pointer-Outcome before snapshot parsed (some key) _
                                  (put_verified-current platform store options lawful key
                                      (manifest_bytes manifest) state
                                    ∙ same)
                                  (put_verified-keeps platform store options lawful key
                                      (artifact_of snapshot) (manifest_bytes manifest) state
                                      (keys_apart snapshot _ key f)
                                    ∙ readable)
                                  reparsed
                                  (
                                    _,
                                    metadata,
                                    manifest,
                                    f,
                                    e,
                                    put_verified-reads platform store options lawful key
                                        (manifest_bytes manifest) state put,
                                  ))))
                  ]
        ]

    publish_snapshot-Outcome :
        (snapshot : PublicSnapshot) (state : BuilderState) (before : State)
        → Outcome before snapshot
            (publish_snapshot platform store options snapshot state before).0
            (publish_snapshot platform store options snapshot state before).1.1
    unfolding publish_snapshot
    publish_snapshot-Outcome snapshot state before =
        elim (Result-cases (parse_bytes platform (snapshot_bytes snapshot))) [
          | inl (error, e) ↦ rw (e, publish_snapshot) (untouched _ before tt refl)
          | inr (parsed, e) ↦ elim (Bool-cases (is_current snapshot (current before))) [
            | inl f ↦
                rw (e, publish_snapshot)
                  (rw f (untouched _ before (current_IsUnpublished (current before)) refl))
            | inr f ↦ elim (Option-cases (options.pre_publish snapshot)) [
              | inr (message, g) ↦
                  rw (e, publish_snapshot) (rw f (rw g (untouched _ before tt refl)))
              | inl g ↦
                  rw (e, publish_snapshot)
                    (rw f (
                      rw g (
                        after_put-Outcome before snapshot
                          (put_verified platform store options (artifact_of snapshot)
                            (snapshot_bytes snapshot) before)
                          (put_manifest platform store options snapshot (current before)
                            (resolve_manifest_metadata options.manifest_metadata snapshot state).0)
                          (put_verified-current platform store options lawful (artifact_of snapshot)
                            (snapshot_bytes snapshot) before)
                          (λ put.
                            put_manifest-Outcome before snapshot parsed
                              (resolve_manifest_metadata options.manifest_metadata snapshot state).0
                              _
                              (put_verified-current platform store options lawful
                                (artifact_of snapshot) (snapshot_bytes snapshot) before)
                              (put_verified-reads platform store options lawful
                                (artifact_of snapshot) (snapshot_bytes snapshot) before put)
                              e))))
            ]
          ]
        ]
      where
        current_IsUnpublished :
            (expected : Option PublicReleasePointer)
            → IsUnpublished
                (ok (elim expected [ none ↦ no_checkpoint | some p ↦ already_current p ]))
        current_IsUnpublished none = tt
        current_IsUnpublished (some p) = tt

    -- On a store that keeps its contract, where others may change the release before the commit but
    -- no object, publishing a checkpoint replaces only a release like the one that it had read, by
    -- one whose snapshot and manifest, if it names one, can be read, when it answers that it
    -- published; else it changes no release.
    pub publish_builder_checkpoint-Outcome :
        (state : BuilderState) (before : State) (value : Json) (snapshot : PublicSnapshot)
        → state.checkpoint ≡ some value
        → parse_public_snapshot platform.encode platform.digest value ≡ ok snapshot
        → Outcome before snapshot
            (publish_builder_checkpoint platform store options state before).0
            (publish_builder_checkpoint platform store options state before).1.1
    unfolding publish_builder_checkpoint
    publish_builder_checkpoint-Outcome state before value snapshot given parsed =
        rw (given, publish_builder_checkpoint)
          (rw parsed (publish_snapshot-Outcome snapshot state before))
