-- ===== src/Read/Published.antt =====
-- What a reader loads after a checkpoint was published.
use airing_cal.Common.{
  ℕ, ◌≡◌, refl, sym, ap, ◌∙◌, subst, inl, inr, true, false, Option, none, some, Text, Text-discrete,
  Bytes, units, ◌==◌, ok, Result-cases, ok-inj, err_not_ok, holds_complete, arith,
}
use airing_cal.Json.{Json, canonicalize, canonical_bytes}
use airing_cal.Snapshot.{equals}
use airing_cal.Snapshot.Build.{
  PublicSnapshot, snapshot_json, as_snapshot, canonical_snapshot_bytes, parse_public_snapshot,
}
use airing_cal.Snapshot.Parsing.{parse_public_snapshot_sound}
use airing_cal.Snapshot.Keys.{manifest_object_key}
use airing_cal.Snapshot.Manifest.{
  PublicSnapshotManifest, manifest_json, as_manifest, is_manifest, parse_manifest,
}
use airing_cal.Release.{PublicReleasePointer, PublicStore}
use airing_cal.Release.Memory.{IsPublicStore}
use airing_cal.Release.Stored.{accepted_key}
use airing_cal.Release.Publish.{
  published, Platform, PublishOptions, BuilderState, Answer, artifact_of, pointer_of, parse_bytes,
  publish_builder_checkpoint,
}
use airing_cal.Release.Published.{
  IsUnpublished, IsBacked, manifest_bytes, Outcome, untouched, overtaken, released,
  publish_builder_checkpoint-Outcome,
}
use airing_cal.Read.{
  verified, agrees, read_manifest, check_manifest, load_release, load_verified_public_snapshot,
}
use airing_cal.Read.Canonical.{
  canonical, as_snapshot-canonicalize, as_manifest-canonicalize, is_manifest-canonicalize,
  build_manifest_lem,
}

same_number : (n : ℕ) → n == n ≡ true
same_number n = ground arith

same_text : (text : Text) → equals text text ≡ true
same_text text = holds_complete (Text-discrete text text) refl

agreeing :
    (pointer : PublicReleasePointer) (snapshot : PublicSnapshot) (manifest : PublicSnapshotManifest)
    → manifest.generation ≡ pointer.generation
    → manifest.content_sha256 ≡ pointer.content_hash
    → manifest.snapshot_key ≡ pointer.artifact_ref
    → snapshot.content_hash ≡ pointer.content_hash
    → agrees pointer snapshot manifest ≡ true
agreeing pointer snapshot manifest generation hash key own =
    rw
      (
        generation,
        hash,
        key,
        own,
        same_number pointer.generation,
        same_text pointer.content_hash,
        same_text pointer.artifact_ref,
      )
      refl

published-inj : {a b : PublicReleasePointer} → published a ≡ published b → a ≡ b
published-inj h = cc

-- The key of a manifest is not empty.
named_manifest :
    (generation : ℕ) (hash key : Text)
    → manifest_object_key generation hash ≡ ok key
    → equals key (units "") ≡ false
unfolding manifest_object_key Text-discrete
named_manifest generation hash key h =
    subst (λ k. equals k (units "") ≡ false) (accepted_key _ _ _ key h) refl

module _ (platform : Platform)
    (reads : (value : Json) → platform.decode (platform.encode value) ≡ some value) where
  read_manifest_valid :
      (bytes : Bytes) (value : Json)
      → platform.decode bytes ≡ some value
      → is_manifest platform.iso platform.time_of value ≡ true
      → read_manifest platform bytes ≡ some (as_manifest value)
  unfolding parse_manifest
  read_manifest_valid bytes value decoded valid = rw (decoded, read_manifest) (rw valid refl)

  read_manifest-manifest_bytes :
      {State : Type 0} (store : PublicStore State) (options : PublishOptions State)
      (manifest : PublicSnapshotManifest)
      → is_manifest platform.iso platform.time_of (manifest_json manifest) ≡ true
      → read_manifest platform (manifest_bytes platform store options manifest) ≡ some manifest
  unfolding canonical_bytes
  read_manifest-manifest_bytes store options manifest valid =
      read_manifest_valid (platform.encode (canonicalize (manifest_json manifest)))
        (canonicalize (manifest_json manifest)) (reads (canonicalize (manifest_json manifest)))
        (is_manifest-canonicalize platform.iso platform.time_of manifest ∙ valid)
      ∙ ap some (as_manifest-canonicalize manifest)

  parse_bytes-as_snapshot :
      (bytes : Bytes) (value : Json) (parsed : PublicSnapshot)
      → platform.decode bytes ≡ some value
      → parse_bytes platform bytes ≡ ok parsed
      → as_snapshot value ≡ parsed
  parse_bytes-as_snapshot bytes value parsed decoded h =
      elim (Result-cases (parse_public_snapshot platform.encode platform.digest value)) [
        | inl (error, e) ↦ absurd (err_not_ok (rw e at (rw (decoded, parse_bytes) at h)))
        | inr (found, e) ↦
            (parse_public_snapshot_sound platform.encode platform.digest value found e).1
            ∙ ok-inj (rw e at (rw (decoded, parse_bytes) at h))
      ]

  parse_bytes-canonical :
      (snapshot parsed : PublicSnapshot)
      → parse_bytes platform (canonical_snapshot_bytes platform.encode snapshot) ≡ ok parsed
      → parsed ≡ canonical snapshot
  unfolding canonical_snapshot_bytes canonical_bytes
  parse_bytes-canonical snapshot parsed h =
      sym (
        parse_bytes-as_snapshot (platform.encode (canonicalize (snapshot_json snapshot)))
          (canonicalize (snapshot_json snapshot)) parsed
          (reads (canonicalize (snapshot_json snapshot))) h)
      ∙ as_snapshot-canonicalize snapshot

  module _ {State : Type 0} (store : PublicStore State) (options : PublishOptions State) where
    -- The manifest named by the pointer agrees, or there is none and no older one either.
    check_manifest-backed :
        (snapshot : PublicSnapshot) (manifest_ref : Option Text) (state : State)
        → IsBacked platform store options snapshot manifest_ref state
        → (manifest_ref ≡ none
            → store.get_snapshot_bytes (units "public/manifest.json") state ≡ none)
        → check_manifest platform store
            (pointer_of options.schema_version snapshot manifest_ref)
            (canonical snapshot)
            state
          ≡ ok (
              some (
                verified
                  (pointer_of options.schema_version snapshot manifest_ref)
                  (canonical snapshot)))
    unfolding check_manifest
    check_manifest-backed snapshot none state backed no_older =
        rw (no_older refl, check_manifest) refl
    check_manifest-backed snapshot (some key) state (hash, metadata, manifest, named, built, read)
          _ =
        let described =
          build_manifest_lem platform.iso platform.time_of snapshot metadata manifest built in
        rw (named_manifest snapshot.generation hash key named, check_manifest)
          (rw read (
            rw (read_manifest-manifest_bytes store options manifest described.0) (
              rw
                (agreeing (pointer_of options.schema_version snapshot (some key))
                  (canonical snapshot) manifest described.1 described.2 described.3 refl)
                refl)))

    load_release-backed :
        (snapshot parsed : PublicSnapshot) (manifest_ref : Option Text) (state : State)
        → store.get_snapshot_bytes (artifact_of snapshot) state
          ≡ some (canonical_snapshot_bytes platform.encode snapshot)
        → parse_bytes platform (canonical_snapshot_bytes platform.encode snapshot) ≡ ok parsed
        → IsBacked platform store options snapshot manifest_ref state
        → (manifest_ref ≡ none
            → store.get_snapshot_bytes (units "public/manifest.json") state ≡ none)
        → load_release platform store
            (pointer_of options.schema_version snapshot manifest_ref)
            state
          ≡ ok (
              some (
                verified
                  (pointer_of options.schema_version snapshot manifest_ref)
                  (canonical snapshot)))
    unfolding load_release
    load_release-backed snapshot parsed manifest_ref state readable reparsed backed no_older =
        rw (readable, load_release)
          (rw (reparsed ∙ ap ok (parse_bytes-canonical snapshot parsed reparsed)) (
            rw (same_number snapshot.generation, same_text snapshot.content_hash)
              (check_manifest-backed snapshot manifest_ref state backed no_older)))

    load-Outcome :
        (before after : State) (snapshot : PublicSnapshot) (answer : Answer)
        (pointer : PublicReleasePointer)
        → Outcome platform store options before snapshot answer after
        → answer ≡ ok (published pointer)
        → (pointer.manifest_ref ≡ none
            → store.get_snapshot_bytes (units "public/manifest.json") after ≡ none)
        → load_verified_public_snapshot platform store after
          ≡ ok (some (verified pointer (canonical snapshot)))
    unfolding load_verified_public_snapshot
    load-Outcome before after snapshot answer pointer (untouched _ _ unpublished _) h _ =
        absurd (subst IsUnpublished h unpublished)
    load-Outcome before after snapshot answer pointer (overtaken _ _ _ unpublished _ _) h _ =
        absurd (subst IsUnpublished h unpublished)
    load-Outcome before after snapshot _ pointer
          (released manifest_ref _ _ parsed _ _ now readable reparsed backed) h no_older =
        subst
          (λ p.
            (p.manifest_ref ≡ none
              → store.get_snapshot_bytes (units "public/manifest.json") after ≡ none)
            → load_verified_public_snapshot platform store after
              ≡ ok (some (verified p (canonical snapshot))))
          (published-inj (ok-inj h))
          (λ absent.
            rw (now, load_verified_public_snapshot)
              (load_release-backed snapshot parsed manifest_ref after readable reparsed backed
                absent))
          no_older

    -- On a store that keeps its contract, whose objects others do not change before the commit, and
    -- with JSON texts that read back as their values: after a checkpoint was published, a reader
    -- loads its snapshot under the new pointer, with the parts in canonical form, if the pointer
    -- names a manifest or there is no older manifest.
    pub publish_builder_checkpoint-load_verified_public_snapshot :
        IsPublicStore store
        → ((key : Text) (body : Bytes) (state : State)
            → store.get_snapshot_bytes key state ≡ some body
            → store.get_snapshot_bytes key (options.meanwhile state) ≡ some body)
        → (state : BuilderState) (before : State) (value : Json) (snapshot : PublicSnapshot)
          (pointer : PublicReleasePointer)
        → state.checkpoint ≡ some value
        → parse_public_snapshot platform.encode platform.digest value ≡ ok snapshot
        → (publish_builder_checkpoint platform store options state before).0
          ≡ ok (published pointer)
        → (pointer.manifest_ref ≡ none
            → store.get_snapshot_bytes
                (units "public/manifest.json")
                (publish_builder_checkpoint platform store options state before).1.1
              ≡ none)
        → load_verified_public_snapshot platform store
            (publish_builder_checkpoint platform store options state before).1.1
          ≡ ok (some (verified pointer (canonical snapshot)))
    publish_builder_checkpoint-load_verified_public_snapshot lawful keeps state before value
          snapshot pointer given parsed done no_older =
        load-Outcome before _ snapshot _ pointer
          (publish_builder_checkpoint-Outcome platform store options lawful keeps state before value
            snapshot given parsed)
          done no_older
