-- ===== src/Read/Canonical.antt =====
-- Snapshots and manifests in canonical form.
use airing_cal.Common.{
  ℕ, ◌≡◌, refl, sym, subst, inl, inr, Bool, true, false, Option, Text, Text-discrete, if◌then◌else◌,
  Result, ok, err, Result-cases, ok-inj, err_not_ok, sort, sort_onto, insert_sorted, text_lt,
}
use airing_cal.Json.{canonicalize, lookup, object_of, fields_in, sort_fields}
use airing_cal.Snapshot.Build.{PublicSnapshot, snapshot_json, as_snapshot}
use airing_cal.Snapshot.Keys.{snapshot_key}
use airing_cal.Snapshot.Manifest.{
  ManifestMetadata, PublicSnapshotManifest, invalid_manifest, ManifestError, manifest_json,
  as_manifest, is_manifest, parse_manifest, build_manifest,
}
use airing_cal.Release.Stored.{accepted_key}
use airing_cal.Release.Publish.{artifact_of}

-- The snapshot that is read back has the canonical form of the parts of the one that was stored.
abbrev pub canonical : PublicSnapshot → PublicSnapshot
canonical snapshot = record snapshot {
  collections = canonicalize snapshot.collections;
  calendar = canonicalize snapshot.calendar;
  summary = canonicalize snapshot.summary;
}

pub as_snapshot-canonicalize :
    (snapshot : PublicSnapshot)
    → as_snapshot (canonicalize (snapshot_json snapshot)) ≡ canonical snapshot
unfolding canonicalize sort_fields lookup object_of fields_in Text-discrete sort sort_onto
    insert_sorted text_lt
as_snapshot-canonicalize snapshot = refl

pub as_manifest-canonicalize :
    (manifest : PublicSnapshotManifest)
    → as_manifest (canonicalize (manifest_json manifest)) ≡ manifest
unfolding canonicalize sort_fields lookup object_of fields_in Text-discrete sort sort_onto
    insert_sorted text_lt
as_manifest-canonicalize manifest = refl

pub is_manifest-canonicalize :
    (iso : ℕ → Text) (time_of : Text → Option ℕ) (manifest : PublicSnapshotManifest)
    → is_manifest iso time_of (canonicalize (manifest_json manifest))
      ≡ is_manifest iso time_of (manifest_json manifest)
unfolding is_manifest canonicalize sort_fields lookup object_of fields_in Text-discrete sort
    sort_onto insert_sorted text_lt
is_manifest-canonicalize iso time_of manifest = refl

manifest_passed :
    (b : Bool) (built manifest : PublicSnapshotManifest)
    → ◌≡◌ {A = Result ManifestError PublicSnapshotManifest}
        (if b then ok built else err invalid_manifest)
        (ok manifest)
    → (b ≡ true) × (built ≡ manifest)
manifest_passed true built manifest h = (refl, ok-inj h)
manifest_passed false built manifest h = absurd (err_not_ok h)

parse_manifest-manifest_json :
    (iso : ℕ → Text) (time_of : Text → Option ℕ) (built manifest : PublicSnapshotManifest)
    → parse_manifest iso time_of (manifest_json built) ≡ ok manifest
    → (is_manifest iso time_of (manifest_json built) ≡ true) × (built ≡ manifest)
unfolding parse_manifest lookup object_of fields_in Text-discrete
parse_manifest-manifest_json iso time_of built manifest h =
    manifest_passed (is_manifest iso time_of (manifest_json built)) built manifest h

-- A manifest that is built passes its checks and describes the snapshot.
pub build_manifest_lem :
    (iso : ℕ → Text) (time_of : Text → Option ℕ) (snapshot : PublicSnapshot)
    (metadata : ManifestMetadata) (manifest : PublicSnapshotManifest)
    → build_manifest iso time_of snapshot metadata ≡ ok manifest
    → (is_manifest iso time_of (manifest_json manifest) ≡ true)
      × (manifest.generation ≡ snapshot.generation)
      × (manifest.content_sha256 ≡ snapshot.content_hash)
      × (manifest.snapshot_key ≡ artifact_of snapshot)
unfolding build_manifest snapshot_key
build_manifest_lem iso time_of snapshot metadata manifest h =
    elim (Result-cases (snapshot_key snapshot.generation snapshot.content_hash)) [
      | inl (error, e) ↦ absurd (err_not_ok (rw (e, build_manifest) at h))
      | inr (key, e) ↦
          let passed =
            parse_manifest-manifest_json iso time_of _ manifest (rw (e, build_manifest) at h) in
          subst
            (λ m.
              (is_manifest iso time_of (manifest_json m) ≡ true)
              × (m.generation ≡ snapshot.generation)
              × (m.content_sha256 ≡ snapshot.content_hash)
              × (m.snapshot_key ≡ artifact_of snapshot))
            passed.1 (passed.0, refl, refl, sym (accepted_key _ _ _ key e))
    ]
