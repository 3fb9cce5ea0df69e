-- ===== src/Read.antt =====
-- The read path: packages/v3-read/src/load-public-snapshot.ts and verified-snapshot-cache.ts.
mod Cache
mod Loaded
mod Served
mod Published
mod Canonical
pub mod Query
pub mod Handler
mod Pages
mod Examples
use airing_cal.Common.{
  ℕ, Bool, true, false, not, ◌&&◌, ◌||◌, Option, none, some, Text, Text-discrete, Bytes, units,
  ◌==◌, if◌then◌else◌, Result, ok, err,
}
use airing_cal.Json.{Json}
use airing_cal.Snapshot.{equals}
use airing_cal.Snapshot.Build.{PublicSnapshot}
use airing_cal.Snapshot.Manifest.{PublicSnapshotManifest, parse_manifest}
use airing_cal.Release.{PublicReleasePointer, PublicStore}
use airing_cal.Release.Publish.{Platform, PublishError, parse_bytes}

pub record VerifiedPublicSnapshot : Type 0 where
  pub snapshot : PublicSnapshot
  pub generation : ℕ
  pub content_hash : Text
  pub artifact_ref : Text

pub data LoadError : Type 0 where
  invalid_snapshot_of : PublishError → LoadError
  missing_manifest invalid_manifest_at disagreeing_manifest : Text → LoadError

abbrev pub verified : PublicReleasePointer → PublicSnapshot → VerifiedPublicSnapshot
verified pointer snapshot = record {
  snapshot = snapshot;
  generation = pointer.generation;
  content_hash = pointer.content_hash;
  artifact_ref = pointer.artifact_ref;
}

-- `if (manifestRef)`: an empty text counts as none.
abbrev pub manifest_of : PublicReleasePointer → Option Text
manifest_of pointer = elim pointer.manifest_ref [
  | none ↦ none
  | some key ↦ if equals key (units "") then none else some key
]

abbrev pub agrees : PublicReleasePointer → PublicSnapshot → PublicSnapshotManifest → Bool
agrees pointer snapshot manifest =
    (manifest.generation == pointer.generation)
    && equals manifest.content_sha256 pointer.content_hash
    && equals manifest.snapshot_key pointer.artifact_ref
    && equals manifest.content_sha256 snapshot.content_hash

abbrev pub Loaded : Type 0
Loaded = Result LoadError (Option VerifiedPublicSnapshot)

module _ (platform : Platform) where
  -- What the bytes of a manifest parse to, if they do.
  abbrev pub read_manifest : Bytes → Option PublicSnapshotManifest
  read_manifest bytes = elim (platform.decode bytes) [
    | none ↦ none
    | some value ↦ elim (parse_manifest platform.iso platform.time_of value) [
      | err _ ↦ none
      | ok manifest ↦ some manifest
    ]
  ]

  module _ {State : Type 0} (store : PublicStore State) where
    unfoldable pub check_manifest : PublicReleasePointer → PublicSnapshot → State → Loaded
    check_manifest pointer snapshot state = elim (manifest_of pointer) [
      | some key ↦ elim (store.get_snapshot_bytes key state) [
        | none ↦ err (missing_manifest key)
        | some bytes ↦ elim (read_manifest bytes) [
          | none ↦ err (invalid_manifest_at key)
          | some manifest ↦
              if agrees pointer snapshot manifest
              then ok (some (verified pointer snapshot))
              else err (disagreeing_manifest key)
        ]
      ]
      | none ↦ elim (store.get_snapshot_bytes (units "public/manifest.json") state) [
        | none ↦ ok (some (verified pointer snapshot))
        | some bytes ↦ elim (read_manifest bytes) [
          | none ↦ ok none
          | some manifest ↦
              if agrees pointer snapshot manifest
              then ok (some (verified pointer snapshot))
              else ok none
        ]
      ]
    ]

    -- loadVerifiedPublicSnapshot, from the pointer on
    unfoldable pub load_release : PublicReleasePointer → State → Loaded
    load_release pointer state = elim (store.get_snapshot_bytes pointer.artifact_ref state) [
      | none ↦ ok none
      | some bytes ↦ elim (parse_bytes platform bytes) [
        | err error ↦ err (invalid_snapshot_of error)
        | ok snapshot ↦
            if not (snapshot.generation == pointer.generation)
              || not (equals snapshot.content_hash pointer.content_hash)
            then ok none
            else check_manifest pointer snapshot state
      ]
    ]

    unfoldable pub load_verified_public_snapshot : State → Loaded
    load_verified_public_snapshot state = elim (store.get_current_release state) [
      | none ↦ ok none
      | some pointer ↦ load_release pointer state
    ]
