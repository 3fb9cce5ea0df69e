-- ===== src/Release/Publish.antt =====
-- publishBuilderCheckpoint of packages/v3-builder/src/publish-checkpoint.ts.
use airing_cal.Common.{
  ℕ, Bool, false, ◌&&◌, Option, none, some, List, ◌++◌, Text, Text-discrete, Bytes, units, ◌==◌,
  if◌then◌else◌, Result, ok, err, get, set,
}
use airing_cal.Json.{Json, canonical_bytes, sha256_canonical}
use airing_cal.Snapshot.{equals}
use airing_cal.Snapshot.Build.{
  SnapshotError, PublicSnapshot, parse_public_snapshot, canonical_snapshot_bytes,
}
use airing_cal.Snapshot.Keys.{KeyError, decimal, snapshot_object_key, manifest_object_key}
use airing_cal.Snapshot.Manifest.{ManifestMetadata, ManifestError, build_manifest, manifest_json}
use airing_cal.Release.{
  PublicReleasePointer, CommitResult, committed, conflict, unsupported, PublicStore, bytes_equal,
}

pub data PublishResult : Type 0 where
  published already_current : PublicReleasePointer → PublishResult
  no_checkpoint readback_mismatch cas_conflict cas_unsupported : PublishResult
  pre_publish_failed pre_commit_failed : Text → PublishResult

-- What the call throws.
pub data PublishError : Type 0 where
  not_json : PublishError
  invalid_checkpoint : SnapshotError → PublishError
  invalid_manifest_of : ManifestError → PublishError
  invalid_key_of : KeyError → PublishError
  store_failed : Text → PublishError

-- The builder's values: the checkpoint, and the metadata of the manifests by snapshot.
pub record BuilderState : Type 0 where
  pub checkpoint : Option Json
  pub metadata : List (Text × ManifestMetadata)

abbrev pub identity_of : PublicSnapshot → Text
identity_of snapshot = decimal snapshot.generation ++ (units ":" ++ snapshot.content_hash)

-- resolveManifestMetadata
unfoldable pub resolve_manifest_metadata :
    Option ManifestMetadata → PublicSnapshot → BuilderState → Option ManifestMetadata × BuilderState
resolve_manifest_metadata incoming snapshot state =
    elim (get Text-discrete (identity_of snapshot) state.metadata) [
      | some existing ↦ (some existing, state)
      | none ↦ elim incoming [
        | none ↦ (none, state)
        | some given ↦ (
          some given,
          record state { metadata = set Text-discrete (identity_of snapshot) given state.metadata },
        )
      ]
    ]

abbrev pub artifact_of : PublicSnapshot → Text
artifact_of snapshot = snapshot_object_key snapshot.generation snapshot.content_hash

abbrev pub pointer_of : ℕ → PublicSnapshot → Option Text → PublicReleasePointer
pointer_of schema_version snapshot manifest_ref = record {
  schema_version = schema_version;
  generation = snapshot.generation;
  content_hash = snapshot.content_hash;
  published_at_unix = snapshot.published_at;
  artifact_ref = artifact_of snapshot;
  manifest_ref = manifest_ref;
}

abbrev pub is_current : PublicSnapshot → Option PublicReleasePointer → Bool
is_current snapshot none = false
is_current snapshot (some pointer) =
    equals pointer.content_hash snapshot.content_hash
    && (pointer.generation == snapshot.generation)
    && equals pointer.artifact_ref (artifact_of snapshot)

-- How putting an object and reading it back ended.
pub data Put : Type 0 where
  stored mismatch : Put
  thrown : Text → Put

abbrev pub Answer : Type 0
Answer = Result PublishError PublishResult

-- The hooks give the message of what they throw. `meanwhile` is what other publishers do before
-- the commit.
pub record PublishOptions (State : Type 0) : Type 0 where
  pub schema_version : ℕ
  pub manifest_metadata : Option ManifestMetadata
  pub pre_publish : PublicSnapshot → Option Text
  pub pre_commit : PublicSnapshot → Option PublicReleasePointer → PublicReleasePointer → Option Text
  pub meanwhile : State → State

-- The platform: JSON texts in UTF-8, their digest, and dates.
pub record Platform : Type 0 where
  pub encode : Json → Bytes
  pub decode : Bytes → Option Json
  pub digest : Bytes → Text
  pub iso : ℕ → Text
  pub time_of : Text → Option ℕ

abbrev pub parse_bytes : Platform → Bytes → Result PublishError PublicSnapshot
parse_bytes platform bytes = elim (platform.decode bytes) [
  | none ↦ err not_json
  | some value ↦ elim (parse_public_snapshot platform.encode platform.digest value) [
    | err error ↦ err (invalid_checkpoint error)
    | ok snapshot ↦ ok snapshot
  ]
]

module _ {State : Type 0} (platform : Platform) (store : PublicStore State)
    (options : PublishOptions State) where
  unfoldable pub put_verified : Text → Bytes → State → Put × State
  put_verified key body state =
      let put : Option Text × State =
        store.put_immutable_object key body (units "application/json") state in
      elim put.0 [
        | some message ↦ (thrown message, put.1)
        | none ↦ elim (store.get_snapshot_bytes key put.1) [
          | none ↦ (mismatch, put.1)
          | some readback ↦ (if bytes_equal body readback then stored else mismatch, put.1)
        ]
      ]

  abbrev pub result_of_commit : PublicReleasePointer → CommitResult → PublishResult
  result_of_commit pointer committed = published pointer
  result_of_commit pointer conflict = cas_conflict
  result_of_commit pointer unsupported = cas_unsupported

  -- From the hook before the commit on.
  unfoldable pub commit_pointer :
      PublicSnapshot → Option PublicReleasePointer → Option Text → State → Answer × State
  commit_pointer snapshot expected manifest_ref state =
      let pointer : PublicReleasePointer =
        pointer_of options.schema_version snapshot manifest_ref in
      elim (options.pre_commit snapshot expected pointer) [
        | some message ↦ (ok (pre_commit_failed message), state)
        | none ↦
            let commit : CommitResult × State =
              store.commit_release expected pointer (options.meanwhile state) in
            (ok (result_of_commit pointer commit.0), commit.1)
      ]

  unfoldable pub after_put : Put × State → (State → Answer × State) → Answer × State
  after_put (stored, state) next = next state
  after_put (mismatch, state) next = (ok readback_mismatch, state)
  after_put (thrown message, state) next = (err (store_failed message), state)

  unfoldable pub put_manifest :
      PublicSnapshot
      → Option PublicReleasePointer
      → Option ManifestMetadata
      → State
      → Answer × State
  put_manifest snapshot expected none state = commit_pointer snapshot expected none state
  put_manifest snapshot expected (some metadata) state =
      elim (build_manifest platform.iso platform.time_of snapshot metadata) [
        | err error ↦ (err (invalid_manifest_of error), state)
        | ok manifest ↦
            elim (manifest_object_key snapshot.generation
              (sha256_canonical platform.encode platform.digest (manifest_json manifest))) [
                | err error ↦ (err (invalid_key_of error), state)
                | ok key ↦
                    after_put
                      (put_verified key (canonical_bytes platform.encode (manifest_json manifest))
                        state)
                      (commit_pointer snapshot expected (some key))
              ]
      ]

  unfoldable pub publish_snapshot :
      PublicSnapshot → BuilderState → State → Answer × (BuilderState × State)
  publish_snapshot snapshot state public =
      let bytes : Bytes = canonical_snapshot_bytes platform.encode snapshot in
      let expected : Option PublicReleasePointer = store.get_current_release public in
      elim (parse_bytes platform bytes) [
        | err error ↦ (err error, (state, public))
        | ok _ ↦
            if is_current snapshot expected
            then (
              ok (elim expected [ none ↦ no_checkpoint | some p ↦ already_current p ]),
              (state, public),
            )
            else elim (options.pre_publish snapshot) [
              | some message ↦ (ok (pre_publish_failed message), (state, public))
              | none ↦
                  let resolved : Option ManifestMetadata × BuilderState =
                    resolve_manifest_metadata options.manifest_metadata snapshot state in
                  let done : Answer × State =
                    after_put (put_verified (artifact_of snapshot) bytes public)
                      (put_manifest snapshot expected resolved.0) in
                  (done.0, (resolved.1, done.1))
            ]
      ]

  unfoldable pub publish_builder_checkpoint : BuilderState → State → Answer × (BuilderState × State)
  publish_builder_checkpoint state public = elim state.checkpoint [
    | none ↦ (ok no_checkpoint, (state, public))
    | some value ↦ elim (parse_public_snapshot platform.encode platform.digest value) [
      | err error ↦ (err (invalid_checkpoint error), (state, public))
      | ok snapshot ↦ publish_snapshot snapshot state public
    ]
  ]
