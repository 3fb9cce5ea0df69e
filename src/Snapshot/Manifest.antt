-- ===== src/Snapshot/Manifest.antt =====
-- buildManifest and parsePublicSnapshotManifestV1 of packages/domain/src/public-manifest.ts.
use airing_cal.Common.{
  ℕ, ◌*◌, Bool, false, ◌&&◌, Option, none, some, is_some, List, [], ◌∷◌, map, Text, units, ◌==◌,
  length, if◌then◌else◌, Result, ok, err, ◌>>=◌, every,
}
use airing_cal.Json.{Json, natural, string, object, object_of, lookup}
use airing_cal.Snapshot.{
  equals, is_lowercase_hex, is_safe, is_record, is_non_negative_integer, is_string, is_hash, has,
  own_keys,
}
use airing_cal.Snapshot.Build.{PublicSnapshot, natural_in, text_in, field_or_null, is_one}
use airing_cal.Snapshot.Keys.{KeyError, snapshot_key, snapshot_object_key}

pub record ManifestMetadata : Type 0 where
  pub source_observed_at : Text
  pub git_sha : Text

pub record PublicSnapshotManifest : Type 0 where
  pub generation : ℕ
  pub snapshot_key : Text
  pub content_sha256 : Text
  pub published_at : Text
  pub source_observed_at : Text
  pub item_count : ℕ
  pub git_sha : Text

pub data ManifestError : Type 0 where
  invalid_manifest : ManifestError
  invalid_key : KeyError → ManifestError

abbrev pub is_git_sha : Json → Bool
is_git_sha (string text) = (length text == 40) && every is_lowercase_hex text
is_git_sha _ = false

-- MANIFEST_KEYS
abbrev pub manifest_keys : List Text
manifest_keys = map units (
    "schema_version" ∷ "generation" ∷ "snapshot_key" ∷ "content_sha256" ∷ "published_at"
    ∷ "source_observed_at" ∷ "item_count" ∷ "git_sha" ∷ [])

abbrev pub has_manifest_keys : Json → Bool
has_manifest_keys value =
    (length (own_keys value) == length manifest_keys)
    && every (λ key. is_some (lookup key value)) manifest_keys

abbrev pub manifest_json : PublicSnapshotManifest → Json
manifest_json manifest = object (
    object_of (
      (units "schema_version", natural 1)
      ∷ (units "generation", natural manifest.generation)
      ∷ (units "snapshot_key", string manifest.snapshot_key)
      ∷ (units "content_sha256", string manifest.content_sha256)
      ∷ (units "published_at", string manifest.published_at)
      ∷ (units "source_observed_at", string manifest.source_observed_at)
      ∷ (units "item_count", natural manifest.item_count)
      ∷ (units "git_sha", string manifest.git_sha)
      ∷ []))

abbrev pub as_manifest : Json → PublicSnapshotManifest
as_manifest value = record {
  generation = natural_in (field_or_null (units "generation") value);
  snapshot_key = text_in (field_or_null (units "snapshot_key") value);
  content_sha256 = text_in (field_or_null (units "content_sha256") value);
  published_at = text_in (field_or_null (units "published_at") value);
  source_observed_at = text_in (field_or_null (units "source_observed_at") value);
  item_count = natural_in (field_or_null (units "item_count") value);
  git_sha = text_in (field_or_null (units "git_sha") value);
}

-- `iso` is toISOString of a time in milliseconds, and `time_of` is Date.parse.
module _ (iso : ℕ → Text) (time_of : Text → Option ℕ) where
  abbrev pub is_utc_iso_timestamp : Json → Bool
  is_utc_iso_timestamp (string text) = elim (time_of text) [
    | none ↦ false
    | some time ↦ is_safe time && equals (iso time) text
  ]
  is_utc_iso_timestamp _ = false

  unfoldable pub is_manifest : Json → Bool
  is_manifest value =
      is_record value
      && has_manifest_keys value
      && has (units "schema_version") is_one value
      && has (units "generation") is_non_negative_integer value
      && has (units "content_sha256") is_hash value
      && has (units "snapshot_key") is_string value
      && equals (as_manifest value).snapshot_key
          (snapshot_object_key (as_manifest value).generation (as_manifest value).content_sha256)
      && has (units "published_at") is_utc_iso_timestamp value
      && has (units "source_observed_at") is_utc_iso_timestamp value
      && has (units "item_count") is_non_negative_integer value
      && has (units "git_sha") is_git_sha value

  unfoldable pub parse_manifest : Json → Result ManifestError PublicSnapshotManifest
  parse_manifest value = if is_manifest value then ok (as_manifest value) else err invalid_manifest

  abbrev key_or_error : Result KeyError Text → Result ManifestError Text
  key_or_error (ok key) = ok key
  key_or_error (err error) = err (invalid_key error)

  unfoldable pub build_manifest :
      PublicSnapshot → ManifestMetadata → Result ManifestError PublicSnapshotManifest
  build_manifest snapshot metadata =
      key_or_error (snapshot_key snapshot.generation snapshot.content_hash) >>= λ key.
      parse_manifest (
        manifest_json (record {
          generation = snapshot.generation;
          snapshot_key = key;
          content_sha256 = snapshot.content_hash;
          published_at = iso (snapshot.published_at * 1000);
          source_observed_at = metadata.source_observed_at;
          item_count = natural_in (field_or_null (units "_total") snapshot.summary);
          git_sha = metadata.git_sha;
        }))
