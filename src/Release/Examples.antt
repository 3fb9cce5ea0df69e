-- ===== src/Release/Examples.antt =====
-- An empty snapshot published to the store in memory: tests and witnesses.
use airing_cal.Common.{◌≡◌, refl, true, none, some, [], ◌∷◌, Text, Text-discrete, ok}
use airing_cal.Json.{
  array, no_items, object_of, array_of, items_in, fields_in, lookup, canonical_bytes,
  sha256_canonical,
}
use airing_cal.Snapshot.{is_sha256, has_exact_keys, are_collections, is_summary}
use airing_cal.Snapshot.Build.{
  PublicSnapshot, no_groups, group_collections, groups_json, summarize, snapshot_json,
  validate_snapshot_structure, payload_hash, parse_public_snapshot, build_public_snapshot,
  canonical_snapshot_bytes,
}
use airing_cal.Snapshot.Keys.{snapshot_object_key, decimal, digits}
use airing_cal.Snapshot.Parsing.{build_public_snapshot-parse_public_snapshot}
use airing_cal.Release.{
  MemoryPublicStore, memory_store, memory_commit_release, memory_put_immutable_object, same_hash,
  same_generation,
}
use airing_cal.Release.Memory.{memory_store-IsPublicStore}
use airing_cal.Release.Publish.{
  Platform, PublishOptions, BuilderState, published, pointer_of, put_verified, after_put,
  put_manifest, commit_pointer, publish_snapshot, publish_builder_checkpoint,
  resolve_manifest_metadata,
}
use airing_cal.Release.Published.{Outcome, publish_builder_checkpoint-Outcome}

-- Sixty-four times the digit 0.
abbrev eight : Text → Text
eight rest = 48 ∷ 48 ∷ 48 ∷ 48 ∷ 48 ∷ 48 ∷ 48 ∷ 48 ∷ rest

abbrev zeros : Text
zeros = eight (eight (eight (eight (eight (eight (eight (eight [])))))))

abbrev snapshot : PublicSnapshot
snapshot = record {
  generation = 1;
  content_hash = zeros;
  published_at = 5;
  collections = groups_json no_groups;
  calendar = array no_items;
  summary = summarize no_groups;
}

-- A platform on which there is one text.
abbrev platform : Platform
platform = record {
  encode = λ _. [];
  decode = λ _. some (snapshot_json snapshot);
  digest = λ _. zeros;
  iso = λ _. [];
  time_of = λ _. none;
}

snapshot-parsed :
    parse_public_snapshot platform.encode platform.digest (snapshot_json snapshot) ≡ ok snapshot
unfolding parse_public_snapshot validate_snapshot_structure has_exact_keys are_collections
    is_summary lookup object_of array_of fields_in items_in is_sha256 payload_hash sha256_canonical
    canonical_bytes Text-discrete
snapshot-parsed = refl

snapshot-built : build_public_snapshot platform.encode platform.digest [] [] 5 1 ≡ ok snapshot
unfolding build_public_snapshot group_collections validate_snapshot_structure has_exact_keys
    are_collections is_summary lookup object_of array_of fields_in items_in is_sha256
    sha256_canonical canonical_bytes Text-discrete
snapshot-built = refl

build_public_snapshot-parse_public_snapshot_example :
    (parse_public_snapshot platform.encode platform.digest (snapshot_json snapshot) ≡ ok snapshot)
    × (snapshot.generation ≡ 1)
    × (snapshot.published_at ≡ 5)
build_public_snapshot-parse_public_snapshot_example =
    build_public_snapshot-parse_public_snapshot platform.encode platform.digest [] [] 5 1 snapshot
      snapshot-built

abbrev options : PublishOptions MemoryPublicStore
options = record {
  schema_version = 1;
  manifest_metadata = none;
  pre_publish = λ _. none;
  pre_commit = λ _ _ _. none;
  meanwhile = λ store. store;
}

abbrev empty_store : MemoryPublicStore
empty_store = record {
  current = none;
  objects = λ _. none;
  content_types = λ _. none;
  cas_supported = true;
}

abbrev state : BuilderState
state = record { checkpoint = some (snapshot_json snapshot); metadata = [] }

first_release :
    (publish_builder_checkpoint platform memory_store options state empty_store).0
    ≡ ok (published (pointer_of 1 snapshot none))
unfolding publish_builder_checkpoint publish_snapshot put_verified after_put put_manifest
    commit_pointer resolve_manifest_metadata memory_commit_release memory_put_immutable_object
    same_hash same_generation canonical_snapshot_bytes parse_public_snapshot
    validate_snapshot_structure has_exact_keys are_collections is_summary lookup object_of array_of
    fields_in items_in is_sha256 payload_hash sha256_canonical canonical_bytes Text-discrete
    snapshot_object_key decimal digits
first_release = refl

publish_builder_checkpoint-Outcome_example :
    Outcome platform memory_store options empty_store snapshot
      (publish_builder_checkpoint platform memory_store options state empty_store).0
      (publish_builder_checkpoint platform memory_store options state empty_store).1.1
publish_builder_checkpoint-Outcome_example =
    publish_builder_checkpoint-Outcome platform memory_store options memory_store-IsPublicStore
      (λ key body store h. h) state empty_store (snapshot_json snapshot) snapshot refl
      snapshot-parsed
