-- ===== src/Read/Examples.antt =====
-- A reader of a store with one release, one of a store to which a checkpoint was published with its
-- manifest, and a collection of three on pages of two: tests and witnesses.
use airing_cal.Common.{
  ℕ, ◌≡◌, refl, true, Option, none, some, [], ◌∷◌, ◌++◌, Text, Text-discrete, units, ok,
  if◌then◌else◌, some-none, any, length, ◌*◌, ◌≤◌, arith, sort, sort_onto, insert_sorted, text_lt,
}
use airing_cal.Json.{
  lookup, object_of, array_of, fields_in, items_in, canonical_bytes, sha256_canonical, no_items,
  array, natural, canonicalize, sort_fields,
}
use airing_cal.Json.Codec.{encode, decode, encode_onto, encode_text, run, apply, nth, decode-encode}
use airing_cal.Snapshot.{equals, is_sha256, has_exact_keys, are_collections, is_summary}
use airing_cal.Snapshot.Build.{
  PublicSnapshot, no_groups, groups_json, summarize, snapshot_json, validate_snapshot_structure,
  payload_hash, parse_public_snapshot, canonical_snapshot_bytes,
}
use airing_cal.Snapshot.Keys.{
  snapshot_object_key, snapshot_key, manifest_object_key, decimal, digits,
}
use airing_cal.Snapshot.Manifest.{build_manifest, parse_manifest, is_manifest}
use airing_cal.Release.{
  PublicReleasePointer, MemoryPublicStore, memory_store, memory_commit_release,
  memory_put_immutable_object, same_hash, same_generation,
}
use airing_cal.Release.Memory.{memory_store-IsPublicStore}
use airing_cal.Release.Publish.{
  Platform, PublishOptions, BuilderState, published, pointer_of, artifact_of, put_verified,
  after_put, put_manifest, commit_pointer, publish_snapshot, publish_builder_checkpoint,
  resolve_manifest_metadata,
}
use airing_cal.Read.Query.{
  collection_types, single_query_parameter, get_all, parse_collection_type, parse_positive_integer,
  number_onto, is_positive_decimal,
}
use airing_cal.Read.Handler.{
  PortableReadEnv, fields, not_found, collection_in, slice, handle_collections,
  normalize_portable_read_path, answer, answer_from, handle_portable_read_request,
}
use airing_cal.Read.Pages.{request, data_of, collected, collected-collection_in}
use airing_cal.Read.{
  VerifiedPublicSnapshot, verified, check_manifest, load_release, load_verified_public_snapshot,
}
use airing_cal.Read.Cache.{keep, load}
use airing_cal.Read.Loaded.{IsAuthentic}
use airing_cal.Read.Served.{Call, cache_after, WasCurrent, IsFresh, load-IsServing}
use airing_cal.Read.Canonical.{canonical}
use airing_cal.Read.Published.{publish_builder_checkpoint-load_verified_public_snapshot}

-- A digest of sixty-four zeros, as 8 times 8.
abbrev eight : Text → Text
eight rest = 48 ∷ 48 ∷ 48 ∷ 48 ∷ 48 ∷ 48 ∷ 48 ∷ 48 ∷ rest

abbrev zeros : Text
zeros = eight (eight (eight (eight (eight (eight (eight (eight [])))))))

abbrev snapshot : PublicSnapshot
snapshot = record {
  generation = 1;
  content_hash = zeros;
  published_at = 5;
  collections = groups_json no_groups;
  calendar = array no_items;
  summary = summarize no_groups;
}

abbrev platform : Platform
platform = record {
  encode = λ _. [];
  decode = λ _. some (snapshot_json snapshot);
  digest = λ _. zeros;
  iso = λ _. [];
  time_of = λ _. none;
}

abbrev first_unit : Text → Option ℕ
first_unit [] = none
first_unit (n ∷ _) = some n

abbrev pointer : PublicReleasePointer
pointer = pointer_of 1 snapshot none

abbrev store : MemoryPublicStore
store = record {
  current = some pointer;
  objects = λ key. if equals key (artifact_of snapshot) then some [] else none;
  content_types = λ _. none;
  cas_supported = true;
}

served :
    (load platform memory_store 60000 9 10 none store).0 ≡ ok (some (verified pointer snapshot))
unfolding load keep load_verified_public_snapshot load_release check_manifest parse_public_snapshot
    validate_snapshot_structure has_exact_keys are_collections is_summary lookup object_of array_of
    fields_in items_in is_sha256 payload_hash sha256_canonical canonical_bytes Text-discrete
    snapshot_object_key decimal digits
served = refl

-- A call that found the release, and one within the interval when there is none any more.
abbrev first_call : Call platform memory_store 60000
first_call = record { now = 9; later = 10; state = store }

abbrev second_call : Call platform memory_store 60000
second_call = record { now = 60008; later = 60009; state = record store { current = none } }

served_again :
    (load platform memory_store 60000 60008 60009
      (cache_after platform memory_store 60000 (first_call ∷ []))
      (record store { current = none })).0
    ≡ ok (some (verified pointer snapshot))
unfolding cache_after load keep load_verified_public_snapshot load_release check_manifest
    parse_public_snapshot validate_snapshot_structure has_exact_keys are_collections is_summary
    lookup object_of array_of fields_in items_in is_sha256 payload_hash sha256_canonical
    canonical_bytes Text-discrete snapshot_object_key decimal digits
served_again = refl

load-IsServing_example :
    IsAuthentic platform (verified pointer snapshot)
    × IsFresh platform memory_store 60000
        (WasCurrent platform memory_store 60000 (first_call ∷ []))
        60008
        none
        (verified pointer snapshot)
load-IsServing_example =
    load-IsServing platform memory_store 60000 (first_call ∷ []) second_call
      (verified pointer snapshot) served_again

-- JSON texts that read back, and dates that are written as their numbers.
abbrev lawful_platform : Platform
lawful_platform = record {
  encode = encode;
  decode = decode;
  digest = λ _. zeros;
  iso = λ n. n ∷ [];
  time_of = first_unit;
}

abbrev options : PublishOptions MemoryPublicStore
options = record {
  schema_version = 1;
  manifest_metadata =
      some (record {
        source_observed_at = 4 ∷ [];
        git_sha = eight (eight (eight (eight (eight []))));
      });
  pre_publish = λ _. none;
  pre_commit = λ _ _ _. none;
  meanwhile = λ state. state;
}

abbrev builder : BuilderState
builder = record { checkpoint = some (snapshot_json snapshot); metadata = [] }

abbrev empty_store : MemoryPublicStore
empty_store = record {
  current = none;
  objects = λ _. none;
  content_types = λ _. none;
  cas_supported = true;
}

abbrev manifest_key : Text
manifest_key = units "public/manifests/1-" ++ (zeros ++ units ".json")

snapshot_parsed :
    parse_public_snapshot lawful_platform.encode lawful_platform.digest (snapshot_json snapshot)
    ≡ ok snapshot
unfolding parse_public_snapshot validate_snapshot_structure has_exact_keys are_collections
    is_summary lookup object_of array_of fields_in items_in is_sha256 payload_hash sha256_canonical
    canonical_bytes Text-discrete
snapshot_parsed = refl

released_with_manifest :
    (publish_builder_checkpoint lawful_platform memory_store options builder empty_store).0
    ≡ ok (published (pointer_of 1 snapshot (some manifest_key)))
unfolding publish_builder_checkpoint publish_snapshot put_verified after_put put_manifest
    commit_pointer resolve_manifest_metadata memory_commit_release memory_put_immutable_object
    same_hash same_generation canonical_snapshot_bytes parse_public_snapshot
    validate_snapshot_structure has_exact_keys are_collections is_summary lookup object_of array_of
    fields_in items_in is_sha256 payload_hash sha256_canonical canonical_bytes Text-discrete
    snapshot_object_key decimal digits build_manifest parse_manifest is_manifest snapshot_key
    manifest_object_key encode decode encode_onto encode_text run apply nth canonicalize sort_fields
    sort sort_onto insert_sorted text_lt
released_with_manifest = refl

publish_builder_checkpoint-load_verified_public_snapshot_example :
    load_verified_public_snapshot lawful_platform memory_store
      (publish_builder_checkpoint lawful_platform memory_store options builder empty_store).1.1
    ≡ ok (some (verified (pointer_of 1 snapshot (some manifest_key)) (canonical snapshot)))
publish_builder_checkpoint-load_verified_public_snapshot_example =
    publish_builder_checkpoint-load_verified_public_snapshot lawful_platform decode-encode
      memory_store options memory_store-IsPublicStore (λ key body state h. h) builder empty_store
      (snapshot_json snapshot) snapshot (pointer_of 1 snapshot (some manifest_key)) refl
      snapshot_parsed released_with_manifest (λ h. absurd (some-none h))

abbrev three : PublicSnapshot
three = record snapshot {
  collections =
      fields ((units "watching", array (array_of (natural 7 ∷ natural 8 ∷ natural 9 ∷ []))) ∷ []);
}

abbrev shown : VerifiedPublicSnapshot
shown = verified pointer three

abbrev env : PortableReadEnv
env = record {
  nsfw_show = none;
  package_version = none;
  platform_id = none;
  cron_status = none;
  image = λ _. not_found;
  iso = λ _. [];
  message = λ _. [];
}

repeated_page :
    (handle_portable_read_request
      (units "/collections")
      ((units "page", units "1") ∷ (units "page", units "2") ∷ [])
      env
      (ok (some shown))).status
    ≡ 400
unfolding handle_portable_read_request normalize_portable_read_path answer answer_from
    handle_collections single_query_parameter get_all parse_collection_type parse_positive_integer
    Text-discrete
repeated_page = refl

second_page :
    data_of (
      handle_portable_read_request
        (units "/api/collections")
        (request (units "watching") 2 2)
        env
        (ok (some shown)))
    ≡ natural 9 ∷ []
unfolding handle_portable_read_request normalize_portable_read_path answer answer_from
    handle_collections single_query_parameter get_all parse_collection_type parse_positive_integer
    number_onto is_positive_decimal slice lookup object_of array_of fields_in items_in decimal
    digits Text-discrete
second_page = refl

watching-length : length (collection_in (units "watching") three) ≤ 2 * 2
unfolding lookup object_of array_of fields_in items_in Text-discrete
watching-length = omega arith

known_type : any (equals (units "watching")) collection_types ≡ true
unfolding Text-discrete
known_type = refl

collected-collection_in_example :
    collected (units "watching") 2 env shown 2 ≡ collection_in (units "watching") three
collected-collection_in_example =
    collected-collection_in (units "watching") 2 env shown known_type (omega arith) (omega arith) 2
      refl watching-length
