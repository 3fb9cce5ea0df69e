-- ===== src/Snapshot.antt =====
-- The checks of packages/domain/src/public-snapshot.ts and public-manifest.ts on JSON values.
pub mod Build
pub mod Manifest
pub mod Keys
pub mod Parsing
use airing_cal.Common.{
  ℕ, ◌+◌, Bool, true, false, not, ◌&&◌, ◌||◌, Option, none, some, is_some, List, [], ◌∷◌, ◌++◌, map,
  Text, Text-discrete, units, leb, ◌==◌, if◌then◌else◌, holds, any, every, length,
}
use airing_cal.Json.{
  Json, null, boolean, natural, other_number, string, array, object, items_in, fields_in, lookup,
}

abbrev pub equals : Text → Text → Bool
equals a b = holds (Text-discrete a b)

-- A digit or a letter from a to f.
abbrev pub is_lowercase_hex : ℕ → Bool
is_lowercase_hex c = (leb 48 c && leb c 57) || (leb 97 c && leb c 102)

-- LOWERCASE_SHA256
unfoldable pub is_sha256 : Text → Bool
is_sha256 text = (length text == 64) && every is_lowercase_hex text

abbrev pub is_safe : ℕ → Bool
is_safe n = leb n 9007199254740991

abbrev pub is_record : Json → Bool
is_record (object _) = true
is_record _ = false

abbrev pub is_string : Json → Bool
is_string (string _) = true
is_string _ = false

abbrev pub is_boolean : Json → Bool
is_boolean (boolean _) = true
is_boolean _ = false

abbrev pub is_non_negative_integer : Json → Bool
is_non_negative_integer (natural n) = is_safe n
is_non_negative_integer _ = false

abbrev pub is_finite_number : Json → Bool
is_finite_number (natural _) = true
is_finite_number (other_number _) = true
is_finite_number _ = false

abbrev pub is_unix_timestamp_seconds : Json → Bool
is_unix_timestamp_seconds (natural n) = is_safe n && leb n 8640000000000
is_unix_timestamp_seconds _ = false

abbrev pub is_hash : Json → Bool
is_hash (string text) = is_sha256 text
is_hash _ = false

abbrev pub is_null : Json → Bool
is_null null = true
is_null _ = false

-- A test of a field, which fails on a field that is missing.
abbrev pub has : Text → (Json → Bool) → Json → Bool
has key test value = elim (lookup key value) [ none ↦ false | some found ↦ test found ]

-- A test of a field that may be missing.
abbrev pub has_optional : Text → (Json → Bool) → Json → Bool
has_optional key test value = elim (lookup key value) [ none ↦ true | some found ↦ test found ]

abbrev pub own_keys : Json → List Text
own_keys (object fields) = map (λ entry. entry.0) (fields_in fields)
own_keys _ = []

unfoldable pub has_exact_keys : List Text → List Text → Json → Bool
has_exact_keys required optional value =
    every (λ key. is_some (lookup key value)) required
    && every (λ key. any (equals key) required || any (equals key) optional) (own_keys value)

-- Whether a value is an array whose elements all pass the test.
abbrev pub is_array_of : (Json → Bool) → Json → Bool
is_array_of test (array values) = every test (items_in values)
is_array_of test _ = false

unfoldable pub is_image_ref : Json → Bool
is_image_ref value =
    is_record value
    && has_exact_keys (units "hash" ∷ units "uri" ∷ units "r2_key" ∷ []) [] value
    && has (units "hash") is_hash value
    && has (units "uri") is_string value
    && has (units "r2_key") is_string value

unfoldable pub is_images : Json → Bool
is_images value =
    is_record value
    && has_exact_keys (units "common" ∷ units "large" ∷ []) [] value
    && has (units "common") (λ image. is_null image || is_image_ref image) value
    && has (units "large") (λ image. is_null image || is_image_ref image) value

-- IMAGE_STATUS_VALUES.has
abbrev is_status_value : Json → Bool
is_status_value (string text) =
    equals text (units "cached")
    || equals text (units "queued")
    || equals text (units "failed")
    || equals text (units "missing_source")
    || equals text (units "pending_next_cron")
is_status_value _ = false

unfoldable pub is_image_status : Json → Bool
is_image_status value =
    is_record value
    && has_exact_keys (units "common" ∷ units "large" ∷ []) [] value
    && has (units "common") is_status_value value
    && has (units "large") is_status_value value

unfoldable pub is_rating : Json → Bool
is_rating value =
    is_record value
    && has_exact_keys (units "score" ∷ units "rank" ∷ units "total" ∷ []) [] value
    && has (units "score") is_finite_number value
    && has (units "rank") is_non_negative_integer value
    && has (units "total") is_non_negative_integer value

-- The five lists of a snapshot, by the id of their type.
pub data CollectionType : Type 0 where
  want watched watching on_hold dropped : CollectionType

abbrev pub type_name : CollectionType → Text
type_name want = units "want"
type_name watched = units "watched"
type_name watching = units "watching"
type_name on_hold = units "on_hold"
type_name dropped = units "dropped"

-- COLLECTION_TYPE_ID
abbrev pub type_id : CollectionType → ℕ
type_id want = 1
type_id watched = 2
type_id watching = 3
type_id on_hold = 4
type_id dropped = 5

-- COLLECTION_TYPE_BY_ID
unfoldable pub type_by_id : Json → Option CollectionType
type_by_id (natural id) =
    if id == 1
    then some want
    else if id == 2
    then some watched
    else if id == 3
    then some watching
    else if id == 4
    then some on_hold
    else if id == 5
    then some dropped
    else none
type_by_id _ = none

-- The fields that a collection item and a calendar subject share.
abbrev has_subject_fields : Json → Bool
has_subject_fields value =
    has (units "subject_id") is_non_negative_integer value
    && has (units "name") is_string value
    && has (units "name_cn") is_string value
    && has (units "summary") is_string value
    && has (units "images") is_images value
    && has (units "image_status") is_image_status value
    && has_optional (units "rating") is_rating value
    && has (units "eps") is_non_negative_integer value
    && has (units "total_episodes") is_non_negative_integer value
    && has (units "type") is_non_negative_integer value
    && has (units "nsfw") is_boolean value
    && has (units "date") is_string value

unfoldable pub is_public_collection_item : Json → Bool
is_public_collection_item value =
    is_record value
    && has_exact_keys
        (map units (
          "subject_id" ∷ "name" ∷ "name_cn" ∷ "summary" ∷ "images" ∷ "image_status" ∷ "eps"
          ∷ "total_episodes" ∷ "ep_status" ∷ "vol_status" ∷ "type" ∷ "collection_type" ∷ "rate"
          ∷ "nsfw" ∷ "date" ∷ "tags" ∷ "updated_at" ∷ []))
        (units "rating" ∷ []) value
    && has_subject_fields value
    && has (units "ep_status") is_non_negative_integer value
    && has (units "vol_status") is_non_negative_integer value
    && has (units "collection_type") is_non_negative_integer value
    && has (units "collection_type") (λ id. is_some (type_by_id id)) value
    && has (units "rate") is_non_negative_integer value
    && has (units "tags") (is_array_of is_string) value
    && has (units "updated_at") is_string value

abbrev same_natural : Json → Json → Bool
same_natural (natural a) (natural b) = a == b
same_natural _ _ = false

unfoldable pub is_public_calendar_subject : Json → Bool
is_public_calendar_subject value =
    is_record value
    && has_exact_keys
        (map units (
          "subject_id" ∷ "id" ∷ "type" ∷ "name" ∷ "name_cn" ∷ "summary" ∷ "images" ∷ "image_status"
          ∷ "nsfw" ∷ "date" ∷ "eps" ∷ "total_episodes" ∷ []))
        (units "rating" ∷ []) value
    && has_subject_fields value
    && has (units "id") is_non_negative_integer value
    && has (units "subject_id") (λ id. has (units "id") (same_natural id) value) value

abbrev is_weekday : Json → Bool
is_weekday value =
    is_record value
    && has_exact_keys (units "en" ∷ units "cn" ∷ units "ja" ∷ units "id" ∷ []) [] value
    && has (units "en") is_string value
    && has (units "cn") is_string value
    && has (units "ja") is_string value
    && has (units "id") is_non_negative_integer value

unfoldable pub is_calendar_day : Json → Bool
is_calendar_day value =
    is_record value
    && has_exact_keys (units "weekday" ∷ units "items" ∷ []) [] value
    && has (units "weekday") is_weekday value
    && has (units "items") (is_array_of is_public_calendar_subject) value

abbrev pub collection_types : List CollectionType
collection_types = want ∷ watched ∷ watching ∷ on_hold ∷ dropped ∷ []

abbrev length_of : Json → ℕ
length_of (array values) = length (items_in values)
length_of _ = 0

abbrev is_count : ℕ → Json → Bool
is_count expected (natural n) = is_safe n && (n == expected)
is_count expected _ = false

-- How many items the collections of a type have.
abbrev count_of : Json → CollectionType → ℕ
count_of collections type = elim (lookup (type_name type) collections) [
  | none ↦ 0
  | some items ↦ length_of items
]

abbrev total_of : List ℕ → ℕ
total_of [] = 0
total_of (n ∷ ns) = n + total_of ns

unfoldable pub is_summary : Json → Json → Bool
is_summary collections value =
    is_record value
    && has_exact_keys (map type_name collection_types ++ (units "_total" ∷ [])) [] value
    && every (λ type. has (type_name type) (is_count (count_of collections type)) value)
        collection_types
    && has (units "_total") (is_count (total_of (map (count_of collections) collection_types)))
        value

abbrev is_typed_item : CollectionType → Json → Bool
is_typed_item type value =
    is_public_collection_item value
    && has (units "collection_type") (same_natural (natural (type_id type))) value

-- parseCollections, as a test
unfoldable pub are_collections : Json → Bool
are_collections value =
    is_record value
    && has_exact_keys (map type_name collection_types) [] value
    && every (λ type. has (type_name type) (is_array_of (is_typed_item type)) value)
        collection_types
