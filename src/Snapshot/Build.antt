-- ===== src/Snapshot/Build.antt =====
-- buildPublicSnapshot and parsePublicSnapshotV1 of packages/domain/src/public-snapshot.ts.
use airing_cal.Common.{
  ℕ, ◌+◌, Bool, false, not, ◌&&◌, ◌||◌, Option, none, some, List, [], ◌∷◌, ◌++◌, map, Text, Bytes,
  units, ◌==◌, if◌then◌else◌, Result, ok, err, ◌>>=◌, length,
}
use airing_cal.Json.{
  Json, null, natural, string, array, object, array_of, object_of, lookup, canonical_bytes,
  sha256_canonical,
}
use airing_cal.Snapshot.{
  equals, is_safe, is_record, is_hash, is_non_negative_integer, is_unix_timestamp_seconds, has,
  has_exact_keys, is_array_of, CollectionType, type_by_id, are_collections, is_calendar_day,
  is_summary,
}

pub data SnapshotError : Type 0 where
  invalid_generation invalid_published_at : SnapshotError
  unsupported_collection_type : Option Json → SnapshotError
  unsupported_schema_version invalid_snapshot invalid_content_hash : SnapshotError

-- PublicSnapshotV1: what its checks leave of the types of its fields.
pub record PublicSnapshot : Type 0 where
  pub generation : ℕ
  pub content_hash : Text
  pub published_at : ℕ
  pub collections : Json
  pub calendar : Json
  pub summary : Json

pub record Groups : Type 0 where
  pub want : List Json
  pub watched : List Json
  pub watching : List Json
  pub on_hold : List Json
  pub dropped : List Json

abbrev pub no_groups : Groups
no_groups = record { want = []; watched = []; watching = []; on_hold = []; dropped = [] }

unfoldable pub push_item : CollectionType → Json → Groups → Groups
push_item CollectionType.want item groups = record groups { want = groups.want ++ (item ∷ []) }
push_item CollectionType.watched item groups = record groups {
  watched = groups.watched ++ (item ∷ []);
}
push_item CollectionType.watching item groups = record groups {
  watching = groups.watching ++ (item ∷ []);
}
push_item CollectionType.on_hold item groups = record groups {
  on_hold = groups.on_hold ++ (item ∷ []);
}
push_item CollectionType.dropped item groups = record groups {
  dropped = groups.dropped ++ (item ∷ []);
}

abbrev pub type_of_item : Json → Option CollectionType
type_of_item item = elim (lookup (units "collection_type") item) [
  | none ↦ none
  | some id ↦ type_by_id id
]

unfoldable pub group_collections : Groups → List Json → Result SnapshotError Groups
group_collections groups [] = ok groups
group_collections groups (item ∷ items) = elim (type_of_item item) [
  | none ↦ err (unsupported_collection_type (lookup (units "collection_type") item))
  | some type ↦ group_collections (push_item type item groups) items
]

abbrev pub groups_json : Groups → Json
groups_json groups = object (
    object_of (
      (units "want", array (array_of groups.want))
      ∷ (units "watched", array (array_of groups.watched))
      ∷ (units "watching", array (array_of groups.watching))
      ∷ (units "on_hold", array (array_of groups.on_hold))
      ∷ (units "dropped", array (array_of groups.dropped))
      ∷ []))

abbrev pub total : Groups → ℕ
total groups =
    length groups.want
    + length groups.watched
    + length groups.watching
    + length groups.on_hold
    + length groups.dropped

abbrev pub summarize : Groups → Json
summarize groups = object (
    object_of (
      (units "want", natural (length groups.want))
      ∷ (units "watched", natural (length groups.watched))
      ∷ (units "watching", natural (length groups.watching))
      ∷ (units "on_hold", natural (length groups.on_hold))
      ∷ (units "dropped", natural (length groups.dropped))
      ∷ (units "_total", natural (total groups))
      ∷ []))

abbrev pub snapshot_payload : Json → Json → Json → Json
snapshot_payload collections calendar summary = object (
    object_of (
      (units "schema_version", natural 1)
      ∷ (units "collections", collections)
      ∷ (units "calendar", calendar)
      ∷ (units "summary", summary)
      ∷ []))

-- The snapshot as the object that it is.
abbrev pub snapshot_json : PublicSnapshot → Json
snapshot_json snapshot = object (
    object_of (
      (units "schema_version", natural 1)
      ∷ (units "generation", natural snapshot.generation)
      ∷ (units "content_hash", string snapshot.content_hash)
      ∷ (units "published_at", natural snapshot.published_at)
      ∷ (units "collections", snapshot.collections)
      ∷ (units "calendar", snapshot.calendar)
      ∷ (units "summary", snapshot.summary)
      ∷ []))

abbrev pub is_one : Json → Bool
is_one (natural n) = n == 1
is_one _ = false

-- `value.collections`, where a missing field passes no check.
abbrev pub field_or_null : Text → Json → Json
field_or_null key value = elim (lookup key value) [ none ↦ null | some found ↦ found ]

unfoldable pub validate_snapshot_structure : Json → Bool
validate_snapshot_structure value =
    is_record value
    && has (units "schema_version") is_one value
    && has_exact_keys
        (map units (
          "schema_version" ∷ "generation" ∷ "content_hash" ∷ "published_at" ∷ "collections"
          ∷ "calendar" ∷ "summary" ∷ []))
        [] value
    && has (units "generation") is_non_negative_integer value
    && has (units "published_at") is_unix_timestamp_seconds value
    && has (units "content_hash") is_hash value
    && has (units "collections") are_collections value
    && has (units "calendar") (is_array_of is_calendar_day) value
    && has (units "summary") (is_summary (field_or_null (units "collections") value)) value

abbrev pub natural_in : Json → ℕ
natural_in (natural n) = n
natural_in _ = 0

abbrev pub text_in : Json → Text
text_in (string text) = text
text_in _ = []

abbrev pub as_snapshot : Json → PublicSnapshot
as_snapshot value = record {
  generation = natural_in (field_or_null (units "generation") value);
  content_hash = text_in (field_or_null (units "content_hash") value);
  published_at = natural_in (field_or_null (units "published_at") value);
  collections = field_or_null (units "collections") value;
  calendar = field_or_null (units "calendar") value;
  summary = field_or_null (units "summary") value;
}

unfoldable pub canonical_snapshot_bytes : (Json → Bytes) → PublicSnapshot → Bytes
canonical_snapshot_bytes encode snapshot = canonical_bytes encode (snapshot_json snapshot)

module _ (encode : Json → Bytes) (digest : Bytes → Text) where
  -- The hash of what a snapshot shows, without its generation and its time.
  unfoldable pub payload_hash : PublicSnapshot → Text
  payload_hash snapshot =
      sha256_canonical encode digest
        (snapshot_payload snapshot.collections snapshot.calendar snapshot.summary)

  unfoldable pub parse_public_snapshot : Json → Result SnapshotError PublicSnapshot
  parse_public_snapshot value =
      if not (is_record value) || not (has (units "schema_version") is_one value)
      then err unsupported_schema_version
      else if not (validate_snapshot_structure value)
      then err invalid_snapshot
      else if equals (payload_hash (as_snapshot value)) (as_snapshot value).content_hash
      then ok (as_snapshot value)
      else err invalid_content_hash

  abbrev pub snapshot_of : ℕ → ℕ → Json → Groups → PublicSnapshot
  snapshot_of generation published_at calendar groups = record {
    generation = generation;
    content_hash =
        sha256_canonical encode digest
          (snapshot_payload (groups_json groups) calendar (summarize groups));
    published_at = published_at;
    collections = groups_json groups;
    calendar = calendar;
    summary = summarize groups;
  }

  unfoldable pub build_public_snapshot :
      List Json → List Json → ℕ → ℕ → Result SnapshotError PublicSnapshot
  build_public_snapshot collections calendar published_at generation =
      if not (is_safe generation)
      then err invalid_generation
      else if not (is_unix_timestamp_seconds (natural published_at))
      then err invalid_published_at
      else (group_collections no_groups collections >>= λ groups.
          let snapshot : PublicSnapshot =
            snapshot_of generation published_at (array (array_of calendar)) groups in
          if validate_snapshot_structure (snapshot_json snapshot)
          then ok snapshot
          else err invalid_snapshot)
