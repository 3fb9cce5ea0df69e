-- ===== src/Publication.antt =====
-- The publication state of packages/storage/src/d1-state-store.ts: four rows of app_state, which
-- the builders change by compare-and-swap batches. A row holds the value that its JSON encodes, so
-- that equality of JSON texts is equality of values; every row is one that the store wrote.
pub mod Statements
pub mod Operations
pub mod Methods
pub mod Consistency
pub mod Progress
pub mod Safety
pub mod Exclusive
pub mod Cycle
pub mod Confirm
mod Examples
use airing_cal.Common.{
  ℕ, zero, suc, ◌+◌, ◌/◌, ◌%◌, Bool, true, false, not, ◌&&◌, ◌||◌, Option, none, some, List, [],
  ◌∷◌, ◌++◌, Result, ok, err, ◌>>=◌, Text, Text-discrete, text_lt, units, ltb, leb, ◌==◌,
  if◌then◌else◌, holds, is_none, length, ℕ_discrete,
}

pub data PublicationError : Type 0 where
  invalid_state invalid_object_key invalid_owner invalid_watermark : PublicationError
  invalid_lease_time hash_mismatch source_conflict write_claim_conflict : PublicationError

pub record PublicSnapshotPointer : Type 0 where
  pub schema_version : ℕ
  pub generation : ℕ
  pub content_hash : Text
  pub r2_key : Text
  pub published_at : ℕ

pub record PublicationWriteOwner : Type 0 where
  pub publication_id : Text
  pub attempt_token : Text

pub record PublicationWriteClaim : Type 0 where
  pub candidate : PublicSnapshotPointer
  pub owner : PublicationWriteOwner
  pub expires_at : ℕ

pub record PublicationSourceWatermark : Type 0 where
  pub schema_version : ℕ
  pub source_observed_at : ℕ
  pub publication_id : Text
  pub content_hash : Text

-- A row of app_state under one key.
pub record AppStateRow (V : Type 0) : Type 0 where
  pub value : V
  pub updated_at : ℕ

-- The rows public:verified, public:pending, public:write-claim and public:source-watermark.
pub record PublicationState : Type 0 where
  pub verified : Option (AppStateRow PublicSnapshotPointer)
  pub pending : Option (AppStateRow PublicSnapshotPointer)
  pub claim : Option (AppStateRow PublicationWriteClaim)
  pub source : Option (AppStateRow PublicationSourceWatermark)

unfoldable pub Pointer-discrete : Discrete PublicSnapshotPointer
unfolding ℕ_discrete Text-discrete
Pointer-discrete = hlevel (ℕ_discrete, Text-discrete)

unfoldable pub Owner-discrete : Discrete PublicationWriteOwner
unfolding Text-discrete
Owner-discrete = hlevel (Text-discrete)

unfoldable pub Claim-discrete : Discrete PublicationWriteClaim
unfolding ℕ_discrete Text-discrete Pointer-discrete Owner-discrete
Claim-discrete = hlevel (ℕ_discrete, Text-discrete, Pointer-discrete, Owner-discrete)

unfoldable pub Watermark-discrete : Discrete PublicationSourceWatermark
unfolding ℕ_discrete Text-discrete
Watermark-discrete = hlevel (ℕ_discrete, Text-discrete)

abbrev pub lease_seconds : ℕ
lease_seconds = 60

abbrev pub max_safe_integer : ℕ
max_safe_integer = 9007199254740991

-- The last second for which a Date has an ISO form.
abbrev pub max_date_seconds : ℕ
max_date_seconds = 8640000000000

abbrev is_hex : ℕ → Bool
is_hex c = (leb b'0' c && leb c b'9') || (leb b'a' c && leb c b'f')

all_hex : Text → Bool
all_hex [] = true
all_hex (c ∷ cs) = is_hex c && all_hex cs

-- LOWERCASE_SHA256
unfoldable pub is_lowercase_sha256 : Text → Bool
unfolding all_hex
is_lowercase_sha256 hash = length hash == 64 && all_hex hash

-- A number in decimal, with at most as many digits as the fuel.
decimal_onto : ℕ → Text → ℕ → Text
decimal_onto zero digits n = digits
decimal_onto (suc fuel) digits n =
    let more = decimal_onto fuel ((b'0' + n % 10) ∷ digits) (n / 10) in
    if ltb n 10 then (b'0' + n) ∷ digits else more

-- `${n}` for a safe integer, which has sixteen digits at most.
unfoldable pub decimal : ℕ → Text
unfolding decimal_onto
decimal n = decimal_onto 16 [] n

unfoldable pub snapshot_key : ℕ → Text → Text
unfolding decimal
snapshot_key generation hash =
    units "snapshots/v1/" ++ (decimal generation ++ (units "-" ++ (hash ++ units ".json")))

-- decodePublicationPointer, on an object with the five fields.
unfoldable pub decode_pointer :
    PublicSnapshotPointer → Result PublicationError PublicSnapshotPointer
unfolding is_lowercase_sha256 snapshot_key
decode_pointer pointer =
    if not (pointer.schema_version == 1)
      || not (leb pointer.generation max_safe_integer)
      || not (is_lowercase_sha256 pointer.content_hash)
      || not (leb pointer.published_at max_safe_integer)
    then err invalid_state
    else if holds
        (Text-discrete pointer.r2_key (snapshot_key pointer.generation pointer.content_hash))
    then ok pointer
    else err invalid_object_key

-- A publication id or an attempt token.
abbrev pub is_token : Text → Bool
is_token text = not (length text == 0) && leb (length text) 128

-- validatePublicationWriteOwner
unfoldable pub validate_owner :
    PublicationWriteOwner → Result PublicationError PublicationWriteOwner
validate_owner owner =
    if is_token owner.publication_id && is_token owner.attempt_token
    then ok owner
    else err invalid_owner

-- decodePublicationSourceWatermark
unfoldable pub decode_watermark :
    PublicationSourceWatermark → Result PublicationError PublicationSourceWatermark
unfolding is_lowercase_sha256
decode_watermark source =
    if source.schema_version == 1
      && leb source.source_observed_at max_safe_integer
      && is_token source.publication_id
      && is_lowercase_sha256 source.content_hash
    then ok source
    else err invalid_watermark

-- validatePublicationLeaseTime
unfoldable pub validate_lease_time : ℕ → Result PublicationError ℕ
validate_lease_time now = if leb now max_date_seconds then ok now else err invalid_lease_time

pub data SourceRelation : Type 0 where
  newer exact stale conflict : SourceRelation

-- publicationSourceRelation
unfoldable pub source_relation :
    PublicationSourceWatermark → Option PublicationSourceWatermark → SourceRelation
source_relation incoming none = newer
source_relation incoming (some current) =
    if not (incoming.source_observed_at == current.source_observed_at)
    then (if ltb current.source_observed_at incoming.source_observed_at then newer else stale)
    else if not (holds (Text-discrete incoming.publication_id current.publication_id))
    then (if text_lt current.publication_id incoming.publication_id then newer else stale)
    else if holds (Text-discrete incoming.content_hash current.content_hash)
    then exact
    else conflict
