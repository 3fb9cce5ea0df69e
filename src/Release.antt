-- ===== src/Release.antt =====
-- The public store and its release pointer: packages/v3-core/src/ports.ts, public-pointer.ts and
-- memory-public-store.ts.
pub mod Publish
pub mod Memory
pub mod Stored
pub mod Published
mod Examples
use airing_cal.Common.{
  ℕ, Bool, true, false, not, ◌&&◌, ◌||◌, Option, none, some, Text, Text-discrete, Bytes, ◌==◌,
  if◌then◌else◌, holds, length,
}
use airing_cal.Snapshot.{equals}

pub record PublicReleasePointer : Type 0 where
  pub schema_version : ℕ
  pub generation : ℕ
  pub content_hash : Text
  pub published_at_unix : ℕ
  pub artifact_ref : Text
  pub manifest_ref : Option Text

pub data CommitResult : Type 0 where
  committed conflict unsupported : CommitResult

-- PublicStore: its operations on a state. Putting an object may throw, with a message.
pub record PublicStore (State : Type 0) : Type 0 where
  pub get_current_release : State → Option PublicReleasePointer
  pub get_snapshot_bytes : Text → State → Option Bytes
  pub put_immutable_object : Text → Bytes → Text → State → Option Text × State
  pub commit_release :
      Option PublicReleasePointer → PublicReleasePointer → State → CommitResult × State

-- bytesEqual, which is `===` on strings of bytes
abbrev pub bytes_equal : Bytes → Bytes → Bool
bytes_equal a b = holds (Text-discrete a b)

-- releasePointersMatch
unfoldable pub release_pointers_match :
    Option PublicReleasePointer → Option PublicReleasePointer → Bool
release_pointers_match none none = true
release_pointers_match none (some b) = false
release_pointers_match (some a) none = false
release_pointers_match (some a) (some b) =
    equals a.content_hash b.content_hash && (a.generation == b.generation)

-- MemoryPublicStore
pub record MemoryPublicStore : Type 0 where
  pub current : Option PublicReleasePointer
  pub objects : Text → Option Bytes
  pub content_types : Text → Option Text
  pub cas_supported : Bool

abbrev put : {V : Type 0} → Text → V → (Text → Option V) → Text → Option V
put key value map other = if equals other key then some value else map other

abbrev pub hash_of : Option PublicReleasePointer → Option Text
hash_of none = none
hash_of (some pointer) = some pointer.content_hash

abbrev pub generation_of : Option PublicReleasePointer → Option ℕ
generation_of none = none
generation_of (some pointer) = some pointer.generation

unfoldable pub same_hash : Option Text → Option Text → Bool
same_hash none none = true
same_hash (some a) (some b) = equals a b
same_hash _ _ = false

unfoldable pub same_generation : Option ℕ → Option ℕ → Bool
same_generation none none = true
same_generation (some a) (some b) = a == b
same_generation _ _ = false

unfoldable pub memory_commit_release :
    Option PublicReleasePointer
    → PublicReleasePointer
    → MemoryPublicStore
    → CommitResult × MemoryPublicStore
memory_commit_release expected next store =
    if not store.cas_supported
    then (unsupported, store)
    else if not (same_hash (hash_of store.current) (hash_of expected))
        || not (same_generation (generation_of store.current) (generation_of expected))
    then (conflict, store)
    else (committed, record store { current = some next })

unfoldable pub memory_put_immutable_object :
    Text → Bytes → Text → MemoryPublicStore → Option Text × MemoryPublicStore
memory_put_immutable_object key body content_type store = (
  none,
  record store {
    objects = put key body store.objects;
    content_types = put key content_type store.content_types;
  },
)

pub record Head : Type 0 where
  pub size : ℕ
  pub content_type : Option Text

unfoldable pub memory_head_object : Text → MemoryPublicStore → Option Head
memory_head_object key store = elim (store.objects key) [
  | none ↦ none
  | some body ↦ some (record { size = length body; content_type = store.content_types key })
]

abbrev pub memory_store : PublicStore MemoryPublicStore
memory_store = record {
  get_current_release = λ store. store.current;
  get_snapshot_bytes = λ key store. store.objects key;
  put_immutable_object = memory_put_immutable_object;
  commit_release = memory_commit_release;
}
