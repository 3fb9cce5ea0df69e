-- ===== src/Read/Cache.antt =====
-- createVerifiedSnapshotCache of packages/v3-read/src/verified-snapshot-cache.ts, for calls that do
-- not overlap.
use airing_cal.Common.{
  ℕ, ◌-◌, Bool, true, false, not, ◌&&◌, ◌||◌, Option, none, some, Text, ltb, ◌==◌, if◌then◌else◌,
  ok, err,
}
use airing_cal.Snapshot.{equals}
use airing_cal.Release.{PublicReleasePointer, PublicStore}
use airing_cal.Release.Publish.{Platform}
use airing_cal.Read.{VerifiedPublicSnapshot, Loaded, load_release, load_verified_public_snapshot}

pub record PointerIdentity : Type 0 where
  pub generation : ℕ
  pub content_hash : Text
  pub artifact_ref : Text
  pub manifest_ref : Option Text

pub record ResidentEntry : Type 0 where
  pub identity : PointerIdentity
  pub snapshot : VerifiedPublicSnapshot
  pub loaded_at : ℕ

abbrev pub identity_from_pointer : PublicReleasePointer → PointerIdentity
identity_from_pointer pointer = record {
  generation = pointer.generation;
  content_hash = pointer.content_hash;
  artifact_ref = pointer.artifact_ref;
  manifest_ref = pointer.manifest_ref;
}

abbrev same_ref : Option Text → Option Text → Bool
same_ref none none = true
same_ref (some a) (some b) = equals a b
same_ref _ _ = false

unfoldable pub identities_match : PointerIdentity → PointerIdentity → Bool
identities_match a b =
    (a.generation == b.generation)
    && equals a.content_hash b.content_hash
    && equals a.artifact_ref b.artifact_ref
    && same_ref a.manifest_ref b.manifest_ref

abbrev pub Cached : Type 0
Cached = Option ResidentEntry

module _ (platform : Platform) {State : Type 0} (store : PublicStore State) (soft_ttl_ms : ℕ) where
  -- What a full load leaves in the cache. `captured` is the pointer that it read.
  abbrev pub kept_of : ℕ → Option PublicReleasePointer → Option VerifiedPublicSnapshot → Cached
  kept_of now none loaded = none
  kept_of now (some pointer) none = none
  kept_of now (some pointer) (some loaded) =
      if not (pointer.generation == loaded.generation)
        || not (equals pointer.content_hash loaded.content_hash)
        || not (equals pointer.artifact_ref loaded.artifact_ref)
      then none
      else some
          (record { identity = identity_from_pointer pointer; snapshot = loaded; loaded_at = now })

  -- A load that throws leaves the cache as it was.
  unfoldable pub keep : ℕ → Cached → Option PublicReleasePointer → Loaded → Loaded × Cached
  keep now resident captured (err error) = (err error, resident)
  keep now resident captured (ok loaded) = (ok loaded, kept_of now captured loaded)

  unfoldable pub revalidate : ℕ → ResidentEntry → State → Loaded × Cached
  revalidate now entry state = elim (store.get_current_release state) [
    | none ↦ (ok none, none)
    | some pointer ↦
        if identities_match entry.identity (identity_from_pointer pointer)
        then (ok (some entry.snapshot), some (record entry { loaded_at = now }))
        else keep now (some entry) (some pointer) (load_release platform store pointer state)
  ]

  -- `load`: `now` is the time of its first look at the clock, and `later` that of the one after a
  -- load or a look at the release. The clock does not run back.
  unfoldable pub load : ℕ → ℕ → Cached → State → Loaded × Cached
  load now later none state =
      keep later none (store.get_current_release state)
        (load_verified_public_snapshot platform store state)
  load now later (some entry) state =
      if ltb (now - entry.loaded_at) soft_ttl_ms
      then (ok (some entry.snapshot), some entry)
      else revalidate later entry state
