-- ===== src/Read/Loaded.antt =====
-- What a reader loads belongs to the current release.
use airing_cal.Common.{
  ℕ, ◌≡◌, refl, sym, ◌∙◌, subst, inl, inr, Bool, true, false, not, ◌||◌, none, some, Text-discrete,
  Bytes, units, ◌==◌, if◌then◌else◌, ok, err, Result-cases, Option-cases, ok-inj, err_not_ok,
  some-inj, some-none, holds-sound, arith,
}
use airing_cal.Snapshot.{equals}
use airing_cal.Snapshot.Build.{PublicSnapshot, payload_hash, parse_public_snapshot}
use airing_cal.Snapshot.Parsing.{parse_public_snapshot_sound}
use airing_cal.Release.{PublicReleasePointer, PublicStore}
use airing_cal.Release.Publish.{Platform, parse_bytes}
use airing_cal.Read.{
  VerifiedPublicSnapshot, disagreeing_manifest, Loaded, verified, manifest_of, agrees,
  read_manifest, check_manifest, load_release, load_verified_public_snapshot,
}

-- A snapshot that has the hash of its contents, under its own generation and hash.
abbrev pub IsAuthentic : Platform → VerifiedPublicSnapshot → Type 0
IsAuthentic platform v =
    (payload_hash platform.encode platform.digest v.snapshot ≡ v.content_hash)
    × (v.snapshot.content_hash ≡ v.content_hash)
    × (v.snapshot.generation ≡ v.generation)

abbrev pub IsOfRelease : PublicReleasePointer → VerifiedPublicSnapshot → Type 0
IsOfRelease pointer v =
    (pointer.generation ≡ v.generation)
    × (pointer.content_hash ≡ v.content_hash)
    × (pointer.artifact_ref ≡ v.artifact_ref)

parse_bytes-hash :
    (platform : Platform) (bytes : Bytes) (snapshot : PublicSnapshot)
    → parse_bytes platform bytes ≡ ok snapshot
    → payload_hash platform.encode platform.digest snapshot ≡ snapshot.content_hash
parse_bytes-hash platform bytes snapshot h = elim (Option-cases (platform.decode bytes)) [
  | inl e ↦ absurd (err_not_ok (rw (e, parse_bytes) at h))
  | inr (value, e) ↦
      elim (Result-cases (parse_public_snapshot platform.encode platform.digest value)) [
        | inl (error, f) ↦ absurd (err_not_ok (rw f at (rw (e, parse_bytes) at h)))
        | inr (parsed, f) ↦
            subst (λ s. payload_hash platform.encode platform.digest s ≡ s.content_hash)
              (ok-inj (rw f at (rw (e, parse_bytes) at h)))
              (parse_public_snapshot_sound platform.encode platform.digest value parsed f).2
      ]
]

module _ (platform : Platform) {State : Type 0} (store : PublicStore State) where
  check_manifest-verified :
      (pointer : PublicReleasePointer) (snapshot : PublicSnapshot) (state : State)
      (v : VerifiedPublicSnapshot)
      → check_manifest platform store pointer snapshot state ≡ ok (some v)
      → verified pointer snapshot ≡ v
  unfolding check_manifest
  check_manifest-verified pointer snapshot state v h = elim (Option-cases (manifest_of pointer)) [
    | inr (key, e) ↦ elim (Option-cases (store.get_snapshot_bytes key state)) [
      | inl f ↦ absurd (err_not_ok (rw f at (rw (e, check_manifest) at h)))
      | inr (bytes, f) ↦ elim (Option-cases (read_manifest platform bytes)) [
        | inl g ↦ absurd (err_not_ok (rw g at (rw f at (rw (e, check_manifest) at h))))
        | inr (manifest, g) ↦
            checked (agrees pointer snapshot manifest) (err (disagreeing_manifest key))
              (λ k. err_not_ok k) (rw g at (rw f at (rw (e, check_manifest) at h)))
      ]
    ]
    | inl e ↦ elim (Option-cases (store.get_snapshot_bytes (units "public/manifest.json") state)) [
      | inl f ↦ some-inj (ok-inj (rw f at (rw (e, check_manifest) at h)))
      | inr (bytes, f) ↦ elim (Option-cases (read_manifest platform bytes)) [
        | inl g ↦ absurd (none_loaded (rw g at (rw f at (rw (e, check_manifest) at h))))
        | inr (manifest, g) ↦
            checked (agrees pointer snapshot manifest) (ok none) none_loaded
              (rw g at (rw f at (rw (e, check_manifest) at h)))
      ]
    ]
  ]
    where
      none_loaded : ◌≡◌ {A = Loaded} (ok none) (ok (some v)) → ⊥
      none_loaded k = some-none (sym (ok-inj k))

      checked :
          (b : Bool) (refusal : Loaded)
          → (refusal ≡ ok (some v) → ⊥)
          → (if b then ok (some (verified pointer snapshot)) else refusal) ≡ ok (some v)
          → verified pointer snapshot ≡ v
      checked true refusal _ k = some-inj (ok-inj k)
      checked false refusal refused k = absurd (refused k)

  pub load_release-IsAuthentic :
      (pointer : PublicReleasePointer) (state : State) (v : VerifiedPublicSnapshot)
      → load_release platform store pointer state ≡ ok (some v)
      → IsAuthentic platform v × IsOfRelease pointer v
  unfolding load_release
  load_release-IsAuthentic pointer state v h =
      elim (Option-cases (store.get_snapshot_bytes pointer.artifact_ref state)) [
        | inl e ↦ absurd (some-none (sym (ok-inj (rw (e, load_release) at h))))
        | inr (bytes, e) ↦ elim (Result-cases (parse_bytes platform bytes)) [
          | inl (error, f) ↦ absurd (err_not_ok (rw f at (rw (e, load_release) at h)))
          | inr (snapshot, f) ↦
              matched bytes snapshot f (snapshot.generation == pointer.generation)
                (equals snapshot.content_hash pointer.content_hash) refl refl
                (rw f at (rw (e, load_release) at h))
        ]
      ]
    where
      equal : (a b : ℕ) → a == b ≡ true → a ≡ b
      equal a b k = ground arith

      matched :
          (bytes : Bytes) (snapshot : PublicSnapshot)
          → parse_bytes platform bytes ≡ ok snapshot
          → (g c : Bool) → (snapshot.generation == pointer.generation) ≡ g
          → equals snapshot.content_hash pointer.content_hash ≡ c
          → (if not g || not c
              then ok none
              else check_manifest platform store pointer snapshot state)
            ≡ ok (some v)
          → IsAuthentic platform v × IsOfRelease pointer v
      matched bytes snapshot parsed false c _ _ k = absurd (some-none (sym (ok-inj k)))
      matched bytes snapshot parsed true false _ _ k = absurd (some-none (sym (ok-inj k)))
      matched bytes snapshot parsed true true same_generation same_hash k =
          let hash =
            holds-sound (Text-discrete snapshot.content_hash pointer.content_hash) same_hash in
          subst (λ w. IsAuthentic platform w × IsOfRelease pointer w)
            (check_manifest-verified pointer snapshot state v k)
            (
              (
                parse_bytes-hash platform bytes snapshot parsed ∙ hash,
                hash,
                equal snapshot.generation pointer.generation same_generation,
              ),
              (refl, refl, refl),
            )

  -- What a reader loads is authentic and belongs to the current release.
  pub load_verified_public_snapshot-IsAuthentic :
      (state : State) (v : VerifiedPublicSnapshot)
      → load_verified_public_snapshot platform store state ≡ ok (some v)
      → IsAuthentic platform v
        × (pointer : PublicReleasePointer) × (store.get_current_release state ≡ some pointer)
        × IsOfRelease pointer v
  unfolding load_verified_public_snapshot
  load_verified_public_snapshot-IsAuthentic state v h =
      elim (Option-cases (store.get_current_release state)) [
        | inl e ↦ absurd (some-none (sym (ok-inj (rw (e, load_verified_public_snapshot) at h))))
        | inr (pointer, e) ↦
            let loaded =
              load_release-IsAuthentic pointer state v
                (rw (e, load_verified_public_snapshot) at h) in
            (loaded.0, pointer, e, loaded.1)
      ]
