-- ===== src/Snapshot/Keys.antt =====
-- The keys of snapshots and manifests: snapshotKey and manifestObjectKey of
-- packages/domain/src/public-manifest.ts, and how their generation is read back.
use airing_cal.Common.{
  ℕ, suc, zero, ◌+◌, ◌/◌, ◌%◌, not, ◌||◌, [], ◌∷◌, ◌++◌, Text, units, ltb, if◌then◌else◌, Result,
  ok, err,
}
use airing_cal.Snapshot.{is_safe, is_sha256}

-- Number.prototype.toString on a natural number, with fuel for its digits.
unfoldable pub digits : ℕ → ℕ → Text
digits zero n = []
digits (suc fuel) n =
    let front = digits fuel (n / 10) in
    if ltb n 10 then (48 + n) ∷ [] else front ++ ((48 + n % 10) ∷ [])

unfoldable pub decimal : ℕ → Text
decimal n = digits (suc n) n

pub data KeyError : Type 0 where
  invalid_snapshot_key invalid_manifest_key : KeyError

-- snapshotObjectKey
unfoldable pub snapshot_object_key : ℕ → Text → Text
snapshot_object_key generation hash =
    units "snapshots/v1/" ++ (decimal generation ++ (units "-" ++ (hash ++ units ".json")))

unfoldable pub snapshot_key : ℕ → Text → Result KeyError Text
snapshot_key generation hash =
    if not (is_safe generation) || not (is_sha256 hash)
    then err invalid_snapshot_key
    else ok (snapshot_object_key generation hash)

unfoldable pub manifest_object_key : ℕ → Text → Result KeyError Text
manifest_object_key generation hash =
    if not (is_safe generation) || not (is_sha256 hash)
    then err invalid_manifest_key
    else ok (
        units "public/manifests/" ++ (decimal generation ++ (units "-" ++ (hash ++ units ".json"))))
