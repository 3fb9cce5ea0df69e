-- ===== src/Release/Stored.antt =====
-- Objects that were put and read back.
use airing_cal.Common.{
  ℕ, ◌≡◌, refl, sym, ap, ◌∙◌, inl, inr, Bool, true, false, Option, none, some, [], ◌∷◌, Text,
  Text-discrete, Bytes, units, if◌then◌else◌, Result, ok, err, Option-cases, Bool-cases, ok-inj,
  err_not_ok, holds-sound, arith,
}
use airing_cal.Snapshot.{equals}
use airing_cal.Snapshot.Build.{PublicSnapshot}
use airing_cal.Snapshot.Keys.{manifest_object_key, snapshot_object_key, KeyError}
use airing_cal.Release.{PublicReleasePointer, PublicStore}
use airing_cal.Release.Memory.{IsPublicStore}
use airing_cal.Release.Publish.{
  Platform, PublishOptions, Put, stored, thrown, artifact_of, put_verified,
}

pub accepted_key :
    (bad : Bool) (error : KeyError) (made key : Text)
    → ◌≡◌ {A = Result KeyError Text} (if bad then err error else ok made) (ok key)
    → made ≡ key
accepted_key true error made key h = absurd (err_not_ok h)
accepted_key false error made key h = ok-inj h

first_unit : Text → ℕ
first_unit [] = 0
first_unit (c ∷ cs) = c

-- The key of a snapshot is none of a manifest.
pub keys_apart :
    (snapshot : PublicSnapshot) (hash key : Text)
    → manifest_object_key snapshot.generation hash ≡ ok key
    → equals (artifact_of snapshot) key ≡ false
unfolding manifest_object_key snapshot_object_key first_unit
keys_apart snapshot hash key h = elim (Bool-cases (equals (artifact_of snapshot) key)) [
  | inr e ↦ e
  | inl e ↦ absurd (
      different (
        ap first_unit (
          holds-sound (Text-discrete (artifact_of snapshot) key) e
          ∙ sym (accepted_key _ _ _ key h))))
]
  where
    different : ◌≡◌ {A = ℕ} 115 112 → ⊥
    different k = omega arith

module _ {State : Type 0} (platform : Platform) (store : PublicStore State)
    (options : PublishOptions State) (lawful : IsPublicStore store) where
  abbrev current : State → Option PublicReleasePointer
  current = store.get_current_release

  abbrev json : Text
  json = units "application/json"

  put_verified_state :
      (key : Text) (body : Bytes) (state : State)
      → (put_verified platform store options key body state).1
        ≡ (store.put_immutable_object key body json state).1
  unfolding put_verified
  put_verified_state key body state =
      elim (Option-cases (store.put_immutable_object key body json state).0) [
        | inr (message, e) ↦ rw (e, put_verified) refl
        | inl e ↦
            elim (Option-cases
              (store.get_snapshot_bytes key (store.put_immutable_object key body json state).1)) [
                | inl f ↦ rw (e, put_verified) (rw f refl)
                | inr (readback, f) ↦ rw (e, put_verified) (rw f refl)
              ]
      ]

  put_verified-stored :
      (key : Text) (body : Bytes) (state : State)
      → (put_verified platform store options key body state).0 ≡ stored
      → (store.put_immutable_object key body json state).0 ≡ none
  unfolding put_verified
  put_verified-stored key body state h =
      elim (Option-cases (store.put_immutable_object key body json state).0) [
        | inl e ↦ e
        | inr (message, e) ↦ absurd (thrown_stored (rw (e, put_verified) at h))
      ]
    where
      thrown_stored : {message : Text} → ◌≡◌ {A = Put} (thrown message) stored → ⊥
      thrown_stored k = cc

  pub put_verified-reads :
      (key : Text) (body : Bytes) (state : State)
      → (put_verified platform store options key body state).0 ≡ stored
      → store.get_snapshot_bytes key (put_verified platform store options key body state).1
        ≡ some body
  put_verified-reads key body state h =
      ap (store.get_snapshot_bytes key) (put_verified_state key body state)
      ∙ lawful.put_reads key body json state (put_verified-stored key body state h)

  pub put_verified-keeps :
      (key other : Text) (body : Bytes) (state : State)
      → equals other key ≡ false
      → store.get_snapshot_bytes other (put_verified platform store options key body state).1
        ≡ store.get_snapshot_bytes other state
  put_verified-keeps key other body state apart =
      ap (store.get_snapshot_bytes other) (put_verified_state key body state)
      ∙ lawful.put_keeps key other body json state apart

  pub put_verified-current :
      (key : Text) (body : Bytes) (state : State)
      → current (put_verified platform store options key body state).1 ≡ current state
  put_verified-current key body state =
      ap current (put_verified_state key body state) ∙ lawful.put_keeps_release key body json state
