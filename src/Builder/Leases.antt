-- ===== src/Builder/Leases.antt =====
-- A lease keeps other owners out until it runs out.
use airing_cal.Common.{
  ℕ, ◌+◌, ◌<◌, ◌≡◌, refl, sym, ap, ◌∙◌, inl, inr, Bool, true, false, not, ◌&&◌, Option, none, some,
  List, [], ◌∷◌, Text, Text-discrete, ltb, Bool-cases, holds-sound, holds_complete, true-false,
  arith, All,
}
use airing_cal.Snapshot.{equals}
use airing_cal.Builder.{
  Lease, BuilderTables, set_row, is_held_against, is_owned_by, acquire_lease, release_lease,
}

-- What clients do with leases: acquire with an owner, a duration and a time, or release.
pub data LeaseCall : Type 0 where
  acquire : (job owner : Text) (ttl_seconds now : ℕ) → LeaseCall
  release : (job owner : Text) → LeaseCall

unfoldable pub perform : LeaseCall → BuilderTables → BuilderTables
perform (acquire job owner ttl_seconds now) tables =
    (acquire_lease job owner ttl_seconds now tables).1
perform (release job owner) tables = release_lease job owner tables

unfoldable pub perform_all : List LeaseCall → BuilderTables → BuilderTables
perform_all [] tables = tables
perform_all (call ∷ calls) tables = perform_all calls (perform call tables)

-- A call that is of another owner than this, at a time before this.
abbrev pub IsForeign : Text → ℕ → LeaseCall → Type 0
IsForeign owner until (acquire _ other _ now) = (equals owner other ≡ false) × (now < until)
IsForeign owner until (release _ other) = equals owner other ≡ false

-- The row of another key is as it was.
set_row_other :
    {V : Type 0} (key other : Text) (row : Option V) (table : Text → Option V)
    → equals other key ≡ false
    → set_row key row table other ≡ table other
set_row_other key other row table apart = rw apart refl

module _ (job owner : Text) (lease : Lease) (owned : lease.owner_token ≡ owner) where
  held_against :
      (other : Text) (now : ℕ) (row : Option Lease)
      → row ≡ some lease
      → equals owner other ≡ false
      → now < lease.expires_at_unix
      → is_held_against other now row ≡ true
  held_against other now row held foreign early =
      ap (is_held_against other now) held
      ∙ both (ltb now lease.expires_at_unix) (equals lease.owner_token other) (ground arith)
          (ap (λ o. equals o other) owned ∙ foreign)
    where
      both : (p q : Bool) → p ≡ true → q ≡ false → (p && not q) ≡ true
      both p q h k = rw (h, k) refl

  perform-keeps :
      (call : LeaseCall) (tables : BuilderTables)
      → IsForeign owner lease.expires_at_unix call
      → tables.leases job ≡ some lease
      → (perform call tables).leases job ≡ some lease
  unfolding perform acquire_lease release_lease
  perform-keeps (acquire other_job other ttl now) tables (foreign, early) held =
      elim (Bool-cases (is_held_against other now (tables.leases other_job))) [
        | inl e ↦ rw (e, perform, acquire_lease) held
        | inr e ↦ elim (Bool-cases (equals job other_job)) [
          | inr apart ↦
              rw (e, perform, acquire_lease)
                (set_row_other other_job job _ tables.leases apart ∙ held)
          | inl same ↦ absurd (
              true-false
                (held_against other now (tables.leases other_job)
                  (sym (ap tables.leases (holds-sound (Text-discrete job other_job) same)) ∙ held)
                  foreign early)
                e)
        ]
      ]
  perform-keeps (release other_job other) tables foreign held =
      elim (Bool-cases (is_owned_by other (tables.leases other_job))) [
        | inr e ↦ rw (e, perform, release_lease) held
        | inl e ↦ elim (Bool-cases (equals job other_job)) [
          | inr apart ↦
              rw (e, perform, release_lease)
                (set_row_other other_job job none tables.leases apart ∙ held)
          | inl same ↦ absurd (
              true-false
                (sym (
                    ap (is_owned_by other) (
                      sym (ap tables.leases (holds-sound (Text-discrete job other_job) same))
                      ∙ held))
                  ∙ e)
                (ap (λ o. equals o other) owned ∙ foreign))
        ]
      ]

  perform_all-keeps :
      (calls : List LeaseCall) (tables : BuilderTables)
      → All (IsForeign owner lease.expires_at_unix) calls
      → tables.leases job ≡ some lease
      → (perform_all calls tables).leases job ≡ some lease
  unfolding perform_all
  perform_all-keeps [] tables _ held = held
  perform_all-keeps (call ∷ calls) tables (foreign, others) held =
      perform_all-keeps calls (perform call tables) others (perform-keeps call tables foreign held)

acquired :
    (job owner : Text) (ttl_seconds now : ℕ) (tables : BuilderTables)
    → (acquire_lease job owner ttl_seconds now tables).0 ≡ true
    → (acquire_lease job owner ttl_seconds now tables).1.leases job
      ≡ some (record { owner_token = owner; expires_at_unix = now + ttl_seconds })
unfolding acquire_lease
acquired job owner ttl_seconds now tables h =
    elim (Bool-cases (is_held_against owner now (tables.leases job))) [
      | inl e ↦ absurd (true-false (rw (e, acquire_lease) at h) refl)
      | inr e ↦ rw (e, acquire_lease) (rw (holds_complete (Text-discrete job job) refl) refl)
    ]

-- From the time at which an owner acquires a lease until it runs out, no other owner acquires it,
-- whatever others acquire or release in between.
pub acquire_lease-excludes :
    (job owner other : Text) (ttl_seconds now other_ttl later : ℕ) (tables : BuilderTables)
    (calls : List LeaseCall)
    → (acquire_lease job owner ttl_seconds now tables).0 ≡ true
    → All (IsForeign owner (now + ttl_seconds)) calls
    → equals owner other ≡ false
    → later < now + ttl_seconds
    → (acquire_lease job other other_ttl later
        (perform_all calls (acquire_lease job owner ttl_seconds now tables).1)).0
      ≡ false
unfolding acquire_lease
acquire_lease-excludes job owner other ttl_seconds now other_ttl later tables calls h foreign apart
      early =
    rw
      (held_against job owner (record { owner_token = owner; expires_at_unix = now + ttl_seconds })
        refl other later
        ((perform_all calls (acquire_lease job owner ttl_seconds now tables).1).leases job)
        (perform_all-keeps job owner
          (record { owner_token = owner; expires_at_unix = now + ttl_seconds }) refl calls
          (acquire_lease job owner ttl_seconds now tables).1 foreign
          (acquired job owner ttl_seconds now tables h))
        apart early)
      refl
