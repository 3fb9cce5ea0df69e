-- ===== src/Collections/Landed.antt =====
-- What the table holds of a plan that was applied without interference.
use airing_cal.Common.{
  ◌≤◌, ◌≡◌, refl, ◌∙◌, inl, inr, ap, Bool, true, false, ◌&&◌, Option, none, some, List, [], ◌∷◌,
  Result, ok, returned, if◌then◌else◌, ◌==◌, Text-discrete, holds, holds-sound, Bool-cases,
  Option-cases, arith, All,
}
use airing_cal.Rows.{CollectionRow}
use airing_cal.Collections.{
  CollectionItems, put_item, item_of, WriteKind, restore, confirm_deleted, first_missing, update,
  insert, PendingWrite, ApplyError, check_version,
}
use airing_cal.Collections.Statements.{written, execute, reconcile, is_settled, Row-discrete}
use airing_cal.Collections.Apply.{execute_all, reconcile_all}
use airing_cal.Collections.Versions.{IsChecked}

-- The row is what the write meant: the planned one, for an insert with an earlier first sight if there
-- was one, and for a row that is gone with the planned version and mark.
abbrev pub IsLanded : WriteKind → CollectionRow → CollectionRow → Type 0
IsLanded insert planned row =
    (row ≡ record planned { first_seen_at = row.first_seen_at })
    × (row.first_seen_at ≤ planned.first_seen_at)
IsLanded first_missing planned row =
    (row.state_version ≡ planned.state_version) × (row.missing_since ≡ planned.missing_since)
IsLanded confirm_deleted planned row =
    (row.state_version ≡ planned.state_version) × (row.deleted_at ≡ planned.deleted_at)
IsLanded _ planned row = row ≡ planned

abbrev pub Landed : CollectionItems → PendingWrite → Type 0
Landed items write =
    (row : CollectionRow) × (item_of write.planned items ≡ some row)
    × IsLanded write.kind write.planned row

written-IsLanded :
    (kind : WriteKind) (planned : CollectionRow) (current : Option CollectionRow)
    (row : CollectionRow)
    → check_version kind planned ≡ ok (record { kind = kind; planned = planned })
    → written kind planned current ≡ some row
    → IsLanded kind planned row
unfolding written
written-IsLanded insert planned none row h e = (ground arith, ground arith)
written-IsLanded insert planned (some current) row h e = (ground arith, ground arith)
written-IsLanded restore planned (some current) row h e = ground arith
written-IsLanded update planned (some current) row h e = ground arith
written-IsLanded first_missing planned (some current) row h e = (ground arith, ground arith)
written-IsLanded confirm_deleted planned (some current) row h e = (ground arith, ground arith)
written-IsLanded restore planned none row h e = ground arith
written-IsLanded update planned none row h e = ground arith
written-IsLanded first_missing planned none row h e = ground arith
written-IsLanded confirm_deleted planned none row h e = ground arith

planned-IsLanded :
    (kind : WriteKind) (planned row : CollectionRow) → row ≡ planned → IsLanded kind planned row
planned-IsLanded insert planned row e = (ground arith, ground arith)
planned-IsLanded restore planned row e = e
planned-IsLanded update planned row e = e
planned-IsLanded first_missing planned row e = (ground arith, ground arith)
planned-IsLanded confirm_deleted planned row e = (ground arith, ground arith)

is_settled-IsLanded :
    (kind : WriteKind) (planned row : CollectionRow)
    → is_settled kind planned row ≡ true
    → IsLanded kind planned row
unfolding is_settled
is_settled-IsLanded insert planned row h = elim (Bool-cases (holds (Row-discrete row planned))) [
  | inl same ↦ planned-IsLanded insert planned row (holds-sound (Row-discrete row planned) same)
  | inr other ↦ (
    ap {A = CollectionRow} {B = CollectionRow} (λ r. record r { first_seen_at = row.first_seen_at })
        (holds-sound (Row-discrete (record row { first_seen_at = planned.first_seen_at }) planned)
          (ground arith)),
    ground arith,
  )
]
is_settled-IsLanded restore planned row h =
    planned-IsLanded restore planned row (holds-sound (Row-discrete row planned) h)
is_settled-IsLanded update planned row h =
    planned-IsLanded update planned row (holds-sound (Row-discrete row planned) h)
is_settled-IsLanded first_missing planned row h =
    planned-IsLanded first_missing planned row (holds-sound (Row-discrete row planned) h)
is_settled-IsLanded confirm_deleted planned row h =
    planned-IsLanded confirm_deleted planned row (holds-sound (Row-discrete row planned) h)

reconcile-Landed :
    (write : PendingWrite) (items : CollectionItems)
    → reconcile write items ≡ ok tt
    → Landed items write
unfolding reconcile
reconcile-Landed write items h = elim (Option-cases (item_of write.planned items)) [
  | inl e ↦ elim (absent e h) [ ]
  | inr (row, e) ↦ (row, e, is_settled-IsLanded write.kind write.planned row (settled row e h))
]
  where
    absent : item_of write.planned items ≡ none → reconcile write items ≡ ok tt → ⊥
    absent e h = ground arith

    settled :
        (row : CollectionRow)
        → item_of write.planned items ≡ some row
        → reconcile write items ≡ ok tt
        → is_settled write.kind write.planned row ≡ true
    settled row e h = ground arith

put_item-there :
    (planned row : CollectionRow) (items : CollectionItems)
    → item_of planned (put_item planned row items) ≡ some row
put_item-there planned row items = ground arith

-- A statement that changed a row did what its write meant.
execute-Landed :
    (write : PendingWrite) (items : CollectionItems)
    → IsChecked write
    → ((execute write items).1 == 0) ≡ false
    → Landed (execute write items).0 write
unfolding execute
execute-Landed write items checked h =
    elim (Option-cases (written write.kind write.planned (item_of write.planned items))) [
      | inl e ↦ elim (unchanged e h) [ ]
      | inr (row, e) ↦ (
        row,
        rw (e, execute) (put_item-there write.planned row items),
        written-IsLanded write.kind write.planned (item_of write.planned items) row checked e,
      )
    ]
  where
    unchanged :
        written write.kind write.planned (item_of write.planned items) ≡ none
        → ((execute write items).1 == 0) ≡ false
        → ⊥
    unchanged e h = ground arith

-- Two writes under different keys.
abbrev pub IsApart : PendingWrite → PendingWrite → Type 0
IsApart one other =
    holds (Text-discrete one.planned.user_id other.planned.user_id)
      && (one.planned.subject_id == other.planned.subject_id)
    ≡ false

abbrev pub AllApart : List PendingWrite → Type 0
AllApart [] = Unit
AllApart (write ∷ writes) = All (IsApart write) writes × AllApart writes

pub execute-apart :
    (one write : PendingWrite) (items : CollectionItems)
    → IsApart one write
    → item_of one.planned (execute write items).0 ≡ item_of one.planned items
unfolding execute
execute-apart one write items h =
    elim (Option-cases (written write.kind write.planned (item_of write.planned items))) [
      | inl e ↦ rw (e, execute) refl
      | inr (row, e) ↦ rw (e, execute) (rw h refl)
    ]

pub execute_all-apart :
    (one : PendingWrite) (writes : List PendingWrite) (items : CollectionItems)
    → All (IsApart one) writes
    → item_of one.planned (execute_all writes items).0 ≡ item_of one.planned items
unfolding execute_all
execute_all-apart one [] items h = refl
execute_all-apart one (write ∷ writes) items (h, hs) =
    execute_all-apart one writes (execute write items).0 hs ∙ execute-apart one write items h

tested :
    {test : Bool} {v : Unit {0}} (r : Result ApplyError (Unit {0}))
    → test ≡ true
    → (if test then r else ok tt) ≡ ok v
    → r ≡ ok tt
tested {test} {v} r e h = ground arith

-- A batch after which the checks pass did what its writes meant.
pub execute_all-Landed :
    (writes : List PendingWrite) (items : CollectionItems)
    → All IsChecked writes
    → AllApart writes
    → reconcile_all writes (execute_all writes items).1 (execute_all writes items).0 ≡ ok tt
    → All (Landed (execute_all writes items).0) writes
unfolding execute_all reconcile_all
execute_all-Landed [] items h apart k = tt
execute_all-Landed (write ∷ writes) items (h, hs) (apart, aparts) k =
    let next : CollectionItems = (execute write items).0 in
    let (_, first, rest) =
      returned
        (if (execute write items).1 == 0
          then reconcile write (execute_all writes next).0
          else ok tt)
        _ k in
    let last : CollectionItems = (execute_all writes next).0 in
    let landed : Landed last write = elim (Bool-cases ((execute write items).1 == 0)) [
      | inl same ↦ reconcile-Landed write last (tested (reconcile write last) same first)
      | inr changed ↦
          let (row, e, is_landed) = execute-Landed write items h changed in
          (row, execute_all-apart write writes next apart ∙ e, is_landed)
    ] in
    (landed, execute_all-Landed writes next hs aparts rest)

pub execute_all-keeps :
    (one : PendingWrite) (writes : List PendingWrite) (items : CollectionItems)
    → All (IsApart one) writes
    → Landed items one
    → Landed (execute_all writes items).0 one
execute_all-keeps one writes items h (row, e, is_landed) =
    (row, execute_all-apart one writes items h ∙ e, is_landed)
