-- ===== src/Collections/Versions.antt =====
-- No row is lost, and none is written over without a new version, except that of a new row by a
-- later content.
use airing_cal.Common.{
  sym, All-front, All-back, sort-All, ℕ, ◌≤◌, ◌<◌, ◌≡◌, ◌⊎◌, refl, inl, inr, subst, true, ◌&&◌,
  Option, none, some, List, [], ◌∷◌, ◌++◌, ok, returned, ok-inj, Text, ◌==◌, Text-discrete,
  Bool-cases, Option-cases, arith, holds, All, All-append, All-sort,
}
use airing_cal.Rows.{CollectionRow}
use airing_cal.Diff.{CollectionDiffPlan}
use airing_cal.Collections.{
  CollectionItems, put_item, item_of, WriteKind, restore, confirm_deleted, first_missing, update,
  insert, PendingWrite, check_version, write_lt, add_writes, writes_of,
}
use airing_cal.Collections.Statements.{written, execute}
use airing_cal.Collections.Apply.{execute_all}

-- What may become of a row: it stays, or it has a later version, or it was new and still is, seen
-- no later and changed no earlier.
abbrev pub Follows : Option CollectionRow → Option CollectionRow → Type 0
Follows none after = Unit
Follows (some before) none = ⊥
Follows (some before) (some after) =
    (before ≡ after)
    ⊎ ((before.state_version < after.state_version)
        ⊎ ((before.state_version ≡ 1)
            × (after.state_version ≡ 1)
            × (after.first_seen_at ≤ before.first_seen_at)
            × (before.changed_at ≤ after.changed_at)))

pub Follows-refl : (row : Option CollectionRow) → Follows row row
Follows-refl none = tt
Follows-refl (some row) = inl refl

pub Follows-trans : (a b c : Option CollectionRow) → Follows a b → Follows b c → Follows a c
Follows-trans none b c h k = tt
Follows-trans (some a) none c h k = elim h [ ]
Follows-trans (some a) (some b) none h k = k
Follows-trans (some a) (some b) (some c) h k = ground arith

-- Every row of the table is followed by the one under its key.
abbrev pub Forward : CollectionItems → CollectionItems → Type 0
Forward before after =
    (user : Text) (subject : ℕ) → Follows (before user subject) (after user subject)

-- A write whose version has been checked.
abbrev pub IsChecked : PendingWrite → Type 0
IsChecked write = check_version write.kind write.planned ≡ ok write

written-Follows :
    (kind : WriteKind) (row : CollectionRow) (current : Option CollectionRow) (next : CollectionRow)
    → check_version kind row ≡ ok (record { kind = kind; planned = row })
    → written kind row current ≡ some next
    → Follows current (some next)
unfolding written
written-Follows insert row none next h k = tt
written-Follows insert row (some current) next h k = ground arith
written-Follows restore row none next h k = tt
written-Follows restore row (some current) next h k = ground arith
written-Follows update row none next h k = tt
written-Follows update row (some current) next h k = ground arith
written-Follows first_missing row none next h k = tt
written-Follows first_missing row (some current) next h k = ground arith
written-Follows confirm_deleted row none next h k = tt
written-Follows confirm_deleted row (some current) next h k = ground arith

key_sound :
    (planned : CollectionRow) (user : Text) (subject : ℕ)
    → holds (Text-discrete user planned.user_id) && (subject == planned.subject_id) ≡ true
    → (user ≡ planned.user_id) × (subject ≡ planned.subject_id)
key_sound planned user subject h = (ground arith, ground arith)

put_item-Forward :
    (planned row : CollectionRow) (items : CollectionItems)
    → Follows (item_of planned items) (some row)
    → Forward items (put_item planned row items)
put_item-Forward planned row items h user subject =
    elim (Bool-cases
      (holds (Text-discrete user planned.user_id) && (subject == planned.subject_id))) [
        | inl same ↦ rw same (there (key_sound planned user subject same))
        | inr other ↦ rw other (Follows-refl (items user subject))
      ]
  where
    there :
        (user ≡ planned.user_id) × (subject ≡ planned.subject_id)
        → Follows (items user subject) (some row)
    there (of_user, of_subject) = rw (of_user, of_subject) h

pub execute-Forward :
    (write : PendingWrite) (items : CollectionItems)
    → IsChecked write
    → Forward items (execute write items).0
unfolding execute
execute-Forward write items h user subject =
    elim (Option-cases (written write.kind write.planned (item_of write.planned items))) [
      | inl e ↦ rw (e, execute) (Follows-refl (items user subject))
      | inr (row, e) ↦
          rw (e, execute)
            (put_item-Forward write.planned row items
              (written-Follows write.kind write.planned (item_of write.planned items) row h e) user
              subject)
    ]

pub execute_all-Forward :
    (writes : List PendingWrite) (items : CollectionItems)
    → All IsChecked writes
    → Forward items (execute_all writes items).0
unfolding execute_all
execute_all-Forward [] items h user subject = Follows-refl (items user subject)
execute_all-Forward (write ∷ writes) items (h, hs) user subject =
    Follows-trans (items user subject) ((execute write items).0 user subject) _
      (execute-Forward write items h user subject)
      (execute_all-Forward writes (execute write items).0 hs user subject)

check_version-IsChecked :
    (kind : WriteKind) (row : CollectionRow) (write : PendingWrite)
    → check_version kind row ≡ ok write
    → IsChecked write
check_version-IsChecked insert row write h = ground arith
check_version-IsChecked restore row write h = ground arith
check_version-IsChecked update row write h = ground arith
check_version-IsChecked first_missing row write h = ground arith
check_version-IsChecked confirm_deleted row write h = ground arith

add_writes-All :
    (kind : WriteKind) (writes : List PendingWrite) (rows : List CollectionRow)
    (all : List PendingWrite)
    → All IsChecked writes
    → add_writes kind writes rows ≡ ok all
    → All IsChecked all
unfolding add_writes
add_writes-All kind writes [] all h e = subst (All IsChecked) (ok-inj e) h
add_writes-All kind writes (row ∷ rows) all h e =
    let (write, checked, rest) =
      returned (check_version kind row) (λ write. add_writes kind (writes ++ write ∷ []) rows) e in
    add_writes-All kind (writes ++ write ∷ []) rows all
      (All-append IsChecked writes (write ∷ []) h
        (check_version-IsChecked kind row write checked, tt))
      rest

pub writes_of-All :
    (plan : CollectionDiffPlan) (writes : List PendingWrite)
    → writes_of plan ≡ ok writes
    → All IsChecked writes
unfolding writes_of
writes_of-All plan writes e =
    let (inserts, e1, r1) = returned (add_writes insert [] plan.inserts) _ e in
    let (updates, e2, r2) = returned (add_writes update inserts plan.updates) _ r1 in
    let (missing, e3, r3) = returned (add_writes first_missing updates plan.first_missing) _ r2 in
    let (deleted, e4, r4) =
      returned (add_writes confirm_deleted missing plan.confirmed_deleted) _ r3 in
    let (restored, e5, r5) = returned (add_writes restore deleted plan.restored) _ r4 in
    subst (All IsChecked) (ok-inj r5) (
      All-sort write_lt IsChecked restored (
        add_writes-All restore deleted plan.restored restored
          (add_writes-All confirm_deleted missing plan.confirmed_deleted deleted
            (add_writes-All first_missing updates plan.first_missing missing
              (add_writes-All update inserts plan.updates updates
                (add_writes-All insert [] plan.inserts inserts tt e1) e2)
              e3)
            e4)
          e5))

check_version-planned :
    (kind : WriteKind) (row : CollectionRow) (write : PendingWrite)
    → check_version kind row ≡ ok write
    → write ≡ record { kind = kind; planned = row }
check_version-planned insert row write h = ground arith
check_version-planned restore row write h = ground arith
check_version-planned update row write h = ground arith
check_version-planned first_missing row write h = ground arith
check_version-planned confirm_deleted row write h = ground arith

module _ (P : PendingWrite → Type 0) where
  -- What holds of the rows of a list, as writes of a kind.
  abbrev pub AllOf : WriteKind → List CollectionRow → Type 0
  AllOf kind rows = All (λ row. P (record { kind = kind; planned = row })) rows

  add_writes-AllOf :
      (kind : WriteKind) (writes : List PendingWrite) (rows : List CollectionRow)
      (all : List PendingWrite)
      → add_writes kind writes rows ≡ ok all
      → All P all
      → All P writes × AllOf kind rows
  unfolding add_writes
  add_writes-AllOf kind writes [] all e h = (subst (All P) (sym (ok-inj e)) h, tt)
  add_writes-AllOf kind writes (row ∷ rows) all e h =
      let (write, checked, rest) =
        returned (check_version kind row) (λ write. add_writes kind (writes ++ write ∷ []) rows)
          e in
      let parts = add_writes-AllOf kind (writes ++ write ∷ []) rows all rest h in
      (
        All-front P writes (write ∷ []) parts.0,
        (
          subst P (check_version-planned kind row write checked)
              (All-back P writes (write ∷ []) parts.0).0,
          parts.1,
        ),
      )

  -- What holds of all writes of a plan holds of the rows of each of its lists.
  pub writes_of-AllOf :
      (plan : CollectionDiffPlan) (writes : List PendingWrite)
      → writes_of plan ≡ ok writes
      → All P writes
      → AllOf insert plan.inserts
        × AllOf update plan.updates
        × AllOf restore plan.restored
        × AllOf first_missing plan.first_missing
        × AllOf confirm_deleted plan.confirmed_deleted
  unfolding writes_of
  writes_of-AllOf plan writes e h =
      let (inserts, e1, r1) = returned (add_writes insert [] plan.inserts) _ e in
      let (updates, e2, r2) = returned (add_writes update inserts plan.updates) _ r1 in
      let (missing, e3, r3) = returned (add_writes first_missing updates plan.first_missing) _ r2 in
      let (deleted, e4, r4) =
        returned (add_writes confirm_deleted missing plan.confirmed_deleted) _ r3 in
      let (restored, e5, r5) = returned (add_writes restore deleted plan.restored) _ r4 in
      let h5 =
        add_writes-AllOf restore deleted plan.restored restored e5
          (sort-All write_lt P restored (subst (All P) (sym (ok-inj r5)) h)) in
      let h4 = add_writes-AllOf confirm_deleted missing plan.confirmed_deleted deleted e4 h5.0 in
      let h3 = add_writes-AllOf first_missing updates plan.first_missing missing e3 h4.0 in
      let h2 = add_writes-AllOf update inserts plan.updates updates e2 h3.0 in
      let h1 = add_writes-AllOf insert [] plan.inserts inserts e1 h2.0 in
      (h1.1, h2.1, h5.1, h3.1, h4.1)
