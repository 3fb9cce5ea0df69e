-- ===== src/Collections/Statements.antt =====
-- The statements of a plan, each with the number of rows that it changed, and what is checked of one
-- that changed none. The hashes that are compared are lowercase hexadecimal, on which the binary
-- collation agrees with the order of code units.
use airing_cal.Common.{
  ℕ, ◌-◌, Bool, ◌&&◌, ◌||◌, Option, none, some, Result, ok, err, Text-discrete, text_lt, ltb, leb,
  ◌==◌, if◌then◌else◌, holds, is_none, min, ℕ_discrete,
}
use airing_cal.Rows.{Temperature, CollectionRow}
use airing_cal.Collections.{
  CollectionItems, put_item, item_of, WriteKind, confirm_deleted, first_missing, insert,
  PendingWrite, ApplyError, stale_collection_diff,
}

unfoldable pub Temperature-discrete : Discrete Temperature
Temperature-discrete = hlevel

unfoldable pub Row-discrete : Discrete CollectionRow
unfolding ℕ_discrete Text-discrete Temperature-discrete
Row-discrete = hlevel (ℕ_discrete, Text-discrete, Temperature-discrete)

-- COLLECTION_INSERT, on a row that is there: the later content wins, while the row is new.
abbrev pub wins_over : CollectionRow → CollectionRow → Bool
wins_over row current =
    (current.state_version == 1)
    && is_none current.missing_since
    && is_none current.deleted_at
    && (ltb current.changed_at row.changed_at
        || ((row.changed_at == current.changed_at)
            && text_lt current.content_hash row.content_hash))

-- What a statement makes of the row under its key, if it changes it.
unfoldable pub written : WriteKind → CollectionRow → Option CollectionRow → Option CollectionRow
written insert row none = some row
written insert row (some current) =
    if wins_over row current
    then some (record row {
      state_version = current.state_version;
      first_seen_at = min current.first_seen_at row.first_seen_at;
    })
    else none
written kind row none = none
written first_missing row (some current) =
    if current.state_version == row.state_version - 1
    then some
        (record current { missing_since = row.missing_since; state_version = row.state_version })
    else none
written confirm_deleted row (some current) =
    if current.state_version == row.state_version - 1
    then some (record current { deleted_at = row.deleted_at; state_version = row.state_version })
    else none
written kind row (some current) =
    if current.state_version == row.state_version - 1 then some row else none

-- A statement on the table. No statement changes the key of a row.
unfoldable pub execute : PendingWrite → CollectionItems → CollectionItems × ℕ
execute write items = elim (written write.kind write.planned (item_of write.planned items)) [
  | none ↦ (items, 0)
  | some row ↦ (put_item write.planned row items, 1)
]

-- The row is what the write meant already: it is the planned one, or that with an earlier first
-- sight, for an insert.
unfoldable pub is_settled : WriteKind → CollectionRow → CollectionRow → Bool
is_settled insert planned current =
    holds (Row-discrete current planned)
    || ((current.state_version == 1)
        && is_none current.missing_since
        && is_none current.deleted_at
        && leb current.first_seen_at planned.first_seen_at
        && holds (Row-discrete (record current { first_seen_at = planned.first_seen_at }) planned))
is_settled _ planned current = holds (Row-discrete current planned)

-- reconcileCollectionNoChange
unfoldable pub reconcile : PendingWrite → CollectionItems → Result ApplyError (Unit {0})
reconcile write items = elim (item_of write.planned items) [
  | none ↦ err (stale_collection_diff write.planned.user_id write.planned.subject_id)
  | some current ↦
      if is_settled write.kind write.planned current
      then ok tt
      else err (stale_collection_diff write.planned.user_id write.planned.subject_id)
]
