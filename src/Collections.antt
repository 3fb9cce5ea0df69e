-- ===== src/Collections.antt =====
-- applyCollectionDiff of packages/storage/src/d1-state-store.ts: the table collection_items by its
-- primary key, and the writes of a plan.
pub mod Statements
pub mod Apply
pub mod Versions
pub mod Batches
pub mod Landed
pub mod Applied
pub mod Success
mod Examples
use airing_cal.Common.{
  ℕ, zero, suc, ◌+◌, ◌-◌, Bool, true, false, not, ◌&&◌, ◌||◌, Option, none, some, List, [], ◌∷◌,
  ◌++◌, map, Result, ok, err, ◌>>=◌, ◌>>◌, Text, Text-discrete, text_lt, ltb, leb, ◌==◌,
  if◌then◌else◌, holds, is_none, min, ℕ_discrete, sort,
}
use airing_cal.Rows.{CollectionRow}
use airing_cal.Diff.{CollectionDiffPlan}

-- The table, by user_id and subject_id.
abbrev pub CollectionItems : Type 0
CollectionItems = Text → ℕ → Option CollectionRow

-- The row stands under the key of the write.
abbrev pub put_item : CollectionRow → CollectionRow → CollectionItems → CollectionItems
put_item planned row items user subject =
    if holds (Text-discrete user planned.user_id) && (subject == planned.subject_id)
    then some row
    else items user subject

abbrev pub item_of : CollectionRow → CollectionItems → Option CollectionRow
item_of row items = items row.user_id row.subject_id

-- The five statements of a plan, in the order in which they sort on one key.
pub data WriteKind : Type 0 where
  restore confirm_deleted first_missing update insert : WriteKind

pub record PendingWrite : Type 0 where
  pub kind : WriteKind
  pub planned : CollectionRow

pub data ApplyError : Type 0 where
  invalid_insert_version invalid_planned_version : ApplyError
  stale_collection_diff : Text → ℕ → ApplyError

abbrev pub order : WriteKind → ℕ
order restore = 0
order confirm_deleted = 1
order first_missing = 2
order update = 3
order insert = 4

-- compareWrites
abbrev pub write_lt : PendingWrite → PendingWrite → Bool
write_lt left right =
    if text_lt left.planned.user_id right.planned.user_id
    then true
    else if text_lt right.planned.user_id left.planned.user_id
    then false
    else if left.planned.subject_id == right.planned.subject_id
    then ltb (order left.kind) (order right.kind)
    else ltb left.planned.subject_id right.planned.subject_id

abbrev pub max_version : ℕ
max_version = 9007199254740991

-- The version that a write of this kind must have: 1, or one that has a prior.
abbrev pub check_version : WriteKind → CollectionRow → Result ApplyError PendingWrite
check_version insert row =
    if row.state_version == 1
    then ok (record { kind = insert; planned = row })
    else err invalid_insert_version
check_version kind row =
    if ltb 1 row.state_version && leb row.state_version max_version
    then ok (record { kind = kind; planned = row })
    else err invalid_planned_version

-- A loop over one of the lists of a plan, which pushes its writes after those before.
unfoldable pub add_writes :
    WriteKind → List PendingWrite → List CollectionRow → Result ApplyError (List PendingWrite)
add_writes kind writes [] = ok writes
add_writes kind writes (row ∷ rows) = do
  write ← check_version kind row
  add_writes kind (writes ++ write ∷ []) rows

-- The five loops and the sort.
unfoldable pub writes_of : CollectionDiffPlan → Result ApplyError (List PendingWrite)
unfolding add_writes
writes_of plan = do
  inserts ← add_writes insert [] plan.inserts
  updates ← add_writes update inserts plan.updates
  missing ← add_writes first_missing updates plan.first_missing
  deleted ← add_writes confirm_deleted missing plan.confirmed_deleted
  restored ← add_writes restore deleted plan.restored
  ok (sort write_lt restored)
