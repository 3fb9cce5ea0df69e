-- ===== src/Diff.antt =====
-- planCollectionDiff of packages/domain/src/collection-diff.ts. The two-level maps by user and
-- subject are lists of rows searched by both keys; a push is a cons at the end.
pub mod Lookup
pub mod Counts
pub mod Reasons
pub mod Incoming
pub mod Provenance
mod Examples
use airing_cal.Common.{
  Result, ok, err, ◌>>=◌, ℕ, ◌+◌, ◌≡◌, refl, Bool, true, false, ◌&&◌, ◌||◌, Option, none, some,
  List, [], ◌∷◌, ◌++◌, Text, Text-discrete, text_lt, ltb, ◌==◌, if◌then◌else◌, holds, is_none,
  is_some, sort,
}
use airing_cal.Rows.{CollectionRow}

pub data DiffError : Type 0 where
  duplicate_current : Text → ℕ → DiffError
  duplicate_collection : Text → ℕ → DiffError

pub record CollectionDiffPlan : Type 0 where
  pub inserts : List CollectionRow
  pub updates : List CollectionRow
  pub unchanged : ℕ
  pub first_missing : List CollectionRow
  pub confirmed_deleted : List CollectionRow
  pub restored : List CollectionRow

pub record CollectionDiffInput : Type 0 where
  pub current : List CollectionRow
  pub incoming : List CollectionRow
  pub complete : Bool
  pub observed_at : ℕ

-- Whether a row stands under the keys of a user and a subject.
abbrev pub has_key : Text → ℕ → CollectionRow → Bool
has_key user subject row = holds (Text-discrete user row.user_id) && (subject == row.subject_id)

-- `current.get(user)?.get(subject)`
unfoldable pub find_row : Text → ℕ → List CollectionRow → Option CollectionRow
find_row user subject [] = none
find_row user subject (row ∷ rows) =
    if has_key user subject row then some row else find_row user subject rows

-- The loop that fills `current`.
pub index_rows : List CollectionRow → List CollectionRow → Result DiffError (List CollectionRow)
index_rows current [] = ok current
index_rows current (row ∷ rows) =
    let rest = index_rows (current ++ row ∷ []) rows in
    if is_some (find_row row.user_id row.subject_id current)
    then err (duplicate_current row.user_id row.subject_id)
    else rest

pub data Change : Type 0 where
  insert update restore : CollectionRow → Change
  unchanged : Change

-- The new revision of a row that was there before.
pub next_revision : ℕ → CollectionRow → CollectionRow → CollectionRow
next_revision observed_at previous row = record row {
  state_version = previous.state_version + 1;
  first_seen_at = previous.first_seen_at;
  changed_at =
      if holds (Text-discrete previous.content_hash row.content_hash)
      then previous.changed_at
      else observed_at;
  missing_since = none;
  deleted_at = none;
}

-- What the loop over the incoming collections decides about one of them.
pub classify : ℕ → Option CollectionRow → CollectionRow → Change
unfolding next_revision
classify observed_at none row =
    insert (record row { state_version = 1; first_seen_at = observed_at; changed_at = observed_at })
classify observed_at (some previous) row =
    if holds (Text-discrete previous.content_hash row.content_hash)
      && is_none previous.missing_since
      && is_none previous.deleted_at
    then unchanged
    else if is_some previous.missing_since || is_some previous.deleted_at
    then restore (next_revision observed_at previous row)
    else update (next_revision observed_at previous row)

pub push : Change → CollectionDiffPlan → CollectionDiffPlan
push (insert row) p = record p { inserts = p.inserts ++ row ∷ [] }
push (update row) p = record p { updates = p.updates ++ row ∷ [] }
push (restore row) p = record p { restored = p.restored ++ row ∷ [] }
push unchanged p = record p { unchanged = p.unchanged + 1 }

-- The loop over the incoming collections; `seen` holds those that were met before.
pub scan_incoming :
    ℕ
    → List CollectionRow
    → List CollectionRow
    → CollectionDiffPlan
    → List CollectionRow
    → Result DiffError CollectionDiffPlan
scan_incoming observed_at current seen p [] = ok p
scan_incoming observed_at current seen p (row ∷ rows) =
    let change = classify observed_at (find_row row.user_id row.subject_id current) row in
    let rest = scan_incoming observed_at current (seen ++ row ∷ []) (push change p) rows in
    if is_some (find_row row.user_id row.subject_id seen)
    then err (duplicate_collection row.user_id row.subject_id)
    else rest

-- A row of the last loop that the complete fetch missed, by its `missing_since`.
pub mark_missing : ℕ → CollectionRow → CollectionDiffPlan → Option ℕ → CollectionDiffPlan
mark_missing observed_at previous p none =
    let gone = record previous {
      state_version = previous.state_version + 1;
      missing_since = some observed_at;
    } in
    record p { first_missing = p.first_missing ++ gone ∷ [] }
mark_missing observed_at previous p (some since) =
    let gone = record previous {
      state_version = previous.state_version + 1;
      deleted_at = some observed_at;
    } in
    if ltb since observed_at
    then record p { confirmed_deleted = p.confirmed_deleted ++ gone ∷ [] }
    else p

-- The rows that the last loop passes over: those that were seen, and those deleted before.
abbrev pub is_passed_over : List CollectionRow → CollectionRow → Bool
is_passed_over seen previous =
    is_some (find_row previous.user_id previous.subject_id seen) || is_some previous.deleted_at

pub scan_missing_row :
    ℕ → List CollectionRow → CollectionDiffPlan → CollectionRow → CollectionDiffPlan
scan_missing_row observed_at seen p previous =
    if is_passed_over seen previous
    then p
    else mark_missing observed_at previous p previous.missing_since

-- The loop over the current rows, after a complete fetch. Every incoming row is in `seen` then.
pub scan_missing :
    ℕ → List CollectionRow → CollectionDiffPlan → List CollectionRow → CollectionDiffPlan
scan_missing observed_at seen p [] = p
scan_missing observed_at seen p (previous ∷ rows) =
    scan_missing observed_at seen (scan_missing_row observed_at seen p previous) rows

-- `compareRows`: by user, then by subject.
abbrev pub row_lt : CollectionRow → CollectionRow → Bool
row_lt left right =
    if text_lt left.user_id right.user_id
    then true
    else if text_lt right.user_id left.user_id
    then false
    else ltb left.subject_id right.subject_id

pub sort_plan : CollectionDiffPlan → CollectionDiffPlan
sort_plan p = record p {
  inserts = sort row_lt p.inserts;
  updates = sort row_lt p.updates;
  first_missing = sort row_lt p.first_missing;
  confirmed_deleted = sort row_lt p.confirmed_deleted;
  restored = sort row_lt p.restored;
}

abbrev pub empty_plan : CollectionDiffPlan
empty_plan = record {
  inserts = [];
  updates = [];
  unchanged = 0;
  first_missing = [];
  confirmed_deleted = [];
  restored = [];
}

-- The plan before it is sorted, from what the scan of the incoming collections gave.
pub with_missing : CollectionDiffInput → CollectionDiffPlan → CollectionDiffPlan
with_missing d p = if d.complete then scan_missing d.observed_at d.incoming p d.current else p

pub plan_collection_diff : CollectionDiffInput → Result DiffError CollectionDiffPlan
plan_collection_diff d = do
  current ← index_rows [] d.current
  p ← scan_incoming d.observed_at current [] empty_plan d.incoming
  ok (sort_plan (with_missing d p))
