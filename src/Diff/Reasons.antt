-- ===== src/Diff/Reasons.antt =====
-- The reasons that a row may have to stand in a plan.
use mathlib.Core.List.{Memᴰ}
use airing_cal.Common.{ℕ, ◌+◌, ◌<◌, ◌≡◌, ◌≢◌, true, none, some, List}
use airing_cal.Rows.{CollectionRow}
use airing_cal.Diff.{CollectionDiffInput, find_row}

-- The row `previous` stands in the table, and `row` is its next revision under the same keys.
pub record IsRevision (table : List CollectionRow) (previous row : CollectionRow) : Type 0 where
  pub member : Memᴰ previous table
  pub same_user : previous.user_id ≡ row.user_id
  pub same_subject : previous.subject_id ≡ row.subject_id
  pub next_version : row.state_version ≡ previous.state_version + 1
  pub keeps_first_seen : row.first_seen_at ≡ previous.first_seen_at

pub revision :
    {table : List CollectionRow} {previous row : CollectionRow}
    → Memᴰ previous table
    → previous.user_id ≡ row.user_id
    → previous.subject_id ≡ row.subject_id
    → row.state_version ≡ previous.state_version + 1
    → row.first_seen_at ≡ previous.first_seen_at
    → IsRevision table previous row
revision m u s v f = record {
  member = m;
  same_user = u;
  same_subject = s;
  next_version = v;
  keeps_first_seen = f;
}

abbrev pub IsVisible : CollectionRow → Type 0
IsVisible row = (row.missing_since ≡ none) × (row.deleted_at ≡ none)

-- An inserted row has keys that the table lacks, and starts at version 1.
abbrev pub IsInsert : List CollectionRow → ℕ → CollectionRow → Type 0
IsInsert table observed_at row =
    (find_row row.user_id row.subject_id table ≡ none)
    × (row.state_version ≡ 1)
    × (row.first_seen_at ≡ observed_at)

-- An updated row was visible, and its content has changed.
abbrev pub IsUpdate : List CollectionRow → CollectionRow → Type 0
IsUpdate table row =
    (previous : CollectionRow) × IsRevision table previous row
    × IsVisible previous
    × IsVisible row
    × (previous.content_hash ≢ row.content_hash)

-- A restored row was missing or deleted.
abbrev pub IsRestored : List CollectionRow → CollectionRow → Type 0
IsRestored table row =
    (previous : CollectionRow) × IsRevision table previous row
    × ¬ IsVisible previous
    × IsVisible row

-- A row is first missed when the fetch lacks it and it was visible.
abbrev pub IsFirstMissing : CollectionDiffInput → CollectionRow → Type 0
IsFirstMissing d row =
    (previous : CollectionRow) × IsRevision d.current previous row
    × (d.complete ≡ true)
    × (find_row row.user_id row.subject_id d.incoming ≡ none)
    × IsVisible previous
    × (row.missing_since ≡ some d.observed_at)
    × (row.deleted_at ≡ none)

-- A row is deleted when the fetch lacks it and an earlier one lacked it already.
abbrev pub IsConfirmedDeleted : CollectionDiffInput → CollectionRow → Type 0
IsConfirmedDeleted d row =
    (previous : CollectionRow) × IsRevision d.current previous row
    × (d.complete ≡ true)
    × (find_row row.user_id row.subject_id d.incoming ≡ none)
    × ((since : ℕ) × (previous.missing_since ≡ some since) × (since < d.observed_at))
    × (previous.deleted_at ≡ none)
    × (row.deleted_at ≡ some d.observed_at)
