-- ===== src/Diff/Examples.antt =====
-- A fetch against three rows: the witnesses of the theorems about the plan, and tests of it.
use airing_cal.Common.{
  count, err, ok, ℕ, ◌≡◌, refl, true, none, some, List, [], ◌∷◌, Text, Text-discrete, text_lt,
  units, sort, All,
}
use airing_cal.Rows.{CollectionRow, hot}
use airing_cal.Diff.{
  has_key, duplicate_collection, CollectionDiffPlan, CollectionDiffInput, plan_collection_diff,
  find_row, index_rows, scan_incoming, scan_missing, scan_missing_row, mark_missing, classify, push,
  sort_plan, with_missing, next_revision,
}
use airing_cal.Diff.Counts.{
  is_inserted, is_updated, is_restored, is_unchanged, incoming_as, plan_collection_diff-accounted,
}
use airing_cal.Diff.Reasons.{IsInsert, IsUpdate, IsRestored, IsFirstMissing, IsConfirmedDeleted}
use airing_cal.Diff.Provenance.{plan_collection_diff_sound}

abbrev item : ℕ → Text → CollectionRow
item subject hash = record {
  user_id = units "u";
  subject_id = subject;
  collection_type = 3;
  rate = some 8;
  tags_json = units "[]";
  comment = [];
  ep_status = 1;
  vol_status = 0;
  upstream_updated_at = none;
  subject_json = units "{}";
  content_hash = hash;
  state_version = 1;
  temperature = hot;
  first_seen_at = 0;
  changed_at = 0;
  missing_since = none;
  deleted_at = none;
}

-- A row stored at version 4 since time 10, for each of the four fates of a stored row.
abbrev stored : ℕ → Text → CollectionRow
stored subject hash = record (item subject hash) {
  state_version = 4;
  first_seen_at = 10;
  changed_at = 10;
}

abbrev table : List CollectionRow
table =
    stored 1 (units "a")
    ∷ stored 2 (units "b")
    ∷ record (stored 3 (units "c")) { missing_since = some 20 }
    ∷ stored 4 (units "d")
    ∷ record (stored 5 (units "e")) { missing_since = some 20 }
    ∷ []

abbrev fetch : CollectionDiffInput
fetch = record {
  current = table;
  incoming = item 6 (units "f") ∷ item 1 (units "a") ∷ item 2 (units "z") ∷ item 3 (units "c") ∷ [];
  complete = true;
  observed_at = 30;
}

abbrev expected : CollectionDiffPlan
expected = record {
  inserts = record (item 6 (units "f")) { first_seen_at = 30; changed_at = 30 } ∷ [];
  updates = record (stored 2 (units "z")) { state_version = 5; changed_at = 30 } ∷ [];
  unchanged = 1;
  first_missing = record (stored 4 (units "d")) { state_version = 5; missing_since = some 30 } ∷ [];
  confirmed_deleted =
      record (stored 5 (units "e")) {
        state_version = 5;
        missing_since = some 20;
        deleted_at = some 30;
      }
      ∷ [];
  restored = record (stored 3 (units "c")) { state_version = 5 } ∷ [];
}

plan-fetch : plan_collection_diff fetch ≡ ok expected
unfolding plan_collection_diff find_row index_rows scan_incoming scan_missing scan_missing_row
    mark_missing classify push sort_plan with_missing next_revision sort Text-discrete text_lt
plan-fetch = refl

plan-duplicate :
    plan_collection_diff (record fetch { incoming = item 1 (units "a") ∷ item 1 (units "z") ∷ [] })
    ≡ err (duplicate_collection (units "u") 1)
unfolding plan_collection_diff find_row index_rows scan_incoming classify push next_revision
    Text-discrete
plan-duplicate = refl

plan_collection_diff-accounted_example :
    (count (has_key (units "u") 2) expected.inserts
      ≡ incoming_as fetch (units "u") 2 is_inserted fetch.incoming)
    × (count (has_key (units "u") 2) expected.updates
        ≡ incoming_as fetch (units "u") 2 is_updated fetch.incoming)
    × (count (has_key (units "u") 2) expected.restored
        ≡ incoming_as fetch (units "u") 2 is_restored fetch.incoming)
    × (expected.unchanged
        ≡ count
            (λ row. is_unchanged (find_row row.user_id row.subject_id fetch.current) row)
            fetch.incoming)
plan_collection_diff-accounted_example =
    plan_collection_diff-accounted fetch (units "u") 2 expected plan-fetch

plan_collection_diff_sound_example :
    All (IsInsert fetch.current fetch.observed_at) expected.inserts
    × All (IsUpdate fetch.current) expected.updates
    × All (IsRestored fetch.current) expected.restored
    × All (IsFirstMissing fetch) expected.first_missing
    × All (IsConfirmedDeleted fetch) expected.confirmed_deleted
plan_collection_diff_sound_example = plan_collection_diff_sound fetch plan-fetch
