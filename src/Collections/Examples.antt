-- ===== src/Collections/Examples.antt =====
-- A plan with an insert, an update and a row that is gone: the witnesses of the theorems about
-- applyCollectionDiff.
use airing_cal.Common.{
  ℕ, ◌≡◌, ◌≤◌, refl, Option, none, some, List, [], ◌∷◌, ok, Text-discrete, text_lt, units, sort,
  All,
}
use airing_cal.Rows.{CollectionRow, hot}
use airing_cal.Diff.{CollectionDiffPlan}
use airing_cal.Collections.{
  put_item, first_missing, update, insert, PendingWrite, add_writes, writes_of,
}
use airing_cal.Collections.Apply.{Store, batches, apply_collection_diff}
use airing_cal.Collections.Versions.{Forward, Follows-refl}
use airing_cal.Collections.Batches.{
  concat, statements, batches_complete, apply_collection_diff-Forward,
}
use airing_cal.Collections.Landed.{AllApart}
use airing_cal.Collections.Applied.{alone, HasLanded, apply_collection_diff-Landed}
use airing_cal.Collections.Success.{IsFitting, apply_collection_diff-succeeds}

abbrev row : ℕ → ℕ → Option ℕ → CollectionRow
row subject version missing = record {
  user_id = units "u";
  subject_id = subject;
  collection_type = 3;
  rate = some 8;
  tags_json = units "[]";
  comment = [];
  ep_status = 1;
  vol_status = 0;
  upstream_updated_at = none;
  subject_json = units "{}";
  content_hash = units "h";
  state_version = version;
  temperature = hot;
  first_seen_at = 1;
  changed_at = 5;
  missing_since = missing;
  deleted_at = none;
}

-- Subjects 2 and 3 are stored at version 4.
abbrev store : Store
store = record {
  items =
      put_item (row 2 4 none) (row 2 4 none)
        (put_item (row 3 4 none) (row 3 4 none) (λ user subject. none));
  runs = λ id. none;
}

abbrev plan : CollectionDiffPlan
plan = record {
  inserts = row 1 1 none ∷ [];
  updates = row 2 5 none ∷ [];
  unchanged = 0;
  first_missing = row 3 5 (some 9) ∷ [];
  confirmed_deleted = [];
  restored = [];
}

abbrev writes : List PendingWrite
writes =
    record { kind = insert; planned = row 1 1 none }
    ∷ record { kind = update; planned = row 2 5 none }
    ∷ record { kind = first_missing; planned = row 3 5 (some 9) }
    ∷ []

plan-writes : writes_of plan ≡ ok writes
unfolding writes_of add_writes sort text_lt
plan-writes = refl

writes-AllApart : AllApart writes
unfolding Text-discrete
writes-AllApart = ((refl, (refl, tt)), ((refl, tt), (tt, tt)))

writes-IsFitting : All (IsFitting store.items) writes
unfolding Text-discrete
writes-IsFitting = (refl, (refl, (refl, tt)))

plan_applied : (apply_collection_diff alone plan none store).0 ≡ ok 3
plan_applied =
    apply_collection_diff-succeeds plan store writes plan-writes writes-AllApart writes-IsFitting

apply_collection_diff-Forward_example :
    Forward store.items (apply_collection_diff alone plan none store).1.items
apply_collection_diff-Forward_example =
    apply_collection_diff-Forward alone (λ s user subject. Follows-refl (s.items user subject)) plan
      none store

batches_complete_example :
    (concat (batches none writes) ≡ writes)
    × All (λ chunk. statements none chunk ≤ 50) (batches none writes)
batches_complete_example = batches_complete none writes

apply_collection_diff-succeeds_example : (apply_collection_diff alone plan none store).0 ≡ ok 3
apply_collection_diff-succeeds_example =
    apply_collection_diff-succeeds plan store writes plan-writes writes-AllApart writes-IsFitting

apply_collection_diff-Landed_example :
    HasLanded (apply_collection_diff alone plan none store).1.items plan
apply_collection_diff-Landed_example =
    apply_collection_diff-Landed plan none store writes 3 plan-writes writes-AllApart plan_applied
