-- ===== src/SnapshotGc/Examples.antt =====
-- Four generations with the third one current: the witnesses of the theorems about the collection.
use airing_cal.Common.{
  ℕ, ◌≡◌, ◌-◌, refl, true, false, Option, none, some, [], ◌∷◌, Text, Text-discrete, text_lt, units,
  sort, arith,
}
use airing_cal.SnapshotGc.{
  PublicSnapshotGcOptions, contains, index_generations, parse_generation_from_snapshot_key, kept,
  add_all, plan_public_snapshot_gc,
}
use airing_cal.SnapshotGc.Kept.{IsProtected, protected_not_deleted}

-- Number, on one digit.
abbrev to_number : Text → Option ℕ
to_number (c ∷ []) = some (c - 48)
to_number _ = none

abbrev options : PublicSnapshotGcOptions
options = record {
  snapshot_keys =
      units "snapshots/v1/1-aa.json"
      ∷ units "snapshots/v1/2-bb.json"
      ∷ units "snapshots/v1/3-cc.json"
      ∷ units "snapshots/v1/4-dd.json"
      ∷ [];
  current_artifact_ref = some (units "snapshots/v1/3-cc.json");
  pinned_artifact_refs = [];
  min_generations = 0;
  min_age_days = 30;
  now_unix = 5000000;
  published_at_unix_by_key = λ _. none;
  rollback_generations = 1;
}

deleted_keys :
    (plan_public_snapshot_gc to_number options).delete
    ≡ units "snapshots/v1/1-aa.json" ∷ units "snapshots/v1/4-dd.json" ∷ []
unfolding plan_public_snapshot_gc kept add_all index_generations parse_generation_from_snapshot_key
    sort text_lt Text-discrete
deleted_keys = refl

protected_not_deleted_example :
    (contains (units "snapshots/v1/2-bb.json") (plan_public_snapshot_gc to_number options).keep
      ≡ true)
    × (contains (units "snapshots/v1/2-bb.json") (plan_public_snapshot_gc to_number options).delete
        ≡ false)
unfolding index_generations parse_generation_from_snapshot_key sort Text-discrete
protected_not_deleted_example =
    protected_not_deleted to_number options (units "snapshots/v1/2-bb.json")
      (IsProtected.is_for_rollback 2 refl refl (omega arith))
