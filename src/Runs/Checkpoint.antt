-- ===== src/Runs/Checkpoint.antt =====
-- A guarded update is a compare-and-swap on the checkpoint of a run.
use airing_cal.Common.{
  ◌≡◌, ◌⊎◌, refl, inl, inr, true, false, Option, none, some, ok, err, Text, Text-discrete,
  if◌then◌else◌, holds, Bool-cases,
}
use airing_cal.Runs.{
  SyncRunRow, SyncRunUpdate, SyncRunCheckpointGuard, checkpoint_conflict, SyncRuns, put_run,
  is_terminal, given, updated_run, at_checkpoint,
}
use airing_cal.Runs.Operations.{update_statement, assert_applied, update_error, update_sync_run}

-- A field that an update may give: it has the value given, or the old one if none is.
abbrev pub IsTaken {ℓ} : {A : Type ℓ} → Option A → A → A → Type ℓ
IsTaken none old new = new ≡ old
IsTaken (some value) old new = new ≡ value

given-IsTaken : {A : Type 0} (value : Option A) (old : A) → IsTaken value old (given value old)
given-IsTaken none old = refl
given-IsTaken (some value) old = refl

-- A run after an update: the stage and the heartbeat are the update's, each optional field is taken
-- from it if it is there, and the others are as they were.
pub record IsUpdated (update : SyncRunUpdate) (before after : SyncRunRow) : Type 0 where
  pub stage : after.stage ≡ update.stage
  pub heartbeat_at : after.heartbeat_at ≡ update.heartbeat_at
  pub generation : IsTaken update.generation before.generation after.generation
  pub collection_count :
      IsTaken update.collection_count before.collection_count after.collection_count
  pub changed_count : IsTaken update.changed_count before.changed_count after.changed_count
  pub missing_count : IsTaken update.missing_count before.missing_count after.missing_count
  pub deleted_count : IsTaken update.deleted_count before.deleted_count after.deleted_count
  pub media_selected_count :
      IsTaken update.media_selected_count before.media_selected_count after.media_selected_count
  pub media_granted_count :
      IsTaken update.media_granted_count before.media_granted_count after.media_granted_count
  pub input_hash : IsTaken update.input_hash before.input_hash after.input_hash
  pub public_hash : IsTaken update.public_hash before.public_hash after.public_hash
  pub result_json : IsTaken update.result_json before.result_json after.result_json
  pub instance_id : after.instance_id ≡ before.instance_id
  pub status : after.status ≡ before.status
  pub error_code : after.error_code ≡ before.error_code
  pub started_at : after.started_at ≡ before.started_at
  pub completed_at : after.completed_at ≡ before.completed_at

updated_run-IsUpdated :
    (update : SyncRunUpdate) (row : SyncRunRow) → IsUpdated update row (updated_run update row)
updated_run-IsUpdated update row = record {
  stage = refl;
  heartbeat_at = refl;
  generation = given-IsTaken update.generation row.generation;
  collection_count = given-IsTaken update.collection_count row.collection_count;
  changed_count = given-IsTaken update.changed_count row.changed_count;
  missing_count = given-IsTaken update.missing_count row.missing_count;
  deleted_count = given-IsTaken update.deleted_count row.deleted_count;
  media_selected_count = given-IsTaken update.media_selected_count row.media_selected_count;
  media_granted_count = given-IsTaken update.media_granted_count row.media_granted_count;
  input_hash = given-IsTaken update.input_hash row.input_hash;
  public_hash = given-IsTaken update.public_hash row.public_hash;
  result_json = given-IsTaken update.result_json row.result_json;
  instance_id = refl;
  status = refl;
  error_code = refl;
  started_at = refl;
  completed_at = refl;
}

-- Nobody else writes.
abbrev pub alone : SyncRuns → SyncRuns
alone runs = runs

pub put-same : (id : Text) (row : SyncRunRow) (runs : SyncRuns) → put_run id row runs id ≡ some row
put-same id row runs =
    elim (Text-discrete id id) as (λ d. (if holds d then some row else runs id) ≡ some row) [
      | yes _ ↦ refl
      | no different ↦ elim (different refl) [ ]
    ]

conflict-elsewhere :
    (id : Text) (row : SyncRunRow) (guard : SyncRunCheckpointGuard) (update : SyncRunUpdate)
    (runs : SyncRuns)
    → runs id ≡ some row
    → is_terminal row ≡ false
    → at_checkpoint guard row ≡ false
    → update_sync_run alone id update (some guard) runs ≡ (err checkpoint_conflict, runs)
unfolding update_sync_run update_statement update_error
conflict-elsewhere id row guard update runs is_row running elsewhere =
    rw (is_row, update_sync_run)
      (rw (running, elsewhere) (rw (is_row, update_error) (rw elsewhere refl)))

module _ (id : Text) (row : SyncRunRow) (guard : SyncRunCheckpointGuard) (update : SyncRunUpdate)
    (runs : SyncRuns) (is_row : runs id ≡ some row) (running : is_terminal row ≡ false) where
  update-there :
      at_checkpoint guard row ≡ true
      → ((update_sync_run alone id update (some guard) runs).0 ≡ ok tt)
        × ((update_sync_run alone id update (some guard) runs).1 id ≡ some (updated_run update row))
  unfolding update_sync_run update_statement assert_applied
  update-there there =
      rw (is_row, update_sync_run)
        (rw (running, there) (refl, put-same id (updated_run update row) runs))

  -- An undisturbed update under a guard, of a run that has not ended: at the checkpoint of the guard
  -- it succeeds, the run has the stage, the heartbeat and the optional fields that the update gives,
  -- and its other fields stay; elsewhere it is a checkpoint conflict, and nothing changes.
  pub guarded_update :
      ((at_checkpoint guard row ≡ true)
        × ((update_sync_run alone id update (some guard) runs).0 ≡ ok tt)
        × (after : SyncRunRow) × ((update_sync_run alone id update (some guard) runs).1 id
            ≡ some after)
        × IsUpdated update row after)
      ⊎ ((at_checkpoint guard row ≡ false)
          × (update_sync_run alone id update (some guard) runs ≡ (err checkpoint_conflict, runs)))
  guarded_update = elim (Bool-cases (at_checkpoint guard row)) [
    | inl there ↦
        let (succeeds, moved) = update-there there in
        inl (there, succeeds, updated_run update row, moved, updated_run-IsUpdated update row)
    | inr elsewhere ↦
        inr (elsewhere, conflict-elsewhere id row guard update runs is_row running elsewhere)
  ]

  -- Of two undisturbed updates under the same guard, in a row, the second one is a checkpoint
  -- conflict and changes nothing, when the first one moved the run on from the checkpoint.
  pub guarded_once :
      (second : SyncRunUpdate)
      → at_checkpoint guard row ≡ true
      → at_checkpoint guard (updated_run update row) ≡ false
      → let after = (update_sync_run alone id update (some guard) runs).1 in
        update_sync_run alone id second (some guard) after ≡ (err checkpoint_conflict, after)
  guarded_once second there moved =
      conflict-elsewhere id (updated_run update row) guard second
        (update_sync_run alone id update (some guard) runs).1 (update-there there).1 running moved
