-- ===== src/Runs.antt =====
-- The sync runs of packages/storage/src/d1-state-store.ts: the table sync_runs by its primary key.
-- A run ends as ok or as error; a guard makes an update a compare-and-swap on the checkpoint, which
-- is the stage and the result.
pub mod Operations
pub mod Finish
pub mod Checkpoint
pub mod Start
mod Examples
use airing_cal.Common.{
  ℕ, zero, suc, Bool, true, false, not, ◌&&◌, ◌||◌, Option, none, some, List, [], ◌∷◌, Result, ok,
  err, ◌>>=◌, ◌>>◌, Text, Text-discrete, units, leb, ◌==◌, if◌then◌else◌, holds, length, ℕ_discrete,
}

pub record SyncRunRow : Type 0 where
  pub instance_id : Text
  pub status : Text
  pub stage : Text
  pub generation : Option ℕ
  pub collection_count : ℕ
  pub changed_count : ℕ
  pub missing_count : ℕ
  pub deleted_count : ℕ
  pub media_selected_count : ℕ
  pub media_granted_count : ℕ
  pub input_hash : Option Text
  pub public_hash : Option Text
  pub result_json : Option Text
  pub error_code : Option Text
  pub started_at : ℕ
  pub heartbeat_at : ℕ
  pub completed_at : Option ℕ

-- A field that is absent is none, and null is some none.
pub record SyncRunUpdate : Type 0 where
  pub stage : Text
  pub heartbeat_at : ℕ
  pub generation : Option (Option ℕ)
  pub collection_count : Option ℕ
  pub changed_count : Option ℕ
  pub missing_count : Option ℕ
  pub deleted_count : Option ℕ
  pub media_selected_count : Option ℕ
  pub media_granted_count : Option ℕ
  pub input_hash : Option (Option Text)
  pub public_hash : Option (Option Text)
  pub result_json : Option (Option Text)

pub record SyncRunCheckpointGuard : Type 0 where
  pub stage : Text
  pub result_json : Option Text

-- A field that is absent and one that is null are both none: they are bound alike.
pub record SyncRunCompletion : Type 0 where
  pub heartbeat_at : ℕ
  pub completed_at : ℕ
  pub generation : Option ℕ
  pub input_hash : Option Text
  pub public_hash : Option Text
  pub result_json : Option Text

pub record SyncRunFailure : Type 0 where
  pub heartbeat_at : ℕ
  pub completed_at : ℕ
  pub error_code : Text

pub data Terminal : Type 0 where
  ok_terminal error_terminal : Terminal

-- The outcome of a terminal transition, with the state that the run is in.
pub data SyncTerminalTransitionResult : Type 0 where
  applied already_same_terminal preserved_opposite_terminal :
      Terminal → SyncTerminalTransitionResult

pub data RunError : Type 0 where
  not_found not_found_after_start payload_mismatch not_applied : RunError
  already_terminal : Text → RunError
  checkpoint_conflict unclassified_error_code malformed_json : RunError

unfoldable pub Run-discrete : Discrete SyncRunRow
unfolding ℕ_discrete Text-discrete
Run-discrete = hlevel (ℕ_discrete, Text-discrete)

unfoldable pub Json-discrete : Discrete (Option Text)
unfolding Text-discrete
Json-discrete = hlevel (Text-discrete)

-- The table, by instance_id.
abbrev pub SyncRuns : Type 0
SyncRuns = Text → Option SyncRunRow

abbrev pub put_run : Text → SyncRunRow → SyncRuns → SyncRuns
put_run id row runs key = if holds (Text-discrete key id) then some row else runs key

abbrev pub is_status : Text → SyncRunRow → Bool
is_status status row = holds (Text-discrete row.status status)

-- `status IN ('ok', 'error')`
abbrev pub is_terminal : SyncRunRow → Bool
is_terminal row = is_status (units "ok") row || is_status (units "error") row

abbrev is_capital : ℕ → Bool
is_capital c = leb b'A' c && leb c b'Z'

all_code : Text → Bool
all_code [] = true
all_code (c ∷ cs) = (is_capital c || (leb b'0' c && leb c b'9') || c == b'_') && all_code cs

-- CLASSIFIED_ERROR_CODE
unfoldable pub is_classified : Text → Bool
unfolding all_code
is_classified [] = false
is_classified (c ∷ cs) = is_capital c && leb 1 (length cs) && leb (length cs) 63 && all_code cs

-- assertClassifiedErrorCode
unfoldable pub assert_classified : Option Text → Result RunError (Unit {0})
assert_classified none = ok tt
assert_classified (some code) = if is_classified code then ok tt else err unclassified_error_code

-- What an update leaves of a field: its own value if it has one.
abbrev pub given {ℓ} : {A : Type ℓ} → Option A → A → A
given none old = old
given (some new) old = new

-- COALESCE(?, column)
abbrev pub coalesce : {A : Type 0} → Option A → Option A → Option A
coalesce none old = old
coalesce (some new) old = some new

abbrev pub updated_run : SyncRunUpdate → SyncRunRow → SyncRunRow
updated_run update row = record row {
  stage = update.stage;
  heartbeat_at = update.heartbeat_at;
  generation = given update.generation row.generation;
  collection_count = given update.collection_count row.collection_count;
  changed_count = given update.changed_count row.changed_count;
  missing_count = given update.missing_count row.missing_count;
  deleted_count = given update.deleted_count row.deleted_count;
  media_selected_count = given update.media_selected_count row.media_selected_count;
  media_granted_count = given update.media_granted_count row.media_granted_count;
  input_hash = given update.input_hash row.input_hash;
  public_hash = given update.public_hash row.public_hash;
  result_json = given update.result_json row.result_json;
}

-- The run stands at the checkpoint of the guard.
abbrev pub at_checkpoint : SyncRunCheckpointGuard → SyncRunRow → Bool
at_checkpoint guard row =
    holds (Text-discrete row.stage guard.stage)
    && holds (Json-discrete row.result_json guard.result_json)

abbrev pub passes : Option SyncRunCheckpointGuard → SyncRunRow → Bool
passes none row = true
passes (some guard) row = at_checkpoint guard row

abbrev pub completed_run : SyncRunCompletion → SyncRunRow → SyncRunRow
completed_run completion row = record row {
  status = units "ok";
  stage = units "complete";
  heartbeat_at = completion.heartbeat_at;
  completed_at = some completion.completed_at;
  generation = coalesce completion.generation row.generation;
  input_hash = coalesce completion.input_hash row.input_hash;
  public_hash = coalesce completion.public_hash row.public_hash;
  result_json = coalesce completion.result_json row.result_json;
  error_code = none;
}

abbrev pub failed_run : SyncRunFailure → SyncRunRow → SyncRunRow
failed_run failure row = record row {
  status = units "error";
  heartbeat_at = failure.heartbeat_at;
  completed_at = some failure.completed_at;
  error_code = some failure.error_code;
}
