-- ===== src/Accounts/Sync.antt =====
-- executeSync and validateSyncRequest of packages/domain/src/index.ts: the entries of one account
-- written to another.
use airing_cal.Common.{
  ℕ, Bool, true, false, not, ◌&&◌, ◌||◌, Option, none, some, List, [], ◌∷◌, Text, Text-discrete,
  units, is_blank, Result, ok, err, ◌>>=◌, ◌>>◌, ◌==◌, ltb, leb, if◌then◌else◌, any, every, filter,
  length, get, set,
}
use airing_cal.Accounts.{
  ComparisonItem, PatchEntryResult, AccountInfo, PartialPatch, Thrown, an_error, not_an_error,
  equals, status_label, message_of,
}

pub record SyncBaseline : Type 0 where
  pub external_id : Text
  pub status : Option Text
  pub score : Option ℕ

pub record SyncRequest : Type 0 where
  pub mode : Text
  pub from : Option Text
  pub to : Option Text
  pub items : Option (List ComparisonItem)
  pub subject_ids : Option (List Text)
  pub baseline : Option (List SyncBaseline)

-- What the call throws: a SyncValidationError by its message, or what the source's client threw.
pub data SyncError : Type 0 where
  validation : Text → SyncError
  client : Thrown → SyncError

-- How one entry ended.
pub data SyncOutcome : Type 0 where
  synced :
      (status_before status_after : Text) (score_before score_after : Option ℕ)
      → PatchEntryResult
      → SyncOutcome
  failed : Text → Option PartialPatch → SyncOutcome

pub record SyncResult : Type 0 where
  pub external_id : Text
  pub title : Text
  pub outcome : SyncOutcome

-- Object.values(WatchStatus).includes
abbrev pub is_watch_status : Text → Bool
is_watch_status status =
    equals status (units "watching")
    || equals status (units "completed")
    || equals status (units "plan_to_watch")
    || equals status (units "on_hold")
    || equals status (units "dropped")

unfoldable pub is_comparison_item : ComparisonItem → Bool
is_comparison_item item =
    not (is_blank item.external_id)
    && is_watch_status item.status
    && leb item.score 10
    && equals item.platform (units "bgm")

abbrev pub require : Bool → Text → Result SyncError (Unit {0})
require holds_so message = if holds_so then ok tt else err (validation message)

abbrev pub check_items : Option (List ComparisonItem) → Result SyncError (Unit {0})
check_items none = ok tt
check_items (some items) =
    require (ltb 0 (length items)) (units "Sync requires at least one item")
    >> require (leb (length items) 5) (units "Sync accepts at most 5 items")
    >> require (every is_comparison_item items) (units "Invalid sync item")

abbrev pub check_subject_ids : Option (List Text) → Result SyncError (Unit {0})
check_subject_ids none = ok tt
check_subject_ids (some ids) =
    require (not (any is_blank ids)) (units "Invalid subject_ids")
    >> require (leb (length ids) 5) (units "Sync accepts at most 5 subject_ids")

-- `!text?.trim()`
abbrev pub is_missing : Option Text → Bool
is_missing none = true
is_missing (some text) = is_blank text

-- `list?.length`
abbrev pub has_elements : {A : Type 0} → Option (List A) → Bool
has_elements none = false
has_elements (some xs) = ltb 0 (length xs)

unfoldable pub validate_sync_request : SyncRequest → Result SyncError (Unit {0})
validate_sync_request request =
    require (equals request.mode (units "full") || equals request.mode (units "partial"))
      (units "Invalid sync mode")
    >> require (not (is_missing request.from) && not (is_missing request.to))
        (units "Missing source/target user")
    >> check_items request.items
    >> check_subject_ids request.subject_ids
    >> require
        (not (equals request.mode (units "partial"))
          || has_elements request.items
          || has_elements request.subject_ids)
        (units "Partial sync requires items or subject_ids")

abbrev is_safe : ℕ → Bool
is_safe n = leb n 9007199254740991

-- isEpisodePatchPartialError
unfoldable pub partial_of : Thrown → Option PartialPatch
partial_of (an_error message status (some partial) cause) =
    if equals partial.code (units "EPISODE_PATCH_PARTIAL")
      && is_safe partial.succeeded
      && is_safe partial.failed_index
      && every (λ id. is_safe id && ltb 0 id) partial.failed_episode_ids
    then some partial
    else none
partial_of (an_error message status none cause) = none
partial_of (not_an_error shown) = none

unfoldable pub index_baseline :
    List (Text × SyncBaseline) → List SyncBaseline → List (Text × SyncBaseline)
index_baseline entries [] = entries
index_baseline entries (baseline ∷ others) =
    index_baseline (set Text-discrete baseline.external_id baseline entries) others

abbrev pub status_before : Option SyncBaseline → Text
status_before none = status_label []
status_before (some baseline) = elim baseline.status [
  | none ↦ status_label []
  | some status ↦ status_label status
]

abbrev pub score_before : Option SyncBaseline → Option ℕ
score_before none = none
score_before (some baseline) = baseline.score

abbrev pub or_empty : {A : Type 0} → Option (List A) → List A
or_empty none = []
or_empty (some xs) = xs

-- The result that is pushed for one entry.
unfoldable pub result_of :
    List (Text × SyncBaseline) → ComparisonItem → Result Thrown PatchEntryResult → SyncResult
result_of baselines entry (ok patch) =
    let baseline : Option SyncBaseline = get Text-discrete entry.external_id baselines in
    record {
      external_id = entry.external_id;
      title = entry.title;
      outcome =
          synced (status_before baseline) (status_label entry.status) (score_before baseline)
            (if entry.score == 0 then none else some entry.score) patch;
    }
result_of baselines entry (err thrown) = record {
  external_id = entry.external_id;
  title = entry.title;
  outcome = failed (message_of thrown) (partial_of thrown);
}

-- The target's client: patching an entry changes its platform, whether the call succeeds or throws.
module _ {Platform : Type 0}
    (patch_entry : ComparisonItem → Platform → Result Thrown PatchEntryResult × Platform) where
  unfoldable pub sync_all :
      List (Text × SyncBaseline) → List ComparisonItem → Platform → List SyncResult × Platform
  sync_all baselines [] platform = ([], platform)
  sync_all baselines (entry ∷ entries) platform =
      let patched : Result Thrown PatchEntryResult × Platform = patch_entry entry platform in
      let rest : List SyncResult × Platform = sync_all baselines entries patched.1 in
      (result_of baselines entry patched.0 ∷ rest.0, rest.1)

  -- The source's client: the owner of its token, and a user's collections.
  module _ (get_me : Result Thrown AccountInfo)
      (fetch_collections : Text → Result Thrown (List ComparisonItem)) where
    abbrev pub from_client : {A : Type 0} → Result Thrown A → Result SyncError A
    from_client (ok value) = ok value
    from_client (err thrown) = err (client thrown)

    -- The entries to write.
    unfoldable pub targets_of : SyncRequest → Result SyncError (List ComparisonItem)
    targets_of request = elim request.items [
      | some items ↦ ok items
      | none ↦ from_client get_me >>= λ account.
          from_client (fetch_collections account.username) >>= λ items.
          if equals request.mode (units "full")
          then ok items
          else ok
              (filter (λ item. any (equals item.external_id) (or_empty request.subject_ids)) items)
    ]

    unfoldable pub execute_sync :
        SyncRequest → Platform → Result SyncError (List SyncResult) × Platform
    execute_sync request platform = elim (validate_sync_request request >> targets_of request) [
      | err thrown ↦ (err thrown, platform)
      | ok targets ↦
          let done : List SyncResult × Platform =
            sync_all (index_baseline [] (or_empty request.baseline)) targets platform in
          (ok done.0, done.1)
    ]
