-- ===== src/Accounts.antt =====
-- The comparison of two accounts and its data, of packages/domain/src/index.ts. The clients that
-- reach a platform are parameters. A status is the string that the platform gave.
mod Compare
mod Sync
mod Partition
mod Entries
mod Writes
mod Failures
mod Outcome
mod Examples
use airing_cal.Common.{
  ℕ, ◌+◌, Bool, true, false, not, ◌&&◌, ◌||◌, Option, none, some, List, [], ◌∷◌, ◌++◌, Text,
  Text-discrete, units, Result, ok, err, ◌==◌, if◌then◌else◌, holds,
}

pub record ComparisonItem : Type 0 where
  pub external_id : Text
  pub title : Text
  pub status : Text
  pub progress : ℕ
  pub total_episodes : ℕ
  pub score : ℕ
  pub platform : Text

pub record EpisodeProgress : Type 0 where
  pub before : ℕ
  pub after : ℕ
  pub total : ℕ

pub record PatchEntryResult : Type 0 where
  pub episode_changed : ℕ
  pub episode_progress : Option EpisodeProgress

pub record AccountInfo : Type 0 where
  pub username : Text
  pub external_id : Text
  pub platform : Text

-- What a thrown Error may carry of an episode patch that stopped half-way.
pub record PartialPatch : Type 0 where
  pub code : Text
  pub succeeded : ℕ
  pub failed_index : ℕ
  pub failed_episode_ids : List ℕ

-- What a client throws: something that is not an Error, by its string, or an Error with its
-- message, HTTP status, patch details and cause.
pub data Thrown : Type 0 where
  not_an_error : Text → Thrown
  an_error : Text → Option ℕ → Option PartialPatch → Thrown → Thrown

pub record Difference : Type 0 where
  pub external_id : Text
  pub title : Text
  pub status_a : Text
  pub status_b : Text
  pub progress_a : ℕ
  pub progress_b : ℕ
  pub score_a : ℕ
  pub score_b : ℕ
  pub item_a : Option ComparisonItem
  pub item_b : Option ComparisonItem

pub record SameEntry : Type 0 where
  pub external_id : Text
  pub title : Text
  pub status : Text
  pub progress : ℕ
  pub total_episodes : ℕ
  pub score : ℕ

pub record UserSummary : Type 0 where
  pub name : Text
  pub total : ℕ
  pub error : Option Text

pub record CompareResult : Type 0 where
  pub user_a : UserSummary
  pub user_b : UserSummary
  pub common : ℕ
  pub differences : List Difference
  pub same : List SameEntry
  pub only_a : List Difference
  pub only_b : List Difference

-- `a === b` on strings
abbrev pub equals : Text → Text → Bool
equals a b = holds (Text-discrete a b)

unfoldable pub status_label : Text → Text
status_label status =
    if equals status [] || equals status (units "—")
    then units "未收藏"
    else if equals status (units "watching")
    then units "在看"
    else if equals status (units "completed")
    then units "看过"
    else if equals status (units "plan_to_watch")
    then units "想看"
    else if equals status (units "on_hold")
    then units "搁置"
    else if equals status (units "dropped")
    then units "抛弃"
    else status

-- The error itself or one of its causes that carries status 401 or 403.
unfoldable pub find_authentication_error : Thrown → Option Thrown
find_authentication_error (not_an_error _) = none
find_authentication_error (an_error message none partial cause) = find_authentication_error cause
find_authentication_error (an_error message (some status) partial cause) =
    let deeper = find_authentication_error cause in
    if (status == 401) || (status == 403)
    then some (an_error message (some status) partial cause)
    else deeper

-- `error instanceof Error ? error.message : String(error)`
abbrev pub message_of : Thrown → Text
message_of (not_an_error shown) = shown
message_of (an_error message _ _ _) = message
