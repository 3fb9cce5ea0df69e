-- ===== src/Accounts/Examples.antt =====
-- Two small accounts: tests of the comparison and of the synchronisation, and the witnesses of the
-- theorems about them.
use airing_cal.Common.{
  ℕ, suc, ◌≡◌, ◌↔◌, refl, true, ◌||◌, none, some, is_some, List, [], ◌∷◌, Text, units,
  Text-discrete, Result, ok, err, any, occurrences, if◌then◌else◌,
}
use airing_cal.Accounts.{
  ComparisonItem, PatchEntryResult, AccountInfo, Thrown, not_an_error, an_error, UserSummary,
  equals, find_authentication_error,
}
use airing_cal.Accounts.Compare.{
  index_items, distinct_onto, sort_out, sort_out_all, compare_items, compare_settled, summary_of,
}
use airing_cal.Accounts.Partition.{last_with, listings, buckets_of, compare_items-partition}
use airing_cal.Accounts.Entries.{AreSorted, compare_items-AreSorted}
use airing_cal.Accounts.Failures.{compare_settled-compare_items}
use airing_cal.Accounts.Sync.{SyncRequest, or_empty, validate_sync_request, execute_sync}
use airing_cal.Accounts.Outcome.{IsAcceptable, validate_sync_request_iff}
use airing_cal.Accounts.Writes.{Reached, IsSettled, execute_sync-IsSettled, execute_sync_partial}

abbrev item : Text → Text → ℕ → ComparisonItem
item id status progress = record {
  external_id = id;
  title = units "T";
  status = status;
  progress = progress;
  total_episodes = 12;
  score = 7;
  platform = units "bgm";
}

abbrev items_a : List ComparisonItem
items_a =
    item (units "1") (units "watching") 3
    ∷ item (units "2") (units "watching") 5
    ∷ item (units "3") (units "completed") 12
    ∷ []

abbrev items_b : List ComparisonItem
items_b =
    item (units "2") (units "watching") 6
    ∷ item (units "3") (units "completed") 12
    ∷ item (units "4") (units "dropped") 1
    ∷ []

abbrev user : Text → UserSummary
user name = record { name = name; total = 3; error = none }

two_common : (compare_items (user (units "a")) items_a (user (units "b")) items_b).common ≡ 2
unfolding compare_items index_items distinct_onto sort_out sort_out_all Text-discrete
two_common = refl

compare_items-partition_example :
    listings
      (units "2")
      (buckets_of (compare_items (user (units "a")) items_a (user (units "b")) items_b))
    ≡ occurrences
        (is_some (last_with (units "2") items_a) || is_some (last_with (units "2") items_b))
compare_items-partition_example =
    compare_items-partition (user (units "a")) (user (units "b")) items_a items_b (units "2")

compare_items-AreSorted_example :
    AreSorted
      (λ id. last_with id items_a)
      (λ id. last_with id items_b)
      (buckets_of (compare_items (user (units "a")) items_a (user (units "b")) items_b))
compare_items-AreSorted_example =
    compare_items-AreSorted (user (units "a")) (user (units "b")) items_a items_b

abbrev unreachable : Thrown
unreachable = an_error (units "down") (some 503) none (not_an_error (units "undefined"))

abbrev expired : Thrown
expired =
    an_error (units "fetch failed") none none
      (an_error (units "expired") (some 401) none (not_an_error (units "undefined")))

wrapped_authentication_error :
    compare_settled (units "a") (err expired) (units "b") (ok items_b)
    ≡ err (an_error (units "expired") (some 401) none (not_an_error (units "undefined")))
unfolding compare_settled find_authentication_error
wrapped_authentication_error = refl

compare_settled-compare_items_example :
    compare_settled (units "a") (err unreachable) (units "b") (ok items_b)
    ≡ ok (
        compare_items
          (summary_of (units "a") (err unreachable))
          []
          (summary_of (units "b") (ok items_b))
          items_b)
unfolding find_authentication_error
compare_settled-compare_items_example =
    compare_settled-compare_items (units "a") (units "b") (err unreachable) (ok items_b) refl refl

-- A platform is the number of its patches, and the second patch fails.
abbrev patch_entry : ComparisonItem → ℕ → Result Thrown PatchEntryResult × ℕ
patch_entry entry platform =
    if equals entry.external_id (units "2")
    then (err unreachable, suc platform)
    else (ok (record { episode_changed = 1; episode_progress = none }), suc platform)

abbrev get_me : Result Thrown AccountInfo
get_me = ok (record { username = units "a"; external_id = units "9"; platform = units "bgm" })

abbrev fetch_collections : Text → Result Thrown (List ComparisonItem)
fetch_collections _ = ok items_a

abbrev request : SyncRequest
request = record {
  mode = units "partial";
  from = some (units "a");
  to = some (units "b");
  items = none;
  subject_ids = some (units "2" ∷ units "3" ∷ []);
  baseline = none;
}

request-accepted : validate_sync_request request ≡ ok tt
unfolding validate_sync_request Text-discrete
request-accepted = refl

validate_sync_request_iff_example : (validate_sync_request request ≡ ok tt) ↔ IsAcceptable request
validate_sync_request_iff_example = validate_sync_request_iff request

execute_sync-IsSettled_example :
    IsSettled patch_entry get_me fetch_collections request 0
      (execute_sync patch_entry get_me fetch_collections request 0)
execute_sync-IsSettled_example =
    execute_sync-IsSettled patch_entry get_me fetch_collections request 0

execute_sync_partial_example :
    Reached patch_entry
      (λ id. any (equals id) (or_empty request.subject_ids) ≡ true)
      0
      (execute_sync patch_entry get_me fetch_collections request 0).1
unfolding Text-discrete
execute_sync_partial_example =
    execute_sync_partial patch_entry get_me fetch_collections request 0 refl refl
