-- ===== src/Accounts/Compare.antt =====
-- compareAccounts of packages/domain/src/index.ts.
use airing_cal.Common.{
  Bool, false, not, ◌&&◌, Option, none, some, is_some, List, [], ◌∷◌, ◌++◌, Text, Text-discrete,
  units, Result, ok, err, ◌==◌, if◌then◌else◌, any, filter, length, get, set, keys,
}
use airing_cal.Accounts.{
  ComparisonItem, AccountInfo, Thrown, Difference, SameEntry, UserSummary, CompareResult, equals,
  status_label, find_authentication_error, message_of,
}

abbrev pub Items : Type 0
Items = List (Text × ComparisonItem)

-- `new Map(items.map((item) => [item.externalId, item]))`
unfoldable pub index_items : Items → List ComparisonItem → Items
index_items entries [] = entries
index_items entries (item ∷ items) =
    index_items (set Text-discrete item.external_id item entries) items

-- `new Set([...])`, after the ids that are there
unfoldable pub distinct_onto : List Text → List Text → List Text
distinct_onto found [] = found
distinct_onto found (id ∷ ids) =
    distinct_onto (if any (equals id) found then found else found ++ (id ∷ [])) ids

abbrev pub all_ids : Items → Items → List Text
all_ids a b = distinct_onto [] (keys Text-discrete a ++ keys Text-discrete b)

pub record Buckets : Type 0 where
  pub same : List SameEntry
  pub differences : List Difference
  pub only_a : List Difference
  pub only_b : List Difference

abbrev pub no_entries : Buckets
no_entries = record { same = []; differences = []; only_a = []; only_b = [] }

abbrev pub agree : ComparisonItem → ComparisonItem → Bool
agree a b = equals a.status b.status && (a.progress == b.progress) && (a.score == b.score)

abbrev pub same_entry : Text → ComparisonItem → SameEntry
same_entry id a = record {
  external_id = id;
  title = a.title;
  status = status_label a.status;
  progress = a.progress;
  total_episodes = a.total_episodes;
  score = a.score;
}

abbrev pub difference : Text → ComparisonItem → ComparisonItem → Difference
difference id a b = record {
  external_id = id;
  title = if equals a.title [] then b.title else a.title;
  status_a = status_label a.status;
  status_b = status_label b.status;
  progress_a = a.progress;
  progress_b = b.progress;
  score_a = a.score;
  score_b = b.score;
  item_a = some a;
  item_b = some b;
}

abbrev pub only_in_a : Text → ComparisonItem → Difference
only_in_a id a = record {
  external_id = id;
  title = a.title;
  status_a = status_label a.status;
  status_b = units "—";
  progress_a = a.progress;
  progress_b = 0;
  score_a = a.score;
  score_b = 0;
  item_a = some a;
  item_b = none;
}

abbrev pub only_in_b : Text → ComparisonItem → Difference
only_in_b id b = record {
  external_id = id;
  title = b.title;
  status_a = units "—";
  status_b = status_label b.status;
  progress_a = 0;
  progress_b = b.progress;
  score_a = 0;
  score_b = b.score;
  item_a = none;
  item_b = some b;
}

-- One turn of the loop over the ids.
unfoldable pub sort_out : Text → Option ComparisonItem → Option ComparisonItem → Buckets → Buckets
sort_out id none none buckets = buckets
sort_out id (some a) none buckets = record buckets {
  only_a = buckets.only_a ++ (only_in_a id a ∷ []);
}
sort_out id none (some b) buckets = record buckets {
  only_b = buckets.only_b ++ (only_in_b id b ∷ []);
}
sort_out id (some a) (some b) buckets =
    if agree a b
    then record buckets { same = buckets.same ++ (same_entry id a ∷ []) }
    else record buckets { differences = buckets.differences ++ (difference id a b ∷ []) }

unfoldable pub sort_out_all : Items → Items → List Text → Buckets → Buckets
sort_out_all a b [] buckets = buckets
sort_out_all a b (id ∷ ids) buckets =
    sort_out_all a b ids (sort_out id (get Text-discrete id a) (get Text-discrete id b) buckets)

abbrev pub in_both : Items → Items → Text → Bool
in_both a b id = is_some (get Text-discrete id a) && is_some (get Text-discrete id b)

-- The result for two accounts, when not both collections failed.
unfoldable pub compare_items :
    UserSummary → List ComparisonItem → UserSummary → List ComparisonItem → CompareResult
compare_items user_a items_a user_b items_b =
    let a : Items = index_items [] items_a in
    let b : Items = index_items [] items_b in
    let buckets : Buckets = sort_out_all a b (all_ids a b) no_entries in
    record {
      user_a = user_a;
      user_b = user_b;
      common = length (filter (in_both a b) (all_ids a b));
      differences = buckets.differences;
      same = buckets.same;
      only_a = buckets.only_a;
      only_b = buckets.only_b;
    }

-- unwrapCollections
abbrev pub summary_of : Text → Result Thrown (List ComparisonItem) → UserSummary
summary_of name (ok items) = record { name = name; total = length items; error = none }
summary_of name (err thrown) = record { name = name; total = 0; error = some (message_of thrown) }

abbrev pub items_of : Result Thrown (List ComparisonItem) → List ComparisonItem
items_of (ok items) = items
items_of (err _) = []

abbrev pub authentication_error : Result Thrown (List ComparisonItem) → Option Thrown
authentication_error (ok _) = none
authentication_error (err thrown) = find_authentication_error thrown

-- Whether an optional string counts as true.
abbrev pub is_truthy : Option Text → Bool
is_truthy none = false
is_truthy (some text) = not (equals text [])

abbrev pub nothing_fetched : UserSummary → UserSummary → CompareResult
nothing_fetched a b = record {
  user_a = a;
  user_b = b;
  common = 0;
  differences = [];
  same = [];
  only_a = [];
  only_b = [];
}

unfoldable pub compare_settled :
    Text
    → Result Thrown (List ComparisonItem)
    → Text
    → Result Thrown (List ComparisonItem)
    → Result Thrown CompareResult
compare_settled name_a settled_a name_b settled_b = elim (authentication_error settled_a) [
  | some thrown ↦ err thrown
  | none ↦ elim (authentication_error settled_b) [
    | some thrown ↦ err thrown
    | none ↦
        let a : UserSummary = summary_of name_a settled_a in
        let b : UserSummary = summary_of name_b settled_b in
        if is_truthy a.error && is_truthy b.error
        then ok (nothing_fetched a b)
        else ok (compare_items a (items_of settled_a) b (items_of settled_b))
  ]
]

-- What the clients answer is a parameter: who owns each token, and a user's collections. When
-- neither token has an owner, the first account's rejection is taken.
module _ (me_a me_b : Result Thrown AccountInfo)
    (fetch_a fetch_b : Text → Result Thrown (List ComparisonItem)) where
  unfoldable pub compare_accounts : Result Thrown CompareResult
  compare_accounts = elim me_a [
    | err thrown ↦ err thrown
    | ok a ↦ elim me_b [
      | err thrown ↦ err thrown
      | ok b ↦ compare_settled a.username (fetch_a a.username) b.username (fetch_b b.username)
    ]
  ]
