-- ===== src/SnapshotGc.antt =====
-- planPublicSnapshotGc of packages/v3-core/src/public-snapshot-gc.ts: which snapshots are kept and
-- which are deleted. A Set and the keys of a Map are lists without repetition, in the order in which
-- they were filled.
pub mod Kept
mod Ranks
mod Descending
mod Newest
mod Examples
use airing_cal.Common.{
  ℕ, ◌+◌, ◌-◌, ◌*◌, Bool, true, false, not, ◌&&◌, ◌||◌, Option, none, some, List, [], ◌∷◌, ◌++◌,
  map, Text, Text-discrete, text_lt, units, ltb, leb, ◌==◌, if◌then◌else◌, holds, is_some, any,
  filter, take, drop, length, sort,
}

-- The options, with their defaults filled in.
pub record PublicSnapshotGcOptions : Type 0 where
  pub snapshot_keys : List Text
  pub current_artifact_ref : Option Text
  pub pinned_artifact_refs : List Text
  pub min_generations : ℕ
  pub min_age_days : ℕ
  pub now_unix : ℕ
  pub published_at_unix_by_key : Text → Option ℕ
  pub rollback_generations : ℕ

pub record PublicSnapshotGcPlan : Type 0 where
  pub keep : List Text
  pub delete : List Text

abbrev pub contains : Text → List Text → Bool
contains key = any (λ other. holds (Text-discrete key other))

abbrev pub starts_with : Text → Text → Bool
starts_with text prefix = holds (Text-discrete (take (length prefix) text) prefix)

abbrev ends_with : Text → Text → Bool
ends_with text suffix =
    leb (length suffix) (length text)
    && holds (Text-discrete (drop (length text - length suffix) text) suffix)

-- What stands before the first dash, if there is one.
abbrev pub before_dash : Text → Option Text
before_dash [] = none
before_dash (c ∷ cs) =
    if c == b'-'
    then some []
    else elim (before_dash cs) [ none ↦ none | some stem ↦ some (c ∷ stem) ]

-- A positive safe integer.
abbrev is_generation : ℕ → Bool
is_generation generation = ltb 0 generation && leb generation 9007199254740991

-- `to_number` is `Number` on the texts that it converts to a natural.
module _ (to_number : Text → Option ℕ) where
  unfoldable pub parse_generation_from_snapshot_key : Text → Option ℕ
  parse_generation_from_snapshot_key key =
      if not (starts_with key (units "snapshots/v1/")) || not (ends_with key (units ".json"))
      then none
      else elim (before_dash (take (length key - 18) (drop 13 key))) [
        | none ↦ none
        | some [] ↦ none
        | some (c ∷ cs) ↦ elim (to_number (c ∷ cs)) [
          | none ↦ none
          | some generation ↦ if is_generation generation then some generation else none
        ]
      ]

  abbrev pub candidates_of : List Text → List Text
  candidates_of keys = filter (λ key. is_some (parse_generation_from_snapshot_key key)) keys

  -- The first key of each generation, by generation.
  abbrev pub find_key : ℕ → List (ℕ × Text) → Option Text
  find_key generation [] = none
  find_key generation ((other, key) ∷ entries) =
      if generation == other then some key else find_key generation entries

  unfoldable pub index_generations : List (ℕ × Text) → List Text → List (ℕ × Text)
  index_generations entries [] = entries
  index_generations entries (key ∷ keys) = elim (parse_generation_from_snapshot_key key) [
    | none ↦ index_generations entries keys
    | some generation ↦
        let longer = index_generations (entries ++ (generation, key) ∷ []) keys in
        let same = index_generations entries keys in
        if is_some (find_key generation entries) then same else longer
  ]

  -- `keep.add`
  abbrev pub add : Text → List Text → List Text
  add key keep = if contains key keep then keep else keep ++ key ∷ []

  unfoldable pub add_all : List Text → List Text → List Text
  add_all [] keep = keep
  add_all (key ∷ keys) keep = add_all keys (add key keep)

  abbrev pub keys_of : List (ℕ × Text) → List ℕ → List Text
  keys_of entries [] = []
  keys_of entries (generation ∷ generations) =
      let rest = keys_of entries generations in
      elim (find_key generation entries) [ none ↦ rest | some key ↦ key ∷ rest ]

  -- `if (options.currentArtifactRef)`
  abbrev pub current_keys : Option Text → List Text
  current_keys none = []
  current_keys (some []) = []
  current_keys (some (c ∷ cs)) = (c ∷ cs) ∷ []

  abbrev pub current_generation : Option Text → Option ℕ
  current_generation none = parse_generation_from_snapshot_key []
  current_generation (some key) = parse_generation_from_snapshot_key key

  abbrev pub is_below : Option ℕ → ℕ → Bool
  is_below none generation = true
  is_below (some current) generation = ltb generation current

  abbrev pub sorted_generations : PublicSnapshotGcOptions → List ℕ
  sorted_generations options =
      sort (λ a b. ltb b a)
        (map (λ entry. entry.0) (index_generations [] (candidates_of options.snapshot_keys)))

  -- The generations that are kept for a rollback, and the newest ones.
  abbrev pub rollback_of : PublicSnapshotGcOptions → List ℕ
  rollback_of options = take options.rollback_generations (
      filter (is_below (current_generation options.current_artifact_ref))
        (sorted_generations options))

  abbrev pub newest_of : PublicSnapshotGcOptions → List ℕ
  newest_of options = take options.min_generations (sorted_generations options)

  -- `nowUnix - published < minAgeSeconds`
  abbrev pub is_recent : PublicSnapshotGcOptions → Text → Bool
  is_recent options key = elim (options.published_at_unix_by_key key) [
    | none ↦ false
    | some published ↦ ltb options.now_unix (options.min_age_days * 86400 + published)
  ]

  abbrev pub keys_of_generations : PublicSnapshotGcOptions → List ℕ → List Text
  keys_of_generations options = keys_of (index_generations [] (candidates_of options.snapshot_keys))

  -- The Set `keep`.
  unfoldable pub kept : PublicSnapshotGcOptions → List Text
  unfolding add_all
  kept options = add_all (filter (is_recent options) (candidates_of options.snapshot_keys)) (
      add_all (keys_of_generations options (newest_of options)) (
        add_all (keys_of_generations options (rollback_of options)) (
          add_all options.pinned_artifact_refs
            (add_all (current_keys options.current_artifact_ref) []))))

  -- planPublicSnapshotGc
  unfoldable pub plan_public_snapshot_gc : PublicSnapshotGcOptions → PublicSnapshotGcPlan
  unfolding kept
  plan_public_snapshot_gc options = record {
    keep = sort text_lt (kept options);
    delete =
        sort text_lt
          (filter (λ key. not (contains key (kept options))) (candidates_of options.snapshot_keys));
  }
