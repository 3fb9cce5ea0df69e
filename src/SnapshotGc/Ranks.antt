-- ===== src/SnapshotGc/Ranks.antt =====
-- The first key of a generation and the number of generations that pass a test, read off the listed
-- keys themselves, and that the index of planPublicSnapshotGc has the same.
use airing_cal.Common.{
  ℕ, ◌+◌, ◌≡◌, refl, ap, inl, inr, Bool, Option, none, some, List, [], ◌∷◌, ◌++◌, map, Text, ◌==◌,
  if◌then◌else◌, is_some, Option-cases, Bool-cases, any, count, arith,
}
use airing_cal.SnapshotGc.{
  parse_generation_from_snapshot_key, candidates_of, find_key, index_generations,
}

abbrev pub generation_of : ℕ × Text → ℕ
generation_of entry = entry.0

module _ (to_number : Text → Option ℕ) where
  -- The first key of the generation.
  abbrev pub first_of : ℕ → List Text → Option Text
  first_of generation [] = none
  first_of generation (key ∷ keys) =
      let rest = first_of generation keys in
      elim (parse_generation_from_snapshot_key to_number key) [
        | none ↦ rest
        | some other ↦ if generation == other then some key else rest
      ]

  -- How many different generations of the keys pass the test, those aside that were seen before.
  abbrev pub different : (ℕ → Bool) → List ℕ → List Text → ℕ
  different test seen [] = 0
  different test seen (key ∷ keys) =
      let same = different test seen keys in
      elim (parse_generation_from_snapshot_key to_number key) [
        | none ↦ same
        | some new ↦
            let rest = different test (seen ++ new ∷ []) keys in
            if any (λ other. new == other) seen then same else (if test new then 1 else 0) + rest
      ]

  pub first_of-candidates_of :
      (generation : ℕ) (keys : List Text)
      → first_of generation (candidates_of to_number keys) ≡ first_of generation keys
  first_of-candidates_of generation [] = refl
  first_of-candidates_of generation (key ∷ keys) =
      elim (Option-cases (parse_generation_from_snapshot_key to_number key)) [
        | inl e ↦ ground (arith, e, first_of-candidates_of generation keys)
        | inr (other, e) ↦ ground (arith, e, first_of-candidates_of generation keys)
      ]

  pub different-candidates_of :
      (test : ℕ → Bool) (seen : List ℕ) (keys : List Text)
      → different test seen (candidates_of to_number keys) ≡ different test seen keys
  different-candidates_of test seen [] = refl
  different-candidates_of test seen (key ∷ keys) =
      elim (Option-cases (parse_generation_from_snapshot_key to_number key)) [
        | inl e ↦ ground (arith, e, different-candidates_of test seen keys)
        | inr (other, e) ↦ ground (
          arith,
          e,
          different-candidates_of test seen keys,
          different-candidates_of test (seen ++ other ∷ []) keys,
        )
      ]

  pub is_some-find_key :
      (generation : ℕ) (entries : List (ℕ × Text))
      → is_some (find_key to_number generation entries)
        ≡ any (λ other. generation == other) (map generation_of entries)
  is_some-find_key generation [] = refl
  is_some-find_key generation (entry ∷ entries) =
      ground (arith, is_some-find_key generation entries)

  map-snoc :
      (new : ℕ × Text) (entries : List (ℕ × Text))
      → map generation_of (entries ++ new ∷ []) ≡ map generation_of entries ++ new.0 ∷ []
  map-snoc new [] = refl
  map-snoc new (entry ∷ entries) = ap (λ l. entry.0 ∷ l) (map-snoc new entries)

  count-snoc :
      (test : ℕ → Bool) (new : ℕ) (l : List ℕ)
      → count test (l ++ new ∷ []) ≡ count test l + (if test new then 1 else 0)
  count-snoc test new [] = ground arith
  count-snoc test new (first ∷ l) = ground (arith, count-snoc test new l)

  pub count-index_generations :
      (test : ℕ → Bool) (entries : List (ℕ × Text)) (keys : List Text)
      → count test (map generation_of (index_generations to_number entries keys))
        ≡ count test (map generation_of entries) + different test (map generation_of entries) keys
  unfolding index_generations
  count-index_generations test entries [] = omega arith
  count-index_generations test entries (key ∷ keys) =
      elim (Option-cases (parse_generation_from_snapshot_key to_number key)) [
        | inl e ↦ ground (arith, e, count-index_generations test entries keys)
        | inr (new, e) ↦ elim (Bool-cases (is_some (find_key to_number new entries))) [
          | inl there ↦ ground (
            arith,
            e,
            there,
            is_some-find_key new entries,
            count-index_generations test entries keys,
          )
          | inr absent ↦
              let longer = count-index_generations test (entries ++ (new, key) ∷ []) keys in
              ground (
                arith,
                e,
                absent,
                is_some-find_key new entries,
                (rw (map-snoc (new, key) entries) at longer),
                count-snoc test new (map generation_of entries),
              )
        ]
      ]

  find_key-snoc :
      (generation : ℕ) (new : ℕ × Text) (entries : List (ℕ × Text))
      → find_key to_number generation (entries ++ new ∷ [])
        ≡ elim (find_key to_number generation entries) [
          | none ↦ if generation == new.0 then some new.1 else none
          | some key ↦ some key
        ]
  find_key-snoc generation new [] = refl
  find_key-snoc generation new (entry ∷ entries) =
      ground (arith, find_key-snoc generation new entries)

  pub find_key-index_generations :
      (generation : ℕ) (entries : List (ℕ × Text)) (keys : List Text)
      → find_key to_number generation (index_generations to_number entries keys)
        ≡ elim (find_key to_number generation entries) [
          | none ↦ first_of generation keys
          | some key ↦ some key
        ]
  unfolding index_generations
  find_key-index_generations generation entries [] =
      elim (Option-cases (find_key to_number generation entries)) [
        | inl e ↦ ground (arith, e)
        | inr (key, e) ↦ ground (arith, e)
      ]
  find_key-index_generations generation entries (key ∷ keys) =
      elim (Option-cases (parse_generation_from_snapshot_key to_number key)) [
        | inl e ↦ ground (arith, e, find_key-index_generations generation entries keys)
        | inr (new, e) ↦ elim (Bool-cases (is_some (find_key to_number new entries))) [
          | inl there ↦ ground (arith, e, there, find_key-index_generations generation entries keys)
          | inr absent ↦ ground (
            arith,
            e,
            absent,
            find_key-index_generations generation (entries ++ (new, key) ∷ []) keys,
            find_key-snoc generation (new, key) entries,
          )
        ]
      ]
