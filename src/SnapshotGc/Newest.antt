-- ===== src/SnapshotGc/Newest.antt =====
-- That a generation with few newer ones is among the kept ones of planPublicSnapshotGc.
use airing_cal.Common.{
  ℕ, ◌<◌, ◌≡◌, ap, filter, ◌∙◌, Bool, true, ◌&&◌, Option, none, some, List, [], Text, ltb, ◌==◌,
  any-sort, map, count, count-sort, inl, inr, Option-cases, arith,
}
use airing_cal.SnapshotGc.{
  PublicSnapshotGcOptions, parse_generation_from_snapshot_key, candidates_of, find_key,
  index_generations, sorted_generations, newest_of, rollback_of, current_generation, is_below,
}
use airing_cal.SnapshotGc.Ranks.{
  generation_of, first_of, different, first_of-candidates_of, different-candidates_of,
  is_some-find_key, count-index_generations, find_key-index_generations,
}
use airing_cal.SnapshotGc.Descending.{
  greater, has, any-take, IsDescending-sort, IsDescending-filter, count-filter, count-same,
  has-filter, has-flip,
}

module _ (to_number : Text → Option ℕ) where
  -- The generation is below the current snapshot's, if that is a snapshot with a generation.
  abbrev pub is_before : Option Text → ℕ → Bool
  is_before none generation = true
  is_before (some current) generation =
      elim (parse_generation_from_snapshot_key to_number current) [
        | none ↦ true
        | some newest ↦ ltb generation newest
      ]

  is_below-is_before :
      (current : Option Text) (generation : ℕ)
      → is_below to_number (current_generation to_number current) generation
        ≡ is_before current generation
  unfolding parse_generation_from_snapshot_key
  is_below-is_before none generation = ground arith
  is_below-is_before (some current) generation =
      elim (Option-cases (parse_generation_from_snapshot_key to_number current)) [
        | inl e ↦ ground (arith, e)
        | inr (newest, e) ↦ ground (arith, e)
      ]

  module _ (options : PublicSnapshotGcOptions) (generation : ℕ) (key : Text) where
    pub find_key-first_of :
        first_of to_number generation options.snapshot_keys ≡ some key
        → find_key to_number generation
            (index_generations to_number [] (candidates_of to_number options.snapshot_keys))
          ≡ some key
    find_key-first_of first =
        find_key-index_generations to_number generation []
          (candidates_of to_number options.snapshot_keys)
        ∙ (first_of-candidates_of to_number generation options.snapshot_keys ∙ first)

    has-sorted_generations :
        first_of to_number generation options.snapshot_keys ≡ some key
        → has generation (sorted_generations to_number options) ≡ true
    has-sorted_generations first = ground (
      arith,
      any-sort greater (λ other. other == generation)
          (map generation_of
            (index_generations to_number [] (candidates_of to_number options.snapshot_keys))),
      has-flip generation (
          map generation_of
            (index_generations to_number [] (candidates_of to_number options.snapshot_keys))),
      is_some-find_key to_number generation
          (index_generations to_number [] (candidates_of to_number options.snapshot_keys)),
      find_key-first_of first,
    )

  count-sorted_generations :
      (options : PublicSnapshotGcOptions) (test : ℕ → Bool)
      → count test (sorted_generations to_number options)
        ≡ different to_number test [] options.snapshot_keys
  count-sorted_generations options test = ground (
    arith,
    count-sort test greater (
        map generation_of
          (index_generations to_number [] (candidates_of to_number options.snapshot_keys))),
    count-index_generations to_number test [] (candidates_of to_number options.snapshot_keys),
    different-candidates_of to_number test [] options.snapshot_keys,
  )

  module _ (options : PublicSnapshotGcOptions) (generation : ℕ) (key : Text)
      (first : first_of to_number generation options.snapshot_keys ≡ some key) where
    pub has-newest_of :
        different to_number (λ other. ltb generation other) [] options.snapshot_keys
          < options.min_generations
        → has generation (newest_of to_number options) ≡ true
    has-newest_of few =
        any-take generation options.min_generations (sorted_generations to_number options)
          (IsDescending-sort _) (has-sorted_generations options generation key first)
          (omega (arith, count-sorted_generations options (λ other. ltb generation other)))

    -- The same with the generations of and after the current snapshot left out.
    pub has-rollback_of :
        is_before options.current_artifact_ref generation ≡ true
        → different to_number
            (λ other. ltb generation other && is_before options.current_artifact_ref other)
            []
            options.snapshot_keys
          < options.rollback_generations
        → has generation (rollback_of to_number options) ≡ true
    has-rollback_of before few =
        let below : ℕ → Bool =
          is_below to_number (current_generation to_number options.current_artifact_ref) in
        let sorted : List ℕ = sorted_generations to_number options in
        any-take generation options.rollback_generations (filter below sorted)
          (IsDescending-filter below sorted (IsDescending-sort _))
          (has-filter generation below sorted
            (is_below-is_before options.current_artifact_ref generation ∙ before)
            (has-sorted_generations options generation key first))
          (omega (
            arith,
            count-filter below (λ other. ltb generation other) sorted,
            count-same (λ other. ltb generation other && below other)
                (λ other. ltb generation other && is_before options.current_artifact_ref other)
                (λ other.
                  ap (λ b. ltb generation other && b)
                    (is_below-is_before options.current_artifact_ref other))
                sorted,
            count-sorted_generations options
                (λ other. ltb generation other && is_before options.current_artifact_ref other),
          ))
