-- ===== src/SnapshotGc/Kept.antt =====
-- What the collection of snapshots deletes, and what it never does.
use airing_cal.Common.{
  ℕ, ◌+◌, ◌*◌, ◌<◌, ltb, is_some, ◌≡◌, refl, sym, ◌∙◌, inl, inr, subst, Bool, true, false, not,
  ◌&&◌, ◌||◌, Option, some, List, [], ◌∷◌, Text, Text-discrete, text_lt, ◌==◌, holds, holds-sound,
  Bool-cases, any, any-append, any-sort, filter, arith,
}
use airing_cal.SnapshotGc.Ranks.{first_of, different}
use airing_cal.SnapshotGc.Newest.{is_before, find_key-first_of, has-newest_of, has-rollback_of}
use airing_cal.SnapshotGc.{
  PublicSnapshotGcOptions, contains, candidates_of, find_key, add, add_all, keys_of, current_keys,
  newest_of, rollback_of, parse_generation_from_snapshot_key, is_recent, keys_of_generations, kept,
  plan_public_snapshot_gc,
}

abbrev same : Text → Text → Bool
same key other = holds (Text-discrete key other)

same_refl : (key : Text) → same key key ≡ true
same_refl key = ground arith

contains-filter :
    (test : Text → Bool) (key : Text) (keys : List Text)
    → contains key (filter test keys) ≡ test key && contains key keys
contains-filter test key [] = ground arith
contains-filter test key (other ∷ keys) = elim (Bool-cases (same key other)) [
  | inl e ↦
      rw (holds-sound (Text-discrete key other) e)
        (ground (arith, contains-filter test other keys, same_refl other))
  | inr e ↦ ground (arith, contains-filter test key keys)
]

module _ (to_number : Text → Option ℕ) where
  contains-add :
      (key new : Text) (keep : List Text)
      → contains key (add to_number new keep) ≡ same key new || contains key keep
  contains-add key new keep = elim (Bool-cases (contains new keep)) [
    | inl there ↦ rw there (elim (Bool-cases (same key new)) [
      | inl e ↦ ground (
        arith,
        subst (λ k. contains k keep ≡ true) (sym (holds-sound (Text-discrete key new) e)) there,
      )
      | inr e ↦ ground arith
    ])
    | inr absent ↦ rw absent (ground (arith, any-append (same key) keep (new ∷ [])))
  ]

  contains-add_all :
      (key : Text) (keys keep : List Text)
      → contains key (add_all to_number keys keep) ≡ contains key keys || contains key keep
  unfolding add_all
  contains-add_all key [] keep = refl
  contains-add_all key (new ∷ keys) keep =
      ground (arith, contains-add_all key keys (add to_number new keep), contains-add key new keep)

  contains-added :
      (key : Text) (a b c d e : List Text)
      → contains key (
          add_all to_number a (
            add_all to_number b
              (add_all to_number c (add_all to_number d (add_all to_number e [])))))
        ≡ contains key a
          || (contains key b || (contains key c || (contains key d || contains key e)))
  contains-added key a b c d e = ground (
    arith,
    contains-add_all key a
        (add_all to_number b (add_all to_number c (add_all to_number d (add_all to_number e [])))),
    contains-add_all key b (add_all to_number c (add_all to_number d (add_all to_number e []))),
    contains-add_all key c (add_all to_number d (add_all to_number e [])),
    contains-add_all key d (add_all to_number e []),
    contains-add_all key e [],
  )

  current_contained :
      (key : Text) (current : Option Text)
      → current ≡ some key
      → ((key ≡ []) → ⊥)
      → contains key (current_keys to_number current) ≡ true
  current_contained [] current e present = elim (present refl) [ ]
  current_contained (c ∷ cs) current e present = rw e (ground (arith, same_refl (c ∷ cs)))

  keys_of-contains :
      (generation : ℕ) (key : Text) (entries : List (ℕ × Text)) (generations : List ℕ)
      → any (λ other. other == generation) generations ≡ true
      → find_key to_number generation entries ≡ some key
      → contains key (keys_of to_number entries generations) ≡ true
  keys_of-contains generation key entries [] h e = ground arith
  keys_of-contains generation key entries (first ∷ generations) h e =
      ground (arith, keys_of-contains generation key entries generations, same_refl key)

  module _ (options : PublicSnapshotGcOptions) where
    -- What keeps a snapshot: that it is current or pinned; that it is the first of its generation and
    -- fewer generations than are to be kept are newer, or fewer than are kept for a rollback are
    -- newer and below the current snapshot's, as its own is; or that it was published less than the
    -- least age ago.
    pub data IsProtected (key : Text) : Type 0 where
      is_current : options.current_artifact_ref ≡ some key → ((key ≡ []) → ⊥) → IsProtected key
      is_pinned : contains key options.pinned_artifact_refs ≡ true → IsProtected key
      is_newest :
          (generation : ℕ)
          → first_of to_number generation options.snapshot_keys ≡ some key
          → different to_number (λ other. ltb generation other) [] options.snapshot_keys
            < options.min_generations
          → IsProtected key
      is_for_rollback :
          (generation : ℕ)
          → first_of to_number generation options.snapshot_keys ≡ some key
          → is_before to_number options.current_artifact_ref generation ≡ true
          → different to_number
              (λ other.
                ltb generation other && is_before to_number options.current_artifact_ref other)
              []
              options.snapshot_keys
            < options.rollback_generations
          → IsProtected key
      is_new :
          (generation published : ℕ)
          → contains key options.snapshot_keys ≡ true
          → parse_generation_from_snapshot_key to_number key ≡ some generation
          → options.published_at_unix_by_key key ≡ some published
          → options.now_unix < published + options.min_age_days * 86400
          → IsProtected key

    kept_parts :
        (key : Text)
        → contains key (kept to_number options)
          ≡ contains key
              (filter (is_recent to_number options) (candidates_of to_number options.snapshot_keys))
            || (contains key (keys_of_generations to_number options (newest_of to_number options))
                || (contains key
                      (keys_of_generations to_number options (rollback_of to_number options))
                    || (contains key options.pinned_artifact_refs
                        || contains key (current_keys to_number options.current_artifact_ref))))
    unfolding kept
    kept_parts key =
        contains-added key
          (filter (is_recent to_number options) (candidates_of to_number options.snapshot_keys))
          (keys_of_generations to_number options (newest_of to_number options))
          (keys_of_generations to_number options (rollback_of to_number options))
          options.pinned_artifact_refs (current_keys to_number options.current_artifact_ref)

    is_recent-young :
        (key : Text) (published : ℕ)
        → options.published_at_unix_by_key key ≡ some published
        → options.now_unix < published + options.min_age_days * 86400
        → is_recent to_number options key ≡ true
    is_recent-young key published known young = ground (arith, known)

    protected_kept : (key : Text) → IsProtected key → contains key (kept to_number options) ≡ true
    protected_kept key (is_current e present) =
        ground (arith, kept_parts key, current_contained key options.current_artifact_ref e present)
    protected_kept key (is_pinned h) = ground (arith, kept_parts key)
    protected_kept key (is_newest generation first few) = ground (
      arith,
      kept_parts key,
      keys_of-contains generation key _ _ (has-newest_of to_number options generation key first few)
          (find_key-first_of to_number options generation key first),
    )
    protected_kept key (is_for_rollback generation first before few) = ground (
      arith,
      kept_parts key,
      keys_of-contains generation key _ _
          (has-rollback_of to_number options generation key first before few)
          (find_key-first_of to_number options generation key first),
    )
    protected_kept key (is_new generation published there parsed known young) = ground (
      arith,
      kept_parts key,
      contains-filter (is_recent to_number options) key
          (candidates_of to_number options.snapshot_keys),
      contains-filter (λ other. is_some (parse_generation_from_snapshot_key to_number other)) key
          options.snapshot_keys,
      parsed,
      is_recent-young key published known young,
    )

    -- A snapshot key is deleted exactly when it is a snapshot's and is not kept.
    pub deleted_exactly :
        (key : Text)
        → contains key (plan_public_snapshot_gc to_number options).delete
          ≡ contains key (candidates_of to_number options.snapshot_keys)
            && not (contains key (plan_public_snapshot_gc to_number options).keep)
    unfolding plan_public_snapshot_gc
    deleted_exactly key = ground (
      arith,
      any-sort text_lt (same key) (kept to_number options),
      any-sort text_lt (same key) (
          filter (λ other. not (contains other (kept to_number options)))
            (candidates_of to_number options.snapshot_keys)),
      contains-filter (λ other. not (contains other (kept to_number options))) key
          (candidates_of to_number options.snapshot_keys),
    )

    -- A protected key is kept and not deleted: the current one; a pinned one; a listed snapshot that
    -- was published less than the least age ago; and the first listed key of a generation when fewer
    -- than minGenerations different listed generations are newer, or when it is below the current
    -- snapshot's generation, if that has one, and fewer than rollbackGenerations that are below it
    -- are newer.
    pub protected_not_deleted :
        (key : Text)
        → IsProtected key
        → (contains key (plan_public_snapshot_gc to_number options).keep ≡ true)
          × (contains key (plan_public_snapshot_gc to_number options).delete ≡ false)
    unfolding plan_public_snapshot_gc
    protected_not_deleted key h =
        let keeps : contains key (plan_public_snapshot_gc to_number options).keep ≡ true =
          any-sort text_lt (same key) (kept to_number options) ∙ protected_kept key h in
        (keeps, deleted_exactly key ∙ ground arith)
