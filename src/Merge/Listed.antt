-- ===== src/Merge/Listed.antt =====
-- The five lists of mergeCollections.
use airing_cal.Common.{
  ℕ, ◌+◌, ◌≡◌, refl, sym, ap, ◌∙◌, inl, inr, Bool, Option, none, some, is_some, List, [], ◌∷◌, ◌++◌,
  Text, ◌==◌, if◌then◌else◌, All, All-append, All-mono, Bool-cases, ℕ_discrete, get, keys, same_key,
  count-keys, All-IsFound, count, count-append, occurrences, arith,
}
use airing_cal.Merge.{BgmCollectionLike, MergedEntry, MergedCollections}
use airing_cal.Merge.Collect.{
  SubjectMaps, latest_by_subject, push_entry, push_entries, no_collections, merge_collections,
}
use airing_cal.Merge.Latest.{
  IsLatest, mentions, get-latest_by_subject, HasDistinctKeys-latest, is_some-newest,
  newest-IsLatest,
}

-- How many entries of the five lists pass the test.
abbrev pub listed : (MergedEntry → Bool) → MergedCollections → ℕ
listed test merged =
    count test merged.want
    + count test merged.watched
    + count test merged.watching
    + count test merged.on_hold
    + count test merged.dropped

listed-push_entry :
    (test : MergedEntry → Bool) (entry : MergedEntry) (merged : MergedCollections)
    → listed test (push_entry entry merged) ≡ listed test merged + (if test entry then 1 else 0)
unfolding push_entry
listed-push_entry test entry merged = ground (
  arith,
  count-append test merged.want (entry ∷ []),
  count-append test merged.watched (entry ∷ []),
  count-append test merged.watching (entry ∷ []),
  count-append test merged.on_hold (entry ∷ []),
  count-append test merged.dropped (entry ∷ []),
)

-- The list of a collection type, by the type that it is for.
abbrev pub place : ℕ → ℕ
place type =
    if type == 2
    then 2
    else if type == 3
    then 3
    else if type == 4
    then 4
    else if type == 5
    then 5
    else 1

module _ (P : MergedEntry → Type 0) where
  abbrev InPlace : ℕ → MergedEntry → Type 0
  InPlace type entry = P entry × (place entry.collection_type ≡ type)

  -- Every entry has the property, and stands in the list of its type.
  abbrev pub InAll : MergedCollections → Type 0
  InAll merged =
      All (InPlace 1) merged.want
      × All (InPlace 2) merged.watched
      × All (InPlace 3) merged.watching
      × All (InPlace 4) merged.on_hold
      × All (InPlace 5) merged.dropped

  InAll-push_entry :
      (entry : MergedEntry) (merged : MergedCollections)
      → P entry
      → InAll merged
      → InAll (push_entry entry merged)
  unfolding push_entry
  InAll-push_entry entry merged p h = elim (Bool-cases (entry.collection_type == 2)) [
    | inl e ↦ rw (e, push_entry) (h.0, pushed 2 merged.watched (rw e refl) h.1, h.2, h.3, h.4)
    | inr e ↦ elim (Bool-cases (entry.collection_type == 3)) [
      | inl f ↦
          rw (e, push_entry)
            (rw f (h.0, h.1, pushed 3 merged.watching (rw e (rw f refl)) h.2, h.3, h.4))
      | inr f ↦ elim (Bool-cases (entry.collection_type == 4)) [
        | inl g ↦
            rw (e, push_entry)
              (rw f
                (rw g (h.0, h.1, h.2, pushed 4 merged.on_hold (rw e (rw f (rw g refl))) h.3, h.4)))
        | inr g ↦ elim (Bool-cases (entry.collection_type == 5)) [
          | inl i ↦
              rw (e, push_entry)
                (rw f (
                  rw g (
                    rw i (
                      h.0,
                      h.1,
                      h.2,
                      h.3,
                      pushed 5 merged.dropped (rw e (rw f (rw g (rw i refl)))) h.4,
                    ))))
          | inr i ↦
              rw (e, push_entry)
                (rw f (
                  rw g (
                    rw i (
                      pushed 1 merged.want (rw e (rw f (rw g (rw i refl)))) h.0,
                      h.1,
                      h.2,
                      h.3,
                      h.4,
                    ))))
        ]
      ]
    ]
  ]
    where
      pushed :
          (type : ℕ) (entries : List MergedEntry)
          → place entry.collection_type ≡ type
          → All (InPlace type) entries
          → All (InPlace type) (entries ++ (entry ∷ []))
      pushed type entries placed held =
          All-append (InPlace type) entries (entry ∷ []) held ((p, placed), tt)

  InAll-push_entries :
      (entries : List (ℕ × MergedEntry)) (merged : MergedCollections)
      → All (λ entry. P entry.1) entries
      → InAll merged
      → InAll (push_entries entries merged)
  unfolding push_entries
  InAll-push_entries [] merged _ h = h
  InAll-push_entries ((_, entry) ∷ entries) merged (p, ps) h =
      InAll-push_entries entries (push_entry entry merged) ps (InAll-push_entry entry merged p h)

listed-push_entries :
    (id : ℕ) (entries : List (ℕ × MergedEntry)) (merged : MergedCollections)
    → All (λ entry. entry.1.subject_id ≡ entry.0) entries
    → listed (λ e. same_key ℕ_discrete id e.subject_id) (push_entries entries merged)
      ≡ listed (λ e. same_key ℕ_discrete id e.subject_id) merged
        + count (same_key ℕ_discrete id) (keys ℕ_discrete entries)
unfolding push_entries
listed-push_entries id [] merged h = omega arith
listed-push_entries id ((key, entry) ∷ entries) merged (same, h) =
    listed-push_entries id entries (push_entry entry merged) h
    ∙ rw (listed-push_entry (λ e. same_key ℕ_discrete id e.subject_id) entry merged)
        (rw same (omega arith))

module _ (parse : Text → Option ℕ) (maps : SubjectMaps) (cs : List BgmCollectionLike) where
  All-IsLatest :
      All
        (λ entry. (entry.1.subject_id ≡ entry.0) × IsLatest parse maps cs entry.1)
        (latest_by_subject parse maps [] cs)
  All-IsLatest =
      All-mono (λ entry. get ℕ_discrete entry.0 (latest_by_subject parse maps [] cs) ≡ some entry.1)
        (λ entry. (entry.1.subject_id ≡ entry.0) × IsLatest parse maps cs entry.1)
        (λ entry found.
          newest-IsLatest parse maps entry.0 cs entry.1
            (sym (get-latest_by_subject parse maps entry.0 [] cs) ∙ found))
        (latest_by_subject parse maps [] cs)
        (All-IsFound ℕ_discrete (latest_by_subject parse maps [] cs)
          (HasDistinctKeys-latest parse maps [] cs tt))

  -- Each subject that the collections mention has one entry in the five lists, and no other has any;
  -- every entry stands in the list of its type and is made of a collection of its subject than which
  -- none of the subject is later.
  pub merge_collections-IsLatest :
      (now : Text)
      → ((id : ℕ)
          → listed (λ e. same_key ℕ_discrete id e.subject_id) (merge_collections parse maps now cs)
            ≡ occurrences (mentions parse maps id cs))
        × InAll (IsLatest parse maps cs) (merge_collections parse maps now cs)
  unfolding merge_collections
  merge_collections-IsLatest now = (
    (λ id. omega (
      arith,
      listed-push_entries id (latest_by_subject parse maps [] cs) (no_collections now)
          (All-mono _ (λ entry. entry.1.subject_id ≡ entry.0) (λ entry h. h.0) _ All-IsLatest),
      count-keys ℕ_discrete id (latest_by_subject parse maps [] cs)
            (HasDistinctKeys-latest parse maps [] cs tt)
          ∙ ap occurrences (
              ap is_some (get-latest_by_subject parse maps id [] cs)
              ∙ is_some-newest parse maps id none cs),
    )),
    InAll-push_entries (IsLatest parse maps cs) (latest_by_subject parse maps [] cs)
        (no_collections now)
        (All-mono _ (λ entry. IsLatest parse maps cs entry.1) (λ entry h. h.1) _ All-IsLatest)
        (tt, tt, tt, tt, tt),
  )
