-- ===== src/Merge/Latest.antt =====
-- Which entry of a subject mergeCollections keeps.
use airing_cal.Common.{
  ℕ, ◌≤◌, ◌≡◌, refl, sym, ap, subst, ◌∙◌, ◌⊎◌, inl, inr, Bool, true, false, Option, none, some,
  is_some, List, [], ◌∷◌, Text, ltb, ◌||◌, if◌then◌else◌, any, All, Bool-cases, Option-cases,
  ℕ_discrete, get, get-set, get-same, same_key, HasDistinctKeys, set-HasDistinctKeys, holds-sound,
  same_key_refl, true-false, some-inj, some-none, arith,
}
use airing_cal.Merge.{BgmCollectionLike, MergedEntry}
use airing_cal.Merge.Collect.{
  SubjectMaps, to_merged_entry, to_timestamp, keep_latest, latest_by_subject,
}

-- A property of some element.
abbrev pub Some : {A : Type 0} → (A → Type 0) → List A → Type 0
Some P [] = ⊥
Some P (x ∷ xs) = P x ⊎ Some P xs

module _ (parse : Text → Option ℕ) (maps : SubjectMaps) where
  abbrev time : BgmCollectionLike → ℕ
  time collection = to_timestamp parse collection.updated_at

  -- What one turn of the loop makes of the entry of one subject.
  abbrev pick : Option MergedEntry → BgmCollectionLike → Option MergedEntry
  pick none c = some (to_merged_entry maps c)
  pick (some e) c =
      if ltb (to_timestamp parse e.updated_at) (time c)
      then some (to_merged_entry maps c)
      else some e

  pub newest : ℕ → Option MergedEntry → List BgmCollectionLike → Option MergedEntry
  newest id found [] = found
  newest id found (c ∷ cs) =
      newest id (if same_key ℕ_discrete id c.subject_id then pick found c else found) cs

  -- What is found under an id that is equal to the collection's.
  picked :
      (id : ℕ) (latest : List (ℕ × MergedEntry)) (c : BgmCollectionLike)
      (found : Option MergedEntry)
      → get ℕ_discrete c.subject_id latest ≡ found
      → (if same_key ℕ_discrete id c.subject_id then pick found c else get ℕ_discrete id latest) ≡ (
          if same_key ℕ_discrete id c.subject_id
          then pick (get ℕ_discrete id latest) c
          else get ℕ_discrete id latest)
  picked id latest c found e = elim (Bool-cases (same_key ℕ_discrete id c.subject_id)) [
    | inr f ↦ rw f refl
    | inl f ↦
        rw f (ap (λ entry. pick entry c) (sym (get-same ℕ_discrete id c.subject_id latest f ∙ e)))
  ]

  get-keep_latest :
      (id : ℕ) (latest : List (ℕ × MergedEntry)) (c : BgmCollectionLike)
      → get ℕ_discrete id (keep_latest parse maps latest c) ≡ (
          if same_key ℕ_discrete id c.subject_id
          then pick (get ℕ_discrete id latest) c
          else get ℕ_discrete id latest)
  unfolding keep_latest
  get-keep_latest id latest c = elim (Option-cases (get ℕ_discrete c.subject_id latest)) [
    | inl e ↦
        rw (e, keep_latest)
          (get-set ℕ_discrete c.subject_id id (to_merged_entry maps c) latest
            ∙ picked id latest c none e)
    | inr (existing, e) ↦
        elim (Bool-cases (ltb (to_timestamp parse existing.updated_at) (time c))) [
          | inl newer ↦
              rw (e, keep_latest)
                (rw newer (
                  get-set ℕ_discrete c.subject_id id (to_merged_entry maps c) latest
                  ∙ (rw newer at (picked id latest c (some existing) e))))
          | inr older ↦
              rw (e, keep_latest)
                (rw older (kept existing e ∙ (rw older at (picked id latest c (some existing) e))))
        ]
  ]
    where
      kept :
          (existing : MergedEntry)
          → get ℕ_discrete c.subject_id latest ≡ some existing
          → get ℕ_discrete id latest ≡ (
              if same_key ℕ_discrete id c.subject_id
              then some existing
              else get ℕ_discrete id latest)
      kept existing e = elim (Bool-cases (same_key ℕ_discrete id c.subject_id)) [
        | inr f ↦ rw f refl
        | inl f ↦ rw f (get-same ℕ_discrete id c.subject_id latest f ∙ e)
      ]

  pub get-latest_by_subject :
      (id : ℕ) (latest : List (ℕ × MergedEntry)) (cs : List BgmCollectionLike)
      → get ℕ_discrete id (latest_by_subject parse maps latest cs)
        ≡ newest id (get ℕ_discrete id latest) cs
  unfolding latest_by_subject newest
  get-latest_by_subject id latest [] = refl
  get-latest_by_subject id latest (c ∷ cs) =
      get-latest_by_subject id (keep_latest parse maps latest c) cs
      ∙ ap (λ found. newest id found cs) (get-keep_latest id latest c)

  pub HasDistinctKeys-latest :
      (latest : List (ℕ × MergedEntry)) (cs : List BgmCollectionLike)
      → HasDistinctKeys ℕ_discrete latest
      → HasDistinctKeys ℕ_discrete (latest_by_subject parse maps latest cs)
  unfolding latest_by_subject keep_latest
  HasDistinctKeys-latest latest [] h = h
  HasDistinctKeys-latest latest (c ∷ cs) h =
      HasDistinctKeys-latest (keep_latest parse maps latest c) cs
        (elim (Option-cases (get ℕ_discrete c.subject_id latest)) [
          | inl e ↦ rw (e, keep_latest) (set-HasDistinctKeys ℕ_discrete c.subject_id _ latest h)
          | inr (existing, e) ↦
              elim (Bool-cases (ltb (to_timestamp parse existing.updated_at) (time c))) [
                | inl newer ↦
                    rw (e, keep_latest)
                      (rw newer (set-HasDistinctKeys ℕ_discrete c.subject_id _ latest h))
                | inr older ↦ rw (e, keep_latest) (rw older h)
              ]
        ])

  IsOf : ℕ → MergedEntry → BgmCollectionLike → Type 0
  IsOf id entry c = (c.subject_id ≡ id) × (entry ≡ to_merged_entry maps c)

  pick-source :
      (found : Option MergedEntry) (c : BgmCollectionLike) (entry : MergedEntry)
      → pick found c ≡ some entry
      → (found ≡ some entry) ⊎ (entry ≡ to_merged_entry maps c)
  pick-source none c entry h = inr (sym (some-inj h))
  pick-source (some e) c entry h =
      elim (Bool-cases (ltb (to_timestamp parse e.updated_at) (time c))) [
        | inl newer ↦ inr (sym (some-inj (rw newer at h)))
        | inr older ↦ inl (rw older at h)
      ]

  newest-source :
      (id : ℕ) (found : Option MergedEntry) (cs : List BgmCollectionLike) (entry : MergedEntry)
      → newest id found cs ≡ some entry
      → (found ≡ some entry) ⊎ Some (IsOf id entry) cs
  unfolding newest IsOf
  newest-source id found [] entry h = inl h
  newest-source id found (c ∷ cs) entry h =
      elim (Bool-cases (same_key ℕ_discrete id c.subject_id)) [
        | inr e ↦ later (newest-source id found cs entry (rw (e, newest) at h))
        | inl e ↦ elim (newest-source id (pick found c) cs entry (rw (e, newest) at h)) [
          | inr there ↦ inr (inr there)
          | inl here ↦ elim (pick-source found c entry here) [
            | inl before ↦ inl before
            | inr made ↦ inr (inl (sym (holds-sound (ℕ_discrete id c.subject_id) e), made))
          ]
        ]
      ]
    where
      later :
          (found ≡ some entry) ⊎ Some (IsOf id entry) cs
          → (found ≡ some entry) ⊎ Some (IsOf id entry) (c ∷ cs)
      later (inl before) = inl before
      later (inr there) = inr (inr there)

  abbrev IsNoLater : Option MergedEntry → MergedEntry → Type 0
  IsNoLater none entry = Unit
  IsNoLater (some e) entry = to_timestamp parse e.updated_at ≤ to_timestamp parse entry.updated_at

  pick-bound :
      (found : Option MergedEntry) (c : BgmCollectionLike) (entry : MergedEntry)
      → IsNoLater (pick found c) entry
      → IsNoLater found entry × (time c ≤ to_timestamp parse entry.updated_at)
  unfolding to_merged_entry
  pick-bound none c entry h = (tt, h)
  pick-bound (some e) c entry h =
      elim (Bool-cases (ltb (to_timestamp parse e.updated_at) (time c))) [
        | inl newer ↦
            let below : time c ≤ to_timestamp parse entry.updated_at = rw newer at h in
            (ground arith, below)
        | inr older ↦
            let below : to_timestamp parse e.updated_at ≤ to_timestamp parse entry.updated_at =
              rw older at h in
            (below, ground arith)
      ]

  newest-bound :
      (id : ℕ) (found : Option MergedEntry) (cs : List BgmCollectionLike) (entry : MergedEntry)
      → newest id found cs ≡ some entry
      → IsNoLater found entry
        × All (λ c. c.subject_id ≡ id → time c ≤ to_timestamp parse entry.updated_at) cs
  unfolding newest
  newest-bound id none [] entry h = (tt, tt)
  newest-bound id (some e) [] entry h = (rw (some-inj h) (omega arith), tt)
  newest-bound id found (c ∷ cs) entry h = elim (Bool-cases (same_key ℕ_discrete id c.subject_id)) [
    | inr e ↦
        let rest = newest-bound id found cs entry (rw (e, newest) at h) in
        (rest.0, ((λ same. absurd (true-false (rw same (same_key_refl ℕ_discrete id)) e)), rest.1))
    | inl e ↦
        let rest = newest-bound id (pick found c) cs entry (rw (e, newest) at h) in
        let first = pick-bound found c entry rest.0 in (first.0, ((λ _. first.1), rest.1))
  ]

  is_some-pick :
      (found : Option MergedEntry) (c : BgmCollectionLike) → is_some (pick found c) ≡ true
  is_some-pick none c = refl
  is_some-pick (some e) c = elim (Bool-cases (ltb (to_timestamp parse e.updated_at) (time c))) [
    | inl newer ↦ rw newer refl
    | inr older ↦ rw older refl
  ]

  abbrev pub mentions : ℕ → List BgmCollectionLike → Bool
  mentions id = any (λ c. same_key ℕ_discrete id c.subject_id)

  pub is_some-newest :
      (id : ℕ) (found : Option MergedEntry) (cs : List BgmCollectionLike)
      → is_some (newest id found cs) ≡ is_some found || mentions id cs
  unfolding newest
  is_some-newest id none [] = refl
  is_some-newest id (some e) [] = refl
  is_some-newest id found (c ∷ cs) = elim (Bool-cases (same_key ℕ_discrete id c.subject_id)) [
    | inr e ↦ rw (e, newest) (is_some-newest id found cs)
    | inl e ↦
        rw (e, newest)
          (is_some-newest id (pick found c) cs
            ∙ rw (is_some-pick found c) (sym (or_true (is_some found))))
  ]
    where
      or_true : (b : Bool) → b || true ≡ true
      or_true true = refl
      or_true false = refl

  -- The entry is made of a collection of its subject, and no collection of the subject is later.
  abbrev pub IsLatest : List BgmCollectionLike → MergedEntry → Type 0
  IsLatest cs entry =
      Some (λ c. (c.subject_id ≡ entry.subject_id) × (entry ≡ to_merged_entry maps c)) cs
      × All
          (λ c.
            c.subject_id ≡ entry.subject_id
            → to_timestamp parse c.updated_at ≤ to_timestamp parse entry.updated_at)
          cs

  newest-id :
      (id : ℕ) (cs : List BgmCollectionLike) (entry : MergedEntry)
      → Some (IsOf id entry) cs
      → entry.subject_id ≡ id
  unfolding IsOf to_merged_entry
  newest-id id [] entry h = absurd h
  newest-id id (c ∷ cs) entry (inl (same, made)) = ap (λ e. e.subject_id) made ∙ same
  newest-id id (c ∷ cs) entry (inr there) = newest-id id cs entry there

  pub newest-IsLatest :
      (id : ℕ) (cs : List BgmCollectionLike) (entry : MergedEntry)
      → newest id none cs ≡ some entry
      → (entry.subject_id ≡ id) × IsLatest cs entry
  unfolding IsOf
  newest-IsLatest id cs entry h = elim (newest-source id none cs entry h) [
    | inl impossible ↦ absurd (some-none (sym impossible))
    | inr source ↦
        let same : entry.subject_id ≡ id = newest-id id cs entry source in
        (
          same,
          (
            subst (λ s. Some (λ c. (c.subject_id ≡ s) × (entry ≡ to_merged_entry maps c)) cs)
                (sym same) source,
            subst
                (λ s. All (λ c. c.subject_id ≡ s → time c ≤ to_timestamp parse entry.updated_at) cs)
                (sym same) (newest-bound id none cs entry h).1,
          ),
        )
  ]
