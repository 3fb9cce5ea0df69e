-- ===== src/Accounts/Entries.antt =====
-- What the entries of a comparison say of the two accounts.
use airing_cal.Common.{
  ◌≡◌, refl, sym, inl, inr, true, false, Option, none, some, List, [], ◌∷◌, Text, Text-discrete,
  units, All, All-append, Bool-cases, get, holds-sound, holds_complete, if◌then◌else◌, arith,
}
use airing_cal.Accounts.{ComparisonItem, Difference, SameEntry, UserSummary, equals, status_label}
use airing_cal.Accounts.Compare.{
  Items, index_items, all_ids, Buckets, no_entries, agree, sort_out, sort_out_all, compare_items,
}
use airing_cal.Accounts.Partition.{last_with, index_items-last_with, buckets_of}

agree_sound :
    (a b : ComparisonItem)
    → agree a b ≡ true
    → (a.status ≡ b.status) × (a.progress ≡ b.progress) × (a.score ≡ b.score)
agree_sound a b h =
    (holds-sound (Text-discrete a.status b.status) (ground arith), ground arith, ground arith)

disagree_sound :
    (a b : ComparisonItem)
    → agree a b ≡ false
    → (a.status ≡ b.status) × (a.progress ≡ b.progress) × (a.score ≡ b.score)
    → ⊥
disagree_sound a b h (status, progress, score) =
    let same = holds_complete (Text-discrete a.status b.status) status in ground arith

module _ (find_a find_b : Text → Option ComparisonItem) where
  -- Both accounts have the id, with the same status, progress and score.
  abbrev IsSame : SameEntry → Type 0
  IsSame e =
      (a : ComparisonItem) × (b : ComparisonItem) × (find_a e.external_id ≡ some a)
      × (find_b e.external_id ≡ some b)
      × (a.status ≡ b.status)
      × (a.progress ≡ b.progress)
      × (a.score ≡ b.score)
      × (e ≡ record {
        external_id = e.external_id;
        title = a.title;
        status = status_label a.status;
        progress = a.progress;
        total_episodes = a.total_episodes;
        score = a.score;
      })

  -- Both accounts have the id, and they differ.
  abbrev IsDifferent : Difference → Type 0
  IsDifferent e =
      (a : ComparisonItem) × (b : ComparisonItem) × (find_a e.external_id ≡ some a)
      × (find_b e.external_id ≡ some b)
      × ((a.status ≡ b.status) × (a.progress ≡ b.progress) × (a.score ≡ b.score) → ⊥)
      × (e ≡ record {
        external_id = e.external_id;
        title = if equals a.title [] then b.title else a.title;
        status_a = status_label a.status;
        status_b = status_label b.status;
        progress_a = a.progress;
        progress_b = b.progress;
        score_a = a.score;
        score_b = b.score;
        item_a = some a;
        item_b = some b;
      })

  abbrev IsOnlyInA : Difference → Type 0
  IsOnlyInA e =
      (a : ComparisonItem) × (find_a e.external_id ≡ some a)
      × (find_b e.external_id ≡ none)
      × (e ≡ record {
        external_id = e.external_id;
        title = a.title;
        status_a = status_label a.status;
        status_b = units "—";
        progress_a = a.progress;
        progress_b = 0;
        score_a = a.score;
        score_b = 0;
        item_a = some a;
        item_b = none;
      })

  abbrev IsOnlyInB : Difference → Type 0
  IsOnlyInB e =
      (b : ComparisonItem) × (find_a e.external_id ≡ none)
      × (find_b e.external_id ≡ some b)
      × (e ≡ record {
        external_id = e.external_id;
        title = b.title;
        status_a = units "—";
        status_b = status_label b.status;
        progress_a = 0;
        progress_b = b.progress;
        score_a = 0;
        score_b = b.score;
        item_a = none;
        item_b = some b;
      })

  abbrev pub AreSorted : Buckets → Type 0
  AreSorted buckets =
      All IsSame buckets.same
      × All IsDifferent buckets.differences
      × All IsOnlyInA buckets.only_a
      × All IsOnlyInB buckets.only_b

  AreSorted-sort_out :
      (id : Text) (a b : Option ComparisonItem) (buckets : Buckets)
      → find_a id ≡ a
      → find_b id ≡ b
      → AreSorted buckets
      → AreSorted (sort_out id a b buckets)
  unfolding sort_out
  AreSorted-sort_out id none none buckets _ _ h = h
  AreSorted-sort_out id (some a) none buckets e f (s, d, x, y) =
      (s, d, All-append IsOnlyInA buckets.only_a _ x ((a, e, f, refl), tt), y)
  AreSorted-sort_out id none (some b) buckets e f (s, d, x, y) =
      (s, d, x, All-append IsOnlyInB buckets.only_b _ y ((b, e, f, refl), tt))
  AreSorted-sort_out id (some a) (some b) buckets e f (s, d, x, y) = elim (Bool-cases (agree a b)) [
    | inl g ↦
        let agreed = agree_sound a b g in
        rw g (
          All-append IsSame buckets.same _ s ((a, b, e, f, agreed.0, agreed.1, agreed.2, refl), tt),
          d,
          x,
          y,
        )
    | inr g ↦ rw g (
      s,
      All-append IsDifferent buckets.differences _ d ((a, b, e, f, disagree_sound a b g, refl), tt),
      x,
      y,
    )
  ]

  AreSorted-sort_out_all :
      (a b : Items) (ids : List Text) (buckets : Buckets)
      → ((id : Text) → find_a id ≡ get Text-discrete id a)
      → ((id : Text) → find_b id ≡ get Text-discrete id b)
      → AreSorted buckets
      → AreSorted (sort_out_all a b ids buckets)
  unfolding sort_out_all
  AreSorted-sort_out_all a b [] buckets e f h = h
  AreSorted-sort_out_all a b (id ∷ ids) buckets e f h = AreSorted-sort_out_all a b ids _ e f (
      AreSorted-sort_out id (get Text-discrete id a) (get Text-discrete id b) buckets (e id) (f id)
        h)

-- Each entry shows its account's last item of its id: an equal entry has the same status, progress
-- and score in both accounts, a different one has not, and the others are in one account only.
pub compare_items-AreSorted :
    (user_a user_b : UserSummary) (items_a items_b : List ComparisonItem)
    → AreSorted
        (λ id. last_with id items_a)
        (λ id. last_with id items_b)
        (buckets_of (compare_items user_a items_a user_b items_b))
unfolding compare_items
compare_items-AreSorted user_a user_b items_a items_b =
    AreSorted-sort_out_all (λ id. last_with id items_a) (λ id. last_with id items_b)
      (index_items [] items_a) (index_items [] items_b)
      (all_ids (index_items [] items_a) (index_items [] items_b)) no_entries
      (λ id. sym (index_items-last_with id items_a)) (λ id. sym (index_items-last_with id items_b))
      (tt, tt, tt, tt)
