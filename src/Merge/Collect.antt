-- ===== src/Merge/Collect.antt =====
-- mergeCollections, withSubjectDetail and transformCalendar.
use airing_cal.Common.{
  ℕ, Bool, false, Option, none, some, List, [], ◌∷◌, ◌++◌, map, Text, ltb, ◌==◌, if◌then◌else◌,
  ℕ_discrete, get, set,
}
use airing_cal.Merge.{
  SubjectImages, BgmSubject, BgmCollectionLike, SubjectDetailLike, BgmCalendarSubjectLike,
  MergedEntry, MergedCollections, ◌//◌, ◌<|>◌, ◌&>◌, positive_episode_count, calendar_episode_count,
}

unfoldable pub with_subject_detail :
    BgmCalendarSubjectLike → Option SubjectDetailLike → BgmCalendarSubjectLike
with_subject_detail subject none = subject
with_subject_detail subject (some detail) =
    let eps : Option ℕ = positive_episode_count (
      detail.eps ∷ detail.eps_count ∷ detail.total_episodes ∷ subject.eps ∷ subject.eps_count
      ∷ subject.total_episodes ∷ []) in
    let total_episodes : Option ℕ = positive_episode_count (
      detail.total_episodes ∷ detail.eps ∷ detail.eps_count ∷ subject.total_episodes ∷ subject.eps
      ∷ subject.eps_count ∷ []) in
    record {
      id = subject.id;
      type = detail.type // subject.type;
      name = detail.name // subject.name;
      name_cn = detail.name_cn // subject.name_cn;
      summary = detail.summary // subject.summary;
      nsfw = detail.nsfw <|> subject.nsfw;
      date = detail.date // subject.date;
      eps = eps <|> subject.eps;
      eps_count = eps <|> subject.eps_count;
      total_episodes = total_episodes <|> subject.total_episodes;
      images = detail.images <|> subject.images;
      rank = subject.rank;
      rating = detail.rating <|> subject.rating;
    }

-- The maps that the caller may give.
pub record SubjectMaps : Type 0 where
  pub image : ℕ → Option SubjectImages
  pub nsfw : ℕ → Option Bool
  pub detail : ℕ → Option SubjectDetailLike

abbrev pub no_images : SubjectImages
no_images = record { common = none; large = none }

unfoldable pub to_merged_entry : SubjectMaps → BgmCollectionLike → MergedEntry
to_merged_entry maps collection =
    let subject : Option BgmSubject = collection.subject in
    let detail : Option SubjectDetailLike = maps.detail collection.subject_id in
    let eps : Option ℕ = positive_episode_count (
      (detail &> λ d. d.eps)
      ∷ (detail &> λ d. d.eps_count)
      ∷ (detail &> λ d. d.total_episodes)
      ∷ (subject &> λ s. some s.eps)
      ∷ []) in
    let total_episodes : Option ℕ = positive_episode_count (
      (detail &> λ d. d.total_episodes)
      ∷ (detail &> λ d. d.eps)
      ∷ (detail &> λ d. d.eps_count)
      ∷ (subject &> λ s. some s.total_episodes)
      ∷ (subject &> λ s. some s.eps)
      ∷ []) in
    record {
      subject_id = collection.subject_id;
      name = (detail &> λ d. d.name) // (subject &> λ s. some s.name) // [];
      name_cn = (detail &> λ d. d.name_cn) // (subject &> λ s. some s.name_cn) // [];
      summary = (detail &> λ d. d.summary) // (subject &> λ s. some s.summary) // [];
      images = maps.image collection.subject_id // no_images;
      eps = eps // 0;
      total_episodes = total_episodes // 0;
      ep_status = collection.ep_status;
      vol_status = collection.vol_status;
      type = collection.subject_type;
      collection_type = collection.type;
      rate = collection.rate;
      nsfw =
          maps.nsfw collection.subject_id
          // (detail &> λ d. d.nsfw)
          // (subject &> λ s. s.nsfw)
          // false;
      date = (detail &> λ d. d.date) // (subject &> λ s. some s.date) // [];
      tags = collection.tags // [];
      updated_at = collection.updated_at;
    }

-- `merged[TYPE_MAP[entry.collection_type] // 'want'].push(entry)`
unfoldable pub push_entry : MergedEntry → MergedCollections → MergedCollections
push_entry entry merged =
    if entry.collection_type == 2
    then record merged { watched = merged.watched ++ (entry ∷ []) }
    else if entry.collection_type == 3
    then record merged { watching = merged.watching ++ (entry ∷ []) }
    else if entry.collection_type == 4
    then record merged { on_hold = merged.on_hold ++ (entry ∷ []) }
    else if entry.collection_type == 5
    then record merged { dropped = merged.dropped ++ (entry ∷ []) }
    else record merged { want = merged.want ++ (entry ∷ []) }

unfoldable pub push_entries : List (ℕ × MergedEntry) → MergedCollections → MergedCollections
push_entries [] merged = merged
push_entries ((_, entry) ∷ entries) merged = push_entries entries (push_entry entry merged)

abbrev pub no_collections : Text → MergedCollections
no_collections now = record {
  want = [];
  watched = [];
  watching = [];
  on_hold = [];
  dropped = [];
  updated_at = now;
}

-- `parse` is the time of a text that Date can read.
module _ (parse : Text → Option ℕ) where
  abbrev pub to_timestamp : Text → ℕ
  to_timestamp [] = 0
  to_timestamp (c ∷ cs) = parse (c ∷ cs) // 0

  -- One turn of the loop over the collections.
  unfoldable pub keep_latest :
      SubjectMaps → List (ℕ × MergedEntry) → BgmCollectionLike → List (ℕ × MergedEntry)
  keep_latest maps latest collection = elim (get ℕ_discrete collection.subject_id latest) [
    | none ↦ set ℕ_discrete collection.subject_id (to_merged_entry maps collection) latest
    | some existing ↦
        if ltb (to_timestamp existing.updated_at) (to_timestamp collection.updated_at)
        then set ℕ_discrete collection.subject_id (to_merged_entry maps collection) latest
        else latest
  ]

  unfoldable pub latest_by_subject :
      SubjectMaps → List (ℕ × MergedEntry) → List BgmCollectionLike → List (ℕ × MergedEntry)
  latest_by_subject maps latest [] = latest
  latest_by_subject maps latest (collection ∷ collections) =
      latest_by_subject maps (keep_latest maps latest collection) collections

  unfoldable pub merge_collections : SubjectMaps → Text → List BgmCollectionLike → MergedCollections
  merge_collections maps now collections =
      push_entries (latest_by_subject maps [] collections) (no_collections now)

pub record CalendarRating : Type 0 where
  pub score : ℕ
  pub rank : ℕ
  pub total : ℕ

pub record CalendarSubjectSnapshot : Type 0 where
  pub subject_id : ℕ
  pub id : ℕ
  pub type : ℕ
  pub name : Text
  pub name_cn : Text
  pub summary : Text
  pub images : SubjectImages
  pub nsfw : Bool
  pub date : Text
  pub eps : ℕ
  pub total_episodes : ℕ
  pub rating : Option CalendarRating

pub record Weekday : Type 0 where
  pub en : Text
  pub cn : Text
  pub ja : Text
  pub id : ℕ

pub record CalendarDay (Item : Type 0) : Type 0 where
  pub weekday : Weekday
  pub items : List Item

abbrev rating_of : BgmCalendarSubjectLike → Option CalendarRating
rating_of subject = subject.rating &> λ rating. (subject.rank <|> rating.rank) &> λ rank.
    some (record { score = rating.score; rank = rank; total = rating.total })

unfoldable pub transform_subject : SubjectMaps → BgmCalendarSubjectLike → CalendarSubjectSnapshot
transform_subject maps subject = record {
  subject_id = subject.id;
  id = subject.id;
  type = subject.type;
  name = subject.name;
  name_cn = subject.name_cn;
  summary = subject.summary;
  images = maps.image subject.id // no_images;
  nsfw = maps.nsfw subject.id // subject.nsfw // false;
  date = subject.date;
  eps = calendar_episode_count subject;
  total_episodes =
      positive_episode_count (subject.total_episodes ∷ []) // calendar_episode_count subject;
  rating = rating_of subject;
}

unfoldable pub transform_calendar :
    SubjectMaps
    → List (CalendarDay BgmCalendarSubjectLike)
    → List (CalendarDay CalendarSubjectSnapshot)
transform_calendar maps =
    map (λ day. record { weekday = day.weekday; items = map (transform_subject maps) day.items })
