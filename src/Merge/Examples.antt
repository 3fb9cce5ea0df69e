-- ===== src/Merge/Examples.antt =====
-- Three collections of two subjects: tests, and the witnesses of the theorems about merging.
use airing_cal.Common.{
  ℕ, ◌≡◌, refl, true, false, Option, none, some, List, [], ◌∷◌, map, Text, units, ℕ_discrete,
  same_key, occurrences,
}
use airing_cal.Merge.{
  BgmCollectionLike, BgmSubject, SubjectDetailLike, BgmCalendarSubjectLike, positive_episode_count,
  calendar_episode_count,
}
use airing_cal.Merge.Collect.{
  SubjectMaps, to_merged_entry, keep_latest, latest_by_subject, push_entry, push_entries,
  merge_collections, with_subject_detail, Weekday, transform_subject, transform_calendar,
}
use airing_cal.Merge.Latest.{IsLatest, mentions}
use airing_cal.Merge.Listed.{listed, InAll, merge_collections-IsLatest}

abbrev subject : ℕ → BgmSubject
subject id = record {
  id = id;
  name = units "S";
  name_cn = [];
  summary = [];
  date = [];
  eps = 12;
  total_episodes = 0;
  images = none;
  nsfw = none;
}

abbrev collection : ℕ → ℕ → Text → BgmCollectionLike
collection id type updated_at = record {
  subject_id = id;
  subject_type = 2;
  rate = 0;
  type = type;
  comment = [];
  tags = none;
  ep_status = 0;
  vol_status = 0;
  updated_at = updated_at;
  is_private = false;
  subject = some (subject id);
}

abbrev collections : List BgmCollectionLike
collections =
    collection 1 3 (units "a") ∷ collection 2 2 (units "a") ∷ collection 1 2 (units "b") ∷ []

abbrev maps : SubjectMaps
maps = record { image = λ _. none; nsfw = λ _. none; detail = λ _. none }

-- A text's first code unit stands for its time.
abbrev parse : Text → Option ℕ
parse [] = none
parse (c ∷ _) = some c

later_wins :
    map (λ e. e.subject_id) (merge_collections parse maps [] collections).watched ≡ 1 ∷ 2 ∷ []
unfolding merge_collections push_entries push_entry latest_by_subject keep_latest to_merged_entry
    ℕ_discrete
later_wins = refl

merge_collections-IsLatest_example :
    ((id : ℕ)
      → listed
          (λ e. same_key ℕ_discrete id e.subject_id)
          (merge_collections parse maps [] collections)
        ≡ occurrences (mentions parse maps id collections))
    × InAll (IsLatest parse maps collections) (merge_collections parse maps [] collections)
merge_collections-IsLatest_example = merge_collections-IsLatest parse maps collections []

abbrev calendar_subject : BgmCalendarSubjectLike
calendar_subject = record {
  id = 1;
  type = 2;
  name = units "S";
  name_cn = [];
  summary = [];
  nsfw = none;
  date = [];
  eps = some 0;
  eps_count = some 11;
  total_episodes = none;
  images = none;
  rank = none;
  rating = none;
}

abbrev detail : SubjectDetailLike
detail = record {
  id = some 1;
  type = none;
  name = none;
  name_cn = some (units "N");
  summary = none;
  nsfw = some true;
  date = none;
  eps = none;
  eps_count = some 0;
  total_episodes = some 13;
  images = none;
  rating = none;
}

completed : (with_subject_detail calendar_subject (some detail)).eps ≡ some 13
unfolding with_subject_detail positive_episode_count
completed = refl

abbrev monday : Weekday
monday = record { en = units "Mon"; cn = units "星期一"; ja = units "月耀日"; id = 1 }

calendar_counts :
    map
      (λ day. map (λ s. s.total_episodes) day.items)
      (transform_calendar maps (record { weekday = monday; items = calendar_subject ∷ [] } ∷ []))
    ≡ (11 ∷ []) ∷ []
unfolding transform_calendar transform_subject calendar_episode_count positive_episode_count
calendar_counts = refl
