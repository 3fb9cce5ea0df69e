-- ===== src/Merge.antt =====
-- The merged collections and the calendar of packages/domain/src/index.ts: what a subject's entry is
-- made of. An optional field is an Option, and a Map of subjects a function of the subject's id.
mod Collect
mod Latest
mod Listed
mod Detail
mod Examples
use airing_cal.Common.{
  ℕ, ◌+◌, Bool, true, false, not, ◌&&◌, ◌||◌, Option, none, some, List, [], ◌∷◌, ◌++◌, map, Text,
  Text-discrete, units, ltb, ◌==◌, if◌then◌else◌, holds,
}

pub record ImageRef : Type 0 where
  pub hash : Text
  pub uri : Text
  pub r2_key : Text

pub record SubjectImages : Type 0 where
  pub common : Option ImageRef
  pub large : Option ImageRef

pub data MetaReason : Type 0 where
  subject_detail not_found not_found_or_restricted network_error upstream_error : MetaReason

pub record SubjectMeta : Type 0 where
  pub subject_id : ℕ
  pub exists : Option Bool
  pub nsfw : Bool
  pub checked_at : ℕ
  pub expires_at : Option ℕ
  pub reason : MetaReason

-- The images that the upstream names, by their addresses.
pub record SourceImages : Type 0 where
  pub large : Option Text
  pub common : Option Text

pub record BgmSubject : Type 0 where
  pub id : ℕ
  pub name : Text
  pub name_cn : Text
  pub summary : Text
  pub date : Text
  pub eps : ℕ
  pub total_episodes : ℕ
  pub images : Option SourceImages
  pub nsfw : Option Bool

pub record BgmCollectionLike : Type 0 where
  pub subject_id : ℕ
  pub subject_type : ℕ
  pub rate : ℕ
  pub type : ℕ
  pub comment : Text
  pub tags : Option (List Text)
  pub ep_status : ℕ
  pub vol_status : ℕ
  pub updated_at : Text
  pub is_private : Bool
  pub subject : Option BgmSubject

pub record DetailRating : Type 0 where
  pub score : ℕ
  pub rank : Option ℕ
  pub total : ℕ

pub record SubjectDetailLike : Type 0 where
  pub id : Option ℕ
  pub type : Option ℕ
  pub name : Option Text
  pub name_cn : Option Text
  pub summary : Option Text
  pub nsfw : Option Bool
  pub date : Option Text
  pub eps : Option ℕ
  pub eps_count : Option ℕ
  pub total_episodes : Option ℕ
  pub images : Option SourceImages
  pub rating : Option DetailRating

pub record BgmCalendarSubjectLike : Type 0 where
  pub id : ℕ
  pub type : ℕ
  pub name : Text
  pub name_cn : Text
  pub summary : Text
  pub nsfw : Option Bool
  pub date : Text
  pub eps : Option ℕ
  pub eps_count : Option ℕ
  pub total_episodes : Option ℕ
  pub images : Option SourceImages
  pub rank : Option ℕ
  pub rating : Option DetailRating

pub record MergedEntry : Type 0 where
  pub subject_id : ℕ
  pub name : Text
  pub name_cn : Text
  pub summary : Text
  pub images : SubjectImages
  pub eps : ℕ
  pub total_episodes : ℕ
  pub ep_status : ℕ
  pub vol_status : ℕ
  pub type : ℕ
  pub collection_type : ℕ
  pub rate : ℕ
  pub nsfw : Bool
  pub date : Text
  pub tags : List Text
  pub updated_at : Text

pub record MergedCollections : Type 0 where
  pub want : List MergedEntry
  pub watched : List MergedEntry
  pub watching : List MergedEntry
  pub on_hold : List MergedEntry
  pub dropped : List MergedEntry
  pub updated_at : Text

-- `a ?? b`
infixr 4 ◌//◌
abbrev pub ◌//◌ : {A : Type 0} → Option A → A → A
none // fallback = fallback
some value // fallback = value

infixr 4 ◌<|>◌
abbrev pub ◌<|>◌ : {A : Type 0} → Option A → Option A → Option A
none <|> fallback = fallback
some value <|> fallback = some value

-- `a?.b`
infixl 6 ◌&>◌
abbrev pub ◌&>◌ : {A B : Type 0} → Option A → (A → Option B) → Option B
none &> field = none
some value &> field = field value

abbrev pub image_ref : Text → ImageRef
image_ref hash = record {
  hash = hash;
  uri = units "/image/" ++ hash;
  r2_key = units "images/" ++ hash ++ units "/original";
}

unfoldable pub subject_meta_from_not_found : ℕ → ℕ → SubjectMeta
subject_meta_from_not_found subject_id checked_at = record {
  subject_id = subject_id;
  exists = some false;
  nsfw = true;
  checked_at = checked_at;
  expires_at = some (checked_at + 86400);
  reason = not_found;
}

abbrev is_false : Option Bool → Bool
is_false (some false) = true
is_false _ = false

abbrev is_reason : MetaReason → MetaReason → Bool
is_reason not_found not_found = true
is_reason not_found_or_restricted not_found_or_restricted = true
is_reason _ _ = false

abbrev is_before : ℕ → Option ℕ → Bool
is_before now none = false
is_before now (some expires_at) = ltb now expires_at

unfoldable pub is_active_not_found_subject_meta : Option SubjectMeta → ℕ → Bool
is_active_not_found_subject_meta none now = false
is_active_not_found_subject_meta (some meta) now =
    is_false meta.exists && is_reason meta.reason not_found && is_before now meta.expires_at

unfoldable pub is_confirmed_not_found_subject_meta : Option SubjectMeta → Bool
is_confirmed_not_found_subject_meta none = false
is_confirmed_not_found_subject_meta (some meta) =
    is_false meta.exists
    && (is_reason meta.reason not_found || is_reason meta.reason not_found_or_restricted)

unfoldable pub subject_meta_from_detail : ℕ → SubjectDetailLike → ℕ → SubjectMeta
subject_meta_from_detail subject_id subject checked_at = record {
  subject_id = subject_id;
  exists = some true;
  nsfw = subject.nsfw // false;
  checked_at = checked_at;
  expires_at = none;
  reason = subject_detail;
}

unfoldable pub subject_detail_images : Option SubjectDetailLike → SourceImages
subject_detail_images subject = (subject &> λ s. s.images) // record { large = none; common = none }

pub record CachedImageStatus : Type 0 where
  pub status : Option Text
  pub hash : Option Text
  pub uri : Option Text
  pub r2_key : Option Text

-- A field that is there and not empty.
abbrev given : Option Text → Option Text
given none = none
given (some []) = none
given (some (c ∷ cs)) = some (c ∷ cs)

unfoldable pub cached_image_ref : Option CachedImageStatus → Option ImageRef
cached_image_ref none = none
cached_image_ref (some image) =
    if holds (Text-discrete (image.status // []) (units "cached"))
    then (given image.hash &> λ hash. given image.uri &> λ uri.
        given image.r2_key &> λ r2_key. some (record { hash = hash; uri = uri; r2_key = r2_key }))
    else none

pub record ImageStatus : Type 0 where
  pub common : Option CachedImageStatus
  pub large : Option CachedImageStatus

unfoldable pub image_refs_from_status : Option ImageStatus → SubjectImages
image_refs_from_status status = record {
  common = cached_image_ref (status &> λ s. s.common);
  large = cached_image_ref (status &> λ s. s.large);
}

-- The first of the values that is there and positive.
unfoldable pub positive_episode_count : List (Option ℕ) → Option ℕ
positive_episode_count [] = none
positive_episode_count (none ∷ values) = positive_episode_count values
positive_episode_count (some value ∷ values) =
    let rest = positive_episode_count values in if ltb 0 value then some value else rest

unfoldable pub calendar_episode_count : BgmCalendarSubjectLike → ℕ
calendar_episode_count subject =
    positive_episode_count (subject.eps ∷ subject.eps_count ∷ subject.total_episodes ∷ []) // 0
