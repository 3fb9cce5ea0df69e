-- ===== src/Rows.antt =====
-- The rows of packages/storage/src/d1-types.ts. Ids, counts and Unix times are naturals: what the
-- decoders of the store accept is a safe integer, and the program writes no negative one.
use airing_cal.Common.{ℕ, Option, Text}

pub data Temperature : Type 0 where
  hot cold : Temperature

pub record CollectionRow : Type 0 where
  pub user_id : Text
  pub subject_id : ℕ
  pub collection_type : ℕ
  pub rate : Option ℕ
  pub tags_json : Text
  pub comment : Text
  pub ep_status : ℕ
  pub vol_status : ℕ
  pub upstream_updated_at : Option Text
  pub subject_json : Text
  pub content_hash : Text
  pub state_version : ℕ
  pub temperature : Temperature
  pub first_seen_at : ℕ
  pub changed_at : ℕ
  pub missing_since : Option ℕ
  pub deleted_at : Option ℕ
