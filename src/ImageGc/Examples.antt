-- ===== src/ImageGc/Examples.antt =====
-- A plan for one item with an image: a test and the witness.
use airing_cal.Common.{
  ◌≡◌, refl, not, ◌&&◌, ◌||◌, [], ◌∷◌, Text, Text-discrete, text_lt, units, sort,
}
use airing_cal.Json.{
  Json, array, string, null, no_items, object, object_of, array_of, items_in, fields_in, lookup,
}
use airing_cal.Snapshot.{is_sha256}
use airing_cal.Snapshot.Build.{PublicSnapshot}
use airing_cal.ImageGc.{
  has_hash, add_hash, add_hashes, add_image_hash, add_items, add_lists,
  collect_referenced_image_hashes, plan_public_image_gc,
}
use airing_cal.ImageGc.Planned.{is_shown, plan_public_image_gc-collect_referenced_image_hashes}

-- Eight times the digit 1.
abbrev eight_of : Text → Text
eight_of rest = 49 ∷ 49 ∷ 49 ∷ 49 ∷ 49 ∷ 49 ∷ 49 ∷ 49 ∷ rest

abbrev ones : Text
ones = eight_of (eight_of (eight_of (eight_of (eight_of (eight_of (eight_of (eight_of [])))))))

-- Another hash: its last digit differs.
abbrev other : Text
other = eight_of (
    eight_of (
      eight_of
        (eight_of (eight_of (eight_of (eight_of (49 ∷ 49 ∷ 49 ∷ 49 ∷ 49 ∷ 49 ∷ 49 ∷ 50 ∷ [])))))))

abbrev image : Json
image = object (object_of ((units "hash", string ones) ∷ []))

abbrev item_with_image : Json
item_with_image = object (
    object_of (
      (units "images", object (object_of ((units "common", image) ∷ (units "large", null) ∷ [])))
      ∷ []))

abbrev snapshot : PublicSnapshot
snapshot = record {
  generation = 1;
  content_hash = [];
  published_at = 5;
  collections =
      object (object_of ((units "watching", array (array_of (item_with_image ∷ []))) ∷ []));
  calendar = array no_items;
  summary = null;
}

deleted :
    (plan_public_image_gc
      (other ∷ ones ∷ units "x" ∷ [])
      (collect_referenced_image_hashes snapshot)
      []).delete
    ≡ other ∷ []
unfolding plan_public_image_gc collect_referenced_image_hashes add_lists add_items add_image_hash
    add_hash add_hashes is_sha256 lookup object_of array_of fields_in items_in Text-discrete text_lt
    sort
deleted = refl

plan_public_image_gc-collect_referenced_image_hashes_example :
    has_hash ones
      (plan_public_image_gc
        (other ∷ ones ∷ [])
        (collect_referenced_image_hashes snapshot)
        []).delete
    ≡ (has_hash ones (other ∷ ones ∷ [])
        && is_sha256 ones
        && not (is_shown ones snapshot || has_hash ones []))
plan_public_image_gc-collect_referenced_image_hashes_example =
    plan_public_image_gc-collect_referenced_image_hashes (other ∷ ones ∷ []) [] snapshot ones
