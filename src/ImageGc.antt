-- ===== src/ImageGc.antt =====
-- packages/v3-core/src/public-image-gc.ts: which cached images are deleted.
mod Planned
mod Examples
use airing_cal.Common.{
  Bool, not, ◌&&◌, List, [], ◌∷◌, ◌++◌, map, Text, text_lt, units, if◌then◌else◌, any, filter, sort,
}
use airing_cal.Json.{Json}
use airing_cal.Snapshot.{equals, is_sha256}
use airing_cal.Snapshot.Build.{PublicSnapshot, field_or_null, text_in}
use airing_cal.Read.Query.{collection_types}
use airing_cal.Read.Handler.{collection_in, elements}

-- A Set in its insertion order.
abbrev pub has_hash : Text → List Text → Bool
has_hash hash = any (equals hash)

unfoldable pub add_hash : Text → List Text → List Text
add_hash hash hashes = if has_hash hash hashes then hashes else hashes ++ (hash ∷ [])

unfoldable pub add_hashes : List Text → List Text → List Text
add_hashes [] hashes = hashes
add_hashes (hash ∷ rest) hashes = add_hashes rest (add_hash hash hashes)

-- The hash of an item's image, an empty text where there is none.
abbrev pub image_hash : Text → Json → Text
image_hash size item =
    text_in
      (field_or_null (units "hash") (field_or_null size (field_or_null (units "images") item)))

unfoldable pub add_image_hash : Text → List Text → List Text
add_image_hash hash hashes = if is_sha256 hash then add_hash hash hashes else hashes

unfoldable pub add_items : List Json → List Text → List Text
add_items [] hashes = hashes
add_items (item ∷ items) hashes = add_items items (
    add_image_hash (image_hash (units "large") item)
      (add_image_hash (image_hash (units "common") item) hashes))

unfoldable pub add_lists : List (List Json) → List Text → List Text
add_lists [] hashes = hashes
add_lists (items ∷ lists) hashes = add_lists lists (add_items items hashes)

abbrev pub lists_in : PublicSnapshot → List (List Json)
lists_in snapshot =
    map (λ type. collection_in type snapshot) collection_types
    ++ map (λ day. elements (field_or_null (units "items") day)) (elements snapshot.calendar)

unfoldable pub collect_referenced_image_hashes : PublicSnapshot → List Text
collect_referenced_image_hashes snapshot = add_lists (lists_in snapshot) []

pub record PublicImageGcPlan : Type 0 where
  pub keep : List Text
  pub delete : List Text

unfoldable pub plan_public_image_gc : List Text → List Text → List Text → PublicImageGcPlan
plan_public_image_gc on_disk referenced pinned =
    let keep : List Text = add_hashes pinned (add_hashes referenced []) in
    record {
      keep = sort text_lt keep;
      delete = sort text_lt (filter (λ hash. is_sha256 hash && not (has_hash hash keep)) on_disk);
    }
