-- ===== src/ImageGc/Planned.antt =====
-- Which images a plan deletes.
use airing_cal.Common.{
  map, ◌≡◌, refl, sym, ap, ◌∙◌, inl, inr, Bool, true, false, not, ◌&&◌, ◌||◌, List, [], ◌∷◌, Text,
  Text-discrete, text_lt, units, Bool-cases, any, any-append, any-sort, filter, holds-sound, arith,
}
use airing_cal.Json.{Json}
use airing_cal.Snapshot.{equals, is_sha256}
use airing_cal.Snapshot.Build.{PublicSnapshot, field_or_null, text_in}
use airing_cal.Read.Handler.{elements}
use airing_cal.ImageGc.{
  has_hash, add_hash, add_hashes, image_hash, add_image_hash, add_items, add_lists, lists_in,
  collect_referenced_image_hashes, plan_public_image_gc,
}

-- A test of one hash passes on those equal to it only.
on_equal :
    (test : Text → Bool) (hash other : Text)
    → (equals hash other && test other) ≡ (equals hash other && test hash)
on_equal test hash other = elim (Bool-cases (equals hash other)) [
  | inl e ↦ rw e (ap test (sym (holds-sound (Text-discrete hash other) e)))
  | inr e ↦ rw e refl
]

has_hash-add_hash :
    (hash new : Text) (hashes : List Text)
    → has_hash hash (add_hash new hashes) ≡ equals hash new || has_hash hash hashes
unfolding add_hash
has_hash-add_hash hash new hashes = elim (Bool-cases (has_hash new hashes)) [
  | inl there ↦ rw there (ground (arith, on_equal (λ h. has_hash h hashes) hash new, there))
  | inr absent ↦ rw absent (ground (arith, any-append (equals hash) hashes (new ∷ [])))
]

has_hash-add_hashes :
    (hash : Text) (new hashes : List Text)
    → has_hash hash (add_hashes new hashes) ≡ has_hash hash new || has_hash hash hashes
unfolding add_hashes
has_hash-add_hashes hash [] hashes = refl
has_hash-add_hashes hash (first ∷ rest) hashes = ground (
  arith,
  has_hash-add_hashes hash rest (add_hash first hashes),
  has_hash-add_hash hash first hashes,
)

has_hash-filter :
    (test : Text → Bool) (hash : Text) (hashes : List Text)
    → has_hash hash (filter test hashes) ≡ has_hash hash hashes && test hash
has_hash-filter test hash [] = refl
has_hash-filter test hash (other ∷ hashes) = elim (Bool-cases (test other)) [
  | inl e ↦ rw e (ground (arith, has_hash-filter test hash hashes, on_equal test hash other, e))
  | inr e ↦ rw e (ground (arith, has_hash-filter test hash hashes, on_equal test hash other, e))
]

-- `item.images[size].hash`, or an empty text.
abbrev pub image_at : Text → Json → Text
image_at size item =
    text_in
      (field_or_null (units "hash") (field_or_null size (field_or_null (units "images") item)))

-- An item shows the image of a hash, as its common or as its large one.
abbrev pub shows : Text → Json → Bool
shows hash item =
    equals hash (image_at (units "common") item) || equals hash (image_at (units "large") item)

-- Whether an item of some collection, or of some day of the calendar, shows the image of a hash.
abbrev pub is_shown : Text → PublicSnapshot → Bool
is_shown hash snapshot =
    any (shows hash) (elements (field_or_null (units "want") snapshot.collections))
    || (any (shows hash) (elements (field_or_null (units "watched") snapshot.collections))
        || (any (shows hash) (elements (field_or_null (units "watching") snapshot.collections))
            || (any (shows hash) (elements (field_or_null (units "on_hold") snapshot.collections))
                || (any (shows hash)
                      (elements (field_or_null (units "dropped") snapshot.collections))
                    || any (λ day. any (shows hash) (elements (field_or_null (units "items") day)))
                        (elements snapshot.calendar)))))

any-map :
    (test : List Json → Bool) (items : Json → List Json) (days : List Json)
    → any test (map items days) ≡ any (λ day. test (items day)) days
any-map test items [] = refl
any-map test items (day ∷ days) = ap (λ rest. test (items day) || rest) (any-map test items days)

lists_in-is_shown :
    (hash : Text) (snapshot : PublicSnapshot)
    → any (any (shows hash)) (lists_in snapshot) ≡ is_shown hash snapshot
lists_in-is_shown hash snapshot =
    ap
      (λ rest.
        any (shows hash) (elements (field_or_null (units "want") snapshot.collections))
        || (any (shows hash) (elements (field_or_null (units "watched") snapshot.collections))
            || (any (shows hash) (elements (field_or_null (units "watching") snapshot.collections))
                || (any (shows hash)
                      (elements (field_or_null (units "on_hold") snapshot.collections))
                    || (any (shows hash)
                          (elements (field_or_null (units "dropped") snapshot.collections))
                        || rest)))))
      (any-map (any (shows hash)) (λ day. elements (field_or_null (units "items") day))
        (elements snapshot.calendar))

has_hash-add_image_hash :
    (hash new : Text) (hashes : List Text)
    → has_hash hash (add_image_hash new hashes)
      ≡ (is_sha256 hash && equals hash new) || has_hash hash hashes
unfolding add_image_hash
has_hash-add_image_hash hash new hashes = elim (Bool-cases (is_sha256 new)) [
  | inl e ↦ rw e (ground (arith, has_hash-add_hash hash new hashes, on_equal is_sha256 hash new, e))
  | inr e ↦ rw e (ground (arith, on_equal is_sha256 hash new, e))
]

has_hash-add_items :
    (hash : Text) (items : List Json) (hashes : List Text)
    → has_hash hash (add_items items hashes)
      ≡ (is_sha256 hash && any (shows hash) items) || has_hash hash hashes
unfolding add_items
has_hash-add_items hash [] hashes = ground arith
has_hash-add_items hash (item ∷ items) hashes =
    let common = image_hash (units "common") item in
    let large = image_hash (units "large") item in
    has_hash-add_items hash items (add_image_hash large (add_image_hash common hashes))
    ∙ rw
        (
          has_hash-add_image_hash hash large (add_image_hash common hashes),
          has_hash-add_image_hash hash common hashes,
        )
        (distribute (is_sha256 hash) (equals hash common) (equals hash large)
          (any (shows hash) items) (has_hash hash hashes))
  where
    distribute :
        (s c l r h : Bool)
        → ((s && r) || ((s && l) || ((s && c) || h))) ≡ ((s && ((c || l) || r)) || h)
    distribute true c l r h = ground arith
    distribute false c l r h = refl

has_hash-add_lists :
    (hash : Text) (lists : List (List Json)) (hashes : List Text)
    → has_hash hash (add_lists lists hashes)
      ≡ (is_sha256 hash && any (any (shows hash)) lists) || has_hash hash hashes
unfolding add_lists
has_hash-add_lists hash [] hashes = ground arith
has_hash-add_lists hash (items ∷ lists) hashes =
    has_hash-add_lists hash lists (add_items items hashes)
    ∙ rw (has_hash-add_items hash items hashes) (
        distribute (is_sha256 hash) (any (shows hash) items) (any (any (shows hash)) lists)
          (has_hash hash hashes))
  where
    distribute : (s i r h : Bool) → ((s && r) || ((s && i) || h)) ≡ ((s && (i || r)) || h)
    distribute true i r h = ground arith
    distribute false i r h = refl

-- The hashes that are collected are those that are shown.
has_hash-shown :
    (hash : Text) (snapshot : PublicSnapshot)
    → has_hash hash (add_lists (lists_in snapshot) [])
      ≡ (is_sha256 hash && is_shown hash snapshot) || has_hash hash []
has_hash-shown hash snapshot =
    has_hash-add_lists hash (lists_in snapshot) []
    ∙ ap (λ shown. (is_sha256 hash && shown) || has_hash hash []) (lists_in-is_shown hash snapshot)

-- An image on the disk is deleted exactly when its name is a hash, no item of the collections or of
-- the calendar shows it, and it is not pinned.
pub plan_public_image_gc-collect_referenced_image_hashes :
    (on_disk pinned : List Text) (snapshot : PublicSnapshot) (hash : Text)
    → has_hash hash
        (plan_public_image_gc on_disk (collect_referenced_image_hashes snapshot) pinned).delete
      ≡ (has_hash hash on_disk
          && is_sha256 hash
          && not (is_shown hash snapshot || has_hash hash pinned))
unfolding plan_public_image_gc collect_referenced_image_hashes
plan_public_image_gc-collect_referenced_image_hashes on_disk pinned snapshot hash =
    any-sort text_lt (equals hash) _
    ∙ has_hash-filter _ hash on_disk
    ∙ rw
        (
          has_hash-add_hashes hash pinned (add_hashes (add_lists (lists_in snapshot) []) []),
          has_hash-add_hashes hash (add_lists (lists_in snapshot) []) [],
          has_hash-shown hash snapshot,
        )
        (simplify (has_hash hash on_disk) (is_sha256 hash) (is_shown hash snapshot)
          (has_hash hash pinned))
  where
    simplify :
        (d s r p : Bool)
        → (d && (s && not (p || (((s && r) || false) || false)))) ≡ (d && s && not (r || p))
    simplify d s r p = ground arith
