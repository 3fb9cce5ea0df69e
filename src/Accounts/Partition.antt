-- ===== src/Accounts/Partition.antt =====
-- In which list of a comparison an entry stands, and how often.
use airing_cal.Common.{
  ℕ, ◌+◌, ◌≡◌, refl, sym, ap, ◌∙◌, Bool, true, false, ◌&&◌, ◌||◌, Option, none, some, is_some, List,
  [], ◌∷◌, ◌++◌, Text, Text-discrete, if◌then◌else◌, Bool-cases, Option-cases, any, any-append,
  filter, length, length-append, get, get-set, set, keys, count, count-append, occurrences,
  holds-sound, inl, inr, arith,
}
use airing_cal.Accounts.{ComparisonItem, Difference, SameEntry, UserSummary, CompareResult, equals}
use airing_cal.Accounts.Compare.{
  Items, index_items, distinct_onto, all_ids, Buckets, no_entries, agree, sort_out, sort_out_all,
  in_both, compare_items, same_entry, difference, only_in_a, only_in_b,
}

-- The last of the fetched items with this id, if there is one.
unfoldable pub last_with : Text → List ComparisonItem → Option ComparisonItem
last_with id [] = none
last_with id (item ∷ items) = elim (last_with id items) [
  | some later ↦ some later
  | none ↦ if equals id item.external_id then some item else none
]

abbrev or_else : Option ComparisonItem → Option ComparisonItem → Option ComparisonItem
or_else none fallback = fallback
or_else (some item) fallback = some item

index_items_lem :
    (id : Text) (entries : Items) (items : List ComparisonItem)
    → get Text-discrete id (index_items entries items)
      ≡ or_else (last_with id items) (get Text-discrete id entries)
unfolding index_items last_with
index_items_lem id entries [] = refl
index_items_lem id entries (item ∷ items) =
    index_items_lem id (set Text-discrete item.external_id item entries) items
    ∙ rw (get-set Text-discrete item.external_id id item entries)
        (here (last_with id items) (equals id item.external_id))
  where
    here :
        (later : Option ComparisonItem) (b : Bool)
        → or_else later (if b then some item else get Text-discrete id entries)
          ≡ or_else
              (elim later [ some l ↦ some l | none ↦ if b then some item else none ])
              (get Text-discrete id entries)
    here (some l) b = refl
    here none true = refl
    here none false = refl

-- The map of the items has the last one of each id.
pub index_items-last_with :
    (id : Text) (items : List ComparisonItem)
    → get Text-discrete id (index_items [] items) ≡ last_with id items
index_items-last_with id items =
    index_items_lem id [] items
    ∙ (elim (Option-cases (last_with id items)) [ inl e ↦ rw e refl | inr (item, e) ↦ rw e refl ])

any-keys :
    (id : Text) (entries : Items)
    → any (equals id) (keys Text-discrete entries) ≡ is_some (get Text-discrete id entries)
any-keys id [] = refl
any-keys id ((k, v) ∷ rest) = elim (Bool-cases (equals id k)) [
  | inl e ↦ rw e refl
  | inr e ↦ rw e (any-keys id rest)
]

any-swap :
    (id x : Text) (found : List Text)
    → equals id x ≡ true
    → any (equals id) found ≡ any (equals x) found
any-swap id x found e = ap (λ y. any (equals y) found) (holds-sound (Text-discrete id x) e)

abbrev IsDistinct : List Text → Type 0
IsDistinct found = (x : Text) → count (equals x) found ≡ occurrences (any (equals x) found)

IsDistinct-append :
    (found : List Text) (x : Text)
    → IsDistinct found
    → any (equals x) found ≡ false
    → IsDistinct (found ++ (x ∷ []))
IsDistinct-append found x h new y =
    rw (count-append (equals y) found (x ∷ []), any-append (equals y) found (x ∷ []))
      (elim (Bool-cases (equals y x)) [
        | inl e ↦ rw e (fresh (any-swap y x found e ∙ new) (h y))
        | inr e ↦ rw e (old (h y))
      ])
  where
    fresh :
        any (equals y) found ≡ false
        → count (equals y) found ≡ occurrences (any (equals y) found)
        → count (equals y) found + (1 + 0) ≡ occurrences (any (equals y) found || (true || false))
    fresh e f = ground arith

    old :
        count (equals y) found ≡ occurrences (any (equals y) found)
        → count (equals y) found + (0 + 0) ≡ occurrences (any (equals y) found || (false || false))
    old f = ground arith

count-distinct_onto :
    (id : Text) (found ids : List Text)
    → IsDistinct found
    → count (equals id) (distinct_onto found ids)
      ≡ occurrences (any (equals id) found || any (equals id) ids)
unfolding distinct_onto
count-distinct_onto id found [] h = ground (arith, h id)
count-distinct_onto id found (x ∷ ids) h = elim (Bool-cases (any (equals x) found)) [
  | inl old ↦ rw old (
      count-distinct_onto id found ids h ∙ elim (Bool-cases (equals id x)) [
        | inl e ↦ rw (e, any-swap id x found e, old) refl
        | inr e ↦ rw e refl
      ])
  | inr new ↦ rw new (
      count-distinct_onto id (found ++ (x ∷ [])) ids (IsDistinct-append found x h new)
      ∙ rw (any-append (equals id) found (x ∷ []))
          (regroup (any (equals id) found) (equals id x) (any (equals id) ids)))
]
  where
    regroup : (p q r : Bool) → occurrences ((p || (q || false)) || r) ≡ occurrences (p || (q || r))
    regroup true q r = refl
    regroup false true r = refl
    regroup false false r = refl

-- How often an id is listed.
abbrev pub listings : Text → Buckets → ℕ
listings id buckets =
    count (λ e. equals id e.external_id) buckets.same
    + count (λ e. equals id e.external_id) buckets.differences
    + count (λ e. equals id e.external_id) buckets.only_a
    + count (λ e. equals id e.external_id) buckets.only_b

listings-sort_out :
    (id x : Text) (a b : Option ComparisonItem) (buckets : Buckets)
    → listings id (sort_out x a b buckets)
      ≡ listings id buckets + (if (is_some a || is_some b) && equals id x then 1 else 0)
unfolding sort_out
listings-sort_out id x none none buckets = omega arith
listings-sort_out id x (some a) none buckets = ground (
  arith,
  count-append (λ (e : Difference). equals id e.external_id) buckets.only_a (only_in_a x a ∷ []),
)
listings-sort_out id x none (some b) buckets = ground (
  arith,
  count-append (λ (e : Difference). equals id e.external_id) buckets.only_b (only_in_b x b ∷ []),
)
listings-sort_out id x (some a) (some b) buckets = elim (Bool-cases (agree a b)) [
  | inl e ↦ rw e (
      ground (
        arith,
        count-append (λ (e : SameEntry). equals id e.external_id) buckets.same
            (same_entry x a ∷ []),
      ))
  | inr e ↦ rw e (
      ground (
        arith,
        count-append (λ (e : Difference). equals id e.external_id) buckets.differences
            (difference x a b ∷ []),
      ))
]

lengths-sort_out :
    (x : Text) (a b : Option ComparisonItem) (buckets : Buckets)
    → length (sort_out x a b buckets).same + length (sort_out x a b buckets).differences
      ≡ length buckets.same + length buckets.differences + (if is_some a && is_some b then 1 else 0)
unfolding sort_out
lengths-sort_out x none none buckets = omega arith
lengths-sort_out x (some a) none buckets = omega arith
lengths-sort_out x none (some b) buckets = omega arith
lengths-sort_out x (some a) (some b) buckets = elim (Bool-cases (agree a b)) [
  | inl e ↦ rw e (omega (arith, length-append buckets.same (same_entry x a ∷ [])))
  | inr e ↦ rw e (omega (arith, length-append buckets.differences (difference x a b ∷ [])))
]

module _ (a b : Items) where
  abbrev present : Text → Bool
  present id = is_some (get Text-discrete id a) || is_some (get Text-discrete id b)

  listings-sort_out_all :
      (id : Text) (ids : List Text) (buckets : Buckets)
      → listings id (sort_out_all a b ids buckets)
        ≡ listings id buckets + (if present id then count (equals id) ids else 0)
  unfolding sort_out_all
  listings-sort_out_all id [] buckets = ground arith
  listings-sort_out_all id (x ∷ ids) buckets =
      listings-sort_out_all id ids
        (sort_out x (get Text-discrete x a) (get Text-discrete x b) buckets)
      ∙ rw (listings-sort_out id x (get Text-discrete x a) (get Text-discrete x b) buckets)
          (elim (Bool-cases (equals id x)) [
            | inl e ↦
                rw e (rw (sym (ap present (holds-sound (Text-discrete id x) e))) (ground arith))
            | inr e ↦ rw e (ground arith)
          ])

  lengths-sort_out_all :
      (ids : List Text) (buckets : Buckets)
      → length (sort_out_all a b ids buckets).same
          + length (sort_out_all a b ids buckets).differences
        ≡ length buckets.same + length buckets.differences + length (filter (in_both a b) ids)
  unfolding sort_out_all
  lengths-sort_out_all [] buckets = omega arith
  lengths-sort_out_all (id ∷ ids) buckets = ground (
    arith,
    lengths-sort_out_all ids
        (sort_out id (get Text-discrete id a) (get Text-discrete id b) buckets),
    lengths-sort_out id (get Text-discrete id a) (get Text-discrete id b) buckets,
  )

abbrev pub buckets_of : CompareResult → Buckets
buckets_of result = record {
  same = result.same;
  differences = result.differences;
  only_a = result.only_a;
  only_b = result.only_b;
}

-- Every id that either account has stands in exactly one of the four lists, once, and no other id
-- stands in any.
pub compare_items-partition :
    (user_a user_b : UserSummary) (items_a items_b : List ComparisonItem) (id : Text)
    → listings id (buckets_of (compare_items user_a items_a user_b items_b))
      ≡ occurrences (is_some (last_with id items_a) || is_some (last_with id items_b))
unfolding compare_items
compare_items-partition user_a user_b items_a items_b id =
    listings-sort_out_all (index_items [] items_a) (index_items [] items_b) id
      (all_ids (index_items [] items_a) (index_items [] items_b)) no_entries
    ∙ rw
        (
          count-distinct_onto id []
              (keys Text-discrete (index_items [] items_a)
                ++ keys Text-discrete (index_items [] items_b))
              (λ x. refl),
          any-append (equals id) (keys Text-discrete (index_items [] items_a))
              (keys Text-discrete (index_items [] items_b)),
          any-keys id (index_items [] items_a),
          any-keys id (index_items [] items_b),
          index_items-last_with id items_a,
          index_items-last_with id items_b,
        )
        (once (is_some (last_with id items_a) || is_some (last_with id items_b)))
  where
    once : (p : Bool) → 0 + (if p then occurrences p else 0) ≡ occurrences p
    once true = omega arith
    once false = omega arith

-- The number of common entries is that of the equal and the different ones together.
pub compare_items-common :
    (user_a user_b : UserSummary) (items_a items_b : List ComparisonItem)
    → (compare_items user_a items_a user_b items_b).common
      ≡ length (compare_items user_a items_a user_b items_b).same
        + length (compare_items user_a items_a user_b items_b).differences
unfolding compare_items
compare_items-common user_a user_b items_a items_b = omega (
  arith,
  lengths-sort_out_all (index_items [] items_a) (index_items [] items_b)
      (all_ids (index_items [] items_a) (index_items [] items_b)) no_entries,
)
