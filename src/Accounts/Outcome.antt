-- ===== src/Accounts/Outcome.antt =====
-- Which requests are accepted, and what a synchronisation writes.
use airing_cal.Common.{
  ℕ, ◌≤◌, ◌<◌, ◌≡◌, ◌↔◌, refl, Bool, true, false, not, ◌&&◌, ◌||◌, Option, none, some, List, Text,
  units, is_blank, Result, ok, err, ◌>>◌, err_not_ok, any, every, length, ltb, leb, arith,
}
use airing_cal.Accounts.{ComparisonItem, equals}
use airing_cal.Accounts.Sync.{
  SyncRequest, SyncError, is_comparison_item, is_missing, require, check_items, check_subject_ids,
  has_elements, validate_sync_request,
}

abbrev AreFewItems : Option (List ComparisonItem) → Type 0
AreFewItems none = Unit
AreFewItems (some items) =
    (1 ≤ length items) × (length items ≤ 5) × (every is_comparison_item items ≡ true)

abbrev AreFewIds : Option (List Text) → Type 0
AreFewIds none = Unit
AreFewIds (some ids) = (length ids ≤ 5) × (any is_blank ids ≡ false)

-- What an accepted request satisfies.
pub record IsAcceptable (request : SyncRequest) : Type 0 where
  pub known_mode :
      (equals request.mode (units "full") || equals request.mode (units "partial")) ≡ true
  pub has_users : (not (is_missing request.from) && not (is_missing request.to)) ≡ true
  pub few_items : AreFewItems request.items
  pub few_ids : AreFewIds request.subject_ids
  pub selects :
      (not (equals request.mode (units "partial"))
        || has_elements request.items
        || has_elements request.subject_ids)
      ≡ true

required : (b : Bool) (message : Text) → require b message ≡ ok tt → b ≡ true
required true message h = refl
required false message h = absurd (err_not_ok h)

passed :
    (first rest : Result SyncError (Unit {0}))
    → (first >> rest) ≡ ok tt
    → (first ≡ ok tt) × (rest ≡ ok tt)
passed (ok u) rest h = (refl, h)
passed (err thrown) rest h = absurd (err_not_ok h)

passes :
    {first rest : Result SyncError (Unit {0})}
    → first ≡ ok tt
    → rest ≡ ok tt
    → (first >> rest) ≡ ok tt
passes h k = rw h k

requires : {b : Bool} (message : Text) → b ≡ true → require b message ≡ ok tt
requires message h = rw h refl

leb_sound : (a b : ℕ) → leb a b ≡ true → a ≤ b
leb_sound a b h = ground arith

ltb_sound : (a b : ℕ) → ltb a b ≡ true → a < b
ltb_sound a b h = ground arith

not-false : (b : Bool) → not b ≡ true → b ≡ false
not-false true h = absurd (ground arith)
not-false false h = refl

check_items_lem :
    (items : Option (List ComparisonItem)) → check_items items ≡ ok tt → AreFewItems items
check_items_lem none h = tt
check_items_lem (some items) h =
    let outer = passed (require (ltb 0 (length items)) _ >> require (leb (length items) 5) _) _ h in
    let inner = passed (require (ltb 0 (length items)) _) _ outer.0 in
    (
      ltb_sound 0 (length items) (required _ _ inner.0),
      leb_sound (length items) 5 (required _ _ inner.1),
      required _ _ outer.1,
    )

check_subject_ids_lem : (ids : Option (List Text)) → check_subject_ids ids ≡ ok tt → AreFewIds ids
check_subject_ids_lem none h = tt
check_subject_ids_lem (some ids) h =
    let both = passed (require (not (any is_blank ids)) _) _ h in
    (leb_sound (length ids) 5 (required _ _ both.1), not-false _ (required _ _ both.0))

AreFewItems-check_items :
    (items : Option (List ComparisonItem)) → AreFewItems items → check_items items ≡ ok tt
AreFewItems-check_items none h = refl
AreFewItems-check_items (some items) (some_there, few, valid) =
    passes (passes (requires _ (ground arith)) (requires _ (ground arith))) (requires _ valid)

AreFewIds-check_subject_ids :
    (ids : Option (List Text)) → AreFewIds ids → check_subject_ids ids ≡ ok tt
AreFewIds-check_subject_ids none h = refl
AreFewIds-check_subject_ids (some ids) (few, valid) =
    passes (requires _ (ground arith)) (requires _ (ground arith))

-- A request passes the validation exactly when its mode is known, both users are named, its items,
-- if given, are one to five and well-formed, its subject ids, if given, are at most five and not
-- blank, and it has items or subject ids if it is partial.
pub validate_sync_request_iff :
    (request : SyncRequest) → (validate_sync_request request ≡ ok tt) ↔ IsAcceptable request
unfolding validate_sync_request
validate_sync_request_iff request = (there, back)
  where
    there : validate_sync_request request ≡ ok tt → IsAcceptable request
    there h =
        let last = passed _ _ h in
        let ids = passed _ _ last.0 in
        let items = passed _ _ ids.0 in
        let users = passed _ _ items.0 in
        record {
          known_mode = required _ _ users.0;
          has_users = required _ _ users.1;
          few_items = check_items_lem request.items items.1;
          few_ids = check_subject_ids_lem request.subject_ids ids.1;
          selects = required _ _ last.1;
        }

    back : IsAcceptable request → validate_sync_request request ≡ ok tt
    back h =
        passes
          (passes
            (passes (passes (requires _ h.known_mode) (requires _ h.has_users))
              (AreFewItems-check_items request.items h.few_items))
            (AreFewIds-check_subject_ids request.subject_ids h.few_ids))
          (requires _ h.selects)
