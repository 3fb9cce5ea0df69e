-- ===== src/Accounts/Failures.antt =====
-- A comparison of accounts of which one could not be fetched, or both.
use airing_cal.Common.{
  ◌≡◌, refl, none, some, List, Text, Result, ok, err, Bool-cases, ◌&&◌, inl, inr,
}
use airing_cal.Accounts.{ComparisonItem, Thrown, message_of}
use airing_cal.Accounts.Compare.{
  index_items, distinct_onto, sort_out_all, compare_items, summary_of, items_of,
  authentication_error, is_truthy, compare_settled,
}

-- Unless a failure is one of authentication, the answer is the comparison of what was fetched, where
-- an account that failed counts as empty, also when both failed.
pub compare_settled-compare_items :
    (name_a name_b : Text) (settled_a settled_b : Result Thrown (List ComparisonItem))
    → authentication_error settled_a ≡ none
    → authentication_error settled_b ≡ none
    → compare_settled name_a settled_a name_b settled_b
      ≡ ok (
          compare_items
            (summary_of name_a settled_a)
            (items_of settled_a)
            (summary_of name_b settled_b)
            (items_of settled_b))
unfolding compare_settled compare_items index_items distinct_onto sort_out_all
compare_settled-compare_items name_a name_b (ok a) (ok b) e f = refl
compare_settled-compare_items name_a name_b (ok a) (err u) e f = rw (f, compare_settled) refl
compare_settled-compare_items name_a name_b (err t) (ok b) e f =
    rw (e, compare_settled)
      (elim (Bool-cases (is_truthy (some (message_of t)))) [
        | inl g ↦ rw g refl
        | inr g ↦ rw g refl
      ])
compare_settled-compare_items name_a name_b (err t) (err u) e f =
    rw (e, compare_settled)
      (rw f
        (elim (Bool-cases (is_truthy (some (message_of t)) && is_truthy (some (message_of u)))) [
          | inl g ↦ rw g refl
          | inr g ↦ rw g refl
        ]))
