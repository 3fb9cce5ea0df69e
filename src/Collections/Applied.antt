-- ===== src/Collections/Applied.antt =====
-- A plan that was applied without interference is in the table.
use airing_cal.Common.{
  ◌≤◌, some, ℕ, ◌+◌, ◌≡◌, refl, sym, inl, inr, subst, Option, List, [], ◌∷◌, ◌++◌, ok, returned,
  Result-cases, err_not_ok, arith, All, All-append, All-front, All-back, All-both,
}
use airing_cal.Rows.{CollectionRow}
use airing_cal.Diff.{CollectionDiffPlan}
use airing_cal.Collections.{CollectionItems, PendingWrite, writes_of}
use airing_cal.Collections.Apply.{
  Store, Checkpoint, execute_all, checkpoint_statement, reconcile_all, check_batch, batches,
  apply_batch, apply_batches, apply_collection_diff,
}
use airing_cal.Collections.Versions.{IsChecked, writes_of-All, writes_of-AllOf}
use airing_cal.Collections.Batches.{concat, batches-All, batches_complete}
use airing_cal.Collections.Landed.{Landed, IsApart, AllApart, execute_all-Landed, execute_all-keeps}

abbrev pub alone : Store → Store
alone store = store

check_batch-reconciled :
    (checkpoint : Option Checkpoint) (chunk : List PendingWrite) (changes : List ℕ) (moved : ℕ)
    (store : Store)
    → check_batch checkpoint chunk changes moved store ≡ ok tt
    → reconcile_all chunk changes store.items ≡ ok tt
unfolding check_batch
check_batch-reconciled checkpoint chunk changes moved store h = ground arith

-- A batch that succeeds executed its statements, and the checks passed.
apply_batch-ok :
    (checkpoint : Option Checkpoint) (chunk : List PendingWrite) (store : Store) (n : ℕ)
    → (apply_batch alone checkpoint chunk store).0 ≡ ok n
    → ((apply_batch alone checkpoint chunk store).1.items ≡ (execute_all chunk store.items).0)
      × (reconcile_all chunk (execute_all chunk store.items).1 (execute_all chunk store.items).0
          ≡ ok tt)
unfolding apply_batch
apply_batch-ok checkpoint chunk store n =
    elim (Result-cases (checkpoint_statement checkpoint store.runs)) [
      | inl (e, is_err) ↦ rw (is_err, apply_batch) (λ h. elim (err_not_ok h) [ ])
      | inr ((runs, moved), is_ok) ↦
          rw (is_ok, apply_batch)
            (λ h.
              let (_, checked, _) =
                returned (check_batch checkpoint chunk (execute_all chunk store.items).1 moved _) _
                  h in
              (
                refl,
                check_batch-reconciled checkpoint chunk (execute_all chunk store.items).1 moved _
                    checked,
              ))
    ]

pub AllApart-front : (front back : List PendingWrite) → AllApart (front ++ back) → AllApart front
AllApart-front [] back h = tt
AllApart-front (x ∷ front) back (h, hs) =
    (All-front (IsApart x) front back h, AllApart-front front back hs)

pub AllApart-back : (front back : List PendingWrite) → AllApart (front ++ back) → AllApart back
AllApart-back [] back h = h
AllApart-back (x ∷ front) back (h, hs) = AllApart-back front back hs

-- Each of the first writes is apart from all the later ones.
pub AllApart-across :
    (front back : List PendingWrite)
    → AllApart (front ++ back)
    → All (λ one. All (IsApart one) back) front
AllApart-across [] back h = tt
AllApart-across (x ∷ front) back (h, hs) =
    (All-back (IsApart x) front back h, AllApart-across front back hs)

-- What a successful run of batches does to the items, and what it keeps.
apply_batches-keeps :
    (one : PendingWrite) (checkpoint : Option Checkpoint) (rows_written : ℕ)
    (chunks : List (List PendingWrite)) (store : Store) (n : ℕ)
    → All (IsApart one) (concat chunks)
    → Landed store.items one
    → (apply_batches alone checkpoint rows_written chunks store).0 ≡ ok n
    → Landed (apply_batches alone checkpoint rows_written chunks store).1.items one
unfolding apply_batches
apply_batches-keeps one checkpoint rows_written [] store n apart h = λ _. h
apply_batches-keeps one checkpoint rows_written (chunk ∷ chunks) store n apart h =
    elim (Result-cases (apply_batch alone checkpoint chunk store).0) [
      | inl (e, is_err) ↦ rw (is_err, apply_batches) (λ k. elim (err_not_ok k) [ ])
      | inr (changes, is_ok) ↦
          rw (is_ok, apply_batches)
            (apply_batches-keeps one checkpoint (rows_written + changes) chunks
              (apply_batch alone checkpoint chunk store).1 n
              (All-back (IsApart one) chunk (concat chunks) apart)
              (subst (λ items. Landed items one)
                (sym (apply_batch-ok checkpoint chunk store changes is_ok).0)
                (execute_all-keeps one chunk store.items
                  (All-front (IsApart one) chunk (concat chunks) apart) h)))
    ]

apply_batches-Landed :
    (checkpoint : Option Checkpoint) (rows_written : ℕ) (chunks : List (List PendingWrite))
    (store : Store) (n : ℕ)
    → All (All IsChecked) chunks
    → AllApart (concat chunks)
    → (apply_batches alone checkpoint rows_written chunks store).0 ≡ ok n
    → All
        (Landed (apply_batches alone checkpoint rows_written chunks store).1.items)
        (concat chunks)
unfolding apply_batches
apply_batches-Landed checkpoint rows_written [] store n h apart = λ _. tt
apply_batches-Landed checkpoint rows_written (chunk ∷ chunks) store n (h, hs) apart =
    elim (Result-cases (apply_batch alone checkpoint chunk store).0) [
      | inl (e, is_err) ↦ rw (is_err, apply_batches) (λ k. elim (err_not_ok k) [ ])
      | inr (changes, is_ok) ↦
          rw (is_ok, apply_batches)
            (λ k.
              let (items_eq, reconciled) = apply_batch-ok checkpoint chunk store changes is_ok in
              let landed : All (Landed (apply_batch alone checkpoint chunk store).1.items) chunk =
                subst (λ items. All (Landed items) chunk) (sym items_eq)
                  (execute_all-Landed chunk store.items h
                    (AllApart-front chunk (concat chunks) apart) reconciled) in
              All-append _ chunk (concat chunks)
                (All-both (Landed (apply_batch alone checkpoint chunk store).1.items)
                  (λ one. All (IsApart one) (concat chunks)) _
                  (λ one is_landed is_apart.
                    apply_batches-keeps one checkpoint (rows_written + changes) chunks
                      (apply_batch alone checkpoint chunk store).1 n is_apart is_landed k)
                  chunk landed (AllApart-across chunk (concat chunks) apart))
                (apply_batches-Landed checkpoint (rows_written + changes) chunks
                  (apply_batch alone checkpoint chunk store).1 n hs
                  (AllApart-back chunk (concat chunks) apart) k))
    ]

-- Every write of a plan has landed.
apply_collection_diff-writes :
    (plan : CollectionDiffPlan) (checkpoint : Option Checkpoint) (store : Store)
    (writes : List PendingWrite) (n : ℕ)
    → writes_of plan ≡ ok writes
    → AllApart writes
    → (apply_collection_diff alone plan checkpoint store).0 ≡ ok n
    → All (Landed (apply_collection_diff alone plan checkpoint store).1.items) writes
unfolding apply_collection_diff
apply_collection_diff-writes plan checkpoint store writes n is_ok apart =
    rw (is_ok, apply_collection_diff)
      (λ h.
        let same = (batches_complete checkpoint writes).0 in
        subst (All _) same (
          apply_batches-Landed checkpoint 0 (batches checkpoint writes) store n
            (batches-All checkpoint writes (writes_of-All plan writes is_ok))
            (subst AllApart (sym same) apart) h))

-- What the table holds of a plan: each update and each restored row as planned, each insert as
-- planned or with an earlier first sight, and each missing or deleted row with its planned version
-- and its mark.
abbrev pub HasLanded : CollectionItems → CollectionDiffPlan → Type 0
HasLanded items plan =
    All
      (λ planned.
        (row : CollectionRow) × (items planned.user_id planned.subject_id ≡ some row)
        × ((row ≡ record planned { first_seen_at = row.first_seen_at })
            × (row.first_seen_at ≤ planned.first_seen_at)))
      plan.inserts
    × All
        (λ planned.
          (row : CollectionRow) × (items planned.user_id planned.subject_id ≡ some row)
          × (row ≡ planned))
        plan.updates
    × All
        (λ planned.
          (row : CollectionRow) × (items planned.user_id planned.subject_id ≡ some row)
          × (row ≡ planned))
        plan.restored
    × All
        (λ planned.
          (row : CollectionRow) × (items planned.user_id planned.subject_id ≡ some row)
          × ((row.state_version ≡ planned.state_version)
              × (row.missing_since ≡ planned.missing_since)))
        plan.first_missing
    × All
        (λ planned.
          (row : CollectionRow) × (items planned.user_id planned.subject_id ≡ some row)
          × ((row.state_version ≡ planned.state_version) × (row.deleted_at ≡ planned.deleted_at)))
        plan.confirmed_deleted

-- When a plan whose writes have distinct keys is applied without interference and succeeds, every
-- update and every restored row of it is in the table as planned, every insert too, perhaps with an
-- earlier first sight, and every missing or deleted row has its version and its mark.
pub apply_collection_diff-Landed :
    (plan : CollectionDiffPlan) (checkpoint : Option Checkpoint) (store : Store)
    (writes : List PendingWrite) (n : ℕ)
    → writes_of plan ≡ ok writes
    → AllApart writes
    → (apply_collection_diff alone plan checkpoint store).0 ≡ ok n
    → HasLanded (apply_collection_diff alone plan checkpoint store).1.items plan
apply_collection_diff-Landed plan checkpoint store writes n is_ok apart h =
    writes_of-AllOf (Landed (apply_collection_diff alone plan checkpoint store).1.items) plan writes
      is_ok (apply_collection_diff-writes plan checkpoint store writes n is_ok apart h)
