-- ===== src/Collections/Success.antt =====
-- A plan that fits the table is applied: no write is found stale.
use airing_cal.Common.{
  ℕ, ◌+◌, ◌-◌, ◌≡◌, refl, sym, ◌∙◌, subst, true, Option, none, some, List, [], ◌∷◌, ◌++◌, Result,
  ok, ◌==◌, arith, length, length-append, All, All-front, All-back, All-both,
}
use airing_cal.Rows.{CollectionRow}
use airing_cal.Diff.{CollectionDiffPlan}
use airing_cal.Collections.{
  CollectionItems, item_of, WriteKind, restore, confirm_deleted, first_missing, update, insert,
  PendingWrite, writes_of,
}
use airing_cal.Collections.Statements.{written, execute}
use airing_cal.Collections.Apply.{
  Store, StoreError, execute_all, checkpoint_statement, assert_checkpoint, reconcile_all,
  check_batch, sum, batches, apply_batch, apply_batches, apply_collection_diff,
}
use airing_cal.Collections.Batches.{concat, batches_complete}
use airing_cal.Collections.Landed.{IsApart, AllApart, execute-apart, execute_all-apart}
use airing_cal.Collections.Applied.{alone, AllApart-front, AllApart-back}

-- The write fits the row under its key: an insert finds none, and the others find one of the version
-- before the planned one.
abbrev pub Fits : WriteKind → CollectionRow → Option CollectionRow → Type 0
Fits insert planned current = current ≡ none
Fits _ planned none = ⊥
Fits _ planned (some current) = (current.state_version == planned.state_version - 1) ≡ true

abbrev pub IsFitting : CollectionItems → PendingWrite → Type 0
IsFitting items write = Fits write.kind write.planned (item_of write.planned items)

written-fitting :
    (kind : WriteKind) (planned : CollectionRow) (current : Option CollectionRow)
    → Fits kind planned current
    → (row : CollectionRow) × (written kind planned current ≡ some row)
unfolding written
written-fitting insert planned current h = (planned, rw (h, written) refl)
written-fitting restore planned (some current) h = (planned, rw (h, written) refl)
written-fitting update planned (some current) h = (planned, rw (h, written) refl)
written-fitting first_missing planned (some current) h = (
  record current { missing_since = planned.missing_since; state_version = planned.state_version },
  rw (h, written) refl,
)
written-fitting confirm_deleted planned (some current) h = (
  record current { deleted_at = planned.deleted_at; state_version = planned.state_version },
  rw (h, written) refl,
)
written-fitting restore planned none h = elim h [ ]
written-fitting update planned none h = elim h [ ]
written-fitting first_missing planned none h = elim h [ ]
written-fitting confirm_deleted planned none h = elim h [ ]

execute-fitting :
    (write : PendingWrite) (items : CollectionItems)
    → IsFitting items write
    → (execute write items).1 ≡ 1
unfolding execute
execute-fitting write items h =
    let (row, e) = written-fitting write.kind write.planned (item_of write.planned items) h in
    rw (e, execute) refl

-- Each write changes one row.
abbrev ones : List PendingWrite → List ℕ
ones [] = []
ones (write ∷ writes) = 1 ∷ ones writes

sum-ones : (writes : List PendingWrite) → sum (ones writes) ≡ length writes
unfolding sum
sum-ones [] = refl
sum-ones (write ∷ writes) = omega (arith, sum-ones writes)

IsApart-sym : (one other : PendingWrite) → IsApart one other → IsApart other one
IsApart-sym one other h = ground arith

IsFitting-keeps :
    (one write : PendingWrite) (items : CollectionItems)
    → IsApart one write
    → IsFitting items one
    → IsFitting (execute write items).0 one
IsFitting-keeps one write items apart h =
    subst (Fits one.kind one.planned) (sym (execute-apart one write items apart)) h

execute_all-fitting :
    (writes : List PendingWrite) (items : CollectionItems)
    → AllApart writes
    → All (IsFitting items) writes
    → (execute_all writes items).1 ≡ ones writes
unfolding execute_all
execute_all-fitting [] items apart h = refl
execute_all-fitting (write ∷ writes) items (apart, aparts) (h, hs) =
    let next : CollectionItems = (execute write items).0 in
    let fitting : All (IsFitting next) writes =
      All-both (IsApart write) (IsFitting items) (IsFitting next)
        (λ other is_apart is_fitting.
          IsFitting-keeps other write items (IsApart-sym write other is_apart) is_fitting)
        writes apart hs in
    rw (execute-fitting write items h, execute_all-fitting writes next aparts fitting) refl

reconcile_all-ones :
    (writes : List PendingWrite) (items : CollectionItems)
    → reconcile_all writes (ones writes) items ≡ ok tt
unfolding reconcile_all
reconcile_all-ones [] items = refl
reconcile_all-ones (write ∷ writes) items = reconcile_all-ones writes items

apply_batch-fitting :
    (chunk : List PendingWrite) (store : Store)
    → AllApart chunk
    → All (IsFitting store.items) chunk
    → apply_batch alone none chunk store
      ≡ (ok (length chunk), record store { items = (execute_all chunk store.items).0 })
unfolding apply_batch checkpoint_statement check_batch assert_checkpoint
apply_batch-fitting chunk store apart h =
    rw
      (
        execute_all-fitting chunk store.items apart h,
        check_batch,
        reconcile_all-ones chunk (execute_all chunk store.items).0,
        sum-ones chunk,
      )
      refl

ok_of : {m n : ℕ} → m ≡ n → ◌≡◌ {A = Result StoreError ℕ} (ok m) (ok n)
ok_of e = rw e refl

-- Each of the later writes is apart from all the first ones.
AllApart-before :
    (front back : List PendingWrite)
    → AllApart (front ++ back)
    → All (λ one. All (IsApart one) front) back
AllApart-before [] back h = nothing back
  where
    nothing : (back : List PendingWrite) → All (λ one. All (IsApart one) []) back
    nothing [] = tt
    nothing (write ∷ writes) = (tt, nothing writes)
AllApart-before (write ∷ front) back (h, hs) =
    All-both (IsApart write) (λ one. All (IsApart one) front)
      (λ one. All (IsApart one) (write ∷ front))
      (λ one is_apart aparts. (IsApart-sym write one is_apart, aparts)) back
      (All-back (IsApart write) front back h) (AllApart-before front back hs)

-- Batches of writes that fit are applied one after the other.
apply_batches-fitting :
    (rows_written : ℕ) (chunks : List (List PendingWrite)) (store : Store)
    → AllApart (concat chunks)
    → All (IsFitting store.items) (concat chunks)
    → (apply_batches alone none rows_written chunks store).0
      ≡ ok (rows_written + length (concat chunks))
unfolding apply_batches
apply_batches-fitting rows_written [] store apart h = ok_of (omega arith)
apply_batches-fitting rows_written (chunk ∷ chunks) store apart h =
    let back = concat chunks in
    let next : Store = record store { items = (execute_all chunk store.items).0 } in
    let fitting : All (IsFitting next.items) back =
      All-both (λ one. All (IsApart one) chunk) (IsFitting store.items) (IsFitting next.items)
        (λ one aparts is_fitting.
          subst (Fits one.kind one.planned) (sym (execute_all-apart one chunk store.items aparts))
            is_fitting)
        back (AllApart-before chunk back apart) (All-back (IsFitting store.items) chunk back h) in
    let first =
      apply_batch-fitting chunk store (AllApart-front chunk back apart)
        (All-front (IsFitting store.items) chunk back h) in
    rw
      (
        first,
        apply_batches,
        first,
        apply_batches-fitting (rows_written + length chunk) chunks next
            (AllApart-back chunk back apart) fitting,
      )
      (ok_of (omega (arith, length-append chunk back)))

-- A plan whose writes have distinct keys and fit the table, an insert an absent key and each other
-- write a row of the version before its own, is applied without interference and without a
-- checkpoint: it succeeds, and one row is written for each write.
pub apply_collection_diff-succeeds :
    (plan : CollectionDiffPlan) (store : Store) (writes : List PendingWrite)
    → writes_of plan ≡ ok writes
    → AllApart writes
    → All (IsFitting store.items) writes
    → (apply_collection_diff alone plan none store).0 ≡ ok (length writes)
unfolding apply_collection_diff
apply_collection_diff-succeeds plan store writes is_ok apart h =
    let same = (batches_complete none writes).0 in
    rw (is_ok, apply_collection_diff)
      (apply_batches-fitting 0 (batches none writes) store (subst AllApart (sym same) apart)
          (subst (All (IsFitting store.items)) (sym same) h)
        ∙ rw same (ok_of (omega arith)))
