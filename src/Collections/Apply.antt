-- ===== src/Collections/Apply.antt =====
-- applyCollectionDiff: the batches of a plan's writes, each with the checkpoint of its sync run.
use airing_cal.Common.{
  ℕ, zero, suc, ◌+◌, Option, none, some, List, [], ◌∷◌, ◌++◌, Result, ok, err, ◌>>◌, Text,
  if◌then◌else◌, ◌==◌,
}
use airing_cal.Diff.{CollectionDiffPlan}
use airing_cal.Runs.{SyncRuns, SyncRunUpdate, SyncRunCheckpointGuard, RunError}
use airing_cal.Runs.Operations.{update_statement, assert_applied}
use airing_cal.Collections.{CollectionItems, PendingWrite, ApplyError, writes_of}
use airing_cal.Collections.Statements.{execute, reconcile}

pub record Store : Type 0 where
  pub items : CollectionItems
  pub runs : SyncRuns

pub data StoreError : Type 0 where
  of_apply : ApplyError → StoreError
  of_run : RunError → StoreError

pub record Checkpoint : Type 0 where
  pub instance_id : Text
  pub update : SyncRunUpdate
  pub guard : Option SyncRunCheckpointGuard

-- The mutations of a batch, with the rows that each changed.
unfoldable pub execute_all : List PendingWrite → CollectionItems → CollectionItems × List ℕ
execute_all [] items = (items, [])
execute_all (write ∷ writes) items =
    let (next, changes) = execute write items in
    let (last, rest) = execute_all writes next in (last, changes ∷ rest)

-- The last statement of a batch, which makes it fail and leave no trace, or tells its changes.
unfoldable pub checkpoint_statement : Option Checkpoint → SyncRuns → Result RunError (SyncRuns × ℕ)
checkpoint_statement none runs = ok (runs, 1)
checkpoint_statement (some c) runs = update_statement c.instance_id c.update c.guard runs

unfoldable pub assert_checkpoint : Option Checkpoint → ℕ → SyncRuns → Result RunError (Unit {0})
assert_checkpoint none changes runs = ok tt
assert_checkpoint (some c) changes runs = assert_applied c.instance_id changes runs

unfoldable pub reconcile_all :
    List PendingWrite → List ℕ → CollectionItems → Result ApplyError (Unit {0})
reconcile_all (write ∷ writes) (changes ∷ rest) items = do
  if changes == 0 then reconcile write items else ok tt
  reconcile_all writes rest items
reconcile_all _ _ items = ok tt

unfoldable pub sum : List ℕ → ℕ
sum [] = 0
sum (n ∷ ns) = n + sum ns

-- The writes in chunks of at most `size + 1`; `room` is left in the current chunk.
unfoldable pub chunks_onto :
    ℕ → ℕ → List PendingWrite → List PendingWrite → List (List PendingWrite)
chunks_onto size room chunk [] = chunk ∷ []
chunks_onto size zero chunk (write ∷ writes) = chunk ∷ chunks_onto size size (write ∷ []) writes
chunks_onto size (suc room) chunk (write ∷ writes) =
    chunks_onto size room (chunk ++ write ∷ []) writes

-- The batches: fifty statements at most, the checkpoint included. With no write there is one batch
-- for the checkpoint alone.
unfoldable pub batches : Option Checkpoint → List PendingWrite → List (List PendingWrite)
unfolding chunks_onto
batches none [] = []
batches none (write ∷ writes) = chunks_onto 49 49 (write ∷ []) writes
batches (some _) [] = [] ∷ []
batches (some _) (write ∷ writes) = chunks_onto 48 48 (write ∷ []) writes

-- What follows a batch that was executed, on the store that the checks read.
unfoldable pub check_batch :
    Option Checkpoint → List PendingWrite → List ℕ → ℕ → Store → Result StoreError (Unit {0})
check_batch checkpoint chunk changes moved store =
    elim (assert_checkpoint checkpoint moved store.runs) [
      | err e ↦ err (of_run e)
      | ok _ ↦ elim (reconcile_all chunk changes store.items) [
        | err e ↦ err (of_apply e)
        | ok _ ↦ ok tt
      ]
    ]

-- `race` is what other clients write between a batch and the reads that check it.
module _ (race : Store → Store) where
  unfoldable pub apply_batch :
      Option Checkpoint → List PendingWrite → Store → Result StoreError ℕ × Store
  apply_batch checkpoint chunk store = elim (checkpoint_statement checkpoint store.runs) [
    | err e ↦ (err (of_run e), race store)
    | ok (runs, moved) ↦
        let (items, changes) = execute_all chunk store.items in
        let next = race (record { items = items; runs = runs }) in
        (do check_batch checkpoint chunk changes moved next; ok (sum changes), next)
  ]

  unfoldable pub apply_batches :
      Option Checkpoint → ℕ → List (List PendingWrite) → Store → Result StoreError ℕ × Store
  apply_batches checkpoint rows_written [] store = (ok rows_written, store)
  apply_batches checkpoint rows_written (chunk ∷ chunks) store =
      let (written, next) = apply_batch checkpoint chunk store in
      elim written [
        | err e ↦ (err e, next)
        | ok changes ↦ apply_batches checkpoint (rows_written + changes) chunks next
      ]

  -- applyCollectionDiff
  unfoldable pub apply_collection_diff :
      CollectionDiffPlan → Option Checkpoint → Store → Result StoreError ℕ × Store
  apply_collection_diff plan checkpoint store = elim (writes_of plan) [
    | err e ↦ (err (of_apply e), store)
    | ok writes ↦ apply_batches checkpoint 0 (batches checkpoint writes) store
  ]
