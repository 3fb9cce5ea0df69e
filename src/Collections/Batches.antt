-- ===== src/Collections/Batches.antt =====
-- The batches of a plan, and what the whole of them does to the table.
use airing_cal.Common.{
  ℕ, zero, suc, ◌+◌, ◌≤◌, ◌≡◌, refl, inl, inr, Option, none, some, List, [], ◌∷◌, ◌++◌,
  Result-cases, arith, length, length-append, All, All-append, All-mono, ◌∙◌,
}
use airing_cal.Diff.{CollectionDiffPlan}
use airing_cal.Collections.{CollectionItems, PendingWrite, writes_of}
use airing_cal.Collections.Apply.{
  Store, Checkpoint, execute_all, checkpoint_statement, chunks_onto, batches, apply_batch,
  apply_batches, apply_collection_diff,
}
use airing_cal.Collections.Versions.{
  Follows-refl, Follows-trans, Forward, IsChecked, execute_all-Forward, writes_of-All,
}

Forward-refl : (items : CollectionItems) → Forward items items
Forward-refl items user subject = Follows-refl (items user subject)

Forward-trans : (a b c : CollectionItems) → Forward a b → Forward b c → Forward a c
Forward-trans a b c h k user subject =
    Follows-trans (a user subject) (b user subject) (c user subject) (h user subject)
      (k user subject)

chunks_onto-All :
    (size room : ℕ) (chunk writes : List PendingWrite)
    → All IsChecked chunk
    → All IsChecked writes
    → All (All IsChecked) (chunks_onto size room chunk writes)
unfolding chunks_onto
chunks_onto-All size room chunk [] h k = (h, tt)
chunks_onto-All size zero chunk (write ∷ writes) h (k, ks) =
    (h, chunks_onto-All size size (write ∷ []) writes (k, tt) ks)
chunks_onto-All size (suc room) chunk (write ∷ writes) h (k, ks) =
    chunks_onto-All size room (chunk ++ write ∷ []) writes
      (All-append IsChecked chunk (write ∷ []) h (k, tt)) ks

pub batches-All :
    (checkpoint : Option Checkpoint) (writes : List PendingWrite)
    → All IsChecked writes
    → All (All IsChecked) (batches checkpoint writes)
unfolding batches
batches-All none [] h = tt
batches-All none (write ∷ writes) (h, hs) = chunks_onto-All 49 49 (write ∷ []) writes (h, tt) hs
batches-All (some _) [] h = (tt, tt)
batches-All (some _) (write ∷ writes) (h, hs) = chunks_onto-All 48 48 (write ∷ []) writes (h, tt) hs

abbrev pub concat : List (List PendingWrite) → List PendingWrite
concat [] = []
concat (chunk ∷ chunks) = chunk ++ concat chunks

append_assoc : (a b c : List PendingWrite) → (a ++ b) ++ c ≡ a ++ (b ++ c)
append_assoc [] b c = refl
append_assoc (x ∷ a) b c = rw (append_assoc a b c) refl

chunks_onto-concat :
    (size room : ℕ) (chunk writes : List PendingWrite)
    → concat (chunks_onto size room chunk writes) ≡ chunk ++ writes
unfolding chunks_onto
chunks_onto-concat size room chunk [] = refl
chunks_onto-concat size zero chunk (write ∷ writes) =
    rw (chunks_onto-concat size size (write ∷ []) writes) refl
chunks_onto-concat size (suc room) chunk (write ∷ writes) =
    chunks_onto-concat size room (chunk ++ write ∷ []) writes
    ∙ append_assoc chunk (write ∷ []) writes

-- A chunk with at most so many writes.
abbrev AtMost : ℕ → List PendingWrite → Type 0
AtMost limit chunk = length chunk ≤ limit

chunks_onto-AtMost :
    (size room : ℕ) (chunk writes : List PendingWrite)
    → length chunk + room ≤ size + 1
    → All (AtMost (size + 1)) (chunks_onto size room chunk writes)
unfolding chunks_onto
chunks_onto-AtMost size room chunk [] h = (omega arith, tt)
chunks_onto-AtMost size zero chunk (write ∷ writes) h =
    (omega arith, chunks_onto-AtMost size size (write ∷ []) writes (omega arith))
chunks_onto-AtMost size (suc room) chunk (write ∷ writes) h =
    chunks_onto-AtMost size room (chunk ++ write ∷ []) writes
      (omega (arith, length-append chunk (write ∷ [])))

abbrev pub statements : Option Checkpoint → List PendingWrite → ℕ
statements none chunk = length chunk
statements (some _) chunk = length chunk + 1

-- The batches of a list of writes hold each of them, in order, and none has more than fifty
-- statements, the checkpoint included.
pub batches_complete :
    (checkpoint : Option Checkpoint) (writes : List PendingWrite)
    → (concat (batches checkpoint writes) ≡ writes)
      × All (λ chunk. statements checkpoint chunk ≤ 50) (batches checkpoint writes)
unfolding batches
batches_complete none [] = (refl, tt)
batches_complete none (write ∷ writes) = (
  chunks_onto-concat 49 49 (write ∷ []) writes,
  chunks_onto-AtMost 49 49 (write ∷ []) writes (omega arith),
)
batches_complete (some _) [] = (refl, (omega arith, tt))
batches_complete (some c) (write ∷ writes) = (
  chunks_onto-concat 48 48 (write ∷ []) writes,
  All-mono (AtMost 49) (λ chunk. length chunk + 1 ≤ 50) (λ chunk h. omega arith)
      (chunks_onto 48 48 (write ∷ []) writes)
      (chunks_onto-AtMost 48 48 (write ∷ []) writes (omega arith)),
)

module _ (race : Store → Store)
    (fair : (store : Store) → Forward store.items (race store).items) where
  apply_batch-Forward :
      (checkpoint : Option Checkpoint) (chunk : List PendingWrite) (store : Store)
      → All IsChecked chunk
      → Forward store.items (apply_batch race checkpoint chunk store).1.items
  unfolding apply_batch
  apply_batch-Forward checkpoint chunk store h =
      elim (Result-cases (checkpoint_statement checkpoint store.runs)) [
        | inl (e, is_err) ↦ rw (is_err, apply_batch) (fair store)
        | inr ((runs, moved), is_ok) ↦
            rw (is_ok, apply_batch)
              (Forward-trans store.items _ _ (execute_all-Forward chunk store.items h)
                (fair (record { items = (execute_all chunk store.items).0; runs = runs })))
      ]

  apply_batches-Forward :
      (checkpoint : Option Checkpoint) (rows_written : ℕ) (chunks : List (List PendingWrite))
      (store : Store)
      → All (All IsChecked) chunks
      → Forward store.items (apply_batches race checkpoint rows_written chunks store).1.items
  unfolding apply_batches
  apply_batches-Forward checkpoint rows_written [] store h = Forward-refl store.items
  apply_batches-Forward checkpoint rows_written (chunk ∷ chunks) store (h, hs) =
      let first = apply_batch-Forward checkpoint chunk store h in
      elim (Result-cases (apply_batch race checkpoint chunk store).0) [
        | inl (e, is_err) ↦ rw (is_err, apply_batches) first
        | inr (changes, is_ok) ↦
            rw (is_ok, apply_batches)
              (Forward-trans store.items _ _ first (
                apply_batches-Forward checkpoint (rows_written + changes) chunks
                  (apply_batch race checkpoint chunk store).1 hs))
      ]

  -- Applying a plan, whatever its checkpoint and whether it succeeds or fails, loses no row and
  -- writes over none without a later version, except that a row of version 1 may take a content
  -- that changed no earlier; other clients may write between its batches, if they keep to this too.
  pub apply_collection_diff-Forward :
      (plan : CollectionDiffPlan) (checkpoint : Option Checkpoint) (store : Store)
      → Forward store.items (apply_collection_diff race plan checkpoint store).1.items
  unfolding apply_collection_diff
  apply_collection_diff-Forward plan checkpoint store = elim (Result-cases (writes_of plan)) [
    | inl (e, is_err) ↦ rw (is_err, apply_collection_diff) (Forward-refl store.items)
    | inr (writes, is_ok) ↦
        rw (is_ok, apply_collection_diff)
          (apply_batches-Forward checkpoint 0 (batches checkpoint writes) store
            (batches-All checkpoint writes (writes_of-All plan writes is_ok)))
  ]
