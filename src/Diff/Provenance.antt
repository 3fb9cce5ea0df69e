-- ===== src/Diff/Provenance.antt =====
-- Where the rows of a plan come from.
use mathlib.Core.List.{Memᴰ}
use airing_cal.Common.{
  ok, ℕ, ◌≡◌, refl, inl, inr, true, ltb, Option, none, some, List, [], ◌∷◌, ◌++◌, All, All-append,
  All-mono, subst, All-sort, Bool-cases, arith,
}
use airing_cal.Rows.{CollectionRow}
use airing_cal.Diff.{
  CollectionDiffPlan, CollectionDiffInput, Change, find_row, classify, push, mark_missing,
  scan_incoming, is_passed_over, scan_missing_row, scan_missing, row_lt, sort_plan, empty_plan,
  with_missing, plan_collection_diff,
}
use airing_cal.Diff.Lookup.{scan_incoming_step, plan_collection_diff_steps}
use airing_cal.Diff.Reasons.{
  revision, IsInsert, IsUpdate, IsRestored, IsFirstMissing, IsConfirmedDeleted,
}
use airing_cal.Diff.Incoming.{Scanned, classify-IsSoundChange, push-Scanned}

-- What holds of the rows that the scan of the current rows collects.
record Missed (d : CollectionDiffInput) (p : CollectionDiffPlan) : Type 0 where
  first : All (IsFirstMissing d) p.first_missing
  confirmed : All (IsConfirmedDeleted d) p.confirmed_deleted

mark_missing-Missed :
    (d : CollectionDiffInput) (row : CollectionRow) (p : CollectionDiffPlan) (since : Option ℕ)
    → Memᴰ row d.current
    → d.complete ≡ true
    → find_row row.user_id row.subject_id d.incoming ≡ none
    → row.missing_since ≡ since
    → row.deleted_at ≡ none
    → Missed d p
    → Missed d (mark_missing d.observed_at row p since)
unfolding mark_missing
mark_missing-Missed d row p none m full absent e alive h = record {
  first =
      All-append _ p.first_missing _ h.first
        ((row, revision m refl refl refl refl, full, absent, (e, alive), refl, alive), tt);
  confirmed = h.confirmed;
}
mark_missing-Missed d row p (some since) m full absent e alive h =
    elim (Bool-cases (ltb since d.observed_at)) [
      | inl later ↦ rw later (record {
        first = h.first;
        confirmed = All-append _ p.confirmed_deleted _ h.confirmed (
          (
            row,
            revision m refl refl refl refl,
            full,
            absent,
            (since, e, ground arith),
            alive,
            refl,
          ),
          tt,
        );
      })
      | inr sooner ↦ rw sooner (record { first = h.first; confirmed = h.confirmed })
    ]

scan_missing_row-Missed :
    (d : CollectionDiffInput) (p : CollectionDiffPlan) (row : CollectionRow)
    → Memᴰ row d.current
    → d.complete ≡ true
    → Missed d p
    → Missed d (scan_missing_row d.observed_at d.incoming p row)
unfolding scan_missing_row
scan_missing_row-Missed d p row m full h = elim (Bool-cases (is_passed_over d.incoming row)) [
  | inl passed ↦ rw passed h
  | inr missed ↦
      rw missed
        (mark_missing-Missed d row p row.missing_since m full (ground arith) refl (ground arith) h)
]

mark_missing-Scanned :
    (d : CollectionDiffInput) (p : CollectionDiffPlan) (row : CollectionRow) (since : Option ℕ)
    → Scanned d p
    → Scanned d (mark_missing d.observed_at row p since)
unfolding mark_missing
mark_missing-Scanned d p row none h = record {
  inserted = h.inserted;
  updated = h.updated;
  restored = h.restored;
}
mark_missing-Scanned d p row (some since) h = elim (Bool-cases (ltb since d.observed_at)) [
  | inl later ↦
      rw later (record { inserted = h.inserted; updated = h.updated; restored = h.restored })
  | inr sooner ↦ rw sooner h
]

scan_missing_row-Scanned :
    (d : CollectionDiffInput) (p : CollectionDiffPlan) (row : CollectionRow)
    → Scanned d p
    → Scanned d (scan_missing_row d.observed_at d.incoming p row)
unfolding scan_missing_row
scan_missing_row-Scanned d p row h = elim (Bool-cases (is_passed_over d.incoming row)) [
  | inl passed ↦ rw passed h
  | inr missed ↦ rw missed (mark_missing-Scanned d p row row.missing_since h)
]

scan_missing_sound :
    (d : CollectionDiffInput) (p : CollectionDiffPlan) (rows : List CollectionRow)
    → All (λ row. Memᴰ row d.current) rows
    → d.complete ≡ true
    → Scanned d p
    → Missed d p
    → Scanned d (scan_missing d.observed_at d.incoming p rows)
      × Missed d (scan_missing d.observed_at d.incoming p rows)
unfolding scan_missing
scan_missing_sound d p [] m full s h = (s, h)
scan_missing_sound d p (row ∷ rows) m full s h =
    scan_missing_sound d (scan_missing_row d.observed_at d.incoming p row) rows m.1 full
      (scan_missing_row-Scanned d p row s) (scan_missing_row-Missed d p row m.0 full h)

All-members {ℓ} : {A : Type ℓ} (xs : List A) → All (λ x. Memᴰ x xs) xs
All-members [] = tt
All-members (x ∷ xs) = (Memᴰ.head refl, All-mono _ _ (λ y m. Memᴰ.tail m) xs (All-members xs))

with_missing_sound :
    (d : CollectionDiffInput) (p : CollectionDiffPlan)
    → Scanned d p
    → Missed d p
    → Scanned d (with_missing d p) × Missed d (with_missing d p)
unfolding with_missing
with_missing_sound d p s h = elim (Bool-cases d.complete) [
  | inl e ↦ simp e (scan_missing_sound d p d.current (All-members d.current) e s h)
  | inr e ↦ simp e (s, h)
]

push-Missed :
    (d : CollectionDiffInput) (c : Change) (p : CollectionDiffPlan)
    → Missed d p
    → Missed d (push c p)
unfolding push
push-Missed d (Change.insert row) p h = record { first = h.first; confirmed = h.confirmed }
push-Missed d (Change.update row) p h = record { first = h.first; confirmed = h.confirmed }
push-Missed d (Change.restore row) p h = record { first = h.first; confirmed = h.confirmed }
push-Missed d Change.unchanged p h = record { first = h.first; confirmed = h.confirmed }

scan_incoming_sound :
    (d : CollectionDiffInput) (seen : List CollectionRow) (p : CollectionDiffPlan)
    (rows : List CollectionRow) {q : CollectionDiffPlan}
    → scan_incoming d.observed_at d.current seen p rows ≡ ok q
    → Scanned d p
    → Missed d p
    → Scanned d q × Missed d q
scan_incoming_sound d seen p [] {q} h s m =
    let e : p ≡ q = unfold scan_incoming in (ground arith) in
    (subst (Scanned d) e s, subst (Missed d) e m)
scan_incoming_sound d seen p (row ∷ rows) {q} h s m =
    let change = classify d.observed_at (find_row row.user_id row.subject_id d.current) row in
    scan_incoming_sound d (seen ++ row ∷ []) (push change p) rows {q = q}
      (scan_incoming_step d.observed_at d.current seen p row rows h).1
      (push-Scanned d change p (classify-IsSoundChange d row) s) (push-Missed d change p m)

-- Every row of a plan has its reason, and is the right revision:
-- an insert has keys that the current rows lack and starts at version 1; an update is the next
-- revision of a visible row whose content differs; a restored row is the next revision of one
-- that was missing or deleted; a first missing row is the next revision of a visible one, and a
-- deleted row that of one missed before the observation, and the incoming rows hold neither.
pub plan_collection_diff_sound :
    (d : CollectionDiffInput) {p : CollectionDiffPlan}
    → plan_collection_diff d ≡ ok p
    → All (IsInsert d.current d.observed_at) p.inserts
      × All (IsUpdate d.current) p.updates
      × All (IsRestored d.current) p.restored
      × All (IsFirstMissing d) p.first_missing
      × All (IsConfirmedDeleted d) p.confirmed_deleted
unfolding sort_plan
plan_collection_diff_sound d {p} h =
    let (q, indexed, scanned, sorted) = plan_collection_diff_steps d {p = p} h in
    let start : Scanned d empty_plan = record { inserted = tt; updated = tt; restored = tt } in
    let (s, m) =
      scan_incoming_sound d [] empty_plan d.incoming {q = q} scanned start
        (record { first = tt; confirmed = tt }) in
    let (s', m') = with_missing_sound d q s m in
    rw (← sorted) (
      All-sort row_lt _ _ s'.inserted,
      All-sort row_lt _ _ s'.updated,
      All-sort row_lt _ _ s'.restored,
      All-sort row_lt _ _ m'.first,
      All-sort row_lt _ _ m'.confirmed,
    )
