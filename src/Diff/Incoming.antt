-- ===== src/Diff/Incoming.antt =====
-- What the scan of the incoming collections adds to a plan.
use airing_cal.Common.{
  ◌≡◌, refl, inl, inr, Bool, some, is_some, is_none, holds, Text-discrete, ◌&&◌, ◌||◌, [], ◌∷◌, All,
  All-append, Bool-cases, Option-cases, arith,
}
use airing_cal.Rows.{CollectionRow}
use airing_cal.Diff.{
  next_revision, CollectionDiffPlan, CollectionDiffInput, Change, find_row, classify, push,
}
use airing_cal.Diff.Lookup.{find_row_sound}
use airing_cal.Diff.Reasons.{IsRevision, revision, IsInsert, IsUpdate, IsRestored}

-- What holds of the rows that the scan of the incoming collections collects.
pub record Scanned (d : CollectionDiffInput) (p : CollectionDiffPlan) : Type 0 where
  pub inserted : All (IsInsert d.current d.observed_at) p.inserts
  pub updated : All (IsUpdate d.current) p.updates
  pub restored : All (IsRestored d.current) p.restored

abbrev pub IsSoundChange : CollectionDiffInput → Change → Type 0
IsSoundChange d (Change.insert row) = IsInsert d.current d.observed_at row
IsSoundChange d (Change.update row) = IsUpdate d.current row
IsSoundChange d (Change.restore row) = IsRestored d.current row
IsSoundChange d Change.unchanged = Unit

pub next_revision-IsRevision :
    (d : CollectionDiffInput) (previous row : CollectionRow)
    → find_row row.user_id row.subject_id d.current ≡ some previous
    → IsRevision d.current previous (next_revision d.observed_at previous row)
unfolding next_revision
next_revision-IsRevision d previous row e =
    let (m, u, s) = find_row_sound row.user_id row.subject_id d.current {row = previous} e in
    revision m u s refl refl

-- The test for a row that has not changed, and the test for one that was missing or deleted.
abbrev pub has_same_content : CollectionRow → CollectionRow → Bool
has_same_content previous row =
    holds (Text-discrete previous.content_hash row.content_hash)
    && is_none previous.missing_since
    && is_none previous.deleted_at

abbrev pub was_gone : CollectionRow → Bool
was_gone previous = is_some previous.missing_since || is_some previous.deleted_at

pub classify-IsSoundChange :
    (d : CollectionDiffInput) (row : CollectionRow)
    → IsSoundChange d (classify d.observed_at (find_row row.user_id row.subject_id d.current) row)
unfolding classify
classify-IsSoundChange d row = elim (Option-cases (find_row row.user_id row.subject_id d.current)) [
  | inl e ↦ rw e (e, refl, refl)
  | inr (previous, e) ↦ rw e (found previous (next_revision-IsRevision d previous row e))
]
  where
    found :
        (previous : CollectionRow)
        → IsRevision d.current previous (next_revision d.observed_at previous row)
        → IsSoundChange d (classify d.observed_at (some previous) row)
    found previous r = elim (Bool-cases (has_same_content previous row)) [
      | inl same ↦ rw same tt
      | inr changed ↦ elim (Bool-cases (was_gone previous)) [
        | inl gone ↦ rw (changed, gone) (previous, r, λ v. ground arith, (refl, refl))
        | inr visible ↦
            rw (changed, visible)
              (previous, r, (ground arith, ground arith), (refl, refl), λ e. ground arith)
      ]
    ]

pub push-Scanned :
    (d : CollectionDiffInput) (c : Change) (p : CollectionDiffPlan)
    → IsSoundChange d c
    → Scanned d p
    → Scanned d (push c p)
unfolding push
push-Scanned d (Change.insert row) p c h = record {
  inserted = All-append _ p.inserts (row ∷ []) h.inserted (c, tt);
  updated = h.updated;
  restored = h.restored;
}
push-Scanned d (Change.update row) p c h = record {
  inserted = h.inserted;
  updated = All-append _ p.updates (row ∷ []) h.updated (c, tt);
  restored = h.restored;
}
push-Scanned d (Change.restore row) p c h = record {
  inserted = h.inserted;
  updated = h.updated;
  restored = All-append _ p.restored (row ∷ []) h.restored (c, tt);
}
push-Scanned d Change.unchanged p c h = record {
  inserted = h.inserted;
  updated = h.updated;
  restored = h.restored;
}
