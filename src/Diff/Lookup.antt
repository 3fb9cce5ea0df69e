-- ===== src/Diff/Lookup.antt =====
-- The search for a row by its keys, and the table of the current rows.
use mathlib.Core.List.{Memᴰ, append-nil, append_assoc}
use airing_cal.Common.{
  ok, returned, ℕ, ◌≡◌, sym, ◌∙◌, inl, inr, true, none, some, List, [], ◌∷◌, ◌++◌, Text, arith,
  Bool-cases,
}
use airing_cal.Rows.{CollectionRow}
use airing_cal.Diff.{
  CollectionDiffInput, empty_plan, with_missing, sort_plan, plan_collection_diff,
  CollectionDiffPlan, has_key, find_row, index_rows, classify, push, scan_incoming,
}

pub has_key_sound :
    (user : Text) (subject : ℕ) (row : CollectionRow)
    → has_key user subject row ≡ true
    → (row.user_id ≡ user) × (row.subject_id ≡ subject)
has_key_sound user subject row h = ground arith

pub find_row_sound :
    (user : Text) (subject : ℕ) (rows : List CollectionRow) {row : CollectionRow}
    → find_row user subject rows ≡ some row
    → Memᴰ row rows × (row.user_id ≡ user) × (row.subject_id ≡ subject)
unfolding find_row
find_row_sound user subject [] h = cc
find_row_sound user subject (r ∷ rows) {row} h = elim (Bool-cases (has_key user subject r)) [
  | inl e ↦
      let same : r ≡ row = ground arith in
      let (u, s) = has_key_sound user subject r e in
      (Memᴰ.head (sym same), ground arith, ground arith)
  | inr e ↦
      let (m, u, s) = find_row_sound user subject rows {row = row} (ground arith) in
      (Memᴰ.tail m, u, s)
]

-- A loop that goes on has not met the keys of its row before.
pub index_rows_step :
    (current rows : List CollectionRow) (row : CollectionRow) {m : List CollectionRow}
    → index_rows current (row ∷ rows) ≡ ok m
    → (find_row row.user_id row.subject_id current ≡ none)
      × (index_rows (current ++ row ∷ []) rows ≡ ok m)
unfolding index_rows
index_rows_step current rows row h = ground arith

pub scan_incoming_step :
    (observed_at : ℕ) (current seen : List CollectionRow) (p : CollectionDiffPlan)
    (row : CollectionRow) (rows : List CollectionRow) {q : CollectionDiffPlan}
    → scan_incoming observed_at current seen p (row ∷ rows) ≡ ok q
    → (find_row row.user_id row.subject_id seen ≡ none)
      × (scan_incoming observed_at current
            (seen ++ row ∷ [])
            (push (classify observed_at (find_row row.user_id row.subject_id current) row) p)
            rows
          ≡ ok q)
unfolding scan_incoming
scan_incoming_step observed_at current seen p row rows h = ground arith

pub index_rows_sound :
    (current rows : List CollectionRow) {m : List CollectionRow}
    → index_rows current rows ≡ ok m
    → m ≡ current ++ rows
index_rows_sound current [] h = unfold index_rows in (ground (arith, append-nil current))
index_rows_sound current (row ∷ rows) {m} h =
    index_rows_sound (current ++ row ∷ []) rows {m = m} (index_rows_step current rows row h).1
    ∙ append_assoc current (row ∷ []) rows

-- A plan comes from a scan of the incoming collections against the current rows.
pub plan_collection_diff_steps :
    (d : CollectionDiffInput) {p : CollectionDiffPlan}
    → plan_collection_diff d ≡ ok p
    → (q : CollectionDiffPlan) × (index_rows [] d.current ≡ ok d.current)
      × (scan_incoming d.observed_at d.current [] empty_plan d.incoming ≡ ok q)
      × (sort_plan (with_missing d q) ≡ p)
unfolding plan_collection_diff
plan_collection_diff_steps d h =
    let (current, indexed, h') = returned (index_rows [] d.current) _ h in
    let same : current ≡ d.current = index_rows_sound [] d.current indexed in
    let (q, scanned, h'') =
      returned (scan_incoming d.observed_at current [] empty_plan d.incoming) _ h' in
    (q, (rw same at indexed), (rw same at scanned), ground arith)
