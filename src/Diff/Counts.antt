-- ===== src/Diff/Counts.antt =====
-- Where each incoming collection stands in the plan.
use airing_cal.Common.{
  ok, ℕ, ◌+◌, ◌≡◌, refl, ap, ◌∙◌, Bool, false, not, ◌&&◌, Option, none, some, List, [], ◌∷◌, ◌++◌,
  Text, Text-discrete, holds, is_none, is_some, ◌||◌, true, if◌then◌else◌, count, count-append,
  count-sort, Bool-cases, inl, inr, ltb, arith,
}
use airing_cal.Rows.{CollectionRow}
use airing_cal.Diff.Lookup.{scan_incoming_step, plan_collection_diff_steps}
use airing_cal.Diff.{
  has_key, find_row, empty_plan, with_missing, next_revision, CollectionDiffPlan,
  CollectionDiffInput, Change, classify, push, mark_missing, scan_incoming, scan_missing,
  scan_missing_row, is_passed_over, sort_plan, row_lt, plan_collection_diff,
}

abbrev pub is_visible : CollectionRow → Bool
is_visible row = is_none row.missing_since && is_none row.deleted_at

abbrev pub has_content : CollectionRow → CollectionRow → Bool
has_content row previous = holds (Text-discrete previous.content_hash row.content_hash)

-- A test of the row that was stored, if there was one.
abbrev pub stored_as : (CollectionRow → Bool) → Option CollectionRow → Bool
stored_as test none = false
stored_as test (some previous) = test previous

-- The four kinds of an incoming row, by the row that was stored under its keys: none, a visible one
-- with another content, one that is missing or deleted, and a visible one with the same content.
abbrev pub is_inserted : Option CollectionRow → CollectionRow → Bool
is_inserted previous row = is_none previous

abbrev pub is_updated : Option CollectionRow → CollectionRow → Bool
is_updated previous row = stored_as (λ p. is_visible p && not (has_content row p)) previous

abbrev pub is_restored : Option CollectionRow → CollectionRow → Bool
is_restored previous row = stored_as (λ p. not (is_visible p)) previous

abbrev pub is_unchanged : Option CollectionRow → CollectionRow → Bool
is_unchanged previous row = stored_as (λ p. is_visible p && has_content row p) previous

abbrev one_if : Bool → ℕ
one_if b = if b then 1 else 0

module _ (user : Text) (subject : ℕ) where
  abbrev here : CollectionRow → Bool
  here = has_key user subject

  -- What a plan holds under the keys, and how many rows it counts as unchanged.
  abbrev Tally : CollectionDiffPlan → ℕ → ℕ → ℕ → ℕ → Type 0
  Tally p inserted updated restored same =
      (count here p.inserts ≡ inserted)
      × (count here p.updates ≡ updated)
      × (count here p.restored ≡ restored)
      × (p.unchanged ≡ same)

  added :
      (rows : List CollectionRow) (new : CollectionRow) (b : Bool)
      → here new ≡ b
      → count here (rows ++ (new ∷ [])) ≡ count here rows + one_if (b && true)
  added rows new b e = count-append here rows (new ∷ []) ∙ rw e (both b)
    where
      both : (c : Bool) → count here rows + (one_if c + 0) ≡ count here rows + one_if (c && true)
      both c = ground arith

  kept : (n : ℕ) (b : Bool) → n ≡ n + one_if (b && false)
  kept n b = ground arith

  stays : (n : ℕ) → n ≡ n + 0
  stays n = omega arith

  push_stored-Tally :
      (same : Bool) (missing deleted : Option ℕ) (new : CollectionRow) (b : Bool)
      (p : CollectionDiffPlan)
      → here new ≡ b
      → Tally
          (push
            (if same && is_none missing && is_none deleted
              then Change.unchanged
              else if is_some missing || is_some deleted
              then Change.restore new
              else Change.update new)
            p)
          (count here p.inserts + one_if (b && false))
          (count here p.updates + one_if (b && ((is_none missing && is_none deleted) && not same)))
          (count here p.restored + one_if (b && not (is_none missing && is_none deleted)))
          (p.unchanged + one_if ((is_none missing && is_none deleted) && same))
  unfolding push
  push_stored-Tally true none none new b p e = (kept _ b, kept _ b, kept _ b, refl)
  push_stored-Tally false none none new b p e =
      (kept _ b, added p.updates new b e, kept _ b, stays _)
  push_stored-Tally true (some _) deleted new b p e =
      (kept _ b, kept _ b, added p.restored new b e, stays _)
  push_stored-Tally false (some _) deleted new b p e =
      (kept _ b, kept _ b, added p.restored new b e, stays _)
  push_stored-Tally true none (some _) new b p e =
      (kept _ b, kept _ b, added p.restored new b e, stays _)
  push_stored-Tally false none (some _) new b p e =
      (kept _ b, kept _ b, added p.restored new b e, stays _)

  push-Tally :
      (observed_at : ℕ) (previous : Option CollectionRow) (row : CollectionRow)
      (p : CollectionDiffPlan)
      → Tally
          (push (classify observed_at previous row) p)
          (count here p.inserts + one_if (here row && is_inserted previous row))
          (count here p.updates + one_if (here row && is_updated previous row))
          (count here p.restored + one_if (here row && is_restored previous row))
          (p.unchanged + one_if (is_unchanged previous row))
  unfolding push classify next_revision
  push-Tally observed_at none row p =
      (added p.inserts _ (here row) refl, kept _ (here row), kept _ (here row), stays _)
  push-Tally observed_at (some previous) row p =
      push_stored-Tally (has_content row previous) previous.missing_since previous.deleted_at _
        (here row) p refl

module _ (d : CollectionDiffInput) (user : Text) (subject : ℕ) where
  -- How many incoming rows under the keys are of a kind.
  abbrev pub incoming_as : (Option CollectionRow → CollectionRow → Bool) → List CollectionRow → ℕ
  incoming_as kind rows =
      count
        (λ row.
          has_key user subject row && kind (find_row row.user_id row.subject_id d.current) row)
        rows

  abbrev incoming_same : List CollectionRow → ℕ
  incoming_same rows =
      count (λ row. is_unchanged (find_row row.user_id row.subject_id d.current) row) rows

  scan_incoming-Tally :
      (seen : List CollectionRow) (p q : CollectionDiffPlan) (rows : List CollectionRow)
      → scan_incoming d.observed_at d.current seen p rows ≡ ok q
      → Tally user subject q
          (count (has_key user subject) p.inserts + incoming_as is_inserted rows)
          (count (has_key user subject) p.updates + incoming_as is_updated rows)
          (count (has_key user subject) p.restored + incoming_as is_restored rows)
          (p.unchanged + incoming_same rows)
  scan_incoming-Tally seen p q [] h =
      let e : p ≡ q = unfold scan_incoming in (ground arith) in
      rw (← e)
        (stays user subject _, stays user subject _, stays user subject _, stays user subject _)
  scan_incoming-Tally seen p q (row ∷ rows) h =
      let previous = find_row row.user_id row.subject_id d.current in
      let (a, b, c, e) = push-Tally user subject d.observed_at previous row p in
      let (f, g, i, j) =
        scan_incoming-Tally (seen ++ row ∷ []) (push (classify d.observed_at previous row) p) q rows
          (scan_incoming_step d.observed_at d.current seen p row rows h).1 in
      (omega (arith, a, f), omega (arith, b, g), omega (arith, c, i), omega (arith, e, j))

  -- The scan of the current rows leaves the three lists and the count.
  abbrev IsSame : CollectionDiffPlan → CollectionDiffPlan → Type 0
  IsSame p q =
      (q.inserts ≡ p.inserts)
      × (q.updates ≡ p.updates)
      × (q.restored ≡ p.restored)
      × (q.unchanged ≡ p.unchanged)

  mark_missing-IsSame :
      (row : CollectionRow) (p : CollectionDiffPlan) (since : Option ℕ)
      → IsSame p (mark_missing d.observed_at row p since)
  unfolding mark_missing
  mark_missing-IsSame row p none = (refl, refl, refl, refl)
  mark_missing-IsSame row p (some since) = elim (Bool-cases (ltb since d.observed_at)) [
    | inl e ↦ rw e (refl, refl, refl, refl)
    | inr e ↦ rw e (refl, refl, refl, refl)
  ]

  scan_missing_row-IsSame :
      (row : CollectionRow) (p : CollectionDiffPlan)
      → IsSame p (scan_missing_row d.observed_at d.incoming p row)
  unfolding scan_missing_row
  scan_missing_row-IsSame row p = elim (Bool-cases (is_passed_over d.incoming row)) [
    | inl e ↦ rw e (refl, refl, refl, refl)
    | inr e ↦ rw e (mark_missing-IsSame row p row.missing_since)
  ]

  scan_missing-IsSame :
      (rows : List CollectionRow) (p : CollectionDiffPlan)
      → IsSame p (scan_missing d.observed_at d.incoming p rows)
  unfolding scan_missing
  scan_missing-IsSame [] p = (refl, refl, refl, refl)
  scan_missing-IsSame (row ∷ rows) p =
      let (a, b, c, e) = scan_missing_row-IsSame row p in
      let (f, g, h, i) =
        scan_missing-IsSame rows (scan_missing_row d.observed_at d.incoming p row) in
      (f ∙ a, g ∙ b, h ∙ c, i ∙ e)

  with_missing-IsSame : (p : CollectionDiffPlan) → IsSame p (with_missing d p)
  unfolding with_missing
  with_missing-IsSame p = elim (Bool-cases d.complete) [
    | inl e ↦ rw e (scan_missing-IsSame d.current p)
    | inr e ↦ rw e (refl, refl, refl, refl)
  ]

  from_zero : (n m : ℕ) → n ≡ 0 + m → n ≡ m
  from_zero n m h = omega arith

  -- Under all keys, a plan inserts each incoming row for which none was stored, updates each whose
  -- stored row is visible and has another content, and restores each whose stored row is missing or
  -- deleted, as often as they come in and nothing else; and it counts those whose stored row is
  -- visible and has the same content.
  pub plan_collection_diff-accounted :
      (p : CollectionDiffPlan)
      → plan_collection_diff d ≡ ok p
      → (count (has_key user subject) p.inserts ≡ incoming_as is_inserted d.incoming)
        × (count (has_key user subject) p.updates ≡ incoming_as is_updated d.incoming)
        × (count (has_key user subject) p.restored ≡ incoming_as is_restored d.incoming)
        × (p.unchanged
            ≡ count
                (λ row. is_unchanged (find_row row.user_id row.subject_id d.current) row)
                d.incoming)
  unfolding sort_plan
  plan_collection_diff-accounted p h =
      let (q, indexed, scanned, sorted) = plan_collection_diff_steps d {p = p} h in
      let (a, b, c, e) = scan_incoming-Tally [] empty_plan q d.incoming scanned in
      let (f, g, i, j) = with_missing-IsSame q in
      let here = has_key user subject in
      rw (← sorted) (
        count-sort here row_lt _ ∙ ap (count here) f ∙ from_zero _ _ a,
        count-sort here row_lt _ ∙ ap (count here) g ∙ from_zero _ _ b,
        count-sort here row_lt _ ∙ ap (count here) i ∙ from_zero _ _ c,
        j ∙ from_zero _ _ e,
      )
