-- ===== src/Merge/Detail.antt =====
-- Completing a calendar's subject by its details.
use airing_cal.Common.{
  ℕ, ◌≡◌, refl, inl, inr, true, Option, none, some, List, [], ◌∷◌, ◌++◌, All, some-inj, some-none,
  ltb, Bool-cases, Option-cases, sym, ◌∙◌, arith,
}
use airing_cal.Merge.{
  BgmCalendarSubjectLike, SubjectDetailLike, ◌//◌, ◌<|>◌, positive_episode_count,
}
use airing_cal.Merge.Collect.{with_subject_detail}

twice : {A : Type 0} (a : Option A) (b : A) → (a // (a // b)) ≡ (a // b)
twice none b = refl
twice (some a) b = refl

twice_option : {A : Type 0} (a b : Option A) → (a <|> (a <|> b)) ≡ (a <|> b)
twice_option none b = refl
twice_option (some a) b = refl

option-append :
    (xs ys : List (Option ℕ))
    → positive_episode_count (xs ++ ys) ≡ (positive_episode_count xs <|> positive_episode_count ys)
unfolding positive_episode_count
option-append [] ys = refl
option-append (none ∷ xs) ys = option-append xs ys
option-append (some value ∷ xs) ys = elim (Bool-cases (ltb 0 value)) [
  | inl e ↦ rw e refl
  | inr e ↦ rw e (option-append xs ys)
]

count-positive :
    (xs : List (Option ℕ)) (p : ℕ) → positive_episode_count xs ≡ some p → ltb 0 p ≡ true
unfolding positive_episode_count
count-positive [] p h = absurd (ground arith)
count-positive (none ∷ xs) p h = count-positive xs p h
count-positive (some value ∷ xs) p h = elim (Bool-cases (ltb 0 value)) [
  | inl e ↦ rw (sym (some-inj (rw (e, positive_episode_count) at h))) e
  | inr e ↦ count-positive xs p (rw (e, positive_episode_count) at h)
]

-- None of the values is positive.
abbrev AreUnpositive : List (Option ℕ) → Type 0
AreUnpositive = All (λ value. positive_episode_count (value ∷ []) ≡ none)

none-AreUnpositive : (xs : List (Option ℕ)) → positive_episode_count xs ≡ none → AreUnpositive xs
unfolding positive_episode_count
none-AreUnpositive [] h = tt
none-AreUnpositive (none ∷ xs) h = (refl, none-AreUnpositive xs h)
none-AreUnpositive (some value ∷ xs) h = elim (Bool-cases (ltb 0 value)) [
  | inl e ↦ absurd (some-none (rw (e, positive_episode_count) at h))
  | inr e ↦ (rw e refl, none-AreUnpositive xs (rw (e, positive_episode_count) at h))
]

AreUnpositive-none : (xs : List (Option ℕ)) → AreUnpositive xs → positive_episode_count xs ≡ none
unfolding positive_episode_count
AreUnpositive-none [] h = refl
AreUnpositive-none (none ∷ xs) (u, h) = AreUnpositive-none xs h
AreUnpositive-none (some value ∷ xs) (u, h) = elim (Bool-cases (ltb 0 value)) [
  | inl e ↦ absurd (some-none (rw (e, positive_episode_count) at u))
  | inr e ↦ rw (e, positive_episode_count) (AreUnpositive-none xs h)
]

-- A count that was found among the details, or else among the subject's, is found again when it
-- has replaced the subject's first count.
found_again :
    (a b c d e f t u : Option ℕ)
    → (positive_episode_count (a ∷ b ∷ c ∷ d ∷ e ∷ f ∷ []) ≡ none → (t ≡ none) × (u ≡ none))
    → positive_episode_count (
        a
        ∷ b
        ∷ c
        ∷ (positive_episode_count (a ∷ b ∷ c ∷ d ∷ e ∷ f ∷ []) <|> d)
        ∷ (t <|> e)
        ∷ (u <|> f)
        ∷ [])
      ≡ positive_episode_count (a ∷ b ∷ c ∷ d ∷ e ∷ f ∷ [])
unfolding positive_episode_count
found_again a b c d e f t u h =
    elim (Option-cases (positive_episode_count (a ∷ b ∷ c ∷ d ∷ e ∷ f ∷ []))) [
      | inl missing ↦ rw (missing, (h missing).0, (h missing).1) missing
      | inr (p, found) ↦ rw found (
          option-append (a ∷ b ∷ c ∷ []) (some p ∷ (t <|> e) ∷ (u <|> f) ∷ [])
          ∙ first (positive_episode_count (a ∷ b ∷ c ∷ [])) p
              (count-positive (a ∷ b ∷ c ∷ d ∷ e ∷ f ∷ []) p found)
              (sym (option-append (a ∷ b ∷ c ∷ []) (d ∷ e ∷ f ∷ [])) ∙ found))
    ]
  where
    first :
        (before : Option ℕ) (p : ℕ)
        → ltb 0 p ≡ true
        → (before <|> positive_episode_count (d ∷ e ∷ f ∷ [])) ≡ some p
        → (before <|> positive_episode_count (some p ∷ (t <|> e) ∷ (u <|> f) ∷ [])) ≡ some p
    first none p positive found = rw (positive, positive_episode_count) refl
    first (some q) p positive found = found

-- Counts that are not positive in one order are not in another.
permuted :
    (a b c d e f : Option ℕ)
    → positive_episode_count (a ∷ b ∷ c ∷ d ∷ e ∷ f ∷ []) ≡ none
    → (positive_episode_count (c ∷ a ∷ b ∷ f ∷ d ∷ e ∷ []) ≡ none)
      × (positive_episode_count (b ∷ c ∷ a ∷ e ∷ f ∷ d ∷ []) ≡ none)
permuted a b c d e f h =
    let (ua, (ub, (uc, (ud, (ue, (uf, _)))))) = none-AreUnpositive (a ∷ b ∷ c ∷ d ∷ e ∷ f ∷ []) h in
    (
      AreUnpositive-none (c ∷ a ∷ b ∷ f ∷ d ∷ e ∷ []) (uc, (ua, (ub, (uf, (ud, (ue, tt)))))),
      AreUnpositive-none (b ∷ c ∷ a ∷ e ∷ f ∷ d ∷ []) (ub, (uc, (ua, (ue, (uf, (ud, tt)))))),
    )

-- Completing a subject a second time with the same details changes nothing.
pub with_subject_detail_twice :
    (subject : BgmCalendarSubjectLike) (detail : Option SubjectDetailLike)
    → with_subject_detail (with_subject_detail subject detail) detail
      ≡ with_subject_detail subject detail
unfolding with_subject_detail
with_subject_detail_twice subject none = refl
with_subject_detail_twice subject (some d) =
    let eps = positive_episode_count (
      d.eps ∷ d.eps_count ∷ d.total_episodes ∷ subject.eps ∷ subject.eps_count
      ∷ subject.total_episodes ∷ []) in
    let total = positive_episode_count (
      d.total_episodes ∷ d.eps ∷ d.eps_count ∷ subject.total_episodes ∷ subject.eps
      ∷ subject.eps_count ∷ []) in
    simp
      (
        found_again d.eps d.eps_count d.total_episodes subject.eps subject.eps_count
            subject.total_episodes eps total
            (λ missing. (
              missing,
              (permuted d.eps d.eps_count d.total_episodes subject.eps subject.eps_count
                  subject.total_episodes missing).0,
            )),
        found_again d.total_episodes d.eps d.eps_count subject.total_episodes subject.eps
            subject.eps_count eps eps
            (λ missing.
              let none_found =
                (permuted d.total_episodes d.eps d.eps_count subject.total_episodes subject.eps
                  subject.eps_count missing).1 in
              (none_found, none_found)),
        twice d.type subject.type,
        twice d.name subject.name,
        twice d.name_cn subject.name_cn,
        twice d.summary subject.summary,
        twice d.date subject.date,
        twice_option d.nsfw subject.nsfw,
        twice_option d.images subject.images,
        twice_option d.rating subject.rating,
        twice_option eps subject.eps,
        twice_option eps subject.eps_count,
        twice_option total subject.total_episodes,
      )
      refl
