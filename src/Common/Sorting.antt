-- ===== src/Common/Sorting.antt =====
-- `Array.prototype.sort`: a stable sort, for a comparison given by its strict order.
use Prim.Native.Nat.{suc, ◌+◌}
use mathlib.Core.Path.{◌≡◌, refl}
use mathlib.Core.Logic.{inl, inr}
use mathlib.Core.Bool.{Bool, true, false, ◌||◌}
use mathlib.Core.List.{List, [], ◌∷◌}
use native.Mathlib.Omega.{arith}
use airing_cal.Common.Tests.{if◌then◌else◌, Bool-cases}
use airing_cal.Common.Lists.{length, any, All}

module _ {ℓ} {A : Type ℓ} (lt : A → A → Bool) where
  -- An element goes behind those that are not greater.
  unfoldable pub insert_sorted : A → List A → List A
  insert_sorted x [] = x ∷ []
  insert_sorted x (y ∷ ys) = if lt x y then x ∷ y ∷ ys else y ∷ insert_sorted x ys

  unfoldable pub sort_onto : List A → List A → List A
  sort_onto done [] = done
  sort_onto done (x ∷ xs) = sort_onto (insert_sorted x done) xs

  unfoldable pub sort : List A → List A
  unfolding sort_onto insert_sorted
  sort xs = sort_onto [] xs

  length-insert_sorted : (x : A) (ys : List A) → length (insert_sorted x ys) ≡ suc (length ys)
  unfolding insert_sorted
  length-insert_sorted x [] = refl
  length-insert_sorted x (y ∷ ys) = ground (arith, length-insert_sorted x ys)

  length-sort_onto : (done xs : List A) → length (sort_onto done xs) ≡ length done + length xs
  unfolding sort_onto insert_sorted
  length-sort_onto done [] = omega arith
  length-sort_onto done (x ∷ xs) =
      omega (arith, length-sort_onto (insert_sorted x done) xs, length-insert_sorted x done)

  pub length-sort : (xs : List A) → length (sort xs) ≡ length xs
  unfolding sort
  length-sort xs = omega (arith, length-sort_onto [] xs)

  All-insert_sorted {κ} :
      (P : A → Type κ) (x : A) (ys : List A) → P x → All P ys → All P (insert_sorted x ys)
  unfolding insert_sorted
  All-insert_sorted P x [] p h = (p, tt)
  All-insert_sorted P x (y ∷ ys) p h = elim (Bool-cases (lt x y)) [
    | inl e ↦ rw e (p, h)
    | inr e ↦ rw e (h.0, All-insert_sorted P x ys p h.1)
  ]

  All-sort_onto {κ} :
      (P : A → Type κ) (done xs : List A) → All P done → All P xs → All P (sort_onto done xs)
  unfolding sort_onto insert_sorted
  All-sort_onto P done [] d h = d
  All-sort_onto P done (x ∷ xs) d h =
      All-sort_onto P (insert_sorted x done) xs (All-insert_sorted P x done h.0 d) h.1

  pub All-sort {κ} : (P : A → Type κ) (xs : List A) → All P xs → All P (sort xs)
  unfolding sort
  All-sort P xs h = All-sort_onto P [] xs tt h

  insert_sorted-All {κ} :
      (P : A → Type κ) (x : A) (ys : List A) → All P (insert_sorted x ys) → P x × All P ys
  unfolding insert_sorted
  insert_sorted-All P x [] h = h
  insert_sorted-All P x (y ∷ ys) h = elim (Bool-cases (lt x y)) [
    | inl e ↦ (rw e at h)
    | inr e ↦ let rest = insert_sorted-All P x ys (rw e at h).1 in (rest.0, ((rw e at h).0, rest.1))
  ]

  sort_onto-All {κ} :
      (P : A → Type κ) (done xs : List A) → All P (sort_onto done xs) → All P done × All P xs
  unfolding sort_onto
  sort_onto-All P done [] h = (h, tt)
  sort_onto-All P done (x ∷ xs) h =
      let rest = sort_onto-All P (insert_sorted x done) xs h in
      let parts = insert_sorted-All P x done rest.0 in (parts.1, (parts.0, rest.1))

  -- What holds of all elements of the sorted list holds of all elements.
  pub sort-All {κ} : (P : A → Type κ) (xs : List A) → All P (sort xs) → All P xs
  unfolding sort
  sort-All P xs h = (sort_onto-All P [] xs h).1

  any-insert_sorted :
      (p : A → Bool) (x : A) (ys : List A) → any p (insert_sorted x ys) ≡ p x || any p ys
  unfolding insert_sorted
  any-insert_sorted p x [] = refl
  any-insert_sorted p x (y ∷ ys) = ground (arith, any-insert_sorted p x ys)

  any-sort_onto :
      (p : A → Bool) (done xs : List A) → any p (sort_onto done xs) ≡ any p done || any p xs
  unfolding sort_onto insert_sorted
  any-sort_onto p done [] = ground arith
  any-sort_onto p done (x ∷ xs) =
      ground (arith, any-sort_onto p (insert_sorted x done) xs, any-insert_sorted p x done)

  -- Sorting neither adds nor drops an element.
  pub any-sort : (p : A → Bool) (xs : List A) → any p (sort xs) ≡ any p xs
  unfolding sort
  any-sort p xs = any-sort_onto p [] xs

  -- No element stands before a smaller one that follows it directly.
  abbrev pub IsSorted : List A → Type 0
  IsSorted [] = Unit
  IsSorted (x ∷ []) = Unit
  IsSorted (x ∷ y ∷ ys) = (lt y x ≡ false) × IsSorted (y ∷ ys)

  module _ (asym : (x y : A) → lt x y ≡ true → lt y x ≡ false) where
    IsSorted-insert_sorted : (x : A) (ys : List A) → IsSorted ys → IsSorted (insert_sorted x ys)
    unfolding insert_sorted
    IsSorted-insert_sorted x [] h = tt
    IsSorted-insert_sorted x (y ∷ []) h = elim (Bool-cases (lt x y)) [
      | inl e ↦ rw e (asym x y e, tt)
      | inr e ↦ rw e (e, tt)
    ]
    IsSorted-insert_sorted x (y ∷ z ∷ ys) h = elim (Bool-cases (lt x y)) [
      | inl e ↦ rw e (asym x y e, h)
      | inr e ↦ rw e (step z ys h.0 e (IsSorted-insert_sorted x (z ∷ ys) h.1))
    ]
      where
        step :
            (z : A) (ys : List A)
            → lt z y ≡ false
            → lt x y ≡ false
            → IsSorted (insert_sorted x (z ∷ ys))
            → IsSorted (y ∷ insert_sorted x (z ∷ ys))
        step z ys zy xy k = elim (Bool-cases (lt x z)) [
          | inl e ↦ rw e (xy, (rw e at k))
          | inr e ↦ rw e (zy, (rw e at k))
        ]

    IsSorted-sort_onto : (done xs : List A) → IsSorted done → IsSorted (sort_onto done xs)
    unfolding sort_onto
    IsSorted-sort_onto done [] d = d
    IsSorted-sort_onto done (x ∷ xs) d =
        IsSorted-sort_onto (insert_sorted x done) xs (IsSorted-insert_sorted x done d)

    pub sort-IsSorted : (xs : List A) → IsSorted (sort xs)
    unfolding sort
    sort-IsSorted xs = IsSorted-sort_onto [] xs tt
