-- ===== src/Common/Lists.antt =====
-- Lists measured by native numbers, and predicates over their elements.
use Prim.Native.Nat.{ℕ, zero, suc, ◌+◌}
use mathlib.Core.Path.{◌≡◌, refl}
use mathlib.Core.Bool.{Bool, true, false, ◌&&◌, ◌||◌}
use airing_cal.Common.Tests.{if◌then◌else◌}
use mathlib.Core.List.{List, [], ◌∷◌, ◌++◌}
use native.Mathlib.Omega.{arith}

module _ {ℓ} {A : Type ℓ} where
  abbrev pub length : List A → ℕ
  length [] = 0
  length (x ∷ xs) = suc (length xs)

  -- Whether some element passes the test.
  abbrev pub any : (A → Bool) → List A → Bool
  any test [] = false
  any test (x ∷ xs) = test x || any test xs

  pub any-append :
      (test : A → Bool) (xs ys : List A) → any test (xs ++ ys) ≡ any test xs || any test ys
  any-append test [] ys = refl
  any-append test (x ∷ xs) ys = ground (arith, any-append test xs ys)

  -- Whether every element passes the test.
  abbrev pub every : (A → Bool) → List A → Bool
  every test [] = true
  every test (x ∷ xs) = test x && every test xs

  -- `Array.prototype.filter`
  abbrev pub filter : (A → Bool) → List A → List A
  filter test [] = []
  filter test (x ∷ xs) = if test x then x ∷ filter test xs else filter test xs

  -- `slice(0, n)` and `slice(n)`
  abbrev pub take : ℕ → List A → List A
  take n [] = []
  take zero (x ∷ xs) = []
  take (suc n) (x ∷ xs) = x ∷ take n xs

  abbrev pub drop : ℕ → List A → List A
  drop n [] = []
  drop zero (x ∷ xs) = x ∷ xs
  drop (suc n) (x ∷ xs) = drop n xs

  pub length-append : (xs ys : List A) → length (xs ++ ys) ≡ length xs + length ys
  length-append [] ys = omega arith
  length-append (x ∷ xs) ys = omega (arith, length-append xs ys)

-- A property of every element, as a tuple with a part for each.
module _ {ℓ κ} {A : Type ℓ} (P : A → Type κ) where
  abbrev pub All : List A → Type κ
  All [] = Unit
  All (first ∷ others) = P first × All others

  pub All-append : (front back : List A) → All front → All back → All (front ++ back)
  All-append [] back _ held = held
  All-append (first ∷ others) back (p, ps) held = (p, All-append others back ps held)

  pub All-front : (front back : List A) → All (front ++ back) → All front
  All-front [] back held = tt
  All-front (first ∷ others) back (p, ps) = (p, All-front others back ps)

  pub All-back : (front back : List A) → All (front ++ back) → All back
  All-back [] back held = held
  All-back (first ∷ others) back (p, ps) = All-back others back ps

module _ {ℓ κ} {A : Type ℓ} (P Q R : A → Type κ) (combine : (x : A) → P x → Q x → R x) where
  pub All-both : (l : List A) → All P l → All Q l → All R l
  All-both [] _ _ = tt
  All-both (first ∷ others) (p, ps) (q, qs) = (combine first p q, All-both others ps qs)

module _ {ℓ κ} {A : Type ℓ} (P Q : A → Type κ) (weaken : (x : A) → P x → Q x) where
  pub All-mono : (l : List A) → All P l → All Q l
  All-mono [] _ = tt
  All-mono (first ∷ others) (p, ps) = (weaken first p, All-mono others ps)
