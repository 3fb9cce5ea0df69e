-- ===== src/Common/Maps.antt =====
-- JavaScript's Map, with its entries in the order in which their keys were first set, and counting
-- in lists.
use airing_cal.Common.Sorting.{sort, sort_onto, insert_sorted}
use Prim.Native.Nat.{ℕ, ◌+◌}
use mathlib.Core.Path.{◌≡◌, refl, sym, ap, subst, ◌∙◌}
use mathlib.Core.Logic.{inl, inr}
use mathlib.Core.Bool.{Bool, true, false}
use mathlib.Core.Option.{Option, none, some}
use mathlib.Core.List.{List, [], ◌∷◌, ◌++◌}
use native.Mathlib.Omega.{arith}
use airing_cal.Common.Lists.{All, All-mono}
use airing_cal.Common.Tests.{if◌then◌else◌, is_some, holds, holds-sound, Bool-cases}

module _ {ℓ} {A : Type ℓ} where
  -- How many elements pass the test.
  abbrev pub count : (A → Bool) → List A → ℕ
  count test [] = 0
  count test (x ∷ xs) = (if test x then 1 else 0) + count test xs

  pub count-append :
      (test : A → Bool) (xs ys : List A) → count test (xs ++ ys) ≡ count test xs + count test ys
  count-append test [] ys = omega arith
  count-append test (x ∷ xs) ys = ground (arith, count-append test xs ys)

  module _ (test : A → Bool) (lt : A → A → Bool) where
    count-insert_sorted :
        (x : A) (ys : List A) → count test (insert_sorted lt x ys) ≡ count test (x ∷ ys)
    unfolding insert_sorted
    count-insert_sorted x [] = refl
    count-insert_sorted x (y ∷ ys) = ground (arith, count-insert_sorted x ys)

    count-sort_onto :
        (done xs : List A) → count test (sort_onto lt done xs) ≡ count test done + count test xs
    unfolding sort_onto
    count-sort_onto done [] = omega arith
    count-sort_onto done (x ∷ xs) =
        ground (arith, count-sort_onto (insert_sorted lt x done) xs, count-insert_sorted x done)

    pub count-sort : (xs : List A) → count test (sort lt xs) ≡ count test xs
    unfolding sort
    count-sort xs = omega (arith, count-sort_onto [] xs)

-- A key occurs once when it has a value, and else not at all.
abbrev pub occurrences : Bool → ℕ
occurrences b = if b then 1 else 0

pub holds_complete {ℓ} : {P : Type ℓ} (d : Dec P) → P → holds d ≡ true
holds_complete (yes _) p = refl
holds_complete (no refuted) p = absurd (refuted p)

pub true-false : {b : Bool} → b ≡ true → b ≡ false → ⊥
true-false g h = ground arith

pub some-inj {ℓ} : {A : Type ℓ} {a b : A} → ◌≡◌ {A = Option A} (some a) (some b) → a ≡ b
some-inj h = cc

pub some-none {ℓ} : {A : Type ℓ} {a : A} → ◌≡◌ {A = Option A} (some a) none → ⊥
some-none h = cc

module _ {K : Type 0} (discrete : Discrete K) where
  abbrev pub same_key : K → K → Bool
  same_key a b = holds (discrete a b)

  pub same_key_refl : (a : K) → same_key a a ≡ true
  same_key_refl a = holds_complete (discrete a a) refl

  pub same_key-swap : (a b c : K) → same_key a b ≡ true → same_key c a ≡ same_key c b
  same_key-swap a b c h = ap (same_key c) (holds-sound (discrete a b) h)

  pub same_key-swap_false : (a b : K) → same_key a b ≡ false → same_key b a ≡ false
  same_key-swap_false a b h = elim (Bool-cases (same_key b a)) [
    | inr e ↦ e
    | inl e ↦ absurd (
        true-false
          (subst (λ x. same_key a x ≡ true) (sym (holds-sound (discrete b a) e)) (same_key_refl a))
          h)
  ]

module _ {K V : Type 0} (discrete : Discrete K) where
  abbrev pub get : K → List (K × V) → Option V
  get key [] = none
  get key ((k, v) ∷ rest) = if same_key discrete key k then some v else get key rest

  -- A key that is there keeps its place, and a new one comes last.
  abbrev pub set : K → V → List (K × V) → List (K × V)
  set key value [] = (key, value) ∷ []
  set key value ((k, v) ∷ rest) =
      if same_key discrete key k then (k, value) ∷ rest else (k, v) ∷ set key value rest

  abbrev pub keys : List (K × V) → List K
  keys [] = []
  keys ((k, _) ∷ rest) = k ∷ keys rest

  -- The law of lookup after an insertion.
  pub get-set :
      (key other : K) (value : V) (entries : List (K × V))
      → get other (set key value entries)
        ≡ (if same_key discrete other key then some value else get other entries)
  get-set key other value [] = refl
  get-set key other value ((k, v) ∷ rest) = elim (Bool-cases (same_key discrete key k)) [
    | inl e ↦ rw e (rw (same_key-swap discrete key k other e) (both (same_key discrete other k)))
    | inr e ↦ rw e (elim (Bool-cases (same_key discrete other k)) [
      | inl f ↦ rw f (rw (apart e f) refl)
      | inr f ↦ rw f (get-set key other value rest)
    ])
  ]
    where
      both :
          (b : Bool)
          → (if b then some value else get other rest)
            ≡ (if b then some value else (if b then some v else get other rest))
      both true = refl
      both false = refl

      apart :
          same_key discrete key k ≡ false
          → same_key discrete other k ≡ true
          → same_key discrete other key ≡ false
      apart e f = elim (Bool-cases (same_key discrete other key)) [
        | inr g ↦ g
        | inl g ↦ absurd (
            true-false
              (subst (λ x. same_key discrete x k ≡ true) (holds-sound (discrete other key) g) f) e)
      ]

  pub get-same :
      (a b : K) (entries : List (K × V))
      → same_key discrete a b ≡ true
      → get a entries ≡ get b entries
  get-same a b entries h = ap (λ x. get x entries) (holds-sound (discrete a b) h)

  -- No key is there twice.
  abbrev pub HasDistinctKeys : List (K × V) → Type 0
  HasDistinctKeys [] = Unit
  HasDistinctKeys ((k, _) ∷ rest) = (get k rest ≡ none) × HasDistinctKeys rest

  pub set-HasDistinctKeys :
      (key : K) (value : V) (entries : List (K × V))
      → HasDistinctKeys entries
      → HasDistinctKeys (set key value entries)
  set-HasDistinctKeys key value [] h = (refl, tt)
  set-HasDistinctKeys key value ((k, v) ∷ rest) (new, h) =
      elim (Bool-cases (same_key discrete key k)) [
        | inl e ↦ rw e (new, h)
        | inr e ↦ rw e (
          get-set key k value rest ∙ (rw (same_key-swap_false discrete key k e) new),
          set-HasDistinctKeys key value rest h,
        )
      ]

  -- Each key that has a value is there once, and no other is there.
  pub count-keys :
      (other : K) (entries : List (K × V))
      → HasDistinctKeys entries
      → count (same_key discrete other) (keys entries) ≡ occurrences (is_some (get other entries))
  count-keys other [] h = refl
  count-keys other ((k, v) ∷ rest) (new, h) = elim (Bool-cases (same_key discrete other k)) [
    | inl e ↦ rw e (
        ap (λ n. 1 + n)
          (count-keys other rest h
            ∙ ap (λ found. occurrences (is_some found)) (get-same other k rest e ∙ new)))
    | inr e ↦ rw e (omega (arith, count-keys other rest h))
  ]

  pub All-IsFound :
      (entries : List (K × V))
      → HasDistinctKeys entries
      → All (λ entry. get entry.0 entries ≡ some entry.1) entries
  All-IsFound [] h = tt
  All-IsFound ((k, v) ∷ rest) (new, h) = (
    rw (same_key_refl discrete k) refl,
    All-mono (λ entry. get entry.0 rest ≡ some entry.1)
        (λ entry. get entry.0 ((k, v) ∷ rest) ≡ some entry.1) later rest (All-IsFound rest h),
  )
    where
      later :
          (entry : K × V)
          → get entry.0 rest ≡ some entry.1
          → get entry.0 ((k, v) ∷ rest) ≡ some entry.1
      later entry found = elim (Bool-cases (same_key discrete entry.0 k)) [
        | inr e ↦ rw e found
        | inl e ↦ absurd (some-none (sym found ∙ get-same entry.0 k rest e ∙ new))
      ]
