-- ===== src/SnapshotGc/Descending.antt =====
-- Lists of generations that descend: the first ones are those that the fewest others exceed.
use airing_cal.Common.{
  ℕ, zero, suc, ◌<◌, ◌≡◌, inl, inr, Bool, true, List, [], ◌∷◌, ltb, leb, ◌==◌, ◌&&◌, refl,
  Bool-cases, any, filter, take, sort, count, All, All-mono, IsSorted, sort-IsSorted, arith,
}

-- The order in which the generations are sorted.
abbrev pub greater : ℕ → ℕ → Bool
greater a b = ltb b a

-- No generation stands before a greater one.
abbrev pub IsDescending : List ℕ → Type 0
IsDescending [] = Unit
IsDescending (g ∷ gs) = All (λ other. leb other g ≡ true) gs × IsDescending gs

IsSorted-IsDescending : (gs : List ℕ) → IsSorted greater gs → IsDescending gs
IsSorted-IsDescending [] h = tt
IsSorted-IsDescending (g ∷ []) h = (tt, tt)
IsSorted-IsDescending (g ∷ other ∷ gs) (before, h) =
    let rest = IsSorted-IsDescending (other ∷ gs) h in
    let first : leb other g ≡ true = ground arith in
    (
      (
        first,
        All-mono (λ o. leb o other ≡ true) (λ o. leb o g ≡ true) (λ o k. ground arith) gs rest.0,
      ),
      rest,
    )

All-filter : (P : ℕ → Type 0) (test : ℕ → Bool) (gs : List ℕ) → All P gs → All P (filter test gs)
All-filter P test [] h = tt
All-filter P test (g ∷ gs) (p, h) = elim (Bool-cases (test g)) [
  | inl e ↦ rw e (p, All-filter P test gs h)
  | inr e ↦ rw e (All-filter P test gs h)
]

pub IsDescending-filter :
    (test : ℕ → Bool) (gs : List ℕ) → IsDescending gs → IsDescending (filter test gs)
IsDescending-filter test [] h = tt
IsDescending-filter test (g ∷ gs) (p, h) = elim (Bool-cases (test g)) [
  | inl e ↦ rw e (All-filter _ test gs p, IsDescending-filter test gs h)
  | inr e ↦ rw e (IsDescending-filter test gs h)
]

pub IsDescending-sort : (gs : List ℕ) → IsDescending (sort greater gs)
IsDescending-sort gs =
    IsSorted-IsDescending (sort greater gs) (sort-IsSorted greater (λ x y h. ground arith) gs)

abbrev pub has : ℕ → List ℕ → Bool
has generation = any (λ other. other == generation)

has-bounded :
    (generation g : ℕ) (gs : List ℕ)
    → All (λ other. leb other g ≡ true) gs
    → has generation gs ≡ true
    → leb generation g ≡ true
has-bounded generation g [] p h = ground arith
has-bounded generation g (first ∷ gs) (p, ps) h = elim (Bool-cases (first == generation)) [
  | inl e ↦ ground (arith, e)
  | inr e ↦ has-bounded generation g gs ps (rw e at h)
]

pub any-take :
    (generation n : ℕ) (gs : List ℕ)
    → IsDescending gs
    → has generation gs ≡ true
    → count (λ other. ltb generation other) gs < n
    → has generation (take n gs) ≡ true
any-take generation n [] d h k = h
any-take generation zero (g ∷ gs) d h k = absurd (omega arith)
any-take generation (suc n) (g ∷ gs) (before, d) h k = elim (Bool-cases (g == generation)) [
  | inl e ↦ ground (arith, e)
  | inr e ↦
      let later : has generation gs ≡ true = (rw e at h) in
      let fewer : count (λ other. ltb generation other) gs < n =
        ground (arith, e, has-bounded generation g gs before later) in
      ground (arith, e, any-take generation n gs d later fewer)
]

pub count-filter :
    (below test : ℕ → Bool) (gs : List ℕ)
    → count test (filter below gs) ≡ count (λ other. test other && below other) gs
count-filter below test [] = refl
count-filter below test (g ∷ gs) = ground (arith, count-filter below test gs)

pub has-filter :
    (generation : ℕ) (below : ℕ → Bool) (gs : List ℕ)
    → below generation ≡ true
    → has generation gs ≡ true
    → has generation (filter below gs) ≡ true
has-filter generation below [] b h = h
has-filter generation below (g ∷ gs) b h = elim (Bool-cases (g == generation)) [
  | inl e ↦ ground (arith, e)
  | inr e ↦ ground (arith, e, has-filter generation below gs b)
]

pub has-flip :
    (generation : ℕ) (gs : List ℕ) → has generation gs ≡ any (λ other. generation == other) gs
has-flip generation [] = refl
has-flip generation (g ∷ gs) = ground (arith, has-flip generation gs)

pub count-same :
    (test other : ℕ → Bool)
    → ((g : ℕ) → test g ≡ other g)
    → (gs : List ℕ) → count test gs ≡ count other gs
count-same test other same [] = refl
count-same test other same (g ∷ gs) = ground (arith, same g, count-same test other same gs)
