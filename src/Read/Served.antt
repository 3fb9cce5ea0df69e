-- ===== src/Read/Served.antt =====
-- What the cache serves.
use airing_cal.Common.{
  List, [], ◌∷◌, ℕ, ◌-◌, ◌<◌, ◌≡◌, refl, sym, ap, ◌∙◌, subst, inl, inr, ◌⊎◌, Bool, true, false, not,
  ◌&&◌, ◌||◌, Option, none, some, Text-discrete, ltb, ◌==◌, if◌then◌else◌, ok, err, Option-cases,
  Bool-cases, ok-inj, some-inj, some-none, holds-sound, arith,
}
use airing_cal.Snapshot.{equals}
use airing_cal.Release.{PublicReleasePointer, PublicStore}
use airing_cal.Release.Publish.{Platform}
use airing_cal.Read.{VerifiedPublicSnapshot, Loaded, load_release, load_verified_public_snapshot}
use airing_cal.Read.Cache.{
  PointerIdentity, ResidentEntry, Cached, identity_from_pointer, identities_match, kept_of, keep,
  revalidate, load,
}
use airing_cal.Read.Loaded.{
  IsAuthentic, IsOfRelease, load_release-IsAuthentic, load_verified_public_snapshot-IsAuthentic,
}

equal : (a b : ℕ) → a == b ≡ true → a ≡ b
equal a b h = ground arith

-- An entry holds an authentic snapshot of the release that its identity names, and that release was
-- found to be the current one at the time of the entry.
abbrev pub IsEntry : Platform → (ℕ → PublicReleasePointer → Type 0) → ResidentEntry → Type 0
IsEntry platform Found entry =
    IsAuthentic platform entry.snapshot
    × (entry.identity.generation ≡ entry.snapshot.generation)
    × (entry.identity.content_hash ≡ entry.snapshot.content_hash)
    × (entry.identity.artifact_ref ≡ entry.snapshot.artifact_ref)
    × (pointer : PublicReleasePointer) × Found entry.loaded_at pointer
    × IsOfRelease pointer entry.snapshot

abbrev pub IsCache : Platform → (ℕ → PublicReleasePointer → Type 0) → Cached → Type 0
IsCache platform Found none = Unit
IsCache platform Found (some entry) = IsEntry platform Found entry

module _ (platform : Platform) {State : Type 0} (store : PublicStore State) (soft_ttl_ms : ℕ) where
  -- A snapshot that is served belongs to the current release, or to one that was found to be current
  -- less than the interval ago.
  abbrev pub IsFresh :
      (ℕ → PublicReleasePointer → Type 0)
      → ℕ
      → Option PublicReleasePointer
      → VerifiedPublicSnapshot
      → Type 0
  IsFresh Found now current v =
      ((pointer : PublicReleasePointer) × (current ≡ some pointer) × IsOfRelease pointer v)
      ⊎ ((time : ℕ) × (pointer : PublicReleasePointer) × Found time pointer
          × IsOfRelease pointer v
          × (now - time < soft_ttl_ms))

  kept_of-IsCache :
      (Found : ℕ → PublicReleasePointer → Type 0) (later : ℕ)
      (captured : Option PublicReleasePointer) (loaded : Option VerifiedPublicSnapshot)
      → ((pointer : PublicReleasePointer) → captured ≡ some pointer → Found later pointer)
      → ((v : VerifiedPublicSnapshot) → loaded ≡ some v → IsAuthentic platform v)
      → IsCache platform Found (kept_of platform store soft_ttl_ms later captured loaded)
  kept_of-IsCache Found later none loaded looked h = tt
  kept_of-IsCache Found later (some pointer) none looked h = tt
  kept_of-IsCache Found later (some pointer) (some v) looked h =
      split (pointer.generation == v.generation) (equals pointer.content_hash v.content_hash)
        (equals pointer.artifact_ref v.artifact_ref) refl refl refl
    where
      split :
          (a b c : Bool)
          → (pointer.generation == v.generation) ≡ a
          → equals pointer.content_hash v.content_hash ≡ b
          → equals pointer.artifact_ref v.artifact_ref ≡ c
          → IsCache platform Found (
              if not a || not b || not c
              then none
              else some (record {
                identity = identity_from_pointer pointer;
                snapshot = v;
                loaded_at = later;
              }))
      split false b c _ _ _ = tt
      split true false c _ _ _ = tt
      split true true false _ _ _ = tt
      split true true true generation hash ref =
          let same_generation = equal pointer.generation v.generation generation in
          let same_hash = holds-sound (Text-discrete pointer.content_hash v.content_hash) hash in
          let same_ref = holds-sound (Text-discrete pointer.artifact_ref v.artifact_ref) ref in
          (
            h v refl,
            same_generation,
            same_hash,
            same_ref,
            pointer,
            looked pointer refl,
            (same_generation, same_hash, same_ref),
          )

  keep-IsCache :
      (Found : ℕ → PublicReleasePointer → Type 0) (later : ℕ) (resident : Cached)
      (captured : Option PublicReleasePointer) (loaded : Loaded)
      → IsCache platform Found resident
      → ((pointer : PublicReleasePointer) → captured ≡ some pointer → Found later pointer)
      → ((v : VerifiedPublicSnapshot) → loaded ≡ ok (some v) → IsAuthentic platform v)
      → IsCache platform Found (keep platform store soft_ttl_ms later resident captured loaded).1
  unfolding keep
  keep-IsCache Found later resident captured (err error) cache looked h = cache
  keep-IsCache Found later resident captured (ok loaded) cache looked h =
      kept_of-IsCache Found later captured loaded looked (λ v e. h v (ap ok e))

  keep_answer :
      (now : ℕ) (resident : Cached) (captured : Option PublicReleasePointer) (loaded : Loaded)
      → (keep platform store soft_ttl_ms now resident captured loaded).0 ≡ loaded
  unfolding keep
  keep_answer now resident captured (err error) = refl
  keep_answer now resident captured (ok loaded) = refl

  same_identity :
      (a b : PointerIdentity)
      → identities_match a b ≡ true
      → (a.generation ≡ b.generation)
        × (a.content_hash ≡ b.content_hash)
        × (a.artifact_ref ≡ b.artifact_ref)
  unfolding identities_match
  same_identity a b h =
      split (a.generation == b.generation) (equals a.content_hash b.content_hash)
        (equals a.artifact_ref b.artifact_ref) _ refl refl refl h
    where
      split :
          (p q r s : Bool)
          → (a.generation == b.generation) ≡ p
          → equals a.content_hash b.content_hash ≡ q
          → equals a.artifact_ref b.artifact_ref ≡ r
          → (p && q && r && s) ≡ true
          → (a.generation ≡ b.generation)
            × (a.content_hash ≡ b.content_hash)
            × (a.artifact_ref ≡ b.artifact_ref)
      split true true true s generation hash ref k = (
        equal a.generation b.generation generation,
        holds-sound (Text-discrete a.content_hash b.content_hash) hash,
        holds-sound (Text-discrete a.artifact_ref b.artifact_ref) ref,
      )
      split false q r s _ _ _ k = absurd (ground arith)
      split true false r s _ _ _ k = absurd (ground arith)
      split true true false s _ _ _ k = absurd (ground arith)

  -- `Found` says which releases were found to be current, and when, before a call; `Found'` adds
  -- what the call finds.
  module _ (Found Found' : ℕ → PublicReleasePointer → Type 0) (now later : ℕ) (state : State)
      (grow : (time : ℕ) (pointer : PublicReleasePointer)
        → Found time pointer
        → Found' time pointer)
      (looked : (pointer : PublicReleasePointer)
        → store.get_current_release state ≡ some pointer
        → Found' later pointer) where
    -- What a call guarantees of its answer and of the cache that it leaves.
    abbrev IsServing : Loaded × Cached → Type 0
    IsServing answer =
        IsCache platform Found' answer.1
        × ((v : VerifiedPublicSnapshot)
            → answer.0 ≡ ok (some v)
            → IsAuthentic platform v × IsFresh Found now (store.get_current_release state) v)

    grown : (entry : ResidentEntry) → IsEntry platform Found entry → IsEntry platform Found' entry
    grown entry (authentic, a, b, c, pointer, found, of_release) =
        (authentic, a, b, c, pointer, grow entry.loaded_at pointer found, of_release)

    revalidate-IsServing :
        (entry : ResidentEntry)
        → IsEntry platform Found entry
        → IsServing (revalidate platform store soft_ttl_ms later entry state)
    unfolding revalidate
    revalidate-IsServing entry held = elim (Option-cases (store.get_current_release state)) [
      | inl e ↦ rw (e, revalidate) (tt, (λ v h. absurd (some-none (sym (ok-inj h)))))
      | inr (pointer, e) ↦
          elim (Bool-cases (identities_match entry.identity (identity_from_pointer pointer))) [
            | inl f ↦
                let same = same_identity entry.identity (identity_from_pointer pointer) f in
                let of_release : IsOfRelease pointer entry.snapshot =
                  (sym same.0 ∙ held.1, sym same.1 ∙ held.2, sym same.2 ∙ held.3) in
                rw (e, revalidate)
                  (rw f (
                    (held.0, held.1, held.2, held.3, pointer, looked pointer e, of_release),
                    (λ v h.
                        subst (λ w. IsAuthentic platform w × IsFresh Found now (some pointer) w)
                          (some-inj (ok-inj h)) (held.0, inl (pointer, refl, of_release))),
                  ))
            | inr f ↦
                rw (e, revalidate)
                  (rw f (
                    keep-IsCache Found' later (some entry) (some pointer)
                        (load_release platform store pointer state) (grown entry held)
                        (λ p k. looked p (e ∙ k))
                        (λ v h. (load_release-IsAuthentic platform store pointer state v h).0),
                    (λ v h.
                        let loaded = load_release-IsAuthentic platform store pointer state v (
                          sym (
                            keep_answer later (some entry) (some pointer)
                              (load_release platform store pointer state))
                          ∙ h) in
                        (loaded.0, inl (pointer, refl, loaded.1))),
                  ))
          ]
    ]

    serving :
        (cached : Cached)
        → IsCache platform Found cached
        → IsServing (load platform store soft_ttl_ms now later cached state)
    unfolding load
    serving none cache = (
      keep-IsCache Found' later none (store.get_current_release state)
          (load_verified_public_snapshot platform store state) tt looked
          (λ v h. (load_verified_public_snapshot-IsAuthentic platform store state v h).0),
      (λ v h.
          let loaded = load_verified_public_snapshot-IsAuthentic platform store state v (
            sym (
              keep_answer later none (store.get_current_release state)
                (load_verified_public_snapshot platform store state))
            ∙ h) in
          (loaded.0, inl (loaded.1, loaded.2, loaded.3))),
    )
    serving (some entry) cache = elim (Bool-cases (ltb (now - entry.loaded_at) soft_ttl_ms)) [
      | inl e ↦
          rw (e, load)
            (
              grown entry cache,
              (λ v h.
                  subst
                    (λ w.
                      IsAuthentic platform w
                      × IsFresh Found now (store.get_current_release state) w)
                    (some-inj (ok-inj h))
                    (cache.0, inr (entry.loaded_at, cache.4, cache.5, cache.6, ground arith))),
            )
      | inr e ↦ rw (e, load) (revalidate-IsServing entry cache)
    ]

  -- A call, with what the clock showed at its start and after its last look at the store.
  pub record Call : Type 0 where
    pub now : ℕ
    pub later : ℕ
    pub state : State

  -- The cache after calls, the latest first.
  unfoldable pub cache_after : List Call → Cached
  cache_after [] = none
  cache_after (call ∷ calls) =
      (load platform store soft_ttl_ms call.now call.later (cache_after calls) call.state).1

  -- The release was the current one during a call that ended at the time.
  abbrev pub WasCurrent : List Call → ℕ → PublicReleasePointer → Type 0
  WasCurrent [] time pointer = ⊥
  WasCurrent (call ∷ calls) time pointer =
      ((call.later ≡ time) × (store.get_current_release call.state ≡ some pointer))
      ⊎ WasCurrent calls time pointer

  cache_after-IsCache :
      (calls : List Call) → IsCache platform (WasCurrent calls) (cache_after calls)
  unfolding cache_after
  cache_after-IsCache [] = tt
  cache_after-IsCache (call ∷ calls) =
      (serving (WasCurrent calls) (WasCurrent (call ∷ calls)) call.now call.later call.state
        (λ time pointer found. inr found) (λ pointer e. inl (refl, e)) (cache_after calls)
        (cache_after-IsCache calls)).0

  -- After any calls on a cache that was empty, what a call serves is authentic, and belongs to the
  -- current release, or to one that was current during an earlier call that ended less than the
  -- interval ago.
  pub load-IsServing :
      (calls : List Call) (call : Call) (v : VerifiedPublicSnapshot)
      → (load platform store soft_ttl_ms call.now call.later (cache_after calls) call.state).0
        ≡ ok (some v)
      → IsAuthentic platform v
        × IsFresh (WasCurrent calls) call.now (store.get_current_release call.state) v
  load-IsServing calls call v h =
      (serving (WasCurrent calls) (WasCurrent (call ∷ calls)) call.now call.later call.state
          (λ time pointer found. inr found) (λ pointer e. inl (refl, e)) (cache_after calls)
          (cache_after-IsCache calls)).1
        v h
