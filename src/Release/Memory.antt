-- ===== src/Release/Memory.antt =====
-- What a public store promises, and that the store in memory keeps it.
use airing_cal.Common.{
  ℕ, ◌≡◌, ◌≢◌, ◌⊎◌, refl, sym, ap, ◌∙◌, inl, inr, Bool, true, false, not, ◌&&◌, ◌||◌, Option, none,
  some, Text, Text-discrete, Bytes, Bool-cases, if◌then◌else◌, ◌==◌, holds-sound, holds_complete,
  arith,
}
use airing_cal.Snapshot.{equals}
use airing_cal.Release.{
  PublicReleasePointer, CommitResult, committed, conflict, unsupported, PublicStore,
  MemoryPublicStore, memory_store, memory_commit_release, memory_put_immutable_object, hash_of,
  generation_of, same_hash, same_generation, release_pointers_match,
}

-- The contract of a public store: an object that was put is read back and others stay; a release is
-- committed only over a pointer that matches the expected one; nothing else changes the pointer, and
-- a commit changes no object.
pub record IsPublicStore {State : Type 0} (store : PublicStore State) : Type 0 where
  pub put_reads :
      (key : Text) (body : Bytes) (content_type : Text) (state : State)
      → (store.put_immutable_object key body content_type state).0 ≡ none
      → store.get_snapshot_bytes key (store.put_immutable_object key body content_type state).1
        ≡ some body
  pub put_keeps :
      (key other : Text) (body : Bytes) (content_type : Text) (state : State)
      → equals other key ≡ false
      → store.get_snapshot_bytes other (store.put_immutable_object key body content_type state).1
        ≡ store.get_snapshot_bytes other state
  pub put_keeps_release :
      (key : Text) (body : Bytes) (content_type : Text) (state : State)
      → store.get_current_release (store.put_immutable_object key body content_type state).1
        ≡ store.get_current_release state
  pub commits :
      (expected : Option PublicReleasePointer) (next : PublicReleasePointer) (state : State)
      → (store.commit_release expected next state).0 ≡ committed
      → (release_pointers_match expected (store.get_current_release state) ≡ true)
        × (store.get_current_release (store.commit_release expected next state).1 ≡ some next)
  pub refuses :
      (expected : Option PublicReleasePointer) (next : PublicReleasePointer) (state : State)
      → (store.commit_release expected next state).0 ≢ committed
      → store.get_current_release (store.commit_release expected next state).1
        ≡ store.get_current_release state
  pub commit_keeps :
      (expected : Option PublicReleasePointer) (next : PublicReleasePointer) (state : State)
      (key : Text)
      → store.get_snapshot_bytes key (store.commit_release expected next state).1
        ≡ store.get_snapshot_bytes key state

equals-swap : (a b : Text) → equals a b ≡ equals b a
equals-swap a b = elim (Bool-cases (equals a b)) [
  | inl e ↦ e ∙ sym (holds_complete (Text-discrete b a) (sym (holds-sound (Text-discrete a b) e)))
  | inr e ↦ elim (Bool-cases (equals b a)) [
    | inr f ↦ e ∙ sym f
    | inl f ↦ holds_complete (Text-discrete a b) (sym (holds-sound (Text-discrete b a) f)) ∙ sym f
  ]
]

number-swap : (a b : ℕ) → a == b ≡ b == a
number-swap a b = ground arith

-- The two comparisons of the store in memory are releasePointersMatch.
pub pointers-match :
    (current expected : Option PublicReleasePointer)
    → (same_hash (hash_of current) (hash_of expected)
        && same_generation (generation_of current) (generation_of expected))
      ≡ release_pointers_match expected current
unfolding same_hash same_generation release_pointers_match
pointers-match none none = refl
pointers-match none (some b) = refl
pointers-match (some a) none = refl
pointers-match (some a) (some b) =
    rw (equals-swap a.content_hash b.content_hash)
      (ap (λ t. equals b.content_hash a.content_hash && t) (number-swap a.generation b.generation))

abbrev answered :
    Bool → Bool → Bool → PublicReleasePointer → MemoryPublicStore → CommitResult × MemoryPublicStore
answered cas a b next store =
    if not cas
    then (unsupported, store)
    else if not a || not b
    then (conflict, store)
    else (committed, record store { current = some next })

-- A commit sets the pointer over one that matches, or changes nothing.
commit_cases :
    (expected : Option PublicReleasePointer) (next : PublicReleasePointer)
    (store : MemoryPublicStore)
    → ((memory_commit_release expected next store
          ≡ (committed, record store { current = some next }))
        × (release_pointers_match expected store.current ≡ true))
      ⊎ (((memory_commit_release expected next store).0 ≢ committed)
          × ((memory_commit_release expected next store).1 ≡ store))
unfolding memory_commit_release
commit_cases expected next store =
    split store.cas_supported (same_hash (hash_of store.current) (hash_of expected))
      (same_generation (generation_of store.current) (generation_of expected))
      (sym (pointers-match store.current expected))
  where
    split :
        (cas a b : Bool)
        → release_pointers_match expected store.current ≡ (a && b)
        → ((answered cas a b next store ≡ (committed, record store { current = some next }))
            × (release_pointers_match expected store.current ≡ true))
          ⊎ (((answered cas a b next store).0 ≢ committed)
              × ((answered cas a b next store).1 ≡ store))
    split false a b m = inr ((λ h. ground arith), refl)
    split true false b m = inr ((λ h. ground arith), refl)
    split true true false m = inr ((λ h. ground arith), refl)
    split true true true m = inl (refl, m)

-- The store in memory keeps the contract of a public store.
pub memory_store-IsPublicStore : IsPublicStore memory_store
unfolding memory_put_immutable_object
memory_store-IsPublicStore = record {
  put_reads =
      λ key body content_type state _. rw (holds_complete (Text-discrete key key) refl) refl;
  put_keeps = λ key other body content_type state apart. rw apart refl;
  put_keeps_release = λ key body content_type state. refl;
  commits = λ expected next state h. elim (commit_cases expected next state) [
    | inl (done, matched) ↦ (matched, ap (λ answer. answer.1.current) done)
    | inr (refused, _) ↦ absurd (refused h)
  ];
  refuses = λ expected next state h. elim (commit_cases expected next state) [
    | inl (done, _) ↦ absurd (h (ap (λ answer. answer.0) done))
    | inr (_, same) ↦ ap (λ s. s.current) same
  ];
  commit_keeps = λ expected next state key. elim (commit_cases expected next state) [
    | inl (done, _) ↦ ap (λ answer. answer.1.objects key) done
    | inr (_, same) ↦ ap (λ s. s.objects key) same
  ];
}
