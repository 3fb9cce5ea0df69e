-- ===== src/Accounts/Writes.antt =====
-- What a synchronisation writes to the target's platform, and which entries it takes.
use airing_cal.Common.{
  ◌≡◌, refl, sym, ap, subst, inl, inr, ◌⊎◌, Bool, true, false, none, some, List, [], ◌∷◌, Text,
  Text-discrete, units, Result, ok, err, ◌>>◌, returned, Result-cases, ok-inj, Bool-cases,
  if◌then◌else◌, any, filter, All, ◌==◌, get,
}
use airing_cal.Accounts.{
  ComparisonItem, PatchEntryResult, AccountInfo, Thrown, equals, status_label, message_of,
}
use airing_cal.Accounts.Sync.{
  SyncBaseline, SyncRequest, SyncError, SyncResult, synced, failed, validate_sync_request,
  index_baseline, or_empty, status_before, score_before, partial_of, result_of, sync_all,
  from_client, targets_of, execute_sync,
}
use airing_cal.Accounts.Outcome.{IsAcceptable, validate_sync_request_iff}

-- A platform that patches of entries with such ids, and nothing else, make of another one.
pub data Reached {Platform : Type 0}
    (patch_entry : ComparisonItem → Platform → Result Thrown PatchEntryResult × Platform)
    (P : Text → Type 0) : Platform → Platform → Type 0 where
  unchanged : (platform : Platform) → Reached patch_entry P platform platform
  changed :
      (entry : ComparisonItem) (before after : Platform)
      → P entry.external_id
      → Reached patch_entry P (patch_entry entry before).1 after
      → Reached patch_entry P before after

module _ {Platform : Type 0}
    (patch_entry : ComparisonItem → Platform → Result Thrown PatchEntryResult × Platform)
    (baselines : List (Text × SyncBaseline)) where
  -- The entries patched one after the other on the platform that the ones before left, with a result
  -- for each: an entry whose patch throws is reported, and the next one is patched.
  pub data Written : Platform → List ComparisonItem → List SyncResult → Platform → Type 0 where
    finished : (platform : Platform) → Written platform [] [] platform
    patched :
        (entry : ComparisonItem) (entries : List ComparisonItem) (results : List SyncResult)
        (before between after : Platform) (patch : PatchEntryResult)
        → patch_entry entry before ≡ (ok patch, between)
        → Written between entries results after
        → Written before
            (entry ∷ entries)
            (record {
              external_id = entry.external_id;
              title = entry.title;
              outcome =
                  synced
                    (status_before (get Text-discrete entry.external_id baselines))
                    (status_label entry.status)
                    (score_before (get Text-discrete entry.external_id baselines))
                    (if entry.score == 0 then none else some entry.score)
                    patch;
            }
              ∷ results)
            after
    refused :
        (entry : ComparisonItem) (entries : List ComparisonItem) (results : List SyncResult)
        (before between after : Platform) (thrown : Thrown)
        → patch_entry entry before ≡ (err thrown, between)
        → Written between entries results after
        → Written before
            (entry ∷ entries)
            (record {
              external_id = entry.external_id;
              title = entry.title;
              outcome = failed (message_of thrown) (partial_of thrown);
            }
              ∷ results)
            after

  sync_all-Written :
      (entries : List ComparisonItem) (platform : Platform)
      → Written platform entries
          (sync_all patch_entry baselines entries platform).0
          (sync_all patch_entry baselines entries platform).1
  unfolding sync_all result_of
  sync_all-Written [] platform = finished platform
  sync_all-Written (entry ∷ entries) platform =
      next (patch_entry entry platform) refl
        (sync_all-Written entries (patch_entry entry platform).1)
    where
      next :
          (answer : Result Thrown PatchEntryResult × Platform)
          → patch_entry entry platform ≡ answer
          → Written answer.1 entries
              (sync_all patch_entry baselines entries answer.1).0
              (sync_all patch_entry baselines entries answer.1).1
          → Written platform
              (entry ∷ entries)
              (result_of baselines entry answer.0
                ∷ (sync_all patch_entry baselines entries answer.1).0)
              (sync_all patch_entry baselines entries answer.1).1
      next (ok patch, between) e rest = patched entry entries _ platform between _ patch e rest
      next (err thrown, between) e rest = refused entry entries _ platform between _ thrown e rest

  -- What the patches of the entries do to the platform.
  Written-Reached :
      (P : Text → Type 0) (before after : Platform) (entries : List ComparisonItem)
      (results : List SyncResult)
      → Written before entries results after
      → All (λ entry. P entry.external_id) entries
      → Reached patch_entry P before after
  Written-Reached P _ _ _ _ (finished platform) h = unchanged platform
  Written-Reached P before after _ _ (patched entry entries results _ between _ _ e rest) (p, ps) =
      changed entry before after p (
        subst (λ middle. Reached patch_entry P middle after) (sym (ap (λ answer. answer.1) e))
          (Written-Reached P between after entries results rest ps))
  Written-Reached P before after _ _ (refused entry entries results _ between _ _ e rest) (p, ps) =
      changed entry before after p (
        subst (λ middle. Reached patch_entry P middle after) (sym (ap (λ answer. answer.1) e))
          (Written-Reached P between after entries results rest ps))

All-filter :
    {A : Type 0} (test : A → Bool) (xs : List A) → All (λ x. test x ≡ true) (filter test xs)
All-filter test [] = tt
All-filter test (x ∷ xs) = elim (Bool-cases (test x)) [
  | inl e ↦ rw e (e, All-filter test xs)
  | inr e ↦ rw e (All-filter test xs)
]

module _ {Platform : Type 0}
    (patch_entry : ComparisonItem → Platform → Result Thrown PatchEntryResult × Platform)
    (get_me : Result Thrown AccountInfo)
    (fetch_collections : Text → Result Thrown (List ComparisonItem)) where
  abbrev pub baselines_of : SyncRequest → List (Text × SyncBaseline)
  baselines_of request = index_baseline [] (or_empty request.baseline)

  -- The two ways in which a synchronisation ends.
  abbrev pub IsSettled :
      SyncRequest → Platform → Result SyncError (List SyncResult) × Platform → Type 0
  IsSettled request platform answer =
      ((thrown : SyncError) × (answer ≡ (err thrown, platform)))
      ⊎ (IsAcceptable request
          × (targets : List ComparisonItem) × (targets_of patch_entry get_me fetch_collections
                request
              ≡ ok targets)
          × (results : List SyncResult) × (after : Platform) × (answer ≡ (ok results, after))
          × Written patch_entry (baselines_of request) platform targets results after)

  -- A synchronisation throws and leaves the target's platform as it was, or its request is
  -- acceptable and it returns a result for each entry selected, in order, each patched on the
  -- platform as the ones before left it, whether those succeeded or not.
  pub execute_sync-IsSettled :
      (request : SyncRequest) (platform : Platform)
      → IsSettled request platform
          (execute_sync patch_entry get_me fetch_collections request platform)
  unfolding execute_sync
  execute_sync-IsSettled request platform =
      elim (Result-cases (
        validate_sync_request request >> targets_of patch_entry get_me fetch_collections request)) [
          | inl (thrown, e) ↦ rw (e, execute_sync) (inl (thrown, refl))
          | inr (targets, e) ↦
              let first = returned (validate_sync_request request) _ e in
              rw (e, execute_sync)
                (inr (
                  (validate_sync_request_iff request).0 first.1,
                  targets,
                  first.2,
                  _,
                  _,
                  refl,
                  sync_all-Written patch_entry (baselines_of request) targets platform,
                ))
        ]

  abbrev IsNamed : SyncRequest → Text → Type 0
  IsNamed request id = any (equals id) (or_empty request.subject_ids) ≡ true

  targets_of-IsNamed :
      (request : SyncRequest) (targets : List ComparisonItem)
      → equals request.mode (units "full") ≡ false
      → request.items ≡ none
      → targets_of patch_entry get_me fetch_collections request ≡ ok targets
      → All (λ item. IsNamed request item.external_id) targets
  unfolding targets_of
  targets_of-IsNamed request targets mode items h =
      let step =
        returned (from_client patch_entry get_me fetch_collections get_me) _
          (rw (items, targets_of) at h) in
      let fetched =
        returned
          (from_client patch_entry get_me fetch_collections (fetch_collections step.0.username)) _
          step.2 in
      subst (All (λ item. IsNamed request item.external_id)) (ok-inj (rw mode at fetched.2)) (
        All-filter (λ item. any (equals item.external_id) (or_empty request.subject_ids)) fetched.0)

  -- A synchronisation that is not full and has no items does nothing to the target's platform but
  -- patch entries whose ids the request names, whether it throws or not.
  pub execute_sync_partial :
      (request : SyncRequest) (before : Platform)
      → equals request.mode (units "full") ≡ false
      → request.items ≡ none
      → Reached patch_entry
          (λ id. any (equals id) (or_empty request.subject_ids) ≡ true)
          before
          (execute_sync patch_entry get_me fetch_collections request before).1
  execute_sync_partial request before mode items = elim (execute_sync-IsSettled request before) [
    | inl (thrown, e) ↦ rw e (unchanged before)
    | inr (_, targets, found, results, after, e, written) ↦ rw e (
        Written-Reached patch_entry (baselines_of request) (IsNamed request) before after targets
          results written (targets_of-IsNamed request targets mode items found))
  ]
