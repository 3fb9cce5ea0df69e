-- ===== src/Snapshot/Parsing.antt =====
-- What is built is parsed again, and what is parsed is as it was checked.
use airing_cal.Common.{
  ℕ, ◌≡◌, refl, sym, ap, ◌∙◌, Bool, true, false, not, ◌||◌, List, Text, Bytes, Text-discrete, units,
  Result, ok, err, returned, ok-inj, err_not_ok, if◌then◌else◌, holds_complete, holds-sound, subst,
}
use airing_cal.Json.{Json, natural, array, array_of, object_of, fields_in, lookup}
use airing_cal.Snapshot.{equals, is_record, is_safe, is_unix_timestamp_seconds, has}
use airing_cal.Snapshot.Build.{
  SnapshotError, invalid_generation, invalid_published_at, unsupported_schema_version,
  invalid_snapshot, invalid_content_hash, PublicSnapshot, snapshot_json, is_one, as_snapshot,
  Groups, no_groups, group_collections, validate_snapshot_structure, snapshot_of, payload_hash,
  parse_public_snapshot, build_public_snapshot,
}

as_snapshot_lem : (snapshot : PublicSnapshot) → as_snapshot (snapshot_json snapshot) ≡ snapshot
unfolding lookup object_of fields_in Text-discrete
as_snapshot_lem snapshot = refl

has_version :
    (snapshot : PublicSnapshot)
    → has (units "schema_version") is_one (snapshot_json snapshot) ≡ true
unfolding lookup object_of fields_in Text-discrete
has_version snapshot = refl

module _ (encode : Json → Bytes) (digest : Bytes → Text) where
  abbrev has_own_hash : PublicSnapshot → Bool
  has_own_hash snapshot = equals (payload_hash encode digest snapshot) snapshot.content_hash

  -- The three tests of parsePublicSnapshotV1, on their results.
  parse_tests :
      (a b c d : Bool) (snapshot : PublicSnapshot)
      → a ≡ true
      → b ≡ true
      → c ≡ true
      → d ≡ true
      → ◌≡◌ {A = Result SnapshotError PublicSnapshot}
          (if not a || not b
            then err unsupported_schema_version
            else if not c
            then err invalid_snapshot
            else if d
            then ok snapshot
            else err invalid_content_hash)
          (ok snapshot)
  parse_tests a b c d snapshot ha hb hc hd = rw (ha, hb, hc, hd) refl

  parse_passed :
      (a b c d : Bool) (parsed snapshot : PublicSnapshot)
      → ◌≡◌ {A = Result SnapshotError PublicSnapshot}
          (if not a || not b
            then err unsupported_schema_version
            else if not c
            then err invalid_snapshot
            else if d
            then ok parsed
            else err invalid_content_hash)
          (ok snapshot)
      → (c ≡ true) × (d ≡ true) × (parsed ≡ snapshot)
  parse_passed true true true true parsed snapshot h = (refl, refl, ok-inj h)
  parse_passed false b c d parsed snapshot h = absurd (err_not_ok h)
  parse_passed true false c d parsed snapshot h = absurd (err_not_ok h)
  parse_passed true true false d parsed snapshot h = absurd (err_not_ok h)
  parse_passed true true true false parsed snapshot h = absurd (err_not_ok h)

  -- What is parsed passed the checks, has the fields of the value and the hash of its contents.
  pub parse_public_snapshot_sound :
      (value : Json) (snapshot : PublicSnapshot)
      → parse_public_snapshot encode digest value ≡ ok snapshot
      → (validate_snapshot_structure value ≡ true)
        × (as_snapshot value ≡ snapshot)
        × (payload_hash encode digest snapshot ≡ snapshot.content_hash)
  unfolding parse_public_snapshot
  parse_public_snapshot_sound value snapshot h =
      let passed =
        parse_passed (is_record value) (has (units "schema_version") is_one value)
          (validate_snapshot_structure value) (has_own_hash (as_snapshot value)) (as_snapshot value)
          snapshot h in
      (
        passed.0,
        passed.2,
        subst (λ s. payload_hash encode digest s ≡ s.content_hash) passed.2
            (holds-sound (Text-discrete _ _) passed.1),
      )

  parses :
      (snapshot : PublicSnapshot)
      → validate_snapshot_structure (snapshot_json snapshot) ≡ true
      → payload_hash encode digest snapshot ≡ snapshot.content_hash
      → parse_public_snapshot encode digest (snapshot_json snapshot) ≡ ok snapshot
  unfolding parse_public_snapshot
  parses snapshot valid hash =
      parse_tests true (has (units "schema_version") is_one (snapshot_json snapshot))
        (validate_snapshot_structure (snapshot_json snapshot))
        (has_own_hash (as_snapshot (snapshot_json snapshot))) (as_snapshot (snapshot_json snapshot))
        refl (has_version snapshot) valid
        (subst (λ s. has_own_hash s ≡ true) (sym (as_snapshot_lem snapshot))
          (holds_complete (Text-discrete _ _) hash))
      ∙ ap ok (as_snapshot_lem snapshot)

  -- What a snapshot that is built is made of.
  pub build_public_snapshot_lem :
      (collections calendar : List Json) (published_at generation : ℕ) (snapshot : PublicSnapshot)
      → build_public_snapshot encode digest collections calendar published_at generation
        ≡ ok snapshot
      → (groups : Groups) × (group_collections no_groups collections ≡ ok groups)
        × (validate_snapshot_structure (
              snapshot_json (
                snapshot_of encode digest generation published_at
                  (array (array_of calendar))
                  groups))
            ≡ true)
        × (snapshot_of encode digest generation published_at (array (array_of calendar)) groups
            ≡ snapshot)
  unfolding build_public_snapshot
  build_public_snapshot_lem collections calendar published_at generation snapshot h =
      let grouped = returned (group_collections no_groups collections) _ (
        build_passed (is_safe generation) (is_unix_timestamp_seconds (natural published_at)) _ h) in
      let built =
        snapshot_of encode digest generation published_at (array (array_of calendar)) grouped.0 in
      let valid =
        structure_passed (validate_snapshot_structure (snapshot_json built)) built snapshot
          grouped.2 in
      (grouped.0, grouped.1, valid.0, valid.1)
    where
      build_passed :
          (a b : Bool) (rest : Result SnapshotError PublicSnapshot)
          → (if not a
              then err invalid_generation
              else if not b
              then err invalid_published_at
              else rest)
            ≡ ok snapshot
          → rest ≡ ok snapshot
      build_passed true true rest k = k
      build_passed false b rest k = absurd (err_not_ok k)
      build_passed true false rest k = absurd (err_not_ok k)

      structure_passed :
          (valid : Bool) (built snapshot : PublicSnapshot)
          → ◌≡◌ {A = Result SnapshotError PublicSnapshot}
              (if valid then ok built else err invalid_snapshot)
              (ok snapshot)
          → (valid ≡ true) × (built ≡ snapshot)
      structure_passed true built snapshot k = (refl, ok-inj k)
      structure_passed false built snapshot k = absurd (err_not_ok k)

  -- A snapshot that is built has the generation and the time that were asked for, and is parsed
  -- again from its JSON.
  pub build_public_snapshot-parse_public_snapshot :
      (collections calendar : List Json) (published_at generation : ℕ) (snapshot : PublicSnapshot)
      → build_public_snapshot encode digest collections calendar published_at generation
        ≡ ok snapshot
      → (parse_public_snapshot encode digest (snapshot_json snapshot) ≡ ok snapshot)
        × (snapshot.generation ≡ generation)
        × (snapshot.published_at ≡ published_at)
  unfolding payload_hash
  build_public_snapshot-parse_public_snapshot collections calendar published_at generation snapshot
        h =
      let made =
        build_public_snapshot_lem collections calendar published_at generation snapshot h in
      subst
        (λ s.
          (parse_public_snapshot encode digest (snapshot_json s) ≡ ok s)
          × (s.generation ≡ generation)
          × (s.published_at ≡ published_at))
        made.3 (parses _ made.2 refl, refl, refl)

  -- The hash of a snapshot does not depend on its generation.
  pub build_public_snapshot-hash :
      (collections calendar : List Json) (published_at one other : ℕ)
      (first second : PublicSnapshot)
      → build_public_snapshot encode digest collections calendar published_at one ≡ ok first
      → build_public_snapshot encode digest collections calendar published_at other ≡ ok second
      → first.content_hash ≡ second.content_hash
  build_public_snapshot-hash collections calendar published_at one other first second h k =
      let a = build_public_snapshot_lem collections calendar published_at one first h in
      let b = build_public_snapshot_lem collections calendar published_at other second k in
      ap (λ s. s.content_hash) (sym a.3)
      ∙ ap
          (λ groups.
            (snapshot_of encode digest one published_at (array (array_of calendar))
              groups).content_hash)
          (ok-inj (sym a.1 ∙ b.1))
      ∙ ap (λ s. s.content_hash) b.3
