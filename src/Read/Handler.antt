-- ===== src/Read/Handler.antt =====
-- handlePortableReadRequest of packages/v3-read/src/portable-read-handler.ts.
use airing_cal.Common.{
  ℕ, zero, suc, ◌+◌, ◌-◌, ◌*◌, min, Bool, true, false, ◌||◌, Option, none, some, List, [], ◌∷◌, map,
  Text, units, if◌then◌else◌, Result, ok, err, ◌>>=◌, length, ◌++◌, filter, drop,
}
use airing_cal.SnapshotGc.{starts_with}
use airing_cal.Json.{
  Json, null, boolean, natural, string, array, object, items_in, object_of, array_of, no_items,
}
use airing_cal.Snapshot.{equals}
use airing_cal.Snapshot.Build.{PublicSnapshot, field_or_null, natural_in, text_in}
use airing_cal.Read.{VerifiedPublicSnapshot, LoadError, Loaded}
use airing_cal.Read.Query.{
  QueryError, Params, single_query_parameter, collection_types, parse_collection_type,
  parse_positive_integer,
}

pub data Body : Type 0 where
  json : Json → Body
  plain : Text → Body

pub record Response : Type 0 where
  pub status : ℕ
  pub body : Body
  pub cache_control : Option Text

-- The environment. `platform_id` is what readPlatformId returns, `image` answers the image routes,
-- `iso` is toISOString of a time in milliseconds, and `message` that of a thrown error.
pub record PortableReadEnv : Type 0 where
  pub nsfw_show : Option Bool
  pub package_version : Option Text
  pub platform_id : Option Text
  pub cron_status : Option Json
  pub image : Text → Response
  pub iso : ℕ → Text
  pub message : LoadError → Text

abbrev pub fields : List (Text × Json) → Json
fields entries = object (object_of entries)

-- V2_CACHE_CONTROL
abbrev pub page_control : Text
page_control = units "public, max-age=30, s-maxage=60, stale-while-revalidate=30"

abbrev default_control : Text
default_control = units "public, max-age=60"

abbrev pub ok_json : Text → Json → Response
ok_json cache_control value = record {
  status = 200;
  body = json value;
  cache_control = some cache_control;
}

abbrev pub failed_json : ℕ → Json → Response
failed_json status value = record {
  status = status;
  body = json value;
  cache_control = some (units "no-store");
}

abbrev pub not_found : Response
not_found = record { status = 404; body = plain (units "Not found"); cache_control = none }

abbrev pub error_of : Text → Text → Json
error_of code message = fields (
    (units "ok", boolean false)
    ∷ (units "error", fields ((units "code", string code) ∷ (units "message", string message) ∷ []))
    ∷ [])

abbrev pub elements : Json → List Json
elements (array values) = items_in values
elements _ = []

-- `items.slice(start, end)`
unfoldable pub slice {ℓ} : {A : Type ℓ} → ℕ → ℕ → List A → List A
slice start end [] = []
slice zero zero (x ∷ xs) = []
slice zero (suc end) (x ∷ xs) = x ∷ slice zero end xs
slice (suc start) zero (x ∷ xs) = []
slice (suc start) (suc end) (x ∷ xs) = slice start end xs

abbrev pub collection_in : Text → PublicSnapshot → List Json
collection_in type snapshot = elements (field_or_null type snapshot.collections)

unfoldable pub handle_collections : Params → PublicSnapshot → Result QueryError Response
handle_collections params snapshot = single_query_parameter params (units "type") >>= λ given_type.
    parse_collection_type given_type >>= λ type.
    single_query_parameter params (units "page") >>= λ given_page.
    parse_positive_integer given_page 1 none >>= λ page.
    single_query_parameter params (units "limit") >>= λ given_limit.
    parse_positive_integer given_limit 24 (some 100) >>= λ limit. ok (
      ok_json page_control (
        fields (
          (
            units "data",
            array (
                array_of (
                  slice ((page - 1) * limit) ((page - 1) * limit + limit)
                    (collection_in type snapshot))),
          )
          ∷ (units "total", natural (length (collection_in type snapshot)))
          ∷ (units "page", natural page)
          ∷ (units "limit", natural limit)
          ∷ (units "types", snapshot.summary)
          ∷ [])))

unfoldable pub handle_health : PortableReadEnv → VerifiedPublicSnapshot → Response
handle_health env loaded =
    let snapshot : PublicSnapshot = loaded.snapshot in
    ok_json default_control (
      fields (
        (units "ok", boolean true)
        ∷ (units "worker", string (units "portable-read"))
        ∷ (
          units "data",
          fields (
              (
                units "collections",
                fields (
                    (units "types", snapshot.summary)
                    ∷ (units "updated_at", string (env.iso (snapshot.published_at * 1000)))
                    ∷ (units "users", array no_items)
                    ∷ []),
              )
              ∷ (
                units "cache",
                fields (
                    (
                      units "total_subjects",
                      natural (natural_in (field_or_null (units "_total") snapshot.summary)),
                    )
                    ∷ (units "source", string (units "public_store"))
                    ∷ []),
              )
              ∷ (
                units "cron",
                elim env.cron_status [
                  | some status ↦ status
                  | none ↦ fields (
                      (units "scheduler", string (units "external"))
                      ∷ (units "next_at", null)
                      ∷ (units "last", null)
                      ∷ [])
                ],
              )
              ∷ (units "workflow", null)
              ∷ (
                units "publish",
                fields (
                    (units "generation", natural loaded.generation)
                    ∷ (units "artifact_ref", string loaded.artifact_ref)
                    ∷ (units "content_hash", string loaded.content_hash)
                    ∷ []),
              )
              ∷ []),
        )
        ∷ []))

-- The texts of `image_status.common` and `image_status.large` of a list of items, if they are there.
unfoldable pub statuses_of : List Json → List Text
statuses_of [] = []
statuses_of (item ∷ items) =
    let status : Json = field_or_null (units "image_status") item in
    text_in (field_or_null (units "common") status)
    ∷ text_in (field_or_null (units "large") status)
    ∷ statuses_of items

unfoldable pub statuses_in : List (List Json) → List Text
statuses_in [] = []
statuses_in (items ∷ lists) = statuses_of items ++ statuses_in lists

abbrev counted : List Text → Text → Text × Json
counted statuses name = (name, natural (length (filter (equals name) statuses)))

-- countImageStatus, whose two results are copies of the same counts.
unfoldable pub count_image_status : PublicSnapshot → Json
count_image_status snapshot =
    let statuses : List Text = statuses_in (
      map (λ type. collection_in type snapshot) collection_types
      ++ map (λ day. elements (field_or_null (units "items") day)) (elements snapshot.calendar)) in
    fields (
      map (counted statuses)
        (map units ("cached" ∷ "pending_next_cron" ∷ "queued" ∷ "failed" ∷ "missing_source" ∷ [])))

unfoldable pub handle_cache : Params → PublicSnapshot → Result QueryError Response
handle_cache params snapshot = single_query_parameter params (units "limit") >>= λ given.
    parse_positive_integer given 24 (some 100) >>= λ limit. ok (
      ok_json default_control (
        fields (
          (
            units "page_subjects",
            natural (min limit (natural_in (field_or_null (units "_total") snapshot.summary))),
          )
          ∷ (units "common", count_image_status snapshot)
          ∷ (units "large", count_image_status snapshot)
          ∷ (units "items", array no_items)
          ∷ (units "cursor", null)
          ∷ [])))

unfoldable pub normalize_portable_read_path : Text → Text
normalize_portable_read_path path =
    if equals path (units "/api") || equals path (units "/api/")
    then units "/"
    else if starts_with path (units "/api/")
    then drop 4 path
    else path

abbrev version_of : PortableReadEnv → Json
version_of env =
    let package_version : Text = elim env.package_version [
      | none ↦ units "0.0.0"
      | some version ↦ version
    ] in
    fields (elim env.platform_id [
      | none ↦
          (units "app", string (units "airingcal"))
          ∷ (units "read", string (units "portable"))
          ∷ (units "package", string package_version)
          ∷ []
      | some platform ↦
          (units "app", string (units "airingcal"))
          ∷ (units "read", string platform)
          ∷ (units "package", string package_version)
          ∷ (units "platform", string platform)
          ∷ []
    ])

abbrev shows_nsfw : Option Bool → Bool
shows_nsfw none = true
shows_nsfw (some shown) = shown

-- The answers from a snapshot.
unfoldable pub answer_from :
    Text → Params → PortableReadEnv → VerifiedPublicSnapshot → Result QueryError Response
answer_from path params env loaded =
    if equals path (units "/health")
    then ok (handle_health env loaded)
    else if equals path (units "/collections")
    then handle_collections params loaded.snapshot
    else if equals path (units "/calendar")
    then ok (ok_json page_control loaded.snapshot.calendar)
    else if equals path (units "/cache")
    then handle_cache params loaded.snapshot
    else ok not_found

abbrev no_release : Text → Response
no_release path = failed_json 503 (
    if equals path (units "/health")
    then fields (
        (units "ok", boolean false)
        ∷ (units "worker", string (units "portable-read"))
        ∷ (units "error", fields ((units "code", string (units "NO_RELEASE")) ∷ []))
        ∷ [])
    else error_of (units "NO_RELEASE") (units "No verified public release"))

-- `error.message || 'Verified public release is invalid'`
abbrev message_or_default : Text → Text
message_or_default message =
    if equals message [] then units "Verified public release is invalid" else message

-- The handler before it catches what its query throws; `loaded` is what the cache, or else the
-- loader, answers for the store.
unfoldable pub answer : Text → Params → PortableReadEnv → Loaded → Result QueryError Response
answer path params env loaded =
    if equals path (units "/config")
    then ok
        (ok_json default_control (fields ((units "nsfw", boolean (shows_nsfw env.nsfw_show)) ∷ [])))
    else if equals path (units "/version")
    then ok (ok_json default_control (version_of env))
    else if starts_with path (units "/image/")
    then ok (env.image path)
    else elim loaded [
      | err error ↦ ok (
          failed_json 503
            (error_of (units "RELEASE_INVALID") (message_or_default (env.message error))))
      | ok none ↦ ok (no_release path)
      | ok (some found) ↦ answer_from path params env found
    ]

abbrev pub caught : Result QueryError Response → Response
caught (ok response) = response
caught (err _) =
    failed_json 400 (error_of (units "INVALID_QUERY") (units "Invalid query parameter"))

unfoldable pub handle_portable_read_request : Text → Params → PortableReadEnv → Loaded → Response
handle_portable_read_request path params env loaded =
    caught (answer (normalize_portable_read_path path) params env loaded)
