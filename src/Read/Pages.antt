-- ===== src/Read/Pages.antt =====
-- The pages of a collection.
use airing_cal.Common.{
  ℕ, zero, suc, ◌+◌, ◌-◌, ◌*◌, ◌/◌, ◌%◌, ◌≤◌, ◌<◌, ◌≡◌, refl, sym, ap, ◌∙◌, inl, inr, Bool, true,
  false, ◌&&◌, Option, none, some, List, [], ◌∷◌, ◌++◌, Text, Text-discrete, units, ltb, leb, ok,
  Bool-cases, every, any, length, arith,
}
use airing_cal.Json.{Json, array, natural, array_of, items_in, lookup, object_of, fields_in}
use airing_cal.Snapshot.Build.{PublicSnapshot, field_or_null}
use airing_cal.Snapshot.{equals, is_safe}
use airing_cal.Snapshot.Keys.{digits, decimal}
use airing_cal.Read.Query.{
  Params, single_query_parameter, get_all, collection_types, parse_collection_type, is_digit,
  is_positive_decimal, number_onto, exceeds, parse_positive_integer,
}
use airing_cal.Read.{VerifiedPublicSnapshot}
use airing_cal.Read.Handler.{
  slice, Response, json, plain, PortableReadEnv, ok_json, page_control, fields, elements,
  collection_in, caught, handle_collections, handle_portable_read_request,
  normalize_portable_read_path, answer, answer_from,
}

number_onto-append :
    (n : ℕ) (front : Text) (c : ℕ)
    → number_onto n (front ++ (c ∷ [])) ≡ number_onto n front * 10 + (c - 48)
unfolding number_onto
number_onto-append n [] c = refl
number_onto-append n (d ∷ front) c = number_onto-append (n * 10 + (d - 48)) front c

every-append :
    (front : Text) (c : ℕ)
    → every is_digit front ≡ true
    → is_digit c ≡ true
    → every is_digit (front ++ (c ∷ [])) ≡ true
every-append [] c h k = rw k refl
every-append (d ∷ front) c h k = elim (Bool-cases (is_digit d)) [
  | inl e ↦ rw e (every-append front c (rw e at h) k)
  | inr e ↦ absurd (ground arith)
]

is_positive_decimal-append :
    (front : Text) (c : ℕ)
    → is_positive_decimal front ≡ true
    → is_digit c ≡ true
    → is_positive_decimal (front ++ (c ∷ [])) ≡ true
unfolding is_positive_decimal
is_positive_decimal-append [] c h k = absurd (ground arith)
is_positive_decimal-append (d ∷ front) c h k =
    all_three (leb 49 d) (leb d 57) h (λ e. every-append front c e k)
  where
    all_three :
        (p q : Bool) {r s : Bool}
        → (p && q && r) ≡ true
        → (r ≡ true → s ≡ true)
        → (p && q && s) ≡ true
    all_three true true e next = next e
    all_three false q e next = absurd (ground arith)
    all_three true false e next = absurd (ground arith)

digits_lem :
    (fuel n : ℕ)
    → n < fuel
    → (number_onto 0 (digits fuel n) ≡ n) × (1 ≤ n → is_positive_decimal (digits fuel n) ≡ true)
unfolding digits number_onto is_positive_decimal
digits_lem zero n h = absurd (omega arith)
digits_lem (suc fuel) n h = elim (Bool-cases (ltb n 10)) [
  | inl e ↦ rw e ((ground arith), λ one. ground arith)
  | inr e ↦
      let front = digits_lem fuel (n / 10) (ground arith) in
      rw e (
        number_onto-append 0 (digits fuel (n / 10)) (48 + n % 10) ∙ rw front.0 (omega arith),
        λ _.
            is_positive_decimal-append (digits fuel (n / 10)) (48 + n % 10) (front.1 (ground arith))
              (ground arith),
      )
]

suc_add : (a b : ℕ) → suc a + b ≡ suc (a + b)
suc_add a b = omega arith

slice-append : (a b : ℕ) (l : List Json) → slice 0 a l ++ slice a (a + b) l ≡ slice 0 (a + b) l
unfolding slice
slice-append a b [] = refl
slice-append zero b (x ∷ xs) = refl
slice-append (suc a) b (x ∷ xs) = rw (suc_add a b) (ap (λ l. x ∷ l) (slice-append a b xs))

slice_none : (n : ℕ) (l : List Json) → n ≡ 0 → slice 0 n l ≡ []
unfolding slice
slice_none n [] h = refl
slice_none n (x ∷ xs) h = rw h refl

slice_step :
    (limit a b c : ℕ) (l : List Json)
    → b ≡ a
    → c ≡ a + limit
    → slice 0 a l ++ slice b (b + limit) l ≡ slice 0 c l
slice_step limit a b c l from to = rw (from, to) (slice-append a limit l)

pred_suc : (n : ℕ) → suc n - 1 ≡ n
pred_suc n = omega arith

suc_times : (n limit : ℕ) → suc n * limit ≡ n * limit + limit
suc_times n limit = ground arith

slice_all : (n : ℕ) (l : List Json) → length l ≤ n → slice 0 n l ≡ l
unfolding slice
slice_all n [] h = refl
slice_all zero (x ∷ xs) h = absurd (omega arith)
slice_all (suc n) (x ∷ xs) h = ap (λ l. x ∷ l) (slice_all n xs (omega arith))

items_in-array_of : (values : List Json) → items_in (array_of values) ≡ values
unfolding items_in array_of
items_in-array_of [] = refl
items_in-array_of (value ∷ values) = ap (λ l. value ∷ l) (items_in-array_of values)

-- The number that decimal digits denote is the number that they are of.
parse_positive_integer-decimal :
    (n fallback : ℕ) (max : Option ℕ)
    → 1 ≤ n
    → is_safe n ≡ true
    → exceeds n max ≡ false
    → parse_positive_integer (some (decimal n)) fallback max ≡ ok n
unfolding parse_positive_integer decimal
parse_positive_integer-decimal n fallback max positive safe within =
    let read = digits_lem (suc n) n (omega arith) in rw (read.0, read.1 positive, safe, within) refl

abbrev pub request : Text → ℕ → ℕ → Params
request type page limit =
    (units "type", type) ∷ (units "page", decimal page) ∷ (units "limit", decimal limit) ∷ []

-- The data of a JSON response.
abbrev pub data_of : Response → List Json
data_of response = elim response.body [
  | json value ↦ elements (field_or_null (units "data") value)
  | plain _ ↦ []
]

abbrev page_response : Text → ℕ → ℕ → PublicSnapshot → Response
page_response type page limit snapshot = ok_json page_control (
    fields (
      (
        units "data",
        array (
            array_of (
              slice ((page - 1) * limit) ((page - 1) * limit + limit)
                (collection_in type snapshot))),
      )
      ∷ (units "total", natural (length (collection_in type snapshot)))
      ∷ (units "page", natural page)
      ∷ (units "limit", natural limit)
      ∷ (units "types", snapshot.summary)
      ∷ []))

module _ (type : Text) (limit : ℕ) (snapshot : PublicSnapshot)
    (known : any (equals type) collection_types ≡ true) (positive : 1 ≤ limit)
    (bound : limit ≤ 100) where
  handle_collections_page :
      (page : ℕ)
      → 1 ≤ page
      → is_safe page ≡ true
      → handle_collections (request type page limit) snapshot
        ≡ ok (page_response type page limit snapshot)
  unfolding handle_collections single_query_parameter get_all parse_collection_type Text-discrete
  handle_collections_page page first safe = rw known (
      rw (parse_positive_integer-decimal page 1 none first safe refl) (
        rw
          (parse_positive_integer-decimal limit 24 (some 100) positive (ground arith)
            (ground arith))
          refl))

  data_of-page_response :
      (page : ℕ)
      → data_of (page_response type page limit snapshot)
        ≡ slice ((page - 1) * limit) ((page - 1) * limit + limit) (collection_in type snapshot)
  unfolding lookup object_of fields_in Text-discrete
  data_of-page_response page = items_in-array_of _

module _ (type : Text) (limit : ℕ) (env : PortableReadEnv) (loaded : VerifiedPublicSnapshot) where
  -- What the requests for the first pages return, together.
  unfoldable pub collected : ℕ → List Json
  collected zero = []
  collected (suc n) =
      collected n
      ++ data_of (
          handle_portable_read_request (units "/api/collections") (request type (suc n) limit) env
            (ok (some loaded)))

  module _ (known : any (equals type) collection_types ≡ true) (positive : 1 ≤ limit)
      (bound : limit ≤ 100) where
    answered :
        (page : ℕ)
        → 1 ≤ page
        → is_safe page ≡ true
        → handle_portable_read_request
            (units "/api/collections")
            (request type page limit)
            env
            (ok (some loaded))
          ≡ page_response type page limit loaded.snapshot
    unfolding handle_portable_read_request normalize_portable_read_path answer answer_from
        Text-discrete
    answered page first safe =
        ap caught
          (handle_collections_page type limit loaded.snapshot known positive bound page first safe)

    collected-slice :
        (n : ℕ)
        → is_safe n ≡ true
        → collected n ≡ slice 0 (n * limit) (collection_in type loaded.snapshot)
    unfolding collected
    collected-slice zero safe =
        sym (slice_none (0 * limit) (collection_in type loaded.snapshot) (omega arith))
    collected-slice (suc n) safe =
        rw
          (
            collected-slice n (ground arith),
            answered (suc n) (omega arith) safe,
            data_of-page_response type limit loaded.snapshot known positive bound (suc n),
          )
          (slice_step limit (n * limit) ((suc n - 1) * limit) (suc n * limit)
            (collection_in type loaded.snapshot) (ap (λ m. m * limit) (pred_suc n))
            (suc_times n limit))

    -- The pages of a collection that the handler answers, from the first to one that reaches the end,
    -- are together the whole collection, in order, if the collection is one of the five, a page has
    -- one to a hundred items, and the number of pages is a safe integer.
    pub collected-collection_in :
        (n : ℕ)
        → is_safe n ≡ true
        → length (collection_in type loaded.snapshot) ≤ n * limit
        → collected n ≡ collection_in type loaded.snapshot
    collected-collection_in n safe reaches =
        collected-slice n safe ∙ slice_all (n * limit) (collection_in type loaded.snapshot) reaches
