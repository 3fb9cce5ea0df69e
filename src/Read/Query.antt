-- ===== src/Read/Query.antt =====
-- The query parameters of packages/v3-read/src/portable-read-handler.ts.
use airing_cal.Common.{
  ℕ, ◌+◌, ◌-◌, ◌*◌, Bool, false, not, ◌&&◌, ◌||◌, Option, none, some, List, [], ◌∷◌, map, Text,
  units, ltb, leb, if◌then◌else◌, Result, ok, err, any, every,
}
use airing_cal.Snapshot.{equals, is_safe}

pub data QueryError : Type 0 where
  invalid_query : QueryError

abbrev pub Params : Type 0
Params = List (Text × Text)

-- `searchParams.getAll(name)`
unfoldable pub get_all : Text → Params → List Text
get_all name [] = []
get_all name ((key, value) ∷ params) =
    let rest = get_all name params in if equals key name then value ∷ rest else rest

abbrev pub single : List Text → Result QueryError (Option Text)
single [] = ok none
single (value ∷ []) = ok (some value)
single (_ ∷ _ ∷ _) = err invalid_query

unfoldable pub single_query_parameter : Params → Text → Result QueryError (Option Text)
single_query_parameter params name = single (get_all name params)

-- COLLECTION_TYPES
abbrev pub collection_types : List Text
collection_types = map units ("want" ∷ "watched" ∷ "watching" ∷ "on_hold" ∷ "dropped" ∷ [])

unfoldable pub parse_collection_type : Option Text → Result QueryError Text
parse_collection_type none = ok (units "watching")
parse_collection_type (some value) =
    if any (equals value) collection_types then ok value else err invalid_query

abbrev pub is_digit : ℕ → Bool
is_digit c = leb 48 c && leb c 57

-- The pattern `^[1-9]\d*$`
unfoldable pub is_positive_decimal : Text → Bool
is_positive_decimal [] = false
is_positive_decimal (c ∷ cs) = leb 49 c && leb c 57 && every is_digit cs

-- The number that digits denote, after those that were read.
unfoldable pub number_onto : ℕ → Text → ℕ
number_onto n [] = n
number_onto n (c ∷ cs) = number_onto (n * 10 + (c - 48)) cs

abbrev pub exceeds : ℕ → Option ℕ → Bool
exceeds n none = false
exceeds n (some max) = ltb max n

unfoldable pub parse_positive_integer : Option Text → ℕ → Option ℕ → Result QueryError ℕ
parse_positive_integer none fallback max = ok fallback
parse_positive_integer (some value) fallback max =
    let parsed = number_onto 0 value in
    if not (is_positive_decimal value)
    then err invalid_query
    else if not (is_safe parsed) || exceeds parsed max
    then err invalid_query
    else ok parsed
