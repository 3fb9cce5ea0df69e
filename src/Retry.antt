-- ===== src/Retry.antt =====
-- withRetry of apps/node-jobs/src/upstream/retry.ts. The operation and the sleep are parameters:
-- each ends with a value or with what it threw. The lengths of the delays are not modelled.
pub mod Attempts
mod Examples
use airing_cal.Common.{
  ℕ, zero, suc, ◌+◌, ◌-◌, Bool, true, false, not, ◌&&◌, ◌||◌, Option, none, some, Text,
  Text-discrete, units, Result, ok, err, ltb, leb, ◌==◌, if◌then◌else◌, holds,
}

pub data UpstreamErrorCategory : Type 0 where
  auth not_found rate_limited upstream timeout network contract : UpstreamErrorCategory

pub data UpstreamStage : Type 0 where
  config collections calendar complete : UpstreamStage

pub record UpstreamFetchError : Type 0 where
  pub category : UpstreamErrorCategory
  pub code : Text
  pub stage : UpstreamStage
  pub attempt : ℕ

-- What an operation throws, as far as it is looked at: an HTTP status with its Retry-After, a
-- DOMException by its name, the client's errors, a TypeError, or something else.
pub data Thrown : Type 0 where
  bgm_http_error : ℕ → Option Text → Thrown
  bgm_timeout_error bgm_network_error type_error other_error : Thrown
  dom_exception : Text → Thrown

pub record Classification : Type 0 where
  pub category : UpstreamErrorCategory
  pub code : Text
  pub retry : Bool
  pub retry_after : Option Text

abbrev final : UpstreamErrorCategory → Text → Classification
final category code = record { category = category; code = code; retry = false; retry_after = none }

abbrev again : UpstreamErrorCategory → Text → Option Text → Classification
again category code retry_after = record {
  category = category;
  code = code;
  retry = true;
  retry_after = retry_after;
}

unfoldable pub classify : Thrown → Classification
classify (bgm_http_error status retry_after) =
    if (status == 401) || (status == 403)
    then final auth
        (if status == 401 then units "UPSTREAM_UNAUTHORIZED" else units "UPSTREAM_FORBIDDEN")
    else if status == 404
    then final not_found (units "UPSTREAM_NOT_FOUND")
    else if status == 429
    then again rate_limited (units "UPSTREAM_RATE_LIMITED") retry_after
    else if leb 500 status
    then again upstream (units "UPSTREAM_5XX") retry_after
    else final upstream (units "UPSTREAM_HTTP")
classify bgm_timeout_error = again timeout (units "UPSTREAM_TIMEOUT") none
classify bgm_network_error = again network (units "UPSTREAM_NETWORK") none
classify type_error = again network (units "UPSTREAM_NETWORK") none
classify other_error = final contract (units "UPSTREAM_CONTRACT")
classify (dom_exception name) =
    if holds (Text-discrete name (units "TimeoutError"))
      || holds (Text-discrete name (units "AbortError"))
    then again timeout (units "UPSTREAM_TIMEOUT") none
    else final contract (units "UPSTREAM_CONTRACT")

abbrev pub fetch_error : Thrown → UpstreamStage → ℕ → UpstreamFetchError
fetch_error thrown stage attempt = record {
  category = (classify thrown).category;
  code = (classify thrown).code;
  stage = stage;
  attempt = attempt;
}

abbrev pub contract_error : Text → UpstreamStage → ℕ → UpstreamFetchError
contract_error code stage attempt = record {
  category = contract;
  code = code;
  stage = stage;
  attempt = attempt;
}

-- The policy, with its defaults filled in and its delays valid.
module _ {A : Type 0} (operation : ℕ → Result Thrown A) (sleeps : ℕ → Thrown → Bool)
    (stage : UpstreamStage) where
  -- The attempts from `attempt` on, with so many left after it.
  unfoldable pub attempts : ℕ → ℕ → Result UpstreamFetchError A
  attempts zero attempt = elim (operation attempt) [
    | ok value ↦ ok value
    | err thrown ↦ err (fetch_error thrown stage attempt)
  ]
  attempts (suc left) attempt =
      let rest = attempts left (attempt + 1) in
      elim (operation attempt) [
        | ok value ↦ ok value
        | err thrown ↦
            if not (classify thrown).retry
            then err (fetch_error thrown stage attempt)
            else if sleeps attempt thrown
            then rest
            else err (contract_error (units "RETRY_DELAY_FAILED") stage attempt)
      ]

  -- withRetry
  unfoldable pub with_retry : ℕ → Result UpstreamFetchError A
  with_retry zero = err (contract_error (units "INVALID_RETRY_POLICY") stage 1)
  with_retry (suc left) =
      if ltb 3 (left + 1)
      then err (contract_error (units "INVALID_RETRY_POLICY") stage 1)
      else attempts left 1
