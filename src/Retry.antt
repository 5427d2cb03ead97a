-- ===== src/Retry.antt =====
-- The retry policy of migration.go: isConcurrentChange, isRetryable, DefaultRetryPolicy and
-- attemptLimiter. The pauses are left out; `retry` says whether another attempt is made.
pub mod Limit
use bqsink.Common.{
  ℕ, suc, ◌+◌, Bool, true, false, ◌||◌, Option, none, some, List, [], ◌∷◌, ◌==◌, leb, if◌then◌else◌,
}
use bqsink.Fault.{
  Error, message, sentinel, api_error, status_error, wrap, joined, as_api, StatusCode, unavailable,
  deadline_exceeded, resource_exhausted, internal, aborted, other_status,
}

unfoldable pub is_concurrent_change : Error → Bool
is_concurrent_change e = elim (as_api e) [ none ↦ false | some c ↦ c == 412 || c == 409 ]

abbrev first_status : Option StatusCode → Option StatusCode → Option StatusCode
first_status (some c) o = some c
first_status none o = o

-- The code that status.Code finds in the error, if any.
unfoldable pub as_status : Error → Option StatusCode
as_status (status_error c) = some c
as_status (wrap text e) = as_status e
as_status (joined a b) = first_status (as_status a) (as_status b)
as_status _ = none

-- 429, 500, 502, 503 and 504
unfoldable pub passing_http : ℕ → Bool
passing_http c = c == 429 || c == 500 || c == 502 || c == 503 || c == 504

unfoldable pub passing_status : StatusCode → Bool
passing_status other_status = false
passing_status _ = true

-- isRetryable, of an error that is not nil
unfoldable pub is_retryable : Error → Bool
is_retryable e =
    is_concurrent_change e
    || (elim (as_api e) [ none ↦ false | some c ↦ passing_http c ])
    || (elim (as_status e) [ none ↦ false | some c ↦ passing_status c ])

pub record AttemptLimiter : Type 0 where
  pub retries : ℕ
  pub max : ℕ

-- DefaultRetryPolicy
abbrev pub default_retry_policy : AttemptLimiter
default_retry_policy = record { retries = 0; max = 4 }

-- attemptLimiter.Retry
unfoldable pub retry : AttemptLimiter → Error → Bool × AttemptLimiter
retry l e =
    if leb l.max l.retries
    then (false, l)
    else (is_retryable e, record l { retries = l.retries + 1 })
