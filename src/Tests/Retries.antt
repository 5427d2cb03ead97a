-- ===== src/Tests/Retries.antt =====
-- A limiter over five failures.
use bqsink.Common.{◌≡◌, refl, true, false, List, [], ◌∷◌}
use bqsink.Fault.{Error, message, api_error, status_error, unavailable, wrap, joined, as_api}
use bqsink.Retry.{
  is_concurrent_change, as_status, passing_http, passing_status, is_retryable, retry,
  default_retry_policy,
}
use bqsink.Retry.Limit.{answers, first_retryable, answers-first}

abbrev failures : List Error
failures =
    wrap "bqsink: update schema" (api_error 412)
    ∷ message "denied"
    ∷ joined (message "x") (status_error unavailable)
    ∷ api_error 503
    ∷ api_error 503
    ∷ []

five : answers default_retry_policy failures ≡ true ∷ false ∷ true ∷ true ∷ false ∷ []
unfolding answers retry is_retryable is_concurrent_change as_status passing_http passing_status
    as_api
five = refl

answers-first_example : answers default_retry_policy failures ≡ first_retryable 4 failures
answers-first_example = answers-first default_retry_policy failures
