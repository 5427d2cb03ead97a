-- ===== src/Retry/Limit.antt =====
-- How often a limiter lets an operation be tried again, and after which errors.
use bqsink.Common.{
  ℕ, zero, suc, ◌+◌, ◌-◌, ◌≡◌, refl, ap, Bool, true, false, List, [], ◌∷◌, leb, arith,
}
use bqsink.Fault.{Error}
use bqsink.Retry.{is_retryable, AttemptLimiter, retry}

-- What a limiter answers to one error after another.
unfoldable pub answers : AttemptLimiter → List Error → List Bool
answers l [] = []
answers l (e ∷ es) = (retry l e).0 ∷ answers (retry l e).1 es

-- Whether each error is retryable, for the first `k` errors, and no from there on.
abbrev pub first_retryable : ℕ → List Error → List Bool
first_retryable k [] = []
first_retryable zero (e ∷ es) = false ∷ first_retryable zero es
first_retryable (suc k) (e ∷ es) = is_retryable e ∷ first_retryable k es

-- Asked about one error after another, a limiter says yes to exactly the retryable ones among as many
-- of the first errors as it has retries left, whether those before were retryable or not.
pub answers-first :
    (l : AttemptLimiter) (es : List Error) → answers l es ≡ first_retryable (l.max - l.retries) es
unfolding answers retry
answers-first l es = go es l (l.max - l.retries) refl
  where
    go :
        (es : List Error) (l : AttemptLimiter) (k : ℕ)
        → l.max - l.retries ≡ k
        → answers l es ≡ first_retryable k es
    go [] l k h = refl
    go (e ∷ es) l zero h =
        let spent : leb l.max l.retries ≡ true = ground arith in
        rw spent (ap (λ rs. false ∷ rs) (go es l zero h))
    go (e ∷ es) l (suc k) h =
        let open_still : leb l.max l.retries ≡ false = ground arith in
        rw open_still (
          ap (λ rs. is_retryable e ∷ rs)
            (go es (record l { retries = l.retries + 1 }) k (ground (arith, h))))
