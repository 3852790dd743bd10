-- ===== src/Netutil/Retry/Backoff.antt =====
-- How long the retry transport waits.
use reglet_hostlib.Base.{ℕ, ◌^◌, ◌≡◌, refl, ◌⊎◌, inl, inr, none, some, arith, Bool-cases}
use reglet_hostlib.Base.Int.{pos, ◌≤ℤ◌, ltb_ℤ, atoi}
use reglet_hostlib.Netutil.Retry.{
  Duration, RetryAfter, no_header, header, at_most, of_date, of_header, times, calculate_backoff,
  second,
}

at_most_le : (bound d : Duration) → at_most bound d ≤ℤ bound
at_most_le bound d = ground arith

of_date_le :
    (initial bound exponential : Duration) (date : _)
    → exponential ≤ℤ bound
    → (of_date initial bound exponential date ≤ℤ bound)
      ⊎ (of_date initial bound exponential date ≡ initial)
of_date_le initial bound exponential none h = inl h
of_date_le initial bound exponential (some d) h = elim (Bool-cases (ltb_ℤ d (pos 0))) [
  | inl e ↦ inr (rw e refl)
  | inr e ↦ inl (rw e (at_most_le bound d))
]

of_header_le :
    (initial bound exponential : Duration) (after : RetryAfter)
    → exponential ≤ℤ bound
    → (of_header initial bound exponential after ≤ℤ bound)
      ⊎ (of_header initial bound exponential after ≡ initial)
of_header_le initial bound exponential no_header h = inl h
of_header_le initial bound exponential (header text date) h = elim (Bool-cases (atoi text).1) [
  | inl e ↦ inl (rw e (at_most_le bound (times (atoi text).0 second)))
  | inr e ↦ rw e (of_date_le initial bound exponential date h)
]

-- Whatever the attempt, the header and the overflow of the products, a wait is at most the bound,
-- or it is the initial one.
pub calculate_backoff_le :
    (attempt : ℕ) (initial bound : Duration) (after : RetryAfter)
    → (calculate_backoff attempt initial bound after ≤ℤ bound)
      ⊎ (calculate_backoff attempt initial bound after ≡ initial)
unfolding calculate_backoff
calculate_backoff_le attempt initial bound after =
    of_header_le initial bound (at_most bound (times initial (2 ^ attempt))) after
      (at_most_le bound (times initial (2 ^ attempt)))
