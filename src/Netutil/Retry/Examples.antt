-- ===== src/Netutil/Retry/Examples.antt =====
-- Tests of the retry transport, and its theorems at concrete inputs.
use reglet_hostlib.Base.{ℕ, zero, suc, ◌≡◌, refl, ◌⊎◌, false, none, [], ◌∷◌}
use reglet_hostlib.Base.Text.{codes}
use reglet_hostlib.Base.Int.{pos, ◌≤ℤ◌, atoi}
use reglet_hostlib.Netutil.Retry.{
  Outcome, transport_failed, response, no_header, header, RetryTransport, round_trip, responds,
  loop, calculate_backoff, is_retryable_status,
}
use reglet_hostlib.Netutil.Retry.Attempts.{Run, round_trip-Run}
use reglet_hostlib.Netutil.Retry.Backoff.{calculate_backoff_le}

-- An error, then 503 with a header, then 200.
abbrev base : ℕ → Outcome
base zero = transport_failed false (codes "reset")
base (suc zero) = response 503 (header (codes "2") none)
base (suc (suc n)) = response 200 no_header

abbrev transport : RetryTransport
transport = record { max_retries = pos 0; initial_backoff = pos 100; max_backoff = pos 0 }

retried : round_trip transport base ≡ (
  responds 200 no_header,
  record { attempt = 1; duration = pos 100; status = 0 }
      ∷ record { attempt = 2; duration = pos 2000000000; status = 503 }
      ∷ [],
)
unfolding round_trip loop calculate_backoff is_retryable_status atoi
retried = refl

round_trip-Run_example : Run base 0 3 0 (round_trip transport base)
round_trip-Run_example = round_trip-Run transport base 3 refl

calculate_backoff_le_example :
    (calculate_backoff 40 (pos 1000000000) (pos 30000000000) no_header ≤ℤ pos 30000000000)
    ⊎ (calculate_backoff 40 (pos 1000000000) (pos 30000000000) no_header ≡ pos 1000000000)
calculate_backoff_le_example = calculate_backoff_le 40 (pos 1000000000) (pos 30000000000) no_header
