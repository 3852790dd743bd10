-- ===== src/Netutil/Retry.antt =====
-- netutil/retry.go: the transport that retries. The transport below is a function of the attempt,
-- with what req.GetBody gives at it; a wait is one call of OnRetry, and of time.Sleep where the
-- hook is not set. Durations are 64-bit integers of nanoseconds.
pub mod Attempts
pub mod Backoff
pub mod Examples
use reglet_hostlib.Base.{
  ℕ, zero, suc, ◌-◌, ◌*◌, ◌%◌, ◌^◌, Bool, true, false, ◌&&◌, ◌||◌, not, Option, none, some, List,
  [], ◌∷◌, ◌++◌, ltb, leb, ◌==◌, if◌then◌else◌,
}
use reglet_hostlib.Base.Text.{Str}
use reglet_hostlib.Base.Int.{ℤ, pos, negsuc, int_mod, to_signed, ltb_ℤ, atoi}

abbrev pub Duration : Type 0
Duration = ℤ

-- The Retry-After header: absent or "", or its text with the time until the date that it reads as.
pub data RetryAfter : Type 0 where
  no_header : RetryAfter
  header : Str → Option Duration → RetryAfter

-- What an attempt comes to: no body, an error of the transport, which may be an SSRF block, or a
-- response.
pub data Outcome : Type 0 where
  body_failed : Str → Outcome
  transport_failed : Bool → Str → Outcome
  response : ℕ → RetryAfter → Outcome

pub record RetryTransport : Type 0 where
  pub max_retries : ℤ
  pub initial_backoff : Duration
  pub max_backoff : Duration

abbrev pub second : ℕ
second = 10 ^ 9

abbrev pub or_default : ℕ → ℤ → ℤ
or_default d (pos zero) = pos d
or_default d (pos (suc n)) = pos (suc n)
or_default d (negsuc n) = negsuc n

-- attempt <= maxRetries, counted down: the number of rounds of the loop
abbrev pub rounds : ℤ → ℕ
rounds (pos n) = suc n
rounds (negsuc n) = 0

-- The 64 bits of an integer, and a product with a number below 2^64.
abbrev pub bits : ℤ → ℕ
bits (pos n) = n % int_mod
bits (negsuc n) = int_mod - 1 - n % int_mod

abbrev pub times : ℤ → ℕ → ℤ
times a n = to_signed ((bits a * n) % int_mod)

abbrev pub at_most : Duration → Duration → Duration
at_most bound d = if ltb_ℤ bound d then bound else d

abbrev pub of_date : Duration → Duration → Duration → Option Duration → Duration
of_date initial bound exponential none = exponential
of_date initial bound exponential (some d) = if ltb_ℤ d (pos 0) then initial else at_most bound d

abbrev pub of_header : Duration → Duration → Duration → RetryAfter → Duration
of_header initial bound exponential no_header = exponential
of_header initial bound exponential (header text date) =
    if (atoi text).1
    then at_most bound (times (atoi text).0 second)
    else of_date initial bound exponential date

-- calculateBackoff, by the attempt, the two bounds and the header of the response
unfoldable pub calculate_backoff : ℕ → Duration → Duration → RetryAfter → Duration
calculate_backoff attempt initial bound after =
    of_header initial bound (at_most bound (times initial (2 ^ attempt))) after

-- isRetryableStatus
unfoldable pub is_retryable_status : ℕ → Bool
is_retryable_status s = s == 429 || (s == 502 || (s == 503 || s == 504))

-- A call of OnRetry: the attempt from 1, the wait, and the status.
pub record Wait : Type 0 where
  pub attempt : ℕ
  pub duration : Duration
  pub status : ℕ

pub data Answer : Type 0 where
  responds : ℕ → RetryAfter → Answer
  fails : Str → Answer
  nothing : Answer

-- lastResp and lastErr, after the loop
abbrev pub last_answer : Option (ℕ × RetryAfter) → Option Str → Answer
last_answer (some (status, after)) e = responds status after
last_answer none (some e) = fails e
last_answer none none = nothing

-- The retries that are left after this attempt.
abbrev pub has_more : ℕ → Bool
has_more zero = false
has_more (suc left) = true

-- A response of 4xx but 429 is not retried.
abbrev pub is_client_error : ℕ → Bool
is_client_error s = leb 400 s && ltb s 500 && not (s == 429)

module _ (initial bound : Duration) (base : ℕ → Outcome) where
  abbrev pub waits : ℕ → ℕ → RetryAfter → Wait
  waits attempt status after = record {
    attempt = suc attempt;
    duration = calculate_backoff attempt initial bound after;
    status = status;
  }

  -- A round of the loop, by its outcome, how many rounds are left after it, and `next`, the rounds
  -- after it from their waits on, for lastResp and lastErr.
  abbrev pub round :
      ℕ
      → ℕ
      → Option (ℕ × RetryAfter)
      → List Wait
      → (Option (ℕ × RetryAfter) → Option Str → List Wait → Answer × List Wait)
      → Outcome
      → Answer × List Wait
  round attempt left last ws next (body_failed e) = (fails e, ws)
  round attempt left last ws next (transport_failed true e) = (fails e, ws)
  round attempt left last ws next (transport_failed false e) =
      if has_more left
      then next last (some e) (ws ++ waits attempt 0 no_header ∷ [])
      else (fails e, ws)
  round attempt left last ws next (response status after) =
      if not (is_retryable_status status) || is_client_error status
      then (responds status after, ws)
      else if has_more left
      then next (some (status, after)) none (ws ++ waits attempt status after ∷ [])
      else next (some (status, after)) none ws

  unfoldable pub loop :
      ℕ → ℕ → Option (ℕ × RetryAfter) → Option Str → List Wait → Answer × List Wait
  loop zero attempt last e ws = (last_answer last e, ws)
  loop (suc left) attempt last e ws =
      round attempt left last ws (λ last' e' ws'. loop left (suc attempt) last' e' ws')
        (base attempt)

-- RoundTrip: the answer, and the waits
unfoldable pub round_trip : RetryTransport → (ℕ → Outcome) → Answer × List Wait
round_trip t base =
    loop (or_default second t.initial_backoff) (or_default (30 * second) t.max_backoff) base
      (rounds (or_default 3 t.max_retries)) 0 none none []
