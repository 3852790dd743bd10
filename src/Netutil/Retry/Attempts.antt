-- ===== src/Netutil/Retry/Attempts.antt =====
-- How often the retry transport tries, and what it answers.
use reglet_hostlib.Base.{
  ℕ, zero, suc, ◌+◌, ◌*◌, ◌≤◌, ◌<◌, ◌≡◌, refl, ap, ◌∙◌, ◌⊎◌, inl, inr, Bool, true, false, ◌&&◌, not,
  Option, none, some, List, [], ◌∷◌, ◌++◌, arith, length, length-append, Bool-cases,
}
use reglet_hostlib.Base.Text.{Str}
use reglet_hostlib.Base.Int.{pos, negsuc}
use reglet_hostlib.Netutil.Retry.{
  Duration, RetryAfter, Outcome, body_failed, transport_failed, response, RetryTransport, second,
  or_default, is_retryable_status, is_client_error, Wait, Answer, responds, fails, nothing,
  last_answer, waits, round, loop, round_trip,
}

-- Whether an outcome is retried, while there are retries left: an error that is no SSRF block, and
-- the retryable statuses.
abbrev pub is_retried : Outcome → Bool
is_retried (body_failed e) = false
is_retried (transport_failed ssrf e) = not ssrf
is_retried (response status after) = is_retryable_status status && not (is_client_error status)

-- What is answered if an outcome is the last.
abbrev pub answer_of : Outcome → Answer
answer_of (body_failed e) = fails e
answer_of (transport_failed ssrf e) = fails e
answer_of (response status after) = responds status after

-- The run of up to `left` + 1 attempts from one on: the attempt that ends it, before which all were
-- retried, and which is the last one or is not retried; the answer is its outcome, and there was one
-- wait for each attempt before it.
pub record Run (base : ℕ → Outcome) (attempt left waited : ℕ) (r : Answer × List Wait)
    : Type 0 where
  pub stop : ℕ
  pub in_bounds : stop ≤ left
  pub retried : (j : ℕ) → j < stop → is_retried (base (attempt + j)) ≡ true
  pub ended : (stop ≡ left) ⊎ (is_retried (base (attempt + stop)) ≡ false)
  pub answered : r.0 ≡ answer_of (base (attempt + stop))
  pub waited_each : length r.1 ≡ waited + stop

earlier :
    (base : ℕ → Outcome) (attempt stop : ℕ)
    → is_retried (base attempt) ≡ true
    → ((j : ℕ) → j < stop → is_retried (base (suc attempt + j)) ≡ true)
    → (j : ℕ) → j < suc stop
    → is_retried (base (attempt + j)) ≡ true
earlier base attempt stop first rest zero h =
    let here : attempt + 0 ≡ attempt = omega arith in rw here first
earlier base attempt stop first rest (suc j) h =
    let shift : attempt + suc j ≡ suc attempt + j = omega arith in rw shift (rest j (omega arith))

module _ (initial bound : Duration) (base : ℕ → Outcome) where
  abbrev Next : Type 0
  Next = Option (ℕ × RetryAfter) → Option Str → List Wait → Answer × List Wait

  round_settled :
      (attempt left : ℕ) (last : Option (ℕ × RetryAfter)) (ws : List Wait) (next : Next)
      (o : Outcome)
      → is_retried o ≡ false
      → round initial bound base attempt left last ws next o ≡ (answer_of o, ws)
  round_settled attempt left last ws next (body_failed e) h = refl
  round_settled attempt left last ws next (transport_failed true e) h = refl
  round_settled attempt left last ws next (transport_failed false e) h = cc h
  round_settled attempt left last ws next (response status after) h = ground arith

  round_last :
      (attempt : ℕ) (last : Option (ℕ × RetryAfter)) (ws : List Wait) (next : Next) (o : Outcome)
      → ((l : Option (ℕ × RetryAfter)) (e : Option Str) → next l e ws ≡ (last_answer l e, ws))
      → is_retried o ≡ true
      → round initial bound base attempt 0 last ws next o ≡ (answer_of o, ws)
  round_last attempt last ws next (body_failed e) ends h = cc
  round_last attempt last ws next (transport_failed true e) ends h = cc
  round_last attempt last ws next (transport_failed false e) ends h = refl
  round_last attempt last ws next (response status after) ends h =
      ground (arith, ends (some (status, after)) none)

  round_more :
      (attempt left : ℕ) (last : Option (ℕ × RetryAfter)) (ws : List Wait) (next : Next)
      (o : Outcome)
      → is_retried o ≡ true
      → (l : Option (ℕ × RetryAfter)) × (e : Option Str) × (w : Wait) × (round initial bound base
            attempt
            (suc left)
            last
            ws
            next
            o
          ≡ next l e (ws ++ w ∷ []))
  round_more attempt left last ws next (body_failed e) h = absurd (cc h)
  round_more attempt left last ws next (transport_failed true e) h = absurd (cc h)
  round_more attempt left last ws next (transport_failed false e) h = (last, some e, _, refl)
  round_more attempt left last ws next (response status after) h =
      (some (status, after), none, waits initial bound base attempt status after, ground arith)

  loop-suc :
      (left attempt : ℕ) (last : Option (ℕ × RetryAfter)) (e : Option Str) (ws : List Wait)
      → loop initial bound base (suc left) attempt last e ws
        ≡ round initial bound base attempt left last ws
            (λ l e' ws'. loop initial bound base left (suc attempt) l e' ws')
            (base attempt)
  unfolding loop
  loop-suc left attempt last e ws = refl

  loop-zero :
      (attempt : ℕ) (ws : List Wait) (last : Option (ℕ × RetryAfter)) (e : Option Str)
      → loop initial bound base zero attempt last e ws ≡ (last_answer last e, ws)
  unfolding loop
  loop-zero attempt ws last e = refl

  ends_here :
      (left attempt : ℕ) (ws : List Wait) (r : Answer × List Wait)
      → r ≡ (answer_of (base attempt), ws)
      → (0 ≡ left) ⊎ (is_retried (base attempt) ≡ false)
      → Run base attempt left (length ws) r
  ends_here left attempt ws r same ended =
      let here : attempt + 0 ≡ attempt = omega arith in
      record {
        stop = 0;
        in_bounds = omega arith;
        retried = λ j h. absurd (omega arith);
        ended = rw here ended;
        answered = rw here (ap (λ x. x.0) same);
        waited_each = omega (arith, ap (λ x. length x.1) same);
      }

  -- A run of the rest of the attempts is one of them all, behind an attempt that was retried.
  goes_on :
      (left attempt : ℕ) (ws : List Wait) (w : Wait) (r r' : Answer × List Wait)
      → is_retried (base attempt) ≡ true
      → r ≡ r'
      → Run base (suc attempt) left (length (ws ++ w ∷ [])) r'
      → Run base attempt (suc left) (length ws) r
  goes_on left attempt ws w r r' retried same run =
      let shift : (j : ℕ) → attempt + suc j ≡ suc attempt + j = λ j. omega arith in
      record {
        stop = suc run.stop;
        in_bounds = omega (arith, run.in_bounds);
        retried = earlier base attempt run.stop retried run.retried;
        ended = rw (shift run.stop) (elim run.ended [ inl e ↦ inl (ap suc e) | inr e ↦ inr e ]);
        answered = rw (shift run.stop) (ap (λ x. x.0) same ∙ run.answered);
        waited_each =
            omega (arith, ap (λ x. length x.1) same, run.waited_each, length-append ws (w ∷ []));
      }

  loop-Run :
      (left attempt : ℕ) (last : Option (ℕ × RetryAfter)) (e : Option Str) (ws : List Wait)
      → Run base attempt left (length ws) (loop initial bound base (suc left) attempt last e ws)
  loop-Run zero attempt last e ws = elim (Bool-cases (is_retried (base attempt))) [
    | inr settled ↦
        ends_here zero attempt ws _
          (loop-suc zero attempt last e ws
            ∙ round_settled attempt zero last ws (loop initial bound base zero (suc attempt))
                (base attempt) settled)
          (inr settled)
    | inl again ↦
        ends_here zero attempt ws _
          (loop-suc zero attempt last e ws
            ∙ round_last attempt last ws (loop initial bound base zero (suc attempt)) (base attempt)
                (loop-zero (suc attempt) ws) again)
          (inl refl)
  ]
  loop-Run (suc left) attempt last e ws = elim (Bool-cases (is_retried (base attempt))) [
    | inr settled ↦
        ends_here (suc left) attempt ws _
          (loop-suc (suc left) attempt last e ws
            ∙ round_settled attempt (suc left) last ws
                (loop initial bound base (suc left) (suc attempt)) (base attempt) settled)
          (inr settled)
    | inl again ↦
        let (l, e', w, same) =
          round_more attempt left last ws (loop initial bound base (suc left) (suc attempt))
            (base attempt) again in
        goes_on left attempt ws w _ _ again (loop-suc (suc left) attempt last e ws ∙ same)
          (loop-Run left (suc attempt) l e' (ws ++ w ∷ []))
  ]

-- With a number of retries that is not negative (3 for 0), the retry transport makes one attempt
-- and at most that many retries: it stops at the first outcome that is not retried or at the last
-- attempt, answers that outcome, and has waited once before each retry.
pub round_trip-Run :
    (t : RetryTransport) (base : ℕ → Outcome) (n : ℕ)
    → or_default 3 t.max_retries ≡ pos n
    → Run base 0 n 0 (round_trip t base)
unfolding round_trip
round_trip-Run t base n e = rw e (
    loop-Run (or_default second t.initial_backoff) (or_default (30 * second) t.max_backoff) base n 0
      none none [])

-- With a negative number of retries the retry transport sends nothing, and returns neither a
-- response nor an error.
pub round_trip_negative :
    (t : RetryTransport) (base : ℕ → Outcome) (n : ℕ)
    → t.max_retries ≡ negsuc n
    → round_trip t base ≡ (nothing, [])
unfolding round_trip loop
round_trip_negative t base n e = simp e refl
