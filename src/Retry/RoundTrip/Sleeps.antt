-- ===== src/Retry/RoundTrip/Sleeps.antt =====
-- How long a model call sleeps between two attempts.
use kahya.Base.{
  ℕ, zero, suc, ◌*◌, ◌≤◌, String, not, ◌&&◌, Option, none, some, ltb, ◌==◌, arith, Bool-cases, inl,
  inr, All,
}
use kahya.Retry.Taxonomy.{
  Class, retryable, non_retryable, HeaderText, parse_retry_after, seconds_or_date, capped,
  as_duration, second, max_retry_after, cap_retry_after,
}
use kahya.Retry.RoundTrip.{
  Response, Answer, RetryTransport, Trip, is_success, delay_or, header_delay, sleep_before_retry,
  slept, on_class, on_answer, attempts, max_attempts, round_trip,
}

abbrev WithinMinute : Option ℕ → Type 0
WithinMinute none = Unit {0}
WithinMinute (some d) = d ≤ max_retry_after

cap-le : (d : ℕ) → cap_retry_after d ≤ max_retry_after
cap-le d = ground arith

capped-WithinMinute : (o : Option ℕ) → WithinMinute (capped o)
capped-WithinMinute none = tt
capped-WithinMinute (some d) = cap-le d

dated-WithinMinute :
    (text : HeaderText) (s : String) (o : Option ℕ) → WithinMinute (seconds_or_date text s o)
dated-WithinMinute text s none = capped-WithinMinute (text.until s)
dated-WithinMinute text s (some n) = cap-le (as_duration (n * second))

parse_retry_after-WithinMinute :
    (text : HeaderText) (raw : String) → WithinMinute (parse_retry_after text raw)
unfolding parse_retry_after
parse_retry_after-WithinMinute text raw = elim (Bool-cases (text.trim_space raw == "")) [
  | inl e ↦ rw e tt
  | inr e ↦
      rw e (dated-WithinMinute text (text.trim_space raw) (text.seconds (text.trim_space raw)))
]

header-WithinMinute : (text : HeaderText) (r : Option Response) → WithinMinute (header_delay text r)
header-WithinMinute text none = tt
header-WithinMinute text (some r) = parse_retry_after-WithinMinute text r.retry_after

delay_or-le :
    (most other : ℕ) (o : Option ℕ)
    → max_retry_after ≤ most
    → other ≤ most
    → WithinMinute o
    → delay_or other o ≤ most
delay_or-le most other none minute own fits = own
delay_or-le most other (some zero) minute own fits = own
delay_or-le most other (some (suc d)) minute own fits = omega (arith, minute, fits)

module _ (t : RetryTransport) (most : ℕ) (minute : max_retry_after ≤ most)
    (own : (n : ℕ) → t.backoff n ≤ most) where
  sleep-le : (n : ℕ) (a : Answer) → sleep_before_retry t n a ≤ most
  sleep-le n a =
      delay_or-le most (t.backoff n) _ minute (own n) (header-WithinMinute t.text a.response)

  slept-le :
      (left d : ℕ) (trip : Trip)
      → d ≤ most
      → All (λ s. s ≤ most) trip.sleeps
      → All (λ s. s ≤ most) (slept left d trip).sleeps
  slept-le zero d trip le rest = rest
  slept-le (suc left) d trip le rest = (le, rest)

  class-le :
      (n left : ℕ) (a : Answer) (rest : Trip) (c : Class)
      → All (λ s. s ≤ most) rest.sleeps
      → All (λ s. s ≤ most) (on_class t n left a rest c).sleeps
  class-le n left a rest retryable fits = slept-le left _ rest (sleep-le n a) fits
  class-le n left a rest non_retryable fits = tt

  answer-le :
      (n left : ℕ) (a : Answer) (rest : Trip)
      → All (λ s. s ≤ most) rest.sleeps
      → All (λ s. s ≤ most) (on_answer t n left a rest).sleeps
  answer-le n left a rest fits = elim (Bool-cases (is_success a)) [
    | inl e ↦ rw e tt
    | inr e ↦ rw e (class-le n left a rest _ fits)
  ]

  attempts-le : (n left : ℕ) → All (λ s. s ≤ most) (attempts t n left).sleeps
  unfolding attempts
  attempts-le n zero = tt
  attempts-le n (suc left) =
      let rest =
        answer-le (suc n) left (t.base (suc n)) (attempts t (suc n) left)
          (attempts-le (suc n) left) in
      elim (Bool-cases (ltb 0 n && not (t.replays (suc n)))) [ inl e ↦ rw e tt | inr e ↦ rw e rest ]

  -- Whatever the upstream answers and its Retry-After says, no sleep between two attempts is longer than
  -- the longer of a minute and the longest delay of the backoff.
  pub round_trip-sleeps_le : All (λ s. s ≤ most) (round_trip t).sleeps
  unfolding round_trip
  round_trip-sleeps_le = attempts-le 0 (max_attempts t)
