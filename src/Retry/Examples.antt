-- ===== src/Retry/Examples.antt =====
-- Tests of kahyad/internal/anthproxy/retry.go on concrete answers, and the theorems at them.
use kahya.Base.{
  ℕ, suc, true, false, ◌≡◌, refl, ◌<◌, ◌≤◌, none, some, [], ◌∷◌, eqb, arith, if◌then◌else◌, length,
  All,
}
use kahya.Retry.Taxonomy.{HeaderText, max_retry_after, classify, parse_retry_after}
use kahya.Retry.RoundTrip.{Answer, RetryTransport, attempts, round_trip}
use kahya.Retry.RoundTrip.Attempts.{passes, round_trip-attempts}
use kahya.Retry.RoundTrip.Sleeps.{round_trip-sleeps_le}

abbrev text : HeaderText
text = record { trim_space = λ s. s; seconds = λ s. some 120; until = λ s. none }

abbrev answer : ℕ → Answer
answer status = record {
  response = some (record { status = status; retry_after = "120" });
  error = none;
}

-- overloaded once, then fine
abbrev transport : RetryTransport
transport = record {
  base = λ n. if eqb n 1 then answer 529 else answer 200;
  replays = λ n. true;
  max_inline = 0;
  backoff = λ n. 5;
  text = text;
  other_reason = λ n. "http";
}

second_try : (round_trip transport).retry_attempts ≡ 2
unfolding round_trip attempts classify
second_try = refl

a_minute : (round_trip transport).sleeps ≡ max_retry_after ∷ []
unfolding round_trip attempts classify parse_retry_after
a_minute = refl

round_trip-attempts_example :
    let trip = round_trip transport in
    (suc (length trip.sleeps) ≡ trip.retry_attempts)
    × (trip.retry_attempts ≤ 3)
    × ((k : ℕ) → 0 < k → k < trip.retry_attempts → passes (transport.base k) ≡ true)
    × (trip.exhausted ≡ true
        → (trip.retry_attempts ≡ 3) × ((k : ℕ) → 0 < k → k ≤ 3 → passes (transport.base k) ≡ true))
    × (trip.exhausted ≡ false → passes (transport.base trip.retry_attempts) ≡ false)
round_trip-attempts_example = round_trip-attempts transport (λ n. refl)

round_trip-sleeps_le_example : All (λ s. s ≤ max_retry_after) (round_trip transport).sleeps
round_trip-sleeps_le_example =
    round_trip-sleeps_le transport max_retry_after (omega arith) (λ n. omega arith)
