-- ===== src/Retry/RoundTrip.antt =====
-- kahyad/internal/anthproxy/retry.go: retryTransport.RoundTrip.
pub mod Attempts
pub mod Sleeps
use kahya.Base.{
  ℕ, zero, suc, ◌+◌, String, Bool, true, false, not, ◌&&◌, Option, none, some, List, [], ◌∷◌, eqb,
  ltb, if◌then◌else◌,
}
use kahya.Retry.Taxonomy.{
  Class, retryable, non_retryable, TransportError, classify, HeaderText, parse_retry_after,
  reason_for_status,
}

pub record Response : Type 0 where
  pub status : ℕ
  pub retry_after : String

pub record Answer : Type 0 where
  pub response : Option Response
  pub error : Option TransportError

-- the transport below at each attempt, whether the body can be read again for it, and Backoff.Delay
pub record RetryTransport : Type 0 where
  pub base : ℕ → Answer
  pub replays : ℕ → Bool
  pub max_inline : ℕ
  pub backoff : ℕ → ℕ
  pub text : HeaderText
  pub other_reason : ℕ → String

pub data Outcome : Type 0 where
  returned : Option Response → Outcome
  failed_for_good retries_exhausted body_failed : Outcome

-- what RoundTrip returns, what it leaves in the request's data, and how long it slept
pub record Trip : Type 0 where
  pub outcome : Outcome
  pub retry_attempts : ℕ
  pub exhausted : Bool
  pub non_retryable_reason : Option String
  pub sleeps : List ℕ

abbrev pub default_max_inline_retries : ℕ
default_max_inline_retries = 3

abbrev pub status_of : Answer → ℕ
status_of a = elim a.response [ none ↦ 0 | some r ↦ r.status ]

abbrev pub has_error : Option TransportError → Bool
has_error none = false
has_error (some e) = true

abbrev pub is_success : Answer → Bool
is_success a = not (has_error a.error) && ltb (status_of a) 400

abbrev pub delay_or : ℕ → Option ℕ → ℕ
delay_or other none = other
delay_or other (some zero) = other
delay_or other (some (suc d)) = suc d

abbrev pub header_delay : HeaderText → Option Response → Option ℕ
header_delay text none = none
header_delay text (some r) = parse_retry_after text r.retry_after

abbrev pub sleep_before_retry : RetryTransport → ℕ → Answer → ℕ
sleep_before_retry t attempt a = delay_or (t.backoff attempt) (header_delay t.text a.response)

abbrev pub good : ℕ → Answer → Trip
good attempt a = record {
  outcome = returned a.response;
  retry_attempts = attempt;
  exhausted = false;
  non_retryable_reason = none;
  sleeps = [];
}

abbrev pub give_up : RetryTransport → ℕ → Answer → Trip
give_up t attempt a = record {
  outcome = if has_error a.error then failed_for_good else returned a.response;
  retry_attempts = attempt;
  exhausted = false;
  non_retryable_reason = some (
      if eqb (status_of a) 0
      then "transport_error"
      else reason_for_status t.other_reason (status_of a));
  sleeps = [];
}

abbrev pub no_body : ℕ → Trip
no_body attempts = record {
  outcome = body_failed;
  retry_attempts = attempts;
  exhausted = false;
  non_retryable_reason = none;
  sleeps = [];
}

abbrev pub used_up : ℕ → Trip
used_up attempts = record {
  outcome = retries_exhausted;
  retry_attempts = attempts;
  exhausted = true;
  non_retryable_reason = none;
  sleeps = [];
}

-- the sleep after an attempt that is not the last
abbrev pub slept : ℕ → ℕ → Trip → Trip
slept zero d trip = trip
slept (suc left) d trip = record trip { sleeps = d ∷ trip.sleeps }

abbrev pub on_class : RetryTransport → ℕ → ℕ → Answer → Trip → Class → Trip
on_class t n left a rest retryable = slept left (sleep_before_retry t n a) rest
on_class t n left a rest non_retryable = give_up t n a

abbrev pub on_answer : RetryTransport → ℕ → ℕ → Answer → Trip → Trip
on_answer t n left a rest =
    if is_success a then good n a else on_class t n left a rest (classify (status_of a) a.error)

-- the attempt after `n` others, with `left` of them left
unfoldable pub attempts : RetryTransport → ℕ → ℕ → Trip
attempts t n zero = used_up n
attempts t n (suc left) =
    let rest = attempts t (suc n) left in
    if ltb 0 n && not (t.replays (suc n))
    then no_body n
    else on_answer t (suc n) left (t.base (suc n)) rest

abbrev pub max_attempts : RetryTransport → ℕ
max_attempts t = if eqb t.max_inline 0 then default_max_inline_retries else t.max_inline

unfoldable pub round_trip : RetryTransport → Trip
round_trip t = attempts t 0 (max_attempts t)
