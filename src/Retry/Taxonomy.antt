-- ===== src/Retry/Taxonomy.antt =====
-- kahyad/internal/cloudretry/taxonomy.go: which failures may pass, and how long to wait.
use kahya.Base.{ℕ, ◌*◌, ◌%◌, String, Bool, ◌||◌, Option, none, some, eqb, ltb, ◌==◌, if◌then◌else◌}

pub data Class : Type 0 where
  retryable non_retryable : Class

-- what errors.Is and errors.As find in the error of a transport
pub record TransportError : Type 0 where
  pub deadline_exceeded : Bool
  pub dns_error : Bool
  pub connection_refused : Bool
  pub connection_reset : Bool
  pub op_error : Bool
  pub timeout : Bool

abbrev pub retryable_status : ℕ → Bool
retryable_status s =
    eqb s 408 || eqb s 429 || eqb s 500 || eqb s 502 || eqb s 503 || eqb s 504 || eqb s 529

unfoldable pub classify_transport_err : Option TransportError → Class
classify_transport_err none = non_retryable
classify_transport_err (some e) =
    if e.deadline_exceeded || e.dns_error || e.connection_refused || e.connection_reset
      || e.op_error || e.timeout
    then retryable
    else non_retryable

-- status 0 is no response
unfoldable pub classify : ℕ → Option TransportError → Class
classify status e =
    if eqb status 0
    then classify_transport_err e
    else if retryable_status status
    then retryable
    else non_retryable

abbrev pub second : ℕ
second = 1000000000

abbrev pub max_retry_after : ℕ
max_retry_after = 60 * second

abbrev pub cap_retry_after : ℕ → ℕ
cap_retry_after d = if ltb max_retry_after d then max_retry_after else d

-- strings.TrimSpace; strconv.Atoi, a negative number as 0; http.ParseTime less the present time, 0 where
-- it has passed
pub record HeaderText : Type 0 where
  pub trim_space : String → String
  pub seconds : String → Option ℕ
  pub until : String → Option ℕ

-- int64 nanoseconds wrap; a negative duration is 0 here, which the caller takes alike
abbrev pub as_duration : ℕ → ℕ
as_duration n = let m = n % 18446744073709551616 in if ltb m 9223372036854775808 then m else 0

abbrev pub capped : Option ℕ → Option ℕ
capped none = none
capped (some d) = some (cap_retry_after d)

abbrev pub seconds_or_date : HeaderText → String → Option ℕ → Option ℕ
seconds_or_date text header none = capped (text.until header)
seconds_or_date text header (some n) = some (cap_retry_after (as_duration (n * second)))

unfoldable pub parse_retry_after : HeaderText → String → Option ℕ
parse_retry_after text raw =
    let header = text.trim_space raw in
    if header == "" then none else seconds_or_date text header (text.seconds header)

-- `other` is the text of a status that has no reason of its own
unfoldable pub reason_for_status : (ℕ → String) → ℕ → String
reason_for_status other status =
    if eqb status 400
    then "invalid_request_error"
    else if eqb status 401
    then "authentication_error"
    else if eqb status 403
    then "permission_error"
    else if eqb status 404
    then "not_found_error"
    else if eqb status 413
    then "request_too_large"
    else if eqb status 422
    then "unprocessable_entity"
    else other status
