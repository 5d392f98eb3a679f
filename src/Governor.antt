-- ===== src/Governor.antt =====
-- kahyad/internal/anthproxy/governor.go: what the model calls of a task and of a day may cost. A call
-- reserves its estimate before it is sent and gives it back with the real usage. Dollars are float64, whose
-- operations are a parameter, as are the prices. Tokens are int64 and wrap around. A map is the function that reads it.
pub mod Ceiling
pub mod Alarms
mod Examples
use kahya.Base.{
  ℕ, zero, suc, ◌+◌, ◌-◌, ◌/◌, ◌%◌, String, Bool, true, false, not, ◌&&◌, ◌||◌, Option, none, some,
  List, [], ◌∷◌, ◌++◌, ltb, leb, eqb, ◌==◌, if◌then◌else◌,
}

pub data Ratio : Type 0 where
  downgrade_at spend_80 spend_100 : Ratio

-- `exceeds a b` is a > b; `reaches usd budget ratio` is usd >= budget * ratio
pub record Money : Type 1 where
  pub Usd : Type 0
  pub zero_usd : Usd
  pub plus : Usd → Usd → Usd
  pub minus : Usd → Usd → Usd
  pub exceeds : Usd → Usd → Bool
  pub reaches : Usd → Usd → Ratio → Bool
  -- cacheReadTokens / denom < CacheHitAlarmThreshold
  pub cache_hit_low : ℕ → ℕ → Bool
  -- the estimate of a call by its input and output tokens, and of one that does not parse
  pub request_usd : String → ℕ → ℕ → Usd
  pub fallback_usd : String → ℕ → Usd

pub data GovernorEvent : Type 0 where
  model_call cache_buster_suspect : String → GovernorEvent
  budget_downgrade_on spend_alarm_80 spend_alarm_100 cache_hit_alarm : String → GovernorEvent

abbrev pub default_est_request_tokens : ℕ
default_est_request_tokens = 50000

-- An int64 is the number below 2 ^ 64 that has its bits: those from 2 ^ 63 are the negative ones.
unfoldable pub add64 : ℕ → ℕ → ℕ
add64 a b = (a + b) % 18446744073709551616

unfoldable pub sub64 : ℕ → ℕ → ℕ
sub64 a b = (a + (18446744073709551616 - b)) % 18446744073709551616

abbrev pub is_negative : ℕ → Bool
is_negative n = leb 9223372036854775808 n

-- a > b
unfoldable pub exceeds64 : ℕ → ℕ → Bool
exceeds64 a b = if is_negative a then is_negative b && ltb b a else is_negative b || ltb b a

-- n, or d where n <= 0
unfoldable pub positive_or : ℕ → ℕ → ℕ
positive_or n d = if ltb 0 n && not (is_negative n) then n else d

abbrev pub put : {A : Type 0} → String → A → (String → A) → String → A
put k a f k' = if k' == k then a else f k'

pub record Usage : Type 0 where
  pub input_tokens : ℕ
  pub output_tokens : ℕ
  pub cache_read_input_tokens : ℕ
  pub cache_creation_input_tokens : ℕ

abbrev pub counted_tokens : Usage → ℕ
counted_tokens u = add64 (add64 u.input_tokens u.output_tokens) u.cache_creation_input_tokens

pub data Verdict : Type 0 where
  allowed : ℕ → Verdict
  task_ceiling daily_budget_block monthly_budget_block : Verdict

abbrev pub event_if : Bool → GovernorEvent → List GovernorEvent
event_if true e = e ∷ []
event_if false e = []

module _ (m : Money) where
  pub record Limits : Type 0 where
    pub daily_budget : m.Usd
    pub monthly_budget : m.Usd
    pub task_token_ceiling : ℕ
    pub est_request_tokens : ℕ

  pub record DailyAgg : Type 0 where
    pub usd : m.Usd
    pub calls : ℕ
    pub input_tokens : ℕ
    pub cache_read_tokens : ℕ
    pub downgrade_logged : Bool
    pub alarm_80_logged : Bool
    pub alarm_100_logged : Bool
    pub cache_alarm_logged : Bool
    pub last_system_hash : String
    pub system_hash_changes : ℕ

  pub record Reservation : Type 0 where
    pub id : ℕ
    pub task_id : String
    pub tokens : ℕ
    pub usd : m.Usd
    pub day : String
    pub month : String

  pub record Governor : Type 0 where
    pub limits : Limits
    pub per_task : String → ℕ
    pub daily : String → Option DailyAgg
    pub monthly : String → m.Usd
    pub next_reservation_id : ℕ
    pub reservations : List Reservation
    pub per_task_reserved_tok : String → ℕ
    pub daily_reserved : String → m.Usd
    pub monthly_reserved : String → m.Usd

  unfoldable pub empty_agg : DailyAgg
  empty_agg = record {
    usd = m.zero_usd;
    calls = 0;
    input_tokens = 0;
    cache_read_tokens = 0;
    downgrade_logged = false;
    alarm_80_logged = false;
    alarm_100_logged = false;
    cache_alarm_logged = false;
    last_system_hash = "";
    system_hash_changes = 0;
  }

  -- dayAggLocked
  abbrev pub agg_or_empty : Option DailyAgg → DailyAgg
  agg_or_empty none = empty_agg
  agg_or_empty (some a) = a

  unfoldable pub new_governor : Limits → Governor
  new_governor limits = record {
    limits = limits;
    per_task = λ t. 0;
    daily = λ day. none;
    monthly = λ month. m.zero_usd;
    next_reservation_id = 0;
    reservations = [];
    per_task_reserved_tok = λ t. 0;
    daily_reserved = λ day. m.zero_usd;
    monthly_reserved = λ month. m.zero_usd;
  }

  -- `probe` is the max_tokens of a body that parses, `size` the body's length in bytes
  unfoldable pub estimate_request : Governor → String → Option ℕ → ℕ → ℕ × m.Usd
  estimate_request g model none size =
      let tokens = positive_or g.limits.est_request_tokens default_est_request_tokens in
      (tokens, m.fallback_usd model tokens)
  estimate_request g model (some max_tokens) size =
      let fallback = positive_or g.limits.est_request_tokens default_est_request_tokens in
      let out = positive_or max_tokens fallback in
      let inp = positive_or (size / 3) 1 in (add64 inp out, m.request_usd model inp out)

  unfoldable pub reserve : Governor → String → ℕ → m.Usd → String → String → Governor
  reserve g task tokens usd day month =
      let id = suc g.next_reservation_id in
      record g {
        next_reservation_id = id;
        reservations =
            record { id = id; task_id = task; tokens = tokens; usd = usd; day = day; month = month }
            ∷ g.reservations;
        per_task_reserved_tok =
            put task (add64 (g.per_task_reserved_tok task) tokens) g.per_task_reserved_tok;
        daily_reserved = put day (m.plus (g.daily_reserved day) usd) g.daily_reserved;
        monthly_reserved = put month (m.plus (g.monthly_reserved month) usd) g.monthly_reserved;
      }

  -- a limit that is not positive is none
  abbrev pub over_ceiling : Governor → String → ℕ → Bool
  over_ceiling g task tokens =
      exceeds64 g.limits.task_token_ceiling 0
      && exceeds64 (add64 (add64 (g.per_task task) (g.per_task_reserved_tok task)) tokens)
          g.limits.task_token_ceiling

  abbrev pub over_daily : Governor → m.Usd → String → Bool
  over_daily g usd today =
      m.exceeds g.limits.daily_budget m.zero_usd
      && m.exceeds (m.plus (m.plus (agg_or_empty (g.daily today)).usd (g.daily_reserved today)) usd)
          g.limits.daily_budget

  abbrev pub over_monthly : Governor → m.Usd → String → Bool
  over_monthly g usd month =
      m.exceeds g.limits.monthly_budget m.zero_usd
      && m.exceeds (m.plus (m.plus (g.monthly month) (g.monthly_reserved month)) usd)
          g.limits.monthly_budget

  unfoldable pub check_estimate :
      Governor → String → ℕ × m.Usd → String → String → Verdict × Governor
  check_estimate g task (tokens, usd) today month =
      if over_ceiling g task tokens
      then (task_ceiling, g)
      else if over_daily g usd today
      then (daily_budget_block, g)
      else if over_monthly g usd month
      then (monthly_budget_block, g)
      else (allowed (suc g.next_reservation_id), reserve g task tokens usd today month)

  unfoldable pub check_before_forward :
      Governor → String → String → Option ℕ → ℕ → String → String → Verdict × Governor
  check_before_forward g task model probe size today month =
      check_estimate g task (estimate_request g model probe size) today month

  unfoldable pub find_reservation : ℕ → List Reservation → Option Reservation
  find_reservation id [] = none
  find_reservation id (r ∷ rows) = if eqb r.id id then some r else find_reservation id rows

  unfoldable pub delete_reservation : ℕ → List Reservation → List Reservation
  delete_reservation id [] = []
  delete_reservation id (r ∷ rows) = if eqb r.id id then rows else r ∷ delete_reservation id rows

  unfoldable pub release_found : Governor → ℕ → Option Reservation → Governor
  release_found g id none = g
  release_found g id (some r) = record g {
    reservations = delete_reservation id g.reservations;
    per_task_reserved_tok =
        put r.task_id (sub64 (g.per_task_reserved_tok r.task_id) r.tokens) g.per_task_reserved_tok;
    daily_reserved = put r.day (m.minus (g.daily_reserved r.day) r.usd) g.daily_reserved;
    monthly_reserved = put r.month (m.minus (g.monthly_reserved r.month) r.usd) g.monthly_reserved;
  }

  unfoldable pub release : Governor → ℕ → Governor
  release g zero = g
  release g (suc n) = release_found g (suc n) (find_reservation (suc n) g.reservations)

  abbrev pub counted : DailyAgg → Usage → m.Usd → DailyAgg
  counted a u usd = record a {
    usd = m.plus a.usd usd;
    calls = suc a.calls;
    input_tokens = add64 a.input_tokens u.input_tokens;
    cache_read_tokens = add64 a.cache_read_tokens u.cache_read_input_tokens;
  }

  -- recordLocked; a call without a task counts for none
  unfoldable pub record_call : Governor → String → Usage → m.Usd → String → String → Governor
  record_call g task u usd day month =
      let per_task' : String → ℕ =
        if task == ""
        then g.per_task
        else put task (add64 (g.per_task task) (counted_tokens u)) g.per_task in
      record g {
        per_task = per_task';
        daily = put day (some (counted (agg_or_empty (g.daily day)) u usd)) g.daily;
        monthly = put month (m.plus (g.monthly month) usd) g.monthly;
      }

  abbrev pub hash_changed : DailyAgg → String → Bool
  hash_changed a hash = not (a.last_system_hash == "") && not (a.last_system_hash == hash)

  -- the aggregate with the system hash, and whether it changed more than twice a day
  unfoldable pub note_hash : DailyAgg → String → DailyAgg × Bool
  note_hash a hash =
      if hash == ""
      then (a, false)
      else if hash_changed a hash
      then (
        record a { system_hash_changes = suc a.system_hash_changes; last_system_hash = hash },
        ltb 2 (suc a.system_hash_changes),
      )
      else (record a { last_system_hash = hash }, false)

  abbrev pub reaches_budget : Governor → DailyAgg → Ratio → Bool
  reaches_budget g a ratio =
      m.exceeds g.limits.daily_budget m.zero_usd && m.reaches a.usd g.limits.daily_budget ratio

  abbrev pub cache_alarm : DailyAgg → Bool
  cache_alarm a =
      leb 20 a.calls
      && not a.cache_alarm_logged
      && m.cache_hit_low a.cache_read_tokens
          (positive_or (add64 a.input_tokens a.cache_read_tokens) 1)

  -- each alarm of a day is raised once
  unfoldable pub raise_alarms : Governor → String → DailyAgg → DailyAgg × List GovernorEvent
  raise_alarms g day a =
      let downgrade = reaches_budget g a downgrade_at && not a.downgrade_logged in
      let alarm_80 = reaches_budget g a spend_80 && not a.alarm_80_logged in
      let alarm_100 = reaches_budget g a spend_100 && not a.alarm_100_logged in
      let cache = cache_alarm a in
      (
        record a {
          downgrade_logged = a.downgrade_logged || downgrade;
          alarm_80_logged = a.alarm_80_logged || alarm_80;
          alarm_100_logged = a.alarm_100_logged || alarm_100;
          cache_alarm_logged = a.cache_alarm_logged || cache;
        },
        event_if downgrade (budget_downgrade_on day)
            ++ event_if alarm_80 (spend_alarm_80 day)
            ++ event_if alarm_100 (spend_alarm_100 day)
            ++ event_if cache (cache_hit_alarm day),
      )

  -- RecordUsage; its events are in the order of the ledger
  unfoldable pub record_usage :
      Governor
      → ℕ
      → String
      → Usage
      → m.Usd
      → String
      → String
      → String
      → Governor × List GovernorEvent
  record_usage g reservation task u usd hash day month =
      let g' = record_call (release g reservation) task u usd day month in
      let (a, suspect) = note_hash (agg_or_empty (g'.daily day)) hash in
      let (a', events) = raise_alarms g' day a in
      (
        record g' { daily = put day (some a') g'.daily },
        model_call task ∷ event_if suspect (cache_buster_suspect task) ++ events,
      )

  abbrev pub downgraded_agg : Governor → Option DailyAgg → Bool
  downgraded_agg g none = false
  downgraded_agg g (some a) = reaches_budget g a downgrade_at

  unfoldable pub downgraded : Governor → String → Bool
  downgraded g today = downgraded_agg g (g.daily today)

unfoldable pub downgrade_model : String → String × Bool
downgrade_model model =
    if model == "claude-opus-4-8" then ("claude-sonnet-5", true) else (model, false)
