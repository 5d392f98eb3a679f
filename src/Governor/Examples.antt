-- ===== src/Governor/Examples.antt =====
-- Tests of kahyad/internal/anthproxy's governor with whole dollars, and the theorems at them.
use kahya.Base.{[], ◌∷◌, ℕ, ◌+◌, ◌-◌, ◌*◌, ◌≡◌, ◌≤◌, refl, inl, some, Bool, true, ltb, leb, arith}
use mathlib.Core.Option
use kahya.Governor.{
  empty_agg, add64, exceeds64, positive_or, Money, Ratio, downgrade_at, spend_80, spend_100, Limits,
  Governor, Usage, allowed, task_ceiling, new_governor, check_before_forward, estimate_request,
  check_estimate, reserve, find_reservation, record_usage, downgrade_model,
}
use kahya.Governor.Alarms.{Call, alarms_of, alarms_of-le_one}
use kahya.Governor.Ceiling.{SmallProbe, Steps, checks, records, here, next}

abbrev reaches : ℕ → ℕ → Ratio → Bool
reaches usd budget downgrade_at = leb (budget * 9) (usd * 10)
reaches usd budget spend_80 = leb (budget * 8) (usd * 10)
reaches usd budget spend_100 = leb budget usd

abbrev dollars : Money
dollars = record {
  Usd = ℕ;
  zero_usd = 0;
  plus = λ a b. a + b;
  minus = λ a b. a - b;
  exceeds = λ a b. ltb b a;
  reaches = reaches;
  cache_hit_low = λ hit all. ltb (hit * 2) all;
  request_usd = λ model inp out. 1;
  fallback_usd = λ model tokens. 1;
}

abbrev limits : Limits dollars
limits = record {
  daily_budget = 10;
  monthly_budget = 150;
  task_token_ceiling = 500;
  est_request_tokens = 0;
}

abbrev start : Governor dollars
unfolding new_governor
start = new_governor dollars limits

abbrev usage : Usage
usage = record {
  input_tokens = 100;
  output_tokens = 50;
  cache_read_input_tokens = 0;
  cache_creation_input_tokens = 0;
}

abbrev checked : Governor dollars
checked = (check_before_forward dollars start "t" "model" (some 300) 300 "day" "month").1

allowed_test :
    (check_before_forward dollars start "t" "model" (some 300) 300 "day" "month").0 ≡ allowed 1
unfolding start new_governor check_before_forward check_estimate estimate_request empty_agg add64
    exceeds64 positive_or
allowed_test = refl

refused_test :
    (check_before_forward dollars checked "t" "model" (some 300) 300 "day" "month").0 ≡ task_ceiling
unfolding start new_governor check_before_forward check_estimate estimate_request reserve empty_agg
    add64 exceeds64 positive_or
refused_test = refl

-- max_tokens of 2 ^ 63 - 1 makes the estimate 2 ^ 63 + 99, a negative int64: it is under any ceiling
wrapped_test :
    (check_before_forward dollars start "t" "model" (some 9223372036854775807) 300 "day" "month").0
    ≡ allowed 1
unfolding start new_governor check_before_forward check_estimate estimate_request empty_agg add64
    exceeds64 positive_or
wrapped_test = refl

downgrade_test : downgrade_model "claude-opus-4-8" ≡ ("claude-sonnet-5", true)
unfolding downgrade_model
downgrade_test = refl

abbrev recorded : Governor dollars
recorded = (record_usage dollars checked 1 "t" usage 2 "" "day" "month").0

found :
    find_reservation dollars 1 checked.reservations
    ≡ some (record { id = 1; task_id = "t"; tokens = 400; usd = 1; day = "day"; month = "month" })
unfolding start new_governor check_before_forward check_estimate estimate_request reserve
    find_reservation empty_agg add64 exceeds64 positive_or
found = refl

small_probe : SmallProbe dollars (some 300)
small_probe k e = inl (omega (arith, Option.some-injective _ _ e))

abbrev two_steps : Steps dollars start recorded
two_steps = next (checks start "t" "model" (some 300) 300 "day" "month" small_probe (omega arith)) (
    next
      (records checked 0
        (record { id = 1; task_id = "t"; tokens = 400; usd = 1; day = "day"; month = "month" })
        usage 2 "" "day" "month" found (omega arith))
      here)

abbrev costly : Call dollars
costly = record {
  reservation = 0;
  task = "t";
  usage = usage;
  usd = 11;
  hash = "";
  day = "day";
  month = "month";
}

alarms_of-le_one_example : alarms_of dollars "day" (costly ∷ costly ∷ []) start ≤ 1
alarms_of-le_one_example = alarms_of-le_one dollars "day" (costly ∷ costly ∷ []) start
