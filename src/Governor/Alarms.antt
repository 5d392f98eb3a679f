-- ===== src/Governor/Alarms.antt =====
-- The alarm of a day whose budget is spent is raised once.
use kahya.Base.{
  ℕ, zero, suc, ◌+◌, ◌≤◌, String, Bool, true, false, not, ◌&&◌, ◌||◌, ◌≡◌, refl, ap, ◌∙◌, inl, inr,
  Option, none, some, List, [], ◌∷◌, ◌++◌, ◌==◌, eq_iff, eq_refl, arith, if◌then◌else◌, Bool-cases,
}
use kahya.Governor.{
  Money, DailyAgg, Reservation, Governor, Usage, GovernorEvent, spend_alarm_100, model_call,
  cache_buster_suspect, budget_downgrade_on, spend_alarm_80, cache_hit_alarm, agg_or_empty,
  event_if, spend_100, downgrade_at, spend_80, reaches_budget, cache_alarm, release_found, release,
  record_call, note_hash, raise_alarms, record_usage, find_reservation,
}

-- how often the alarm of a day stands among events
abbrev pub alarms : String → List GovernorEvent → ℕ
alarms day [] = 0
alarms day (spend_alarm_100 d ∷ events) = (if day == d then 1 else 0) + alarms day events
alarms day (_ ∷ events) = alarms day events

alarms-append :
    (day : String) (a b : List GovernorEvent) → alarms day (a ++ b) ≡ alarms day a + alarms day b
alarms-append day [] b = omega arith
alarms-append day (spend_alarm_100 d ∷ a) b = omega (arith, alarms-append day a b)
alarms-append day (model_call t ∷ a) b = alarms-append day a b
alarms-append day (cache_buster_suspect t ∷ a) b = alarms-append day a b
alarms-append day (budget_downgrade_on t ∷ a) b = alarms-append day a b
alarms-append day (spend_alarm_80 t ∷ a) b = alarms-append day a b
alarms-append day (cache_hit_alarm t ∷ a) b = alarms-append day a b

abbrev one_if : Bool → ℕ
one_if b = if b then 1 else 0

-- the events of one call: of the alarms, only that of the day, and it if it fires
fired :
    (d day task : String) (suspect downgrade a80 a100 cache : Bool)
    → alarms d (
        model_call task ∷ event_if suspect (cache_buster_suspect task)
        ++ (event_if downgrade (budget_downgrade_on day)
            ++ event_if a80 (spend_alarm_80 day)
            ++ event_if a100 (spend_alarm_100 day)
            ++ event_if cache (cache_hit_alarm day)))
      ≡ (if a100 then one_if (d == day) else 0)
fired d day task suspect downgrade a80 a100 cache = ground arith

module _ (m : Money) where
  flag : Option (DailyAgg m) → ℕ
  flag o = one_if (agg_or_empty m o).alarm_100_logged

  note_hash-flag :
      (a : DailyAgg m) (hash : String)
      → (note_hash m a hash).0.alarm_100_logged ≡ a.alarm_100_logged
  unfolding note_hash
  note_hash-flag a hash = ground arith

  release_found-daily :
      (g : Governor m) (id : ℕ) (o : Option (Reservation m))
      → (release_found m g id o).daily ≡ g.daily
  unfolding release_found
  release_found-daily g id none = refl
  release_found-daily g id (some r) = refl

  release-daily : (g : Governor m) (id : ℕ) → (release m g id).daily ≡ g.daily
  unfolding release
  release-daily g zero = refl
  release-daily g (suc n) =
      release_found-daily g (suc n) (find_reservation m (suc n) g.reservations)

  -- the alarm's flag after the call: set where it was, or where the alarm fires
  sets :
      (was reached : Bool)
      → one_if (was || (reached && not was)) ≡ one_if was + one_if (reached && not was)
  sets was reached = ground arith

  if-same : (b c : Bool) → c ≡ true → (if b then one_if c else 0) ≡ one_if b
  if-same b c h = ground (arith, h)

  if-other : (b c : Bool) → c ≡ false → (if b then one_if c else 0) ≡ 0
  if-other b c h = ground (arith, h)

  raise_alarms-counts :
      (g : Governor m) (d day task : String) (suspect : Bool) (a : DailyAgg m)
      → let out = raise_alarms m g day a in
        (d ≡ day
          → alarms d (model_call task ∷ event_if suspect (cache_buster_suspect task) ++ out.1)
              + one_if a.alarm_100_logged
            ≡ one_if out.0.alarm_100_logged)
        × ((d == day) ≡ false
            → alarms d (model_call task ∷ event_if suspect (cache_buster_suspect task) ++ out.1)
              ≡ 0)
  unfolding raise_alarms
  raise_alarms-counts g d day task suspect a =
      let count =
        fired d day task suspect (reaches_budget m g a downgrade_at && not a.downgrade_logged)
          (reaches_budget m g a spend_80 && not a.alarm_80_logged)
          (reaches_budget m g a spend_100 && not a.alarm_100_logged) (cache_alarm m a) in
      let a100 = reaches_budget m g a spend_100 && not a.alarm_100_logged in
      (
        (λ same.
            let hit = if-same a100 (d == day) ((eq_iff d day).1 same) in
            omega (arith, count, hit, sets a.alarm_100_logged (reaches_budget m g a spend_100))),
        λ other. count ∙ if-other a100 (d == day) other,
      )

  -- the day's aggregate after recordLocked, before the alarms
  agg_after : Governor m → ℕ → String → Usage → m.Usd → String → String → DailyAgg m
  agg_after g id task u usd day month =
      agg_or_empty m ((record_call m (release m g id) task u usd day month).daily day)

  agg_after-flag :
      (g : Governor m) (id : ℕ) (task : String) (u : Usage) (usd : m.Usd) (day month : String)
      → one_if (agg_after g id task u usd day month).alarm_100_logged ≡ flag (g.daily day)
  unfolding agg_after record_call flag
  agg_after-flag g id task u usd day month = rw (eq_refl day, release-daily g id) refl

  record_usage-alarms :
      (g : Governor m) (id : ℕ) (task : String) (u : Usage) (usd : m.Usd)
      (hash day month d : String)
      → let out = record_usage m g id task u usd hash day month in
        alarms d out.1 + flag (g.daily d) ≡ flag (out.0.daily d)
  unfolding record_usage record_call flag agg_after
  record_usage-alarms g id task u usd hash day month d =
      let g' = record_call m (release m g id) task u usd day month in
      let noted = note_hash m (agg_after g id task u usd day month) hash in
      let (same_day, other_day) = raise_alarms-counts g' d day task noted.1 noted.0 in
      let before =
        ap one_if (note_hash-flag (agg_after g id task u usd day month) hash)
        ∙ agg_after-flag g id task u usd day month in
      elim (Bool-cases (d == day)) [
        | inl same ↦
            let e = (eq_iff d day).0 same in
            rw same (omega (arith, same_day e, before, ap (λ k. flag (g.daily k)) e))
        | inr other ↦
            rw other (omega (arith, other_day other, ap (λ f. flag (f d)) (release-daily g id)))
      ]

-- a call whose usage is recorded
pub record Call (m : Money) : Type 0 where
  pub reservation : ℕ
  pub task : String
  pub usage : Usage
  pub usd : m.Usd
  pub hash : String
  pub day : String
  pub month : String

-- the alarms of a day over a run of recorded calls, on any days
unfoldable pub alarms_of : (m : Money) → String → List (Call m) → Governor m → ℕ
alarms_of m d [] g = 0
alarms_of m d (c ∷ calls) g =
    let out = record_usage m g c.reservation c.task c.usage c.usd c.hash c.day c.month in
    alarms d out.1 + alarms_of m d calls out.0

flag-le : (m : Money) (o : Option (DailyAgg m)) → flag m o ≤ 1
unfolding flag
flag-le m o = ground arith

total :
    (m : Money) (d : String) (calls : List (Call m)) (g : Governor m)
    → alarms_of m d calls g + flag m (g.daily d) ≤ 1
unfolding alarms_of
total m d [] g = omega (arith, flag-le m (g.daily d))
total m d (c ∷ calls) g =
    let out = record_usage m g c.reservation c.task c.usage c.usd c.hash c.day c.month in
    omega (
      arith,
      total m d calls out.0,
      record_usage-alarms m g c.reservation c.task c.usage c.usd c.hash c.day c.month d,
    )

-- Whatever calls are recorded, on whatever days and with whatever costs, the alarm that a day's budget is
-- spent is raised at most once for the day.
pub alarms_of-le_one :
    (m : Money) (d : String) (calls : List (Call m)) (g : Governor m) → alarms_of m d calls g ≤ 1
alarms_of-le_one m d calls g = omega (arith, total m d calls g)
