-- ===== src/Governor/Ceiling.antt =====
-- The tokens of a task, spent and reserved, stay within its ceiling while no sum of them wraps around.
use kahya.Base.{
  ℕ, suc, ◌+◌, ◌≤◌, ◌<◌, String, Bool, ◌≡◌, ◌⊎◌, Option, none, some, List, [], ◌∷◌, ◌==◌,
  if◌then◌else◌,
}
use kahya.Governor.{
  Money, Limits, Reservation, Governor, Usage, check_before_forward, find_reservation, release,
  record_usage,
}

abbrev share : Bool → ℕ → ℕ
share b n = if b then n else 0

module _ (m : Money) where
  -- what the live reservations hold for a task
  abbrev pub reserved_sum : String → List (Reservation m) → ℕ
  reserved_sum t [] = 0
  reserved_sum t (r ∷ rows) = share (t == r.task_id) r.tokens + reserved_sum t rows

  abbrev share_of : String → Option (Reservation m) → ℕ
  share_of t none = 0
  share_of t (some r) = share (t == r.task_id) r.tokens

  abbrev pub SmallProbe : Option ℕ → Type 0
  SmallProbe probe =
      (k : ℕ) → probe ≡ some k → (k < 2305843009213693952) ⊎ (9223372036854775808 ≤ k)

  -- one call of the governor: a body is below 2 ^ 61 bytes, max_tokens below 2 ^ 61 or negative, and a call's
  -- real usage is within what it reserved
  pub data Step : Governor m → Governor m → Type 0 where
    checks :
        (g : Governor m) (task model : String) (probe : Option ℕ) (size : ℕ) (today month : String)
        → SmallProbe probe
        → size < 2305843009213693952
        → Step g (check_before_forward m g task model probe size today month).1
    releases : (g : Governor m) (id : ℕ) → Step g (release m g id)
    records :
        (g : Governor m) (n : ℕ) (r : Reservation m) (u : Usage) (usd : m.Usd)
        (hash day month : String)
        → find_reservation m (suc n) g.reservations ≡ some r
        → u.input_tokens + u.output_tokens + u.cache_creation_input_tokens ≤ r.tokens
        → Step g (record_usage m g (suc n) r.task_id u usd hash day month).0

  pub data Steps : Governor m → Governor m → Type 0 where
    here : {g : Governor m} → Steps g g
    next : {g g' g'' : Governor m} → Step g g' → Steps g' g'' → Steps g g''

  module _ (limits : Limits m) (limited : 0 < limits.task_token_ceiling)
      (small : limits.task_token_ceiling < 4611686018427387904)
      (est : limits.est_request_tokens < 2305843009213693952) where
    -- the counter of reserved tokens is exact, and spent and reserved tokens are within the ceiling
    abbrev Sound : Governor m → Type 0
    Sound g =
        (g.limits ≡ limits)
        × ((t : String) → g.per_task_reserved_tok t ≡ reserved_sum t g.reservations)
        × ((t : String) → g.per_task t + g.per_task_reserved_tok t ≤ limits.task_token_ceiling)
