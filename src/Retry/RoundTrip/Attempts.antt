-- ===== src/Retry/RoundTrip/Attempts.antt =====
-- How often a model call is tried, and when it is given up.
use kahya.Base.{
  ℕ, zero, suc, ◌+◌, ◌≤◌, ◌<◌, Bool, true, false, not, ◌&&◌, ◌≡◌, refl, sym, subst, eqb, ltb, arith,
  Bool-cases, inl, inr, length, zero_or_suc,
}
use kahya.Retry.Taxonomy.{Class, retryable, non_retryable, classify}
use kahya.Retry.RoundTrip.{
  Answer, RetryTransport, Trip, status_of, is_success, sleep_before_retry, slept, on_class,
  on_answer, attempts, max_attempts, round_trip,
}

abbrev is_retryable : Class → Bool
is_retryable retryable = true
is_retryable non_retryable = false

-- a failure that may pass
abbrev pub passes : Answer → Bool
passes a = not (is_success a) && is_retryable (classify (status_of a) a.error)

-- what `Attempts` says of a trip whose first attempt is `suc n`
pub record Tried (t : RetryTransport) (n left : ℕ) (trip : Trip) : Type 0 where
  pub at_most : trip.retry_attempts ≤ n + left
  pub passed : (k : ℕ) → n < k → k < trip.retry_attempts → passes (t.base k) ≡ true
  pub used_up :
      trip.exhausted ≡ true
      → (trip.retry_attempts ≡ n + left)
        × ((k : ℕ) → n < k → k ≤ n + left → passes (t.base k) ≡ true)
  pub final :
      trip.exhausted ≡ false
      → (n < trip.retry_attempts) × (passes (t.base trip.retry_attempts) ≡ false)

module _ (t : RetryTransport) (replays : (n : ℕ) → t.replays n ≡ true) where
  none-Tried : (n : ℕ) → Tried t n zero (attempts t n zero)
  unfolding attempts
  none-Tried n = record {
    at_most = omega arith;
    passed = λ k above below. ground (arith, above, below);
    used_up = λ e. (omega arith, λ k above below. ground (arith, above, below));
    final = λ e. ground (arith, e);
  }

  stopped-Tried :
      (n left : ℕ) (trip : Trip)
      → trip.exhausted ≡ false
      → trip.retry_attempts ≡ suc n
      → passes (t.base (suc n)) ≡ false
      → Tried t n (suc left) trip
  stopped-Tried n left trip ended count stops = record {
    at_most = omega (arith, count);
    passed = λ k above below. ground (arith, above, below, count);
    used_up = λ e. ground (arith, e, ended);
    final = λ e. (omega (arith, count), subst (λ k. passes (t.base k) ≡ false) (sym count) stops);
  }

  later-passes :
      (n : ℕ)
      → passes (t.base (suc n)) ≡ true
      → (hi : ℕ) → ((k : ℕ) → suc n < k → k < hi → passes (t.base k) ≡ true)
      → (k : ℕ) → n < k
      → k < hi
      → passes (t.base k) ≡ true
  later-passes n now hi later k above below = elim (Bool-cases (eqb k (suc n))) [
    | inl e ↦
        let same : suc n ≡ k = ground (arith, e) in subst (λ i. passes (t.base i) ≡ true) same now
    | inr e ↦ later k (ground (arith, e, above)) below
  ]

  slept-Tried :
      (n left d : ℕ) (rest : Trip)
      → passes (t.base (suc n)) ≡ true
      → Tried t (suc n) left rest
      → Tried t n (suc left) (slept left d rest)
  slept-Tried n left d rest now tried =
      let later = later-passes n now in
      let whole : Tried t n (suc left) rest = record {
        at_most = omega (arith, tried.at_most);
        passed = later rest.retry_attempts tried.passed;
        used_up = λ e. (
          omega (arith, (tried.used_up e).0),
          λ k above below.
              later (suc (n + suc left))
                (λ i up down. (tried.used_up e).1 i up (omega (arith, down))) k above
                (omega (arith, below)),
        );
        final = λ e. (omega (arith, (tried.final e).0), (tried.final e).1);
      } in
      elim left as (λ l. Tried t n (suc left) (slept l d rest)) [
        | zero ↦ whole
        | suc l ↦ record {
          at_most = whole.at_most;
          passed = whole.passed;
          used_up = whole.used_up;
          final = whole.final;
        }
      ]

  class-Tried :
      (n left : ℕ) (rest : Trip) (c : Class)
      → is_success (t.base (suc n)) ≡ false
      → classify (status_of (t.base (suc n))) (t.base (suc n)).error ≡ c
      → Tried t (suc n) left rest
      → Tried t n (suc left) (on_class t (suc n) left (t.base (suc n)) rest c)
  class-Tried n left rest retryable bad is tried =
      slept-Tried n left _ rest (rw (bad, is) refl) tried
  class-Tried n left rest non_retryable bad is tried =
      stopped-Tried n left _ refl refl (rw (bad, is) refl)

  answer-Tried :
      (n left : ℕ) (rest : Trip)
      → Tried t (suc n) left rest
      → Tried t n (suc left) (on_answer t (suc n) left (t.base (suc n)) rest)
  answer-Tried n left rest tried = elim (Bool-cases (is_success (t.base (suc n)))) [
    | inl e ↦ rw e (stopped-Tried n left _ refl refl (rw e refl))
    | inr e ↦ rw e (class-Tried n left rest _ e refl tried)
  ]

  -- the body can be read again
  readable : (n : ℕ) → (ltb 0 n && not (t.replays (suc n))) ≡ false
  readable n =
      rw (replays (suc n)) (elim (Bool-cases (ltb 0 n)) [ inl e ↦ rw e refl | inr e ↦ rw e refl ])

  attempts-Tried : (n left : ℕ) → Tried t n left (attempts t n left)
  unfolding attempts
  attempts-Tried n zero = none-Tried n
  attempts-Tried n (suc left) =
      rw (readable n) (answer-Tried n left (attempts t (suc n) left) (attempts-Tried (suc n) left))

  abbrev Counted : ℕ → Trip → Type 0
  Counted n trip = suc (n + length trip.sleeps) ≡ trip.retry_attempts

  answer-Counted :
      (n left : ℕ) (rest : Trip)
      → Counted n (slept left (sleep_before_retry t (suc n) (t.base (suc n))) rest)
      → Counted n (on_answer t (suc n) left (t.base (suc n)) rest)
  answer-Counted n left rest counted = elim (Bool-cases (is_success (t.base (suc n)))) [
    | inl e ↦ rw e (omega arith)
    | inr e ↦ rw e (class-Counted (classify (status_of (t.base (suc n))) (t.base (suc n)).error))
  ]
    where
      class-Counted : (c : Class) → Counted n (on_class t (suc n) left (t.base (suc n)) rest c)
      class-Counted retryable = counted
      class-Counted non_retryable = omega arith

  attempts-Counted : (n left : ℕ) → Counted n (attempts t n (suc left))
  unfolding attempts
  attempts-Counted n zero =
      rw (readable n) (answer-Counted n zero (attempts t (suc n) zero) (omega arith))
  attempts-Counted n (suc left) =
      let rest = attempts-Counted (suc n) left in
      rw (readable n)
        (answer-Counted n (suc left) (attempts t (suc n) (suc left)) (omega (arith, rest)))

  max_attempts-positive : (left : ℕ) × (max_attempts t ≡ suc left)
  max_attempts-positive = elim (zero_or_suc t.max_inline) [
    | inl e ↦ (2, rw e refl)
    | inr (m, e) ↦ (m, ground (arith, e))
  ]

  -- Where the request's body can be read again: RoundTrip calls the upstream at least once and at most
  -- maxInline times, sleeps once between two calls, calls again only after a failure that may pass,
  -- reports exhaustion only if all maxInline answers were such failures, and otherwise stops at the first
  -- answer that is not one.
  pub round_trip-attempts :
      let trip = round_trip t in
      (suc (length trip.sleeps) ≡ trip.retry_attempts)
      × (trip.retry_attempts ≤ max_attempts t)
      × ((k : ℕ) → 0 < k → k < trip.retry_attempts → passes (t.base k) ≡ true)
      × (trip.exhausted ≡ true
          → (trip.retry_attempts ≡ max_attempts t)
            × ((k : ℕ) → 0 < k → k ≤ max_attempts t → passes (t.base k) ≡ true))
      × (trip.exhausted ≡ false → passes (t.base trip.retry_attempts) ≡ false)
  unfolding round_trip
  round_trip-attempts =
      let (left, e) = max_attempts-positive in
      let tried = attempts-Tried 0 (max_attempts t) in
      let counted : Counted 0 (attempts t 0 (max_attempts t)) =
        subst (λ m. Counted 0 (attempts t 0 m)) (sym e) (attempts-Counted 0 left) in
      (
        omega (arith, counted),
        omega (arith, tried.at_most),
        tried.passed,
        λ e. (
          omega (arith, (tried.used_up e).0),
          λ k above below. (tried.used_up e).1 k above (omega (arith, below)),
        ),
        λ e. (tried.final e).1,
      )
