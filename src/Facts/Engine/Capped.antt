-- ===== src/Facts/Engine/Capped.antt =====
-- However much supports a fact, its confidence stays within what its best support is worth.
use kahya.Base.{
  Bool, true, false, ◌≡◌, refl, ◌⊎◌, inl, inr, Option, none, some, List, [], ◌∷◌, arith, Bool-cases,
  All,
}
use kahya.Facts.Rows.{LogOdds, Evidence, supports, denies}
use kahya.Facts.Engine.{
  Strings, Key, pos, neg, key_of, seen_key, Tally, raise_cap, count_evidence, tally, clamp,
  confidence_of,
}

module _ (o : LogOdds) (strs : Strings) (worth : o.Odds) where
  -- support of at most the given worth; denials are free
  abbrev pub WithinWorth : Evidence o → Type 0
  WithinWorth e = elim e.polarity [
    | supports ↦ o.exceeds e.weight worth ≡ false
    | denies ↦ Unit {0}
  ]

  abbrev pub has_support : List (Evidence o) → Bool
  has_support [] = false
  has_support (e ∷ rows) = elim e.polarity [ supports ↦ true | denies ↦ has_support rows ]

  no_support : List (Key o) → Bool
  no_support [] = true
  no_support (pos w ∷ keys) = false
  no_support (neg s ∷ keys) = no_support keys

  Capped : Option o.Odds → Type 0
  Capped cap = (c : o.Odds) × (cap ≡ some c) × (o.exceeds c worth ≡ false)

  -- no support was counted yet, or the cap is within the worth
  State : Tally o → Type 0
  State t = ((no_support t.seen ≡ true) × (t.max_cap ≡ none)) ⊎ Capped t.max_cap

  unseen :
      (w : o.Odds) (keys : List (Key o)) → no_support keys ≡ true → seen_key o (pos w) keys ≡ false
  unfolding no_support seen_key
  unseen w [] h = refl
  unseen w (pos v ∷ keys) h = ground (arith, h)
  unseen w (neg s ∷ keys) h = unseen w keys h

  raised :
      (w : o.Odds) (cap : Option o.Odds)
      → o.exceeds w worth ≡ false
      → Capped cap
      → Capped (raise_cap o supports w cap)
  unfolding Capped
  raised w none h k = (w, refl, h)
  raised w (some c) h (d, e, k) = elim (Bool-cases (o.exceeds w c)) [
    | inl more ↦ rw more (w, refl, h)
    | inr less ↦ rw less (d, e, k)
  ]

  support-Capped :
      (e : Evidence o) (t : Tally o)
      → o.exceeds e.weight worth ≡ false
      → State t
      → Capped (count_evidence o strs (record e { polarity = supports }) t).max_cap
  unfolding State Capped
  support-Capped e t h (inl (none_yet, no_cap)) =
      rw (unseen e.weight t.seen none_yet, no_cap) (e.weight, refl, h)
  support-Capped e t h (inr capped) = elim (Bool-cases (seen_key o (pos e.weight) t.seen)) [
    | inl old ↦ rw old capped
    | inr new ↦ rw new (raised e.weight t.max_cap h capped)
  ]

  denial-State :
      (e : Evidence o) (t : Tally o)
      → State t
      → State (count_evidence o strs (record e { polarity = denies }) t)
  unfolding State no_support
  denial-State e t st =
      elim (Bool-cases (seen_key o (key_of o strs (record e { polarity = denies })) t.seen)) [
        | inl old ↦ rw old st
        | inr new ↦ rw new st
      ]

  step-State :
      (e : Evidence o) (t : Tally o) → WithinWorth e → State t → State (count_evidence o strs e t)
  unfolding State
  step-State e t h st =
      (elim e.polarity
          as (λ p.
            WithinWorth (record e { polarity = p })
            → State (count_evidence o strs (record e { polarity = p }) t)) [
              | supports ↦ λ k. inr (support-Capped e t k st)
              | denies ↦ λ k. denial-State e t st
            ])
        h

  denial-Capped :
      (e : Evidence o) (t : Tally o)
      → Capped t.max_cap
      → Capped (count_evidence o strs (record e { polarity = denies }) t).max_cap
  denial-Capped e t h =
      elim (Bool-cases (seen_key o (key_of o strs (record e { polarity = denies })) t.seen)) [
        | inl old ↦ rw old h
        | inr new ↦ rw new h
      ]

  step-Capped :
      (e : Evidence o) (t : Tally o)
      → WithinWorth e
      → Capped t.max_cap
      → Capped (count_evidence o strs e t).max_cap
  unfolding State
  step-Capped e t h st =
      (elim e.polarity
          as (λ p.
            WithinWorth (record e { polarity = p })
            → Capped (count_evidence o strs (record e { polarity = p }) t).max_cap) [
              | supports ↦ λ k. support-Capped e t k (inr st)
              | denies ↦ λ k. denial-Capped e t st
            ])
        h

  tally-Capped :
      (rows : List (Evidence o)) (t : Tally o)
      → All WithinWorth rows
      → Capped t.max_cap
      → Capped (tally o strs rows t).max_cap
  unfolding tally
  tally-Capped [] t h st = st
  tally-Capped (e ∷ rows) t (h, rest) st =
      tally-Capped rows (count_evidence o strs e t) rest (step-Capped e t h st)

  supported-Capped :
      (rows : List (Evidence o)) (t : Tally o)
      → All WithinWorth rows
      → has_support rows ≡ true
      → State t
      → Capped (tally o strs rows t).max_cap
  unfolding tally State
  supported-Capped [] t h supported st = ground (arith, supported)
  supported-Capped (e ∷ rows) t (h, rest) supported st =
      (elim e.polarity
          as (λ p.
            WithinWorth (record e { polarity = p })
            → has_support (record e { polarity = p } ∷ rows) ≡ true
            → Capped
                (tally o strs rows (count_evidence o strs (record e { polarity = p }) t)).max_cap) [
                  | supports ↦ λ k _. tally-Capped rows _ rest (support-Capped e t k st)
                  | denies ↦ λ k s. supported-Capped rows _ rest s (denial-State e t st)
                ])
        h supported

  clamped :
      ((a : o.Odds) → o.exceeds a a ≡ false)
      → ((a b c : o.Odds) → o.exceeds a b ≡ false → o.exceeds b c ≡ false → o.exceeds a c ≡ false)
      → (sum : o.Odds) (cap : Option o.Odds) → Capped cap
      → o.exceeds (clamp o sum cap) worth ≡ false
  unfolding Capped
  clamped irreflexive chain sum cap (c, e, h) = rw e (elim (Bool-cases (o.exceeds sum c)) [
    | inl more ↦ rw more h
    | inr less ↦ rw less (chain sum c worth less h)
  ])

-- A fact that some row supports, none by more than a given worth, has a confidence that does not exceed
-- that worth, whatever the number of rows and sessions: what an agent derives a thousand times is not
-- believed more than what it derives once. (The comparison of weights is a total order.)
pub confidence_of-le_worth :
    (o : LogOdds) (strs : Strings) (worth : o.Odds) (rows : List (Evidence o))
    → ((a : o.Odds) → o.exceeds a a ≡ false)
    → ((a b c : o.Odds) → o.exceeds a b ≡ false → o.exceeds b c ≡ false → o.exceeds a c ≡ false)
    → All (WithinWorth o strs worth) rows
    → has_support o strs worth rows ≡ true
    → o.exceeds (confidence_of o strs rows) worth ≡ false
unfolding confidence_of State no_support
confidence_of-le_worth o strs worth rows irreflexive chain within supported =
    let t : Tally o = record { seen = []; sum = o.zero_odds; max_cap = none } in
    clamped o strs worth irreflexive chain (tally o strs rows t).sum (tally o strs rows t).max_cap
      (supported-Capped o strs worth rows t within supported (inl (refl, refl)))
