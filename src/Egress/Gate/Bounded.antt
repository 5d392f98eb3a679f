-- ===== src/Egress/Gate/Bounded.antt =====
-- The decisions keep each host's bytes of a day within its limit.
use kahya.Base.{
  ℕ, zero, suc, ◌+◌, ◌≤◌, ◌<◌, String, Bool, true, false, ◌&&◌, ◌≡◌, refl, sym, ap, ◌∙◌, subst, inl,
  inr, Option, none, some, List, [], ◌∷◌, arith, if◌then◌else◌, ltb, All,
}
use kahya.Base.Exec.{World, alone, Result, ok, err, continue, ◌>>=◌}
use kahya.Base.Text.{Text}
use kahya.Egress.Host.{canonicalize_host}
use kahya.Egress.Budget.{
  EgressDb, EgressEvent, Handler, SessionInfo, Rule, bytes_of, add, is_marked,
}
use kahya.Egress.Budget.Sums.{sum_at, SumsGrow, bytes_of-reads, AddEffect, add-AddEffect}
use kahya.Egress.Gate.{
  Gate, DenyReason, limit_for, sum_over, over_limit, bytes_if, add_if, add_bytes, alarm_if, deny,
  deny_budget, spend, within_budget, check_matched, check_host, check, match_allowlist,
}

-- the day's bytes of each host with a limit are within it
abbrev pub WithinLimits : Gate → EgressDb → Type 0
WithinLimits g d =
    (host : Text) (day : String) → 0 < limit_for g host → sum_at host day d ≤ limit_for g host

fits_within :
    (current n limit : ℕ)
    → limit + n < 9223372036854775808
    → current ≤ limit
    → 0 < limit
    → (ltb 0 limit && sum_over current n limit) ≡ false
    → current + n ≤ limit
unfolding sum_over
fits_within current n limit small within limited fits = ground (arith, fits)

module _ (g : Gate) (faults : ℕ → Bool) (clock : ℕ → ℕ) where
  -- a world with these failing calls and this clock, in which nobody else writes
  Kept : World EgressDb EgressEvent → Type 0
  Kept w = (w ≡ alone faults clock w.calls w.ledger w.db) × WithinLimits g w.db

  continue-Kept :
      {A B : Type 0} (f : A → Handler B) (r : Result A) (w : World EgressDb EgressEvent)
      → Kept w
      → ((a : A) → r ≡ ok a → Kept (f a w).1)
      → Kept (continue r f w).1
  continue-Kept f (ok a) w h rest = rest a refl
  continue-Kept f (err e) w h rest = h

  logged-Kept :
      (l : List EgressEvent) (w : World EgressDb EgressEvent)
      → Kept w
      → Kept (record w { ledger = l })
  unfolding Kept
  logged-Kept l w (same, h) =
      (ap {A = World EgressDb EgressEvent} (λ v. record v { ledger = l }) same, h)

  alarm-Kept :
      (b : Bool) (session : SessionInfo) (host : Text) (w : World EgressDb EgressEvent)
      → Kept w
      → Kept (alarm_if b session host w).1
  unfolding alarm_if ◌>>=◌
  alarm-Kept true session host w h = logged-Kept _ w h
  alarm-Kept false session host w h = h

  deny-Kept :
      (session : SessionInfo) (host : Text) (rule : Rule) (why : DenyReason)
      (w : World EgressDb EgressEvent)
      → Kept w
      → Kept (deny session host rule why w).1
  unfolding deny ◌>>=◌
  deny-Kept session host rule why w h = logged-Kept _ w h

  deny_budget-Kept :
      (session : SessionInfo) (host : Text) (w : World EgressDb EgressEvent)
      → Kept w
      → Kept (deny_budget g session host w).1
  unfolding deny_budget deny ◌>>=◌
  deny_budget-Kept session host w h =
      continue-Kept _ (alarm_if g.has_notifier session host _).0
        (alarm_if g.has_notifier session host _).1
        (alarm-Kept g.has_notifier session host _ (logged-Kept _ w h))
        (λ a e. alarm-Kept g.has_notifier session host _ (logged-Kept _ w h))

  grown :
      (host : Text) (day : String) (n : ℕ) (d d' : EgressDb)
      → limit_for g host + n < 9223372036854775808
      → over_limit g host (sum_at host day d) n ≡ false
      → WithinLimits g d
      → SumsGrow host day n d d'
      → WithinLimits g d'
  unfolding sum_over
  grown host day n d d' small fits within grows h k limited = elim (grows h k) [
    | inl less ↦ omega (arith, within h k limited)
    | inr (eh, ek, more) ↦
        let here : 0 < limit_for g host = subst (λ x. 0 < limit_for g x) eh limited in
        let now_over =
          fits_within (sum_at host day d) n (limit_for g host) small (within host day here) here
            fits in
        rw (eh, ek) (omega (arith, more, now_over))
  ]

  read-Kept :
      (b : Bool) (host : Text) (day : String) (w : World EgressDb EgressEvent)
      → Kept w
      → let out = bytes_if b host day w in
        Kept out.1 × ((c : ℕ) → out.0 ≡ ok c → b ≡ true → c ≡ sum_at host day out.1.db)
  unfolding bytes_if Kept ◌>>=◌
  read-Kept false host day w h = (h, λ c e absurd. ground (arith, absurd))
  read-Kept true host day w (same, h) =
      let (state, value) = bytes_of-reads faults clock w.calls w.ledger w.db host day in
      let reads = ap (bytes_of host day) same in
      let after = ap (λ out. out.1) reads ∙ state in
      (
        (
          after ∙ ap (λ v. alone faults clock v.calls v.ledger v.db) (sym after),
          subst (λ v. WithinLimits g v.db) (sym after) h,
        ),
        λ c e _.
            value c (sym (ap (λ out. out.0) reads) ∙ e)
            ∙ ap (λ v. sum_at host day v.db) (sym after),
      )

  added-Kept :
      (b : Bool) (host : Text) (day : String) (n : ℕ) (w : World EgressDb EgressEvent)
      → limit_for g host + n < 9223372036854775808
      → Kept w
      → (b ≡ true → over_limit g host (sum_at host day w.db) n ≡ false)
      → Kept (add_if b host day n w).1
  unfolding add_if Kept ◌>>=◌
  added-Kept false host day n w small h fits = h
  added-Kept true host day n w small (same, h) fits =
      let (alone', grows, marked) =
        subst (λ v. AddEffect faults clock w.calls w.ledger w.db host day n (add host day n v).1)
          (sym same) (add-AddEffect faults clock w.calls w.ledger w.db host day n) in
      let out = (add host day n w).1 in
      let here : Kept out = (
        alone' ∙ ap (λ l. alone faults clock out.calls l out.db) (sym (ap (λ v. v.ledger) alone')),
        grown host day n w.db out.db small (fits refl) h grows,
      ) in
      continue-Kept _ (add host day n w).0 out here (λ a e. here)

  add_bytes-Kept :
      (host : Text) (day : String) (n : ℕ) (w : World EgressDb EgressEvent)
      → limit_for g host + n < 9223372036854775808
      → Kept w
      → (g.has_budget ≡ true → over_limit g host (sum_at host day w.db) n ≡ false)
      → Kept (add_bytes g host day n w).1
  unfolding add_bytes ◌>>=◌
  add_bytes-Kept host day zero w small h fits = h
  add_bytes-Kept host day (suc m) w small h fits =
      added-Kept g.has_budget host day (suc m) w small h fits

  decide-Kept :
      (over : Bool) (session : SessionInfo) (host : Text) (day : String) (n : ℕ)
      (w : World EgressDb EgressEvent)
      → limit_for g host + n < 9223372036854775808
      → Kept w
      → (over ≡ false → g.has_budget ≡ true → over_limit g host (sum_at host day w.db) n ≡ false)
      → Kept ((if over then deny_budget g session host else spend g session host day n) w).1
  unfolding spend ◌>>=◌
  decide-Kept true session host day n w small h fits = deny_budget-Kept session host w h
  decide-Kept false session host day n w small h fits =
      let added = add_bytes-Kept host day n w small h (fits refl) in
      continue-Kept _ (add_bytes g host day n w).0 (add_bytes g host day n w).1 added
        (λ a e. logged-Kept _ _ added)

  within_budget-Kept :
      (session : SessionInfo) (host : Text) (n : ℕ) (w : World EgressDb EgressEvent)
      → limit_for g host + n < 9223372036854775808
      → Kept w
      → Kept (within_budget g session host n w).1
  unfolding within_budget ◌>>=◌
  within_budget-Kept session host n w small h =
      let day = g.day_of (w.clock w.calls) in
      let out = bytes_if g.has_budget host day w in
      let (kept, value) = read-Kept g.has_budget host day w h in
      continue-Kept _ out.0 out.1 kept (λ c e.
        decide-Kept (over_limit g host c n) session host day n out.1 small kept
          (λ under has. subst (λ x. over_limit g host x n ≡ false) (value c e has) under))

  matched-Kept :
      (session : SessionInfo) (host : Text) (n : ℕ) (marked matched : Bool)
      (w : World EgressDb EgressEvent)
      → limit_for g host + n < 9223372036854775808
      → Kept w
      → Kept (check_matched g session host n marked matched w).1
  unfolding check_matched
  matched-Kept session host n true false w small h = deny-Kept session host _ _ w h
  matched-Kept session host n false false w small h = deny-Kept session host _ _ w h
  matched-Kept session host n true true w small h = within_budget-Kept session host n w small h
  matched-Kept session host n false true w small h = within_budget-Kept session host n w small h

  host-Kept :
      (session : SessionInfo) (raw : Text) (port n : ℕ) (o : Option Text)
      (w : World EgressDb EgressEvent)
      → ((host : Text) → limit_for g host + n < 9223372036854775808)
      → Kept w
      → Kept (check_host g session raw port n o w).1
  unfolding check_host is_marked ◌>>=◌
  host-Kept session raw port n none w small h = deny-Kept session raw _ _ w h
  host-Kept session raw port n (some host) w small h =
      matched-Kept session host n _ (match_allowlist g host port) w (small host) h

-- one request put before the gate
pub record Request : Type 0 where
  pub host : Text
  pub port : ℕ
  pub nbytes : ℕ
  pub session : SessionInfo

-- each is decided, allowed, denied or failed, and the next one follows
unfoldable pub checks :
    Gate → List Request → World EgressDb EgressEvent → World EgressDb EgressEvent
checks g [] w = w
checks g (r ∷ requests) w = checks g requests (check g r.host r.port r.nbytes r.session w).1

checks-Kept :
    (g : Gate) (faults : ℕ → Bool) (clock : ℕ → ℕ) (requests : List Request)
    (w : World EgressDb EgressEvent)
    → All (λ r. (host : Text) → limit_for g host + r.nbytes < 9223372036854775808) requests
    → Kept g faults clock w
    → Kept g faults clock (checks g requests w)
unfolding checks check
checks-Kept g faults clock [] w small h = h
checks-Kept g faults clock (r ∷ requests) w (s, small) h =
    checks-Kept g faults clock requests _ small (
      host-Kept g faults clock r.session r.host r.port r.nbytes (canonicalize_host g.net r.host) w s
        h)

-- Any sequence of requests put before the gate, whatever it decides and whichever calls of the database
-- fail on the way, keeps every host's bytes of every day within the host's limit, where it has one.
-- (Decisions exclude each other; no limit and request add up to 2^63.)
pub checks-WithinLimits :
    (g : Gate) (requests : List Request) (faults : ℕ → Bool) (clock : ℕ → ℕ) (calls : ℕ)
    (ledger : List EgressEvent) (d : EgressDb)
    → All (λ r. (host : Text) → limit_for g host + r.nbytes < 9223372036854775808) requests
    → WithinLimits g d
    → WithinLimits g (checks g requests (alone faults clock calls ledger d)).db
unfolding Kept
checks-WithinLimits g requests faults clock calls ledger d small h =
    (checks-Kept g faults clock requests (alone faults clock calls ledger d) small (refl, h)).1
