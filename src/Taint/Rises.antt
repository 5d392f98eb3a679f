-- ===== src/Taint/Rises.antt =====
-- A session's tier only rises, and a tainted one never reads as clean.
use kahya.Base.{
  ℕ, zero, suc, String, Bool, true, false, ◌≡◌, refl, sym, ap, subst, inl, inr, Option, none, some,
  List, [], ◌∷◌, ◌++◌, eq_refl, arith, if◌then◌else◌, Bool-cases, Option-cases, zero_or_suc,
}
use kahya.Base.Exec.{World, Result, Error, ok, err, store_failed, found, alone, ◌>>=◌}
use kahya.Base.Table.{
  find, count_where, find-append, find-update_where, find-holds, find-count_where,
  find-none-count_where, or_else,
}
use kahya.Base.Guarantee.{IsPreorder, Rely, Guarantees, Guarantees-query, guarantee_rules}
use mathlib.Core.Option
use kahya.Taint.{
  Tier, tier_clean, tier_tainted, SessionTaint, TaintEvent, Handler, has_session, get_session_taint,
  insert_new, row, insert_session_taint_clean, insert_session_taint_tainted, upsert,
  raise_session_taint, non_empty, tier_read, get, inserted, insert_clean, raise_taint,
  insert_untrusted,
}

abbrev pub tainted_tier : Tier → Bool
tainted_tier tier_tainted = true
tainted_tier _ = false

abbrev pub tainted_row : Option SessionTaint → Bool
tainted_row none = false
tainted_row (some r) = tainted_tier r.tier

-- the session has a row, and it is a tainted one
abbrev pub is_tainted : String → List SessionTaint → Bool
is_tainted s d = tainted_row (find (has_session s) d)

abbrev pub KeepsTaint : String → List SessionTaint → List SessionTaint → Type 0
KeepsTaint s d d' = is_tainted s d ≡ true → is_tainted s d' ≡ true

order : (s : String) → IsPreorder (KeepsTaint s)
order s = record { same = λ d h. h; chain = λ a b c f g h. g (f h) }

first_stays :
    (o o' : Option SessionTaint) → tainted_row o ≡ true → tainted_row (or_else o o') ≡ true
first_stays none o' e = ground (arith, e)
first_stays (some a) o' e = e

append-KeepsTaint :
    (s : String) (r : SessionTaint) (d : List SessionTaint) → KeepsTaint s d (d ++ r ∷ [])
append-KeepsTaint s r d h =
    rw (find-append (has_session s) d (r ∷ [])) (first_stays (find (has_session s) d) _ h)

insert_new-KeepsTaint :
    (s : String) (n : ℕ) (r : SessionTaint) (d : List SessionTaint)
    → KeepsTaint s d (insert_new n r d).1
insert_new-KeepsTaint s zero r d h = append-KeepsTaint s r d h
insert_new-KeepsTaint s (suc n) r d h = h

module _ (s t : String) (cause : Option String) (at : ℕ) where
  abbrev raised_row : SessionTaint → SessionTaint
  raised_row r = record r { tier = tier_tainted; cause = cause; updated_at = at }

  raised_one :
      (o : Option SessionTaint) (q : SessionTaint → Bool)
      → tainted_row o ≡ true
      → tainted_row (Option.map (λ r. if q r then raised_row r else r) o) ≡ true
  raised_one none q h = h
  raised_one (some r) q h = ground (arith, h)

  upsert-KeepsTaint : (n : ℕ) (d : List SessionTaint) → KeepsTaint s d (upsert n t cause at d)
  upsert-KeepsTaint zero d h = append-KeepsTaint s _ d h
  upsert-KeepsTaint (suc n) d h =
      rw (find-update_where (has_session s) (has_session t) raised_row (λ r. refl) d)
        (raised_one (find (has_session s) d) (has_session t) h)

module _ (s : String) (cause : Option String) (at : ℕ) where
  upsert-taints :
      (d : List SessionTaint)
      → is_tainted s (upsert (count_where (has_session s) d) s cause at d) ≡ true
  unfolding find
  upsert-taints d =
      let p = has_session s in
      elim (Option-cases (find p d)) [
        | inl e ↦
            rw
              (
                find-none-count_where p p (λ r h. h) d e,
                find-append p d (row tier_tainted s cause at ∷ []),
                e,
                eq_refl s,
              )
              refl
        | inr (r, e) ↦ elim (zero_or_suc (count_where p d)) [
          | inl z ↦ ground (arith, z, find-count_where p p d r e (find-holds p d r e))
          | inr (n, z) ↦
              rw
                (
                  z,
                  find-update_where p p (raised_row s s cause at) (λ r. refl) d,
                  e,
                  find-holds p d r e,
                )
                refl
        ]
      ]

module _ (s : String) where
  get_row-KeepsTaint : (t : String) → Guarantees (KeepsTaint s) (get_session_taint t)
  unfolding get_session_taint
  get_row-KeepsTaint t = Guarantees-query (KeepsTaint s) (order s) _ (λ d h. h)

  insert_clean_row-KeepsTaint :
      (t : String) (at : ℕ) → Guarantees (KeepsTaint s) (insert_session_taint_clean t at)
  unfolding insert_session_taint_clean
  insert_clean_row-KeepsTaint t at =
      Guarantees-query (KeepsTaint s) (order s) _ (λ d. insert_new-KeepsTaint s _ _ d)

  insert_tainted_row-KeepsTaint :
      (t : String) (cause : Option String) (at : ℕ)
      → Guarantees (KeepsTaint s) (insert_session_taint_tainted t cause at)
  unfolding insert_session_taint_tainted
  insert_tainted_row-KeepsTaint t cause at =
      Guarantees-query (KeepsTaint s) (order s) _ (λ d. insert_new-KeepsTaint s _ _ d)

  raise_row-KeepsTaint :
      (t : String) (cause : Option String) (at : ℕ)
      → Guarantees (KeepsTaint s) (raise_session_taint t cause at)
  unfolding raise_session_taint
  raise_row-KeepsTaint t cause at =
      Guarantees-query (KeepsTaint s) (order s) _ (λ d. upsert-KeepsTaint s t cause at _ d)

  inserted-KeepsTaint :
      (t : String) (r : Result (Unit {0})) → Guarantees (KeepsTaint s) (inserted t r)
  unfolding inserted
  inserted-KeepsTaint t (ok u) = search (guarantee_rules, order)
  inserted-KeepsTaint t (err e) = search (guarantee_rules, order) depth 8

  get-KeepsTaint : (t : String) → Guarantees (KeepsTaint s) (get t)
  unfolding get
  get-KeepsTaint t = search (guarantee_rules, order, get_row-KeepsTaint) depth 8

  insert_clean-KeepsTaint : (t : String) → Guarantees (KeepsTaint s) (insert_clean t)
  unfolding insert_clean
  insert_clean-KeepsTaint t =
      search (guarantee_rules, order, insert_clean_row-KeepsTaint, inserted-KeepsTaint) depth 8

  insert_untrusted-KeepsTaint :
      (t why : String) → Guarantees (KeepsTaint s) (insert_untrusted t why)
  unfolding insert_untrusted
  insert_untrusted-KeepsTaint t why =
      search (guarantee_rules, order, insert_tainted_row-KeepsTaint, inserted-KeepsTaint) depth 8

  raise_taint-KeepsTaint : (t why : String) → Guarantees (KeepsTaint s) (raise_taint t why)
  unfolding raise_taint
  raise_taint-KeepsTaint t why = search (guarantee_rules, order, raise_row-KeepsTaint) depth 8

-- the tracker's operations
pub data Call : Type 0 where
  gets inserts_clean : String → Call
  raises inserts_untrusted : String → String → Call

unfoldable pub run_calls :
    List Call → World (List SessionTaint) TaintEvent → World (List SessionTaint) TaintEvent
run_calls [] w = w
run_calls (gets t ∷ calls) w = run_calls calls (get t w).1
run_calls (inserts_clean t ∷ calls) w = run_calls calls (insert_clean t w).1
run_calls (raises t why ∷ calls) w = run_calls calls (raise_taint t why w).1
run_calls (inserts_untrusted t why ∷ calls) w = run_calls calls (insert_untrusted t why w).1

-- tainted, and nobody else lowers the tier
Holds : String → World (List SessionTaint) TaintEvent → Type 0
Holds s w = (is_tainted s w.db ≡ true) × Rely (KeepsTaint s) w.others

step-Holds :
    {A : Type 0} (s : String) (m : Handler A) (w : World (List SessionTaint) TaintEvent)
    → Guarantees (KeepsTaint s) m
    → Holds s w
    → Holds s (m w).1
unfolding Holds
step-Holds s m w g (tainted, rely) =
    (g.at w rely tainted, subst (Rely (KeepsTaint s)) (sym (g.others_kept w)) rely)

run_calls-Holds :
    (s : String) (calls : List Call) (w : World (List SessionTaint) TaintEvent)
    → Holds s w
    → Holds s (run_calls calls w)
unfolding run_calls
run_calls-Holds s [] w h = h
run_calls-Holds s (gets t ∷ calls) w h =
    run_calls-Holds s calls _ (step-Holds s (get t) w (get-KeepsTaint s t) h)
run_calls-Holds s (inserts_clean t ∷ calls) w h =
    run_calls-Holds s calls _ (step-Holds s (insert_clean t) w (insert_clean-KeepsTaint s t) h)
run_calls-Holds s (raises t why ∷ calls) w h =
    run_calls-Holds s calls _
      (step-Holds s (raise_taint t why) w (raise_taint-KeepsTaint s t why) h)
run_calls-Holds s (inserts_untrusted t why ∷ calls) w h =
    run_calls-Holds s calls _
      (step-Holds s (insert_untrusted t why) w (insert_untrusted-KeepsTaint s t why) h)

raise_taint-Holds :
    (s why : String) (w : World (List SessionTaint) TaintEvent)
    → (raise_taint s why w).0 ≡ ok tt
    → Rely (KeepsTaint s) w.others
    → Holds s (raise_taint s why w).1
unfolding raise_taint raise_session_taint Holds ◌>>=◌
raise_taint-Holds s why w raised rely = elim (Bool-cases (w.faults w.calls)) [
  | inl fails ↦ ground (arith, fails, raised)
  | inr works ↦ rw works (upsert-taints s (non_empty why) _ (w.others w.calls w.db), rely)
]

tainted_tier-only : (t : Tier) → tainted_tier t ≡ true → t ≡ tier_tainted
tainted_tier-only tier_clean h = ground (arith, h)
tainted_tier-only tier_tainted h = refl

read-tainted :
    (o : Option SessionTaint)
    → tainted_row o ≡ true
    → (e : Option Error) × (tier_read (found o) ≡ (tier_tainted, e))
unfolding tier_read
read-tainted none h = ground (arith, h)
read-tainted (some r) h = (none, ap (λ t. (t, none)) (tainted_tier-only r.tier h))

get-tainted :
    (s : String) (w : World (List SessionTaint) TaintEvent)
    → Holds s w
    → (e : Option Error) × ((get s w).0 ≡ ok (tier_tainted, e))
unfolding get get_session_taint tier_read Holds ◌>>=◌
get-tainted s w (tainted, rely) = elim (Bool-cases (w.faults w.calls)) [
  | inl fails ↦ (some store_failed, rw fails refl)
  | inr works ↦
      let (e, read) =
        read-tainted (find (has_session s) (w.others w.calls w.db)) (rely w.calls w.db tainted) in
      (e, rw works (ap ok read))
]

-- Once a session's taint was raised, it reads as tainted after any calls of the tracker for any
-- sessions, whichever of them fail and whatever error the read itself has. (The other handlers do not
-- lower a tainted row.)
pub raise_taint-stays :
    (s why : String) (calls : List Call) (w : World (List SessionTaint) TaintEvent)
    → (raise_taint s why w).0 ≡ ok tt
    → Rely (KeepsTaint s) w.others
    → let after = run_calls calls (raise_taint s why w).1 in
      (e : Option Error) × ((get s after).0 ≡ ok (tier_tainted, e))
raise_taint-stays s why calls w raised rely =
    get-tainted s _ (run_calls-Holds s calls _ (raise_taint-Holds s why w raised rely))

-- A session without a row reads as tainted, and so does one whose row cannot be read; only a row of the
-- session that says clean reads as clean. (No other handler.)
pub get-clean :
    (s : String) (faults : ℕ → Bool) (clock : ℕ → ℕ) (calls : ℕ) (ledger : List TaintEvent)
    (d : List SessionTaint) (e : Option Error)
    → (get s (alone faults clock calls ledger d)).0 ≡ ok (tier_clean, e)
    → (faults calls ≡ false)
      × ((r : SessionTaint) × (find (has_session s) d ≡ some r) × (r.tier ≡ tier_clean))
unfolding get get_session_taint tier_read ◌>>=◌
get-clean s faults clock calls ledger d e read = elim (Bool-cases (faults calls)) [
  | inl fails ↦ ground (arith, fails, read)
  | inr works ↦ elim (Option-cases (find (has_session s) d)) [
    | inl missing ↦ ground (arith, works, missing, read)
    | inr (r, hit) ↦ (works, (r, hit, ground (arith, works, hit, read)))
  ]
]
