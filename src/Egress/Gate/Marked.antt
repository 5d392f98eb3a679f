-- ===== src/Egress/Gate/Marked.antt =====
-- A session that read what is secret stays marked, and reaches the allowlist alone.
use kahya.Base.{
  ℕ, zero, suc, String, Bool, true, false, ◌≡◌, refl, sym, subst, Option, none, some, List, [], ◌∷◌,
  arith, ◌==◌, eq_refl,
}
use kahya.Base.Exec.{World, Result, ok, err, ◌>>=◌}
use kahya.Base.Guarantee.{IsPreorder, Rely, Guarantees, Guarantees-query, guarantee_rules}
use kahya.Base.Text.{Text}
use kahya.Egress.Host.{Net, canonicalize_host}
use kahya.Egress.Budget.{
  EgressBudget, EgressDb, EgressEvent, Handler, SessionInfo, Rule, egress_blocked_sensitive, mem,
  mark_in, mark, is_marked, get_egress_budget, insert_new, insert_egress_budget,
  increment_egress_budget, bytes_or_zero, bytes_of, insert_if_none, add,
}
use kahya.Egress.Gate.{
  EgressConfig, Gate, DenyReason, reason_sensitive, new_gate, deny, alarm_if, bytes_if, add_if,
  add_bytes, deny_budget, spend, within_budget, check_matched, check_host, check, note_metered,
  meter_host, meter_usage, mark_sensitive_read, deny_dns_rebind, match_allowlist,
}

abbrev pub KeepsMark : String → EgressDb → EgressDb → Type 0
KeepsMark s d d' = mem s d.marked ≡ true → mem s d'.marked ≡ true

order : (s : String) → IsPreorder (KeepsMark s)
order s = record { same = λ d h. h; chain = λ a b c f g h. g (f h) }

insert_new-KeepsMark :
    (s : String) (n : ℕ) (row : EgressBudget) (d : EgressDb) → KeepsMark s d (insert_new n row d).1
insert_new-KeepsMark s zero row d h = h
insert_new-KeepsMark s (suc n) row d h = h

mark_in-keeps : (s t : String) (d : EgressDb) → KeepsMark s d (mark_in t d)
unfolding mem
mark_in-keeps s t d h = ground (arith, h)

mark_in-marks : (s : String) (d : EgressDb) → (s == "") ≡ false → mem s (mark_in s d).marked ≡ true
unfolding mem
mark_in-marks s d named = ground (arith, named, eq_refl s)

module _ (s : String) where
  get-Guarantees :
      (host : Text) (day : String) → Guarantees (KeepsMark s) (get_egress_budget host day)
  unfolding get_egress_budget
  get-Guarantees host day = Guarantees-query (KeepsMark s) (order s) _ (λ d h. h)

  insert-Guarantees :
      (host : Text) (day : String) (n : ℕ)
      → Guarantees (KeepsMark s) (insert_egress_budget host day n)
  unfolding insert_egress_budget
  insert-Guarantees host day n =
      Guarantees-query (KeepsMark s) (order s) _ (λ d. insert_new-KeepsMark s _ _ d)

  increment-Guarantees :
      (host : Text) (day : String) (n : ℕ)
      → Guarantees (KeepsMark s) (increment_egress_budget n host day)
  unfolding increment_egress_budget
  increment-Guarantees host day n = Guarantees-query (KeepsMark s) (order s) _ (λ d h. h)

  is_marked-Guarantees : (t : String) → Guarantees (KeepsMark s) (is_marked t)
  unfolding is_marked
  is_marked-Guarantees t = record { at = λ w rely h. h; others_kept = λ w. refl }

  mark-Guarantees : (t : String) → Guarantees (KeepsMark s) (mark t)
  unfolding mark
  mark-Guarantees t = record { at = λ w rely. mark_in-keeps s t w.db; others_kept = λ w. refl }

  bytes_or_zero-Guarantees : (r : Result EgressBudget) → Guarantees (KeepsMark s) (bytes_or_zero r)
  unfolding bytes_or_zero
  bytes_or_zero-Guarantees (ok row) = search (guarantee_rules, order)
  bytes_or_zero-Guarantees (err e) = search (guarantee_rules, order)

  bytes_of-Guarantees : (host : Text) (day : String) → Guarantees (KeepsMark s) (bytes_of host day)
  unfolding bytes_of
  bytes_of-Guarantees host day =
      search (guarantee_rules, order, get-Guarantees, bytes_or_zero-Guarantees)

  insert_if_none-Guarantees :
      (host : Text) (day : String) (n rows : ℕ)
      → Guarantees (KeepsMark s) (insert_if_none host day n rows)
  unfolding insert_if_none
  insert_if_none-Guarantees host day n zero = search (guarantee_rules, order, insert-Guarantees)
  insert_if_none-Guarantees host day n (suc m) = bytes_of-Guarantees host day

  add-Guarantees : (host : Text) (day : String) (n : ℕ) → Guarantees (KeepsMark s) (add host day n)
  unfolding add
  add-Guarantees host day n =
      search (guarantee_rules, order, increment-Guarantees, insert_if_none-Guarantees)

  deny-Guarantees :
      (session : SessionInfo) (host : Text) (rule : Rule) (why : DenyReason)
      → Guarantees (KeepsMark s) (deny session host rule why)
  unfolding deny
  deny-Guarantees session host rule why = search (guarantee_rules, order)

  alarm-Guarantees :
      (b : Bool) (session : SessionInfo) (host : Text)
      → Guarantees (KeepsMark s) (alarm_if b session host)
  unfolding alarm_if
  alarm-Guarantees true session host = search (guarantee_rules, order)
  alarm-Guarantees false session host = search (guarantee_rules, order)

  bytes_if-Guarantees :
      (b : Bool) (host : Text) (day : String) → Guarantees (KeepsMark s) (bytes_if b host day)
  unfolding bytes_if
  bytes_if-Guarantees true host day = bytes_of-Guarantees host day
  bytes_if-Guarantees false host day = search (guarantee_rules, order)

  add_if-Guarantees :
      (b : Bool) (host : Text) (day : String) (n : ℕ)
      → Guarantees (KeepsMark s) (add_if b host day n)
  unfolding add_if
  add_if-Guarantees true host day n = search (guarantee_rules, order, add-Guarantees)
  add_if-Guarantees false host day n = search (guarantee_rules, order)

  note_metered-Guarantees :
      (session : SessionInfo) (host : Text) (n : ℕ) (r : Result ℕ)
      → Guarantees (KeepsMark s) (note_metered session host n r)
  unfolding note_metered
  note_metered-Guarantees session host n (ok b) = search (guarantee_rules, order)
  note_metered-Guarantees session host n (err e) = search (guarantee_rules, order)

module _ (s : String) (g : Gate) where
  add_bytes-Guarantees :
      (host : Text) (day : String) (n : ℕ) → Guarantees (KeepsMark s) (add_bytes g host day n)
  unfolding add_bytes
  add_bytes-Guarantees host day zero = search (guarantee_rules, order)
  add_bytes-Guarantees host day (suc n) = add_if-Guarantees s g.has_budget host day (suc n)

  deny_budget-Guarantees :
      (session : SessionInfo) (host : Text) → Guarantees (KeepsMark s) (deny_budget g session host)
  unfolding deny_budget
  deny_budget-Guarantees session host =
      search (guarantee_rules, order, deny-Guarantees, alarm-Guarantees)

  spend-Guarantees :
      (session : SessionInfo) (host : Text) (day : String) (n : ℕ)
      → Guarantees (KeepsMark s) (spend g session host day n)
  unfolding spend
  spend-Guarantees session host day n = search (guarantee_rules, order, add_bytes-Guarantees)

  within_budget-Guarantees :
      (session : SessionInfo) (host : Text) (n : ℕ)
      → Guarantees (KeepsMark s) (within_budget g session host n)
  unfolding within_budget
  within_budget-Guarantees session host n =
      search (guarantee_rules, order, bytes_if-Guarantees, deny_budget-Guarantees, spend-Guarantees)

  matched-Guarantees :
      (session : SessionInfo) (host : Text) (n : ℕ) (marked matched : Bool)
      → Guarantees (KeepsMark s) (check_matched g session host n marked matched)
  unfolding check_matched
  matched-Guarantees session host n true false = deny-Guarantees s session host _ _
  matched-Guarantees session host n false false = deny-Guarantees s session host _ _
  matched-Guarantees session host n true true = within_budget-Guarantees session host n
  matched-Guarantees session host n false true = within_budget-Guarantees session host n

  host-Guarantees :
      (session : SessionInfo) (raw : Text) (port n : ℕ) (o : Option Text)
      → Guarantees (KeepsMark s) (check_host g session raw port n o)
  unfolding check_host
  host-Guarantees session raw port n none = deny-Guarantees s session raw _ _
  host-Guarantees session raw port n (some host) =
      search (guarantee_rules, order, is_marked-Guarantees, matched-Guarantees)

  meter_host-Guarantees :
      (session : SessionInfo) (n : ℕ) (o : Option Text)
      → Guarantees (KeepsMark s) (meter_host g session n o)
  unfolding meter_host
  meter_host-Guarantees session n none = search (guarantee_rules, order)
  meter_host-Guarantees session n (some host) =
      search (guarantee_rules, order, add-Guarantees, note_metered-Guarantees) depth 8

  meter-Guarantees :
      (raw : Text) (n : ℕ) (session : SessionInfo)
      → Guarantees (KeepsMark s) (meter_usage g raw n session)
  unfolding meter_usage
  meter-Guarantees raw zero session = search (guarantee_rules, order)
  meter-Guarantees raw (suc n) session = meter_host-Guarantees session (suc n) _

  marks-Guarantees :
      (session : SessionInfo) → Guarantees (KeepsMark s) (mark_sensitive_read g session)
  unfolding mark_sensitive_read
  marks-Guarantees session = search (guarantee_rules, order, mark-Guarantees) depth 8

-- the entry points of the gate
pub data Act : Type 0 where
  checks_host : Text → ℕ → ℕ → SessionInfo → Act
  meters : Text → ℕ → SessionInfo → Act
  marks : SessionInfo → Act
  denies_rebind : Text → SessionInfo → Act

unfoldable pub run_act : Gate → Act → World EgressDb EgressEvent → World EgressDb EgressEvent
run_act g (checks_host raw port n session) w = (check g raw port n session w).1
run_act g (meters raw n session) w = (meter_usage g raw n session w).1
run_act g (marks session) w = (mark_sensitive_read g session w).1
run_act g (denies_rebind host session) w = (deny_dns_rebind g host session w).1

unfoldable pub run_acts : Gate → List Act → World EgressDb EgressEvent → World EgressDb EgressEvent
run_acts g [] w = w
run_acts g (a ∷ acts) w = run_acts g acts (run_act g a w)

-- marked, and nobody else takes a mark away
Holds : String → World EgressDb EgressEvent → Type 0
Holds s w = (mem s w.db.marked ≡ true) × Rely (KeepsMark s) w.others

step-Holds :
    {A : Type 0} (s : String) (m : Handler A) (w : World EgressDb EgressEvent)
    → Guarantees (KeepsMark s) m
    → Holds s w
    → Holds s (m w).1
unfolding Holds
step-Holds s m w g (marked, rely) =
    (g.at w rely marked, subst (Rely (KeepsMark s)) (sym (g.others_kept w)) rely)

run_act-Holds :
    (s : String) (g : Gate) (a : Act) (w : World EgressDb EgressEvent)
    → Holds s w
    → Holds s (run_act g a w)
unfolding run_act check deny_dns_rebind
run_act-Holds s g (checks_host raw port n session) w h =
    step-Holds s _ w (host-Guarantees s g session raw port n (canonicalize_host g.net raw)) h
run_act-Holds s g (meters raw n session) w h =
    step-Holds s _ w (meter-Guarantees s g raw n session) h
run_act-Holds s g (marks session) w h = step-Holds s _ w (marks-Guarantees s g session) h
run_act-Holds s g (denies_rebind host session) w h =
    step-Holds s _ w (deny-Guarantees s session host _ _) h

run_acts-Holds :
    (s : String) (g : Gate) (acts : List Act) (w : World EgressDb EgressEvent)
    → Holds s w
    → Holds s (run_acts g acts w)
unfolding run_acts
run_acts-Holds s g [] w h = h
run_acts-Holds s g (a ∷ acts) w h = run_acts-Holds s g acts _ (run_act-Holds s g a w h)

module _ (net : Net) (cfg : EgressConfig) (hb hn : Bool) (day_of : ℕ → String)
    (session : SessionInfo) (named : (session.session_id == "") ≡ false) where
  mark-Holds :
      (w : World EgressDb EgressEvent)
      → Rely (KeepsMark session.session_id) w.others
      → Holds session.session_id
          (mark_sensitive_read (new_gate net cfg true hb hn day_of) session w).1
  unfolding mark_sensitive_read mark new_gate Holds ◌>>=◌
  mark-Holds w rely = rw named (mark_in-marks session.session_id w.db named, rely)

  check-marked :
      (raw host : Text) (port nbytes : ℕ) (w : World EgressDb EgressEvent)
      → canonicalize_host net raw ≡ some host
      → match_allowlist (new_gate net cfg true hb hn day_of) host port ≡ false
      → mem session.session_id w.db.marked ≡ true
      → (check (new_gate net cfg true hb hn day_of) raw port nbytes session w).0
        ≡ ok (record {
          allow = false;
          deny_reason = reason_sensitive host;
          rule = egress_blocked_sensitive;
        })
  unfolding check check_host is_marked check_matched deny new_gate ◌>>=◌
  check-marked raw host port nbytes w spelt missed marked = rw (spelt, named, marked, missed) refl

-- Once a session is marked as having read what is secret, a request of it to a host that the allowlist
-- does not have is denied as a sensitive one, whatever requests, metering, marks and rebinding denials,
-- of whatever sessions, came between, and whichever calls failed. (The gate has a tracker; the session has
-- a name; nobody else takes a mark away.)
pub marked-denied :
    (net : Net) (cfg : EgressConfig) (has_budget has_notifier : Bool) (day_of : ℕ → String)
    (session : SessionInfo) (acts : List Act) (raw host : Text) (port nbytes : ℕ)
    (w : World EgressDb EgressEvent)
    → (session.session_id == "") ≡ false
    → Rely (KeepsMark session.session_id) w.others
    → canonicalize_host net raw ≡ some host
    → let g = new_gate net cfg true has_budget has_notifier day_of in
      match_allowlist g host port ≡ false
      → let after = run_acts g acts (mark_sensitive_read g session w).1 in
        (check g raw port nbytes session after).0
        ≡ ok (record {
          allow = false;
          deny_reason = reason_sensitive host;
          rule = egress_blocked_sensitive;
        })
unfolding Holds
marked-denied net cfg hb hn day_of session acts raw host port nbytes w named rely spelt missed =
    let g = new_gate net cfg true hb hn day_of in
    let start = mark-Holds net cfg hb hn day_of session named w rely in
    let still = run_acts-Holds session.session_id g acts _ start in
    check-marked net cfg hb hn day_of session named raw host port nbytes _ spelt missed still.0
