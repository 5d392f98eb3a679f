-- ===== src/Policy/Spent/Checks.antt =====
-- Engine.Check keeps spent tokens and decided approvals.
use kahya.Base.{ℕ, String, Option, none, some}
use kahya.Base.Exec.{Result, Error, ok, err}
use kahya.Base.Guarantee.{Guarantees}
use kahya.Task.Rows.{ActionClass}
use kahya.Policy.Rows.{Engine, CheckInput, Decision, Reason, TaintTier, AutonomyState}
use kahya.Policy.Check.{
  decide, decide_asked, decide_allowed, note_read_error, ask, auto_token, auto_allow, on_level,
  on_state, on_ladder, unless_tainted, on_session, with_resolver, with_taint_checker, check_known,
  check,
}
use kahya.Policy.Spent.{Keeps}
use kahya.Policy.Spent.Statements.{keeps_rules}
use kahya.Policy.Spent.Handlers.{handler_rules}

decide-Keeps : (i : CheckInput) (d : Decision) (x : Option Error) → Guarantees Keeps (decide i d x)
unfolding decide
decide-Keeps i d x = search keeps_rules

note_read-Keeps :
    (session : String) (x : Option Error) → Guarantees Keeps (note_read_error session x)
unfolding note_read_error
note_read-Keeps session none = search keeps_rules
note_read-Keeps session (some x) = search keeps_rules

module _ (e : Engine) (i : CheckInput) (k : ActionClass) (scope : String) where
  decide_asked-Keeps :
      (level : ℕ) (why : Reason) (r : Result String)
      → Guarantees Keeps (decide_asked i k scope level why r)
  unfolding decide_asked
  decide_asked-Keeps level why (ok id) = search decide-Keeps
  decide_asked-Keeps level why (err x) = search decide-Keeps

  decide_allowed-Keeps :
      (level : ℕ) (r : Result (Option String)) → Guarantees Keeps (decide_allowed i k scope level r)
  unfolding decide_allowed
  decide_allowed-Keeps level (ok token) = search decide-Keeps
  decide_allowed-Keeps level (err x) = search decide-Keeps

  ask-Keeps : (level : ℕ) (why : Reason) → Guarantees Keeps (ask e i k scope level why)
  unfolding ask
  ask-Keeps level why = search (handler_rules, decide_asked-Keeps) depth 8

  auto_token-Keeps : Guarantees Keeps (auto_token e i k scope)
  unfolding auto_token
  auto_token-Keeps = search handler_rules depth 8

  auto_allow-Keeps : (level : ℕ) → Guarantees Keeps (auto_allow e i k scope level)
  unfolding auto_allow
  auto_allow-Keeps level = search (handler_rules, auto_token-Keeps, decide_allowed-Keeps) depth 8

  on_level-Keeps : (level : ℕ) → Guarantees Keeps (on_level e i k scope level)
  unfolding on_level
  on_level-Keeps level = search (keeps_rules, ask-Keeps, auto_allow-Keeps) depth 8

  on_state-Keeps : (r : Result AutonomyState) → Guarantees Keeps (on_state e i k scope r)
  unfolding on_state
  on_state-Keeps (ok s) = on_level-Keeps s.level
  on_state-Keeps (err x) = search decide-Keeps

  on_ladder-Keeps : Guarantees Keeps (on_ladder e i k scope)
  unfolding on_ladder
  on_ladder-Keeps = search (handler_rules, on_state-Keeps) depth 8

  module _ (tier_of : ℕ → String → TaintTier × Option Error) where
    unless_tainted-Keeps :
        (session : String) → Guarantees Keeps (unless_tainted e tier_of i k scope session)
    unfolding unless_tainted
    unless_tainted-Keeps session =
        search (keeps_rules, note_read-Keeps, decide-Keeps, on_ladder-Keeps) depth 8

    on_session-Keeps : (r : Result String) → Guarantees Keeps (on_session e tier_of i k scope r)
    unfolding on_session
    on_session-Keeps (err x) = search (keeps_rules, decide-Keeps) depth 8
    on_session-Keeps (ok session) = search (keeps_rules, decide-Keeps, unless_tainted-Keeps) depth 8

    with_resolver-Keeps :
        (o : Option (ℕ → String → String → Result String))
        → Guarantees Keeps (with_resolver e tier_of i k scope o)
    unfolding with_resolver
    with_resolver-Keeps none = search (keeps_rules, on_ladder-Keeps, unless_tainted-Keeps) depth 8
    with_resolver-Keeps (some resolve) = search (keeps_rules, on_session-Keeps) depth 8

  with_checker-Keeps :
      (o : Option (ℕ → String → TaintTier × Option Error))
      → Guarantees Keeps (with_taint_checker e i k scope o)
  unfolding with_taint_checker
  with_checker-Keeps none = on_ladder-Keeps
  with_checker-Keeps (some tier_of) =
      search (keeps_rules, on_ladder-Keeps, with_resolver-Keeps) depth 8

check_known-Keeps :
    (e : Engine) (i : CheckInput) (scope : String) (o : Option ActionClass)
    → Guarantees Keeps (check_known e i scope o)
unfolding check_known
check_known-Keeps e i scope none = search decide-Keeps
check_known-Keeps e i scope (some k) = with_checker-Keeps e i k scope e.taint_checker

pub check-Keeps : (e : Engine) (i : CheckInput) → Guarantees Keeps (check e i)
unfolding check
check-Keeps e i = check_known-Keeps e _ _ _
