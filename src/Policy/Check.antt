-- ===== src/Policy/Check.antt =====
-- Engine.Check of kahyad/internal/policy/engine.go: allow, ask, or deny one tool call.
pub mod Sound
pub mod Tainted
use text.Mathlib.Text.{starts_with, find?}
use Prim.Native.String.{slice, len}
use kahya.Base.{
  ℕ, zero, suc, ◌+◌, String, Bool, true, false, Option, none, some, leb, if◌then◌else◌, ◌==◌,
}
use kahya.Base.Exec.{
  World, Result, Error, ok, err, pure, raise, log, now, position, caught, ◌>>=◌, ◌>>◌,
}
use kahya.Task.Rows.{ActionClass, is_class_r, class_unset}
use kahya.Policy.Rows.{
  is_class_w3, CheckInput, Decision, Answer, Reason, no_reason, unknown_tool, needs_approval_level,
  w3_always_approval, policy_state_error, tainted_session, ladder_v1, tainted_session_v1,
  AutonomyState, TaintTier, tier_clean, tier_tainted, Event, policy_decision, session_resolve_error,
  taint_check_read_error, Handler, Engine,
}
use kahya.Policy.Ladder.{auto_level_for, normalize_scope, load_state}
use kahya.Policy.Tokens.{mint_token}
use kahya.Policy.Approvals.{mint_pending_approval, try_open_undo}

-- Canonicalize: "mcp__<server>__<tool>" is "<tool>"
unfoldable pub canonicalize : String → String
canonicalize name =
    if starts_with name "mcp__"
    then (elim (find? (slice name 5 (len name)) "__") [
      | none ↦ name
      | some i ↦ slice name (i + 7) (len name)
    ])
    else name

abbrev pub denied : Reason → ActionClass → String → ℕ → Decision
denied reason k scope level = record {
  result = Answer.deny;
  reason = reason;
  rule = elim reason [ tainted_session ↦ tainted_session_v1 | _ ↦ ladder_v1 ];
  class = k;
  scope = scope;
  level = level;
  pending_approval_id = none;
  token = none;
}

abbrev pub allowed : ActionClass → String → ℕ → Option String → Decision
allowed k scope level token = record (denied no_reason k scope level) {
  result = Answer.allow;
  token = token;
}

abbrev pub asked : Reason → ActionClass → String → ℕ → String → Decision
asked reason k scope level id = record (denied reason k scope level) {
  result = Answer.needs_approval;
  pending_approval_id = some id;
}

-- a decision, its error if it has one, and the event that records it
unfoldable pub decide : CheckInput → Decision → Option Error → Handler (Decision × Option Error)
decide i d x = do log (policy_decision i.tool d.level d); pure (d, x)

unfoldable pub decide_asked :
    CheckInput
    → ActionClass
    → String
    → ℕ
    → Reason
    → Result String
    → Handler (Decision × Option Error)
decide_asked i k scope level why (ok id) = decide i (asked why k scope level id) none
decide_asked i k scope level _ (err x) = decide i (denied policy_state_error k scope level) (some x)

unfoldable pub decide_allowed :
    CheckInput
    → ActionClass
    → String
    → ℕ
    → Result (Option String)
    → Handler (Decision × Option Error)
decide_allowed i k scope level (ok token) = decide i (allowed k scope level token) none
decide_allowed i k scope level (err x) = decide i (denied policy_state_error k scope level) (some x)

abbrev pub is_tainted : TaintTier → Bool
is_tainted tier_tainted = true
is_tainted tier_clean = false

unfoldable pub note_read_error : String → Option Error → Handler (Unit {0})
note_read_error session none = pure tt
note_read_error session (some _) = log (taint_check_read_error session)

-- A class with no automatic level has threshold 0 in the source, which never reads it for W3.
abbrev pub threshold : ActionClass → ℕ
threshold k = elim (auto_level_for k) [ none ↦ 0 | some n ↦ n ]

module _ (e : Engine) where
  unfoldable pub ask :
      CheckInput → ActionClass → String → ℕ → Reason → Handler (Decision × Option Error)
  ask i k scope level reason = do
    r ← caught (
        mint_pending_approval e i.task_id i.trace_id i.tool k scope (e.bytes_hash i.tool_input)
          i.tool_input)
    decide_asked i k scope level reason r

  -- the token of an automatic call that is not of class R, and the undo window of a W1 call
  unfoldable pub auto_token : CheckInput → ActionClass → String → Handler (Option String)
  auto_token i k scope = if is_class_r k then pure none else (do
    token ← mint_token e i.task_id i.trace_id i.tool k scope (e.bytes_hash i.tool_input)
    try_open_undo e k i.task_id i.tool i.trace_id
    pure (some token))

  unfoldable pub auto_allow :
      CheckInput → ActionClass → String → ℕ → Handler (Decision × Option Error)
  auto_allow i k scope level = do
    r ← caught (auto_token i k scope)
    decide_allowed i k scope level r

  unfoldable pub on_level :
      CheckInput → ActionClass → String → ℕ → Handler (Decision × Option Error)
  on_level i k scope level =
      if is_class_w3 k
      then ask i k scope level w3_always_approval
      else if leb (threshold k) level
      then auto_allow i k scope level
      else ask i k scope level needs_approval_level

  unfoldable pub on_state :
      CheckInput → ActionClass → String → Result AutonomyState → Handler (Decision × Option Error)
  on_state i k scope (ok s) = on_level i k scope s.level
  on_state i k scope (err x) = decide i (denied policy_state_error k scope 0) (some x)

  unfoldable pub on_ladder : CheckInput → ActionClass → String → Handler (Decision × Option Error)
  on_ladder i k scope = do r ← caught (load_state i.tool k scope); on_state i k scope r

  -- denyIfTainted, with the rest of Check behind it
  unfoldable pub unless_tainted :
      (ℕ → String → TaintTier × Option Error)
      → CheckInput
      → ActionClass
      → String
      → String
      → Handler (Decision × Option Error)
  unless_tainted tier_of i k scope session = do
    n ← position
    note_read_error session (tier_of n session).1
    if is_tainted (tier_of n session).0
        then decide i (denied tainted_session k scope 0) none
        else on_ladder i k scope

  -- a session that does not resolve is denied as a tainted one
  unfoldable pub on_session :
      (ℕ → String → TaintTier × Option Error)
      → CheckInput
      → ActionClass
      → String
      → Result String
      → Handler (Decision × Option Error)
  on_session tier_of i k scope (err x) = do
    log (session_resolve_error i.task_id)
    decide i (denied tainted_session k scope 0) none
  on_session tier_of i k scope (ok session) =
      if session == ""
      then decide i (denied tainted_session k scope 0) none
      else unless_tainted tier_of i k scope session

  -- with no resolver the session of the call's own input is trusted, if it names one
  unfoldable pub with_resolver :
      (ℕ → String → TaintTier × Option Error)
      → CheckInput
      → ActionClass
      → String
      → Option (ℕ → String → String → Result String)
      → Handler (Decision × Option Error)
  with_resolver tier_of i k scope none =
      if i.session_id == ""
      then on_ladder i k scope
      else unless_tainted tier_of i k scope i.session_id
  with_resolver tier_of i k scope (some resolve) = do
    n ← position
    on_session tier_of i k scope (resolve n i.trace_id i.task_id)

  unfoldable pub with_taint_checker :
      CheckInput
      → ActionClass
      → String
      → Option (ℕ → String → TaintTier × Option Error)
      → Handler (Decision × Option Error)
  with_taint_checker i k scope none = on_ladder i k scope
  with_taint_checker i k scope (some tier_of) =
      if is_class_r k
      then on_ladder i k scope
      else with_resolver tier_of i k scope e.session_resolver

  unfoldable pub check_known :
      CheckInput → String → Option ActionClass → Handler (Decision × Option Error)
  check_known i scope none = decide i (denied unknown_tool class_unset scope 0) none
  check_known i scope (some k) = with_taint_checker i k scope e.taint_checker

  -- Engine.Check
  unfoldable pub check : CheckInput → Handler (Decision × Option Error)
  check in_ =
      let i = record in_ { tool = canonicalize in_.tool } in
      check_known i (normalize_scope i.scope) (e.tools_by_name i.tool)
