-- ===== src/Policy/Ladder.antt =====
-- The ladder of kahyad/internal/policy/engine.go: the level of a (tool, class, scope), which only a
-- promotion raises, one rung at a time.
pub mod Rungs
use kahya.Base.{
  ℕ, suc, ◌+◌, ◌-◌, String, Bool, true, false, Option, none, some, List, [], ◌∷◌, leb, ltb, eqb,
  if◌then◌else◌, ◌==◌,
}
use kahya.Base.Exec.{
  World, Result, Error, ok, err, pure, raise, log, now, caught, unknown_tool as unknown_tool_error,
  invalid_class, ◌>>=◌, ◌>>◌,
}
use kahya.Task.Rows.{ActionClass, class_r, class_w1, class_w2}
use kahya.Policy.Rows.{
  is_valid_class, AutonomyState, PolicyDb, Event, demoted, promoted, Handler, Engine,
}
use kahya.Policy.Queries.{get_autonomy_state, update_autonomy_state, insert_autonomy_state}

-- autoLevelFor: the level from which a class is automatic; `none` where its `ok` is false
abbrev pub auto_level_for : ActionClass → Option ℕ
auto_level_for class_r = some 1
auto_level_for class_w1 = some 2
auto_level_for class_w2 = some 3
auto_level_for _ = none

abbrev pub default_scope : String
default_scope = "global"

abbrev pub normalize_scope : String → String
normalize_scope scope = if scope == "" then default_scope else scope

abbrev pub state_row : String → ActionClass → String → ℕ → ℕ → Option ℕ → AutonomyState
state_row tool k scope level approvals at = record {
  tool = tool;
  class = k;
  scope = scope;
  level = level;
  consecutive_approvals = approvals;
  updated_at = at;
}

-- a missing row is level 0 with no approval
unfoldable pub state_or_zero :
    String → ActionClass → String → Result AutonomyState → Handler AutonomyState
state_or_zero tool k scope (ok s) = pure s
state_or_zero tool k scope (err Error.no_rows) = pure (state_row tool k scope 0 0 none)
state_or_zero tool k scope (err e) = raise e

unfoldable pub load_state : String → ActionClass → String → Handler AutonomyState
load_state tool k scope = do
  r ← caught (get_autonomy_state tool k scope)
  state_or_zero tool k scope r

unfoldable pub save_state : String → ActionClass → String → ℕ → ℕ → Handler (Unit {0})
save_state tool k scope level approvals = do
  at ← now
  n ← update_autonomy_state tool k scope level approvals at
  if eqb n 0
      then insert_autonomy_state (state_row tool k scope level approvals (some at))
      else pure tt

-- a demotion's failures are dropped; `from - 1` stops at 0, as the source's clamp does
unfoldable pub demote : String → ActionClass → String → Handler (Unit {0})
demote tool k scope = do
  caught (do
    s ← load_state tool k scope
    save_state tool k scope (s.level - 1) 0
    log (demoted tool k scope s.level (s.level - 1)))
  pure tt

abbrev pub next_level : ℕ → ℕ
next_level from = if ltb 4 (from + 1) then 4 else from + 1

unfoldable pub raise_level : String → ActionClass → String → Handler ℕ
raise_level tool k scope = do
  s ← load_state tool k scope
  save_state tool k scope (next_level s.level) 0
  log (promoted tool k scope s.level (next_level s.level))
  pure (next_level s.level)

unfoldable pub promote_known : String → ActionClass → String → Option ActionClass → Handler ℕ
promote_known tool k scope none = raise unknown_tool_error
promote_known tool k scope (some _) =
    if is_valid_class k then raise_level tool k (normalize_scope scope) else raise invalid_class

-- Engine.Promote
unfoldable pub promote : Engine → String → ActionClass → String → Handler ℕ
promote e tool k scope = promote_known tool k scope (e.tools_by_name tool)
