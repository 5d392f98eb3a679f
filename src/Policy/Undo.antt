-- ===== src/Policy/Undo.antt =====
-- The undo windows of kahyad/internal/policy/engine.go: a W1 action may be undone for a while.
use kahya.Base.{
  ℕ, suc, ◌+◌, String, Bool, false, Option, none, some, List, [], ◌∷◌, leb, ltb, if◌then◌else◌,
}
use kahya.Base.Exec.{
  Result, Error, ok, err, pure, raise, log, now, caught, no_open_undo_window, ◌>>=◌, ◌>>◌,
}
use kahya.Task.Rows.{ActionClass, class_unset}
use kahya.Policy.Rows.{
  UndoWindow, undo_expired, undo_triggered as state_triggered, undo_window_opened,
  undo_window_expired, undo_triggered, undo_expiry_hook, Handler, Engine,
}
use kahya.Policy.Queries.{
  get_open_undo_window_by_task_tool_trace, get_open_undo_window_by_trace, list_open_undo_windows,
  insert_undo_window, set_undo_window_state,
}
use kahya.Policy.Ladder.{demote, default_scope}

-- the sweep skips a window that `now.Before(deadline)`, and one whose deadline does not parse
abbrev pub is_due : ℕ → Option ℕ → Bool
is_due at none = false
is_due at (some deadline) = leb deadline at

unfoldable pub expire : UndoWindow → Handler (Unit {0})
expire w = do
  set_undo_window_state undo_expired w.id
  log (undo_window_expired w.task_id w.tool)
  log (undo_expiry_hook w.trace_id w.task_id w.tool)

abbrev pub count_ok : ℕ → Result (Unit {0}) → ℕ
count_ok n (ok _) = suc n
count_ok n (err _) = n

unfoldable pub sweep : ℕ → List UndoWindow → ℕ → Handler ℕ
sweep at [] n = pure n
sweep at (w ∷ rows) n =
    let skip = sweep at rows n in
    if is_due at w.deadline then (do r ← caught (expire w); sweep at rows (count_ok n r)) else skip

unfoldable pub sweep_expired_undo_windows : Handler ℕ
sweep_expired_undo_windows = do rows ← list_open_undo_windows; at ← now; sweep at rows 0

-- TriggerUndo lets a window whose deadline does not parse be undone
abbrev pub is_past : ℕ → Option ℕ → Bool
is_past at none = false
is_past at (some deadline) = ltb deadline at

abbrev pub class_or_unset : Option ActionClass → ActionClass
class_or_unset none = class_unset
class_or_unset (some k) = k

module _ (e : Engine) where
  unfoldable pub open_if_none : String → String → String → Result UndoWindow → Handler (Unit {0})
  open_if_none task_id tool trace_id (ok _) = pure tt
  open_if_none task_id tool trace_id (err Error.no_rows) = do
    at ← now
    insert_undo_window task_id tool trace_id at (at + e.undo_window_duration)
    log (undo_window_opened task_id tool)
  open_if_none task_id tool trace_id (err x) = raise x

  unfoldable pub open_undo_window : String → String → String → Handler (Unit {0})
  open_undo_window task_id tool trace_id = do
    r ← caught (get_open_undo_window_by_task_tool_trace task_id tool trace_id)
    open_if_none task_id tool trace_id r

  unfoldable pub undo_row_at : String → ℕ → UndoWindow → Handler UndoWindow
  undo_row_at trace_id at w =
      if is_past at w.deadline
      then (do
        caught (set_undo_window_state undo_expired w.id)
        log (undo_window_expired w.task_id w.tool)
        log (undo_expiry_hook trace_id w.task_id w.tool)
        raise no_open_undo_window)
      else (do
        set_undo_window_state state_triggered w.id
        log (undo_triggered w.task_id w.tool)
        demote w.tool (class_or_unset (e.tools_by_name w.tool)) default_scope
        pure w)

  unfoldable pub undo_of : String → Result UndoWindow → Handler UndoWindow
  undo_of trace_id (ok w) = do at ← now; undo_row_at trace_id at w
  undo_of trace_id (err Error.no_rows) = raise no_open_undo_window
  undo_of trace_id (err x) = raise x

  unfoldable pub trigger_undo : String → Handler UndoWindow
  trigger_undo trace_id = do r ← caught (get_open_undo_window_by_trace trace_id); undo_of trace_id r
