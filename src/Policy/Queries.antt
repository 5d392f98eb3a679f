-- ===== src/Policy/Queries.antt =====
-- The generated queries on the policy tables (kahyad/internal/store/sqlcgen/queries.sql.go), each one
-- statement that may fail. A row that breaks a constraint is refused.
use kahya.Base.{
  ℕ, suc, String, Bool, true, false, ◌&&◌, ◌||◌, Option, none, some, List, [], ◌∷◌, ◌++◌, ◌==◌,
  if◌then◌else◌, ltb, leb, eqb,
}
use kahya.Base.Table.{find, select, order_by, update_where, count_where}
use kahya.Base.Exec.{ok, err, store_failed, query, one}
use kahya.Task.Rows.{ActionClass}
use kahya.Policy.Rows.{
  class_eq, is_valid_class, AutonomyState, ApprovalToken, PendingApproval, UndoWindow, UndoState,
  undo_open, is_undo_open, Handler,
}

abbrev pub is_null : Option ℕ → Bool
is_null none = true
is_null (some _) = false

-- autonomy_state: PRIMARY KEY (tool, class, scope), and the CHECK constraints
abbrev pub has_triple : String → ActionClass → String → AutonomyState → Bool
has_triple tool k scope s = (s.tool == tool) && (class_eq s.class k && (s.scope == scope))

unfoldable pub get_autonomy_state : String → ActionClass → String → Handler AutonomyState
get_autonomy_state tool k scope = query λ d. one (find (has_triple tool k scope) d.autonomy) d

unfoldable pub update_autonomy_state : String → ActionClass → String → ℕ → ℕ → ℕ → Handler ℕ
update_autonomy_state tool k scope level approvals at = query λ d.
    let affected = count_where (has_triple tool k scope) d.autonomy in
    if eqb affected 0 || leb level 4
    then (
      ok affected,
      record d {
        autonomy =
            update_where (has_triple tool k scope)
              (λ s. record s {
                level = level;
                consecutive_approvals = approvals;
                updated_at = some at;
              })
              d.autonomy;
      },
    )
    else (err store_failed, d)

unfoldable pub insert_autonomy_state : AutonomyState → Handler (Unit {0})
insert_autonomy_state s = query λ d.
    if is_valid_class s.class
      && (leb s.level 4 && eqb (count_where (has_triple s.tool s.class s.scope) d.autonomy) 0)
    then (ok tt, record d { autonomy = d.autonomy ++ s ∷ [] })
    else (err store_failed, d)

abbrev pub has_hash : String → ApprovalToken → Bool
has_hash hash t = t.token_hash == hash

abbrev pub is_live_token : String → ApprovalToken → Bool
is_live_token hash t = (t.token_hash == hash) && is_null t.consumed_at

unfoldable pub insert_approval_token : ApprovalToken → Handler (Unit {0})
insert_approval_token t = query λ d.
    if is_valid_class t.class && eqb (count_where (has_hash t.token_hash) d.tokens) 0
    then (ok tt, record d { tokens = d.tokens ++ t ∷ [] })
    else (err store_failed, d)

unfoldable pub get_approval_token : String → Handler ApprovalToken
get_approval_token hash = query λ d. one (find (has_hash hash) d.tokens) d

abbrev pub consume_token_row : ℕ → ApprovalToken → ApprovalToken
consume_token_row at t = record t { consumed_at = some at }

-- UPDATE ... WHERE token_hash = ? AND consumed_at IS NULL, with rows affected
unfoldable pub consume_approval_token : ℕ → String → Handler ℕ
consume_approval_token at hash = query λ d. (
  ok (count_where (is_live_token hash) d.tokens),
  record d { tokens = update_where (is_live_token hash) (consume_token_row at) d.tokens },
)

abbrev pub is_live_token_of : String → ApprovalToken → Bool
is_live_token_of task_id t = (t.task_id == task_id) && is_null t.consumed_at

unfoldable pub revoke_approval_tokens_by_task : ℕ → String → Handler ℕ
revoke_approval_tokens_by_task at task_id = query λ d. (
  ok (count_where (is_live_token_of task_id) d.tokens),
  record d {
    tokens =
        update_where (is_live_token_of task_id)
          (λ t. record t { consumed_at = some at; revoked_at = some at }) d.tokens;
  },
)

abbrev pub has_pending_id : String → PendingApproval → Bool
has_pending_id id p = p.id == id

abbrev pub is_live_pending : String → PendingApproval → Bool
is_live_pending id p = (p.id == id) && is_null p.consumed_at

unfoldable pub insert_pending_approval : PendingApproval → Handler (Unit {0})
insert_pending_approval p = query λ d.
    if is_valid_class p.class && eqb (count_where (has_pending_id p.id) d.pending) 0
    then (ok tt, record d { pending = d.pending ++ p ∷ [] })
    else (err store_failed, d)

unfoldable pub get_pending_approval : String → Handler PendingApproval
get_pending_approval id = query λ d. one (find (has_pending_id id) d.pending) d

abbrev pub consume_pending_row : ℕ → PendingApproval → PendingApproval
consume_pending_row at p = record p { consumed_at = some at }

-- UPDATE ... WHERE id = ? AND consumed_at IS NULL, with rows affected
unfoldable pub consume_pending_approval : ℕ → String → Handler ℕ
consume_pending_approval at id = query λ d. (
  ok (count_where (is_live_pending id) d.pending),
  record d { pending = update_where (is_live_pending id) (consume_pending_row at) d.pending },
)

abbrev pub time_or_zero : Option ℕ → ℕ
time_or_zero none = 0
time_or_zero (some at) = at

abbrev pub minted_before : PendingApproval → PendingApproval → Bool
minted_before p q = ltb (time_or_zero p.minted_at) (time_or_zero q.minted_at)

abbrev pub is_live_pending_of : String → PendingApproval → Bool
is_live_pending_of task_id p = (p.task_id == task_id) && is_null p.consumed_at

unfoldable pub list_unconsumed_pending_approvals : Handler (List PendingApproval)
list_unconsumed_pending_approvals =
    query λ d. (ok (order_by minted_before (select (λ p. is_null p.consumed_at) d.pending)), d)

unfoldable pub list_unconsumed_pending_approvals_by_task : String → Handler (List PendingApproval)
list_unconsumed_pending_approvals_by_task task_id =
    query λ d. (ok (order_by minted_before (select (is_live_pending_of task_id) d.pending)), d)

abbrev opened_after : UndoWindow → UndoWindow → Bool
opened_after v w = ltb w.opened_at v.opened_at

abbrev pub is_open_of : String → UndoWindow → Bool
is_open_of trace_id w = (w.trace_id == trace_id) && is_undo_open w.state

abbrev pub is_open_for : String → String → String → UndoWindow → Bool
is_open_for task_id tool trace_id w =
    (w.task_id == task_id)
    && ((w.tool == tool) && ((w.trace_id == trace_id) && is_undo_open w.state))

abbrev pub first_of : List UndoWindow → Option UndoWindow
first_of [] = none
first_of (w ∷ _) = some w

unfoldable pub get_open_undo_window_by_trace : String → Handler UndoWindow
get_open_undo_window_by_trace trace_id =
    query
      λ d. one (first_of (order_by opened_after (select (is_open_of trace_id) d.undo_windows))) d

unfoldable pub get_open_undo_window_by_task_tool_trace :
    String → String → String → Handler UndoWindow
get_open_undo_window_by_task_tool_trace task_id tool trace_id = query λ d.
    one
      (first_of (order_by opened_after (select (is_open_for task_id tool trace_id) d.undo_windows)))
      d

unfoldable pub list_open_undo_windows : Handler (List UndoWindow)
list_open_undo_windows = query λ d. (ok (select (λ w. is_undo_open w.state) d.undo_windows), d)

abbrev pub has_undo_id : ℕ → UndoWindow → Bool
has_undo_id id w = eqb w.id id

unfoldable pub set_undo_window_state : UndoState → ℕ → Handler (Unit {0})
set_undo_window_state s id = query λ d. (
  ok tt,
  record d {
    undo_windows = update_where (has_undo_id id) (λ w. record w { state = s }) d.undo_windows;
  },
)

abbrev pub undo_row : ℕ → String → String → String → ℕ → ℕ → UndoWindow
undo_row id task_id tool trace_id opened deadline = record {
  id = id;
  task_id = task_id;
  tool = tool;
  trace_id = trace_id;
  opened_at = opened;
  deadline = some deadline;
  state = undo_open;
}

unfoldable pub insert_undo_window : String → String → String → ℕ → ℕ → Handler UndoWindow
insert_undo_window task_id tool trace_id opened deadline = query λ d.
    let w = undo_row d.next_undo_id task_id tool trace_id opened deadline in
    (ok w, record d { undo_windows = d.undo_windows ++ w ∷ []; next_undo_id = suc d.next_undo_id })
