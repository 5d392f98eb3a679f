-- ===== src/Task/Queries.antt =====
-- The generated queries on `tasks`, `tool_calls` and `outbox`
-- (kahyad/internal/store/sqlcgen/queries.sql.go), each one statement that may fail.
use kahya.Base.{
  ℕ, zero, suc, not, eqb, ◌+◌, String, Bool, true, false, ◌&&◌, ◌||◌, Option, none, some, List, [],
  ◌∷◌, ◌++◌, ◌==◌, if◌then◌else◌, ltb, leb,
}
use kahya.Base.Table.{find, select, update_where, count_where}
use kahya.Base.Exec.{Result, ok, err, unique_violation, query, one}
use kahya.Task.Rows.{
  Status, status_eq, done, failed, user_halted, CallStatus, call_intent, call_executing,
  call_receipt, call_failed, ActionClass, Task, ToolCall, OutboxRow, Db, Handler,
}

abbrev pub has_id : String → Task → Bool
has_id id t = t.id == id

abbrev pub has_id_status : String → Status → Task → Bool
has_id_status id from t = (t.id == id) && status_eq t.status from

unfoldable pub get_task_by_id : String → Handler Task
get_task_by_id id = query λ d. one (find (has_id id) d.tasks) d

-- UPDATE tasks SET status WHERE id = ? AND status = ?: the compare-and-set, with rows affected
unfoldable pub set_task_status : Status → String → Status → Handler ℕ
set_task_status to id from = query λ d. (
  ok (count_where (has_id_status id from) d.tasks),
  record d { tasks = update_where (has_id_status id from) (λ t. record t { status = to }) d.tasks },
)

abbrev pub bump_attempts : Task → Task
bump_attempts t = record t { attempts = t.attempts + 1 }

-- UPDATE ... RETURNING attempts: no row to return is `sql.ErrNoRows`
unfoldable pub increment_task_attempts : String → Handler ℕ
increment_task_attempts id = query λ d.
    let tasks = update_where (has_id id) bump_attempts d.tasks in
    one (elim (find (has_id id) tasks) [ none ↦ none | some t ↦ some t.attempts ])
      (record d { tasks = tasks })

unfoldable pub set_task_next_retry : ℕ → String → Handler (Unit {0})
set_task_next_retry at id = query λ d. (
  ok tt,
  record d { tasks = update_where (has_id id) (λ t. record t { next_retry_at = some at }) d.tasks },
)

-- in the table's order, where the source orders by the last update
unfoldable pub list_executing_tasks : Handler (List Task)
list_executing_tasks =
    query λ d. (ok (select (λ t. status_eq t.status Status.executing) d.tasks), d)

-- WHERE task_id = ? AND tool_name = ? AND args_hash = ?
abbrev pub has_key : String → String → String → ToolCall → Bool
has_key task_id tool args c =
    (c.task_id == task_id) && ((c.tool_name == tool) && (c.args_hash == args))

abbrev pub is_receipt : ToolCall → Bool
is_receipt c = elim c.status [ call_receipt ↦ true | _ ↦ false ]

abbrev pub is_receiptless : ToolCall → Bool
is_receiptless c = elim c.status [ call_intent ↦ true | call_executing ↦ true | _ ↦ false ]

abbrev pub max_seq : ℕ → List ToolCall → ℕ
max_seq m [] = m
max_seq m (c ∷ rows) = max_seq (if ltb m c.seq then c.seq else m) rows

-- COALESCE(MAX(seq), 0) + 1
unfoldable pub next_tool_call_seq : String → String → String → Handler ℕ
next_tool_call_seq task_id tool args =
    query λ d. (ok (max_seq 0 (select (has_key task_id tool args) d.tool_calls) + 1), d)

abbrev pub is_live_call : ToolCall → Bool
is_live_call c = elim c.status [ call_failed ↦ false | _ ↦ true ]

-- a row that the table's two unique constraints hold against an insert: one of the key with its seq, or a
-- live one of the key (migrations/0007, 0008)
abbrev pub conflicts : String → String → String → ℕ → ToolCall → Bool
conflicts task_id tool args seq c = has_key task_id tool args c && (eqb c.seq seq || is_live_call c)

abbrev pub insert_call : ℕ → Option ToolCall → ToolCall → Db → Result ToolCall × Db
insert_call zero _ row d = (err unique_violation, d)
insert_call (suc n) (some _) row d = (err unique_violation, d)
insert_call (suc n) none row d =
    (ok row, record d { tool_calls = row ∷ d.tool_calls; next_id = suc d.next_id })

-- Rows are listed newest first: `id` is AUTOINCREMENT. A task that does not exist, the foreign key, fails
-- with the constraint error that a conflict fails with; a class satisfies its CHECK.
unfoldable pub insert_tool_call_intent :
    String → ℕ → String → ActionClass → String → Handler ToolCall
insert_tool_call_intent task_id seq tool class args = query λ d.
    let row : ToolCall = record {
      id = d.next_id;
      task_id = task_id;
      seq = seq;
      tool_name = tool;
      class = class;
      args_hash = args;
      status = call_intent;
      receipt_json = none;
    } in
    insert_call (count_where (has_id task_id) d.tasks)
      (find (conflicts task_id tool args seq) d.tool_calls) row d

abbrev pub has_call_id : ℕ → ToolCall → Bool
has_call_id id c = leb id c.id && leb c.id id

abbrev pub set_call_status : CallStatus → ℕ → Db → Db
set_call_status status id d = record d {
  tool_calls = update_where (has_call_id id) (λ c. record c { status = status }) d.tool_calls;
}

unfoldable pub mark_tool_call_executing : ℕ → Handler (Unit {0})
mark_tool_call_executing id = query λ d. (ok tt, set_call_status call_executing id d)

unfoldable pub mark_tool_call_receipt : String → ℕ → Handler (Unit {0})
mark_tool_call_receipt json id = query λ d. (
  ok tt,
  record d {
    tool_calls =
        update_where (has_call_id id)
          (λ c. record c { status = call_receipt; receipt_json = some json }) d.tool_calls;
  },
)

unfoldable pub mark_tool_call_failed : ℕ → Handler (Unit {0})
mark_tool_call_failed id = query λ d. (ok tt, set_call_status call_failed id d)

-- the receipt with the highest seq: the newest, since seq grows with id within a key
unfoldable pub get_receipt_tool_call : String → String → String → Handler ToolCall
get_receipt_tool_call task_id tool args =
    query λ d. one (find (λ c. has_key task_id tool args c && is_receipt c) d.tool_calls) d

unfoldable pub list_receiptless_tool_calls : String → Handler (List ToolCall)
list_receiptless_tool_calls task_id =
    query λ d. (ok (select (λ c. (c.task_id == task_id) && is_receiptless c) d.tool_calls), d)

unfoldable pub count_tool_call_attempts : String → String → String → Handler ℕ
count_tool_call_attempts task_id tool args =
    query λ d. (ok (count_where (has_key task_id tool args) d.tool_calls), d)

unfoldable pub insert_outbox_row : String → String → String → ℕ → Option String → Handler (Unit {0})
insert_outbox_row trace_id kind payload available_at task_id = query λ d.
    let row : OutboxRow = record {
      id = d.next_id;
      trace_id = trace_id;
      kind = kind;
      payload = payload;
      available_at = available_at;
      lease_until = none;
      dispatched_at = none;
      canceled_at = none;
      attempts = 0;
      task_id = task_id;
    } in
    (ok tt, record d { outbox = d.outbox ++ row ∷ []; next_id = suc d.next_id })

abbrev pub is_none : Option ℕ → Bool
is_none none = true
is_none (some _) = false

-- lease_until IS NULL OR lease_until < at
abbrev pub is_unleased : ℕ → OutboxRow → Bool
is_unleased at o = elim o.lease_until [ none ↦ true | some lease ↦ ltb lease at ]

-- task_id names no task, or one that is not halted: the LEFT JOIN's condition
abbrev pub is_not_halted : List Task → OutboxRow → Bool
is_not_halted tasks o = elim o.task_id [
  | none ↦ true
  | some id ↦ not (leb 1 (count_where (λ t. (t.id == id) && status_eq t.status user_halted) tasks))
]

abbrev pub is_due : ℕ → Db → OutboxRow → Bool
is_due at d o =
    is_none o.dispatched_at
    && (is_none o.canceled_at
        && (leb o.available_at at && (is_unleased at o && is_not_halted d.tasks o)))

abbrev pub take_rows : ℕ → List OutboxRow → List OutboxRow
take_rows zero rows = []
take_rows (suc n) [] = []
take_rows (suc n) (o ∷ rows) = o ∷ take_rows n rows

-- rows are inserted in the order of their ids
unfoldable pub list_due_outbox_rows : ℕ → ℕ → Handler (List OutboxRow)
list_due_outbox_rows at limit = query λ d. (ok (take_rows limit (select (is_due at d) d.outbox)), d)

abbrev pub has_outbox_id : ℕ → OutboxRow → Bool
has_outbox_id id o = eqb o.id id

abbrev pub is_claimable : ℕ → ℕ → OutboxRow → Bool
is_claimable id at o = eqb o.id id && (is_none o.dispatched_at && is_unleased at o)

abbrev pub lease_row : ℕ → OutboxRow → OutboxRow
lease_row until o = record o { lease_until = some until; attempts = o.attempts + 1 }

-- UPDATE ... WHERE id = ? AND dispatched_at IS NULL AND (lease_until IS NULL OR lease_until < ?)
unfoldable pub claim_outbox_row : ℕ → ℕ → ℕ → Handler ℕ
claim_outbox_row until id at = query λ d. (
  ok (count_where (is_claimable id at) d.outbox),
  record d { outbox = update_where (is_claimable id at) (lease_row until) d.outbox },
)

unfoldable pub mark_outbox_delivered : ℕ → ℕ → Handler (Unit {0})
mark_outbox_delivered at id = query λ d. (
  ok tt,
  record d {
    outbox = update_where (has_outbox_id id) (λ o. record o { dispatched_at = some at }) d.outbox;
  },
)

unfoldable pub renew_outbox_lease : ℕ → ℕ → Handler (Unit {0})
renew_outbox_lease until id = query λ d. (
  ok tt,
  record d {
    outbox =
        update_where (λ o. eqb o.id id && is_none o.dispatched_at)
          (λ o. record o { lease_until = some until }) d.outbox;
  },
)

-- an undelivered, uncanceled row of the task
abbrev pub is_open_row_of : String → OutboxRow → Bool
is_open_row_of task_id o =
    (elim o.task_id [ none ↦ false | some id ↦ id == task_id ])
    && (is_none o.dispatched_at && is_none o.canceled_at)

unfoldable pub cancel_outbox_rows_by_task : ℕ → String → Handler ℕ
cancel_outbox_rows_by_task at task_id = query λ d. (
  ok (count_where (is_open_row_of task_id) d.outbox),
  record d {
    outbox =
        update_where (is_open_row_of task_id) (λ o. record o { canceled_at = some at }) d.outbox;
  },
)

-- an UPDATE of one task that leaves its status
unfoldable pub update_task : (Task → Task) → String → Handler (Unit {0})
update_task f id = query λ d. (ok tt, record d { tasks = update_where (has_id id) f d.tasks })

unfoldable pub update_task_session : String → String → Handler (Unit {0})
update_task_session session id = update_task (λ t. record t { session_id = some session }) id

unfoldable pub set_task_worker_pgid : ℕ → String → Handler (Unit {0})
set_task_worker_pgid pid id = update_task (λ t. record t { worker_pgid = some pid }) id

unfoldable pub set_task_halted_at : ℕ → String → Handler (Unit {0})
set_task_halted_at at id = update_task (λ t. record t { halted_at = some at }) id

-- done, failed and user_halted
abbrev pub is_terminal_status : Status → Bool
is_terminal_status done = true
is_terminal_status failed = true
is_terminal_status user_halted = true
is_terminal_status _ = false

-- in the table's order, where the source orders by the last update
unfoldable pub list_non_terminal_tasks : Handler (List Task)
list_non_terminal_tasks =
    query λ d. (ok (select (λ t. not (is_terminal_status t.status)) d.tasks), d)
