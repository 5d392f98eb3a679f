-- ===== src/Task/Resume.antt =====
-- kahyad/internal/task/resume.go: the scan that resumes or blocks the tasks that a crash left
-- executing. A notification is one call of the outside that may fail. `payload_json` is the JSON
-- encoding of the outbox payload.
pub mod Decisions
pub mod Progress
use kahya.Base.{
  ℕ, zero, suc, String, Bool, true, false, Option, none, some, List, [], ◌∷◌, ltb, eqb,
  if◌then◌else◌,
}
use kahya.Base.Exec.{
  World, Result, Error, ok, err, pure, raise, log, now, query, caught, ◌>>=◌, ◌>>◌,
}
use kahya.Task.Rows.{Task, ToolCall, blocked_user, is_class_w1, notified, Handler}
use kahya.Task.Queries.{
  list_executing_tasks, list_receiptless_tool_calls, mark_tool_call_failed,
  count_tool_call_attempts, increment_task_attempts, insert_outbox_row,
}
use kahya.Task.Machine.{transition}

pub record Resume : Type 0 where
  pub w1_max_auto : ℕ
  pub has_notifier : Bool
  -- `none`: no registry is wired
  pub is_live : Option (String → Bool)
  pub payload_json : String → String

abbrev pub default_w1_max_auto : ℕ
default_w1_max_auto = 3

-- NewResume: a cap that is not positive is the default
unfoldable pub new_resume : ℕ → Bool → Option (String → Bool) → (String → String) → Resume
new_resume w1_max_auto has_notifier is_live payload_json = record {
  w1_max_auto = if eqb w1_max_auto 0 then default_w1_max_auto else w1_max_auto;
  has_notifier = has_notifier;
  is_live = is_live;
  payload_json = payload_json;
}

-- one call of the notifier, shared by the resume scan and the cloud retries
unfoldable pub notify : Bool → String → String → String → Handler (Unit {0})
notify has_notifier trace_id kind task_id =
    if has_notifier
    then (do query λ d. (ok tt, d); log (notified trace_id kind task_id))
    else pure tt

abbrev pub outbox_kind_task_resume : String
outbox_kind_task_resume = "task_resume"

unfoldable pub write_outbox_resume_row_at :
    (String → String) → String → String → ℕ → Handler (Unit {0})
write_outbox_resume_row_at payload_json trace_id task_id available_at =
    insert_outbox_row trace_id outbox_kind_task_resume (payload_json task_id) available_at
      (some task_id)

unfoldable pub write_outbox_resume_row : (String → String) → String → String → Handler (Unit {0})
write_outbox_resume_row payload_json trace_id task_id = do
  ts ← now
  write_outbox_resume_row_at payload_json trace_id task_id ts

module _ (r : Resume) where
  unfoldable pub enqueue_resume : String → String → Handler (Unit {0})
  enqueue_resume trace_id task_id = do
    increment_task_attempts task_id
    write_outbox_resume_row r.payload_json trace_id task_id

  unfoldable pub block_on_w1_cap_exceeded : String → String → Handler (Unit {0})
  block_on_w1_cap_exceeded trace_id task_id = do
    transition trace_id task_id blocked_user
    notify r.has_notifier trace_id "task.w1_retry_cap_exceeded" task_id

  unfoldable pub block_on_receiptless : String → String → Handler (Unit {0})
  block_on_receiptless trace_id task_id = do
    transition trace_id task_id blocked_user
    notify r.has_notifier trace_id "task.w2w3_receiptless_blocked" task_id

  unfoldable pub retry_or_block : Task → ToolCall → Handler (Unit {0})
  retry_or_block t row = do
    attempts ← count_tool_call_attempts t.id row.tool_name row.args_hash
    if ltb r.w1_max_auto attempts
        then block_on_w1_cap_exceeded t.trace_id t.id
        else enqueue_resume t.trace_id t.id

  -- only the newest of the calls without a receipt is looked at
  unfoldable pub process_rows : Task → List ToolCall → Handler (Unit {0})
  process_rows t [] = enqueue_resume t.trace_id t.id
  process_rows t (row ∷ _) = do
    mark_tool_call_failed row.id
    if is_class_w1 row.class then retry_or_block t row else block_on_receiptless t.trace_id t.id

  unfoldable pub process_task : Task → Handler (Unit {0})
  process_task t = do rows ← list_receiptless_tool_calls t.id; process_rows t rows

  abbrev live_now : String → Bool
  live_now id = elim r.is_live [ none ↦ false | some f ↦ f id ]

  abbrev pub first_error : Option Error → Result (Unit {0}) → Option Error
  first_error none (err e) = some e
  first_error first _ = first

  -- the loop of Scan: the number of tasks processed and the first error
  unfoldable pub scan_tasks : List Task → ℕ → Option Error → Handler (ℕ × Option Error)
  scan_tasks [] n first = pure (n, first)
  scan_tasks (t ∷ tasks) n first =
      let skip = scan_tasks tasks n first in
      if live_now t.id
      then skip
      else (do res ← caught (process_task t); scan_tasks tasks (suc n) (first_error first res))

  unfoldable pub scan : Handler (ℕ × Option Error)
  scan = do tasks ← list_executing_tasks; scan_tasks tasks 0 none
