-- ===== src/Task/Following.antt =====
-- The statements and handlers of kahyad/internal/task move statuses along legal transitions only.
pub mod Workers
use kahya.Base.{ℕ, String, Bool, true, ◌≡◌, Option, some, List, [], ◌∷◌, refl, sym, subst}
use kahya.Base.Exec.{World, Error, pure, ◌>>◌}
use kahya.Base.Guarantee.{Guarantees, Rely, Guarantees-query, guarantee_rules}
use kahya.Task.Rows.{Status, Task, ToolCall, Db, Event, Handler}
use kahya.Task.Queries.{
  set_task_next_retry, list_executing_tasks, mark_tool_call_failed, list_receiptless_tool_calls,
  count_tool_call_attempts, insert_outbox_row, has_id,
}
use kahya.Task.Machine.{transition}
use kahya.Task.Machine.Edges.{
  LegalPath, status_of, Follows, Follows-same, Follows-order, Follows-of_eq, status_of-update_same,
  get_task_by_id-Follows, increment_task_attempts-Follows, transition-Follows,
}
use kahya.Task.Machine.Terminal.{is_terminal, Follows-terminal}
use kahya.Task.Resume.{
  Resume, notify, write_outbox_resume_row_at, write_outbox_resume_row, enqueue_resume,
  block_on_w1_cap_exceeded, block_on_receiptless, retry_or_block, process_rows, process_task,
  scan_tasks, scan,
}
use kahya.Task.CloudRetry.{
  CloudRetry, park, fail_task, give_up, fail_non_retryable, park_or_give_up,
}

module _ (id : String) where
  pub set_next_retry-Follows : (at : ℕ) → Guarantees Follows (set_task_next_retry at id)
  unfolding set_task_next_retry
  set_next_retry-Follows at = Guarantees-query Follows Follows-order _ λ d. Follows-of_eq d _ (λ j.
      status_of-update_same (has_id id) (λ t. record t { next_retry_at = some at }) j d (λ t. refl)
        (λ t. refl))

  pub list_receiptless-Follows : Guarantees Follows (list_receiptless_tool_calls id)
  unfolding list_receiptless_tool_calls
  list_receiptless-Follows = Guarantees-query Follows Follows-order _ λ d. Follows-same d

  pub count_attempts-Follows :
      (tool args : String) → Guarantees Follows (count_tool_call_attempts id tool args)
  unfolding count_tool_call_attempts
  count_attempts-Follows tool args = Guarantees-query Follows Follows-order _ λ d. Follows-same d

pub mark_failed-Follows : (id : ℕ) → Guarantees Follows (mark_tool_call_failed id)
unfolding mark_tool_call_failed
mark_failed-Follows id = Guarantees-query Follows Follows-order _ λ d. Follows-of_eq d _ (λ j. refl)

pub list_executing-Follows : Guarantees Follows list_executing_tasks
unfolding list_executing_tasks
list_executing-Follows = Guarantees-query Follows Follows-order _ λ d. Follows-same d

pub insert_outbox-Follows :
    (trace_id kind payload : String) (at : ℕ) (task_id : Option String)
    → Guarantees Follows (insert_outbox_row trace_id kind payload at task_id)
unfolding insert_outbox_row
insert_outbox-Follows trace_id kind payload at task_id =
    Guarantees-query Follows Follows-order _ λ d. Follows-of_eq d _ (λ j. refl)

pub notify-Follows :
    (has_notifier : Bool) (trace_id kind id : String)
    → Guarantees Follows (notify has_notifier trace_id kind id)
unfolding notify
notify-Follows has_notifier trace_id kind id =
    search (guarantee_rules, Follows-order, Guarantees-query, Follows-same) depth 8

pub ruleset handler_rules = (
  guarantee_rules, Follows-order, get_task_by_id-Follows, increment_task_attempts-Follows,
  transition-Follows, set_next_retry-Follows, list_receiptless-Follows, count_attempts-Follows,
  mark_failed-Follows, list_executing-Follows, insert_outbox-Follows, notify-Follows,
)

module _ (payload_json : String → String) (trace_id task_id : String) where
  pub write_at-Follows :
      (at : ℕ) → Guarantees Follows (write_outbox_resume_row_at payload_json trace_id task_id at)
  unfolding write_outbox_resume_row_at
  write_at-Follows at = search handler_rules

  pub write-Follows : Guarantees Follows (write_outbox_resume_row payload_json trace_id task_id)
  unfolding write_outbox_resume_row
  write-Follows = search (handler_rules, write_at-Follows)

module _ (r : Resume) where
  pub enqueue-Follows : (trace_id id : String) → Guarantees Follows (enqueue_resume r trace_id id)
  unfolding enqueue_resume
  enqueue-Follows trace_id id = search (handler_rules, write-Follows)

  pub block_cap-Follows :
      (trace_id id : String) → Guarantees Follows (block_on_w1_cap_exceeded r trace_id id)
  unfolding block_on_w1_cap_exceeded
  block_cap-Follows trace_id id = search handler_rules

  pub block-Follows :
      (trace_id id : String) → Guarantees Follows (block_on_receiptless r trace_id id)
  unfolding block_on_receiptless
  block-Follows trace_id id = search handler_rules

  pub retry_or_block-Follows :
      (t : Task) (row : ToolCall) → Guarantees Follows (retry_or_block r t row)
  unfolding retry_or_block
  retry_or_block-Follows t row = search (handler_rules, enqueue-Follows, block_cap-Follows)

  pub process_rows-Follows :
      (t : Task) (rows : List ToolCall) → Guarantees Follows (process_rows r t rows)
  unfolding process_rows
  process_rows-Follows t [] = search (handler_rules, enqueue-Follows)
  process_rows-Follows t (row ∷ _) = search (handler_rules, retry_or_block-Follows, block-Follows)

  pub process_task-Follows : (t : Task) → Guarantees Follows (process_task r t)
  unfolding process_task
  process_task-Follows t = search (handler_rules, process_rows-Follows)

  pub scan_tasks-Follows :
      (tasks : List Task) (n : ℕ) (first : Option Error)
      → Guarantees Follows (scan_tasks r tasks n first)
  unfolding scan_tasks
  scan_tasks-Follows [] n first = search handler_rules
  scan_tasks-Follows (t ∷ tasks) n first =
      let rest = scan_tasks-Follows tasks in
      search (handler_rules, process_task-Follows, rest) depth 8

  pub scan-Follows : Guarantees Follows (scan r)
  unfolding scan
  scan-Follows = search (handler_rules, scan_tasks-Follows)

module _ (c : CloudRetry) where
  pub park-Follows : (trace_id id : String) (t : Task) → Guarantees Follows (park c trace_id id t)
  unfolding park
  park-Follows trace_id id t = search (handler_rules, write_at-Follows) depth 12

  pub fail_task-Follows :
      (trace_id id reason : String) → Guarantees Follows (fail_task c trace_id id reason)
  unfolding fail_task
  fail_task-Follows trace_id id reason = search handler_rules

  pub park_or_give_up-Follows :
      (trace_id id : String) → Guarantees Follows (park_or_give_up c trace_id id)
  unfolding park_or_give_up give_up
  park_or_give_up-Follows trace_id id = search (handler_rules, fail_task-Follows, park-Follows)
