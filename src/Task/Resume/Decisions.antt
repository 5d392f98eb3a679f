-- ===== src/Task/Resume/Decisions.antt =====
-- What the resume scan decides for one task.
use kahya.Base.{
  ℕ, String, Bool, false, ◌&&◌, ◌==◌, ◌≡◌, inl, inr, refl, ◌∙◌, Option, List, ◌∷◌, Bool-cases,
}
use mathlib.Core.Option
use kahya.Base.Table.{find, select, map-find-update_where}
use kahya.Base.Exec.{alone, ◌>>=◌}
use kahya.Base.Guarantee.{IsPreorder, Guarantees, Guarantees-query, guarantee_rules}
use kahya.Task.Rows.{Status, blocked_user, is_class_w1, Task, ToolCall, Db, Event}
use kahya.Task.Queries.{
  has_id, has_id_status, is_receiptless, list_receiptless_tool_calls, mark_tool_call_failed,
  get_task_by_id, set_task_status,
}
use kahya.Task.Machine.{transition, transition_from, commit_transition, count_attempt}
use kahya.Task.Resume.{Resume, notify, block_on_receiptless, process_rows, process_task}

-- the calls of a task with neither a receipt nor a failure, newest first
abbrev pub receiptless : String → Db → List ToolCall
receiptless id d = select (λ c. (c.task_id == id) && is_receiptless c) d.tool_calls

abbrev pub attempts_of : String → Db → Option ℕ
attempts_of id d = Option.map (λ t. t.attempts) (find (has_id id) d.tasks)

-- nothing is enqueued, and no attempt is counted
pub record SameQueue (d d' : Db) : Type 0 where
  pub outbox : d'.outbox ≡ d.outbox
  pub attempts : (id : String) → attempts_of id d' ≡ attempts_of id d

SameQueue-order : IsPreorder SameQueue
SameQueue-order = record {
  same = λ d. record { outbox = refl; attempts = λ id. refl };
  chain = λ a b c p q. record {
    outbox = q.outbox ∙ p.outbox;
    attempts = λ id. q.attempts id ∙ p.attempts id;
  };
}

unchanged : (d : Db) → SameQueue d d
unchanged d = SameQueue-order.same d

get_task-SameQueue : (id : String) → Guarantees SameQueue (get_task_by_id id)
unfolding get_task_by_id
get_task-SameQueue id = Guarantees-query SameQueue SameQueue-order _ unchanged

set_status-SameQueue :
    (to from : Status) (id : String) → Guarantees SameQueue (set_task_status to id from)
unfolding set_task_status
set_status-SameQueue to from id = Guarantees-query SameQueue SameQueue-order _ λ d. record {
  outbox = refl;
  attempts = λ j.
      map-find-update_where (has_id j) (has_id_status id from) (λ t. record t { status = to })
        (λ t. t.attempts) (λ t. refl) (λ t. refl) d.tasks;
}

mark_failed-SameQueue : (id : ℕ) → Guarantees SameQueue (mark_tool_call_failed id)
unfolding mark_tool_call_failed
mark_failed-SameQueue id =
    Guarantees-query SameQueue SameQueue-order _ λ d. record { outbox = refl; attempts = λ j. refl }

ruleset queue_rules = (
  guarantee_rules, SameQueue-order, get_task-SameQueue, set_status-SameQueue, mark_failed-SameQueue,
)

block_commit-SameQueue :
    (trace_id id : String) (from : Status)
    → Guarantees SameQueue (commit_transition trace_id id from blocked_user)
unfolding commit_transition count_attempt
block_commit-SameQueue trace_id id from = search queue_rules depth 8

block_transition-SameQueue :
    (trace_id id : String) → Guarantees SameQueue (transition trace_id id blocked_user)
unfolding transition transition_from
block_transition-SameQueue trace_id id = search (queue_rules, block_commit-SameQueue) depth 8

notify-SameQueue :
    (has_notifier : Bool) (trace_id kind id : String)
    → Guarantees SameQueue (notify has_notifier trace_id kind id)
unfolding notify
notify-SameQueue has_notifier trace_id kind id =
    search (queue_rules, Guarantees-query, unchanged) depth 8

module _ (r : Resume) (t : Task) (row : ToolCall) (rest : List ToolCall) where
  block-SameQueue :
      is_class_w1 row.class ≡ false → Guarantees SameQueue (process_rows r t (row ∷ rest))
  unfolding process_rows block_on_receiptless
  block-SameQueue other =
      rw other (search (queue_rules, block_transition-SameQueue, notify-SameQueue) depth 8)

  -- A task whose newest interrupted call is of class W2 or W3 is not retried: nothing is enqueued
  -- and no attempt is counted, whichever calls of the database fail. (No other handler.)
  pub process_task-not_retried :
      (faults : ℕ → Bool) (clock : ℕ → ℕ) (n : ℕ) (ledger : List Event) (d : Db)
      → receiptless t.id d ≡ row ∷ rest
      → is_class_w1 row.class ≡ false
      → SameQueue d (process_task r t (alone faults clock n ledger d)).1.db
  unfolding process_task list_receiptless_tool_calls ◌>>=◌
  process_task-not_retried faults clock n ledger d interrupted other =
      elim (Bool-cases (faults n)) [
        | inl e ↦ rw e (unchanged d)
        | inr e ↦ rw (e, interrupted) ((block-SameQueue other).at _ (λ k d. unchanged d))
      ]
