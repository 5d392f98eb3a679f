-- ===== src/Task/Resume/Progress.antt =====
-- The scan strands no task: each one that it processes is enqueued for a resume or blocked.
use kahya.Base.{
  ℕ, suc, String, ltb, ◌≡◌, refl, none, some, List, [], ◌∷◌, ◌++◌, arith, if◌then◌else◌, Bool-cases,
  inl, inr,
}
use kahya.Base.Table.{find, count_where, count_where-update_where_same}
use kahya.Base.Exec.{World, ok, calm, ◌>>=◌, ◌>>◌}
use kahya.Task.Rows.{
  executing, blocked_user, is_class_w1, Task, ToolCall, OutboxRow, call_failed, Db, Event,
}
use kahya.Task.Queries.{
  has_id, has_key, has_call_id, list_receiptless_tool_calls, mark_tool_call_failed,
  count_tool_call_attempts, increment_task_attempts, insert_outbox_row, set_call_status,
}
use kahya.Task.Machine.{transition}
use kahya.Task.Machine.Edges.{status_of}
use kahya.Task.Machine.Outcomes.{find-write_attempt, status_of-write}
use kahya.Task.Machine.Replay.{transition_legal}
use kahya.Task.Resume.{
  Resume, outbox_kind_task_resume, notify, write_outbox_resume_row, write_outbox_resume_row_at,
  enqueue_resume, block_on_receiptless, block_on_w1_cap_exceeded, retry_or_block, process_rows,
  process_task,
}
use kahya.Task.Resume.Decisions.{receiptless}

pub data Decision : Type 0 where
  resume block : Decision

-- The rule: retry where nothing was interrupted, and a W1 call within the cap; else ask the user.
abbrev pub decide : ℕ → String → List ToolCall → List ToolCall → Decision
decide cap id [] calls = resume
decide cap id (row ∷ _) calls =
    if is_class_w1 row.class
    then (if ltb cap (count_where (has_key id row.tool_name row.args_hash) calls)
        then block
        else resume)
    else block

-- what has then happened to the task
abbrev pub Settled : Resume → Task → Decision → Db → World Db Event → Type 0
Settled r t resume d w =
    (status_of t.id w.db ≡ status_of t.id d)
    × ((row : OutboxRow) × (w.db.outbox ≡ d.outbox ++ row ∷ [])
        × (row.kind ≡ outbox_kind_task_resume)
        × (row.payload ≡ r.payload_json t.id)
        × (row.task_id ≡ some t.id)
        × (row.dispatched_at ≡ none))
Settled r t block d w = (status_of t.id w.db ≡ some blocked_user) × (w.db.outbox ≡ d.outbox)

module _ (r : Resume) (t : Task) (clock : ℕ → ℕ) (n : ℕ) (ledger : List Event) (d : Db) (cur : Task)
    (loaded : find (has_id t.id) d.tasks ≡ some cur) where
  enqueue-settles :
      let out = enqueue_resume r t.trace_id t.id (calm clock n ledger d) in
      (out.0 ≡ ok tt) × Settled r t resume d out.1
  unfolding enqueue_resume increment_task_attempts write_outbox_resume_row
      write_outbox_resume_row_at insert_outbox_row ◌>>=◌
  enqueue-settles =
      let bumped = find-write_attempt executing t.id d cur loaded in
      rw bumped (refl, (rw (bumped, loaded) refl, (_, refl, refl, refl, refl, refl)))

  -- a transition to blocked_user and a notice
  blocks :
      (kind : String)
      → cur.status ≡ executing
      → let out =
          (do transition t.trace_id t.id blocked_user; notify r.has_notifier t.trace_id kind t.id)
            (calm clock n ledger d) in
        (out.0 ≡ ok tt) × Settled r t block d out.1
  unfolding notify ◌>>=◌
  blocks kind at =
      let legal =
        transition_legal clock n ledger t.trace_id t.id blocked_user d cur loaded (rw at) (rw at) in
      let now_blocked = status_of-write t.id cur.status blocked_user d cur loaded refl in
      rw legal (ground (arith, now_blocked))

module _ (r : Resume) (t : Task) (clock : ℕ → ℕ) (n : ℕ) (ledger : List Event) (d : Db) (cur : Task)
    (loaded : find (has_id t.id) d.tasks ≡ some cur) (at : cur.status ≡ executing) where
  retry_or_block-settles :
      (row : ToolCall)
      → let choice =
          if ltb r.w1_max_auto (count_where (has_key t.id row.tool_name row.args_hash) d.tool_calls)
          then block
          else resume in
        let out = retry_or_block r t row (calm clock n ledger d) in
        (out.0 ≡ ok tt) × Settled r t choice d out.1
  unfolding retry_or_block count_tool_call_attempts block_on_w1_cap_exceeded ◌>>=◌
  retry_or_block-settles row =
      elim (Bool-cases
        (ltb r.w1_max_auto (count_where (has_key t.id row.tool_name row.args_hash) d.tool_calls))) [
          | inl e ↦
              rw e (blocks r t clock (suc n) ledger d cur loaded "task.w1_retry_cap_exceeded" at)
          | inr e ↦ rw e (enqueue-settles r t clock (suc n) ledger d cur loaded)
        ]

count_after_failed :
    (id : String) (row : ToolCall) (d : Db)
    → count_where
        (has_key id row.tool_name row.args_hash)
        (set_call_status call_failed row.id d).tool_calls
      ≡ count_where (has_key id row.tool_name row.args_hash) d.tool_calls
count_after_failed id row d =
    count_where-update_where_same (has_key id row.tool_name row.args_hash) (has_call_id row.id)
      (λ c. record c { status = call_failed }) (λ c. refl) d.tool_calls

-- the outcome names neither calls nor their status
Settled-failed_call :
    (r : Resume) (t : Task) (k : Decision) (id : ℕ) (d : Db) (w : World Db Event)
    → Settled r t k (set_call_status call_failed id d) w
    → Settled r t k d w
Settled-failed_call r t resume id d w h = h
Settled-failed_call r t block id d w h = h

module _ (r : Resume) (t : Task) (clock : ℕ → ℕ) (n : ℕ) (ledger : List Event) (d : Db) (cur : Task)
    (loaded : find (has_id t.id) d.tasks ≡ some cur) (at : cur.status ≡ executing) where
  process_rows-settles :
      (rows : List ToolCall)
      → let out = process_rows r t rows (calm clock n ledger d) in
        (out.0 ≡ ok tt) × Settled r t (decide r.w1_max_auto t.id rows d.tool_calls) d out.1
  unfolding process_rows mark_tool_call_failed block_on_receiptless ◌>>=◌
  process_rows-settles [] = enqueue-settles r t clock n ledger d cur loaded
  process_rows-settles (row ∷ rest) = elim (Bool-cases (is_class_w1 row.class)) [
    | inl e ↦
        let (returns, settled) =
          retry_or_block-settles r t clock (suc n) ledger (set_call_status call_failed row.id d) cur
            loaded at row in
        rw (e, ← count_after_failed t.id row d)
          (returns, Settled-failed_call r t _ row.id d _ settled)
    | inr e ↦ rw e (
        blocks r t clock (suc n) ledger (set_call_status call_failed row.id d) cur loaded
          "task.w2w3_receiptless_blocked" at)
  ]

module _ (r : Resume) (t : Task) (clock : ℕ → ℕ) (n : ℕ) (ledger : List Event) (d : Db) (cur : Task)
    (loaded : find (has_id t.id) d.tasks ≡ some cur) (at : cur.status ≡ executing) where
  -- A task that is executing is never stranded by the scan: Resume.ProcessTask returns no error, and
  -- by the rule of `decide` (resume if no call was interrupted, or the newest one is W1 and its
  -- attempts are within the cap; else block) it either leaves the status and enqueues one resume row
  -- for the task, or blocks the task for the user and enqueues nothing. (No failing call, no other
  -- handler.)
  pub process_task-settles :
      let out = process_task r t (calm clock n ledger d) in
      (out.0 ≡ ok tt)
      × Settled r t (decide r.w1_max_auto t.id (receiptless t.id d) d.tool_calls) d out.1
  unfolding process_task list_receiptless_tool_calls ◌>>=◌
  process_task-settles =
      process_rows-settles r t clock (suc n) ledger d cur loaded at (receiptless t.id d)
