-- ===== src/Task/Halting.antt =====
-- kahyad/internal/halt/executor.go: the user halts a task. What it does outside of the database, to
-- processes, containers and speech, is its parameter. The approvals stand in the tables of
-- kahyad/internal/policy: here their invalidation is a result and an event.
pub mod Halted
use kahya.Base.{
  ℕ, zero, suc, ◌+◌, String, Bool, true, false, Option, none, some, List, [], ◌∷◌, if◌then◌else◌,
  eqb,
}
use kahya.Base.Exec.{Result, Error, ok, err, pure, raise, log, now, position, caught, ◌>>=◌, ◌>>◌}
use kahya.Task.Rows.{
  Status, user_halted, Task, user_halted_event, invalidates_approvals, killed, Handler,
}
use kahya.Task.Queries.{
  get_task_by_id, set_task_halted_at, cancel_outbox_rows_by_task, is_terminal_status,
  list_non_terminal_tasks,
}
use kahya.Task.Machine.{transition}

-- `worker_pid` reads the registry of live workers; `invalidate_approvals` is what the
-- ApprovalInvalidator returns at a call's number.
-- The calls that kill containers and speech touch no table, and their failures are only logged.
pub record Executor : Type 0 where
  pub worker_pid : Option (ℕ → String → Option ℕ)
  pub invalidate_approvals : Option (ℕ → String → Result ℕ)

abbrev pub positive : Option ℕ → Option ℕ
positive none = none
positive (some zero) = none
positive (some (suc n)) = some (suc n)

abbrev pub or_stored : Option ℕ → Option ℕ → Option ℕ
or_stored none stored = positive stored
or_stored (some pid) stored = some pid

unfoldable pub kill_pgid : Option ℕ → Handler (Unit {0})
kill_pgid none = pure tt
kill_pgid (some pgid) = log (killed pgid)

unfoldable pub drop_approvals : String → Option (ℕ → String → Result ℕ) → Handler (Unit {0})
drop_approvals id none = pure tt
drop_approvals id (some invalidate) = log (invalidates_approvals id)

module _ (x : Executor) where
  abbrev pub live_pid : ℕ → String → Option ℕ
  live_pid n id = elim x.worker_pid [ none ↦ none | some f ↦ positive (f n id) ]

  unfoldable pub kill_process_group : Task → Handler (Unit {0})
  kill_process_group t = do n ← position; kill_pgid (or_stored (live_pid n t.id) t.worker_pgid)

  -- the steps behind the transition
  unfoldable pub close_task : Task → Handler Bool
  close_task t = do
    at ← now
    caught (set_task_halted_at at t.id)
    canceled ← now
    caught (cancel_outbox_rows_by_task canceled t.id)
    drop_approvals t.id x.invalidate_approvals
    log (user_halted_event t.id)
    pure true

  -- each step is tried, whatever came of the one before
  unfoldable pub halt_loaded : Task → Handler Bool
  halt_loaded t = do
    kill_process_group t
    caught (transition t.trace_id t.id user_halted)
    close_task t

  unfoldable pub halt_found : Result Task → Handler Bool
  halt_found (err Error.no_rows) = pure false
  halt_found (err e) = raise e
  halt_found (ok t) = if is_terminal_status t.status then pure false else halt_loaded t

  unfoldable pub halt_task : String → Handler Bool
  halt_task id = do r ← caught (get_task_by_id id); halt_found r

  abbrev pub count_true : Result Bool → ℕ
  count_true (ok true) = 1
  count_true _ = 0

  unfoldable pub halt_each : List Task → ℕ → Handler ℕ
  halt_each [] n = pure n
  halt_each (t ∷ tasks) n = do r ← caught (halt_task t.id); halt_each tasks (n + count_true r)

  unfoldable pub halt_all : Handler ℕ
  halt_all = do tasks ← list_non_terminal_tasks; halt_each tasks 0
