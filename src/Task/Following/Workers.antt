-- ===== src/Task/Following/Workers.antt =====
-- The resolver, the dispatcher and the halt executor move statuses along legal transitions only.
use kahya.Base.{
  ℕ, String, Bool, true, false, ◌≡◌, Option, none, some, List, [], ◌∷◌, refl, ap, ◌==◌,
}
use kahya.Base.Exec.{Result, Error, ok, err}
use kahya.Base.Guarantee.{Guarantees, Guarantees-query, Guarantees-bind}
use kahya.Task.Rows.{Status, Task, OutboxRow}
use kahya.Task.Queries.{
  has_id, list_due_outbox_rows, claim_outbox_row, mark_outbox_delivered, renew_outbox_lease,
  cancel_outbox_rows_by_task, update_task, update_task_session, set_task_worker_pgid,
  set_task_halted_at, list_non_terminal_tasks,
}
use kahya.Task.Machine.Edges.{
  Follows, Follows-same, Follows-order, Follows-of_eq, status_of-update_same,
}
use kahya.Task.Resolver.{resolvable, resolve_to, retry, abort}
use kahya.Task.Dispatcher.{
  Dispatcher, Envelope, note_error, mark_delivered, renew_lease, store_session, on_session,
  on_start, settle_row, after_run, run_worker, spawn_worker, on_transition, resume_with,
  resume_loaded, resume_payload, process_row, process_claimed, claim_rows, claim_and_dispatch,
}
use kahya.Task.Halting.{
  Executor, kill_pgid, kill_process_group, drop_approvals, close_task, halt_loaded, halt_found,
  halt_task, halt_each, halt_all,
}
use kahya.Task.Following.{handler_rules, write-Follows}

update_task-Follows :
    (f : Task → Task) (id : String)
    → ((t : Task) → (f t).id ≡ t.id)
    → ((t : Task) → (f t).status ≡ t.status)
    → Guarantees Follows (update_task f id)
unfolding update_task
update_task-Follows f id ids statuses = Guarantees-query Follows Follows-order _ λ d.
    Follows-of_eq d _
      (λ j. status_of-update_same (has_id id) f j d (λ t. ap (λ i. i == j) (ids t)) statuses)

session-Follows : (session id : String) → Guarantees Follows (update_task_session session id)
unfolding update_task_session
session-Follows session id = update_task-Follows _ id (λ t. refl) (λ t. refl)

pgid-Follows : (pid : ℕ) (id : String) → Guarantees Follows (set_task_worker_pgid pid id)
unfolding set_task_worker_pgid
pgid-Follows pid id = update_task-Follows _ id (λ t. refl) (λ t. refl)

halted_at-Follows : (at : ℕ) (id : String) → Guarantees Follows (set_task_halted_at at id)
unfolding set_task_halted_at
halted_at-Follows at id = update_task-Follows _ id (λ t. refl) (λ t. refl)

list_due-Follows : (at limit : ℕ) → Guarantees Follows (list_due_outbox_rows at limit)
unfolding list_due_outbox_rows
list_due-Follows at limit = Guarantees-query Follows Follows-order _ Follows-same

list_non_terminal-Follows : Guarantees Follows list_non_terminal_tasks
unfolding list_non_terminal_tasks
list_non_terminal-Follows = Guarantees-query Follows Follows-order _ Follows-same

claim_row-Follows : (until id at : ℕ) → Guarantees Follows (claim_outbox_row until id at)
unfolding claim_outbox_row
claim_row-Follows until id at =
    Guarantees-query Follows Follows-order _ λ d. Follows-of_eq d _ (λ j. refl)

delivered-Follows : (at id : ℕ) → Guarantees Follows (mark_outbox_delivered at id)
unfolding mark_outbox_delivered
delivered-Follows at id =
    Guarantees-query Follows Follows-order _ λ d. Follows-of_eq d _ (λ j. refl)

renew_row-Follows : (until id : ℕ) → Guarantees Follows (renew_outbox_lease until id)
unfolding renew_outbox_lease
renew_row-Follows until id =
    Guarantees-query Follows Follows-order _ λ d. Follows-of_eq d _ (λ j. refl)

cancel-Follows : (at : ℕ) (id : String) → Guarantees Follows (cancel_outbox_rows_by_task at id)
unfolding cancel_outbox_rows_by_task
cancel-Follows at id = Guarantees-query Follows Follows-order _ λ d. Follows-of_eq d _ (λ j. refl)

ruleset worker_rules = (
  handler_rules, session-Follows, pgid-Follows, halted_at-Follows, list_due-Follows,
  list_non_terminal-Follows, claim_row-Follows, delivered-Follows, renew_row-Follows,
  cancel-Follows,
)

resolvable-Follows : (r : Result (Unit {0})) → Guarantees Follows (resolvable r)
unfolding resolvable
resolvable-Follows (ok _) = search worker_rules
resolvable-Follows (err Error.illegal_transition) = search worker_rules
resolvable-Follows (err e) = search worker_rules

resolve_to-Follows :
    (to : Status) (trace_id id : String) → Guarantees Follows (resolve_to to trace_id id)
unfolding resolve_to
resolve_to-Follows to trace_id id = search (worker_rules, resolvable-Follows) depth 8

pub retry-Follows :
    (payload_json : String → String) (trace_id id : String)
    → Guarantees Follows (retry payload_json trace_id id)
unfolding retry
retry-Follows payload_json trace_id id =
    search (worker_rules, resolve_to-Follows, write-Follows) depth 8

pub abort-Follows : (trace_id id : String) → Guarantees Follows (abort trace_id id)
unfolding abort
abort-Follows trace_id id = search (worker_rules, resolve_to-Follows)

note-Follows :
    {A : Type 0} (kind id : String) (r : Result A) → Guarantees Follows (note_error kind id r)
unfolding note_error
note-Follows kind id (ok a) = search worker_rules
note-Follows kind id (err e) = search worker_rules

mark-Follows : (id : ℕ) → Guarantees Follows (mark_delivered id)
unfolding mark_delivered
mark-Follows id = search (worker_rules, note-Follows) depth 8

pub renew-Follows : (c : Dispatcher) (id : ℕ) → Guarantees Follows (renew_lease c id)
unfolding renew_lease
renew-Follows c id = search (worker_rules, note-Follows) depth 8

store_session-Follows : (id s : String) → Guarantees Follows (store_session id s)
unfolding store_session
store_session-Follows id s = search worker_rules depth 8

on_session-Follows :
    (id : String) (sessions : List String) → Guarantees Follows (on_session id sessions)
unfolding on_session
on_session-Follows id [] = search worker_rules
on_session-Follows id (s ∷ rest) =
    Guarantees-bind Follows Follows-order _ _ (store_session-Follows id s)
      (λ _. on_session-Follows id rest)

on_start-Follows : (id : String) (started : Option ℕ) → Guarantees Follows (on_start id started)
unfolding on_start
on_start-Follows id none = search worker_rules
on_start-Follows id (some pid) = search (worker_rules, note-Follows) depth 8

settle-Follows :
    (row : ℕ) (id : String) (r : Result Task) → Guarantees Follows (settle_row row id r)
unfolding settle_row
settle-Follows row id (ok cur) = search (worker_rules, mark-Follows)
settle-Follows row id (err e) = search worker_rules

after_run-Follows : (row : OutboxRow) (t : Task) (b : Bool) → Guarantees Follows (after_run row t b)
unfolding after_run
after_run-Follows row t true = search (worker_rules, note-Follows, mark-Follows) depth 8
after_run-Follows row t false = search (worker_rules, settle-Follows) depth 8

module _ (c : Dispatcher) where
  module _ (row : OutboxRow) (t : Task) where
    run_worker-Follows : (env : Envelope) → Guarantees Follows (run_worker c row t env)
    unfolding run_worker
    run_worker-Follows env =
        search (worker_rules, on_start-Follows, on_session-Follows, after_run-Follows) depth 10

    spawn_worker-Follows : (env : Envelope) → Guarantees Follows (spawn_worker c row t env)
    unfolding spawn_worker
    spawn_worker-Follows env = search (worker_rules, run_worker-Follows) depth 8

    on_transition-Follows :
        (env : Envelope) (r : Result (Unit {0})) → Guarantees Follows (on_transition c row t env r)
    unfolding on_transition
    on_transition-Follows env (ok _) = spawn_worker-Follows env
    on_transition-Follows env (err e) = search worker_rules

    resume_with-Follows : (o : Option Envelope) → Guarantees Follows (resume_with c row t o)
    unfolding resume_with
    resume_with-Follows none = search worker_rules
    resume_with-Follows (some env) = search (worker_rules, on_transition-Follows) depth 8

  loaded-Follows : (row : OutboxRow) (r : Result Task) → Guarantees Follows (resume_loaded c row r)
  unfolding resume_loaded
  loaded-Follows row (ok t) = search (worker_rules, mark-Follows, resume_with-Follows) depth 8
  loaded-Follows row (err e) = search worker_rules

  payload-Follows :
      (row : OutboxRow) (o : Option String) → Guarantees Follows (resume_payload c row o)
  unfolding resume_payload
  payload-Follows row none = search worker_rules
  payload-Follows row (some id) = search (worker_rules, loaded-Follows) depth 8

  process-Follows : (row : OutboxRow) → Guarantees Follows (process_row c row)
  unfolding process_row
  process-Follows row = search (worker_rules, payload-Follows) depth 8

  claimed-Follows : (row : OutboxRow) (r : Result ℕ) → Guarantees Follows (process_claimed c row r)
  unfolding process_claimed
  claimed-Follows row (ok n) = search (worker_rules, process-Follows) depth 8
  claimed-Follows row (err e) = search worker_rules

  claim_rows-Follows :
      (at : ℕ) (rows : List OutboxRow) (n : ℕ) → Guarantees Follows (claim_rows c at rows n)
  unfolding claim_rows
  claim_rows-Follows at [] n = search worker_rules
  claim_rows-Follows at (row ∷ rows) n =
      let rest = claim_rows-Follows at rows in search (worker_rules, claimed-Follows, rest) depth 8

  pub dispatch-Follows : (busy : Bool) → Guarantees Follows (claim_and_dispatch c busy)
  unfolding claim_and_dispatch
  dispatch-Follows true = search worker_rules
  dispatch-Follows false = search (worker_rules, claim_rows-Follows) depth 8

kill-Follows : (o : Option ℕ) → Guarantees Follows (kill_pgid o)
unfolding kill_pgid
kill-Follows none = search worker_rules
kill-Follows (some pgid) = search worker_rules

drop-Follows :
    (id : String) (o : Option (ℕ → String → Result ℕ)) → Guarantees Follows (drop_approvals id o)
unfolding drop_approvals
drop-Follows id none = search worker_rules
drop-Follows id (some f) = search worker_rules

module _ (x : Executor) where
  kill_group-Follows : (t : Task) → Guarantees Follows (kill_process_group x t)
  unfolding kill_process_group
  kill_group-Follows t = search (worker_rules, kill-Follows) depth 8

  close-Follows : (t : Task) → Guarantees Follows (close_task x t)
  unfolding close_task
  close-Follows t = search (worker_rules, drop-Follows) depth 16

  halt_loaded-Follows : (t : Task) → Guarantees Follows (halt_loaded x t)
  unfolding halt_loaded
  halt_loaded-Follows t = search (worker_rules, kill_group-Follows, close-Follows) depth 8

  halt_found-Follows : (r : Result Task) → Guarantees Follows (halt_found x r)
  unfolding halt_found
  halt_found-Follows (ok t) = search (worker_rules, halt_loaded-Follows) depth 8
  halt_found-Follows (err Error.no_rows) = search worker_rules
  halt_found-Follows (err e) = search worker_rules

  pub halt_task-Follows : (id : String) → Guarantees Follows (halt_task x id)
  unfolding halt_task
  halt_task-Follows id = search (worker_rules, halt_found-Follows) depth 8

  halt_each-Follows : (tasks : List Task) (n : ℕ) → Guarantees Follows (halt_each x tasks n)
  unfolding halt_each
  halt_each-Follows [] n = search worker_rules
  halt_each-Follows (t ∷ tasks) n =
      let rest = halt_each-Follows tasks in search (worker_rules, halt_task-Follows, rest) depth 8

  pub halt_all-Follows : Guarantees Follows (halt_all x)
  unfolding halt_all
  halt_all-Follows = search (worker_rules, halt_each-Follows) depth 8
