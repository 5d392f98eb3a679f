-- ===== src/Task/WorkerExamples.antt =====
-- Tests of kahyad/internal/outbox and kahyad/internal/halt on concrete rows, and the theorems at them.
use kahya.Base.{inl, String, ◌≡◌, refl, some, none, [], ◌∷◌, true, eqb, ◌&&◌, arith}
use kahya.Base.Exec.{ok, calm}
use kahya.Base.Table.{find, count_where}
use kahya.Task.Rows.{OutboxRow, Status, executing, user_halted, Task, Db, outbox_event}
use kahya.Task.Queries.{claim_outbox_row, is_none}
use kahya.Task.Halting.{Executor, halt_task}
use kahya.Task.Halting.Halted.{halt_task-Halts, Halts}
use kahya.Task.Dispatcher.{Dispatcher, process_row}
use kahya.Task.Dispatcher.Leases.{claim_outbox_row-once}
use kahya.Task.Dispatcher.Guarded.{process_row-guarded}

abbrev task_at : String → Status → Task
task_at id s = record {
  id = id;
  trace_id = "trace";
  status = s;
  attempts = 1;
  created_at = some 0;
  next_retry_at = none;
  session_id = none;
  envelope = none;
  worker_pgid = none;
  halted_at = none;
}

abbrev due_row : OutboxRow
due_row = record {
  id = 3;
  trace_id = "trace";
  kind = "task_resume";
  payload = "b";
  available_at = 0;
  lease_until = none;
  dispatched_at = none;
  canceled_at = none;
  attempts = 0;
  task_id = some "b";
}

abbrev db_of : Status → Db
db_of s = record {
  tasks = task_at "a" executing ∷ task_at "b" s ∷ [];
  tool_calls = [];
  outbox = due_row ∷ [];
  next_id = 4;
  writes = [];
}

abbrev executor : Executor
executor = record { worker_pid = some (λ n id. some 42); invalidate_approvals = none }

halt_task-Halts_example :
    Halts (task_at "b" executing) (halt_task executor "b" (calm (λ n. n) 0 [] (db_of executing)))
unfolding find
halt_task-Halts_example =
    halt_task-Halts executor (λ n. n) 0 [] (db_of executing) (task_at "b" executing) refl refl

claim_outbox_row-once_example :
    let first = claim_outbox_row 50 3 10 (calm (λ n. n) 0 [] (db_of executing)) in
    let second = claim_outbox_row 60 3 10 first.1 in (second.0 ≡ ok 0) × (second.1.db ≡ first.1.db)
unfolding count_where
claim_outbox_row-once_example =
    claim_outbox_row-once (λ n. n) 0 [] (db_of executing) 50 60 3 10 10 (omega arith) (omega arith)
      (omega arith)

abbrev dispatcher : Dispatcher
dispatcher = record {
  batch_size = 8;
  lease_duration = 30;
  is_live = none;
  opener = none;
  payload_task = λ s. some s;
  decode_envelope = λ s. none;
  validate = λ e. true;
  spawn = λ n e. record { started = some 42; sessions = []; ended_ok = true };
}

process_row-guarded_example :
    let out = process_row dispatcher due_row (calm (λ n. n) 0 [] (db_of user_halted)) in
    (out.1.ledger ≡ outbox_event "outbox.redelivery_guarded" "b" ∷ [])
    × (out.1.db.tasks ≡ (db_of user_halted).tasks)
    × (count_where (λ o. eqb o.id 3 && is_none o.dispatched_at) out.1.db.outbox ≡ 0)
unfolding find
process_row-guarded_example =
    process_row-guarded dispatcher due_row "b" (task_at "b" user_halted) (λ n. n) 0 []
      (db_of user_halted) refl refl refl (inl refl)
