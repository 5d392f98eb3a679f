-- ===== src/Task/Examples.antt =====
-- Tests of kahyad/internal/task on concrete tasks, and the theorems at them.
use kahya.Base.{
  ℕ, String, ◌≡◌, refl, some, none, List, [], ◌∷◌, ◌++◌, ◌+◌, inr, arith, true, false, Bool, Option,
}
use kahya.Base.Exec.{
  World, ok, err, calm, lost_transition_race, illegal_transition as illegal, ◌>>=◌,
}
use kahya.Base.Table.{find, select, update_where, count_where}
use kahya.Task.Rows.{
  retry_wait, transition_conflict, ActionClass, class_w2, CallStatus, call_executing, ToolCall,
  OutboxRow, Status, executing, user_halted, done, failed, blocked_user, Task, Db, Event,
}
use kahya.Task.Queries.{get_task_by_id, set_task_status}
use kahya.Task.Machine.{transition, transition_from, commit_transition, count_attempt}
use kahya.Task.Machine.Edges.{Follows-order, LegalPath, status_of}
use kahya.Task.Handlers.{
  Call, transitions, scans, parks_or_gives_up, fails_non_retryable, run_calls, run_calls-terminal,
  run_calls-LegalPath,
}
use kahya.Task.Receipts.{ExecuteInput, Codec, EffectFunc, execute}
use kahya.Task.Receipts.Atomicity.{execute_atomic, Applied}
use kahya.Task.Receipts.Replay.{execute_twice}
use kahya.Task.Receipts.Stranded.{GivesUp, execute-GivesUp}
use kahya.Task.Resume.{outbox_kind_task_resume, Resume, new_resume, process_task}
use kahya.Task.Resume.Decisions.{process_task-not_retried, SameQueue}
use kahya.Task.Resume.Progress.{process_task-settles, Settled, block}
use kahya.Task.CloudRetry.{CloudRetry, new_cloud_retry, park_or_give_up}
use kahya.Task.CloudRetry.Parking.{
  delay_after, next_retry_of, park_or_give_up-parks, park_or_give_up-gives_up,
}
use kahya.Task.Machine.Outcomes.{commit_race}
use kahya.Task.Machine.Replay.{Request, run, status_in, run-status_in}

abbrev task_at : String → Status → Task
task_at id s = record {
  id = id;
  trace_id = "trace";
  status = s;
  attempts = 1;
  created_at = some 0;
  next_retry_at = none;
  session_id = none;
  envelope = none;
  worker_pgid = none;
  halted_at = none;
}

abbrev two_tasks : Db
two_tasks = record {
  tasks = task_at "a" executing ∷ task_at "b" user_halted ∷ [];
  tool_calls = [];
  outbox = [];
  next_id = 1;
  writes = [];
}

abbrev start : World Db Event
start = calm (λ n. n) 0 [] two_tasks

transition_done : status_of "a" (transition "t" "a" done start).1.db ≡ some done
unfolding transition transition_from commit_transition count_attempt get_task_by_id set_task_status
    find update_where count_where ◌>>=◌
transition_done = refl

transition_halted : (transition "t" "b" executing start).0 ≡ err illegal
unfolding transition transition_from get_task_by_id find ◌>>=◌
transition_halted = refl

abbrev resume_default : Resume
unfolding new_resume
resume_default = new_resume 0 true none (λ id. id)

abbrev retry_default : CloudRetry
unfolding new_cloud_retry
retry_default = new_cloud_retry true [] 0 (λ id. id)

abbrev calls : List Call
calls =
    transitions "t" "b" executing
    ∷ scans resume_default
    ∷ parks_or_gives_up retry_default "t" "b"
    ∷ fails_non_retryable retry_default "t" "b" "refused"
    ∷ []

run_calls-terminal_example : status_of "b" (run_calls calls start).db ≡ some user_halted
unfolding find
run_calls-terminal_example =
    run_calls-terminal calls start (λ n d. Follows-order.same d) "b" user_halted refl refl

run_calls-LegalPath_example :
    (s : Status) × (status_of "a" (run_calls calls start).db ≡ some s) × LegalPath executing s
unfolding find
run_calls-LegalPath_example =
    run_calls-LegalPath calls start (λ n d. Follows-order.same d) "a" executing refl

commit_race_example :
    let first = commit_transition "t" "a" executing done start in
    let second = commit_transition "u" "a" executing user_halted first.1 in
    (first.0 ≡ ok tt)
    × (second.0 ≡ err lost_transition_race)
    × (second.1.db ≡ first.1.db)
    × (status_of "a" second.1.db ≡ some done)
    × (second.1.ledger ≡ transition_conflict "u" "a" executing user_halted ∷ first.1.ledger)
unfolding find
commit_race_example =
    commit_race (λ n. n) 0 [] two_tasks "t" "u" "a" executing done user_halted
      (task_at "a" executing) refl refl refl

abbrev requests : List Request
requests =
    record { trace_id = "t"; task_id = "b"; to = executing }
    ∷ record { trace_id = "t"; task_id = "a"; to = blocked_user }
    ∷ record { trace_id = "t"; task_id = "a"; to = executing }
    ∷ []

run-status_in_example :
    status_of "a" (run requests start).db
    ≡ some (status_in "a" executing (run requests start).ledger)
unfolding find
run-status_in_example = run-status_in (λ n. n) 0 two_tasks "a" executing requests refl

abbrev codec : Codec
codec = record { marshal = λ s. some s; unmarshal = λ s. some s }

abbrev send_mail : EffectFunc
send_mail writes = (ok "sent", "mail" ∷ writes)

abbrev mail_call : ExecuteInput
mail_call = record {
  task_id = "a";
  trace_id = "t";
  tool_name = "mail_send";
  class = class_w2;
  args_hash = "h";
}

abbrev never : ℕ → Bool
never n = false

execute_twice_example :
    let first = execute codec mail_call never send_mail start in
    let second = execute codec mail_call never send_mail first.1 in
    (first.0 ≡ ok ("sent", false))
    × (first.1.db.writes ≡ "mail" ∷ [])
    × (second.0 ≡ ok ("sent", true))
    × (second.1.db ≡ first.1.db)
unfolding find
execute_twice_example =
    execute_twice codec mail_call never never (λ n. n) 0 [] two_tasks send_mail send_mail "sent"
      "sent" "sent" ("mail" ∷ []) (task_at "a" executing) refl refl refl refl refl refl

execute_atomic_example :
    Applied send_mail two_tasks
      (execute codec mail_call never send_mail start).0
      (execute codec mail_call never send_mail start).1.db
execute_atomic_example = execute_atomic codec mail_call send_mail never start (λ n d. refl)

abbrev call_of : ActionClass → CallStatus → Option String → ToolCall
call_of k s json = record {
  id = 7;
  task_id = "a";
  seq = 1;
  tool_name = "mail_send";
  class = k;
  args_hash = "h";
  status = s;
  receipt_json = json;
}

abbrev db_with : ToolCall → Db
db_with c = record two_tasks { tool_calls = c ∷ [] }

execute-GivesUp_example :
    let stranded = db_with (call_of class_w2 call_executing none) in
    let out = execute codec mail_call never send_mail (calm (λ n. n) 0 [] stranded) in
    (out.1.db ≡ stranded) × GivesUp never 50 out.0
unfolding find
execute-GivesUp_example =
    execute-GivesUp codec mail_call never send_mail (λ n. n) 0 []
      (db_with (call_of class_w2 call_executing none)) (call_of class_w2 call_executing none) refl
      refl refl

process_task-settles_example :
    let out =
      process_task resume_default
        (task_at "a" executing)
        (calm (λ n. n) 0 [] (db_with (call_of class_w2 call_executing none))) in
    (out.0 ≡ ok tt)
    × Settled resume_default
        (task_at "a" executing)
        block
        (db_with (call_of class_w2 call_executing none))
        out.1
unfolding find select
process_task-settles_example =
    process_task-settles resume_default (task_at "a" executing) (λ n. n) 0 []
      (db_with (call_of class_w2 call_executing none)) (task_at "a" executing) refl refl

process_task-not_retried_example :
    SameQueue
      (db_with (call_of class_w2 call_executing none))
      (process_task resume_default
        (task_at "a" executing)
        (calm (λ n. n) 0 [] (db_with (call_of class_w2 call_executing none)))).1.db
unfolding select
process_task-not_retried_example =
    process_task-not_retried resume_default (task_at "a" executing)
      (call_of class_w2 call_executing none) [] never (λ n. n) 0 []
      (db_with (call_of class_w2 call_executing none)) refl refl

abbrev late : ℕ → ℕ
late n = 86400000000000

park_or_give_up-parks_example :
    let out = park_or_give_up retry_default "t" "a" start in
    let at = 1 + delay_after retry_default.schedule (task_at "a" executing).attempts in
    (out.0 ≡ ok tt)
    × (status_of "a" out.1.db ≡ some retry_wait)
    × (next_retry_of "a" out.1.db ≡ some (some at))
    × ((row : OutboxRow) × (out.1.db.outbox ≡ [] ++ row ∷ [])
        × (row.available_at ≡ at)
        × (row.task_id ≡ some "a")
        × (row.kind ≡ outbox_kind_task_resume))
unfolding find retry_default new_cloud_retry
park_or_give_up-parks_example =
    park_or_give_up-parks retry_default (λ n. n) 0 [] two_tasks (task_at "a" executing) "t" "a" refl
      refl (inr (0, refl, omega arith))

park_or_give_up-gives_up_example :
    let out = park_or_give_up retry_default "t" "a" (calm late 0 [] two_tasks) in
    (out.0 ≡ ok tt) × (status_of "a" out.1.db ≡ some failed) × (out.1.db.outbox ≡ [])
unfolding find retry_default new_cloud_retry
park_or_give_up-gives_up_example =
    park_or_give_up-gives_up retry_default late 0 [] two_tasks (task_at "a" executing) "t" "a" refl
      refl 0 refl (omega arith)
