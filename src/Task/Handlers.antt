-- ===== src/Task/Handlers.antt =====
-- Every handler of the package moves statuses along legal transitions only.
use kahya.Base.{ℕ, String, Bool, true, ◌≡◌, some, List, [], ◌∷◌, sym, subst}
use kahya.Base.Exec.{World, pure, ◌>>◌}
use kahya.Base.Guarantee.{Guarantees, Rely}
use kahya.Task.Rows.{Status, Db, Event, Handler}
use kahya.Task.Machine.{transition}
use kahya.Task.Machine.Edges.{
  LegalPath, status_of, Follows, Follows-same, Follows-order, transition-Follows,
}
use kahya.Task.Machine.Terminal.{is_terminal, Follows-terminal}
use kahya.Task.Resume.{Resume, scan}
use kahya.Task.CloudRetry.{CloudRetry, fail_non_retryable, park_or_give_up}
use kahya.Task.Resolver.{retry, abort}
use kahya.Task.Dispatcher.{Dispatcher, renew_lease, claim_and_dispatch}
use kahya.Task.Halting.{Executor, halt_task, halt_all}
use kahya.Task.Following.{handler_rules, scan-Follows, fail_task-Follows, park_or_give_up-Follows}
use kahya.Task.Following.Workers.{
  retry-Follows, abort-Follows, dispatch-Follows, renew-Follows, halt_task-Follows,
  halt_all-Follows,
}

-- the entry points of the package that change the status of a task
pub data Call : Type 0 where
  transitions : String → String → Status → Call
  scans : Resume → Call
  parks_or_gives_up : CloudRetry → String → String → Call
  fails_non_retryable : CloudRetry → String → String → String → Call
  retries : (String → String) → String → String → Call
  aborts : String → String → Call
  dispatches : Dispatcher → Bool → Call
  renews : Dispatcher → ℕ → Call
  halts : Executor → String → Call
  halts_all : Executor → Call

unfoldable pub run_call : Call → Handler (Unit {0})
run_call (transitions trace_id id to) = transition trace_id id to
run_call (scans r) = do scan r; pure tt
run_call (parks_or_gives_up c trace_id id) = park_or_give_up c trace_id id
run_call (fails_non_retryable c trace_id id reason) = fail_non_retryable c trace_id id reason
run_call (retries payload_json trace_id id) = retry payload_json trace_id id
run_call (aborts trace_id id) = abort trace_id id
run_call (dispatches c busy) = do claim_and_dispatch c busy; pure tt
run_call (renews c id) = renew_lease c id
run_call (halts x id) = do halt_task x id; pure tt
run_call (halts_all x) = do halt_all x; pure tt

run_call-Follows : (call : Call) → Guarantees Follows (run_call call)
unfolding run_call fail_non_retryable
run_call-Follows (transitions trace_id id to) = transition-Follows trace_id id to
run_call-Follows (scans r) = search (handler_rules, scan-Follows)
run_call-Follows (parks_or_gives_up c trace_id id) = park_or_give_up-Follows c trace_id id
run_call-Follows (fails_non_retryable c trace_id id reason) = fail_task-Follows c trace_id id reason
run_call-Follows (retries payload_json trace_id id) = retry-Follows payload_json trace_id id
run_call-Follows (aborts trace_id id) = abort-Follows trace_id id
run_call-Follows (dispatches c busy) = search (handler_rules, dispatch-Follows)
run_call-Follows (renews c id) = renew-Follows c id
run_call-Follows (halts x id) = search (handler_rules, halt_task-Follows)
run_call-Follows (halts_all x) = search (handler_rules, halt_all-Follows)

-- calls one after the other, each after whatever the one before it returned
unfoldable pub run_calls : List Call → World Db Event → World Db Event
run_calls [] w = w
run_calls (call ∷ calls) w = run_calls calls (run_call call w).1

run_calls-Follows :
    (calls : List Call) (w : World Db Event)
    → Rely Follows w.others
    → Follows w.db (run_calls calls w).db
unfolding run_calls
run_calls-Follows [] w rely = Follows-same w.db
run_calls-Follows (call ∷ calls) w rely =
    let g = run_call-Follows call in
    Follows-order.chain w.db (run_call call w).1.db _ (g.at w rely) (
      run_calls-Follows calls (run_call call w).1
        (subst (Rely Follows) (sym (g.others_kept w)) rely))

-- A task that is done, failed or halted by the user keeps its status through any calls of
-- Machine.Transition, Resume.Scan, CloudRetry.ParkOrGiveUp and FailNonRetryable, Resolver.Retry and
-- Abort, Dispatcher.ClaimAndDispatch and its lease renewals, HaltTask and HaltAll, for any tasks and
-- targets and whichever calls of the database fail, if the handlers that run beside them move
-- statuses along legal transitions only.
pub run_calls-terminal :
    (calls : List Call) (w : World Db Event)
    → Rely Follows w.others
    → (id : String) (s : Status) → status_of id w.db ≡ some s
    → is_terminal s ≡ true
    → status_of id (run_calls calls w).db ≡ some s
run_calls-terminal calls w rely id s e h =
    Follows-terminal w.db _ id s (run_calls-Follows calls w rely) e h

-- Through the same calls, under the same conditions, a task is never lost, and there is a path of
-- legal transitions from its status to the one that it has afterwards.
pub run_calls-LegalPath :
    (calls : List Call) (w : World Db Event)
    → Rely Follows w.others
    → (id : String) (s : Status) → status_of id w.db ≡ some s
    → (s' : Status) × (status_of id (run_calls calls w).db ≡ some s') × LegalPath s s'
run_calls-LegalPath calls w rely = (run_calls-Follows calls w rely).path
