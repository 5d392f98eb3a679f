-- ===== src/Task/Machine.antt =====
-- kahyad/internal/task/machine.go: the status state machine of a task.
pub mod Edges
pub mod Terminal
pub mod Outcomes
pub mod Replay
use kahya.Base.{String, Bool, true, false, eqb, if◌then◌else◌}
use kahya.Base.Exec.{
  pure, raise, log, illegal_transition as illegal, lost_transition_race, ◌>>=◌, ◌>>◌,
}
use kahya.Task.Rows.{
  Status, status_eq, intent, executing, retry_wait, blocked_user, user_halted, done, failed,
  transition as transition_event, illegal_transition, transition_conflict, Handler,
}
use kahya.Task.Queries.{get_task_by_id, set_task_status, increment_task_attempts}

-- allowedTransitions[from][to]
abbrev pub is_legal_transition : Status → Status → Bool
is_legal_transition intent executing = true
is_legal_transition executing done = true
is_legal_transition executing failed = true
is_legal_transition executing blocked_user = true
is_legal_transition executing retry_wait = true
is_legal_transition executing user_halted = true
is_legal_transition retry_wait executing = true
is_legal_transition retry_wait user_halted = true
is_legal_transition blocked_user executing = true
is_legal_transition blocked_user failed = true
is_legal_transition blocked_user user_halted = true
is_legal_transition _ _ = false

-- every fresh dispatch into `executing` is one more attempt
unfoldable pub count_attempt : Status → String → Handler (Unit {0})
count_attempt executing id = do increment_task_attempts id; pure tt
count_attempt _ id = pure tt

-- from the compare-and-set to the end of Transition
unfoldable pub commit_transition : String → String → Status → Status → Handler (Unit {0})
commit_transition trace_id id from to = do
  affected ← set_task_status to id from
  if eqb affected 0
      then (do log (transition_conflict trace_id id from to); raise lost_transition_race)
      else (do count_attempt to id; log (transition_event trace_id id from to))

-- Machine.Transition behind its load: `from` is the status that was read
unfoldable pub transition_from : String → String → Status → Status → Handler (Unit {0})
transition_from trace_id id to from =
    if status_eq from to
    then pure tt
    else if is_legal_transition from to
    then commit_transition trace_id id from to
    else (do log (illegal_transition trace_id id from to); raise illegal)

unfoldable pub transition : String → String → Status → Handler (Unit {0})
transition trace_id id to = do t ← get_task_by_id id; transition_from trace_id id to t.status
