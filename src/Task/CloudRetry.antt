-- ===== src/Task/CloudRetry.antt =====
-- kahyad/internal/task/cloudretry.go: a task whose cloud call failed is parked for a later retry, or
-- given up.
pub mod Parking
use kahya.Base.{
  ℕ, zero, suc, ◌+◌, ◌-◌, ◌*◌, String, Bool, true, false, Option, none, some, List, [], ◌∷◌, leb,
  ltb, eqb, length, if◌then◌else◌,
}
use kahya.Base.Exec.{World, Error, pure, raise, log, now, ◌>>=◌, ◌>>◌}
use kahya.Task.Rows.{Task, retry_wait, failed, waiting_retry, task_failed, Handler}
use kahya.Task.Queries.{get_task_by_id, set_task_next_retry}
use kahya.Task.Machine.{transition}
use kahya.Task.Resume.{notify, write_outbox_resume_row_at}

abbrev minute : ℕ
minute = 60000000000

pub record CloudRetry : Type 0 where
  pub schedule : List ℕ
  pub give_up_after : ℕ
  pub has_notifier : Bool
  pub payload_json : String → String

abbrev pub default_cloud_retry_schedule : List ℕ
default_cloud_retry_schedule = minute ∷ 5 * minute ∷ 15 * minute ∷ 60 * minute ∷ []

abbrev pub default_cloud_give_up_after : ℕ
default_cloud_give_up_after = 24 * 60 * minute

abbrev default_schedule_if_empty : List ℕ → List ℕ
default_schedule_if_empty [] = default_cloud_retry_schedule
default_schedule_if_empty (x ∷ xs) = x ∷ xs

-- NewCloudRetry: an empty schedule and a time that is not positive are the defaults
unfoldable pub new_cloud_retry : Bool → List ℕ → ℕ → (String → String) → CloudRetry
new_cloud_retry has_notifier schedule give_up_after payload_json = record {
  schedule = default_schedule_if_empty schedule;
  give_up_after = if eqb give_up_after 0 then default_cloud_give_up_after else give_up_after;
  has_notifier = has_notifier;
  payload_json = payload_json;
}

-- `now - created >= give_up_after`; a timestamp that does not parse never gives up. Clock reads between the
-- same two calls of the database give one time, so `park` reads this one again.
unfoldable pub has_exceeded_give_up : CloudRetry → Task → ℕ → Bool
has_exceeded_give_up c t at = elim t.created_at [
  | none ↦ false
  | some created ↦ leb (created + c.give_up_after) at
]

-- `attempts - 1` stops at 0, as the source's clamp does
unfoldable pub schedule_index : CloudRetry → ℕ → ℕ
schedule_index c attempts =
    let idx = attempts - 1 in if leb (length c.schedule) idx then length c.schedule - 1 else idx

abbrev pub get_or : List ℕ → ℕ → ℕ → ℕ
get_or [] i x = x
get_or (y ∷ ys) zero x = y
get_or (y ∷ ys) (suc i) x = get_or ys i x

module _ (c : CloudRetry) where
  unfoldable pub park : String → String → Task → Handler (Unit {0})
  park trace_id task_id t = do
    at ← now
    let next_retry_at = at + get_or c.schedule (schedule_index c t.attempts) 0
    transition trace_id task_id retry_wait
    set_task_next_retry next_retry_at task_id
    write_outbox_resume_row_at c.payload_json trace_id task_id next_retry_at
    log (waiting_retry task_id next_retry_at t.attempts)
    notify c.has_notifier trace_id "task.waiting_retry" task_id

  -- the end of giveUp and of FailNonRetryable
  unfoldable pub fail_task : String → String → String → Handler (Unit {0})
  fail_task trace_id task_id reason = do
    transition trace_id task_id failed
    log (task_failed task_id reason)
    notify c.has_notifier trace_id "task.failed" task_id

  unfoldable pub give_up : String → String → Handler (Unit {0})
  give_up trace_id task_id = fail_task trace_id task_id "give_up_after_exceeded"

  unfoldable pub fail_non_retryable : String → String → String → Handler (Unit {0})
  fail_non_retryable trace_id task_id reason = fail_task trace_id task_id reason

  unfoldable pub park_or_give_up : String → String → Handler (Unit {0})
  park_or_give_up trace_id task_id = do
    t ← get_task_by_id task_id
    at ← now
    if has_exceeded_give_up c t at then give_up trace_id task_id else park trace_id task_id t
