-- ===== src/Task/Rows.antt =====
-- The rows of `tasks`, `tool_calls` and `outbox` (kahyad/internal/store/sqlcgen/models.go), and the
-- ledger events and status values of kahyad/internal/task. A timestamp column is `none` where its
-- text does not parse; times are nanoseconds.
use kahya.Base.{ℕ, String, Bool, true, false, Option, List}
use kahya.Base.Exec.{World, Exec}

-- tasks.status: the CHECK constraint's values
pub data Status : Type 0 where
  intent executing retry_wait blocked_user user_halted done failed : Status

abbrev pub status_eq : Status → Status → Bool
status_eq intent intent = true
status_eq executing executing = true
status_eq retry_wait retry_wait = true
status_eq blocked_user blocked_user = true
status_eq user_halted user_halted = true
status_eq done done = true
status_eq failed failed = true
status_eq _ _ = false

-- tool_calls.status
pub data CallStatus : Type 0 where
  call_intent call_executing call_receipt call_failed : CallStatus

-- policy.ActionClass, a string type: `class_unset` is its zero value, the empty string
pub data ActionClass : Type 0 where
  class_r class_w1 class_w2 class_w3 class_unset : ActionClass

abbrev pub is_class_r : ActionClass → Bool
is_class_r class_r = true
is_class_r _ = false

abbrev pub is_class_w1 : ActionClass → Bool
is_class_w1 class_w1 = true
is_class_w1 _ = false

pub record Task : Type 0 where
  pub id : String
  pub trace_id : String
  pub status : Status
  pub attempts : ℕ
  pub created_at : Option ℕ
  pub next_retry_at : Option ℕ
  pub session_id : Option String
  pub envelope : Option String
  pub worker_pgid : Option ℕ
  pub halted_at : Option ℕ

-- `receipt_json` is the encoded envelope of a call that reached its receipt
pub record ToolCall : Type 0 where
  pub id : ℕ
  pub task_id : String
  pub seq : ℕ
  pub tool_name : String
  pub class : ActionClass
  pub args_hash : String
  pub status : CallStatus
  pub receipt_json : Option String

pub record OutboxRow : Type 0 where
  pub id : ℕ
  pub trace_id : String
  pub kind : String
  pub payload : String
  pub available_at : ℕ
  pub lease_until : Option ℕ
  pub dispatched_at : Option ℕ
  pub canceled_at : Option ℕ
  pub attempts : ℕ
  pub task_id : Option String

-- `writes` is what the effects of tool calls wrote into the other tables.
pub record Db : Type 0 where
  pub tasks : List Task
  pub tool_calls : List ToolCall
  pub outbox : List OutboxRow
  pub next_id : ℕ
  pub writes : List String

-- the events of the package, with the columns of the payload that identify them
pub data Event : Type 0 where
  transition illegal_transition transition_conflict : String → String → Status → Status → Event
  tool_replayed : String → String → String → ℕ → Event
  waiting_retry : String → ℕ → ℕ → Event
  task_failed : String → String → Event
  notified : String → String → String → Event
  outbox_event : String → String → Event
  user_halted_event invalidates_approvals : String → Event
  registered unregistered : String → Event
  killed : ℕ → Event

abbrev pub Handler : Type 0 → Type 0
Handler = Exec Db Event

abbrev pub TaskWorld : Type 0
TaskWorld = World Db Event
