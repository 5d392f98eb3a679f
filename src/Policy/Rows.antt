-- ===== src/Policy/Rows.antt =====
-- The rows of `autonomy_state`, `approval_tokens`, `pending_approvals` and `undo_windows`
-- (kahyad/internal/store/sqlcgen/models.go), and the decisions and ledger events of
-- kahyad/internal/policy. A time is `none` where its text does not parse; times are nanoseconds. A
-- call of a hook stands among the events, whether one is wired or not.
use kahya.Base.{ℕ, String, Bool, true, false, Option, List}
use kahya.Base.Exec.{World, Exec, Result, Error}
use kahya.Task.Rows.{ActionClass, class_r, class_w1, class_w2, class_w3, class_unset}

abbrev pub is_class_w3 : ActionClass → Bool
is_class_w3 class_w3 = true
is_class_w3 _ = false

-- validClasses; the CHECK constraints on `class` name the same four
abbrev pub is_valid_class : ActionClass → Bool
is_valid_class class_unset = false
is_valid_class _ = true

abbrev pub class_eq : ActionClass → ActionClass → Bool
class_eq class_r class_r = true
class_eq class_w1 class_w1 = true
class_eq class_w2 class_w2 = true
class_eq class_w3 class_w3 = true
class_eq class_unset class_unset = true
class_eq _ _ = false

pub record AutonomyState : Type 0 where
  pub tool : String
  pub class : ActionClass
  pub scope : String
  pub level : ℕ
  pub consecutive_approvals : ℕ
  pub updated_at : Option ℕ

pub record ApprovalToken : Type 0 where
  pub token_hash : String
  pub task_id : String
  pub trace_id : String
  pub tool : String
  pub class : ActionClass
  pub scope : String
  pub approved_bytes_hash : String
  pub minted_at : Option ℕ
  pub expires_at : Option ℕ
  pub consumed_at : Option ℕ
  pub revoked_at : Option ℕ

pub record PendingApproval : Type 0 where
  pub id : String
  pub task_id : String
  pub trace_id : String
  pub tool : String
  pub class : ActionClass
  pub scope : String
  pub approved_bytes_hash : String
  pub minted_at : Option ℕ
  pub expires_at : Option ℕ
  pub consumed_at : Option ℕ
  pub tool_input : String

-- undo_windows.state
pub data UndoState : Type 0 where
  undo_open undo_triggered undo_expired : UndoState

abbrev pub is_undo_open : UndoState → Bool
is_undo_open undo_open = true
is_undo_open _ = false

pub record UndoWindow : Type 0 where
  pub id : ℕ
  pub task_id : String
  pub tool : String
  pub trace_id : String
  pub opened_at : ℕ
  pub deadline : Option ℕ
  pub state : UndoState

pub record PolicyDb : Type 0 where
  pub autonomy : List AutonomyState
  pub tokens : List ApprovalToken
  pub pending : List PendingApproval
  pub undo_windows : List UndoWindow
  pub next_undo_id : ℕ

pub data Answer : Type 0 where
  allow needs_approval deny : Answer

pub data Reason : Type 0 where
  no_reason unknown_tool needs_approval_level w3_always_approval : Reason
  policy_state_error tainted_session : Reason

pub data Rule : Type 0 where
  ladder_v1 tainted_session_v1 : Rule

pub record CheckInput : Type 0 where
  pub tool : String
  pub scope : String
  pub task_id : String
  pub trace_id : String
  pub session_id : String
  pub tool_input : String

-- `pending_approval_id` and `token` are `none` where the source has the empty string.
pub record Decision : Type 0 where
  pub result : Answer
  pub reason : Reason
  pub rule : Rule
  pub class : ActionClass
  pub scope : String
  pub level : ℕ
  pub pending_approval_id : Option String
  pub token : Option String

pub data Event : Type 0 where
  policy_decision : String → ℕ → Decision → Event
  session_resolve_error taint_check_read_error undo_window_open_failed : String → Event
  demoted promoted : String → ActionClass → String → ℕ → ℕ → Event
  undo_window_opened undo_window_expired undo_triggered : String → String → Event
  token_verify_failed token_halt_revoked : String → String → Event
  w3_nonlocal_approval_rejected w3_invalid_typed_onayla : String → Event
  policy_feedback_approved promotion_suggested : String → ActionClass → String → ℕ → Event
  policy_feedback_denied : String → ActionClass → String → Event
  approval_invalidate_failed approval_invalidated : String → String → Event
  approval_token_revoke_failed : String → Event
  pending_approval_hook invalidated_hook : String → Event
  undo_expiry_hook : String → String → String → Event

abbrev pub Handler : Type 0 → Type 0
Handler = Exec PolicyDb Event

abbrev pub PolicyWorld : Type 0
PolicyWorld = World PolicyDb Event

pub data TaintTier : Type 0 where
  tier_clean tier_tainted : TaintTier

-- Engine, with what it is built on. `random` is 32 bytes of crypto/rand at a call's number, or its
-- failure; `hex_decode` refuses what is no 32 bytes in hex; `bytes_hash` is the SHA-256 of the
-- canonical bytes, `raw_bytes_hash` that of the bytes; `nfc` is canon.Normalize. The taint checker and
-- the session resolver may be unset.
pub record Engine : Type 0 where
  pub tools_by_name : String → Option ActionClass
  pub bytes_hash : String → String
  pub raw_bytes_hash : String → String
  pub hex_encode : String → String
  pub hex_decode : String → Option String
  pub random : ℕ → Option String
  pub nfc : String → String
  pub undo_window_duration : ℕ
  pub taint_checker : Option (ℕ → String → TaintTier × Option Error)
  pub session_resolver : Option (ℕ → String → String → Result String)
