-- ===== src/Task/Dispatcher.antt =====
-- kahyad/internal/outbox/dispatcher.go: due outbox rows are leased and their tasks' workers run again.
-- The worker is an outside process: `spawn` says what a run calls back and how it ends. The renewal of
-- a lease while the worker runs is one of the acts of other handlers.
pub mod Leases
pub mod Guarded
use kahya.Base.{
  ℕ, zero, suc, ◌+◌, String, Bool, true, false, Option, none, some, List, [], ◌∷◌, ◌==◌, eqb,
  if◌then◌else◌,
}
use kahya.Base.Exec.{Result, Error, ok, err, pure, raise, log, now, position, caught, ◌>>=◌, ◌>>◌}
use kahya.Task.Rows.{
  Status, executing, retry_wait, blocked_user, user_halted, done, failed, Task, OutboxRow,
  outbox_event, registered, unregistered, Handler,
}
use kahya.Task.Queries.{
  get_task_by_id, list_due_outbox_rows, claim_outbox_row, mark_outbox_delivered, renew_outbox_lease,
  update_task_session, set_task_worker_pgid,
}
use kahya.Task.Machine.{transition}
use kahya.Task.Resume.{outbox_kind_task_resume}

-- spawn.Envelope, with the fields that a resume overwrites
pub record Envelope : Type 0 where
  pub task_id : String
  pub trace_id : String
  pub session_id : Option String
  pub resume : Bool
  pub body : String

-- one run of a worker: its process id, the sessions it reports, and whether it ended well
pub record SpawnRun : Type 0 where
  pub started : Option ℕ
  pub sessions : List String
  pub ended_ok : Bool

pub record Dispatcher : Type 0 where
  pub batch_size : ℕ
  pub lease_duration : ℕ
  pub is_live : Option (ℕ → String → Bool)
  -- `false` where the proxy does not open
  pub opener : Option (ℕ → String → Bool)
  pub payload_task : String → Option String
  pub decode_envelope : String → Option Envelope
  pub validate : Envelope → Bool
  pub spawn : ℕ → Envelope → SpawnRun

unfoldable pub note_error : {A : Type 0} → String → String → Result A → Handler (Unit {0})
note_error kind id (ok _) = pure tt
note_error kind id (err _) = log (outbox_event kind id)

unfoldable pub mark_delivered : ℕ → Handler (Unit {0})
mark_delivered id = do
  at ← now
  r ← caught (mark_outbox_delivered at id)
  note_error "outbox.mark_delivered_failed" "" r

-- one tick of renewLeaseWhileRunning
unfoldable pub renew_lease : Dispatcher → ℕ → Handler (Unit {0})
renew_lease c id = do
  at ← now
  r ← caught (renew_outbox_lease (at + c.lease_duration) id)
  note_error "outbox.lease_renew_failed" "" r

-- a redelivered row of such a task is never run
abbrev pub is_guarded : Status → Bool
is_guarded user_halted = true
is_guarded blocked_user = true
is_guarded _ = false

-- what a run that did not end well may have left behind, with the row then delivered
abbrev pub is_settled : Status → Bool
is_settled retry_wait = true
is_settled done = true
is_settled failed = true
is_settled user_halted = true
is_settled blocked_user = true
is_settled _ = false

abbrev pub non_empty : Option String → Option String
non_empty none = none
non_empty (some s) = if s == "" then none else some s

-- OnSession: an empty session is not stored, and a failure to store it is dropped
unfoldable pub store_session : String → String → Handler (Unit {0})
store_session id s = if s == "" then pure tt else (do caught (update_task_session s id); pure tt)

unfoldable pub on_session : String → List String → Handler (Unit {0})
on_session id [] = pure tt
on_session id (s ∷ rest) = do store_session id s; on_session id rest

unfoldable pub on_start : String → Option ℕ → Handler (Unit {0})
on_start id none = pure tt
on_start id (some pid) = do
  log (registered id)
  r ← caught (set_task_worker_pgid pid id)
  note_error "outbox.worker_pgid_persist_failed" id r

unfoldable pub settle_row : ℕ → String → Result Task → Handler (Unit {0})
settle_row row_id id (err _) = log (outbox_event "outbox.task_reload_failed" id)
settle_row row_id id (ok cur) = if is_settled cur.status then mark_delivered row_id else pure tt

unfoldable pub after_run : OutboxRow → Task → Bool → Handler (Unit {0})
after_run row t true = do
  r ← caught (transition t.trace_id t.id done)
  note_error "outbox.transition_failed" t.id r
  mark_delivered row.id
after_run row t false = do cur ← caught (get_task_by_id t.id); settle_row row.id t.id cur

module _ (c : Dispatcher) where
  unfoldable pub decoded : Task → String → Option Envelope → Option Envelope
  decoded t stored none = none
  decoded t stored (some env) =
      let resumed : Envelope = record env {
        task_id = t.id;
        trace_id = t.trace_id;
        session_id = non_empty t.session_id;
        resume = elim (non_empty t.session_id) [ none ↦ false | some _ ↦ true ];
      } in
      if c.validate resumed then some resumed else none

  unfoldable pub build_resume_envelope : Task → Option Envelope
  build_resume_envelope t = elim (non_empty t.envelope) [
    | none ↦ none
    | some stored ↦ decoded t stored (c.decode_envelope stored)
  ]

  unfoldable pub run_worker : OutboxRow → Task → Envelope → Handler (Unit {0})
  run_worker row t env = do
    n ← position
    let run = c.spawn n env
    on_start t.id run.started
    on_session t.id run.sessions
    log (outbox_event "outbox.resume_dispatched" t.id)
    after_run row t run.ended_ok

  abbrev pub opens : ℕ → String → Bool
  opens n id = elim c.opener [ none ↦ true | some f ↦ f n id ]

  -- from the spawn to the deferred Unregister
  unfoldable pub spawn_worker : OutboxRow → Task → Envelope → Handler (Unit {0})
  spawn_worker row t env = do
    n ← position
    if opens n t.id
        then run_worker row t env
        else log (outbox_event "outbox.anthproxy_open_failed" t.id)
    log (unregistered t.id)

  unfoldable pub on_transition :
      OutboxRow → Task → Envelope → Result (Unit {0}) → Handler (Unit {0})
  on_transition row t env (err _) = log (outbox_event "outbox.transition_failed" t.id)
  on_transition row t env (ok _) = spawn_worker row t env

  unfoldable pub resume_with : OutboxRow → Task → Option Envelope → Handler (Unit {0})
  resume_with row t none = log (outbox_event "outbox.envelope_invalid" t.id)
  resume_with row t (some env) = do
    r ← caught (transition t.trace_id t.id executing)
    on_transition row t env r

  abbrev pub live_at : ℕ → String → Bool
  live_at n id = elim c.is_live [ none ↦ false | some f ↦ f n id ]

  unfoldable pub resume_loaded : OutboxRow → Result Task → Handler (Unit {0})
  resume_loaded row (err _) = log (outbox_event "outbox.task_load_failed" "")
  resume_loaded row (ok t) =
      if is_guarded t.status
      then (do log (outbox_event "outbox.redelivery_guarded" t.id); mark_delivered row.id)
      else (do
        n ← position
        if live_at n t.id
            then log (outbox_event "outbox.resume_skipped_live" t.id)
            else resume_with row t (build_resume_envelope t))

  unfoldable pub resume_payload : OutboxRow → Option String → Handler (Unit {0})
  resume_payload row none = log (outbox_event "outbox.payload_invalid" "")
  resume_payload row (some id) = do r ← caught (get_task_by_id id); resume_loaded row r

  unfoldable pub process_row : OutboxRow → Handler (Unit {0})
  process_row row =
      if row.kind == outbox_kind_task_resume
      then resume_payload row (c.payload_task row.payload)
      else log (outbox_event "outbox.unknown_kind" "")

  -- a row that another claim leased, or whose claim failed, is skipped
  unfoldable pub process_claimed : OutboxRow → Result ℕ → Handler ℕ
  process_claimed row (err _) = pure 0
  process_claimed row (ok affected) =
      if eqb affected 0 then pure 0 else (do process_row row; pure 1)

  unfoldable pub claim_rows : ℕ → List OutboxRow → ℕ → Handler ℕ
  claim_rows listed_at [] n = pure n
  claim_rows listed_at (row ∷ rows) n = do
    at ← now
    r ← caught (claim_outbox_row (at + c.lease_duration) row.id listed_at)
    claimed ← process_claimed row r
    claim_rows listed_at rows (n + claimed)

  -- `busy`: another pass is in flight
  unfoldable pub claim_and_dispatch : Bool → Handler ℕ
  claim_and_dispatch true = pure 0
  claim_and_dispatch false = do
    at ← now
    rows ← list_due_outbox_rows at c.batch_size
    claim_rows at rows 0
