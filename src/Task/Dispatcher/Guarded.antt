-- ===== src/Task/Dispatcher/Guarded.antt =====
-- A redelivered row of a halted or blocked task never runs a worker.
use kahya.Base.{
  ℕ, String, Bool, true, ◌&&◌, ◌≡◌, ◌⊎◌, inl, inr, refl, some, List, [], ◌∷◌, arith, eqb, ◌==◌,
}
use kahya.Base.Table.{find, count_where, update_where}
use kahya.Base.Exec.{calm, ◌>>=◌}
use kahya.Task.Rows.{user_halted, blocked_user, Task, OutboxRow, Db, Event, outbox_event}
use kahya.Task.Queries.{has_id, has_outbox_id, is_none, get_task_by_id, mark_outbox_delivered}
use kahya.Task.Resume.{outbox_kind_task_resume}
use kahya.Task.Dispatcher.{
  Dispatcher, is_guarded, note_error, mark_delivered, resume_loaded, resume_payload, process_row,
}

undelivered : ℕ → OutboxRow → Bool
undelivered id o = eqb o.id id && is_none o.dispatched_at

all_delivered :
    (id at : ℕ) (rows : List OutboxRow)
    → count_where
        (undelivered id)
        (update_where (has_outbox_id id) (λ o. record o { dispatched_at = some at }) rows)
      ≡ 0
unfolding count_where update_where undelivered
all_delivered id at [] = refl
all_delivered id at (o ∷ rows) = ground (arith, all_delivered id at rows)

-- A resume row whose task is user_halted or blocked_user, that is halted or waiting for the user, is delivered without a worker: the only
-- event is the guard's, no task changes, and no undelivered row with the row's id is left. (No failing
-- call, no other handler.)
pub process_row-guarded :
    (c : Dispatcher) (row : OutboxRow) (id : String) (t : Task) (clock : ℕ → ℕ) (n : ℕ)
    (ledger : List Event) (d : Db)
    → (row.kind == outbox_kind_task_resume) ≡ true
    → c.payload_task row.payload ≡ some id
    → find (has_id id) d.tasks ≡ some t
    → (t.status ≡ user_halted) ⊎ (t.status ≡ blocked_user)
    → let out = process_row c row (calm clock n ledger d) in
      (out.1.ledger ≡ outbox_event "outbox.redelivery_guarded" t.id ∷ ledger)
      × (out.1.db.tasks ≡ d.tasks)
      × (count_where (λ o. eqb o.id row.id && is_none o.dispatched_at) out.1.db.outbox ≡ 0)
unfolding process_row resume_payload get_task_by_id resume_loaded mark_delivered
    mark_outbox_delivered note_error undelivered ◌>>=◌
process_row-guarded c row id t clock n ledger d resumes decodes loaded waits =
    let guarded : is_guarded t.status ≡ true = elim waits [
      | inl e ↦ rw e refl
      | inr e ↦ rw e refl
    ] in
    rw (resumes, decodes, loaded, guarded) (refl, refl, all_delivered row.id _ d.outbox)
