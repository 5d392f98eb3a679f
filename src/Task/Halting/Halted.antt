-- ===== src/Task/Halting/Halted.antt =====
-- A halted task stays halted and nothing of it is dispatched again.
use kahya.Base.{
  ℕ, suc, String, Bool, true, false, ◌&&◌, ◌≡◌, refl, ◌∙◌, Option, none, some, List, [], ◌∷◌, arith,
  Bool-cases, Option-cases, inl, inr, if◌then◌else◌, ◌==◌,
}
use kahya.Base.Table.{find, count_where, update_where, count_where-update_where}
use kahya.Base.Exec.{World, Result, ok, calm, ◌>>=◌}
use kahya.Task.Rows.{user_halted, status_eq, killed, Task, OutboxRow, Db, Event}
use kahya.Task.Queries.{
  has_id, get_task_by_id, update_task, set_task_halted_at, cancel_outbox_rows_by_task,
  is_open_row_of, is_terminal_status, is_due,
}
use kahya.Task.Machine.{is_legal_transition}
use kahya.Task.Machine.Edges.{status_of, status_of-update_same}
use kahya.Task.Machine.Outcomes.{status_of-write, write_status, write_attempt}
use kahya.Task.Machine.Replay.{transition_legal, transition_refused}
use kahya.Task.Halting.{
  or_stored, live_pid, Executor, kill_pgid, kill_process_group, drop_approvals, close_task,
  halt_loaded, halt_found, halt_task,
}

abbrev names : String → OutboxRow → Bool
names id o = elim o.task_id [ none ↦ false | some j ↦ j == id ]

-- the rows of the task that are due
abbrev pub due_of : ℕ → String → Db → ℕ
due_of at id d = count_where (λ o. names id o && is_due at d o) d.outbox

none_due :
    (at : ℕ) (id : String) (d : Db) (rows : List OutboxRow)
    → count_where (is_open_row_of id) rows ≡ 0
    → count_where (λ o. names id o && is_due at d o) rows ≡ 0
unfolding count_where
none_due at id d [] h = refl
none_due at id d (o ∷ rows) h = ground (arith, none_due at id d rows)

kill_pgid-calm :
    (clock : ℕ → ℕ) (n : ℕ) (ledger : List Event) (d : Db) (o : Option ℕ)
    → (l : List Event) × (kill_pgid o (calm clock n ledger d) ≡ (ok tt, calm clock n l d))
unfolding kill_pgid ◌>>=◌
kill_pgid-calm clock n ledger d none = (ledger, refl)
kill_pgid-calm clock n ledger d (some pgid) = (killed pgid ∷ ledger, refl)

-- what the close of a task does, in the database alone
abbrev closed : ℕ → String → Db → Db
closed at id d = record d {
  tasks = update_where (has_id id) (λ t. record t { halted_at = some at }) d.tasks;
  outbox = update_where (is_open_row_of id) (λ o. record o { canceled_at = some at }) d.outbox;
}

module _ (x : Executor) (clock : ℕ → ℕ) (n : ℕ) (ledger : List Event) (d : Db) (t : Task) where
  Closes : Type 0
  Closes =
      let out = close_task x t (calm clock n ledger d) in
      (out.0 ≡ ok true)
      × (status_of t.id out.1.db ≡ status_of t.id d)
      × ((at : ℕ) → due_of at t.id out.1.db ≡ 0)

  close_task-Closes : Closes
  unfolding Closes close_task set_task_halted_at update_task cancel_outbox_rows_by_task
      drop_approvals ◌>>=◌
  close_task-Closes =
      let at = clock (suc n) in
      let kept =
        status_of-update_same (has_id t.id) (λ u. record u { halted_at = some (clock n) }) t.id d
          (λ u. refl) (λ u. refl) in
      let canceled =
        count_where-update_where (is_open_row_of t.id) (λ o. record o { canceled_at = some at })
          (λ o h. ground arith) d.outbox in
      elim (Option-cases x.invalidate_approvals) [
        | inl e ↦ rw e (refl, kept, λ k. none_due k t.id (closed (clock n) t.id d) _ canceled)
        | inr (f, e) ↦ rw e (refl, kept, λ k. none_due k t.id (closed (clock n) t.id d) _ canceled)
      ]

abbrev pub Halts : Task → Result Bool × World Db Event → Type 0
Halts t out =
    (out.0 ≡ ok true)
    × (status_of t.id out.1.db
        ≡ some (if is_legal_transition t.status user_halted then user_halted else t.status))
    × ((at : ℕ) → due_of at t.id out.1.db ≡ 0)

module _ (x : Executor) (clock : ℕ → ℕ) (n : ℕ) (ledger : List Event) (d : Db) (t : Task)
    (loaded : find (has_id t.id) d.tasks ≡ some t)
    (open_task : is_terminal_status t.status ≡ false) where
  loaded-Halts : Halts t (halt_loaded x t (calm clock n ledger d))
  unfolding halt_loaded kill_process_group Closes ◌>>=◌
  loaded-Halts =
      let (l, kills) =
        kill_pgid-calm clock n ledger d (or_stored (live_pid x n t.id) t.worker_pgid) in
      let moves : status_eq t.status user_halted ≡ false = ground (arith, open_task) in
      elim (Bool-cases (is_legal_transition t.status user_halted)) [
        | inl legal ↦
            let (done_now, kept, nothing_due) =
              close_task-Closes x clock (suc (suc n)) _
                (write_attempt user_halted t.id (write_status t.id t.status user_halted d)) t in
            rw
              (
                kills,
                transition_legal clock n l t.trace_id t.id user_halted d t loaded moves legal,
                legal,
              )
              (
                done_now,
                kept ∙ status_of-write t.id t.status user_halted d t loaded refl,
                nothing_due,
              )
        | inr refused ↦
            let (done_now, kept, nothing_due) = close_task-Closes x clock (suc n) _ d t in
            rw
              (
                kills,
                transition_refused clock n l t.trace_id t.id user_halted d t loaded moves refused,
                refused,
              )
              (done_now, kept ∙ rw loaded refl, nothing_due)
      ]

module _ (x : Executor) (clock : ℕ → ℕ) (n : ℕ) (ledger : List Event) (d : Db) (t : Task)
    (loaded : find (has_id t.id) d.tasks ≡ some t)
    (open_task : is_terminal_status t.status ≡ false) where
  -- HaltTask of a task that is not done, failed or halted returns true and, where the state machine
  -- has the move to user_halted, the task is halted, else its status stays; either way no outbox row
  -- of the task is due at any time. (No failing call, no other handler.)
  pub halt_task-Halts : Halts t (halt_task x t.id (calm clock n ledger d))
  unfolding halt_task halt_found get_task_by_id ◌>>=◌
  halt_task-Halts =
      rw (loaded, open_task) (loaded-Halts x clock (suc n) ledger d t loaded open_task)
