-- ===== src/Task/Machine/Outcomes.antt =====
-- What Machine.Transition returns, and what it has then done.
use kahya.Base.{ℕ, suc, String, true, false, ◌≡◌, refl, some, List, ◌∷◌, arith, ap, ◌∙◌, eqb}
use kahya.Base.Table.{
  find, update_where, count_where, find-update_where, find-count_where, update_where_none,
  count_where-update_where,
}
use kahya.Base.Exec.{World, ok, err, calm, lost_transition_race, ◌>>=◌}
use kahya.Task.Rows.{
  Status, status_eq, Task, Db, Event, transition as transition_event, transition_conflict,
}
use kahya.Task.Queries.{has_id, has_id_status, set_task_status, increment_task_attempts}
use kahya.Task.Machine.{commit_transition, count_attempt}
use kahya.Task.Rows.{executing}
use kahya.Task.Queries.{bump_attempts}
use kahya.Base.Table.{find-holds, count_where-update_where_same}
use kahya.Task.Machine.Edges.{status_of}

-- Where no row has the status that was read, the compare-and-set loses: nothing is written but the
-- conflict event.
pub commit-lost :
    (trace_id id : String) (from to : Status) (w : World Db Event)
    → w.faults w.calls ≡ false
    → count_where (has_id_status id from) (w.others w.calls w.db).tasks ≡ 0
    → commit_transition trace_id id from to w ≡ (
      err lost_transition_race,
      record w {
        db = w.others w.calls w.db;
        calls = suc w.calls;
        ledger = transition_conflict trace_id id from to ∷ w.ledger;
      },
    )
unfolding commit_transition set_task_status ◌>>=◌
commit-lost trace_id id from to w up none_left = ground (
  arith,
  update_where_none (has_id_status id from) (λ t. record t { status = to })
      (w.others w.calls w.db).tasks,
)

abbrev pub write_status : String → Status → Status → Db → Db
write_status id from to d = record d {
  tasks = update_where (has_id_status id from) (λ t. record t { status = to }) d.tasks;
}

abbrev pub write_attempt : Status → String → Db → Db
write_attempt executing id d = record d { tasks = update_where (has_id id) bump_attempts d.tasks }
write_attempt _ id d = d

abbrev pub calls_after : Status → ℕ → ℕ
calls_after executing n = suc (suc n)
calls_after _ n = suc n

module _ (id : String) (from to : Status) (d : Db) (t : Task)
    (loaded : find (has_id id) d.tasks ≡ some t) (at_from : t.status ≡ from) where
  fits : has_id_status id from t ≡ true
  fits = ground (arith, find-holds (has_id id) d.tasks t loaded)

  affected : eqb (count_where (has_id_status id from) d.tasks) 0 ≡ false
  affected =
      ground (arith, find-count_where (has_id id) (has_id_status id from) d.tasks t loaded fits)

  pub find-write_status :
      find (has_id id) (write_status id from to d).tasks ≡ some (record t { status = to })
  find-write_status =
      find-update_where (has_id id) (has_id_status id from) (λ t. record t { status = to })
        (λ t. refl) d.tasks
      ∙ rw (loaded, fits)

abbrev pub attempt_calls : Status → ℕ → ℕ
attempt_calls executing n = suc n
attempt_calls _ n = n

pub find-write_attempt :
    (to : Status) (id : String) (d : Db) (t : Task)
    → find (has_id id) d.tasks ≡ some t
    → find (has_id id) (write_attempt to id d).tasks
      ≡ some (elim to [ executing ↦ bump_attempts t | _ ↦ t ])
find-write_attempt executing id d t loaded =
    find-update_where (has_id id) (has_id id) bump_attempts (λ t. refl) d.tasks
    ∙ rw (loaded, find-holds (has_id id) d.tasks t loaded)
find-write_attempt _ id d t loaded = loaded

module _ (clock : ℕ → ℕ) (n : ℕ) (ledger : List Event) where
  count_attempt-calm :
      (to : Status) (id : String) (d : Db) (t : Task)
      → find (has_id id) d.tasks ≡ some t
      → count_attempt to id (calm clock n ledger d)
        ≡ (ok tt, calm clock (attempt_calls to n) ledger (write_attempt to id d))
  unfolding count_attempt increment_task_attempts ◌>>=◌
  count_attempt-calm executing id d t loaded = rw (find-write_attempt executing id d t loaded)
  count_attempt-calm _ id d t loaded = refl

module _ (clock : ℕ → ℕ) (n : ℕ) (ledger : List Event) where
  pub commit-calm :
      (trace_id id : String) (from to : Status) (d : Db) (t : Task)
      → find (has_id id) d.tasks ≡ some t
      → t.status ≡ from
      → commit_transition trace_id id from to (calm clock n ledger d) ≡ (
        ok tt,
        calm clock
            (attempt_calls to (suc n))
            (transition_event trace_id id from to ∷ ledger)
            (write_attempt to id (write_status id from to d)),
      )
  unfolding commit_transition set_task_status ◌>>=◌
  commit-calm trace_id id from to d t loaded at_from = rw (
    affected id from to d t loaded at_from,
    count_attempt-calm clock (suc n) ledger to id (write_status id from to d) _
        (find-write_status id from to d t loaded at_from),
  )

none_at_from :
    (id : String) (from won : Status) (d : Db)
    → status_eq from won ≡ false
    → count_where (has_id_status id from) (write_attempt won id (write_status id from won d)).tasks
      ≡ 0
none_at_from id from executing d moves =
    count_where-update_where_same (has_id_status id from) (has_id id) bump_attempts (λ t. refl) _
    ∙ count_where-update_where (has_id_status id from) (λ t. record t { status = executing })
        (λ t h. ground arith) d.tasks
none_at_from id from won d moves =
    count_where-update_where (has_id_status id from) (λ t. record t { status = won })
      (λ t h. ground arith) d.tasks

pub status_of-write :
    (id : String) (from to : Status) (d : Db) (t : Task)
    → find (has_id id) d.tasks ≡ some t
    → t.status ≡ from
    → status_of id (write_attempt to id (write_status id from to d)) ≡ some to
status_of-write id from executing d t loaded at_from = rw (
    find-write_attempt executing id (write_status id from executing d) _
      (find-write_status id from executing d t loaded at_from))
status_of-write id from to d t loaded at_from = rw (find-write_status id from to d t loaded at_from)

-- Two callers that read the same status race: the first commit wins, the second is told that it
-- lost and writes nothing but the conflict event, and the task has the first one's status. (No failing call, no
-- other handler than the two.)
pub commit_race :
    (clock : ℕ → ℕ) (n : ℕ) (ledger : List Event) (d : Db) (trace_id other_trace id : String)
    (from won lost : Status) (t : Task)
    → find (has_id id) d.tasks ≡ some t
    → t.status ≡ from
    → status_eq from won ≡ false
    → let first = commit_transition trace_id id from won (calm clock n ledger d) in
      let second = commit_transition other_trace id from lost first.1 in
      (first.0 ≡ ok tt)
      × (second.0 ≡ err lost_transition_race)
      × (second.1.db ≡ first.1.db)
      × (status_of id second.1.db ≡ some won)
      × (second.1.ledger ≡ transition_conflict other_trace id from lost ∷ first.1.ledger)
commit_race clock n ledger d trace_id other_trace id from won lost t loaded at_from moves =
    let gone = none_at_from id from won d moves in
    let lose = commit-lost other_trace id from lost _ refl gone in
    rw (commit-calm clock n ledger trace_id id from won d t loaded at_from) (
      refl,
      ap (λ r. r.0) lose,
      ap (λ r. r.1.db) lose,
      ap (λ r. status_of id r.1.db) lose ∙ status_of-write id from won d t loaded at_from,
      ap (λ r. r.1.ledger) lose,
    )
