-- ===== src/Task/Machine/Replay.antt =====
-- The ledger and the tasks table agree: the newest transition event of a task names its status.
use kahya.Base.{
  ℕ, suc, String, true, false, ◌≡◌, refl, some, none, List, [], ◌∷◌, arith, ap, ◌∙◌, subst,
  if◌then◌else◌, eq_iff, ◌==◌, Bool-cases, Option-cases, inl, inr,
}
use mathlib.Core.Option
use kahya.Base.Table.{find, find-update_where_other}
use kahya.Base.Exec.{World, ok, err, calm, illegal_transition as illegal, no_rows, ◌>>=◌}
use kahya.Task.Rows.{
  Status, status_eq, executing, Task, Db, Event, transition as transition_event, illegal_transition,
}
use kahya.Task.Queries.{has_id, has_id_status, get_task_by_id, bump_attempts}
use kahya.Task.Machine.{is_legal_transition, transition, transition_from}
use kahya.Task.Machine.Edges.{status_of}
use kahya.Task.Machine.Outcomes.{
  commit-calm, write_status, write_attempt, attempt_calls, status_of-write,
}

-- calls of Machine.Transition one after the other, each with its trace, task and target
pub record Request : Type 0 where
  pub trace_id : String
  pub task_id : String
  pub to : Status

unfoldable pub run : List Request → World Db Event → World Db Event
run [] w = w
run (r ∷ rs) w = run rs (transition r.trace_id r.task_id r.to w).1

-- the status that the ledger, newest first, gives a task that started at `s`
unfoldable pub status_in : String → Status → List Event → Status
status_in id s [] = s
status_in id s (transition_event trace_id j from to ∷ older) =
    let rest = status_in id s older in if j == id then to else rest
status_in id s (_ ∷ older) = status_in id s older

abbrev Agrees : String → Status → List Event → Db → Type 0
Agrees id s ledger d = status_of id d ≡ some (status_in id s ledger)

module _ (id j : String) (other : (j == id) ≡ false) where
  has_id_apart : (t : Task) → has_id id t ≡ true → has_id j t ≡ false
  has_id_apart t h = ground (arith, eq_iff t.id id, eq_iff t.id j, eq_iff j id)

  find-write_status_other :
      (from to : Status) (d : Db)
      → find (has_id id) (write_status j from to d).tasks ≡ find (has_id id) d.tasks
  find-write_status_other from to d =
      find-update_where_other (has_id id) (has_id_status j from) (λ t. record t { status = to })
        (λ t. refl) (λ t h. ground (arith, has_id_apart t h)) d.tasks

  -- The write of one task's status leaves the others.
  status_of-write_other :
      (from to : Status) (d : Db)
      → status_of id (write_attempt to j (write_status j from to d)) ≡ status_of id d
  status_of-write_other from executing d = ap (Option.map (λ t. t.status)) (
      find-update_where_other (has_id id) (has_id j) bump_attempts (λ t. refl) has_id_apart _
      ∙ find-write_status_other from executing d)
  status_of-write_other from to d =
      ap (Option.map (λ t. t.status)) (find-write_status_other from to d)

-- what Machine.Transition does in a calm world, at a task that is there
module _ (clock : ℕ → ℕ) (n : ℕ) (ledger : List Event) (trace_id j : String) (to : Status)
    (d : Db) where
  transition_missing :
      find (has_id j) d.tasks ≡ none
      → transition trace_id j to (calm clock n ledger d)
        ≡ (err no_rows, calm clock (suc n) ledger d)
  unfolding transition get_task_by_id ◌>>=◌
  transition_missing h = rw h

  module _ (t : Task) (loaded : find (has_id j) d.tasks ≡ some t) where
    transition_same :
        status_eq t.status to ≡ true
        → transition trace_id j to (calm clock n ledger d) ≡ (ok tt, calm clock (suc n) ledger d)
    unfolding transition get_task_by_id transition_from ◌>>=◌
    transition_same h = rw (loaded, h)

    pub transition_refused :
        status_eq t.status to ≡ false
        → is_legal_transition t.status to ≡ false
        → transition trace_id j to (calm clock n ledger d)
          ≡ (err illegal, calm clock (suc n) (illegal_transition trace_id j t.status to ∷ ledger) d)
    unfolding transition get_task_by_id transition_from ◌>>=◌
    transition_refused h k = rw (loaded, h, k)

    pub transition_legal :
        status_eq t.status to ≡ false
        → is_legal_transition t.status to ≡ true
        → transition trace_id j to (calm clock n ledger d) ≡ (
          ok tt,
          calm clock
              (attempt_calls to (suc (suc n)))
              (transition_event trace_id j t.status to ∷ ledger)
              (write_attempt to j (write_status j t.status to d)),
        )
    unfolding transition get_task_by_id transition_from ◌>>=◌
    transition_legal h k =
        rw (loaded, h, k) (commit-calm clock (suc n) ledger trace_id j t.status to d t loaded refl)

-- one call keeps the agreement
module _ (clock : ℕ → ℕ) (id : String) (s : Status) where
  abbrev AgreesAt : World Db Event → Type 0
  AgreesAt w = (n : ℕ) × (l : List Event) × (d : Db) × (w ≡ calm clock n l d) × Agrees id s l d

  written-Agrees :
      (n : ℕ) (ledger : List Event) (d : Db) (trace_id j : String) (to : Status) (t : Task)
      → find (has_id j) d.tasks ≡ some t
      → Agrees id s ledger d
      → Agrees id s
          (transition_event trace_id j t.status to ∷ ledger)
          (write_attempt to j (write_status j t.status to d))
  unfolding status_in
  written-Agrees n ledger d trace_id j to t loaded agrees = elim (Bool-cases (j == id)) [
    | inl e ↦ rw e (
        subst (λ k. status_of k (write_attempt to j (write_status j t.status to d)) ≡ some to)
          ((eq_iff j id).0 e) (status_of-write j t.status to d t loaded refl))
    | inr e ↦ rw e (status_of-write_other id j e t.status to d ∙ agrees)
  ]

  transition-Agrees :
      (n : ℕ) (ledger : List Event) (trace_id j : String) (to : Status) (d : Db)
      → Agrees id s ledger d
      → AgreesAt (transition trace_id j to (calm clock n ledger d)).1
  unfolding status_in
  transition-Agrees n ledger trace_id j to d agrees =
      elim (Option-cases (find (has_id j) d.tasks)) [
        | inl missing ↦ (
          suc n,
          ledger,
          d,
          ap (λ r. r.1) (transition_missing clock n ledger trace_id j to d missing),
          agrees,
        )
        | inr (t, loaded) ↦ elim (Bool-cases (status_eq t.status to)) [
          | inl h ↦ (
            suc n,
            ledger,
            d,
            ap (λ r. r.1) (transition_same clock n ledger trace_id j to d t loaded h),
            agrees,
          )
          | inr h ↦ elim (Bool-cases (is_legal_transition t.status to)) [
            | inl k ↦ (
              _,
              _,
              _,
              ap (λ r. r.1) (transition_legal clock n ledger trace_id j to d t loaded h k),
              written-Agrees n ledger d trace_id j to t loaded agrees,
            )
            | inr k ↦ (
              _,
              _,
              _,
              ap (λ r. r.1) (transition_refused clock n ledger trace_id j to d t loaded h k),
              agrees,
            )
          ]
        ]
      ]

  run-AgreesAt : (rs : List Request) (w : World Db Event) → AgreesAt w → AgreesAt (run rs w)
  unfolding run
  run-AgreesAt [] w h = h
  run-AgreesAt (r ∷ rs) w (n, l, d, e, agrees) =
      run-AgreesAt rs _ (rw e (transition-Agrees n l r.trace_id r.task_id r.to d agrees))

-- After any calls of Machine.Transition, legal or not, for any tasks, with no failing call and no
-- other writer: a task's status is the one that the newest transition event of that task in the
-- ledger names, or its first status if there is none.
pub run-status_in :
    (clock : ℕ → ℕ) (n : ℕ) (d : Db) (id : String) (s : Status) (rs : List Request)
    → status_of id d ≡ some s
    → let w = run rs (calm clock n [] d) in status_of id w.db ≡ some (status_in id s w.ledger)
unfolding status_in
run-status_in clock n d id s rs start =
    let (n', l', d', e, agrees) =
      run-AgreesAt clock id s rs (calm clock n [] d) (n, [], d, refl, start) in
    rw e agrees
