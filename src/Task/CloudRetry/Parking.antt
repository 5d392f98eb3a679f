-- ===== src/Task/CloudRetry/Parking.antt =====
-- Where a task goes when its cloud call failed.
use kahya.Base.{
  ℕ, zero, suc, ◌+◌, ◌-◌, ◌≤◌, ◌<◌, leb, if◌then◌else◌, length, String, Bool, true, false, ◌≡◌, ◌⊎◌,
  inl, inr, refl, sym, ap, ◌∙◌, Option, none, some, List, [], ◌∷◌, ◌++◌, arith, Bool-cases,
}
use mathlib.Core.Option
use kahya.Base.Table.{find, find-update_where, find-holds}
use kahya.Base.Exec.{ok, calm, ◌>>=◌}
use kahya.Task.Rows.{executing, retry_wait, failed, Task, OutboxRow, Db, Event}
use kahya.Task.Queries.{has_id, set_task_next_retry, insert_outbox_row, get_task_by_id}
use kahya.Task.Machine.Edges.{status_of}
use kahya.Task.Machine.Outcomes.{write_status, status_of-write, find-write_status}
use kahya.Task.Machine.Replay.{transition_legal}
use kahya.Task.Resume.{outbox_kind_task_resume, notify, write_outbox_resume_row_at}
use kahya.Task.CloudRetry.{
  CloudRetry, new_cloud_retry, schedule_index, has_exceeded_give_up, get_or, park, give_up,
  fail_task, park_or_give_up,
}

-- The index into the schedule of a constructed CloudRetry is in range for every number of attempts:
-- the slice access cannot panic.
pub schedule_index-lt-length :
    (has_notifier : Bool) (schedule : List ℕ) (after : ℕ) (payload_json : String → String)
    (attempts : ℕ)
    → let c = new_cloud_retry has_notifier schedule after payload_json in
      schedule_index c attempts < length c.schedule
unfolding schedule_index new_cloud_retry
schedule_index-lt-length has_notifier [] after payload_json attempts = ground arith
schedule_index-lt-length has_notifier (x ∷ xs) after payload_json attempts = ground arith

abbrev pub next_retry_of : String → Db → Option (Option ℕ)
next_retry_of id d = Option.map (λ t. t.next_retry_at) (find (has_id id) d.tasks)

-- the entry of a schedule for a number of attempts: the first up to one attempt, the second for two, and
-- so on, and the last one for all that are beyond the end; no schedule of NewCloudRetry is empty
abbrev pub delay_after : List ℕ → ℕ → ℕ
delay_after [] k = 0
delay_after (x ∷ []) k = x
delay_after (x ∷ y ∷ r) zero = x
delay_after (x ∷ y ∷ r) (suc zero) = x
delay_after (x ∷ y ∷ r) (suc (suc n)) = delay_after (y ∷ r) (suc n)

get_or-clamped :
    (s : List ℕ) (k : ℕ)
    → get_or s (if leb (length s) (k - 1) then length s - 1 else k - 1) 0 ≡ delay_after s k
get_or-clamped [] k = refl
get_or-clamped (x ∷ []) zero = refl
get_or-clamped (x ∷ []) (suc zero) = refl
get_or-clamped (x ∷ []) (suc (suc n)) = ground arith
get_or-clamped (x ∷ y ∷ r) zero = ground arith
get_or-clamped (x ∷ y ∷ r) (suc zero) = ground arith
get_or-clamped (x ∷ y ∷ r) (suc (suc n)) = elim (Bool-cases (leb (length (y ∷ r)) n)) [
  | inl beyond ↦ let rest = get_or-clamped (y ∷ r) (suc n) in ground (arith, beyond, rest)
  | inr inside ↦ let rest = get_or-clamped (y ∷ r) (suc n) in ground (arith, inside, rest)
]

abbrev delay : CloudRetry → Task → ℕ
delay c t = get_or c.schedule (schedule_index c t.attempts) 0

delay-delay_after : (c : CloudRetry) (t : Task) → delay c t ≡ delay_after c.schedule t.attempts
unfolding schedule_index
delay-delay_after c t = get_or-clamped c.schedule t.attempts

not_exceeded :
    (c : CloudRetry) (t : Task) (at : ℕ)
    → (t.created_at ≡ none)
      ⊎ ((created : ℕ) × (t.created_at ≡ some created) × (at < created + c.give_up_after))
    → has_exceeded_give_up c t at ≡ false
unfolding has_exceeded_give_up
not_exceeded c t at (inl unknown) = rw unknown refl
not_exceeded c t at (inr (created, since, early)) = rw since (ground (arith, early))

exceeded :
    (c : CloudRetry) (t : Task) (at created : ℕ)
    → t.created_at ≡ some created
    → created + c.give_up_after ≤ at
    → has_exceeded_give_up c t at ≡ true
unfolding has_exceeded_give_up
exceeded c t at created since over = rw since (ground (arith, over))

module _ (c : CloudRetry) (clock : ℕ → ℕ) (n : ℕ) (ledger : List Event) (d : Db) (t : Task)
    (trace_id id : String) (loaded : find (has_id id) d.tasks ≡ some t)
    (running : t.status ≡ executing) where
  park-calm :
      let out = park c trace_id id t (calm clock n ledger d) in
      let at = clock n + delay c t in
      (out.0 ≡ ok tt)
      × (status_of id out.1.db ≡ some retry_wait)
      × (next_retry_of id out.1.db ≡ some (some at))
      × ((row : OutboxRow) × (out.1.db.outbox ≡ d.outbox ++ row ∷ [])
          × (row.available_at ≡ at)
          × (row.task_id ≡ some id)
          × (row.kind ≡ outbox_kind_task_resume))
  unfolding park set_task_next_retry write_outbox_resume_row_at insert_outbox_row notify ◌>>=◌
      schedule_index
  park-calm =
      let legal =
        transition_legal clock n ledger trace_id id retry_wait d t loaded (rw running)
          (rw running) in
      let parked = find-write_status id t.status retry_wait d t loaded refl in
      let own : has_id id t ≡ true = find-holds (has_id id) d.tasks t loaded in
      let at = clock n + delay c t in
      let stamped =
        find-update_where (has_id id) (has_id id) (λ u. record u { next_retry_at = some at })
          (λ u. refl) (write_status id t.status retry_wait d).tasks in
      let row =
        let step : _ ≡ some (record t { status = retry_wait; next_retry_at = some at }) =
          rw (parked, own) in
        stamped ∙ step in
      elim (Bool-cases c.has_notifier) [
        | inl e ↦
            rw (legal, e)
              (
                refl,
                ap (Option.map (λ u. u.status)) row,
                ap (Option.map (λ u. u.next_retry_at)) row,
                (_, refl, refl, refl, refl),
              )
        | inr e ↦
            rw (legal, e)
              (
                refl,
                ap (Option.map (λ u. u.status)) row,
                ap (Option.map (λ u. u.next_retry_at)) row,
                (_, refl, refl, refl, refl),
              )
      ]

module _ (c : CloudRetry) (clock : ℕ → ℕ) (n : ℕ) (ledger : List Event) (d : Db) (t : Task)
    (trace_id id : String) (loaded : find (has_id id) d.tasks ≡ some t)
    (running : t.status ≡ executing) where
  -- A running task is parked if less than the give-up time has passed since it was created, or if its
  -- creation time does not parse: ParkOrGiveUp returns no error, the task waits for its retry, and its
  -- next retry time and the one outbox row that is enqueued for it both stand at now plus a delay. The
  -- delay is the schedule's first entry for up to one attempt, the second for two, and so on, and the last
  -- entry for all beyond its end. (No failing call, no other handler.)
  pub park_or_give_up-parks :
      (t.created_at ≡ none)
        ⊎ ((created : ℕ) × (t.created_at ≡ some created)
            × (clock (suc n) < created + c.give_up_after))
      → let out = park_or_give_up c trace_id id (calm clock n ledger d) in
        let at = clock (suc n) + delay_after c.schedule t.attempts in
        (out.0 ≡ ok tt)
        × (status_of id out.1.db ≡ some retry_wait)
        × (next_retry_of id out.1.db ≡ some (some at))
        × ((row : OutboxRow) × (out.1.db.outbox ≡ d.outbox ++ row ∷ [])
            × (row.available_at ≡ at)
            × (row.task_id ≡ some id)
            × (row.kind ≡ outbox_kind_task_resume))
  unfolding park_or_give_up get_task_by_id ◌>>=◌
  park_or_give_up-parks early =
      rw (loaded, not_exceeded c t (clock (suc n)) early, sym (delay-delay_after c t))
        (park-calm c clock (suc n) ledger d t trace_id id loaded running)

  -- A running task that was created the give-up time ago or earlier is failed: ParkOrGiveUp returns no
  -- error, and nothing is enqueued. (No failing call, no other handler.)
  pub park_or_give_up-gives_up :
      (created : ℕ)
      → t.created_at ≡ some created
      → created + c.give_up_after ≤ clock (suc n)
      → let out = park_or_give_up c trace_id id (calm clock n ledger d) in
        (out.0 ≡ ok tt) × (status_of id out.1.db ≡ some failed) × (out.1.db.outbox ≡ d.outbox)
  unfolding park_or_give_up give_up fail_task notify get_task_by_id ◌>>=◌
  park_or_give_up-gives_up created since over =
      let legal =
        transition_legal clock (suc n) ledger trace_id id failed d t loaded (rw running)
          (rw running) in
      let closed = status_of-write id t.status failed d t loaded refl in
      rw (loaded, exceeded c t (clock (suc n)) created since over, legal) (ground (arith, closed))
