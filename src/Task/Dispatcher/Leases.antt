-- ===== src/Task/Dispatcher/Leases.antt =====
-- A leased outbox row is not claimed again before its lease has passed.
use kahya.Base.{ℕ, ◌≤◌, ◌≡◌, ◌≢◌, refl, ap, List, [], ◌∷◌, arith}
use kahya.Base.Table.{count_where, update_where, update_where_none}
use kahya.Base.Exec.{ok, calm, ◌>>=◌}
use kahya.Task.Rows.{OutboxRow, Db, Event}
use kahya.Task.Queries.{claim_outbox_row, has_outbox_id, is_claimable, lease_row}

absent :
    (id at at' until : ℕ) (rows : List OutboxRow)
    → count_where (has_outbox_id id) rows ≡ 0
    → (count_where (is_claimable id at) rows ≡ 0)
      × (count_where
            (is_claimable id at')
            (update_where (is_claimable id at) (lease_row until) rows)
          ≡ 0)
unfolding count_where update_where
absent id at at' until [] h = (refl, refl)
absent id at at' until (o ∷ rows) h = ground (arith, absent id at at' until rows)

leased_once :
    (id at at' until : ℕ) (rows : List OutboxRow)
    → at' ≤ until
    → count_where (has_outbox_id id) rows ≤ 1
    → count_where (is_claimable id at) rows ≢ 0
    → count_where (is_claimable id at') (update_where (is_claimable id at) (lease_row until) rows)
      ≡ 0
unfolding count_where update_where
leased_once id at at' until [] early one_row claimed = refl
leased_once id at at' until (o ∷ rows) early one_row claimed =
    ground (arith, absent id at at' until rows, leased_once id at at' until rows early)

-- Two dispatch passes race for a row: if the claim of the first affects it, a claim by the second
-- whose listing is no later than the first one's new lease affects nothing and writes nothing.
-- (The row's id is unique, its primary key.)
pub claim_outbox_row-once :
    (clock : ℕ → ℕ) (n : ℕ) (ledger : List Event) (d : Db) (until until' id at at' : ℕ)
    → count_where (has_outbox_id id) d.outbox ≤ 1
    → count_where (is_claimable id at) d.outbox ≢ 0
    → at' ≤ until
    → let first = claim_outbox_row until id at (calm clock n ledger d) in
      let second = claim_outbox_row until' id at' first.1 in
      (second.0 ≡ ok 0) × (second.1.db ≡ first.1.db)
unfolding claim_outbox_row ◌>>=◌
claim_outbox_row-once clock n ledger d until until' id at at' one_row claimed early =
    let gone = leased_once id at at' until d.outbox early one_row claimed in
    let rows = update_where (is_claimable id at) (lease_row until) d.outbox in
    (
      ap ok gone,
      ap (λ r. record d { outbox = r })
          (update_where_none (is_claimable id at') (lease_row until') rows gone),
    )
