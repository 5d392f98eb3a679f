-- ===== src/Policy/Approvals/LocalOnly.antt =====
-- An approval of class W3 is local and typed.
use kahya.Base.{ℕ, String, Bool, true, false, ◌&&◌, ◌≡◌, ◌≢◌, some, List, Bool-cases, arith, ◌==◌}
use kahya.Base.Table.{find}
use kahya.Base.Exec.{ok, alone, ◌>>=◌}
use kahya.Policy.Rows.{is_class_w3, PendingApproval, PolicyDb, Event, Engine}
use kahya.Policy.Queries.{has_pending_id, get_pending_approval}
use kahya.Policy.Approvals.{
  is_typed_onayla, valid_pending, get_valid_pending_approval, approve_row, approve,
}

-- Approve of a pending W3 call, from another surface than the local one or without the typed word,
-- fails and writes nothing, whichever call of the database fails: the approval stays open. (No other
-- handler.)
pub approve-w3_refused :
    (e : Engine) (id surface typed : String) (faults : ℕ → Bool) (clock : ℕ → ℕ) (n : ℕ)
    (ledger : List Event) (d : PolicyDb) (p : PendingApproval)
    → find (has_pending_id id) d.pending ≡ some p
    → is_class_w3 p.class ≡ true
    → (surface == "local") && is_typed_onayla e typed ≡ false
    → let out = approve e id surface typed (alone faults clock n ledger d) in
      (out.1.db ≡ d) × ((token : String) → out.0 ≢ ok token)
unfolding approve get_valid_pending_approval get_pending_approval valid_pending approve_row ◌>>=◌
approve-w3_refused e id surface typed faults clock n ledger d p loaded w3 guard =
    ground (arith, Bool-cases (faults n), Bool-cases (surface == "local"))
