-- ===== src/Anchor/Append.antt =====
-- kahyad/internal/store/db.go: InsertEventWithDigest.
use kahya.Base.{String}
use kahya.Base.Exec.{pure, now, transaction, ◌>>=◌, ◌>>◌}
use kahya.Anchor.Rows.{LedgerEvent, Hashing, Handler}
use kahya.Anchor.Queries.{insert_event, get_ledger_digest_state, advance_ledger_digest_state}

module _ (h : Hashing) where
  unfoldable pub append_row : LedgerEvent → Handler h LedgerEvent
  append_row row = do
    e ← insert_event h row
    s ← get_ledger_digest_state h
    advance_ledger_digest_state h e.id (h.next s.digest e.id e.payload)
    pure e

  unfoldable pub append_event : String → String → String → Handler h LedgerEvent
  append_event trace_id kind payload = do
    at ← now
    transaction (
        append_row (record {
          id = 0;
          trace_id = trace_id;
          ts = at;
          kind = kind;
          payload = payload;
          created_at = at;
        }))
