-- ===== src/Anchor/Push.antt =====
-- kahyad/internal/anchor/push.go: the checkpoint of the ledger in a remote repository.
use kahya.Base.{ℕ, ◌+◌, ◌*◌, String, Bool, Option, none, some, List, ◌∷◌, eqb, ltb, if◌then◌else◌}
use kahya.Base.Exec.{
  Result, Error, ok, err, pure, raise, log, now, position, caught, is_no_rows, ◌>>=◌, ◌>>◌,
}
use kahya.Anchor.Rows.{
  anchor_pending, AnchorLog, Hashing, stale_pending, LedgerDigestState, Handler,
}
use kahya.Anchor.Queries.{
  is_pending, get_ledger_digest_state, insert_anchor_log, mark_anchor_pushed, get_latest_anchor_log,
  list_pending_anchor_logs,
}
use kahya.Anchor.Append.{append_event}

-- `pushes` at a call's number: the key is read, the repository pulled, the line of the row appended,
-- committed and pushed. `payload_of` is the JSON of a pushed row. The remote, `none` where it is empty,
-- is passed on its own.
pub record Pusher : Type 0 where
  pub pushes : ℕ → AnchorLog → Bool
  pub payload_of : AnchorLog → String
  pub interval_hours : ℕ

abbrev pub two_hours : ℕ
two_hours = 7200000000000

module _ (h : Hashing) where
  unfoldable pub insert_pending : LedgerDigestState h → Handler h AnchorLog
  insert_pending s = do
    at ← now
    insert_anchor_log h (record {
      id = 0;
      event_id = s.last_event_id;
      digest_hex = h.hex s.digest;
      anchored_at = at;
      remote_ref = none;
      status = anchor_pending;
    })

  unfoldable pub claim_latest :
      LedgerDigestState h → Result AnchorLog → Handler h (Option AnchorLog)
  claim_latest s (err e) =
      if is_no_rows e then (do a ← insert_pending s; pure (some a)) else raise e
  claim_latest s (ok latest) =
      if is_pending latest.status
      then pure (some latest)
      else if eqb latest.event_id s.last_event_id
      then pure none
      else (do a ← insert_pending s; pure (some a))

  unfoldable pub claim_pending_row : LedgerDigestState h → Handler h (Option AnchorLog)
  claim_pending_row s = do latest ← caught (get_latest_anchor_log h); claim_latest s latest

  unfoldable pub push_row : Pusher → String → String → AnchorLog → Handler h (Unit {0})
  push_row p remote trace_id row = do
    n ← position
    (if p.pushes n row
        then (do
          mark_anchor_pushed h row.id remote
          caught (append_event h trace_id "anchor.pushed" (p.payload_of row))
          pure tt)
        else raise Error.effect_failed)

  unfoldable pub push_claimed : Pusher → String → String → Option AnchorLog → Handler h (Unit {0})
  push_claimed p remote trace_id none = pure tt
  push_claimed p remote trace_id (some row) = do caught (push_row p remote trace_id row); pure tt

  unfoldable pub alarm_if_stale : Pusher → Result (List AnchorLog) → Handler h (Unit {0})
  alarm_if_stale p (ok (oldest ∷ rows)) = do
    at ← now
    (if ltb at (oldest.anchored_at + p.interval_hours * two_hours)
        then pure tt
        else log (stale_pending oldest.event_id))
  alarm_if_stale p _ = pure tt

  unfoldable pub check_stale_pending : Pusher → Handler h (Unit {0})
  check_stale_pending p = do rows ← caught (list_pending_anchor_logs h); alarm_if_stale p rows

  unfoldable pub push_state : Pusher → String → String → LedgerDigestState h → Handler h (Unit {0})
  push_state p remote trace_id s =
      if ltb 0 s.last_event_id
      then (do row ← claim_pending_row s; push_claimed p remote trace_id row)
      else pure tt

  unfoldable pub run_pusher : Pusher → String → Option String → Handler h (Unit {0})
  run_pusher p trace_id none = pure tt
  run_pusher p trace_id (some remote) = do
    s ← get_ledger_digest_state h
    push_state p remote trace_id s
    check_stale_pending p
