-- ===== src/Anchor/Verify.antt =====
-- kahyad/internal/anchor/verify.go: the ledger's digests are computed again and compared with its
-- checkpoints, and the last checkpoint with the remote one.
use kahya.Base.{
  ℕ, String, Bool, true, ◌&&◌, Option, none, some, List, [], ◌∷◌, eqb, ltb, ◌==◌, if◌then◌else◌,
}
use kahya.Base.Exec.{Result, ok, err, pure, raise, log, position, caught, is_no_rows, ◌>>=◌, ◌>>◌}
use kahya.Base.Table.{or_else}
use kahya.Anchor.Rows.{LedgerEvent, AnchorLog, Hashing, mismatch, Handler}
use kahya.Anchor.Queries.{list_all_events, list_anchor_logs, get_latest_anchor_log}

pub data VerifyResult : Type 0 where
  verified : VerifyResult
  mismatch_at : ℕ → VerifyResult

pub record AnchorLine : Type 0 where
  pub event_id : ℕ
  pub digest_hex : String

-- the clone or pull of the repository, and the last line of its file, at a call's number
abbrev pub Remote : Type 0
Remote = Option (ℕ → Result (Option AnchorLine))

-- a later row for an event replaces the earlier one
unfoldable pub wanted : ℕ → List AnchorLog → Option String
wanted id [] = none
wanted id (a ∷ rows) =
    or_else (wanted id rows) (if eqb a.event_id id then some a.digest_hex else none)

abbrev pub agrees : Option String → String → Bool
agrees none got = true
agrees (some want) got = got == want

module _ (h : Hashing) where
  -- the first event whose digest is not the one of its checkpoint
  unfoldable pub check_events : List AnchorLog → h.Digest → List LedgerEvent → Option ℕ
  check_events rows digest [] = none
  check_events rows digest (e ∷ events) =
      let d = h.next digest e.id e.payload in
      let rest = check_events rows d events in
      if agrees (wanted e.id rows) (h.hex d) then rest else some e.id

  abbrev pub same_line : AnchorLine → AnchorLog → Bool
  same_line line a = eqb line.event_id a.event_id && line.digest_hex == a.digest_hex

  unfoldable pub compare_remote : Option AnchorLine → Result AnchorLog → Handler h (Option ℕ)
  compare_remote none (ok a) = pure none
  compare_remote line (err e) = if is_no_rows e then pure none else raise e
  compare_remote (some line) (ok a) =
      if same_line line a
      then pure none
      else pure (some (if ltb a.event_id line.event_id then line.event_id else a.event_id))

  unfoldable pub fetched : Result (Option AnchorLine) → Handler h (Option ℕ)
  fetched (err e) = raise e
  fetched (ok line) = do local ← caught (get_latest_anchor_log h); compare_remote line local

  unfoldable pub check_remote : Remote → Handler h (Option ℕ)
  check_remote none = pure none
  check_remote (some fetch) = do n ← position; fetched (fetch n)

  unfoldable pub report : Option ℕ → Handler h VerifyResult
  report none = pure verified
  report (some id) = do log (mismatch id); pure (mismatch_at id)

  unfoldable pub verify_local : Remote → Option ℕ → Handler h VerifyResult
  verify_local remote (some id) = report (some id)
  verify_local remote none = do found ← check_remote remote; report found

  unfoldable pub verify : Remote → Handler h VerifyResult
  verify remote = do
    events ← list_all_events h
    rows ← list_anchor_logs h
    verify_local remote (check_events rows h.genesis events)
