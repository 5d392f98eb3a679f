-- ===== src/Anchor/Queries.antt =====
-- kahyad/internal/store/sqlcgen/queries.sql.go: the statements on events, ledger_digest_state and
-- anchor_log.
use kahya.Base.{
  ℕ, suc, String, Bool, true, false, Option, none, some, List, [], ◌∷◌, ◌++◌, eqb, leb,
}
use kahya.Base.Exec.{ok, query, one}
use kahya.Base.Table.{select, order_by, update_where}
use kahya.Anchor.Rows.{
  AnchorStatus, anchor_pending, anchor_pushed, LedgerEvent, AnchorLog, Hashing, LedgerDigestState,
  Handler,
}

abbrev pub is_pending : AnchorStatus → Bool
is_pending anchor_pending = true
is_pending anchor_pushed = false

abbrev pub has_anchor_id : ℕ → AnchorLog → Bool
has_anchor_id id a = eqb a.id id

abbrev pub first_of : List AnchorLog → Option AnchorLog
first_of [] = none
first_of (a ∷ rows) = some a

abbrev pub by_id : LedgerEvent → LedgerEvent → Bool
by_id e f = leb e.id f.id

abbrev pub by_event_id : AnchorLog → AnchorLog → Bool
by_event_id a b = leb a.event_id b.event_id

abbrev pub by_anchor_id : AnchorLog → AnchorLog → Bool
by_anchor_id a b = leb a.id b.id

abbrev pub latest_first : AnchorLog → AnchorLog → Bool
latest_first a b = leb b.id a.id

module _ (h : Hashing) where
  -- the row comes with no id, which the table gives it
  unfoldable pub insert_event : LedgerEvent → Handler h LedgerEvent
  insert_event row = query (λ d.
      let e : LedgerEvent = record row { id = d.next_id } in
      (ok e, record d { events = d.events ++ e ∷ []; next_id = suc d.next_id }))

  unfoldable pub list_all_events : Handler h (List LedgerEvent)
  list_all_events = query (λ d. (ok (order_by by_id d.events), d))

  unfoldable pub get_ledger_digest_state : Handler h (LedgerDigestState h)
  get_ledger_digest_state = query (λ d. (ok d.state, d))

  unfoldable pub advance_ledger_digest_state : ℕ → h.Digest → Handler h (Unit {0})
  advance_ledger_digest_state id digest =
      query (λ d. (ok tt, record d { state = record { last_event_id = id; digest = digest } }))

  unfoldable pub insert_anchor_log : AnchorLog → Handler h AnchorLog
  insert_anchor_log row = query (λ d.
      let a : AnchorLog = record row { id = d.next_anchor_id } in
      (ok a, record d { anchors = d.anchors ++ a ∷ []; next_anchor_id = suc d.next_anchor_id }))

  unfoldable pub mark_anchor_pushed : ℕ → String → Handler h (Unit {0})
  mark_anchor_pushed id remote = query (λ d. (
    ok tt,
    record d {
      anchors =
          update_where (has_anchor_id id)
            (λ a. record a { status = anchor_pushed; remote_ref = some remote }) d.anchors;
    },
  ))

  unfoldable pub get_latest_anchor_log : Handler h AnchorLog
  get_latest_anchor_log = query (λ d. one (first_of (order_by latest_first d.anchors)) d)

  unfoldable pub list_anchor_logs : Handler h (List AnchorLog)
  list_anchor_logs = query (λ d. (ok (order_by by_event_id d.anchors), d))

  unfoldable pub list_pending_anchor_logs : Handler h (List AnchorLog)
  list_pending_anchor_logs =
      query (λ d. (ok (order_by by_anchor_id (select (λ a. is_pending a.status) d.anchors)), d))
