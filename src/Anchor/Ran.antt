-- ===== src/Anchor/Ran.antt =====
-- The anchor's push keeps the ledger sound, and the check of a sound ledger finds nothing.
use kahya.Base.{
  ℕ, suc, String, Bool, ◌≡◌, refl, sym, ap, ◌∙◌, ◌<◌, Option, none, some, List, [], ◌∷◌, ◌++◌, ltb,
  arith, Bool-cases, inl, inr, All, All-append,
}
use mathlib.Core.Option
use kahya.Base.Table.{update_where}
use kahya.Base.Exec.{Result, ok, err, ◌>>=◌, ◌>>◌}
use kahya.Base.Guarantee.{
  Guarantees, Guarantees-query, Guarantees-bind, Guarantees-if, Guarantees-pure, guarantee_rules,
}
use kahya.Anchor.Rows.{LedgerEvent, AnchorLog, Hashing, LedgerDigestState, LedgerDb}
use kahya.Anchor.Queries.{
  insert_anchor_log, mark_anchor_pushed, get_latest_anchor_log, list_pending_anchor_logs,
}
use kahya.Anchor.Push.{
  Pusher, insert_pending, claim_latest, claim_pending_row, push_row, push_claimed, alarm_if_stale,
  check_stale_pending, push_state,
}
use kahya.Anchor.Chain.{digest_at, Fits}
use kahya.Anchor.Kept.{At, Sound, Keeps, order, append_event-Keeps}

module _ (h : Hashing) where
  anchored-Keeps :
      (o : Option (LedgerDigestState h)) (rows : List AnchorLog) (n : ℕ) (d : LedgerDb h)
      → (Sound h d → All (Fits h d.events) rows)
      → Keeps h o d (record d { anchors = rows; next_anchor_id = n })
  anchored-Keeps o rows n d fits r s = (
    record { rising = s.rising; chained = s.chained; stated = s.stated; anchored = fits s },
    λ i g there. there,
  )

  pending-Fits :
      (s : LedgerDigestState h) (row : AnchorLog) (events : List LedgerEvent)
      → 0 < s.last_event_id
      → row.event_id ≡ s.last_event_id
      → row.digest_hex ≡ h.hex s.digest
      → At h s events
      → Fits h events row
  pending-Fits s row events positive same written (inl e) = ground (arith, positive, e)
  pending-Fits s row events positive same written (inr e) =
      ap (λ i. Option.map h.hex (digest_at h i h.genesis events)) same
      ∙ ap (Option.map h.hex) e
      ∙ ap (λ x. some x) (sym written)

  insert_anchor-Keeps :
      (s : LedgerDigestState h) (row : AnchorLog)
      → 0 < s.last_event_id
      → row.event_id ≡ s.last_event_id
      → row.digest_hex ≡ h.hex s.digest
      → Guarantees (Keeps h (some s)) (insert_anchor_log h row)
  unfolding insert_anchor_log
  insert_anchor-Keeps s row positive same written =
      Guarantees-query (Keeps h (some s)) (order h (some s)) _ (λ d r t.
        anchored-Keeps (some s) (d.anchors ++ record row { id = d.next_anchor_id } ∷ [])
          (suc d.next_anchor_id) d
          (λ u.
            All-append (Fits h d.events) d.anchors _ u.anchored
              (pending-Fits s row d.events positive same written r, tt))
          r t)

  insert_pending-Keeps :
      (s : LedgerDigestState h)
      → 0 < s.last_event_id
      → Guarantees (Keeps h (some s)) (insert_pending h s)
  unfolding insert_pending
  insert_pending-Keeps s positive =
      Guarantees-bind (Keeps h (some s)) (order h (some s)) _ _ (search (guarantee_rules, order))
        (λ at. insert_anchor-Keeps s _ positive refl refl)

  pushed-Fits :
      (events : List LedgerEvent) (q : AnchorLog → Bool) (f : AnchorLog → AnchorLog)
      (rows : List AnchorLog)
      → ((a : AnchorLog) → Fits h events a → Fits h events (f a))
      → All (Fits h events) rows
      → All (Fits h events) (update_where q f rows)
  unfolding update_where
  pushed-Fits events q f [] same fits = tt
  pushed-Fits events q f (a ∷ rows) same (fit, fits) = (
    elim (Bool-cases (q a)) [ inl e ↦ rw e (same a fit) | inr e ↦ rw e fit ],
    pushed-Fits events q f rows same fits,
  )

  module _ (o : Option (LedgerDigestState h)) where
    mark_pushed-Keeps :
        (id : ℕ) (remote : String) → Guarantees (Keeps h o) (mark_anchor_pushed h id remote)
    unfolding mark_anchor_pushed
    mark_pushed-Keeps id remote = Guarantees-query (Keeps h o) (order h o) _ (λ d.
        anchored-Keeps o _ d.next_anchor_id d
          (λ s. pushed-Fits d.events _ _ d.anchors (λ a fit. fit) s.anchored))

    latest-Keeps : Guarantees (Keeps h o) (get_latest_anchor_log h)
    unfolding get_latest_anchor_log
    latest-Keeps = Guarantees-query (Keeps h o) (order h o) _ (order h o).same

    pending-Keeps : Guarantees (Keeps h o) (list_pending_anchor_logs h)
    unfolding list_pending_anchor_logs
    pending-Keeps = Guarantees-query (Keeps h o) (order h o) _ (order h o).same

  ruleset keep_rules =
      (guarantee_rules, order, mark_pushed-Keeps, latest-Keeps, pending-Keeps, append_event-Keeps)

  module _ (p : Pusher) (remote trace_id : String) (o : Option (LedgerDigestState h)) where
    push_row-Keeps : (row : AnchorLog) → Guarantees (Keeps h o) (push_row h p remote trace_id row)
    unfolding push_row
    push_row-Keeps row = search keep_rules depth 16

    push_claimed-Keeps :
        (row : Option AnchorLog) → Guarantees (Keeps h o) (push_claimed h p remote trace_id row)
    unfolding push_claimed
    push_claimed-Keeps none = search keep_rules
    push_claimed-Keeps (some row) = search (keep_rules, push_row-Keeps) depth 10

    alarm-Keeps :
        (rows : Result (List AnchorLog)) → Guarantees (Keeps h o) (alarm_if_stale h p rows)
    unfolding alarm_if_stale
    alarm-Keeps (err e) = search keep_rules
    alarm-Keeps (ok []) = search keep_rules
    alarm-Keeps (ok (a ∷ rows)) = search keep_rules depth 10

    stale-Keeps : Guarantees (Keeps h o) (check_stale_pending h p)
    unfolding check_stale_pending
    stale-Keeps = search (keep_rules, alarm-Keeps) depth 10

  module _ (p : Pusher) (remote trace_id : String) (s : LedgerDigestState h) where
    claim_latest-Keeps :
        (r : Result AnchorLog)
        → 0 < s.last_event_id
        → Guarantees (Keeps h (some s)) (claim_latest h s r)
    unfolding claim_latest
    claim_latest-Keeps (err e) positive =
        search (keep_rules, insert_pending-Keeps, positive) depth 12
    claim_latest-Keeps (ok a) positive =
        search (keep_rules, insert_pending-Keeps, positive) depth 12

    claimed-Keeps :
        0 < s.last_event_id
        → Guarantees
            (Keeps h (some s))
            (claim_pending_row h s >>= λ row. push_claimed h p remote trace_id row)
    unfolding claim_pending_row
    claimed-Keeps positive =
        search (keep_rules, claim_latest-Keeps, push_claimed-Keeps, positive) depth 16

    push_state-Keeps : Guarantees (Keeps h (some s)) (push_state h p remote trace_id s)
    unfolding push_state
    push_state-Keeps =
        Guarantees-if (Keeps h (some s)) (order h (some s)) (ltb 0 s.last_event_id) _ _
          (λ e. claimed-Keeps (ground (arith, e)))
          (λ e. Guarantees-pure (Keeps h (some s)) (order h (some s)) tt)

    pub stated-Keeps :
        Guarantees (Keeps h (some s)) (push_state h p remote trace_id s >> check_stale_pending h p)
    stated-Keeps = search (keep_rules, push_state-Keeps, stale-Keeps) depth 10
