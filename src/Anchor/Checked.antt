-- ===== src/Anchor/Checked.antt =====
-- Whatever appends and anchors the ledger, the check of it raises no alarm.
use kahya.Base.{
  suc, String, Bool, ◌≡◌, refl, sym, ap, ◌∙◌, subst, Option, none, some, List, [], ◌∷◌, Bool-cases,
  inl, inr, All,
}
use kahya.Base.Table.{insert_by, order_by}
use kahya.Base.Exec.{World, Result, pure, caught, ◌>>=◌, ◌>>◌}
use kahya.Base.Guarantee.{Rely, Guarantees, Guarantees-bind, guarantee_rules}
use kahya.Base.Returns.{OnOk}
use kahya.Anchor.Rows.{AnchorLog, Hashing, Alarm, LedgerDigestState, LedgerDb, Handler}
use kahya.Anchor.Queries.{
  by_id, by_event_id, list_all_events, get_ledger_digest_state, list_anchor_logs,
}
use kahya.Anchor.Append.{append_event}
use kahya.Anchor.Push.{Pusher, run_pusher}
use kahya.Anchor.Verify.{verified, check_events, check_remote, verify_local, report, verify}
use kahya.Anchor.Chain.{Fits, order_by-Rising, check_events-Fits}
use kahya.Anchor.Kept.{Sound, Extends, Keeps, order, append_event-Keeps}
use kahya.Anchor.Ran.{stated-Keeps}

module _ (h : Hashing) where
  -- a step that uses the state it reads
  reads-Keeps :
      {B : Type 0} (f : LedgerDigestState h → Handler h B)
      → ((s : LedgerDigestState h) → Guarantees (Keeps h (some s)) (f s))
      → Guarantees (Keeps h none) (get_ledger_digest_state h >>= f)
  unfolding get_ledger_digest_state ◌>>=◌
  reads-Keeps f rest = record {
    at = λ w rely. elim (Bool-cases (w.faults w.calls)) [
      | inl e ↦ rw e (rely w.calls w.db)
      | inr e ↦ rw e (λ u s.
          let (t, ext) = rely w.calls w.db tt s in
          let d = w.others w.calls w.db in
          let (v, more) =
            (rest d.state).at (record w { db = d; calls = suc w.calls }) (λ n k r x. rely n k tt x)
              t.stated t in
          (v, λ i g there. more i g (ext i g there)))
    ];
    others_kept = λ w. elim (Bool-cases (w.faults w.calls)) [
      | inl e ↦ rw e refl
      | inr e ↦ rw e (
          (rest (w.others w.calls w.db).state).others_kept
            (record w { db = w.others w.calls w.db; calls = suc w.calls }))
    ];
  }

  run_pusher-Keeps :
      (p : Pusher) (trace_id : String) (remote : Option String)
      → Guarantees (Keeps h none) (run_pusher h p trace_id remote)
  unfolding run_pusher
  run_pusher-Keeps p trace_id none = search (guarantee_rules, order)
  run_pusher-Keeps p trace_id (some remote) =
      reads-Keeps _ (λ s. stated-Keeps h p remote trace_id s)

  -- what writes the ledger
  pub data Call : Type 0 where
    appends : String → String → String → Call
    pushes : Pusher → String → Option String → Call

  abbrev pub call : Call → Handler h (Result (Unit {0}))
  call (appends trace kind payload) = caught (append_event h trace kind payload >> pure tt)
  call (pushes p trace_id remote) = caught (run_pusher h p trace_id remote)

  call-Keeps : (c : Call) → Guarantees (Keeps h none) (call c)
  call-Keeps (appends trace kind payload) =
      search (guarantee_rules, order, append_event-Keeps) depth 10
  call-Keeps (pushes p trace_id remote) = search (guarantee_rules, order, run_pusher-Keeps)

  unfoldable pub run_calls : List Call → Handler h (Unit {0})
  run_calls [] = pure tt
  run_calls (c ∷ calls) = call c >> run_calls calls

  run_calls-Keeps : (calls : List Call) → Guarantees (Keeps h none) (run_calls calls)
  unfolding run_calls
  run_calls-Keeps [] = search (guarantee_rules, order)
  run_calls-Keeps (c ∷ calls) =
      Guarantees-bind (Keeps h none) (order h none) _ _ (call-Keeps c) (λ r. run_calls-Keeps calls)

  All-insert_by :
      (P : AnchorLog → Type 0) (before : AnchorLog → AnchorLog → Bool) (a : AnchorLog)
      (rows : List AnchorLog)
      → P a
      → All P rows
      → All P (insert_by before a rows)
  unfolding insert_by
  All-insert_by P before a [] p ps = (p, tt)
  All-insert_by P before a (b ∷ rows) p (q, qs) = elim (Bool-cases (before b a)) [
    | inl e ↦ rw e (q, All-insert_by P before a rows p qs)
    | inr e ↦ rw e (p, (q, qs))
  ]

  All-order_by :
      (P : AnchorLog → Type 0) (before : AnchorLog → AnchorLog → Bool) (rows : List AnchorLog)
      → All P rows
      → All P (order_by before rows)
  unfolding order_by
  All-order_by P before [] ps = tt
  All-order_by P before (a ∷ rows) (p, ps) =
      All-insert_by P before a (order_by before rows) p (All-order_by P before rows ps)

  -- the events read before the checkpoints of a ledger that only grew in between
  check-none :
      (d d' : LedgerDb h)
      → Sound h d
      → Sound h d'
      → Extends h d.events d'.events
      → check_events h (order_by by_event_id d'.anchors) h.genesis (order_by by_id d.events) ≡ none
  check-none d d' s s' ext =
      ap (check_events h (order_by by_event_id d'.anchors) h.genesis)
        (order_by-Rising 0 d.next_id d.events s.rising)
      ∙ check_events-Fits h d'.events (order_by by_event_id d'.anchors) 0 d.next_id h.genesis
          d.events (All-order_by (Fits h d'.events) by_event_id d'.anchors s'.anchored) s.rising ext

  verify-Sound :
      (w : World (LedgerDb h) Alarm)
      → Rely (Keeps h none) w.others
      → Sound h w.db
      → OnOk (λ r. r ≡ verified) (verify h none w).0
  unfolding verify list_all_events list_anchor_logs verify_local check_remote report ◌>>=◌
  verify-Sound w rely s =
      let (t, ext) = rely w.calls w.db tt s in
      let d = w.others w.calls w.db in
      let (u, more) = rely (suc w.calls) d tt t in
      let fine = check-none d (w.others (suc w.calls) d) t u more in
      elim (Bool-cases (w.faults w.calls)) [
        | inl e ↦ rw e tt
        | inr e ↦ elim (Bool-cases (w.faults (suc w.calls))) [
          | inl f ↦ rw (e, f) tt
          | inr f ↦ rw (e, f, fine) refl
        ]
      ]

  -- Whatever fails, and however the appends and anchor pushes of other handlers interleave, if these keep
  -- a sound ledger sound and its digests as they are, then after any run of appends and pushes from a
  -- sound ledger (the ids rise, and the state and the checkpoints hold the chain's digests, as the empty
  -- ledger's do) the check without a remote raises no alarm: it fails with an error, or reports the ledger
  -- as verified.
  pub run_calls-verify :
      (calls : List Call) (w : World (LedgerDb h) Alarm)
      → Rely (Keeps h none) w.others
      → Sound h w.db
      → OnOk (λ r. r ≡ verified) (verify h none (run_calls calls w).1).0
  run_calls-verify calls w rely s =
      let runs = run_calls-Keeps calls in
      verify-Sound (run_calls calls w).1
        (subst (Rely (Keeps h none)) (sym (runs.others_kept w)) rely) (runs.at w rely tt s).0
