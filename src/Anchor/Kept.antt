-- ===== src/Anchor/Kept.antt =====
-- What every act on the ledger keeps: its state is the chain's, and its checkpoints hold the digests
-- of the events.
use kahya.Base.{
  ℕ, suc, String, true, ◌≡◌, refl, sym, ap, ◌∙◌, subst, Option, none, some, List, [], ◌∷◌, ◌++◌,
  eqb, arith, if◌then◌else◌, Bool-cases, Option-cases, ◌⊎◌, inl, inr, All,
}
use mathlib.Core.Option
use kahya.Base.Table.{or_else}
use kahya.Base.Exec.{World, transaction, ◌>>=◌}
use kahya.Base.Guarantee.{IsPreorder, Guarantees, guarantee_rules}
use kahya.Anchor.Rows.{LedgerEvent, AnchorLog, Hashing, Alarm, LedgerDigestState, LedgerDb}
use kahya.Anchor.Queries.{insert_event, get_ledger_digest_state, advance_ledger_digest_state}
use kahya.Anchor.Append.{append_row, append_event}
use kahya.Anchor.Chain.{
  Rising, Rising-append, chain, digest_at, chain-append, digest_at-append, digest_at-above, Fits,
}

module _ (h : Hashing) where
  -- no event was appended yet, or the state holds the digest after the last one
  abbrev pub At : LedgerDigestState h → List LedgerEvent → Type 0
  At s events =
      (s.last_event_id ≡ 0) ⊎ (digest_at h s.last_event_id h.genesis events ≡ some s.digest)

  pub record Sound (d : LedgerDb h) : Type 0 where
    pub rising : Rising 0 d.events d.next_id
    pub chained : chain h h.genesis d.events ≡ d.state.digest
    pub stated : At d.state d.events
    pub anchored : All (Fits h d.events) d.anchors

  abbrev pub Extends : List LedgerEvent → List LedgerEvent → Type 0
  Extends events more =
      (i : ℕ) (g : h.Digest)
      → digest_at h i h.genesis events ≡ some g
      → digest_at h i h.genesis more ≡ some g

  abbrev Read : Option (LedgerDigestState h) → LedgerDb h → Type 0
  Read none d = Unit {0}
  Read (some s) d = At s d.events

  -- a sound ledger stays so and keeps its digests; `o` is what was read of its state before
  abbrev pub Keeps : Option (LedgerDigestState h) → LedgerDb h → LedgerDb h → Type 0
  Keeps o d d' = Read o d → Sound d → Sound d' × Extends d.events d'.events

  At-Extends :
      (s : LedgerDigestState h) (events more : List LedgerEvent)
      → Extends events more
      → At s events
      → At s more
  At-Extends s events more ext (inl e) = inl e
  At-Extends s events more ext (inr e) = inr (ext _ _ e)

  Read-Extends :
      (o : Option (LedgerDigestState h)) (d d' : LedgerDb h)
      → Extends d.events d'.events
      → Read o d
      → Read o d'
  Read-Extends none d d' ext r = tt
  Read-Extends (some s) d d' ext r = At-Extends s d.events d'.events ext r

  pub order : (o : Option (LedgerDigestState h)) → IsPreorder (Keeps o)
  order o = record {
    same = λ d r s. (s, λ i g e. e);
    chain = λ a b c f g r s.
        let (t, ext) = f r s in
        let (u, more) = g (Read-Extends o a b ext r) t in (u, λ i k e. more i k (ext i k e));
  }

  Fit-Extends :
      (events more : List LedgerEvent) (a : AnchorLog)
      → Extends events more
      → Fits h events a
      → Fits h more a
  Fit-Extends events more a ext fit =
      elim (Option-cases (digest_at h a.event_id h.genesis events)) [
        | inl e ↦ ground (arith, e, fit)
        | inr (g, e) ↦
            ap (Option.map h.hex) (ext a.event_id g e) ∙ sym (ap (Option.map h.hex) e) ∙ fit
      ]

  Fits-Extends :
      (events more : List LedgerEvent) (rows : List AnchorLog)
      → Extends events more
      → All (Fits h events) rows
      → All (Fits h more) rows
  Fits-Extends events more [] ext fits = tt
  Fits-Extends events more (a ∷ rows) ext (fit, fits) =
      (Fit-Extends events more a ext fit, Fits-Extends events more rows ext fits)

  append-Extends : (events : List LedgerEvent) (e : LedgerEvent) → Extends events (events ++ e ∷ [])
  append-Extends events e i g there =
      digest_at-append h i h.genesis events e
      ∙ ap
          (λ k.
            or_else k (
              if eqb e.id i then some (h.next (chain h h.genesis events) e.id e.payload) else none))
          there

  -- the state after an append holds the digest after the event
  append-At :
      (lo hi : ℕ) (events : List LedgerEvent) (e : LedgerEvent)
      → e.id ≡ hi
      → Rising lo events hi
      → digest_at h hi h.genesis (events ++ e ∷ [])
        ≡ some (h.next (chain h h.genesis events) e.id e.payload)
  append-At lo hi events e same r =
      let (l, absent) = digest_at-above h lo hi h.genesis events r in
      let hit : eqb e.id hi ≡ true = ground (arith, same) in
      digest_at-append h hi h.genesis events e ∙ rw (absent, hit) refl

  abbrev stored : LedgerEvent → LedgerDb h → LedgerEvent
  stored row d = record row { id = d.next_id }

  abbrev appended : LedgerEvent → LedgerDb h → LedgerDb h
  appended row d = record d {
    events = d.events ++ stored row d ∷ [];
    next_id = suc d.next_id;
    state = record {
      last_event_id = d.next_id;
      digest = h.next d.state.digest d.next_id row.payload;
    };
  }

  appended-Sound : (row : LedgerEvent) (d : LedgerDb h) → Sound d → Sound (appended row d)
  appended-Sound row d s =
      let e = stored row d in
      let same = ap (λ k. h.next k d.next_id row.payload) s.chained in
      record {
        rising = Rising-append 0 d.next_id d.events e refl s.rising;
        chained = chain-append h h.genesis d.events e ∙ same;
        stated = inr (append-At 0 d.next_id d.events e refl s.rising ∙ ap (λ k. some k) same);
        anchored = Fits-Extends d.events _ d.anchors (append-Extends d.events e) s.anchored;
      }

  appended-Keeps :
      (o : Option (LedgerDigestState h)) (row : LedgerEvent) (d : LedgerDb h)
      → Keeps o d (appended row d)
  appended-Keeps o row d r s = (appended-Sound row d s, append-Extends d.events (stored row d))

  -- the transaction appends the event and its digest, or changes nothing
  append_row-atomic :
      (row : LedgerEvent) (w : World (LedgerDb h) Alarm)
      → let out = transaction (append_row h row) w in
        ((out.1.db ≡ w.db) ⊎ (out.1.db ≡ appended row w.db)) × (out.1.others ≡ w.others)
  unfolding append_row insert_event get_ledger_digest_state advance_ledger_digest_state transaction
      ◌>>=◌
  append_row-atomic row w = elim (Bool-cases (w.faults w.calls)) [
    | inl e ↦ rw e (inl refl, refl)
    | inr e ↦ elim (Bool-cases (w.faults (suc w.calls))) [
      | inl f ↦ rw (e, f) (inl refl, refl)
      | inr f ↦ elim (Bool-cases (w.faults (suc (suc w.calls)))) [
        | inl g ↦ rw (e, f, g) (inl refl, refl)
        | inr g ↦ rw (e, f, g) (inr refl, refl)
      ]
    ]
  ]

  append_row-Keeps :
      (o : Option (LedgerDigestState h)) (row : LedgerEvent)
      → Guarantees (Keeps o) (transaction (append_row h row))
  append_row-Keeps o row = record {
    at = λ w rely. elim (append_row-atomic row w).0 [
      | inl e ↦ subst (Keeps o w.db) (sym e) ((order o).same w.db)
      | inr e ↦ subst (Keeps o w.db) (sym e) (appended-Keeps o row w.db)
    ];
    others_kept = λ w. (append_row-atomic row w).1;
  }

  pub append_event-Keeps :
      (o : Option (LedgerDigestState h)) (trace kind payload : String)
      → Guarantees (Keeps o) (append_event h trace kind payload)
  unfolding append_event
  append_event-Keeps o trace kind payload = search (guarantee_rules, order, append_row-Keeps)
