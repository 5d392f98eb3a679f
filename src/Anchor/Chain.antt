-- ===== src/Anchor/Chain.antt =====
-- The digest after each event of a ledger, and the check of it against checkpoints that hold it.
use kahya.Base.{
  ℕ, suc, String, true, ◌≡◌, refl, sym, ap, ◌∙◌, ◌<◌, ◌≤◌, Option, none, some, List, [], ◌∷◌, ◌++◌,
  eqb, ◌==◌, arith, if◌then◌else◌, Bool-cases, inl, inr, All, eq_refl,
}
use mathlib.Core.Option
use kahya.Base.Table.{or_else, insert_by, order_by}
use kahya.Anchor.Rows.{LedgerEvent, AnchorLog, Hashing}
use kahya.Anchor.Queries.{by_id}
use kahya.Anchor.Verify.{wanted, agrees, check_events}

-- ids rise from above `lo` to below `hi`
unfoldable pub Rising : ℕ → List LedgerEvent → ℕ → Type 0
Rising lo [] hi = lo < hi
Rising lo (e ∷ events) hi = (lo < e.id) × Rising e.id events hi

pub Rising-append :
    (lo hi : ℕ) (events : List LedgerEvent) (e : LedgerEvent)
    → e.id ≡ hi
    → Rising lo events hi
    → Rising lo (events ++ e ∷ []) (suc hi)
unfolding Rising
Rising-append lo hi [] e same r = (omega (arith, same, r), omega (arith, same, r))
Rising-append lo hi (f ∷ events) e same (l, r) = (l, Rising-append f.id hi events e same r)

pub order_by-Rising :
    (lo hi : ℕ) (events : List LedgerEvent) → Rising lo events hi → order_by by_id events ≡ events
unfolding Rising order_by insert_by
order_by-Rising lo hi [] r = refl
order_by-Rising lo hi (e ∷ []) r = refl
order_by-Rising lo hi (e ∷ f ∷ events) (l, r) =
    rw (order_by-Rising e.id hi (f ∷ events) r) (ground (arith, r))

module _ (h : Hashing) where
  unfoldable pub chain : h.Digest → List LedgerEvent → h.Digest
  chain d [] = d
  chain d (e ∷ events) = chain (h.next d e.id e.payload) events

  -- the digest after the event
  unfoldable pub digest_at : ℕ → h.Digest → List LedgerEvent → Option h.Digest
  digest_at i d [] = none
  digest_at i d (e ∷ events) =
      let rest = digest_at i (h.next d e.id e.payload) events in
      if eqb e.id i then some (h.next d e.id e.payload) else rest

  pub chain-append :
      (d : h.Digest) (events : List LedgerEvent) (e : LedgerEvent)
      → chain d (events ++ e ∷ []) ≡ h.next (chain d events) e.id e.payload
  unfolding chain
  chain-append d [] e = refl
  chain-append d (f ∷ events) e = chain-append (h.next d f.id f.payload) events e

  pub digest_at-append :
      (i : ℕ) (d : h.Digest) (events : List LedgerEvent) (e : LedgerEvent)
      → digest_at i d (events ++ e ∷ [])
        ≡ or_else
            (digest_at i d events)
            (if eqb e.id i then some (h.next (chain d events) e.id e.payload) else none)
  unfolding chain digest_at
  digest_at-append i d [] e = refl
  digest_at-append i d (f ∷ events) e =
      ground (arith, digest_at-append i (h.next d f.id f.payload) events e)

  pub digest_at-below :
      (i lo hi : ℕ) (d : h.Digest) (events : List LedgerEvent)
      → i ≤ lo
      → Rising lo events hi
      → digest_at i d events ≡ none
  unfolding digest_at Rising
  digest_at-below i lo hi d [] le r = refl
  digest_at-below i lo hi d (e ∷ events) le (l, r) = ground (
    arith,
    l,
    digest_at-below i e.id hi (h.next d e.id e.payload) events (omega (arith, l, le)) r,
  )

  pub digest_at-above :
      (lo hi : ℕ) (d : h.Digest) (events : List LedgerEvent)
      → Rising lo events hi
      → (lo < hi) × (digest_at hi d events ≡ none)
  unfolding digest_at Rising
  digest_at-above lo hi d [] r = (r, refl)
  digest_at-above lo hi d (e ∷ events) (l, r) =
      let (m, rest) = digest_at-above e.id hi (h.next d e.id e.payload) events r in
      (omega (arith, l, m), ground (arith, m, rest))

  -- the checkpoint holds the digest after its event
  abbrev pub Fits : List LedgerEvent → AnchorLog → Type 0
  Fits events a = Option.map h.hex (digest_at a.event_id h.genesis events) ≡ some a.digest_hex

  abbrev text : Option String → String
  text none = ""
  text (some s) = s

  agrees-or_else :
      (o p : Option String) (got : String)
      → agrees o got ≡ true
      → agrees p got ≡ true
      → agrees (or_else o p) got ≡ true
  agrees-or_else none p got a b = b
  agrees-or_else (some want) p got a b = a

  row-agrees :
      (all : List LedgerEvent) (i : ℕ) (d : h.Digest) (a : AnchorLog)
      → Fits all a
      → digest_at i h.genesis all ≡ some d
      → agrees (if eqb a.event_id i then some a.digest_hex else none) (h.hex d) ≡ true
  row-agrees all i d a fit there = elim (Bool-cases (eqb a.event_id i)) [
    | inl hit ↦
        let here : digest_at a.event_id h.genesis all ≡ some d =
          ap (λ k. digest_at k h.genesis all) (ground (arith, hit)) ∙ there in
        let same : some a.digest_hex ≡ some (h.hex d) = sym fit ∙ ap (Option.map h.hex) here in
        rw hit (ap (λ want. h.hex d == want) (ap text same) ∙ eq_refl (h.hex d))
    | inr miss ↦ rw miss refl
  ]

  wanted-agrees :
      (all : List LedgerEvent) (i : ℕ) (d : h.Digest) (rows : List AnchorLog)
      → All (Fits all) rows
      → digest_at i h.genesis all ≡ some d
      → agrees (wanted i rows) (h.hex d) ≡ true
  unfolding wanted
  wanted-agrees all i d [] fits there = refl
  wanted-agrees all i d (a ∷ rows) (fit, fits) there =
      agrees-or_else (wanted i rows) _ _ (wanted-agrees all i d rows fits there)
        (row-agrees all i d a fit there)

  digest_at-skip :
      (i : ℕ) (d : h.Digest) (e : LedgerEvent) (events : List LedgerEvent) (g : h.Digest)
      → digest_at e.id (h.next d e.id e.payload) events ≡ none
      → digest_at i (h.next d e.id e.payload) events ≡ some g
      → digest_at i d (e ∷ events) ≡ some g
  unfolding digest_at
  digest_at-skip i d e events g after there = elim (Bool-cases (eqb e.id i)) [
    | inl hit ↦
        let same : e.id ≡ i = ground (arith, hit) in
        let absent = sym (ap (λ k. digest_at k (h.next d e.id e.payload) events) same) ∙ after in
        ground (arith, absent, there)
    | inr miss ↦ rw miss there
  ]

  pub check_events-Fits :
      (all : List LedgerEvent) (rows : List AnchorLog) (lo hi : ℕ) (d : h.Digest)
      (events : List LedgerEvent)
      → All (Fits all) rows
      → Rising lo events hi
      → ((i : ℕ) (g : h.Digest)
          → digest_at i d events ≡ some g
          → digest_at i h.genesis all ≡ some g)
      → check_events h rows d events ≡ none
  unfolding check_events digest_at Rising
  check_events-Fits all rows lo hi d [] fits r here = refl
  check_events-Fits all rows lo hi d (e ∷ events) fits (l, r) here =
      let d' = h.next d e.id e.payload in
      let after = digest_at-below e.id e.id hi d' events (omega arith) r in
      let rest =
        check_events-Fits all rows e.id hi d' events fits r
          (λ i g there. here i g (digest_at-skip i d e events g after there)) in
      let now = wanted-agrees all e.id d' rows fits (here e.id d' (ground arith)) in
      rw (now, rest) refl
