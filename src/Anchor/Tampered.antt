-- ===== src/Anchor/Tampered.antt =====
-- A ledger that the check finds verified is, up to an event with a checkpoint, the ledger that the
-- checkpoint was made of.
use kahya.Base.{
  ℕ, String, true, ◌≡◌, ◌≢◌, refl, sym, ap, ◌∙◌, Option, none, some, List, [], ◌∷◌, eqb, ◌==◌,
  eq_iff, arith, if◌then◌else◌, Bool-cases, Option-cases, inl, inr,
}
use mathlib.Core.Option
use kahya.Base.Table.{order_by}
use kahya.Base.Exec.{World, ok, calm, ◌>>=◌}
use kahya.Anchor.Rows.{LedgerEvent, AnchorLog, Hashing, Alarm, LedgerDb}
use kahya.Anchor.Queries.{by_id, by_event_id, list_all_events, list_anchor_logs}
use kahya.Anchor.Verify.{
  verified, Remote, wanted, agrees, check_events, verify_local, report, verify,
}
use kahya.Anchor.Chain.{digest_at}

-- the ids and payloads of the events up to the first one of the id, latest first
unfoldable pub upto : ℕ → List (ℕ × String) → List LedgerEvent → Option (List (ℕ × String))
upto i seen [] = none
upto i seen (e ∷ events) =
    let rest = upto i ((e.id, e.payload) ∷ seen) events in
    if eqb e.id i then some ((e.id, e.payload) ∷ seen) else rest

module _ (h : Hashing)
    (next_injective : (d e : h.Digest) (i j : ℕ) (p q : String)
      → h.next d i p ≡ h.next e j q
      → (d ≡ e) × (i ≡ j) × (p ≡ q))
    (next_fresh : (d : h.Digest) (i : ℕ) (p : String) → h.next d i p ≢ h.genesis) where
  chain_of : List (ℕ × String) → h.Digest
  chain_of [] = h.genesis
  chain_of ((i, p) ∷ seen) = h.next (chain_of seen) i p

  chain_of_injective : (xs ys : List (ℕ × String)) → chain_of xs ≡ chain_of ys → xs ≡ ys
  unfolding chain_of
  chain_of_injective [] [] e = refl
  chain_of_injective [] ((j, q) ∷ ys) e = elim (next_fresh (chain_of ys) j q (sym e)) [ ]
  chain_of_injective ((i, p) ∷ xs) [] e = elim (next_fresh (chain_of xs) i p e) [ ]
  chain_of_injective ((i, p) ∷ xs) ((j, q) ∷ ys) e =
      let (d, k, t) = next_injective (chain_of xs) (chain_of ys) i j p q e in
      rw (chain_of_injective xs ys d, k, t) refl

  digest_at-upto :
      (i : ℕ) (seen : List (ℕ × String)) (events : List LedgerEvent)
      → digest_at h i (chain_of seen) events ≡ Option.map chain_of (upto i seen events)
  unfolding chain_of digest_at upto
  digest_at-upto i seen [] = refl
  digest_at-upto i seen (e ∷ events) =
      let rest = digest_at-upto i ((e.id, e.payload) ∷ seen) events in
      elim (Bool-cases (eqb e.id i)) [ inl hit ↦ rw hit refl | inr miss ↦ rw miss rest ]

  abbrev value : Option h.Digest → h.Digest
  value none = h.genesis
  value (some d) = d

  agrees-eq :
      (rows : List AnchorLog) (i j : ℕ) (want got : String)
      → wanted i rows ≡ some want
      → j ≡ i
      → agrees (wanted j rows) got ≡ true
      → got ≡ want
  agrees-eq rows i j want got there same good =
      let equal : (got == want) ≡ true =
        ap (λ o. agrees o got) (sym (ap (λ k. wanted k rows) same ∙ there)) ∙ good in
      ground (arith, eq_iff got want, equal)

  -- a checkpoint that was compared holds the digest of its event
  checked :
      (rows : List AnchorLog) (i : ℕ) (want : String) (d g : h.Digest) (events : List LedgerEvent)
      → wanted i rows ≡ some want
      → check_events h rows d events ≡ none
      → digest_at h i d events ≡ some g
      → h.hex g ≡ want
  unfolding check_events digest_at
  checked rows i want d g [] there fine here = ground arith
  checked rows i want d g (e ∷ events) there fine here =
      let d' = h.next d e.id e.payload in
      elim (Bool-cases (agrees (wanted e.id rows) (h.hex d'))) [
        | inr differs ↦ ground (arith, differs, fine)
        | inl good ↦
            let later : check_events h rows d' events ≡ none = ground (arith, good, fine) in
            elim (Bool-cases (eqb e.id i)) [
              | inl hit ↦
                  let now : some d' ≡ some g = ground (arith, hit, here) in
                  ap h.hex (sym (ap value now))
                  ∙ agrees-eq rows i e.id want (h.hex d') there (ground (arith, hit)) good
              | inr miss ↦ checked rows i want d' g events there later (ground (arith, miss, here))
            ]
      ]

  local-none :
      (remote : Remote) (o : Option ℕ) (w : World (LedgerDb h) Alarm)
      → (verify_local h remote o w).0 ≡ ok verified
      → o ≡ none
  unfolding verify_local report ◌>>=◌
  local-none remote none w fine = refl
  local-none remote (some i) w fine = ground arith

  verified-none :
      (remote : Remote) (clock : ℕ → ℕ) (n : ℕ) (ledger : List Alarm) (d : LedgerDb h)
      → (verify h remote (calm clock n ledger d)).0 ≡ ok verified
      → check_events h (order_by by_event_id d.anchors) h.genesis (order_by by_id d.events) ≡ none
  unfolding verify list_all_events list_anchor_logs ◌>>=◌
  verified-none remote clock n ledger d fine = local-none remote _ _ fine

  abbrev entries : Option (List (ℕ × String)) → List (ℕ × String)
  entries none = []
  entries (some xs) = xs

  same-digests :
      (i : ℕ) (g k : h.Digest) (was now : List LedgerEvent) (xs : List (ℕ × String))
      → digest_at h i h.genesis was ≡ some g
      → upto i [] now ≡ some xs
      → (digest_at h i h.genesis now ≡ some k → k ≡ g)
      → k ≡ chain_of xs
      → upto i [] was ≡ some xs
  unfolding chain_of
  same-digests i g k was now xs there found equal is = elim (Option-cases (upto i [] was)) [
    | inl e ↦ ground (arith, digest_at-upto i [] was, e, there)
    | inr (ys, e) ↦
        let old : some g ≡ some (chain_of ys) =
          sym there ∙ digest_at-upto i [] was ∙ ap (Option.map chain_of) e in
        let new : digest_at h i h.genesis now ≡ some k =
          digest_at-upto i [] now ∙ ap (Option.map chain_of) found ∙ ap (λ x. some x) (sym is) in
        let same : chain_of ys ≡ chain_of xs = sym (ap value old) ∙ sym (equal new) ∙ is in
        e ∙ ap (λ x. some x) (chain_of_injective ys xs same)
  ]

  -- Where digests collide nowhere and no other digest is written as that of the checkpoint, a ledger that the check finds verified, in whatever way its events
  -- were rewritten, has up to an event `i` that it still holds the same ids and payloads as the ledger
  -- `was` of which the checkpoint for `i` holds the digest. (No failing call, no other handler.)
  pub verify-upto :
      (remote : Remote) (clock : ℕ → ℕ) (n : ℕ) (ledger : List Alarm) (d : LedgerDb h) (i : ℕ)
      (g : h.Digest) (was : List LedgerEvent) (xs : List (ℕ × String))
      → ((k : h.Digest) → h.hex k ≡ h.hex g → k ≡ g)
      → digest_at h i h.genesis was ≡ some g
      → wanted i (order_by by_event_id d.anchors) ≡ some (h.hex g)
      → upto i [] (order_by by_id d.events) ≡ some xs
      → (verify h remote (calm clock n ledger d)).0 ≡ ok verified
      → upto i [] was ≡ some xs
  verify-upto remote clock n ledger d i g was xs only there anchored found fine =
      same-digests i g (chain_of xs) was (order_by by_id d.events) xs there found
        (λ now. only (chain_of xs) (
          checked (order_by by_event_id d.anchors) i (h.hex g) h.genesis (chain_of xs)
            (order_by by_id d.events) anchored (verified-none remote clock n ledger d fine) now))
        refl
