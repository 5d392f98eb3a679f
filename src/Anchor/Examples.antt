-- ===== src/Anchor/Examples.antt =====
-- Tests of kahyad/internal/anchor on a concrete ledger, and the theorems at it.
use kahya.Base.{
  ℕ, String, Bool, true, ◌&&◌, ◌≡◌, ◌≢◌, refl, sym, ap, ◌∙◌, none, some, List, [], ◌∷◌, eqb, ◌==◌,
  eq_iff, arith, if◌then◌else◌, Bool-cases, inl, inr,
}
use kahya.Base.Table.{order_by, insert_by}
use kahya.Base.Exec.{World, ok, calm, ◌>>=◌}
use kahya.Base.Returns.{OnOk}
use kahya.Anchor.Rows.{anchor_pushed, LedgerEvent, AnchorLog, Hashing, Alarm, LedgerDb}
use kahya.Anchor.Queries.{by_id, by_event_id, list_all_events, list_anchor_logs}
use kahya.Anchor.Push.{Pusher}
use kahya.Anchor.Verify.{verified, wanted, check_events, verify_local, check_remote, report, verify}
use kahya.Anchor.Chain.{Rising, chain, digest_at}
use kahya.Anchor.Kept.{Sound}
use kahya.Anchor.Checked.{Call, appends, pushes, run_calls, run_calls-verify}
use kahya.Anchor.Tampered.{upto, verify-upto}

-- a digest that is all that was hashed
abbrev Whole : Type 0
Whole = List (ℕ × String)

abbrev written : Whole → String
written [] = "none"
written ((i, p) ∷ []) = if eqb i 1 && p == "first" then "one" else "more"
written _ = "more"

abbrev hashing : Hashing
hashing = record { Digest = Whole; genesis = []; next = λ d i p. (i, p) ∷ d; hex = written }

abbrev empty : LedgerDb hashing
empty = record {
  events = [];
  anchors = [];
  state = record { last_event_id = 0; digest = [] };
  next_id = 1;
  next_anchor_id = 1;
}

empty-Sound : Sound hashing empty
unfolding Rising chain
empty-Sound = record { rising = omega arith; chained = refl; stated = inl refl; anchored = tt }

abbrev pusher : Pusher
pusher = record { pushes = λ n row. true; payload_of = λ row. "pushed"; interval_hours = 1 }

abbrev clock : ℕ → ℕ
clock n = n

abbrev start : World (LedgerDb hashing) Alarm
start = calm clock 0 [] empty

abbrev calls : List (Call hashing)
calls = appends "t" "k" "first" ∷ pushes pusher "t" (some "origin") ∷ []

run_calls-verify_example :
    OnOk (λ r. r ≡ verified) (verify hashing none (run_calls hashing calls start).1).0
run_calls-verify_example =
    run_calls-verify hashing calls start (λ n d r s. (s, λ i g e. e)) empty-Sound

abbrev event : ℕ → String → LedgerEvent
event id payload = record {
  id = id;
  trace_id = "t";
  ts = 0;
  kind = "k";
  payload = payload;
  created_at = 0;
}

abbrev checkpoint : AnchorLog
checkpoint = record {
  id = 1;
  event_id = 1;
  digest_hex = "one";
  anchored_at = 0;
  remote_ref = none;
  status = anchor_pushed;
}

abbrev rewritten : LedgerDb hashing
rewritten = record empty {
  events = event 1 "first" ∷ event 2 "changed" ∷ [];
  anchors = checkpoint ∷ [];
}

is_one : String → Bool
is_one s = s == "one"

only_one : (k : Whole) → written k ≡ "one" → k ≡ (1, "first") ∷ []
unfolding is_one
only_one [] e = ground (arith, ap is_one e)
only_one ((i, p) ∷ []) e = elim (Bool-cases (eqb i 1 && p == "first")) [
  | inl hit ↦
      let here : i ≡ 1 = ground (arith, hit) in
      let there : p ≡ "first" = ground (arith, hit, eq_iff p "first") in rw (here, there) refl
  | inr miss ↦
      let more : written ((i, p) ∷ []) ≡ "more" = rw miss refl in
      ground (arith, ap is_one (sym more ∙ e))
]
only_one ((i, p) ∷ x ∷ k) e = ground (arith, ap is_one e)

still_verified : (verify hashing none (calm clock 0 [] rewritten)).0 ≡ ok verified
unfolding verify list_all_events list_anchor_logs verify_local check_remote report check_events
    wanted order_by insert_by ◌>>=◌
still_verified = refl

first_kept : upto 1 [] (order_by by_id rewritten.events) ≡ some ((1, "first") ∷ [])
unfolding upto order_by insert_by
first_kept = refl

anchored_first : wanted 1 (order_by by_event_id rewritten.anchors) ≡ some "one"
unfolding wanted order_by insert_by
anchored_first = refl

digest_first :
    digest_at hashing 1 [] (event 1 "first" ∷ event 2 "second" ∷ []) ≡ some ((1, "first") ∷ [])
unfolding digest_at
digest_first = refl

head_of : Whole → ℕ × String
head_of [] = (0, "")
head_of (x ∷ k) = x

tail_of : Whole → Whole
tail_of [] = []
tail_of (x ∷ k) = k

next_injective :
    (d e : Whole) (i j : ℕ) (p q : String)
    → ((i, p) ∷ d) ≡ ((j, q) ∷ e)
    → (d ≡ e) × (i ≡ j) × (p ≡ q)
unfolding head_of tail_of
next_injective d e i j p q same =
    (ap tail_of same, ap (λ k. (head_of k).0) same, ap (λ k. (head_of k).1) same)

next_fresh : (d : Whole) (i : ℕ) (p : String) → ((i, p) ∷ d) ≢ []
next_fresh d i p same = ground (arith, same)

verify-upto_example : upto 1 [] (event 1 "first" ∷ event 2 "second" ∷ []) ≡ some ((1, "first") ∷ [])
verify-upto_example =
    verify-upto hashing next_injective next_fresh none clock 0 [] rewritten 1 ((1, "first") ∷ [])
      (event 1 "first" ∷ event 2 "second" ∷ []) ((1, "first") ∷ []) only_one digest_first
      anchored_first first_kept still_verified
