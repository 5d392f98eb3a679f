-- ===== src/Base/Exec.antt =====
-- Handlers that query the database, append to the ledger and read the clock. The daemon runs many
-- of them at once and nothing spans two statements, so before each call of the database the other
-- handlers act: `others`. A call may fail: `faults` says which ones do. The proofs hold for every
-- such oracle. What was written before an error stays written, so the state comes back beside it.
use Prim.Native.Nat.{ℕ, suc}
use mathlib.Core.Bool.{Bool, true, false}
use mathlib.Core.Option.{Option, none, some}
use mathlib.Core.List.{List, ◌∷◌}
use kahya.Base.Tests.{if◌then◌else◌}

-- The sentinel errors of the modelled packages; `store_failed` is any error of the database
-- but for `unique_violation`, which is any constraint's: the packages look at SQLite's code, which is one.
pub data Error : Type 0 where
  store_failed no_rows unique_violation : Error
  illegal_transition lost_transition_race : Error
  read_only_class claim_timeout codec_failed effect_failed : Error
  invalid_pending_approval token_invalid w3_requires_local_surface : Error
  w3_requires_typed_onayla no_open_undo_window unknown_tool invalid_class : Error
  lower_attempt empty_session notify_failed ctx_canceled random_failed task_not_resolvable : Error
  invalid_candidate no_active_fact merge_requires_evidence merge_into_itself
        merge_evidence_unusable :
      Error
  merge_ledger_not_found not_a_merge_record no_snapshot codec_invalid : Error

pub data Result {ℓ} (A : Type ℓ) : Type ℓ where
  ok : A → Result A
  err : Error → Result A

abbrev pub is_no_rows : Error → Bool
is_no_rows Error.no_rows = true
is_no_rows _ = false

abbrev pub is_unique_violation : Error → Bool
is_unique_violation Error.unique_violation = true
is_unique_violation _ = false

-- `db` is the database, `ledger` the events offered to `LogEvent`, newest first.
pub record World (D E : Type 0) : Type 0 where
  pub db : D
  pub ledger : List E
  pub calls : ℕ
  pub faults : ℕ → Bool
  pub clock : ℕ → ℕ
  pub others : ℕ → D → D

-- No other handler acts.
abbrev pub alone : {D E : Type 0} → (ℕ → Bool) → (ℕ → ℕ) → ℕ → List E → D → World D E
alone faults clock calls ledger db = record {
  db = db;
  ledger = ledger;
  calls = calls;
  faults = faults;
  clock = clock;
  others = λ n d. d;
}

-- No other handler acts, and no call fails.
abbrev pub calm : {D E : Type 0} → (ℕ → ℕ) → ℕ → List E → D → World D E
calm clock = alone (λ n. false) clock

abbrev pub Exec : Type 0 → Type 0 → Type 0 → Type 0
Exec D E A = World D E → Result A × World D E

module _ {D E A : Type 0} where
  unfoldable pub pure : A → Exec D E A
  pure a w = (ok a, w)

  unfoldable pub raise : Error → Exec D E A
  raise e w = (err e, w)

  abbrev pub answer : Result A × D → World D E → Result A × World D E
  answer (r, d) w = (r, record w { db = d })

  -- one statement sent to the database
  unfoldable pub query : (D → Result A × D) → Exec D E A
  query f w =
      let w' = record w { db = w.others w.calls w.db; calls = suc w.calls } in
      if w.faults w.calls then (err store_failed, w') else answer (f w'.db) w'

  -- an action whose error the caller looks at, or drops
  unfoldable pub caught : Exec D E A → Exec D E (Result A)
  caught m w = let (r, w') = m w in (ok r, w')

  -- BeginTx ... Commit: no other handler writes in between, and an error rolls back
  abbrev pub settle : World D E → Result A × World D E → Result A × World D E
  settle w (ok a, w') = (ok a, record w' { others = w.others })
  settle w (err e, w') = (err e, record w' { db = w.db; others = w.others })

  unfoldable pub transaction : Exec D E A → Exec D E A
  transaction m w = settle w (m (record w { others = λ n d. d }))

module _ {D E : Type 0} where
  unfoldable pub log : E → Exec D E (Unit {0})
  log e w = (ok tt, record w { ledger = e ∷ w.ledger })

  -- the clock is read between two calls of the database
  unfoldable pub now : Exec D E ℕ
  now w = (ok (w.clock w.calls), w)

  -- the number of calls so far, at which what is outside of the database answers
  unfoldable pub position : Exec D E ℕ
  position w = (ok w.calls, w)

module _ {D E A B : Type 0} where
  abbrev pub continue : Result A → (A → Exec D E B) → Exec D E B
  continue (ok a) f w = f a w
  continue (err e) f w = (err e, w)

  infixl 10 ◌>>=◌ ◌>>◌
  -- opening this opens the actions too
  unfoldable pub ◌>>=◌ : Exec D E A → (A → Exec D E B) → Exec D E B
  unfolding pure raise query caught transaction log now position
  ◌>>=◌ m f w = let (r, w') = m w in continue r f w'

  abbrev pub ◌>>◌ : Exec D E A → Exec D E B → Exec D E B
  m >> n = m >>= λ _. n

-- SELECT ... LIMIT 1, whose missing row is `sql.ErrNoRows`
abbrev pub found : {A : Type 0} → Option A → Result A
found none = err no_rows
found (some a) = ok a

abbrev pub one : {D A : Type 0} → Option A → D → Result A × D
one o d = (found o, d)
