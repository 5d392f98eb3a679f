-- ===== src/Facts/Engine/Clamped.antt =====
-- Repeating evidence does not raise a fact's confidence.
use kahya.Base.{Bool, false, ◌||◌, ◌≡◌, ◌⊎◌, String, some, List, [], ◌∷◌, ◌==◌}
use kahya.Facts.Rows.{LogOdds, Evidence, supports, denies}
use kahya.Facts.Engine.{Strings, Key, key_eq, key_of}

module _ (o : LogOdds) (strs : Strings) where
  -- a row counts under the key already
  abbrev pub some_row : Key o → List (Evidence o) → Bool
  some_row k [] = false
  some_row k (e ∷ rows) = key_eq o k (key_of o strs e) || some_row k rows

-- `e` is the same evidence as `r`: both support with one weight, or one session denies by both
pub data SameEvidence (o : LogOdds) (e r : Evidence o) : Type 0 where
  one_weight :
      e.polarity ≡ supports → r.polarity ≡ supports → e.weight ≡ r.weight → SameEvidence o e r
  one_session :
      (s : String)
      → e.polarity ≡ denies
      → r.polarity ≡ denies
      → e.session_id ≡ some s
      → r.session_id ≡ some s
      → (s == "") ≡ false
      → SameEvidence o e r

-- a row that is the same evidence is there
abbrev pub Repeats : (o : LogOdds) → Evidence o → List (Evidence o) → Type 0
Repeats o e [] = ⊥
Repeats o e (r ∷ rows) = SameEvidence o e r ⊎ Repeats o e rows
