-- ===== src/Base/Returns.antt =====
-- What a handler returns when it returns a value, from any state and whatever fails.
use mathlib.Core.Path.{◌≡◌, refl}
use mathlib.Core.Bool.{Bool, true, false}
use kahya.Base.Tests.{if◌then◌else◌}
use kahya.Base.Exec.{World, Exec, Result, Error, ok, err, pure, raise, caught, continue, ◌>>=◌}

abbrev pub OnOk : {A : Type 0} → (A → Type 0) → Result A → Type 0
OnOk P (ok a) = P a
OnOk P (err _) = Unit {0}

pub record Returns {D E A : Type 0} (P : A → Type 0) (m : Exec D E A) : Type 0 where
  pub at : (w : World D E) → OnOk P (m w).0

module _ {D E A : Type 0} (P : A → Type 0) where
  pub Returns-pure : (a : A) → P a → Returns P (pure {D = D} {E = E} a)
  unfolding pure
  Returns-pure a p = record { at = λ w. p }

  pub Returns-raise : (e : Error) → Returns P (raise {D = D} {E = E} {A = A} e)
  unfolding raise
  Returns-raise e = record { at = λ w. tt }

  pub Returns-if :
      (b : Bool) (m n : Exec D E A)
      → (b ≡ true → Returns P m)
      → (b ≡ false → Returns P n)
      → Returns P (if b then m else n)
  Returns-if true m n gm gn = gm refl
  Returns-if false m n gm gn = gn refl

module _ {D E A : Type 0} (P : A → Type 0) where
  pub Returns-caught : (m : Exec D E A) → Returns P m → Returns (OnOk P) (caught m)
  unfolding caught
  Returns-caught m g = record { at = g.at }

module _ {D E A B : Type 0} (Q : A → Type 0) (P : B → Type 0) (f : A → Exec D E B) where
  continue-OnOk :
      ((a : A) → Q a → Returns P (f a))
      → (r : Result A) (w : World D E) → OnOk Q r
      → OnOk P (continue r f w).0
  continue-OnOk rest (ok a) w q = (rest a q).at w
  continue-OnOk rest (err e) w q = tt

  -- what the first step returns is what the second may use
  pub Returns-bind :
      (m : Exec D E A) → Returns Q m → ((a : A) → Q a → Returns P (f a)) → Returns P (m >>= f)
  unfolding ◌>>=◌
  Returns-bind m g rest = record { at = λ w. continue-OnOk rest (m w).0 (m w).1 (g.at w) }

OnOk-any : {A : Type 0} (r : Result A) → OnOk (λ a. Unit {0}) r
OnOk-any (ok a) = tt
OnOk-any (err e) = tt

module _ {D E A B : Type 0} (P : B → Type 0) where
  pub Returns-then :
      (m : Exec D E A) (f : A → Exec D E B) → ((a : A) → Returns P (f a)) → Returns P (m >>= f)
  Returns-then m f rest =
      Returns-bind (λ a. Unit {0}) P f m (record { at = λ w. OnOk-any (m w).0 }) (λ a _. rest a)

pub ruleset returns_rules = (Returns-pure, Returns-raise, Returns-if, Returns-caught, Returns-then)
