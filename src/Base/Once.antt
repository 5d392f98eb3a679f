-- ===== src/Base/Once.antt =====
-- What can be done once: a handler that achieves a condition whenever it succeeds, and one that the
-- condition makes fail. The condition is one that the relation of rely and guarantee keeps.
use mathlib.Core.Path.{◌≡◌, refl, sym, subst}
use mathlib.Core.Bool.{Bool, true, false}
use mathlib.Core.Logic.{◌≢◌}
use native.Mathlib.Omega.{arith}
use kahya.Base.Tests.{if◌then◌else◌}
use kahya.Base.Exec.{World, Exec, Result, Error, ok, err, raise, continue, ◌>>=◌}
use kahya.Base.Guarantee.{Guarantees, Rely}

module _ {D E A : Type 0} (R : D → D → Type 0) (I : D → Type 0) where
  pub record Achieves (m : Exec D E A) : Type 0 where
    pub at : (w : World D E) → Rely R w.others → (a : A) → (m w).0 ≡ ok a → I (m w).1.db

  pub record Refuses (m : Exec D E A) : Type 0 where
    pub at : (w : World D E) → Rely R w.others → I w.db → (a : A) → (m w).0 ≢ ok a

module _ {D : Type 0} (R : D → D → Type 0) (I : D → Type 0)
    (kept : (d d' : D) → R d d' → I d → I d') where
  module _ {E A : Type 0} where
    pub Achieves-raise : (e : Error) → Achieves R I (raise {E = E} {A = A} e)
    unfolding raise
    Achieves-raise e = record { at = λ w rely a h. ground arith }

    pub Refuses-raise : (e : Error) → Refuses R I (raise {E = E} {A = A} e)
    unfolding raise
    Refuses-raise e = record { at = λ w rely i a h. ground arith }

    pub Achieves-if :
        (b : Bool) (m n : Exec D E A)
        → (b ≡ true → Achieves R I m)
        → (b ≡ false → Achieves R I n)
        → Achieves R I (if b then m else n)
    Achieves-if true m n gm gn = gm refl
    Achieves-if false m n gm gn = gn refl

    pub Refuses-if :
        (b : Bool) (m n : Exec D E A)
        → (b ≡ true → Refuses R I m)
        → (b ≡ false → Refuses R I n)
        → Refuses R I (if b then m else n)
    Refuses-if true m n gm gn = gm refl
    Refuses-if false m n gm gn = gn refl

  module _ {E A B : Type 0} (m : Exec D E A) (f : A → Exec D E B) where
    first_continues :
        ((a : A) → Guarantees R (f a))
        → (w : World D E) → Rely R w.others
        → (r : Result A) → ((a : A) → r ≡ ok a → I w.db)
        → (b : B) → (continue r f w).0 ≡ ok b
        → I (continue r f w).1.db
    first_continues rest w rely (ok a) i b h = kept w.db _ ((rest a).at w rely) (i a refl)
    first_continues rest w rely (err e) i b h = ground arith

    -- achieved by the first step
    pub Achieves-first :
        Guarantees R m → Achieves R I m → ((a : A) → Guarantees R (f a)) → Achieves R I (m >>= f)
    unfolding ◌>>=◌
    Achieves-first g first rest = record {
      at = λ w rely b h.
          first_continues rest (m w).1 (subst (Rely R) (sym (g.others_kept w)) rely) (m w).0
            (first.at w rely) b h;
    }

    rest_continues :
        ((a : A) → Achieves R I (f a))
        → (w : World D E) → Rely R w.others
        → (r : Result A) (b : B) → (continue r f w).0 ≡ ok b
        → I (continue r f w).1.db
    rest_continues rest w rely (ok a) b h = (rest a).at w rely b h
    rest_continues rest w rely (err e) b h = ground arith

    -- achieved behind the first step
    pub Achieves-rest : Guarantees R m → ((a : A) → Achieves R I (f a)) → Achieves R I (m >>= f)
    unfolding ◌>>=◌
    Achieves-rest g rest = record {
      at = λ w rely b h.
          rest_continues rest (m w).1 (subst (Rely R) (sym (g.others_kept w)) rely) (m w).0 b h;
    }

    refused_continues :
        (w : World D E) (r : Result A) → ((a : A) → r ≢ ok a) → (b : B) → (continue r f w).0 ≢ ok b
    refused_continues w (ok a) fails b h = fails a refl
    refused_continues w (err e) fails b h = ground arith

    pub Refuses-first : Refuses R I m → Refuses R I (m >>= f)
    unfolding ◌>>=◌
    Refuses-first first = record {
      at = λ w rely i. refused_continues (m w).1 (m w).0 (first.at w rely i);
    }

    refusing_continues :
        ((a : A) → Refuses R I (f a))
        → (w : World D E) → Rely R w.others
        → I w.db
        → (r : Result A) (b : B) → (continue r f w).0 ≢ ok b
    refusing_continues rest w rely i (ok a) b h = (rest a).at w rely i b h
    refusing_continues rest w rely i (err e) b h = ground arith

    pub Refuses-rest : Guarantees R m → ((a : A) → Refuses R I (f a)) → Refuses R I (m >>= f)
    unfolding ◌>>=◌
    Refuses-rest g rest = record {
      at = λ w rely i.
          refusing_continues rest (m w).1 (subst (Rely R) (sym (g.others_kept w)) rely)
            (kept w.db _ (g.at w rely) i) (m w).0;
    }
