-- ===== src/Base/Guarantee.antt =====
-- Rely and guarantee: if every act of the other handlers stands in the relation `R`, so does the
-- whole run of a handler, whatever fails. One rule for each way to build a handler.
use mathlib.Core.Path.{◌≡◌, refl, sym, ◌∙◌, subst}
use mathlib.Core.Bool.{Bool, true, false}
use mathlib.Core.Logic.{inl, inr}
use Prim.Native.Nat.{ℕ}
use kahya.Base.Tests.{if◌then◌else◌, Bool-cases}
use kahya.Base.Exec.{
  World, Exec, Result, Error, ok, err, pure, raise, caught, query, log, now, position, continue,
  ◌>>=◌, settle, transaction,
}

pub record IsPreorder {D : Type 0} (R : D → D → Type 0) : Type 0 where
  pub same : (d : D) → R d d
  pub chain : (a b c : D) → R a b → R b c → R a c

abbrev pub Rely : {D : Type 0} → (D → D → Type 0) → (ℕ → D → D) → Type 0
Rely {D} R others = (n : ℕ) (d : D) → R d (others n d)

pub record Guarantees {D E A : Type 0} (R : D → D → Type 0) (m : Exec D E A) : Type 0 where
  pub at : (w : World D E) → Rely R w.others → R w.db (m w).1.db
  pub others_kept : (w : World D E) → (m w).1.others ≡ w.others

module _ {D : Type 0} (R : D → D → Type 0) (order : IsPreorder R) where
  module _ {E A : Type 0} where
    pub Guarantees-pure : (a : A) → Guarantees R (pure {E = E} a)
    unfolding pure
    Guarantees-pure a = record { at = λ w h. order.same w.db; others_kept = λ w. refl }

    pub Guarantees-raise : (e : Error) → Guarantees R (raise {E = E} {A = A} e)
    unfolding raise
    Guarantees-raise e = record { at = λ w h. order.same w.db; others_kept = λ w. refl }

    pub Guarantees-caught : (m : Exec D E A) → Guarantees R m → Guarantees R (caught m)
    unfolding caught
    Guarantees-caught m g = record { at = g.at; others_kept = g.others_kept }

    pub Guarantees-query :
        (f : D → Result A × D) → ((d : D) → R d (f d).1) → Guarantees R (query {E = E} f)
    unfolding query
    Guarantees-query f step = record {
      at = λ w h. elim (Bool-cases (w.faults w.calls)) [
        | inl e ↦ rw e (h w.calls w.db)
        | inr e ↦ rw e (order.chain _ _ _ (h w.calls w.db) (step (w.others w.calls w.db)))
      ];
      others_kept = λ w. elim (Bool-cases (w.faults w.calls)) [ inl e ↦ rw e | inr e ↦ rw e ];
    }

    pub Guarantees-if :
        (b : Bool) (m n : Exec D E A)
        → (b ≡ true → Guarantees R m)
        → (b ≡ false → Guarantees R n)
        → Guarantees R (if b then m else n)
    Guarantees-if true m n gm gn = gm refl
    Guarantees-if false m n gm gn = gn refl

    settle-keeps :
        (w : World D E) (r : Result A × World D E) → R w.db r.1.db → R w.db (settle w r).1.db
    settle-keeps w (ok a, w') h = h
    settle-keeps w (err e, w') h = order.same w.db

    settle-others : (w : World D E) (r : Result A × World D E) → (settle w r).1.others ≡ w.others
    settle-others w (ok a, w') = refl
    settle-others w (err e, w') = refl

    pub Guarantees-transaction : (m : Exec D E A) → Guarantees R m → Guarantees R (transaction m)
    unfolding transaction
    Guarantees-transaction m g = record {
      at = λ w h.
          settle-keeps w (m (record w { others = λ n d. d }))
            (g.at (record w { others = λ n d. d }) (λ n d. order.same d));
      others_kept = λ w. settle-others w (m (record w { others = λ n d. d }));
    }

  module _ {E : Type 0} where
    pub Guarantees-log : (e : E) → Guarantees R (log {D = D} e)
    unfolding log
    Guarantees-log e = record { at = λ w h. order.same w.db; others_kept = λ w. refl }

    pub Guarantees-now : Guarantees R (now {D = D} {E = E})
    unfolding now
    Guarantees-now = record { at = λ w h. order.same w.db; others_kept = λ w. refl }

    pub Guarantees-position : Guarantees R (position {D = D} {E = E})
    unfolding position
    Guarantees-position = record { at = λ w h. order.same w.db; others_kept = λ w. refl }

  module _ {E A B : Type 0} (f : A → Exec D E B) (rest : (a : A) → Guarantees R (f a)) where
    continue-keeps : (r : Result A) (w : World D E) → Rely R w.others → R w.db (continue r f w).1.db
    continue-keeps (ok a) w h = (rest a).at w h
    continue-keeps (err e) w h = order.same w.db

    continue-others : (r : Result A) (w : World D E) → (continue r f w).1.others ≡ w.others
    continue-others (ok a) w = (rest a).others_kept w
    continue-others (err e) w = refl

    bind-keeps : (m : Exec D E A) → Guarantees R m → Guarantees R (m >>= f)
    unfolding ◌>>=◌
    bind-keeps m g = record {
      at = λ w h.
          order.chain w.db (m w).1.db _ (g.at w h)
            (continue-keeps (m w).0 (m w).1 (subst (Rely R) (sym (g.others_kept w)) h));
      others_kept = λ w. continue-others (m w).0 (m w).1 ∙ g.others_kept w;
    }

  module _ {E A B : Type 0} where
    pub Guarantees-bind :
        (m : Exec D E A) (f : A → Exec D E B)
        → Guarantees R m
        → ((a : A) → Guarantees R (f a))
        → Guarantees R (m >>= f)
    Guarantees-bind m f g rest = bind-keeps f rest m g

pub ruleset guarantee_rules = (
  Guarantees-pure, Guarantees-raise, Guarantees-caught, Guarantees-if, Guarantees-transaction,
  Guarantees-log, Guarantees-now, Guarantees-position, Guarantees-bind,
)
