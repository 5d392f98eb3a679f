-- ===== src/Base/Table.antt =====
-- A table of rows: the shapes of SQL statement that the store's queries have. A row is chosen by a
-- test, the WHERE clause.
use Prim.Native.Nat.{ℕ, ◌+◌, ◌<◌}
use mathlib.Core.Path.{◌≡◌, refl}
use mathlib.Core.Bool.{Bool, true, false}
use mathlib.Core.Option
use mathlib.Core.Option.{Option, none, some}
use mathlib.Core.List.{List, [], ◌∷◌, ◌++◌}
use native.Mathlib.Omega.{arith}
use kahya.Base.Tests.{if◌then◌else◌}

abbrev pub or_else {ℓ} : {A : Type ℓ} → Option A → Option A → Option A
or_else none b = b
or_else (some a) b = some a

module _ {ℓ} {A : Type ℓ} where
  -- SELECT ... WHERE p LIMIT 1
  unfoldable pub find : (A → Bool) → List A → Option A
  find p [] = none
  find p (a ∷ rows) = if p a then some a else find p rows

  -- SELECT ... WHERE p
  unfoldable pub select : (A → Bool) → List A → List A
  select p [] = []
  select p (a ∷ rows) = let rest = select p rows in if p a then a ∷ rest else rest

  unfoldable pub insert_by : (A → A → Bool) → A → List A → List A
  insert_by before a [] = a ∷ []
  insert_by before a (b ∷ rows) =
      let rest = insert_by before a rows in if before b a then b ∷ rest else a ∷ b ∷ rows

  -- ORDER BY: the rows that `before` keeps in front of others
  unfoldable pub order_by : (A → A → Bool) → List A → List A
  unfolding insert_by
  order_by before [] = []
  order_by before (a ∷ rows) = insert_by before a (order_by before rows)

  -- UPDATE ... SET f WHERE p
  unfoldable pub update_where : (A → Bool) → (A → A) → List A → List A
  update_where p f [] = []
  update_where p f (a ∷ rows) = (if p a then f a else a) ∷ update_where p f rows

  -- the rows that an UPDATE ... WHERE p affects; SELECT COUNT(*) ... WHERE p
  unfoldable pub count_where : (A → Bool) → List A → ℕ
  count_where p [] = 0
  count_where p (a ∷ rows) = (if p a then 1 else 0) + count_where p rows

module _ {ℓ} {A : Type ℓ} (p q : A → Bool) (f : A → A) where
  -- An update that keeps the test of a SELECT is seen by it at the row that it finds.
  pub find-update_where :
      (keeps : (a : A) → p (f a) ≡ p a) (rows : List A)
      → find p (update_where q f rows) ≡ Option.map (λ a. if q a then f a else a) (find p rows)
  unfolding find update_where
  find-update_where keeps [] = refl
  find-update_where keeps (a ∷ rows) = ground (arith, keeps a, find-update_where keeps rows)

module _ {ℓ} {A : Type ℓ} (p : A → Bool) (f : A → A) where
  -- No row affected is no row changed.
  pub update_where_none : (rows : List A) → count_where p rows ≡ 0 → update_where p f rows ≡ rows
  unfolding count_where update_where
  update_where_none [] h = refl
  update_where_none (a ∷ rows) h = ground (arith, update_where_none rows)

  -- After an update whose rows no longer fit its own test, it affects none.
  pub count_where-update_where :
      ((a : A) → p a ≡ true → p (f a) ≡ false)
      → (rows : List A) → count_where p (update_where p f rows) ≡ 0
  unfolding count_where update_where
  count_where-update_where clears [] = refl
  count_where-update_where clears (a ∷ rows) =
      ground (arith, clears a, count_where-update_where clears rows)

module _ {ℓ} {A : Type ℓ} (p : A → Bool) where
  -- What a SELECT finds fits its test.
  pub find-holds : (rows : List A) (a : A) → find p rows ≡ some a → p a ≡ true
  unfolding find
  find-holds [] a h = ground arith
  find-holds (b ∷ rows) a h = ground (arith, find-holds rows a)

  -- A found row that a narrower UPDATE would affect makes its count positive.
  pub find-count_where :
      (q : A → Bool) (rows : List A) (a : A)
      → find p rows ≡ some a
      → q a ≡ true
      → 0 < count_where q rows
  unfolding find count_where
  find-count_where q [] a h k = ground arith
  find-count_where q (b ∷ rows) a h k = ground (arith, find-count_where q rows a)

  pub find-none-count_where :
      (q : A → Bool) (narrower : (a : A) → q a ≡ true → p a ≡ true) (rows : List A)
      → find p rows ≡ none
      → count_where q rows ≡ 0
  unfolding find count_where
  find-none-count_where q narrower [] h = refl
  find-none-count_where q narrower (b ∷ rows) h =
      ground (arith, narrower b, find-none-count_where q narrower rows)

  pub count_where-append :
      (rows more : List A) → count_where p (rows ++ more) ≡ count_where p rows + count_where p more
  unfolding count_where
  count_where-append [] more = omega arith
  count_where-append (b ∷ rows) more = ground (arith, count_where-append rows more)

  -- A row added behind the others is found when none of them is.
  pub find-append :
      (rows more : List A) → find p (rows ++ more) ≡ or_else (find p rows) (find p more)
  unfolding find
  find-append [] more = refl
  find-append (b ∷ rows) more = ground (arith, find-append rows more)

module _ {ℓ} {A : Type ℓ} (p q : A → Bool) (f : A → A) where
  -- An update that keeps another statement's test keeps the number of rows that it affects.
  pub count_where-update_where_same :
      (keeps : (a : A) → p (f a) ≡ p a) (rows : List A)
      → count_where p (update_where q f rows) ≡ count_where p rows
  unfolding count_where update_where
  count_where-update_where_same keeps [] = refl
  count_where-update_where_same keeps (a ∷ rows) =
      ground (arith, keeps a, count_where-update_where_same keeps rows)

module _ {ℓ} {A : Type ℓ} (p q : A → Bool) (f : A → A) where
  -- An update of rows that a SELECT does not fit is not seen by it.
  pub find-update_where_other :
      ((a : A) → p (f a) ≡ p a)
      → ((a : A) → p a ≡ true → q a ≡ false)
      → (rows : List A) → find p (update_where q f rows) ≡ find p rows
  unfolding find update_where
  find-update_where_other keeps apart [] = refl
  find-update_where_other keeps apart (a ∷ rows) =
      ground (arith, keeps a, apart a, find-update_where_other keeps apart rows)

module _ {ℓ κ} {A : Type ℓ} {B : Type κ} (p q : A → Bool) (f : A → A) (g : A → B) where
  -- An update that keeps a column keeps what a SELECT of it finds.
  pub map-find-update_where :
      ((a : A) → p (f a) ≡ p a)
      → ((a : A) → g (f a) ≡ g a)
      → (rows : List A) → Option.map g (find p (update_where q f rows)) ≡ Option.map g (find p rows)
  unfolding find update_where
  map-find-update_where keeps same [] = refl
  map-find-update_where keeps same (a ∷ rows) =
      ground (arith, keeps a, same a, map-find-update_where keeps same rows)

module _ {ℓ} {A : Type ℓ} (p q : A → Bool) (f : A → A) where
  -- An update that makes no row fit a test leaves none where there was none.
  pub count_where_none-update_where :
      ((a : A) → p a ≡ false → p (f a) ≡ false)
      → (rows : List A) → count_where p rows ≡ 0
      → count_where p (update_where q f rows) ≡ 0
  unfolding count_where update_where
  count_where_none-update_where no_new [] h = refl
  count_where_none-update_where no_new (a ∷ rows) h =
      ground (arith, no_new a, count_where_none-update_where no_new rows)
