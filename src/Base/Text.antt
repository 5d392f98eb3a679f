-- ===== src/Base/Text.antt =====
-- Texts as lists of runes, and the cuts at line feeds that diff.go takes from package strings.
use kahya.Base.{
  ℕ, Bool, true, false, ◌&&◌, ◌≡◌, refl, List, [], ◌∷◌, ◌++◌, eqb, if◌then◌else◌, arith,
}

abbrev pub Text : Type 0
Text = List ℕ

abbrev pub line_feed : ℕ
line_feed = 10

unfoldable pub text_eq : Text → Text → Bool
text_eq [] [] = true
text_eq (a ∷ s) (b ∷ t) = eqb a b && text_eq s t
text_eq _ _ = false

unfoldable pub join : List Text → Text
join [] = []
join (s ∷ rest) = s ++ join rest

abbrev pub prepend : ℕ → List Text → List Text
prepend c [] = (c ∷ []) ∷ []
prepend c (s ∷ rest) = (c ∷ s) ∷ rest

-- strings.Split(s, "\n")
unfoldable pub split : Text → List Text
split [] = [] ∷ []
split (c ∷ s) = let rest = split s in if eqb c line_feed then [] ∷ rest else prepend c rest

-- strings.SplitAfter(s, "\n")
unfoldable pub split_after : Text → List Text
split_after [] = [] ∷ []
split_after (c ∷ s) =
    let rest = split_after s in if eqb c line_feed then (c ∷ []) ∷ rest else prepend c rest

pub text_eq-true : (s t : Text) → text_eq s t ≡ true → s ≡ t
unfolding text_eq
text_eq-true [] [] h = refl
text_eq-true [] (b ∷ t) h = ground (arith, h)
text_eq-true (a ∷ s) [] h = ground (arith, h)
text_eq-true (a ∷ s) (b ∷ t) h = grind (arith, text_eq-true s t)

pub text_eq_refl : (s : Text) → text_eq s s ≡ true
unfolding text_eq
text_eq_refl [] = refl
text_eq_refl (a ∷ s) = ground (arith, text_eq_refl s)

prepend-join : (c : ℕ) (ls : List Text) → join (prepend c ls) ≡ c ∷ join ls
unfolding join
prepend-join c [] = refl
prepend-join c (s ∷ rest) = refl

pub join-split_after : (s : Text) → join (split_after s) ≡ s
unfolding join split_after
join-split_after [] = refl
join-split_after (c ∷ s) = ground (arith, join-split_after s, prepend-join c (split_after s))
