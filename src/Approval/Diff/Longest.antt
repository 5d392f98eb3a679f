-- ===== src/Approval/Diff/Longest.antt =====
-- No common subsequence of the two texts is longer than what lcsDiff keeps.
use kahya.Base.{
  ℕ, suc, ◌≤◌, Bool, true, ◌≡◌, refl, sym, ap, ◌∙◌, Option, none, some, List, [], ◌∷◌, leb, arith,
  length, subst,
}
use kahya.Base.Text.{Text, text_eq, text_eq_refl}
use kahya.Approval.Diff.{lcs_diff, DiffLine, cell}
use kahya.Approval.Diff.Table.{lcs}
use kahya.Approval.Diff.Sides.{context_count, lcs_diff-sides, cell_case}

-- the lists obtained from both by leaving lines out
pub data Common : List Text → List Text → List Text → Type 0 where
  empty : {old new : List Text} → Common [] old new
  kept : {c old new : List Text} (x : Text) → Common c old new → Common (x ∷ c) (x ∷ old) (x ∷ new)
  without_old : {c old new : List Text} (x : Text) → Common c old new → Common c (x ∷ old) new
  without_new : {c old new : List Text} (y : Text) → Common c old new → Common c old (y ∷ new)

-- one line more of either text changes the value by at most one
Near : ℕ → ℕ → Type 0
Near a b = (a ≤ b) × (b ≤ suc a)

cell-Near :
    (same : Bool) (below right diagonal : ℕ)
    → Near diagonal right
    → Near diagonal below
    → Near below (cell same (leb right below) below right diagonal)
      × Near right (cell same (leb right below) below right diagonal)
unfolding Near
cell-Near same below right diagonal h k = ground (arith, h, k)

end : Near 0 0
unfolding Near
end = (omega arith, omega arith)

lcs-Near :
    (x y : Text) (old new : List Text)
    → Near (lcs old new) (lcs (x ∷ old) new) × Near (lcs old new) (lcs old (y ∷ new))
unfolding lcs
lcs-Near x y [] [] = (end, end)
lcs-Near x y [] (b ∷ new) =
    let (wide, long) = lcs-Near x b [] new in ((cell-Near (text_eq x b) _ _ _ wide long).0, end)
lcs-Near x y (a ∷ old) [] =
    let (wide, long) = lcs-Near a y old [] in (end, (cell-Near (text_eq a y) _ _ _ wide long).1)
lcs-Near x y (a ∷ old) (b ∷ new) =
    let (wide, long) = lcs-Near x b (a ∷ old) new in
    let (wide', long') = lcs-Near a y old (b ∷ new) in
    ((cell-Near (text_eq x b) _ _ _ wide long).0, (cell-Near (text_eq a y) _ _ _ wide' long').1)

lcs-same : (x : Text) (old new : List Text) → lcs (x ∷ old) (x ∷ new) ≡ suc (lcs old new)
unfolding lcs
lcs-same x old new = cell_case _ _ (lcs old new) true _ (text_eq_refl x) refl

Common-lcs : {c old new : List Text} → Common c old new → length c ≤ lcs old new
unfolding Near
Common-lcs empty = omega arith
Common-lcs (kept {c = c} {old = old} {new = new} x h) =
    rw (lcs-same x old new) (omega (arith, Common-lcs h))
Common-lcs (without_old {old = old} {new = new} x h) =
    omega (arith, Common-lcs h, (lcs-Near x x old new).0)
Common-lcs (without_new {old = old} {new = new} y h) =
    omega (arith, Common-lcs h, (lcs-Near y y old new).1)

get_or : List DiffLine → Option (List DiffLine) → List DiffLine
get_or l none = l
get_or l (some l') = l'

-- The diff keeps as many lines as can be kept: no list of lines that both texts contain in order
-- has more lines than the diff has context lines.
pub lcs_diff-longest :
    (old new c : List Text) (lines : List DiffLine)
    → Common c old new
    → lcs_diff old new ≡ some lines
    → length c ≤ context_count lines
unfolding get_or
lcs_diff-longest old new c lines common shown =
    let (found, e, os, ns, count) = lcs_diff-sides old new in
    subst (λ l. length c ≤ context_count l) (ap (get_or found) (sym e ∙ shown))
      (rw count (Common-lcs common))
