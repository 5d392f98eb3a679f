-- ===== src/Approval/Diff/Table.antt =====
-- The table that lcsDiff fills holds, at [i][j], the value of a plain recursion at old[i:] and new[j:].
use kahya.Base.{ℕ, zero, suc, ◌≤◌, ◌≡◌, refl, ap, some, List, [], ◌∷◌, leb, arith, length}
use kahya.Base.Text.{Text, text_eq}
use kahya.Approval.Diff.{
  get_elem?, cell, fill_row, zeros, first_row, fill_table, dp_at, head_or_zero,
}

-- the length of a longest common subsequence, by recursion on the two lists
unfoldable pub lcs : List Text → List Text → ℕ
lcs [] new = 0
lcs (x ∷ old) [] = 0
lcs (x ∷ old) (y ∷ new) =
    let below = lcs old (y ∷ new) in
    let right = lcs (x ∷ old) new in
    let diagonal = lcs old new in cell (text_eq x y) (leb right below) below right diagonal

-- the row of old, over all suffixes of new
row_of : List Text → List Text → List ℕ
row_of old [] = lcs old [] ∷ []
row_of old (y ∷ new) = lcs old (y ∷ new) ∷ row_of old new

abbrev pub drop : {A : Type 0} → ℕ → List A → List A
drop zero xs = xs
drop (suc n) [] = []
drop (suc n) (x ∷ xs) = drop n xs

head-row_of : (old new : List Text) → head_or_zero (row_of old new) ≡ lcs old new
unfolding row_of
head-row_of old [] = refl
head-row_of old (y ∷ new) = refl

zeros-row_of : (new : List Text) → zeros new ≡ row_of [] new
unfolding row_of lcs
zeros-row_of [] = refl
zeros-row_of (y ∷ new) = ap (λ r. 0 ∷ r) (zeros-row_of new)

fill_row-row_of :
    (x : Text) (old new : List Text) → fill_row x new (row_of old new) ≡ row_of (x ∷ old) new
unfolding fill_row row_of lcs
fill_row-row_of x old [] = refl
fill_row-row_of x old (y ∷ new) =
    rw (fill_row-row_of x old new, head-row_of (x ∷ old) new, head-row_of old new) refl

first_row-fill_table : (old new : List Text) → first_row (fill_table old new) ≡ row_of old new
unfolding fill_table
first_row-fill_table [] new = zeros-row_of new
first_row-fill_table (x ∷ old) new = rw (first_row-fill_table old new) (fill_row-row_of x old new)

get_elem?-row_of :
    (old new : List Text) (j : ℕ)
    → j ≤ length new
    → get_elem? (row_of old new) j ≡ some (lcs old (drop j new))
unfolding row_of
get_elem?-row_of old [] zero h = refl
get_elem?-row_of old [] (suc j) h = ground (arith, h)
get_elem?-row_of old (y ∷ new) zero h = refl
get_elem?-row_of old (y ∷ new) (suc j) h = get_elem?-row_of old new j (omega arith)

get_elem?-fill_table :
    (old new : List Text) (i : ℕ)
    → i ≤ length old
    → get_elem? (fill_table old new) i ≡ some (row_of (drop i old) new)
unfolding fill_table
get_elem?-fill_table [] new zero h = ap some (zeros-row_of new)
get_elem?-fill_table [] new (suc i) h = ground (arith, h)
get_elem?-fill_table (x ∷ old) new zero h = ap some (first_row-fill_table (x ∷ old) new)
get_elem?-fill_table (x ∷ old) new (suc i) h = get_elem?-fill_table old new i (omega arith)

-- Each entry of the filled table, at indices up to the two lengths, is there and is what the plain recursion
-- with the same cell computes for the two remaining lists.
pub dp_at-fill_table :
    (old new : List Text) (i j : ℕ)
    → i ≤ length old
    → j ≤ length new
    → dp_at (fill_table old new) i j ≡ some (lcs (drop i old) (drop j new))
dp_at-fill_table old new i j hi hj =
    rw (get_elem?-fill_table old new i hi) (get_elem?-row_of (drop i old) new j hj)
