-- ===== src/Approval/Diff.antt =====
-- kahyad/internal/approval/diff.go: the diff of two texts by lines that an approval shows.
pub mod Table
pub mod Sides
pub mod Longest
use kahya.Base.{
  ℕ, zero, suc, ◌+◌, ◌*◌, Bool, true, false, Option, none, some, List, [], ◌∷◌, leb, ltb, eqb,
  length,
}
use kahya.Base.Text.{Text, text_eq, split, line_feed}

pub data DiffOp : Type 0 where
  diff_context diff_add diff_remove : DiffOp

pub record DiffLine : Type 0 where
  pub op : DiffOp
  pub text : Text

abbrev pub line : DiffOp → Text → DiffLine
line op text = record { op = op; text = text }

abbrev pub each : DiffOp → List Text → List DiffLine
each op [] = []
each op (x ∷ xs) = line op x ∷ each op xs

abbrev pub get_elem? : {A : Type 0} → List A → ℕ → Option A
get_elem? [] n = none
get_elem? (x ∷ xs) zero = some x
get_elem? (x ∷ xs) (suc n) = get_elem? xs n

abbrev pub head_or_zero : List ℕ → ℕ
head_or_zero [] = 0
head_or_zero (x ∷ xs) = x

abbrev pub tail : List ℕ → List ℕ
tail [] = []
tail (x ∷ xs) = xs

-- dp[i][j], by old[i] == new[j] and dp[i+1][j] >= dp[i][j+1]
abbrev pub cell : Bool → Bool → ℕ → ℕ → ℕ → ℕ
cell true more below right diagonal = suc diagonal
cell false true below right diagonal = below
cell false false below right diagonal = right

-- one pass of the inner loop, from the right: `below` is row i + 1
unfoldable pub fill_row : Text → List Text → List ℕ → List ℕ
fill_row x [] below = 0 ∷ []
fill_row x (y ∷ new) below =
    let rest = fill_row x new (tail below) in
    let below_right = head_or_zero (tail below) in
    let right = head_or_zero rest in
    cell (text_eq x y) (leb right (head_or_zero below)) (head_or_zero below) right below_right
    ∷ rest

abbrev pub zeros : List Text → List ℕ
zeros [] = 0 ∷ []
zeros (y ∷ new) = 0 ∷ zeros new

abbrev pub first_row : List (List ℕ) → List ℕ
first_row [] = []
first_row (row ∷ rows) = row

-- the outer loop, from the last row up
unfoldable pub fill_table : List Text → List Text → List (List ℕ)
fill_table [] new = zeros new ∷ []
fill_table (x ∷ old) new = let rows = fill_table old new in fill_row x new (first_row rows) ∷ rows

abbrev pub read_cell : Option (List ℕ) → ℕ → Option ℕ
read_cell none j = none
read_cell (some row) j = get_elem? row j

-- dp[i][j]; an index out of range panics in Go and is `none` here
abbrev pub dp_at : List (List ℕ) → ℕ → ℕ → Option ℕ
dp_at dp i j = read_cell (get_elem? dp i) j

abbrev pub ge : Option ℕ → Option ℕ → Option Bool
ge (some a) (some b) = some (leb b a)
ge _ _ = none

abbrev pub push : DiffOp → Text → Option (List DiffLine) → Option (List DiffLine)
push op x none = none
push op x (some lines) = some (line op x ∷ lines)

-- the loop over both texts and the two that follow it, at old[i] and new[j]
unfoldable pub walk : List (List ℕ) → List Text → List Text → ℕ → ℕ → Option (List DiffLine)
walk dp [] new i j = some (each diff_add new)
walk dp (x ∷ old) [] i j = some (each diff_remove (x ∷ old))
walk dp (x ∷ old) (y ∷ new) i j = elim (text_eq x y) [
  | true ↦ push diff_context x (walk dp old new (suc i) (suc j))
  | false ↦ elim (ge (dp_at dp (suc i) j) (dp_at dp i (suc j))) [
    | none ↦ none
    | some true ↦ push diff_remove x (walk dp old (y ∷ new) (suc i) j)
    | some false ↦ push diff_add y (walk dp (x ∷ old) new i (suc j))
  ]
]

unfoldable pub lcs_diff : List Text → List Text → Option (List DiffLine)
lcs_diff old new = walk (fill_table old new) old new 0 0

abbrev pub max_diff_cells : ℕ
max_diff_cells = 4000000

-- strings.HasSuffix(s, "\n") and the cut of that line feed
unfoldable pub trim_line_feed : Text → Text
trim_line_feed [] = []
trim_line_feed (c ∷ []) = elim (eqb c line_feed) [ true ↦ [] | false ↦ c ∷ [] ]
trim_line_feed (c ∷ d ∷ s) = c ∷ trim_line_feed (d ∷ s)

unfoldable pub split_lines : Text → List Text
split_lines [] = []
split_lines (c ∷ s) = split (trim_line_feed (c ∷ s))

-- UnifiedDiff before it is rendered; `placeholder` is the text <%d satır, %d bayt>
unfoldable pub unified_lines : (List Text → Text → Text) → Text → Text → Option (List DiffLine)
unified_lines placeholder old_content new_content =
    let old = split_lines old_content in
    let new = split_lines new_content in
    elim (ltb max_diff_cells (length old * length new)) [
      | true ↦ some (
          line diff_remove (placeholder old old_content)
          ∷ line diff_add (placeholder new new_content)
          ∷ [])
      | false ↦ lcs_diff old new
    ]

-- the counts in the header of renderUnifiedDiff
unfoldable pub old_count : List DiffLine → ℕ
old_count [] = 0
old_count (l ∷ lines) = elim l.op [ diff_add ↦ old_count lines | _ ↦ suc (old_count lines) ]

unfoldable pub new_count : List DiffLine → ℕ
new_count [] = 0
new_count (l ∷ lines) = elim l.op [ diff_remove ↦ new_count lines | _ ↦ suc (new_count lines) ]
