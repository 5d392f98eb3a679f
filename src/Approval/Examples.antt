-- ===== src/Approval/Examples.antt =====
-- Tests of kahyad/internal/approval on concrete texts, and the theorems at them.
use kahya.Base.{◌≡◌, ◌≤◌, refl, some, List, [], ◌∷◌, length, arith, All}
use kahya.Base.Text.{Text, text_eq, join}
use kahya.Approval.Diff.{
  DiffLine, diff_context, diff_add, diff_remove, line, fill_row, fill_table, walk, lcs_diff,
}
use kahya.Approval.Diff.Table.{lcs}
use kahya.Approval.Diff.Sides.{old_side, new_side, context_count, lcs_diff-sides}
use kahya.Approval.Diff.Longest.{kept, without_old, without_new, empty, lcs_diff-longest}
use kahya.Approval.Chunks.{hard_split_loop, chunk_for_telegram, limit_or_default}
use kahya.Approval.Chunks.Cut.{Within, hard_split_loop-ends, chunk_for_telegram-cuts}

abbrev a : Text
a = 97 ∷ []

abbrev b : Text
b = 98 ∷ []

abbrev old_lines : List Text
old_lines = a ∷ b ∷ a ∷ []

abbrev new_lines : List Text
new_lines = b ∷ a ∷ b ∷ []

abbrev shown : List DiffLine
shown = line diff_remove a ∷ line diff_context b ∷ line diff_context a ∷ line diff_add b ∷ []

lcs_diff_test : lcs_diff old_lines new_lines ≡ some shown
unfolding lcs_diff walk fill_table fill_row text_eq
lcs_diff_test = refl

lcs_diff-sides_example :
    (lines : List DiffLine) × (lcs_diff old_lines new_lines ≡ some lines)
    × (old_side lines ≡ old_lines)
    × (new_side lines ≡ new_lines)
    × (context_count lines ≡ lcs old_lines new_lines)
lcs_diff-sides_example = lcs_diff-sides old_lines new_lines

lcs_diff-longest_example : length (b ∷ a ∷ []) ≤ context_count shown
lcs_diff-longest_example =
    lcs_diff-longest old_lines new_lines (b ∷ a ∷ []) shown
      (without_old a (kept b (kept a (without_new b empty)))) lcs_diff_test

abbrev old_text : Text
old_text = 97 ∷ 10 ∷ 98 ∷ 10 ∷ []

abbrev new_text : Text
new_text = 98 ∷ 10 ∷ 98 ∷ []

hard_split_loop-ends_example :
    (pieces : List Text) × (hard_split_loop 4 3 old_text ≡ some pieces)
    × (join pieces ≡ old_text)
    × All (Within 3) pieces
hard_split_loop-ends_example = hard_split_loop-ends 4 3 old_text (omega arith) (omega arith)

chunk_for_telegram-cuts_example :
    (chunks : List Text) × (chunk_for_telegram old_text 3 ≡ some chunks)
    × (join chunks ≡ old_text)
    × All (λ c. (1 ≤ length c) × (length c ≤ limit_or_default 3)) chunks
chunk_for_telegram-cuts_example = chunk_for_telegram-cuts old_text 3
