-- ===== src/Approval/Diff/Sides.antt =====
-- What lcsDiff returns, read back: its two sides, and how many lines it keeps.
use kahya.Base.{
  ℕ, zero, suc, ◌≤◌, Bool, true, false, ◌≡◌, refl, sym, ap, ◌∙◌, Option, some, List, [], ◌∷◌, leb,
  ltb, ◌*◌, arith, length, Bool-cases, inl, inr,
}
use kahya.Base.Text.{Text, text_eq, text_eq-true}
use kahya.Approval.Diff.{
  diff_context, diff_add, diff_remove, DiffLine, line, each, fill_table, dp_at, push, walk,
  lcs_diff, cell, max_diff_cells, split_lines, unified_lines, old_count, new_count,
}
use kahya.Approval.Diff.Table.{lcs, drop, dp_at-fill_table}

-- the lines that a diff shows of the old text
abbrev pub old_side : List DiffLine → List Text
old_side [] = []
old_side (l ∷ lines) = elim l.op [ diff_add ↦ old_side lines | _ ↦ l.text ∷ old_side lines ]

-- and of the new one
abbrev pub new_side : List DiffLine → List Text
new_side [] = []
new_side (l ∷ lines) = elim l.op [ diff_remove ↦ new_side lines | _ ↦ l.text ∷ new_side lines ]

abbrev pub context_count : List DiffLine → ℕ
context_count [] = 0
context_count (l ∷ lines) = elim l.op [
  | diff_context ↦ suc (context_count lines)
  | _ ↦ context_count lines
]

module _ (old new : List Text) where
  abbrev pub Reads : Option (List DiffLine) → Type 0
  Reads o =
      (lines : List DiffLine) × (o ≡ some lines)
      × (old_side lines ≡ old)
      × (new_side lines ≡ new)
      × (context_count lines ≡ lcs old new)

adds-Reads : (new : List Text) → Reads [] new (some (each diff_add new))
unfolding lcs
adds-Reads [] = ([], refl, refl, refl, refl)
adds-Reads (y ∷ new) =
    let (lines, e, o, n, c) = adds-Reads new in
    (line diff_add y ∷ lines, ap (push diff_add y) e, o, ap (λ s. y ∷ s) n, c)

removes-Reads : (old : List Text) → Reads old [] (some (each diff_remove old))
unfolding lcs
removes-Reads [] = ([], refl, refl, refl, refl)
removes-Reads (x ∷ []) = (line diff_remove x ∷ [], refl, refl, refl, refl)
removes-Reads (x ∷ z ∷ old) =
    let (lines, e, o, n, c) = removes-Reads (z ∷ old) in
    (line diff_remove x ∷ lines, ap (push diff_remove x) e, ap (λ s. x ∷ s) o, n, c)

pub cell_case :
    {same more : Bool} (below right diagonal : ℕ) (b c : Bool)
    → same ≡ b
    → more ≡ c
    → cell same more below right diagonal ≡ cell b c below right diagonal
cell_case below right diagonal b c p q = rw (p, q) refl

module _ (x y : Text) (old new : List Text) (o : Option (List DiffLine)) where
  context-Reads :
      text_eq x y ≡ true → Reads old new o → Reads (x ∷ old) (y ∷ new) (push diff_context x o)
  unfolding lcs
  context-Reads same (lines, e, os, ns, c) = (
    line diff_context x ∷ lines,
    ap (push diff_context x) e,
    ap (λ s. x ∷ s) os,
    rw (text_eq-true x y same, ns) refl,
    ap suc c
        ∙ sym (cell_case (lcs old (y ∷ new)) (lcs (x ∷ old) new) (lcs old new) true _ same refl),
  )

  remove-Reads :
      text_eq x y ≡ false
      → leb (lcs (x ∷ old) new) (lcs old (y ∷ new)) ≡ true
      → Reads old (y ∷ new) o
      → Reads (x ∷ old) (y ∷ new) (push diff_remove x o)
  unfolding lcs
  remove-Reads differ more (lines, e, os, ns, c) = (
    line diff_remove x ∷ lines,
    ap (push diff_remove x) e,
    ap (λ s. x ∷ s) os,
    ns,
    c
        ∙ sym (
            cell_case (lcs old (y ∷ new)) (lcs (x ∷ old) new) (lcs old new) false true differ more),
  )

  add-Reads :
      text_eq x y ≡ false
      → leb (lcs (x ∷ old) new) (lcs old (y ∷ new)) ≡ false
      → Reads (x ∷ old) new o
      → Reads (x ∷ old) (y ∷ new) (push diff_add y o)
  unfolding lcs
  add-Reads differ less (lines, e, os, ns, c) = (
    line diff_add y ∷ lines,
    ap (push diff_add y) e,
    os,
    ap (λ s. y ∷ s) ns,
    c
        ∙ sym (
            cell_case (lcs old (y ∷ new)) (lcs (x ∷ old) new) (lcs old new) false false differ
              less),
  )

drop-suc :
    (i : ℕ) (x : Text) (xs all : List Text)
    → drop i all ≡ x ∷ xs
    → (drop (suc i) all ≡ xs) × (suc i ≤ length all)
drop-suc zero x xs [] h = ground (arith, h)
drop-suc (suc i) x xs [] h = ground (arith, h)
drop-suc zero x xs (y ∷ all) h = (ap (drop 1) h, omega arith)
drop-suc (suc i) x xs (y ∷ all) h = let (rest, bound) = drop-suc i x xs all h in (rest, omega arith)

module _ (all_old all_new : List Text) where
  entry :
      (i j : ℕ) (old new : List Text)
      → i ≤ length all_old
      → j ≤ length all_new
      → drop i all_old ≡ old
      → drop j all_new ≡ new
      → dp_at (fill_table all_old all_new) i j ≡ some (lcs old new)
  entry i j old new hi hj eo en = rw (← eo, ← en) (dp_at-fill_table all_old all_new i j hi hj)

  walk-Reads :
      (old new : List Text) (i j : ℕ)
      → drop i all_old ≡ old
      → drop j all_new ≡ new
      → Reads old new (walk (fill_table all_old all_new) old new i j)
  unfolding walk
  walk-Reads [] new i j hi hj = adds-Reads new
  walk-Reads (x ∷ old) [] i j hi hj = removes-Reads (x ∷ old)
  walk-Reads (x ∷ old) (y ∷ new) i j hi hj =
      let (old_rest, i_in) = drop-suc i x old all_old hi in
      let (new_rest, j_in) = drop-suc j y new all_new hj in
      elim (Bool-cases (text_eq x y)) [
        | inl same ↦
            rw (walk, same)
              (context-Reads x y old new _ same
                (walk-Reads old new (suc i) (suc j) old_rest new_rest))
        | inr differ ↦
            let below = entry (suc i) j old (y ∷ new) i_in (omega (arith, j_in)) old_rest hj in
            let right = entry i (suc j) (x ∷ old) new (omega (arith, i_in)) j_in hi new_rest in
            elim (Bool-cases (leb (lcs (x ∷ old) new) (lcs old (y ∷ new)))) [
              | inl more ↦
                  rw (walk, differ, below, right, more)
                    (remove-Reads x y old new _ differ more
                      (walk-Reads old (y ∷ new) (suc i) j old_rest hj))
              | inr less ↦
                  rw (walk, differ, below, right, less)
                    (add-Reads x y old new _ differ less
                      (walk-Reads (x ∷ old) new i (suc j) hi new_rest))
            ]
      ]

-- The diff of any two texts is found, no index of the table being out of range; its context and
-- removed lines are the old text, its context and added lines are the new text, and it keeps as many
-- lines as a longest common subsequence has by the plain recursion.
pub lcs_diff-sides :
    (old new : List Text)
    → (lines : List DiffLine) × (lcs_diff old new ≡ some lines)
      × (old_side lines ≡ old)
      × (new_side lines ≡ new)
      × (context_count lines ≡ lcs old new)
unfolding lcs_diff
lcs_diff-sides old new = walk-Reads old new old new 0 0 refl refl

counts-sides :
    (lines : List DiffLine)
    → (old_count lines ≡ length (old_side lines)) × (new_count lines ≡ length (new_side lines))
unfolding old_count new_count
counts-sides [] = (refl, refl)
counts-sides (l ∷ lines) =
    let (o, n) = counts-sides lines in
    elim l.op
      as (λ op.
        (old_count (line op l.text ∷ lines) ≡ length (old_side (line op l.text ∷ lines)))
        × (new_count (line op l.text ∷ lines) ≡ length (new_side (line op l.text ∷ lines)))) [
          | diff_context ↦ (ap suc o, ap suc n)
          | diff_add ↦ (o, ap suc n)
          | diff_remove ↦ (ap suc o, n)
        ]

-- The diff that an approval of a file edit shows, where the two texts have at most four million pairs
-- of lines: its sides are the lines of the two contents, and the counts in its header are how many
-- lines each has.
pub unified_lines-sides :
    (placeholder : List Text → Text → Text) (old_content new_content : Text)
    → ltb max_diff_cells (length (split_lines old_content) * length (split_lines new_content))
      ≡ false
    → (lines : List DiffLine) × (unified_lines placeholder old_content new_content ≡ some lines)
      × (old_side lines ≡ split_lines old_content)
      × (new_side lines ≡ split_lines new_content)
      × (old_count lines ≡ length (split_lines old_content))
      × (new_count lines ≡ length (split_lines new_content))
unfolding unified_lines
unified_lines-sides placeholder old_content new_content small =
    let (lines, e, o, n, _) = lcs_diff-sides (split_lines old_content) (split_lines new_content) in
    let (oc, nc) = counts-sides lines in
    (lines, rw (unified_lines, small) e, o, n, oc ∙ ap length o, nc ∙ ap length n)
