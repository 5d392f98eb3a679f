-- ===== src/Approval/Chunks.antt =====
-- kahyad/internal/approval/diff.go: a rendered approval cut into messages.
pub mod Cut
use kahya.Base.{
  ℕ, zero, suc, ◌+◌, Bool, true, false, Option, none, some, List, [], ◌∷◌, ◌++◌, ltb, length,
}
use kahya.Base.Text.{Text, split_after}

abbrev pub telegram_chunk_limit : ℕ
telegram_chunk_limit = 4096

abbrev pub take : ℕ → Text → Text
take zero s = []
take (suc n) [] = []
take (suc n) (c ∷ s) = c ∷ take n s

abbrev pub drop : ℕ → Text → Text
drop zero s = s
drop (suc n) [] = []
drop (suc n) (c ∷ s) = drop n s

abbrev pub piece_length : ℕ → Text → ℕ
piece_length limit runes = elim (ltb (length runes) limit) [ true ↦ length runes | false ↦ limit ]

abbrev pub then_pieces : Text → Option (List Text) → Option (List Text)
then_pieces piece none = none
then_pieces piece (some out) = some (piece ∷ out)

-- one turn of the loop on each unit of fuel; `none` is a loop that has not ended
unfoldable pub hard_split_loop : ℕ → ℕ → Text → Option (List Text)
hard_split_loop fuel limit [] = some []
hard_split_loop zero limit (c ∷ s) = none
hard_split_loop (suc fuel) limit (c ∷ s) =
    let n = piece_length limit (c ∷ s) in
    then_pieces (take n (c ∷ s)) (hard_split_loop fuel limit (drop n (c ∷ s)))

unfoldable pub hard_split : Text → ℕ → Option (List Text)
hard_split s limit = hard_split_loop (length s) limit s

-- the loop's variables; `cur_len` counts the runes of `cur`
pub record Builder : Type 0 where
  pub chunks : List Text
  pub cur : Text
  pub cur_len : ℕ

unfoldable pub flush : Builder → Builder
flush b = elim b.cur [
  | [] ↦ b
  | c ∷ s ↦ record { chunks = b.chunks ++ (c ∷ s) ∷ []; cur = []; cur_len = 0 }
]

abbrev pub write : Text → Builder → Builder
write line b = record b { cur = b.cur ++ line; cur_len = b.cur_len + length line }

abbrev pub append_pieces : Builder → Option (List Text) → Option Builder
append_pieces b none = none
append_pieces b (some pieces) = some (record b { chunks = b.chunks ++ pieces })

abbrev pub flush_if : Bool → Builder → Builder
flush_if true b = flush b
flush_if false b = b

-- by lineLen > limit
unfoldable pub add_measured : Bool → ℕ → Text → Builder → Option Builder
add_measured true limit line b = append_pieces (flush b) (hard_split line limit)
add_measured false limit line b =
    some (write line (flush_if (ltb limit (b.cur_len + length line)) b))

unfoldable pub add_line : ℕ → Text → Builder → Option Builder
add_line limit [] b = some b
add_line limit (c ∷ s) b = add_measured (ltb limit (length (c ∷ s))) limit (c ∷ s) b

unfoldable pub add_lines : ℕ → List Text → Option Builder → Option (List Text)
add_lines limit lines none = none
add_lines limit [] (some b) = some (flush b).chunks
add_lines limit (line ∷ lines) (some b) = add_lines limit lines (add_line limit line b)

-- a limit that is not positive is the default
abbrev pub limit_or_default : ℕ → ℕ
limit_or_default zero = telegram_chunk_limit
limit_or_default (suc n) = suc n

unfoldable pub chunk_for_telegram : Text → ℕ → Option (List Text)
chunk_for_telegram [] limit = some []
chunk_for_telegram (c ∷ s) limit =
    add_lines (limit_or_default limit) (split_after (c ∷ s))
      (some (record { chunks = []; cur = []; cur_len = 0 }))
