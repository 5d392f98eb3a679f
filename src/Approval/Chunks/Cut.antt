-- ===== src/Approval/Chunks/Cut.antt =====
-- The messages are the text in order, each within the limit, and cutting it ends.
use kahya.Base.{
  ℕ, zero, suc, ◌+◌, ◌≤◌, Bool, true, false, ◌≡◌, refl, sym, ap, ◌∙◌, Option, some, List, [], ◌∷◌,
  ◌++◌, ltb, arith, length, length-append, All, All-append,
}
use mathlib.Core.List.{append_assoc, append-nil}
use kahya.Base.Text.{Text, join, split_after, join-split_after}
use kahya.Approval.Chunks.{
  take, drop, piece_length, then_pieces, hard_split_loop, hard_split, Builder, flush, write,
  append_pieces, flush_if, add_measured, add_line, add_lines, limit_or_default, chunk_for_telegram,
}

abbrev pub Within : ℕ → Text → Type 0
Within limit s = (1 ≤ length s) × (length s ≤ limit)

join-append : (a b : List Text) → join (a ++ b) ≡ join a ++ join b
unfolding join
join-append [] b = refl
join-append (s ∷ a) b = ap (λ t. s ++ t) (join-append a b) ∙ sym (append_assoc s (join a) (join b))

take-append-drop : (n : ℕ) (s : Text) → take n s ++ drop n s ≡ s
take-append-drop zero s = refl
take-append-drop (suc n) [] = refl
take-append-drop (suc n) (c ∷ s) = ap (λ t. c ∷ t) (take-append-drop n s)

lengths :
    (n : ℕ) (s : Text) → n ≤ length s → (length (take n s) ≡ n) × (length (drop n s) + n ≡ length s)
lengths zero s h = (refl, omega arith)
lengths (suc n) [] h = ground (arith, h)
lengths (suc n) (c ∷ s) h = let (t, d) = lengths n s (omega arith) in (omega arith, omega arith)

piece_length-bounds :
    (limit : ℕ) (s : Text)
    → 1 ≤ limit
    → 1 ≤ length s
    → (piece_length limit s ≤ length s)
      × (piece_length limit s ≤ limit)
      × (1 ≤ piece_length limit s)
piece_length-bounds limit s h k = ground (arith, h, k)

-- Cutting a text by runes ends as soon as the loop may turn as often as the text has runes, for any
-- limit of at least 1; the pieces are the text, none is empty and none is over the limit.
pub hard_split_loop-ends :
    (fuel limit : ℕ) (s : Text)
    → 1 ≤ limit
    → length s ≤ fuel
    → (pieces : List Text) × (hard_split_loop fuel limit s ≡ some pieces)
      × (join pieces ≡ s)
      × All (Within limit) pieces
unfolding hard_split_loop join
hard_split_loop-ends fuel limit [] h enough = ([], refl, refl, tt)
hard_split_loop-ends zero limit (c ∷ s) h enough = ground (arith, enough)
hard_split_loop-ends (suc fuel) limit (c ∷ s) h enough =
    let n = piece_length limit (c ∷ s) in
    let (short, small, some_rune) = piece_length-bounds limit (c ∷ s) h (omega arith) in
    let (taken, left) = lengths n (c ∷ s) short in
    let (pieces, e, joined, fit) =
      hard_split_loop-ends fuel limit (drop n (c ∷ s)) h (omega arith) in
    (
      take n (c ∷ s) ∷ pieces,
      ap (then_pieces (take n (c ∷ s))) e,
      ap (λ t. take n (c ∷ s) ++ t) joined ∙ take-append-drop n (c ∷ s),
      ((omega arith, omega arith), fit),
    )

-- what a builder holds, in order
text_of : Builder → Text
text_of b = join b.chunks ++ b.cur

Fits : ℕ → Builder → Type 0
Fits limit b = (b.cur_len ≡ length b.cur) × (length b.cur ≤ limit) × All (Within limit) b.chunks

flush-Fits :
    (limit : ℕ) (chunks : List Text) (cur : Text) (cur_len : ℕ)
    → let b : Builder = record { chunks = chunks; cur = cur; cur_len = cur_len } in
      Fits limit b → Fits limit (flush b) × (text_of (flush b) ≡ text_of b) × ((flush b).cur ≡ [])
unfolding flush Fits text_of join
flush-Fits limit chunks [] cur_len h = (h, refl, refl)
flush-Fits limit chunks (c ∷ s) cur_len (e, short, fit) = (
  (
    refl,
    omega arith,
    All-append (Within limit) chunks ((c ∷ s) ∷ []) fit ((omega arith, short), tt),
  ),
  append-nil _
      ∙ join-append chunks ((c ∷ s) ∷ [])
      ∙ ap (λ t. join chunks ++ t) (append-nil (c ∷ s)),
  refl,
)

limit-positive : (limit : ℕ) → 1 ≤ limit_or_default limit
limit-positive zero = omega arith
limit-positive (suc n) = omega arith

module _ (limit : ℕ) (positive : 1 ≤ limit) where
  Adds : Text → Builder → Option Builder → Type 0
  Adds line b o = (b' : Builder) × (o ≡ some b') × Fits limit b' × (text_of b' ≡ text_of b ++ line)

  write-Adds :
      (line : Text) (b : Builder)
      → Fits limit b
      → b.cur_len + length line ≤ limit
      → Adds line b (some (write line b))
  unfolding Adds Fits text_of
  write-Adds line b (e, short, fit) room =
      let n = length-append b.cur line in
      (
        write line b,
        refl,
        (omega (arith, n), omega (arith, n), fit),
        sym (append_assoc (join b.chunks) b.cur line),
      )

  room-Fits :
      (full : Bool) (n : ℕ) (b : Builder)
      → n ≤ limit
      → ltb limit (b.cur_len + n) ≡ full
      → Fits limit b
      → Fits limit (flush_if full b)
        × (text_of (flush_if full b) ≡ text_of b)
        × ((flush_if full b).cur_len + n ≤ limit)
  unfolding Fits
  room-Fits true n b small over fits =
      let (flushed, kept, emptied) = flush-Fits limit b.chunks b.cur b.cur_len fits in
      (flushed, kept, omega (arith, flushed.0, ap length emptied))
  room-Fits false n b small under fits = (fits, refl, ground (arith, under))

  pieces-Adds :
      (line : Text) (b : Builder) (pieces : List Text)
      → Fits limit b
      → b.cur ≡ []
      → join pieces ≡ line
      → All (Within limit) pieces
      → Adds line b (append_pieces b (some pieces))
  unfolding Adds Fits text_of
  pieces-Adds line b pieces (e, short, fit) emptied joined fits = (
    record b { chunks = b.chunks ++ pieces },
    refl,
    (e, short, All-append (Within limit) b.chunks pieces fit fits),
    rw (emptied, ← joined, join-append b.chunks pieces)
        (append-nil _ ∙ ap (λ t. t ++ join pieces) (sym (append-nil (join b.chunks)))),
  )

  Adds-from :
      (line : Text) (b b' : Builder) (o : Option Builder)
      → text_of b' ≡ text_of b
      → Adds line b' o
      → Adds line b o
  unfolding Adds
  Adds-from line b b' o kept (out, e, fits, text) = (out, e, fits, text ∙ ap (λ t. t ++ line) kept)

  add_measured-Adds :
      (long : Bool) (line : Text) (b : Builder)
      → ltb limit (length line) ≡ long
      → Fits limit b
      → Adds line b (add_measured long limit line b)
  unfolding add_measured hard_split
  add_measured-Adds true line b over fits =
      let (flushed, kept, emptied) = flush-Fits limit b.chunks b.cur b.cur_len fits in
      let (pieces, e, joined, within) =
        hard_split_loop-ends (length line) limit line positive (omega arith) in
      rw e (
        Adds-from line b (flush b) _ kept
          (pieces-Adds line (flush b) pieces flushed emptied joined within))
  add_measured-Adds false line b under fits =
      let full = ltb limit (b.cur_len + length line) in
      let (fits', kept, room) = room-Fits full (length line) b (ground (arith, under)) refl fits in
      Adds-from line b (flush_if full b) _ kept (write-Adds line (flush_if full b) fits' room)

  add_line-Adds : (line : Text) (b : Builder) → Fits limit b → Adds line b (add_line limit line b)
  unfolding Adds add_line
  add_line-Adds [] b fits = (b, refl, fits, sym (append-nil (text_of b)))
  add_line-Adds (c ∷ s) b fits = add_measured-Adds (ltb limit (length (c ∷ s))) (c ∷ s) b refl fits

  add_lines-All :
      (lines : List Text) (b : Builder)
      → Fits limit b
      → (chunks : List Text) × (add_lines limit lines (some b) ≡ some chunks)
        × (join chunks ≡ text_of b ++ join lines)
        × All (Within limit) chunks
  unfolding add_lines Adds Fits text_of join
  add_lines-All [] b fits =
      let (flushed, kept, emptied) = flush-Fits limit b.chunks b.cur b.cur_len fits in
      (
        (flush b).chunks,
        refl,
        sym (append-nil _) ∙ rw (← emptied) kept ∙ sym (append-nil (text_of b)),
        flushed.2,
      )
  add_lines-All (line ∷ lines) b fits =
      let (b', e, fits', text) = add_line-Adds line b fits in
      let (chunks, e', joined, within) = add_lines-All lines b' fits' in
      (
        chunks,
        ap (add_lines limit lines) e ∙ e',
        joined ∙ ap (λ t. t ++ join lines) text ∙ append_assoc (text_of b) line (join lines),
        within,
      )

-- The messages of a rendered approval, whatever the limit: the loop ends, the messages in order are
-- the text and nothing else, none is empty, and none has more runes than the limit, which is 4096
-- where none is given.
pub chunk_for_telegram-cuts :
    (rendered : Text) (limit : ℕ)
    → (chunks : List Text) × (chunk_for_telegram rendered limit ≡ some chunks)
      × (join chunks ≡ rendered)
      × All (λ c. (1 ≤ length c) × (length c ≤ limit_or_default limit)) chunks
unfolding chunk_for_telegram Fits text_of join
chunk_for_telegram-cuts [] limit = ([], refl, refl, tt)
chunk_for_telegram-cuts (c ∷ s) limit =
    let (chunks, e, joined, within) =
      add_lines-All (limit_or_default limit) (limit-positive limit) (split_after (c ∷ s))
        (record { chunks = []; cur = []; cur_len = 0 }) (refl, omega arith, tt) in
    (chunks, e, joined ∙ join-split_after (c ∷ s), within)
