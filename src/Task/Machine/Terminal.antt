-- ===== src/Task/Machine/Terminal.antt =====
-- The terminal statuses are never left, whatever runs beside a transition.
use kahya.Base.{String, Bool, true, false, ◌≡◌, refl, some, arith, ap, ◌∙◌}
use kahya.Task.Rows.{Status, done, failed, user_halted, Db}
use kahya.Task.Machine.{is_legal_transition}
use kahya.Task.Machine.Edges.{LegalPath, here, next, status_of, Follows}

abbrev pub is_terminal : Status → Bool
is_terminal done = true
is_terminal failed = true
is_terminal user_halted = true
is_terminal _ = false

-- no edge leaves a terminal status
is_terminal-no_edge : (a b : Status) → is_terminal a ≡ true → is_legal_transition a b ≡ false
is_terminal-no_edge a b h = ground arith

LegalPath-terminal : {a b : Status} → is_terminal a ≡ true → LegalPath a b → b ≡ a
LegalPath-terminal h here = refl
LegalPath-terminal {a} h (next {b} {c} p e) =
    let stay = LegalPath-terminal h p in
    cc (is_terminal-no_edge a c h, ap (λ x. is_legal_transition x c) stay)

pub Follows-terminal :
    (d d' : Db) (id : String) (s : Status)
    → Follows d d'
    → status_of id d ≡ some s
    → is_terminal s ≡ true
    → status_of id d' ≡ some s
Follows-terminal d d' id s f e h =
    let moved = f.path id s e in moved.1 ∙ ap some (LegalPath-terminal h moved.2)
