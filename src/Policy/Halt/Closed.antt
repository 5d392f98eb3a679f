-- ===== src/Policy/Halt/Closed.antt =====
-- A halt leaves no approval and no token of its task open.
use kahya.Base.{
  ℕ, suc, String, Bool, true, false, ◌&&◌, ◌||◌, not, ◌≡◌, refl, ◌∙◌, ap, List, [], ◌∷◌, arith,
  Bool-cases, inl, inr, some, ◌==◌, eq_iff, eq_refl, eqb,
}
use kahya.Base.Table.{
  select, insert_by, order_by, update_where, count_where, count_where-update_where,
}
use kahya.Base.Exec.{World, Result, ok, calm, ◌>>=◌}
use kahya.Policy.Rows.{PendingApproval, PolicyDb, Event}
use kahya.Policy.Queries.{
  is_live_pending, is_live_pending_of, is_live_token_of, consume_pending_row, minted_before,
  list_unconsumed_pending_approvals_by_task, consume_pending_approval,
  revoke_approval_tokens_by_task,
}
use kahya.Policy.Halt.{
  note_revoke, count_invalidated, invalidate_rows, invalidate_approvals_for_task,
}

unfoldable named : String → List PendingApproval → Bool
named id [] = false
named id (p ∷ rows) = (p.id == id) || named id rows

-- an open approval of the task that is not among the rows left to do
abbrev missed : String → List PendingApproval → PendingApproval → Bool
missed task rows q = is_live_pending_of task q && not (named q.id rows)

named-insert_by :
    (id : String) (before : PendingApproval → PendingApproval → Bool) (a : PendingApproval)
    (rows : List PendingApproval)
    → named id (insert_by before a rows) ≡ (a.id == id) || named id rows
unfolding named insert_by
named-insert_by id before a [] = refl
named-insert_by id before a (b ∷ rows) = ground (arith, named-insert_by id before a rows)

named-order_by :
    (id : String) (before : PendingApproval → PendingApproval → Bool) (rows : List PendingApproval)
    → named id (order_by before rows) ≡ named id rows
unfolding named order_by
named-order_by id before [] = refl
named-order_by id before (a ∷ rows) =
    named-insert_by id before a (order_by before rows)
    ∙ ap (λ b. (a.id == id) || b) (named-order_by id before rows)

or_right : (a b : Bool) → b ≡ true → a || b ≡ true
or_right a b h = ground (arith, h)

none_missed :
    (task : String) (all rows : List PendingApproval)
    → ((id : String)
        → named id (select (is_live_pending_of task) rows) ≡ true
        → named id all ≡ true)
    → count_where (missed task all) rows ≡ 0
unfolding named select count_where
none_missed task all [] h = refl
none_missed task all (q ∷ rows) h = elim (Bool-cases (is_live_pending_of task q)) [
  | inl e ↦
      let here : named q.id all ≡ true = h q.id (rw (e, eq_refl q.id) refl) in
      let rest = none_missed task all rows (λ id g. h id (rw e (or_right (q.id == id) _ g))) in
      rw (e, here) (omega (arith, rest))
  | inr e ↦
      let rest = none_missed task all rows (λ id g. h id (rw e g)) in rw e (omega (arith, rest))
]

missed-consume :
    (task : String) (at : ℕ) (p : PendingApproval) (rows all : List PendingApproval)
    → count_where (missed task (p ∷ rows)) all ≡ 0
    → count_where
        (missed task rows)
        (update_where (is_live_pending p.id) (consume_pending_row at) all)
      ≡ 0
unfolding named count_where update_where
missed-consume task at p rows [] h = refl
missed-consume task at p rows (q ∷ all) h =
    ground (arith, eq_iff p.id q.id, eq_iff q.id p.id, missed-consume task at p rows all)

-- calls that leave nothing of `rows` open, and do not fail
abbrev Closes : String → (ℕ → ℕ) → Result ℕ × World PolicyDb Event → Type 0
Closes task clock out =
    (m : ℕ) × (n : ℕ) × (ledger : List Event) × (d : PolicyDb) × (out
      ≡ (ok m, calm clock n ledger d))
    × (count_where (missed task []) d.pending ≡ 0)

module _ (task : String) (clock : ℕ → ℕ) (at : ℕ) where
  invalidate_rows-Closes :
      (rows : List PendingApproval) (m n : ℕ) (ledger : List Event) (d : PolicyDb)
      → count_where (missed task rows) d.pending ≡ 0
      → Closes task clock (invalidate_rows task at rows m (calm clock n ledger d))
  unfolding invalidate_rows consume_pending_approval count_invalidated ◌>>=◌
  invalidate_rows-Closes [] m n ledger d h = (m, n, ledger, d, refl, h)
  invalidate_rows-Closes (p ∷ rows) m n ledger d h =
      let h' = missed-consume task at p rows d.pending h in
      elim (Bool-cases (eqb (count_where (is_live_pending p.id) d.pending) 0)) [
        | inl e ↦ rw e (invalidate_rows-Closes rows m (suc n) ledger _ h')
        | inr e ↦ rw e (invalidate_rows-Closes rows (suc m) (suc n) _ _ h')
      ]

missed_nothing :
    (task : String) (rows : List PendingApproval)
    → count_where (missed task []) rows ≡ 0
    → count_where (is_live_pending_of task) rows ≡ 0
unfolding count_where named
missed_nothing task [] h = refl
missed_nothing task (q ∷ rows) h = ground (arith, missed_nothing task rows)

-- After InvalidateApprovalsForTask, which returns no error, the task has no open pending approval, and
-- no token that could still be consumed. (No failing call, no other handler.)
pub invalidate_approvals_for_task-none_live :
    (task : String) (clock : ℕ → ℕ) (n : ℕ) (ledger : List Event) (d : PolicyDb)
    → let out = invalidate_approvals_for_task task (calm clock n ledger d) in
      ((m : ℕ) × (out.0 ≡ ok m))
      × (count_where (is_live_pending_of task) out.1.db.pending ≡ 0)
      × (count_where (is_live_token_of task) out.1.db.tokens ≡ 0)
unfolding invalidate_approvals_for_task list_unconsumed_pending_approvals_by_task
    revoke_approval_tokens_by_task note_revoke ◌>>=◌
invalidate_approvals_for_task-none_live task clock n ledger d =
    let at = clock (suc n) in
    let rows = order_by minted_before (select (is_live_pending_of task) d.pending) in
    let start =
      none_missed task rows d.pending (λ id g.
        named-order_by id minted_before (select (is_live_pending_of task) d.pending) ∙ g) in
    let (m, k, l, d', runs, closed) =
      invalidate_rows-Closes task clock at rows 0 (suc n) ledger d start in
    let revoked =
      count_where-update_where (is_live_token_of task)
        (λ t. record t { consumed_at = some at; revoked_at = some at }) (λ t e. ground arith)
        d'.tokens in
    rw runs ((m, refl), missed_nothing task d'.pending closed, revoked)
