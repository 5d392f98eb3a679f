-- ===== src/Policy/Spent.antt =====
-- What no handler of kahyad/internal/policy undoes: a token that was presented, and a pending approval
-- that was decided, stay so.
pub mod Statements
pub mod Handlers
pub mod EntryPoints
pub mod Checks
pub mod Calls
pub mod Once
pub mod Decided
use kahya.Base.{
  ℕ, ◌<◌, ◌+◌, String, Bool, true, false, ◌&&◌, ◌≡◌, refl, sym, subst, List, [], ◌∷◌, ◌++◌, arith,
  eq_iff, Bool-cases, inl, inr, if◌then◌else◌, eqb, leb, ◌==◌,
}
use kahya.Base.Table.{
  find, count_where, update_where, count_where-append, count_where_none-update_where,
  count_where-update_where_same,
}
use kahya.Base.Exec.{World, Result, ok, err}
use kahya.Base.Guarantee.{IsPreorder, Guarantees, Guarantees-query, guarantee_rules}
use kahya.Task.Rows.{ActionClass}
use kahya.Policy.Rows.{
  PolicyDb, Event, AutonomyState, ApprovalToken, PendingApproval, UndoWindow, UndoState,
}
use kahya.Policy.Queries.{
  has_hash, is_live_token, is_live_token_of, has_pending_id, is_live_pending, consume_token_row,
  consume_pending_row, get_autonomy_state, update_autonomy_state, insert_autonomy_state,
  insert_approval_token, get_approval_token, consume_approval_token, revoke_approval_tokens_by_task,
  insert_pending_approval, get_pending_approval, consume_pending_approval,
  list_unconsumed_pending_approvals, list_unconsumed_pending_approvals_by_task,
  get_open_undo_window_by_trace, get_open_undo_window_by_task_tool_trace, list_open_undo_windows,
  set_undo_window_state, insert_undo_window,
}

-- the hash has a token, and none that was not presented or revoked
pub record IsSpent (hash : String) (rows : List ApprovalToken) : Type 0 where
  pub exists : 0 < count_where (has_hash hash) rows
  pub no_live : count_where (is_live_token hash) rows ≡ 0

-- the id has a pending approval, and none that is still open
pub record IsDecided (id : String) (rows : List PendingApproval) : Type 0 where
  pub exists : 0 < count_where (has_pending_id id) rows
  pub no_live : count_where (is_live_pending id) rows ≡ 0

pub record Keeps (d d' : PolicyDb) : Type 0 where
  pub spent : (hash : String) → IsSpent hash d.tokens → IsSpent hash d'.tokens
  pub decided : (id : String) → IsDecided id d.pending → IsDecided id d'.pending

pub Keeps-order : IsPreorder Keeps
Keeps-order = record {
  same = λ d. record { spent = λ hash h. h; decided = λ id h. h };
  chain = λ a b c p q. record {
    spent = λ hash h. q.spent hash (p.spent hash h);
    decided = λ id h. q.decided id (p.decided id h);
  };
}

pub Keeps-same : (d : PolicyDb) → Keeps d d
Keeps-same d = Keeps-order.same d

module _ (hash : String) (t : ApprovalToken) (rows : List ApprovalToken) where
  -- The primary key: a spent hash is never inserted again.
  IsSpent-insert :
      count_where (has_hash t.token_hash) rows ≡ 0
      → IsSpent hash rows
      → IsSpent hash (rows ++ t ∷ [])
  unfolding count_where
  IsSpent-insert fresh h = elim (Bool-cases (t.token_hash == hash)) [
    | inl e ↦ absurd (
        omega (
          arith,
          subst (λ k. count_where (has_hash k) rows ≡ 0) ((eq_iff t.token_hash hash).0 e) fresh,
          h.exists,
        ))
    | inr e ↦ record {
      exists = ground (arith, h.exists, count_where-append (has_hash hash) rows (t ∷ []), e);
      no_live = ground (arith, h.no_live, count_where-append (is_live_token hash) rows (t ∷ []), e);
    }
  ]

module _ (id : String) (p : PendingApproval) (rows : List PendingApproval) where
  IsDecided-insert :
      count_where (has_pending_id p.id) rows ≡ 0 → IsDecided id rows → IsDecided id (rows ++ p ∷ [])
  unfolding count_where
  IsDecided-insert fresh h = elim (Bool-cases (p.id == id)) [
    | inl e ↦ absurd (
        omega (
          arith,
          subst (λ k. count_where (has_pending_id k) rows ≡ 0) ((eq_iff p.id id).0 e) fresh,
          h.exists,
        ))
    | inr e ↦ record {
      exists = ground (arith, h.exists, count_where-append (has_pending_id id) rows (p ∷ []), e);
      no_live = ground (arith, h.no_live, count_where-append (is_live_pending id) rows (p ∷ []), e);
    }
  ]

-- an update that revives no row and keeps the hashes
IsSpent-update :
    (hash : String) (q : ApprovalToken → Bool) (f : ApprovalToken → ApprovalToken)
    → ((t : ApprovalToken) → has_hash hash (f t) ≡ has_hash hash t)
    → ((t : ApprovalToken) → is_live_token hash t ≡ false → is_live_token hash (f t) ≡ false)
    → (rows : List ApprovalToken) → IsSpent hash rows
    → IsSpent hash (update_where q f rows)
IsSpent-update hash q f keeps no_new rows h = record {
  exists = rw (count_where-update_where_same (has_hash hash) q f keeps rows) h.exists;
  no_live = count_where_none-update_where (is_live_token hash) q f no_new rows h.no_live;
}

IsDecided-update :
    (id : String) (at : ℕ) (q : PendingApproval → Bool) (rows : List PendingApproval)
    → IsDecided id rows
    → IsDecided id (update_where q (consume_pending_row at) rows)
IsDecided-update id at q rows h = record {
  exists =
      rw
        (count_where-update_where_same (has_pending_id id) q (consume_pending_row at) (λ p. refl)
          rows)
        h.exists;
  no_live =
      count_where_none-update_where (is_live_pending id) q (consume_pending_row at)
        (λ p k. ground arith) rows h.no_live;
}
