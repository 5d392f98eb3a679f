-- ===== src/Policy/Spent/Decided.antt =====
-- A pending approval is decided once.
use kahya.Base.{ℕ, ◌<◌, String, ◌≡◌, ◌≢◌, refl, sym, subst, List, [], ◌∷◌, arith}
use kahya.Base.Table.{
  count_where, update_where, count_where-update_where, count_where-update_where_same,
}
use kahya.Base.Exec.{World, Error, ok, raise, log, ◌>>=◌, ◌>>◌}
use kahya.Base.Guarantee.{Rely}
use kahya.Base.Once.{
  Achieves, Refuses, Achieves-raise, Refuses-raise, Achieves-if, Refuses-if, Achieves-first,
  Achieves-rest, Refuses-first, Refuses-rest,
}
use kahya.Policy.Rows.{PolicyDb, Event, Engine, PendingApproval}
use kahya.Policy.Queries.{
  has_pending_id, is_live_pending, consume_pending_row, consume_pending_approval,
}
use kahya.Policy.Approvals.{consume_pending, deny_pending, grant, approve_row, approve}
use kahya.Policy.Spent.{IsDecided, Keeps}
use kahya.Policy.Spent.Calls.{
  Call, approves, denies, run_call, run_call-Keeps, run_calls, run_calls-Keeps,
}
use kahya.Policy.Spent.Statements.{keeps_rules}
use kahya.Policy.Spent.Handlers.{handler_rules}
use kahya.Policy.Spent.EntryPoints.{
  get_valid-Keeps, consume_pending-Keeps, count_approval-Keeps, approve-Keeps,
}

abbrev Decided : String → PolicyDb → Type 0
Decided id d = IsDecided id d.pending

kept-Decided : (id : String) (d d' : PolicyDb) → Keeps d d' → Decided id d → Decided id d'
kept-Decided id d d' k = k.decided id

live_exists :
    (id : String) (rows : List PendingApproval)
    → 0 < count_where (is_live_pending id) rows
    → 0 < count_where (has_pending_id id) rows
unfolding count_where
live_exists id [] h = ground arith
live_exists id (p ∷ rows) h = ground (arith, live_exists id rows)

IsDecided-row :
    (id : String) (at : ℕ) (d : PolicyDb)
    → count_where (is_live_pending id) d.pending ≢ 0
    → IsDecided id (update_where (is_live_pending id) (consume_pending_row at) d.pending)
IsDecided-row id at d h = record {
  exists =
      rw
        (count_where-update_where_same (has_pending_id id) (is_live_pending id)
          (consume_pending_row at) (λ p. refl) d.pending)
        (live_exists id d.pending (omega (arith, h)));
  no_live =
      count_where-update_where (is_live_pending id) (consume_pending_row at) (λ p k. ground arith)
        d.pending;
}

module _ (id : String) where
  consume-Achieves : Achieves Keeps (Decided id) (consume_pending id)
  unfolding consume_pending consume_pending_approval ◌>>=◌
  consume-Achieves = record {
    at = λ w rely a. ground (arith, IsDecided-row id (w.clock w.calls) (w.others w.calls w.db));
  }

  consume-Refuses : Refuses Keeps (Decided id) (consume_pending id)
  unfolding consume_pending consume_pending_approval ◌>>=◌
  consume-Refuses = record { at = λ w rely i a. ground (arith, (rely w.calls w.db).decided id i) }

ruleset once_rules = (
  handler_rules, kept-Decided, consume-Achieves, consume-Refuses, Achieves-raise, Refuses-raise,
  Achieves-if, Refuses-if, get_valid-Keeps, consume_pending-Keeps, count_approval-Keeps,
)

module _ (id : String) where
  abbrev keep : (d d' : PolicyDb) → Keeps d d' → Decided id d → Decided id d'
  keep = kept-Decided id

  deny-Achieves : Achieves Keeps (Decided id) (deny_pending id)
  unfolding deny_pending
  deny-Achieves = Achieves-rest Keeps (Decided id) keep _ _ (get_valid-Keeps id) λ p.
      Achieves-first Keeps (Decided id) keep _ _ (consume_pending-Keeps id) (consume-Achieves id)
        λ _. search once_rules depth 8

  deny-Refuses : Refuses Keeps (Decided id) (deny_pending id)
  unfolding deny_pending
  deny-Refuses =
      Refuses-rest Keeps (Decided id) keep _ _ (get_valid-Keeps id)
        λ p. Refuses-first Keeps (Decided id) keep _ _ (consume-Refuses id)

  module _ (e : Engine) where
    grant-Achieves : (p : PendingApproval) → Achieves Keeps (Decided id) (grant e id p)
    unfolding grant
    grant-Achieves p =
        Achieves-first Keeps (Decided id) keep _ _ (consume_pending-Keeps id) (consume-Achieves id)
          λ _. search once_rules depth 10

    grant-Refuses : (p : PendingApproval) → Refuses Keeps (Decided id) (grant e id p)
    unfolding grant
    grant-Refuses p = Refuses-first Keeps (Decided id) keep _ _ (consume-Refuses id)

    refused :
        {A : Type 0} (x : Event) (y : Error)
        → Achieves Keeps (Decided id) (do log x; raise {A = A} y)
    refused x y =
        Achieves-rest Keeps (Decided id) keep _ _ (search keeps_rules) λ _. search once_rules

    refused_again :
        {A : Type 0} (x : Event) (y : Error)
        → Refuses Keeps (Decided id) (do log x; raise {A = A} y)
    refused_again x y =
        Refuses-rest Keeps (Decided id) keep _ _ (search keeps_rules) λ _. search once_rules

    row-Achieves :
        (p : PendingApproval) (surface typed : String)
        → Achieves Keeps (Decided id) (approve_row e id p surface typed)
    unfolding approve_row
    row-Achieves p surface typed = search (once_rules, grant-Achieves, refused) depth 8

    row-Refuses :
        (p : PendingApproval) (surface typed : String)
        → Refuses Keeps (Decided id) (approve_row e id p surface typed)
    unfolding approve_row
    row-Refuses p surface typed = search (once_rules, grant-Refuses, refused_again) depth 8

    approve-Achieves :
        (surface typed : String) → Achieves Keeps (Decided id) (approve e id surface typed)
    unfolding approve
    approve-Achieves surface typed =
        Achieves-rest Keeps (Decided id) keep _ _ (get_valid-Keeps id)
          λ p. row-Achieves p surface typed

    approve-Refuses :
        (surface typed : String) → Refuses Keeps (Decided id) (approve e id surface typed)
    unfolding approve
    approve-Refuses surface typed =
        Refuses-rest Keeps (Decided id) keep _ _ (get_valid-Keeps id)
          λ p. row-Refuses p surface typed

-- the two ways to decide a pending approval: denied, or approved on a surface with a typed word
pub data Verdict : Type 0 where
  denying : Verdict
  approving : String → String → Verdict

abbrev pub deciding : String → Verdict → Call
deciding id denying = denies id
deciding id (approving surface typed) = approves id surface typed

module _ (e : Engine) (id : String) where
  deciding-Achieves : (v : Verdict) → Achieves Keeps (Decided id) (run_call e (deciding id v))
  unfolding run_call
  deciding-Achieves denying = deny-Achieves id
  deciding-Achieves (approving surface typed) =
      Achieves-first Keeps (Decided id) (kept-Decided id) _ _ (approve-Keeps e id surface typed)
        (approve-Achieves id e surface typed) λ _. search keeps_rules

  deciding-Refuses : (v : Verdict) → Refuses Keeps (Decided id) (run_call e (deciding id v))
  unfolding run_call
  deciding-Refuses denying = deny-Refuses id
  deciding-Refuses (approving surface typed) =
      Refuses-first Keeps (Decided id) (kept-Decided id) _ _ (approve-Refuses id e surface typed)

  -- A pending approval that Approve or Deny decided is never decided again: after it and any calls of
  -- the engine's entry points, both Approve and Deny of that id fail, whatever the surface and the
  -- typed word and whichever calls of the database fail, if the handlers that run beside them bring
  -- no spent token and no decided approval back.
  pub deciding-once :
      (v again : Verdict) (calls : List Call) (w : World PolicyDb Event)
      → Rely Keeps w.others
      → (run_call e (deciding id v) w).0 ≡ ok tt
      → (run_call e (deciding id again) (run_calls e calls (run_call e (deciding id v) w).1)).0
        ≢ ok tt
  deciding-once v again calls w rely h =
      let g = run_call-Keeps e (deciding id v) in
      let w' = (run_call e (deciding id v) w).1 in
      let rely' : Rely Keeps w'.others = subst (Rely Keeps) (sym (g.others_kept w)) rely in
      let (keeps, rely'') = run_calls-Keeps e calls w' rely' in
      (deciding-Refuses again).at (run_calls e calls w') rely''
        (keeps.decided id ((deciding-Achieves v).at w rely tt h)) tt
