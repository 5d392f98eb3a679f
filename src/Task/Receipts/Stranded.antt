-- ===== src/Task/Receipts/Stranded.antt =====
-- A call whose key has a live row without a receipt gives up after its attempts.
use kahya.Base.{
  ℕ, zero, suc, ◌<◌, Bool, true, false, ◌≡◌, ◌⊎◌, inl, inr, refl, ap, ◌∙◌, ltb, Option, none, some,
  List, [], ◌∷◌, ◌&&◌, arith, Bool-cases, zero_or_suc,
}
use kahya.Base.Table.{find, count_where}
use kahya.Base.Exec.{
  World, Result, err, calm, unique_violation, claim_timeout, ctx_canceled, query, continue, ◌>>=◌,
}
use kahya.Task.Rows.{is_class_r, ToolCall, Db, Event, Handler}
use kahya.Task.Queries.{
  has_id, has_key, conflicts, is_live_call, next_tool_call_seq, insert_tool_call_intent,
  get_receipt_tool_call,
}
use kahya.Task.Receipts.{
  ExecuteInput, EffectFunc, Codec, replay_of, claim_intent, claim_loop, claim_of, check_replay,
  replay_or_retry, replay_or_run, run_claimed, execute,
}
use kahya.Task.Receipts.Replay.{receipt_row}

abbrev pub live_row : ExecuteInput → Db → Option ToolCall
live_row i d =
    find (λ c. has_key i.task_id i.tool_name i.args_hash c && is_live_call c) d.tool_calls

live-conflicts :
    (i : ExecuteInput) (seq : ℕ) (rows : List ToolCall) (c : ToolCall)
    → find (λ x. has_key i.task_id i.tool_name i.args_hash x && is_live_call x) rows ≡ some c
    → (x : ToolCall) × (find (conflicts i.task_id i.tool_name i.args_hash seq) rows ≡ some x)
unfolding find
live-conflicts i seq [] c h = ground (arith, h)
live-conflicts i seq (y ∷ rows) c h =
    elim (Bool-cases (conflicts i.task_id i.tool_name i.args_hash seq y)) [
      | inl now ↦ (y, rw now refl)
      | inr later ↦
          let (x, there) = live-conflicts i seq rows c (ground (arith, later, h)) in
          (x, rw later there)
    ]

-- how waiting ends with `left` attempts to go: they run out, or the context is done at one
abbrev pub GivesUp : {A : Type 0} → (ℕ → Bool) → ℕ → Result A → Type 0
GivesUp ctx_done left r =
    ((r ≡ err claim_timeout) × ((k : ℕ) → k < left → ctx_done k ≡ false))
    ⊎ ((r ≡ err ctx_canceled) × ((k : ℕ) × (k < left) × (ctx_done k ≡ true)))

GivesUp-suc :
    {A : Type 0} (ctx_done : ℕ → Bool) (left : ℕ) (r : Result A)
    → ctx_done left ≡ false
    → GivesUp ctx_done left r
    → GivesUp ctx_done (suc left) r
GivesUp-suc ctx_done left r waits (inr (ends, (k, below, done))) =
    inr (ends, (k, omega (arith, below), done))
GivesUp-suc ctx_done left r waits (inl (ends, before)) = inl (
  ends,
  λ k below. elim (Bool-cases (ltb k left)) [
    | inl sooner ↦ before k (ground (arith, sooner))
    | inr last ↦ let same : k ≡ left = ground (arith, last, below) in ap ctx_done same ∙ waits
  ],
)

GivesUp-raised :
    {A B : Type 0} (ctx_done : ℕ → Bool) (left : ℕ) (f : A → Handler B) (r : Result A)
    (w : World Db Event)
    → GivesUp ctx_done left r
    → ((continue r f w).1 ≡ w) × GivesUp ctx_done left (continue r f w).0
GivesUp-raised ctx_done left f r w (inl (ends, before)) = rw ends (refl, inl (refl, before))
GivesUp-raised ctx_done left f r w (inr (ends, when)) = rw ends (refl, inr (refl, when))

module _ (codec : Codec) (i : ExecuteInput) (ctx_done : ℕ → Bool) (clock : ℕ → ℕ) (d : Db)
    (c : ToolCall) (no_receipt : receipt_row i d ≡ none) (live : live_row i d ≡ some c) where
  refused :
      (seq n : ℕ) (ledger : List Event)
      → insert_tool_call_intent i.task_id seq i.tool_name i.class i.args_hash
          (calm clock n ledger d)
        ≡ (err unique_violation, calm clock (suc n) ledger d)
  unfolding insert_tool_call_intent query
  refused seq n ledger =
      let (x, there) = live-conflicts i seq d.tool_calls c live in
      elim (zero_or_suc (count_where (has_id i.task_id) d.tasks)) [
        | inl e ↦ rw e refl
        | inr (k, e) ↦ rw (e, there) refl
      ]

  claim_loop-GivesUp :
      (left n : ℕ) (ledger : List Event)
      → let out = claim_loop codec i ctx_done left (calm clock n ledger d) in
        (out.1.db ≡ d) × GivesUp ctx_done left out.0
  unfolding claim_loop claim_of check_replay replay_of replay_or_retry next_tool_call_seq
      get_receipt_tool_call ◌>>=◌
  claim_loop-GivesUp zero n ledger = (refl, inl (refl, λ k h. absurd (omega (arith, h))))
  claim_loop-GivesUp (suc left) n ledger = elim (Bool-cases (ctx_done left)) [
    | inl done ↦
        rw (refused _ (suc n) ledger, no_receipt, done)
          (refl, inr (refl, (left, omega arith, done)))
    | inr waits ↦
        let (kept, ends) = claim_loop-GivesUp left (suc (suc (suc n))) ledger in
        rw (refused _ (suc n) ledger, no_receipt, waits)
          (kept, GivesUp-suc ctx_done left _ waits ends)
  ]

-- A call whose key has no receipt but has a live row (one that is under way, or that a crash left so) is not
-- run: Receipts.Execute writes nothing, and after its 50 attempts returns the timeout, or, if the context
-- is done at the wait of one of them, its cancellation. (No failing call, no other handler.)
pub execute-GivesUp :
    (codec : Codec) (i : ExecuteInput) (ctx_done : ℕ → Bool) (effect : EffectFunc) (clock : ℕ → ℕ)
    (n : ℕ) (ledger : List Event) (d : Db) (c : ToolCall)
    → is_class_r i.class ≡ false
    → receipt_row i d ≡ none
    → live_row i d ≡ some c
    → let out = execute codec i ctx_done effect (calm clock n ledger d) in
      (out.1.db ≡ d) × GivesUp ctx_done 50 out.0
unfolding execute check_replay replay_of replay_or_run get_receipt_tool_call claim_intent ◌>>=◌
execute-GivesUp codec i ctx_done effect clock n ledger d c side no_receipt live =
    let (kept, ends) =
      claim_loop-GivesUp codec i ctx_done clock d c no_receipt live 50 (suc n) ledger in
    let raised = GivesUp-raised ctx_done 50 (run_claimed codec i effect) _ _ ends in
    rw (side, no_receipt) (ap (λ w. w.db) raised.0 ∙ kept, raised.1)
