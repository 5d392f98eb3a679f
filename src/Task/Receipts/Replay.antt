-- ===== src/Task/Receipts/Replay.antt =====
-- A call with a receipt is never executed again.
use kahya.Base.{
  ℕ, suc, ◌+◌, ◌≤◌, ◌<◌, ltb, ◌&&◌, eq_refl, String, Bool, true, false, ◌≡◌, inl, inr, refl, ◌∙◌,
  ap, Option, none, some, List, [], ◌∷◌, arith, if◌then◌else◌, Bool-cases, zero_or_suc,
}
use kahya.Base.Table.{find, update_where, select, count_where, find-count_where, find-holds}
use kahya.Base.Exec.{World, ok, err, store_failed, alone, calm, ◌>>=◌}
use kahya.Task.Rows.{
  is_class_r, Task, ToolCall, call_receipt, call_intent, call_executing, call_failed, Db, Event,
}
use kahya.Task.Queries.{
  has_id, has_key, conflicts, is_live_call, max_seq, is_receipt, next_tool_call_seq,
  insert_tool_call_intent, mark_tool_call_executing, mark_tool_call_receipt, get_receipt_tool_call,
}
use kahya.Task.Receipts.{
  ExecuteInput, EffectFunc, Codec, replay_of, claimed, claim_intent, claim_loop, claim_of,
  run_claimed, effect_tx, apply_effect, conclude, tx_statement, check_replay, replay_or_run,
  execute,
}

abbrev pub receipt_row : ExecuteInput → Db → Option ToolCall
receipt_row i d =
    find (λ c. has_key i.task_id i.tool_name i.args_hash c && is_receipt c) d.tool_calls

-- Once the key of a call has a receipt, Receipts.Execute writes nothing and never runs its effect,
-- whichever call of the database fails: it returns the stored result, as a replay, or the failure.
pub execute_replays :
    (codec : Codec) (i : ExecuteInput) (ctx_done : ℕ → Bool) (effect : EffectFunc)
    (faults : ℕ → Bool) (clock : ℕ → ℕ) (n : ℕ) (ledger : List Event) (d : Db) (c : ToolCall)
    (json r : String)
    → is_class_r i.class ≡ false
    → receipt_row i d ≡ some c
    → c.receipt_json ≡ some json
    → codec.unmarshal json ≡ some r
    → let out = execute codec i ctx_done effect (alone faults clock n ledger d) in
      (out.1.db ≡ d) × (out.0 ≡ (if faults n then err store_failed else ok (r, true)))
unfolding execute check_replay replay_of replay_or_run get_receipt_tool_call ◌>>=◌
execute_replays codec i ctx_done effect faults clock n ledger d c json r side stored has_json
      decodes =
    ground arith

max_seq-grows : (m : ℕ) (rows : List ToolCall) → m ≤ max_seq m rows
max_seq-grows m [] = omega arith
max_seq-grows m (c ∷ rows) = ground (arith, max_seq-grows (if ltb m c.seq then c.seq else m) rows)

-- no row of the key is live: no receipt, and none under way or left by a crash
abbrev pub NoneLive : String → String → String → List ToolCall → Type 0
NoneLive task_id tool args rows =
    find (λ c. has_key task_id tool args c && is_live_call c) rows ≡ none

NoneLive-no_receipt :
    (task_id tool args : String) (rows : List ToolCall)
    → NoneLive task_id tool args rows
    → find (λ c. has_key task_id tool args c && is_receipt c) rows ≡ none
unfolding find
NoneLive-no_receipt task_id tool args [] h = refl
NoneLive-no_receipt task_id tool args (c ∷ rows) h =
    let rest = NoneLive-no_receipt task_id tool args rows in
    (elim c.status
        as (λ s.
          find (λ x. has_key task_id tool args x && is_live_call x) (record c { status = s } ∷ rows)
            ≡ none
          → find (λ x. has_key task_id tool args x && is_receipt x) (record c { status = s } ∷ rows)
            ≡ none) [
              | call_intent ↦ λ k. ground (arith, rest, k)
              | call_executing ↦ λ k. ground (arith, rest, k)
              | call_receipt ↦ λ k. ground (arith, rest, k)
              | call_failed ↦ λ k. ground (arith, rest, k)
            ])
      h

-- With no live row, no row of the key conflicts with a seq above the greatest one.
fresh_seq :
    (task_id tool args : String) (m s : ℕ) (rows : List ToolCall)
    → max_seq m (select (has_key task_id tool args) rows) < s
    → NoneLive task_id tool args rows
    → find (conflicts task_id tool args s) rows ≡ none
unfolding find select
fresh_seq task_id tool args m s [] h k = refl
fresh_seq task_id tool args m s (c ∷ rows) h k = elim (Bool-cases (has_key task_id tool args c)) [
  | inl e ↦
      let m' : ℕ = if ltb m c.seq then c.seq else m in
      ground (
        arith,
        e,
        k,
        max_seq-grows m' (select (has_key task_id tool args) rows),
        fresh_seq task_id tool args m' s rows,
      )
  | inr e ↦ ground (arith, e, k, fresh_seq task_id tool args m s rows)
]

abbrev next_seq : ExecuteInput → Db → ℕ
next_seq i d = max_seq 0 (select (has_key i.task_id i.tool_name i.args_hash) d.tool_calls) + 1

abbrev pub claimed_row : ExecuteInput → Db → ToolCall
claimed_row i d = record {
  id = d.next_id;
  task_id = i.task_id;
  seq = next_seq i d;
  tool_name = i.tool_name;
  class = i.class;
  args_hash = i.args_hash;
  status = call_intent;
  receipt_json = none;
}

abbrev pub claimed_db : ExecuteInput → Db → Db
claimed_db i d = record d { tool_calls = claimed_row i d ∷ d.tool_calls; next_id = suc d.next_id }

module _ (codec : Codec) (i : ExecuteInput) (ctx_done : ℕ → Bool) (clock : ℕ → ℕ) (n : ℕ)
    (ledger : List Event) (d : Db) where
  claim_calm :
      (t : Task)
      → find (has_id i.task_id) d.tasks ≡ some t
      → NoneLive i.task_id i.tool_name i.args_hash d.tool_calls
      → claim_intent codec i ctx_done (calm clock n ledger d)
        ≡ (ok (claimed (claimed_row i d)), calm clock (suc (suc n)) ledger (claimed_db i d))
  unfolding claim_intent claim_loop claim_of next_tool_call_seq insert_tool_call_intent ◌>>=◌
  claim_calm t known idle =
      let one =
        find-count_where (has_id i.task_id) (has_id i.task_id) d.tasks t known
          (find-holds (has_id i.task_id) d.tasks t known) in
      elim (zero_or_suc (count_where (has_id i.task_id) d.tasks)) [
        | inl e ↦ ground (arith, one, e)
        | inr (k, e) ↦
            rw
              (
                e,
                fresh_seq i.task_id i.tool_name i.args_hash 0 (next_seq i d) d.tool_calls
                    (omega arith) idle,
              )
              refl
      ]

  abbrev RowIn : ToolCall → String → Db → Type 0
  RowIn c json d' = (receipt_row i d' ≡ some c) × (c.receipt_json ≡ some json)

  run_calm :
      (effect : EffectFunc) (s json : String) (ws : List String)
      → effect d.writes ≡ (ok s, ws)
      → codec.marshal s ≡ some json
      → let out =
          run_claimed codec i effect
            (claimed (claimed_row i d))
            (calm clock n ledger (claimed_db i d)) in
        let d' = out.1.db in
        (out.0 ≡ ok (s, false))
        × (d'.writes ≡ ws)
        × (out.1 ≡ calm clock out.1.calls out.1.ledger d')
        × ((c : ToolCall) × RowIn c json d')
  unfolding run_claimed effect_tx apply_effect conclude tx_statement mark_tool_call_executing
      mark_tool_call_receipt update_where find ◌>>=◌
  run_calm effect s json ws applies encodes = (
    ground arith,
    ground arith,
    ground arith,
    (
      record (claimed_row i d) { status = call_receipt; receipt_json = some json },
      (ground (arith, eq_refl i.task_id, eq_refl i.tool_name, eq_refl i.args_hash), refl),
    ),
  )

module _ (codec : Codec) (i : ExecuteInput) (ctx_done : ℕ → Bool) (clock : ℕ → ℕ) (n : ℕ)
    (ledger : List Event) (d : Db) where
  execute_runs :
      (effect : EffectFunc) (t : Task)
      → is_class_r i.class ≡ false
      → find (has_id i.task_id) d.tasks ≡ some t
      → NoneLive i.task_id i.tool_name i.args_hash d.tool_calls
      → execute codec i ctx_done effect (calm clock n ledger d)
        ≡ run_claimed codec i effect
            (claimed (claimed_row i d))
            (calm clock (suc (suc (suc n))) ledger (claimed_db i d))
  unfolding execute check_replay replay_of replay_or_run get_receipt_tool_call ◌>>=◌
  execute_runs effect t side known idle = rw (
    side,
    NoneLive-no_receipt i.task_id i.tool_name i.args_hash d.tool_calls idle,
    claim_calm codec i ctx_done clock (suc n) ledger d t known idle,
  )

-- A call of a task that exists and whose key has no live row (none with a receipt, and none that is under way
-- or was left so by a crash), and whose effect succeeds, runs it once: its result comes back and what it
-- wrote is there; and a second call with the same key, whatever its effect, gives the stored result
-- as a replay and writes nothing. (No failing call, no other handler.)
pub execute_twice :
    (codec : Codec) (i : ExecuteInput) (ctx_done ctx_later : ℕ → Bool) (clock : ℕ → ℕ) (n : ℕ)
    (ledger : List Event) (d : Db) (effect again : EffectFunc) (s json r : String)
    (ws : List String) (t : Task)
    → is_class_r i.class ≡ false
    → find (has_id i.task_id) d.tasks ≡ some t
    → NoneLive i.task_id i.tool_name i.args_hash d.tool_calls
    → effect d.writes ≡ (ok s, ws)
    → codec.marshal s ≡ some json
    → codec.unmarshal json ≡ some r
    → let first = execute codec i ctx_done effect (calm clock n ledger d) in
      let second = execute codec i ctx_later again first.1 in
      (first.0 ≡ ok (s, false))
      × (first.1.db.writes ≡ ws)
      × (second.0 ≡ ok (r, true))
      × (second.1.db ≡ first.1.db)
execute_twice codec i ctx_done ctx_later clock n ledger d effect again s json r ws t side known idle
      applies encodes decodes =
    let (returns, wrote, is_calm, (c, (stored, has_json))) =
      run_calm codec i ctx_done clock (suc (suc (suc n))) ledger d effect s json ws applies
        encodes in
    let replay =
      execute_replays codec i ctx_later again (λ k. false) clock _ _ _ c json r side stored has_json
        decodes in
    let run_again = λ (w : World Db Event). execute codec i ctx_later again w in
    rw (execute_runs codec i ctx_done clock n ledger d effect t side known idle) (
      returns,
      wrote,
      ap (λ w. (run_again w).0) is_calm ∙ replay.1,
      ap (λ w. (run_again w).1.db) is_calm ∙ replay.0,
    )
