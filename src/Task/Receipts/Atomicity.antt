-- ===== src/Task/Receipts/Atomicity.antt =====
-- The effect of a tool call and its receipt are written together, or not at all.
use kahya.Base.{
  ℕ, zero, suc, String, Bool, true, false, ◌≡◌, ◌≢◌, inl, inr, Bool-cases, refl, subst, sym, ◌∙◌,
  Option, none, some, arith,
}
use kahya.Base.Exec.{
  World, Result, Error, ok, err, pure, raise, log, ◌>>◌, caught, transaction, settle, continue,
  ◌>>=◌,
}
use kahya.Base.Guarantee.{
  IsPreorder, Guarantees, Rely, Guarantees-query, guarantee_rules, Guarantees-bind,
}
use kahya.Task.Rows.{ActionClass, is_class_r, ToolCall, Db, Event, Handler}
use kahya.Task.Queries.{
  next_tool_call_seq, insert_tool_call_intent, mark_tool_call_executing, mark_tool_call_receipt,
  mark_tool_call_failed, get_receipt_tool_call,
}
use kahya.Task.Receipts.{
  ExecuteInput, EffectFunc, Codec, Claim, claimed, replayed, or_raise, decode_receipt, replay_of,
  check_replay, replay_or_retry, claim_of, claim_loop, claim_intent, fail_and_return, tx_statement,
  apply_effect, effect_tx, conclude, run_claimed, replay_or_run, execute,
}

-- the other tables are as they were
abbrev pub SameWrites : Db → Db → Type 0
SameWrites d d' = d.writes ≡ d'.writes

pub SameWrites-order : IsPreorder SameWrites
SameWrites-order = record { same = λ d. refl; chain = λ a b c p q. p ∙ q }

module _ (task_id tool args : String) where
  next_seq-SameWrites : Guarantees SameWrites (next_tool_call_seq task_id tool args)
  unfolding next_tool_call_seq
  next_seq-SameWrites = Guarantees-query SameWrites SameWrites-order _ λ d. refl

  get_receipt-SameWrites : Guarantees SameWrites (get_receipt_tool_call task_id tool args)
  unfolding get_receipt_tool_call
  get_receipt-SameWrites = Guarantees-query SameWrites SameWrites-order _ λ d. refl

insert-SameWrites :
    (task_id : String) (seq : ℕ) (tool : String) (action : ActionClass) (args : String)
    → Guarantees SameWrites (insert_tool_call_intent task_id seq tool action args)
unfolding insert_tool_call_intent
insert-SameWrites task_id seq tool action args =
    Guarantees-query SameWrites SameWrites-order _ λ d. ground arith

module _ (id : ℕ) where
  mark_executing-SameWrites : Guarantees SameWrites (mark_tool_call_executing id)
  unfolding mark_tool_call_executing
  mark_executing-SameWrites = Guarantees-query SameWrites SameWrites-order _ λ d. refl

  mark_receipt-SameWrites : (json : String) → Guarantees SameWrites (mark_tool_call_receipt json id)
  unfolding mark_tool_call_receipt
  mark_receipt-SameWrites json = Guarantees-query SameWrites SameWrites-order _ λ d. refl

  mark_failed-SameWrites : Guarantees SameWrites (mark_tool_call_failed id)
  unfolding mark_tool_call_failed
  mark_failed-SameWrites = Guarantees-query SameWrites SameWrites-order _ λ d. refl

tx_statement-SameWrites : Guarantees SameWrites tx_statement
unfolding tx_statement
tx_statement-SameWrites = Guarantees-query SameWrites SameWrites-order _ λ d. refl

ruleset writes_rules = (
  guarantee_rules, SameWrites-order, next_seq-SameWrites, get_receipt-SameWrites, insert-SameWrites,
  mark_executing-SameWrites, mark_receipt-SameWrites, mark_failed-SameWrites,
  tx_statement-SameWrites,
)

or_raise-SameWrites : {A : Type 0} (o : Option A) (e : Error) → Guarantees SameWrites (or_raise o e)
or_raise-SameWrites none e = search writes_rules
or_raise-SameWrites (some a) e = search writes_rules

module _ (codec : Codec) where
  decode-SameWrites : (c : ToolCall) → Guarantees SameWrites (decode_receipt codec c)
  unfolding decode_receipt
  decode-SameWrites c = search (writes_rules, or_raise-SameWrites)

  replay_of-SameWrites : (r : Result ToolCall) → Guarantees SameWrites (replay_of codec r)
  unfolding replay_of
  replay_of-SameWrites (ok c) = decode-SameWrites c
  replay_of-SameWrites (err Error.no_rows) = search writes_rules
  replay_of-SameWrites (err _) = search writes_rules

  module _ (in_ : ExecuteInput) where
    check_replay-SameWrites : Guarantees SameWrites (check_replay codec in_)
    unfolding check_replay
    check_replay-SameWrites = search (writes_rules, replay_of-SameWrites)

    claim_SameWrites-parts :
        (again : Handler Claim)
        → Guarantees SameWrites again
        → (hit : Option (String × ℕ)) → Guarantees SameWrites (replay_or_retry codec in_ again hit)
    unfolding replay_or_retry
    claim_SameWrites-parts again g none = g
    claim_SameWrites-parts again g (some (r, seq)) = search writes_rules

    claim_of-SameWrites :
        (again : Handler Claim)
        → Guarantees SameWrites again
        → (r : Result ToolCall) → Guarantees SameWrites (claim_of codec in_ again r)
    unfolding claim_of
    claim_of-SameWrites again g (ok row) = search writes_rules
    claim_of-SameWrites again g (err Error.unique_violation) =
        search (writes_rules, check_replay-SameWrites, claim_SameWrites-parts again g)
    claim_of-SameWrites again g (err _) = search writes_rules

    claim_loop-SameWrites :
        (ctx_done : ℕ → Bool) (left : ℕ)
        → Guarantees SameWrites (claim_loop codec in_ ctx_done left)
    unfolding claim_loop
    claim_loop-SameWrites ctx_done zero = search writes_rules
    claim_loop-SameWrites ctx_done (suc left) =
        let again = claim_loop-SameWrites ctx_done left in
        Guarantees-bind SameWrites SameWrites-order _ _ (search writes_rules) λ seq.
          Guarantees-bind SameWrites SameWrites-order _ _ (search writes_rules)
            (claim_of-SameWrites _ (search (writes_rules, again)))

    claim_intent-SameWrites :
        (ctx_done : ℕ → Bool) → Guarantees SameWrites (claim_intent codec in_ ctx_done)
    unfolding claim_intent
    claim_intent-SameWrites ctx_done = claim_loop-SameWrites ctx_done 50

-- What a run of Execute did to the other tables, told by its result.
abbrev pub Applied : EffectFunc → Db → Result (String × Bool) → Db → Type 0
Applied effect d (ok (s, false)) d' = effect d.writes ≡ (ok s, d'.writes)
Applied effect d _ d' = SameWrites d d'

effect_tx-writes :
    (codec : Codec) (effect : EffectFunc) (id : ℕ) (w : World Db Event) (s : String)
    → w.others ≡ (λ n d. d)
    → (effect_tx codec effect id w).0 ≡ ok s
    → effect w.db.writes ≡ (ok s, (effect_tx codec effect id w).1.db.writes)
unfolding effect_tx apply_effect tx_statement mark_tool_call_receipt ◌>>=◌
effect_tx-writes codec effect id w s quiet h = ground arith

-- a run that tells by its result what it applied
record Concludes (effect : EffectFunc) (m : Handler (String × Bool)) : Type 0 where
  at : (w : World Db Event) → Rely SameWrites w.others → Applied effect w.db (m w).0 (m w).1.db

module _ (effect : EffectFunc) where
  Applied-shift :
      (d d1 : Db) (r : Result (String × Bool)) (d' : Db)
      → SameWrites d d1
      → Applied effect d1 r d'
      → Applied effect d r d'
  Applied-shift d d1 (ok (s, false)) d' same h = rw same h
  Applied-shift d d1 (ok (s, true)) d' same h = same ∙ h
  Applied-shift d d1 (err e) d' same h = same ∙ h

  continue-Applied :
      {A : Type 0} (f : A → Handler (String × Bool))
      → ((a : A) → Concludes effect (f a))
      → (d : Db) (r : Result A) (w : World Db Event) → SameWrites d w.db
      → Rely SameWrites w.others
      → Applied effect d (continue r f w).0 (continue r f w).1.db
  continue-Applied f rest d (ok a) w same rely =
      Applied-shift d w.db (f a w).0 (f a w).1.db same ((rest a).at w rely)
  continue-Applied f rest d (err e) w same rely = same

  Concludes-bind :
      {A : Type 0} (m : Handler A) (f : A → Handler (String × Bool))
      → Guarantees SameWrites m
      → ((a : A) → Concludes effect (f a))
      → Concludes effect (m >>= f)
  unfolding ◌>>=◌
  Concludes-bind m f g rest = record {
    at = λ w rely.
        continue-Applied f rest w.db (m w).0 (m w).1 (g.at w rely)
          (subst (Rely SameWrites) (sym (g.others_kept w)) rely);
  }

  Concludes-replay : (e : Event) (r : String) → Concludes effect (do log e; pure (r, true))
  unfolding ◌>>=◌
  Concludes-replay e r = record { at = λ w rely. refl }

  fail-SameWrites :
      {A : Type 0} (id : ℕ) (e : Error) → Guarantees SameWrites (fail_and_return {A = A} id e)
  unfolding fail_and_return
  fail-SameWrites id e = search writes_rules

  fail-not_ok :
      {A : Type 0} (id : ℕ) (e : Error) (w : World Db Event) (a : A)
      → (fail_and_return id e w).0 ≢ ok a
  unfolding fail_and_return mark_tool_call_failed ◌>>=◌
  fail-not_ok id e w a h = ground arith

  Applied-error :
      (d : Db) (r : Result (String × Bool)) (d' : Db)
      → ((a : String × Bool) → r ≢ ok a)
      → SameWrites d d'
      → Applied effect d r d'
  Applied-error d (ok a) d' no_ok same = absurd (no_ok a refl)
  Applied-error d (err e) d' no_ok same = same

  module _ (codec : Codec) (id : ℕ) where
    settled-Applied :
        (w : World Db Event) (r : Result String × World Db Event)
        → Rely SameWrites w.others
        → ((s : String) → r.0 ≡ ok s → effect w.db.writes ≡ (ok s, r.1.db.writes))
        → let t = settle w r in
          Applied effect w.db (conclude id t.0 t.1).0 (conclude id t.0 t.1).1.db
    unfolding conclude ◌>>=◌
    settled-Applied w (ok s, w1) rely h = h s refl
    settled-Applied w (err e, w1) rely h =
        Applied-error w.db _ _ (fail-not_ok id e _) ((fail-SameWrites id e).at _ rely)

    Concludes-effect :
        Concludes effect (do r ← caught (transaction (effect_tx codec effect id)); conclude id r)
    unfolding ◌>>=◌
    Concludes-effect = record {
      at = λ w rely.
          settled-Applied w (effect_tx codec effect id (record w { others = λ n d. d })) rely
            (λ s h. effect_tx-writes codec effect id (record w { others = λ n d. d }) s refl h);
    }

module _ (codec : Codec) (in_ : ExecuteInput) (effect : EffectFunc) where
  run_claimed-Concludes : (c : Claim) → Concludes effect (run_claimed codec in_ effect c)
  unfolding run_claimed
  run_claimed-Concludes (replayed r seq) = Concludes-replay effect _ r
  run_claimed-Concludes (claimed row) =
      Concludes-bind effect _ _ (mark_executing-SameWrites row.id) (λ _.
        Concludes-bind effect _ _ tx_statement-SameWrites
          (λ _. Concludes-effect effect codec row.id))

  replay_or_run-Concludes :
      (ctx_done : ℕ → Bool) (hit : Option (String × ℕ))
      → Concludes effect (replay_or_run codec in_ ctx_done effect hit)
  unfolding replay_or_run
  replay_or_run-Concludes ctx_done (some (r, seq)) = Concludes-replay effect _ r
  replay_or_run-Concludes ctx_done none =
      Concludes-bind effect _ _ (claim_intent-SameWrites codec in_ ctx_done) run_claimed-Concludes

  execute-Concludes : (ctx_done : ℕ → Bool) → Concludes effect (execute codec in_ ctx_done effect)
  unfolding execute
  execute-Concludes ctx_done = elim (Bool-cases (is_class_r in_.class)) [
    | inl e ↦ rw e (unfold raise in record { at = λ w rely. refl })
    | inr e ↦ rw e (
        Concludes-bind effect _ _ (check_replay-SameWrites codec in_)
          (replay_or_run-Concludes ctx_done))
  ]

  -- Receipts.Execute, whichever calls of the database fail and whatever the other handlers do that
  -- leaves the effects' tables alone: if it returns a result that is no replay, the effect ran once
  -- on those tables and what it wrote is there; if it replays or fails, they are as they were.
  pub execute_atomic :
      (ctx_done : ℕ → Bool) (w : World Db Event)
      → Rely SameWrites w.others
      → Applied effect w.db
          (execute codec in_ ctx_done effect w).0
          (execute codec in_ ctx_done effect w).1.db
  execute_atomic ctx_done w rely = (execute-Concludes ctx_done).at w rely
