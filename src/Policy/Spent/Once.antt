-- ===== src/Policy/Spent/Once.antt =====
-- A token is consumed once, and a pending approval decided once.
use kahya.Base.{
  ℕ, zero, suc, ◌<◌, String, ◌≡◌, ◌≢◌, refl, sym, ap, ◌∙◌, subst, List, [], ◌∷◌, Option, none, some,
  arith, Bool-cases, inl, inr,
}
use kahya.Base.Table.{
  count_where, update_where, count_where-update_where, count_where-update_where_same,
}
use kahya.Base.Exec.{World, ok, ◌>>=◌}
use kahya.Base.Guarantee.{Rely}
use kahya.Base.Once.{Achieves, Refuses, Refuses-raise, Refuses-if, Refuses-rest}
use kahya.Policy.Rows.{PolicyDb, Event, Engine, ApprovalToken}
use kahya.Policy.Queries.{has_hash, is_live_token, consume_token_row, consume_approval_token}
use kahya.Policy.Tokens.{
  ConsumeInput, fail_from_hash, after_consume, consume_hash, consume_decoded, consume_token,
}
use kahya.Policy.Spent.{IsSpent, Keeps}
use kahya.Policy.Spent.Calls.{Call, run_calls, run_calls-Keeps}
use kahya.Policy.Spent.Statements.{keeps_rules}
use kahya.Policy.Spent.EntryPoints.{punish-Keeps, after_consume-Keeps, consume_token-Keeps}

abbrev Spent : String → PolicyDb → Type 0
Spent hash d = IsSpent hash d.tokens

kept-Spent : (hash : String) (d d' : PolicyDb) → Keeps d d' → Spent hash d → Spent hash d'
kept-Spent hash d d' k = k.spent hash

-- A live row that an UPDATE affects is a row of the hash.
live_exists :
    (hash : String) (rows : List ApprovalToken)
    → 0 < count_where (is_live_token hash) rows
    → 0 < count_where (has_hash hash) rows
unfolding count_where
live_exists hash [] h = ground arith
live_exists hash (t ∷ rows) h = ground (arith, live_exists hash rows)

ruleset refuse_rules = (keeps_rules, Refuses-raise, Refuses-if, Refuses-rest)

module _ (e : Engine) (i : ConsumeInput) (hash : String) where
  abbrev Always : PolicyDb → Type 0
  Always d = Unit {0}

  always : (d d' : PolicyDb) → Keeps d d' → Always d → Always d'
  always d d' k h = tt

  fail-Refuses : Refuses Keeps Always (fail_from_hash i hash)
  unfolding fail_from_hash
  fail-Refuses = search (refuse_rules, punish-Keeps, always) depth 12

  fails :
      (w : World PolicyDb Event)
      → Rely Keeps w.others
      → (a : Unit {0}) → (fail_from_hash i hash w).0 ≢ ok a
  fails w rely a = fail-Refuses.at w rely tt a

  -- An UPDATE that affects no row ends in the failure.
  consume-Refuses : Refuses Keeps (Spent hash) (consume_hash e i hash)
  unfolding consume_hash consume_approval_token after_consume ◌>>=◌
  consume-Refuses = record {
    at = λ w rely spent a. elim (Bool-cases (w.faults w.calls)) [
      | inl h ↦ rw h (fails _ rely a)
      | inr h ↦ rw (h, ((rely w.calls w.db).spent hash spent).no_live) (fails _ rely a)
    ];
  }

  consumed-IsSpent :
      (at : ℕ) (d : PolicyDb)
      → count_where (is_live_token hash) d.tokens ≢ 0
      → IsSpent hash (update_where (is_live_token hash) (consume_token_row at) d.tokens)
  consumed-IsSpent at d h = record {
    exists =
        rw
          (count_where-update_where_same (has_hash hash) (is_live_token hash) (consume_token_row at)
            (λ t. refl) d.tokens)
          (live_exists hash d.tokens (omega (arith, h)));
    no_live =
        count_where-update_where (is_live_token hash) (consume_token_row at) (λ t k. ground arith)
          d.tokens;
  }

  after-Achieves :
      (at n : ℕ) (w : World PolicyDb Event)
      → Rely Keeps w.others
      → (n ≢ 0 → Spent hash w.db)
      → (a : Unit {0}) → (after_consume e i hash at (ok n) w).0 ≡ ok a
      → Spent hash (after_consume e i hash at (ok n) w).1.db
  unfolding after_consume
  after-Achieves at zero w rely s a h = absurd (fails w rely a h)
  after-Achieves at (suc n) w rely s a h =
      kept-Spent hash w.db _ ((after_consume-Keeps i e hash at (ok (suc n))).at w rely)
        (s (λ z. ground arith))

  consume-Achieves : Achieves Keeps (Spent hash) (consume_hash e i hash)
  unfolding consume_hash consume_approval_token ◌>>=◌
  consume-Achieves = record {
    at = λ w rely a. elim (Bool-cases (w.faults w.calls)) [
      | inl h ↦ rw h (unfold after_consume in λ k. absurd (fails _ rely a k))
      | inr h ↦ rw h (after-Achieves _ _ _ rely (consumed-IsSpent _ (w.others w.calls w.db)) a)
    ];
  }

module _ (e : Engine) where
  -- presenting a token: malformed, it is refused
  decoded-Achieves :
      (i : ConsumeInput) (o : Option String) (w : World PolicyDb Event)
      → Rely Keeps w.others
      → (consume_decoded e i o w).0 ≡ ok tt
      → (raw : String) × (o ≡ some raw)
        × Spent (e.raw_bytes_hash raw) (consume_decoded e i o w).1.db
  unfolding consume_decoded ◌>>=◌
  decoded-Achieves i none w rely h = ground arith
  decoded-Achieves i (some raw) w rely h =
      (raw, refl, (consume-Achieves e i (e.raw_bytes_hash raw)).at w rely tt h)

  decoded-Refuses :
      (j : ConsumeInput) (raw : String) (o : Option String)
      → o ≡ some raw
      → (w : World PolicyDb Event) → Rely Keeps w.others
      → Spent (e.raw_bytes_hash raw) w.db
      → (consume_decoded e j o w).0 ≢ ok tt
  unfolding consume_decoded
  decoded-Refuses j raw o h w rely spent =
      rw h ((consume-Refuses e j (e.raw_bytes_hash raw)).at w rely spent tt)

  -- A token whose consume succeeded is never consumed again: after it and any calls of the engine's
  -- entry points (Check, Approve, Deny, Promote, ConsumeToken, TriggerUndo, the sweep and the halt's
  -- InvalidateApprovalsForTask), ConsumeToken of the same token fails, whatever tool, task and input
  -- it names and whichever calls of the database fail, if the handlers that run beside them bring no
  -- spent token and no decided approval back.
  pub consume_token-once :
      (i j : ConsumeInput) (calls : List Call) (w : World PolicyDb Event)
      → Rely Keeps w.others
      → j.token ≡ i.token
      → (consume_token e i w).0 ≡ ok tt
      → (consume_token e j (run_calls e calls (consume_token e i w).1)).0 ≢ ok tt
  unfolding consume_token
  consume_token-once i j calls w rely same h =
      let (raw, decoded, spent) = decoded-Achieves i (e.hex_decode i.token) w rely h in
      let w' = (consume_token e i w).1 in
      let rely' : Rely Keeps w'.others =
        subst (Rely Keeps) (sym ((consume_token-Keeps i e).others_kept w)) rely in
      let (keeps, rely'') = run_calls-Keeps e calls w' rely' in
      decoded-Refuses j raw (e.hex_decode j.token) (ap e.hex_decode same ∙ decoded)
        (run_calls e calls w') rely'' (keeps.spent (e.raw_bytes_hash raw) spent)
