-- ===== src/Policy/Tokens/Minted.antt =====
-- A minted token is accepted for what it was minted for.
use kahya.Base.{
  ℕ, suc, ◌+◌, ◌≤◌, String, true, false, ◌≡◌, refl, ◌∙◌, none, some, List, [], ◌∷◌, ◌++◌, arith,
  ◌==◌, eq_refl,
}
use kahya.Base.Table.{
  find, count_where, update_where, count_where-append, find-append, find-update_where,
}
use kahya.Base.Exec.{ok, calm, ◌>>=◌}
use kahya.Task.Rows.{ActionClass}
use kahya.Policy.Rows.{is_valid_class, ApprovalToken, PolicyDb, Event, Engine}
use kahya.Policy.Queries.{
  has_hash, is_live_token, consume_token_row, insert_approval_token, get_approval_token,
  consume_approval_token,
}
use kahya.Policy.Tokens.{
  token_ttl, is_expired, ConsumeInput, token_row, read_random, mint_token, verify_row,
  after_consume, consume_hash, consume_decoded, consume_token,
}

fresh_none :
    (hash : String) (rows : List ApprovalToken)
    → count_where (has_hash hash) rows ≡ 0
    → (find (has_hash hash) rows ≡ none) × (count_where (is_live_token hash) rows ≡ 0)
unfolding find count_where
fresh_none hash [] h = (refl, refl)
fresh_none hash (t ∷ rows) h = ground (arith, fresh_none hash rows)

module _ (hash : String) (t : ApprovalToken) (at : ℕ) (rows : List ApprovalToken)
    (fresh : count_where (has_hash hash) rows ≡ 0) (own : (t.token_hash == hash) ≡ true)
    (live : t.consumed_at ≡ none) where
  appended_count : count_where (is_live_token hash) (rows ++ t ∷ []) ≡ 1
  unfolding count_where
  appended_count =
      rw
        (
          count_where-append (is_live_token hash) rows (t ∷ []),
          (fresh_none hash rows fresh).1,
          own,
          live,
        )
        refl

  appended_found :
      find
        (has_hash hash)
        (update_where (is_live_token hash) (consume_token_row at) (rows ++ t ∷ []))
      ≡ some (consume_token_row at t)
  unfolding find
  appended_found =
      find-update_where (has_hash hash) (is_live_token hash) (consume_token_row at) (λ u. refl)
        (rows ++ t ∷ [])
      ∙ rw (find-append (has_hash hash) rows (t ∷ []), (fresh_none hash rows fresh).0, own, live)
          (rw own refl)

module _ (e : Engine) (clock : ℕ → ℕ) (n : ℕ) (ledger : List Event) (d : PolicyDb)
    (raw : String) where
  -- A token minted for a task, a tool and an input is accepted when it is presented for them within ten
  -- minutes: ConsumeToken returns no error. (No failing call, no other handler; the random bytes are
  -- drawn, their hash is new, and the hex decoder reads what the encoder wrote.)
  pub mint-consume :
      (task trace tool : String) (k : ActionClass) (scope input : String)
      → e.random n ≡ some raw
      → e.hex_decode (e.hex_encode raw) ≡ some raw
      → is_valid_class k ≡ true
      → count_where (has_hash (e.raw_bytes_hash raw)) d.tokens ≡ 0
      → clock (suc n) ≤ clock n + token_ttl
      → let minted =
          mint_token e task trace tool k scope (e.bytes_hash input) (calm clock n ledger d) in
        let i : ConsumeInput = record {
          token = e.hex_encode raw;
          tool = tool;
          task_id = task;
          trace_id = trace;
          tool_input = input;
        } in
        (minted.0 ≡ ok (e.hex_encode raw)) × ((consume_token e i minted.1).0 ≡ ok tt)
  unfolding mint_token read_random insert_approval_token consume_token consume_decoded consume_hash
      consume_approval_token after_consume get_approval_token verify_row ◌>>=◌
  mint-consume task trace tool k scope input draws decodes valid fresh early =
      let h = e.raw_bytes_hash raw in
      let row = token_row e task trace tool k scope (e.bytes_hash input) raw (clock n) in
      let one_live = appended_count h row (clock (suc n)) d.tokens fresh (eq_refl h) refl in
      let stored = appended_found h row (clock (suc n)) d.tokens fresh (eq_refl h) refl in
      let in_time : is_expired (clock (suc n)) (some (clock n + token_ttl)) ≡ false =
        ground (arith, early) in
      rw
        (
          draws,
          valid,
          fresh,
          decodes,
          one_live,
          stored,
          eq_refl task,
          eq_refl tool,
          eq_refl (e.bytes_hash input),
          in_time,
        )
        (refl, refl)
