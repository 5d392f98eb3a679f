-- ===== src/Policy/Tokens.antt =====
-- kahyad/internal/policy/tokens.go: the one-time approval token, bound to a task, a tool and the exact
-- bytes that were approved. Its first presentation burns it, right or wrong.
pub mod Minted
use kahya.Base.{
  ℕ, zero, suc, ◌+◌, ◌*◌, String, Bool, true, false, ◌&&◌, ◌||◌, not, Option, none, some, List, [],
  ◌∷◌, leb, ltb, eqb, if◌then◌else◌, ◌==◌,
}
use kahya.Base.Exec.{
  World, Result, Error, ok, err, pure, raise, log, now, position, caught, token_invalid,
  random_failed, ◌>>=◌, ◌>>◌,
}
use kahya.Task.Rows.{ActionClass}
use kahya.Policy.Rows.{
  ApprovalToken, Event, token_verify_failed, token_halt_revoked, Handler, Engine,
}
use kahya.Policy.Queries.{
  insert_approval_token, get_approval_token, consume_approval_token, is_null,
}
use kahya.Policy.Ladder.{demote}

-- ten minutes, of a token and of a pending approval
abbrev pub token_ttl : ℕ
token_ttl = 600000000000

-- a time that does not parse has expired
abbrev pub is_expired : ℕ → Option ℕ → Bool
is_expired at none = true
is_expired at (some expires) = ltb expires at

pub record ConsumeInput : Type 0 where
  pub token : String
  pub tool : String
  pub task_id : String
  pub trace_id : String
  pub tool_input : String

-- A failed consume demotes the triple that the token is bound to, unless a halt revoked it.
unfoldable pub punish : ConsumeInput → Result ApprovalToken → Handler (Unit {0})
punish i (err _) = pure tt
punish i (ok t) =
    if is_null t.revoked_at
    then demote t.tool t.class t.scope
    else log (token_halt_revoked t.tool i.task_id)

unfoldable pub fail_from_hash : ConsumeInput → String → Handler (Unit {0})
fail_from_hash i hash = do
  log (token_verify_failed i.tool i.task_id)
  r ← caught (get_approval_token hash)
  punish i r
  raise token_invalid

-- crypto/rand.Read
abbrev pub drawn : Option String → Handler String
drawn none = raise random_failed
drawn (some raw) = pure raw

module _ (e : Engine) where
  unfoldable pub read_random : Handler String
  read_random = do n ← position; drawn (e.random n)

  abbrev pub token_row :
      String → String → String → ActionClass → String → String → String → ℕ → ApprovalToken
  token_row task_id trace_id tool k scope hash raw at = record {
    token_hash = e.raw_bytes_hash raw;
    task_id = task_id;
    trace_id = trace_id;
    tool = tool;
    class = k;
    scope = scope;
    approved_bytes_hash = hash;
    minted_at = some at;
    expires_at = some (at + token_ttl);
    consumed_at = none;
    revoked_at = none;
  }

  unfoldable pub mint_token :
      String → String → String → ActionClass → String → String → Handler String
  mint_token task_id trace_id tool k scope hash = do
    raw ← read_random
    at ← now
    insert_approval_token (token_row task_id trace_id tool k scope hash raw at)
    pure (e.hex_encode raw)

  -- the row is the one that the caller claims to hold, still in time, for these bytes
  abbrev pub matches : ConsumeInput → ℕ → ApprovalToken → Bool
  matches i at t =
      if not ((t.task_id == i.task_id) && (t.tool == i.tool))
      then false
      else if is_expired at t.expires_at
      then false
      else t.approved_bytes_hash == e.bytes_hash i.tool_input

  unfoldable pub verify_row : ConsumeInput → String → ℕ → Result ApprovalToken → Handler (Unit {0})
  verify_row i hash at (err _) = fail_from_hash i hash
  verify_row i hash at (ok t) = if matches i at t then pure tt else fail_from_hash i hash

  unfoldable pub after_consume : ConsumeInput → String → ℕ → Result ℕ → Handler (Unit {0})
  after_consume i hash at (err _) = fail_from_hash i hash
  after_consume i hash at (ok zero) = fail_from_hash i hash
  after_consume i hash at (ok (suc _)) = do
    r ← caught (get_approval_token hash)
    verify_row i hash at r

  unfoldable pub consume_hash : ConsumeInput → String → Handler (Unit {0})
  consume_hash i hash = do
    at ← now
    r ← caught (consume_approval_token at hash)
    after_consume i hash at r

  unfoldable pub consume_decoded : ConsumeInput → Option String → Handler (Unit {0})
  consume_decoded i none = do log (token_verify_failed i.tool i.task_id); raise token_invalid
  consume_decoded i (some raw) = consume_hash i (e.raw_bytes_hash raw)

  -- Engine.ConsumeToken
  unfoldable pub consume_token : ConsumeInput → Handler (Unit {0})
  consume_token i = consume_decoded i (e.hex_decode i.token)
