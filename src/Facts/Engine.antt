-- ===== src/Facts/Engine.antt =====
-- kahyad/internal/factengine/engine.go and retract.go: facts are written with the evidence for them,
-- confirmed, denied and retracted.
pub mod Clamped
pub mod Capped
pub mod Eligible
pub mod Untrusted
use kahya.Base.{
  ℕ, zero, suc, ◌+◌, String, Bool, true, false, not, ◌&&◌, ◌||◌, Option, none, some, List, [], ◌∷◌,
  eqb, ltb, leb, ◌==◌, if◌then◌else◌,
}
use kahya.Base.Exec.{
  Result, Error, ok, err, pure, raise, log, now, position, caught, is_no_rows, is_unique_violation,
  ◌>>=◌, ◌>>◌,
}
use kahya.Taint.{Tier, tier_clean, tier_tainted}
use kahya.Facts.Rows.{
  SourceTier, user_edit, user_asserted, external_doc, screen, agent_derived, Provenance, from_user,
  from_doc, from_screen, from_agent, Evidentiality, witnessed, reported, inferred, fact_active,
  Polarity, supports, denies, LogOdds, FactEvent, tier_clamped, fact_denied, fact_retracted_event,
  fact_confirmed, Fact, Evidence, FactDb, Handler,
}
use kahya.Facts.Queries.{
  is_active, get_active_fact_by_triple, get_fact, insert_fact, update_fact_confidence,
  confirm_fact_row, retract_fact_row, list_evidence_by_fact, get_evidence_by_fact_session_polarity,
  insert_evidence,
}

-- packages strings, utf8 and strconv as they are called here; `runes` is none where the text is no UTF-8
pub record Strings : Type 0 where
  pub trim_space : String → String
  pub runes : String → Option (List ℕ)
  pub row_key : ℕ → String

-- TaintChecker.Get at a call's number
abbrev pub TaintChecker : Type 0
TaintChecker = Option (ℕ → String → Tier × Option Error)

abbrev pub max_field_runes : ℕ
max_field_runes = 500

abbrev pub is_control : ℕ → Bool
is_control r = eqb r 127 || (ltb r 32 && not (eqb r 10) && not (eqb r 9))

-- `n` runes were read
unfoldable pub valid_runes : ℕ → ℕ → List ℕ → Bool
valid_runes max_runes n [] = true
valid_runes max_runes n (r ∷ runes) =
    let rest = valid_runes max_runes (suc n) runes in
    not (ltb max_runes (suc n)) && not (is_control r) && rest

abbrev pub valid_text : Option (List ℕ) → Bool
valid_text none = false
valid_text (some runes) = valid_runes max_field_runes 0 runes

abbrev pub tier_name : SourceTier → String
tier_name user_edit = "user_edit"
tier_name user_asserted = "user_asserted"
tier_name external_doc = "external_doc"
tier_name screen = "screen"
tier_name agent_derived = "agent_derived"

abbrev pub null_string : String → Option String
null_string s = if s == "" then none else some s

abbrev pub null_int : ℕ → Option ℕ
null_int zero = none
null_int (suc n) = some (suc n)

-- "" and the three values, trimmed
unfoldable pub normalize_evidentiality : Strings → String → Option Evidentiality
normalize_evidentiality strs s =
    let t = strs.trim_space s in
    if t == ""
    then some inferred
    else if t == "witnessed"
    then some witnessed
    else if t == "reported"
    then some reported
    else if t == "inferred"
    then some inferred
    else none

-- fail closed: no error and a clean tier
abbrev pub reads_clean : Tier × Option Error → Bool
reads_clean (tier_clean, none) = true
reads_clean _ = false

abbrev pub session_is_clean : TaintChecker → ℕ → String → Bool
session_is_clean none n s = false
session_is_clean (some get) n s = reads_clean (get n s)

abbrev pub clamp_reason : String → SourceTier → String
clamp_reason claimed assigned =
    if not (claimed == "") && not (claimed == tier_name assigned)
    then "extractor_claimed_tier_ignored"
    else ""

-- assignSourceTier: the tier, and why the claim was not followed
unfoldable pub assign_source_tier :
    TaintChecker → ℕ → Provenance → String → String → SourceTier × String
assign_source_tier checker n from_user session claimed =
    if session == ""
    then (agent_derived, "user_asserted_claim_missing_session_id")
    else if session_is_clean checker n session
    then (user_asserted, clamp_reason claimed user_asserted)
    else (agent_derived, "user_asserted_claim_untrusted_session")
assign_source_tier checker n from_doc session claimed =
    (external_doc, clamp_reason claimed external_doc)
assign_source_tier checker n from_screen session claimed = (screen, clamp_reason claimed screen)
assign_source_tier checker n from_agent session claimed =
    (agent_derived, clamp_reason claimed agent_derived)

abbrev pub tier_injection_eligible : SourceTier → Bool → Bool
tier_injection_eligible agent_derived confirmed = confirmed
tier_injection_eligible _ confirmed = true

abbrev pub is_valid : {A : Type 0} → Option A → Bool
is_valid none = false
is_valid (some a) = true

module _ (o : LogOdds) where
  pub record Candidate : Type 0 where
    pub subject : String
    pub predicate : String
    pub object : String
    pub claimed_source_tier : String
    pub provenance : Provenance
    pub session_id : String
    pub episode_id : ℕ
    pub evidentiality : String
    pub importance : o.Odds
    pub extractor_ver : String
    pub quote_text : String

  unfoldable pub validate_candidate : Strings → Candidate → Bool
  validate_candidate strs c =
      not (strs.trim_space c.subject == "")
      && not (strs.trim_space c.predicate == "")
      && not (strs.trim_space c.object == "")
      && not (strs.trim_space c.extractor_ver == "")
      && valid_text (strs.runes c.subject)
      && valid_text (strs.runes c.predicate)
      && valid_text (strs.runes c.object)
      && valid_text (strs.runes c.quote_text)

  abbrev pub tier_delta : SourceTier → Option o.Odds
  tier_delta user_asserted = some o.cap_user_asserted
  tier_delta external_doc = some o.cap_external_doc
  tier_delta screen = some o.cap_screen
  tier_delta agent_derived = some o.cap_agent_derived
  tier_delta user_edit = none

  unfoldable pub insert_evidence_row : ℕ → ℕ → String → Polarity → o.Odds → Handler o (Unit {0})
  insert_evidence_row fact_id episode_id session p w = do
    at ← now
    insert_evidence o (record {
      id = 0;
      fact_id = fact_id;
      episode_id = null_int episode_id;
      session_id = null_string session;
      polarity = p;
      weight = w;
      created_at = at;
    })

  -- A second row of the session is the same evidence; every constraint error is taken for one.
  unfoldable pub evidence_inserted : Result (Unit {0}) → Handler o (Unit {0})
  evidence_inserted (ok u) = pure u
  evidence_inserted (err e) = if is_unique_violation e then pure tt else raise e

  unfoldable pub add_unless_found :
      ℕ → ℕ → String → Polarity → o.Odds → Result (Evidence o) → Handler o (Unit {0})
  add_unless_found fact_id episode_id session p w (ok e) = pure tt
  add_unless_found fact_id episode_id session p w (err e) =
      if is_no_rows e
      then (do r ← caught (insert_evidence_row fact_id episode_id session p w); evidence_inserted r)
      else raise e

  unfoldable pub add_evidence : ℕ → ℕ → String → Polarity → o.Odds → Handler o (Unit {0})
  add_evidence fact_id episode_id session p w =
      if session == "" then insert_evidence_row fact_id episode_id session p w else (do
        found ← caught (get_evidence_by_fact_session_polarity o fact_id session p)
        add_unless_found fact_id episode_id session p w found)

  -- the key under which evidence counts once
  pub data Key : Type 0 where
    pos : o.Odds → Key
    neg : String → Key

  abbrev pub key_eq : Key → Key → Bool
  key_eq (pos a) (pos b) = o.same a b
  key_eq (neg s) (neg t) = s == t
  key_eq _ _ = false

  unfoldable pub seen_key : Key → List Key → Bool
  seen_key k [] = false
  seen_key k (l ∷ keys) = key_eq k l || seen_key k keys

  abbrev pub session_key : Strings → ℕ → Option String → String
  session_key strs id none = strs.row_key id
  session_key strs id (some s) = if s == "" then strs.row_key id else s

  abbrev pub key_of : Strings → Evidence o → Key
  key_of strs e = elim e.polarity [
    | supports ↦ pos e.weight
    | denies ↦ neg (session_key strs e.id e.session_id)
  ]

  -- the loop's variables: the sum, and the largest positive weight if there is one
  pub record Tally : Type 0 where
    pub seen : List Key
    pub sum : o.Odds
    pub max_cap : Option o.Odds

  abbrev pub raise_cap : Polarity → o.Odds → Option o.Odds → Option o.Odds
  raise_cap denies w cap = cap
  raise_cap supports w none = some w
  raise_cap supports w (some cap) = if o.exceeds w cap then some w else some cap

  abbrev pub count_evidence : Strings → Evidence o → Tally → Tally
  count_evidence strs e t = if seen_key (key_of strs e) t.seen then t else record {
    seen = key_of strs e ∷ t.seen;
    sum = o.plus t.sum e.weight;
    max_cap = raise_cap e.polarity e.weight t.max_cap;
  }

  unfoldable pub tally : Strings → List (Evidence o) → Tally → Tally
  tally strs [] t = t
  tally strs (e ∷ rows) t = tally strs rows (count_evidence strs e t)

  abbrev pub clamp : o.Odds → Option o.Odds → o.Odds
  clamp sum none = sum
  clamp sum (some cap) = if o.exceeds sum cap then cap else sum

  unfoldable pub confidence_of : Strings → List (Evidence o) → o.Odds
  confidence_of strs rows =
      let t = tally strs rows (record { seen = []; sum = o.zero_odds; max_cap = none }) in
      clamp t.sum t.max_cap

  unfoldable pub recompute_confidence : Strings → ℕ → Handler o (Unit {0})
  recompute_confidence strs fact_id = do
    rows ← list_evidence_by_fact o fact_id
    at ← now
    update_fact_confidence o (confidence_of strs rows) at fact_id

  unfoldable pub note_clamp : Candidate → SourceTier × String → Handler o (Unit {0})
  note_clamp c (assigned, why) = if why == "" then pure tt else log (tier_clamped why assigned)

  abbrev pub new_fact : Candidate → SourceTier → Evidentiality → ℕ → Fact o
  new_fact c assigned e at = record {
    id = 0;
    subject = c.subject;
    predicate = c.predicate;
    object = c.object;
    source_tier = assigned;
    evidentiality = e;
    confidence = o.zero_odds;
    importance = c.importance;
    valid_to = none;
    status = fact_active;
    quote_text = null_string c.quote_text;
    extractor_ver = null_string c.extractor_ver;
    updated_at = at;
    created_at = at;
    confirmed_at = none;
  }

  unfoldable pub found_or_inserted :
      Candidate → SourceTier → Evidentiality → ℕ → Result (Fact o) → Handler o (Fact o)
  found_or_inserted c assigned e at (ok f) = pure f
  found_or_inserted c assigned e at (err x) =
      if is_no_rows x then insert_fact o (new_fact c assigned e at) else raise x

  unfoldable pub write_weighted :
      Strings → Candidate → SourceTier → Evidentiality → Option o.Odds → Handler o ℕ
  write_weighted strs c assigned e none = raise Error.invalid_candidate
  write_weighted strs c assigned e (some delta) = do
    at ← now
    r ← caught (get_active_fact_by_triple o c.subject c.predicate c.object)
    f ← found_or_inserted c assigned e at r
    add_evidence f.id c.episode_id c.session_id supports delta
    recompute_confidence strs f.id
    pure f.id

  unfoldable pub write_valid :
      Strings → TaintChecker → Candidate → Option Evidentiality → Handler o ℕ
  write_valid strs checker c none = raise Error.invalid_candidate
  write_valid strs checker c (some e) = do
    n ← position
    let assigned = assign_source_tier checker n c.provenance c.session_id c.claimed_source_tier
    note_clamp c assigned
    write_weighted strs c assigned.0 e (tier_delta assigned.0)

  unfoldable pub write_fact : Strings → TaintChecker → Candidate → Handler o ℕ
  write_fact strs checker c =
      if validate_candidate strs c
      then write_valid strs checker c (normalize_evidentiality strs c.evidentiality)
      else raise Error.invalid_candidate

  unfoldable pub confirm_fact : ℕ → Handler o (Unit {0})
  confirm_fact id = do at ← now; confirm_fact_row o at id; log (fact_confirmed id)

  unfoldable pub deny_fact : Strings → ℕ → String → Handler o (Unit {0})
  deny_fact strs id session = do
    add_evidence id 0 session denies o.denial
    recompute_confidence strs id
    log (fact_denied id)

  unfoldable pub retract_found : Strings → String → Result (Fact o) → Handler o ℕ
  retract_found strs session (err e) = if is_no_rows e then raise Error.no_active_fact else raise e
  retract_found strs session (ok f) = do
    at ← now
    retract_fact_row o at f.id
    add_evidence f.id 0 session denies o.denial
    recompute_confidence strs f.id
    log (fact_retracted_event f.id)
    pure f.id

  unfoldable pub retract_fact : Strings → String → String → String → String → Handler o ℕ
  retract_fact strs s p b session = do
    r ← caught (get_active_fact_by_triple o s p b)
    retract_found strs session r

  unfoldable pub injection_eligible : Fact o → Bool
  injection_eligible f =
      is_active f.status
      && not (o.exceeds o.injection_threshold f.confidence)
      && tier_injection_eligible f.source_tier (is_valid f.confirmed_at)
