-- ===== src/Policy/Check/Sound.antt =====
-- What an allowed call has.
use kahya.Base.{
  ℕ, ◌≤◌, String, true, false, ◌≡◌, ◌⊎◌, inl, inr, refl, Option, none, some, subst, arith, leb,
}
use kahya.Base.Exec.{World, Result, Error, ok, err, ◌>>=◌}
use kahya.Base.Returns.{
  OnOk, Returns, Returns-pure, Returns-bind, Returns-then, Returns-if, Returns-caught,
  returns_rules,
}
use kahya.Task.Rows.{ActionClass, is_class_r}
use kahya.Policy.Rows.{
  is_class_w3, CheckInput, Decision, Answer, Reason, TaintTier, AutonomyState, PolicyDb, Event,
  Engine,
}
use kahya.Policy.Check.{
  canonicalize, denied, decide, decide_asked, decide_allowed, threshold, ask, auto_token,
  auto_allow, on_level, on_state, on_ladder, unless_tainted, on_session, with_resolver,
  with_taint_checker, check_known, check,
}

-- an automatic call's decision: no W3, at or above its class's level, and with a token unless it reads
pub record Justified (k : ActionClass) (d : Decision) (x : Option Error) : Type 0 where
  pub class_known : d.class ≡ k
  pub not_w3 : is_class_w3 k ≡ false
  pub level_reached : threshold k ≤ d.level
  pub no_error : x ≡ none
  pub has_token : (is_class_r k ≡ true) ⊎ ((t : String) × (d.token ≡ some t))

abbrev Sound : ActionClass → Decision × Option Error → Type 0
Sound k (d, x) = elim d.result [ Answer.allow ↦ Justified k d x | _ ↦ Unit ]

decide-Returns :
    (k : ActionClass) (i : CheckInput) (d : Decision) (x : Option Error)
    → Sound k (d, x)
    → Returns (Sound k) (decide i d x)
unfolding decide
decide-Returns k i d x s = search (returns_rules, s)

module _ (e : Engine) (i : CheckInput) (k : ActionClass) (scope : String) where
  decide_asked-Returns :
      (level : ℕ) (why : Reason) (r : Result String)
      → Returns (Sound k) (decide_asked i k scope level why r)
  unfolding decide_asked
  decide_asked-Returns level why (ok id) = decide-Returns k i _ _ tt
  decide_asked-Returns level why (err x) = decide-Returns k i _ _ tt

  ask-Returns : (level : ℕ) (why : Reason) → Returns (Sound k) (ask e i k scope level why)
  unfolding ask
  ask-Returns level why = search (returns_rules, decide_asked-Returns)

  abbrev HasToken : Option String → Type 0
  HasToken o = (is_class_r k ≡ true) ⊎ ((t : String) × (o ≡ some t))

  auto_token-Returns : Returns HasToken (auto_token e i k scope)
  unfolding auto_token
  auto_token-Returns =
      Returns-if HasToken (is_class_r k) _ _ (λ h. Returns-pure HasToken none (inl h))
        λ h. Returns-then HasToken _ _ λ token.
          Returns-then HasToken _ _ λ _. Returns-pure HasToken (some token) (inr (token, refl))

  decide_allowed-Returns :
      is_class_w3 k ≡ false
      → (level : ℕ) → threshold k ≤ level
      → (r : Result (Option String)) → OnOk HasToken r
      → Returns (Sound k) (decide_allowed i k scope level r)
  unfolding decide_allowed
  decide_allowed-Returns not_w3 level reached (ok token) has = decide-Returns k i _ _ (record {
    class_known = refl;
    not_w3 = not_w3;
    level_reached = reached;
    no_error = refl;
    has_token = has;
  })
  decide_allowed-Returns not_w3 level reached (err x) has = decide-Returns k i _ _ tt

  auto_allow-Returns :
      is_class_w3 k ≡ false
      → (level : ℕ) → threshold k ≤ level
      → Returns (Sound k) (auto_allow e i k scope level)
  unfolding auto_allow
  auto_allow-Returns not_w3 level reached =
      Returns-bind (OnOk HasToken) (Sound k) _ _ (Returns-caught HasToken _ auto_token-Returns)
        (decide_allowed-Returns not_w3 level reached)

  on_level-Returns : (level : ℕ) → Returns (Sound k) (on_level e i k scope level)
  unfolding on_level
  on_level-Returns level =
      Returns-if (Sound k) (is_class_w3 k) _ _ (λ h. ask-Returns level _)
        λ h.
          Returns-if (Sound k) (leb (threshold k) level) _ _
            (λ g. auto_allow-Returns h level (ground (arith, g))) (λ g. ask-Returns level _)

  on_state-Returns : (r : Result AutonomyState) → Returns (Sound k) (on_state e i k scope r)
  unfolding on_state
  on_state-Returns (ok s) = on_level-Returns s.level
  on_state-Returns (err x) = decide-Returns k i _ _ tt

  on_ladder-Returns : Returns (Sound k) (on_ladder e i k scope)
  unfolding on_ladder
  on_ladder-Returns = search (returns_rules, on_state-Returns)

  tainted-Returns :
      (level : ℕ) → Returns (Sound k) (decide i (denied Reason.tainted_session k scope level) none)
  tainted-Returns level = decide-Returns k i _ _ tt

  module _ (tier_of : ℕ → String → TaintTier × Option Error) where
    unless_tainted-Returns :
        (session : String) → Returns (Sound k) (unless_tainted e tier_of i k scope session)
    unfolding unless_tainted
    unless_tainted-Returns session =
        search (returns_rules, on_ladder-Returns, tainted-Returns) depth 8

    on_session-Returns : (r : Result String) → Returns (Sound k) (on_session e tier_of i k scope r)
    unfolding on_session
    on_session-Returns (err x) = search (returns_rules, tainted-Returns)
    on_session-Returns (ok session) =
        search (returns_rules, tainted-Returns, unless_tainted-Returns)

    with_resolver-Returns :
        (o : Option (ℕ → String → String → Result String))
        → Returns (Sound k) (with_resolver e tier_of i k scope o)
    unfolding with_resolver
    with_resolver-Returns none = search (returns_rules, on_ladder-Returns, unless_tainted-Returns)
    with_resolver-Returns (some resolve) = search (returns_rules, on_session-Returns)

  with_checker-Returns :
      (o : Option (ℕ → String → TaintTier × Option Error))
      → Returns (Sound k) (with_taint_checker e i k scope o)
  unfolding with_taint_checker
  with_checker-Returns none = on_ladder-Returns
  with_checker-Returns (some tier_of) =
      search (returns_rules, on_ladder-Returns, with_resolver-Returns)

Sound-Justified :
    (k : ActionClass) (r : Result (Decision × Option Error)) (d : Decision) (x : Option Error)
    → OnOk (Sound k) r
    → r ≡ ok (d, x)
    → d.result ≡ Answer.allow
    → Justified k d x
Sound-Justified k r d x s h allows =
    let t : Sound k (d, x) = subst (OnOk (Sound k)) h s in
    subst (λ a. elim a [ Answer.allow ↦ Justified k d x | _ ↦ Unit ]) allows t

known-Justified :
    (e : Engine) (i : CheckInput) (scope : String) (o : Option ActionClass)
    (w : World PolicyDb Event) (d : Decision) (x : Option Error)
    → (check_known e i scope o w).0 ≡ ok (d, x)
    → d.result ≡ Answer.allow
    → (k : ActionClass) × (o ≡ some k) × Justified k d x
unfolding check_known decide ◌>>=◌
known-Justified e i scope none w d x h allows = ground arith
known-Justified e i scope (some k) w d x h allows = (
  k,
  refl,
  Sound-Justified k _ d x ((with_checker-Returns e i k scope e.taint_checker).at w) h allows,
)

-- Whatever the state, the other handlers and the failing calls: when Engine.Check allows a call, its
-- canonical tool is one that the policy names, and that tool's class is not W3; the level of the
-- decision reaches the one from which the class is automatic; no error comes with the decision; and a
-- call that is not of class R carries a token.
pub check-allow :
    (e : Engine) (i : CheckInput) (w : World PolicyDb Event) (d : Decision) (x : Option Error)
    → (check e i w).0 ≡ ok (d, x)
    → d.result ≡ Answer.allow
    → (k : ActionClass) × (e.tools_by_name (canonicalize i.tool) ≡ some k) × Justified k d x
unfolding check
check-allow e i w d x h allows = known-Justified e _ _ _ w d x h allows
