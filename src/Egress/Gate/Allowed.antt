-- ===== src/Egress/Gate/Allowed.antt =====
-- What the gate allows is on the configured allowlist.
use kahya.Base.{
  ℕ, String, Bool, true, false, ◌&&◌, ◌||◌, ◌≡◌, refl, sym, ◌∙◌, ◌⊎◌, inl, inr, Option, none, some,
  List, [], ◌∷◌, arith, if◌then◌else◌, subst,
}
use kahya.Base.Exec.{World, ok}
use kahya.Base.Returns.{OnOk, Returns, Returns-pure, Returns-if, Returns-bind, Returns-then}
use kahya.Base.Text.{Text, text_eq}
use kahya.Egress.Host.{Net, canonicalize_host}
use kahya.Egress.Budget.{EgressDb, EgressEvent, SessionInfo, Rule, egress_allowed}
use kahya.Egress.Gate.{
  AllowlistEntry, EgressConfig, DenyReason, Gate, Decision, lookup, put, ports_or_https,
  allow_entries, new_gate, has_port, port_allowed, match_allowlist, deny, deny_budget, spend,
  within_budget, check_matched, check_host, check, over_limit,
}

abbrev pub names_host : Option Text → Text → Bool
names_host none host = false
names_host (some h) host = text_eq h host

-- an entry of the configuration that is for the host and port: without ports it is for 443 alone
abbrev pub entry_allows : Net → Text → ℕ → AllowlistEntry → Bool
entry_allows net host port e =
    names_host (canonicalize_host net e.host) host && has_port port (ports_or_https e.ports)

abbrev pub some_entry : (AllowlistEntry → Bool) → List AllowlistEntry → Bool
some_entry p [] = false
some_entry p (e ∷ entries) = p e || some_entry p entries

ports-port_allowed :
    (port : ℕ) (ports : List ℕ)
    → port_allowed port (some (ports_or_https ports)) ≡ has_port port (ports_or_https ports)
ports-port_allowed port [] = refl
ports-port_allowed port (p ∷ ports) = refl

either-allowed :
    (hit : Bool) (port : ℕ) (ports : List ℕ) (rest : Option (List ℕ))
    → port_allowed port (if hit then some (ports_or_https ports) else rest) ≡ true
    → ((hit && has_port port (ports_or_https ports)) ≡ true) ⊎ (port_allowed port rest ≡ true)
either-allowed true port ports rest h = inl (sym (ports-port_allowed port ports) ∙ h)
either-allowed false port ports rest h = inr h

put-allowed :
    (host : Text) (port : ℕ) (o : Option Text) (ports : List ℕ) (allow : List (Text × List ℕ))
    → port_allowed port (lookup host (put o (ports_or_https ports) allow)) ≡ true
    → ((names_host o host && has_port port (ports_or_https ports)) ≡ true)
      ⊎ (port_allowed port (lookup host allow) ≡ true)
unfolding lookup
put-allowed host port none ports allow h = inr h
put-allowed host port (some k) ports allow h =
    either-allowed (text_eq k host) port ports (lookup host allow) h

either_or : (a b : Bool) → (a ≡ true) ⊎ (b ≡ true) → (a || b) ≡ true
either_or a b h = ground (arith, h)

or_either : (a b : Bool) → (a || b) ≡ true → (a ≡ true) ⊎ (b ≡ true)
or_either true b h = inl refl
or_either false b h = inr h

entries-allowed :
    (net : Net) (host : Text) (port : ℕ) (entries : List AllowlistEntry)
    (allow : List (Text × List ℕ))
    → port_allowed port (lookup host (allow_entries net entries allow)) ≡ true
    → (some_entry (entry_allows net host port) entries ≡ true)
      ⊎ (port_allowed port (lookup host allow) ≡ true)
unfolding allow_entries
entries-allowed net host port [] allow h = inr h
entries-allowed net host port (e ∷ entries) allow h =
    let p = entry_allows net host port in
    let o = canonicalize_host net e.host in
    elim (entries-allowed net host port entries (put o (ports_or_https e.ports) allow) h) [
      | inl later ↦ inl (either_or (p e) (some_entry p entries) (inr later))
      | inr earlier ↦ elim (put-allowed host port o e.ports allow earlier) [
        | inl now ↦ inl (either_or (p e) (some_entry p entries) (inl now))
        | inr old ↦ inr old
      ]
    ]

module _ (g : Gate) (raw : Text) (port : ℕ) where
  -- an allowed request has a host whose port the allowlist holds
  abbrev pub Allows : Decision → Type 0
  Allows d =
      d.allow ≡ true
      → (host : Text) × (canonicalize_host g.net raw ≡ some host)
        × (match_allowlist g host port ≡ true)
        × (d.rule ≡ egress_allowed)

  deny-Allows :
      (session : SessionInfo) (host : Text) (rule : Rule) (why : DenyReason)
      → Returns Allows (deny session host rule why)
  unfolding deny
  deny-Allows session host rule why =
      Returns-then Allows _ _ (λ _. Returns-pure Allows _ (λ h. ground (arith, h)))

  Denied : Decision → Type 0
  Denied d = d.allow ≡ false

  deny-Denied :
      (session : SessionInfo) (host : Text) (rule : Rule) (why : DenyReason)
      → Returns Denied (deny session host rule why)
  unfolding deny Denied
  deny-Denied session host rule why = Returns-then Denied _ _ (λ _. Returns-pure Denied _ refl)

  deny_budget-Allows :
      (session : SessionInfo) (host : Text) → Returns Allows (deny_budget g session host)
  unfolding deny_budget Denied
  deny_budget-Allows session host =
      Returns-bind Denied Allows _ (deny session host _ _) (deny-Denied session host _ _)
        (λ d denied.
          Returns-then Allows _ _ (λ _. Returns-pure Allows d (λ h. ground (arith, denied, h))))

  spend-Allows :
      (session : SessionInfo) (host : Text) (day : String) (n : ℕ)
      → canonicalize_host g.net raw ≡ some host
      → match_allowlist g host port ≡ true
      → Returns Allows (spend g session host day n)
  unfolding spend
  spend-Allows session host day n named matched = Returns-then Allows _ _ (λ _.
      Returns-then Allows _ _ (λ _. Returns-pure Allows _ (λ _. (host, named, matched, refl))))

  within_budget-Allows :
      (session : SessionInfo) (host : Text) (n : ℕ)
      → canonicalize_host g.net raw ≡ some host
      → match_allowlist g host port ≡ true
      → Returns Allows (within_budget g session host n)
  unfolding within_budget
  within_budget-Allows session host n named matched = Returns-then Allows _ _ (λ at.
      Returns-then Allows _ _ (λ current.
        Returns-if Allows (over_limit g host current n) _ (spend g session host (g.day_of at) n)
          (λ _. deny_budget-Allows session host)
          (λ _. spend-Allows session host (g.day_of at) n named matched)))

  matched-Allows :
      (session : SessionInfo) (host : Text) (n : ℕ) (marked matched : Bool)
      → canonicalize_host g.net raw ≡ some host
      → match_allowlist g host port ≡ matched
      → Returns Allows (check_matched g session host n marked matched)
  unfolding check_matched
  matched-Allows session host n true false named m = deny-Allows session host _ _
  matched-Allows session host n false false named m = deny-Allows session host _ _
  matched-Allows session host n true true named m = within_budget-Allows session host n named m
  matched-Allows session host n false true named m = within_budget-Allows session host n named m

  host-Allows :
      (session : SessionInfo) (n : ℕ) (o : Option Text)
      → canonicalize_host g.net raw ≡ o
      → Returns Allows (check_host g session raw port n o)
  unfolding check_host
  host-Allows session n none named = deny-Allows session raw _ _
  host-Allows session n (some host) named =
      Returns-then Allows _ _ (λ marked. matched-Allows session host n _ _ named refl)

-- A request that the gate allows is for a host and port that some entry of the configured allowlist
-- names, in the one spelling of hosts, an entry without ports being for 443 alone. This holds whatever
-- other handlers do and whichever calls fail.
pub check-some_entry :
    (net : Net) (cfg : EgressConfig) (has_sessions has_budget has_notifier : Bool)
    (day_of : ℕ → String) (raw : Text) (port nbytes : ℕ) (session : SessionInfo)
    (w : World EgressDb EgressEvent) (d : Decision)
    → (check
        (new_gate net cfg has_sessions has_budget has_notifier day_of)
        raw
        port
        nbytes
        session
        w).0
      ≡ ok d
    → d.allow ≡ true
    → (host : Text) × (canonicalize_host net raw ≡ some host)
      × (some_entry (entry_allows net host port) cfg.allowlist ≡ true)
unfolding check new_gate match_allowlist lookup
check-some_entry net cfg hs hb hn day_of raw port nbytes session w d out allowed =
    let g = new_gate net cfg hs hb hn day_of in
    let all = (host-Allows g raw port session nbytes (canonicalize_host net raw) refl).at w in
    let (host, named, matched, rule) = subst (OnOk (Allows g raw port)) out all allowed in
    elim (entries-allowed net host port cfg.allowlist [] matched) [
      | inl entry ↦ (host, named, entry)
      | inr none_left ↦ ground (arith, none_left)
    ]
