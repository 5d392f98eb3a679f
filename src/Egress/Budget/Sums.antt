-- ===== src/Egress/Budget/Sums.antt =====
-- What Add does to the sums of all hosts and days, whatever call of the database fails.
use kahya.Base.{
  ℕ, suc, ◌+◌, ◌≤◌, String, Bool, true, false, ◌&&◌, ◌≡◌, refl, sym, ap, ◌∙◌, ◌⊎◌, inl, inr, Option,
  none, some, List, [], ◌∷◌, ◌++◌, ◌==◌, eq_iff, arith, if◌then◌else◌, Bool-cases, Option-cases,
  zero_or_suc,
}
use kahya.Base.Exec.{World, alone, Result, ok, err, store_failed, pure, continue, ◌>>=◌}
use kahya.Base.Table.{
  find, count_where, update_where, find-update_where, find-holds, find-append, or_else,
  update_where_none,
}
use kahya.Base.Text.{Text, text_eq, text_eq-true}
use kahya.Egress.Budget.{
  EgressBudget, EgressDb, EgressEvent, is_budget_of, get_egress_budget, insert_egress_budget,
  increment_egress_budget, bytes_or_zero, bytes_of, insert_if_none, add,
}

abbrev pub bytes_in : Option EgressBudget → ℕ
bytes_in none = 0
bytes_in (some r) = r.bytes

-- the bytes that a host has been sent on a day
unfoldable pub sum_at : Text → String → EgressDb → ℕ
sum_at host day d = bytes_in (find (is_budget_of host day) d.budgets)

-- the key of the row alone gets at most n more
abbrev pub SumsGrow : Text → String → ℕ → EgressDb → EgressDb → Type 0
SumsGrow host day n d d' =
    (h : Text) (k : String)
    → (sum_at h k d' ≤ sum_at h k d)
      ⊎ ((h ≡ host) × (k ≡ day) × (sum_at host day d' ≤ sum_at host day d + n))

both : (a b : Bool) → (a && b) ≡ true → (a ≡ true) × (b ≡ true)
both a b h = ground (arith, h)

key_of :
    (host h : Text) (day k : String) (r : EgressBudget)
    → is_budget_of host day r ≡ true
    → is_budget_of h k r ≡ true
    → (h ≡ host) × (k ≡ day)
key_of host h day k r p q =
    let (ph, pd) = both (text_eq r.host host) (r.day == day) p in
    let (qh, qd) = both (text_eq r.host h) (r.day == k) q in
    (
      sym (text_eq-true r.host h qh) ∙ text_eq-true r.host host ph,
      sym ((eq_iff r.day k).0 qd) ∙ (eq_iff r.day day).0 pd,
    )

abbrev pub incremented : Text → String → ℕ → EgressDb → EgressDb
incremented host day n d = record d {
  budgets = update_where (is_budget_of host day) (λ r. record r { bytes = r.bytes + n }) d.budgets;
}

module _ (host : Text) (day : String) (n : ℕ) where
  add_to : EgressBudget → EgressBudget
  add_to r = record r { bytes = r.bytes + n }

  add_to-bytes :
      (b : Bool) (r : EgressBudget)
      → (bytes_in (some (if b then add_to r else r)) ≤ r.bytes + n)
        × (b ≡ false → bytes_in (some (if b then add_to r else r)) ≤ r.bytes)
  unfolding add_to
  add_to-bytes b r = ground arith

  incremented-same :
      (d : EgressDb) → sum_at host day (incremented host day n d) ≤ sum_at host day d + n
  unfolding sum_at add_to
  incremented-same d =
      let p = is_budget_of host day in
      elim (Option-cases (find p d.budgets)) [
        | inl e ↦ rw (find-update_where p p add_to (λ r. refl) d.budgets, e) (omega arith)
        | inr (r, e) ↦
            rw (find-update_where p p add_to (λ r. refl) d.budgets, e) ((add_to-bytes (p r) r).0)
      ]

  incremented-SumsGrow : (d : EgressDb) → SumsGrow host day n d (incremented host day n d)
  unfolding sum_at add_to
  incremented-SumsGrow d h k =
      let p = is_budget_of h k in
      let q = is_budget_of host day in
      elim (Option-cases (find p d.budgets)) [
        | inl e ↦ inl (rw (find-update_where p q add_to (λ r. refl) d.budgets, e) (omega arith))
        | inr (r, e) ↦ elim (Bool-cases (q r)) [
          | inl hit ↦
              let (eh, ek) = key_of host h day k r hit (find-holds p d.budgets r e) in
              inr (eh, ek, incremented-same d)
          | inr miss ↦ inl (
              rw (find-update_where p q add_to (λ r. refl) d.budgets, e)
                ((add_to-bytes (q r) r).1 miss))
        ]
      ]

  inserted : EgressDb → EgressDb
  inserted d = record d { budgets = d.budgets ++ record { host = host; day = day; bytes = n } ∷ [] }

  new_row : EgressBudget
  new_row = record { host = host; day = day; bytes = n }

  or_else-bytes :
      (o : Option EgressBudget) (b : Bool)
      → (bytes_in (or_else o (if b then some new_row else none)) ≤ bytes_in o + n)
        × (b ≡ false → bytes_in (or_else o (if b then some new_row else none)) ≤ bytes_in o)
  unfolding new_row
  or_else-bytes none b = ground arith
  or_else-bytes (some r) b = ground arith

  inserted-SumsGrow : (d : EgressDb) → SumsGrow host day n d (inserted d)
  unfolding sum_at inserted find new_row
  inserted-SumsGrow d h k =
      let p = is_budget_of h k in
      let q = is_budget_of host day in
      elim (Bool-cases (p new_row)) [
        | inl hit ↦
            let (eh, ek) = both (text_eq host h) (day == k) hit in
            inr (
              sym (text_eq-true host h eh),
              sym ((eq_iff day k).0 ek),
              rw (find-append q d.budgets (new_row ∷ []))
                  ((or_else-bytes (find q d.budgets) (q new_row)).0),
            )
        | inr miss ↦ inl (
            rw (find-append p d.budgets (new_row ∷ []))
              ((or_else-bytes (find p d.budgets) (p new_row)).1 miss))
      ]

module _ (faults : ℕ → Bool) (clock : ℕ → ℕ) (calls : ℕ) (ledger : List EgressEvent) (d : EgressDb)
    (host : Text) (day : String) where
  -- reading changes nothing, and what it reads is the sum
  pub bytes_of-reads :
      ((bytes_of host day (alone faults clock calls ledger d)).1
        ≡ alone faults clock (suc calls) ledger d)
      × ((b : ℕ)
          → (bytes_of host day (alone faults clock calls ledger d)).0 ≡ ok b
          → b ≡ sum_at host day d)
  unfolding bytes_of get_egress_budget bytes_or_zero sum_at ◌>>=◌
  bytes_of-reads = elim (Bool-cases (faults calls)) [
    | inl fails ↦ rw fails (refl, λ b h. ground (arith, h))
    | inr works ↦ elim (Option-cases (find (is_budget_of host day) d.budgets)) [
      | inl e ↦ rw (works, e) (refl, λ b h. ground (arith, h))
      | inr (r, e) ↦ rw (works, e) (refl, λ b h. ground (arith, h))
    ]
  ]

  -- only the sum of the host and day grows, by at most what is added
  abbrev pub AddEffect : ℕ → World EgressDb EgressEvent → Type 0
  AddEffect n w =
      (w ≡ alone faults clock w.calls ledger w.db)
      × SumsGrow host day n d w.db
      × (w.db.marked ≡ d.marked)

SumsGrow-refl : (host : Text) (day : String) (n : ℕ) (d : EgressDb) → SumsGrow host day n d d
SumsGrow-refl host day n d h k = inl (omega arith)

module _ (faults : ℕ → Bool) (clock : ℕ → ℕ) (calls : ℕ) (ledger : List EgressEvent) (d : EgressDb)
    (host : Text) (day : String) (n : ℕ) where
  insert-AddEffect :
      AddEffect faults clock calls ledger d host day n
        (insert_egress_budget host day n (alone faults clock calls ledger d)).1
  unfolding insert_egress_budget inserted ◌>>=◌
  insert-AddEffect = elim (Bool-cases (faults calls)) [
    | inl fails ↦ rw fails (refl, SumsGrow-refl host day n d, refl)
    | inr works ↦ elim (zero_or_suc (count_where (is_budget_of host day) d.budgets)) [
      | inl e ↦ rw (works, e) (refl, inserted-SumsGrow host day n d, refl)
      | inr (m, e) ↦ rw (works, e) (refl, SumsGrow-refl host day n d, refl)
    ]
  ]

  increment-works :
      faults calls ≡ false
      → increment_egress_budget n host day (alone faults clock calls ledger d) ≡ (
        ok (count_where (is_budget_of host day) d.budgets),
        alone faults clock (suc calls) ledger (incremented host day n d),
      )
  unfolding increment_egress_budget ◌>>=◌
  increment-works works = rw works refl

  increment-fails :
      faults calls ≡ true
      → increment_egress_budget n host day (alone faults clock calls ledger d)
        ≡ (err store_failed, alone faults clock (suc calls) ledger d)
  unfolding increment_egress_budget ◌>>=◌
  increment-fails fails = rw fails refl

  incremented_none :
      count_where (is_budget_of host day) d.budgets ≡ 0 → incremented host day n d ≡ d
  incremented_none e =
      ap (λ rows. record d { budgets = rows })
        (update_where_none (is_budget_of host day) (λ r. record r { bytes = r.bytes + n }) d.budgets
          e)

then-state :
    {A : Type 0} (n : ℕ) (out : Result A × World EgressDb EgressEvent)
    → (continue out.0 (λ a. pure n) out.1).1 ≡ out.1
unfolding ◌>>=◌
then-state n (ok a, w) = refl
then-state n (err e, w) = refl

module _ (faults : ℕ → Bool) (clock : ℕ → ℕ) (calls : ℕ) (ledger : List EgressEvent) (d : EgressDb)
    (host : Text) (day : String) (n : ℕ) where
  -- Add, when every call may fail: no other sum grows, and this one by at most n
  pub add-AddEffect :
      AddEffect faults clock calls ledger d host day n
        (add host day n (alone faults clock calls ledger d)).1
  unfolding add insert_if_none ◌>>=◌
  add-AddEffect = elim (Bool-cases (faults calls)) [
    | inl fails ↦
        rw (increment-fails faults clock calls ledger d host day n fails)
          (refl, SumsGrow-refl host day n d, refl)
    | inr works ↦ elim (zero_or_suc (count_where (is_budget_of host day) d.budgets)) [
      | inl e ↦
          rw
            (
              increment-works faults clock calls ledger d host day n works,
              e,
              incremented_none faults clock calls ledger d host day n e,
              then-state n
                  (insert_egress_budget host day n (alone faults clock (suc calls) ledger d)),
            )
            (insert-AddEffect faults clock (suc calls) ledger d host day n)
      | inr (m, e) ↦
          rw
            (
              increment-works faults clock calls ledger d host day n works,
              e,
              (bytes_of-reads faults clock (suc calls) ledger (incremented host day n d) host
                  day).0,
            )
            (refl, incremented-SumsGrow host day n d, refl)
    ]
  ]
