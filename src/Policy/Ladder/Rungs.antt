-- ===== src/Policy/Ladder/Rungs.antt =====
-- A promotion climbs one rung, a denial falls one.
use kahya.Base.{
  ℕ, suc, ◌-◌, ◌≤◌, String, true, false, ◌≡◌, refl, sym, ◌∙◌, ap, Option, none, some, List, [], ◌∷◌,
  ◌++◌, Option-cases, inl, inr, arith, eq_refl, eqb, leb,
}
use kahya.Base.Table.{
  find, count_where, update_where, update_where_none, find-append, find-update_where,
  find-count_where, find-holds, find-none-count_where,
}
use kahya.Base.Exec.{ok, calm, ◌>>=◌}
use kahya.Task.Rows.{ActionClass}
use kahya.Policy.Rows.{is_valid_class, class_eq, AutonomyState, PolicyDb, Event}
use kahya.Policy.Queries.{
  has_triple, get_autonomy_state, update_autonomy_state, insert_autonomy_state,
}
use kahya.Policy.Ladder.{
  state_row, state_or_zero, load_state, save_state, demote, next_level, raise_level,
}

abbrev pub rung : Option AutonomyState → ℕ × ℕ
rung none = (0, 0)
rung (some s) = (s.level, s.consecutive_approvals)

-- the level and the count of approvals of a triple; a missing row is at level 0 with none
abbrev pub rung_of : String → ActionClass → String → PolicyDb → ℕ × ℕ
rung_of tool k scope d = rung (find (has_triple tool k scope) d.autonomy)

class_eq_refl : (k : ActionClass) → class_eq k k ≡ true
class_eq_refl k = ground arith

module _ (clock : ℕ → ℕ) (n : ℕ) (ledger : List Event) (d : PolicyDb) (tool : String)
    (k : ActionClass) (scope : String) (valid : is_valid_class k ≡ true) where
  new_row :
      (level approvals : ℕ) (at : Option ℕ)
      → find (has_triple tool k scope) (state_row tool k scope level approvals at ∷ [])
        ≡ some (state_row tool k scope level approvals at)
  unfolding find
  new_row level approvals at = rw (eq_refl tool, class_eq_refl k, eq_refl scope) refl

  -- a state saved within the bounds is the one that is read back
  save_state-rung :
      (level approvals : ℕ)
      → level ≤ 4
      → (m : ℕ) × (d' : PolicyDb) × (save_state tool k scope level approvals (calm clock n ledger d)
          ≡ (ok tt, calm clock m ledger d'))
        × (rung_of tool k scope d' ≡ (level, approvals))
  unfolding save_state update_autonomy_state insert_autonomy_state ◌>>=◌ find update_where
  save_state-rung level approvals bound =
      let fits = has_triple tool k scope in
      let set : AutonomyState → AutonomyState = λ s. record s {
        level = level;
        consecutive_approvals = approvals;
        updated_at = some (clock n);
      } in
      let in_range : leb level 4 ≡ true = ground (arith, bound) in
      elim (Option-cases (find fits d.autonomy)) [
        | inl h ↦
            let no_rows : count_where fits d.autonomy ≡ 0 =
              find-none-count_where fits fits (λ a x. x) d.autonomy h in
            let row = state_row tool k scope level approvals (some (clock n)) in
            (
              suc (suc n),
              record d { autonomy = d.autonomy ++ row ∷ [] },
              rw (no_rows, update_where_none fits set d.autonomy no_rows, valid, in_range, no_rows)
                  refl,
              ap rung (find-append fits d.autonomy (row ∷ []))
                  ∙ rw (rung, h) (ap rung (new_row level approvals (some (clock n)))),
            )
        | inr (s, h) ↦
            let some_row : eqb (count_where fits d.autonomy) 0 ≡ false =
              ground (
                arith,
                find-count_where fits fits d.autonomy s h (find-holds fits d.autonomy s h),
              ) in
            let own : fits s ≡ true = find-holds fits d.autonomy s h in
            let found : find fits (update_where fits set d.autonomy) ≡ some (set s) =
              find-update_where fits fits set (λ u. refl) d.autonomy ∙ rw (h, own) refl in
            (
              suc n,
              record d { autonomy = update_where fits set d.autonomy },
              rw (some_row, in_range, some_row) refl,
              ap rung found,
            )
      ]

  load_state-calm :
      (s : AutonomyState) × (load_state tool k scope (calm clock n ledger d)
        ≡ (ok s, calm clock (suc n) ledger d))
      × ((s.level, s.consecutive_approvals) ≡ rung_of tool k scope d)
  unfolding load_state get_autonomy_state state_or_zero ◌>>=◌
  load_state-calm = elim (Option-cases (find (has_triple tool k scope) d.autonomy)) [
    | inl h ↦ (state_row tool k scope 0 0 none, rw h refl, sym (ap rung h))
    | inr (s, h) ↦ (s, rw h refl, sym (ap rung h))
  ]

module _ (clock : ℕ → ℕ) (n : ℕ) (ledger : List Event) (d : PolicyDb) (tool : String)
    (k : ActionClass) (scope : String) (valid : is_valid_class k ≡ true) where
  -- A demotion of a triple within the ladder takes its level one rung down, or leaves it at 0, and
  -- resets its count of approvals. (No failing call, no other handler.)
  pub demote-rung :
      (rung_of tool k scope d).0 ≤ 4
      → let out = demote tool k scope (calm clock n ledger d) in
        (out.0 ≡ ok tt) × (rung_of tool k scope out.1.db ≡ ((rung_of tool k scope d).0 - 1, 0))
  unfolding demote ◌>>=◌
  demote-rung bound =
      let (s, loads, rung) = load_state-calm clock n ledger d tool k scope valid in
      let level : s.level ≡ (rung_of tool k scope d).0 = ap (λ r. r.0) rung in
      let (m, d', saves, reads) =
        save_state-rung clock (suc n) ledger d tool k scope valid (s.level - 1) 0
          (omega (arith, level, bound)) in
      rw (loads, saves) (refl, reads ∙ ap (λ l. (l - 1, 0)) level)

  -- Promote of a known tool and a valid class, for a triple within the ladder, takes its level one
  -- rung up, at most to 4, returns the new level and resets the count of approvals. (No failing call,
  -- no other handler.)
  pub raise_level-rung :
      (rung_of tool k scope d).0 ≤ 4
      → let out = raise_level tool k scope (calm clock n ledger d) in
        let level = next_level (rung_of tool k scope d).0 in
        (out.0 ≡ ok level) × (rung_of tool k scope out.1.db ≡ (level, 0)) × (level ≤ 4)
  unfolding raise_level ◌>>=◌
  raise_level-rung bound =
      let (s, loads, rung) = load_state-calm clock n ledger d tool k scope valid in
      let level : s.level ≡ (rung_of tool k scope d).0 = ap (λ r. r.0) rung in
      let in_range : next_level s.level ≤ 4 = ground (arith, bound) in
      let (m, d', saves, reads) =
        save_state-rung clock (suc n) ledger d tool k scope valid (next_level s.level) 0 in_range in
      rw (loads, saves)
        (
          ap (λ l. ok (next_level l)) level,
          reads ∙ ap (λ l. (next_level l, 0)) level,
          rw (← level) in_range,
        )
