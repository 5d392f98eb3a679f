-- ===== src/Facts/Entities/Moved.antt =====
-- Aliases that a merge moves to another entity, and back.
use kahya.Base.{
  ℕ, Bool, true, false, ◌||◌, ◌≡◌, refl, sym, ap, ◌∙◌, List, [], ◌∷◌, eqb, arith, Bool-cases, inl,
  inr,
}
use kahya.Base.Table.{select, update_where}
use kahya.Facts.Rows.{EntityStatus, Entity, EntityAlias}
use kahya.Facts.Queries.{has_entity_id, is_alias_of, has_alias_id}
use kahya.Facts.Entities.{alias_ids}

abbrev pub is_among : ℕ → List ℕ → Bool
is_among i [] = false
is_among i (j ∷ ids) = eqb i j || is_among i ids

-- alias ids are the table's primary key
abbrev pub Distinct : List EntityAlias → Type 0
Distinct [] = Unit {0}
Distinct (a ∷ rows) = (is_among a.id (alias_ids rows) ≡ false) × Distinct rows

abbrev pub set_entity : ℕ → EntityAlias → EntityAlias
set_entity e a = record a { entity_id = e }

abbrev pub set_status : EntityStatus → Entity → Entity
set_status s e = record e { status = s }

abbrev pub moved : ℕ → List ℕ → List EntityAlias → List EntityAlias
moved e [] rows = rows
moved e (id ∷ ids) rows = moved e ids (update_where (has_alias_id id) (set_entity e) rows)

abbrev pub assign : ℕ → List ℕ → List EntityAlias → List EntityAlias
assign e ids = update_where (λ a. is_among a.id ids) (set_entity e)

assign-update_where :
    (e id : ℕ) (ids : List ℕ) (rows : List EntityAlias)
    → assign e ids (update_where (has_alias_id id) (set_entity e) rows) ≡ assign e (id ∷ ids) rows
unfolding update_where
assign-update_where e id ids [] = refl
assign-update_where e id ids (a ∷ rows) = ground (arith, assign-update_where e id ids rows)

assign-none : (e : ℕ) (rows : List EntityAlias) → assign e [] rows ≡ rows
unfolding update_where
assign-none e [] = refl
assign-none e (a ∷ rows) = ap (λ r. a ∷ r) (assign-none e rows)

moved-assign :
    (e : ℕ) (ids : List ℕ) (rows : List EntityAlias) → moved e ids rows ≡ assign e ids rows
moved-assign e [] rows = sym (assign-none e rows)
moved-assign e (id ∷ ids) rows = moved-assign e ids _ ∙ assign-update_where e id ids rows

assign-assign :
    (e k : ℕ) (ids : List ℕ) (rows : List EntityAlias)
    → assign e ids (assign k ids rows) ≡ assign e ids rows
unfolding update_where
assign-assign e k ids [] = refl
assign-assign e k ids (a ∷ rows) = ground (arith, assign-assign e k ids rows)

is_among-select :
    (i : ℕ) (p : EntityAlias → Bool) (rows : List EntityAlias)
    → is_among i (alias_ids rows) ≡ false
    → is_among i (alias_ids (select p rows)) ≡ false
unfolding select alias_ids
is_among-select i p [] h = refl
is_among-select i p (a ∷ rows) h = ground (arith, is_among-select i p rows)

assign-drop :
    (e i : ℕ) (ids : List ℕ) (rows : List EntityAlias)
    → is_among i (alias_ids rows) ≡ false
    → assign e (i ∷ ids) rows ≡ assign e ids rows
unfolding update_where alias_ids
assign-drop e i ids [] h = refl
assign-drop e i ids (a ∷ rows) h = ground (arith, assign-drop e i ids rows)

set_entity-same : (e : ℕ) (a : EntityAlias) → is_alias_of e a ≡ true → set_entity e a ≡ a
set_entity-same e a h =
    let same : e ≡ a.entity_id = ground (arith, h) in ap (λ k. set_entity k a) same

abbrev pub ids_of : ℕ → List EntityAlias → List ℕ
ids_of e rows = alias_ids (select (is_alias_of e) rows)

-- what already belongs to the entity stays as it is
assign-ids_of :
    (e : ℕ) (rows : List EntityAlias) → Distinct rows → assign e (ids_of e rows) rows ≡ rows
unfolding update_where select alias_ids
assign-ids_of e [] h = refl
assign-ids_of e (a ∷ rows) (fresh, h) =
    let other = is_among-select a.id (is_alias_of e) rows fresh in
    let drops = assign-drop e a.id (ids_of e rows) rows fresh in
    let rest = assign-ids_of e rows h in
    let same = set_entity-same e a in
    elim (Bool-cases (is_alias_of e a)) [
      | inl hit ↦ ground (arith, hit, same hit, drops, rest)
      | inr miss ↦ ground (arith, miss, other, rest)
    ]

pub moved-moved :
    (dst src : ℕ) (rows : List EntityAlias)
    → Distinct rows
    → moved src (ids_of src rows) (moved dst (ids_of src rows) rows) ≡ rows
moved-moved dst src rows h =
    moved-assign src _ _
    ∙ ap (assign src (ids_of src rows)) (moved-assign dst _ rows)
    ∙ assign-assign src dst _ rows
    ∙ assign-ids_of src rows h

pub set_status-twice :
    (e : ℕ) (s t : EntityStatus) (rows : List Entity)
    → update_where
        (has_entity_id e)
        (set_status s)
        (update_where (has_entity_id e) (set_status t) rows)
      ≡ update_where (has_entity_id e) (set_status s) rows
unfolding update_where
set_status-twice e s t [] = refl
set_status-twice e s t (a ∷ rows) = ground (arith, set_status-twice e s t rows)
