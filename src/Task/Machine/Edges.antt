-- ===== src/Task/Machine/Edges.antt =====
-- Which status changes a handler of the package can make, whatever else runs beside it.
use kahya.Base.{
  ap, ◌∙◌, subst, Bool-cases, inl, inr, String, Bool, true, ◌≡◌, refl, Option, none, some, arith,
  if◌then◌else◌, Option-cases,
}
use kahya.Base.Table.{find, update_where, find-update_where}
use kahya.Base.Guarantee.{IsPreorder, Guarantees, Guarantees-query, guarantee_rules}
use mathlib.Core.Option
use kahya.Task.Rows.{Status, status_eq, Task, Db, executing}
use kahya.Task.Queries.{
  has_id, has_id_status, get_task_by_id, set_task_status, increment_task_attempts, bump_attempts,
}
use kahya.Task.Machine.{
  is_legal_transition, count_attempt, commit_transition, transition_from, transition,
}

-- a path of legal transitions
pub data LegalPath (a : Status) : Status → Type 0 where
  here : LegalPath a a
  next : {b c : Status} → LegalPath a b → is_legal_transition b c ≡ true → LegalPath a c

pub LegalPath-trans : {a b c : Status} → LegalPath a b → LegalPath b c → LegalPath a c
LegalPath-trans p here = p
LegalPath-trans p (next q e) = next (LegalPath-trans p q) e

abbrev pub status_of : String → Db → Option Status
status_of id d = Option.map (λ t. t.status) (find (has_id id) d.tasks)

-- From `d` to `d'` no task is lost, and each one's status moved along legal transitions only.
pub record Follows (d d' : Db) : Type 0 where
  pub path :
      (id : String) (s : Status)
      → status_of id d ≡ some s
      → (s' : Status) × (status_of id d' ≡ some s') × LegalPath s s'

pub Follows-same : (d : Db) → Follows d d
Follows-same d = record { path = λ id s e. (s, e, here) }

Follows-chain : (a b c : Db) → Follows a b → Follows b c → Follows a c
Follows-chain a b c f g = record {
  path = λ id s e.
      let p = f.path id s e in let q = g.path id p.0 p.1 in (q.0, q.1, LegalPath-trans p.2 q.2);
}

pub Follows-order : IsPreorder Follows
Follows-order = record { same = Follows-same; chain = Follows-chain }

-- statuses that a write leaves alone
pub Follows-of_eq : (d d' : Db) → ((id : String) → status_of id d' ≡ status_of id d) → Follows d d'
Follows-of_eq d d' h = record { path = λ id s e. (s, rw h e, here) }

module _ (q : Task → Bool) (f : Task → Task) (j : String) (d : Db) where
  status_of-update :
      (keeps : (t : Task) → has_id j (f t) ≡ has_id j t)
      → status_of j (record d { tasks = update_where q f d.tasks })
        ≡ Option.map
            (λ t. t.status)
            (Option.map (λ t. if q t then f t else t) (find (has_id j) d.tasks))
  status_of-update keeps =
      ap (Option.map (λ t. t.status)) (find-update_where (has_id j) q f keeps d.tasks)

  -- An update that writes neither the id nor the status keeps every status.
  pub status_of-update_same :
      ((t : Task) → has_id j (f t) ≡ has_id j t)
      → ((t : Task) → (f t).status ≡ t.status)
      → status_of j (record d { tasks = update_where q f d.tasks }) ≡ status_of j d
  status_of-update_same keeps same = status_of-update keeps ∙ go (find (has_id j) d.tasks)
    where
      go :
          (o : Option Task)
          → Option.map (λ t. t.status) (Option.map (λ t. if q t then f t else t) o)
            ≡ Option.map (λ t. t.status) o
      go none = refl
      go (some t) = ground (arith, same t)

status_eq-eq : (a b : Status) → status_eq a b ≡ true → a ≡ b
status_eq-eq a b h = ground arith

abbrev moved : String → Status → Status → Task → Task
moved id from to t = if has_id_status id from t then record t { status = to } else t

moved-path :
    (id : String) (from to : Status) (t : Task)
    → is_legal_transition from to ≡ true
    → LegalPath t.status (moved id from to t).status
moved-path id from to t legal = elim (Bool-cases (has_id_status id from t)) [
  | inr e ↦ rw e here
  | inl e ↦ rw e (next here (rw (status_eq-eq t.status from (ground arith)) legal))
]

-- One write along a legal edge, to the rows that still have the status it starts from.
moved-Follows :
    (id : String) (from to : Status) (d : Db)
    → is_legal_transition from to ≡ true
    → Follows d (record d {
      tasks = update_where (has_id_status id from) (λ t. record t { status = to }) d.tasks;
    })
moved-Follows id from to d legal = record {
  path = λ j s e. elim (Option-cases (find (has_id j) d.tasks)) [
    | inl missing ↦ cc
    | inr (t, found) ↦ (
      (moved id from to t).status,
      status_of-update _ _ j d (λ t. refl) ∙ rw found,
      let same : t.status ≡ s = cc in
          subst (λ x. LegalPath x (moved id from to t).status) same (moved-path id from to t legal),
    )
  ];
}

module _ (id : String) where
  pub get_task_by_id-Follows : Guarantees Follows (get_task_by_id id)
  unfolding get_task_by_id
  get_task_by_id-Follows = Guarantees-query Follows Follows-order _ λ d. Follows-same d

  pub increment_task_attempts-Follows : Guarantees Follows (increment_task_attempts id)
  unfolding increment_task_attempts
  increment_task_attempts-Follows = Guarantees-query Follows Follows-order _ λ d.
      Follows-of_eq d _
        (λ j. status_of-update_same (has_id id) bump_attempts j d (λ t. refl) (λ t. refl))

pub set_task_status-Follows :
    (to from : Status) (id : String)
    → is_legal_transition from to ≡ true
    → Guarantees Follows (set_task_status to id from)
unfolding set_task_status
set_task_status-Follows to from id legal =
    Guarantees-query Follows Follows-order _ λ d. moved-Follows id from to d legal

ruleset edge_rules =
    (guarantee_rules, Follows-order, get_task_by_id-Follows, increment_task_attempts-Follows)

count_attempt-Follows : (to : Status) (id : String) → Guarantees Follows (count_attempt to id)
unfolding count_attempt
count_attempt-Follows executing id = search edge_rules
count_attempt-Follows _ id = search edge_rules

commit_transition-Follows :
    (trace_id id : String) (from to : Status)
    → is_legal_transition from to ≡ true
    → Guarantees Follows (commit_transition trace_id id from to)
unfolding commit_transition
commit_transition-Follows trace_id id from to legal =
    search (edge_rules, count_attempt-Follows, set_task_status-Follows) depth 8

transition_from-Follows :
    (trace_id id : String) (to from : Status)
    → Guarantees Follows (transition_from trace_id id to from)
unfolding transition_from
transition_from-Follows trace_id id to from = search (edge_rules, commit_transition-Follows) depth 8

-- Machine.Transition, whatever else runs beside it and whatever fails: no task is lost, and if the
-- other handlers move statuses along legal transitions only, so does the whole.
pub transition-Follows :
    (trace_id id : String) (to : Status) → Guarantees Follows (transition trace_id id to)
unfolding transition
transition-Follows trace_id id to = search (edge_rules, transition_from-Follows) depth 8
