-- ===== src/Publication/Approval.antt =====
-- Approval of plans (`approve_plans` of app/services/publication_plan_service.py).
--
-- The rows are read under their locks, so one call sees one state of the database and commits
-- against it.
pub mod Checks
pub mod Effects
pub mod Binding
pub mod Lookups
pub mod Exactness
use linking_engine_backend.Prelude.{
  ℕ, ◌≡◌, Bool, true, false, not, ◌&&◌, ◌||◌, String, str_eq, Option, none, some, List, [], ◌∷◌,
  ◌++◌, map, foldl, leb, ◌==◌, if◌then◌else◌, is_none, select, update_where, elem, dedup, sort,
  Result, ok, err, ◌>>=◌, ◌>>◌, raise_if,
}
use linking_engine_backend.Publication.Rows.{
  PublicationPlan, PlanStatus, Suggestion, SuggestionStatus, Item, Reason, Db, is_prepared,
  is_selected, suggestion_by_id,
}
use linking_engine_backend.Publication.Artifact.{Artifact, verify_integrity}

-- PlanApprovalError, one case for each message
pub data ApprovalError : Type 0 where
  nothing_named : ApprovalError
  plans_missing : List ℕ → ApprovalError
  other_site : ℕ → ApprovalError
  not_prepared : ℕ → PlanStatus → ApprovalError
  hash_changed : ℕ → ApprovalError
  not_intact : ℕ → Reason → ApprovalError
  suggestion_missing : ℕ → ℕ → ApprovalError
  suggestion_not_selected : ℕ → ℕ → SuggestionStatus → ApprovalError
  suggestion_bound : ℕ → ℕ → ℕ → ApprovalError

-- `dict(approvals).get(n)`: the last pair for a key wins.
abbrev pub wanted_hash : List (ℕ × String) → ℕ → Option String
wanted_hash [] n = none
wanted_hash ((m, h) ∷ rest) n =
    let here = if m == n then some h else none in
    elim (wanted_hash rest n) [ some v ↦ some v | none ↦ here ]

abbrev pub is_named : List (ℕ × String) → PublicationPlan → Bool
is_named approvals p = not (is_none (wanted_hash approvals p.id))

abbrev pub named_ids : List (ℕ × String) → List ℕ
named_ids [] = []
named_ids ((n, h) ∷ rest) = n ∷ named_ids rest

-- `sorted(set(wanted) - found)`
abbrev pub missing_ids : List (ℕ × String) → List PublicationPlan → List ℕ
missing_ids approvals plans =
    let found = map (λ (p : PublicationPlan). p.id) plans in
    sort leb (select (λ n. not (elem n found)) (dedup (named_ids approvals)))

abbrev pub raise_if_missing : List ℕ → Result ApprovalError (Unit {0})
raise_if_missing [] = ok tt
raise_if_missing (n ∷ ns) = err (plans_missing (n ∷ ns))

-- `plan.plan_hash != wanted[plan.id]`
abbrev pub hash_differs : Option String → String → Bool
hash_differs none h = true
hash_differs (some w) h = not (str_eq h w)

-- `snapshotted[suggestion_id] = plan`: an entry that is there keeps its place.
abbrev pub dict_set : ℕ → ℕ → List (ℕ × ℕ) → List (ℕ × ℕ)
dict_set k v [] = (k, v) ∷ []
dict_set k v ((j, w) ∷ d) = if j == k then (k, v) ∷ d else (j, w) ∷ dict_set k v d

abbrev pub dict_get : ℕ → List (ℕ × ℕ) → Option ℕ
dict_get k [] = none
dict_get k ((j, w) ∷ d) = if j == k then some w else dict_get k d

abbrev pub snapshot_plan : List (ℕ × ℕ) → ℕ → List Item → List (ℕ × ℕ)
snapshot_plan d plan_id [] = d
snapshot_plan d plan_id (item ∷ items) =
    snapshot_plan (dict_set item.suggestion_id plan_id d) plan_id items

-- The suggestions in the items of the plans, each with the id of its plan.
abbrev pub snapshotted_from : List (ℕ × ℕ) → List PublicationPlan → List (ℕ × ℕ)
snapshotted_from d [] = d
snapshotted_from d (p ∷ ps) = snapshotted_from (snapshot_plan d p.id p.items) ps

abbrev pub snapshotted : List PublicationPlan → List (ℕ × ℕ)
snapshotted plans = snapshotted_from [] plans

abbrev check_row : ℕ → ℕ → Option Suggestion → Result ApprovalError (Unit {0})
check_row suggestion_id plan_id none = err (suggestion_missing suggestion_id plan_id)
check_row suggestion_id plan_id (some row) = do
  raise_if (not (is_selected row.status)) (suggestion_not_selected suggestion_id plan_id row.status)
  elim row.publication_plan_id [
    | none ↦ ok tt
    | some other ↦ err (suggestion_bound suggestion_id plan_id other)
  ]

unfoldable pub check_suggestions : List Suggestion → List (ℕ × ℕ) → Result ApprovalError (Unit {0})
check_suggestions rows [] = ok tt
check_suggestions rows ((n, plan_id) ∷ d) = do
  check_row n plan_id (suggestion_by_id n rows)
  check_suggestions rows d

abbrev pub bind_row : List (ℕ × ℕ) → Suggestion → Suggestion
bind_row d r = elim (dict_get r.id d) [
  | none ↦ r
  | some plan_id ↦ record r { publication_plan_id = some plan_id }
]

abbrev pub approved_row : String → ℕ → PublicationPlan → PublicationPlan
approved_row approved_by approved_at p = record p {
  status = PlanStatus.approved;
  approved_hash = some p.plan_hash;
  approved_by = some approved_by;
  approved_at = some approved_at;
}

module _ (digest : Artifact → String) where
  unfoldable pub check_plan :
      ℕ → List (ℕ × String) → PublicationPlan → Result ApprovalError (Unit {0})
  check_plan site_id approvals p = do
    raise_if (not (p.site_id == site_id)) (other_site p.id)
    raise_if (not (is_prepared p.status)) (not_prepared p.id p.status)
    raise_if (hash_differs (wanted_hash approvals p.id) p.plan_hash) (hash_changed p.id)
    elim (verify_integrity digest p) [ none ↦ ok tt | some reason ↦ err (not_intact p.id reason) ]

  unfoldable pub check_plans :
      ℕ → List (ℕ × String) → List PublicationPlan → Result ApprovalError (Unit {0})
  check_plans site_id approvals [] = ok tt
  check_plans site_id approvals (p ∷ ps) = do
    check_plan site_id approvals p
    check_plans site_id approvals ps

  -- The approved plans and the new state, or the error, after which nothing is committed.
  unfoldable pub approve_plans :
      ℕ → List (ℕ × String) → String → ℕ → Db → Result ApprovalError (List PublicationPlan × Db)
  approve_plans site_id [] approved_by now db = err nothing_named
  approve_plans site_id (a ∷ rest) approved_by now db = do
    let approvals = a ∷ rest
    let plans = select (is_named approvals) db.plans
    raise_if_missing (missing_ids approvals plans)
    check_plans site_id approvals plans
    let d = snapshotted plans
    check_suggestions db.suggestions d
    ok (
      map (approved_row approved_by now) plans,
      record db {
        plans = update_where (is_named approvals) (approved_row approved_by now) db.plans;
        suggestions = map (bind_row d) db.suggestions;
      },
    )
