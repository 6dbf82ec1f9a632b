-- ===== src/Review.antt =====
-- Editorial review of suggestions (app/api/routes/suggestions.py).
--
-- Outside, and a parameter: the clock. The names of actors are not cut at 255 characters. The
-- events that triggers write, and the rendering of results, are left out. Reviews by a rule are in
-- Rules.
pub mod Bound
pub mod Rules
pub mod Undo
mod Tests
use linking_engine_backend.Prelude.{
  ℕ, ◌+◌, ◌*◌, ◌-◌, ◌==◌, Bool, true, false, not, ◌&&◌, ◌||◌, String, str_eq, Option, none, some,
  List, [], ◌∷◌, ◌++◌, ltb, leb, if◌then◌else◌, is_none, is_some_of, select, update_where, find,
  count, elem, length, sort, Result, ok, err, raise_if, ◌>>=◌, ◌>>◌,
}
use linking_engine_backend.Publication.Rows.{
  PublicationPlan, Suggestion, SuggestionStatus, Db, is_approved_plan, suggestion_by_id,
}
use linking_engine_backend.Publication.Cohort.{ids_of}
use linking_engine_backend.Policy.Pool.{Site}
use linking_engine_backend.Access.{
  HttpException, http, Principal, check_site_access, authorize_site, site_by_id, tenant_scope,
  require_admin_principal,
}

abbrev pub status_code : SuggestionStatus → ℕ
status_code s = elim s [
  | SuggestionStatus.pending ↦ 0
  | SuggestionStatus.approved ↦ 1
  | SuggestionStatus.rejected ↦ 2
  | SuggestionStatus.expired ↦ 3
  | SuggestionStatus.applying ↦ 4
  | SuggestionStatus.applied ↦ 5
  | SuggestionStatus.failed ↦ 6
]

abbrev pub has_status : SuggestionStatus → Suggestion → Bool
has_status s r = status_code r.status == status_code s

-- UNREVIEWABLE
abbrev pub is_unreviewable : Suggestion → Bool
is_unreviewable r =
    has_status SuggestionStatus.applying r
    || (has_status SuggestionStatus.applied r || has_status SuggestionStatus.expired r)

abbrev pub is_plan_of : Suggestion → PublicationPlan → Bool
is_plan_of r p = is_some_of r.publication_plan_id p.id && is_approved_plan p.status

abbrev pub exists_plan : (PublicationPlan → Bool) → List PublicationPlan → Bool
exists_plan t [] = false
exists_plan t (p ∷ ps) = t p || exists_plan t ps

-- `_bound_to_an_approved_plan`
abbrev pub is_bound_to_approved : List PublicationPlan → Suggestion → Bool
is_bound_to_approved plans r = exists_plan (is_plan_of r) plans

abbrev pub reviewer_of : SuggestionStatus → String → Option String
reviewer_of status actor = if str_eq actor "" || status_code status == 0 then none else some actor

-- `_review_values`
unfoldable pub review_row : ℕ → String → Option String → SuggestionStatus → Suggestion → Suggestion
review_row now actor reason status r = record r {
  status = status;
  reviewed_at = if status_code status == 0 then none else some now;
  publish_attempts = 0;
  publish_error = none;
  publication_plan_id = none;
  reviewer_id = reviewer_of status actor;
  rejection_reason = if status_code status == 2 then reason else none;
}

module _ (now : ℕ) (actor : String) where
  abbrev pub is_reviewable : (Suggestion → Bool) → Db → Suggestion → Bool
  is_reviewable conditions db r =
      conditions r && (not (is_unreviewable r) && not (is_bound_to_approved db.plans r))

  -- The ids that moved, and the new state.
  unfoldable pub review_matching :
      (Suggestion → Bool) → SuggestionStatus → Option String → Db → List ℕ × Db
  review_matching conditions status reason db = (
    ids_of (select (is_reviewable conditions db) db.suggestions),
    record db {
      suggestions =
          update_where (is_reviewable conditions db) (review_row now actor reason status)
            db.suggestions;
    },
  )

  abbrev pub review_ids : List ℕ → SuggestionStatus → Option String → Db → List ℕ × Db
  review_ids ids status reason db = review_matching (λ r. elem r.id ids) status reason db

  -- The check of every row's site, before any row changes.
  abbrev pub check_tenants :
      List Site → Principal → List Suggestion → Result HttpException (Unit {0})
  check_tenants sites principal [] = ok tt
  check_tenants sites principal (r ∷ rows) = do
    elim (site_by_id r.site_id sites) [
      | none ↦ ok tt
      | some site ↦ check_site_access principal site.tenant_id
    ]
    check_tenants sites principal rows

  -- The rows that the join with the sites returns for the ids.
  abbrev pub known_rows : List Site → List ℕ → Db → List Suggestion
  known_rows sites ids db =
      select (λ r. elem r.id ids && not (is_none (site_by_id r.site_id sites))) db.suggestions

  abbrev pub without : List ℕ → List ℕ → List ℕ
  without [] ns = []
  without (m ∷ ms) ns = let rest = without ms ns in if elem m ns then rest else m ∷ rest

  -- The ids that were reviewed, and those that were skipped.
  unfoldable pub bulk_review :
      List Site
      → Principal
      → List ℕ
      → SuggestionStatus
      → Option String
      → Db
      → Result HttpException ((List ℕ × List ℕ) × Db)
  unfolding review_matching
  bulk_review sites principal ids status reason db = do
    let existing = ids_of (known_rows sites ids db)
    check_tenants sites principal (known_rows sites ids db)
    let r = review_ids existing status reason db
    ok ((sort leb r.0, sort leb (without existing r.0)), r.1)

  abbrev pub raise_if_none : List ℕ → Result HttpException (Unit {0})
  raise_if_none [] = err (http 409)
  raise_if_none (n ∷ ns) = ok tt

  abbrev pub review_found :
      List Site
      → Principal
      → Option Suggestion
      → SuggestionStatus
      → Option String
      → Db
      → Result HttpException Db
  review_found sites principal none status reason db = err (http 404)
  review_found sites principal (some r) status reason db = do
    site ← authorize_site sites principal r.site_id
    let reviewed = review_ids (r.id ∷ []) status reason db
    raise_if_none reviewed.0
    ok reviewed.1

  unfoldable pub review_suggestion :
      List Site → Principal → ℕ → SuggestionStatus → Option String → Db → Result HttpException Db
  unfolding review_matching
  review_suggestion sites principal id status reason db =
      review_found sites principal (suggestion_by_id id db.suggestions) status reason db
