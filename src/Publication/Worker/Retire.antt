-- ===== src/Publication/Worker/Retire.antt =====
-- The ways a plan leaves the queue without a write: `mark_stale` of
-- app/services/publication_plan_service.py, `_fail_plan` and `_record_attempt_failure` of
-- app/tasks/publication.py.
use linking_engine_backend.Prelude.{
  ℕ, ◌+◌, ◌==◌, Bool, false, ◌&&◌, none, some, List, [], ◌∷◌, leb, if◌then◌else◌, update_where,
  count, elem, is_some_of,
}
use linking_engine_backend.Publication.Rows.{
  PublicationPlan, PlanStatus, Suggestion, SuggestionStatus, Reason, Db, is_approved_plan,
  is_selected, plan_by_id,
}

abbrev pub is_bound_to : ℕ → Suggestion → Bool
is_bound_to plan_id r = is_some_of r.publication_plan_id plan_id

abbrev pub stale_row : ℕ → Reason → PublicationPlan → PublicationPlan
stale_row now reason p = record p {
  status = PlanStatus.stale;
  invalidated_at = some now;
  failure_reason = some reason;
}

abbrev pub unbound_row : Suggestion → Suggestion
unbound_row r = record r { publication_plan_id = none }

unfoldable pub mark_stale : ℕ → ℕ → Reason → Db → Db
mark_stale now plan_id reason db = record db {
  plans = update_where (λ p. p.id == plan_id) (stale_row now reason) db.plans;
  suggestions = update_where (is_bound_to plan_id) unbound_row db.suggestions;
}

-- The status of a plan that may be gone.
abbrev pub is_approved_id : ℕ → Db → Bool
is_approved_id plan_id db = elim (plan_by_id plan_id db.plans) [
  | none ↦ false
  | some p ↦ is_approved_plan p.status
]

-- The database part of `_handle_stale_plan`.
unfoldable pub retire_stale : ℕ → ℕ → Reason → Db → Db
unfolding mark_stale
retire_stale now plan_id reason db =
    if is_approved_id plan_id db then mark_stale now plan_id reason db else db

abbrev pub failed_plan : ℕ → Reason → PublicationPlan → PublicationPlan
failed_plan now reason p = record p {
  status = PlanStatus.failed;
  invalidated_at = some now;
  failure_reason = some reason;
}

abbrev pub failed_suggestion : Reason → Suggestion → Suggestion
failed_suggestion reason r = record r {
  status = SuggestionStatus.failed;
  publish_error = some reason;
}

unfoldable pub fail_plan : ℕ → ℕ → Reason → Db → Db
fail_plan now plan_id reason db =
    if is_approved_id plan_id db
    then record db {
      plans = update_where (λ p. p.id == plan_id) (failed_plan now reason) db.plans;
      suggestions = update_where (is_bound_to plan_id) (failed_suggestion reason) db.suggestions;
    }
    else db

abbrev pub is_charged : List ℕ → Suggestion → Bool
is_charged ids r = elem r.id ids && is_selected r.status

abbrev pub charged_row : Reason → Suggestion → Suggestion
charged_row reason r = record r {
  publish_attempts = r.publish_attempts + 1;
  publish_error = some reason;
}

abbrev pub is_exhausted : ℕ → List ℕ → Suggestion → Bool
is_exhausted limit ids r = elem r.id ids && (is_selected r.status && leb limit r.publish_attempts)

-- The number of suggestions that this failure retires, and the new state.
unfoldable pub record_attempt_failure : ℕ → List ℕ → Reason → Db → ℕ × Db
record_attempt_failure limit [] reason db = (0, db)
record_attempt_failure limit (n ∷ ns) reason db =
    let charged = update_where (is_charged (n ∷ ns)) (charged_row reason) db.suggestions in
    (
      count (is_exhausted limit (n ∷ ns)) charged,
      record db {
        suggestions =
            update_where (is_exhausted limit (n ∷ ns))
              (λ r. record r { status = SuggestionStatus.failed }) charged;
      },
    )
