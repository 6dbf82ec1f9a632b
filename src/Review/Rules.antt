-- ===== src/Review/Rules.antt =====
-- Bulk reviews by a rule, and their undo (app/api/routes/suggestions.py).
--
-- Outside, and parameters: the clock, and the id of an operation (a random UUID). `matches` stands
-- for the conditions of a bulk rule on the title, the method, the origin of the target and
-- reciprocal pairs, which only read rows. A score of 1 is `200 * unit`.
use linking_engine_backend.Prelude.{
  ℕ, ◌*◌, ◌-◌, ◌==◌, Bool, true, false, not, ◌&&◌, String, str_eq, Option, none, some, List, [],
  ◌∷◌, ◌++◌, ltb, leb, if◌then◌else◌, is_none, select, update_where, find, count, elem, length,
  sort, Result, ok, err, ◌>>=◌, ◌>>◌,
}
use linking_engine_backend.Publication.Rows.{Suggestion, SuggestionStatus, Db}
use linking_engine_backend.Publication.Cohort.{ids_of}
use linking_engine_backend.Policy.Pool.{Site}
use linking_engine_backend.Access.{
  HttpException, http, Principal, authorize_site, site_by_id, tenant_scope, require_admin_principal,
}
use linking_engine_backend.Review.{
  status_code, has_status, is_bound_to_approved, review_row, check_tenants,
}

-- BulkReviewOperation, with the suggestion ids of its items
pub record BulkReviewOperation : Type 0 where
  pub id : String
  pub actor : String
  pub from_status : SuggestionStatus
  pub to_status : SuggestionStatus
  pub reviewed_count : ℕ
  pub undone_count : Option ℕ
  pub skipped_count : Option ℕ
  pub undone_at : Option ℕ
  pub items : List ℕ

-- BulkReviewFilter
pub record BulkRule : Type 0 where
  pub status : SuggestionStatus
  pub rejection_reason : Option String
  pub match_status : SuggestionStatus
  pub site_id : Option ℕ
  pub all_sites : Bool
  pub threshold_percent : ℕ
  pub matches : Suggestion → Bool

-- `_percent_boundary`: (percent - 0.5) / 100. At 0 percent the bound is negative, and every score
-- is above it.
abbrev pub percent_boundary : ℕ → ℕ → ℕ
percent_boundary unit percent = (2 * percent - 1) * unit

abbrev pub in_scope : List Site → Option ℕ → Suggestion → Bool
in_scope sites none r = true
in_scope sites (some t) r = elim (site_by_id r.site_id sites) [
  | none ↦ false
  | some site ↦ site.tenant_id == t
]

abbrev pub on_site : Option ℕ → Suggestion → Bool
on_site none r = true
on_site (some n) r = r.site_id == n

-- An approval takes scores at or above the threshold, a rejection those below it.
abbrev pub on_side : ℕ → BulkRule → Suggestion → Bool
on_side unit rule r =
    if status_code rule.status == 1
    then leb (percent_boundary unit rule.threshold_percent) r.score
    else if status_code rule.status == 2
    then ltb r.score (percent_boundary unit rule.threshold_percent)
    else true

-- `_queue_conditions`
abbrev pub queue_conditions : ℕ → List Site → Option ℕ → BulkRule → Suggestion → Bool
queue_conditions unit sites scope rule r =
    on_site rule.site_id r
    && (in_scope sites scope r
        && (has_status rule.match_status r && (on_side unit rule r && rule.matches r)))

-- MAX_BULK_REVIEW bounds the list of ids in an answer.
abbrev pub bounded_ids : ℕ → List ℕ → Option (List ℕ)
bounded_ids limit ids = if leb (length ids) limit then some (sort leb ids) else none

pub record BulkReviewFilterResult : Type 0 where
  pub reviewed : ℕ
  pub skipped : ℕ
  pub reviewed_ids : Option (List ℕ)
  pub undo_operation_id : Option String
  pub status : SuggestionStatus

pub record BulkReviewUndoResult : Type 0 where
  pub restored : ℕ
  pub skipped : ℕ
  pub status : SuggestionStatus
  pub already_undone : Bool

module _ (now : ℕ) (actor : String) where
  abbrev pub is_counted : (Suggestion → Bool) → Db → Suggestion → Bool
  is_counted conditions db r = conditions r && not (is_bound_to_approved db.plans r)

  -- `_review_matching_counts`: the number of matched rows, the ids that moved, the new state.
  unfoldable pub review_matching_counts :
      (Suggestion → Bool) → SuggestionStatus → Option String → Db → (ℕ × List ℕ) × Db
  review_matching_counts conditions status reason db = (
    (count conditions db.suggestions, ids_of (select (is_counted conditions db) db.suggestions)),
    record db {
      suggestions =
          update_where (is_counted conditions db) (review_row now actor reason status)
            db.suggestions;
    },
  )

  abbrev pub authorize_rule : List Site → Principal → BulkRule → Result HttpException (Unit {0})
  authorize_rule sites principal rule =
      if rule.all_sites then require_admin_principal principal else elim rule.site_id [
        | none ↦ ok tt
        | some n ↦ (authorize_site sites principal n >>= λ site. ok tt)
      ]

  -- An operation that moved no row is deleted.
  abbrev pub recorded :
      String → BulkRule → List ℕ → List BulkReviewOperation → List BulkReviewOperation
  recorded id rule [] operations = operations
  recorded id rule (n ∷ ns) operations =
      operations
      ++ record {
        id = id;
        actor = actor;
        from_status = rule.match_status;
        to_status = rule.status;
        reviewed_count = length (n ∷ ns);
        undone_count = none;
        skipped_count = none;
        undone_at = none;
        items = n ∷ ns;
      }
        ∷ []

  abbrev pub undo_id : String → List ℕ → Option String
  undo_id id [] = none
  undo_id id (n ∷ ns) = some id

  unfoldable pub bulk_review_by_filter :
      ℕ
      → ℕ
      → List Site
      → Principal
      → String
      → BulkRule
      → List BulkReviewOperation
      → Db
      → Result HttpException (BulkReviewFilterResult × List BulkReviewOperation × Db)
  unfolding review_matching_counts
  bulk_review_by_filter unit limit sites principal id rule operations db = do
    authorize_rule sites principal rule
    scope ← tenant_scope principal
    let r =
        review_matching_counts (queue_conditions unit sites scope rule) rule.status
          rule.rejection_reason db
    ok (
      record {
        reviewed = length r.0.1;
        skipped = r.0.0 - length r.0.1;
        reviewed_ids = bounded_ids limit r.0.1;
        undo_operation_id = undo_id id r.0.1;
        status = rule.status;
      },
      recorded id rule r.0.1 operations,
      r.1,
    )

  abbrev pub is_restored : BulkReviewOperation → Suggestion → Bool
  is_restored op r = elem r.id op.items && has_status op.to_status r

  abbrev pub count_or_zero : Option ℕ → ℕ
  count_or_zero none = 0
  count_or_zero (some n) = n

  abbrev pub undone_row : ℕ → BulkReviewOperation → BulkReviewOperation
  undone_row restored op = record op {
    undone_at = some now;
    undone_count = some restored;
    skipped_count = some (op.reviewed_count - restored);
  }

  -- The first undo restores; a later one returns what the first recorded.
  abbrev pub undo_operation :
      BulkReviewOperation
      → List BulkReviewOperation
      → Db
      → BulkReviewUndoResult × List BulkReviewOperation × Db
  undo_operation op operations db =
      let restored = count (is_restored op) db.suggestions in
      if is_none op.undone_at
      then (
        record {
          restored = restored;
          skipped = op.reviewed_count - restored;
          status = op.from_status;
          already_undone = false;
        },
        update_where (λ (o : BulkReviewOperation). str_eq o.id op.id) (undone_row restored)
            operations,
        record db {
          suggestions =
              update_where (is_restored op) (review_row now actor none op.from_status)
                db.suggestions;
        },
      )
      else (
        record {
          restored = count_or_zero op.undone_count;
          skipped = count_or_zero op.skipped_count;
          status = op.from_status;
          already_undone = true;
        },
        operations,
        db,
      )

  abbrev pub undo_found :
      List Site
      → Principal
      → Option BulkReviewOperation
      → List BulkReviewOperation
      → Db
      → Result HttpException (BulkReviewUndoResult × List BulkReviewOperation × Db)
  undo_found sites principal none operations db = err (http 404)
  undo_found sites principal (some op) operations db = do
    check_tenants now actor sites principal
        (select (λ (r : Suggestion). elem r.id op.items) db.suggestions)
    ok (undo_operation op operations db)

  unfoldable pub undo_filtered_bulk_review :
      List Site
      → Principal
      → String
      → List BulkReviewOperation
      → Db
      → Result HttpException (BulkReviewUndoResult × List BulkReviewOperation × Db)
  unfolding review_row
  undo_filtered_bulk_review sites principal id operations db =
      undo_found sites principal (find (λ (o : BulkReviewOperation). str_eq o.id id) operations)
        operations db
