-- ===== src/Review/Bound.antt =====
-- Reviews and the suggestions of an approved plan (app/api/routes/suggestions.py).
use linking_engine_backend.Prelude.{
  ℕ, ◌≡◌, refl, sym, subst, ◌∙◌, Bool, true, false, String, Option, none, some, List, [], ◌∷◌, ok,
  >>=-returns, In, In-update_where_intro, elem, arith,
}
use linking_engine_backend.Publication.Rows.{Suggestion, SuggestionStatus, Db, suggestion_by_id}
use linking_engine_backend.Publication.Cohort.{ids_of}
use linking_engine_backend.Policy.Pool.{Site}
use linking_engine_backend.Access.{Principal, authorize_site, tenant_scope}
use linking_engine_backend.Review.{
  is_bound_to_approved, is_reviewable, review_row, review_matching, review_ids, known_rows,
  check_tenants, bulk_review, raise_if_none, review_found, review_suggestion,
}
use linking_engine_backend.Review.Rules.{
  is_counted, BulkRule, BulkReviewOperation, BulkReviewFilterResult, queue_conditions,
  authorize_rule, review_matching_counts, bulk_review_by_filter,
}

-- One accepted review request, from one state of the database to the next.
pub data ReviewStep (sites : List Site) (db db' : Db) : Type 0 where
  bulk :
      (now : ℕ) (actor : String) (principal : Principal) (ids : List ℕ) (status : SuggestionStatus)
      (reason : Option String) (answer : List ℕ × List ℕ)
      → bulk_review now actor sites principal ids status reason db ≡ ok (answer, db')
      → ReviewStep sites db db'
  single :
      (now : ℕ) (actor : String) (principal : Principal) (id : ℕ) (status : SuggestionStatus)
      (reason : Option String)
      → review_suggestion now actor sites principal id status reason db ≡ ok db'
      → ReviewStep sites db db'
  by_filter :
      (now : ℕ) (actor : String) (unit limit : ℕ) (principal : Principal) (id : String)
      (rule : BulkRule) (operations operations' : List BulkReviewOperation)
      (answer : BulkReviewFilterResult)
      → bulk_review_by_filter now actor unit limit sites principal id rule operations db
        ≡ ok (answer, operations', db')
      → ReviewStep sites db db'

pub data Reviews (sites : List Site) (db : Db) : Db → Type 0 where
  none_yet : Reviews sites db db
  and_then : {d d' : Db} → Reviews sites db d → ReviewStep sites d d' → Reviews sites db d'

-- The row `r` is as it was, and so are the plans.
abbrev pub Keeps : Suggestion → Db → Db → Type 0
Keeps r db db' = In r db'.suggestions × (db'.plans ≡ db.plans)

module _ (r : Suggestion) (db : Db) (i : In r db.suggestions)
    (bound : is_bound_to_approved db.plans r ≡ true) where
  review_matching-Keeps :
      (now : ℕ) (actor : String) (conditions : Suggestion → Bool) (status : SuggestionStatus)
      (reason : Option String)
      → Keeps r db (review_matching now actor conditions status reason db).1
  unfolding review_matching
  review_matching-Keeps now actor conditions status reason =
      let j =
        In-update_where_intro (is_reviewable now actor conditions db)
          (review_row now actor reason status) r db.suggestions i in
      let out : is_reviewable now actor conditions db r ≡ false = ground (arith, bound) in
      (rw out at j, refl)

  review_matching_counts-Keeps :
      (now : ℕ) (actor : String) (conditions : Suggestion → Bool) (status : SuggestionStatus)
      (reason : Option String)
      → Keeps r db (review_matching_counts now actor conditions status reason db).1
  unfolding review_matching_counts
  review_matching_counts-Keeps now actor conditions status reason =
      let j =
        In-update_where_intro (is_counted now actor conditions db)
          (review_row now actor reason status) r db.suggestions i in
      let out : is_counted now actor conditions db r ≡ false = ground (arith, bound) in
      (rw out at j, refl)

  review_found-Keeps :
      (now : ℕ) (actor : String) (sites : List Site) (principal : Principal)
      (found : Option Suggestion) (status : SuggestionStatus) (reason : Option String) (db' : Db)
      → review_found now actor sites principal found status reason db ≡ ok db'
      → Keeps r db db'
  review_found-Keeps now actor sites principal none status reason db' e = absurd (ground arith)
  review_found-Keeps now actor sites principal (some s) status reason db' e =
      let (site, allowed, e₁) = >>=-returns (authorize_site sites principal s.site_id) _ e in
      let (u, moved, e₂) =
        >>=-returns (raise_if_none now actor (review_ids now actor (s.id ∷ []) status reason db).0)
          _ e₁ in
      let same : (review_ids now actor (s.id ∷ []) status reason db).1 ≡ db' = ground (arith, e₂) in
      subst (Keeps r db) same
        (review_matching-Keeps now actor (λ (x : Suggestion). elem x.id (s.id ∷ [])) status reason)

  ReviewStep-Keeps : (sites : List Site) (db' : Db) → ReviewStep sites db db' → Keeps r db db'
  unfolding bulk_review review_suggestion bulk_review_by_filter
  ReviewStep-Keeps sites db' (bulk now actor principal ids status reason answer e) =
      let (u, allowed, e₁) =
        >>=-returns (check_tenants now actor sites principal (known_rows now actor sites ids db)) _
          e in
      let existing = ids_of (known_rows now actor sites ids db) in
      let same : (review_ids now actor existing status reason db).1 ≡ db' = ground (arith, e₁) in
      subst (Keeps r db) same
        (review_matching-Keeps now actor (λ (x : Suggestion). elem x.id existing) status reason)
  ReviewStep-Keeps sites db' (single now actor principal id status reason e) =
      review_found-Keeps now actor sites principal (suggestion_by_id id db.suggestions) status
        reason db' e
  ReviewStep-Keeps sites db' (by_filter now actor unit limit principal id rule ops ops' answer e) =
      let (u, allowed, e₁) = >>=-returns (authorize_rule now actor sites principal rule) _ e in
      let (scope, scoped, e₂) = >>=-returns (tenant_scope principal) _ e₁ in
      let same : (review_matching_counts now actor (queue_conditions unit sites scope rule)
            rule.status rule.rejection_reason db).1
          ≡ db' =
        ground (arith, e₂) in
      subst (Keeps r db) same (
        review_matching_counts-Keeps now actor (queue_conditions unit sites scope rule) rule.status
          rule.rejection_reason)

-- No sequence of reviews, single, bulk or by a rule, changes a suggestion that belongs to an
-- approved plan, or any plan.
pub Reviews-Keeps :
    (sites : List Site) (r : Suggestion) (db db' : Db)
    → In r db.suggestions
    → is_bound_to_approved db.plans r ≡ true
    → Reviews sites db db'
    → Keeps r db db'
Reviews-Keeps sites r db db' i bound none_yet = (i, refl)
Reviews-Keeps sites r db db' i bound (and_then {d = d} rs step) =
    let (j, same) = Reviews-Keeps sites r db d i bound rs in
    let (k, same') =
      ReviewStep-Keeps r d j (subst (λ plans. is_bound_to_approved plans r ≡ true) (sym same) bound)
        sites db' step in
    (k, same' ∙ same)
