-- ===== src/Review/Undo.antt =====
-- The undo of a bulk rule (`undo_filtered_bulk_review` of app/api/routes/suggestions.py).
pub mod Rows
use linking_engine_backend.Prelude.{
  ℕ, ◌≡◌, refl, sym, subst, ap, ◌∙◌, Bool, true, false, String, str_eq, str_eq_iff, Option, none,
  some, List, [], ◌∷◌, ◌++◌, map, if◌then◌else◌, select, update_where, find, find-append, count,
  elem, length, distinct, elem-In, In-elem, In-map, In-map_intro, In-select, In-select_intro,
  Bool-ext, distinct-injective, ok, >>=-returns, In, In-update_where_intro, Bool-cases, inl, inr,
  arith, ==_iff, ◌==◌,
}
use linking_engine_backend.Publication.Rows.{Suggestion, SuggestionStatus, Db}
use linking_engine_backend.Publication.Cohort.{ids_of}
use linking_engine_backend.Policy.Pool.{Site}
use linking_engine_backend.Access.{Principal, tenant_scope}
use linking_engine_backend.Review.{status_code, is_bound_to_approved, review_row, check_tenants}
use linking_engine_backend.Review.Rules.{
  is_counted, BulkRule, BulkReviewOperation, BulkReviewFilterResult, BulkReviewUndoResult,
  queue_conditions, authorize_rule, recorded, bulk_review_by_filter, is_restored, undo_operation,
  undo_found, undo_filtered_bulk_review,
}
use linking_engine_backend.Review.Undo.Rows.{
  elem_of_selected, id_and_status, map_restored, count_restored, status_code_injective,
}

module _ (now : ℕ) (actor : String) (sites : List Site) (principal : Principal) (id : String)
    (operations : List BulkReviewOperation) (db : Db) where
  -- What an accepted undo of a stored operation has done.
  undo_runs :
      (op : BulkReviewOperation) (r : BulkReviewUndoResult × List BulkReviewOperation × Db)
      → find (λ (o : BulkReviewOperation). str_eq o.id id) operations ≡ some op
      → undo_filtered_bulk_review now actor sites principal id operations db ≡ ok r
      → r ≡ undo_operation now actor op operations db
  unfolding undo_filtered_bulk_review
  undo_runs op r found e =
      let e' = rw (found, undo_found) at e in
      let (u, allowed, e₁) =
        >>=-returns
          (check_tenants now actor sites principal
            (select (λ (s : Suggestion). elem s.id op.items) db.suggestions))
          _ e' in
      ground (arith, e₁)

  -- The first undo of an operation takes a suggestion that still has the status which the rule gave
  -- it out of its plan, an approved one included: the suggestion has its status from before the
  -- rule and belongs to no plan, and every plan, the approved one too, is as it was.
  pub undo_takes_from_approved_plan :
      (op : BulkReviewOperation) (r : BulkReviewUndoResult × List BulkReviewOperation × Db)
      (s : Suggestion)
      → find (λ (o : BulkReviewOperation). str_eq o.id id) operations ≡ some op
      → op.undone_at ≡ none
      → In s db.suggestions
      → is_restored now actor op s ≡ true
      → is_bound_to_approved db.plans s ≡ true
      → undo_filtered_bulk_review now actor sites principal id operations db ≡ ok r
      → (s' : Suggestion) × In s' r.2.suggestions
        × (s'.id ≡ s.id)
        × (s'.status ≡ op.from_status)
        × (s'.publication_plan_id ≡ none)
        × (r.2.plans ≡ db.plans)
  unfolding review_row
  undo_takes_from_approved_plan op r s found fresh i hit bound e =
      let j =
        In-update_where_intro (is_restored now actor op) (review_row now actor none op.from_status)
          s db.suggestions i in
      let ran : r ≡ undo_operation now actor op operations db = undo_runs op r found e in
      rw (ran, fresh)
        (review_row now actor none op.from_status s, rw hit at j, refl, refl, refl, refl)

module _ (now later : ℕ) (actor actor' : String) (unit limit : ℕ) (sites : List Site) (id : String)
    (rule : BulkRule) (operations : List BulkReviewOperation) (db : Db)
    (keys : distinct (ids_of db.suggestions) ≡ true) (scope : Option ℕ) where
  abbrev moved : Suggestion → Bool
  moved = is_counted now actor (queue_conditions unit sites scope rule) db

  abbrev moved_ids : List ℕ
  moved_ids = ids_of (select moved db.suggestions)

  abbrev change : Suggestion → Suggestion
  change = review_row now actor rule.rejection_reason rule.status

  abbrev reviewed_db : Db
  reviewed_db = record db { suggestions = update_where moved change db.suggestions }

  -- The operation that the rule has stored, if it moved `ids`.
  abbrev stored : List ℕ → BulkReviewOperation
  stored ids = record {
    id = id;
    actor = actor;
    from_status = rule.match_status;
    to_status = rule.status;
    reviewed_count = length ids;
    undone_count = none;
    skipped_count = none;
    undone_at = none;
    items = ids;
  }

  restored_iff_moved :
      (s : Suggestion)
      → In s db.suggestions
      → is_restored later actor' (stored moved_ids) (if moved s then change s else s) ≡ moved s
  unfolding review_row
  restored_iff_moved s i =
      let known = elem_of_selected moved s db.suggestions keys i in
      elim (Bool-cases (moved s)) [
        | inl e ↦
            let listed : elem s.id moved_ids ≡ true = known ∙ e in
            let same : (status_code rule.status == status_code rule.status) ≡ true =
              (==_iff (status_code rule.status) (status_code rule.status)).1 refl in
            rw e (rw (listed, same) refl)
        | inr e ↦ let listed : elem s.id moved_ids ≡ false = known ∙ e in rw e (rw listed refl)
      ]

  given_back :
      (s : Suggestion)
      → In s db.suggestions
      → let s' = if moved s then change s else s in
        id_and_status (
          if is_restored later actor' (stored moved_ids) s'
          then review_row later actor' none rule.match_status s'
          else s')
        ≡ id_and_status s
  unfolding review_row
  given_back s i =
      let back = restored_iff_moved s i in
      elim (Bool-cases (moved s)) [
        | inl e ↦
            let here : is_restored later actor' (stored moved_ids) (change s) ≡ true =
              rw e at back in
            let was : rule.match_status ≡ s.status =
              status_code_injective rule.match_status s.status (ground (arith, e)) in
            rw (e, here) (ap (λ x. (s.id, x)) was)
        | inr e ↦
            let here : is_restored later actor' (stored moved_ids) s ≡ false = rw e at back in
            rw (e, here) refl
      ]

  -- The state, the answer and the operations after an accepted rule, where `ids` are those moved.
  abbrev Ran : BulkReviewFilterResult → List BulkReviewOperation → Db → Type 0
  Ran answer operations' db' =
      (answer.reviewed ≡ length moved_ids)
      × (operations' ≡ recorded now actor id rule moved_ids operations)
      × (db' ≡ reviewed_db)

  undone :
      (principal' : Principal) (ids : List ℕ) (answer : BulkReviewFilterResult)
      (operations' : List BulkReviewOperation) (db' : Db)
      (r : BulkReviewUndoResult × List BulkReviewOperation × Db)
      → ids ≡ moved_ids
      → Ran answer operations' db'
      → find (λ (o : BulkReviewOperation). str_eq o.id id) operations ≡ none
      → undo_filtered_bulk_review later actor' sites principal' id operations' db' ≡ ok r
      → r ≡ undo_operation later actor' (stored moved_ids) operations' db'
  unfolding undo_filtered_bulk_review
  undone principal' [] answer operations' db' r none_moved (count, kept, state) fresh e =
      let same : operations' ≡ operations =
        kept ∙ ap (λ ids. recorded now actor id rule ids operations) (sym none_moved) in
      let e' = rw (same, fresh, undo_found) at e in absurd (ground (arith, e'))
  undone principal' (n ∷ ns) answer operations' db' r some_moved (count, kept, state) fresh e =
      let found : find (λ (o : BulkReviewOperation). str_eq o.id id) operations'
          ≡ some (stored moved_ids) =
        let grown : operations' ≡ operations ++ stored (n ∷ ns) ∷ [] =
          kept ∙ ap (λ ids. recorded now actor id rule ids operations) (sym some_moved) in
        rw grown (
          find-append (λ (o : BulkReviewOperation). str_eq o.id id) (stored (n ∷ ns)) operations
            fresh ((str_eq_iff id id).1 refl)
          ∙ ap (λ ids. some (stored ids)) some_moved) in
      undo_runs later actor' sites principal' id operations' db' (stored moved_ids) r found e

  all_given_back :
      (r : BulkReviewUndoResult × List BulkReviewOperation × Db) (answer : BulkReviewFilterResult)
      (operations' : List BulkReviewOperation) (db' : Db)
      → Ran answer operations' db'
      → r ≡ undo_operation later actor' (stored moved_ids) operations' db'
      → (map id_and_status r.2.suggestions ≡ map id_and_status db.suggestions)
        × (r.0.restored ≡ answer.reviewed)
        × (r.0.skipped ≡ 0)
  all_given_back r answer operations' db' (counted, kept, state) ran =
      let back =
        map_restored moved (is_restored later actor' (stored moved_ids)) change
          (review_row later actor' none rule.match_status) db.suggestions given_back in
      let number =
        count_restored moved (is_restored later actor' (stored moved_ids)) change db.suggestions
          restored_iff_moved in
      rw (ran, state) (back, number ∙ sym counted, omega (arith, number))

filter_ran :
    (now : ℕ) (actor : String) (unit limit : ℕ) (sites : List Site) (principal : Principal)
    (id : String) (rule : BulkRule) (operations operations' : List BulkReviewOperation)
    (db db' : Db) (answer : BulkReviewFilterResult)
    → bulk_review_by_filter now actor unit limit sites principal id rule operations db
      ≡ ok (answer, operations', db')
    → (scope : Option ℕ) × (answer.reviewed
        ≡ length (
            ids_of (
              select
                (is_counted now actor (queue_conditions unit sites scope rule) db)
                db.suggestions)))
      × (operations'
          ≡ recorded now actor id rule
              (ids_of (
                select
                  (is_counted now actor (queue_conditions unit sites scope rule) db)
                  db.suggestions))
              operations)
      × (db' ≡ record db {
        suggestions =
            update_where
              (is_counted now actor (queue_conditions unit sites scope rule) db)
              (review_row now actor rule.rejection_reason rule.status)
              db.suggestions;
      })
unfolding bulk_review_by_filter
filter_ran now actor unit limit sites principal id rule operations operations' db db' answer e =
    let (u, allowed, e₁) = >>=-returns (authorize_rule now actor sites principal rule) _ e in
    let (scope, scoped, e₂) = >>=-returns (tenant_scope principal) _ e₁ in
    (scope, ground (arith, e₂), ground (arith, e₂), ground (arith, e₂))

-- A bulk rule that is undone before anything else happens leaves no trace in the statuses: with
-- the ids as a primary key and a new operation id, every suggestion has the id and the status that
-- it had, as many are restored as were reviewed, and none is skipped.
pub undo_restores :
    (now later : ℕ) (actor actor' : String) (unit limit : ℕ) (sites : List Site)
    (principal principal' : Principal) (id : String) (rule : BulkRule)
    (operations operations' : List BulkReviewOperation) (db db' : Db)
    (answer : BulkReviewFilterResult) (r : BulkReviewUndoResult × List BulkReviewOperation × Db)
    → distinct (ids_of db.suggestions) ≡ true
    → find (λ (o : BulkReviewOperation). str_eq o.id id) operations ≡ none
    → bulk_review_by_filter now actor unit limit sites principal id rule operations db
      ≡ ok (answer, operations', db')
    → undo_filtered_bulk_review later actor' sites principal' id operations' db' ≡ ok r
    → (map id_and_status r.2.suggestions ≡ map id_and_status db.suggestions)
      × (r.0.restored ≡ answer.reviewed)
      × (r.0.skipped ≡ 0)
undo_restores now later actor actor' unit limit sites principal principal' id rule operations
      operations' db db' answer r keys fresh e f =
    let (scope, counted, kept, state) =
      filter_ran now actor unit limit sites principal id rule operations operations' db db' answer
        e in
    all_given_back now later actor actor' unit limit sites id rule operations db keys scope r answer
      operations' db' (counted, kept, state)
      (undone now later actor actor' unit limit sites id rule operations db keys scope principal'
        (moved_ids now later actor actor' unit limit sites id rule operations db keys scope) answer
        operations' db' r refl (counted, kept, state) fresh f)
