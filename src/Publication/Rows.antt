-- ===== src/Publication/Rows.antt =====
-- The rows of app/models/publication_plan.py and app/models/suggestion.py that publication reads
-- and writes, and the database that holds them.
--
-- A table is the list of its rows in the order of their ids. Scores are used only to compare, so
-- they are natural numbers: the cosine is a fixed-point float with an offset, a BM25 score one
-- without (it is not negative, and a missing one is the 0.0 of `_bm25`). A time is a natural number. The
-- text of a reason is a value of `Reason`: its wording and its cut at 500 characters are left out.
use linking_engine_backend.Prelude.{
  ℕ, ◌==◌, Bool, true, false, ◌&&◌, String, Option, List, is_none, find,
}

pub data PlanStatus : Type 0 where
  prepared approved applied stale superseded failed : PlanStatus

-- `plan.status == "prepared"`, and so on
abbrev pub is_prepared : PlanStatus → Bool
is_prepared s = elim s [ PlanStatus.prepared ↦ true | _ ↦ false ]

abbrev pub is_approved_plan : PlanStatus → Bool
is_approved_plan s = elim s [ PlanStatus.approved ↦ true | _ ↦ false ]

-- ACTIVE_PLAN_STATUSES
abbrev pub is_active : PlanStatus → Bool
is_active s = elim s [ PlanStatus.prepared ↦ true | PlanStatus.approved ↦ true | _ ↦ false ]

pub data SuggestionStatus : Type 0 where
  pending approved rejected expired applying applied failed : SuggestionStatus

abbrev pub is_selected : SuggestionStatus → Bool
is_selected s = elim s [ SuggestionStatus.approved ↦ true | _ ↦ false ]

abbrev pub is_applied : SuggestionStatus → Bool
is_applied s = elim s [ SuggestionStatus.applied ↦ true | _ ↦ false ]

-- LinkOutcome of app/connectors/base.py
pub data LinkOutcome : Type 0 where
  inserted block already_present : LinkOutcome

-- Why a row is terminal.
pub data Reason : Type 0 where
  newer_preparation : Reason
  not_selected_any_more : List ℕ → Reason
  article_changed : Reason
  stored_hash_differs : Reason
  approved_hash_differs : Reason
  source_article_gone : Reason
  connector_failed : String → Reason

-- One immutable link record of a plan.
pub record Item : Type 0 where
  pub position : ℕ
  pub suggestion_id : ℕ
  pub target_url : String
  pub anchor_text : Option String
  pub outcome : LinkOutcome

pub record PublicationPlan : Type 0 where
  pub id : ℕ
  pub site_id : ℕ
  pub source_article_id : ℕ
  pub source_url : String
  pub status : PlanStatus
  pub original_html : String
  pub updated_html : String
  pub items : List Item
  pub plan_hash : String
  pub approved_hash : Option String
  pub approved_by : Option String
  pub approved_at : Option ℕ
  pub applied_at : Option ℕ
  pub invalidated_at : Option ℕ
  pub failure_reason : Option Reason

pub record Suggestion : Type 0 where
  pub id : ℕ
  pub site_id : ℕ
  pub source_article_id : ℕ
  -- none for a target found by web search
  pub target_article_id : Option ℕ
  pub resolved_target_url : String
  pub score : ℕ
  -- `score_components["bm25_score"]`, where that is a number (0 is 0.0)
  pub bm25_score : Option ℕ
  pub status : SuggestionStatus
  pub anchor_text : Option String
  pub publication_plan_id : Option ℕ
  pub publish_outcome : Option LinkOutcome
  pub publish_attempts : ℕ
  pub publish_error : Option Reason
  pub reviewer_id : Option String
  pub rejection_reason : Option String
  pub reviewed_at : Option ℕ
  pub applied_at : Option ℕ

pub record Db : Type 0 where
  pub plans : List PublicationPlan
  pub suggestions : List Suggestion
  -- the next id of the plans' serial column
  pub next_plan_id : ℕ

-- `db.get(PublicationPlan, id)` and `db.get(Suggestion, id)`
abbrev pub plan_by_id : ℕ → List PublicationPlan → Option PublicationPlan
plan_by_id n plans = find (λ p. p.id == n) plans

abbrev pub suggestion_by_id : ℕ → List Suggestion → Option Suggestion
suggestion_by_id n rows = find (λ r. r.id == n) rows

-- Selected by an editor and part of no approved plan.
abbrev pub is_unbound_selection : Suggestion → Bool
is_unbound_selection r = is_selected r.status && is_none r.publication_plan_id
