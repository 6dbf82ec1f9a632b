-- ===== src/Publication/Tests/Data.antt =====
-- A site of three articles with a few suggestions, and one prepared plan.
use linking_engine_backend.Prelude.{ℕ, String, none, some, List, [], ◌∷◌, ok}
use linking_engine_backend.Publication.Rows.{
  PublicationPlan, PlanStatus, Suggestion, SuggestionStatus, inserted, Item, Db,
}
use linking_engine_backend.Publication.Artifact.{Artifact}
use linking_engine_backend.Publication.Connector.{Site}

-- A digest that tells edits apart by what they write.
abbrev pub digest : Artifact → String
digest a = a.updated_html

abbrev pub selected_link : ℕ → ℕ → ℕ → ℕ → Suggestion
selected_link id source target score = record {
  id = id;
  site_id = 1;
  source_article_id = source;
  target_article_id = some target;
  resolved_target_url = "https://a.example/post";
  score = score;
  bm25_score = none;
  status = SuggestionStatus.approved;
  anchor_text = none;
  publication_plan_id = none;
  publish_outcome = none;
  publish_attempts = 0;
  publish_error = none;
  reviewer_id = none;
  rejection_reason = none;
  reviewed_at = none;
  applied_at = none;
}

-- 7 and 8 are linked both ways, and 7 also links to 9.
abbrev pub links : List Suggestion
links = selected_link 11 7 8 80 ∷ selected_link 12 8 7 80 ∷ selected_link 13 7 9 60 ∷ []

abbrev pub item : Item
item = record {
  position = 0;
  suggestion_id = 11;
  target_url = "https://a.example/post";
  anchor_text = none;
  outcome = inserted;
}

abbrev pub prepared_plan : PublicationPlan
prepared_plan = record {
  id = 1;
  site_id = 1;
  source_article_id = 7;
  source_url = "https://a.example/7";
  status = PlanStatus.prepared;
  original_html = "old";
  updated_html = "new";
  items = item ∷ [];
  plan_hash = "new";
  approved_hash = none;
  approved_by = none;
  approved_at = none;
  applied_at = none;
  invalidated_at = none;
  failure_reason = none;
}

abbrev pub approved_plan : PublicationPlan
approved_plan = record prepared_plan {
  status = PlanStatus.approved;
  approved_hash = some "new";
  approved_by = some "ann";
  approved_at = some 5;
}

abbrev pub prepared_db : Db
prepared_db = record { plans = prepared_plan ∷ []; suggestions = links; next_plan_id = 2 }

abbrev pub bound_link : Suggestion
bound_link = record (selected_link 11 7 8 80) { publication_plan_id = some 1 }

abbrev pub approved_db : Db
approved_db = record {
  plans = approved_plan ∷ [];
  suggestions = bound_link ∷ selected_link 12 8 7 80 ∷ selected_link 13 7 9 60 ∷ [];
  next_plan_id = 2;
}

abbrev pub approvals : List (ℕ × String)
approvals = (1, "new") ∷ []

-- A site with one post; its state is the content of the post.
abbrev pub one_post : Site String
one_post = record { read = λ n s. ok s; post = λ n html s. (ok tt, html) }
