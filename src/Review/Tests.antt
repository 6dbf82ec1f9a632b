-- ===== src/Review/Tests.antt =====
-- Reviews of a small queue, and the undo of a rule after its link was approved for publication.
use linking_engine_backend.Prelude.{
  ℕ, ◌≡◌, refl, inl, true, false, String, none, some, [], ◌∷◌, ok, err, In, map,
}
use linking_engine_backend.Publication.Rows.{
  PublicationPlan, PlanStatus, Suggestion, SuggestionStatus, LinkOutcome, Item, Db,
}
use linking_engine_backend.Publication.Artifact.{Artifact}
use linking_engine_backend.Publication.Connector
use linking_engine_backend.Publication.Worker.{Turn, Run, process_plan}
use linking_engine_backend.Publication.Progress.{begin_publication_attempt}
use linking_engine_backend.Policy.Pool.{Site, Platform}
use linking_engine_backend.Access.{Principal, Source, http, authorize_site}
use linking_engine_backend.Review.{bulk_review, review_row, review_suggestion}
use linking_engine_backend.Review.Rules.{
  BulkReviewOperation, BulkRule, bulk_review_by_filter, undo_filtered_bulk_review,
}
use linking_engine_backend.Review.Bound.{none_yet, and_then, bulk, Keeps, Reviews-Keeps}
use linking_engine_backend.Review.Undo.Rows.{id_and_status}
use linking_engine_backend.Review.Undo.{undo_takes_from_approved_plan, undo_restores}

abbrev pending_link : ℕ → Suggestion
pending_link id = record {
  id = id;
  site_id = 1;
  source_article_id = 7;
  target_article_id = some 8;
  resolved_target_url = "https://a.example/post";
  score = 180;
  bm25_score = none;
  status = SuggestionStatus.pending;
  anchor_text = none;
  publication_plan_id = none;
  publish_outcome = none;
  publish_attempts = 0;
  publish_error = none;
  reviewer_id = none;
  rejection_reason = none;
  reviewed_at = none;
  applied_at = none;
}

abbrev item : Item
item = record {
  position = 0;
  suggestion_id = 1;
  target_url = "https://a.example/post";
  anchor_text = none;
  outcome = LinkOutcome.block;
}

-- The digest of an artifact is its new content.
abbrev digest : Artifact → String
digest a = a.updated_html

abbrev plan : PublicationPlan
plan = record {
  id = 5;
  site_id = 1;
  source_article_id = 7;
  source_url = "https://a.example/source";
  status = PlanStatus.approved;
  original_html = "old";
  updated_html = "new";
  items = item ∷ [];
  plan_hash = "new";
  approved_hash = some "new";
  approved_by = some "alice";
  approved_at = some 3;
  applied_at = none;
  invalidated_at = none;
  failure_reason = none;
}

abbrev site : Site
site = record {
  id = 1;
  tenant_id = 1;
  base_url = [];
  platform = Platform.wordpress;
  pool_source_approved = false;
}

abbrev admin : Principal
admin = record {
  is_admin = true;
  source = Source.operator;
  tenant_id = none;
  key_id = none;
  operator_id = some "alice";
}

abbrev rule : BulkRule
rule = record {
  status = SuggestionStatus.approved;
  rejection_reason = none;
  match_status = SuggestionStatus.pending;
  site_id = none;
  all_sites = true;
  threshold_percent = 80;
  matches = λ r. true;
}

abbrev queue : Db
queue = record {
  plans = [];
  suggestions = pending_link 1 ∷ record (pending_link 2) { score = 20 } ∷ [];
  next_plan_id = 5;
}

abbrev approved_link : Suggestion
approved_link = record (pending_link 1) {
  status = SuggestionStatus.approved;
  reviewer_id = some "alice";
  reviewed_at = some 1;
}

abbrev reviewed : Db
reviewed = record queue {
  suggestions = approved_link ∷ record (pending_link 2) { score = 20 } ∷ [];
}

abbrev operation : BulkReviewOperation
operation = record {
  id = "op";
  actor = "alice";
  from_status = SuggestionStatus.pending;
  to_status = SuggestionStatus.approved;
  reviewed_count = 1;
  undone_count = none;
  skipped_count = none;
  undone_at = none;
  items = 1 ∷ [];
}

rule_approves :
    bulk_review_by_filter 1 "alice" 1 10 (site ∷ []) admin "op" rule [] queue
    ≡ ok (
      record {
        reviewed = 1;
        skipped = 0;
        reviewed_ids = some (1 ∷ []);
        undo_operation_id = some "op";
        status = SuggestionStatus.approved;
      },
      operation ∷ [],
      reviewed,
    )
unfolding bulk_review_by_filter review_row
rule_approves = refl

abbrev undone : Db
undone = record queue { suggestions = pending_link 1 ∷ record (pending_link 2) { score = 20 } ∷ [] }

abbrev undone_operation : BulkReviewOperation
undone_operation = record operation {
  undone_at = some 2;
  undone_count = some 1;
  skipped_count = some 0;
}

undo_runs_once :
    undo_filtered_bulk_review 2 "alice" (site ∷ []) admin "op" (operation ∷ []) reviewed
    ≡ ok (
      record {
        restored = 1;
        skipped = 0;
        status = SuggestionStatus.pending;
        already_undone = false;
      },
      undone_operation ∷ [],
      undone,
    )
unfolding undo_filtered_bulk_review
undo_runs_once = refl

undo_restores_example :
    (map id_and_status undone.suggestions ≡ map id_and_status queue.suggestions)
    × (◌≡◌ {A = ℕ} 1 1)
    × (◌≡◌ {A = ℕ} 0 0)
undo_restores_example =
    undo_restores 1 2 "alice" "alice" 1 10 (site ∷ []) admin admin "op" rule [] (operation ∷ [])
      queue reviewed _ _ refl refl rule_approves undo_runs_once

-- The link was prepared and approved for publication after the rule.
abbrev bound_link : Suggestion
bound_link = record approved_link { publication_plan_id = some 5 }

abbrev bound : Db
bound = record reviewed {
  plans = plan ∷ [];
  suggestions = bound_link ∷ record (pending_link 2) { score = 20 } ∷ [];
}

abbrev unbound : Db
unbound = record bound {
  suggestions = pending_link 1 ∷ record (pending_link 2) { score = 20 } ∷ [];
}

undo_unbinds :
    undo_filtered_bulk_review 4 "alice" (site ∷ []) admin "op" (operation ∷ []) bound
    ≡ ok (
      record {
        restored = 1;
        skipped = 0;
        status = SuggestionStatus.pending;
        already_undone = false;
      },
      record undone_operation { undone_at = some 4 } ∷ [],
      unbound,
    )
unfolding undo_filtered_bulk_review
undo_unbinds = refl

-- A single review of the same row is refused.
single_review_is_refused :
    review_suggestion 4 "alice" (site ∷ []) admin 1 SuggestionStatus.pending none bound
    ≡ err (http 409)
unfolding review_suggestion authorize_site
single_review_is_refused = refl

undo_takes_from_approved_plan_example :
    (s' : Suggestion) × In s' unbound.suggestions
    × (s'.id ≡ 1)
    × (s'.status ≡ SuggestionStatus.pending)
    × (s'.publication_plan_id ≡ none)
    × (unbound.plans ≡ bound.plans)
undo_takes_from_approved_plan_example =
    undo_takes_from_approved_plan 4 "alice" (site ∷ []) admin "op" (operation ∷ []) bound operation
      _ bound_link refl refl (inl refl) refl refl undo_unbinds

abbrev one_post : Connector.Site String
one_post = record { read = λ n s. ok s; post = λ n html s. (ok tt, html) }

abbrev quiet : Turn
quiet = record { before_lock = λ db. db; after_rollback = λ db. db; commits = true }

abbrev start : Run String
start = record {
  db = unbound;
  remote = "old";
  progress = begin_publication_attempt none 1;
  totals = record { inserted = 0; block = 0; already_present = 0 };
  retryable = false;
  alerts = [];
}

-- The worker still writes the link whose selection was undone.
undone_link_is_written :
    (process_plan one_post digest (λ n. some (some 70)) 3 6 quiet plan start).remote ≡ "new"
unfolding process_plan
undone_link_is_written = refl

abbrev rejected_link : Suggestion
rejected_link = record (pending_link 2) {
  score = 20;
  status = SuggestionStatus.rejected;
  reviewer_id = some "alice";
  rejection_reason = some "thin";
  reviewed_at = some 5;
}

abbrev bound_after : Db
bound_after = record bound { suggestions = bound_link ∷ rejected_link ∷ [] }

bulk_skips_bound :
    bulk_review 5 "alice"
      (site ∷ [])
      admin
      (2 ∷ 1 ∷ 9 ∷ [])
      SuggestionStatus.rejected
      (some "thin")
      bound
    ≡ ok ((2 ∷ [], 1 ∷ []), bound_after)
unfolding bulk_review review_row
bulk_skips_bound = refl

Reviews-Keeps_example : Keeps bound_link bound bound_after
Reviews-Keeps_example = Reviews-Keeps (site ∷ []) bound_link bound bound_after (inl refl) refl (
    and_then none_yet (
      bulk 5 "alice" admin (2 ∷ 1 ∷ 9 ∷ []) SuggestionStatus.rejected (some "thin") _
        bulk_skips_bound))
