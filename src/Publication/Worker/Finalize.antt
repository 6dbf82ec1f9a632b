-- ===== src/Publication/Worker/Finalize.antt =====
-- What the worker records after a write.
use linking_engine_backend.Prelude.{ℕ, ◌+◌, ◌==◌, ◌&&◌, none, some, List, [], ◌∷◌, update_where}
use linking_engine_backend.Publication.Rows.{
  PublicationPlan, PlanStatus, Suggestion, SuggestionStatus, LinkOutcome, inserted, block,
  already_present, Item,
}
use linking_engine_backend.Publication.Progress.{Progress, Outcomes, record_publication_applied}
use linking_engine_backend.Publication.Worker.Retire.{is_bound_to}

abbrev pub applied_suggestion : ℕ → LinkOutcome → Suggestion → Suggestion
applied_suggestion now outcome r = record r {
  status = SuggestionStatus.applied;
  applied_at = some now;
  publish_outcome = some outcome;
  publish_attempts = 0;
  publish_error = none;
}

-- The loop over the items: a suggestion that is gone is passed over.
unfoldable pub finalize_items : ℕ → ℕ → List Item → List Suggestion → List Suggestion
finalize_items now plan_id [] rows = rows
finalize_items now plan_id (item ∷ items) rows = finalize_items now plan_id items (
    update_where (λ r. r.id == item.suggestion_id && is_bound_to plan_id r)
      (applied_suggestion now item.outcome) rows)

-- `totals[outcome] += 1`
abbrev pub tally : LinkOutcome → Outcomes → Outcomes
tally inserted t = record t { inserted = t.inserted + 1 }
tally block t = record t { block = t.block + 1 }
tally already_present t = record t { already_present = t.already_present + 1 }

-- The counters over the same loop: every item counts, whether or not its suggestion is there.
unfoldable pub tally_items : List Item → Outcomes → Outcomes
tally_items [] t = t
tally_items (item ∷ items) t = tally_items items (tally item.outcome t)

unfoldable pub count_items : List Item → Progress → Progress
count_items [] p = p
count_items (item ∷ items) p = count_items items (record_publication_applied p)

abbrev pub applied_plan : ℕ → PublicationPlan → PublicationPlan
applied_plan now p = record p { status = PlanStatus.applied; applied_at = some now }
