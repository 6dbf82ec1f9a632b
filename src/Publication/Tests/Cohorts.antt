-- ===== src/Publication/Tests/Cohorts.antt =====
-- The cohort of the test site.
use linking_engine_backend.Prelude.{
  ℕ, ◌≡◌, refl, true, none, some, [], ◌∷◌, ◌↔◌, In, inl, inr, All, Pairwise, arith,
}
use linking_engine_backend.Publication.Rows.{Suggestion}
use linking_engine_backend.Publication.Cohort.{grouped_batch, batch_groups, same_pair}
use linking_engine_backend.Publication.Cohort.Ranks.{batch_ids}
use linking_engine_backend.Publication.Cohort.Batch.{
  grouped_batch_sound, grouped_batch_no_mutual_link, grouped_batch_narrowing, IsEligible,
  grouped_batch_covers_pairs,
}
use linking_engine_backend.Publication.Cohort.Order.{ComesFirst, IsRanked, batch_groups_ordered}
use linking_engine_backend.Publication.Tests.Data.{selected_link, links}

-- 12 is suppressed: of two equal scores the lower id wins.
grouped_batch-links : grouped_batch links 1 none ≡ ((7, 11 ∷ 13 ∷ []) ∷ [], [])
unfolding grouped_batch
grouped_batch-links = refl

-- Narrowing to the suppressed link prepares nothing.
grouped_batch-suppressed : grouped_batch links 1 (some (12 ∷ [])) ≡ ([], [])
unfolding grouped_batch
grouped_batch-suppressed = refl

grouped_batch_sound_example :
    (r : Suggestion) × In r links × (13 ≡ r.id) × IsEligible links 1 none r
unfolding grouped_batch
grouped_batch_sound_example = grouped_batch_sound links 1 none 13 (inr (inl refl))

seven_is_not_eight : ¬ (◌≡◌ {A = ℕ} 7 8)
seven_is_not_eight = λ e. ground (arith, e)

grouped_batch_no_mutual_link_example : ¬ (
    In 11 (batch_ids (grouped_batch links 1 none).0)
    × In 12 (batch_ids (grouped_batch links 1 none).0))
grouped_batch_no_mutual_link_example =
    grouped_batch_no_mutual_link links 1 refl none (selected_link 11 7 8 80)
      (selected_link 12 8 7 80) (inl refl) (inr (inl refl)) refl refl seven_is_not_eight

grouped_batch_narrowing_example :
    In 13 (batch_ids (grouped_batch links 1 (some (13 ∷ []))).0)
    ↔ (In 13 (batch_ids (grouped_batch links 1 none).0) × In {A = ℕ} 13 (13 ∷ []))
grouped_batch_narrowing_example =
    grouped_batch_narrowing links 1 refl (13 ∷ []) (selected_link 13 7 9 60) (inr (inr (inl refl)))

grouped_batch_covers_pairs_example :
    (w : Suggestion) × In w links
    × In w.id (batch_ids (grouped_batch links 1 none).0)
    × (same_pair (selected_link 12 8 7 80) w ≡ true)
grouped_batch_covers_pairs_example =
    grouped_batch_covers_pairs links 1 (selected_link 12 8 7 80) (inr (inl refl)) refl refl

batch_groups_ordered_example :
    Pairwise ComesFirst (batch_groups links 1 none) × All IsRanked (batch_groups links 1 none)
batch_groups_ordered_example = batch_groups_ordered links 1 none
