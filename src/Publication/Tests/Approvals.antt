-- ===== src/Publication/Tests/Approvals.antt =====
-- The approval of the prepared plan.
use linking_engine_backend.Prelude.{
  ℕ, ◌≢◌, ap, subst, arith, ◌≡◌, refl, true, none, some, List, [], ◌∷◌, ◌↔◌, ◌⊎◌, In, inl, inr, ok,
  err,
}
use linking_engine_backend.Publication.Rows.{
  PublicationPlan, Item, Db, is_approved_plan, is_selected,
}
use linking_engine_backend.Publication.Artifact.{compute_plan_hash, verify_integrity}
use linking_engine_backend.Publication.Approval.{
  approve_plans, check_plans, check_plan, check_suggestions, wanted_hash, plans_missing,
  hash_changed,
}
use linking_engine_backend.Publication.Approval.Effects.{approve_plans_binds}
use linking_engine_backend.Publication.Approval.Exactness.{IsApproved, approve_plans_iff}
use linking_engine_backend.Publication.Approval.Binding.{
  Snapshots, approve_plans_binds_suggestions, approve_plans_frame,
}
use linking_engine_backend.Publication.Tests.Data.{
  digest, item, prepared_plan, approved_plan, prepared_db, approved_db, approvals, selected_link,
}

approve_plans_run :
    approve_plans digest 1 approvals "ann" 5 prepared_db ≡ ok (approved_plan ∷ [], approved_db)
unfolding approve_plans check_plans check_plan check_suggestions verify_integrity
approve_plans_run = refl

-- A hash of an older screen, and a plan that is not there.
approve_plans_changed :
    approve_plans digest 1 ((1, "older") ∷ []) "ann" 5 prepared_db ≡ err (hash_changed 1)
unfolding approve_plans check_plans check_plan check_suggestions verify_integrity
approve_plans_changed = refl

approve_plans_missing :
    approve_plans digest 1 ((3, "x") ∷ (1, "new") ∷ (2, "x") ∷ []) "ann" 5 prepared_db
    ≡ err (plans_missing (2 ∷ 3 ∷ []))
unfolding approve_plans check_plans check_plan check_suggestions verify_integrity
approve_plans_missing = refl

approve_plans_iff_example :
    ((r : List PublicationPlan × Db) × (approve_plans digest 1 approvals "ann" 5 prepared_db
        ≡ ok r))
    ↔ IsApproved digest 1 approvals prepared_db
approve_plans_iff_example = approve_plans_iff digest 1 "ann" 5 prepared_db approvals

approve_plans_binds_example :
    ((wanted_hash approvals 1 ≡ some (compute_plan_hash digest approved_plan))
      × (approved_plan.approved_hash ≡ some (compute_plan_hash digest approved_plan))
      × (approved_plan.plan_hash ≡ compute_plan_hash digest approved_plan)
      × (approved_plan.approved_by ≡ some "ann")
      × (is_approved_plan approved_plan.status ≡ true)
      × (approved_plan.site_id ≡ 1))
    ⊎ ((wanted_hash approvals 1 ≡ none) × In approved_plan prepared_db.plans)
approve_plans_binds_example =
    approve_plans_binds digest 1 "ann" 5 prepared_db approvals (approved_plan ∷ [], approved_db)
      approved_plan approve_plans_run (inl refl)

approve_plans_binds_suggestions_example :
    (is_selected (selected_link 11 7 8 80).status ≡ true)
    × ((selected_link 11 7 8 80).publication_plan_id ≡ none)
    × (plan_id : ℕ) × Snapshots (prepared_plan ∷ []) 11 plan_id
    × In
        (record (selected_link 11 7 8 80) { publication_plan_id = some plan_id })
        approved_db.suggestions
approve_plans_binds_suggestions_example =
    approve_plans_binds_suggestions digest 1 approvals "ann" 5 prepared_db
      (approved_plan ∷ [], approved_db) approve_plans_run (selected_link 11 7 8 80) prepared_plan
      item refl (inl refl) (inl refl) refl (inl refl) refl

not_13 : (x : Item) → In x (item ∷ []) → x.suggestion_id ≢ 13
not_13 x (inl e) g = omega (arith, ap (λ (y : Item). y.suggestion_id) e)
not_13 x (inr i) g = absurd i

only_item : (plan_id : ℕ) → ¬ (Snapshots (prepared_plan ∷ []) 13 plan_id)
only_item plan_id (p, inl e, f, x, i, g) =
    not_13 x (subst (λ (q : PublicationPlan). In x q.items) e i) g
only_item plan_id (p, inr j, f, x, i, g) = absurd j

approve_plans_frame_example : In (selected_link 13 7 9 60) approved_db.suggestions
approve_plans_frame_example =
    approve_plans_frame digest 1 approvals "ann" 5 prepared_db (approved_plan ∷ [], approved_db)
      approve_plans_run (selected_link 13 7 9 60) (inr (inr (inl refl))) only_item
