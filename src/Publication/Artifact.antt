-- ===== src/Publication/Artifact.antt =====
-- The artifact of a plan and its hash (app/services/publication_plan_service.py).
--
-- The digest is `hashlib.sha256` of the `json.dumps` of the artifact: both are the standard
-- library's, so the composed function is the parameter `digest`.
use linking_engine_backend.Prelude.{
  ℕ, ◌≡◌, Bool, false, not, String, Option, none, some, List, [], ◌∷◌, suc, str_eq, str_eq_iff, ap,
  refl, inl, inr, ◌⊎◌, not-false, suc, if◌then◌else◌, arith,
}
use linking_engine_backend.Publication.Rows.{
  PublicationPlan, Item, Suggestion, LinkOutcome, Reason, stored_hash_differs,
  approved_hash_differs,
}

abbrev pub schema_version : ℕ
schema_version = 1

pub record Artifact : Type 0 where
  pub schema_version : ℕ
  pub site_id : ℕ
  pub source_article_id : ℕ
  pub source_url : String
  pub original_html : String
  pub updated_html : String
  pub items : List Item

abbrev pub canonical_artifact : PublicationPlan → Artifact
canonical_artifact plan = record {
  schema_version = schema_version;
  site_id = plan.site_id;
  source_article_id = plan.source_article_id;
  source_url = plan.source_url;
  original_html = plan.original_html;
  updated_html = plan.updated_html;
  items = plan.items;
}

-- One record for each link, numbered in the order of rendering. Two lists of different lengths
-- raise (`strict=True`), which is `none` here.
abbrev pub snapshot_items_from : ℕ → List Suggestion → List LinkOutcome → Option (List Item)
snapshot_items_from position [] [] = some []
snapshot_items_from position [] (o ∷ os) = none
snapshot_items_from position (s ∷ ss) [] = none
snapshot_items_from position (s ∷ ss) (o ∷ os) = elim (snapshot_items_from (suc position) ss os) [
  | none ↦ none
  | some items ↦ some (
      record {
        position = position;
        suggestion_id = s.id;
        target_url = s.resolved_target_url;
        anchor_text = s.anchor_text;
        outcome = o;
      }
      ∷ items)
]

unfoldable pub snapshot_items : List Suggestion → List LinkOutcome → Option (List Item)
snapshot_items ordered outcomes = snapshot_items_from 0 ordered outcomes

abbrev pub differs_from : Option String → String → Bool
differs_from none h = false
differs_from (some a) h = not (str_eq a h)

module _ (digest : Artifact → String) where
  abbrev pub compute_plan_hash : PublicationPlan → String
  compute_plan_hash plan = digest (canonical_artifact plan)

  -- `none` if the plan passes, and the reason of the PlanIntegrityError if not.
  unfoldable pub verify_integrity : PublicationPlan → Option Reason
  verify_integrity plan =
      let recomputed = compute_plan_hash plan in
      if not (str_eq recomputed plan.plan_hash)
      then some stored_hash_differs
      else if differs_from plan.approved_hash recomputed
      then some approved_hash_differs
      else none

  approved_hash_of :
      (o : Option String) (h : String) → differs_from o h ≡ false → (o ≡ none) ⊎ (o ≡ some h)
  approved_hash_of none h e = inl refl
  approved_hash_of (some a) h e = inr (ap some ((str_eq_iff a h).0 (not-false (str_eq a h) e)))

  -- A plan that passes hashes to its stored value, and to its approved one if it has one.
  pub verify_integrity_passes :
      (plan : PublicationPlan)
      → verify_integrity plan ≡ none
      → (compute_plan_hash plan ≡ plan.plan_hash)
        × ((plan.approved_hash ≡ none) ⊎ (plan.approved_hash ≡ some (compute_plan_hash plan)))
  unfolding verify_integrity
  verify_integrity_passes plan e = (
    ground (arith, str_eq_iff (compute_plan_hash plan) plan.plan_hash),
    approved_hash_of plan.approved_hash (compute_plan_hash plan) (ground arith),
  )
