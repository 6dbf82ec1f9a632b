-- ===== src/Publication/Approval/Checks.antt =====
-- The checks of an approval.
use linking_engine_backend.Prelude.{
  ℕ, ◌≡◌, refl, sym, ap, true, false, String, str_eq, str_eq_iff, Option, none, some, List, [], ◌∷◌,
  ok, All, arith, not-false, >>=-returns,
}
use linking_engine_backend.Publication.Rows.{
  PublicationPlan, Suggestion, is_prepared, is_selected, suggestion_by_id,
}
use linking_engine_backend.Publication.Artifact.{Artifact, verify_integrity}
use linking_engine_backend.Publication.Approval.{
  wanted_hash, hash_differs, check_row, check_suggestions, check_plan, check_plans,
}

-- A suggestion that an approval may claim: it exists, is selected, and belongs to no plan.
abbrev pub IsClaimable : List Suggestion → ℕ × ℕ → Type 0
IsClaimable rows (n, plan_id) =
    (r : Suggestion) × (suggestion_by_id n rows ≡ some r)
    × (is_selected r.status ≡ true)
    × (r.publication_plan_id ≡ none)

check_row-ok :
    (n plan_id : ℕ) (found : Option Suggestion)
    → check_row n plan_id found ≡ ok tt
    → (r : Suggestion) × (found ≡ some r)
      × (is_selected r.status ≡ true)
      × (r.publication_plan_id ≡ none)
check_row-ok n plan_id none e = cc
check_row-ok n plan_id (some r) e = (r, refl, ground arith, ground arith)

pub check_suggestions-ok :
    (rows : List Suggestion) (d : List (ℕ × ℕ))
    → check_suggestions rows d ≡ ok tt
    → All (IsClaimable rows) d
unfolding check_suggestions
check_suggestions-ok rows [] e = tt
check_suggestions-ok rows ((n, plan_id) ∷ d) e =
    let (u, f, g) =
      >>=-returns (check_row n plan_id (suggestion_by_id n rows)) (λ _. check_suggestions rows d)
        e in
    (check_row-ok n plan_id (suggestion_by_id n rows) f, check_suggestions-ok rows d g)

pub check_suggestions_pass :
    (rows : List Suggestion) (d : List (ℕ × ℕ))
    → All (IsClaimable rows) d
    → check_suggestions rows d ≡ ok tt
unfolding check_suggestions
check_suggestions_pass rows [] h = refl
check_suggestions_pass rows ((n, plan_id) ∷ d) ((r, f, s, b), h) =
    rw (f, check_row, s, b) (check_suggestions_pass rows d h)

module _ (digest : Artifact → String) (site_id : ℕ) (approvals : List (ℕ × String)) where
  -- What a plan must be for its approval to go through: of the site, prepared, shown with the
  -- hash that is stored, and hashing to it.
  pub record IsApprovable (p : PublicationPlan) : Type 0 where
    pub of_site : p.site_id ≡ site_id
    pub status : is_prepared p.status ≡ true
    pub shown : wanted_hash approvals p.id ≡ some p.plan_hash
    pub intact : verify_integrity digest p ≡ none

  hash_shown : (o : Option String) (h : String) → hash_differs o h ≡ false → o ≡ some h
  hash_shown none h e = cc
  hash_shown (some w) h e = ap some (sym ((str_eq_iff h w).0 (not-false (str_eq h w) e)))

  check_plan-ok :
      (p : PublicationPlan) → check_plan digest site_id approvals p ≡ ok tt → IsApprovable p
  unfolding check_plan
  check_plan-ok p e = record {
    of_site = ground arith;
    status = ground arith;
    shown = hash_shown (wanted_hash approvals p.id) p.plan_hash (ground arith);
    intact = ground arith;
  }

  check_plan_passes :
      (p : PublicationPlan) → IsApprovable p → check_plan digest site_id approvals p ≡ ok tt
  unfolding check_plan
  check_plan_passes p a = ground (arith, str_eq_iff p.plan_hash p.plan_hash)

  pub check_plans-ok :
      (ps : List PublicationPlan)
      → check_plans digest site_id approvals ps ≡ ok tt
      → All IsApprovable ps
  unfolding check_plans
  check_plans-ok [] e = tt
  check_plans-ok (p ∷ ps) e =
      let (u, f, g) =
        >>=-returns (check_plan digest site_id approvals p)
          (λ _. check_plans digest site_id approvals ps) e in
      (check_plan-ok p f, check_plans-ok ps g)

  pub check_plans_pass :
      (ps : List PublicationPlan)
      → All IsApprovable ps
      → check_plans digest site_id approvals ps ≡ ok tt
  unfolding check_plans
  check_plans_pass [] h = refl
  check_plans_pass (p ∷ ps) h = rw (check_plan_passes p h.0) (check_plans_pass ps h.1)
