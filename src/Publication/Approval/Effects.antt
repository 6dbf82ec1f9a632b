-- ===== src/Publication/Approval/Effects.antt =====
-- What a successful approval has checked, and what it commits.
use linking_engine_backend.Prelude.{
  ℕ, ◌≡◌, ◌≢◌, refl, sym, ap, subst, ◌∙◌, true, false, ◌&&◌, ◌≤◌, String, none, some, List, [], ◌∷◌,
  map, select, update_where, ok, ◌>>◌, In, All, All-In, inl, inr, ◌⊎◌, arith, >>=-returns,
  Bool-cases, Option-cases, In-update_where, In-select_intro, count, count-update_rows, ◌==◌,
}
use linking_engine_backend.Publication.Rows.{PublicationPlan, Db, is_approved_plan, is_active}
use linking_engine_backend.Publication.Artifact.{
  Artifact, compute_plan_hash, verify_integrity_passes,
}
use linking_engine_backend.Publication.Approval.{
  wanted_hash, is_named, missing_ids, raise_if_missing, snapshotted, check_suggestions, bind_row,
  approved_row, check_plans, approve_plans,
}
use linking_engine_backend.Publication.Approval.Checks.{
  IsApprovable, IsClaimable, check_plans-ok, check_plans_pass, check_suggestions-ok,
  check_suggestions_pass,
}

raise_if_missing-ok : (ns : List ℕ) → raise_if_missing ns ≡ ok tt → ns ≡ []
raise_if_missing-ok [] e = refl
raise_if_missing-ok (n ∷ ns) e = cc

module _ (digest : Artifact → String) (site_id : ℕ) (approvals : List (ℕ × String))
    (approved_by : String) (now : ℕ) (db : Db) where
  abbrev named_plans : List PublicationPlan
  named_plans = select (is_named approvals) db.plans

  -- Everything that an approval requires.
  pub record IsExact : Type 0 where
    pub names_some : approvals ≢ []
    pub none_missing : missing_ids approvals named_plans ≡ []
    pub plans : All (IsApprovable digest site_id approvals) named_plans
    pub suggestions : All (IsClaimable db.suggestions) (snapshotted named_plans)

  abbrev pub committed : List PublicationPlan × Db
  committed = (
    map (approved_row approved_by now) named_plans,
    record db {
      plans = update_where (is_named approvals) (approved_row approved_by now) db.plans;
      suggestions = map (bind_row (snapshotted named_plans)) db.suggestions;
    },
  )

module _ (digest : Artifact → String) (site_id : ℕ) (approved_by : String) (now : ℕ) (db : Db) where
  pub approve_plans_exact :
      (approvals : List (ℕ × String)) (r : List PublicationPlan × Db)
      → approve_plans digest site_id approvals approved_by now db ≡ ok r
      → IsExact digest site_id approvals approved_by now db
        × (r ≡ committed digest site_id approvals approved_by now db)
  unfolding approve_plans
  approve_plans_exact [] r e = cc
  approve_plans_exact (a ∷ rest) r e =
      let approvals = a ∷ rest in
      let plans = select (is_named approvals) db.plans in
      let rows = db.suggestions in
      let (_, m, e₁) =
        >>=-returns (raise_if_missing (missing_ids approvals plans))
          (λ _.
            check_plans digest site_id approvals plans
            >> (check_suggestions rows (snapshotted plans)
                >> ok (committed digest site_id approvals approved_by now db)))
          e in
      let (_, p, e₂) =
        >>=-returns (check_plans digest site_id approvals plans)
          (λ _.
            check_suggestions rows (snapshotted plans)
            >> ok (committed digest site_id approvals approved_by now db))
          e₁ in
      let (_, s, e₃) =
        >>=-returns (check_suggestions rows (snapshotted plans))
          (λ _. ok (committed digest site_id approvals approved_by now db)) e₂ in
      (
        record {
          names_some = λ f. cc;
          none_missing = raise_if_missing-ok (missing_ids approvals plans) m;
          plans = check_plans-ok digest site_id approvals plans p;
          suggestions = check_suggestions-ok rows (snapshotted plans) s;
        },
        cc,
      )

  pub approve_plans_passes :
      (approvals : List (ℕ × String))
      → IsExact digest site_id approvals approved_by now db
      → approve_plans digest site_id approvals approved_by now db
        ≡ ok (committed digest site_id approvals approved_by now db)
  unfolding approve_plans
  approve_plans_passes [] h = absurd (h.names_some refl)
  approve_plans_passes (a ∷ rest) h =
      let plans = select (is_named (a ∷ rest)) db.plans in
      rw (
        h.none_missing,
        raise_if_missing,
        check_plans_pass digest site_id (a ∷ rest) plans h.plans,
        check_suggestions_pass db.suggestions (snapshotted plans) h.suggestions,
      )

  -- After an approval every named plan is approved by the operator, under the hash that the
  -- operator sent, and that hash is the digest of the plan as it is stored; every other plan is
  -- the row that it was.
  pub approve_plans_binds :
      (approvals : List (ℕ × String)) (r : List PublicationPlan × Db) (p : PublicationPlan)
      → approve_plans digest site_id approvals approved_by now db ≡ ok r
      → In p r.1.plans
      → ((wanted_hash approvals p.id ≡ some (compute_plan_hash digest p))
          × (p.approved_hash ≡ some (compute_plan_hash digest p))
          × (p.plan_hash ≡ compute_plan_hash digest p)
          × (p.approved_by ≡ some approved_by)
          × (is_approved_plan p.status ≡ true)
          × (p.site_id ≡ site_id))
        ⊎ ((wanted_hash approvals p.id ≡ none) × In p db.plans)
  approve_plans_binds approvals r p e i =
      let (h, f) = approve_plans_exact approvals r e in
      let i' = subst (λ (x : List PublicationPlan × Db). In p x.1.plans) f i in
      let (q, j, g) =
        In-update_where (is_named approvals) (approved_row approved_by now) p db.plans i' in
      elim (Bool-cases (is_named approvals q)) [
        | inl named ↦
            let a =
              All-In (IsApprovable digest site_id approvals) q
                (select (is_named approvals) db.plans)
                (In-select_intro (is_named approvals) q db.plans j named) h.plans in
            let intact = (verify_integrity_passes digest q a.intact).0 in
            let g' : p ≡ approved_row approved_by now q = g ∙ (rw named) in
            rw g' (
              inl (
                a.shown ∙ ap some (sym intact),
                ap some (sym intact),
                sym intact,
                refl,
                refl,
                a.of_site,
              ))
        | inr other ↦ let g' : p ≡ q = g ∙ (rw other) in rw g' (inr (unnamed approvals q other, j))
      ]
    where
      unnamed :
          (approvals : List (ℕ × String)) (q : PublicationPlan)
          → is_named approvals q ≡ false
          → wanted_hash approvals q.id ≡ none
      unnamed approvals q e = elim (Option-cases (wanted_hash approvals q.id)) [
        | inl f ↦ f
        | inr (h, f) ↦ absurd (cc (rw f at e))
      ]

  -- An approval leaves no more active plans for an article than there were.
  pub approve_plans_active :
      (approvals : List (ℕ × String)) (r : List PublicationPlan × Db) (a : ℕ)
      → approve_plans digest site_id approvals approved_by now db ≡ ok r
      → count (λ (p : PublicationPlan). p.source_article_id == a && is_active p.status) r.1.plans
        ≤ count (λ (p : PublicationPlan). p.source_article_id == a && is_active p.status) db.plans
  approve_plans_active approvals r a e =
      let (h, f) = approve_plans_exact approvals r e in
      rw f (
        count-update_rows (λ (p : PublicationPlan). p.source_article_id == a && is_active p.status)
          (is_named approvals) (approved_row approved_by now) db.plans
          λ q j named g.
            let ok_plan =
              All-In (IsApprovable digest site_id approvals) q
                (select (is_named approvals) db.plans)
                (In-select_intro (is_named approvals) q db.plans j named) h.plans in
            let prepared = ok_plan.status in ground arith)
