-- ===== src/Publication/Approval/Exactness.antt =====
-- When an approval succeeds (`approve_plans` of app/services/publication_plan_service.py).
use linking_engine_backend.Prelude.{
  ℕ, ◌≡◌, ◌≢◌, refl, sym, ap, subst, ◌∙◌, true, false, not, String, none, some, List, [], map, leb,
  select, elem, dedup, In-dedup_intro, In-sort_intro, In-sort, In-dedup, In, In-select,
  In-select_intro, In-map, In-map_intro, In-elem, elem-In, All, In-All, All-In, inl, inr, ◌⊎◌, ◌↔◌,
  ok, arith, Bool-cases, Option-cases,
}
use linking_engine_backend.Publication.Rows.{
  PublicationPlan, Suggestion, Item, Db, is_prepared, is_selected, suggestion_by_id,
}
use linking_engine_backend.Publication.Artifact.{
  Artifact, compute_plan_hash, verify_integrity_passes,
}
use linking_engine_backend.Publication.Approval.{
  wanted_hash, is_named, named_ids, missing_ids, snapshotted, dict_get, approve_plans,
}
use linking_engine_backend.Publication.Approval.Checks.{IsApprovable, IsClaimable}
use linking_engine_backend.Publication.Approval.Effects.{
  IsExact, committed, approve_plans_exact, approve_plans_passes,
}
use linking_engine_backend.Publication.Approval.Binding.{
  In-dict_get, snapshotted_sound, snapshotted_complete,
}
use linking_engine_backend.Publication.Approval.Lookups.{
  no_elements, In-named_ids, In-named_ids_intro, wanted_of_named, is_named_of, named_hash,
  dict_get_In, verify_integrity_intro,
}

module _ (digest : Artifact → String) (site_id : ℕ) (approvals : List (ℕ × String)) (db : Db) where
  -- A plan that may be approved under the hash `h`, said of its fields.
  pub record IsReady (p : PublicationPlan) (h : String) : Type 0 where
    pub of_site : p.site_id ≡ site_id
    pub status : is_prepared p.status ≡ true
    pub shown : p.plan_hash ≡ h
    pub stored : compute_plan_hash digest p ≡ h
    pub earlier : (p.approved_hash ≡ none) ⊎ (p.approved_hash ≡ some h)

  -- A suggestion that no plan has claimed.
  abbrev pub IsFree : ℕ → Type 0
  IsFree n =
      (r : Suggestion) × (suggestion_by_id n db.suggestions ≡ some r)
      × (is_selected r.status ≡ true)
      × (r.publication_plan_id ≡ none)

  -- What a request must be to be approved.
  pub record IsApproved : Type 0 where
    pub names_some : approvals ≢ []
    pub exists :
        (n : ℕ) (h : String)
        → In (n, h) approvals
        → (p : PublicationPlan) × In p db.plans × (p.id ≡ n)
    pub ready :
        (p : PublicationPlan) (h : String)
        → In p db.plans
        → wanted_hash approvals p.id ≡ some h
        → IsReady p h
    pub free :
        (p : PublicationPlan) (h : String) (item : Item)
        → In p db.plans
        → wanted_hash approvals p.id ≡ some h
        → In item p.items
        → IsFree item.suggestion_id

  abbrev named : List PublicationPlan
  named = select (is_named approvals) db.plans

  abbrev found : List ℕ
  found = map (λ (p : PublicationPlan). p.id) named

  is_missing :
      (n : ℕ)
      → In n (named_ids approvals)
      → elem n found ≡ false
      → ¬ (missing_ids approvals named ≡ [])
  is_missing n i e none_missing =
      let j = In-sort_intro leb n (select (λ n. not (elem n found)) (dedup (named_ids approvals))) (
        In-select_intro (λ n. not (elem n found)) n (dedup (named_ids approvals))
          (In-dedup_intro n (named_ids approvals) i) (rw e)) in
      subst (In n) none_missing j

  exact-exists :
      missing_ids approvals named ≡ []
      → (n : ℕ) (h : String) → In (n, h) approvals
      → (p : PublicationPlan) × In p db.plans × (p.id ≡ n)
  exact-exists m n h i = elim (Bool-cases (elem n found)) [
    | inr e ↦ absurd (is_missing n (In-named_ids_intro n h approvals i) e m)
    | inl e ↦
        let (p, j, same) = In-map (λ (p : PublicationPlan). p.id) n named (elem-In n found e) in
        (p, (In-select (is_named approvals) p db.plans j).0, sym same)
  ]

  exact-IsReady :
      (p : PublicationPlan) (h : String)
      → IsApprovable digest site_id approvals p
      → wanted_hash approvals p.id ≡ some h
      → IsReady p h
  exact-IsReady p h a e =
      let shown : p.plan_hash ≡ h = ground (arith, a.shown, e) in
      let (stored, earlier) = verify_integrity_passes digest p a.intact in
      let stored' : compute_plan_hash digest p ≡ h = stored ∙ shown in
      record {
        of_site = a.of_site;
        status = a.status;
        shown = shown;
        stored = stored';
        earlier =
            subst (λ x. (p.approved_hash ≡ none) ⊎ (p.approved_hash ≡ some x)) stored' earlier;
      }

  exact-IsFree :
      All (IsClaimable db.suggestions) (snapshotted named)
      → (p : PublicationPlan) (h : String) (item : Item) → In p db.plans
      → wanted_hash approvals p.id ≡ some h
      → In item p.items
      → IsFree item.suggestion_id
  exact-IsFree all p h item i e j =
      let n = item.suggestion_id in
      let key = snapshotted_complete n named [] (
        inr (
          p,
          item,
          In-select_intro (is_named approvals) p db.plans i (is_named_of approvals p h e),
          j,
          refl,
        )) in
      elim (Option-cases (dict_get n (snapshotted named))) [
        | inl missing ↦ absurd (key missing)
        | inr (plan_id, g) ↦
            All-In (IsClaimable db.suggestions) (n, plan_id) (snapshotted named)
              (In-dict_get n plan_id (snapshotted named) g) all
      ]

  exact-IsApproved :
      (approved_by : String) (now : ℕ)
      → IsExact digest site_id approvals approved_by now db
      → IsApproved
  exact-IsApproved approved_by now h = record {
    names_some = h.names_some;
    exists = exact-exists h.none_missing;
    ready = λ p g i e.
        exact-IsReady p g
          (All-In (IsApprovable digest site_id approvals) p named
            (In-select_intro (is_named approvals) p db.plans i (is_named_of approvals p g e))
            h.plans)
          e;
    free = exact-IsFree h.suggestions;
  }

  none_missing_of : IsApproved → missing_ids approvals named ≡ []
  none_missing_of a = no_elements (missing_ids approvals named) λ n i.
      let (i', absent) =
        In-select (λ n. not (elem n found)) n (dedup (named_ids approvals))
          (In-sort leb n (select (λ n. not (elem n found)) (dedup (named_ids approvals))) i) in
      let (h, j) = In-named_ids n approvals (In-dedup n (named_ids approvals) i') in
      let (p, k, same) = a.exists n h j in
      let (g, e) = wanted_of_named n h approvals j in
      let there =
        In-map_intro (λ (p : PublicationPlan). p.id) p named
          (In-select_intro (is_named approvals) p db.plans k (
            is_named_of approvals p g
              (subst (λ m. wanted_hash approvals m ≡ some g) (sym same) e))) in
      ground (arith, absent, In-elem n found (subst (λ m. In m found) same there))

  IsReady-IsApprovable :
      (p : PublicationPlan) (h : String)
      → wanted_hash approvals p.id ≡ some h
      → IsReady p h
      → IsApprovable digest site_id approvals p
  IsReady-IsApprovable p h e r = record {
    of_site = r.of_site;
    status = r.status;
    shown = e ∙ ap some (sym r.shown);
    intact = verify_integrity_intro digest p (r.stored ∙ sym r.shown) (
        subst (λ x. (p.approved_hash ≡ none) ⊎ (p.approved_hash ≡ some x)) (sym r.stored)
          r.earlier);
  }

  IsApproved-IsExact :
      (approved_by : String) (now : ℕ)
      → IsApproved
      → IsExact digest site_id approvals approved_by now db
  IsApproved-IsExact approved_by now a = record {
    names_some = a.names_some;
    none_missing = none_missing_of a;
    plans = In-All (IsApprovable digest site_id approvals) named λ p i.
        let (j, n) = In-select (is_named approvals) p db.plans i in
        let (h, e) = named_hash approvals p n in IsReady-IsApprovable p h e (a.ready p h j e);
    suggestions = In-All (IsClaimable db.suggestions) (snapshotted named) λ x i.
        let (other, e) = dict_get_In x.0 x.1 (snapshotted named) i in
        let (p, j, _, item, k, same) = snapshotted_sound named x.0 other e in
        let (j', n) = In-select (is_named approvals) p db.plans j in
        let (h, f) = named_hash approvals p n in subst IsFree same (a.free p h item j' f k);
  }

-- An approval succeeds exactly when all of these hold: it names a plan; a plan is stored for each
-- named id; each stored plan with a named id is of the site, is prepared, has the hash that the
-- operator sent for it as its stored hash and as the digest of its artifact, and has no approved
-- hash or that one; and the suggestion of each item of those plans is stored, is selected and
-- belongs to no plan. One mismatch refuses the whole request.
pub approve_plans_iff :
    (digest : Artifact → String) (site_id : ℕ) (approved_by : String) (now : ℕ) (db : Db)
    (approvals : List (ℕ × String))
    → ((r : List PublicationPlan × Db) × (approve_plans digest site_id approvals approved_by now db
          ≡ ok r))
      ↔ IsApproved digest site_id approvals db
approve_plans_iff digest site_id approved_by now db approvals = (
  λ (r, e).
      exact-IsApproved digest site_id approvals db approved_by now
        (approve_plans_exact digest site_id approved_by now db approvals r e).0,
  λ a. (
    committed digest site_id approvals approved_by now db,
    approve_plans_passes digest site_id approved_by now db approvals
        (IsApproved-IsExact digest site_id approvals db approved_by now a),
  ),
)
