-- ===== src/Publication/Worker/Evolution.antt =====
-- How the table of plans changes when plans are retired.
use linking_engine_backend.Prelude.{
  ℕ, ◌≤◌, ◌≡◌, refl, sym, subst, true, false, List, [], ◌∷◌, In, All, In-All, inl, inr, ◌⊎◌, arith,
  Bool-cases, ◌==◌, ==_iff, In-update_where, update_where, count, count-update_where,
}
use linking_engine_backend.Publication.Rows.{PublicationPlan, Reason, Db, is_active}
use linking_engine_backend.Publication.Artifact.{canonical_artifact}
use linking_engine_backend.Publication.Preparation.{is_active_for}
use linking_engine_backend.Publication.Worker.Retire.{
  stale_row, failed_plan, retire_stale, fail_plan, record_attempt_failure, is_approved_id,
}

-- The row of a plan after a step: the same artifact, bound to the same hashes and operator, with
-- its status as it was, or that of the one plan that is processed moved on to a terminal one.
pub record Follows (plan_id : ℕ) (p p' : PublicationPlan) : Type 0 where
  pub artifact : canonical_artifact p' ≡ canonical_artifact p
  pub id : p'.id ≡ p.id
  pub plan_hash : p'.plan_hash ≡ p.plan_hash
  pub approved_hash : p'.approved_hash ≡ p.approved_hash
  pub approved_by : p'.approved_by ≡ p.approved_by
  pub status : (p'.status ≡ p.status) ⊎ ((p.id ≡ plan_id) × (is_active p'.status ≡ false))

-- Every row of the later table follows one of the earlier, and no article has more active plans.
abbrev pub Evolves : ℕ → List PublicationPlan → List PublicationPlan → Type 0
Evolves plan_id plans plans' =
    All (λ p'. (p : PublicationPlan) × In p plans × Follows plan_id p p') plans'
    × ((a : ℕ) → count (is_active_for a) plans' ≤ count (is_active_for a) plans)

Follows-refl : (plan_id : ℕ) (p : PublicationPlan) → Follows plan_id p p
Follows-refl plan_id p = record {
  artifact = refl;
  id = refl;
  plan_hash = refl;
  approved_hash = refl;
  approved_by = refl;
  status = inl refl;
}

pub Evolves-refl : (plan_id : ℕ) (plans : List PublicationPlan) → Evolves plan_id plans plans
Evolves-refl plan_id plans = (
  In-All (λ p'. (p : PublicationPlan) × In p plans × Follows plan_id p p') plans
      (λ p i. (p, i, Follows-refl plan_id p)),
  λ a. omega arith,
)

pub update-Evolves :
    (plan_id : ℕ) (f : PublicationPlan → PublicationPlan) (plans : List PublicationPlan)
    → ((p : PublicationPlan) → (p.id == plan_id) ≡ true → Follows plan_id p (f p))
    → ((p : PublicationPlan) → is_active (f p).status ≡ false)
    → Evolves plan_id plans (update_where (λ p. p.id == plan_id) f plans)
update-Evolves plan_id f plans h k = (
  In-All (λ p'. (p : PublicationPlan) × In p plans × Follows plan_id p p')
      (update_where (λ p. p.id == plan_id) f plans)
      λ p' i.
        let (p, j, e) = In-update_where (λ p. p.id == plan_id) f p' plans i in
        (
          p,
          j,
          subst (Follows plan_id p) (sym e) (elim (Bool-cases (p.id == plan_id)) [
            | inl same ↦ rw same (h p same)
            | inr other ↦ rw other (Follows-refl plan_id p)
          ]),
        ),
  λ a.
      count-update_where (is_active_for a) (λ p. p.id == plan_id) f
        (λ p e g. absurd (inactive a p g)) plans,
)
  where
    inactive : (a : ℕ) (p : PublicationPlan) → is_active_for a (f p) ≡ true → ⊥
    inactive a p g = ground (arith, k p)

pub retire_stale-Evolves :
    (now plan_id : ℕ) (reason : Reason) (db : Db)
    → Evolves plan_id db.plans (retire_stale now plan_id reason db).plans
unfolding retire_stale
retire_stale-Evolves now plan_id reason db = elim (Bool-cases (is_approved_id plan_id db)) [
  | inr other ↦ rw other (Evolves-refl plan_id db.plans)
  | inl approved ↦ rw approved (
      update-Evolves plan_id (stale_row now reason) db.plans
        (λ p e. record {
          artifact = refl;
          id = refl;
          plan_hash = refl;
          approved_hash = refl;
          approved_by = refl;
          status = inr ((==_iff p.id plan_id).0 e, refl);
        })
        (λ p. refl))
]

pub fail_plan-Evolves :
    (now plan_id : ℕ) (reason : Reason) (db : Db)
    → Evolves plan_id db.plans (fail_plan now plan_id reason db).plans
unfolding fail_plan
fail_plan-Evolves now plan_id reason db = elim (Bool-cases (is_approved_id plan_id db)) [
  | inr other ↦ rw other (Evolves-refl plan_id db.plans)
  | inl approved ↦ rw approved (
      update-Evolves plan_id (failed_plan now reason) db.plans
        (λ p e. record {
          artifact = refl;
          id = refl;
          plan_hash = refl;
          approved_hash = refl;
          approved_by = refl;
          status = inr ((==_iff p.id plan_id).0 e, refl);
        })
        (λ p. refl))
]

pub charge_plans :
    (limit : ℕ) (ids : List ℕ) (reason : Reason) (db : Db)
    → (record_attempt_failure limit ids reason db).1.plans ≡ db.plans
unfolding record_attempt_failure
charge_plans limit [] reason db = refl
charge_plans limit (n ∷ ns) reason db = refl
