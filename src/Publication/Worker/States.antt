-- ===== src/Publication/Worker/States.antt =====
-- What the worker does to the plans and the suggestions.
use linking_engine_backend.Prelude.{
  ℕ, ◌≡◌, refl, sym, subst, Bool, true, false, not, ◌&&◌, String, Option, none, some, List, length,
  leb, inl, inr, ◌⊎◌, Bool-cases, In-find, ◌==◌, ==_iff,
}
use linking_engine_backend.Publication.Rows.{
  PublicationPlan, Reason, Db, is_approved_plan, connector_failed, article_changed,
  source_article_gone, not_selected_any_more, plan_by_id,
}
use linking_engine_backend.Publication.Artifact.{Artifact, verify_integrity}
use linking_engine_backend.Publication.Cohort.{ids_of}
use linking_engine_backend.Publication.Connector.{
  Site, EditOutcome, written, already_applied, stale, raised, apply_planned_edit,
}
use linking_engine_backend.Publication.Worker.Retire.{fail_plan}
use linking_engine_backend.Publication.Worker.Finalize.{applied_plan}
use linking_engine_backend.Publication.Worker.{
  Turn, Run, bound_rows, retired_ids, is_empty, charge, failure_exit, stale_exit, commit_exit,
  skip_exit, integrity_exit, edit_exit, with_article, with_integrity, with_locked, process_plan,
}
use linking_engine_backend.Publication.Worker.Evolution.{
  Evolves, Evolves-refl, update-Evolves, retire_stale-Evolves, fail_plan-Evolves, charge_plans,
}

module _ {S : Type 0} (site : Site S) (digest : Artifact → String) (article : ℕ → Option (Option ℕ))
    (limit now : ℕ) where
  charged_plans :
      (c : Bool) (ids : List ℕ) (reason : Reason) (db : Db)
      → (charge site digest article limit now c ids reason db).1.plans ≡ db.plans
  charged_plans true ids reason db = charge_plans limit ids reason db
  charged_plans false ids reason db = refl

  failure_exit-Evolves :
      (turn : Turn) (plan_id : ℕ) (c : Bool) (ids : List ℕ) (reason : Reason) (n : ℕ) (db : Db)
      (run : Run S)
      → Evolves plan_id
          (turn.after_rollback db).plans
          (failure_exit site digest article limit now turn plan_id c ids reason n db run).db.plans
  unfolding failure_exit
  failure_exit-Evolves turn plan_id c ids reason n db run =
      let d = turn.after_rollback db in
      let charged = charge site digest article limit now c ids reason d in
      let same = charged_plans c ids reason d in
      elim (Bool-cases (not (is_empty ids) && leb (length ids) charged.0)) [
        | inl exhausted ↦ rw exhausted (
            subst (λ ps. Evolves plan_id ps (fail_plan now plan_id reason charged.1).plans) same
              (fail_plan-Evolves now plan_id reason charged.1))
        | inr retried ↦
            rw retried
              (subst (λ ps. Evolves plan_id d.plans ps) (sym same) (Evolves-refl plan_id d.plans))
      ]

  -- A step of the plans from the state under the lock, or from the state after a rollback.
  abbrev pub Steps : Turn → ℕ → Db → Db → Type 0
  Steps turn plan_id db db' =
      Evolves plan_id db.plans db'.plans ⊎ Evolves plan_id (turn.after_rollback db).plans db'.plans

  module _ (turn : Turn) (loaded locked : PublicationPlan) (n : ℕ) (db : Db) where
    commit_exit-Steps :
        (run : Run S)
        → Steps turn locked.id db
            (commit_exit site digest article limit now turn locked n db run).db
    unfolding commit_exit
    commit_exit-Steps run = elim (Bool-cases turn.commits) [
      | inl e ↦ rw e (
          inl (
            update-Evolves locked.id (applied_plan now) db.plans
              (λ p e. record {
                artifact = refl;
                id = refl;
                plan_hash = refl;
                approved_hash = refl;
                approved_by = refl;
                status = inr ((==_iff p.id locked.id).0 e, refl);
              })
              (λ p. refl)))
      | inr e ↦ rw e (
          inr (
            failure_exit-Evolves turn locked.id false (ids_of (bound_rows locked.id db))
              (connector_failed "commit failed") n db run))
    ]

    edit_exit-Steps :
        (run : Run S) (r : EditOutcome × S)
        → Steps turn locked.id db
            (edit_exit site digest article limit now turn locked n db run r).db
    unfolding stale_exit
    edit_exit-Steps run (stale, s) =
        inr (retire_stale-Evolves now locked.id article_changed (turn.after_rollback db))
    edit_exit-Steps run (raised text, s) = inr (
        failure_exit-Evolves turn locked.id true (ids_of (bound_rows locked.id db))
          (connector_failed text) n db (record run { remote = s }))
    edit_exit-Steps run (written, s) = commit_exit-Steps (record run { remote = s })
    edit_exit-Steps run (already_applied, s) = commit_exit-Steps (record run { remote = s })

    article-Steps :
        (run : Run S) (found : Option (Option ℕ))
        → Steps turn locked.id db
            (with_article site digest article limit now turn locked n db run found).db
    unfolding integrity_exit
    article-Steps run none =
        inr (fail_plan-Evolves now locked.id source_article_gone (turn.after_rollback db))
    article-Steps run (some external_id) =
        edit_exit-Steps run
          (apply_planned_edit site external_id locked.original_html locked.updated_html run.remote)

    integrity-Steps :
        (run : Run S) (o : Option Reason)
        → Steps turn locked.id db
            (with_integrity site digest article limit now turn locked loaded.source_article_id n db
              run o).db
    unfolding integrity_exit
    integrity-Steps run (some reason) =
        inr (fail_plan-Evolves now locked.id reason (turn.after_rollback db))
    integrity-Steps run none = article-Steps run (article loaded.source_article_id)

  locked-Steps :
      (turn : Turn) (loaded : PublicationPlan) (db : Db) (run : Run S) (o : Option PublicationPlan)
      → plan_by_id loaded.id db.plans ≡ o
      → Steps turn loaded.id db (with_locked site digest article limit now turn loaded db run o).db
  unfolding skip_exit stale_exit
  locked-Steps turn loaded db run none e = inl (Evolves-refl loaded.id db.plans)
  locked-Steps turn loaded db run (some locked) e =
      elim (Bool-cases (is_approved_plan locked.status)) [
        | inr other ↦ rw other (inl (Evolves-refl loaded.id db.plans))
        | inl status ↦ elim (Bool-cases (is_empty (retired_ids loaded.id db))) [
          | inr some_retired ↦
              rw (status, some_retired)
                (inr (
                  retire_stale-Evolves now loaded.id
                    (not_selected_any_more (retired_ids loaded.id db)) (turn.after_rollback db)))
          | inl all_selected ↦
              let (i, f) = In-find (λ (p : PublicationPlan). p.id == loaded.id) locked db.plans e in
              rw (status, all_selected)
                (subst
                  (λ (n : ℕ).
                    Steps turn n db
                      (with_integrity site digest article limit now turn locked
                        loaded.source_article_id (length loaded.items) db run
                        (verify_integrity digest locked)).db)
                  ((==_iff locked.id loaded.id).0 f)
                  (integrity-Steps turn loaded locked (length loaded.items) db run
                    (verify_integrity digest locked)))
        ]
      ]

  -- Processing a plan never changes the artifact of a plan, its hashes or the operator bound to
  -- it; it changes the status of the processed plan only, and only to one in which the plan can
  -- not reach the site again; and no article gains an active plan.
  pub process_plan-Steps :
      (turn : Turn) (loaded : PublicationPlan) (run : Run S)
      → Steps turn loaded.id
          (turn.before_lock run.db)
          (process_plan site digest article limit now turn loaded run).db
  unfolding process_plan
  process_plan-Steps turn loaded run =
      let db = turn.before_lock run.db in
      locked-Steps turn loaded db run (plan_by_id loaded.id db.plans) refl
