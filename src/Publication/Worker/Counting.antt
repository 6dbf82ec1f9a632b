-- ===== src/Publication/Worker/Counting.antt =====
-- What one plan of a run counts (the loop of `_publish_approved_plans` in app/tasks/publication.py).
use linking_engine_backend.Prelude.{
  ℕ, zero, suc, ◌+◌, ◌≡◌, refl, ◌⊎◌, subst, Bool, true, false, String, Option, none, some, List, [],
  ◌∷◌, ◌++◌, length, update_where, leb, not, ◌&&◌, inl, inr, arith, Bool-cases, ◌==◌, ==_iff,
  In-find,
}
use linking_engine_backend.Publication.Rows.{
  PublicationPlan, Item, Reason, Db, is_approved_plan, plan_by_id, article_changed,
  not_selected_any_more, source_article_gone, connector_failed,
}
use linking_engine_backend.Publication.Artifact.{Artifact, verify_integrity}
use linking_engine_backend.Publication.Cohort.{ids_of}
use linking_engine_backend.Publication.Connector.{
  Site, EditOutcome, written, already_applied, stale, raised, apply_planned_edit,
}
use linking_engine_backend.Publication.Progress
use linking_engine_backend.Publication.Progress.{
  Progress, record_publication_applied, record_publication_skip, record_publication_failure,
}
use linking_engine_backend.Publication.Worker.Finalize.{count_items, applied_plan}
use linking_engine_backend.Publication.Worker.{
  Turn, Run, plan_stale, plan_failed, times, charge, bound_rows, retired_ids, is_empty,
  failure_exit, stale_exit, commit_exit, skip_exit, integrity_exit, edit_exit, with_article,
  with_integrity, with_locked, process_plan,
}

-- The counters of the attempt rise by these numbers of applied, skipped and failed links.
pub record Moves (p q : Progress) (applied skipped failed : ℕ) : Type 0 where
  pub applied_by : Progress.count q.applied ≡ Progress.count p.applied + applied
  pub skipped_by : Progress.count q.attempt_skipped ≡ Progress.count p.attempt_skipped + skipped
  pub failed_by : Progress.count q.attempt_failed ≡ Progress.count p.attempt_failed + failed
  pub same_total : q.total ≡ p.total

times_skip-Moves : (n : ℕ) (p : Progress) → Moves p (times n record_publication_skip p) 0 n 0
unfolding record_publication_skip
times_skip-Moves zero p = ground arith
times_skip-Moves (suc n) p = let m = times_skip-Moves n (record_publication_skip p) in ground arith

times_failure-Moves : (n : ℕ) (p : Progress) → Moves p (times n record_publication_failure p) 0 0 n
unfolding record_publication_failure
times_failure-Moves zero p = ground arith
times_failure-Moves (suc n) p =
    let m = times_failure-Moves n (record_publication_failure p) in ground arith

count_items-Moves :
    (items : List Item) (p : Progress) → Moves p (count_items items p) (length items) 0 0
unfolding count_items record_publication_applied
count_items-Moves [] p = ground arith
count_items-Moves (item ∷ items) p =
    let m = count_items-Moves items (record_publication_applied p) in ground arith

module _ {S : Type 0} (site : Site S) (digest : Artifact → String) (article : ℕ → Option (Option ℕ))
    (limit now : ℕ) where
  -- The plan is marked as applied and each of its links is counted as applied.
  abbrev pub IsApplied : ℕ → ℕ → Db → Option PublicationPlan → Run S → Run S → Type 0
  IsApplied plan_id links db found before after =
      (locked : PublicationPlan) × (found ≡ some locked)
      × (links ≡ length locked.items)
      × (after.db.plans ≡ update_where (λ p. p.id == plan_id) (applied_plan now) db.plans)
      × (after.alerts ≡ before.alerts)
      × (after.retryable ≡ before.retryable)
      × Moves before.progress after.progress links 0 0

  -- The links are counted as skipped; a plan that has become stale is reported.
  abbrev pub IsSkipped : ℕ → ℕ → Run S → Run S → Type 0
  IsSkipped plan_id links before after =
      ((after.alerts ≡ before.alerts)
        ⊎ ((reason : Reason) × (after.alerts ≡ before.alerts ++ plan_stale plan_id reason ∷ [])))
      × (after.retryable ≡ before.retryable)
      × Moves before.progress after.progress 0 links 0

  -- The links are counted as failed, and the run becomes retryable or the failure is reported.
  abbrev pub IsFailed : ℕ → ℕ → Run S → Run S → Type 0
  IsFailed plan_id links before after =
      (((after.retryable ≡ true) × (after.alerts ≡ before.alerts))
        ⊎ ((reason : Reason) × (blocked : Bool) × (after.alerts
              ≡ before.alerts ++ plan_failed plan_id reason blocked ∷ [])))
      × Moves before.progress after.progress 0 0 links

  abbrev pub IsCounted : ℕ → ℕ → Db → Option PublicationPlan → Run S → Run S → Type 0
  IsCounted plan_id links db found before after =
      ((number : ℕ) × IsApplied plan_id number db found before after)
      ⊎ (IsSkipped plan_id links before after ⊎ IsFailed plan_id links before after)

  module _ (turn : Turn) (n : ℕ) (db : Db) where
    failure-IsFailed :
        (plan_id : ℕ) (c : Bool) (ids : List ℕ) (reason : Reason) (run : Run S)
        → IsFailed plan_id n run
            (failure_exit site digest article limit now turn plan_id c ids reason n db run)
    unfolding failure_exit
    failure-IsFailed plan_id c ids reason run =
        elim (Bool-cases (
          not (is_empty ids)
          && leb (length ids)
              (charge site digest article limit now c ids reason (turn.after_rollback db)).0)) [
                | inl e ↦ rw e (inr (reason, false, refl), times_failure-Moves n run.progress)
                | inr e ↦ rw e (inl (ground arith, refl), times_failure-Moves n run.progress)
              ]

    module _ (locked : PublicationPlan) where
      commit-IsCounted :
          (run : Run S)
          → IsCounted locked.id n db
              (some locked)
              run
              (commit_exit site digest article limit now turn locked n db run)
      unfolding commit_exit
      commit-IsCounted run = elim (Bool-cases turn.commits) [
        | inl e ↦ rw e (
            inl (
              length locked.items,
              (locked, refl, refl, refl, refl, refl, count_items-Moves locked.items run.progress),
            ))
        | inr e ↦ rw e (
            inr (
              inr (
                failure-IsFailed locked.id false (ids_of (bound_rows locked.id db))
                  (connector_failed "commit failed") run)))
      ]

      edit-IsCounted :
          (run : Run S) (r : EditOutcome × S)
          → IsCounted locked.id n db
              (some locked)
              run
              (edit_exit site digest article limit now turn locked n db run r)
      unfolding stale_exit
      edit-IsCounted run (stale, s) =
          inr (inl (inr (article_changed, refl), refl, times_skip-Moves n run.progress))
      edit-IsCounted run (raised text, s) = inr (
          inr (
            failure-IsFailed locked.id true (ids_of (bound_rows locked.id db))
              (connector_failed text) (record run { remote = s })))
      edit-IsCounted run (written, s) = commit-IsCounted (record run { remote = s })
      edit-IsCounted run (already_applied, s) = commit-IsCounted (record run { remote = s })

      article-IsCounted :
          (run : Run S) (found : Option (Option ℕ))
          → IsCounted locked.id n db
              (some locked)
              run
              (with_article site digest article limit now turn locked n db run found)
      unfolding integrity_exit
      article-IsCounted run none =
          inr (inr (inr (source_article_gone, true, refl), times_failure-Moves n run.progress))
      article-IsCounted run (some external_id) =
          edit-IsCounted run (
            apply_planned_edit site external_id locked.original_html locked.updated_html run.remote)

      integrity-IsCounted :
          (source_id : ℕ) (run : Run S) (o : Option Reason)
          → IsCounted locked.id n db
              (some locked)
              run
              (with_integrity site digest article limit now turn locked source_id n db run o)
      unfolding integrity_exit
      integrity-IsCounted source_id run none = article-IsCounted run (article source_id)
      integrity-IsCounted source_id run (some reason) =
          inr (inr (inr (reason, true, refl), times_failure-Moves n run.progress))

  locked-IsCounted :
      (turn : Turn) (loaded : PublicationPlan) (db : Db) (run : Run S) (o : Option PublicationPlan)
      → plan_by_id loaded.id db.plans ≡ o
      → IsCounted loaded.id
          (length loaded.items)
          db
          o
          run
          (with_locked site digest article limit now turn loaded db run o)
  unfolding skip_exit stale_exit
  locked-IsCounted turn loaded db run none e =
      inr (inl (inl refl, refl, times_skip-Moves (length loaded.items) run.progress))
  locked-IsCounted turn loaded db run (some locked) e =
      elim (Bool-cases (is_approved_plan locked.status)) [
        | inr other ↦
            rw other
              (inr (inl (inl refl, refl, times_skip-Moves (length loaded.items) run.progress)))
        | inl status ↦ elim (Bool-cases (is_empty (retired_ids loaded.id db))) [
          | inr some_retired ↦
              rw (status, some_retired)
                (inr (
                  inl (
                    inr (not_selected_any_more (retired_ids loaded.id db), refl),
                    refl,
                    times_skip-Moves (length loaded.items) run.progress,
                  )))
          | inl all_selected ↦
              let (i, f) = In-find (λ (p : PublicationPlan). p.id == loaded.id) locked db.plans e in
              rw (status, all_selected)
                (subst
                  (λ (plan_id : ℕ). IsCounted plan_id (length loaded.items) db (some locked) run (
                    with_integrity site digest article limit now turn locked
                      loaded.source_article_id (length loaded.items) db run
                      (verify_integrity digest locked)))
                  ((==_iff locked.id loaded.id).0 f)
                  (integrity-IsCounted turn (length loaded.items) db locked loaded.source_article_id
                    run (verify_integrity digest locked)))
        ]
      ]

  -- Each plan of a run has one of three fates, and the counters show which. Either the plan is
  -- marked as applied and exactly the links of the locked row are counted as applied; or its links
  -- are counted as skipped, and at most one alert, that it is stale, is added; or they are counted
  -- as failed, and either the run becomes retryable or an alert of the failure is added. The other counters
  -- of the attempt and the total stay.
  pub process_plan-IsCounted :
      (turn : Turn) (loaded : PublicationPlan) (run : Run S)
      → let db = turn.before_lock run.db in
        IsCounted loaded.id
          (length loaded.items)
          db
          (plan_by_id loaded.id db.plans)
          run
          (process_plan site digest article limit now turn loaded run)
  unfolding process_plan
  process_plan-IsCounted turn loaded run =
      let db = turn.before_lock run.db in
      locked-IsCounted turn loaded db run (plan_by_id loaded.id db.plans) refl
