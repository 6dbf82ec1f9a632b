-- ===== src/Publication/Worker.antt =====
-- The publication worker (app/tasks/publication.py).
--
-- A plan is processed under its lock. `Turn` says what other transactions commit while the
-- worker waits for the lock, and between a rollback and the read that follows it, and whether the
-- final commit succeeds. The suggestion events, the log lines and the texts of failures are left
-- out, and so are failures of the database other than that commit.
pub mod Retire
pub mod Finalize
pub mod Sending
pub mod Evolution
pub mod States
pub mod Counting
pub mod Totals
use linking_engine_backend.Prelude.{
  ℕ, zero, suc, ◌+◌, ◌==◌, Bool, true, false, not, ◌&&◌, ◌||◌, String, Option, none, some, List, [],
  ◌∷◌, ◌++◌, map, leb, ltb, if◌then◌else◌, select, update_where, count, elem, length, is_some_of,
  is_none, find,
}
use linking_engine_backend.Publication.Rows.{
  PublicationPlan, Suggestion, SuggestionStatus, Reason, LinkOutcome, Item, Db, is_approved_plan,
  is_selected, plan_by_id, not_selected_any_more, article_changed, source_article_gone,
  connector_failed,
}
use linking_engine_backend.Publication.Artifact.{Artifact, verify_integrity}
use linking_engine_backend.Publication.Cohort.{ids_of}
use linking_engine_backend.Publication.Connector.{
  Site, EditOutcome, written, already_applied, stale, raised, apply_planned_edit,
}
use linking_engine_backend.Publication.Progress
use linking_engine_backend.Publication.Progress.{
  Progress, Outcomes, begin_publication_attempt, resume_outcome_counts, record_publication_applied,
  record_publication_skip, record_publication_failure, complete_publication_success,
}
use linking_engine_backend.Publication.Worker.Retire.{
  retire_stale, fail_plan, record_attempt_failure, is_bound_to,
}
use linking_engine_backend.Publication.Worker.Finalize.{
  finalize_items, applied_plan, tally_items, count_items,
}

pub data Alert : Type 0 where
  plan_stale : ℕ → Reason → Alert
  plan_failed : ℕ → Reason → Bool → Alert

pub record Turn : Type 0 where
  pub before_lock : Db → Db
  pub after_rollback : Db → Db
  pub commits : Bool

-- The state of one run of the task.
pub record Run (S : Type 0) : Type 0 where
  pub db : Db
  pub remote : S
  pub progress : Progress
  pub totals : Outcomes
  pub retryable : Bool
  pub alerts : List Alert

-- `for _ in range(n): progress = f(progress)`
abbrev pub times : ℕ → (Progress → Progress) → Progress → Progress
times zero f p = p
times (suc n) f p = times n f (f p)

abbrev pub bound_rows : ℕ → Db → List Suggestion
bound_rows plan_id db = select (is_bound_to plan_id) db.suggestions

abbrev pub retired_ids : ℕ → Db → List ℕ
retired_ids plan_id db = ids_of (select (λ r. not (is_selected r.status)) (bound_rows plan_id db))

abbrev pub is_empty : List ℕ → Bool
is_empty [] = true
is_empty (n ∷ ns) = false

module _ {S : Type 0} (site : Site S) (digest : Artifact → String) (article : ℕ → Option (Option ℕ))
    (limit now : ℕ) where
  -- Another worker took the plan, or an operator invalidated it.
  pub skip_exit : ℕ → Db → Run S → Run S
  skip_exit items db run = record run {
    db = db;
    progress = times items record_publication_skip run.progress;
  }

  -- `_handle_stale_plan` after the rollback
  pub stale_exit : Turn → ℕ → Reason → ℕ → Db → Run S → Run S
  unfolding retire_stale
  stale_exit turn plan_id reason items db run = record run {
    db = retire_stale now plan_id reason (turn.after_rollback db);
    alerts = run.alerts ++ plan_stale plan_id reason ∷ [];
    progress = times items record_publication_skip run.progress;
  }

  -- The handler of PlanIntegrityError
  pub integrity_exit : Turn → ℕ → Reason → ℕ → Db → Run S → Run S
  unfolding fail_plan
  integrity_exit turn plan_id reason items db run = record run {
    db = fail_plan now plan_id reason (turn.after_rollback db);
    alerts = run.alerts ++ plan_failed plan_id reason true ∷ [];
    progress = times items record_publication_failure run.progress;
  }

  abbrev pub charge : Bool → List ℕ → Reason → Db → ℕ × Db
  charge true attempted reason db = record_attempt_failure limit attempted reason db
  charge false attempted reason db = (0, db)

  -- The handler of any other exception
  pub failure_exit : Turn → ℕ → Bool → List ℕ → Reason → ℕ → Db → Run S → Run S
  unfolding fail_plan record_attempt_failure
  failure_exit turn plan_id is_charged attempted reason items db run =
      let charged = charge is_charged attempted reason (turn.after_rollback db) in
      let exhausted = not (is_empty attempted) && leb (length attempted) charged.0 in
      record run {
        db = if exhausted then fail_plan now plan_id reason charged.1 else charged.1;
        alerts =
            if exhausted then run.alerts ++ plan_failed plan_id reason false ∷ [] else run.alerts;
        retryable = run.retryable || not exhausted;
        progress = times items record_publication_failure run.progress;
      }

  -- The written links, or the handler if the commit fails: the write is not undone then.
  pub commit_exit : Turn → PublicationPlan → ℕ → Db → Run S → Run S
  unfolding finalize_items tally_items count_items failure_exit
  commit_exit turn locked items db run =
      if turn.commits
      then record run {
        db = record db {
          plans = update_where (λ p. p.id == locked.id) (applied_plan now) db.plans;
          suggestions = finalize_items now locked.id locked.items db.suggestions;
        };
        progress = count_items locked.items run.progress;
        totals = tally_items locked.items run.totals;
      }
      else failure_exit turn locked.id false (ids_of (bound_rows locked.id db))
          (connector_failed "commit failed") items db run

  abbrev pub edit_exit : Turn → PublicationPlan → ℕ → Db → Run S → EditOutcome × S → Run S
  edit_exit turn locked items db run (stale, s) =
      stale_exit turn locked.id article_changed items db (record run { remote = s })
  edit_exit turn locked items db run (raised text, s) =
      failure_exit turn locked.id true (ids_of (bound_rows locked.id db)) (connector_failed text)
        items db (record run { remote = s })
  edit_exit turn locked items db run (written, s) =
      commit_exit turn locked items db (record run { remote = s })
  edit_exit turn locked items db run (already_applied, s) =
      commit_exit turn locked items db (record run { remote = s })

  abbrev pub with_article : Turn → PublicationPlan → ℕ → Db → Run S → Option (Option ℕ) → Run S
  with_article turn locked items db run none =
      integrity_exit turn locked.id source_article_gone items db run
  with_article turn locked items db run (some external_id) =
      edit_exit turn locked items db run
        (apply_planned_edit site external_id locked.original_html locked.updated_html run.remote)

  abbrev pub with_integrity : Turn → PublicationPlan → ℕ → ℕ → Db → Run S → Option Reason → Run S
  with_integrity turn locked source_id items db run (some reason) =
      integrity_exit turn locked.id reason items db run
  with_integrity turn locked source_id items db run none =
      with_article turn locked items db run (article source_id)

  abbrev pub with_locked : Turn → PublicationPlan → Db → Run S → Option PublicationPlan → Run S
  with_locked turn loaded db run none = skip_exit (length loaded.items) db run
  with_locked turn loaded db run (some locked) =
      let items = length loaded.items in
      let retired = retired_ids loaded.id db in
      if not (is_approved_plan locked.status)
      then skip_exit items db run
      else if not (is_empty retired)
      then stale_exit turn loaded.id (not_selected_any_more retired) items db run
      else with_integrity turn locked loaded.source_article_id items db run
          (verify_integrity digest locked)

  -- One round of the loop of `_publish_approved_plans`.
  unfoldable pub process_plan : Turn → PublicationPlan → Run S → Run S
  unfolding skip_exit stale_exit integrity_exit commit_exit apply_planned_edit verify_integrity
  process_plan turn loaded run =
      let db = turn.before_lock run.db in
      with_locked turn loaded db run (plan_by_id loaded.id db.plans)

  unfoldable pub process_plans : List (Turn × PublicationPlan) → Run S → Run S
  process_plans [] run = run
  process_plans ((turn, loaded) ∷ rest) run = process_plans rest (process_plan turn loaded run)

-- `load_approved_plans`
unfoldable pub load_approved_plans : ℕ → Option (List ℕ) → Db → List PublicationPlan
load_approved_plans site_id plan_ids db =
    select
      (λ p.
        p.site_id == site_id
        && (is_approved_plan p.status && elim plan_ids [ none ↦ true | some ids ↦ elem p.id ids ]))
      db.plans

abbrev pub item_total : List PublicationPlan → ℕ
item_total [] = 0
item_total (p ∷ ps) = length p.items + item_total ps

-- How the task ends: it returns the final progress, or raises an error that RQ retries or not.
pub data TaskEnd : Type 0 where
  succeeded : Progress → TaskEnd
  failed : Bool → TaskEnd

module _ {S : Type 0} (site : Site S) (digest : Artifact → String) (article : ℕ → Option (Option ℕ))
    (limit now : ℕ) where
  abbrev pub task_end : Run S → TaskEnd
  task_end run =
      if Progress.count run.progress.attempt_failed == 0
      then succeeded (complete_publication_success run.progress)
      else failed run.retryable

  abbrev pub start_run : List PublicationPlan → Option Progress → Db → S → Run S
  start_run plans stored db remote = record {
    db = db;
    remote = remote;
    progress = begin_publication_attempt stored (item_total plans);
    totals = resume_outcome_counts stored;
    retryable = false;
    alerts = [];
  }

  abbrev pub with_turns : (ℕ → Turn) → List PublicationPlan → List (Turn × PublicationPlan)
  with_turns turn plans = map (λ (p : PublicationPlan). (turn p.id, p)) plans

  -- The loop between the first commit and the end of the task, from the run's stored progress.
  -- `turn` gives the turn of each plan.
  unfoldable pub publish_approved_plans :
      ℕ → Option (List ℕ) → (ℕ → Turn) → Option Progress → Db → S → TaskEnd × Run S
  unfolding load_approved_plans process_plans
  publish_approved_plans site_id plan_ids turn stored db remote =
      let plans = load_approved_plans site_id plan_ids db in
      let end =
        process_plans site digest article limit now (with_turns turn plans)
          (start_run plans stored db remote) in
      (task_end end, end)
