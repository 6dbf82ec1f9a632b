-- ===== src/Publication/Preparation.antt =====
-- Preparation (`_prepare_one` and `prepare_site` of app/services/publication_plan_service.py).
--
-- Another transaction may run during the network request of a preview, and another preparation
-- may insert between the locked re-read and the commit: `Turn` says what happens then. A row that
-- this transaction holds locked does not change, so before the commit only new plans appear.
pub mod Article
pub mod Outcome
pub mod Plans
use linking_engine_backend.Prelude.{
  ℕ, suc, ◌+◌, ◌≡◌, Bool, true, false, not, ◌&&◌, ◌||◌, String, str_eq, Option, none, some, List,
  [], ◌∷◌, ◌++◌, map, ltb, ◌==◌, if◌then◌else◌, is_none, select, update_where, find, count, elem,
  take, length, Result, ok, err,
}
use linking_engine_backend.Publication.Rows.{
  PublicationPlan, PlanStatus, Suggestion, Reason, LinkOutcome, Item, Db, is_approved_plan,
  is_active, is_unbound_selection, suggestion_by_id, newer_preparation,
}
use linking_engine_backend.Publication.Artifact.{Artifact, compute_plan_hash, snapshot_items}
use linking_engine_backend.Publication.Cohort.{
  ids_of, grouped_batch, expire_superseded, is_candidate,
}

-- LinkPreview of app/connectors/base.py
pub record LinkPreview : Type 0 where
  pub original_content : String
  pub updated_content : String
  pub outcomes : List LinkOutcome

pub data Message : Type 0 where
  selection_changed : Message
  approved_plan_covers : ℕ → Message
  preview_failed : String → Message
  concurrent_preparation : Message

pub record PreparationError : Type 0 where
  pub source_article_id : ℕ
  pub source_url : String
  pub message : Message

-- The world around the preparation of one article: the connector's answer, the URL of the
-- article, the transactions that commit during the request, the plans inserted before the commit.
pub record Turn : Type 0 where
  pub source_url : String
  pub preview_links : List Suggestion → Result String LinkPreview
  pub during_preview : Db → Db
  pub rivals : List PublicationPlan

pub data Prepared : Type 0 where
  plan : PublicationPlan → Prepared
  error : PreparationError → Prepared
  -- an exception that `_prepare_one` does not catch
  raised : Prepared

-- `[by_id[sid] for sid in suggestion_ids if sid in by_id]`
abbrev pub ordered_rows : List Suggestion → List ℕ → List Suggestion
ordered_rows rows [] = []
ordered_rows rows (n ∷ ns) =
    let rest = ordered_rows rows ns in
    elim (suggestion_by_id n rows) [ none ↦ rest | some r ↦ r ∷ rest ]

abbrev pub is_active_for : ℕ → PublicationPlan → Bool
is_active_for a p = p.source_article_id == a && is_active p.status

-- `_active_plan`
abbrev pub active_plan : ℕ → Db → Option PublicationPlan
active_plan a db = find (is_active_for a) db.plans

abbrev pub every : List ℕ → List ℕ → Bool
every [] ns = true
every (m ∷ ms) ns = elem m ns && every ms ns

-- `set(a) == set(b)`
abbrev pub same_set : List ℕ → List ℕ → Bool
same_set ms ns = every ms ns && every ns ms

abbrev pub still_selected : Db → List ℕ → List ℕ
still_selected db ids =
    ids_of (select (λ r. elem r.id ids && is_unbound_selection r) db.suggestions)

-- `_supersede`
abbrev pub superseded_row : ℕ → PublicationPlan → PublicationPlan
superseded_row now p = record p {
  status = PlanStatus.superseded;
  invalidated_at = some now;
  failure_reason = some newer_preparation;
}

abbrev pub supersede : ℕ → Option PublicationPlan → List PublicationPlan → List PublicationPlan
supersede now none plans = plans
supersede now (some old) plans = update_where (λ p. p.id == old.id) (superseded_row now) plans

-- The commit of a new row: refused by the index `ux_publication_plans_active_source` where the
-- article has an active plan, and then the whole transaction is rolled back.
abbrev pub commit_plan : ℕ → Option PublicationPlan → PublicationPlan → Db → Option Db
commit_plan now existing p db =
    let plans = supersede now existing db.plans in
    if is_none (find (is_active_for p.source_article_id) plans)
    then some (record db { plans = plans ++ p ∷ []; next_plan_id = suc db.next_plan_id })
    else none

-- The plan that a preview gives; no artifact field is set later.
abbrev pub draft : ℕ → ℕ → Turn → LinkPreview → List Item → ℕ → PublicationPlan
draft site_id source_article_id turn preview items id = record {
  id = id;
  site_id = site_id;
  source_article_id = source_article_id;
  source_url = turn.source_url;
  status = PlanStatus.prepared;
  original_html = preview.original_content;
  updated_html = preview.updated_content;
  items = items;
  plan_hash = "";
  approved_hash = none;
  approved_by = none;
  approved_at = none;
  applied_at = none;
  invalidated_at = none;
  failure_reason = none;
}

abbrev pub refused : Turn → ℕ → Message → Prepared
refused turn a m =
    error (record { source_article_id = a; source_url = turn.source_url; message = m })

abbrev pub is_approved_one : Option PublicationPlan → Bool
is_approved_one none = false
is_approved_one (some p) = is_approved_plan p.status

abbrev pub covering_id : Option PublicationPlan → ℕ
covering_id none = 0
covering_id (some p) = p.id

module _ (digest : Artifact → String) (site_id : ℕ) (now : ℕ) where
  abbrev pub hashed : PublicationPlan → PublicationPlan
  hashed p = record p { plan_hash = compute_plan_hash digest p }

  abbrev pub commit_outcome : Turn → ℕ → PublicationPlan → Db → Option Db → Prepared × Db
  commit_outcome turn a p db none = (refused turn a concurrent_preparation, db)
  commit_outcome turn a p db (some db') = (plan p, db')

  -- The last part: supersede what is replaced, insert, commit.
  unfoldable pub replace_plan :
      Turn → ℕ → PublicationPlan → Option PublicationPlan → Db → Prepared × Db
  replace_plan turn a p existing db =
      let with_rivals = record db { plans = db.plans ++ turn.rivals } in
      commit_outcome turn a p with_rivals (commit_plan now existing p with_rivals)

  -- An unchanged article keeps the row that an operator may be looking at.
  abbrev pub replace_or_reuse :
      Turn → ℕ → PublicationPlan → Option PublicationPlan → Db → Prepared × Db
  replace_or_reuse turn a p none db = replace_plan turn a p none db
  replace_or_reuse turn a p (some old) db =
      if str_eq old.plan_hash p.plan_hash
      then (plan old, db)
      else replace_plan turn a p (some old) db

  -- What follows the preview, on the state `db` that the locked reads see.
  unfoldable pub finish_article : Turn → ℕ → List ℕ → PublicationPlan → Db → Prepared × Db
  finish_article turn a ids p db =
      let existing = active_plan a db in
      if is_approved_one existing
      then (refused turn a (approved_plan_covers (covering_id existing)), db)
      else if not (same_set (still_selected db ids) ids)
      then (refused turn a selection_changed, db)
      else replace_or_reuse turn a p existing db

  abbrev pub with_items : Turn → ℕ → List ℕ → LinkPreview → Option (List Item) → Db → Prepared × Db
  with_items turn a ids preview none db = (raised, db)
  with_items turn a ids preview (some items) db =
      finish_article turn a ids (hashed (draft site_id a turn preview items db.next_plan_id)) db

  abbrev pub with_preview :
      Turn → ℕ → List ℕ → List Suggestion → Result String LinkPreview → Db → Prepared × Db
  with_preview turn a ids ordered (err text) db = (refused turn a (preview_failed text), db)
  with_preview turn a ids ordered (ok preview) db =
      with_items turn a ids preview (snapshot_items ordered preview.outcomes) db

  abbrev pub with_rows : Turn → ℕ → List ℕ → List Suggestion → Db → Prepared × Db
  with_rows turn a ids [] db =
      (error (record { source_article_id = a; source_url = ""; message = selection_changed }), db)
  with_rows turn a ids (r ∷ rs) db =
      let existing = active_plan a db in
      if is_approved_one existing
      then (refused turn a (approved_plan_covers (covering_id existing)), db)
      else with_preview turn a ids (r ∷ rs) (turn.preview_links (r ∷ rs)) (turn.during_preview db)

  unfoldable pub prepare_one : Turn → ℕ → List ℕ → Db → Prepared × Db
  unfolding finish_article replace_plan snapshot_items
  prepare_one turn a ids db = with_rows turn a ids (ordered_rows db.suggestions ids) db

-- PublicationPreparation
pub record Preparation : Type 0 where
  pub site_id : ℕ
  pub selected_suggestions : ℕ
  pub plans : List PublicationPlan
  pub errors : List PreparationError
  pub has_more : Bool

abbrev pub add_outcome : Prepared → Preparation → Option Preparation
add_outcome (plan p) r = some (record r { plans = r.plans ++ p ∷ [] })
add_outcome (error e) r = some (record r { errors = r.errors ++ e ∷ [] })
add_outcome raised r = none

module _ (digest : Artifact → String) (turns : ℕ → Turn) (now : ℕ) where
  -- `none` is an exception that ends the preparation; what was committed stays committed.
  unfoldable pub prepare_articles : List (ℕ × List ℕ) → Preparation → Db → Option Preparation × Db
  prepare_articles [] r db = (some r, db)
  prepare_articles ((a, ids) ∷ batch) r db =
      let (outcome, db') = prepare_one digest r.site_id now (turns a) a ids db in
      elim (add_outcome outcome r) [ none ↦ (none, db') | some r' ↦ prepare_articles batch r' db' ]

  -- `generate` stands for generate_missing_placements, whose answers come from a model: it fills
  -- in the placements of the batch.
  unfoldable pub prepare_site :
      (List (ℕ × List ℕ) → Db → Db) → ℕ → ℕ → Option (List ℕ) → Db → Option Preparation × Db
  unfolding prepare_articles grouped_batch expire_superseded
  prepare_site generate site_id max_articles only db =
      let (groups, superseded) = grouped_batch db.suggestions site_id only in
      let (retired, db₁) = expire_superseded superseded db in
      let batch = take max_articles groups in
      let preparation : Preparation = record {
        site_id = site_id;
        selected_suggestions = count (is_candidate site_id) db₁.suggestions;
        plans = [];
        errors = [];
        has_more = ltb max_articles (length groups);
      } in
      elim batch [
        | [] ↦ (some preparation, db₁)
        | g ∷ gs ↦ prepare_articles (g ∷ gs) preparation (generate (g ∷ gs) db₁)
      ]
