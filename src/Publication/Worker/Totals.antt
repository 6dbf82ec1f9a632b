-- ===== src/Publication/Worker/Totals.antt =====
-- What a whole run of the worker counts and how it ends (`_publish_approved_plans` of
-- app/tasks/publication.py).
use linking_engine_backend.Prelude.{ℕ, ◌+◌, ◌≡◌, String, Option, List, [], ◌∷◌, length}
use linking_engine_backend.Publication.Rows.{PublicationPlan, plan_by_id}
use linking_engine_backend.Publication.Artifact.{Artifact}
use linking_engine_backend.Publication.Connector.{Site}
use linking_engine_backend.Publication.Progress
use linking_engine_backend.Publication.Progress.{Progress}
use linking_engine_backend.Publication.Worker.{Turn, Run}
use linking_engine_backend.Publication.Worker.Counting.{IsApplied, IsSkipped, IsFailed}

-- What became of a plan, and of how many links.
pub data Fate : Type 0 where
  published : ℕ → Fate
  passed_over : ℕ → Fate
  broken : ℕ → Fate

abbrev pub links_published : List Fate → ℕ
links_published [] = 0
links_published (published n ∷ fates) = n + links_published fates
links_published (passed_over n ∷ fates) = links_published fates
links_published (broken n ∷ fates) = links_published fates

abbrev pub links_broken : List Fate → ℕ
links_broken [] = 0
links_broken (published n ∷ fates) = links_broken fates
links_broken (passed_over n ∷ fates) = links_broken fates
links_broken (broken n ∷ fates) = n + links_broken fates

module _ {S : Type 0} (site : Site S) (digest : Artifact → String) (article : ℕ → Option (Option ℕ))
    (limit now : ℕ) where
  abbrev pub HasFate : Turn → PublicationPlan → Fate → Run S → Run S → Type 0
  HasFate turn loaded (published n) before after =
      let db = turn.before_lock before.db in
      IsApplied site digest article limit now loaded.id n db (plan_by_id loaded.id db.plans) before
        after
  HasFate turn loaded (passed_over n) before after =
      (n ≡ length loaded.items) × IsSkipped site digest article limit now loaded.id n before after
  HasFate turn loaded (broken n) before after =
      (n ≡ length loaded.items) × IsFailed site digest article limit now loaded.id n before after

  -- The plans meet their fates one after the other.
  abbrev pub HaveFates : List (Turn × PublicationPlan) → List Fate → Run S → Run S → Type 0
  HaveFates [] [] before after = after ≡ before
  HaveFates [] (fate ∷ fates) before after = ⊥
  HaveFates (plan ∷ plans) [] before after = ⊥
  HaveFates ((turn, loaded) ∷ plans) (fate ∷ fates) before after =
      (next : Run S) × HasFate turn loaded fate before next × HaveFates plans fates next after

  -- The two counters that the end of the task depends on.
  abbrev pub Counts : List Fate → Run S → Run S → Type 0
  Counts fates before after =
      (Progress.count after.progress.applied
        ≡ Progress.count before.progress.applied + links_published fates)
      × (Progress.count after.progress.attempt_failed
          ≡ Progress.count before.progress.attempt_failed + links_broken fates)
      × (after.progress.total ≡ before.progress.total)
